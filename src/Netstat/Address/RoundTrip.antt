-- ===== src/Netstat/Address/RoundTrip.antt =====
-- Addresses as the kernel prints them: each word of four bytes as one little-endian number in
-- hexadecimal, then a colon and the port.
use infra_pulse.Base.{
  ℕ, ◌+◌, ◌-◌, ◌*◌, ◌^◌, ◌/◌, ◌%◌, ◌<◌, ◌≤◌, some, List, [], ◌∷◌, ◌++◌, ◌≡◌, ◌≢◌, refl, ap, ◌∙◌,
  arith, ltb, length, length-append, take-length_append, drop-length_append, All, All-append,
  append_assoc, nat_eq, if◌then◌else◌, ok,
}
use infra_pulse.Base.Text.{Bytes, digit, split, parse_digits, parse_uint}
use infra_pulse.Netstat.Address.{
  little_endian, put, parse_ipv4, parse_groups, parse_ipv6, parse_ip, parse_addr_fields, parse_addr,
}

-- The printer's digit of a number below 16.
abbrev pub hex_digit : ℕ → ℕ
hex_digit d = if ltb d 10 then b'0' + d else b'A' + d - 10

abbrev pub hex_bytes : List ℕ → Bytes
hex_bytes [] = []
hex_bytes (b ∷ bs) = hex_digit (b / 16) ∷ hex_digit (b % 16) ∷ hex_bytes bs

abbrev pub IsByte : ℕ → Type 0
IsByte b = b < 256

-- Bytes in network order.
pub record Word : Type 0 where
  pub b0 : ℕ
  pub b1 : ℕ
  pub b2 : ℕ
  pub b3 : ℕ

abbrev pub IsWord : Word → Type 0
IsWord w = IsByte w.b0 × IsByte w.b1 × IsByte w.b2 × IsByte w.b3

abbrev pub hex_word : Word → Bytes
hex_word w = hex_bytes (w.b3 ∷ w.b2 ∷ w.b1 ∷ w.b0 ∷ [])

abbrev pub hex_words : List Word → Bytes
hex_words [] = []
hex_words (w ∷ ws) = hex_word w ++ hex_words ws

abbrev pub ip_of : List Word → Bytes
ip_of [] = []
ip_of (w ∷ ws) = w.b0 ∷ w.b1 ∷ w.b2 ∷ w.b3 ∷ ip_of ws

digit-hex_digit : (d : ℕ) → d < 16 → digit (hex_digit d) ≡ some d
unfolding digit
digit-hex_digit d h = ground arith

-- The number whose bytes follow those of `n`.
abbrev big_endian : ℕ → List ℕ → ℕ
big_endian n [] = n
big_endian n (b ∷ bs) = big_endian (n * 256 + b) bs

parse_digits-hex_digit :
    (limit n d : ℕ) (cs : Bytes)
    → d < 16
    → n * 16 + d < limit
    → parse_digits 16 limit n (hex_digit d ∷ cs) ≡ parse_digits 16 limit (n * 16 + d) cs
unfolding parse_digits
parse_digits-hex_digit limit n d cs h k = ground (arith, digit-hex_digit d h)

big_endian-le : (n : ℕ) (bs : List ℕ) → n ≤ big_endian n bs
big_endian-le n [] = omega arith
big_endian-le n (b ∷ bs) = omega (arith, big_endian-le (n * 256 + b) bs)

parse_digits-hex_bytes :
    (limit n : ℕ) (bs : List ℕ)
    → All IsByte bs
    → big_endian n bs < limit
    → parse_digits 16 limit n (hex_bytes bs) ≡ ok (big_endian n bs)
parse_digits-hex_bytes limit n [] h k = unfold parse_digits in refl
parse_digits-hex_bytes limit n (b ∷ bs) h k =
    let small = big_endian-le (n * 256 + b) bs in
    parse_digits-hex_digit limit n (b / 16) _ (omega arith) (omega arith)
    ∙ parse_digits-hex_digit limit (n * 16 + b / 16) (b % 16) _ (omega arith) (omega arith)
    ∙ rw (num n b) (parse_digits-hex_bytes limit (n * 256 + b) bs h.1 k)
  where
    num : (n b : ℕ) → (n * 16 + b / 16) * 16 + b % 16 ≡ n * 256 + b
    num n b = omega arith

parse_uint-hex_bytes :
    (bits b : ℕ) (bs : List ℕ)
    → All IsByte (b ∷ bs)
    → big_endian 0 (b ∷ bs) < 2 ^ bits
    → parse_uint 16 bits (hex_bytes (b ∷ bs)) ≡ ok (big_endian 0 (b ∷ bs))
unfolding parse_uint
parse_uint-hex_bytes bits b bs = parse_digits-hex_bytes (2 ^ bits) 0 (b ∷ bs)

-- The number that the kernel prints for a word.
abbrev number_of : Word → ℕ
number_of w = big_endian 0 (w.b3 ∷ w.b2 ∷ w.b1 ∷ w.b0 ∷ [])

parse_uint-hex_word : (w : Word) → IsWord w → parse_uint 16 32 (hex_word w) ≡ ok (number_of w)
parse_uint-hex_word w (h0, h1, h2, h3) =
    parse_uint-hex_bytes 32 w.b3 (w.b2 ∷ w.b1 ∷ w.b0 ∷ []) (h3, (h2, (h1, (h0, tt)))) (omega arith)

little_endian-number_of :
    (w : Word) → IsWord w → little_endian (number_of w) ≡ w.b0 ∷ w.b1 ∷ w.b2 ∷ w.b3 ∷ []
little_endian-number_of w (h0, h1, h2, h3) = ground arith

parse_ipv4-hex_word : (w : Word) → IsWord w → parse_ipv4 (hex_word w) ≡ ok (ip_of (w ∷ []))
unfolding parse_ipv4
parse_ipv4-hex_word w h = rw (parse_uint-hex_word w h) (ap ok (little_endian-number_of w h))

-- `PutUint32` behind the bytes that are written already.
put-append :
    (done : Bytes) (v a b c d : ℕ) (rest : Bytes)
    → put (length done) v (done ++ a ∷ b ∷ c ∷ d ∷ rest) ≡ ok (done ++ little_endian v ++ rest)
put-append done v a b c d rest =
    rw (length-append, take-length_append, drop-length_append) (ground arith)

abbrev zeros : List Word → Bytes
zeros [] = []
zeros (w ∷ ws) = 0 ∷ 0 ∷ 0 ∷ 0 ∷ zeros ws

parse_groups-hex_words :
    (ws : List Word) (done : Bytes)
    → All IsWord ws
    → parse_groups (length done) (done ++ zeros ws) (hex_words ws) ≡ ok (done ++ ip_of ws)
unfolding parse_groups
parse_groups-hex_words [] done h = refl
parse_groups-hex_words (w ∷ ws) done h =
    let quad : Bytes = w.b0 ∷ w.b1 ∷ w.b2 ∷ w.b3 ∷ [] in
    let longer : length done + 4 ≡ length (done ++ quad) = omega (arith, length-append done quad) in
    rw (parse_uint-hex_word w h.0, put-append, little_endian-number_of w h.0)
      (rw longer
        (parse_groups-hex_words ws (done ++ quad) h.1 ∙ ap ok (append_assoc done quad (ip_of ws))))

abbrev NoColon : ℕ → Type 0
NoColon c = c ≢ b':'

split-NoColon : (s : Bytes) → All NoColon s → split b':' s ≡ s ∷ []
unfolding split
split-NoColon [] h = refl
split-NoColon (c ∷ cs) h = ground (arith, split-NoColon cs h.1)

split_colon :
    (s t : Bytes) → All NoColon s → All NoColon t → split b':' (s ++ b':' ∷ t) ≡ s ∷ t ∷ []
unfolding split
split_colon [] t h k = ap (◌∷◌ []) (split-NoColon t k)
split_colon (c ∷ cs) t h k = ground (arith, split_colon cs t h.1 k)

hex_bytes-NoColon : (bs : List ℕ) → All IsByte bs → All NoColon (hex_bytes bs)
hex_bytes-NoColon [] h = tt
hex_bytes-NoColon (b ∷ bs) h = (
  hex_digit-NoColon (b / 16) (omega arith),
  (hex_digit-NoColon (b % 16) (omega arith), hex_bytes-NoColon bs h.1),
)
  where
    hex_digit-NoColon : (d : ℕ) → d < 16 → NoColon (hex_digit d)
    hex_digit-NoColon d h = ground arith

hex_words-NoColon : (ws : List Word) → All IsWord ws → All NoColon (hex_words ws)
hex_words-NoColon [] h = tt
hex_words-NoColon (w ∷ ws) ((h0, h1, h2, h3), t) =
    All-append NoColon (hex_word w) (hex_words ws)
      (hex_bytes-NoColon (w.b3 ∷ w.b2 ∷ w.b1 ∷ w.b0 ∷ []) (h3, (h2, (h1, (h0, tt)))))
      (hex_words-NoColon ws t)

-- The words of an IPv4 or an IPv6 address.
pub data IsIp : List Word → Type 0 where
  v4 : (w : Word) → IsWord w → IsIp (w ∷ [])
  v6 : (w0 w1 w2 w3 : Word) → All IsWord (w0 ∷ w1 ∷ w2 ∷ w3 ∷ []) → IsIp (w0 ∷ w1 ∷ w2 ∷ w3 ∷ [])

IsIp-All : {ws : List Word} → IsIp ws → All IsWord ws
IsIp-All (v4 w h) = (h, tt)
IsIp-All (v6 w0 w1 w2 w3 h) = h

parse_ip-hex_words : {ws : List Word} → IsIp ws → parse_ip (hex_words ws) ≡ ok (ip_of ws)
unfolding parse_ip parse_ipv6
parse_ip-hex_words (v4 w h) = parse_ipv4-hex_word w h
parse_ip-hex_words (v6 w0 w1 w2 w3 h) = parse_groups-hex_words (w0 ∷ w1 ∷ w2 ∷ w3 ∷ []) [] h

abbrev pub hex_port : ℕ → Bytes
hex_port p = hex_bytes (p / 256 ∷ p % 256 ∷ [])

-- An address that the kernel prints, of one word (IPv4) or four (IPv6) with a port below 65536, is
-- read back: its bytes in network order, and the port.
pub parse_addr-hex :
    (ws : List Word) (port : ℕ)
    → IsIp ws
    → port < 65536
    → parse_addr (hex_words ws ++ b':' ∷ hex_port port) ≡ ok (record { ip = ip_of ws; port = port })
unfolding parse_addr parse_addr_fields
parse_addr-hex ws port h k =
    let bytes : All IsByte (port / 256 ∷ port % 256 ∷ []) = (omega arith, (omega arith, tt)) in
    let number : big_endian 0 (port / 256 ∷ port % 256 ∷ []) ≡ port = omega arith in
    rw (
      split_colon (hex_words ws) (hex_port port) (hex_words-NoColon ws (IsIp-All h))
          (hex_bytes-NoColon (port / 256 ∷ port % 256 ∷ []) bytes),
      parse_ip-hex_words h,
      parse_uint-hex_bytes 16 (port / 256) (port % 256 ∷ []) bytes (omega arith),
      number,
    )
