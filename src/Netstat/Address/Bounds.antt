-- ===== src/Netstat/Address/Bounds.antt =====
-- What `parseAddr` promises of whatever it is given: no panic, and numbers in range.
use infra_pulse.Base.{
  ℕ, ◌+◌, ◌-◌, ◌*◌, ◌^◌, ◌<◌, ◌≤◌, List, [], ◌∷◌, ◌++◌, ◌≡◌, ◌≢◌, refl, subst, ◌⊎◌, inl, inr, arith,
  length, length-append, length-take_le, length-drop, take, drop, All, All-append, take-All,
  drop-All, Bool-cases, Option-cases, replicate, nat_eq, ◌==◌, ==_iff, Outcome, ok, err, panic,
  ◌>>=◌, >>=-eq-ok,
}
use infra_pulse.Base.Text.{Bytes, NumError, digit, split, parse_digits, parse_uint}
use infra_pulse.Netstat.{SockAddr, Error}
use infra_pulse.Netstat.Address.{
  little_endian, put, parsed, written, parse_ipv4, parse_groups, parse_ipv6, parse_ip,
  parse_addr_fields, parse_addr,
}
use infra_pulse.Netstat.Address.RoundTrip.{IsByte}

ok-injective : {A : Type 0} {a b : A} → ◌≡◌ {A = Outcome Error A} (ok a) (ok b) → a ≡ b
ok-injective h = cc

parse_digits-ne-panic : (base limit n : ℕ) (s : Bytes) → parse_digits base limit n s ≢ panic
unfolding parse_digits
parse_digits-ne-panic base limit n [] h = cc
parse_digits-ne-panic base limit n (c ∷ cs) h = elim (Option-cases (digit c)) [
  | inl e ↦ ground arith
  | inr (d, e) ↦ ground (arith, parse_digits-ne-panic base limit (n * base + d) cs)
]

parse_digits-lt :
    (base limit n : ℕ) (s : Bytes) {v : ℕ}
    → n < limit
    → parse_digits base limit n s ≡ ok v
    → v < limit
unfolding parse_digits
parse_digits-lt base limit n [] h e = ground arith
parse_digits-lt base limit n (c ∷ cs) {v} h e = elim (Option-cases (digit c)) [
  | inl f ↦ absurd (ground arith)
  | inr (d, f) ↦ ground (arith, parse_digits-lt base limit (n * base + d) cs {v = v})
]

pub parse_uint-ne-panic : (base bits : ℕ) (s : Bytes) → parse_uint base bits s ≢ panic
unfolding parse_uint
parse_uint-ne-panic base bits [] h = cc
parse_uint-ne-panic base bits (c ∷ cs) h = parse_digits-ne-panic base (2 ^ bits) 0 (c ∷ cs) h

pub parse_uint-lt :
    (base bits : ℕ) (s : Bytes) {v : ℕ}
    → 0 < 2 ^ bits
    → parse_uint base bits s ≡ ok v
    → v < 2 ^ bits
unfolding parse_uint
parse_uint-lt base bits [] p h = cc
parse_uint-lt base bits (c ∷ cs) p h = parse_digits-lt base (2 ^ bits) 0 (c ∷ cs) p h

pub parsed-ne-panic : (base bits : ℕ) (s : Bytes) → parsed (parse_uint base bits s) ≢ panic
parsed-ne-panic base bits s h = ground (arith, parse_uint-ne-panic base bits s)

-- The bytes of an address, of which a call of `PutUint32` changes four.
abbrev IsAddress : ℕ → Bytes → Type 0
IsAddress n ip = (length ip ≡ n) × All IsByte ip

little_endian-All : (v : ℕ) → All IsByte (little_endian v)
little_endian-All v = omega arith

-- The bytes after a write that fits.
abbrev put_bytes : ℕ → ℕ → Bytes → Bytes
put_bytes i v ip = take i ip ++ little_endian v ++ drop (i + 4) ip

put-put_bytes : (i v : ℕ) (ip : Bytes) → i + 4 ≤ length ip → put i v ip ≡ ok (put_bytes i v ip)
put-put_bytes i v ip h = ground arith

put_bytes-IsAddress :
    (i v n : ℕ) (ip : Bytes) → i + 4 ≤ length ip → IsAddress n ip → IsAddress n (put_bytes i v ip)
put_bytes-IsAddress i v n ip fits h = (
  omega (
    arith,
    length-append (take i ip ++ little_endian v) (drop (i + 4) ip),
    length-append (take i ip) (little_endian v),
    length-take_le i ip,
    length-drop (i + 4) ip,
  ),
  All-append IsByte (take i ip ++ little_endian v) (drop (i + 4) ip)
      (All-append IsByte (take i ip) (little_endian v) (take-All IsByte i ip h.1)
        (little_endian-All v))
      (drop-All IsByte (i + 4) ip h.1),
)

-- Whole groups that fit: the loop does not panic, and keeps the length.
parse_groups_fit :
    (k i n : ℕ) (ip s : Bytes)
    → length s ≡ 8 * k
    → i + 4 * k ≤ n
    → IsAddress n ip
    → (parse_groups i ip s ≢ panic)
      × ((ip' : Bytes) → parse_groups i ip s ≡ ok ip' → IsAddress n ip')
unfolding parse_groups
parse_groups_fit k i n ip [] h l a = ((λ e. cc), (λ ip' e. subst (IsAddress n) (ok-injective e) a))
parse_groups_fit k i n ip (a ∷ b ∷ c ∷ d ∷ e ∷ f ∷ g ∷ x ∷ rest) h l ad =
    let u = parse_uint 16 32 (a ∷ b ∷ c ∷ d ∷ e ∷ f ∷ g ∷ x ∷ []) in
    let fits : i + 4 ≤ length ip = omega arith in
    let ih =
      parse_groups_fit (k - 1) (i + 4) n (put_bytes i (written u) ip) rest (omega arith)
        (omega arith) (put_bytes-IsAddress i (written u) n ip fits ad) in
    rw (put-put_bytes i (written u) ip fits) (group_fits u (parse_uint-ne-panic 16 32 _) ih)
  where
    group_fits :
        {P : Bytes → Type 0} {next : Outcome Error Bytes} (u : Outcome NumError ℕ)
        → u ≢ panic
        → (next ≢ panic) × ((ip' : Bytes) → next ≡ ok ip' → P ip')
        → ((parsed u >>= λ v. next) ≢ panic)
          × ((ip' : Bytes) → (parsed u >>= λ v. next) ≡ ok ip' → P ip')
    group_fits (ok v) n ih = ih
    group_fits (err z) n ih = ((λ e. cc), (λ ip' e. cc))
    group_fits panic n ih = absurd (n refl)
parse_groups_fit k i n ip _ h l a = absurd (omega arith)

parse_ipv4-IsAddress : (s ip : Bytes) → parse_ipv4 s ≡ ok ip → IsAddress 4 ip
unfolding parse_ipv4
parse_ipv4-IsAddress s ip e = go (parse_uint 16 32 s) e
  where
    go :
        (o : Outcome NumError ℕ) → (parsed o >>= λ v. ok (little_endian v)) ≡ ok ip → IsAddress 4 ip
    go (ok v) e = subst (IsAddress 4) (ok-injective e) (refl, little_endian-All v)
    go (err z) e = cc
    go panic e = cc

parse_ipv6_fit :
    (s : Bytes)
    → length s ≡ 32
    → (parse_ipv6 s ≢ panic) × ((ip : Bytes) → parse_ipv6 s ≡ ok ip → IsAddress 16 ip)
unfolding parse_ipv6
parse_ipv6_fit s h = parse_groups_fit 4 0 16 (replicate 16 0) s h (omega arith) (omega arith)

-- The bytes of an IPv4 or an IPv6 address.
abbrev pub IsIpAddress : Bytes → Type 0
IsIpAddress ip = ((length ip ≡ 4) ⊎ (length ip ≡ 16)) × All IsByte ip

parse_ip_fit :
    (s : Bytes) → (parse_ip s ≢ panic) × ((ip : Bytes) → parse_ip s ≡ ok ip → IsIpAddress ip)
parse_ip_fit s = elim (Bool-cases (length s == 8)) [
  | inl four ↦
      unfold parse_ip in
      rw four (
        unfold parse_ipv4 in ground (arith, parsed-ne-panic 16 32 s),
        λ ip e. let (n, a) = parse_ipv4-IsAddress s ip e in (inl n, a),
      )
  | inr other ↦ elim (Bool-cases (length s == 32)) [
    | inl six ↦
        let fit = parse_ipv6_fit s ((==_iff (length s) 32).0 six) in
        unfold parse_ip in rw (other, six) (fit.0, λ ip e. let (n, a) = fit.1 ip e in (inr n, a))
    | inr neither ↦ unfold parse_ip in rw (other, neither) ((λ e. cc), (λ ip e. cc))
  ]
]

parsed-lt : (s : Bytes) {v : ℕ} → parsed (parse_uint 16 16 s) ≡ ok v → v < 65536
parsed-lt s {v} h = ground (arith, parse_uint-lt 16 16 s {v = v})

abbrev IsGoodAddr : SockAddr → Type 0
IsGoodAddr a = IsIpAddress a.ip × (a.port < 65536)

parse_addr_fields-ne-panic : (s : Bytes) (fs : List Bytes) → parse_addr_fields s fs ≢ panic
unfolding parse_addr_fields
parse_addr_fields-ne-panic s [] h = cc
parse_addr_fields-ne-panic s (host ∷ []) h = cc
parse_addr_fields-ne-panic s (host ∷ port ∷ fs) h =
    ground (arith, (parse_ip_fit host).0, parsed-ne-panic 16 16 port)

parse_addr_fields-IsGoodAddr :
    (s : Bytes) (fs : List Bytes) (a : SockAddr) → parse_addr_fields s fs ≡ ok a → IsGoodAddr a
unfolding parse_addr_fields
parse_addr_fields-IsGoodAddr s [] a h = cc
parse_addr_fields-IsGoodAddr s (host ∷ []) a h = cc
parse_addr_fields-IsGoodAddr s (host ∷ port ∷ fs) a h =
    let (ip, e, later) = >>=-eq-ok (parse_ip host) _ h in
    let (v, f, last) = >>=-eq-ok (parsed (parse_uint 16 16 port)) _ later in
    subst IsGoodAddr (ok-injective last) ((parse_ip_fit host).1 ip e, parsed-lt port f)

-- `parseAddr` panics on no input: it lets no group of `parseIPv6` be cut short. What it returns is
-- an IPv4 or an IPv6 address, of 4 or 16 bytes, with a port below 65536.
pub parse_addr-IsIpAddress :
    (s : Bytes)
    → (parse_addr s ≢ panic)
      × ((a : SockAddr) → parse_addr s ≡ ok a → IsIpAddress a.ip × (a.port < 65536))
unfolding parse_addr
parse_addr-IsIpAddress s =
    (parse_addr_fields-ne-panic s (split b':' s), parse_addr_fields-IsGoodAddr s (split b':' s))
