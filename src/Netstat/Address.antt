-- ===== src/Netstat/Address.antt =====
-- `parseIPv4`, `parseIPv6` and `parseAddr`.
pub mod RoundTrip
pub mod Bounds
use infra_pulse.Base.{
  ℕ, ◌+◌, ◌/◌, ◌%◌, Bool, true, false, Option, none, some, List, [], ◌∷◌, ◌++◌, leb, length, take,
  drop, replicate, nat_eq, ◌==◌, if◌then◌else◌, Outcome, ok, err, panic, ◌>>=◌,
}
use infra_pulse.Base.Text.{Bytes, NumError, split, parse_uint}
use infra_pulse.Netstat.{SockAddr, Error, addr_fields, addr_format, number}

abbrev pub ipv4_str_len : ℕ
ipv4_str_len = 8

abbrev pub ipv6_str_len : ℕ
ipv6_str_len = 32

-- An error of `strconv` is passed on.
abbrev pub parsed : Outcome NumError ℕ → Outcome Error ℕ
parsed (ok n) = ok n
parsed (err e) = err (number e)
parsed panic = panic

-- `binary.LittleEndian.PutUint32`
abbrev pub little_endian : ℕ → Bytes
little_endian v = v % 256 ∷ v / 256 % 256 ∷ v / 65536 % 256 ∷ v / 16777216 % 256 ∷ []

unfoldable pub parse_ipv4 : Bytes → Outcome Error Bytes
parse_ipv4 s = do v ← parsed (parse_uint 16 32 s); ok (little_endian v)

-- `PutUint32(ip[i:i+4], v)`: out of range the slice expression panics.
abbrev pub put : ℕ → ℕ → Bytes → Outcome Error Bytes
put i v ip =
    if leb (i + 4) (length ip) then ok (take i ip ++ little_endian v ++ drop (i + 4) ip) else panic

-- What `ParseUint` returns beside its error is 0 or the largest value; it is written, but the
-- address is dropped with it.
abbrev pub written : Outcome NumError ℕ → ℕ
written (ok n) = n
written _ = 0

-- The loop of `parseIPv6` from `ip[i:]` on. A last group of less than 8 bytes panics at `s[0:8]`.
unfoldable pub parse_groups : ℕ → Bytes → Bytes → Outcome Error Bytes
parse_groups i ip [] = ok ip
parse_groups i ip (a ∷ b ∷ c ∷ d ∷ e ∷ f ∷ g ∷ h ∷ rest) = do
  let u = parse_uint 16 32 (a ∷ b ∷ c ∷ d ∷ e ∷ f ∷ g ∷ h ∷ [])
  ip' ← put i (written u) ip
  v ← parsed u
  parse_groups (i + 4) ip' rest
parse_groups i ip _ = panic

unfoldable pub parse_ipv6 : Bytes → Outcome Error Bytes
parse_ipv6 s = parse_groups 0 (replicate 16 0) s

unfoldable pub parse_ip : Bytes → Outcome Error Bytes
parse_ip field =
    if length field == ipv4_str_len
    then parse_ipv4 field
    else if length field == ipv6_str_len
    then parse_ipv6 field
    else err (addr_format field)

-- `parseAddr` on its fields
unfoldable pub parse_addr_fields : Bytes → List Bytes → Outcome Error SockAddr
parse_addr_fields s (host ∷ port ∷ _) = do
  ip ← parse_ip host
  v ← parsed (parse_uint 16 16 port)
  ok (record { ip = ip; port = v })
parse_addr_fields s _ = err (addr_fields s)

unfoldable pub parse_addr : Bytes → Outcome Error SockAddr
parse_addr s = parse_addr_fields s (split b':' s)
