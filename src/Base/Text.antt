-- ===== src/Base/Text.antt =====
-- Byte strings, and the functions of Go's `strings`, `bytes` and `strconv` that the program calls,
-- on bytes. `strings.Fields` also splits at the white space of Unicode; the files of /proc are ASCII.
use Prim.Native.Char.{code}
use infra_pulse.Base.{
  ℕ, zero, suc, ◌+◌, ◌-◌, ◌*◌, ◌/◌, ◌%◌, ◌^◌, String, Bool, true, false, ◌&&◌, ◌||◌, Option, none,
  some, List, [], ◌∷◌, ltb, leb, nat_eq, list_eq, ◌==◌, if◌then◌else◌, Outcome, ok, err, panic,
  take, drop, length, ◌++◌,
}
use infra_pulse.Base.Int.{ℤ, pos, negsuc}

abbrev pub Bytes : Type 0
Bytes = List ℕ

-- The bytes of an ASCII literal.
abbrev pub codes : String → Bytes
codes String.[] = []
codes (String.◌∷◌ c s) = code c ∷ codes s

abbrev pub slice : ℕ → ℕ → Bytes → Bytes
slice i j s = take (j - i) (drop i s)

-- `strings.Index` and `bytes.Index` of one byte; `none` is -1.
unfoldable pub index : ℕ → Bytes → Option ℕ
index b [] = none
index b (c ∷ cs) =
    if c == b then some 0 else elim (index b cs) [ none ↦ none | some i ↦ some (suc i) ]

-- `bytes.LastIndex` of one byte
unfoldable pub last_index : ℕ → Bytes → Option ℕ
last_index b [] = none
last_index b (c ∷ cs) = elim (last_index b cs) [
  | some i ↦ some (suc i)
  | none ↦ if c == b then some 0 else none
]

-- `strings.HasPrefix`
unfoldable pub has_prefix : Bytes → Bytes → Bool
has_prefix s [] = true
has_prefix [] (p ∷ ps) = false
has_prefix (c ∷ cs) (p ∷ ps) = c == p && has_prefix cs ps

-- `strings.HasSuffix`
unfoldable pub has_suffix : Bytes → Bytes → Bool
has_suffix [] suffix = [] == suffix
has_suffix (c ∷ cs) suffix = c ∷ cs == suffix || has_suffix cs suffix

-- `strings.TrimPrefix`
abbrev pub trim_prefix : Bytes → Bytes → Bytes
trim_prefix s prefix = if has_prefix s prefix then drop (length prefix) s else s

-- `strings.Replace(s, old, new, -1)` of an `old` that is not empty, where the first `skip` bytes belong
-- to an occurrence that was replaced.
unfoldable pub replace_from : Bytes → Bytes → ℕ → Bytes → Bytes
replace_from old new skip [] = []
replace_from old new (suc skip) (c ∷ cs) = replace_from old new skip cs
replace_from old new zero (c ∷ cs) =
    if has_prefix (c ∷ cs) old
    then new ++ replace_from old new (length old - 1) cs
    else c ∷ replace_from old new 0 cs

abbrev pub replace_all : Bytes → Bytes → Bytes → Bytes
replace_all s old new = replace_from old new 0 s

-- A byte in front of the first piece.
abbrev pub onto_first : ℕ → List Bytes → List Bytes
onto_first c [] = (c ∷ []) ∷ []
onto_first c (piece ∷ pieces) = (c ∷ piece) ∷ pieces

-- `strings.Split` at one byte
unfoldable pub split : ℕ → Bytes → List Bytes
split b [] = [] ∷ []
split b (c ∷ cs) = if c == b then [] ∷ split b cs else onto_first c (split b cs)

-- `bytes.SplitN` at one byte, into at most `n` pieces
unfoldable pub split_n : ℕ → ℕ → Bytes → List Bytes
split_n b zero s = []
split_n b (suc zero) s = s ∷ []
split_n b (suc (suc n)) [] = [] ∷ []
split_n b (suc (suc n)) (c ∷ cs) =
    if c == b then [] ∷ split_n b (suc n) cs else onto_first c (split_n b (suc (suc n)) cs)

unfoldable pub is_space : ℕ → Bool
is_space c = c == 32 || (leb 9 c && leb c 13)

-- `strings.Fields`; the flag tells whether the byte before belongs to a field.
unfoldable pub fields_from : Bool → Bytes → List Bytes
unfolding is_space
fields_from inside [] = if inside then [] ∷ [] else []
fields_from inside (c ∷ cs) =
    let space = is_space c in
    let rest = fields_from (if space then false else true) cs in
    if space then (if inside then [] ∷ rest else rest) else onto_first c rest

abbrev pub fields : Bytes → List Bytes
fields = fields_from false

pub data NumError : Type 0 where
  syntax range : NumError

-- The value of a digit of any base up to 36.
unfoldable pub digit : ℕ → Option ℕ
digit c =
    if leb b'0' c && leb c b'9'
    then some (c - b'0')
    else if leb b'a' c && leb c b'z'
    then some (c - b'a' + 10)
    else if leb b'A' c && leb c b'Z'
    then some (c - b'A' + 10)
    else none

-- The loop of `strconv.ParseUint`: the first digit that is none, or that passes the largest value,
-- ends it.
unfoldable pub parse_digits : ℕ → ℕ → ℕ → Bytes → Outcome NumError ℕ
parse_digits base limit n [] = ok n
parse_digits base limit n (c ∷ cs) = elim (digit c) [
  | none ↦ err syntax
  | some d ↦
      if leb base d
      then err syntax
      else if leb limit (n * base + d)
      then err range
      else parse_digits base limit (n * base + d) cs
]

-- `strconv.ParseUint(s, base, bits)` of a base that is not 0
unfoldable pub parse_uint : ℕ → ℕ → Bytes → Outcome NumError ℕ
parse_uint base bits [] = err syntax
parse_uint base bits (c ∷ cs) = parse_digits base (2 ^ bits) 0 (c ∷ cs)

-- `strconv.Atoi` where int has 64 bits
unfoldable pub negated : ℕ → Outcome NumError ℤ
negated zero = ok (pos 0)
negated (suc n) = if leb n (2 ^ 63 - 1) then ok (negsuc n) else err range

abbrev pub unsigned_int : Outcome NumError ℕ → Outcome NumError ℤ
unsigned_int (ok n) = if ltb n (2 ^ 63) then ok (pos n) else err range
unsigned_int (err e) = err e
unsigned_int panic = panic

unfoldable pub atoi : Bytes → Outcome NumError ℤ
atoi [] = err syntax
atoi (c ∷ cs) =
    if c == b'-'
    then elim (parse_uint 10 64 cs) [ ok n ↦ negated n | err e ↦ err e | panic ↦ panic ]
    else unsigned_int (parse_uint 10 64 (if c == b'+' then cs else c ∷ cs))

-- `strings.TrimSpace` of ASCII text
abbrev trim_left : Bytes → Bytes
trim_left [] = []
trim_left (c ∷ cs) = elim (is_space c) [ true ↦ trim_left cs | false ↦ c ∷ cs ]

abbrev trim_right : Bytes → Bytes
trim_right [] = []
trim_right (c ∷ cs) =
    let rest = trim_right cs in
    elim rest [ [] ↦ (if is_space c then [] else c ∷ []) | d ∷ ds ↦ c ∷ d ∷ ds ]

abbrev pub trim_space : Bytes → Bytes
trim_space s = trim_right (trim_left s)

-- `strconv.FormatUint(n, 10)` in front of `tail`, on as many rounds as are left; `n` rounds are enough.
unfoldable pub format_from : ℕ → ℕ → Bytes → Bytes
format_from zero n tail = (b'0' + n % 10) ∷ tail
format_from (suc rounds) n tail = elim (ltb n 10) [
  | true ↦ (b'0' + n) ∷ tail
  | false ↦ format_from rounds (n / 10) ((b'0' + n % 10) ∷ tail)
]

-- `strconv.FormatUint(n, 10)`, and `strconv.Itoa` of an int that is not negative
abbrev pub format_uint : ℕ → Bytes
format_uint n = format_from n n []
