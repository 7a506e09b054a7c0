-- ===== src/Base/Words.antt =====
-- Words between blanks, as `strings.Fields` takes them apart.
use infra_pulse.Base.{
  ℕ, zero, suc, ◌-◌, Bool, true, false, not, ◌&&◌, [], ◌∷◌, ◌++◌, ◌≡◌, refl, arith, nat_eq, list_eq,
  ◌==◌, length, length-append, take, take-length_append, replicate,
}
use infra_pulse.Base.Text.{Bytes, fields, fields_from, is_space}

abbrev pub no_space : Bytes → Bool
no_space [] = true
no_space (c ∷ cs) = not (is_space c) && no_space cs

-- A word, as `strings.Fields` takes it.
abbrev pub is_word : Bytes → Bool
is_word w = not (w == []) && no_space w

fields_from-inside :
    (w rest : Bytes)
    → no_space w ≡ true
    → fields_from true (w ++ (b' ' ∷ rest)) ≡ w ∷ fields_from false rest
unfolding fields_from
fields_from-inside [] rest h = unfold is_space in refl
fields_from-inside (c ∷ cs) rest h =
    let ih = fields_from-inside cs rest (ground arith) in
    let s : is_space c ≡ false = ground arith in rw (s, ih) refl

pub fields-word :
    (w rest : Bytes) → is_word w ≡ true → fields (w ++ (b' ' ∷ rest)) ≡ w ∷ fields rest
unfolding fields_from
fields-word [] rest h = ground arith
fields-word (c ∷ cs) rest h =
    let s : is_space c ≡ false = ground arith in
    rw (s, fields_from-inside cs rest (ground arith)) refl

fields_inside : (w : Bytes) → no_space w ≡ true → fields_from true w ≡ w ∷ []
unfolding fields_from
fields_inside [] h = refl
fields_inside (c ∷ cs) h =
    let ih = fields_inside cs (ground arith) in
    let s : is_space c ≡ false = ground arith in rw (s, ih) refl

pub fields_last : (w : Bytes) → is_word w ≡ true → fields w ≡ w ∷ []
unfolding fields_from
fields_last [] h = ground arith
fields_last (c ∷ cs) h =
    let s : is_space c ≡ false = ground arith in rw (s, fields_inside cs (ground arith)) refl

-- Blanks in front do not count.
pub fields-blanks : (n : ℕ) (rest : Bytes) → fields (replicate n b' ' ++ rest) ≡ fields rest
unfolding fields_from is_space
fields-blanks zero rest = refl
fields-blanks (suc n) rest = fields-blanks n rest

-- A word without the byte behind it.
pub take_but_last : (w : Bytes) (c : ℕ) → take (length (w ++ c ∷ []) - 1) (w ++ c ∷ []) ≡ w
take_but_last w c =
    let one : length (w ++ c ∷ []) - 1 ≡ length w = omega (arith, length-append w (c ∷ [])) in
    rw one (take-length_append w (c ∷ []))
