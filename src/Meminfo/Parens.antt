-- ===== src/Meminfo/Parens.antt =====
-- The names of /proc/meminfo with a part in parentheses.
use infra_pulse.Base.{
  ℕ, suc, ◌+◌, Bool, true, false, not, ◌&&◌, none, some, [], ◌∷◌, ◌++◌, ◌≡◌, refl, sym, ap, ap₂,
  ◌∙◌, arith, nat_eq, ltb, length, length-append, take, drop, take-length_append,
  drop-length_append, append_assoc, append-nil, ◌==◌, ==_refl,
}
use infra_pulse.Base.Text.{Bytes, slice, index, last_index}
use infra_pulse.Meminfo.{replace_parens}

abbrev pub lacks : ℕ → Bytes → Bool
lacks b [] = true
lacks b (c ∷ cs) = not (c == b) && lacks b cs

index_lacking : (b : ℕ) (w : Bytes) → lacks b w ≡ true → index b w ≡ none
unfolding index
index_lacking b [] h = refl
index_lacking b (c ∷ cs) h = ground (arith, index_lacking b cs)

index-append :
    (b : ℕ) (w rest : Bytes) → lacks b w ≡ true → index b (w ++ b ∷ rest) ≡ some (length w)
unfolding index
index-append b [] rest h = ground (arith, ==_refl b)
index-append b (c ∷ cs) rest h =
    let ih = index-append b cs rest (ground arith) in
    let no : (c == b) ≡ false = ground arith in rw (no, ih) refl

last_index-append : (b : ℕ) (w : Bytes) → last_index b (w ++ b ∷ []) ≡ some (length w)
unfolding last_index
last_index-append b [] = ground (arith, ==_refl b)
last_index-append b (c ∷ cs) = rw (last_index-append b cs) refl

the_suc : (n : ℕ) → suc n ≡ n + 1
the_suc n = omega arith

-- A name without an opening parenthesis stays.
pub replace_parens-plain : (w : Bytes) → lacks b'(' w ≡ true → replace_parens w ≡ w
unfolding replace_parens
replace_parens-plain w h = rw (replace_parens, index_lacking b'(' w h) refl

-- A part in parentheses at the end is set off by an underscore.
pub replace_parens-grouped :
    (w part : Bytes)
    → lacks b'(' w ≡ true
    → replace_parens (w ++ b'(' ∷ (part ++ b')' ∷ [])) ≡ w ++ b'_' ∷ part
unfolding replace_parens
replace_parens-grouped w part h =
    let name = w ++ b'(' ∷ (part ++ b')' ∷ []) in
    let j = length w + suc (length part) in
    let whole : name ≡ (w ++ b'(' ∷ part) ++ b')' ∷ [] =
      sym (append_assoc w (b'(' ∷ part) (b')' ∷ [])) in
    let last : last_index b')' name ≡ some j =
      ap (last_index b')') whole
      ∙ last_index-append b')' (w ++ b'(' ∷ part)
      ∙ ap some (length-append w (b'(' ∷ part)) in
    let order : ltb (length w) j ≡ true = ground arith in
    let behind : drop (suc (length w)) name ≡ part ++ b')' ∷ [] =
      ap (λ n. drop n name) (the_suc (length w))
      ∙ drop-length_append 1 w (b'(' ∷ (part ++ b')' ∷ [])) in
    let inside : slice (suc (length w)) j name ≡ part =
      ap₂ (λ n x. take n x) (omega arith) behind ∙ take-length_append part (b')' ∷ []) in
    let total : suc j ≡ length w + suc (suc (length part)) = omega arith in
    let rest : drop (suc j) name ≡ [] =
      ap (λ n. drop n name) total
      ∙ drop-length_append (suc (suc (length part))) w (b'(' ∷ (part ++ b')' ∷ []))
      ∙ ap (λ n. drop n (part ++ b')' ∷ [])) (the_suc (length part))
      ∙ drop-length_append 1 part (b')' ∷ []) in
    rw
      (
        replace_parens,
        index-append b'(' w (part ++ b')' ∷ []) h,
        last,
        order,
        take-length_append w (b'(' ∷ (part ++ b')' ∷ [])),
        inside,
        rest,
      )
      (append-nil (w ++ b'_' ∷ part))
