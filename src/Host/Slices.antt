-- ===== src/Host/Slices.antt =====
-- `DeleteSliceString`, which moves the kept elements to the front of the array that it is given.
use infra_pulse.Base.{
  ℕ, zero, suc, ◌+◌, Bool, not, none, some, List, [], ◌∷◌, ◌++◌, ◌≡◌, refl, sym, ◌∙◌, ap, arith,
  length, length-append, get_elem?, take, drop, select, list_eq, nat_eq, ◌==◌, if◌then◌else◌,
  take-length_append, drop-length_append, append_assoc, append-nil, Bool-cases, inl, inr,
}
use infra_pulse.Base.Text.{Bytes}

-- `s[j] = v`
abbrev pub set_elem : ℕ → Bytes → List Bytes → List Bytes
set_elem j v s = take j s ++ v ∷ drop (j + 1) s

-- The array and `j`.
pub record Compacting : Type 0 where
  pub array : List Bytes
  pub kept : ℕ

-- The loop from index `i` on, with `n` rounds left: `range` reads an element when it comes to it, so
-- from the array as it is by then. Out of range does not occur.
unfoldable pub delete_loop : ℕ → ℕ → Bytes → Compacting → Compacting
delete_loop zero i elem c = c
delete_loop (suc n) i elem c = elim (get_elem? c.array i) [
  | none ↦ c
  | some v ↦
      delete_loop n (i + 1) elem
        (if v == elem then c else record { array = set_elem c.kept v c.array; kept = c.kept + 1 })
]

-- `s[:j]`
unfoldable pub delete_slice_string : List Bytes → Bytes → List Bytes
delete_slice_string s elem =
    let c = delete_loop (length s) 0 elem (record { array = s; kept = 0 }) in take c.kept c.array

get_elem?-append :
    (front : List Bytes) (v : Bytes) (rest : List Bytes)
    → get_elem? (front ++ v ∷ rest) (length front) ≡ some v
get_elem?-append [] v rest = refl
get_elem?-append (x ∷ front) v rest = get_elem?-append front v rest

-- Writing right behind the kept elements.
set_elem-behind :
    (front : List Bytes) (m v : Bytes) (rest : List Bytes)
    → set_elem (length front) v (front ++ m ∷ rest) ≡ front ++ v ∷ rest
set_elem-behind front m v rest =
    rw (take-length_append front (m ∷ rest), drop-length_append 1 front (m ∷ rest)) refl

abbrev pub differs : Bytes → Bytes → Bool
differs elem v = not (v == elem)

-- The elements between the kept ones and the index, after `v` was kept.
abbrev shift : List Bytes → Bytes → List Bytes
shift [] v = []
shift (m ∷ mid) v = mid ++ v ∷ []

length-shift : (mid : List Bytes) (v : Bytes) → length (shift mid v) ≡ length mid
length-shift [] v = refl
length-shift (m ∷ mid) v = ground (arith, length-append mid (v ∷ []))

set_elem-shift :
    (front mid : List Bytes) (v : Bytes) (rest : List Bytes)
    → set_elem (length front) v (front ++ (mid ++ v ∷ rest))
      ≡ (front ++ v ∷ []) ++ (shift mid v ++ rest)
set_elem-shift front [] v rest =
    set_elem-behind front v v rest ∙ sym (append_assoc front (v ∷ []) rest)
set_elem-shift front (m ∷ mid) v rest =
    set_elem-behind front m v (mid ++ v ∷ rest)
    ∙ ap (λ r. front ++ v ∷ r) (sym (append_assoc mid (v ∷ []) rest))
    ∙ sym (append_assoc front (v ∷ []) _)

module _ (elem : Bytes) where
  delete_loop-next :
      (n i : ℕ) (c : Compacting) {v : Bytes}
      → get_elem? c.array i ≡ some v
      → delete_loop (suc n) i elem c
        ≡ delete_loop n (i + 1) elem (
            if v == elem
            then c
            else record { array = set_elem c.kept v c.array; kept = c.kept + 1 })
  unfolding delete_loop
  delete_loop-next n i c h = rw (delete_loop, h) refl

  delete_loop-select :
      (rest front mid : List Bytes) (i j : ℕ) (a : List Bytes)
      → a ≡ front ++ (mid ++ rest)
      → i ≡ length front + length mid
      → j ≡ length front
      → take
          (delete_loop (length rest) i elem (record { array = a; kept = j })).kept
          (delete_loop (length rest) i elem (record { array = a; kept = j })).array
        ≡ front ++ select (differs elem) rest
  unfolding delete_loop
  delete_loop-select [] front mid i j a ea ei ej =
      rw (ea, ej, take-length_append front (mid ++ [])) (sym (append-nil front))
  delete_loop-select (v ∷ rest) front mid i j a ea ei ej =
      let r : get_elem? a i ≡ some v =
        rw (ea, ei, sym (append_assoc front mid (v ∷ rest)), sym (length-append front mid))
          (get_elem?-append (front ++ mid) v rest) in
      let next = delete_loop-next (length rest) i (record { array = a; kept = j }) r in
      elim (Bool-cases (v == elem)) [
        | inl s ↦
            rw (next, s)
              (delete_loop-select rest front (mid ++ v ∷ []) (i + 1) j a
                (ea ∙ ap (λ t. front ++ t) (sym (append_assoc mid (v ∷ []) rest)))
                (ground (arith, length-append mid (v ∷ []))) ej)
        | inr s ↦
            rw (next, s)
              (delete_loop-select rest (front ++ v ∷ []) (shift mid v) (i + 1) (j + 1)
                  (set_elem j v a) (rw (ea, ej) (set_elem-shift front mid v rest))
                  (ground (arith, length-append front (v ∷ []), length-shift mid v))
                  (ground (arith, length-append front (v ∷ [])))
                ∙ append_assoc front (v ∷ []) _)
      ]

  -- `DeleteSliceString` returns the elements other than the given one, in their order, although it
  -- writes to the array that it reads.
  pub delete_slice_string-select :
      (s : List Bytes) → delete_slice_string s elem ≡ select (differs elem) s
  unfolding delete_slice_string
  delete_slice_string-select s = delete_loop-select s [] [] 0 0 s refl refl refl
