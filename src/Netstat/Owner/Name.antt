-- ===== src/Netstat/Owner/Name.antt =====
-- The name of a process, from the line of its stat file: its number, its name in parentheses, and
-- more fields, with a space between any two.
use infra_pulse.Base.{
  ℕ, suc, ◌+◌, ◌-◌, none, some, [], ◌∷◌, ◌++◌, ◌≡◌, ◌≢◌, refl, sym, ap, ◌∙◌, arith, length,
  length-append, All, All-append, take-length_append, drop-length_append, append_assoc, ok, nat_eq,
}
use infra_pulse.Base.Text.{Bytes, index, last_index, slice, split_n}
use infra_pulse.Base.Int.{ℤ}
use infra_pulse.Netstat.Owner.{get_proc_name, read_process}

abbrev pub Lacks : ℕ → Bytes → Type 0
Lacks b = All (λ c. c ≢ b)

index-append : (b : ℕ) (s t : Bytes) → Lacks b s → index b (s ++ b ∷ t) ≡ some (length s)
unfolding index
index-append b [] t h = ground arith
index-append b (c ∷ cs) t h = ground (arith, index-append b cs t h.1)

index-none : (b : ℕ) (s : Bytes) → Lacks b s → index b s ≡ none
unfolding index
index-none b [] h = refl
index-none b (c ∷ cs) h = ground (arith, index-none b cs h.1)

last_index-none : (b : ℕ) (s : Bytes) → Lacks b s → last_index b s ≡ none
unfolding last_index
last_index-none b [] h = refl
last_index-none b (c ∷ cs) h = ground (arith, last_index-none b cs h.1)

last_index-append : (b : ℕ) (s t : Bytes) → Lacks b t → last_index b (s ++ b ∷ t) ≡ some (length s)
unfolding last_index
last_index-append b [] t h = ground (arith, last_index-none b t h)
last_index-append b (c ∷ cs) t h = ground (arith, last_index-append b cs t h)

slice_between :
    (before name rest : Bytes) (b : ℕ)
    → slice (length before + 1) (length (before ++ b ∷ name)) (before ++ b ∷ (name ++ rest)) ≡ name
slice_between before name rest b =
    let size : length (before ++ b ∷ name) - (length before + 1) ≡ length name =
      omega (arith, length-append before (b ∷ name)) in
    rw (size, drop-length_append 1 before) (take-length_append name rest)

-- `getProcName` gives what stands between the first "(" and the last ")", parentheses included.
pub get_proc_name-parens :
    (before name after : Bytes)
    → Lacks b'(' before
    → Lacks b')' after
    → get_proc_name (before ++ b'(' ∷ (name ++ b')' ∷ after)) ≡ name
unfolding get_proc_name
get_proc_name-parens before name after h k =
    let front : Bytes = before ++ b'(' ∷ name in
    let regroup : before ++ b'(' ∷ (name ++ b')' ∷ after) ≡ front ++ b')' ∷ after =
      sym (append_assoc before (b'(' ∷ name) (b')' ∷ after)) in
    let j : last_index b')' (before ++ b'(' ∷ (name ++ b')' ∷ after)) ≡ some (length front) =
      ap (last_index b')') regroup ∙ last_index-append b')' front after k in
    ground (
      arith,
      index-append b'(' before (name ++ b')' ∷ after) h,
      j,
      slice_between before name (b')' ∷ after) b'(',
      length-append before (b'(' ∷ name),
    )

get_proc_name-open : (word : Bytes) → Lacks b')' word → get_proc_name (b'(' ∷ word) ≡ []
unfolding get_proc_name index last_index
get_proc_name-open word h = ground (arith, last_index-none b')' word h)

split_n-space :
    (b n : ℕ) (s t : Bytes)
    → Lacks b s
    → split_n b (suc (suc n)) (s ++ b ∷ t) ≡ s ∷ split_n b (suc n) t
unfolding split_n
split_n-space b n [] t h = ground arith
split_n-space b n (c ∷ cs) t h = ground (arith, split_n-space b n cs t h.1)

-- The second field of a stat line.
read_process-field :
    (pid : ℤ) (number field rest : Bytes)
    → Lacks b' ' number
    → Lacks b' ' field
    → read_process pid (some (number ++ b' ' ∷ (field ++ b' ' ∷ rest)))
      ≡ ok (record { pid = pid; name = get_proc_name field })
unfolding read_process
read_process-field pid number field rest h k =
    ground (
      arith,
      split_n-space b' ' 1 number (field ++ b' ' ∷ rest) h,
      split_n-space b' ' 0 field rest k,
    )

-- From a stat line whose name has no space, the process gets that name, parentheses in it included.
pub read_process_name :
    (pid : ℤ) (number name rest : Bytes)
    → Lacks b' ' number
    → Lacks b' ' name
    → read_process pid (some (number ++ b' ' ∷ ((b'(' ∷ (name ++ b')' ∷ [])) ++ b' ' ∷ rest)))
      ≡ ok (record { pid = pid; name = name })
read_process_name pid number name rest h k =
    read_process-field pid number (b'(' ∷ (name ++ b')' ∷ [])) rest h
      (omega arith, All-append (λ c. c ≢ b' ') name (b')' ∷ []) k (omega arith))
    ∙ ap (λ n. ok (record { pid = pid; name = n })) (get_proc_name-parens [] name [] tt tt)

-- A process whose name has a space, as in "(tmux: server)", gets the empty name, if no ")" stands in
-- the name before that space.
pub read_process_loses_name :
    (pid : ℤ) (number word others rest : Bytes)
    → Lacks b' ' number
    → Lacks b' ' word
    → Lacks b')' word
    → read_process pid
        (some (number ++ b' ' ∷ ((b'(' ∷ word) ++ b' ' ∷ (others ++ b')' ∷ b' ' ∷ rest))))
      ≡ ok (record { pid = pid; name = [] })
read_process_loses_name pid number word others rest h k l =
    read_process-field pid number (b'(' ∷ word) _ h (omega arith, k)
    ∙ ap (λ n. ok (record { pid = pid; name = n })) (get_proc_name-open word l)
