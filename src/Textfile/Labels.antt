-- ===== src/Textfile/Labels.antt =====
-- The names and the values of the labels in `convertMetricFamily`.
use infra_pulse.Base.{
  Bool, true, false, ◌||◌, Option, none, some, List, [], ◌∷◌, ◌++◌, ◌≡◌, refl, arith, list_eq,
  nat_eq, ◌==◌, ==_iff, length, length-append, if◌then◌else◌, Bool-cases, inl, inr,
}
use infra_pulse.Base.Text.{Bytes}
use infra_pulse.Textfile.{
  Label, DtoMetric, contains_name, add_labels, all_label_names, Labelling, own_labels, add_missing,
}

abbrev pub has_label : List Label → Bytes → Bool
has_label [] k = false
has_label (l ∷ ls) k = k == l.name || has_label ls k

-- Whether any metric of the family has a label of this name.
abbrev pub labelled : {F : Type 0} → List (DtoMetric F) → Bytes → Bool
labelled [] k = false
labelled (metric ∷ metrics) k = has_label metric.labels k || labelled metrics k

pub contains_name-append :
    (names : List Bytes) (n k : Bytes)
    → contains_name (names ++ n ∷ []) k ≡ contains_name names k || k == n
contains_name-append [] n k = ground arith
contains_name-append (m ∷ names) n k = ground (arith, contains_name-append names n k)

pub add_labels-contains :
    (ls : List Label) (all : List Bytes) (k : Bytes)
    → contains_name (add_labels ls all) k ≡ contains_name all k || has_label ls k
unfolding add_labels
add_labels-contains [] all k = ground arith
add_labels-contains (l ∷ ls) all k = elim (Bool-cases (contains_name all l.name)) [
  | inl c ↦ ground (arith, add_labels-contains ls all k, ==_iff k l.name)
  | inr c ↦
      ground
        (arith, add_labels-contains ls (all ++ l.name ∷ []) k, contains_name-append all l.name k)
]

pub all_label_names-contains :
    {F : Type 0} (metrics : List (DtoMetric F)) (all : List Bytes) (k : Bytes)
    → contains_name (all_label_names metrics all) k ≡ contains_name all k || labelled metrics k
unfolding all_label_names
all_label_names-contains [] all k = ground arith
all_label_names-contains (metric ∷ metrics) all k = ground (
  arith,
  all_label_names-contains metrics (add_labels metric.labels all) k,
  add_labels-contains metric.labels all k,
)

pub own_labels-length :
    (ls : List Label) → length (own_labels ls).names ≡ length (own_labels ls).values
unfolding own_labels
own_labels-length [] = refl
own_labels-length (l ∷ ls) = ground (arith, own_labels-length ls)

pub add_missing-length :
    (all : List Bytes) (l : Labelling)
    → length l.names ≡ length l.values
    → length (add_missing all l).names ≡ length (add_missing all l).values
unfolding add_missing
add_missing-length [] l h = h
add_missing-length (n ∷ all) l h = elim (Bool-cases (contains_name l.names n)) [
  | inl c ↦ ground (arith, add_missing-length all l h)
  | inr c ↦ ground (
    arith,
    add_missing-length all (record { names = l.names ++ n ∷ []; values = l.values ++ [] ∷ [] }),
    length-append l.names (n ∷ []),
    length-append l.values ([] ∷ []),
  )
]

-- The value that a label of this name has.
abbrev pub value_of : List Bytes → List Bytes → Bytes → Option Bytes
value_of (n ∷ names) (v ∷ values) k = if n == k then some v else value_of names values k
value_of _ _ k = none

abbrev pub own_value : List Label → Bytes → Option Bytes
own_value [] k = none
own_value (l ∷ ls) k = if l.name == k then some l.value else own_value ls k

abbrev pub or_else : Option Bytes → Option Bytes → Option Bytes
or_else (some v) o = some v
or_else none o = o

pub own_labels-value_of :
    (ls : List Label) (k : Bytes)
    → value_of (own_labels ls).names (own_labels ls).values k ≡ own_value ls k
unfolding own_labels
own_labels-value_of [] k = refl
own_labels-value_of (l ∷ ls) k = ground (arith, own_labels-value_of ls k)

pub value_of-append :
    (names values : List Bytes) (n v k : Bytes)
    → length names ≡ length values
    → value_of (names ++ n ∷ []) (values ++ v ∷ []) k
      ≡ or_else (value_of names values k) (if n == k then some v else none)
value_of-append [] [] n v k h = ground arith
value_of-append (m ∷ names) (u ∷ values) n v k h =
    ground (arith, value_of-append names values n v k)
value_of-append [] (u ∷ values) n v k h = ground arith
value_of-append (m ∷ names) [] n v k h = ground arith

pub value_of-contains_name :
    (names values : List Bytes) (k : Bytes)
    → length names ≡ length values
    → contains_name names k ≡ true
    → or_else (value_of names values k) (some []) ≡ value_of names values k
value_of-contains_name [] [] k h c = ground arith
value_of-contains_name (m ∷ names) (u ∷ values) k h c =
    ground (arith, value_of-contains_name names values k, ==_iff k m, ==_iff m k)
value_of-contains_name [] (u ∷ values) k h c = ground arith
value_of-contains_name (m ∷ names) [] k h c = ground arith

abbrev pub default_for : List Bytes → Bytes → Option Bytes
default_for all k = if contains_name all k then some [] else none

pub add_missing-value_of :
    (all : List Bytes) (l : Labelling) (k : Bytes)
    → length l.names ≡ length l.values
    → value_of (add_missing all l).names (add_missing all l).values k
      ≡ or_else (value_of l.names l.values k) (default_for all k)
unfolding add_missing
add_missing-value_of [] l k h = ground arith
add_missing-value_of (n ∷ all) l k h = elim (Bool-cases (contains_name l.names n)) [
  | inl c ↦ ground (
    arith,
    add_missing-value_of all l k h,
    value_of-contains_name l.names l.values k h,
    ==_iff k n,
  )
  | inr c ↦ ground (
    arith,
    add_missing-value_of all (record { names = l.names ++ n ∷ []; values = l.values ++ [] ∷ [] }) k,
    length-append l.names (n ∷ []),
    length-append l.values ([] ∷ []),
    value_of-append l.names l.values n [] k h,
    ==_iff k n,
    ==_iff n k,
  )
]
