-- ===== src/Textfile/Accepts.antt =====
-- Which calls of `NewDesc` and of the constructors of metrics are in order, and that those of
-- `convertMetricFamily` are.
use infra_pulse.Base.{
  Bool, true, not, ◌&&◌, List, [], ◌∷◌, ◌++◌, ◌≡◌, refl, arith, list_eq, nat_eq, ◌==◌, ==_iff,
  length, All, Bool-cases, inl, inr,
}
use infra_pulse.Base.Text.{Bytes}
use infra_pulse.Textfile.{
  Label, DtoMetric, FamilyDesc, Sent, const_metric, const_summary, const_histogram, contains_name,
  Labelling, own_labels, add_missing,
}
use infra_pulse.Textfile.Labels.{has_label, labelled, contains_name-append}

module _ {F : Type 0} where
  abbrev pub sent_desc : Sent F → FamilyDesc
  sent_desc (const_metric desc _ _ _) = desc
  sent_desc (const_summary desc _ _ _ _) = desc
  sent_desc (const_histogram desc _ _ _ _) = desc

  abbrev pub sent_values : Sent F → List Bytes
  sent_values (const_metric _ _ _ values) = values
  sent_values (const_summary _ _ _ _ values) = values
  sent_values (const_histogram _ _ _ _ values) = values

-- What the library takes for the name of a metric and of a label, and for the value of a label.
pub record Rules : Type 0 where
  pub is_metric_name : Bytes → Bool
  pub is_label_name : Bytes → Bool
  pub is_text : Bytes → Bool

abbrev pub all_of : (Bytes → Bool) → List Bytes → Bool
all_of p [] = true
all_of p (x ∷ xs) = p x && all_of p xs

abbrev pub distinct_names : List Bytes → Bool
distinct_names [] = true
distinct_names (n ∷ ns) = not (contains_name ns n) && distinct_names ns

-- A name and label names that the rules allow, no label name twice, and a text for each label.
abbrev pub in_order : {F : Type 0} → Rules → Sent F → Bool
in_order r s =
    r.is_metric_name (sent_desc s).name
    && all_of r.is_label_name (sent_desc s).label_names
    && distinct_names (sent_desc s).label_names
    && length (sent_desc s).label_names == length (sent_values s)
    && all_of r.is_text (sent_values s)

-- The labels of a metric in a file: no name twice, and names and values that the rules allow.
abbrev pub well_labelled : Rules → List Label → Bool
well_labelled r [] = true
well_labelled r (l ∷ ls) =
    r.is_label_name l.name && r.is_text l.value && not (has_label ls l.name) && well_labelled r ls

all_of-append :
    (p : Bytes → Bool) (xs : List Bytes) (x : Bytes) → all_of p (xs ++ x ∷ []) ≡ all_of p xs && p x
all_of-append p [] x = ground arith
all_of-append p (y ∷ xs) x = ground (arith, all_of-append p xs x)

distinct_names-append :
    (names : List Bytes) (k : Bytes)
    → distinct_names (names ++ k ∷ []) ≡ distinct_names names && not (contains_name names k)
distinct_names-append [] k = refl
distinct_names-append (n ∷ names) k =
    ground
      (arith, distinct_names-append names k, contains_name-append names k n, ==_iff n k, ==_iff k n)

-- Names that are missing are added once.
pub add_missing-distinct :
    (all : List Bytes) (l : Labelling)
    → distinct_names (add_missing all l).names ≡ distinct_names l.names
unfolding add_missing
add_missing-distinct [] l = refl
add_missing-distinct (k ∷ all) l = elim (Bool-cases (contains_name l.names k)) [
  | inl c ↦ ground (arith, add_missing-distinct all l)
  | inr c ↦ ground (
    arith,
    add_missing-distinct all (record { names = l.names ++ k ∷ []; values = l.values ++ [] ∷ [] }),
    distinct_names-append l.names k,
  )
]

pub add_missing-names :
    (p : Bytes → Bool) (all : List Bytes) (l : Labelling)
    → all_of p all ≡ true
    → all_of p l.names ≡ true
    → all_of p (add_missing all l).names ≡ true
unfolding add_missing
add_missing-names p [] l h n = n
add_missing-names p (k ∷ all) l h n = elim (Bool-cases (contains_name l.names k)) [
  | inl c ↦ rw (all_of, c) (add_missing-names p all l (ground arith) n)
  | inr c ↦
      rw (all_of, c)
        (add_missing-names p all
          (record { names = l.names ++ k ∷ []; values = l.values ++ [] ∷ [] }) (ground arith)
          (ground (arith, all_of-append p l.names k)))
]

pub add_missing-values :
    (p : Bytes → Bool) (all : List Bytes) (l : Labelling)
    → p [] ≡ true
    → all_of p l.values ≡ true
    → all_of p (add_missing all l).values ≡ true
unfolding add_missing
add_missing-values p [] l e v = v
add_missing-values p (k ∷ all) l e v = elim (Bool-cases (contains_name l.names k)) [
  | inl c ↦ rw (all_of, c) (add_missing-values p all l e v)
  | inr c ↦
      rw (all_of, c)
        (add_missing-values p all
          (record { names = l.names ++ k ∷ []; values = l.values ++ [] ∷ [] }) e
          (ground (arith, all_of-append p l.values [])))
]

own_labels-contains :
    (ls : List Label) (k : Bytes) → contains_name (own_labels ls).names k ≡ has_label ls k
unfolding own_labels
own_labels-contains [] k = refl
own_labels-contains (l ∷ ls) k = ground (arith, own_labels-contains ls k)

-- The names and the values of a metric's own labels are as the rules want.
pub own_labels-well :
    (r : Rules) (ls : List Label)
    → well_labelled r ls ≡ true
    → (all_of r.is_label_name (own_labels ls).names ≡ true)
      × ((distinct_names (own_labels ls).names ≡ true)
          × (all_of r.is_text (own_labels ls).values ≡ true))
unfolding own_labels
own_labels-well r [] h = (refl, (refl, refl))
own_labels-well r (l ∷ ls) h =
    let (a, (b, c)) = own_labels-well r ls (ground arith) in
    (ground arith, (ground (arith, own_labels-contains ls l.name), ground arith))

has_label-well :
    (r : Rules) (ls : List Label) (k : Bytes)
    → well_labelled r ls ≡ true
    → has_label ls k ≡ true
    → r.is_label_name k ≡ true
has_label-well r [] k w h = ground arith
has_label-well r (l ∷ ls) k w h = elim (Bool-cases (k == l.name)) [
  | inl e ↦ rw ((==_iff k l.name).0 e) (ground arith)
  | inr e ↦ has_label-well r ls k (ground arith) (ground arith)
]

labelled-well :
    {F : Type 0} (r : Rules) (metrics : List (DtoMetric F)) (k : Bytes)
    → All (λ metric. well_labelled r metric.labels ≡ true) metrics
    → labelled metrics k ≡ true
    → r.is_label_name k ≡ true
labelled-well r [] k w h = ground arith
labelled-well r (metric ∷ metrics) k w h = elim (Bool-cases (has_label metric.labels k)) [
  | inl e ↦ has_label-well r metric.labels k w.0 e
  | inr e ↦ labelled-well r metrics k w.1 (ground arith)
]

all_of-contains :
    (p : Bytes → Bool) (xs : List Bytes)
    → ((k : Bytes) → contains_name xs k ≡ true → p k ≡ true)
    → all_of p xs ≡ true
all_of-contains p [] h = refl
all_of-contains p (x ∷ xs) h =
    let first : p x ≡ true = h x (ground (arith, ==_iff x x)) in
    let rest : all_of p xs ≡ true = all_of-contains p xs (λ k c. h k (ground (arith, c))) in
    ground arith

-- All label names of a family are names by the rules, in whatever order they are listed.
pub all_names-well :
    {F : Type 0} (r : Rules) (metrics : List (DtoMetric F)) (all : List Bytes)
    → ((k : Bytes) → contains_name all k ≡ labelled metrics k)
    → All (λ metric. well_labelled r metric.labels ≡ true) metrics
    → all_of r.is_label_name all ≡ true
all_names-well r metrics all h w =
    all_of-contains r.is_label_name all (λ k c. labelled-well r metrics k w (ground (arith, h k)))
