-- ===== src/Filesystem/Sends.antt =====
-- What `filesystemCollector.Update` sends when mounts repeat.
use infra_pulse.Base.{
  Bool, true, false, List, [], ◌∷◌, ◌++◌, ◌≡◌, ◌≢◌, refl, ap, arith, if◌then◌else◌, ok, inl, inr,
  Bool-cases, ◌==◌, append-nil, nat_eq, list_eq, ==_iff, ==_refl,
}
use infra_pulse.Base.Text.{Bytes}
use infra_pulse.Base.Map.{Map, insert, get_or, lookup-insert, lookup-nil}
use infra_pulse.Metric.{Float64, FloatOps, ByteMetric}
use infra_pulse.Filesystem.{Labels, Stats, labels_eqb, labels_eq}
use infra_pulse.Filesystem.Update.{stat_metrics, send_stats, update}

module _ {F : Type 0} ⦃fl : Float64 F⦄ ⦃ops : FloatOps F⦄ where
  -- The metrics of several statistics.
  abbrev pub all_metrics : List (Stats F) → List (ByteMetric F)
  all_metrics [] = []
  all_metrics (s ∷ stats) = stat_metrics s ++ all_metrics stats

  abbrev pub labels_of_all : List (Stats F) → List Labels
  labels_of_all [] = []
  labels_of_all (s ∷ stats) = s.labels ∷ labels_of_all stats

  abbrev pub has_labels : Labels → List (Stats F) → Bool
  has_labels l [] = false
  has_labels l (s ∷ stats) = if s.labels == l then true else has_labels l stats

  -- No two statistics have the same labels.
  abbrev pub AreDistinct : List (Stats F) → Type 0
  AreDistinct [] = Unit
  AreDistinct (s ∷ stats) = (has_labels s.labels stats ≡ false) × AreDistinct stats

  -- Statistics that stand in a list in this order, others between them.
  pub data IsPartOf : List (Stats F) → List (Stats F) → Type 0 where
    nothing : IsPartOf [] []
    left_out :
        {kept stats : List (Stats F)} (s : Stats F)
        → IsPartOf kept stats
        → IsPartOf kept (s ∷ stats)
    taken :
        {kept stats : List (Stats F)} (s : Stats F)
        → IsPartOf kept stats
        → IsPartOf (s ∷ kept) (s ∷ stats)

  -- The statistics that the loop does not skip.
  record Kept (seen : Map Labels Bool) (stats kept : List (Stats F)) : Type 0 where
    pub part : IsPartOf kept stats
    pub sent : send_stats seen stats ≡ all_metrics kept
    pub distinct : AreDistinct kept
    pub covers :
        (l : Labels)
        → has_labels l kept ≡ (if get_or l false seen then false else has_labels l stats)

  keep :
      (seen : Map Labels Bool) (stats : List (Stats F))
      → (kept : List (Stats F)) × Kept seen stats kept
  unfolding send_stats
  keep seen [] =
      ([], record { part = nothing; sent = refl; distinct = tt; covers = λ l. ground arith })
  keep seen (s ∷ stats) = elim (Bool-cases (get_or s.labels false seen)) [
    | inl h ↦
        let (kept, k) = keep seen stats in
        (
          kept,
          record {
            part = left_out s k.part;
            sent = rw (send_stats, h) k.sent;
            distinct = k.distinct;
            covers = λ l. ground (arith, ==_iff s.labels l, k.covers l);
          },
        )
    | inr h ↦
        let (kept, k) = keep (insert s.labels true seen) stats in
        (
          s ∷ kept,
          record {
            part = taken s k.part;
            sent = rw (send_stats, h) (ap (λ t. stat_metrics s ++ t) k.sent);
            distinct = (
              ground (
                arith,
                k.covers s.labels,
                lookup-insert s.labels s.labels true seen,
                ==_refl s.labels,
              ),
              k.distinct,
            );
            covers = λ l.
                ground (arith, ==_iff s.labels l, k.covers l, lookup-insert s.labels l true seen);
          },
        )
  ]

  -- When `GetStats` succeeds, `Update` sends the metrics of some of its statistics, in their order, no
  -- two of which have the same labels, and the labels of every other mount are among theirs.
  pub update-once :
      {E : Type 0} (stats : List (Stats F))
      → (kept : List (Stats F)) × (IsPartOf kept stats
          × (AreDistinct kept
              × (((l : Labels) → has_labels l kept ≡ has_labels l stats)
                  × (update {E = E} (ok stats) ≡ (all_metrics kept, ok tt)))))
  unfolding update
  update-once stats =
      let (kept, k) = keep [] stats in
      (
        kept,
        (
          k.part,
          (k.distinct, ((λ l. ground (arith, k.covers l, lookup-nil {V = Bool} l)), rw k.sent)),
        ),
      )

  -- Two mounts that differ in their options alone, such as one file system mounted over itself, make
  -- `Update` send the same metrics twice, under the same names and label values.
  pub update-repeats :
      (E : Type 0) (s : Stats F) (o : Bytes)
      → s.labels.options ≢ o
      → (update {E = E} (ok (s ∷ record s { labels = record s.labels { options = o } } ∷ []))).0
        ≡ stat_metrics s ++ stat_metrics s
  unfolding update send_stats stat_metrics
  update-repeats E s o h =
      let l : Labels = record s.labels { options = o } in
      let differ : labels_eqb s.labels l ≡ false = ground (arith, ==_iff s.labels.options o) in
      let unseen : get_or l false (insert s.labels true []) ≡ false =
        ground (arith, differ, lookup-insert s.labels l true [], lookup-nil {V = Bool} l) in
      rw (send_stats, lookup-nil {V = Bool} s.labels, unseen, append-nil (stat_metrics s)) refl
