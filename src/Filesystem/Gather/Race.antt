-- ===== src/Filesystem/Gather/Race.antt =====
-- The two appends to `stats` in `GetStats`: the caller's and the feeder's, which no lock orders.
use infra_pulse.Base.{ℕ, zero, suc, ◌-◌, true, false, [], ◌∷◌, ◌≡◌, refl, arith}
use infra_pulse.Metric.{Float64}
use infra_pulse.Filesystem.{Labels, Stats, Filesystems}
use infra_pulse.Filesystem.Gather.{
  Gathering, worker_count, is_excluded, gather_start, IsGathered, stuck_stats, hand, process,
  receive, find_stuck, store, store_stuck, GatherReach, here, next,
}

pub worker_count-suc : (n : ℕ) → worker_count n ≡ suc (worker_count n - 1)
worker_count-suc zero = refl
worker_count-suc (suc n) = ground arith

module _ {F : Type 0} ⦃fl : Float64 F⦄ (c : Filesystems) (run : Labels → Stats F) where
  -- A mount that answers can be missing from the result of `GetStats`: when another mount, behind it in
  -- the table, is found stuck while the caller appends the first one's result, a schedule exists that
  -- returns the stuck mount alone, for any number of workers.
  pub get_stats-loses :
      (n : ℕ) (answering stuck : Labels)
      → is_excluded c answering ≡ false
      → is_excluded c stuck ≡ false
      → (s : Gathering F) × (GatherReach c run
            (gather_start n ((answering, false) ∷ (stuck, true) ∷ []))
            s
          × (IsGathered s × (s.stats ≡ stuck_stats stuck ∷ [])))
  unfolding gather_start
  get_stats-loses n a b ha hb =
      let handed =
        next here
          (hand a ((b, true) ∷ []) (worker_count n - 1) refl refl ha (worker_count-suc n)) in
      let processed = next handed (process [] [] a refl) in
      let received = next processed (receive [] [] (run a) refl refl) in
      let found = next received (find_stuck b [] refl refl hb) in
      let stored = next found (store [] (run a) refl) in
      let both = next stored (store_stuck [] (stuck_stats b) refl) in
      (
        _,
        (
          both,
          (record { todo = refl; feeder = refl; busy = refl; ready = refl; main = refl }, refl),
        ),
      )
