-- ===== src/Filesystem/Gather/Progress.antt =====
-- `GetStats` does not block: its channels have no buffer, and some goroutine can always go on.
use infra_pulse.Base.{
  ℕ, zero, suc, ◌+◌, Bool, Option, none, some, List, [], ◌∷◌, ◌≡◌, refl, ap, ◌⊎◌, inl, inr, arith,
  length, length-append, Bool-cases,
}
use infra_pulse.Metric.{Float64}
use infra_pulse.Filesystem.{Labels, Stats, Filesystems}
use infra_pulse.Filesystem.Gather.{
  Gathering, worker_count, is_excluded, gather_start, IsGathered, GatherStep, skip, hand, process,
  receive, find_stuck, store, store_stuck, GatherReach, here, next,
}

module _ {F : Type 0} ⦃fl : Float64 F⦄ (c : Filesystems) (run : Labels → Stats F) where
  -- The workers, whatever they do.
  abbrev workers : Gathering F → ℕ
  workers s = s.idle + length s.busy + length s.ready

  step-workers : {s t : Gathering F} → GatherStep c run s t → workers t ≡ workers s
  step-workers (skip l b rest e f x) = omega arith
  step-workers (find_stuck l rest e f x) = omega arith
  step-workers (store_stuck r x e) = omega arith
  step-workers (hand l rest n e f x i) = omega (arith, i)
  step-workers (process before after l e) =
      omega (arith, ap length e, length-append before (l ∷ after), length-append before after)
  step-workers (receive before after x e m) =
      omega (arith, ap length e, length-append before (x ∷ after), length-append before after)
  step-workers (store r x m) = omega arith

  reach-workers :
      (n : ℕ) (mounts : List (Labels × Bool)) {s : Gathering F}
      → GatherReach c run (gather_start n mounts) s
      → workers s ≡ worker_count n
  unfolding gather_start
  reach-workers n mounts here = omega arith
  reach-workers n mounts (next r st) = omega (arith, step-workers st, reach-workers n mounts r)

  feed :
      (s : Gathering F) (n : ℕ) (l : Labels) (stuck : Bool) (rest : List (Labels × Bool))
      → s.todo ≡ (l, stuck) ∷ rest
      → s.feeder ≡ none
      → s.idle ≡ suc n
      → (t : Gathering F) × GatherStep c run s t
  feed s n l stuck rest e f i = elim (Bool-cases (is_excluded c l)) [
    | inl excluded ↦ (_, skip l stuck rest e f excluded)
    | inr included ↦ elim (Bool-cases stuck) [
      | inl h ↦ (_, find_stuck l rest (rw h at e) f included)
      | inr h ↦ (_, hand l rest n (rw h at e) f included i)
    ]
  ]

  -- Until `GetStats` has received all results, some goroutine can make a step: neither channel ever
  -- blocks all of them, with at least one worker, as the code makes sure of.
  pub get_stats-progress :
      (n : ℕ) (mounts : List (Labels × Bool)) (s : Gathering F)
      → GatherReach c run (gather_start n mounts) s
      → IsGathered s ⊎ ((t : Gathering F) × GatherStep c run s t)
  get_stats-progress n mounts s r =
      go s.todo s.feeder s.idle s.busy s.ready s.main refl refl refl refl refl refl
    where
      go :
          (todo : List (Labels × Bool)) (feeder : Option (List (Stats F) × Stats F)) (idle : ℕ)
          (busy : List Labels) (ready : List (Stats F)) (main : Option (List (Stats F) × Stats F))
          → s.todo ≡ todo
          → s.feeder ≡ feeder
          → s.idle ≡ idle
          → s.busy ≡ busy
          → s.ready ≡ ready
          → s.main ≡ main
          → IsGathered s ⊎ ((t : Gathering F) × GatherStep c run s t)
      go todo (some (read, x)) idle busy ready main a b d e f g = inr (_, store_stuck read x b)
      go todo none idle busy ready (some (read, x)) a b d e f g = inr (_, store read x g)
      go todo none idle (l ∷ busy) ready none a b d e f g = inr (_, process [] busy l e)
      go todo none idle [] (x ∷ ready) none a b d e f g = inr (_, receive [] ready x f g)
      go [] none idle [] [] none a b d e f g =
          inl (record { todo = a; feeder = b; busy = e; ready = f; main = g })
      go ((l, stuck) ∷ rest) none (suc m) [] [] none a b d e f g = inr (feed s m l stuck rest a b d)
      go ((l, stuck) ∷ rest) none zero [] [] none a b d e f g =
          absurd (ground (arith, reach-workers n mounts r, ap length e, ap length f))
