-- ===== src/Filesystem/Gather.antt =====
-- `GetStats`: a goroutine feeds the mounts to the workers over a channel without a buffer, the workers
-- send what `processStat` returns, and the caller appends it to `stats`. The feeder appends to the
-- same variable when it finds a mount that is stuck. An append reads the variable and writes it later,
-- as two steps, since no lock is held.
pub mod Complete
pub mod Race
pub mod Progress
use infra_pulse.Base.{
  ℕ, suc, Bool, true, false, ◌||◌, Option, none, some, List, [], ◌∷◌, ◌++◌, ◌≡◌, ltb, if◌then◌else◌,
}
use infra_pulse.Base.Text.{Bytes, codes}
use infra_pulse.Metric.{Float64}
use infra_pulse.Filesystem.{Labels, Stats, Filesystems, failed_stats}

-- `todo` holds with each mount whether the feeder will find it among the stuck mounts, at the one look
-- that it takes: the map changes while `GetStats` runs. `feeder` and `main` are appends in progress,
-- the slice that was read and the new element. `busy` are the labels that workers process, `ready`
-- the results that workers send.
pub record Gathering (F : Type 0) : Type 0 where
  pub todo : List (Labels × Bool)
  pub feeder : Option (List (Stats F) × Stats F)
  pub idle : ℕ
  pub busy : List Labels
  pub ready : List (Stats F)
  pub main : Option (List (Stats F) × Stats F)
  pub stats : List (Stats F)

-- `workerCount`
abbrev pub worker_count : ℕ → ℕ
worker_count n = if ltb n 1 then 1 else n

-- Whether one of the patterns of the collector matches.
abbrev pub is_excluded : Filesystems → Labels → Bool
is_excluded c labels =
    c.excluded_mount_points labels.mount_point || c.excluded_fs_types labels.fs_type

module _ {F : Type 0} where
  unfoldable pub gather_start : ℕ → List (Labels × Bool) → Gathering F
  gather_start n mounts = record {
    todo = mounts;
    feeder = none;
    idle = worker_count n;
    busy = [];
    ready = [];
    main = none;
    stats = [];
  }

  -- The feeder has closed the channels and the caller has received everything.
  pub record IsGathered (s : Gathering F) : Type 0 where
    pub todo : s.todo ≡ []
    pub feeder : s.feeder ≡ none
    pub busy : s.busy ≡ []
    pub ready : s.ready ≡ []
    pub main : s.main ≡ none

module _ {F : Type 0} ⦃fl : Float64 F⦄ where
  -- What the feeder appends for a stuck mount.
  abbrev pub stuck_stats : Labels → Stats F
  stuck_stats labels = failed_stats labels (fl.from_uint 0) (codes "mountpoint timeout")

  -- `run` is `processStat`, and `c` is the collector.
  pub data GatherStep (c : Filesystems) (run : Labels → Stats F) (s : Gathering F)
      : Gathering F → Type 0 where
    skip :
        (l : Labels) (stuck : Bool) (rest : List (Labels × Bool))
        → s.todo ≡ (l, stuck) ∷ rest
        → s.feeder ≡ none
        → is_excluded c l ≡ true
        → GatherStep c run s (record s { todo = rest })
    find_stuck :
        (l : Labels) (rest : List (Labels × Bool))
        → s.todo ≡ (l, true) ∷ rest
        → s.feeder ≡ none
        → is_excluded c l ≡ false
        → GatherStep c run s (record s { todo = rest; feeder = some (s.stats, stuck_stats l) })
    store_stuck :
        (read : List (Stats F)) (x : Stats F)
        → s.feeder ≡ some (read, x)
        → GatherStep c run s (record s { feeder = none; stats = read ++ x ∷ [] })
    hand :
        (l : Labels) (rest : List (Labels × Bool)) (n : ℕ)
        → s.todo ≡ (l, false) ∷ rest
        → s.feeder ≡ none
        → is_excluded c l ≡ false
        → s.idle ≡ suc n
        → GatherStep c run s (record s { todo = rest; idle = n; busy = l ∷ s.busy })
    process :
        (before after : List Labels) (l : Labels)
        → s.busy ≡ before ++ l ∷ after
        → GatherStep c run s (record s { busy = before ++ after; ready = run l ∷ s.ready })
    receive :
        (before after : List (Stats F)) (x : Stats F)
        → s.ready ≡ before ++ x ∷ after
        → s.main ≡ none
        → GatherStep c run s
            (record s { ready = before ++ after; idle = suc s.idle; main = some (s.stats, x) })
    store :
        (read : List (Stats F)) (x : Stats F)
        → s.main ≡ some (read, x)
        → GatherStep c run s (record s { main = none; stats = read ++ x ∷ [] })

  pub data GatherReach (c : Filesystems) (run : Labels → Stats F) (s : Gathering F)
      : Gathering F → Type 0 where
    here : GatherReach c run s s
    next :
        {t u : Gathering F} → GatherReach c run s t → GatherStep c run t u → GatherReach c run s u
