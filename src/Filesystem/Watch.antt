-- ===== src/Filesystem/Watch.antt =====
-- `processStat` and `stuckMountWatcher` for one mount point: whether `stuckMounts` holds it, under every
-- interleaving of the calls of `statfs`, which may overlap, since `Update` can run twice at a time.
use infra_pulse.Base.{Bool, true, false, List, [], ◌∷◌, ◌++◌, ◌≡◌, refl, arith, All, if◌then◌else◌}

-- A watcher waits in its `select`, has taken the case of the timer, or has returned.
pub data Watcher : Type 0 where
  waiting timed_out finished : Watcher

-- One call of `processStat`: whether it has closed `success`, and its watcher.
pub record Watched : Type 0 where
  pub closed : Bool
  pub watcher : Watcher

pub record Watching : Type 0 where
  pub stuck : Bool
  pub calls : List Watched

-- What the watcher of a call does to `stuckMounts` once it holds the mutex: the inner `select`.
unfoldable pub mark : Bool → Bool → Bool
mark closed stuck = if closed then stuck else true

-- What `processStat` does to it when `statfs` has returned.
unfoldable pub unmark : Bool → Bool
unmark stuck = if stuck then false else stuck

-- The sections under the mutex are one step each.
pub data WatchStep (s : Watching) : Watching → Type 0 where
  call : WatchStep s (record s { calls = record { closed = false; watcher = waiting } ∷ s.calls })
  give_up :
      (before after : List Watched) (closed : Bool)
      → s.calls ≡ before ++ record { closed = closed; watcher = waiting } ∷ after
      → WatchStep s
          (record s { calls = before ++ record { closed = closed; watcher = timed_out } ∷ after })
  succeed :
      (before after : List Watched)
      → s.calls ≡ before ++ record { closed = true; watcher = waiting } ∷ after
      → WatchStep s
          (record s { calls = before ++ record { closed = true; watcher = finished } ∷ after })
  mark_stuck :
      (before after : List Watched) (closed : Bool)
      → s.calls ≡ before ++ record { closed = closed; watcher = timed_out } ∷ after
      → WatchStep s (record {
        stuck = mark closed s.stuck;
        calls = before ++ record { closed = closed; watcher = finished } ∷ after;
      })
  recover :
      (before after : List Watched) (w : Watcher)
      → s.calls ≡ before ++ record { closed = false; watcher = w } ∷ after
      → WatchStep s (record {
        stuck = unmark s.stuck;
        calls = before ++ record { closed = true; watcher = w } ∷ after;
      })

abbrev pub watch_start : Watching
watch_start = record { stuck = false; calls = [] }

pub data WatchReach : Watching → Type 0 where
  started : WatchReach watch_start
  onward : {s t : Watching} → WatchReach s → WatchStep s t → WatchReach t

-- `statfs` has returned.
abbrev pub HasReturned : Watched → Type 0
HasReturned c = c.closed ≡ true

module _ {A : Type 0} (P : A → Type 0) where
  All-middle : (before after : List A) (x : A) → All P (before ++ x ∷ after) → P x
  All-middle [] after x h = h.0
  All-middle (b ∷ before) after x h = All-middle before after x h.1

  All-replace :
      (before after : List A) (x y : A)
      → (P y → P x)
      → All P (before ++ y ∷ after)
      → All P (before ++ x ∷ after)
  All-replace [] after x y f h = (f h.0, h.1)
  All-replace (b ∷ before) after x y f h = (h.0, All-replace before after x y f h.1)

abbrev IsClean : Watching → Type 0
IsClean s = All HasReturned s.calls → s.stuck ≡ false

-- What a watcher does changes no `closed`.
renew :
    (calls before after : List Watched) (closed : Bool) (v w : Watcher)
    → calls ≡ before ++ record { closed = closed; watcher = v } ∷ after
    → All HasReturned (before ++ record { closed = closed; watcher = w } ∷ after)
    → All HasReturned calls
renew calls before after closed v w e all = rw e (
    All-replace HasReturned before after (record { closed = closed; watcher = v })
      (record { closed = closed; watcher = w }) (λ q. q) all)

step-IsClean : {s t : Watching} → WatchStep s t → IsClean s → IsClean t
unfolding mark unmark
step-IsClean call h all = ground arith
step-IsClean {s} (give_up before after closed e) h all =
    h (renew s.calls before after closed waiting timed_out e all)
step-IsClean {s} (succeed before after e) h all =
    h (renew s.calls before after true waiting finished e all)
step-IsClean {s} (mark_stuck before after closed e) h all =
    let returned : closed ≡ true =
      All-middle HasReturned before after (record { closed = closed; watcher = finished }) all in
    rw returned (h (renew s.calls before after closed timed_out finished e all))
step-IsClean {s} (recover before after w e) h all = ground arith

-- Once every call of `statfs` on a mount point has returned, the mount point is not marked as stuck,
-- however the calls, the timers and the watchers were interleaved: a mount that answers again is
-- looked at again.
pub watch-IsClean : (s : Watching) → WatchReach s → All HasReturned s.calls → s.stuck ≡ false
watch-IsClean s started all = refl
watch-IsClean s (onward r st) all = step-IsClean st (watch-IsClean _ r) all
