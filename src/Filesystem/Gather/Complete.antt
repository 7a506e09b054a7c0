-- ===== src/Filesystem/Gather/Complete.antt =====
-- When no mount is stuck, `GetStats` returns the results of all mounts that are not excluded.
use mathlib.Core.List.{Perm, perm_middle}
use mathlib.Core.List.Perm
use infra_pulse.Base.{
  ◌||◌, ℕ, Bool, true, false, Option, none, some, List, [], ◌∷◌, ◌++◌, ◌≡◌, refl, sym, ap, ◌∙◌,
  subst, arith, map, if◌then◌else◌, append_assoc, append-nil,
}
use infra_pulse.Metric.{Float64}
use infra_pulse.Filesystem.{Labels, Stats, Filesystems}
use infra_pulse.Filesystem.Gather.{
  Gathering, gather_start, IsGathered, GatherStep, skip, find_stuck, store_stuck, hand, process,
  receive, store, GatherReach, here, next,
}

-- The mounts that are not excluded, in order.
abbrev pub included : Filesystems → List Labels → List Labels
included c [] = []
included c (l ∷ ls) =
    if c.excluded_mount_points l.mount_point || c.excluded_fs_types l.fs_type
    then included c ls
    else l ∷ included c ls

-- Mounts none of which the feeder will find stuck.
abbrev pub responsive : List Labels → List (Labels × Bool)
responsive [] = []
responsive (l ∷ ls) = (l, false) ∷ responsive ls

map-append : {A B : Type 0} (f : A → B) (xs ys : List A) → map f (xs ++ ys) ≡ map f xs ++ map f ys
map-append f [] ys = refl
map-append f (x ∷ xs) ys = ap (λ t. f x ∷ t) (map-append f xs ys)

module _ {A : Type 0} where
  pull_last :
      (st p r b i : List A) (x : A)
      → Perm (st ++ (p ++ (r ++ (x ∷ (b ++ i))))) (st ++ (p ++ (r ++ (b ++ (x ∷ i)))))
  pull_last st p r b i x =
      Perm.append_left st (Perm.append_left p (Perm.append_left r (Perm.symm (perm_middle b i))))

  pull_inner : (b₁ b₂ i : List A) (x : A) → Perm (x ∷ ((b₁ ++ b₂) ++ i)) ((b₁ ++ (x ∷ b₂)) ++ i)
  pull_inner b₁ b₂ i x = Perm.symm (Perm.append_right i (perm_middle b₁ b₂))

  pull_busy :
      (st p r b₁ b₂ i : List A) (x : A)
      → Perm
          (st ++ (p ++ (x ∷ (r ++ ((b₁ ++ b₂) ++ i)))))
          (st ++ (p ++ (r ++ ((b₁ ++ (x ∷ b₂)) ++ i))))
  pull_busy st p r b₁ b₂ i x = Perm.append_left st (
      Perm.append_left p
        (Perm.trans (Perm.symm (perm_middle r _)) (Perm.append_left r (pull_inner b₁ b₂ i x))))

module _ {F : Type 0} ⦃fl : Float64 F⦄ (c : Filesystems) (run : Labels → Stats F) where
  abbrev pending : Option (List (Stats F) × Stats F) → List (Stats F)
  pending none = []
  pending (some (read, x)) = x ∷ []

  -- All results, those to come included.
  abbrev results : Gathering F → List Labels → List (Stats F)
  results s ls =
      s.stats ++ (pending s.main ++ (s.ready ++ (map run s.busy ++ map run (included c ls))))

  record Whole (total : List (Stats F)) (s : Gathering F) : Type 0 where
    ls : List Labels
    todo : s.todo ≡ responsive ls
    feeder : s.feeder ≡ none
    read : (r : List (Stats F)) (x : Stats F) → s.main ≡ some (r, x) → r ≡ s.stats
    perm : Perm (results s ls) total

  responsive-cons :
      (ls : List Labels) (l : Labels) (b : Bool) (rest : List (Labels × Bool))
      → responsive ls ≡ (l, b) ∷ rest
      → (ls' : List Labels) × ((ls ≡ l ∷ ls') × ((b ≡ false) × (rest ≡ responsive ls')))
  responsive-cons [] l b rest h = ground arith
  responsive-cons (m ∷ ls) l b rest h = (ls, (ground arith, (ground arith, ground arith)))

  step-Whole :
      {total : List (Stats F)} {s t : Gathering F}
      → GatherStep c run s t
      → Whole total s
      → Whole total t
  step-Whole {total} {s} (skip l b rest e f x) w =
      let (ls', (q, (qb, qr))) = responsive-cons w.ls l b rest (sym w.todo ∙ e) in
      record { ls = ls'; todo = qr; feeder = w.feeder; read = w.read; perm = rw (q, x) at w.perm }
  step-Whole {total} {s} (find_stuck l rest e f x) w =
      let (ls', (q, (qb, qr))) = responsive-cons w.ls l true rest (sym w.todo ∙ e) in ground arith
  step-Whole {total} {s} (store_stuck r x e) w = ground (arith, w.feeder)
  step-Whole {total} {s} (hand l rest n e f x i) w =
      let (ls', (q, (qb, qr))) = responsive-cons w.ls l false rest (sym w.todo ∙ e) in
      record {
        ls = ls';
        todo = qr;
        feeder = w.feeder;
        read = w.read;
        perm =
            Perm.trans
              (pull_last s.stats (pending s.main) s.ready (map run s.busy)
                (map run (included c ls')) (run l))
              (rw (q, x) at w.perm);
      }
  step-Whole {total} {s} (process before after l e) w = record {
    ls = w.ls;
    todo = w.todo;
    feeder = w.feeder;
    read = w.read;
    perm = rw (map-append run before after) (
        Perm.trans
          (pull_busy s.stats (pending s.main) s.ready (map run before) (map run after)
            (map run (included c w.ls)) (run l))
          (rw (e, map-append run before (l ∷ after)) at w.perm));
  }
  step-Whole {total} {s} (receive before after x e m) w = record {
    ls = w.ls;
    todo = w.todo;
    feeder = w.feeder;
    read = λ r y h. ground arith;
    perm =
        Perm.trans
          (Perm.append_left s.stats
            (pull_inner before after (map run s.busy ++ map run (included c w.ls)) x))
          (rw (e, m) at w.perm);
  }
  step-Whole {total} {s} (store r x m) w = record {
    ls = w.ls;
    todo = w.todo;
    feeder = w.feeder;
    read = λ r y h. ground arith;
    perm = rw (w.read r x m, append_assoc s.stats) (rw m at w.perm);
  }

  start-Whole :
      (n : ℕ) (ls : List Labels) → Whole (map run (included c ls)) (gather_start n (responsive ls))
  unfolding gather_start
  start-Whole n ls = record {
    ls = ls;
    todo = refl;
    feeder = refl;
    read = λ r x h. ground arith;
    perm = Perm.refl _;
  }

  reach-Whole :
      {total : List (Stats F)} {s t : Gathering F}
      → Whole total s
      → GatherReach c run s t
      → Whole total t
  reach-Whole w here = w
  reach-Whole w (next r st) = step-Whole st (reach-Whole w r)

  nothing_left : (ls : List Labels) → responsive ls ≡ [] → ls ≡ []
  nothing_left [] h = refl
  nothing_left (l ∷ ls) h = ground arith

  -- When the feeder finds no mount stuck, `GetStats` returns, whatever the number of workers and under
  -- every schedule of the goroutines, the results of the mounts that no pattern of the collector
  -- excludes, each of them once.
  pub get_stats-complete :
      (n : ℕ) (ls : List Labels) (s : Gathering F)
      → GatherReach c run (gather_start n (responsive ls)) s
      → IsGathered s
      → Perm s.stats (map run (included c ls))
  get_stats-complete n ls s r g =
      let w : Whole (map run (included c ls)) s = reach-Whole (start-Whole n ls) r in
      let none_left : w.ls ≡ [] = nothing_left w.ls (sym w.todo ∙ g.todo) in
      subst (λ t. Perm t (map run (included c ls)))
        (rw (none_left, g.main, g.ready, g.busy) (append-nil s.stats)) w.perm
