-- ===== src/Scrape/Interleaving.antt =====
-- `Collect` under every schedule of its goroutines: it ends, and no metric is lost or sent twice.
use mathlib.Core.List.{
  Perm, Mem, perm_middle, perm_append_comm, mem-append_left, mem-append_right, mem-cons_self,
  mem-cons_of_mem,
}
use mathlib.Core.List.Perm
use infra_pulse.Base.{
  ℕ, ◌+◌, suc, String, none, some, List, [], ◌∷◌, ◌++◌, ◌≡◌, ◌≢◌, refl, sym, ap, ◌⊎◌, inl, inr,
  length, length-append, nil_of_length, append_assoc, string_eq, ◌==◌, ==_iff, Bool-cases,
  append-nil, arith, subst,
}
use infra_pulse.Base.Map.{Map, lookup}
use infra_pulse.Metric.{Float64, Metric}
use infra_pulse.Scrape.{
  Collecting, collect_start, IsDone, Step, spawn, send, finish, Reach, here, next, Updated, execute,
  success_metric, success_value,
}

-- All the metrics of some goroutines.
abbrev pub joined {ℓ} : {A : Type ℓ} → List (List A) → List A
joined [] = []
joined (t ∷ ts) = t ++ joined ts

joined-append {ℓ} :
    {A : Type ℓ} (xs ys : List (List A)) → joined (xs ++ ys) ≡ joined xs ++ joined ys
joined-append [] ys = refl
joined-append (x ∷ xs) ys = rw (joined-append xs ys) (sym (append_assoc x (joined xs) (joined ys)))

module _ {ℓ} {A : Type ℓ} where
  swap_front : (a b c : List A) → Perm ((a ++ b) ++ c) (b ++ (a ++ c))
  swap_front a b c = rw (← append_assoc b a c) (Perm.append_right c (perm_append_comm a b))

  move_back : (m : A) (a b c : List A) → Perm (m ∷ ((a ++ b) ++ c)) ((a ++ (m ∷ b)) ++ c)
  move_back m a b c = Perm.append_right c (Perm.symm (perm_middle a b))

module _ {F C : Type 0} (run : String → C → List (Metric F)) where
  -- What the collectors of a map send, one behind the other.
  abbrev pub all_runs : Map String C → List (Metric F)
  all_runs [] = []
  all_runs ((name, c) ∷ rest) = run name c ++ all_runs rest

  abbrev everything : Collecting F C → List (Metric F)
  everything s = s.sent ++ (joined s.running ++ all_runs s.pending)

  record Inv (total : List (Metric F)) (s : Collecting F C) : Type 0 where
    pub counted : s.waiting ≡ length s.pending + length s.running
    pub whole : Perm (everything s) total

  Step-everything : {s t : Collecting F C} → Step run s t → Perm (everything t) (everything s)
  Step-everything {s} (spawn name c rest e) =
      rw e (Perm.append_left s.sent (swap_front (run name c) (joined s.running) (all_runs rest)))
  Step-everything {s} (send before after m later e) =
      rw
        (
          e,
          joined-append before (later ∷ after),
          joined-append before ((m ∷ later) ∷ after),
          append_assoc s.sent,
        )
        (Perm.append_left s.sent
          (move_back m (joined before) (later ++ joined after) (all_runs s.pending)))
  Step-everything {s} (finish before after e) =
      rw (e, joined-append before after, joined-append before ([] ∷ after)) (Perm.refl _)

  Step-counted :
      {s t : Collecting F C}
      → Step run s t
      → s.waiting ≡ length s.pending + length s.running
      → t.waiting ≡ length t.pending + length t.running
  Step-counted {s} (spawn name c rest e) h = omega (arith, ap length e)
  Step-counted {s} (send before after m later e) h = omega (
    arith,
    ap length e,
    length-append before ((m ∷ later) ∷ after),
    length-append before (later ∷ after),
  )
  Step-counted {s} (finish before after e) h =
      omega (arith, ap length e, length-append before ([] ∷ after), length-append before after)

  start-Inv : (m : Map String C) → Inv (all_runs m) (collect_start m)
  unfolding collect_start
  start-Inv m = record { counted = omega arith; whole = Perm.refl _ }

  Reach-Inv :
      {total : List (Metric F)} {s t : Collecting F C} → Inv total s → Reach run s t → Inv total t
  Reach-Inv h here = h
  Reach-Inv h (next r st) =
      let before = Reach-Inv h r in
      record {
        counted = Step-counted st before.counted;
        whole = Perm.trans (Step-everything st) before.whole;
      }

  done-sent :
      {total : List (Metric F)} (s : Collecting F C) → Inv total s → IsDone s → Perm s.sent total
  done-sent {total} s h d =
      let idle : s.running ≡ [] =
        nil_of_length s.running (omega (arith, h.counted, ap length d.0)) in
      subst (λ x. Perm x total) (rw (d.0, idle) (append-nil s.sent)) h.whole

  -- Work left: two steps for each metric and goroutine at most.
  abbrev length_all : List (List (Metric F)) → ℕ
  length_all [] = 0
  length_all (t ∷ ts) = 1 + length t + length_all ts

  abbrev length_pending : Map String C → ℕ
  length_pending [] = 0
  length_pending ((name, c) ∷ rest) = 2 + length (run name c) + length_pending rest

  -- The steps that a scrape has yet to make.
  abbrev pub steps_left : Collecting F C → ℕ
  steps_left s = length_pending s.pending + length_all s.running

  length_all-append :
      (xs ys : List (List (Metric F))) → length_all (xs ++ ys) ≡ length_all xs + length_all ys
  length_all-append [] ys = omega arith
  length_all-append (x ∷ xs) ys = omega (arith, length_all-append xs ys)

  -- Every step takes one from the steps that are left, so every schedule ends.
  pub Step-steps_left : {s t : Collecting F C} → Step run s t → steps_left s ≡ suc (steps_left t)
  Step-steps_left {s} (spawn name c rest e) = omega (arith, ap length_pending e)
  Step-steps_left {s} (send before after m later e) = omega (
    arith,
    ap length_all e,
    length_all-append before ((m ∷ later) ∷ after),
    length_all-append before (later ∷ after),
  )
  Step-steps_left {s} (finish before after e) = omega (
    arith,
    ap length_all e,
    length_all-append before ([] ∷ after),
    length_all-append before after,
  )

  -- When `Collect` returns, under whatever schedule, the channel has carried each metric that the
  -- collectors sent, as often as they sent it, and nothing else.
  pub collect_complete :
      (m : Map String C) {s : Collecting F C}
      → Reach run (collect_start m) s
      → IsDone s
      → Perm s.sent (all_runs m)
  collect_complete m r d = done-sent _ (Reach-Inv (start-Inv m) r) d

  running_steps :
      (s : Collecting F C) (ts : List (List (Metric F)))
      → s.running ≡ ts
      → ts ≢ []
      → (t : Collecting F C) × Step run s t
  running_steps s [] e h = absurd (h refl)
  running_steps s ([] ∷ ts) e h = (_, finish [] ts e)
  running_steps s ((m ∷ later) ∷ ts) e h = (_, send [] ts m later e)

  -- A scrape never gets stuck: as long as `Collect` has not returned, some goroutine can go on.
  pub collect_progress :
      (m : Map String C) (s : Collecting F C)
      → Reach run (collect_start m) s
      → IsDone s ⊎ ((t : Collecting F C) × Step run s t)
  collect_progress m s r = go s.pending s.running refl refl
    where
      inv : Inv (all_runs m) s
      inv = Reach-Inv (start-Inv m) r

      go :
          (p : Map String C) (ts : List (List (Metric F)))
          → s.pending ≡ p
          → s.running ≡ ts
          → IsDone s ⊎ ((t : Collecting F C) × Step run s t)
      go ((name, c) ∷ rest) ts e f = inr (_, spawn name c rest e)
      go [] [] e f = inl (e, omega (arith, inv.counted, ap length e, ap length f))
      go [] (t ∷ ts) e f = inr (running_steps s (t ∷ ts) f (λ q. cc))

module _ {F C E : Type 0} ⦃fl : Float64 F⦄ (update : String → C → Updated F E)
    (duration : String → F) where
  -- What the goroutine of one collector sends.
  abbrev pub run_of : String → C → List (Metric F)
  run_of name c = execute name (update name c) (duration name)

  mem-execute :
      (name : String) (u : Updated F E) (d : F)
      → Mem (success_metric name (success_value u.error)) (execute name u d)
  unfolding execute
  mem-execute name u d = mem-append_right u.sent (mem-cons_of_mem _ mem-cons_self)

  mem-all_runs :
      (m : Map String C) (name : String) (c : C)
      → lookup name m ≡ some c
      → Mem (success_metric name (success_value (update name c).error)) (all_runs run_of m)
  unfolding lookup
  mem-all_runs [] name c h = cc
  mem-all_runs ((j, d) ∷ rest) name c h = elim (Bool-cases (j == name)) [
    | inl same ↦
        let p : j ≡ name = (==_iff j name).0 same in
        let q : d ≡ c = cc (rw same at h) in
        rw (p, q)
          (mem-append_left (all_runs run_of rest)
            (mem-execute name (update name c) (duration name)))
    | inr other ↦ mem-append_right (run_of j d) (mem-all_runs rest name c (rw other at h))
  ]

  -- When `Collect` has returned, every collector of the node has reported whether its `Update`
  -- succeeded: the value is 1 if it returned no error, and 0 if it did.
  pub collect_reports :
      (m : Map String C) {s : Collecting F C}
      → Reach run_of (collect_start m) s
      → IsDone s
      → (name : String) (c : C) → lookup name m ≡ some c
      → ((update name c).error ≡ none → Mem (success_metric name (fl.from_uint 1)) s.sent)
        × ((e : E)
            → (update name c).error ≡ some e
            → Mem (success_metric name (fl.from_uint 0)) s.sent)
  unfolding success_value
  collect_reports m {s} r d name c h =
      let reported : Mem (success_metric name (success_value (update name c).error)) s.sent =
        (Perm.mem_iff (collect_complete run_of m r d)).1 (mem-all_runs m name c h) in
      ((λ e. rw e at reported), (λ x e. rw e at reported))
