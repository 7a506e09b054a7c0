-- ===== src/Textfile/Help.antt =====
-- The help texts of `Update`: the first text of a name is that of every accepted family of the name.
use infra_pulse.Base.{
  ℕ, false, Option, none, some, List, [], ◌∷◌, ◌≡◌, arith, ==_iff, list_eq, nat_eq, ok, All,
  All-append, All-imply, All-always, All-get_elem?, Bool-cases, inl, inr, Option-cases, get_elem?,
}
use infra_pulse.Base.Map.{Map, lookup, insert, lookup-insert}
use infra_pulse.Base.Text.{Bytes}
use infra_pulse.Textfile.{MetricFamily}
use infra_pulse.Textfile.Gather.{
  Listing, Gathered, inconsistent, first_help, reject, note_help, accept, add_family, add_dirs,
  nothing_gathered,
}
use infra_pulse.Textfile.Loops.{Ends, Ends-ok, add_dirs-Ends}

-- The first help text of a name.
abbrev pub text : Map Bytes (Bytes × Bytes) → Bytes → Option Bytes
text helps k = elim (lookup k helps) [ none ↦ none | some p ↦ some p.0 ]

-- No first text changes.
abbrev Extends : Map Bytes (Bytes × Bytes) → Map Bytes (Bytes × Bytes) → Type 0
Extends helps helps' = (k h : Bytes) → text helps k ≡ some h → text helps' k ≡ some h

module _ {F : Type 0} where
  -- If the family gives a help text, it is the first one of its name.
  abbrev Agrees : Map Bytes (Bytes × Bytes) → MetricFamily F → Type 0
  Agrees helps mf = (h : Bytes) → mf.help ≡ some h → text helps mf.name ≡ some h

  pub note_help-Extends :
      (mf : MetricFamily F) (help : Option Bytes) (helps : Map Bytes (Bytes × Bytes))
      → inconsistent (lookup mf.name helps) help ≡ false
      → Extends helps (note_help mf help helps)
  note_help-Extends mf none helps c k h e = e
  note_help-Extends mf (some x) helps c k h e = elim (Option-cases (lookup mf.name helps)) [
    | inl n ↦ ground (arith, lookup-insert mf.name k (x, []) helps, ==_iff mf.name k)
    | inr (p, n) ↦
        ground (arith, lookup-insert mf.name k (x, []) helps, ==_iff mf.name k, ==_iff p.0 x)
  ]

  note_help-text :
      (mf : MetricFamily F) (h : Bytes) (helps : Map Bytes (Bytes × Bytes))
      → text (note_help mf (some h) helps) mf.name ≡ some h
  note_help-text mf h helps =
      ground (arith, lookup-insert mf.name mf.name (h, []) helps, ==_iff mf.name mf.name)

  pub reject-Extends :
      (mf : MetricFamily F) (h : Bytes) (helps : Map Bytes (Bytes × Bytes))
      → Extends helps (insert mf.name (first_help (lookup mf.name helps), h) helps)
  reject-Extends mf x helps k h e = elim (Option-cases (lookup mf.name helps)) [
    | inl n ↦ ground (
      arith,
      lookup-insert mf.name k (first_help (lookup mf.name helps), x) helps,
      ==_iff mf.name k,
    )
    | inr (p, n) ↦ ground (
      arith,
      lookup-insert mf.name k (first_help (lookup mf.name helps), x) helps,
      ==_iff mf.name k,
    )
  ]

  record HelpsAgree (g : Gathered F) : Type 0 where
    parsed : All (Agrees g.helps) g.parsed

  agrees_still :
      (helps helps' : Map Bytes (Bytes × Bytes)) (families : List (MetricFamily F))
      → Extends helps helps'
      → All (Agrees helps) families
      → All (Agrees helps') families
  agrees_still helps helps' families x =
      All-imply (Agrees helps) (Agrees helps') families (λ mf a h e. x mf.name h (a h e))

  accept-HelpsAgree :
      (path : Bytes) (mf : MetricFamily F) (g : Gathered F)
      → inconsistent (lookup mf.name g.helps) mf.help ≡ false
      → HelpsAgree g
      → HelpsAgree (accept path mf g)
  accept-HelpsAgree path mf g c i = record {
    parsed =
        All-append (Agrees (note_help mf mf.help g.helps)) g.parsed (mf ∷ [])
          (agrees_still _ _ g.parsed (note_help-Extends mf mf.help g.helps c) i.parsed)
          (λ h e. rw e (note_help-text mf h g.helps), tt);
  }

  reject-HelpsAgree :
      (mf : MetricFamily F) (help file : Option Bytes) (g : Gathered F)
      → HelpsAgree g
      → Ends HelpsAgree Unit (reject mf (first_help (lookup mf.name g.helps)) help file g)
  reject-HelpsAgree mf none file g i = tt
  reject-HelpsAgree mf (some h) none g i = tt
  reject-HelpsAgree mf (some h) (some file) g i = record {
    parsed = agrees_still _ _ g.parsed (reject-Extends mf h g.helps) i.parsed;
  }

  add_family-HelpsAgree :
      (path : Bytes) (mf : MetricFamily F) (g : Gathered F)
      → HelpsAgree g
      → Ends HelpsAgree Unit (add_family path mf g)
  unfolding add_family
  add_family-HelpsAgree path mf g i =
      elim (Bool-cases (inconsistent (lookup mf.name g.helps) mf.help)) [
        | inl c ↦ rw c (reject-HelpsAgree mf mf.help _ g i)
        | inr c ↦ rw c (accept-HelpsAgree path mf g c i)
      ]

  -- When the loops of `Update` over the directories, files and families end without a panic, two
  -- accepted families of the same name that both give a help text give the same one, whatever the
  -- files held.
  pub add_dirs-same_help :
      (join : Bytes → Bytes → Bytes) (read_dir : Bytes → Listing F) (dirs : List Bytes)
      (g : Gathered F) (i j : ℕ) {a b : MetricFamily F} (h h' : Bytes)
      → add_dirs join read_dir dirs nothing_gathered ≡ ok g
      → get_elem? g.parsed i ≡ some a
      → get_elem? g.parsed j ≡ some b
      → a.name ≡ b.name
      → a.help ≡ some h
      → b.help ≡ some h'
      → h ≡ h'
  add_dirs-same_help join read_dir dirs g i j {a} {b} h h' e ma mb n ha hb =
      let agree =
        Ends-ok HelpsAgree Unit
          (add_dirs-Ends HelpsAgree Unit (λ _. Unit) (λ _. Unit)
            (λ path mf g _. add_family-HelpsAgree path mf g)
            (λ g path t p i. record { parsed = i.parsed }) (λ g e x i. record { parsed = i.parsed })
            join read_dir dirs nothing_gathered
            (λ dir. All-always _ (λ f. (All-always _ (λ _. tt) _, tt)) _) (record { parsed = tt }))
          e in
      let ta = All-get_elem? (Agrees g.helps) g.parsed i agree.parsed ma h ha in
      let tb = All-get_elem? (Agrees g.helps) g.parsed j agree.parsed mb h' hb in
      ground (arith, ta, tb)
