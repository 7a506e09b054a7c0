-- ===== src/Textfile/Total.antt =====
-- When `Update` returns: families that all bear a help text and the payload of their type.
use infra_pulse.Base.{
  Bool, true, false, Option, none, some, List, [], ◌∷◌, ◌++◌, ◌≡◌, refl, arith, ◌==◌, ==_iff,
  list_eq, nat_eq, ok, All, All-append, Bool-cases, Option-cases, inl, inr, get_elem?,
}
use infra_pulse.Base.Map.{Map, lookup, lookup-insert, lookup-nil, get_or}
use infra_pulse.Base.Text.{Bytes}
use infra_pulse.Metric.{Float64}
use infra_pulse.Textfile.{DtoMetric, MetricFamily, Sent, Runtime, contains_name}
use infra_pulse.Textfile.Accepts.{Rules}
use infra_pulse.Textfile.Convert.{IsSendable, convert_metric_family-RendersAll}
use infra_pulse.Textfile.Gather.{
  Listing, Gathered, inconsistent, reject, note_help, accept, add_family, add_dirs,
  nothing_gathered, paths_of,
}
use infra_pulse.Textfile.Update.{
  fill_help, fill_helps, send_families, sort_paths, send_all, update, export_mtimes, scrape_error,
}
use infra_pulse.Textfile.Times.{
  Texts, insert-Texts, sort_paths-Texts, AcceptsInOrder, send_mtimes-total, scrape_error-total,
}
use infra_pulse.Textfile.Loops.{Ends, Ends-total, AllFiles, add_dirs-Ends}
use infra_pulse.Textfile.Help.{text}

abbrev is_given : List Bytes → Bool
is_given [] = false
is_given (x ∷ xs) = true

is_given-append : (xs : List Bytes) (x : Bytes) → is_given (xs ++ x ∷ []) ≡ true
is_given-append [] x = refl
is_given-append (y ∷ xs) x = refl

module _ {F : Type 0} where
  -- A help text, and what the rules allow.
  pub record IsComplete (r : Rules) (mf : MetricFamily F) : Type 0 where
    pub text : Bytes
    pub help : mf.help ≡ some text
    pub sendable : IsSendable r mf

  -- Every name with a help text has a file, and every accepted family can be sent.
  record Sendable (r : Rules) (g : Gathered F) : Type 0 where
    file : (k h : Bytes) → text g.helps k ≡ some h → is_given (get_or k [] g.files) ≡ true
    parsed : All (IsSendable r) g.parsed
    times : Texts r g.mtimes

  accept-text :
      (mf : MetricFamily F) (help : Option Bytes) (k : Bytes) (helps : Map Bytes (Bytes × Bytes))
      {t : Bytes}
      → (mf.name == k) ≡ false
      → text (note_help mf help helps) k ≡ some t
      → text helps k ≡ some t
  accept-text mf none k helps n e = e
  accept-text mf (some h) k helps n e = ground (arith, lookup-insert mf.name k (h, []) helps)

  accept-Sendable :
      (r : Rules) (path : Bytes) (mf : MetricFamily F) (g : Gathered F)
      → IsSendable r mf
      → Sendable r g
      → Sendable r (accept path mf g)
  accept-Sendable r path mf g p i = record {
    file = λ k h e. elim (Bool-cases (mf.name == k)) [
      | inl s ↦ ground (
        arith,
        lookup-insert mf.name k (get_or mf.name [] g.files ++ path ∷ []) g.files,
        is_given-append (get_or mf.name [] g.files) path,
      )
      | inr s ↦
          let t = i.file k h (accept-text mf mf.help k g.helps s e) in
          ground (arith, lookup-insert mf.name k (get_or mf.name [] g.files ++ path ∷ []) g.files)
    ];
    parsed = All-append (IsSendable r) g.parsed (mf ∷ []) i.parsed (p, tt);
    times = i.times;
  }

  reject-Sendable :
      (r : Rules) (mf : MetricFamily F) (h0 h : Bytes) (xs : List Bytes) (g : Gathered F)
      → text g.helps mf.name ≡ some h0
      → is_given xs ≡ true
      → Sendable r g
      → Ends (Sendable r) (true ≡ false) (reject mf h0 (some h) (get_elem? xs 0) g)
  reject-Sendable r mf h0 h [] g t x i = ground arith
  reject-Sendable r mf h0 h (x ∷ xs) g t _ i = record {
    file = λ k u e.
        i.file k u (ground (arith, lookup-insert mf.name k (h0, h) g.helps, ==_iff mf.name k));
    parsed = i.parsed;
    times = i.times;
  }

  add_family-Sendable :
      (r : Rules) (path : Bytes) (mf : MetricFamily F) (g : Gathered F)
      → IsComplete r mf
      → Sendable r g
      → Ends (Sendable r) (true ≡ false) (add_family path mf g)
  unfolding add_family
  add_family-Sendable r path mf g c i =
      elim (Bool-cases (inconsistent (lookup mf.name g.helps) mf.help)) [
        | inl x ↦ elim (Option-cases (lookup mf.name g.helps)) [
          | inl n ↦ ground arith
          | inr (p, n) ↦
              let t : text g.helps mf.name ≡ some p.0 = rw (text, n) refl in
              rw (x, n, c.help)
                (reject-Sendable r mf p.0 c.text (get_or mf.name [] g.files) g t
                  (i.file mf.name p.0 t) i)
        ]
        | inr x ↦ rw x (accept-Sendable r path mf g c.sendable i)
      ]

  fill_help-IsSendable :
      (r : Rules) (files : Map Bytes (List Bytes)) (mf : MetricFamily F)
      → IsSendable r mf
      → IsSendable r (fill_help files mf)
  unfolding fill_help
  fill_help-IsSendable r files mf h = elim (Option-cases mf.help) [
    | inl n ↦ rw n (record { name = h.name; metrics = h.metrics })
    | inr (t, n) ↦ rw n (record { name = h.name; metrics = h.metrics })
  ]

  fill_helps-IsSendable :
      (r : Rules) (files : Map Bytes (List Bytes)) (families : List (MetricFamily F))
      → All (IsSendable r) families
      → All (IsSendable r) (fill_helps files families)
  unfolding fill_helps
  fill_helps-IsSendable r files [] h = tt
  fill_helps-IsSendable r files (mf ∷ families) h =
      (fill_help-IsSendable r files mf h.0, fill_helps-IsSendable r files families h.1)

  send_families-total :
      (rt : Runtime F) (r : Rules) (families : List (MetricFamily F))
      → AcceptsInOrder rt r
      → ((metric : DtoMetric F) (names : List Bytes) (k : Bytes)
          → contains_name (rt.visit metric names) k ≡ contains_name names k)
      → All (IsSendable r) families
      → (sends : List (Sent F)) × (send_families rt families ≡ ok sends)
  unfolding send_families
  send_families-total rt r [] a v h = ([], refl)
  send_families-total rt r (mf ∷ families) a v h =
      let (one, e, _) = convert_metric_family-RendersAll rt r mf a.accepted a.empty_text v h.0 in
      let (more, es) = send_families-total rt r families a v h.1 in (one ++ more, rw (e, es) refl)

  -- Whenever the client library accepts every call that is in order, and in whatever order `range` visits
  -- the keys of a map: if every family that `processFile` returns for a file of a listed directory has a
  -- help text, a valid name, the payloads that its type asks for and valid labels, none twice in a
  -- metric, and if the paths of the files are valid texts, `Update` does not panic, also when help texts
  -- of one name differ and when files are broken.
  pub update-total :
      ⦃fl : Float64 F⦄ (rt : Runtime F) (r : Rules) (join : Bytes → Bytes → Bytes)
      (read_dir : Bytes → Listing F) (fixed : Option F) (path : Bytes) (glob : Option (List Bytes))
      → AcceptsInOrder rt r
      → ((metric : DtoMetric F) (names : List Bytes) (k : Bytes)
          → contains_name (rt.visit metric names) k ≡ contains_name names k)
      → ((dir : Bytes)
          → AllFiles (IsComplete r) (λ p. r.is_text p ≡ true) (join dir) (read_dir dir).files)
      → (sends : List (Sent F)) × (update rt join read_dir fixed path glob ≡ ok sends)
  unfolding update send_all export_mtimes
  update-total rt r join read_dir fixed path glob a v h =
      let (g, eg, i) =
        Ends-total (Sendable r) (add_dirs join read_dir (paths_of path glob) nothing_gathered) (
          add_dirs-Ends (Sendable r) (true ≡ false) (IsComplete r) (λ p. r.is_text p ≡ true)
            (add_family-Sendable r)
            (λ g path t p i. record {
              file = i.file;
              parsed = i.parsed;
              times = insert-Texts r path t g.mtimes p i.times;
            })
            (λ g e x i. record { file = i.file; parsed = i.parsed; times = i.times }) join read_dir
            (paths_of path glob) nothing_gathered h
            (record {
              file = λ k t e. ground (arith, lookup-nil {V = Bytes × Bytes} k);
              parsed = tt;
              times = tt;
            })) in
      let (sends, es) =
        send_families-total rt r (fill_helps g.files g.parsed) a v
          (fill_helps-IsSendable r g.files g.parsed i.parsed) in
      (
        sends ++ export_mtimes fixed g.mtimes ++ scrape_error g.errored ∷ [],
        rw
            (
              eg,
              es,
              send_mtimes-total rt r fixed (sort_paths g.mtimes) a
                  (sort_paths-Texts r g.mtimes i.times),
              scrape_error-total rt r g.errored a,
            )
            refl,
      )
