-- ===== src/Loadavg/Reads.antt =====
-- The load averages as the kernel prints them, and that `Update` does not panic.
use infra_pulse.Base.{
  true, false, Option, some, List, [], ◌∷◌, ◌++◌, ◌≡◌, ◌≢◌, inl, inr, refl, arith, nat_eq, ltb,
  length, take, Option-cases, if◌then◌else◌, Outcome, ok, err, panic,
}
use infra_pulse.Base.Text.{Bytes, fields}
use infra_pulse.Base.Words.{is_word, fields-word}
use infra_pulse.Metric.{Desc, Metric, gauge}
use infra_pulse.Loadavg.{
  load1_desc, load5_desc, load15_desc, unexpected_content, parse_loads, parse_load, get_load,
  send_loads, update,
}

module _ {F : Type 0} where
  abbrev pub load_metric : Desc → F → Metric F
  load_metric desc load = record {
    desc = desc;
    value_type = gauge;
    value = load;
    label_values = [];
  }

enough : (x y z : Bytes) (more : List Bytes) → ltb (length (x ∷ y ∷ z ∷ more)) 3 ≡ false
enough x y z more = ground arith

module _ {F : Type 0} (parse_float : Bytes → Option F) (x y z : Bytes) (more : Bytes) where
  abbrev pub loads_text : Bytes
  loads_text = x ++ (b' ' ∷ (y ++ (b' ' ∷ (z ++ (b' ' ∷ more)))))

  loads_text-fields :
      is_word x ≡ true
      → is_word y ≡ true
      → is_word z ≡ true
      → fields loads_text ≡ x ∷ y ∷ z ∷ fields more
  loads_text-fields p q r =
      rw
        (
          fields-word x (y ++ (b' ' ∷ (z ++ (b' ' ∷ more)))) p,
          fields-word y (z ++ (b' ' ∷ more)) q,
          fields-word z more r,
        )
        refl

  -- From a text that starts with three words that are numbers, each with a blank behind it, `Update` sends
  -- the three load averages in order, whatever else the text holds.
  pub update-loads :
      {u v w : F}
      → is_word x ≡ true
      → is_word y ≡ true
      → is_word z ≡ true
      → parse_float x ≡ some u
      → parse_float y ≡ some v
      → parse_float z ≡ some w
      → update (get_load parse_float (ok loads_text)) ≡ (
        load_metric load1_desc u ∷ load_metric load5_desc v ∷ load_metric load15_desc w ∷ [],
        ok tt,
      )
  unfolding update parse_load parse_loads send_loads
  update-loads p q r a b c =
      rw (loads_text-fields p q r, enough x y z (fields more), parse_loads, a, b, c) refl

module _ {F : Type 0} (parse_float : Bytes → Option F) where
  parse_loads-three :
      (x y z : Bytes) → (update (parse_loads parse_float (x ∷ y ∷ z ∷ []))).1 ≢ panic
  unfolding update send_loads parse_loads
  parse_loads-three x y z = elim (Option-cases (parse_float x)) [
    | inl a ↦ rw (parse_loads, a) (λ h. cc)
    | inr (u, a) ↦ elim (Option-cases (parse_float y)) [
      | inl b ↦ rw (parse_loads, a, b) (λ h. cc)
      | inr (v, b) ↦ elim (Option-cases (parse_float z)) [
        | inl c ↦ rw (parse_loads, a, b, c) (λ h. cc)
        | inr (w, c) ↦ rw (parse_loads, a, b, c) (λ h. cc)
      ]
    ]
  ]

  behind_fields :
      (parts : List Bytes)
      → (update (
          if ltb (length parts) 3
          then err unexpected_content
          else parse_loads parse_float (take 3 parts))).1
        ≢ panic
  unfolding update
  behind_fields [] = λ h. cc
  behind_fields (x ∷ []) = λ h. cc
  behind_fields (x ∷ y ∷ []) = λ h. cc
  behind_fields (x ∷ y ∷ z ∷ more) = rw (enough x y z more) (parse_loads-three x y z)

  -- `Update` does not panic, whatever text is read, or if none can be read: it never has more loads than
  -- descriptions.
  pub update-ne-panic :
      (read : Outcome Bytes Bytes) → read ≢ panic → (update (get_load parse_float read)).1 ≢ panic
  unfolding update parse_load
  update-ne-panic (ok text) n = behind_fields (fields text)
  update-ne-panic (err e) n = λ h. cc
  update-ne-panic panic n = absurd (n refl)
