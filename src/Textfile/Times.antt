-- ===== src/Textfile/Times.antt =====
-- The modification times and the error flag, when the client library accepts what is in order.
use infra_pulse.Base.{
  ℕ, Bool, true, Option, [], ◌∷◌, ◌≡◌, refl, ◌==◌, list_eq, nat_eq, ok, All, Bool-cases, inl, inr,
}
use infra_pulse.Base.Map.{Map, insert}
use infra_pulse.Base.Text.{Bytes, codes}
use infra_pulse.Metric.{Float64}
use infra_pulse.Textfile.{Sent, const_metric, gauge, Runtime, checked}
use infra_pulse.Textfile.Accepts.{Rules, in_order}
use infra_pulse.Textfile.Update.{
  before, insert_sorted, sort_paths, mtime_desc, scrape_error_desc, mtime_value, send_mtimes,
  scrape_error, checked_all,
}

-- The paths of the modification times are texts.
abbrev pub Texts : Rules → Map Bytes ℕ → Type 0
Texts r entries = All (λ e. r.is_text e.0 ≡ true) entries

pub insert-Texts :
    (r : Rules) (path : Bytes) (t : ℕ) (entries : Map Bytes ℕ)
    → r.is_text path ≡ true
    → Texts r entries
    → Texts r (insert path t entries)
unfolding insert
insert-Texts r path t [] h i = (h, tt)
insert-Texts r path t ((p, u) ∷ entries) h i = elim (Bool-cases (p == path)) [
  | inl e ↦ rw e (h, i.1)
  | inr e ↦ rw e (i.0, insert-Texts r path t entries h i.1)
]

insert_sorted-Texts :
    (r : Rules) (e : Bytes × ℕ) (entries : Map Bytes ℕ)
    → r.is_text e.0 ≡ true
    → Texts r entries
    → Texts r (insert_sorted e entries)
unfolding insert_sorted
insert_sorted-Texts r e [] h t = (h, tt)
insert_sorted-Texts r e (x ∷ entries) h t = elim (Bool-cases (before e.0 x.0)) [
  | inl b ↦ rw b (h, (t.0, t.1))
  | inr b ↦ rw b (t.0, insert_sorted-Texts r e entries h t.1)
]

pub sort_paths-Texts :
    (r : Rules) (entries : Map Bytes ℕ) → Texts r entries → Texts r (sort_paths entries)
unfolding sort_paths
sort_paths-Texts r [] t = tt
sort_paths-Texts r (e ∷ entries) t =
    insert_sorted-Texts r e (sort_paths entries) t.0 (sort_paths-Texts r entries t.1)

module _ {F : Type 0} where
  -- The calls that the library accepts, where texts include the empty one.
  pub record AcceptsInOrder (rt : Runtime F) (r : Rules) : Type 0 where
    pub accepted : (s : Sent F) → in_order r s ≡ true → rt.accepts s ≡ true
    pub empty_text : r.is_text [] ≡ true
    pub label_names : r.is_label_name (codes "file") ≡ true
    pub mtime_name : r.is_metric_name mtime_desc.name ≡ true
    pub error_name : r.is_metric_name scrape_error_desc.name ≡ true

  pub send_mtimes-total :
      ⦃fl : Float64 F⦄ (rt : Runtime F) (r : Rules) (fixed : Option F) (entries : Map Bytes ℕ)
      → AcceptsInOrder rt r
      → Texts r entries
      → checked_all rt (send_mtimes fixed entries) ≡ ok (send_mtimes fixed entries)
  unfolding send_mtimes checked_all
  send_mtimes-total rt r fixed [] a t = refl
  send_mtimes-total rt r fixed ((path, time) ∷ entries) a t =
      let s : Sent F = const_metric mtime_desc gauge (mtime_value fixed time) (path ∷ []) in
      let o : in_order r s ≡ true = rw (a.mtime_name, a.label_names, t.0) refl in
      let one : rt.accepts s ≡ true = a.accepted s o in
      rw (one, send_mtimes-total rt r fixed entries a t.1) refl

  pub scrape_error-total :
      ⦃fl : Float64 F⦄ (rt : Runtime F) (r : Rules) (errored : Bool)
      → AcceptsInOrder rt r
      → checked rt (scrape_error errored) ≡ ok (scrape_error errored)
  scrape_error-total rt r errored a =
      let o : in_order r (scrape_error {F = F} errored) ≡ true = rw a.error_name refl in
      rw (a.accepted (scrape_error errored) o) refl
