-- ===== src/Netdev/Sends.antt =====
-- What `Update` sends, with any cache of descriptions that `metricDesc` has made.
use mathlib.Core.Option.{some-injective}
use infra_pulse.Base.{
  String, Bool, Option, none, some, List, [], ◌∷◌, ◌++◌, ◌≡◌, refl, sym, ◌∙◌, ap, arith, string_eq,
  ◌==◌, ==_iff, ==_refl, if◌then◌else◌, Outcome, ok, Bool-cases, Option-cases, ◌⊎◌, inl, inr,
  append_assoc, append-nil,
}
use infra_pulse.Base.Map.{Map, lookup, insert, lookup-insert}
use infra_pulse.Metric.{Float64, Desc, Metric}
use infra_pulse.Netdev.{DevStats, legacy}
use infra_pulse.Netdev.Update.{
  new_metric_desc, metric_desc, AddrInfo, Sending, counter_metric, send_counters, send_devices,
  address_metric, send_addresses, update,
}

-- Every description in the cache is the one that its key has.
abbrev pub Fresh : String → Map String Desc → Type 0
Fresh subsystem descs =
    (key : String) (d : Desc) → lookup key descs ≡ some d → d ≡ new_metric_desc subsystem key

metric_desc-cases :
    (subsystem key : String) (descs : Map String Desc)
    → ((metric_desc subsystem key descs ≡ insert key (new_metric_desc subsystem key) descs))
      ⊎ ((d : Desc) × (lookup key descs ≡ some d) × (metric_desc subsystem key descs ≡ descs))
unfolding metric_desc
metric_desc-cases subsystem key descs = elim (Option-cases (lookup key descs)) [
  | inl n ↦ inl (ground arith)
  | inr (d, n) ↦ inr (d, n, ground arith)
]

metric_desc-lookup :
    (subsystem key : String) (descs : Map String Desc)
    → Fresh subsystem descs
    → lookup key (metric_desc subsystem key descs) ≡ some (new_metric_desc subsystem key)
metric_desc-lookup subsystem key descs f = elim (metric_desc-cases subsystem key descs) [
  | inl e ↦
      ap (lookup key) e
      ∙ lookup-insert key key (new_metric_desc subsystem key) descs
      ∙ rw (==_refl key) refl
  | inr (d, n, e) ↦ ap (lookup key) e ∙ n ∙ ap some (f key d n)
]

metric_desc-Fresh :
    (subsystem key : String) (descs : Map String Desc)
    → Fresh subsystem descs
    → Fresh subsystem (metric_desc subsystem key descs)
metric_desc-Fresh subsystem key descs f k d h = elim (metric_desc-cases subsystem key descs) [
  | inl e ↦
      let q =
        sym (lookup-insert key k (new_metric_desc subsystem key) descs)
        ∙ sym (ap (lookup k) e)
        ∙ h in
      elim (Bool-cases (key == k)) [
        | inl s ↦
            sym (some-injective _ _ (rw s at q))
            ∙ ap (new_metric_desc subsystem) ((==_iff key k).0 s)
        | inr s ↦ f k d (rw s at q)
      ]
  | inr (e, n, m) ↦ f k d (sym (ap (lookup k) m) ∙ h)
]

-- What is found of the addresses, if the flag asks for them.
abbrev pub found : {E : Type 0} → Option (List AddrInfo) → Option (Outcome E (List AddrInfo))
found none = none
found (some addrs) = some (ok addrs)

module _ {F : Type 0} ⦃fl : Float64 F⦄ where
  -- The metrics of a device, with the description of each counter's key.
  abbrev pub counters_of : String → String → DevStats → List (Metric F)
  counters_of subsystem dev [] = []
  counters_of subsystem dev ((key, value) ∷ stats) =
      counter_metric (new_metric_desc subsystem key) value dev ∷ counters_of subsystem dev stats

  abbrev pub all_counters : String → Bool → Map String DevStats → List (Metric F)
  all_counters subsystem detailed [] = []
  all_counters subsystem detailed ((dev, stats) ∷ net_dev) =
      counters_of subsystem dev (if detailed then stats else legacy stats)
      ++ all_counters subsystem detailed net_dev

  abbrev pub address_metrics : List AddrInfo → List (Metric F)
  address_metrics [] = []
  address_metrics (a ∷ addrs) = address_metric a ∷ address_metrics addrs

  -- The outcome is a success that has sent `sends` more, and kept the cache in order.
  pub record Sends {E : Type 0} (subsystem : String) (s : Sending F) (sends : List (Metric F))
      (o : Outcome E (Sending F)) : Type 0 where
    pub after : Sending F
    pub succeeds : o ≡ ok after
    pub sent : after.sent ≡ s.sent ++ sends
    pub fresh : Fresh subsystem after.descs

  send_counters-Sends :
      {E : Type 0} (subsystem dev : String) (stats : DevStats) (s : Sending F)
      → Fresh subsystem s.descs
      → Sends {E = E} subsystem s
          (counters_of subsystem dev stats)
          (send_counters subsystem dev stats s)
  unfolding send_counters
  send_counters-Sends subsystem dev [] s f = record {
    after = s;
    succeeds = refl;
    sent = sym (append-nil s.sent);
    fresh = f;
  }
  send_counters-Sends {E} subsystem dev ((key, value) ∷ stats) s f =
      let one = counter_metric (new_metric_desc subsystem key) value dev in
      let r =
        send_counters-Sends {E = E} subsystem dev stats
          (record { descs = metric_desc subsystem key s.descs; sent = s.sent ++ one ∷ [] })
          (metric_desc-Fresh subsystem key s.descs f) in
      record {
        after = r.after;
        succeeds = rw (send_counters, metric_desc-lookup subsystem key s.descs f) r.succeeds;
        sent = r.sent ∙ append_assoc s.sent (one ∷ []) _;
        fresh = r.fresh;
      }

  send_devices-Sends :
      {E : Type 0} (subsystem : String) (detailed : Bool) (net_dev : Map String DevStats)
      (s : Sending F)
      → Fresh subsystem s.descs
      → Sends {E = E} subsystem s
          (all_counters subsystem detailed net_dev)
          (send_devices subsystem detailed net_dev s)
  unfolding send_devices
  send_devices-Sends subsystem detailed [] s f = record {
    after = s;
    succeeds = refl;
    sent = sym (append-nil s.sent);
    fresh = f;
  }
  send_devices-Sends {E} subsystem detailed ((dev, stats) ∷ net_dev) s f =
      let q =
        send_counters-Sends {E = E} subsystem dev (if detailed then stats else legacy stats) s f in
      let r = send_devices-Sends {E = E} subsystem detailed net_dev q.after q.fresh in
      record {
        after = r.after;
        succeeds = rw (q.succeeds) r.succeeds;
        sent =
            r.sent
            ∙ ap (λ l. l ++ all_counters subsystem detailed net_dev) q.sent
            ∙ append_assoc s.sent _ _;
        fresh = r.fresh;
      }

  send_addresses-sent :
      (addrs : List AddrInfo) (s : Sending F)
      → ((send_addresses addrs s).sent ≡ s.sent ++ address_metrics addrs)
        × ((send_addresses addrs s).descs ≡ s.descs)
  unfolding send_addresses
  send_addresses-sent [] s = (sym (append-nil s.sent), refl)
  send_addresses-sent (a ∷ addrs) s =
      let (e, d) =
        send_addresses-sent addrs (record s { sent = s.sent ++ address_metric a ∷ [] }) in
      (e ∙ append_assoc s.sent (address_metric a ∷ []) _, d)

  abbrev pub found_metrics : Option (List AddrInfo) → List (Metric F)
  found_metrics none = []
  found_metrics (some addrs) = address_metrics addrs

  -- If every description in the cache is the one of its key, and the counters can be read, and the
  -- addresses too where the flag asks for them: `Update` returns nil, and sends for every device one metric
  -- for each of its counters, under legacy names unless detailed metrics are on, each with the
  -- description of its own name, and then the addresses if the flag is set. Every description in the
  -- cache is the one of its key afterwards.
  pub update-Sends :
      {E : Type 0} (subsystem : String) (detailed : Bool) (net_dev : Map String DevStats)
      (addresses : Option (List AddrInfo)) (descs : Map String Desc)
      → Fresh subsystem descs
      → Sends {E = E} subsystem
          (record { descs = descs; sent = [] })
          (all_counters subsystem detailed net_dev ++ found_metrics addresses)
          (update subsystem detailed (ok net_dev) (found addresses) descs)
  unfolding update
  update-Sends {E} subsystem detailed net_dev none descs f =
      let q =
        send_devices-Sends {E = E} subsystem detailed net_dev (record { descs = descs; sent = [] })
          f in
      record {
        after = q.after;
        succeeds = rw (q.succeeds) refl;
        sent = q.sent ∙ sym (append-nil _);
        fresh = q.fresh;
      }
  update-Sends {E} subsystem detailed net_dev (some addrs) descs f =
      let q =
        send_devices-Sends {E = E} subsystem detailed net_dev (record { descs = descs; sent = [] })
          f in
      let (e, d) = send_addresses-sent addrs q.after in
      record {
        after = send_addresses addrs q.after;
        succeeds = rw (q.succeeds) refl;
        sent = e ∙ ap (λ l. l ++ address_metrics addrs) q.sent;
        fresh = λ k c h. q.fresh k c (ap (lookup k) (sym d) ∙ h);
      }
