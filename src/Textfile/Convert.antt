-- ===== src/Textfile/Convert.antt =====
-- What `convertMetricFamily` sends: one metric for each of the family, all with the same labels.
use infra_pulse.Base.{
  Bool, true, false, none, some, List, [], ◌∷◌, ◌≡◌, refl, ap, ◌∙◌, Option-cases, arith, list_eq,
  nat_eq, length, if◌then◌else◌, ok, All, All-imply, ◌==◌, ==_iff, ◌&&◌, inl, inr,
}
use infra_pulse.Base.Text.{Bytes}
use infra_pulse.Textfile.{
  MetricType, counter, gauge, summary, untyped, histogram, gauge_histogram, DtoMetric, MetricFamily,
  Sent, const_metric, const_summary, const_histogram, Runtime, checked, contains_name,
  all_label_names, own_labels, add_missing, Labelling, get_help, convert_metric, convert_all,
  convert_metric_family,
}
use infra_pulse.Textfile.Accepts.{
  sent_desc, sent_values, Rules, all_of, distinct_names, in_order, well_labelled,
  add_missing-distinct, add_missing-names, add_missing-values, own_labels-well, all_names-well,
}
use infra_pulse.Textfile.Labels.{
  labelled, all_label_names-contains, own_labels-length, add_missing-length, value_of, own_value,
  or_else, own_labels-value_of, add_missing-value_of,
}

module _ {F : Type 0} where
  -- What a metric of the family becomes: it bears the family's name and help, every name of a label
  -- stands once and has one value, and a label of the family is there with the metric's value or else
  -- empty.
  pub record Renders (mf : MetricFamily F) (metric : DtoMetric F) (s : Sent F) : Type 0 where
    pub name : (sent_desc s).name ≡ mf.name
    pub help : (sent_desc s).help ≡ get_help mf
    pub distinct : distinct_names (sent_desc s).label_names ≡ true
    pub aligned : length (sent_desc s).label_names ≡ length (sent_values s)
    pub label :
        (k : Bytes)
        → value_of (sent_desc s).label_names (sent_values s) k
          ≡ or_else (own_value metric.labels k) (if labelled mf.metrics k then some [] else none)

  -- The sends for the metrics, one for each and in their order.
  pub data RendersAll (mf : MetricFamily F) : List (DtoMetric F) → List (Sent F) → Type 0 where
    none_left : RendersAll mf [] []
    one_more :
        {metric : DtoMetric F} {s : Sent F} {metrics : List (DtoMetric F)} {sends : List (Sent F)}
        → Renders mf metric s
        → RendersAll mf metrics sends
        → RendersAll mf (metric ∷ metrics) (s ∷ sends)

  -- The payload that the type of the family asks for is there.
  abbrev pub has_payload : MetricType → DtoMetric F → Bool
  has_payload counter metric = true
  has_payload gauge metric = true
  has_payload untyped metric = true
  has_payload summary metric = elim metric.summary [ none ↦ false | some s ↦ true ]
  has_payload histogram metric = elim metric.histogram [ none ↦ false | some h ↦ true ]
  has_payload gauge_histogram metric = false

  -- Every metric has the payload of the family's type, and labels as the rules want them.
  abbrev pub is_sendable : Rules → MetricType → DtoMetric F → Bool
  is_sendable r type metric = has_payload type metric && well_labelled r metric.labels

  sendable-labels :
      (r : Rules) (type : MetricType) (metrics : List (DtoMetric F))
      → All (λ metric. is_sendable r type metric ≡ true) metrics
      → All (λ metric. well_labelled r metric.labels ≡ true) metrics
  sendable-labels r type metrics =
      All-imply (λ metric. is_sendable r type metric ≡ true)
        (λ metric. well_labelled r metric.labels ≡ true) metrics (λ metric h. ground arith)

  module _ (rt : Runtime F) (r : Rules) (mf : MetricFamily F) (all : List Bytes) where
    abbrev labelling : DtoMetric F → Labelling
    labelling metric = add_missing all (own_labels metric.labels)

    rendered :
        (metric : DtoMetric F) (s : Sent F)
        → well_labelled r metric.labels ≡ true
        → ((k : Bytes) → contains_name all k ≡ labelled mf.metrics k)
        → sent_desc s
          ≡ record { name = mf.name; help = get_help mf; label_names = (labelling metric).names }
        → sent_values s ≡ (labelling metric).values
        → Renders mf metric s
    rendered metric s w h d v = record {
      name = ap (λ x. x.name) d;
      help = ap (λ x. x.help) d;
      distinct =
          ap (λ x. distinct_names x.label_names) d
          ∙ add_missing-distinct all (own_labels metric.labels)
          ∙ (own_labels-well r metric.labels w).1.0;
      aligned = ground (
        arith,
        ap (λ x. x.label_names) d,
        add_missing-length all (own_labels metric.labels) (own_labels-length metric.labels),
      );
      label = λ k. ground (
        arith,
        h k,
        ap (λ x. x.label_names) d,
        own_labels-value_of metric.labels k,
        add_missing-value_of all (own_labels metric.labels) k (own_labels-length metric.labels),
      );
    }

    -- What bears the family's name and the labels of a metric is in order.
    labelling-in_order :
        (metric : DtoMetric F) (s : Sent F)
        → r.is_metric_name mf.name ≡ true
        → r.is_text [] ≡ true
        → well_labelled r metric.labels ≡ true
        → all_of r.is_label_name all ≡ true
        → (sent_desc s).name ≡ mf.name
        → (sent_desc s).label_names ≡ (labelling metric).names
        → sent_values s ≡ (labelling metric).values
        → in_order r s ≡ true
    labelling-in_order metric s n e w a dn dl dv =
        let own = own_labels metric.labels in
        let (names, (distinct, texts)) = own_labels-well r metric.labels w in
        let one : all_of r.is_label_name (labelling metric).names ≡ true =
          add_missing-names r.is_label_name all own a names in
        let two : distinct_names (labelling metric).names ≡ true =
          add_missing-distinct all own ∙ distinct in
        let three : length (labelling metric).names ≡ length (labelling metric).values =
          add_missing-length all own (own_labels-length metric.labels) in
        let four : all_of r.is_text (labelling metric).values ≡ true =
          add_missing-values r.is_text all own e texts in
        let five : length (labelling metric).names == length (labelling metric).values ≡ true =
          (==_iff (length (labelling metric).names) (length (labelling metric).values)).1 three in
        rw (dn, dl, dv, n, one, two, four, five) refl

    module _ (accepted : (s : Sent F) → in_order r s ≡ true → rt.accepts s ≡ true)
        (valid_name : r.is_metric_name mf.name ≡ true) (empty_text : r.is_text [] ≡ true)
        (valid_labels : all_of r.is_label_name all ≡ true)
        (same_names : (k : Bytes) → contains_name all k ≡ labelled mf.metrics k) where
      -- The constructor accepts what bears the name, the help and the labels.
      checked-ok :
          (metric : DtoMetric F) (s : Sent F)
          → well_labelled r metric.labels ≡ true
          → sent_desc s
            ≡ record { name = mf.name; help = get_help mf; label_names = (labelling metric).names }
          → sent_values s ≡ (labelling metric).values
          → (checked rt s ≡ ok s) × Renders mf metric s
      checked-ok metric s w d v =
          let a : rt.accepts s ≡ true = accepted s (
            labelling-in_order metric s valid_name empty_text w valid_labels (ap (λ x. x.name) d)
              (ap (λ x. x.label_names) d) v) in
          (rw a refl, rendered metric s w same_names d v)

      convert_metric-at :
          (type : MetricType) (metric : DtoMetric F)
          → is_sendable r type metric ≡ true
          → (s : Sent F) × (convert_metric rt (record mf { type = type }) all metric ≡ ok s)
            × Renders mf metric s
      unfolding convert_metric
      convert_metric-at counter metric p =
          let (e, i) =
            checked-ok metric (const_metric _ counter metric.counter _) (ground arith) refl refl in
          (_, e, i)
      convert_metric-at gauge metric p =
          let (e, i) =
            checked-ok metric (const_metric _ gauge metric.gauge _) (ground arith) refl refl in
          (_, e, i)
      convert_metric-at untyped metric p =
          let (e, i) =
            checked-ok metric (const_metric _ untyped metric.untyped _) (ground arith) refl refl in
          (_, e, i)
      convert_metric-at summary metric p = elim (Option-cases metric.summary) [
        | inl n ↦ ground arith
        | inr (x, n) ↦
            let (e, i) =
              checked-ok metric (const_summary _ x.sample_count x.sample_sum x.quantiles _)
                (ground arith) refl refl in
            (_, rw (convert_metric, n) e, i)
      ]
      convert_metric-at histogram metric p = elim (Option-cases metric.histogram) [
        | inl n ↦ ground arith
        | inr (x, n) ↦
            let (e, i) =
              checked-ok metric (const_histogram _ x.sample_count x.sample_sum x.buckets _)
                (ground arith) refl refl in
            (_, rw (convert_metric, n) e, i)
      ]
      convert_metric-at gauge_histogram metric p = ground arith

  -- A family that the rules allow: its name, and its metrics with their payloads and labels.
  pub record IsSendable (r : Rules) (mf : MetricFamily F) : Type 0 where
    pub name : r.is_metric_name mf.name ≡ true
    pub metrics : All (λ metric. is_sendable r mf.type metric ≡ true) mf.metrics

  convert_all-RendersAll :
      (rt : Runtime F) (r : Rules) (mf : MetricFamily F) (all : List Bytes)
      (metrics : List (DtoMetric F))
      → ((s : Sent F) → in_order r s ≡ true → rt.accepts s ≡ true)
      → r.is_text [] ≡ true
      → IsSendable r mf
      → ((metric : DtoMetric F) (k : Bytes)
          → contains_name (rt.visit metric all) k ≡ labelled mf.metrics k)
      → All (λ metric. is_sendable r mf.type metric ≡ true) metrics
      → (sends : List (Sent F)) × (convert_all rt mf all metrics ≡ ok sends)
        × RendersAll mf metrics sends
  unfolding convert_all
  convert_all-RendersAll rt r mf all [] a e i h p = ([], refl, none_left)
  convert_all-RendersAll rt r mf all (metric ∷ metrics) a e i h p =
      let labels =
        all_names-well r mf.metrics (rt.visit metric all) (h metric)
          (sendable-labels r mf.type mf.metrics i.metrics) in
      let (s, es, x) =
        convert_metric-at rt r mf (rt.visit metric all) a i.name e labels (h metric) mf.type metric
          p.0 in
      let (sends, et, xs) = convert_all-RendersAll rt r mf all metrics a e i h p.1 in
      (s ∷ sends, rw (es, et) refl, one_more x xs)

  -- In whatever order `range` visits the keys of `allLabelNames`, and if the client library accepts every
  -- call with a valid name, with valid label names of which none stands twice, and with a valid text for
  -- each of them: for a family with a valid name whose metrics have the payload that its type asks for
  -- and valid labels, none twice in a metric, `convertMetricFamily` does not panic and sends one metric
  -- for each, in order, with the family's name and help, no label name twice, as many label names as
  -- label values, each label of the metric with its value, and every other label of the family empty.
  pub convert_metric_family-RendersAll :
      (rt : Runtime F) (r : Rules) (mf : MetricFamily F)
      → ((s : Sent F) → in_order r s ≡ true → rt.accepts s ≡ true)
      → r.is_text [] ≡ true
      → ((metric : DtoMetric F) (names : List Bytes) (k : Bytes)
          → contains_name (rt.visit metric names) k ≡ contains_name names k)
      → IsSendable r mf
      → (sends : List (Sent F)) × (convert_metric_family rt mf ≡ ok sends)
        × RendersAll mf mf.metrics sends
  unfolding convert_metric_family
  convert_metric_family-RendersAll rt r mf a e h i =
      convert_all-RendersAll rt r mf (all_label_names mf.metrics []) mf.metrics a e i
        (λ metric k. h metric _ k ∙ all_label_names-contains mf.metrics [] k) i.metrics
