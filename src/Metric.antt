-- ===== src/Metric.antt =====
-- What the collectors send: calls of the Prometheus client library, kept as data. `NewDesc`,
-- `BuildFQName` and the constructors of metrics belong to that library, so a description or a metric
-- is the call with its arguments.
use infra_pulse.Base.{ℕ, String, List, Bool}
use infra_pulse.Base.Text.{Bytes}
use infra_pulse.Base.Int.{ℤ}

-- The operations on float64 that the collectors use. The type is a parameter of the model.
pub record Float64 (F : Type 0) : Type 0 where
  -- `float64(n)` of an unsigned and of a signed integer
  pub from_uint : ℕ → F
  pub from_int : ℤ → F

-- `BuildFQName(namespace, subsystem, name)`, or a whole name.
pub data FqName : Type 0 where
  build : String → String → String → FqName
  whole : String → FqName

pub record Desc : Type 0 where
  pub fq_name : FqName
  pub help : String
  pub label_names : List String

pub data ValueType : Type 0 where
  counter gauge untyped : ValueType

-- `MustNewConstMetric`
pub record Metric (F : Type 0) : Type 0 where
  pub desc : Desc
  pub value_type : ValueType
  pub value : F
  pub label_values : List String

-- The same call with label values that were read as bytes.
pub record ByteMetric (F : Type 0) : Type 0 where
  pub desc : Desc
  pub value_type : ValueType
  pub value : F
  pub label_values : List Bytes

-- Comparison and arithmetic on float64, where a collector computes.
pub record FloatOps (F : Type 0) : Type 0 where
  pub ge : F → F → Bool
  pub gt : F → F → Bool
  pub sub : F → F → F
  pub mul : F → F → F
