-- ===== src/Platform/Collectors.antt =====
-- The collectors that the services register with Prometheus: their names, help texts, labels and
-- buckets.
use ticketer.Base.{ℕ, String, List}

-- The upper bounds of a histogram's buckets: prometheus.DefBuckets, or bounds in units of 100 µs.
pub data Buckets : Type 0 where
  default_buckets : Buckets
  bounds : List ℕ → Buckets

pub data Kind : Type 0 where
  counter gauge : Kind
  histogram : Buckets → Kind

pub record Collector : Type 0 where
  pub name : String
  pub help : String
  pub kind : Kind
  pub labels : List String
