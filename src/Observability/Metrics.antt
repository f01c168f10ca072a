-- ===== src/Observability/Metrics.antt =====
-- pkg/observability/metrics.go: the constructors of metrics, with Prometheus' registry as a parameter.
use rdispatch.Common.{ℕ, String, Option, none, some, List, [], ◌∷◌, map, Run, done, panic}
use rdispatch.Common.Int.{pos}
use rdispatch.Common.Float.{Float64}

module _ (fl : Float64) where
  -- The options that a metric vector is made of.
  pub data Collector : Type 0 where
    counter : String → String → List String → Collector
    histogram : String → String → List String → List fl.F → Collector
    gauge : String → String → List String → Collector

  abbrev pub collector_name : Collector → String
  collector_name (counter name help labels) = name
  collector_name (histogram name help labels buckets) = name
  collector_name (gauge name help labels) = name

  -- The default registry: `Register`, with `none` for an error.
  pub record Registry (R : Type 0) : Type 0 where
    pub register : Collector → R → Option R

  -- A number of milliseconds in seconds.
  abbrev pub milli : ℕ → fl.F
  milli n = fl.div (fl.of_int (pos n)) (fl.of_int (pos 1000))

  -- `DefaultLatencyBuckets`.
  abbrev pub default_latency_buckets : List fl.F
  default_latency_buckets = map milli (1 ∷ 5 ∷ 10 ∷ 25 ∷ 50 ∷ 100 ∷ 250 ∷ 500 ∷ 1000 ∷ 5000 ∷ [])

  -- `if buckets == nil { buckets = DefaultLatencyBuckets }`.
  abbrev pub buckets_or_default : Option (List fl.F) → List fl.F
  buckets_or_default none = default_latency_buckets
  buckets_or_default (some buckets) = buckets

  -- `MetricsHandler`: `promhttp.Handler()` serves the default registry.
  unfoldable pub metrics_handler : {R Handler : Type 0} → (R → Handler) → R → Handler
  metrics_handler promhttp r = promhttp r

  module _ {R : Type 0} (prometheus : Registry R) where
    unfoldable pub or_panic_registered : Collector → Option R → Run (Collector × R)
    or_panic_registered c none = panic
    or_panic_registered c (some r) = done (c, r)

    -- `prometheus.MustRegister(c); return c`.
    unfoldable pub must_register : Collector → R → Run (Collector × R)
    must_register c r = or_panic_registered c (prometheus.register c r)

    unfoldable pub new_counter : String → String → List String → R → Run (Collector × R)
    new_counter name help labels r = must_register (counter name help labels) r

    unfoldable pub new_histogram :
        String → String → List String → Option (List fl.F) → R → Run (Collector × R)
    new_histogram name help labels buckets r =
        must_register (histogram name help labels (buckets_or_default buckets)) r

    unfoldable pub new_gauge : String → String → List String → R → Run (Collector × R)
    new_gauge name help labels r = must_register (gauge name help labels) r
