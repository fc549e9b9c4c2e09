-- ===== src/Metrics/Timer.antt =====
-- pkg/utils/metrics/metrics.go: timers of the steps of a computation. The time that the clock shows
-- is an argument, in nanoseconds.
pub mod Steps
use admission_controller.Base.{ℕ, ◌-◌, String, List, [], ◌∷◌}
use admission_controller.Metrics.Vectors.{HistogramVec, Sample}

abbrev pub top_metrics_namespace : String
top_metrics_namespace = "k8splugins_"

pub record ExecutionTimer : Type 0 where
  pub histo : HistogramVec
  pub start : ℕ
  pub last : ℕ

unfoldable pub new_execution_timer : HistogramVec → ℕ → ExecutionTimer
new_execution_timer histo now = record { histo = histo; start = now; last = now }

unfoldable pub observe_step : ExecutionTimer → String → ℕ → ExecutionTimer × Sample
observe_step t step now = (
  record t { last = now },
  record { histo = t.histo; labels = step ∷ []; duration = now - t.last },
)

unfoldable pub observe_total : ExecutionTimer → ℕ → Sample
observe_total t now = record { histo = t.histo; labels = "total" ∷ []; duration = now - t.start }

unfoldable pub create_execution_time_metric : String → String → HistogramVec
create_execution_time_metric namespace help = record {
  namespace = namespace;
  name = "execution_latency_seconds";
  help = help;
  buckets =
      1 ∷ 2 ∷ 5 ∷ 10 ∷ 20 ∷ 50 ∷ 100 ∷ 200 ∷ 500 ∷ 1000 ∷ 2000 ∷ 3000 ∷ 4000 ∷ 5000 ∷ 6000 ∷ 7000
      ∷ 8000 ∷ 9000 ∷ 10000 ∷ 12000 ∷ 15000 ∷ 24000 ∷ 30000 ∷ [];
  label_names = "step" ∷ [];
}
