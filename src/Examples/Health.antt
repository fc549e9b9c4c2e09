-- ===== src/Examples/Health.antt =====
-- A timer of two steps.
use admission_controller.Base.{ℕ, String, List, [], ◌∷◌, ◌≡◌, refl}
use admission_controller.Metrics.Vectors.{HistogramVec, Sample}
use admission_controller.Metrics.Timer.{
  new_execution_timer, observe_step, create_execution_time_metric,
}
use admission_controller.Metrics.Timer.Steps.{observe_steps, total_duration}

abbrev histo : HistogramVec
histo = create_execution_time_metric "k8splugins_" "time of a run"

abbrev steps : List (String × ℕ)
steps = ("load", 14) ∷ ("store", 20) ∷ []

abbrev samples : List Sample
samples = (observe_steps (new_execution_timer histo 10) steps).1

total_duration-samples : total_duration samples ≡ 10
unfolding observe_steps new_execution_timer observe_step
total_duration-samples = refl
