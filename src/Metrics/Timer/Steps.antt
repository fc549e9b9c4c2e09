-- ===== src/Metrics/Timer/Steps.antt =====
-- What a timer records over a whole computation.
use admission_controller.Base.{ℕ, ◌+◌, ◌-◌, ◌≤◌, String, List, [], ◌∷◌, ◌≡◌, refl, map, arith}
use admission_controller.Metrics.Vectors.{HistogramVec, Sample}
use admission_controller.Metrics.Timer.{
  ExecutionTimer, new_execution_timer, observe_step, observe_total,
}

-- ObserveStep for each of the named steps, at the time that comes with it
unfoldable pub observe_steps : ExecutionTimer → List (String × ℕ) → ExecutionTimer × List Sample
unfolding observe_step
observe_steps t [] = (t, [])
observe_steps t ((step, now) ∷ steps) =
    let (t', sample) = observe_step t step now in
    let (t'', samples) = observe_steps t' steps in (t'', sample ∷ samples)

-- The clock shows the times of the steps in their order, after the first and before the second time.
abbrev pub IsBetween : ℕ → List (String × ℕ) → ℕ → Type 0
IsBetween start [] end = start ≤ end
IsBetween start ((step, now) ∷ steps) end = (start ≤ now) × IsBetween now steps end

abbrev pub total_duration : List Sample → ℕ
total_duration [] = 0
total_duration (s ∷ samples) = s.duration + total_duration samples

-- the time between the last step and the end
abbrev pub rest_after : ℕ → List (String × ℕ) → ℕ → ℕ
rest_after start [] end = end - start
rest_after start ((step, now) ∷ steps) end = rest_after now steps end

between-le : (start end : ℕ) (steps : List (String × ℕ)) → IsBetween start steps end → start ≤ end
between-le start end [] h = h
between-le start end ((step, now) ∷ steps) h = omega (arith, h.0, between-le now end steps h.1)

durations-add_up :
    (t : ExecutionTimer) (steps : List (String × ℕ)) (end : ℕ)
    → IsBetween t.last steps end
    → total_duration (observe_steps t steps).1 + rest_after t.last steps end ≡ end - t.last
unfolding observe_steps observe_step
durations-add_up t [] end h = omega arith
durations-add_up t ((step, now) ∷ steps) end h = omega (
  arith,
  h.0,
  between-le now end steps h.1,
  durations-add_up (record t { last = now }) steps end h.1,
)

steps_keep :
    (t : ExecutionTimer) (steps : List (String × ℕ))
    → ((observe_steps t steps).0.histo ≡ t.histo) × ((observe_steps t steps).0.start ≡ t.start)
unfolding observe_steps observe_step
steps_keep t [] = (refl, refl)
steps_keep t ((step, now) ∷ steps) = steps_keep (record t { last = now }) steps

labels-steps :
    (t : ExecutionTimer) (steps : List (String × ℕ))
    → map (λ (s : Sample). s.labels) (observe_steps t steps).1
      ≡ map (λ (p : String × ℕ). p.0 ∷ []) steps
unfolding observe_steps observe_step
labels-steps t [] = refl
labels-steps t ((step, now) ∷ steps) = simp (labels-steps (record t { last = now }) steps)

-- A timer whose steps are observed in the order of time, and whose total is observed after them,
-- labels each step's latency by its name, and these latencies and the time after the last step add up
-- to the total.
observe_steps-observe_total :
    (histo : HistogramVec) (start end : ℕ) (steps : List (String × ℕ))
    → IsBetween start steps end
    → let (t, samples) = observe_steps (new_execution_timer histo start) steps in
      (map (λ (s : Sample). s.labels) samples ≡ map (λ (p : String × ℕ). p.0 ∷ []) steps)
      × (total_duration samples + rest_after start steps end ≡ (observe_total t end).duration)
unfolding new_execution_timer observe_total
observe_steps-observe_total histo start end steps h =
    let t = new_execution_timer histo start in
    (labels-steps t steps, rw (steps_keep t steps).1 (durations-add_up t steps end h))
