-- ===== src/Metrics/HealthCheck.antt =====
-- pkg/utils/metrics/healthcheck.go: the health check. A state is a `HealthCheck`; the time that the
-- clock shows is an argument, in nanoseconds.
use admission_controller.Base.{
  ℕ, ◌+◌, ◌-◌, ◌<◌, Bool, true, ◌&&◌, List, [], ◌∷◌, ◌≡◌, ◌↔◌, ◌⊎◌, refl, ltb, if◌then◌else◌, arith,
}

pub record HealthCheck : Type 0 where
  pub activity_timeout : ℕ
  pub check_timeout : Bool
  pub last_activity : ℕ

unfoldable pub new_health_check : ℕ → Bool → ℕ → HealthCheck
new_health_check activity_timeout check_timeout now = record {
  activity_timeout = activity_timeout;
  check_timeout = check_timeout;
  last_activity = now;
}

-- checkLastActivity, with a clock that does not go back
unfoldable pub check_last_activity : HealthCheck → ℕ → Bool × ℕ
check_last_activity hc now =
    let activity_timed_out = ltb (hc.last_activity + hc.activity_timeout) now in
    (hc.check_timeout && activity_timed_out, now - hc.last_activity)

-- What the answer of ServeHTTP says
pub data Answer : Type 0 where
  failed : ℕ → Answer
  healthy : Answer

-- ServeHTTP: the status code and the answer
unfoldable pub serve_http : HealthCheck → ℕ → ℕ × Answer
serve_http hc now =
    let (timed_out, ago) = check_last_activity hc now in
    if timed_out then (500, failed ago) else (200, healthy)

unfoldable pub update_last_activity : HealthCheck → ℕ → HealthCheck
update_last_activity hc now = record hc { last_activity = now }

-- the health check after updates at the times, the first one first
unfoldable pub updated : HealthCheck → List ℕ → HealthCheck
updated hc [] = hc
updated hc (t ∷ times) = updated (update_last_activity hc t) times

-- the last of the times, or the one before them
abbrev pub latest : ℕ → List ℕ → ℕ
latest t [] = t
latest t (u ∷ times) = latest u times

pub updated-fields :
    (hc : HealthCheck) (times : List ℕ)
    → updated hc times ≡ record hc { last_activity = latest hc.last_activity times }
unfolding updated update_last_activity
updated-fields hc [] = refl
updated-fields hc (t ∷ times) = updated-fields (update_last_activity hc t) times

-- A health check that was made at a time and updated at others answers 500 exactly if it checks the
-- timeout and the latest of these times is more than the timeout ago; otherwise it answers 200.
serve_http-updated :
    (activity_timeout created now : ℕ) (check_timeout : Bool) (times : List ℕ)
    → let status =
        (serve_http
          (updated (new_health_check activity_timeout check_timeout created) times)
          now).0 in
      ((status ≡ 500) ↔ ((check_timeout ≡ true) × (latest created times + activity_timeout < now)))
      × ((status ≡ 500) ⊎ (status ≡ 200))
unfolding new_health_check check_last_activity serve_http
serve_http-updated activity_timeout created now check_timeout times =
    rw (updated-fields (new_health_check activity_timeout check_timeout created) times)
      (ground arith)
