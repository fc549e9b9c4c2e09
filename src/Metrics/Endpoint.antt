-- ===== src/Metrics/Endpoint.antt =====
-- Initialize (pkg/utils/metrics/metrics.go): what the server of the metrics serves, and where. The
-- health check is a pointer, which may be nil.
use admission_controller.Base.{String, Option, none, some, List, [], ◌∷◌}
use admission_controller.Metrics.HealthCheck.{HealthCheck}

pub data Route : Type 0 where
  -- promhttp.Handler()
  metrics : Route
  health_check : HealthCheck → Route

pub record Endpoint : Type 0 where
  pub address : String
  -- the paths of http.DefaultServeMux with their handlers
  pub routes : List (String × Route)

unfoldable pub initialize : String → Option HealthCheck → Endpoint
initialize address none = record { address = address; routes = ("/metrics", metrics) ∷ [] }
initialize address (some hc) = record {
  address = address;
  routes = ("/metrics", metrics) ∷ ("/health-check", health_check hc) ∷ [];
}
