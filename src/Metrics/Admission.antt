-- ===== src/Metrics/Admission.antt =====
-- pkg/utils/metrics/admission.go: the counter and the latencies of the admissions. The time that the
-- clock shows is an argument, in nanoseconds.
use admission_controller.Base.{
  ℕ, ◌-◌, String, Bool, true, false, List, [], ◌∷◌, refl, arith, concat,
}
use admission_controller.Metrics.Vectors.{HistogramVec, CounterVec, Sample, IsRecordable}
use admission_controller.Metrics.Timer.{top_metrics_namespace}

pub data AdmissionStatus : Type 0 where
  error skipped applied : AdmissionStatus

pub data AdmissionResource : Type 0 where
  unknown pod : AdmissionResource

-- the two types as the strings that they are
abbrev pub status_string : AdmissionStatus → String
status_string error = "error"
status_string skipped = "skipped"
status_string applied = "applied"

abbrev pub resource_string : AdmissionResource → String
resource_string unknown = "unknown"
resource_string pod = "Pod"

abbrev pub metrics_namespace : String
metrics_namespace = concat (top_metrics_namespace ∷ "admission_controller" ∷ [])

abbrev pub admission_count : CounterVec
admission_count = record {
  namespace = metrics_namespace;
  name = "admission_pods_total";
  help = "Number of Pods processed by k8s-plugins Admission Controller.";
  label_names = "applied" ∷ [];
}

abbrev pub admission_latency : HistogramVec
admission_latency = record {
  namespace = metrics_namespace;
  name = "admission_latency_seconds";
  help = "Time spent in k8s-plugins Admission Controller.";
  buckets =
      1 ∷ 2 ∷ 5 ∷ 10 ∷ 20 ∷ 50 ∷ 100 ∷ 200 ∷ 500 ∷ 1000 ∷ 2000 ∷ 3000 ∷ 6000 ∷ 12000 ∷ 30000 ∷ [];
  label_names = "status" ∷ "resource" ∷ [];
}

-- the vector and the label values of the counter that OnAdmittedPod adds 1 to
unfoldable pub on_admitted_pod : Bool → CounterVec × List String
on_admitted_pod touched = (admission_count, elim touched [ true ↦ "true" | false ↦ "false" ] ∷ [])

pub record AdmissionLatency : Type 0 where
  pub histo : HistogramVec
  pub start : ℕ

unfoldable pub new_admission_latency : ℕ → AdmissionLatency
new_admission_latency now = record { histo = admission_latency; start = now }

unfoldable pub observe : AdmissionLatency → AdmissionStatus → AdmissionResource → ℕ → Sample
observe t status resource now = record {
  histo = t.histo;
  labels = status_string status ∷ resource_string resource ∷ [];
  duration = now - t.start;
}

-- Observing an admission's latency panics for no status and no resource.
pub observe-IsRecordable :
    (start now : ℕ) (status : AdmissionStatus) (resource : AdmissionResource)
    → IsRecordable (observe (new_admission_latency start) status resource now)
unfolding observe new_admission_latency
observe-IsRecordable start now status resource = (refl, ground arith)
