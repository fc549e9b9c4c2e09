-- ===== src/Webhook/Volumes.antt =====
-- What the two pod-mutating webhooks share: the JSON coding of pods, the lookup of a pod volume's
-- persistent volume, and the loop over a pod's volumes (isPodUsedHostPathPV of
-- pkg/hostpathpvresource/server.go, isPodUseHostPathPV of pkg/podpriority/server.go).
pub mod Scan
use admission_controller.Base.{
  String, Bool, true, false, Option, none, some, List, [], ◌∷◌, Bytes, Error, Result, ok, err,
  errorf, concat, if◌then◌else◌,
}
use admission_controller.Api.{Pod, Volume, PersistentVolume}

-- encoding/json at `v1.Pod`
pub record PodCodec : Type 0 where
  pub unmarshal_pod : Bytes → Result Pod
  pub marshal_pod : Pod → Result Bytes

-- github.com/Rhealb/extender-scheduler/pkg/algorithm over the cached volumes and claims, and how
-- `%v` prints a volume
pub record Algorithm : Type 0 where
  pub get_pod_volume_pv : Pod → Volume → Result (Option PersistentVolume)
  pub is_common_host_path_pv : PersistentVolume → Bool
  pub show_volume : Volume → String

module _ (algorithm : Algorithm) where
  open algorithm use {get_pod_volume_pv, is_common_host_path_pv, show_volume}

  -- the error that wraps a failed lookup
  abbrev pub volume_error : Pod → Volume → String → Error
  volume_error pod pod_volume cause = errorf (
      concat (
        "get pod "
        ∷ pod.namespace
        ∷ ":"
        ∷ pod.name
        ∷ " volume:"
        ∷ show_volume pod_volume
        ∷ " err:"
        ∷ cause
        ∷ []))

  -- The loop; the cases of an `elim` wait, so the rest is scanned only if this volume decides
  -- nothing.
  unfoldable pub scan_volumes : Pod → List Volume → Result Bool
  scan_volumes pod [] = ok false
  scan_volumes pod (pod_volume ∷ volumes) = elim (get_pod_volume_pv pod pod_volume) [
    | err e ↦ err (volume_error pod pod_volume e.message)
    | ok none ↦ scan_volumes pod volumes
    | ok (some pv) ↦ elim (is_common_host_path_pv pv) [
      | true ↦ ok true
      | false ↦ scan_volumes pod volumes
    ]
  ]
