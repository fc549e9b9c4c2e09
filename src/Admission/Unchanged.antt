-- ===== src/Admission/Unchanged.antt =====
-- What the two mutating webhooks read of a pod is what neither of them writes.
use admission_controller.Base.{ℤ, String, Option, List, [], ◌∷◌, ◌≡◌, refl, arith}
use admission_controller.Api.{Pod, Volume}
use admission_controller.Webhook.Volumes.{Algorithm, scan_volumes}
use admission_controller.HostPathPvResource
use admission_controller.HostPathPvResource.{is_pod_used_host_path_pv}
use admission_controller.PodPriority
use admission_controller.PodPriority.{
  get_pod_type_str, is_system_pod, is_critical_pod, is_pod_use_host_path_pv,
}
use admission_controller.Admission.{ReadsNamespace}

module _ (algorithm : Algorithm) (reads : ReadsNamespace algorithm) where
  pub scan_volumes-same :
      (pod pod' : Pod) (volumes : List Volume)
      → pod.namespace ≡ pod'.namespace
      → pod.name ≡ pod'.name
      → scan_volumes algorithm pod volumes ≡ scan_volumes algorithm pod' volumes
  unfolding scan_volumes
  scan_volumes-same pod pod' [] n m = refl
  scan_volumes-same pod pod' (v ∷ vs) n m =
      ground (arith, reads pod pod' v n, scan_volumes-same pod pod' vs n m)

-- The pod with other values for what the two webhooks write.
abbrev pub relabelled : String → String → Option ℤ → Pod → Pod
relabelled scheduler class priority pod = record pod {
  scheduler_name = scheduler;
  priority_class_name = class;
  priority = priority;
}

pub is_pod_used_host_path_pv-relabelled :
    (s : HostPathPvResource.AdmissionServer)
    → ReadsNamespace s.algorithm
    → (scheduler class : String) (priority : Option ℤ) (pod : Pod)
    → is_pod_used_host_path_pv s (relabelled scheduler class priority pod)
      ≡ is_pod_used_host_path_pv s pod
unfolding is_pod_used_host_path_pv
is_pod_used_host_path_pv-relabelled s reads scheduler class priority pod =
    scan_volumes-same s.algorithm reads (relabelled scheduler class priority pod) pod pod.volumes
      refl refl

pub get_pod_type_str-relabelled :
    (s : PodPriority.AdmissionServer)
    → ReadsNamespace s.algorithm
    → (scheduler class : String) (priority : Option ℤ) (pod : Pod)
    → get_pod_type_str s (relabelled scheduler class priority pod) ≡ get_pod_type_str s pod
unfolding get_pod_type_str is_system_pod is_critical_pod is_pod_use_host_path_pv
get_pod_type_str-relabelled s reads scheduler class priority pod = ground (
  arith,
  scan_volumes-same s.algorithm reads (relabelled scheduler class priority pod) pod pod.volumes refl
      refl,
)
