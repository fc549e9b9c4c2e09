-- ===== src/Admission/Commuting.antt =====
-- What the two mutating webhooks make of a pod is the same in either order.
use admission_controller.Base.{
  String, Bool, true, false, some, Result, ok, err, ◌≡◌, refl, sym, ap, ◌∙◌, inl, inr, Result-cases,
  Bool-cases, ◌==◌,
}
use admission_controller.Api.{Pod, AdmissionRequest}
use admission_controller.HostPathPvResource
use admission_controller.HostPathPvResource.{is_pod_used_host_path_pv}
use admission_controller.HostPathPvResource.Decisions.{inspected}
use admission_controller.PodPriority
use admission_controller.PodPriority.{get_pod_type_str}
use admission_controller.PodPriority.Kinds.{class_of}
use admission_controller.Admission.{ReadsNamespace}
use admission_controller.Admission.Unchanged.{
  is_pod_used_host_path_pv-relabelled, get_pod_type_str-relabelled,
}
use admission_controller.Admission.Mutations.{scheduled_if, scheduled, classified}

-- what `classified` makes of a pod, by cases
pub classified_cases {ℓ} :
    (P : Pod → Type ℓ) (b : PodPriority.AdmissionServer) (request : AdmissionRequest) (pod : Pod)
    → ((type : String)
        → P (record pod {
          priority_class_name = (class_of type).0;
          priority = some (class_of type).1;
        }))
    → P pod
    → P (classified b request pod)
classified_cases P b request pod named kept = elim (Bool-cases (pod.priority_class_name == "")) [
  | inr e ↦ rw e kept
  | inl e ↦ elim (Result-cases (get_pod_type_str b (inspected request pod))) [
    | inr (x, t) ↦ rw (e, t) kept
    | inl (type, t) ↦ rw (e, t) (named type)
  ]
]

module _ (a : HostPathPvResource.AdmissionServer) (b : PodPriority.AdmissionServer)
    (a_reads : ReadsNamespace a.algorithm) (b_reads : ReadsNamespace b.algorithm) where
  pub used-classified :
      (request : AdmissionRequest) (pod : Pod)
      → is_pod_used_host_path_pv a (inspected request (classified b request pod))
        ≡ is_pod_used_host_path_pv a (inspected request pod)
  used-classified request pod =
      classified_cases
        (λ p.
          is_pod_used_host_path_pv a (inspected request p)
          ≡ is_pod_used_host_path_pv a (inspected request pod))
        b request pod
        (λ type.
          is_pod_used_host_path_pv-relabelled a a_reads pod.scheduler_name (class_of type).0
            (some (class_of type).1) (inspected request pod))
        refl

  classified_with :
      (request : AdmissionRequest) (scheduler : String) (pod : Pod)
      → classified b request (record pod { scheduler_name = scheduler })
        ≡ record (classified b request pod) { scheduler_name = scheduler }
  classified_with request scheduler pod =
      let same =
        get_pod_type_str-relabelled b b_reads scheduler pod.priority_class_name pod.priority
          (inspected request pod) in
      elim (Bool-cases (pod.priority_class_name == "")) [
        | inr e ↦ rw e refl
        | inl e ↦ elim (Result-cases (get_pod_type_str b (inspected request pod))) [
          | inr (x, t) ↦ rw (e, same) (rw t refl)
          | inl (type, t) ↦ rw (e, same) (rw t refl)
        ]
      ]

  classified-scheduled_if :
      (request : AdmissionRequest) (pod : Pod) (used : Result Bool)
      → classified b request (scheduled_if a.scheduler pod used)
        ≡ scheduled_if a.scheduler (classified b request pod) used
  classified-scheduled_if request pod (ok true) = classified_with request a.scheduler pod
  classified-scheduled_if request pod (ok false) = refl
  classified-scheduled_if request pod (err e) = refl

  pub classified-scheduled :
      (request : AdmissionRequest) (pod : Pod)
      → classified b request (scheduled a request pod)
        ≡ scheduled a request (classified b request pod)
  classified-scheduled request pod =
      classified-scheduled_if request pod (is_pod_used_host_path_pv a (inspected request pod))
      ∙ ap (scheduled_if a.scheduler (classified b request pod)) (sym (used-classified request pod))
