-- ===== src/Admission/Orders.antt =====
-- What the order in which the API server calls the webhooks is for, and what calling one twice does.
use mathlib.Core.Path.{subst}
use admission_controller.Base.{
  String, Bool, true, false, Result, ok, err, ◌≡◌, refl, sym, ap, ◌∙◌, ok-injective, Option, Error,
}
use admission_controller.Api.{Pod, AdmissionRequest, Namespace}
use admission_controller.Webhook.Response.{allow_admission_response}
use admission_controller.Webhook.Patch.{JsonPatch}
use admission_controller.Webhook.Volumes.{PodCodec}
use admission_controller.HostPathPvResource
use admission_controller.HostPathPvResource.{is_pod_used_host_path_pv}
use admission_controller.HostPathPvResource.Decisions.{inspected}
use admission_controller.PodPriority
use admission_controller.PodPriority.Decisions.{review_named}
use admission_controller.NsHostPathPrivilege
use admission_controller.NsHostPathPrivilege.{check_pod, is_pod_use_host_path, is_pod_privilge}
use admission_controller.NsHostPathPrivilege.Lookup.{get_namespace}
use admission_controller.Admission.{Patching, Encodes, ReadsNamespace, after}
use admission_controller.Admission.Unchanged.{is_pod_used_host_path_pv-relabelled}
use admission_controller.Admission.Mutations.{
  scheduled_if, scheduled, classified, review-scheduled, review-classified, Encodes-unmarshal,
}
use admission_controller.Admission.Commuting.{classified_cases, classified-scheduled}

check_pod-scheduled_if :
    (scheduler : String) (pod : Pod) (used : Result Bool) (ns : Option Namespace) (e : Option Error)
    → check_pod (scheduled_if scheduler pod used) ns e ≡ check_pod pod ns e
unfolding check_pod is_pod_use_host_path is_pod_privilge
check_pod-scheduled_if scheduler pod (ok true) ns e = refl
check_pod-scheduled_if scheduler pod (ok false) ns e = refl
check_pod-scheduled_if scheduler pod (err x) ns e = refl

check_pod-classified :
    (b : PodPriority.AdmissionServer) (request : AdmissionRequest) (pod : Pod)
    (ns : Option Namespace) (e : Option Error)
    → check_pod (classified b request pod) ns e ≡ check_pod pod ns e
unfolding check_pod is_pod_use_host_path is_pod_privilge
check_pod-classified b request pod ns e =
    classified_cases (λ p. check_pod p ns e ≡ check_pod pod ns e) b request pod (λ type. refl) refl

review-check_pod :
    (codec : PodCodec) (policy : NsHostPathPrivilege.AdmissionServer) (request : AdmissionRequest)
    (pod : Pod)
    → codec.unmarshal_pod request.object_raw ≡ ok pod
    → let found = (get_namespace policy.cluster request.namespace).0 in
      NsHostPathPrivilege.review codec.unmarshal_pod policy request ≡ check_pod pod found.0 found.1
unfolding NsHostPathPrivilege.review
review-check_pod codec policy request pod u = rw (u, NsHostPathPrivilege.review) refl

scheduled_if_twice :
    (scheduler : String) (pod : Pod) (used : Result Bool)
    → scheduled_if scheduler (scheduled_if scheduler pod used) used
      ≡ scheduled_if scheduler pod used
scheduled_if_twice scheduler pod (ok true) = refl
scheduled_if_twice scheduler pod (ok false) = refl
scheduled_if_twice scheduler pod (err e) = refl

module _ {codec : PodCodec} {lib : JsonPatch} (patching : Patching codec lib)
    (a : HostPathPvResource.AdmissionServer) (b : PodPriority.AdmissionServer) where
  abbrev Schedules : AdmissionRequest → Type 0
  Schedules request = (HostPathPvResource.review codec lib a request).allowed ≡ true

  abbrev Classifies : AdmissionRequest → Type 0
  Classifies request = (PodPriority.review codec lib b request).allowed ≡ true

  -- the request after hostpathpvresource
  abbrev pub after_scheduling : AdmissionRequest → AdmissionRequest
  after_scheduling request = after patching (HostPathPvResource.review codec lib a request) request

  -- the request after podpriority
  abbrev pub after_classifying : AdmissionRequest → AdmissionRequest
  after_classifying request = after patching (PodPriority.review codec lib b request) request

  both :
      (request : AdmissionRequest) (pod : Pod)
      → Encodes patching request pod
      → Schedules request
      → Classifies (after_scheduling request)
      → Encodes patching
          (after_classifying (after_scheduling request))
          (classified b request (scheduled a request pod))
  both request pod e h k =
      (review-classified patching b (after_scheduling request) (scheduled a request pod)
        (review-scheduled patching a request pod e h) k).0

  both_other :
      (request : AdmissionRequest) (pod : Pod)
      → Encodes patching request pod
      → Classifies request
      → Schedules (after_classifying request)
      → Encodes patching
          (after_scheduling (after_classifying request))
          (scheduled a request (classified b request pod))
  both_other request pod e h k =
      review-scheduled patching a (after_classifying request) (classified b request pod)
        (review-classified patching b request pod e h).0 k

  -- The two mutating webhooks may be called in either order: if the request's object is the encoding of
  -- a pod that decoding keeps, and both allow the request in each order, they lead to the same object,
  -- the encoding of one pod. The API server, encoding/json and the patch library are as `Patching` says,
  -- and the lookup of a volume reads the pod's namespace only.
  pub orders_agree :
      ReadsNamespace a.algorithm
      → ReadsNamespace b.algorithm
      → (request : AdmissionRequest) (pod : Pod) → Encodes patching request pod
      → Schedules request
      → Classifies (after_scheduling request)
      → Classifies request
      → Schedules (after_classifying request)
      → (pod' : Pod) × Encodes patching (after_classifying (after_scheduling request)) pod'
        × Encodes patching (after_scheduling (after_classifying request)) pod'
  orders_agree a_reads b_reads request pod e ha hb hb' ha' = (
    classified b request (scheduled a request pod),
    both request pod e ha hb,
    subst (Encodes patching (after_scheduling (after_classifying request)))
        (sym (classified-scheduled a b a_reads b_reads request pod))
        (both_other request pod e hb' ha'),
  )

  -- The answer of nshostpathprivilege is the same before and after the two mutating webhooks, its text
  -- too, if the request's object is the encoding of a pod that decoding keeps and they allow the
  -- request. The API server, encoding/json and the patch library are as `Patching` says.
  pub review-mutated :
      (policy : NsHostPathPrivilege.AdmissionServer) (request : AdmissionRequest) (pod : Pod)
      → Encodes patching request pod
      → Schedules request
      → Classifies (after_scheduling request)
      → NsHostPathPrivilege.review codec.unmarshal_pod policy
          (after_classifying (after_scheduling request))
        ≡ NsHostPathPrivilege.review codec.unmarshal_pod policy request
  review-mutated policy request pod e h k =
      let last = after_classifying (after_scheduling request) in
      let found = (get_namespace policy.cluster request.namespace).0 in
      review-check_pod codec policy last _
        (Encodes-unmarshal patching last _ (both request pod e h k))
      ∙ check_pod-classified b request (scheduled a request pod) found.0 found.1
      ∙ check_pod-scheduled_if a.scheduler pod (is_pod_used_host_path_pv a (inspected request pod))
          found.0 found.1
      ∙ sym (review-check_pod codec policy request pod (Encodes-unmarshal patching request pod e))

  used-scheduled_if :
      ReadsNamespace a.algorithm
      → (request : AdmissionRequest) (pod : Pod) (used : Result Bool)
      → is_pod_used_host_path_pv a (inspected request (scheduled_if a.scheduler pod used))
        ≡ is_pod_used_host_path_pv a (inspected request pod)
  used-scheduled_if reads request pod (ok true) =
      is_pod_used_host_path_pv-relabelled a reads a.scheduler pod.priority_class_name pod.priority
        (inspected request pod)
  used-scheduled_if reads request pod (ok false) = refl
  used-scheduled_if reads request pod (err e) = refl

  scheduled_twice :
      ReadsNamespace a.algorithm
      → (request : AdmissionRequest) (pod : Pod)
      → scheduled a request (scheduled a request pod) ≡ scheduled a request pod
  scheduled_twice reads request pod =
      let used = is_pod_used_host_path_pv a (inspected request pod) in
      ap (scheduled_if a.scheduler (scheduled a request pod))
        (used-scheduled_if reads request pod used)
      ∙ scheduled_if_twice a.scheduler pod used

  -- Calling a webhook once more changes nothing, if the request's object is the encoding of a pod that
  -- decoding keeps: if hostpathpvresource allows the request twice, the second time leads to the object
  -- that the first led to; and if podpriority allows it, its second answer allows the object as it is.
  -- The API server, encoding/json and the patch library are as `Patching` says, and the lookup of a
  -- volume reads the pod's namespace only.
  pub reviews_repeated :
      ReadsNamespace a.algorithm
      → (request : AdmissionRequest) (pod : Pod) → Encodes patching request pod
      → Schedules request
      → Schedules (after_scheduling request)
      → Classifies request
      → ((after_scheduling (after_scheduling request)).object_raw
          ≡ (after_scheduling request).object_raw)
        × (PodPriority.review codec lib b (after_classifying request) ≡ allow_admission_response)
  reviews_repeated reads request pod e h k l =
      let first = review-scheduled patching a request pod e h in
      let second =
        review-scheduled patching a (after_scheduling request) (scheduled a request pod) first k in
      let (other, named) = review-classified patching b request pod e l in
      (
        ok-injective
            (sym second.1 ∙ ap codec.marshal_pod (scheduled_twice reads request pod) ∙ first.1),
        review_named codec lib b (after_classifying request) (classified b request pod)
            (Encodes-unmarshal patching (after_classifying request) (classified b request pod)
              other)
            named,
      )
