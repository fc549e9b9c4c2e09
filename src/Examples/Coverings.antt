-- ===== src/Examples/Coverings.antt =====
-- The four configurations on a review of a pod, and the namespaces of a flag.
use admission_controller.Base.{String, List, true, ◌++◌, [], ◌∷◌, ◌≡◌, refl, ◌↔◌, All}
use admission_controller.Api.{AdmissionReview}
use admission_controller.Common.Registration.{
  WebhookClientConfig, client_config, pod_mutating_config, pod_validating_config,
  pod_priority_config, pv_mutating_config,
}
use admission_controller.Common.Registration.Coverage.{IsSent, configurations_cover}
use admission_controller.Webhook.Serve.Events.{IsPanic, Decodes}
use admission_controller.PodPriority.Main.Split.{split, join, HasNoComma}
use admission_controller.PodPriority.{new_admission_server, is_system_pod}
use admission_controller.PodPriority.Main.Systems.{is_system_pod-split}
use admission_controller.HostPathPvResource
use admission_controller.PodPriority
use admission_controller.NsHostPathPrivilege
use admission_controller.HppvToCsiPv
use admission_controller.HostPathPvResource.Decisions as Scheduling
use admission_controller.PodPriority.Decisions as Priorities
use admission_controller.NsHostPathPrivilege.Policy as Policy
use admission_controller.HppvToCsiPv.Conversion as Conversion
use admission_controller.Admission.Panics.{servers-IsPanic_iff}
use admission_controller.Examples.Objects.{
  data_pv, web_pod, algorithm, request_for, review_of, pod_codec, json_patch, transport,
  json_request,
}
use admission_controller.Examples.Pods.{scheduler, classifier}
use admission_controller.Examples.Policies.{checker}
use admission_controller.Examples.Volumes.{codec_of, converter}

abbrev config : WebhookClientConfig
config = client_config "webhook" "" []

abbrev pods_review : AdmissionReview
pods_review = review_of (request_for "pods")

configurations_cover_example :
    (¬ (
      IsSent (pod_mutating_config "w" config) pods_review
      × IsPanic (
          HostPathPvResource.serve pod_codec json_patch scheduler
            (transport pods_review)
            json_request)))
    × (¬ (
        IsSent (pod_priority_config "w" config) pods_review
        × IsPanic (
            PodPriority.serve pod_codec json_patch classifier
              (transport pods_review)
              json_request)))
    × (¬ (
        IsSent (pod_validating_config "w" config) pods_review
        × IsPanic (
            NsHostPathPrivilege.serve pod_codec.unmarshal_pod checker
              (transport pods_review)
              json_request)))
    × (¬ (
        IsSent (pv_mutating_config "w" config) pods_review
        × IsPanic (
            HppvToCsiPv.serve
              (codec_of data_pv)
              json_patch
              converter
              (transport pods_review)
              json_request)))
configurations_cover_example =
    configurations_cover pod_codec (codec_of data_pv) json_patch scheduler classifier checker
      converter "w" config (transport pods_review) json_request pods_review (refl, refl)

servers-IsPanic_iff_example :
    (IsPanic (
        HostPathPvResource.serve pod_codec json_patch scheduler
          (transport pods_review)
          json_request)
      ↔ ((ar : AdmissionReview) × Decodes (transport pods_review) json_request ar
          × (¬ Scheduling.IsForPods ar)))
    × (IsPanic (
          NsHostPathPrivilege.serve pod_codec.unmarshal_pod checker
            (transport pods_review)
            json_request)
        ↔ ((ar : AdmissionReview) × Decodes (transport pods_review) json_request ar
            × (¬ Policy.IsForPods ar)))
    × (IsPanic
          (PodPriority.serve pod_codec json_patch classifier (transport pods_review) json_request)
        ↔ ((ar : AdmissionReview) × Decodes (transport pods_review) json_request ar
            × (¬ Priorities.IsForPods ar)))
    × (IsPanic (
          HppvToCsiPv.serve
            (codec_of data_pv)
            json_patch
            converter
            (transport pods_review)
            json_request)
        ↔ ((ar : AdmissionReview) × Decodes (transport pods_review) json_request ar
            × (¬ Conversion.IsForVolumes ar)))
servers-IsPanic_iff_example =
    servers-IsPanic_iff pod_codec (codec_of data_pv) json_patch scheduler classifier checker
      converter (transport pods_review) json_request

is_system_pod-split_example :
    (is_system_pod (new_admission_server algorithm (split "k8splugin,kube-system")) web_pod ≡ true)
    ↔ ((before : List String) × (after : List String) × All HasNoComma
          (before ++ web_pod.namespace ∷ after)
        × (join (before ++ web_pod.namespace ∷ after) ≡ "k8splugin,kube-system"))
is_system_pod-split_example = is_system_pod-split algorithm "k8splugin,kube-system" web_pod

split_default : split "k8splugin,kube-system" ≡ "k8splugin" ∷ "kube-system" ∷ []
unfolding split
split_default = refl
