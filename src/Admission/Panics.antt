-- ===== src/Admission/Panics.antt =====
-- What each of the four handlers does not survive: a review that `admit` answers by nil.
use admission_controller.Base.{◌↔◌}
use admission_controller.Api.{AdmissionReview}
use admission_controller.Webhook.Patch.{JsonPatch}
use admission_controller.Webhook.Volumes.{PodCodec}
use admission_controller.Webhook.Serve.{Transport, Request}
use admission_controller.Webhook.Serve.Events.{IsPanic, Decodes}
use admission_controller.HostPathPvResource
use admission_controller.HostPathPvResource.Decisions as Scheduling
use admission_controller.PodPriority
use admission_controller.PodPriority.Decisions as Priorities
use admission_controller.NsHostPathPrivilege
use admission_controller.NsHostPathPrivilege.Policy as Policy
use admission_controller.HppvToCsiPv
use admission_controller.HppvToCsiPv.Conversion as Conversion

module _ (codec : PodCodec) (pv_codec : HppvToCsiPv.PvCodec) (lib : JsonPatch)
    (scheduling : HostPathPvResource.AdmissionServer) (priority : PodPriority.AdmissionServer)
    (policy : NsHostPathPrivilege.AdmissionServer) (conversion : HppvToCsiPv.AdmissionServer) where
  -- Each of the four servers panics exactly on a JSON request that decodes to a review which does not
  -- ask for what the server is for: to create or update a pod for hostpathpvresource and
  -- nshostpathprivilege, to create a pod for podpriority, to create a persistent volume for
  -- hppvtocsipv.
  pub servers-IsPanic_iff :
      (t : Transport) (r : Request)
      → (IsPanic (HostPathPvResource.serve codec lib scheduling t r)
          ↔ ((ar : AdmissionReview) × Decodes t r ar × (¬ Scheduling.IsForPods ar)))
        × (IsPanic (NsHostPathPrivilege.serve codec.unmarshal_pod policy t r)
            ↔ ((ar : AdmissionReview) × Decodes t r ar × (¬ Policy.IsForPods ar)))
        × (IsPanic (PodPriority.serve codec lib priority t r)
            ↔ ((ar : AdmissionReview) × Decodes t r ar × (¬ Priorities.IsForPods ar)))
        × (IsPanic (HppvToCsiPv.serve pv_codec lib conversion t r)
            ↔ ((ar : AdmissionReview) × Decodes t r ar × (¬ Conversion.IsForVolumes ar)))
  servers-IsPanic_iff t r = (
    Scheduling.serve-panics_iff_unscheduled codec lib scheduling t r,
    Policy.serve-panics_iff_unchecked codec.unmarshal_pod policy t r,
    Priorities.serve-panics_iff_unclassified codec lib priority t r,
    Conversion.serve-panics_iff_unconverted pv_codec lib conversion t r,
  )
