-- ===== src/HppvToCsiPv/Upgrade/Completion/Converted.antt =====
-- What a pipeline that ends without an error leaves under the name of its volume.
use admission_controller.Base.{
  ℕ, String, Option, none, List, ◌≡◌, ◌≢◌, refl, ap, ◌⊎◌, inl, inr, Result-cases,
}
use admission_controller.Api.{PersistentVolume}
use admission_controller.HppvToCsiPv.Upgrade.Cluster.{Cluster}
use admission_controller.HppvToCsiPv.Upgrade.Engine.{Poll, Action, PipelineStep}
use admission_controller.HppvToCsiPv.Upgrade.Store.{Volumes, Stores}
use admission_controller.HppvToCsiPv.Upgrade.Completion.{IsGood, Ends, run-Ends}
use admission_controller.HppvToCsiPv.Upgrade.Steps.{
  UpdatePipeline, State, check_claim, step_check, create_tmp_pv, step_create_tmp_pv, delete_old_pv,
  step_delete_old_pv, step_create_csi_pv, tmp_pv_name, step_wait_csi_pv_bound, step_restart_pods,
  change_quota_type, step_create_pod_to_change_quota_type, time_outs, update_steps, fresh, upgrade,
}
use admission_controller.HppvToCsiPv.Upgrade.Completion.Effects.{
  IsConverted, Q, with_hostpath_pv-Good, check_claim-Good, change_quota_type-Good,
  create_tmp_pv-Good, delete_old_pv-Good, step_create_csi_pv-Good, step_wait_csi_pv_bound-Good,
  step_restart_pods-Good,
}

module _ (c : Cluster) (st : Stores c) (upl : UpdatePipeline) (w : c.World) where
  abbrev n : String
  n = upl.pv_name

  abbrev before : Option PersistentVolume
  before = st.stored w n

  abbrev AllAfter : List (PipelineStep (State c)) → State c → Type 0
  AllAfter = Ends (Q c st n before)

  step_check-Good :
      (K : State c → Type 0) (total : ℕ)
      → ((s : State c) → K s)
      → IsGood (Q c st n before) K (step_check c upl total (fresh c w))
  unfolding step_check
  step_check-Good K total k = elim (Result-cases c.hostname) [
    | inr (e, g) ↦ rw (g, step_check) (tt, λ x. cc)
    | inl (pipeline_name, g) ↦
        rw (g, step_check)
          (with_hostpath_pv-Good c st n before K (check_claim c total n pipeline_name) (fresh c w)
            λ pv s named same.
              check_claim-Good c st n before K total pipeline_name pv s k
                (inr (ap (λ (f : Volumes). f n) same)))
  ]

  -- what the steps after the named one need
  abbrev GoodAfter : (State c → Type 0) → Action (State c) → State c → Type 0
  GoodAfter K action s = IsGood (Q c st n before) K (action s)

  abbrev AfterWait : State c → Type 0
  AfterWait = GoodAfter (Q c st n before) (step_restart_pods c upl)

  abbrev AfterCreate : State c → Type 0
  AfterCreate = GoodAfter AfterWait (step_wait_csi_pv_bound c upl)

  abbrev AfterDelete : State c → Type 0
  AfterDelete = GoodAfter AfterCreate (step_create_csi_pv c upl)

  abbrev AfterTmp : State c → Type 0
  AfterTmp = GoodAfter AfterDelete (step_delete_old_pv c upl)

  abbrev AfterPods : State c → Type 0
  AfterPods = GoodAfter AfterTmp (step_create_tmp_pv c upl)

  abbrev AfterCheck : State c → Type 0
  AfterCheck = GoodAfter AfterPods (step_create_pod_to_change_quota_type c upl)

  step_delete_old_pv-AfterTmp : (s : State c) → AfterTmp s
  unfolding step_delete_old_pv
  step_delete_old_pv-AfterTmp s =
      with_hostpath_pv-Good c st n before AfterDelete (delete_old_pv c upl) s λ pv s' named same.
        delete_old_pv-Good c st n before AfterDelete upl pv s' λ s2.
          step_create_csi_pv-Good c st n before AfterCreate upl s2 refl λ s3 at3.
            step_wait_csi_pv_bound-Good c st n before AfterWait upl s3 refl at3
              λ s4 at4. step_restart_pods-Good c st n before upl s4 at4

  update_steps-Ends :
      ((pv : PersistentVolume) → pv.name ≡ n → tmp_pv_name c pv ≢ n)
      → AllAfter (update_steps c upl) (fresh c w)
  unfolding update_steps step_create_pod_to_change_quota_type step_create_tmp_pv
  update_steps-Ends other = step_check-Good AfterCheck (time_outs c) λ s1.
      with_hostpath_pv-Good c st n before AfterPods (change_quota_type c upl) s1
        λ pv1 s2 named1 same1. change_quota_type-Good c st n before AfterPods upl pv1 s2 λ s3.
          with_hostpath_pv-Good c st n before AfterTmp (create_tmp_pv c) s3 λ pv2 s4 named2 same2.
            create_tmp_pv-Good c st n before AfterTmp pv2 s4 (other pv2 named2)
              step_delete_old_pv-AfterTmp

  -- A pipeline that ends without an error leaves under the volume's name a volume that is no host
  -- path volume, or what was there before. The temporary volume has another name; what `select` finds
  -- is arbitrary; the API server is as `Stores` says.
  pub upgrade-IsConverted :
      (poll : ℕ → Poll)
      → ((pv : PersistentVolume) → pv.name ≡ upl.pv_name → tmp_pv_name c pv ≢ upl.pv_name)
      → (upgrade c upl poll w).0 ≡ none
      → IsConverted (st.stored (upgrade c upl poll w).2.world upl.pv_name)
        ⊎ (st.stored (upgrade c upl poll w).2.world upl.pv_name ≡ st.stored w upl.pv_name)
  unfolding upgrade
  upgrade-IsConverted poll other =
      run-Ends (Q c st n before) n poll (update_steps c upl) (fresh c w) (update_steps-Ends other)
