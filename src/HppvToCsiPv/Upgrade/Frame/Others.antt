-- ===== src/HppvToCsiPv/Upgrade/Frame/Others.antt =====
-- A pipeline leaves the volumes of other names alone.
use admission_controller.Base.{
  ℕ, Bool, true, false, none, some, [], ◌∷◌, ◌≡◌, refl, ap, ◌∙◌, inl, inr, Option-cases,
  Result-cases, Bool-cases,
}
use admission_controller.HppvToCsiPv.Upgrade.Cluster.{Cluster}
use admission_controller.HppvToCsiPv.Upgrade.Engine.{Poll}
use admission_controller.HppvToCsiPv.Upgrade.Frame.{AllUndone, run-Frames}
use admission_controller.HppvToCsiPv.Upgrade.Frame.Steps.{
  others, Framed, others-set, with_hostpath_pv-Framed, check_claim-Framed, change_quota_type-Framed,
  create_tmp_pv-Framed, delete_old_pv-Framed,
}
use admission_controller.HppvToCsiPv.Upgrade.Store.{set, Stores}
use admission_controller.HppvToCsiPv.Upgrade.Steps.{
  UpdatePipeline, State, check_claim, step_check, create_tmp_pv, step_create_tmp_pv, delete_old_pv,
  step_delete_old_pv, undo_create_csi_pv, step_create_csi_pv, step_wait_csi_pv_bound,
  step_restart_pods, change_quota_type, step_create_pod_to_change_quota_type, time_outs,
  update_steps, fresh, upgrade,
}

module _ (c : Cluster) (st : Stores c) (upl : UpdatePipeline) where
  step_check-Framed :
      (total : ℕ) (s : State c) → Framed c st upl.pv_name (step_check c upl total s) s
  unfolding step_check
  step_check-Framed total s = elim (Result-cases c.hostname) [
    | inr (e, g) ↦ rw (g, step_check) refl
    | inl (pipeline_name, g) ↦
        rw (g, step_check)
          (with_hostpath_pv-Framed c st upl.pv_name (check_claim c total upl.pv_name pipeline_name)
            s (check_claim-Framed c st upl.pv_name total pipeline_name))
  ]

  -- CreateCSIPV
  undo_create_csi_pv-Framed :
      (b : Bool) (s : State c)
      → (undo_create_csi_pv c upl.pv_name b s).0 ≡ none
      → others c st upl.pv_name (undo_create_csi_pv c upl.pv_name b s).1 ≡ others c st upl.pv_name s
  unfolding undo_create_csi_pv
  undo_create_csi_pv-Framed true s clean = refl
  undo_create_csi_pv-Framed false s clean =
      others-set c st upl.pv_name upl.pv_name none s.world (c.delete_pv upl.pv_name s.world).1 refl
        (st.delete_ok upl.pv_name s.world clean)

  step_create_csi_pv-Framed : (s : State c) → Framed c st upl.pv_name (step_create_csi_pv c upl s) s
  unfolding step_create_csi_pv
  step_create_csi_pv-Framed s =
      let n = upl.pv_name in
      let r = c.create_csi_host_path_pv n s.save_old_pv true s.world in
      elim (Option-cases r.0) [
        | inr (e, f) ↦
            rw (f, step_create_csi_pv)
              (ap (set n none) (st.create_csi_failed n s.save_old_pv true s.world e f))
        | inl f ↦
            let (free, (new, csi, made)) = st.create_csi_ok n s.save_old_pv true s.world f in
            rw (f, step_create_csi_pv)
              λ b s' e clean.
                undo_create_csi_pv-Framed b s' clean
                ∙ e
                ∙ others-set c st n n (some new) s.world r.1 refl made
      ]

  -- WaitCSIPVBound and RestartPods write no volume.
  step_wait_csi_pv_bound-Framed :
      (s : State c) → Framed c st upl.pv_name (step_wait_csi_pv_bound c upl s) s
  unfolding step_wait_csi_pv_bound
  step_wait_csi_pv_bound-Framed s = elim (Bool-cases upl.need_wait_bound) [
    | inr b ↦ rw (b, step_wait_csi_pv_bound) refl
    | inl b ↦
        let same = st.wait_pv_bound_others upl.pv_name 40 s.world in
        elim (Option-cases (c.wait_pv_bound upl.pv_name 40 s.world).0) [
          | inr (e, f) ↦ rw (b, step_wait_csi_pv_bound) (rw f same)
          | inl f ↦ rw (b, step_wait_csi_pv_bound) (rw f same)
        ]
  ]

  step_restart_pods-Framed : (s : State c) → Framed c st upl.pv_name (step_restart_pods c upl s) s
  unfolding step_restart_pods
  step_restart_pods-Framed s =
      ap (set upl.pv_name none)
        (st.stored-delete_pods "" _ _ _ ∙ st.stored-get_pvs_using_pods (upl.pv_name ∷ []) s.world)

  update_steps-AllUndone :
      (s : State c) → AllUndone (others c st upl.pv_name) (update_steps c upl) s
  unfolding update_steps step_create_pod_to_change_quota_type step_create_tmp_pv step_delete_old_pv
  update_steps-AllUndone s = (
    step_check-Framed (time_outs c) s,
    (
      with_hostpath_pv-Framed c st upl.pv_name (change_quota_type c upl) _
          (λ pv s' named. change_quota_type-Framed c st upl.pv_name upl pv s'),
      (
        with_hostpath_pv-Framed c st upl.pv_name (create_tmp_pv c) _
            (λ pv s' named. create_tmp_pv-Framed c st upl.pv_name pv s'),
        (
          with_hostpath_pv-Framed c st upl.pv_name (delete_old_pv c upl) _
              (λ pv s' named. delete_old_pv-Framed c st upl.pv_name upl pv s' refl named),
          (
            step_create_csi_pv-Framed _,
            (step_wait_csi_pv_bound-Framed _, (step_restart_pods-Framed _, tt)),
          ),
        ),
      ),
    ),
  )

  -- A pipeline whose undo actions report no error, whether it succeeds or fails and whatever
  -- `select` finds, leaves the volumes of all other names as they were, its temporary one too. The
  -- API server is as `Stores` says.
  pub upgrade_others :
      (poll : ℕ → Poll) (w : c.World)
      → (upgrade c upl poll w).1 ≡ []
      → set upl.pv_name none (st.stored (upgrade c upl poll w).2.world)
        ≡ set upl.pv_name none (st.stored w)
  unfolding upgrade
  upgrade_others poll w =
      run-Frames (others c st upl.pv_name) upl.pv_name poll (update_steps c upl) (fresh c w)
        (update_steps-AllUndone (fresh c w))
