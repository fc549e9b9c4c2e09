-- ===== src/HppvToCsiPv/Upgrade/Success/Upgraded.antt =====
-- A whole pipeline on a healthy cluster.
use mathlib.Core.Path.{subst}
use admission_controller.Base.{
  ℕ, zero, suc, String, none, some, [], ◌∷◌, Bytes, concat, ◌≡◌, ◌≢◌, refl, sym, ap,
}
use admission_controller.Api.{PersistentVolume, annotation}
use admission_controller.HppvToCsiPv.Upgrade.Cluster.{Cluster}
use admission_controller.HppvToCsiPv.Upgrade.Engine.{Poll, nothing}
use admission_controller.HppvToCsiPv.Upgrade.Store.{set, Stores}
use admission_controller.HppvToCsiPv.Upgrade.Completion.Effects.{IsConverted}
use admission_controller.HppvToCsiPv.Upgrade.Frame.Others.{upgrade_others}
use admission_controller.HppvToCsiPv.Upgrade.Steps.{
  UpdatePipeline, State, change_quota_type, step_create_pod_to_change_quota_type, create_tmp_pv,
  step_create_tmp_pv, delete_old_pv, step_delete_old_pv, step_create_csi_pv, step_wait_csi_pv_bound,
  step_restart_pods, step_check, time_outs, update_steps, fresh, upgrade,
}
use admission_controller.HppvToCsiPv.Upgrade.Steps.Annotate.{updating_pipeline_start_time}
use admission_controller.HppvToCsiPv.Upgrade.Success.{
  Succeeds, Proceeds, AllProceed, EndsIn, at_end, run-Succeeds,
}
use admission_controller.HppvToCsiPv.Upgrade.Success.Healthy.{
  IsHealthy, Changes, Binds, BindsFromTmp, BindsFromCheck, IsAnswered,
}
use admission_controller.HppvToCsiPv.Upgrade.Success.Steps as Steps
use admission_controller.HppvToCsiPv.Upgrade.Success.Replacing as Replacing

module _ (c : Cluster) (st : Stores c) (healthy : IsHealthy c st) (upl : UpdatePipeline)
    (poll : ℕ → Poll) (quiet : (i : ℕ) → poll i ≡ nothing) where
  abbrev n : String
  n = upl.pv_name

  -- the name of the temporary volume
  abbrev pub t : String
  t = concat (c.get_md5_hash upl.pv_name 10 ∷ "-csihostpathpv-tmp" ∷ [])

  module _ (apart : upl.pv_name ≢ t) where
    abbrev IsReady : PersistentVolume → State c → Type 0
    IsReady = Steps.IsReady c st healthy n t apart

    abbrev IsHeldBoth : PersistentVolume → State c → Type 0
    IsHeldBoth = Steps.IsHeldBoth c st healthy n t apart

    abbrev IsDone : State c → Type 0
    IsDone = Steps.IsDone c st healthy n t apart

    abbrev IsHeld : State c → Type 0
    IsHeld = Steps.IsHeld c st healthy n t apart

    abbrev IsDeleted : State c → Type 0
    IsDeleted = Replacing.IsDeleted c st healthy n t apart

    -- The temporary volume is there for the undo actions of the steps from the third on.
    abbrev After : ℕ → State c → Type 0
    After zero = IsDone
    After (suc zero) = IsDone
    After (suc (suc zero)) = IsDone
    After (suc (suc (suc i))) = IsHeld

    -- the state after Get
    abbrev read : State c → State c
    read s = record s { world = (c.get n s.world).1 }

    -- what the steps after the named one need
    abbrev AfterWait : State c → Type 0
    AfterWait s = Proceeds IsHeld IsHeld IsHeld (step_restart_pods c upl s)

    abbrev AfterCreate : State c → Type 0
    AfterCreate s = Proceeds IsHeld IsHeld AfterWait (step_wait_csi_pv_bound c upl s)

    abbrev AfterDelete : State c → Type 0
    AfterDelete s = Proceeds IsHeld IsHeld AfterCreate (step_create_csi_pv c upl s)

    abbrev AfterTmp : State c → Type 0
    AfterTmp s = Proceeds IsHeld IsHeld AfterDelete (step_delete_old_pv c upl s)

    abbrev AfterPods : State c → Type 0
    AfterPods s = Proceeds IsHeld IsDone AfterTmp (step_create_tmp_pv c upl s)

    abbrev AfterCheck : State c → Type 0
    AfterCheck s = Proceeds IsDone IsDone AfterPods (step_create_pod_to_change_quota_type c upl s)

    after_create : (s : State c) → IsHeld s → Binds c upl s → AfterCreate s
    after_create s held binds =
        Replacing.step_wait_csi_pv_bound-Proceeds c st healthy n t apart AfterWait upl s refl held
          binds
          λ s2 held2.
            Replacing.step_restart_pods-Proceeds c st healthy n t apart IsHeld upl s2 held2
              λ s3 held3. held3

    after_delete :
        (s : State c) → IsDeleted s → Binds c upl (step_create_csi_pv c upl s).1 → AfterDelete s
    after_delete s deleted binds = at_end IsHeld IsHeld AfterCreate (step_create_csi_pv c upl s) (
        Replacing.step_create_csi_pv-Proceeds c st healthy n t apart
          (EndsIn (step_create_csi_pv c upl s) AfterCreate) upl s refl deleted
          λ s1 held1 e. after_create s1 held1 (subst (Binds c upl) (sym e) binds))

    after_tmp :
        (p : PersistentVolume) (s : State c) → IsHeldBoth p s → BindsFromTmp c upl s → AfterTmp s
    unfolding step_delete_old_pv
    after_tmp p s held binds = at_end IsHeld IsHeld AfterDelete (step_delete_old_pv c upl s) (
        Steps.with_hostpath_pv-Proceeds c st healthy n t apart IsHeld IsHeld
          (EndsIn (step_delete_old_pv c upl s) AfterDelete) (delete_old_pv c upl) p s held.0
          λ pv named same got.
            Replacing.delete_old_pv-Proceeds c st healthy n t apart
              (EndsIn (step_delete_old_pv c upl s) AfterDelete) upl p pv (read s) refl
              (Steps.IsHeldBoth-same c st healthy n t apart p s (read s) (st.stored-get n s.world)
                held)
              same
              λ s1 deleted e.
                after_delete s1 deleted
                  (subst (λ r. Binds c upl (step_create_csi_pv c upl r).1) (sym e) binds))

    after_pods :
        (p : PersistentVolume) (s : State c)
        → IsReady p s
        → BindsFromTmp c upl (step_create_tmp_pv c upl s).1
        → AfterPods s
    unfolding step_create_tmp_pv
    after_pods p s ready binds = at_end IsHeld IsDone AfterTmp (step_create_tmp_pv c upl s) (
        Steps.with_hostpath_pv-Proceeds c st healthy n t apart IsHeld IsDone
          (EndsIn (step_create_tmp_pv c upl s) AfterTmp) (create_tmp_pv c) p s ready.0
          λ pv named same got.
            Steps.create_tmp_pv-Proceeds c st healthy n t apart
              (EndsIn (step_create_tmp_pv c upl s) AfterTmp) p pv (read s)
              (Steps.IsReady-same c st healthy n t apart p s (read s) (st.stored-get n s.world)
                ready)
              (ap (λ m. concat (c.get_md5_hash m 10 ∷ "-csihostpathpv-tmp" ∷ [])) named) same
              λ s1 held e. after_tmp p s1 held (subst (BindsFromTmp c upl) (sym e) binds))

    after_check :
        (p : PersistentVolume) (s : State c)
        → IsReady p s
        → Changes c upl s
        → BindsFromCheck c upl s
        → AfterCheck s
    unfolding step_create_pod_to_change_quota_type
    after_check p s ready changes binds =
        at_end IsDone IsDone AfterPods (step_create_pod_to_change_quota_type c upl s) (
          Steps.with_hostpath_pv-Proceeds c st healthy n t apart IsDone IsDone
            (EndsIn (step_create_pod_to_change_quota_type c upl s) AfterPods)
            (change_quota_type c upl) p s ready.0
            λ pv named same got.
              let (m, paths, made, quit) = changes pv got in
              Steps.change_quota_type-Proceeds c st healthy n t apart
                (EndsIn (step_create_pod_to_change_quota_type c upl s) AfterPods) upl p pv (read s)
                (Steps.IsReady-same c st healthy n t apart p s (read s) (st.stored-get n s.world)
                  ready)
                m paths (made, quit)
                λ s1 ready1 e.
                  after_pods p s1 ready1
                    (subst (λ r. BindsFromTmp c upl (step_create_tmp_pv c upl r).1) (sym e) binds))

    update_steps-AllProceed :
        (p : PersistentVolume) (w : c.World)
        → annotation p.annotations updating_pipeline_start_time ≡ ""
        → IsReady p (fresh c w)
        → IsAnswered c upl w
        → AllProceed After (update_steps c upl) 0 (fresh c w)
    unfolding update_steps
    update_steps-AllProceed p w free ready (changes, binds) =
        at_end IsDone IsDone AfterCheck (step_check c upl (time_outs c) (fresh c w)) (
          Steps.step_check-Proceeds c st healthy n t apart
            (EndsIn (step_check c upl (time_outs c) (fresh c w)) AfterCheck) upl (time_outs c) p
            (fresh c w) refl free ready
            λ p1 s1 ready1 e.
              after_check p1 s1 ready1 (subst (Changes c upl) (sym e) changes)
                (subst (BindsFromCheck c upl) (sym e) binds))

  upgrade-Succeeds :
      (p : PersistentVolume) (path : Bytes) (w : c.World)
      → st.stored w upl.pv_name ≡ some p
      → p.host_path ≡ some path
      → annotation p.annotations updating_pipeline_start_time ≡ ""
      → (apart : upl.pv_name ≢ t) → st.stored w t ≡ none
      → IsAnswered c upl w
      → Succeeds (IsDone apart) (upgrade c upl poll w)
  unfolding upgrade
  upgrade-Succeeds p path w held is unclaimed apart free answered =
      run-Succeeds n poll quiet (After apart) (update_steps c upl) (fresh c w)
        (update_steps-AllProceed apart p w unclaimed ((path, held, is), free) answered)

  -- A pipeline for a stored host path volume that no pipeline has claimed, with a temporary name that is
  -- another and free, and with no time limit and no stop, ends without an error, and so do its undo
  -- actions; it leaves a volume that is no host path volume under the name, and all the others as they
  -- were. The API server is as `Stores` and `IsHealthy` say; and where the run makes these calls, the
  -- paths of the volume can be read, the pods that change the quota can be made and end in time, and the
  -- new volume is bound in time if the run waits for that.
  pub upgrade-succeeds :
      (p : PersistentVolume) (path : Bytes) (w : c.World)
      → st.stored w upl.pv_name ≡ some p
      → p.host_path ≡ some path
      → annotation p.annotations updating_pipeline_start_time ≡ ""
      → upl.pv_name ≢ t
      → st.stored w t ≡ none
      → IsAnswered c upl w
      → ((upgrade c upl poll w).0 ≡ none)
        × ((upgrade c upl poll w).1 ≡ [])
        × IsConverted (st.stored (upgrade c upl poll w).2.world upl.pv_name)
        × (set upl.pv_name none (st.stored (upgrade c upl poll w).2.world)
            ≡ set upl.pv_name none (st.stored w))
  upgrade-succeeds p path w held is unclaimed apart free answered =
      let (e, tidy, converted) = upgrade-Succeeds p path w held is unclaimed apart free answered in
      (e, tidy, converted, upgrade_others c st upl poll w tidy)
