-- ===== src/HppvToCsiPv/Upgrade/Success/Replacing.antt =====
-- Deleting the old volume and the steps after that proceed on a healthy cluster.
use admission_controller.Base.{
  String, true, none, some, [], ◌∷◌, Bytes, ◌≡◌, ◌≢◌, refl, sym, ap, ◌∙◌, inl, inr, Bool-cases,
}
use admission_controller.Api.{PersistentVolume}
use admission_controller.HppvToCsiPv.Upgrade.Cluster.{Cluster, minute}
use admission_controller.HppvToCsiPv.Upgrade.Store.{strip, Volumes, set, Stores}
use admission_controller.HppvToCsiPv.Upgrade.Success.{Proceeds}
use admission_controller.HppvToCsiPv.Upgrade.Success.Healthy.{IsHealthy, Binds}
use admission_controller.HppvToCsiPv.Upgrade.Steps.{
  UpdatePipeline, State, undo_delete, delete_old_pv, undo_create_csi_pv, step_create_csi_pv,
  step_wait_csi_pv_bound, step_restart_pods,
}
use admission_controller.HppvToCsiPv.Upgrade.Success.Steps.{set_here, set_off, some-strip}
use admission_controller.HppvToCsiPv.Upgrade.Success.Steps as Steps

module _ (c : Cluster) (st : Stores c) (healthy : IsHealthy c st) (n t : String)
    (apart : n ≢ t) where
  abbrev view : State c → Volumes
  view = Steps.view c st healthy n t apart

  abbrev IsHeld : State c → Type 0
  IsHeld = Steps.IsHeld c st healthy n t apart

  abbrev IsHeldBoth : PersistentVolume → State c → Type 0
  IsHeldBoth = Steps.IsHeldBoth c st healthy n t apart

  -- The old volume is saved and gone, and the temporary one is there.
  abbrev pub IsDeleted : State c → Type 0
  IsDeleted s =
      (old : PersistentVolume) × (path : Bytes) × (s.save_old_pv ≡ some old)
      × (old.host_path ≡ some path)
      × (view s n ≡ none)
      × ((q : PersistentVolume) × (view s t ≡ some q))

  -- DeleteOldPV
  pub delete_old_pv-Proceeds :
      (K : State c → Type 0) (upl : UpdatePipeline) (p pv : PersistentVolume) (s : State c)
      → upl.pv_name ≡ n
      → IsHeldBoth p s
      → some (strip pv) ≡ some p
      → ((s' : State c) → IsDeleted s' → K s')
      → Proceeds IsHeld IsHeld K (delete_old_pv c upl pv s)
  unfolding delete_old_pv undo_delete
  delete_old_pv-Proceeds K upl p pv s own ((path, held, is), (q, there)) same k =
      let m = upl.pv_name in
      let gone = healthy.deletes m s.world p (ap (view s) own ∙ held) in
      let wrote = st.delete_ok m s.world gone ∙ ap (λ i. set i none (view s)) own in
      rw (gone, delete_old_pv)
        (
          refl,
          refl,
          (λ s' h. (refl, h)),
          k (record { save_old_pv = some pv; world = (c.delete_pv m s.world).1 })
              (
                pv,
                path,
                refl,
                some-strip pv p path same is,
                ap (λ (f : Volumes). f n) wrote ∙ set_here n none (view s),
                (q, ap (λ (f : Volumes). f t) wrote ∙ set_off n t none (view s) apart ∙ there),
              ),
        )

  -- CreateCSIPV
  pub step_create_csi_pv-Proceeds :
      (K : State c → Type 0) (upl : UpdatePipeline) (s : State c)
      → upl.pv_name ≡ n
      → IsDeleted s
      → ((s' : State c) → IsHeld s' → K s')
      → Proceeds IsHeld IsHeld K (step_create_csi_pv c upl s)
  unfolding step_create_csi_pv undo_create_csi_pv
  step_create_csi_pv-Proceeds K upl s own (old, path, saved, is, free, (q, there)) k =
      let m = upl.pv_name in
      let made =
        ap (λ o. (c.create_csi_host_path_pv m o true s.world).0) saved
        ∙ healthy.creates_csi m old path true s.world is (ap (view s) own ∙ free) in
      let (_, (new, csi, wrote)) = st.create_csi_ok m s.save_old_pv true s.world made in
      let wrote' = wrote ∙ ap (λ i. set i (some new) (view s)) own in
      rw (made, step_create_csi_pv)
        (
          refl,
          refl,
          (λ s' h. (refl, h)),
          k (record s { world = (c.create_csi_host_path_pv m s.save_old_pv true s.world).1 })
              (
                (new, ap (λ (f : Volumes). f n) wrote' ∙ set_here n (some new) (view s), csi),
                (
                  q,
                  ap (λ (f : Volumes). f t) wrote' ∙ set_off n t (some new) (view s) apart ∙ there,
                ),
              ),
        )

  -- WaitCSIPVBound
  pub step_wait_csi_pv_bound-Proceeds :
      (K : State c → Type 0) (upl : UpdatePipeline) (s : State c)
      → upl.pv_name ≡ n
      → IsHeld s
      → Binds c upl s
      → ((s' : State c) → IsHeld s' → K s')
      → Proceeds IsHeld IsHeld K (step_wait_csi_pv_bound c upl s)
  unfolding step_wait_csi_pv_bound
  step_wait_csi_pv_bound-Proceeds K upl s own ((new, h, csi), (q, there)) binds k =
      elim (Bool-cases upl.need_wait_bound) [
        | inr b ↦
            rw (b, step_wait_csi_pv_bound)
              (refl, refl, (λ s' g. g), k s ((new, h, csi), (q, there)))
        | inl b ↦
            let m = upl.pv_name in
            let after = (c.wait_pv_bound m 40 s.world).1 in
            let (bound, held, kept) =
              st.wait_pv_bound_source m 40 s.world new (ap (view s) own ∙ h) in
            let off : m ≢ t = λ e. apart (sym own ∙ e) in
            let others =
              sym (set_off m t none (st.stored after) off)
              ∙ ap (λ (f : Volumes). f t) (st.wait_pv_bound_others m 40 s.world)
              ∙ set_off m t none (view s) off in
            rw (b, step_wait_csi_pv_bound)
              (rw (binds b) (
                refl,
                refl,
                (λ s' g. g),
                k (record s { world = (c.wait_pv_bound upl.pv_name 40 s.world).1 })
                    (
                      (bound, ap (st.stored after) (sym own) ∙ held, kept ∙ csi),
                      (q, others ∙ there),
                    ),
              ))
      ]

  -- RestartPods
  pub step_restart_pods-Proceeds :
      (K : State c → Type 0) (upl : UpdatePipeline) (s : State c)
      → IsHeld s
      → ((s' : State c) → IsHeld s' → K s')
      → Proceeds IsHeld IsHeld K (step_restart_pods c upl s)
  unfolding step_restart_pods
  step_restart_pods-Proceeds K upl s ((new, h, csi), (q, there)) k =
      let r = c.get_pvs_using_pods (upl.pv_name ∷ []) s.world in
      let same =
        st.stored-delete_pods "" r.0.0 minute r.1
        ∙ st.stored-get_pvs_using_pods (upl.pv_name ∷ []) s.world in
      (
        refl,
        refl,
        (λ s' g. g),
        k (record s { world = (c.delete_pods "" r.0.0 minute r.1).1 })
            (
              (new, ap (λ (f : Volumes). f n) same ∙ h, csi),
              (q, ap (λ (f : Volumes). f t) same ∙ there),
            ),
      )
