-- ===== src/HppvToCsiPv/Upgrade/Completion/Effects.antt =====
-- What each step of a pipeline, and its undo action after a success, leaves under the name of the
-- pipeline's volume.
use admission_controller.Base.{
  ℕ, String, Bool, true, false, Option, none, some, [], ◌∷◌, Error, ◌≡◌, sym, ◌≢◌, refl, ap, ◌∙◌,
  ◌⊎◌, inl, inr, Option-cases, Result-cases, Bool-cases, ==_refl, ==_false,
}
use admission_controller.Api.{PersistentVolume}
use admission_controller.HppvToCsiPv.Upgrade.Cluster.{Cluster}
use admission_controller.HppvToCsiPv.Upgrade.Engine.{Outcome, Action}
use admission_controller.HppvToCsiPv.Upgrade.Store.{Volumes, set, Stores}
use admission_controller.HppvToCsiPv.Upgrade.Completion.{KeptBy, IsGood}
use admission_controller.HppvToCsiPv.Upgrade.Steps.{
  UpdatePipeline, State, on_world, with_hostpath_pv, claim, undo_check, take_over, check_claim,
  claimed_by_other, create_tmp_pv, undo_delete, delete_old_pv, undo_create_csi_pv,
  step_create_csi_pv, tmp_pv_name, step_wait_csi_pv_bound, step_restart_pods, change_quota_type,
  undo_pods,
}
use admission_controller.HppvToCsiPv.Upgrade.Steps.Annotate.{claim_annotations}
use admission_controller.HppvToCsiPv.Upgrade.Rollback.{view}

-- There is a volume, and it is no host path volume.
abbrev pub IsConverted : Option PersistentVolume → Type 0
IsConverted o = (pv : PersistentVolume) × (o ≡ some pv) × (pv.host_path ≡ none)

module _ (c : Cluster) (st : Stores c) (n : String) (before : Option PersistentVolume) where
  -- The name stands for a converted volume, or for what it stood for before.
  abbrev pub IsSettled : Volumes → Type 0
  IsSettled f = IsConverted (f n) ⊎ (f n ≡ before)

  abbrev pub Q : State c → Type 0
  Q s = IsSettled (view c st s)

  abbrev Good : (State c → Type 0) → Outcome (State c) × State c → Type 0
  Good K r = IsGood Q K r

  IsSettled-same : (f g : Volumes) → g n ≡ f n → IsSettled f → IsSettled g
  IsSettled-same f g e (inl (pv, h, p)) = inl (pv, e ∙ h, p)
  IsSettled-same f g e (inr h) = inr (e ∙ h)

  pods_kept : (pods : c.Pods) → KeptBy Q (some (undo_pods c pods))
  pods_kept pods s =
      IsSettled-same (view c st s) (view c st (undo_pods c pods true s).1)
        (ap (λ (f : Volumes). f n) (st.stored-wait_pods_deleted "" pods true s.world))

  pub with_hostpath_pv-Good :
      (K : State c → Type 0) (rest : PersistentVolume → Action (State c)) (s : State c)
      → ((pv : PersistentVolume) (s' : State c)
          → pv.name ≡ n
          → view c st s' ≡ view c st s
          → Good K (rest pv s'))
      → Good K (with_hostpath_pv c n rest s)
  unfolding with_hostpath_pv
  with_hostpath_pv-Good K rest s h = elim (Result-cases (c.get n s.world).0) [
    | inr (e, g) ↦ rw (g, with_hostpath_pv) (tt, λ f. cc)
    | inl (pv, g) ↦
        let (named, held) = st.get_ok n s.world pv g in
        elim (Option-cases pv.host_path) [
          | inl none_path ↦ rw (g, with_hostpath_pv) (rw none_path (tt, λ f. cc))
          | inr (p, path) ↦
              let s' : State c = record s { world = (c.get n s.world).1 } in
              rw (g, with_hostpath_pv) (rw path (h pv s' named (st.stored-get n s.world)))
        ]
  ]

  -- Check: it may end the pipeline, and then it has changed nothing.
  pub claim-Good :
      (K : State c → Type 0) (pipeline_name : String) (pv : PersistentVolume) (s : State c)
      → ((s' : State c) → K s')
      → Good K (claim c n pipeline_name pv s)
  unfolding claim undo_check
  claim-Good K pipeline_name pv s k =
      let claimed : PersistentVolume = record pv {
        annotations =
            claim_annotations pipeline_name (c.marshal_time (c.now s.world)) pv.annotations;
      } in
      elim (Option-cases (c.update claimed s.world).0) [
        | inr (e, f) ↦ rw (f, claim) (tt, λ x. cc)
        | inl f ↦ rw (f, claim) ((λ s' q. q), (λ x. ((λ b. cc), (λ b. k _))))
      ]

  pub take_over-Good :
      (K : State c → Type 0) (r : Bool × Option Error) (pipeline_name : String)
      (pv : PersistentVolume) (s : State c)
      → ((s' : State c) → K s')
      → Q s
      → Good K (take_over c r n pipeline_name pv s)
  unfolding take_over
  take_over-Good K (false, _) pipeline_name pv s k q = (tt, λ x. ((λ b. q), (λ b. cc)))
  take_over-Good K (true, some e) pipeline_name pv s k q = (tt, λ x. cc)
  take_over-Good K (true, none) pipeline_name pv s k q = claim-Good K pipeline_name pv s k

  pub check_claim-Good :
      (K : State c → Type 0) (total : ℕ) (pipeline_name : String) (pv : PersistentVolume)
      (s : State c)
      → ((s' : State c) → K s')
      → Q s
      → Good K (check_claim c total n pipeline_name pv s)
  unfolding check_claim
  check_claim-Good K total pipeline_name pv s k q =
      elim (Bool-cases (claimed_by_other c pipeline_name pv.annotations)) [
        | inr b ↦ rw (b, check_claim) (claim-Good K pipeline_name pv s k)
        | inl b ↦ rw (b, check_claim) (take_over-Good K _ pipeline_name pv s k q)
      ]

  pub change_quota_type-Good :
      (K : State c → Type 0) (upl : UpdatePipeline) (pv : PersistentVolume) (s : State c)
      → ((s' : State c) → K s')
      → Good K (change_quota_type c upl pv s)
  unfolding change_quota_type
  change_quota_type-Good K upl pv s k = elim (Result-cases (c.get_pv_quota_paths pv)) [
    | inr (e, g) ↦ rw (g, change_quota_type) (tt, λ x. cc)
    | inl (infos, g) ↦
        let r =
          c.create_pods_to_change_quota_path_type upl.pv_name upl.upgrade_image infos s.world in
        let pods = r.0.0 in
        elim (Option-cases r.0.1) [
          | inr (e, f) ↦ rw (g, change_quota_type) (rw f (pods_kept pods, λ x. cc))
          | inl f ↦ elim (Option-cases (c.wait_pod_quit pods 120 r.1).0) [
            | inr (e, w) ↦ rw (g, change_quota_type) (rw (f, w) (pods_kept pods, λ x. cc))
            | inl w ↦
                rw (g, change_quota_type)
                  (rw (f, w) (pods_kept pods, (λ x. ((λ b. cc), (λ b. k _)))))
          ]
        ]
  ]

  set-other : (m : String) (v : Option PersistentVolume) (f : Volumes) → m ≢ n → set m v f n ≡ f n
  set-other m v f ne = rw (==_false m n ne) refl

  set-here : (v : Option PersistentVolume) (f : Volumes) → set n v f n ≡ v
  set-here v f = rw (==_refl n) refl

  -- deleting another name settles nothing anew
  deleted_other :
      (m : String) (s : State c)
      → m ≢ n
      → (view c st (on_world c (c.delete_pv m) s).1) n ≡ view c st s n
  deleted_other m s ne = elim (Option-cases (c.delete_pv m s.world).0) [
    | inl f ↦
        ap (λ (g : Volumes). g n) (st.delete_ok m s.world f) ∙ set-other m none (view c st s) ne
    | inr (e, f) ↦
        sym (set-other m none (st.stored (c.delete_pv m s.world).1) ne)
        ∙ ap (λ (g : Volumes). g n) (st.delete_failed m s.world e f)
        ∙ set-other m none (view c st s) ne
  ]

  pub create_tmp_pv-Good :
      (K : State c → Type 0) (pv : PersistentVolume) (s : State c)
      → tmp_pv_name c pv ≢ n
      → ((s' : State c) → K s')
      → Good K (create_tmp_pv c pv s)
  unfolding create_tmp_pv
  create_tmp_pv-Good K pv s ne k =
      elim (Option-cases (c.create_csi_host_path_pv (tmp_pv_name c pv) (some pv) false s.world).0) [
        | inr (e, f) ↦ rw (f, create_tmp_pv) (tt, λ x. cc)
        | inl f ↦
            rw (f, create_tmp_pv)
              (
                (λ s' q.
                    IsSettled-same (view c st s')
                      (view c st (on_world c (c.delete_pv (tmp_pv_name c pv)) s').1)
                      (deleted_other (tmp_pv_name c pv) s' ne) q),
                (λ x. ((λ b. cc), (λ b. k _))),
              )
      ]

  pub delete_old_pv-Good :
      (K : State c → Type 0) (upl : UpdatePipeline) (pv : PersistentVolume) (s : State c)
      → ((s' : State c) → K s')
      → Good K (delete_old_pv c upl pv s)
  unfolding delete_old_pv undo_delete
  delete_old_pv-Good K upl pv s k = elim (Option-cases (c.delete_pv upl.pv_name s.world).0) [
    | inr (e, f) ↦ rw (f, delete_old_pv) (tt, λ x. cc)
    | inl f ↦ rw (f, delete_old_pv) ((λ s' q. q), (λ x. ((λ b. cc), (λ b. k _))))
  ]

  abbrev AtName : State c → Type 0
  AtName s = IsConverted (view c st s n)

  pub step_create_csi_pv-Good :
      (K : State c → Type 0) (upl : UpdatePipeline) (s : State c)
      → upl.pv_name ≡ n
      → ((s' : State c) → AtName s' → K s')
      → Good K (step_create_csi_pv c upl s)
  unfolding step_create_csi_pv undo_create_csi_pv
  step_create_csi_pv-Good K upl s named k =
      elim (Option-cases (c.create_csi_host_path_pv upl.pv_name s.save_old_pv true s.world).0) [
        | inr (e, f) ↦ rw (f, step_create_csi_pv) (tt, λ x. cc)
        | inl f ↦
            let (free, (new, csi, made)) =
              st.create_csi_ok upl.pv_name s.save_old_pv true s.world f in
            let here =
              ap (λ (g : Volumes). g n) made
              ∙ ap (λ m. set m (some new) (view c st s) n) named
              ∙ set-here (some new) (view c st s) in
            rw (f, step_create_csi_pv)
              ((λ s' q. q), (λ x. ((λ b. cc), (λ b. k _ (new, here, csi)))))
      ]

  pub step_wait_csi_pv_bound-Good :
      (K : State c → Type 0) (upl : UpdatePipeline) (s : State c)
      → upl.pv_name ≡ n
      → AtName s
      → ((s' : State c) → AtName s' → K s')
      → Good K (step_wait_csi_pv_bound c upl s)
  unfolding step_wait_csi_pv_bound
  step_wait_csi_pv_bound-Good K upl s own (pv, h, p) k = elim (Bool-cases upl.need_wait_bound) [
    | inr b ↦ rw (b, step_wait_csi_pv_bound) (tt, (λ x. ((λ b. cc), (λ b. k _ (pv, h, p)))))
    | inl b ↦
        let m = upl.pv_name in
        let (bound, held, kept) =
          st.wait_pv_bound_source m 40 s.world pv (ap (view c st s) own ∙ h) in
        let at_name = ap (st.stored (c.wait_pv_bound m 40 s.world).1) (sym own) ∙ held in
        elim (Option-cases (c.wait_pv_bound upl.pv_name 40 s.world).0) [
          | inr (e, f) ↦ rw (b, step_wait_csi_pv_bound) (rw f (tt, λ x. cc))
          | inl f ↦
              rw (b, step_wait_csi_pv_bound)
                (rw f (tt, (λ x. ((λ b. cc), (λ b. k _ (bound, at_name, kept ∙ p))))))
        ]
  ]

  pub step_restart_pods-Good :
      (upl : UpdatePipeline) (s : State c) → AtName s → Good Q (step_restart_pods c upl s)
  unfolding step_restart_pods
  step_restart_pods-Good upl s (pv, h, p) =
      let same =
        ap (λ (g : Volumes). g n)
          (st.stored-delete_pods "" _ _ _
            ∙ st.stored-get_pvs_using_pods (upl.pv_name ∷ []) s.world) in
      (tt, (λ x. ((λ b. cc), (λ b. inl (pv, same ∙ h, p)))))
