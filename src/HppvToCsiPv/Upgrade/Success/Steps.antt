-- ===== src/HppvToCsiPv/Upgrade/Success/Steps.antt =====
-- The steps before the old volume is deleted proceed on a healthy cluster.
use admission_controller.Base.{
  ℕ, String, true, false, Option, none, some, Bytes, ok, ◌≡◌, ◌≢◌, refl, sym, ap, ◌∙◌, ==_refl,
  ==_false, arith, eq_iff,
}
use admission_controller.Api.{PersistentVolume, Annotations, annotation}
use admission_controller.HppvToCsiPv.Upgrade.Cluster.{Cluster}
use admission_controller.HppvToCsiPv.Upgrade.Engine.{Action}
use admission_controller.HppvToCsiPv.Upgrade.Store.{strip, Volumes, set, Stores}
use admission_controller.HppvToCsiPv.Upgrade.Completion.Effects.{IsConverted}
use admission_controller.HppvToCsiPv.Upgrade.Success.{Leads, Proceeds}
use admission_controller.HppvToCsiPv.Upgrade.Success.Healthy.{IsHealthy}
use admission_controller.HppvToCsiPv.Upgrade.Steps.{
  UpdatePipeline, State, with_hostpath_pv, claim, undo_check, check_claim, step_check,
  claimed_by_other, create_tmp_pv, tmp_pv_name, change_quota_type, undo_pods,
}
use admission_controller.HppvToCsiPv.Upgrade.Steps.Annotate.{
  claim_annotations, updating_pipeline_start_time,
}

pub set_here : (n : String) (v : Option PersistentVolume) (f : Volumes) → set n v f n ≡ v
set_here n v f = rw (==_refl n) refl

pub set_off : (n k : String) (v : Option PersistentVolume) (f : Volumes) → n ≢ k → set n v f k ≡ f k
set_off n k v f h = rw (==_false n k h) refl

pub some-strip :
    (pv p : PersistentVolume) (path : Bytes)
    → some (strip pv) ≡ some p
    → p.host_path ≡ some path
    → pv.host_path ≡ some path
some-strip pv p path e h = cc

annotations-same :
    (pv p : PersistentVolume) → some (strip pv) ≡ some p → pv.annotations ≡ p.annotations
annotations-same pv p e = cc

unclaimed :
    (c : Cluster) (n : String) (a : Annotations)
    → annotation a updating_pipeline_start_time ≡ ""
    → claimed_by_other c n a ≡ false
unclaimed c n none h = refl
unclaimed c n (some m) h =
    ground (arith, eq_iff (annotation (some m) updating_pipeline_start_time) "")

module _ (c : Cluster) (st : Stores c) (healthy : IsHealthy c st) (n t : String)
    (apart : n ≢ t) where
  abbrev pub view : State c → Volumes
  view s = st.stored s.world

  -- the name stands for this volume, and it is a host path volume
  abbrev pub IsHostPath : PersistentVolume → State c → Type 0
  IsHostPath p s = (path : Bytes) × (view s n ≡ some p) × (p.host_path ≡ some path)

  -- Get and the test lead to the rest of the step.
  pub with_hostpath_pv-Proceeds :
      (R R' K : State c → Type 0) (rest : PersistentVolume → Action (State c))
      (p : PersistentVolume) (s : State c)
      → IsHostPath p s
      → ((pv : PersistentVolume)
          → pv.name ≡ n
          → some (strip pv) ≡ some p
          → (c.get n s.world).0 ≡ ok pv
          → Proceeds R R' K (rest pv (record s { world = (c.get n s.world).1 })))
      → Proceeds R R' K (with_hostpath_pv c n rest s)
  unfolding with_hostpath_pv
  with_hostpath_pv-Proceeds R R' K rest p s (path, held, is) h =
      let (pv, got) = healthy.finds n s.world p held in
      let (named, here) = st.get_ok n s.world pv got in
      let same = sym here ∙ held in
      rw (got, with_hostpath_pv) (rw (some-strip pv p path same is) (h pv named same got))

  -- The volume is a host path volume, and the temporary name is free.
  abbrev pub IsReady : PersistentVolume → State c → Type 0
  IsReady p s = IsHostPath p s × (view s t ≡ none)

  -- what the undo actions need: the name stands for a converted volume
  abbrev pub IsDone : State c → Type 0
  IsDone s = IsConverted (view s n)

  -- and the temporary volume is there
  abbrev pub IsHeld : State c → Type 0
  IsHeld s = IsConverted (view s n) × ((p : PersistentVolume) × (view s t ≡ some p))

  pub IsReady-same :
      (p : PersistentVolume) (s s' : State c) → view s' ≡ view s → IsReady p s → IsReady p s'
  IsReady-same p s s' e ((path, held, is), free) =
      ((path, ap (λ (f : Volumes). f n) e ∙ held, is), ap (λ (f : Volumes). f t) e ∙ free)

  abbrev claimed_pv : String → PersistentVolume → State c → PersistentVolume
  claimed_pv pipeline_name pv s = record pv {
    annotations = claim_annotations pipeline_name (c.marshal_time (c.now s.world)) pv.annotations;
  }

  -- Check
  claim-Proceeds :
      (K : State c → Type 0) (pipeline_name : String) (p pv : PersistentVolume) (s : State c)
      → IsReady p s
      → pv.name ≡ n
      → some (strip pv) ≡ some p
      → (c.update (claimed_pv pipeline_name pv s) s.world).0 ≡ none
      → ((p' : PersistentVolume) (s' : State c) → IsReady p' s' → K s')
      → Proceeds IsDone IsDone K (claim c n pipeline_name pv s)
  unfolding claim undo_check
  claim-Proceeds K pipeline_name p pv s ((path, held, is), free) named same updated k =
      let new = claimed_pv pipeline_name pv s in
      let wrote =
        st.update_ok new s.world updated ∙ ap (λ m. set m (some (strip new)) (view s)) named in
      rw (updated, claim)
        (
          refl,
          refl,
          (λ s' h. (refl, h)),
          k (strip new) _ (
            (
              path,
              ap (λ (f : Volumes). f n) wrote ∙ set_here n (some (strip new)) (view s),
              some-strip pv p path same is,
            ),
            ap (λ (f : Volumes). f t) wrote ∙ set_off n t (some (strip new)) (view s) apart ∙ free,
          ),
        )

  pub step_check-Proceeds :
      (K : State c → Type 0) (upl : UpdatePipeline) (total : ℕ) (p : PersistentVolume) (s : State c)
      → upl.pv_name ≡ n
      → annotation p.annotations updating_pipeline_start_time ≡ ""
      → IsReady p s
      → ((p' : PersistentVolume) (s' : State c) → IsReady p' s' → K s')
      → Proceeds IsDone IsDone K (step_check c upl total s)
  unfolding step_check check_claim
  step_check-Proceeds K upl total p s own free ready k =
      rw (healthy.hostname, step_check)
        (rw own (
          with_hostpath_pv-Proceeds IsDone IsDone K (check_claim c total n healthy.host) p s ready.0
            λ pv named same got.
              let s' : State c = record s { world = (c.get n s.world).1 } in
              let none_started =
                ap (λ (a : Annotations). annotation a updating_pipeline_start_time)
                  (annotations-same pv p same)
                ∙ free in
              rw (unclaimed c healthy.host pv.annotations none_started, check_claim)
                (claim-Proceeds K healthy.host p pv s'
                  (IsReady-same p s s' (st.stored-get n s.world) ready) named same
                  (healthy.updates n s.world pv _ got) k)))

  abbrev Pods : Type 0
  Pods = c.Pods

  -- CreateChangePod
  undo_pods-Leads : (pods : Pods) → Leads IsDone IsDone (some (undo_pods c pods))
  undo_pods-Leads pods s (pv, h, is) = (
    healthy.pods_deleted pods s.world,
    (pv, ap (λ (f : Volumes). f n) (st.stored-wait_pods_deleted "" pods true s.world) ∙ h, is),
  )

  pub change_quota_type-Proceeds :
      (K : State c → Type 0) (upl : UpdatePipeline) (p pv : PersistentVolume) (s : State c)
      → IsReady p s
      → (m : c.MountInfos) → c.get_pv_quota_paths pv ≡ ok m
      → (let r = c.create_pods_to_change_quota_path_type upl.pv_name upl.upgrade_image m s.world in
          (r.0.1 ≡ none) × ((c.wait_pod_quit r.0.0 120 r.1).0 ≡ none))
      → ((s' : State c) → IsReady p s' → K s')
      → Proceeds IsDone IsDone K (change_quota_type c upl pv s)
  unfolding change_quota_type
  change_quota_type-Proceeds K upl p pv s ((path, held, is), free) infos g (pods, quit) k =
      let r = c.create_pods_to_change_quota_path_type upl.pv_name upl.upgrade_image infos s.world in
      rw (g, change_quota_type)
        (rw (pods, quit)
          (
            refl,
            refl,
            undo_pods-Leads r.0.0,
            k (record s { world = (c.wait_pod_quit r.0.0 120 r.1).1 })
                (IsReady-same p s (record s { world = (c.wait_pod_quit r.0.0 120 r.1).1 })
                  (st.stored-wait_pod_quit r.0.0 120 r.1
                    ∙ st.stored-create_pods upl.pv_name upl.upgrade_image infos s.world)
                  ((path, held, is), free)),
          ))

  -- CreateTmpPV
  abbrev pub IsHeldBoth : PersistentVolume → State c → Type 0
  IsHeldBoth p s = IsHostPath p s × ((q : PersistentVolume) × (view s t ≡ some q))

  pub IsHeldBoth-same :
      (p : PersistentVolume) (s s' : State c) → view s' ≡ view s → IsHeldBoth p s → IsHeldBoth p s'
  IsHeldBoth-same p s s' e ((path, held, is), (q, there)) =
      ((path, ap (λ (f : Volumes). f n) e ∙ held, is), (q, ap (λ (f : Volumes). f t) e ∙ there))

  pub create_tmp_pv-Proceeds :
      (K : State c → Type 0) (p pv : PersistentVolume) (s : State c)
      → IsReady p s
      → tmp_pv_name c pv ≡ t
      → some (strip pv) ≡ some p
      → ((s' : State c) → IsHeldBoth p s' → K s')
      → Proceeds IsHeld IsDone K (create_tmp_pv c pv s)
  unfolding create_tmp_pv
  create_tmp_pv-Proceeds K p pv s ((path, held, is), free) tmp same k =
      let m = tmp_pv_name c pv in
      let made =
        healthy.creates_csi m pv path false s.world (some-strip pv p path same is)
          (ap (view s) tmp ∙ free) in
      let (_, (new, csi, wrote)) = st.create_csi_ok m (some pv) false s.world made in
      let wrote' = wrote ∙ ap (λ i. set i (some new) (view s)) tmp in
      rw (made, create_tmp_pv)
        (
          refl,
          refl,
          (λ s' ((q, h, no_path), (u, there)).
              let gone = healthy.deletes m s'.world u (ap (view s') tmp ∙ there) in
              (
                gone,
                (
                  q,
                  ap (λ (f : Volumes). f n)
                        (st.delete_ok m s'.world gone ∙ ap (λ i. set i none (view s')) tmp)
                      ∙ set_off t n none (view s') (λ e. apart (sym e))
                      ∙ h,
                  no_path,
                ),
              )),
          k (record s { world = (c.create_csi_host_path_pv m (some pv) false s.world).1 })
              (
                (
                  path,
                  ap (λ (f : Volumes). f n) wrote'
                      ∙ set_off t n (some new) (view s) (λ e. apart (sym e))
                      ∙ held,
                  is,
                ),
                (new, ap (λ (f : Volumes). f t) wrote' ∙ set_here t (some new) (view s)),
              ),
        )
