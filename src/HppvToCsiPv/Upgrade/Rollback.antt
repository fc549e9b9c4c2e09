-- ===== src/HppvToCsiPv/Upgrade/Rollback.antt =====
-- What the undo actions of the pipeline's steps bring back of the stored volumes, step by step.
pub mod Restored
pub mod Versions
use mathlib.Core.Path.{subst}
use admission_controller.Base.{
  ℕ, String, Bool, true, false, Option, none, some, List, [], ◌∷◌, Error, Result, ok, err, ◌≡◌,
  refl, sym, ap, ◌∙◌, inl, inr, arith, Option-cases, Result-cases, Bool-cases, ok-injective,
}
use admission_controller.Api.{PersistentVolume, Annotations, annotation}
use admission_controller.HppvToCsiPv.Upgrade.Cluster.{Cluster}
use admission_controller.HppvToCsiPv.Upgrade.Engine.{Poll, Undo, Outcome, Action, run}
use admission_controller.HppvToCsiPv.Upgrade.Brackets.{RevertsBy, Leads, Shows}
use admission_controller.HppvToCsiPv.Upgrade.Store.{
  strip, Volumes, set, set_twice, set_self, Stores,
}
use admission_controller.HppvToCsiPv.Upgrade.Steps.{
  UpdatePipeline, State, on_world, with_hostpath_pv, create_tmp_pv, step_create_tmp_pv, undo_delete,
  delete_old_pv, step_delete_old_pv, undo_create_csi_pv, step_create_csi_pv, tmp_pv_name,
  step_wait_csi_pv_bound, step_restart_pods, change_quota_type,
  step_create_pod_to_change_quota_type,
}

module _ (c : Cluster) (st : Stores c) where
  abbrev pub view : State c → Volumes
  view s = st.stored s.world

  -- the result of a step reverts to the state before it
  abbrev pub Back : Outcome (State c) × State c → State c → Type 0
  Back (o, after) before = RevertsBy view o.undo before after

  RevertsBy-before :
      (o : Option (Undo (State c))) (s s' after : State c)
      → view s' ≡ view s
      → RevertsBy view o s' after
      → RevertsBy view o s after
  RevertsBy-before none s s' after e h = h ∙ e
  RevertsBy-before (some u) s s' after e h = λ s2 e2 clean. h s2 e2 clean ∙ e

  -- DeletePv, if it fails, has changed nothing.
  abbrev pub FailsWhole : String → c.World → Type 0
  FailsWhole n w =
      (e : Error) → (c.delete_pv n w).0 ≡ some e → st.stored (c.delete_pv n w).1 ≡ st.stored w

  -- Get and the test change nothing.
  pub with_hostpath_pv-Back :
      (n : String) (rest : PersistentVolume → Action (State c)) (s : State c)
      → ((pv : PersistentVolume) (s' : State c)
          → pv.name ≡ n
          → view s' ≡ view s
          → view s' n ≡ some (strip pv)
          → s'.world ≡ (c.get n s.world).1
          → Back (rest pv s') s')
      → Back (with_hostpath_pv c n rest s) s
  unfolding with_hostpath_pv
  with_hostpath_pv-Back n rest s h = elim (Result-cases (c.get n s.world).0) [
    | inr (e, g) ↦ rw (g, with_hostpath_pv) (st.stored-get n s.world)
    | inl (pv, g) ↦
        let same = st.stored-get n s.world in
        let (named, held) = st.get_ok n s.world pv g in
        elim (Option-cases pv.host_path) [
          | inl none_path ↦ rw (g, with_hostpath_pv) (rw none_path same)
          | inr (p, path) ↦
              let s' : State c = record s { world = (c.get n s.world).1 } in
              rw (g, with_hostpath_pv)
                (rw path (
                  RevertsBy-before (rest pv s').0.undo s s' (rest pv s').1 same
                    (h pv s' named same (ap (λ f. f n) same ∙ held) refl)))
        ]
  ]

  -- CreateTmpPV
  create_tmp_pv-Back : (pv : PersistentVolume) (s : State c) → Back (create_tmp_pv c pv s) s
  unfolding create_tmp_pv
  create_tmp_pv-Back pv s =
      let n = tmp_pv_name c pv in
      elim (Option-cases (c.create_csi_host_path_pv n (some pv) false s.world).0) [
        | inr (e, f) ↦ rw (f, create_tmp_pv) (st.create_csi_failed n (some pv) false s.world e f)
        | inl f ↦
            let (free, (new, csi, made)) = st.create_csi_ok n (some pv) false s.world f in
            rw (f, create_tmp_pv)
              λ s' e clean.
                st.delete_ok n s'.world clean
                ∙ ap (set n none) (e ∙ made)
                ∙ set_twice n none (some new) (view s)
                ∙ set_self n none (view s) free
      ]

  pub step_create_tmp_pv-Back :
      (upl : UpdatePipeline) (s : State c) → Back (step_create_tmp_pv c upl s) s
  unfolding step_create_tmp_pv
  step_create_tmp_pv-Back upl s =
      with_hostpath_pv-Back upl.pv_name (create_tmp_pv c) s
        λ pv s' named same held at. create_tmp_pv-Back pv s'

  -- A step's own part in AllRevert, and K for the later steps
  abbrev pub ComesBack :
      ((State c → Type 0) → State c → Type 1)
      → (State c → Type 0)
      → Outcome (State c) × State c
      → Type 1
  ComesBack K R (o, s) =
      (R' : State c → Type 0) × Leads R' R o.undo × R' s × (o.failure ≡ none → K R' s)

  -- what is stored under other names
  abbrev pub Others : String → State c → State c → Type 0
  Others n before s = set n none (view s) ≡ set n none (view before)

  -- CreateCSIPV, whose undo action deletes whatever the later steps have made of the new volume
  pub step_create_csi_pv-ComesBack :
      (K : (State c → Type 0) → State c → Type 1) (upl : UpdatePipeline) (s : State c)
      → ((s' : State c) → K (Others upl.pv_name s') s')
      → ComesBack K (Shows view s) (step_create_csi_pv c upl s)
  unfolding step_create_csi_pv undo_create_csi_pv
  step_create_csi_pv-ComesBack K upl s k =
      let n = upl.pv_name in
      let old = s.save_old_pv in
      elim (Option-cases (c.create_csi_host_path_pv n old true s.world).0) [
        | inr (e, f) ↦
            rw (f, step_create_csi_pv)
              (Shows view s, (λ t h. h), st.create_csi_failed n old true s.world e f, λ x. cc)
        | inl f ↦
            let (free, (new, csi, made)) = st.create_csi_ok n old true s.world f in
            let made_of_it : State c = record s {
              world = (c.create_csi_host_path_pv n old true s.world).1;
            } in
            rw (f, step_create_csi_pv)
              (
                Others n made_of_it,
                (λ t e clean.
                    st.delete_ok n t.world clean
                    ∙ e
                    ∙ ap (set n none) made
                    ∙ set_twice n none (some new) (view s)
                    ∙ set_self n none (view s) free),
                refl,
                λ x. k made_of_it,
              )
      ]

  -- DeleteOldPV
  delete_old_pv-Back :
      (upl : UpdatePipeline) (pv : PersistentVolume) (s : State c)
      → pv.name ≡ upl.pv_name
      → view s upl.pv_name ≡ some (strip pv)
      → FailsWhole upl.pv_name s.world
      → Back (delete_old_pv c upl pv s) s
  unfolding delete_old_pv undo_delete
  delete_old_pv-Back upl pv s named held whole =
      let n = upl.pv_name in
      elim (Option-cases (c.delete_pv n s.world).0) [
        | inr (e, f) ↦ rw (f, delete_old_pv) (whole e f)
        | inl f ↦
            rw (f, delete_old_pv)
              λ s' e clean.
                st.create_ok pv s'.world clean
                ∙ ap (λ (m : String). set m (some (strip pv)) (view s')) named
                ∙ ap (set n (some (strip pv))) (e ∙ st.delete_ok n s.world f)
                ∙ set_twice n (some (strip pv)) none (view s)
                ∙ set_self n (some (strip pv)) (view s) held
      ]

  pub step_delete_old_pv-Back :
      (upl : UpdatePipeline) (s : State c)
      → FailsWhole upl.pv_name (c.get upl.pv_name s.world).1
      → Back (step_delete_old_pv c upl s) s
  unfolding step_delete_old_pv
  step_delete_old_pv-Back upl s whole =
      with_hostpath_pv-Back upl.pv_name (delete_old_pv c upl) s λ pv s' named same held at.
        delete_old_pv-Back upl pv s' named held (subst (FailsWhole upl.pv_name) (sym at) whole)

  -- CreateChangePod: pods only
  change_quota_type-Back :
      (upl : UpdatePipeline) (pv : PersistentVolume) (s : State c)
      → Back (change_quota_type c upl pv s) s
  unfolding change_quota_type
  change_quota_type-Back upl pv s = elim (Result-cases (c.get_pv_quota_paths pv)) [
    | inr (e, g) ↦ rw (g, change_quota_type) refl
    | inl (infos, g) ↦
        let r =
          c.create_pods_to_change_quota_path_type upl.pv_name upl.upgrade_image infos s.world in
        let pods = r.0.0 in
        let same = st.stored-create_pods upl.pv_name upl.upgrade_image infos s.world in
        elim (Option-cases r.0.1) [
          | inr (e, f) ↦
              rw (g, change_quota_type)
                (rw f λ s' e' clean. st.stored-wait_pods_deleted "" pods true s'.world ∙ e' ∙ same)
          | inl f ↦
              let same' = st.stored-wait_pod_quit pods 120 r.1 ∙ same in
              elim (Option-cases (c.wait_pod_quit pods 120 r.1).0) [
                | inr (e, q) ↦
                    rw (g, change_quota_type)
                      (rw (f, q)
                        λ s' e' clean.
                          st.stored-wait_pods_deleted "" pods true s'.world ∙ e' ∙ same')
                | inl q ↦
                    rw (g, change_quota_type)
                      (rw (f, q)
                        λ s' e' clean.
                          st.stored-wait_pods_deleted "" pods true s'.world ∙ e' ∙ same')
              ]
        ]
  ]

  pub step_create_pod-Back :
      (upl : UpdatePipeline) (s : State c) → Back (step_create_pod_to_change_quota_type c upl s) s
  unfolding step_create_pod_to_change_quota_type
  step_create_pod-Back upl s =
      with_hostpath_pv-Back upl.pv_name (change_quota_type c upl) s
        λ pv s' named same held at. change_quota_type-Back upl pv s'

  -- WaitCSIPVBound and RestartPods: no undo action, and no volume of another name is written
  pub step_wait_csi_pv_bound-ComesBack :
      (K : (State c → Type 0) → State c → Type 1) (upl : UpdatePipeline) (base s : State c)
      → Others upl.pv_name base s
      → ((s' : State c) → Others upl.pv_name base s' → K (Others upl.pv_name base) s')
      → ComesBack K (Others upl.pv_name base) (step_wait_csi_pv_bound c upl s)
  unfolding step_wait_csi_pv_bound
  step_wait_csi_pv_bound-ComesBack K upl base s e k = elim (Bool-cases upl.need_wait_bound) [
    | inr b ↦ rw (b, step_wait_csi_pv_bound) (Others upl.pv_name base, (λ t h. h), e, λ x. k s e)
    | inl b ↦
        let e' = st.wait_pv_bound_others upl.pv_name 40 s.world ∙ e in
        let waited : State c = record s { world = (c.wait_pv_bound upl.pv_name 40 s.world).1 } in
        elim (Option-cases (c.wait_pv_bound upl.pv_name 40 s.world).0) [
          | inr (x, f) ↦
              rw (b, step_wait_csi_pv_bound)
                (rw f (Others upl.pv_name base, (λ t h. h), e', λ y. k waited e'))
          | inl f ↦
              rw (b, step_wait_csi_pv_bound)
                (rw f (Others upl.pv_name base, (λ t h. h), e', λ y. k waited e'))
        ]
  ]

  pub step_restart_pods-ComesBack :
      (K : (State c → Type 0) → State c → Type 1) (upl : UpdatePipeline) (base s : State c)
      → Others upl.pv_name base s
      → ((s' : State c) → Others upl.pv_name base s' → K (Others upl.pv_name base) s')
      → ComesBack K (Others upl.pv_name base) (step_restart_pods c upl s)
  unfolding step_restart_pods
  step_restart_pods-ComesBack K upl base s e k =
      let same =
        ap (set upl.pv_name none)
          (st.stored-delete_pods "" _ _ _ ∙ st.stored-get_pvs_using_pods (upl.pv_name ∷ []) s.world)
        ∙ e in
      (Others upl.pv_name base, (λ t h. h), same, λ x. k _ same)
