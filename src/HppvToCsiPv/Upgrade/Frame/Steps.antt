-- ===== src/HppvToCsiPv/Upgrade/Frame/Steps.antt =====
-- Each step of a pipeline leaves the volumes of other names as they are, once its undo action has run.
use mathlib.Core.Path.{fun_ext, subst}
use admission_controller.Base.{
  ℕ, String, Bool, true, false, Option, none, some, Error, ◌≡◌, refl, ap, ◌∙◌, inl, inr, arith,
  eq_iff, Option-cases, Result-cases, Bool-cases,
}
use admission_controller.Api.{PersistentVolume}
use admission_controller.HppvToCsiPv.Upgrade.Cluster.{Cluster}
use admission_controller.HppvToCsiPv.Upgrade.Engine.{Undo, Outcome, Action}
use admission_controller.HppvToCsiPv.Upgrade.Frame.{UndoneBy}
use admission_controller.HppvToCsiPv.Upgrade.Store.{strip, Volumes, set, set_twice, Stores}
use admission_controller.HppvToCsiPv.Upgrade.Steps.{
  UpdatePipeline, State, with_hostpath_pv, claim, undo_check, take_over, check_claim,
  claimed_by_other, create_tmp_pv, undo_delete, delete_old_pv, tmp_pv_name, change_quota_type,
}
use admission_controller.HppvToCsiPv.Upgrade.Steps.Annotate.{claim_annotations, release_annotations}

-- Making and deleting a free name leaves the volumes but for one name as they were.
set_made :
    (n t : String) (new : PersistentVolume) (f g : Volumes)
    → f t ≡ none
    → set n none g ≡ set n none (set t (some new) f)
    → set n none (set t none g) ≡ set n none f
set_made n t new f g free e =
    fun_ext λ k. ground (arith, ap (λ (h : Volumes). h k) e, eq_iff t k, free)

module _ (c : Cluster) (st : Stores c) (n : String) where
  -- the stored volumes but for the one of the name
  abbrev pub others : State c → Volumes
  others s = set n none (st.stored s.world)

  -- the result of a step is undone to the state before it, but for the volume of the name
  abbrev pub Framed : Outcome (State c) × State c → State c → Type 0
  Framed (o, after) before = UndoneBy others o.undo before after

  -- a write of the volume itself is not seen
  pub others-set :
      (m : String) (v : Option PersistentVolume) (w w' : c.World)
      → m ≡ n
      → st.stored w' ≡ set m v (st.stored w)
      → set n none (st.stored w') ≡ set n none (st.stored w)
  others-set m v w w' named e =
      ap (set n none) (e ∙ ap (λ (k : String). set k v (st.stored w)) named)
      ∙ set_twice n none v (st.stored w)

  UndoneBy-before :
      (o : Option (Undo (State c))) (s s' after : State c)
      → others s' ≡ others s
      → UndoneBy others o s' after
      → UndoneBy others o s after
  UndoneBy-before none s s' after e h = h ∙ e
  UndoneBy-before (some u) s s' after e h = λ b s2 e2 clean. h b s2 e2 clean ∙ e

  pub with_hostpath_pv-Framed :
      (rest : PersistentVolume → Action (State c)) (s : State c)
      → ((pv : PersistentVolume) (s' : State c) → pv.name ≡ n → Framed (rest pv s') s')
      → Framed (with_hostpath_pv c n rest s) s
  unfolding with_hostpath_pv
  with_hostpath_pv-Framed rest s h = elim (Result-cases (c.get n s.world).0) [
    | inr (e, g) ↦ rw (g, with_hostpath_pv) (ap (set n none) (st.stored-get n s.world))
    | inl (pv, g) ↦
        let same = ap (set n none) (st.stored-get n s.world) in
        elim (Option-cases pv.host_path) [
          | inl none_path ↦ rw (g, with_hostpath_pv) (rw none_path same)
          | inr (p, path) ↦
              let s' : State c = record s { world = (c.get n s.world).1 } in
              rw (g, with_hostpath_pv)
                (rw path (
                  UndoneBy-before (rest pv s').0.undo s s' (rest pv s').1 same
                    (h pv s' (st.get_ok n s.world pv g).0)))
        ]
  ]

  -- Check: its undo action writes the volume that it reads.
  undo_check-Framed :
      (b : Bool) (s : State c)
      → (undo_check c n b s).0 ≡ none
      → others (undo_check c n b s).1 ≡ others s
  unfolding undo_check
  undo_check-Framed true s = λ clean. refl
  undo_check-Framed false s = elim (Result-cases (c.get n s.world).0) [
    | inr (x, g) ↦ rw (g, undo_check) λ clean. cc
    | inl (cur, g) ↦
        let released : PersistentVolume = record cur {
          annotations = release_annotations cur.annotations;
        } in
        rw (g, undo_check)
          λ clean.
            others-set cur.name (some (strip released)) (c.get n s.world).1
              (c.update released (c.get n s.world).1).1 (st.get_ok n s.world cur g).0
              (st.update_ok released (c.get n s.world).1 clean)
            ∙ ap (set n none) (st.stored-get n s.world)
  ]

  claim-Framed :
      (pipeline_name : String) (pv : PersistentVolume) (s : State c)
      → pv.name ≡ n
      → Framed (claim c n pipeline_name pv s) s
  unfolding claim
  claim-Framed pipeline_name pv s named =
      let claimed : PersistentVolume = record pv {
        annotations =
            claim_annotations pipeline_name (c.marshal_time (c.now s.world)) pv.annotations;
      } in
      elim (Option-cases (c.update claimed s.world).0) [
        | inr (e, f) ↦ rw (f, claim) (ap (set n none) (st.update_failed claimed s.world e f))
        | inl f ↦
            rw (f, claim)
              λ b s' e clean.
                undo_check-Framed b s' clean
                ∙ e
                ∙ others-set pv.name (some (strip claimed)) s.world (c.update claimed s.world).1
                    named (st.update_ok claimed s.world f)
      ]

  take_over-Framed :
      (r : Bool × Option Error) (pipeline_name : String) (pv : PersistentVolume) (s : State c)
      → Framed (claim c n pipeline_name pv s) s
      → Framed (take_over c r n pipeline_name pv s) s
  unfolding take_over
  take_over-Framed (false, _) pipeline_name pv s h = refl
  take_over-Framed (true, some e) pipeline_name pv s h = refl
  take_over-Framed (true, none) pipeline_name pv s h = h

  pub check_claim-Framed :
      (total : ℕ) (pipeline_name : String) (pv : PersistentVolume) (s : State c)
      → pv.name ≡ n
      → Framed (check_claim c total n pipeline_name pv s) s
  unfolding check_claim
  check_claim-Framed total pipeline_name pv s named =
      let claimed = claim-Framed pipeline_name pv s named in
      elim (Bool-cases (claimed_by_other c pipeline_name pv.annotations)) [
        | inr b ↦ rw (b, check_claim) claimed
        | inl b ↦ rw (b, check_claim) (take_over-Framed _ pipeline_name pv s claimed)
      ]

  -- CreateChangePod: pods only
  pub change_quota_type-Framed :
      (upl : UpdatePipeline) (pv : PersistentVolume) (s : State c)
      → Framed (change_quota_type c upl pv s) s
  unfolding change_quota_type
  change_quota_type-Framed upl pv s = elim (Result-cases (c.get_pv_quota_paths pv)) [
    | inr (e, g) ↦ rw (g, change_quota_type) refl
    | inl (infos, g) ↦
        let r =
          c.create_pods_to_change_quota_path_type upl.pv_name upl.upgrade_image infos s.world in
        let pods = r.0.0 in
        let same =
          ap (set n none) (st.stored-create_pods upl.pv_name upl.upgrade_image infos s.world) in
        let gone =
          λ (s' : State c). ap (set n none) (st.stored-wait_pods_deleted "" pods true s'.world) in
        elim (Option-cases r.0.1) [
          | inr (e, f) ↦ rw (g, change_quota_type) (rw f λ b s' e' clean. gone s' ∙ e' ∙ same)
          | inl f ↦
              let same' = ap (set n none) (st.stored-wait_pod_quit pods 120 r.1) ∙ same in
              elim (Option-cases (c.wait_pod_quit pods 120 r.1).0) [
                | inr (e, q) ↦
                    rw (g, change_quota_type) (rw (f, q) λ b s' e' clean. gone s' ∙ e' ∙ same')
                | inl q ↦
                    rw (g, change_quota_type) (rw (f, q) λ b s' e' clean. gone s' ∙ e' ∙ same')
              ]
        ]
  ]

  -- CreateTmpPV: the temporary volume is made under a free name, and deleted.
  pub create_tmp_pv-Framed : (pv : PersistentVolume) (s : State c) → Framed (create_tmp_pv c pv s) s
  unfolding create_tmp_pv
  create_tmp_pv-Framed pv s =
      let t = tmp_pv_name c pv in
      elim (Option-cases (c.create_csi_host_path_pv t (some pv) false s.world).0) [
        | inr (e, f) ↦
            rw (f, create_tmp_pv)
              (ap (set n none) (st.create_csi_failed t (some pv) false s.world e f))
        | inl f ↦
            let (free, (new, csi, made)) = st.create_csi_ok t (some pv) false s.world f in
            rw (f, create_tmp_pv)
              λ b s' e clean.
                ap (set n none) (st.delete_ok t s'.world clean)
                ∙ set_made n t new (st.stored s.world) (st.stored s'.world) free
                    (e ∙ ap (set n none) made)
      ]

  -- DeleteOldPV
  undo_delete-Framed :
      (pv : PersistentVolume) (b : Bool) (s : State c)
      → pv.name ≡ n
      → (undo_delete c pv b s).0 ≡ none
      → others (undo_delete c pv b s).1 ≡ others s
  unfolding undo_delete
  undo_delete-Framed pv true s named clean = refl
  undo_delete-Framed pv false s named clean =
      others-set pv.name (some (strip pv)) s.world (c.create pv s.world).1 named
        (st.create_ok pv s.world clean)

  pub delete_old_pv-Framed :
      (upl : UpdatePipeline) (pv : PersistentVolume) (s : State c)
      → upl.pv_name ≡ n
      → pv.name ≡ n
      → Framed (delete_old_pv c upl pv s) s
  unfolding delete_old_pv
  delete_old_pv-Framed upl pv s own named =
      elim (Option-cases (c.delete_pv upl.pv_name s.world).0) [
        | inr (e, f) ↦
            rw (f, delete_old_pv)
              (subst
                (λ (m : String).
                  set m none (st.stored (c.delete_pv upl.pv_name s.world).1)
                  ≡ set m none (st.stored s.world))
                own (st.delete_failed upl.pv_name s.world e f))
        | inl f ↦
            rw (f, delete_old_pv)
              λ b s' e clean.
                undo_delete-Framed pv b s' named clean
                ∙ e
                ∙ others-set upl.pv_name none s.world (c.delete_pv upl.pv_name s.world).1 own
                    (st.delete_ok upl.pv_name s.world f)
      ]
