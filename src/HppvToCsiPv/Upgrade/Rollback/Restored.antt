-- ===== src/HppvToCsiPv/Upgrade/Rollback/Restored.antt =====
-- A whole run of a pipeline that fails: its undo actions, put together.
use admission_controller.Base.{
  ℕ, String, Bool, true, false, Option, none, some, [], Error, ◌≡◌, refl, sym, ap, ◌∙◌, inl, inr,
  Option-cases, Result-cases, Bool-cases, ==_refl,
}
use admission_controller.Api.{PersistentVolume, Annotations}
use admission_controller.HppvToCsiPv.Upgrade.Cluster.{Cluster}
use admission_controller.HppvToCsiPv.Upgrade.Engine.{Poll, Action}
use admission_controller.HppvToCsiPv.Upgrade.Brackets.{
  AllRevert, run-Restores, Shows, RevertsBy-Leads,
}
use admission_controller.HppvToCsiPv.Upgrade.Store.{
  strip, Volumes, set, set_twice, set_self, Stores,
}
use admission_controller.HppvToCsiPv.Upgrade.Steps.{
  UpdatePipeline, State, claim, undo_check, take_over, check_claim, step_check, time_outs,
  update_steps, fresh, upgrade, claimed_by_other, step_create_tmp_pv,
  step_create_pod_to_change_quota_type, step_delete_old_pv, step_create_csi_pv,
  step_wait_csi_pv_bound, step_restart_pods,
}
use admission_controller.HppvToCsiPv.Upgrade.Steps.Annotate.{claim_annotations, release_annotations}
use admission_controller.HppvToCsiPv.Upgrade.Steps.Clean.{IsClean, release-claim}
use admission_controller.HppvToCsiPv.Upgrade.Rollback.{
  view, Back, FailsWhole, ComesBack, with_hostpath_pv-Back, step_create_pod-Back,
  step_create_tmp_pv-Back, step_delete_old_pv-Back, step_create_csi_pv-ComesBack,
  step_wait_csi_pv_bound-ComesBack, step_restart_pods-ComesBack,
}

-- what the undo action of Check writes, given what it read
abbrev released : PersistentVolume → PersistentVolume
released pv = record pv { annotations = release_annotations pv.annotations }

strip-released :
    (n now : String) (pv cur : PersistentVolume)
    → IsClean pv.annotations
    → strip cur ≡ strip (record pv { annotations = claim_annotations n now pv.annotations })
    → strip (record cur { annotations = release_annotations cur.annotations }) ≡ strip pv
strip-released n now pv cur clean e =
    ap (λ (p : PersistentVolume). record p { annotations = release_annotations p.annotations }) e
    ∙ ap (λ (a : Annotations). record pv { annotations = a; resource_version = ""; phase = "" })
        (release-claim n now pv.annotations clean)

some-injective : {a b : PersistentVolume} → some a ≡ some b → a ≡ b
some-injective h = cc

module _ (c : Cluster) (st : Stores c) where
  undo_check_ok :
      (n : String) (s : State c) (p : PersistentVolume)
      → view c st s n ≡ some p
      → (undo_check c n false s).0 ≡ none
      → (cur : PersistentVolume) × (strip cur ≡ p)
        × (view c st (undo_check c n false s).1 ≡ set n (some (strip (released cur))) (view c st s))
  unfolding undo_check
  undo_check_ok n s p held = elim (Result-cases (c.get n s.world).0) [
    | inr (x, g) ↦ rw (g, undo_check) λ no_err. cc
    | inl (cur, g) ↦
        let (named, here) = st.get_ok n s.world cur g in
        rw (g, undo_check)
          λ no_err. (
            cur,
            some-injective (sym here ∙ held),
            st.update_ok (released cur) (c.get n s.world).1 no_err
                ∙ ap (set cur.name (some (strip (released cur)))) (st.stored-get n s.world)
                ∙ ap (λ (m : String). set m (some (strip (released cur))) (view c st s)) named,
          )
  ]

  set-here : (n : String) (p : PersistentVolume) (f : Volumes) → set n (some p) f n ≡ some p
  set-here n p f = rw (==_refl n) refl

  claim-Back :
      (n pipeline_name : String) (pv : PersistentVolume) (s : State c)
      → pv.name ≡ n
      → IsClean pv.annotations
      → view c st s n ≡ some (strip pv)
      → Back c st (claim c n pipeline_name pv s) s
  unfolding claim
  claim-Back n pipeline_name pv s named clean held =
      let now = c.marshal_time (c.now s.world) in
      let claimed : PersistentVolume = record pv {
        annotations = claim_annotations pipeline_name now pv.annotations;
      } in
      elim (Option-cases (c.update claimed s.world).0) [
        | inr (e, f) ↦ rw (f, claim) (st.update_failed claimed s.world e f)
        | inl f ↦
            rw (f, claim)
              λ s' e no_err.
                let e' =
                  e
                  ∙ st.update_ok claimed s.world f
                  ∙ ap (λ (m : String). set m (some (strip claimed)) (view c st s)) named in
                let (cur, same, wrote) =
                  undo_check_ok n s' (strip claimed)
                    (ap (λ (g : Volumes). g n) e' ∙ set-here n (strip claimed) (view c st s))
                    no_err in
                wrote
                ∙ ap (λ (p : PersistentVolume). set n (some p) (view c st s'))
                    (strip-released pipeline_name now pv cur clean same)
                ∙ ap (set n (some (strip pv))) e'
                ∙ set_twice n (some (strip pv)) (some (strip claimed)) (view c st s)
                ∙ set_self n (some (strip pv)) (view c st s) held
      ]

  -- Halting and failing change nothing.
  take_over-Back :
      (r : Bool × Option Error) (n pipeline_name : String) (pv : PersistentVolume) (s : State c)
      → Back c st (claim c n pipeline_name pv s) s
      → Back c st (take_over c r n pipeline_name pv s) s
  unfolding take_over
  take_over-Back (false, _) n pipeline_name pv s h = refl
  take_over-Back (true, some e) n pipeline_name pv s h = refl
  take_over-Back (true, none) n pipeline_name pv s h = h

  check_claim-Back :
      (total : ℕ) (n pipeline_name : String) (pv : PersistentVolume) (s : State c)
      → Back c st (claim c n pipeline_name pv s) s
      → Back c st (check_claim c total n pipeline_name pv s) s
  unfolding check_claim
  check_claim-Back total n pipeline_name pv s h =
      elim (Bool-cases (claimed_by_other c pipeline_name pv.annotations)) [
        | inr b ↦ rw (b, check_claim) h
        | inl b ↦ rw (b, check_claim) (take_over-Back _ n pipeline_name pv s h)
      ]

  step_check-Back :
      (upl : UpdatePipeline) (total : ℕ) (s : State c)
      → ((p : PersistentVolume) → view c st s upl.pv_name ≡ some p → IsClean p.annotations)
      → Back c st (step_check c upl total s) s
  unfolding step_check
  step_check-Back upl total s clean = elim (Result-cases c.hostname) [
    | inr (e, g) ↦ rw (g, step_check) refl
    | inl (pipeline_name, g) ↦
        rw (g, step_check)
          (with_hostpath_pv-Back c st upl.pv_name (check_claim c total upl.pv_name pipeline_name) s
            λ pv s' named same held at. check_claim-Back total upl.pv_name pipeline_name pv s' (
              claim-Back upl.pv_name pipeline_name pv s' named
                (clean (strip pv) (sym (ap (λ (f : Volumes). f upl.pv_name) same) ∙ held)) held))
  ]

  -- AllRevert, for a step and the later ones
  abbrev Then :
      ((State c → Type 0) → State c → Type 1)
      → Action (State c)
      → (State c → Type 0)
      → State c
      → Type 1
  Then K action R s = R s × ComesBack c st K R (action s)

  -- a step that brings back all that is stored
  precise :
      (K : (State c → Type 0) → State c → Type 1) (action : Action (State c)) (s : State c)
      → Back c st (action s) s
      → K (Shows (view c st) (action s).1) (action s).1
      → Then K action (Shows (view c st) s) s
  precise K action s back rest = (
    refl,
    (
      Shows (view c st) (action s).1,
      RevertsBy-Leads (view c st) (action s).0.undo s (action s).1 back,
      refl,
      λ f. rest,
    ),
  )

  -- what the steps after each one come back to
  abbrev AfterRestart : (State c → Type 0) → State c → Type 1
  AfterRestart R s = Unit

  abbrev AfterWait : UpdatePipeline → (State c → Type 0) → State c → Type 1
  AfterWait upl = Then AfterRestart (step_restart_pods c upl)

  abbrev AfterCreate : UpdatePipeline → (State c → Type 0) → State c → Type 1
  AfterCreate upl = Then (AfterWait upl) (step_wait_csi_pv_bound c upl)

  abbrev AfterDelete : UpdatePipeline → (State c → Type 0) → State c → Type 1
  AfterDelete upl = Then (AfterCreate upl) (step_create_csi_pv c upl)

  abbrev AfterTmp : UpdatePipeline → (State c → Type 0) → State c → Type 1
  AfterTmp upl = Then (AfterDelete upl) (step_delete_old_pv c upl)

  abbrev AfterChange : UpdatePipeline → (State c → Type 0) → State c → Type 1
  AfterChange upl = Then (AfterTmp upl) (step_create_tmp_pv c upl)

  abbrev AfterCheck : UpdatePipeline → (State c → Type 0) → State c → Type 1
  AfterCheck upl = Then (AfterChange upl) (step_create_pod_to_change_quota_type c upl)

  deleted-ComesBack : (upl : UpdatePipeline) (s : State c) → AfterDelete upl (Shows (view c st) s) s
  deleted-ComesBack upl s = (
    refl,
    step_create_csi_pv-ComesBack c st (AfterCreate upl) upl s λ made. (
      refl,
      step_wait_csi_pv_bound-ComesBack c st (AfterWait upl) upl made made refl
          λ s' e. (e, step_restart_pods-ComesBack c st AfterRestart upl made s' e λ s'' e'. tt),
    ),
  )

  -- the world in which a pipeline calls DeletePv, if its first three steps go through
  abbrev pub deleting : UpdatePipeline → c.World → c.World
  deleting upl w =
      let checked = (step_check c upl (time_outs c) (fresh c w)).1 in
      let changed = (step_create_pod_to_change_quota_type c upl checked).1 in
      (c.get upl.pv_name (step_create_tmp_pv c upl changed).1.world).1

  update_steps-AllRevert :
      (upl : UpdatePipeline) (w : c.World)
      → ((p : PersistentVolume) → st.stored w upl.pv_name ≡ some p → IsClean p.annotations)
      → FailsWhole c st upl.pv_name (deleting upl w)
      → AllRevert (update_steps c upl) (Shows (view c st) (fresh c w)) (fresh c w)
  unfolding update_steps
  update_steps-AllRevert upl w clean whole =
      precise (AfterCheck upl) (step_check c upl (time_outs c)) (fresh c w)
        (step_check-Back upl (time_outs c) (fresh c w) clean)
        (precise (AfterChange upl) (step_create_pod_to_change_quota_type c upl) _
          (step_create_pod-Back c st upl _)
          (precise (AfterTmp upl) (step_create_tmp_pv c upl) _ (step_create_tmp_pv-Back c st upl _)
            (precise (AfterDelete upl) (step_delete_old_pv c upl) _
              (step_delete_old_pv-Back c st upl _ whole) (deleted-ComesBack upl _))))

  -- A pipeline that ends with an error (of a step, of a time limit or because it is stopped), and
  -- whose undo actions report none, leaves the stored volumes as it found them. The volume has no
  -- claim and not an empty annotation map when it starts; its call of DeletePv for the volume, if it
  -- fails, has changed nothing; what `select` finds before each step is arbitrary; the API server is as
  -- `Stores` says.
  pub upgrade_restores :
      (upl : UpdatePipeline) (poll : ℕ → Poll) (w : c.World)
      → ((p : PersistentVolume) → st.stored w upl.pv_name ≡ some p → IsClean p.annotations)
      → FailsWhole c st upl.pv_name (deleting upl w)
      → (e : Error) → (upgrade c upl poll w).0 ≡ some e
      → (upgrade c upl poll w).1 ≡ []
      → st.stored (upgrade c upl poll w).2.world ≡ st.stored w
  unfolding upgrade
  upgrade_restores upl poll w clean whole =
      run-Restores upl.pv_name poll (update_steps c upl) (Shows (view c st) (fresh c w)) (fresh c w)
        (update_steps-AllRevert upl w clean whole)
