-- ===== src/HppvToCsiPv/Upgrade/Claim.antt =====
-- When a pipeline leaves a volume to the pipeline of another host, which has annotated it.
use admission_controller.Base.{
  ℕ, ◌+◌, ◌*◌, ◌≤◌, String, Bool, true, false, Option, none, some, Error, ok, err, ok-injective,
  ◌≡◌, ◌≢◌, refl, inl, inr, ◌⊎◌, ◌↔◌, arith, eq_iff, Option-cases, Result-cases, Bool-cases,
}
use admission_controller.Api.{PersistentVolume, Annotations, annotation}
use admission_controller.HppvToCsiPv.Upgrade.Cluster.{Cluster, second}
use admission_controller.HppvToCsiPv.Upgrade.Engine.{Outcome}
use admission_controller.HppvToCsiPv.Upgrade.Steps.{
  State, claim, is_time_out, take_over, check_claim, time_outs, claimed_by_other,
}
use admission_controller.HppvToCsiPv.Upgrade.Steps.Annotate.{
  updating_pipeline_name, updating_pipeline_start_time, claim_annotations,
}

-- the step ended the pipeline without an error
abbrev pub IsHalted : {S : Type 0} → Outcome S → Type 0
IsHalted o = (o.continues ≡ false) × (o.failure ≡ none)

module _ (c : Cluster) where
  -- The two annotations name another pipeline and a start time.
  abbrev pub IsOthers : String → Annotations → Type 0
  IsOthers pipeline_name a =
      (annotation a updating_pipeline_name ≢ pipeline_name)
      × (annotation a updating_pipeline_start_time ≢ "")

  -- The start time is one that cannot be read, or is at most 2 * 542 seconds ago.
  abbrev pub IsHeld : String → c.World → Type 0
  IsHeld start w =
      ((e : Error) × (c.unmarshal_time start ≡ err e))
      ⊎ ((t : ℕ) × (c.unmarshal_time start ≡ ok t) × (c.now w ≤ t + 1084 * second))

  claimed_by_other_iff :
      (n : String) (a : Annotations) → claimed_by_other c n a ≡ true ↔ IsOthers n a
  unfolding annotation
  claimed_by_other_iff n none = ((λ h. cc), (λ h. absurd (h.1 refl)))
  claimed_by_other_iff n (some m) =
      let e = eq_iff (annotation (some m) updating_pipeline_name) n in
      let e' = eq_iff (annotation (some m) updating_pipeline_start_time) "" in ground (arith, e, e')

  claim-goes_on :
      (n pipeline_name : String) (pv : PersistentVolume) (s : State c)
      → ¬ IsHalted (claim c n pipeline_name pv s).0
  unfolding claim
  claim-goes_on n pipeline_name pv s =
      let claimed : PersistentVolume = record pv {
        annotations =
            claim_annotations pipeline_name (c.marshal_time (c.now s.world)) pv.annotations;
      } in
      elim (Option-cases (c.update claimed s.world).0) [
        | inl f ↦ rw (f, claim) λ h. cc
        | inr (e, f) ↦ rw (f, claim) λ h. cc
      ]

  is_time_out_iff :
      (start : String) (w : c.World)
      → (is_time_out c (time_outs c) start w).0 ≡ false ↔ IsHeld start w
  unfolding is_time_out
  is_time_out_iff start w = elim (Result-cases (c.unmarshal_time start)) [
    | inl (t, h) ↦
        rw (h, is_time_out)
          (
            (λ b. inr (t, refl, ground arith)),
            elim [
              | inl (e, bad) ↦ cc
              | inr (t', same, le) ↦ (let t≡ = ok-injective same in ground arith)
            ],
          )
    | inr (e, h) ↦ rw (h, is_time_out) ((λ b. inl (e, refl)), (λ b. refl))
  ]

  -- the error of isTimeOut comes with `false` only, so it never stops stepCheck
  is_time_out-no_error :
      (total : ℕ) (start : String) (w : c.World)
      → (is_time_out c total start w).0 ≡ true
      → (is_time_out c total start w).1 ≡ none
  unfolding is_time_out
  is_time_out-no_error total start w = elim (Result-cases (c.unmarshal_time start)) [
    | inl (t, h) ↦ rw (h, is_time_out) λ b. refl
    | inr (e, h) ↦ rw (h, is_time_out) λ b. cc
  ]

  take_over-halts_iff :
      (r : Bool × Option Error) (n pipeline_name : String) (pv : PersistentVolume) (s : State c)
      → (r.0 ≡ true → r.1 ≡ none)
      → IsHalted (take_over c r n pipeline_name pv s).0 ↔ (r.0 ≡ false)
  unfolding take_over
  take_over-halts_iff (false, _) n pipeline_name pv s h = ((λ x. refl), (λ x. (refl, refl)))
  take_over-halts_iff (true, some e) n pipeline_name pv s h = absurd (let bad = h refl in cc)
  take_over-halts_iff (true, none) n pipeline_name pv s h =
      ((λ x. absurd (claim-goes_on n pipeline_name pv s x)), (λ x. cc))

  -- stepCheck, on a host path volume it has read, ends the pipeline without an error exactly if the
  -- volume's annotations name another pipeline and a start time, and this start time is one that
  -- cannot be read or is at most 2 * 542 seconds ago.
  pub check_claim-halts_iff :
      (n pipeline_name : String) (pv : PersistentVolume) (s : State c)
      → IsHalted (check_claim c (time_outs c) n pipeline_name pv s).0 ↔ (
          IsOthers pipeline_name pv.annotations
          × IsHeld (annotation pv.annotations updating_pipeline_start_time) s.world)
  unfolding check_claim
  check_claim-halts_iff n pipeline_name pv s =
      let start = annotation pv.annotations updating_pipeline_start_time in
      let others = claimed_by_other_iff pipeline_name pv.annotations in
      let held = is_time_out_iff start s.world in
      elim (Bool-cases (claimed_by_other c pipeline_name pv.annotations)) [
        | inl b ↦
            let t =
              take_over-halts_iff (is_time_out c (time_outs c) start s.world) n pipeline_name pv s
                (is_time_out-no_error (time_outs c) start s.world) in
            rw (b, check_claim) ((λ x. (others.0 b, held.0 (t.0 x))), (λ (_, k). t.1 (held.1 k)))
        | inr b ↦
            rw (b, check_claim)
              (
                (λ x. absurd (claim-goes_on n pipeline_name pv s x)),
                (λ (o, _). absurd (let bad = others.1 o in cc)),
              )
      ]
