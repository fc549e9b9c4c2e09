-- ===== src/HppvToCsiPv/Upgrade/Steps.antt =====
-- The seven steps of the pipeline and createPVUpdatePipeline (hostpthpvupdate.go).
pub mod Annotate
pub mod Clean
use admission_controller.Base.{
  ℕ, ◌+◌, ◌-◌, ◌*◌, String, Bool, true, false, not, ◌&&◌, Option, none, some, List, [], ◌∷◌, Error,
  Result, ok, err, errorf, concat, ltb, ◌==◌, ◌≡◌, refl, if◌then◌else◌,
}
use admission_controller.Api.{PersistentVolume, Annotations, annotation}
use admission_controller.HppvToCsiPv.Upgrade.Cluster.{Cluster, second, minute}
use admission_controller.HppvToCsiPv.Upgrade.Engine.{
  Poll, Undo, Outcome, Action, PipelineStep, total_time_out, exit_ok, run,
}
use Annotate.{
  updating_pipeline_name, updating_pipeline_start_time, claim_annotations, release_annotations,
}

-- the parameters of a pipeline, which do not change while it runs
pub record UpdatePipeline : Type 0 where
  pub pv_name : String
  pub need_wait_bound : Bool
  pub upgrade_image : String

abbrev pub fail : {S : Type 0} → Error → S → Outcome S × S
fail e s = (record { continues = false; undo = none; failure = some e }, s)

abbrev pub fail_undo : {S : Type 0} → Undo S → Error → S → Outcome S × S
fail_undo u e s = (record { continues = false; undo = some u; failure = some e }, s)

abbrev pub halt : {S : Type 0} → S → Outcome S × S
halt s = (record { continues = false; undo = none; failure = none }, s)

abbrev pub continue : {S : Type 0} → Option (Undo S) → S → Outcome S × S
continue u s = (record { continues = true; undo = u; failure = none }, s)

module _ (c : Cluster) where
  open c use {World}

  -- What the steps change: the field saveOldPV and the world.
  pub record State : Type 0 where
    pub save_old_pv : Option PersistentVolume
    pub world : World

  -- a call on the world, as a call on the state
  abbrev pub on_world : {A : Type 0} → (World → A × World) → State → A × State
  on_world f s = let (a, w) = f s.world in (a, record s { world = w })

  abbrev pub not_hostpath : PersistentVolume → Error
  not_hostpath pv = errorf (concat ("pv " ∷ pv.name ∷ " is not hostpathpv" ∷ []))

  -- how the zero time is printed, which is what the error below shows
  abbrev zero_time : String
  zero_time = "0001-01-01 00:00:00 +0000 UTC"

  -- isTimeOut, given the value of TimeOut. A start in the future gives a negative difference, which
  -- is not above the limit either.
  unfoldable pub is_time_out : ℕ → String → World → Bool × Option Error
  is_time_out total start_time_str w = elim (c.unmarshal_time start_time_str) [
    | err e ↦ (
      false,
      some (errorf (concat ("Unmarshal timestr " ∷ zero_time ∷ " err:" ∷ e.message ∷ []))),
    )
    | ok start_time ↦ (ltb (total * 2) (c.now w - start_time), none)
  ]

  -- the undo action of stepCheck
  unfoldable pub undo_check : String → Undo State
  undo_check pv_name true s = (none, s)
  undo_check pv_name false s =
      let (got, s') = on_world (c.get pv_name) s in
      elim got [
        | err e ↦ (some e, s')
        | ok cur_pv ↦
            on_world
              (c.update (record cur_pv { annotations = release_annotations cur_pv.annotations })) s'
      ]

  abbrev pub get_now_time_str : World → String
  get_now_time_str w = c.marshal_time (c.now w)

  -- stepCheck from the point where the volume may be claimed
  unfoldable pub claim : String → String → PersistentVolume → Action State
  claim pv_name pipeline_name pv s =
      let claimed : PersistentVolume = record pv {
        annotations = claim_annotations pipeline_name (get_now_time_str s.world) pv.annotations;
      } in
      let (failed, s') = on_world (c.update claimed) s in
      elim failed [ some e ↦ fail e s' | none ↦ continue (some (undo_check pv_name)) s' ]

  -- the volume is annotated by another pipeline, with a start time
  abbrev pub claimed_by_other : String → Annotations → Bool
  claimed_by_other pipeline_name none = false
  claimed_by_other pipeline_name (some m) =
      not (annotation (some m) updating_pipeline_name == pipeline_name)
      && not (annotation (some m) updating_pipeline_start_time == "")

  -- what stepCheck does about another pipeline's claim, by the result of isTimeOut
  unfoldable pub take_over : Bool × Option Error → String → String → PersistentVolume → Action State
  take_over (false, _) pv_name pipeline_name pv s = halt s
  take_over (true, some e) pv_name pipeline_name pv s = fail e s
  take_over (true, none) pv_name pipeline_name pv s = claim pv_name pipeline_name pv s

  unfoldable pub check_claim : ℕ → String → String → PersistentVolume → Action State
  check_claim total pv_name pipeline_name pv s =
      if claimed_by_other pipeline_name pv.annotations
      then take_over
          (is_time_out total (annotation pv.annotations updating_pipeline_start_time) s.world)
          pv_name pipeline_name pv s
      else claim pv_name pipeline_name pv s

  -- Get, and the test that the volume is a host path volume: the head of four of the steps
  unfoldable pub with_hostpath_pv : String → (PersistentVolume → Action State) → Action State
  with_hostpath_pv pv_name rest s =
      let (got, s') = on_world (c.get pv_name) s in
      elim got [
        | err e ↦ fail e s'
        | ok pv ↦ elim pv.host_path [ none ↦ fail (not_hostpath pv) s' | some _ ↦ rest pv s' ]
      ]

  unfoldable pub step_check : UpdatePipeline → ℕ → Action State
  step_check upl total s = elim c.hostname [
    | err e ↦ fail e s
    | ok pipeline_name ↦
        with_hostpath_pv upl.pv_name (check_claim total upl.pv_name pipeline_name) s
  ]

  abbrev pub undo_pods : c.Pods → Undo State
  undo_pods pods exit_ok = on_world (c.wait_pods_deleted "" pods true)

  -- stepCreatePodToChangeQuotaType after Get; the undo action is returned beside an error too
  unfoldable pub change_quota_type : UpdatePipeline → PersistentVolume → Action State
  change_quota_type upl pv s = elim (c.get_pv_quota_paths pv) [
    | err e ↦ fail e s
    | ok node_mount_infos ↦
        let ((pods, failed), s') =
          on_world
            (c.create_pods_to_change_quota_path_type upl.pv_name upl.upgrade_image node_mount_infos)
            s in
        elim failed [
          | some e ↦ fail_undo (undo_pods pods) e s'
          | none ↦
              let (quit, s'') = on_world (c.wait_pod_quit pods 120) s' in
              elim quit [
                | some e ↦ fail_undo (undo_pods pods) e s''
                | none ↦ continue (some (undo_pods pods)) s''
              ]
        ]
  ]

  unfoldable pub step_create_pod_to_change_quota_type : UpdatePipeline → Action State
  step_create_pod_to_change_quota_type upl = with_hostpath_pv upl.pv_name (change_quota_type upl)

  abbrev pub tmp_pv_name : PersistentVolume → String
  tmp_pv_name pv = concat (c.get_md5_hash pv.name 10 ∷ "-csihostpathpv-tmp" ∷ [])

  unfoldable pub create_tmp_pv : PersistentVolume → Action State
  create_tmp_pv pv s =
      let (failed, s') = on_world (c.create_csi_host_path_pv (tmp_pv_name pv) (some pv) false) s in
      elim failed [
        | some e ↦ fail e s'
        | none ↦ continue (some (λ exit_ok. on_world (c.delete_pv (tmp_pv_name pv)))) s'
      ]

  unfoldable pub step_create_tmp_pv : UpdatePipeline → Action State
  step_create_tmp_pv upl = with_hostpath_pv upl.pv_name create_tmp_pv

  -- the undo action of stepDeleteOldPV
  unfoldable pub undo_delete : PersistentVolume → Undo State
  undo_delete pv true s = (none, s)
  undo_delete pv false s = on_world (c.create pv) s

  unfoldable pub delete_old_pv : UpdatePipeline → PersistentVolume → Action State
  delete_old_pv upl pv s =
      let (failed, s') = on_world (c.delete_pv upl.pv_name) (record s { save_old_pv = some pv }) in
      elim failed [ some e ↦ fail e s' | none ↦ continue (some (undo_delete pv)) s' ]

  unfoldable pub step_delete_old_pv : UpdatePipeline → Action State
  step_delete_old_pv upl = with_hostpath_pv upl.pv_name (delete_old_pv upl)

  -- the undo action of stepCreateCSIPV
  unfoldable pub undo_create_csi_pv : String → Undo State
  undo_create_csi_pv pv_name true s = (none, s)
  undo_create_csi_pv pv_name false s = on_world (c.delete_pv pv_name) s

  unfoldable pub step_create_csi_pv : UpdatePipeline → Action State
  step_create_csi_pv upl s =
      let (failed, s') = on_world (c.create_csi_host_path_pv upl.pv_name s.save_old_pv true) s in
      elim failed [
        | some e ↦ fail e s'
        | none ↦ continue (some (undo_create_csi_pv upl.pv_name)) s'
      ]

  unfoldable pub step_wait_csi_pv_bound : UpdatePipeline → Action State
  step_wait_csi_pv_bound upl s = elim upl.need_wait_bound [
    | true ↦
        let (failed, s') = on_world (c.wait_pv_bound upl.pv_name 40) s in
        elim failed [ some e ↦ fail e s' | none ↦ continue none s' ]
    | false ↦ continue none s
  ]

  -- Neither error stops the step.
  unfoldable pub step_restart_pods : UpdatePipeline → Action State
  step_restart_pods upl s =
      let ((dps, delete_names, failed), s') =
        on_world (c.get_pvs_using_pods (upl.pv_name ∷ [])) s in
      let (err_delete, s'') = on_world (c.delete_pods "" dps minute) s' in continue none s''

  -- The time limits of the steps, in order.
  abbrev pub time_outs : ℕ
  time_outs =
      3 * second
      + (3 * minute + (3 * second + (3 * second + (3 * second + (50 * second + (5 * minute + 0))))))

  -- createPVUpdatePipeline. stepCheck reads the sum of the limits through the pipeline it is part
  -- of: it is given here, and `total_time_out-update_steps` says that it is the sum.
  unfoldable pub update_steps : UpdatePipeline → List (PipelineStep State)
  update_steps upl =
      record { name = "Check"; action = step_check upl time_outs; time_out = 3 * second }
      ∷ record {
        name = "CreateChangePod";
        action = step_create_pod_to_change_quota_type upl;
        time_out = 3 * minute;
      }
      ∷ record { name = "CreateTmpPV"; action = step_create_tmp_pv upl; time_out = 3 * second }
      ∷ record { name = "DeleteOldPV"; action = step_delete_old_pv upl; time_out = 3 * second }
      ∷ record { name = "CreateCSIPV"; action = step_create_csi_pv upl; time_out = 3 * second }
      ∷ record {
        name = "WaitCSIPVBound";
        action = step_wait_csi_pv_bound upl;
        time_out = 50 * second;
      }
      ∷ record { name = "RestartPods"; action = step_restart_pods upl; time_out = 5 * minute }
      ∷ []

  total_time_out-update_steps :
      (upl : UpdatePipeline) → total_time_out (update_steps upl) ≡ time_outs
  unfolding total_time_out update_steps
  total_time_out-update_steps upl = refl

  -- the state of a pipeline that has not run
  abbrev pub fresh : World → State
  fresh w = record { save_old_pv = none; world = w }

  -- A pipeline's whole run on the world
  unfoldable pub upgrade : UpdatePipeline → (ℕ → Poll) → World → Option Error × List Error × State
  upgrade upl poll w = run upl.pv_name poll (update_steps upl) (fresh w)
