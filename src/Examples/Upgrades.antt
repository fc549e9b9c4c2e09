-- ===== src/Examples/Upgrades.antt =====
-- A concrete cluster, and the upgrade of a volume of it that runs into a time limit.
use mathlib.Core.Path.{fun_ext, subst}
use admission_controller.Base.{
  ℕ, zero, suc, String, Bool, true, false, Option, none, some, [], Error, errorf, Result, ok, err,
  ◌≡◌, refl, ◌↔◌, ap, sym, ◌∙◌, ok-injective, inl, inr, ◌==◌, eq_iff, if◌then◌else◌, Bool-cases,
  Option-cases,
}
use admission_controller.Base.Dict
use admission_controller.Api.{PersistentVolume, annotation}
use admission_controller.HppvToCsiPv.Upgrade.Cluster.{Cluster}
use admission_controller.HppvToCsiPv.Upgrade.Engine.{
  Poll, nothing, timed_out, run, run_steps, recover, pipeline_error,
}
use admission_controller.HppvToCsiPv.Upgrade.Brackets.{brackets, run-brackets}
use admission_controller.HppvToCsiPv.Upgrade.Store.{strip, Volumes, set, Stores}
use admission_controller.HppvToCsiPv.Upgrade.Completion.Effects.{IsConverted}
use admission_controller.HppvToCsiPv.Upgrade.Completion.Converted.{upgrade-IsConverted}
use admission_controller.HppvToCsiPv.Upgrade.Steps.{
  tmp_pv_name, step_delete_old_pv, delete_old_pv, undo_delete, step_create_csi_pv,
  undo_create_csi_pv, step_wait_csi_pv_bound, step_restart_pods,
}
use admission_controller.Base.{◌≢◌, ne_of_==, ◌⊎◌}
use admission_controller.HppvToCsiPv.Upgrade.Steps.{
  UpdatePipeline, check_claim, time_outs, update_steps, fresh, upgrade, step_check,
  with_hostpath_pv, claim, step_create_pod_to_change_quota_type, change_quota_type,
  step_create_tmp_pv, create_tmp_pv, undo_check,
}
use admission_controller.HppvToCsiPv.Upgrade.Steps.Annotate.{updating_pipeline_start_time}
use admission_controller.HppvToCsiPv.Upgrade.Steps.Clean.{IsClean}
use admission_controller.HppvToCsiPv.Upgrade.Claim.{
  IsHalted, IsOthers, IsHeld, check_claim-halts_iff,
}
use admission_controller.HppvToCsiPv.Upgrade.Rollback.Restored.{upgrade_restores}
use admission_controller.Examples.Objects.{data_pv}

abbrev pub stripped : Option PersistentVolume → Option PersistentVolume
stripped none = none
stripped (some pv) = some (strip pv)

abbrev missing : Error
missing = errorf "not found"

-- the volume under its own name
abbrev pub checked : String → Option PersistentVolume → Result PersistentVolume
checked n none = err missing
checked n (some pv) = if pv.name == n then ok pv else err missing

abbrev csi_of : Option PersistentVolume → PersistentVolume
csi_of none = record data_pv { host_path = none }
csi_of (some pv) = record pv { host_path = none }

csi_of-host_path : (old : Option PersistentVolume) → (csi_of old).host_path ≡ none
csi_of-host_path none = refl
csi_of-host_path (some pv) = refl

abbrev pub create_csi : String → Option PersistentVolume → Volumes → Option Error × Volumes
create_csi n old w = elim (w n) [
  | none ↦ (none, set n (some (csi_of old)) w)
  | some pv ↦ (some missing, w)
]

abbrev pub cluster : Cluster
cluster = record {
  World = Volumes;
  MountInfos = Unit;
  Pods = Unit;
  hostname = ok "node-1";
  now = λ w. 7;
  marshal_time = λ t. "now";
  unmarshal_time = λ s. ok 5;
  get = λ n w. (checked n (w n), w);
  update = λ pv w. (none, set pv.name (some pv) w);
  create = λ pv w. (none, set pv.name (some pv) w);
  get_pv_quota_paths = λ pv. ok tt;
  create_pods_to_change_quota_path_type = λ n image m w. ((tt, none), w);
  wait_pods_deleted = λ node pods force w. (none, w);
  wait_pod_quit = λ pods limit w. (none, w);
  get_md5_hash = λ s n. "0123456789";
  create_csi_host_path_pv = λ n old labels w. create_csi n old w;
  delete_pv = λ n w. (none, set n none w);
  wait_pv_bound = λ n limit w. (none, w);
  get_pvs_using_pods = λ ns w. ((tt, [], none), w);
  delete_pods = λ node pods interval w. (none, w);
}

abbrev pub stored : Volumes → Volumes
stored w k = stripped (w k)

pub checked_ok :
    (n : String) (o : Option PersistentVolume) (pv : PersistentVolume)
    → checked n o ≡ ok pv
    → (pv.name ≡ n) × (stripped o ≡ some (strip pv))
checked_ok n none pv h = cc
checked_ok n (some q) pv h = elim (Bool-cases (q.name == n)) [
  | inl e ↦
      let same : q ≡ pv = ok-injective (rw e at h) in
      (
        ap (λ (p : PersistentVolume). p.name) (sym same) ∙ (eq_iff q.name n).0 e,
        ap (λ p. some (strip p)) same,
      )
  | inr e ↦ cc (rw e at h)
]

stripped-if :
    (b : Bool) (v u : Option PersistentVolume)
    → stripped (if b then v else u) ≡ (if b then stripped v else stripped u)
stripped-if true v u = refl
stripped-if false v u = refl

pub stored-set :
    (n : String) (v : Option PersistentVolume) (w : Volumes)
    → stored (set n v w) ≡ set n (stripped v) (stored w)
stored-set n v w = fun_ext λ k. stripped-if (n == k) v (w k)

pub csi_ok :
    (n : String) (old : Option PersistentVolume) (w : Volumes)
    → (create_csi n old w).0 ≡ none
    → (stored w n ≡ none)
      × ((pv : PersistentVolume) × (pv.host_path ≡ none)
          × (stored (create_csi n old w).1 ≡ set n (some pv) (stored w)))
csi_ok n old w h = elim (Option-cases (w n)) [
  | inl free ↦ (
    rw free,
    (
      strip (csi_of old),
      csi_of-host_path old,
      rw (free, create_csi) (stored-set n (some (csi_of old)) w),
    ),
  )
  | inr (pv, taken) ↦ cc (rw (taken, create_csi) at h)
]

pub csi_failed :
    (n : String) (old : Option PersistentVolume) (w : Volumes) (e : Error)
    → (create_csi n old w).0 ≡ some e
    → stored (create_csi n old w).1 ≡ stored w
csi_failed n old w e h = elim (Option-cases (w n)) [
  | inl free ↦ cc (rw (free, create_csi) at h)
  | inr (pv, taken) ↦ rw (taken, create_csi) refl
]

pub no_error : {X : Type 0} {e : Error} → none ≡ some e → X
no_error h = cc

abbrev store : Stores cluster
store = record {
  stored = stored;
  get_ok = λ n w pv h. checked_ok n (w n) pv h;
  stored-get = λ n w. refl;
  update_ok = λ pv w h. stored-set pv.name (some pv) w;
  update_failed = λ pv w e h. no_error h;
  create_ok = λ pv w h. stored-set pv.name (some pv) w;
  delete_ok = λ n w h. stored-set n none w;
  delete_failed = λ n w e h. no_error h;
  create_csi_ok = λ n old labels w h. csi_ok n old w h;
  create_csi_failed = λ n old labels w e h. csi_failed n old w e h;
  stored-create_pods = λ n image m w. refl;
  stored-wait_pods_deleted = λ node pods force w. refl;
  stored-wait_pod_quit = λ pods limit w. refl;
  wait_pv_bound_others = λ n limit w. refl;
  wait_pv_bound_source = λ n limit w pv h. (pv, h, refl);
  stored-get_pvs_using_pods = λ ns w. refl;
  stored-delete_pods = λ node pods interval w. refl;
}

abbrev pub pipeline : UpdatePipeline
pipeline = record { pv_name = "pv1"; need_wait_bound = true; upgrade_image = "image" }

-- the time limit of the fourth step
abbrev late : ℕ → Poll
late (suc (suc (suc zero))) = timed_out
late _ = nothing

abbrev pub world : Volumes
world k = if "pv1" == k then some data_pv else none

run-brackets_example :
    run "pv1" late (update_steps cluster pipeline) (fresh cluster world)
    ≡ brackets "pv1" late (update_steps cluster pipeline) 0 (fresh cluster world)
run-brackets_example = run-brackets "pv1" late (update_steps cluster pipeline) (fresh cluster world)

world-IsClean : (p : PersistentVolume) → stored world "pv1" ≡ some p → IsClean p.annotations
unfolding Dict.lookup
world-IsClean p e =
    let same : strip data_pv ≡ p = cc e in
    subst (λ (q : PersistentVolume). IsClean q.annotations) same (refl, refl)

upgrade_restores_example : stored (upgrade cluster pipeline late world).2.world ≡ stored world
unfolding upgrade run run_steps update_steps step_check with_hostpath_pv check_claim annotation
    Dict.lookup claim step_create_pod_to_change_quota_type change_quota_type step_create_tmp_pv
    create_tmp_pv recover undo_check
upgrade_restores_example =
    upgrade_restores cluster store pipeline late world world-IsClean (λ e h. no_error h)
      (pipeline_error "pv1" "timeout") refl refl

check_claim-halts_iff_example :
    IsHalted
      (check_claim cluster (time_outs cluster) "pv1" "node-1" data_pv (fresh cluster world)).0
    ↔ (IsOthers cluster "node-1" data_pv.annotations
        × IsHeld cluster (annotation data_pv.annotations updating_pipeline_start_time) world)
check_claim-halts_iff_example =
    check_claim-halts_iff cluster "pv1" "node-1" data_pv (fresh cluster world)

-- no time limit is reached
abbrev on_time : ℕ → Poll
on_time i = nothing

other_name : (pv : PersistentVolume) → pv.name ≡ "pv1" → tmp_pv_name cluster pv ≢ "pv1"
other_name pv e = ne_of_== "0123456789-csihostpathpv-tmp" "pv1" refl

upgrade-IsConverted_example :
    IsConverted (stored (upgrade cluster pipeline on_time world).2.world "pv1")
    ⊎ (stored (upgrade cluster pipeline on_time world).2.world "pv1" ≡ stored world "pv1")
unfolding upgrade run run_steps update_steps step_check with_hostpath_pv check_claim annotation
    Dict.lookup claim step_create_pod_to_change_quota_type change_quota_type step_create_tmp_pv
    create_tmp_pv recover undo_check step_delete_old_pv delete_old_pv undo_delete step_create_csi_pv
    undo_create_csi_pv step_wait_csi_pv_bound step_restart_pods
upgrade-IsConverted_example =
    upgrade-IsConverted cluster store pipeline world on_time other_name refl
