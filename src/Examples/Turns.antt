-- ===== src/Examples/Turns.antt =====
-- The upgrade service on a cluster with one volume: the volume's event, the channel, and its pipeline.
use mathlib.Core.Path.{subst}
use admission_controller.Base.{
  Bool, true, none, List, All, String, some, ◌∷◌, ◌≢◌, if◌then◌else◌, [], ◌≡◌, refl, some-injective,
  ok, ok-injective, inl, inr, ◌==◌, ne_of_==, Bool-cases, arith,
}
use admission_controller.Base.Dict
use admission_controller.Api.{PersistentVolume, annotation}
use admission_controller.HppvToCsiPv.Upgrade.Engine.{run, run_steps, recover}
use admission_controller.HppvToCsiPv.Upgrade.Store.{strip, set, Volumes}
use admission_controller.HppvToCsiPv.Upgrade.Frame.Others.{upgrade_others}
use admission_controller.HppvToCsiPv.Upgrade.Steps.{
  upgrade, update_steps, step_check, with_hostpath_pv, check_claim, claim,
  step_create_pod_to_change_quota_type, change_quota_type, step_create_tmp_pv, create_tmp_pv,
  undo_check, step_delete_old_pv, delete_old_pv, undo_delete, step_create_csi_pv,
  undo_create_csi_pv, step_wait_csi_pv_bound, step_restart_pods,
}
use admission_controller.HppvToCsiPv.Upgrade.Steps.Clean.{IsClean}
use admission_controller.HppvToCsiPv.Upgrade.Manager as Manager
use admission_controller.HppvToCsiPv.Upgrade.Service.{
  Service, pipeline_of, upgrade_pv, begin, event, send, receive, turn, Runs, begun, next,
}
use admission_controller.HppvToCsiPv.Upgrade.Service.Settled.{Runs-IsKept, IsKept, IsSafe, AllClean}
use admission_controller.HppvToCsiPv.Upgrade.Service.Emptied.{
  take_all, take_turn, IsServed, take_all-IsServed,
}
use admission_controller.HppvToCsiPv.Upgrade.Success.Healthy.{IsAnswered}
use admission_controller.HppvToCsiPv.Upgrade.Steps.Annotate.{claim_annotations}
use admission_controller.Examples.Objects.{data_pv}
use admission_controller.Examples.Upgrades.{pipeline, world, no_error}
use admission_controller.Examples.Services.{
  cluster, healthy, store, stored, on_time, temporary, named, quota_paths,
}

-- what the tests below compute with
runs : Bool
unfolding upgrade run run_steps update_steps step_check with_hostpath_pv check_claim annotation
    Dict.lookup claim step_create_pod_to_change_quota_type change_quota_type step_create_tmp_pv
    create_tmp_pv recover undo_check step_delete_old_pv delete_old_pv undo_delete step_create_csi_pv
    undo_create_csi_pv step_wait_csi_pv_bound step_restart_pods pipeline_of claim_annotations
    Dict.insert
runs = true

upgrade_others_example :
    set "pv1" none (stored (upgrade cluster pipeline on_time world).2.world)
    ≡ set "pv1" none (stored world)
unfolding runs
upgrade_others_example = upgrade_others cluster store pipeline on_time world refl

abbrev Upgrading : Type 0
Upgrading = Service cluster "image" 60

abbrev informed : Upgrading
informed =
    let b = begin cluster "image" 60 world in record b { queue = Manager.on_event data_pv b.queue }

abbrev waiting : Upgrading
waiting = record informed { queue = Manager.sent data_pv informed.queue }

abbrev taken : Upgrading
taken = record waiting { queue = Manager.received data_pv [] waiting.queue }

abbrev upgraded : Upgrading
upgraded = upgrade_pv cluster "image" 60 data_pv on_time taken

safe : IsSafe cluster store (pipeline_of "image" data_pv) taken.world
unfolding pipeline_of
safe = ((λ pv named. ne_of_== "0123456789-csihostpathpv-tmp" "pv1" refl), (λ e h. no_error h))

one_turn : Runs cluster "image" 60 (IsSafe cluster store) world upgraded
unfolding runs Manager.on_event Manager.sent Manager.received
one_turn =
    next
      (next (next (next begun (event data_pv refl) tt) (send data_pv refl (omega arith)) tt)
        (receive data_pv [] refl (refl, refl)) tt)
      (turn data_pv on_time refl) (safe, refl)

all_clean : AllClean cluster store (stored world)
unfolding Dict.lookup
all_clean n p h = elim (Bool-cases ("pv1" == n)) [
  | inl e ↦
      let same : strip (named n data_pv) ≡ p = some-injective (rw e at h) in
      subst (λ (q : PersistentVolume). IsClean q.annotations) same (refl, refl)
  | inr e ↦ absurd (cc (rw e at h))
]

Runs-IsKept_example :
    Manager.IsReachable upgraded.queue × IsKept cluster store (stored world) upgraded.world
Runs-IsKept_example = Runs-IsKept cluster "image" 60 store world upgraded all_clean one_turn

pause_after_success : upgraded.pause ≡ 60
unfolding runs upgrade_pv
pause_after_success = refl

-- two volumes wait in the channel
abbrev second_pv : PersistentVolume
second_pv = record data_pv { name = "pv2" }

abbrev two_volumes : Volumes
two_volumes k = if "pv1" == k then some data_pv else if "pv2" == k then some second_pv else none

abbrev both : List PersistentVolume
both = data_pv ∷ second_pv ∷ []

abbrev filled : Upgrading
filled =
    let b = begin cluster "image" 60 two_volumes in
    record b {
      queue = record b.queue {
        sync_pv_map = ("pv1", true) ∷ ("pv2", true) ∷ [];
        sync_pv_chan = both;
      };
    }

-- the state in which the second volume's turn comes
abbrev halfway : Upgrading
halfway = take_turn cluster "image" 60 data_pv (second_pv ∷ []) on_time filled

answers :
    IsAnswered cluster (pipeline_of "image" data_pv) filled.world
    × IsAnswered cluster (pipeline_of "image" second_pv) halfway.world
unfolding runs upgrade_pv Manager.received Manager.done
answers =
    let readable : (pv qv : PersistentVolume)
        → ok pv ≡ ok qv
        → quota_paths pv ≡ ok tt
        → quota_paths qv ≡ ok tt =
      λ pv qv got readable. subst (λ q. quota_paths q ≡ ok tt) (ok-injective got) readable in
    (
      ((λ pv got. (tt, readable _ pv got refl, refl, refl)), λ b. refl),
      ((λ pv got. (tt, readable _ pv got refl, refl, refl)), λ b. refl),
    )

abbrev emptied : Upgrading
emptied = take_all cluster "image" 60 on_time both filled

take_all-IsServed_example :
    (emptied.queue.sync_pv_chan ≡ [])
    × All (IsServed cluster "image" 60 store healthy on_time (λ i. refl) emptied) both
    × ((k : String)
        → All (λ (q : PersistentVolume). q.name ≢ k) both
        → stored emptied.world k ≡ stored filled.world k)
    × ((k : String)
        → Dict.lookup k filled.queue.sync_pv_map ≡ none
        → Dict.lookup k emptied.queue.sync_pv_map ≡ none)
unfolding annotation Dict.lookup
take_all-IsServed_example =
    take_all-IsServed cluster "image" 60 store healthy on_time (λ i. refl) both filled refl
      (
        ne_of_== "pv1" temporary refl,
        ((ne_of_== "pv1" "pv2" refl, ne_of_== "pv1" temporary refl), tt),
        (ne_of_== "pv2" temporary refl, tt, tt),
      )
      ((_, refl), ((_, refl), tt))
      ((_, _, refl, refl, refl, refl), ((_, _, refl, refl, refl, refl), tt))
      (answers.0, (answers.1, tt))
