-- ===== src/Examples/Queues.antt =====
-- The upgrade manager with one volume, whose handler has sent it.
use admission_controller.Base.{
  true, false, none, some, [], ◌⊎◌, ◌||◌, ◌≤◌, String, ◌≡◌, refl, length, arith,
}
use admission_controller.Base.Dict
use admission_controller.HppvToCsiPv.Upgrade.Manager.{
  Queue, start, on_event, sent, event, send, receive, received, IsReachable, started, next,
}
use admission_controller.HppvToCsiPv.Upgrade.Manager.Waiting.{on_the_way, times, marked}
use admission_controller.HppvToCsiPv.Upgrade.Manager.Invariant.{reachable-times}
use admission_controller.HppvToCsiPv.Upgrade.Manager.Draining.{
  stay, work, IsStopped, IsDrained, CanWork, Drain-ends,
}
use admission_controller.HppvToCsiPv.Upgrade.Manager.Line.{Refines, step-Refines}
use admission_controller.HppvToCsiPv.Upgrade.Manager.Lifecycle
use admission_controller.HppvToCsiPv.Upgrade.Manager.Lifecycle.{
  PvUpdateManager, new_pv_update_manager, start_check, start_running, start_loop, stop,
}
use admission_controller.HppvToCsiPv.Upgrade.Manager.Stopping.{
  start-IsReachable, reachable-stop, restart-stop,
}
use admission_controller.Examples.Objects.{data_pv}

abbrev waiting : Queue
waiting = sent data_pv (on_event data_pv start)

waiting-IsReachable : IsReachable waiting
unfolding on_event Dict.lookup
waiting-IsReachable = next (next started (event data_pv refl)) (send data_pv refl (omega arith))

reachable-times_example :
    ((n : String) → times n (on_the_way waiting) ≡ marked n waiting.sync_pv_map)
    × (length waiting.sync_pv_chan ≤ 100)
reachable-times_example = reachable-times waiting waiting-IsReachable

Drain-ends_example :
    (1 ≤ 205)
    × (IsStopped (received data_pv [] waiting)
        ⊎ (IsDrained (received data_pv [] waiting) ⊎ CanWork (received data_pv [] waiting)))
unfolding sent on_event Dict.lookup
Drain-ends_example =
    Drain-ends 1 waiting (received data_pv [] waiting) waiting-IsReachable
      (work (receive data_pv [] refl (refl, refl)) tt stay)

step-Refines_example : Refines waiting (received data_pv [] waiting)
unfolding sent on_event Dict.lookup
step-Refines_example =
    step-Refines waiting (received data_pv [] waiting) waiting-IsReachable
      (receive data_pv [] refl (refl, refl))

-- the manager that main starts
abbrev manager : PvUpdateManager
manager = Lifecycle.start true new_pv_update_manager

reachable-stop_example :
    (m : PvUpdateManager) × (stop manager ≡ some m)
    × (m.running ≡ false)
    × (m.stopped ≡ (manager.stopped || manager.running))
reachable-stop_example = reachable-stop 1 manager (start-IsReachable true) (omega arith)

restart-stop_example : (m : PvUpdateManager) × Lifecycle.IsReachable 2 m × (stop m ≡ none)
unfolding Lifecycle.start start_check start_running start_loop new_pv_update_manager
restart-stop_example = restart-stop 1 manager (start-IsReachable true) refl refl
