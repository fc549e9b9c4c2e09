-- ===== src/HppvToCsiPv/Upgrade/Manager/Lifecycle.antt =====
-- The starting and stopping of a PVUpdateManager (hostpthpvupdate.go): calls of Start and Stop and the
-- goroutines that Start makes, in any interleaving. Start reads `running` under the lock and sets it
-- later, without the lock, so these are two steps. The client and the interval between two upgrades are left
-- out.
use admission_controller.Base.{
  ℕ, suc, ◌-◌, ◌<◌, Bool, true, false, Option, none, some, ◌≡◌, if◌then◌else◌,
}

pub record PvUpdateManager : Type 0 where
  pub running : Bool
  -- stopCh is closed
  pub stopped : Bool
  -- the calls of Start that have found it not running, and not set it yet
  pub starting : ℕ
  -- the calls of Start that have set it, and not made their goroutine yet
  pub syncing : ℕ
  -- the goroutines
  pub loops : ℕ

unfoldable pub new_pv_update_manager : PvUpdateManager
new_pv_update_manager = record {
  running = false;
  stopped = false;
  starting = 0;
  syncing = 0;
  loops = 0;
}

abbrev pub is_running : PvUpdateManager → Bool
is_running m = m.running

-- Start until it has called IsRunning: the manager if Start goes on
unfoldable pub start_check : PvUpdateManager → Option PvUpdateManager
start_check m = if is_running m then none else some (record m { starting = suc m.starting })

-- `pvum.running = true`, the informer and its handlers
unfoldable pub start_running : PvUpdateManager → PvUpdateManager
start_running m = record m { running = true; starting = m.starting - 1; syncing = suc m.syncing }

-- the rest of Start, with the answer of WaitForCacheSync: Start fails, or makes the goroutine
unfoldable pub start_loop : Bool → PvUpdateManager → PvUpdateManager
start_loop synced m = record m {
  syncing = m.syncing - 1;
  loops = if synced then suc m.loops else m.loops;
}

-- Start as a whole, with no other step between
unfoldable pub start : Bool → PvUpdateManager → PvUpdateManager
start synced m = elim (start_check m) [ none ↦ m | some m' ↦ start_loop synced (start_running m') ]

-- A goroutine receives nil from stopCh, leaves its loop and runs its deferred function.
unfoldable pub loop_exit : PvUpdateManager → PvUpdateManager
loop_exit m = record m { running = false; loops = m.loops - 1 }

-- Stop; `none` is the panic of closing a channel that is closed.
unfoldable pub stop : PvUpdateManager → Option PvUpdateManager
stop m =
    if m.running
    then if m.stopped then none else some (record m { stopped = true; running = false })
    else some m

-- A step, which a call of Start begins if it is `true`.
pub data Step : Bool → PvUpdateManager → PvUpdateManager → Type 0 where
  check : {m m' : PvUpdateManager} → start_check m ≡ some m' → Step true m m'
  set_running : {m : PvUpdateManager} → 0 < m.starting → Step false m (start_running m)
  sync : {m : PvUpdateManager} (synced : Bool) → 0 < m.syncing → Step false m (start_loop synced m)
  exit : {m : PvUpdateManager} → m.stopped ≡ true → 0 < m.loops → Step false m (loop_exit m)
  stops : {m m' : PvUpdateManager} → stop m ≡ some m' → Step false m m'

abbrev pub count : Bool → ℕ → ℕ
count true n = suc n
count false n = n

-- Some steps lead to the manager, with so many calls of Start that go on.
pub data IsReachable : ℕ → PvUpdateManager → Type 0 where
  made : IsReachable 0 new_pv_update_manager
  next :
      {n : ℕ} {b : Bool} {m m' : PvUpdateManager}
      → IsReachable n m
      → Step b m m'
      → IsReachable (count b n) m'
