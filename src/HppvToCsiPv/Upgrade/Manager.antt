-- ===== src/HppvToCsiPv/Upgrade/Manager.antt =====
-- PVUpdateManager.Start (hostpthpvupdate.go): the volumes that wait for their upgrade. The informer
-- calls the event handlers one after another; a handler marks a volume as waiting and sends it on a
-- channel of 100 places, and one goroutine takes the volumes and runs a pipeline for each.
pub mod Waiting
pub mod Draining
pub mod Line
pub mod Lifecycle
pub mod Stopping
pub mod Invariant
use admission_controller.Base.{
  ℕ, ◌<◌, String, Bool, true, false, Option, none, some, List, [], ◌∷◌, ◌++◌, ◌≡◌, length,
}
use admission_controller.Base.Dict
use admission_controller.Base.Dict.{Dict}
use admission_controller.Api.{PersistentVolume}

abbrev pub channel_size : ℕ
channel_size = 100

pub record Queue : Type 0 where
  -- syncPVMap
  pub sync_pv_map : Dict Bool
  -- the volume that a handler is sending, until the channel takes it
  pub sending : Option PersistentVolume
  -- syncPVChan, the first to be taken first
  pub sync_pv_chan : List PersistentVolume
  -- the volume whose pipeline runs
  pub running : Option PersistentVolume
  -- the goroutine has received from stopCh, and left its loop
  pub exited : Bool

-- what Start makes
abbrev pub start : Queue
start = record {
  sync_pv_map = [];
  sending = none;
  sync_pv_chan = [];
  running = none;
  exited = false;
}

-- isPVWaitSync
abbrev pub is_pv_wait_sync : String → Dict Bool → Bool
is_pv_wait_sync pv_name m = elim (Dict.lookup pv_name m) [ some _ ↦ true | none ↦ false ]

-- pvSyncAdd
abbrev pub pv_sync_add : String → Dict Bool → Dict Bool
pv_sync_add pv_name m = Dict.insert pv_name true m

-- pvSyncDone
abbrev pub pv_sync_done : String → Dict Bool → Dict Bool
pv_sync_done pv_name m = Dict.delete pv_name m

-- AddFunc, and UpdateFunc with the new object, up to the send
unfoldable pub on_event : PersistentVolume → Queue → Queue
on_event new_pv q = elim new_pv.host_path [
  | none ↦ q
  | some _ ↦ elim (is_pv_wait_sync new_pv.name q.sync_pv_map) [
    | true ↦ q
    | false ↦ record q {
      sync_pv_map = pv_sync_add new_pv.name q.sync_pv_map;
      sending = some new_pv;
    }
  ]
]

-- the channel takes the volume
unfoldable pub sent : PersistentVolume → Queue → Queue
sent pv q = record q { sending = none; sync_pv_chan = q.sync_pv_chan ++ pv ∷ [] }

-- the goroutine receives a volume
unfoldable pub received : PersistentVolume → List PersistentVolume → Queue → Queue
received pv rest q = record q { sync_pv_chan = rest; running = some pv }

-- the pipeline is done
unfoldable pub done : PersistentVolume → Queue → Queue
done pv q = record q { sync_pv_map = pv_sync_done pv.name q.sync_pv_map; running = none }

-- the goroutine receives from stopCh
unfoldable pub left : Queue → Queue
left q = record q { exited = true }

-- The goroutine looks at its two channels: no pipeline runs, and it has not left its loop.
abbrev pub IsIdle : Queue → Type 0
IsIdle q = (q.running ≡ none) × (q.exited ≡ false)

-- One step: an event while no handler sends, a send while there is a place, a receive while no
-- pipeline runs and the loop goes on, the end of the pipeline, or the end of the loop, which a closed
-- stopCh may bring whenever the goroutine looks at its channels.
pub data Step : Queue → Queue → Type 0 where
  event : {q : Queue} (pv : PersistentVolume) → q.sending ≡ none → Step q (on_event pv q)
  send :
      {q : Queue} (pv : PersistentVolume)
      → q.sending ≡ some pv
      → length q.sync_pv_chan < channel_size
      → Step q (sent pv q)
  receive :
      {q : Queue} (pv : PersistentVolume) (rest : List PersistentVolume)
      → q.sync_pv_chan ≡ pv ∷ rest
      → IsIdle q
      → Step q (received pv rest q)
  finish : {q : Queue} (pv : PersistentVolume) → q.running ≡ some pv → Step q (done pv q)
  exit : {q : Queue} → IsIdle q → Step q (left q)

-- Some steps lead to the queue.
pub data IsReachable : Queue → Type 0 where
  started : IsReachable start
  next : {q q' : Queue} → IsReachable q → Step q q' → IsReachable q'
