-- ===== src/HppvToCsiPv/Upgrade/Service.antt =====
-- The whole upgrade service of PVUpdateManager.Start (hostpthpvupdate.go): the queue of Manager, and
-- for each volume that leaves it a pipeline on the API server.
pub mod Settled
pub mod Emptied
use admission_controller.Base.{
  ℕ, ◌<◌, String, ◌==◌, ◌≡◌, Option, none, some, List, [], ◌∷◌, length, Error,
}
use admission_controller.Api.{PersistentVolume}
use admission_controller.HppvToCsiPv.Upgrade.Cluster.{Cluster}
use admission_controller.HppvToCsiPv.Upgrade.Engine.{Poll}
use admission_controller.HppvToCsiPv.Upgrade.Steps.{UpdatePipeline, upgrade}
use admission_controller.HppvToCsiPv.Upgrade.Manager
use admission_controller.HppvToCsiPv.Upgrade.Manager.{Queue, done}

-- v1.VolumeBound
abbrev pub volume_bound : String
volume_bound = "Bound"

-- the parameters with which Start calls createPVUpdatePipeline
unfoldable pub pipeline_of : String → PersistentVolume → UpdatePipeline
pipeline_of upgrade_image pv = record {
  pv_name = pv.name;
  need_wait_bound = pv.phase == volume_bound;
  upgrade_image = upgrade_image;
}

abbrev pub pause_after : ℕ → Option Error → ℕ
pause_after update_interval none = update_interval
pause_after update_interval (some e) = 0

module _ (c : Cluster) (upgrade_image : String) (update_interval : ℕ) where
  open c use {World}

  pub record Service : Type 0 where
    pub queue : Queue
    pub world : World
    pub pause : ℕ  -- how long the goroutine sleeps before it looks at its channels again

  -- The body of the goroutine's loop, for a volume that it has received: a pipeline for a host path
  -- volume, whose name leaves the map when it is done, and a pause if it ended without an error. A
  -- volume without a host path is passed over, and its name stays in the map.
  unfoldable pub upgrade_pv : PersistentVolume → (ℕ → Poll) → Service → Service
  upgrade_pv pv poll s = elim pv.host_path [
    | none ↦ record s { queue = record s.queue { running = none } }
    | some _ ↦
        let (failed, errs, state) = upgrade c (pipeline_of upgrade_image pv) poll s.world in
        record {
          queue = done pv s.queue;
          world = state.world;
          pause = pause_after update_interval failed;
        }
  ]

  abbrev pub begin : World → Service
  begin w = record { queue = Manager.start; world = w; pause = 0 }

  -- One step: an event while no handler sends, a send while there is a place, a receive while no
  -- pipeline runs and the loop goes on, the end of the loop at a closed stopCh, or a turn of the loop
  -- for the volume received.
  pub data Step : Service → Service → Type 0 where
    event :
        {s : Service} (pv : PersistentVolume)
        → s.queue.sending ≡ none
        → Step s (record s { queue = Manager.on_event pv s.queue })
    send :
        {s : Service} (pv : PersistentVolume)
        → s.queue.sending ≡ some pv
        → length s.queue.sync_pv_chan < Manager.channel_size
        → Step s (record s { queue = Manager.sent pv s.queue })
    receive :
        {s : Service} (pv : PersistentVolume) (rest : List PersistentVolume)
        → s.queue.sync_pv_chan ≡ pv ∷ rest
        → Manager.IsIdle s.queue
        → Step s (record s { queue = Manager.received pv rest s.queue })
    exit :
        {s : Service} → Manager.IsIdle s.queue → Step s (record s { queue = Manager.left s.queue })
    turn :
        {s : Service} (pv : PersistentVolume) (poll : ℕ → Poll)
        → s.queue.running ≡ some pv
        → Step s (upgrade_pv pv poll s)

  -- The step's pipeline, if it runs one, starts where it is safe, and its undo actions report no error.
  abbrev pub IsTidy : (UpdatePipeline → World → Type 0) → {s s' : Service} → Step s s' → Type 0
  IsTidy Safe (event _ _) = Unit
  IsTidy Safe (send _ _ _) = Unit
  IsTidy Safe (receive _ _ _ _) = Unit
  IsTidy Safe (exit _) = Unit
  IsTidy Safe {s} (turn pv poll _) =
      let upl = pipeline_of upgrade_image pv in
      Safe upl s.world × ((upgrade c upl poll s.world).1 ≡ [])

  -- Some tidy steps lead from the beginning to the service.
  pub data Runs (Safe : UpdatePipeline → World → Type 0) (w : World) : Service → Type 0 where
    begun : Runs Safe w (begin w)
    next : {s s' : Service} → Runs Safe w s → (step : Step s s') → IsTidy Safe step → Runs Safe w s'
