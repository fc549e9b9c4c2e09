-- ===== src/HppvToCsiPv/Upgrade/Service/Emptied.antt =====
-- The goroutine of PVUpdateManager.Start on a healthy cluster: it takes the volumes of its channel one
-- after another, and all of them are converted.
use mathlib.Core.Path.{subst}
use admission_controller.Base.{
  ℕ, String, Bool, true, false, none, some, List, [], ◌∷◌, Bytes, concat, All, ◌≡◌, ◌≢◌, refl, sym,
  ◌∙◌, ◌==◌, ==_false, ==_refl, Option, if◌then◌else◌,
}
use admission_controller.Base.Dict
use admission_controller.Base.Dict.{lookup-delete}
use admission_controller.Api.{PersistentVolume, annotation}
use admission_controller.HppvToCsiPv.Upgrade.Cluster.{Cluster}
use admission_controller.HppvToCsiPv.Upgrade.Engine.{Poll, nothing}
use admission_controller.HppvToCsiPv.Upgrade.Store.{Stores}
use admission_controller.HppvToCsiPv.Upgrade.Steps.Annotate.{updating_pipeline_start_time}
use admission_controller.HppvToCsiPv.Upgrade.Completion.Effects.{IsConverted}
use admission_controller.HppvToCsiPv.Upgrade.Success.Healthy.{IsHealthy, IsAnswered}
use admission_controller.HppvToCsiPv.Upgrade.Success.Upgraded.{upgrade-succeeds}
use admission_controller.HppvToCsiPv.Upgrade.Manager.{received, done}
use admission_controller.HppvToCsiPv.Upgrade.Service.{pipeline_of, Service, upgrade_pv}
use admission_controller.HppvToCsiPv.Upgrade.Service.Settled.{set_other, upgrade_pv-path}

module _ (c : Cluster) (upgrade_image : String) (update_interval : ℕ) where
  abbrev S : Type 0
  S = Service c upgrade_image update_interval

  -- The loop takes a volume from the channel and has it upgraded.
  abbrev pub take_turn : PersistentVolume → List PersistentVolume → (ℕ → Poll) → S → S
  take_turn pv pvs poll s =
      upgrade_pv c upgrade_image update_interval pv poll
        (record s { queue = received pv pvs s.queue })

  -- The loop takes all the volumes of the channel, while no new one comes.
  unfoldable pub take_all : (ℕ → Poll) → List PersistentVolume → S → S
  take_all poll [] s = s
  take_all poll (pv ∷ pvs) s = take_all poll pvs (take_turn pv pvs poll s)

  module _ (st : Stores c) (healthy : IsHealthy c st) (poll : ℕ → Poll)
      (quiet : (i : ℕ) → poll i ≡ nothing) where
    abbrev pub temporary : String → String
    temporary n = concat (c.get_md5_hash n 10 ∷ "-csihostpathpv-tmp" ∷ [])

    -- Under the volume's name stands a host path volume that no pipeline has claimed, and the name for
    -- its temporary volume is free.
    abbrev pub Waits : c.World → PersistentVolume → Type 0
    Waits w pv =
        (p : PersistentVolume) × (path : Bytes) × (st.stored w pv.name ≡ some p)
        × (p.host_path ≡ some path)
        × (annotation p.annotations updating_pipeline_start_time ≡ "")
        × (st.stored w (temporary pv.name) ≡ none)

    abbrev pub HasPath : PersistentVolume → Type 0
    HasPath pv = (path : Bytes) × (pv.host_path ≡ some path)

    -- The pipeline of a volume touches neither the other's name nor the name for its temporary volume.
    abbrev pub IsApart : PersistentVolume → PersistentVolume → Type 0
    IsApart pv q = (pv.name ≢ q.name) × (pv.name ≢ temporary q.name)

    abbrev pub AllApart : List PersistentVolume → Type 0
    AllApart [] = Unit
    AllApart (pv ∷ pvs) = (pv.name ≢ temporary pv.name) × All (IsApart pv) pvs × AllApart pvs

    -- The volume is converted, and its name is not in the map.
    abbrev pub IsServed : S → PersistentVolume → Type 0
    IsServed s pv =
        IsConverted (st.stored s.world pv.name) × (Dict.lookup pv.name s.queue.sync_pv_map ≡ none)

    -- The calls of the pipelines that depend on nodes and controllers succeed, where the loop makes them.
    abbrev pub AllAnswered : List PersistentVolume → S → Type 0
    AllAnswered [] s = Unit
    AllAnswered (pv ∷ pvs) s =
        IsAnswered c (pipeline_of upgrade_image pv) s.world
        × AllAnswered pvs (take_turn pv pvs poll s)

    if_none : (b : Bool) {o : Option Bool} → o ≡ none → (if b then none else o) ≡ none
    if_none true e = refl
    if_none false e = e

    turn-IsServed :
        (pv : PersistentVolume) (pvs : List PersistentVolume) (s : S)
        → HasPath pv
        → pv.name ≢ temporary pv.name
        → Waits s.world pv
        → IsAnswered c (pipeline_of upgrade_image pv) s.world
        → IsServed (take_turn pv pvs poll s) pv
          × ((k : String)
              → pv.name ≢ k
              → st.stored (take_turn pv pvs poll s).world k ≡ st.stored s.world k)
          × ((take_turn pv pvs poll s).queue.sync_pv_chan ≡ pvs)
          × ((k : String)
              → Dict.lookup k s.queue.sync_pv_map ≡ none
              → Dict.lookup k (take_turn pv pvs poll s).queue.sync_pv_map ≡ none)
    unfolding pipeline_of done received
    turn-IsServed pv pvs s (q, path) apart (p, h, held, is, unclaimed, free) answered =
        let upl = pipeline_of upgrade_image pv in
        let (_, tidy, converted, others) =
          upgrade-succeeds c st healthy upl poll quiet p h s.world held is unclaimed apart free
            answered in
        rw
          (upgrade_pv-path c upgrade_image update_interval pv poll
            (record s { queue = received pv pvs s.queue }) q path)
          (
            (converted, rw (lookup-delete, ==_refl pv.name) refl),
            λ k ne. set_other c st pv.name k _ _ (==_false pv.name k ne) others,
            refl,
            λ k absent. rw lookup-delete (if_none (pv.name == k) absent),
          )

    Waits-kept :
        (pv q : PersistentVolume) (s s' : S)
        → ((k : String) → pv.name ≢ k → st.stored s'.world k ≡ st.stored s.world k)
        → IsApart pv q
        → Waits s.world q
        → Waits s'.world q
    Waits-kept pv q s s' same (own, tmp) (p, path, held, is, unclaimed, free) =
        (p, path, same q.name own ∙ held, is, unclaimed, same (temporary q.name) tmp ∙ free)

    All-Waits-kept :
        (pv : PersistentVolume) (pvs : List PersistentVolume) (s s' : S)
        → ((k : String) → pv.name ≢ k → st.stored s'.world k ≡ st.stored s.world k)
        → All (IsApart pv) pvs
        → All (Waits s.world) pvs
        → All (Waits s'.world) pvs
    All-Waits-kept pv [] s s' same apart waiting = tt
    All-Waits-kept pv (q ∷ pvs) s s' same (one, apart) (waits, waiting) =
        (Waits-kept pv q s s' same one waits, All-Waits-kept pv pvs s s' same apart waiting)

    others_apart :
        (pv : PersistentVolume) (pvs : List PersistentVolume)
        → All (IsApart pv) pvs
        → All (λ (q : PersistentVolume). q.name ≢ pv.name) pvs
    others_apart pv [] apart = tt
    others_apart pv (q ∷ pvs) (one, apart) = (λ e. one.0 (sym e), others_apart pv pvs apart)

    -- With no time limit and no stop, the loop empties its channel: if each volume in it is a host path
    -- volume, and stands for a stored one that no pipeline has claimed, with a free name for its
    -- temporary volume, and if the pipeline of none touches the name of another or of a temporary
    -- volume, then all of them are converted in the end and their names are not in the map; and the
    -- volumes of all other names, and the names that were not in the map, are as before. The API server
    -- is as `Stores` and `IsHealthy` say; and where the pipelines make these calls, the paths of their
    -- volumes can be read, the pods that change the quota can be made and end in time, and the new
    -- volumes are bound in time where a pipeline waits for that.
    pub take_all-IsServed :
        (pvs : List PersistentVolume) (s : S)
        → s.queue.sync_pv_chan ≡ pvs
        → AllApart pvs
        → All HasPath pvs
        → All (Waits s.world) pvs
        → AllAnswered pvs s
        → ((take_all poll pvs s).queue.sync_pv_chan ≡ [])
          × All (IsServed (take_all poll pvs s)) pvs
          × ((k : String)
              → All (λ (q : PersistentVolume). q.name ≢ k) pvs
              → st.stored (take_all poll pvs s).world k ≡ st.stored s.world k)
          × ((k : String)
              → Dict.lookup k s.queue.sync_pv_map ≡ none
              → Dict.lookup k (take_all poll pvs s).queue.sync_pv_map ≡ none)
    unfolding take_all
    take_all-IsServed [] s chan apart paths waiting answers =
        (chan, tt, (λ k _. refl), λ k absent. absent)
    take_all-IsServed (pv ∷ pvs) s chan (own, apart, rest_apart) (path, paths) (waits, waiting)
          (answered, answers) =
        let s' = take_turn pv pvs poll s in
        let ((converted, gone), same, left, absent') =
          turn-IsServed pv pvs s path own waits answered in
        let (empty, served, others, absent) =
          take_all-IsServed pvs s' left rest_apart paths
            (All-Waits-kept pv pvs s s' same apart waiting) answers in
        (
          empty,
          (
            (
              subst IsConverted (sym (others pv.name (others_apart pv pvs apart))) converted,
              absent pv.name gone,
            ),
            served,
          ),
          λ k (ne, apart_k). others k apart_k ∙ same k ne,
          λ k none_there. absent k (absent' k none_there),
        )
