-- ===== src/HppvToCsiPv/Upgrade/Success/Healthy.antt =====
-- A cluster on which the calls of a pipeline succeed, in the states in which it makes them.
use admission_controller.Base.{String, Bool, true, none, some, Bytes, ok, ◌≡◌}
use admission_controller.Api.{PersistentVolume, Annotations}
use admission_controller.HppvToCsiPv.Upgrade.Cluster.{Cluster}
use admission_controller.HppvToCsiPv.Upgrade.Store.{Stores}
use admission_controller.HppvToCsiPv.Upgrade.Steps.{
  UpdatePipeline, State, step_check, step_create_pod_to_change_quota_type, step_create_tmp_pv,
  step_delete_old_pv, step_create_csi_pv, time_outs, fresh,
}

-- The API server takes its requests: a stored volume is found; what has just been read can be written
-- back with other annotations; a free name can be taken for the copy of a host path volume, and a stored
-- volume and pods can be deleted.
pub record IsHealthy (c : Cluster) (st : Stores c) : Type 0 where
  pub host : String
  pub hostname : c.hostname ≡ ok host
  pub finds :
      (n : String) (w : c.World) (p : PersistentVolume)
      → st.stored w n ≡ some p
      → (pv : PersistentVolume) × ((c.get n w).0 ≡ ok pv)
  pub updates :
      (n : String) (w : c.World) (pv : PersistentVolume) (annotations : Annotations)
      → (c.get n w).0 ≡ ok pv
      → (c.update (record pv { annotations = annotations }) (c.get n w).1).0 ≡ none
  pub creates_csi :
      (n : String) (old : PersistentVolume) (path : Bytes) (labels : Bool) (w : c.World)
      → old.host_path ≡ some path
      → st.stored w n ≡ none
      → (c.create_csi_host_path_pv n (some old) labels w).0 ≡ none
  pub deletes :
      (n : String) (w : c.World) (p : PersistentVolume)
      → st.stored w n ≡ some p
      → (c.delete_pv n w).0 ≡ none
  pub pods_deleted : (pods : c.Pods) (w : c.World) → (c.wait_pods_deleted "" pods true w).0 ≡ none

module _ (c : Cluster) (upl : UpdatePipeline) where
  -- The calls of a pipeline that depend on nodes and controllers, where the run makes them: the volume
  -- names its paths so that they can be read, the pods that change the quota are made and end in time;
  abbrev pub Changes : State c → Type 0
  Changes s =
      (pv : PersistentVolume)
      → (c.get upl.pv_name s.world).0 ≡ ok pv
      → (m : c.MountInfos) × (c.get_pv_quota_paths pv ≡ ok m)
        × ((c.create_pods_to_change_quota_path_type upl.pv_name upl.upgrade_image m
              (c.get upl.pv_name s.world).1).0.1
            ≡ none)
        × ((c.wait_pod_quit
              (c.create_pods_to_change_quota_path_type upl.pv_name upl.upgrade_image m
                (c.get upl.pv_name s.world).1).0.0
              120
              (c.create_pods_to_change_quota_path_type upl.pv_name upl.upgrade_image m
                (c.get upl.pv_name s.world).1).1).0
            ≡ none)

  -- and the new volume is bound in time, if the run waits for that.
  abbrev pub Binds : State c → Type 0
  Binds s = upl.need_wait_bound ≡ true → (c.wait_pv_bound upl.pv_name 40 s.world).0 ≡ none

  -- the states in which the run begins its second step, and its fourth, fifth and sixth
  abbrev pub checked : c.World → State c
  checked w = (step_check c upl (time_outs c) (fresh c w)).1

  abbrev pub BindsFromTmp : State c → Type 0
  BindsFromTmp s = Binds (step_create_csi_pv c upl (step_delete_old_pv c upl s).1).1

  abbrev pub BindsFromCheck : State c → Type 0
  BindsFromCheck s =
      BindsFromTmp (step_create_tmp_pv c upl (step_create_pod_to_change_quota_type c upl s).1).1

  abbrev pub IsAnswered : c.World → Type 0
  IsAnswered w = Changes (checked w) × BindsFromCheck (checked w)
