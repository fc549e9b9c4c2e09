-- ===== src/HppvToCsiPv/Upgrade/Cluster.antt =====
-- What the upgrade calls outside the repository: the API server's persistent volumes, the functions
-- of kubectl-plugins (`hostpathcmd`), the host name, the clock and the JSON form of a time.
use admission_controller.Base.{ℕ, ◌*◌, String, Bool, Option, List, Error, Result}
use admission_controller.Api.{PersistentVolume}

pub record Cluster : Type 1 where
  -- the state of the world outside the process
  pub World : Type 0
  -- map[string][]string, by node
  pub MountInfos : Type 0
  -- []*v1.Pod
  pub Pods : Type 0
  -- os.Hostname
  pub hostname : Result String
  -- time.Now, in nanoseconds
  pub now : World → ℕ
  -- json.Marshal and json.Unmarshal of a time
  pub marshal_time : ℕ → String
  pub unmarshal_time : String → Result ℕ
  -- client.Core().PersistentVolumes()
  pub get : String → World → Result PersistentVolume × World
  pub update : PersistentVolume → World → Option Error × World
  pub create : PersistentVolume → World → Option Error × World
  -- hostpathcmd
  pub get_pv_quota_paths : PersistentVolume → Result MountInfos
  pub create_pods_to_change_quota_path_type :
      String → String → MountInfos → World → (Pods × Option Error) × World
  pub wait_pods_deleted : String → Pods → Bool → World → Option Error × World
  pub wait_pod_quit : Pods → ℕ → World → Option Error × World
  pub get_md5_hash : String → ℕ → String
  -- the volume to copy is a pointer, which may be nil
  pub create_csi_host_path_pv :
      String → Option PersistentVolume → Bool → World → Option Error × World
  pub delete_pv : String → World → Option Error × World
  pub wait_pv_bound : String → ℕ → World → Option Error × World
  pub get_pvs_using_pods : List String → World → (Pods × List String × Option Error) × World
  pub delete_pods : String → Pods → ℕ → World → Option Error × World

-- time.Duration constants
abbrev pub second : ℕ
second = 1000000000

abbrev pub minute : ℕ
minute = 60 * second

abbrev pub hour : ℕ
hour = 60 * minute
