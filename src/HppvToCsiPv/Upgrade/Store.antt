-- ===== src/HppvToCsiPv/Upgrade/Store.antt =====
-- What the upgrade relies on about the persistent volumes of the API server, with no other client
-- writing meanwhile.
use mathlib.Core.Path.{fun_ext}
use admission_controller.Base.{
  ℕ, String, Bool, Option, none, some, List, Error, ok, ◌≡◌, inl, inr, arith, eq_iff, ◌==◌,
  Bool-cases, if◌then◌else◌,
}
use admission_controller.Api.{PersistentVolume}
use admission_controller.HppvToCsiPv.Upgrade.Cluster.{Cluster}

-- A volume but for the version and the phase that the cluster gives it, whenever it likes.
abbrev pub strip : PersistentVolume → PersistentVolume
strip pv = record pv { resource_version = ""; phase = "" }

-- the volumes by name
abbrev pub Volumes : Type 0
Volumes = String → Option PersistentVolume

abbrev pub set : String → Option PersistentVolume → Volumes → Volumes
set n v f k = if n == k then v else f k

pub set_twice :
    (n : String) (v v' : Option PersistentVolume) (f : Volumes) → set n v (set n v' f) ≡ set n v f
set_twice n v v' f = fun_ext λ k. ground arith

pub set_self : (n : String) (v : Option PersistentVolume) (f : Volumes) → f n ≡ v → set n v f ≡ f
set_self n v f h =
    fun_ext λ k. elim (Bool-cases (n == k)) [ inl e ↦ rw (e, ← (eq_iff n k).0 e, h) | inr e ↦ rw e ]

-- `stored` are the volumes that a state of the world holds, but for their versions and phases. A read
-- that succeeds returns what is stored; reads and failed writes change nothing; a write that succeeds
-- changes its own name only, and creating wants a name that is free. DeletePv may fail after it has
-- deleted the volume, when it waits for the end of it. While WaitPVBound waits, the cluster may bind the
-- volume, but gives it no other source. Pods are other objects.
pub record Stores (c : Cluster) : Type 0 where
  pub stored : c.World → Volumes
  pub get_ok :
      (n : String) (w : c.World) (pv : PersistentVolume)
      → (c.get n w).0 ≡ ok pv
      → (pv.name ≡ n) × (stored w n ≡ some (strip pv))
  pub stored-get : (n : String) (w : c.World) → stored (c.get n w).1 ≡ stored w
  pub update_ok :
      (pv : PersistentVolume) (w : c.World)
      → (c.update pv w).0 ≡ none
      → stored (c.update pv w).1 ≡ set pv.name (some (strip pv)) (stored w)
  pub update_failed :
      (pv : PersistentVolume) (w : c.World) (e : Error)
      → (c.update pv w).0 ≡ some e
      → stored (c.update pv w).1 ≡ stored w
  pub create_ok :
      (pv : PersistentVolume) (w : c.World)
      → (c.create pv w).0 ≡ none
      → stored (c.create pv w).1 ≡ set pv.name (some (strip pv)) (stored w)
  pub delete_ok :
      (n : String) (w : c.World)
      → (c.delete_pv n w).0 ≡ none
      → stored (c.delete_pv n w).1 ≡ set n none (stored w)
  pub delete_failed :
      (n : String) (w : c.World) (e : Error)
      → (c.delete_pv n w).0 ≡ some e
      → set n none (stored (c.delete_pv n w).1) ≡ set n none (stored w)
  pub create_csi_ok :
      (n : String) (old : Option PersistentVolume) (labels : Bool) (w : c.World)
      → (c.create_csi_host_path_pv n old labels w).0 ≡ none
      → (stored w n ≡ none)
        × ((pv : PersistentVolume) × (pv.host_path ≡ none)
            × (stored (c.create_csi_host_path_pv n old labels w).1 ≡ set n (some pv) (stored w)))
  pub create_csi_failed :
      (n : String) (old : Option PersistentVolume) (labels : Bool) (w : c.World) (e : Error)
      → (c.create_csi_host_path_pv n old labels w).0 ≡ some e
      → stored (c.create_csi_host_path_pv n old labels w).1 ≡ stored w
  pub stored-create_pods :
      (n image : String) (m : c.MountInfos) (w : c.World)
      → stored (c.create_pods_to_change_quota_path_type n image m w).1 ≡ stored w
  pub stored-wait_pods_deleted :
      (node : String) (pods : c.Pods) (force : Bool) (w : c.World)
      → stored (c.wait_pods_deleted node pods force w).1 ≡ stored w
  pub stored-wait_pod_quit :
      (pods : c.Pods) (limit : ℕ) (w : c.World) → stored (c.wait_pod_quit pods limit w).1 ≡ stored w
  pub wait_pv_bound_others :
      (n : String) (limit : ℕ) (w : c.World)
      → set n none (stored (c.wait_pv_bound n limit w).1) ≡ set n none (stored w)
  pub wait_pv_bound_source :
      (n : String) (limit : ℕ) (w : c.World) (pv : PersistentVolume)
      → stored w n ≡ some pv
      → (pv' : PersistentVolume) × (stored (c.wait_pv_bound n limit w).1 n ≡ some pv')
        × (pv'.host_path ≡ pv.host_path)
  pub stored-get_pvs_using_pods :
      (ns : List String) (w : c.World) → stored (c.get_pvs_using_pods ns w).1 ≡ stored w
  pub stored-delete_pods :
      (node : String) (pods : c.Pods) (interval : ℕ) (w : c.World)
      → stored (c.delete_pods node pods interval w).1 ≡ stored w
