-- ===== src/Examples/Versioned.antt =====
-- A cluster whose objects have versions, and the deletion of a volume of it.
use admission_controller.Base.{
  String, Option, none, some, Error, errorf, Result, ok, err, ◌≡◌, ◌≢◌, refl, ap, sym, ◌∙◌,
  ok-injective, inl, inr, ◌==◌, if◌then◌else◌, Bool-cases, Result-cases, ne_of_==, ==_false,
}
use admission_controller.Api.{PersistentVolume}
use admission_controller.HppvToCsiPv.Upgrade.Cluster.{Cluster}
use admission_controller.HppvToCsiPv.Upgrade.Store.{strip, Volumes, set, Stores}
use admission_controller.HppvToCsiPv.Upgrade.Steps.{
  fresh, step_delete_old_pv, with_hostpath_pv, delete_old_pv,
}
use admission_controller.HppvToCsiPv.Upgrade.Rollback.Versions.{
  Versions, IsLost, step_delete_old_pv-IsLost,
}
use admission_controller.Examples.Upgrades.{
  stripped, checked, cluster, stored, checked_ok, stored-set, csi_ok, csi_failed, no_error,
  pipeline, world,
}

abbrev stamped : Result PersistentVolume → Result PersistentVolume
stamped (err e) = err e
stamped (ok pv) = ok (record pv { resource_version = "7" })

abbrev refusal : Error
refusal = errorf "resourceVersion should not be set on objects to be created"

abbrev create_new : PersistentVolume → Volumes → Option Error × Volumes
create_new pv w =
    if pv.resource_version == "" then (none, set pv.name (some pv) w) else (some refusal, w)

abbrev versioned : Cluster
versioned = record cluster {
  get = λ n w. (stamped (checked n (w n)), w);
  create = λ pv w. create_new pv w;
}

stamped_ok :
    (n : String) (o : Option PersistentVolume) (pv : PersistentVolume)
    → stamped (checked n o) ≡ ok pv
    → (pv.name ≡ n) × (stripped o ≡ some (strip pv)) × (pv.resource_version ≡ "7")
stamped_ok n o pv h = elim (Result-cases (checked n o)) [
  | inr (e, c) ↦ absurd (let lost = rw c at h in cc)
  | inl (q, c) ↦
      let same : record q { resource_version = "7" } ≡ pv = ok-injective (rw c at h) in
      let (named, held) = checked_ok n o q c in
      (
        ap (λ (p : PersistentVolume). p.name) (sym same) ∙ named,
        held ∙ ap (λ (p : PersistentVolume). some (strip p)) same,
        ap (λ (p : PersistentVolume). p.resource_version) (sym same),
      )
]

created_ok :
    (pv : PersistentVolume) (w : Volumes)
    → (create_new pv w).0 ≡ none
    → stored (create_new pv w).1 ≡ set pv.name (some (strip pv)) (stored w)
created_ok pv w h = elim (Bool-cases (pv.resource_version == "")) [
  | inl new ↦ rw new (stored-set pv.name (some pv) w)
  | inr old ↦ cc (rw old at h)
]

refused :
    (pv : PersistentVolume) (w : Volumes)
    → pv.resource_version ≢ ""
    → (e : Error) × ((create_new pv w).0 ≡ some e) × (stored (create_new pv w).1 ≡ stored w)
refused pv w version = rw (==_false pv.resource_version "" version) (refusal, refl, refl)

abbrev store : Stores versioned
store = record {
  stored = stored;
  get_ok = λ n w pv h. let (named, held, _) = stamped_ok n (w n) pv h in (named, held);
  stored-get = λ n w. refl;
  update_ok = λ pv w h. stored-set pv.name (some pv) w;
  update_failed = λ pv w e h. no_error h;
  create_ok = λ pv w h. created_ok pv w h;
  delete_ok = λ n w h. stored-set n none w;
  delete_failed = λ n w e h. no_error h;
  create_csi_ok = λ n old labels w h. csi_ok n old w h;
  create_csi_failed = λ n old labels w e h. csi_failed n old w e h;
  stored-create_pods = λ n image m w. refl;
  stored-wait_pods_deleted = λ node pods force w. refl;
  stored-wait_pod_quit = λ pods limit w. refl;
  wait_pv_bound_others = λ n limit w. refl;
  wait_pv_bound_source = λ n limit w pv h. (pv, h, refl);
  stored-get_pvs_using_pods = λ ns w. refl;
  stored-delete_pods = λ node pods interval w. refl;
}

abbrev versions : Versions versioned store
versions = record {
  get_versioned = λ n w pv h.
      let (_, _, version) = stamped_ok n (w n) pv h in
      λ empty. ne_of_== "7" "" refl (sym version ∙ empty);
  create_refuses = λ pv w h. refused pv w h;
}

step_delete_old_pv-IsLost_example :
    IsLost versioned store versions
      (step_delete_old_pv versioned pipeline (fresh versioned world)).0
unfolding step_delete_old_pv with_hostpath_pv delete_old_pv
step_delete_old_pv-IsLost_example =
    step_delete_old_pv-IsLost versioned store versions pipeline (fresh versioned world) refl
