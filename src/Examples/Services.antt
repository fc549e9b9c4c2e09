-- ===== src/Examples/Services.antt =====
-- A cluster on which a pipeline succeeds, and the service on it.
use mathlib.Core.Path.{fun_ext, subst}
use admission_controller.Base.{
  ℕ, zero, suc, String, true, Option, none, some, [], ◌∷◌, Error, Result, ok, err, ◌≡◌, refl, sym,
  ap, inl, inr, ◌==◌, ◌∙◌, eq_iff, ne_of_==, if◌then◌else◌, Bool-cases, Option-cases, ok-injective,
}
use admission_controller.Base.Dict
use admission_controller.Api.{PersistentVolume, annotation}
use admission_controller.HppvToCsiPv.Upgrade.Cluster.{Cluster}
use admission_controller.HppvToCsiPv.Upgrade.Engine.{Poll, nothing}
use admission_controller.HppvToCsiPv.Upgrade.Store.{strip, Volumes, set, set_self, Stores}
use admission_controller.HppvToCsiPv.Upgrade.Completion.Effects.{IsConverted}
use admission_controller.HppvToCsiPv.Upgrade.Success.Healthy.{IsHealthy, IsAnswered}
use admission_controller.HppvToCsiPv.Upgrade.Steps.Annotate.{claim_annotations}
use admission_controller.HppvToCsiPv.Upgrade.Steps.{
  step_check, with_hostpath_pv, check_claim, claim, step_create_pod_to_change_quota_type,
  change_quota_type, step_create_tmp_pv, create_tmp_pv, step_delete_old_pv, delete_old_pv,
  step_create_csi_pv,
}
use admission_controller.HppvToCsiPv.Upgrade.Success.Upgraded.{upgrade-succeeds}
use admission_controller.HppvToCsiPv.Upgrade.Steps.{upgrade}
use admission_controller.Examples.Objects.{data_pv}
use admission_controller.Examples.Upgrades.{pipeline, world, no_error}
use admission_controller.Examples.Upgrades

-- volumes are stored without their names
abbrev pub named : String → PersistentVolume → PersistentVolume
named n pv = record pv { name = n }

abbrev pub missing : Error
missing = record { message = "not found"; not_found = true }

abbrev pub found : String → Option PersistentVolume → Result PersistentVolume
found n none = err missing
found n (some pv) = ok (named n pv)

abbrev pub stripped : String → Option PersistentVolume → Option PersistentVolume
stripped n none = none
stripped n (some pv) = some (strip (named n pv))

abbrev pub csi_of : Option PersistentVolume → PersistentVolume
csi_of none = record data_pv { host_path = none }
csi_of (some pv) = record pv { host_path = none }

pub csi_of-host_path : (old : Option PersistentVolume) → (csi_of old).host_path ≡ none
csi_of-host_path none = refl
csi_of-host_path (some pv) = refl

abbrev pub create_csi : String → Option PersistentVolume → Volumes → Option Error × Volumes
create_csi n old w = elim (w n) [
  | none ↦ (none, set n (some (csi_of old)) w)
  | some pv ↦ (some missing, w)
]

-- every volume has this name for its temporary one
abbrev pub temporary : String
temporary = "0123456789-csihostpathpv-tmp"

-- only an empty list of mounts can be read
abbrev pub quota_paths : PersistentVolume → Result (Unit {0})
quota_paths pv =
    if annotation pv.annotations "io.enndata.kubelet/alpha-pvchostpathnode" == ""
    then ok tt
    else err missing

-- pods quit, and volumes are bound, while somebody waits
abbrev pub quit : ℕ → Volumes → Option Error × Volumes
quit zero w = (some missing, w)
quit (suc i) w = (none, w)

abbrev pub bound : ℕ → String → Option PersistentVolume → Volumes → Option Error × Volumes
bound zero n o w = (some missing, w)
bound (suc i) n none w = (some missing, w)
bound (suc i) n (some pv) w = (none, set n (some (record pv { phase = "Bound" })) w)

abbrev pub cluster : Cluster
cluster = record Upgrades.cluster {
  get_pv_quota_paths = quota_paths;
  wait_pod_quit = λ pods limit w. quit limit w;
  wait_pv_bound = λ n limit w. bound limit n (w n) w;
  get = λ n w. (found n (w n), w);
  get_md5_hash = λ s n. "0123456789";
  create_csi_host_path_pv = λ n old labels w. create_csi n old w;
}

abbrev pub stored : Volumes → Volumes
stored w k = stripped k (w k)

pub stored-set-some :
    (n : String) (v : PersistentVolume) (w : Volumes)
    → stored (set n (some v) w) ≡ set n (some (strip (named n v))) (stored w)
stored-set-some n v w = fun_ext λ k. elim (Bool-cases (n == k)) [
  | inr e ↦ rw e refl
  | inl e ↦ rw e (ap (λ m. some (strip (named m v))) (sym ((eq_iff n k).0 e)))
]

pub stored-set-none : (n : String) (w : Volumes) → stored (set n none w) ≡ set n none (stored w)
stored-set-none n w =
    fun_ext λ k. elim (Bool-cases (n == k)) [ inr e ↦ rw e refl | inl e ↦ rw e refl ]

pub found_ok :
    (n : String) (o : Option PersistentVolume) (pv : PersistentVolume)
    → found n o ≡ ok pv
    → (pv.name ≡ n) × (stripped n o ≡ some (strip pv))
found_ok n none pv h = cc
found_ok n (some q) pv h =
    let same : named n q ≡ pv = ok-injective h in
    (ap (λ (p : PersistentVolume). p.name) (sym same), ap (λ p. some (strip p)) same)

pub csi_ok :
    (n : String) (old : Option PersistentVolume) (w : Volumes)
    → (create_csi n old w).0 ≡ none
    → (stored w n ≡ none)
      × ((pv : PersistentVolume) × (pv.host_path ≡ none)
          × (stored (create_csi n old w).1 ≡ set n (some pv) (stored w)))
csi_ok n old w h = elim (Option-cases (w n)) [
  | inl free ↦ (
    rw free,
    (
      strip (named n (csi_of old)),
      csi_of-host_path old,
      rw (free, create_csi) (stored-set-some n (csi_of old) w),
    ),
  )
  | inr (pv, taken) ↦ cc (rw (taken, create_csi) at h)
]

pub csi_failed :
    (n : String) (old : Option PersistentVolume) (w : Volumes) (e : Error)
    → (create_csi n old w).0 ≡ some e
    → stored (create_csi n old w).1 ≡ stored w
csi_failed n old w e h = elim (Option-cases (w n)) [
  | inl free ↦ cc (rw (free, create_csi) at h)
  | inr (pv, taken) ↦ rw (taken, create_csi) refl
]

pub stored-quit : (limit : ℕ) (w : Volumes) → stored (quit limit w).1 ≡ stored w
stored-quit zero w = refl
stored-quit (suc i) w = refl

pub stored-bound :
    (limit : ℕ) (n : String) (o : Option PersistentVolume) (w : Volumes)
    → w n ≡ o
    → stored (bound limit n o w).1 ≡ stored w
stored-bound zero n o w e = refl
stored-bound (suc i) n none w e = refl
stored-bound (suc i) n (some pv) w e =
    stored-set-some n (record pv { phase = "Bound" }) w
    ∙ set_self n (some (strip (named n pv))) (stored w) (rw e refl)

abbrev pub store : Stores cluster
store = record {
  stored = stored;
  get_ok = λ n w pv h. found_ok n (w n) pv h;
  stored-get = λ n w. refl;
  update_ok = λ pv w h. stored-set-some pv.name pv w;
  update_failed = λ pv w e h. no_error h;
  create_ok = λ pv w h. stored-set-some pv.name pv w;
  delete_ok = λ n w h. stored-set-none n w;
  delete_failed = λ n w e h. no_error h;
  create_csi_ok = λ n old labels w h. csi_ok n old w h;
  create_csi_failed = λ n old labels w e h. csi_failed n old w e h;
  stored-create_pods = λ n image m w. refl;
  stored-wait_pods_deleted = λ node pods force w. refl;
  stored-wait_pod_quit = λ pods limit w. stored-quit limit w;
  wait_pv_bound_others = λ n limit w. ap (set n none) (stored-bound limit n (w n) w refl);
  wait_pv_bound_source = λ n limit w pv h.
      (pv, ap (λ (f : Volumes). f n) (stored-bound limit n (w n) w refl) ∙ h, refl);
  stored-get_pvs_using_pods = λ ns w. refl;
  stored-delete_pods = λ node pods interval w. refl;
}

pub finds :
    (n : String) (o : Option PersistentVolume) (p : PersistentVolume)
    → stripped n o ≡ some p
    → (pv : PersistentVolume) × (found n o ≡ ok pv)
finds n none p h = cc
finds n (some q) p h = (named n q, refl)

pub creates :
    (n : String) (old : Option PersistentVolume) (w : Volumes)
    → stored w n ≡ none
    → (create_csi n old w).0 ≡ none
creates n old w free = elim (Option-cases (w n)) [
  | inl none_there ↦ rw (none_there, create_csi) refl
  | inr (pv, taken) ↦ cc (rw taken at free)
]

abbrev pub healthy : IsHealthy cluster store
healthy = record {
  host = "node-1";
  hostname = refl;
  finds = λ n w p h. finds n (w n) p h;
  updates = λ n w pv annotations h. refl;
  creates_csi = λ n old path labels w is free. creates n (some old) w free;
  deletes = λ n w p h. refl;
  pods_deleted = λ pods w. refl;
}

-- no time limit is reached
abbrev pub on_time : ℕ → Poll
on_time i = nothing

answered : IsAnswered cluster pipeline world
unfolding step_check with_hostpath_pv check_claim annotation Dict.lookup claim claim_annotations
    Dict.insert step_create_pod_to_change_quota_type change_quota_type step_create_tmp_pv
    create_tmp_pv step_delete_old_pv delete_old_pv step_create_csi_pv
answered = (
  (λ pv got. (tt, subst (λ q. quota_paths q ≡ ok tt) (ok-injective got) refl, refl, refl)),
  λ b. refl,
)

upgrade-succeeds_example :
    ((upgrade cluster pipeline on_time world).0 ≡ none)
    × ((upgrade cluster pipeline on_time world).1 ≡ [])
    × IsConverted (stored (upgrade cluster pipeline on_time world).2.world "pv1")
    × (set "pv1" none (stored (upgrade cluster pipeline on_time world).2.world)
        ≡ set "pv1" none (stored world))
unfolding annotation Dict.lookup
upgrade-succeeds_example =
    upgrade-succeeds cluster store healthy pipeline on_time (λ i. refl) (strip data_pv)
      (b'/' ∷ b'd' ∷ b'a' ∷ b't' ∷ b'a' ∷ []) world refl refl refl
      (ne_of_== "pv1" "0123456789-csihostpathpv-tmp" refl) refl answered
