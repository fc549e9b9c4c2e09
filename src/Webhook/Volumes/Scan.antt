-- ===== src/Webhook/Volumes/Scan.antt =====
-- What the loop over a pod's volumes decides: the first volume that is not clear settles it.
use admission_controller.Base.{
  Bool, true, false, Option, none, some, List, [], ◌∷◌, Error, Result, ok, err, ◌≡◌, refl, ◌↔◌, ◌⊎◌,
  inl, inr, All, arith, ◌∙◌,
}
use admission_controller.Api.{Pod, Volume, PersistentVolume}
use admission_controller.Webhook.Volumes.{Algorithm, volume_error, scan_volumes}

module _ (algorithm : Algorithm) (pod : Pod) where
  open algorithm use {get_pod_volume_pv, is_common_host_path_pv}

  -- The volume has no persistent volume, or one that is no host path volume.
  abbrev pub IsClear : Volume → Type 0
  IsClear v =
      (get_pod_volume_pv pod v ≡ ok none)
      ⊎ ((pv : PersistentVolume) × (get_pod_volume_pv pod v ≡ ok (some pv))
          × (is_common_host_path_pv pv ≡ false))

  -- The volume's persistent volume is a host path volume.
  abbrev pub UsesHostPath : Volume → Type 0
  UsesHostPath v =
      (pv : PersistentVolume) × (get_pod_volume_pv pod v ≡ ok (some pv))
      × (is_common_host_path_pv pv ≡ true)

  -- The lookup of the volume's persistent volume fails.
  abbrev pub Fails : Volume → Type 0
  Fails v = (e : Error) × (get_pod_volume_pv pod v ≡ err e)

  -- Some volume satisfies P, and all the volumes before it are clear.
  abbrev pub First : (Volume → Type 0) → List Volume → Type 0
  First P [] = ⊥
  First P (v ∷ vs) = P v ⊎ IsClear v × First P vs

  data Verdict (v : Volume) : Type 0 where
    clear : IsClear v → Verdict v
    uses : UsesHostPath v → Verdict v
    fails : Fails v → Verdict v

  verdict : (v : Volume) → Verdict v
  verdict v = go (get_pod_volume_pv pod v) refl
    where
      found :
          (pv : PersistentVolume) (b : Bool)
          → get_pod_volume_pv pod v ≡ ok (some pv)
          → is_common_host_path_pv pv ≡ b
          → Verdict v
      found pv true e h = uses (pv, e, h)
      found pv false e h = clear (inr (pv, e, h))

      go : (r : Result (Option PersistentVolume)) → get_pod_volume_pv pod v ≡ r → Verdict v
      go (err x) e = fails (x, e)
      go (ok none) e = clear (inl e)
      go (ok (some pv)) e = found pv (is_common_host_path_pv pv) e refl

  scan-clear :
      (v : Volume) (vs : List Volume)
      → IsClear v
      → scan_volumes algorithm pod (v ∷ vs) ≡ scan_volumes algorithm pod vs
  unfolding scan_volumes
  scan-clear v vs c = ground arith

  scan-uses :
      (v : Volume) (vs : List Volume)
      → UsesHostPath v
      → scan_volumes algorithm pod (v ∷ vs) ≡ ok true
  unfolding scan_volumes
  scan-uses v vs u = ground arith

  scan-Fails :
      (v : Volume) (vs : List Volume)
      → Fails v
      → (e : Error) × (scan_volumes algorithm pod (v ∷ vs) ≡ err e)
  unfolding scan_volumes
  scan-Fails v vs (e, h) = (volume_error algorithm pod v e.message, rw (h, scan_volumes))

  -- what the three possible results say of the volumes
  abbrev Says : Result Bool → List Volume → Type 0
  Says (ok true) vs = First UsesHostPath vs
  Says (ok false) vs = All IsClear vs
  Says (err e) vs = First Fails vs

  Says-clear :
      (r : Result Bool) (v : Volume) (vs : List Volume) → IsClear v → Says r vs → Says r (v ∷ vs)
  Says-clear (ok true) v vs c s = inr (c, s)
  Says-clear (ok false) v vs c s = (c, s)
  Says-clear (err e) v vs c s = inr (c, s)

  pub scan-Says : (vs : List Volume) → Says (scan_volumes algorithm pod vs) vs
  scan-Says [] = unfold scan_volumes in tt
  scan-Says (v ∷ vs) = elim (verdict v) [
    | clear c ↦ rw (scan-clear v vs c) (Says-clear _ v vs c (scan-Says vs))
    | uses u ↦ rw (scan-uses v vs u) (inl u)
    | fails f ↦ let (e, h) = scan-Fails v vs f in rw h (inl f)
  ]

  scan_uses : (vs : List Volume) → First UsesHostPath vs → scan_volumes algorithm pod vs ≡ ok true
  scan_uses [] h = absurd h
  scan_uses (v ∷ vs) (inl u) = scan-uses v vs u
  scan_uses (v ∷ vs) (inr (c, h)) = scan-clear v vs c ∙ scan_uses vs h

  scan_clear : (vs : List Volume) → All IsClear vs → scan_volumes algorithm pod vs ≡ ok false
  scan_clear [] h = unfold scan_volumes in refl
  scan_clear (v ∷ vs) (c, h) = scan-clear v vs c ∙ scan_clear vs h

  scan-First :
      (vs : List Volume) → First Fails vs → (e : Error) × (scan_volumes algorithm pod vs ≡ err e)
  scan-First [] h = absurd h
  scan-First (v ∷ vs) (inl f) = scan-Fails v vs f
  scan-First (v ∷ vs) (inr (c, h)) = rw (scan-clear v vs c) (scan-First vs h)

  -- The scan answers yes exactly if the first volume that is not clear is a host path volume, no
  -- exactly if all are clear, and fails exactly if the first that is not clear cannot be looked up.
  pub scan_volumes_iff :
      (vs : List Volume)
      → ((scan_volumes algorithm pod vs ≡ ok true) ↔ First UsesHostPath vs)
        × ((scan_volumes algorithm pod vs ≡ ok false) ↔ All IsClear vs)
        × (((e : Error) × (scan_volumes algorithm pod vs ≡ err e)) ↔ First Fails vs)
  scan_volumes_iff vs = (
    (λ e. rw e at (scan-Says vs), scan_uses vs),
    (λ e. rw e at (scan-Says vs), scan_clear vs),
    (λ (x, e). rw e at (scan-Says vs), scan-First vs),
  )
