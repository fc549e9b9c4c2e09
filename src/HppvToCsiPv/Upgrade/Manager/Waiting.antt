-- ===== src/HppvToCsiPv/Upgrade/Manager/Waiting.antt =====
-- How often a name is on the way to its upgrade, and how each step of the manager changes that.
use mathlib.Core.Path.{subst}
use admission_controller.Base.{
  ℕ, suc, ◌+◌, ◌≤◌, String, Bool, true, false, Option, none, some, List, [], ◌∷◌, ◌++◌, ◌≡◌, refl,
  inl, inr, arith, Bool-cases, Option-cases, ◌==◌, if◌then◌else◌, eq_iff,
}
use admission_controller.Base.Dict
use admission_controller.Base.Dict.{Dict}
use admission_controller.Api.{PersistentVolume}
use admission_controller.HppvToCsiPv.Upgrade.Manager.{
  Queue, on_event, sent, received, done, is_pv_wait_sync,
}

abbrev pub one : Option PersistentVolume → List PersistentVolume
one none = []
one (some pv) = pv ∷ []

-- the volumes on the way, the latest first
abbrev pub on_the_way : Queue → List PersistentVolume
on_the_way q = one q.sending ++ q.sync_pv_chan ++ one q.running

-- how many volumes have the name
unfoldable pub times : String → List PersistentVolume → ℕ
times n [] = 0
times n (pv ∷ pvs) = let rest = times n pvs in if pv.name == n then suc rest else rest

-- 1 for a name in the map, 0 for another
abbrev pub marked : String → Dict Bool → ℕ
marked n m = if is_pv_wait_sync n m then 1 else 0

pub times-append :
    (n : String) (xs ys : List PersistentVolume) → times n (xs ++ ys) ≡ times n xs + times n ys
unfolding times
times-append n [] ys = omega arith
times-append n (x ∷ xs) ys = ground (arith, times-append n xs ys)

-- the same, counted place by place
abbrev pub on_its_way : String → Queue → ℕ
on_its_way n q = times n (one q.sending) + times n q.sync_pv_chan + times n (one q.running)

times-append_three :
    (n : String) (xs ys zs : List PersistentVolume)
    → times n (xs ++ ys ++ zs) ≡ times n xs + times n ys + times n zs
times-append_three n xs ys zs = omega (arith, times-append n (xs ++ ys) zs, times-append n xs ys)

pub times-on_the_way : (n : String) (q : Queue) → times n (on_the_way q) ≡ on_its_way n q
times-on_the_way n q = times-append_three n (one q.sending) q.sync_pv_chan (one q.running)

marked-add :
    (n k : String) (m : Dict Bool)
    → marked n (Dict.insert k true m) ≡ (if k == n then 1 else marked n m)
marked-add n k m = ground (arith, Dict.lookup-insert k n true m)

marked-done :
    (n k : String) (m : Dict Bool) → marked n (Dict.delete k m) ≡ (if k == n then 0 else marked n m)
marked-done n k m = ground (arith, Dict.lookup-delete k n m)

times-one :
    (n : String) (pv : PersistentVolume) (b : Bool)
    → (pv.name == n) ≡ b
    → times n (one (some pv)) ≡ (if b then 1 else 0)
unfolding times
times-one n pv true e = rw e refl
times-one n pv false e = rw e refl

-- the new volume was neither in the map nor on the way
pub waits_now :
    (pv : PersistentVolume) (q : Queue) (n : String)
    → q.sending ≡ none
    → is_pv_wait_sync pv.name q.sync_pv_map ≡ false
    → on_its_way n q ≡ marked n q.sync_pv_map
    → times n (one (some pv)) + times n q.sync_pv_chan + times n (one q.running)
      ≡ marked n (Dict.insert pv.name true q.sync_pv_map)
unfolding times
waits_now pv q n free new h =
    let nothing_sent : times n (one q.sending) ≡ 0 = rw free refl in
    let added = marked-add n pv.name q.sync_pv_map in
    elim (Bool-cases (pv.name == n)) [
      | inl e ↦
          let none_marked : marked n q.sync_pv_map ≡ 0 =
            subst (λ k. marked k q.sync_pv_map ≡ 0) ((eq_iff pv.name n).0 e) (rw new refl) in
          omega (arith, times-one n pv true e, nothing_sent, none_marked, rw e at added, h)
      | inr e ↦ omega (arith, times-one n pv false e, nothing_sent, rw e at added, h)
    ]

pub on_event-once :
    (pv : PersistentVolume) (q : Queue) (n : String)
    → q.sending ≡ none
    → on_its_way n q ≡ marked n q.sync_pv_map
    → on_its_way n (on_event pv q) ≡ marked n (on_event pv q).sync_pv_map
unfolding on_event
on_event-once pv q n free h = elim (Option-cases pv.host_path) [
  | inl e ↦ rw (e, on_event) h
  | inr (p, e) ↦ elim (Bool-cases (is_pv_wait_sync pv.name q.sync_pv_map)) [
    | inl w ↦ rw (e, on_event) (rw w h)
    | inr w ↦ rw (e, on_event) (rw w (waits_now pv q n free w h))
  ]
]

-- the volume moves from the handler to the channel
pub sent-once :
    (pv : PersistentVolume) (q : Queue) (n : String)
    → q.sending ≡ some pv
    → on_its_way n (sent pv q) ≡ on_its_way n q
unfolding sent times
sent-once pv q n e =
    let from : times n (one q.sending) ≡ times n (one (some pv)) = rw e refl in
    omega (arith, times-append n q.sync_pv_chan (pv ∷ []), from)

-- and from the channel to the pipeline
pub received-once :
    (pv : PersistentVolume) (rest : List PersistentVolume) (q : Queue) (n : String)
    → q.sync_pv_chan ≡ pv ∷ rest
    → q.running ≡ none
    → on_its_way n (received pv rest q) ≡ on_its_way n q
unfolding received times
received-once pv rest q n e free =
    let from : times n q.sync_pv_chan ≡ times n ((pv ∷ []) ++ rest) = rw e refl in
    let nothing_runs : times n (one q.running) ≡ 0 = rw free refl in
    omega (arith, times-append n (pv ∷ []) rest, from, nothing_runs)

-- and is neither in the map nor on the way when its pipeline is done
pub done-once :
    (pv : PersistentVolume) (q : Queue) (n : String)
    → q.running ≡ some pv
    → on_its_way n q ≡ marked n q.sync_pv_map
    → on_its_way n (done pv q) ≡ marked n (done pv q).sync_pv_map
unfolding done times
done-once pv q n e h =
    let ran : times n (one q.running) ≡ times n (one (some pv)) = rw e refl in
    let removed = marked-done n pv.name q.sync_pv_map in
    let at_most_once : marked n q.sync_pv_map ≤ 1 = ground arith in
    elim (Bool-cases (pv.name == n)) [
      | inl b ↦ omega (arith, times-one n pv true b, ran, rw b at removed, h, at_most_once)
      | inr b ↦ omega (arith, times-one n pv false b, ran, rw b at removed, h)
    ]
