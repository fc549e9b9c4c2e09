-- ===== src/HppvToCsiPv/Upgrade/Manager/Invariant.antt =====
-- The invariant of the waiting volumes: each step keeps it, and with it the queue never gets stuck.
use admission_controller.Base.{
  ◌<◌, ◌≤◌, String, none, some, List, [], ◌∷◌, ◌++◌, ◌≡◌, ◌≢◌, refl, ◌∙◌, ◌⊎◌, inl, inr, length,
  length-append, All, arith, Bool-cases, Option-cases,
}
use admission_controller.Base.Dict
use admission_controller.Api.{PersistentVolume}
use admission_controller.HppvToCsiPv.Upgrade.Manager.{
  Queue, start, on_event, sent, received, done, Step, event, send, receive, finish, exit, left,
  IsReachable, started, next, is_pv_wait_sync, channel_size,
}
use admission_controller.HppvToCsiPv.Upgrade.Manager.Waiting.{
  one, on_the_way, times, marked, on_its_way, times-on_the_way, sent-once, received-once, done-once,
  waits_now,
}

abbrev HasPath : List PersistentVolume → Type 0
HasPath = All λ (pv : PersistentVolume). pv.host_path ≢ none

-- Every name is on the way as often as it is in the map, so at most once; the volumes on the way are
-- host path volumes; and the channel holds at most 100.
pub record IsInvariant (q : Queue) : Type 0 where
  pub once : (n : String) → on_its_way n q ≡ marked n q.sync_pv_map
  pub sending_path : HasPath (one q.sending)
  pub chan_path : HasPath q.sync_pv_chan
  pub running_path : HasPath (one q.running)
  pub bounded : length q.sync_pv_chan ≤ channel_size

HasPath-append : (xs ys : List PersistentVolume) → HasPath xs → HasPath ys → HasPath (xs ++ ys)
HasPath-append [] ys h h' = h'
HasPath-append (x ∷ xs) ys h h' = (h.0, HasPath-append xs ys h.1 h')

start-IsInvariant : IsInvariant start
unfolding times Dict.lookup
start-IsInvariant = record {
  once = λ n. refl;
  sending_path = tt;
  chan_path = tt;
  running_path = tt;
  bounded = omega arith;
}

event-IsInvariant :
    (pv : PersistentVolume) (q : Queue)
    → q.sending ≡ none
    → IsInvariant q
    → IsInvariant (on_event pv q)
unfolding on_event
event-IsInvariant pv q free i = elim (Option-cases pv.host_path) [
  | inl e ↦ rw (e, on_event) i
  | inr (p, e) ↦ elim (Bool-cases (is_pv_wait_sync pv.name q.sync_pv_map)) [
    | inl w ↦ rw (e, on_event) (rw w i)
    | inr w ↦
        rw (e, on_event)
          (rw w (record {
            once = λ n. waits_now pv q n free w (i.once n);
            sending_path = ((λ no_path. cc (e, no_path)), tt);
            chan_path = i.chan_path;
            running_path = i.running_path;
            bounded = i.bounded;
          }))
  ]
]

send-IsInvariant :
    (pv : PersistentVolume) (q : Queue)
    → q.sending ≡ some pv
    → length q.sync_pv_chan < channel_size
    → IsInvariant q
    → IsInvariant (sent pv q)
unfolding sent
send-IsInvariant pv q e place i = record {
  once = λ n. sent-once pv q n e ∙ i.once n;
  sending_path = tt;
  chan_path = HasPath-append q.sync_pv_chan (pv ∷ []) i.chan_path (rw e at i.sending_path);
  running_path = i.running_path;
  bounded = omega (arith, length-append q.sync_pv_chan (pv ∷ []), place);
}

receive-IsInvariant :
    (pv : PersistentVolume) (rest : List PersistentVolume) (q : Queue)
    → q.sync_pv_chan ≡ pv ∷ rest
    → q.running ≡ none
    → IsInvariant q
    → IsInvariant (received pv rest q)
unfolding received
receive-IsInvariant pv rest q e free i =
    let (first, others) = rw e at i.chan_path in
    record {
      once = λ n. received-once pv rest q n e free ∙ i.once n;
      sending_path = i.sending_path;
      chan_path = others;
      running_path = (first, tt);
      bounded = let le = rw e at i.bounded in omega (arith, le);
    }

finish-IsInvariant :
    (pv : PersistentVolume) (q : Queue)
    → q.running ≡ some pv
    → IsInvariant q
    → IsInvariant (done pv q)
unfolding done
finish-IsInvariant pv q e i = record {
  once = λ n. done-once pv q n e (i.once n);
  sending_path = i.sending_path;
  chan_path = i.chan_path;
  running_path = tt;
  bounded = i.bounded;
}

exit-IsInvariant : (q : Queue) → IsInvariant q → IsInvariant (left q)
unfolding left
exit-IsInvariant q i = record {
  once = i.once;
  sending_path = i.sending_path;
  chan_path = i.chan_path;
  running_path = i.running_path;
  bounded = i.bounded;
}

step-IsInvariant : (q q' : Queue) → Step q q' → IsInvariant q → IsInvariant q'
step-IsInvariant q q' (event pv free) i = event-IsInvariant pv q free i
step-IsInvariant q q' (send pv e place) i = send-IsInvariant pv q e place i
step-IsInvariant q q' (receive pv rest e idle) i = receive-IsInvariant pv rest q e idle.0 i
step-IsInvariant q q' (exit idle) i = exit-IsInvariant q i
step-IsInvariant q q' (finish pv e) i = finish-IsInvariant pv q e i

pub reachable-IsInvariant : (q : Queue) → IsReachable q → IsInvariant q
reachable-IsInvariant q started = start-IsInvariant
reachable-IsInvariant q (next r step) = step-IsInvariant _ q step (reachable-IsInvariant _ r)

-- In every queue that some steps lead to, a name is on the way to its upgrade as often as it is in
-- syncPVMap, so no volume waits or is upgraded twice at a time and none is forgotten; and at most 100
-- volumes are in the channel.
pub reachable-times :
    (q : Queue)
    → IsReachable q
    → ((n : String) → times n (on_the_way q) ≡ marked n q.sync_pv_map)
      × (length q.sync_pv_chan ≤ 100)
reachable-times q r =
    let i = reachable-IsInvariant q r in ((λ n. times-on_the_way n q ∙ i.once n), i.bounded)

pub chan-cases :
    (pvs : List PersistentVolume)
    → (pvs ≡ []) ⊎ ((pv : PersistentVolume) × (rest : List PersistentVolume) × (pvs ≡ pv ∷ rest))
chan-cases [] = inl refl
chan-cases (pv ∷ rest) = inr (pv, rest, refl)
