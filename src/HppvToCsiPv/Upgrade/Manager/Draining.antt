-- ===== src/HppvToCsiPv/Upgrade/Manager/Draining.antt =====
-- The queue while no new events come.
use admission_controller.Base.{
  ltb, ◌<◌, ℕ, suc, ◌+◌, ◌*◌, ◌≤◌, String, false, Option, none, some, [], ◌∷◌, ◌≡◌, refl, ◌⊎◌, inl,
  inr, length, length-append, arith, Bool-cases, Option-cases, Bool, true, if◌then◌else◌,
}
use admission_controller.Api.{PersistentVolume}
use admission_controller.HppvToCsiPv.Upgrade.Manager.{
  Queue, sent, received, done, Step, event, send, receive, finish, exit, left, IsReachable, next,
  is_pv_wait_sync,
}
use admission_controller.HppvToCsiPv.Upgrade.Manager.Waiting.{one, times, marked, on_its_way}
use admission_controller.HppvToCsiPv.Upgrade.Manager.Invariant.{
  IsInvariant, reachable-IsInvariant, chan-cases,
}

-- A step that is no event.
abbrev pub IsWork : {q q' : Queue} → Step q q' → Type 0
IsWork (event _ _) = ⊥
IsWork (send _ _ _) = Unit
IsWork (receive _ _ _ _) = Unit
IsWork (finish _ _) = Unit
IsWork (exit _) = Unit

-- So many steps without an event lead from the first queue to the second.
pub data Drain : ℕ → Queue → Queue → Type 0 where
  stay : {q : Queue} → Drain 0 q q
  work :
      {n : ℕ} {q q' q'' : Queue} (step : Step q q')
      → IsWork step
      → Drain n q' q''
      → Drain (suc n) q q''

-- the steps that the volumes on the way and the loop have before them
abbrev pub work_left : Queue → ℕ
work_left q =
    (if q.exited then 0 else 1)
    + 3 * length (one q.sending)
    + 2 * length q.sync_pv_chan
    + length (one q.running)

work_step : (q q' : Queue) (step : Step q q') → IsWork step → suc (work_left q') ≤ work_left q
unfolding sent received done left
work_step q _ (event pv free) w = absurd w
work_step q _ (send pv e place) w = rw e (omega (arith, length-append q.sync_pv_chan (pv ∷ [])))
work_step q _ (receive pv rest e idle) w = rw (e, idle.0, idle.1) (omega arith)
work_step q _ (exit idle) w = rw (idle.0, idle.1) (omega arith)
work_step q _ (finish pv e) w = rw e (omega arith)

Drain-le : (n : ℕ) (q q' : Queue) → Drain n q q' → n + work_left q' ≤ work_left q
Drain-le n q q' stay = omega arith
Drain-le n q q' (work {n = k} {q' = p} step w d) =
    omega (arith, work_step q p step w, Drain-le k p q' d)

one_le : (o : Option PersistentVolume) → length (one o) ≤ 1
one_le none = omega arith
one_le (some pv) = omega arith

exit_le : (b : Bool) → (if b then 0 else 1) ≤ 1
exit_le true = omega arith
exit_le false = omega arith

Drain-IsReachable : (n : ℕ) (q q' : Queue) → IsReachable q → Drain n q q' → IsReachable q'
Drain-IsReachable n q q' r stay = r
Drain-IsReachable n q q' r (work step w d) = Drain-IsReachable _ _ q' (next r step) d

-- No volume is on the way, and no name in the map.
pub record IsDrained (q : Queue) : Type 0 where
  pub none_sent : q.sending ≡ none
  pub none_waits : q.sync_pv_chan ≡ []
  pub none_runs : q.running ≡ none
  pub none_marked : (n : String) → is_pv_wait_sync n q.sync_pv_map ≡ false

work_left-le : (q : Queue) → IsReachable q → work_left q ≤ 205
work_left-le q r =
    let le = (reachable-IsInvariant q r).bounded in
    omega (arith, le, one_le q.sending, one_le q.running, exit_le q.exited)

empty-IsDrained :
    (q : Queue)
    → IsInvariant q
    → q.sending ≡ none
    → q.sync_pv_chan ≡ []
    → q.running ≡ none
    → IsDrained q
unfolding times
empty-IsDrained q i none_sent none_waits none_runs = record {
  none_sent = none_sent;
  none_waits = none_waits;
  none_runs = none_runs;
  none_marked = λ n. elim (Bool-cases (is_pv_wait_sync n q.sync_pv_map)) [
    | inr e ↦ e
    | inl e ↦
        let nothing : on_its_way n q ≡ 0 = rw (none_sent, none_waits, none_runs) refl in
        let in_map : marked n q.sync_pv_map ≡ 1 = rw e refl in
        absurd (omega (arith, i.once n, nothing, in_map))
  ];
}

abbrev pub CanWork : Queue → Type 0
CanWork q = (q' : Queue) × (step : Step q q') × IsWork step

-- The loop has ended, no pipeline runs, and the volume that a handler sends, if there is one, finds no
-- place in the channel.
abbrev pub IsStopped : Queue → Type 0
IsStopped q =
    (q.exited ≡ true) × (q.running ≡ none) × ((q.sending ≡ none) ⊎ (length q.sync_pv_chan ≡ 100))

room : (n : ℕ) → (n < 100) ⊎ (100 ≤ n)
room n = elim (Bool-cases (ltb n 100)) [
  | inl e ↦ inl (ground (arith, e))
  | inr e ↦ inr (ground (arith, e))
]

stuck : (q : Queue) → q.exited ≡ true → q.running ≡ none → IsInvariant q → IsStopped q ⊎ CanWork q
stuck q exited idle i = elim (Option-cases q.sending) [
  | inl none_sent ↦ inl (exited, idle, inl none_sent)
  | inr (pv, e) ↦ elim (room (length q.sync_pv_chan)) [
    | inl place ↦ inr (sent pv q, send pv e place, tt)
    | inr full ↦ inl (exited, idle, inr (omega (arith, full, i.bounded)))
  ]
]

-- while the loop goes on
IsDrained-or-CanWork : (q : Queue) → IsInvariant q → q.exited ≡ false → IsDrained q ⊎ CanWork q
IsDrained-or-CanWork q i on = elim (Option-cases q.running) [
  | inr (pv, e) ↦ inr (done pv q, finish pv e, tt)
  | inl idle ↦ elim (chan-cases q.sync_pv_chan) [
    | inr (pv, rest, e) ↦ inr (received pv rest q, receive pv rest e (idle, on), tt)
    | inl empty ↦ elim (Option-cases q.sending) [
      | inr (pv, e) ↦ inr (sent pv q, send pv e (rw empty (omega arith)), tt)
      | inl none_sent ↦ inl (empty-IsDrained q i none_sent empty idle)
    ]
  ]
]

ends : (q : Queue) → IsInvariant q → IsStopped q ⊎ (IsDrained q ⊎ CanWork q)
ends q i = elim (Bool-cases q.exited) [
  | inr on ↦ inr (IsDrained-or-CanWork q i on)
  | inl exited ↦ elim (Option-cases q.running) [
    | inr (pv, e) ↦ inr (inr (done pv q, finish pv e, tt))
    | inl idle ↦ elim (stuck q exited idle i) [ inl s ↦ inl s | inr w ↦ inr (inr w) ]
  ]
]

-- From every queue that some steps lead to, a sequence of sends, receives, ends of pipelines and the
-- end of the loop, without a new event, has at most 205 steps; and it can go on, or leads to a queue
-- where no volume waits and no name is in the map, or where the loop has ended at a closed stopCh, no
-- pipeline runs, and a handler that still sends has no place in the full channel.
pub Drain-ends :
    (n : ℕ) (q q' : Queue)
    → IsReachable q
    → Drain n q q'
    → (n ≤ 205) × (IsStopped q' ⊎ (IsDrained q' ⊎ CanWork q'))
Drain-ends n q q' r d = (
  omega (arith, Drain-le n q q' d, work_left-le q r),
  ends q' (reachable-IsInvariant q' (Drain-IsReachable n q q' r d)),
)
