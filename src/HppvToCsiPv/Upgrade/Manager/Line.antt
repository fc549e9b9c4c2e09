-- ===== src/HppvToCsiPv/Upgrade/Manager/Line.antt =====
-- A specification of the manager's queue, without the map, the channel and the handlers: a line of
-- volumes, served one after another in the order of their events.
use mathlib.Core.Path.{subst}
use mathlib.Core.List.{append-nil}
use admission_controller.Base.{
  false, Option, none, some, List, [], ◌∷◌, ◌++◌, ◌≡◌, ◌≢◌, refl, sym, ap, ◌⊎◌, inl, inr, arith,
  Bool-cases, Option-cases, Bytes,
}
use admission_controller.Api.{PersistentVolume}
use admission_controller.HppvToCsiPv.Upgrade.Manager.{
  Queue, on_event, sent, received, done, is_pv_wait_sync, Step, event, send, receive, finish, exit,
  left, IsReachable,
}
use admission_controller.HppvToCsiPv.Upgrade.Manager.Waiting.{one, times, marked, times-append}
use admission_controller.HppvToCsiPv.Upgrade.Manager.Invariant.{reachable-IsInvariant}

pub record Line : Type 0 where
  -- the volumes that wait, the first to be served first
  pub waiting : List PersistentVolume
  pub served : Option PersistentVolume

-- A host path volume joins at the end, if no volume of its name is there; the first is served, if none
-- is; and the service ends.
pub data LineStep : Line → Line → Type 0 where
  joins :
      {l : Line} (pv : PersistentVolume)
      → pv.host_path ≢ none
      → times pv.name (l.waiting ++ one l.served) ≡ 0
      → LineStep l (record l { waiting = l.waiting ++ pv ∷ [] })
  serves :
      {l : Line} (pv : PersistentVolume) (rest : List PersistentVolume)
      → l.waiting ≡ pv ∷ rest
      → l.served ≡ none
      → LineStep l (record { waiting = rest; served = some pv })
  leaves :
      {l : Line} (pv : PersistentVolume)
      → l.served ≡ some pv
      → LineStep l (record l { served = none })

-- the line of a queue: the channel, and then the volume that a handler is sending
abbrev pub line : Queue → Line
line q = record { waiting = q.sync_pv_chan ++ one q.sending; served = q.running }

-- The queue's step is a step of its line, or none.
abbrev pub Refines : Queue → Queue → Type 0
Refines q q' = (line q' ≡ line q) ⊎ LineStep (line q) (line q')

absent :
    (pv : PersistentVolume) (q : Queue)
    → IsReachable q
    → is_pv_wait_sync pv.name q.sync_pv_map ≡ false
    → times pv.name ((line q).waiting ++ one q.running) ≡ 0
absent pv q r out =
    let n = pv.name in
    let unmarked : marked n q.sync_pv_map ≡ 0 = rw out refl in
    omega (
      arith,
      times-append n (q.sync_pv_chan ++ one q.sending) (one q.running),
      times-append n q.sync_pv_chan (one q.sending),
      (reachable-IsInvariant q r).once n,
      unmarked,
    )

line-event :
    (pv : PersistentVolume) (q : Queue) (p : Bytes) (l : Line)
    → pv.host_path ≡ some p
    → is_pv_wait_sync pv.name q.sync_pv_map ≡ false
    → record (line q) { waiting = q.sync_pv_chan ++ pv ∷ [] } ≡ l
    → line (on_event pv q) ≡ l
unfolding on_event
line-event pv q p l e out h = rw (e, on_event) (rw out h)

-- where the volume stands in the line, when no handler sends another
at_the_end :
    (pv : PersistentVolume) (q : Queue)
    → q.sending ≡ none
    → record (line q) { waiting = q.sync_pv_chan ++ pv ∷ [] }
      ≡ record (line q) { waiting = (line q).waiting ++ pv ∷ [] }
at_the_end pv q free =
    rw free (ap (λ w. record (line q) { waiting = w ++ pv ∷ [] }) (sym (append-nil q.sync_pv_chan)))

event-Refines :
    (pv : PersistentVolume) (q : Queue)
    → IsReachable q
    → q.sending ≡ none
    → Refines q (on_event pv q)
unfolding on_event
event-Refines pv q r free = elim (Option-cases pv.host_path) [
  | inl e ↦ rw (e, on_event) (inl refl)
  | inr (p, e) ↦ elim (Bool-cases (is_pv_wait_sync pv.name q.sync_pv_map)) [
    | inl waits ↦ rw (e, on_event) (rw waits (inl refl))
    | inr out ↦ inr (
        subst (LineStep (line q)) (sym (line-event pv q p _ e out (at_the_end pv q free)))
          (joins pv (λ no_path. cc (e, no_path)) (absent pv q r out)))
  ]
]

-- The queue refines the line: from a queue that some steps lead to, every step of the manager is a step
-- of the line, that a host path volume of an absent name joins at its end, that the first of it is
-- served while no other is, or that the service ends; or it leaves the line as it is.
pub step-Refines : (q q' : Queue) → IsReachable q → Step q q' → Refines q q'
unfolding sent received done left
step-Refines q _ r (event pv free) = event-Refines pv q r free
step-Refines q _ r (send pv e place) =
    inl (rw e (ap (λ w. record (line q) { waiting = w }) (append-nil (q.sync_pv_chan ++ pv ∷ []))))
step-Refines q _ r (receive pv rest e free) =
    inr (serves pv (rest ++ one q.sending) (ap (λ c. c ++ one q.sending) e) free.0)
step-Refines q _ r (finish pv e) = inr (leaves pv e)
step-Refines q _ r (exit idle) = inl refl
