-- ===== src/HppvToCsiPv/Upgrade/Manager/Stopping.antt =====
-- When a call of Stop panics.
use mathlib.Core.Path.{subst}
use admission_controller.Base.{
  ℕ, suc, ◌≤◌, Bool, true, false, none, some, ◌≡◌, refl, sym, ◌∙◌, arith, inl, inr, Bool-cases,
  some-injective, ◌||◌,
}
use admission_controller.HppvToCsiPv.Upgrade.Manager.Lifecycle.{
  PvUpdateManager, new_pv_update_manager, start_check, start_running, start_loop, loop_exit, start,
  stop, Step, check, set_running, sync, exit, stops, count, IsReachable, made, next,
}

count-le : (b : Bool) (n : ℕ) → count b n ≤ 1 → n ≤ 1
count-le true n h = omega (arith, h)
count-le false n h = h

-- After so many calls of Start that went on: none has left anything; or at most one, which sets
-- `running` before stopCh can be closed.
record IsOnce (n : ℕ) (m : PvUpdateManager) : Type 0 where
  few : m.starting ≤ n
  idle : n ≡ 0 → (m.running ≡ false) × (m.stopped ≡ false)
  running_once : m.running ≡ true → m.starting ≡ 0
  stopped_once : m.stopped ≡ true → (m.running ≡ false) × (m.starting ≡ 0)

goes_on :
    (m : PvUpdateManager)
    → m.running ≡ false
    → start_check m ≡ some (record m { starting = suc m.starting })
unfolding start_check
goes_on m off = rw off refl

stop_idle : (m : PvUpdateManager) → m.running ≡ false → stop m ≡ some m
unfolding stop
stop_idle m off = rw off refl

stop_closes :
    (m : PvUpdateManager)
    → m.running ≡ true
    → m.stopped ≡ false
    → stop m ≡ some (record m { stopped = true; running = false })
unfolding stop
stop_closes m on open_ = rw (on, open_) refl

check-IsOnce :
    (n : ℕ) (m m' : PvUpdateManager)
    → start_check m ≡ some m'
    → suc n ≤ 1
    → IsOnce n m
    → IsOnce (suc n) m'
unfolding start_check
check-IsOnce n m m' e h i = elim (Bool-cases m.running) [
  | inl r ↦ absurd (let idle = i.idle (omega (arith, h)) in cc (idle.0, r))
  | inr r ↦
      let e' : record m { starting = suc m.starting } ≡ m' =
        some-injective (sym (goes_on m r) ∙ e) in
      subst (IsOnce (suc n)) e' (record {
        few = let le = i.few in omega (arith, le);
        idle = λ none_yet. absurd (omega (arith, none_yet));
        running_once = λ r'. absurd cc;
        stopped_once = λ c. absurd (let idle = i.idle (omega (arith, h)) in cc (idle.1, c));
      })
]

stop-IsOnce : (n : ℕ) (m m' : PvUpdateManager) → stop m ≡ some m' → IsOnce n m → IsOnce n m'
unfolding stop
stop-IsOnce n m m' e i = elim (Bool-cases m.running) [
  | inr r ↦ let e' : m ≡ m' = some-injective (sym (stop_idle m r) ∙ e) in subst (IsOnce n) e' i
  | inl r ↦ elim (Bool-cases m.stopped) [
    | inl c ↦ absurd (let off = (i.stopped_once c).0 in cc (off, r))
    | inr c ↦
        let e' : record m { stopped = true; running = false } ≡ m' =
          some-injective (sym (stop_closes m r c) ∙ e) in
        subst (IsOnce n) e' (record {
          few = i.few;
          idle = λ none_yet. absurd (let off = (i.idle none_yet).0 in cc (off, r));
          running_once = λ r'. absurd cc;
          stopped_once = λ c'. (refl, i.running_once r);
        })
  ]
]

step-IsOnce :
    (n : ℕ) (b : Bool) (m m' : PvUpdateManager)
    → Step b m m'
    → count b n ≤ 1
    → IsOnce n m
    → IsOnce (count b n) m'
unfolding start_check start_running start_loop loop_exit stop
step-IsOnce n _ m m' (check e) h i = check-IsOnce n m m' e h i
step-IsOnce n _ m _ (set_running some_starts) h i = record {
  few = let le = i.few in omega (arith, le);
  idle = λ none_yet. absurd (let le = i.few in omega (arith, le, none_yet, some_starts));
  running_once = λ e. let le = i.few in omega (arith, le, h);
  stopped_once = λ e. absurd (let eq = (i.stopped_once e).1 in omega (arith, eq, some_starts));
}
step-IsOnce n _ m _ (sync synced h') h i = record {
  few = i.few;
  idle = i.idle;
  running_once = i.running_once;
  stopped_once = i.stopped_once;
}
step-IsOnce n _ m _ (exit closed h') h i = record {
  few = i.few;
  idle = λ e. (refl, (i.idle e).1);
  running_once = λ e. absurd cc;
  stopped_once = λ e. (refl, (i.stopped_once e).1);
}
step-IsOnce n _ m m' (stops e) h i = stop-IsOnce n m m' e i

reachable-IsOnce : (n : ℕ) (m : PvUpdateManager) → IsReachable n m → n ≤ 1 → IsOnce n m
unfolding new_pv_update_manager
reachable-IsOnce n m made h = record {
  few = omega arith;
  idle = λ e. (refl, refl);
  running_once = λ e. refl;
  stopped_once = λ e. absurd cc;
}
reachable-IsOnce n m (next {n = k} {b = b} r step) h =
    step-IsOnce k b _ m step h (reachable-IsOnce k _ r (count-le b k h))

or-false : (b : Bool) → (b || false) ≡ b
or-false true = refl
or-false false = refl

-- While at most one call of Start has gone on, in any interleaving with the goroutines and other calls
-- of Start and Stop, Stop does not panic; the manager is not running after it, and stopCh is closed
-- exactly if it was before or the manager was running.
pub reachable-stop :
    (n : ℕ) (m : PvUpdateManager)
    → IsReachable n m
    → n ≤ 1
    → (m' : PvUpdateManager) × (stop m ≡ some m')
      × (m'.running ≡ false)
      × (m'.stopped ≡ (m.stopped || m.running))
unfolding stop
reachable-stop n m r h = elim (Bool-cases m.running) [
  | inr off ↦ (m, stop_idle m off, off, rw off (sym (or-false m.stopped)))
  | inl on ↦ elim (Bool-cases m.stopped) [
    | inl closed ↦
        absurd (let off = ((reachable-IsOnce n m r h).stopped_once closed).0 in cc (off, on))
    | inr open_ ↦ (
      record m { stopped = true; running = false },
      stop_closes m on open_,
      refl,
      rw (on, open_) refl,
    )
  ]
]

-- A running manager whose stopCh is open leads, by a Stop and a Start that go on one after the other,
-- to one where the next Stop panics: stopCh is closed twice.
pub restart-stop :
    (n : ℕ) (m : PvUpdateManager)
    → IsReachable n m
    → m.running ≡ true
    → m.stopped ≡ false
    → (m' : PvUpdateManager) × IsReachable (suc n) m' × (stop m' ≡ none)
unfolding stop start_check start_running
restart-stop n m r on open_ =
    let stopped_m : PvUpdateManager = record m { stopped = true; running = false } in
    let checked : PvUpdateManager = record stopped_m { starting = suc m.starting } in
    let closed : Step false m stopped_m = stops (stop_closes m on open_) in
    let again : Step true stopped_m checked = check refl in
    (start_running checked, next (next (next r closed) again) (set_running (omega arith)), refl)

-- what main makes of a new manager
pub start-IsReachable : (synced : Bool) → IsReachable 1 (start synced new_pv_update_manager)
unfolding start start_check new_pv_update_manager start_running
start-IsReachable synced =
    next (next (next made (check refl)) (set_running (omega arith))) (sync synced (omega arith))
