-- ===== src/HppvToCsiPv/Upgrade/Service/Settled.antt =====
-- What the service makes of the stored volumes: its queue is the one of Manager, and each volume stays
-- as it is or is converted.
use mathlib.Core.Path.{subst}
use admission_controller.Base.{
  ℕ, String, false, none, some, List, [], ◌∷◌, Error, Bytes, ◌≡◌, ◌≢◌, refl, sym, ap, ◌∙◌, ◌⊎◌, inl,
  inr, Option-cases, Result-cases, Bool-cases, ◌==◌, eq_iff,
}
use admission_controller.Api.{PersistentVolume}
use admission_controller.HppvToCsiPv.Upgrade.Cluster.{Cluster}
use admission_controller.HppvToCsiPv.Upgrade.Engine.{
  Poll, nothing, timed_out, stopped, Outcome, PipelineStep,
}
use admission_controller.HppvToCsiPv.Upgrade.Brackets.{brackets, run-brackets}
use admission_controller.HppvToCsiPv.Upgrade.Store.{Volumes, set, strip, Stores}
use admission_controller.HppvToCsiPv.Upgrade.Steps.{
  UpdatePipeline, State, step_check, with_hostpath_pv, tmp_pv_name, time_outs, update_steps, fresh,
  upgrade,
}
use admission_controller.HppvToCsiPv.Upgrade.Steps.Clean.{IsClean}
use admission_controller.HppvToCsiPv.Upgrade.Completion.Effects.{IsConverted}
use admission_controller.HppvToCsiPv.Upgrade.Completion.Converted.{upgrade-IsConverted}
use admission_controller.HppvToCsiPv.Upgrade.Rollback.Restored.{deleting, upgrade_restores}
use admission_controller.HppvToCsiPv.Upgrade.Rollback.{FailsWhole}
use admission_controller.HppvToCsiPv.Upgrade.Frame.Others.{upgrade_others}
use admission_controller.HppvToCsiPv.Upgrade.Manager
use admission_controller.HppvToCsiPv.Upgrade.Manager.{Queue, done}
use admission_controller.HppvToCsiPv.Upgrade.Manager.Invariant.{reachable-IsInvariant}
use admission_controller.HppvToCsiPv.Upgrade.Service.{
  pipeline_of, pause_after, Service, upgrade_pv, Step, event, send, receive, exit, turn, IsTidy,
  Runs, begun, next,
}

module _ (c : Cluster) (st : Stores c) where
  -- A step that fails without an undo action, and leaves the volumes as they are.
  abbrev FailsAtOnce : State c → Outcome (State c) × State c → Type 0
  FailsAtOnce s (o, s') =
      (e : Error) × (o.undo ≡ none)
      × (o.failure ≡ some e)
      × (st.stored s'.world ≡ st.stored s.world)

  some-host_path :
      (pv q : PersistentVolume)
      → some (strip pv) ≡ some q
      → q.host_path ≡ none
      → pv.host_path ≡ none
  some-host_path pv q h p = cc

  step_check_converted :
      (upl : UpdatePipeline) (total : ℕ) (s : State c)
      → IsConverted (st.stored s.world upl.pv_name)
      → FailsAtOnce s (step_check c upl total s)
  unfolding step_check with_hostpath_pv
  step_check_converted upl total s (q, held, path) = elim (Result-cases c.hostname) [
    | inr (e, g) ↦ rw (g, step_check) (e, refl, refl, refl)
    | inl (pipeline_name, g) ↦
        let same = st.stored-get upl.pv_name s.world in
        elim (Result-cases (c.get upl.pv_name s.world).0) [
          | inr (e, h) ↦ rw (g, step_check) (rw (h, with_hostpath_pv) (e, refl, refl, same))
          | inl (pv, h) ↦
              let (named, here) = st.get_ok upl.pv_name s.world pv h in
              rw (g, step_check)
                (rw (h, with_hostpath_pv)
                  (rw (some-host_path pv q (sym here ∙ held) path) (_, refl, refl, same)))
        ]
  ]

  brackets_at_once :
      (pv_name : String) (poll : ℕ → Poll) (step : PipelineStep (State c))
      (steps : List (PipelineStep (State c))) (s : State c) (p : Poll)
      → poll 0 ≡ p
      → FailsAtOnce s (step.action s)
      → st.stored (brackets pv_name poll (step ∷ steps) 0 s).2.world ≡ st.stored s.world
  unfolding brackets
  brackets_at_once pv_name poll step steps s timed_out e h = rw (e, brackets) refl
  brackets_at_once pv_name poll step steps s stopped e h = rw (e, brackets) refl
  brackets_at_once pv_name poll step steps s nothing e (x, u, f, same) =
      rw (e, brackets) (rw (u, f) same)

  -- A pipeline for a volume that is converted already changes nothing.
  pub upgrade_converted :
      (upl : UpdatePipeline) (poll : ℕ → Poll) (w : c.World)
      → IsConverted (st.stored w upl.pv_name)
      → st.stored (upgrade c upl poll w).2.world ≡ st.stored w
  unfolding upgrade update_steps
  upgrade_converted upl poll w h = rw run-brackets (
      brackets_at_once upl.pv_name poll _ _ (fresh c w) (poll 0) refl
        (step_check_converted upl (time_outs c) (fresh c w) h))

  -- The volume of the name is converted, or what it was.
  abbrev pub IsKept : Volumes → c.World → Type 0
  IsKept before w = (n : String) → IsConverted (st.stored w n) ⊎ (st.stored w n ≡ before n)

  IsKept-same :
      (before : Volumes) (w w' : c.World) (n : String)
      → st.stored w' n ≡ st.stored w n
      → IsConverted (st.stored w n) ⊎ (st.stored w n ≡ before n)
      → IsConverted (st.stored w' n) ⊎ (st.stored w' n ≡ before n)
  IsKept-same before w w' n e (inl (pv, h, p)) = inl (pv, e ∙ h, p)
  IsKept-same before w w' n e (inr h) = inr (e ∙ h)

  -- The name of the pipeline's temporary volume is another than that of its volume, and its call of
  -- DeletePv for the volume, if it fails, has changed nothing.
  abbrev pub IsSafe : UpdatePipeline → c.World → Type 0
  IsSafe upl w =
      ((pv : PersistentVolume) → pv.name ≡ upl.pv_name → tmp_pv_name c pv ≢ upl.pv_name)
      × FailsWhole c st upl.pv_name (deleting c st upl w)

  abbrev pub AllClean : Volumes → Type 0
  AllClean before = (n : String) (p : PersistentVolume) → before n ≡ some p → IsClean p.annotations

  -- under the name of the pipeline's volume
  upgrade_own :
      (upl : UpdatePipeline) (poll : ℕ → Poll) (before : Volumes) (w : c.World)
      → IsSafe upl w
      → AllClean before
      → (upgrade c upl poll w).1 ≡ []
      → IsConverted (st.stored w upl.pv_name) ⊎ (st.stored w upl.pv_name ≡ before upl.pv_name)
      → IsConverted (st.stored (upgrade c upl poll w).2.world upl.pv_name)
        ⊎ (st.stored (upgrade c upl poll w).2.world upl.pv_name ≡ before upl.pv_name)
  upgrade_own upl poll before w safe clean tidy (inl h) =
      IsKept-same before w (upgrade c upl poll w).2.world upl.pv_name
        (ap (λ (f : Volumes). f upl.pv_name) (upgrade_converted upl poll w h)) (inl h)
  upgrade_own upl poll before w safe clean tidy (inr h) =
      elim (Option-cases (upgrade c upl poll w).0) [
        | inr (e, failed) ↦
            IsKept-same before w (upgrade c upl poll w).2.world upl.pv_name
              (ap (λ (f : Volumes). f upl.pv_name)
                (upgrade_restores c st upl poll w (λ p held. clean upl.pv_name p (sym h ∙ held))
                  safe.1 e failed tidy))
              (inr h)
        | inl succeeded ↦ elim (upgrade-IsConverted c st upl w poll safe.0 succeeded) [
          | inl converted ↦ inl converted
          | inr same ↦ inr (same ∙ h)
        ]
      ]

  pub set_other :
      (n k : String) (f g : Volumes) → (n == k) ≡ false → set n none f ≡ set n none g → f k ≡ g k
  set_other n k f g ne e =
      let at : set n none f k ≡ set n none g k = ap (λ (h : Volumes). h k) e in rw ne at at

  -- A pipeline whose undo actions report no error leaves each volume converted or as it was.
  pub upgrade-IsKept :
      (upl : UpdatePipeline) (poll : ℕ → Poll) (before : Volumes) (w : c.World)
      → IsSafe upl w
      → AllClean before
      → (upgrade c upl poll w).1 ≡ []
      → IsKept before w
      → IsKept before (upgrade c upl poll w).2.world
  upgrade-IsKept upl poll before w safe clean tidy kept n =
      let w' = (upgrade c upl poll w).2.world in
      elim (Bool-cases (upl.pv_name == n)) [
        | inr ne ↦
            IsKept-same before w w' n
              (set_other upl.pv_name n (st.stored w') (st.stored w) ne
                (upgrade_others c st upl poll w tidy))
              (kept n)
        | inl e ↦
            subst (λ k. IsConverted (st.stored w' k) ⊎ (st.stored w' k ≡ before k))
              ((eq_iff upl.pv_name n).0 e)
              (upgrade_own upl poll before w safe clean tidy (kept upl.pv_name))
      ]

module _ (c : Cluster) (upgrade_image : String) (update_interval : ℕ) where
  pub upgrade_pv-path :
      (pv : PersistentVolume) (poll : ℕ → Poll) (s : Service c upgrade_image update_interval)
      (p : Bytes)
      → pv.host_path ≡ some p
      → upgrade_pv c upgrade_image update_interval pv poll s ≡ record {
        queue = done pv s.queue;
        world = (upgrade c (pipeline_of upgrade_image pv) poll s.world).2.world;
        pause =
            pause_after update_interval (upgrade c (pipeline_of upgrade_image pv) poll s.world).0;
      }
  unfolding upgrade_pv done pipeline_of
  upgrade_pv-path pv poll s p e = rw (e, upgrade_pv) refl

  -- The volume that the goroutine has received is a host path volume.
  received-path :
      (q : Queue) (pv : PersistentVolume)
      → Manager.IsReachable q
      → q.running ≡ some pv
      → (p : Bytes) × (pv.host_path ≡ some p)
  received-path q pv r e = elim (Option-cases pv.host_path) [
    | inr h ↦ h
    | inl no_path ↦ absurd ((rw e at (reachable-IsInvariant q r).running_path).0 no_path)
  ]

  abbrev S : Type 0
  S = Service c upgrade_image update_interval

  module _ (st : Stores c) (before : Volumes) (clean : AllClean c st before) where
    -- The queue is one of the manager's, and each volume is converted or as it was.
    abbrev IsSound : S → Type 0
    IsSound s = Manager.IsReachable s.queue × IsKept c st before s.world

    turn-IsSound :
        (pv : PersistentVolume) (poll : ℕ → Poll) (s : S)
        → s.queue.running ≡ some pv
        → IsSafe c st (pipeline_of upgrade_image pv) s.world
        → (upgrade c (pipeline_of upgrade_image pv) poll s.world).1 ≡ []
        → IsSound s
        → IsSound (upgrade_pv c upgrade_image update_interval pv poll s)
    turn-IsSound pv poll s e safe tidy (reached, kept) =
        let (p, path) = received-path s.queue pv reached e in
        subst IsSound (sym (upgrade_pv-path pv poll s p path)) (
          Manager.next reached (Manager.finish pv e),
          upgrade-IsKept c st (pipeline_of upgrade_image pv) poll before s.world safe clean tidy
              kept,
        )

    step-IsSound :
        (s s' : S) (step : Step c upgrade_image update_interval s s')
        → IsTidy c upgrade_image update_interval (IsSafe c st) step
        → IsSound s
        → IsSound s'
    step-IsSound s s' (event pv free) t (reached, kept) =
        (Manager.next reached (Manager.event pv free), kept)
    step-IsSound s s' (send pv e place) t (reached, kept) =
        (Manager.next reached (Manager.send pv e place), kept)
    step-IsSound s s' (receive pv rest e free) t (reached, kept) =
        (Manager.next reached (Manager.receive pv rest e free), kept)
    step-IsSound s s' (exit free) t (reached, kept) =
        (Manager.next reached (Manager.exit free), kept)
    step-IsSound s s' (turn pv poll e) (safe, tidy) sound = turn-IsSound pv poll s e safe tidy sound

  -- In every service that some steps lead to, with undo actions that report no error and whatever
  -- events come and `select` finds, the queue is one that some steps of the manager lead to, and the
  -- API server stores under each name a volume that is no host path volume, or what it stored at the
  -- beginning. The volumes have no claim and no empty annotation map at the beginning; each pipeline's
  -- temporary volume has another name than its volume; its call of DeletePv for the volume, if it fails,
  -- has changed nothing; the API server is as `Stores` says.
  pub Runs-IsKept :
      (st : Stores c) (w : c.World) (s : S)
      → AllClean c st (st.stored w)
      → Runs c upgrade_image update_interval (IsSafe c st) w s
      → Manager.IsReachable s.queue × IsKept c st (st.stored w) s.world
  Runs-IsKept st w s clean begun = (Manager.started, λ n. inr refl)
  Runs-IsKept st w s clean (next {s = s1} r step tidy) =
      step-IsSound st (st.stored w) clean s1 s step tidy (Runs-IsKept st w s1 clean r)
