-- ===== src/Reconcile/Protocol/Power.antt =====
-- The wake of an explicit power-on policy keeps the protocol.
use frame_tv_art_manager.Prelude.{
  ◌≡◌, refl, subst, ◌≤◌, ℕ, Text, false, List, Option, none, some, if_cases,
}
use frame_tv_art_manager.Samsung.Types.{Observation, PowerState}
use frame_tv_art_manager.Reconcile.Types.{State, Plan, Policy, Status, Hashes}
use frame_tv_art_manager.Reconcile.Errors.{Result, ok, err, Err, or_plain}
use frame_tv_art_manager.Reconcile.Inputs.{fingerprint_policy}
use frame_tv_art_manager.Reconcile.Execution.{Answers, Run}
use frame_tv_art_manager.Reconcile.Wake.{is_supported}
use frame_tv_art_manager.Reconcile.Wake.PowerOn.{
  WakePreparation, prepare_power_on, power_on_from, wake_planned, woken_by, unprepared,
}
use frame_tv_art_manager.Reconcile.Service.Request.{Request, RunAnswers}
use frame_tv_art_manager.Reconcile.Protocol.{Stage, Runs, number}
use frame_tv_art_manager.Reconcile.Protocol.Sending.{Rests, Ends, Leads}
use frame_tv_art_manager.Reconcile.Protocol.Receipt.{IsOutside, Taken}
use frame_tv_art_manager.Reconcile.Protocol.Execute.{execute-Leads}

-- What a preparation leads to: the machine rests where the run goes on.
abbrev pub IsReady : Option State → Stage → State → Option Status → Option Err → Type 0
IsReady store stage s none none = Rests store stage s
IsReady store stage s (some status) none = stage ≡ Stage.idle
IsReady store stage s _ (some e) = Unit

pub record IsPrepared (held : Option State) (w : WakePreparation) : Type 0 where
  pub store : Option State
  pub stage : Stage
  pub runs : Runs held Stage.idle w.events store stage
  pub ready : IsReady store stage w.state w.terminal w.error

module _ (lower : Text → Text) (h : Hashes) (request : Request) (a : RunAnswers) where
  -- The wake of an explicit power-on policy.
  observed-IsReady :
      (store : Option State) (stage : Stage) (s : State) (error : Option Err)
      → Rests store stage s
      → IsReady store stage s none error
  observed-IsReady store stage s none r = r
  observed-IsReady store stage s (some e) r = tt

  woken-IsPrepared :
      (held : Option State) (policy : Policy) (s : State) (o : Observation) (plan : Option Plan)
      (r : Run)
      → Leads Taken held Stage.idle r
      → IsPrepared held (
          woken_by lower h false request.cycle_id request.snapshot policy a.power_on
            (record (unprepared s o) { plan = plan })
            r
            r.done.error)
  unfolding woken_by
  woken-IsPrepared held policy s o plan r l = go r.done.error refl
    where
      go :
          (error : Option Err)
          → r.done.error ≡ error
          → IsPrepared held (
              woken_by lower h false request.cycle_id request.snapshot policy a.power_on
                (record (unprepared s o) { plan = plan })
                r
                error)
      go (some e) q = record { store = l.store; stage = l.stage; runs = l.runs; ready = tt }
      go none q = record {
        store = l.store;
        stage = l.stage;
        runs = l.runs;
        ready =
            observed-IsReady l.store l.stage r.done.state a.power_on.observe_error
              (subst (λ x. Ends Taken l.store l.stage r.done.state x) q l.ended);
      }

  unwoken-IsPrepared :
      (held : Option State) (s : State) (o view : Observation) (plan : Option Plan)
      (terminal : Option Status) (error : Option Err)
      → IsReady held Stage.idle s terminal error
      → IsPrepared held (record (unprepared s o) {
        observation = view;
        plan = plan;
        terminal = terminal;
        error = error;
      })
  unwoken-IsPrepared held s o view plan terminal error r = record {
    store = held;
    stage = Stage.idle;
    runs = Runs.still;
    ready = r;
  }

  unpaced-IsOutside : (b : Answers) → IsOutside b → IsOutside (record b { pace_error = none })
  unpaced-IsOutside b g = record {
    new_id = g.new_id;
    prepare = g.prepare;
    pace = tt;
    clear = g.clear;
    apply = g.apply;
    receipt = g.receipt;
    resolve = g.resolve;
  }

  module _ (held : Option State) (policy : Policy) (s : State) (o : Observation)
      (outside : IsOutside a.power_on.answers) (p : s.pending ≡ none)
      (n : number held ≤ s.revision) where
    wake-IsPrepared :
        (fingerprint : Result (List ℕ))
        → IsPrepared held (
            wake_planned lower h false request.cycle_id request.snapshot policy a.power_on s o
              fingerprint)
    unfolding wake_planned
    wake-IsPrepared (err e) = unwoken-IsPrepared held s o o none none (some e) tt
    wake-IsPrepared (ok fingerprint) =
        woken-IsPrepared held policy s o _ _
          (execute-Leads lower h _ _ (unpaced-IsOutside a.power_on.answers outside) held n)

    power-IsPrepared :
        (power : PowerState)
        → IsPrepared held (
            power_on_from lower h false request.cycle_id request.snapshot policy a.power_on s o
              power)
    unfolding power_on_from
    power-IsPrepared PowerState.power_on =
        unwoken-IsPrepared held s o a.power_on.fresh none none a.power_on.observe_error
          (observed-IsReady held Stage.idle s a.power_on.observe_error (refl, p, n))
    power-IsPrepared PowerState.power_off =
        if_cases (IsPrepared held) (is_supported o.capabilities.remote_power) _ _
          (λ _. wake-IsPrepared (or_plain (fingerprint_policy lower h policy)))
          (λ _. unwoken-IsPrepared held s o o none _ _ tt)
    power-IsPrepared PowerState.power_unknown = unwoken-IsPrepared held s o o none none _ tt

    pub power_on-IsPrepared :
        IsPrepared held
          (prepare_power_on lower h false request.cycle_id request.snapshot policy a.power_on s o)
    unfolding prepare_power_on
    power_on-IsPrepared = power-IsPrepared o.power
