-- ===== src/Reconcile/Service/Rehearsal.antt =====
-- internal/reconcile/service.go: `run` in a dry run, step by step.
use frame_tv_art_manager.Prelude.{
  ◌≡◌, refl, ℕ, Text, true, not, ◌&&◌, ◌==◌, List, [], Option, none, some, if_cases,
}
use frame_tv_art_manager.Samsung.Types.{Observation, PowerState}
use frame_tv_art_manager.Reconcile.Types.{
  State, Plan, Policy, Status, CommandKind, TvIdentity, Hashes,
}
use frame_tv_art_manager.Reconcile.Errors.{Result, ok, err, Err, or_plain}
use frame_tv_art_manager.Reconcile.Inputs.{fingerprint_policy}
use frame_tv_art_manager.Reconcile.Validate.{identity_from_observation}
use frame_tv_art_manager.Reconcile.Execution.{Run}
use frame_tv_art_manager.Reconcile.Wake.{WakeStep, is_supported, scheduled_wake}
use frame_tv_art_manager.Reconcile.Wake.PowerOn.{
  WakePreparation, prepare_power_on, power_on_from, wake_planned, unprepared,
}
use frame_tv_art_manager.Reconcile.Migration.FirstRun.{prepare_initial_state, complete_deferred}
use frame_tv_art_manager.Reconcile.Loop.{Setup, is_eligible}
use frame_tv_art_manager.Reconcile.Service.Recover.{recover}
use frame_tv_art_manager.Reconcile.Service.Start.{
  setup_for, run_planned, run_eligible, run_migrated, run_awake, run_prepared, run_powered,
  run_recovered, run_started, run_loaded, run_identified, run_woken, run_observed, run,
}
use frame_tv_art_manager.Reconcile.Service.Request.{
  Request, ServiceConfig, RunAnswers, after_events, effective_policy, request_valid, wants_on,
}
use frame_tv_art_manager.Reconcile.Service.Silent.{
  recover-IsSilent, initial-IsSilent, late-IsSilent, wake-IsSilent, IsSilent, IsSilent, IsQuiet,
  after-IsQuiet,
}

module _ (lower : Text → Text) (h : Hashes) (service : ServiceConfig) (request : Request)
    (a : RunAnswers) where
  abbrev dry : Request
  dry = record request { dry_run = true }

  planned-IsQuiet :
      (c : Setup) (w : WakePreparation) (s : State) (planned : Result (Plan × State))
      → IsQuiet (run_planned lower h service dry a c w s planned)
  unfolding run_planned
  planned-IsQuiet c w s (err e) = (refl, refl)
  planned-IsQuiet c w s (ok (plan, state)) = (refl, refl)

  eligible-IsQuiet :
      (c : Setup) (w : WakePreparation) (s : State)
      → IsQuiet (run_eligible lower h service dry a c w s)
  unfolding run_eligible
  eligible-IsQuiet c w s =
      if_cases IsQuiet (is_eligible w.observation) _ _ (λ _. planned-IsQuiet c w s _)
        (λ _. (refl, refl))

  migrated-IsQuiet :
      (c : Setup) (w : WakePreparation) (r : Run) (error : Option Err)
      → IsSilent r
      → IsQuiet (run_migrated lower h service dry a c w r error)
  unfolding run_migrated
  migrated-IsQuiet c w r none p =
      after-IsQuiet r.events (run_eligible lower h service dry a c w r.done.state) p
        (eligible-IsQuiet c w r.done.state)
  migrated-IsQuiet c w r (some e) p = (p, refl)

  awake-IsQuiet : (c : Setup) (w : WakePreparation) → IsQuiet (run_awake lower h service dry a c w)
  unfolding run_awake
  awake-IsQuiet c w =
      let late = complete_deferred h true request.snapshot w.observation a.deferred w.state in
      if_cases IsQuiet w.state.legacy_migration_pending _ _
        (λ _.
          migrated-IsQuiet c w late late.done.error
            (late-IsSilent h request.snapshot w.observation a.deferred w.state))
        (λ _. eligible-IsQuiet c w w.state)

  prepared-IsQuiet :
      (c : Setup) (w : WakePreparation) (terminal : Option Status) (error : Option Err)
      → IsQuiet (run_prepared lower h service dry a c w terminal error)
  unfolding run_prepared
  prepared-IsQuiet c w (some status) error = (refl, refl)
  prepared-IsQuiet c w none (some e) = (refl, refl)
  prepared-IsQuiet c w none none = awake-IsQuiet c w

  module _ (policy : Policy) (o : Observation) where
    planned_wake-IsSilent :
        (s : State) (fingerprint : Result (List ℕ))
        → (wake_planned lower h true request.cycle_id request.snapshot policy a.power_on s o
            fingerprint).events
          ≡ []
    unfolding wake_planned
    planned_wake-IsSilent s (err e) = refl
    planned_wake-IsSilent s (ok fingerprint) = refl

    power-IsSilent :
        (s : State) (power : PowerState)
        → (power_on_from lower h true request.cycle_id request.snapshot policy a.power_on s o
            power).events
          ≡ []
    unfolding power_on_from
    power-IsSilent s PowerState.power_on = refl
    power-IsSilent s PowerState.power_off =
        if_cases (λ (w : WakePreparation). w.events ≡ []) (is_supported o.capabilities.remote_power)
          _ _ (λ _. planned_wake-IsSilent s (or_plain (fingerprint_policy lower h policy)))
          (λ _. refl)
    power-IsSilent s PowerState.power_unknown = refl

    recovered-IsQuiet :
        (woken : List CommandKind) (s : State) (error : Option Err)
        → IsQuiet (run_recovered lower h service dry a policy o woken s error)
    unfolding run_recovered run_powered prepare_power_on
    recovered-IsQuiet woken s (some e) = (refl, refl)
    recovered-IsQuiet woken s none =
        let c = setup_for lower h service dry a policy s in
        let w =
          prepare_power_on lower h true request.cycle_id request.snapshot policy a.power_on s o in
        if_cases IsQuiet (wants_on policy) _ _
          (λ _.
            after-IsQuiet w.events (run_prepared lower h service dry a c w w.terminal w.error)
              (power-IsSilent s o.power) (prepared-IsQuiet c w w.terminal w.error))
          (λ _. awake-IsQuiet c (record (unprepared s o) { applied = woken }))

    started-IsQuiet :
        (woken : List CommandKind) (r : Run) (error : Option Err)
        → IsSilent r
        → IsQuiet (run_started lower h service dry a policy o woken r error)
    unfolding run_started
    started-IsQuiet woken r (some e) p = (p, refl)
    started-IsQuiet woken r none p =
        let q = recover true o a.recovery r.done.state in
        let rest = run_recovered lower h service dry a policy o woken q.done.state q.done.error in
        after-IsQuiet r.events (after_events q.events rest) p (
          after-IsQuiet q.events rest (recover-IsSilent o a.recovery r.done.state)
            (recovered-IsQuiet woken q.done.state q.done.error))

    loaded-IsQuiet :
        (woken : List CommandKind) (identity : TvIdentity) (found : Result (Option State))
        → IsQuiet (run_loaded lower h service dry a policy o woken identity found)
    unfolding run_loaded
    loaded-IsQuiet woken identity (err e) = (refl, refl)
    loaded-IsQuiet woken identity (ok found) =
        let r =
          prepare_initial_state h true request.snapshot o a.legacy policy service.legacy_configured
            identity found in
        started-IsQuiet woken r r.done.error (
          initial-IsSilent h request.snapshot o a.legacy policy service.legacy_configured identity
            found)

    identified-IsQuiet :
        (woken : List CommandKind) (identity : Option TvIdentity)
        → IsQuiet (run_identified lower h service dry a policy o woken identity)
    unfolding run_identified
    identified-IsQuiet woken none = (refl, refl)
    identified-IsQuiet woken (some identity) = loaded-IsQuiet woken identity a.loaded

  woken-IsQuiet :
      (step : WakeStep) (error : Option Err) → IsQuiet (run_woken lower h service dry a step error)
  unfolding run_woken
  woken-IsQuiet step (some e) = (refl, refl)
  woken-IsQuiet step none = identified-IsQuiet step.policy step.observation step.applied _

  observed-IsQuiet :
      (policy : Policy) (error : Option Err)
      → IsQuiet (run_observed lower h service dry a policy error)
  unfolding run_observed
  observed-IsQuiet policy (some e) = (refl, refl)
  observed-IsQuiet policy none =
      let w = scheduled_wake a.wake true policy a.observed in
      if_cases IsQuiet (wants_on policy && not (policy.wake_boundary == 0)) _ _
        (λ _. ((woken-IsQuiet w.step w.step.error).0, wake-IsSilent a.wake policy a.observed))
        (λ _. identified-IsQuiet policy a.observed [] (identity_from_observation a.observed))

  pub dry-IsQuiet : IsQuiet (run lower h service dry a)
  unfolding run
  dry-IsQuiet =
      let policy = effective_policy service.policy request.policy in
      if_cases IsQuiet (request_valid lower h dry policy) _ _
        (λ _. observed-IsQuiet policy a.observe_error) (λ _. (refl, refl))
