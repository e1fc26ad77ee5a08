-- ===== src/Reconcile/Service/Start.antt =====
-- internal/reconcile/service.go: `run`, from the check of the request to the end of the cycle. What
-- the world answers to each call is given in advance.
use frame_tv_art_manager.Prelude.{
  Text, true, false, not, ◌&&◌, ◌==◌, if◌then◌else◌, List, [], ◌∷◌, ◌++◌, Option, none, some,
}
use frame_tv_art_manager.Samsung.Types.{Observation}
use frame_tv_art_manager.Reconcile.Types.{
  State, Plan, Policy, PowerPolicy-discrete, Status, CommandKind, TvIdentity, Hashes,
  RotationStatus,
}
use frame_tv_art_manager.Reconcile.Errors.{Result, ok, err, Err, Cause, status_for_error}
use frame_tv_art_manager.Reconcile.Validate.{identity_from_observation}
use frame_tv_art_manager.Reconcile.Execution.{Run, is_none}
use frame_tv_art_manager.Reconcile.Wake.{WakeEvent, WakeStep, scheduled_wake}
use frame_tv_art_manager.Reconcile.Wake.PowerOn.{WakePreparation, prepare_power_on, unprepared}
use frame_tv_art_manager.Reconcile.Migration.FirstRun.{prepare_initial_state, complete_deferred}
use frame_tv_art_manager.Reconcile.Service.{End, converge, replan}
use frame_tv_art_manager.Reconcile.Loop.{Setup, Loop, begin, is_eligible}
use frame_tv_art_manager.Reconcile.Service.Recover.{recover}
use frame_tv_art_manager.Reconcile.Service.Finish.{Finished, finish}
use frame_tv_art_manager.Reconcile.Service.Request.{
  Request, ServiceConfig, RunAnswers, RunResult, no_result, after_events, observed_only,
  prepared_result, effective_policy, request_valid, wants_on, with_wake, history,
}

module _ (lower : Text → Text) (h : Hashes) (service : ServiceConfig) (q : Request)
    (a : RunAnswers) where
  unfoldable pub setup_for : Policy → State → Setup
  setup_for policy s = record {
    cycle_id = q.cycle_id;
    snapshot = q.snapshot;
    policy = policy;
    capacity_ttl = service.capacity_ttl;
    maximum_attempts = service.maximum_attempts;
    delays = service.delays;
    unresolved = not (is_none s.unresolved_upload);
  }

  -- The result as the loop has left it.
  abbrev pub looped : Option Plan → RotationStatus → Loop → RunResult
  looped plan rotation l = record no_result {
    events = history l.log;
    plan = plan;
    state = some l.result_state;
    observation = some l.result_observation;
    applied = l.applied;
    rotation = rotation;
    power_off_attempted = l.power_off_attempted;
  }

  unfoldable pub finished : Option Plan → Loop → Finished → RunResult
  unfolding history
  finished plan l f = record (looped plan l.plan.rotation l) {
    events = history l.log ++ f.events;
    status = f.status;
    state = some f.state;
    error = f.error;
  }

  -- The end of the loop, and what comes after it.
  unfoldable pub run_ended : Setup → Option Plan → RotationStatus → End → RunResult
  unfolding finished finish history
  run_ended c plan rotation (End.waiting l) = record (looped plan rotation l) { unfinished = true }
  run_ended c plan rotation (End.ended l) =
      finished plan l (finish c l a.finished_at a.finish_error)
  run_ended c plan rotation (End.failed_with l status e) = record (looped plan rotation l) {
    status = status;
    error = some e;
  }
  run_ended c plan rotation (End.panicked l) = looped plan rotation l

  -- From the first plan on.
  unfoldable pub run_planned : Setup → WakePreparation → State → Result (Plan × State) → RunResult
  unfolding run_ended converge
  run_planned c w s (err e) = record no_result {
    state = some s;
    observation = some w.observation;
    error = some e;
  }
  run_planned c w s (ok (plan, planned)) =
      let shown = some (with_wake w.plan plan) in
      let go =
        run_ended c shown plan.rotation
          (converge lower h c a.rounds (begin planned w.observation plan w.applied)) in
      if q.dry_run
      then record (prepared_result w Status.incomplete_dry_run s w.observation none) {
        plan = shown;
        rotation = plan.rotation;
      }
      else go

  unfoldable pub run_eligible : Setup → WakePreparation → State → RunResult
  unfolding run_planned replan
  run_eligible c w s =
      if is_eligible w.observation
      then run_planned c w s (replan lower h c false w.observation s a.planned_at)
      else prepared_result w Status.known_skip s w.observation none

  unfoldable pub run_migrated : Setup → WakePreparation → Run → Option Err → RunResult
  unfolding run_eligible
  run_migrated c w r none = after_events r.events (run_eligible c w r.done.state)
  run_migrated c w r (some e) =
      record (prepared_result w (status_for_error e) r.done.state w.observation (some e)) {
        events = r.events;
      }

  unfoldable pub run_awake : Setup → WakePreparation → RunResult
  unfolding run_migrated complete_deferred run_eligible
  run_awake c w =
      let late = complete_deferred h q.dry_run q.snapshot w.observation a.deferred w.state in
      if w.state.legacy_migration_pending
      then run_migrated c w late late.done.error
      else run_eligible c w w.state

  unfoldable pub run_prepared : Setup → WakePreparation → Option Status → Option Err → RunResult
  unfolding run_awake
  run_prepared c w (some status) error = record no_result {
    status = status;
    plan = w.plan;
    state = some w.state;
    observation = some w.observation;
    error = error;
  }
  run_prepared c w none (some e) =
      prepared_result w (status_for_error e) w.state w.observation (some e)
  run_prepared c w none none = run_awake c w

  unfoldable pub run_powered : Setup → WakePreparation → RunResult
  unfolding run_prepared
  run_powered c w = after_events w.events (run_prepared c w w.terminal w.error)

  -- The state is the one that the recovery leaves.
  unfoldable pub run_recovered :
      Policy → Observation → List CommandKind → State → Option Err → RunResult
  unfolding run_powered run_awake prepare_power_on setup_for PowerPolicy-discrete
  run_recovered policy o woken s (some e) = record no_result {
    status = status_for_error e;
    state = some s;
    observation = some o;
    error = some e;
  }
  run_recovered policy o woken s none =
      let c = setup_for policy s in
      let prepared =
        prepare_power_on lower h q.dry_run q.cycle_id q.snapshot policy a.power_on s o in
      if wants_on policy
      then run_powered c prepared
      else run_awake c (record (unprepared s o) { applied = woken })

  unfoldable pub run_started :
      Policy → Observation → List CommandKind → Run → Option Err → RunResult
  unfolding run_recovered recover
  run_started policy o woken r (some e) = record (observed_only o e) { events = r.events }
  run_started policy o woken r none =
      let recovery = recover q.dry_run o a.recovery r.done.state in
      after_events r.events (
        after_events recovery.events
          (run_recovered policy o woken recovery.done.state recovery.done.error))

  unfoldable pub run_loaded :
      Policy → Observation → List CommandKind → TvIdentity → Result (Option State) → RunResult
  unfolding run_started prepare_initial_state
  run_loaded policy o woken identity (err e) = observed_only o e
  run_loaded policy o woken identity (ok found) =
      let initial =
        prepare_initial_state h q.dry_run q.snapshot o a.legacy policy service.legacy_configured
          identity found in
      run_started policy o woken initial initial.done.error

  unfoldable pub run_identified :
      Policy → Observation → List CommandKind → Option TvIdentity → RunResult
  unfolding run_loaded
  run_identified policy o woken none = observed_only o (Cause.plain ∷ [])
  run_identified policy o woken (some identity) = run_loaded policy o woken identity a.loaded

  unfoldable pub run_woken : WakeStep → Option Err → RunResult
  unfolding run_identified identity_from_observation
  run_woken step (some e) = record no_result {
    status = status_for_error e;
    observation = some step.observation;
    applied = step.applied;
    error = some e;
  }
  run_woken step none =
      run_identified step.policy step.observation step.applied
        (identity_from_observation step.observation)

  abbrev pub with_wake_events : List WakeEvent → RunResult → RunResult
  with_wake_events events r = record r { wake_events = events }

  unfoldable pub run_observed : Policy → Option Err → RunResult
  unfolding run_woken run_identified scheduled_wake PowerPolicy-discrete identity_from_observation
  run_observed policy (some e) = observed_only a.observed e
  run_observed policy none =
      let woken = scheduled_wake a.wake q.dry_run policy a.observed in
      if wants_on policy && not (policy.wake_boundary == 0)
      then with_wake_events woken.events (run_woken woken.step woken.step.error)
      else run_identified policy a.observed [] (identity_from_observation a.observed)

  -- `run`.
  unfoldable pub run : RunResult
  unfolding run_observed request_valid
  run =
      let policy = effective_policy service.policy q.policy in
      if request_valid lower h q policy
      then run_observed policy a.observe_error
      else record no_result { error = some (Cause.plain ∷ []) }
