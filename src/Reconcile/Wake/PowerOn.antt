-- ===== src/Reconcile/Wake/PowerOn.antt =====
-- internal/reconcile/wake.go: what an explicit power-on policy does before the cycle.
use frame_tv_art_manager.Prelude.{
  ℕ, Text, Bool, false, if◌then◌else◌, List, [], ◌∷◌, Option, none, some,
}
use frame_tv_art_manager.Samsung.Types.{Observation, PowerState}
use frame_tv_art_manager.Collection.Types.{Snapshot}
use frame_tv_art_manager.Reconcile.Types.{
  State, Plan, Policy, Status, CommandKind, Hashes, intent_of,
}
use frame_tv_art_manager.Reconcile.Errors.{Result, ok, err, Err, Cause, or_plain}
use frame_tv_art_manager.Reconcile.Inputs.{fingerprint_policy}
use frame_tv_art_manager.Reconcile.Rotation.{no_rotation}
use frame_tv_art_manager.Reconcile.Execution.{Answers, Run, Event}
use frame_tv_art_manager.Reconcile.Execution.Execute.{ExecutionInput, execute}
use frame_tv_art_manager.Reconcile.Wake.{is_supported}

-- `wakePreparation`, with the error. A result that ends the run has this status, and the state, the
-- observation and the plan that stand beside it; `plan` is `none` for the plan without anything.
pub record WakePreparation : Type 0 where
  pub events : List Event
  pub state : State
  pub observation : Observation
  pub plan : Option Plan
  pub applied : List CommandKind
  pub terminal : Option Status
  pub error : Option Err

-- The answers to the wake, which is not paced, and the observation after it.
pub record PowerOnAnswers : Type 0 where
  pub answers : Answers
  pub fresh : Observation
  pub observe_error : Option Err

abbrev pub unprepared : State → Observation → WakePreparation
unprepared s o = record {
  events = [];
  state = s;
  observation = o;
  plan = none;
  applied = [];
  terminal = none;
  error = none;
}

-- `observeForConvergence`.
abbrev pub observe_for_convergence : PowerOnAnswers → WakePreparation → WakePreparation
observe_for_convergence a p = record p { observation = a.fresh; error = a.observe_error }

module _ (lower : Text → Text) (h : Hashes) (dry_run : Bool) (cycle_id : Text) (snapshot : Snapshot)
    (policy : Policy) where
  abbrev wake_plan : Observation → List ℕ → Plan
  wake_plan o fingerprint = record {
    collection_generation = snapshot.generation;
    policy_fingerprint = fingerprint;
    inventory_fingerprint = o.inventory.fingerprint;
    capacity_limited = false;
    rotation = no_rotation;
    commands = intent_of CommandKind.wake ∷ [];
    prune_bindings = [];
  }

  abbrev pub wake_input : State → Observation → ExecutionInput
  wake_input s o = record {
    cycle_id = cycle_id;
    generation = snapshot.generation;
    policy = policy;
    state = s;
    observation = o;
    intent = intent_of CommandKind.wake;
  }

  unfoldable pub woken_by : PowerOnAnswers → WakePreparation → Run → Option Err → WakePreparation
  woken_by a p run (some e) = record p {
    events = run.events;
    state = run.done.state;
    observation = run.done.observation;
    error = some e;
  }
  woken_by a p run none = observe_for_convergence a (record p {
    events = run.events;
    state = run.done.state;
    observation = run.done.observation;
    applied = CommandKind.wake ∷ [];
  })

  unfoldable pub wake_planned :
      PowerOnAnswers → State → Observation → Result (List ℕ) → WakePreparation
  unfolding woken_by
  wake_planned a s o (err e) = record (unprepared s o) { error = some e }
  wake_planned a s o (ok fingerprint) =
      let p = record (unprepared s o) { plan = some (wake_plan o fingerprint) } in
      let run = execute lower h (wake_input s o) (record a.answers { pace_error = none }) in
      if dry_run
      then record p { terminal = some Status.incomplete_dry_run }
      else woken_by a p run run.done.error

  unfoldable pub power_on_from : PowerOnAnswers → State → Observation → PowerState → WakePreparation
  unfolding wake_planned
  power_on_from a s o PowerState.power_on = observe_for_convergence a (unprepared s o)
  power_on_from a s o PowerState.power_off =
      if is_supported o.capabilities.remote_power
      then wake_planned a s o (or_plain (fingerprint_policy lower h policy))
      else record (unprepared s o) {
        terminal = some Status.unsupported;
        error = some (Cause.unsupported_intent ∷ []);
      }
  power_on_from a s o power = record (unprepared s o) { error = some (Cause.plain ∷ []) }

  -- `preparePowerOn`.
  unfoldable pub prepare_power_on : PowerOnAnswers → State → Observation → WakePreparation
  unfolding power_on_from
  prepare_power_on a s o = power_on_from a s o o.power
