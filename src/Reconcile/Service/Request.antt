-- ===== src/Reconcile/Service/Request.antt =====
-- internal/reconcile/types.go, commands.go and service.go: what `run` is asked for, what the world
-- answers, and what it returns.
use frame_tv_art_manager.Prelude.{
  ℕ, Text, is_blank, Bool, false, not, ◌&&◌, List, [], ◌∷◌, ◌++◌, Option, none, some, holds,
}
use frame_tv_art_manager.Prelude.Int.{ℤ}
use frame_tv_art_manager.Samsung.Types.{Observation}
use frame_tv_art_manager.Collection.Types.{Snapshot}
use frame_tv_art_manager.Reconcile.Types.{
  State, Plan, Policy, PowerPolicy, PowerPolicy-discrete, Status, CommandKind, Hashes,
  RotationStatus,
}
use frame_tv_art_manager.Reconcile.Errors.{Result, Err}
use frame_tv_art_manager.Reconcile.Inputs.{snapshot_valid, normalize_policy, policy_valid}
use frame_tv_art_manager.Reconcile.Rotation.{no_rotation}
use frame_tv_art_manager.Reconcile.Execution.{Event}
use frame_tv_art_manager.Reconcile.Wake.{WakeAnswers, WakeEvent}
use frame_tv_art_manager.Reconcile.Wake.PowerOn.{WakePreparation, PowerOnAnswers}
use frame_tv_art_manager.Reconcile.Migration.FirstRun.{LegacyAnswers}
use frame_tv_art_manager.Reconcile.Loop.{Round, Attempt}
use frame_tv_art_manager.Reconcile.Service.Recover.{RecoverAnswers}

-- `Request`, whose TV is there, with `none` for the policy `Policy{}`, and the fields of the service
-- that `run` reads.
pub record Request : Type 0 where
  pub cycle_id : Text
  pub snapshot : Snapshot
  pub policy : Option Policy
  pub dry_run : Bool

pub record ServiceConfig : Type 0 where
  pub policy : Policy
  pub legacy_configured : Bool
  pub capacity_ttl : ℤ
  pub maximum_attempts : ℕ
  pub delays : Bool

-- What the world answers to the calls of one run, in their order.
pub record RunAnswers : Type 0 where
  pub observed : Observation
  pub observe_error : Option Err
  pub wake : WakeAnswers
  pub loaded : Result (Option State)
  pub legacy : LegacyAnswers
  pub recovery : RecoverAnswers
  pub power_on : PowerOnAnswers
  pub deferred : LegacyAnswers
  pub planned_at : ℕ
  pub rounds : List Round
  pub finished_at : ℕ
  pub finish_error : Option Err

-- `Result`, with the events and the error; `none` stands for Go's zero value. A run whose rounds are
-- used up is `unfinished`.
pub record RunResult : Type 0 where
  pub wake_events : List WakeEvent
  pub events : List Event
  pub status : Status
  pub plan : Option Plan
  pub state : Option State
  pub observation : Option Observation
  pub applied : List CommandKind
  pub rotation : RotationStatus
  pub power_off_attempted : Bool
  pub error : Option Err
  pub unfinished : Bool

abbrev pub no_result : RunResult
no_result = record {
  wake_events = [];
  events = [];
  status = Status.complete;
  plan = none;
  state = none;
  observation = none;
  applied = [];
  rotation = no_rotation;
  power_off_attempted = false;
  error = none;
  unfinished = false;
}

-- The events of an earlier step come before.
abbrev pub after_events : List Event → RunResult → RunResult
after_events events r = record r { events = events ++ r.events }

-- `Result{Observation: observation}`, with an error.
abbrev pub observed_only : Observation → Err → RunResult
observed_only o e = record no_result { observation = some o; error = some e }

-- `wakePreparation.result`.
abbrev pub prepared_result : WakePreparation → Status → State → Observation → Option Err → RunResult
prepared_result w status s o error = record no_result {
  status = status;
  plan = w.plan;
  state = some s;
  observation = some o;
  applied = w.applied;
  error = error;
}

-- `effectivePolicy`.
abbrev pub effective_policy : Policy → Option Policy → Policy
effective_policy configured none = configured
effective_policy configured (some requested) = normalize_policy requested

-- `validateRequest`.
unfoldable pub request_valid : (Text → Text) → Hashes → Request → Policy → Bool
unfolding snapshot_valid policy_valid
request_valid lower h q policy =
    not (is_blank q.cycle_id)
    && snapshot_valid h q.snapshot
    && not (q.snapshot.dry_run && not q.dry_run)
    && policy_valid lower policy

abbrev pub wants_on : Policy → Bool
wants_on policy = holds (PowerPolicy-discrete policy.power PowerPolicy.on)

-- `resultPlan`: the wake comes before the commands of the plan.
abbrev pub with_wake : Option Plan → Plan → Plan
with_wake none plan = plan
with_wake (some wake) plan = record plan { commands = wake.commands ++ plan.commands }

-- The events of the loop's commands; the log has the latest first.
unfoldable pub history : List Attempt → List Event
history [] = []
history (a ∷ log) = history log ++ a.run.events
