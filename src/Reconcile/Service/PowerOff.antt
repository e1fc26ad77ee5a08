-- ===== src/Reconcile/Service/PowerOff.antt =====
-- internal/reconcile/power_off.go: `powerOffAfterFailure`, with the policy that is in effect. The run
-- has a TV.
pub mod Due
use frame_tv_art_manager.Prelude.Int.{pos, ℤ-discrete}
use frame_tv_art_manager.Reconcile.Execution.Execute.{execute, ExecutionInput}
use frame_tv_art_manager.Reconcile.Loop.{is_eligible, Setup}
use frame_tv_art_manager.Reconcile.Execution.{Run, Event, Answers}
use frame_tv_art_manager.Reconcile.Validate.{identity_from_observation, same_stable_tv}
use frame_tv_art_manager.Reconcile.Errors.{error_is, Cause, Err}
use frame_tv_art_manager.Samsung.Types.{Observation}
use frame_tv_art_manager.Reconcile.Types.{
  PowerPolicy, Policy, CommandKind-discrete, PowerPolicy-discrete, intent_of, TvIdentity, Pending,
  CommandKind, Hashes, State,
}
use frame_tv_art_manager.Prelude.{
  ◌||◌, holds, contains, not, ◌++◌, if◌then◌else◌, Bool, Option, List, Text, ℕ, suc, true, false,
  none, some, [], ◌∷◌, refl, arith,
}

-- What a failed run leaves, as far as it is read here.
pub record Failed : Type 0 where
  pub state : State
  pub observation : Observation
  pub applied : List CommandKind
  pub power_off_attempted : Bool

-- The fresh observation or its error, and the answers to the command.
pub record PowerOffAnswers : Type 0 where
  pub observed : Observation
  pub observe_error : Option Err
  pub answers : Answers

-- The result, with the error that the run returns in the end.
pub record PoweredOff : Type 0 where
  pub failed : Failed
  pub events : List Event
  pub error : Err

abbrev pub unchanged : Failed → Err → PoweredOff
unchanged failed error = record { failed = failed; events = []; error = error }

abbrev pub is_pending : Option Pending → Bool
is_pending none = false
is_pending (some p) = true

-- The condition on which the failure is left as it is.
unfoldable pub leaves_failure : Bool → Policy → Failed → Err → Bool
unfolding PowerPolicy-discrete CommandKind-discrete contains error_is
leaves_failure dry_run policy failed e =
    not (holds (PowerPolicy-discrete policy.power PowerPolicy.off))
    || dry_run
    || failed.power_off_attempted
    || contains CommandKind-discrete failed.applied CommandKind.power_off
    || holds (ℤ-discrete failed.state.version (pos 0))
    || is_pending failed.state.pending
    || error_is e Cause.persistence_unknown

unfoldable pub is_same_tv : State → Option TvIdentity → Bool
unfolding same_stable_tv
is_same_tv s none = false
is_same_tv s (some identity) = same_stable_tv identity s.tv

module _ (lower : Text → Text) (h : Hashes) (dry_run : Bool) (c : Setup) where
  abbrev pub off_input : Failed → Observation → ExecutionInput
  off_input failed o = record {
    cycle_id = c.cycle_id;
    generation = c.snapshot.generation;
    policy = c.policy;
    state = failed.state;
    observation = o;
    intent = intent_of CommandKind.power_off;
  }

  -- After the command: a failure of its own joins that of the run.
  unfoldable pub after_off : Failed → Err → Run → Option Err → PoweredOff
  after_off failed e run (some f) = record {
    failed = record failed { state = run.done.state; observation = run.done.observation };
    events = run.events;
    error = e ++ f;
  }
  after_off failed e run none = record {
    failed = record failed {
      state = run.done.state;
      observation = run.done.observation;
      applied = failed.applied ++ CommandKind.power_off ∷ [];
    };
    events = run.events;
    error = e;
  }

  unfoldable pub off_observed : PowerOffAnswers → Failed → Err → Option Err → PoweredOff
  unfolding after_off is_same_tv identity_from_observation
  off_observed a failed e (some f) = unchanged failed (e ++ f)
  off_observed a failed e none =
      if not (is_eligible a.observed)
      then unchanged failed e
      else if not (is_same_tv failed.state (identity_from_observation a.observed))
      then unchanged failed (e ++ Cause.plain ∷ [])
      else (let run =
            execute lower h (off_input failed a.observed)
              (record a.answers { pace_error = none }) in
          after_off failed e run run.done.error)

  -- `powerOffAfterFailure`.
  unfoldable pub power_off_after_failure : PowerOffAnswers → Failed → Err → PoweredOff
  unfolding off_observed leaves_failure
  power_off_after_failure a failed e =
      if leaves_failure dry_run c.policy failed e
      then unchanged failed e
      else off_observed a failed e a.observe_error
