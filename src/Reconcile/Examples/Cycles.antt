-- ===== src/Reconcile/Examples/Cycles.antt =====
-- The theorems on a cycle's loop, its end and its recovery, applied.
use frame_tv_art_manager.Reconcile.Errors.{Cause}
use frame_tv_art_manager.Reconcile.Service.PowerOff.Due.{
  power_off_after_failure-IsCareful, IsCareful,
}
use frame_tv_art_manager.Reconcile.Service.PowerOff.{
  power_off_after_failure, PowerOffAnswers, Failed,
}
use frame_tv_art_manager.Reconcile.Types.{PowerPolicy}
use frame_tv_art_manager.Prelude.{
  List, [], ◌∷◌, codes, none, false, true, arith, ◌≡◌, refl, Text-discrete, ℕ_discrete, trim_space,
  base, contains, text_compare,
}
use frame_tv_art_manager.Prelude.Int.{pos}
use frame_tv_art_manager.Prelude.Dict.{lookup}
use frame_tv_art_manager.Prelude.Sort.{sort_func}
use frame_tv_art_manager.Prelude.Hex.{valid_digest, hex_decode, from_hex, hex_encode, hex_digit}
use frame_tv_art_manager.Samsung.Types.{Outcome}
use frame_tv_art_manager.Reconcile.Validate.{is_zero_digest}
use frame_tv_art_manager.Reconcile.Inputs.{snapshot_valid}
use frame_tv_art_manager.Reconcile.Execution.{Answers}
use frame_tv_art_manager.Reconcile.Execution.Keys.{IsMap}
use frame_tv_art_manager.Reconcile.Service.{End, converge}
use frame_tv_art_manager.Reconcile.Loop.{Setup, Round, Loop, begin}
use frame_tv_art_manager.Reconcile.Service.Hooks.{EndHas}
use frame_tv_art_manager.Reconcile.Service.Cycle.{IsOrderly, converge-IsOrderly}
use frame_tv_art_manager.Reconcile.Service.Retries.{IsPatient, converge-IsPatient}
use frame_tv_art_manager.Reconcile.Service.Attempts.{IsWarrantedLog, converge-IsWarranted}
use frame_tv_art_manager.Reconcile.Service.Finish.{finish}
use frame_tv_art_manager.Reconcile.Service.Complete
use frame_tv_art_manager.Reconcile.Service.Complete.{finish-Outcome}
use frame_tv_art_manager.Reconcile.Service.Recover.{RecoverAnswers, recover}
use frame_tv_art_manager.Reconcile.Service.Recover.Settles.{IsRecovered, recover-IsRecovered}
use frame_tv_art_manager.Reconcile.Examples.{state, policy, observation, snapshot, hashes, digest_2}
use frame_tv_art_manager.Reconcile.Examples.Operations.{answers, interrupted}
use frame_tv_art_manager.Reconcile.Examples.Sendable.{collected, built}

-- Three pieces of artwork wait in a run without delays, which tries a command at most three times.
abbrev pub setup : Setup
setup = record {
  cycle_id = codes "cycle";
  snapshot = snapshot;
  policy = policy;
  capacity_ttl = pos 3600;
  maximum_attempts = 3;
  delays = false;
  unresolved = false;
}

-- The TV deletes the piece that is planned to go.
abbrev pub deletion_answers : Answers
deletion_answers = record answers {
  receipt = record {
    command_id = codes "cmd";
    outcome = Outcome.applied;
    content_id = [];
    completed_at = 95;
  };
}

abbrev pub rounds : List Round
rounds =
    record {
      observed = observation;
      observe_error = none;
      planned_at = 100;
      answers = deletion_answers;
      replanned_at = 110;
    }
    ∷ []

abbrev first : Loop
first = begin state observation built []

abbrev run_end : End
run_end = converge (λ t. t) hashes setup rounds first

converge-IsOrderly_example : EndHas (λ l. IsOrderly false l.log) run_end
converge-IsOrderly_example =
    converge-IsOrderly (λ t. t) hashes setup state observation built [] rounds

converge-IsPatient_example : EndHas (λ l. IsPatient 3 l.log) run_end
converge-IsPatient_example =
    converge-IsPatient (λ t. t) hashes setup state observation built [] rounds (omega arith)

state-IsMap : IsMap state
unfolding lookup Text-discrete ℕ_discrete
state-IsMap = (refl, (refl, tt))

pub valid : snapshot_valid hashes snapshot ≡ true
unfolding snapshot_valid valid_digest hex_decode from_hex Text-discrete ℕ_discrete sort_func
    text_compare contains base is_zero_digest hex_encode hex_digit trim_space
valid = refl

converge-IsWarranted_example : EndHas (λ l. IsWarrantedLog (λ t. t) hashes setup l.log) run_end
converge-IsWarranted_example =
    converge-IsWarranted (λ t. t) hashes setup state observation built [] rounds valid collected
      state-IsMap

-- A loop that ended with nothing left to do, and with a piece that was seen to be gone.
abbrev last : Loop
last = record first {
  plan = record built { commands = []; capacity_limited = false };
  prune = digest_2 ∷ [];
}

finish-Outcome_example : Complete.Outcome setup last (finish setup last 120 none)
finish-Outcome_example = finish-Outcome setup last 120 none

abbrev pub recover_answers : RecoverAnswers
recover_answers = record {
  resolved_at = 100;
  resolve_error = none;
  park_error = none;
  settled_at = 100;
  settle_error = none;
}

recover-IsRecovered_example :
    IsRecovered false interrupted (recover false observation recover_answers interrupted)
recover-IsRecovered_example =
    recover-IsRecovered false observation recover_answers interrupted state-IsMap

-- A run that failed, whose policy asks to turn the TV off.
abbrev evening : Setup
evening = record setup { policy = record policy { power = PowerPolicy.off } }

abbrev failed_run : Failed
failed_run = record {
  state = state;
  observation = observation;
  applied = [];
  power_off_attempted = false;
}

abbrev pub off_answers : PowerOffAnswers
off_answers = record { observed = observation; observe_error = none; answers = deletion_answers }

power_off_after_failure-IsCareful_example :
    IsCareful
      (λ t. t)
      hashes
      false
      evening
      off_answers
      failed_run
      (Cause.plain ∷ [])
      (power_off_after_failure
        (λ t. t)
        hashes
        false
        evening
        off_answers
        failed_run
        (Cause.plain ∷ []))
power_off_after_failure-IsCareful_example =
    power_off_after_failure-IsCareful (λ t. t) hashes false evening off_answers failed_run
      (Cause.plain ∷ [])
