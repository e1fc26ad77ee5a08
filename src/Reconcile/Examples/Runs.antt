-- ===== src/Reconcile/Examples/Runs.antt =====
-- The theorems on a whole run, applied.
use frame_tv_art_manager.Reconcile.Service.Silent.{IsQuiet}
use frame_tv_art_manager.Prelude.{codes, none, some, true, false, refl}
use frame_tv_art_manager.Prelude.Int.{pos}
use frame_tv_art_manager.Reconcile.Errors.{ok}
use frame_tv_art_manager.Reconcile.Migration.FirstRun.{LegacyAnswers}
use frame_tv_art_manager.Reconcile.Service.Entry.{run_service}
use frame_tv_art_manager.Reconcile.Examples.Cycles.{off_answers}
use frame_tv_art_manager.Reconcile.Service.Woken.{WakesOnce}
use frame_tv_art_manager.Reconcile.Service.Start.{run}
use frame_tv_art_manager.Reconcile.Service.Request.{Request, ServiceConfig, RunAnswers}
use frame_tv_art_manager.Reconcile.Service.DryRun.{run-IsQuiet}
use frame_tv_art_manager.Reconcile.Protocol.Receipt.{IsOutside}
use frame_tv_art_manager.Reconcile.Protocol.Recorded.{AreKnown, run-AreKnown}
use frame_tv_art_manager.Reconcile.Examples.{policy, observation, snapshot, hashes}
use frame_tv_art_manager.Reconcile.Examples.Operations.{interrupted}
use frame_tv_art_manager.Reconcile.Examples.Cycles.{rounds, recover_answers, deletion_answers}

abbrev service : ServiceConfig
service = record {
  policy = policy;
  legacy_configured = false;
  capacity_ttl = pos 3600;
  maximum_attempts = 3;
  delays = false;
}

abbrev request : Request
request = record {
  cycle_id = codes "cycle";
  snapshot = snapshot;
  policy = some policy;
  dry_run = false;
}

abbrev no_mapping : LegacyAnswers
no_mapping = record { mapping = ok none; now = 90; save_error = none }

-- The store has an operation that was cut off; the TV does what it is asked.
abbrev run_answers : RunAnswers
run_answers = record {
  observed = observation;
  observe_error = none;
  wake = record {
    handled = ok 0;
    receipt = deletion_answers.receipt;
    wake_error = none;
    save_error = none;
    fresh = observation;
    observe_error = none;
  };
  loaded = ok (some interrupted);
  legacy = no_mapping;
  recovery = recover_answers;
  power_on = record { answers = deletion_answers; fresh = observation; observe_error = none };
  deferred = no_mapping;
  planned_at = 90;
  rounds = rounds;
  finished_at = 120;
  finish_error = none;
}

outside : IsOutside deletion_answers
outside = record {
  new_id = tt;
  prepare = tt;
  pace = tt;
  clear = tt;
  apply = tt;
  receipt = tt;
  resolve = tt;
}

run-AreKnown_example :
    AreKnown (some interrupted) (run (λ t. t) hashes service request run_answers).events
    × WakesOnce
        (λ t. t)
        hashes
        service
        request
        run_answers
        (run (λ t. t) hashes service request run_answers).wake_events
run-AreKnown_example =
    run-AreKnown (λ t. t) hashes service request run_answers (some interrupted) refl refl
      (outside, tt) outside

abbrev rehearsal : Request
rehearsal = record request { dry_run = true }

run-IsQuiet_example :
    IsQuiet (run (λ t. t) hashes service rehearsal run_answers)
    × IsQuiet (run_service (λ t. t) hashes service rehearsal run_answers off_answers false)
run-IsQuiet_example =
    run-IsQuiet (λ t. t) hashes service rehearsal run_answers off_answers false refl
