-- ===== src/Reconcile/Execution/Execute.antt =====
-- `execute` of internal/reconcile/execution.go, in the order of its early returns.
use frame_tv_art_manager.Prelude.{ℕ, Text, if◌then◌else◌, List, Option, none, some, holds}
use frame_tv_art_manager.Reconcile.Inputs.{fingerprint_policy}
use frame_tv_art_manager.Samsung.Types.{Observation, Command}
use frame_tv_art_manager.Reconcile.Types.{
  State, Pending, Phase, CommandIntent, CommandKind, CommandKind-discrete, Hashes, Policy,
}
use frame_tv_art_manager.Reconcile.Errors.{or_plain, Result, ok, err, Err}
use frame_tv_art_manager.Reconcile.Execution.{
  samsung_command, Answers, Run, return, save, send, panic, bump, join,
}
use frame_tv_art_manager.Reconcile.Execution.Receipts.{handle_receipt}

pub record ExecutionInput : Type 0 where
  pub cycle_id : Text
  pub generation : Text
  pub policy : Policy
  pub state : State
  pub observation : Observation
  pub intent : CommandIntent

-- The write-ahead record of a command.
abbrev pub prepared_pending : ExecutionInput → Answers → Text → List ℕ → Pending
prepared_pending i a operation_id fingerprint = record {
  operation_id = operation_id;
  cycle_id = i.cycle_id;
  collection_gen = i.generation;
  policy_fingerprint = fingerprint;
  inventory_before = i.observation.inventory.fingerprint;
  command = i.intent;
  phase = Phase.prepared;
  receipt = none;
  prepared_at = some a.prepared_at;
  inventory_before_ids =
      if holds (CommandKind-discrete i.intent.kind CommandKind.upload)
      then some i.observation.inventory.content_ids
      else none;
}

abbrev pub prepared_state : State → Pending → State
prepared_state s p = record (bump s) { pending = some p }

module _ (lower : Text → Text) (h : Hashes) where
  -- The command is sent, and its receipt handled.
  unfoldable pub send_prepared :
      ExecutionInput → Answers → State → Pending → Option (Result Command) → Run
  send_prepared i a s p none = panic s i.observation
  send_prepared i a s p (some (err e)) = return s i.observation (some e)
  send_prepared i a s p (some (ok c)) = send c (handle_receipt h a i.observation s p)

  -- The pacing was interrupted: the record is cleared again.
  unfoldable pub abandon : ExecutionInput → Answers → State → Err → Run
  abandon i a s e =
      let cleared = record (bump s) { pending = none } in
      save cleared a.clear_error (λ error. elim error [
        | none ↦ return cleared i.observation (some e)
        | some f ↦ return s i.observation (some (join e (some f)))
      ])

  unfoldable pub execute_paced : ExecutionInput → Answers → State → Pending → Option Err → Run
  unfolding send_prepared abandon
  execute_paced i a s p none = send_prepared i a s p (samsung_command i.intent)
  execute_paced i a s p (some e) = abandon i a s e

  unfoldable pub execute_saved : ExecutionInput → Answers → State → Pending → Option Err → Run
  unfolding execute_paced
  execute_saved i a s p none = execute_paced i a s p a.pace_error
  execute_saved i a s p (some e) = return s i.observation (some e)

  unfoldable pub execute_with : ExecutionInput → Answers → Pending → Run
  unfolding execute_saved
  execute_with i a p =
      save (prepared_state i.state p) a.prepare_error
        (execute_saved i a (prepared_state i.state p) p)

  unfoldable pub execute_checked : ExecutionInput → Answers → Result Text → Result (List ℕ) → Run
  unfolding execute_with
  execute_checked i a (err e) fingerprint = return i.state i.observation (some e)
  execute_checked i a (ok operation_id) (err e) = return i.state i.observation (some e)
  execute_checked i a (ok operation_id) (ok fingerprint) =
      execute_with i a (prepared_pending i a operation_id fingerprint)

  -- `execute`.
  unfoldable pub execute : ExecutionInput → Answers → Run
  unfolding execute_checked
  execute i a = execute_checked i a a.new_id (or_plain (fingerprint_policy lower h i.policy))
