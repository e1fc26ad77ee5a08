-- ===== src/Samsung/Adapter/Apply.antt =====
-- internal/samsung/adapter_apply.go: `Apply`, with its one write.
use frame_tv_art_manager.Samsung.Adapter.Verify.{verify_postcondition, ApplyAnswers, Sent}
use frame_tv_art_manager.Samsung.Adapter.{
  Authorization, authorize_command, Config, next_generation, Adapter,
}
use frame_tv_art_manager.Samsung.Adapter.Guard.{
  fresh_command_guard, publish_guard, GuardReads, resolve_upload_mattes,
}
use frame_tv_art_manager.Samsung.Types.{Inventory, Outcome-discrete, Receipt, Command, Outcome}
use frame_tv_art_manager.Prelude.{
  [], if◌then◌else◌, ◌∷◌, trim_space, none, some, holds, ℕ, List, Option, Text,
}
use frame_tv_art_manager.Samsung.Errors.{
  Fault, Failure, answer, mutation_failure_outcome, command_error, refused, Classified,
  as_classified, Reply,
}
use frame_tv_art_manager.Samsung.Adapter.Prepare.{prepare_command, Prepared, PreparedUpload}

abbrev mutation_as : Command → PreparedUpload → Inventory → GuardReads → Sent
mutation_as (Command.upload path name file_type matte portrait_matte digest size) u inventory
      reads =
    Sent.upload (resolve_upload_mattes reads.mattes u) inventory.content_ids
mutation_as (Command.delete id) u inventory reads = Sent.delete (trim_space id)
mutation_as (Command.select id) u inventory reads = Sent.select (trim_space id)
mutation_as (Command.configure_slideshow previous desired) u inventory reads =
    Sent.slideshow desired
mutation_as (Command.configure_brightness previous value) u inventory reads = Sent.brightness value
mutation_as Command.wake u inventory reads = Sent.wake
mutation_as Command.power_off_command u inventory reads = Sent.power_off

-- What `executeMutation` gives the transport.
unfoldable pub mutation_of : Prepared → Inventory → GuardReads → Sent
unfolding resolve_upload_mattes
mutation_of prepared inventory reads = mutation_as prepared.command prepared.upload inventory reads

-- The adapter after a call, with what it has sent, its receipt and its error.
pub record Applied : Type 0 where
  pub adapter : Adapter
  pub sent : List Sent
  pub receipt : Receipt
  pub error : Option Failure

abbrev pub outcome_of : Outcome → Option Classified → Outcome
outcome_of outcome none = outcome
outcome_of outcome (some c) = c.outcome

-- `finishCommand`: an error that is classified gives the outcome.
unfoldable pub finish_command : Adapter → List Sent → Receipt → ℕ → Option Failure → Applied
unfolding as_classified
finish_command a sent receipt now none = record {
  adapter = a;
  sent = sent;
  receipt = record receipt { completed_at = now };
  error = none;
}
finish_command a sent receipt now (some e) = record {
  adapter = a;
  sent = sent;
  receipt = record receipt {
    outcome = outcome_of receipt.outcome (as_classified e);
    completed_at = now;
  };
  error = some e;
}

abbrev pub receipt_of : Text → Outcome → Text → Receipt
receipt_of command_id outcome content_id = record {
  command_id = command_id;
  outcome = outcome;
  content_id = content_id;
  completed_at = 0;
}

-- `invalidateAuthorization`.
unfoldable pub invalidate_authorization : Adapter → Adapter
unfolding next_generation
invalidate_authorization a = record a {
  connection_generation = next_generation a.connection_generation;
}

abbrev pub seen_in : Option (List ℕ) → Adapter → Adapter
seen_in none a = a
seen_in (some fingerprint) a = record a { inventory_fingerprint = fingerprint }

abbrev pub verify_error : Outcome → Option Failure → Option Failure
verify_error outcome none = none
verify_error outcome (some e) = some (command_error outcome e)

-- The error of `Apply` after a failed write. `errors.As` finds a classified one, which is returned
-- with what comes after it.
unfoldable pub from_classified : Failure → Failure
from_classified [] = []
from_classified (Fault.classified c ∷ rest) = Fault.classified c ∷ rest
from_classified (_ ∷ rest) = from_classified rest

unfoldable pub write_failure_as : Option Classified → Failure → Failure
unfolding mutation_failure_outcome from_classified
write_failure_as none e = command_error (mutation_failure_outcome e) e
write_failure_as (some c) e =
    if holds (Outcome-discrete c.outcome Outcome.applied)
    then command_error (mutation_failure_outcome e) e
    else from_classified e

unfoldable pub write_failure : Failure → Failure
unfolding write_failure_as as_classified
write_failure e = write_failure_as (as_classified e) e

module _ (lower : Text → Text) (fingerprint : List Text → List ℕ) (config : Config)
    (answers : ApplyAnswers) where
  abbrev pub unattempted : Adapter → Failure → Applied
  unattempted a e =
      finish_command a [] (receipt_of answers.command_id Outcome.not_attempted [])
        answers.completed_at (some e)

  -- After the write: its error, or what the reads say.
  unfoldable pub apply_sent : Adapter → Command → Sent → Option Failure → Applied
  unfolding write_failure verify_postcondition finish_command
  apply_sent a command sent (some e) =
      finish_command a (sent ∷ [])
        (receipt_of answers.command_id Outcome.not_attempted answers.content_id)
        answers.completed_at (some (write_failure e))
  apply_sent a command sent none =
      let v = verify_postcondition fingerprint command answers in
      finish_command (seen_in v.fingerprint a) (sent ∷ [])
        (receipt_of answers.command_id v.outcome answers.content_id) answers.completed_at
        (verify_error v.outcome v.error)

  unfoldable pub apply_live : Adapter → Prepared → Inventory → Option Failure → Applied
  unfolding apply_sent mutation_of finish_command
  apply_live a prepared inventory (some e) = unattempted a (command_error Outcome.not_attempted e)
  apply_live a prepared inventory none =
      apply_sent a prepared.command (mutation_of prepared inventory answers.reads)
        answers.write_error

  unfoldable pub apply_guarded : Adapter → Prepared → Reply Inventory → Applied
  unfolding apply_live publish_guard finish_command
  apply_guarded a prepared (refused e) = unattempted a (command_error Outcome.not_attempted e)
  apply_guarded a prepared (answer inventory) =
      apply_live (publish_guard prepared.command inventory a) prepared inventory
        answers.context_late

  unfoldable pub apply_prepared : Adapter → Authorization → Reply Prepared → Applied
  unfolding apply_guarded fresh_command_guard finish_command
  apply_prepared a authorization (refused e) = unattempted a (command_error Outcome.not_attempted e)
  apply_prepared a authorization (answer prepared) =
      apply_guarded a prepared
        (fresh_command_guard fingerprint config authorization prepared.command answers.reads)

  unfoldable pub apply_authorized : Adapter → Authorization → Command → Option Failure → Applied
  unfolding apply_prepared prepare_command invalidate_authorization finish_command
  apply_authorized a authorization command (some e) = unattempted a e
  apply_authorized a authorization command none =
      apply_prepared (invalidate_authorization a) authorization
        (prepare_command lower answers.file command)

  -- `Apply`. The authorization is used up on return, which nothing in between looks at.
  unfoldable pub apply : Adapter → Authorization → Command → Applied
  unfolding apply_authorized authorize_command
  apply a authorization command =
      apply_authorized a authorization command
        (authorize_command config a answers.context authorization command)
