-- ===== src/Reconcile/Examples/Operations.antt =====
-- The theorems on operations and their recovery, applied.
use frame_tv_art_manager.Reconcile.Wake.{WakeAnswers}
use frame_tv_art_manager.Prelude.{
  ℕ, ℕ_discrete, trim_space, Text-discrete, base, contains, codes, true, [], ◌∷◌, All, ◌≡◌, refl,
  ◌⊎◌, arith, none, some,
}
use frame_tv_art_manager.Reconcile.Validate.{is_zero_digest, state_valid}
use frame_tv_art_manager.Prelude.Hex.{valid_digest, hex_decode, from_hex}
use frame_tv_art_manager.Prelude.Dict.{lookup, insert, delete_where, HasUniqueKeys}
use frame_tv_art_manager.Prelude.Int.{ℤ-discrete, pos}
use frame_tv_art_manager.Collection.Types.{FileType}
use frame_tv_art_manager.Samsung.Types.{Observation, PowerState, Outcome-discrete, Outcome}
use frame_tv_art_manager.Reconcile.Types.{
  Policy, PowerPolicy, CommandKind-discrete, State, Pending, Phase, CommandIntent, CommandKind,
  intent_of,
}
use frame_tv_art_manager.Reconcile.Errors.{ok}
use frame_tv_art_manager.Reconcile.Recovery.{fold_upload_binding, resolve_pending}
use frame_tv_art_manager.Reconcile.Recovery.Resolution.{
  HasTrimmedContent, IsExplained, resolve_pending-IsValid,
}
use frame_tv_art_manager.Reconcile.Recovery.Parked.{
  named_content, resolve_unresolved_upload, released,
}
use frame_tv_art_manager.Reconcile.Execution.{Answers}
use frame_tv_art_manager.Reconcile.Execution.Execute.{ExecutionInput, execute}
use frame_tv_art_manager.Reconcile.Execution.Accounts.{IsSave}
use frame_tv_art_manager.Reconcile.Execution.WriteAhead.{Sends, execute-IsOrdered}
use frame_tv_art_manager.Reconcile.Examples.{
  tv, state, policy, observation, digest_1, digest_3, hashes, binding_1,
}

abbrev upload : CommandIntent
upload = record (intent_of CommandKind.upload) {
  digest = digest_3;
  name = codes "c.jpg";
  path = codes "/art/c.jpg";
  file_type = FileType.jpeg;
  size = pos 9;
  matte = codes "none";
}

-- The upload of a third piece, for which the TV gave the content ID of the second again.
abbrev applied_upload : Pending
applied_upload = record {
  operation_id = codes "op";
  cycle_id = codes "cycle";
  collection_gen = digest_3;
  policy_fingerprint = 8 ∷ [];
  inventory_before = 7 ∷ [];
  command = upload;
  phase = Phase.applied;
  receipt = some (record {
    command_id = codes "cmd";
    outcome = Outcome.applied;
    content_id = codes "MY_2";
    completed_at = 90;
  });
  prepared_at = some 80;
  inventory_before_ids = some (codes "MY_1" ∷ codes "MY_2" ∷ []);
}

abbrev pub interrupted : State
interrupted = record state { pending = some applied_upload }

-- The third piece takes the second's content ID, and the TV is known to be full.
abbrev resolved : State
resolved = record state {
  bindings =
      (digest_1, binding_1)
      ∷ (
        digest_3,
        record {
          digest = digest_3;
          content_id = codes "MY_2";
          name = codes "c.jpg";
          collection_generation = digest_3;
          confirmed_at = 100;
        },
      )
      ∷ [];
  capacity = record (state.capacity) { observed_at = 100 };
}

interrupted-valid : state_valid interrupted tv ≡ true
unfolding state_valid ℤ-discrete ℕ_discrete trim_space Text-discrete valid_digest hex_decode
    from_hex base contains is_zero_digest CommandKind-discrete Outcome-discrete
interrupted-valid = refl

interrupted-HasUniqueKeys : HasUniqueKeys interrupted.bindings
unfolding lookup Text-discrete ℕ_discrete
interrupted-HasUniqueKeys = (refl, (refl, tt))

interrupted-HasTrimmedContent : HasTrimmedContent interrupted
unfolding trim_space Outcome-discrete Text-discrete ℕ_discrete
interrupted-HasTrimmedContent = refl

interrupted-resolves : resolve_pending interrupted observation 100 ≡ ok resolved
unfolding resolve_pending insert delete_where Outcome-discrete contains Text-discrete ℕ_discrete
    trim_space
interrupted-resolves = refl

resolve_pending-IsValid_example :
    (state_valid resolved tv ≡ true)
    × (resolved.pending ≡ none)
    × IsExplained interrupted interrupted.pending resolved
resolve_pending-IsValid_example =
    resolve_pending-IsValid interrupted tv observation 100 resolved interrupted-valid
      interrupted-HasUniqueKeys refl (omega arith) interrupted-HasTrimmedContent
      interrupted-resolves

-- An upload whose receipt was lost, with nothing new on the TV five minutes later.
abbrev lost_upload : Pending
lost_upload = record applied_upload { phase = Phase.prepared; receipt = none }

abbrev parked : State
parked = record state { unresolved_upload = some lost_upload }

parked_settles :
    resolve_unresolved_upload parked observation 300_000_000_080 ≡ some (released parked)
unfolding resolve_unresolved_upload contains Text-discrete ℕ_discrete trim_space
parked_settles = refl

-- An upload that landed after all: its receipt names what is on the TV.
abbrev landed : State
landed = record state { unresolved_upload = some applied_upload }

abbrev bound : State
bound =
    fold_upload_binding (released landed) applied_upload (named_content applied_upload.receipt)
      observation 300_000_000_080

abbrev input : ExecutionInput
input = record {
  cycle_id = codes "cycle";
  generation = digest_3;
  policy = policy;
  state = state;
  observation = observation;
  intent = upload;
}

-- The TV takes the upload, and every write succeeds.
abbrev pub answers : Answers
answers = record {
  new_id = ok (codes "op");
  prepared_at = 80;
  prepare_error = none;
  pace_error = none;
  clear_error = none;
  receipt = record {
    command_id = codes "cmd";
    outcome = Outcome.applied;
    content_id = codes "MY_3";
    completed_at = 90;
  };
  apply_error = none;
  receipt_error = none;
  resolved_at = 100;
  resolve_error = none;
}

execute-IsOrdered_example :
    Sends input answers (execute (λ name. name) hashes input answers)
    ⊎ All IsSave (execute (λ name. name) hashes input answers).events
execute-IsOrdered_example = execute-IsOrdered (λ name. name) hashes input answers

-- The TV is off, no boundary is on record, and a wake is scheduled for 50.
abbrev switched_off : Observation
switched_off = record observation { power = PowerState.power_off }

abbrev waking : Policy
waking = record policy { power = PowerPolicy.on; wake_boundary = 50 }

abbrev wake_answers : ℕ → WakeAnswers
wake_answers handled = record {
  handled = ok handled;
  receipt = answers.receipt;
  wake_error = none;
  save_error = none;
  fresh = observation;
  observe_error = none;
}
