-- ===== src/Reconcile/Execution/Receipts.antt =====
-- internal/reconcile/receipt.go, and `receiptObservation` and `execute` of execution.go.
use frame_tv_art_manager.Prelude.{
  ℕ, Text, Text-discrete, ◌=ₜ◌, text_compare, Bool, true, ◌&&◌, if◌then◌else◌, List, [], ◌∷◌, ◌++◌,
  Option, none, some, contains, delete_func, length, holds,
}
use frame_tv_art_manager.Prelude.Int.{ℤ, pos}
use frame_tv_art_manager.Prelude.Sort.{sort_func}
use frame_tv_art_manager.Samsung.Types.{
  Observation, Outcome, Receipt, PowerState, Disposition, Outcome-discrete,
}
use frame_tv_art_manager.Reconcile.Types.{
  State, Pending, Phase, CommandIntent, CommandKind, CommandKind-discrete, Hashes, no_evidence,
}
use frame_tv_art_manager.Reconcile.Errors.{
  Result, ok, err, Err, Cause, error_is, safe_to_retry_mutation,
}
use frame_tv_art_manager.Reconcile.Rotation.{storage_full_capacity}
use frame_tv_art_manager.Reconcile.Recovery.{resolve_pending, settle}
use frame_tv_art_manager.Reconcile.Execution.{
  SlideshowSetting, Answers, Run, return, save, bump, with_receipt, join,
}

-- The inventory after an upload and after a deletion.
unfoldable pub with_content : List Text → Text → List Text
with_content ids id =
    sort_func text_compare (if contains Text-discrete ids id then ids else ids ++ id ∷ [])

unfoldable pub without_content : List Text → Text → List Text
without_content ids id = delete_func (λ j. j =ₜ id) ids

abbrev with_ids : Observation → List Text → Observation
with_ids o ids = record o { inventory = record o.inventory { content_ids = ids } }

observed_slideshow : Observation → Option SlideshowSetting → ℕ → Observation
observed_slideshow o none at = o
observed_slideshow o (some setting) at = record o {
  slideshow = record { setting = setting; known = true; observed_at = at };
}

observed_brightness : Observation → Option ℤ → ℕ → Observation
observed_brightness o none at = o
observed_brightness o (some value) at = record o {
  brightness = record { value = value; min = pos 0; max = pos 0; known = true; observed_at = at };
}

effect_as : CommandKind → Observation → CommandIntent → Receipt → Observation
unfolding with_content without_content observed_slideshow observed_brightness
effect_as CommandKind.upload o i r = with_ids o (with_content o.inventory.content_ids r.content_id)
effect_as CommandKind.delete_owned o i r =
    with_ids o (without_content o.inventory.content_ids i.content_id)
effect_as CommandKind.delete_unknown o i r =
    with_ids o (without_content o.inventory.content_ids i.content_id)
effect_as CommandKind.slideshow o i r = observed_slideshow o i.desired_slideshow r.completed_at
effect_as CommandKind.brightness o i r = observed_brightness o i.desired_value r.completed_at
effect_as CommandKind.power_off o i r = record o {
  power = PowerState.power_off;
  disposition = Disposition.blocked_power_off;
}
effect_as CommandKind.wake o i r = record o { power = PowerState.power_on }
effect_as kind o i r = o

-- `receiptObservation`. The settings of a setting command are there: `samsungCommand` has read them.
unfoldable pub receipt_observation : Hashes → Observation → CommandIntent → Receipt → Observation
unfolding effect_as
receipt_observation h o i r =
    let q = effect_as i.kind o i r in
    record q {
      inventory = record q.inventory { fingerprint = h.inventory q.inventory.content_ids };
    }

abbrev is_upload : CommandIntent → Bool
is_upload i = holds (CommandKind-discrete i.kind CommandKind.upload)

-- The capacity after an upload that the TV took: a probe that succeeded proves nothing more.
abbrev pub accepted : State → CommandIntent → State
accepted s i =
    if is_upload i
    then record s {
      capacity = record (if s.capacity.probe then no_evidence else s.capacity) {
        shortfalls = pos 0;
      };
    }
    else s

module _ (h : Hashes) (answers : Answers) (observation : Observation) where
  -- The second half of `handleAppliedReceipt`, once the receipt is saved.
  unfoldable pub finish_applied : State → Observation → Result State → Run
  finish_applied s updated (err e) = return s observation (some e)
  finish_applied s updated (ok resolved) = save (bump resolved) answers.resolve_error (λ error.
      elim error [
        | none ↦ return (bump resolved) updated none
        | some e ↦ return (bump resolved) observation (some e)
      ])

  -- `handleAppliedReceipt`.
  unfoldable pub handle_applied_receipt : State → Pending → Run
  unfolding finish_applied
  handle_applied_receipt state pending =
      let updated = receipt_observation h observation pending.command answers.receipt in
      let s = record (bump (accepted state pending.command)) {
        pending = some (with_receipt pending Phase.applied answers.receipt);
      } in
      save s answers.receipt_error (λ error. elim error [
        | some e ↦ return s observation (some e)
        | none ↦ finish_applied s updated (resolve_pending s observation answers.resolved_at)
      ])

  -- The unknown outcome of `handleReceipt`.
  unfoldable pub handle_unknown_receipt : State → Pending → Run
  handle_unknown_receipt state pending =
      let s = record (bump state) {
        pending = some (with_receipt pending Phase.outcome_unknown answers.receipt);
      } in
      save s answers.receipt_error (λ error.
        return s observation
          (some (join (join (Cause.recovery_required ∷ []) answers.apply_error) error)))

  -- The TV refused an upload because its storage is full.
  unfoldable pub is_storage_full : CommandIntent → Bool
  is_storage_full i =
      is_upload i
      && holds (Outcome-discrete answers.receipt.outcome Outcome.not_applied)
      && error_is (join [] answers.apply_error) Cause.storage_full

  -- The error that a rejected command returns.
  unfoldable pub rejection_error : Option Err → Err
  rejection_error none = Cause.plain ∷ []
  rejection_error (some e) =
      if safe_to_retry_mutation answers.receipt e then Cause.mutation_retry ∷ e else e

  -- `handleDefiniteRejection`.
  unfoldable pub handle_definite_rejection : State → Pending → Run
  unfolding is_storage_full rejection_error
  handle_definite_rejection state pending =
      let full = is_storage_full pending.command in
      let kept =
        if state.capacity.probe && is_upload pending.command then no_evidence else state.capacity in
      let s = record (settle (bump state)) {
        capacity =
            if full
            then storage_full_capacity state.capacity (length observation.inventory.content_ids)
                answers.resolved_at
            else kept;
      } in
      save s answers.receipt_error (λ error. elim error [
        | some e ↦ return s observation (some (join (join [] answers.apply_error) (some e)))
        | none ↦ return s observation (
            some (
              if full
              then Cause.storage_full_rejection ∷ join [] answers.apply_error
              else rejection_error answers.apply_error))
      ])

  unfoldable pub handle_receipt_as : Outcome → State → Pending → Run
  unfolding handle_applied_receipt handle_unknown_receipt handle_definite_rejection
  handle_receipt_as Outcome.applied state pending = handle_applied_receipt state pending
  handle_receipt_as Outcome.outcome_unknown state pending = handle_unknown_receipt state pending
  handle_receipt_as Outcome.not_attempted state pending = handle_definite_rejection state pending
  handle_receipt_as Outcome.not_applied state pending = handle_definite_rejection state pending
  handle_receipt_as (Outcome.invalid_outcome n) state pending =
      return state observation (some (Cause.plain ∷ []))

  -- `handleReceipt`.
  unfoldable pub handle_receipt : State → Pending → Run
  unfolding handle_receipt_as
  handle_receipt state pending = handle_receipt_as answers.receipt.outcome state pending
