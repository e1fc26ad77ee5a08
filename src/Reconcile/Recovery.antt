-- ===== src/Reconcile/Recovery.antt =====
-- internal/reconcile/execution.go: how a pending operation is settled from a fresh observation.
pub mod Parked
pub mod Validity
pub mod Facts
pub mod Operations
pub mod Resolution
pub mod Proof
pub mod Settled
use frame_tv_art_manager.Prelude.{
  ℕ, Text, Text-discrete, ◌=ₜ◌, is_blank, Bool, true, false, not, ◌&&◌, ◌||◌, if◌then◌else◌, List,
  [], ◌∷◌, ◌++◌, Option, none, some, contains, holds, length, delete_func, text_compare,
}
use frame_tv_art_manager.Prelude.Int.{ℤ, pos}
use frame_tv_art_manager.Prelude.Sort.{sort_func}
use frame_tv_art_manager.Prelude.Dict.{Dict, insert, delete, delete_where}
use frame_tv_art_manager.Samsung.Types.{
  Observation, Inventory, SlideshowSetting, SettingObservation, Outcome, Outcome-discrete, Receipt,
  PowerState, Support, Disposition,
}
use frame_tv_art_manager.Reconcile.Types.{
  State, Pending, Phase, Binding, CommandIntent, CommandKind, ReceiptSummary, CapacityEvidence,
  Hashes,
}
use frame_tv_art_manager.Reconcile.Errors.{Result, ok, err, Cause}
use frame_tv_art_manager.Reconcile.Rotation.{record_shown}

-- `uploadBinding`, with the content ID of the receipt.
unfoldable pub upload_binding : Pending → Text → ℕ → Binding
upload_binding pending content_id confirmed_at = record {
  digest = pending.command.digest;
  content_id = content_id;
  name = pending.command.name;
  collection_generation = pending.collection_gen;
  confirmed_at = confirmed_at;
}

-- The test of the loop in `foldUploadBinding`: the TV gave a content ID again that was bound to
-- other artwork.
abbrev pub is_reused : Text → Text → Text → Binding → Bool
is_reused digest content_id key binding = not (key =ₜ digest) && binding.content_id =ₜ content_id

unfoldable pub has_entry {ℓ} : {V : Type ℓ} → (Text → V → Bool) → Dict V → Bool
has_entry p [] = false
has_entry p ((k, v) ∷ m) = p k v || has_entry p m

-- The capacity that a full inventory shows.
abbrev pub measured : ℕ → ℕ → CapacityEvidence
measured count at = record {
  known = true;
  maximum = pos count;
  observed_at = at;
  probe = false;
  shortfalls = pos 0;
}

-- `foldUploadBinding`, with the content ID of the receipt.
unfoldable pub fold_upload_binding : State → Pending → Text → Observation → ℕ → State
unfolding upload_binding has_entry
fold_upload_binding state pending content_id observation confirmed_at =
    let digest = pending.command.digest in
    let ids = observation.inventory.content_ids in
    let reused = has_entry (is_reused digest content_id) state.bindings in
    record state {
      bindings =
          insert digest (upload_binding pending content_id confirmed_at)
            (delete_where (is_reused digest content_id) state.bindings);
      capacity =
          if reused
            && observation.inventory.known
            && pending.inventory_before =ₜ observation.inventory.fingerprint
            && contains Text-discrete ids content_id
          then measured (length ids) confirmed_at
          else state.capacity;
    }

abbrev pub needs_recovery {ℓ} : {A : Type ℓ} → Result A
needs_recovery = err (Cause.recovery_required ∷ [])

-- `state.Pending = nil`.
abbrev pub settle : State → State
settle s = record s { pending = none }

abbrev pub forget_owned : State → Text → Text → ℕ → State
forget_owned s digest content_id now =
    record_shown
      (record s {
        bindings = delete digest s.bindings;
        tombstones = delete content_id s.tombstones;
      })
      digest now

abbrev pub forget_unknown : State → Text → State
forget_unknown s content_id = record s { tombstones = delete content_id s.tombstones }

-- `resolveAppliedReceipt`.
unfoldable pub resolve_applied_receipt :
    State → Pending → Text → CommandKind → Observation → ℕ → Result State
unfolding fold_upload_binding
resolve_applied_receipt state pending content_id CommandKind.upload observation now =
    if is_blank content_id
    then needs_recovery
    else ok (settle (fold_upload_binding state pending content_id observation now))
resolve_applied_receipt state pending content_id CommandKind.delete_owned observation now =
    ok (settle (forget_owned state pending.command.digest pending.command.content_id now))
resolve_applied_receipt state pending content_id CommandKind.delete_unknown observation now =
    ok (settle (forget_unknown state pending.command.content_id))
resolve_applied_receipt state pending content_id (CommandKind.unknown_kind t) observation now =
    needs_recovery
resolve_applied_receipt state pending content_id kind observation now = ok (settle state)

abbrev pub is_applied : Phase → Bool
is_applied Phase.applied = true
is_applied _ = false

abbrev pub is_applied_outcome : Outcome → Bool
is_applied_outcome outcome = holds (Outcome-discrete outcome Outcome.applied)

-- The content ID of a receipt that says that the command was applied.
abbrev pub applied_content : Option ReceiptSummary → Option Text
applied_content none = none
applied_content (some r) = if is_applied_outcome r.outcome then some r.content_id else none

abbrev is_known_power : PowerState → Bool
is_known_power PowerState.power_unknown = false
is_known_power _ = true

abbrev is_unsupported : Support → Bool
is_unsupported Support.unsupported = true
is_unsupported _ = false

-- `settingSettled`.
unfoldable pub setting_settled : Bool → Support → Bool
setting_settled known support = known || is_unsupported support

abbrev is_given {ℓ} : {A : Type ℓ} → Option A → Bool
is_given none = false
is_given (some a) = true

-- The upload case of `resolvePending`.
unfoldable pub resolve_upload : State → Pending → Option Text → Observation → ℕ → Result State
unfolding upload_binding
resolve_upload state pending none observation now = needs_recovery
resolve_upload state pending (some content_id) observation now =
    if observation.inventory.known
      && not (is_blank content_id)
      && contains Text-discrete observation.inventory.content_ids content_id
    then ok (
        settle (record state {
          bindings =
              insert pending.command.digest (upload_binding pending content_id now) state.bindings;
        }))
    else needs_recovery

-- The deletion cases of `resolvePending`; `forget` is what a deletion that took place changes.
unfoldable pub resolve_deletion : State → Pending → State → Observation → Result State
resolve_deletion state pending forget observation =
    if not observation.inventory.known
    then needs_recovery
    else if contains Text-discrete observation.inventory.content_ids pending.command.content_id
    then (if is_applied pending.phase then needs_recovery else ok (settle state))
    else ok (settle forget)

-- The other commands settle, or keep recovery.
abbrev pub settle_if : Bool → State → Result State
settle_if settled state = if settled then ok (settle state) else needs_recovery

-- The switch of `resolvePending`.
unfoldable pub resolve_observed : State → Pending → CommandKind → Observation → ℕ → Result State
unfolding resolve_upload resolve_deletion setting_settled
resolve_observed state pending CommandKind.upload observation now =
    resolve_upload state pending (applied_content pending.receipt) observation now
resolve_observed state pending CommandKind.delete_owned observation now =
    resolve_deletion state pending
      (forget_owned state pending.command.digest pending.command.content_id now) observation
resolve_observed state pending CommandKind.delete_unknown observation now =
    resolve_deletion state pending (forget_unknown state pending.command.content_id) observation
resolve_observed state pending CommandKind.power_off observation now =
    settle_if (is_applied pending.phase || is_known_power observation.power) state
resolve_observed state pending CommandKind.wake observation now =
    settle_if (is_applied pending.phase || is_known_power observation.power) state
resolve_observed state pending CommandKind.slideshow observation now =
    settle_if
      (is_given pending.command.previous_slideshow
        && is_given pending.command.desired_slideshow
        && setting_settled observation.slideshow.known observation.capabilities.slideshow_read)
      state
resolve_observed state pending CommandKind.brightness observation now =
    settle_if
      (is_given pending.command.previous_value
        && is_given pending.command.desired_value
        && setting_settled observation.brightness.known observation.capabilities.brightness_read)
      state
resolve_observed state pending kind observation now = needs_recovery

-- The content ID of the receipt of an operation in the phase `applied`.
abbrev pub proven_content : Pending → Option Text
proven_content pending = if is_applied pending.phase then applied_content pending.receipt else none

unfoldable pub resolve_operation : State → Pending → Option Text → Observation → ℕ → Result State
unfolding resolve_applied_receipt resolve_observed
resolve_operation state pending (some content_id) observation now =
    resolve_applied_receipt state pending content_id pending.command.kind observation now
resolve_operation state pending none observation now =
    resolve_observed state pending pending.command.kind observation now

unfoldable pub resolve_pending? : State → Option Pending → Observation → ℕ → Result State
unfolding resolve_operation
resolve_pending? state none observation now = ok state
resolve_pending? state (some pending) observation now =
    resolve_operation state pending (proven_content pending) observation now

-- `resolvePending`. On an error the source returns the state as it was, with the error.
unfoldable pub resolve_pending : State → Observation → ℕ → Result State
unfolding resolve_pending?
resolve_pending state observation now = resolve_pending? state state.pending observation now
