-- ===== src/Reconcile/Validate.antt =====
-- internal/reconcile/validate.go. A check that returns an error there is `false` or `none` here: no
-- caller looks into these errors, it stops on any. Each loop stands in the source's order.
pub mod Maps
use frame_tv_art_manager.Prelude.{
  ℕ, Text, Text-discrete, ◌=ₜ◌, is_empty, is_blank, is_trimmed, is_abs, base, trim_space, Bool,
  true, false, not, ◌&&◌, ◌||◌, List, [], ◌∷◌, Option, none, some, contains, holds, leb, length,
  ◌==◌, if◌then◌else◌,
}
use frame_tv_art_manager.Prelude.Int.{is_negative, is_positive, ℤ-discrete}
use frame_tv_art_manager.Prelude.Hex.{valid_digest}
use frame_tv_art_manager.Prelude.Dict.{Dict}
use frame_tv_art_manager.Samsung.Types.{
  Observation, Outcome, Outcome-discrete, setting_valid, SlideshowSetting,
}
use frame_tv_art_manager.Collection.Types.{FileType}
use frame_tv_art_manager.Reconcile.Types.{
  TvIdentity, State, Binding, Tombstone, CapacityEvidence, Pending, Phase, ReceiptSummary,
  CommandIntent, CommandKind, CommandKind-discrete, state_version,
}

-- `validateIdentity`.
unfoldable pub identity_valid : TvIdentity → Bool
identity_valid tv =
    not (is_blank tv.address)
    && not (is_blank tv.model)
    && (is_trimmed tv.address && is_trimmed tv.model && is_trimmed tv.firmware_version)

-- `identityFromObservation`.
unfoldable pub identity_from_observation : Observation → Option TvIdentity
unfolding identity_valid
identity_from_observation o =
    let tv : TvIdentity = record {
      address = trim_space o.tv.address;
      model = trim_space o.tv.model;
      firmware_version = trim_space o.tv.firmware_version;
      device_id = trim_space o.tv.device_id;
    } in
    if o.tv.known && identity_valid tv then some tv else none

-- `sameStableTV`.
unfoldable pub same_stable_tv : TvIdentity → TvIdentity → Bool
same_stable_tv left right =
    if not (is_empty left.device_id) && not (is_empty right.device_id)
    then left.device_id =ₜ right.device_id && left.model =ₜ right.model
    else left.address =ₜ right.address && left.model =ₜ right.model

-- `validateBinding`.
unfoldable pub binding_valid : Text → Binding → Bool
binding_valid key binding =
    (valid_digest key && binding.digest =ₜ key)
    && (not (is_blank binding.content_id) && is_trimmed binding.content_id)
    && (base binding.name =ₜ binding.name && not (is_blank binding.name))
    && (valid_digest binding.collection_generation && not (binding.confirmed_at == 0))

-- The loop over the bindings: each is valid, and no content ID is bound twice.
unfoldable pub bindings_valid : List Text → Dict Binding → Bool
unfolding binding_valid
bindings_valid seen [] = true
bindings_valid seen ((key, binding) ∷ rest) =
    binding_valid key binding
    && not (contains Text-discrete seen binding.content_id)
    && bindings_valid (binding.content_id ∷ seen) rest

-- The loop over the tombstones.
unfoldable pub tombstones_valid : Dict Tombstone → Bool
tombstones_valid [] = true
tombstones_valid ((key, tombstone) ∷ rest) =
    (not (is_blank key) && key =ₜ tombstone.content_id && not (is_blank tombstone.content_id))
    && (is_empty tombstone.digest || valid_digest tombstone.digest)
    && not (tombstone.recorded_at == 0)
    && tombstones_valid rest

-- `validateCapacityEvidence`.
unfoldable pub capacity_valid : CapacityEvidence → Bool
capacity_valid c =
    not (c.known && (is_negative c.maximum || c.observed_at == 0))
    && not (c.probe && not c.known)
    && not (is_negative c.shortfalls || is_positive c.shortfalls && not c.known)

unfoldable pub last_shown_valid : Dict ℕ → Bool
last_shown_valid [] = true
last_shown_valid ((digest, at) ∷ rest) =
    (valid_digest digest && not (at == 0)) && last_shown_valid rest

abbrev pub is_nil {ℓ} : {A : Type ℓ} → List A → Bool
is_nil [] = true
is_nil (x ∷ xs) = false

-- `validateStateEvidence`.
unfoldable pub evidence_valid : State → Bool
unfolding capacity_valid last_shown_valid
evidence_valid s =
    capacity_valid s.capacity
    && last_shown_valid s.last_shown
    && not (
        s.legacy_migration_pending
        && (not (is_nil s.bindings)
            || not (is_empty s.last_complete_cycle)
            || not (is_empty s.last_collection_gen)))

abbrev pub is_image : FileType → Bool
is_image FileType.jpeg = true
is_image FileType.png = true
is_image (FileType.other_type t) = false

abbrev valid_setting? : Option SlideshowSetting → Bool
valid_setting? none = false
valid_setting? (some setting) = setting_valid setting

abbrev is_given {ℓ} : {A : Type ℓ} → Option A → Bool
is_given none = false
is_given (some a) = true

unfoldable pub intent_valid_as : CommandKind → CommandIntent → Bool
intent_valid_as CommandKind.upload i =
    valid_digest i.digest
    && not (is_abs i.name)
    && base i.name =ₜ i.name
    && not (is_blank i.name)
    && is_abs i.path
    && is_image i.file_type
    && is_positive i.size
    && not (is_blank i.matte)
    && leb (length i.matte) 128
    && is_trimmed i.portrait_matte
    && leb (length i.portrait_matte) 128
intent_valid_as CommandKind.delete_owned i = valid_digest i.digest && not (is_blank i.content_id)
intent_valid_as CommandKind.delete_unknown i =
    not (is_blank i.content_id) && i.remove_unknown_approved
intent_valid_as CommandKind.select i = not (is_blank i.content_id)
intent_valid_as CommandKind.slideshow i =
    valid_setting? i.previous_slideshow && valid_setting? i.desired_slideshow
intent_valid_as CommandKind.brightness i = is_given i.previous_value && is_given i.desired_value
intent_valid_as CommandKind.power_off i = true
intent_valid_as CommandKind.wake i = true
intent_valid_as (CommandKind.unknown_kind t) i = false

-- `validateIntent`.
unfoldable pub intent_valid : CommandIntent → Bool
unfolding intent_valid_as
intent_valid i = intent_valid_as i.kind i

-- `[sha256.Size]byte{}`.
unfoldable pub is_zero_digest : List ℕ → Bool
is_zero_digest [] = true
is_zero_digest (b ∷ bs) = b == 0 && is_zero_digest bs

abbrev is_applied_receipt : Option ReceiptSummary → Bool
is_applied_receipt none = false
is_applied_receipt (some r) =
    holds (Outcome-discrete r.outcome Outcome.applied)
    && not (is_blank r.command_id)
    && not (r.completed_at == 0)

abbrev is_unknown_receipt : Option ReceiptSummary → Bool
is_unknown_receipt none = true
is_unknown_receipt (some r) = holds (Outcome-discrete r.outcome Outcome.outcome_unknown)

unfoldable pub phase_valid : Phase → Option ReceiptSummary → Bool
phase_valid Phase.applied receipt = is_applied_receipt receipt
phase_valid Phase.outcome_unknown receipt = is_unknown_receipt receipt
phase_valid Phase.prepared receipt = not (is_given receipt)
phase_valid (Phase.invalid n) receipt = false

-- `validatePending`, with `validPendingFingerprints`.
unfoldable pub pending_valid : Pending → Bool
unfolding phase_valid intent_valid
pending_valid p =
    (not (is_blank p.operation_id) && not (is_blank p.cycle_id))
    && (valid_digest p.collection_gen
        && not (is_zero_digest p.policy_fingerprint)
        && (holds (CommandKind-discrete p.command.kind CommandKind.wake)
            || not (is_zero_digest p.inventory_before)))
    && intent_valid p.command
    && phase_valid p.phase p.receipt

abbrev pub is_applied_phase : Phase → Bool
is_applied_phase Phase.applied = true
is_applied_phase _ = false

abbrev pub pending_valid? : Option Pending → Bool
pending_valid? none = true
pending_valid? (some p) = pending_valid p

abbrev parked_valid? : Option Pending → Bool
parked_valid? none = true
parked_valid? (some p) =
    pending_valid p
    && (holds (CommandKind-discrete p.command.kind CommandKind.upload)
        && not (is_applied_phase p.phase))

pub head_valid : State → TvIdentity → Bool
unfolding identity_valid same_stable_tv
head_valid s expected =
    holds (ℤ-discrete s.version state_version)
    && identity_valid s.tv
    && same_stable_tv s.tv expected
    && not (s.revision == 0)

pub tail_valid : State → Bool
unfolding pending_valid
tail_valid s =
    parked_valid? s.unresolved_upload
    && (is_empty s.last_collection_gen || valid_digest s.last_collection_gen)

-- `validateState`.
unfoldable pub state_valid : State → TvIdentity → Bool
unfolding head_valid tail_valid bindings_valid tombstones_valid evidence_valid pending_valid
state_valid s expected =
    head_valid s expected
    && (bindings_valid [] s.bindings
        && (tombstones_valid s.tombstones && (evidence_valid s && pending_valid? s.pending)))
    && tail_valid s
