-- ===== src/Reconcile/Types.antt =====
-- The records and enumerations of reconciliation (internal/reconcile/types.go, matte_policy.go).
-- Go's maps are never nil here: `validateState` refuses a state file without them, and all other
-- states are made with them. `MatteOverrides` keeps the entries of its canonical JSON text.
use frame_tv_art_manager.Prelude.{
  ℕ, ◌*◌, Text, codes, Bool, false, List, [], Option, none, ℕ_discrete,
}
use frame_tv_art_manager.Prelude.Int.{ℤ-discrete, ℤ, pos}
use frame_tv_art_manager.Prelude.Dict.{Dict}
use frame_tv_art_manager.Samsung.Types.{SlideshowSetting-discrete, Outcome, SlideshowSetting}
use frame_tv_art_manager.Collection.Types.{FileType-discrete, FileType, Item}

abbrev pub state_version : ℤ
state_version = pos 1

abbrev pub default_matte : Text
default_matte = codes "none"

-- Durations in nanoseconds.
abbrev pub second : ℕ
second = 1_000_000_000

abbrev pub minute : ℕ
minute = 60 * second

abbrev pub hour : ℕ
hour = 60 * minute

pub data Status : Type 0 where
  complete known_skip incomplete_dry_run unsupported recovery_required persistence_unknown
        not_applied storage_full :
      Status

pub data PolicyMode : Type 0 where
  preserve disable set adjust : PolicyMode
  invalid : ℕ → PolicyMode

pub data PowerPolicy : Type 0 where
  preserve off on : PowerPolicy
  invalid : ℕ → PowerPolicy

pub record SettingPolicy : Type 0 where
  pub mode : PolicyMode
  pub value : ℤ

pub record SlideshowPolicy : Type 0 where
  pub mode : PolicyMode
  pub setting : SlideshowSetting

pub record MatteOverride : Type 0 where
  pub filename : Text
  pub matte : Text

unfoldable pub MatteOverride-discrete : Discrete MatteOverride
MatteOverride-discrete = hlevel ℕ_discrete

pub record Policy : Type 0 where
  pub remove_unknown : Bool
  pub allow_empty : Bool
  pub select : Bool
  pub default_matte : Text
  pub portrait_matte : Text
  pub matte_overrides : List MatteOverride
  pub power : PowerPolicy
  pub slideshow : SlideshowPolicy
  pub brightness : SettingPolicy
  pub rotation : ℤ
  pub wake_boundary : ℕ

pub data Phase : Type 0 where
  prepared outcome_unknown applied : Phase
  invalid : ℕ → Phase

pub data CommandKind : Type 0 where
  upload delete_owned delete_unknown select slideshow brightness power_off wake : CommandKind
  unknown_kind : Text → CommandKind

unfoldable pub PowerPolicy-discrete : Discrete PowerPolicy
PowerPolicy-discrete = hlevel ℕ_discrete

unfoldable pub CommandKind-discrete : Discrete CommandKind
CommandKind-discrete = hlevel ℕ_discrete

pub record CommandIntent : Type 0 where
  pub kind : CommandKind
  pub digest : Text
  pub content_id : Text
  pub name : Text
  pub path : Text
  pub file_type : FileType
  pub size : ℤ
  pub matte : Text
  pub portrait_matte : Text
  pub previous_slideshow : Option SlideshowSetting
  pub desired_slideshow : Option SlideshowSetting
  pub previous_value : Option ℤ
  pub desired_value : Option ℤ
  pub remove_unknown_approved : Bool

unfoldable pub CommandIntent-discrete : Discrete CommandIntent
unfolding CommandKind-discrete FileType-discrete SlideshowSetting-discrete ℤ-discrete
CommandIntent-discrete =
    hlevel
      (CommandKind-discrete, FileType-discrete, SlideshowSetting-discrete, ℤ-discrete, ℕ_discrete)

-- The zero value of Go's struct, with its kind.
abbrev pub intent_of : CommandKind → CommandIntent
intent_of kind = record {
  kind = kind;
  digest = [];
  content_id = [];
  name = [];
  path = [];
  file_type = FileType.other_type [];
  size = pos 0;
  matte = [];
  portrait_matte = [];
  previous_slideshow = none;
  desired_slideshow = none;
  previous_value = none;
  desired_value = none;
  remove_unknown_approved = false;
}

pub record RotationStatus : Type 0 where
  pub active : Bool
  pub waiting : ℕ
  pub next_at : ℕ

pub record Plan : Type 0 where
  pub collection_generation : Text
  pub policy_fingerprint : List ℕ
  pub inventory_fingerprint : List ℕ
  pub capacity_limited : Bool
  pub rotation : RotationStatus
  pub commands : List CommandIntent
  pub prune_bindings : List Text

pub record TvIdentity : Type 0 where
  pub address : Text
  pub model : Text
  pub firmware_version : Text
  pub device_id : Text

pub record Binding : Type 0 where
  pub digest : Text
  pub content_id : Text
  pub name : Text
  pub collection_generation : Text
  pub confirmed_at : ℕ

pub record Tombstone : Type 0 where
  pub digest : Text
  pub content_id : Text
  pub recorded_at : ℕ

pub record CapacityEvidence : Type 0 where
  pub known : Bool
  pub maximum : ℤ
  pub observed_at : ℕ
  pub probe : Bool
  pub shortfalls : ℤ

-- `CapacityEvidence{}`.
abbrev pub no_evidence : CapacityEvidence
no_evidence = record {
  known = false;
  maximum = pos 0;
  observed_at = 0;
  probe = false;
  shortfalls = pos 0;
}

pub record ReceiptSummary : Type 0 where
  pub command_id : Text
  pub outcome : Outcome
  pub content_id : Text
  pub completed_at : ℕ

pub record Pending : Type 0 where
  pub operation_id : Text
  pub cycle_id : Text
  pub collection_gen : Text
  pub policy_fingerprint : List ℕ
  pub inventory_before : List ℕ
  pub command : CommandIntent
  pub phase : Phase
  pub receipt : Option ReceiptSummary
  pub prepared_at : Option ℕ
  pub inventory_before_ids : Option (List Text)

pub record State : Type 0 where
  pub version : ℤ
  pub tv : TvIdentity
  pub revision : ℕ  -- uint64
  pub bindings : Dict Binding
  pub tombstones : Dict Tombstone
  pub capacity : CapacityEvidence
  pub last_shown : Dict ℕ
  pub legacy_migration_pending : Bool
  pub pending : Option Pending
  pub unresolved_upload : Option Pending
  pub last_complete_cycle : Text
  pub last_collection_gen : Text

-- SHA-256 over JSON: what the program fingerprints, each by a function of the value. The texts that
-- it writes as a generation are hexadecimal digests.
pub record Hashes : Type 0 where
  pub inventory : List Text → List ℕ
  pub policy : Policy → List ℕ
  pub generation : List Item → Text
