-- ===== src/Samsung/Types.antt =====
-- The facts and receipts that pass between the Samsung adapter and reconciliation
-- (internal/samsung/adapter_types.go, errors.go, slideshow_setting.go). The authorization token of
-- an observation is made and used inside the adapter, and has no field here.
use frame_tv_art_manager.Prelude.{ℕ, Text, Bool, true, false, List, ◌&&◌, not, ℕ_discrete}
use frame_tv_art_manager.Prelude.Int.{ℤ, is_negative, max_ℤ, min_ℤ}

pub data PowerState : Type 0 where
  power_unknown power_on power_off : PowerState

pub data ArtModeState : Type 0 where
  art_unknown art_on art_off : ArtModeState

pub data Support : Type 0 where
  support_unknown supported unsupported : Support

pub data ConnectionState : Type 0 where
  disconnected connecting ready backing_off auth_required : ConnectionState

pub data Disposition : Type 0 where
  unsafe_unknown eligible blocked_power_off blocked_not_art_mode blocked_backoff
        blocked_quiet_gate :
      Disposition

pub record Capabilities : Type 0 where
  pub art_state_observation : Support
  pub user_art_inventory : Support
  pub image_upload : Support
  pub image_deletion : Support
  pub image_selection : Support
  pub slideshow_read : Support
  pub slideshow_write : Support
  pub brightness_read : Support
  pub brightness_write : Support
  pub remote_power : Support

-- `samsung.TVIdentity`, with the name that tells it from reconciliation's record.
pub record ObservedTv : Type 0 where
  pub address : Text
  pub model : Text
  pub firmware_version : Text
  pub device_id : Text
  pub known : Bool

-- Times are counted in nanoseconds from Go's zero time; 0 is the zero time.
pub record Inventory : Type 0 where
  pub category_id : Text
  pub content_ids : List Text
  pub fingerprint : List ℕ
  pub known : Bool
  pub observed_at : ℕ

-- A playback kind is a string on the wire; the two that Samsung plays have names.
pub data SlideshowKind : Type 0 where
  sequential shuffle : SlideshowKind
  other_kind : Text → SlideshowKind

pub record SlideshowSetting : Type 0 where
  pub interval : ℤ
  pub kind : SlideshowKind
  pub category : Text

pub record SlideshowObservation : Type 0 where
  pub setting : SlideshowSetting
  pub known : Bool
  pub observed_at : ℕ

pub record SettingObservation : Type 0 where
  pub value : ℤ
  pub min : ℤ
  pub max : ℤ
  pub known : Bool
  pub observed_at : ℕ

pub record Observation : Type 0 where
  pub tv : ObservedTv
  pub connection : ConnectionState
  pub power : PowerState
  pub art_mode : ArtModeState
  pub inventory : Inventory
  pub slideshow : SlideshowObservation
  pub brightness : SettingObservation
  pub capabilities : Capabilities
  pub observed_at : ℕ
  pub disposition : Disposition
  pub presumed_standby : Bool

pub data Outcome : Type 0 where
  not_attempted not_applied applied outcome_unknown : Outcome
  invalid_outcome : ℕ → Outcome

pub record Receipt : Type 0 where
  pub command_id : Text
  pub outcome : Outcome
  pub content_id : Text
  pub completed_at : ℕ

-- The commands that cross the adapter's boundary.
pub data Command : Type 0 where
  wake : Command
  power_off_command : Command
  upload : (path name file_type matte portrait_matte : Text) (digest : List ℕ) (size : ℤ) → Command
  delete : (content_id : Text) → Command
  select : (content_id : Text) → Command
  configure_slideshow : (previous desired : SlideshowSetting) → Command
  configure_brightness : (previous_value value : ℤ) → Command

abbrev is_playable : SlideshowKind → Bool
is_playable sequential = true
is_playable shuffle = true
is_playable (other_kind t) = false

-- `SlideshowKind.valid`.
unfoldable pub kind_valid : SlideshowKind → Bool
kind_valid kind = is_playable kind

-- `SlideshowSetting.Valid`.
unfoldable pub setting_valid : SlideshowSetting → Bool
unfolding kind_valid
setting_valid setting = not (is_negative setting.interval) && kind_valid setting.kind

-- `BrightnessReading.Clamp`: the value pinned to the TV's range.
unfoldable pub clamp : ℤ → ℤ → ℤ → ℤ
unfolding max_ℤ min_ℤ
clamp value low high = min_ℤ (max_ℤ value low) high

unfoldable pub PowerState-discrete : Discrete PowerState
PowerState-discrete = hlevel

unfoldable pub Support-discrete : Discrete Support
Support-discrete = hlevel

unfoldable pub Disposition-discrete : Discrete Disposition
Disposition-discrete = hlevel

unfoldable pub Outcome-discrete : Discrete Outcome
Outcome-discrete = hlevel ℕ_discrete

unfoldable pub SlideshowKind-discrete : Discrete SlideshowKind
SlideshowKind-discrete = hlevel ℕ_discrete

unfoldable pub SlideshowSetting-discrete : Discrete SlideshowSetting
SlideshowSetting-discrete = hlevel (ℕ_discrete)

unfoldable pub ArtModeState-discrete : Discrete ArtModeState
ArtModeState-discrete = hlevel
