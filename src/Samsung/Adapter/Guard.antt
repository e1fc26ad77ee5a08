-- ===== src/Samsung/Adapter/Guard.antt =====
-- internal/samsung/adapter_apply.go, up to the write: the fresh read of the TV that a command must
-- agree with, and the mattes of an upload.
use frame_tv_art_manager.Samsung.Adapter.Prepare.{PreparedUpload}
use frame_tv_art_manager.Samsung.Adapter.{
  can_wake, normalize_inventory, Authorization, Adapter, Config,
}
use frame_tv_art_manager.Samsung.Device.{
  read_power_state, Channel, DeviceInfo, validate_frame_tv_device, accepts, MatteCatalog,
  OperationalState,
}
use frame_tv_art_manager.Prelude.{
  ◌=ₜ◌, ◌||◌, trim_space, not, is_empty, none, codes, Text-discrete, if◌then◌else◌, ◌&&◌, some, ℕ,
  false, holds, true, [], Text, Bool, List, contains, Option,
}
use frame_tv_art_manager.Samsung.Types.{
  ArtModeState, ArtModeState-discrete, SlideshowSetting, PowerState-discrete,
  SlideshowSetting-discrete, Inventory, PowerState, Command,
}
use frame_tv_art_manager.Samsung.Errors.{
  Sentinel, answer, because, refused, Failure, unreachable_error, Reply,
}
use frame_tv_art_manager.Prelude.Int.{ltb_ℤ, ℤ-discrete, ℤ}

-- `BrightnessReading`.
pub record BrightnessReading : Type 0 where
  pub value : ℤ
  pub min : ℤ
  pub max : ℤ

-- What the TV answers to the reads before a command. `inventory` is what `parseUploadedContent` reads.
pub record GuardReads : Type 0 where
  pub device : Reply DeviceInfo
  pub channel : Channel
  pub inventory : Reply (List Text)
  pub observed_at : ℕ
  pub slideshow : Reply SlideshowSetting
  pub brightness : Reply BrightnessReading
  pub mattes : Reply MatteCatalog

abbrev pub is_wake : Command → Bool
is_wake Command.wake = true
is_wake _ = false

abbrev pub refusal : Option Failure
refusal = some (because Sentinel.not_authorized)

abbrev pub unless_failed : Option Failure → Option Failure → Option Failure
unless_failed (some e) next = some e
unless_failed none next = next

abbrev pub is_power : PowerState → PowerState → Bool
is_power left right = holds (PowerState-discrete left right)

abbrev pub shows_art : OperationalState → Bool
shows_art s =
    is_power s.power PowerState.power_on
    && holds (ArtModeState-discrete s.art_mode ArtModeState.art_on)

module _ (config : Config) where
  unfoldable pub guard_state : Bool → Reply OperationalState → Option Failure
  guard_state wake (refused e) = some e
  guard_state wake (answer s) =
      if wake
      then (if not (is_power s.power PowerState.power_off) || not (can_wake config)
          then refusal
          else none)
      else if shows_art s
      then none
      else refusal

  unfoldable pub guard_device : Authorization → Bool → Channel → Reply DeviceInfo → Option Failure
  unfolding guard_state validate_frame_tv_device read_power_state unreachable_error can_wake
  guard_device authorization wake channel (refused e) =
      if wake && authorization.presumed_standby && can_wake config && unreachable_error e
      then none
      else some e
  guard_device authorization wake channel (answer device) =
      unless_failed (validate_frame_tv_device device)
        (guard_state wake (read_power_state device channel))

  -- `guardActiveTV`.
  unfoldable pub guard_active_tv : Authorization → Command → GuardReads → Option Failure
  unfolding guard_device
  guard_active_tv authorization command reads =
      guard_device authorization (is_wake command) reads.channel reads.device

-- `guardCommandFacts`.
unfoldable pub guard_command_facts : Command → Inventory → GuardReads → Option Failure
unfolding contains SlideshowSetting-discrete ℤ-discrete
guard_command_facts (Command.delete id) inventory reads =
    if contains Text-discrete inventory.content_ids (trim_space id) then none else refusal
guard_command_facts (Command.select id) inventory reads =
    if contains Text-discrete inventory.content_ids (trim_space id) then none else refusal
guard_command_facts (Command.configure_slideshow previous desired) inventory reads =
    elim reads.slideshow [
      | refused e ↦ some e
      | answer current ↦
          if holds (SlideshowSetting-discrete current previous) then none else refusal
    ]
guard_command_facts (Command.configure_brightness previous value) inventory reads =
    elim reads.brightness [
      | refused e ↦ some e
      | answer current ↦
          if holds (ℤ-discrete current.value previous)
            && not (ltb_ℤ value current.min)
            && not (ltb_ℤ current.max value)
          then none
          else refusal
    ]
guard_command_facts _ inventory reads = none

abbrev pub no_inventory : Inventory
no_inventory = record {
  category_id = [];
  content_ids = [];
  fingerprint = [];
  known = false;
  observed_at = 0;
}

module _ (fingerprint : List Text → List ℕ) (config : Config) where
  unfoldable pub guard_facts : Command → Inventory → GuardReads → Option Failure → Reply Inventory
  guard_facts command inventory reads (some e) = refused e
  guard_facts command inventory reads none = answer inventory

  unfoldable pub guard_inventory :
      Authorization → Command → GuardReads → Reply (List Text) → Reply Inventory
  unfolding guard_facts guard_command_facts normalize_inventory
  guard_inventory authorization command reads (refused e) = refused e
  guard_inventory authorization command reads (answer content) =
      let inventory = normalize_inventory fingerprint content reads.observed_at in
      if inventory.fingerprint =ₜ authorization.inventory_fingerprint
      then guard_facts command inventory reads (guard_command_facts command inventory reads)
      else refused (because Sentinel.not_authorized)

  unfoldable pub guard_after :
      Authorization → Command → GuardReads → Option Failure → Reply Inventory
  unfolding guard_inventory
  guard_after authorization command reads (some e) = refused e
  guard_after authorization command reads none =
      if is_wake command
      then answer no_inventory
      else guard_inventory authorization command reads reads.inventory

  -- `freshCommandGuard`. The inventory of a wake is the zero value.
  unfoldable pub fresh_command_guard : Authorization → Command → GuardReads → Reply Inventory
  unfolding guard_after guard_active_tv
  fresh_command_guard authorization command reads =
      guard_after authorization command reads (guard_active_tv config authorization command reads)

-- `publishGuardInventory`, which a wake does not reach.
unfoldable pub publish_guard : Command → Inventory → Adapter → Adapter
publish_guard command inventory a =
    if is_wake command then a else record a { inventory_fingerprint = inventory.fingerprint }

abbrev offered : MatteCatalog → Text → Text
offered catalog matte = if accepts catalog matte then matte else codes "none"

-- `resolveUploadMattes`.
unfoldable pub resolve_upload_mattes : Reply MatteCatalog → PreparedUpload → PreparedUpload
unfolding accepts
resolve_upload_mattes (refused e) upload = upload
resolve_upload_mattes (answer catalog) upload =
    let portrait = if is_empty upload.portrait_matte then upload.matte else upload.portrait_matte in
    record upload {
      matte = offered catalog upload.matte;
      portrait_matte = offered catalog portrait;
    }
