-- ===== src/Samsung/Adapter/Observe.antt =====
-- `Observe` of internal/samsung/adapter.go and adapter_observe.go, with `failObservation`. `scale` is
-- the floating-point share of a backoff.
use frame_tv_art_manager.Samsung.Adapter.Verify.{is_none}
use frame_tv_art_manager.Samsung.Device.{Channel, DeviceInfo}
use frame_tv_art_manager.Prelude.Int.{pos}
use frame_tv_art_manager.Samsung.Adapter.Guard.{no_inventory, BrightnessReading}
use frame_tv_art_manager.Samsung.Errors.{answer, Sentinel, refused, Reply, Failure, fault_is}
use frame_tv_art_manager.Samsung.Adapter.{
  image_selection, slideshow_read_write, brightness_read_write, Adapter, Config, Authorization,
}
use frame_tv_art_manager.Samsung.Types.{
  Disposition, ArtModeState, PowerState, SlideshowKind, ConnectionState, SlideshowSetting, Support,
  SettingObservation, SlideshowObservation, Capabilities, Observation,
}
use frame_tv_art_manager.Prelude.{
  bit_or, ◌||◌, ◌==◌, bit_and, not, List, if◌then◌else◌, Option, Bool, ℕ, Text, true, false, none,
  some, [],
}

pub record ObserveRequest : Type 0 where
  pub cycle_id : Text
  pub collection_generation : Text
  pub required : ℕ
  pub optional : ℕ
  pub dry_run : Bool

-- What the clock, the context and the TV answer. `failed_at` and `random` are for the backoff.
pub record ObserveAnswers : Type 0 where
  pub now : ℕ
  pub context : Option Failure
  pub device : Reply DeviceInfo
  pub channel : Channel
  pub inventory : Reply (List Text)
  pub artwork : Reply Text
  pub slideshow : Reply SlideshowSetting
  pub brightness : Reply BrightnessReading
  pub failed_at : ℕ
  pub random : Option ℕ

pub record Observed : Type 0 where
  pub observation : Observation
  pub authorization : Authorization
  pub error : Option Failure
  pub adapter : Adapter

abbrev pub no_authorization : Authorization
no_authorization = record {
  issuer = none;
  connection_generation = 0;
  cycle_id = [];
  collection_generation = [];
  inventory_fingerprint = [];
  required = 0;
  dry_run = false;
  presumed_standby = false;
}

abbrev unknown_capabilities : Capabilities
unknown_capabilities = record {
  art_state_observation = Support.support_unknown;
  user_art_inventory = Support.support_unknown;
  image_upload = Support.support_unknown;
  image_deletion = Support.support_unknown;
  image_selection = Support.support_unknown;
  slideshow_read = Support.support_unknown;
  slideshow_write = Support.support_unknown;
  brightness_read = Support.support_unknown;
  brightness_write = Support.support_unknown;
  remote_power = Support.support_unknown;
}

abbrev no_slideshow : SlideshowObservation
no_slideshow = record {
  setting = record { interval = pos 0; kind = SlideshowKind.other_kind []; category = [] };
  known = false;
  observed_at = 0;
}

abbrev no_setting : SettingObservation
no_setting = record { value = pos 0; min = pos 0; max = pos 0; known = false; observed_at = 0 }

-- The observation before anything was read.
abbrev pub blank : Config → ℕ → Observation
blank config now = record {
  tv = record {
    address = config.address;
    model = [];
    firmware_version = [];
    device_id = [];
    known = false;
  };
  connection = ConnectionState.disconnected;
  power = PowerState.power_unknown;
  art_mode = ArtModeState.art_unknown;
  inventory = no_inventory;
  slideshow = no_slideshow;
  brightness = no_setting;
  capabilities = unknown_capabilities;
  observed_at = now;
  disposition = Disposition.unsafe_unknown;
  presumed_standby = false;
}

-- An observation, and the error with which it stopped.
pub record Probing : Type 0 where
  pub observation : Observation
  pub error : Option Failure

-- A failed probe ends the observation where it is required, or where nothing will be answered.
unfoldable pub stops : ObserveRequest → ℕ → Failure → Bool
unfolding fault_is
stops request capability e =
    not (bit_and request.required capability == 0)
    || fault_is e Sentinel.canceled
    || fault_is e Sentinel.deadline_exceeded
    || fault_is e Sentinel.not_connected

-- One turn of the loop of `observeMutationCapabilities`.
unfoldable pub probe {ℓ} :
    {A : Type ℓ}
    → ObserveRequest
    → ℕ
    → (Support → Observation → Observation)
    → (A → Observation → Observation)
    → Reply A
    → Probing
    → Probing
unfolding stops
probe request capability support_with keep (refused e) p =
    if not (is_none p.error) || bit_and (bit_or request.required request.optional) capability == 0
    then p
    else record {
      observation = support_with Support.unsupported p.observation;
      error = if stops request capability e then some e else none;
    }
probe request capability support_with keep (answer value) p =
    if not (is_none p.error) || bit_and (bit_or request.required request.optional) capability == 0
    then p
    else record {
      observation = support_with Support.supported (keep value p.observation);
      error = none;
    }

abbrev pub selectable : Support → Observation → Observation
selectable support o = record o {
  capabilities = record o.capabilities { image_selection = support };
}

abbrev pub slideshow_support : Support → Observation → Observation
slideshow_support support o = record o {
  capabilities = record o.capabilities { slideshow_read = support; slideshow_write = support };
}

abbrev pub brightness_support : Support → Observation → Observation
brightness_support support o = record o {
  capabilities = record o.capabilities { brightness_read = support; brightness_write = support };
}

abbrev pub keep_slideshow : SlideshowSetting → Observation → Observation
keep_slideshow setting o = record o {
  slideshow = record { setting = setting; known = true; observed_at = o.observed_at };
}

abbrev pub keep_brightness : BrightnessReading → Observation → Observation
keep_brightness reading o = record o {
  brightness = record {
    value = reading.value;
    min = reading.min;
    max = reading.max;
    known = true;
    observed_at = o.observed_at;
  };
}

abbrev pub mutation_support : Observation → Observation
mutation_support o = record o {
  capabilities = record o.capabilities {
    image_upload = Support.supported;
    image_deletion = Support.supported;
    remote_power = Support.supported;
  };
}

-- `observeMutationCapabilities`.
unfoldable pub observe_capabilities :
    Config → ObserveRequest → ObserveAnswers → Observation → Probing
unfolding probe
observe_capabilities config request answers o =
    if not config.mutable
    then record { observation = o; error = none }
    else probe request brightness_read_write brightness_support keep_brightness answers.brightness (
        probe request slideshow_read_write slideshow_support keep_slideshow answers.slideshow (
          probe request image_selection selectable (λ (shown : Text) o. o) answers.artwork
            (record { observation = mutation_support o; error = none })))

-- `publishAuthorizationFacts`.
unfoldable pub publish_facts : Observation → ObserveRequest → Adapter → Adapter
publish_facts o request a = record a {
  inventory_fingerprint = o.inventory.fingerprint;
  cycle_id = request.cycle_id;
  collection_generation = request.collection_generation;
}

-- `settleObservation`, with `resetFailures`.
unfoldable pub settle_observation :
    Observation → ObserveRequest → Authorization → Adapter → Observed
unfolding publish_facts
settle_observation o request authorization a = record {
  observation = o;
  authorization = authorization;
  error = none;
  adapter = publish_facts o request (record a { consecutive_failures = 0; next_attempt_at = 0 });
}

-- `newAuthorization`.
unfoldable pub new_authorization : Config → ObserveRequest → ℕ → List ℕ → Authorization
new_authorization config request generation fingerprint = record {
  issuer = some config.identity;
  connection_generation = generation;
  cycle_id = request.cycle_id;
  collection_generation = request.collection_generation;
  inventory_fingerprint = fingerprint;
  required = request.required;
  dry_run = request.dry_run;
  presumed_standby = false;
}
