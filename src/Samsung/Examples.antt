-- ===== src/Samsung/Examples.antt =====
-- An adapter of a TV that shows art and has two pieces, on which the theorems are applied.
use frame_tv_art_manager.Prelude.{
  ◌≢◌, ℕ, Text, codes, true, false, none, some, List, [], ◌∷◌, ◌≡◌, refl, ◌⊎◌, ◌≤◌, min, ◌*◌, ◌^◌,
  ◌-◌, arith, length,
}
use frame_tv_art_manager.Prelude.Int.{pos}
use frame_tv_art_manager.Samsung.Types.{Disposition, Command, SlideshowKind, SlideshowSetting}
use frame_tv_art_manager.Samsung.Errors.{answer}
use frame_tv_art_manager.Samsung.Device.{DeviceInfo, Channel}
use frame_tv_art_manager.Samsung.Adapter.{
  command_capability, Config, Adapter, Authorization, authorize_command,
}
use frame_tv_art_manager.Samsung.Adapter.Backoff.{
  config_valid, backoff_delay, maximum_delay, backoff_delay_lem,
}
use frame_tv_art_manager.Samsung.Adapter.Guard.{GuardReads, BrightnessReading}
use frame_tv_art_manager.Samsung.Adapter.Verify.{Check, ApplyAnswers}
use frame_tv_art_manager.Samsung.Adapter.Apply.{apply}
use frame_tv_art_manager.Samsung.Adapter.Guarded.{IsGuarded, apply-IsGuarded}
use frame_tv_art_manager.Samsung.Adapter.SingleUse.{sent_by, sent_by-le}
use frame_tv_art_manager.Samsung.Adapter.Receipts.{IsHonest, apply-IsHonest}
use frame_tv_art_manager.Samsung.Adapter.Observe.{ObserveRequest, ObserveAnswers, no_authorization}
use frame_tv_art_manager.Samsung.Adapter.Observing.{observe}
use frame_tv_art_manager.Samsung.Adapter.Offers.{Ground}
use frame_tv_art_manager.Samsung.Adapter.Authorizes.{observe-Authorizes}

abbrev pub config : Config
config = record {
  identity = 1;
  address = codes "10.0.0.7";
  client_name = codes "art";
  token_path = codes "/data/token";
  mac = 1 ∷ 2 ∷ 3 ∷ 4 ∷ 5 ∷ 6 ∷ [];
  mutable = true;
  connect_timeout = pos 5_000_000_000;
  request_timeout = pos 5_000_000_000;
  gate_timeout = pos 1_000_000_000;
  backoff_base = pos 1_000_000_000;
  backoff_maximum = pos 60_000_000_000;
}

config-valid : config_valid config ≡ true
unfolding config_valid
config-valid = refl

-- The waits are the whole limit, whatever was drawn.
abbrev pub whole : ℕ → ℕ → ℕ
whole value limit = limit

backoff_delay_lem_example :
    (backoff_delay whole config 4 none ≡ min (1_000_000_000 * 2 ^ (4 - 1)) 60_000_000_000)
    × (backoff_delay whole config 4 (some 9) ≤ backoff_delay whole config 4 none)
    × (backoff_delay whole config 4 none ≤ maximum_delay)
backoff_delay_lem_example =
    backoff_delay_lem whole config 4 (some 9) (λ value limit. omega arith) config-valid

abbrev pub adapter : Adapter
adapter = record {
  closed = false;
  connection_generation = 3;
  inventory_fingerprint = 7 ∷ [];
  consecutive_failures = 0;
  next_attempt_at = 0;
  cycle_id = codes "cycle";
  collection_generation = codes "g";
}

-- An authorization to delete.
abbrev authorization : Authorization
authorization = record {
  issuer = some 1;
  connection_generation = 3;
  cycle_id = codes "cycle";
  collection_generation = codes "g";
  inventory_fingerprint = 7 ∷ [];
  required = 8;
  dry_run = false;
  presumed_standby = false;
}

abbrev device : DeviceInfo
device = record {
  model_name = codes "QE55";
  firmware_version = codes "1";
  frame_tv_support = codes "true";
  power_state = codes "on";
  duid = codes "duid";
  id = [];
  wifi_mac = [];
}

abbrev channel : Channel
channel = record { connect = none; art_mode = answer (codes "on"); live = true }

abbrev setting : SlideshowSetting
setting = record { interval = pos 3; kind = SlideshowKind.shuffle; category = codes "MY" }

abbrev reading : BrightnessReading
reading = record { value = pos 5; min = pos 0; max = pos 10 }

abbrev reads : GuardReads
reads = record {
  device = answer device;
  channel = channel;
  inventory = answer (codes "MY_1" ∷ codes "MY_2" ∷ []);
  observed_at = 100;
  slideshow = answer setting;
  brightness = answer reading;
  mattes = answer (record { types = []; colors = [] });
}

-- The piece is still listed at first, and then gone.
abbrev check_of : List Text → Check
check_of ids = record {
  inventory = answer ids;
  observed_at = 110;
  artwork = answer (codes "MY_2");
  slideshow = answer setting;
  brightness = answer reading;
  device = answer device;
  channel = channel;
  live = true;
}

abbrev answers : ApplyAnswers
answers = record {
  command_id = codes "cmd";
  context = none;
  file = answer (record { regular = true; same = true; size = pos 9; digest = 1 ∷ [] });
  reads = reads;
  context_late = none;
  content_id = [];
  write_error = none;
  check = check_of (codes "MY_1" ∷ codes "MY_2" ∷ []);
  checks = check_of (codes "MY_2" ∷ []) ∷ [];
  context_done = none;
  completed_at = 120;
}

abbrev lower : Text → Text
lower t = t

abbrev pub fingerprint : List Text → List ℕ
fingerprint ids = 7 ∷ []

abbrev pub deletion : Command
deletion = Command.delete (codes "MY_1")

apply-IsGuarded_example :
    IsGuarded lower fingerprint config answers adapter authorization deletion
      (apply lower fingerprint config answers adapter authorization deletion).sent
apply-IsGuarded_example =
    apply-IsGuarded lower fingerprint config answers adapter authorization deletion

abbrev calls : List (Command × ApplyAnswers)
calls = (deletion, answers) ∷ (deletion, answers) ∷ []

sent_by-le_example : length (sent_by lower fingerprint config authorization calls adapter) ≤ 1
sent_by-le_example = sent_by-le lower fingerprint config authorization calls adapter

apply-IsHonest_example :
    IsHonest lower fingerprint config answers deletion
      (apply lower fingerprint config answers adapter authorization deletion)
apply-IsHonest_example =
    apply-IsHonest lower fingerprint config answers deletion adapter authorization

abbrev pub request : ObserveRequest
request = record {
  cycle_id = codes "cycle";
  collection_generation = codes "g";
  required = 8;
  optional = 96;
  dry_run = false;
}

abbrev pub observe_answers : ObserveAnswers
observe_answers = record {
  now = 90;
  context = none;
  device = answer device;
  channel = channel;
  inventory = answer (codes "MY_1" ∷ codes "MY_2" ∷ []);
  artwork = answer (codes "MY_1");
  slideshow = answer setting;
  brightness = answer reading;
  failed_at = 95;
  random = none;
}

observe-Authorizes_example :
    (((observe fingerprint whole config request observe_answers adapter).authorization
        ≡ no_authorization)
      × ((observe fingerprint whole config request observe_answers adapter).observation.disposition
          ≢ Disposition.eligible))
    ⊎ (Ground config request
          (observe fingerprint whole config request observe_answers adapter).observation
        × (authorize_command config
              (observe fingerprint whole config request observe_answers adapter).adapter
              none
              (observe fingerprint whole config request observe_answers adapter).authorization
              deletion
            ≡ none))
unfolding command_capability
observe-Authorizes_example =
    observe-Authorizes fingerprint whole config request observe_answers adapter deletion refl refl
      refl
