-- ===== src/Reconcile/Examples.antt =====
-- A TV with two owned pieces and a full storage, on which the theorems are applied.
pub mod Plans
pub mod Sendable
pub mod Operations
pub mod Cycles
pub mod Composed
pub mod Migrations
pub mod Runs
pub mod Settled
use frame_tv_art_manager.Prelude.{
  zero, suc, ℕ, Text, codes, true, false, List, [], ◌∷◌, none, some, Option,
}
use frame_tv_art_manager.Prelude.Int.{pos}
use frame_tv_art_manager.Collection.Types.{Item, FileType, Snapshot}
use frame_tv_art_manager.Samsung.Types.{
  Observation, Inventory, PowerState, ArtModeState, ConnectionState, Disposition, Support,
  SlideshowSetting, SlideshowKind, Outcome, Receipt, Capabilities, ObservedTv, SlideshowObservation,
  SettingObservation,
}
use frame_tv_art_manager.Reconcile.Types.{
  TvIdentity, Binding, State, Policy, PolicyMode, PowerPolicy, SlideshowPolicy, SettingPolicy,
  Pending, Phase, CommandIntent, CommandKind, Hashes, ReceiptSummary, CapacityEvidence, intent_of,
  state_version,
}

abbrev pub digest_1 : Text
digest_1 = codes "1111111111111111111111111111111111111111111111111111111111111111"

abbrev pub digest_2 : Text
digest_2 = codes "2222222222222222222222222222222222222222222222222222222222222222"

abbrev pub digest_3 : Text
digest_3 = codes "3333333333333333333333333333333333333333333333333333333333333333"

abbrev pub repeat : ℕ → ℕ → List ℕ
repeat zero b = []
repeat (suc n) b = b ∷ repeat n b

abbrev pub tv : TvIdentity
tv = record {
  address = codes "10.0.0.7";
  model = codes "QE55";
  firmware_version = codes "1";
  device_id = codes "duid";
}

abbrev pub binding_1 : Binding
binding_1 = record {
  digest = digest_1;
  content_id = codes "MY_1";
  name = codes "a.jpg";
  collection_generation = digest_3;
  confirmed_at = 10;
}

abbrev pub binding_2 : Binding
binding_2 = record {
  digest = digest_2;
  content_id = codes "MY_2";
  name = codes "b.jpg";
  collection_generation = digest_3;
  confirmed_at = 20;
}

abbrev pub full : CapacityEvidence
full = record { known = true; maximum = pos 2; observed_at = 30; probe = false; shortfalls = pos 0 }

abbrev pub state : State
state = record {
  version = state_version;
  tv = tv;
  revision = 4;
  bindings = (digest_1, binding_1) ∷ (digest_2, binding_2) ∷ [];
  tombstones = [];
  capacity = full;
  last_shown = [];
  legacy_migration_pending = false;
  pending = none;
  unresolved_upload = none;
  last_complete_cycle = [];
  last_collection_gen = [];
}

abbrev pub policy : Policy
policy = record {
  remove_unknown = false;
  allow_empty = false;
  select = true;
  default_matte = codes "none";
  portrait_matte = [];
  matte_overrides = [];
  power = PowerPolicy.preserve;
  slideshow = record {
    mode = PolicyMode.set;
    setting = record { interval = pos 5; kind = SlideshowKind.shuffle; category = [] };
  };
  brightness = record { mode = PolicyMode.set; value = pos 60 };
  rotation = pos 5;
  wake_boundary = 0;
}

abbrev pub capabilities : Capabilities
capabilities = record {
  art_state_observation = Support.supported;
  user_art_inventory = Support.supported;
  image_upload = Support.supported;
  image_deletion = Support.supported;
  image_selection = Support.supported;
  slideshow_read = Support.supported;
  slideshow_write = Support.supported;
  brightness_read = Support.supported;
  brightness_write = Support.supported;
  remote_power = Support.supported;
}

abbrev pub slideshow : SlideshowObservation
slideshow = record {
  setting = record { interval = pos 0; kind = SlideshowKind.sequential; category = codes "MY" };
  known = true;
  observed_at = 100;
}

abbrev pub brightness : SettingObservation
brightness = record { value = pos 10; min = pos 0; max = pos 50; known = true; observed_at = 100 }

abbrev pub observation : Observation
observation = record {
  tv = record {
    address = tv.address;
    model = tv.model;
    firmware_version = tv.firmware_version;
    device_id = tv.device_id;
    known = true;
  };
  connection = ConnectionState.ready;
  power = PowerState.power_on;
  art_mode = ArtModeState.art_on;
  inventory = record {
    category_id = codes "MY-C0002";
    content_ids = codes "MY_1" ∷ codes "MY_2" ∷ [];
    fingerprint = 7 ∷ [];
    known = true;
    observed_at = 100;
  };
  slideshow = slideshow;
  brightness = brightness;
  capabilities = capabilities;
  observed_at = 100;
  disposition = Disposition.eligible;
  presumed_standby = false;
}

abbrev pub item_of : Text → ℕ → Item
item_of name b = record {
  name = name;
  key = name;
  path = codes "/art/x.jpg";
  digest = repeat 32 b;
  file_type = FileType.jpeg;
  size = pos 9;
  width = pos 3;
  height = pos 2;
  origin = record { key = name; class = codes "file" };
}

-- The collection keeps the first piece, drops the second and brings a third.
abbrev pub snapshot : Snapshot
snapshot = record {
  generation = digest_3;
  items = item_of (codes "a.jpg") 17 ∷ item_of (codes "c.jpg") 51 ∷ [];
  changes = [];
  warnings = [];
  dry_run = false;
}

-- Fingerprints that tell inputs apart by their length are enough here.
abbrev pub hashes : Hashes
hashes = record { inventory = λ ids. 7 ∷ []; policy = λ p. 8 ∷ []; generation = λ items. digest_3 }
