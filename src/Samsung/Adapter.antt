-- ===== src/Samsung/Adapter.antt =====
-- internal/samsung/adapter.go and adapter_types.go: the adapter's own state, its authorizations, and
-- the checks of its configuration. What the transport, the clock and the context answer in one call
-- is given in advance.
pub mod Backoff
pub mod Prepare
pub mod Guard
pub mod Facts
pub mod Fresh
pub mod Verify
pub mod Apply
pub mod Guarded
pub mod SingleUse
pub mod Shown
pub mod Honest
pub mod Outcomes
pub mod Receipts
pub mod Observe
pub mod Observing
pub mod Offers
pub mod Offered
pub mod Authorizes
use frame_tv_art_manager.Prelude.{
  codes, text_compare, length, bit_and, ℕ, suc, ltb, ◌+◌, ◌^◌, ◌%◌, Text, Text-discrete, ℕ_discrete,
  Bool, true, false, not, ◌&&◌, ◌==◌, if◌then◌else◌, List, [], ◌∷◌, Option, none, some, is_empty,
  ◌=ₜ◌, holds,
}
use frame_tv_art_manager.Prelude.Int.{ℤ, is_positive}
use frame_tv_art_manager.Prelude.Sort.{sort_func}
use frame_tv_art_manager.Samsung.Types.{Command, Capabilities, Support, Support-discrete, Inventory}
use frame_tv_art_manager.Samsung.Errors.{
  ErrorKind, Failure, Fault, Sentinel, Reply, answer, refused, because, command_error,
}
use frame_tv_art_manager.Samsung.Types.{Outcome}

-- `CapabilitySet`: a bit for each capability.
abbrev pub art_state_observation : ℕ
art_state_observation = 1

abbrev pub user_art_inventory : ℕ
user_art_inventory = 2

abbrev pub image_upload : ℕ
image_upload = 4

abbrev pub image_deletion : ℕ
image_deletion = 8

abbrev pub image_selection : ℕ
image_selection = 16

abbrev pub slideshow_read_write : ℕ
slideshow_read_write = 32 + 64

abbrev pub brightness_read_write : ℕ
brightness_read_write = 128 + 256

abbrev pub remote_power : ℕ
remote_power = 512

-- A capability that is asked for is supported.
unfoldable pub granted : ℕ → ℕ → Support → Bool
unfolding Support-discrete
granted required capability support =
    if bit_and required capability == 0
    then true
    else holds (Support-discrete support Support.supported)

-- `Capabilities.supports`.
unfoldable pub supports : Capabilities → ℕ → Bool
unfolding granted
supports c required =
    granted required art_state_observation c.art_state_observation
    && granted required user_art_inventory c.user_art_inventory
    && granted required image_upload c.image_upload
    && granted required image_deletion c.image_deletion
    && granted required image_selection c.image_selection
    && granted required 32 c.slideshow_read
    && granted required 64 c.slideshow_write
    && granted required 128 c.brightness_read
    && granted required 256 c.brightness_write
    && granted required remote_power c.remote_power

-- `Authorization`. `issuer` is the adapter that gave it out, none in the zero value.
pub record Authorization : Type 0 where
  pub issuer : Option ℕ
  pub connection_generation : ℕ
  pub cycle_id : Text
  pub collection_generation : Text
  pub inventory_fingerprint : List ℕ
  pub required : ℕ
  pub dry_run : Bool
  pub presumed_standby : Bool

-- The fields of the adapter that change, with those of `adapterRuntime`.
pub record Adapter : Type 0 where
  pub closed : Bool
  pub connection_generation : ℕ
  pub inventory_fingerprint : List ℕ
  pub consecutive_failures : ℕ
  pub next_attempt_at : ℕ
  pub cycle_id : Text
  pub collection_generation : Text

-- `Config`, as far as the adapter reads it itself. `mutable` says that the transport can write, and
-- `identity` tells adapters apart.
pub record Config : Type 0 where
  pub identity : ℕ
  pub address : Text
  pub client_name : Text
  pub token_path : Text
  pub mac : List ℕ
  pub mutable : Bool
  pub connect_timeout : ℤ
  pub request_timeout : ℤ
  pub gate_timeout : ℤ
  pub backoff_base : ℤ
  pub backoff_maximum : ℤ

-- `canWake`.
unfoldable pub can_wake : Config → Bool
can_wake config = config.mutable && (length config.mac == 6)

-- `a.connectionGeneration++`, on 64 bits.
unfoldable pub next_generation : ℕ → ℕ
next_generation g = (g + 1) % 2 ^ 64

-- `commandCapability`.
unfoldable pub command_capability : Command → ℕ
command_capability (Command.upload path name file_type matte portrait_matte digest size) =
    image_upload
command_capability (Command.delete id) = image_deletion
command_capability (Command.select id) = image_selection
command_capability (Command.configure_slideshow previous desired) = slideshow_read_write
command_capability (Command.configure_brightness previous value) = brightness_read_write
command_capability Command.wake = remote_power
command_capability Command.power_off_command = remote_power

unfoldable pub is_issuer : Config → Option ℕ → Bool
is_issuer config none = false
is_issuer config (some issuer) = issuer == config.identity

-- The condition of `authorizeCommand`.
unfoldable pub is_authorized : Config → Adapter → Authorization → Command → Bool
unfolding is_issuer command_capability
is_authorized config a authorization command =
    let required = command_capability command in
    is_issuer config authorization.issuer
    && not a.closed
    && not authorization.dry_run
    && not (required == 0)
    && (bit_and authorization.required required == required)
    && (authorization.connection_generation == a.connection_generation)
    && (authorization.cycle_id =ₜ a.cycle_id)
    && (authorization.collection_generation =ₜ a.collection_generation)
    && (authorization.inventory_fingerprint =ₜ a.inventory_fingerprint)

abbrev pub unsupported_error : Failure
unsupported_error =
    Fault.classified (record {
      kind = ErrorKind.unsupported;
      retryable = false;
      outcome = Outcome.not_attempted;
      retry_at = 0;
      consecutive_failures = 0;
    })
    ∷ Fault.plain
    ∷ []

-- `authorizeCommand`, after the error of the context: its error, if there is one.
unfoldable pub authorize_command :
    Config → Adapter → Option Failure → Authorization → Command → Option Failure
unfolding is_authorized
authorize_command config a (some e) authorization command =
    some (command_error Outcome.not_attempted e)
authorize_command config a none authorization command =
    if is_authorized config a authorization command
    then (if config.mutable then none else some unsupported_error)
    else some (command_error Outcome.not_attempted (because Sentinel.not_authorized))

-- `normalizeInventory`, over what `parseUploadedContent` reads; `fingerprint` is SHA-256 over the
-- JSON of the sorted IDs.
unfoldable pub normalize_inventory : (List Text → List ℕ) → List Text → ℕ → Inventory
unfolding sort_func
normalize_inventory fingerprint content observed_at =
    let ids = sort_func text_compare content in
    record {
      category_id = codes "MY-C0002";
      content_ids = ids;
      fingerprint = fingerprint ids;
      known = true;
      observed_at = observed_at;
    }
