-- ===== src/Reconcile/Capabilities.antt =====
-- internal/reconcile/commands.go: the capabilities that observations ask for.
pub mod Granted
use frame_tv_art_manager.Reconcile.Types.{
  PowerPolicy, Policy, PowerPolicy-discrete, CommandIntent, CommandKind,
}
use frame_tv_art_manager.Prelude.{holds, if◌then◌else◌, bit_or, ℕ}
use frame_tv_art_manager.Samsung.Adapter.{
  remote_power, image_upload, image_deletion, image_selection, slideshow_read_write,
  brightness_read_write, art_state_observation, user_art_inventory,
}

unfoldable pub base_capabilities : ℕ
base_capabilities = bit_or art_state_observation user_art_inventory

unfoldable pub required_as : CommandKind → ℕ
unfolding base_capabilities
required_as CommandKind.wake = remote_power
required_as CommandKind.upload = bit_or base_capabilities image_upload
required_as CommandKind.delete_owned = bit_or base_capabilities image_deletion
required_as CommandKind.delete_unknown = bit_or base_capabilities image_deletion
required_as CommandKind.select = bit_or base_capabilities image_selection
required_as CommandKind.slideshow = bit_or base_capabilities slideshow_read_write
required_as CommandKind.brightness = bit_or base_capabilities brightness_read_write
required_as CommandKind.power_off = bit_or base_capabilities remote_power
required_as (CommandKind.unknown_kind t) = base_capabilities

-- `requiredCapabilities`.
unfoldable pub required_capabilities : CommandIntent → ℕ
unfolding required_as
required_capabilities intent = required_as intent.kind

-- `convergenceObservationCapabilities`.
unfoldable pub convergence_capabilities : Policy → ℕ
unfolding base_capabilities PowerPolicy-discrete
convergence_capabilities policy =
    if holds (PowerPolicy-discrete policy.power PowerPolicy.off)
    then bit_or base_capabilities remote_power
    else base_capabilities

-- `initialObservationCapabilities`.
unfoldable pub initial_capabilities : Policy → ℕ
unfolding convergence_capabilities PowerPolicy-discrete
initial_capabilities policy =
    if holds (PowerPolicy-discrete policy.power PowerPolicy.on)
    then remote_power
    else convergence_capabilities policy
