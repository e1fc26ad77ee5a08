-- ===== src/Reconcile/Capabilities/Granted.antt =====
-- What an observation for a command asks for is what the adapter asks of the command.
use frame_tv_art_manager.Samsung.Adapter.Authorizes.{observe-Authorizes}
use frame_tv_art_manager.Samsung.Adapter.Observing.{observe}
use frame_tv_art_manager.Prelude.Hex.{hex_decode}
use frame_tv_art_manager.Samsung.Adapter.Observe.{ObserveAnswers, ObserveRequest}
use frame_tv_art_manager.Prelude.Int.{ℤ}
use frame_tv_art_manager.Reconcile.Types.{CommandKind, CommandIntent}
use frame_tv_art_manager.Samsung.Types.{Disposition, SlideshowSetting, Command}
use frame_tv_art_manager.Reconcile.Capabilities.{
  base_capabilities, required_capabilities, required_as,
}
use frame_tv_art_manager.Samsung.Adapter.{
  authorize_command, Adapter, brightness_read_write, slideshow_read_write, image_upload, Config,
  command_capability,
}
use frame_tv_art_manager.Reconcile.Execution.{
  plain, or_panic, samsung_command, samsung_command_as, brightness_command, slideshow_command,
  upload_command,
}
use frame_tv_art_manager.Prelude.{
  ◌==◌, length, if_cases, inr, inl, sym, subst, bit_and, ◌≡◌, List, Option, Text, ℕ, true, false,
  none, some, refl,
}
use frame_tv_art_manager.Reconcile.Errors.{Result, ok, err}

-- A command that needs a capability, as the translation of an intent gives it.
abbrev Needs : ℕ → Option (Result Command) → Type 0
Needs capability (some (ok command)) = command_capability command ≡ capability
Needs capability _ = Unit

upload-Needs :
    (i : CommandIntent) (digest : Option (List ℕ))
    → Needs image_upload (some (upload_command i digest))
unfolding upload_command command_capability plain
upload-Needs i none = tt
upload-Needs i (some d) =
    if_cases (λ (r : Result Command). Needs image_upload (some r)) (length d == 32) _ _ (λ p. refl)
      (λ p. tt)

slideshow-Needs :
    (previous desired : Option SlideshowSetting)
    → Needs slideshow_read_write (or_panic (slideshow_command previous desired))
unfolding slideshow_command command_capability
slideshow-Needs none desired = tt
slideshow-Needs (some p) none = tt
slideshow-Needs (some p) (some d) = refl

brightness-Needs :
    (previous desired : Option ℤ)
    → Needs brightness_read_write (or_panic (brightness_command previous desired))
unfolding brightness_command command_capability
brightness-Needs none desired = tt
brightness-Needs (some p) none = tt
brightness-Needs (some p) (some d) = refl

-- The capability is among those that are required.
abbrev Granted : ℕ → Option (Result Command) → Type 0
Granted required (some (ok command)) =
    bit_and required (command_capability command) ≡ command_capability command
Granted required _ = Unit

Needs-Granted :
    (required capability : ℕ) (r : Option (Result Command))
    → bit_and required capability ≡ capability
    → Needs capability r
    → Granted required r
Needs-Granted required capability none b n = tt
Needs-Granted required capability (some (err e)) b n = tt
Needs-Granted required capability (some (ok command)) b n =
    subst (λ (c : ℕ). bit_and required c ≡ c) (sym n) b

kind-Granted :
    (k : CommandKind) (i : CommandIntent) → Granted (required_as k) (samsung_command_as k i)
unfolding samsung_command_as required_as command_capability base_capabilities
kind-Granted CommandKind.upload i =
    Needs-Granted (required_as CommandKind.upload) image_upload
      (some (upload_command i (hex_decode i.digest))) refl (upload-Needs i (hex_decode i.digest))
kind-Granted CommandKind.delete_owned i = refl
kind-Granted CommandKind.delete_unknown i = refl
kind-Granted CommandKind.select i = refl
kind-Granted CommandKind.slideshow i =
    Needs-Granted (required_as CommandKind.slideshow) slideshow_read_write
      (or_panic (slideshow_command i.previous_slideshow i.desired_slideshow)) refl
      (slideshow-Needs i.previous_slideshow i.desired_slideshow)
kind-Granted CommandKind.brightness i =
    Needs-Granted (required_as CommandKind.brightness) brightness_read_write
      (or_panic (brightness_command i.previous_value i.desired_value)) refl
      (brightness-Needs i.previous_value i.desired_value)
kind-Granted CommandKind.power_off i = refl
kind-Granted CommandKind.wake i = refl
kind-Granted (CommandKind.unknown_kind t) i = tt

command-granted :
    (intent : CommandIntent) (command : Command)
    → samsung_command intent ≡ some (ok command)
    → bit_and (required_capabilities intent) (command_capability command)
      ≡ command_capability command
unfolding samsung_command required_capabilities
command-granted intent command p =
    subst (Granted (required_as intent.kind)) p (kind-Granted intent.kind intent)

-- With an adapter that can write, and outside a dry run: once an observation that asks for what
-- requiredCapabilities names for a planned command is eligible, the adapter takes its authorization
-- for the very command that samsungCommand makes of the plan's, while the context is good.
pub observe_for_lem :
    (fingerprint : List Text → List ℕ) (scale : ℕ → ℕ → ℕ) (config : Config)
    (request : ObserveRequest) (answers : ObserveAnswers) (a : Adapter) (intent : CommandIntent)
    (command : Command)
    → samsung_command intent ≡ some (ok command)
    → request.required ≡ required_capabilities intent
    → request.dry_run ≡ false
    → config.mutable ≡ true
    → (observe fingerprint scale config request answers a).observation.disposition
      ≡ Disposition.eligible
    → authorize_command config
        (observe fingerprint scale config request answers a).adapter
        none
        (observe fingerprint scale config request answers a).authorization
        command
      ≡ none
observe_for_lem fingerprint scale config request answers a intent command p r d m e =
    elim (observe-Authorizes fingerprint scale config request answers a command d m (
      subst (λ (n : ℕ). bit_and n (command_capability command) ≡ command_capability command) (sym r)
        (command-granted intent command p))) [
          | inl nothing ↦ absurd (nothing.1 e)
          | inr given ↦ given.1
        ]
