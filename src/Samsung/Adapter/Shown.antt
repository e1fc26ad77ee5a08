-- ===== src/Samsung/Adapter/Shown.antt =====
-- internal/samsung: what a read of the TV after a command shows of it.
use frame_tv_art_manager.Prelude.Sort.{sort_func}
use frame_tv_art_manager.Samsung.Errors.{unreachable_error, refused, answer, Failure}
use frame_tv_art_manager.Samsung.Device.{read_power_state, OperationalState, DeviceInfo}
use frame_tv_art_manager.Samsung.Adapter.Verify.{value_of, Verdict, Check}
use frame_tv_art_manager.Samsung.Types.{Outcome, Command, PowerState}
use frame_tv_art_manager.Prelude.{
  Bool, ◌⊎◌, text_compare, Text-discrete, trim_space, ◌≢◌, contains, ◌≡◌, List, Text, true, false,
  none, [], ◌∷◌,
}

-- The power state was read, and is the one asked for.
abbrev pub Reached : PowerState → Check → Type 0
Reached desired c =
    (device : DeviceInfo) × (state : OperationalState) × (c.device ≡ answer device)
    × (read_power_state device c.channel ≡ answer state)
    × (state.power ≡ desired)

-- The inventory was read, and has the content ID, or has it not.
abbrev pub Lists : Text → Bool → Check → Type 0
Lists id present c =
    (content : List Text) × (c.inventory ≡ answer content)
    × (contains Text-discrete (sort_func text_compare content) (trim_space id) ≡ present)

-- The TV has the power state asked for, or went dark when it was to be off.
abbrev pub Powered : PowerState → Check → Type 0
Powered desired c =
    Reached desired c
    ⊎ ((desired ≡ PowerState.power_off)
        × (e : Failure) × (c.device ≡ refused e)
        × (unreachable_error e ≡ true)
        × (c.live ≡ true))

-- What a read after the write shows when the command was applied.
abbrev pub Shows : Command → Text → Check → Type 0
Shows (Command.upload path name type matte portrait digest size) sent_id c = Lists sent_id true c
Shows (Command.delete id) sent_id c = Lists id false c
Shows (Command.select id) sent_id c = c.artwork ≡ answer (trim_space id)
Shows (Command.configure_slideshow previous desired) sent_id c = c.slideshow ≡ answer desired
Shows (Command.configure_brightness previous value) sent_id c = value_of c.brightness ≡ answer value
Shows Command.wake sent_id c = Powered PowerState.power_on c
Shows Command.power_off_command sent_id c = Powered PowerState.power_off c

-- Some check of the list has the property.
abbrev pub Some : (Check → Type 0) → List Check → Type 0
Some P [] = ⊥
Some P (c ∷ checks) = P c ⊎ Some P checks

-- An applied outcome has no error and is shown, and no outcome says that nothing was attempted.
pub record IsSound (P : Type 0) (v : Verdict) : Type 0 where
  pub shown : v.outcome ≡ Outcome.applied → (v.error ≡ none) × P
  pub attempted : v.outcome ≢ Outcome.not_attempted
