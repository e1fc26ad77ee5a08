-- ===== src/Samsung/Device.antt =====
-- What a TV says of itself (internal/samsung/types.go), the mattes that it offers (protocol_matte.go),
-- and its power state by REST and by the art channel (`readPowerState` of adapter_apply.go).
use frame_tv_art_manager.Prelude.{
  ◌==◌, Bool, true, false, not, ◌&&◌, if◌then◌else◌, List, [], ◌∷◌, Option, none, some, Text,
  Text-discrete, codes, ◌=ₜ◌, is_blank, trim_space, contains,
}
use frame_tv_art_manager.Samsung.Types.{PowerState, ArtModeState}
use frame_tv_art_manager.Samsung.Errors.{
  Failure, Fault, Sentinel, Reply, answer, refused, because, fault_is,
}

pub record DeviceInfo : Type 0 where
  pub model_name : Text
  pub firmware_version : Text
  pub frame_tv_support : Text
  pub power_state : Text
  pub duid : Text
  pub id : Text
  pub wifi_mac : Text

first_given : List Text → Text
first_given [] = []
first_given (candidate ∷ rest) =
    if is_blank candidate then first_given rest else trim_space candidate

-- `stableDeviceID`.
unfoldable pub stable_device_id : DeviceInfo → Text
unfolding first_given
stable_device_id info = first_given (info.duid ∷ info.id ∷ info.wifi_mac ∷ [])

-- `parseDevicePowerState`.
unfoldable pub parse_device_power_state : Text → Option PowerState
parse_device_power_state value =
    let power = trim_space value in
    if power =ₜ codes "on"
    then some PowerState.power_on
    else if power =ₜ codes "off"
    then some PowerState.power_off
    else if power =ₜ codes "standby"
    then some PowerState.power_off
    else none

-- `validateFrameTVDevice`: the error, if there is one.
unfoldable pub validate_frame_tv_device : DeviceInfo → Option Failure
unfolding parse_device_power_state
validate_frame_tv_device info =
    if is_blank info.model_name
    then some (Fault.plain ∷ [])
    else if not (trim_space info.frame_tv_support =ₜ codes "true")
    then some (because Sentinel.connection_failure)
    else elim (parse_device_power_state info.power_state) [
      | none ↦ some (Fault.plain ∷ [])
      | some power ↦ none
    ]

pub record MatteCatalog : Type 0 where
  pub types : List Text
  pub colors : List Text

-- `strings.Cut` at an underscore.
unfoldable pub cut : Text → Option (Text × Text)
cut [] = none
cut (c ∷ rest) =
    let tail = cut rest in
    if c == b'_'
    then some ([], rest)
    else elim tail [ none ↦ none | some parts ↦ some (c ∷ parts.0, parts.1) ]

accepts_parts : MatteCatalog → Option (Text × Text) → Bool
accepts_parts catalog none = false
accepts_parts catalog (some (style, color)) =
    contains Text-discrete catalog.types style && contains Text-discrete catalog.colors color

-- `accepts`: the TV listed both parts of the matte.
unfoldable pub accepts : MatteCatalog → Text → Bool
unfolding accepts_parts cut
accepts catalog matte = if matte =ₜ codes "none" then true else accepts_parts catalog (cut matte)

-- `operationalState`.
pub record OperationalState : Type 0 where
  pub power : PowerState
  pub art_mode : ArtModeState
  pub connected : Bool

-- What the art channel answers: `Connect`, `ArtMode`, and whether the context is still good after
-- the one of them that failed.
pub record Channel : Type 0 where
  pub connect : Option Failure
  pub art_mode : Reply Text
  pub live : Bool

abbrev pub powered_off : Bool → OperationalState
powered_off connected = record {
  power = PowerState.power_off;
  art_mode = ArtModeState.art_unknown;
  connected = connected;
}

unfoldable pub state_by_mode : Bool → PowerState → Text → Reply OperationalState
state_by_mode standby power mode =
    if mode =ₜ codes "on"
    then answer
        (record { power = PowerState.power_on; art_mode = ArtModeState.art_on; connected = true })
    else if mode =ₜ codes "off"
    then answer (record {
      power = if standby then PowerState.power_off else power;
      art_mode = ArtModeState.art_off;
      connected = true;
    })
    else refused (Fault.plain ∷ [])

unfoldable pub state_by_art : Bool → PowerState → Bool → Reply Text → Reply OperationalState
unfolding state_by_mode
state_by_art standby power live (refused e) =
    if standby && live then answer (powered_off true) else refused e
state_by_art standby power live (answer mode) = state_by_mode standby power (trim_space mode)

unfoldable pub state_by_channel :
    Bool → PowerState → Channel → Option Failure → Reply OperationalState
unfolding state_by_art
state_by_channel standby power channel (some e) =
    if standby && not (fault_is e Sentinel.unauthorized) && channel.live
    then answer (powered_off false)
    else refused e
state_by_channel standby power channel none =
    state_by_art standby power channel.live channel.art_mode

unfoldable pub state_by_rest : Text → Channel → Option PowerState → Reply OperationalState
unfolding state_by_channel
state_by_rest raw channel none = refused (Fault.plain ∷ [])
state_by_rest raw channel (some power) =
    if raw =ₜ codes "off"
    then answer (powered_off false)
    else state_by_channel (raw =ₜ codes "standby") power channel channel.connect

-- `readPowerState`.
unfoldable pub read_power_state : DeviceInfo → Channel → Reply OperationalState
unfolding state_by_rest
read_power_state device channel =
    let raw = trim_space device.power_state in
    state_by_rest raw channel (parse_device_power_state raw)
