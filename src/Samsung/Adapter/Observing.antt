-- ===== src/Samsung/Adapter/Observing.antt =====
-- `Observe` of internal/samsung/adapter.go, put together.
use frame_tv_art_manager.Samsung.Adapter.Guard.{is_power}
use frame_tv_art_manager.Samsung.Device.{
  OperationalState, validate_frame_tv_device, DeviceInfo, stable_device_id, read_power_state,
}
use frame_tv_art_manager.Samsung.Adapter.Backoff.{backoff_delay}
use frame_tv_art_manager.Samsung.Adapter.Observe.{
  blank, Probing, observe_capabilities, new_authorization, no_authorization, Observed,
  publish_facts, settle_observation, ObserveRequest, ObserveAnswers,
}
use frame_tv_art_manager.Samsung.Adapter.{
  remote_power, can_wake, normalize_inventory, supports, next_generation, Config, Adapter,
}
use frame_tv_art_manager.Samsung.Errors.{
  Sentinel, answer, because, refused, Reply, Fault, fault_is, ErrorKind-discrete, unreachable_error,
  classify_observation_error, Failure, Classified, ErrorKind,
}
use frame_tv_art_manager.Samsung.Types.{
  Outcome, ArtModeState-discrete, Support, PowerState, ConnectionState, ArtModeState, Disposition,
  Observation,
}
use frame_tv_art_manager.Prelude.{
  codes, ◌=ₜ◌, is_blank, ◌&&◌, trim_space, not, ◌==◌, ltb, ◌+◌, if◌then◌else◌, Option, suc, holds,
  Text, Bool, List, ℕ, true, none, some, [], ◌∷◌,
}

-- What `failObservation` leaves of an observation.
abbrev failed_view : Observation → Observation
failed_view o = record o {
  disposition = Disposition.unsafe_unknown;
  art_mode = ArtModeState.art_unknown;
}

abbrev failed_result : Observation → Classified → Failure → Adapter → Observed
failed_result o c cause a = record {
  observation = o;
  authorization = no_authorization;
  error = some (Fault.classified c ∷ cause);
  adapter = a;
}

abbrev pub is_kind : ErrorKind → ErrorKind → Bool
is_kind left right = holds (ErrorKind-discrete left right)

module _ (scale : ℕ → ℕ → ℕ) (config : Config) (answers : ObserveAnswers) where
  -- The adapter after one more failure.
  unfoldable pub backed_off : Adapter → Adapter
  unfolding backoff_delay
  backed_off a =
      let failures = suc a.consecutive_failures in
      record a {
        consecutive_failures = failures;
        next_attempt_at = answers.failed_at + backoff_delay scale config failures answers.random;
      }

  -- `failObservation`.
  unfoldable pub fail_observation : Observation → ObserveRequest → Failure → Adapter → Observed
  unfolding classify_observation_error ErrorKind-discrete backed_off publish_facts next_generation
  fail_observation o request cause a =
      let c = classify_observation_error cause in
      let view = failed_view o in
      let denied = record view { connection = ConnectionState.auth_required } in
      let closed = λ (b : Adapter). record b {
        connection_generation = next_generation b.connection_generation;
      } in
      if is_kind c.kind ErrorKind.canceled
      then failed_result view c cause (publish_facts view request a)
      else if is_kind c.kind ErrorKind.unauthorized
      then failed_result denied c cause (publish_facts denied request (closed a))
      else if c.retryable
      then failed_result view
          (record c {
            retry_at = (backed_off a).next_attempt_at;
            consecutive_failures = (backed_off a).consecutive_failures;
          })
          cause (publish_facts view request (closed (backed_off a)))
      else failed_result view c cause (publish_facts view request (closed a))

-- The observation with the state that was read.
abbrev pub state_view : Observation → OperationalState → Observation
state_view o s = record o {
  power = s.power;
  art_mode = s.art_mode;
  connection = if s.connected then ConnectionState.ready else ConnectionState.disconnected;
  capabilities = record o.capabilities {
    art_state_observation =
        if holds (ArtModeState-discrete s.art_mode ArtModeState.art_unknown)
        then o.capabilities.art_state_observation
        else Support.supported;
  };
}

-- The observation with what the TV says of itself.
abbrev pub device_view : Config → Observation → DeviceInfo → Observation
device_view config o device = record o {
  tv = record {
    address = config.address;
    model = trim_space device.model_name;
    firmware_version = trim_space device.firmware_version;
    device_id = stable_device_id device;
    known = not (is_blank device.model_name);
  };
}

abbrev pub connecting_view : Observation → Observation
connecting_view o = record o { connection = ConnectionState.connecting }

-- The number of the next connection, which `Observe` gives to its authorization.
abbrev pub opened : Adapter → Adapter
opened a = record a { connection_generation = next_generation a.connection_generation }

module _ (config : Config) (request : ObserveRequest) where
  -- `knownPowerOffObservation`.
  unfoldable pub known_power_off : Observation → Adapter → Observed
  unfolding settle_observation new_authorization can_wake
  known_power_off o a =
      let off = record o {
        power = PowerState.power_off;
        disposition = Disposition.blocked_power_off;
      } in
      if request.required == remote_power && can_wake config
      then settle_observation
          (record off { capabilities = record o.capabilities { remote_power = Support.supported } })
          request (new_authorization config request a.connection_generation []) a
      else settle_observation off request no_authorization a

  -- `presumedStandbyObservation`.
  unfoldable pub presumed_standby : Observation → Adapter → Observed
  unfolding publish_facts new_authorization
  presumed_standby o a =
      let presumed = record o {
        presumed_standby = true;
        disposition = Disposition.unsafe_unknown;
        capabilities = record o.capabilities { remote_power = Support.supported };
      } in
      record {
        observation = presumed;
        authorization = record (new_authorization config request a.connection_generation []) {
          presumed_standby = true;
        };
        error = none;
        adapter = publish_facts presumed request a;
      }

module _ (fingerprint : List Text → List ℕ) (scale : ℕ → ℕ → ℕ) (config : Config)
    (request : ObserveRequest) (answers : ObserveAnswers) where
  abbrev pub fails : Observation → Failure → Adapter → Observed
  fails o e a = fail_observation scale config answers o request e a

  unfoldable pub observe_probed : Adapter → List ℕ → Probing → Option Failure → Observed
  unfolding fail_observation supports publish_facts settle_observation new_authorization
  observe_probed a seen p (some e) = fails p.observation e a
  observe_probed a seen p none =
      if not (supports p.observation.capabilities request.required)
      then record {
        observation = p.observation;
        authorization = no_authorization;
        error = none;
        adapter = publish_facts p.observation request a;
      }
      else settle_observation (record p.observation { disposition = Disposition.eligible }) request
          (new_authorization config request a.connection_generation seen) a

  unfoldable pub observe_inventory : Adapter → Observation → Reply (List Text) → Observed
  unfolding fail_observation normalize_inventory observe_probed observe_capabilities
  observe_inventory a o (refused e) = fails o e a
  observe_inventory a o (answer content) =
      let inventory = normalize_inventory fingerprint content o.observed_at in
      let p = observe_capabilities config request answers (record o {
        inventory = inventory;
        capabilities = record o.capabilities { user_art_inventory = Support.supported };
      }) in
      observe_probed a inventory.fingerprint p p.error

  unfoldable pub observe_state : Adapter → Observation → Reply OperationalState → Observed
  unfolding fail_observation known_power_off settle_observation observe_inventory fault_is
  observe_state a o (refused e) =
      if fault_is e Sentinel.gate_failed
      then settle_observation
          (record o {
            connection = ConnectionState.disconnected;
            disposition = Disposition.blocked_quiet_gate;
          })
          request no_authorization a
      else fails o e a
  observe_state a o (answer s) =
      let seen = state_view o s in
      if is_power s.power PowerState.power_off
      then known_power_off config request seen a
      else if holds (ArtModeState-discrete s.art_mode ArtModeState.art_off)
      then settle_observation (record seen { disposition = Disposition.blocked_not_art_mode })
          request no_authorization a
      else observe_inventory a seen answers.inventory

  unfoldable pub observe_device : Adapter → Observation → DeviceInfo → Option Failure → Observed
  unfolding fail_observation known_power_off observe_state read_power_state stable_device_id
  observe_device a o device (some e) = fails o e a
  observe_device a o device none =
      let known = device_view config o device in
      if trim_space device.power_state =ₜ codes "off"
      then known_power_off config request known a
      else observe_state a (connecting_view known) (read_power_state device answers.channel)

  unfoldable pub observe_reply : Adapter → Observation → Reply DeviceInfo → Observed
  unfolding fail_observation presumed_standby observe_device unreachable_error can_wake
      validate_frame_tv_device
  observe_reply a o (refused e) =
      if request.required == remote_power && can_wake config && unreachable_error e
      then presumed_standby config request o a
      else fails o e a
  observe_reply a o (answer device) = observe_device a o device (validate_frame_tv_device device)

  unfoldable pub observe_open : Adapter → Observation → Option Failure → Observed
  unfolding fail_observation publish_facts observe_reply next_generation
  observe_open a o (some e) = fails o e a
  observe_open a o none =
      if ltb answers.now a.next_attempt_at && not (request.required == remote_power)
      then (let waiting = record o {
        connection = ConnectionState.backing_off;
        disposition = Disposition.blocked_backoff;
      } in
          record {
            observation = waiting;
            authorization = no_authorization;
            error = some (
                Fault.classified (record {
                  kind = ErrorKind.backoff;
                  retryable = true;
                  outcome = Outcome.not_attempted;
                  retry_at = a.next_attempt_at;
                  consecutive_failures = a.consecutive_failures;
                })
                ∷ Fault.plain
                ∷ []);
            adapter = publish_facts waiting request a;
          })
      else observe_reply (opened a) o answers.device

  -- `Observe`.
  unfoldable pub observe : Adapter → Observed
  unfolding observe_open
  observe a =
      if a.closed
      then record {
        observation = blank config answers.now;
        authorization = no_authorization;
        error = some (because Sentinel.not_connected);
        adapter = a;
      }
      else observe_open a (blank config answers.now) answers.context
