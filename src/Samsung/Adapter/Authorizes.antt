-- ===== src/Samsung/Adapter/Authorizes.antt =====
-- Every authorization that `Observe` gives out is one that `Apply` takes.
use frame_tv_art_manager.Samsung.Adapter.Facts.{and_parts3}
use frame_tv_art_manager.Samsung.Adapter.Guard.{is_power}
use frame_tv_art_manager.Samsung.Device.{
  validate_frame_tv_device, read_power_state, OperationalState, DeviceInfo,
}
use frame_tv_art_manager.Samsung.Errors.{
  unreachable_error, Sentinel, ErrorKind, fault_is, answer, refused, classify_observation_error,
  Reply, Failure,
}
use frame_tv_art_manager.Samsung.Adapter.Offers.{
  read-Settled, capabilities-Keeps, settle-Offers, off-Offers, Ground, Keeps, Settled, Offers,
}
use frame_tv_art_manager.Samsung.Types.{
  Disposition, PowerState-discrete, ArtModeState-discrete, Support, ArtModeState, PowerState,
  Command, Observation,
}
use frame_tv_art_manager.Samsung.Adapter.Observing.{
  device_view, connecting_view, state_view, known_power_off, opened, is_kind, fails,
  presumed_standby, observe, observe_open, observe_reply, observe_device, observe_state,
  observe_inventory, observe_probed, fail_observation,
}
use frame_tv_art_manager.Samsung.Adapter.Observe.{
  observe_capabilities, blank, no_authorization, publish_facts, new_authorization, Probing,
  settle_observation, ObserveAnswers, ObserveRequest,
}
use frame_tv_art_manager.Samsung.Adapter.{
  authorize_command, command_capability, can_wake, remote_power, supports, normalize_inventory,
  Adapter, Config,
}
use frame_tv_art_manager.Prelude.{
  ◌≢◌, true_of_not, ==_iff, inr, ne_of_false, ◌∙◌, sym, holds, ap, bit_and, not, ◌==◌, codes, ◌⊎◌,
  ◌&&◌, ◌=ₜ◌, inl, ltb, trim_space, ◌≡◌, if_cases, Option, ℕ, Text, List, refl, true, false, none,
  some, [],
}
use frame_tv_art_manager.Samsung.Adapter.Offered.{offer-authorizes}

module _ (fingerprint : List Text → List ℕ) (scale : ℕ → ℕ → ℕ) (config : Config)
    (request : ObserveRequest) (answers : ObserveAnswers) where
  failed-Offers :
      (o : Observation) (e : Failure) (a : Adapter)
      → Offers config request (fails fingerprint scale config request answers o e a)
  unfolding fail_observation
  failed-Offers o e a =
      let c = classify_observation_error e in
      if_cases (Offers config request) (is_kind c.kind ErrorKind.canceled) _ _
        (λ p. inl (refl, (λ z. cc)))
        (λ p.
          if_cases (Offers config request) (is_kind c.kind ErrorKind.unauthorized) _ _
            (λ q. inl (refl, (λ z. cc)))
            (λ q.
              if_cases (Offers config request) c.retryable _ _ (λ r. inl (refl, (λ z. cc)))
                (λ r. inl (refl, (λ z. cc)))))

  probed-Offers :
      (a : Adapter) (o : Observation) (p : Probing) (e : Option Failure)
      → a.closed ≡ false
      → o.power ≡ PowerState.power_on
      → o.art_mode ≡ ArtModeState.art_on
      → o.inventory.known ≡ true
      → o.disposition ≢ Disposition.eligible
      → Keeps o p
      → Offers config request
          (observe_probed fingerprint scale config request answers a o.inventory.fingerprint p e)
  unfolding observe_probed
  probed-Offers a o p (some e) u on art known n k = failed-Offers p.observation e a
  probed-Offers a o p none u on art known n k =
      if_cases (Offers config request) (not (supports p.observation.capabilities request.required))
        _ _ (λ s. inl (refl, (λ z. n (sym (ap (λ f. f.3) k) ∙ z))))
        (λ s. settle-Offers config request _ a _ u (ap (λ f. f.0.fingerprint) (sym k)) (
          Ground.art refl (ap (λ f. f.1) k ∙ on) (ap (λ f. f.2) k ∙ art)
            (ap (λ f. f.0.known) k ∙ known) (true_of_not _ s)))

  inventory-Offers :
      (a : Adapter) (o : Observation) (r : Reply (List Text))
      → a.closed ≡ false
      → o.power ≡ PowerState.power_on
      → o.art_mode ≡ ArtModeState.art_on
      → o.disposition ≢ Disposition.eligible
      → Offers config request (observe_inventory fingerprint scale config request answers a o r)
  unfolding observe_inventory normalize_inventory
  inventory-Offers a o (refused e) u on art n = failed-Offers o e a
  inventory-Offers a o (answer content) u on art n =
      let listed = record o {
        inventory = normalize_inventory fingerprint content o.observed_at;
        capabilities = record o.capabilities { user_art_inventory = Support.supported };
      } in
      let p = observe_capabilities config request answers listed in
      probed-Offers a listed p p.error u on art refl n
        (capabilities-Keeps config request answers listed)

  state-Offers :
      (a : Adapter) (o : Observation) (r : Reply OperationalState)
      → a.closed ≡ false
      → o.inventory.fingerprint ≡ []
      → o.disposition ≢ Disposition.eligible
      → Settled r
      → Offers config request (observe_state fingerprint scale config request answers a o r)
  unfolding observe_state settle_observation
  state-Offers a o (refused e) u f n s =
      if_cases (Offers config request) (fault_is e Sentinel.gate_failed) _ _
        (λ p. inl (refl, (λ z. cc))) (λ p. failed-Offers o e a)
  state-Offers a o (answer state) u f n s =
      if_cases (Offers config request) (is_power state.power PowerState.power_off)
        (known_power_off config request (state_view o state) a) _
        (λ p. off-Offers config request (state_view o state) a u f)
        (λ p.
          if_cases (Offers config request)
            (holds (ArtModeState-discrete state.art_mode ArtModeState.art_off)) _
            (observe_inventory fingerprint scale config request answers a (state_view o state)
              answers.inventory)
            (λ q. inl (refl, (λ z. cc)))
            (λ q.
              let shown = shows p q s in
              inventory-Offers a (state_view o state) answers.inventory u shown.0 shown.1 n))
    where
      shows :
          is_power state.power PowerState.power_off ≡ false
          → holds (ArtModeState-discrete state.art_mode ArtModeState.art_off) ≡ false
          → Settled (answer state)
          → (state.power ≡ PowerState.power_on) × (state.art_mode ≡ ArtModeState.art_on)
      shows p q (inl off) = absurd (ne_of_false (PowerState-discrete _ _) p off)
      shows p q (inr (inl off)) = absurd (ne_of_false (ArtModeState-discrete _ _) q off)
      shows p q (inr (inr on)) = on

  device-Offers :
      (a : Adapter) (o : Observation) (device : DeviceInfo) (e : Option Failure)
      → a.closed ≡ false
      → o.inventory.fingerprint ≡ []
      → o.disposition ≢ Disposition.eligible
      → Offers config request (observe_device fingerprint scale config request answers a o device e)
  unfolding observe_device
  device-Offers a o device (some e) u f n = failed-Offers o e a
  device-Offers a o device none u f n =
      if_cases (Offers config request) (trim_space device.power_state =ₜ codes "off")
        (known_power_off config request (device_view config o device) a)
        (observe_state fingerprint scale config request answers a
          (connecting_view (device_view config o device)) (read_power_state device answers.channel))
        (λ p. off-Offers config request (device_view config o device) a u f)
        (λ p.
          state-Offers a (connecting_view (device_view config o device))
            (read_power_state device answers.channel) u f n (read-Settled device answers.channel))

  reply-Offers :
      (a : Adapter) (o : Observation) (r : Reply DeviceInfo)
      → a.closed ≡ false
      → o.inventory.fingerprint ≡ []
      → o.disposition ≢ Disposition.eligible
      → Offers config request (observe_reply fingerprint scale config request answers a o r)
  unfolding observe_reply presumed_standby new_authorization publish_facts
  reply-Offers a o (refused e) u f n =
      if_cases (Offers config request)
        (request.required == remote_power && can_wake config && unreachable_error e) _ _
        (λ p.
          let parts = and_parts3 (request.required == remote_power) (can_wake config) _ p in
          inr (record {
            issuer = refl;
            unclosed = u;
            generation = refl;
            cycle = refl;
            collection = refl;
            inventory = sym f;
            required = refl;
            dry_run = refl;
            error = refl;
            ground =
                Ground.dark ((==_iff request.required remote_power).0 parts.0) parts.1 (inr refl);
          }))
        (λ p. failed-Offers o e a)
  reply-Offers a o (answer device) u f n =
      device-Offers a o device (validate_frame_tv_device device) u f n

  open-Offers :
      (a : Adapter) (o : Observation) (e : Option Failure)
      → a.closed ≡ false
      → o.inventory.fingerprint ≡ []
      → o.disposition ≢ Disposition.eligible
      → Offers config request (observe_open fingerprint scale config request answers a o e)
  unfolding observe_open
  open-Offers a o (some e) u f n = failed-Offers o e a
  open-Offers a o none u f n =
      if_cases (Offers config request)
        (ltb answers.now a.next_attempt_at && not (request.required == remote_power)) _ _
        (λ p. inl (refl, (λ z. cc))) (λ p. reply-Offers (opened a) o answers.device u f n)

  observe-Offers :
      (a : Adapter) → Offers config request (observe fingerprint scale config request answers a)
  unfolding observe
  observe-Offers a =
      if_cases (Offers config request) a.closed _ _ (λ p. inl (refl, (λ z. cc)))
        (λ p. open-Offers a (blank config answers.now) answers.context p refl (λ z. cc))

  -- Where the transport can write and it is no dry run, for a command whose capability was required:
  -- an observation gives out no authorization, and is not eligible; or it gives out one on good
  -- grounds, which `authorizeCommand` then takes for the command while the context is good. The
  -- grounds are that the observation saw a TV that shows art, listed its artwork and supports what
  -- was required; or that a wake alone was asked for, of a TV that can be woken and is off or does not
  -- answer.
  pub observe-Authorizes :
      (a : Adapter) (command : Command)
      → request.dry_run ≡ false
      → config.mutable ≡ true
      → bit_and request.required (command_capability command) ≡ command_capability command
      → (((observe fingerprint scale config request answers a).authorization ≡ no_authorization)
          × ((observe fingerprint scale config request answers a).observation.disposition
              ≢ Disposition.eligible))
        ⊎ (Ground config request (observe fingerprint scale config request answers a).observation
            × (authorize_command config
                  (observe fingerprint scale config request answers a).adapter
                  none
                  (observe fingerprint scale config request answers a).authorization
                  command
                ≡ none))
  observe-Authorizes a command d m c = elim (observe-Offers a) [
    | inl nothing ↦ inl nothing
    | inr offer ↦ inr (offer.ground, offer-authorizes config request _ command offer d m c)
  ]
