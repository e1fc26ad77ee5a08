-- ===== src/Samsung/Adapter/Offers.antt =====
-- The authorizations that `Observe` gives out.
use frame_tv_art_manager.Samsung.Adapter.Observing.{known_power_off}
use frame_tv_art_manager.Samsung.Adapter.Verify.{is_none}
use frame_tv_art_manager.Samsung.Adapter.{
  can_wake, remote_power, Adapter, supports, image_selection, slideshow_read_write,
  brightness_read_write, Config,
}
use frame_tv_art_manager.Samsung.Adapter.Observe.{
  publish_facts, new_authorization, no_authorization, settle_observation, Observed, selectable,
  keep_slideshow, slideshow_support, keep_brightness, brightness_support, ObserveAnswers,
  ObserveRequest, Probing, observe_capabilities, probe,
}
use frame_tv_art_manager.Samsung.Types.{
  Disposition, Inventory, ArtModeState, Support, PowerState, Observation,
}
use frame_tv_art_manager.Samsung.Device.{
  parse_device_power_state, state_by_rest, Channel, DeviceInfo, OperationalState, read_power_state,
  state_by_channel, state_by_art, state_by_mode,
}
use frame_tv_art_manager.Samsung.Errors.{Sentinel, fault_is, Failure, answer, refused, Reply}
use frame_tv_art_manager.Prelude.{
  ◌≢◌, ==_iff, sym, and_parts, List, ◌∙◌, ◌==◌, bit_or, bit_and, ◌||◌, inr, trim_space, inl, codes,
  not, ◌&&◌, ◌=ₜ◌, ◌⊎◌, if_cases, Option, Text, ℕ, ◌≡◌, Bool, refl, true, false, none, some, [],
}

-- A TV that is neither off nor without art shows art.
abbrev pub Settled : Reply OperationalState → Type 0
Settled (refused e) = Unit
Settled (answer s) =
    (s.power ≡ PowerState.power_off)
    ⊎ ((s.art_mode ≡ ArtModeState.art_off)
        ⊎ ((s.power ≡ PowerState.power_on) × (s.art_mode ≡ ArtModeState.art_on)))

mode-Settled :
    (standby : Bool) (power : PowerState) (mode : Text) → Settled (state_by_mode standby power mode)
unfolding state_by_mode
mode-Settled standby power mode =
    if_cases Settled (mode =ₜ codes "on") _ _ (λ p. inr (inr (refl, refl)))
      (λ p. if_cases Settled (mode =ₜ codes "off") _ _ (λ q. inr (inl refl)) (λ q. tt))

art-Settled :
    (standby : Bool) (power : PowerState) (live : Bool) (r : Reply Text)
    → Settled (state_by_art standby power live r)
unfolding state_by_art
art-Settled standby power live (refused e) =
    if_cases Settled (standby && live) _ _ (λ p. inl refl) (λ p. tt)
art-Settled standby power live (answer mode) = mode-Settled standby power (trim_space mode)

channel-Settled :
    (standby : Bool) (power : PowerState) (channel : Channel) (e : Option Failure)
    → Settled (state_by_channel standby power channel e)
unfolding state_by_channel
channel-Settled standby power channel (some e) =
    if_cases Settled (standby && not (fault_is e Sentinel.unauthorized) && channel.live) _ _
      (λ p. inl refl) (λ p. tt)
channel-Settled standby power channel none = art-Settled standby power channel.live channel.art_mode

pub read-Settled :
    (device : DeviceInfo) (channel : Channel) → Settled (read_power_state device channel)
unfolding read_power_state state_by_rest
read-Settled device channel =
    rest (trim_space device.power_state) (parse_device_power_state (trim_space device.power_state))
  where
    rest : (raw : Text) (power : Option PowerState) → Settled (state_by_rest raw channel power)
    rest raw none = tt
    rest raw (some power) =
        if_cases Settled (raw =ₜ codes "off") _ _ (λ p. inl refl)
          (λ p. channel-Settled (raw =ₜ codes "standby") power channel channel.connect)

-- What the probes of an observation leave alone.
abbrev pub facts : Observation → Inventory × PowerState × ArtModeState × Disposition
facts o = (o.inventory, o.power, o.art_mode, o.disposition)

abbrev pub Keeps : Observation → Probing → Type 0
Keeps o p = facts p.observation ≡ facts o

probe-Keeps {ℓ} :
    {A : Type ℓ} (o : Observation) (request : ObserveRequest) (capability : ℕ)
    (support_with : Support → Observation → Observation) (keep : A → Observation → Observation)
    (r : Reply A) (p : Probing)
    → ((s : Support) (q : Observation) → facts (support_with s q) ≡ facts q)
    → ((a : A) (q : Observation) → facts (keep a q) ≡ facts q)
    → Keeps o p
    → Keeps o (probe request capability support_with keep r p)
unfolding probe
probe-Keeps o request capability support_with keep (refused e) p s k h =
    if_cases (Keeps o)
      (not (is_none p.error) || bit_and (bit_or request.required request.optional) capability == 0)
      _ _ (λ t. h) (λ t. s Support.unsupported p.observation ∙ h)
probe-Keeps o request capability support_with keep (answer a) p s k h =
    if_cases (Keeps o)
      (not (is_none p.error) || bit_and (bit_or request.required request.optional) capability == 0)
      _ _ (λ t. h) (λ t. s Support.supported (keep a p.observation) ∙ (k a p.observation ∙ h))

pub capabilities-Keeps :
    (config : Config) (request : ObserveRequest) (answers : ObserveAnswers) (o : Observation)
    → Keeps o (observe_capabilities config request answers o)
unfolding observe_capabilities
capabilities-Keeps config request answers o =
    if_cases (Keeps o) (not config.mutable) _ _ (λ p. refl)
      (λ p.
        probe-Keeps o request brightness_read_write brightness_support keep_brightness
          answers.brightness _ (λ s q. refl) (λ a q. refl)
          (probe-Keeps o request slideshow_read_write slideshow_support keep_slideshow
            answers.slideshow _ (λ s q. refl) (λ a q. refl)
            (probe-Keeps o request image_selection selectable (λ (shown : Text) o. o)
              answers.artwork _ (λ s q. refl) (λ a q. refl) refl)))

-- The facts that an authorization was given out on.
pub data Ground (config : Config) (request : ObserveRequest) (o : Observation) : Type 0 where
  -- The TV shows art, its artwork was listed, and it can do what was required.
  art :
      o.disposition ≡ Disposition.eligible
      → o.power ≡ PowerState.power_on
      → o.art_mode ≡ ArtModeState.art_on
      → o.inventory.known ≡ true
      → supports o.capabilities request.required ≡ true
      → Ground config request o
  -- A wake alone was asked for, of a TV that is off, or does not answer.
  dark :
      request.required ≡ remote_power
      → can_wake config ≡ true
      → (o.power ≡ PowerState.power_off) ⊎ (o.presumed_standby ≡ true)
      → Ground config request o

module _ (config : Config) (request : ObserveRequest) where
  -- The authorization is the adapter's own, and matches what the adapter will compare it with.
  pub record IsOffer (r : Observed) : Type 0 where
    pub issuer : r.authorization.issuer ≡ some config.identity
    pub unclosed : r.adapter.closed ≡ false
    pub generation : r.authorization.connection_generation ≡ r.adapter.connection_generation
    pub cycle : r.authorization.cycle_id ≡ r.adapter.cycle_id
    pub collection : r.authorization.collection_generation ≡ r.adapter.collection_generation
    pub inventory : r.authorization.inventory_fingerprint ≡ r.adapter.inventory_fingerprint
    pub required : r.authorization.required ≡ request.required
    pub dry_run : r.authorization.dry_run ≡ request.dry_run
    pub error : r.error ≡ none
    pub ground : Ground config request r.observation

  abbrev pub Offers : Observed → Type 0
  Offers r =
      ((r.authorization ≡ no_authorization) × (r.observation.disposition ≢ Disposition.eligible))
      ⊎ IsOffer r

  pub settle-Offers :
      (o : Observation) (a : Adapter) (fingerprint : List ℕ)
      → a.closed ≡ false
      → fingerprint ≡ o.inventory.fingerprint
      → Ground config request o
      → Offers (
          settle_observation o request
            (new_authorization config request a.connection_generation fingerprint)
            a)
  unfolding settle_observation new_authorization publish_facts
  settle-Offers o a fingerprint u f g = inr (record {
    issuer = refl;
    unclosed = u;
    generation = refl;
    cycle = refl;
    collection = refl;
    inventory = f;
    required = refl;
    dry_run = refl;
    error = refl;
    ground = g;
  })

  pub off-Offers :
      (o : Observation) (a : Adapter)
      → a.closed ≡ false
      → o.inventory.fingerprint ≡ []
      → Offers (known_power_off config request o a)
  unfolding known_power_off settle_observation
  off-Offers o a u f =
      if_cases Offers (request.required == remote_power && can_wake config) _ _
        (λ p.
          let both = and_parts (request.required == remote_power) _ p in
          settle-Offers _ a [] u (sym f)
            (Ground.dark ((==_iff request.required remote_power).0 both.0) both.1 (inl refl)))
        (λ p. inl (refl, (λ q. cc)))
