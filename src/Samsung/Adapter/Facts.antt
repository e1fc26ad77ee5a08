-- ===== src/Samsung/Adapter/Facts.antt =====
-- The facts that `freshCommandGuard` checks a command against.
use frame_tv_art_manager.Prelude.Int.{ℤ-discrete, ltb_ℤ}
use frame_tv_art_manager.Prelude.Sort.{sort_func}
use frame_tv_art_manager.Samsung.Device.{read_power_state, OperationalState, DeviceInfo}
use frame_tv_art_manager.Samsung.Types.{
  SlideshowSetting-discrete, SlideshowSetting, ArtModeState, PowerState, Inventory, Command,
}
use frame_tv_art_manager.Samsung.Adapter.{can_wake, Authorization, Config}
use frame_tv_art_manager.Samsung.Adapter.Guard.{
  guard_command_facts, is_power, shows_art, BrightnessReading, refusal, unless_failed, guard_device,
  guard_state, GuardReads,
}
use frame_tv_art_manager.Samsung.Errors.{unreachable_error, answer, Reply, refused, Failure}
use frame_tv_art_manager.Prelude.{
  arith, false_of_not, ap, holds, refl, holds-true, inr, ◌||◌, and_parts, inl, not, text_compare,
  ◌⊎◌, ◌&&◌, trim_space, false, Text-discrete, true, ◌≡◌, ℕ, contains, none, if◌then◌else◌, Text,
  ◌≢◌, Option, Bool, List, some,
}

pub some-ne-none {ℓ} : {A : Type ℓ} (a : A) → some a ≢ none
some-ne-none a p = cc

pub true-ne-false : true ≢ false
true-ne-false p = cc

pub refused-ne-answer {ℓ} : {A : Type ℓ} (e : Failure) (a : A) → refused e ≢ answer a
refused-ne-answer e a p = cc

-- The TV answered, and is on and shows art.
pub record IsAwake (reads : GuardReads) : Type 0 where
  pub device : DeviceInfo
  pub state : OperationalState
  pub answered : reads.device ≡ answer device
  pub read : read_power_state device reads.channel ≡ answer state
  pub on : state.power ≡ PowerState.power_on
  pub art : state.art_mode ≡ ArtModeState.art_on

-- The TV can be woken, and is known to be off, or was presumed to be and does not answer.
pub record IsAsleep (config : Config) (authorization : Authorization) (reads : GuardReads)
    : Type 0 where
  pub wakeable : can_wake config ≡ true
  pub off :
      ((e : Failure) × (reads.device ≡ refused e)
        × (authorization.presumed_standby ≡ true)
        × (unreachable_error e ≡ true))
      ⊎ ((device : DeviceInfo) × (state : OperationalState) × (reads.device ≡ answer device)
          × (read_power_state device reads.channel ≡ answer state)
          × (state.power ≡ PowerState.power_off))

-- The facts that a command names are those of the TV.
abbrev pub Agrees : Command → GuardReads → List Text → Type 0
Agrees (Command.delete id) reads ids = contains Text-discrete ids (trim_space id) ≡ true
Agrees (Command.select id) reads ids = contains Text-discrete ids (trim_space id) ≡ true
Agrees (Command.configure_slideshow previous desired) reads ids = reads.slideshow ≡ answer previous
Agrees (Command.configure_brightness previous value) reads ids =
    (current : BrightnessReading) × (reads.brightness ≡ answer current)
    × (current.value ≡ previous)
    × (ltb_ℤ value current.min ≡ false)
    × (ltb_ℤ current.max value ≡ false)
Agrees _ reads ids = Unit

-- The TV is awake, its artwork is what the authorization was given for, and the command's facts hold.
pub record IsCurrent (fingerprint : List Text → List ℕ) (authorization : Authorization)
    (command : Command) (reads : GuardReads) (inventory : Inventory) : Type 0 where
  pub awake : IsAwake reads
  pub content : List Text
  pub listed : reads.inventory ≡ answer content
  pub ids : inventory.content_ids ≡ sort_func text_compare content
  pub same : fingerprint (sort_func text_compare content) ≡ authorization.inventory_fingerprint
  pub agrees : Agrees command reads inventory.content_ids

if-none : (b : Bool) → (if b then none else refusal) ≡ none → b ≡ true
if-none true p = refl
if-none false p = absurd (some-ne-none _ p)

pub and_parts3 : (a b c : Bool) → (a && b && c) ≡ true → (a ≡ true) × (b ≡ true) × (c ≡ true)
and_parts3 a b c p = ground arith

awake_of :
    (config : Config) (r : Reply OperationalState)
    → guard_state config false r ≡ none
    → (s : OperationalState) × (r ≡ answer s)
      × (s.power ≡ PowerState.power_on)
      × (s.art_mode ≡ ArtModeState.art_on)
unfolding guard_state
awake_of config (refused e) p = absurd (some-ne-none _ p)
awake_of config (answer s) p =
    let both = and_parts _ _ (if-none (shows_art s) p) in
    (s, refl, holds-true _ both.0, holds-true _ both.1)

asleep_of :
    (config : Config) (r : Reply OperationalState)
    → guard_state config true r ≡ none
    → (can_wake config ≡ true)
      × (s : OperationalState) × (r ≡ answer s)
      × (s.power ≡ PowerState.power_off)
unfolding guard_state
asleep_of config (refused e) p = absurd (some-ne-none _ p)
asleep_of config (answer s) p =
    let both = woken (is_power s.power PowerState.power_off) (can_wake config) p in
    (both.1, s, refl, holds-true _ both.0)
  where
    woken :
        (b d : Bool) → (if not b || not d then refusal else none) ≡ none → (b ≡ true) × (d ≡ true)
    woken true true q = (refl, refl)
    woken true false q = absurd (some-ne-none _ q)
    woken false d q = absurd (some-ne-none _ q)

unless-none : (first next : Option Failure) → unless_failed first next ≡ none → next ≡ none
unless-none (some e) next p = absurd (some-ne-none _ p)
unless-none none next p = p

pub device-IsAwake :
    (config : Config) (authorization : Authorization) (reads : GuardReads) (r : Reply DeviceInfo)
    → reads.device ≡ r
    → guard_device config authorization false reads.channel r ≡ none
    → IsAwake reads
unfolding guard_device
device-IsAwake config authorization reads (refused e) q p = absurd (some-ne-none _ p)
device-IsAwake config authorization reads (answer device) q p =
    let state = awake_of config (read_power_state device reads.channel) (unless-none _ _ p) in
    record {
      device = device;
      state = state.0;
      answered = q;
      read = state.1;
      on = state.2;
      art = state.3;
    }

pub device-IsAsleep :
    (config : Config) (authorization : Authorization) (reads : GuardReads) (r : Reply DeviceInfo)
    → reads.device ≡ r
    → guard_device config authorization true reads.channel r ≡ none
    → IsAsleep config authorization reads
unfolding guard_device
device-IsAsleep config authorization reads (refused e) q p =
    let all = presumed authorization.presumed_standby (can_wake config) (unreachable_error e) p in
    record { wakeable = all.1; off = inl (e, q, all.0, all.2) }
  where
    presumed :
        (b d u : Bool)
        → (if b && d && u then none else some e) ≡ none
        → (b ≡ true) × (d ≡ true) × (u ≡ true)
    presumed true true true h = (refl, refl, refl)
    presumed true true false h = absurd (some-ne-none _ h)
    presumed true false u h = absurd (some-ne-none _ h)
    presumed false d u h = absurd (some-ne-none _ h)
device-IsAsleep config authorization reads (answer device) q p =
    let state = asleep_of config (read_power_state device reads.channel) (unless-none _ _ p) in
    record { wakeable = state.0; off = inr (device, state.1, q, state.2, state.3) }

pub facts-Agrees :
    (command : Command) (inventory : Inventory) (reads : GuardReads)
    → guard_command_facts command inventory reads ≡ none
    → Agrees command reads inventory.content_ids
unfolding guard_command_facts
facts-Agrees (Command.delete id) inventory reads p = if-none _ p
facts-Agrees (Command.select id) inventory reads p = if-none _ p
facts-Agrees (Command.configure_slideshow previous desired) inventory reads p =
    shown reads.slideshow p
  where
    shown :
        (r : Reply SlideshowSetting)
        → elim r [
          | refused e ↦ some e
          | answer current ↦
              if holds (SlideshowSetting-discrete current previous) then none else refusal
        ]
          ≡ none
        → r ≡ answer previous
    shown (refused e) q = absurd (some-ne-none _ q)
    shown (answer current) q =
        ap answer (holds-true (SlideshowSetting-discrete current previous) (if-none _ q))
facts-Agrees (Command.configure_brightness previous value) inventory reads p =
    shown reads.brightness p
  where
    shown :
        (r : Reply BrightnessReading)
        → elim r [
          | refused e ↦ some e
          | answer current ↦
              if holds (ℤ-discrete current.value previous)
                && not (ltb_ℤ value current.min)
                && not (ltb_ℤ current.max value)
              then none
              else refusal
        ]
          ≡ none
        → (current : BrightnessReading) × (r ≡ answer current)
          × (current.value ≡ previous)
          × (ltb_ℤ value current.min ≡ false)
          × (ltb_ℤ current.max value ≡ false)
    shown (refused e) q = absurd (some-ne-none _ q)
    shown (answer current) q =
        let parts =
          and_parts3 (holds (ℤ-discrete current.value previous)) (not (ltb_ℤ value current.min))
            (not (ltb_ℤ current.max value)) (if-none _ q) in
        (current, refl, holds-true _ parts.0, false_of_not _ parts.1, false_of_not _ parts.2)
facts-Agrees (Command.upload path name type matte portrait digest size) inventory reads p = tt
facts-Agrees Command.wake inventory reads p = tt
facts-Agrees Command.power_off_command inventory reads p = tt
