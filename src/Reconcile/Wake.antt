-- ===== src/Reconcile/Wake.antt =====
-- internal/reconcile/wake_schedule.go: the wake that a power-on policy schedules, once per boundary.
pub mod Once
pub mod PowerOn
use frame_tv_art_manager.Prelude.{
  ℕ, ltb, Text, is_empty, Bool, true, false, not, ◌&&◌, ◌||◌, if◌then◌else◌, List, [], ◌∷◌, ◌++◌,
  Option, none, some, holds,
}
use frame_tv_art_manager.Samsung.Types.{
  Observation, PowerState, Support, Outcome, Outcome-discrete, Receipt,
}
use frame_tv_art_manager.Reconcile.Types.{Policy, PowerPolicy, CommandKind}
use frame_tv_art_manager.Reconcile.Errors.{Result, ok, err, Err, Cause}

-- What a run does to the world: it sends a wake packet, and it writes the boundary, which succeeds
-- or not.
pub data WakeEvent : Type 0 where
  woken : WakeEvent
  recorded : ℕ → Bool → WakeEvent

-- `wakeStep`, with the error.
pub record WakeStep : Type 0 where
  pub policy : Policy
  pub observation : Observation
  pub applied : List CommandKind
  pub error : Option Err

pub record WakeRun : Type 0 where
  pub events : List WakeEvent
  pub step : WakeStep

-- What the world answers: the boundary on record, the receipt and the error of the wake, the error
-- of the write, and the observation after it.
pub record WakeAnswers : Type 0 where
  pub handled : Result ℕ
  pub receipt : Receipt
  pub wake_error : Option Err
  pub save_error : Option Err
  pub fresh : Observation
  pub observe_error : Option Err

abbrev pub is_none {ℓ} : {A : Type ℓ} → Option A → Bool
is_none none = true
is_none (some a) = false

abbrev pub join : Option Err → Err → Err
join none f = f
join (some e) f = e ++ f

-- The policy for the rest of the run.
abbrev pub without_wake : Policy → Policy
without_wake p = record p { power = PowerPolicy.preserve; wake_boundary = 0 }

abbrev pub is_power_on : PowerState → Bool
is_power_on PowerState.power_on = true
is_power_on _ = false

abbrev pub is_power_off : PowerState → Bool
is_power_off PowerState.power_off = true
is_power_off _ = false

abbrev pub is_supported : Support → Bool
is_supported Support.supported = true
is_supported _ = false

module _ (a : WakeAnswers) (dry_run : Bool) (policy : Policy) (o : Observation) where
  unfoldable pub stop : List WakeEvent → List CommandKind → Option Err → WakeRun
  stop events applied error = record {
    events = events;
    step = record {
      policy = without_wake policy;
      observation = o;
      applied = applied;
      error = error;
    };
  }

  -- `reobserve`, where the step before it has no error.
  unfoldable pub reobserved : List WakeEvent → List CommandKind → WakeRun
  reobserved events applied = record {
    events = events;
    step = record {
      policy = without_wake policy;
      observation = a.fresh;
      applied = applied;
      error = a.observe_error;
    };
  }

  -- The TV is on: its boundary is recorded.
  unfoldable pub record_on : Option Err → WakeRun
  unfolding stop reobserved
  record_on none = reobserved (WakeEvent.recorded policy.wake_boundary true ∷ []) []
  record_on (some e) = stop (WakeEvent.recorded policy.wake_boundary false ∷ []) [] (some e)

  -- The wake packet is sent, and its boundary recorded.
  unfoldable pub record_woken : Option Err → Option Err → WakeRun
  unfolding stop reobserved
  record_woken wake_error (some e) =
      stop (WakeEvent.woken ∷ WakeEvent.recorded policy.wake_boundary false ∷ [])
        (CommandKind.wake ∷ []) (some (join wake_error e))
  record_woken (some e) none =
      stop (WakeEvent.woken ∷ WakeEvent.recorded policy.wake_boundary true ∷ [])
        (CommandKind.wake ∷ []) (some e)
  record_woken none none =
      reobserved (WakeEvent.woken ∷ WakeEvent.recorded policy.wake_boundary true ∷ [])
        (CommandKind.wake ∷ [])

  unfoldable pub wake_now : WakeRun
  unfolding record_woken stop
  wake_now =
      if holds (Outcome-discrete a.receipt.outcome Outcome.not_attempted)
      then stop [] [] (some (join a.wake_error (Cause.plain ∷ [])))
      else record_woken a.wake_error a.save_error

  unfoldable pub wake_unless_handled : ℕ → WakeRun
  unfolding record_on wake_now reobserved stop
  wake_unless_handled handled =
      if not (ltb handled policy.wake_boundary)
      then reobserved [] []
      else if is_power_on o.power
      then (if dry_run then reobserved [] [] else record_on a.save_error)
      else if not (is_power_off o.power) && not o.presumed_standby
      then stop [] [] none
      else if not (is_supported o.capabilities.remote_power)
      then stop [] [] (some (Cause.unsupported_intent ∷ []))
      else if dry_run
      then stop [] [] none
      else wake_now

  unfoldable pub wake_as : Result ℕ → WakeRun
  unfolding wake_unless_handled stop
  wake_as (err e) = stop [] [] (some e)
  wake_as (ok handled) = wake_unless_handled handled

  -- `scheduledWake`.
  unfoldable pub scheduled_wake : WakeRun
  unfolding wake_as stop
  scheduled_wake =
      if is_empty o.tv.address then stop [] [] (some (Cause.plain ∷ [])) else wake_as a.handled
