-- ===== src/Samsung/Adapter/Verify.antt =====
-- internal/samsung/adapter_apply.go: the reads after a write. Each further read of a poll comes after
-- a timer that ran out; when none is left, the time for the answer is up.
use frame_tv_art_manager.Samsung.Adapter.{normalize_inventory}
use frame_tv_art_manager.Samsung.Adapter.Guard.{is_power, GuardReads, BrightnessReading}
use frame_tv_art_manager.Samsung.Device.{
  Channel, DeviceInfo, read_power_state, OperationalState, validate_frame_tv_device,
}
use frame_tv_art_manager.Prelude.Int.{ℤ, ℤ-discrete}
use frame_tv_art_manager.Samsung.Types.{
  Outcome-discrete, SlideshowSetting, Command, PowerState, SlideshowSetting-discrete, Outcome,
}
use frame_tv_art_manager.Prelude.{
  not, Text-discrete, ◌=ₜ◌, [], if◌then◌else◌, ◌&&◌, ◌∷◌, trim_space, ◌++◌, contains, false, none,
  some, holds, true, ℕ, List, Bool, Option, Text,
}
use frame_tv_art_manager.Samsung.Errors.{
  Sentinel, Fault, Failure, answer, refused, unreachable_error, Reply,
}
use frame_tv_art_manager.Samsung.Adapter.Prepare.{FileFacts, PreparedUpload}

-- What reaches the transport. An upload takes its mattes, and the content IDs that the TV has.
pub data Sent : Type 0 where
  upload : PreparedUpload → List Text → Sent
  delete : Text → Sent
  select : Text → Sent
  slideshow : SlideshowSetting → Sent
  brightness : ℤ → Sent
  wake power_off : Sent

-- One read after the write. `live` says that the context is still good after `DeviceInfo` failed.
pub record Check : Type 0 where
  pub inventory : Reply (List Text)
  pub observed_at : ℕ
  pub artwork : Reply Text
  pub slideshow : Reply SlideshowSetting
  pub brightness : Reply BrightnessReading
  pub device : Reply DeviceInfo
  pub channel : Channel
  pub live : Bool

-- The answers to one call. `context` is its error at the start, `context_late` right before the
-- write, and `context_done` once the polling is over.
pub record ApplyAnswers : Type 0 where
  pub command_id : Text
  pub context : Option Failure
  pub file : Reply FileFacts
  pub reads : GuardReads
  pub context_late : Option Failure
  pub content_id : Text
  pub write_error : Option Failure
  pub check : Check
  pub checks : List Check
  pub context_done : Option Failure
  pub completed_at : ℕ

-- The outcome and the error that the reads after the write give, with the fingerprint of the last
-- inventory among them.
pub record Verdict : Type 0 where
  pub outcome : Outcome
  pub error : Option Failure
  pub fingerprint : Option (List ℕ)

abbrev pub verdict : Outcome → Option Failure → Verdict
verdict outcome error = record { outcome = outcome; error = error; fingerprint = none }

abbrev pub plain_error : Option Failure
plain_error = some (Fault.plain ∷ [])

-- `settingOutcome`.
unfoldable pub setting_outcome : (previous desired : ℤ) → Reply ℤ → Verdict
unfolding ℤ-discrete
setting_outcome previous desired (refused e) = verdict Outcome.outcome_unknown (some e)
setting_outcome previous desired (answer actual) =
    if holds (ℤ-discrete actual desired)
    then verdict Outcome.applied none
    else if holds (ℤ-discrete actual previous)
    then verdict Outcome.not_applied plain_error
    else verdict Outcome.outcome_unknown plain_error

-- `slideshowOutcome`.
unfoldable pub slideshow_outcome :
    (previous desired : SlideshowSetting) → Reply SlideshowSetting → Verdict
unfolding SlideshowSetting-discrete
slideshow_outcome previous desired (refused e) = verdict Outcome.outcome_unknown (some e)
slideshow_outcome previous desired (answer actual) =
    if holds (SlideshowSetting-discrete actual desired)
    then verdict Outcome.applied none
    else if holds (SlideshowSetting-discrete actual previous)
    then verdict Outcome.not_applied plain_error
    else verdict Outcome.outcome_unknown plain_error

abbrev pub value_of : Reply BrightnessReading → Reply ℤ
value_of (refused e) = refused e
value_of (answer reading) = answer reading.value

abbrev pub selected : Text → Reply Text → Verdict
selected id (refused e) = verdict Outcome.outcome_unknown (some e)
selected id (answer current) =
    if current =ₜ trim_space id
    then verdict Outcome.applied none
    else verdict Outcome.not_applied plain_error

abbrev joined : Option Failure → Failure → Failure
joined none over = over
joined (some e) over = e ++ over

abbrev pub is_none {ℓ} : {A : Type ℓ} → Option A → Bool
is_none none = true
is_none (some a) = false

-- The poll is over with the verdict of its last read, but for an error of the caller's context.
abbrev pub poll_end : Option Failure → Verdict → Verdict
poll_end none v = v
poll_end (some over) v = record v {
  outcome = Outcome.outcome_unknown;
  error = some (joined v.error over);
}

abbrev pub proves : Verdict → Bool
proves v = holds (Outcome-discrete v.outcome Outcome.applied) && is_none v.error

-- `pollPostcondition`.
unfoldable pub poll_postcondition :
    (Check → Verdict) → Option Failure → Check → List Check → Verdict
poll_postcondition check over first [] =
    if proves (check first) then check first else poll_end over (check first)
poll_postcondition check over first (next ∷ rest) =
    let later = poll_postcondition check over next rest in
    if proves (check first) then check first else later

unfoldable pub power_by_state : PowerState → Reply OperationalState → Bool × Option Failure
power_by_state desired (refused e) = (false, some e)
power_by_state desired (answer s) = (is_power s.power desired, none)

abbrev pub power_if_valid : PowerState → Check → DeviceInfo → Option Failure → Bool × Option Failure
power_if_valid desired c device (some e) = (false, some e)
power_if_valid desired c device none = power_by_state desired (read_power_state device c.channel)

unfoldable pub power_by_device : PowerState → Check → Reply DeviceInfo → Bool × Option Failure
unfolding power_by_state validate_frame_tv_device read_power_state unreachable_error
power_by_device desired c (refused e) =
    (is_power desired PowerState.power_off && unreachable_error e && c.live, some e)
power_by_device desired c (answer device) =
    power_if_valid desired c device (validate_frame_tv_device device)

-- `desiredPowerObserved`.
unfoldable pub desired_power_observed : PowerState → Check → Bool × Option Failure
unfolding power_by_device
desired_power_observed desired c = power_by_device desired c c.device

abbrev or_last : Option Failure → Failure → Failure
or_last (some e) last = e
or_last none last = last

-- `powerPollError`, once the time of the poll is up.
abbrev power_poll_error : Option Failure → Failure → Failure
power_poll_error (some over) last = over
power_poll_error none last = Fault.sentinel Sentinel.deadline_exceeded ∷ last

-- `powerOutcome`, with the last error that it keeps.
unfoldable pub power_outcome : PowerState → Option Failure → Failure → Check → List Check → Verdict
unfolding desired_power_observed
power_outcome desired over last first [] =
    let seen = desired_power_observed desired first in
    if seen.0
    then verdict Outcome.applied none
    else verdict Outcome.outcome_unknown (some (power_poll_error over (or_last seen.1 last)))
power_outcome desired over last first (next ∷ rest) =
    let seen = desired_power_observed desired first in
    let later = power_outcome desired over (or_last seen.1 last) next rest in
    if seen.0 then verdict Outcome.applied none else later

module _ (fingerprint : List Text → List ℕ) where
  unfoldable pub member_verdict : Text → Bool → Reply (List Text) → ℕ → Verdict
  unfolding normalize_inventory contains
  member_verdict id present (refused e) observed_at = verdict Outcome.outcome_unknown (some e)
  member_verdict id present (answer content) observed_at =
      let inventory = normalize_inventory fingerprint content observed_at in
      let found = contains Text-discrete inventory.content_ids (trim_space id) in
      if (if found then present else not present)
      then record (verdict Outcome.applied none) { fingerprint = some inventory.fingerprint }
      else record (verdict Outcome.not_applied plain_error) {
        fingerprint = some inventory.fingerprint;
      }

  -- `verifyInventoryMembership`.
  unfoldable pub verify_membership : Text → Bool → Check → Verdict
  unfolding member_verdict
  verify_membership id present c = member_verdict id present c.inventory c.observed_at

  -- `verifyPostcondition`.
  unfoldable pub verify_postcondition : Command → ApplyAnswers → Verdict
  unfolding verify_membership poll_postcondition power_outcome slideshow_outcome setting_outcome
  verify_postcondition (Command.upload path name file_type matte portrait_matte digest size)
        answers =
      verify_membership answers.content_id true answers.check
  verify_postcondition (Command.delete id) answers =
      poll_postcondition (verify_membership id false) answers.context_done answers.check
        answers.checks
  verify_postcondition (Command.select id) answers =
      poll_postcondition (λ c. selected id c.artwork) answers.context_done answers.check
        answers.checks
  verify_postcondition (Command.configure_slideshow previous desired) answers =
      slideshow_outcome previous desired answers.check.slideshow
  verify_postcondition (Command.configure_brightness previous value) answers =
      setting_outcome previous value (value_of answers.check.brightness)
  verify_postcondition Command.wake answers =
      power_outcome PowerState.power_on answers.context_done (Fault.plain ∷ []) answers.check
        answers.checks
  verify_postcondition Command.power_off_command answers =
      power_outcome PowerState.power_off answers.context_done (Fault.plain ∷ []) answers.check
        answers.checks
