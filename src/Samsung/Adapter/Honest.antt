-- ===== src/Samsung/Adapter/Honest.antt =====
-- What a receipt of `Apply` says is what the TV showed.

use frame_tv_art_manager.Samsung.Adapter.Facts.{and_parts3}
use frame_tv_art_manager.Samsung.Adapter.Guard.{is_power}
use frame_tv_art_manager.Prelude.Sort.{sort_func}
use frame_tv_art_manager.Prelude.Int.{ℤ-discrete, ℤ}
use frame_tv_art_manager.Samsung.Errors.{Fault, unreachable_error, refused, answer, Reply, Failure}
use frame_tv_art_manager.Samsung.Device.{
  validate_frame_tv_device, read_power_state, OperationalState, DeviceInfo,
}
use frame_tv_art_manager.Samsung.Adapter.Verify.{
  power_if_valid, ApplyAnswers, verify_postcondition, power_by_state, member_verdict,
  power_by_device, power_outcome, desired_power_observed, verify_membership, value_of, proves,
  selected, poll_end, slideshow_outcome, setting_outcome, poll_postcondition, Verdict, Check,
}
use frame_tv_art_manager.Samsung.Types.{
  SlideshowSetting-discrete, Outcome, SlideshowSetting, Command, PowerState,
}
use frame_tv_art_manager.Prelude.{
  not, if◌then◌else◌, Bool, holds-true, ap, inr, text_compare, ◌=ₜ◌, holds, if_cases, Text-discrete,
  trim_space, inl, ◌≢◌, contains, ℕ, ◌≡◌, List, Text, Option, refl, true, false, none, some, [],
  ◌∷◌,
}
use frame_tv_art_manager.Samsung.Adapter.Shown.{Lists, Powered, Shows, Some, IsSound}

false-ne-true : false ≢ true
false-ne-true p = cc

unknown-IsSound :
    (P : Type 0) (e : Option Failure) (f : Option (List ℕ))
    → IsSound P (record { outcome = Outcome.outcome_unknown; error = e; fingerprint = f })
unknown-IsSound P e f = record { shown = λ p. absurd cc; attempted = λ p. cc }

not_applied-IsSound :
    (P : Type 0) (e : Option Failure) (f : Option (List ℕ))
    → IsSound P (record { outcome = Outcome.not_applied; error = e; fingerprint = f })
not_applied-IsSound P e f = record { shown = λ p. absurd cc; attempted = λ p. cc }

applied-IsSound :
    (P : Type 0) (f : Option (List ℕ))
    → P
    → IsSound P (record { outcome = Outcome.applied; error = none; fingerprint = f })
applied-IsSound P f p = record { shown = λ q. (refl, p); attempted = λ q. cc }

weaken : (P Q : Type 0) (v : Verdict) → (P → Q) → IsSound P v → IsSound Q v
weaken P Q v f s = record { shown = λ p. ((s.shown p).0, f (s.shown p).1); attempted = s.attempted }

poll-IsSound :
    (P : Check → Type 0) (check : Check → Verdict) (over : Option Failure)
    → ((c : Check) → IsSound (P c) (check c))
    → (first : Check) (rest : List Check)
    → IsSound (Some P (first ∷ rest)) (poll_postcondition check over first rest)
unfolding poll_postcondition
poll-IsSound P check over s first [] =
    if_cases (IsSound (Some P (first ∷ []))) (proves (check first)) _ _
      (λ p. weaken (P first) _ _ inl (s first)) (λ p. ended over)
  where
    ended : (over : Option Failure) → IsSound (Some P (first ∷ [])) (poll_end over (check first))
    ended none = weaken (P first) _ _ inl (s first)
    ended (some e) = unknown-IsSound _ _ _
poll-IsSound P check over s first (next ∷ rest) =
    if_cases (IsSound (Some P (first ∷ next ∷ rest))) (proves (check first)) _ _
      (λ p. weaken (P first) _ _ inl (s first))
      (λ p. weaken (Some P (next ∷ rest)) _ _ inr (poll-IsSound P check over s next rest))

setting-IsSound :
    (previous desired : ℤ) (r : Reply ℤ)
    → IsSound (r ≡ answer desired) (setting_outcome previous desired r)
unfolding setting_outcome
setting-IsSound previous desired (refused e) = unknown-IsSound _ _ _
setting-IsSound previous desired (answer actual) =
    if_cases (IsSound (answer actual ≡ answer desired)) (holds (ℤ-discrete actual desired)) _ _
      (λ p. applied-IsSound _ _ (ap answer (holds-true _ p)))
      (λ p.
        if_cases (IsSound (answer actual ≡ answer desired)) (holds (ℤ-discrete actual previous)) _ _
          (λ q. not_applied-IsSound _ _ _) (λ q. unknown-IsSound _ _ _))

slideshow-IsSound :
    (previous desired : SlideshowSetting) (r : Reply SlideshowSetting)
    → IsSound (r ≡ answer desired) (slideshow_outcome previous desired r)
unfolding slideshow_outcome
slideshow-IsSound previous desired (refused e) = unknown-IsSound _ _ _
slideshow-IsSound previous desired (answer actual) =
    if_cases (IsSound (answer actual ≡ answer desired))
      (holds (SlideshowSetting-discrete actual desired)) _ _
      (λ p. applied-IsSound _ _ (ap answer (holds-true _ p)))
      (λ p.
        if_cases (IsSound (answer actual ≡ answer desired))
          (holds (SlideshowSetting-discrete actual previous)) _ _ (λ q. not_applied-IsSound _ _ _)
          (λ q. unknown-IsSound _ _ _))

selected-IsSound :
    (id : Text) (r : Reply Text) → IsSound (r ≡ answer (trim_space id)) (selected id r)
selected-IsSound id (refused e) = unknown-IsSound _ _ _
selected-IsSound id (answer current) =
    if_cases (IsSound (answer current ≡ answer (trim_space id))) (current =ₜ trim_space id) _ _
      (λ p. applied-IsSound _ _ (ap answer (holds-true _ p))) (λ p. not_applied-IsSound _ _ _)

member-IsSound :
    (fingerprint : List Text → List ℕ) (id : Text) (present : Bool) (c : Check)
    → IsSound (Lists id present c) (verify_membership fingerprint id present c)
unfolding verify_membership
member-IsSound fingerprint id present c = member c.inventory refl
  where
    judged :
        (found present : Bool) (fingerprint : Option (List ℕ)) (P : Type 0)
        → (found ≡ present → P)
        → IsSound P (
            if (if found then present else not present)
            then record { outcome = Outcome.applied; error = none; fingerprint = fingerprint }
            else record {
              outcome = Outcome.not_applied;
              error = some (Fault.plain ∷ []);
              fingerprint = fingerprint;
            })
    judged true true f P k = applied-IsSound P f (k refl)
    judged true false f P k = not_applied-IsSound P _ f
    judged false true f P k = not_applied-IsSound P _ f
    judged false false f P k = applied-IsSound P f (k refl)

    member :
        (r : Reply (List Text))
        → c.inventory ≡ r
        → IsSound (Lists id present c) (member_verdict fingerprint id present r c.observed_at)
    member (refused e) p = unknown-IsSound _ _ _
    member (answer content) p =
        judged (contains Text-discrete (sort_func text_compare content) (trim_space id)) present _ _
          (λ f. (content, p, f))

power_state_of :
    (desired : PowerState) (r : Reply OperationalState)
    → (power_by_state desired r).0 ≡ true
    → (state : OperationalState) × (r ≡ answer state) × (state.power ≡ desired)
unfolding power_by_state
power_state_of desired (refused e) p = absurd (false-ne-true p)
power_state_of desired (answer state) p = (state, refl, holds-true _ p)

power-Powered :
    (desired : PowerState) (c : Check)
    → (desired_power_observed desired c).0 ≡ true
    → Powered desired c
unfolding desired_power_observed power_by_device
power-Powered desired c p = device c.device refl p
  where
    valid :
        (info : DeviceInfo) (v : Option Failure)
        → c.device ≡ answer info
        → (power_if_valid desired c info v).0 ≡ true
        → Powered desired c
    valid info (some e) q h = absurd (false-ne-true h)
    valid info none q h =
        let state = power_state_of desired (read_power_state info c.channel) h in
        inl (info, state.0, q, state.1, state.2)

    device :
        (r : Reply DeviceInfo)
        → c.device ≡ r
        → (power_by_device desired c r).0 ≡ true
        → Powered desired c
    device (refused e) q h =
        let parts =
          and_parts3 (is_power desired PowerState.power_off) (unreachable_error e) c.live h in
        inr (holds-true _ parts.0, e, q, parts.1, parts.2)
    device (answer info) q h = valid info (validate_frame_tv_device info) q h

power-IsSound :
    (desired : PowerState) (over : Option Failure) (first : Check) (rest : List Check)
    (last : Failure)
    → IsSound (Some (Powered desired) (first ∷ rest)) (power_outcome desired over last first rest)
unfolding power_outcome
power-IsSound desired over first [] last =
    if_cases (IsSound (Some (Powered desired) (first ∷ [])))
      (desired_power_observed desired first).0 _ _
      (λ p. applied-IsSound _ _ (inl (power-Powered desired first p))) (λ p. unknown-IsSound _ _ _)
power-IsSound desired over first (next ∷ rest) last =
    if_cases (IsSound (Some (Powered desired) (first ∷ next ∷ rest)))
      (desired_power_observed desired first).0 _ _
      (λ p. applied-IsSound _ _ (inl (power-Powered desired first p)))
      (λ p.
        weaken (Some (Powered desired) (next ∷ rest)) _ _ inr
          (power-IsSound desired over next rest _))

pub verify-IsSound :
    (fingerprint : List Text → List ℕ) (command : Command) (answers : ApplyAnswers)
    → IsSound
        (Some (Shows command answers.content_id) (answers.check ∷ answers.checks))
        (verify_postcondition fingerprint command answers)
unfolding verify_postcondition
verify-IsSound fingerprint (Command.upload path name type matte portrait digest size) answers =
    weaken _ _ _ inl (member-IsSound fingerprint answers.content_id true answers.check)
verify-IsSound fingerprint (Command.delete id) answers =
    poll-IsSound (Lists id false) _ answers.context_done (member-IsSound fingerprint id false)
      answers.check answers.checks
verify-IsSound fingerprint (Command.select id) answers =
    poll-IsSound _ _ answers.context_done (λ c. selected-IsSound id c.artwork) answers.check
      answers.checks
verify-IsSound fingerprint (Command.configure_slideshow previous desired) answers =
    weaken _ _ _ inl (slideshow-IsSound previous desired answers.check.slideshow)
verify-IsSound fingerprint (Command.configure_brightness previous value) answers =
    weaken _ _ _ inl (setting-IsSound previous value (value_of answers.check.brightness))
verify-IsSound fingerprint Command.wake answers =
    power-IsSound PowerState.power_on answers.context_done answers.check answers.checks
      (Fault.plain ∷ [])
verify-IsSound fingerprint Command.power_off_command answers =
    power-IsSound PowerState.power_off answers.context_done answers.check answers.checks
      (Fault.plain ∷ [])
