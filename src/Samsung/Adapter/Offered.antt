-- ===== src/Samsung/Adapter/Offered.antt =====
-- An authorization that matches the adapter authorizes its command.
use frame_tv_art_manager.Samsung.Adapter.Facts.{true-ne-false}
use frame_tv_art_manager.Samsung.Errors.{because, command_error, Sentinel}
use frame_tv_art_manager.Samsung.Adapter.Offers.{IsOffer}
use frame_tv_art_manager.Samsung.Types.{Outcome, Command}
use frame_tv_art_manager.Samsung.Adapter.Observe.{Observed, ObserveRequest}
use frame_tv_art_manager.Samsung.Adapter.{
  unsupported_error, is_issuer, is_authorized, authorize_command, command_capability, Config,
}
use frame_tv_art_manager.Prelude.{
  and_true, subst, if◌then◌else◌, Bool, Text-discrete, holds_of, ==_iff, ◌∙◌, sym, ap, bit_and, not,
  ◌==◌, ◌=ₜ◌, ◌≡◌, Option, ℕ, Text, refl, true, false, none, some,
}

capability_given : (command : Command) → not (command_capability command == 0) ≡ true
unfolding command_capability
capability_given (Command.upload path name type matte portrait digest size) = refl
capability_given (Command.delete id) = refl
capability_given (Command.select id) = refl
capability_given (Command.configure_slideshow previous desired) = refl
capability_given (Command.configure_brightness previous value) = refl
capability_given Command.wake = refl
capability_given Command.power_off_command = refl

same_text : (s t : Text) → s ≡ t → (s =ₜ t) ≡ true
same_text s t p = holds_of (Text-discrete s t) p

-- `authorizeCommand` takes an authorization that matches the adapter.
pub offer-authorizes :
    (config : Config) (request : ObserveRequest) (r : Observed) (command : Command)
    → IsOffer config request r
    → request.dry_run ≡ false
    → config.mutable ≡ true
    → bit_and request.required (command_capability command) ≡ command_capability command
    → authorize_command config r.adapter none r.authorization command ≡ none
unfolding authorize_command is_authorized is_issuer
offer-authorizes config request r command o d m c = passes _ config.mutable matches m
  where
    passes :
        (b m : Bool)
        → b ≡ true
        → m ≡ true
        → (if b
            then (if m then none else some unsupported_error)
            else some (command_error Outcome.not_attempted (because Sentinel.not_authorized)))
          ≡ none
    passes true true p q = refl
    passes true false p q = absurd (true-ne-false (sym q))
    passes false m p q = absurd (true-ne-false (sym p))

    own : is_issuer config r.authorization.issuer ≡ true
    own =
        subst (λ (i : Option ℕ). is_issuer config i ≡ true) (sym o.issuer)
          ((==_iff config.identity config.identity).1 refl)

    matches : is_authorized config r.adapter r.authorization command ≡ true
    matches =
        and_true _ _
          (and_true _ _
            (and_true _ _
              (and_true _ _
                (and_true _ _
                  (and_true _ _
                    (and_true _ _
                      (and_true (is_issuer config r.authorization.issuer) (not r.adapter.closed) own
                        (ap not o.unclosed))
                      (ap not (o.dry_run ∙ d)))
                    (capability_given command))
                  ((==_iff _ _).1 (
                    ap (λ required. bit_and required (command_capability command)) o.required ∙ c)))
                ((==_iff _ _).1 o.generation))
              (same_text _ _ o.cycle))
            (same_text _ _ o.collection))
          (same_text _ _ o.inventory)
