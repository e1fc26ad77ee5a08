-- ===== src/Samsung/Adapter/Outcomes.antt =====
-- What an error of `Apply` says of the outcome.
use frame_tv_art_manager.Samsung.Adapter.Facts.{refused-ne-answer}
use frame_tv_art_manager.Samsung.Adapter.{unsupported_error}
use frame_tv_art_manager.Samsung.Adapter.Prepare.{
  with_upload, open_verified_upload, plainly, validate_upload_metadata, PreparedUpload, Prepared,
  FileFacts, prepare_command,
}
use frame_tv_art_manager.Samsung.Adapter.Apply.{
  outcome_of, write_failure_as, from_classified, write_failure,
}
use frame_tv_art_manager.Samsung.Types.{Command, Outcome-discrete, Outcome}
use frame_tv_art_manager.Samsung.Errors.{
  refused, ◌>>=◌, answer, Reply, Sentinel, fault_is, Fault, Classified, Failure, as_classified,
  mutation_failure_outcome, command_error, command_class,
}
use frame_tv_art_manager.Prelude.{
  Bool, Text, List, ne_of_false, ap, not, ◌||◌, holds, ◌∙◌, sym, if_cases, ◌≢◌, ◌≡◌, Option, refl,
  true, false, none, some, [], ◌∷◌,
}

command_outcome : (o : Outcome) (e : Failure) → (command_class o e).outcome ≡ o
unfolding command_class
command_outcome Outcome.outcome_unknown e = refl
command_outcome Outcome.not_applied e = refl
command_outcome Outcome.not_attempted e =
    if_cases (λ (c : Classified). c.outcome ≡ Outcome.not_attempted)
      (fault_is e Sentinel.canceled || fault_is e Sentinel.deadline_exceeded) _ _ (λ p. refl)
      (λ p.
        if_cases (λ (c : Classified). c.outcome ≡ Outcome.not_attempted)
          (not (fault_is e Sentinel.not_authorized)) _ _ (λ q. refl) (λ q. refl))
command_outcome Outcome.applied e = refl
command_outcome (Outcome.invalid_outcome n) e = refl

-- The outcome that `finishCommand` reports with an error.
abbrev pub reported : Outcome → Failure → Outcome
reported outcome e = outcome_of outcome (as_classified e)

pub error_outcome :
    (o outcome : Outcome) (e : Failure) → reported o (command_error outcome e) ≡ outcome
unfolding command_error as_classified
error_outcome o outcome e = command_outcome outcome e

write_outcome :
    (e : Failure)
    → (mutation_failure_outcome e ≢ Outcome.applied)
      × (mutation_failure_outcome e ≢ Outcome.not_attempted)
unfolding mutation_failure_outcome
write_outcome e =
    if_cases (λ (o : Outcome). (o ≢ Outcome.applied) × (o ≢ Outcome.not_attempted))
      (fault_is e Sentinel.art_api_error || fault_is e Sentinel.storage_full) _ _
      (λ p. ((λ q. cc), (λ q. cc))) (λ p. ((λ q. cc), (λ q. cc)))

as_from : (e : Failure) → as_classified (from_classified e) ≡ as_classified e
unfolding as_classified from_classified
as_from [] = refl
as_from (Fault.classified c ∷ e) = refl
as_from (Fault.sentinel s ∷ e) = as_from e
as_from (Fault.net_error t ∷ e) = as_from e
as_from (Fault.plain ∷ e) = as_from e

-- The transport itself said that it had not attempted the write.
abbrev pub IsUntried : Option Failure → Type 0
IsUntried none = ⊥
IsUntried (some e) =
    (c : Classified) × (as_classified e ≡ some c) × (c.outcome ≡ Outcome.not_attempted)

pub failed_outcome :
    (e : Failure)
    → (reported Outcome.not_attempted (write_failure e) ≢ Outcome.applied)
      × (reported Outcome.not_attempted (write_failure e) ≡ Outcome.not_attempted
          → IsUntried (some e))
unfolding write_failure write_failure_as
failed_outcome e = by_class (as_classified e) refl
  where
    unclassified :
        (reported Outcome.not_attempted (command_error (mutation_failure_outcome e) e)
          ≢ Outcome.applied)
        × (reported Outcome.not_attempted (command_error (mutation_failure_outcome e) e)
              ≡ Outcome.not_attempted
            → IsUntried (some e))
    unclassified =
        let same = error_outcome Outcome.not_attempted (mutation_failure_outcome e) e in
        (
          (λ p. (write_outcome e).0 (sym same ∙ p)),
          (λ p. absurd ((write_outcome e).1 (sym same ∙ p))),
        )

    by_class :
        (r : Option Classified)
        → as_classified e ≡ r
        → (reported Outcome.not_attempted (write_failure_as r e) ≢ Outcome.applied)
          × (reported Outcome.not_attempted (write_failure_as r e) ≡ Outcome.not_attempted
              → IsUntried (some e))
    by_class none q = unclassified
    by_class (some c) q =
        if_cases
          (λ (f : Failure).
            (reported Outcome.not_attempted f ≢ Outcome.applied)
            × (reported Outcome.not_attempted f ≡ Outcome.not_attempted → IsUntried (some e)))
          (holds (Outcome-discrete c.outcome Outcome.applied)) _ _ (λ p. unclassified)
          (λ p.
            let same : reported Outcome.not_attempted (from_classified e) ≡ c.outcome =
              ap (outcome_of Outcome.not_attempted) (as_from e ∙ q) in
            (
              (λ h. ne_of_false (Outcome-discrete c.outcome Outcome.applied) p (sym same ∙ h)),
              (λ h. (c, q, sym same ∙ h)),
            ))

plainly_command :
    (command : Command) (valid : Bool) (prepared : Prepared)
    → plainly command valid ≡ answer prepared
    → prepared.command ≡ command
plainly_command command true prepared p = cc
plainly_command command false prepared p = absurd (refused-ne-answer _ _ p)

upload_command :
    (command : Command) (checked : Reply (Text × Text))
    (reading : Text × Text → Reply PreparedUpload) (prepared : Prepared)
    → (checked >>= λ c. reading c >>= with_upload command) ≡ answer prepared
    → prepared.command ≡ command
upload_command command (refused e) reading prepared p = absurd (refused-ne-answer _ _ p)
upload_command command (answer c) reading prepared p = opened (reading c) p
  where
    opened :
        (r : Reply PreparedUpload)
        → (r >>= with_upload command) ≡ answer prepared
        → prepared.command ≡ command
    opened (refused e) q = absurd (refused-ne-answer _ _ q)
    opened (answer u) q = cc

pub prepared_command :
    (lower : Text → Text) (file : Reply FileFacts) (command : Command) (prepared : Prepared)
    → prepare_command lower file command ≡ answer prepared
    → prepared.command ≡ command
unfolding prepare_command
prepared_command lower file (Command.upload path name type matte portrait digest size) prepared p =
    upload_command _ (validate_upload_metadata lower path name type matte portrait digest size)
      (open_verified_upload file portrait digest size) prepared p
prepared_command lower file (Command.delete id) prepared p = plainly_command _ _ prepared p
prepared_command lower file (Command.select id) prepared p = plainly_command _ _ prepared p
prepared_command lower file (Command.configure_slideshow previous desired) prepared p =
    plainly_command _ _ prepared p
prepared_command lower file (Command.configure_brightness previous value) prepared p =
    plainly_command _ _ prepared p
prepared_command lower file Command.wake prepared p = plainly_command _ true prepared p
prepared_command lower file Command.power_off_command prepared p = plainly_command _ true prepared p

pub some-eq : {a b : Failure} → some a ≡ some b → a ≡ b
some-eq p = cc

pub unsupported_outcome : reported Outcome.not_attempted unsupported_error ≡ Outcome.not_attempted
unfolding as_classified
unsupported_outcome = refl

pub attempted-ne : Outcome.not_attempted ≢ Outcome.applied
attempted-ne p = cc

pub cons-ne-nil : {A : Type 0} {a : A} {l : List A} → (a ∷ l) ≢ []
cons-ne-nil p = cc
