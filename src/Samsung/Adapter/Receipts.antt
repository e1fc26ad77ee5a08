-- ===== src/Samsung/Adapter/Receipts.antt =====
-- The receipts of `Apply`.
use frame_tv_art_manager.Samsung.Adapter.Guard.{fresh_command_guard}
use frame_tv_art_manager.Samsung.Adapter.Facts.{some-ne-none}
use frame_tv_art_manager.Samsung.Adapter.Honest.{verify-IsSound}
use frame_tv_art_manager.Samsung.Adapter.Shown.{IsSound, Shows, Some}
use frame_tv_art_manager.Samsung.Adapter.Verify.{verify_postcondition, Sent, ApplyAnswers}
use frame_tv_art_manager.Samsung.Adapter.{
  is_authorized, Authorization, authorize_command, unsupported_error, Adapter, Config,
}
use frame_tv_art_manager.Samsung.Adapter.Prepare.{Prepared, prepare_command}
use frame_tv_art_manager.Samsung.Adapter.Apply.{
  mutation_of, apply_authorized, apply_guarded, apply, apply_prepared, apply_live, verify_error,
  receipt_of, seen_in, unattempted, apply_sent, finish_command, Applied,
}
use frame_tv_art_manager.Samsung.Types.{Inventory, Command, Outcome}
use frame_tv_art_manager.Samsung.Errors.{
  because, refused, answer, Reply, Sentinel, Failure, command_error,
}
use frame_tv_art_manager.Prelude.{
  if◌then◌else◌, Bool, subst, inr, inl, ◌⊎◌, ℕ, Text, List, ◌∙◌, sym, ◌≢◌, ◌≡◌, Option, refl, true,
  false, none, some, [], ◌∷◌,
}
use frame_tv_art_manager.Samsung.Adapter.Outcomes.{
  reported, error_outcome, IsUntried, failed_outcome, prepared_command, some-eq,
  unsupported_outcome, attempted-ne, cons-ne-nil,
}

module _ (lower : Text → Text) (fingerprint : List Text → List ℕ) (config : Config)
    (answers : ApplyAnswers) (command : Command) where
  -- What a receipt says: applied, and a read after the write showed it; not attempted, and nothing
  -- was sent, or the transport said so; and where nothing was sent, there is an error.
  pub record IsHonest (r : Applied) : Type 0 where
    pub applied :
        r.receipt.outcome ≡ Outcome.applied
        → (r.error ≡ none)
          × Some (Shows command answers.content_id) (answers.check ∷ answers.checks)
    pub not_attempted :
        r.receipt.outcome ≡ Outcome.not_attempted → (r.sent ≡ []) ⊎ IsUntried answers.write_error
    pub unsent : r.sent ≡ [] → (r.receipt.outcome ≡ Outcome.not_attempted) × (r.error ≢ none)

  unattempted-IsHonest :
      (a : Adapter) (e : Failure)
      → reported Outcome.not_attempted e ≡ Outcome.not_attempted
      → IsHonest (unattempted lower fingerprint config answers a e)
  unfolding finish_command
  unattempted-IsHonest a e p = record {
    applied = λ q. absurd (attempted-ne (sym p ∙ q));
    not_attempted = λ q. inl refl;
    unsent = λ q. (p, some-ne-none _);
  }

  sent-IsHonest :
      (a : Adapter) (sent : Sent) (e : Option Failure)
      → answers.write_error ≡ e
      → IsHonest (apply_sent lower fingerprint config answers a command sent e)
  unfolding apply_sent finish_command
  sent-IsHonest a sent (some e) p = record {
    applied = λ q. absurd ((failed_outcome e).0 q);
    not_attempted = λ q. inr (subst IsUntried (sym p) ((failed_outcome e).1 q));
    unsent = λ q. absurd (cons-ne-nil q);
  }
  sent-IsHonest a sent none p =
      let v = verify_postcondition fingerprint command answers in
      verified v.outcome v.fingerprint v.error (verify-IsSound fingerprint command answers)
    where
      verified :
          (outcome : Outcome) (f : Option (List ℕ)) (error : Option Failure)
          → IsSound
              (Some (Shows command answers.content_id) (answers.check ∷ answers.checks))
              (record { outcome = outcome; error = error; fingerprint = f })
          → IsHonest (
              finish_command
                (seen_in f a)
                (sent ∷ [])
                (receipt_of answers.command_id outcome answers.content_id)
                answers.completed_at
                (verify_error outcome error))
      verified outcome f none s = record {
        applied = λ q. (refl, (s.shown q).1);
        not_attempted = λ q. absurd (s.attempted q);
        unsent = λ q. absurd (cons-ne-nil q);
      }
      verified outcome f (some e) s =
          let same = error_outcome outcome outcome e in
          record {
            applied = λ q. absurd (some-ne-none _ (s.shown (sym same ∙ q)).0);
            not_attempted = λ q. absurd (s.attempted (sym same ∙ q));
            unsent = λ q. absurd (cons-ne-nil q);
          }

  live-IsHonest :
      (a : Adapter) (prepared : Prepared) (inventory : Inventory)
      → prepared.command ≡ command
      → (late : Option Failure)
      → IsHonest (apply_live lower fingerprint config answers a prepared inventory late)
  unfolding apply_live
  live-IsHonest a prepared inventory p (some e) =
      unattempted-IsHonest a _ (error_outcome Outcome.not_attempted Outcome.not_attempted e)
  live-IsHonest a prepared inventory p none =
      subst
        (λ (c : Command). IsHonest (
          apply_sent lower fingerprint config answers a c
            (mutation_of prepared inventory answers.reads) answers.write_error))
        (sym p)
        (sent-IsHonest a (mutation_of prepared inventory answers.reads) answers.write_error refl)

  prepared-IsHonest :
      (a : Adapter) (authorization : Authorization) (r : Reply Prepared)
      → prepare_command lower answers.file command ≡ r
      → IsHonest (apply_prepared lower fingerprint config answers a authorization r)
  unfolding apply_prepared apply_guarded
  prepared-IsHonest a authorization (refused e) p =
      unattempted-IsHonest a _ (error_outcome Outcome.not_attempted Outcome.not_attempted e)
  prepared-IsHonest a authorization (answer prepared) p =
      guarded (fresh_command_guard fingerprint config authorization prepared.command answers.reads)
    where
      guarded :
          (r : Reply Inventory)
          → IsHonest (apply_guarded lower fingerprint config answers a prepared r)
      guarded (refused e) =
          unattempted-IsHonest a _ (error_outcome Outcome.not_attempted Outcome.not_attempted e)
      guarded (answer inventory) =
          live-IsHonest _ prepared inventory
            (prepared_command lower answers.file command prepared p) answers.context_late

  refusal_outcome :
      (a : Adapter) (authorization : Authorization) (context : Option Failure) (e : Failure)
      → authorize_command config a context authorization command ≡ some e
      → reported Outcome.not_attempted e ≡ Outcome.not_attempted
  unfolding authorize_command
  refusal_outcome a authorization (some f) e p =
      subst (λ (g : Failure). reported Outcome.not_attempted g ≡ Outcome.not_attempted) (some-eq p)
        (error_outcome Outcome.not_attempted Outcome.not_attempted f)
  refusal_outcome a authorization none e p =
      by_test (is_authorized config a authorization command) config.mutable p
    where
      by_test :
          (b m : Bool)
          → (if b
              then (if m then none else some unsupported_error)
              else some (command_error Outcome.not_attempted (because Sentinel.not_authorized)))
            ≡ some e
          → reported Outcome.not_attempted e ≡ Outcome.not_attempted
      by_test true true q = absurd (some-ne-none _ (sym q))
      by_test true false q =
          subst (λ (g : Failure). reported Outcome.not_attempted g ≡ Outcome.not_attempted)
            (some-eq q) unsupported_outcome
      by_test false m q =
          subst (λ (g : Failure). reported Outcome.not_attempted g ≡ Outcome.not_attempted)
            (some-eq q)
            (error_outcome Outcome.not_attempted Outcome.not_attempted
              (because Sentinel.not_authorized))

  -- Whatever the TV and the transport answer: a receipt says that a command was applied only when
  -- there was no error and a read of the TV after the write showed what the command was for. It says
  -- that a command was not attempted only when nothing was sent, or the transport itself said so. And
  -- where nothing was sent it says so, with an error.
  pub apply-IsHonest :
      (a : Adapter) (authorization : Authorization)
      → IsHonest (apply lower fingerprint config answers a authorization command)
  unfolding apply apply_authorized
  apply-IsHonest a authorization =
      authorized (authorize_command config a answers.context authorization command) refl
    where
      authorized :
          (r : Option Failure)
          → authorize_command config a answers.context authorization command ≡ r
          → IsHonest (apply_authorized lower fingerprint config answers a authorization command r)
      authorized (some e) p =
          unattempted-IsHonest a e (refusal_outcome a authorization answers.context e p)
      authorized none p =
          prepared-IsHonest _ authorization (prepare_command lower answers.file command) refl
