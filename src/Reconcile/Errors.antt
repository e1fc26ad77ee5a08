-- ===== src/Reconcile/Errors.antt =====
-- The errors that reconciliation tells apart (internal/reconcile/types.go, pacing.go, commands.go).
-- An error is the list of the causes that `errors.Is` and `errors.As` find in its tree: `errors.Join`
-- and wrapping join lists. Messages are not modelled.
use frame_tv_art_manager.Prelude.{
  ◌≢◌, Bool, true, false, List, [], ◌∷◌, contains, if◌then◌else◌, holds, ◌&&◌, Option, some, none,
}
use frame_tv_art_manager.Samsung.Types.{Outcome, Outcome-discrete, Receipt}
use frame_tv_art_manager.Reconcile.Types.{Status}

pub data Cause : Type 0 where
  persistence_unknown recovery_required unsupported_intent storage_full : Cause
  -- `mutationRetryError` and `storageFullRejectionError`.
  mutation_retry storage_full_rejection : Cause
  -- `samsung.Error`, with its `Retryable` and `Outcome`.
  protocol : Bool → Outcome → Cause
  -- Any other error.
  plain : Cause

unfoldable pub Cause-discrete : Discrete Cause
unfolding Outcome-discrete
Cause-discrete = hlevel Outcome-discrete

abbrev pub Err : Type 0
Err = List Cause

pub data Result {ℓ} (A : Type ℓ) : Type ℓ where
  ok : A → Result A
  err : Err → Result A

infixl 5 ◌>>=◌
abbrev pub ◌>>=◌ {ℓ κ} : {A : Type ℓ} {B : Type κ} → Result A → (A → Result B) → Result B
ok a >>= f = f a
err e >>= f = err e

pub err-ne-ok {ℓ} : {A : Type ℓ} (e : Err) (a : A) → err e ≢ ok a
err-ne-ok e a q = cc

-- Go's `if x, err := …` over a check that gives a value or a plain error.
abbrev pub or_plain {ℓ} : {A : Type ℓ} → Option A → Result A
or_plain none = err (Cause.plain ∷ [])
or_plain (some a) = ok a

-- `errors.Is`.
unfoldable pub error_is : Err → Cause → Bool
unfolding Cause-discrete contains
error_is e cause = contains Cause-discrete e cause

-- `statusForError`.
unfoldable pub status_for_error : Err → Status
unfolding error_is
status_for_error e =
    if error_is e Cause.persistence_unknown
    then Status.persistence_unknown
    else if error_is e Cause.recovery_required
    then Status.recovery_required
    else if error_is e Cause.unsupported_intent
    then Status.unsupported
    else if error_is e Cause.storage_full
    then Status.storage_full
    else Status.not_applied

abbrev is_retryable : Cause → Bool
is_retryable (Cause.protocol retryable outcome) =
    retryable && holds (Outcome-discrete outcome Outcome.not_attempted)
is_retryable _ = false

abbrev is_protocol : Cause → Bool
is_protocol (Cause.protocol retryable outcome) = true
is_protocol _ = false

-- `errors.As` finds the first protocol error in the tree.
unfoldable pub first_protocol_retryable : Err → Bool
first_protocol_retryable [] = false
first_protocol_retryable (c ∷ rest) =
    if is_protocol c then is_retryable c else first_protocol_retryable rest

-- `safeToRetryMutation`, for an error that is there.
unfoldable pub safe_to_retry_mutation : Receipt → Err → Bool
unfolding first_protocol_retryable
safe_to_retry_mutation receipt e =
    holds (Outcome-discrete receipt.outcome Outcome.not_attempted) && first_protocol_retryable e
