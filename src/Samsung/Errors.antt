-- ===== src/Samsung/Errors.antt =====
-- The failures that the adapter tells apart (internal/samsung/errors.go, and `unreachableError`,
-- `classifyObservationError`, `commandError` and `mutationFailureOutcome`). A failure is the list of
-- what `errors.Is` and `errors.As` find in its tree, the outermost first; messages, request IDs and
-- codes are dropped.
use frame_tv_art_manager.Prelude.{
  ℕ_discrete, ℕ, Bool, true, false, not, ◌||◌, if◌then◌else◌, holds, List, [], ◌∷◌, Option, none,
  some,
}
use frame_tv_art_manager.Samsung.Types.{Outcome}

pub data ErrorKind : Type 0 where
  none_kind canceled backoff unreachable timeout unauthorized protocol unsupported : ErrorKind
  invalid_response storage_full not_authorized persistence outcome_unknown : ErrorKind
  unnamed_kind : ℕ → ErrorKind

-- `samsung.Error` without its cause.
pub record Classified : Type 0 where
  pub kind : ErrorKind
  pub retryable : Bool
  pub outcome : Outcome
  pub retry_at : ℕ
  pub consecutive_failures : ℕ

-- The errors with a name: the package's, and those of context, io and syscall that it asks for.
pub data Sentinel : Type 0 where
  unauthorized timeout not_connected gate_failed connection_failure art_api_error : Sentinel
  storage_full not_authorized canceled deadline_exceeded eof connection_reset op_error : Sentinel

pub data Fault : Type 0 where
  sentinel : Sentinel → Fault
  -- A `net.Error` of another type, with its `Timeout`.
  net_error : Bool → Fault
  classified : Classified → Fault
  plain : Fault

abbrev pub Failure : Type 0
Failure = List Fault

-- What a call returns.
pub data Reply {ℓ} (A : Type ℓ) : Type ℓ where
  answer : A → Reply A
  refused : Failure → Reply A

infixl 5 ◌>>=◌
abbrev pub ◌>>=◌ {ℓ κ} : {A : Type ℓ} {B : Type κ} → Reply A → (A → Reply B) → Reply B
answer a >>= f = f a
refused e >>= f = refused e

abbrev pub because : Sentinel → Failure
because s = Fault.sentinel s ∷ []

unfoldable pub Sentinel-discrete : Discrete Sentinel
Sentinel-discrete = hlevel

-- `errors.Is`.
unfoldable pub fault_is : Failure → Sentinel → Bool
unfolding Sentinel-discrete
fault_is [] s = false
fault_is (Fault.sentinel t ∷ rest) s = holds (Sentinel-discrete t s) || fault_is rest s
fault_is (_ ∷ rest) s = fault_is rest s

-- `errors.As` for a `*samsung.Error`.
unfoldable pub as_classified : Failure → Option Classified
as_classified [] = none
as_classified (Fault.classified c ∷ rest) = some c
as_classified (_ ∷ rest) = as_classified rest

-- `errors.As` for a `net.Error`, and its `Timeout`: a passed deadline is one, and an error number of
-- the system too.
unfoldable pub net_timeout : Failure → Bool
net_timeout [] = false
net_timeout (Fault.net_error timed_out ∷ rest) = timed_out
net_timeout (Fault.sentinel Sentinel.deadline_exceeded ∷ rest) = true
net_timeout (Fault.sentinel Sentinel.connection_reset ∷ rest) = false
net_timeout (_ ∷ rest) = net_timeout rest

-- `unreachableError`: the TV did not answer at all.
unfoldable pub unreachable_error : Failure → Bool
unfolding fault_is net_timeout
unreachable_error e =
    if fault_is e Sentinel.canceled
    then false
    else if fault_is e Sentinel.op_error
    then true
    else if net_timeout e
    then true
    else fault_is e Sentinel.eof || fault_is e Sentinel.connection_reset

abbrev unattempted : ErrorKind → Bool → Classified
unattempted kind retryable = record {
  kind = kind;
  retryable = retryable;
  outcome = Outcome.not_attempted;
  retry_at = 0;
  consecutive_failures = 0;
}

abbrev is_canceled : Failure → Bool
is_canceled e = fault_is e Sentinel.canceled || fault_is e Sentinel.deadline_exceeded

-- The switch of `classifyObservationError`.
unfoldable pub observation_class : Failure → Classified
unfolding fault_is
observation_class e =
    if is_canceled e
    then unattempted ErrorKind.canceled false
    else if fault_is e Sentinel.unauthorized
    then unattempted ErrorKind.unauthorized false
    else if fault_is e Sentinel.timeout
    then unattempted ErrorKind.timeout true
    else if fault_is e Sentinel.connection_failure || fault_is e Sentinel.not_connected
    then unattempted ErrorKind.unreachable true
    else unattempted ErrorKind.invalid_response true

unfoldable pub classified_as : Option Classified → Failure → Classified
unfolding observation_class
classified_as none e = observation_class e
classified_as (some c) e = unattempted c.kind c.retryable

-- `classifyObservationError`.
unfoldable pub classify_observation_error : Failure → Classified
unfolding classified_as as_classified
classify_observation_error e = classified_as (as_classified e) e

abbrev class_of : ErrorKind → Bool → Outcome → Classified
class_of kind retryable outcome = record {
  kind = kind;
  retryable = retryable;
  outcome = outcome;
  retry_at = 0;
  consecutive_failures = 0;
}

-- The switch of `commandError`.
unfoldable pub command_class : Outcome → Failure → Classified
unfolding fault_is
command_class Outcome.outcome_unknown e =
    class_of ErrorKind.outcome_unknown false Outcome.outcome_unknown
command_class Outcome.not_applied e =
    class_of
      (if fault_is e Sentinel.storage_full then ErrorKind.storage_full else ErrorKind.protocol)
      false Outcome.not_applied
command_class Outcome.not_attempted e =
    if is_canceled e
    then class_of ErrorKind.canceled false Outcome.not_attempted
    else if not (fault_is e Sentinel.not_authorized)
    then class_of ErrorKind.invalid_response true Outcome.not_attempted
    else class_of ErrorKind.not_authorized false Outcome.not_attempted
command_class Outcome.applied e = class_of ErrorKind.none_kind false Outcome.applied
command_class (Outcome.invalid_outcome n) e =
    class_of ErrorKind.not_authorized false (Outcome.invalid_outcome n)

-- `commandError`.
unfoldable pub command_error : Outcome → Failure → Failure
unfolding command_class
command_error outcome e = Fault.classified (command_class outcome e) ∷ e

-- `mutationFailureOutcome`.
unfoldable pub mutation_failure_outcome : Failure → Outcome
unfolding fault_is
mutation_failure_outcome e =
    if fault_is e Sentinel.art_api_error || fault_is e Sentinel.storage_full
    then Outcome.not_applied
    else Outcome.outcome_unknown

unfoldable pub ErrorKind-discrete : Discrete ErrorKind
ErrorKind-discrete = hlevel ℕ_discrete
