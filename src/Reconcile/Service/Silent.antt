-- ===== src/Reconcile/Service/Silent.antt =====
-- The parts of a dry run write nothing and send nothing.
use frame_tv_art_manager.Prelude.{
  is_empty, ◌≡◌, refl, ℕ, Bool, true, not, ◌||◌, List, [], ◌++◌, Option, none, some, arith,
  if_cases, holds,
}
use frame_tv_art_manager.Samsung.Types.{Observation}
use frame_tv_art_manager.Collection.Types.{Snapshot}
use frame_tv_art_manager.Reconcile.Types.{
  State, Policy, PowerPolicy, PowerPolicy-discrete, TvIdentity, Hashes, Pending,
}
use frame_tv_art_manager.Reconcile.Errors.{Result, ok, err, Err}
use frame_tv_art_manager.Reconcile.Validate.{is_nil}
use frame_tv_art_manager.Reconcile.Recovery.{resolve_pending}
use frame_tv_art_manager.Reconcile.Recovery.Parked.{parkable_upload, resolve_unresolved_upload}
use frame_tv_art_manager.Reconcile.Execution.{Event, Run, is_none}
use frame_tv_art_manager.Reconcile.Wake.{
  WakeAnswers, WakeRun, scheduled_wake, wake_as, wake_unless_handled, stop, reobserved,
}
use frame_tv_art_manager.Reconcile.Migration.FirstRun.{
  LegacyAnswers, prepare_initial_state, state_for_first_run, mapped_first, bound_first,
  complete_deferred, mapped_late, bound_late,
}
use frame_tv_art_manager.Reconcile.Service.Recover.{
  RecoverAnswers, resolve_with, resolve_recovery, park_upload, settle_with, settle_unresolved,
  after_error, and_then, park_on, resolve_or_park, recover_from, recover,
}
use frame_tv_art_manager.Reconcile.Service.Request.{RunResult, after_events}

-- Nothing is written and nothing is sent.
abbrev pub IsSilent : Run → Type 0
IsSilent r = r.events ≡ []

abbrev pub IsQuiet : RunResult → Type 0
IsQuiet r = (r.events ≡ []) × (r.wake_events ≡ [])

pub joined-IsSilent : (xs ys : List Event) → xs ≡ [] → ys ≡ [] → xs ++ ys ≡ []
joined-IsSilent xs ys p q = rw (p, q) refl

pub after-IsQuiet :
    (events : List Event) (r : RunResult)
    → events ≡ []
    → IsQuiet r
    → IsQuiet (after_events events r)
after-IsQuiet events r p q = (joined-IsSilent events r.events p q.0, q.1)

module _ (o : Observation) (a : RecoverAnswers) where
  resolve-IsSilent :
      (s : State) (answer : Option Err) (x : Result State)
      → IsSilent (resolve_with true o s answer x)
  unfolding resolve_with
  resolve-IsSilent s answer (err e) = refl
  resolve-IsSilent s answer (ok r) = refl

  settle-IsSilent :
      (s : State) (answer : Option Err) (x : Option State)
      → IsSilent (settle_with true o s answer x)
  unfolding settle_with
  settle-IsSilent s answer none = refl
  settle-IsSilent s answer (some r) = refl

  park-IsSilent : (r : Run) (error : Option Err) → IsSilent r → IsSilent (park_on true o a r error)
  unfolding park_on park_upload
  park-IsSilent r none p = p
  park-IsSilent r (some e) p =
      if_cases IsSilent (parkable_upload r.done.state e) _ r (λ _. joined-IsSilent _ _ p refl)
        (λ _. p)

  then-IsSilent :
      (r : Run) (next : State → Run) (error : Option Err)
      → IsSilent r
      → ((s : State) → IsSilent (next s))
      → IsSilent (after_error true o r next error)
  unfolding after_error
  then-IsSilent r next (some e) p f = p
  then-IsSilent r next none p f = joined-IsSilent _ _ p (f r.done.state)

  recover_from-IsSilent :
      (s : State) (pending : Option Pending) → IsSilent (recover_from true o a s pending)
  unfolding recover_from resolve_or_park resolve_recovery and_then settle_unresolved
  recover_from-IsSilent s none = settle-IsSilent s a.settle_error _
  recover_from-IsSilent s (some p) =
      then-IsSilent (resolve_or_park true o a s)
        (λ t. settle_unresolved true o t a.settled_at a.settle_error) _
        (park-IsSilent _ _ (resolve-IsSilent s a.resolve_error (resolve_pending s o a.resolved_at)))
        (λ t. settle-IsSilent t a.settle_error (resolve_unresolved_upload t o a.settled_at))

  pub recover-IsSilent : (s : State) → IsSilent (recover true o a s)
  unfolding recover
  recover-IsSilent s = recover_from-IsSilent s s.pending

module _ (h : Hashes) (snapshot : Snapshot) (o : Observation) (a : LegacyAnswers) where
  bound_first-IsSilent : (s : State) (x : Result _) → IsSilent (bound_first h true snapshot o a s x)
  unfolding bound_first
  bound_first-IsSilent s (err e) = refl
  bound_first-IsSilent s (ok (bindings, ignored)) = refl

  mapped_first-IsSilent :
      (s : State) (x : Result _) → IsSilent (mapped_first h true snapshot o a s x)
  unfolding mapped_first
  mapped_first-IsSilent s (err e) = refl
  mapped_first-IsSilent s (ok none) = refl
  mapped_first-IsSilent s (ok (some mapping)) = bound_first-IsSilent s _

  pub initial-IsSilent :
      (policy : Policy) (configured : Bool) (identity : TvIdentity) (s : Option State)
      → IsSilent (prepare_initial_state h true snapshot o a policy configured identity s)
  unfolding prepare_initial_state state_for_first_run
  initial-IsSilent policy configured identity (some s) = refl
  initial-IsSilent policy configured identity none =
      if_cases IsSilent (holds (PowerPolicy-discrete policy.power PowerPolicy.on)) _ _ (λ _. refl)
        (λ _. mapped_first-IsSilent _ a.mapping)

  bound_late-IsSilent : (s : State) (x : Result _) → IsSilent (bound_late h true snapshot o a s x)
  unfolding bound_late
  bound_late-IsSilent s (err e) = refl
  bound_late-IsSilent s (ok bindings) = refl

  mapped_late-IsSilent : (s : State) (x : Result _) → IsSilent (mapped_late h true snapshot o a s x)
  unfolding mapped_late
  mapped_late-IsSilent s (err e) = refl
  mapped_late-IsSilent s (ok mapping) = bound_late-IsSilent s _

  pub late-IsSilent : (s : State) → IsSilent (complete_deferred h true snapshot o a s)
  unfolding complete_deferred
  late-IsSilent s =
      if_cases IsSilent
        (not (is_none s.pending) || not (is_none s.unresolved_upload) || not (is_nil s.bindings)) _
        _ (λ _. refl) (λ _. mapped_late-IsSilent s a.mapping)

module _ (a : WakeAnswers) (policy : Policy) (o : Observation) where
  unhandled-IsSilent : (handled : ℕ) → (wake_unless_handled a true policy o handled).events ≡ []
  unfolding wake_unless_handled stop reobserved
  unhandled-IsSilent handled = ground arith

  answered-IsSilent : (handled : Result ℕ) → (wake_as a true policy o handled).events ≡ []
  unfolding wake_as stop
  answered-IsSilent (err e) = refl
  answered-IsSilent (ok handled) = unhandled-IsSilent handled

  pub wake-IsSilent : (scheduled_wake a true policy o).events ≡ []
  unfolding scheduled_wake stop
  wake-IsSilent =
      if_cases (λ (r : WakeRun). r.events ≡ []) (is_empty o.tv.address) _ _ (λ _. refl)
        (λ _. answered-IsSilent a.handled)
