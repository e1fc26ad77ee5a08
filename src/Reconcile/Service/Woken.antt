-- ===== src/Reconcile/Service/Woken.antt =====
-- internal/reconcile/service.go: what a run does outside its write-ahead record, which is to wake the
-- TV as scheduled.
use frame_tv_art_manager.Prelude.{
  ◌≡◌, refl, ◌⊎◌, inl, inr, ℕ, Text, true, not, ◌&&◌, ◌==◌, List, [], ◌∷◌, All, Option, none, some,
  if_cases, sym, subst, and_parts,
}
use frame_tv_art_manager.Samsung.Types.{Observation}
use frame_tv_art_manager.Reconcile.Types.{
  State, Plan, Policy, CommandKind, Status, TvIdentity, Hashes, RotationStatus,
}
use frame_tv_art_manager.Reconcile.Errors.{Result, ok, err, Err}
use frame_tv_art_manager.Reconcile.Validate.{identity_from_observation}
use frame_tv_art_manager.Reconcile.Execution.{Run}
use frame_tv_art_manager.Reconcile.Wake.{WakeEvent, is_none}
use frame_tv_art_manager.Reconcile.Wake.Once.{IsRecord, IsDue, scheduled_wake-IsOrderly}
use frame_tv_art_manager.Reconcile.Wake.PowerOn.{WakePreparation, prepare_power_on, unprepared}
use frame_tv_art_manager.Reconcile.Migration.FirstRun.{prepare_initial_state, complete_deferred}
use frame_tv_art_manager.Reconcile.Service.Recover.{recover}
use frame_tv_art_manager.Reconcile.Loop.{Setup, is_eligible}
use frame_tv_art_manager.Reconcile.Service.{End}
use frame_tv_art_manager.Reconcile.Service.Request.{
  Request, ServiceConfig, RunAnswers, RunResult, effective_policy, request_valid, wants_on,
}
use frame_tv_art_manager.Reconcile.Service.Start.{
  setup_for, run, run_observed, run_identified, run_loaded, run_started, run_recovered, run_powered,
  run_prepared, run_awake, run_migrated, run_eligible, run_planned, run_ended, finished,
}

abbrev IsAsleep : RunResult → Type 0
IsAsleep r = r.wake_events ≡ []

module _ (lower : Text → Text) (h : Hashes) (service : ServiceConfig) (q : Request)
    (a : RunAnswers) where
  ended-IsAsleep :
      (c : Setup) (plan : Option Plan) (rotation : RotationStatus) (e : End)
      → IsAsleep (run_ended lower h service q a c plan rotation e)
  unfolding run_ended finished
  ended-IsAsleep c plan rotation (End.waiting l) = refl
  ended-IsAsleep c plan rotation (End.ended l) = refl
  ended-IsAsleep c plan rotation (End.failed_with l status e) = refl
  ended-IsAsleep c plan rotation (End.panicked l) = refl

  planned-IsAsleep :
      (c : Setup) (w : WakePreparation) (s : State) (p : Result (Plan × State))
      → IsAsleep (run_planned lower h service q a c w s p)
  unfolding run_planned
  planned-IsAsleep c w s (err e) = refl
  planned-IsAsleep c w s (ok (plan, planned)) =
      if_cases IsAsleep q.dry_run _ _ (λ _. refl) (λ _. ended-IsAsleep c _ plan.rotation _)

  eligible-IsAsleep :
      (c : Setup) (w : WakePreparation) (s : State)
      → IsAsleep (run_eligible lower h service q a c w s)
  unfolding run_eligible
  eligible-IsAsleep c w s =
      if_cases IsAsleep (is_eligible w.observation) _ _ (λ _. planned-IsAsleep c w s _) (λ _. refl)

  migrated-IsAsleep :
      (c : Setup) (w : WakePreparation) (r : Run) (e : Option Err)
      → IsAsleep (run_migrated lower h service q a c w r e)
  unfolding run_migrated
  migrated-IsAsleep c w r none = eligible-IsAsleep c w r.done.state
  migrated-IsAsleep c w r (some e) = refl

  awake-IsAsleep : (c : Setup) (w : WakePreparation) → IsAsleep (run_awake lower h service q a c w)
  unfolding run_awake
  awake-IsAsleep c w =
      let late = complete_deferred h q.dry_run q.snapshot w.observation a.deferred w.state in
      if_cases IsAsleep w.state.legacy_migration_pending _ _
        (λ _. migrated-IsAsleep c w late late.done.error) (λ _. eligible-IsAsleep c w w.state)

  prepared-IsAsleep :
      (c : Setup) (w : WakePreparation) (status : Option Status) (e : Option Err)
      → IsAsleep (run_prepared lower h service q a c w status e)
  unfolding run_prepared
  prepared-IsAsleep c w (some status) e = refl
  prepared-IsAsleep c w none (some e) = refl
  prepared-IsAsleep c w none none = awake-IsAsleep c w

  recovered-IsAsleep :
      (policy : Policy) (o : Observation) (woken : List CommandKind) (s : State) (e : Option Err)
      → IsAsleep (run_recovered lower h service q a policy o woken s e)
  unfolding run_recovered run_powered
  recovered-IsAsleep policy o woken s (some e) = refl
  recovered-IsAsleep policy o woken s none =
      let c = setup_for lower h service q a policy s in
      let w = prepare_power_on lower h q.dry_run q.cycle_id q.snapshot policy a.power_on s o in
      if_cases IsAsleep (wants_on policy) _ _ (λ _. prepared-IsAsleep c w w.terminal w.error)
        (λ _. awake-IsAsleep c (record (unprepared s o) { applied = woken }))

  started-IsAsleep :
      (policy : Policy) (o : Observation) (woken : List CommandKind) (r : Run) (e : Option Err)
      → IsAsleep (run_started lower h service q a policy o woken r e)
  unfolding run_started
  started-IsAsleep policy o woken r (some e) = refl
  started-IsAsleep policy o woken r none =
      let k = recover q.dry_run o a.recovery r.done.state in
      recovered-IsAsleep policy o woken k.done.state k.done.error

  loaded-IsAsleep :
      (policy : Policy) (o : Observation) (woken : List CommandKind) (identity : TvIdentity)
      (found : Result (Option State))
      → IsAsleep (run_loaded lower h service q a policy o woken identity found)
  unfolding run_loaded
  loaded-IsAsleep policy o woken identity (err e) = refl
  loaded-IsAsleep policy o woken identity (ok found) =
      let initial =
        prepare_initial_state h q.dry_run q.snapshot o a.legacy policy service.legacy_configured
          identity found in
      started-IsAsleep policy o woken initial initial.done.error

  identified-IsAsleep :
      (policy : Policy) (o : Observation) (woken : List CommandKind) (identity : Option TvIdentity)
      → IsAsleep (run_identified lower h service q a policy o woken identity)
  unfolding run_identified
  identified-IsAsleep policy o woken none = refl
  identified-IsAsleep policy o woken (some identity) =
      loaded-IsAsleep policy o woken identity a.loaded

  -- What a run does apart from its commands: at most it writes a wake boundary, or it sends the one
  -- packet that a policy for a boundary not yet on record schedules for a TV that is off, and then
  -- writes that boundary.
  abbrev pub WakesOnce : List WakeEvent → Type 0
  WakesOnce events =
      let policy = effective_policy service.policy q.policy in
      All IsRecord events
      ⊎ ((wants_on policy ≡ true)
          × (handled : ℕ) × (a.wake.handled ≡ ok handled)
          × IsDue q.dry_run policy a.observed handled
          × (events
              ≡ WakeEvent.woken
                ∷ WakeEvent.recorded policy.wake_boundary (is_none a.wake.save_error)
                ∷ []))

  observed-WakesOnce :
      (e : Option Err)
      → WakesOnce
          (run_observed lower h service q a
            (effective_policy service.policy q.policy)
            e).wake_events
  unfolding run_observed
  observed-WakesOnce (some e) = inl tt
  observed-WakesOnce none =
      let policy = effective_policy service.policy q.policy in
      if_cases (λ (r : RunResult). WakesOnce r.wake_events)
        (wants_on policy && not (policy.wake_boundary == 0)) _ _
        (λ on. elim (scheduled_wake-IsOrderly a.wake q.dry_run policy a.observed) [
          | inl r ↦ inl r
          | inr w ↦ inr ((and_parts (wants_on policy) _ on).0, w.0, w.1, w.2.0, w.2.1)
        ])
        (λ _.
          subst WakesOnce
            (sym (identified-IsAsleep policy a.observed [] (identity_from_observation a.observed)))
            (inl tt))

  pub run-WakesOnce : WakesOnce (run lower h service q a).wake_events
  unfolding run
  run-WakesOnce =
      if_cases (λ (r : RunResult). WakesOnce r.wake_events)
        (request_valid lower h q (effective_policy service.policy q.policy)) _ _
        (λ _. observed-WakesOnce a.observe_error) (λ _. inl tt)
