-- ===== src/Reconcile/Wake/Once.antt =====
-- internal/reconcile/wake_schedule.go: how often a TV is woken for a boundary.
use frame_tv_art_manager.Prelude.{
  refl, inl, inr, ltb, All, is_empty, Option, ◌⊎◌, not, some, ◌<◌, if_cases, none, holds, ◌&&◌,
  subst, ℕ, Bool, true, false, ◌≡◌, arith, List, [], ◌∷◌,
}
use frame_tv_art_manager.Samsung.Types.{Outcome, Outcome-discrete, Observation}
use frame_tv_art_manager.Reconcile.Types.{Policy}
use frame_tv_art_manager.Reconcile.Errors.{err, Err, Result, Cause, ok}
use frame_tv_art_manager.Reconcile.Wake.{
  wake_now, record_on, record_woken, WakeRun, is_none, join, is_power_on, is_power_off,
  is_supported, WakeEvent, WakeAnswers, scheduled_wake, wake_as, wake_unless_handled, reobserved,
  stop,
}

abbrev pub IsRecord : WakeEvent → Type 0
IsRecord WakeEvent.woken = ⊥
IsRecord (WakeEvent.recorded b done) = Unit

-- The boundary on record after a run.
unfoldable pub recorded_after : ℕ → List WakeEvent → ℕ
recorded_after handled [] = handled
recorded_after handled (WakeEvent.woken ∷ es) = recorded_after handled es
recorded_after handled (WakeEvent.recorded b true ∷ es) = recorded_after b es
recorded_after handled (WakeEvent.recorded b false ∷ es) = recorded_after handled es

-- What a wake packet is sent for: the boundary is not on record, the TV is known to be off or taken to
-- be in standby, it can be woken, and the run may change it.
abbrev pub IsDue : Bool → Policy → Observation → ℕ → Type 0
IsDue dry_run policy o handled =
    (handled < policy.wake_boundary)
    × ((is_power_off o.power ≡ true) ⊎ (o.presumed_standby ≡ true))
    × (is_supported o.capabilities.remote_power ≡ true)
    × (dry_run ≡ false)

-- A run that sends a packet sends one, and then writes the boundary.
abbrev pub Wakes : WakeAnswers → Bool → Policy → Observation → ℕ → WakeRun → Type 0
Wakes a dry_run policy o handled r =
    IsDue dry_run policy o handled
    × (r.events
        ≡ WakeEvent.woken ∷ WakeEvent.recorded policy.wake_boundary (is_none a.save_error) ∷ [])

module _ (a : WakeAnswers) (dry_run : Bool) (policy : Policy) (o : Observation) (handled : ℕ) where
  abbrev IsOrderly : WakeRun → Type 0
  IsOrderly r = Wakes a dry_run policy o handled r ⊎ All IsRecord r.events

  record_on-IsOrderly : (save : Option Err) → IsOrderly (record_on a dry_run policy o save)
  unfolding record_on reobserved stop
  record_on-IsOrderly none = inr (tt, tt)
  record_on-IsOrderly (some e) = inr (tt, tt)

  record_woken-IsOrderly :
      IsDue dry_run policy o handled
      → (wake save : Option Err) → a.save_error ≡ save
      → IsOrderly (record_woken a dry_run policy o wake save)
  unfolding record_woken reobserved stop
  record_woken-IsOrderly d wake (some e) q = inl (d, rw q refl)
  record_woken-IsOrderly d (some w) none q = inl (d, rw q refl)
  record_woken-IsOrderly d none none q = inl (d, rw q refl)

  wake_now-IsOrderly : IsDue dry_run policy o handled → IsOrderly (wake_now a dry_run policy o)
  unfolding wake_now stop
  wake_now-IsOrderly d =
      if_cases IsOrderly (holds (Outcome-discrete a.receipt.outcome Outcome.not_attempted))
        (stop a dry_run policy o [] [] (some (join a.wake_error (Cause.plain ∷ []))))
        (record_woken a dry_run policy o a.wake_error a.save_error) (λ _. inr tt)
        (λ _. record_woken-IsOrderly d a.wake_error a.save_error refl)

  unless_handled-IsOrderly : IsOrderly (wake_unless_handled a dry_run policy o handled)
  unfolding wake_unless_handled reobserved stop
  unless_handled-IsOrderly =
      if_cases IsOrderly (not (ltb handled policy.wake_boundary))
        (reobserved a dry_run policy o [] []) _ (λ _. inr tt)
        (λ new.
          if_cases IsOrderly (is_power_on o.power) _ _
            (λ _.
              if_cases IsOrderly dry_run (reobserved a dry_run policy o [] [])
                (record_on a dry_run policy o a.save_error) (λ _. inr tt)
                (λ _. record_on-IsOrderly a.save_error))
            (λ _.
              if_cases IsOrderly (not (is_power_off o.power) && not o.presumed_standby)
                (stop a dry_run policy o [] [] none) _ (λ _. inr tt)
                (λ off.
                  if_cases IsOrderly (not (is_supported o.capabilities.remote_power))
                    (stop a dry_run policy o [] [] (some (Cause.unsupported_intent ∷ []))) _
                    (λ _. inr tt)
                    (λ can.
                      if_cases IsOrderly dry_run (stop a dry_run policy o [] [] none)
                        (wake_now a dry_run policy o) (λ _. inr tt)
                        (λ wet.
                          wake_now-IsOrderly (ground arith, ground arith, ground arith, wet))))))

  wake_as-IsOrderly : (h : Result ℕ) → h ≡ ok handled → IsOrderly (wake_as a dry_run policy o h)
  unfolding wake_as
  wake_as-IsOrderly (ok n) e =
      subst (λ k. IsOrderly (wake_unless_handled a dry_run policy o k)) (ground arith)
        unless_handled-IsOrderly
  wake_as-IsOrderly (err f) e = absurd (ground arith)

orderly :
    (a : WakeAnswers) (dry_run : Bool) (policy : Policy) (o : Observation) (handled : ℕ)
    → a.handled ≡ ok handled
    → IsOrderly a dry_run policy o handled (scheduled_wake a dry_run policy o)
unfolding scheduled_wake stop
orderly a dry_run policy o handled e =
    if_cases (IsOrderly a dry_run policy o handled) (is_empty o.tv.address)
      (stop a dry_run policy o [] [] (some (Cause.plain ∷ [])))
      (wake_as a dry_run policy o a.handled) (λ _. inr tt)
      (λ _. wake_as-IsOrderly a dry_run policy o handled a.handled e)

-- Whatever the record says, a scheduled wake only writes its boundary, or the record is readable and
-- it is due and sends one packet.
pub scheduled_wake-IsOrderly :
    (a : WakeAnswers) (dry_run : Bool) (policy : Policy) (o : Observation)
    → All IsRecord (scheduled_wake a dry_run policy o).events
      ⊎ ((handled : ℕ) × (a.handled ≡ ok handled)
          × Wakes a dry_run policy o handled (scheduled_wake a dry_run policy o))
unfolding scheduled_wake wake_as stop
scheduled_wake-IsOrderly a dry_run policy o = by_record a.handled refl
  where
    unread : (e : Err) → a.handled ≡ err e → All IsRecord (scheduled_wake a dry_run policy o).events
    unread e q =
        if_cases (λ (r : WakeRun). All IsRecord r.events) (is_empty o.tv.address) _
          (wake_as a dry_run policy o a.handled) (λ _. tt) (λ _. silent a.handled q)
      where
        silent : (r : Result ℕ) → r ≡ err e → All IsRecord (wake_as a dry_run policy o r).events
        silent (err f) k = tt
        silent (ok n) k = absurd (ground arith)

    by_record :
        (r : Result ℕ)
        → a.handled ≡ r
        → All IsRecord (scheduled_wake a dry_run policy o).events
          ⊎ ((handled : ℕ) × (a.handled ≡ ok handled)
              × Wakes a dry_run policy o handled (scheduled_wake a dry_run policy o))
    by_record (err e) q = inl (unread e q)
    by_record (ok handled) q = elim (orderly a dry_run policy o handled q) [
      | inl w ↦ inr (handled, q, w)
      | inr r ↦ inl r
    ]

-- What a wake of the boundary leaves. Its write succeeded, and a run after it does nothing, or the
-- write failed, and the boundary on record is still the one from before, so that it is woken again.
abbrev pub IsNoted : WakeAnswers → ℕ → WakeRun → WakeRun → Type 0
IsNoted a handled first second =
    ((is_none a.save_error ≡ true) × (second.events ≡ []))
    ⊎ ((is_none a.save_error ≡ false) × (recorded_after handled first.events ≡ handled))
