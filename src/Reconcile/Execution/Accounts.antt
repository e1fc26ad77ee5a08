-- ===== src/Reconcile/Execution/Accounts.antt =====
-- How the handling of a receipt leaves the store: it only writes states, and no outcome is lost.
use frame_tv_art_manager.Prelude.{
  inl, refl, inr, subst, sym, true, false, List, [], ◌∷◌, Option, none, some, ◌≡◌, ◌⊎◌, All,
  if_cases,
}
use frame_tv_art_manager.Reconcile.Recovery.Settled.{resolve_pending-idle}
use frame_tv_art_manager.Samsung.Types.{Observation, Outcome}
use frame_tv_art_manager.Reconcile.Types.{State, Pending, CommandIntent, Hashes}
use frame_tv_art_manager.Reconcile.Errors.{Result, ok, err, Err, Cause}
use frame_tv_art_manager.Reconcile.Validate.{state_valid}
use frame_tv_art_manager.Reconcile.Execution.{Answers, Run, Event, save, bump}
use frame_tv_art_manager.Reconcile.Execution.Receipts.{
  handle_receipt_as, handle_applied_receipt, handle_unknown_receipt, handle_definite_rejection,
  finish_applied,
}

abbrev pub IsSave : Event → Type 0
IsSave (Event.saved s done) = Unit
IsSave (Event.sent c) = ⊥
IsSave Event.panicked = ⊥

pub save-saves :
    (s : State) (answer : Option Err) (next : Option Err → Run)
    → All IsSave (next none).events
    → ((e : Err) → All IsSave (next (some e)).events)
    → All IsSave (save s answer next).events
unfolding save
save-saves s none next f g =
    if_cases (λ (r : Run). All IsSave r.events) (state_valid s s.tv)
      (record (next none) { events = Event.saved s true ∷ (next none).events })
      (next (some (Cause.plain ∷ []))) (λ _. (tt, f)) (λ _. g (Cause.plain ∷ []))
save-saves s (some e) next f g =
    if_cases (λ (r : Run). All IsSave r.events) (state_valid s s.tv)
      (record (next (some e)) { events = Event.saved s false ∷ (next (some e)).events })
      (next (some (Cause.plain ∷ []))) (λ _. (tt, g e)) (λ _. g (Cause.plain ∷ []))

module _ (h : Hashes) (a : Answers) (o : Observation) where
  finish-saves :
      (s : State) (updated : Observation) (r : Result State)
      → All IsSave (finish_applied h a o s updated r).events
  unfolding finish_applied
  finish-saves s updated (err e) = tt
  finish-saves s updated (ok r) = save-saves (bump r) a.resolve_error _ tt (λ e. tt)

  pub handle_receipt-saves :
      (outcome : Outcome) (s : State) (p : Pending)
      → All IsSave (handle_receipt_as h a o outcome s p).events
  unfolding handle_receipt_as handle_applied_receipt handle_unknown_receipt
      handle_definite_rejection
  handle_receipt-saves Outcome.applied s p =
      save-saves _ a.receipt_error _ (finish-saves _ _ _) (λ e. tt)
  handle_receipt-saves Outcome.outcome_unknown s p = save-saves _ a.receipt_error _ tt (λ e. tt)
  handle_receipt-saves Outcome.not_attempted s p = save-saves _ a.receipt_error _ tt (λ e. tt)
  handle_receipt-saves Outcome.not_applied s p = save-saves _ a.receipt_error _ tt (λ e. tt)
  handle_receipt-saves (Outcome.invalid_outcome n) s p = tt

-- The state that the store holds after a run: the last one that was written.
unfoldable pub durable : State → List Event → State
durable s [] = s
durable s (Event.saved t true ∷ events) = durable t events
durable s (Event.saved t false ∷ events) = durable s events
durable s (Event.sent c ∷ events) = durable s events
durable s (Event.panicked ∷ events) = durable s events

-- An outcome by which the TV did not change.
abbrev pub IsDefinite : Outcome → Type 0
IsDefinite Outcome.not_attempted = Unit
IsDefinite Outcome.not_applied = Unit
IsDefinite _ = ⊥

abbrev pub IsPendingFor : CommandIntent → Option Pending → Type 0
IsPendingFor intent none = ⊥
IsPendingFor intent (some p) = p.command ≡ intent

-- How the store stands at the end, by the error that is returned.
abbrev pub IsAccounted : CommandIntent → Outcome → Option Err → State → State → Type 0
IsAccounted intent outcome none held s = (held ≡ s) × (held.pending ≡ none)
IsAccounted intent outcome (some e) held s = IsDefinite outcome ⊎ IsPendingFor intent held.pending

abbrev Accounts : CommandIntent → Outcome → State → Run → Type 0
Accounts intent outcome held r =
    IsAccounted intent outcome r.done.error (durable held r.events) r.done.state

save-Accounts :
    (intent : CommandIntent) (outcome : Outcome) (held s : State) (answer : Option Err)
    (next : Option Err → Run)
    → Accounts intent outcome s (next none)
    → ((e : Err) → Accounts intent outcome held (next (some e)))
    → Accounts intent outcome held (save s answer next)
unfolding save durable
save-Accounts intent outcome held s none next f g =
    if_cases (Accounts intent outcome held) (state_valid s s.tv)
      (record (next none) { events = Event.saved s true ∷ (next none).events })
      (next (some (Cause.plain ∷ []))) (λ _. f) (λ _. g (Cause.plain ∷ []))
save-Accounts intent outcome held s (some e) next f g =
    if_cases (Accounts intent outcome held) (state_valid s s.tv)
      (record (next (some e)) { events = Event.saved s false ∷ (next (some e)).events })
      (next (some (Cause.plain ∷ []))) (λ _. g e) (λ _. g (Cause.plain ∷ []))

module _ (h : Hashes) (a : Answers) (o : Observation) (intent : CommandIntent) where
  finish-Accounts :
      (outcome : Outcome) (s : State) (updated : Observation) (r : Result State)
      → IsPendingFor intent s.pending
      → ((q : State) → r ≡ ok q → q.pending ≡ none)
      → Accounts intent outcome s (finish_applied h a o s updated r)
  unfolding finish_applied durable
  finish-Accounts outcome s updated (err e) p idle = inr p
  finish-Accounts outcome s updated (ok r) p idle =
      save-Accounts intent outcome s (bump r) a.resolve_error _ (refl, idle r refl) (λ e. inr p)

  pub handle_receipt-Accounts :
      (outcome : Outcome) (s : State) (p : Pending)
      → s.pending ≡ some p
      → p.command ≡ intent
      → Accounts intent outcome s (handle_receipt_as h a o outcome s p)
  unfolding handle_receipt_as handle_applied_receipt handle_unknown_receipt
      handle_definite_rejection durable
  handle_receipt-Accounts Outcome.applied s p e c =
      save-Accounts intent Outcome.applied s _ a.receipt_error _
        (finish-Accounts Outcome.applied _ _ _ c (resolve_pending-idle _ o a.resolved_at))
        (λ f. inr (subst (IsPendingFor intent) (sym e) c))
  handle_receipt-Accounts Outcome.outcome_unknown s p e c =
      save-Accounts intent Outcome.outcome_unknown s _ a.receipt_error _ (inr c)
        (λ f. inr (subst (IsPendingFor intent) (sym e) c))
  handle_receipt-Accounts Outcome.not_attempted s p e c =
      save-Accounts intent Outcome.not_attempted s _ a.receipt_error _ (inl tt) (λ f. inl tt)
  handle_receipt-Accounts Outcome.not_applied s p e c =
      save-Accounts intent Outcome.not_applied s _ a.receipt_error _ (inl tt) (λ f. inl tt)
  handle_receipt-Accounts (Outcome.invalid_outcome n) s p e c =
      inr (subst (IsPendingFor intent) (sym e) c)
