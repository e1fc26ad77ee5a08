-- ===== src/Reconcile/Protocol/Receipt.antt =====
-- The handling of a receipt keeps the protocol.
use frame_tv_art_manager.Prelude.{
  ◌≡◌, refl, ◌≤◌, Text, Bool, false, ◌||◌, [], ◌∷◌, ◌++◌, Option, none, some, arith, ◌⊎◌, inl, inr,
  if_cases, contains,
}
use frame_tv_art_manager.Samsung.Types.{Observation, Outcome}
use frame_tv_art_manager.Reconcile.Types.{State, Pending, Phase, Hashes, CommandIntent}
use frame_tv_art_manager.Reconcile.Errors.{Result, ok, err, Err, Cause, Cause-discrete, error_is}
use frame_tv_art_manager.Reconcile.Recovery.Settled.{IsIdle, resolve_pending-IsIdle}
use frame_tv_art_manager.Reconcile.Execution.{Answers, return, bump, join, with_receipt}
use frame_tv_art_manager.Reconcile.Execution.Receipts.{
  handle_receipt_as, handle_applied_receipt, handle_unknown_receipt, handle_definite_rejection,
  finish_applied, accepted,
}
use frame_tv_art_manager.Reconcile.Protocol.{Stage, Step, number}
use frame_tv_art_manager.Reconcile.Protocol.Sending.{
  goes_on, Rests, Leads, return-Leads, save-Leads,
}

-- An error of the world: the two that only this package makes are not in it.
abbrev pub IsForeign : Err → Type 0
IsForeign e = goes_on e ≡ false

abbrev pub AreForeign : Option Err → Type 0
AreForeign none = Unit
AreForeign (some e) = IsForeign e

abbrev pub IsForeignResult : Result Text → Type 0
IsForeignResult (ok t) = Unit
IsForeignResult (err e) = IsForeign e

-- What the package relies on: `mutationRetryError` and `storageFullRejectionError` are its own.
pub record IsOutside (a : Answers) : Type 0 where
  pub new_id : IsForeignResult a.new_id
  pub prepare : AreForeign a.prepare_error
  pub pace : AreForeign a.pace_error
  pub clear : AreForeign a.clear_error
  pub apply : AreForeign a.apply_error
  pub receipt : AreForeign a.receipt_error
  pub resolve : AreForeign a.resolve_error

-- After an error the loop does not go on, or the machine rests.
abbrev pub Taken : Option State → Stage → State → Err → Type 0
Taken store stage s e = IsForeign e ⊎ Rests store stage s

or-false : (a b c d : Bool) → (a || b) ≡ false → (c || d) ≡ false → ((a || c) || (b || d)) ≡ false
or-false false false false false p q = refl
or-false a b c d p q = ground arith

error_is-append : (e f : Err) (c : Cause) → error_is (e ++ f) c ≡ (error_is e c || error_is f c)
unfolding error_is contains
error_is-append [] f c = refl
error_is-append (x ∷ e) f c = ground (arith, error_is-append e f c)

append-IsForeign : (e f : Err) → IsForeign e → IsForeign f → IsForeign (e ++ f)
unfolding goes_on
append-IsForeign e f p q =
    rw (error_is-append e f Cause.mutation_retry, error_is-append e f Cause.storage_full_rejection)
      (or-false (error_is e Cause.mutation_retry) (error_is e Cause.storage_full_rejection)
        (error_is f Cause.mutation_retry) (error_is f Cause.storage_full_rejection) p q)

pub join-IsForeign : (e : Err) (f : Option Err) → IsForeign e → AreForeign f → IsForeign (join e f)
join-IsForeign e none p q = p
join-IsForeign e (some f) p q = append-IsForeign e f p q

pub answer-IsForeign :
    (answer : Option Err) → AreForeign answer → (e : Err) → answer ≡ some e → IsForeign e
answer-IsForeign none k e q = absurd (ground arith)
answer-IsForeign (some f) k e q = ground arith

pub plain-IsForeign : IsForeign (Cause.plain ∷ [])
unfolding goes_on error_is contains Cause-discrete
plain-IsForeign = refl

empty-IsForeign : IsForeign []
unfolding goes_on error_is contains
empty-IsForeign = refl

recovery-IsForeign : IsForeign (Cause.recovery_required ∷ [])
unfolding goes_on error_is contains Cause-discrete
recovery-IsForeign = refl

accepted-revision : (s : State) (i : CommandIntent) → (accepted s i).revision ≡ s.revision
accepted-revision s i =
    if_cases (λ (t : State). t.revision ≡ s.revision) _ _ _ (λ _. refl) (λ _. refl)

pub foreign_return :
    (held : Option State) (st : Stage) (s : State) (o : Observation) (e : Err)
    → IsForeign e
    → Leads Taken held st (return s o (some e))
foreign_return held st s o e f = return-Leads Taken held st s o (some e) (inl f)

module _ (h : Hashes) (a : Answers) (o : Observation) (outside : IsOutside a) where
  finish-Leads :
      (held : Option State) (s : State) (view : Observation) (p : Pending) (r : Result State)
      → p.phase ≡ Phase.applied
      → number held ≤ s.revision
      → IsIdle s r
      → Leads Taken held (Stage.noted p) (finish_applied h a o s view r)
  unfolding finish_applied
  finish-Leads held s view p (err e) f n k = foreign_return held _ s o e (rw k recovery-IsForeign)
  finish-Leads held s view p (ok r) f n k =
      save-Leads Taken IsForeign held (Stage.noted p) Stage.idle (bump r) a.resolve_error _
        plain-IsForeign (answer-IsForeign a.resolve_error outside.resolve) (omega (arith, k.1, n))
        (λ v. Step.close p (bump r) f v k.0)
        (return-Leads Taken _ _ (bump r) view none (refl, k.0, omega arith))
        (λ e at q. foreign_return held at (bump r) o e q)

  applied-Leads :
      (s : State) (p : Pending)
      → Leads Taken (some s) (Stage.sent p) (handle_applied_receipt h a o s p)
  unfolding handle_applied_receipt
  applied-Leads s p =
      let q = with_receipt p Phase.applied a.receipt in
      let t = record (bump (accepted s p.command)) { pending = some q } in
      save-Leads Taken IsForeign (some s) (Stage.sent p) (Stage.noted q) t a.receipt_error _
        plain-IsForeign (answer-IsForeign a.receipt_error outside.receipt)
        (omega (arith, accepted-revision s p.command))
        (λ v. Step.note p q t v refl (record { command = refl; phase = inl refl }))
        (finish-Leads (some t) t _ q _ refl (omega arith)
          (resolve_pending-IsIdle t o a.resolved_at))
        (λ e at k. foreign_return (some s) at t o e k)

  unknown-Leads :
      (s : State) (p : Pending)
      → Leads Taken (some s) (Stage.sent p) (handle_unknown_receipt h a o s p)
  unfolding handle_unknown_receipt
  unknown-Leads s p =
      let q = with_receipt p Phase.outcome_unknown a.receipt in
      let t = record (bump s) { pending = some q } in
      save-Leads Taken IsForeign (some s) (Stage.sent p) (Stage.noted q) t a.receipt_error _
        plain-IsForeign (answer-IsForeign a.receipt_error outside.receipt) (omega arith)
        (λ v. Step.note p q t v refl (record { command = refl; phase = inr refl }))
        (foreign_return (some t) _ t o _ (unknown-IsForeign none tt))
        (λ e at k. foreign_return (some s) at t o _ (unknown-IsForeign (some e) k))
    where
      unknown-IsForeign :
          (error : Option Err)
          → AreForeign error
          → IsForeign (join (join (Cause.recovery_required ∷ []) a.apply_error) error)
      unknown-IsForeign error k =
          join-IsForeign _ error (join-IsForeign _ a.apply_error recovery-IsForeign outside.apply) k

  refused-Leads :
      (s : State) (p : Pending)
      → Leads Taken (some s) (Stage.sent p) (handle_definite_rejection h a o s p)
  unfolding handle_definite_rejection
  refused-Leads s p =
      save-Leads Taken IsForeign (some s) (Stage.sent p) Stage.idle _ a.receipt_error _
        plain-IsForeign (answer-IsForeign a.receipt_error outside.receipt) (omega arith)
        (λ v. Step.refuse p _ v refl)
        (return-Leads Taken _ _ _ o (some _) (inr (refl, refl, omega arith)))
        (λ e at k. foreign_return (some s) at _ o _ (
          join-IsForeign _ (some e) (join-IsForeign [] a.apply_error empty-IsForeign outside.apply)
            k))

  pub handle_receipt-Leads :
      (outcome : Outcome) (s : State) (p : Pending)
      → Leads Taken (some s) (Stage.sent p) (handle_receipt_as h a o outcome s p)
  unfolding handle_receipt_as
  handle_receipt-Leads Outcome.applied s p = applied-Leads s p
  handle_receipt-Leads Outcome.outcome_unknown s p = unknown-Leads s p
  handle_receipt-Leads Outcome.not_attempted s p = refused-Leads s p
  handle_receipt-Leads Outcome.not_applied s p = refused-Leads s p
  handle_receipt-Leads (Outcome.invalid_outcome n) s p =
      foreign_return (some s) (Stage.sent p) s o _ plain-IsForeign
