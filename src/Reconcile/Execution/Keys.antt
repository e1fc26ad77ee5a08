-- ===== src/Reconcile/Execution/Keys.antt =====
-- Carrying out a command keeps the keys of the binding map unique.
use frame_tv_art_manager.Prelude.{
  refl, ◌≡◌, holds, List, [], ◌∷◌, ℕ, Text, Bool, Option, none, some, if_cases, ◌&&◌, not, contains,
  Text-discrete, is_blank,
}
use frame_tv_art_manager.Prelude.Dict.{
  HasUniqueKeys, insert-HasUniqueKeys, delete-HasUniqueKeys, delete_where-HasUniqueKeys,
}
use frame_tv_art_manager.Samsung.Types.{Observation, Outcome, Command}
use frame_tv_art_manager.Reconcile.Types.{State, Pending, CommandKind, CommandIntent, Hashes}
use frame_tv_art_manager.Reconcile.Errors.{Result, ok, err, Err, Cause, or_plain}
use frame_tv_art_manager.Reconcile.Validate.{state_valid}
use frame_tv_art_manager.Reconcile.Inputs.{fingerprint_policy}
use frame_tv_art_manager.Reconcile.Rotation.{record_shown}
use frame_tv_art_manager.Reconcile.Recovery.{
  forget_unknown, forget_owned, settle_if, is_applied, applied_content, resolve_pending?,
  resolve_pending, resolve_operation, resolve_applied_receipt, resolve_observed, resolve_upload,
  resolve_deletion, fold_upload_binding, proven_content,
}
use frame_tv_art_manager.Reconcile.Execution.{
  CommandKind-discrete, Answers, Run, save, send, samsung_command, bump,
}
use frame_tv_art_manager.Reconcile.Execution.Receipts.{
  accepted, handle_definite_rejection, handle_unknown_receipt, handle_receipt, handle_receipt_as,
  handle_applied_receipt, finish_applied,
}
use frame_tv_art_manager.Reconcile.Execution.Execute.{
  ExecutionInput, execute, execute_checked, execute_with, execute_saved, execute_paced, abandon,
  send_prepared,
}

-- Each digest stands once in the binding map, as in a map of Go.
abbrev pub IsMap : State → Type 0
IsMap s = HasUniqueKeys s.bindings

-- A state that an operation settled into has nothing pending.
abbrev pub ResultIsMap : Result State → Type 0
ResultIsMap (ok s) = IsMap s × (s.pending ≡ none)
ResultIsMap (err e) = Unit

applied-IsMap :
    (s : State) (p : Pending) (id : Text) (kind : CommandKind) (o : Observation) (now : ℕ)
    → IsMap s
    → ResultIsMap (resolve_applied_receipt s p id kind o now)
unfolding resolve_applied_receipt fold_upload_binding record_shown
applied-IsMap s p id CommandKind.upload o now u =
    if_cases ResultIsMap (is_blank id) _ _ (λ _. tt)
      (λ _. (
        insert-HasUniqueKeys p.command.digest _ _ (delete_where-HasUniqueKeys _ s.bindings u),
        refl,
      ))
applied-IsMap s p id CommandKind.delete_owned o now u =
    (delete-HasUniqueKeys p.command.digest s.bindings u, refl)
applied-IsMap s p id CommandKind.delete_unknown o now u = (u, refl)
applied-IsMap s p id CommandKind.select o now u = (u, refl)
applied-IsMap s p id CommandKind.slideshow o now u = (u, refl)
applied-IsMap s p id CommandKind.brightness o now u = (u, refl)
applied-IsMap s p id CommandKind.power_off o now u = (u, refl)
applied-IsMap s p id CommandKind.wake o now u = (u, refl)
applied-IsMap s p id (CommandKind.unknown_kind t) o now u = tt

settled-IsMap : (t : Bool) (s : State) → IsMap s → ResultIsMap (settle_if t s)
settled-IsMap t s u = if_cases ResultIsMap t _ _ (λ _. (u, refl)) (λ _. tt)

deletion-IsMap :
    (s : State) (p : Pending) (forget : State) (o : Observation)
    → IsMap s
    → IsMap forget
    → ResultIsMap (resolve_deletion s p forget o)
unfolding resolve_deletion
deletion-IsMap s p forget o u v =
    if_cases ResultIsMap (not o.inventory.known) _ _ (λ _. tt)
      (λ _.
        if_cases ResultIsMap (contains Text-discrete o.inventory.content_ids p.command.content_id) _
          _ (λ _. if_cases ResultIsMap (is_applied p.phase) _ _ (λ _. tt) (λ _. (u, refl)))
          (λ _. (v, refl)))

upload-IsMap :
    (s : State) (p : Pending) (id : Option Text) (o : Observation) (now : ℕ)
    → IsMap s
    → ResultIsMap (resolve_upload s p id o now)
unfolding resolve_upload
upload-IsMap s p none o now u = tt
upload-IsMap s p (some id) o now u =
    if_cases ResultIsMap
      (o.inventory.known && not (is_blank id) && contains Text-discrete o.inventory.content_ids id)
      _ _ (λ _. (insert-HasUniqueKeys p.command.digest _ s.bindings u, refl)) (λ _. tt)

observed-IsMap :
    (s : State) (p : Pending) (kind : CommandKind) (o : Observation) (now : ℕ)
    → IsMap s
    → ResultIsMap (resolve_observed s p kind o now)
unfolding resolve_observed record_shown
observed-IsMap s p CommandKind.upload o now u = upload-IsMap s p (applied_content p.receipt) o now u
observed-IsMap s p CommandKind.delete_owned o now u =
    deletion-IsMap s p (forget_owned s p.command.digest p.command.content_id now) o u
      (delete-HasUniqueKeys p.command.digest s.bindings u)
observed-IsMap s p CommandKind.delete_unknown o now u =
    deletion-IsMap s p (forget_unknown s p.command.content_id) o u u
observed-IsMap s p CommandKind.select o now u = tt
observed-IsMap s p CommandKind.slideshow o now u = settled-IsMap _ s u
observed-IsMap s p CommandKind.brightness o now u = settled-IsMap _ s u
observed-IsMap s p CommandKind.power_off o now u = settled-IsMap _ s u
observed-IsMap s p CommandKind.wake o now u = settled-IsMap _ s u
observed-IsMap s p (CommandKind.unknown_kind t) o now u = tt

operation-IsMap :
    (s : State) (p : Pending) (id : Option Text) (o : Observation) (now : ℕ)
    → IsMap s
    → ResultIsMap (resolve_operation s p id o now)
unfolding resolve_operation
operation-IsMap s p (some id) o now u = applied-IsMap s p id p.command.kind o now u
operation-IsMap s p none o now u = observed-IsMap s p p.command.kind o now u

pending-IsMap :
    (s : State) (p : Option Pending) (o : Observation) (now : ℕ)
    → s.pending ≡ p
    → IsMap s
    → ResultIsMap (resolve_pending? s p o now)
unfolding resolve_pending?
pending-IsMap s none o now e u = (u, e)
pending-IsMap s (some p) o now e u = operation-IsMap s p (proven_content p) o now u

pub resolve_pending-IsMap :
    (s : State) (o : Observation) (now : ℕ) → IsMap s → ResultIsMap (resolve_pending s o now)
unfolding resolve_pending
resolve_pending-IsMap s o now u = pending-IsMap s s.pending o now refl u

abbrev pub RunIsMap : Run → Type 0
RunIsMap r = IsMap r.done.state

save-IsMap :
    (s : State) (answer : Option Err) (next : Option Err → Run)
    → RunIsMap (next none)
    → ((e : Err) → RunIsMap (next (some e)))
    → RunIsMap (save s answer next)
unfolding save
save-IsMap s none next f g =
    if_cases RunIsMap (state_valid s s.tv) _ _ (λ _. f) (λ _. g (Cause.plain ∷ []))
save-IsMap s (some e) next f g =
    if_cases RunIsMap (state_valid s s.tv) _ _ (λ _. g e) (λ _. g (Cause.plain ∷ []))

accepted-IsMap : (s : State) (i : CommandIntent) → IsMap s → IsMap (accepted s i)
accepted-IsMap s i u =
    if_cases IsMap (holds (CommandKind-discrete i.kind CommandKind.upload)) _ s (λ _. u) (λ _. u)

module _ (h : Hashes) (a : Answers) (o : Observation) where
  finish-IsMap :
      (s : State) (updated : Observation) (r : Result State)
      → IsMap s
      → ResultIsMap r
      → RunIsMap (finish_applied h a o s updated r)
  unfolding finish_applied
  finish-IsMap s updated (err e) u v = u
  finish-IsMap s updated (ok r) u v = save-IsMap (bump r) a.resolve_error _ v.0 (λ e. v.0)

  rejected-IsMap :
      (s : State) (p : Pending) → IsMap s → RunIsMap (handle_definite_rejection h a o s p)
  unfolding handle_definite_rejection
  rejected-IsMap s p u = save-IsMap _ a.receipt_error _ u (λ e. u)

  taken-IsMap : (s : State) (p : Pending) → IsMap s → RunIsMap (handle_applied_receipt h a o s p)
  unfolding handle_applied_receipt
  taken-IsMap s p u =
      save-IsMap _ a.receipt_error _
        (finish-IsMap _ _ _ (accepted-IsMap s p.command u)
          (resolve_pending-IsMap _ o a.resolved_at (accepted-IsMap s p.command u)))
        (λ e. accepted-IsMap s p.command u)

  receipt-IsMap :
      (outcome : Outcome) (s : State) (p : Pending)
      → IsMap s
      → RunIsMap (handle_receipt_as h a o outcome s p)
  unfolding handle_receipt_as handle_unknown_receipt
  receipt-IsMap Outcome.applied s p u = taken-IsMap s p u
  receipt-IsMap Outcome.outcome_unknown s p u = save-IsMap _ a.receipt_error _ u (λ e. u)
  receipt-IsMap Outcome.not_attempted s p u = rejected-IsMap s p u
  receipt-IsMap Outcome.not_applied s p u = rejected-IsMap s p u
  receipt-IsMap (Outcome.invalid_outcome n) s p u = u

module _ (lower : Text → Text) (h : Hashes) (i : ExecutionInput) (a : Answers) where
  sent-IsMap :
      (s : State) (p : Pending) (command : Option (Result Command))
      → IsMap s
      → RunIsMap (send_prepared lower h i a s p command)
  unfolding send_prepared send handle_receipt
  sent-IsMap s p none u = u
  sent-IsMap s p (some (err e)) u = u
  sent-IsMap s p (some (ok c)) u = receipt-IsMap h a i.observation a.receipt.outcome s p u

  paced-IsMap :
      (s : State) (p : Pending) (error : Option Err)
      → IsMap s
      → RunIsMap (execute_paced lower h i a s p error)
  unfolding execute_paced abandon
  paced-IsMap s p none u = sent-IsMap s p (samsung_command i.intent) u
  paced-IsMap s p (some e) u = save-IsMap _ a.clear_error _ u (λ f. u)

  saved-IsMap :
      (s : State) (p : Pending) (error : Option Err)
      → IsMap s
      → RunIsMap (execute_saved lower h i a s p error)
  unfolding execute_saved
  saved-IsMap s p none u = paced-IsMap s p a.pace_error u
  saved-IsMap s p (some e) u = u

  checked-IsMap :
      (id : Result Text) (fingerprint : Result (List ℕ))
      → IsMap i.state
      → RunIsMap (execute_checked lower h i a id fingerprint)
  unfolding execute_checked execute_with
  checked-IsMap (err e) fingerprint u = u
  checked-IsMap (ok id) (err e) u = u
  checked-IsMap (ok id) (ok fingerprint) u =
      save-IsMap _ a.prepare_error _ (saved-IsMap _ _ none u) (λ e. u)

  pub execute-IsMap : IsMap i.state → IsMap (execute lower h i a).done.state
  unfolding execute
  execute-IsMap u = checked-IsMap a.new_id (or_plain (fingerprint_policy lower h i.policy)) u
