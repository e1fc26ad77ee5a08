-- ===== src/Reconcile/Recovery/Settled.antt =====
-- `resolvePending` leaves no pending operation, in any state, and the revision as it is.
use frame_tv_art_manager.Reconcile.Rotation.{record_shown}
use frame_tv_art_manager.Prelude.{
  [], ◌∷◌, ◌&&◌, ℕ, Text, Text-discrete, Bool, Option, none, some, ◌≡◌, refl, arith, if_cases,
  is_blank, not, contains,
}
use frame_tv_art_manager.Prelude.Dict.{insert}
use frame_tv_art_manager.Samsung.Types.{Observation}
use frame_tv_art_manager.Reconcile.Types.{State, Pending, CommandKind}
use frame_tv_art_manager.Reconcile.Errors.{Result, ok, err, Cause}
use frame_tv_art_manager.Reconcile.Recovery.{
  forget_owned, forget_unknown, upload_binding, fold_upload_binding, resolve_pending,
  resolve_pending?, resolve_operation, resolve_applied_receipt, resolve_observed, resolve_upload,
  resolve_deletion, settle, settle_if, needs_recovery, proven_content, applied_content, is_applied,
}

-- What an operation settles into, or recovery is required.
abbrev pub IsIdle : State → Result State → Type 0
IsIdle s (ok r) = (r.pending ≡ none) × (r.revision ≡ s.revision)
IsIdle s (err e) = e ≡ Cause.recovery_required ∷ []

settle_if-IsIdle : (b : Bool) (s : State) → IsIdle s (settle_if b s)
settle_if-IsIdle b s =
    if_cases (IsIdle s) b (ok (settle s)) needs_recovery (λ _. (refl, refl)) (λ _. refl)

applied-IsIdle :
    (s : State) (p : Pending) (id : Text) (kind : CommandKind) (o : Observation) (now : ℕ)
    → IsIdle s (resolve_applied_receipt s p id kind o now)
unfolding resolve_applied_receipt fold_upload_binding record_shown
applied-IsIdle s p id CommandKind.upload o now =
    if_cases (IsIdle s) (is_blank id) needs_recovery _ (λ _. refl) (λ _. (refl, refl))
applied-IsIdle s p id CommandKind.delete_owned o now = (refl, refl)
applied-IsIdle s p id CommandKind.delete_unknown o now = (refl, refl)
applied-IsIdle s p id CommandKind.select o now = (refl, refl)
applied-IsIdle s p id CommandKind.slideshow o now = (refl, refl)
applied-IsIdle s p id CommandKind.brightness o now = (refl, refl)
applied-IsIdle s p id CommandKind.power_off o now = (refl, refl)
applied-IsIdle s p id CommandKind.wake o now = (refl, refl)
applied-IsIdle s p id (CommandKind.unknown_kind t) o now = refl

upload-IsIdle :
    (s : State) (p : Pending) (id : Option Text) (o : Observation) (now : ℕ)
    → IsIdle s (resolve_upload s p id o now)
unfolding resolve_upload
upload-IsIdle s p none o now = refl
upload-IsIdle s p (some id) o now =
    if_cases (IsIdle s)
      (o.inventory.known && not (is_blank id) && contains Text-discrete o.inventory.content_ids id)
      (ok (
        settle
          (record s { bindings = insert p.command.digest (upload_binding p id now) s.bindings })))
      needs_recovery (λ _. (refl, refl)) (λ _. refl)

deletion-IsIdle :
    (s : State) (p : Pending) (forget : State) (o : Observation)
    → forget.revision ≡ s.revision
    → IsIdle s (resolve_deletion s p forget o)
unfolding resolve_deletion
deletion-IsIdle s p forget o q =
    if_cases (IsIdle s) (not o.inventory.known) needs_recovery _ (λ _. refl)
      (λ _.
        if_cases (IsIdle s) (contains Text-discrete o.inventory.content_ids p.command.content_id) _
          (ok (settle forget))
          (λ _.
            if_cases (IsIdle s) (is_applied p.phase) needs_recovery (ok (settle s)) (λ _. refl)
              (λ _. (refl, refl)))
          (λ _. (refl, q)))

observed-IsIdle :
    (s : State) (p : Pending) (kind : CommandKind) (o : Observation) (now : ℕ)
    → IsIdle s (resolve_observed s p kind o now)
unfolding resolve_observed record_shown
observed-IsIdle s p CommandKind.upload o now = upload-IsIdle s p (applied_content p.receipt) o now
observed-IsIdle s p CommandKind.delete_owned o now =
    deletion-IsIdle s p (forget_owned s p.command.digest p.command.content_id now) o refl
observed-IsIdle s p CommandKind.delete_unknown o now =
    deletion-IsIdle s p (forget_unknown s p.command.content_id) o refl
observed-IsIdle s p CommandKind.select o now = refl
observed-IsIdle s p CommandKind.slideshow o now = settle_if-IsIdle _ s
observed-IsIdle s p CommandKind.brightness o now = settle_if-IsIdle _ s
observed-IsIdle s p CommandKind.power_off o now = settle_if-IsIdle _ s
observed-IsIdle s p CommandKind.wake o now = settle_if-IsIdle _ s
observed-IsIdle s p (CommandKind.unknown_kind t) o now = refl

operation-IsIdle :
    (s : State) (p : Pending) (id : Option Text) (o : Observation) (now : ℕ)
    → IsIdle s (resolve_operation s p id o now)
unfolding resolve_operation
operation-IsIdle s p none o now = observed-IsIdle s p p.command.kind o now
operation-IsIdle s p (some id) o now = applied-IsIdle s p id p.command.kind o now

pending-IsIdle :
    (s : State) (p : Option Pending) (o : Observation) (now : ℕ)
    → s.pending ≡ p
    → IsIdle s (resolve_pending? s p o now)
unfolding resolve_pending?
pending-IsIdle s none o now e = (e, refl)
pending-IsIdle s (some p) o now e = operation-IsIdle s p (proven_content p) o now

pub resolve_pending-IsIdle :
    (s : State) (o : Observation) (now : ℕ) → IsIdle s (resolve_pending s o now)
unfolding resolve_pending
resolve_pending-IsIdle s o now = pending-IsIdle s s.pending o now refl

IsIdle-ok : (s : State) (x : Result State) (r : State) → IsIdle s x → x ≡ ok r → r.pending ≡ none
IsIdle-ok s (ok q) r h e = ground arith
IsIdle-ok s (err q) r h e = absurd (ground arith)

pub resolve_pending-idle :
    (s : State) (o : Observation) (now : ℕ) (r : State)
    → resolve_pending s o now ≡ ok r
    → r.pending ≡ none
resolve_pending-idle s o now r e =
    IsIdle-ok s (resolve_pending s o now) r (resolve_pending-IsIdle s o now) e
