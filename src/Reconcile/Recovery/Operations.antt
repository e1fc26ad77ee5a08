-- ===== src/Reconcile/Recovery/Operations.antt =====
-- internal/reconcile/execution.go: what `resolveOperation` and its branches make of a valid state.
use frame_tv_art_manager.Reconcile.Recovery.Facts.{
  intent_as, deletion-digest, upload-binding_valid, phase-valid, unproven-content,
}
use frame_tv_art_manager.Reconcile.Errors.{Result, ok, err}
use frame_tv_art_manager.Prelude.{
  inl, inr, ◌⊎◌, ℕ, Text, Text-discrete, ◌≡◌, ◌<◌, refl, Bool, true, false, contains, none, some,
  is_blank, is_trimmed, Option, if_cases, not, if◌then◌else◌,
}
use frame_tv_art_manager.Prelude.Dict.{
  Entries, Entries-imp, Entries-self, lookup, insert-Entries, delete-Entries, delete_where,
  delete_where-Entries, HasUniqueKeys,
}
use frame_tv_art_manager.Samsung.Types.{Observation}
use frame_tv_art_manager.Reconcile.Types.{Binding, State, TvIdentity, Pending, CommandKind}
use frame_tv_art_manager.Reconcile.Validate.{state_valid, pending_valid, intent_valid_as}
use frame_tv_art_manager.Reconcile.Rotation.{record_shown}
use frame_tv_art_manager.Reconcile.Recovery.{
  is_reused, needs_recovery, applied_content, is_applied, proven_content, settle_if,
  resolve_operation, resolve_applied_receipt, resolve_observed, resolve_upload, resolve_deletion,
  fold_upload_binding, upload_binding, settle, forget_owned, forget_unknown,
}
use frame_tv_art_manager.Reconcile.Recovery.Validity.{
  fold-state_valid, forget_owned-state_valid, forget_unknown-state_valid, settle-state_valid,
}

-- What holds of a state that an operation settled into.
abbrev pub OnOk : (State → Type 0) → Result State → Type 0
OnOk P (ok r) = P r
OnOk P (err e) = Unit

-- A binding that was there, or the one that the receipt proves.
abbrev pub IsKnownOrProven : State → Pending → Text → Binding → Type 0
IsKnownOrProven s pending k b =
    (lookup k s.bindings ≡ some b)
    ⊎ ((k ≡ pending.command.digest) × (proven_content pending ≡ some b.content_id))

abbrev pub IsTrimmed : Option Text → Type 0
IsTrimmed none = Unit
IsTrimmed (some id) = is_trimmed id ≡ true

-- The facts that a settlement starts from.
pub record Start (s : State) (tv : TvIdentity) (pending : Pending) (now : ℕ) : Type 0 where
  pub valid : state_valid s tv ≡ true
  pub unique : HasUniqueKeys s.bindings
  pub migrated : s.legacy_migration_pending ≡ false
  pub time : 0 < now
  pub operation : pending_valid pending ≡ true

module _ (s : State) (tv : TvIdentity) (pending : Pending) (o : Observation) (now : ℕ)
    (h : Start s tv pending now) where
  abbrev IsFine : Result State → Type 0
  IsFine = OnOk (λ r.
      (state_valid r tv ≡ true)
      × (r.pending ≡ none)
      × Entries (IsKnownOrProven s pending) r.bindings)

  all-known : Entries (IsKnownOrProven s pending) s.bindings
  all-known =
      Entries-imp (λ k b. lookup k s.bindings ≡ some b) _ (λ k b. inl) s.bindings
        (Entries-self s.bindings h.unique)

  fold-known :
      (id : Text)
      → proven_content pending ≡ some id
      → Entries (IsKnownOrProven s pending) (fold_upload_binding s pending id o now).bindings
  unfolding fold_upload_binding upload_binding
  fold-known id e =
      insert-Entries _ pending.command.digest (upload_binding pending id now)
        (delete_where (is_reused pending.command.digest id) s.bindings) (inr (refl, e))
        (delete_where-Entries _ (is_reused pending.command.digest id) s.bindings all-known)

  fold-IsFine :
      (id : Text)
      → intent_valid_as CommandKind.upload pending.command ≡ true
      → is_trimmed id ≡ true
      → proven_content pending ≡ some id
      → IsFine (
          if is_blank id
          then needs_recovery
          else ok (settle (fold_upload_binding s pending id o now)))
  fold-IsFine id i t e =
      if_cases IsFine (is_blank id) needs_recovery
        (ok (settle (fold_upload_binding s pending id o now))) (λ _. tt)
        (λ b. (
          fold-state_valid s tv pending id o now h.valid h.unique h.migrated h.time
              (upload-binding_valid pending id now h.operation i b t h.time),
          refl,
          fold-known id e,
        ))

  forget_owned-known :
      Entries
        (IsKnownOrProven s pending)
        (forget_owned s pending.command.digest pending.command.content_id now).bindings
  unfolding record_shown
  forget_owned-known = delete-Entries _ pending.command.digest s.bindings all-known

  owned-IsFine :
      intent_valid_as CommandKind.delete_owned pending.command ≡ true
      → IsFine (ok (settle (forget_owned s pending.command.digest pending.command.content_id now)))
  owned-IsFine i = (
    forget_owned-state_valid s tv pending.command.digest pending.command.content_id now h.valid
        h.migrated h.time (deletion-digest pending.command i),
    refl,
    forget_owned-known,
  )

  unknown-IsFine : IsFine (ok (settle (forget_unknown s pending.command.content_id)))
  unknown-IsFine = (
    forget_unknown-state_valid s tv pending.command.content_id h.valid h.migrated,
    refl,
    all-known,
  )

  settle-IsFine : IsFine (ok (settle s))
  settle-IsFine = (settle-state_valid s tv h.valid h.migrated, refl, all-known)

  settle_if-IsFine : (b : Bool) → IsFine (settle_if b s)
  settle_if-IsFine b =
      if_cases IsFine b (ok (settle s)) needs_recovery (λ _. settle-IsFine) (λ _. tt)

  applied-IsFine :
      (kind : CommandKind) (id : Text)
      → intent_valid_as kind pending.command ≡ true
      → is_trimmed id ≡ true
      → proven_content pending ≡ some id
      → IsFine (resolve_applied_receipt s pending id kind o now)
  unfolding resolve_applied_receipt
  applied-IsFine CommandKind.upload id i t e = fold-IsFine id i t e
  applied-IsFine CommandKind.delete_owned id i t e = owned-IsFine i
  applied-IsFine CommandKind.delete_unknown id i t e = unknown-IsFine
  applied-IsFine CommandKind.select id i t e = settle-IsFine
  applied-IsFine CommandKind.slideshow id i t e = settle-IsFine
  applied-IsFine CommandKind.brightness id i t e = settle-IsFine
  applied-IsFine CommandKind.power_off id i t e = settle-IsFine
  applied-IsFine CommandKind.wake id i t e = settle-IsFine
  applied-IsFine (CommandKind.unknown_kind k) id i t e = tt

  deletion-IsFine :
      (forget : State) → IsFine (ok (settle forget)) → IsFine (resolve_deletion s pending forget o)
  unfolding resolve_deletion
  deletion-IsFine forget f =
      if_cases IsFine (not o.inventory.known) needs_recovery _ (λ _. tt)
        (λ _.
          if_cases IsFine
            (contains Text-discrete o.inventory.content_ids pending.command.content_id) _
            (ok (settle forget))
            (λ _.
              if_cases IsFine (is_applied pending.phase) needs_recovery (ok (settle s)) (λ _. tt)
                (λ _. settle-IsFine))
            (λ _. f))

  upload-IsFine :
      proven_content pending ≡ none
      → IsFine (resolve_upload s pending (applied_content pending.receipt) o now)
  unfolding resolve_upload
  upload-IsFine e =
      rw (unproven-content pending.phase pending.receipt (phase-valid pending h.operation) e) tt

  observed-IsFine :
      (kind : CommandKind)
      → intent_valid_as kind pending.command ≡ true
      → proven_content pending ≡ none
      → IsFine (resolve_observed s pending kind o now)
  unfolding resolve_observed resolve_upload
  observed-IsFine CommandKind.upload i e = upload-IsFine e
  observed-IsFine CommandKind.delete_owned i e =
      deletion-IsFine (forget_owned s pending.command.digest pending.command.content_id now)
        (owned-IsFine i)
  observed-IsFine CommandKind.delete_unknown i e =
      deletion-IsFine (forget_unknown s pending.command.content_id) unknown-IsFine
  observed-IsFine CommandKind.select i e = tt
  observed-IsFine CommandKind.slideshow i e = settle_if-IsFine _
  observed-IsFine CommandKind.brightness i e = settle_if-IsFine _
  observed-IsFine CommandKind.power_off i e = settle_if-IsFine _
  observed-IsFine CommandKind.wake i e = settle_if-IsFine _
  observed-IsFine (CommandKind.unknown_kind k) i e = tt

  pub operation-IsFine :
      (content : Option Text)
      → proven_content pending ≡ content
      → IsTrimmed content
      → IsFine (resolve_operation s pending content o now)
  unfolding resolve_operation
  operation-IsFine none e t = observed-IsFine pending.command.kind (intent_as pending h.operation) e
  operation-IsFine (some id) e t =
      applied-IsFine pending.command.kind id (intent_as pending h.operation) t e
