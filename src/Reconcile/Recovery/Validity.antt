-- ===== src/Reconcile/Recovery/Validity.antt =====
-- Settling a pending operation keeps the state one that `validateState` accepts.
use frame_tv_art_manager.Prelude.{
  length, ℕ, Text, Text-discrete, ◌=ₜ◌, ◌≡◌, ◌≢◌, ◌<◌, refl, ◌⊎◌, Bool, true, false, [], ◌∷◌, arith,
  contains, none, if_cases, ◌&&◌,
}
use frame_tv_art_manager.Prelude.Dict.{
  Dict, Entries, Entries-imp, HasUniqueKeys, insert, delete, delete_where, insert-Entries,
  delete-Entries, delete_where-Entries, delete_where-HasUniqueKeys,
}
use frame_tv_art_manager.Prelude.Hex.{valid_digest}
use frame_tv_art_manager.Samsung.Types.{Observation}
use frame_tv_art_manager.Reconcile.Types.{
  Binding, Tombstone, State, TvIdentity, Pending, CapacityEvidence,
}
use frame_tv_art_manager.Reconcile.Validate.{
  head_valid, tail_valid, pending_valid?, state_valid, bindings_valid, binding_valid,
  tombstones_valid, last_shown_valid, capacity_valid, evidence_valid,
}
use frame_tv_art_manager.Reconcile.Validate.Maps.{
  bindings_valid-Entries, bindings_valid_of_Entries, insert-HasDistinctContents,
  delete_where-HasDistinctContents, delete-HasDistinctContents,
}
use frame_tv_art_manager.Reconcile.Rotation.{record_shown}
use frame_tv_art_manager.Reconcile.Recovery.{
  measured, has_entry, fold_upload_binding, upload_binding, settle, forget_owned, forget_unknown,
  is_reused,
}

-- What settling an operation writes.
abbrev with_evidence : State → Dict Binding → Dict Tombstone → Dict ℕ → CapacityEvidence → State
with_evidence s bindings tombstones last_shown capacity = record s {
  bindings = bindings;
  tombstones = tombstones;
  last_shown = last_shown;
  capacity = capacity;
  pending = none;
}

evidence_valid_of :
    (s : State)
    → s.legacy_migration_pending ≡ false
    → last_shown_valid s.last_shown ≡ true
    → capacity_valid s.capacity ≡ true
    → evidence_valid s ≡ true
unfolding evidence_valid
evidence_valid_of s l h c = ground arith

all_six :
    (a b c d e f : Bool)
    → (a && (b && (c && (d && e))) && f) ≡ true
    → (a ≡ true) × (b ≡ true) × (c ≡ true) × (d ≡ true) × (e ≡ true) × (f ≡ true)
all_six a b c d e f h = ground arith

six_of :
    (a b c d e f : Bool)
    → (a ≡ true) × (b ≡ true) × (c ≡ true) × (d ≡ true) × (e ≡ true) × (f ≡ true)
    → (a && (b && (c && (d && e))) && f) ≡ true
six_of a b c d e f h = ground arith

-- The checks of `validateState`, one by one.
pub record Checked (s : State) (tv : TvIdentity) : Type 0 where
  head : head_valid s tv ≡ true
  pub bindings : bindings_valid [] s.bindings ≡ true
  tombstones : tombstones_valid s.tombstones ≡ true
  last_shown : last_shown_valid s.last_shown ≡ true
  capacity : capacity_valid s.capacity ≡ true
  pub pending : pending_valid? s.pending ≡ true
  tail : tail_valid s ≡ true

evidence_valid-parts :
    (s : State)
    → evidence_valid s ≡ true
    → (capacity_valid s.capacity ≡ true) × (last_shown_valid s.last_shown ≡ true)
unfolding evidence_valid
evidence_valid-parts s h = ground arith

pub state_valid-Checked : (s : State) (tv : TvIdentity) → state_valid s tv ≡ true → Checked s tv
unfolding state_valid
state_valid-Checked s tv v = record {
  head = p.0;
  bindings = p.1;
  tombstones = p.2;
  capacity = (evidence_valid-parts s p.3).0;
  last_shown = (evidence_valid-parts s p.3).1;
  pending = p.4;
  tail = p.5;
}
  where
    p :
        (head_valid s tv ≡ true)
        × (bindings_valid [] s.bindings ≡ true)
        × (tombstones_valid s.tombstones ≡ true)
        × (evidence_valid s ≡ true)
        × (pending_valid? s.pending ≡ true)
        × (tail_valid s ≡ true)
    p =
        all_six (head_valid s tv) (bindings_valid [] s.bindings) (tombstones_valid s.tombstones)
          (evidence_valid s) (pending_valid? s.pending) (tail_valid s) v

state_valid-with_evidence :
    (s : State) (tv : TvIdentity) (bindings : Dict Binding) (tombstones : Dict Tombstone)
    (last_shown : Dict ℕ) (capacity : CapacityEvidence)
    → state_valid s tv ≡ true
    → s.legacy_migration_pending ≡ false
    → bindings_valid [] bindings ≡ true
    → tombstones_valid tombstones ≡ true
    → last_shown_valid last_shown ≡ true
    → capacity_valid capacity ≡ true
    → state_valid (with_evidence s bindings tombstones last_shown capacity) tv ≡ true
unfolding state_valid
state_valid-with_evidence s tv bindings tombstones last_shown capacity v l b t h c =
    six_of (head_valid s tv) (bindings_valid [] bindings) (tombstones_valid tombstones)
      (evidence_valid (with_evidence s bindings tombstones last_shown capacity)) true (tail_valid s)
      (
        (state_valid-Checked s tv v).head,
        b,
        t,
        evidence_valid_of (with_evidence s bindings tombstones last_shown capacity) l h c,
        refl,
        (state_valid-Checked s tv v).tail,
      )

delete-tombstones_valid :
    (k : Text) (m : Dict Tombstone)
    → tombstones_valid m ≡ true
    → tombstones_valid (delete k m) ≡ true
unfolding tombstones_valid delete
delete-tombstones_valid k [] h = refl
delete-tombstones_valid k ((j, t) ∷ m) h = ground (arith, delete-tombstones_valid k m)

insert-last_shown_valid :
    (k : Text) (at : ℕ) (m : Dict ℕ)
    → valid_digest k ≡ true
    → 0 < at
    → last_shown_valid m ≡ true
    → last_shown_valid (insert k at m) ≡ true
unfolding last_shown_valid insert
insert-last_shown_valid k at [] d a h = ground arith
insert-last_shown_valid k at ((j, t) ∷ m) d a h = ground (arith, insert-last_shown_valid k at m)

delete-bindings_valid :
    (k : Text) (m : Dict Binding)
    → bindings_valid [] m ≡ true
    → bindings_valid [] (delete k m) ≡ true
delete-bindings_valid k m h =
    bindings_valid_of_Entries (delete k m) (delete-Entries _ k m (bindings_valid-Entries m h).0)
      (delete-HasDistinctContents k m (bindings_valid-Entries m h).1)

-- Once a content ID is taken from the digests that had it, a digest can be bound to it.
none-reused :
    (digest id : Text) (m : Dict Binding)
    → Entries (λ j c. (j ≡ digest) ⊎ (c.content_id ≢ id)) (delete_where (is_reused digest id) m)
unfolding delete_where
none-reused digest id [] = tt
none-reused digest id ((j, c) ∷ m) = ground (arith, none-reused digest id m)

rebind-bindings_valid :
    (digest id : Text) (b : Binding) (m : Dict Binding)
    → HasUniqueKeys m
    → bindings_valid [] m ≡ true
    → binding_valid digest b ≡ true
    → b.content_id ≡ id
    → bindings_valid [] (insert digest b (delete_where (is_reused digest id) m)) ≡ true
rebind-bindings_valid digest id b m u h v e =
    bindings_valid_of_Entries _
      (insert-Entries _ digest b _ v (delete_where-Entries _ _ m (bindings_valid-Entries m h).0))
      (insert-HasDistinctContents digest b _ (delete_where-HasUniqueKeys _ m u)
        (delete_where-HasDistinctContents _ m (bindings_valid-Entries m h).1)
        (Entries-imp _ _ (λ j c f. ground arith) _ (none-reused digest id m)))

measured-capacity_valid : (n now : ℕ) → 0 < now → capacity_valid (measured n now) ≡ true
unfolding capacity_valid
measured-capacity_valid n now t = ground arith

pub fold-state_valid :
    (s : State) (tv : TvIdentity) (pending : Pending) (id : Text) (o : Observation) (now : ℕ)
    → state_valid s tv ≡ true
    → HasUniqueKeys s.bindings
    → s.legacy_migration_pending ≡ false
    → 0 < now
    → binding_valid pending.command.digest (upload_binding pending id now) ≡ true
    → state_valid (settle (fold_upload_binding s pending id o now)) tv ≡ true
unfolding fold_upload_binding upload_binding
fold-state_valid s tv pending id o now v u l t b =
    state_valid-with_evidence s tv _ s.tombstones s.last_shown _ v l
      (rebind-bindings_valid pending.command.digest id (upload_binding pending id now) s.bindings u
        c.bindings b refl)
      c.tombstones c.last_shown
      (if_cases (λ e. capacity_valid e ≡ true)
        (has_entry (is_reused pending.command.digest id) s.bindings
          && o.inventory.known
          && pending.inventory_before =ₜ o.inventory.fingerprint
          && contains Text-discrete o.inventory.content_ids id)
        (measured (length o.inventory.content_ids) now) s.capacity
        (λ _. measured-capacity_valid (length o.inventory.content_ids) now t) (λ _. c.capacity))
  where
    c : Checked s tv
    c = state_valid-Checked s tv v

pub forget_owned-state_valid :
    (s : State) (tv : TvIdentity) (digest id : Text) (now : ℕ)
    → state_valid s tv ≡ true
    → s.legacy_migration_pending ≡ false
    → 0 < now
    → valid_digest digest ≡ true
    → state_valid (settle (forget_owned s digest id now)) tv ≡ true
unfolding record_shown
forget_owned-state_valid s tv digest id now v l t d =
    state_valid-with_evidence s tv _ _ _ s.capacity v l
      (delete-bindings_valid digest s.bindings c.bindings)
      (delete-tombstones_valid id s.tombstones c.tombstones)
      (insert-last_shown_valid digest now s.last_shown d t c.last_shown) c.capacity
  where
    c : Checked s tv
    c = state_valid-Checked s tv v

pub forget_unknown-state_valid :
    (s : State) (tv : TvIdentity) (id : Text)
    → state_valid s tv ≡ true
    → s.legacy_migration_pending ≡ false
    → state_valid (settle (forget_unknown s id)) tv ≡ true
forget_unknown-state_valid s tv id v l =
    state_valid-with_evidence s tv s.bindings _ s.last_shown s.capacity v l c.bindings
      (delete-tombstones_valid id s.tombstones c.tombstones) c.last_shown c.capacity
  where
    c : Checked s tv
    c = state_valid-Checked s tv v

pub settle-state_valid :
    (s : State) (tv : TvIdentity)
    → state_valid s tv ≡ true
    → s.legacy_migration_pending ≡ false
    → state_valid (settle s) tv ≡ true
settle-state_valid s tv v l =
    state_valid-with_evidence s tv s.bindings s.tombstones s.last_shown s.capacity v l c.bindings
      c.tombstones c.last_shown c.capacity
  where
    c : Checked s tv
    c = state_valid-Checked s tv v
