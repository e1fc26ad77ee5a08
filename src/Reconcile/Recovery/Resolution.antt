-- ===== src/Reconcile/Recovery/Resolution.antt =====
-- `resolvePending` on a valid state.
use frame_tv_art_manager.Reconcile.Errors.{Result, ok, err}
use frame_tv_art_manager.Prelude.{
  ℕ, Text, ◌≡◌, ◌<◌, refl, true, false, arith, none, some, subst, Option,
}
use frame_tv_art_manager.Prelude.Dict.{Entries, HasUniqueKeys}
use frame_tv_art_manager.Samsung.Types.{Observation}
use frame_tv_art_manager.Reconcile.Types.{State, TvIdentity, Pending}
use frame_tv_art_manager.Reconcile.Validate.{state_valid, pending_valid?}
use frame_tv_art_manager.Reconcile.Recovery.{resolve_pending?, proven_content, resolve_pending}
use frame_tv_art_manager.Reconcile.Recovery.Validity.{state_valid-Checked}
use frame_tv_art_manager.Reconcile.Recovery.Operations.{
  operation-IsFine, OnOk, IsKnownOrProven, IsTrimmed,
}

abbrev pending_content : Option Pending → Option Text
pending_content none = none
pending_content (some p) = proven_content p

-- The receipt of a pending operation names a trimmed content ID, as the TV's inventory does.
abbrev pub HasTrimmedContent : State → Type 0
HasTrimmedContent s = IsTrimmed (pending_content s.pending)

OnOk-ok : (P : State → Type 0) (x : Result State) (r : State) → OnOk P x → x ≡ ok r → P r
OnOk-ok P (ok q) r h e = subst P (ground arith) h
OnOk-ok P (err q) r h e = absurd (ground arith)

-- The bindings of the settled state, by what was pending.
abbrev pub IsExplained : State → Option Pending → State → Type 0
IsExplained s none r = r.bindings ≡ s.bindings
IsExplained s (some pending) r = Entries (IsKnownOrProven s pending) r.bindings

pending-OnOk :
    (s : State) (tv : TvIdentity) (o : Observation) (now : ℕ) (p : Option Pending)
    → s.pending ≡ p
    → state_valid s tv ≡ true
    → HasUniqueKeys s.bindings
    → s.legacy_migration_pending ≡ false
    → 0 < now
    → HasTrimmedContent s
    → OnOk
        (λ r. (state_valid r tv ≡ true) × (r.pending ≡ none) × IsExplained s p r)
        (resolve_pending? s p o now)
unfolding resolve_pending?
pending-OnOk s tv o now none e v u l t c = (v, e, refl)
pending-OnOk s tv o now (some p) e v u l t c =
    operation-IsFine s tv p o now
      (record {
        valid = v;
        unique = u;
        migrated = l;
        time = t;
        operation = subst (λ q. pending_valid? q ≡ true) e (state_valid-Checked s tv v).pending;
      })
      (proven_content p) refl (subst (λ q. IsTrimmed (pending_content q)) e c)

-- Settling the pending operation of a state that `validateState` accepts gives a state that it
-- accepts, with no pending operation, whatever the observation shows. Each of its bindings was bound
-- before, or binds the operation's digest to the content ID that an applied receipt names. The state
-- is migrated, the clock is set, and the receipt's content ID is trimmed.
pub resolve_pending-IsValid :
    (s : State) (tv : TvIdentity) (o : Observation) (now : ℕ) (r : State)
    → state_valid s tv ≡ true
    → HasUniqueKeys s.bindings
    → s.legacy_migration_pending ≡ false
    → 0 < now
    → HasTrimmedContent s
    → resolve_pending s o now ≡ ok r
    → (state_valid r tv ≡ true) × (r.pending ≡ none) × IsExplained s s.pending r
unfolding resolve_pending
resolve_pending-IsValid s tv o now r v u l t c e =
    OnOk-ok _ (resolve_pending? s s.pending o now) r
      (pending-OnOk s tv o now s.pending refl v u l t c) e
