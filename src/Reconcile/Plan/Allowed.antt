-- ===== src/Reconcile/Plan/Allowed.antt =====
-- The commands of a whole plan: what each of them may do.
use frame_tv_art_manager.Prelude.{
  and_parts, false_of_not, All-imp, All, Text, ◌≡◌, sym, subst, refl, true, List, [], ◌∷◌, some,
}
use frame_tv_art_manager.Prelude.Hex.{hex_encode}
use frame_tv_art_manager.Prelude.Dict.{
  Dict, Entries, Entries-self, Entries-and, Entries-imp, HasUniqueKeys, insert,
  insert-HasUniqueKeys, lookup,
}
use frame_tv_art_manager.Collection.Types.{Item, Snapshot}
use frame_tv_art_manager.Samsung.Types.{Observation}
use frame_tv_art_manager.Reconcile.Types.{Binding, State, Policy}
use frame_tv_art_manager.Reconcile.Rotation.{WaitingArtwork}
use frame_tv_art_manager.Reconcile.Planner.{
  delete_owned_intent, desired_items, waiting_items, on_tv, upload_intent,
}
use frame_tv_art_manager.Reconcile.Plan.{plan_commands, desired, classified, inventory_ids}
use frame_tv_art_manager.Reconcile.Plan.Classify.{
  classify-unbound, classify-owned, classify-obsolete, waiting_items-All,
}
use frame_tv_art_manager.Reconcile.Plan.Ownership.{IsAllowed, Deletable, Uploadable}
use frame_tv_art_manager.Reconcile.Plan.Phases.{Phases, plan_commands-All}

desired_items-HasUniqueKeys :
    (m : Dict Item) (items : List Item) → HasUniqueKeys m → HasUniqueKeys (desired_items m items)
unfolding desired_items
desired_items-HasUniqueKeys m [] u = u
desired_items-HasUniqueKeys m (item ∷ rest) u =
    desired_items-HasUniqueKeys (insert (hex_encode item.digest) item m) rest
      (insert-HasUniqueKeys (hex_encode item.digest) item m u)

-- What `validateState` checks of the binding map's keys.
abbrev pub IsKeyed : Dict Binding → Type 0
IsKeyed m = HasUniqueKeys m × Entries (λ k b. b.digest ≡ k) m

module _ (snapshot : Snapshot) (observation : Observation) (state : State) (policy : Policy) where
  bindings-Deletable :
      IsKeyed state.bindings
      → Entries
          (λ k b.
            on_tv (inventory_ids snapshot observation state policy) b.content_id ≡ true
            → Deletable snapshot observation state policy b)
          state.bindings
  bindings-Deletable keyed =
      Entries-imp (λ k b. (lookup k state.bindings ≡ some b) × (b.digest ≡ k)) _
        (λ k b h on. (subst (λ d. lookup d state.bindings ≡ some b) (sym h.1) h.0, on))
        state.bindings
        (Entries-and _ _ state.bindings (Entries-self state.bindings keyed.0) keyed.1)

  owned-Deletable :
      IsKeyed state.bindings
      → All
          (Deletable snapshot observation state policy)
          (classified snapshot observation state policy).owned
  owned-Deletable keyed =
      classify-owned observation.inventory.content_ids (desired snapshot observation state policy) _
        state.bindings
        (Entries-imp _ _ (λ k b h on want. h on) state.bindings (bindings-Deletable keyed))

  obsolete-Deletable :
      IsKeyed state.bindings
      → All
          (Deletable snapshot observation state policy)
          (classified snapshot observation state policy).obsolete
  obsolete-Deletable keyed =
      classify-obsolete observation.inventory.content_ids
        (desired snapshot observation state policy) _ state.bindings
        (Entries-imp _ _ (λ k b h on other. h on) state.bindings (bindings-Deletable keyed))

  waiting-Uploadable : All (Uploadable snapshot observation state policy) (
      waiting_items observation.inventory.content_ids state
        (desired snapshot observation state policy))
  waiting-Uploadable =
      waiting_items-All observation.inventory.content_ids state _
        (desired snapshot observation state policy)
        (Entries-imp _ _ (λ k item e away t. (e, away)) (desired snapshot observation state policy)
          (Entries-self (desired snapshot observation state policy)
            (desired_items-HasUniqueKeys [] snapshot.items tt)))

  delete_owned-IsAllowed :
      (b : Binding)
      → Deletable snapshot observation state policy b
      → IsAllowed snapshot observation state policy (delete_owned_intent b)
  delete_owned-IsAllowed b h = (b, h.0, refl, h.1)

  upload-IsAllowed :
      (overrides : Dict Text) (w : WaitingArtwork)
      → Uploadable snapshot observation state policy w
      → IsAllowed snapshot observation state policy (upload_intent policy overrides w)
  unfolding upload_intent
  upload-IsAllowed overrides w h = (w.item, h.0, refl, refl, refl, h.1)

  phases :
      (overrides : Dict Text)
      → IsKeyed state.bindings
      → Phases
          (IsAllowed snapshot observation state policy)
          snapshot
          observation
          state
          policy
          overrides
  phases overrides keyed = record {
    owned = All-imp _ _ delete_owned-IsAllowed _ (owned-Deletable keyed);
    obsolete = All-imp _ _ delete_owned-IsAllowed _ (obsolete-Deletable keyed);
    waiting = All-imp _ _ (upload-IsAllowed overrides) _ waiting-Uploadable;
    unknown = λ r id on e. (r, refl, on, classify-unbound _ _ state.bindings id on e);
    selected = λ r digest b e on. (digest, b, r, e, refl, on);
    slideshow = λ e. (false_of_not _ (and_parts _ _ e).0, (and_parts _ _ (and_parts _ _ e).1).0);
    brightness = λ e. (false_of_not _ (and_parts _ _ e).0, (and_parts _ _ (and_parts _ _ e).1).0);
    power = λ e. e;
  }

-- `validateState` gives its hypothesis. A plan deletes only what is on the TV, and that is what
-- the TV's binding for the digest names, unless the operator lets foreign artwork go, which then
-- is bound nowhere; it uploads only collection artwork, under the collection's name, path and
-- size, that is not on the TV; it selects only bound artwork on the TV; and it leaves every
-- setting alone that the policy preserves or the TV did not report.
pub plan_commands-IsAllowed :
    (snapshot : Snapshot) (observation : Observation) (state : State) (policy : Policy)
    (overrides : Dict Text)
    → IsKeyed state.bindings
    → All
        (IsAllowed snapshot observation state policy)
        (plan_commands snapshot observation state policy overrides)
plan_commands-IsAllowed snapshot observation state policy overrides keyed =
    plan_commands-All (IsAllowed snapshot observation state policy) snapshot observation state
      policy overrides (phases snapshot observation state policy overrides keyed)
