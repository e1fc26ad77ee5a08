-- ===== src/Reconcile/Plan/Classify.antt =====
-- What the planner's first two loops find out, as facts about the state and the inventory.
use frame_tv_art_manager.Prelude.{
  ℕ, ◌+◌, Text, ◌≡◌, ◌≢◌, refl, true, false, List, [], ◌∷◌, All, arith, length, Bool-cases, inl,
  inr,
}
use frame_tv_art_manager.Prelude.Dict.{Dict, Entries, lookup, has_key, lookup-insert}
use frame_tv_art_manager.Collection.Types.{Item}
use frame_tv_art_manager.Reconcile.Types.{Binding, State}
use frame_tv_art_manager.Reconcile.Planner.{classify, waiting_items, on_tv, is_bound_on_tv}
use frame_tv_art_manager.Reconcile.Rotation.{WaitingArtwork}

module _ (ids : List Text) (wanted : Dict Item) where
  -- Owned artwork is bound, on the TV and wanted.
  pub classify-owned {κ} :
      (P : Binding → Type κ) (m : Dict Binding)
      → Entries (λ k b. on_tv ids b.content_id ≡ true → has_key k wanted ≡ true → P b) m
      → All P (classify ids wanted m).owned
  unfolding classify
  classify-owned P [] h = tt
  classify-owned P ((k, b) ∷ m) h = elim (Bool-cases (on_tv ids b.content_id)) [
    | inl on ↦ elim (Bool-cases (has_key k wanted)) [
      | inl want ↦ rw (on, want) (h.0 on want, classify-owned P m h.1)
      | inr other ↦ rw (on, other) (classify-owned P m h.1)
    ]
    | inr away ↦ rw away (classify-owned P m h.1)
  ]

  -- Obsolete artwork is bound, on the TV and not wanted.
  pub classify-obsolete {κ} :
      (P : Binding → Type κ) (m : Dict Binding)
      → Entries (λ k b. on_tv ids b.content_id ≡ true → has_key k wanted ≡ false → P b) m
      → All P (classify ids wanted m).obsolete
  unfolding classify
  classify-obsolete P [] h = tt
  classify-obsolete P ((k, b) ∷ m) h = elim (Bool-cases (on_tv ids b.content_id)) [
    | inl on ↦ elim (Bool-cases (has_key k wanted)) [
      | inl want ↦ rw (on, want) (classify-obsolete P m h.1)
      | inr other ↦ rw (on, other) (h.0 on other, classify-obsolete P m h.1)
    ]
    | inr away ↦ rw away (classify-obsolete P m h.1)
  ]

  -- A content ID on the TV that is not among the bound ones belongs to no binding.
  pub classify-unbound :
      (m : Dict Binding) (id : Text)
      → on_tv ids id ≡ true
      → has_key id (classify ids wanted m).bound ≡ false
      → Entries (λ k b. b.content_id ≢ id) m
  unfolding classify
  classify-unbound [] id on h = tt
  classify-unbound ((k, b) ∷ m) id on h = (
    ground (arith, lookup-insert b.content_id id k (classify ids wanted m).bound),
    classify-unbound m id on
        (ground (arith, lookup-insert b.content_id id k (classify ids wanted m).bound)),
  )

  -- Every binding is pruned, owned or obsolete.
  pub length-classify :
      (m : Dict Binding)
      → length (classify ids wanted m).prune
          + (length (classify ids wanted m).owned + length (classify ids wanted m).obsolete)
        ≡ length m
  unfolding classify
  length-classify [] = refl
  length-classify ((k, b) ∷ m) = ground (arith, length-classify m)

-- Waiting artwork is in the collection, and not on the TV.
pub waiting_items-All {κ} :
    (ids : List Text) (s : State) (P : WaitingArtwork → Type κ) (m : Dict Item)
    → Entries
        (λ k item.
          is_bound_on_tv ids (lookup k s.bindings) ≡ false
          → (t : ℕ) → P (record { item = item; digest = k; last_shown = t }))
        m
    → All P (waiting_items ids s m)
unfolding waiting_items
waiting_items-All ids s P [] h = tt
waiting_items-All ids s P ((k, item) ∷ m) h =
    elim (Bool-cases (is_bound_on_tv ids (lookup k s.bindings))) [
      | inl on ↦ rw on (waiting_items-All ids s P m h.1)
      | inr away ↦ rw away (h.0 away _, waiting_items-All ids s P m h.1)
    ]
