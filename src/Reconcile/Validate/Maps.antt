-- ===== src/Reconcile/Validate/Maps.antt =====
-- What the checks of `validateState` say of the three maps of a state, entry by entry, and how the
-- changes to a map keep it.
use frame_tv_art_manager.Prelude.{
  refl, Text, Text-discrete, ◌=ₜ◌, ◌≡◌, ◌≢◌, ◌↔◌, ◌⊎◌, inl, inr, Bool, true, false, List, [], ◌∷◌,
  arith, contains, Bool-cases, none,
}
use frame_tv_art_manager.Prelude.Dict.{
  Dict, Entries, Entries-imp, Entries-and, HasUniqueKeys, lookup, insert, delete, delete_where,
  insert-Entries, delete-Entries, delete_where-Entries,
}
use frame_tv_art_manager.Reconcile.Types.{Binding}
use frame_tv_art_manager.Reconcile.Validate.{binding_valid, bindings_valid}

-- No content ID is bound twice.
abbrev pub HasDistinctContents : Dict Binding → Type 0
HasDistinctContents [] = Unit
HasDistinctContents ((k, b) ∷ m) =
    Entries (λ j c. c.content_id ≢ b.content_id) m × HasDistinctContents m

abbrev pub IsValidBinding : Text → Binding → Type 0
IsValidBinding k b = binding_valid k b ≡ true

-- What the loop over the bindings accepts, `seen` aside.
abbrev IsFresh : List Text → Text → Binding → Type 0
IsFresh seen k b = contains Text-discrete seen b.content_id ≡ false

IsFresh-cons :
    (seen : List Text) (id : Text) (m : Dict Binding)
    → Entries (IsFresh (id ∷ seen)) m
      ↔ (Entries (λ j c. c.content_id ≢ id) m × Entries (IsFresh seen) m)
unfolding contains
IsFresh-cons seen id [] = ground arith
IsFresh-cons seen id ((k, b) ∷ m) = ground (arith, IsFresh-cons seen id m)

bindings_valid_iff :
    (seen : List Text) (m : Dict Binding)
    → (bindings_valid seen m ≡ true)
      ↔ (Entries IsValidBinding m × HasDistinctContents m × Entries (IsFresh seen) m)
unfolding bindings_valid
bindings_valid_iff seen [] = ground arith
bindings_valid_iff seen ((k, b) ∷ m) =
    ground (arith, bindings_valid_iff (b.content_id ∷ seen) m, IsFresh-cons seen b.content_id m)

IsFresh-nil : (m : Dict Binding) → Entries (IsFresh []) m
unfolding contains
IsFresh-nil [] = tt
IsFresh-nil ((k, b) ∷ m) = (refl, IsFresh-nil m)

pub bindings_valid-Entries :
    (m : Dict Binding)
    → bindings_valid [] m ≡ true
    → Entries IsValidBinding m × HasDistinctContents m
bindings_valid-Entries m h = ground (arith, bindings_valid_iff [] m)

pub bindings_valid_of_Entries :
    (m : Dict Binding)
    → Entries IsValidBinding m
    → HasDistinctContents m
    → bindings_valid [] m ≡ true
bindings_valid_of_Entries m v d = ground (arith, bindings_valid_iff [] m, IsFresh-nil m)

keys-differ : {V : Type 0} (k : Text) (m : Dict V) → lookup k m ≡ none → Entries (λ j v. j ≢ k) m
unfolding lookup
keys-differ k [] h = tt
keys-differ k ((j, w) ∷ m) h = (ground arith, keys-differ k m (ground arith))

-- Binding a content ID keeps them distinct, if no other digest has it.
pub insert-HasDistinctContents :
    (k : Text) (b : Binding) (m : Dict Binding)
    → HasUniqueKeys m
    → HasDistinctContents m
    → Entries (λ j c. (j ≡ k) ⊎ (c.content_id ≢ b.content_id)) m
    → HasDistinctContents (insert k b m)
unfolding insert
insert-HasDistinctContents k b [] u d f = (tt, tt)
insert-HasDistinctContents k b ((j, w) ∷ m) u d f = elim (Bool-cases (j =ₜ k)) [
  | inl e ↦ rw e (
    Entries-imp (λ i c. (i ≢ k) × ((i ≡ k) ⊎ (c.content_id ≢ b.content_id))) _
        (λ i c h. ground arith) m (Entries-and _ _ m (keys-differ k m (ground (arith, u.0))) f.1),
    d.1,
  )
  | inr e ↦ rw e (
    insert-Entries (λ i c. c.content_id ≢ w.content_id) k b m (ground arith) d.0,
    insert-HasDistinctContents k b m u.1 d.1 f.1,
  )
]

pub delete_where-HasDistinctContents :
    (p : Text → Binding → Bool) (m : Dict Binding)
    → HasDistinctContents m
    → HasDistinctContents (delete_where p m)
unfolding delete_where
delete_where-HasDistinctContents p [] d = tt
delete_where-HasDistinctContents p ((j, w) ∷ m) d = ground (
  arith,
  delete_where-HasDistinctContents p m d.1,
  delete_where-Entries (λ i c. c.content_id ≢ w.content_id) p m d.0,
)

pub delete-HasDistinctContents :
    (k : Text) (m : Dict Binding) → HasDistinctContents m → HasDistinctContents (delete k m)
unfolding delete
delete-HasDistinctContents k [] d = tt
delete-HasDistinctContents k ((j, w) ∷ m) d = ground (
  arith,
  delete-HasDistinctContents k m d.1,
  delete-Entries (λ i c. c.content_id ≢ w.content_id) k m d.0,
)
