-- ===== src/Prelude/Dict.antt =====
-- Go maps with string keys, as association lists. `range` visits the list in its order; what the
-- program computes from a map does not depend on it where the code promises so.
use mathlib.Core.Path.{◌≡◌, refl, subst₂}
use mathlib.Core.Logic.{inl, inr}
use mathlib.Core.Bool.{Bool, true, false}
use mathlib.Core.Option.{Option, none, some}
use mathlib.Core.List.{List, [], ◌∷◌, map}
use native.Mathlib.Omega.{arith}
use frame_tv_art_manager.Prelude.Tests.{if◌then◌else◌, Bool-cases}
use frame_tv_art_manager.Prelude.Texts.{Text, Text-discrete, ◌=ₜ◌}

abbrev pub Dict {ℓ} : Type ℓ → Type ℓ
Dict V = List (Text × V)

abbrev pub is_some {ℓ} : {A : Type ℓ} → Option A → Bool
is_some none = false
is_some (some a) = true

module _ {ℓ} {V : Type ℓ} where
  -- `m[k]`, with `ok`.
  unfoldable pub lookup : Text → Dict V → Option V
  lookup k [] = none
  lookup k ((j, v) ∷ m) = if j =ₜ k then some v else lookup k m

  -- `m[k] = v`.
  unfoldable pub insert : Text → V → Dict V → Dict V
  insert k v [] = (k, v) ∷ []
  insert k v ((j, w) ∷ m) = if j =ₜ k then (k, v) ∷ m else (j, w) ∷ insert k v m

  -- `delete(m, k)`.
  unfoldable pub delete : Text → Dict V → Dict V
  delete k [] = []
  delete k ((j, w) ∷ m) = let r = delete k m in if j =ₜ k then r else (j, w) ∷ r

  -- Deletes the entries that the test finds, as a `range` loop with `delete` does.
  unfoldable pub delete_where : (Text → V → Bool) → Dict V → Dict V
  delete_where p [] = []
  delete_where p ((j, w) ∷ m) = let r = delete_where p m in if p j w then r else (j, w) ∷ r

  abbrev pub has_key : Text → Dict V → Bool
  has_key k m = is_some (lookup k m)

  abbrev pub keys : Dict V → List Text
  keys = map (λ e. e.0)

  -- Each key stands once, as in a map.
  abbrev pub HasUniqueKeys : Dict V → Type ℓ
  HasUniqueKeys [] = Unit
  HasUniqueKeys ((j, w) ∷ m) = (lookup j m ≡ none) × HasUniqueKeys m

  -- What holds of every entry.
  abbrev pub Entries {κ} : (Text → V → Type κ) → Dict V → Type κ
  Entries P [] = Unit
  Entries P ((j, w) ∷ m) = P j w × Entries P m

  pub lookup-insert :
      (k j : Text) (v : V) (m : Dict V)
      → lookup j (insert k v m) ≡ (if k =ₜ j then some v else lookup j m)
  unfolding lookup insert
  lookup-insert k j v [] = refl
  lookup-insert k j v ((i, w) ∷ m) = ground (arith, lookup-insert k j v m)

  pub lookup-delete :
      (k j : Text) (m : Dict V) → lookup j (delete k m) ≡ (if k =ₜ j then none else lookup j m)
  unfolding lookup delete
  lookup-delete k j [] = ground arith
  lookup-delete k j ((i, w) ∷ m) = ground (arith, lookup-delete k j m)

  lookup-delete_where-none :
      (p : Text → V → Bool) (j : Text) (m : Dict V)
      → lookup j m ≡ none
      → lookup j (delete_where p m) ≡ none
  unfolding lookup delete_where
  lookup-delete_where-none p j [] h = refl
  lookup-delete_where-none p j ((i, w) ∷ m) h = ground (arith, lookup-delete_where-none p j m)

  pub insert-HasUniqueKeys :
      (k : Text) (v : V) (m : Dict V) → HasUniqueKeys m → HasUniqueKeys (insert k v m)
  unfolding insert lookup
  insert-HasUniqueKeys k v [] u = (refl, tt)
  insert-HasUniqueKeys k v ((i, w) ∷ m) u =
      ground (arith, insert-HasUniqueKeys k v m, lookup-insert k i v m)

  pub delete-HasUniqueKeys : (k : Text) (m : Dict V) → HasUniqueKeys m → HasUniqueKeys (delete k m)
  unfolding delete
  delete-HasUniqueKeys k [] u = tt
  delete-HasUniqueKeys k ((i, w) ∷ m) u =
      ground (arith, delete-HasUniqueKeys k m, lookup-delete k i m)

  pub delete_where-HasUniqueKeys :
      (p : Text → V → Bool) (m : Dict V) → HasUniqueKeys m → HasUniqueKeys (delete_where p m)
  unfolding delete_where
  delete_where-HasUniqueKeys p [] u = tt
  delete_where-HasUniqueKeys p ((i, w) ∷ m) u =
      ground (arith, delete_where-HasUniqueKeys p m, lookup-delete_where-none p i m)

module _ {ℓ κ} {V : Type ℓ} (P : Text → V → Type κ) where
  pub Entries-lookup : (k : Text) (v : V) (m : Dict V) → Entries P m → lookup k m ≡ some v → P k v
  unfolding lookup
  Entries-lookup k v [] h e = absurd (none-ne-some e)
    where
      none-ne-some : ¬ (none ≡ some v)
      none-ne-some q = cc
  Entries-lookup k v ((j, w) ∷ m) h e = elim (Text-discrete j k) [
    | yes p ↦ subst₂ P p (hit p) h.0
    | no n ↦ Entries-lookup k v m h.1 (miss n)
  ]
    where
      hit : j ≡ k → w ≡ v
      hit p = ground arith

      miss : ¬ (j ≡ k) → lookup k m ≡ some v
      miss n = ground arith

  pub insert-Entries :
      (k : Text) (v : V) (m : Dict V) → P k v → Entries P m → Entries P (insert k v m)
  unfolding insert
  insert-Entries k v [] p h = (p, tt)
  insert-Entries k v ((j, w) ∷ m) p h = elim (Bool-cases (j =ₜ k)) [
    | inl e ↦ rw e (p, h.1)
    | inr e ↦ rw e (h.0, insert-Entries k v m p h.1)
  ]

  pub delete-Entries : (k : Text) (m : Dict V) → Entries P m → Entries P (delete k m)
  unfolding delete
  delete-Entries k [] h = tt
  delete-Entries k ((j, w) ∷ m) h = elim (Bool-cases (j =ₜ k)) [
    | inl e ↦ rw e (delete-Entries k m h.1)
    | inr e ↦ rw e (h.0, delete-Entries k m h.1)
  ]

  pub delete_where-Entries :
      (p : Text → V → Bool) (m : Dict V) → Entries P m → Entries P (delete_where p m)
  unfolding delete_where
  delete_where-Entries p [] h = tt
  delete_where-Entries p ((j, w) ∷ m) h = elim (Bool-cases (p j w)) [
    | inl e ↦ rw e (delete_where-Entries p m h.1)
    | inr e ↦ rw e (h.0, delete_where-Entries p m h.1)
  ]

module _ {ℓ κ μ} {V : Type ℓ} (P : Text → V → Type κ) (Q : Text → V → Type μ) where
  pub Entries-imp : ((k : Text) (v : V) → P k v → Q k v) → (m : Dict V) → Entries P m → Entries Q m
  Entries-imp f [] h = tt
  Entries-imp f ((j, w) ∷ m) h = (f j w h.0, Entries-imp f m h.1)

  pub Entries-and : (m : Dict V) → Entries P m → Entries Q m → Entries (λ k v. P k v × Q k v) m
  Entries-and [] h i = tt
  Entries-and ((j, w) ∷ m) h i = ((h.0, i.0), Entries-and m h.1 i.1)

module _ {ℓ} {V : Type ℓ} where
  -- In a map each entry is what a lookup of its key finds.
  pub Entries-self : (m : Dict V) → HasUniqueKeys m → Entries (λ k v. lookup k m ≡ some v) m
  unfolding lookup
  Entries-self [] u = tt
  Entries-self ((j, w) ∷ m) u = (
    ground arith,
    Entries-imp (λ k v. lookup k m ≡ some v) _ (λ k v e. ground arith) m (Entries-self m u.1),
  )

pub ruleset map_laws = (lookup-insert, lookup-delete)
