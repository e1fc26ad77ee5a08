-- ===== src/Prelude/Sort.antt =====
-- `slices.SortFunc`: a sort by a comparison that returns an order. Where two elements compare equal
-- Go leaves their order open; the program's comparisons tell the elements that it sorts apart, and
-- then the result is unique (`sort_func-eq_of_perm`).
use Prim.Native.Nat.{ℕ, zero, suc, Ordering}
use mathlib.Core.Path.{◌≡◌, refl, ap, ap₂, subst, ◌∙◌}
use mathlib.Core.Logic.{◌≢◌}
use mathlib.Core.List.{List, [], ◌∷◌, Permᴰ}
use mathlib.Core.List.Permᴰ
use native.Mathlib.Omega.{arith}
use frame_tv_art_manager.Prelude.Lists.{take, drop, length}
use frame_tv_art_manager.Prelude.Every.{All-drop, All, All-imp}

abbrev pub flip : Ordering → Ordering
flip Ordering.lt = Ordering.gt
flip Ordering.eq = Ordering.eq
flip Ordering.gt = Ordering.lt

-- The order of `cmp.Or(a, b)`: by the first, then by the second.
abbrev pub or_order : Ordering → Ordering → Ordering
or_order Ordering.lt o = Ordering.lt
or_order Ordering.eq o = o
or_order Ordering.gt o = Ordering.gt

module _ {ℓ} {A : Type ℓ} (cmp : A → A → Ordering) where
  unfoldable pub insert_sorted : A → List A → List A
  insert_sorted x [] = x ∷ []
  insert_sorted x (y ∷ ys) = elim (cmp x y) [
    | Ordering.gt ↦ y ∷ insert_sorted x ys
    | _ ↦ x ∷ y ∷ ys
  ]

  unfoldable pub sort_func : List A → List A
  unfolding insert_sorted
  sort_func [] = []
  sort_func (x ∷ xs) = insert_sorted x (sort_func xs)

  -- A comparison that orders: turning it round, and going on from it, agree.
  pub record IsOrder : Type ℓ where
    pub flipped : (x y : A) → cmp y x ≡ flip (cmp x y)
    pub trans : (x y z : A) → cmp x y ≢ Ordering.gt → cmp y z ≢ Ordering.gt → cmp x z ≢ Ordering.gt

  -- Each element compares below all that follow it.
  abbrev pub IsSorted : List A → Type ℓ
  IsSorted [] = Unit
  IsSorted (x ∷ xs) = All (λ y. cmp x y ≢ Ordering.gt) xs × IsSorted xs

  -- No two elements compare equal.
  abbrev pub AreDistinct : List A → Type ℓ
  AreDistinct [] = Unit
  AreDistinct (x ∷ xs) = All (λ y. cmp x y ≢ Ordering.eq) xs × AreDistinct xs

-- A rearrangement keeps what holds of all.
pub All-perm {ℓ κ} :
    {A : Type ℓ} (P : A → Type κ) {xs ys : List A} → Permᴰ xs ys → All P xs → All P ys
All-perm P Permᴰ.nil h = tt
All-perm P (Permᴰ.cons e p) h = (subst P e h.0, All-perm P p h.1)
All-perm P (Permᴰ.swap e f) h = (subst P f h.1.0, (subst P e h.0, h.1.1))
All-perm P (Permᴰ.trans p q) h = All-perm P q (All-perm P p h)

module _ {ℓ} {A : Type ℓ} (cmp : A → A → Ordering) where
  pub All-insert_sorted {κ} :
      (P : A → Type κ) (x : A) (ys : List A) → P x → All P ys → All P (insert_sorted cmp x ys)
  unfolding insert_sorted
  All-insert_sorted P x [] hx h = (hx, tt)
  All-insert_sorted P x (y ∷ ys) hx h =
      elim (cmp x y)
        as (λ o. All P (elim o [ Ordering.gt ↦ y ∷ insert_sorted cmp x ys | _ ↦ x ∷ y ∷ ys ])) [
          | Ordering.gt ↦ (h.0, All-insert_sorted P x ys hx h.1)
          | _ ↦ (hx, h)
        ]

  pub All-sort_func {κ} : (P : A → Type κ) (xs : List A) → All P xs → All P (sort_func cmp xs)
  unfolding sort_func
  All-sort_func P [] h = tt
  All-sort_func P (x ∷ xs) h = All-insert_sorted P x (sort_func cmp xs) h.0 (All-sort_func P xs h.1)

  insert_sorted-perm : (x : A) (ys : List A) → Permᴰ (insert_sorted cmp x ys) (x ∷ ys)
  unfolding insert_sorted
  insert_sorted-perm x [] = Permᴰ.refl _
  insert_sorted-perm x (y ∷ ys) =
      elim (cmp x y)
        as (λ o.
          Permᴰ (elim o [ Ordering.gt ↦ y ∷ insert_sorted cmp x ys | _ ↦ x ∷ y ∷ ys ])
            (x ∷ y ∷ ys)) [
              | Ordering.gt ↦
                  Permᴰ.trans (Permᴰ.cons refl (insert_sorted-perm x ys)) (Permᴰ.swap refl refl)
              | _ ↦ Permᴰ.refl _
            ]

  pub sort_func-perm : (xs : List A) → Permᴰ (sort_func cmp xs) xs
  unfolding sort_func
  sort_func-perm [] = Permᴰ.nil
  sort_func-perm (x ∷ xs) =
      Permᴰ.trans (insert_sorted-perm x (sort_func cmp xs)) (Permᴰ.cons refl (sort_func-perm xs))

  length-insert_sorted : (x : A) (ys : List A) → length (insert_sorted cmp x ys) ≡ suc (length ys)
  unfolding insert_sorted
  length-insert_sorted x [] = refl
  length-insert_sorted x (y ∷ ys) = ground (arith, length-insert_sorted x ys)

  pub length-sort_func : (xs : List A) → length (sort_func cmp xs) ≡ length xs
  unfolding sort_func
  length-sort_func [] = refl
  length-sort_func (x ∷ xs) =
      length-insert_sorted x (sort_func cmp xs) ∙ ap suc (length-sort_func xs)

module _ {ℓ} {A : Type ℓ} (cmp : A → A → Ordering) (o : IsOrder cmp) where
  insert_sorted-IsSorted :
      (x : A) (ys : List A) → IsSorted cmp ys → IsSorted cmp (insert_sorted cmp x ys)
  unfolding insert_sorted
  insert_sorted-IsSorted x [] s = (tt, tt)
  insert_sorted-IsSorted x (y ∷ ys) s = go (insert_sorted-IsSorted x ys s.1) (cmp x y) refl
    where
      below : cmp x y ≢ Ordering.gt → All (λ z. cmp x z ≢ Ordering.gt) ys
      below h = All-imp _ _ (λ z. o.trans x y z h) ys s.0

      go :
          IsSorted cmp (insert_sorted cmp x ys)
          → (c : Ordering) → cmp x y ≡ c
          → IsSorted cmp (elim c [ Ordering.gt ↦ y ∷ insert_sorted cmp x ys | _ ↦ x ∷ y ∷ ys ])
      go ih Ordering.gt e = (All-insert_sorted cmp _ x ys (ground (arith, o.flipped x y)) s.0, ih)
      go ih Ordering.lt e = ((ground arith, below (ground arith)), s)
      go ih Ordering.eq e = ((ground arith, below (ground arith)), s)

  pub sort_func-IsSorted : (xs : List A) → IsSorted cmp (sort_func cmp xs)
  unfolding sort_func
  sort_func-IsSorted [] = tt
  sort_func-IsSorted (x ∷ xs) = insert_sorted-IsSorted x (sort_func cmp xs) (sort_func-IsSorted xs)

  insert_sorted_comm :
      (x y : A) (l : List A)
      → cmp x y ≢ Ordering.eq
      → insert_sorted cmp x (insert_sorted cmp y l) ≡ insert_sorted cmp y (insert_sorted cmp x l)
  unfolding insert_sorted
  insert_sorted_comm x y [] h = ground (arith, o.flipped x y)
  insert_sorted_comm x y (z ∷ zs) h =
      ground (arith, insert_sorted_comm x y zs h, o.flipped x y, o.trans x y z, o.trans y x z)

  AreDistinct-perm : {xs ys : List A} → Permᴰ xs ys → AreDistinct cmp xs → AreDistinct cmp ys
  AreDistinct-perm Permᴰ.nil d = tt
  AreDistinct-perm (Permᴰ.cons {a = a} {b = b} {l₁ = l} e p) d =
      (All-perm _ p (subst (λ x. All (λ y. cmp x y ≢ Ordering.eq) l) e d.0), AreDistinct-perm p d.1)
  AreDistinct-perm (Permᴰ.swap {a = a} {b = b} {a' = a'} {b' = b'} {l = l} e f) d =
      subst (λ y. AreDistinct cmp (a' ∷ y ∷ l)) e
        (subst (λ x. AreDistinct cmp (x ∷ a ∷ l)) f
          ((ground (arith, o.flipped a b, d.0.0), d.1.0), (d.0.1, d.1.1)))
  AreDistinct-perm (Permᴰ.trans p q) d = AreDistinct-perm q (AreDistinct-perm p d)

  -- A sort forgets the order that it is given the elements in.
  pub sort_func-eq_of_perm :
      {xs ys : List A} → Permᴰ xs ys → AreDistinct cmp xs → sort_func cmp xs ≡ sort_func cmp ys
  unfolding sort_func
  sort_func-eq_of_perm Permᴰ.nil d = refl
  sort_func-eq_of_perm (Permᴰ.cons e p) d = ap₂ (insert_sorted cmp) e (sort_func-eq_of_perm p d.1)
  sort_func-eq_of_perm (Permᴰ.swap {a = a} {b = b} {l = l} e f) d =
      rw (← e, ← f) (insert_sorted_comm a b (sort_func cmp l) d.0.0)
  sort_func-eq_of_perm (Permᴰ.trans p q) d =
      sort_func-eq_of_perm p d ∙ sort_func-eq_of_perm q (AreDistinct-perm p d)

module _ {ℓ} {A : Type ℓ} (cmp : A → A → Ordering) where
  -- Each element of one list compares below each of the other.
  abbrev pub AllBelow : List A → List A → Type 0
  AllBelow xs ys = All (λ x. All (λ y. cmp x y ≢ Ordering.gt) ys) xs

  pub IsSorted-drop : (n : ℕ) (xs : List A) → IsSorted cmp xs → IsSorted cmp (drop n xs)
  IsSorted-drop zero xs s = s
  IsSorted-drop (suc n) [] s = s
  IsSorted-drop (suc n) (x ∷ xs) s = IsSorted-drop n xs s.1

  pub take-AllBelow-drop :
      (n : ℕ) (xs : List A) → IsSorted cmp xs → AllBelow (take n xs) (drop n xs)
  take-AllBelow-drop zero xs s = tt
  take-AllBelow-drop (suc n) [] s = tt
  take-AllBelow-drop (suc n) (x ∷ xs) s = (All-drop _ n xs s.0, take-AllBelow-drop n xs s.1)
