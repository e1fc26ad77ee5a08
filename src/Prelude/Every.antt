-- ===== src/Prelude/Every.antt =====
-- A predicate on every element, by recursion, so that it computes to a tuple.
use Prim.Native.Nat.{ℕ, zero, suc, ◌≤◌}
use mathlib.Core.Path.{◌≡◌, subst}
use mathlib.Core.Bool.{Bool, true, false}
use mathlib.Core.Logic.{inl, inr}
use mathlib.Core.List.{List, [], ◌∷◌, ◌++◌}
use native.Mathlib.Omega.{arith}
use frame_tv_art_manager.Prelude.Tests.{Bool-cases}
use frame_tv_art_manager.Prelude.Lists.{take, drop, contains, delete_func, count_while}

abbrev pub All {ℓ κ} : {A : Type ℓ} → (A → Type κ) → List A → Type κ
All P [] = Unit
All P (x ∷ xs) = P x × All P xs

module _ {ℓ κ} {A : Type ℓ} (P : A → Type κ) where
  pub All-append : (xs ys : List A) → All P xs → All P ys → All P (xs ++ ys)
  All-append [] ys hx hy = hy
  All-append (x ∷ xs) ys hx hy = (hx.0, All-append xs ys hx.1 hy)

  pub All-append_left : (xs ys : List A) → All P (xs ++ ys) → All P xs
  All-append_left [] ys h = tt
  All-append_left (x ∷ xs) ys h = (h.0, All-append_left xs ys h.1)

  pub All-append_right : (xs ys : List A) → All P (xs ++ ys) → All P ys
  All-append_right [] ys h = h
  All-append_right (x ∷ xs) ys h = All-append_right xs ys h.1

  pub All-take : (n : ℕ) (xs : List A) → All P xs → All P (take n xs)
  All-take zero xs h = tt
  All-take (suc n) [] h = tt
  All-take (suc n) (x ∷ xs) h = (h.0, All-take n xs h.1)

  pub All-drop : (n : ℕ) (xs : List A) → All P xs → All P (drop n xs)
  All-drop zero xs h = h
  All-drop (suc n) [] h = tt
  All-drop (suc n) (x ∷ xs) h = All-drop n xs h.1

  pub All-of : ((a : A) → P a) → (xs : List A) → All P xs
  All-of f [] = tt
  All-of f (x ∷ xs) = (f x, All-of f xs)

  -- `slices.Contains` finds an element that satisfies what all satisfy.
  pub All-contains :
      (dec : Discrete A) (xs : List A) (a : A) → All P xs → contains dec xs a ≡ true → P a
  unfolding contains
  All-contains dec [] a h e = absurd (false-ne-true e)
    where
      false-ne-true : ¬ (false ≡ true)
      false-ne-true q = cc
  All-contains dec (x ∷ xs) a h e = elim (dec x a) [
    | yes p ↦ subst P p h.0
    | no n ↦ All-contains dec xs a h.1 (rest n)
  ]
    where
      rest : ¬ (x ≡ a) → contains dec xs a ≡ true
      rest n = ground arith

  pub All-delete_func : (p : A → Bool) (xs : List A) → All P xs → All P (delete_func p xs)
  unfolding delete_func
  All-delete_func p [] h = tt
  All-delete_func p (x ∷ xs) h = elim (Bool-cases (p x)) [
    | inl e ↦ rw e (All-delete_func p xs h.1)
    | inr e ↦ rw e (h.0, All-delete_func p xs h.1)
  ]

module _ {ℓ κ μ} {A : Type ℓ} (P : A → Type κ) (Q : A → Type μ) where
  pub All-imp : ((a : A) → P a → Q a) → (xs : List A) → All P xs → All Q xs
  All-imp f [] h = tt
  All-imp f (x ∷ xs) h = (f x h.0, All-imp f xs h.1)

  pub All-and : (xs : List A) → All P xs → All Q xs → All (λ a. P a × Q a) xs
  All-and [] h k = tt
  All-and (x ∷ xs) h k = ((h.0, k.0), All-and xs h.1 k.1)

-- The elements that a loop `for p(l[n]) { n++ }` has passed satisfy its test.
pub All-count_while {ℓ} :
    {A : Type ℓ} (p : A → Bool) (n : ℕ) (xs : List A)
    → n ≤ count_while p xs
    → All (λ a. p a ≡ true) (take n xs)
unfolding count_while
All-count_while p zero xs h = tt
All-count_while p (suc n) [] h = tt
All-count_while p (suc n) (x ∷ xs) h = elim (Bool-cases (p x)) [
  | inl e ↦ (e, All-count_while p n xs (ground arith))
  | inr e ↦ absurd (ground arith)
]

module _ {ℓ} {A : Type ℓ} where
  All-imp_contains :
      (dec : Discrete A) (xs ys : List A) (y : A)
      → All (λ x. contains dec xs x ≡ true) ys
      → All (λ x. contains dec (y ∷ xs) x ≡ true) ys
  unfolding contains
  All-imp_contains dec xs [] y h = tt
  All-imp_contains dec xs (x ∷ ys) y h = (ground arith, All-imp_contains dec xs ys y h.1)

  pub All-contains_self : (dec : Discrete A) (xs : List A) → All (λ x. contains dec xs x ≡ true) xs
  unfolding contains
  All-contains_self dec [] = tt
  All-contains_self dec (x ∷ xs) =
      (ground arith, All-imp_contains dec xs xs x (All-contains_self dec xs))
