-- ===== src/Prelude/Order.antt =====
-- Comparisons that order: by a number, by a text, and by one after another.
use Prim.Native.Nat.{ℕ, compare, Ordering}
use mathlib.Core.Path.{◌≡◌, refl}
use mathlib.Core.Logic.{◌≢◌}
use mathlib.Core.List.{[], ◌∷◌}
use native.Mathlib.Omega.{arith}
use frame_tv_art_manager.Prelude.Texts.{Text, text_compare}
use frame_tv_art_manager.Prelude.Sort.{IsOrder, flip, or_order}

pub compare-IsOrder {ℓ} : {A : Type ℓ} (f : A → ℕ) → IsOrder (λ x y. compare (f x) (f y))
compare-IsOrder f = record { flipped = λ x y. ground arith; trans = λ x y z h k. ground arith }

text_compare-flip : (s t : Text) → text_compare t s ≡ flip (text_compare s t)
unfolding text_compare
text_compare-flip [] [] = refl
text_compare-flip [] (y ∷ t) = refl
text_compare-flip (x ∷ s) [] = refl
text_compare-flip (x ∷ s) (y ∷ t) = ground (arith, text_compare-flip s t)

text_compare_trans :
    (s t u : Text)
    → text_compare s t ≢ Ordering.gt
    → text_compare t u ≢ Ordering.gt
    → text_compare s u ≢ Ordering.gt
unfolding text_compare
text_compare_trans [] t [] h k = ground arith
text_compare_trans [] t (z ∷ u) h k = ground arith
text_compare_trans (x ∷ s) [] u h k = ground arith
text_compare_trans (x ∷ s) (y ∷ t) [] h k = ground arith
text_compare_trans (x ∷ s) (y ∷ t) (z ∷ u) h k = ground (arith, text_compare_trans s t u)

pub text_compare-IsOrder {ℓ} :
    {A : Type ℓ} (f : A → Text) → IsOrder (λ x y. text_compare (f x) (f y))
text_compare-IsOrder f = record {
  flipped = λ x y. text_compare-flip (f x) (f y);
  trans = λ x y z. text_compare_trans (f x) (f y) (f z);
}

pub eq_of_text_compare : (s t : Text) → text_compare s t ≡ Ordering.eq → s ≡ t
unfolding text_compare
eq_of_text_compare [] [] h = refl
eq_of_text_compare [] (y ∷ t) h = ground arith
eq_of_text_compare (x ∷ s) [] h = ground arith
eq_of_text_compare (x ∷ s) (y ∷ t) h = ground (arith, eq_of_text_compare s t)

module _ {ℓ} {A : Type ℓ} (c d : A → A → Ordering) (oc : IsOrder c) (od : IsOrder d) where
  or_order_trans :
      (x y z : A)
      → or_order (c x y) (d x y) ≢ Ordering.gt
      → or_order (c y z) (d y z) ≢ Ordering.gt
      → or_order (c x z) (d x z) ≢ Ordering.gt
  or_order_trans x y z h k = ground (
    arith,
    oc.trans x y z,
    oc.trans y z x,
    oc.trans z x y,
    oc.flipped x y,
    oc.flipped y z,
    oc.flipped x z,
    od.trans x y z,
  )

  pub or_order-IsOrder : IsOrder (λ x y. or_order (c x y) (d x y))
  or_order-IsOrder = record {
    flipped = λ x y. ground (arith, oc.flipped x y, od.flipped x y);
    trans = or_order_trans;
  }
