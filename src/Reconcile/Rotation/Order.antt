-- ===== src/Reconcile/Rotation/Order.antt =====
-- The two orders of the rotation: they order, and tell artwork with different digests apart.
use frame_tv_art_manager.Prelude.{Ordering, compare, text_compare, ◌≡◌, arith}
use frame_tv_art_manager.Prelude.Sort.{IsOrder, or_order}
use frame_tv_art_manager.Prelude.Order.{
  compare-IsOrder, text_compare-IsOrder, eq_of_text_compare, or_order-IsOrder,
}
use frame_tv_art_manager.Reconcile.Types.{Binding}
use frame_tv_art_manager.Reconcile.Rotation.{WaitingArtwork, waiting_order, owned_order}

pub owned_order-IsOrder : IsOrder owned_order
unfolding owned_order
owned_order-IsOrder =
    or_order-IsOrder _ _ (compare-IsOrder (λ (b : Binding). b.confirmed_at))
      (text_compare-IsOrder (λ (b : Binding). b.digest))

pub eq_of_owned_order : (x y : Binding) → owned_order x y ≡ Ordering.eq → x.digest ≡ y.digest
unfolding owned_order
eq_of_owned_order x y h = ground (arith, eq_of_text_compare x.digest y.digest)

by_shown : WaitingArtwork → WaitingArtwork → Ordering
by_shown left right =
    or_order (compare left.last_shown right.last_shown) (text_compare left.digest right.digest)

by_shown-IsOrder : IsOrder by_shown
unfolding by_shown
by_shown-IsOrder =
    or_order-IsOrder _ _ (compare-IsOrder (λ (w : WaitingArtwork). w.last_shown))
      (text_compare-IsOrder (λ (w : WaitingArtwork). w.digest))

-- Never shown is the zero time, which comes before all others.
waiting_order-eq : (x y : WaitingArtwork) → waiting_order x y ≡ by_shown x y
unfolding waiting_order by_shown
waiting_order-eq x y = ground arith

pub waiting_order-IsOrder : IsOrder waiting_order
waiting_order-IsOrder = record {
  flipped = λ x y. rw (waiting_order-eq x y, waiting_order-eq y x) (by_shown-IsOrder.flipped x y);
  trans = λ x y z.
      rw (waiting_order-eq x y, waiting_order-eq y z, waiting_order-eq x z)
        (by_shown-IsOrder.trans x y z);
}

pub eq_of_waiting_order :
    (x y : WaitingArtwork) → waiting_order x y ≡ Ordering.eq → x.digest ≡ y.digest
unfolding waiting_order
eq_of_waiting_order x y h = ground (arith, eq_of_text_compare x.digest y.digest)
