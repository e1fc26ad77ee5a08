-- ===== src/Reconcile/Rotation/Next.antt =====
-- The time that `nextRotation` reports: no swap can become due before it.
use frame_tv_art_manager.Prelude.{
  ℕ, ◌+◌, ◌≤◌, ◌<◌, ◌≡◌, ◌≢◌, ◌⊎◌, inl, inr, arith, Bool, true, false, List, [], ◌∷◌, All, Ordering,
}
use frame_tv_art_manager.Prelude.Int.{ℤ, pos_part, add_duration, is_positive}
use frame_tv_art_manager.Prelude.Sort.{IsSorted}
use frame_tv_art_manager.Reconcile.Types.{Binding}
use frame_tv_art_manager.Reconcile.Rotation.{
  WaitingArtwork, evict_due, rotation_due, next_rotation, owned_order, waiting_order,
}

add_duration_pos : (t : ℕ) (d : ℤ) → is_positive d ≡ true → add_duration t d ≡ t + pos_part d
unfolding add_duration
add_duration_pos t d h = ground arith

-- No owned artwork is due for a swap at a time, nor will what a swap has just put up be.
abbrev pub NoneDisplayed : List Binding → Bool → ℤ → ℕ → ℕ → Type 0
NoneDisplayed owned swapped interval now t =
    (swapped ≡ true → t < add_duration now interval)
    × All (λ b. evict_due interval t b ≡ false) owned

abbrev pub NoneReturning : List WaitingArtwork → Bool → ℤ → ℕ → ℕ → Type 0
NoneReturning waiting swapped interval now t =
    (swapped ≡ true → t < add_duration now interval)
    × All (λ w. rotation_due w.last_shown interval t ≡ false) waiting

-- With the longest displayed first, the first decides for all.
evict_due-sorted :
    (interval : ℤ) (t : ℕ) (b : Binding) (rest : List Binding)
    → is_positive interval ≡ true
    → evict_due interval t b ≡ false
    → All (λ c. owned_order b c ≢ Ordering.gt) rest
    → All (λ c. evict_due interval t c ≡ false) rest
unfolding evict_due owned_order
evict_due-sorted interval t b [] p h s = tt
evict_due-sorted interval t b (c ∷ rest) p h s = (
  ground (
    arith,
    add_duration_pos b.confirmed_at interval,
    add_duration_pos c.confirmed_at interval,
    s.0,
  ),
  evict_due-sorted interval t b rest p h s.1,
)

rotation_due-sorted :
    (interval : ℤ) (t : ℕ) (v : WaitingArtwork) (rest : List WaitingArtwork)
    → is_positive interval ≡ true
    → rotation_due v.last_shown interval t ≡ false
    → All (λ w. waiting_order v w ≢ Ordering.gt) rest
    → All (λ w. rotation_due w.last_shown interval t ≡ false) rest
unfolding rotation_due waiting_order
rotation_due-sorted interval t v [] p h s = tt
rotation_due-sorted interval t v (w ∷ rest) p h s = (
  ground
      (arith, add_duration_pos v.last_shown interval, add_duration_pos w.last_shown interval, s.0),
  rotation_due-sorted interval t v rest p h s.1,
)

-- Whether a swap is possible on either side, at a time that the report has not reached.
abbrev pub NoSwapAt : List Binding → List WaitingArtwork → Bool → ℤ → ℕ → ℕ → Type 0
NoSwapAt owned waiting swapped interval now t =
    NoneDisplayed owned swapped interval now t ⊎ NoneReturning waiting swapped interval now t

-- What the first elements decide.
next_rotation_past :
    (owned : List Binding) (waiting : List WaitingArtwork) (swapped : Bool) (interval : ℤ) (now : ℕ)
    → (next_rotation owned waiting swapped interval now ≡ 0)
      ⊎ (now ≤ next_rotation owned waiting swapped interval now)
unfolding next_rotation
next_rotation_past owned waiting swapped interval now = ground arith

abbrev NotYet : Bool → ℤ → ℕ → ℕ → Type 0
NotYet swapped interval now t = swapped ≡ true → t < add_duration now interval

no_swap_of_heads :
    (b : Binding) (v : WaitingArtwork) (swapped : Bool) (interval : ℤ) (now t : ℕ)
    (owned : List Binding) (waiting : List WaitingArtwork)
    → is_positive interval ≡ true
    → 0 < now
    → now ≤ t
    → let next = next_rotation (b ∷ owned) (v ∷ waiting) swapped interval now in
      (next ≡ 0) ⊎ (t < next)
      → (NotYet swapped interval now t × (evict_due interval t b ≡ false))
        ⊎ (NotYet swapped interval now t × (rotation_due v.last_shown interval t ≡ false))
unfolding next_rotation evict_due rotation_due
no_swap_of_heads b v swapped interval now t owned waiting p n h e = ground (
  arith,
  add_duration_pos b.confirmed_at interval p,
  add_duration_pos v.last_shown interval p,
  add_duration_pos now interval p,
)

no_swap_of_owned :
    (b : Binding) (swapped : Bool) (interval : ℤ) (now t : ℕ) (owned : List Binding)
    → is_positive interval ≡ true
    → 0 < now
    → now ≤ t
    → let next = next_rotation (b ∷ owned) [] swapped interval now in
      (next ≡ 0) ⊎ (t < next)
      → (NotYet swapped interval now t × (evict_due interval t b ≡ false))
        ⊎ NotYet swapped interval now t
unfolding next_rotation evict_due
no_swap_of_owned b swapped interval now t owned p n h e =
    ground (arith, add_duration_pos b.confirmed_at interval p, add_duration_pos now interval p)

no_swap_of_waiting :
    (v : WaitingArtwork) (swapped : Bool) (interval : ℤ) (now t : ℕ) (waiting : List WaitingArtwork)
    → is_positive interval ≡ true
    → 0 < now
    → now ≤ t
    → let next = next_rotation [] (v ∷ waiting) swapped interval now in
      (next ≡ 0) ⊎ (t < next)
      → NotYet swapped interval now t
        ⊎ (NotYet swapped interval now t × (rotation_due v.last_shown interval t ≡ false))
unfolding next_rotation rotation_due
no_swap_of_waiting v swapped interval now t waiting p n h e =
    ground (arith, add_duration_pos v.last_shown interval p, add_duration_pos now interval p)

no_swap_of_none :
    (swapped : Bool) (interval : ℤ) (now t : ℕ)
    → is_positive interval ≡ true
    → 0 < now
    → let next = next_rotation [] [] swapped interval now in
      (next ≡ 0) ⊎ (t < next) → NotYet swapped interval now t
unfolding next_rotation
no_swap_of_none swapped interval now t p n e = ground (arith, add_duration_pos now interval p)

no_swap_before :
    (owned : List Binding) (waiting : List WaitingArtwork) (swapped : Bool) (interval : ℤ)
    (now t : ℕ)
    → IsSorted owned_order owned
    → IsSorted waiting_order waiting
    → is_positive interval ≡ true
    → 0 < now
    → now ≤ t
    → let next = next_rotation owned waiting swapped interval now in
      (next ≡ 0) ⊎ (t < next) → NoSwapAt owned waiting swapped interval now t
no_swap_before (b ∷ owned) (v ∷ waiting) swapped interval now t so sw p n h e =
    elim (no_swap_of_heads b v swapped interval now t owned waiting p n h e) [
      | inl (y, d) ↦ inl (y, (d, evict_due-sorted interval t b owned p d so.0))
      | inr (y, d) ↦ inr (y, (d, rotation_due-sorted interval t v waiting p d sw.0))
    ]
no_swap_before (b ∷ owned) [] swapped interval now t so sw p n h e =
    elim (no_swap_of_owned b swapped interval now t owned p n h e) [
      | inl (y, d) ↦ inl (y, (d, evict_due-sorted interval t b owned p d so.0))
      | inr y ↦ inr (y, tt)
    ]
no_swap_before [] (v ∷ waiting) swapped interval now t so sw p n h e =
    elim (no_swap_of_waiting v swapped interval now t waiting p n h e) [
      | inl y ↦ inl (y, tt)
      | inr (y, d) ↦ inr (y, (d, rotation_due-sorted interval t v waiting p d sw.0))
    ]
no_swap_before [] [] swapped interval now t so sw p n h e =
    inl (no_swap_of_none swapped interval now t p n e, tt)

-- For the owned and the waiting artwork that a plan leaves, each in its order, and whether it
-- swapped: the reported time is never in the past, and at a time before it, or at any time where none
-- is reported, no owned and waiting piece are both due.
pub next_rotation_lem :
    (owned : List Binding) (waiting : List WaitingArtwork) (swapped : Bool) (interval : ℤ)
    (now t : ℕ)
    → IsSorted owned_order owned
    → IsSorted waiting_order waiting
    → is_positive interval ≡ true
    → 0 < now
    → now ≤ t
    → (next_rotation owned waiting swapped interval now ≡ 0)
      ⊎ (t < next_rotation owned waiting swapped interval now)
    → ((next_rotation owned waiting swapped interval now ≡ 0)
        ⊎ (now ≤ next_rotation owned waiting swapped interval now))
      × NoSwapAt owned waiting swapped interval now t
next_rotation_lem owned waiting swapped interval now t so sw p n h e = (
  next_rotation_past owned waiting swapped interval now,
  no_swap_before owned waiting swapped interval now t so sw p n h e,
)
