-- ===== src/Reconcile/Rotation/Determinism.antt =====
-- A capacity plan depends on what is waiting and owned, not on the order in which Go's maps list it.
use frame_tv_art_manager.Prelude.{
  ◌∙◌, All-imp, suc, ◌≡◌, ◌≢◌, refl, List, [], ◌∷◌, All, ap, Permᴰ, Ordering, Text, length,
}
use frame_tv_art_manager.Prelude.Sort.{sort_func, AreDistinct, sort_func-eq_of_perm}
use frame_tv_art_manager.Reconcile.Types.{Binding}
use frame_tv_art_manager.Reconcile.Rotation.{
  WaitingArtwork, CapacityInput, plan_capacity, waiting_order, owned_order, plan_shortfall,
  plan_swaps, rotation_active, prioritize_waiting,
}
use frame_tv_art_manager.Reconcile.Rotation.Order.{
  waiting_order-IsOrder, owned_order-IsOrder, eq_of_waiting_order, eq_of_owned_order,
}

-- No two pieces have the same digest.
abbrev pub HasDistinctDigests {ℓ} : {A : Type ℓ} → (A → Text) → List A → Type 0
HasDistinctDigests digest [] = Unit
HasDistinctDigests digest (x ∷ xs) =
    All (λ y. digest x ≢ digest y) xs × HasDistinctDigests digest xs

-- What the order tells apart, if it says equal only of equal digests.
AreDistinct-of_digests {ℓ} :
    {A : Type ℓ} (digest : A → Text) (cmp : A → A → Ordering)
    → ((x y : A) → cmp x y ≡ Ordering.eq → digest x ≡ digest y)
    → (xs : List A) → HasDistinctDigests digest xs
    → AreDistinct cmp xs
AreDistinct-of_digests digest cmp same [] d = tt
AreDistinct-of_digests digest cmp same (x ∷ xs) d =
    (All-imp _ _ (λ y ne e. ne (same x y e)) xs d.0, AreDistinct-of_digests digest cmp same xs d.1)

prioritize_waiting-eq_of_perm :
    {xs ys : List WaitingArtwork}
    → Permᴰ xs ys
    → HasDistinctDigests (λ w. w.digest) xs
    → prioritize_waiting xs ≡ prioritize_waiting ys
unfolding prioritize_waiting
prioritize_waiting-eq_of_perm p d =
    sort_func-eq_of_perm waiting_order waiting_order-IsOrder p
      (AreDistinct-of_digests (λ w. w.digest) waiting_order eq_of_waiting_order _ d)

length-perm {ℓ} : {A : Type ℓ} {xs ys : List A} → Permᴰ xs ys → length xs ≡ length ys
length-perm Permᴰ.nil = refl
length-perm (Permᴰ.cons e p) = ap suc (length-perm p)
length-perm (Permᴰ.swap e f) = refl
length-perm (Permᴰ.trans p q) = length-perm p ∙ length-perm q

module _ (input : CapacityInput) (listed : List WaitingArtwork) (owned : List Binding) where
  abbrev with_owned : CapacityInput
  with_owned = record input { waiting = listed; owned = owned }

  plan_swaps-eq_of_owned :
      (fills waiting : List WaitingArtwork)
      → sort_func owned_order input.owned ≡ sort_func owned_order owned
      → plan_swaps input fills waiting ≡ plan_swaps with_owned fills waiting
  unfolding plan_swaps
  plan_swaps-eq_of_owned fills waiting e = simp e

  plan_shortfall-eq_of_owned :
      (fills waiting : List WaitingArtwork)
      → sort_func owned_order input.owned ≡ sort_func owned_order owned
      → length input.owned ≡ length owned
      → plan_shortfall input fills waiting ≡ plan_shortfall with_owned fills waiting
  unfolding plan_shortfall rotation_active
  plan_shortfall-eq_of_owned fills [] e l = refl
  plan_shortfall-eq_of_owned fills (w ∷ waiting) e l =
      simp (l, plan_swaps-eq_of_owned fills (w ∷ waiting) e)

-- Two inputs that list the same waiting and owned artwork in any two orders have the same plan, as
-- long as no two pieces of either kind have the same digest.
pub plan_capacity-eq_of_perm :
    (input : CapacityInput) (waiting : List WaitingArtwork) (owned : List Binding)
    → Permᴰ input.waiting waiting
    → Permᴰ input.owned owned
    → HasDistinctDigests (λ w. w.digest) input.waiting
    → HasDistinctDigests (λ b. b.digest) input.owned
    → plan_capacity input ≡ plan_capacity (record input { waiting = waiting; owned = owned })
unfolding plan_capacity
plan_capacity-eq_of_perm input waiting owned pw po dw dp = simp (
  prioritize_waiting-eq_of_perm pw dw,
  plan_shortfall-eq_of_owned input waiting owned _ _
      (sort_func-eq_of_perm owned_order owned_order-IsOrder po
        (AreDistinct-of_digests (λ b. b.digest) owned_order eq_of_owned_order _ dp))
      (length-perm po),
)
