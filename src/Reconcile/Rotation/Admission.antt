-- ===== src/Reconcile/Rotation/Admission.antt =====
-- What `planCapacity` admits: the TV's capacity, and where each piece of artwork goes.
use mathlib.Core.List.Permᴰ
use frame_tv_art_manager.Reconcile.Rotation.Order.{waiting_order-IsOrder, owned_order-IsOrder}
use frame_tv_art_manager.Prelude.{
  All, All-count_while, false, true, take-append-drop, ◌++◌, if_cases, Permᴰ, ℕ, ◌≤◌, min, ◌≡◌,
  refl, sym, ap, inl, inr, List, [], ◌∷◌, map, arith, length, take, drop, length-take,
  count_while-le, Bool-cases, count_while,
}
use frame_tv_art_manager.Prelude.Sort.{
  IsSorted, AllBelow, IsSorted-drop, take-AllBelow-drop, sort_func-IsSorted, sort_func-perm,
  sort_func,
}
use frame_tv_art_manager.Reconcile.Types.{Binding}
use frame_tv_art_manager.Reconcile.Rotation.{
  no_rotation, waiting_order, WaitingArtwork, RotationSwap, CapacityInput, CapacityPlan,
  owned_order, prioritize_waiting, rotation_active, free_slots, pair_swaps, plan_swaps,
  plan_shortfall, plan_capacity, rotation_due, evict_due,
}

abbrev pub uploads : CapacityPlan → List WaitingArtwork
uploads p = map (λ s. s.upload) p.swaps

abbrev pub evictions : CapacityPlan → List Binding
evictions p = map (λ s. s.evict) p.swaps

uploads-pair_swaps :
    (owned : List Binding) (waiting : List WaitingArtwork)
    → length owned ≡ length waiting
    → map (λ (s : RotationSwap). s.upload) (pair_swaps owned waiting) ≡ waiting
unfolding pair_swaps
uploads-pair_swaps [] [] h = refl
uploads-pair_swaps [] (w ∷ waiting) h = absurd (omega arith)
uploads-pair_swaps (b ∷ owned) [] h = absurd (omega arith)
uploads-pair_swaps (b ∷ owned) (w ∷ waiting) h = cc (uploads-pair_swaps owned waiting (omega arith))

evictions-pair_swaps :
    (owned : List Binding) (waiting : List WaitingArtwork)
    → length owned ≡ length waiting
    → map (λ (s : RotationSwap). s.evict) (pair_swaps owned waiting) ≡ owned
unfolding pair_swaps
evictions-pair_swaps [] [] h = refl
evictions-pair_swaps [] (w ∷ waiting) h = absurd (omega arith)
evictions-pair_swaps (b ∷ owned) [] h = absurd (omega arith)
evictions-pair_swaps (b ∷ owned) (w ∷ waiting) h =
    cc (evictions-pair_swaps owned waiting (omega arith))

-- How a swap plan cuts its two lists: what goes, what stays, and the numbers that the loops count.
pub record Cut (input : CapacityInput) (waiting : List WaitingArtwork) (p : CapacityPlan)
    : Type 0 where
  pub count : ℕ
  pub uploaded : uploads p ≡ take count waiting
  pub evicted : evictions p ≡ take count (sort_func owned_order input.owned)
  pub all_due :
      count ≤ count_while (λ w. rotation_due w.last_shown input.policy.rotation input.now) waiting
  pub all_displayed :
      count
      ≤ count_while (evict_due input.policy.rotation input.now) (sort_func owned_order input.owned)

pub plan_swaps-Cut :
    (input : CapacityInput) (fills waiting : List WaitingArtwork)
    → Cut input waiting (plan_swaps input fills waiting)
unfolding plan_swaps
plan_swaps-Cut input fills waiting = record {
  count = n;
  uploaded = uploads-pair_swaps (take n owned) (take n waiting) same;
  evicted = evictions-pair_swaps (take n owned) (take n waiting) same;
  all_due = omega arith;
  all_displayed = omega arith;
}
  where
    owned : List Binding
    owned = sort_func owned_order input.owned

    eligible : ℕ
    eligible = count_while (λ w. rotation_due w.last_shown input.policy.rotation input.now) waiting

    evictable : ℕ
    evictable = count_while (evict_due input.policy.rotation input.now) owned

    n : ℕ
    n = min eligible evictable

    same : length (take n owned) ≡ length (take n waiting)
    same = omega (
      arith,
      length-take n owned,
      length-take n waiting,
      count_while-le (λ w. rotation_due w.last_shown input.policy.rotation input.now) waiting,
      count_while-le (evict_due input.policy.rotation input.now) owned,
    )

-- A plan that swaps nothing cuts at 0.
no_swaps-Cut :
    (input : CapacityInput) (waiting : List WaitingArtwork) (p : CapacityPlan)
    → p.swaps ≡ []
    → Cut input waiting p
no_swaps-Cut input waiting p e = record {
  count = 0;
  uploaded = ap (map (λ s. s.upload)) e;
  evicted = ap (map (λ s. s.evict)) e;
  all_due = omega arith;
  all_displayed = omega arith;
}

plan_shortfall-Cut :
    (input : CapacityInput) (fills waiting : List WaitingArtwork)
    → Cut input waiting (plan_shortfall input fills waiting)
unfolding plan_shortfall
plan_shortfall-Cut input fills [] = no_swaps-Cut input [] _ refl
plan_shortfall-Cut input fills (w ∷ waiting) = elim (Bool-cases (rotation_active input)) [
  | inl e ↦ rw e (plan_swaps-Cut input fills (w ∷ waiting))
  | inr e ↦ rw e (no_swaps-Cut input (w ∷ waiting) _ refl)
]

pub plan_shortfall-fills :
    (input : CapacityInput) (fills waiting : List WaitingArtwork)
    → (plan_shortfall input fills waiting).fills ≡ fills
unfolding plan_shortfall plan_swaps
plan_shortfall-fills input fills [] = refl
plan_shortfall-fills input fills (w ∷ waiting) = ground arith

-- The waiting artwork in its priority, and how much of it a plan fills in at once.
pub record Admitted (input : CapacityInput) (p : CapacityPlan) : Type 0 where
  pub free : ℕ
  pub filled : p.fills ≡ take free (prioritize_waiting input.waiting)
  pub cut : Cut input (drop free (prioritize_waiting input.waiting)) p

take-length : (xs : List WaitingArtwork) → take (length xs) xs ≡ xs
take-length [] = refl
take-length (x ∷ xs) = ap (◌∷◌ x) (take-length xs)

-- The slots that a plan fills, if the capacity is known.
abbrev pub free_for : CapacityInput → ℕ
free_for input =
    free_slots input.state.capacity input.inventory (length (prioritize_waiting input.waiting))

abbrev pub admit_all : CapacityInput → CapacityPlan
admit_all input = record {
  fills = prioritize_waiting input.waiting;
  swaps = [];
  limited = false;
  rotation = no_rotation;
}

abbrev pub admit_some : CapacityInput → CapacityPlan
admit_some input =
    plan_shortfall input (take (free_for input) (prioritize_waiting input.waiting))
      (drop (free_for input) (prioritize_waiting input.waiting))

-- The two ways of a plan: the capacity is known, or it is not.
pub plan_capacity_cases {κ} :
    (P : CapacityPlan → Type κ) (input : CapacityInput)
    → (input.state.capacity.known ≡ true → P (admit_some input))
    → (input.state.capacity.known ≡ false → P (admit_all input))
    → P (plan_capacity input)
unfolding plan_capacity
plan_capacity_cases P input some_way all_way =
    if_cases P input.state.capacity.known (admit_some input) (admit_all input) some_way all_way

pub plan_capacity-Admitted : (input : CapacityInput) → Admitted input (plan_capacity input)
plan_capacity-Admitted input =
    plan_capacity_cases (Admitted input) input
      (λ _. record {
        free = free_for input;
        filled =
            plan_shortfall-fills input (take (free_for input) (prioritize_waiting input.waiting))
              (drop (free_for input) (prioritize_waiting input.waiting));
        cut =
            plan_shortfall-Cut input (take (free_for input) (prioritize_waiting input.waiting))
              (drop (free_for input) (prioritize_waiting input.waiting));
      })
      (λ _. record {
        free = length (prioritize_waiting input.waiting);
        filled = sym (take-length (prioritize_waiting input.waiting));
        cut = no_swaps-Cut input _ (admit_all input) refl;
      })

take-drop-perm {ℓ} : {A : Type ℓ} (n : ℕ) (xs : List A) → Permᴰ (take n xs ++ drop n xs) xs
take-drop-perm n xs = rw (take-append-drop n xs) (Permᴰ.refl xs)

-- Where the artwork of a plan's input goes. `left` stays waiting and `kept` stays on the TV.
pub record Distribution (input : CapacityInput) (p : CapacityPlan) : Type 0 where
  pub left : List WaitingArtwork
  pub kept : List Binding
  -- Nothing waiting is lost, made up or handled twice.
  pub waiting_split : Permᴰ (p.fills ++ (uploads p ++ left)) input.waiting
  -- Nor is anything owned.
  pub owned_split : Permᴰ (evictions p ++ kept) input.owned
  -- Never shown comes first, then away longest: free slots first, then swaps, then the rest.
  pub fills_first : AllBelow waiting_order p.fills (uploads p ++ left)
  pub uploads_first : AllBelow waiting_order (uploads p) left
  -- What has been on the TV longest goes.
  pub evictions_first : AllBelow owned_order (evictions p) kept
  -- A swap takes only what has been shown, and kept away, for the rotation interval.
  pub evictions_due : All (λ b. evict_due input.policy.rotation input.now b ≡ true) (evictions p)
  pub uploads_due :
      All (λ w. rotation_due w.last_shown input.policy.rotation input.now ≡ true) (uploads p)

-- Every capacity plan distributes the artwork that it is given: each piece goes to one place, the
-- order of priority is kept, and only what is due is swapped.
pub plan_capacity-Distribution : (input : CapacityInput) → Distribution input (plan_capacity input)
unfolding prioritize_waiting
plan_capacity-Distribution input = record {
  left = drop a.cut.count behind;
  kept = drop a.cut.count owned;
  waiting_split =
      rw (a.filled, a.cut.uploaded)
        (Permᴰ.trans (Permᴰ.append_left (take a.free waiting) (take-drop-perm a.cut.count behind)) (
          Permᴰ.trans (take-drop-perm a.free waiting)
            (sort_func-perm waiting_order input.waiting)));
  owned_split =
      rw a.cut.evicted
        (Permᴰ.trans (take-drop-perm a.cut.count owned) (sort_func-perm owned_order input.owned));
  fills_first =
      rw (a.filled, a.cut.uploaded, take-append-drop a.cut.count behind)
        (take-AllBelow-drop waiting_order a.free waiting sorted);
  uploads_first = rw a.cut.uploaded (
      take-AllBelow-drop waiting_order a.cut.count behind
        (IsSorted-drop waiting_order a.free waiting sorted));
  evictions_first = rw a.cut.evicted (
      take-AllBelow-drop owned_order a.cut.count owned
        (sort_func-IsSorted owned_order owned_order-IsOrder input.owned));
  evictions_due = rw a.cut.evicted (All-count_while _ a.cut.count owned a.cut.all_displayed);
  uploads_due = rw a.cut.uploaded (All-count_while _ a.cut.count behind a.cut.all_due);
}
  where
    a : Admitted input (plan_capacity input)
    a = plan_capacity-Admitted input

    waiting : List WaitingArtwork
    waiting = sort_func waiting_order input.waiting

    sorted : IsSorted waiting_order waiting
    sorted = sort_func-IsSorted waiting_order waiting_order-IsOrder input.waiting

    behind : List WaitingArtwork
    behind = drop a.free waiting

    owned : List Binding
    owned = sort_func owned_order input.owned
