-- ===== src/Reconcile/Rotation/Bounds.antt =====
-- The numbers of a capacity plan: free slots, swaps, the reserve of owned artwork, and the time of
-- the next swap.
use frame_tv_art_manager.Prelude.{
  refl, length-drop, drop, ◌↔◌, length-take, ap, false, Bool-cases, take, ◌∷◌, List, true, ℕ, ◌+◌,
  ◌≤◌, ◌<◌, ◌≡◌, ◌⊎◌, inl, inr, arith, length, List, [], ◌∷◌, true, false,
}
use frame_tv_art_manager.Prelude.Int.{pos, ◌≤ℤ◌}
use frame_tv_art_manager.Prelude.Sort.{length-sort_func}
use frame_tv_art_manager.Reconcile.Types.{CapacityEvidence}
use frame_tv_art_manager.Reconcile.Rotation.{
  waiting_order, rotation_active, prioritize_waiting, plan_swaps, plan_capacity, plan_shortfall,
  free_slots, WaitingArtwork, CapacityInput, CapacityPlan,
}
use frame_tv_art_manager.Reconcile.Rotation.Admission.{
  plan_capacity_cases, free_for, plan_shortfall-fills, admit_some,
}

-- The slots that are filled fit below the TV's known capacity.
free_slots_fit :
    (c : CapacityEvidence) (inventory waiting : ℕ)
    → (free_slots c inventory waiting ≡ 0)
      ⊎ (pos (inventory + free_slots c inventory waiting) ≤ℤ c.maximum)
unfolding free_slots
free_slots_fit c inventory waiting = ground arith

free_slots-le :
    (c : CapacityEvidence) (inventory waiting : ℕ) → free_slots c inventory waiting ≤ waiting
unfolding free_slots
free_slots-le c inventory waiting = ground arith

known_fills :
    (input : CapacityInput)
    → input.state.capacity.known ≡ true
    → (plan_capacity input).fills ≡ take (free_for input) (prioritize_waiting input.waiting)
known_fills input known =
    plan_capacity_cases (λ p. p.fills ≡ take (free_for input) (prioritize_waiting input.waiting))
      input (λ _. plan_shortfall-fills input _ _) (λ e. cc)

length-known_fills :
    (input : CapacityInput)
    → input.state.capacity.known ≡ true
    → length (plan_capacity input).fills ≡ free_for input
length-known_fills input known = omega (
  arith,
  ap length (known_fills input known),
  length-take
      (free_slots input.state.capacity input.inventory (length (prioritize_waiting input.waiting)))
      (prioritize_waiting input.waiting),
  free_slots-le input.state.capacity input.inventory (length (prioritize_waiting input.waiting)),
)

-- On a TV whose capacity is known, a plan that fills slots keeps the inventory within the capacity.
pub plan_capacity_fits :
    (input : CapacityInput)
    → input.state.capacity.known ≡ true
    → (length (plan_capacity input).fills ≡ 0)
      ⊎ (pos (input.inventory + length (plan_capacity input).fills) ≤ℤ input.state.capacity.maximum)
plan_capacity_fits input known = rw (length-known_fills input known) (
    free_slots_fit input.state.capacity input.inventory (length (prioritize_waiting input.waiting)))

-- What rotation needs: it is on, the capacity is not being probed, it has not failed three times in a
-- row, and two pieces are owned, or one where an empty TV is allowed.
abbrev pub HasReserve : CapacityInput → Type 0
HasReserve input =
    (pos 1 ≤ℤ input.policy.rotation)
    × (input.state.capacity.probe ≡ false)
    × (input.state.capacity.shortfalls ≤ℤ pos 2)
    × (((input.policy.allow_empty ≡ true) × (1 ≤ length input.owned)) ⊎ (2 ≤ length input.owned))

rotation_active-HasReserve :
    (input : CapacityInput) → rotation_active input ≡ true → HasReserve input
unfolding rotation_active
rotation_active-HasReserve input h = ground arith

plan_shortfall-HasReserve :
    (input : CapacityInput) (fills waiting : List WaitingArtwork)
    → 0 < length (plan_shortfall input fills waiting).swaps
    → HasReserve input × (0 < length waiting)
unfolding plan_shortfall
plan_shortfall-HasReserve input fills [] h = absurd (omega arith)
plan_shortfall-HasReserve input fills (w ∷ waiting) h = elim (Bool-cases (rotation_active input)) [
  | inl e ↦ (rotation_active-HasReserve input e, omega arith)
  | inr e ↦ absurd (ground arith)
]

free_slots_full :
    (c : CapacityEvidence) (inventory waiting : ℕ)
    → free_slots c inventory waiting < waiting
    → c.maximum ≤ℤ pos (inventory + free_slots c inventory waiting)
unfolding free_slots
free_slots_full c inventory waiting h = ground arith

-- The TV's capacity is known, and what is on it with what the plan fills in takes all of it.
abbrev pub IsFull : CapacityInput → CapacityPlan → Type 0
IsFull input p =
    (input.state.capacity.known ≡ true)
    × (input.state.capacity.maximum ≤ℤ pos (input.inventory + length p.fills))

admit_some-IsFull :
    (input : CapacityInput)
    → input.state.capacity.known ≡ true
    → 0 < length (drop (free_for input) (prioritize_waiting input.waiting))
    → IsFull input (admit_some input)
admit_some-IsFull input known h = (
  known,
  rw filled (
      free_slots_full input.state.capacity input.inventory
        (length (prioritize_waiting input.waiting))
        (omega (arith, h, length-drop (free_for input) (prioritize_waiting input.waiting)))),
)
  where
    filled : length (admit_some input).fills ≡ free_for input
    filled = omega (
      arith,
      ap length (
          plan_shortfall-fills input (take (free_for input) (prioritize_waiting input.waiting))
            (drop (free_for input) (prioritize_waiting input.waiting))),
      length-take (free_for input) (prioritize_waiting input.waiting),
      free_slots-le input.state.capacity input.inventory
          (length (prioritize_waiting input.waiting)),
    )

-- A plan swaps only on a TV of known capacity, where what is on it and what the plan fills in take all
-- of that, only while rotation is on, is not probing the capacity and has not failed three times in a
-- row, and only where two pieces are owned, or one if an empty TV is allowed.
pub plan_capacity-HasReserve :
    (input : CapacityInput)
    → 0 < length (plan_capacity input).swaps
    → HasReserve input × IsFull input (plan_capacity input)
plan_capacity-HasReserve input =
    plan_capacity_cases (λ p. 0 < length p.swaps → HasReserve input × IsFull input p) input
      (λ known h.
        let k = plan_shortfall-HasReserve input _ _ h in (k.0, admit_some-IsFull input known k.1))
      (λ _ h. absurd (omega arith))

plan_shortfall_limited :
    (input : CapacityInput) (fills waiting : List WaitingArtwork)
    → ((plan_shortfall input fills waiting).limited ≡ true)
      ↔ ((rotation_active input ≡ false) × (0 < length waiting))
unfolding plan_shortfall plan_swaps
plan_shortfall_limited input fills [] = ground arith
plan_shortfall_limited input fills (w ∷ waiting) = ground arith

length-prioritize_waiting :
    (waiting : List WaitingArtwork) → length (prioritize_waiting waiting) ≡ length waiting
unfolding prioritize_waiting
length-prioritize_waiting waiting = length-sort_func waiting_order waiting

-- A plan is capacity limited exactly when the TV's capacity is known, some waiting artwork found no
-- free slot, and rotation may not make room for it.
pub plan_capacity_limited :
    (input : CapacityInput)
    → ((plan_capacity input).limited ≡ true) ↔ (
        (input.state.capacity.known ≡ true)
        × (rotation_active input ≡ false)
        × (length (plan_capacity input).fills < length input.waiting))
plan_capacity_limited input =
    plan_capacity_cases
      (λ p. (p.limited ≡ true) ↔ (
        (input.state.capacity.known ≡ true)
        × (rotation_active input ≡ false)
        × (length p.fills < length input.waiting)))
      input
      (λ known. ground (
        arith,
        plan_shortfall_limited input (take (free_for input) (prioritize_waiting input.waiting))
            (drop (free_for input) (prioritize_waiting input.waiting)),
        length-drop (free_for input) (prioritize_waiting input.waiting),
        length-take (free_for input) (prioritize_waiting input.waiting),
        ap length (
            plan_shortfall-fills input (take (free_for input) (prioritize_waiting input.waiting))
              (drop (free_for input) (prioritize_waiting input.waiting))),
        length-prioritize_waiting input.waiting,
      ))
      (λ unknown. ground arith)

-- What a capacity plan leaves to do: artwork to bring or to swap in, or artwork that waits.
abbrev pub IsIdle : CapacityPlan → Type 0
IsIdle p =
    (length p.fills ≡ 0) × (length p.swaps ≡ 0) × (p.limited ≡ false) × (p.rotation.active ≡ false)

plan_shortfall-IsIdle :
    (input : CapacityInput) (fills waiting : List WaitingArtwork)
    → IsIdle (plan_shortfall input fills waiting) ↔ ((length fills ≡ 0) × (length waiting ≡ 0))
unfolding plan_shortfall plan_swaps
plan_shortfall-IsIdle input fills [] = (λ h. (h.0, refl), λ h. (h.0, refl, refl, refl))
plan_shortfall-IsIdle input fills (w ∷ waiting) = elim (Bool-cases (rotation_active input)) [
  | inl e ↦ rw e (λ h. absurd (ground arith), λ h. absurd (omega arith))
  | inr e ↦ rw e (λ h. absurd (ground arith), λ h. absurd (omega arith))
]

-- A capacity plan leaves nothing to do exactly when nothing waits.
pub plan_capacity-IsIdle :
    (input : CapacityInput) → IsIdle (plan_capacity input) ↔ (length input.waiting ≡ 0)
plan_capacity-IsIdle input =
    plan_capacity_cases (λ p. IsIdle p ↔ (length input.waiting ≡ 0)) input
      (λ known. ground (
        arith,
        plan_shortfall-IsIdle input (take (free_for input) (prioritize_waiting input.waiting))
            (drop (free_for input) (prioritize_waiting input.waiting)),
        length-drop (free_for input) (prioritize_waiting input.waiting),
        length-take (free_for input) (prioritize_waiting input.waiting),
        length-prioritize_waiting input.waiting,
      ))
      (λ unknown. ground (arith, length-prioritize_waiting input.waiting))
