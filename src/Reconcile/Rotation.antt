-- ===== src/Reconcile/Rotation.antt =====
-- internal/reconcile/rotation.go: which waiting artwork gets a place on the TV, and which artwork
-- on a full TV makes room.
pub mod Order
pub mod Admission
pub mod Bounds
pub mod Determinism
pub mod Next
use frame_tv_art_manager.Prelude.{
  ℕ, min, compare, Ordering, Text, text_compare, Bool, true, false, not, ◌&&◌, ◌||◌, ltb, leb, ◌==◌,
  if◌then◌else◌, List, [], ◌∷◌, length, take, drop, count_while,
}
use frame_tv_art_manager.Prelude.Int.{
  ℤ, pos, ◌-ℤ◌, ◌+ℤ◌, max_ℤ, min_ℤ, ltb_ℤ, pos_part, is_positive, add_duration,
}
use frame_tv_art_manager.Prelude.Sort.{sort_func, or_order}
use frame_tv_art_manager.Prelude.Dict.{Dict, insert, delete_where, has_key}
use frame_tv_art_manager.Collection.Types.{Item}
use frame_tv_art_manager.Reconcile.Types.{Binding, CapacityEvidence, State, Policy, RotationStatus}

abbrev pub maximum_shortfalls : ℤ
maximum_shortfalls = pos 3

pub record WaitingArtwork : Type 0 where
  pub item : Item
  pub digest : Text
  pub last_shown : ℕ

pub record RotationSwap : Type 0 where
  pub evict : Binding
  pub upload : WaitingArtwork

pub record CapacityInput : Type 0 where
  pub waiting : List WaitingArtwork
  pub owned : List Binding
  pub state : State
  pub inventory : ℕ
  pub policy : Policy
  pub now : ℕ

pub record CapacityPlan : Type 0 where
  pub fills : List WaitingArtwork
  pub swaps : List RotationSwap
  pub limited : Bool
  pub rotation : RotationStatus

abbrev pub no_rotation : RotationStatus
no_rotation = record { active = false; waiting = 0; next_at = 0 }

-- The comparison of `prioritizeWaiting`: never shown first, then away longest, then by digest.
unfoldable pub waiting_order : WaitingArtwork → WaitingArtwork → Ordering
waiting_order left right =
    let left_shown = not (left.last_shown == 0) in
    let right_shown = not (right.last_shown == 0) in
    if left_shown && not right_shown
    then Ordering.gt
    else if not left_shown && right_shown
    then Ordering.lt
    else or_order (compare left.last_shown right.last_shown) (text_compare left.digest right.digest)

-- `prioritizeWaiting`.
unfoldable pub prioritize_waiting : List WaitingArtwork → List WaitingArtwork
prioritize_waiting = sort_func waiting_order

-- The comparison by which `planCapacity` orders owned artwork: longest on the TV first.
unfoldable pub owned_order : Binding → Binding → Ordering
owned_order left right =
    or_order (compare left.confirmed_at right.confirmed_at) (text_compare left.digest right.digest)

abbrev pub minimum_owned : Policy → ℕ
minimum_owned p = if p.allow_empty then 1 else 2

-- `rotationActive`.
unfoldable pub rotation_active : CapacityInput → Bool
rotation_active input =
    is_positive input.policy.rotation
    && not input.state.capacity.probe
    && ltb_ℤ input.state.capacity.shortfalls maximum_shortfalls
    && leb (minimum_owned input.policy) (length input.owned)

-- `rotationDue`.
unfoldable pub rotation_due : ℕ → ℤ → ℕ → Bool
rotation_due last_shown interval now =
    last_shown == 0 || not (ltb now (add_duration last_shown interval))

-- The test of the loop over owned artwork: it has been on the TV for the interval.
unfoldable pub evict_due : ℤ → ℕ → Binding → Bool
evict_due interval now binding = not (ltb now (add_duration binding.confirmed_at interval))

-- `earliest`.
unfoldable pub earliest : ℕ → ℕ → ℕ
earliest current candidate = if current == 0 || ltb candidate current then candidate else current

owned_due : ℕ → ℤ → List Binding → ℕ
owned_due due interval [] = due
owned_due due interval (b ∷ rest) = earliest due (add_duration b.confirmed_at interval)

waiting_due : ℕ → ℤ → ℕ → List WaitingArtwork → ℕ
waiting_due due interval now [] = due
waiting_due due interval now (w ∷ rest) =
    earliest due (if w.last_shown == 0 then now else add_duration w.last_shown interval)

-- `nextRotation`.
unfoldable pub next_rotation : List Binding → List WaitingArtwork → Bool → ℤ → ℕ → ℕ
unfolding owned_due waiting_due earliest
next_rotation owned waiting swapped interval now =
    let start = if swapped then add_duration now interval else 0 in
    let due = owned_due start interval owned in
    let back = waiting_due start interval now waiting in
    let next = if ltb due back then back else due in
    if due == 0 || back == 0 then 0 else if ltb next now then now else next

-- `for index := range swaps`: the pairs in order.
unfoldable pub pair_swaps : List Binding → List WaitingArtwork → List RotationSwap
pair_swaps [] waiting = []
pair_swaps (b ∷ owned) [] = []
pair_swaps (b ∷ owned) (w ∷ waiting) = record { evict = b; upload = w } ∷ pair_swaps owned waiting

-- The free slots that waiting artwork takes.
unfoldable pub free_slots : CapacityEvidence → ℕ → ℕ → ℕ
unfolding max_ℤ min_ℤ ◌-ℤ◌
free_slots capacity inventory waiting =
    pos_part (min_ℤ (max_ℤ (capacity.maximum -ℤ pos inventory) (pos 0)) (pos waiting))

-- The part of `planCapacity` where rotation is active: `waiting` found no free slot.
unfoldable pub plan_swaps : CapacityInput → List WaitingArtwork → List WaitingArtwork → CapacityPlan
unfolding pair_swaps next_rotation evict_due rotation_due owned_order
plan_swaps input fills waiting =
    let interval = input.policy.rotation in
    let eligible = count_while (λ w. rotation_due w.last_shown interval input.now) waiting in
    let owned = sort_func owned_order input.owned in
    let evictable = count_while (evict_due interval input.now) owned in
    let swaps = min eligible evictable in
    record {
      fills = fills;
      swaps = pair_swaps (take swaps owned) (take swaps waiting);
      limited = false;
      rotation = record {
        active = true;
        waiting = length waiting;
        next_at =
            next_rotation (drop swaps owned) (drop swaps waiting) (ltb 0 swaps) interval input.now;
      };
    }

pub plan_shortfall : CapacityInput → List WaitingArtwork → List WaitingArtwork → CapacityPlan
unfolding plan_swaps rotation_active
plan_shortfall input fills [] = record {
  fills = fills;
  swaps = [];
  limited = false;
  rotation = no_rotation;
}
plan_shortfall input fills (w ∷ waiting) =
    if rotation_active input
    then plan_swaps input fills (w ∷ waiting)
    else record { fills = fills; swaps = []; limited = true; rotation = no_rotation }

-- `planCapacity`.
unfoldable pub plan_capacity : CapacityInput → CapacityPlan
unfolding plan_shortfall prioritize_waiting waiting_order free_slots
plan_capacity input =
    let waiting = prioritize_waiting input.waiting in
    let free = free_slots input.state.capacity input.inventory (length waiting) in
    if input.state.capacity.known
    then plan_shortfall input (take free waiting) (drop free waiting)
    else record { fills = waiting; swaps = []; limited = false; rotation = no_rotation }

-- `recordShown`.
unfoldable pub record_shown : State → Text → ℕ → State
record_shown s digest at = record s { last_shown = insert digest at s.last_shown }

-- `retainShownHistory`, over the digests of the collection.
unfoldable pub retain_shown_history : State → Dict (Unit {0}) → State
retain_shown_history s desired = record s {
  last_shown = delete_where (λ digest at. not (has_key digest desired)) s.last_shown;
}

-- `storageFullCapacity`.
unfoldable pub storage_full_capacity : CapacityEvidence → ℕ → ℕ → CapacityEvidence
storage_full_capacity previous inventory now = record {
  known = true;
  maximum = pos inventory;
  observed_at = now;
  probe = false;
  shortfalls =
      if previous.known && not previous.probe && ltb_ℤ (pos inventory) previous.maximum
      then previous.shortfalls +ℤ pos 1
      else previous.shortfalls;
}
