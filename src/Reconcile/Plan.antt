-- ===== src/Reconcile/Plan.antt =====
-- internal/reconcile/planner.go: `planSnapshot` and `BuildPlan`, put together from the phases.
pub mod Classify
pub mod Phases
pub mod Sendable
pub mod Built
pub mod Ownership
pub mod Allowed
pub mod Settings
pub mod Neutral
pub mod Trajectory
pub mod Empty
pub mod Shown
pub mod Settled
use frame_tv_art_manager.Prelude.{
  ℕ, ◌-◌, Text, text_compare, Bool, true, false, if◌then◌else◌, List, [], ◌∷◌, ◌++◌, map, Option,
  none, some, length,
}
use frame_tv_art_manager.Prelude.Sort.{sort_func}
use frame_tv_art_manager.Prelude.Dict.{Dict, keys}
use frame_tv_art_manager.Samsung.Types.{Observation}
use frame_tv_art_manager.Collection.Types.{Item, Snapshot}
use frame_tv_art_manager.Reconcile.Types.{State, Policy, Plan, CommandIntent, Hashes, Pending}
use frame_tv_art_manager.Reconcile.Errors.{Result, ok, err, Cause, or_plain, ◌>>=◌}
use frame_tv_art_manager.Reconcile.Validate.{state_valid}
use frame_tv_art_manager.Reconcile.Inputs.{
  validate_observation, snapshot_valid, normalize_policy, fingerprint_policy, override_index,
}
use frame_tv_art_manager.Reconcile.Rotation.{CapacityInput, CapacityPlan, plan_capacity}
use frame_tv_art_manager.Reconcile.Planner.{
  Classified, classify, desired_items, waiting_items, obsolete_order, delete_obsolete,
  upload_intent, swap_intents, delete_unknown_intents, select_intent, slideshow_intents,
  brightness_intents, power_intents,
}

module _ (snapshot : Snapshot) (observation : Observation) (state : State) (policy : Policy) where
  abbrev pub inventory_ids : List Text
  inventory_ids = observation.inventory.content_ids

  abbrev pub desired : Dict Item
  desired = desired_items [] snapshot.items

  abbrev pub classified : Classified
  classified = classify inventory_ids desired state.bindings

  abbrev pub capacity_input : CapacityInput
  capacity_input = record {
    waiting = waiting_items inventory_ids state desired;
    owned = classified.owned;
    state = state;
    inventory = length inventory_ids;
    policy = policy;
    now = observation.inventory.observed_at;
  }

  abbrev pub admission : CapacityPlan
  admission = plan_capacity capacity_input

  -- The deletions of obsolete artwork.
  abbrev pub obsolete_deletions : List CommandIntent
  obsolete_deletions =
      delete_obsolete policy.allow_empty (length classified.owned)
        (length state.bindings - length classified.prune)
        (sort_func obsolete_order classified.obsolete)

  -- The commands, in the order in which `planSnapshot` appends them.
  unfoldable pub plan_commands : Dict Text → List CommandIntent
  plan_commands overrides =
      obsolete_deletions
      ++ (map (upload_intent policy overrides) admission.fills
          ++ (swap_intents policy overrides admission.swaps
              ++ ((if policy.remove_unknown
                    then delete_unknown_intents classified.bound inventory_ids
                    else [])
                  ++ ((if policy.select
                        then select_intent inventory_ids state
                            (sort_func text_compare (keys desired))
                        else [])
                      ++ (slideshow_intents policy.slideshow observation.slideshow
                          ++ (brightness_intents policy.brightness observation.brightness
                              ++ power_intents policy.power))))))

  -- The plan, once the inputs have passed their checks.
  unfoldable pub checked_plan : List ℕ → Plan
  unfolding plan_commands
  checked_plan policy_fingerprint = record {
    collection_generation = snapshot.generation;
    policy_fingerprint = policy_fingerprint;
    inventory_fingerprint = observation.inventory.fingerprint;
    capacity_limited = admission.limited;
    rotation = admission.rotation;
    commands = plan_commands (override_index policy.matte_overrides);
    prune_bindings = sort_func text_compare classified.prune;
  }

abbrev no_pending : Option Pending → Result (Unit {0})
no_pending none = ok tt
no_pending (some p) = err (Cause.recovery_required ∷ [])

abbrev check : Bool → Result (Unit {0})
check true = ok tt
check false = err (Cause.plain ∷ [])

module _ (lower : Text → Text) (h : Hashes) where
  -- `planSnapshot`. `policy.MatteOverrides.index` cannot fail here: `fingerprintPolicy` has checked
  -- the overrides.
  unfoldable pub plan_snapshot : Snapshot → Observation → State → Policy → Result Plan
  unfolding checked_plan
  plan_snapshot snapshot observation state policy = do
    let normal = normalize_policy policy
    identity ← or_plain (validate_observation h observation)
    checked ← check (state_valid state identity)
    idle ← no_pending state.pending
    fingerprint ← or_plain (fingerprint_policy lower h normal)
    ok (checked_plan snapshot observation state normal fingerprint)

  -- `BuildPlan`.
  unfoldable pub build_plan : Snapshot → Observation → State → Policy → Result Plan
  build_plan snapshot observation state policy = do
    checked ← check (snapshot_valid h snapshot)
    plan_snapshot snapshot observation state policy
