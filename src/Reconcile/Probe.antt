-- ===== src/Reconcile/Probe.antt =====
-- internal/reconcile/capacity.go: what the planner does with old evidence that the storage is full.
pub mod Uploads
pub mod Planned
use frame_tv_art_manager.Prelude.{
  ℕ, suc, ◌+◌, ◌==◌, ltb, Text, Bool, true, false, not, ◌&&◌, ◌||◌, if◌then◌else◌, List, [], ◌∷◌,
  length, contains_func, holds,
}
use frame_tv_art_manager.Prelude.Int.{ℤ, pos, add_duration}
use frame_tv_art_manager.Samsung.Types.{Observation}
use frame_tv_art_manager.Collection.Types.{Snapshot}
use frame_tv_art_manager.Reconcile.Types.{
  State, Policy, Plan, CommandIntent, CommandKind, CommandKind-discrete, CapacityEvidence, Hashes,
}
use frame_tv_art_manager.Reconcile.Errors.{Result, ok, err}
use frame_tv_art_manager.Reconcile.Plan.{plan_snapshot}

-- `projectCapacityProbe`: one more piece than the TV holds might fit.
unfoldable pub project_capacity_probe : State → Observation → ℕ → State
project_capacity_probe state observation observed_at = record state {
  capacity = record {
    known = true;
    maximum = pos (suc (length observation.inventory.content_ids));
    observed_at = observed_at;
    probe = true;
    shortfalls = state.capacity.shortfalls;
  };
}

-- `capacityProbeEligible`.
unfoldable pub capacity_probe_eligible : CapacityEvidence → ℕ → ℤ → Bool
capacity_probe_eligible evidence now ttl =
    evidence.known
    && not (evidence.observed_at == 0)
    && not (ltb now (add_duration evidence.observed_at ttl))

abbrev changes_capacity : CommandKind → Bool
changes_capacity CommandKind.upload = true
changes_capacity CommandKind.delete_owned = true
changes_capacity CommandKind.delete_unknown = true
changes_capacity _ = false

-- `hasCapacityMutation`.
unfoldable pub has_capacity_mutation : List CommandIntent → Bool
has_capacity_mutation commands = contains_func (λ c. changes_capacity c.kind) commands

-- `hasCommand`.
unfoldable pub has_command : List CommandIntent → CommandKind → Bool
has_command commands kind = contains_func (λ c. holds (CommandKind-discrete c.kind kind)) commands

module _ (lower : Text → Text) (h : Hashes) (snapshot : Snapshot) (observation : Observation)
    (policy : Policy) where
  -- The plan of a projected state, with that state.
  with_state : State → Result Plan → Result (Plan × State)
  with_state s (err e) = err e
  with_state s (ok plan) = ok (plan, s)

  -- The probe is taken only where it uploads.
  prefer_probe : Plan → State → State → Result Plan → Result (Plan × State)
  prefer_probe plan state projected (err e) = err e
  prefer_probe plan state projected (ok probe) =
      if has_command probe.commands CommandKind.upload
      then ok (probe, projected)
      else ok (plan, state)

  probe_plan : State → ℕ → ℤ → Result Plan → Result (Plan × State)
  unfolding with_state prefer_probe
  probe_plan state now ttl (err e) = err e
  probe_plan state now ttl (ok plan) =
      let held = project_capacity_probe state observation state.capacity.observed_at in
      let fresh = project_capacity_probe state observation now in
      if state.capacity.probe
      then with_state held (plan_snapshot lower h snapshot observation held policy)
      else if not (capacity_probe_eligible state.capacity now ttl)
          || has_capacity_mutation plan.commands
      then ok (plan, state)
      else prefer_probe plan state fresh (plan_snapshot lower h snapshot observation fresh policy)

  -- `service.buildPlan`: the plan, and the state that it is for. On an error the source returns the
  -- state that it was given.
  unfoldable pub build_probed_plan : State → ℕ → ℤ → Result (Plan × State)
  unfolding probe_plan
  build_probed_plan state now ttl =
      probe_plan state now ttl (plan_snapshot lower h snapshot observation state policy)
