-- ===== src/Reconcile/Probe/Planned.antt =====
-- The state that `buildPlan` returns with a plan is the one that the plan is for.
use frame_tv_art_manager.Prelude.{
  inl, inr, Bool-cases, not, ◌||◌, Bool-cases, ◌≡◌, refl, arith, ℕ, Text,
}
use frame_tv_art_manager.Prelude.Int.{ℤ}
use frame_tv_art_manager.Samsung.Types.{Observation}
use frame_tv_art_manager.Collection.Types.{Snapshot}
use frame_tv_art_manager.Reconcile.Types.{State, Policy, Plan, Hashes, CapacityEvidence}
use frame_tv_art_manager.Reconcile.Errors.{err-ne-ok, Result, ok, err}
use frame_tv_art_manager.Reconcile.Plan.{plan_snapshot}
use frame_tv_art_manager.Reconcile.Probe.{
  has_capacity_mutation, capacity_probe_eligible, CommandKind, has_command, build_probed_plan,
  probe_plan, with_state, prefer_probe, project_capacity_probe,
}

projected_eq :
    (s : State) (o : Observation) (now : ℕ)
    → project_capacity_probe s o now
      ≡ record s { capacity = (project_capacity_probe s o now).capacity }
unfolding project_capacity_probe
projected_eq s o now = refl

module _ (lower : Text → Text) (h : Hashes) (snapshot : Snapshot) (o : Observation)
    (policy : Policy) where
  -- The state is the given one but for its capacity evidence.
  pub record IsFor (s : State) (plan : Plan) (state : State) : Type 0 where
    pub capacity : CapacityEvidence
    pub state_eq : state ≡ record s { capacity = capacity }
    pub planned : plan_snapshot lower h snapshot o state policy ≡ ok plan

  with_state-IsFor :
      (s held : State) (capacity : CapacityEvidence) (plan : Plan) (state : State)
      (planned : Result Plan)
      → plan_snapshot lower h snapshot o held policy ≡ planned
      → held ≡ record s { capacity = capacity }
      → with_state lower h snapshot o policy held planned ≡ ok (plan, state)
      → IsFor s plan state
  unfolding with_state
  with_state-IsFor s held capacity plan state (err e) p q r = absurd (err-ne-ok e _ r)
  with_state-IsFor s held capacity plan state (ok probe) p q r = record {
    capacity = capacity;
    state_eq = ground arith;
    planned = ground arith;
  }

  prefer-IsFor :
      (s : State) (plan probe : Plan) (now : ℕ) (state : State) (q : Plan)
      → plan_snapshot lower h snapshot o s policy ≡ ok plan
      → plan_snapshot lower h snapshot o (project_capacity_probe s o now) policy ≡ ok probe
      → prefer_probe lower h snapshot o policy plan s (project_capacity_probe s o now) (ok probe)
        ≡ ok (q, state)
      → IsFor s q state
  unfolding prefer_probe project_capacity_probe
  prefer-IsFor s plan probe now state q p r e =
      elim (Bool-cases (has_command probe.commands CommandKind.upload)) [
        | inl t ↦ record {
          capacity = (project_capacity_probe s o now).capacity;
          state_eq = ground arith;
          planned = ground arith;
        }
        | inr t ↦ record { capacity = s.capacity; state_eq = ground arith; planned = ground arith }
      ]

  fresh-IsFor :
      (s : State) (plan : Plan) (now : ℕ) (state : State) (q : Plan) (probe : Result Plan)
      → plan_snapshot lower h snapshot o s policy ≡ ok plan
      → plan_snapshot lower h snapshot o (project_capacity_probe s o now) policy ≡ probe
      → prefer_probe lower h snapshot o policy plan s (project_capacity_probe s o now) probe
        ≡ ok (q, state)
      → IsFor s q state
  unfolding prefer_probe
  fresh-IsFor s plan now state q (err e) p r h' = absurd (err-ne-ok e _ h')
  fresh-IsFor s plan now state q (ok probe) p r h' = prefer-IsFor s plan probe now state q p r h'

  kept-IsFor :
      (s : State) (plan : Plan) (state : State) (q : Plan)
      → plan_snapshot lower h snapshot o s policy ≡ ok plan
      → ◌≡◌ {A = Result (Plan × State)} (ok (plan, s)) (ok (q, state))
      → IsFor s q state
  kept-IsFor s plan state q p e = record {
    capacity = s.capacity;
    state_eq = ground arith;
    planned = ground arith;
  }

  probe_plan-IsFor :
      (s : State) (now : ℕ) (ttl : ℤ) (plan : Plan) (state : State) (planned : Result Plan)
      → plan_snapshot lower h snapshot o s policy ≡ planned
      → probe_plan lower h snapshot o policy s now ttl planned ≡ ok (plan, state)
      → IsFor s plan state
  unfolding probe_plan
  probe_plan-IsFor s now ttl plan state (err e) p q = absurd (err-ne-ok e _ q)
  probe_plan-IsFor s now ttl plan state (ok first) p q = elim (Bool-cases s.capacity.probe) [
    | inl t ↦
        with_state-IsFor s (project_capacity_probe s o s.capacity.observed_at)
          (project_capacity_probe s o s.capacity.observed_at).capacity plan state
          (plan_snapshot lower h snapshot o (project_capacity_probe s o s.capacity.observed_at)
            policy)
          refl (projected_eq s o s.capacity.observed_at) (ground arith)
    | inr t ↦
        elim (Bool-cases (
          not (capacity_probe_eligible s.capacity now ttl)
          || has_capacity_mutation first.commands)) [
            | inl k ↦ kept-IsFor s first state plan p (ground arith)
            | inr k ↦
                fresh-IsFor s first now state plan
                  (plan_snapshot lower h snapshot o (project_capacity_probe s o now) policy) p refl
                  (ground arith)
          ]
  ]

  pub build_probed_plan-IsFor :
      (s : State) (now : ℕ) (ttl : ℤ) (plan : Plan) (state : State)
      → build_probed_plan lower h snapshot o policy s now ttl ≡ ok (plan, state)
      → IsFor s plan state
  unfolding build_probed_plan
  build_probed_plan-IsFor s now ttl plan state e =
      probe_plan-IsFor s now ttl plan state (plan_snapshot lower h snapshot o s policy) refl e
