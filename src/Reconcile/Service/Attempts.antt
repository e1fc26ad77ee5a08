-- ===== src/Reconcile/Service/Attempts.antt =====
-- Every command that a cycle carries out was planned, on what the TV showed right before.
use frame_tv_art_manager.Prelude.{
  All-of, arith, ◌≡◌, sym, ap, subst, ◌∙◌, true, List, Text, All, holds-true,
}
use frame_tv_art_manager.Prelude.Dict.{Entries, Entries-imp}
use frame_tv_art_manager.Samsung.Types.{Observation, Disposition, Disposition-discrete}
use frame_tv_art_manager.Reconcile.Types.{State, Plan, CommandIntent, CommandKind, Hashes}
use frame_tv_art_manager.Reconcile.Inputs.{snapshot_valid, normalize_policy}
use frame_tv_art_manager.Reconcile.Validate.{binding_valid}
use frame_tv_art_manager.Reconcile.Validate.Maps.{bindings_valid-Entries, IsValidBinding}
use frame_tv_art_manager.Reconcile.Recovery.Validity.{state_valid-Checked}
use frame_tv_art_manager.Reconcile.Plan.Ownership.{IsAllowed}
use frame_tv_art_manager.Reconcile.Plan.Allowed.{IsKeyed, plan_commands-IsAllowed}
use frame_tv_art_manager.Reconcile.Plan.Sendable.{IsSendable}
use frame_tv_art_manager.Reconcile.Plan.Built.{
  Passed, plan_snapshot-Passed, plan_snapshot-IsSendable, IsCollected,
}
use frame_tv_art_manager.Reconcile.Probe.Planned.{IsFor, build_probed_plan-IsFor}
use frame_tv_art_manager.Reconcile.Execution.Keys.{IsMap, execute-IsMap}
use frame_tv_art_manager.Reconcile.Service.{ExecutionInput, converge, after, execution_input, paced}
use frame_tv_art_manager.Reconcile.Loop.{Setup, Round, Loop, Attempt, begin}
use frame_tv_art_manager.Reconcile.Service.Invariant.{converge-has}
use frame_tv_art_manager.Reconcile.Service.Hooks.{
  AnyRound, Survives, EndHas, Planned, run_of, input_of,
}
use frame_tv_art_manager.Reconcile.Service.Replan.{Source, replan-Source, All-restrict}

module _ (lower : Text → Text) (h : Hashes) (c : Setup) where
  -- What `execute` is asked for: a command that a plan for this observation and this state may
  -- hold, and that `validateIntent` accepts, on a TV that is eligible.
  pub record IsWarranted (i : ExecutionInput) : Type 0 where
    pub eligible : i.observation.disposition ≡ Disposition.eligible
    pub allowed : IsAllowed c.snapshot i.observation i.state (normalize_policy c.policy) i.intent
    pub sendable : IsSendable i.intent

  abbrev pub IsWarrantedLog : List Attempt → Type 0
  IsWarrantedLog log = All (λ a. IsWarranted a.input) log

  record Warranted (l : Loop) : Type 0 where
    keyed : IsMap l.state
    warranted : IsWarrantedLog l.log

  binding-keyed :
      (s : State) → Entries IsValidBinding s.bindings → Entries (λ k b. b.digest ≡ k) s.bindings
  unfolding binding_valid
  binding-keyed s e = Entries-imp _ _ (λ k b v. ground arith) s.bindings e

  module _ (valid : snapshot_valid h c.snapshot ≡ true) (items : All IsCollected c.snapshot.items)
      (r : Round) (l : Loop) (refreshed : Plan) (state : State) (command : CommandIntent)
      (keyed : IsMap l.state) (p : Planned lower h c AnyRound r l refreshed state command) where
    source : Source lower h c l.selected r.observed l.state r.planned_at refreshed state
    source =
        replan-Source lower h c l.selected r.observed l.state r.planned_at refreshed state p.planned

    IsFor-state : IsFor lower h c.snapshot r.observed c.policy l.state source.plan state
    IsFor-state =
        build_probed_plan-IsFor lower h c.snapshot r.observed c.policy l.state r.planned_at
          c.capacity_ttl source.plan state source.built

    -- What holds of all commands of the plan holds of the one that is tried.
    first-All : (P : CommandIntent → Type 0) → All P source.plan.commands → P command
    first-All P a =
        (subst (All P) (ap (λ q. q.commands) (sym source.restricted) ∙ p.first)
          (All-restrict P l.selected c.unresolved source.plan a)).0

    state-IsMap : IsMap state
    state-IsMap = subst IsMap (sym IsFor-state.state_eq) keyed

    passed : Passed lower h c.snapshot r.observed state c.policy source.plan
    passed =
        plan_snapshot-Passed lower h c.snapshot r.observed state c.policy source.plan
          IsFor-state.planned

    state-IsKeyed : IsKeyed state.bindings
    state-IsKeyed = (
      state-IsMap,
      binding-keyed state
          (bindings_valid-Entries state.bindings
            (state_valid-Checked state passed.identity passed.state_ok).bindings).0,
    )

    planned-IsAllowed : IsAllowed c.snapshot r.observed state (normalize_policy c.policy) command
    planned-IsAllowed =
        first-All (IsAllowed c.snapshot r.observed state (normalize_policy c.policy)) (
          subst (All (IsAllowed c.snapshot r.observed state (normalize_policy c.policy)))
            (sym passed.commands_eq)
            (plan_commands-IsAllowed c.snapshot r.observed state (normalize_policy c.policy) _
              state-IsKeyed))

    planned-IsSendable : IsSendable command
    planned-IsSendable = first-All IsSendable (
        plan_snapshot-IsSendable lower h c.snapshot r.observed state c.policy source.plan valid
          IsFor-state.planned items)

    input-IsWarranted : IsWarranted (input_of lower h c r state command)
    unfolding execution_input
    input-IsWarranted = record {
      eligible =
          holds-true (Disposition-discrete r.observed.disposition Disposition.eligible) p.eligible;
      allowed = planned-IsAllowed;
      sendable = planned-IsSendable;
    }

    after-IsMap : IsMap (run_of lower h c r l state command).done.state
    unfolding execution_input
    after-IsMap =
        execute-IsMap lower h (input_of lower h c r state command)
          (paced lower h c l.pace r.answers) state-IsMap

  Warranted-Survives :
      snapshot_valid h c.snapshot ≡ true
      → All IsCollected c.snapshot.items
      → Survives lower h c AnyRound Warranted
          (λ l. IsWarrantedLog l.log)
          (λ l. IsWarrantedLog l.log)
  unfolding after
  Warranted-Survives v items = record {
    leaving = λ l g. g.warranted;
    ending = λ l g. g.warranted;
    quiet = λ l plan state prune keeps g. record {
      keyed = subst IsMap (sym keeps) g.keyed;
      warranted = g.warranted;
    };
    tried = λ r l refreshed state command g p.
        (input-IsWarranted v items r l refreshed state command g.keyed p, g.warranted);
    applied_off = λ r l refreshed state command g p e k.
        (input-IsWarranted v items r l refreshed state command g.keyed p, g.warranted);
    applied_other = λ r l refreshed state command g p e k. record {
      keyed = after-IsMap v items r l refreshed state command g.keyed p;
      warranted = (input-IsWarranted v items r l refreshed state command g.keyed p, g.warranted);
    };
    retried = λ r l refreshed state command f g p e t m. record {
      keyed = after-IsMap v items r l refreshed state command g.keyed p;
      warranted = (input-IsWarranted v items r l refreshed state command g.keyed p, g.warranted);
    };
    absorbed = λ r l refreshed state command f g p e t. record {
      keyed = after-IsMap v items r l refreshed state command g.keyed p;
      warranted = (input-IsWarranted v items r l refreshed state command g.keyed p, g.warranted);
    };
  }

-- Of a snapshot that `validateSnapshot` accepts, whose items' digests have 32 bytes and whose names
-- are nonblank and no absolute paths, and from a state in which each digest is bound once: whatever
-- the world answers, the loop of a cycle does not panic, and every command that it carries out is
-- one that the plan for the observation made right before allows, that `validateIntent` accepts, and
-- that meets an eligible TV.
pub converge-IsWarranted :
    (lower : Text → Text) (h : Hashes) (c : Setup) (state : State) (o : Observation) (plan : Plan)
    (applied : List CommandKind) (rounds : List Round)
    → snapshot_valid h c.snapshot ≡ true
    → All IsCollected c.snapshot.items
    → IsMap state
    → EndHas
        (λ l. IsWarrantedLog lower h c l.log)
        (converge lower h c rounds (begin state o plan applied))
converge-IsWarranted lower h c state o plan applied rounds v items u =
    converge-has lower h c AnyRound (Warranted lower h c) (λ l. IsWarrantedLog lower h c l.log)
      (λ l. IsWarrantedLog lower h c l.log) (Warranted-Survives lower h c v items) rounds
      (begin state o plan applied) (All-of AnyRound (λ r. tt) rounds)
      (record { keyed = u; warranted = tt })
