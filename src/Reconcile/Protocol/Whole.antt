-- ===== src/Reconcile/Protocol/Whole.antt =====
-- A whole run, from the state that it loads to the end of its cycle, keeps the protocol.
use frame_tv_art_manager.Prelude.{
  ◌≡◌, refl, sym, subst, ◌<◌, ◌≤◌, Text, Bool, false, not, ◌&&◌, ◌==◌, List, [], All, Option, none,
  some, arith, if_cases, holds,
}
use frame_tv_art_manager.Samsung.Types.{Observation}
use frame_tv_art_manager.Reconcile.Types.{
  State, Pending, Policy, PowerPolicy, PowerPolicy-discrete, CommandKind, TvIdentity, Hashes,
}
use frame_tv_art_manager.Reconcile.Errors.{Result, ok, err, Err}
use frame_tv_art_manager.Reconcile.Validate.{identity_from_observation}
use frame_tv_art_manager.Reconcile.Execution.{Run, return}
use frame_tv_art_manager.Reconcile.Wake.{scheduled_wake, WakeStep}
use frame_tv_art_manager.Reconcile.Migration.FirstRun.{
  prepare_initial_state, state_for_first_run, mapped_first, bound_first, initial_state,
}
use frame_tv_art_manager.Reconcile.Migration.{project_legacy_mapping}
use frame_tv_art_manager.Reconcile.Service.Woken.{WakesOnce, run-WakesOnce}
use frame_tv_art_manager.Reconcile.Service.Start.{
  run_started, run_loaded, run_identified, run_woken, run_observed, run,
}
use frame_tv_art_manager.Reconcile.Service.Request.{
  Request, ServiceConfig, RunAnswers, RunResult, effective_policy, request_valid, wants_on,
}
use frame_tv_art_manager.Reconcile.Protocol.{
  Stage, Step, Runs, Runs-Agrees, Runs-le, Agrees, number, stage_of, open_in,
}
use frame_tv_art_manager.Reconcile.Protocol.Sending.{Ends, Leads, return-Leads}
use frame_tv_art_manager.Reconcile.Protocol.Receipt.{IsOutside}
use frame_tv_art_manager.Reconcile.Protocol.Recovery.{Loose, returned-Leads}
use frame_tv_art_manager.Reconcile.Protocol.Cycle.{IsOutsideRound}
use frame_tv_art_manager.Reconcile.Protocol.Finish.{IsClosed}
use frame_tv_art_manager.Reconcile.Protocol.Result.{Keeps, failed-Keeps, after-Keeps, live}
use frame_tv_art_manager.Reconcile.Protocol.Started.{started-Keeps}

module _ (lower : Text → Text) (h : Hashes) (service : ServiceConfig) (request : Request)
    (a : RunAnswers) (rounds : All IsOutsideRound a.rounds) where
  -- The state of a first run.
  bound_first-Leads :
      (o : Observation) (s : State) (x : Result _)
      → s.pending ≡ none
      → 0 < s.revision
      → Leads Loose none Stage.idle (bound_first h false request.snapshot o a.legacy s x)
  unfolding bound_first
  bound_first-Leads o s (err e) p n = return-Leads Loose none Stage.idle s o (some e) tt
  bound_first-Leads o s (ok (bindings, ignored)) p n =
      returned-Leads o none Stage.idle (record s { bindings = bindings }) a.legacy.save_error n p
        (λ v. Step.record_state _ v p)

  first-Leads :
      (o : Observation) (identity : TvIdentity)
      → Leads Loose none Stage.idle
          (state_for_first_run h false request.snapshot o a.legacy identity)
  unfolding state_for_first_run mapped_first
  first-Leads o identity = mapped a.legacy.mapping
    where
      mapped :
          (x : Result _)
          → Leads Loose none Stage.idle
              (mapped_first h false request.snapshot o a.legacy (initial_state identity) x)
      mapped (err e) = return-Leads Loose none Stage.idle (initial_state identity) o (some e) tt
      mapped (ok none) =
          return-Leads Loose none Stage.idle (initial_state identity) o none
            (refl, refl, omega arith)
      mapped (ok (some mapping)) =
          bound_first-Leads o (initial_state identity)
            (project_legacy_mapping h request.snapshot o mapping a.legacy.now) refl (omega arith)

  first-Keeps :
      (policy : Policy) (o : Observation) (woken : List CommandKind) (r : Run)
      → IsOutside a.power_on.answers
      → Leads Loose none Stage.idle r
      → Keeps none Stage.idle
          (run_started lower h service (live request) a policy o woken r r.done.error)
  unfolding run_started
  first-Keeps policy o woken r outside l = go r.done.error refl
    where
      go :
          (error : Option Err)
          → r.done.error ≡ error
          → Keeps none Stage.idle
              (run_started lower h service (live request) a policy o woken r error)
      go (some e) q = record { store = l.store; stage = l.stage; runs = l.runs; closed = tt }
      go none q =
          let rests = subst (λ x. Ends Loose l.store l.stage r.done.state x) q l.ended in
          after-Keeps none l.store Stage.idle Stage.idle r.events _
            (subst (λ x. Runs none Stage.idle r.events l.store x) rests.0 l.runs)
            (subst
              (λ x. Keeps l.store (stage_of x) (
                run_started lower h service (live request) a policy o woken
                  (return r.done.state o none) none))
              rests.1
              (started-Keeps lower h service request a rounds l.store policy o woken r.done.state
                outside rests.2))

  module _ (outside : IsOutside a.power_on.answers) (found : Option State)
      (loaded : a.loaded ≡ ok found) where
    initial-Keeps :
        (policy : Policy) (o : Observation) (woken : List CommandKind) (identity : TvIdentity)
        (s : Option State)
        → Keeps s
            (stage_of (open_in s))
            (run_loaded lower h service (live request) a policy o woken identity (ok s))
    unfolding run_loaded prepare_initial_state
    initial-Keeps policy o woken identity (some s) =
        started-Keeps lower h service request a rounds (some s) policy o woken
          (record s { tv = identity }) outside (omega arith)
    initial-Keeps policy o woken identity none =
        if_cases
          (λ (r : Run).
            Keeps none Stage.idle
              (run_started lower h service (live request) a policy o woken r r.done.error))
          (holds (PowerPolicy-discrete policy.power PowerPolicy.on)) _ _
          (λ _.
            started-Keeps lower h service request a rounds none policy o woken
              (record (initial_state identity) {
                legacy_migration_pending = service.legacy_configured;
              })
              outside (omega arith))
          (λ _. first-Keeps policy o woken _ outside (first-Leads o identity))

    identified-Keeps :
        (policy : Policy) (o : Observation) (woken : List CommandKind)
        (identity : Option TvIdentity)
        → Keeps found
            (stage_of (open_in found))
            (run_identified lower h service (live request) a policy o woken identity)
    unfolding run_identified
    identified-Keeps policy o woken none = failed-Keeps found _ _ _ refl refl
    identified-Keeps policy o woken (some identity) =
        subst
          (λ x.
            Keeps found (stage_of (open_in found))
              (run_loaded lower h service (live request) a policy o woken identity x))
          (sym loaded) (initial-Keeps policy o woken identity found)

    step-Keeps :
        (step : WakeStep) (error : Option Err)
        → Keeps found
            (stage_of (open_in found))
            (run_woken lower h service (live request) a step error)
    unfolding run_woken
    step-Keeps step (some e) = failed-Keeps found _ _ e refl refl
    step-Keeps step none = identified-Keeps step.policy step.observation step.applied _

    observed-Keeps :
        (policy : Policy) (error : Option Err)
        → Keeps found
            (stage_of (open_in found))
            (run_observed lower h service (live request) a policy error)
    unfolding run_observed
    observed-Keeps policy (some e) = failed-Keeps found _ _ e refl refl
    observed-Keeps policy none =
        if_cases (Keeps found (stage_of (open_in found)))
          (wants_on policy && not (policy.wake_boundary == 0)) _ _
          (λ _.
            let w = scheduled_wake a.wake false policy a.observed in
            let k = step-Keeps w.step w.step.error in
            record { store = k.store; stage = k.stage; runs = k.runs; closed = k.closed })
          (λ _. identified-Keeps policy a.observed [] (identity_from_observation a.observed))

    live-Keeps : Keeps found (stage_of (open_in found)) (run lower h service (live request) a)
    unfolding run
    live-Keeps =
        let policy = effective_policy service.policy request.policy in
        if_cases (Keeps found (stage_of (open_in found)))
          (request_valid lower h (live request) policy) _ _
          (λ _. observed-Keeps policy a.observe_error) (λ _. failed-Keeps found _ _ _ refl refl)

-- What a run does to the store and to the TV is what the machine lets happen, from the store that it
-- loaded on.
pub record Refines (held : Option State) (r : RunResult) : Type 0 where
  pub store : Option State
  pub stage : Stage
  pub runs : Runs held (stage_of (open_in held)) r.events store stage
  pub agrees : Agrees store stage
  pub rising : number held ≤ number store
  pub closed : IsClosed r.error r.unfinished stage

-- What was found in the store stands for itself.
pub stage_of-Agrees :
    (held : Option State) (p : Option Pending) → open_in held ≡ p → Agrees held (stage_of p)
stage_of-Agrees held none e = e
stage_of-Agrees held (some p) e = e

refined :
    (held : Option State) (r : RunResult) → Keeps held (stage_of (open_in held)) r → Refines held r
refined held r k = record {
  store = k.store;
  stage = k.stage;
  runs = k.runs;
  agrees = Runs-Agrees k.runs (stage_of-Agrees held (open_in held) refl);
  rising = Runs-le k.runs;
  closed = k.closed;
}

pub run-Refines :
    (lower : Text → Text) (h : Hashes) (service : ServiceConfig) (request : Request)
    (a : RunAnswers) (found : Option State)
    → request.dry_run ≡ false
    → a.loaded ≡ ok found
    → All IsOutsideRound a.rounds
    → IsOutside a.power_on.answers
    → Refines found (run lower h service request a)
      × WakesOnce lower h service request a (run lower h service request a).wake_events
run-Refines lower h service request a found live_run loaded rounds outside = (
  subst (λ (b : Bool). Refines found (run lower h service (record request { dry_run = b }) a))
      (sym live_run)
      (refined found (run lower h service (live request) a)
        (live-Keeps lower h service request a rounds outside found loaded)),
  run-WakesOnce lower h service request a,
)
