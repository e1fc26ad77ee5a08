-- ===== src/Reconcile/Service.antt =====
-- internal/reconcile/service.go: the convergence loop of `run`, from the first plan on. What the
-- world answers in one pass of the loop is a round; a run takes the rounds in their order, and waits
-- when they are used up.
pub mod Finish
pub mod Complete
pub mod Hooks
pub mod Invariant
pub mod Replan
pub mod Cycle
pub mod Retries
pub mod Attempts
pub mod Recover
pub mod PowerOff
pub mod Request
pub mod Start
pub mod Silent
pub mod Rehearsal
pub mod DryRun
pub mod Settled
pub mod Woken
pub mod Entry
use frame_tv_art_manager.Prelude.{
  ℕ, suc, ltb, Text, Text-discrete, Bool, true, false, not, ◌&&◌, ◌||◌, if◌then◌else◌, List, [],
  ◌∷◌, ◌++◌, Option, none, some, contains, contains_func, holds,
}
use frame_tv_art_manager.Prelude.Int.{ℤ, is_positive}
use frame_tv_art_manager.Samsung.Types.{Observation, Disposition, Disposition-discrete}
use frame_tv_art_manager.Collection.Types.{Snapshot}
use frame_tv_art_manager.Reconcile.Types.{
  State, Policy, Plan, Status, CommandIntent, CommandIntent-discrete, CommandKind,
  CommandKind-discrete, Hashes,
}
use frame_tv_art_manager.Reconcile.Errors.{
  Result, ok, err, ◌>>=◌, Err, Cause, error_is, status_for_error,
}
use frame_tv_art_manager.Reconcile.Probe.{build_probed_plan}
use frame_tv_art_manager.Reconcile.Recovery.Parked.{without_command, artwork_commands_blocked}
use frame_tv_art_manager.Reconcile.Execution.{Answers, Run, Event}
use frame_tv_art_manager.Reconcile.Execution.Execute.{ExecutionInput, execute}
use frame_tv_art_manager.Reconcile.Loop.{
  Setup, Round, Loop, Pass, is_kind, mark_retried, done_with, selected_with, absorbed_with,
  same_intent, same_as, is_eligible, add_all, restrict, panics,
}

module _ (lower : Text → Text) (h : Hashes) (c : Setup) where
  -- `replan`.
  unfoldable pub replan : Bool → Observation → State → ℕ → Result (Plan × State)
  replan selected observation state now = do
    planned ← build_probed_plan lower h c.snapshot observation c.policy state now c.capacity_ttl
    ok (restrict selected c.unresolved planned.0, planned.1)

  unfoldable pub execution_input : CommandIntent → State → Observation → ExecutionInput
  execution_input command state fresh = record {
    cycle_id = c.cycle_id;
    generation = c.snapshot.generation;
    policy = c.policy;
    state = state;
    observation = fresh;
    intent = command;
  }

  -- `mutationExecution.wait`: without a delay, and before the first command, nothing is waited for.
  unfoldable pub paced : Bool → Answers → Answers
  paced pace answers = if pace && c.delays then answers else record answers { pace_error = none }

  -- `currentPlan, state, err = replan(observation, state)`.
  unfoldable pub replanned : Loop → Result (Plan × State) → Pass
  replanned l (err e) = Pass.returned l Status.complete e
  replanned l (ok (plan, state)) = Pass.again (record l { plan = plan; state = state })

  -- The command was carried out.
  unfoldable pub applied : Round → Loop → CommandIntent → Pass
  unfolding replan replanned
  applied r l command =
      let done = done_with l command in
      let next = selected_with done command in
      if is_kind command.kind CommandKind.power_off
      then Pass.converged done
      else replanned next (replan next.selected next.observation next.state r.replanned_at)

  -- The command failed.
  unfoldable pub failed : Loop → Plan → Err → Pass
  failed l refreshed e =
      if error_is e Cause.mutation_retry && ltb l.attempts c.maximum_attempts
      then Pass.again (record l { plan = refreshed; log = mark_retried l.log })
      else Pass.returned l (status_for_error e) e

  -- The TV's storage is full, for the first time in this run: the rotation is planned.
  unfoldable pub absorb : Round → Loop → Pass
  unfolding replan replanned
  absorb r l = replanned (absorbed_with l) (replan l.selected l.observation l.state r.replanned_at)

  unfoldable pub absorbs : Loop → Err → Bool
  absorbs l e =
      is_positive c.policy.rotation && not l.absorbed && error_is e Cause.storage_full_rejection

  unfoldable pub handled : Round → Loop → Plan → CommandIntent → Option Err → Pass
  unfolding applied failed absorb absorbs
  handled r l refreshed command none = applied r l command
  handled r l refreshed command (some e) = if absorbs l e then absorb r l else failed l refreshed e

  -- The variables after `s.execute`.
  unfoldable pub after : Loop → CommandIntent → ExecutionInput → Run → Loop
  after l command input run = record l {
    state = run.done.state;
    observation = run.done.observation;
    pace = true;
    last_attempt = some command;
    attempts = suc (if same_as l.last_attempt command then l.attempts else 0);
    power_off_attempted = l.power_off_attempted || is_kind command.kind CommandKind.power_off;
    result_state = run.done.state;
    result_observation = run.done.observation;
    log = record { input = input; run = run; retried = false } ∷ l.log;
  }

  unfoldable pub attempt_on : Round → Loop → Plan → CommandIntent → ExecutionInput → Run → Pass
  unfolding after handled panics
  attempt_on r l refreshed command input run =
      let next = after l command input run in
      if panics run then Pass.crashed next else handled r next refreshed command run.done.error

  -- The planned command stands: it is carried out.
  unfoldable pub attempt : Round → Loop → Plan → State → CommandIntent → Pass
  unfolding attempt_on execution_input paced
  attempt r l refreshed state command =
      let input = execution_input command state r.observed in
      attempt_on r l refreshed command input (execute lower h input (paced l.pace r.answers))

  -- The fresh plan, against the command that the last one had first.
  choose : Round → Loop → CommandIntent → Plan → State → List CommandIntent → Pass
  unfolding attempt
  choose r l candidate refreshed state [] = Pass.converged (record l { plan = refreshed })
  choose r l candidate refreshed state (command ∷ rest) =
      if same_intent candidate command
      then attempt r l refreshed state command
      else Pass.again (record l { state = state; plan = refreshed })

  refresh : Round → Loop → CommandIntent → Result (Plan × State) → Pass
  unfolding choose add_all
  refresh r l candidate (err e) = Pass.returned l Status.complete e
  refresh r l candidate (ok (plan, state)) =
      choose r (record l { prune = add_all l.prune plan.prune_bindings }) candidate plan state
        plan.commands

  observe : Round → Loop → CommandIntent → Option Err → Pass
  unfolding refresh replan
  observe r l candidate (some e) = Pass.returned l Status.complete e
  observe r l candidate none =
      if is_eligible r.observed
      then refresh r l candidate (replan l.selected r.observed l.state r.planned_at)
      else Pass.returned l Status.complete (Cause.plain ∷ [])

  -- One pass of the loop, `candidate` being the first command of the current plan.
  unfoldable pub pass : Round → Loop → CommandIntent → Pass
  unfolding observe
  pass r l candidate = observe r l candidate r.observe_error

-- How a run stands: it waits for the world, its loop has ended, or it has returned.
pub data End : Type 0 where
  waiting : Loop → End
  ended : Loop → End
  failed_with : Loop → Status → Err → End
  panicked : Loop → End

-- After a pass the loop goes on with the rounds that are left.
unfoldable pub after_pass : (Loop → End) → Pass → End
after_pass go (Pass.again l) = go l
after_pass go (Pass.converged l) = End.ended l
after_pass go (Pass.returned l status e) = End.failed_with l status e
after_pass go (Pass.crashed l) = End.panicked l

module _ (lower : Text → Text) (h : Hashes) (c : Setup) where
  -- The test of the loop: a plan with no command left ends it.
  unfoldable pub converge_on : List CommandIntent → Loop → (CommandIntent → End) → End
  converge_on [] l go = End.ended l
  converge_on (candidate ∷ rest) l go = go candidate

  -- `for len(currentPlan.Commands) > 0`.
  unfoldable pub converge : List Round → Loop → End
  unfolding converge_on after_pass
  converge [] l = converge_on l.plan.commands l (λ candidate. End.waiting l)
  converge (r ∷ rounds) l =
      converge_on l.plan.commands l
        (λ candidate. after_pass (converge rounds) (pass lower h c r l candidate))
