-- ===== src/Reconcile/Service/Hooks.antt =====
-- What a property of the convergence loop has to survive.
use frame_tv_art_manager.Prelude.{arith, ltb, ◌≡◌, true, false, Text, none, some, List, ◌∷◌}
use frame_tv_art_manager.Reconcile.Types.{State, Plan, CommandIntent, CommandKind, Hashes}
use frame_tv_art_manager.Reconcile.Errors.{Cause, error_is, ok, Err}
use frame_tv_art_manager.Reconcile.Service.Replan.{KeepsState}
use frame_tv_art_manager.Reconcile.Service.{
  absorbs, paced, execution_input, execute, after, Run, ExecutionInput, End, replan,
}
use frame_tv_art_manager.Reconcile.Loop.{
  absorbed_with, mark_retried, selected_with, done_with, is_kind, Setup, Round, Loop, Pass,
  is_eligible,
}

-- What holds of the variables that a pass leaves, `I` where the loop goes on, `K` where it is done and
-- `J` where the run returns, and of those that a run leaves. Go does not panic.
abbrev pub PassHas : (Loop → Type 0) → (Loop → Type 0) → (Loop → Type 0) → Pass → Type 0
PassHas I J K (Pass.again l) = I l
PassHas I J K (Pass.converged l) = K l
PassHas I J K (Pass.returned l status e) = J l
PassHas I J K (Pass.crashed l) = ⊥

abbrev pub EndIs : (Loop → Type 0) → (Loop → Type 0) → End → Type 0
EndIs J K (End.waiting l) = J l
EndIs J K (End.ended l) = K l
EndIs J K (End.failed_with l status e) = J l
EndIs J K (End.panicked l) = ⊥

abbrev pub EndHas : (Loop → Type 0) → End → Type 0
EndHas J = EndIs J J

-- Nothing is asked of a round.
abbrev pub AnyRound : Round → Type 0
AnyRound r = Unit

module _ (lower : Text → Text) (h : Hashes) (c : Setup) where
  -- The input of the attempt, and what it leaves.
  abbrev pub input_of : Round → State → CommandIntent → ExecutionInput
  input_of r state command = execution_input lower h c command state r.observed

  abbrev pub run_of : Round → Loop → State → CommandIntent → Run
  run_of r l state command =
      execute lower h (input_of r state command) (paced lower h c l.pace r.answers)

  abbrev pub tried_on : Round → Loop → State → CommandIntent → Loop
  tried_on r l state command =
      after lower h c l command (input_of r state command) (run_of r l state command)

module _ (lower : Text → Text) (h : Hashes) (c : Setup) (Good : Round → Type 0) where
  -- What is known where the loop tries a command; `Good` holds of every round.
  pub record Planned (r : Round) (l : Loop) (refreshed : Plan) (state : State)
      (command : CommandIntent) : Type 0 where
    pub good : Good r
    pub eligible : is_eligible r.observed ≡ true
    pub planned :
        replan lower h c l.selected r.observed l.state r.planned_at ≡ ok (refreshed, state)
    pub rest : List CommandIntent
    pub first : refreshed.commands ≡ command ∷ rest

  -- What a property has to survive: a change of the plan, and the ways in which an attempt goes on.
  pub record Survives (I J K : Loop → Type 0) : Type 0 where
    pub leaving : (l : Loop) → I l → J l
    pub ending : (l : Loop) → I l → K l
    pub quiet :
        (l : Loop) (plan : Plan) (state : State) (prune : List Text)
        → KeepsState l.state state
        → I l
        → I (record l { plan = plan; state = state; prune = prune })
    pub tried :
        (r : Round) (l : Loop) (refreshed : Plan) (state : State) (command : CommandIntent)
        → I l
        → Planned r l refreshed state command
        → J (tried_on lower h c r l state command)
    pub applied_off :
        (r : Round) (l : Loop) (refreshed : Plan) (state : State) (command : CommandIntent)
        → I l
        → Planned r l refreshed state command
        → (run_of lower h c r l state command).done.error ≡ none
        → is_kind command.kind CommandKind.power_off ≡ true
        → K (done_with (tried_on lower h c r l state command) command)
    pub applied_other :
        (r : Round) (l : Loop) (refreshed : Plan) (state : State) (command : CommandIntent)
        → I l
        → Planned r l refreshed state command
        → (run_of lower h c r l state command).done.error ≡ none
        → is_kind command.kind CommandKind.power_off ≡ false
        → I (selected_with (done_with (tried_on lower h c r l state command) command) command)
    pub retried :
        (r : Round) (l : Loop) (refreshed : Plan) (state : State) (command : CommandIntent)
        (e : Err)
        → I l
        → Planned r l refreshed state command
        → (run_of lower h c r l state command).done.error ≡ some e
        → error_is e Cause.mutation_retry ≡ true
        → ltb (tried_on lower h c r l state command).attempts c.maximum_attempts ≡ true
        → I (record (tried_on lower h c r l state command) {
          plan = refreshed;
          log = mark_retried (tried_on lower h c r l state command).log;
        })
    pub absorbed :
        (r : Round) (l : Loop) (refreshed : Plan) (state : State) (command : CommandIntent)
        (e : Err)
        → I l
        → Planned r l refreshed state command
        → (run_of lower h c r l state command).done.error ≡ some e
        → error_is e Cause.storage_full_rejection ≡ true
        → I (absorbed_with (tried_on lower h c r l state command))

  pub absorbs-full :
      (l : Loop) (e : Err)
      → absorbs lower h c l e ≡ true
      → error_is e Cause.storage_full_rejection ≡ true
  unfolding absorbs
  absorbs-full l e k = ground arith
