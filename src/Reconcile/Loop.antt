-- ===== src/Reconcile/Loop.antt =====
-- internal/reconcile/service.go: what the convergence loop of `run` is given, its variables, and how
-- they change.
use frame_tv_art_manager.Prelude.{
  ℕ, Text, Text-discrete, Bool, true, false, ◌||◌, if◌then◌else◌, List, [], ◌∷◌, ◌++◌, Option, none,
  some, contains, contains_func, holds,
}
use frame_tv_art_manager.Prelude.Int.{ℤ}
use frame_tv_art_manager.Samsung.Types.{Observation, Disposition, Disposition-discrete}
use frame_tv_art_manager.Collection.Types.{Snapshot}
use frame_tv_art_manager.Reconcile.Types.{
  State, Policy, Plan, Status, CommandIntent, CommandIntent-discrete, CommandKind,
  CommandKind-discrete,
}
use frame_tv_art_manager.Reconcile.Errors.{Err}
use frame_tv_art_manager.Reconcile.Recovery.Parked.{without_command, artwork_commands_blocked}
use frame_tv_art_manager.Reconcile.Execution.{Answers, Run, Event}
use frame_tv_art_manager.Reconcile.Execution.Execute.{ExecutionInput}

-- What a run is asked for, and how the service is set up.
pub record Setup : Type 0 where
  pub cycle_id : Text
  pub snapshot : Snapshot
  pub policy : Policy
  pub capacity_ttl : ℤ
  pub maximum_attempts : ℕ
  -- A pacing delay is configured.
  pub delays : Bool
  -- `uploadUnresolved`.
  pub unresolved : Bool

-- One pass of the loop: the fresh observation, the clock of the plan that it gives, the answers to
-- the command, and the clock of the plan after it.
pub record Round : Type 0 where
  pub observed : Observation
  pub observe_error : Option Err
  pub planned_at : ℕ
  pub answers : Answers
  pub replanned_at : ℕ

-- A command that the loop has carried out, with what it was carried out on. `retried` says that the
-- loop went on to try it again.
pub record Attempt : Type 0 where
  pub input : ExecutionInput
  pub run : Run
  pub retried : Bool

-- The variables of the loop, with the fields of the result that it writes. The log has the latest
-- attempt first.
pub record Loop : Type 0 where
  pub state : State
  pub observation : Observation
  pub plan : Plan
  pub prune : List Text
  pub selected : Bool
  pub absorbed : Bool
  pub pace : Bool
  pub last_attempt : Option CommandIntent
  pub attempts : ℕ
  pub applied : List CommandKind
  pub power_off_attempted : Bool
  pub result_state : State
  pub result_observation : Observation
  pub log : List Attempt

-- The variables before the loop, on the first plan, and on what a wake has applied.
abbrev pub begin : State → Observation → Plan → List CommandKind → Loop
begin state observation plan applied = record {
  state = state;
  observation = observation;
  plan = plan;
  prune = plan.prune_bindings;
  selected = false;
  absorbed = false;
  pace = false;
  last_attempt = none;
  attempts = 0;
  applied = applied;
  power_off_attempted = false;
  result_state = state;
  result_observation = observation;
  log = [];
}

-- What one pass comes to: the loop goes on, it ends, or the run returns a status and an error.
pub data Pass : Type 0 where
  again : Loop → Pass
  converged : Loop → Pass
  returned : Loop → Status → Err → Pass
  -- Go's panic on a setting that is not there.
  crashed : Loop → Pass

abbrev pub is_kind : CommandKind → CommandKind → Bool
is_kind kind other = holds (CommandKind-discrete kind other)

-- The latest attempt is made again.
abbrev pub mark_retried : List Attempt → List Attempt
mark_retried [] = []
mark_retried (a ∷ log) = record a { retried = true } ∷ log

-- The variables after a command that was applied, and after a full storage.
abbrev pub done_with : Loop → CommandIntent → Loop
done_with l command = record l {
  last_attempt = none;
  attempts = 0;
  applied = l.applied ++ command.kind ∷ [];
}

abbrev pub selected_with : Loop → CommandIntent → Loop
selected_with l command = record l {
  selected = l.selected || is_kind command.kind CommandKind.select;
}

abbrev pub absorbed_with : Loop → Loop
absorbed_with l = record l { absorbed = true; last_attempt = none; attempts = 0 }

-- `sameIntent`.
abbrev pub same_intent : CommandIntent → CommandIntent → Bool
same_intent left right = holds (CommandIntent-discrete left right)

abbrev pub same_as : Option CommandIntent → CommandIntent → Bool
same_as none command = false
same_as (some last) command = same_intent last command

abbrev pub is_eligible : Observation → Bool
is_eligible o = holds (Disposition-discrete o.disposition Disposition.eligible)

-- The set `pruneBindings`, with the digests of one more plan.
unfoldable pub add_all : List Text → List Text → List Text
add_all set [] = set
add_all set (digest ∷ rest) =
    add_all (if contains Text-discrete set digest then set else digest ∷ set) rest

-- What `replan` leaves of a plan.
unfoldable pub restrict : Bool → Bool → Plan → Plan
restrict selected unresolved plan =
    let commands =
      if selected then without_command plan.commands CommandKind.select else plan.commands in
    if unresolved
    then record plan { commands = artwork_commands_blocked commands; prune_bindings = [] }
    else record plan { commands = commands }

unfoldable pub is_panic : Event → Bool
is_panic Event.panicked = true
is_panic _ = false

unfoldable pub panics : Run → Bool
unfolding is_panic contains_func
panics run = contains_func is_panic run.events
