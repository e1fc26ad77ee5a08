-- ===== src/Reconcile/Service/Invariant.antt =====
-- The rule by which a property of the convergence loop is proved: it holds whatever the world answers
-- if it survives the changes of the plan, and each attempt at a command.
use frame_tv_art_manager.Prelude.{
  ℕ, inl, inr, All, sym, ◌∙◌, contains_func, ◌&&◌, and_parts, ltb, ◌≡◌, refl, true, false, Text,
  Option, none, some, List, [], ◌∷◌, if_cases,
}
use frame_tv_art_manager.Reconcile.Types.{State, Plan, CommandIntent, CommandKind, Hashes}
use frame_tv_art_manager.Reconcile.Errors.{Cause, error_is, Result, ok, err, Err}
use frame_tv_art_manager.Reconcile.Execution.WriteAhead.{execute-IsOrdered}
use frame_tv_art_manager.Reconcile.Execution.Accounts.{IsSave}
use frame_tv_art_manager.Reconcile.Execution.{Event, Answers}
use frame_tv_art_manager.Reconcile.Service.Replan.{replan-KeepsState}
use frame_tv_art_manager.Reconcile.Service.{
  absorbs, absorb, failed, paced, applied, execute, attempt_on, handled, ExecutionInput, replanned,
  converge_on, after_pass, End, replan, pass, observe, refresh, choose, attempt, converge,
}
use frame_tv_art_manager.Reconcile.Loop.{
  is_panic, panics, is_kind, Setup, Round, Loop, Pass, same_intent, add_all, is_eligible,
}
use frame_tv_art_manager.Reconcile.Service.Hooks.{
  PassHas, EndIs, Survives, Planned, tried_on, run_of, input_of, absorbs-full,
}

-- A command that reaches the TV is valid, so that its translation does not panic.
saves-panics : (events : List Event) → All IsSave events → contains_func is_panic events ≡ false
unfolding contains_func is_panic
saves-panics [] s = refl
saves-panics (Event.saved s done ∷ events) k = saves-panics events k.1
saves-panics (Event.sent command ∷ events) k = absurd k.0
saves-panics (Event.panicked ∷ events) k = absurd k.0

execute-panics :
    (lower : Text → Text) (h : Hashes) (i : ExecutionInput) (a : Answers)
    → panics (execute lower h i a) ≡ false
unfolding panics contains_func is_panic
execute-panics lower h i a = elim (execute-IsOrdered lower h i a) [
  | inl s ↦ rw (s.order) (saves-panics s.rest s.rest_saves)
  | inr k ↦ saves-panics (execute lower h i a).events k
]

true-ne-false : ¬ (true ≡ false)
true-ne-false q = cc

module _ (lower : Text → Text) (h : Hashes) (c : Setup) (Good : Round → Type 0)
    (I J K : Loop → Type 0) (s : Survives lower h c Good I J K) where
  replanned-has :
      (l : Loop) (planned : Result (Plan × State)) (now : ℕ)
      → replan lower h c l.selected l.observation l.state now ≡ planned
      → I l
      → PassHas I J K (replanned lower h c l planned)
  unfolding replanned
  replanned-has l (err e) now q i = s.leaving l i
  replanned-has l (ok (plan, state)) now q i =
      s.quiet l plan state l.prune
        (replan-KeepsState lower h c l.selected l.observation l.state now plan state q) i

  module _ (r : Round) (l : Loop) (refreshed : Plan) (state : State) (command : CommandIntent)
      (i : I l) (p : Planned lower h c Good r l refreshed state command) where
    handled-has :
        (error : Option Err)
        → (run_of lower h c r l state command).done.error ≡ error
        → PassHas I J K
            (handled lower h c r (tried_on lower h c r l state command) refreshed command error)
    unfolding handled applied failed absorb
    handled-has none e =
        if_cases (PassHas I J K) (is_kind command.kind CommandKind.power_off) _ _
          (λ k. s.applied_off r l refreshed state command i p e k)
          (λ k.
            replanned-has _ _ r.replanned_at refl
              (s.applied_other r l refreshed state command i p e k))
    handled-has (some f) e =
        if_cases (PassHas I J K) (absorbs lower h c (tried_on lower h c r l state command) f) _ _
          (λ k. replanned-has _ _ r.replanned_at refl (
            s.absorbed r l refreshed state command f i p e
              (absorbs-full lower h c Good (tried_on lower h c r l state command) f k)))
          (λ k.
            if_cases (PassHas I J K)
              (error_is f Cause.mutation_retry
                && ltb (tried_on lower h c r l state command).attempts c.maximum_attempts)
              _ _
              (λ m.
                s.retried r l refreshed state command f i p e (and_parts _ _ m).0
                  (and_parts _ _ m).1)
              (λ m. s.tried r l refreshed state command i p))

    attempt-has : PassHas I J K (attempt lower h c r l refreshed state command)
    unfolding attempt attempt_on
    attempt-has =
        if_cases (PassHas I J K) (panics (run_of lower h c r l state command)) _ _
          (λ k. true-ne-false (
            sym k
            ∙ execute-panics lower h (input_of lower h c r state command)
                (paced lower h c l.pace r.answers)))
          (λ k. handled-has (run_of lower h c r l state command).done.error refl)

  choose-has :
      (r : Round) (l : Loop) (candidate : CommandIntent) (refreshed : Plan) (state : State)
      (prune : List Text) (commands : List CommandIntent)
      → Good r
      → I l
      → is_eligible r.observed ≡ true
      → replan lower h c l.selected r.observed l.state r.planned_at ≡ ok (refreshed, state)
      → refreshed.commands ≡ commands
      → PassHas I J K
          (choose lower h c r (record l { prune = prune }) candidate refreshed state commands)
  unfolding choose
  choose-has r l candidate refreshed state prune [] d i e p f =
      s.ending _ (s.quiet l refreshed l.state prune refl i)
  choose-has r l candidate refreshed state prune (command ∷ rest) d i e p f =
      if_cases (PassHas I J K) (same_intent candidate command)
        (attempt lower h c r (record l { prune = prune }) refreshed state command)
        (Pass.again (record l { prune = prune; state = state; plan = refreshed }))
        (λ _.
          attempt-has r (record l { prune = prune }) refreshed state command
            (s.quiet l l.plan l.state prune refl i)
            (record { good = d; eligible = e; planned = p; rest = rest; first = f }))
        (λ _.
          s.quiet l refreshed state prune
            (replan-KeepsState lower h c l.selected r.observed l.state r.planned_at refreshed state
              p)
            i)

  refresh-has :
      (r : Round) (l : Loop) (candidate : CommandIntent) (planned : Result (Plan × State))
      → Good r
      → I l
      → is_eligible r.observed ≡ true
      → replan lower h c l.selected r.observed l.state r.planned_at ≡ planned
      → PassHas I J K (refresh lower h c r l candidate planned)
  unfolding refresh
  refresh-has r l candidate (err e) d i g p = s.leaving l i
  refresh-has r l candidate (ok (plan, state)) d i g p =
      choose-has r l candidate plan state (add_all l.prune plan.prune_bindings) plan.commands d i g
        p refl

  observe-has :
      (r : Round) (l : Loop) (candidate : CommandIntent) (error : Option Err)
      → Good r
      → I l
      → PassHas I J K (observe lower h c r l candidate error)
  unfolding observe
  observe-has r l candidate (some e) d i = s.leaving l i
  observe-has r l candidate none d i =
      if_cases (PassHas I J K) (is_eligible r.observed)
        (refresh lower h c r l candidate
          (replan lower h c l.selected r.observed l.state r.planned_at))
        _ (λ g. refresh-has r l candidate _ d i g refl) (λ _. s.leaving l i)

  after_pass-has :
      (go : Loop → End) (p : Pass)
      → ((l : Loop) → I l → EndIs J K (go l))
      → PassHas I J K p
      → EndIs J K (after_pass go p)
  unfolding after_pass
  after_pass-has go (Pass.again l) g i = g l i
  after_pass-has go (Pass.converged l) g i = i
  after_pass-has go (Pass.returned l status e) g i = i
  after_pass-has go (Pass.crashed l) g i = i

  converge_on-has :
      (commands : List CommandIntent) (l : Loop) (go : CommandIntent → End)
      → I l
      → ((candidate : CommandIntent) → EndIs J K (go candidate))
      → EndIs J K (converge_on lower h c commands l go)
  unfolding converge_on
  converge_on-has [] l go i g = s.ending l i
  converge_on-has (candidate ∷ rest) l go i g = g candidate

  -- Whatever the world answers, and for how long.
  pub converge-has :
      (rounds : List Round) (l : Loop)
      → All Good rounds
      → I l
      → EndIs J K (converge lower h c rounds l)
  unfolding converge pass
  converge-has [] l d i = converge_on-has l.plan.commands l _ i (λ candidate. s.leaving l i)
  converge-has (r ∷ rounds) l d i = converge_on-has l.plan.commands l _ i (λ candidate.
      after_pass-has (converge lower h c rounds) _ (λ m. converge-has rounds m d.1)
        (observe-has r l candidate r.observe_error d.0 i))
