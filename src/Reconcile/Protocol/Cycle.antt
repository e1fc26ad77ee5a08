-- ===== src/Reconcile/Protocol/Cycle.antt =====
-- The loop of a cycle keeps the protocol, from one command to the next.
use frame_tv_art_manager.Prelude.{
  ◌≡◌, refl, ap, sym, ◌∙◌, subst, ◌≤◌, Text, Bool, true, ◌&&◌, List, All, Option, none, some, arith,
  inl, inr, if_cases,
}
use frame_tv_art_manager.Reconcile.Types.{State, Plan, CommandIntent, Hashes}
use frame_tv_art_manager.Reconcile.Errors.{Err, Cause, error_is}
use frame_tv_art_manager.Reconcile.Execution.{Answers}
use frame_tv_art_manager.Reconcile.Service.{paced, after, execution_input, converge}
use frame_tv_art_manager.Reconcile.Loop.{Setup, Round, Loop}
use frame_tv_art_manager.Reconcile.Service.Replan.{replan-KeepsState}
use frame_tv_art_manager.Reconcile.Service.Invariant.{converge-has}
use frame_tv_art_manager.Reconcile.Service.Hooks.{
  Survives, EndIs, Planned, input_of, run_of, tried_on,
}
use frame_tv_art_manager.Reconcile.Service.Request.{history}
use frame_tv_art_manager.Reconcile.Protocol.{Stage, Runs, Runs-append, number}
use frame_tv_art_manager.Reconcile.Protocol.Sending.{goes_on, Rests, Ends, Leads}
use frame_tv_art_manager.Reconcile.Protocol.Receipt.{IsOutside, Taken}
use frame_tv_art_manager.Reconcile.Protocol.Execute.{execute-Leads}

-- What the loop has done so far, from the store that it began with.
pub record Ran (held : Option State) (l : Loop) : Type 0 where
  pub store : Option State
  pub stage : Stage
  pub runs : Runs held Stage.idle (history l.log) store stage

-- The loop stands between two commands.
pub record Resting (held : Option State) (l : Loop) : Type 0 where
  pub store : Option State
  pub runs : Runs held Stage.idle (history l.log) store Stage.idle
  pub rests : Rests store Stage.idle l.state

abbrev pub IsOutsideRound : Round → Type 0
IsOutsideRound r = IsOutside r.answers

module _ (lower : Text → Text) (h : Hashes) (c : Setup) (held : Option State) where
  paced-IsOutside : (pace : Bool) (a : Answers) → IsOutside a → IsOutside (paced lower h c pace a)
  unfolding paced
  paced-IsOutside pace a g =
      if_cases IsOutside (pace && c.delays) _ _ (λ _. g)
        (λ _. record {
          new_id = g.new_id;
          prepare = g.prepare;
          pace = tt;
          clear = g.clear;
          apply = g.apply;
          receipt = g.receipt;
          resolve = g.resolve;
        })

  module _ (r : Round) (l : Loop) (refreshed : Plan) (state : State) (command : CommandIntent)
      (g : Resting held l) (p : Planned lower h c IsOutsideRound r l refreshed state command) where
    leads : Leads Taken g.store Stage.idle (run_of lower h c r l state command)
    unfolding execution_input
    leads =
        execute-Leads lower h (input_of lower h c r state command)
          (paced lower h c l.pace r.answers) (paced-IsOutside l.pace r.answers p.good) g.store
          (subst (λ (s : State). number g.store ≤ s.revision)
            (sym (
              replan-KeepsState lower h c l.selected r.observed l.state r.planned_at refreshed state
                p.planned))
            g.rests.2)

    tried-Ran : Ran held (tried_on lower h c r l state command)
    unfolding after history
    tried-Ran = record {
      store = leads.store;
      stage = leads.stage;
      runs = Runs-append g.runs leads.runs;
    }

    -- The machine rests after the command, and so does the loop.
    tried-Resting :
        (m : Loop)
        → m.state ≡ (run_of lower h c r l state command).done.state
        → history m.log ≡ history (tried_on lower h c r l state command).log
        → Rests leads.store leads.stage (run_of lower h c r l state command).done.state
        → Resting held m
    unfolding after history
    tried-Resting m e q s = record {
      store = leads.store;
      runs =
          subst (λ x. Runs held Stage.idle (history m.log) leads.store x) s.0
            (rw q (Runs-append g.runs leads.runs));
      rests = (refl, ap (λ (t : State). t.pending) e ∙ s.1, rw e s.2);
    }

    run_of-Rests :
        (run_of lower h c r l state command).done.error ≡ none
        → Rests leads.store leads.stage (run_of lower h c r l state command).done.state
    run_of-Rests e =
        subst
          (λ x.
            Ends Taken leads.store leads.stage (run_of lower h c r l state command).done.state x)
          e leads.ended

    taken-Rests :
        (e : Err)
        → (run_of lower h c r l state command).done.error ≡ some e
        → goes_on e ≡ true
        → Rests leads.store leads.stage (run_of lower h c r l state command).done.state
    taken-Rests e q t = go (
        subst
          (λ x.
            Ends Taken leads.store leads.stage (run_of lower h c r l state command).done.state x)
          q leads.ended)
      where
        go :
            Taken leads.store leads.stage (run_of lower h c r l state command).done.state e
            → Rests leads.store leads.stage (run_of lower h c r l state command).done.state
        go (inl f) = absurd (ground arith)
        go (inr k) = k

  retry-goes_on : (e : Err) → error_is e Cause.mutation_retry ≡ true → goes_on e ≡ true
  unfolding goes_on
  retry-goes_on e q = rw q refl

  full-goes_on : (e : Err) → error_is e Cause.storage_full_rejection ≡ true → goes_on e ≡ true
  unfolding goes_on
  full-goes_on e q = ground arith

  Resting-Survives : Survives lower h c IsOutsideRound (Resting held) (Ran held) (Resting held)
  unfolding after history
  Resting-Survives = record {
    leaving = λ l g. record { store = g.store; stage = Stage.idle; runs = g.runs };
    ending = λ l g. g;
    quiet = λ l plan state prune keeps g. record {
      store = g.store;
      runs = g.runs;
      rests = subst (Rests g.store Stage.idle) (sym keeps) g.rests;
    };
    tried = λ r l refreshed state command g p. tried-Ran r l refreshed state command g p;
    applied_off = λ r l refreshed state command g p e k.
        tried-Resting r l refreshed state command g p _ refl refl
          (run_of-Rests r l refreshed state command g p e);
    applied_other = λ r l refreshed state command g p e k.
        tried-Resting r l refreshed state command g p _ refl refl
          (run_of-Rests r l refreshed state command g p e);
    retried = λ r l refreshed state command f g p e t m.
        tried-Resting r l refreshed state command g p _ refl refl
          (taken-Rests r l refreshed state command g p f e (retry-goes_on f t));
    absorbed = λ r l refreshed state command f g p e t.
        tried-Resting r l refreshed state command g p _ refl refl
          (taken-Rests r l refreshed state command g p f e (full-goes_on f t));
  }

  pub converge-Ran :
      (rounds : List Round) (l : Loop)
      → All IsOutsideRound rounds
      → Resting held l
      → EndIs (Ran held) (Resting held) (converge lower h c rounds l)
  converge-Ran rounds l d g =
      converge-has lower h c IsOutsideRound (Resting held) (Ran held) (Resting held)
        Resting-Survives rounds l d g
