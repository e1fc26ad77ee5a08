-- ===== src/Reconcile/Protocol/Sending.antt =====
-- What it means that a part of a run keeps the protocol, and the rule for a write.
use frame_tv_art_manager.Prelude.{
  ◌≡◌, refl, ◌<◌, ◌≤◌, Bool, true, ◌||◌, [], ◌∷◌, Option, none, some, if_cases,
}
use frame_tv_art_manager.Samsung.Types.{Observation}
use frame_tv_art_manager.Reconcile.Types.{State}
use frame_tv_art_manager.Reconcile.Errors.{Err, Cause, error_is}
use frame_tv_art_manager.Reconcile.Validate.{state_valid}
use frame_tv_art_manager.Reconcile.Execution.{Run, Event, save, return}
use frame_tv_art_manager.Reconcile.Protocol.{Stage, Step, Runs, IsNext, number}

-- An error after which the loop may go on.
unfoldable pub goes_on : Err → Bool
unfolding error_is
goes_on e = error_is e Cause.mutation_retry || error_is e Cause.storage_full_rejection

-- Between two commands: nothing is open, and the state is no older than the store's.
abbrev pub Rests : Option State → Stage → State → Type 0
Rests store stage s = (stage ≡ Stage.idle) × (s.pending ≡ none) × (number store ≤ s.revision)

-- What a step of a run leads to: without an error the machine rests. `OnError` is what is known of an
-- error.
abbrev pub Ends :
    (Option State → Stage → State → Err → Type 0)
    → Option State
    → Stage
    → State
    → Option Err
    → Type 0
Ends OnError store stage s none = Rests store stage s
Ends OnError store stage s (some e) = OnError store stage s e

pub record Leads (OnError : Option State → Stage → State → Err → Type 0) (held : Option State)
    (st : Stage) (r : Run) : Type 0 where
  pub store : Option State
  pub stage : Stage
  pub runs : Runs held st r.events store stage
  pub ended : Ends OnError store stage r.done.state r.done.error

module _ (OnError : Option State → Stage → State → Err → Type 0) where
  pub return-Leads :
      (held : Option State) (st : Stage) (s : State) (o : Observation) (error : Option Err)
      → Ends OnError held st s error
      → Leads OnError held st (return s o error)
  return-Leads held st s o error e = record {
    store = held;
    stage = st;
    runs = Runs.still;
    ended = e;
  }

  pub event-Leads :
      (held next : Option State) (st then : Stage) (e : Event) (r : Run)
      → Step held st e next then
      → Leads OnError next then r
      → Leads OnError held st (record r { events = e ∷ r.events })
  event-Leads held next st then e r s l = record {
    store = l.store;
    stage = l.stage;
    runs = Runs.step s l.runs;
    ended = l.ended;
  }

  -- A write, by how the run goes on after it; `Known` holds of the errors of writes.
  pub save_valid-Leads :
      (Known : Err → Type 0) (held : Option State) (st then : Stage) (s : State)
      (answer : Option Err) (next : Option Err → Run)
      → Known (Cause.plain ∷ [])
      → ((e : Err) → answer ≡ some e → Known e)
      → number held < s.revision
      → (IsNext held s → Step held st (Event.saved s true) (some s) then)
      → (IsNext held s → Leads OnError (some s) then (next none))
      → ((e : Err) (at : Stage) → Known e → Leads OnError held at (next (some e)))
      → Leads OnError held st (save s answer next)
  unfolding save
  save_valid-Leads Known held st then s none next p k n step f g =
      if_cases (Leads OnError held st) (state_valid s s.tv) _ _
        (λ v. event-Leads held (some s) st then _ (next none) (step (n, v)) (f (n, v)))
        (λ v. g (Cause.plain ∷ []) st p)
  save_valid-Leads Known held st then s (some e) next p k n step f g =
      if_cases (Leads OnError held st) (state_valid s s.tv) _ _
        (λ v.
          event-Leads held held st Stage.halted _ (next (some e)) (Step.fail st s (n, v))
            (g e Stage.halted (k e refl)))
        (λ v. g (Cause.plain ∷ []) st p)

  pub save-Leads :
      (Known : Err → Type 0) (held : Option State) (st then : Stage) (s : State)
      (answer : Option Err) (next : Option Err → Run)
      → Known (Cause.plain ∷ [])
      → ((e : Err) → answer ≡ some e → Known e)
      → number held < s.revision
      → (IsNext held s → Step held st (Event.saved s true) (some s) then)
      → Leads OnError (some s) then (next none)
      → ((e : Err) (at : Stage) → Known e → Leads OnError held at (next (some e)))
      → Leads OnError held st (save s answer next)
  save-Leads Known held st then s answer next p k n step f g =
      save_valid-Leads Known held st then s answer next p k n step (λ _. f) g
