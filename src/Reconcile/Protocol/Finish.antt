-- ===== src/Reconcile/Protocol/Finish.antt =====
-- The end of a cycle keeps the protocol.
use frame_tv_art_manager.Prelude.{
  ◌≡◌, refl, ap, ◌≤◌, ℕ, suc, Text, Bool, false, List, [], ◌∷◌, Option, none, some, arith, if_cases,
}
use frame_tv_art_manager.Prelude.Dict.{Dict, has_key}
use frame_tv_art_manager.Reconcile.Types.{State, Status}
use frame_tv_art_manager.Reconcile.Errors.{Err}
use frame_tv_art_manager.Reconcile.Rotation.{record_shown, retain_shown_history}
use frame_tv_art_manager.Reconcile.Validate.{state_valid}
use frame_tv_art_manager.Reconcile.Loop.{Setup, Loop}
use frame_tv_art_manager.Reconcile.Service.Finish.{
  Finished, report, save_complete, finish, complete_state, prune_all, snapshot_digests,
}
use frame_tv_art_manager.Reconcile.Protocol.{Stage, Step, Runs, IsNext, number}

-- Without an error, and where the run has come to its end, nothing is left open.
abbrev pub IsClosed : Option Err → Bool → Stage → Type 0
IsClosed none false stage = stage ≡ Stage.idle
IsClosed _ _ stage = Unit

pub record Finishes (held : Option State) (f : Finished) : Type 0 where
  pub store : Option State
  pub stage : Stage
  pub runs : Runs held Stage.idle f.events store stage
  pub closed : IsClosed f.error false stage

-- What the pruning leaves of a state.
prune_all-kept :
    (digests : List Text) (desired : Dict (Unit {0})) (now : ℕ) (s : State)
    → ((prune_all digests desired now s).pending ≡ s.pending)
      × ((prune_all digests desired now s).revision ≡ s.revision)
unfolding prune_all record_shown
prune_all-kept [] desired now s = (refl, refl)
prune_all-kept (digest ∷ rest) desired now s =
    if_cases
      (λ (t : State).
        ((prune_all rest desired now t).pending ≡ s.pending)
        × ((prune_all rest desired now t).revision ≡ s.revision))
      (has_key digest desired) _ _ (λ _. prune_all-kept rest desired now _)
      (λ _. prune_all-kept rest desired now _)

module _ (held : Option State) (c : Setup) (l : Loop) (now : ℕ) where
  complete-kept :
      ((complete_state c l now).pending ≡ none)
      × ((complete_state c l now).revision ≡ suc l.state.revision)
  unfolding complete_state retain_shown_history
  complete-kept =
      let k =
        prune_all-kept l.prune (snapshot_digests c.snapshot.items) now
          (record l.state { pending = none }) in
      (k.0, ap suc k.1)

  reported : (status : Status) (s : State) (e : Err) → Finishes held (report status s (some e))
  reported status s e = record { store = held; stage = Stage.idle; runs = Runs.still; closed = tt }

  saved :
      (s : State) (answer : Option Err)
      → IsNext held s
      → s.pending ≡ none
      → Finishes held (save_complete s answer)
  unfolding save_complete
  saved s none v p = record {
    store = some s;
    stage = Stage.idle;
    runs = Runs.step (Step.record_state s v p) Runs.still;
    closed = refl;
  }
  saved s (some e) v p = record {
    store = held;
    stage = Stage.halted;
    runs = Runs.step (Step.fail Stage.idle s v) Runs.still;
    closed = tt;
  }

  pub finish-Finishes :
      (answer : Option Err) → number held ≤ l.state.revision → Finishes held (finish c l now answer)
  unfolding finish
  finish-Finishes answer n =
      if_cases (Finishes held) c.unresolved _ _ (λ _. reported _ _ _)
        (λ _.
          if_cases (Finishes held) l.plan.capacity_limited _ _ (λ _. reported _ _ _)
            (λ _.
              if_cases (Finishes held)
                (state_valid (complete_state c l now) (complete_state c l now).tv) _ _
                (λ v.
                  saved (complete_state c l now) answer (omega (arith, complete-kept.1, n), v)
                    complete-kept.0)
                (λ _. reported _ _ _)))
