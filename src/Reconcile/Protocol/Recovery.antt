-- ===== src/Reconcile/Protocol/Recovery.antt =====
-- The state that a run begins with, and what a recovery makes of it, keep the protocol.
use frame_tv_art_manager.Prelude.{
  ◌≡◌, refl, ap, sym, ◌∙◌, subst, ◌<◌, ◌≤◌, ℕ, true, false, Option, none, some, arith, if_cases,
}
use frame_tv_art_manager.Samsung.Types.{Observation}
use frame_tv_art_manager.Reconcile.Types.{State, Pending}
use frame_tv_art_manager.Reconcile.Errors.{Result, ok, err, Err}
use frame_tv_art_manager.Reconcile.Validate.{state_valid}
use frame_tv_art_manager.Reconcile.Recovery.{resolve_pending, fold_upload_binding}
use frame_tv_art_manager.Reconcile.Recovery.Settled.{IsIdle, resolve_pending-IsIdle}
use frame_tv_art_manager.Reconcile.Recovery.Parked.{
  parkable_upload, parked_state, resolve_unresolved_upload, resolve_parked?, resolve_parked,
}
use frame_tv_art_manager.Reconcile.Execution.{Event, Run, save, return, bump}
use frame_tv_art_manager.Reconcile.Service.Recover.{
  RecoverAnswers, resolve_with, resolve_recovery, park_upload, settle_with, settle_unresolved,
  after_error, and_then, park_on, resolve_or_park, recover_from, recover,
}
use frame_tv_art_manager.Reconcile.Protocol.{Stage, Step, Runs, Runs-append, number, stage_of}
use frame_tv_art_manager.Reconcile.Protocol.Sending.{Ends, Leads, return-Leads, save-Leads}

-- Nothing is claimed of an error.
abbrev pub Loose : Option State → Stage → State → Err → Type 0
Loose store stage s e = Unit

abbrev pub Any : Err → Type 0
Any e = Unit

module _ (o : Observation) where
  -- A write that is returned whatever becomes of it.
  pub returned-Leads :
      (held : Option State) (st : Stage) (s : State) (answer : Option Err)
      → number held < s.revision
      → s.pending ≡ none
      → ((v : (number held < s.revision) × (state_valid s s.tv ≡ true))
          → Step held st (Event.saved s true) (some s) Stage.idle)
      → Leads Loose held st (save s answer (return s o))
  returned-Leads held st s answer n p step =
      save-Leads Loose Any held st Stage.idle s answer (return s o) tt (λ e q. tt) n step
        (return-Leads Loose (some s) Stage.idle s o none (refl, p, omega arith))
        (λ e at k. return-Leads Loose held at s o (some e) tt)

  settled-pending :
      (s : State) (parked : Option Pending) (now : ℕ) (r : State)
      → resolve_parked? s parked o now ≡ some r
      → (r.pending ≡ s.pending) × (r.revision ≡ s.revision)
  unfolding resolve_parked? resolve_parked fold_upload_binding
  settled-pending s none now r e = ground arith
  settled-pending s (some parked) now r e = ground arith

  settle-Leads :
      (held : Option State) (s : State) (now : ℕ) (answer : Option Err)
      → s.pending ≡ none
      → number held ≤ s.revision
      → Leads Loose held Stage.idle (settle_unresolved false o s now answer)
  unfolding settle_unresolved resolve_unresolved_upload
  settle-Leads held s now answer p n =
      go (resolve_parked? s s.unresolved_upload o now) (settled-pending s s.unresolved_upload now)
    where
      go :
          (r : Option State)
          → ((t : State) → r ≡ some t → (t.pending ≡ s.pending) × (t.revision ≡ s.revision))
          → Leads Loose held Stage.idle (settle_with false o s answer r)
      go none k = return-Leads Loose held Stage.idle s o none (refl, p, n)
      go (some r) k =
          let f = k r refl in
          save-Leads Loose Any held Stage.idle Stage.idle (bump r) answer _ tt (λ e q. tt)
            (omega (arith, f.1, n)) (λ v. Step.record_state (bump r) v (f.0 ∙ p))
            (return-Leads Loose (some (bump r)) Stage.idle (bump r) o none
              (refl, f.0 ∙ p, omega arith))
            (λ e at j. return-Leads Loose held at s o (some e) tt)

  park-Leads :
      (held : Option State) (s : State) (p : Pending) (answer : Option Err)
      → number held ≤ s.revision
      → Leads Loose held (Stage.found p) (park_upload false o s answer)
  unfolding park_upload parked_state
  park-Leads held s p answer n =
      let t = bump (parked_state s) in
      save-Leads Loose Any held (Stage.found p) Stage.idle t answer _ tt (λ e q. tt) (omega arith)
        (λ v. Step.resolve p t v refl)
        (return-Leads Loose (some t) Stage.idle t o none (refl, refl, omega arith))
        (λ e at k. return-Leads Loose held at s o (some e) tt)

  save-state : (s t : State) (answer : Option Err) → (save s answer (return t o)).done.state ≡ t
  unfolding save
  save-state s t answer =
      if_cases (λ (r : Run). r.done.state ≡ t) (state_valid s s.tv) _ _ (λ _. refl) (λ _. refl)

  -- A state with nothing pending is not parked.
  park_on-quiet :
      (a : RecoverAnswers) (r : Run) (error : Option Err)
      → r.done.state.pending ≡ none
      → park_on false o a r error ≡ r
  unfolding park_on parkable_upload
  park_on-quiet a r none p = refl
  park_on-quiet a r (some e) p = ground arith

  parked-Leads :
      (held : Option State) (s : State) (p : Pending) (a : RecoverAnswers) (x : Result State)
      → number held ≤ s.revision
      → IsIdle s x
      → Leads Loose held (Stage.found p) (
          park_on false o a
            (resolve_with false o s a.resolve_error x)
            (resolve_with false o s a.resolve_error x).done.error)
  unfolding resolve_with park_on
  parked-Leads held s p a (err e) n k =
      if_cases (Leads Loose held (Stage.found p)) (parkable_upload s e) _ _
        (λ _. park-Leads held s p a.park_error n)
        (λ _. return-Leads Loose held (Stage.found p) s o (some e) tt)
  parked-Leads held s p a (ok r) n k =
      let run = save (bump r) a.resolve_error (return (bump r) o) in
      subst (Leads Loose held (Stage.found p))
        (sym (
          park_on-quiet a run run.done.error
            (ap (λ t. t.pending) (save-state (bump r) (bump r) a.resolve_error) ∙ k.0)))
        (returned-Leads held (Stage.found p) (bump r) a.resolve_error (omega (arith, k.1, n)) k.0
          (λ v. Step.resolve p (bump r) v k.0))

  -- One part of a run after another.
  then-Leads :
      (held : Option State) (st : Stage) (r : Run) (next : State → Run)
      → Leads Loose held st r
      → ((store : Option State)
          → r.done.state.pending ≡ none
          → number store ≤ r.done.state.revision
          → Leads Loose store Stage.idle (next r.done.state))
      → Leads Loose held st (and_then false o r next)
  unfolding and_then
  then-Leads held st r next l f = go r.done.error refl
    where
      go :
          (error : Option Err)
          → r.done.error ≡ error
          → Leads Loose held st (after_error false o r next error)
      go (some e) q = l
      go none q =
          let rests = subst (λ x. Ends Loose l.store l.stage r.done.state x) q l.ended in
          let after = f l.store rests.1 rests.2 in
          record {
            store = after.store;
            stage = after.stage;
            runs = Runs-append l.runs (
                subst (λ x. Runs l.store x (next r.done.state).events after.store after.stage)
                  (sym rests.0) after.runs);
            ended = after.ended;
          }

  recover_from-Leads :
      (held : Option State) (a : RecoverAnswers) (s : State) (pending : Option Pending)
      → s.pending ≡ pending
      → number held ≤ s.revision
      → Leads Loose held (stage_of pending) (recover_from false o a s pending)
  unfolding recover_from resolve_or_park resolve_recovery
  recover_from-Leads held a s none p n = settle-Leads held s a.settled_at a.settle_error p n
  recover_from-Leads held a s (some q) p n =
      then-Leads held (Stage.found q) (resolve_or_park false o a s)
        (λ t. settle_unresolved false o t a.settled_at a.settle_error)
        (parked-Leads held s q a (resolve_pending s o a.resolved_at) n
          (resolve_pending-IsIdle s o a.resolved_at))
        (λ store k m.
          settle-Leads store (resolve_or_park false o a s).done.state a.settled_at a.settle_error k
            m)

  pub recover-Leads :
      (held : Option State) (a : RecoverAnswers) (s : State)
      → number held ≤ s.revision
      → Leads Loose held (stage_of s.pending) (recover false o a s)
  unfolding recover
  recover-Leads held a s n = recover_from-Leads held a s s.pending refl n
