-- ===== src/Reconcile/Protocol/Planned.antt =====
-- A run keeps the protocol from the migration that was put off to the end of its cycle.
use frame_tv_art_manager.Prelude.{
  ◌≡◌, refl, sym, subst, ◌≤◌, Text, false, not, ◌||◌, [], ◌∷◌, All, Option, none, some, arith,
  if_cases,
}
use frame_tv_art_manager.Samsung.Types.{Observation}
use frame_tv_art_manager.Reconcile.Types.{State, Plan, Hashes, RotationStatus}
use frame_tv_art_manager.Reconcile.Errors.{Result, ok, err, Err, Cause}
use frame_tv_art_manager.Reconcile.Validate.{is_nil}
use frame_tv_art_manager.Reconcile.Execution.{Run, is_none}
use frame_tv_art_manager.Reconcile.Wake.PowerOn.{WakePreparation}
use frame_tv_art_manager.Reconcile.Migration.FirstRun.{
  complete_deferred, mapped_late, bound_late, late_bindings,
}
use frame_tv_art_manager.Reconcile.Service.{End, replan}
use frame_tv_art_manager.Reconcile.Loop.{Setup, begin, is_eligible}
use frame_tv_art_manager.Reconcile.Service.Replan.{replan-KeepsState}
use frame_tv_art_manager.Reconcile.Service.Hooks.{EndIs}
use frame_tv_art_manager.Reconcile.Service.Start.{
  run_ended, run_planned, run_eligible, run_migrated, run_awake, finished,
}
use frame_tv_art_manager.Reconcile.Service.Request.{Request, ServiceConfig, RunAnswers, history}
use frame_tv_art_manager.Reconcile.Protocol.{Stage, Step, Runs, Runs-append, number}
use frame_tv_art_manager.Reconcile.Protocol.Sending.{Rests, Ends, Leads, return-Leads}
use frame_tv_art_manager.Reconcile.Protocol.Recovery.{Loose, returned-Leads}
use frame_tv_art_manager.Reconcile.Protocol.Cycle.{Ran, Resting, IsOutsideRound, converge-Ran}
use frame_tv_art_manager.Reconcile.Protocol.Finish.{finish-Finishes}
use frame_tv_art_manager.Reconcile.Protocol.Result.{Keeps, failed-Keeps, after-Keeps, live}

module _ (lower : Text → Text) (h : Hashes) (service : ServiceConfig) (request : Request)
    (a : RunAnswers) (rounds : All IsOutsideRound a.rounds) where
  ended-Keeps :
      (held : Option State) (c : Setup) (plan : Option Plan) (rotation : RotationStatus) (end : End)
      → EndIs (Ran held) (Resting held) end
      → Keeps held Stage.idle (run_ended lower h service (live request) a c plan rotation end)
  unfolding run_ended finished
  ended-Keeps held c plan rotation (End.waiting l) g = record {
    store = g.store;
    stage = g.stage;
    runs = g.runs;
    closed = tt;
  }
  ended-Keeps held c plan rotation (End.ended l) g =
      let f = finish-Finishes g.store c l a.finished_at a.finish_error g.rests.2 in
      record {
        store = f.store;
        stage = f.stage;
        runs = Runs-append g.runs f.runs;
        closed = f.closed;
      }
  ended-Keeps held c plan rotation (End.failed_with l status e) g = record {
    store = g.store;
    stage = g.stage;
    runs = g.runs;
    closed = tt;
  }
  ended-Keeps held c plan rotation (End.panicked l) g = absurd g

  planned-Keeps :
      (held : Option State) (c : Setup) (w : WakePreparation) (s : State)
      (planned : Result (Plan × State))
      → replan lower h c false w.observation s a.planned_at ≡ planned
      → s.pending ≡ none
      → number held ≤ s.revision
      → Keeps held Stage.idle (run_planned lower h service (live request) a c w s planned)
  unfolding run_planned history
  planned-Keeps held c w s (err e) q p n = failed-Keeps held Stage.idle _ e refl refl
  planned-Keeps held c w s (ok (plan, state)) q p n =
      let keeps = replan-KeepsState lower h c false w.observation s a.planned_at plan state q in
      ended-Keeps held c _ _ _ (
        converge-Ran lower h c held a.rounds (begin state w.observation plan w.applied) rounds
          (record {
            store = held;
            runs = Runs.still;
            rests = subst (Rests held Stage.idle) (sym keeps) (refl, p, n);
          }))

  eligible-Keeps :
      (held : Option State) (c : Setup) (w : WakePreparation) (s : State)
      → s.pending ≡ none
      → number held ≤ s.revision
      → Keeps held Stage.idle (run_eligible lower h service (live request) a c w s)
  unfolding run_eligible
  eligible-Keeps held c w s p n =
      if_cases (Keeps held Stage.idle) (is_eligible w.observation) _ _
        (λ _.
          planned-Keeps held c w s (replan lower h c false w.observation s a.planned_at) refl p n)
        (λ _. record { store = held; stage = Stage.idle; runs = Runs.still; closed = refl })

  -- The migration that was put off.
  bound_late-Leads :
      (held : Option State) (o : Observation) (s : State) (x : Result _)
      → s.pending ≡ none
      → number held ≤ s.revision
      → Leads Loose held Stage.idle (bound_late h false request.snapshot o a.deferred s x)
  unfolding bound_late
  bound_late-Leads held o s (err e) p n = return-Leads Loose held Stage.idle s o (some e) tt
  bound_late-Leads held o s (ok bindings) p n =
      returned-Leads o held Stage.idle _ a.deferred.save_error (omega arith) p
        (λ v. Step.record_state _ v p)

  late-Leads :
      (held : Option State) (o : Observation) (s : State)
      → s.pending ≡ none
      → number held ≤ s.revision
      → Leads Loose held Stage.idle (complete_deferred h false request.snapshot o a.deferred s)
  unfolding complete_deferred mapped_late
  late-Leads held o s p n =
      if_cases (Leads Loose held Stage.idle)
        (not (is_none s.pending) || not (is_none s.unresolved_upload) || not (is_nil s.bindings)) _
        _ (λ _. return-Leads Loose held Stage.idle s o (some (Cause.plain ∷ [])) tt)
        (λ _. mapped a.deferred.mapping)
    where
      mapped :
          (x : Result _)
          → Leads Loose held Stage.idle (mapped_late h false request.snapshot o a.deferred s x)
      mapped (err e) = return-Leads Loose held Stage.idle s o (some e) tt
      mapped (ok mapping) =
          bound_late-Leads held o s (late_bindings h false request.snapshot o a.deferred mapping) p
            n

  migrated-Keeps :
      (held : Option State) (c : Setup) (w : WakePreparation) (r : Run)
      → Leads Loose held Stage.idle r
      → Keeps held Stage.idle (run_migrated lower h service (live request) a c w r r.done.error)
  unfolding run_migrated
  migrated-Keeps held c w r l = go r.done.error refl
    where
      go :
          (error : Option Err)
          → r.done.error ≡ error
          → Keeps held Stage.idle (run_migrated lower h service (live request) a c w r error)
      go (some e) q = record { store = l.store; stage = l.stage; runs = l.runs; closed = tt }
      go none q =
          let rests = subst (λ x. Ends Loose l.store l.stage r.done.state x) q l.ended in
          after-Keeps held l.store Stage.idle Stage.idle r.events _
            (subst (λ x. Runs held Stage.idle r.events l.store x) rests.0 l.runs)
            (eligible-Keeps l.store c w r.done.state rests.1 rests.2)

  pub awake-Keeps :
      (held : Option State) (c : Setup) (w : WakePreparation)
      → w.state.pending ≡ none
      → number held ≤ w.state.revision
      → Keeps held Stage.idle (run_awake lower h service (live request) a c w)
  unfolding run_awake
  awake-Keeps held c w p n =
      if_cases (Keeps held Stage.idle) w.state.legacy_migration_pending _ _
        (λ _. migrated-Keeps held c w _ (late-Leads held w.observation w.state p n))
        (λ _. eligible-Keeps held c w w.state p n)
