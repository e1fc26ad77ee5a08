-- ===== src/Reconcile/Protocol/Started.antt =====
-- A run keeps the protocol from its recovery on.
use frame_tv_art_manager.Prelude.{
  ◌≡◌, refl, sym, subst, ◌≤◌, Text, false, List, All, Option, none, some, if_cases,
}
use frame_tv_art_manager.Samsung.Types.{Observation}
use frame_tv_art_manager.Reconcile.Types.{State, Policy, Status, CommandKind, Hashes}
use frame_tv_art_manager.Reconcile.Errors.{Err}
use frame_tv_art_manager.Reconcile.Execution.{return}
use frame_tv_art_manager.Reconcile.Wake.PowerOn.{WakePreparation, unprepared}
use frame_tv_art_manager.Reconcile.Loop.{Setup}
use frame_tv_art_manager.Reconcile.Service.Recover.{recover}
use frame_tv_art_manager.Reconcile.Service.Start.{
  setup_for, run_prepared, run_powered, run_recovered, run_started,
}
use frame_tv_art_manager.Reconcile.Service.Request.{
  Request, ServiceConfig, RunAnswers, after_events, wants_on,
}
use frame_tv_art_manager.Reconcile.Protocol.{Stage, Runs, number, stage_of}
use frame_tv_art_manager.Reconcile.Protocol.Sending.{Ends, Leads}
use frame_tv_art_manager.Reconcile.Protocol.Receipt.{IsOutside}
use frame_tv_art_manager.Reconcile.Protocol.Recovery.{Loose, recover-Leads}
use frame_tv_art_manager.Reconcile.Protocol.Cycle.{IsOutsideRound}
use frame_tv_art_manager.Reconcile.Protocol.Result.{Keeps, failed-Keeps, after-Keeps, live}
use frame_tv_art_manager.Reconcile.Protocol.Planned.{awake-Keeps}
use frame_tv_art_manager.Reconcile.Protocol.Power.{IsPrepared, IsReady, power_on-IsPrepared}

module _ (lower : Text → Text) (h : Hashes) (service : ServiceConfig) (request : Request)
    (a : RunAnswers) (rounds : All IsOutsideRound a.rounds) where
  powered-Keeps :
      (held : Option State) (c : Setup) (w : WakePreparation)
      → IsPrepared held w
      → Keeps held Stage.idle (run_powered lower h service (live request) a c w)
  unfolding run_powered
  powered-Keeps held c w g =
      after-Keeps held g.store Stage.idle g.stage w.events _ g.runs (go w.terminal w.error g.ready)
    where
      go :
          (terminal : Option Status) (error : Option Err)
          → IsReady g.store g.stage w.state terminal error
          → Keeps g.store g.stage (run_prepared lower h service (live request) a c w terminal error)
      go none none ready =
          subst (λ x. Keeps g.store x (run_prepared lower h service (live request) a c w none none))
            (sym ready.0) (awake-Keeps lower h service request a rounds g.store c w ready.1 ready.2)
      go none (some e) ready = failed-Keeps g.store g.stage _ e refl refl
      go (some status) none ready = record {
        store = g.store;
        stage = g.stage;
        runs = Runs.still;
        closed = ready;
      }
      go (some status) (some e) ready = failed-Keeps g.store g.stage _ e refl refl

  recovered-Keeps :
      (held : Option State) (policy : Policy) (o : Observation) (woken : List CommandKind)
      (s : State)
      → IsOutside a.power_on.answers
      → s.pending ≡ none
      → number held ≤ s.revision
      → Keeps held Stage.idle (run_recovered lower h service (live request) a policy o woken s none)
  unfolding run_recovered
  recovered-Keeps held policy o woken s outside p n =
      if_cases (Keeps held Stage.idle) (wants_on policy) _ _
        (λ _.
          powered-Keeps held _ _
            (power_on-IsPrepared lower h request a held policy s o outside p n))
        (λ _.
          awake-Keeps lower h service request a rounds held
            (setup_for lower h service (live request) a policy s)
            (record (unprepared s o) { applied = woken }) p n)

  -- From a recovery on.
  pub started-Keeps :
      (held : Option State) (policy : Policy) (o : Observation) (woken : List CommandKind)
      (s : State)
      → IsOutside a.power_on.answers
      → number held ≤ s.revision
      → Keeps held
          (stage_of s.pending)
          (run_started lower h service (live request) a policy o woken (return s o none) none)
  unfolding run_started
  started-Keeps held policy o woken s outside n =
      let r = recover false o a.recovery s in
      let l = recover-Leads o held a.recovery s n in go l r.done.error refl
    where
      go :
          Leads Loose held (stage_of s.pending) (recover false o a.recovery s)
          → (error : Option Err) → (recover false o a.recovery s).done.error ≡ error
          → Keeps held (stage_of s.pending) (
              after_events (recover false o a.recovery s).events (
                run_recovered lower h service
                  (live request)
                  a
                  policy
                  o
                  woken
                  (recover false o a.recovery s).done.state
                  error))
      go l (some e) q =
          after-Keeps held l.store (stage_of s.pending) l.stage _ _ l.runs
            (failed-Keeps l.store l.stage _ e refl refl)
      go l none q =
          let t = (recover false o a.recovery s).done.state in
          let rests = subst (λ x. Ends Loose l.store l.stage t x) q l.ended in
          after-Keeps held l.store (stage_of s.pending) Stage.idle _ _
            (subst
              (λ x. Runs held (stage_of s.pending) (recover false o a.recovery s).events l.store x)
              rests.0 l.runs)
            (recovered-Keeps l.store policy o woken t outside rests.1 rests.2)
