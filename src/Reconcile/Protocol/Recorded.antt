-- ===== src/Reconcile/Protocol/Recorded.antt =====
-- What the protocol gives at the moment of a send: a run may be cut off there, and the store knows.
use frame_tv_art_manager.Prelude.{
  ◌≡◌, refl, subst, Text, true, false, List, [], ◌∷◌, All, Option, some,
}
use frame_tv_art_manager.Samsung.Types.{Command}
use frame_tv_art_manager.Reconcile.Types.{State, Pending, Phase, Hashes}
use frame_tv_art_manager.Reconcile.Errors.{ok}
use frame_tv_art_manager.Reconcile.Execution.{Event, samsung_command}
use frame_tv_art_manager.Reconcile.Service.Woken.{WakesOnce}
use frame_tv_art_manager.Reconcile.Service.Start.{run}
use frame_tv_art_manager.Reconcile.Service.Request.{Request, ServiceConfig, RunAnswers}
use frame_tv_art_manager.Reconcile.Protocol.{Stage, Step, Step-Agrees, Runs, Agrees, open_in}
use frame_tv_art_manager.Reconcile.Protocol.Receipt.{IsOutside}
use frame_tv_art_manager.Reconcile.Protocol.Cycle.{IsOutsideRound}
use frame_tv_art_manager.Reconcile.Protocol.Whole.{run-Refines, stage_of-Agrees}

-- The record of a command that is sent.
pub record IsRecorded (held : Option State) (c : Command) : Type 0 where
  pub pending : Pending
  pub recorded : open_in held ≡ some pending
  pub phase : pending.phase ≡ Phase.prepared
  pub translated : samsung_command pending.command ≡ some (ok c)

-- What the store holds after an event.
abbrev pub stored : Option State → Event → Option State
stored held (Event.saved s true) = some s
stored held (Event.saved s false) = held
stored held (Event.sent c) = held
stored held Event.panicked = held

abbrev IsKnown : Option State → Event → Type 0
IsKnown held (Event.sent c) = IsRecorded held c
IsKnown held e = Unit

-- At each send among the events the store, from `held` on, has the record of the command.
abbrev pub AreKnown : Option State → List Event → Type 0
AreKnown held [] = Unit
AreKnown held (e ∷ events) = IsKnown held e × AreKnown (stored held e) events

step-IsKnown :
    {held next : Option State} {st then : Stage} (e : Event)
    → Step held st e next then
    → Agrees held st
    → IsKnown held e × (next ≡ stored held e)
step-IsKnown e (Step.write s p n q f) a = (tt, refl)
step-IsKnown e (Step.send p c t) a =
    (record { pending = p; recorded = a.0; phase = a.1; translated = t }, refl)
step-IsKnown e (Step.withdraw p s n q) a = (tt, refl)
step-IsKnown e (Step.refuse p s n q) a = (tt, refl)
step-IsKnown e (Step.note p q s n r t) a = (tt, refl)
step-IsKnown e (Step.close p s f n q) a = (tt, refl)
step-IsKnown e (Step.resolve p s n q) a = (tt, refl)
step-IsKnown e (Step.record_state s n q) a = (tt, refl)
step-IsKnown e (Step.fail st s n) a = (tt, refl)

Runs-AreKnown :
    {held end : Option State} {st last : Stage} (events : List Event)
    → Runs held st events end last
    → Agrees held st
    → AreKnown held events
Runs-AreKnown [] r a = tt
Runs-AreKnown (e ∷ events) (Runs.step s r) a =
    let k = step-IsKnown e s a in
    (k.0, subst (λ x. AreKnown x events) k.1 (Runs-AreKnown events r (Step-Agrees s a)))

-- Of a run that is not dry, whose errors from the world are none of the two that only the package
-- makes: at every moment at which it sends a command to the TV, but for the packet of a scheduled
-- wake, the store, from what the run loaded on, holds the record of that command, as prepared. So a
-- run that is cut off there leaves no command behind that the next run does not find. Of scheduled
-- wakes it sends at most one, where that is due, and then writes the boundary.
pub run-AreKnown :
    (lower : Text → Text) (h : Hashes) (service : ServiceConfig) (request : Request)
    (a : RunAnswers) (found : Option State)
    → request.dry_run ≡ false
    → a.loaded ≡ ok found
    → All IsOutsideRound a.rounds
    → IsOutside a.power_on.answers
    → AreKnown found (run lower h service request a).events
      × WakesOnce lower h service request a (run lower h service request a).wake_events
run-AreKnown lower h service request a found live_run loaded rounds outside =
    let k = run-Refines lower h service request a found live_run loaded rounds outside in
    (
      Runs-AreKnown (run lower h service request a).events k.0.runs
          (stage_of-Agrees found (open_in found) refl),
      k.1,
    )
