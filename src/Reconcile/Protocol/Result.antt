-- ===== src/Reconcile/Protocol/Result.antt =====
-- What it means that a result of `run` keeps the protocol.
use frame_tv_art_manager.Prelude.{◌≡◌, false, List, [], Option, some}
use frame_tv_art_manager.Reconcile.Types.{State}
use frame_tv_art_manager.Reconcile.Errors.{Err}
use frame_tv_art_manager.Reconcile.Execution.{Event}
use frame_tv_art_manager.Reconcile.Service.Request.{Request, RunResult, after_events}
use frame_tv_art_manager.Reconcile.Protocol.{Stage, Runs, Runs-append}
use frame_tv_art_manager.Reconcile.Protocol.Finish.{IsClosed}

-- The events of a run are those of the machine, which ends with nothing open where the run has come
-- to its end without an error.
pub record Keeps (held : Option State) (st : Stage) (r : RunResult) : Type 0 where
  pub store : Option State
  pub stage : Stage
  pub runs : Runs held st r.events store stage
  pub closed : IsClosed r.error r.unfinished stage

pub failed-Keeps :
    (held : Option State) (st : Stage) (r : RunResult) (e : Err)
    → r.events ≡ []
    → r.error ≡ some e
    → Keeps held st r
failed-Keeps held st r e p q = record {
  store = held;
  stage = st;
  runs = rw p Runs.still;
  closed = rw q tt;
}

-- One part of a run after another.
pub after-Keeps :
    (held store : Option State) (st stage : Stage) (events : List Event) (r : RunResult)
    → Runs held st events store stage
    → Keeps store stage r
    → Keeps held st (after_events events r)
after-Keeps held store st stage events r p k = record {
  store = k.store;
  stage = k.stage;
  runs = Runs-append p k.runs;
  closed = k.closed;
}

-- A request for a run that is not dry.
abbrev pub live : Request → Request
live request = record request { dry_run = false }
