-- ===== src/Reconcile/Service/Entry.antt =====
-- internal/reconcile/service_entry.go: the exported `Run`, which is `run` and, where that fails, the
-- power-off that is still due.
use frame_tv_art_manager.Prelude.{Text, Bool, ◌++◌, if◌then◌else◌, Option, none, some}
use frame_tv_art_manager.Samsung.Types.{Observation}
use frame_tv_art_manager.Reconcile.Types.{State, Hashes}
use frame_tv_art_manager.Reconcile.Errors.{Err}
use frame_tv_art_manager.Reconcile.Service.PowerOff.{
  PowerOffAnswers, PoweredOff, power_off_after_failure,
}
use frame_tv_art_manager.Reconcile.Service.Request.{
  Request, ServiceConfig, RunAnswers, RunResult, effective_policy,
}
use frame_tv_art_manager.Reconcile.Service.Start.{run, setup_for}

-- The result of a failed run, with what the power-off made of it.
abbrev pub with_power_off : RunResult → PoweredOff → RunResult
with_power_off r p = record r {
  events = r.events ++ p.events;
  state = some p.failed.state;
  observation = some p.failed.observation;
  applied = p.failed.applied;
  error = some p.error;
}

module _ (lower : Text → Text) (h : Hashes) (service : ServiceConfig) (q : Request) (a : RunAnswers)
    (off : PowerOffAnswers) (cancelled : Bool) where
  -- Without a state, whose version is then zero, the failure is left as it is.
  unfoldable pub powered_off : RunResult → Err → Option State → Option Observation → RunResult
  unfolding power_off_after_failure setup_for
  powered_off r e (some s) (some o) = with_power_off r (
      power_off_after_failure lower h q.dry_run
        (setup_for lower h service q a (effective_policy service.policy q.policy) s) off
        (record {
          state = s;
          observation = o;
          applied = r.applied;
          power_off_attempted = r.power_off_attempted;
        })
        e)
  powered_off r e _ _ = r

  -- `cancelled` says that the context is done.
  unfoldable pub run_on : RunResult → Option Err → RunResult
  unfolding powered_off
  run_on r none = r
  run_on r (some e) = if cancelled then r else powered_off r e r.state r.observation

  -- `Run`.
  unfoldable pub run_service : RunResult
  unfolding run_on run
  run_service = run_on (run lower h service q a) (run lower h service q a).error
