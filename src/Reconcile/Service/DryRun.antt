-- ===== src/Reconcile/Service/DryRun.antt =====
-- A dry run changes nothing: it writes no state and no boundary, and sends nothing to the TV.
use frame_tv_art_manager.Reconcile.Service.Rehearsal.{dry-IsQuiet}
use frame_tv_art_manager.Prelude.{
  false, ◌≢◌, ◌∙◌, arith, ◌≡◌, refl, sym, subst, Text, Bool, true, [], Option, none, some, if_cases,
}
use frame_tv_art_manager.Samsung.Types.{Observation}
use frame_tv_art_manager.Reconcile.Types.{State, Policy, Hashes}
use frame_tv_art_manager.Reconcile.Errors.{Err}
use frame_tv_art_manager.Reconcile.Service.Start.{setup_for, run}
use frame_tv_art_manager.Reconcile.Service.PowerOff.{
  Failed, PowerOffAnswers, PoweredOff, power_off_after_failure, leaves_failure,
}
use frame_tv_art_manager.Reconcile.Service.Entry.{with_power_off, powered_off, run_on, run_service}
use frame_tv_art_manager.Reconcile.Service.Request.{
  RunResult, Request, ServiceConfig, RunAnswers, effective_policy,
}
use frame_tv_art_manager.Reconcile.Service.Silent.{joined-IsSilent, IsQuiet}

true-ne-false : true ≢ false
true-ne-false q = cc

module _ (lower : Text → Text) (h : Hashes) (service : ServiceConfig) (request : Request)
    (a : RunAnswers) (off : PowerOffAnswers) (cancelled : Bool) where
  abbrev rehearsed : Request
  rehearsed = record request { dry_run = true }

  leaves_failure-dry :
      (policy : Policy) (failed : Failed) (e : Err) → leaves_failure true policy failed e ≡ true
  unfolding leaves_failure
  leaves_failure-dry policy failed e = ground arith

  off-IsQuiet :
      (r : RunResult) (e : Err) (s : Option State) (o : Option Observation)
      → IsQuiet r
      → IsQuiet (powered_off lower h service rehearsed a off cancelled r e s o)
  unfolding powered_off power_off_after_failure
  off-IsQuiet r e none o k = k
  off-IsQuiet r e (some s) none k = k
  off-IsQuiet r e (some s) (some o) k =
      let c =
        setup_for lower h service rehearsed a (effective_policy service.policy request.policy) s in
      let failed : Failed = record {
        state = s;
        observation = o;
        applied = r.applied;
        power_off_attempted = r.power_off_attempted;
      } in
      if_cases (λ (p : PoweredOff). IsQuiet (with_power_off r p))
        (leaves_failure true c.policy failed e) _ _
        (λ _. (joined-IsSilent r.events [] k.0 refl, k.1))
        (λ n. absurd (true-ne-false (sym (leaves_failure-dry c.policy failed e) ∙ n)))

  on-IsQuiet :
      (r : RunResult) (e : Option Err)
      → IsQuiet r
      → IsQuiet (run_on lower h service rehearsed a off cancelled r e)
  unfolding run_on
  on-IsQuiet r none k = k
  on-IsQuiet r (some e) k =
      if_cases IsQuiet cancelled _ _ (λ _. k) (λ _. off-IsQuiet r e r.state r.observation k)

  service-IsQuiet : IsQuiet (run_service lower h service rehearsed a off cancelled)
  unfolding run_service
  service-IsQuiet =
      on-IsQuiet (run lower h service rehearsed a) (run lower h service rehearsed a).error
        (dry-IsQuiet lower h service request a)

-- Whatever the world answers, and whatever an earlier run left open, a dry run writes no state and no
-- wake boundary, and sends neither a command nor a wake packet to the TV, and nor does what comes
-- after it where it fails.
pub run-IsQuiet :
    (lower : Text → Text) (h : Hashes) (service : ServiceConfig) (request : Request)
    (a : RunAnswers) (off : PowerOffAnswers) (cancelled : Bool)
    → request.dry_run ≡ true
    → IsQuiet (run lower h service request a)
      × IsQuiet (run_service lower h service request a off cancelled)
run-IsQuiet lower h service request a off cancelled e =
    subst
      (λ (b : Bool).
        IsQuiet (run lower h service (record request { dry_run = b }) a)
        × IsQuiet (run_service lower h service (record request { dry_run = b }) a off cancelled))
      (sym e)
      (
        dry-IsQuiet lower h service request a,
        service-IsQuiet lower h service request a off cancelled,
      )
