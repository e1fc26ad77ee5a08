-- ===== src/Reconcile/Service/Recover.antt =====
-- internal/reconcile/service.go and unresolved_upload.go: `recover`, with the writes around what an
-- earlier cycle left open. The observation stays as it is.
pub mod Settles
use frame_tv_art_manager.Prelude.{
  ℕ, Bool, true, false, if◌then◌else◌, List, ◌++◌, Option, none, some,
}
use frame_tv_art_manager.Samsung.Types.{Observation}
use frame_tv_art_manager.Reconcile.Types.{State, Pending}
use frame_tv_art_manager.Reconcile.Errors.{Result, ok, err, Err}
use frame_tv_art_manager.Reconcile.Recovery.{resolve_pending}
use frame_tv_art_manager.Reconcile.Recovery.Parked.{
  parkable_upload, parked_state, resolve_unresolved_upload,
}
use frame_tv_art_manager.Reconcile.Execution.{Event, Run, save, return, bump}

-- The clocks of the two resolutions, and the errors of the writes.
pub record RecoverAnswers : Type 0 where
  pub resolved_at : ℕ
  pub resolve_error : Option Err
  pub park_error : Option Err
  pub settled_at : ℕ
  pub settle_error : Option Err

module _ (dry_run : Bool) (o : Observation) where
  unfoldable pub resolve_with : State → Option Err → Result State → Run
  resolve_with s answer (err e) = return s o (some e)
  resolve_with s answer (ok r) =
      if dry_run then return r o none else save (bump r) answer (return (bump r) o)

  -- `resolveRecovery`.
  unfoldable pub resolve_recovery : State → ℕ → Option Err → Run
  unfolding resolve_with
  resolve_recovery s now answer = resolve_with s answer (resolve_pending s o now)

  -- `parkUpload`: on a failed write the state is the one before.
  unfoldable pub park_upload : State → Option Err → Run
  park_upload s answer =
      let p = parked_state s in
      if dry_run
      then return p o none
      else save (bump p) answer
          (λ error. elim error [ none ↦ return (bump p) o none | some e ↦ return s o (some e) ])

  unfoldable pub settle_with : State → Option Err → Option State → Run
  settle_with s answer none = return s o none
  settle_with s answer (some r) =
      if dry_run
      then return r o none
      else save (bump r) answer
          (λ error. elim error [ none ↦ return (bump r) o none | some e ↦ return s o (some e) ])

  -- `settleUnresolvedUpload`.
  unfoldable pub settle_unresolved : State → ℕ → Option Err → Run
  unfolding settle_with
  settle_unresolved s now answer = settle_with s answer (resolve_unresolved_upload s o now)

  -- One run after another, where the first has no error.
  unfoldable pub after_error : Run → (State → Run) → Option Err → Run
  after_error r next none = let n = next r.done.state in record n { events = r.events ++ n.events }
  after_error r next (some e) = r

  unfoldable pub and_then : Run → (State → Run) → Run
  unfolding after_error
  and_then r next = after_error r next r.done.error

  -- An upload that is not proven is put aside.
  unfoldable pub park_on : RecoverAnswers → Run → Option Err → Run
  unfolding park_upload
  park_on a r none = r
  park_on a r (some e) =
      let p = park_upload r.done.state a.park_error in
      if parkable_upload r.done.state e then record p { events = r.events ++ p.events } else r

  unfoldable pub resolve_or_park : RecoverAnswers → State → Run
  unfolding resolve_recovery park_on
  resolve_or_park a s =
      let r = resolve_recovery s a.resolved_at a.resolve_error in park_on a r r.done.error

  unfoldable pub recover_from : RecoverAnswers → State → Option Pending → Run
  unfolding resolve_or_park settle_unresolved and_then
  recover_from a s none = settle_unresolved s a.settled_at a.settle_error
  recover_from a s (some pending) =
      and_then (resolve_or_park a s) (λ t. settle_unresolved t a.settled_at a.settle_error)

  -- `recover`.
  unfoldable pub recover : RecoverAnswers → State → Run
  unfolding recover_from
  recover a s = recover_from a s s.pending
