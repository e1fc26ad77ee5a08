-- ===== src/Reconcile/Service/Finish.antt =====
-- The end of `run`, once its loop has ended: the cycle is complete, and recorded as such, or it says
-- what it waits for.
use frame_tv_art_manager.Prelude.{
  false, true, ℕ, Text, if◌then◌else◌, List, [], ◌∷◌, Option, none, some,
}
use frame_tv_art_manager.Prelude.Hex.{hex_encode}
use frame_tv_art_manager.Prelude.Dict.{Dict, insert, delete, has_key}
use frame_tv_art_manager.Collection.Types.{Item}
use frame_tv_art_manager.Reconcile.Types.{State, Status}
use frame_tv_art_manager.Reconcile.Errors.{Err, Cause, status_for_error}
use frame_tv_art_manager.Reconcile.Rotation.{record_shown, retain_shown_history}
use frame_tv_art_manager.Reconcile.Validate.{state_valid}
use frame_tv_art_manager.Reconcile.Execution.{Event, bump}
use frame_tv_art_manager.Reconcile.Loop.{Setup, Loop}

-- `snapshotDigests`.
unfoldable pub snapshot_digests : List Item → Dict (Unit {0})
snapshot_digests [] = []
snapshot_digests (item ∷ rest) = insert (hex_encode item.digest) tt (snapshot_digests rest)

-- `for digest := range pruneBindings`.
unfoldable pub prune_all : List Text → Dict (Unit {0}) → ℕ → State → State
prune_all [] desired now s = s
prune_all (digest ∷ rest) desired now s =
    let pruned = record s { bindings = delete digest s.bindings } in
    prune_all rest desired now
      (if has_key digest desired then record_shown pruned digest now else pruned)

-- The state that a complete cycle leaves.
unfoldable pub complete_state : Setup → Loop → ℕ → State
unfolding prune_all snapshot_digests
complete_state c l now =
    let desired = snapshot_digests c.snapshot.items in
    let pruned = prune_all l.prune desired now (record l.state { pending = none }) in
    record (bump (retain_shown_history pruned desired)) {
      last_complete_cycle = c.cycle_id;
      last_collection_gen = c.snapshot.generation;
    }

-- The `Status`, the `State` and the error of the result, and the write.
pub record Finished : Type 0 where
  pub events : List Event
  pub status : Status
  pub state : State
  pub error : Option Err

abbrev pub report : Status → State → Option Err → Finished
report status state error = record { events = []; status = status; state = state; error = error }

-- `s.store.save`: an invalid state is refused before anything is written.
unfoldable pub save_complete : State → Option Err → Finished
save_complete s none = record {
  events = Event.saved s true ∷ [];
  status = Status.complete;
  state = s;
  error = none;
}
save_complete s (some e) = record {
  events = Event.saved s false ∷ [];
  status = status_for_error e;
  state = s;
  error = some e;
}

-- `now` is the clock, and `answer` the error of the write.
unfoldable pub finish : Setup → Loop → ℕ → Option Err → Finished
unfolding save_complete
finish c l now answer =
    let cleared = record l.state { pending = none } in
    let final = complete_state c l now in
    if c.unresolved
    then report Status.recovery_required cleared (some (Cause.recovery_required ∷ []))
    else if l.plan.capacity_limited
    then report Status.storage_full cleared (some (Cause.storage_full ∷ []))
    else if state_valid final final.tv
    then save_complete final answer
    else report (status_for_error (Cause.plain ∷ [])) final (some (Cause.plain ∷ []))
