-- ===== src/Reconcile/Migration/FirstRun.antt =====
-- internal/reconcile/migration_service.go and planner.go: the state that a run begins with, and the
-- migration that was put off until the TV is on. What the older version's mapping holds is given.
use frame_tv_art_manager.Prelude.{
  ℕ, Text, Bool, false, not, ◌||◌, if◌then◌else◌, [], ◌∷◌, Option, none, some, holds,
}
use frame_tv_art_manager.Prelude.Dict.{Dict}
use frame_tv_art_manager.Samsung.Types.{Observation}
use frame_tv_art_manager.Collection.Types.{Snapshot}
use frame_tv_art_manager.Reconcile.Types.{
  State, Binding, Policy, PowerPolicy, PowerPolicy-discrete, TvIdentity, Hashes, state_version,
  no_evidence,
}
use frame_tv_art_manager.Reconcile.Errors.{Result, ok, err, Err, Cause, ◌>>=◌}
use frame_tv_art_manager.Reconcile.Validate.{is_nil}
use frame_tv_art_manager.Reconcile.Execution.{Run, save, return, bump, is_none}
use frame_tv_art_manager.Reconcile.Migration.{project_legacy_mapping}

-- `initialState`.
abbrev pub initial_state : TvIdentity → State
initial_state identity = record {
  version = state_version;
  tv = identity;
  revision = 1;
  bindings = [];
  tombstones = [];
  capacity = no_evidence;
  last_shown = [];
  legacy_migration_pending = false;
  pending = none;
  unresolved_upload = none;
  last_complete_cycle = [];
  last_collection_gen = [];
}

-- The mapping that is found, the clock, and the error of the write.
pub record LegacyAnswers : Type 0 where
  pub mapping : Result (Option (Dict Text))
  pub now : ℕ
  pub save_error : Option Err

module _ (h : Hashes) (dry_run : Bool) (snapshot : Snapshot) (o : Observation) where
  unfoldable pub bound_first : LegacyAnswers → State → Result (Dict Binding × ℕ) → Run
  bound_first a s (err e) = return s o (some e)
  bound_first a s (ok (bindings, ignored)) =
      let migrated = record s { bindings = bindings } in
      if dry_run then return migrated o none else save migrated a.save_error (return migrated o)

  unfoldable pub mapped_first : LegacyAnswers → State → Result (Option (Dict Text)) → Run
  unfolding bound_first project_legacy_mapping
  mapped_first a s (err e) = return s o (some e)
  mapped_first a s (ok none) = return s o none
  mapped_first a s (ok (some mapping)) =
      bound_first a s (project_legacy_mapping h snapshot o mapping a.now)

  -- `stateForFirstRun`.
  unfoldable pub state_for_first_run : LegacyAnswers → TvIdentity → Run
  unfolding mapped_first
  state_for_first_run a identity = mapped_first a (initial_state identity) a.mapping

  -- `prepareInitialState`; `configured` says that there may be a mapping.
  unfoldable pub prepare_initial_state :
      LegacyAnswers → Policy → Bool → TvIdentity → Option State → Run
  unfolding state_for_first_run PowerPolicy-discrete
  prepare_initial_state a policy configured identity (some s) =
      return (record s { tv = identity }) o none
  prepare_initial_state a policy configured identity none =
      if holds (PowerPolicy-discrete policy.power PowerPolicy.on)
      then return (record (initial_state identity) { legacy_migration_pending = configured }) o none
      else state_for_first_run a identity

  abbrev migrated_with : State → Dict Binding → State
  migrated_with s bindings = record s { bindings = bindings; legacy_migration_pending = false }

  unfoldable pub bound_late : LegacyAnswers → State → Result (Dict Binding) → Run
  bound_late a s (err e) = return s o (some e)
  bound_late a s (ok bindings) =
      let migrated = migrated_with s bindings in
      if dry_run
      then return migrated o none
      else save (bump migrated) a.save_error (return (bump migrated) o)

  unfoldable pub late_bindings : LegacyAnswers → Option (Dict Text) → Result (Dict Binding)
  unfolding project_legacy_mapping
  late_bindings a none = ok []
  late_bindings a (some mapping) = do
    projected ← project_legacy_mapping h snapshot o mapping a.now
    ok (projected.0)

  unfoldable pub mapped_late : LegacyAnswers → State → Result (Option (Dict Text)) → Run
  unfolding bound_late late_bindings
  mapped_late a s (err e) = return s o (some e)
  mapped_late a s (ok mapping) = bound_late a s (late_bindings a mapping)

  -- `completeDeferredLegacyMigration`.
  unfoldable pub complete_deferred : LegacyAnswers → State → Run
  unfolding mapped_late
  complete_deferred a s =
      if not (is_none s.pending) || not (is_none s.unresolved_upload) || not (is_nil s.bindings)
      then return s o (some (Cause.plain ∷ []))
      else mapped_late a s a.mapping
