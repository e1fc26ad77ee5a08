-- ===== src/Reconcile/Recovery/Parked.antt =====
-- internal/reconcile/unresolved_upload.go: an upload whose outcome is unknown is put aside, until
-- the inventory proves what became of it.
use frame_tv_art_manager.Prelude.{
  ◌+◌, ℕ, ◌*◌, Text, Text-discrete, ◌=ₜ◌, is_empty, trim_space, Bool, true, false, not, ◌&&◌, ◌||◌,
  ltb, ◌==◌, if◌then◌else◌, List, [], ◌∷◌, Option, none, some, contains, holds, delete_func,
}
use frame_tv_art_manager.Prelude.Dict.{Dict}
use frame_tv_art_manager.Samsung.Types.{Observation}
use frame_tv_art_manager.Reconcile.Types.{
  State, Pending, Binding, CommandIntent, CommandKind, CommandKind-discrete, ReceiptSummary, minute,
}
use frame_tv_art_manager.Reconcile.Errors.{Err, error_is, Cause}
use frame_tv_art_manager.Reconcile.Recovery.{fold_upload_binding, is_applied}

abbrev pub upload_settle_time : ℕ
upload_settle_time = 5 * minute

abbrev parkable : Option Pending → Option Pending → Bool
parkable (some pending) none =
    holds (CommandKind-discrete pending.command.kind CommandKind.upload)
    && not (is_applied pending.phase)
parkable pending parked = false

-- `parkableUpload`.
unfoldable pub parkable_upload : State → Err → Bool
parkable_upload state e =
    error_is e Cause.recovery_required && parkable state.pending state.unresolved_upload

-- The state that `parkUpload` builds, less the revision.
unfoldable pub parked_state : State → State
parked_state s = record s { unresolved_upload = s.pending; pending = none }

settle_start_of : Option ReceiptSummary → Option ℕ → Option ℕ
settle_start_of none prepared_at = prepared_at
settle_start_of (some r) prepared_at =
    if r.completed_at == 0 then prepared_at else some r.completed_at

-- `uploadSettleStart`.
unfoldable pub upload_settle_start : Pending → Option ℕ
unfolding settle_start_of
upload_settle_start parked = settle_start_of parked.receipt parked.prepared_at

unfoldable pub is_bound_content : Dict Binding → Text → Bool
is_bound_content [] id = false
is_bound_content ((k, b) ∷ m) id = b.content_id =ₜ id || is_bound_content m id

-- The loop over the inventory: an ID that was not there before, and is not bound.
unfoldable pub has_unexplained : List Text → Dict Binding → List Text → Bool
unfolding is_bound_content
has_unexplained before bindings [] = false
has_unexplained before bindings (id ∷ ids) =
    not (contains Text-discrete before id || is_bound_content bindings id)
    || has_unexplained before bindings ids

unfoldable pub unexplained_since : Option (List Text) → State → Pending → Observation → Bool
unfolding has_unexplained
unexplained_since none state parked observation =
    not (observation.inventory.fingerprint =ₜ parked.inventory_before)
unexplained_since (some before) state parked observation =
    has_unexplained before state.bindings observation.inventory.content_ids

-- `unexplainedArtwork`.
unfoldable pub unexplained_artwork : State → Pending → Observation → Bool
unfolding unexplained_since
unexplained_artwork state parked observation =
    unexplained_since parked.inventory_before_ids state parked observation

-- `result.UnresolvedUpload = nil`.
abbrev pub released : State → State
released s = record s { unresolved_upload = none }

-- `now.Sub(*settleAt) < uploadSettleTime`.
abbrev pub still_settling : Option ℕ → ℕ → Bool
still_settling none now = false
still_settling (some settle_at) now = ltb now (settle_at + upload_settle_time)

-- The content ID that a receipt names, trimmed; empty where there is none.
abbrev pub named_content : Option ReceiptSummary → Text
named_content none = []
named_content (some r) = trim_space r.content_id

-- What `resolveUnresolvedUpload` makes of a parked upload, over a known inventory: `none` keeps it.
unfoldable pub resolve_parked : State → Pending → Text → Observation → ℕ → Option State
unfolding unexplained_artwork upload_settle_start
resolve_parked state parked content_id observation now =
    if not (is_empty content_id)
    then some (
        if contains Text-discrete observation.inventory.content_ids content_id
        then fold_upload_binding (released state) parked content_id observation now
        else released state)
    else if still_settling (upload_settle_start parked) now
    then none
    else if unexplained_artwork state parked observation
    then none
    else some (released state)

unfoldable pub resolve_parked? : State → Option Pending → Observation → ℕ → Option State
unfolding resolve_parked
resolve_parked? state none observation now = none
resolve_parked? state (some parked) observation now =
    if observation.inventory.known
    then resolve_parked state parked (named_content parked.receipt) observation now
    else none

-- `resolveUnresolvedUpload`: the settled state, or none where the source returns `false`.
unfoldable pub resolve_unresolved_upload : State → Observation → ℕ → Option State
unfolding resolve_parked?
resolve_unresolved_upload state observation now =
    resolve_parked? state state.unresolved_upload observation now

abbrev pub is_artwork : CommandKind → Bool
is_artwork CommandKind.upload = true
is_artwork CommandKind.delete_owned = true
is_artwork CommandKind.delete_unknown = true
is_artwork CommandKind.select = true
is_artwork _ = false

-- `withoutCommand`.
unfoldable pub without_command : List CommandIntent → CommandKind → List CommandIntent
without_command commands kind = delete_func (λ c. holds (CommandKind-discrete c.kind kind)) commands

unfoldable pub without_commands : List CommandIntent → List CommandKind → List CommandIntent
unfolding without_command
without_commands commands [] = commands
without_commands commands (kind ∷ kinds) = without_commands (without_command commands kind) kinds

-- `artworkCommandsBlocked`.
unfoldable pub artwork_commands_blocked : List CommandIntent → List CommandIntent
unfolding without_commands
artwork_commands_blocked commands = without_commands commands (
    CommandKind.upload ∷ CommandKind.delete_owned ∷ CommandKind.delete_unknown ∷ CommandKind.select
    ∷ [])
