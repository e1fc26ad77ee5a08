-- ===== src/Reconcile/Execution.antt =====
-- internal/reconcile/execution.go, receipt.go and commands.go: one command, carried out under a
-- write-ahead record. What the store, the clock, the pacing and the TV answer is given in advance;
-- a run leaves the events in their order.
pub mod Receipts
pub mod Execute
pub mod Accounts
pub mod Keys
pub mod WriteAhead
use frame_tv_art_manager.Prelude.{
  codes, ◌++◌, ℕ, suc, Text, Text-discrete, Bool, true, false, not, ◌&&◌, ◌==◌, if◌then◌else◌, List,
  [], ◌∷◌, ◌++◌, Option, none, some, contains, delete_func, text_compare, length, holds,
}
use frame_tv_art_manager.Prelude.Int.{ℤ, pos}
use frame_tv_art_manager.Prelude.Hex.{hex_decode}
use frame_tv_art_manager.Prelude.Sort.{sort_func}
use frame_tv_art_manager.Collection.Types.{FileType}
use frame_tv_art_manager.Samsung.Types.{
  Observation, Inventory, SlideshowSetting, Outcome, Receipt, PowerState, Disposition, Command,
  Outcome-discrete,
}
use frame_tv_art_manager.Reconcile.Types.{
  State, Pending, Phase, CommandIntent, CommandKind, CommandKind-discrete, ReceiptSummary,
  CapacityEvidence, Hashes, Policy, no_evidence,
}
use frame_tv_art_manager.Reconcile.Errors.{
  Result, ok, err, Err, Cause, error_is, safe_to_retry_mutation,
}
use frame_tv_art_manager.Reconcile.Validate.{state_valid}
use frame_tv_art_manager.Reconcile.Rotation.{storage_full_capacity}
use frame_tv_art_manager.Reconcile.Recovery.{resolve_pending}

abbrev file_type_text : FileType → Text
file_type_text FileType.jpeg = codes "jpg"
file_type_text FileType.png = codes "png"
file_type_text (FileType.other_type t) = t

unfoldable pub plain {ℓ} : {A : Type ℓ} → Result A
plain = err (Cause.plain ∷ [])

unfoldable pub upload_command : CommandIntent → Option (List ℕ) → Result Command
unfolding plain
upload_command i none = plain
upload_command i (some digest) =
    if length digest == 32
    then ok (
        Command.upload i.path i.name (file_type_text i.file_type) i.matte i.portrait_matte digest
          i.size)
    else plain

unfoldable pub slideshow_command :
    Option SlideshowSetting → Option SlideshowSetting → Option Command
slideshow_command (some previous) (some desired) =
    some (Command.configure_slideshow previous desired)
slideshow_command previous desired = none

unfoldable pub brightness_command : Option ℤ → Option ℤ → Option Command
brightness_command (some previous) (some value) = some (Command.configure_brightness previous value)
brightness_command previous value = none

-- Go dereferences the two settings: `none` is its panic.
abbrev pub or_panic : Option Command → Option (Result Command)
or_panic none = none
or_panic (some c) = some (ok c)

unfoldable pub samsung_command_as : CommandKind → CommandIntent → Option (Result Command)
unfolding upload_command slideshow_command brightness_command
samsung_command_as CommandKind.upload i = some (upload_command i (hex_decode i.digest))
samsung_command_as CommandKind.delete_owned i = some (ok (Command.delete i.content_id))
samsung_command_as CommandKind.delete_unknown i = some (ok (Command.delete i.content_id))
samsung_command_as CommandKind.select i = some (ok (Command.select i.content_id))
samsung_command_as CommandKind.slideshow i =
    or_panic (slideshow_command i.previous_slideshow i.desired_slideshow)
samsung_command_as CommandKind.brightness i =
    or_panic (brightness_command i.previous_value i.desired_value)
samsung_command_as CommandKind.power_off i = some (ok Command.power_off_command)
samsung_command_as CommandKind.wake i = some (ok Command.wake)
samsung_command_as (CommandKind.unknown_kind t) i = some (err (Cause.unsupported_intent ∷ []))

-- `samsungCommand`; `none` where the source panics.
unfoldable pub samsung_command : CommandIntent → Option (Result Command)
unfolding samsung_command_as
samsung_command i = samsung_command_as i.kind i

-- What a run does to the world: it saves a state, and the write succeeds or not, and it sends a
-- command to the TV.
pub data Event : Type 0 where
  saved : State → Bool → Event
  sent : Command → Event
  -- Go's panic on a setting that is not there.
  panicked : Event

-- The three results that the source returns.
pub record Done : Type 0 where
  pub state : State
  pub observation : Observation
  pub error : Option Err

pub record Run : Type 0 where
  pub events : List Event
  pub done : Done

-- What the world answers to one command: the errors of the writes, in the order of the calls, of
-- the pacing and of the TV, its receipt, and the clock.
pub record Answers : Type 0 where
  pub new_id : Result Text
  pub prepared_at : ℕ
  pub prepare_error : Option Err
  pub pace_error : Option Err
  pub clear_error : Option Err
  pub receipt : Receipt
  pub apply_error : Option Err
  pub receipt_error : Option Err
  pub resolved_at : ℕ
  pub resolve_error : Option Err

abbrev pub return : State → Observation → Option Err → Run
return s o e = record { events = []; done = record { state = s; observation = o; error = e } }

abbrev pub is_none {ℓ} : {A : Type ℓ} → Option A → Bool
is_none none = true
is_none (some a) = false

-- `store.save`: an invalid state is refused before anything is written. `answer` is the error of the
-- write; the run goes on by the outcome.
unfoldable pub save : State → Option Err → (Option Err → Run) → Run
save s answer next =
    let refused = next (some (Cause.plain ∷ [])) in
    let run = next answer in
    if state_valid s s.tv
    then record run { events = Event.saved s (is_none answer) ∷ run.events }
    else refused

unfoldable pub send : Command → Run → Run
send c run = record run { events = Event.sent c ∷ run.events }

abbrev pub panic : State → Observation → Run
panic s o = record {
  events = Event.panicked ∷ [];
  done = record { state = s; observation = o; error = none };
}

abbrev pub bump : State → State
bump s = record s { revision = suc s.revision }

-- `receiptSummary`.
abbrev pub receipt_summary : Receipt → ReceiptSummary
receipt_summary r = record {
  command_id = r.command_id;
  outcome = r.outcome;
  content_id = r.content_id;
  completed_at = r.completed_at;
}

-- `state.Pending.Phase = …` and `state.Pending.Receipt = …`.
abbrev pub with_receipt : Pending → Phase → Receipt → Pending
with_receipt p phase r = record p { phase = phase; receipt = some (receipt_summary r) }

abbrev pub join : Err → Option Err → Err
join e none = e
join e (some f) = e ++ f
