-- ===== src/Reconcile/Execution/WriteAhead.antt =====
-- The protocol that `execute` keeps: nothing is sent to the TV that the store does not know of, and
-- no outcome is lost.
use frame_tv_art_manager.Prelude.{
  ◌∙◌, ap, refl, ◌≡◌, ◌≢◌, ◌⊎◌, inl, inr, ℕ, Text, Option, none, some, List, [], ◌∷◌, All, arith,
  true, false, if_cases,
}
use frame_tv_art_manager.Samsung.Types.{Command}
use frame_tv_art_manager.Reconcile.Execution.Receipts.{handle_receipt}
use frame_tv_art_manager.Reconcile.Types.{State, Pending, Phase, CommandIntent, CommandKind, Hashes}
use frame_tv_art_manager.Reconcile.Errors.{Result, ok, err, Err, Cause, or_plain}
use frame_tv_art_manager.Reconcile.Validate.{state_valid, intent_valid_as}
use frame_tv_art_manager.Reconcile.Inputs.{fingerprint_policy}
use frame_tv_art_manager.Reconcile.Recovery.Validity.{state_valid-Checked}
use frame_tv_art_manager.Reconcile.Recovery.Facts.{intent_as}
use frame_tv_art_manager.Reconcile.Execution.{
  return, Answers, Run, Event, save, send, samsung_command, samsung_command_as, slideshow_command,
  brightness_command,
}
use frame_tv_art_manager.Reconcile.Execution.Execute.{
  ExecutionInput, execute, execute_checked, execute_with, execute_saved, execute_paced, abandon,
  send_prepared, prepared_state, prepared_pending,
}
use frame_tv_art_manager.Reconcile.Execution.Accounts.{
  IsSave, save-saves, handle_receipt-saves, handle_receipt-Accounts, durable, IsAccounted,
}

-- A run that sends its command sends it once, right after the record of it is in the store, under a
-- state that `validateState` accepts; after that it only writes states, and how the store stands at
-- the end is accounted for.
pub record Sends (i : ExecutionInput) (a : Answers) (r : Run) : Type 0 where
  pub prepared : State
  pub pending : Pending
  pub command : Command
  pub rest : List Event
  pub order : r.events ≡ Event.saved prepared true ∷ Event.sent command ∷ rest
  pub valid : state_valid prepared prepared.tv ≡ true
  pub recorded : prepared.pending ≡ some pending
  pub phase : pending.phase ≡ Phase.prepared
  pub intent : pending.command ≡ i.intent
  pub translated : samsung_command i.intent ≡ some (ok command)
  pub rest_saves : All IsSave rest
  pub accounted :
      IsAccounted i.intent a.receipt.outcome r.done.error (durable prepared rest) r.done.state

command-given :
    (kind : CommandKind) (i : CommandIntent)
    → intent_valid_as kind i ≡ true
    → samsung_command_as kind i ≢ none
unfolding samsung_command_as intent_valid_as slideshow_command brightness_command
command-given CommandKind.upload i v = λ e. cc
command-given CommandKind.delete_owned i v = λ e. cc
command-given CommandKind.delete_unknown i v = λ e. cc
command-given CommandKind.select i v = λ e. cc
command-given CommandKind.slideshow i v = ground arith
command-given CommandKind.brightness i v = ground arith
command-given CommandKind.power_off i v = λ e. cc
command-given CommandKind.wake i v = λ e. cc
command-given (CommandKind.unknown_kind t) i v = λ e. cc

-- A valid record is of a command that can be sent: Go does not panic.
pub prepared-given :
    (s : State) (p : Pending)
    → state_valid (prepared_state s p) s.tv ≡ true
    → samsung_command p.command ≢ none
unfolding samsung_command
prepared-given s p v =
    command-given p.command.kind p.command
      (intent_as p (state_valid-Checked (prepared_state s p) s.tv v).pending)

module _ (lower : Text → Text) (h : Hashes) (i : ExecutionInput) (a : Answers) where
  abbrev IsOrdered : Run → Type 0
  IsOrdered r = Sends i a r ⊎ All IsSave r.events

  abandon-saves : (s : State) (e : Err) → All IsSave (abandon lower h i a s e).events
  unfolding abandon
  abandon-saves s e = save-saves _ a.clear_error _ tt (λ f. tt)

  send-IsOrdered :
      (s : State) (p : Pending) (c : Option (Result Command))
      → samsung_command p.command ≡ c
      → c ≢ none
      → state_valid s s.tv ≡ true
      → s.pending ≡ some p
      → p.phase ≡ Phase.prepared
      → p.command ≡ i.intent
      → IsOrdered (record (send_prepared lower h i a s p c) {
        events = Event.saved s true ∷ (send_prepared lower h i a s p c).events;
      })
  unfolding send_prepared send handle_receipt
  send-IsOrdered s p none e n v q f m = absurd (n refl)
  send-IsOrdered s p (some (err x)) e n v q f m = inr (tt, tt)
  send-IsOrdered s p (some (ok c)) e n v q f m = inl (record {
    prepared = s;
    pending = p;
    command = c;
    rest = (handle_receipt h a i.observation s p).events;
    order = refl;
    valid = v;
    recorded = q;
    phase = f;
    intent = m;
    translated = cc;
    rest_saves = handle_receipt-saves h a i.observation a.receipt.outcome s p;
    accounted = handle_receipt-Accounts h a i.observation i.intent a.receipt.outcome s p q m;
  })

  paced-IsOrdered :
      (s : State) (p : Pending) (pace : Option Err)
      → state_valid s s.tv ≡ true
      → samsung_command p.command ≢ none
      → s.pending ≡ some p
      → p.phase ≡ Phase.prepared
      → p.command ≡ i.intent
      → IsOrdered (record (execute_paced lower h i a s p pace) {
        events = Event.saved s true ∷ (execute_paced lower h i a s p pace).events;
      })
  unfolding execute_paced
  paced-IsOrdered s p (some e) v n q f m = inr (tt, abandon-saves s e)
  paced-IsOrdered s p none v n q f m =
      send-IsOrdered s p (samsung_command i.intent) (ap samsung_command m)
        (λ e. n (ap samsung_command m ∙ e)) v q f m

  with-IsOrdered :
      (p : Pending) (answer : Option Err)
      → p.phase ≡ Phase.prepared
      → p.command ≡ i.intent
      → IsOrdered (
          save
            (prepared_state i.state p)
            answer
            (execute_saved lower h i a (prepared_state i.state p) p))
  unfolding save execute_saved
  with-IsOrdered p none f m =
      if_cases IsOrdered (state_valid (prepared_state i.state p) i.state.tv)
        (record (execute_paced lower h i a (prepared_state i.state p) p a.pace_error) {
          events =
              Event.saved (prepared_state i.state p) true
              ∷ (execute_paced lower h i a (prepared_state i.state p) p a.pace_error).events;
        })
        (return (prepared_state i.state p) i.observation (some (Cause.plain ∷ [])))
        (λ v.
          paced-IsOrdered (prepared_state i.state p) p a.pace_error v (prepared-given i.state p v)
            refl f m)
        (λ _. inr tt)
  with-IsOrdered p (some e) f m =
      if_cases IsOrdered (state_valid (prepared_state i.state p) i.state.tv)
        (record (return (prepared_state i.state p) i.observation (some e)) {
          events = Event.saved (prepared_state i.state p) false ∷ [];
        })
        (return (prepared_state i.state p) i.observation (some (Cause.plain ∷ [])))
        (λ v. inr (tt, tt)) (λ _. inr tt)

  checked-IsOrdered :
      (id : Result Text) (fingerprint : Result (List ℕ))
      → IsOrdered (execute_checked lower h i a id fingerprint)
  unfolding execute_checked execute_with
  checked-IsOrdered (err e) fingerprint = inr tt
  checked-IsOrdered (ok id) (err e) = inr tt
  checked-IsOrdered (ok id) (ok fingerprint) =
      with-IsOrdered (prepared_pending i a id fingerprint) a.prepare_error refl refl

-- Whatever the store, the clock, the pacing and the TV answer, a run of `execute` only writes
-- states, or it sends the command once, right after a valid state that records it was written. In
-- that case, if no error is returned the store holds the returned state, with nothing pending, and
-- if one is, the command did not change the TV, by its receipt, or the store still holds it as
-- pending. It never panics on a setting that is missing.
pub execute-IsOrdered :
    (lower : Text → Text) (h : Hashes) (i : ExecutionInput) (a : Answers)
    → Sends i a (execute lower h i a) ⊎ All IsSave (execute lower h i a).events
unfolding execute
execute-IsOrdered lower h i a =
    checked-IsOrdered lower h i a a.new_id (or_plain (fingerprint_policy lower h i.policy))
