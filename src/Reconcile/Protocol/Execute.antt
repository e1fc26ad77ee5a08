-- ===== src/Reconcile/Protocol/Execute.antt =====
-- Carrying out one command keeps the protocol: each way through `execute` is a run of the machine.
use frame_tv_art_manager.Prelude.{
  ◌≡◌, refl, ap, ◌∙◌, ◌≤◌, ℕ, Text, List, [], ◌∷◌, Option, none, some, arith, if_cases, contains,
  ◌≢◌, length, ◌==◌,
}
use frame_tv_art_manager.Samsung.Types.{Command}
use frame_tv_art_manager.Reconcile.Types.{State, Pending, Phase, Hashes, CommandIntent, CommandKind}
use frame_tv_art_manager.Reconcile.Errors.{
  Result, ok, err, Err, Cause, Cause-discrete, error_is, or_plain,
}
use frame_tv_art_manager.Reconcile.Inputs.{fingerprint_policy}
use frame_tv_art_manager.Reconcile.Execution.{
  Answers, send, bump, samsung_command, samsung_command_as, or_panic, upload_command, plain,
}
use frame_tv_art_manager.Reconcile.Execution.Receipts.{handle_receipt}
use frame_tv_art_manager.Reconcile.Execution.Execute.{
  ExecutionInput, execute, execute_checked, execute_with, execute_saved, execute_paced, abandon,
  send_prepared, prepared_state, prepared_pending,
}
use frame_tv_art_manager.Prelude.Hex.{hex_decode}
use frame_tv_art_manager.Reconcile.Execution.WriteAhead.{prepared-given}
use frame_tv_art_manager.Reconcile.Protocol.{Stage, Step, number}
use frame_tv_art_manager.Reconcile.Protocol.Sending.{
  goes_on, Leads, event-Leads, save-Leads, save_valid-Leads,
}
use frame_tv_art_manager.Reconcile.Protocol.Receipt.{
  IsForeign, AreForeign, IsForeignResult, IsOutside, Taken, foreign_return, join-IsForeign,
  answer-IsForeign, plain-IsForeign, handle_receipt-Leads,
}

-- `samsungCommand` refuses with an error of its own kind.
IsForeignCommand : Option (Result Command) → Type 0
IsForeignCommand none = Unit
IsForeignCommand (some (ok c)) = Unit
IsForeignCommand (some (err e)) = IsForeign e

unsupported-IsForeign : IsForeign (Cause.unsupported_intent ∷ [])
unfolding goes_on error_is contains Cause-discrete
unsupported-IsForeign = refl

or_panic-IsForeign : (c : Option Command) → IsForeignCommand (or_panic c)
unfolding IsForeignCommand
or_panic-IsForeign none = tt
or_panic-IsForeign (some c) = tt

upload-IsForeign :
    (i : CommandIntent) (d : Option (List ℕ)) → IsForeignCommand (some (upload_command i d))
unfolding IsForeignCommand upload_command plain
upload-IsForeign i none = plain-IsForeign
upload-IsForeign i (some d) =
    if_cases (λ (r : Result Command). IsForeignCommand (some r)) (length d == 32) _ _ (λ _. tt)
      (λ _. plain-IsForeign)

command-IsForeign :
    (kind : CommandKind) (i : CommandIntent) → IsForeignCommand (samsung_command_as kind i)
unfolding IsForeignCommand samsung_command_as
command-IsForeign CommandKind.upload i = upload-IsForeign i (hex_decode i.digest)
command-IsForeign CommandKind.delete_owned i = tt
command-IsForeign CommandKind.delete_unknown i = tt
command-IsForeign CommandKind.select i = tt
command-IsForeign CommandKind.slideshow i = or_panic-IsForeign _
command-IsForeign CommandKind.brightness i = or_panic-IsForeign _
command-IsForeign CommandKind.power_off i = tt
command-IsForeign CommandKind.wake i = tt
command-IsForeign (CommandKind.unknown_kind t) i = unsupported-IsForeign

samsung-IsForeign : (i : CommandIntent) → IsForeignCommand (samsung_command i)
unfolding samsung_command
samsung-IsForeign i = command-IsForeign i.kind i

or_plain-IsForeign : (x : Option (List ℕ)) (e : Err) → err e ≡ or_plain x → IsForeign e
or_plain-IsForeign none e q = let p : e ≡ Cause.plain ∷ [] = ground arith in rw p plain-IsForeign
or_plain-IsForeign (some x) e q = absurd (ground arith)

module _ (lower : Text → Text) (h : Hashes) (i : ExecutionInput) (a : Answers)
    (outside : IsOutside a) where
  sent-Leads :
      (s : State) (p : Pending) (c : Option (Result Command))
      → samsung_command p.command ≡ c
      → c ≢ none
      → IsForeignCommand c
      → Leads Taken (some s) (Stage.written p) (send_prepared lower h i a s p c)
  unfolding send_prepared send handle_receipt IsForeignCommand
  sent-Leads s p none e n k = absurd (n refl)
  sent-Leads s p (some (err x)) e n k = foreign_return (some s) _ s i.observation x k
  sent-Leads s p (some (ok c)) e n k =
      event-Leads Taken (some s) (some s) _ (Stage.sent p) _ _ (Step.send p c e)
        (handle_receipt-Leads h a i.observation outside a.receipt.outcome s p)

  abandon-Leads :
      (s : State) (p : Pending) (e : Err)
      → IsForeign e
      → Leads Taken (some s) (Stage.written p) (abandon lower h i a s e)
  unfolding abandon
  abandon-Leads s p e k =
      let cleared = record (bump s) { pending = none } in
      save-Leads Taken IsForeign (some s) (Stage.written p) Stage.idle cleared a.clear_error _
        plain-IsForeign (answer-IsForeign a.clear_error outside.clear) (omega arith)
        (λ v. Step.withdraw p cleared v refl)
        (foreign_return (some cleared) _ cleared i.observation e k)
        (λ f at q. foreign_return (some s) at s i.observation _ (join-IsForeign e (some f) k q))

  paced-Leads :
      (s : State) (p : Pending) (pace : Option Err)
      → AreForeign pace
      → samsung_command p.command ≢ none
      → p.command ≡ i.intent
      → Leads Taken (some s) (Stage.written p) (execute_paced lower h i a s p pace)
  unfolding execute_paced
  paced-Leads s p (some e) k n m = abandon-Leads s p e k
  paced-Leads s p none k n m =
      sent-Leads s p (samsung_command i.intent) (ap samsung_command m)
        (λ e. n (ap samsung_command m ∙ e)) (samsung-IsForeign i.intent)

  with-Leads :
      (held : Option State) (p : Pending)
      → number held ≤ i.state.revision
      → p.phase ≡ Phase.prepared
      → p.command ≡ i.intent
      → Leads Taken held Stage.idle (execute_with lower h i a p)
  unfolding execute_with execute_saved
  with-Leads held p n f m =
      let s = prepared_state i.state p in
      save_valid-Leads Taken IsForeign held Stage.idle (Stage.written p) s a.prepare_error _
        plain-IsForeign (answer-IsForeign a.prepare_error outside.prepare) (omega arith)
        (λ v. Step.write s p v refl f)
        (λ v. paced-Leads s p a.pace_error outside.pace (prepared-given i.state p v.1) m)
        (λ e at k. foreign_return held at s i.observation e k)

  checked-Leads :
      (held : Option State) (id : Result Text) (fingerprint : Result (List ℕ))
      → number held ≤ i.state.revision
      → IsForeignResult id
      → fingerprint ≡ or_plain (fingerprint_policy lower h i.policy)
      → Leads Taken held Stage.idle (execute_checked lower h i a id fingerprint)
  unfolding execute_checked
  checked-Leads held (err e) fingerprint n k q = foreign_return held _ i.state i.observation e k
  checked-Leads held (ok id) (err e) n k q =
      foreign_return held _ i.state i.observation e
        (or_plain-IsForeign (fingerprint_policy lower h i.policy) e q)
  checked-Leads held (ok id) (ok fingerprint) n k q =
      with-Leads held (prepared_pending i a id fingerprint) n refl refl

  pub execute-Leads :
      (held : Option State)
      → number held ≤ i.state.revision
      → Leads Taken held Stage.idle (execute lower h i a)
  unfolding execute
  execute-Leads held n =
      checked-Leads held a.new_id (or_plain (fingerprint_policy lower h i.policy)) n outside.new_id
        refl
