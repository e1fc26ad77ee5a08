-- ===== src/Samsung/Adapter/SingleUse.antt =====
-- An authorization is good for one command.
use mathlib.Core.List.{append-nil}
use frame_tv_art_manager.Samsung.Adapter.Guarded.{apply-IsGuarded, authorizes_of}
use frame_tv_art_manager.Samsung.Adapter.Prepare.{prepare_command, Prepared}
use frame_tv_art_manager.Samsung.Adapter.Guard.{fresh_command_guard, publish_guard}
use frame_tv_art_manager.Samsung.Errors.{answer, refused, Reply, Failure}
use frame_tv_art_manager.Samsung.Types.{Inventory, Command, Receipt}
use frame_tv_art_manager.Samsung.Adapter.Verify.{verify_postcondition, ApplyAnswers, Sent}
use frame_tv_art_manager.Samsung.Adapter.Apply.{
  invalidate_authorization, Applied, verify_error, apply_authorized, receipt_of, apply_guarded,
  apply, apply_prepared, apply_live, apply_sent, seen_in, finish_command,
}
use frame_tv_art_manager.Samsung.Adapter.{
  is_authorized, authorize_command, Authorization, Config, Adapter, next_generation,
}
use frame_tv_art_manager.Prelude.{
  sym, subst, ◌≤◌, inr, ap₂, ◌++◌, length, inl, ◌∙◌, ◌∷◌, ◌⊎◌, ap, [], ◌≡◌, arith, ◌≢◌, List, ℕ,
  Text, Option, refl, true, none, some,
}

next-ne : (g : ℕ) → next_generation g ≢ g
unfolding next_generation
next-ne g p = omega arith

finish_adapter :
    (a : Adapter) (sent : List Sent) (receipt : Receipt) (now : ℕ) (error : Option Failure)
    → (finish_command a sent receipt now error).adapter ≡ a
unfolding finish_command
finish_adapter a sent receipt now none = refl
finish_adapter a sent receipt now (some e) = refl

authorized_generation :
    (config : Config) (a : Adapter) (authorization : Authorization) (command : Command)
    → is_authorized config a authorization command ≡ true
    → authorization.connection_generation ≡ a.connection_generation
unfolding is_authorized
authorized_generation config a authorization command p = ground arith

seen_generation :
    (f : Option (List ℕ)) (a : Adapter)
    → (seen_in f a).connection_generation ≡ a.connection_generation
seen_generation none a = refl
seen_generation (some f) a = refl

module _ (lower : Text → Text) (fingerprint : List Text → List ℕ) (config : Config)
    (answers : ApplyAnswers) (authorization : Authorization) where
  sent_generation :
      (b : Adapter) (command : Command) (sent : Sent) (e : Option Failure)
      → (apply_sent lower fingerprint config answers b command sent e).adapter.connection_generation
        ≡ b.connection_generation
  unfolding apply_sent finish_command
  sent_generation b command sent (some e) = refl
  sent_generation b command sent none =
      let v = verify_postcondition fingerprint command answers in
      ap (λ (c : Adapter). c.connection_generation)
        (finish_adapter (seen_in v.fingerprint b) (sent ∷ [])
          (receipt_of answers.command_id v.outcome answers.content_id) answers.completed_at
          (verify_error v.outcome v.error))
      ∙ seen_generation v.fingerprint b

  published_generation :
      (command : Command) (inventory : Inventory) (b : Adapter)
      → (publish_guard command inventory b).connection_generation ≡ b.connection_generation
  unfolding publish_guard
  published_generation command inventory b = ground arith

  live_generation :
      (b : Adapter) (prepared : Prepared) (inventory : Inventory) (late : Option Failure)
      → (apply_live lower fingerprint config answers b prepared inventory
          late).adapter.connection_generation
        ≡ b.connection_generation
  unfolding apply_live finish_command
  live_generation b prepared inventory (some e) = refl
  live_generation b prepared inventory none = sent_generation b _ _ _

  prepared_generation :
      (b : Adapter) (r : Reply Prepared)
      → (apply_prepared lower fingerprint config answers b authorization
          r).adapter.connection_generation
        ≡ b.connection_generation
  unfolding apply_prepared apply_guarded finish_command
  prepared_generation b (refused e) = refl
  prepared_generation b (answer prepared) =
      guarded (fresh_command_guard fingerprint config authorization prepared.command answers.reads)
    where
      guarded :
          (r : Reply Inventory)
          → (apply_guarded lower fingerprint config answers b prepared
              r).adapter.connection_generation
            ≡ b.connection_generation
      guarded (refused e) = refl
      guarded (answer inventory) =
          live_generation _ prepared inventory answers.context_late
          ∙ published_generation prepared.command inventory b

  -- A call either is refused, and leaves the adapter as it is, or uses the authorization up.
  abbrev Uses : Adapter → Applied → Type 0
  Uses a r =
      ((r.sent ≡ []) × (r.adapter ≡ a))
      ⊎ ((authorization.connection_generation ≡ a.connection_generation)
          × (r.adapter.connection_generation ≡ next_generation a.connection_generation))

  apply-Uses :
      (a : Adapter) (command : Command)
      → Uses a (apply lower fingerprint config answers a authorization command)
  unfolding apply apply_authorized finish_command invalidate_authorization
  apply-Uses a command =
      uses (authorize_command config a answers.context authorization command) refl
    where
      uses :
          (r : Option Failure)
          → authorize_command config a answers.context authorization command ≡ r
          → Uses a (apply_authorized lower fingerprint config answers a authorization command r)
      uses (some e) p = inl (refl, refl)
      uses none p =
          let good =
            authorizes_of lower fingerprint config answers a authorization command answers.context
              p in
          inr (
            authorized_generation config a authorization command good.0,
            prepared_generation _ (prepare_command lower answers.file command),
          )

  -- One that is used up sends nothing, and changes nothing.
  stale_apply :
      (a : Adapter) (command : Command)
      → authorization.connection_generation ≢ a.connection_generation
      → ((apply lower fingerprint config answers a authorization command).sent ≡ [])
        × ((apply lower fingerprint config answers a authorization command).adapter ≡ a)
  stale_apply a command n = elim (apply-Uses a command) [
    | inl kept ↦ kept
    | inr used ↦ absurd (n used.0)
  ]

  sent_one :
      (a : Adapter) (command : Command)
      → length (apply lower fingerprint config answers a authorization command).sent ≤ 1
  sent_one a command =
      elim (apply-IsGuarded lower fingerprint config answers a authorization command) [
        | inl silent ↦ rw silent (omega arith)
        | inr warranted ↦ rw warranted.one (omega arith)
      ]

module _ (lower : Text → Text) (fingerprint : List Text → List ℕ) (config : Config)
    (authorization : Authorization) where
  -- What a sequence of calls with one authorization sends.
  pub sent_by : List (Command × ApplyAnswers) → Adapter → List Sent
  sent_by [] a = []
  sent_by ((command, answers) ∷ calls) a =
      let r = apply lower fingerprint config answers a authorization command in
      r.sent ++ sent_by calls r.adapter

  stale_sends :
      (calls : List (Command × ApplyAnswers)) (a : Adapter)
      → authorization.connection_generation ≢ a.connection_generation
      → sent_by calls a ≡ []
  unfolding sent_by
  stale_sends [] a n = refl
  stale_sends ((command, answers) ∷ calls) a n =
      let stale = stale_apply lower fingerprint config answers authorization a command n in
      ap₂ ◌++◌ stale.0 (
        stale_sends calls _ (
          subst (λ (b : Adapter). authorization.connection_generation ≢ b.connection_generation)
            (sym stale.1) n))

  -- However often it is used, and for whatever commands, one authorization of an observation lets at
  -- most one message through to the TV.
  pub sent_by-le :
      (calls : List (Command × ApplyAnswers)) (a : Adapter) → length (sent_by calls a) ≤ 1
  unfolding sent_by
  sent_by-le [] a = omega arith
  sent_by-le ((command, answers) ∷ calls) a =
      elim (apply-Uses lower fingerprint config answers authorization a command) [
        | inl kept ↦
            subst (λ (s : List Sent). length s ≤ 1)
              (sym (ap₂ ◌++◌ kept.0 (ap (sent_by calls) kept.1))) (sent_by-le calls a)
        | inr used ↦
            subst (λ (s : List Sent). length s ≤ 1)
              (sym (
                ap (λ (s : List Sent). r.sent ++ s) (stale_sends calls r.adapter (used_up used))
                ∙ append-nil r.sent))
              (sent_one lower fingerprint config answers authorization a command)
      ]
    where
      r : Applied
      r = apply lower fingerprint config answers a authorization command

      used_up :
          (authorization.connection_generation ≡ a.connection_generation)
            × (r.adapter.connection_generation ≡ next_generation a.connection_generation)
          → authorization.connection_generation ≢ r.adapter.connection_generation
      used_up used p = next-ne a.connection_generation (sym (used.1) ∙ (sym p ∙ used.0))
