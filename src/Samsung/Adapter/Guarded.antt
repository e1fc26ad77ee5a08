-- ===== src/Samsung/Adapter/Guarded.antt =====
-- Nothing is sent to the TV without an authorization that is still good, and a fresh read of the TV
-- that agrees with it and with the command.
use frame_tv_art_manager.Samsung.Adapter.Fresh.{guard-IsCurrent, guard-IsAsleep}
use frame_tv_art_manager.Samsung.Adapter.Facts.{IsCurrent, some-ne-none, IsAsleep}
use frame_tv_art_manager.Samsung.Adapter.Prepare.{prepare_command, Prepared}
use frame_tv_art_manager.Samsung.Errors.{
  Sentinel, because, command_error, refused, answer, Reply, Failure,
}
use frame_tv_art_manager.Samsung.Adapter.Guard.{fresh_command_guard, GuardReads}
use frame_tv_art_manager.Samsung.Types.{Outcome, Inventory, Command, Receipt}
use frame_tv_art_manager.Samsung.Adapter.Verify.{verify_postcondition, ApplyAnswers, Sent}
use frame_tv_art_manager.Samsung.Adapter.{
  unsupported_error, authorize_command, is_authorized, Authorization, Config, Adapter,
}
use frame_tv_art_manager.Samsung.Adapter.Apply.{
  receipt_of, mutation_of, apply_sent, apply, apply_authorized, apply_prepared, apply_guarded,
  apply_live, finish_command,
}
use frame_tv_art_manager.Prelude.{
  false, inr, ◌∷◌, if◌then◌else◌, Bool, inl, ◌⊎◌, none, [], true, some, ◌≡◌, Option, ℕ, Text, List,
  refl,
}

-- What the TV was found to be, before a command was sent.
abbrev IsChecked :
    (List Text → List ℕ) → Config → Authorization → Command → GuardReads → Inventory → Type 0
IsChecked fingerprint config authorization Command.wake reads inventory =
    IsAsleep config authorization reads
IsChecked fingerprint config authorization command reads inventory =
    IsCurrent fingerprint authorization command reads inventory

pub finish_sent :
    (a : Adapter) (sent : List Sent) (receipt : Receipt) (now : ℕ) (error : Option Failure)
    → (finish_command a sent receipt now error).sent ≡ sent
unfolding finish_command
finish_sent a sent receipt now none = refl
finish_sent a sent receipt now (some e) = refl

guard-IsChecked :
    (fingerprint : List Text → List ℕ) (config : Config) (authorization : Authorization)
    (command : Command) (reads : GuardReads) (inventory : Inventory)
    → fresh_command_guard fingerprint config authorization command reads ≡ answer inventory
    → IsChecked fingerprint config authorization command reads inventory
guard-IsChecked fingerprint config authorization Command.wake reads inventory p =
    guard-IsAsleep fingerprint config authorization Command.wake reads inventory refl p
guard-IsChecked fingerprint config authorization
      (Command.upload path name type matte portrait digest size) reads inventory p =
    guard-IsCurrent fingerprint config authorization _ reads inventory refl p
guard-IsChecked fingerprint config authorization (Command.delete id) reads inventory p =
    guard-IsCurrent fingerprint config authorization _ reads inventory refl p
guard-IsChecked fingerprint config authorization (Command.select id) reads inventory p =
    guard-IsCurrent fingerprint config authorization _ reads inventory refl p
guard-IsChecked fingerprint config authorization (Command.configure_slideshow previous desired)
      reads inventory p =
    guard-IsCurrent fingerprint config authorization _ reads inventory refl p
guard-IsChecked fingerprint config authorization (Command.configure_brightness previous value) reads
      inventory p =
    guard-IsCurrent fingerprint config authorization _ reads inventory refl p
guard-IsChecked fingerprint config authorization Command.power_off_command reads inventory p =
    guard-IsCurrent fingerprint config authorization _ reads inventory refl p

module _ (lower : Text → Text) (fingerprint : List Text → List ℕ) (config : Config)
    (answers : ApplyAnswers) (a : Adapter) (authorization : Authorization) (command : Command) where
  -- The one thing that was sent, and what it went by.
  pub record IsWarranted (sent : List Sent) : Type 0 where
    pub authorized : is_authorized config a authorization command ≡ true
    pub mutable : config.mutable ≡ true
    pub prepared : Prepared
    pub inventory : Inventory
    pub prepares : prepare_command lower answers.file command ≡ answer prepared
    pub checked :
        IsChecked fingerprint config authorization prepared.command answers.reads inventory
    pub live : answers.context_late ≡ none
    pub one : sent ≡ mutation_of prepared inventory answers.reads ∷ []

  abbrev pub IsGuarded : List Sent → Type 0
  IsGuarded sent = (sent ≡ []) ⊎ IsWarranted sent

  abbrev pub Authorizes : Type 0
  Authorizes = (is_authorized config a authorization command ≡ true) × (config.mutable ≡ true)

  pub authorizes_of :
      (context : Option Failure)
      → authorize_command config a context authorization command ≡ none
      → Authorizes
  unfolding authorize_command
  authorizes_of (some e) p = absurd (some-ne-none _ p)
  authorizes_of none p = both (is_authorized config a authorization command) config.mutable p
    where
      both :
          (b m : Bool)
          → (if b
              then (if m then none else some unsupported_error)
              else some (command_error Outcome.not_attempted (because Sentinel.not_authorized)))
            ≡ none
          → (b ≡ true) × (m ≡ true)
      both true true q = (refl, refl)
      both true false q = absurd (some-ne-none _ q)
      both false m q = absurd (some-ne-none _ q)

  module _ (good : Authorizes) where
    live-IsGuarded :
        (b : Adapter) (prepared : Prepared) (inventory : Inventory)
        → prepare_command lower answers.file command ≡ answer prepared
        → IsChecked fingerprint config authorization prepared.command answers.reads inventory
        → (late : Option Failure) → answers.context_late ≡ late
        → IsGuarded (apply_live lower fingerprint config answers b prepared inventory late).sent
    unfolding apply_live apply_sent finish_command
    live-IsGuarded b prepared inventory p c (some e) q = inl refl
    live-IsGuarded b prepared inventory p c none q = inr (record {
      authorized = good.0;
      mutable = good.1;
      prepared = prepared;
      inventory = inventory;
      prepares = p;
      checked = c;
      live = q;
      one = sent_one answers.write_error;
    })
      where
        sent_one :
            (e : Option Failure)
            → (apply_sent lower fingerprint config answers
                (b)
                prepared.command
                (mutation_of prepared inventory answers.reads)
                e).sent
              ≡ mutation_of prepared inventory answers.reads ∷ []
        sent_one none =
            finish_sent _ _
              (receipt_of answers.command_id
                (verify_postcondition fingerprint prepared.command answers).outcome
                answers.content_id)
              answers.completed_at _
        sent_one (some e) = refl

    answered-IsGuarded :
        (b : Adapter) (prepared : Prepared)
        → prepare_command lower answers.file command ≡ answer prepared
        → (r : Reply Inventory)
        → fresh_command_guard fingerprint config authorization prepared.command answers.reads ≡ r
        → IsGuarded (apply_guarded lower fingerprint config answers b prepared r).sent
    unfolding apply_guarded finish_command
    answered-IsGuarded b prepared p (refused e) q = inl refl
    answered-IsGuarded b prepared p (answer inventory) q =
        live-IsGuarded _ prepared inventory p
          (guard-IsChecked fingerprint config authorization prepared.command answers.reads inventory
            q)
          answers.context_late refl

    prepared-IsGuarded :
        (b : Adapter) (r : Reply Prepared)
        → prepare_command lower answers.file command ≡ r
        → IsGuarded (apply_prepared lower fingerprint config answers b authorization r).sent
    unfolding apply_prepared finish_command
    prepared-IsGuarded b (refused e) p = inl refl
    prepared-IsGuarded b (answer prepared) p =
        answered-IsGuarded b prepared p
          (fresh_command_guard fingerprint config authorization prepared.command answers.reads) refl

  authorized-IsGuarded :
      (r : Option Failure)
      → authorize_command config a answers.context authorization command ≡ r
      → IsGuarded (apply_authorized lower fingerprint config answers a authorization command r).sent
  unfolding apply_authorized finish_command
  authorized-IsGuarded (some e) p = inl refl
  authorized-IsGuarded none p =
      prepared-IsGuarded (authorizes_of answers.context p) _
        (prepare_command lower answers.file command) refl

  -- Whatever the TV, the file system and the context answer, a call of Apply sends nothing, or it
  -- sends the one message of its command. It sends it only under an authorization of this adapter
  -- that is not used up, not for a dry run, and has the command's capability, and after a fresh read
  -- of the TV: a TV that shows art, whose artwork is the artwork of the authorization and includes
  -- the piece to delete or select, and whose setting is the one that the command starts from; for a
  -- wake, a TV that is known or presumed to be off.
  pub apply-IsGuarded :
      IsGuarded (apply lower fingerprint config answers a authorization command).sent
  unfolding apply
  apply-IsGuarded =
      authorized-IsGuarded (authorize_command config a answers.context authorization command) refl
