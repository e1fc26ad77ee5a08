-- ===== src/Reconcile/Recovery/Proof.antt =====
-- `resolveUnresolvedUpload` and `artworkCommandsBlocked`: what has to be known before a parked
-- upload is let go, and what a cycle may do until then.
use frame_tv_art_manager.Prelude.{
  refl, delete_func, ℕ, ◌+◌, ◌≤◌, Text, Text-discrete, ◌≡◌, ◌≢◌, ◌⊎◌, true, false, List, [], ◌∷◌,
  arith, contains, none, some, Option, All,
}
use frame_tv_art_manager.Prelude.Dict.{Dict, Entries, HasUniqueKeys, lookup}
use frame_tv_art_manager.Samsung.Types.{Observation}
use frame_tv_art_manager.Reconcile.Types.{
  CommandIntent, CommandKind-discrete, State, Pending, Binding,
}
use frame_tv_art_manager.Reconcile.Recovery.Parked.{
  is_artwork, without_command, without_commands, artwork_commands_blocked, released, named_content,
  upload_settle_start, upload_settle_time,
}

-- Artwork on the TV that was there before the upload, or that is bound.
abbrev pub IsExplained : List Text → Dict Binding → Text → Type 0
IsExplained before bindings id =
    (contains Text-discrete before id ≡ true)
    ⊎ ((k : Text) × (b : Binding) × (lookup k bindings ≡ some b) × (b.content_id ≡ id))

-- The inventory holds nothing that could be the upload.
abbrev pub NothingNew : Option (List Text) → State → Pending → Observation → Type 0
NothingNew none s parked o = o.inventory.fingerprint ≡ parked.inventory_before
NothingNew (some before) s parked o = All (IsExplained before s.bindings) o.inventory.content_ids

-- The settle time has passed since the upload was sent, if that is on record.
abbrev pub HasSettled : Option ℕ → ℕ → Type 0
HasSettled none now = Unit
HasSettled (some start) now = start + upload_settle_time ≤ now

-- The digest is bound to the content ID.
abbrev pub IsBound : Text → Text → Dict Binding → Type 0
IsBound digest id bindings =
    (b : Binding) × (lookup digest bindings ≡ some b) × (b.digest ≡ digest) × (b.content_id ≡ id)

-- What was found out about a parked upload. It landed, and its artwork is bound under the content ID
-- that the receipt names and the TV holds; or the TV does not hold that content ID; or, without one,
-- it had its time and nothing new is on the TV.
abbrev pub IsProof : State → Pending → Observation → ℕ → State → Type 0
IsProof s parked o now r =
    (((named_content parked.receipt ≢ [])
        × (contains Text-discrete o.inventory.content_ids (named_content parked.receipt) ≡ true)
        × Entries
            (λ k b.
              (lookup k s.bindings ≡ some b)
              ⊎ ((k ≡ parked.command.digest) × (b.content_id ≡ named_content parked.receipt)))
            r.bindings
        × IsBound parked.command.digest (named_content parked.receipt) r.bindings
        × (r.unresolved_upload ≡ none))
      ⊎ ((named_content parked.receipt ≢ [])
          × (contains Text-discrete o.inventory.content_ids (named_content parked.receipt) ≡ false)
          × (r ≡ released s)))
    ⊎ ((named_content parked.receipt ≡ [])
        × HasSettled (upload_settle_start parked) now
        × NothingNew parked.inventory_before_ids s parked o
        × (r ≡ released s))

abbrev OnSome : (State → Type 0) → Option State → Type 0
OnSome P none = Unit
OnSome P (some r) = P r

module _ (s : State) (parked : Pending) (o : Observation) (now : ℕ)
    (u : HasUniqueKeys s.bindings) where
  content : Text
  content = named_content parked.receipt

-- While an upload is parked, a cycle keeps the commands that do not change artwork, in their order,
-- and no others.
pub artwork_commands_blocked_eq :
    (commands : List CommandIntent)
    → artwork_commands_blocked commands ≡ delete_func (λ c. is_artwork c.kind) commands
unfolding artwork_commands_blocked without_commands without_command delete_func CommandKind-discrete
artwork_commands_blocked_eq [] = refl
artwork_commands_blocked_eq (c ∷ commands) = ground (arith, artwork_commands_blocked_eq commands)
