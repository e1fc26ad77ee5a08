-- ===== src/Reconcile/Plan/Ownership.antt =====
-- Why a plan of Planner may hold a command: what the state, the TV and the policy say of it.
use frame_tv_art_manager.Prelude.{Text, ◌≡◌, ◌≢◌, true, false, some}
use frame_tv_art_manager.Prelude.Dict.{Entries, lookup}
use frame_tv_art_manager.Collection.Types.{Item, Snapshot}
use frame_tv_art_manager.Samsung.Types.{Observation}
use frame_tv_art_manager.Reconcile.Types.{
  Binding, State, Policy, PowerPolicy, CommandIntent, CommandKind,
}
use frame_tv_art_manager.Reconcile.Planner.{on_tv, is_bound_on_tv, is_preserve}
use frame_tv_art_manager.Reconcile.Rotation.{WaitingArtwork}
use frame_tv_art_manager.Reconcile.Plan.{desired}

-- Why a plan may hold a command, by its kind.
module _ (snapshot : Snapshot) (observation : Observation) (state : State) (policy : Policy) where
  abbrev pub IsOwnedOnTv : CommandIntent → Type 0
  IsOwnedOnTv c =
      (b : Binding) × (lookup c.digest state.bindings ≡ some b)
      × (b.content_id ≡ c.content_id)
      × (on_tv observation.inventory.content_ids c.content_id ≡ true)

  abbrev pub IsForeignOnTv : CommandIntent → Type 0
  IsForeignOnTv c =
      (policy.remove_unknown ≡ true)
      × (c.remove_unknown_approved ≡ true)
      × (on_tv observation.inventory.content_ids c.content_id ≡ true)
      × Entries (λ k b. b.content_id ≢ c.content_id) state.bindings

  abbrev pub IsWantedAndAway : CommandIntent → Type 0
  IsWantedAndAway c =
      (item : Item) × (lookup c.digest (desired snapshot observation state policy) ≡ some item)
      × (c.name ≡ item.name)
      × (c.path ≡ item.path)
      × (c.size ≡ item.size)
      × (is_bound_on_tv observation.inventory.content_ids (lookup c.digest state.bindings) ≡ false)

  abbrev pub IsShowable : CommandIntent → Type 0
  IsShowable c =
      (digest : Text) × (b : Binding) × (policy.select ≡ true)
      × (lookup digest state.bindings ≡ some b)
      × (b.content_id ≡ c.content_id)
      × (on_tv observation.inventory.content_ids c.content_id ≡ true)

  abbrev pub MayIssue : CommandIntent → CommandKind → Type 0
  MayIssue c CommandKind.upload = IsWantedAndAway c
  MayIssue c CommandKind.delete_owned = IsOwnedOnTv c
  MayIssue c CommandKind.delete_unknown = IsForeignOnTv c
  MayIssue c CommandKind.select = IsShowable c
  MayIssue c CommandKind.slideshow =
      (is_preserve policy.slideshow.mode ≡ false) × (observation.slideshow.known ≡ true)
  MayIssue c CommandKind.brightness =
      (is_preserve policy.brightness.mode ≡ false) × (observation.brightness.known ≡ true)
  MayIssue c CommandKind.power_off = policy.power ≡ PowerPolicy.off
  MayIssue c CommandKind.wake = ⊥
  MayIssue c (CommandKind.unknown_kind t) = ⊥

  abbrev pub IsAllowed : CommandIntent → Type 0
  IsAllowed c = MayIssue c c.kind

  -- What a binding must be for its deletion to be allowed.
  abbrev pub Deletable : Binding → Type 0
  Deletable b =
      (lookup b.digest state.bindings ≡ some b)
      × (on_tv observation.inventory.content_ids b.content_id ≡ true)

  abbrev pub Uploadable : WaitingArtwork → Type 0
  Uploadable w =
      (lookup w.digest (desired snapshot observation state policy) ≡ some w.item)
      × (is_bound_on_tv observation.inventory.content_ids (lookup w.digest state.bindings) ≡ false)
