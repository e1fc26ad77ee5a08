-- ===== src/Reconcile/Plan/Sendable.antt =====
-- The commands of a whole plan pass the check that stands before they are recorded and sent.
use frame_tv_art_manager.Collection.Types.{Snapshot, Item}
use frame_tv_art_manager.Prelude.Dict.{
  Entries-imp, Entries-lookup, insert-Entries, Dict, Entries, insert, lookup,
}
use frame_tv_art_manager.Reconcile.Plan.{waiting_items, State, Observation, plan_commands, desired}
use frame_tv_art_manager.Reconcile.Plan.Phases.{Phases, plan_commands-All}
use frame_tv_art_manager.Reconcile.Plan.Classify.{
  classify-owned, classify-obsolete, waiting_items-All,
}
use frame_tv_art_manager.Reconcile.Validate.Maps.{bindings_valid-Entries, IsValidBinding}
use frame_tv_art_manager.Reconcile.Rotation.{WaitingArtwork}
use frame_tv_art_manager.Prelude.{
  Text-discrete, All-contains, All-imp, Option-cases, is_abs, ◌∷◌, List, inl, inr, Option, none,
  some, Text, ◌∷◌, length, List, Option, is_trimmed, leb, is_blank, is_empty, Text, ◌≡◌, true,
  false, refl, arith, All, [],
}
use frame_tv_art_manager.Prelude.Int.{ℤ}
use frame_tv_art_manager.Prelude.Hex.{hex_encode, IsDigest, valid_digest-hex_encode}
use frame_tv_art_manager.Samsung.Types.{setting_valid, SlideshowSetting, SlideshowObservation}
use frame_tv_art_manager.Reconcile.Types.{
  CommandKind, Binding, Policy, intent_of, SlideshowPolicy, CommandIntent,
}
use frame_tv_art_manager.Reconcile.Validate.{
  bindings_valid, binding_valid, intent_valid, intent_valid_as,
}
use frame_tv_art_manager.Reconcile.Inputs.{
  item_valid, content_ids_valid, slideshow_policy_valid, slideshow_valid_as,
}
use frame_tv_art_manager.Reconcile.Planner.{
  desired_brightness, delete_owned_intent, delete_unknown_intent, select_content, brightness_intent,
  upload_intent, desired_items, is_preserve, desired_slideshow, adjusted_slideshow,
  changes_slideshow, slideshow_intent,
}

desired_slideshow-valid :
    (policy : SlideshowPolicy) (s : SlideshowSetting)
    → slideshow_policy_valid policy ≡ true
    → is_preserve policy.mode ≡ false
    → setting_valid s ≡ true
    → setting_valid (desired_slideshow policy s) ≡ true
unfolding slideshow_policy_valid slideshow_valid_as desired_slideshow adjusted_slideshow
    setting_valid
desired_slideshow-valid policy s p n v = ground arith

abbrev pub IsSendable : CommandIntent → Type 0
IsSendable c = intent_valid c ≡ true

slideshow_intent-IsSendable :
    (policy : SlideshowPolicy) (o : SlideshowObservation)
    → slideshow_policy_valid policy ≡ true
    → changes_slideshow policy o ≡ true
    → IsSendable (slideshow_intent o.setting (desired_slideshow policy o.setting))
unfolding intent_valid intent_valid_as
slideshow_intent-IsSendable policy o p c =
    ground (arith, desired_slideshow-valid policy o.setting p)

brightness_intent-IsSendable : (v w : ℤ) → IsSendable (brightness_intent v w)
unfolding intent_valid intent_valid_as
brightness_intent-IsSendable v w = refl

power_off-IsSendable : IsSendable (intent_of CommandKind.power_off)
unfolding intent_valid intent_valid_as
power_off-IsSendable = refl

delete_owned-IsSendable :
    (k : Text) (b : Binding) → binding_valid k b ≡ true → IsSendable (delete_owned_intent b)
unfolding intent_valid intent_valid_as binding_valid
delete_owned-IsSendable k b h = ground arith

delete_unknown-IsSendable :
    (id : Text) → is_blank id ≡ false → IsSendable (delete_unknown_intent id)
unfolding intent_valid intent_valid_as
delete_unknown-IsSendable id h = ground arith

select-IsSendable :
    (k : Text) (b : Binding) → binding_valid k b ≡ true → IsSendable (select_content b.content_id)
unfolding intent_valid intent_valid_as binding_valid
select-IsSendable k b h = ground arith

-- A matte's name, as the policy's checks let it be.
abbrev pub IsMatte : Text → Type 0
IsMatte m = (is_blank m ≡ false) × (leb (length m) 128 ≡ true)

-- An item as the collection publishes it.
abbrev pub IsPublished : Item → Type 0
IsPublished i =
    (item_valid i ≡ true) × IsDigest i.digest × (is_abs i.name ≡ false) × (is_blank i.name ≡ false)

abbrev pub HasMattes : Policy → Dict Text → Type 0
HasMattes policy overrides =
    IsMatte policy.default_matte
    × Entries (λ name m. IsMatte m) overrides
    × (is_trimmed policy.portrait_matte ≡ true)
    × (leb (length policy.portrait_matte) 128 ≡ true)

upload-IsMatte :
    (policy : Policy) (overrides : Dict Text) (w : WaitingArtwork)
    → HasMattes policy overrides
    → IsMatte (upload_intent policy overrides w).matte
unfolding upload_intent
upload-IsMatte policy overrides w h = elim (Option-cases (lookup w.item.name overrides)) [
  | inl e ↦ rw e h.0
  | inr (m, e) ↦ rw e (Entries-lookup _ w.item.name m overrides h.1 e)
]

upload-IsSendable :
    (policy : Policy) (overrides : Dict Text) (w : WaitingArtwork)
    → HasMattes policy overrides
    → w.digest ≡ hex_encode w.item.digest
    → IsPublished w.item
    → IsSendable (upload_intent policy overrides w)
unfolding intent_valid intent_valid_as upload_intent item_valid
upload-IsSendable policy overrides w h e i =
    ground (arith, upload-IsMatte policy overrides w h, valid_digest-hex_encode w.item.digest i.1)

desired_items-Entries :
    (m : Dict Item) (items : List Item)
    → Entries (λ k item. (k ≡ hex_encode item.digest) × IsPublished item) m
    → All IsPublished items
    → Entries (λ k item. (k ≡ hex_encode item.digest) × IsPublished item) (desired_items m items)
unfolding desired_items
desired_items-Entries m [] e h = e
desired_items-Entries m (item ∷ rest) e h =
    desired_items-Entries (insert (hex_encode item.digest) item m) rest
      (insert-Entries _ (hex_encode item.digest) item m (refl, h.0) e) h.1

pub blank_of_trimmed :
    (id : Text) → is_empty id ≡ false → is_trimmed id ≡ true → is_blank id ≡ false
blank_of_trimmed id e t = ground arith

content_ids_valid-All :
    (previous : Option Text) (ids : List Text)
    → content_ids_valid previous ids ≡ true
    → All (λ id. is_blank id ≡ false) ids
unfolding content_ids_valid
content_ids_valid-All previous [] h = tt
content_ids_valid-All none (x ∷ ids) h =
    (ground (arith, blank_of_trimmed x), content_ids_valid-All (some x) ids (ground arith))
content_ids_valid-All (some p) (x ∷ ids) h =
    (ground (arith, blank_of_trimmed x), content_ids_valid-All (some x) ids (ground arith))

module _ (snapshot : Snapshot) (o : Observation) (s : State) (policy : Policy)
    (overrides : Dict Text) where
  waiting-Published :
      All IsPublished snapshot.items
      → All
          (λ w. (w.digest ≡ hex_encode w.item.digest) × IsPublished w.item)
          (waiting_items o.inventory.content_ids s (desired snapshot o s policy))
  waiting-Published h =
      waiting_items-All o.inventory.content_ids s _ (desired snapshot o s policy) (
        Entries-imp _ _ (λ k item e away t. e) (desired snapshot o s policy)
          (desired_items-Entries [] snapshot.items tt h))

  phases :
      Entries IsValidBinding s.bindings
      → content_ids_valid none o.inventory.content_ids ≡ true
      → slideshow_policy_valid policy.slideshow ≡ true
      → HasMattes policy overrides
      → All IsPublished snapshot.items
      → Phases IsSendable snapshot o s policy overrides
  phases b ids p m items = record {
    owned =
        classify-owned o.inventory.content_ids (desired snapshot o s policy) _ s.bindings
          (Entries-imp _ _ (λ k c v on want. delete_owned-IsSendable k c v) s.bindings b);
    obsolete =
        classify-obsolete o.inventory.content_ids (desired snapshot o s policy) _ s.bindings
          (Entries-imp _ _ (λ k c v on other. delete_owned-IsSendable k c v) s.bindings b);
    waiting =
        All-imp _ _ (λ w h. upload-IsSendable policy overrides w m h.0 h.1) _
          (waiting-Published items);
    unknown = λ r id on free. delete_unknown-IsSendable id (
        All-contains _ Text-discrete o.inventory.content_ids id
          (content_ids_valid-All none o.inventory.content_ids ids) on);
    selected = λ r k c e on. select-IsSendable k c (Entries-lookup _ k c s.bindings b e);
    slideshow = slideshow_intent-IsSendable policy.slideshow o.slideshow p;
    brightness = λ c.
        brightness_intent-IsSendable o.brightness.value
          (desired_brightness policy.brightness o.brightness);
    power = λ e. power_off-IsSendable;
  }

-- Where the state's bindings, the TV's content IDs and the slideshow policy pass the checks that
-- `Plan` makes of its inputs, the mattes are nonblank and at most 128 bytes long, and the
-- collection publishes valid items, whose digests have 32 bytes and whose names are nonblank and
-- not absolute paths, `validateIntent` accepts every command of the plan.
pub plan_commands-IsSendable :
    (snapshot : Snapshot) (o : Observation) (s : State) (policy : Policy) (overrides : Dict Text)
    → bindings_valid [] s.bindings ≡ true
    → content_ids_valid none o.inventory.content_ids ≡ true
    → slideshow_policy_valid policy.slideshow ≡ true
    → HasMattes policy overrides
    → All IsPublished snapshot.items
    → All IsSendable (plan_commands snapshot o s policy overrides)
plan_commands-IsSendable snapshot o s policy overrides b ids p m items =
    plan_commands-All IsSendable snapshot o s policy overrides
      (phases snapshot o s policy overrides (bindings_valid-Entries s.bindings b).0 ids p m items)
