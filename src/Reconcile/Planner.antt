-- ===== src/Reconcile/Planner.antt =====
-- internal/reconcile/planner.go: `BuildPlan`, in the phases of `planSnapshot`.
use frame_tv_art_manager.Prelude.{
  ℕ, ◌-◌, leb, ◌==◌, Text, Text-discrete, is_empty, text_compare, Ordering, Bool, true, false, not,
  ◌&&◌, if◌then◌else◌, List, [], ◌∷◌, Option, none, some, contains, holds,
}
use frame_tv_art_manager.Prelude.Int.{ℤ, pos, ℤ-discrete, is_zero, is_positive, ltb_ℤ}
use frame_tv_art_manager.Prelude.Hex.{hex_encode}
use frame_tv_art_manager.Prelude.Sort.{or_order}
use frame_tv_art_manager.Prelude.Dict.{Dict, lookup, insert, has_key}
use frame_tv_art_manager.Samsung.Types.{
  SlideshowSetting, SlideshowKind, SlideshowSetting-discrete, SlideshowObservation,
  SettingObservation, setting_valid, clamp,
}
use frame_tv_art_manager.Collection.Types.{Item}
use frame_tv_art_manager.Reconcile.Types.{
  State, Binding, Policy, PolicyMode, PowerPolicy, SlideshowPolicy, SettingPolicy, CommandIntent,
  CommandKind, intent_of,
}
use frame_tv_art_manager.Reconcile.Rotation.{WaitingArtwork, RotationSwap}

-- What the first loop finds out about the bound artwork.
pub record Classified : Type 0 where
  pub prune : List Text
  pub bound : Dict Text
  pub owned : List Binding
  pub obsolete : List Binding

abbrev pub on_tv : List Text → Text → Bool
on_tv ids id = contains Text-discrete ids id

-- `for digest, binding := range state.Bindings`.
unfoldable pub classify : List Text → Dict Item → Dict Binding → Classified
classify ids desired [] = record { prune = []; bound = []; owned = []; obsolete = [] }
classify ids desired ((digest, binding) ∷ rest) =
    let r = classify ids desired rest in
    if on_tv ids binding.content_id
    then if has_key digest desired
      then record r { bound = insert binding.content_id digest r.bound; owned = binding ∷ r.owned }
      else record r {
        bound = insert binding.content_id digest r.bound;
        obsolete = binding ∷ r.obsolete;
      }
    else record r { prune = digest ∷ r.prune }

-- The collection, keyed by digest.
unfoldable pub desired_items : Dict Item → List Item → Dict Item
desired_items desired [] = desired
desired_items desired (item ∷ rest) =
    desired_items (insert (hex_encode item.digest) item desired) rest

abbrev pub is_bound_on_tv : List Text → Option Binding → Bool
is_bound_on_tv ids none = false
is_bound_on_tv ids (some binding) = on_tv ids binding.content_id

abbrev pub time_or_zero : Option ℕ → ℕ
time_or_zero none = 0
time_or_zero (some t) = t

-- `for digest, item := range desired`: what is not on the TV.
unfoldable pub waiting_items : List Text → State → Dict Item → List WaitingArtwork
waiting_items ids state [] = []
waiting_items ids state ((digest, item) ∷ rest) =
    let r = waiting_items ids state rest in
    if is_bound_on_tv ids (lookup digest state.bindings)
    then r
    else record {
      item = item;
      digest = digest;
      last_shown = time_or_zero (lookup digest state.last_shown);
    }
      ∷ r

abbrev pub obsolete_order : Binding → Binding → Ordering
obsolete_order left right =
    or_order (text_compare left.digest right.digest) (text_compare left.content_id right.content_id)

abbrev pub delete_owned_intent : Binding → CommandIntent
delete_owned_intent b = record (intent_of CommandKind.delete_owned) {
  digest = b.digest;
  content_id = b.content_id;
}

-- The deletions of obsolete artwork. The last owned piece stays unless a successor is bound.
unfoldable pub delete_obsolete : Bool → ℕ → ℕ → List Binding → List CommandIntent
delete_obsolete allow_empty bound_desired remaining [] = []
delete_obsolete allow_empty bound_desired remaining (b ∷ rest) =
    let kept = delete_obsolete allow_empty bound_desired remaining rest in
    let gone = delete_obsolete allow_empty bound_desired (remaining - 1) rest in
    if not allow_empty && bound_desired == 0 && leb remaining 1
    then kept
    else delete_owned_intent b ∷ gone

abbrev or_default : Option Text → Text → Text
or_default none d = d
or_default (some t) d = t

unfoldable pub upload_intent : Policy → Dict Text → WaitingArtwork → CommandIntent
upload_intent policy overrides w = record (intent_of CommandKind.upload) {
  digest = w.digest;
  name = w.item.name;
  path = w.item.path;
  file_type = w.item.file_type;
  size = w.item.size;
  matte = or_default (lookup w.item.name overrides) policy.default_matte;
  portrait_matte = policy.portrait_matte;
}

-- Each swap deletes, and uploads in its place.
unfoldable pub swap_intents : Policy → Dict Text → List RotationSwap → List CommandIntent
unfolding upload_intent
swap_intents policy overrides [] = []
swap_intents policy overrides (s ∷ rest) =
    delete_owned_intent s.evict
    ∷ upload_intent policy overrides s.upload
    ∷ swap_intents policy overrides rest

abbrev pub delete_unknown_intent : Text → CommandIntent
delete_unknown_intent id = record (intent_of CommandKind.delete_unknown) {
  content_id = id;
  remove_unknown_approved = true;
}

unfoldable pub delete_unknown_intents : Dict Text → List Text → List CommandIntent
delete_unknown_intents bound [] = []
delete_unknown_intents bound (id ∷ rest) =
    let r = delete_unknown_intents bound rest in
    if has_key id bound then r else delete_unknown_intent id ∷ r

abbrev pub select_content : Text → CommandIntent
select_content id = record (intent_of CommandKind.select) { content_id = id }

unfoldable pub select_binding : List Text → Option Binding → List CommandIntent → List CommandIntent
select_binding ids none rest = rest
select_binding ids (some b) rest =
    if on_tv ids b.content_id then select_content b.content_id ∷ [] else rest

-- The first digest, in order, whose artwork is on the TV.
unfoldable pub select_intent : List Text → State → List Text → List CommandIntent
unfolding select_binding
select_intent ids state [] = []
select_intent ids state (digest ∷ rest) =
    select_binding ids (lookup digest state.bindings) (select_intent ids state rest)

abbrev pub no_kind : SlideshowKind → Bool
no_kind (SlideshowKind.other_kind t) = is_empty t
no_kind _ = false

-- `adjustedSlideshow`.
unfoldable pub adjusted_slideshow : SlideshowSetting → SlideshowSetting → SlideshowSetting
adjusted_slideshow configured observed =
    if is_zero observed.interval then observed else record observed {
      interval = if is_positive configured.interval then configured.interval else observed.interval;
      kind = if no_kind configured.kind then observed.kind else configured.kind;
    }

-- What the policy makes of the setting that the TV reports.
unfoldable pub desired_slideshow : SlideshowPolicy → SlideshowSetting → SlideshowSetting
unfolding adjusted_slideshow
desired_slideshow policy observed =
    let desired = record policy.setting { category = observed.category } in
    let off = record desired { interval = pos 0 } in
    elim policy.mode [
      | PolicyMode.disable ↦ if setting_valid off then off else record off { kind = observed.kind }
      | PolicyMode.adjust ↦ adjusted_slideshow desired observed
      | _ ↦ desired
    ]

abbrev pub is_preserve : PolicyMode → Bool
is_preserve PolicyMode.preserve = true
is_preserve _ = false

abbrev pub slideshow_intent : SlideshowSetting → SlideshowSetting → CommandIntent
slideshow_intent previous desired = record (intent_of CommandKind.slideshow) {
  previous_slideshow = some previous;
  desired_slideshow = some desired;
}

-- The observed setting differs from the desired one, and one of them is not off.
abbrev pub slideshow_differs : SlideshowSetting → SlideshowSetting → Bool
slideshow_differs observed desired =
    not (holds (SlideshowSetting-discrete observed desired))
    && not (is_zero desired.interval && is_zero observed.interval)

abbrev pub changes_slideshow : SlideshowPolicy → SlideshowObservation → Bool
changes_slideshow policy o =
    not (is_preserve policy.mode)
    && (o.known
        && (setting_valid o.setting
            && slideshow_differs o.setting (desired_slideshow policy o.setting)))

unfoldable pub slideshow_intents : SlideshowPolicy → SlideshowObservation → List CommandIntent
slideshow_intents policy o =
    if changes_slideshow policy o
    then slideshow_intent o.setting (desired_slideshow policy o.setting) ∷ []
    else []

-- The level that the policy asks for, within the range that the TV reports.
unfoldable pub desired_brightness : SettingPolicy → SettingObservation → ℤ
unfolding clamp
desired_brightness policy o =
    if ltb_ℤ o.min o.max then clamp policy.value o.min o.max else policy.value

abbrev pub brightness_intent : ℤ → ℤ → CommandIntent
brightness_intent previous desired = record (intent_of CommandKind.brightness) {
  previous_value = some previous;
  desired_value = some desired;
}

abbrev pub changes_brightness : SettingPolicy → SettingObservation → Bool
changes_brightness policy o =
    not (is_preserve policy.mode)
    && (o.known && not (holds (ℤ-discrete o.value (desired_brightness policy o))))

unfoldable pub brightness_intents : SettingPolicy → SettingObservation → List CommandIntent
brightness_intents policy o =
    if changes_brightness policy o
    then brightness_intent o.value (desired_brightness policy o) ∷ []
    else []

unfoldable pub power_intents : PowerPolicy → List CommandIntent
power_intents PowerPolicy.off = intent_of CommandKind.power_off ∷ []
power_intents _ = []
