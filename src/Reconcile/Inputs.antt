-- ===== src/Reconcile/Inputs.antt =====
-- The checks of a plan's inputs: `validateSnapshot` and `validateObservation`
-- (internal/reconcile/validate.go), the policy's checks (policy.go) and its matte overrides
-- (matte_policy.go).
use frame_tv_art_manager.Prelude.{
  holds, ℕ, ◌*◌, Text, Text-discrete, ◌=ₜ◌, is_empty, is_blank, is_trimmed, is_abs, base, extension,
  codes, text_compare, Bool, true, false, not, ◌&&◌, ◌||◌, List, [], ◌∷◌, Option, none, some,
  contains, contains_func, leb, length, ◌==◌, Ordering, if◌then◌else◌,
}
use frame_tv_art_manager.Prelude.Int.{ℤ, pos, is_negative, is_positive, is_zero, ltb_ℤ}
use frame_tv_art_manager.Prelude.Hex.{hex_encode, valid_digest}
use frame_tv_art_manager.Prelude.Sort.{sort_func}
use frame_tv_art_manager.Prelude.Dict.{Dict, insert}
use frame_tv_art_manager.Samsung.Types.{Observation, Inventory, SlideshowKind, setting_valid}
use frame_tv_art_manager.Collection.Types.{Item, Snapshot}
use frame_tv_art_manager.Reconcile.Types.{
  TvIdentity, Policy, PolicyMode, PowerPolicy, SlideshowPolicy, MatteOverride,
  MatteOverride-discrete, Hashes, default_matte, hour,
}
use frame_tv_art_manager.Reconcile.Validate.{identity_from_observation, is_image, is_zero_digest}

abbrev is_lt : Ordering → Bool
is_lt Ordering.lt = true
is_lt _ = false

-- Nonblank and trimmed content IDs, each above the one before it.
unfoldable pub content_ids_valid : Option Text → List Text → Bool
content_ids_valid previous [] = true
content_ids_valid none (id ∷ rest) =
    (not (is_empty id) && is_trimmed id) && content_ids_valid (some id) rest
content_ids_valid (some previous) (id ∷ rest) =
    (not (is_empty id) && is_trimmed id && is_lt (text_compare previous id))
    && content_ids_valid (some id) rest

unfoldable pub inventory_valid : Hashes → Inventory → Bool
unfolding content_ids_valid
inventory_valid h i =
    i.known
    && (not (is_blank i.category_id) && not (i.observed_at == 0))
    && content_ids_valid none i.content_ids
    && h.inventory i.content_ids =ₜ i.fingerprint

-- `validateObservation`: the identity that a trustworthy observation carries.
unfoldable pub validate_observation : Hashes → Observation → Option TvIdentity
unfolding inventory_valid
validate_observation h o = elim (identity_from_observation o) [
  | none ↦ none
  | some tv ↦ if inventory_valid h o.inventory then some tv else none
]

unfoldable pub item_valid : Item → Bool
item_valid item =
    base item.name =ₜ item.name
    && is_abs item.path
    && is_positive item.size
    && is_positive item.width
    && is_positive item.height
    && is_image item.file_type
    && not (is_zero_digest item.digest)

-- The loop over the items, with the names and digests seen so far.
unfoldable pub items_valid : List Text → List Text → List Item → Bool
unfolding item_valid
items_valid names digests [] = true
items_valid names digests (item ∷ rest) =
    not (contains Text-discrete names item.name)
    && not (contains Text-discrete digests (hex_encode item.digest))
    && item_valid item
    && items_valid (item.name ∷ names) (hex_encode item.digest ∷ digests) rest

abbrev pub by_name : Item → Item → Ordering
by_name left right = text_compare left.name right.name

-- `validateSnapshot`.
unfoldable pub snapshot_valid : Hashes → Snapshot → Bool
unfolding items_valid
snapshot_valid h s =
    let items = sort_func by_name s.items in
    valid_digest s.generation && items_valid [] [] items && h.generation items =ₜ s.generation

-- `normalizePolicy`.
unfoldable pub normalize_policy : Policy → Policy
normalize_policy p =
    if is_empty p.default_matte then record p { default_matte = default_matte } else p

abbrev no_kind : SlideshowKind → Bool
no_kind (SlideshowKind.other_kind t) = is_empty t
no_kind _ = false

unfoldable pub slideshow_valid_as : PolicyMode → SlideshowPolicy → Bool
slideshow_valid_as PolicyMode.preserve p = true
slideshow_valid_as PolicyMode.disable p =
    is_zero p.setting.interval && (no_kind p.setting.kind || setting_valid p.setting)
slideshow_valid_as PolicyMode.set p = setting_valid p.setting && is_positive p.setting.interval
slideshow_valid_as PolicyMode.adjust p =
    not (is_negative p.setting.interval) && (no_kind p.setting.kind || setting_valid p.setting)
slideshow_valid_as (PolicyMode.invalid n) p = false

-- `validateSlideshowPolicy`.
unfoldable pub slideshow_policy_valid : SlideshowPolicy → Bool
unfolding slideshow_valid_as
slideshow_policy_valid p = slideshow_valid_as p.mode p

-- 365 days.
abbrev pub maximum_rotation : ℤ
maximum_rotation = pos (365 * 24 * hour)

abbrev brightness_mode_valid : PolicyMode → Bool
brightness_mode_valid PolicyMode.adjust = false
brightness_mode_valid (PolicyMode.invalid n) = false
brightness_mode_valid _ = true

abbrev power_mode_valid : PowerPolicy → Bool
power_mode_valid (PowerPolicy.invalid n) = false
power_mode_valid _ = true

abbrev is_on : PowerPolicy → Bool
is_on PowerPolicy.on = true
is_on _ = false

abbrev is_set : PolicyMode → Bool
is_set PolicyMode.set = true
is_set _ = false

-- `validateValuePolicies`.
unfoldable pub values_valid : Policy → Bool
values_valid p =
    not (is_negative p.rotation || ltb_ℤ maximum_rotation p.rotation)
    && not (
        is_set p.brightness.mode
        && (is_negative p.brightness.value || ltb_ℤ (pos 100) p.brightness.value))

unfoldable pub Overrides-discrete : Discrete (List MatteOverride)
unfolding MatteOverride-discrete
Overrides-discrete = hlevel MatteOverride-discrete

-- `MatteOverrides.index`: a later entry replaces an earlier one.
unfoldable pub index_from : Dict Text → List MatteOverride → Dict Text
index_from indexed [] = indexed
index_from indexed (e ∷ rest) = index_from (insert e.filename e.matte indexed) rest

unfoldable pub override_index : List MatteOverride → Dict Text
unfolding index_from
override_index = index_from []

abbrev slash_or_backslash : ℕ → Bool
slash_or_backslash c = c == b'/' || c == 92

-- `lower` is `strings.ToLower`, by the Unicode tables.
module _ (lower : Text → Text) where
  hidden_copy : Text → Bool
  hidden_copy (c ∷ d ∷ s) = c == b'.' && d == b'_'
  hidden_copy _ = false

  -- `validateMatteOverride`.
  unfoldable pub override_valid : MatteOverride → Bool
  unfolding hidden_copy
  override_valid e =
      not (is_empty e.filename)
      && is_trimmed e.filename
      && base e.filename =ₜ e.filename
      && not (contains_func slash_or_backslash e.filename)
      && not (hidden_copy e.filename)
      && contains Text-discrete (codes ".jpg" ∷ codes ".jpeg" ∷ codes ".png" ∷ [])
          (extension (lower e.filename))
      && (not (is_empty e.matte) && is_trimmed e.matte && leb (length e.matte) 128)

  unfoldable pub overrides_valid : List Text → List MatteOverride → Bool
  unfolding override_valid
  overrides_valid seen [] = true
  overrides_valid seen (e ∷ rest) =
      override_valid e
      && not (contains Text-discrete seen (lower e.filename))
      && overrides_valid (lower e.filename ∷ seen) rest

  abbrev pub by_filename : MatteOverride → MatteOverride → Ordering
  by_filename left right = text_compare left.filename right.filename

  -- `NewMatteOverrides`: sorted by file name, and checked.
  unfoldable pub new_matte_overrides : List MatteOverride → Option (List MatteOverride)
  unfolding overrides_valid
  new_matte_overrides overrides =
      let entries = sort_func by_filename overrides in
      if overrides_valid [] entries then some entries else none

  -- `MatteOverrides.entries`: the kept entries are those that a new set of them would keep.
  unfoldable pub entries_valid : List MatteOverride → Bool
  unfolding new_matte_overrides
  entries_valid kept = elim (new_matte_overrides kept) [
    | none ↦ false
    | some entries ↦ holds (Overrides-discrete entries kept)
  ]

  -- `validatePolicy`.
  unfoldable pub policy_valid : Policy → Bool
  unfolding slideshow_policy_valid values_valid entries_valid
  policy_valid p =
      (power_mode_valid p.power && brightness_mode_valid p.brightness.mode)
      && not (not (p.wake_boundary == 0) && not (is_on p.power))
      && slideshow_policy_valid p.slideshow
      && values_valid p
      && (is_empty p.default_matte
          || is_trimmed p.default_matte && leb (length p.default_matte) 128)
      && (is_trimmed p.portrait_matte && leb (length p.portrait_matte) 128)
      && entries_valid p.matte_overrides

  -- `fingerprintPolicy`.
  unfoldable pub fingerprint_policy : Hashes → Policy → Option (List ℕ)
  unfolding normalize_policy policy_valid
  fingerprint_policy h p =
      let q = normalize_policy p in if policy_valid q then some (h.policy q) else none
