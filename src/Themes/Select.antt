-- ===== src/Themes/Select.antt =====
-- internal/themes/select.go: the artwork that is shown on a day.
pub mod Shown
use frame_tv_art_manager.Prelude.{
  ℕ, ◌-◌, Text, Text-discrete, Bool, true, false, not, ◌&&◌, ◌||◌, if◌then◌else◌, List, [], ◌∷◌,
  length, Option, none, some, contains, contains_func,
}
use frame_tv_art_manager.Prelude.Hex.{hex_encode}
use frame_tv_art_manager.Prelude.Dict.{Dict, lookup, insert}
use frame_tv_art_manager.Collection.Types.{Item}
use frame_tv_art_manager.Themes.Types.{Themed, Identity}
use frame_tv_art_manager.Themes.Calendar.{MonthDay, active_at}
use frame_tv_art_manager.Themes.Members.{matches}

pub record Selection : Type 0 where
  pub items : List Item
  pub active : List Text
  pub exclusive : Bool
  pub hidden : ℕ

-- `IdentityOf`.
abbrev pub identity_of : Item → Identity
identity_of item = record {
  key = item.key;
  origin = item.origin.key;
  digest = hex_encode item.digest;
}

-- The slugs of the collections that are active today, in file order. The map `active` of the source
-- holds the same slugs.
unfoldable pub active_slugs : List Themed → MonthDay → List Text
active_slugs [] today = []
active_slugs (c ∷ cs) today =
    let rest = active_slugs cs today in if active_at c.activation today then c.slug ∷ rest else rest

-- The map `exclusive`: a later collection with the same slug replaces an earlier one.
unfoldable pub exclusive_map : Dict Bool → List Themed → Dict Bool
exclusive_map m [] = m
exclusive_map m (c ∷ cs) = exclusive_map (insert c.slug c.exclusive m) cs

abbrev or_false : Option Bool → Bool
or_false none = false
or_false (some b) = b

module _ (equal_fold : Text → Text → Bool) where
  -- `Memberships`, for one item.
  unfoldable pub membership : List Themed → Item → List Text
  membership [] item = []
  membership (c ∷ cs) item =
      let rest = membership cs item in
      if contains_func (λ m. matches equal_fold m (identity_of item)) c.members
      then c.slug ∷ rest
      else rest

  abbrev pub is_active : List Text → Text → Bool
  is_active active slug = contains Text-discrete active slug

  -- The item is in a collection that is active and exclusive.
  unfoldable pub claims : List Themed → List Text → Dict Bool → Item → Bool
  unfolding membership
  claims cs active exclusive item =
      contains_func (λ slug. is_active active slug && or_false (lookup slug exclusive))
        (membership cs item)

  abbrev is_everyday : List Text → Bool
  is_everyday [] = true
  is_everyday (slug ∷ slugs) = false

  -- The test of the loop that selects.
  unfoldable pub shows : List Themed → List Text → Bool → Item → Bool
  unfolding membership
  shows cs active exclusive item =
      contains_func (is_active active) (membership cs item)
      || is_everyday (membership cs item) && not exclusive

  unfoldable pub select_items : (Item → Bool) → List Item → List Item
  select_items p [] = []
  select_items p (item ∷ items) =
      let rest = select_items p items in if p item then item ∷ rest else rest

  -- `Select`, for the month and the day of `now`.
  unfoldable pub select : List Themed → List Item → MonthDay → Selection
  unfolding active_slugs claims shows select_items
  select cs items today =
      let active = active_slugs cs today in
      let exclusive = contains_func (claims cs active (exclusive_map [] cs)) items in
      let shown = select_items (shows cs active exclusive) items in
      record {
        items = shown;
        active = active;
        exclusive = exclusive;
        hidden = length items - length shown;
      }
