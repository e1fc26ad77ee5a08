-- ===== src/Themes/Members.antt =====
-- Membership of artwork in a themed collection (internal/themes/themes.go).
pub mod Upkeep
use frame_tv_art_manager.Prelude.{
  ℕ, ◌-◌, ◌≤◌, ◌<◌, leb, Text, ◌=ₜ◌, is_empty, Bool, true, false, not, ◌&&◌, ◌||◌, if◌then◌else◌,
  List, [], ◌∷◌, ◌++◌, length, Option, none, some, delete_func, contains_func, All, ◌≡◌, refl,
  arith, ◌⊎◌, inl, inr, length-append,
}
use frame_tv_art_manager.Themes.Types.{Member, Themed, Identity, max_members}

abbrev pub first_non_empty : Text → Text → Text
first_non_empty a b = if is_empty a then b else a

-- `strings.EqualFold` on artwork keys, by the Unicode tables.
module _ (equal_fold : Text → Text → Bool) where
  -- `Member.Matches`.
  unfoldable pub matches : Member → Identity → Bool
  matches m a =
      not (is_empty m.key) && equal_fold m.key a.key
      || not (is_empty m.origin) && m.origin =ₜ a.origin
      || not (is_empty m.digest) && m.digest =ₜ a.digest

  abbrev pub identity_of_member : Member → Identity
  identity_of_member m = record { key = m.key; origin = m.origin; digest = m.digest }

  -- `Member.sameArtwork`.
  unfoldable pub same_artwork : Member → Member → Bool
  unfolding matches
  same_artwork m other = matches m (identity_of_member other)

  -- `Member.merge`.
  unfoldable pub merge : Member → Member → Member
  merge m update = record m {
    key = first_non_empty update.key m.key;
    origin = first_non_empty m.origin update.origin;
    digest = first_non_empty update.digest m.digest;
    name = first_non_empty update.name m.name;
    title = first_non_empty update.title m.title;
    artist = first_non_empty update.artist m.artist;
    description = first_non_empty update.description m.description;
    license = first_non_empty update.license m.license;
    link = first_non_empty update.link m.link;
  }

  -- The loop of `AddMember`: the members with the first that is the same artwork merged, or none.
  unfoldable pub merge_member : Member → List Member → Option (List Member)
  unfolding same_artwork merge
  merge_member m [] = none
  merge_member m (existing ∷ rest) =
      let merged = merge_member m rest in
      if same_artwork existing m
      then some (merge existing m ∷ rest)
      else elim merged [ none ↦ none | some members ↦ some (existing ∷ members) ]

  unfoldable pub add_merged : Themed → Member → Option (List Member) → Option (Themed × Bool)
  add_merged c m (some members) = some (record c { members = members }, false)
  add_merged c m none =
      if leb max_members (length c.members)
      then none
      else some (record c { members = c.members ++ m ∷ [] }, true)

  -- `Collection.AddMember`, for a member that `Member.validate` has accepted: the collection and
  -- whether the member is new, or none where the collection has its maximum.
  unfoldable pub add_member : Themed → Member → Option (Themed × Bool)
  unfolding merge_member add_merged
  add_member c m = add_merged c m (merge_member m c.members)

  -- `Collection.RemoveMember`: the collection, and how many members went.
  unfoldable pub remove_member : Themed → Identity → Themed × ℕ
  unfolding matches
  remove_member c a =
      let kept = delete_func (λ m. matches m a) c.members in
      (record c { members = kept }, length c.members - length kept)
