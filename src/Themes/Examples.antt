-- ===== src/Themes/Examples.antt =====
-- The theorems on themed collections at concrete inputs: a winter window, and an exclusive
-- collection that holds one of two pieces.
use frame_tv_art_manager.Prelude.{
  ◌++◌, ◌≤◌, ◌<◌, Text, codes, ◌=ₜ◌, Bool, true, [], ◌∷◌, length, All, contains_func, ◌≡◌, refl,
  ◌↔◌, Text-discrete, ℕ_discrete, holds_of, contains,
}
use frame_tv_art_manager.Prelude.Int.{pos}
use frame_tv_art_manager.Prelude.Dict.{lookup, insert}
use frame_tv_art_manager.Collection.Types.{Item, FileType}
use frame_tv_art_manager.Themes.Types.{Mode, Activation, Member, Themed}
use frame_tv_art_manager.Themes.Calendar.{MonthDay, active_at, parse_month_day}
use frame_tv_art_manager.Themes.Calendar.Window.{active_at_window, days_from}
use frame_tv_art_manager.Themes.Select.{exclusive_map, select, active_slugs, membership, is_active}
use frame_tv_art_manager.Themes.Select.Shown.{select_exclusive}
use frame_tv_art_manager.Themes.Members.{identity_of_member, add_member, remove_member, matches}
use frame_tv_art_manager.Themes.Members.Upkeep.{
  IsAdded, IsRemoved, add_member-IsAdded, remove_member_lem, remove_member-add_member,
}

abbrev new_year : MonthDay
new_year = record { month = 1; day = 1 }

abbrev winter : Activation
winter = record { mode = Mode.window; start = codes "12-01"; end = codes "01-06" }

active_at_window_example : (active_at winter new_year ≡ true) ↔ (
    days_from (record { month = 12; day = 1 }) new_year
    ≤ days_from (record { month = 12; day = 1 }) (record { month = 1; day = 6 }))
unfolding parse_month_day
active_at_window_example =
    active_at_window (codes "12-01") (codes "01-06") (record { month = 12; day = 1 })
      (record { month = 1; day = 6 }) new_year refl refl refl

abbrev item_of : Text → Item
item_of name = record {
  name = name;
  key = name;
  path = codes "/art/x.jpg";
  digest = 1 ∷ [];
  file_type = FileType.jpeg;
  size = pos 9;
  width = pos 3;
  height = pos 2;
  origin = record { key = name; class = codes "file" };
}

abbrev member_of : Text → Member
member_of key = record {
  key = key;
  origin = [];
  digest = [];
  name = key;
  title = [];
  artist = [];
  description = [];
  license = [];
  link = [];
  added_at = 1;
}

abbrev snow : Themed
snow = record {
  slug = codes "snow";
  name = codes "Snow";
  description = [];
  exclusive = true;
  activation = winter;
  members = member_of (codes "a") ∷ [];
}

abbrev same_text : Text → Text → Bool
same_text a b = a =ₜ b

same_text_refl : (t : Text) → same_text t t ≡ true
same_text_refl t = holds_of (Text-discrete t t) refl

takes_over :
    (select same_text
      (snow ∷ [])
      (item_of (codes "a") ∷ item_of (codes "b") ∷ [])
      new_year).exclusive
    ≡ true
unfolding select contains_func matches Text-discrete ℕ_discrete contains active_at parse_month_day
    lookup exclusive_map insert
takes_over = refl

select_exclusive_example :
    (0
      < length
          (select same_text
            (snow ∷ [])
            (item_of (codes "a") ∷ item_of (codes "b") ∷ [])
            new_year).items)
    × All
        (λ item.
          contains_func
            (is_active same_text (active_slugs (snow ∷ []) new_year))
            (membership same_text (snow ∷ []) item)
          ≡ true)
        (select same_text
          (snow ∷ [])
          (item_of (codes "a") ∷ item_of (codes "b") ∷ [])
          new_year).items
select_exclusive_example =
    select_exclusive same_text (snow ∷ []) (item_of (codes "a") ∷ item_of (codes "b") ∷ []) new_year
      takes_over

add_member-IsAdded_example :
    IsAdded same_text snow
      (member_of (codes "b"))
      (add_member same_text snow (member_of (codes "b")))
add_member-IsAdded_example =
    add_member-IsAdded same_text same_text_refl snow (member_of (codes "b")) refl

remove_member_lem_example :
    IsRemoved same_text snow
      (record { key = codes "a"; origin = []; digest = [] })
      (remove_member same_text snow (record { key = codes "a"; origin = []; digest = [] }))
remove_member_lem_example =
    remove_member_lem same_text snow (record { key = codes "a"; origin = []; digest = [] })

-- The collection with a second member.
abbrev more_snow : Themed
more_snow = record snow { members = snow.members ++ member_of (codes "b") ∷ [] }

remove_member-add_member_example :
    remove_member same_text more_snow (identity_of_member same_text (member_of (codes "b")))
    ≡ (snow, 1)
unfolding add_member contains_func Text-discrete ℕ_discrete
remove_member-add_member_example =
    remove_member-add_member same_text same_text_refl snow (member_of (codes "b")) more_snow refl
      refl refl
