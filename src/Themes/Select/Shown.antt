-- ===== src/Themes/Select/Shown.antt =====
-- What is shown: something always is, if anything is there to be shown.
use frame_tv_art_manager.Prelude.{
  All-imp, and_parts, if_cases, ◌<◌, Text, Bool, true, List, [], ◌∷◌, length, contains_func, All,
  ◌≡◌, arith,
}
use frame_tv_art_manager.Prelude.Dict.{Dict}
use frame_tv_art_manager.Collection.Types.{Item}
use frame_tv_art_manager.Themes.Types.{Themed}
use frame_tv_art_manager.Themes.Select.{
  exclusive_map, active_slugs, MonthDay, select, select_items, shows, claims, membership, is_active,
}

contains_func-imp {ℓ} :
    {A : Type ℓ} (p q : A → Bool) (xs : List A)
    → ((x : A) → p x ≡ true → q x ≡ true)
    → contains_func p xs ≡ true
    → contains_func q xs ≡ true
unfolding contains_func
contains_func-imp p q [] f h = h
contains_func-imp p q (x ∷ xs) f h = ground (arith, f x, contains_func-imp p q xs f)

module _ (equal_fold : Text → Text → Bool) where
  claims-shows :
      (cs : List Themed) (active : List Text) (m : Dict Bool) (exclusive : Bool) (item : Item)
      → claims equal_fold cs active m item ≡ true
      → shows equal_fold cs active exclusive item ≡ true
  unfolding claims shows
  claims-shows cs active m exclusive item h = ground (
    arith,
    contains_func-imp _ (is_active equal_fold active) (membership equal_fold cs item)
        (λ slug e. (and_parts _ _ e).0) h,
  )

  some-selected :
      (p : Item → Bool) (items : List Item)
      → contains_func p items ≡ true
      → 0 < length (select_items equal_fold p items)
  unfolding contains_func select_items
  some-selected p [] h = absurd (ground arith)
  some-selected p (item ∷ items) h = ground (arith, some-selected p items)

  -- What is shown is what the test lets through.
  All-selected :
      (p : Item → Bool) (items : List Item)
      → All (λ i. p i ≡ true) (select_items equal_fold p items)
  unfolding select_items
  All-selected p [] = tt
  All-selected p (item ∷ items) =
      if_cases (All (λ i. p i ≡ true)) (p item) (item ∷ select_items equal_fold p items)
        (select_items equal_fold p items) (λ h. (h, All-selected p items))
        (λ h. All-selected p items)

  shown-active :
      (cs : List Themed) (active : List Text) (item : Item)
      → shows equal_fold cs active true item ≡ true
      → contains_func (is_active equal_fold active) (membership equal_fold cs item) ≡ true
  unfolding shows
  shown-active cs active item h = ground arith

-- When the artwork of an active exclusive collection takes over, the selection is not empty, and
-- each piece in it belongs to a collection that is active on the day.
pub select_exclusive :
    (equal_fold : Text → Text → Bool) (cs : List Themed) (items : List Item) (today : MonthDay)
    → (select equal_fold cs items today).exclusive ≡ true
    → (0 < length (select equal_fold cs items today).items)
      × All
          (λ item.
            contains_func
              (is_active equal_fold (active_slugs cs today))
              (membership equal_fold cs item)
            ≡ true)
          (select equal_fold cs items today).items
unfolding select
select_exclusive equal_fold cs items today e = rw e (
  some-selected equal_fold (shows equal_fold cs (active_slugs cs today) true) items (
      contains_func-imp _ _ items
        (claims-shows equal_fold cs (active_slugs cs today) (exclusive_map [] cs) true) e),
  All-imp _ _ (shown-active equal_fold cs (active_slugs cs today)) _
      (All-selected equal_fold (shows equal_fold cs (active_slugs cs today) true) items),
)
