-- ===== src/Reconcile/Migration/Entries.antt =====
-- What the mapping and the collection bring to `projectLegacyMapping`.
use frame_tv_art_manager.Prelude.Hex.{IsDigest}
use frame_tv_art_manager.Prelude.Dict.{insert-Entries, insert, Entries, Dict}
use frame_tv_art_manager.Collection.Types.{Item}
use frame_tv_art_manager.Reconcile.Migration.{
  legacy_content_valid, items_by_name, legacy_mapping_valid, legacy_name_valid,
}
use frame_tv_art_manager.Prelude.{
  trim_space, holds-true, subst, is_blank, is_trimmed, ◌==◌, is_empty, Text-discrete, ◌<◌, not,
  and_parts, contains, All, List, ◌≡◌, Text, ℕ, true, [], ◌∷◌, refl, arith,
}

-- An entry of the mapping that `validateLegacyMapping` accepts.
abbrev pub IsEntry : Text → Text → Type 0
IsEntry name id = (legacy_name_valid name ≡ true) × (legacy_content_valid id ≡ true)

pub mapping-IsEntry :
    (seen : List Text) (mapping : Dict Text)
    → legacy_mapping_valid seen mapping ≡ true
    → Entries IsEntry mapping
unfolding legacy_mapping_valid
mapping-IsEntry seen [] v = tt
mapping-IsEntry seen ((name, id) ∷ rest) v =
    let most = and_parts _ (legacy_mapping_valid (id ∷ seen) rest) v in
    let both = and_parts _ (not (contains Text-discrete seen id)) most.0 in
    (
      and_parts (legacy_name_valid name) (legacy_content_valid id) both.0,
      mapping-IsEntry (id ∷ seen) rest most.1,
    )

-- The map of items has items of the collection only, each under its name.
abbrev pub IsNamed : Text → Item → Type 0
IsNamed name item = IsDigest item.digest × (item.name ≡ name)

pub items-IsNamed :
    (list : List Item) (items : Dict Item)
    → All (λ (i : Item). IsDigest i.digest) list
    → Entries IsNamed items
    → Entries IsNamed (items_by_name list items)
unfolding items_by_name
items-IsNamed [] items c h = h
items-IsNamed (item ∷ rest) items c h =
    items-IsNamed rest (insert item.name item items) c.1
      (insert-Entries IsNamed item.name item items (c.0, refl) h)

pub not_blank : (s : Text) → not (is_empty s) ≡ true → is_trimmed s ≡ true → not (is_blank s) ≡ true
not_blank s e t =
    subst (λ (x : Text). not (is_empty x) ≡ true) (holds-true (Text-discrete s (trim_space s)) t) e

pub positive : (n : ℕ) → 0 < n → not (n == 0) ≡ true
positive n p = ground arith
