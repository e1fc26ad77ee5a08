-- ===== src/Reconcile/Migration.antt =====
-- internal/reconcile/migration_service.go: `projectLegacyMapping`, which takes over the bindings of an
-- older version's mapping from file names to content IDs.
pub mod Entries
pub mod Soundness
pub mod Trusted
pub mod FirstRun
use frame_tv_art_manager.Prelude.Hex.{hex_encode}
use frame_tv_art_manager.Samsung.Types.{Observation}
use frame_tv_art_manager.Reconcile.Types.{Hashes, Binding}
use frame_tv_art_manager.Reconcile.Inputs.{validate_observation}
use frame_tv_art_manager.Collection.Types.{Item, Snapshot}
use frame_tv_art_manager.Prelude.Dict.{lookup, insert, Dict}
use frame_tv_art_manager.Reconcile.Errors.{Cause, err, or_plain, ok, Result, ◌>>=◌}
use frame_tv_art_manager.Prelude.{
  ◌=ₜ◌, base, is_trimmed, is_empty, ◌||◌, ◌&&◌, not, ◌==◌, Bool, Text-discrete, contains,
  if◌then◌else◌, Option, List, Text, ℕ, suc, true, false, none, some, [], ◌∷◌,
}

-- The variables of the loop over the mapping, with the keys of its two sets.
pub record Projection : Type 0 where
  pub bindings : Dict Binding
  pub ignored : ℕ
  pub used_digests : List Text
  pub used_content_ids : List Text

abbrev pub no_projection : Projection
no_projection = record { bindings = []; ignored = 0; used_digests = []; used_content_ids = [] }

-- The map of items by name: of two with one name the later stays.
unfoldable pub items_by_name : List Item → Dict Item → Dict Item
items_by_name [] items = items
items_by_name (item ∷ rest) items = items_by_name rest (insert item.name item items)

module _ (items : Dict Item) (inventory : List Text) (generation : Text) (confirmed_at : ℕ) where
  abbrev pub bound : Text → Text → Text → Projection → Projection
  bound name content_id digest p = record {
    bindings =
        insert digest
          (record {
            digest = digest;
            content_id = content_id;
            name = name;
            collection_generation = generation;
            confirmed_at = confirmed_at;
          })
          p.bindings;
    ignored = p.ignored;
    used_digests = digest ∷ p.used_digests;
    used_content_ids = content_id ∷ p.used_content_ids;
  }

  -- An entry for artwork that is in the collection and on the TV.
  unfoldable pub bind_entry : Text → Text → Text → Projection → Result Projection
  bind_entry name content_id digest p =
      if contains Text-discrete p.used_digests digest
      then err (Cause.plain ∷ [])
      else if contains Text-discrete p.used_content_ids content_id
      then err (Cause.plain ∷ [])
      else ok (bound name content_id digest p)

  unfoldable pub project_entry : Text → Text → Option Item → Projection → Result Projection
  unfolding bind_entry
  project_entry name content_id none p = ok (record p { ignored = suc p.ignored })
  project_entry name content_id (some item) p =
      if contains Text-discrete inventory content_id
      then bind_entry name content_id (hex_encode item.digest) p
      else ok (record p { ignored = suc p.ignored })

  -- The loop over the mapping.
  unfoldable pub project_entries : Dict Text → Projection → Result Projection
  unfolding project_entry
  project_entries [] p = ok p
  project_entries ((name, content_id) ∷ rest) p = do
    next ← project_entry name content_id (lookup name items) p
    project_entries rest next

abbrev pub result_of : Projection → Dict Binding × ℕ
result_of p = (p.bindings, p.ignored)

unfoldable pub project_checked : Snapshot → Observation → Dict Text → ℕ → Result Projection
unfolding project_entries items_by_name
project_checked snapshot o mapping confirmed_at =
    project_entries (items_by_name snapshot.items []) o.inventory.content_ids snapshot.generation
      confirmed_at mapping no_projection

-- `projectLegacyMapping`: the bindings, and the count of the entries left out.
unfoldable pub project_legacy_mapping :
    Hashes → Snapshot → Observation → Dict Text → ℕ → Result (Dict Binding × ℕ)
unfolding validate_observation project_checked
project_legacy_mapping h snapshot o mapping confirmed_at = do
  tv ← or_plain (validate_observation h o)
  p ← project_checked snapshot o mapping confirmed_at
  ok (result_of p)

-- `strings.ContainsAny` of a slash or a backslash.
unfoldable pub has_slash : Text → Bool
has_slash [] = false
has_slash (c ∷ rest) = c == b'/' || c == b'\\' || has_slash rest

abbrev pub legacy_name_valid : Text → Bool
legacy_name_valid name =
    not (is_empty name) && is_trimmed name && base name =ₜ name && not (has_slash name)

abbrev pub legacy_content_valid : Text → Bool
legacy_content_valid id = not (is_empty id) && is_trimmed id

-- The loop of `validateLegacyMapping`, with the content IDs that it has seen.
unfoldable pub legacy_mapping_valid : List Text → Dict Text → Bool
unfolding has_slash
legacy_mapping_valid seen [] = true
legacy_mapping_valid seen ((name, content_id) ∷ rest) =
    legacy_name_valid name
    && legacy_content_valid content_id
    && not (contains Text-discrete seen content_id)
    && legacy_mapping_valid (content_id ∷ seen) rest
