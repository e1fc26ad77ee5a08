-- ===== src/Reconcile/Examples/Migrations.antt =====
-- The theorem on a migration, applied.
use frame_tv_art_manager.Prelude.{
  Text, codes, [], ◌∷◌, ◌≡◌, refl, arith, Text-discrete, ℕ_discrete, trim_space, base, contains,
  text_compare, true,
}
use frame_tv_art_manager.Prelude.Hex.{valid_digest, hex_decode, from_hex, hex_encode, hex_digit}
use frame_tv_art_manager.Prelude.Dict.{Dict, lookup, insert}
use frame_tv_art_manager.Prelude.Sort.{sort_func}
use frame_tv_art_manager.Reconcile.Types.{Binding}
use frame_tv_art_manager.Reconcile.Errors.{ok}
use frame_tv_art_manager.Reconcile.Inputs.{validate_observation}
use frame_tv_art_manager.Reconcile.Validate.{identity_from_observation, is_zero_digest}
use frame_tv_art_manager.Reconcile.Migration.{
  project_legacy_mapping, legacy_mapping_valid, has_slash,
}
use frame_tv_art_manager.Reconcile.Migration.Trusted.{IsTrusted, project_legacy_mapping-IsTrusted}
use frame_tv_art_manager.Reconcile.Examples.{snapshot, observation, hashes, digest_1, digest_3}
use frame_tv_art_manager.Reconcile.Examples.Sendable.{bytes-IsDigest}

-- One piece is in the collection and on the TV, and one is not in the collection.
abbrev mapping : Dict Text
mapping = (codes "a.jpg", codes "MY_1") ∷ (codes "z.jpg", codes "MY_2") ∷ []

abbrev taken_over : Dict Binding
taken_over =
    (
      digest_1,
      record {
        digest = digest_1;
        content_id = codes "MY_1";
        name = codes "a.jpg";
        collection_generation = digest_3;
        confirmed_at = 100;
      },
    )
    ∷ []

mapping-valid : legacy_mapping_valid [] mapping ≡ true
unfolding legacy_mapping_valid has_slash trim_space base contains Text-discrete ℕ_discrete
mapping-valid = refl

projects : project_legacy_mapping hashes snapshot observation mapping 100 ≡ ok (taken_over, 1)
unfolding project_legacy_mapping validate_observation identity_from_observation trim_space contains
    Text-discrete ℕ_discrete text_compare sort_func lookup insert hex_encode hex_digit
    is_zero_digest
projects = refl

generation-valid : valid_digest snapshot.generation ≡ true
unfolding valid_digest hex_decode from_hex Text-discrete ℕ_discrete hex_encode hex_digit
generation-valid = refl

project_legacy_mapping-IsTrusted_example : IsTrusted snapshot observation taken_over
project_legacy_mapping-IsTrusted_example =
    project_legacy_mapping-IsTrusted hashes snapshot observation mapping 100 taken_over 1
      mapping-valid (bytes-IsDigest 17 (omega arith), (bytes-IsDigest 51 (omega arith), tt))
      generation-valid (omega arith) projects
