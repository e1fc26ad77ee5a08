-- ===== src/Reconcile/Migration/Trusted.antt =====
-- What `projectLegacyMapping` binds.
use frame_tv_art_manager.Reconcile.Migration.Entries.{mapping-IsEntry, items-IsNamed}
use frame_tv_art_manager.Reconcile.Inputs.{validate_observation}
use frame_tv_art_manager.Samsung.Types.{Observation}
use frame_tv_art_manager.Reconcile.Validate.Maps.{bindings_valid_of_Entries}
use frame_tv_art_manager.Reconcile.Validate.{bindings_valid}
use frame_tv_art_manager.Reconcile.Types.{TvIdentity, Hashes, Binding}
use frame_tv_art_manager.Prelude.Hex.{valid_digest, IsDigest}
use frame_tv_art_manager.Prelude.Dict.{HasUniqueKeys, Entries, Dict}
use frame_tv_art_manager.Collection.Types.{Snapshot, Item}
use frame_tv_art_manager.Reconcile.Migration.{
  result_of, no_projection, project_checked, project_legacy_mapping, Projection, items_by_name,
  legacy_mapping_valid,
}
use frame_tv_art_manager.Prelude.{subst, Option, ◌<◌, All, ◌≡◌, Text, ℕ, true, none, some, []}
use frame_tv_art_manager.Reconcile.Errors.{or_plain, err-ne-ok, ok, err, Result, ◌>>=◌}
use frame_tv_art_manager.Reconcile.Migration.Soundness.{IsProven, Sound, entries-Sound}

-- What a migration may take over.
pub record IsTrusted (snapshot : Snapshot) (o : Observation) (bindings : Dict Binding)
    : Type 0 where
  pub proven : Entries (IsProven (items_by_name snapshot.items []) o.inventory.content_ids) bindings
  pub valid : bindings_valid [] bindings ≡ true
  pub unique : HasUniqueKeys bindings

-- Where projectLegacyMapping returns bindings, of a mapping that `validateLegacyMapping` accepts and a
-- snapshot with digests of 32 bytes and a valid generation, at a time that is not zero: it has bound
-- only artwork of the collection to content IDs that the TV has, each digest and each content ID
-- once, and the bindings pass the checks of `validateState`.
pub project_legacy_mapping-IsTrusted :
    (h : Hashes) (snapshot : Snapshot) (o : Observation) (mapping : Dict Text) (confirmed_at : ℕ)
    (bindings : Dict Binding) (ignored : ℕ)
    → legacy_mapping_valid [] mapping ≡ true
    → All (λ (i : Item). IsDigest i.digest) snapshot.items
    → valid_digest snapshot.generation ≡ true
    → 0 < confirmed_at
    → project_legacy_mapping h snapshot o mapping confirmed_at ≡ ok (bindings, ignored)
    → IsTrusted snapshot o bindings
unfolding project_legacy_mapping project_checked
project_legacy_mapping-IsTrusted h snapshot o mapping confirmed_at bindings ignored m d g c p =
    observed (validate_observation h o) p
  where
    sound :
        Sound
          (items_by_name snapshot.items [])
          o.inventory.content_ids
          snapshot.generation
          confirmed_at
          (project_checked snapshot o mapping confirmed_at)
    sound =
        entries-Sound _ _ _ _ mapping no_projection
          (record { proven = tt; valid = tt; unique = tt; distinct = tt; used = tt })
          (items-IsNamed snapshot.items [] d tt) (mapping-IsEntry [] mapping m) g c

    projected :
        (r : Result Projection)
        → Sound
            (items_by_name snapshot.items [])
            o.inventory.content_ids
            snapshot.generation
            confirmed_at
            r
        → (r >>= λ q. ok (result_of q)) ≡ ok (bindings, ignored)
        → IsTrusted snapshot o bindings
    projected (err e) s q = absurd (err-ne-ok _ _ q)
    projected (ok r) s q =
        let same : r.bindings ≡ bindings = cc in
        subst (IsTrusted snapshot o) same (record {
          proven = s.proven;
          valid = bindings_valid_of_Entries r.bindings s.valid s.distinct;
          unique = s.unique;
        })

    observed :
        (tv : Option TvIdentity)
        → (or_plain tv >>= λ t.
            project_checked snapshot o mapping confirmed_at >>= λ q. ok (result_of q))
          ≡ ok (bindings, ignored)
        → IsTrusted snapshot o bindings
    observed none q = absurd (err-ne-ok _ _ q)
    observed (some tv) q = projected (project_checked snapshot o mapping confirmed_at) sound q
