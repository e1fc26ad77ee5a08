-- ===== src/Sync/Examples.antt =====
-- The theorem on the limit, applied: of two pieces the limit leaves the first by name.
use frame_tv_art_manager.Prelude.{true, ◌≡◌, refl, Text-discrete, ℕ_discrete}
use frame_tv_art_manager.Prelude.Int.{pos}
use frame_tv_art_manager.Prelude.Hex.{valid_digest, hex_decode, from_hex}
use frame_tv_art_manager.Reconcile.Inputs.{snapshot_valid}
use frame_tv_art_manager.Reconcile.Examples.{snapshot, hashes, digest_3}
use frame_tv_art_manager.Reconcile.Examples.Cycles.{valid}
use frame_tv_art_manager.Sync.Limit.{limit_snapshot, IsLimited, limit_snapshot_lem}

digest-valid : valid_digest digest_3 ≡ true
unfolding valid_digest hex_decode from_hex Text-discrete ℕ_discrete
digest-valid = refl

limit_snapshot_lem_example :
    IsLimited snapshot (pos 1) (limit_snapshot hashes snapshot (pos 1))
    × (snapshot_valid hashes (limit_snapshot hashes snapshot (pos 1)).0 ≡ true)
limit_snapshot_lem_example =
    limit_snapshot_lem hashes snapshot (pos 1) (λ items. digest-valid) valid
