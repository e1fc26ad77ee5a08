-- ===== src/Reconcile/Examples/Sendable.antt =====
-- The theorem that a plan's commands are valid, applied.
use frame_tv_art_manager.Prelude.{
  ◌∷◌, ℕ, ◌<◌, arith, trim_space, base, contains, text_compare, All, [], ◌≡◌, refl, Text-discrete,
  ℕ_discrete,
}
use frame_tv_art_manager.Prelude.Int.{ℤ-discrete}
use frame_tv_art_manager.Prelude.Hex.{
  IsDigest, valid_digest, hex_decode, from_hex, hex_encode, hex_digit,
}
use frame_tv_art_manager.Reconcile.Plan.{build_plan, checked_plan, plan_snapshot}
use frame_tv_art_manager.Reconcile.Plan.Built.{IsCollected, build_plan-IsSendable}
use frame_tv_art_manager.Reconcile.Types.{Plan}
use frame_tv_art_manager.Reconcile.Errors.{ok}
use frame_tv_art_manager.Reconcile.Plan.Sendable.{IsSendable}
use frame_tv_art_manager.Reconcile.Validate.{identity_from_observation, state_valid, is_zero_digest}
use frame_tv_art_manager.Reconcile.Inputs.{
  snapshot_valid, validate_observation, fingerprint_policy, normalize_policy, policy_valid,
  values_valid, entries_valid, Overrides-discrete, slideshow_policy_valid,
}
use frame_tv_art_manager.Prelude.Sort.{sort_func}
use frame_tv_art_manager.Samsung.Types.{setting_valid}
use frame_tv_art_manager.Reconcile.Examples.{state, policy, observation, snapshot, repeat, hashes}

pub bytes-IsDigest : (b : ℕ) → b < 256 → IsDigest (repeat 32 b)
bytes-IsDigest b h = record { size = refl; bytewise = ground arith }

pub collected : All IsCollected snapshot.items
unfolding trim_space Text-discrete ℕ_discrete
collected = (
  (bytes-IsDigest 17 (omega arith), refl, refl),
  ((bytes-IsDigest 51 (omega arith), refl, refl), tt),
)

abbrev pub built : Plan
built = checked_plan snapshot observation state policy (8 ∷ [])

builds : build_plan (λ t. t) hashes snapshot observation state policy ≡ ok built
unfolding build_plan snapshot_valid valid_digest hex_decode from_hex Text-discrete ℕ_discrete
    sort_func text_compare contains base is_zero_digest hex_encode hex_digit plan_snapshot
    validate_observation identity_from_observation trim_space state_valid fingerprint_policy
    normalize_policy policy_valid slideshow_policy_valid setting_valid values_valid entries_valid
    Overrides-discrete ℤ-discrete
builds = refl

build_plan-IsSendable_example : All IsSendable built.commands
build_plan-IsSendable_example =
    build_plan-IsSendable (λ t. t) hashes snapshot observation state policy built builds collected
