-- ===== src/Reconcile/Examples/Plans.antt =====
-- The theorems on plans, capacity, rotation and settings, applied.
use mathlib.Core.List.Permᴰ
use frame_tv_art_manager.Reconcile.Probe.{project_capacity_probe}
use frame_tv_art_manager.Reconcile.Probe.Uploads.{upload_count, probe_uploads-le}
use frame_tv_art_manager.Prelude.{
  ◌≢◌, ap, count_while, Text-discrete, ℕ_discrete, ℕ, ◌≤◌, ◌<◌, Text, codes, true, false, [], ◌∷◌,
  All, ◌≡◌, refl, ◌⊎◌, ◌↔◌, arith, length, ◌+◌, Permᴰ,
}
use frame_tv_art_manager.Prelude.Hex.{valid_digest, IsDigestText, valid_digest-IsDigestText}
use frame_tv_art_manager.Prelude.Int.{add_duration, pos, ◌≤ℤ◌}
use frame_tv_art_manager.Prelude.Dict.{lookup}
use frame_tv_art_manager.Prelude.Sort.{sort_func}
use frame_tv_art_manager.Reconcile.Rotation.{
  WaitingArtwork, CapacityInput, plan_capacity, rotation_active, next_rotation,
}
use frame_tv_art_manager.Reconcile.Rotation.Admission.{Distribution, plan_capacity-Distribution}
use frame_tv_art_manager.Reconcile.Rotation.Bounds.{
  plan_capacity_fits, HasReserve, IsFull, plan_capacity-HasReserve, plan_capacity_limited,
}
use frame_tv_art_manager.Reconcile.Rotation.Next.{next_rotation_lem, NoSwapAt}
use frame_tv_art_manager.Reconcile.Rotation.Determinism.{plan_capacity-eq_of_perm}
use frame_tv_art_manager.Reconcile.Planner.{desired_brightness}
use frame_tv_art_manager.Reconcile.Plan.{plan_commands, admission}
use frame_tv_art_manager.Reconcile.Plan.Ownership.{IsAllowed}
use frame_tv_art_manager.Reconcile.Plan.Allowed.{IsKeyed, plan_commands-IsAllowed}
use frame_tv_art_manager.Reconcile.Plan.Trajectory.{KeepsOne, owned_on_tv, plan_commands-KeepsOne}
use frame_tv_art_manager.Reconcile.Plan.Settings.{desired_brightness-InRange}
use frame_tv_art_manager.Reconcile.Examples.{
  state, policy, observation, snapshot, binding_1, binding_2, digest_1, digest_2, digest_3, item_of,
  brightness,
}

keyed : IsKeyed state.bindings
unfolding lookup Text-discrete ℕ_discrete
keyed = ((refl, (refl, tt)), (refl, (refl, tt)))

plan_commands-IsAllowed_example :
    All
      (IsAllowed snapshot observation state policy)
      (plan_commands snapshot observation state policy [])
plan_commands-IsAllowed_example = plan_commands-IsAllowed snapshot observation state policy [] keyed

plan_commands-KeepsOne_example :
    KeepsOne
      (owned_on_tv snapshot observation state policy)
      (plan_commands snapshot observation state policy [])
plan_commands-KeepsOne_example = plan_commands-KeepsOne snapshot observation state policy [] refl

abbrev waiting_of : Text → ℕ → ℕ → WaitingArtwork
waiting_of digest b shown = record { item = item_of digest b; digest = digest; last_shown = shown }

-- A full TV with two owned pieces, and two pieces waiting, at a time when a swap is due.
abbrev rotating : CapacityInput
rotating = record {
  waiting = waiting_of digest_3 51 12 ∷ waiting_of (codes "4") 68 0 ∷ [];
  owned = binding_2 ∷ binding_1 ∷ [];
  state = state;
  inventory = 2;
  policy = policy;
  now = 16;
}

plan_capacity-Distribution_example : Distribution rotating (plan_capacity rotating)
plan_capacity-Distribution_example = plan_capacity-Distribution rotating

plan_capacity_fits_example :
    (length (plan_capacity rotating).fills ≡ 0)
    ⊎ (pos (2 + length (plan_capacity rotating).fills) ≤ℤ pos 2)
plan_capacity_fits_example = plan_capacity_fits rotating refl

-- A swap is planned.
swaps_now : 0 < length (plan_capacity rotating).swaps
unfolding plan_capacity sort_func count_while add_duration
swaps_now = omega arith

plan_capacity-HasReserve_example : HasReserve rotating × IsFull rotating (plan_capacity rotating)
plan_capacity-HasReserve_example = plan_capacity-HasReserve rotating swaps_now

plan_capacity_limited_example : ((plan_capacity rotating).limited ≡ true) ↔ (
    (rotating.state.capacity.known ≡ true)
    × (rotation_active rotating ≡ false)
    × (length (plan_capacity rotating).fills < length rotating.waiting))
plan_capacity_limited_example = plan_capacity_limited rotating

abbrev first : Text → ℕ
first [] = 0
first (c ∷ t) = c

digests_differ : digest_3 ≢ codes "4"
digests_differ e = omega (arith, ap first e)

bindings_differ : digest_2 ≢ digest_1
bindings_differ e = omega (arith, ap first e)

plan_capacity-eq_of_perm_example :
    plan_capacity rotating
    ≡ plan_capacity (record rotating {
      waiting = waiting_of (codes "4") 68 0 ∷ waiting_of digest_3 51 12 ∷ [];
      owned = binding_2 ∷ binding_1 ∷ [];
    })
plan_capacity-eq_of_perm_example =
    plan_capacity-eq_of_perm rotating (waiting_of (codes "4") 68 0 ∷ waiting_of digest_3 51 12 ∷ [])
      (binding_2 ∷ binding_1 ∷ []) (Permᴰ.swap refl refl) (Permᴰ.refl _)
      ((digests_differ, tt), (tt, tt)) ((bindings_differ, tt), (tt, tt))

-- One piece on the TV since 10 and one waiting since 12, with an interval of 5 ns: 17 is the time.
due_later :
    (next_rotation (binding_1 ∷ []) (waiting_of digest_3 51 12 ∷ []) false (pos 5) 14 ≡ 0)
    ⊎ (16 < next_rotation (binding_1 ∷ []) (waiting_of digest_3 51 12 ∷ []) false (pos 5) 14)
unfolding next_rotation add_duration
due_later = ground arith

next_rotation_lem_example :
    ((next_rotation (binding_1 ∷ []) (waiting_of digest_3 51 12 ∷ []) false (pos 5) 14 ≡ 0)
      ⊎ (14 ≤ next_rotation (binding_1 ∷ []) (waiting_of digest_3 51 12 ∷ []) false (pos 5) 14))
    × NoSwapAt (binding_1 ∷ []) (waiting_of digest_3 51 12 ∷ []) false (pos 5) 14 16
next_rotation_lem_example =
    next_rotation_lem (binding_1 ∷ []) (waiting_of digest_3 51 12 ∷ []) false (pos 5) 14 16 (tt, tt)
      (tt, tt) refl (omega arith) (omega arith) due_later

desired_brightness-InRange_example :
    (brightness.min ≤ℤ desired_brightness policy.brightness brightness)
    × (desired_brightness policy.brightness brightness ≤ℤ brightness.max)
    × ((desired_brightness policy.brightness brightness ≡ policy.brightness.value)
        ⊎ ((policy.brightness.value ≤ℤ brightness.min)
            × (desired_brightness policy.brightness brightness ≡ brightness.min))
        ⊎ ((brightness.max ≤ℤ policy.brightness.value)
            × (desired_brightness policy.brightness brightness ≡ brightness.max)))
desired_brightness-InRange_example = desired_brightness-InRange policy.brightness brightness refl

probe_uploads-le_example :
    (upload_count
        (plan_commands snapshot observation (project_capacity_probe state observation 90) policy [])
      ≤ 1)
    × ((admission snapshot observation (project_capacity_probe state observation 90) policy).swaps
        ≡ [])
probe_uploads-le_example = probe_uploads-le snapshot observation state policy [] 90

valid_digest-IsDigestText_example : (valid_digest digest_3 ≡ true) ↔ IsDigestText digest_3
valid_digest-IsDigestText_example = valid_digest-IsDigestText digest_3
