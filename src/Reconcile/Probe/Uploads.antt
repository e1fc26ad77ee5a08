-- ===== src/Reconcile/Probe/Uploads.antt =====
-- While the capacity is probed, a plan sends at most one piece of artwork.
use frame_tv_art_manager.Prelude.{
  ℕ, ◌+◌, ◌-◌, ◌≤◌, ◌≡◌, ◌==◌, ◌&&◌, not, leb, Bool, if_cases, refl, arith, List, [], ◌∷◌, ◌++◌,
  map, length, Text,
}
use frame_tv_art_manager.Prelude.Dict.{Dict}
use frame_tv_art_manager.Collection.Types.{Snapshot}
use frame_tv_art_manager.Samsung.Types.{Observation}
use frame_tv_art_manager.Reconcile.Types.{State, Policy, CommandIntent, CommandKind, Binding}
use frame_tv_art_manager.Reconcile.Rotation.{CapacityPlan, WaitingArtwork, RotationSwap}
use frame_tv_art_manager.Reconcile.Rotation.Bounds.{plan_capacity-HasReserve, plan_capacity_fits}
use frame_tv_art_manager.Reconcile.Planner.{
  delete_obsolete, delete_owned_intent, upload_intent, swap_intents,
}
use frame_tv_art_manager.Reconcile.Plan.{
  plan_commands, admission, capacity_input, obsolete_deletions,
}
use frame_tv_art_manager.Reconcile.Plan.Neutral.{
  AreNeutral, IsNeutral, rest-AreNeutral, settings_and_rest,
}
use frame_tv_art_manager.Reconcile.Probe.{project_capacity_probe}

-- 1 for an upload.
unfoldable pub upload_weight : CommandKind → ℕ
upload_weight CommandKind.upload = 1
upload_weight _ = 0

unfoldable pub upload_count : List CommandIntent → ℕ
unfolding upload_weight
upload_count [] = 0
upload_count (c ∷ cs) = upload_weight c.kind + upload_count cs

upload_count-append :
    (xs ys : List CommandIntent) → upload_count (xs ++ ys) ≡ upload_count xs + upload_count ys
unfolding upload_count
upload_count-append [] ys = omega arith
upload_count-append (c ∷ xs) ys = omega (arith, upload_count-append xs ys)

weight-IsNeutral : (k : CommandKind) → IsNeutral k → upload_weight k ≡ 0
unfolding upload_weight
weight-IsNeutral CommandKind.upload i = absurd i
weight-IsNeutral CommandKind.delete_owned i = absurd i
weight-IsNeutral CommandKind.delete_unknown i = refl
weight-IsNeutral CommandKind.select i = refl
weight-IsNeutral CommandKind.slideshow i = refl
weight-IsNeutral CommandKind.brightness i = refl
weight-IsNeutral CommandKind.power_off i = refl
weight-IsNeutral CommandKind.wake i = refl
weight-IsNeutral (CommandKind.unknown_kind t) i = refl

upload_count-AreNeutral : (cs : List CommandIntent) → AreNeutral cs → upload_count cs ≡ 0
unfolding upload_count
upload_count-AreNeutral [] h = refl
upload_count-AreNeutral (c ∷ cs) h =
    omega (arith, weight-IsNeutral c.kind h.0, upload_count-AreNeutral cs h.1)

upload_count-delete_obsolete :
    (allow : Bool) (bound n : ℕ) (bs : List Binding)
    → upload_count (delete_obsolete allow bound n bs) ≡ 0
unfolding delete_obsolete upload_count upload_weight
upload_count-delete_obsolete allow bound n [] = refl
upload_count-delete_obsolete allow bound n (b ∷ bs) =
    if_cases (λ cs. upload_count cs ≡ 0) (not allow && bound == 0 && leb n 1)
      (delete_obsolete allow bound n bs)
      (delete_owned_intent b ∷ delete_obsolete allow bound (n - 1) bs)
      (λ _. upload_count-delete_obsolete allow bound n bs)
      (λ _. omega (arith, upload_count-delete_obsolete allow bound (n - 1) bs))

upload_count-fills :
    (policy : Policy) (overrides : Dict Text) (ws : List WaitingArtwork)
    → upload_count (map (upload_intent policy overrides) ws) ≡ length ws
unfolding upload_count upload_weight upload_intent
upload_count-fills policy overrides [] = refl
upload_count-fills policy overrides (w ∷ ws) = omega (arith, upload_count-fills policy overrides ws)

no_swaps :
    (policy : Policy) (overrides : Dict Text) (swaps : List RotationSwap)
    → length swaps ≡ 0
    → upload_count (swap_intents policy overrides swaps) ≡ 0
unfolding upload_count swap_intents
no_swaps policy overrides [] e = refl
no_swaps policy overrides (s ∷ swaps) e = absurd (omega arith)

module _ (snapshot : Snapshot) (o : Observation) (s : State) (policy : Policy) (at : ℕ) where
  abbrev probed : CapacityPlan
  probed = admission snapshot o (project_capacity_probe s o at) policy

  swapless : length probed.swaps ≡ 0
  unfolding project_capacity_probe
  swapless = ground (
    arith,
    plan_capacity-HasReserve (capacity_input snapshot o (project_capacity_probe s o at) policy),
  )

  one_fill : length probed.fills ≤ 1
  unfolding project_capacity_probe
  one_fill = ground (
    arith,
    plan_capacity_fits (capacity_input snapshot o (project_capacity_probe s o at) policy) refl,
  )

nil_of_length : (swaps : List RotationSwap) → length swaps ≡ 0 → swaps ≡ []
nil_of_length [] e = refl
nil_of_length (s ∷ swaps) e = absurd (omega arith)

-- A probe never risks more than one upload: whatever waits, a plan for a state that probes the
-- capacity uploads at most one piece, and swaps none.
pub probe_uploads-le :
    (snapshot : Snapshot) (o : Observation) (s : State) (policy : Policy) (overrides : Dict Text)
    (at : ℕ)
    → (upload_count (plan_commands snapshot o (project_capacity_probe s o at) policy overrides) ≤ 1)
      × ((admission snapshot o (project_capacity_probe s o at) policy).swaps ≡ [])
unfolding plan_commands
probe_uploads-le snapshot o s policy overrides at = (
  omega (
    arith,
    upload_count-append (obsolete_deletions snapshot o q policy) _,
    upload_count-append (map (upload_intent policy overrides) p.fills) _,
    upload_count-append (swap_intents policy overrides p.swaps)
        (settings_and_rest snapshot o q policy),
    upload_count-delete_obsolete _ _ _ _,
    upload_count-fills policy overrides p.fills,
    no_swaps policy overrides p.swaps (swapless snapshot o s policy at),
    upload_count-AreNeutral (settings_and_rest snapshot o q policy)
        (rest-AreNeutral snapshot o q policy),
    one_fill snapshot o s policy at,
  ),
  nil_of_length p.swaps (swapless snapshot o s policy at),
)
  where
    q : State
    q = project_capacity_probe s o at

    p : CapacityPlan
    p = admission snapshot o q policy
