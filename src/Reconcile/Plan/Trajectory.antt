-- ===== src/Reconcile/Plan/Trajectory.antt =====
-- How many pieces of owned artwork the TV holds while a plan's commands are carried out in order.
use frame_tv_art_manager.Reconcile.Plan.Neutral.{IsNeutral, AreNeutral, rest-AreNeutral}
use frame_tv_art_manager.Prelude.{
  subst, sym, ℕ, suc, ◌+◌, ◌-◌, ◌≤◌, ◌<◌, leb, ◌==◌, false, not, ◌&&◌, ◌≡◌, refl, arith, List, [],
  ◌∷◌, ◌++◌, map, if_cases, Text, length,
}
use frame_tv_art_manager.Prelude.Sort.{sort_func, length-sort_func}
use frame_tv_art_manager.Prelude.Dict.{Dict}
use frame_tv_art_manager.Collection.Types.{Snapshot}
use frame_tv_art_manager.Samsung.Types.{Observation}
use frame_tv_art_manager.Reconcile.Types.{State, Policy, CommandIntent, CommandKind, Binding}
use frame_tv_art_manager.Reconcile.Rotation.{CapacityPlan, WaitingArtwork, RotationSwap}
use frame_tv_art_manager.Reconcile.Rotation.Bounds.{plan_capacity-HasReserve}
use frame_tv_art_manager.Reconcile.Planner.{
  delete_obsolete, delete_owned_intent, upload_intent, swap_intents, obsolete_order,
}
use frame_tv_art_manager.Reconcile.Plan.{
  plan_commands, classified, admission, capacity_input, obsolete_deletions, desired,
}
use frame_tv_art_manager.Reconcile.Plan.Classify.{length-classify}

-- The number of owned pieces after a command.
unfoldable pub count_as : CommandKind → ℕ → ℕ
count_as CommandKind.upload n = suc n
count_as CommandKind.delete_owned n = n - 1
count_as _ n = n

unfoldable pub count_after : ℕ → List CommandIntent → ℕ
unfolding count_as
count_after n [] = n
count_after n (c ∷ cs) = count_after (count_as c.kind n) cs

-- The deletion of an owned piece leaves another.
abbrev pub LeavesOne : CommandKind → ℕ → Type 0
LeavesOne CommandKind.delete_owned n = 2 ≤ n
LeavesOne _ n = Unit

abbrev pub KeepsOne : ℕ → List CommandIntent → Type 0
KeepsOne n [] = Unit
KeepsOne n (c ∷ cs) = LeavesOne c.kind n × KeepsOne (count_as c.kind n) cs

KeepsOne-append :
    (n : ℕ) (xs ys : List CommandIntent)
    → KeepsOne n xs
    → KeepsOne (count_after n xs) ys
    → KeepsOne n (xs ++ ys)
unfolding count_after
KeepsOne-append n [] ys h i = i
KeepsOne-append n (c ∷ xs) ys h i = (h.0, KeepsOne-append (count_as c.kind n) xs ys h.1 i)

IsNeutral_lem : (k : CommandKind) (n : ℕ) → IsNeutral k → LeavesOne k n × (count_as k n ≡ n)
unfolding count_as
IsNeutral_lem CommandKind.upload n i = absurd i
IsNeutral_lem CommandKind.delete_owned n i = absurd i
IsNeutral_lem CommandKind.delete_unknown n i = (tt, refl)
IsNeutral_lem CommandKind.select n i = (tt, refl)
IsNeutral_lem CommandKind.slideshow n i = (tt, refl)
IsNeutral_lem CommandKind.brightness n i = (tt, refl)
IsNeutral_lem CommandKind.power_off n i = (tt, refl)
IsNeutral_lem CommandKind.wake n i = (tt, refl)
IsNeutral_lem (CommandKind.unknown_kind t) n i = (tt, refl)

AreNeutral-KeepsOne : (n : ℕ) (cs : List CommandIntent) → AreNeutral cs → KeepsOne n cs
AreNeutral-KeepsOne n [] h = tt
AreNeutral-KeepsOne n (c ∷ cs) h = (
  (IsNeutral_lem c.kind n h.0).0,
  subst (λ m. KeepsOne m cs) (sym (IsNeutral_lem c.kind n h.0).1) (AreNeutral-KeepsOne n cs h.1),
)

-- The deletions of obsolete artwork keep one piece, and as many as are wanted.
abbrev KeepsWanted : ℕ → ℕ → List CommandIntent → Type 0
KeepsWanted bound n cs = KeepsOne n cs × (bound ≤ count_after n cs)

delete_obsolete-KeepsWanted :
    (bound n : ℕ) (obsolete : List Binding)
    → bound + length obsolete ≤ n
    → KeepsWanted bound n (delete_obsolete false bound n obsolete)
unfolding delete_obsolete count_after count_as
delete_obsolete-KeepsWanted bound n [] h = (tt, omega arith)
delete_obsolete-KeepsWanted bound n (b ∷ rest) h =
    let r : KeepsWanted bound (n - 1) (delete_obsolete false bound (n - 1) rest) =
      delete_obsolete-KeepsWanted bound (n - 1) rest (omega arith) in
    if_cases (KeepsWanted bound n) (not false && bound == 0 && leb n 1)
      (delete_obsolete false bound n rest)
      (delete_owned_intent b ∷ delete_obsolete false bound (n - 1) rest)
      (λ _. delete_obsolete-KeepsWanted bound n rest (omega arith))
      (λ e. ((ground arith, r.0), r.1))

fills-KeepsWanted :
    (policy : Policy) (overrides : Dict Text) (bound n : ℕ) (ws : List WaitingArtwork)
    → bound ≤ n
    → KeepsWanted bound n (map (upload_intent policy overrides) ws)
unfolding upload_intent count_after count_as
fills-KeepsWanted policy overrides bound n [] h = (tt, h)
fills-KeepsWanted policy overrides bound n (w ∷ ws) h =
    let r : KeepsWanted bound (suc n) (map (upload_intent policy overrides) ws) =
      fills-KeepsWanted policy overrides bound (suc n) ws (omega arith) in
    ((tt, r.0), r.1)

swaps-KeepsWanted :
    (policy : Policy) (overrides : Dict Text) (bound n : ℕ) (swaps : List RotationSwap)
    → bound ≤ n
    → (0 < length swaps → 2 ≤ n)
    → KeepsWanted bound n (swap_intents policy overrides swaps)
unfolding swap_intents upload_intent count_after count_as
swaps-KeepsWanted policy overrides bound n [] h two = (tt, h)
swaps-KeepsWanted policy overrides bound n (s ∷ swaps) h two =
    let enough : 2 ≤ n = two (omega arith) in
    let r : KeepsWanted bound (suc (n - 1)) (swap_intents policy overrides swaps) =
      swaps-KeepsWanted policy overrides bound (suc (n - 1)) swaps (omega arith)
        (λ _. omega arith) in
    ((enough, (tt, r.0)), r.1)

-- The owned artwork on the TV, wanted or not.
abbrev pub owned_on_tv : Snapshot → Observation → State → Policy → ℕ
owned_on_tv snapshot o s policy =
    length (classified snapshot o s policy).owned + length (classified snapshot o s policy).obsolete

-- Unless an empty TV is allowed, a plan deletes owned artwork only while another owned piece is on
-- the TV: carried out in order, none of its deletions takes the last one.
pub plan_commands-KeepsOne :
    (snapshot : Snapshot) (o : Observation) (s : State) (policy : Policy) (overrides : Dict Text)
    → policy.allow_empty ≡ false
    → KeepsOne (owned_on_tv snapshot o s policy) (plan_commands snapshot o s policy overrides)
unfolding plan_commands
plan_commands-KeepsOne snapshot o s policy overrides strict =
    KeepsOne-append n (obsolete_deletions snapshot o s policy) _ deletions.0 (
      KeepsOne-append n₁ (map (upload_intent policy overrides) p.fills) _ fills.0 (
        KeepsOne-append n₂ (swap_intents policy overrides p.swaps) _ swaps.0
          (AreNeutral-KeepsOne _ _ (rest-AreNeutral snapshot o s policy))))
  where
    p : CapacityPlan
    p = admission snapshot o s policy

    bound : ℕ
    bound = length (classified snapshot o s policy).owned

    n : ℕ
    n = owned_on_tv snapshot o s policy

    bindings-eq : length s.bindings - length (classified snapshot o s policy).prune ≡ n
    bindings-eq =
        omega
          (arith, length-classify o.inventory.content_ids (desired snapshot o s policy) s.bindings)

    deletions : KeepsWanted bound n (obsolete_deletions snapshot o s policy)
    deletions =
        rw (strict, bindings-eq)
          (delete_obsolete-KeepsWanted bound n
            (sort_func obsolete_order (classified snapshot o s policy).obsolete)
            (omega
              (arith, length-sort_func obsolete_order (classified snapshot o s policy).obsolete)))

    n₁ : ℕ
    n₁ = count_after n (obsolete_deletions snapshot o s policy)

    fills : KeepsWanted bound n₁ (map (upload_intent policy overrides) p.fills)
    fills = fills-KeepsWanted policy overrides bound n₁ p.fills deletions.1

    n₂ : ℕ
    n₂ = count_after n₁ (map (upload_intent policy overrides) p.fills)

    reserve : 0 < length p.swaps → 2 ≤ bound
    reserve h = ground (arith, plan_capacity-HasReserve (capacity_input snapshot o s policy) h)

    swaps : KeepsWanted bound n₂ (swap_intents policy overrides p.swaps)
    swaps =
        swaps-KeepsWanted policy overrides bound n₂ p.swaps fills.1
          (λ h. omega (arith, reserve h, fills.1))
