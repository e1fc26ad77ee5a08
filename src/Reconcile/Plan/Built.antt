-- ===== src/Reconcile/Plan/Built.antt =====
-- What a plan's commands owe to the checks of its inputs.
use frame_tv_art_manager.Prelude.{
  is_blank, All, ◌≡◌, true, false, arith, [], ◌∷◌, List, Text, is_empty, Bool-cases, Option-cases,
  inl, inr, some, none, ℕ, subst, sym, All-and, All-imp, is_abs,
}
use frame_tv_art_manager.Prelude.Dict.{Dict, Entries, insert, insert-Entries}
use frame_tv_art_manager.Reconcile.Types.{Policy, MatteOverride, State, Plan, TvIdentity, Hashes}
use frame_tv_art_manager.Reconcile.Inputs.{
  override_valid, overrides_valid, new_matte_overrides, entries_valid, index_from, override_index,
  policy_valid, normalize_policy, slideshow_policy_valid, fingerprint_policy, snapshot_valid,
  validate_observation, inventory_valid, content_ids_valid, items_valid, item_valid, by_name,
}
use frame_tv_art_manager.Prelude.Hex.{hex_encode, IsDigest}
use frame_tv_art_manager.Collection.Types.{Item, Snapshot}
use frame_tv_art_manager.Samsung.Types.{Observation}
use frame_tv_art_manager.Reconcile.Errors.{ok}
use frame_tv_art_manager.Reconcile.Validate.{state_valid}
use frame_tv_art_manager.Reconcile.Plan.{build_plan, plan_snapshot, checked_plan, plan_commands}
use frame_tv_art_manager.Reconcile.Recovery.Validity.{state_valid-Checked}
use frame_tv_art_manager.Prelude.Sort.{sort_func, sort_func-perm, All-perm}
use frame_tv_art_manager.Reconcile.Plan.Sendable.{
  IsSendable, IsPublished, plan_commands-IsSendable, IsMatte, HasMattes, blank_of_trimmed,
}

normalized-default : (p : Policy) → is_empty (normalize_policy p).default_matte ≡ false
unfolding normalize_policy
normalized-default p = ground arith

normalize_policy_idem : (p : Policy) → normalize_policy (normalize_policy p) ≡ normalize_policy p
unfolding normalize_policy
normalize_policy_idem p = ground arith

validate_observation-ids :
    (h : Hashes) (o : Observation) (tv : TvIdentity)
    → validate_observation h o ≡ some tv
    → content_ids_valid none o.inventory.content_ids ≡ true
unfolding validate_observation inventory_valid
validate_observation-ids h o tv e = ground arith

items_valid-All :
    (names digests : List Text) (items : List Item)
    → items_valid names digests items ≡ true
    → All (λ i. item_valid i ≡ true) items
unfolding items_valid
items_valid-All names digests [] h = tt
items_valid-All names digests (i ∷ items) h = (
  ground arith,
  items_valid-All (i.name ∷ names) (hex_encode i.digest ∷ digests) items (ground arith),
)

module _ (lower : Text → Text) where
  override-IsMatte : (e : MatteOverride) → override_valid lower e ≡ true → IsMatte e.matte
  unfolding override_valid
  override-IsMatte e h = ground (arith, blank_of_trimmed e.matte)

  index-Mattes :
      (seen : List Text) (es : List MatteOverride) (m : Dict Text)
      → overrides_valid lower seen es ≡ true
      → Entries (λ name t. IsMatte t) m
      → Entries (λ name t. IsMatte t) (index_from m es)
  unfolding overrides_valid index_from
  index-Mattes seen [] m h e = e
  index-Mattes seen (x ∷ es) m h e =
      index-Mattes (lower x.filename ∷ seen) es (insert x.filename x.matte m) (ground arith)
        (insert-Entries _ x.filename x.matte m (override-IsMatte x (ground arith)) e)

  entries-valid :
      (kept : List MatteOverride)
      → entries_valid lower kept ≡ true
      → overrides_valid lower [] kept ≡ true
  unfolding entries_valid new_matte_overrides
  entries-valid kept h = ground arith

  policy-parts :
      (p : Policy)
      → policy_valid lower p ≡ true
      → is_empty p.default_matte ≡ false
      → (slideshow_policy_valid p.slideshow ≡ true) × HasMattes p (override_index p.matte_overrides)
  unfolding policy_valid override_index
  policy-parts p h e = (
    ground arith,
    (
      ground (arith, blank_of_trimmed p.default_matte),
      index-Mattes [] p.matte_overrides [] (entries-valid p.matte_overrides (ground arith)) tt,
      ground arith,
      ground arith,
    ),
  )

  fingerprint-policy_valid :
      (h : Hashes) (p : Policy) (f : List ℕ)
      → fingerprint_policy lower h (normalize_policy p) ≡ some f
      → policy_valid lower (normalize_policy p) ≡ true
  unfolding fingerprint_policy
  fingerprint-policy_valid h p f e = ground (arith, normalize_policy_idem p)

  -- What a plan has passed.
  pub record Passed (h : Hashes) (snapshot : Snapshot) (o : Observation) (s : State)
      (policy : Policy) (plan : Plan) : Type 0 where
    pub identity : TvIdentity
    observation_ok : validate_observation h o ≡ some identity
    pub state_ok : state_valid s identity ≡ true
    policy_ok : policy_valid lower (normalize_policy policy) ≡ true
    pub commands_eq :
        plan.commands
        ≡ plan_commands snapshot o s
            (normalize_policy policy)
            (override_index (normalize_policy policy).matte_overrides)

  pub plan_snapshot-Passed :
      (h : Hashes) (snapshot : Snapshot) (o : Observation) (s : State) (policy : Policy)
      (plan : Plan)
      → plan_snapshot lower h snapshot o s policy ≡ ok plan
      → Passed h snapshot o s policy plan
  unfolding plan_snapshot checked_plan
  plan_snapshot-Passed h snapshot o s policy plan e =
      elim (Option-cases (validate_observation h o)) [
        | inl bad ↦ ground arith
        | inr (tv, ob) ↦ elim (Bool-cases (state_valid s tv)) [
          | inr bad ↦ ground arith
          | inl st ↦ elim (Option-cases s.pending) [
            | inr (p, pe) ↦ ground arith
            | inl pe ↦ elim (Option-cases (fingerprint_policy lower h (normalize_policy policy))) [
              | inl bad ↦ ground arith
              | inr (f, fe) ↦ record {
                identity = tv;
                observation_ok = ob;
                state_ok = st;
                policy_ok = fingerprint-policy_valid h policy f fe;
                commands_eq = ground arith;
              }
            ]
          ]
        ]
      ]

  build_plan-snapshot :
      (h : Hashes) (snapshot : Snapshot) (o : Observation) (s : State) (policy : Policy)
      (plan : Plan)
      → build_plan lower h snapshot o s policy ≡ ok plan
      → (snapshot_valid h snapshot ≡ true) × (plan_snapshot lower h snapshot o s policy ≡ ok plan)
  unfolding build_plan
  build_plan-snapshot h snapshot o s policy plan e = (ground arith, ground arith)

-- What an item's digest and name are like, beyond what `validateSnapshot` checks.
abbrev pub IsCollected : Item → Type 0
IsCollected i = IsDigest i.digest × (is_abs i.name ≡ false) × (is_blank i.name ≡ false)

snapshot-Published :
    (h : Hashes) (snapshot : Snapshot)
    → snapshot_valid h snapshot ≡ true
    → All IsCollected snapshot.items
    → All IsPublished snapshot.items
unfolding snapshot_valid
snapshot-Published h snapshot v c =
    All-imp _ _ (λ i p. (p.0, p.1.0, p.1.1, p.1.2)) snapshot.items
      (All-and _ _ snapshot.items
        (All-perm _ (sort_func-perm by_name snapshot.items)
          (items_valid-All [] [] (sort_func by_name snapshot.items) (ground arith)))
        c)

pub plan_snapshot-IsSendable :
    (lower : Text → Text) (h : Hashes) (snapshot : Snapshot) (o : Observation) (s : State)
    (policy : Policy) (plan : Plan)
    → snapshot_valid h snapshot ≡ true
    → plan_snapshot lower h snapshot o s policy ≡ ok plan
    → All IsCollected snapshot.items
    → All IsSendable plan.commands
plan_snapshot-IsSendable lower h snapshot o s policy plan v e c =
    subst (All IsSendable) (sym p.commands_eq) (
      plan_commands-IsSendable snapshot o s (normalize_policy policy) _
        (state_valid-Checked s p.identity p.state_ok).bindings
        (validate_observation-ids h o p.identity p.observation_ok) q.0 q.1
        (snapshot-Published h snapshot v c))
  where
    p : Passed lower h snapshot o s policy plan
    p = plan_snapshot-Passed lower h snapshot o s policy plan e

    q :
        (slideshow_policy_valid (normalize_policy policy).slideshow ≡ true)
        × HasMattes
            (normalize_policy policy)
            (override_index (normalize_policy policy).matte_overrides)
    q = policy-parts lower (normalize_policy policy) p.policy_ok (normalized-default policy)

-- Where the items' digests have 32 bytes and their names are nonblank and no absolute paths,
-- `validateIntent` accepts every command of a plan that `BuildPlan` returns.
pub build_plan-IsSendable :
    (lower : Text → Text) (h : Hashes) (snapshot : Snapshot) (o : Observation) (s : State)
    (policy : Policy) (plan : Plan)
    → build_plan lower h snapshot o s policy ≡ ok plan
    → All IsCollected snapshot.items
    → All IsSendable plan.commands
build_plan-IsSendable lower h snapshot o s policy plan e c =
    let b = build_plan-snapshot lower h snapshot o s policy plan e in
    plan_snapshot-IsSendable lower h snapshot o s policy plan b.0 b.1 c
