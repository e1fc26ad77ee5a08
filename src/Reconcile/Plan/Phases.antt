-- ===== src/Reconcile/Plan/Phases.antt =====
-- What holds of every command of a plan, from what holds in each phase.
use mathlib.Core.List.Permᴰ
use frame_tv_art_manager.Prelude.{
  All, All-append, All-append_left, All-append_right, All-contains_self, ◌++◌, ℕ, ◌-◌, leb, ◌==◌,
  Bool, not, ◌&&◌, Text, Text-discrete, text_compare, ◌≡◌, refl, true, false, List, [], ◌∷◌, map,
  if_cases, Option-cases, inl, inr, some,
}
use frame_tv_art_manager.Prelude.Sort.{All-perm, All-sort_func, sort_func}
use frame_tv_art_manager.Prelude.Dict.{Dict, has_key, lookup, keys}
use frame_tv_art_manager.Collection.Types.{Snapshot}
use frame_tv_art_manager.Samsung.Types.{Observation}
use frame_tv_art_manager.Reconcile.Types.{
  Binding, State, Policy, PowerPolicy, CommandIntent, CommandKind, intent_of,
}
use frame_tv_art_manager.Reconcile.Rotation.{WaitingArtwork, RotationSwap, CapacityPlan}
use frame_tv_art_manager.Reconcile.Rotation.Admission.{
  Distribution, plan_capacity-Distribution, uploads, evictions,
}
use frame_tv_art_manager.Reconcile.Planner.{
  waiting_items, on_tv, obsolete_order, delete_owned_intent, delete_obsolete, upload_intent,
  swap_intents, delete_unknown_intent, delete_unknown_intents, select_content, select_binding,
  select_intent, slideshow_intent, changes_slideshow, desired_slideshow, slideshow_intents,
  brightness_intent, changes_brightness, desired_brightness, brightness_intents, power_intents,
}
use frame_tv_art_manager.Reconcile.Plan.{
  plan_commands, desired, classified, admission, capacity_input, inventory_ids, obsolete_deletions,
}

module _ {κ} (P : CommandIntent → Type κ) where
  delete_obsolete-All :
      (allow_empty : Bool) (bound remaining : ℕ) (obsolete : List Binding)
      → All (λ b. P (delete_owned_intent b)) obsolete
      → All P (delete_obsolete allow_empty bound remaining obsolete)
  unfolding delete_obsolete
  delete_obsolete-All allow_empty bound remaining [] h = tt
  delete_obsolete-All allow_empty bound remaining (b ∷ rest) h =
      if_cases (All P) (not allow_empty && bound == 0 && leb remaining 1)
        (delete_obsolete allow_empty bound remaining rest)
        (delete_owned_intent b ∷ delete_obsolete allow_empty bound (remaining - 1) rest)
        (λ _. delete_obsolete-All allow_empty bound remaining rest h.1)
        (λ _. (h.0, delete_obsolete-All allow_empty bound (remaining - 1) rest h.1))

  uploads-All :
      (policy : Policy) (overrides : Dict Text) (ws : List WaitingArtwork)
      → All (λ w. P (upload_intent policy overrides w)) ws
      → All P (map (upload_intent policy overrides) ws)
  uploads-All policy overrides [] h = tt
  uploads-All policy overrides (w ∷ ws) h = (h.0, uploads-All policy overrides ws h.1)

  swaps-All :
      (policy : Policy) (overrides : Dict Text) (swaps : List RotationSwap)
      → All (λ b. P (delete_owned_intent b)) (map (λ s. s.evict) swaps)
      → All (λ w. P (upload_intent policy overrides w)) (map (λ s. s.upload) swaps)
      → All P (swap_intents policy overrides swaps)
  unfolding swap_intents
  swaps-All policy overrides [] d u = tt
  swaps-All policy overrides (s ∷ swaps) d u =
      (d.0, (u.0, swaps-All policy overrides swaps d.1 u.1))

  unknown-All :
      (ids : List Text) (bound : Dict Text) (found : List Text)
      → ((id : Text)
          → on_tv ids id ≡ true
          → has_key id bound ≡ false
          → P (delete_unknown_intent id))
      → All (λ id. on_tv ids id ≡ true) found
      → All P (delete_unknown_intents bound found)
  unfolding delete_unknown_intents
  unknown-All ids bound [] f h = tt
  unknown-All ids bound (id ∷ found) f h =
      if_cases (All P) (has_key id bound) (delete_unknown_intents bound found)
        (delete_unknown_intent id ∷ delete_unknown_intents bound found)
        (λ _. unknown-All ids bound found f h.1)
        (λ e. (f id h.0 e, unknown-All ids bound found f h.1))

  select-All :
      (ids : List Text) (s : State) (digests : List Text)
      → ((digest : Text) (b : Binding)
          → lookup digest s.bindings ≡ some b
          → on_tv ids b.content_id ≡ true
          → P (select_content b.content_id))
      → All P (select_intent ids s digests)
  unfolding select_intent select_binding
  select-All ids s [] f = tt
  select-All ids s (digest ∷ digests) f = elim (Option-cases (lookup digest s.bindings)) [
    | inl e ↦ rw e (select-All ids s digests f)
    | inr (b, e) ↦ rw e (
        if_cases (All P) (on_tv ids b.content_id) (select_content b.content_id ∷ [])
          (select_intent ids s digests) (λ on. (f digest b e on, tt))
          (λ _. select-All ids s digests f))
  ]

  power-All :
      (power : PowerPolicy)
      → (power ≡ PowerPolicy.off → P (intent_of CommandKind.power_off))
      → All P (power_intents power)
  unfolding power_intents
  power-All PowerPolicy.off f = (f refl, tt)
  power-All PowerPolicy.on f = tt
  power-All PowerPolicy.preserve f = tt
  power-All (PowerPolicy.invalid n) f = tt

  -- The phases of a plan, each with what is known there.
  pub record Phases (snapshot : Snapshot) (o : Observation) (s : State) (policy : Policy)
      (overrides : Dict Text) : Type κ where
    pub owned : All (λ b. P (delete_owned_intent b)) (classified snapshot o s policy).owned
    pub obsolete : All (λ b. P (delete_owned_intent b)) (classified snapshot o s policy).obsolete
    pub waiting :
        All
          (λ w. P (upload_intent policy overrides w))
          (waiting_items o.inventory.content_ids s (desired snapshot o s policy))
    pub unknown :
        policy.remove_unknown ≡ true
        → (id : Text) → on_tv o.inventory.content_ids id ≡ true
        → has_key id (classified snapshot o s policy).bound ≡ false
        → P (delete_unknown_intent id)
    pub selected :
        policy.select ≡ true
        → (digest : Text) (b : Binding) → lookup digest s.bindings ≡ some b
        → on_tv o.inventory.content_ids b.content_id ≡ true
        → P (select_content b.content_id)
    pub slideshow :
        changes_slideshow policy.slideshow o.slideshow ≡ true
        → P (
            slideshow_intent o.slideshow.setting
              (desired_slideshow policy.slideshow o.slideshow.setting))
    pub brightness :
        changes_brightness policy.brightness o.brightness ≡ true
        → P (
            brightness_intent o.brightness.value
              (desired_brightness policy.brightness o.brightness))
    pub power : policy.power ≡ PowerPolicy.off → P (intent_of CommandKind.power_off)

  pub plan_commands-All :
      (snapshot : Snapshot) (o : Observation) (s : State) (policy : Policy) (overrides : Dict Text)
      → Phases snapshot o s policy overrides
      → All P (plan_commands snapshot o s policy overrides)
  unfolding plan_commands slideshow_intents brightness_intents
  plan_commands-All snapshot o s policy overrides h =
      All-append P (obsolete_deletions snapshot o s policy) _
        (delete_obsolete-All policy.allow_empty _ _ _ (All-sort_func obsolete_order _ _ h.obsolete))
        (All-append P (map (upload_intent policy overrides) p.fills) _
          (uploads-All policy overrides p.fills
            (All-append_left _ p.fills (uploads p ++ d.left) going))
          (All-append P (swap_intents policy overrides p.swaps) _
            (swaps-All policy overrides p.swaps
              (All-append_left _ (evictions p) d.kept
                (All-perm _ (Permᴰ.symm d.owned_split) h.owned))
              (All-append_left _ (uploads p) d.left
                (All-append_right _ p.fills (uploads p ++ d.left) going)))
            (All-append P _ _
              (if_cases (All P) policy.remove_unknown _ []
                (λ r.
                  unknown-All o.inventory.content_ids (classified snapshot o s policy).bound
                    (inventory_ids snapshot o s policy) (h.unknown r)
                    (All-contains_self Text-discrete o.inventory.content_ids))
                (λ _. tt))
              (All-append P _ _
                (if_cases (All P) policy.select _ []
                  (λ r.
                    select-All o.inventory.content_ids s
                      (sort_func text_compare (keys (desired snapshot o s policy))) (h.selected r))
                  (λ _. tt))
                (All-append P _ _
                  (if_cases (All P) (changes_slideshow policy.slideshow o.slideshow)
                    (slideshow_intent o.slideshow.setting
                        (desired_slideshow policy.slideshow o.slideshow.setting)
                      ∷ [])
                    [] (λ e. (h.slideshow e, tt)) (λ _. tt))
                  (All-append P _ _
                    (if_cases (All P) (changes_brightness policy.brightness o.brightness)
                      (brightness_intent o.brightness.value
                          (desired_brightness policy.brightness o.brightness)
                        ∷ [])
                      [] (λ e. (h.brightness e, tt)) (λ _. tt))
                    (power-All policy.power h.power)))))))
    where
      p : CapacityPlan
      p = admission snapshot o s policy

      d : Distribution (capacity_input snapshot o s policy) p
      d = plan_capacity-Distribution (capacity_input snapshot o s policy)

      going : All (λ w. P (upload_intent policy overrides w)) (p.fills ++ (uploads p ++ d.left))
      going = All-perm _ (Permᴰ.symm d.waiting_split) h.waiting
