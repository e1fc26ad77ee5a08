-- ===== src/Samsung/Adapter/Fresh.antt =====
-- What a command was checked against when `freshCommandGuard` lets it pass.
use frame_tv_art_manager.Prelude.Sort.{sort_func}
use frame_tv_art_manager.Samsung.Types.{Inventory, Command}
use frame_tv_art_manager.Samsung.Adapter.{normalize_inventory, Authorization, Config}
use frame_tv_art_manager.Samsung.Adapter.Guard.{
  no_inventory, is_wake, guard_active_tv, guard_after, fresh_command_guard, guard_facts,
  guard_inventory, guard_command_facts, guard_device, GuardReads,
}
use frame_tv_art_manager.Samsung.Errors.{Sentinel, because, answer, Reply, refused, Failure}
use frame_tv_art_manager.Prelude.{
  subst, sym, ap, holds, refl, text_compare, false, Text-discrete, true, ◌≡◌, ℕ, none,
  if◌then◌else◌, Text, Option, Bool, List, some,
}
use frame_tv_art_manager.Samsung.Adapter.Facts.{
  true-ne-false, refused-ne-answer, IsAwake, Agrees, device-IsAwake, device-IsAsleep, facts-Agrees,
  IsAsleep, IsCurrent,
}

module _ (fingerprint : List Text → List ℕ) (config : Config) (authorization : Authorization)
    (command : Command) (reads : GuardReads) (inventory : Inventory) where
  inventory-IsCurrent :
      (r : Reply (List Text))
      → reads.inventory ≡ r
      → IsAwake reads
      → guard_inventory fingerprint config authorization command reads r ≡ answer inventory
      → IsCurrent fingerprint authorization command reads inventory
  unfolding guard_inventory guard_facts normalize_inventory
  inventory-IsCurrent (refused e) q awake p = absurd (refused-ne-answer _ _ p)
  inventory-IsCurrent (answer content) q awake p =
      checked
        (Text-discrete (fingerprint (sort_func text_compare content))
          authorization.inventory_fingerprint)
        (guard_command_facts command read reads) refl p
    where
      read : Inventory
      read = normalize_inventory fingerprint content reads.observed_at

      checked :
          (d : Dec
            (fingerprint (sort_func text_compare content) ≡ authorization.inventory_fingerprint))
          (facts : Option Failure)
          → guard_command_facts command read reads ≡ facts
          → (if holds d
              then guard_facts fingerprint config command read reads facts
              else refused (because Sentinel.not_authorized))
            ≡ answer inventory
          → IsCurrent fingerprint authorization command reads inventory
      checked (no n) facts f h = absurd (refused-ne-answer _ _ h)
      checked (yes same) (some e) f h = absurd (refused-ne-answer _ _ h)
      checked (yes same) none f h =
          let same_inventory : read ≡ inventory = cc in
          record {
            awake = awake;
            content = content;
            listed = q;
            ids = ap (λ (i : Inventory). i.content_ids) (sym same_inventory);
            same = same;
            agrees =
                subst (λ (i : Inventory). Agrees command reads i.content_ids) same_inventory
                  (facts-Agrees command read reads f);
          }

  -- A guard that lets a command other than a wake pass.
  pub guard-IsCurrent :
      is_wake command ≡ false
      → fresh_command_guard fingerprint config authorization command reads ≡ answer inventory
      → IsCurrent fingerprint authorization command reads inventory
  unfolding fresh_command_guard guard_after guard_active_tv
  guard-IsCurrent w p = passed (is_wake command) w _ refl p
    where
      passed :
          (wake : Bool)
          → wake ≡ false
          → (guarded : Option Failure)
          → guard_device config authorization wake reads.channel reads.device ≡ guarded
          → elim guarded [
            | some e ↦ refused e
            | none ↦
                if wake
                then answer no_inventory
                else guard_inventory fingerprint config authorization command reads reads.inventory
          ]
            ≡ answer inventory
          → IsCurrent fingerprint authorization command reads inventory
      passed true v guarded g h = absurd (true-ne-false v)
      passed false v (some e) g h = absurd (refused-ne-answer _ _ h)
      passed false v none g h =
          inventory-IsCurrent reads.inventory refl
            (device-IsAwake config authorization reads reads.device refl g) h

  -- A guard that lets a wake pass.
  pub guard-IsAsleep :
      is_wake command ≡ true
      → fresh_command_guard fingerprint config authorization command reads ≡ answer inventory
      → IsAsleep config authorization reads
  unfolding fresh_command_guard guard_after guard_active_tv
  guard-IsAsleep w p = passed (is_wake command) w _ refl p
    where
      passed :
          (wake : Bool)
          → wake ≡ true
          → (guarded : Option Failure)
          → guard_device config authorization wake reads.channel reads.device ≡ guarded
          → elim guarded [
            | some e ↦ refused e
            | none ↦
                if wake
                then answer no_inventory
                else guard_inventory fingerprint config authorization command reads reads.inventory
          ]
            ≡ answer inventory
          → IsAsleep config authorization reads
      passed false v guarded g h = absurd (true-ne-false (sym v))
      passed true v (some e) g h = absurd (refused-ne-answer _ _ h)
      passed true v none g h = device-IsAsleep config authorization reads reads.device refl g
