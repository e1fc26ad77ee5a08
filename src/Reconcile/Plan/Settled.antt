-- ===== src/Reconcile/Plan/Settled.antt =====
-- internal/reconcile/planner.go: when a plan has nothing to do, the TV shows what was asked for.
use frame_tv_art_manager.Prelude.{
  ◌∙◌, text_compare, ◌≡◌, ◌≢◌, ◌↔◌, ◌⊎◌, ap, Text, true, false, not, ◌&&◌, ◌==◌, [], map, All,
  length, arith, if◌then◌else◌,
}
use frame_tv_art_manager.Prelude.Sort.{sort_func, length-sort_func}
use frame_tv_art_manager.Prelude.Dict.{keys, Dict, Entries, lookup, has_key}
use frame_tv_art_manager.Samsung.Types.{Observation}
use frame_tv_art_manager.Collection.Types.{Snapshot}
use frame_tv_art_manager.Reconcile.Types.{State, Policy, PowerPolicy}
use frame_tv_art_manager.Reconcile.Rotation.Bounds.{IsIdle, plan_capacity-IsIdle}
use frame_tv_art_manager.Reconcile.Planner.{
  is_bound_on_tv, on_tv, delete_unknown_intents, upload_intent, swap_intents, slideshow_intents,
  brightness_intents, power_intents, obsolete_order, select_intent, delete_obsolete,
}
use frame_tv_art_manager.Reconcile.Plan.{
  capacity_input, inventory_ids, desired, classified, admission, obsolete_deletions, plan_commands,
}
use frame_tv_art_manager.Reconcile.Plan.Shown.{
  IsShowing, IsBright, changes_slideshow-IsShowing, changes_brightness-IsBright,
}
use frame_tv_art_manager.Reconcile.Plan.Empty.{
  nil_of_length, obsolete-nil, waiting-nil, uploads-nil, swaps-nil, deleted-nil, slideshow-nil,
  brightness-nil, power-nil, if-off, fifth-eq, parts-nil, approved-nil,
}

module _ (snapshot : Snapshot) (o : Observation) (s : State) (policy : Policy) where
  -- The TV shows what a plan can bring about of what the operator asked for.
  pub record IsSettled : Type 0 where
    -- All wanted artwork is on the TV.
    pub present :
        Entries
          (λ k item. is_bound_on_tv o.inventory.content_ids (lookup k s.bindings) ≡ true)
          (desired snapshot o s policy)
    -- No other artwork of this program is.
    pub wanted :
        Entries
          (λ k b.
            (on_tv o.inventory.content_ids b.content_id ≡ false)
            ⊎ (has_key k (desired snapshot o s policy) ≡ true))
          s.bindings
    -- Nor is unknown artwork, where the policy has it removed.
    pub known :
        (policy.remove_unknown ≡ false)
        ⊎ All
            (λ id. has_key id (classified snapshot o s policy).bound ≡ true)
            o.inventory.content_ids
    -- The slideshow and the brightness are as asked for, as far as the TV reports them.
    pub slideshow : IsShowing policy.slideshow o.slideshow
    pub brightness : IsBright policy.brightness o.brightness
    -- A plan turns a TV off if it is asked to, and never on: that is done before there is a plan.
    pub power : policy.power ≢ PowerPolicy.off

  -- A plan that leaves nothing to do, now or later.
  abbrev pub IsDone : Dict Text → Type 0
  IsDone overrides =
      (plan_commands snapshot o s policy overrides ≡ [])
      × ((admission snapshot o s policy).limited ≡ false)
      × ((admission snapshot o s policy).rotation.active ≡ false)

  deletions-nil :
      (not policy.allow_empty && length (classified snapshot o s policy).owned == 0) ≡ false
      → (obsolete_deletions snapshot o s policy ≡ [])
        ↔ ((classified snapshot o s policy).obsolete ≡ [])
  deletions-nil h = (
    λ e. nil_of_length (classified snapshot o s policy).obsolete (
        omega (
          arith,
          ap length ((all_deleted).0 e),
          length-sort_func obsolete_order (classified snapshot o s policy).obsolete,
        )),
    λ e. all_deleted.1 (
        nil_of_length _ (
          omega (
            arith,
            ap length e,
            length-sort_func obsolete_order (classified snapshot o s policy).obsolete,
          ))),
  )
    where
      all_deleted :
          (obsolete_deletions snapshot o s policy ≡ [])
          ↔ (sort_func obsolete_order (classified snapshot o s policy).obsolete ≡ [])
      all_deleted =
          deleted-nil policy.allow_empty (length (classified snapshot o s policy).owned) _ _ h

  IsSettled-IsIdle : IsSettled → IsIdle (admission snapshot o s policy)
  IsSettled-IsIdle k = (plan_capacity-IsIdle (capacity_input snapshot o s policy)).1 (
      ap length ((waiting-nil o.inventory.content_ids s (desired snapshot o s policy)).1 k.present))

  IsSettled-deletions : IsSettled → obsolete_deletions snapshot o s policy ≡ []
  unfolding delete_obsolete
  IsSettled-deletions k =
      ap (delete_obsolete policy.allow_empty (length (classified snapshot o s policy).owned) _) (
        nil_of_length _ (
          omega (
            arith,
            ap length (
                (obsolete-nil o.inventory.content_ids (desired snapshot o s policy) s.bindings).1
                  k.wanted),
            length-sort_func obsolete_order (classified snapshot o s policy).obsolete,
          )))

  -- What is left to a plan, when the TV shows what was asked for, is to select a piece.
  pub IsSettled-commands :
      (overrides : Dict Text)
      → IsSettled
      → plan_commands snapshot o s policy overrides ≡ (
          if policy.select
          then select_intent o.inventory.content_ids s
              (sort_func text_compare (keys (desired snapshot o s policy)))
          else [])
  unfolding plan_commands
  IsSettled-commands overrides k =
      fifth-eq (IsSettled-deletions k) ((uploads-nil policy overrides _).1 (IsSettled-IsIdle k).0)
        ((swaps-nil policy overrides _).1 (IsSettled-IsIdle k).1)
        ((approved-nil policy.remove_unknown _ _).1 k.known)
        ((slideshow-nil policy.slideshow o.slideshow).1
          ((changes_slideshow-IsShowing policy.slideshow o.slideshow).1 k.slideshow))
        ((brightness-nil policy.brightness o.brightness).1
          ((changes_brightness-IsBright policy.brightness o.brightness).1 k.brightness))
        ((power-nil policy.power).1 k.power)

  module _ (overrides : Dict Text) (unselected : policy.select ≡ false) where
    -- The commands of a plan without a selection, list by list.
    plan_commands-parts : (plan_commands snapshot o s policy overrides ≡ []) ↔ (
        (obsolete_deletions snapshot o s policy ≡ [])
        × (map (upload_intent policy overrides) (admission snapshot o s policy).fills ≡ [])
        × (swap_intents policy overrides (admission snapshot o s policy).swaps ≡ [])
        × ((if policy.remove_unknown
              then delete_unknown_intents
                  (classified snapshot o s policy).bound
                  (inventory_ids snapshot o s policy)
              else [])
            ≡ [])
        × (slideshow_intents policy.slideshow o.slideshow ≡ [])
        × (brightness_intents policy.brightness o.brightness ≡ [])
        × (power_intents policy.power ≡ []))
    unfolding plan_commands
    plan_commands-parts = parts-nil (if-off policy.select _ unselected) _ _ _ _ _ _ _

    -- Where the policy selects no piece, and allows an empty TV or has wanted artwork on it, a plan
    -- sends nothing, reports no full storage and rotates nothing exactly when the TV shows what a plan
    -- can bring about: the wanted artwork, no other of this program, no unknown artwork that the
    -- policy removes, a slideshow and a brightness which the policy leaves alone, the TV does not
    -- report, or are as the policy asks (the brightness moved into the TV's range), and the policy
    -- does not ask to turn the TV off.
    pub plan_commands-IsDone :
        (not policy.allow_empty && length (classified snapshot o s policy).owned == 0) ≡ false
        → IsDone overrides ↔ IsSettled
    plan_commands-IsDone free = (settled, done)
      where
        settled : IsDone overrides → IsSettled
        settled h = record {
          present = (waiting-nil o.inventory.content_ids s (desired snapshot o s policy)).0 (
              nil_of_length _ (
                (plan_capacity-IsIdle (capacity_input snapshot o s policy)).0 (
                  (uploads-nil policy overrides _).0 (plan_commands-parts.0 h.0).1,
                  (swaps-nil policy overrides _).0 (plan_commands-parts.0 h.0).2,
                  h.1,
                  h.2,
                )));
          wanted =
              (obsolete-nil o.inventory.content_ids (desired snapshot o s policy) s.bindings).0
                ((deletions-nil free).0 (plan_commands-parts.0 h.0).0);
          known = (approved-nil policy.remove_unknown _ _).0 (plan_commands-parts.0 h.0).3;
          slideshow =
              (changes_slideshow-IsShowing policy.slideshow o.slideshow).0
                ((slideshow-nil policy.slideshow o.slideshow).0 (plan_commands-parts.0 h.0).4);
          brightness =
              (changes_brightness-IsBright policy.brightness o.brightness).0
                ((brightness-nil policy.brightness o.brightness).0 (plan_commands-parts.0 h.0).5);
          power = (power-nil policy.power).0 (plan_commands-parts.0 h.0).6;
        }

        done : IsSettled → IsDone overrides
        done k = (
          IsSettled-commands overrides k ∙ if-off policy.select _ unselected,
          (IsSettled-IsIdle k).2,
          (IsSettled-IsIdle k).3,
        )
