-- ===== src/Reconcile/Plan/Neutral.antt =====
-- The commands of a plan that neither bring nor take owned artwork.
use frame_tv_art_manager.Prelude.{
  if◌then◌else◌, inl, inr, List, [], ◌∷◌, ◌++◌, All, All-append, if_cases, Text, text_compare,
  Option-cases,
}
use frame_tv_art_manager.Prelude.Sort.{sort_func}
use frame_tv_art_manager.Prelude.Dict.{Dict, keys, lookup, has_key}
use frame_tv_art_manager.Collection.Types.{Snapshot}
use frame_tv_art_manager.Samsung.Types.{Observation}
use frame_tv_art_manager.Reconcile.Types.{State, Policy, PowerPolicy, CommandIntent, CommandKind}
use frame_tv_art_manager.Reconcile.Planner.{
  delete_unknown_intents, delete_unknown_intent, select_intent, select_binding, select_content,
  slideshow_intents, slideshow_intent, changes_slideshow, desired_slideshow, brightness_intents,
  brightness_intent, changes_brightness, desired_brightness, power_intents, on_tv,
}
use frame_tv_art_manager.Reconcile.Plan.{classified, inventory_ids, desired}

-- Commands that neither bring nor take owned artwork.
abbrev pub IsNeutral : CommandKind → Type 0
IsNeutral CommandKind.upload = ⊥
IsNeutral CommandKind.delete_owned = ⊥
IsNeutral _ = Unit

abbrev pub AreNeutral : List CommandIntent → Type 0
AreNeutral = All (λ c. IsNeutral c.kind)

unknown-AreNeutral :
    (bound : Dict Text) (ids : List Text) → AreNeutral (delete_unknown_intents bound ids)
unfolding delete_unknown_intents
unknown-AreNeutral bound [] = tt
unknown-AreNeutral bound (id ∷ ids) =
    if_cases AreNeutral (has_key id bound) (delete_unknown_intents bound ids)
      (delete_unknown_intent id ∷ delete_unknown_intents bound ids)
      (λ _. unknown-AreNeutral bound ids) (λ _. (tt, unknown-AreNeutral bound ids))

select-AreNeutral :
    (ids : List Text) (s : State) (ds : List Text) → AreNeutral (select_intent ids s ds)
unfolding select_intent select_binding
select-AreNeutral ids s [] = tt
select-AreNeutral ids s (d ∷ ds) = elim (Option-cases (lookup d s.bindings)) [
  | inl e ↦ rw e (select-AreNeutral ids s ds)
  | inr (b, e) ↦ rw e (
      if_cases AreNeutral (on_tv ids b.content_id) (select_content b.content_id ∷ [])
        (select_intent ids s ds) (λ _. (tt, tt)) (λ _. select-AreNeutral ids s ds))
]

module _ (snapshot : Snapshot) (o : Observation) (s : State) (policy : Policy) where
  slideshow-AreNeutral : AreNeutral (slideshow_intents policy.slideshow o.slideshow)
  unfolding slideshow_intents
  slideshow-AreNeutral =
      if_cases AreNeutral (changes_slideshow policy.slideshow o.slideshow)
        (slideshow_intent o.slideshow.setting
            (desired_slideshow policy.slideshow o.slideshow.setting)
          ∷ [])
        [] (λ _. (tt, tt)) (λ _. tt)

  brightness-AreNeutral : AreNeutral (brightness_intents policy.brightness o.brightness)
  unfolding brightness_intents
  brightness-AreNeutral =
      if_cases AreNeutral (changes_brightness policy.brightness o.brightness)
        (brightness_intent o.brightness.value (desired_brightness policy.brightness o.brightness)
          ∷ [])
        [] (λ _. (tt, tt)) (λ _. tt)

power-AreNeutral : (p : PowerPolicy) → AreNeutral (power_intents p)
unfolding power_intents
power-AreNeutral PowerPolicy.off = (tt, tt)
power-AreNeutral PowerPolicy.on = tt
power-AreNeutral PowerPolicy.preserve = tt
power-AreNeutral (PowerPolicy.invalid n) = tt

-- The commands of a plan that follow those on owned artwork.
abbrev pub settings_and_rest : Snapshot → Observation → State → Policy → List CommandIntent
settings_and_rest snapshot o s policy =
    (if policy.remove_unknown
      then delete_unknown_intents (classified snapshot o s policy).bound
          (inventory_ids snapshot o s policy)
      else [])
    ++ ((if policy.select
          then select_intent (inventory_ids snapshot o s policy) s
              (sort_func text_compare (keys (desired snapshot o s policy)))
          else [])
        ++ (slideshow_intents policy.slideshow o.slideshow
            ++ (brightness_intents policy.brightness o.brightness ++ power_intents policy.power)))

pub rest-AreNeutral :
    (snapshot : Snapshot) (o : Observation) (s : State) (policy : Policy)
    → AreNeutral (settings_and_rest snapshot o s policy)
rest-AreNeutral snapshot o s policy = All-append _ _ _ unknown (
    All-append _ _ _ selected (
      All-append _ _ _ (slideshow-AreNeutral snapshot o s policy) (
        All-append _ _ _ (brightness-AreNeutral snapshot o s policy)
          (power-AreNeutral policy.power))))
  where
    unknown : AreNeutral (
        if policy.remove_unknown
        then delete_unknown_intents
            (classified snapshot o s policy).bound
            (inventory_ids snapshot o s policy)
        else [])
    unknown =
        if_cases AreNeutral policy.remove_unknown _ []
          (λ _.
            unknown-AreNeutral (classified snapshot o s policy).bound
              (inventory_ids snapshot o s policy))
          (λ _. tt)

    selected : AreNeutral (
        if policy.select
        then select_intent
            (inventory_ids snapshot o s policy)
            s
            (sort_func text_compare (keys (desired snapshot o s policy)))
        else [])
    selected =
        if_cases AreNeutral policy.select _ []
          (λ _.
            select-AreNeutral (inventory_ids snapshot o s policy) s
              (sort_func text_compare (keys (desired snapshot o s policy))))
          (λ _. tt)
