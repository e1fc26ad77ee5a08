-- ===== src/Reconcile/Examples/Settled.antt =====
-- The theorems on a plan with nothing to do, and on the loop that meets one, applied.
use frame_tv_art_manager.Prelude.{
  arith, ◌↔◌, refl, inl, none, inr, true, false, [], ◌∷◌, codes, contains, Text-discrete,
  ℕ_discrete,
}
use frame_tv_art_manager.Prelude.Int.{pos, ℤ-discrete}
use frame_tv_art_manager.Prelude.Dict.{lookup, insert}
use frame_tv_art_manager.Prelude.Hex.{hex_encode, hex_digit}
use frame_tv_art_manager.Collection.Types.{Snapshot}
use frame_tv_art_manager.Samsung.Types.{
  Disposition-discrete, Observation, setting_valid, SlideshowSetting-discrete, clamp,
}
use frame_tv_art_manager.Reconcile.Types.{Policy}
use frame_tv_art_manager.Reconcile.Planner.{
  classify, desired_items, desired_slideshow, desired_brightness,
}
use frame_tv_art_manager.Reconcile.Plan.Settled.{IsSettled, IsDone, plan_commands-IsDone}
use frame_tv_art_manager.Reconcile.Inputs.{normalize_policy}
use frame_tv_art_manager.Reconcile.Loop.{Setup, Round, Loop, begin}
use frame_tv_art_manager.Reconcile.Service.{converge}
use frame_tv_art_manager.Reconcile.Service.Settled.{IsOver, converge-IsOver}
use frame_tv_art_manager.Reconcile.Examples.Sendable.{built}
use frame_tv_art_manager.Reconcile.Examples.Cycles.{setup, rounds, deletion_answers}
use frame_tv_art_manager.Reconcile.Examples.{
  hashes, state, policy, observation, snapshot, slideshow, brightness, item_of,
}

-- Unknown artwork goes, and no piece is selected.
abbrev strict : Policy
strict = record policy { remove_unknown = true; select = false }

-- The TV, once it has the slideshow and the brightness of the policy.
abbrev adjusted : Observation
adjusted = record observation {
  slideshow = record slideshow { setting = desired_slideshow policy.slideshow slideshow.setting };
  brightness = record brightness { value = pos 50 };
}

-- The collection of the two pieces that are on the TV.
abbrev both : Snapshot
both = record snapshot { items = item_of (codes "a.jpg") 17 ∷ item_of (codes "b.jpg") 34 ∷ [] }

plan_commands-IsDone_example :
    IsDone both adjusted state strict [] ↔ IsSettled both adjusted state strict
unfolding classify contains Text-discrete ℕ_discrete lookup desired_items insert hex_encode
    hex_digit
plan_commands-IsDone_example = plan_commands-IsDone both adjusted state strict [] refl refl

both-IsSettled : IsSettled both adjusted state strict
unfolding classify contains Text-discrete ℕ_discrete lookup desired_items insert hex_encode
    hex_digit setting_valid desired_slideshow SlideshowSetting-discrete ℤ-discrete
    desired_brightness clamp
both-IsSettled = record {
  present = (refl, (refl, tt));
  wanted = (inr refl, (inr refl, tt));
  known = inr (refl, (refl, tt));
  slideshow = inr (inr (inr (refl, refl)));
  brightness = inr (inr (inr (refl, inr (inr (omega arith, refl)))));
  power = λ e. cc;
}

nothing_to_do : IsDone both adjusted state strict []
unfolding classify contains Text-discrete ℕ_discrete lookup desired_items insert hex_encode
    hex_digit
nothing_to_do = (plan_commands-IsDone both adjusted state strict [] refl refl).1 both-IsSettled

-- A run that has planned uploads and deletions, on a TV that has them done already.
abbrev shown_setup : Setup
shown_setup = record setup { snapshot = both; policy = strict }

abbrev shown_round : Round
shown_round = record {
  observed = adjusted;
  observe_error = none;
  planned_at = 100;
  answers = deletion_answers;
  replanned_at = 110;
}

abbrev planned : Loop
planned = begin state observation built []

converge-IsOver_example :
    IsOver
      (λ t. t)
      hashes
      shown_setup
      shown_round
      planned
      (converge (λ t. t) hashes shown_setup (shown_round ∷ rounds) planned)
unfolding normalize_policy Disposition-discrete
converge-IsOver_example =
    converge-IsOver (λ t. t) hashes shown_setup shown_round planned rounds (inl refl) refl refl
      both-IsSettled
