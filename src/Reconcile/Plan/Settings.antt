-- ===== src/Reconcile/Plan/Settings.antt =====
-- Slideshow and brightness: one command reaches what the policy asks for.
use frame_tv_art_manager.Prelude.{
  ◌⊎◌, ◌∷◌, if◌then◌else◌, ◌&&◌, Bool, sym, true, false, not, ◌≡◌, refl, arith, [], holds, holds_of,
  ap,
}
use frame_tv_art_manager.Prelude.Int.{is_zero, ℤ, ltb_ℤ, ◌≤ℤ◌, ℤ-discrete, max_ℤ, min_ℤ}
use frame_tv_art_manager.Samsung.Types.{
  setting_valid, setting_valid, SlideshowObservation, SlideshowSetting-discrete, SlideshowSetting,
  SettingObservation, clamp,
}
use frame_tv_art_manager.Reconcile.Types.{SlideshowPolicy, SettingPolicy}
use frame_tv_art_manager.Reconcile.Planner.{
  is_preserve, slideshow_intents, slideshow_intent, desired_slideshow, adjusted_slideshow,
  desired_brightness, brightness_intents,
}

-- Where the TV reports a range of more than one level, the brightness that a plan asks for is within
-- it, and is the policy's value, or else the end of the range that is next to it.
pub desired_brightness-InRange :
    (policy : SettingPolicy) (o : SettingObservation)
    → ltb_ℤ o.min o.max ≡ true
    → (o.min ≤ℤ desired_brightness policy o)
      × (desired_brightness policy o ≤ℤ o.max)
      × ((desired_brightness policy o ≡ policy.value)
          ⊎ ((policy.value ≤ℤ o.min) × (desired_brightness policy o ≡ o.min))
          ⊎ ((o.max ≤ℤ policy.value) × (desired_brightness policy o ≡ o.max)))
unfolding desired_brightness clamp max_ℤ min_ℤ
desired_brightness-InRange policy o h = (ground arith, ground arith, ground arith)

not_self : (v : ℤ) → not (holds (ℤ-discrete v v)) ≡ false
not_self v = ap not (holds_of (ℤ-discrete v v) refl)

-- Once the TV shows the brightness that a plan asked for, no plan asks for one again.
pub brightness_intents-settle :
    (policy : SettingPolicy) (o : SettingObservation)
    → brightness_intents policy (record o { value = desired_brightness policy o }) ≡ []
unfolding brightness_intents desired_brightness
brightness_intents-settle policy o = ground (arith, not_self (desired_brightness policy o))

desired_slideshow_idem :
    (policy : SlideshowPolicy) (s : SlideshowSetting)
    → desired_slideshow policy (desired_slideshow policy s) ≡ desired_slideshow policy s
unfolding desired_slideshow adjusted_slideshow
desired_slideshow_idem policy s = ground arith

same_slideshow :
    (s d : SlideshowSetting) → d ≡ s → not (holds (SlideshowSetting-discrete s d)) ≡ false
same_slideshow s d e = ap not (holds_of (SlideshowSetting-discrete s d) (sym e))

slideshow_off : (a b c d e : Bool) → d ≡ false → (a && (b && (c && (d && e)))) ≡ false
slideshow_off a b c d e h = ground arith

-- Once the TV shows the slideshow that a plan asked for, no plan asks for one again: what the policy
-- makes of a setting, it keeps.
pub slideshow_intents-settle :
    (policy : SlideshowPolicy) (o : SlideshowObservation)
    → slideshow_intents policy (record o { setting = desired_slideshow policy o.setting }) ≡ []
unfolding slideshow_intents
slideshow_intents-settle policy o =
    ap (λ b. if b then slideshow_intent d (desired_slideshow policy d) ∷ [] else [])
      (slideshow_off (not (is_preserve policy.mode)) o.known (setting_valid d)
        (not (holds (SlideshowSetting-discrete d (desired_slideshow policy d))))
        (not (is_zero (desired_slideshow policy d).interval && is_zero d.interval))
        (same_slideshow d (desired_slideshow policy d) (desired_slideshow_idem policy o.setting)))
  where
    d : SlideshowSetting
    d = desired_slideshow policy o.setting
