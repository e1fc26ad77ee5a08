-- ===== src/Reconcile/Plan/Shown.antt =====
-- internal/reconcile/planner.go: when the slideshow and the brightness of a TV are those that a policy
-- asks for, said without the planner.
use frame_tv_art_manager.Prelude.{
  ◌≡◌, ◌≢◌, ◌↔◌, ◌⊎◌, inl, inr, refl, sym, ap, ◌∙◌, Bool, true, false, if◌then◌else◌, holds,
  holds-true, holds_of, arith, Bool-cases,
}
use frame_tv_art_manager.Prelude.Int.{
  ℤ, pos, ◌≤ℤ◌, ltb_ℤ, is_zero, is_positive, ℤ-discrete, max_ℤ, min_ℤ,
}
use frame_tv_art_manager.Samsung.Types.{
  SlideshowSetting, SlideshowSetting-discrete, SlideshowObservation, SettingObservation,
  setting_valid, clamp,
}
use frame_tv_art_manager.Reconcile.Types.{PolicyMode, SlideshowPolicy, SettingPolicy}
use frame_tv_art_manager.Reconcile.Planner.{
  is_preserve, desired_brightness, changes_brightness, desired_slideshow, adjusted_slideshow,
  changes_slideshow, slideshow_differs, no_kind,
}

-- The level is the policy's value, moved into the range that the TV reports, if it reports one.
abbrev pub IsNearest : ℤ → SettingObservation → Type 0
IsNearest value o =
    ((o.max ≤ℤ o.min) × (o.value ≡ value))
    ⊎ ((ltb_ℤ o.min o.max ≡ true)
        × (((o.min ≤ℤ value) × (value ≤ℤ o.max) × (o.value ≡ value))
            ⊎ ((value ≤ℤ o.min) × (o.value ≡ o.min))
            ⊎ ((o.max ≤ℤ value) × (o.value ≡ o.max))))

-- The policy leaves the brightness alone, or the TV does not report it, or it is as asked for.
abbrev pub IsBright : SettingPolicy → SettingObservation → Type 0
IsBright p o = (p.mode ≡ PolicyMode.preserve) ⊎ ((o.known ≡ false) ⊎ IsNearest p.value o)

desired-IsNearest :
    (p : SettingPolicy) (o : SettingObservation)
    → (o.value ≡ desired_brightness p o) ↔ IsNearest p.value o
unfolding desired_brightness clamp max_ℤ min_ℤ
desired-IsNearest p o = (λ h. ground arith, λ h. ground arith)

is_preserve-true : (m : PolicyMode) → (is_preserve m ≡ true) ↔ (m ≡ PolicyMode.preserve)
is_preserve-true PolicyMode.preserve = (λ _. refl, λ _. refl)
is_preserve-true PolicyMode.disable = (λ e. cc, λ e. cc)
is_preserve-true PolicyMode.set = (λ e. cc, λ e. cc)
is_preserve-true PolicyMode.adjust = (λ e. cc, λ e. cc)
is_preserve-true (PolicyMode.invalid n) = (λ e. cc, λ e. cc)

holds-true_iff {ℓ} : {P : Type ℓ} (d : Dec P) → (holds d ≡ true) ↔ P
holds-true_iff d = (holds-true d, holds_of d)

pub changes_brightness-IsBright :
    (p : SettingPolicy) (o : SettingObservation) → (changes_brightness p o ≡ false) ↔ IsBright p o
changes_brightness-IsBright p o =
    let k = is_preserve-true p.mode in
    let e = holds-true_iff (ℤ-discrete o.value (desired_brightness p o)) in
    let n = desired-IsNearest p o in
    (
      λ h. elim (Bool-cases (is_preserve p.mode)) [
        | inl m ↦ inl (k.0 m)
        | inr m ↦ elim (Bool-cases o.known) [
          | inr u ↦ inr (inl u)
          | inl u ↦ inr (inr (n.0 (e.0 (ground arith))))
        ]
      ],
      λ h. elim h [
        | inl m ↦ ground (arith, k.1 m)
        | inr (inl u) ↦ ground arith
        | inr (inr v) ↦ ground (arith, e.1 (n.1 v))
      ],
    )

-- A setting of the TV is what a policy in a mode asks for. To disable asks for no slideshow. To set
-- asks for an interval and a kind, whatever the category, or for none. To adjust leaves no slideshow
-- as it is, and asks of another for the interval and the kind that the policy names.
abbrev pub IsPlaying : PolicyMode → SlideshowSetting → SlideshowSetting → Type 0
IsPlaying PolicyMode.preserve c x = Unit
IsPlaying PolicyMode.disable c x = x.interval ≡ pos 0
IsPlaying PolicyMode.adjust c x =
    (x.interval ≡ pos 0)
    ⊎ (((c.interval ≤ℤ pos 0) ⊎ (x.interval ≡ c.interval))
        × ((no_kind c.kind ≡ true) ⊎ (x.kind ≡ c.kind)))
IsPlaying _ c x =
    ((x.interval ≡ pos 0) × (c.interval ≡ pos 0)) ⊎ ((x.interval ≡ c.interval) × (x.kind ≡ c.kind))

-- The TV does not report a setting that can be compared, or it is as asked for.
abbrev pub IsShowing : SlideshowPolicy → SlideshowObservation → Type 0
IsShowing p o =
    (o.known ≡ false) ⊎ ((setting_valid o.setting ≡ false) ⊎ IsPlaying p.mode p.setting o.setting)

setting_eq :
    (s t : SlideshowSetting)
    → s.interval ≡ t.interval
    → s.kind ≡ t.kind
    → s.category ≡ t.category
    → s ≡ t
setting_eq s t p q r = λ i. record { interval = p i; kind = q i; category = r i }

-- The settings do not differ.
abbrev IsSame : SlideshowSetting → SlideshowSetting → Type 0
IsSame x d = (x ≡ d) ⊎ ((x.interval ≡ pos 0) × (d.interval ≡ pos 0))

slideshow_differs-IsSame : (x d : SlideshowSetting) → (slideshow_differs x d ≡ false) ↔ IsSame x d
slideshow_differs-IsSame x d =
    let e = holds-true_iff (SlideshowSetting-discrete x d) in
    (
      λ h. elim (Bool-cases (holds (SlideshowSetting-discrete x d))) [
        | inl q ↦ inl (e.0 q)
        | inr q ↦ inr (ground arith)
      ],
      λ h. elim h [ inl q ↦ ground (arith, e.1 q) | inr q ↦ ground arith ],
    )

set_iff :
    (c x : SlideshowSetting)
    → IsSame x (record c { category = x.category }) ↔ IsPlaying PolicyMode.set c x
set_iff c x = (
  λ h. elim h [
    | inl q ↦
        inr (ap (λ (s : SlideshowSetting). s.interval) q, ap (λ (s : SlideshowSetting). s.kind) q)
    | inr q ↦ inl q
  ],
  λ h. elim h [
    | inl q ↦ inr q
    | inr q ↦ inl (setting_eq x (record c { category = x.category }) q.0 q.1 refl)
  ],
)

disable_iff :
    (c x : SlideshowSetting)
    → IsSame x (desired_slideshow (record { mode = PolicyMode.disable; setting = c }) x)
      ↔ IsPlaying PolicyMode.disable c x
unfolding desired_slideshow
disable_iff c x = (
  λ h. elim h [ inl q ↦ ap (λ (s : SlideshowSetting). s.interval) q ∙ off | inr q ↦ q.0 ],
  λ h. inr (h, off),
)
  where
    off : (desired_slideshow (record { mode = PolicyMode.disable; setting = c }) x).interval ≡ pos 0
    off = ground arith

interval_iff :
    (asked shown : ℤ)
    → (shown ≡ (if is_positive asked then asked else shown)) ↔ ((asked ≤ℤ pos 0) ⊎ (shown ≡ asked))
interval_iff asked shown = (λ h. ground arith, λ h. ground arith)

kind_iff {ℓ} :
    {A : Type ℓ} (b : Bool) (asked shown : A)
    → (shown ≡ (if b then shown else asked)) ↔ ((b ≡ true) ⊎ (shown ≡ asked))
kind_iff true asked shown = (λ h. inl refl, λ h. refl)
kind_iff false asked shown = (λ h. inr h, λ h. elim h [ inl q ↦ cc | inr q ↦ q ])

adjust_iff :
    (c x : SlideshowSetting)
    → IsSame x (adjusted_slideshow (record c { category = x.category }) x)
      ↔ IsPlaying PolicyMode.adjust c x
unfolding adjusted_slideshow
adjust_iff c x = elim (Bool-cases (is_zero x.interval)) [
  | inl z ↦ rw z (λ h. inl (ground arith), λ h. inl refl)
  | inr z ↦ rw z (
    λ h. elim h [
      | inl q ↦ inr (
        (interval_iff c.interval x.interval).0 (ap (λ (s : SlideshowSetting). s.interval) q),
        (kind_iff (no_kind c.kind) c.kind x.kind).0 (ap (λ (s : SlideshowSetting). s.kind) q),
      )
      | inr q ↦ inl q.0
    ],
    λ h. elim h [
      | inl q ↦ absurd (ground arith)
      | inr q ↦ inl (
          setting_eq x _ ((interval_iff c.interval x.interval).1 q.0)
            ((kind_iff (no_kind c.kind) c.kind x.kind).1 q.1) refl)
    ],
  )
]

desired_iff :
    (m : PolicyMode) (c x : SlideshowSetting)
    → m ≢ PolicyMode.preserve
    → IsSame x (desired_slideshow (record { mode = m; setting = c }) x) ↔ IsPlaying m c x
unfolding desired_slideshow
desired_iff PolicyMode.preserve c x n = absurd (n refl)
desired_iff PolicyMode.disable c x n = disable_iff c x
desired_iff PolicyMode.set c x n = set_iff c x
desired_iff PolicyMode.adjust c x n = adjust_iff c x
desired_iff (PolicyMode.invalid k) c x n = set_iff c x

preserved : (m : PolicyMode) (c x : SlideshowSetting) → m ≡ PolicyMode.preserve → IsPlaying m c x
preserved PolicyMode.preserve c x e = tt
preserved PolicyMode.disable c x e = cc
preserved PolicyMode.set c x e = cc
preserved PolicyMode.adjust c x e = cc
preserved (PolicyMode.invalid n) c x e = cc

pub changes_slideshow-IsShowing :
    (p : SlideshowPolicy) (o : SlideshowObservation)
    → (changes_slideshow p o ≡ false) ↔ IsShowing p o
changes_slideshow-IsShowing p o =
    let k = is_preserve-true p.mode in
    let e = slideshow_differs-IsSame o.setting (desired_slideshow p o.setting) in
    elim (Bool-cases (is_preserve p.mode)) [
      | inl m ↦ (λ h. inr (inr (preserved p.mode p.setting o.setting (k.0 m))), λ h. ground arith)
      | inr m ↦
          let d = desired_iff p.mode p.setting o.setting (λ q. true-ne-false (sym (k.1 q) ∙ m)) in
          (
            λ h. elim (Bool-cases o.known) [
              | inr u ↦ inl u
              | inl u ↦ elim (Bool-cases (setting_valid o.setting)) [
                | inr v ↦ inr (inl v)
                | inl v ↦ inr (inr (d.0 (e.0 (ground arith))))
              ]
            ],
            λ h. elim h [
              | inl u ↦ ground arith
              | inr (inl v) ↦ ground arith
              | inr (inr s) ↦ ground (arith, e.1 (d.1 s))
            ],
          )
    ]
  where
    true-ne-false : true ≢ false
    true-ne-false q = cc
