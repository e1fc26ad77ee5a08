-- ===== src/Reconcile/Plan/Empty.antt =====
-- internal/reconcile/planner.go: when each phase of a plan sends no command.
use frame_tv_art_manager.Prelude.{
  ℕ, ◌≡◌, ◌≢◌, ◌↔◌, ◌⊎◌, inl, inr, refl, ap, ◌∙◌, Text, Bool, true, false, not, ◌&&◌, ◌==◌, List,
  [], ◌∷◌, ◌++◌, map, All, length, arith, Bool-cases, if◌then◌else◌,
}
use frame_tv_art_manager.Prelude.Dict.{Dict, Entries, lookup, has_key}
use frame_tv_art_manager.Samsung.Types.{SlideshowObservation, SettingObservation}
use frame_tv_art_manager.Collection.Types.{Item}
use frame_tv_art_manager.Reconcile.Types.{
  State, Policy, PowerPolicy, Binding, SlideshowPolicy, SettingPolicy,
}
use frame_tv_art_manager.Reconcile.Rotation.{WaitingArtwork, RotationSwap}
use frame_tv_art_manager.Reconcile.Planner.{
  classify, waiting_items, is_bound_on_tv, on_tv, delete_obsolete, delete_unknown_intents,
  upload_intent, swap_intents, slideshow_intents, changes_slideshow, brightness_intents,
  changes_brightness, power_intents,
}

-- Empty lists.
pub cons-ne-nil {ℓ} : {A : Type ℓ} (a : A) (l : List A) → (a ∷ l) ≢ []
cons-ne-nil a l q = cc

append-nil-parts {ℓ} : {A : Type ℓ} (xs ys : List A) → xs ++ ys ≡ [] → (xs ≡ []) × (ys ≡ [])
append-nil-parts [] ys e = (refl, e)
append-nil-parts (x ∷ xs) ys e = absurd (cons-ne-nil x (xs ++ ys) e)

pub nil_of_length {ℓ} : {A : Type ℓ} (xs : List A) → length xs ≡ 0 → xs ≡ []
nil_of_length [] e = refl
nil_of_length (x ∷ xs) e = absurd (omega arith)

nil_of_map {ℓ κ} : {A : Type ℓ} {B : Type κ} (f : A → B) (xs : List A) → map f xs ≡ [] → xs ≡ []
nil_of_map f [] e = refl
nil_of_map f (x ∷ xs) e = absurd (cons-ne-nil _ _ e)

-- A loop that keeps what fails a test.
kept-nil {ℓ κ} :
    {A : Type ℓ} {Q : Type κ} (b : Bool) (x : A) (r : List A)
    → (r ≡ []) ↔ Q
    → ((if b then r else x ∷ r) ≡ []) ↔ ((b ≡ true) × Q)
kept-nil true x r h = (λ e. (refl, h.0 e), λ k. h.1 k.1)
kept-nil false x r h = (λ e. absurd (cons-ne-nil x r e), λ k. absurd (ground arith))

module _ (ids : List Text) where
  -- Nothing on the TV is obsolete exactly when all bound artwork on it is wanted.
  pub obsolete-nil :
      (wanted : Dict Item) (m : Dict Binding)
      → ((classify ids wanted m).obsolete ≡ [])
        ↔ Entries (λ k b. (on_tv ids b.content_id ≡ false) ⊎ (has_key k wanted ≡ true)) m
  unfolding classify
  obsolete-nil wanted [] = (λ _. tt, λ _. refl)
  obsolete-nil wanted ((k, b) ∷ m) = elim (Bool-cases (on_tv ids b.content_id)) [
    | inl on ↦ elim (Bool-cases (has_key k wanted)) [
      | inl want ↦
          rw (on, want)
            (λ e. (inr refl, (obsolete-nil wanted m).0 e), λ h. (obsolete-nil wanted m).1 h.1)
      | inr other ↦ rw (on, other) (λ e. absurd (cons-ne-nil b _ e), λ h. absurd (unwanted h.0))
    ]
    | inr away ↦
        rw away (λ e. (inl refl, (obsolete-nil wanted m).0 e), λ h. (obsolete-nil wanted m).1 h.1)
  ]
    where
      unwanted : ¬ ((true ≡ false) ⊎ (false ≡ true))
      unwanted (inl q) = cc
      unwanted (inr q) = cc

  -- Nothing waits exactly when all wanted artwork is on the TV.
  pub waiting-nil :
      (s : State) (wanted : Dict Item)
      → (waiting_items ids s wanted ≡ [])
        ↔ Entries (λ k item. is_bound_on_tv ids (lookup k s.bindings) ≡ true) wanted
  unfolding waiting_items
  waiting-nil s [] = (λ _. tt, λ _. refl)
  waiting-nil s ((k, item) ∷ m) =
      kept-nil (is_bound_on_tv ids (lookup k s.bindings)) _ _ (waiting-nil s m)

  unknown-nil :
      (bound : Dict Text) (xs : List Text)
      → (delete_unknown_intents bound xs ≡ []) ↔ All (λ id. has_key id bound ≡ true) xs
  unfolding delete_unknown_intents
  unknown-nil bound [] = (λ _. tt, λ _. refl)
  unknown-nil bound (id ∷ xs) = kept-nil (has_key id bound) _ _ (unknown-nil bound xs)

pub deleted-nil :
    (allow_empty : Bool) (bound remaining : ℕ) (xs : List Binding)
    → (not allow_empty && bound == 0) ≡ false
    → (delete_obsolete allow_empty bound remaining xs ≡ []) ↔ (xs ≡ [])
unfolding delete_obsolete
deleted-nil allow_empty bound remaining [] h = (λ _. refl, λ _. refl)
deleted-nil allow_empty bound remaining (x ∷ xs) h =
    (λ e. absurd (ground arith), λ e. absurd (cons-ne-nil x xs e))

module _ (policy : Policy) (overrides : Dict Text) where
  pub uploads-nil :
      (ws : List WaitingArtwork) → (map (upload_intent policy overrides) ws ≡ []) ↔ (length ws ≡ 0)
  uploads-nil [] = (λ _. refl, λ _. refl)
  uploads-nil (w ∷ ws) = (λ e. absurd (cons-ne-nil _ _ e), λ e. absurd (omega arith))

  pub swaps-nil :
      (xs : List RotationSwap) → (swap_intents policy overrides xs ≡ []) ↔ (length xs ≡ 0)
  unfolding swap_intents
  swaps-nil [] = (λ _. refl, λ _. refl)
  swaps-nil (x ∷ xs) = (λ e. absurd (cons-ne-nil _ _ e), λ e. absurd (omega arith))

if-nil {ℓ} : {A : Type ℓ} (b : Bool) (x : A) → ((if b then x ∷ [] else []) ≡ []) ↔ (b ≡ false)
if-nil true x = (λ e. absurd (cons-ne-nil _ _ e), λ e. absurd (ground arith))
if-nil false x = (λ _. refl, λ _. refl)

pub slideshow-nil :
    (p : SlideshowPolicy) (o : SlideshowObservation)
    → (slideshow_intents p o ≡ []) ↔ (changes_slideshow p o ≡ false)
unfolding slideshow_intents
slideshow-nil p o = if-nil (changes_slideshow p o) _

pub brightness-nil :
    (p : SettingPolicy) (o : SettingObservation)
    → (brightness_intents p o ≡ []) ↔ (changes_brightness p o ≡ false)
unfolding brightness_intents
brightness-nil p o = if-nil (changes_brightness p o) _

pub power-nil : (p : PowerPolicy) → (power_intents p ≡ []) ↔ (p ≢ PowerPolicy.off)
unfolding power_intents
power-nil PowerPolicy.off = (λ e. absurd (cons-ne-nil _ _ e), λ h. absurd (h refl))
power-nil PowerPolicy.on = (λ _ q. cc, λ _. refl)
power-nil PowerPolicy.preserve = (λ _ q. cc, λ _. refl)
power-nil (PowerPolicy.invalid n) = (λ _ q. cc, λ _. refl)

append-nil {ℓ} : {A : Type ℓ} (xs ys : List A) → (xs ++ ys ≡ []) ↔ ((xs ≡ []) × (ys ≡ []))
append-nil xs ys = (append-nil-parts xs ys, λ h. ap (◌++ ys) h.0 ∙ h.1)

pub if-off {ℓ} : {A : Type ℓ} (b : Bool) (xs : List A) → b ≡ false → (if b then xs else []) ≡ []
if-off true xs e = absurd (ground arith)
if-off false xs e = refl

-- Lists in a row, of which the fifth is empty.
pub parts-nil {ℓ} :
    {A : Type ℓ} {e : List A}
    → e ≡ []
    → (a b c d f g h : List A)
    → (a ++ (b ++ (c ++ (d ++ (e ++ (f ++ (g ++ h)))))) ≡ [])
      ↔ ((a ≡ []) × (b ≡ []) × (c ≡ []) × (d ≡ []) × (f ≡ []) × (g ≡ []) × (h ≡ []))
parts-nil {e = e} q a b c d f g h = ground (
  arith,
  append-nil a (b ++ (c ++ (d ++ (e ++ (f ++ (g ++ h)))))),
  append-nil b (c ++ (d ++ (e ++ (f ++ (g ++ h))))),
  append-nil c (d ++ (e ++ (f ++ (g ++ h)))),
  append-nil d (e ++ (f ++ (g ++ h))),
  append-nil e (f ++ (g ++ h)),
  append-nil f (g ++ h),
  append-nil g h,
)

-- Lists in a row, of which only the fifth is not empty.
pub fifth-eq {ℓ} :
    {A : Type ℓ} {a b c d e f g h : List A}
    → a ≡ []
    → b ≡ []
    → c ≡ []
    → d ≡ []
    → f ≡ []
    → g ≡ []
    → h ≡ []
    → a ++ (b ++ (c ++ (d ++ (e ++ (f ++ (g ++ h)))))) ≡ e
fifth-eq {e = e} p q r s t u v = rw (p, q, r, s, t, u, v) (mathlib.Core.List.append-nil e)

-- Unknown artwork is left alone, or there is none.
pub approved-nil :
    (b : Bool) (bound : Dict Text) (ids : List Text)
    → ((if b then delete_unknown_intents bound ids else []) ≡ [])
      ↔ ((b ≡ false) ⊎ All (λ id. has_key id bound ≡ true) ids)
approved-nil true bound ids = (
  λ e. inr ((unknown-nil ids bound ids).0 e),
  λ h. elim h [ inl q ↦ absurd (ground arith) | inr k ↦ (unknown-nil ids bound ids).1 k ],
)
approved-nil false bound ids = (λ _. inl refl, λ _. refl)
