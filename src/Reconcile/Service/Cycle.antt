-- ===== src/Reconcile/Service/Cycle.antt =====
-- What a cycle never does, whatever the TV, the store and the clock answer.
use frame_tv_art_manager.Prelude.{
  All-of, Option, ◌∙◌, ap, sym, ◌≡◌, refl, true, false, List, [], ◌∷◌, Text, Bool, ◌⊎◌, inl, inr,
  All, ◌&&◌, ◌||◌, some, subst,
}
use frame_tv_art_manager.Samsung.Types.{Observation}
use frame_tv_art_manager.Reconcile.Types.{State, Plan, CommandIntent, CommandKind, Hashes}
use frame_tv_art_manager.Reconcile.Execution.{is_none}
use frame_tv_art_manager.Reconcile.Recovery.Parked.{is_artwork}
use frame_tv_art_manager.Reconcile.Service.{Err, converge, after, execution_input}
use frame_tv_art_manager.Reconcile.Loop.{Setup, Round, Loop, Attempt, is_kind, begin}
use frame_tv_art_manager.Reconcile.Service.Invariant.{converge-has}
use frame_tv_art_manager.Reconcile.Service.Hooks.{
  AnyRound, Survives, EndHas, Planned, tried_on, run_of,
}
use frame_tv_art_manager.Reconcile.Service.Replan.{replan-Source, restrict-IsOpen, IsOpen}

-- The attempt was of this kind, and the TV took it.
abbrev pub applies : CommandKind → Attempt → Bool
applies kind a = is_none a.run.done.error && is_kind a.input.intent.kind kind

abbrev pub Unapplied : CommandKind → List Attempt → Type 0
Unapplied kind log = All (λ a. applies kind a ≡ false) log

-- Of a log, the latest attempt first: after artwork was selected nothing is selected again, after the
-- TV was turned off nothing is tried, and while an upload is unresolved no artwork is changed.
abbrev pub IsOrderly : Bool → List Attempt → Type 0
IsOrderly unresolved [] = Unit
IsOrderly unresolved (a ∷ log) =
    ((is_kind a.input.intent.kind CommandKind.select ≡ false) ⊎ Unapplied CommandKind.select log)
    × Unapplied CommandKind.power_off log
    × ((unresolved ≡ false) ⊎ (is_artwork a.input.intent.kind ≡ false))
    × IsOrderly unresolved log

-- Either nothing was selected, or no selection is planned.
either {ℓ κ} :
    {A : Type ℓ} {B : Type κ} (selected : Bool)
    → (selected ≡ true) ⊎ B
    → (selected ≡ false) ⊎ A
    → A ⊎ B
either true h (inl e) = absurd (true-ne-false e)
  where
    true-ne-false : ¬ (true ≡ false)
    true-ne-false q = cc
either false (inl e) k = absurd (false-ne-true e)
  where
    false-ne-true : ¬ (false ≡ true)
    false-ne-true q = cc
either true h (inr a) = inl a
either false (inr b) k = inr b

and_false : (b : Bool) → (b && false) ≡ false
and_false true = refl
and_false false = refl

-- After an attempt that was applied, and after one that failed.
chosen {κ} :
    {B : Type κ} (selected taken k : Bool)
    → (selected ≡ true) ⊎ B
    → ((selected || k) ≡ true) ⊎ (((taken && k) ≡ false) × B)
chosen true taken k h = inl refl
chosen false taken true h = inl refl
chosen false taken false (inr b) = inr (and_false taken, b)
chosen false taken false (inl e) = inl e

not_taken :
    (error : Option Err) (e : Err) (k : Bool) → error ≡ some e → (is_none error && k) ≡ false
not_taken error e k h = rw h refl

unchosen {κ} :
    {B : Type κ} (selected : Bool) (t : Bool)
    → t ≡ false
    → (selected ≡ true) ⊎ B
    → (selected ≡ true) ⊎ ((t ≡ false) × B)
unchosen selected t e (inl s) = inl s
unchosen selected t e (inr b) = inr (e, b)

module _ (lower : Text → Text) (h : Hashes) (c : Setup) where
  record Going (l : Loop) : Type 0 where
    selects : (l.selected ≡ true) ⊎ Unapplied CommandKind.select l.log
    on : Unapplied CommandKind.power_off l.log
    orderly : IsOrderly c.unresolved l.log

  Planned-IsOpen :
      (r : Round) (l : Loop) (refreshed : Plan) (state : State) (command : CommandIntent)
      → Planned lower h c AnyRound r l refreshed state command
      → IsOpen l.selected c.unresolved command
  Planned-IsOpen r l refreshed state command p =
      let s =
        replan-Source lower h c l.selected r.observed l.state r.planned_at refreshed state
          p.planned in
      (subst (All (IsOpen l.selected c.unresolved))
        (sym (ap (λ q. q.commands) s.restricted) ∙ p.first)
        (restrict-IsOpen l.selected c.unresolved s.plan)).0

  tried-IsOrderly :
      (r : Round) (l : Loop) (refreshed : Plan) (state : State) (command : CommandIntent)
      → Going l
      → Planned lower h c AnyRound r l refreshed state command
      → IsOrderly c.unresolved (tried_on lower h c r l state command).log
  unfolding after execution_input
  tried-IsOrderly r l refreshed state command g p = (
    either l.selected g.selects (Planned-IsOpen r l refreshed state command p).0,
    g.on,
    (Planned-IsOpen r l refreshed state command p).1,
    g.orderly,
  )

  cycle-Survives :
      Survives lower h c AnyRound Going
        (λ l. IsOrderly c.unresolved l.log)
        (λ l. IsOrderly c.unresolved l.log)
  unfolding after execution_input
  cycle-Survives = record {
    leaving = λ l g. g.orderly;
    ending = λ l g. g.orderly;
    quiet = λ l plan state prune keeps g. record {
      selects = g.selects;
      on = g.on;
      orderly = g.orderly;
    };
    tried = tried-IsOrderly;
    applied_off =
        λ r l refreshed state command g p e k. tried-IsOrderly r l refreshed state command g p;
    applied_other = λ r l refreshed state command g p e k. record {
      selects =
          chosen l.selected (is_none (run_of lower h c r l state command).done.error)
            (is_kind command.kind CommandKind.select) g.selects;
      on = (rw k (and_false _), g.on);
      orderly = tried-IsOrderly r l refreshed state command g p;
    };
    retried = λ r l refreshed state command f g p e t m. record {
      selects = unchosen l.selected _ (not_taken _ f _ e) g.selects;
      on = (not_taken _ f _ e, g.on);
      orderly = tried-IsOrderly r l refreshed state command g p;
    };
    absorbed = λ r l refreshed state command f g p e t. record {
      selects = unchosen l.selected _ (not_taken _ f _ e) g.selects;
      on = (not_taken _ f _ e, g.on);
      orderly = tried-IsOrderly r l refreshed state command g p;
    };
  }

-- Whatever the world answers, and for however long: in one cycle nothing is selected once a
-- selection was applied, nothing is tried once the TV was turned off, and no artwork is changed
-- while the outcome of an upload is unresolved.
pub converge-IsOrderly :
    (lower : Text → Text) (h : Hashes) (c : Setup) (state : State) (o : Observation) (plan : Plan)
    (applied : List CommandKind) (rounds : List Round)
    → EndHas
        (λ l. IsOrderly c.unresolved l.log)
        (converge lower h c rounds (begin state o plan applied))
converge-IsOrderly lower h c state o plan applied rounds =
    converge-has lower h c AnyRound (Going lower h c) (λ l. IsOrderly c.unresolved l.log)
      (λ l. IsOrderly c.unresolved l.log) (cycle-Survives lower h c) rounds
      (begin state o plan applied) (All-of AnyRound (λ r. tt) rounds)
      (record { selects = inr tt; on = tt; orderly = tt })
