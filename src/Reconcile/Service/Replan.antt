-- ===== src/Reconcile/Service/Replan.antt =====
-- What `replan` gives: a plan of `buildPlan`, less the commands that this cycle must not try.
use frame_tv_art_manager.Reconcile.Recovery.Proof.{artwork_commands_blocked_eq}
use frame_tv_art_manager.Prelude.{
  All-delete_func, All-imp, All-and, All-of, delete_func, Bool-cases, inl, inr, ◌≡◌, refl, true,
  false, arith, List, [], ◌∷◌, ℕ, Text, Bool, ◌⊎◌, All,
}
use frame_tv_art_manager.Samsung.Types.{Observation}
use frame_tv_art_manager.Reconcile.Types.{State, Plan, CommandIntent, CommandKind, Hashes}
use frame_tv_art_manager.Reconcile.Errors.{err-ne-ok, Result, ok, err, ◌>>=◌}
use frame_tv_art_manager.Reconcile.Probe.Planned.{build_probed_plan-IsFor}
use frame_tv_art_manager.Reconcile.Probe.{build_probed_plan}
use frame_tv_art_manager.Reconcile.Recovery.Parked.{
  without_command, artwork_commands_blocked, is_artwork,
}
use frame_tv_art_manager.Reconcile.Service.{replan}
use frame_tv_art_manager.Reconcile.Loop.{Setup, restrict, is_kind}

-- The plan behind a fresh plan.
pub record Source (lower : Text → Text) (h : Hashes) (c : Setup) (selected : Bool) (o : Observation)
    (s : State) (now : ℕ) (refreshed : Plan) (state : State) : Type 0 where
  pub plan : Plan
  pub built :
      build_probed_plan lower h c.snapshot o c.policy s now c.capacity_ttl ≡ ok (plan, state)
  pub restricted : refreshed ≡ restrict selected c.unresolved plan

source_of :
    {lower : Text → Text} {h : Hashes} {c : Setup} {selected : Bool} {o : Observation} {s : State}
    {now : ℕ} {refreshed : Plan} {state : State} (built : Result (Plan × State))
    → build_probed_plan lower h c.snapshot o c.policy s now c.capacity_ttl ≡ built
    → ◌>>=◌ {B = Plan × State} built
        (λ planned. ok (restrict selected c.unresolved planned.0, planned.1))
      ≡ ok (refreshed, state)
    → Source lower h c selected o s now refreshed state
source_of (err f) b q = absurd (err-ne-ok f _ q)
source_of (ok planned) b q = record {
  plan = planned.0;
  built = rw b (ground arith);
  restricted = ground arith;
}

pub replan-Source :
    (lower : Text → Text) (h : Hashes) (c : Setup) (selected : Bool) (o : Observation) (s : State)
    (now : ℕ) (refreshed : Plan) (state : State)
    → replan lower h c selected o s now ≡ ok (refreshed, state)
    → Source lower h c selected o s now refreshed state
unfolding replan
replan-Source lower h c selected o s now refreshed state e =
    source_of (build_probed_plan lower h c.snapshot o c.policy s now c.capacity_ttl) refl e

All-blocked :
    (P : CommandIntent → Type 0) (commands : List CommandIntent)
    → All P commands
    → All P (artwork_commands_blocked commands)
All-blocked P commands h =
    rw artwork_commands_blocked_eq (All-delete_func P (λ i. is_artwork i.kind) commands h)

delete_func-All {ℓ} :
    {A : Type ℓ} (p : A → Bool) (xs : List A) → All (λ a. p a ≡ false) (delete_func p xs)
unfolding delete_func
delete_func-All p [] = tt
delete_func-All p (x ∷ xs) = elim (Bool-cases (p x)) [
  | inl e ↦ rw e (delete_func-All p xs)
  | inr e ↦ rw e (e, delete_func-All p xs)
]

blocked-All :
    (commands : List CommandIntent)
    → All (λ i. is_artwork i.kind ≡ false) (artwork_commands_blocked commands)
blocked-All commands =
    rw artwork_commands_blocked_eq (delete_func-All (λ i. is_artwork i.kind) commands)

without_command-All :
    (kind : CommandKind) (commands : List CommandIntent)
    → All (λ i. is_kind i.kind kind ≡ false) (without_command commands kind)
unfolding without_command
without_command-All kind commands = delete_func-All (λ i. is_kind i.kind kind) commands

-- Every command of the plan that is left was in the plan.
pub All-restrict :
    (P : CommandIntent → Type 0) (selected unresolved : Bool) (plan : Plan)
    → All P plan.commands
    → All P (restrict selected unresolved plan).commands
unfolding restrict without_command
All-restrict P false false plan h = h
All-restrict P true false plan h = All-delete_func P _ plan.commands h
All-restrict P false true plan h = All-blocked P plan.commands h
All-restrict P true true plan h =
    All-blocked P (without_command plan.commands CommandKind.select)
      (All-delete_func P _ plan.commands h)

-- What a command must not be, after a selection and while an upload is unresolved.
abbrev pub IsOpen : Bool → Bool → CommandIntent → Type 0
IsOpen selected unresolved i =
    ((selected ≡ false) ⊎ (is_kind i.kind CommandKind.select ≡ false))
    × ((unresolved ≡ false) ⊎ (is_artwork i.kind ≡ false))

pub restrict-IsOpen :
    (selected unresolved : Bool) (plan : Plan)
    → All (IsOpen selected unresolved) (restrict selected unresolved plan).commands
unfolding restrict
restrict-IsOpen false false plan = All-of _ (λ i. (inl refl, inl refl)) plan.commands
restrict-IsOpen true false plan =
    All-imp _ _ (λ i e. (inr e, inl refl)) _ (without_command-All CommandKind.select plan.commands)
restrict-IsOpen false true plan =
    All-imp _ _ (λ i e. (inl refl, inr e)) _ (blocked-All plan.commands)
restrict-IsOpen true true plan =
    All-and _ _ _
      (All-imp _ _ (λ i e. inr e) _
        (All-blocked _ _ (without_command-All CommandKind.select plan.commands)))
      (All-imp _ _ (λ i e. inr e) _ (blocked-All _))

-- A new plan changes the state in its capacity evidence only.
abbrev pub KeepsState : State → State → Type 0
KeepsState s state = state ≡ record s { capacity = state.capacity }

pub replan-KeepsState :
    (lower : Text → Text) (h : Hashes) (c : Setup) (selected : Bool) (o : Observation) (s : State)
    (now : ℕ) (refreshed : Plan) (state : State)
    → replan lower h c selected o s now ≡ ok (refreshed, state)
    → KeepsState s state
replan-KeepsState lower h c selected o s now refreshed state e =
    let q = replan-Source lower h c selected o s now refreshed state e in
    let f =
      build_probed_plan-IsFor lower h c.snapshot o c.policy s now c.capacity_ttl q.plan state
        q.built in
    rw (f.state_eq) refl
