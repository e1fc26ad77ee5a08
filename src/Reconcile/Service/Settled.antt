-- ===== src/Reconcile/Service/Settled.antt =====
-- internal/reconcile/service.go: the loop of a run ends when the TV shows what was asked for.
use frame_tv_art_manager.Prelude.{
  Text, ℕ, Bool, true, false, List, [], ◌∷◌, none, All, All-and, All-imp, ◌≡◌, refl, ◌⊎◌, inl, inr,
  sym, ◌∙◌, subst, if_cases, Option-cases, text_compare, arith,
}
use frame_tv_art_manager.Prelude.Dict.{Dict, lookup, keys}
use frame_tv_art_manager.Prelude.Sort.{sort_func}
use frame_tv_art_manager.Samsung.Types.{Observation}
use frame_tv_art_manager.Collection.Types.{Snapshot}
use frame_tv_art_manager.Reconcile.Types.{
  State, Policy, Plan, Status, CommandIntent, CommandKind, CommandKind-discrete, Hashes,
  CapacityEvidence,
}
use frame_tv_art_manager.Reconcile.Errors.{Result, ok, err}
use frame_tv_art_manager.Reconcile.Inputs.{normalize_policy}
use frame_tv_art_manager.Reconcile.Planner.{select_intent, select_binding, select_content, on_tv}
use frame_tv_art_manager.Reconcile.Probe.{build_probed_plan}
use frame_tv_art_manager.Reconcile.Probe.Planned.{build_probed_plan-IsFor}
use frame_tv_art_manager.Reconcile.Plan.Built.{plan_snapshot-Passed}
use frame_tv_art_manager.Reconcile.Plan.{plan_commands, desired}
use frame_tv_art_manager.Reconcile.Plan.Empty.{cons-ne-nil}
use frame_tv_art_manager.Reconcile.Plan.Settled.{IsSettled, IsSettled-commands}
use frame_tv_art_manager.Reconcile.Loop.{Setup, Round, Loop, is_kind, is_eligible, add_all}
use frame_tv_art_manager.Reconcile.Service.{
  replan, choose, refresh, observe, pass, converge_on, after_pass, converge, End,
}
use frame_tv_art_manager.Reconcile.Service.Replan.{All-restrict, restrict-IsOpen, replan-Source}

abbrev IsSelect : CommandIntent → Type 0
IsSelect i = is_kind i.kind CommandKind.select ≡ true

select_intent-AreSelect :
    (ids : List Text) (s : State) (ds : List Text) → All IsSelect (select_intent ids s ds)
unfolding select_intent select_binding CommandKind-discrete
select_intent-AreSelect ids s [] = tt
select_intent-AreSelect ids s (d ∷ ds) = elim (Option-cases (lookup d s.bindings)) [
  | inl e ↦ rw e (select_intent-AreSelect ids s ds)
  | inr (b, e) ↦ rw e (
      if_cases (All IsSelect) (on_tv ids b.content_id) (select_content b.content_id ∷ [])
        (select_intent ids s ds) (λ _. (refl, tt)) (λ _. select_intent-AreSelect ids s ds))
]

-- The commands of a plan for a TV that shows what was asked for only select, if the policy does.
commands-AreSelect :
    (snapshot : Snapshot) (o : Observation) (s : State) (policy : Policy) (overrides : Dict Text)
    → IsSettled snapshot o s policy
    → All (λ i. (policy.select ≡ true) × IsSelect i) (plan_commands snapshot o s policy overrides)
commands-AreSelect snapshot o s policy overrides k =
    rw (IsSettled-commands snapshot o s policy overrides k) (
      if_cases (All (λ i. (policy.select ≡ true) × IsSelect i)) policy.select
        (select_intent o.inventory.content_ids s
          (sort_func text_compare (keys (desired snapshot o s policy))))
        [] (λ e. All-imp _ _ (λ i q. (e, q)) _ (select_intent-AreSelect _ s _)) (λ _. tt))

normalize_policy-select : (p : Policy) → (normalize_policy p).select ≡ p.select
unfolding normalize_policy
normalize_policy-select p = ground arith

none-left : (xs : List CommandIntent) → All (λ _. ⊥) xs → xs ≡ []
none-left [] h = refl
none-left (x ∷ xs) h = absurd h.0

-- A new plan changes the state in its capacity evidence, which the TV need not show.
IsSettled-capacity :
    (snapshot : Snapshot) (o : Observation) (s : State) (policy : Policy) (e : CapacityEvidence)
    → IsSettled snapshot o s policy
    → IsSettled snapshot o (record s { capacity = e }) policy
IsSettled-capacity snapshot o s policy e k = record {
  present = k.present;
  wanted = k.wanted;
  known = k.known;
  slideshow = k.slideshow;
  brightness = k.brightness;
  power = k.power;
}

module _ (lower : Text → Text) (h : Hashes) (c : Setup) where
  -- The TV shows what a plan of the run can bring about, but for a piece to be selected.
  abbrev pub Shown : Observation → State → Type 0
  Shown o s = IsSettled c.snapshot o s (normalize_policy c.policy)

  -- The policy selects no piece, or the run has done so.
  abbrev pub HasSelected : Bool → Type 0
  HasSelected selected = (c.policy.select ≡ false) ⊎ (selected ≡ true)

  planned-AreSelect :
      (o : Observation) (s : State) (now : ℕ) (plan : Plan) (state : State)
      → build_probed_plan lower h c.snapshot o c.policy s now c.capacity_ttl ≡ ok (plan, state)
      → Shown o s
      → All (λ i. (c.policy.select ≡ true) × IsSelect i) plan.commands
  planned-AreSelect o s now plan state e k =
      let f =
        build_probed_plan-IsFor lower h c.snapshot o c.policy s now c.capacity_ttl plan state e in
      let p = plan_snapshot-Passed lower h c.snapshot o state c.policy plan f.planned in
      rw p.commands_eq (
        All-imp _ _ (λ i q. (sym (normalize_policy-select c.policy) ∙ q.0, q.1)) _
          (commands-AreSelect c.snapshot o state (normalize_policy c.policy) _ (
            subst (Shown o) (sym f.state_eq)
              (IsSettled-capacity c.snapshot o s (normalize_policy c.policy) f.capacity k))))

  neither :
      (selected : Bool) (i : CommandIntent)
      → HasSelected selected
      → (c.policy.select ≡ true) × IsSelect i
      → (selected ≡ false) ⊎ (is_kind i.kind CommandKind.select ≡ false)
      → ⊥
  neither selected i (inl e) q g = absurd (ground arith)
  neither selected i (inr e) q (inl f) = absurd (ground arith)
  neither selected i (inr e) q (inr f) = absurd (ground arith)

  -- The fresh plan has no command left.
  replan-nil :
      (selected : Bool) (o : Observation) (s : State) (now : ℕ) (refreshed : Plan) (state : State)
      → HasSelected selected
      → Shown o s
      → replan lower h c selected o s now ≡ ok (refreshed, state)
      → refreshed.commands ≡ []
  replan-nil selected o s now refreshed state a k e =
      let q = replan-Source lower h c selected o s now refreshed state e in
      rw q.restricted (
        none-left _ (
          All-imp _ _ (λ i p. neither selected i a p.0 p.1.0) _
            (All-and _ _ _
              (All-restrict _ selected c.unresolved q.plan
                (planned-AreSelect o s now q.plan state q.built k))
              (restrict-IsOpen selected c.unresolved q.plan))))

  module _ (r : Round) (l : Loop) where
    -- The loop is over: nothing was tried, and either nothing is left of the plan or the
    -- observation of the round gives no plan.
    abbrev pub IsOver : End → Type 0
    IsOver (End.waiting k) = ⊥
    IsOver (End.ended k) = (k.log ≡ l.log) × (k.state ≡ l.state) × (k.plan.commands ≡ [])
    IsOver (End.failed_with k status e) =
        (k ≡ l)
        × (status ≡ Status.complete)
        × (replan lower h c l.selected r.observed l.state r.planned_at ≡ err e)
    IsOver (End.panicked k) = ⊥

    choose-IsOver :
        (go : Loop → End) (candidate : CommandIntent) (plan : Plan) (state : State)
        (prune : List Text) (commands : List CommandIntent)
        → commands ≡ []
        → plan.commands ≡ []
        → IsOver (
            after_pass go
              (choose lower h c r (record l { prune = prune }) candidate plan state commands))
    unfolding choose after_pass
    choose-IsOver go candidate plan state prune [] e p = (refl, refl, p)
    choose-IsOver go candidate plan state prune (i ∷ commands) e p = absurd (cons-ne-nil _ _ e)

    refresh-IsOver :
        (go : Loop → End) (candidate : CommandIntent) (planned : Result (Plan × State))
        → HasSelected l.selected
        → Shown r.observed l.state
        → replan lower h c l.selected r.observed l.state r.planned_at ≡ planned
        → IsOver (after_pass go (refresh lower h c r l candidate planned))
    unfolding refresh after_pass
    refresh-IsOver go candidate (err e) a k q = (refl, refl, q)
    refresh-IsOver go candidate (ok (plan, state)) a k q =
        let nil = replan-nil l.selected r.observed l.state r.planned_at plan state a k q in
        choose-IsOver go candidate plan state (add_all l.prune plan.prune_bindings) plan.commands
          nil nil

    -- Where the policy selects no piece, or the loop has selected one: a round that observes, without
    -- an error, an eligible TV which shows what was asked for is the last one. No more is tried,
    -- whatever else the world would answer, and the loop does not wait: it ends on the same state
    -- with nothing left of the plan, or with the error for which the observation gives no plan.
    pub converge-IsOver :
        (rounds : List Round)
        → HasSelected l.selected
        → r.observe_error ≡ none
        → is_eligible r.observed ≡ true
        → Shown r.observed l.state
        → IsOver (converge lower h c (r ∷ rounds) l)
    unfolding converge converge_on pass observe
    converge-IsOver rounds a n e k = tested l.plan.commands refl
      where
        tested :
            (commands : List CommandIntent)
            → l.plan.commands ≡ commands
            → IsOver (
                converge_on lower h c commands l (λ candidate.
                  after_pass (converge lower h c rounds) (pass lower h c r l candidate)))
        tested [] p = (refl, refl, p)
        tested (i ∷ commands) p =
            rw (n, e)
              (refresh-IsOver (converge lower h c rounds) i
                (replan lower h c l.selected r.observed l.state r.planned_at) a k refl)
