-- ===== src/Reconcile/Service/Complete.antt =====
-- A cycle is reported complete exactly when the store has it so.
use frame_tv_art_manager.Prelude.{
  contains, Text-discrete, ◌∙◌, if◌then◌else◌, ◌≡◌, refl, true, false, List, [], ◌∷◌, ℕ, Text, All,
  Option, none, some, if_cases, ◌⊎◌, inl, inr, arith, not,
}
use frame_tv_art_manager.Prelude.Dict.{
  Dict, Entries, lookup, has_key, delete, lookup-delete, delete_where,
}
use frame_tv_art_manager.Reconcile.Types.{State, Status}
use frame_tv_art_manager.Reconcile.Errors.{error_is, Err, status_for_error, Cause}
use frame_tv_art_manager.Reconcile.Rotation.{record_shown, retain_shown_history}
use frame_tv_art_manager.Reconcile.Validate.{state_valid}
use frame_tv_art_manager.Reconcile.Execution.{Event}
use frame_tv_art_manager.Reconcile.Loop.{Setup, Loop}
use frame_tv_art_manager.Reconcile.Service.Finish.{
  report, Finished, finish, save_complete, complete_state, prune_all, snapshot_digests,
}

-- A complete cycle: it is in the store, as a valid state with nothing pending, no digest that a plan of
-- the cycle pruned is bound, not even one that was bound again since, all others are bound as the loop
-- left them, and the shown history is that of the collection.
pub record IsComplete (c : Setup) (l : Loop) (f : Finished) : Type 0 where
  pub written : f.events ≡ Event.saved f.state true ∷ []
  pub status : f.status ≡ Status.complete
  pub valid : state_valid f.state f.state.tv ≡ true
  pub settled : f.state.pending ≡ none
  pub cycle : f.state.last_complete_cycle ≡ c.cycle_id
  pub generation : f.state.last_collection_gen ≡ c.snapshot.generation
  pub pruned : All (λ digest. lookup digest f.state.bindings ≡ none) l.prune
  pub kept :
      (k : Text)
      → (contains Text-discrete l.prune k ≡ true)
        ⊎ (lookup k f.state.bindings ≡ lookup k l.state.bindings)
  pub shown :
      Entries
        (λ digest at. has_key digest (snapshot_digests c.snapshot.items) ≡ true)
        f.state.last_shown
  pub proven : c.unresolved ≡ false
  pub roomy : l.plan.capacity_limited ≡ false

-- An incomplete one: it has an error, and at most one write, which returned one.
pub record IsIncomplete (f : Finished) : Type 0 where
  pub error : Err
  pub reported : f.error ≡ some error
  pub status : f.status ≡ status_for_error error
  pub unwritten : (f.events ≡ []) ⊎ (f.events ≡ Event.saved f.state false ∷ [])

-- One round of the loop.
abbrev pruned_one : Text → Dict (Unit {0}) → ℕ → State → State
pruned_one digest desired now s =
    let pruned = record s { bindings = delete digest s.bindings } in
    if has_key digest desired then record_shown pruned digest now else pruned

lookup-prune_all :
    (digests : List Text) (desired : Dict (Unit {0})) (now : ℕ) (s : State) (k : Text)
    → lookup k s.bindings ≡ none
    → lookup k (prune_all digests desired now s).bindings ≡ none
unfolding prune_all record_shown
lookup-prune_all [] desired now s k e = e
lookup-prune_all (digest ∷ rest) desired now s k e =
    lookup-prune_all rest desired now (pruned_one digest desired now s) k
      (ground (arith, lookup-delete digest k s.bindings))

prune_all-pending :
    (digests : List Text) (desired : Dict (Unit {0})) (now : ℕ) (s : State)
    → (prune_all digests desired now s).pending ≡ s.pending
unfolding prune_all record_shown
prune_all-pending [] desired now s = refl
prune_all-pending (digest ∷ rest) desired now s =
    prune_all-pending rest desired now (pruned_one digest desired now s)
    ∙ if_cases (λ (t : State). t.pending ≡ s.pending) (has_key digest desired) _ _ (λ _. refl)
        (λ _. refl)

prune_all-All :
    (digests : List Text) (desired : Dict (Unit {0})) (now : ℕ) (s : State)
    → All (λ k. lookup k (prune_all digests desired now s).bindings ≡ none) digests
unfolding prune_all record_shown
prune_all-All [] desired now s = tt
prune_all-All (digest ∷ rest) desired now s = (
  lookup-prune_all rest desired now (pruned_one digest desired now s) digest
      (ground (arith, lookup-delete digest digest s.bindings)),
  prune_all-All rest desired now (pruned_one digest desired now s),
)

prune_all-kept :
    (digests : List Text) (desired : Dict (Unit {0})) (now : ℕ) (s : State) (k : Text)
    → (contains Text-discrete digests k ≡ true)
      ⊎ (lookup k (prune_all digests desired now s).bindings ≡ lookup k s.bindings)
unfolding prune_all record_shown contains
prune_all-kept [] desired now s k = inr refl
prune_all-kept (digest ∷ rest) desired now s k =
    elim (prune_all-kept rest desired now (pruned_one digest desired now s) k) [
      | inl e ↦ inl (ground arith)
      | inr e ↦ elim (Text-discrete digest k) [
        | yes q ↦ inl (ground arith)
        | no n ↦ inr (e ∙ ground (arith, lookup-delete digest k s.bindings))
      ]
    ]

retained :
    (desired : Dict (Unit {0})) (m : Dict ℕ)
    → Entries
        (λ k at. has_key k desired ≡ true)
        (delete_where (λ digest at. not (has_key digest desired)) m)
unfolding delete_where
retained desired [] = tt
retained desired ((k, at) ∷ m) = ground (arith, retained desired m)

-- The outcome of a cycle whose loop has ended.
abbrev pub Outcome : Setup → Loop → Finished → Type 0
Outcome c l f = ((f.error ≡ none) × IsComplete c l f) ⊎ IsIncomplete f

reported-Outcome :
    (c : Setup) (l : Loop) (s : State) (e : Err)
    → Outcome c l (report (status_for_error e) s (some e))
reported-Outcome c l s e =
    inr (record { error = e; reported = refl; status = refl; unwritten = inl refl })

module _ (c : Setup) (l : Loop) (now : ℕ) where
  abbrev final : State
  final = complete_state c l now

  saved-Outcome :
      (answer : Option Err)
      → c.unresolved ≡ false
      → l.plan.capacity_limited ≡ false
      → state_valid final final.tv ≡ true
      → Outcome c l (save_complete final answer)
  unfolding save_complete complete_state retain_shown_history
  saved-Outcome none u p v = inl (
    refl,
    record {
      written = refl;
      status = refl;
      valid = v;
      settled = prune_all-pending l.prune _ now _;
      cycle = refl;
      generation = refl;
      pruned = prune_all-All l.prune _ now _;
      kept = prune_all-kept l.prune _ now _;
      shown = retained _ _;
      proven = u;
      roomy = p;
    },
  )
  saved-Outcome (some e) u p v =
      inr (record { error = e; reported = refl; status = refl; unwritten = inr refl })

  -- The run reports a complete cycle, with no error, only when the store has the cycle as a valid
  -- state with nothing pending, without a binding of any digest that a plan of the cycle pruned, even
  -- one that was bound again since, and with every other binding of the loop's end, with a shown
  -- history of the collection's artwork alone, and only with no upload unresolved and no artwork left
  -- out for want of room. Otherwise it returns an error and the status of that error, and made at most
  -- one write, which returned an error.
  pub finish-Outcome : (answer : Option Err) → Outcome c l (finish c l now answer)
  unfolding finish status_for_error error_is
  finish-Outcome answer =
      if_cases (Outcome c l) c.unresolved _ _
        (λ u. reported-Outcome c l _ (Cause.recovery_required ∷ []))
        (λ u.
          if_cases (Outcome c l) l.plan.capacity_limited _ _
            (λ p. reported-Outcome c l _ (Cause.storage_full ∷ []))
            (λ p.
              if_cases (Outcome c l) (state_valid final final.tv) _ _
                (λ v. saved-Outcome answer u p v)
                (λ v. reported-Outcome c l final (Cause.plain ∷ []))))
