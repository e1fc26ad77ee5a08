-- ===== src/Reconcile/Service/Recover/Settles.antt =====
-- What a recovery leaves: its state is the one in the store, and nothing is pending in it.
use frame_tv_art_manager.Prelude.{
  ◌≡◌, refl, subst, ◌∙◌, true, false, List, [], ◌∷◌, ◌++◌, ℕ, All, All-append, Bool, Option, none,
  some, if_cases, ◌⊎◌, inl, inr, arith,
}
use frame_tv_art_manager.Samsung.Types.{Observation}
use frame_tv_art_manager.Reconcile.Types.{State, Pending}
use frame_tv_art_manager.Reconcile.Errors.{Result, ok, err, Err, Cause}
use frame_tv_art_manager.Reconcile.Validate.{state_valid}
use frame_tv_art_manager.Reconcile.Recovery.{resolve_pending, fold_upload_binding}
use frame_tv_art_manager.Reconcile.Recovery.Parked.{
  parkable_upload, parked_state, resolve_unresolved_upload, resolve_parked?, resolve_parked,
}
use frame_tv_art_manager.Reconcile.Execution.{Event, Run, save, return, bump}
use frame_tv_art_manager.Reconcile.Execution.Accounts.{durable, IsSave}
use frame_tv_art_manager.Reconcile.Execution.Keys.{IsMap, ResultIsMap, resolve_pending-IsMap}
use frame_tv_art_manager.Reconcile.Service.Recover.{
  RecoverAnswers, resolve_with, resolve_recovery, park_upload, settle_with, settle_unresolved,
  after_error, and_then, park_on, resolve_or_park, recover_from, recover,
}

durable-append : (s : State) (xs ys : List Event) → durable s (xs ++ ys) ≡ durable (durable s xs) ys
unfolding durable
durable-append s [] ys = refl
durable-append s (Event.saved t true ∷ xs) ys = durable-append t xs ys
durable-append s (Event.saved t false ∷ xs) ys = durable-append s xs ys
durable-append s (Event.sent c ∷ xs) ys = durable-append s xs ys
durable-append s (Event.panicked ∷ xs) ys = durable-append s xs ys

-- Nothing is sent; a dry run writes nothing, and any other leaves in the store the state that it
-- returns without an error, in which nothing is pending.
abbrev pub HasEnded : Bool → State → Option Err → State → Type 0
HasEnded dry_run held none s = (s.pending ≡ none) × ((dry_run ≡ true) ⊎ (held ≡ s))
HasEnded dry_run held (some e) s = Unit

abbrev WritesNothing : Bool → List Event → Type 0
WritesNothing true events = events ≡ []
WritesNothing false events = Unit

pub record IsRecovered (dry_run : Bool) (s : State) (r : Run) : Type 0 where
  pub saves : All IsSave r.events
  pub unwritten : WritesNothing dry_run r.events
  pub ended : HasEnded dry_run (durable s r.events) r.done.error r.done.state

module _ (o : Observation) where
  returned :
      (dry_run : Bool) (s r : State)
      → r.pending ≡ none
      → (dry_run ≡ true) ⊎ (s ≡ r)
      → IsRecovered dry_run s (return r o none)
  unfolding durable
  returned true s r p e = record { saves = tt; unwritten = refl; ended = (p, e) }
  returned false s r p e = record { saves = tt; unwritten = tt; ended = (p, e) }

  failing : (dry_run : Bool) (s r : State) (e : Err) → IsRecovered dry_run s (return r o (some e))
  unfolding durable
  failing true s r e = record { saves = tt; unwritten = refl; ended = tt }
  failing false s r e = record { saves = tt; unwritten = tt; ended = tt }

  -- A write, by how the run goes on after it.
  saved :
      (s t : State) (answer : Option Err) (next : Option Err → Run)
      → IsRecovered false t (next none)
      → ((e : Err) → IsRecovered false s (next (some e)))
      → IsRecovered false s (save t answer next)
  unfolding save durable
  saved s t none next f g =
      if_cases (IsRecovered false s) (state_valid t t.tv) _ _
        (λ v. record { saves = (tt, f.saves); unwritten = tt; ended = f.ended })
        (λ v. g (Cause.plain ∷ []))
  saved s t (some e) next f g =
      if_cases (IsRecovered false s) (state_valid t t.tv) _ _
        (λ v. record { saves = (tt, (g e).saves); unwritten = tt; ended = (g e).ended })
        (λ v. g (Cause.plain ∷ []))

  resolve-IsRecovered :
      (dry_run : Bool) (s : State) (now : ℕ) (answer : Option Err)
      → IsMap s
      → IsRecovered dry_run s (resolve_recovery dry_run o s now answer)
  unfolding resolve_recovery
  resolve-IsRecovered dry_run s now answer u =
      go dry_run (resolve_pending s o now) (resolve_pending-IsMap s o now u)
    where
      go :
          (dry : Bool) (r : Result State)
          → ResultIsMap r
          → IsRecovered dry s (resolve_with dry o s answer r)
      go dry (err e) k = failing dry s s e
      go true (ok r) k = returned true s r k.1 (inl refl)
      go false (ok r) k =
          saved s (bump r) answer _ (returned false (bump r) (bump r) k.1 (inr refl))
            (λ e. failing false s (bump r) e)

  park-IsRecovered :
      (dry_run : Bool) (held s : State) (answer : Option Err)
      → IsRecovered dry_run held (park_upload dry_run o s answer)
  unfolding park_upload parked_state
  park-IsRecovered true held s answer = returned true held (parked_state s) refl (inl refl)
  park-IsRecovered false held s answer =
      saved held (bump (parked_state s)) answer _
        (returned false (bump (parked_state s)) (bump (parked_state s)) refl (inr refl))
        (λ e. failing false held s e)

  -- What an unresolved upload is settled into keeps what is pending.
  settled-pending :
      (s : State) (parked : Option Pending) (now : ℕ) (r : State)
      → resolve_parked? s parked o now ≡ some r
      → r.pending ≡ s.pending
  unfolding resolve_parked? resolve_parked fold_upload_binding
  settled-pending s none now r e = ground arith
  settled-pending s (some parked) now r e = ground arith

  settle-IsRecovered :
      (dry_run : Bool) (held s : State) (now : ℕ) (answer : Option Err)
      → s.pending ≡ none
      → (dry_run ≡ true) ⊎ (held ≡ s)
      → IsRecovered dry_run held (settle_unresolved dry_run o s now answer)
  unfolding settle_unresolved resolve_unresolved_upload
  settle-IsRecovered dry_run held s now answer p q =
      go dry_run (resolve_parked? s s.unresolved_upload o now) q
        (λ r e. settled-pending s s.unresolved_upload now r e ∙ p)
    where
      go :
          (dry : Bool) (r : Option State)
          → (dry ≡ true) ⊎ (held ≡ s)
          → ((t : State) → r ≡ some t → t.pending ≡ none)
          → IsRecovered dry held (settle_with dry o s answer r)
      go dry none w k = returned dry held s p w
      go true (some r) w k = returned true held r (k r refl) (inl refl)
      go false (some r) w k =
          saved held (bump r) answer _ (returned false (bump r) (bump r) (k r refl) (inr refl))
            (λ e. failing false held s e)

  -- A second run, from where the first left the state, or from where the store has it.
  followed :
      (dry_run : Bool) (s : State) (r n : Run)
      → IsRecovered dry_run s r
      → IsRecovered dry_run (durable s r.events) n
      → IsRecovered dry_run s (record n { events = r.events ++ n.events })
  followed true s r n f g = record {
    saves = All-append IsSave r.events n.events f.saves g.saves;
    unwritten = rw (f.unwritten) (g.unwritten);
    ended = rw durable-append (g.ended);
  }
  followed false s r n f g = record {
    saves = All-append IsSave r.events n.events f.saves g.saves;
    unwritten = tt;
    ended = rw durable-append (g.ended);
  }

  parked-IsRecovered :
      (dry_run : Bool) (a : RecoverAnswers) (s : State) (r : Run) (error : Option Err)
      → IsRecovered dry_run s r
      → IsRecovered dry_run s (park_on dry_run o a r error)
  unfolding park_on
  parked-IsRecovered dry_run a s r none f = f
  parked-IsRecovered dry_run a s r (some e) f =
      if_cases (IsRecovered dry_run s) (parkable_upload r.done.state e) _ r
        (λ _.
          followed dry_run s r (park_upload dry_run o r.done.state a.park_error) f
            (park-IsRecovered dry_run (durable s r.events) r.done.state a.park_error))
        (λ _. f)

  then-IsRecovered :
      (dry_run : Bool) (a : RecoverAnswers) (s : State) (r : Run) (error : Option Err)
      → r.done.error ≡ error
      → IsRecovered dry_run s r
      → IsRecovered dry_run s (
          after_error dry_run o r
            (λ t. settle_unresolved dry_run o t a.settled_at a.settle_error)
            error)
  unfolding after_error
  then-IsRecovered dry_run a s r (some e) q f = f
  then-IsRecovered dry_run a s r none q f =
      let ended = subst (λ x. HasEnded dry_run (durable s r.events) x r.done.state) q f.ended in
      followed dry_run s r (settle_unresolved dry_run o r.done.state a.settled_at a.settle_error) f
        (settle-IsRecovered dry_run (durable s r.events) r.done.state a.settled_at a.settle_error
          ended.0 ended.1)

  from-IsRecovered :
      (dry_run : Bool) (a : RecoverAnswers) (s : State) (pending : Option Pending)
      → s.pending ≡ pending
      → IsMap s
      → IsRecovered dry_run s (recover_from dry_run o a s pending)
  unfolding recover_from resolve_or_park and_then
  from-IsRecovered dry_run a s none p u =
      settle-IsRecovered dry_run s s a.settled_at a.settle_error p (inr refl)
  from-IsRecovered dry_run a s (some q) p u =
      then-IsRecovered dry_run a s (resolve_or_park dry_run o a s)
        (resolve_or_park dry_run o a s).done.error refl
        (parked-IsRecovered dry_run a s (resolve_recovery dry_run o s a.resolved_at a.resolve_error)
          (resolve_recovery dry_run o s a.resolved_at a.resolve_error).done.error
          (resolve-IsRecovered dry_run s a.resolved_at a.resolve_error u))

-- From a state in which each digest is bound once, a recovery sends nothing to the TV; in a dry run
-- it writes nothing; and if it returns no error, nothing is pending in its state, and the store,
-- which held the state that it began with, holds the state that it returns, but in a dry run.
pub recover-IsRecovered :
    (dry_run : Bool) (o : Observation) (a : RecoverAnswers) (s : State)
    → IsMap s
    → IsRecovered dry_run s (recover dry_run o a s)
unfolding recover
recover-IsRecovered dry_run o a s u = from-IsRecovered o dry_run a s s.pending refl u
