-- ===== src/Reconcile/Service/PowerOff/Due.antt =====
-- When a failed run still turns the TV off, and what it returns.
use mathlib.Core.List.{append-nil}
use frame_tv_art_manager.Prelude.Int.{pos, ℤ-discrete}
use frame_tv_art_manager.Reconcile.Validate.{identity_from_observation}
use frame_tv_art_manager.Reconcile.Execution.Execute.{execute}
use frame_tv_art_manager.Reconcile.Execution.{Run}
use frame_tv_art_manager.Reconcile.Errors.{Cause, error_is, Err}
use frame_tv_art_manager.Reconcile.Service.PowerOff.{
  is_same_tv, is_pending, off_input, leaves_failure, power_off_after_failure, off_observed,
  after_off, unchanged, PoweredOff, Failed, PowerOffAnswers,
}
use frame_tv_art_manager.Reconcile.Loop.{is_eligible, Setup}
use frame_tv_art_manager.Reconcile.Types.{
  PowerPolicy-discrete, CommandKind-discrete, Pending, CommandKind, PowerPolicy, Hashes,
}
use frame_tv_art_manager.Prelude.{
  holds_of, arith, ap, true_of_not, holds-true, contains, holds, or_parts, not, ◌∙◌, inr, ◌≢◌, sym,
  if_cases, Option, inl, ◌++◌, ◌⊎◌, ◌≡◌, Bool, Text, true, false, none, some, [], ◌∷◌, refl,
}

holds_not {ℓ} : {P : Type ℓ} (d : Dec P) → ¬ P → holds d ≡ false
holds_not (yes p) n = absurd (n p)
holds_not (no m) n = refl

fails_of {ℓ} : {P : Type ℓ} (d : Dec P) → holds d ≡ false → ¬ P
fails_of (yes p) h = cc
fails_of (no n) h = n

none-ne-some : {x : Err} → none ≢ some x
none-ne-some k = cc

module _ (lower : Text → Text) (h : Hashes) (dry_run : Bool) (c : Setup) (a : PowerOffAnswers)
    (failed : Failed) (e : Err) where
  -- The policy asks for it, nothing is open or in doubt, it was not tried, and a fresh observation
  -- shows art on the state's own TV.
  pub record IsDue : Type 0 where
    pub asked : c.policy.power ≡ PowerPolicy.off
    pub live : dry_run ≡ false
    pub untried : failed.power_off_attempted ≡ false
    pub unlisted : contains CommandKind-discrete failed.applied CommandKind.power_off ≡ false
    pub stored : failed.state.version ≢ pos 0
    pub settled : failed.state.pending ≡ none
    pub certain : error_is e Cause.persistence_unknown ≡ false
    pub observed : a.observe_error ≡ none
    pub eligible : is_eligible a.observed ≡ true
    pub same_tv : is_same_tv failed.state (identity_from_observation a.observed) ≡ true

  abbrev pub attempt_off : Run
  attempt_off =
      execute lower h (off_input lower h dry_run c failed a.observed)
        (record a.answers { pace_error = none })

  -- Where it is due, the one command is carried out, whose success alone counts as applied. Where it
  -- is not, the TV is left alone.
  abbrev Turns : PoweredOff → Type 0
  Turns r =
      (¬ IsDue × (r.events ≡ []) × (r.failed ≡ failed))
      ⊎ (IsDue
          × (r.events ≡ attempt_off.events)
          × (r.failed.state ≡ attempt_off.done.state)
          × ((attempt_off.done.error ≡ none)
                × (r.failed.applied ≡ failed.applied ++ CommandKind.power_off ∷ [])
              ⊎ (attempt_off.done.error ≢ none) × (r.failed.applied ≡ failed.applied)))

  -- The failure of the run is still what is returned, with what came to it.
  abbrev Reports : PoweredOff → Type 0
  Reports r = (more : Err) × (r.error ≡ e ++ more)

  abbrev pub IsCareful : PoweredOff → Type 0
  IsCareful r = Turns r × Reports r

  unchanged-IsCareful : ¬ IsDue → (more : Err) → IsCareful (unchanged failed (e ++ more))
  unchanged-IsCareful n more = (inl (n, refl, refl), (more, refl))

  same-IsCareful : ¬ IsDue → IsCareful (unchanged failed e)
  same-IsCareful n = (inl (n, refl, refl), ([], sym (append-nil e)))

  true-ne-false : true ≢ false
  true-ne-false p = cc

  -- Each condition that leaves the failure as it is keeps the power-off from being due.
  leaves-undue : leaves_failure dry_run c.policy failed e ≡ true → ¬ IsDue
  unfolding leaves_failure
  leaves-undue l d = ground (
    arith,
    holds_of (PowerPolicy-discrete c.policy.power PowerPolicy.off) d.asked,
    d.live,
    d.untried,
    d.unlisted,
    holds_not (ℤ-discrete failed.state.version (pos 0)) d.stored,
    ap is_pending d.settled,
    d.certain,
  )

  after-IsCareful :
      IsDue
      → (error : Option Err) → attempt_off.done.error ≡ error
      → IsCareful (after_off lower h dry_run c failed e attempt_off error)
  unfolding after_off
  after-IsCareful due (some f) q =
      (inr (due, refl, refl, inr ((λ p. absurd (some-none (sym q ∙ p))), refl)), (f, refl))
    where
      some-none : {x : Err} → some x ≢ none
      some-none p = cc
  after-IsCareful due none q = (inr (due, refl, refl, inl (q, refl)), ([], sym (append-nil e)))

  observed-IsCareful :
      leaves_failure dry_run c.policy failed e ≡ false
      → (error : Option Err) → a.observe_error ≡ error
      → IsCareful (off_observed lower h dry_run c a failed e error)
  unfolding off_observed leaves_failure
  observed-IsCareful l (some f) q = unchanged-IsCareful (λ d. none-ne-some (sym d.observed ∙ q)) f
  observed-IsCareful l none q =
      if_cases IsCareful (not (is_eligible a.observed)) _ _
        (λ p. same-IsCareful (λ d. ineligible p d))
        (λ p.
          if_cases IsCareful (not (is_same_tv failed.state (identity_from_observation a.observed)))
            _ _ (λ s. unchanged-IsCareful (λ d. foreign s d) (Cause.plain ∷ []))
            (λ s. after-IsCareful (due p s) attempt_off.done.error refl))
    where
      ineligible : not (is_eligible a.observed) ≡ true → ¬ IsDue
      ineligible p d = true-ne-false (sym p ∙ ap not d.eligible)

      foreign :
          not (is_same_tv failed.state (identity_from_observation a.observed)) ≡ true → ¬ IsDue
      foreign p d = true-ne-false (sym p ∙ ap not d.same_tv)

      not_pending : (p : Option Pending) → is_pending p ≡ false → p ≡ none
      not_pending none r = refl
      not_pending (some p) r = cc

      due :
          not (is_eligible a.observed) ≡ false
          → not (is_same_tv failed.state (identity_from_observation a.observed)) ≡ false
          → IsDue
      due p s =
          let certain = or_parts _ (error_is e Cause.persistence_unknown) l in
          let settled = or_parts _ (is_pending failed.state.pending) certain.0 in
          let version = or_parts _ (holds (ℤ-discrete failed.state.version (pos 0))) settled.0 in
          let applied =
            or_parts _ (contains CommandKind-discrete failed.applied CommandKind.power_off)
              version.0 in
          let untried = or_parts _ failed.power_off_attempted applied.0 in
          let live =
            or_parts (not (holds (PowerPolicy-discrete c.policy.power PowerPolicy.off))) dry_run
              untried.0 in
          record {
            asked =
                holds-true (PowerPolicy-discrete c.policy.power PowerPolicy.off)
                  (true_of_not _ live.0);
            live = live.1;
            untried = untried.1;
            unlisted = applied.1;
            stored = fails_of (ℤ-discrete failed.state.version (pos 0)) version.1;
            settled = not_pending failed.state.pending settled.1;
            certain = certain.1;
            observed = q;
            eligible = true_of_not _ p;
            same_tv = true_of_not _ s;
          }

  -- After a failed run a power-off is due where the policy asks to turn the TV off, it is no dry run,
  -- that was not tried or applied, the run has a state, nothing is pending in it, no write is in doubt,
  -- and a fresh observation shows art on the same TV. Where it is due one power-off is carried out,
  -- and counts as applied exactly if it succeeded; where it is not the TV is left alone and the run's
  -- result stays as it was. Either way the failure of the run is returned, with what else went wrong.
  pub power_off_after_failure-IsCareful :
      IsCareful (power_off_after_failure lower h dry_run c a failed e)
  unfolding power_off_after_failure
  power_off_after_failure-IsCareful =
      if_cases IsCareful (leaves_failure dry_run c.policy failed e) _ _
        (λ p. same-IsCareful (leaves-undue p)) (λ p. observed-IsCareful p a.observe_error refl)
