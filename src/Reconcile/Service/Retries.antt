-- ===== src/Reconcile/Service/Retries.antt =====
-- A command that fails is not tried for ever.
use frame_tv_art_manager.Prelude.{
  All-of, ltb→lt, true, false, arith, List, [], ◌∷◌, ℕ, suc, Text, Bool, inl, inr, ◌&&◌,
  count_while, ◌≤◌, ◌<◌, Bool-cases, if◌then◌else◌, holds-true, subst,
}
use frame_tv_art_manager.Samsung.Types.{Observation}
use frame_tv_art_manager.Reconcile.Types.{
  State, Plan, CommandIntent, CommandIntent-discrete, CommandKind, Hashes,
}
use frame_tv_art_manager.Reconcile.Service.{converge, after, execution_input}
use frame_tv_art_manager.Reconcile.Loop.{Setup, Round, Loop, Attempt, same_intent, same_as, begin}
use frame_tv_art_manager.Reconcile.Service.Invariant.{converge-has}
use frame_tv_art_manager.Reconcile.Service.Hooks.{AnyRound, Survives, EndHas}

-- How many attempts at a command in a row, the latest ones, were taken up again.
abbrev pub retries : CommandIntent → List Attempt → ℕ
retries command log = count_while (λ a. a.retried && same_intent a.input.intent command) log

abbrev pub IsPatient : ℕ → List Attempt → Type 0
IsPatient maximum [] = Unit
IsPatient maximum (a ∷ log) = (suc (retries a.input.intent log) ≤ maximum) × IsPatient maximum log

-- The count that the loop would go on with for a command.
abbrev counted : Loop → CommandIntent → ℕ
counted l command = if same_as l.last_attempt command then l.attempts else 0

-- One more attempt at a command counts for that command.
same-le :
    (command other : CommandIntent) (f : CommandIntent → ℕ) (n : ℕ)
    → f command ≤ n
    → (if same_intent command other then suc (f other) else 0)
      ≤ (if same_intent command other then suc n else 0)
same-le command other f n b = elim (Bool-cases (same_intent command other)) [
  | inl e ↦ rw e (
      subst (λ x. suc (f x) ≤ suc n) (holds-true (CommandIntent-discrete command other) e)
        (omega arith))
  | inr e ↦ rw e (omega arith)
]

same-lt :
    (command other : CommandIntent) (f : CommandIntent → ℕ) (n maximum : ℕ)
    → f command ≤ n
    → suc n < maximum
    → suc (if same_intent command other then suc (f other) else 0) ≤ maximum
same-lt command other f n maximum b m =
    omega (arith, same-le command other f n b, le_of_if (same_intent command other) n)
  where
    le_of_if : (t : Bool) (k : ℕ) → (if t then suc k else 0) ≤ suc k
    le_of_if true k = omega arith
    le_of_if false k = omega arith

module _ (lower : Text → Text) (h : Hashes) (c : Setup) where
  record Patient (l : Loop) : Type 0 where
    bound : (command : CommandIntent) → retries command l.log ≤ counted l command
    below : (command : CommandIntent) → suc (retries command l.log) ≤ c.maximum_attempts
    patient : IsPatient c.maximum_attempts l.log

  Patient-Survives :
      0 < c.maximum_attempts
      → Survives lower h c AnyRound Patient
          (λ l. IsPatient c.maximum_attempts l.log)
          (λ l. IsPatient c.maximum_attempts l.log)
  unfolding after execution_input count_while
  Patient-Survives m = record {
    leaving = λ l g. g.patient;
    ending = λ l g. g.patient;
    quiet = λ l plan state prune keeps g. record {
      bound = g.bound;
      below = g.below;
      patient = g.patient;
    };
    tried = λ r l refreshed state command g p. (g.below command, g.patient);
    applied_off = λ r l refreshed state command g p e k. (g.below command, g.patient);
    applied_other = λ r l refreshed state command g p e k. record {
      bound = λ command. omega arith;
      below = λ command. omega arith;
      patient = (g.below command, g.patient);
    };
    retried = λ r l refreshed state command f g p e t m. record {
      bound = λ other.
          same-le command other (λ x. retries x l.log) (counted l command) (g.bound command);
      below = λ other.
          same-lt command other (λ x. retries x l.log) (counted l command) c.maximum_attempts
            (g.bound command) (ltb→lt _ _ m);
      patient = (g.below command, g.patient);
    };
    absorbed = λ r l refreshed state command f g p e t. record {
      bound = λ command. omega arith;
      below = λ command. omega arith;
      patient = (g.below command, g.patient);
    };
  }

-- With at least one attempt allowed, and whatever the world answers, each attempt at a command comes
-- after fewer than the allowed number of attempts at it in a row that the loop took up again.
pub converge-IsPatient :
    (lower : Text → Text) (h : Hashes) (c : Setup) (state : State) (o : Observation) (plan : Plan)
    (applied : List CommandKind) (rounds : List Round)
    → 0 < c.maximum_attempts
    → EndHas
        (λ l. IsPatient c.maximum_attempts l.log)
        (converge lower h c rounds (begin state o plan applied))
unfolding count_while
converge-IsPatient lower h c state o plan applied rounds m =
    converge-has lower h c AnyRound (Patient lower h c) (λ l. IsPatient c.maximum_attempts l.log)
      (λ l. IsPatient c.maximum_attempts l.log) (Patient-Survives lower h c m) rounds
      (begin state o plan applied) (All-of AnyRound (λ r. tt) rounds)
      (record { bound = λ command. omega arith; below = λ command. omega arith; patient = tt })
