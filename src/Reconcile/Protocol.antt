-- ===== src/Reconcile/Protocol.antt =====
-- The write-ahead protocol that reconciliation promises to keep with its store, as a machine that
-- knows of no command, receipt or plan in particular: what may be written and sent, and when.
pub mod Sending
pub mod Receipt
pub mod Execute
pub mod Recovery
pub mod Cycle
pub mod Finish
pub mod Result
pub mod Planned
pub mod Power
pub mod Started
pub mod Whole
pub mod Recorded
use frame_tv_art_manager.Prelude.{
  ◌≡◌, ◌<◌, ◌≤◌, ℕ, true, false, List, [], ◌∷◌, ◌++◌, Option, none, some, arith, ◌⊎◌,
}
use frame_tv_art_manager.Samsung.Types.{Command}
use frame_tv_art_manager.Reconcile.Types.{State, Pending, Phase, CommandIntent}
use frame_tv_art_manager.Reconcile.Errors.{ok}
use frame_tv_art_manager.Reconcile.Validate.{state_valid}
use frame_tv_art_manager.Reconcile.Execution.{Event, samsung_command}

-- How far the protocol has come: nothing is open, an operation of an earlier run was found, the
-- record of a command is in the store, it was sent, its outcome is in the store, or a write failed.
pub data Stage : Type 0 where
  idle : Stage
  found : Pending → Stage
  written sent : Pending → Stage
  noted : Pending → Stage
  halted : Stage

-- The store holds a state, or none yet.
abbrev pub number : Option State → ℕ
number none = 0
number (some s) = s.revision

abbrev pub open_in : Option State → Option Pending
open_in none = none
open_in (some s) = s.pending

abbrev pub stage_of : Option Pending → Stage
stage_of none = Stage.idle
stage_of (some p) = Stage.found p

-- What may be written: a valid state with a higher revision than the store's.
abbrev pub IsNext : Option State → State → Type 0
IsNext held s = (number held < s.revision) × (state_valid s s.tv ≡ true)

-- An outcome is on record: the same command, applied or with an unknown outcome.
pub record IsNoted (p q : Pending) : Type 0 where
  pub command : q.command ≡ p.command
  pub phase : (q.phase ≡ Phase.applied) ⊎ (q.phase ≡ Phase.outcome_unknown)

-- One event, from a store and a stage to the next.
pub data Step (held : Option State) : Stage → Event → Option State → Stage → Type 0 where
  -- The record of a command is written while nothing else is open.
  write :
      (s : State) (p : Pending)
      → IsNext held s
      → s.pending ≡ some p
      → p.phase ≡ Phase.prepared
      → Step held Stage.idle (Event.saved s true) (some s) (Stage.written p)
  -- The command on record is sent, once.
  send :
      (p : Pending) (c : Command)
      → samsung_command p.command ≡ some (ok c)
      → Step held (Stage.written p) (Event.sent c) held (Stage.sent p)
  -- It is given up before it is sent.
  withdraw :
      (p : Pending) (s : State)
      → IsNext held s
      → s.pending ≡ none
      → Step held (Stage.written p) (Event.saved s true) (some s) Stage.idle
  -- The TV has refused it.
  refuse :
      (p : Pending) (s : State)
      → IsNext held s
      → s.pending ≡ none
      → Step held (Stage.sent p) (Event.saved s true) (some s) Stage.idle
  -- Its outcome is written down.
  note :
      (p q : Pending) (s : State)
      → IsNext held s
      → s.pending ≡ some q
      → IsNoted p q
      → Step held (Stage.sent p) (Event.saved s true) (some s) (Stage.noted q)
  -- What was applied is settled.
  close :
      (p : Pending) (s : State)
      → p.phase ≡ Phase.applied
      → IsNext held s
      → s.pending ≡ none
      → Step held (Stage.noted p) (Event.saved s true) (some s) Stage.idle
  -- What an earlier run left is settled, or put aside.
  resolve :
      (p : Pending) (s : State)
      → IsNext held s
      → s.pending ≡ none
      → Step held (Stage.found p) (Event.saved s true) (some s) Stage.idle
  -- Nothing is open, and a state that has nothing open is written.
  record_state :
      (s : State)
      → IsNext held s
      → s.pending ≡ none
      → Step held Stage.idle (Event.saved s true) (some s) Stage.idle
  -- A write fails: nothing comes after it.
  fail :
      (st : Stage) (s : State)
      → IsNext held s
      → Step held st (Event.saved s false) held Stage.halted

-- The events of a run, one after another.
pub data Runs : Option State → Stage → List Event → Option State → Stage → Type 0 where
  still : {held : Option State} {st : Stage} → Runs held st [] held st
  step :
      {held next end : Option State} {st then last : Stage} {e : Event} {events : List Event}
      → Step held st e next then
      → Runs next then events end last
      → Runs held st (e ∷ events) end last

pub Runs-append :
    {held mid end : Option State} {st between last : Stage} {xs ys : List Event}
    → Runs held st xs mid between
    → Runs mid between ys end last
    → Runs held st (xs ++ ys) end last
Runs-append still r = r
Runs-append (step s q) r = step s (Runs-append q r)

-- What a stage says of the store.
abbrev pub Agrees : Option State → Stage → Type 0
Agrees held Stage.idle = open_in held ≡ none
Agrees held (Stage.found p) = open_in held ≡ some p
Agrees held (Stage.written p) = (open_in held ≡ some p) × (p.phase ≡ Phase.prepared)
Agrees held (Stage.sent p) = (open_in held ≡ some p) × (p.phase ≡ Phase.prepared)
Agrees held (Stage.noted p) = open_in held ≡ some p
Agrees held Stage.halted = Unit

-- Whatever the protocol lets happen, the stage tells what the store has open.
pub Step-Agrees :
    {held next : Option State} {st then : Stage} {e : Event}
    → Step held st e next then
    → Agrees held st
    → Agrees next then
Step-Agrees (write s p n e f) a = (e, f)
Step-Agrees (send p c t) a = a
Step-Agrees (withdraw p s n e) a = e
Step-Agrees (refuse p s n e) a = e
Step-Agrees (note p q s n e t) a = e
Step-Agrees (close p s f n e) a = e
Step-Agrees (resolve p s n e) a = e
Step-Agrees (record_state s n e) a = e
Step-Agrees (fail st s n) a = tt

pub Runs-Agrees :
    {held end : Option State} {st last : Stage} {events : List Event}
    → Runs held st events end last
    → Agrees held st
    → Agrees end last
Runs-Agrees still a = a
Runs-Agrees (step s r) a = Runs-Agrees r (Step-Agrees s a)

Step-le :
    {held next : Option State} {st then : Stage} {e : Event}
    → Step held st e next then
    → number held ≤ number next
Step-le (write s p n e f) = omega (arith, n.0)
Step-le (send p c t) = omega arith
Step-le (withdraw p s n e) = omega (arith, n.0)
Step-le (refuse p s n e) = omega (arith, n.0)
Step-le (note p q s n e t) = omega (arith, n.0)
Step-le (close p s f n e) = omega (arith, n.0)
Step-le (resolve p s n e) = omega (arith, n.0)
Step-le (record_state s n e) = omega (arith, n.0)
Step-le (fail st s n) = omega arith

pub Runs-le :
    {held end : Option State} {st last : Stage} {events : List Event}
    → Runs held st events end last
    → number held ≤ number end
Runs-le still = omega arith
Runs-le (step s r) = omega (arith, Step-le s, Runs-le r)
