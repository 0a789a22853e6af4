-- ===== src/Ivylogger/Process/Gap.antt =====
-- Signals that come while src/ivylogger/ivylogger.cpp ends.
use mathlib.Core.Option.{some-injective}
use modem_tester.Common.{
  ◌≡◌, ◌≢◌, refl, Bool, true, false, ◌↔◌, subst, List, [], ◌∷◌, Option, none, some, Option-cases,
  inl, inr, ◌⊎◌, arith,
}
use modem_tester.Ivylogger.{Sink}
use modem_tester.Ivylogger.Process.{
  Pointer, null, live, freed, Phase, installing, making, starting, looping, deleting_logger,
  clearing_logger, deleting_bus, clearing_bus, Process, initial, sighandler, destroy_logger,
  delete_logger, step_at, signal_at, Move, goes_on, signal, move, run,
}

-- Where the pointers stand before each statement.
abbrev bus_at : Phase → Pointer
bus_at starting = live
bus_at looping = live
bus_at deleting_logger = live
bus_at clearing_logger = live
bus_at deleting_bus = live
bus_at clearing_bus = freed
bus_at _ = null

abbrev has_logger : Phase → Bool
has_logger installing = true
has_logger making = true
has_logger starting = true
has_logger looping = true
has_logger deleting_logger = true
has_logger _ = false

record IsInOrder (p : Process) : Type 0 where
  bus : p.bus ≡ bus_at p.phase
  logger : has_logger p.phase ≡ true → p.logger ≡ live
  stream : has_logger p.phase ≡ true → p.stream ≡ live

-- The move is defined, and leaves the pointers in order.
abbrev Proceeds : Option Process → Type 0
Proceeds none = ⊥
Proceeds (some p) = IsInOrder p

initial-IsInOrder : IsInOrder initial
initial-IsInOrder = record { bus = refl; logger = λ h. refl; stream = λ h. refl }

phase_cases : (ph : Phase) → (ph ≡ clearing_bus) ⊎ (ph ≢ clearing_bus)
phase_cases clearing_bus = inl refl
phase_cases ph = inr (λ h. cc h)

module _ (sink : Sink) where
  step-Proceeds :
      (ph : Phase) (p : Process) → p.phase ≡ ph → IsInOrder p → Proceeds (step_at sink ph p)
  unfolding step_at delete_logger destroy_logger
  step-Proceeds ph p e o = ground (arith, o.bus, o.logger, o.stream)

  signal-Proceeds :
      (ph : Phase) (p : Process)
      → p.phase ≡ ph
      → ph ≢ clearing_bus
      → IsInOrder p
      → Proceeds (signal_at ph p)
  unfolding sighandler
  signal-Proceeds ph p e n o = ground (arith, o.bus, o.logger, o.stream)

  abbrev Keeps : Option Process → Type 0
  Keeps none = Unit
  Keeps (some p) = IsInOrder p

  signal-Keeps : (ph : Phase) (p : Process) → p.phase ≡ ph → IsInOrder p → Keeps (signal_at ph p)
  unfolding sighandler
  signal-Keeps ph p e o = ground (arith, o.bus, o.logger, o.stream)

  Proceeds-Keeps : (r : Option Process) → Proceeds r → Keeps r
  Proceeds-Keeps none h = tt
  Proceeds-Keeps (some p) h = h

  move-Keeps : (m : Move) (p : Process) → IsInOrder p → Keeps (move sink m p)
  unfolding move
  move-Keeps goes_on p o = Proceeds-Keeps _ (step-Proceeds p.phase p refl o)
  move-Keeps signal p o = signal-Keeps p.phase p refl o

  run-IsInOrder :
      (ms : List Move) (p q : Process) → IsInOrder p → run sink ms p ≡ some q → IsInOrder q
  unfolding run
  run-IsInOrder [] p q o e = subst IsInOrder (some-injective p q e) o
  run-IsInOrder (m ∷ ms) p q o e = elim (Option-cases (move sink m p)) [
    | inl n ↦ absurd (cc (rw (n, run) at e))
    | inr (r, n) ↦ run-IsInOrder ms r q (subst Keeps n (move-Keeps m p o)) (rw (n, run) at e)
  ]

  Proceeds-defined : (r : Option Process) → Proceeds r → r ≢ none
  Proceeds-defined none h e = h
  Proceeds-defined (some p) h e = cc e

  gap-undefined : (p : Process) → IsInOrder p → p.phase ≡ clearing_bus → move sink signal p ≡ none
  unfolding move sighandler
  gap-undefined p o e = ground (arith, o.bus)

  -- From where main installs its handlers, over any statements and signals that were defined: the
  -- next move is undefined behaviour exactly if it is a signal that comes after `delete bus` and
  -- before `bus = nullptr`, whose handler calls stop on the deleted bus.
  pub ivylogger-gap :
      (before : List Move) (p : Process) (m : Move)
      → run sink before initial ≡ some p
      → (move sink m p ≡ none) ↔ ((m ≡ signal) × (p.phase ≡ clearing_bus))
  unfolding move
  ivylogger-gap before p goes_on e =
      let o = run-IsInOrder before initial p initial-IsInOrder e in
      (λ n. absurd (Proceeds-defined _ (step-Proceeds p.phase p refl o) n), λ (h, k). absurd (cc h))
  ivylogger-gap before p signal e =
      let o = run-IsInOrder before initial p initial-IsInOrder e in
      (
        λ n. (
          refl,
          elim (phase_cases p.phase) [
            | inl c ↦ c
            | inr c ↦ absurd (Proceeds-defined _ (signal-Proceeds p.phase p refl c o) n)
          ],
        ),
        λ (h, k). gap-undefined p o k,
      )
