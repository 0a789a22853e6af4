-- ===== src/SortedMap.antt =====
-- std::map with integer keys, as the list of its entries in the order of the keys: what
-- src/master/MasterPinger.cpp, src/remote/RemoteThroughput.cpp and src/EventsScript.h use of it.
pub mod Laws
use modem_tester.Common.{
  ℕ, suc, ◌+◌, ◌≤◌, ◌<◌, ◌==◌, ltb, if◌then◌else◌, List, [], ◌∷◌, Option, none, some,
}

module _ {V : Type 0} where
  -- m[k] = v
  unfoldable pub insert : ℕ → V → List (ℕ × V) → List (ℕ × V)
  insert k v [] = (k, v) ∷ []
  insert k v ((j, w) ∷ m) =
      if k == j then (k, v) ∷ m else if ltb k j then (k, v) ∷ (j, w) ∷ m else (j, w) ∷ insert k v m

  -- m.find (k), as the value found
  unfoldable pub find : ℕ → List (ℕ × V) → Option V
  find k [] = none
  find k ((j, w) ∷ m) = if k == j then some w else find k m

  -- distance (m.begin (), m.find (k))
  unfoldable pub distance : ℕ → List (ℕ × V) → ℕ
  distance k [] = 0
  distance k ((j, w) ∷ m) = if k == j then 0 else suc (distance k m)

  -- what is left after m.erase (m.begin (), it); m.erase (it) with it = m.find (k)
  unfoldable pub erase_through : ℕ → List (ℕ × V) → List (ℕ × V)
  erase_through k [] = []
  erase_through k ((j, w) ∷ m) = if k == j then m else erase_through k m

  -- prev (m.end ()); none for the empty map, where the iterator is not valid
  unfoldable pub last : List (ℕ × V) → Option (ℕ × V)
  last [] = none
  last (e ∷ []) = some e
  last (e ∷ d ∷ m) = last (d ∷ m)

  -- The keys rise strictly, from n on.
  abbrev pub Above : ℕ → List (ℕ × V) → Type 0
  Above n [] = Unit
  Above n ((k, v) ∷ m) = (n ≤ k) × Above (suc k) m

  -- Every key is below n.
  abbrev pub Below : ℕ → List (ℕ × V) → Type 0
  Below n [] = Unit
  Below n ((k, v) ∷ m) = (k < n) × Below n m
