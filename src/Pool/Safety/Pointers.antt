-- ===== src/Pool/Safety/Pointers.antt =====
-- The pointers in the pool's vector (src/RunnablePool.h), and what changes of the lives keep them.
use modem_tester.Common.{
  ℕ, suc, ◌+◌, ◌≤◌, ◌<◌, ◌==◌, if◌then◌else◌, ◌≡◌, refl, Bool, true, false, List, [], ◌∷◌, ◌++◌,
  Option, none, some, arith, All,
}
use modem_tester.Pool.{
  Body, finish, work, add, wait, Life, begun, working, over, Place, collecting, System, remove_null,
}

-- The body deletes objects below n only.
abbrev pub WaitsBelow : ℕ → Body → Type 0
WaitsBelow n finish = Unit
WaitsBelow n (work b) = WaitsBelow n b
WaitsBelow n (add a b) = WaitsBelow n a × WaitsBelow n b
WaitsBelow n (wait j b) = (j < n) × WaitsBelow n b

abbrev pub BodyBelow : ℕ → Life → Type 0
BodyBelow n (begun b) = WaitsBelow n b
BodyBelow n (working b) = WaitsBelow n b
BodyBelow n _ = Unit

abbrev pub is_live : Life → Bool
is_live (begun b) = true
is_live (working b) = true
is_live over = true
is_live _ = false

-- Pointers to different objects from lo on, below hi, none of them null or deleted.
abbrev pub Live : (ℕ → Life) → ℕ → ℕ → List (Option ℕ) → Type 0
Live life lo hi [] = lo ≤ hi
Live life lo hi (none ∷ l) = ⊥
Live life lo hi (some r ∷ l) =
    (lo ≤ r) × (r < hi) × (is_live (life r) ≡ true) × Live life (suc r) hi l

-- The pointers that the pool's thread has still to visit.
abbrev pub Waiting : ℕ → System → Place → Type 0
Waiting n s (collecting visited rest) = All (λ p. p ≡ none) visited × Live s.life n s.next rest
Waiting n s _ = Live s.life n s.next s.runnables

pub record IsSafe (n : ℕ) (s : System) : Type 0 where
  pub waiting : Waiting n s s.place
  pub bodies : (i : ℕ) → BodyBelow n (s.life i)

module _ (life : ℕ → Life) (i : ℕ) (l : Life) where
  -- An object that stays alive, or that is not among them, may change.
  pub Live-update :
      (lo hi : ℕ) (ps : List (Option ℕ))
      → is_live l ≡ true
      → Live life lo hi ps
      → Live (λ j. if j == i then l else life j) lo hi ps
  Live-update lo hi [] e h = h
  Live-update lo hi (none ∷ ps) e h = h
  Live-update lo hi (some r ∷ ps) e h = ground (arith, Live-update (suc r) hi ps)

  pub Live-below :
      (lo hi : ℕ) (ps : List (Option ℕ))
      → i < lo
      → Live life lo hi ps
      → Live (λ j. if j == i then l else life j) lo hi ps
  Live-below lo hi [] e h = h
  Live-below lo hi (none ∷ ps) e h = h
  Live-below lo hi (some r ∷ ps) e h = ground (arith, Live-below (suc r) hi ps)

pub Live-append :
    (life : ℕ → Life) (lo hi : ℕ) (ps : List (Option ℕ)) (b : Body)
    → Live life lo hi ps
    → Live (λ j. if j == hi then begun b else life j) lo (hi + 1) (ps ++ some hi ∷ [])
Live-append life lo hi [] b h = ground arith
Live-append life lo hi (none ∷ ps) b h = h
Live-append life lo hi (some r ∷ ps) b h = ground (arith, Live-append life (suc r) hi ps b)

pub All-none_remove : (ps : List (Option ℕ)) → All (λ p. p ≡ none) ps → remove_null ps ≡ []
All-none_remove [] h = refl
All-none_remove (none ∷ ps) h = All-none_remove ps h.1
All-none_remove (some r ∷ ps) h = ground arith

pub All-none_append :
    (ps : List (Option ℕ)) → All (λ p. p ≡ none) ps → All (λ p. p ≡ none) (ps ++ none ∷ [])
All-none_append [] h = (refl, tt)
All-none_append (p ∷ ps) h = (h.0, All-none_append ps h.1)

pub Live-weaken :
    (life : ℕ → Life) (lo lo' hi : ℕ) (ps : List (Option ℕ))
    → lo ≤ lo'
    → Live life lo' hi ps
    → Live life lo hi ps
Live-weaken life lo lo' hi [] e h = omega arith
Live-weaken life lo lo' hi (none ∷ ps) e h = h
Live-weaken life lo lo' hi (some r ∷ ps) e h = (omega arith, h.1, h.2, h.3)
