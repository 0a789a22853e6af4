-- ===== src/Remote/Throughput/Sizes.antt =====
-- The sizes and times in _recvedBytes (src/remote/RemoteThroughput.cpp).
use modem_tester.Common.{ℕ, suc, ◌+◌, ◌≤◌, ◌<◌, ◌≡◌, ◌≢◌, refl, List, [], ◌∷◌, ◌++◌, some, arith}
use modem_tester.SortedMap.{insert, last, Above}
use modem_tester.Wire.{u32_mod, u32}
use modem_tester.Remote.Throughput.{total}

-- The sum of the sizes, and that of all but the last.
unfoldable pub sum : List (ℕ × ℕ) → ℕ
sum [] = 0
sum ((t, n) ∷ m) = n + sum m

unfoldable pub sum_but_last : List (ℕ × ℕ) → ℕ
sum_but_last [] = 0
sum_but_last (e ∷ []) = 0
sum_but_last ((t, n) ∷ e ∷ m) = n + sum_but_last (e ∷ m)

pub total-sum : (acc : ℕ) (m : List (ℕ × ℕ)) → acc < u32_mod → total acc m ≡ u32 (acc + sum m)
unfolding total sum
total-sum acc [] h = omega arith
total-sum acc ((t, n) ∷ m) h = omega (arith, total-sum (u32 (acc + n)) m)

pub sum-last : (m : List (ℕ × ℕ)) (t n : ℕ) → last m ≡ some (t, n) → sum m ≡ sum_but_last m + n
unfolding sum sum_but_last last
sum-last [] t n h = cc
sum-last ((u, k) ∷ []) t n h = ground arith
sum-last ((u, k) ∷ e ∷ m) t n h = ground (arith, sum-last (e ∷ m) t n h)

pub insert_rising :
    (now k : ℕ) (m : List (ℕ × ℕ)) (rest : List (ℕ × ℕ)) (lo : ℕ)
    → Above lo (m ++ (now, k) ∷ rest)
    → insert now k m ≡ m ++ (now, k) ∷ []
unfolding insert
insert_rising now k [] rest lo a = refl
insert_rising now k ((t, n) ∷ m) rest lo a =
    ground (arith, insert_rising now k m rest (suc t) a.1, above m (suc t) a.1)
  where
    above : (l : List (ℕ × ℕ)) (lo : ℕ) → Above lo (l ++ (now, k) ∷ rest) → lo ≤ now
    above [] lo b = b.0
    above ((u, j) ∷ l) lo b = omega (arith, above l (suc u) b.1)

pub nonempty : (l : List (ℕ × ℕ)) → l ≢ [] → (e : ℕ × ℕ) × (m : List (ℕ × ℕ)) × (l ≡ e ∷ m)
nonempty [] n = absurd (n refl)
nonempty (e ∷ m) n = (e, m, refl)
