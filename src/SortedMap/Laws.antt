-- ===== src/SortedMap/Laws.antt =====
-- The laws of the ordered maps.
use modem_tester.Common.{
  ℕ, suc, ◌+◌, ◌≤◌, ◌<◌, ◌≡◌, refl, List, [], ◌∷◌, ◌++◌, none, some, arith, length,
}
use modem_tester.SortedMap.{insert, find, distance, erase_through, last, Above, Below}

module _ {V : Type 0} where
  pub Above-mono : {n p : ℕ} (m : List (ℕ × V)) → n ≤ p → Above p m → Above n m
  Above-mono [] h a = tt
  Above-mono ((k, v) ∷ m) h a = (omega arith, a.1)

  pub insert-Above :
      (k : ℕ) (v : V) (n : ℕ) (m : List (ℕ × V)) → n ≤ k → Above n m → Above n (insert k v m)
  unfolding insert
  insert-Above k v n [] h a = (h, tt)
  insert-Above k v n ((j, w) ∷ m) h a = ground (arith, insert-Above k v (suc j) m)

  pub insert-Below :
      (k : ℕ) (v : V) (n : ℕ) (m : List (ℕ × V)) → k < n → Below n m → Below n (insert k v m)
  unfolding insert
  insert-Below k v n [] h b = (h, tt)
  insert-Below k v n ((j, w) ∷ m) h b = ground (arith, insert-Below k v n m)

  pub find-Above : (k n : ℕ) (m : List (ℕ × V)) → Above n m → k < n → find k m ≡ none
  unfolding find
  find-Above k n [] a h = refl
  find-Above k n ((j, w) ∷ m) a h = ground (arith, find-Above k (suc j) m)

  -- A write adds an entry if the key is new, and replaces one if it is there.
  pub length-insert_new :
      (k : ℕ) (v : V) (n : ℕ) (m : List (ℕ × V))
      → Above n m
      → find k m ≡ none
      → length (insert k v m) ≡ length m + 1
  unfolding insert find
  length-insert_new k v n [] a h = omega arith
  length-insert_new k v n ((j, w) ∷ m) a h = ground (arith, length-insert_new k v (suc j) m)

  pub length-insert_old :
      (k : ℕ) (v : V) (n : ℕ) (m : List (ℕ × V)) (u : V)
      → Above n m
      → find k m ≡ some u
      → length (insert k v m) ≡ length m
  unfolding insert find
  length-insert_old k v n [] u a h = cc
  length-insert_old k v n ((j, w) ∷ m) u a h =
      ground (arith, length-insert_old k v (suc j) m u, find-Above k (suc j) m)

  pub length-insert-le : (k : ℕ) (v : V) (m : List (ℕ × V)) → length (insert k v m) ≤ length m + 1
  unfolding insert
  length-insert-le k v [] = omega arith
  length-insert-le k v ((j, w) ∷ m) = ground (arith, length-insert-le k v m)

  -- Where the key is found, the entries before it, its own and those after it are all.
  pub distance-erase :
      (k : ℕ) (m : List (ℕ × V)) (u : V)
      → find k m ≡ some u
      → distance k m + 1 + length (erase_through k m) ≡ length m
  unfolding find distance erase_through
  distance-erase k [] u h = cc
  distance-erase k ((j, w) ∷ m) u h = ground (arith, distance-erase k m u)

  pub erase_through-Above : (k n : ℕ) (m : List (ℕ × V)) → Above n m → Above n (erase_through k m)
  unfolding erase_through
  erase_through-Above k n [] a = tt
  erase_through-Above k n ((j, w) ∷ m) a = ground (
    arith,
    erase_through-Above k (suc j) m,
    Above-mono {n = n} {p = suc j} m,
    Above-mono {n = n} {p = suc j} (erase_through k m),
  )

  pub erase_through-Below : (k n : ℕ) (m : List (ℕ × V)) → Below n m → Below n (erase_through k m)
  unfolding erase_through
  erase_through-Below k n [] b = tt
  erase_through-Below k n ((j, w) ∷ m) b = ground (arith, erase_through-Below k n m)

  -- A map with keys from n on and below p has at most p - n entries.
  pub length_bounded :
      (n p : ℕ) (m : List (ℕ × V)) → n ≤ p → Above n m → Below p m → n + length m ≤ p
  length_bounded n p [] h a b = omega arith
  length_bounded n p ((k, v) ∷ m) h a b =
      omega (arith, length_bounded (suc k) p m (omega arith) a.1 b.1)

  -- A write of a key above all the others comes last.
  pub insert_at_end :
      (k : ℕ) (v : V) (m : List (ℕ × V)) → Below k m → insert k v m ≡ m ++ (k, v) ∷ []
  unfolding insert
  insert_at_end k v [] b = refl
  insert_at_end k v ((j, w) ∷ m) b = ground (arith, insert_at_end k v m)

  pub Below-mono : (n p : ℕ) (m : List (ℕ × V)) → n ≤ p → Below n m → Below p m
  Below-mono n p [] h b = tt
  Below-mono n p ((k, v) ∷ m) h b = (omega arith, Below-mono n p m h b.1)

  pub Below-append : (n : ℕ) (m l : List (ℕ × V)) → Below n m → Below n l → Below n (m ++ l)
  Below-append n [] l b c = c
  Below-append n ((k, v) ∷ m) l b c = (b.0, Below-append n m l b.1 c)

  pub last-le :
      (lo : ℕ) (m : List (ℕ × V)) (k : ℕ) (v : V) → Above lo m → last m ≡ some (k, v) → lo ≤ k
  unfolding last
  last-le lo [] k v a e = cc
  last-le lo ((j, w) ∷ []) k v a e = ground arith
  last-le lo ((j, w) ∷ d ∷ m) k v a e = omega (arith, last-le (suc j) (d ∷ m) k v a.1 e)

  pub last-total : (e : ℕ × V) (m : List (ℕ × V)) → (x : ℕ × V) × (last (e ∷ m) ≡ some x)
  unfolding last
  last-total e [] = (e, refl)
  last-total e (d ∷ m) = last-total d m
