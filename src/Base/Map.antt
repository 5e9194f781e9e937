-- ===== src/Base/Map.antt =====
-- std::map over natural numbers as keys, in the order of its keys.
use Prim.Native.Nat.{ℕ, ◌+◌, ◌<◌}
use mathlib.Core.Path.{◌≡◌, refl}
use mathlib.Core.Logic.{◌≢◌, inl, inr}
use mathlib.Core.Option.{Option, none, some}
use mathlib.Core.List.{List, [], ◌∷◌}
use native.Mathlib.Omega.{arith}
use flinter.Base.Tests.{ltb, ◌==◌, if◌then◌else◌, Bool-cases}

module _ {V : Type 0} where
  unfoldable pub find : ℕ → List (ℕ × V) → Option V
  find k [] = none
  find k ((j, v) ∷ l) = let rest = find k l in if j == k then some v else rest

  -- The value of a key, set anew or changed.
  unfoldable pub put : ℕ → V → List (ℕ × V) → List (ℕ × V)
  put k w [] = (k, w) ∷ []
  put k w ((j, v) ∷ l) =
      let rest = put k w l in
      if j == k then (k, w) ∷ l else if ltb k j then (k, w) ∷ (j, v) ∷ l else (j, v) ∷ rest

  unfoldable pub erase : ℕ → List (ℕ × V) → List (ℕ × V)
  erase k [] = []
  erase k ((j, v) ∷ l) = let rest = erase k l in if j == k then l else (j, v) ∷ rest

  -- The keys ascend, from above `k`.
  abbrev pub IsAbove : ℕ → List (ℕ × V) → Type 0
  IsAbove k [] = Unit {0}
  IsAbove k ((j, v) ∷ l) = (k < j) × IsAbove j l

  abbrev pub IsSorted : List (ℕ × V) → Type 0
  IsSorted [] = Unit {0}
  IsSorted ((j, v) ∷ l) = IsAbove j l

  pub IsAbove-lower : (i j : ℕ) (l : List (ℕ × V)) → i < j → IsAbove j l → IsAbove i l
  IsAbove-lower i j [] h p = tt
  IsAbove-lower i j ((k, v) ∷ l) h (q, p) = (omega arith, p)

  pub find_below : (k j : ℕ) (l : List (ℕ × V)) → k < j → IsAbove j l → find k l ≡ none
  unfolding find
  find_below k j [] h p = refl
  find_below k j ((i, v) ∷ l) h (q, p) = ground (arith, find_below k i l (omega arith) p)

  pub find_least : (k : ℕ) (l : List (ℕ × V)) → IsAbove k l → find k l ≡ none
  unfolding find
  find_least k [] p = refl
  find_least k ((i, v) ∷ l) (q, p) = ground (arith, find_below k i l q p)

  pub IsSorted-tail : (j : ℕ) (l : List (ℕ × V)) → IsAbove j l → IsSorted l
  IsSorted-tail j [] p = tt
  IsSorted-tail j ((i, v) ∷ l) (q, p) = p

  IsAbove-put : (i k : ℕ) (w : V) (l : List (ℕ × V)) → i < k → IsAbove i l → IsAbove i (put k w l)
  unfolding put
  IsAbove-put i k w [] h p = (h, tt)
  IsAbove-put i k w ((j, v) ∷ l) h (q, p) = ground (arith, IsAbove-put j k w l)

  pub IsSorted-put : (k : ℕ) (w : V) (l : List (ℕ × V)) → IsSorted l → IsSorted (put k w l)
  unfolding put
  IsSorted-put k w [] p = tt
  IsSorted-put k w ((j, v) ∷ l) p = ground (arith, IsAbove-put j k w l)

  IsAbove-erase : (i k : ℕ) (l : List (ℕ × V)) → IsAbove i l → IsAbove i (erase k l)
  unfolding erase
  IsAbove-erase i k [] p = tt
  IsAbove-erase i k ((j, v) ∷ l) (q, p) =
      ground (arith, IsAbove-erase j k l p, IsAbove-lower i j l q p)

  pub IsSorted-erase : (k : ℕ) (l : List (ℕ × V)) → IsSorted l → IsSorted (erase k l)
  unfolding erase
  IsSorted-erase k [] p = tt
  IsSorted-erase k ((j, v) ∷ l) p = ground (arith, IsAbove-erase j k l p, IsSorted-tail j l p)

  pub find-put_self : (k : ℕ) (w : V) (l : List (ℕ × V)) → find k (put k w l) ≡ some w
  unfolding find put
  find-put_self k w [] = ground arith
  find-put_self k w ((j, v) ∷ l) = ground (arith, find-put_self k w l)

  pub find-put_ne : (i k : ℕ) (w : V) (l : List (ℕ × V)) → i ≢ k → find i (put k w l) ≡ find i l
  unfolding find put
  find-put_ne i k w [] h = ground arith
  find-put_ne i k w ((j, v) ∷ l) h = ground (arith, find-put_ne i k w l h)

  pub find-erase_self : (k : ℕ) (l : List (ℕ × V)) → IsSorted l → find k (erase k l) ≡ none
  unfolding find erase
  find-erase_self k [] p = refl
  find-erase_self k ((j, v) ∷ l) p =
      ground (arith, find_least j l p, find-erase_self k l (IsSorted-tail j l p))

  pub find-erase_ne : (i k : ℕ) (l : List (ℕ × V)) → i ≢ k → find i (erase k l) ≡ find i l
  unfolding find erase
  find-erase_ne i k [] h = refl
  find-erase_ne i k ((j, v) ∷ l) h = ground (arith, find-erase_ne i k l h)

  pub find-put :
      (j k : ℕ) (w : V) (l : List (ℕ × V))
      → find j (put k w l) ≡ (if j == k then some w else find j l)
  find-put j k w l = ground (arith, find-put_self k w l, find-put_ne j k w l)

  pub find-erase :
      (j k : ℕ) (l : List (ℕ × V))
      → IsSorted l
      → find j (erase k l) ≡ (if j == k then none else find j l)
  find-erase j k l p = ground (arith, find-erase_self k l p, find-erase_ne j k l)

  pub erase_missing : (k : ℕ) (l : List (ℕ × V)) → find k l ≡ none → erase k l ≡ l
  unfolding find erase
  erase_missing k [] e = refl
  erase_missing k ((j, v) ∷ l) e = ground (arith, erase_missing k l)

-- The sum of a weight over the entries.
module _ {V : Type 0} (weight : ℕ → V → ℕ) where
  unfoldable pub total : List (ℕ × V) → ℕ
  total [] = 0
  total ((j, v) ∷ l) = weight j v + total l

  unfoldable pub weight_of : ℕ → Option V → ℕ
  weight_of k none = 0
  weight_of k (some v) = weight k v

  pub total-put :
      (k : ℕ) (w : V) (l : List (ℕ × V))
      → IsSorted l
      → total (put k w l) + weight_of k (find k l) ≡ weight k w + total l
  unfolding total put find weight_of
  total-put k w [] p = omega arith
  total-put k w ((j, v) ∷ l) p = elim (Bool-cases (j == k)) [
    | inl same ↦ ground arith
    | inr other ↦ ground (arith, total-put k w l (IsSorted-tail j l p), find_below k j l)
  ]

  pub total-erase :
      (k : ℕ) (l : List (ℕ × V)) → total (erase k l) + weight_of k (find k l) ≡ total l
  unfolding total erase find weight_of
  total-erase k [] = refl
  total-erase k ((j, v) ∷ l) = ground (arith, total-erase k l)

  pub total-erase_found :
      {v : V} (k : ℕ) (l : List (ℕ × V))
      → find k l ≡ some v
      → total (erase k l) + weight k v ≡ total l
  unfolding weight_of
  total-erase_found k l e = (rw e at (total-erase k l))

  pub total-put_found :
      {v : V} (k : ℕ) (w : V) (l : List (ℕ × V))
      → IsSorted l
      → find k l ≡ some v
      → total (put k w l) + weight k v ≡ weight k w + total l
  unfolding weight_of
  total-put_found k w l p e = (rw e at (total-put k w l p))

  pub total-put_new :
      (k : ℕ) (w : V) (l : List (ℕ × V))
      → IsSorted l
      → find k l ≡ none
      → total (put k w l) ≡ weight k w + total l
  unfolding weight_of
  total-put_new k w l p e = omega (arith, (rw e at (total-put k w l p)))
