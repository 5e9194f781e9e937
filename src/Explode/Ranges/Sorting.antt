-- ===== src/Explode/Ranges/Sorting.antt =====
-- The end of explode_list_internal(), which sorts its numbers and drops equal ones.
use flinter.Base.{
  ℕ, zero, suc, ◌+◌, ◌<◌, ◌≤◌, ◌≡◌, ◌==◌, List, [], ◌∷◌, ◌++◌, arith, Bool-cases, inl, inr,
}
use flinter.Explode.Ranges.{push_range, insert_sorted, sort, unique_behind, unique}

-- A list below a bound, and one that ascends from a number on.
abbrev pub AllAtMost : ℕ → List ℕ → Type 0
AllAtMost max [] = Unit {0}
AllAtMost max (n ∷ l) = (n ≤ max) × AllAtMost max l

abbrev pub Ascends : ℕ → List ℕ → Type 0
Ascends n [] = Unit {0}
Ascends n (m ∷ l) = (n < m) × Ascends m l

abbrev pub IsAscending : List ℕ → Type 0
IsAscending [] = Unit {0}
IsAscending (n ∷ l) = Ascends n l

-- The same with equal neighbours.
abbrev Rises : ℕ → List ℕ → Type 0
Rises n [] = Unit {0}
Rises n (m ∷ l) = (n ≤ m) × Rises m l

abbrev IsRising : List ℕ → Type 0
IsRising [] = Unit {0}
IsRising (n ∷ l) = Rises n l

Rises-insert_sorted : (k n : ℕ) (l : List ℕ) → k ≤ n → Rises k l → Rises k (insert_sorted n l)
unfolding insert_sorted
Rises-insert_sorted k n [] h p = (h, tt)
Rises-insert_sorted k n (m ∷ l) h (q, p) = ground (arith, Rises-insert_sorted m n l)

IsRising-insert_sorted : (n : ℕ) (l : List ℕ) → IsRising l → IsRising (insert_sorted n l)
unfolding insert_sorted
IsRising-insert_sorted n [] p = tt
IsRising-insert_sorted n (m ∷ l) p = ground (arith, Rises-insert_sorted m n l)

pub sort-IsRising : (l : List ℕ) → IsRising (sort l)
unfolding sort
sort-IsRising [] = tt
sort-IsRising (n ∷ l) = IsRising-insert_sorted n (sort l) (sort-IsRising l)

unique_behind-Ascends : (n : ℕ) (l : List ℕ) → Rises n l → Ascends n (unique_behind n l)
unfolding unique_behind
unique_behind-Ascends n [] p = tt
unique_behind-Ascends n (m ∷ l) (q, p) = elim (Bool-cases (n == m)) [
  | inl same ↦
      let e : n ≡ m = ground arith in rw (same, unique_behind) (unique_behind-Ascends n l (rw e p))
  | inr other ↦ ground (arith, unique_behind-Ascends m l p)
]

pub unique-IsAscending : (l : List ℕ) → IsRising l → IsAscending (unique l)
unfolding unique
unique-IsAscending [] p = tt
unique-IsAscending (n ∷ l) p = unique_behind-Ascends n l p

AllAtMost-insert_sorted :
    (max n : ℕ) (l : List ℕ) → n ≤ max → AllAtMost max l → AllAtMost max (insert_sorted n l)
unfolding insert_sorted
AllAtMost-insert_sorted max n [] h p = (h, tt)
AllAtMost-insert_sorted max n (m ∷ l) h (q, p) = ground (arith, AllAtMost-insert_sorted max n l h p)

pub AllAtMost-sort : (max : ℕ) (l : List ℕ) → AllAtMost max l → AllAtMost max (sort l)
unfolding sort
AllAtMost-sort max [] p = tt
AllAtMost-sort max (n ∷ l) (q, p) =
    AllAtMost-insert_sorted max n (sort l) q (AllAtMost-sort max l p)

AllAtMost-unique_behind :
    (max n : ℕ) (l : List ℕ) → AllAtMost max l → AllAtMost max (unique_behind n l)
unfolding unique_behind
AllAtMost-unique_behind max n [] p = tt
AllAtMost-unique_behind max n (m ∷ l) (q, p) =
    ground (arith, AllAtMost-unique_behind max n l p, AllAtMost-unique_behind max m l p)

pub AllAtMost-unique : (max : ℕ) (l : List ℕ) → AllAtMost max l → AllAtMost max (unique l)
unfolding unique
AllAtMost-unique max [] p = tt
AllAtMost-unique max (n ∷ l) (q, p) = (q, AllAtMost-unique_behind max n l p)

pub AllAtMost-append :
    (max : ℕ) (l m : List ℕ) → AllAtMost max l → AllAtMost max m → AllAtMost max (l ++ m)
AllAtMost-append max [] m p q = q
AllAtMost-append max (n ∷ l) m (h, p) q = (h, AllAtMost-append max l m p q)

pub AllAtMost-push_range : (max i n : ℕ) → i + n ≤ suc max → AllAtMost max (push_range i n)
unfolding push_range
AllAtMost-push_range max i zero h = tt
AllAtMost-push_range max i (suc n) h =
    (omega arith, AllAtMost-push_range max (suc i) n (omega arith))
