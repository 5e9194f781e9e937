-- ===== src/Explode/Ranges/Sound.antt =====
-- explode_list() and explode_lists() return, and what their lists hold.
use flinter.Base.Int.{pos}
use flinter.Base.{
  ℕ, zero, suc, ◌+◌, ◌-◌, ◌*◌, ◌<◌, ◌≤◌, ◌≡◌, true, Option, none, some, List, Bytes, [], ◌∷◌, ◌++◌,
  length, arith, Bool-cases, inl, inr,
}
use flinter.Explode.Ranges.{
  int_max, Last, Scan, Round, Parsed, is_digit, strtoul_loop, strtoul, push_range, number, on_comma,
  on_dash, on_end, round, rounds, sort, unique, explode_list_internal, explode_list, lists_loop,
  explode_lists,
}
use flinter.Explode.Ranges.Sorting.{
  AllAtMost, IsAscending, sort-IsRising, unique-IsAscending, AllAtMost-sort, AllAtMost-unique,
  AllAtMost-append, AllAtMost-push_range,
}

-- What the loop keeps, and what each round does.
abbrev IsScan : ℕ → Scan → Type 0
IsScan max k = AllAtMost max k.o × (k.digit ≤ max)

abbrev IsWithin : Option Bytes → ℕ → Type 0
IsWithin none n = Unit {0}
IsWithin (some s) n = length s < n

abbrev IsRound : ℕ → ℕ → Round → Type 0
IsRound max n Round.null = Unit {0}
IsRound max n Round.overflow = ⊥
IsRound max n (Round.leave o rest) = AllAtMost max o × IsWithin rest n
IsRound max n (Round.next k rest) = IsScan max k × (length rest < n)

length-strtoul_loop : (n : ℕ) (s : Bytes) → length (strtoul_loop n s).1 ≤ length s
unfolding strtoul_loop
length-strtoul_loop n [] = omega arith
length-strtoul_loop n (c ∷ s) = ground (arith, length-strtoul_loop (n * 10 + (c - b'0')) s)

length-strtoul :
    (c : ℕ) (s : Bytes) → is_digit c ≡ true → length (strtoul (c ∷ s)).1 < length (c ∷ s)
unfolding strtoul strtoul_loop
length-strtoul c s h =
    rw (h, strtoul_loop) (omega (arith, length-strtoul_loop (0 * 10 + (c - b'0')) s))

number-IsRound :
    (max n m : ℕ) (rest : Bytes) (k : Scan)
    → max < int_max
    → IsScan max k
    → length rest < m
    → IsRound max m (number max (n, rest) k)
unfolding number
number-IsRound max n m rest k v (p, d) h = ground (
  arith,
  AllAtMost-append max k.o (push_range k.digit (suc n - k.digit)) p,
  AllAtMost-push_range max k.digit (suc n - k.digit),
)

on_comma-IsRound :
    (max n : ℕ) (s : Bytes) (k : Scan) → IsScan max k → length s < n → IsRound max n (on_comma s k)
unfolding on_comma
on_comma-IsRound max n s k (p, d) h =
    ground (arith, AllAtMost-append max k.o (k.digit ∷ []) p (d, tt))

on_dash-IsRound :
    (max n : ℕ) (s : Bytes) (k : Scan) → IsScan max k → length s < n → IsRound max n (on_dash s k)
unfolding on_dash
on_dash-IsRound max n s k (p, d) h = ground arith

on_end-IsRound :
    (max n : ℕ) (s : Option Bytes) (k : Scan)
    → IsScan max k
    → IsWithin s n
    → IsRound max n (on_end s k)
unfolding on_end
on_end-IsRound max n s k (p, d) h =
    ground (arith, AllAtMost-append max k.o (k.digit ∷ []) p (d, tt))

round-IsRound :
    (max : ℕ) (s : Bytes) (k : Scan)
    → max < int_max
    → IsScan max k
    → IsRound max (length s) (round max s k)
unfolding round
round-IsRound max [] k v p = on_end-IsRound max 0 none k p tt
round-IsRound max (c ∷ s) k v p = elim (Bool-cases (is_digit c)) [
  | inl hit ↦
      rw (hit, round)
        (number-IsRound max (strtoul (c ∷ s)).0 (length (c ∷ s)) (strtoul (c ∷ s)).1 k v p
          (omega (arith, length-strtoul c s hit)))
  | inr miss ↦
      let small : length s < length (c ∷ s) = omega arith in
      let n = length (c ∷ s) in
      rw (miss, round)
        (ground (
          arith,
          on_comma-IsRound max n s k p small,
          on_dash-IsRound max n s k p small,
          on_end-IsRound max n (some s) k p small,
        ))
]

-- What explode_list_internal() returns on a text that is shorter than `n`.
abbrev pub IsParsed : ℕ → ℕ → Parsed → Type 0
IsParsed max n Parsed.ran_out = ⊥
IsParsed max n Parsed.undefined = ⊥
IsParsed max n Parsed.bad = Unit {0}
IsParsed max n (Parsed.good o rest) = AllAtMost max o × IsWithin rest n

IsWithin-more : (s : Option Bytes) (m n : ℕ) → m ≤ n → IsWithin s m → IsWithin s n
IsWithin-more none m n h p = tt
IsWithin-more (some s) m n h p = omega arith

IsParsed-more : (max m n : ℕ) (r : Parsed) → m ≤ n → IsParsed max m r → IsParsed max n r
IsParsed-more max m n Parsed.ran_out h p = p
IsParsed-more max m n Parsed.undefined h p = p
IsParsed-more max m n Parsed.bad h p = p
IsParsed-more max m n (Parsed.good o rest) h (p, q) = (p, IsWithin-more rest m n h q)

rounds-IsParsed :
    (f max : ℕ) (s : Bytes) (k : Scan)
    → length s < f
    → max < int_max
    → IsScan max k
    → IsParsed max (length s) (rounds f max s k)
unfolding rounds
rounds-IsParsed zero max s k h v p = elim h [ ]
rounds-IsParsed (suc f) max s k h v p =
    go (λ k' rest q b. rounds-IsParsed f max rest k' (omega arith) v q) (round max s k)
      (round-IsRound max s k v p)
  where
    go :
        ((k' : Scan) (rest : Bytes)
          → IsScan max k'
          → length rest < length s
          → IsParsed max (length rest) (rounds f max rest k'))
        → (r : Round) → IsRound max (length s) r
        → IsParsed max (length s) (elim r [
          | Round.null ↦ Parsed.bad
          | Round.overflow ↦ Parsed.undefined
          | Round.leave o rest ↦ Parsed.good o rest
          | Round.next k' rest ↦ rounds f max rest k'
        ])
    go ih Round.null q = tt
    go ih Round.overflow q = q
    go ih (Round.leave o rest) q = q
    go ih (Round.next k' rest) (q, b) =
        IsParsed-more max (length rest) (length s) (rounds f max rest k') (omega arith)
          (ih k' rest q b)

start-IsScan : (max : ℕ) → IsScan max (record { last = Last.nothing; digit = 0; o = [] })
start-IsScan max = (tt, omega arith)

-- What explode_list_internal() returns behind its sort.
abbrev IsResult : ℕ → ℕ → Parsed → Type 0
IsResult max n Parsed.ran_out = ⊥
IsResult max n Parsed.undefined = ⊥
IsResult max n Parsed.bad = Unit {0}
IsResult max n (Parsed.good o rest) = IsAscending o × AllAtMost max o × IsWithin rest n

internal-IsResult :
    (max : ℕ) (s : Bytes) → max < int_max → IsResult max (length s) (explode_list_internal max s)
unfolding explode_list_internal
internal-IsResult max s v =
    go (rounds (suc (length s)) max s _)
      (rounds-IsParsed (suc (length s)) max s _ (omega arith) v (start-IsScan max))
  where
    go :
        (r : Parsed)
        → IsParsed max (length s) r
        → IsResult max (length s) (elim r [
          | Parsed.good o rest ↦ Parsed.good (unique (sort o)) rest
          | Parsed.ran_out ↦ Parsed.ran_out
          | Parsed.undefined ↦ Parsed.undefined
          | Parsed.bad ↦ Parsed.bad
        ])
    go Parsed.ran_out p = p
    go Parsed.undefined p = p
    go Parsed.bad p = p
    go (Parsed.good o rest) (p, q) = (
      unique-IsAscending (sort o) (sort-IsRising o),
      AllAtMost-unique max (sort o) (AllAtMost-sort max o p),
      q,
    )

-- A call that returns, with -1 or with what satisfies `P`.
abbrev pub Returns : {A : Type 0} → (A → Type 0) → Option (Option A) → Type 0
Returns P none = ⊥
Returns P (some none) = Unit {0}
Returns P (some (some a)) = P a

-- A list of numbers that explode_list() may give.
abbrev pub IsList : ℕ → List ℕ → Type 0
IsList max o = IsAscending o × AllAtMost max o

-- For a maximum below INT_MAX, explode_list() returns, whatever the text; where it does not return -1, its numbers ascend
-- with none twice, and none is above `max`.
pub explode_list-IsList :
    (input : Bytes) (max : ℕ) → max < int_max → Returns (IsList max) (explode_list input (pos max))
unfolding explode_list
explode_list-IsList input max v =
    go (explode_list_internal max input) (internal-IsResult max input v)
  where
    go :
        (r : Parsed)
        → IsResult max (length input) r
        → Returns (IsList max) (elim r [
          | Parsed.good o rest ↦ some (some o)
          | Parsed.bad ↦ some none
          | Parsed.ran_out ↦ none
          | Parsed.undefined ↦ none
        ])
    go Parsed.ran_out p = p
    go Parsed.undefined p = p
    go Parsed.bad p = p
    go (Parsed.good o rest) (p, q, _) = (p, q)

abbrev pub AllLists : ℕ → List (List ℕ) → Type 0
AllLists max [] = Unit {0}
AllLists max (o ∷ l) = IsList max o × AllLists max l

AllLists-append :
    (max : ℕ) (l : List (List ℕ)) (o : List ℕ)
    → AllLists max l
    → IsList max o
    → AllLists max (l ++ o ∷ [])
AllLists-append max [] o p q = (q, tt)
AllLists-append max (m ∷ l) o (h, p) q = (h, AllLists-append max l o p q)

abbrev left_over : Option Bytes → ℕ
left_over none = 0
left_over (some s) = suc (length s)

lists_loop-AllLists :
    (f max : ℕ) (s : Option Bytes) (output : List (List ℕ))
    → left_over s < f
    → max < int_max
    → AllLists max output
    → Returns (AllLists max) (lists_loop f max s output)
unfolding lists_loop
lists_loop-AllLists zero max s output h v p = elim h [ ]
lists_loop-AllLists (suc f) max none output h v p = p
lists_loop-AllLists (suc f) max (some s) output h v p =
    go
      (λ rest output' b q.
        lists_loop-AllLists f max rest output' (omega (arith, within rest (length s) b)) v q)
      (explode_list_internal max s) (internal-IsResult max s v)
  where
    within : (rest : Option Bytes) (n : ℕ) → IsWithin rest n → left_over rest ≤ n
    within none n b = omega arith
    within (some t) n b = omega arith

    go :
        ((rest : Option Bytes) (output' : List (List ℕ))
          → IsWithin rest (length s)
          → AllLists max output'
          → Returns (AllLists max) (lists_loop f max rest output'))
        → (r : Parsed) → IsResult max (length s) r
        → Returns (AllLists max) (elim r [
          | Parsed.good one rest ↦ lists_loop f max rest (output ++ one ∷ [])
          | Parsed.bad ↦ some none
          | Parsed.ran_out ↦ none
          | Parsed.undefined ↦ none
        ])
    go ih Parsed.ran_out q = q
    go ih Parsed.undefined q = q
    go ih Parsed.bad q = q
    go ih (Parsed.good one rest) (a, b, w) =
        ih rest (output ++ one ∷ []) w (AllLists-append max output one p (a, b))

-- For a maximum below INT_MAX, explode_lists() returns, whatever the text; where it does not return -1, the numbers of each
-- of its lists ascend with none twice, and none is above `max`.
pub explode_lists-AllLists :
    (input : Bytes) (max : ℕ)
    → max < int_max
    → Returns (AllLists max) (explode_lists input (pos max))
unfolding explode_lists
explode_lists-AllLists input max v =
    lists_loop-AllLists (suc (suc (length input))) max (some input) [] (omega arith) v tt
