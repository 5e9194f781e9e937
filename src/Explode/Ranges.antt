-- ===== src/Explode/Ranges.antt =====
-- explode_list() and explode_lists() of flinter/explode.cpp: lists of numbers and of ranges. An `int`
-- is a number here, since no negative one is stored but for the first value of `digit`, which is not
-- read. The counter of the loop over a range overflows where the range ends at INT_MAX, which C++ leaves
-- undefined: that is a result of its own. The end of a text is its NUL. strtoul() is the standard library's: it saturates at ULONG_MAX.
pub mod Sorting
pub mod Sound
use flinter.Base.Int.{ℤ, pos, negsuc}
use flinter.Base.{
  ℕ, zero, suc, ◌+◌, ◌-◌, ◌*◌, ◌^◌, Bool, true, false, not, ◌&&◌, ◌||◌, ◌==◌, leb, ltb,
  if◌then◌else◌, Option, none, some, List, Bytes, [], ◌∷◌, ◌++◌, length, min,
}

-- The enumeration of explode_list_internal().
pub data Last : Type 0 where
  nothing : Last
  dash : Last
  comma : Last
  digit : Last
  range : Last

unfoldable pub is_digit : ℕ → Bool
is_digit c = leb b'0' c && leb c b'9'

-- strtoul() in base 10, at a digit: the value, and what is behind the digits.
unfoldable pub strtoul_loop : ℕ → Bytes → ℕ × Bytes
unfolding is_digit
strtoul_loop n [] = (n, [])
strtoul_loop n (c ∷ s) =
    let rest = strtoul_loop (n * 10 + (c - b'0')) s in if is_digit c then rest else (n, c ∷ s)

unfoldable pub strtoul : Bytes → ℕ × Bytes
unfolding strtoul_loop
strtoul s = let (n, rest) = strtoul_loop 0 s in (min n (2 ^ 64 - 1), rest)

abbrev pub int_max : ℕ
int_max = 2147483647

-- The numbers `i`, `i + 1`, and so on, `n` of them.
pub push_range : ℕ → ℕ → List ℕ
push_range i zero = []
push_range i (suc n) = i ∷ push_range (suc i) n

-- The local variables of the loop.
pub record Scan : Type 0 where
  pub last : Last
  pub digit : ℕ
  pub o : List ℕ

-- How a round ends: NULL is returned, a counter overflows, the loop is left, or it goes on. A pointer is the text from there on, and
-- `none` is one past the end of the text.
pub data Round : Type 0 where
  null : Round
  overflow : Round
  leave : List ℕ → Option Bytes → Round
  next : Scan → Bytes → Round

-- The digits of a number are read, behind the test of `last`.
unfoldable pub number : ℕ → ℕ × Bytes → Scan → Round
unfolding push_range
number max (n, rest) k = if ltb max n then null else elim k.last [
  | dash ↦
      if ltb n k.digit
      then null
      else if n == int_max
      then overflow
      else next (record k { last = range; o = k.o ++ push_range k.digit (suc n - k.digit) }) rest
  | comma ↦ next (record k { last = digit; digit = n }) rest
  | nothing ↦ next (record k { last = digit; digit = n }) rest
  | _ ↦ null
]

unfoldable pub on_comma : Bytes → Scan → Round
on_comma s k = elim k.last [
  | digit ↦ next (record k { last = comma; o = k.o ++ k.digit ∷ [] }) s
  | range ↦ next (record k { last = comma }) s
  | _ ↦ null
]

unfoldable pub on_dash : Bytes → Scan → Round
on_dash s k = elim k.last [ digit ↦ next (record k { last = dash }) s | _ ↦ null ]

unfoldable pub on_end : Option Bytes → Scan → Round
on_end s k = elim k.last [
  | digit ↦ leave (k.o ++ k.digit ∷ []) s
  | range ↦ leave k.o s
  | nothing ↦ leave k.o s
  | _ ↦ null
]

unfoldable pub round : ℕ → Bytes → Scan → Round
round max [] k = on_end none k
round max (c ∷ s) k =
    if is_digit c
    then number max (strtoul (c ∷ s)) k
    else if c == b','
    then on_comma s k
    else if c == b'-'
    then on_dash s k
    else if c == b' ' || c == b'\t'
    then next k s
    else if c == b';' || c == 0
    then on_end (some s) k
    else null

-- What explode_list_internal() returns, before it sorts: nothing, as fuel ran out or a counter
-- overflowed, NULL, or the numbers and the pointer.
pub data Parsed : Type 0 where
  ran_out : Parsed
  undefined : Parsed
  bad : Parsed
  good : List ℕ → Option Bytes → Parsed

pub rounds : ℕ → ℕ → Bytes → Scan → Parsed
rounds zero max s k = ran_out
rounds (suc f) max s k = elim (round max s k) [
  | null ↦ bad
  | overflow ↦ undefined
  | leave o rest ↦ good o rest
  | next k' rest ↦ rounds f max rest k'
]

-- std::sort() of numbers.
unfoldable pub insert_sorted : ℕ → List ℕ → List ℕ
insert_sorted n [] = n ∷ []
insert_sorted n (m ∷ l) = let rest = insert_sorted n l in if leb n m then n ∷ m ∷ l else m ∷ rest

unfoldable pub sort : List ℕ → List ℕ
unfolding insert_sorted
sort [] = []
sort (n ∷ l) = insert_sorted n (sort l)

-- std::unique() and erase(): of equal neighbours the first stays.
unfoldable pub unique_behind : ℕ → List ℕ → List ℕ
unique_behind n [] = []
unique_behind n (m ∷ l) =
    let same = unique_behind n l in
    let other = m ∷ unique_behind m l in if n == m then same else other

unfoldable pub unique : List ℕ → List ℕ
unfolding unique_behind
unique [] = []
unique (n ∷ l) = n ∷ unique_behind n l

unfoldable pub explode_list_internal : ℕ → Bytes → Parsed
unfolding rounds round sort unique
explode_list_internal max s =
    elim (rounds (suc (length s)) max s (record { last = nothing; digit = 0; o = [] })) [
      | good o rest ↦ good (unique (sort o)) rest
      | ran_out ↦ ran_out
      | undefined ↦ undefined
      | bad ↦ bad
    ]

-- explode_list(): `none` where it does not return, and `some none` for -1.
unfoldable pub explode_list : Bytes → ℤ → Option (Option (List ℕ))
unfolding explode_list_internal
explode_list input (negsuc _) = some none
explode_list input (pos max) = elim (explode_list_internal max input) [
  | good o rest ↦ some (some o)
  | bad ↦ some none
  | ran_out ↦ none
  | undefined ↦ none
]

-- The loop of explode_lists(), from a pointer on. A list takes at least one character, so that the
-- length and two are fuel enough.
pub lists_loop : ℕ → ℕ → Option Bytes → List (List ℕ) → Option (Option (List (List ℕ)))
unfolding explode_list_internal
lists_loop zero max s output = none
lists_loop (suc f) max none output = some (some output)
lists_loop (suc f) max (some s) output = elim (explode_list_internal max s) [
  | good one rest ↦ lists_loop f max rest (output ++ one ∷ [])
  | bad ↦ some none
  | ran_out ↦ none
  | undefined ↦ none
]

unfoldable pub explode_lists : Bytes → ℤ → Option (Option (List (List ℕ)))
unfolding lists_loop
explode_lists input (negsuc _) = some none
explode_lists input (pos max) = lists_loop (suc (suc (length input))) max (some input) []
