-- ===== src/Trim.antt =====
-- flinter/trim.cpp: blanks at the ends of a text. Positions are those of std::string, and `none` is
-- std::string::npos.
pub mod Ends
mod Tests
use flinter.Base.{
  ℕ, zero, suc, ◌+◌, ◌-◌, Bool, true, false, ◌||◌, ◌==◌, if◌then◌else◌, Option, none, some, Bytes,
  [], ◌∷◌, take, drop,
}

-- The characters of DELIMITER.
unfoldable pub is_blank : ℕ → Bool
is_blank c =
    c == b' ' || c == b'\t' || c == b'\r' || c == b'\n' || c == 12 || c == 11 || c == 8 || c == 7

-- string.c_str() as a new string: up to the first NUL.
unfoldable pub c_str : Bytes → Bytes
c_str [] = []
c_str (c ∷ s) = let rest = c_str s in if c == 0 then [] else c ∷ rest

unfoldable pub find_first_not_of : Bytes → Option ℕ
unfolding is_blank
find_first_not_of [] = none
find_first_not_of (c ∷ s) =
    let rest = find_first_not_of s in
    if is_blank c then elim rest [ none ↦ none | some n ↦ some (suc n) ] else some 0

unfoldable pub find_last_not_of : Bytes → Option ℕ
unfolding is_blank
find_last_not_of [] = none
find_last_not_of (c ∷ s) = elim (find_last_not_of s) [
  | some n ↦ some (suc n)
  | none ↦ if is_blank c then none else some 0
]

-- str.substr(pos, n).
unfoldable pub substr : ℕ → ℕ → Bytes → Bytes
substr pos n str = take n (drop pos str)

-- Behind the test of `strhead`, find_last_not_of() does find one; npos + 1 is 0 otherwise.
unfoldable pub trim : Bytes → Bytes
unfolding c_str find_first_not_of find_last_not_of substr
trim string = elim (find_first_not_of (c_str string)) [
  | none ↦ []
  | some strhead ↦ elim (find_last_not_of (c_str string)) [
    | none ↦ []
    | some strtail ↦ substr strhead (strtail - strhead + 1) (c_str string)
  ]
]

unfoldable pub ltrim : Bytes → Bytes
unfolding c_str find_first_not_of
ltrim string = elim (find_first_not_of (c_str string)) [
  | none ↦ []
  | some strhead ↦ drop strhead (c_str string)
]

unfoldable pub rtrim : Bytes → Bytes
unfolding c_str find_last_not_of substr
rtrim string = elim (find_last_not_of (c_str string)) [
  | none ↦ []
  | some strtail ↦ substr 0 (strtail + 1) (c_str string)
]
