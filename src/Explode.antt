-- ===== src/Explode.antt =====
-- flinter/explode.cpp: text cut at delimiters, and lists of numbers and ranges. `int` values are
-- numbers here, since `max` is not negative and no value above it is stored. strtoul() is the
-- standard library's: it saturates at ULONG_MAX.
pub mod Fields
pub mod Ranges
mod Tests
use flinter.Base.{
  ℕ, zero, suc, ◌+◌, ◌-◌, ◌*◌, ◌^◌, Bool, true, false, not, ◌&&◌, ◌||◌, ◌==◌, leb, ltb,
  if◌then◌else◌, Option, none, some, List, Bytes, [], ◌∷◌, ◌++◌, length, drop, take, min,
}

-- strchr(delim, c) for the characters of a delimiter string.
pub is_delim : Bytes → ℕ → Bool
is_delim [] c = false
is_delim (d ∷ delim) c = d == c || is_delim delim c

-- methods.find_first_of(delim, pos) on the part from `pos`: how far off the hit is.
pub find_first_of : Bytes → Bytes → Option ℕ
unfolding is_delim
find_first_of delim [] = none
find_first_of delim (c ∷ s) =
    if is_delim delim c
    then some 0
    else elim (find_first_of delim s) [ none ↦ none | some n ↦ some (suc n) ]

-- The loop of explode_internal(): `s` is the part of `methods` from `pos`. Each round takes at least
-- one character, so the length is fuel enough; `none` is a loop that ran out of it.
pub explode_loop : ℕ → Bytes → Bool → Bytes → List Bytes → Option (List Bytes)
unfolding find_first_of
explode_loop zero delim keep s result = none
explode_loop (suc f) delim keep [] result = some (if keep then result ++ [] ∷ [] else result)
explode_loop (suc f) delim keep (c ∷ s) result = elim (find_first_of delim (c ∷ s)) [
  | none ↦ some (result ++ (c ∷ s) ∷ [])
  | some hit ↦
      explode_loop f delim keep (drop (suc hit) (c ∷ s))
        (if not (hit == 0) || keep then result ++ take hit (c ∷ s) ∷ [] else result)
]

-- explode() into a vector or a list.
unfoldable pub explode : Bytes → Bytes → Bool → Option (List Bytes)
unfolding explode_loop
explode methods delim preserve_null =
    explode_loop (suc (length methods)) delim preserve_null methods []

-- explode() into a set: what is inserted, in order.
pub explode_set_loop : ℕ → Bytes → Bytes → List Bytes → Option (List Bytes)
unfolding find_first_of
explode_set_loop zero delim s result = none
explode_set_loop (suc f) delim [] result = some result
explode_set_loop (suc f) delim (c ∷ s) result = elim (find_first_of delim (c ∷ s)) [
  | none ↦ some (result ++ (c ∷ s) ∷ [])
  | some hit ↦
      explode_set_loop f delim (drop (suc hit) (c ∷ s))
        (if not (hit == 0) then result ++ take hit (c ∷ s) ∷ [] else result)
]

unfoldable pub explode_set : Bytes → Bytes → Option (List Bytes)
unfolding explode_set_loop
explode_set methods delim = explode_set_loop (suc (length methods)) delim methods []
