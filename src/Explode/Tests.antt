-- ===== src/Explode/Tests.antt =====
-- Runs of explode() of flinter/explode.cpp.
use flinter.Base.{arith, none, ◌≡◌, refl, true, false, some, Bytes, [], ◌∷◌, codes}
use flinter.Explode.{explode, explode_set}
use flinter.Explode.Fields.{explode-fields, explode_set-fields, fields, kept, solid}
use flinter.Base.Int.{pos}
use flinter.Explode.Ranges.{
  explode_list, explode_lists, round, is_digit, strtoul, number, on_comma, on_dash, on_end,
}
use flinter.Explode.Ranges.Sound.{
  Returns, IsList, AllLists, explode_list-IsList, explode_lists-AllLists,
}

abbrev path : Bytes
path = codes "/usr//bin:"

explode_run :
    explode (codes ",a,,b") (codes ",") true
    ≡ some (codes "" ∷ codes "a" ∷ codes "" ∷ codes "b" ∷ [])
unfolding explode
explode_run = refl

explode-fields_example :
    explode path (codes "/:") false ≡ some (kept false (fields (codes "/:") [] path))
explode-fields_example = explode-fields path (codes "/:") false

explode_set-fields_example :
    explode_set path (codes "/:") ≡ some (solid (fields (codes "/:") [] path))
explode_set-fields_example = explode_set-fields path (codes "/:")

abbrev ranges : Bytes
ranges = codes "7, 1-3,2;5"

ranges_run : explode_list ranges (pos 9) ≡ some (some (1 ∷ 2 ∷ 3 ∷ 7 ∷ []))
unfolding explode_list round is_digit strtoul number on_comma on_dash on_end
ranges_run = refl

lists_run : explode_lists ranges (pos 9) ≡ some (some ((1 ∷ 2 ∷ 3 ∷ 7 ∷ []) ∷ (5 ∷ []) ∷ []))
unfolding explode_lists round is_digit strtoul number on_comma on_dash on_end
lists_run = refl

range_too_high : explode_list ranges (pos 6) ≡ some none
unfolding explode_list round is_digit strtoul number on_comma on_dash on_end
range_too_high = refl

-- A range up to INT_MAX overflows.
range_overflows : explode_list (codes "0-2147483647") (pos 2147483647) ≡ none
unfolding explode_list round is_digit strtoul number on_comma on_dash on_end
range_overflows = refl

explode_list-IsList_example : Returns (IsList 9) (explode_list ranges (pos 9))
explode_list-IsList_example = explode_list-IsList ranges 9 (omega arith)

explode_lists-AllLists_example : Returns (AllLists 9) (explode_lists ranges (pos 9))
explode_lists-AllLists_example = explode_lists-AllLists ranges 9 (omega arith)
