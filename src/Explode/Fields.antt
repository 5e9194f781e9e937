-- ===== src/Explode/Fields.antt =====
-- explode() against a plain description of the fields of a text.
use flinter.Base.{
  ℕ, zero, suc, ◌<◌, ◌≡◌, inl, inr, refl, sym, ap, ◌∙◌, Bool, true, false, not, ◌||◌, ◌==◌,
  if◌then◌else◌, none, some, List, Bytes, [], ◌∷◌, ◌++◌, length, drop, take, arith, append_assoc,
  append-nil, length-drop, Bool-cases, Option-cases,
}
use flinter.Explode.{is_delim, find_first_of, explode_loop, explode, explode_set_loop, explode_set}

-- The fields of a text, empty ones included, of which the first is begun by `cur`: a delimiter ends a
-- field, wherever it stands.
pub fields : Bytes → Bytes → Bytes → List Bytes
fields delim cur [] = cur ∷ []
fields delim cur (c ∷ s) = elim (is_delim delim c) [
  | true ↦ cur ∷ fields delim [] s
  | false ↦ fields delim (cur ++ c ∷ []) s
]

-- The fields that are not empty.
pub solid : List Bytes → List Bytes
solid [] = []
solid ([] ∷ l) = solid l
solid ((c ∷ s) ∷ l) = (c ∷ s) ∷ solid l

fields-none :
    (delim cur s : Bytes) → find_first_of delim s ≡ none → fields delim cur s ≡ (cur ++ s) ∷ []
unfolding fields find_first_of
fields-none delim cur [] e = ap (λ x. x ∷ []) (sym (append-nil cur))
fields-none delim cur (c ∷ s) e =
    ground (arith, fields-none delim (cur ++ c ∷ []) s, append_assoc cur (c ∷ []) s)

fields_hit :
    (delim cur : Bytes) (c : ℕ) (s : Bytes)
    → is_delim delim c ≡ true
    → fields delim cur (c ∷ s) ≡ cur ∷ fields delim [] s
unfolding fields
fields_hit delim cur c s hit = rw (hit, fields)

fields_miss :
    (delim cur : Bytes) (c : ℕ) (s : Bytes)
    → is_delim delim c ≡ false
    → fields delim cur (c ∷ s) ≡ fields delim (cur ++ c ∷ []) s
unfolding fields
fields_miss delim cur c s miss = rw (miss, fields)

fields-hit :
    (delim cur s : Bytes) (n : ℕ)
    → find_first_of delim s ≡ some n
    → (fields delim cur s ≡ (cur ++ take n s) ∷ fields delim [] (drop (suc n) s)) × (n < length s)
unfolding find_first_of
fields-hit delim cur [] n e = absurd (cc)
fields-hit delim cur (c ∷ s) n e = elim (Bool-cases (is_delim delim c)) [
  | inl hit ↦
      let first : n ≡ 0 = ground arith in
      (fields_hit delim cur c s hit ∙ rw (first, append-nil cur), omega arith)
  | inr miss ↦ elim (Option-cases (find_first_of delim s)) [
    | inl gone ↦ absurd (ground arith)
    | inr (m, found) ↦
        let size : n ≡ suc m = ground arith in
        let (cut, small) = fields-hit delim (cur ++ c ∷ []) s m found in
        (
          fields_miss delim cur c s miss ∙ cut ∙ rw (size, append_assoc cur (c ∷ []) (take m s)),
          omega (arith, small),
        )
  ]
]

solid-append : (l m : List Bytes) → solid (l ++ m) ≡ solid l ++ solid m
unfolding solid
solid-append [] m = refl
solid-append ([] ∷ l) m = solid-append l m
solid-append ((c ∷ s) ∷ l) m = ap (λ x. (c ∷ s) ∷ x) (solid-append l m)

-- What is kept of the fields.
pub kept : Bool → List Bytes → List Bytes
kept true l = l
kept false l = solid l

-- The part that a round appends.
kept_part :
    (keep : Bool) (c : ℕ) (s : Bytes) (n : ℕ) (result rest : List Bytes)
    → (if not (n == 0) || keep then result ++ take n (c ∷ s) ∷ [] else result) ++ kept keep rest
      ≡ result ++ kept keep (take n (c ∷ s) ∷ rest)
unfolding kept solid
kept_part true c s n result rest = ground (arith, append_assoc result (take n (c ∷ s) ∷ []) rest)
kept_part false c s zero result rest = refl
kept_part false c s (suc n) result rest =
    ground (arith, append_assoc result (take (suc n) (c ∷ s) ∷ []) (solid rest))

kept_one : (keep : Bool) (c : ℕ) (s : Bytes) → kept keep ((c ∷ s) ∷ []) ≡ (c ∷ s) ∷ []
unfolding kept solid
kept_one true c s = refl
kept_one false c s = refl

explode_loop-fields :
    (f : ℕ) (delim : Bytes) (keep : Bool) (s : Bytes) (result : List Bytes)
    → length s < f
    → explode_loop f delim keep s result ≡ some (result ++ kept keep (fields delim [] s))
unfolding explode_loop
explode_loop-fields zero delim keep s result h = elim h [ ]
explode_loop-fields (suc f) delim true [] result h = unfold kept fields in refl
explode_loop-fields (suc f) delim false [] result h =
    unfold kept solid fields in ap some (sym (append-nil result))
explode_loop-fields (suc f) delim keep (c ∷ s) result h =
    elim (Option-cases (find_first_of delim (c ∷ s))) [
      | inl gone ↦
          rw (gone, explode_loop)
            (ap some (
              ap (λ x. result ++ x)
                (sym (ap (kept keep) (fields-none delim [] (c ∷ s) gone) ∙ kept_one keep c s))))
      | inr (n, found) ↦
          let (cut, small) = fields-hit delim [] (c ∷ s) n found in
          rw (found, explode_loop)
            (explode_loop-fields f delim keep (drop n s) _ (omega (arith, length-drop n s))
              ∙ ap some (
                  kept_part keep c s n result (fields delim [] (drop n s))
                  ∙ ap (λ x. result ++ kept keep x) (sym cut)))
    ]

-- explode() returns, and what it gives is the text cut at every delimiter: all of the fields in
-- order, the empty ones among them if they are to be preserved, and without them if not.
pub explode-fields :
    (methods delim : Bytes) (preserve_null : Bool)
    → explode methods delim preserve_null ≡ some (kept preserve_null (fields delim [] methods))
unfolding explode
explode-fields methods delim preserve_null =
    explode_loop-fields (suc (length methods)) delim preserve_null methods [] (omega arith)

or_false : (b : Bool) (x y : List Bytes) → (if b then x else y) ≡ (if b || false then x else y)
or_false true x y = refl
or_false false x y = refl

explode_set_loop-explode_loop :
    (f : ℕ) (delim s : Bytes) (result : List Bytes)
    → explode_set_loop f delim s result ≡ explode_loop f delim false s result
unfolding explode_set_loop explode_loop
explode_set_loop-explode_loop zero delim s result = refl
explode_set_loop-explode_loop (suc f) delim [] result = refl
explode_set_loop-explode_loop (suc f) delim (c ∷ s) result =
    elim (Option-cases (find_first_of delim (c ∷ s))) [
      | inl gone ↦ rw (gone, explode_set_loop, explode_loop)
      | inr (n, found) ↦
          rw (found, explode_set_loop, explode_loop)
            (explode_set_loop-explode_loop f delim (drop n s) _
              ∙ ap (λ r. explode_loop f delim false (drop n s) r)
                  (or_false (not (n == 0)) (result ++ take n (c ∷ s) ∷ []) result))
    ]

-- explode() into a set returns, and inserts exactly the fields of the text that are not empty, in
-- their order.
pub explode_set-fields :
    (methods delim : Bytes) → explode_set methods delim ≡ some (solid (fields delim [] methods))
unfolding explode_set explode kept
explode_set-fields methods delim =
    explode_set_loop-explode_loop (suc (length methods)) delim methods []
    ∙ explode-fields methods delim false
