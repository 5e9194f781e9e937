-- ===== src/Trim/Ends.antt =====
-- What trim(), ltrim() and rtrim() take off.
use flinter.Base.{
  ℕ, suc, ◌+◌, ◌-◌, ◌≡◌, refl, sym, ap, ◌∙◌, if◌then◌else◌, Option, none, some, Bytes, [], ◌∷◌,
  take, drop, arith, Bool-cases, Option-cases, inl, inr,
}
use flinter.Trim.{is_blank, c_str, find_first_not_of, find_last_not_of, substr, trim, ltrim, rtrim}

-- A text without the blanks at its front, and at its end.
pub strip : Bytes → Bytes
strip [] = []
strip (c ∷ s) = let rest = strip s in if is_blank c then rest else c ∷ s

pub strip_end : Bytes → Bytes
strip_end [] = []
strip_end (c ∷ s) = elim (strip_end s) [
  | [] ↦ if is_blank c then [] else c ∷ []
  | ◌∷◌ d rest ↦ c ∷ d ∷ rest
]

front : Bytes → Option ℕ → Bytes
front s none = []
front s (some n) = drop n s

back : Bytes → Option ℕ → Bytes
back s none = []
back s (some n) = take (suc n) s

front-strip : (s : Bytes) → front s (find_first_not_of s) ≡ strip s
unfolding front find_first_not_of strip
front-strip [] = refl
front-strip (c ∷ s) = elim (Bool-cases (is_blank c)) [
  | inl blank ↦ elim (Option-cases (find_first_not_of s)) [
    | inl gone ↦ ground (arith, front-strip s, gone)
    | inr (n, found) ↦ ground (arith, front-strip s, found)
  ]
  | inr solid ↦ ground (arith)
]

longer_none :
    (c : ℕ) (s : Bytes)
    → find_last_not_of s ≡ none
    → [] ≡ strip_end s
    → back (c ∷ s) (find_last_not_of (c ∷ s)) ≡ strip_end (c ∷ s)
unfolding back find_last_not_of strip_end
longer_none c s gone e = rw (gone, find_last_not_of, sym e) (ground arith)

last_longer :
    (c : ℕ) (s : Bytes) {n : ℕ}
    → find_last_not_of s ≡ some n
    → find_last_not_of (c ∷ s) ≡ some (suc n)
unfolding find_last_not_of
last_longer c s found = rw (found, find_last_not_of)

strip_longer : (c d : ℕ) (s r : Bytes) → strip_end s ≡ d ∷ r → strip_end (c ∷ s) ≡ c ∷ d ∷ r
unfolding strip_end
strip_longer c d s r e = rw (e, strip_end)

longer_some :
    (c d : ℕ) (s : Bytes) (n : ℕ)
    → find_last_not_of (d ∷ s) ≡ some n
    → back (d ∷ s) (some n) ≡ strip_end (d ∷ s)
    → back (c ∷ d ∷ s) (find_last_not_of (c ∷ d ∷ s)) ≡ strip_end (c ∷ d ∷ s)
unfolding back
longer_some c d s n found e =
    ap (back (c ∷ d ∷ s)) (last_longer c (d ∷ s) found)
    ∙ sym (strip_longer c d (d ∷ s) (take n s) (sym e))

back-strip_end : (s : Bytes) → back s (find_last_not_of s) ≡ strip_end s
unfolding back find_last_not_of strip_end
back-strip_end [] = refl
back-strip_end (c ∷ []) = ground arith
back-strip_end (c ∷ d ∷ s) = elim (Option-cases (find_last_not_of (d ∷ s))) [
  | inl gone ↦ longer_none c (d ∷ s) gone (rw gone at (back-strip_end (d ∷ s)))
  | inr (n, found) ↦ longer_some c d s n found (rw found at (back-strip_end (d ∷ s)))
]

-- Some character is no blank at both ends, or at none.
none_ends : (s : Bytes) → find_last_not_of s ≡ none → find_first_not_of s ≡ none
unfolding find_last_not_of find_first_not_of
none_ends [] e = refl
none_ends (c ∷ s) e = ground (arith, none_ends s, e)

-- The last one, counted from the first one.
none-some : {a : ℕ} → none ≡ some a → ⊥
none-some e = ground arith

some-injective : {a b : ℕ} → some a ≡ some b → a ≡ b
some-injective e = ground arith

last_behind :
    (s : Bytes) (h t : ℕ)
    → find_first_not_of s ≡ some h
    → find_last_not_of s ≡ some t
    → find_last_not_of (drop h s) ≡ some (t - h)
unfolding find_first_not_of
last_behind [] h t e f = absurd (ground arith)
last_behind (c ∷ s) h t e f = elim (Bool-cases (is_blank c)) [
  | inl blank ↦ elim (Option-cases (find_first_not_of s)) [
    | inl gone ↦ absurd (ground arith)
    | inr (h', first) ↦ elim (Option-cases (find_last_not_of s)) [
      | inl gone ↦ absurd (none-some (sym (none_ends s gone) ∙ first))
      | inr (t', last) ↦
          let at_h : h ≡ suc h' = ground arith in
          let at_t : t ≡ suc t' = some-injective (sym f ∙ last_longer c s last) in
          rw (at_h, at_t) (last_behind s h' t' first last ∙ ap some (omega arith))
    ]
  ]
  | inr solid ↦ let at_h : h ≡ 0 = ground arith in rw at_h (f ∙ ap some (omega arith))
]

take_both :
    (h t : ℕ) (s : Bytes)
    → find_first_not_of s ≡ some h
    → find_last_not_of s ≡ some t
    → substr h (t - h + 1) s ≡ strip_end (strip s)
unfolding substr front back
take_both h t s first last =
    let at_front : drop h s ≡ strip s = sym (ap (front s) first) ∙ front-strip s in
    let at_back : take (suc (t - h)) (drop h s) ≡ strip_end (drop h s) =
      sym (ap (back (drop h s)) (last_behind s h t first last)) ∙ back-strip_end (drop h s) in
    ap (λ (n : ℕ). take n (drop h s)) {x = t - h + 1} {y = suc (t - h)} (omega arith)
    ∙ at_back
    ∙ ap strip_end at_front

trim_cases : (string : Bytes) → trim string ≡ strip_end (strip (c_str string))
unfolding trim front strip_end
trim_cases string = elim (Option-cases (find_first_not_of (c_str string))) [
  | inl gone ↦
      rw (gone, trim)
        (ap strip_end (sym (ap (front (c_str string)) gone) ∙ front-strip (c_str string)))
  | inr (h, first) ↦ elim (Option-cases (find_last_not_of (c_str string))) [
    | inl gone ↦ absurd (none-some (sym (none_ends (c_str string) gone) ∙ first))
    | inr (t, last) ↦ rw (first, last, trim) (take_both h t (c_str string) first last)
  ]
]

ltrim_cases : (string : Bytes) → ltrim string ≡ strip (c_str string)
unfolding ltrim front
ltrim_cases string = elim (Option-cases (find_first_not_of (c_str string))) [
  | inl gone ↦ rw (gone, ltrim) (sym (ap (front (c_str string)) gone) ∙ front-strip (c_str string))
  | inr (h, first) ↦
      rw (first, ltrim) (sym (ap (front (c_str string)) first) ∙ front-strip (c_str string))
]

rtrim_cases : (string : Bytes) → rtrim string ≡ strip_end (c_str string)
unfolding rtrim back substr
rtrim_cases string = elim (Option-cases (find_last_not_of (c_str string))) [
  | inl gone ↦
      rw (gone, rtrim) (sym (ap (back (c_str string)) gone) ∙ back-strip_end (c_str string))
  | inr (t, last) ↦
      rw (last, rtrim)
        (ap (λ (n : ℕ). take n (c_str string)) {x = t + 1} {y = suc t} (omega arith)
          ∙ sym (ap (back (c_str string)) last)
          ∙ back-strip_end (c_str string))
]

-- trim() takes off the text from its first NUL on, and then the blanks at both ends; ltrim() and rtrim()
-- take off the text from the first NUL on, and the blanks at one end.
pub trim-strip :
    (string : Bytes)
    → (trim string ≡ strip_end (strip (c_str string)))
      × (ltrim string ≡ strip (c_str string))
      × (rtrim string ≡ strip_end (c_str string))
trim-strip string = (trim_cases string, ltrim_cases string, rtrim_cases string)
