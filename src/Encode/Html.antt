-- ===== src/Encode/Html.antt =====
-- EscapeHtml() of flinter/encode.cpp.
use flinter.Base.{
  ℕ, ◌+◌, ◌≡◌, ◌≢◌, refl, sym, ◌∙◌, Bool, true, false, ◌||◌, ◌==◌, if◌then◌else◌, Bytes, [], ◌∷◌,
  ◌++◌, length, codes, arith, append_assoc, append-nil, length-append,
}

-- The second loop: what is appended for one character.
unfoldable pub escape_char : Bool → ℕ → Bytes
escape_char ie c =
    if c == b'<'
    then codes "&lt;"
    else if c == b'>'
    then codes "&gt;"
    else if c == b'&'
    then codes "&amp;"
    else if c == b'"'
    then codes "&quot;"
    else if c == b'\''
    then (if ie then codes "&#039;" else codes "&apos;")
    else c ∷ []

-- The first loop: the bytes that the escapes add.
unfoldable pub extra_char : ℕ → ℕ
extra_char c =
    if (c == b'<') || (c == b'>')
    then 3
    else if c == b'&'
    then 4
    else if (c == b'\'') || (c == b'"')
    then 5
    else 0

pub extra_loop : Bytes → ℕ → ℕ
extra_loop [] extra = extra
extra_loop (c ∷ html) extra = extra_loop html (extra + extra_char c)

pub escape_loop : Bool → Bytes → Bytes → Bytes
escape_loop ie [] result = result
escape_loop ie (c ∷ html) result = escape_loop ie html (result ++ escape_char ie c)

unfoldable pub escape_html : Bytes → Bool → Bytes
unfolding extra_loop escape_loop
escape_html html ie =
    if length html == 0
    then html
    else if extra_loop html 0 == 0
    then html
    else escape_loop ie html []

-- One character after another.
each : Bool → Bytes → Bytes
each ie [] = []
each ie (c ∷ html) = escape_char ie c ++ each ie html

escape_loop-each : (ie : Bool) (html out : Bytes) → escape_loop ie html out ≡ out ++ each ie html
unfolding escape_loop each
escape_loop-each ie [] out = sym (append-nil out)
escape_loop-each ie (c ∷ html) out =
    escape_loop-each ie html _ ∙ append_assoc out (escape_char ie c) (each ie html)

extra : Bytes → ℕ
extra [] = 0
extra (c ∷ html) = extra_char c + extra html

extra_loop_lem : (html : Bytes) (n : ℕ) → extra_loop html n ≡ n + extra html
unfolding extra_loop extra
extra_loop_lem [] n = omega arith
extra_loop_lem (c ∷ html) n = omega (arith, extra_loop_lem html (n + extra_char c))

length-escape_char : (ie : Bool) (c : ℕ) → length (escape_char ie c) ≡ 1 + extra_char c
unfolding escape_char extra_char
length-escape_char ie c = ground arith

plain_char : (ie : Bool) (c : ℕ) → extra_char c ≡ 0 → escape_char ie c ≡ c ∷ []
unfolding escape_char extra_char
plain_char ie c e = ground arith

each-plain : (ie : Bool) (html : Bytes) → extra html ≡ 0 → each ie html ≡ html
unfolding extra each
each-plain ie [] e = refl
each-plain ie (c ∷ html) e = rw (plain_char ie c (omega arith), each-plain ie html (omega arith))

length-each : (ie : Bool) (html : Bytes) → length (each ie html) ≡ length html + extra html
unfolding each extra
length-each ie [] = refl
length-each ie (c ∷ html) = omega (
  arith,
  length-append (escape_char ie c) (each ie html),
  length-escape_char ie c,
  length-each ie html,
)

escape_html-each : (html : Bytes) (ie : Bool) → escape_html html ie ≡ each ie html
unfolding escape_html each
escape_html-each [] ie = refl
escape_html-each (c ∷ html) ie = ground (
  arith,
  extra_loop_lem (c ∷ html) 0,
  each-plain ie (c ∷ html),
  escape_loop-each ie (c ∷ html) [],
)

-- No character of markup is left, but for the ampersand that begins an escape.
abbrev pub IsSafe : Bytes → Type 0
IsSafe [] = Unit {0}
IsSafe (c ∷ s) = (c ≢ b'<') × (c ≢ b'>') × (c ≢ b'"') × (c ≢ b'\'') × IsSafe s

IsSafe-append : (s t : Bytes) → IsSafe s → IsSafe t → IsSafe (s ++ t)
IsSafe-append [] t p q = q
IsSafe-append (c ∷ s) t p q = (p.0, p.1, p.2, p.3, IsSafe-append s t p.4 q)

escape_char-IsSafe : (ie : Bool) (c : ℕ) → IsSafe (escape_char ie c)
unfolding escape_char
escape_char-IsSafe ie c = ground arith

each-IsSafe : (ie : Bool) (html : Bytes) → IsSafe (each ie html)
unfolding each
each-IsSafe ie [] = tt
each-IsSafe ie (c ∷ html) =
    IsSafe-append (escape_char ie c) (each ie html) (escape_char-IsSafe ie c) (each-IsSafe ie html)

-- The text that EscapeHtml() gives holds no angle bracket and no quote of either kind, and its
-- length is the one that is reserved for it: that of the input and the extra bytes counted first.
pub escape_html-IsSafe :
    (html : Bytes) (ie : Bool)
    → IsSafe (escape_html html ie)
      × (length (escape_html html ie) ≡ length html + extra_loop html 0)
escape_html-IsSafe html ie = (
  rw (escape_html-each html ie) (each-IsSafe ie html),
  rw (escape_html-each html ie) (omega (arith, length-each ie html, extra_loop_lem html 0)),
)

-- The first escape of a text tells its first character.
escape_char-append :
    (ie : Bool) (c d : ℕ) (x y : Bytes)
    → escape_char ie c ++ x ≡ escape_char ie d ++ y
    → (c ≡ d) × (x ≡ y)
unfolding escape_char
escape_char-append true c d x y e = ground arith
escape_char-append false c d x y e = ground arith

not_nothing : (ie : Bool) (c : ℕ) (x : Bytes) → [] ≢ escape_char ie c ++ x
unfolding escape_char
not_nothing ie c x e = ground arith

each-injective : (ie : Bool) (s t : Bytes) → each ie s ≡ each ie t → s ≡ t
unfolding each
each-injective ie [] [] e = refl
each-injective ie [] (d ∷ t) e = absurd (not_nothing ie d (each ie t) e)
each-injective ie (c ∷ s) [] e = absurd (not_nothing ie c (each ie s) (sym e))
each-injective ie (c ∷ s) (d ∷ t) e =
    let (same, rest) = escape_char-append ie c d (each ie s) (each ie t) e in
    rw (same, each-injective ie s t rest)

-- Two texts that EscapeHtml() makes equal are equal: nothing is lost, in either style of the
-- apostrophe.
pub escape_html-injective : (s t : Bytes) (ie : Bool) → escape_html s ie ≡ escape_html t ie → s ≡ t
escape_html-injective s t ie e =
    each-injective ie s t (sym (escape_html-each s ie) ∙ e ∙ escape_html-each t ie)
