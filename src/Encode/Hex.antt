-- ===== src/Encode/Hex.antt =====
-- DecodeHex() undoes EncodeHex(), and reads nothing else but the same digits in lower case.
use flinter.Base.{
  ℕ, suc, zero, ◌+◌, ◌-◌, ◌*◌, ◌/◌, ◌%◌, ◌<◌, ◌≤◌, ◌≡◌, ◌≢◌, ◌⊎◌, inl, inr, Option-cases,
  Bool-cases, refl, sym, ap, ◌∙◌, Bool, true, false, ◌&&◌, ◌==◌, Option, none, some, Bytes, [], ◌∷◌,
  ◌++◌, length, replicate, take, arith, append_assoc, append-nil, length-append, length-take,
  length-replicate,
}
use flinter.Encode.{
  hex_char, hex_digit, encode_loop, encode_hex, decode_pair, decode_loop, decode_hex, resize,
}

-- Every element is below 256.
abbrev pub IsBytes : Bytes → Type 0
IsBytes [] = Unit {0}
IsBytes (c ∷ s) = (c < 256) × IsBytes s

-- A digit below `k` is read back.
reads_back : ℕ → Bool
reads_back n = elim (hex_char (hex_digit n)) [ none ↦ false | some m ↦ m == n ]

all_read : ℕ → Bool
all_read zero = true
all_read (suc k) = reads_back k && all_read k

all_read-sixteen : all_read 16 ≡ true
unfolding all_read reads_back hex_char hex_digit
all_read-sixteen = refl

reads_back_below : (k n : ℕ) → all_read k ≡ true → n < k → reads_back n ≡ true
unfolding all_read
reads_back_below zero n t l = elim l [ ]
reads_back_below (suc k) n t l = ground (arith, reads_back_below k n)

hex_char-hex_digit : (n : ℕ) → n < 16 → hex_char (hex_digit n) ≡ some n
unfolding reads_back
hex_char-hex_digit n h = read (hex_char (hex_digit n)) (reads_back_below 16 n all_read-sixteen h)
  where
    read : (o : Option ℕ) → elim o [ none ↦ false | some m ↦ m == n ] ≡ true → o ≡ some n
    read none e = cc
    read (some m) e = ground arith

-- The digits of a text, one pair for each byte.
pairs : Bytes → Bytes
pairs [] = []
pairs (c ∷ s) = hex_digit (c / 16) ∷ hex_digit (c % 16) ∷ pairs s

encode_loop-pairs : (s out : Bytes) → encode_loop s out ≡ out ++ pairs s
unfolding encode_loop pairs
encode_loop-pairs [] out = sym (append-nil out)
encode_loop-pairs (c ∷ s) out = encode_loop-pairs s _ ∙ append_assoc out _ (pairs s)

encode_hex-pairs : (s : Bytes) → encode_hex s ≡ pairs s
unfolding encode_hex pairs
encode_hex-pairs [] = refl
encode_hex-pairs (c ∷ s) = encode_loop-pairs (c ∷ s) []

length-pairs : (s : Bytes) → length (pairs s) ≡ 2 * length s
unfolding pairs
length-pairs [] = refl
length-pairs (c ∷ s) = omega (arith, length-pairs s)

decode_pair-digits :
    (c : ℕ) → c < 256 → decode_pair (hex_digit (c / 16)) (hex_digit (c % 16)) ≡ some c
unfolding decode_pair
decode_pair-digits c h =
    rw
      (
        hex_char-hex_digit (c / 16) (omega arith),
        hex_char-hex_digit (c % 16) (omega arith),
        decode_pair,
      )
      (ap some (omega arith))

decode_loop-pairs :
    (s out rest : Bytes)
    → IsBytes s
    → length rest ≡ length s
    → decode_loop (pairs s) out rest ≡ (true, out ++ s)
unfolding decode_loop pairs
decode_loop-pairs [] out [] b e = refl
decode_loop-pairs [] out (x ∷ rest) b e = absurd (omega arith)
decode_loop-pairs (c ∷ s) out [] b e = absurd (omega arith)
decode_loop-pairs (c ∷ s) out (x ∷ rest) b e =
    rw (decode_pair-digits c b.0, decode_loop)
      (decode_loop-pairs s (out ++ c ∷ []) rest b.1 (omega arith)
        ∙ ap (λ r. (true, r)) (append_assoc out (c ∷ []) s))

length-resize : (n : ℕ) (s : Bytes) → length (resize n s) ≡ n
unfolding resize
length-resize n s = omega (
  arith,
  length-append (take n s) (replicate (n - length s) 0),
  length-take n s,
  length-replicate {A = ℕ} (n - length s) 0,
)

-- DecodeHex() gives back any text that EncodeHex() was given, but for the empty one, whatever its
-- target held before.
pub decode_hex-encode_hex :
    (s what : Bytes) → IsBytes s → s ≢ [] → decode_hex (encode_hex s) what ≡ (true, s)
unfolding decode_hex
decode_hex-encode_hex [] what b h = absurd (h refl)
decode_hex-encode_hex (c ∷ s) what b h = rw (encode_hex-pairs (c ∷ s)) (
    ground (
      arith,
      length-pairs (c ∷ s),
      decode_loop-pairs (c ∷ s) [] (resize (length (pairs (c ∷ s)) / 2) what) b
          (omega (arith, length-resize (length (pairs (c ∷ s)) / 2) what, length-pairs (c ∷ s))),
    ))

-- What DecodeHex() accepts is a positive even number of digits of either case.
abbrev pub IsHexDigit : ℕ → Type 0
IsHexDigit c = ((b'0' ≤ c) × (c ≤ b'9')) ⊎ ((b'A' ≤ c) × (c ≤ b'F')) ⊎ ((b'a' ≤ c) × (c ≤ b'f'))

abbrev pub IsHex : Bytes → Type 0
IsHex [] = Unit {0}
IsHex (c ∷ s) = IsHexDigit c × IsHex s

hex_char_sound : (c a : ℕ) → hex_char c ≡ some a → IsHexDigit c × (a < 16)
unfolding hex_char
hex_char_sound c a e = ground arith

decode_pair_sound : (h l b : ℕ) → decode_pair h l ≡ some b → IsHexDigit h × IsHexDigit l × (b < 256)
unfolding decode_pair
decode_pair_sound h l b e = elim (Option-cases (hex_char h)) [
  | inl bad ↦ absurd (ground arith)
  | inr (x, good) ↦ elim (Option-cases (hex_char l)) [
    | inl bad ↦ absurd (ground arith)
    | inr (y, fine) ↦ (
      (hex_char_sound h x good).0,
      (hex_char_sound l y fine).0,
      ground (arith, hex_char_sound h x good, hex_char_sound l y fine),
    )
  ]
]

IsBytes-append : (s t : Bytes) → IsBytes s → IsBytes t → IsBytes (s ++ t)
IsBytes-append [] t p q = q
IsBytes-append (c ∷ s) t p q = (p.0, IsBytes-append s t p.1 q)

decode_loop_sound :
    (n : ℕ) (hex out rest what : Bytes)
    → length hex ≡ 2 * n
    → length rest ≡ n
    → IsBytes out
    → decode_loop hex out rest ≡ (true, what)
    → IsHex hex × IsBytes what × (length what ≡ length out + n)
unfolding decode_loop
decode_loop_sound zero [] out [] what e e' b d = (tt, rw (same) b, omega (arith, ap length same))
  where
    same : what ≡ out
    same = cc (append-nil out)
decode_loop_sound (suc n) [] out rest what e e' b d = absurd (omega arith)
decode_loop_sound zero [] out (x ∷ rest) what e e' b d = absurd (omega arith)
decode_loop_sound n (h ∷ []) out rest what e e' b d = absurd (omega arith)
decode_loop_sound zero (h ∷ l ∷ hex) out rest what e e' b d = absurd (omega arith)
decode_loop_sound (suc n) (h ∷ l ∷ hex) out [] what e e' b d = absurd (omega arith)
decode_loop_sound (suc n) (h ∷ l ∷ hex) out (x ∷ rest) what e e' b d =
    by_pair (decode_pair h l) (decode_pair_sound h l) d (λ c p q.
      decode_loop_sound n hex (out ++ c ∷ []) rest what (omega arith) (omega arith)
        (IsBytes-append out (c ∷ []) b (p, tt)) q)
  where
    by_pair :
        (o : Option ℕ)
        → ((c : ℕ) → o ≡ some c → IsHexDigit h × IsHexDigit l × (c < 256))
        → ◌≡◌ {A = Bool × Bytes}
            (elim o [
              | none ↦ (false, out ++ x ∷ rest)
              | some c ↦ decode_loop hex (out ++ c ∷ []) rest
            ])
            (true, what)
        → ((c : ℕ)
            → c < 256
            → decode_loop hex (out ++ c ∷ []) rest ≡ (true, what)
            → IsHex hex × IsBytes what × (length what ≡ length (out ++ c ∷ []) + n))
        → IsHex (h ∷ l ∷ hex) × IsBytes what × (length what ≡ length out + suc n)
    by_pair none f q ih = absurd (cc)
    by_pair (some c) f q ih =
        let (hex_h, hex_l, small) = f c refl in
        let (is_hex, bytes, size) = ih c small q in
        ((hex_h, (hex_l, is_hex)), bytes, omega (arith, size, length-append out (c ∷ [])))

-- A text that DecodeHex() accepts is not empty and holds hexadecimal digits only, two for each byte
-- of the result.
pub decode_hex_sound :
    (hex old what : Bytes)
    → decode_hex hex old ≡ (true, what)
    → (hex ≢ []) × IsHex hex × IsBytes what × (2 * length what ≡ length hex)
unfolding decode_hex
decode_hex_sound [] old what d = absurd (cc)
decode_hex_sound (c ∷ hex) old what d = elim (Bool-cases (length (c ∷ hex) % 2 == 0)) [
  | inl even ↦
      let (is_hex, bytes, size) =
        decode_loop_sound (length (c ∷ hex) / 2) (c ∷ hex) [] (resize (length (c ∷ hex) / 2) old)
          what (ground arith) (length-resize (length (c ∷ hex) / 2) old) tt (ground arith) in
      (λ e. cc, is_hex, bytes, ground arith)
  | inr odd ↦ absurd (ground arith)
]
