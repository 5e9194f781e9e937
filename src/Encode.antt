-- ===== src/Encode.antt =====
-- flinter/encode.cpp: hexadecimal and HTML escapes over byte strings. A `char` is its byte, so the
-- cast to uint8_t is implicit. `*what` is taken and given back, for what a failed call leaves in it.
pub mod Hex
pub mod Html
mod Tests
use flinter.Base.{
  ℕ, ◌+◌, ◌-◌, ◌*◌, ◌/◌, ◌%◌, Bool, true, false, not, ◌&&◌, ◌||◌, ◌==◌, leb, ltb, if◌then◌else◌,
  Option, none, some, Bytes, [], ◌∷◌, ◌++◌, length, replicate, take, drop, codes, get_or,
}
use flinter.Base.Int.{ℤ, pos, negsuc}

-- HexChar(): the value of a digit; `none` is -1.
unfoldable pub hex_char : ℕ → Option ℕ
hex_char c =
    if leb b'0' c && leb c b'9'
    then some (c - b'0')
    else if leb b'A' c && leb c b'F'
    then some (c - b'A' + 10)
    else if leb b'a' c && leb c b'f'
    then some (c - b'a' + 10)
    else none

-- The table HEX.
abbrev hex_digits : Bytes
hex_digits = codes "0123456789ABCDEF"

unfoldable pub hex_digit : ℕ → ℕ
hex_digit n = get_or hex_digits n 0

-- The loop over `what`, behind the bytes written so far.
pub encode_loop : Bytes → Bytes → Bytes
encode_loop [] out = out
encode_loop (c ∷ what) out =
    encode_loop what (out ++ (hex_digit (c / 16) ∷ hex_digit (c % 16) ∷ []))

unfoldable pub encode_hex : Bytes → Bytes
unfolding encode_loop hex_digit
encode_hex [] = []
encode_hex (c ∷ what) = encode_loop (c ∷ what) []

-- One pair of digits.
unfoldable pub decode_pair : ℕ → ℕ → Option ℕ
decode_pair h l = elim (hex_char h) [
  | none ↦ none
  | some a ↦ elim (hex_char l) [ none ↦ none | some b ↦ some ((a * 16 + b) % 256) ]
]

-- The loop of DecodeHex(), over pairs of digits. `rest` is the part of `*what` not written yet.
pub decode_loop : Bytes → Bytes → Bytes → Bool × Bytes
decode_loop [] out rest = (true, out ++ rest)
decode_loop (h ∷ []) out rest = (true, out ++ rest)
decode_loop (h ∷ l ∷ hex) out rest = elim (decode_pair h l) [
  | none ↦ (false, out ++ rest)
  | some b ↦ decode_loop hex (out ++ b ∷ []) (drop 1 rest)
]

-- std::string::resize(): zeros are added, or the end is cut off.
unfoldable pub resize : ℕ → Bytes → Bytes
resize n s = take n s ++ replicate (n - length s) 0

-- DecodeHex(hex, &what): whether it returned 0, and `what`.
unfoldable pub decode_hex : Bytes → Bytes → Bool × Bytes
unfolding decode_loop resize
decode_hex hex what =
    if length hex == 0 || not (length hex % 2 == 0)
    then (false, what)
    else decode_loop hex [] (resize (length hex / 2) what)

-- DecodeHex(hex), which gives an empty string for what it cannot read.
unfoldable pub decode_hex_string : Bytes → Bytes
unfolding decode_hex
decode_hex_string hex = let (ok, what) = decode_hex hex [] in if ok then what else []
