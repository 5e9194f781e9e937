-- ===== src/Encode/Tests.antt =====
-- Runs of the encodings of flinter/encode.cpp.
use flinter.Base.{◌≡◌, ◌≢◌, ◌*◌, arith, refl, true, Bytes, [], codes, length, ◌+◌}
use flinter.Encode.{encode_hex, decode_hex, decode_hex_string, decode_pair, hex_char}
use flinter.Encode.Hex.{decode_hex-encode_hex, decode_hex_sound, IsHex, IsBytes}
use flinter.Encode.Html.{escape_html, escape_html-IsSafe, escape_html-injective, extra_loop, IsSafe}

abbrev link : Bytes
link = codes "<a b='c'>"

hex_run : decode_hex_string (codes "4a6F") ≡ codes "Jo"
unfolding decode_hex_string decode_pair hex_char
hex_run = refl

hex_odd : decode_hex_string (codes "4a6") ≡ []
unfolding decode_hex_string
hex_odd = refl

decode_hex-encode_hex_example : decode_hex (encode_hex link) (codes "old") ≡ (true, link)
decode_hex-encode_hex_example = decode_hex-encode_hex link (codes "old") (ground arith) (λ e. cc)

decode_hex_sound_example :
    (codes "4a6F" ≢ [])
    × IsHex (codes "4a6F")
    × IsBytes (codes "Jo")
    × (2 * length (codes "Jo") ≡ length (codes "4a6F"))
unfolding decode_hex decode_pair hex_char
decode_hex_sound_example = decode_hex_sound (codes "4a6F") (codes "old") (codes "Jo") refl

escape_html-IsSafe_example :
    IsSafe (escape_html link true)
    × (length (escape_html link true) ≡ length link + extra_loop link 0)
escape_html-IsSafe_example = escape_html-IsSafe link true

escape_html-injective_example : link ≡ link
escape_html-injective_example = escape_html-injective link link true refl
