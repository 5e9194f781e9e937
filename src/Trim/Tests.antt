-- ===== src/Trim/Tests.antt =====
-- Runs of flinter/trim.cpp.
use flinter.Base.{◌≡◌, refl, Bytes, codes}
use flinter.Trim.{trim, ltrim, rtrim, c_str, is_blank}
use flinter.Trim.Ends.{strip, strip_end, trim-strip}

abbrev padded : Bytes
padded = codes "  a b "

trim_run : trim padded ≡ codes "a b"
unfolding trim is_blank
trim_run = refl

trim-strip_example :
    (trim padded ≡ strip_end (strip (c_str padded)))
    × (ltrim padded ≡ strip (c_str padded))
    × (rtrim padded ≡ strip_end (c_str padded))
trim-strip_example = trim-strip padded
