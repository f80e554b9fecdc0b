-- ===== src/Tests/UtilTests.antt =====
-- The theorems on the functions of src/util.c at concrete inputs.
use rpsiod.Prelude.{ℕ, Bytes, codes, ◌∷◌, ◌++◌, ◌≡◌, ◌↔◌, ◌⊎◌, ◌<◌, ◌≤◌, refl, true, false, some}
use rpsiod.Prelude.{All, length, map, tolower, split_on, arith, digits_value}
use rpsiod.Util.Strings.{streq_ci, streq_ci_iff}
use rpsiod.Util.Numbers.{
  parse_size, parse_size_digits, parse_duration_sec, parse_duration_sec-le, int_max,
}
use rpsiod.Util.Percent.{
  percent_decode_path, percent_decode_path_iff, percent_encode, decode-encode, Decodes, or_root,
}
use rpsiod.Util.Path.{
  path_has_forbidden_segment, path_has_forbidden_segment_iff, Plain, path_within_root,
  path_within_root_iff, forbidden_segment-climb, climb, scan_segments, is_dots,
}

streq_ci_iff_example :
    (streq_ci (codes "Host") (codes "hoST") ≡ true)
    ↔ (map tolower (codes "Host") ≡ map tolower (codes "hoST"))
streq_ci_iff_example = streq_ci_iff (codes "Host") (codes "hoST")

parse_size_digits_example : parse_size (codes "1024") 7 ≡ digits_value 0 (codes "1024")
parse_size_digits_example =
    parse_size_digits b'1' (codes "024") 7 (refl, (refl, (refl, (refl, tt)))) (omega arith)

parse_duration_sec-le_example : parse_duration_sec (codes "2h") 60 ≤ int_max
parse_duration_sec-le_example = parse_duration_sec-le (codes "2h") 60 (omega arith)

percent_decode_path_iff_example :
    (percent_decode_path (codes "/a%20b?c") 64 ≡ some (codes "/a b")) ↔ (
      (out : Bytes) × Decodes (codes "/a%20b?c") out
      × (length out < 64)
      × (codes "/a b" ≡ or_root 64 out))
percent_decode_path_iff_example =
    percent_decode_path_iff (codes "/a%20b?c") 64 (codes "/a b") (omega arith)

decode-encode_example : percent_decode_path (percent_encode (codes "/%?")) 16 ≡ some (codes "/%?")
decode-encode_example = decode-encode b'/' (codes "%?") 16 (omega arith) (omega arith)

path_has_forbidden_segment_iff_example :
    (path_has_forbidden_segment (codes "/a/../b") ≡ false)
    ↔ (◌≡◌ {A = ℕ} b'/' b'/' × All Plain (split_on b'/' (codes "/a/../b")))
path_has_forbidden_segment_iff_example = path_has_forbidden_segment_iff (codes "/a/../b")

safe_path : path_has_forbidden_segment (codes "/a/..b") ≡ false
unfolding path_has_forbidden_segment scan_segments is_dots
safe_path = refl

forbidden_segment-climb_example : (d : ℕ) × (climb 0 (split_on b'/' (codes "/a/..b")) ≡ some d)
forbidden_segment-climb_example = forbidden_segment-climb (codes "/a/..b") 0 safe_path

path_within_root_iff_example : (path_within_root (codes "/srv/www") (codes "/srv/www2") ≡ true) ↔ (
    (codes "/srv/www2" ≡ codes "/srv/www")
    ⊎ ((r : Bytes) × (codes "/srv/www2" ≡ codes "/srv/www" ++ b'/' ∷ r)))
path_within_root_iff_example =
    path_within_root_iff (codes "/srv/www") (codes "/srv/www2") (omega arith)
