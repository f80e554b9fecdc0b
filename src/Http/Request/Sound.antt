-- ===== src/Http/Request/Sound.antt =====
-- What a request line that is accepted holds.
use rpsiod.Prelude.{
  ℕ, ◌<◌, Bool, true, false, not, ◌||◌, Bytes, codes, [], ◌∷◌, ◌≡◌, inl, inr, refl, some, arith,
  length, if◌then◌else◌, ◌==◌, leb, >>=-eq-some, guard-eq-some, split_at, split_at_sound,
  All-append_left, All-append_right, Option-cases, Bool-cases, drop, has_byte, All-drop,
}
use rpsiod.Util.Strings.{char_at}
use rpsiod.Http.Lexical.{
  all, target_char, valid_request_target_bytes, valid_method, valid_token_char, path_len, host_len,
}
use rpsiod.Http.Lexical.Sound.{Holds, valid_request_target_bytes_sound, valid_method_sound}
use rpsiod.Http.Request.{
  RequestLine, Target, parse_request_line, parse_request_target, finish_target, absolute_target,
  split_authority, has_scheme, version_len, known_version, line_char,
}

-- the path of a target: it begins with a slash, fits its buffer, and holds bytes of a target; so does
-- the authority, which is there exactly for an absolute form
pub record IsTarget (path_size authority_len : ℕ) (t : Target) : Type 0 where
  pub slash : char_at t.path 0 ≡ b'/'
  pub path_fits : length t.path < path_size
  pub path_bytes : Holds target_char t.path
  pub authority_fits : length t.absolute_authority < authority_len
  pub authority_given : t.absolute_form ≡ true → 0 < length t.absolute_authority
  pub authority_bytes : Holds target_char t.absolute_authority

module _ (path_size authority_len : ℕ) where
  finish_target-IsTarget :
      (origin authority : Bytes) (absolute : Bool) {t : Target}
      → length authority < authority_len
      → (absolute ≡ true → 0 < length authority)
      → Holds target_char origin
      → Holds target_char authority
      → finish_target path_size origin authority absolute ≡ some t
      → IsTarget path_size authority_len t
  unfolding finish_target
  finish_target-IsTarget origin authority absolute {t} fits given ho ha e =
      let test =
        length origin == 0 || not (char_at origin 0 == b'/') || leb path_size (length origin) in
      elim (Bool-cases test) [
        | inl q ↦ absurd (cc (rw (q, finish_target) at e))
        | inr q ↦
            let same : record {
              path = origin;
              absolute_authority = authority;
              absolute_form = absolute;
            }
                ≡ t =
              ground arith in
            rw (← same) (record {
              slash = ground arith;
              path_fits = ground arith;
              path_bytes = ho;
              authority_fits = fits;
              authority_given = given;
              authority_bytes = ha;
            })
      ]

  absolute_target-IsTarget :
      (authority origin : Bytes) {t : Target}
      → Holds target_char origin
      → Holds target_char authority
      → absolute_target path_size authority_len authority origin ≡ some t
      → IsTarget path_size authority_len t
  unfolding absolute_target
  absolute_target-IsTarget authority origin {t} ho ha e =
      let found : finish_target path_size origin authority true ≡ some t = ground arith in
      finish_target-IsTarget origin authority true (ground arith) (λ _. ground arith) ho ha found

  split_authority-IsTarget :
      (text : Bytes) {t : Target}
      → Holds target_char text
      → split_authority path_size authority_len text ≡ some t
      → IsTarget path_size authority_len t
  unfolding split_authority
  split_authority-IsTarget text {t} h e = elim (Option-cases (split_at b'/' text)) [
    | inl q ↦ absolute_target-IsTarget text (codes "/") (refl, tt) h (rw (q, split_authority) at e)
    | inr ((a, b), q) ↦
        let parts = rw ((split_at_sound b'/' text q).0) at h in
        absolute_target-IsTarget a (b'/' ∷ b)
          (All-append_right (λ c. target_char c ≡ true) a (b'/' ∷ b) parts)
          (All-append_left (λ c. target_char c ≡ true) a (b'/' ∷ b) parts)
          (rw (q, split_authority) at e)
  ]

  parse_request_target-IsTarget :
      (target : Bytes) {t : Target}
      → 0 < authority_len
      → parse_request_target target path_size authority_len ≡ some t
      → IsTarget path_size authority_len t
  unfolding parse_request_target
  parse_request_target-IsTarget target {t} pos e =
      let absolute = has_scheme target (codes "http://") || has_scheme target (codes "https://") in
      let rest = drop (if char_at target 4 == b':' then 7 else 8) target in
      let valid : valid_request_target_bytes target ≡ true = ground arith in
      let bytes = (valid_request_target_bytes_sound target valid).2 in
      elim (Bool-cases absolute) [
        | inl q ↦
            let found : split_authority path_size authority_len rest ≡ some t = ground arith in
            split_authority-IsTarget rest (All-drop (λ c. target_char c ≡ true) _ target bytes)
              found
        | inr q ↦
            let found : finish_target path_size target [] false ≡ some t = ground arith in
            finish_target-IsTarget target [] false pos (λ h. absurd (cc)) bytes tt found
      ]

-- what a request line that is accepted is made of
pub record IsRequestLine (line : Bytes) (r : RequestLine) : Type 0 where
  pub method_token : Holds valid_token_char r.method
  pub method_nonempty : 0 < length r.method
  pub method_fits : length r.method < 16
  pub version_known : known_version r.version ≡ true
  pub target_ok : IsTarget path_len host_len r.target

pub parse_request_line-IsRequestLine :
    (line : Bytes) {r : RequestLine} → parse_request_line line ≡ some r → IsRequestLine line r
unfolding parse_request_line
parse_request_line-IsRequestLine line {r} e =
    let (some_bytes, e1) = guard-eq-some (not (length line == 0)) _ e in
    let (visible, e2) = guard-eq-some (all line_char line) _ e1 in
    let (front, f1, e3) = >>=-eq-some (split_at 32 line) _ e2 in
    let (back, f2, e4) = >>=-eq-some (split_at 32 front.1) _ e3 in
    let version = back.1 in
    let (short, e5) =
      guard-eq-some
        (not (has_byte 32 version || length version == 0 || leb version_len (length version))) _
        e4 in
    let (token, e6) = guard-eq-some (valid_method front.0) _ e5 in
    let (known, e7) = guard-eq-some (known_version version) _ e6 in
    let (t, found, e8) = >>=-eq-some (parse_request_target back.0 path_len host_len) _ e7 in
    let (nonempty, fits, bytes) = valid_method_sound front.0 token in
    let same : record { method = front.0; version = version; target = t } ≡ r = ground arith in
    rw (← same) (record {
      method_token = bytes;
      method_nonempty = nonempty;
      method_fits = fits;
      version_known = known;
      target_ok = parse_request_target-IsTarget path_len host_len back.0 (omega arith) found;
    })
