-- ===== src/Http/Host/Sound.antt =====
-- What a Host value that is accepted holds.
use rpsiod.Prelude.{
  ℕ, ◌<◌, true, not, ◌||◌, Bytes, [], ◌∷◌, ◌++◌, ◌≡◌, ◌⊎◌, inl, inr, refl, some, arith, length,
  ◌==◌, leb, >>=-eq-some, guard-eq-some, split_at, split_at_last, split_at_sound,
  split_at_last_sound, All-append, All-append_left, Option-cases, Bool-cases,
}
use rpsiod.Util.Strings.{char_at}
use rpsiod.Http.Lexical.{copy_trimmed_value, all, host_len}
use rpsiod.Http.Lexical.Sound.{Holds, all-Holds}
use rpsiod.Http.Host.{parse_host_value, host_char, host_name, bracket_host, plain_host, cut_port}

abbrev HostBytes : Bytes → Type 0
HostBytes = Holds host_char

-- a host name: bytes that a host may hold, at least one, that fit a buffer
pub record IsHost (out_len : ℕ) (name : Bytes) : Type 0 where
  pub bytes : Holds host_char name
  pub nonempty : 0 < length name
  pub fits : length name < out_len

cut_port_cases :
    (host before port_text : Bytes) {name : Bytes}
    → cut_port host before port_text ≡ some name
    → (name ≡ host) ⊎ (name ≡ before)
unfolding cut_port
cut_port_cases host before port_text e = ground arith

plain_host-Holds :
    (host : Bytes) {name : Bytes} → plain_host host ≡ some name → HostBytes host → HostBytes name
unfolding plain_host
plain_host-Holds host {name} e h = elim (Option-cases (split_at_last b':' host)) [
  | inl q ↦ let same : name ≡ host = ground arith in rw same h
  | inr ((a, b), q) ↦ elim (cut_port_cases host a b {name = name} (rw (q, plain_host) at e)) [
    | inl same ↦ rw same h
    | inr same ↦
        rw same (
          All-append_left (λ c. host_char c ≡ true) a _ (rw (split_at_last_sound b':' host q) at h))
  ]
]

bracket_host-Holds :
    (host : Bytes) {name : Bytes} → bracket_host host ≡ some name → HostBytes host → HostBytes name
unfolding bracket_host
bracket_host-Holds host {name} e h =
    let (cut, f, e1) = >>=-eq-some (split_at b']' host) _ e in
    let parts = rw ((split_at_sound b']' host f).0) at h in
    let same : name ≡ cut.0 ++ b']' ∷ [] = ground arith in
    rw same (
      All-append (λ c. host_char c ≡ true) cut.0 (b']' ∷ [])
        (All-append_left (λ c. host_char c ≡ true) cut.0 _ parts) (refl, tt))

host_name-Holds :
    (host : Bytes) {name : Bytes} → host_name host ≡ some name → HostBytes host → HostBytes name
unfolding host_name
host_name-Holds host {name} e h = elim (Bool-cases (char_at host 0 == b'[')) [
  | inl q ↦
      let found : bracket_host host ≡ some name = ground arith in bracket_host-Holds host found h
  | inr q ↦ let found : plain_host host ≡ some name = ground arith in plain_host-Holds host found h
]

pub parse_host_value-IsHost :
    (value : Bytes) (out_len : ℕ) {name : Bytes}
    → parse_host_value value out_len ≡ some name
    → IsHost out_len name
unfolding parse_host_value
parse_host_value-IsHost value out_len {name} e =
    let (host, trimmed, e1) = >>=-eq-some (copy_trimmed_value host_len value) _ e in
    let (some_bytes, e2) = guard-eq-some (not (length host == 0)) _ e1 in
    let (tested, e3) = guard-eq-some (all host_char host) _ e2 in
    let (found, named, e4) = >>=-eq-some (host_name host) _ e3 in
    let (sized, e5) = guard-eq-some (not (length found == 0 || leb out_len (length found))) _ e4 in
    let same : found ≡ name = ground arith in
    rw (← same) (record {
      bytes = host_name-Holds host named (all-Holds host_char host tested);
      nonempty = ground arith;
      fits = ground arith;
    })
