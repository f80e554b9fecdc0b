-- ===== src/Tests/Http2Tests.antt =====
-- The answers of the own server, at concrete texts.
use rpsiod.Prelude.{
  Bytes, codes, [], ◌∷◌, some, none, ◌≡◌, refl, ◌≤◌, ◌<◌, ◌⊎◌, arith, length, All, find, is_prefix,
  split_at, strtol, pos,
}
use rpsiod.Util.Strings.{streq_ci, safe_copy, trim}
use rpsiod.Server.PhpHeaders.{line_pieces}
use rpsiod.Http2.Chunked.{decode_chunked_body, max_response}
use rpsiod.Http2.Buffer.{Buffer, IsBuffer, append_bytes, append_bytes_bounds}
use rpsiod.Http2.Answer.Passes.{Passes, parse_loopback_response-Passes}
use rpsiod.Http2.Answer.{Answer, parse_loopback_response, blocked_h2_header, header_value_has_token}

abbrev empty_buffer : Buffer
empty_buffer = record { bytes = []; cap = 0 }

append_bytes_bounds_example :
    ((append_bytes empty_buffer (codes "abc") ≡ none) × (max_response < 3))
    ⊎ ((b : Buffer) × (append_bytes empty_buffer (codes "abc") ≡ some b)
        × (b.bytes ≡ codes "abc")
        × IsBuffer b)
append_bytes_bounds_example =
    append_bytes_bounds empty_buffer (codes "abc")
      (record { fits = omega arith; limit = omega arith })

abbrev answer_text : Bytes
answer_text =
    codes
      "HTTP/1.1 200 OK\r\nX-A: 1\r\nConnection: close\r\nTransfer-Encoding: chunked\r\n\r\n3\r\nabc\r\n0\r\n\r\n"

abbrev answer : Answer
answer = record {
  status = pos 200;
  headers = record { name = codes "X-A"; value = codes "1" } ∷ [];
  body = codes "abc";
}

answer-read : parse_loopback_response answer_text ≡ some answer
unfolding parse_loopback_response find is_prefix split_at line_pieces strtol trim streq_ci safe_copy
    decode_chunked_body blocked_h2_header header_value_has_token
answer-read = refl

parse_loopback_response-Passes_example : (length answer.headers ≤ 96) × All Passes answer.headers
parse_loopback_response-Passes_example = parse_loopback_response-Passes answer_text answer-read
