-- ===== src/Tests/HttpTests.antt =====
-- The request parser of src/http.c at concrete requests.
use rpsiod.Prelude.{Bytes, codes, [], ◌∷◌, ◌++◌, ◌≡◌, refl, ◌==◌, if◌then◌else◌, ◌≢◌, ◌↔◌, sym, ◌∙◌}
use rpsiod.Prelude.{find, is_prefix, split_at, split_at_last, has_byte, strtoull}
use rpsiod.Util.Strings.{streq_ci, safe_copy, starts_with}
use rpsiod.Http.Lexical.{
  valid_header_block_newlines, valid_method, valid_token_char, valid_request_target_bytes,
  valid_header_name, valid_header_value, copy_trimmed_value,
}
use rpsiod.Http.Host.{authority_matches_host, parse_host_value, valid_port}
use rpsiod.Http.Values.{header_token_present, parse_byte_range, parse_content_length}
use rpsiod.Http.Request.{
  Request, empty_request, parse_request_line, parse_request_target, known_version,
}
use rpsiod.Http.Headers.{
  process_lines, process_line, header_lines, split_header, apply_header, header_of,
}
use rpsiod.Http.Parse.{
  parse_request, parse_block, start, query_of, finish, outcome_of, Outcome, need_more, done,
}
use rpsiod.Http.Smuggling.{Framed, request_fields, parse_request-Framed}
use rpsiod.Http.Bounds.{IsRequest, parse_request-IsRequest}
use rpsiod.Http.Framing.{parse_request-append, need_more_iff}
use rpsiod.Http.Parse.{crlf_crlf}

-- A literal with its LFs as CRLFs.
abbrev lines : Bytes → Bytes
lines [] = []
lines (c ∷ s) = if c == 10 then 13 ∷ 10 ∷ lines s else c ∷ lines s

abbrev get_text : Bytes
get_text = lines (codes "GET /a?b=1 HTTP/1.1\nHost: Example.com:80\nConnection: close\n\nrest")

abbrev get_request : Request
get_request = record empty_request {
  method = codes "GET";
  path = codes "/a?b=1";
  host = codes "Example.com";
  query_string = codes "b=1";
  header_len = 64;
}

-- `parse_request`, with all that it calls.
run : Bytes → Outcome
unfolding parse_request parse_block find is_prefix valid_header_block_newlines parse_request_line
    split_at split_at_last has_byte valid_method valid_token_char streq_ci parse_request_target
    valid_request_target_bytes process_lines header_lines process_line start split_header
    valid_header_name apply_header header_of authority_matches_host parse_host_value valid_port
    copy_trimmed_value valid_header_value finish outcome_of known_version header_token_present
    parse_byte_range parse_content_length strtoull safe_copy starts_with query_of
run = parse_request

parse-get : parse_request get_text ≡ done get_request
unfolding run
parse-get = refl

parse_request-Framed_example : Framed (request_fields get_text) get_request
parse_request-Framed_example = parse_request-Framed get_text parse-get

parse_request-IsRequest_example : IsRequest get_text get_request
parse_request-IsRequest_example = parse_request-IsRequest get_text parse-get

done-ne-need_more : {r : Request} → done r ≢ need_more
done-ne-need_more e = cc

parse_request-append_example :
    parse_request (get_text ++ codes "GET / HTTP/1.1") ≡ parse_request get_text
parse_request-append_example =
    parse_request-append get_text (codes "GET / HTTP/1.1")
      (λ e. done-ne-need_more (sym parse-get ∙ e))

need_more_iff_example :
    (parse_request get_text ≡ need_more) ↔ ((a b : Bytes) → get_text ≢ a ++ (crlf_crlf ++ b))
need_more_iff_example = need_more_iff get_text
