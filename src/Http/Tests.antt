-- ===== src/Http/Tests.antt =====
-- A request and its uri at concrete bytes.
use push1st.Prelude.{
  ℕ, zero, suc, starts_with, arith, ◌+◌, ◌≡◌, if◌then◌else◌, codes, bytes_eq, ltb, Bytes, List,
  refl, [], ◌∷◌, ◌++◌, some, length,
}
use push1st.Channel.Table.{find, emplace}
use push1st.Credentials.Decimal.{is_space, decimal, decimal_fuel}
use push1st.Http.Scan.{trim_end, parser_next, drop_spaces, spaces_of, until, is_empty}
use push1st.Http.Uri.{split_uri}
use push1st.Http.Uris.{split_uri-Perm}
use mathlib.Core.List.{Perm}
use push1st.Http.Request.{
  with_content, complete, no_data, bad_message, parse_request, header_loop, to_lower, at_eod,
}
use push1st.Inet.Socket.{
  Received, got, ended, read_error, Sent, took, read_no_ssl, read_loop, error_code,
}
use push1st.Http.Connection.{http_read_request, after_parse, request_text}
use push1st.Http.Exchange.{length_header, parse_request-request_text}
use push1st.Http.Headers.{emplace_all}
use push1st.Http.Requests.{head_text, request_of, parse_request-head_text}

split_uri-Perm_example :
    ((split_uri (codes "/app/key?a=7&a=8&flash=")).uri_full ≡ codes "/app/key?a=7&a=8&flash=")
    × ((split_uri (codes "/app/key?a=7&a=8&flash=")).uri_path ≡ codes "/app/key")
    × ((split_uri (codes "/app/key?a=7&a=8&flash=")).uri_path_list
        ≡ codes "/" ∷ codes "app" ∷ codes "key" ∷ [])
    × Perm
        (split_uri (codes "/app/key?a=7&a=8&flash=")).uri_args
        ((codes "a", codes "7") ∷ (codes "a", codes "8") ∷ (codes "flash", []) ∷ [])
split_uri-Perm_example =
    split_uri-Perm (codes "app") (codes "key" ∷ [])
      ((codes "a", codes "7") ∷ (codes "a", codes "8") ∷ (codes "flash", []) ∷ []) (ground arith)
      (ground arith) (ground arith)

abbrev fields : List (Bytes × Bytes)
fields = (codes "Content-Length", codes "2") ∷ []

fields-length :
    find (codes "content-length") (emplace_all ((codes "Host", codes "h") ∷ fields) [])
    ≡ some (decimal 2)
unfolding to_lower emplace find bytes_eq decimal decimal_fuel
fields-length = refl

abbrev head : Bytes
head = head_text (codes "POST") (codes "/apps") ((codes "Host", codes "h") ∷ fields)

parse_request-head_text_example : parse_request (head ++ codes "{}GET") ≡ (
    if ltb 5 2
    then no_data 2 (
        request_of
          (codes "POST")
          (codes "/apps")
          ((codes "Host", codes "h") ∷ fields)
          (codes "{}GET"))
    else complete (length head + 2) (
        request_of
          (codes "POST")
          (codes "/apps")
          ((codes "Host", codes "h") ∷ fields)
          (codes "{}")))
unfolding is_space trim_end
parse_request-head_text_example =
    parse_request-head_text (codes "POST") (codes "/apps") (codes "{}GET") 2
      (codes "Host", codes "h") fields (ground arith) (ground arith) (ground arith) (ground arith)
      refl (omega arith) fields-length

-- A blank before the content makes the parser take the content for headers.
refuses : parse_request (head ++ codes " 1234") ≡ bad_message
unfolding parse_request parser_next drop_spaces spaces_of until is_space trim_end header_loop
    is_empty at_eod bytes_eq to_lower starts_with
refuses = refl

parse_request-request_text_example :
    parse_request
      (request_text (codes "POST") (codes "/apps") ((codes "Host", codes "h") ∷ []) (codes "{}"))
    ≡ complete
        (length (
          request_text
            (codes "POST")
            (codes "/apps")
            ((codes "Host", codes "h") ∷ [])
            (codes "{}")))
        (request_of
          (codes "POST")
          (codes "/apps")
          (length_header 2 ∷ (codes "Host", codes "h") ∷ [])
          (codes "{}"))
unfolding is_space trim_end
parse_request-request_text_example =
    parse_request-request_text (codes "POST") (codes "/apps") (codes "}") b'{'
      ((codes "Host", codes "h") ∷ []) (ground arith) (ground arith) (ground arith) refl
      (omega arith)

-- A connection on which a second part arrives after the first was read.
abbrev two_parts : Bytes × Bytes → ℕ → Received × (Bytes × Bytes)
two_parts k zero = (read_error 4, k)
two_parts ([], []) (suc n) = (ended, ([], []))
two_parts ([], c ∷ l) (suc n) = (read_error 11, (c ∷ l, []))
two_parts (c ∷ a, l) (suc n) = (got (c ∷ []), (a, l))

abbrev take_all : Bytes × Bytes → Bytes → Sent × (Bytes × Bytes)
take_all k b = (took (length b), k)

-- Of a head that arrives in two parts only the first is read.
head_split :
    http_read_request two_parts take_all 0 300 200 (codes "GET / HTTP/1.1", 13 ∷ 10 ∷ 13 ∷ 10 ∷ [])
    ≡ some (record {
      code = 0;
      request = some (request_of (codes "GET") (codes "/") [] []);
      system = (13 ∷ 10 ∷ 13 ∷ 10 ∷ [], []);
    })
unfolding http_read_request after_parse read_no_ssl read_loop error_code parse_request parser_next
    drop_spaces spaces_of until is_space trim_end header_loop is_empty at_eod bytes_eq to_lower
    starts_with with_content find
head_split = refl
