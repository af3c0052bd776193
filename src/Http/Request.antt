-- ===== src/Http/Request.antt =====
-- ParseRequest, on the bytes that have arrived.
use push1st.Prelude.{
  starts_with, ◌&&◌, ltb, leb, ◌+◌, ◌-◌, ◌||◌, codes, bytes_eq, if◌then◌else◌, Option, Bytes, Bool,
  List, [], ◌∷◌, none, some, ℕ, zero, suc, ◌++◌, length, take, drop,
}
use push1st.Channel.Table.{find, emplace}
use push1st.Http.Scan.{is_empty, parser_next, parse_number}
use push1st.Http.Uri.{Uri, split_uri}

pub record Request : Type 0 where
  pub method : Bytes
  pub path : Uri
  pub headers : List (Bytes × Bytes)
  pub content : Bytes

-- -EBADMSG, -EPROTONOSUPPORT, -ENODATA with what is known by then, and the length of a request that
-- is complete.
pub data Parsed : Type 0 where
  bad_message unsupported : Parsed
  no_data : ℕ → Request → Parsed
  complete : ℕ → Request → Parsed

abbrev pub eod : Bytes
eod = 13 ∷ 10 ∷ 13 ∷ 10 ∷ []

-- The comparison of the last four bytes that were moved over.
unfoldable pub at_eod : Bytes → Bool
at_eod passed = bytes_eq (drop (length passed - 4) passed) eod

-- ToLower
unfoldable pub to_lower : Bytes → Bytes
to_lower [] = []
to_lower (c ∷ cs) = (if leb b'A' c && leb c b'Z' then c + 32 else c) ∷ to_lower cs

-- The loop over the headers, on fuel, from what was moved over before: the headers, what was moved
-- over and what is left; `none` is -EBADMSG.
unfoldable pub header_loop :
    ℕ → Bytes → Bytes → List (Bytes × Bytes) → Option (List (Bytes × Bytes) × Bytes × Bytes)
header_loop zero passed d headers = some (headers, passed, d)
header_loop (suc f) passed [] headers = some (headers, passed, [])
header_loop (suc f) passed (c ∷ cs) headers =
    let hk = parser_next b':' (c ∷ cs) in
    let value = parser_next 10 (drop 1 hk.rest) in
    let over = passed ++ (hk.passed ++ (take 1 hk.rest ++ value.passed)) in
    let headers' = emplace (to_lower hk.token) value.token headers in
    let next = header_loop f over value.rest headers' in
    if is_empty hk.token || is_empty hk.rest
    then none
    else if at_eod over
    then some (headers', over, value.rest)
    else next

-- The content behind the headers. The number of bytes is that up to the end of the content.
unfoldable pub with_content : Bytes → Bytes → List (Bytes × Bytes) → Bytes → Bytes → Parsed
with_content method uri headers passed d = elim (find (codes "content-length") headers) [
  | none ↦
      complete (length passed)
        (record { method = method; path = split_uri uri; headers = headers; content = [] })
  | some value ↦
      let n = parse_number value in
      if ltb (length d) n
      then no_data n
          (record { method = method; path = split_uri uri; headers = headers; content = d })
      else complete (length passed + n)
          (record { method = method; path = split_uri uri; headers = headers; content = take n d })
]

unfoldable pub parse_request : Bytes → Parsed
parse_request d =
    let method = parser_next b' ' d in
    let uri = parser_next b' ' method.rest in
    let proto = parser_next 10 uri.rest in
    let passed = method.passed ++ (uri.passed ++ proto.passed) in
    if starts_with (codes "HTTP/") proto.token || starts_with (codes "RTSP/1.") proto.token
    then elim (header_loop (length proto.rest) passed proto.rest []) [
      | none ↦ bad_message
      | some (headers, over, rest) ↦ with_content method.token uri.token headers over rest
    ]
    else unsupported
