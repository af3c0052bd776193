-- ===== src/Http/Requests.antt =====
-- Requests that are complete, and requests whose content has not arrived.
use mathlib.Core.List.{append_assoc, append-nil}
use push1st.Prelude.{
  ◌%◌, ◌*◌, ◌^◌, Without, All, ltb, ap, arith, ◌∙◌, ◌+◌, ◌-◌, ◌≡◌, ◌≢◌, ◌<◌, Bool-cases, codes,
  if◌then◌else◌, starts_with, Bytes, List, refl, [], ◌∷◌, some, inl, inr, ℕ, ◌++◌, length,
  length-append, take,
}
use push1st.Channel.Table.{find}
use push1st.Credentials.Decimal.{
  is_space, is_digit, Digits, decimal, read_digits, read_digits-decimal, decimal-Digits,
}
use push1st.Http.Scan.{parse_digits, trim_end, parser_next, parse_number}
use push1st.Http.Uri.{split_uri}
use push1st.Http.Request.{Request, no_data, complete, with_content, parse_request}
use push1st.Http.Headers.{
  IsHeader, Starts-line_text, length-headers_text, line_text, headers_text, emplace_all,
  header_loop-headers_text,
}
use push1st.Http.Tokens.{drop_spaces-Starts, Starts, IsToken, next_token}

-- A method or a uri, which holds no blank of the first line.
abbrev pub IsWord : Bytes → Type 0
IsWord w = (w ≢ []) × (Without b' ' w × IsToken w)

abbrev pub protocol : Bytes
protocol = codes "HTTP/1.1"

-- What stands before the content.
abbrev pub head_text : Bytes → Bytes → List (Bytes × Bytes) → Bytes
head_text method uri hs =
    method ++ b' ' ∷ (uri ++ b' ' ∷ (protocol ++ 13 ∷ 10 ∷ (headers_text hs ++ 13 ∷ 10 ∷ [])))

next_word :
    (w b : Bytes)
    → IsWord w
    → Starts b
    → parser_next b' ' (w ++ b' ' ∷ b) ≡ record { token = w; passed = w ++ b' ' ∷ []; rest = b }
next_word w b h hb = rw (append-nil w) at (
    next_token b' ' [] w [] (b' ' ∷ []) b b refl tt tt (unfold is_space in (refl, tt)) h.1.1 hb
      (rw (append-nil w) h.1.0))

protocol-IsToken : IsToken protocol
unfolding is_space trim_end
protocol-IsToken = (refl, refl)

next_protocol :
    (b : Bytes)
    → Starts b
    → parser_next 10 (protocol ++ 13 ∷ 10 ∷ b)
      ≡ record { token = protocol; passed = protocol ++ 13 ∷ 10 ∷ []; rest = b }
next_protocol b hb =
    next_token 10 [] protocol (13 ∷ []) (10 ∷ []) b b refl tt (unfold is_space in (refl, tt))
      (unfold is_space in (refl, tt)) protocol-IsToken hb (ground arith)

Starts-word : (w b : Bytes) → IsWord w → Starts (w ++ b)
Starts-word [] b h = absurd (h.0 refl)
Starts-word (c ∷ w) b h = h.1.1.0

-- The request up to its content.
parse_request_lem :
    (method uri d : Bytes) (h : Bytes × Bytes) (hs : List (Bytes × Bytes))
    → IsWord method
    → IsWord uri
    → IsHeader h
    → All IsHeader hs
    → Starts d
    → parse_request (head_text method uri (h ∷ hs) ++ d)
      ≡ with_content method uri (emplace_all (h ∷ hs) []) (head_text method uri (h ∷ hs)) d
unfolding parse_request
parse_request_lem method uri d h hs hm hu hh hhs hd =
    let lines = headers_text (h ∷ hs) ++ 13 ∷ 10 ∷ d in
    let text : head_text method uri (h ∷ hs) ++ d
        ≡ method ++ b' ' ∷ (uri ++ b' ' ∷ (protocol ++ 13 ∷ 10 ∷ lines)) =
      simp append_assoc refl in
    let starts : Starts lines =
      rw (append_assoc (line_text h) (headers_text hs) (13 ∷ 10 ∷ d))
        (Starts-line_text h (headers_text hs ++ 13 ∷ 10 ∷ d) hh) in
    let rounds : length hs < length lines =
      omega (
        arith,
        length-headers_text (h ∷ hs),
        length-append (headers_text (h ∷ hs)) (13 ∷ 10 ∷ d),
      ) in
    let head : (method ++ b' ' ∷ [])
          ++ ((uri ++ b' ' ∷ []) ++ (protocol ++ 13 ∷ 10 ∷ []))
          ++ (headers_text (h ∷ hs) ++ 13 ∷ 10 ∷ [])
        ≡ head_text method uri (h ∷ hs) =
      simp append_assoc refl in
    let loop =
      header_loop-headers_text (length lines) h hs
        ((method ++ b' ' ∷ []) ++ ((uri ++ b' ' ∷ []) ++ (protocol ++ 13 ∷ 10 ∷ []))) d [] rounds hh
        hhs hd in
    ap parse_request text
    ∙ rw
        (
          next_word method (uri ++ b' ' ∷ (protocol ++ 13 ∷ 10 ∷ lines)) hm (Starts-word uri _ hu),
          parse_request,
          next_word uri (protocol ++ 13 ∷ 10 ∷ lines) hu protocol-IsToken.0,
          next_protocol lines starts,
          loop,
        )
        (unfold starts_with in
          (rw
            (
              next_word method (uri ++ b' ' ∷ (protocol ++ 13 ∷ 10 ∷ lines)) hm
                  (Starts-word uri _ hu),
              next_word uri (protocol ++ 13 ∷ 10 ∷ lines) hu protocol-IsToken.0,
              head,
            )
            refl))

parse_digits-read_digits :
    (a : ℕ) (s : Bytes) → parse_digits (a % 2 ^ 64) s ≡ read_digits a s % 2 ^ 64
unfolding parse_digits read_digits
parse_digits-read_digits a [] = refl
parse_digits-read_digits a (c ∷ s) =
    let wrap : ((a % 2 ^ 64) * 10 + (c - b'0')) % 2 ^ 64 ≡ (a * 10 + (c - b'0')) % 2 ^ 64 =
      omega arith in
    rw (wrap, parse_digits-read_digits (a * 10 + (c - b'0')) s)
      (elim (Bool-cases (is_digit c)) [ inl d ↦ rw d refl | inr n ↦ rw n refl ])

Starts-Digits : (s : Bytes) → Digits s → Starts s
unfolding is_digit is_space
Starts-Digits [] h = tt
Starts-Digits (c ∷ s) h = ground (arith, h.0)

parse_number-decimal : (n : ℕ) → n < 2 ^ 64 → parse_number (decimal n) ≡ n
unfolding parse_number
parse_number-decimal n h =
    rw (drop_spaces-Starts [] (decimal n) tt (Starts-Digits (decimal n) (decimal-Digits n)))
      (parse_digits-read_digits 0 (decimal n) ∙ rw (read_digits-decimal n) (omega arith))

abbrev pub request_of : Bytes → Bytes → List (Bytes × Bytes) → Bytes → Request
request_of method uri hs content = record {
  method = method;
  path = split_uri uri;
  headers = emplace_all hs [];
  content = content;
}

-- A request whose headers give the length n of its content, from its first line to any number of
-- bytes behind its headers: where they are fewer than n, more of them are asked for, and otherwise
-- method, uri, headers and the n bytes are those it was made of, and its length is that of its head
-- and n, whatever follows. Method and uri hold no blank, a header's name holds no colon and its value
-- no line end, none of them begins or ends with a blank, and the first byte behind the headers, if
-- there is one, is no blank.
pub parse_request-head_text :
    (method uri d : Bytes) (n : ℕ) (h : Bytes × Bytes) (hs : List (Bytes × Bytes))
    → IsWord method
    → IsWord uri
    → IsHeader h
    → All IsHeader hs
    → Starts d
    → n < 2 ^ 64
    → find (codes "content-length") (emplace_all (h ∷ hs) []) ≡ some (decimal n)
    → parse_request (head_text method uri (h ∷ hs) ++ d) ≡ (
        if ltb (length d) n
        then no_data n (request_of method uri (h ∷ hs) d)
        else complete
            (length (head_text method uri (h ∷ hs)) + n)
            (request_of method uri (h ∷ hs) (take n d)))
unfolding with_content
parse_request-head_text method uri d n h hs hm hu hh hhs hd small f =
    parse_request_lem method uri d h hs hm hu hh hhs hd
    ∙ rw (f, with_content, parse_number-decimal n small) refl
