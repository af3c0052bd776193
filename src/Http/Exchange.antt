-- ===== src/Http/Exchange.antt =====
-- A request that is written is read back, also where its content arrives later than its head.
use mathlib.Core.List.{append_assoc}
use push1st.Prelude.{
  ltb, ap, arith, ◌∙◌, ◌^◌, ◌≡◌, ◌<◌, Bool-cases, codes, bytes_eq, bytes_eq_iff, Bytes, List, refl,
  [], ◌∷◌, some, inl, inr, false, ℕ, ◌++◌, length, length-append, take-length, All, Without,
}
use push1st.Channel.Table.{find, emplace, find-emplace}
use push1st.Credentials.Decimal.{is_space, is_digit, Digits, decimal, decimal-Digits}
use push1st.Http.Scan.{trim_end}
use push1st.Http.Tokens.{Starts, IsToken}
use push1st.Http.Headers.{IsHeader, emplace_all}
use push1st.Http.Request.{Request, complete, parse_request, to_lower}
use push1st.Http.Requests.{IsWord, head_text, request_of, parse_request-head_text}
use push1st.Http.Connection.{request_text, header_lines}

-- What is in the table stays there.
find-emplace_all :
    (k v : Bytes) (hs t : List (Bytes × Bytes))
    → find k t ≡ some v
    → find k (emplace_all hs t) ≡ some v
find-emplace_all k v [] t e = e
find-emplace_all k v ((j, w) ∷ hs) t e = find-emplace_all k v hs (emplace (to_lower j) w t) (
    find-emplace (to_lower j) k w t ∙ elim (Bool-cases (bytes_eq (to_lower j) k)) [
      | inl q ↦ rw q (rw ((bytes_eq_iff (to_lower j) k).0 q) (rw e refl))
      | inr q ↦ rw q e
    ])

trim_end-Digits : (s : Bytes) → Digits s → trim_end s ≡ s
unfolding trim_end is_digit is_space
trim_end-Digits [] h = refl
trim_end-Digits (c ∷ []) h = ground (arith, h.0)
trim_end-Digits (c ∷ d ∷ s) h = rw (trim_end-Digits (d ∷ s) h.1, trim_end) refl

Starts-Digits : (s : Bytes) → Digits s → Starts s
unfolding is_digit is_space
Starts-Digits [] h = tt
Starts-Digits (c ∷ s) h = ground (arith, h.0)

Without-Digits : (s : Bytes) → Digits s → Without 10 s
unfolding is_digit
Without-Digits [] h = tt
Without-Digits (c ∷ s) h = (ground (arith, h.0), Without-Digits s h.1)

abbrev pub length_header : ℕ → Bytes × Bytes
length_header n = (codes "Content-Length", decimal n)

length_header-IsHeader : (n : ℕ) → IsHeader (length_header n)
length_header-IsHeader n =
    let digits = decimal-Digits n in
    let key : IsToken (codes "Content-Length") = unfold is_space trim_end in (refl, refl) in
    (
      ground arith,
      (
        ground arith,
        (
          key,
          (
            Without-Digits (decimal n) digits,
            (Starts-Digits (decimal n) digits, trim_end-Digits (decimal n) digits),
          ),
        ),
      ),
    )

-- HttpWriteRequest and ParseRequest: the text of a request with a body, all of it, is read as the
-- method, the uri, the length and the headers it was made of, in that order, and the body. Method
-- and uri hold no blank, a header's name holds no colon and its value no line end, none of them and
-- not the body begins with a blank, and the words end with none.
pub parse_request-request_text :
    (method uri body : Bytes) (c : ℕ) (hs : List (Bytes × Bytes))
    → IsWord method
    → IsWord uri
    → All IsHeader hs
    → Starts (c ∷ body)
    → length (c ∷ body) < 2 ^ 64
    → parse_request (request_text method uri hs (c ∷ body))
      ≡ complete
          (length (request_text method uri hs (c ∷ body)))
          (request_of method uri (length_header (length (c ∷ body)) ∷ hs) (c ∷ body))
unfolding request_text header_lines emplace to_lower
parse_request-request_text method uri body c hs hm hu hhs hb small =
    let n = length (c ∷ body) in
    let head = head_text method uri (length_header n ∷ hs) in
    let text : request_text method uri hs (c ∷ body) ≡ head ++ c ∷ body = simp append_assoc refl in
    let whole : ltb n n ≡ false = ground arith in
    let found : find (codes "content-length") (emplace_all (length_header n ∷ hs) [])
        ≡ some (decimal n) =
      find-emplace_all (codes "content-length") (decimal n) hs
        ((codes "content-length", decimal n) ∷ []) (unfold find bytes_eq in refl) in
    ap parse_request text
    ∙ parse_request-head_text method uri (c ∷ body) n (length_header n) hs hm hu
        (length_header-IsHeader n) hhs hb small found
    ∙ rw whole (rw (take-length (c ∷ body), text, length-append head (c ∷ body)) refl)
