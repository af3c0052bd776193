-- ===== src/Http/Headers.antt =====
-- The headers of a request are read back, line by line.
use mathlib.Core.List.{append_assoc, append-nil}
use push1st.Prelude.{
  drop-append, Without, All, All-append, ap, sym, arith, ◌∙◌, ◌-◌, ◌≡◌, ◌≢◌, ◌≤◌, ◌<◌, bytes_eq,
  if◌then◌else◌, Bytes, List, refl, [], ◌∷◌, some, true, false, ℕ, zero, suc, ◌++◌, length,
  length-append,
}
use push1st.Channel.Table.{emplace}
use push1st.Credentials.Decimal.{is_space}
use push1st.Http.Scan.{is_empty, parser_next}
use push1st.Http.Request.{at_eod, eod, to_lower, header_loop}
use push1st.Http.Tokens.{Starts, IsToken, Blank, next_token}

at_eod-append : (Y s : Bytes) → length s ≡ 4 → at_eod (Y ++ s) ≡ bytes_eq s eod
unfolding at_eod
at_eod-append Y s e =
    let n : length (Y ++ s) - 4 ≡ length Y = omega (arith, e, length-append Y s) in
    rw (n, drop-append Y s) refl

last_two :
    (a b : ℕ) (v : Bytes)
    → Without 10 (b ∷ v)
    → (z : Bytes) × (x y : ℕ) × ((a ∷ b ∷ v ≡ z ++ (x ∷ y ∷ [])) × (y ≢ 10))
last_two a b [] h = ([], a, b, (refl, h.0))
last_two a b (c ∷ v) h =
    let (z, x, y, (e, n)) = last_two b c v h.1 in (a ∷ z, x, y, (ap (λ t. a ∷ t) e, n))

-- A line with a value does not end the headers, and with an empty line behind it it does.
at_eod_line :
    (Y v : Bytes) (a b : ℕ)
    → Without 10 (b ∷ v)
    → at_eod (Y ++ ((a ∷ b ∷ v) ++ 13 ∷ 10 ∷ [])) ≡ false
at_eod_line Y v a b h =
    let (z, x, y, (e, n)) = last_two a b v h in
    let four : bytes_eq (x ∷ y ∷ 13 ∷ 10 ∷ []) eod ≡ false =
      unfold bytes_eq in (ground (arith, n)) in
    ap (λ t. at_eod (Y ++ (t ++ 13 ∷ 10 ∷ []))) e
    ∙ rw (append_assoc z (x ∷ y ∷ []) (13 ∷ 10 ∷ []), ← append_assoc Y z (x ∷ y ∷ 13 ∷ 10 ∷ []))
        (at_eod-append (Y ++ z) (x ∷ y ∷ 13 ∷ 10 ∷ []) refl ∙ four)

-- A header, and its line.
abbrev pub IsHeader : Bytes × Bytes → Type 0
IsHeader (k, v) = (k ≢ []) × (Without b':' k × (IsToken k × (Without 10 v × IsToken v)))

abbrev pub line_text : Bytes × Bytes → Bytes
line_text (k, v) = k ++ b':' ∷ b' ' ∷ (v ++ 13 ∷ 10 ∷ [])

abbrev pub headers_text : List (Bytes × Bytes) → Bytes
headers_text [] = []
headers_text (h ∷ hs) = line_text h ++ headers_text hs

abbrev pub emplace_all : List (Bytes × Bytes) → List (Bytes × Bytes) → List (Bytes × Bytes)
emplace_all [] table = table
emplace_all ((k, v) ∷ hs) table = emplace_all hs (emplace (to_lower k) v table)

next_key :
    (k x : Bytes)
    → Without b':' k
    → IsToken k
    → parser_next b':' (k ++ b':' ∷ x) ≡ record { token = k; passed = k; rest = b':' ∷ x }
next_key k x h t =
    rw (append-nil k, append-nil k) at
      (next_token b':' [] k [] [] (b':' ∷ x) x refl tt tt tt t (unfold is_space in refl)
        (rw (append-nil k) h))

next_value :
    (v w b x : Bytes)
    → w ++ b ≡ 10 ∷ x
    → Blank w
    → Starts b
    → Without 10 v
    → IsToken v
    → parser_next 10 ((b' ' ∷ (v ++ 13 ∷ [])) ++ (w ++ b))
      ≡ record { token = v; passed = (b' ' ∷ (v ++ 13 ∷ [])) ++ w; rest = b }
next_value v w b x e hw hb h t =
    next_token 10 (b' ' ∷ []) v (13 ∷ []) w b x e (unfold is_space in (refl, tt))
      (unfold is_space in (refl, tt)) hw t hb
      (ground arith, All-append (λ c. c ≢ 10) v (13 ∷ []) h (ground arith, tt))

-- A round of the loop, up to the test of the end.
header_step :
    (f : ℕ) (passed k v w b x : Bytes) (table : List (Bytes × Bytes))
    → w ++ b ≡ 10 ∷ x
    → Blank w
    → Starts b
    → IsHeader (k, v)
    → header_loop (suc f) passed (k ++ b':' ∷ ((b' ' ∷ (v ++ 13 ∷ [])) ++ (w ++ b))) table ≡ (
        let over = passed ++ (k ++ b':' ∷ ((b' ' ∷ (v ++ 13 ∷ [])) ++ w)) in
        if at_eod over
        then some (emplace (to_lower k) v table, over, b)
        else header_loop f over b (emplace (to_lower k) v table))
unfolding header_loop is_empty
header_step f passed [] v w b x table e hw hb h = absurd (h.0 refl)
header_step f passed (c ∷ k) v w b x table e hw hb h =
    let (n, (hk, (tk, (hv, tv)))) = h in
    rw
      (
        next_key (c ∷ k) ((b' ' ∷ (v ++ 13 ∷ [])) ++ (w ++ b)) hk tk,
        header_loop,
        next_value v w b x e hw hb hv tv,
      )
      refl

header_next :
    (f : ℕ) (passed k v b : Bytes) (table : List (Bytes × Bytes))
    → Starts b
    → IsHeader (k, v)
    → header_loop (suc f) passed (line_text (k, v) ++ b) table
      ≡ header_loop f (passed ++ line_text (k, v)) b (emplace (to_lower k) v table)
header_next f passed k v b table hb h =
    let line : k ++ b':' ∷ ((b' ' ∷ (v ++ 13 ∷ [])) ++ 10 ∷ []) ≡ line_text (k, v) =
      simp append_assoc refl in
    let text : line_text (k, v) ++ b ≡ k ++ b':' ∷ ((b' ' ∷ (v ++ 13 ∷ [])) ++ 10 ∷ b) =
      simp append_assoc refl in
    let goes : at_eod (passed ++ line_text (k, v)) ≡ false =
      ap at_eod (sym (append_assoc passed k (b':' ∷ b' ' ∷ (v ++ 13 ∷ 10 ∷ []))))
      ∙ at_eod_line (passed ++ k) v b':' b' ' (ground arith, h.1.1.1.0) in
    ap (λ t. header_loop (suc f) passed t table) text
    ∙ header_step f passed k v (10 ∷ []) b b table refl (unfold is_space in (refl, tt)) hb h
    ∙ rw (line, goes) refl

header_last :
    (f : ℕ) (passed k v b : Bytes) (table : List (Bytes × Bytes))
    → Starts b
    → IsHeader (k, v)
    → header_loop (suc f) passed (line_text (k, v) ++ 13 ∷ 10 ∷ b) table
      ≡ some (emplace (to_lower k) v table, passed ++ (line_text (k, v) ++ 13 ∷ 10 ∷ []), b)
header_last f passed k v b table hb h =
    let line : k ++ b':' ∷ ((b' ' ∷ (v ++ 13 ∷ [])) ++ 10 ∷ 13 ∷ 10 ∷ [])
        ≡ line_text (k, v) ++ 13 ∷ 10 ∷ [] =
      simp append_assoc refl in
    let text : line_text (k, v) ++ 13 ∷ 10 ∷ b
        ≡ k ++ b':' ∷ ((b' ' ∷ (v ++ 13 ∷ [])) ++ 10 ∷ 13 ∷ 10 ∷ b) =
      simp append_assoc refl in
    let shape : passed ++ (line_text (k, v) ++ 13 ∷ 10 ∷ [])
        ≡ (passed ++ (k ++ b':' ∷ b' ' ∷ v)) ++ eod =
      simp append_assoc refl in
    let ends : at_eod (passed ++ (line_text (k, v) ++ 13 ∷ 10 ∷ [])) ≡ true =
      ap at_eod shape
      ∙ at_eod-append (passed ++ (k ++ b':' ∷ b' ' ∷ v)) eod refl
      ∙ (unfold bytes_eq in refl) in
    ap (λ t. header_loop (suc f) passed t table) text
    ∙ header_step f passed k v (10 ∷ 13 ∷ 10 ∷ []) b (13 ∷ 10 ∷ b) table refl
        (unfold is_space in (refl, (refl, (refl, tt)))) hb h
    ∙ rw (line, ends) refl

pub Starts-line_text : (h : Bytes × Bytes) (x : Bytes) → IsHeader h → Starts (line_text h ++ x)
Starts-line_text ([], v) x h = absurd (h.0 refl)
Starts-line_text (c ∷ k, v) x h = h.1.1.0.0

-- All of the headers, up to the empty line.
pub header_loop-headers_text :
    (f : ℕ) (h : Bytes × Bytes) (hs : List (Bytes × Bytes)) (passed b : Bytes)
    (table : List (Bytes × Bytes))
    → length hs < f
    → IsHeader h
    → All IsHeader hs
    → Starts b
    → header_loop f passed (headers_text (h ∷ hs) ++ 13 ∷ 10 ∷ b) table
      ≡ some (emplace_all (h ∷ hs) table, passed ++ (headers_text (h ∷ hs) ++ 13 ∷ 10 ∷ []), b)
header_loop-headers_text zero h hs passed b table l ih is hb = absurd (omega arith)
header_loop-headers_text (suc f) (k, v) [] passed b table l ih is hb =
    rw (append-nil (line_text (k, v))) (header_last f passed k v b table hb ih)
header_loop-headers_text (suc f) (k, v) (g ∷ gs) passed b table l ih is hb =
    let more = headers_text (g ∷ gs) in
    let next =
      header_loop-headers_text f g gs (passed ++ line_text (k, v)) b (emplace (to_lower k) v table)
        (omega arith) is.0 is.1 hb in
    let starts : Starts (more ++ 13 ∷ 10 ∷ b) =
      rw (append_assoc (line_text g) (headers_text gs) (13 ∷ 10 ∷ b))
        (Starts-line_text g (headers_text gs ++ 13 ∷ 10 ∷ b) is.0) in
    rw (append_assoc (line_text (k, v)) more (13 ∷ 10 ∷ b)) (
      header_next f passed k v (more ++ 13 ∷ 10 ∷ b) table starts ih
      ∙ next
      ∙ simp append_assoc refl)

pub length-headers_text : (hs : List (Bytes × Bytes)) → length hs ≤ length (headers_text hs)
length-headers_text [] = omega arith
length-headers_text ((k, v) ∷ hs) = omega (
  arith,
  length-headers_text hs,
  length-append (line_text (k, v)) (headers_text hs),
  length-append k (b':' ∷ b' ' ∷ (v ++ 13 ∷ 10 ∷ [])),
)
