-- ===== src/Base64/Padding.antt =====
-- Lengths, and what decoding does with padding that no encoding produces.
use push1st.Prelude.{
  ℕ, zero, suc, ◌+◌, ◌*◌, ◌/◌, ◌<◌, ◌≤◌, ◌≡◌, ◌≢◌, ◌↔◌, refl, sym, ap, ◌∙◌, [], ◌∷◌, ◌++◌, Option,
  none, some, arith, Bytes, length, length-append, length-replicate, replicate, get_or,
  get_or-append_right, Option-cases, inl, inr, ◌>>=◌,
}
use native.Mathlib.Nat.{zero-add}
use push1st.Base64.Codec.{
  Alphabet, quad, encode_loop, encode, decode_quads, pop_back, strip_pads, decode,
}
use push1st.Base64.RoundTrip.{strip_pads_stop, strip_pads_pop}

-- Four symbols for each three bytes begun.
pub length-encode : (a : Alphabet) (xs : Bytes) → length (encode a xs) ≡ 4 * ((length xs + 2) / 3)
unfolding encode_loop encode
length-encode a [] = refl
length-encode a (x ∷ []) = refl
length-encode a (x ∷ y ∷ []) = refl
length-encode a (x ∷ y ∷ z ∷ xs) =
    omega (arith, length-append (quad a x y z) (encode a xs), length-encode a xs)

pub length-decode_quads :
    (a : Alphabet) (source : Bytes) → length (decode_quads a source) ≡ 3 * (length source / 4)
unfolding decode_quads
length-decode_quads a [] = refl
length-decode_quads a (c ∷ []) = refl
length-decode_quads a (c ∷ d ∷ []) = refl
length-decode_quads a (c ∷ d ∷ e ∷ []) = refl
length-decode_quads a (c ∷ d ∷ e ∷ f ∷ rest) = omega (arith, length-decode_quads a rest)

-- `pop_back`, `n` times.
pub pops : ℕ → Bytes → Option Bytes
pops zero r = some r
pops (suc n) r = pop_back r >>= pops n

pop_back_lem :
    (x : ℕ) (xs : Bytes) → (r : Bytes) × (pop_back (x ∷ xs) ≡ some r) × (length r ≡ length xs)
unfolding pop_back
pop_back_lem x [] = ([], refl, refl)
pop_back_lem x (y ∷ ys) = let (r, e, l) = pop_back_lem y ys in (x ∷ r, rw e refl, omega (arith, l))

-- The pops fail exactly when they are more than the bytes.
pub pops-eq-none_iff : (n : ℕ) (r : Bytes) → (pops n r ≡ none) ↔ (length r < n)
unfolding pops
pops-eq-none_iff zero r = (λ h. cc, λ h. elim h [ ])
pops-eq-none_iff (suc n) [] = unfold pop_back in (λ h. omega arith, λ h. refl)
pops-eq-none_iff (suc n) (x ∷ xs) =
    let (r, e, l) = pop_back_lem x xs in
    rw e (
      λ h. omega (arith, (pops-eq-none_iff n r).0 h, l),
      λ h. (pops-eq-none_iff n r).1 (omega (arith, l)),
    )

get_or-replicate : (k i : ℕ) (v : ℕ) → i < k → get_or (replicate k v) i 0 ≡ v
get_or-replicate zero i v h = elim h [ ]
get_or-replicate (suc k) zero v h = refl
get_or-replicate (suc k) (suc i) v h = get_or-replicate k i v (omega arith)

module _ (a : Alphabet) (body : Bytes) (k : ℕ) where
  strip_pads-padded :
      (j : ℕ) (r : Bytes)
      → j ≤ k
      → strip_pads a (length body + j) (body ++ replicate k a.pad) r
        ≡ (pops j r >>= strip_pads a (length body) (body ++ replicate k a.pad))
  unfolding pops
  strip_pads-padded zero r h = let e : length body + 0 ≡ length body = omega arith in rw e refl
  strip_pads-padded (suc j) r h =
      let e : length body + suc j ≡ suc (length body + j) = omega arith in
      rw e (
        strip_pads_pop a _ (length body + j) r (
          get_or-append_right body (replicate k a.pad) j 0
          ∙ get_or-replicate k j a.pad (omega arith))
        ∙ elim (Option-cases (pop_back r)) [
          | inl n ↦ rw n refl
          | inr (r', s) ↦ rw s (strip_pads-padded j r' (omega arith))
        ])

decode_lem :
    (a : Alphabet) (source : Bytes)
    → decode a source ≡ strip_pads a (length source) source (decode_quads a source)
unfolding decode
decode_lem a [] = refl
decode_lem a (c ∷ rest) = ground arith

length_snoc : (body : Bytes) (c : ℕ) → length (body ++ c ∷ []) ≡ suc (length body)
length_snoc body c = omega (arith, length-append body (c ∷ []))

symbol_at : (body : Bytes) (c : ℕ) (t : Bytes) → get_or ((body ++ c ∷ []) ++ t) (length body) 0 ≡ c
symbol_at [] c t = refl
symbol_at (x ∷ xs) c t = symbol_at xs c t

decode-padded :
    (a : Alphabet) (body : Bytes) (c k : ℕ)
    → c ≢ a.pad
    → decode a ((body ++ c ∷ []) ++ replicate k a.pad)
      ≡ pops k (decode_quads a ((body ++ c ∷ []) ++ replicate k a.pad))
decode-padded a body c k h =
    let source : Bytes = (body ++ c ∷ []) ++ replicate k a.pad in
    let r : Bytes = decode_quads a source in
    decode_lem a source
    ∙ rw (length-append (body ++ c ∷ []) (replicate k a.pad), length-replicate k a.pad)
        (strip_pads-padded a (body ++ c ∷ []) k k r (omega arith) ∙ elim (Option-cases (pops k r)) [
          | inl n ↦ rw n refl
          | inr (r', e) ↦
              rw (e, length_snoc body c)
                (strip_pads_stop a source (length body) r'
                  (λ q. h (sym (symbol_at body c (replicate k a.pad)) ∙ q)))
        ])

length_padded :
    (body : Bytes) (c k p : ℕ) → length ((body ++ c ∷ []) ++ replicate k p) ≡ length body + 1 + k
length_padded body c k p = omega (
  arith,
  length-append (body ++ c ∷ []) (replicate k p),
  length-append body (c ∷ []),
  length-replicate k p,
)

-- A text whose last symbol before `k` paddings is no padding decodes, unless the paddings are more
-- than the bytes of its whole groups of four: then `pop_back` meets an empty result.
pub decode-eq-none_iff :
    (a : Alphabet) (body : Bytes) (c k : ℕ)
    → c ≢ a.pad
    → (decode a ((body ++ c ∷ []) ++ replicate k a.pad) ≡ none)
      ↔ (3 * ((length body + 1 + k) / 4) < k)
decode-eq-none_iff a body c k h =
    rw
      (
        decode-padded a body c k h,
        ← length_padded body c k a.pad,
        ← length-decode_quads a ((body ++ c ∷ []) ++ replicate k a.pad),
      )
      (pops-eq-none_iff k (decode_quads a ((body ++ c ∷ []) ++ replicate k a.pad)))

-- A text of paddings alone always fails so.
pub decode-replicate : (a : Alphabet) (k : ℕ) → 0 < k → decode a (replicate k a.pad) ≡ none
decode-replicate a k h =
    decode_lem a (replicate k a.pad) ∙ rw (length-replicate k a.pad) (strip_all a k h)
  where
    fails : (a : Alphabet) (k : ℕ) → 0 < k → pops k (decode_quads a (replicate k a.pad)) ≡ none
    fails a k h =
        (pops-eq-none_iff k (decode_quads a (replicate k a.pad))).1
          (omega (arith, length-decode_quads a (replicate k a.pad), length-replicate k a.pad))

    strip_all :
        (a : Alphabet) (k : ℕ)
        → 0 < k
        → strip_pads a k (replicate k a.pad) (decode_quads a (replicate k a.pad)) ≡ none
    strip_all a k h =
        ap (λ n. strip_pads a n (replicate k a.pad) (decode_quads a (replicate k a.pad)))
          (sym (zero-add k))
        ∙ strip_pads-padded a [] k k (decode_quads a (replicate k a.pad)) (omega arith)
        ∙ rw (fails a k h) refl
