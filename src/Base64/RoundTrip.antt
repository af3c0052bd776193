-- ===== src/Base64/RoundTrip.antt =====
-- Decoding what was encoded.
use mathlib.Core.List.{append_assoc, append-nil}
use push1st.Prelude.{
  false, ◌==◌, sym, ap, length-append, All, ℕ, suc, ◌+◌, ◌*◌, ◌/◌, ◌%◌, ◌<◌, ◌≡◌, ◌≢◌, refl, ◌∙◌,
  [], ◌∷◌, ◌++◌, some, arith, Bytes, IsByte, length, get_or, get_or-append_right, ◌>>=◌,
}
use push1st.Base64.Codec.{
  Alphabet, one, encode, decode, encode_loop, two, symbol, value, sextet0, sextet1, sextet2,
  sextet3, quad, flush, octet0, octet1, octet2, decode_quads, pop_back, strip_pads,
}
use push1st.Base64.Bits.{
  and_fc, and_03, and_f0, and_0f, and_c0, and_3f, or_low2, or_low4, or_low6, shifted_c0,
}
use push1st.Base64.Alphabets.{IsAlphabet}

module _ (x : ℕ) (hx : IsByte x) where
  pub sextet0_lem : sextet0 x ≡ x / 4
  unfolding sextet0
  sextet0_lem = and_fc x hx

  pub sextet3_lem : sextet3 x ≡ x % 64
  unfolding sextet3
  sextet3_lem = and_3f x hx

module _ (x y : ℕ) (hx : IsByte x) (hy : IsByte y) where
  pub sextet1_lem : sextet1 x y ≡ x % 4 * 16 + y / 16
  unfolding sextet1
  sextet1_lem = omega (arith, and_03 x hx, and_f0 y hy)

  pub sextet2_lem : sextet2 x y ≡ x % 16 * 4 + y / 64
  unfolding sextet2
  sextet2_lem = omega (arith, and_0f x hx, and_c0 y hy)

module _ (x y z : ℕ) (hx : IsByte x) (hy : IsByte y) (hz : IsByte z) where
  octet0-sextets : octet0 (sextet0 x) (sextet1 x y) ≡ x
  unfolding octet0
  octet0-sextets =
      rw (sextet0_lem x hx, sextet1_lem x y hx hy)
        (omega (arith, or_low2 (x / 4) ((x % 4 * 16 + y / 16) / 16) (omega arith) (omega arith)))

  octet1-sextets : octet1 (sextet1 x y) (sextet2 y z) ≡ y
  unfolding octet1
  octet1-sextets =
      rw (sextet1_lem x y hx hy, sextet2_lem y z hy hz)
        (omega (
          arith,
          or_low4 (x % 4 * 16 + y / 16) ((y % 16 * 4 + z / 64) / 4) (omega arith) (omega arith),
        ))

  octet2-sextets : octet2 (sextet2 y z) (sextet3 z) ≡ z
  unfolding octet2
  octet2-sextets =
      rw (sextet2_lem y z hy hz, sextet3_lem z hz, shifted_c0 (y % 16 * 4 + z / 64) (omega arith))
        (omega (arith, or_low6 ((y % 16 * 4 + z / 64) % 4) (z % 64) (omega arith) (omega arith)))

pub pop_back-append : (xs : Bytes) (y : ℕ) → pop_back (xs ++ y ∷ []) ≡ some xs
unfolding pop_back
pop_back-append [] y = refl
pop_back-append (x ∷ []) y = refl
pop_back-append (x ∷ x' ∷ xs) y = rw (pop_back-append (x' ∷ xs) y)

module _ (a : Alphabet) (source : Bytes) (n : ℕ) (r : Bytes) where
  pub strip_pads_stop : get_or source n 0 ≢ a.pad → strip_pads a (suc n) source r ≡ some r
  unfolding strip_pads
  strip_pads_stop h = ground arith

  pub strip_pads_pop :
      get_or source n 0 ≡ a.pad
      → strip_pads a (suc n) source r ≡ (pop_back r >>= strip_pads a n source)
  unfolding strip_pads
  strip_pads_pop h = ground arith

split_last2 : (r : Bytes) (x j k : ℕ) → r ++ x ∷ j ∷ k ∷ [] ≡ ((r ++ x ∷ []) ++ j ∷ []) ++ k ∷ []
split_last2 r x j k = simp append_assoc

split_last1 : (r : Bytes) (x y k : ℕ) → r ++ x ∷ y ∷ k ∷ [] ≡ (r ++ x ∷ y ∷ []) ++ k ∷ []
split_last1 r x y k = simp append_assoc

split_front : (r : Bytes) (x y z : ℕ) (t : Bytes) → r ++ x ∷ y ∷ z ∷ t ≡ (r ++ x ∷ y ∷ z ∷ []) ++ t
split_front r x y z t = simp append_assoc

module _ (a : Alphabet) (v : IsAlphabet a) where
  value_sextet : (s : ℕ) → s < 64 → value a (symbol a s) ≡ s
  value_sextet = v.inverse

  decode_quads-quad :
      (x y z : ℕ) (rest : Bytes)
      → IsByte x
      → IsByte y
      → IsByte z
      → decode_quads a (quad a x y z ++ rest) ≡ x ∷ y ∷ z ∷ decode_quads a rest
  unfolding decode_quads quad
  decode_quads-quad x y z rest hx hy hz = rw (
    value_sextet (sextet0 x) (omega (arith, sextet0_lem x hx)),
    value_sextet (sextet1 x y) (omega (arith, sextet1_lem x y hx hy)),
    value_sextet (sextet2 y z) (omega (arith, sextet2_lem y z hy hz)),
    value_sextet (sextet3 z) (omega (arith, sextet3_lem z hz)),
    octet0-sextets x y z hx hy hz,
    octet1-sextets x y z hx hy hz,
    octet2-sextets x y z hx hy hz,
  )

  -- A group whose last symbol is no padding leaves the result as it is.
  strip_pads_full :
      (p r : Bytes) (x y z : ℕ)
      → IsByte z
      → strip_pads a (length p + 4) (p ++ quad a x y z) r ≡ some r
  unfolding quad
  strip_pads_full p r x y z hz =
      let e : length p + 4 ≡ suc (length p + 3) = omega arith in
      rw e (
        strip_pads_stop a _ (length p + 3) r (
          rw (get_or-append_right p (quad a x y z) 3 0)
            (v.not_pad (sextet3 z) (omega (arith, sextet3_lem z hz)))))

  strip_pads_two :
      (p r : Bytes) (x y : ℕ) (k : ℕ)
      → IsByte x
      → IsByte y
      → strip_pads a (length p + 4) (p ++ flush a (two x y)) (r ++ k ∷ []) ≡ some r
  unfolding flush
  strip_pads_two p r x y k hx hy =
      let e : length p + 4 ≡ suc (suc (length p + 2)) = omega arith in
      let e' : suc (length p + 2) ≡ length p + 3 = omega arith in
      rw e (
        strip_pads_pop a _ (suc (length p + 2)) (r ++ k ∷ [])
          (rw (e', get_or-append_right p (flush a (two x y)) 3 0) refl)
        ∙ rw (pop_back-append r k) (
            strip_pads_stop a _ (length p + 2) r (
              rw (get_or-append_right p (flush a (two x y)) 2 0)
                (v.not_pad (sextet2 y 0) (omega (arith, sextet2_lem y 0 hy (omega arith)))))))

  strip_pads_one :
      (p r : Bytes) (x j k : ℕ)
      → IsByte x
      → strip_pads a (length p + 4) (p ++ flush a (one x)) ((r ++ j ∷ []) ++ k ∷ []) ≡ some r
  unfolding flush
  strip_pads_one p r x j k hx =
      let e : length p + 4 ≡ suc (suc (suc (length p + 1))) = omega arith in
      let e2 : suc (length p + 1) ≡ length p + 2 = omega arith in
      let e3 : suc (length p + 2) ≡ length p + 3 = omega arith in
      rw e (
        strip_pads_pop a _ (suc (suc (length p + 1))) ((r ++ j ∷ []) ++ k ∷ [])
          (rw (e2, e3, get_or-append_right p (flush a (one x)) 3 0) refl)
        ∙ rw (pop_back-append (r ++ j ∷ []) k) (
            strip_pads_pop a _ (suc (length p + 1)) (r ++ j ∷ [])
              (rw (e2, get_or-append_right p (flush a (one x)) 2 0) refl)
            ∙ rw (pop_back-append r j) (
                strip_pads_stop a _ (length p + 1) r (
                  rw (get_or-append_right p (flush a (one x)) 1 0)
                    (v.not_pad (sextet1 x 0) (omega (arith, sextet1_lem x 0 hx (omega arith))))))))

  decode_quads-one :
      (x : ℕ)
      → IsByte x
      → decode_quads a (flush a (one x))
        ≡ x ∷ octet1 (sextet1 x 0) (value a a.pad) ∷ octet2 (value a a.pad) (value a a.pad) ∷ []
  unfolding decode_quads flush
  decode_quads-one x hx = rw (
    value_sextet (sextet0 x) (omega (arith, sextet0_lem x hx)),
    value_sextet (sextet1 x 0) (omega (arith, sextet1_lem x 0 hx (omega arith))),
    octet0-sextets x 0 0 hx (omega arith) (omega arith),
  )

  decode_quads-two :
      (x y : ℕ)
      → IsByte x
      → IsByte y
      → decode_quads a (flush a (two x y)) ≡ x ∷ y ∷ octet2 (sextet2 y 0) (value a a.pad) ∷ []
  unfolding decode_quads flush
  decode_quads-two x y hx hy = rw (
    value_sextet (sextet0 x) (omega (arith, sextet0_lem x hx)),
    value_sextet (sextet1 x y) (omega (arith, sextet1_lem x y hx hy)),
    value_sextet (sextet2 y 0) (omega (arith, sextet2_lem y 0 hy (omega arith))),
    octet0-sextets x y 0 hx hy (omega arith),
    octet1-sextets x y 0 hx hy (omega arith),
  )

  encode_full : (x y z : ℕ) (xs : Bytes) → encode a (x ∷ y ∷ z ∷ xs) ≡ quad a x y z ++ encode a xs
  unfolding encode_loop encode
  encode_full x y z xs = refl

  encode-quad : (x y z : ℕ) → encode a (x ∷ y ∷ z ∷ []) ≡ quad a x y z
  unfolding encode
  encode-quad x y z = refl

  encode_one : (x : ℕ) → encode a (x ∷ []) ≡ flush a (one x)
  unfolding encode
  encode_one x = refl

  encode_two : (x y : ℕ) → encode a (x ∷ y ∷ []) ≡ flush a (two x y)
  unfolding encode
  encode_two x y = refl

  length-flush_one : (p : Bytes) (x : ℕ) → length (p ++ flush a (one x)) ≡ length p + 4
  unfolding flush
  length-flush_one p x = length-append p (flush a (one x))

  length-flush_two : (p : Bytes) (x y : ℕ) → length (p ++ flush a (two x y)) ≡ length p + 4
  unfolding flush
  length-flush_two p x y = length-append p (flush a (two x y))

  length-quad : (p : Bytes) (x y z : ℕ) → length (p ++ quad a x y z) ≡ length p + 4
  unfolding quad
  length-quad p x y z = length-append p (quad a x y z)

  decode_quads-quad_nil :
      (x y z : ℕ) → IsByte x → IsByte y → IsByte z → decode_quads a (quad a x y z) ≡ x ∷ y ∷ z ∷ []
  unfolding decode_quads
  decode_quads-quad_nil x y z hx hy hz =
      ap (decode_quads a) (sym (append-nil (quad a x y z))) ∙ decode_quads-quad x y z [] hx hy hz

  -- What is decoded after a text `p` that was read into `r`.
  strip_encode :
      (p r : Bytes) (x : ℕ) (xs : Bytes)
      → All IsByte (x ∷ xs)
      → strip_pads a
          (length (p ++ encode a (x ∷ xs)))
          (p ++ encode a (x ∷ xs))
          (r ++ decode_quads a (encode a (x ∷ xs)))
        ≡ some (r ++ x ∷ xs)
  strip_encode p r x [] h =
      rw (encode_one x, decode_quads-one x h.0, length-flush_one p x, split_last2 r x _ _)
        (strip_pads_one p (r ++ x ∷ []) x _ _ h.0)
  strip_encode p r x (y ∷ []) h =
      rw
        (
          encode_two x y,
          decode_quads-two x y h.0 h.1.0,
          length-flush_two p x y,
          split_last1 r x y _,
        )
        (strip_pads_two p (r ++ x ∷ y ∷ []) x y _ h.0 h.1.0)
  strip_encode p r x (y ∷ z ∷ []) h =
      rw (encode-quad x y z, decode_quads-quad_nil x y z h.0 h.1.0 h.1.1.0, length-quad p x y z)
        (strip_pads_full p (r ++ x ∷ y ∷ z ∷ []) x y z h.1.1.0)
  strip_encode p r x (y ∷ z ∷ w ∷ xs) h =
      rw
        (
          encode_full x y z (w ∷ xs),
          decode_quads-quad x y z (encode a (w ∷ xs)) h.0 h.1.0 h.1.1.0,
          ← append_assoc p (quad a x y z) (encode a (w ∷ xs)),
          split_front r x y z (decode_quads a (encode a (w ∷ xs))),
          split_front r x y z (w ∷ xs),
        )
        (strip_encode (p ++ quad a x y z) (r ++ x ∷ y ∷ z ∷ []) w xs h.1.1.1)

  encode_not_nil : (x : ℕ) (xs : Bytes) → (length (encode a (x ∷ xs)) == 0) ≡ false
  encode_not_nil x [] = rw (encode_one x) (ground (arith, length-flush_one [] x))
  encode_not_nil x (y ∷ []) = rw (encode_two x y) (ground (arith, length-flush_two [] x y))
  encode_not_nil x (y ∷ z ∷ xs) =
      rw (encode_full x y z xs)
        (ground (arith, length-append (quad a x y z) (encode a xs), length-quad [] x y z))

  -- Decoding inverts encoding on every sequence of bytes.
  pub decode-encode : (xs : Bytes) → All IsByte xs → decode a (encode a xs) ≡ some xs
  unfolding decode
  decode-encode [] h = unfold encode in refl
  decode-encode (x ∷ xs) h = rw (encode_not_nil x xs) (strip_encode [] [] x xs h)
