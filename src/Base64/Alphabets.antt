-- ===== src/Base64/Alphabets.antt =====
-- The tables of cbase62 and of the HTTP helpers.
use push1st.Prelude.{
  ℕ, ◌<◌, ◌≡◌, ◌≢◌, refl, Bytes, [], ◌∷◌, ◌++◌, codes, replicate, ◌==◌, arith, not, Option,
}
use push1st.Base64.Codec.{Alphabet, symbol, value, encode, decode}
use push1st.Base64.Bits.{passes, passes_at, by_table}

-- What an alphabet has to satisfy for the codec to be one: the tables are inverse on the 64 values,
-- and no symbol is the padding.
pub record IsAlphabet (a : Alphabet) : Type 0 where
  pub inverse : (v : ℕ) → v < 64 → value a (symbol a v) ≡ v
  pub not_pad : (v : ℕ) → v < 64 → symbol a v ≢ a.pad

-- safebase64TableEncode and safebase64TableDecode; the upper half of the second is all 255.
abbrev pub safe_alphabet : Alphabet
safe_alphabet = record {
  encode_table = codes "ABCDEFGHIJKLMNOPQRSTUVWXYZabcdefghijklmnopqrstuvwxyz0123456789-_";
  decode_table =
      (255 ∷ 255 ∷ 255 ∷ 255 ∷ 255 ∷ 255 ∷ 255 ∷ 255 ∷ 255 ∷ 255 ∷ 255 ∷ 255 ∷ 255 ∷ 255 ∷ 255 ∷ 255
        ∷ 255 ∷ 255 ∷ 255 ∷ 255 ∷ 255 ∷ 255 ∷ 255 ∷ 255 ∷ 255 ∷ 255 ∷ 255 ∷ 255 ∷ 255 ∷ 255 ∷ 255
        ∷ 255 ∷ 255 ∷ 255 ∷ 255 ∷ 255 ∷ 255 ∷ 255 ∷ 255 ∷ 255 ∷ 255 ∷ 255 ∷ 255 ∷ 255 ∷ 255 ∷ 62
        ∷ 255 ∷ 255 ∷ 52 ∷ 53 ∷ 54 ∷ 55 ∷ 56 ∷ 57 ∷ 58 ∷ 59 ∷ 60 ∷ 61 ∷ 255 ∷ 255 ∷ 255 ∷ 254 ∷ 255
        ∷ 255 ∷ 255 ∷ 0 ∷ 1 ∷ 2 ∷ 3 ∷ 4 ∷ 5 ∷ 6 ∷ 7 ∷ 8 ∷ 9 ∷ 10 ∷ 11 ∷ 12 ∷ 13 ∷ 14 ∷ 15 ∷ 16 ∷ 17
        ∷ 18 ∷ 19 ∷ 20 ∷ 21 ∷ 22 ∷ 23 ∷ 24 ∷ 25 ∷ 255 ∷ 255 ∷ 255 ∷ 255 ∷ 63 ∷ 255 ∷ 26 ∷ 27 ∷ 28
        ∷ 29 ∷ 30 ∷ 31 ∷ 32 ∷ 33 ∷ 34 ∷ 35 ∷ 36 ∷ 37 ∷ 38 ∷ 39 ∷ 40 ∷ 41 ∷ 42 ∷ 43 ∷ 44 ∷ 45 ∷ 46
        ∷ 47 ∷ 48 ∷ 49 ∷ 50 ∷ 51 ∷ 255 ∷ 255 ∷ 255 ∷ 255 ∷ 255 ∷ [])
      ++ replicate 128 255;
  pad = b'~';
}

-- base64TableEncode and base64TableDecode.
abbrev pub standard_alphabet : Alphabet
standard_alphabet = record {
  encode_table = codes "ABCDEFGHIJKLMNOPQRSTUVWXYZabcdefghijklmnopqrstuvwxyz0123456789+/";
  decode_table =
      (255 ∷ 255 ∷ 255 ∷ 255 ∷ 255 ∷ 255 ∷ 255 ∷ 255 ∷ 255 ∷ 255 ∷ 255 ∷ 255 ∷ 255 ∷ 255 ∷ 255 ∷ 255
        ∷ 255 ∷ 255 ∷ 255 ∷ 255 ∷ 255 ∷ 255 ∷ 255 ∷ 255 ∷ 255 ∷ 255 ∷ 255 ∷ 255 ∷ 255 ∷ 255 ∷ 255
        ∷ 255 ∷ 255 ∷ 255 ∷ 255 ∷ 255 ∷ 255 ∷ 255 ∷ 255 ∷ 255 ∷ 255 ∷ 255 ∷ 255 ∷ 62 ∷ 255 ∷ 255
        ∷ 255 ∷ 63 ∷ 52 ∷ 53 ∷ 54 ∷ 55 ∷ 56 ∷ 57 ∷ 58 ∷ 59 ∷ 60 ∷ 61 ∷ 255 ∷ 255 ∷ 255 ∷ 254 ∷ 255
        ∷ 255 ∷ 255 ∷ 0 ∷ 1 ∷ 2 ∷ 3 ∷ 4 ∷ 5 ∷ 6 ∷ 7 ∷ 8 ∷ 9 ∷ 10 ∷ 11 ∷ 12 ∷ 13 ∷ 14 ∷ 15 ∷ 16 ∷ 17
        ∷ 18 ∷ 19 ∷ 20 ∷ 21 ∷ 22 ∷ 23 ∷ 24 ∷ 25 ∷ 255 ∷ 255 ∷ 255 ∷ 255 ∷ 255 ∷ 255 ∷ 26 ∷ 27 ∷ 28
        ∷ 29 ∷ 30 ∷ 31 ∷ 32 ∷ 33 ∷ 34 ∷ 35 ∷ 36 ∷ 37 ∷ 38 ∷ 39 ∷ 40 ∷ 41 ∷ 42 ∷ 43 ∷ 44 ∷ 45 ∷ 46
        ∷ 47 ∷ 48 ∷ 49 ∷ 50 ∷ 51 ∷ 255 ∷ 255 ∷ 255 ∷ 255 ∷ 255 ∷ [])
      ++ replicate 128 255;
  pad = b'=';
}

pub safe_alphabet-IsAlphabet : IsAlphabet safe_alphabet
unfolding symbol value passes
safe_alphabet-IsAlphabet = record {
  inverse =
      λ v h. by_table 64 (λ k. value safe_alphabet (symbol safe_alphabet k)) (λ k. k) v refl h;
  not_pad = λ v h e.
      ground
        (arith, passes_at (λ k. not (symbol safe_alphabet k == safe_alphabet.pad)) 64 v h refl);
}

pub standard_alphabet-IsAlphabet : IsAlphabet standard_alphabet
unfolding symbol value passes
standard_alphabet-IsAlphabet = record {
  inverse = λ v h.
      by_table 64 (λ k. value standard_alphabet (symbol standard_alphabet k)) (λ k. k) v refl h;
  not_pad = λ v h e. ground (
    arith,
    passes_at (λ k. not (symbol standard_alphabet k == standard_alphabet.pad)) 64 v h refl,
  );
}

-- cbase62::Encode and cbase62::Decode.
unfoldable pub encode62 : Bytes → Bytes
unfolding encode
encode62 = encode safe_alphabet

unfoldable pub decode62 : Bytes → Option Bytes
unfolding decode
decode62 = decode safe_alphabet

-- ToBase64 and FromBase64.
unfoldable pub to_base64 : Bytes → Bytes
unfolding encode
to_base64 = encode standard_alphabet

unfoldable pub from_base64 : Bytes → Option Bytes
unfolding decode
from_base64 = decode standard_alphabet
