-- ===== src/Base64/Inverse.antt =====
-- The codecs of the program are inverse pairs.
use push1st.Prelude.{◌≡◌, some, Bytes, IsByte, All}
use push1st.Base64.RoundTrip.{decode-encode}
use push1st.Base64.Alphabets.{
  safe_alphabet, safe_alphabet-IsAlphabet, standard_alphabet, standard_alphabet-IsAlphabet,
  encode62, decode62, to_base64, from_base64,
}

-- Each of the two codecs decodes every encoding of a sequence of bytes to that sequence, with no
-- `pop_back` of an empty result on the way.
pub decode62-encode62 :
    (xs : Bytes)
    → All IsByte xs
    → (decode62 (encode62 xs) ≡ some xs) × (from_base64 (to_base64 xs) ≡ some xs)
unfolding decode62 encode62 to_base64 from_base64
decode62-encode62 xs h = (
  decode-encode safe_alphabet safe_alphabet-IsAlphabet xs h,
  decode-encode standard_alphabet standard_alphabet-IsAlphabet xs h,
)
