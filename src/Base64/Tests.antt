-- ===== src/Base64/Tests.antt =====
-- Runs of the codecs, and the theorems at concrete inputs.
use push1st.Prelude.{◌≡◌, refl, [], ◌∷◌, none, some, arith, codes}
use push1st.Base64.Alphabets.{encode62, decode62, to_base64, from_base64}
use push1st.Base64.Inverse.{decode62-encode62}

encodes : to_base64 (codes "push1st") ≡ codes "cHVzaDFzdA=="
unfolding to_base64
encodes = refl

encodes_safe : encode62 (251 ∷ 255 ∷ []) ≡ codes "-_8~"
unfolding encode62
encodes_safe = refl

decodes_partial : decode62 (codes "cHVzaA~") ≡ some (codes "pu")
unfolding decode62
decodes_partial = refl

decodes_short : decode62 (codes "~") ≡ none
unfolding decode62
decodes_short = refl

decode62-encode62_example :
    (decode62 (encode62 (codes "ab")) ≡ some (codes "ab"))
    × (from_base64 (to_base64 (codes "ab")) ≡ some (codes "ab"))
decode62-encode62_example = decode62-encode62 (codes "ab") (omega arith)
