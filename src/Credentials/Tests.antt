-- ===== src/Credentials/Tests.antt =====
-- Tokens at concrete inputs.
use push1st.Prelude.{
  split_at, IsByte, All, sym, ◌↔◌, arith, ◌++◌, ◌≡◌, replicate, refl, [], some, inr, true, false,
  codes,
}
use push1st.Credentials.App.{Crypto}
use push1st.Credentials.Access.{
  split_args, check_args, or_star, access_text, validate_access_token, Covers, IsLive,
}
use push1st.Credentials.Decimal.{decimal, decimal_fuel, stol, is_space, stol_digits, is_digit}
use push1st.Credentials.Bearer.{
  validate_token, access_token, validate_token-access_token_iff, expiry,
}

-- A digest of 32 equal bytes, and a cipher that leaves the text as it is.
abbrev toy : Crypto
toy = record {
  hmac = λ key text. some (replicate 32 171);
  evp_encrypt = λ key iv text. some text;
  evp_decrypt = λ key iv cipher. some cipher;
}

cipher_bytes : All IsByte (access_text 7 (codes "a") [] (expiry 3 0))
unfolding access_text or_star decimal decimal_fuel expiry
cipher_bytes = ground arith

validate_token-access_token_iff_example :
    (validate_token toy
        (codes "s")
        5
        (codes "Bearer " ++ access_token toy (codes "s") 7 3 (codes "a") [] 0)
        (codes "news")
        (codes "a")
      ≡ some true)
    ↔ (Covers (codes "a") (codes "a") × (Covers [] (codes "news") × IsLive 5 (expiry 3 0)))
unfolding expiry
validate_token-access_token_iff_example =
    validate_token-access_token_iff toy (codes "s") (replicate 32 171)
      (access_text 7 (codes "a") [] (expiry 3 0)) 7 3 0 (codes "a") [] refl refl cipher_bytes
      (λ text c e. sym e) (ground arith) tt (omega arith) 5 (codes "a") (codes "news") _ (inr refl)

-- An origin of a browser holds a colon: the token that is issued for it is refused.
refused :
    validate_access_token 5
      (access_text 7 (codes "https://a.b") [] 0)
      (codes "https://a.b")
      (codes "news")
    ≡ false
unfolding validate_access_token access_text split_args split_at decimal decimal_fuel or_star
    check_args stol is_space stol_digits is_digit
refused = refl
