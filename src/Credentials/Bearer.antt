-- ===== src/Credentials/Bearer.antt =====
-- AccessToken and ValidateToken: an access token is encrypted, and written in base 62.
use push1st.Prelude.{
  Without, ◌⊎◌, ap, ◌↔◌, ◌<◌, IsByte, All, starts_with, Bool-cases, refl, [], ◌∷◌, none, some, inl,
  inr, true, false, drop, take, map, ◌^◌, bytes_eq, ◌%◌, Bool, ◌++◌, ◌+◌, length, ◌&&◌, ◌==◌, leb,
  codes, Option, Bytes, arith, get_or, if◌then◌else◌, ◌≡◌, ℕ, zero, suc,
}
use push1st.Base64.Codec.{Pending, encode_loop, quad, flush, symbol, encode, empty, one, two}
use push1st.Base64.Alphabets.{safe_alphabet, encode62, decode62}
use push1st.Base64.Inverse.{decode62-encode62}
use push1st.Credentials.App.{Crypto}
use push1st.Credentials.Text.{is_blank, trim, trim_lem, NoBlank}
use push1st.Credentials.Access.{
  access_text, validate_access_token, validate_access_token-access_text_iff, Covers, IsLive,
}

-- The key of both functions is HMAC(secret, access_key_iv), and the text is encrypted under it with
-- access_key_iv as the initialisation vector.
abbrev pub access_key_iv : Bytes
access_key_iv = codes "x[wFD(u}+f-oajsj>1gb~0SQ3oa^q`!`BhN,Gx8&-a1@uk@H^B=WI14:*W1<Qh}%"

-- `!ttl ? 0 : time + ttl`, in 64 bits.
unfoldable pub expiry : ℕ → ℕ → ℕ
expiry now ttl = if ttl == 0 then 0 else (now + ttl) % 2 ^ 64

-- AccessToken, with the number of std::rand and the time; empty where OpenSSL fails.
unfoldable pub access_token : Crypto → Bytes → ℕ → ℕ → Bytes → Bytes → ℕ → Bytes
access_token k secret rand now origin channel ttl = elim (k.hmac secret access_key_iv) [
  | none ↦ []
  | some key ↦
      elim (k.evp_encrypt key access_key_iv (access_text rand origin channel (expiry now ttl))) [
        | none ↦ []
        | some cipher ↦ encode62 cipher
      ]
]

unfoldable pub lower : ℕ → ℕ
lower c = if leb b'A' c && leb c b'Z' then c + 32 else c

-- `strncasecmp(token, "Bearer ", 7) == 0` of a token of 7 characters at least, and remove_prefix.
unfoldable pub strip_bearer : Bytes → Bytes
strip_bearer token =
    if leb 7 (length token) && bytes_eq (map lower (take 7 token)) (codes "bearer ")
    then drop 7 token
    else token

-- ValidateToken; `none` where Decode's behaviour is undefined.
unfoldable pub validate_token : Crypto → Bytes → ℕ → Bytes → Bytes → Bytes → Option Bool
validate_token k secret now token channel origin = elim (k.hmac secret access_key_iv) [
  | none ↦ some false
  | some key ↦ elim (decode62 (trim (strip_bearer token))) [
    | none ↦ none
    | some cipher ↦ elim (k.evp_decrypt key access_key_iv cipher) [
      | none ↦ some false
      | some text ↦
          some (starts_with (codes "token-") text && validate_access_token now text origin channel)
    ]
  ]
]

abbrev NotBlank : ℕ → Type 0
NotBlank c = is_blank c ≡ false

get_or_All : (xs : Bytes) (n : ℕ) → NoBlank xs → NotBlank (get_or xs n 0)
unfolding is_blank
get_or_All [] n h = refl
get_or_All (x ∷ xs) zero h = h.0
get_or_All (x ∷ xs) (suc n) h = get_or_All xs n h.1

table_NoBlank : NoBlank safe_alphabet.encode_table
unfolding is_blank
table_NoBlank = ground arith

symbol-NotBlank : (v : ℕ) → NotBlank (symbol safe_alphabet v)
unfolding symbol
symbol-NotBlank v = get_or_All safe_alphabet.encode_table v table_NoBlank

encode_loop-NoBlank : (p : Pending) (xs : Bytes) → NoBlank (encode_loop safe_alphabet p xs)
unfolding encode_loop quad flush
encode_loop-NoBlank empty [] = tt
encode_loop-NoBlank (one x) [] = (
  symbol-NotBlank _,
  (symbol-NotBlank _, (unfold is_blank in refl, (unfold is_blank in refl, tt))),
)
encode_loop-NoBlank (two x y) [] =
    (symbol-NotBlank _, (symbol-NotBlank _, (symbol-NotBlank _, (unfold is_blank in refl, tt))))
encode_loop-NoBlank empty (x ∷ xs) = encode_loop-NoBlank (one x) xs
encode_loop-NoBlank (one x) (y ∷ xs) = encode_loop-NoBlank (two x y) xs
encode_loop-NoBlank (two x y) (z ∷ xs) = (
  symbol-NotBlank _,
  (symbol-NotBlank _, (symbol-NotBlank _, (symbol-NotBlank _, encode_loop-NoBlank empty xs))),
)

encode62-NoBlank : (xs : Bytes) → NoBlank (encode62 xs)
unfolding encode62 encode
encode62-NoBlank xs = encode_loop-NoBlank empty xs

-- A text without blanks starts with no text that has one.
lower_blank : (c : ℕ) → NotBlank c → (lower c == b' ') ≡ false
unfolding lower is_blank
lower_blank c h = ground arith

NoBlank-lower :
    (n : ℕ) (s t u : Bytes) → NoBlank s → bytes_eq (map lower (take n s)) (t ++ b' ' ∷ u) ≡ false
unfolding bytes_eq
NoBlank-lower zero s [] u h = refl
NoBlank-lower zero s (x ∷ t) u h = refl
NoBlank-lower (suc n) [] [] u h = refl
NoBlank-lower (suc n) [] (x ∷ t) u h = refl
NoBlank-lower (suc n) (c ∷ s) [] u h = rw (lower_blank c h.0) refl
NoBlank-lower (suc n) (c ∷ s) (x ∷ t) u h = ground (arith, NoBlank-lower n s t u h.1)

bare_token : (s : Bytes) → NoBlank s → strip_bearer s ≡ s
unfolding strip_bearer
bare_token s h = elim (Bool-cases (leb 7 (length s))) [
  | inl long ↦
      rw (long, strip_bearer) (rw (NoBlank-lower 7 s (codes "bearer") [] h, strip_bearer) refl)
  | inr short ↦ rw (short, strip_bearer) refl
]

bearer_token : (s : Bytes) → strip_bearer (codes "Bearer " ++ s) ≡ s
unfolding strip_bearer lower bytes_eq
bearer_token s =
    let long : leb 7 (length (codes "Bearer " ++ s)) ≡ true = ground arith in
    rw (long, strip_bearer) refl

-- A text as it is sent: alone, or as the value of an Authorization header.
abbrev pub IsSentAs : Bytes → Bytes → Type 0
IsSentAs t sent = (sent ≡ t) ⊎ (sent ≡ codes "Bearer " ++ t)

sent_text : (t sent : Bytes) → NoBlank t → IsSentAs t sent → trim (strip_bearer sent) ≡ t
sent_text t sent h (inl e) = rw e (rw (bare_token t h) (trim_lem t h))
sent_text t sent h (inr e) = rw e (rw (bearer_token t) (trim_lem t h))

some_iff : (b : Bool) → (some b ≡ some true) ↔ (b ≡ true)
some_iff b = (λ e. cc, λ e. cc)

module _ (k : Crypto) (secret key cipher : Bytes) (rand now ttl : ℕ) (origin channel : Bytes)
    (keyed : k.hmac secret access_key_iv ≡ some key)
    (encrypted : k.evp_encrypt key access_key_iv (access_text rand origin channel (expiry now ttl))
      ≡ some cipher)
    (bytes : All IsByte cipher)
    (inverse : (text c : Bytes)
      → k.evp_encrypt key access_key_iv text ≡ some c
      → k.evp_decrypt key access_key_iv c ≡ some text) where
  access_token-eq : access_token k secret rand now origin channel ttl ≡ encode62 cipher
  unfolding access_token
  access_token-eq = rw (keyed, access_token) (rw (encrypted, access_token) refl)

  begins : starts_with (codes "token-") (access_text rand origin channel (expiry now ttl)) ≡ true
  unfolding starts_with access_text
  begins = refl

  validate_token-eq :
      (later : ℕ) (asked_origin asked_channel sent : Bytes)
      → IsSentAs (encode62 cipher) sent
      → validate_token k secret later sent asked_channel asked_origin
        ≡ some (
            validate_access_token later
              (access_text rand origin channel (expiry now ttl))
              asked_origin
              asked_channel)
  unfolding validate_token
  validate_token-eq later asked_origin asked_channel sent w =
      rw
        (
          keyed,
          validate_token,
          sent_text (encode62 cipher) sent (encode62-NoBlank cipher) w,
          (decode62-encode62 cipher bytes).0,
          inverse _ cipher encrypted,
          begins,
        )
        refl

  -- Where OpenSSL works and decryption inverts encryption, the token that is issued for an origin
  -- and a channel without colons is accepted, alone and after "Bearer ", exactly for the origins and
  -- channels it covers, until it expires.
  pub validate_token-access_token_iff :
      Without b':' origin
      → Without b':' channel
      → expiry now ttl < 2 ^ 63
      → (later : ℕ) (asked_origin asked_channel sent : Bytes)
      → IsSentAs (access_token k secret rand now origin channel ttl) sent
      → (validate_token k secret later sent asked_channel asked_origin ≡ some true) ↔ (
          Covers origin asked_origin
          × (Covers channel asked_channel × IsLive later (expiry now ttl)))
  validate_token-access_token_iff ho hc he later asked_origin asked_channel sent w =
      let e = validate_token-eq later asked_origin asked_channel sent (rw access_token-eq at w) in
      let (f, g) =
        validate_access_token-access_text_iff rand (expiry now ttl) later origin channel
          asked_origin asked_channel ho hc he in
      rw e (λ v. f ((some_iff _).0 v), λ v. ap (λ (b : Bool). some b) (g v))
