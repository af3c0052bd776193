-- ===== src/Credentials/Access.antt =====
-- The text inside an access token: what AccessToken puts there, and ValidateAccessToken.
use push1st.Prelude.{
  split_at, Without, split_at-append, split_at-Without, refl, [], ◌∷◌, none, some, inl, true, false,
  bytes_eq_iff, ◌≢◌, ◌&&◌, leb, ◌>>=◌, ◌||◌, ◌↔◌, ◌^◌, All-append, ◌≤◌, if◌then◌else◌, arith, codes,
  ◌<◌, ◌⊎◌, List, ◌==◌, Option, ◌++◌, bytes_eq, ◌≡◌, Bytes, Bool, ℕ, zero, suc,
}
use push1st.Credentials.Decimal.{
  Long, positive, negative, decimal, stol, stol-decimal, decimal-Digits, Digits, is_digit,
}

-- `s.empty() ? "*" : s`
unfoldable pub or_star : Bytes → Bytes
or_star [] = codes "*"
or_star (c ∷ cs) = c ∷ cs

-- The token before its encryption, with the number of std::rand.
unfoldable pub access_text : ℕ → Bytes → Bytes → ℕ → Bytes
access_text rand origin channel expire =
    (codes "token-" ++ decimal rand)
    ++ b':' ∷ (or_star origin ++ b':' ∷ (or_star channel ++ b':' ∷ decimal expire))

-- The loop over `args`, n of which are to be filled; `none` where a colon is missing.
unfoldable pub split_args : ℕ → Bytes → Option (List Bytes)
split_args zero token = some []
split_args (suc n) token = elim (split_at b':' token) [
  | none ↦ if n == 0 then some (token ∷ []) else none
  | some (a, rest) ↦ split_args n rest >>= (λ rest_args. some (a ∷ rest_args))
]

-- `!expire or expire >= std::time(nullptr)`
unfoldable pub is_live : ℕ → Long → Bool
is_live now (positive e) = (e == 0) || leb now e
is_live now (negative e) = e == 0

unfoldable pub matches : Bytes → Bytes → Bool
matches asked arg = bytes_eq arg (codes "*") || bytes_eq asked arg

unfoldable pub check_args : ℕ → Bytes → Bytes → List Bytes → Bool
check_args now origin channel (id ∷ o ∷ c ∷ e ∷ []) = elim (stol e) [
  | none ↦ false
  | some t ↦ matches origin o && (matches channel c && is_live now t)
]
check_args now origin channel _ = false

-- ValidateAccessToken
unfoldable pub validate_access_token : ℕ → Bytes → Bytes → Bytes → Bool
validate_access_token now token origin channel = elim (split_args 4 token) [
  | none ↦ false
  | some args ↦ check_args now origin channel args
]

-- What a token was issued for: an empty name and a star stand for every one.
abbrev pub Covers : Bytes → Bytes → Type 0
Covers issued asked = (issued ≡ []) ⊎ ((issued ≡ codes "*") ⊎ (asked ≡ issued))

-- A token with expiry 0 does not expire.
abbrev pub IsLive : ℕ → ℕ → Type 0
IsLive now expire = (expire ≡ 0) ⊎ (now ≤ expire)

split_args-last : (s : Bytes) → Without b':' s → split_args 1 s ≡ some (s ∷ [])
unfolding split_args
split_args-last s h = rw (split_at-Without b':' s h, split_args) refl

split_args-next :
    (n : ℕ) (a rest : Bytes)
    → Without b':' a
    → split_args (suc n) (a ++ b':' ∷ rest)
      ≡ (split_args n rest >>= (λ rest_args. some (a ∷ rest_args)))
unfolding split_args
split_args-next n a rest h = rw (split_at-append b':' a rest h, split_args) refl

Digits-Without : (s : Bytes) → Digits s → Without b':' s
unfolding is_digit
Digits-Without [] h = tt
Digits-Without (c ∷ s) h = (ground (arith, h.0), Digits-Without s h.1)

or_star-Without : (s : Bytes) → Without b':' s → Without b':' (or_star s)
unfolding or_star
or_star-Without [] h = (ground arith, tt)
or_star-Without (c ∷ s) h = h

split_args-access_text :
    (rand expire : ℕ) (origin channel : Bytes)
    → Without b':' origin
    → Without b':' channel
    → split_args 4 (access_text rand origin channel expire)
      ≡ some (
          (codes "token-" ++ decimal rand) ∷ or_star origin ∷ or_star channel ∷ decimal expire ∷ [])
unfolding access_text
split_args-access_text rand expire origin channel ho hc =
    let id : Without b':' (codes "token-" ++ decimal rand) =
      All-append (λ c. c ≢ b':') (codes "token-") (decimal rand) (ground arith)
        (Digits-Without (decimal rand) (decimal-Digits rand)) in
    rw
      (
        split_args-next 3 (codes "token-" ++ decimal rand) _ id,
        split_args-next 2 (or_star origin) (or_star channel ++ b':' ∷ decimal expire)
            (or_star-Without origin ho),
        split_args-next 1 (or_star channel) (decimal expire) (or_star-Without channel hc),
        split_args-last (decimal expire) (Digits-Without (decimal expire) (decimal-Digits expire)),
      )
      refl

matches-or_star_iff :
    (asked issued : Bytes) → (matches asked (or_star issued) ≡ true) ↔ Covers issued asked
unfolding matches or_star bytes_eq
matches-or_star_iff asked [] = (λ e. inl refl, λ c. refl)
matches-or_star_iff asked (c ∷ cs) =
    ground (arith, bytes_eq_iff (c ∷ cs) (codes "*"), bytes_eq_iff asked (c ∷ cs))

is_live_iff : (now e : ℕ) → (is_live now (positive e) ≡ true) ↔ IsLive now e
unfolding is_live
is_live_iff now e = ground arith

and_iff :
    (a b : Bool) {A B : Type 0} → ((a ≡ true) ↔ A) → ((b ≡ true) ↔ B) → ((a && b) ≡ true) ↔ (A × B)
and_iff true b f g = (λ e. (f.0 refl, g.0 e), λ w. g.1 w.1)
and_iff false b f g = (λ e. absurd (cc), λ w. f.1 w.0)

-- The text of a token that was issued for an origin and a channel without colons is valid exactly
-- for the origins and channels it covers, until it expires.
pub validate_access_token-access_text_iff :
    (rand expire now : ℕ) (origin channel asked_origin asked_channel : Bytes)
    → Without b':' origin
    → Without b':' channel
    → expire < 2 ^ 63
    → (validate_access_token now (access_text rand origin channel expire) asked_origin asked_channel
        ≡ true)
      ↔ (Covers origin asked_origin × (Covers channel asked_channel × IsLive now expire))
unfolding validate_access_token check_args
validate_access_token-access_text_iff rand expire now origin channel asked_origin asked_channel ho
      hc he =
    rw
      (
        split_args-access_text rand expire origin channel ho hc,
        validate_access_token,
        stol-decimal expire he,
        check_args,
      )
      (and_iff _ _ (matches-or_star_iff asked_origin origin)
        (and_iff _ _ (matches-or_star_iff asked_channel channel) (is_live_iff now expire)))
