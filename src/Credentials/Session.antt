-- ===== src/Credentials/Session.antt =====
-- The session tokens of the Pusher protocol: SessionToken and ValidateSession.
use push1st.Prelude.{
  split_at, Without, split_at-append, split_at-Without, leb→le, Bool-cases, ◌↔◌, ℕ, zero, suc, ◌*◌,
  ◌/◌, ◌%◌, ◌<◌, ◌≤◌, ◌≡◌, ◌≢◌, refl, Bool, true, false, ◌&&◌, [], ◌∷◌, ◌++◌, Option, none, some,
  arith, Bytes, IsByte, All, codes, length, leb, ◌==◌, if◌then◌else◌, ◌>>=◌, Option-cases, not, inl,
  inr,
}
use push1st.Credentials.Text.{nibble, hex_pair, hex_digit, is_blank, trim, NoBlank, trim_lem}
use push1st.Base64.Bits.{passes, passes_at}
use push1st.Credentials.App.{Crypto}

-- `session + ":" + channel + (custom_data.empty() ? "" : ":") + custom_data`
unfoldable pub signed_text : Bytes → Bytes → Bytes → Bytes
signed_text session channel [] = session ++ (codes ":" ++ channel)
signed_text session channel (c ∷ cs) = session ++ (codes ":" ++ (channel ++ (codes ":" ++ c ∷ cs)))

unfoldable pub hex_text : Bytes → Bytes
hex_text [] = []
hex_text (b ∷ bs) = hex_digit (b / 16) ∷ hex_digit (b % 16) ∷ hex_text bs

-- SessionToken: empty where HMAC fails.
unfoldable pub session_token : Crypto → Bytes → Bytes → Bytes → Bytes → Bytes
session_token k secret session channel custom =
    elim (k.hmac secret (signed_text session channel custom)) [ none ↦ [] | some d ↦ hex_text d ]

-- The loop over the digest; the characters after it are not looked at.
unfoldable pub matches_digest : Bytes → Bytes → Bool
matches_digest [] token = true
matches_digest (d ∷ ds) (h ∷ l ∷ token) = (hex_pair h l == d) && matches_digest ds token
matches_digest (d ∷ ds) _ = false

-- The text after the first colon, if there is one.
unfoldable pub after_colon : Bytes → Bytes
after_colon token = elim (split_at b':' token) [ none ↦ token | some (a, b) ↦ b ]

-- ValidateSession
unfoldable pub validate_session : Crypto → Bytes → Bytes → Bytes → Bytes → Bytes → Bool
validate_session k secret token session channel custom =
    let sent = trim (after_colon token) in
    if leb 64 (length sent)
    then elim (k.hmac secret (signed_text session channel custom)) [
      | none ↦ false
      | some d ↦ matches_digest d sent
    ]
    else false

-- A digit that is printed reads as its value, and is neither a colon nor a blank.
digit_reads : ℕ → Bool
digit_reads v = elim (nibble (hex_digit v)) [
  | none ↦ false
  | some x ↦ (x == v) && (not (hex_digit v == b':') && not (is_blank (hex_digit v)))
]

digit_table : passes digit_reads 16 ≡ true
unfolding passes digit_reads nibble hex_digit is_blank
digit_table = refl

digit_facts :
    (v : ℕ)
    → v < 16
    → (nibble (hex_digit v) ≡ some v) × (hex_digit v ≢ b':') × (is_blank (hex_digit v) ≡ false)
unfolding digit_reads
digit_facts v h =
    let t : digit_reads v ≡ true = passes_at digit_reads 16 v h digit_table in
    (ground arith, ground arith, ground arith)

hex_pair-digits : (b : ℕ) → IsByte b → hex_pair (hex_digit (b / 16)) (hex_digit (b % 16)) ≡ b
unfolding hex_pair
hex_pair-digits b h =
    rw ((digit_facts (b / 16) (omega arith)).0, hex_pair)
      (rw ((digit_facts (b % 16) (omega arith)).0, hex_pair) (omega arith))

length-hex_text : (d : Bytes) → length (hex_text d) ≡ 2 * length d
unfolding hex_text
length-hex_text [] = refl
length-hex_text (b ∷ bs) = omega (arith, length-hex_text bs)

hex_text-facts : (d : Bytes) → All IsByte d → Without b':' (hex_text d) × NoBlank (hex_text d)
unfolding hex_text
hex_text-facts [] h = (tt, tt)
hex_text-facts (b ∷ bs) h =
    let (_, c₁, n₁) = digit_facts (b / 16) (omega (arith, h.0)) in
    let (_, c₂, n₂) = digit_facts (b % 16) (omega arith) in
    let (c, n) = hex_text-facts bs h.1 in ((c₁, (c₂, c)), (n₁, (n₂, n)))

matches_digest-hex_text : (d : Bytes) → All IsByte d → matches_digest d (hex_text d) ≡ true
unfolding matches_digest hex_text
matches_digest-hex_text [] h = refl
matches_digest-hex_text (b ∷ bs) h =
    ground (arith, hex_pair-digits b h.0, matches_digest-hex_text bs h.1)

-- The digest that the first pairs of a text stand for.
unfoldable pub pairs : ℕ → Bytes → Option Bytes
pairs zero t = some []
pairs (suc n) (h ∷ l ∷ t) = pairs n t >>= (λ ds. some (hex_pair h l ∷ ds))
pairs (suc n) _ = none

matches_digest_iff : (d t : Bytes) → (matches_digest d t ≡ true) ↔ (pairs (length d) t ≡ some d)
unfolding matches_digest pairs
matches_digest_iff [] t = (λ e. refl, λ e. refl)
matches_digest_iff (b ∷ d) [] = (λ e. cc, λ e. cc)
matches_digest_iff (b ∷ d) (h ∷ []) = (λ e. cc, λ e. cc)
matches_digest_iff (b ∷ d) (h ∷ l ∷ t) = ground (arith, matches_digest_iff d t)

-- What HMAC-SHA256 gives: 32 bytes, or an error.
abbrev pub IsDigest : Option Bytes → Type 0
IsDigest none = Unit
IsDigest (some d) = (length d ≡ 32) × All IsByte d

module _ (k : Crypto) (secret session channel custom : Bytes)
    (digest : IsDigest (k.hmac secret (signed_text session channel custom))) where
  accepts :
      (token d : Bytes)
      → k.hmac secret (signed_text session channel custom) ≡ some d
      → trim (after_colon token) ≡ hex_text d
      → validate_session k secret token session channel custom ≡ true
  unfolding validate_session
  accepts token d e sent =
      let (l, bytes) : IsDigest (some d) = rw e at digest in
      ground (arith, length-hex_text d, matches_digest-hex_text d bytes)

  sent_bare : (d : Bytes) → All IsByte d → trim (after_colon (hex_text d)) ≡ hex_text d
  unfolding after_colon
  sent_bare d h =
      let (c, n) = hex_text-facts d h in
      rw (split_at-Without b':' (hex_text d) c, after_colon) (trim_lem (hex_text d) n)

  sent_with_key :
      (key d : Bytes)
      → Without b':' key
      → All IsByte d
      → trim (after_colon (key ++ b':' ∷ hex_text d)) ≡ hex_text d
  unfolding after_colon
  sent_with_key key d hk h =
      rw (split_at-append b':' key (hex_text d) hk, after_colon)
        (trim_lem (hex_text d) (hex_text-facts d h).1)

  -- The token that the server signs is accepted for the same session, channel and data, alone and
  -- behind an application key and a colon, unless HMAC fails.
  pub validate_session-session_token :
      (key : Bytes)
      → Without b':' key
      → k.hmac secret (signed_text session channel custom) ≢ none
      → let token = session_token k secret session channel custom in
        (validate_session k secret token session channel custom ≡ true)
        × (validate_session k secret (key ++ b':' ∷ token) session channel custom ≡ true)
  unfolding session_token
  validate_session-session_token key hk works =
      elim (Option-cases (k.hmac secret (signed_text session channel custom))) [
        | inl e ↦ absurd (works e)
        | inr (d, e) ↦
            let (_, bytes) : IsDigest (some d) = rw e at digest in
            rw (e, session_token)
              (
                accepts (hex_text d) d e (sent_bare d bytes),
                accepts (key ++ b':' ∷ hex_text d) d e (sent_with_key key d hk bytes),
              )
      ]

  -- A token is accepted exactly if, after its application key and its outer blanks, at least 64
  -- characters are left and the first 32 pairs stand for the digest; a pair with a character that is
  -- no digit stands for zero, and what follows the pairs is ignored.
  pub validate_session_iff :
      (token d : Bytes)
      → k.hmac secret (signed_text session channel custom) ≡ some d
      → (validate_session k secret token session channel custom ≡ true) ↔ (
          (64 ≤ length (trim (after_colon token))) × (pairs 32 (trim (after_colon token)) ≡ some d))
  unfolding validate_session
  validate_session_iff token d e =
      let (l, _) : IsDigest (some d) = rw e at digest in
      let sent = trim (after_colon token) in
      let iff : (matches_digest d sent ≡ true) ↔ (pairs 32 sent ≡ some d) =
        rw l at (matches_digest_iff d sent) in
      elim (Bool-cases (leb 64 (length sent))) [
        | inl long ↦
            rw (long, validate_session)
              (rw (e, validate_session)
                (λ v. (leb→le 64 (length sent) long, iff.0 v), λ w. iff.1 (w.1)))
        | inr short ↦
            rw (short, validate_session) (λ v. absurd (cc), λ w. absurd (ground (arith, w.0)))
      ]
