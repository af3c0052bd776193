-- ===== src/ApiServer/Tokens.antt =====
-- ApiOnToken: the tokens that an application's server asks for, and what accepts them.
use push1st.Prelude.{
  ◌≡◌, ◌≢◌, ◌>>=◌, codes, bytes_eq, if◌then◌else◌, Option, Bytes, List, refl, [], ◌∷◌, none, some,
  true, ℕ, ◌++◌, Without,
}
use push1st.Credentials.App.{Crypto}
use push1st.Credentials.Session.{
  signed_text, session_token, validate_session, IsDigest, validate_session-session_token,
}
use push1st.Credentials.Bearer.{access_token}
use push1st.ApiServer.Events.{Client, get_app_by_id}

-- The fields of a request, `none` where they are no texts: "data" may be absent, and "ttl" is 0
-- where it is no number.
pub record SessionRequest : Type 0 where
  pub session : Option Bytes
  pub channel : Option Bytes
  pub custom : Option (Option Bytes)

pub record AccessRequest : Type 0 where
  pub origin : Option Bytes
  pub channel : Option Bytes
  pub ttl : ℕ

-- cjson::Unserialize with the tests for the fields that are asked for.
pub record TokenReader : Type 0 where
  pub session_request : Bytes → Option SessionRequest
  pub access_request : Bytes → Option AccessRequest

-- A response with its code and body, an exception, or no response at all.
pub data Response : Type 0 where
  response : Bytes → Bytes → Response
  exception no_response : Response

-- A token that needs a conversion that throws.
unfoldable pub respond : Option Bytes → Response
respond none = exception
respond (some token) = response (codes "200") token

unfoldable pub custom_data : Option (Option Bytes) → Option Bytes
custom_data none = some []
custom_data (some d) = d

unfoldable pub answer_session : Crypto → Client → SessionRequest → Response
answer_session k app r = respond (
    r.session >>= (λ session. r.channel >>= (λ channel.
      custom_data r.custom
      >>= (λ custom. some (session_token k app.secret session channel custom)))))

-- The numbers are those of std::rand and the time.
unfoldable pub answer_access : Crypto → ℕ → ℕ → Client → AccessRequest → Response
answer_access k rand now app r = respond (
    r.origin >>= (λ origin.
      r.channel >>= (λ channel. some (access_token k app.secret rand now origin channel r.ttl))))

unfoldable pub answer_token : Crypto → TokenReader → ℕ → ℕ → Client → Bytes → Bytes → Response
answer_token k reader rand now app kind body =
    if bytes_eq kind (codes "session")
    then elim (reader.session_request body) [
      | none ↦ response (codes "400") []
      | some r ↦ answer_session k app r
    ]
    else if bytes_eq kind (codes "access")
    then elim (reader.access_request body) [
      | none ↦ response (codes "400") []
      | some r ↦ answer_access k rand now app r
    ]
    else no_response

unfoldable pub api_on_token :
    Crypto → TokenReader → ℕ → ℕ → List (Bytes × Client) → Bytes → Bytes → Bytes → Bytes → Response
api_on_token k reader rand now apps id kind method body =
    if bytes_eq method (codes "POST")
    then elim (get_app_by_id id apps) [
      | none ↦ response (codes "403") []
      | some app ↦ answer_token k reader rand now app kind body
    ]
    else response (codes "400") []

-- A POST for a session token of an enabled application whose body gives texts for session, channel
-- and data (none is the empty text) is answered by 200 and a token that the server accepts for this
-- session, channel and data, alone and behind an application key and a colon, unless HMAC fails.
pub validate_session-api_on_token :
    (k : Crypto) (reader : TokenReader) (rand now : ℕ) (apps : List (Bytes × Client))
    (id body session channel custom key : Bytes) (app : Client) (r : SessionRequest)
    → get_app_by_id id apps ≡ some app
    → reader.session_request body ≡ some r
    → r.session ≡ some session
    → r.channel ≡ some channel
    → custom_data r.custom ≡ some custom
    → IsDigest (k.hmac app.secret (signed_text session channel custom))
    → Without b':' key
    → k.hmac app.secret (signed_text session channel custom) ≢ none
    → (token : Bytes) × (api_on_token k reader rand now apps id
          (codes "session")
          (codes "POST")
          body
        ≡ response (codes "200") token)
      × (validate_session k app.secret token session channel custom ≡ true)
      × (validate_session k app.secret (key ++ b':' ∷ token) session channel custom ≡ true)
unfolding api_on_token answer_token answer_session respond bytes_eq
validate_session-api_on_token k reader rand now apps id body session channel custom key app r e₁ e₂
      e₃ e₄ e₅ digest hk works =
    let (alone, behind) =
      validate_session-session_token k app.secret session channel custom digest key hk works in
    (
      session_token k app.secret session channel custom,
      rw (e₁, api_on_token) (rw (e₂, answer_token) (rw (e₃, answer_session) (rw (e₄, e₅) refl))),
      alone,
      behind,
    )
