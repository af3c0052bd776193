-- ===== src/ApiServer/Requests.antt =====
-- The routes of the interface, its responses, and what a request's uri calls.
pub mod Called
use mathlib.Core.Path.{subst}
use mathlib.Core.List.{append_assoc, append-nil}
use push1st.Prelude.{
  ap, sym, arith, ◌∙◌, ◌==◌, ◌≡◌, ◌≢◌, ◌>>=◌, Bool-cases, codes, bytes_eq, bytes_eq_iff,
  bytes_eq_refl, if◌then◌else◌, Option, Bytes, Bool, List, refl, [], ◌∷◌, none, some, inl, inr,
  true, false, ℕ, ◌++◌, All, Without,
}
use push1st.Router.Path.{
  mismatch, matched, compare_loop, compare_path, next, component, collect, explode, split_slash,
  without_last_slash,
}
use push1st.Router.Table.{Routes, Route, not_found, crashed, called, add, second, call, call_loop}
use push1st.Http.Uri.{Uri, split_uri}
use push1st.Http.Uris.{IsPart, IsArgument, path_text, query_text, split_uri-path_text}

-- A response as ApiResponse writes it: its code, its headers and body, and whether the socket is
-- closed after it. KeepAliveTimeout is a text.
pub record Written : Type 0 where
  pub code : Bytes
  pub headers : List (Bytes × Bytes)
  pub body : Bytes
  pub closes : Bool

abbrev pub content_type : Bytes × Bytes
content_type = (codes "Content-Type", codes "application/json; charset=utf-8")

unfoldable pub api_response : Bytes → Bytes → Bytes → Bool → Written
api_response timeout code body true = record {
  code = code;
  headers = (codes "Connection", codes "Close") ∷ content_type ∷ [];
  body = body;
  closes = true;
}
api_response [] code body false = record {
  code = code;
  headers = (codes "Connection", codes "Close") ∷ content_type ∷ [];
  body = body;
  closes = true;
}
api_response (c ∷ timeout) code body false = record {
  code = code;
  headers =
      (codes "Connection", codes "Keep-Alive")
      ∷ content_type
      ∷ (codes "Keep-Alive", codes "timeout=" ++ c ∷ timeout)
      ∷ [];
  body = body;
  closes = false;
}

-- The constructor's routes: 0 is ApiOnEvents, 1 is ApiOnToken, 2 is ApiOnChannels, and 3 is
-- ApiOnModuleSmpp, where the service is enabled and has a path.
unfoldable pub api_routes : Bytes → Bool → Bytes → Option Routes
api_routes path smpp smpp_path = do
  events ← add (b'/' ∷ (path ++ codes "/?/events/*")) 0 []
  tokens ← add (b'/' ∷ (path ++ codes "/?/token/?/")) 1 events
  channels ← add (b'/' ∷ (path ++ codes "/?/channels/?/")) 2 tokens
  elim smpp_path [
    | [] ↦ some channels
    | c ∷ cs ↦ if smpp then add (b'/' ∷ ((c ∷ cs) ++ codes "/*")) 3 channels else some channels
  ]

-- OnHttpRequest: what is written, in order. A handler gives what it writes and whether it then throws;
-- a read behind the request's components has no result.
unfoldable pub on_http_request :
    Routes → (ℕ → List Bytes → List Written × Bool) → Uri → Option (List Written)
on_http_request routes handler path = elim (call path.uri_path_list routes) [
  | crashed ↦ none
  | not_found ↦ some (record { code = codes "404"; headers = []; body = []; closes = true } ∷ [])
  | called n args ↦
      let (written, throws) = handler n args in
      some (
        if throws
        then written ++ record { code = codes "400"; headers = []; body = []; closes = true } ∷ []
        else written)
]

split_slash-Without :
    (acc p rest : Bytes)
    → Without b'/' p
    → split_slash acc (p ++ rest) ≡ split_slash (acc ++ p) rest
unfolding split_slash
split_slash-Without acc [] rest h = ap (λ a. split_slash a rest) (sym (append-nil acc))
split_slash-Without acc (c ∷ p) rest h =
    let other : c == b'/' ≡ false = ground (arith, h.0) in
    rw (other, split_slash)
      (split_slash-Without (acc ++ c ∷ []) p rest h.1
        ∙ ap (λ a. split_slash a rest) (append_assoc acc (c ∷ []) p))

without_last_slash-append :
    (p : Bytes) (c d : ℕ) (rest : Bytes)
    → without_last_slash (p ++ c ∷ d ∷ rest) ≡ p ++ without_last_slash (c ∷ d ∷ rest)
unfolding without_last_slash
without_last_slash-append [] c d rest = refl
without_last_slash-append (x ∷ []) c d rest = refl
without_last_slash-append (x ∷ y ∷ p) c d rest =
    ap (λ t. x ∷ t) (without_last_slash-append (y ∷ p) c d rest)

explode-append :
    (path rest : Bytes) (c d : ℕ)
    → IsPart path
    → explode (b'/' ∷ (path ++ c ∷ d ∷ rest))
      ≡ some (codes "/" ∷ split_slash path (without_last_slash (c ∷ d ∷ rest)))
unfolding explode
explode-append [] rest c d h = absurd (h.0 refl)
explode-append (x ∷ path) rest c d h =
    ap (λ l. some (codes "/" ∷ l))
      (ap (split_slash []) (without_last_slash-append (x ∷ path) c d rest)
        ∙ split_slash-Without [] (x ∷ path) (without_last_slash (c ∷ d ∷ rest)) h.1.0)

abbrev pub api_table : Bytes → Routes → Routes
api_table path more =
    (
      path,
      record {
        path = codes "/" ∷ path ∷ codes "?" ∷ codes "events" ∷ codes "*" ∷ [];
        callback = 0;
      },
    )
    ∷ (
      path,
      record { path = codes "/" ∷ path ∷ codes "?" ∷ codes "token" ∷ codes "?" ∷ []; callback = 1 },
    )
    ∷ (
      path,
      record {
        path = codes "/" ∷ path ∷ codes "?" ∷ codes "channels" ∷ codes "?" ∷ [];
        callback = 2;
      },
    )
    ∷ more

abbrev pub smpp_table : Bytes → Routes
smpp_table p = (p, record { path = codes "/" ∷ p ∷ codes "*" ∷ []; callback = 3 }) ∷ []

pub api_routes_lem :
    (path p : Bytes)
    → IsPart path
    → IsPart p
    → (api_routes path false p ≡ some (api_table path []))
      × (api_routes path true p ≡ some (api_table path (smpp_table p)))
unfolding api_routes add second split_slash without_last_slash
api_routes_lem path [] h k = absurd (k.0 refl)
api_routes_lem path (c ∷ p) h k =
    let events = explode-append path (codes "/events/*") b'/' b'?' h in
    let tokens = explode-append path (codes "/token/?/") b'/' b'?' h in
    let channels = explode-append path (codes "/channels/?/") b'/' b'?' h in
    let smpp = explode-append (c ∷ p) [] b'/' b'*' k in
    (rw (events, tokens, channels) refl, rw (events, tokens, channels, smpp) refl)
