-- ===== src/Upgrade.antt =====
-- The websocket server: source/http/cwsserver.cpp and application/push1st/websocketserver, from the
-- first request of a connection to its session.
pub mod Admission
mod Tests
use push1st.Prelude.{
  ltb, leb, ap, sym, arith, ◌∙◌, ◌+◌, ◌-◌, ◌*◌, ◌/◌, ◌%◌, ◌^◌, ◌==◌, ◌≡◌, ◌≢◌, ◌≤◌, ◌<◌, ◌&&◌, ◌||◌,
  not, ◌>>=◌, Bool-cases, Option-cases, codes, bytes_eq, if◌then◌else◌, Option, Bytes, Bool, List,
  refl, [], ◌∷◌, none, some, inl, inr, true, false, ℕ, zero, suc, ◌++◌, length, length-append, take,
  drop, map, starts_with,
}
use push1st.Channel.Table.{find}
use push1st.ApiServer.Events.{Client}
use push1st.Http.Scan.{parse_digits}
use push1st.Http.Request.{Request, to_lower}
use push1st.Http.Uri.{Uri}

-- What is done to the socket, in order: responses by their code, closing it, PollDelete, and the
-- error that a session is told of.
pub data Act : Type 0 where
  respond : Bytes → Act
  close_socket delete_poll : Act
  tell_error : ℕ → Act

-- How an event of a new connection ends: with a session that serves it, which is a number, for an
-- application and a route, or without one.
pub data Ending : Type 0 where
  served : Client → Bytes → ℕ → Ending
  unserved : Ending

-- uri_t::At; `none` where it reads behind the list.
unfoldable pub part_at : ℕ → List Bytes → Option Bytes
part_at i [] = none
part_at zero (p ∷ ps) = some p
part_at (suc i) (p ∷ ps) = part_at i ps

-- GetAppByKey, on the table of the applications by their keys.
unfoldable pub get_app_by_key : Bytes → List (Bytes × Client) → Option Client
get_app_by_key key apps = elim (find key apps) [
  | none ↦ none
  | some app ↦ if app.enable then some app else none
]

-- GetValue
unfoldable pub header_value : Bytes → List (Bytes × Bytes) → Bytes
header_value name headers = elim (find name headers) [ none ↦ [] | some v ↦ v ]

-- The test of WsAccept, whose comparisons of the first characters ignore their case.
unfoldable pub wants_upgrade : Request → Bool
wants_upgrade r =
    bytes_eq r.method (codes "GET")
    && (starts_with (codes "upgrade") (to_lower (header_value (codes "connection") r.headers))
        && (starts_with (codes "websocket") (to_lower (header_value (codes "upgrade") r.headers))
            && leb 12 (parse_digits 0 (header_value (codes "sec-websocket-version") r.headers))))

-- The server: its default route, the applications by their keys, and the routes, whose factories
-- make a session of an application or none. `send` is the result of HttpWriteResponse.
module _ (app_path : Bytes) (apps : List (Bytes × Client))
    (routes : List (Bytes × (Option Client → Option ℕ))) (send : Bytes → ℕ) where
  -- The position of the key in a path.
  unfoldable pub key_position : Bytes → ℕ
  key_position first = if bytes_eq first app_path then 2 else 3

  -- cwebsocketserver::WsUpgrade: its result and what it does; 101 is cwsserver::WsUpgrade.
  unfoldable pub ws_upgrade : List Bytes → Option (ℕ × List Act)
  ws_upgrade path = part_at 1 path >>= (λ first. elim (find first routes) [
    | none ↦ some (20, respond (codes "404") ∷ close_socket ∷ [])
    | some factory ↦ part_at (key_position first) path >>= (λ key. elim (get_app_by_key key apps) [
      | none ↦ some (13, respond (codes "403") ∷ close_socket ∷ [])
      | some app ↦ some (send (codes "101"), respond (codes "101") ∷ [])
    ])
  ])

  unfoldable pub make_session : Bytes → Option Client → Option ℕ → Ending × List Act
  make_session first (some app) (some session) = (served app first session, [])
  make_session first _ _ = (unserved, respond (codes "400") ∷ close_socket ∷ [])

  -- OnWsUpgrade; a route that is not there has an empty factory, which throws.
  unfoldable pub on_ws_upgrade : List Bytes → Option (Ending × List Act)
  on_ws_upgrade path = part_at 1 path >>= (λ first. part_at (key_position first) path >>= (λ key.
      find first routes >>= (λ factory.
        let app = get_app_by_key key apps in some (make_session first app (factory app)))))

  -- PollUpdate, whose error the session is told of.
  unfoldable pub start_polling : ℕ → Ending × List Act → Ending × List Act
  start_polling updated (served app first session, acts) =
      (served app first session, if updated == 0 then acts else acts ++ tell_error updated ∷ [])
  start_polling updated (unserved, acts) = (unserved, acts)

  -- WsAccept of a readable socket, on the request that was read, if it was.
  unfoldable pub ws_accept : ℕ → Option Request → Option (Ending × List Act)
  ws_accept updated none = some (unserved, respond (codes "400") ∷ delete_poll ∷ [])
  ws_accept updated (some r) =
      if wants_upgrade r
      then ws_upgrade r.path.uri_path_list >>= (λ (code, acts).
        if code == 0
        then on_ws_upgrade r.path.uri_path_list >>= (λ made.
          let (ending, more) = start_polling updated made in some (ending, acts ++ more))
        else some (unserved, acts))
      else some (unserved, respond (codes "426") ∷ delete_poll ∷ [])
