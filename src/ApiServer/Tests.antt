-- ===== src/ApiServer/Tests.antt =====
-- Requests of an application's server at concrete inputs.
use push1st.Prelude.{
  false, ℕ, ◌>>=◌, map, keep, starts_with, bytes_eq_iff, replicate, arith, ◌==◌, ◌≡◌, Bool-cases,
  codes, bytes_eq, if◌then◌else◌, Option, Bytes, Bool, List, refl, [], ◌∷◌, none, some, inl, inr,
  true, ◌++◌, length,
}
use mathlib.Core.Path.{subst}
use mathlib.Core.Option.{some-injective}
use push1st.Channel.Kind.{pub_kind}
use push1st.Channel.Table.{find, emplace, erase, HasDistinctKeys}
use push1st.Channel.Message.{absent, is_present, as_string, delivery_of}
use push1st.Channel.Defs.{
  Sessions, Channel, deliver, push, select, select_broadcast, select_multicast, select_unicast,
  close_if_empty, unsubscribe, attempt, deliver_all,
}
use push1st.Channel.Routing.{recipients}
use push1st.Channel.Registry.{World, channel_uid, get, push_at}
use push1st.Channel.Registry.Laws.{IsConsistent}
use push1st.Credentials.App.{Crypto}
use push1st.Credentials.Session.{validate_session}
use push1st.ApiServer.Events.{
  Client, Posted, no_names, dup_channel_message, get_app_by_id, api_on_events,
}
use push1st.ApiServer.Told.{count_told, api_on_events-push}
use push1st.ApiServer.Requests.{Written, api_response, api_routes, on_http_request}
use push1st.Http.Uris.{path_text, query_text}
use push1st.ApiServer.Requests.Called.{call-api_routes}
use push1st.Http.Uri.{split_uri, path_loop, with_part}
use push1st.Http.Scan.{split_by}
use push1st.Router.Path.{
  explode, split_slash, without_last_slash, compare_path, compare_loop, next, collect,
}
use push1st.Router.Table.{Routes, called, add, second, call, call_loop}
use push1st.ApiServer.Channels.{listed}
use push1st.ApiServer.Tokens.{
  SessionRequest, TokenReader, response, no_response, custom_data, api_on_token, answer_token,
  validate_session-api_on_token,
}

abbrev env : Sessions
env = record {
  is_alive = λ h. true;
  id = λ h. codes "a.1";
  push = λ h. 0;
  is_connected = λ h. true;
}

abbrev room : Channel
room = record {
  kind = pub_kind;
  auto_close = true;
  uid = codes "a1#room";
  name = codes "room";
  subscribers = (codes "a.1", 1) ∷ [];
}

abbrev world : World
world = record {
  channels = (codes "a1#room", 0) ∷ [];
  heap = λ h. if h == 0 then some room else none;
  next = 1;
}

abbrev client : Client
client = record { id = codes "a1"; secret = codes "s"; enable = true }

abbrev apps : List (Bytes × Client)
apps = (codes "a1", client) ∷ []

abbrev posted : Posted
posted = record {
  channel = some (codes "room");
  name = some (codes "hi");
  channels = no_names;
  id = 7;
  from = codes "api";
  delivery = codes "broadcast";
  socket_id = absent;
  body = codes "b";
}

abbrev read : Bytes → Option Posted
read d = some posted

program : Bool
unfolding find emplace erase delivery_of is_present as_string push select select_broadcast
    select_multicast select_unicast close_if_empty unsubscribe attempt deliver_all channel_uid get
    bytes_eq starts_with dup_channel_message get_app_by_id listed keep custom_data
program = true

pushed :
    push env true (dup_channel_message (codes "hi") posted) room ≡ some (room, deliver 1 ∷ [], 1)
unfolding program
pushed = refl

room-HasDistinctKeys : HasDistinctKeys room.subscribers
unfolding find
room-HasDistinctKeys = (refl, tt)

api_on_events-push_example :
    let m = dup_channel_message (codes "hi") posted in
    let a = api_on_events env true read apps (codes "a1") (codes "POST") (codes "{}") world in
    (a.code ≡ codes "200")
    × (a.progress.world ≡ push_at env true m 0 world)
    × (a.progress.reply ≡ (codes "room", length (recipients env m room.subscribers)) ∷ [])
    × (count_told a.progress.effects ≡ 2)
unfolding program
api_on_events-push_example =
    api_on_events-push env true read apps (codes "a1") (codes "hi") (codes "room") (codes "}") b'{'
      client posted 0 world room room (deliver 1 ∷ []) 1 refl refl refl refl refl refl
      room-HasDistinctKeys pushed

world-IsConsistent : IsConsistent world
unfolding find
world-IsConsistent = record {
  points = λ u h f. elim (Bool-cases (bytes_eq (codes "a1#room") u)) [
    | inl t ↦
        let same : 0 ≡ h = some-injective 0 h (rw t at f) in
        (
          room,
          subst (λ i. world.heap i ≡ some room) same refl,
          (bytes_eq_iff (codes "a1#room") u).0 t,
        )
    | inr t ↦ cc (rw t at f)
  ];
  fresh = λ g l. ground arith;
}

-- The channel of the application "a1" in the list of "a".
abbrev toy : Crypto
toy = record {
  hmac = λ key t. some (replicate 32 171);
  evp_encrypt = λ key iv t. some t;
  evp_decrypt = λ key iv t. some t;
}

abbrev asked : SessionRequest
asked = record { session = some (codes "1.2"); channel = some (codes "room"); custom = none }

abbrev reader : TokenReader
reader = record { session_request = λ d. some asked; access_request = λ d. none }

-- A token of another kind is never answered.
unknown_kind :
    api_on_token toy reader 0 0 apps (codes "a1") (codes "other") (codes "POST") (codes "{}")
    ≡ no_response
unfolding api_on_token answer_token program
unknown_kind = refl

validate_session-api_on_token_example :
    (token : Bytes) × (api_on_token toy reader 0 0 apps
        (codes "a1")
        (codes "session")
        (codes "POST")
        (codes "{}")
      ≡ response (codes "200") token)
    × (validate_session toy (codes "s") token (codes "1.2") (codes "room") [] ≡ true)
    × (validate_session toy
          (codes "s")
          (codes "key" ++ b':' ∷ token)
          (codes "1.2")
          (codes "room")
          []
        ≡ true)
unfolding program
validate_session-api_on_token_example =
    validate_session-api_on_token toy reader 0 0 apps (codes "a1") (codes "{}") (codes "1.2")
      (codes "room") [] (codes "key") client asked refl refl refl refl refl (ground arith)
      (ground arith) (λ e. cc)

unfoldable toy_handler : ℕ → List Bytes → List Written × Bool
toy_handler n args = (api_response [] (codes "200") [] false ∷ [], n == 1)

-- The codes of what is written for a token: 200, then 400 as the handler throws.
abbrev answered : Bytes → Option (List (Bytes × Bool))
answered uri = do
  routes ← api_routes (codes "apps") true (codes "sms")
  responses ← on_http_request routes toy_handler (split_uri uri)
  some (map (λ w. (w.code, w.closes)) responses)

answered_lem :
    (answered (codes "/apps/a1/token/session")
      ≡ some ((codes "200", true) ∷ (codes "400", true) ∷ []))
    × (answered (codes "/sms/send/1?x=2") ≡ some ((codes "200", true) ∷ []))
    × (answered (codes "/other/a1") ≡ some ((codes "404", true) ∷ []))
unfolding toy_handler api_routes on_http_request api_response add explode second split_slash
    without_last_slash call split_uri bytes_eq path_loop split_by with_part call_loop compare_path
    compare_loop next collect
answered_lem = (refl, refl, refl)

call-api_routes_example :
    (routes : Routes) × (api_routes (codes "apps") true (codes "sms") ≡ some routes)
    × (call
          (split_uri (
            path_text (codes "apps" ∷ codes "a1" ∷ codes "events" ∷ [])
            ++ query_text [])).uri_path_list
          routes
        ≡ called 0 (codes "a1" ∷ []))
    × (call
          (split_uri (
            path_text (codes "apps" ∷ codes "a1" ∷ codes "token" ∷ codes "room" ∷ [])
            ++ query_text [])).uri_path_list
          routes
        ≡ called 1 (codes "a1" ∷ codes "room" ∷ []))
    × (call
          (split_uri (
            path_text (codes "apps" ∷ codes "a1" ∷ codes "channels" ∷ codes "room" ∷ [])
            ++ query_text [])).uri_path_list
          routes
        ≡ called 2 (codes "a1" ∷ codes "room" ∷ []))
    × (call
          (split_uri (
            path_text (codes "apps" ∷ codes "a1" ∷ codes "channels" ∷ [])
            ++ query_text [])).uri_path_list
          routes
        ≡ called 2 (codes "a1" ∷ [] ∷ []))
    × (call
          (split_uri (path_text (codes "sms" ∷ codes "room" ∷ []) ++ query_text [])).uri_path_list
          routes
        ≡ called 3 (codes "room" ∷ []))
call-api_routes_example =
    call-api_routes (codes "apps") (codes "sms") (codes "a1") (codes "room") [] [] (ground arith)
      (λ e. cc) (ground arith) (λ e. cc) (λ e. cc) (ground arith) (ground arith) (ground arith)
      (ground arith)
