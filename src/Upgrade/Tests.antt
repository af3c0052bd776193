-- ===== src/Upgrade/Tests.antt =====
-- Connections to a server with the default route and one for websockets.
use push1st.Prelude.{
  starts_with, ◌≡◌, codes, bytes_eq, Option, Bytes, Bool, List, refl, [], ◌∷◌, none, some, true,
  false, ℕ,
}
use push1st.Channel.Table.{find}
use push1st.ApiServer.Events.{Client}
use push1st.Http.Scan.{parse_digits}
use push1st.Http.Request.{Request, to_lower}
use push1st.Credentials.Decimal.{is_digit}
use push1st.Upgrade.{
  Act, respond, close_socket, delete_poll, Ending, served, unserved, part_at, get_app_by_key,
  header_value, wants_upgrade, key_position, ws_upgrade, make_session, on_ws_upgrade, start_polling,
  ws_accept,
}
use push1st.Upgrade.Admission.{Asks, IsAdmitted, ws_accept_lem}

abbrev client : Client
client = record { id = codes "a1"; secret = codes "s"; enable = true }

abbrev apps : List (Bytes × Client)
apps = (codes "key", client) ∷ (codes "old", record client { enable = false }) ∷ []

abbrev session_of : Option Client → Option ℕ
session_of none = none
session_of (some app) = some 5

abbrev routes : List (Bytes × (Option Client → Option ℕ))
routes = (codes "app", session_of) ∷ (codes "ws", session_of) ∷ []

abbrev request : Bytes → Bytes → Request
request key connection = record {
  method = codes "GET";
  path = record {
    uri_full = [];
    uri_path = [];
    uri_path_list = codes "/" ∷ codes "app" ∷ key ∷ [];
    uri_args = [];
  };
  headers =
      (codes "connection", connection)
      ∷ (codes "upgrade", codes "websocket")
      ∷ (codes "sec-websocket-version", codes "13")
      ∷ [];
  content = [];
}

program : Bool
unfolding find part_at get_app_by_key header_value wants_upgrade key_position ws_upgrade
    make_session on_ws_upgrade start_polling ws_accept bytes_eq starts_with to_lower parse_digits
    is_digit
program = true

abbrev accept : Option Request → Option (Ending × List Act)
accept r = ws_accept (codes "app") apps routes (λ code. 0) 0 r

serves :
    accept (some (request (codes "key") (codes "Upgrade")))
    ≡ some (served client (codes "app") 5, respond (codes "101") ∷ [])
unfolding program
serves = refl

forbids :
    accept (some (request (codes "old") (codes "Upgrade")))
    ≡ some (unserved, respond (codes "403") ∷ close_socket ∷ [])
unfolding program
forbids = refl

-- The header that browsers send with a proxy between.
needs_prefix :
    accept (some (request (codes "key") (codes "keep-alive, Upgrade")))
    ≡ some (unserved, respond (codes "426") ∷ delete_poll ∷ [])
unfolding program
needs_prefix = refl

ws_accept_lem_example :
    (r : Request) × (some (request (codes "key") (codes "Upgrade")) ≡ some r)
    × Asks r
    × IsAdmitted (codes "app") apps routes (λ code. 0) r.path.uri_path_list client (codes "app") 5
ws_accept_lem_example =
    (ws_accept_lem (codes "app") apps routes (λ code. 0) 0).4
      (some (request (codes "key") (codes "Upgrade"))) (codes "app") client 5
      (respond (codes "101") ∷ []) serves
