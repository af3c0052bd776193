-- ===== src/Pusher/Tests.antt =====
-- A Pusher session at concrete messages.
use push1st.Prelude.{
  ap, ◌≡◌, Option, refl, [], ◌∷◌, none, some, true, false, codes, Bytes, bytes_eq,
}
use push1st.Channel.Kind.{pub_kind, channel_type}
use push1st.Channel.Table.{find, emplace}
use push1st.Credentials.App.{Crypto, App, allows_origin, has_kind, is_pub, is_allow_channel}
use push1st.Pusher.Session.{
  Session, Payload, subscribe, write, subscription_succeeded, Peers, touch, is_allow, accepts,
  error_of, with_presence, with_user, enter, subscribe_channel, channel_name, on_pusher_subscribe,
  on_event, on_ws_message,
}
use push1st.Pusher.Entry.{entered, Passed, entered-on_ws_message}
use push1st.Pusher.Table.{entry-on_ws_message}

abbrev no_crypto : Crypto
no_crypto = record {
  hmac = λ key text. none;
  evp_encrypt = λ key iv text. none;
  evp_decrypt = λ key iv cipher. none;
}

abbrev open_app : App
open_app = record { secret = codes "s"; channels = 15; origins = [] }

abbrev closed_app : App
closed_app = record { secret = codes "s"; channels = 15; origins = codes "https://a.b" ∷ [] }

abbrev peers : Peers
peers = record {
  register = λ kind name. some 5;
  is_alive = λ h. true;
  throws = λ h user. false;
  user_id_in = λ text. none;
  write = λ reply. 0;
}

abbrev guest : Session
guest = record {
  id = codes "1.2";
  keep_alive = 20;
  activity_check_time = 0;
  subscribed_to = (codes "old", 3) ∷ [];
  user_id = [];
  presence_data = [];
}

abbrev subscribes : Bytes → Option Payload
subscribes name = some (record {
  event = some (codes "pusher:subscribe");
  channel = none;
  request = some (record { channel = some name; auth = none; channel_data = none });
})

enters :
    (on_ws_message no_crypto open_app peers 100 (subscribes (codes "room")) guest).1
    ≡ subscribe pub_kind 5 ∷ write (subscription_succeeded (codes "room")) ∷ []
unfolding on_ws_message on_event on_pusher_subscribe channel_name subscribe_channel accepts is_allow
    is_allow_channel has_kind is_pub allows_origin with_presence with_user enter error_of touch
    channel_type bytes_eq find emplace
enters = refl

entered-on_ws_message_example :
    (p : Payload) × (subscribes (codes "room") ≡ some p)
    × Passed no_crypto open_app peers 100 p guest pub_kind 5
entered-on_ws_message_example =
    entered-on_ws_message no_crypto open_app peers 100 (subscribes (codes "room")) guest pub_kind 5
      (ap entered enters)

entry-on_ws_message_example :
    find
      (codes "old")
      (on_ws_message no_crypto open_app peers 100 (subscribes (codes "old")) guest).0.subscribed_to
    ≡ some 3
unfolding find bytes_eq
entry-on_ws_message_example =
    entry-on_ws_message no_crypto open_app peers 100 (codes "old") (subscribes (codes "old")) guest
      3 refl
