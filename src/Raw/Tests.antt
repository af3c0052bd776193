-- ===== src/Raw/Tests.antt =====
-- A session of one channel.
use push1st.Prelude.{
  refl, bytes_eq, ℕ, if◌then◌else◌, ◌==◌, Bool, ◌≡◌, [], ◌∷◌, none, some, true, false, codes,
}
use push1st.Channel.Kind.{pub_kind}
use push1st.Channel.Table.{find}
use push1st.Channel.Message.{is_present, Message, absent, delivery_of}
use push1st.Channel.Defs.{deliver_all, select_broadcast, select, push, Sessions, Channel}
use push1st.Channel.Registry.{World}
use push1st.Raw.Session.{
  pushed, unpack, channel_of, push_to, Client, Root, on_socket_error, on_ws_message,
}
use push1st.Raw.Leaving.{Gone, on_socket_error-Gone}

abbrev sessions : Sessions
sessions = record {
  is_alive = λ h. true;
  id = λ h. codes "s1";
  push = λ h. 0;
  is_connected = λ h. true;
}

abbrev room : Channel
room = record {
  kind = pub_kind;
  auto_close = true;
  uid = codes "app#room";
  name = codes "room";
  subscribers = (codes "s1", 9) ∷ [];
}

abbrev world : World
world = record {
  channels = (codes "app#room", 4) ∷ [];
  heap = λ h. if h == 4 then some room else none;
  next = 5;
}

abbrev client : Client
client = record { id = codes "s1"; subscribed_to = (codes "room", 4) ∷ []; enabled = λ kind. true }

abbrev always : ℕ → Bool
always h = true

abbrev said : Message
said = record {
  id = 1;
  from = codes "s1";
  delivery = codes "broadcast";
  socket_id = absent;
  event = codes "e";
  body = [];
}

abbrev root : Root
root = record {
  is_object = true;
  has_channel = true;
  has_event = true;
  has_data = true;
  is_null = false;
  size = 1;
  channel = some (codes "room");
  message = said;
}

-- The message goes to the channel.
goes : (on_ws_message sessions always always client (some root) world).0 ≡ pushed 4
unfolding on_ws_message push_to channel_of unpack find bytes_eq push select is_present
    select_broadcast deliver_all delivery_of
goes = refl

on_socket_error-Gone_example :
    Gone (codes "s1") 4 (on_socket_error sessions always always client world)
on_socket_error-Gone_example =
    on_socket_error-Gone sessions always always client (codes "room") 4 world
      (unfold find in unfold bytes_eq in refl) refl refl
