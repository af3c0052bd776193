-- ===== src/Channel/Message.antt =====
-- The fields of a message that the channels and sessions read: a JSON object, with what nlohmann's
-- accessors do on it.
use push1st.Prelude.{
  ℕ, Bool, true, false, List, [], ◌∷◌, Option, none, some, Bytes, bytes_eq, codes, if◌then◌else◌,
}

-- msg::delivery_t
pub data Delivery : Type 0 where
  broadcast multicast unicast : Delivery

-- The value of "socket_id", where there is one. A value of another kind acts like an array: an object
-- like that of its members, and a number or a boolean, which is never empty, like one of one element.
pub data SocketId : Type 0 where
  absent null : SocketId
  text : Bytes → SocketId
  array : List Bytes → SocketId

-- `contains("socket_id") and !["socket_id"].empty()`: a null and an empty array are empty, and a
-- text never is.
unfoldable pub is_present : SocketId → Bool
is_present absent = false
is_present null = false
is_present (text s) = true
is_present (array []) = false
is_present (array (x ∷ xs)) = true

-- The conversion to std::string, which throws a type_error on anything but a text.
unfoldable pub as_string : SocketId → Option Bytes
as_string (text s) = some s
as_string _ = none

pub record Message : Type 0 where
  pub id : ℕ
  pub from : Bytes
  pub delivery : Bytes
  pub socket_id : SocketId
  pub event : Bytes
  pub body : Bytes

-- The delivery as cchannel::Push reads it: anything else is unicast.
unfoldable pub delivery_of : Bytes → Delivery
unfolding bytes_eq
delivery_of s =
    if bytes_eq s (codes "broadcast")
    then broadcast
    else if bytes_eq s (codes "multicast")
    then multicast
    else unicast

-- The options object of a client's message, as far as msg::Unserialize reads it.
pub record Options : Type 0 where
  pub delivery : Option Bytes
  pub session : Option Bytes

-- What msg::Make puts on a message of the server's own.
unfoldable pub make_message : ℕ → Bytes → SocketId → Bytes → Bytes → Message
make_message id producer socket event body = record {
  id = id;
  from = producer;
  delivery = codes "broadcast";
  socket_id = socket;
  event = event;
  body = body;
}

-- The delivery that msg::Unserialize writes.
unfoldable pub delivery_option : Option Bytes → Bytes
unfolding bytes_eq
delivery_option none = codes "broadcast"
delivery_option (some val) =
    if bytes_eq val (codes "multicast")
    then codes "multicast"
    else if bytes_eq val (codes "unicast")
    then codes "unicast"
    else codes "broadcast"

unfoldable pub session_option : Option Bytes → SocketId → SocketId
session_option none socket = socket
session_option (some s) socket = text s

-- msg::Unserialize on a parsed object whose "socket_id" is `socket`.
unfoldable pub unserialize : ℕ → Bytes → Option Options → SocketId → Bytes → Bytes → Message
unserialize id producer none socket event body = record {
  id = id;
  from = producer;
  delivery = codes "broadcast";
  socket_id = socket;
  event = event;
  body = body;
}
unserialize id producer (some o) socket event body = record {
  id = id;
  from = producer;
  delivery = delivery_option o.delivery;
  socket_id = session_option o.session socket;
  event = event;
  body = body;
}
