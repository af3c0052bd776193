-- ===== src/Pusher/Session.antt =====
-- cpushersession: what a message makes the session do. A channel is the number of its object, and a
-- time is a number of seconds.
use push1st.Prelude.{
  leb, codes, ◌&&◌, length, bytes_eq, not, ◌==◌, Bool, if◌then◌else◌, ◌>>=◌, List, ◌+◌, Bytes,
  Option, [], ◌∷◌, none, some, false, ℕ,
}
use push1st.Channel.Kind.{Kind, pub_kind, priv_kind, pres_kind, channel_type}
use push1st.Channel.Table.{find, emplace}
use push1st.Credentials.App.{Crypto, App, is_allow_channel}
use push1st.Credentials.Session.{validate_session}

pub record Session : Type 0 where
  pub id : Bytes
  pub keep_alive : ℕ
  pub activity_check_time : ℕ
  pub subscribed_to : List (Bytes × ℕ)
  pub user_id : Bytes
  pub presence_data : Bytes

-- The member "data" of a message where it is an object: the members that are texts.
pub record Request : Type 0 where
  pub channel : Option Bytes
  pub auth : Option Bytes
  pub channel_data : Option Bytes

-- A message that UnPack could read: the members that are texts, and the data where it is an object.
pub record Payload : Type 0 where
  pub event : Option Bytes
  pub channel : Option Bytes
  pub request : Option Request

-- What the session answers with.
pub data Reply : Type 0 where
  pong : Reply
  subscription_succeeded : Bytes → Reply

-- What the session does outside itself, in order; `raise` is an exception that leaves the handler.
pub data Action : Type 0 where
  subscribe : Kind → ℕ → Action
  unsubscribe : ℕ → Action
  write : Reply → Action
  ws_error : ℕ → Action
  raise : Action

abbrev pub eproto : ℕ
eproto = 71

abbrev pub max_channel_name_length : ℕ
max_channel_name_length = 255

-- What the handlers ask of the rest of the program: the object that Channels->Register returns for a
-- type and a name, whether a weak pointer to a channel still leads to one, whether Subscribe of a
-- session with a user id throws, the "user_id" in a JSON text, and the errno of WsWriteMessage, 0
-- for success.
pub record Peers : Type 0 where
  pub register : Kind → Bytes → Option ℕ
  pub is_alive : ℕ → Bool
  pub throws : ℕ → Bytes → Bool
  pub user_id_in : Bytes → Option Bytes
  pub write : Reply → ℕ

module _ (k : Crypto) (app : App) (peers : Peers) (now : ℕ) where
  unfoldable pub touch : Session → Session
  touch s = record s { activity_check_time = now + s.keep_alive }

  -- IsAllowChannelSession with the arguments of the session: the origin is left empty.
  unfoldable pub is_allow : Session → Kind → Bytes → Bytes → Bytes → Bool
  is_allow s kind name token custom =
      is_allow_channel app kind [] (validate_session k app.secret token s.id name custom)

  abbrev pub text_or_empty : Option Bytes → Bytes
  text_or_empty none = []
  text_or_empty (some t) = t

  -- The conditions of the three branches of OnPusherSubscribe.
  unfoldable pub accepts : Session → Kind → Bytes → Request → Bool
  accepts s priv_kind name r = elim r.auth [
    | none ↦ false
    | some t ↦ is_allow s priv_kind name t []
  ]
  accepts s pres_kind name r = elim r.auth [
    | none ↦ false
    | some t ↦ is_allow s pres_kind name t (text_or_empty r.channel_data)
  ]
  accepts s pub_kind name r = is_allow s pub_kind name [] []
  accepts s _ name r = false

  -- SessionPresenceData, which the presence branch sets before its check.
  unfoldable pub with_presence : Kind → Request → Session → Session
  with_presence pres_kind r s = elim r.auth [
    | none ↦ s
    | some _ ↦ record s { presence_data = text_or_empty r.channel_data }
  ]
  with_presence _ r s = s

  -- SessionUserId, which it sets after the registration.
  unfoldable pub with_user : Kind → Session → Session
  with_user pres_kind s = elim (peers.user_id_in s.presence_data) [
    | none ↦ s
    | some u ↦ record s { user_id = u }
  ]
  with_user _ s = s

  unfoldable pub error_of : ℕ → List Action
  error_of res = if res == 0 then [] else ws_error res ∷ []

  -- A branch after its check: Register, SubscribedTo, Subscribe and the answer.
  unfoldable pub enter : Kind → Bytes → Session → Session × List Action
  enter kind name s = elim (peers.register kind name) [
    | none ↦ (s, ws_error eproto ∷ [])
    | some h ↦
        let s' = with_user kind s in
        (
          record s' { subscribed_to = emplace name h s'.subscribed_to },
          subscribe kind h
              ∷ (if peers.throws h s'.user_id
                  then raise ∷ []
                  else write (subscription_succeeded name)
                    ∷ error_of (peers.write (subscription_succeeded name))),
        )
  ]

  unfoldable pub subscribe_channel : Kind → Bytes → Request → Session → Session × List Action
  subscribe_channel kind name r s =
      let s' = with_presence kind r s in
      if accepts s' kind name r then enter kind name s' else (s', ws_error eproto ∷ [])

  -- The channel that the data names, if its name is neither empty nor too long.
  unfoldable pub channel_name : Option Request → Option (Bytes × Request)
  channel_name d = do
    r ← d
    name ← r.channel
    if not (length name == 0) && leb (length name) max_channel_name_length
        then some (name, r)
        else none

  unfoldable pub on_pusher_subscribe : Payload → Session → Session × List Action
  on_pusher_subscribe m s = elim (channel_name m.request) [
    | none ↦ (touch s, ws_error eproto ∷ [])
    | some (name, r) ↦ subscribe_channel (channel_type name) name r (touch s)
  ]

  unfoldable pub on_pusher_unsubscribe : Payload → Session → Session × List Action
  on_pusher_unsubscribe m s =
      elim (m.request >>= (λ r. r.channel >>= (λ name. find name s.subscribed_to))) [
        | none ↦ (s, [])
        | some h ↦ (s, if peers.is_alive h then unsubscribe h ∷ [] else [])
      ]

  unfoldable pub on_pusher_ping : Session → Session × List Action
  on_pusher_ping s = ((if peers.write pong == 0 then touch s else s), write pong ∷ [])

  -- OnPusherPush looks for the channel of the data, and does nothing with it.
  unfoldable pub on_pusher_push : Bytes → Payload → Session → Session × List Action
  on_pusher_push name m s =
      if length name == 0
      then (s, ws_error eproto ∷ [])
      else elim (m.request >>= (λ r. r.channel)) [ none ↦ (s, raise ∷ []) | some _ ↦ (s, []) ]

  unfoldable pub on_event : Bytes → Payload → Session → Session × List Action
  on_event e m s =
      if bytes_eq e (codes "pusher:subscribe")
      then on_pusher_subscribe m s
      else if bytes_eq e (codes "pusher:ping")
      then on_pusher_ping s
      else if bytes_eq e (codes "pusher:unsubscribe")
      then on_pusher_unsubscribe m s
      else elim m.channel [ none ↦ (s, ws_error eproto ∷ []) | some name ↦ on_pusher_push name m s ]

  -- OnWsMessage, on what UnPack returns.
  unfoldable pub on_ws_message : Option Payload → Session → Session × List Action
  on_ws_message none s = (touch s, ws_error eproto ∷ [])
  on_ws_message (some m) s = elim m.event [
    | none ↦ (touch s, raise ∷ [])
    | some e ↦ if length e == 0 then (touch s, ws_error eproto ∷ []) else on_event e m (touch s)
  ]
