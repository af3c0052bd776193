-- ===== src/Raw/Session.antt =====
-- cwssession: a message of the client, and the end of the session. The channels are public and
-- private ones, behind the pointers of the registry.
use push1st.Prelude.{
  ◌>>=◌, leb, not, ◌&&◌, if◌then◌else◌, Option, Bytes, Bool, List, [], ◌∷◌, none, some, true, false,
  ℕ,
}
use push1st.Channel.Kind.{Kind}
use push1st.Channel.Table.{find}
use push1st.Channel.Message.{Message}
use push1st.Channel.Defs.{Sessions, push, unsubscribe}
use push1st.Channel.Registry.{World, update_channel}

pub record Client : Type 0 where
  pub id : Bytes
  pub subscribed_to : List (Bytes × ℕ)
  pub enabled : Kind → Bool

-- A message that msg::Unserialize took, as its JSON answers: empty() and size() of "channel", which
-- are those of a value and not of a text, and its text, if it is one.
pub record Root : Type 0 where
  pub is_object : Bool
  pub has_channel : Bool
  pub has_event : Bool
  pub has_data : Bool
  pub is_null : Bool
  pub size : ℕ
  pub channel : Option Bytes
  pub message : Message

abbrev pub max_name_length : ℕ
max_name_length = 255

-- UnPack, behind the parser.
unfoldable pub unpack : Option Root → Option Root
unpack none = none
unpack (some r) =
    if r.is_object
      && (r.has_channel
          && (r.has_event && (r.has_data && (not r.is_null && leb r.size max_name_length))))
    then some r
    else none

-- What becomes of a message: it is pushed to a channel, it is refused by the configuration, or the
-- session ends.
pub data Taken : Type 0 where
  disabled closed : Taken
  pushed : ℕ → Taken

-- `alive` says which weak pointers can be locked, and `locked` whose try_lock succeeds.
module _ (env : Sessions) (alive locked : ℕ → Bool) where
  -- UnSubscribe through a pointer.
  unfoldable pub leave_at : Bytes → ℕ → World → World
  leave_at sid h w = elim (w.heap h) [
    | none ↦ w
    | some c ↦ update_channel h (unsubscribe env (locked h) sid c) w
  ]

  -- The loop of OnSocketError.
  unfoldable pub leave_all : Bytes → List (Bytes × ℕ) → World → World
  leave_all sid [] w = w
  leave_all sid ((name, h) ∷ table) w =
      leave_all sid table (if alive h then leave_at sid h w else w)

  unfoldable pub on_socket_error : Client → World → World
  on_socket_error s w = leave_all s.id s.subscribed_to w

  -- The channel that a message names, where the session has it and it is still there.
  unfoldable pub channel_of : Client → Option Root → Option (Root × ℕ)
  channel_of s root = do
    r ← unpack root
    name ← r.channel
    h ← find name s.subscribed_to
    if alive h then some (r, h) else none

  -- Push to a channel, whose exception ends the session. What the application's hook and the cluster
  -- are told is left out.
  unfoldable pub push_to : Client → Root → ℕ → World → Taken × World
  push_to s r h w = elim (w.heap h) [
    | none ↦ (closed, on_socket_error s w)
    | some c ↦ elim (s.enabled c.kind) [
      | false ↦ (disabled, w)
      | true ↦ elim (push env (locked h) r.message c) [
        | none ↦ (closed, on_socket_error s w)
        | some (c', es, n) ↦ (pushed h, update_channel h (c', es) w)
      ]
    ]
  ]

  -- OnWsMessage
  unfoldable pub on_ws_message : Client → Option Root → World → Taken × World
  on_ws_message s root w = elim (channel_of s root) [
    | none ↦ (closed, on_socket_error s w)
    | some (r, h) ↦ push_to s r h w
  ]
