-- ===== src/ApiServer/Events.antt =====
-- ApiOnEvents: a message for a list of channels, on the registry and the cluster.
use push1st.Prelude.{
  codes, bytes_eq, if◌then◌else◌, Option, Bytes, Bool, List, [], ◌∷◌, none, some, true, false, ℕ,
  ◌++◌,
}
use push1st.Channel.Table.{find}
use push1st.Channel.Message.{Message, SocketId}
use push1st.Channel.Defs.{Sessions, Effect, cluster_push, push_cluster}
use push1st.Channel.Registry.{World, get, update_channel}

-- An application, as GetAppById finds it.
pub record Client : Type 0 where
  pub id : Bytes
  pub secret : Bytes
  pub enable : Bool

-- GetAppById, on the table of the applications by their ids.
unfoldable pub get_app_by_id : Bytes → List (Bytes × Client) → Option Client
get_app_by_id id apps = elim (find id apps) [
  | none ↦ none
  | some app ↦ if app.enable then some app else none
]

-- The value of "channels": absent, no array, or the elements, `none` for those that are no texts.
pub data Names : Type 0 where
  no_names no_array : Names
  names : List (Option Bytes) → Names

-- What msg::Unserialize gives: "channel" where it is a text, "name" where there is one, and the
-- fields that are copied.
pub record Posted : Type 0 where
  pub channel : Option Bytes
  pub name : Option Bytes
  pub channels : Names
  pub id : ℕ
  pub from : Bytes
  pub delivery : Bytes
  pub socket_id : SocketId
  pub body : Bytes

-- A text in "channel" takes the place of "channels".
unfoldable pub channel_names : Posted → Names
channel_names e = elim e.channel [ none ↦ e.channels | some c ↦ names (some c ∷ []) ]

-- DupChannelMessage, up to the name of the channel.
unfoldable pub dup_channel_message : Bytes → Posted → Message
dup_channel_message name e = record {
  id = e.id;
  from = e.from;
  delivery = e.delivery;
  socket_id = e.socket_id;
  event = name;
  body = e.body;
}

-- What was done for some of the channels: the reply's numbers, the effects in order, and whether an
-- exception ended it.
pub record Progress : Type 0 where
  pub world : World
  pub reply : List (Bytes × ℕ)
  pub effects : List Effect
  pub throws : Bool

-- The response's code with the rest of what was done: an exception is answered by OnHttpRequest.
pub record Answer : Type 0 where
  pub code : Bytes
  pub progress : Progress

abbrev pub refused : Bytes → World → Answer
refused code w = record {
  code = code;
  progress = record { world = w; reply = []; effects = []; throws = false };
}

unfoldable pub answer_events : Progress → Answer
answer_events p = record { code = if p.throws then codes "400" else codes "200"; progress = p }

module _ (env : Sessions) (locked : Bool) where
  -- Push through the pointer, which tells the cluster first, and then Cluster->Push.
  unfoldable pub push_registered : Message → Bytes → ℕ → World → Progress
  push_registered m name h w = elim (w.heap h) [
    | none ↦ record { world = w; reply = (name, 0) ∷ []; effects = []; throws = false }
    | some c ↦ elim (push_cluster env locked m c) [
      | none ↦ record { world = w; reply = []; effects = cluster_push m.id ∷ []; throws = true }
      | some (c', es, n) ↦ record {
        world = update_channel h (c', es) w;
        reply = (name, n) ∷ [];
        effects = es ++ cluster_push m.id ∷ [];
        throws = false;
      }
    ]
  ]

  unfoldable pub push_name : Message → Bytes → Bytes → World → Progress
  push_name m app name w = elim (get app name w) [
    | none ↦ record {
      world = w;
      reply = (name, 0) ∷ [];
      effects = cluster_push m.id ∷ [];
      throws = false;
    }
    | some h ↦ push_registered m name h w
  ]

  abbrev pub after : Progress → Progress → Progress
  after p q = record q { reply = p.reply ++ q.reply; effects = p.effects ++ q.effects }

  -- The loop over the channels.
  unfoldable pub push_names : Message → Bytes → List (Option Bytes) → World → Progress
  push_names m app [] w = record { world = w; reply = []; effects = []; throws = false }
  push_names m app (none ∷ ns) w = record { world = w; reply = []; effects = []; throws = true }
  push_names m app (some n ∷ ns) w =
      let p = push_name m app n w in
      let rest = push_names m app ns p.world in if p.throws then p else after p rest

  unfoldable pub post_names : Client → Posted → Bytes → Names → World → Answer
  post_names app e name (names ns) w =
      answer_events (push_names (dup_channel_message name e) app.id ns w)
  post_names app e name _ w = refused (codes "400") w

  -- The event of a message that was read.
  unfoldable pub post_event : Client → Posted → World → Answer
  post_event app e w = elim e.name [
    | none ↦ refused (codes "400") w
    | some name ↦ post_names app e name (channel_names e) w
  ]

  unfoldable pub post_content : (Bytes → Option Posted) → Client → Bytes → World → Answer
  post_content read app [] w = refused (codes "400") w
  post_content read app (c ∷ cs) w = elim (read (c ∷ cs)) [
    | none ↦ refused (codes "400") w
    | some e ↦ post_event app e w
  ]

  -- ApiOnEvents, where `read` is msg::Unserialize.
  unfoldable pub api_on_events :
      (Bytes → Option Posted) → List (Bytes × Client) → Bytes → Bytes → Bytes → World → Answer
  api_on_events read apps id method body w =
      if bytes_eq method (codes "POST")
      then elim (get_app_by_id id apps) [
        | none ↦ refused (codes "403") w
        | some app ↦ post_content read app body w
      ]
      else refused (codes "400") w
