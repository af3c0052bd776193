-- ===== src/Cluster/Relay.antt =====
-- The handlers of what the other nodes announce, on the registry of this node.
pub mod Quiet
use push1st.Prelude.{
  ltb, leb, ap, sym, arith, ◌∙◌, ◌+◌, ◌-◌, ◌*◌, ◌/◌, ◌%◌, ◌^◌, ◌==◌, ◌≡◌, ◌≢◌, ◌≤◌, ◌<◌, ◌&&◌, ◌||◌,
  not, ◌>>=◌, Bool-cases, Option-cases, codes, bytes_eq, if◌then◌else◌, Option, Bytes, Bool, List,
  refl, [], ◌∷◌, none, some, inl, inr, true, false, ℕ, zero, suc, ◌++◌, length, length-append, take,
  drop, map,
}
use push1st.Channel.Kind.{Kind, none_kind, pub_kind, priv_kind, pres_kind, prot_kind}
use push1st.Channel.Message.{Message, absent, make_message}
use push1st.Channel.Defs.{Sessions, Channel, Effect, push}
use push1st.Channel.Presence.{Bodies}
use push1st.Channel.Registry.{World, get, update_channel}

-- A field of a JSON object.
pub data Field : Type 0 where
  lacking no_text : Field
  text_field : Bytes → Field

-- The value of "data".
pub data Value : Type 0 where
  text_value : Bytes → Value
  object_value : Field → Field → Value
  other_value : Value

-- An announcement: an object that has these three keys. The first two are `none` where they are no
-- texts, and of an object the fields "user-id" and "user-info" are kept.
pub record Announcement : Type 0 where
  pub app : Option Bytes
  pub channel : Option Bytes
  pub value : Value

-- What the text of a message is: not JSON, JSON but no object, or an object.
pub data Content : Type 0 where
  invalid no_object : Content
  content : Message → Content

-- json::Unserialize and nlohmann's accessors, on a datagram's payload and on a message's text.
pub record Reader : Type 0 where
  pub announcement : Bytes → Option Announcement
  pub content_of : Bytes → Content

-- What a handler does: the registry after it, the effects of the channel, and whether the module is
-- called.
pub record Relayed : Type 0 where
  pub world : World
  pub effects : List Effect
  pub calls_module : Bool

-- What a presence channel says about an announced member: nothing, an exception, or a message.
pub data Said : Type 0 where
  silent throws : Said
  says : Message → Said

-- The messages of OnClusterJoin and OnClusterLeave, which are the number `id`.
unfoldable pub join_said : Bodies → ℕ → Value → Said
join_said json id (object_value (text_field uid) (text_field info)) = says (
    make_message id (codes "presence") absent (codes "pusher_internal:member_added")
      (json.added uid info))
join_said json id (object_value lacking info) = silent
join_said json id (object_value uid lacking) = silent
join_said json id (object_value uid info) = throws
join_said json id v = silent

unfoldable pub leave_said : Bodies → ℕ → Value → Said
leave_said json id (object_value (text_field uid) info) = says (
    make_message id (codes "presence") absent (codes "pusher_internal:member_removed")
      (json.removed uid))
leave_said json id (object_value no_text info) = throws
leave_said json id v = silent

module _ (env : Sessions) (locked : Bool) where
  -- cchannel::Push through a pointer; `none` is an exception.
  unfoldable pub push_through : Message → ℕ → World → Option Relayed
  push_through m h w = elim (w.heap h) [
    | none ↦ some (record { world = w; effects = []; calls_module = true })
    | some c ↦ push env locked m c >>= (λ (c', es, n).
        some (record { world = update_channel h (c', es) w; effects = es; calls_module = true }))
  ]

  unfoldable pub push_content : Content → ℕ → World → Option Relayed
  push_content invalid h w = some (record { world = w; effects = []; calls_module = false })
  push_content no_object h w = none
  push_content (content m) h w = push_through m h w

  unfoldable pub push_value : Reader → Value → ℕ → World → Option Relayed
  push_value reader (text_value t) h w = push_content (reader.content_of t) h w
  push_value reader (object_value i u) h w =
      some (record { world = w; effects = []; calls_module = false })
  push_value reader other_value h w =
      some (record { world = w; effects = []; calls_module = false })

  unfoldable pub at_channel : (ℕ → World → Option Relayed) → Option ℕ → World → Option Relayed
  at_channel run none w = some (record { world = w; effects = []; calls_module = true })
  at_channel run (some h) w = run h w

  -- The part that OnClusterPush, OnClusterJoin and OnClusterLeave share: what is no announcement is
  -- passed over, an id that is no text throws, and the channel is handled where there is one.
  unfoldable pub announced :
      (Value → ℕ → World → Option Relayed) → Reader → Bytes → World → Option Relayed
  announced run reader payload w = elim (reader.announcement payload) [
    | none ↦ some (record { world = w; effects = []; calls_module = false })
    | some a ↦
        a.app >>= (λ app. a.channel >>= (λ channel. at_channel (run a.value) (get app channel w) w))
  ]

  unfoldable pub on_cluster_push : Reader → Bytes → World → Option Relayed
  on_cluster_push reader payload w = announced (push_value reader) reader payload w

  -- A virtual method through a pointer: only presence channels say anything.
  unfoldable pub say_as : Kind → Said → ℕ → World → Option Relayed
  say_as pres_kind silent h w = some (record { world = w; effects = []; calls_module = true })
  say_as pres_kind throws h w = none
  say_as pres_kind (says m) h w = push_through m h w
  say_as k said h w = some (record { world = w; effects = []; calls_module = true })

  unfoldable pub say_through : Said → ℕ → World → Option Relayed
  say_through said h w = elim (w.heap h) [
    | none ↦ some (record { world = w; effects = []; calls_module = true })
    | some c ↦ say_as c.kind said h w
  ]

  unfoldable pub on_cluster_join : Bodies → ℕ → Reader → Bytes → World → Option Relayed
  on_cluster_join json id reader payload w =
      announced (λ v. say_through (join_said json id v)) reader payload w

  unfoldable pub on_cluster_leave : Bodies → ℕ → Reader → Bytes → World → Option Relayed
  on_cluster_leave json id reader payload w =
      announced (λ v. say_through (leave_said json id v)) reader payload w
