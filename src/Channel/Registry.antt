-- ===== src/Channel/Registry.antt =====
-- cchannels: the channels of all applications by their unique id. A shared pointer is the number of
-- a channel on a heap; objects are not freed.
pub mod Laws
pub mod Idle
pub mod Push
use mathlib.Core.List.{append_assoc}
use push1st.Prelude.{
  ℕ, suc, ◌+◌, ◌<◌, ◌≤◌, ◌≡◌, ◌≢◌, refl, Bool, true, false, List, [], ◌∷◌, ◌++◌, Option, none, some,
  arith, Bytes, bytes_eq, bytes_eq_iff, codes, ◌==◌, if◌then◌else◌, ◌>>=◌, Option-cases, inl, inr,
}
use push1st.Channel.Kind.{Kind, none_kind, pub_kind, priv_kind, pres_kind, prot_kind}
use push1st.Channel.Table.{find, emplace, erase, find-emplace, find-erase}
use push1st.Channel.Message.{Message}
use push1st.Channel.Defs.{
  Sessions, Channel, Effect, deliver, unregister, trigger, cluster_trigger, cluster_push,
  disconnect, Hook, reg, push, subscribe, unsubscribe, gc,
}

pub record World : Type 0 where
  pub channels : List (Bytes × ℕ)
  pub heap : ℕ → Option Channel
  pub next : ℕ

-- `app->Id + "#" + name`
unfoldable pub channel_uid : Bytes → Bytes → Bytes
channel_uid app name = app ++ (codes "#" ++ name)

-- The type of the object that Register makes: the constructors fix it, and a protected channel is a
-- cprivatechannel.
unfoldable pub made_kind : Kind → Option Kind
made_kind pub_kind = some pub_kind
made_kind prot_kind = some priv_kind
made_kind priv_kind = some priv_kind
made_kind pres_kind = some pres_kind
made_kind none_kind = none

unfoldable pub new_channel : Kind → Bytes → Bytes → Channel
new_channel k uid name = record {
  kind = k;
  auto_close = true;
  uid = uid;
  name = name;
  subscribers = [];
}

unfoldable pub write : ℕ → Channel → (ℕ → Option Channel) → ℕ → Option Channel
write h c heap j = if j == h then some c else heap j

unfoldable pub add_channel : Kind → Bytes → Bytes → World → World × Option ℕ
add_channel k uid name w = (
  record {
    channels = emplace uid w.next w.channels;
    heap = write w.next (new_channel k uid name) w.heap;
    next = suc w.next;
  },
  some w.next,
)

-- cchannels::Register
unfoldable pub register : Kind → Bytes → Bytes → World → World × Option ℕ
register k app name w = elim (find (channel_uid app name) w.channels) [
  | some h ↦ (w, some h)
  | none ↦ elim (made_kind k) [
    | none ↦ (w, none)
    | some made ↦ add_channel made (channel_uid app name) name w
  ]
]

-- cchannels::Get
unfoldable pub get : Bytes → Bytes → World → Option ℕ
get app name w = find (channel_uid app name) w.channels

-- cchannels::UnRegister
unfoldable pub unregister_uid : Bytes → World → World
unregister_uid uid w = record w { channels = erase uid w.channels }

-- What the effects of a channel do to the registry.
unfoldable pub apply_effects : List Effect → World → World
apply_effects [] w = w
apply_effects (unregister u ∷ es) w = apply_effects es (unregister_uid u w)
apply_effects (_ ∷ es) w = apply_effects es w

-- A method of the channel behind a pointer: its new state is stored and its effects are applied.
unfoldable pub update_channel : ℕ → Channel × List Effect → World → World
update_channel h (c, es) w = apply_effects es (record w { heap = write h c w.heap })

-- Push through a shared pointer, with the UnSubscribe of the public and private channels; an
-- exception or a missing object changes nothing.
unfoldable pub push_at : Sessions → Bool → Message → ℕ → World → World
push_at env locked m h w = elim (w.heap h) [
  | none ↦ w
  | some c ↦ elim (push env locked m c) [
    | none ↦ w
    | some (c', es, n) ↦ update_channel h (c', es) w
  ]
]
