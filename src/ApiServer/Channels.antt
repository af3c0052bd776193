-- ===== src/ApiServer/Channels.antt =====
-- ApiOnChannels: the channels of an application, or the sessions of one.
use mathlib.Core.List.{append_assoc}
use push1st.Prelude.{
  arith, ◌∙◌, ◌≡◌, codes, bytes_eq, if◌then◌else◌, Option, Bytes, Bool, List, refl, [], ◌∷◌, none,
  some, ℕ, ◌++◌, length, keep, starts_with, starts_with-append, bytes_eq_iff,
}
use push1st.Channel.Kind.{Kind}
use push1st.Channel.Table.{find}
use push1st.Channel.Defs.{Sessions, Channel}
use push1st.Channel.Registry.{World, get, channel_uid}
use push1st.ApiServer.Events.{Client, get_app_by_id}

-- What ApiStats and ApiOverview put into JSON; the address of a session that is gone is null.
pub record Stats : Type 0 where
  pub channel : Bytes
  pub kind : Kind
  pub auto_close : Bool
  pub sess_count : ℕ

pub record Overview : Type 0 where
  pub channel : Bytes
  pub kind : Kind
  pub auto_close : Bool
  pub sessions : List (Bytes × Option Bytes)

unfoldable pub api_stats : Channel → Stats
api_stats c = record {
  channel = c.name;
  kind = c.kind;
  auto_close = c.auto_close;
  sess_count = length c.subscribers;
}

-- The loop over the subscribers, where `ip` is what Ip() of a session gives.
unfoldable pub session_ips : Sessions → (ℕ → Bytes) → List (Bytes × ℕ) → List (Bytes × Option Bytes)
session_ips env ip [] = []
session_ips env ip ((sid, h) ∷ t) =
    (sid, (if env.is_alive h then some (ip h) else none)) ∷ session_ips env ip t

unfoldable pub api_overview : Sessions → (ℕ → Bytes) → Channel → Overview
api_overview env ip c = record {
  channel = c.name;
  kind = c.kind;
  auto_close = c.auto_close;
  sessions = session_ips env ip c.subscribers;
}

pub data Listing : Type 0 where
  refused : Bytes → Listing
  stats : List Stats → Listing
  overview : Overview → Listing

-- The filter by the application's id, which compares as many characters as the id has.
unfoldable pub listed : Bytes → World → List (Bytes × ℕ)
listed id w = keep (λ (uid, h). starts_with id uid) w.channels

unfoldable pub all_stats : World → List (Bytes × ℕ) → List Stats
all_stats w [] = []
all_stats w ((uid, h) ∷ t) = elim (w.heap h) [
  | none ↦ all_stats w t
  | some c ↦ api_stats c ∷ all_stats w t
]

unfoldable pub api_on_channels :
    Sessions → (ℕ → Bytes) → List (Bytes × Client) → Bytes → Bytes → Bytes → World → Listing
api_on_channels env ip apps id channel method w =
    if bytes_eq method (codes "GET")
    then elim (get_app_by_id id apps) [
      | none ↦ refused (codes "403")
      | some app ↦ elim channel [
        | [] ↦ stats (all_stats w (listed app.id w))
        | c ∷ cs ↦ elim (get app.id (c ∷ cs) w) [
          | none ↦ refused (codes "404")
          | some h ↦ elim (w.heap h) [
            | none ↦ refused (codes "404")
            | some ch ↦ overview (api_overview env ip ch)
          ]
        ]
      ]
    ]
    else refused (codes "400")

find-keep :
    (id uid : Bytes) (t : List (Bytes × ℕ))
    → find uid (keep (λ (u, h). starts_with id u) t)
      ≡ (if starts_with id uid then find uid t else none)
unfolding find keep
find-keep id uid [] = ground arith
find-keep id uid ((u, h) ∷ t) = ground (arith, find-keep id uid t, bytes_eq_iff u uid)

-- The list of an application's channels: a channel that is registered for any application whose id
-- begins with this one's id, in particular for this one itself, is in the list under the same
-- pointer, and what does not begin with the id is not.
listed_lem :
    (id : Bytes) (w : World)
    → ((more name : Bytes)
        → find (channel_uid (id ++ more) name) (listed id w) ≡ get (id ++ more) name w)
      × ((uid : Bytes)
          → find uid (listed id w) ≡ (if starts_with id uid then find uid w.channels else none))
unfolding listed get channel_uid
listed_lem id w = (
  λ more name.
      find-keep id ((id ++ more) ++ (codes "#" ++ name)) w.channels
      ∙ rw
          (
            append_assoc id more (codes "#" ++ name),
            starts_with-append id (more ++ (codes "#" ++ name)),
          )
          refl,
  λ uid. find-keep id uid w.channels,
)
