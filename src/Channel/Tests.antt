-- ===== src/Channel/Tests.antt =====
-- Runs of the channels, and the theorems at concrete inputs.
use mathlib.Core.Path.{subst}
use mathlib.Core.Option.{some-injective}
use push1st.Prelude.{
  Bytes, Bool-cases, bytes_eq_iff, inl, inr, arith, ℕ, ◌≡◌, refl, Bool, true, not, ◌&&◌, List, [],
  ◌∷◌, none, some, bytes_eq, codes, starts_with, length, ◌==◌, if◌then◌else◌, keep,
}
use push1st.Channel.Kind.{channel_type, pub_kind, priv_kind, pres_kind, prot_kind}
use push1st.Channel.Table.{find, emplace, erase, HasDistinctKeys}
use push1st.Channel.Message.{Message, absent, is_present, as_string, delivery_of}
use push1st.Channel.Defs.{
  Sessions, Channel, Effect, deliver, trigger, cluster_trigger, leave, push, select,
  select_broadcast, select_multicast, select_unicast, close_if_empty, unsubscribe, subscribe,
  attempt, deliver_all, gc, gc_loop, disconnects,
}
use push1st.Channel.Routing.{recipients, deliveries, push_delivers}
use push1st.Channel.Members.{find-push, fails}
use push1st.Channel.Presence.{Bodies, Presence, subscribe_user, get_users, step, start, subscribed}
use push1st.Channel.Users.{get_users-Reach}
use push1st.Channel.Closing.{unregisters, is_closed, unregisters_iff_closed}
use push1st.Channel.Registry.{
  World, channel_uid, register, get, made_kind, add_channel, new_channel, write, push_at,
  update_channel, apply_effects, unregister_uid,
}
use push1st.Channel.Registry.Laws.{IsConsistent, register-IsConsistent}
use push1st.Channel.Registry.Idle.{on_idle}
use push1st.Channel.Registry.Push.{removes, find-push_at, push_at_lem}

program : Bool
unfolding channel_type find emplace erase delivery_of is_present as_string push select
    select_broadcast select_multicast select_unicast close_if_empty unsubscribe subscribe attempt
    deliver_all gc gc_loop disconnects channel_uid register get made_kind add_channel new_channel
    write push_at update_channel apply_effects unregister_uid keep bytes_eq starts_with
program = true

kinds :
    (channel_type (codes "private-x") ≡ priv_kind)
    × (channel_type (codes "presence-x") ≡ pres_kind)
    × (channel_type (codes "protected-x") ≡ prot_kind)
    × (channel_type (codes "privat") ≡ pub_kind)
unfolding program
kinds = (refl, refl, refl, refl)

-- Sessions 1 to 4: the third is gone, and the second fails to take messages.
abbrev env : Sessions
env = record {
  is_alive = λ h. not (h == 3);
  id = λ h. if h == 1 then codes "a.1" else if h == 2 then codes "a.2" else codes "b.1";
  push = λ h. if h == 2 then 32 else 0;
  is_connected = λ h. h == 1;
}

abbrev room : Channel
room = record {
  kind = pub_kind;
  auto_close = true;
  uid = codes "app#room";
  name = codes "room";
  subscribers = (codes "a.1", 1) ∷ (codes "a.2", 2) ∷ (codes "b.1", 3) ∷ [];
}

abbrev room-HasDistinctKeys : HasDistinctKeys room.subscribers
unfolding find bytes_eq
room-HasDistinctKeys = (refl, (refl, (refl, tt)))

abbrev hello : Message
hello = record {
  id = 7;
  from = codes "a.1";
  delivery = codes "broadcast";
  socket_id = absent;
  event = codes "hi";
  body = [];
}

abbrev left : Channel
left = record room { subscribers = (codes "a.1", 1) ∷ [] }

abbrev effects : List Effect
effects = deliver 2 ∷ trigger leave (codes "a.2") ∷ cluster_trigger leave (codes "a.2") ∷ []

pushed : push env true hello room ≡ some (left, effects, 1)
unfolding program
pushed = refl

push_delivers_example :
    (deliveries effects ≡ recipients env hello room.subscribers)
    × (◌≡◌ {A = ℕ} 1 (length (recipients env hello room.subscribers)))
push_delivers_example = push_delivers env true hello room left effects 1 room-HasDistinctKeys pushed

find-push_example : find (codes "a.1") left.subscribers ≡ (
    if true && fails env (codes "a.1") (recipients env hello room.subscribers)
    then none
    else some 1)
unfolding program
find-push_example =
    find-push env true hello room left effects 1 (codes "a.1") 1 room-HasDistinctKeys pushed refl
      refl

unregisters_iff_closed_example :
    unregisters (unsubscribe env true (codes "a.1") left).1
    ≡ is_closed (unsubscribe env true (codes "a.1") left).0
unregisters_iff_closed_example = (unregisters_iff_closed env left).0 (codes "a.1")

abbrev first_world : World
first_world = record { channels = []; heap = λ h. none; next = 0 }

first_world-IsConsistent : IsConsistent first_world
unfolding find
first_world-IsConsistent = record { points = λ uid h e. cc; fresh = λ h l. refl }

abbrev busy : World
busy = record {
  channels = (codes "app#room", 0) ∷ [];
  heap = λ h. if h == 0 then some room else none;
  next = 1;
}

register-IsConsistent_example :
    IsConsistent (register pub_kind (codes "app") (codes "room") first_world).0
register-IsConsistent_example =
    register-IsConsistent pub_kind (codes "app") (codes "room") first_world first_world-IsConsistent

find-push_at_example :
    find (codes "app#room") (push_at env true hello 0 busy).channels
    ≡ (elim (push env true hello room) [
      | none ↦ find (codes "app#room") busy.channels
      | some (c', es, n) ↦
          if is_closed c' && bytes_eq (codes "app#room") (codes "app#room")
          then none
          else find (codes "app#room") busy.channels
    ])
find-push_at_example = find-push_at env true hello 0 busy room refl (codes "app#room")

-- Two sessions take the message, and the second fails.
busy-IsConsistent : IsConsistent busy
unfolding find
busy-IsConsistent = record {
  points = λ u h f. elim (Bool-cases (bytes_eq (codes "app#room") u)) [
    | inl t ↦
        let same : 0 ≡ h = some-injective 0 h (rw t at f) in
        (
          room,
          subst (λ i. busy.heap i ≡ some room) same refl,
          (bytes_eq_iff (codes "app#room") u).0 t,
        )
    | inr t ↦ cc (rw t at f)
  ];
  fresh = λ g l. ground arith;
}

push_at_lem_example :
    (c' : Channel) × ((j : ℕ) → (push_at env true hello 0 busy).heap j ≡ write 0 c' busy.heap j)
    × ((sid : Bytes) (g : ℕ)
        → find sid room.subscribers ≡ some g
        → env.is_alive g ≡ true
        → find sid c'.subscribers ≡ (if removes env true hello room sid then none else some g))
push_at_lem_example =
    (push_at_lem env true hello 0 busy room busy-IsConsistent room-HasDistinctKeys refl).1

abbrev bodies : Bodies
bodies = record { added = λ uid info. uid; removed = λ uid. uid; listed = λ users. [] }

abbrev lobby : Presence
lobby = record { channel = room; users = [] }

get_users-Reach_example :
    get_users (subscribe_user env bodies true true 7 4 (codes "u") [] lobby).state.users ≡ []
get_users-Reach_example =
    get_users-Reach env bodies lobby
      (subscribe_user env bodies true true 7 4 (codes "u") [] lobby).state refl
      (step lobby _ start (subscribed true true 7 4 (codes "u") [] lobby))

-- A round over two channels, of which the second has nobody.
abbrev empty_room : Channel
empty_room = record room { uid = codes "app#empty"; subscribers = [] }

abbrev two_rooms : World
two_rooms = record {
  channels = (codes "app#room", 0) ∷ (codes "app#empty", 1) ∷ [];
  heap = λ h. if h == 0 then some room else if h == 1 then some empty_room else none;
  next = 2;
}

idle_round :
    ((on_idle env true two_rooms.channels two_rooms).closed ≡ some (codes "app#empty"))
    × ((on_idle env true two_rooms.channels two_rooms).world.channels ≡ (codes "app#room", 0) ∷ [])
unfolding program on_idle
idle_round = (refl, refl)
