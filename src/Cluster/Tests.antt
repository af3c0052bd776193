-- ===== src/Cluster/Tests.antt =====
-- Runs of two nodes, and the theorems at concrete inputs.
use push1st.Prelude.{
  codes, bytes_eq, arith, ◌==◌, ◌≡◌, ◌≢◌, Option, Bytes, Bool, List, refl, [], ◌∷◌, none, some,
  true, ℕ, ◌++◌, length, take, drop, starts_with, if◌then◌else◌,
}
use push1st.Channel.Kind.{pub_kind}
use push1st.Channel.Table.{find, emplace, erase}
use push1st.Channel.Message.{Message, absent, is_present, as_string, delivery_of}
use push1st.Channel.Defs.{
  Sessions, Channel, push, select, select_broadcast, select_multicast, select_unicast,
  close_if_empty, unsubscribe, attempt, deliver_all,
}
use push1st.Channel.Presence.{Bodies}
use push1st.Channel.Registry.{
  World, channel_uid, get, write, push_at, update_channel, apply_effects, unregister_uid,
}
use push1st.Inet.Socket.{Received, got, read_error}
use push1st.Cluster.Frame.{Op, pack_op, op_code}
use push1st.Cluster.Peers.{Node, node_at, send_all}
use push1st.Cluster.Receive.{Handled, on_udp_data, IsDatagrams, on_udp_data-pack_op}
use push1st.Cluster.Relay.{
  Value, Reader, Announcement, text_value, content, no_object, on_cluster_push, announced,
  at_channel, push_value, push_content, push_through,
}
use push1st.Cluster.Sending.{Cluster, push_out, send_frame, on_cluster_ping, hook_flag, has_hook}
use push1st.Cluster.Sending.Activity.{pinged, checked, happen, IsSent, happen-on_cluster_ping}
use push1st.Credentials.App.{has_kind}

abbrev Queue : Type 0
Queue = List (ℕ × Bytes)

abbrev peek : Queue → ℕ → Received × (ℕ × Queue)
peek [] n = (read_error 11, (0, []))
peek ((a, d) ∷ q) n = (got (take n d), (a, (a, d) ∷ q))

abbrev receive : Queue → ℕ → Received × (ℕ × Queue)
receive [] n = (read_error 11, (0, []))
receive ((a, d) ∷ q) n = (got (take n d), (a, q))

queue-IsDatagrams : IsDatagrams peek receive (λ k. k)
queue-IsDatagrams = record {
  peeks = λ k n a d q e l. (rw e refl, rw e refl, rw e refl);
  takes = λ k n a d q e l. (rw e refl, rw e refl, rw e refl);
}

-- A text for three parts: the first two after their lengths.
abbrev written : Bytes → Bytes → Bytes → Bytes
written app channel text = length app ∷ (app ++ length channel ∷ (channel ++ text))

abbrev dump_text : Bytes → Bytes → Value → Bytes
dump_text app channel (text_value t) = written app channel t
dump_text app channel v = []

abbrev dump : Announcement → Bytes
dump a = elim a.app [
  | none ↦ []
  | some app ↦ elim a.channel [ none ↦ [] | some channel ↦ dump_text app channel a.value ]
]

abbrev read_channel : Bytes → Bytes → Option Announcement
read_channel app [] = none
read_channel app (n ∷ d) =
    some (record { app = some app; channel = some (take n d); value = text_value (drop n d) })

abbrev read_announcement : Bytes → Option Announcement
read_announcement [] = none
read_announcement (n ∷ d) = read_channel (take n d) (drop n d)

abbrev hello : Message
hello = record {
  id = 7;
  from = codes "x";
  delivery = codes "broadcast";
  socket_id = absent;
  event = codes "hi";
  body = [];
}

abbrev reader : Reader
reader = record { announcement = read_announcement; content_of = λ t. content hello }

abbrev env : Sessions
env = record {
  is_alive = λ h. true;
  id = λ h. codes "a.1";
  push = λ h. 0;
  is_connected = λ h. true;
}

abbrev room : Channel
room = record {
  kind = pub_kind;
  auto_close = true;
  uid = codes "app#room";
  name = codes "room";
  subscribers = (codes "a.1", 1) ∷ [];
}

abbrev world : World
world = record {
  channels = (codes "app#room", 0) ∷ [];
  heap = λ h. if h == 0 then some room else none;
  next = 1;
}

abbrev empty_world : World
empty_world = record { channels = []; heap = λ h. none; next = 0 }

abbrev other : Node
other = record { address = 20; last_activity = 0 }

abbrev cluster : Cluster
cluster = record {
  nodes = some ((2, other) ∷ []);
  ping_interval = 30;
  ping_time = 0;
  gc_time = 0;
  sync = 31;
}

abbrev text : Bytes
text = written (codes "app") (codes "room") (codes "hello")

abbrev frame : Bytes
frame = 102 ∷ 14 ∷ 0 ∷ text

program : Bool
unfolding find emplace erase delivery_of is_present as_string push select select_broadcast
    select_multicast select_unicast close_if_empty unsubscribe attempt deliver_all channel_uid get
    write push_at update_channel apply_effects unregister_uid bytes_eq starts_with pack_op op_code
    send_all node_at push_out send_frame hook_flag has_hook has_kind on_cluster_push announced
    at_channel push_value push_content push_through
program = true

packed : pack_op Op.push text ≡ frame
unfolding program
packed = refl

-- A text in the place of the application's id throws.
no_text : Reader
no_text = record {
  announcement = λ d. some (record { app = none; channel = none; value = text_value [] });
  content_of = λ t. no_object;
}

app_throws : on_cluster_push env true no_text [] world ≡ none
unfolding program no_text
app_throws = refl

push-ne-noop : Op.push ≢ Op.noop
push-ne-noop = cc

on_udp_data-pack_op_example :
    (h : Handled Queue) × (on_udp_data peek receive 0 2 0 ((9, pack_op Op.push text) ∷ []) ≡ some h)
    × (h.code ≡ 0)
    × (h.call ≡ some (Op.push, 9, text))
    × (h.system ≡ [])
on_udp_data-pack_op_example =
    on_udp_data-pack_op queue-IsDatagrams 9 0 0 [] 0 ((9, pack_op Op.push text) ∷ []) Op.push text
      push-ne-noop refl (omega arith)

happen-on_cluster_ping_example : IsSent 30 frame (
    send_frame
      (happen [] (pinged 2 20 110 ∷ checked 140 ∷ []) (on_cluster_ping 3 30 100 cluster))
      frame)
unfolding node_at
happen-on_cluster_ping_example =
    happen-on_cluster_ping [] frame 3 30 100 (pinged 2 20 110 ∷ checked 140 ∷ []) cluster
      ((2, other) ∷ []) refl refl (omega arith, (omega arith, tt)) (omega arith)

abbrev bodies : Bodies
bodies = record { added = λ u i. u; removed = λ u. u; listed = λ l. [] }
