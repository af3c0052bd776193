-- ===== src/Cluster/Sending.antt =====
-- What ccluster sends, and its clock. Frames are packed from JSON texts that are parameters.
pub mod Activity
pub mod Delivered
use push1st.Prelude.{
  ltb, leb, ap, sym, arith, ◌∙◌, ◌+◌, ◌-◌, ◌*◌, ◌/◌, ◌%◌, ◌^◌, ◌==◌, ◌≡◌, ◌≢◌, ◌≤◌, ◌<◌, ◌&&◌, ◌||◌,
  not, ◌>>=◌, Bool-cases, Option-cases, codes, bytes_eq, if◌then◌else◌, Option, Bytes, Bool, List,
  refl, [], ◌∷◌, none, some, inl, inr, true, false, ℕ, zero, suc, ◌++◌, length, length-append, take,
  drop, map,
}
use Prim.Native.Nat.{bit_and}
use push1st.Channel.Kind.{Kind}
use push1st.Channel.Defs.{Hook, push_hook}
use push1st.Credentials.App.{has_kind}
use push1st.Cluster.Frame.{Op, pack_op, max_frame_size}
use push1st.Cluster.Relay.{Announcement, text_value}
use push1st.Cluster.Peers.{Nodes, update_peer, gc_nodes, send_all}

-- hook_trigger_t
unfoldable pub hook_flag : Hook → ℕ
hook_flag Hook.reg = 1
hook_flag Hook.unreg = 2
hook_flag Hook.join = 4
hook_flag Hook.leave = 8
hook_flag Hook.push_hook = 16

-- `flags & trigger`
unfoldable pub has_hook : ℕ → Hook → Bool
has_hook flags h = not (bit_and flags (hook_flag h) == 0)

-- Pack of a trigger, up to the operation.
unfoldable pub hook_op : Hook → Op
hook_op Hook.reg = Op.reg
hook_op Hook.unreg = Op.unreg
hook_op Hook.join = Op.join
hook_op Hook.leave = Op.leave
hook_op Hook.push_hook = Op.push

-- `clusNodes` is null where the cluster is not enabled; the times are in seconds.
pub record Cluster : Type 0 where
  pub nodes : Option Nodes
  pub ping_interval : ℕ
  pub ping_time : ℕ
  pub gc_time : ℕ
  pub sync : ℕ

-- ccluster::Send: the datagrams with their addresses.
unfoldable pub send_frame : Cluster → Bytes → List (ℕ × Bytes)
send_frame c frame = elim c.nodes [
  | none ↦ []
  | some ns ↦ if leb (length frame) max_frame_size then send_all frame ns else []
]

-- The announcement that Push and Trigger pack: the data is a value of its own, the text that
-- json::Serialize gives.
unfoldable pub announcement_of : Bytes → Bytes → Bytes → Announcement
announcement_of app channel text = record {
  app = some app;
  channel = some channel;
  value = text_value text;
}

-- ccluster::Push, for an application with these channels and hooks.
unfoldable pub push_out : Cluster → ℕ → ℕ → Kind → Bytes → List (ℕ × Bytes)
push_out c channels hooks k packed =
    if has_kind channels k && has_hook hooks Hook.push_hook
    then send_frame c (pack_op Op.push packed)
    else []

-- ccluster::Trigger
unfoldable pub trigger_out : Cluster → Hook → Bytes → List (ℕ × Bytes)
trigger_out c h packed = if has_hook c.sync h then send_frame c (pack_op (hook_op h) packed) else []

-- The ping of Check, whose message is the empty object.
unfoldable pub ping_out : ℕ → Bytes → Cluster → Cluster × List (ℕ × Bytes)
ping_out now empty_object c =
    if leb c.ping_time now
    then (
      record c { ping_time = now + c.ping_interval },
      send_frame (record c { ping_time = now + c.ping_interval }) (pack_op Op.ping empty_object),
    )
    else (c, [])

-- The collection of Check, which a null `clusNodes` and a time of 0 put off.
unfoldable pub collect_nodes : ℕ → Cluster → Cluster
collect_nodes now c = elim c.nodes [
  | none ↦ record c { gc_time = now + c.ping_interval + 10 }
  | some ns ↦
      if c.gc_time == 0
      then record c { gc_time = now + c.ping_interval + 10 }
      else if leb c.gc_time now
      then record c {
        gc_time = now + c.ping_interval + 10;
        nodes = some (gc_nodes now c.ping_interval ns).0;
      }
      else c
]

-- ccluster::Check, with the Check of a list of nodes, which does nothing.
unfoldable pub check : ℕ → Bytes → Cluster → Cluster × List (ℕ × Bytes)
check now empty_object c =
    if c.ping_interval == 0
    then (c, [])
    else let (c', sent) = ping_out now empty_object c in (collect_nodes now c', sent)

-- OnClusterPing, from a sender with this IP and address.
unfoldable pub on_cluster_ping : ℕ → ℕ → ℕ → Cluster → Cluster
on_cluster_ping ip address now c = elim c.nodes [
  | none ↦ c
  | some ns ↦ record c { nodes = some (update_peer ip address now ns) }
]
