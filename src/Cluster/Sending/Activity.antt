-- ===== src/Cluster/Sending/Activity.antt =====
use push1st.Prelude.{
  All, ltb, leb, ap, arith, ◌∙◌, ◌+◌, ◌==◌, ◌≡◌, ◌≤◌, ==_iff, Bool-cases, Option-cases, Bytes, List,
  refl, [], ◌∷◌, none, some, inl, inr, true, false, ℕ, ◌++◌, length,
}
use mathlib.Core.Option.{some-injective}
use push1st.Cluster.Peers.{Node, Nodes, node_at, set_activity, update_peer, gc_nodes, send_all}
use push1st.Cluster.Frame.{max_frame_size}
use push1st.Cluster.Sending.{send_frame, Cluster, on_cluster_ping, check, collect_nodes, ping_out}

-- What the clock and the other nodes do: a ping that arrives, and a Check.
pub data Event : Type 0 where
  pinged : ℕ → ℕ → ℕ → Event
  checked : ℕ → Event

unfoldable pub happen : Bytes → List Event → Cluster → Cluster
happen empty_object [] c = c
happen empty_object (pinged ip address now ∷ es) c =
    happen empty_object es (on_cluster_ping ip address now c)
happen empty_object (checked now ∷ es) c = happen empty_object es (check now empty_object c).0

-- The events are no earlier than `low`, and the checks no later than `high`.
abbrev pub Within : ℕ → ℕ → Event → Type 0
Within low high (pinged ip address now) = low ≤ now
Within low high (checked now) = now ≤ high

-- The node of this IP, its address, and a time at which it was heard of or before.
abbrev pub IsKnown : ℕ → ℕ → ℕ → Nodes → Type 0
IsKnown ip address since ns =
    (n : Node) × (node_at ip ns ≡ some n) × (n.address ≡ address) × (since ≤ n.last_activity)

set_activity-IsKnown :
    (ip i address since now : ℕ) (ns : Nodes)
    → since ≤ now
    → IsKnown ip address since ns
    → IsKnown ip address since (set_activity i now ns)
unfolding node_at set_activity
set_activity-IsKnown ip i address since now [] l (n, f, a, h) = (n, f, a, h)
set_activity-IsKnown ip i address since now ((j, m) ∷ ns) l (n, f, a, h) =
    elim (Bool-cases (j == ip)) [
      | inl own ↦
          let same : m ≡ n = some-injective m n (rw own at f) in
          elim (Bool-cases (j == i)) [
            | inl t ↦ (
              record m { last_activity = now },
              rw t (rw own refl),
              ap (λ x. x.address) same ∙ a,
              l,
            )
            | inr t ↦ (n, rw t (rw own (ap some same)), a, h)
          ]
      | inr other ↦ elim (Bool-cases (j == i)) [
        | inl t ↦ (n, rw t (rw other (rw other at f)), a, h)
        | inr t ↦
            let (x, g, b, k) =
              set_activity-IsKnown ip i address since now ns l (n, rw other at f, a, h) in
            (x, rw t (rw other g), b, k)
      ]
    ]

update_peer-IsKnown :
    (ip i address other since now : ℕ) (ns : Nodes)
    → since ≤ now
    → IsKnown ip address since ns
    → IsKnown ip address since (update_peer i other now ns)
unfolding update_peer node_at
update_peer-IsKnown ip i address other since now ns l (n, f, a, h) =
    elim (Option-cases (node_at i ns)) [
      | inl e ↦
          let differ : (i == ip) ≡ false = elim (Bool-cases (i == ip)) [
            | inl t ↦ let found = ap (λ j. node_at j ns) ((==_iff i ip).0 t) in cc
            | inr t ↦ t
          ] in
          (n, rw (e, update_peer) (rw differ f), a, h)
      | inr (m, e) ↦
          rw (e, update_peer) (set_activity-IsKnown ip i address since now ns l (n, f, a, h))
    ]

gc_nodes-IsKnown :
    (ip address since now interval : ℕ) (ns : Nodes)
    → now ≤ since + interval + 10
    → IsKnown ip address since ns
    → IsKnown ip address since (gc_nodes now interval ns).0
unfolding gc_nodes node_at
gc_nodes-IsKnown ip address since now interval [] l k = k
gc_nodes-IsKnown ip address since now interval ((i, m) ∷ ns) l (n, f, a, h) =
    elim (Bool-cases (i == ip)) [
      | inl own ↦
          let same : m ≡ n = some-injective m n (rw own at f) in
          let kept : ltb (m.last_activity + interval + 10) now ≡ false =
            ground (arith, ap (λ x. x.last_activity) same) in
          (n, rw kept (rw own (ap some same)), a, h)
      | inr other ↦
          let (x, g, b, k) =
            gc_nodes-IsKnown ip address since now interval ns l (n, rw other at f, a, h) in
          elim (Bool-cases (ltb (m.last_activity + interval + 10) now)) [
            | inl t ↦ (x, rw t g, b, k)
            | inr t ↦ (x, rw t (rw other g), b, k)
          ]
    ]

-- A cluster that is enabled and knows the node, with this interval of its pings.
abbrev pub KnownBy : ℕ → ℕ → ℕ → ℕ → Cluster → Type 0
KnownBy ip address since interval c =
    (c.ping_interval ≡ interval)
    × ((ns : Nodes) × (c.nodes ≡ some ns) × IsKnown ip address since ns)

collect_nodes-KnownBy :
    (ip address since interval now : ℕ) (c : Cluster)
    → now ≤ since + interval + 10
    → KnownBy ip address since interval c
    → KnownBy ip address since interval (collect_nodes now c)
unfolding collect_nodes
collect_nodes-KnownBy ip address since interval now c l (i, (ns, e, k)) =
    let left = gc_nodes-IsKnown ip address since now c.ping_interval ns (omega arith) k in
    elim (Bool-cases (c.gc_time == 0)) [
      | inl t ↦ rw e (rw t (i, (ns, refl, k)))
      | inr t ↦ elim (Bool-cases (leb c.gc_time now)) [
        | inl u ↦ rw e (rw t (rw u (i, ((gc_nodes now c.ping_interval ns).0, refl, left))))
        | inr u ↦ rw e (rw t (rw u (i, (ns, refl, k))))
      ]
    ]

check-KnownBy :
    (empty_object : Bytes) (ip address since interval now : ℕ) (c : Cluster)
    → now ≤ since + interval + 10
    → KnownBy ip address since interval c
    → KnownBy ip address since interval (check now empty_object c).0
unfolding check ping_out
check-KnownBy empty_object ip address since interval now c l k =
    elim (Bool-cases (c.ping_interval == 0)) [
      | inl t ↦ rw t k
      | inr t ↦ elim (Bool-cases (leb c.ping_time now)) [
        | inl u ↦ rw t (
            rw u (
              collect_nodes-KnownBy ip address since interval now
                (record c { ping_time = now + c.ping_interval }) l k))
        | inr u ↦ rw t (rw u (collect_nodes-KnownBy ip address since interval now c l k))
      ]
    ]

happen-KnownBy :
    (empty_object : Bytes) (ip address since interval : ℕ) (es : List Event) (c : Cluster)
    → All (Within since (since + interval + 10)) es
    → KnownBy ip address since interval c
    → KnownBy ip address since interval (happen empty_object es c)
unfolding happen on_cluster_ping
happen-KnownBy empty_object ip address since interval [] c w k = k
happen-KnownBy empty_object ip address since interval (pinged i o now ∷ es) c w (n, (ns, e, k)) =
    happen-KnownBy empty_object ip address since interval es (on_cluster_ping i o now c) w.1 (
      rw (e, on_cluster_ping)
        (n, (update_peer i o now ns, refl, update_peer-IsKnown ip i address o since now ns w.0 k)))
happen-KnownBy empty_object ip address since interval (checked now ∷ es) c w k =
    happen-KnownBy empty_object ip address since interval es (check now empty_object c).0 w.1
      (check-KnownBy empty_object ip address since interval now c w.0 k)

-- Among the sent datagrams is this one.
abbrev pub IsSent : ℕ → Bytes → List (ℕ × Bytes) → Type 0
IsSent address frame sent =
    (before after : List (ℕ × Bytes)) × (sent ≡ before ++ (address, frame) ∷ after)

send_all-IsSent :
    (ip address since : ℕ) (frame : Bytes) (ns : Nodes)
    → IsKnown ip address since ns
    → IsSent address frame (send_all frame ns)
unfolding send_all node_at
send_all-IsSent ip address since frame [] (n, f, a, h) = cc
send_all-IsSent ip address since frame ((i, m) ∷ ns) (n, f, a, h) = elim (Bool-cases (i == ip)) [
  | inl t ↦
      let same : m ≡ n = some-injective m n (rw t at f) in
      (
        [],
        send_all frame ns,
        ap (λ x. (x, frame) ∷ send_all frame ns) (ap (λ x. x.address) same ∙ a),
      )
  | inr t ↦
      let (before, after, e) = send_all-IsSent ip address since frame ns (n, rw t at f, a, h) in
      ((m.address, frame) ∷ before, after, ap (λ l. (m.address, frame) ∷ l) e)
]

-- A node that this one did not know pings at the time `since`. From then on, whatever nodes ping at
-- that time or later and however often the cluster is checked up to the ping interval and 10 seconds
-- after it, every frame of at most 65400 bytes is sent to it.
pub happen-on_cluster_ping :
    (empty_object frame : Bytes) (ip address since : ℕ) (es : List Event) (c : Cluster) (ns : Nodes)
    → c.nodes ≡ some ns
    → node_at ip ns ≡ none
    → All (Within since (since + c.ping_interval + 10)) es
    → length frame ≤ max_frame_size
    → IsSent address frame
        (send_frame (happen empty_object es (on_cluster_ping ip address since c)) frame)
unfolding on_cluster_ping send_frame update_peer node_at
happen-on_cluster_ping empty_object frame ip address since es c ns e unknown w short =
    let entered : KnownBy ip address since c.ping_interval (on_cluster_ping ip address since c) =
      rw (e, on_cluster_ping)
        (rw (unknown, update_peer)
          (
            refl,
            (
              _,
              refl,
              (
                record { address = address; last_activity = since },
                ground arith,
                refl,
                omega arith,
              ),
            ),
          )) in
    let (n, (ns', e', k)) =
      happen-KnownBy empty_object ip address since c.ping_interval es
        (on_cluster_ping ip address since c) w entered in
    let fits : leb (length frame) max_frame_size ≡ true = ground arith in
    rw (e', send_frame) (rw fits (send_all-IsSent ip address since frame ns' k))
