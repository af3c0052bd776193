-- ===== src/Cluster/Peers.antt =====
-- cadapter: the nodes by their IP address, in some order.
use push1st.Prelude.{
  ltb, ◌+◌, ◌==◌, if◌then◌else◌, Option, Bytes, List, [], ◌∷◌, none, some, ℕ, suc,
}

-- node_t: the address that frames are sent to, and when the node was last heard of.
pub record Node : Type 0 where
  pub address : ℕ
  pub last_activity : ℕ

abbrev pub Nodes : Type 0
Nodes = List (ℕ × Node)

unfoldable pub node_at : ℕ → Nodes → Option Node
node_at ip [] = none
node_at ip ((i, n) ∷ ns) = if i == ip then some n else node_at ip ns

unfoldable pub set_activity : ℕ → ℕ → Nodes → Nodes
set_activity ip now [] = []
set_activity ip now ((i, n) ∷ ns) =
    if i == ip then (i, record n { last_activity = now }) ∷ ns else (i, n) ∷ set_activity ip now ns

-- UpdatePeer, for an address and its IP.
unfoldable pub update_peer : ℕ → ℕ → ℕ → Nodes → Nodes
update_peer ip address now ns = elim (node_at ip ns) [
  | none ↦ (ip, record { address = address; last_activity = now }) ∷ ns
  | some n ↦ set_activity ip now ns
]

-- cadapter::Gc, with the number of nodes that it deletes.
unfoldable pub gc_nodes : ℕ → ℕ → Nodes → Nodes × ℕ
gc_nodes now interval [] = ([], 0)
gc_nodes now interval ((i, n) ∷ ns) =
    let (left, deleted) = gc_nodes now interval ns in
    if ltb (n.last_activity + interval + 10) now
    then (left, suc deleted)
    else ((i, n) ∷ left, deleted)

-- ProcessPeers with the sends of ccluster::Send, in which an error is only logged.
unfoldable pub send_all : Bytes → Nodes → List (ℕ × Bytes)
send_all frame [] = []
send_all frame ((i, n) ∷ ns) = (n.address, frame) ∷ send_all frame ns
