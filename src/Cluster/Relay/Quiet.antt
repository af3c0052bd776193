-- ===== src/Cluster/Relay/Quiet.antt =====
use push1st.Prelude.{◌≡◌, Option, Bool, List, [], ◌∷◌, true, false}
use push1st.Channel.Kind.{Kind}
use push1st.Channel.Message.{Message}
use push1st.Channel.Defs.{Effect, cluster_push}
use push1st.Channel.Registry.{World}
use push1st.Channel.Registry.Laws.{IsConsistent}
use push1st.Cluster.Relay.{Relayed}

-- Whether the cluster is told of a push.
abbrev pub tells_cluster : List Effect → Bool
tells_cluster [] = false
tells_cluster (cluster_push m ∷ es) = true
tells_cluster (_ ∷ es) = tells_cluster es

-- A handler keeps the registry in agreement with the channels and tells the cluster of no push.
abbrev pub IsSafe : World → Relayed → Type 0
IsSafe w r = (IsConsistent r.world) × (tells_cluster r.effects ≡ false)
