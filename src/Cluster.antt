-- ===== src/Cluster.antt =====
-- source/core/cluster: the nodes of a cluster, and the datagrams by which they tell one another what
-- was pushed and who joined.
pub mod Frame
pub mod Peers
pub mod Receive
pub mod Relay
pub mod Sending
mod Tests
