-- ===== src/Cluster/Sending/Delivered.antt =====
-- From ccluster::Push and Trigger of one node to the handlers of another.
use mathlib.Core.Path.{◌≡◌}
use push1st.Prelude.{Bytes, some}
use push1st.Channel.Kind.{Kind}
use push1st.Channel.Message.{Message}
use push1st.Channel.Defs.{Channel}
use push1st.Cluster.Relay.{Announcement, Reader}
use push1st.Cluster.Sending.{Cluster}

-- What the reading of an announcement relies on: the text that the JSON library makes of it is read as
-- the same value again.
pub record IsJson (dump : Announcement → Bytes) (reader : Reader) (a : Announcement) : Type 0 where
  pub reads : reader.announcement (dump a) ≡ some a
