-- ===== src/Channel/Users/Joining.antt =====
-- What a subscription with a user id does before it ends.
use push1st.Prelude.{◌≡◌, Bytes, List, Bool, [], ◌∷◌, none, true, false}
use push1st.Channel.Table.{find}
use push1st.Channel.Message.{Message}
use push1st.Channel.Defs.{Channel, Effect, join, trigger, cluster_trigger}
use push1st.Channel.Presence.{Presence}

-- Whether the application or the cluster is told that somebody joins.
abbrev pub tells_join : List Effect → Bool
tells_join [] = false
tells_join (trigger join sid ∷ es) = true
tells_join (cluster_trigger join sid ∷ es) = true
tells_join (_ ∷ es) = tells_join es

-- Nobody is told that somebody joins, and the list of users gets no new session.
abbrev pub IsQuiet : Presence → Presence × List Effect → Type 0
IsQuiet p r =
    (tells_join r.1 ≡ false) × ((sid : Bytes) → find sid p.users ≡ none → find sid r.0.users ≡ none)
