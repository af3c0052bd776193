-- ===== src/Channel/Registry/Idle/Kept.antt =====
-- What a round of the idle loop leaves, and which channel it forgets.
use push1st.Prelude.{◌++◌, ◌&&◌, ◌≡◌, Bytes, List, [], ◌∷◌, some, true, ℕ}
use push1st.Channel.Table.{find}
use push1st.Channel.Defs.{Sessions, Channel}
use push1st.Channel.Registry.{World}
use push1st.Channel.Registry.Idle.{Round}

module _ (env : Sessions) where
  -- What a round leaves of the object g: every session that lives and is connected stays.
  abbrev pub Keeps : ℕ → World → World → Type 0
  Keeps g w v =
      (c : Channel)
      → w.heap g ≡ some c
      → (c' : Channel) × (v.heap g ≡ some c')
        × ((sid : Bytes) (k : ℕ)
            → find sid c.subscribers ≡ some k
            → (env.is_alive k && env.is_connected k) ≡ true
            → find sid c'.subscribers ≡ some k)

  -- The id that a round unregisters is that of a channel of the list that nobody is left in.
  abbrev pub Emptied : List (Bytes × ℕ) → Round → Type 0
  Emptied t r =
      (uid : Bytes)
      → r.closed ≡ some uid
      → (h : ℕ) × (c : Channel) × (before after : List (Bytes × ℕ)) × (t
          ≡ before ++ (uid, h) ∷ after)
        × (r.world.heap h ≡ some c)
        × (c.subscribers ≡ [])
