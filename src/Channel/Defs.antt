-- ===== src/Channel/Defs.antt =====
-- cchannel: the subscribers, and Push, UnSubscribe, Subscribe and Gc. A weak pointer is the number
-- of its session; what the session answers is the record `Sessions`.
use push1st.Prelude.{
  ℕ, Bool, true, false, not, ◌&&◌, List, [], ◌∷◌, ◌++◌, Option, none, some, Bytes, bytes_eq, codes,
  starts_with, length, ◌==◌, if◌then◌else◌, ◌>>=◌,
}
use push1st.Channel.Kind.{Kind}
use push1st.Channel.Table.{find, emplace, erase}
use push1st.Channel.Message.{
  Message, Delivery, broadcast, multicast, unicast, SocketId, is_present, as_string, delivery_of,
}

-- What the session behind a weak pointer does now: whether it is still there, its Id(), the result
-- of its Push (0 for success) and of its IsConnected.
pub record Sessions : Type 0 where
  pub is_alive : ℕ → Bool
  pub id : ℕ → Bytes
  pub push : ℕ → ℕ
  pub is_connected : ℕ → Bool

-- hook_t::type
pub data Hook : Type 0 where
  reg unreg join leave push_hook : Hook

-- What a channel does outside itself, in order.
pub data Effect : Type 0 where
  deliver : ℕ → Effect
  unregister : Bytes → Effect
  trigger : Hook → Bytes → Effect
  cluster_trigger : Hook → Bytes → Effect
  cluster_push : ℕ → Effect
  disconnect : ℕ → Effect

abbrev pub Subscribers : Type 0
Subscribers = List (Bytes × ℕ)

pub record Channel : Type 0 where
  pub kind : Kind
  pub auto_close : Bool
  pub uid : Bytes
  pub name : Bytes
  pub subscribers : Subscribers

-- The targets of a message, and the subscribers left.
abbrev pub Selection : Type 0
Selection = List ℕ × Subscribers

module _ (env : Sessions) where
  -- The loops of Push over the subscribers. In a broadcast the ones that the test rejects are
  -- passed over; the others are targets, or erased if they are gone.
  unfoldable pub select_broadcast : (Bytes → Bool) → Subscribers → Selection
  select_broadcast wanted [] = ([], [])
  select_broadcast wanted ((sid, h) ∷ t) =
      let (to, left) = select_broadcast wanted t in
      if wanted sid
      then if env.is_alive h then (h ∷ to, (sid, h) ∷ left) else (to, left)
      else (to, (sid, h) ∷ left)

  -- In a multicast all that are gone are erased, and those with the prefix are targets.
  unfoldable pub select_multicast : Bytes → Subscribers → Selection
  select_multicast prefix [] = ([], [])
  select_multicast prefix ((sid, h) ∷ t) =
      let (to, left) = select_multicast prefix t in
      if env.is_alive h
      then ((if starts_with prefix sid then h ∷ to else to), (sid, h) ∷ left)
      else (to, left)

  unfoldable pub select_unicast : Bytes → Subscribers → Selection
  select_unicast sid t = elim (find sid t) [
    | none ↦ ([], t)
    | some h ↦ if env.is_alive h then (h ∷ [], t) else ([], erase sid t)
  ]

  -- The three deliveries; `none` is the exception of the conversion of "socket_id".
  unfoldable pub select : Bytes → SocketId → Delivery → Subscribers → Option Selection
  select from socket broadcast t =
      if is_present socket
      then as_string socket >>= (λ session.
        some (select_broadcast (λ sid. not (bytes_eq sid from) && not (bytes_eq sid session)) t))
      else some (select_broadcast (λ sid. not (bytes_eq sid from)) t)
  select from socket multicast t =
      if is_present socket
      then as_string socket >>= (λ session. some (select_multicast (session ++ codes ".") t))
      else some ([], t)
  select from socket unicast t =
      if is_present socket
      then as_string socket >>= (λ session. some (select_unicast session t))
      else some ([], t)

  -- UnRegister where the last subscriber is gone.
  unfoldable pub close_if_empty : Channel → List Effect
  close_if_empty c =
      if (length c.subscribers == 0) && c.auto_close then unregister c.uid ∷ [] else []

  -- UnSubscribe of the public and private channels, where `locked` says whether try_lock succeeds.
  unfoldable pub unsubscribe : Bool → Bytes → Channel → Channel × List Effect
  unsubscribe true sid c =
      let c' = record c { subscribers = erase sid c.subscribers } in
      (c', close_if_empty c' ++ (trigger leave sid ∷ cluster_trigger leave sid ∷ []))
  unsubscribe false sid c = (c, trigger leave sid ∷ cluster_trigger leave sid ∷ [])

  unfoldable pub subscribe : ℕ → Channel → Channel × List Effect
  subscribe h c = (
    record c { subscribers = emplace (env.id h) h c.subscribers },
    trigger join (env.id h) ∷ cluster_trigger join (env.id h) ∷ [],
  )

  -- One delivery: a session that fails to take the message is unsubscribed.
  unfoldable pub attempt : Bool → ℕ → Channel → Channel × List Effect
  attempt locked h c = if env.push h == 0 then (c, []) else unsubscribe locked (env.id h) c

  -- The deliveries, each failed one followed by an UnSubscribe.
  unfoldable pub deliver_all : Bool → List ℕ → Channel → Channel × List Effect
  deliver_all locked [] c = (c, [])
  deliver_all locked (h ∷ hs) c =
      let (c₁, es₁) = attempt locked h c in
      let (c₂, es₂) = deliver_all locked hs c₁ in (c₂, deliver h ∷ (es₁ ++ es₂))

  -- cchannel::Push: the channel after it, its effects, and the number of targets.
  unfoldable pub push : Bool → Message → Channel → Option (Channel × List Effect × ℕ)
  push locked m c = do
    (to, left) ← select m.from m.socket_id (delivery_of m.delivery) c.subscribers
    let (c', es) = deliver_all locked to (record c { subscribers = left })
    some (c', es ++ close_if_empty c', length to)

  -- Push of the public and private channels tells the cluster first.
  unfoldable pub push_cluster : Bool → Message → Channel → Option (Channel × List Effect × ℕ)
  push_cluster locked m c = do (c', es, n) ← push locked m c; some (c', cluster_push m.id ∷ es, n)

  -- The loop of Gc: who is no longer connected, and the subscribers left.
  unfoldable pub gc_loop : Subscribers → Selection
  gc_loop [] = ([], [])
  gc_loop ((sid, h) ∷ t) =
      let (gone, left) = gc_loop t in
      if env.is_alive h
      then if env.is_connected h then (gone, (sid, h) ∷ left) else (h ∷ gone, left)
      else (gone, left)

  unfoldable pub disconnects : List ℕ → List Effect
  disconnects [] = []
  disconnects (h ∷ hs) = disconnect h ∷ disconnects hs

  -- cchannel::Gc, with its result.
  unfoldable pub gc : Bool → Channel → Channel × List Effect × ℕ
  gc true c =
      let (gone, left) = gc_loop c.subscribers in
      let c' = record c { subscribers = left } in
      (c', close_if_empty c' ++ disconnects gone, length left)
  gc false c = (c, [], 1)
