-- ===== src/Channel/Routing.antt =====
-- Who gets a message.
use mathlib.Core.List.{append-nil}
use push1st.Prelude.{
  ◌↔◌, ◌∙◌, keep-keep, ◌||◌, ℕ, ◌≡◌, refl, ap, Bool, true, false, not, ◌&&◌, List, [], ◌∷◌, ◌++◌,
  map, none, some, arith, Bytes, bytes_eq, bytes_eq_iff, codes, starts_with, length, if◌then◌else◌,
  keep, keep-cong, Option-cases, inl, inr,
}
use mathlib.Core.Path.{sym, subst}
use mathlib.Core.Option.{some-injective}
use push1st.Channel.Table.{
  keep-HasDistinctKeys, erase-HasDistinctKeys, find, erase, HasDistinctKeys,
}
use push1st.Channel.Message.{
  Message, Delivery, broadcast, multicast, unicast, SocketId, text, array, is_present, as_string,
  delivery_of,
}
use push1st.Channel.Defs.{
  attempt, Sessions, Channel, Effect, deliver, unregister, trigger, cluster_trigger, cluster_push,
  disconnect, Subscribers, Selection, select_broadcast, select_multicast, select_unicast, select,
  close_if_empty, unsubscribe, deliver_all, push,
}

-- Whether a message is meant for the session `sid`: a broadcast for all but its sender and the
-- session it names, a multicast for the sessions named with the prefix, a unicast for one session.
abbrev pub names : (Bytes → Bool) → SocketId → Bool
names test (text s) = test s
names test _ = false

abbrev pub addressed_by : Bytes → SocketId → Delivery → Bytes → Bool
addressed_by from socket broadcast sid =
    not (bytes_eq sid from) && not (names (bytes_eq sid) socket)
addressed_by from socket multicast sid = names (λ s. starts_with (s ++ codes ".") sid) socket
addressed_by from socket unicast sid = names (bytes_eq sid) socket

abbrev pub addressed : Message → Bytes → Bool
addressed m sid = addressed_by m.from m.socket_id (delivery_of m.delivery) sid

-- The exception of the conversion: exactly where "socket_id" is an array that is not empty.
abbrev pub Throws : SocketId → Type 0
Throws (array (x ∷ xs)) = Unit
Throws _ = ⊥

module _ (env : Sessions) where
  abbrev pub handles : Subscribers → List ℕ
  handles t = map (λ e. e.1) t

  select_broadcast_lem :
      (wanted : Bytes → Bool) (t : Subscribers)
      → select_broadcast env wanted t ≡ (
        handles (keep (λ e. wanted e.0 && env.is_alive e.1) t),
        keep (λ e. not (wanted e.0) || env.is_alive e.1) t,
      )
  unfolding select_broadcast keep
  select_broadcast_lem wanted [] = refl
  select_broadcast_lem wanted ((sid, h) ∷ t) = ground (arith, select_broadcast_lem wanted t)

  select_multicast_lem :
      (prefix : Bytes) (t : Subscribers)
      → select_multicast env prefix t ≡ (
        handles (keep (λ e. starts_with prefix e.0 && env.is_alive e.1) t),
        keep (λ e. env.is_alive e.1) t,
      )
  unfolding select_multicast keep
  select_multicast_lem prefix [] = refl
  select_multicast_lem prefix ((sid, h) ∷ t) = ground (arith, select_multicast_lem prefix t)

  keep_missing :
      (sid : Bytes) (t : Subscribers)
      → find sid t ≡ none
      → keep (λ e. bytes_eq e.0 sid && env.is_alive e.1) t ≡ []
  unfolding keep find
  keep_missing sid [] h = refl
  keep_missing sid ((j, v) ∷ t) h = ground (arith, keep_missing sid t)

  keep_found :
      (sid : Bytes) (h : ℕ) (t : Subscribers)
      → HasDistinctKeys t
      → find sid t ≡ some h
      → handles (keep (λ e. bytes_eq e.0 sid && env.is_alive e.1) t)
        ≡ (if env.is_alive h then h ∷ [] else [])
  unfolding keep find
  keep_found sid h [] d e = cc
  keep_found sid h ((j, v) ∷ t) d e =
      ground (arith, keep_missing sid t, bytes_eq_iff j sid, keep_found sid h t d.1)

  abbrev pub recipients_by : Bytes → SocketId → Delivery → Subscribers → List ℕ
  recipients_by from socket d t =
      handles (keep (λ e. addressed_by from socket d e.0 && env.is_alive e.1) t)

  -- The live subscribers that a message is meant for, in the order of the table.
  abbrev pub recipients : Message → Subscribers → List ℕ
  recipients m t = recipients_by m.from m.socket_id (delivery_of m.delivery) t

  abbrev pub living : Subscribers → Subscribers
  living t = keep (λ e. env.is_alive e.1) t

  living_left :
      (wanted : Bytes → Bool) (t : Subscribers)
      → living (keep (λ e. not (wanted e.0) || env.is_alive e.1) t) ≡ living t
  living_left wanted t =
      keep-keep (λ e. env.is_alive e.1) (λ e. not (wanted e.0) || env.is_alive e.1) t
      ∙ keep-cong _ _ t (λ e. ground arith)

  broadcast_Selects :
      (wanted addr : Bytes → Bool) (t : Subscribers)
      → ((sid : Bytes) → wanted sid ≡ addr sid)
      → HasDistinctKeys t
      → ((select_broadcast env wanted t).0 ≡ handles (keep (λ e. addr e.0 && env.is_alive e.1) t))
        × (living (select_broadcast env wanted t).1 ≡ living t)
        × HasDistinctKeys (select_broadcast env wanted t).1
  broadcast_Selects wanted addr t h d = rw (select_broadcast_lem wanted t) (
    ap handles (keep-cong _ _ t (λ e. rw (h e.0) refl)),
    living_left wanted t,
    keep-HasDistinctKeys _ t d,
  )

  multicast_Selects :
      (prefix : Bytes) (t : Subscribers)
      → HasDistinctKeys t
      → ((select_multicast env prefix t).0
          ≡ handles (keep (λ e. starts_with prefix e.0 && env.is_alive e.1) t))
        × (living (select_multicast env prefix t).1 ≡ living t)
        × HasDistinctKeys (select_multicast env prefix t).1
  multicast_Selects prefix t d = rw (select_multicast_lem prefix t) (
    refl,
    keep-keep (λ e. env.is_alive e.1) (λ e. env.is_alive e.1) t
        ∙ keep-cong _ _ t (λ e. ground arith),
    keep-HasDistinctKeys _ t d,
  )

  erase_missing : (sid : Bytes) (t : Subscribers) → find sid t ≡ none → erase sid t ≡ t
  unfolding find erase
  erase_missing sid [] h = refl
  erase_missing sid ((j, v) ∷ t) h = ground (arith, erase_missing sid t)

  living-erase :
      (sid : Bytes) (h : ℕ) (t : Subscribers)
      → HasDistinctKeys t
      → find sid t ≡ some h
      → env.is_alive h ≡ false
      → living (erase sid t) ≡ living t
  unfolding keep find erase
  living-erase sid h [] d e g = refl
  living-erase sid h ((j, v) ∷ t) d e g =
      ground (arith, erase_missing sid t, bytes_eq_iff j sid, living-erase sid h t d.1)

  abbrev pub Selects : List ℕ → Subscribers → Selection → Type 0
  Selects to t r = (r.0 ≡ to) × (living r.1 ≡ living t) × HasDistinctKeys r.1

  unicast_Selects :
      (sid : Bytes) (t : Subscribers)
      → HasDistinctKeys t
      → Selects
          (handles (keep (λ e. bytes_eq e.0 sid && env.is_alive e.1) t))
          t
          (select_unicast env sid t)
  unfolding select_unicast
  unicast_Selects sid t d = elim (Option-cases (find sid t)) [
    | inl e ↦ rw (e, select_unicast) (rw (keep_missing sid t e) (refl, refl, d))
    | inr (h, e) ↦
        rw (e, select_unicast)
          (ground (
            arith,
            keep_found sid h t d e,
            living-erase sid h t d e,
            erase-HasDistinctKeys sid t d,
          ))
  ]

  keep_none : (t : Subscribers) → [] ≡ handles (keep (λ e. false && env.is_alive e.1) t)
  unfolding keep
  keep_none [] = refl
  keep_none (x ∷ t) = keep_none t

  Selects-some :
      (to : List ℕ) (t : Subscribers) (r s : Selection)
      → some s ≡ some r
      → Selects to t s
      → Selects to t r
  Selects-some to t r s e h = subst (Selects to t) (some-injective s r e) h

  wanted_lem : (from sid : Bytes) → not (bytes_eq sid from) ≡ (not (bytes_eq sid from) && not false)
  wanted_lem from sid = ground arith

  -- A selection that does not throw has the recipients for targets and keeps who lives.
  pub select_lem :
      (from : Bytes) (socket : SocketId) (d : Delivery) (t : Subscribers) (r : Selection)
      → HasDistinctKeys t
      → select env from socket d t ≡ some r
      → Selects (recipients_by from socket d t) t r
  unfolding select is_present as_string
  select_lem from (text s) broadcast t r h e =
      Selects-some _ t r _ e (broadcast_Selects _ _ t (λ sid. refl) h)
  select_lem from (text s) multicast t r h e =
      Selects-some _ t r _ e (multicast_Selects (s ++ codes ".") t h)
  select_lem from (text s) unicast t r h e = Selects-some _ t r _ e (unicast_Selects s t h)
  select_lem from (array (x ∷ xs)) broadcast t r h e = cc
  select_lem from (array (x ∷ xs)) multicast t r h e = cc
  select_lem from (array (x ∷ xs)) unicast t r h e = cc
  select_lem from _ broadcast t r h e =
      Selects-some _ t r _ e (broadcast_Selects _ _ t (wanted_lem from) h)
  select_lem from _ multicast t r h e = Selects-some _ t r _ e (keep_none t, refl, h)
  select_lem from _ unicast t r h e = Selects-some _ t r _ e (keep_none t, refl, h)

  -- A selection throws exactly where the message's "socket_id" is an array that is not empty,
  -- whatever its delivery and whoever is subscribed.
  pub select-eq-none_iff :
      (from : Bytes) (socket : SocketId) (d : Delivery) (t : Subscribers)
      → (select env from socket d t ≡ none) ↔ Throws socket
  unfolding select is_present as_string
  select-eq-none_iff from (array (x ∷ xs)) broadcast t = (λ e. tt, λ h. refl)
  select-eq-none_iff from (array (x ∷ xs)) multicast t = (λ e. tt, λ h. refl)
  select-eq-none_iff from (array (x ∷ xs)) unicast t = (λ e. tt, λ h. refl)
  select-eq-none_iff from _ broadcast t = (λ e. cc, λ h. absurd h)
  select-eq-none_iff from _ multicast t = (λ e. cc, λ h. absurd h)
  select-eq-none_iff from _ unicast t = (λ e. cc, λ h. absurd h)

-- What an effect list delivers, and whether it unregisters the channel.
abbrev pub deliveries : List Effect → List ℕ
deliveries [] = []
deliveries (deliver h ∷ es) = h ∷ deliveries es
deliveries (_ ∷ es) = deliveries es

deliveries-append : (xs ys : List Effect) → deliveries (xs ++ ys) ≡ deliveries xs ++ deliveries ys
deliveries-append [] ys = refl
deliveries-append (deliver h ∷ es) ys = ap (λ r. h ∷ r) (deliveries-append es ys)
deliveries-append (unregister u ∷ es) ys = deliveries-append es ys
deliveries-append (trigger k s ∷ es) ys = deliveries-append es ys
deliveries-append (cluster_trigger k s ∷ es) ys = deliveries-append es ys
deliveries-append (cluster_push m ∷ es) ys = deliveries-append es ys
deliveries-append (disconnect h ∷ es) ys = deliveries-append es ys

module _ (env : Sessions) where
  deliveries-close_if_empty : (c : Channel) → deliveries (close_if_empty env c) ≡ []
  unfolding close_if_empty
  deliveries-close_if_empty c = ground arith

  deliveries-unsubscribe :
      (locked : Bool) (sid : Bytes) (c : Channel) → deliveries (unsubscribe env locked sid c).1 ≡ []
  unfolding unsubscribe
  deliveries-unsubscribe true sid c =
      deliveries-append (close_if_empty env (record c { subscribers = erase sid c.subscribers })) _
      ∙ rw (deliveries-close_if_empty (record c { subscribers = erase sid c.subscribers })) refl
  deliveries-unsubscribe false sid c = refl

  deliveries-attempt :
      (locked : Bool) (h : ℕ) (c : Channel) → deliveries (attempt env locked h c).1 ≡ []
  unfolding attempt
  deliveries-attempt locked h c = ground (arith, deliveries-unsubscribe locked (env.id h) c)

  deliveries-deliver_all :
      (locked : Bool) (hs : List ℕ) (c : Channel) → deliveries (deliver_all env locked hs c).1 ≡ hs
  unfolding deliver_all
  deliveries-deliver_all locked [] c = refl
  deliveries-deliver_all locked (h ∷ hs) c =
      ap (λ r. h ∷ r)
        (deliveries-append (attempt env locked h c).1 _
          ∙ rw
              (
                deliveries-attempt locked h c,
                deliveries-deliver_all locked hs (attempt env locked h c).0,
              )
              refl)

  -- The state and the effects of a push over its selection.
  abbrev pub after_select : Bool → Channel → Selection → Channel × List Effect × ℕ
  after_select locked c r =
      let (c', es) = deliver_all env locked r.0 (record c { subscribers = r.1 }) in
      (c', es ++ close_if_empty env c', length r.0)

  -- A push throws, or it is the deliveries over a selection.
  pub push_cases :
      (locked : Bool) (m : Message) (c : Channel) (p : Channel × List Effect × ℕ)
      → push env locked m c ≡ some p
      → (r : Selection) × (select env m.from m.socket_id (delivery_of m.delivery) c.subscribers
          ≡ some r)
        × (after_select locked c r ≡ p)
  unfolding push
  push_cases locked m c p e =
      elim (Option-cases (select env m.from m.socket_id (delivery_of m.delivery) c.subscribers)) [
        | inl s ↦ absurd (cc (rw s at e))
        | inr (r, s) ↦ (r, s, some-injective _ _ (rw s at e))
      ]

  -- A push that does not throw delivers the message once to each live subscriber that it is meant
  -- for, in the order of the table and to nobody else, and returns their number.
  pub push_delivers :
      (locked : Bool) (m : Message) (c c' : Channel) (es : List Effect) (n : ℕ)
      → HasDistinctKeys c.subscribers
      → push env locked m c ≡ some (c', es, n)
      → (deliveries es ≡ recipients env m c.subscribers)
        × (n ≡ length (recipients env m c.subscribers))
  unfolding push
  push_delivers locked m c c' es n d e =
      let (r, s, q) = push_cases locked m c (c', es, n) e in
      let (targets, _, _) =
        select_lem env m.from m.socket_id (delivery_of m.delivery) c.subscribers r d s in
      (
        ap (λ p. deliveries p.1) (sym q)
            ∙ deliveries-append (deliver_all env locked r.0 (record c { subscribers = r.1 })).1 _
            ∙ rw (deliveries-deliver_all locked r.0 _, deliveries-close_if_empty _, append-nil)
                targets,
        ap (λ p. p.2) (sym q) ∙ ap length targets,
      )
