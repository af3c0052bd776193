-- ===== src/Channel/Members.antt =====
-- Who is subscribed after each operation, and when a channel closes.
use mathlib.Core.Path.{subst}
use push1st.Prelude.{
  ℕ, ◌≡◌, refl, sym, ap, ◌∙◌, Bool, true, false, not, ◌&&◌, ◌||◌, List, [], ◌∷◌, ◌++◌, none, some,
  arith, Bytes, bytes_eq, length, ◌==◌, if◌then◌else◌, keep,
}
use push1st.Channel.Table.{
  find, HasDistinctKeys, find-erase, erase-HasDistinctKeys, emplace-HasDistinctKeys, find-keep-some,
  find-of-keep, keep-HasDistinctKeys,
}
use push1st.Channel.Message.{Message, delivery_of}
use push1st.Channel.Defs.{
  Sessions, Channel, Effect, disconnect, Subscribers, Selection, select, close_if_empty,
  unsubscribe, subscribe, attempt, deliver_all, push, gc_loop, disconnects, gc,
}
use push1st.Channel.Routing.{recipients, handles, select_lem, push_cases}

-- The sessions that an effect list disconnects.
abbrev pub disconnected : List Effect → List ℕ
disconnected [] = []
disconnected (disconnect h ∷ es) = h ∷ disconnected es
disconnected (_ ∷ es) = disconnected es

module _ (env : Sessions) where
  -- Whether one of the sessions has this Id() and fails to take the message.
  abbrev pub fails : Bytes → List ℕ → Bool
  fails sid [] = false
  fails sid (h ∷ hs) = (not (env.push h == 0) && bytes_eq (env.id h) sid) || fails sid hs

  find-attempt :
      (locked : Bool) (sid : Bytes) (h : ℕ) (c : Channel)
      → find sid (attempt env locked h c).0.subscribers ≡ (
          if locked && (not (env.push h == 0) && bytes_eq (env.id h) sid)
          then none
          else find sid c.subscribers)
  unfolding attempt unsubscribe
  find-attempt true sid h c = ground (arith, find-erase (env.id h) sid c.subscribers)
  find-attempt false sid h c = ground arith

  find-deliver_all :
      (locked : Bool) (sid : Bytes) (hs : List ℕ) (c : Channel)
      → find sid (deliver_all env locked hs c).0.subscribers
        ≡ (if locked && fails sid hs then none else find sid c.subscribers)
  unfolding deliver_all
  find-deliver_all locked sid [] c = ground arith
  find-deliver_all locked sid (h ∷ hs) c =
      find-deliver_all locked sid hs (attempt env locked h c).0
      ∙ ground (arith, find-attempt locked sid h c)

  find-select :
      (m : Message) (t : Subscribers) (r : Selection) (sid : Bytes) (h : ℕ)
      → HasDistinctKeys t
      → select env m.from m.socket_id (delivery_of m.delivery) t ≡ some r
      → find sid t ≡ some h
      → env.is_alive h ≡ true
      → find sid r.1 ≡ some h
  find-select m t r sid h d s f a =
      let (_, l, d') = select_lem env m.from m.socket_id (delivery_of m.delivery) t r d s in
      find-of-keep (λ e. env.is_alive e.1) sid h r.1 d'
        (ap (find sid) l ∙ find-keep-some (λ e. env.is_alive e.1) sid h t f a)

  -- After a push that does not throw, a live subscriber is still subscribed, unless the lock was
  -- free for the removals and a session of its id was a recipient and failed to take the message:
  -- then it is not. While the lock is held elsewhere, it stays in any case.
  pub find-push :
      (locked : Bool) (m : Message) (c c' : Channel) (es : List Effect) (n : ℕ) (sid : Bytes)
      (h : ℕ)
      → HasDistinctKeys c.subscribers
      → push env locked m c ≡ some (c', es, n)
      → find sid c.subscribers ≡ some h
      → env.is_alive h ≡ true
      → find sid c'.subscribers
        ≡ (if locked && fails sid (recipients env m c.subscribers) then none else some h)
  find-push locked m c c' es n sid h d e f a =
      let (r, s, q) = push_cases env locked m c (c', es, n) e in
      let (targets, _, _) =
        select_lem env m.from m.socket_id (delivery_of m.delivery) c.subscribers r d s in
      ap (λ p. find sid p.0.subscribers) (sym q)
      ∙ find-deliver_all locked sid r.0 (record c { subscribers = r.1 })
      ∙ rw (targets, find-select m c.subscribers r sid h d s f a) refl

  -- Operations keep the ids of a channel distinct.
  attempt-HasDistinctKeys :
      (locked : Bool) (h : ℕ) (c : Channel)
      → HasDistinctKeys c.subscribers
      → HasDistinctKeys (attempt env locked h c).0.subscribers
  unfolding attempt unsubscribe
  attempt-HasDistinctKeys true h c d =
      ground (arith, erase-HasDistinctKeys (env.id h) c.subscribers d)
  attempt-HasDistinctKeys false h c d = ground arith

  deliver_all-HasDistinctKeys :
      (locked : Bool) (hs : List ℕ) (c : Channel)
      → HasDistinctKeys c.subscribers
      → HasDistinctKeys (deliver_all env locked hs c).0.subscribers
  unfolding deliver_all
  deliver_all-HasDistinctKeys locked [] c d = d
  deliver_all-HasDistinctKeys locked (h ∷ hs) c d =
      deliver_all-HasDistinctKeys locked hs _ (attempt-HasDistinctKeys locked h c d)

  push-HasDistinctKeys :
      (locked : Bool) (m : Message) (c c' : Channel) (es : List Effect) (n : ℕ)
      → HasDistinctKeys c.subscribers
      → push env locked m c ≡ some (c', es, n)
      → HasDistinctKeys c'.subscribers
  push-HasDistinctKeys locked m c c' es n d e =
      let (r, s, q) = push_cases env locked m c (c', es, n) e in
      let (_, _, d') =
        select_lem env m.from m.socket_id (delivery_of m.delivery) c.subscribers r d s in
      subst (λ p. HasDistinctKeys p.0.subscribers) q
        (deliver_all-HasDistinctKeys locked r.0 (record c { subscribers = r.1 }) d')

  gc_loop_lem :
      (t : Subscribers)
      → gc_loop env t ≡ (
        handles env (keep (λ e. env.is_alive e.1 && not (env.is_connected e.1)) t),
        keep (λ e. env.is_alive e.1 && env.is_connected e.1) t,
      )
  unfolding gc_loop keep
  gc_loop_lem [] = refl
  gc_loop_lem ((sid, h) ∷ t) = ground (arith, gc_loop_lem t)

  disconnected-disconnects : (hs : List ℕ) → disconnected (disconnects env hs) ≡ hs
  unfolding disconnects
  disconnected-disconnects [] = refl
  disconnected-disconnects (h ∷ hs) = ap (λ r. h ∷ r) (disconnected-disconnects hs)

  disconnected_close :
      (c : Channel) (es : List Effect) → disconnected (close_if_empty env c ++ es) ≡ disconnected es
  unfolding close_if_empty
  disconnected_close c es = ground arith

  -- A collection under the lock leaves the sessions that live and are connected, disconnects the
  -- ones that live and are not, and returns how many are left.
  pub gc_lem :
      (c : Channel)
      → ((gc env true c).0.subscribers
          ≡ keep (λ e. env.is_alive e.1 && env.is_connected e.1) c.subscribers)
        × (disconnected (gc env true c).1
            ≡ handles env
                (keep (λ e. env.is_alive e.1 && not (env.is_connected e.1)) c.subscribers))
        × ((gc env true c).2 ≡ length (gc env true c).0.subscribers)
  unfolding gc
  gc_lem c = (
    ap (λ r. r.1) (gc_loop_lem c.subscribers),
    disconnected_close _ (disconnects env (gc_loop env c.subscribers).0)
        ∙ disconnected-disconnects (gc_loop env c.subscribers).0
        ∙ ap (λ r. r.0) (gc_loop_lem c.subscribers),
    refl,
  )

  unsubscribe-HasDistinctKeys :
      (c : Channel)
      → HasDistinctKeys c.subscribers
      → (locked : Bool) (sid : Bytes) → HasDistinctKeys (unsubscribe env locked sid c).0.subscribers
  unfolding unsubscribe
  unsubscribe-HasDistinctKeys c d true sid = erase-HasDistinctKeys sid c.subscribers d
  unsubscribe-HasDistinctKeys c d false sid = d

  gc-HasDistinctKeys :
      (c : Channel)
      → HasDistinctKeys c.subscribers
      → (locked : Bool) → HasDistinctKeys (gc env locked c).0.subscribers
  unfolding gc
  gc-HasDistinctKeys c d true =
      rw (gc_loop_lem c.subscribers) (keep-HasDistinctKeys _ c.subscribers d)
  gc-HasDistinctKeys c d false = d

  -- Each operation keeps the ids of the subscribers distinct: no session is subscribed twice.
  pub operations-HasDistinctKeys :
      (c : Channel)
      → HasDistinctKeys c.subscribers
      → ((h : ℕ) → HasDistinctKeys (subscribe env h c).0.subscribers)
        × ((locked : Bool) (sid : Bytes)
            → HasDistinctKeys (unsubscribe env locked sid c).0.subscribers)
        × ((locked : Bool) (m : Message) (c' : Channel) (es : List Effect) (n : ℕ)
            → push env locked m c ≡ some (c', es, n)
            → HasDistinctKeys c'.subscribers)
        × ((locked : Bool) → HasDistinctKeys (gc env locked c).0.subscribers)
  operations-HasDistinctKeys c d = (
    λ h. unfold subscribe in emplace-HasDistinctKeys (env.id h) h c.subscribers d,
    unsubscribe-HasDistinctKeys c d,
    λ locked m c' es n e. push-HasDistinctKeys locked m c c' es n d e,
    gc-HasDistinctKeys c d,
  )
