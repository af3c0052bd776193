-- ===== src/Channel/Closing.antt =====
-- When a channel asks the registry to forget it.
use mathlib.Core.Path.{subst}
use push1st.Prelude.{
  All-append, All, ==_iff, ℕ, ◌≡◌, refl, sym, ◌∙◌, Bool, true, false, ◌&&◌, ◌||◌, List, [], ◌∷◌,
  ◌++◌, some, arith, Bytes, length, ◌==◌, Bool-cases, inl, inr,
}
use push1st.Channel.Table.{erase}
use push1st.Channel.Message.{Message}
use push1st.Channel.Defs.{
  Sessions, Channel, Effect, deliver, unregister, trigger, cluster_trigger, cluster_push,
  disconnect, Subscribers, close_if_empty, unsubscribe, attempt, deliver_all, push, gc_loop,
  disconnects, gc,
}
use push1st.Channel.Routing.{push_cases}

abbrev pub unregisters : List Effect → Bool
unregisters [] = false
unregisters (unregister u ∷ es) = true
unregisters (_ ∷ es) = unregisters es

abbrev pub is_closed : Channel → Bool
is_closed c = (length c.subscribers == 0) && c.auto_close

unregisters-append :
    (xs ys : List Effect) → unregisters (xs ++ ys) ≡ (unregisters xs || unregisters ys)
unregisters-append [] ys = refl
unregisters-append (deliver h ∷ es) ys = unregisters-append es ys
unregisters-append (unregister u ∷ es) ys = refl
unregisters-append (trigger k s ∷ es) ys = unregisters-append es ys
unregisters-append (cluster_trigger k s ∷ es) ys = unregisters-append es ys
unregisters-append (cluster_push m ∷ es) ys = unregisters-append es ys
unregisters-append (disconnect h ∷ es) ys = unregisters-append es ys

or_absorb : (a b : Bool) → (a ≡ true → b ≡ true) → (a || b) ≡ b
or_absorb true true h = refl
or_absorb true false h = sym (h refl)
or_absorb false b h = refl

module _ (env : Sessions) where
  unregisters-close_if_empty : (c : Channel) → unregisters (close_if_empty env c) ≡ is_closed c
  unfolding close_if_empty
  unregisters-close_if_empty c = ground arith

  unregisters-disconnects : (hs : List ℕ) → unregisters (disconnects env hs) ≡ false
  unfolding disconnects
  unregisters-disconnects [] = refl
  unregisters-disconnects (h ∷ hs) = unregisters-disconnects hs

  unregisters-unsubscribe :
      (sid : Bytes) (c : Channel)
      → unregisters (unsubscribe env true sid c).1 ≡ is_closed (unsubscribe env true sid c).0
  unfolding unsubscribe
  unregisters-unsubscribe sid c =
      unregisters-append (close_if_empty env (record c { subscribers = erase sid c.subscribers })) _
      ∙ rw (unregisters-close_if_empty (record c { subscribers = erase sid c.subscribers }))
          (ground arith)

  erase_empty :
      (sid : Bytes) (t : Subscribers) → (length t == 0) ≡ true → (length (erase sid t) == 0) ≡ true
  unfolding erase
  erase_empty sid [] h = refl
  erase_empty sid (x ∷ t) h = absurd (omega (arith, (==_iff (length (x ∷ t)) 0).0 h))

  attempt_closed :
      (locked : Bool) (h : ℕ) (c : Channel)
      → is_closed c ≡ true
      → is_closed (attempt env locked h c).0 ≡ true
  unfolding attempt unsubscribe
  attempt_closed true h c e = ground (arith, erase_empty (env.id h) c.subscribers)
  attempt_closed false h c e = ground (arith, e)

  deliver_all_closed :
      (locked : Bool) (hs : List ℕ) (c : Channel)
      → is_closed c ≡ true
      → is_closed (deliver_all env locked hs c).0 ≡ true
  unfolding deliver_all
  deliver_all_closed locked [] c e = e
  deliver_all_closed locked (h ∷ hs) c e =
      deliver_all_closed locked hs _ (attempt_closed locked h c e)

  unregisters-unsubscribe_held :
      (sid : Bytes) (c : Channel) → unregisters (unsubscribe env false sid c).1 ≡ false
  unfolding unsubscribe
  unregisters-unsubscribe_held sid c = refl

  unsubscribe-unregisters :
      (locked : Bool) (sid : Bytes) (c : Channel)
      → unregisters (unsubscribe env locked sid c).1 ≡ true
      → is_closed (unsubscribe env locked sid c).0 ≡ true
  unsubscribe-unregisters true sid c e = sym (unregisters-unsubscribe sid c) ∙ e
  unsubscribe-unregisters false sid c e = absurd (cc (sym (unregisters-unsubscribe_held sid c) ∙ e))

  attempt-unregisters :
      (locked : Bool) (h : ℕ) (c : Channel)
      → unregisters (attempt env locked h c).1 ≡ true
      → is_closed (attempt env locked h c).0 ≡ true
  unfolding attempt
  attempt-unregisters locked h c e = ground (arith, unsubscribe-unregisters locked (env.id h) c)

  deliver_all-unregisters :
      (locked : Bool) (hs : List ℕ) (c : Channel)
      → unregisters (deliver_all env locked hs c).1 ≡ true
      → is_closed (deliver_all env locked hs c).0 ≡ true
  unfolding deliver_all
  deliver_all-unregisters locked [] c e = cc
  deliver_all-unregisters locked (h ∷ hs) c e =
      elim (Bool-cases (unregisters (attempt env locked h c).1)) [
        | inl u ↦ deliver_all_closed locked hs _ (attempt-unregisters locked h c u)
        | inr u ↦ deliver_all-unregisters locked hs _ (
            cc (
              unregisters-append (attempt env locked h c).1
                (deliver_all env locked hs (attempt env locked h c).0).1))
      ]

  unregisters-gc : (c : Channel) → unregisters (gc env true c).1 ≡ is_closed (gc env true c).0
  unfolding gc
  unregisters-gc c =
      let left : Channel = record c { subscribers = (gc_loop env c.subscribers).1 } in
      unregisters-append (close_if_empty env left) (disconnects env (gc_loop env c.subscribers).0)
      ∙ rw (unregisters-close_if_empty left, unregisters-disconnects (gc_loop env c.subscribers).0)
          (ground arith)

  -- A push, whoever holds the lock meanwhile.
  pub unregisters-push :
      (locked : Bool) (m : Message) (c c' : Channel) (es : List Effect) (n : ℕ)
      → push env locked m c ≡ some (c', es, n)
      → unregisters es ≡ is_closed c'
  unregisters-push locked m c c' es n e =
      let (r, s, q) = push_cases env locked m c (c', es, n) e in
      subst (λ p. unregisters p.1 ≡ is_closed p.0) q
        (unregisters-append (deliver_all env locked r.0 (record c { subscribers = r.1 })).1 _
          ∙ rw
              (unregisters-close_if_empty
                (deliver_all env locked r.0 (record c { subscribers = r.1 })).0)
              (or_absorb _ _ (deliver_all-unregisters locked r.0 (record c { subscribers = r.1 }))))

  -- An operation that holds the lock asks the registry to forget the channel exactly when it leaves
  -- the channel with no subscriber and the channel closes by itself.
  pub unregisters_iff_closed :
      (c : Channel)
      → ((sid : Bytes)
          → unregisters (unsubscribe env true sid c).1 ≡ is_closed (unsubscribe env true sid c).0)
        × (unregisters (gc env true c).1 ≡ is_closed (gc env true c).0)
        × ((m : Message) (c' : Channel) (es : List Effect) (n : ℕ)
            → push env true m c ≡ some (c', es, n)
            → unregisters es ≡ is_closed c')
  unregisters_iff_closed c = (
    λ sid. unregisters-unsubscribe sid c,
    unregisters-gc c,
    λ m c' es n e. unregisters-push true m c c' es n e,
  )

-- Every request to the registry is for this channel, and the cluster is told of no push.
abbrev pub Only : Bytes → Effect → Type 0
Only uid (unregister u) = u ≡ uid
Only uid (cluster_push m) = ⊥
Only uid _ = Unit

module _ (env : Sessions) where
  close_if_empty-Only : (c : Channel) → All (Only c.uid) (close_if_empty env c)
  unfolding close_if_empty
  close_if_empty-Only c = ground arith

  unsubscribe-Only :
      (locked : Bool) (sid : Bytes) (c : Channel)
      → All (Only c.uid) (unsubscribe env locked sid c).1
        × ((unsubscribe env locked sid c).0.uid ≡ c.uid)
  unfolding unsubscribe
  unsubscribe-Only true sid c = (
    All-append (Only c.uid)
        (close_if_empty env (record c { subscribers = erase sid c.subscribers })) _
        (close_if_empty-Only (record c { subscribers = erase sid c.subscribers })) (tt, (tt, tt)),
    refl,
  )
  unsubscribe-Only false sid c = ((tt, (tt, tt)), refl)

  attempt-Only :
      (locked : Bool) (h : ℕ) (c : Channel)
      → All (Only c.uid) (attempt env locked h c).1 × ((attempt env locked h c).0.uid ≡ c.uid)
  unfolding attempt
  attempt-Only locked h c = ground (arith, unsubscribe-Only locked (env.id h) c)

  deliver_all-Only :
      (locked : Bool) (hs : List ℕ) (c : Channel)
      → All (Only c.uid) (deliver_all env locked hs c).1
        × ((deliver_all env locked hs c).0.uid ≡ c.uid)
  unfolding deliver_all
  deliver_all-Only locked [] c = (tt, refl)
  deliver_all-Only locked (h ∷ hs) c =
      let (o, u) = attempt-Only locked h c in
      let (os, us) = deliver_all-Only locked hs (attempt env locked h c).0 in
      (
        (
          tt,
          All-append (Only c.uid) (attempt env locked h c).1 _ o (
              subst (λ v. All (Only v) (deliver_all env locked hs (attempt env locked h c).0).1) u
                os),
        ),
        us ∙ u,
      )

  pub push-Only :
      (locked : Bool) (m : Message) (c c' : Channel) (es : List Effect) (n : ℕ)
      → push env locked m c ≡ some (c', es, n)
      → All (Only c.uid) es × (c'.uid ≡ c.uid)
  push-Only locked m c c' es n e =
      let (r, s, q) = push_cases env locked m c (c', es, n) e in
      let (o, u) = deliver_all-Only locked r.0 (record c { subscribers = r.1 }) in
      let c'' : Channel = (deliver_all env locked r.0 (record c { subscribers = r.1 })).0 in
      subst (λ p. All (Only c.uid) p.1 × (p.0.uid ≡ c.uid)) q
        (
          All-append (Only c.uid) (deliver_all env locked r.0 (record c { subscribers = r.1 })).1 _
              o (subst (λ v. All (Only v) (close_if_empty env c'')) u (close_if_empty-Only c'')),
          u,
        )
