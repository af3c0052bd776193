-- ===== src/Raw/Leaving.antt =====
-- The channels that a session leaves behind, and the messages that it may push.
use mathlib.Core.Path.{subst}
use mathlib.Core.Option.{some-injective}
use push1st.Prelude.{
  ap, sym, arith, ◌∙◌, ◌==◌, ==_iff, ◌≡◌, Bool-cases, Option-cases, bytes_eq, bytes_eq_refl,
  if◌then◌else◌, Option, Bytes, Bool, List, refl, [], ◌∷◌, none, some, inl, inr, true, false, ℕ,
}
use push1st.Channel.Table.{find, find-erase}
use push1st.Channel.Defs.{Sessions, Channel, Effect, push, unsubscribe}
use push1st.Channel.Registry.{World, write, update_channel, apply_effects}
use push1st.Channel.Registry.Push.{apply_effects-heap}
use push1st.Raw.Session.{
  Client, Root, unpack, Taken, disabled, closed, pushed, leave_at, leave_all, on_socket_error,
}

-- A session is no subscriber of the channel behind a pointer.
abbrev pub Gone : Bytes → ℕ → World → Type 0
Gone sid g w = (c : Channel) → w.heap g ≡ some c → find sid c.subscribers ≡ none

module _ (env : Sessions) (alive locked : ℕ → Bool) where
  find-unsubscribe :
      (sid : Bytes) (c : Channel) → find sid (unsubscribe env true sid c).0.subscribers ≡ none
  unfolding unsubscribe
  find-unsubscribe sid c = ground (arith, find-erase sid sid c.subscribers, bytes_eq_refl sid)

  find-unsubscribe_before :
      (l : Bool) (sid : Bytes) (c : Channel)
      → find sid c.subscribers ≡ none
      → find sid (unsubscribe env l sid c).0.subscribers ≡ none
  unfolding unsubscribe
  find-unsubscribe_before true sid c e = find-unsubscribe sid c
  find-unsubscribe_before false sid c e = e

  heap-update_channel :
      (h g : ℕ) (p : Channel × List Effect) (w : World)
      → (update_channel h p w).heap g ≡ (if g == h then some p.0 else w.heap g)
  unfolding update_channel write
  heap-update_channel h g (c, es) w = ap (λ k. k g) (apply_effects-heap es _).0

  heap-leave_at :
      (sid : Bytes) (h g : ℕ) (w : World) (d : Channel)
      → w.heap h ≡ some d
      → (leave_at env alive locked sid h w).heap g
        ≡ (if g == h then some (unsubscribe env (locked h) sid d).0 else w.heap g)
  unfolding leave_at
  heap-leave_at sid h g w d e =
      rw (e, leave_at) (heap-update_channel h g (unsubscribe env (locked h) sid d) w)

  leave_at_empty :
      (sid : Bytes) (h : ℕ) (w : World) → w.heap h ≡ none → leave_at env alive locked sid h w ≡ w
  unfolding leave_at
  leave_at_empty sid h w e = rw (e, leave_at) refl

  -- Leaving a channel whose lock is free takes the session out of it.
  leave_at-Gone :
      (sid : Bytes) (h : ℕ) (w : World)
      → locked h ≡ true
      → Gone sid h (leave_at env alive locked sid h w)
  leave_at-Gone sid h w l c e = elim (Option-cases (w.heap h)) [
    | inl n ↦ absurd (ground (arith, ap (λ v. v.heap h) (leave_at_empty sid h w n), n, e))
    | inr (d, f) ↦
        let same : some (unsubscribe env true sid d).0 ≡ some c =
          ground (arith, heap-leave_at sid h h w d f, l, e) in
        ap (λ x. find sid x.subscribers)
          (sym (some-injective (unsubscribe env true sid d).0 c same))
        ∙ find-unsubscribe sid d
  ]

  -- Leaving any channel brings the session into none.
  leave_at-keeps :
      (sid : Bytes) (h g : ℕ) (w : World)
      → Gone sid g w
      → Gone sid g (leave_at env alive locked sid h w)
  leave_at-keeps sid h g w k c e = elim (Option-cases (w.heap h)) [
    | inl n ↦ k c (sym (ap (λ v. v.heap g) (leave_at_empty sid h w n)) ∙ e)
    | inr (d, f) ↦ elim (Bool-cases (g == h)) [
      | inr other ↦ k c (ground (arith, heap-leave_at sid h g w d f, other, e))
      | inl same ↦
          let was : w.heap g ≡ some d = ap w.heap ((==_iff g h).0 same) ∙ f in
          let now : some (unsubscribe env (locked h) sid d).0 ≡ some c =
            ground (arith, heap-leave_at sid h g w d f, same, e) in
          ap (λ x. find sid x.subscribers)
            (sym (some-injective (unsubscribe env (locked h) sid d).0 c now))
          ∙ find-unsubscribe_before (locked h) sid d (k d was)
    ]
  ]

  leave_all-keeps :
      (sid : Bytes) (table : List (Bytes × ℕ)) (g : ℕ) (w : World)
      → Gone sid g w
      → Gone sid g (leave_all env alive locked sid table w)
  unfolding leave_all
  leave_all-keeps sid [] g w k = k
  leave_all-keeps sid ((name, h) ∷ table) g w k = elim (Bool-cases (alive h)) [
    | inl a ↦
        rw (a, leave_all)
          (leave_all-keeps sid table g (leave_at env alive locked sid h w)
            (leave_at-keeps sid h g w k))
    | inr a ↦ rw (a, leave_all) (leave_all-keeps sid table g w k)
  ]

  leave_all-Gone :
      (sid : Bytes) (table : List (Bytes × ℕ)) (name : Bytes) (g : ℕ) (w : World)
      → find name table ≡ some g
      → alive g ≡ true
      → locked g ≡ true
      → Gone sid g (leave_all env alive locked sid table w)
  unfolding leave_all find
  leave_all-Gone sid [] name g w e a l = absurd (ground (arith, e))
  leave_all-Gone sid ((k, h) ∷ table) name g w e a l = elim (Bool-cases (bytes_eq k name)) [
    | inl same ↦
        let this : h ≡ g = some-injective h g (ground (arith, e, same)) in
        let here : alive h ≡ true = ap alive this ∙ a in
        subst
          (λ j. Gone sid j (
            leave_all env alive locked sid table
              (if alive h then leave_at env alive locked sid h w else w)))
          this
          (rw here (
            leave_all-keeps sid table h (leave_at env alive locked sid h w)
              (leave_at-Gone sid h w (ap locked this ∙ l))))
    | inr other ↦ leave_all-Gone sid table name g _ (ground (arith, e, other)) a l
  ]

  -- What becomes of a message. Either it is refused and nothing changes, or the session ends and
  -- leaves its channels, or it goes to a channel that the session subscribed to under the name in the
  -- message, and whose type the configuration enables: the push of the message on this channel does
  -- not throw, its object is what the push leaves, every other object is what it was, and the
  -- registry is the one that the effects of the push leave.
  abbrev pub IsHandled : Client → Option Root → World → Taken × World → Type 0
  IsHandled s root w (disabled, v) = v ≡ w
  IsHandled s root w (closed, v) = v ≡ on_socket_error env alive locked s w
  IsHandled s root w (pushed h, v) =
      (name : Bytes) × (r : Root) × (c c' : Channel) × (es : List Effect) × (n : ℕ) × (unpack root
        ≡ some r)
      × (root ≡ some r)
      × (r.channel ≡ some name)
      × (find name s.subscribed_to ≡ some h)
      × (w.heap h ≡ some c)
      × (s.enabled c.kind ≡ true)
      × (push env (locked h) r.message c ≡ some (c', es, n))
      × ((g : ℕ) → v.heap g ≡ (if g == h then some c' else w.heap g))
      × (v.channels ≡ (apply_effects es w).channels)

  -- After a session ended, it is no subscriber of any channel that it had subscribed to, where the
  -- channel is still there and its lock was free.
  pub on_socket_error-Gone :
      (s : Client) (name : Bytes) (g : ℕ) (w : World)
      → find name s.subscribed_to ≡ some g
      → alive g ≡ true
      → locked g ≡ true
      → Gone s.id g (on_socket_error env alive locked s w)
  unfolding on_socket_error
  on_socket_error-Gone s name g w f a l = leave_all-Gone s.id s.subscribed_to name g w f a l
