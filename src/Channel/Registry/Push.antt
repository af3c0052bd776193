-- ===== src/Channel/Registry/Push.antt =====
-- What a push through a pointer does to the registry.
use push1st.Channel.Members.{find-push, fails}
use push1st.Channel.Routing.{recipients}
use push1st.Channel.Registry.Laws.{IsConsistent}
use mathlib.Core.Option.{some-injective}
use push1st.Prelude.{
  false, Option, Bool, ==_iff, Bool-cases, ◌&&◌, ℕ, ◌≡◌, refl, sym, ap, ◌∙◌, true, List, [], ◌∷◌,
  none, some, arith, Bytes, bytes_eq, ◌==◌, if◌then◌else◌, Option-cases, inl, inr, All,
}
use push1st.Channel.Table.{HasDistinctKeys, find, find-erase}
use push1st.Channel.Message.{Message}
use push1st.Channel.Closing.{Only, unregisters, is_closed, push-Only, unregisters-push}
use push1st.Channel.Defs.{
  push, deliver, unregister, trigger, cluster_trigger, cluster_push, disconnect, Sessions, Channel,
  Effect,
}
use push1st.Channel.Registry.{World, write, unregister_uid, apply_effects, update_channel, push_at}

-- The effects of a channel of this id, on the registry.
apply_effects_lem :
    (es : List Effect) (uid u : Bytes) (w : World)
    → All (Only uid) es
    → find u (apply_effects es w).channels
      ≡ (if unregisters es && bytes_eq uid u then none else find u w.channels)
unfolding apply_effects unregister_uid
apply_effects_lem [] uid u w o = refl
apply_effects_lem (unregister v ∷ es) uid u w o =
    apply_effects_lem es uid u (unregister_uid v w) o.1
    ∙ ground (arith, find-erase v u w.channels, o.0)
apply_effects_lem (deliver h ∷ es) uid u w o = apply_effects_lem es uid u w o.1
apply_effects_lem (trigger k s ∷ es) uid u w o = apply_effects_lem es uid u w o.1
apply_effects_lem (cluster_trigger k s ∷ es) uid u w o = apply_effects_lem es uid u w o.1
apply_effects_lem (cluster_push m ∷ es) uid u w o = apply_effects_lem es uid u w o.1
apply_effects_lem (disconnect h ∷ es) uid u w o = apply_effects_lem es uid u w o.1

pub apply_effects-heap :
    (es : List Effect) (w : World)
    → ((apply_effects es w).heap ≡ w.heap) × ((apply_effects es w).next ≡ w.next)
unfolding apply_effects unregister_uid
apply_effects-heap [] w = (refl, refl)
apply_effects-heap (unregister v ∷ es) w = apply_effects-heap es (unregister_uid v w)
apply_effects-heap (deliver h ∷ es) w = apply_effects-heap es w
apply_effects-heap (trigger k s ∷ es) w = apply_effects-heap es w
apply_effects-heap (cluster_trigger k s ∷ es) w = apply_effects-heap es w
apply_effects-heap (cluster_push m ∷ es) w = apply_effects-heap es w
apply_effects-heap (disconnect h ∷ es) w = apply_effects-heap es w

find_pushed :
    (env : Sessions) (locked : Bool) (m : Message) (h : ℕ) (w : World) (c : Channel)
    (p : Channel × List Effect × ℕ)
    → w.heap h ≡ some c
    → push env locked m c ≡ some p
    → (u : Bytes)
    → find u (push_at env locked m h w).channels
      ≡ (if is_closed p.0 && bytes_eq c.uid u then none else find u w.channels)
unfolding push_at update_channel
find_pushed env locked m h w c (c', es, n) e p u =
    rw (e, push_at)
      (rw (p, push_at)
        (apply_effects_lem es c.uid u _ (push-Only env locked m c c' es n p).0
          ∙ rw (unregisters-push env locked m c c' es n p) refl))

-- A push through a pointer to a channel that is there, whoever holds its lock meanwhile: what is
-- registered after it. If the push throws, nothing changes; otherwise the channel's own id is
-- forgotten exactly if the push leaves it without subscribers and it closes by itself, and no other
-- id is touched.
pub find-push_at :
    (env : Sessions) (locked : Bool) (m : Message) (h : ℕ) (w : World) (c : Channel)
    → w.heap h ≡ some c
    → (u : Bytes)
    → find u (push_at env locked m h w).channels ≡ (elim (push env locked m c) [
      | none ↦ find u w.channels
      | some (c', es, n) ↦ if is_closed c' && bytes_eq c.uid u then none else find u w.channels
    ])
unfolding push_at
find-push_at env locked m h w c e u = elim (Option-cases (push env locked m c)) [
  | inl t ↦ rw (e, push_at) (rw (t, push_at) refl)
  | inr (p, t) ↦ find_pushed env locked m h w c p e t u ∙ rw t refl
]

push_at-points :
    (env : Sessions) (locked : Bool) (m : Message) (h : ℕ) (w : World) (c c' : Channel)
    (es : List Effect) (n : ℕ)
    → IsConsistent w
    → w.heap h ≡ some c
    → push env locked m c ≡ some (c', es, n)
    → (u : Bytes) (g : ℕ) → find u (push_at env locked m h w).channels ≡ some g
    → (d : Channel) × (write h c' w.heap g ≡ some d) × (d.uid ≡ u)
unfolding write
push_at-points env locked m h w c c' es n v e p u g f =
    let found = find_pushed env locked m h w c (c', es, n) e p u in
    let (d, q, i) = v.points u g (ground (arith, found)) in
    elim (Bool-cases (g == h)) [
      | inl same ↦ (
        c',
        rw same refl,
        (push-Only env locked m c c' es n p).1
            ∙ ap (λ x. x.uid)
                (some-injective c d (sym e ∙ ap w.heap (sym ((==_iff g h).0 same)) ∙ q))
            ∙ i,
      )
      | inr other ↦ (d, rw other q, i)
    ]

push_at-heap :
    (env : Sessions) (locked : Bool) (m : Message) (h : ℕ) (w : World) (c c' : Channel)
    (es : List Effect) (n : ℕ)
    → w.heap h ≡ some c
    → push env locked m c ≡ some (c', es, n)
    → ((push_at env locked m h w).heap ≡ write h c' w.heap)
      × ((push_at env locked m h w).next ≡ w.next)
unfolding push_at update_channel
push_at-heap env locked m h w c c' es n e p =
    rw (e, push_at) (rw (p, push_at) (apply_effects-heap es _))

push_at_found :
    (env : Sessions) (locked : Bool) (m : Message) (h : ℕ) (w : World) (c : Channel)
    (p : Channel × List Effect × ℕ)
    → IsConsistent w
    → w.heap h ≡ some c
    → push env locked m c ≡ some p
    → IsConsistent (push_at env locked m h w)
unfolding write
push_at_found env locked m h w c (c', es, n) v e p =
    let (same, next) = push_at-heap env locked m h w c c' es n e p in
    record {
      points = λ u g f.
          let (d, q, i) = push_at-points env locked m h w c c' es n v e p u g f in
          (d, ap (λ k. k g) same ∙ q, i);
      fresh = λ g l. ap (λ k. k g) same ∙ ground (arith, next, v.fresh g, v.fresh h, e);
    }

-- A push through a pointer keeps registry and heap in agreement.
pub push_at-IsConsistent :
    (env : Sessions) (locked : Bool) (m : Message) (h : ℕ) (w : World)
    → IsConsistent w
    → IsConsistent (push_at env locked m h w)
unfolding push_at
push_at-IsConsistent env locked m h w v = elim (Option-cases (w.heap h)) [
  | inl e ↦ rw (e, push_at) v
  | inr (c, e) ↦ elim (Option-cases (push env locked m c)) [
    | inl t ↦ rw (e, push_at) (rw (t, push_at) v)
    | inr (p, t) ↦ push_at_found env locked m h w c p v e t
  ]
]

-- Which subscribers a push may take away: where it throws, or while the lock is held elsewhere, none,
-- and otherwise the ones whose id is that of a recipient that failed to take the message.
abbrev pub removes : Sessions → Bool → Message → Channel → Bytes → Bool
removes env locked m c sid = elim (push env locked m c) [
  | none ↦ false
  | some r ↦ locked && fails env sid (recipients env m c.subscribers)
]

push_at_members :
    (env : Sessions) (locked : Bool) (m : Message) (h : ℕ) (w : World) (c : Channel)
    (p : Option (Channel × List Effect × ℕ))
    → HasDistinctKeys c.subscribers
    → w.heap h ≡ some c
    → push env locked m c ≡ p
    → (c' : Channel) × ((j : ℕ) → (push_at env locked m h w).heap j ≡ write h c' w.heap j)
      × ((sid : Bytes) (g : ℕ)
          → find sid c.subscribers ≡ some g
          → env.is_alive g ≡ true
          → find sid c'.subscribers ≡ (if removes env locked m c sid then none else some g))
unfolding push_at write
push_at_members env locked m h w c none d e t = (
  c,
  λ j.
      rw (e, push_at)
        (rw (t, push_at)
          (elim (Bool-cases (j == h)) [
            | inl same ↦ rw same (ap w.heap ((==_iff j h).0 same) ∙ e)
            | inr other ↦ rw other refl
          ])),
  λ sid g f a. rw (t, removes) f,
)
push_at_members env locked m h w c (some (c', es, n)) d e t = (
  c',
  λ j. ap (λ k. k j) (push_at-heap env locked m h w c c' es n e t).0,
  λ sid g f a. rw (t, removes) (find-push env locked m c c' es n sid g d t f a),
)

-- A push through a pointer to a channel that is there, whoever holds its lock meanwhile and also
-- where it throws: registry and heap stay in agreement, every other object is left as it is, and a
-- live subscriber of the channel is still subscribed under its id, unless the push does not throw,
-- the lock is free and a recipient of the same id failed to take the message.
pub push_at_lem :
    (env : Sessions) (locked : Bool) (m : Message) (h : ℕ) (w : World) (c : Channel)
    → IsConsistent w
    → HasDistinctKeys c.subscribers
    → w.heap h ≡ some c
    → IsConsistent (push_at env locked m h w)
      × ((c' : Channel) × ((j : ℕ) → (push_at env locked m h w).heap j ≡ write h c' w.heap j)
          × ((sid : Bytes) (g : ℕ)
              → find sid c.subscribers ≡ some g
              → env.is_alive g ≡ true
              → find sid c'.subscribers ≡ (if removes env locked m c sid then none else some g)))
push_at_lem env locked m h w c v d e =
    (push_at-IsConsistent env locked m h w v, push_at_members env locked m h w c _ d e refl)
