-- ===== src/Channel/Registry/Idle.antt =====
-- cbroker::OnIdle: the channels are collected until one of them is left without subscribers.
pub mod Kept
use mathlib.Core.Option.{Mem, some-injective}
use push1st.Prelude.{
  ◌++◌, length, ◌&&◌, ap, sym, arith, ◌∙◌, ◌==◌, ◌≡◌, ==_iff, Bool-cases, Option-cases,
  bytes_eq_iff, if◌then◌else◌, Option, Bytes, Bool, List, refl, [], ◌∷◌, none, some, inl, inr, true,
  false, ℕ,
}
use push1st.Channel.Table.{find, find-erase, find-keep-some}
use push1st.Channel.Defs.{
  Sessions, Channel, Effect, deliver, unregister, trigger, cluster_trigger, cluster_push,
  disconnect, gc, gc_loop,
}
use push1st.Channel.Members.{gc_lem}
use push1st.Channel.Registry.{World, write, unregister_uid, apply_effects, update_channel}
use push1st.Channel.Registry.Laws.{IsConsistent, unregister_uid-IsConsistent}
use push1st.Channel.Registry.Push.{apply_effects-heap}

-- What an idle round does: the registry after it, and the id that it unregisters, if any.
pub record Round : Type 0 where
  pub world : World
  pub closed : Option Bytes

module _ (env : Sessions) where
  -- The loop over the list that was taken before.
  unfoldable pub on_idle : Bool → List (Bytes × ℕ) → World → Round
  on_idle locked [] w = record { world = w; closed = none }
  on_idle locked ((uid, h) ∷ t) w = elim (w.heap h) [
    | none ↦ on_idle locked t w
    | some c ↦
        let (c', es, left) = gc env locked c in
        let w' = update_channel h (c', es) w in
        let rest = on_idle locked t w' in
        if left == 0 then record { world = unregister_uid uid w'; closed = some uid } else rest
  ]

find-apply_effects :
    (es : List Effect) (u : Bytes) (g : ℕ) (w : World)
    → find u (apply_effects es w).channels ≡ some g
    → find u w.channels ≡ some g
unfolding apply_effects unregister_uid
find-apply_effects [] u g w e = e
find-apply_effects (unregister v ∷ es) u g w e =
    ground (arith, find-apply_effects es u g (unregister_uid v w) e, find-erase v u w.channels)
find-apply_effects (deliver h ∷ es) u g w e = find-apply_effects es u g w e
find-apply_effects (trigger k s ∷ es) u g w e = find-apply_effects es u g w e
find-apply_effects (cluster_trigger k s ∷ es) u g w e = find-apply_effects es u g w e
find-apply_effects (cluster_push m ∷ es) u g w e = find-apply_effects es u g w e
find-apply_effects (disconnect h ∷ es) u g w e = find-apply_effects es u g w e

-- A method that keeps the channel's id keeps registry and heap in agreement, whatever its effects.
pub update_channel-IsConsistent :
    (h : ℕ) (c c' : Channel) (es : List Effect) (w : World)
    → w.heap h ≡ some c
    → c'.uid ≡ c.uid
    → IsConsistent w
    → IsConsistent (update_channel h (c', es) w)
unfolding update_channel write
update_channel-IsConsistent h c c' es w e same v =
    let stored : World = record w { heap = write h c' w.heap } in
    let (heap, next) = apply_effects-heap es stored in
    record {
      points = λ u g f.
          let (d, q, i) = v.points u g (find-apply_effects es u g stored f) in
          elim (Bool-cases (g == h)) [
            | inl t ↦
                let own : d.uid ≡ c.uid =
                  ap (λ x. x.uid) (some-injective d c (sym q ∙ ap w.heap ((==_iff g h).0 t) ∙ e)) in
                (c', ap (λ k. k g) heap ∙ rw t refl, same ∙ sym own ∙ i)
            | inr t ↦ (d, ap (λ k. k g) heap ∙ rw t q, i)
          ];
      fresh = λ g l. ap (λ k. k g) heap ∙ ground (arith, next, v.fresh g, v.fresh h, e);
    }

find-unregister_uid :
    (uid u : Bytes) (w : World) → uid ≡ u → find u (unregister_uid uid w).channels ≡ none
unfolding unregister_uid
find-unregister_uid uid u w e = ground (arith, find-erase uid u w.channels, bytes_eq_iff uid u)

module _ (env : Sessions) where
  gc_uid : (locked : Bool) (c : Channel) → (gc env locked c).0.uid ≡ c.uid
  unfolding gc
  gc_uid true c = refl
  gc_uid false c = refl

  -- Registry and heap, and the id that is unregistered.
  pub on_idle-IsConsistent :
      (locked : Bool) (t : List (Bytes × ℕ)) (w : World)
      → IsConsistent w
      → IsConsistent (on_idle env locked t w).world
        × ((uid : Bytes)
            → (on_idle env locked t w).closed ≡ some uid
            → find uid (on_idle env locked t w).world.channels ≡ none)
  unfolding on_idle
  on_idle-IsConsistent locked [] w v = (v, λ uid e. cc)
  on_idle-IsConsistent locked ((uid, h) ∷ t) w v = elim (Option-cases (w.heap h)) [
    | inl n ↦ rw (n, on_idle) (on_idle-IsConsistent locked t w v)
    | inr (c, e) ↦
        let w' = update_channel h ((gc env locked c).0, (gc env locked c).1) w in
        let kept =
          update_channel-IsConsistent h c (gc env locked c).0 (gc env locked c).1 w e
            (gc_uid locked c) v in
        elim (Bool-cases ((gc env locked c).2 == 0)) [
          | inl z ↦
              rw (e, on_idle)
                (rw z (
                  unregister_uid-IsConsistent uid w' kept,
                  λ u f. find-unregister_uid uid u w' (some-injective uid u f),
                ))
          | inr z ↦ rw (e, on_idle) (rw z (on_idle-IsConsistent locked t w' kept))
        ]
  ]
