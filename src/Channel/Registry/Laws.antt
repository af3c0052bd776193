-- ===== src/Channel/Registry/Laws.antt =====
-- The registry as a map, and its agreement with the channels.
use push1st.Prelude.{
  Bool-cases, ◌&&◌, ℕ, ◌≤◌, ◌≡◌, ◌≢◌, refl, ◌∙◌, [], ◌∷◌, none, some, arith, Bytes, bytes_eq,
  bytes_eq_iff, if◌then◌else◌, Option-cases, inl, inr, All,
}
use push1st.Channel.Kind.{Kind, none_kind, pub_kind, priv_kind, pres_kind, prot_kind}
use push1st.Channel.Table.{find, emplace, find-emplace, find-erase}
use push1st.Channel.Defs.{Channel}
use push1st.Channel.Registry.{
  World, channel_uid, made_kind, new_channel, write, add_channel, register, get, unregister_uid,
}

-- The application ids of the program have no '#'.
abbrev pub NoHash : Bytes → Type 0
NoHash app = All (λ b. b ≢ b'#') app

-- With no '#' in an application's id, the unique id of a channel tells application and name.
pub channel_uid-injective :
    (a b n m : Bytes) → NoHash a → NoHash b → channel_uid a n ≡ channel_uid b m → (a ≡ b) × (n ≡ m)
unfolding channel_uid
channel_uid-injective [] [] n m ha hb e = ground arith
channel_uid-injective [] (y ∷ b) n m ha hb e = absurd (hb.0 (ground arith))
channel_uid-injective (x ∷ a) [] n m ha hb e = absurd (ha.0 (ground arith))
channel_uid-injective (x ∷ a) (y ∷ b) n m ha hb e =
    ground (arith, channel_uid-injective a b n m ha.1 hb.1)

-- What Register answers, and what Get finds after it.
register_cases :
    (k : Kind) (app name : Bytes) (w : World) (k' : Kind)
    → made_kind k ≡ some k'
    → (uid : Bytes)
    → find uid (register k app name w).0.channels ≡ (
        if bytes_eq (channel_uid app name) uid
        then (register k app name w).1
        else find uid w.channels)
unfolding register add_channel
register_cases k app name w k' e uid =
    elim (Option-cases (find (channel_uid app name) w.channels)) [
      | inl f ↦
          rw (f, register)
            (rw (e, register)
              (ground (arith, find-emplace (channel_uid app name) uid w.next w.channels, f)))
      | inr (h, f) ↦ rw (f, register) (ground (arith, bytes_eq_iff (channel_uid app name) uid, f))
    ]

makes : (k : Kind) → k ≢ none_kind → (k' : Kind) × (made_kind k ≡ some k')
unfolding made_kind
makes none_kind h = absurd (h refl)
makes pub_kind h = (pub_kind, refl)
makes priv_kind h = (priv_kind, refl)
makes pres_kind h = (pres_kind, refl)
makes prot_kind h = (priv_kind, refl)

uid_eq :
    (app app' name name' : Bytes)
    → NoHash app
    → NoHash app'
    → bytes_eq (channel_uid app name) (channel_uid app' name')
      ≡ (bytes_eq app app' && bytes_eq name name')
uid_eq app app' name name' na na' = ground (
  arith,
  bytes_eq_iff (channel_uid app name) (channel_uid app' name'),
  bytes_eq_iff app app',
  bytes_eq_iff name name',
  channel_uid-injective app app' name name' na na',
)

-- After a channel is registered, `Get` finds the answer of `Register` under its application and name,
-- and under every other application or name what it found before.
pub get-register :
    (k : Kind) (app app' name name' : Bytes) (w : World)
    → k ≢ none_kind
    → NoHash app
    → NoHash app'
    → get app' name' (register k app name w).0 ≡ (
        if bytes_eq app app' && bytes_eq name name'
        then (register k app name w).1
        else get app' name' w)
unfolding get
get-register k app app' name name' w h na na' =
    let (k', e) = makes k h in
    register_cases k app name w k' e (channel_uid app' name')
    ∙ rw (uid_eq app app' name name' na na') refl

-- A channel that is registered is not made again: `Register` answers with it whatever the type asked
-- for, and the world stays as it is.
pub register_registered :
    (k : Kind) (app name : Bytes) (w : World) (h : ℕ)
    → get app name w ≡ some h
    → register k app name w ≡ (w, some h)
unfolding get register
register_registered k app name w h e = rw (e, register) refl

-- The registry and the heap agree: every id that is registered leads to a channel of that id, and
-- no object stands where the next one will.
pub record IsConsistent (w : World) : Type 0 where
  pub points :
      (uid : Bytes) (h : ℕ)
      → find uid w.channels ≡ some h
      → (c : Channel) × (w.heap h ≡ some c) × (c.uid ≡ uid)
  pub fresh : (h : ℕ) → w.next ≤ h → w.heap h ≡ none

add_channel-points :
    (k : Kind) (key name : Bytes) (w : World)
    → IsConsistent w
    → find key w.channels ≡ none
    → (uid : Bytes) (h : ℕ) → find uid (emplace key w.next w.channels) ≡ some h
    → (c : Channel) × (write w.next (new_channel k key name) w.heap h ≡ some c) × (c.uid ≡ uid)
unfolding write
add_channel-points k key name w v f uid h e = elim (Bool-cases (bytes_eq key uid)) [
  | inl same ↦ (
    new_channel k key name,
    ground (arith, find-emplace key uid w.next w.channels),
    unfold new_channel in (bytes_eq_iff key uid).0 same,
  )
  | inr other ↦
      let (c, q, u) = v.points uid h (ground (arith, find-emplace key uid w.next w.channels)) in
      (c, ground (arith, v.fresh w.next), u)
]

-- Registering a channel keeps registry and heap in agreement.
pub register-IsConsistent :
    (k : Kind) (app name : Bytes) (w : World)
    → IsConsistent w
    → IsConsistent (register k app name w).0
unfolding register add_channel write
register-IsConsistent k app name w v =
    elim (Option-cases (find (channel_uid app name) w.channels)) [
      | inl f ↦ elim (Option-cases (made_kind k)) [
        | inl m ↦ rw (f, register) (rw (m, register) v)
        | inr (k', m) ↦
            rw (f, register)
              (rw (m, register)
                (record {
                  points = add_channel-points k' (channel_uid app name) name w v f;
                  fresh = λ h l. ground (arith, v.fresh h);
                }))
      ]
      | inr (h, f) ↦ rw (f, register) v
    ]

pub unregister_uid-IsConsistent :
    (uid : Bytes) (w : World) → IsConsistent w → IsConsistent (unregister_uid uid w)
unfolding unregister_uid
unregister_uid-IsConsistent uid w v = record {
  points = λ u h e. v.points u h (ground (arith, find-erase uid u w.channels));
  fresh = v.fresh;
}
