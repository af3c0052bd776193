-- ===== src/Channel/Users.antt =====
-- What the list of users of a presence channel can hold.
pub mod Joining
use mathlib.Core.Path.{subst}
use mathlib.Core.Option.{some-injective}
use push1st.Prelude.{
  codes, ◌+◌, Bool-cases, arith, ◌==◌, Option-cases, if◌then◌else◌, ◌≢◌, ◌≡◌, Bytes, List, bytes_eq,
  Bool, refl, [], ◌∷◌, none, some, inl, inr, true, false, ℕ,
}
use push1st.Channel.Table.{erase}
use push1st.Channel.Message.{Message, array, make_message, delivery_of, is_present, as_string}
use push1st.Channel.Defs.{Sessions, Effect, select}
use push1st.Channel.Presence.{
  joined, added_message, Presence, Bodies, get_users, list_users, unsubscribe_user, deliver_users,
  push_users, subscribe_user, gc_users, Step, subscribed, unsubscribed, pushed, collected, Reach,
  start, step,
}

module _ (env : Sessions) where
  unsubscribe_user-users :
      (locked users_locked : Bool) (sid : Bytes) (p : Presence)
      → p.users ≡ []
      → (unsubscribe_user env locked users_locked sid p).0.users ≡ []
  unfolding unsubscribe_user erase
  unsubscribe_user-users locked true sid p e = rw e refl
  unsubscribe_user-users locked false sid p e = e

  attempt-users :
      (locked users_locked : Bool) (h : ℕ) (p : Presence)
      → p.users ≡ []
      → (if env.push h == 0
          then (p, [])
          else unsubscribe_user env locked users_locked (env.id h) p).0.users
        ≡ []
  attempt-users locked users_locked h p e = elim (Bool-cases (env.push h == 0)) [
    | inl taken ↦ rw taken e
    | inr failed ↦ rw failed (unsubscribe_user-users locked users_locked (env.id h) p e)
  ]

  deliver_users-users :
      (locked users_locked : Bool) (hs : List ℕ) (p : Presence)
      → p.users ≡ []
      → (deliver_users env locked users_locked hs p).0.users ≡ []
  unfolding deliver_users
  deliver_users-users locked users_locked [] p e = e
  deliver_users-users locked users_locked (h ∷ hs) p e =
      deliver_users-users locked users_locked hs _ (attempt-users locked users_locked h p e)

  push_users-users :
      (locked users_locked : Bool) (m : Message) (p p' : Presence) (es : List Effect)
      → p.users ≡ []
      → push_users env locked users_locked m p ≡ some (p', es)
      → p'.users ≡ []
  unfolding push_users
  push_users-users locked users_locked m p p' es e f =
      elim (Option-cases
        (select env m.from m.socket_id (delivery_of m.delivery) p.channel.subscribers)) [
          | inl n ↦ absurd (ground arith)
          | inr ((to, left), s) ↦
              let f' : some
                    (deliver_users env locked users_locked to
                      (record p { channel = record p.channel { subscribers = left } })).0
                  ≡ some p' =
                ground arith in
              subst (λ q. q.users ≡ []) (some-injective _ _ f')
                (deliver_users-users locked users_locked to
                  (record p { channel = record p.channel { subscribers = left } }) e)
        ]

  -- A list of sessions cannot be the text that Push expects.
  pub push_users_array :
      (locked users_locked : Bool) (id : ℕ) (from sid event body : Bytes) (p : Presence)
      → push_users env locked users_locked (make_message id from (array (sid ∷ [])) event body) p
        ≡ none
  unfolding push_users select make_message delivery_of is_present as_string bytes_eq
  push_users_array locked users_locked id from sid event body p = refl

  subscribe_user-users :
      (json : Bodies) (locked users_locked : Bool) (id h : ℕ) (uid info : Bytes) (p : Presence)
      → uid ≢ []
      → p.users ≡ []
      → (subscribe_user env json locked users_locked id h uid info p).state.users ≡ []
  unfolding subscribe_user
  subscribe_user-users json locked users_locked id h [] info p n e = absurd (n refl)
  subscribe_user-users json locked users_locked id h (c ∷ uid) info p n e =
      elim (Option-cases (
        push_users env locked users_locked (added_message env json id (c ∷ uid) info)
          (joined env h p))) [
            | inl none_left ↦ rw (none_left, subscribe_user) e
            | inr ((p₁, es₁), s) ↦
                rw (s, subscribe_user)
                  (rw
                    (
                      push_users_array locked users_locked (id + 1) (codes "presence") (env.id h)
                          (codes "pusher_internal:subscription_succeeded")
                          (json.listed (get_users p.users)) p₁,
                      subscribe_user,
                    )
                    (push_users-users locked users_locked _ (joined env h p) p₁ es₁ e s))
          ]

  users-Step : (json : Bodies) (p q : Presence) → p.users ≡ [] → Step env json p q → q.users ≡ []
  unfolding subscribe_user gc_users
  users-Step json _ _ e (subscribed locked users_locked id h [] info p) = e
  users-Step json _ _ e (subscribed locked users_locked id h (c ∷ uid) info p) =
      subscribe_user-users json locked users_locked id h (c ∷ uid) info p (λ n. cc) e
  users-Step json _ _ e (unsubscribed locked users_locked sid p) =
      unsubscribe_user-users locked users_locked sid p e
  users-Step json _ _ e (pushed locked users_locked m p q es f) =
      push_users-users locked users_locked m p q es e f
  users-Step json _ _ e (collected locked p) = e

  users-Reach : (json : Bodies) (p q : Presence) → p.users ≡ [] → Reach env json p q → q.users ≡ []
  users-Reach json p _ e start = e
  users-Reach json p _ e (step q r w s) = users-Step json q r (users-Reach json p q e w) s

  -- The list of users of a channel that starts without users is empty after any sequence of
  -- subscriptions, unsubscriptions, pushes and collections: GetUsers never finds a user.
  pub get_users-Reach :
      (json : Bodies) (p q : Presence) → p.users ≡ [] → Reach env json p q → get_users q.users ≡ []
  unfolding get_users list_users
  get_users-Reach json p q e w = rw (users-Reach json p q e w) refl
