-- ===== src/Channel/Presence.antt =====
-- cpresencechannel: the users of a channel, and the messages about them. `locked` and
-- `users_locked` say whether the try_lock of the subscribers and of the users succeeds.
use push1st.Prelude.{
  ◌>>=◌, ◌+◌, codes, ◌≡◌, ◌==◌, ◌++◌, if◌then◌else◌, Option, List, Bool, Bytes, [], ◌∷◌, none, some,
  true, false, ℕ,
}
use push1st.Channel.Table.{emplace, erase}
use push1st.Channel.Message.{Message, absent, array, make_message, delivery_of}
use push1st.Channel.Defs.{
  Sessions, Channel, Effect, deliver, trigger, cluster_trigger, join, leave, select, close_if_empty,
  gc,
}

pub record Presence : Type 0 where
  pub channel : Channel
  pub users : List (Bytes × (Bytes × Bytes))

-- The data of the messages as JSON texts: member_added, member_removed and the list of the users.
pub record Bodies : Type 0 where
  pub added : Bytes → Bytes → Bytes
  pub removed : Bytes → Bytes
  pub listed : List (Bytes × Bytes) → Bytes

unfoldable pub list_users :
    List (Bytes × Bytes) → List (Bytes × (Bytes × Bytes)) → List (Bytes × Bytes)
list_users acc [] = acc
list_users acc ((sid, (uid, info)) ∷ users) = list_users (emplace uid info acc) users

-- GetUsers: the user ids with their data, each id once.
unfoldable pub get_users : List (Bytes × (Bytes × Bytes)) → List (Bytes × Bytes)
get_users users = list_users [] users

-- What a call leaves, and whether it ends with an exception.
pub record Outcome : Type 0 where
  pub state : Presence
  pub effects : List Effect
  pub throws : Bool

module _ (env : Sessions) where
  -- UnSubscribe
  unfoldable pub unsubscribe_user : Bool → Bool → Bytes → Presence → Presence × List Effect
  unsubscribe_user locked users_locked sid p =
      let left = record p.channel {
        subscribers = if locked then erase sid p.channel.subscribers else p.channel.subscribers;
      } in
      (
        record p { channel = left; users = if users_locked then erase sid p.users else p.users },
        (if locked then close_if_empty env left else [])
            ++ (trigger leave sid ∷ cluster_trigger leave sid ∷ []),
      )

  -- The deliveries of cchannel::Push, whose UnSubscribe is the one above.
  unfoldable pub deliver_users : Bool → Bool → List ℕ → Presence → Presence × List Effect
  deliver_users locked users_locked [] p = (p, [])
  deliver_users locked users_locked (h ∷ hs) p =
      let (p₁, es₁) =
        if env.push h == 0 then (p, []) else unsubscribe_user locked users_locked (env.id h) p in
      let (p₂, es₂) = deliver_users locked users_locked hs p₁ in (p₂, deliver h ∷ (es₁ ++ es₂))

  -- cchannel::Push on a presence channel.
  unfoldable pub push_users : Bool → Bool → Message → Presence → Option (Presence × List Effect)
  push_users locked users_locked m p = do
    (to, left) ← select env m.from m.socket_id (delivery_of m.delivery) p.channel.subscribers
    let (p', es) =
        deliver_users locked users_locked to
          (record p { channel = record p.channel { subscribers = left } })
    some (p', es ++ close_if_empty env p'.channel)

  abbrev pub joined : ℕ → Presence → Presence
  joined h p = record p {
    channel = record p.channel { subscribers = emplace (env.id h) h p.channel.subscribers };
  }

  abbrev pub joins : ℕ → List Effect
  joins h = trigger join (env.id h) ∷ cluster_trigger join (env.id h) ∷ []

  -- The two messages of Subscribe: the one for the others, and the one for the session itself.
  abbrev pub added_message : Bodies → ℕ → Bytes → Bytes → Message
  added_message json id uid info =
      make_message id (codes "presence") absent (codes "pusher_internal:member_added")
        (json.added uid info)

  abbrev pub succeeded_message : Bodies → ℕ → ℕ → Presence → Message
  succeeded_message json id h p =
      make_message id (codes "presence") (array (env.id h ∷ []))
        (codes "pusher_internal:subscription_succeeded") (json.listed (get_users p.users))

  -- Subscribe of the session h with what its GetUserInfo gives, where the next messages are the
  -- numbers `id` and `id + 1`.
  unfoldable pub subscribe_user : Bodies → Bool → Bool → ℕ → ℕ → Bytes → Bytes → Presence → Outcome
  subscribe_user json locked users_locked id h [] info p = record {
    state = joined h p;
    effects = joins h;
    throws = false;
  }
  subscribe_user json locked users_locked id h (c ∷ uid) info p =
      elim (push_users locked users_locked (added_message json id (c ∷ uid) info) (joined h p)) [
        | none ↦ record { state = joined h p; effects = []; throws = true }
        | some (p₁, es₁) ↦
            elim (push_users locked users_locked (succeeded_message json (id + 1) h p) p₁) [
              | none ↦ record { state = p₁; effects = es₁; throws = true }
              | some (p₂, es₂) ↦ record {
                state = record p₂ { users = emplace (env.id h) (c ∷ uid, info) p₂.users };
                effects = es₁ ++ (es₂ ++ joins h);
                throws = false;
              }
            ]
      ]

  -- Gc is the one of cchannel.
  unfoldable pub gc_users : Bool → Presence → Presence
  gc_users locked p = record p { channel = (gc env locked p.channel).0 }

  -- The operations of a presence channel; a push may be of any message.
  pub data Step (json : Bodies) : Presence → Presence → Type 0 where
    subscribed :
        (locked users_locked : Bool) (id h : ℕ) (uid info : Bytes) (p : Presence)
        → Step json p (subscribe_user json locked users_locked id h uid info p).state
    unsubscribed :
        (locked users_locked : Bool) (sid : Bytes) (p : Presence)
        → Step json p (unsubscribe_user locked users_locked sid p).0
    pushed :
        (locked users_locked : Bool) (m : Message) (p p' : Presence) (es : List Effect)
        → push_users locked users_locked m p ≡ some (p', es)
        → Step json p p'
    collected : (locked : Bool) (p : Presence) → Step json p (gc_users locked p)

  pub data Reach (json : Bodies) (p : Presence) : Presence → Type 0 where
    start : Reach json p p
    step : (q r : Presence) → Reach json p q → Step json q r → Reach json p r
