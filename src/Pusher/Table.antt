-- ===== src/Pusher/Table.antt =====
-- What a Pusher session remembers of the channels it entered.
use push1st.Prelude.{
  bytes_eq_iff, ◌+◌, Bool-cases, arith, ◌∙◌, Option-cases, Option, ◌≡◌, Bytes, refl, none, some,
  inl, inr, ℕ, ◌>>=◌,
}
use push1st.Channel.Kind.{Kind, none_kind, pub_kind, priv_kind, pres_kind, prot_kind, channel_type}
use push1st.Channel.Table.{find, find-emplace}
use push1st.Credentials.App.{Crypto, App}
use push1st.Pusher.Session.{
  Session, Request, Payload, Peers, touch, accepts, with_presence, with_user, enter,
  subscribe_channel, channel_name, on_pusher_subscribe, on_pusher_unsubscribe, on_pusher_ping,
  on_pusher_push, on_event, on_ws_message,
}

module _ (k : Crypto) (app : App) (peers : Peers) (now : ℕ) where
  -- The entry that a session has for a name.
  abbrev pub entry : Bytes → Session → Option ℕ
  entry name s = find name s.subscribed_to

  entry-with_presence :
      (name : Bytes) (kind : Kind) (r : Request) (s : Session)
      → entry name (with_presence k app peers now kind r s) ≡ entry name s
  unfolding with_presence
  entry-with_presence name none_kind r s = refl
  entry-with_presence name pub_kind r s = refl
  entry-with_presence name priv_kind r s = refl
  entry-with_presence name prot_kind r s = refl
  entry-with_presence name pres_kind r s = elim (Option-cases r.auth) [
    | inl n ↦ rw n refl
    | inr (t, f) ↦ rw f refl
  ]

  entry-with_user :
      (name : Bytes) (kind : Kind) (s : Session)
      → entry name (with_user k app peers now kind s) ≡ entry name s
  unfolding with_user
  entry-with_user name none_kind s = refl
  entry-with_user name pub_kind s = refl
  entry-with_user name priv_kind s = refl
  entry-with_user name prot_kind s = refl
  entry-with_user name pres_kind s = elim (Option-cases (peers.user_id_in s.presence_data)) [
    | inl n ↦ rw (n, with_user) refl
    | inr (t, f) ↦ rw (f, with_user) refl
  ]

  entry-enter :
      (name other : Bytes) (kind : Kind) (s : Session) (h : ℕ)
      → entry name s ≡ some h
      → entry name (enter k app peers now kind other s).0 ≡ some h
  unfolding enter
  entry-enter name other kind s h e = elim (Option-cases (peers.register kind other)) [
    | inl n ↦ rw (n, enter) e
    | inr (h', f) ↦
        rw (f, enter)
          (find-emplace other name h' (with_user k app peers now kind s).subscribed_to
            ∙ ground (arith, bytes_eq_iff other name, entry-with_user name kind s))
  ]

  entry-subscribe_channel :
      (name other : Bytes) (kind : Kind) (r : Request) (s : Session) (h : ℕ)
      → entry name s ≡ some h
      → entry name (subscribe_channel k app peers now kind other r s).0 ≡ some h
  unfolding subscribe_channel
  entry-subscribe_channel name other kind r s h e =
      let s' = with_presence k app peers now kind r s in
      let e' : entry name s' ≡ some h = entry-with_presence name kind r s ∙ e in
      elim (Bool-cases (accepts k app peers now s' kind other r)) [
        | inl allowed ↦ rw (allowed, subscribe_channel) (entry-enter name other kind s' h e')
        | inr refused ↦ rw (refused, subscribe_channel) e'
      ]

  entry-on_pusher_subscribe :
      (name : Bytes) (m : Payload) (s : Session) (h : ℕ)
      → entry name s ≡ some h
      → entry name (on_pusher_subscribe k app peers now m s).0 ≡ some h
  unfolding on_pusher_subscribe touch
  entry-on_pusher_subscribe name m s h e =
      elim (Option-cases (channel_name k app peers now m.request)) [
        | inl n ↦ rw (n, on_pusher_subscribe) e
        | inr ((other, r), f) ↦
            rw (f, on_pusher_subscribe)
              (entry-subscribe_channel name other (channel_type other) r _ h e)
      ]

  entry-on_pusher_unsubscribe :
      (name : Bytes) (m : Payload) (s : Session)
      → entry name (on_pusher_unsubscribe k app peers now m s).0 ≡ entry name s
  unfolding on_pusher_unsubscribe
  entry-on_pusher_unsubscribe name m s =
      elim (Option-cases (m.request >>= (λ r. r.channel >>= (λ c. find c s.subscribed_to)))) [
        | inl n ↦ rw (n, on_pusher_unsubscribe) refl
        | inr (h, f) ↦ rw (f, on_pusher_unsubscribe) refl
      ]

  entry-on_pusher_push :
      (name channel : Bytes) (m : Payload) (s : Session)
      → entry name (on_pusher_push k app peers now channel m s).0 ≡ entry name s
  unfolding on_pusher_push
  entry-on_pusher_push name channel m s = elim (Option-cases (m.request >>= (λ r. r.channel))) [
    | inl n ↦ ground (arith, n)
    | inr (c, f) ↦ ground (arith, f)
  ]

  entry-on_event :
      (name e : Bytes) (m : Payload) (s : Session) (h : ℕ)
      → entry name s ≡ some h
      → entry name (on_event k app peers now e m s).0 ≡ some h
  unfolding on_event on_pusher_ping touch
  entry-on_event name e m s h i = elim (Option-cases m.channel) [
    | inl c ↦
        ground (arith, entry-on_pusher_unsubscribe name m s, entry-on_pusher_subscribe name m s h i)
    | inr (channel, c) ↦ ground (
      arith,
      entry-on_pusher_unsubscribe name m s,
      entry-on_pusher_subscribe name m s h i,
      entry-on_pusher_push name channel m s,
    )
  ]

  -- The object that a session remembers for the name of a channel stays the same whatever messages
  -- arrive, also where an object that is registered later takes its place.
  pub entry-on_ws_message :
      (name : Bytes) (m : Option Payload) (s : Session) (h : ℕ)
      → find name s.subscribed_to ≡ some h
      → find name (on_ws_message k app peers now m s).0.subscribed_to ≡ some h
  unfolding on_ws_message touch
  entry-on_ws_message name none s h e = e
  entry-on_ws_message name (some m) s h e = elim (Option-cases m.event) [
    | inl n ↦ ground (arith, n)
    | inr (event, f) ↦ ground (
      arith,
      f,
      entry-on_event name event m (record s { activity_check_time = now + s.keep_alive }) h e,
    )
  ]
