-- ===== src/Pusher/Entry.antt =====
-- Who may enter a channel through a Pusher session.
use push1st.Prelude.{
  ◌≢◌, codes, bytes_eq, Bool-cases, ◌⊎◌, arith, Option, Option-cases, List, ◌≡◌, Bytes, refl, [],
  ◌∷◌, none, some, inl, inr, true, false, ℕ, ◌>>=◌,
}
use push1st.Channel.Kind.{Kind, none_kind, pub_kind, priv_kind, pres_kind, prot_kind, channel_type}
use push1st.Channel.Table.{find}
use push1st.Credentials.App.{
  Crypto, App, is_allow_channel, has_kind, allows_origin, is_member, is_pub,
}
use push1st.Credentials.Session.{validate_session}
use mathlib.Core.Path.{subst, sym}
use push1st.Pusher.Session.{
  text_or_empty, Session, Request, Payload, Action, subscribe, Peers, touch, is_allow, accepts,
  with_presence, error_of, enter, subscribe_channel, channel_name, on_pusher_subscribe,
  on_pusher_unsubscribe, on_pusher_ping, on_pusher_push, on_event, on_ws_message,
}

-- The channel that a list of actions subscribes the session to.
abbrev pub entered : List Action → Option (Kind × ℕ)
entered [] = none
entered (subscribe kind h ∷ acts) = some (kind, h)
entered (_ ∷ acts) = entered acts

is_pub_lem : (kind : Kind) → is_pub kind ≡ true → kind ≡ pub_kind
unfolding is_pub
is_pub_lem none_kind e = absurd (cc)
is_pub_lem pub_kind e = refl
is_pub_lem priv_kind e = absurd (cc)
is_pub_lem pres_kind e = absurd (cc)
is_pub_lem prot_kind e = absurd (cc)

origins_cases :
    (app : App)
    → app.origins ≢ []
    → is_member [] app.origins ≡ false
    → allows_origin app [] ≡ true
    → ⊥
unfolding allows_origin
origins_cases app n o a = ground (arith, n)

module _ (k : Crypto) (app : App) (peers : Peers) (now : ℕ) where
  -- The application has channels of this type and takes an empty origin, and unless the channel is
  -- public the token is valid for the session, the channel and the data that goes with it.
  abbrev pub MayEnter : Bytes → Kind → Bytes → Option Bytes → Bytes → Type 0
  MayEnter id kind name auth custom =
      (has_kind app.channels kind ≡ true)
      × (allows_origin app [] ≡ true)
      × ((kind ≡ pub_kind)
          ⊎ ((token : Bytes) × (auth ≡ some token)
              × (validate_session k app.secret token id name custom ≡ true)))

  -- The data that a token signs: that of the request for a presence channel, and none otherwise.
  abbrev pub signed : Kind → Request → Bytes
  signed pres_kind r = text_or_empty k app peers now r.channel_data
  signed _ r = []

  is_allow-MayEnter :
      (s : Session) (kind : Kind) (name token custom : Bytes)
      → is_allow k app peers now s kind name token custom ≡ true
      → MayEnter s.id kind name (some token) custom
  unfolding is_allow is_allow_channel
  is_allow-MayEnter s kind name token custom e =
      let (h, o) : (has_kind app.channels kind ≡ true) × (allows_origin app [] ≡ true) =
        ground arith in
      (
        h,
        o,
        elim (Bool-cases (is_pub kind)) [
          | inl p ↦ inl (is_pub_lem kind p)
          | inr private ↦ inr (token, refl, ground arith)
        ],
      )

  with_token :
      (id name custom : Bytes) (kind : Kind) (t : Bytes) (auth : Option Bytes)
      → auth ≡ some t
      → MayEnter id kind name (some t) custom
      → MayEnter id kind name auth custom
  with_token id name custom kind t auth f h = subst (λ a. MayEnter id kind name a custom) (sym f) h

  channel_name_lem :
      (d : Option Request) (name : Bytes) (r : Request)
      → channel_name k app peers now d ≡ some (name, r)
      → (d ≡ some r) × (r.channel ≡ some name)
  unfolding channel_name
  channel_name_lem none name r e = cc
  channel_name_lem (some q) name r e = elim (Option-cases q.channel) [
    | inl n ↦ cc (rw n at e)
    | inr (x, f) ↦ ground (arith, rw f at e)
  ]

  accepts-MayEnter :
      (s : Session) (kind : Kind) (name : Bytes) (r : Request)
      → accepts k app peers now s kind name r ≡ true
      → MayEnter s.id kind name r.auth (signed kind r)
  unfolding accepts
  accepts-MayEnter s none_kind name r e = absurd (cc)
  accepts-MayEnter s prot_kind name r e = absurd (cc)
  accepts-MayEnter s pub_kind name r e =
      let (h, o, _) = is_allow-MayEnter s pub_kind name [] [] e in (h, o, inl refl)
  accepts-MayEnter s priv_kind name r e = elim (Option-cases r.auth) [
    | inl n ↦ absurd (cc (rw n at e))
    | inr (t, f) ↦
        with_token s.id name [] priv_kind t r.auth f
          (is_allow-MayEnter s priv_kind name t [] (rw f at e))
  ]
  accepts-MayEnter s pres_kind name r e = elim (Option-cases r.auth) [
    | inl n ↦ absurd (cc (rw n at e))
    | inr (t, f) ↦
        with_token s.id name (signed pres_kind r) pres_kind t r.auth f
          (is_allow-MayEnter s pres_kind name t (signed pres_kind r) (rw f at e))
  ]

  entered-error_of : (res : ℕ) → entered (error_of k app peers now res) ≡ none
  unfolding error_of
  entered-error_of res = ground arith

  entered-enter :
      (kind kind' : Kind) (name : Bytes) (s : Session) (h : ℕ)
      → entered (enter k app peers now kind name s).1 ≡ some (kind', h)
      → (kind' ≡ kind) × (peers.register kind name ≡ some h)
  unfolding enter
  entered-enter kind kind' name s h e = elim (Option-cases (peers.register kind name)) [
    | inl n ↦ absurd (ground arith)
    | inr (h', f) ↦ ground arith
  ]

  with_presence-id :
      (kind : Kind) (r : Request) (s : Session) → (with_presence k app peers now kind r s).id ≡ s.id
  unfolding with_presence
  with_presence-id none_kind r s = refl
  with_presence-id pub_kind r s = refl
  with_presence-id priv_kind r s = refl
  with_presence-id prot_kind r s = refl
  with_presence-id pres_kind r s = elim (Option-cases r.auth) [
    | inl n ↦ rw n refl
    | inr (t, f) ↦ rw f refl
  ]

  entered-subscribe_channel :
      (kind kind' : Kind) (name : Bytes) (r : Request) (s : Session) (h : ℕ)
      → entered (subscribe_channel k app peers now kind name r s).1 ≡ some (kind', h)
      → (kind' ≡ kind)
        × (peers.register kind name ≡ some h)
        × MayEnter s.id kind name r.auth (signed kind r)
  unfolding subscribe_channel
  entered-subscribe_channel kind kind' name r s h e =
      let s' = with_presence k app peers now kind r s in
      elim (Bool-cases (accepts k app peers now s' kind name r)) [
        | inl allowed ↦
            let (a, b) = entered-enter kind kind' name s' h (rw allowed at e) in
            (a, b, rw (with_presence-id kind r s) at (accepts-MayEnter s' kind name r allowed))
        | inr refused ↦ absurd (ground arith)
      ]

  entered-on_pusher_unsubscribe :
      (m : Payload) (s : Session) → entered (on_pusher_unsubscribe k app peers now m s).1 ≡ none
  unfolding on_pusher_unsubscribe
  entered-on_pusher_unsubscribe m s =
      elim (Option-cases (m.request >>= (λ r. r.channel >>= (λ name. find name s.subscribed_to)))) [
        | inl n ↦ rw (n, on_pusher_unsubscribe) refl
        | inr (h, f) ↦ rw (f, on_pusher_unsubscribe) (ground arith)
      ]

  entered-on_pusher_push :
      (name : Bytes) (m : Payload) (s : Session)
      → entered (on_pusher_push k app peers now name m s).1 ≡ none
  unfolding on_pusher_push
  entered-on_pusher_push name m s = elim (Option-cases (m.request >>= (λ r. r.channel))) [
    | inl n ↦ rw n (ground arith)
    | inr (c, f) ↦ rw f (ground arith)
  ]

  entered-on_event :
      (e : Bytes) (m : Payload) (s : Session)
      → bytes_eq e (codes "pusher:subscribe") ≡ false
      → entered (on_event k app peers now e m s).1 ≡ none
  unfolding on_event on_pusher_ping
  entered-on_event e m s n = elim (Option-cases m.channel) [
    | inl c ↦ ground (arith, entered-on_pusher_unsubscribe m s)
    | inr (name, c) ↦
        ground (arith, entered-on_pusher_unsubscribe m s, entered-on_pusher_push name m s)
  ]

  -- What a subscription that takes place has passed.
  abbrev pub Passed : Payload → Session → Kind → ℕ → Type 0
  Passed m s kind h =
      (name : Bytes) × (r : Request) × (m.request ≡ some r)
      × (r.channel ≡ some name)
      × (kind ≡ channel_type name)
      × (peers.register kind name ≡ some h)
      × MayEnter s.id kind name r.auth (signed kind r)

  entered-on_pusher_subscribe :
      (m : Payload) (s : Session) (kind : Kind) (h : ℕ)
      → entered (on_pusher_subscribe k app peers now m s).1 ≡ some (kind, h)
      → Passed m s kind h
  unfolding on_pusher_subscribe touch
  entered-on_pusher_subscribe m s kind h e =
      elim (Option-cases (channel_name k app peers now m.request)) [
        | inl n ↦ absurd (ground arith)
        | inr ((name, r), f) ↦
            let (a, b, c) =
              entered-subscribe_channel (channel_type name) kind name r (touch k app peers now s) h
                (rw (f, on_pusher_subscribe) at e) in
            let (given, named) = channel_name_lem m.request name r f in
            (name, r, given, named, a, rw a b, rw a c)
      ]

  on_event-subscribe :
      (e : Bytes) (m : Payload) (s : Session)
      → bytes_eq e (codes "pusher:subscribe") ≡ true
      → on_event k app peers now e m s ≡ on_pusher_subscribe k app peers now m s
  unfolding on_event
  on_event-subscribe e m s h = rw (h, on_event) refl

  -- Where a message makes the session subscribe to a channel, the message names the channel, the
  -- object is the one registered for the type and the name, the application has channels of the type
  -- and takes an empty origin, and the channel is public or the message's own token is valid for the
  -- session and the channel, and in a presence channel for the message's data.
  pub entered-on_ws_message :
      (m : Option Payload) (s : Session) (kind : Kind) (h : ℕ)
      → entered (on_ws_message k app peers now m s).1 ≡ some (kind, h)
      → (p : Payload) × (m ≡ some p) × Passed p s kind h
  unfolding on_ws_message
  entered-on_ws_message none s kind h e = absurd (cc)
  entered-on_ws_message (some m) s kind h e = elim (Option-cases m.event) [
    | inl n ↦ absurd (ground arith)
    | inr (name, f) ↦ elim (Bool-cases (bytes_eq name (codes "pusher:subscribe"))) [
      | inl subscribes ↦
          let q : entered (on_pusher_subscribe k app peers now m (touch k app peers now s)).1
              ≡ some (kind, h) =
            ground (arith, on_event-subscribe name m (touch k app peers now s) subscribes) in
          (
            m,
            refl,
            unfold touch in entered-on_pusher_subscribe m (touch k app peers now s) kind h q,
          )
      | inr other ↦ absurd (ground (arith, entered-on_event name m (touch k app peers now s) other))
    ]
  ]

  -- In an application that lists origins, the empty one not among them, no message subscribes the
  -- session to a channel.
  pub entered_origins :
      app.origins ≢ []
      → is_member [] app.origins ≡ false
      → (m : Option Payload) (s : Session) → entered (on_ws_message k app peers now m s).1 ≡ none
  entered_origins n o m s = elim (Option-cases (entered (on_ws_message k app peers now m s).1)) [
    | inl e ↦ e
    | inr ((kind, h), e) ↦
        let (p, q, (name, r, given, named, t, g, (f, allowed, w))) =
          entered-on_ws_message m s kind h e in
        absurd (origins_cases app n o allowed)
  ]
