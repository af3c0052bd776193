-- ===== src/Upgrade/Admission.antt =====
use push1st.Prelude.{
  Bool, bytes_eq, if◌then◌else◌, false, ◌≤◌, [], bytes_eq_iff, arith, starts_with, ◌∷◌, ◌↔◌, codes,
  false, ap, sym, ◌∙◌, ◌==◌, ◌≡◌, ◌>>=◌, Bool-cases, Option-cases, Option, Bytes, List, refl, none,
  some, inl, inr, true, ℕ,
}
use mathlib.Core.Option.{some-injective}
use push1st.Channel.Table.{find}
use push1st.ApiServer.Events.{Client}
use push1st.Http.Request.{to_lower, Request}
use push1st.Upgrade.{
  parse_digits, close_socket, delete_poll, respond, Act, Ending, served, unserved, part_at,
  get_app_by_key, wants_upgrade, header_value, key_position, ws_upgrade, make_session,
  on_ws_upgrade, start_polling, ws_accept,
}

>>=-eq-some {ℓ κ} :
    {A : Type ℓ} {B : Type κ} (m : Option A) (f : A → Option B) {b : B}
    → (m >>= f) ≡ some b
    → (a : A) × (m ≡ some a) × (f a ≡ some b)
>>=-eq-some none f e = cc
>>=-eq-some (some a) f e = (a, refl, e)

>>=-value {ℓ κ} :
    {A : Type ℓ} {B : Type κ} (m : Option A) (f : A → Option B) {a : A}
    → m ≡ some a
    → (m >>= f) ≡ f a
>>=-value m f e = ap (λ x. x >>= f) e

if_some_lem {ℓ} :
    {A : Type ℓ} (b : Bool) (a c : A) → (if b then some a else none) ≡ some c → (b ≡ true) × (a ≡ c)
if_some_lem true a c e = (refl, some-injective a c e)
if_some_lem false a c e = cc

get_app_by_key_lem :
    (key : Bytes) (apps : List (Bytes × Client)) (app : Client)
    → get_app_by_key key apps ≡ some app
    → (find key apps ≡ some app) × (app.enable ≡ true)
unfolding get_app_by_key
get_app_by_key_lem key apps app e = elim (Option-cases (find key apps)) [
  | inl n ↦ cc (rw (n, get_app_by_key) at e)
  | inr (a, f) ↦
      let (on, same) = if_some_lem a.enable a app (rw (f, get_app_by_key) at e) in
      (f ∙ ap some same, ap (λ x. x.enable) (sym same) ∙ on)
]

get_app_by_key-none :
    (key : Bytes) (apps : List (Bytes × Client))
    → ((app : Client) → find key apps ≡ some app → app.enable ≡ false)
    → get_app_by_key key apps ≡ none
unfolding get_app_by_key
get_app_by_key-none key apps h = elim (Option-cases (find key apps)) [
  | inl n ↦ rw (n, get_app_by_key) refl
  | inr (a, f) ↦ rw (f, get_app_by_key) (rw (h a f) refl)
]

-- A request for a websocket: it gets something, its header "Connection" begins with "upgrade" and
-- its header "Upgrade" with "websocket", in letters of any case, and its version is at least 12.
abbrev pub Asks : Request → Type 0
Asks r =
    (r.method ≡ codes "GET")
    × (starts_with (codes "upgrade") (to_lower (header_value (codes "connection") r.headers))
        ≡ true)
    × (starts_with (codes "websocket") (to_lower (header_value (codes "upgrade") r.headers)) ≡ true)
    × (12 ≤ parse_digits 0 (header_value (codes "sec-websocket-version") r.headers))

wants_upgrade_iff : (r : Request) → (wants_upgrade r ≡ true) ↔ Asks r
unfolding wants_upgrade
wants_upgrade_iff r = (
  λ e. ground (arith, bytes_eq_iff r.method (codes "GET"), e),
  λ h. ground (arith, bytes_eq_iff r.method (codes "GET"), h),
)

module _ (app_path : Bytes) (apps : List (Bytes × Client))
    (routes : List (Bytes × (Option Client → Option ℕ))) (send : Bytes → ℕ) where
  -- A session of an enabled application, found by the key at its place in the path, made by the
  -- factory of the path's route.
  abbrev pub IsAdmitted : List Bytes → Client → Bytes → ℕ → Type 0
  IsAdmitted path app first session =
      (part_at 1 path ≡ some first)
      × ((key : Bytes) × (part_at (if bytes_eq first app_path then 2 else 3) path ≡ some key)
          × (find key apps ≡ some app)
          × (app.enable ≡ true))
      × ((factory : Option Client → Option ℕ) × (find first routes ≡ some factory)
          × (factory (some app) ≡ some session))

  make_session-served :
      (at_first first : Bytes) (a : Option Client) (s : Option ℕ) (app : Client) (session : ℕ)
      (acts : List Act)
      → make_session app_path apps routes send at_first a s ≡ (served app first session, acts)
      → (a ≡ some app) × (s ≡ some session) × (at_first ≡ first)
  unfolding make_session
  make_session-served at_first first none s app session acts e = cc
  make_session-served at_first first (some a) none app session acts e = cc
  make_session-served at_first first (some a) (some s) app session acts e = (cc, cc, cc)

  on_ws_upgrade-served :
      (path : List Bytes) (first : Bytes) (app : Client) (session : ℕ) (acts : List Act)
      → on_ws_upgrade app_path apps routes send path ≡ some (served app first session, acts)
      → IsAdmitted path app first session
  unfolding on_ws_upgrade key_position
  on_ws_upgrade-served path first app session acts e =
      let (at_first, e₁, f₁) = >>=-eq-some (part_at 1 path) _ e in
      let (key, e₂, f₂) =
        >>=-eq-some (part_at (key_position app_path apps routes send at_first) path) _ f₁ in
      let (factory, e₃, f₃) = >>=-eq-some (find at_first routes) _ f₂ in
      let (found, made, same) =
        make_session-served at_first first (get_app_by_key key apps)
          (factory (get_app_by_key key apps)) app session acts (some-injective _ _ f₃) in
      (
        e₁ ∙ ap some same,
        (
          key,
          ap (λ x. part_at (key_position app_path apps routes send x) path) (sym same) ∙ e₂,
          (get_app_by_key_lem key apps app found).0,
          (get_app_by_key_lem key apps app found).1,
        ),
        (factory, ap (λ x. find x routes) (sym same) ∙ e₃, ap factory (sym found) ∙ made),
      )

  start_polling-served :
      (updated : ℕ) (made : Ending × List Act) (first : Bytes) (app : Client) (session : ℕ)
      → (start_polling app_path apps routes send updated made).0 ≡ served app first session
      → made.0 ≡ served app first session
  unfolding start_polling
  start_polling-served updated (served a f s, acts) first app session e = e
  start_polling-served updated (unserved, acts) first app session e = e

  -- What is known of a connection that is served.
  ws_accept-served :
      (updated : ℕ) (request : Option Request) (first : Bytes) (app : Client) (session : ℕ)
      (acts : List Act)
      → ws_accept app_path apps routes send updated request ≡ some (served app first session, acts)
      → (r : Request) × (request ≡ some r)
        × Asks r
        × IsAdmitted r.path.uri_path_list app first session
  unfolding ws_accept
  ws_accept-served updated none first app session acts e = cc
  ws_accept-served updated (some r) first app session acts e = elim (Bool-cases (wants_upgrade r)) [
    | inl t ↦
        let ((code, sent), e₁, f₁) =
          >>=-eq-some (ws_upgrade app_path apps routes send r.path.uri_path_list) _ (rw t at e) in
        elim (Bool-cases (code == 0)) [
          | inl z ↦
              let (made, e₂, f₂) =
                >>=-eq-some (on_ws_upgrade app_path apps routes send r.path.uri_path_list) _
                  (rw z at f₁) in
              let ending =
                start_polling-served updated made first app session
                  (ap (λ p. p.0) (some-injective _ (served app first session, acts) f₂)) in
              (
                r,
                refl,
                (wants_upgrade_iff r).0 t,
                on_ws_upgrade-served r.path.uri_path_list first app session made.1
                    (e₂ ∙ ap (λ x. some (x, made.1)) ending),
              )
          | inr z ↦ cc (rw z at f₁)
        ]
    | inr t ↦ cc (rw t at e)
  ]

  -- Who is refused, before anything else is sent.
  ws_accept-refused :
      (updated : ℕ) (r : Request)
      → (¬ Asks r)
      → ws_accept app_path apps routes send updated (some r)
        ≡ some (unserved, respond (codes "426") ∷ delete_poll ∷ [])
  unfolding ws_accept
  ws_accept-refused updated r n = elim (Bool-cases (wants_upgrade r)) [
    | inl t ↦ absurd (n ((wants_upgrade_iff r).0 t))
    | inr t ↦ rw t refl
  ]

  ws_upgrade-no_route :
      (path : List Bytes) (first : Bytes)
      → part_at 1 path ≡ some first
      → find first routes ≡ none
      → ws_upgrade app_path apps routes send path
        ≡ some (20, respond (codes "404") ∷ close_socket ∷ [])
  unfolding ws_upgrade
  ws_upgrade-no_route path first e n = >>=-value (part_at 1 path) _ e ∙ rw n refl

  ws_upgrade-no_app :
      (path : List Bytes) (first key : Bytes) (factory : Option Client → Option ℕ)
      → part_at 1 path ≡ some first
      → find first routes ≡ some factory
      → part_at (if bytes_eq first app_path then 2 else 3) path ≡ some key
      → ((app : Client) → find key apps ≡ some app → app.enable ≡ false)
      → ws_upgrade app_path apps routes send path
        ≡ some (13, respond (codes "403") ∷ close_socket ∷ [])
  unfolding ws_upgrade key_position
  ws_upgrade-no_app path first key factory e f k n =
      >>=-value (part_at 1 path) _ e
      ∙ rw f (
          >>=-value (part_at (if bytes_eq first app_path then 2 else 3) path) _ k
          ∙ rw (get_app_by_key-none key apps n) refl)

  ws_accept-no_route :
      (updated : ℕ) (r : Request) (first : Bytes)
      → Asks r
      → part_at 1 r.path.uri_path_list ≡ some first
      → find first routes ≡ none
      → ws_accept app_path apps routes send updated (some r)
        ≡ some (unserved, respond (codes "404") ∷ close_socket ∷ [])
  unfolding ws_accept
  ws_accept-no_route updated r first a e n =
      rw ((wants_upgrade_iff r).1 a) (rw (ws_upgrade-no_route r.path.uri_path_list first e n) refl)

  ws_accept-no_app :
      (updated : ℕ) (r : Request) (first key : Bytes) (factory : Option Client → Option ℕ)
      → Asks r
      → part_at 1 r.path.uri_path_list ≡ some first
      → find first routes ≡ some factory
      → part_at (if bytes_eq first app_path then 2 else 3) r.path.uri_path_list ≡ some key
      → ((app : Client) → find key apps ≡ some app → app.enable ≡ false)
      → ws_accept app_path apps routes send updated (some r)
        ≡ some (unserved, respond (codes "403") ∷ close_socket ∷ [])
  unfolding ws_accept
  ws_accept-no_app updated r first key factory a e f k n =
      rw ((wants_upgrade_iff r).1 a)
        (rw (ws_upgrade-no_app r.path.uri_path_list first key factory e f k n) refl)

  -- WsAccept of a socket that is readable. Without a request it answers 400, and a request that does
  -- not ask for a websocket gets 426. One that asks gets 404 where the first part of its path is no
  -- route, and 403 where the key, the second part behind the default route and the third behind
  -- another one, is not that of an application that is enabled, in each case without 101 before. A
  -- connection is served by a session only if its request asks for a websocket, the key at its place
  -- is that of an application that is enabled, and the route's factory made the session for it.
  pub ws_accept_lem :
      (updated : ℕ)
      → (ws_accept app_path apps routes send updated none
          ≡ some (unserved, respond (codes "400") ∷ delete_poll ∷ []))
        × ((r : Request)
            → (¬ Asks r)
            → ws_accept app_path apps routes send updated (some r)
              ≡ some (unserved, respond (codes "426") ∷ delete_poll ∷ []))
        × ((r : Request) (first : Bytes)
            → Asks r
            → part_at 1 r.path.uri_path_list ≡ some first
            → find first routes ≡ none
            → ws_accept app_path apps routes send updated (some r)
              ≡ some (unserved, respond (codes "404") ∷ close_socket ∷ []))
        × ((r : Request) (first key : Bytes) (factory : Option Client → Option ℕ)
            → Asks r
            → part_at 1 r.path.uri_path_list ≡ some first
            → find first routes ≡ some factory
            → part_at (if bytes_eq first app_path then 2 else 3) r.path.uri_path_list ≡ some key
            → ((app : Client) → find key apps ≡ some app → app.enable ≡ false)
            → ws_accept app_path apps routes send updated (some r)
              ≡ some (unserved, respond (codes "403") ∷ close_socket ∷ []))
        × ((request : Option Request) (first : Bytes) (app : Client) (session : ℕ) (acts : List Act)
            → ws_accept app_path apps routes send updated request
              ≡ some (served app first session, acts)
            → (r : Request) × (request ≡ some r)
              × Asks r
              × IsAdmitted r.path.uri_path_list app first session)
  ws_accept_lem updated = (
    unfold ws_accept in refl,
    ws_accept-refused updated,
    ws_accept-no_route updated,
    ws_accept-no_app updated,
    λ request first app session acts e. ws_accept-served updated request first app session acts e,
  )
