-- ===== src/Raw/Connect.antt =====
-- OnWsConnect: the channels that the path names. What the rest of the program answers are the
-- parameters: the check of a token for a type and a name, and the object that Register returns.
use mathlib.Core.List.{List, append-nil, append_assoc}
use mathlib.Core.Option.{some-injective}
use push1st.Prelude.{
  ap, Bool-cases, ◌∙◌, Option-cases, arith, ◌==◌, ◌↔◌, sym, if◌then◌else◌, ◌≡◌, Option, Bool, Bytes,
  length, ◌++◌, ◌+◌, refl, [], ◌∷◌, none, some, inl, inr, ℕ, suc,
}
use push1st.Channel.Kind.{Kind, channel_type}
use push1st.Channel.Table.{emplace}

-- SubscribedTo, the channels whose Subscribe was called, in order, and `nchannels`.
pub record Connected : Type 0 where
  pub subscribed_to : List (Bytes × ℕ)
  pub subscribed : List ℕ
  pub nchannels : ℕ

nil_of : (xs : List ℕ) → length xs ≡ 0 → xs ≡ []
nil_of [] e = refl
nil_of (x ∷ xs) e = absurd (omega arith)

module _ (is_allow : Kind → Bytes → Bool) (register : Kind → Bytes → Option ℕ) where
  -- The object that one name leads to; no name has the type `none`.
  unfoldable pub entered_channel : Bytes → Option ℕ
  entered_channel name =
      if is_allow (channel_type name) name then register (channel_type name) name else none

  -- The loop, from what was collected before.
  unfoldable pub connect_loop : List Bytes → Connected → Connected
  connect_loop [] c = c
  connect_loop (name ∷ names) c = elim (entered_channel name) [
    | none ↦ connect_loop names c
    | some h ↦ connect_loop names (record {
      subscribed_to = emplace name h c.subscribed_to;
      subscribed = c.subscribed ++ h ∷ [];
      nchannels = suc c.nchannels;
    })
  ]

  -- The result, on the components of the path from the fifth on: `some` where the session joins the
  -- poll, `none` where it closes with a policy violation.
  unfoldable pub on_ws_connect : List Bytes → Option Connected
  on_ws_connect names =
      let c = connect_loop names (record { subscribed_to = []; subscribed = []; nchannels = 0 }) in
      if c.nchannels == 0 then none else some c

  -- The objects of the names that are allowed and registered, in order.
  abbrev pub channels_of : List Bytes → List ℕ
  channels_of [] = []
  channels_of (name ∷ names) = elim (entered_channel name) [
    | none ↦ channels_of names
    | some h ↦ h ∷ channels_of names
  ]

  connect_loop_lem :
      (names : List Bytes) (c : Connected)
      → ((connect_loop names c).subscribed ≡ c.subscribed ++ channels_of names)
        × ((connect_loop names c).nchannels ≡ c.nchannels + length (channels_of names))
  unfolding connect_loop
  connect_loop_lem [] c = (sym (append-nil c.subscribed), omega arith)
  connect_loop_lem (name ∷ names) c = elim (Option-cases (entered_channel name)) [
    | inl n ↦ rw (n, connect_loop) (rw (n, channels_of) (connect_loop_lem names c))
    | inr (h, f) ↦
        let (a, b) = connect_loop_lem names (record {
          subscribed_to = emplace name h c.subscribed_to;
          subscribed = c.subscribed ++ h ∷ [];
          nchannels = suc c.nchannels;
        }) in
        rw (f, connect_loop)
          (rw (f, channels_of)
            (a ∙ append_assoc c.subscribed (h ∷ []) (channels_of names), omega (arith, b)))
  ]

  -- A connection subscribes the session to the object of each name that is allowed and registered,
  -- in the order of the path, and it is refused exactly if there is none.
  pub on_ws_connect_lem :
      (names : List Bytes)
      → ((on_ws_connect names ≡ none) ↔ (channels_of names ≡ []))
        × ((c : Connected) → on_ws_connect names ≡ some c → c.subscribed ≡ channels_of names)
  unfolding on_ws_connect
  on_ws_connect_lem names =
      let (a, b) =
        connect_loop_lem names (record { subscribed_to = []; subscribed = []; nchannels = 0 }) in
      elim (Bool-cases (
        (connect_loop names
          (record { subscribed_to = []; subscribed = []; nchannels = 0 })).nchannels
        == 0)) [
          | inl z ↦
              rw (z, on_ws_connect)
                (
                  (λ e. nil_of (channels_of names) (ground (arith, b)), λ e. refl),
                  λ c e. absurd (cc),
                )
          | inr p ↦
              rw (p, on_ws_connect)
                (
                  (λ e. absurd (cc), λ e. absurd (ground (arith, b, ap length e))),
                  λ c e. ap (λ (o : Connected). o.subscribed) (sym (some-injective _ _ e)) ∙ a,
                )
        ]
