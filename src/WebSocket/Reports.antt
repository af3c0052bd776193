-- ===== src/WebSocket/Reports.antt =====
-- What a read reports: errors, and the messages handed on.
use push1st.Prelude.{
  length-take, ◌/◌, ℕ, ◌+◌, ◌*◌, ◌%◌, ◌<◌, ◌≡◌, ◌≢◌, refl, Bool, true, false, ◌⊎◌, inl, inr, List,
  [], ◌∷◌, ◌++◌, none, some, arith, Bytes, length, ◌==◌, if◌then◌else◌, Option-cases, All,
}
use push1st.WebSocket.Frame.{
  large_head, medium_head, small_head, make_frame, make_un_frame, Opcode, text, binary,
  opcode_value, bit, frame_head, make,
}
use push1st.WebSocket.RoundTrip.{
  length-mask, key_field, read_key_lem, length-second, masked-second, opcode-first,
  read_length_small,
}
use push1st.WebSocket.Conn.{
  Body, received, unread, too_big, Call, message, error, Outcome, recv, read_length, read_key,
  read_body, unmask, dispatch, read_payload, read_message, send_message, write_message,
}

-- The errors that the session was told.
abbrev pub errors : List Call → List ℕ
errors [] = []
errors (error e ∷ cs) = e ∷ errors cs
errors (_ ∷ cs) = errors cs

abbrev pub Reported : Outcome → Type 0
Reported o = errors o.calls ≡ (if o.result == 0 then [] else o.result ∷ [])

dispatch-Reported : (op : ℕ) (b : Body) (rest : Bytes) → Reported (dispatch op (b, rest))
unfolding dispatch
dispatch-Reported op too_big rest = refl
dispatch-Reported op (received m) rest = ground arith
dispatch-Reported op (unread n) rest = ground arith

abbrev failed : ℕ → Outcome
failed e = record { calls = error e ∷ []; result = e; rest = [] }

-- A read fails at the header, the length or the key, or it ends in a dispatch.
module _ {ℓ} (P : Outcome → Type ℓ) (max failure : ℕ) (P_failed : P (failed failure))
    (P_dispatch : (op n : ℕ) (m : Bool) (key inner : Bytes)
      → P (dispatch op (read_body max n m key inner))) where
  payload_cases :
      (b0 b1 : ℕ) (input : Bytes)
      → (read_payload max b0 b1 input ≡ none)
        ⊎ ((o : Outcome) × (read_payload max b0 b1 input ≡ some o) × P o)
  unfolding read_payload
  payload_cases b0 b1 input = elim (Option-cases (read_length (b1 % 128) input)) [
    | inl e ↦ rw e (inl refl)
    | inr ((n, input₁), e) ↦ elim (Option-cases (read_key (b1 / 128 == 1) input₁)) [
      | inl f ↦ rw e (rw f (inl refl))
      | inr ((key, input₂), f) ↦
          rw e (rw f (inr (_, refl, P_dispatch (b0 % 16) n (b1 / 128 == 1) key input₂)))
    ]
  ]

  read_message_cases : (input : Bytes) → P (read_message max failure input)
  unfolding read_message
  read_message_cases [] = P_failed
  read_message_cases (b0 ∷ []) = P_failed
  read_message_cases (b0 ∷ b1 ∷ input) = elim (payload_cases b0 b1 input) [
    | inl e ↦ rw (e, read_message) P_failed
    | inr (o, e, h) ↦ rw (e, read_message) h
  ]

-- The result of a read is the error that the session was told, and the session is told exactly one
-- if the result is no success, and none if it is.
pub errors-read_message :
    (max failure : ℕ) (input : Bytes)
    → failure ≢ 0
    → errors (read_message max failure input).calls ≡ (
        if (read_message max failure input).result == 0
        then []
        else (read_message max failure input).result ∷ [])
errors-read_message max failure input h =
    read_message_cases Reported max failure (ground arith)
      (λ op n m key inner.
        dispatch-Reported op (read_body max n m key inner).0 (read_body max n m key inner).1)
      input

-- What a message handed on satisfies: a text or a binary one, shorter than the maximum.
abbrev pub Admitted : ℕ → Call → Type 0
Admitted max (message op (received m)) =
    ((op ≡ opcode_value text) ⊎ (op ≡ opcode_value binary)) × (length m < max)
Admitted max (message op (unread n)) =
    ((op ≡ opcode_value text) ⊎ (op ≡ opcode_value binary)) × (n < max)
Admitted max (message op too_big) = ⊥
Admitted max _ = Unit {0}

abbrev Fits : ℕ → Body → Type 0
Fits max (received m) = length m < max
Fits max (unread n) = n < max
Fits max too_big = Unit {0}

dispatch-Admitted :
    (max op : ℕ) (b : Body) (rest : Bytes)
    → Fits max b
    → All (Admitted max) (dispatch op (b, rest)).calls
unfolding dispatch
dispatch-Admitted max op too_big rest h = (tt, (tt, tt))
dispatch-Admitted max op (received m) rest h = ground arith
dispatch-Admitted max op (unread n) rest h = ground arith

length-recv : (n : ℕ) (input p rest : Bytes) → recv n input ≡ some (p, rest) → length p ≡ n
unfolding recv
length-recv n input p rest h = ground (arith, length-take n input)

length-unmask : (m : Bool) (key p : Bytes) → length (unmask m key p) ≡ length p
unfolding unmask
length-unmask true key p = length-mask p key
length-unmask false key p = refl

read_body-Fits :
    (max n : ℕ) (m : Bool) (key inner : Bytes) → 0 < max → Fits max (read_body max n m key inner).0
unfolding read_body
read_body-Fits max n m key inner h = elim (Option-cases (recv n inner)) [
  | inl e ↦ rw (e, read_body) (ground arith)
  | inr ((p, rest), e) ↦
      rw (e, read_body) (ground (arith, length-recv n inner p rest e, length-unmask m key p))
]

-- Every message that a read hands on is a text or a binary one and shorter than the maximum, where the
-- maximum is not 0.
pub read_message-Admitted :
    (max failure : ℕ) (input : Bytes)
    → 0 < max
    → All (Admitted max) (read_message max failure input).calls
read_message-Admitted max failure input h =
    read_message_cases (λ o. All (Admitted max) o.calls) max failure (tt, tt)
      (λ op n m key inner.
        dispatch-Admitted max op (read_body max n m key inner).0 (read_body max n m key inner).1
          (read_body-Fits max n m key inner h))
      input

read_body_unread :
    (max n : ℕ) (m : Bool) (key partial : Bytes)
    → 0 < n
    → n < max
    → length partial < n
    → read_body max n m key partial ≡ (unread n, [])
unfolding read_body recv
read_body_unread max n m key partial h0 h1 h2 = ground arith

truncated_payload :
    (max n : ℕ) (m : Bool) (key partial : Bytes)
    → 0 < n
    → n < 126
    → n < max
    → length key ≡ 4
    → length partial < n
    → read_payload max
        (opcode_value text % 16 + 128)
        (n % 128 + 128 * bit m)
        (key_field m key ++ partial)
      ≡ some (dispatch (opcode_value text) (unread n, []))
unfolding read_payload
truncated_payload max n m key partial h0 h1 h2 hk hp = rw (length-second n m (omega arith)) (
    rw (masked-second n m) (
      rw (opcode-first text, read_length_small n (key_field m key ++ partial) h1)
        (rw (read_key_lem m key partial hk)
          (rw (read_body_unread max n m (key_field m key) partial h0 h2 hp) refl))))

-- Where the payload of a text frame of less than 126 bytes is cut short, masked or not, the read
-- still succeeds: the session is told no error, and is handed the buffer that was never filled.
pub read_message_truncated :
    (max failure n : ℕ) (m : Bool) (key partial : Bytes)
    → 0 < n
    → n < 126
    → n < max
    → length key ≡ 4
    → length partial < n
    → read_message max failure (frame_head text n m ++ (key_field m key ++ partial))
      ≡ record { calls = message (opcode_value text) (unread n) ∷ []; result = 0; rest = [] }
unfolding read_message frame_head dispatch
read_message_truncated max failure n m key partial h0 h1 h2 hk hp =
    rw (truncated_payload max n m key partial h0 h1 h2 hk hp, read_message) refl

-- `Make` gives no empty frame, so a write fails only as the socket does, and tells the session.
length-make :
    (op : Opcode) (msg : Bytes) (m : Bool) (key : Bytes) → (length (make op msg m key) == 0) ≡ false
unfolding make make_un_frame make_frame small_head medium_head large_head frame_head
length-make op msg m key = ground arith

pub write_message_lem :
    (ws_send : Bytes → ℕ) (op : Opcode) (msg : Bytes) (m : Bool) (key : Bytes)
    → ((write_message ws_send op msg m key).1 ≡ ws_send (make op msg m key))
      × (errors (write_message ws_send op msg m key).0
          ≡ (if ws_send (make op msg m key) == 0 then [] else ws_send (make op msg m key) ∷ []))
      × (send_message ws_send op msg m key ≡ ws_send (make op msg m key))
unfolding write_message send_message
write_message_lem ws_send op msg m key = ground (arith, length-make op msg m key)
