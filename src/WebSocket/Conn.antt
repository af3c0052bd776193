-- ===== src/WebSocket/Conn.antt =====
-- cwsconnection: reading a message, and writing one. The socket below `WsRecv` is the bytes that
-- will still arrive and the error that follows them: a read of n bytes gives n bytes, or the error
-- where fewer are left. Errors are the errno, 0 for success; the source returns their negation.
use push1st.Prelude.{
  ℕ, ◌/◌, ◌%◌, Bool, false, ◌||◌, List, [], ◌∷◌, Option, none, some, Bytes, length, take, drop, ltb,
  leb, ◌==◌, if◌then◌else◌, ◌>>=◌,
}
use push1st.WebSocket.Wire.{be_bytes, be_value}
use push1st.WebSocket.Frame.{
  Opcode, text, binary, close, ping, opcode_value, CloseCode, unsupported_data, message_to_big,
  close_value, mask, make,
}

abbrev pub emsgsize : ℕ
emsgsize = 90

abbrev pub enodata : ℕ
enodata = 61

abbrev pub enomem : ℕ
enomem = 12

-- The buffer of a message: filled, or allocated for n bytes that the socket did not deliver.
pub data Body : Type 0 where
  received : Bytes → Body
  unread : ℕ → Body
  too_big : Body

-- What the connection asks of its session: the virtual functions, and the frames it sends itself.
pub data Call : Type 0 where
  message : ℕ → Body → Call
  pinged closed : Call
  send_pong : Call
  close_with : CloseCode → Call
  error : ℕ → Call

pub record Outcome : Type 0 where
  pub calls : List Call
  pub result : ℕ
  pub rest : Bytes

unfoldable pub recv : ℕ → Bytes → Option (Bytes × Bytes)
recv n input = if leb n (length input) then some (take n input, drop n input) else none

-- The length field: in the header, or in the two or eight bytes after it.
unfoldable pub read_length : ℕ → Bytes → Option (ℕ × Bytes)
read_length len input =
    if ltb len 126
    then some (len, input)
    else do (extra, rest) ← recv (if len == 126 then 2 else 8) input; some (be_value extra, rest)

unfoldable pub read_key : Bool → Bytes → Option (Bytes × Bytes)
read_key masked input = if masked then recv 4 input else some ([], input)

unfoldable pub unmask : Bool → Bytes → Bytes → Bytes
unmask masked key payload = if masked then mask payload key else payload

-- The payload. A failed read is not reported: the buffer is handed on as it is.
unfoldable pub read_body : ℕ → ℕ → Bool → Bytes → Bytes → Body × Bytes
read_body max n masked key input =
    if n == 0
    then (received [], input)
    else if ltb n max
    then elim (recv n input) [
      | none ↦ (unread n, [])
      | some (payload, rest) ↦ (received (unmask masked key payload), rest)
    ]
    else (too_big, input)

unfoldable pub dispatch : ℕ → Body × Bytes → Outcome
dispatch op (too_big, rest) = record {
  calls = close_with message_to_big ∷ error emsgsize ∷ [];
  result = emsgsize;
  rest = rest;
}
dispatch op (body, rest) =
    if (op == opcode_value text) || (op == opcode_value binary)
    then record { calls = message op body ∷ []; result = 0; rest = rest }
    else if op == opcode_value ping
    then record { calls = pinged ∷ send_pong ∷ []; result = 0; rest = rest }
    else if op == opcode_value close
    then record { calls = closed ∷ []; result = 0; rest = rest }
    else record {
      calls = close_with unsupported_data ∷ error enodata ∷ [];
      result = enodata;
      rest = rest;
    }

-- What follows the two bytes of frame_t.
unfoldable pub read_payload : ℕ → ℕ → ℕ → Bytes → Option Outcome
read_payload max b0 b1 input = do
  (n, input₁) ← read_length (b1 % 128) input
  (key, input₂) ← read_key (b1 / 128 == 1) input₁
  some (dispatch (b0 % 16) (read_body max n (b1 / 128 == 1) key input₂))

-- cwsconnection::WsReadMessage
unfoldable pub read_message : ℕ → ℕ → Bytes → Outcome
read_message max failure (b0 ∷ b1 ∷ input) = elim (read_payload max b0 b1 input) [
  | none ↦ record { calls = error failure ∷ []; result = failure; rest = [] }
  | some o ↦ o
]
read_message max failure _ = record { calls = error failure ∷ []; result = failure; rest = [] }

-- WsSendMessage and WsWriteMessage, over the status of `WsSend`: the bytes sent, the calls of
-- `OnWsError`, and the result.
unfoldable pub send_message : (Bytes → ℕ) → Opcode → Bytes → Bool → Bytes → ℕ
send_message ws_send op data' masked key =
    let frame = make op data' masked key in if length frame == 0 then enomem else ws_send frame

unfoldable pub write_message : (Bytes → ℕ) → Opcode → Bytes → Bool → Bytes → List Call × ℕ
write_message ws_send op data' masked key =
    let frame = make op data' masked key in
    if length frame == 0
    then (error enomem ∷ [], enomem)
    else let res = ws_send frame in if res == 0 then ([], 0) else (error res ∷ [], res)

-- WsClose: the code in network order as the payload of an unmasked close frame.
unfoldable pub ws_close : (Bytes → ℕ) → CloseCode → Bytes → List Call × ℕ
ws_close ws_send code key = write_message ws_send close (be_bytes 2 (close_value code)) false key
