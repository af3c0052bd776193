-- ===== src/WebSocket/Tests.antt =====
-- Runs of the frame reader, and the theorems at concrete inputs.
use push1st.Prelude.{◌≡◌, refl, Bool, true, [], ◌∷◌, ◌++◌, arith, Bytes, All, codes}
use push1st.WebSocket.Wire.{be_bytes, be_value}
use push1st.WebSocket.Frame.{
  text, opcode_value, frame_head, make, make_frame, make_un_frame, small_head, mask, medium_head,
}
use push1st.WebSocket.Conn.{
  received, pinged, send_pong, read_message, read_payload, read_length, read_key, read_body, recv,
  unmask, dispatch,
}
use push1st.WebSocket.RoundTrip.{read_message-make}
use push1st.WebSocket.Reports.{Admitted, read_message-Admitted}

program : Bool
unfolding frame_head make make_frame make_un_frame small_head medium_head mask be_bytes be_value
    read_message read_payload read_length read_key read_body recv unmask dispatch
program = true

abbrev some_key : Bytes
some_key = 0x37 ∷ 0xfa ∷ 0x21 ∷ 0x3d ∷ []

-- The masked "Hello" of RFC 6455, section 5.7.
hello :
    make text (codes "Hello") true some_key
    ≡ 0x81 ∷ 0x85 ∷ 0x37 ∷ 0xfa ∷ 0x21 ∷ 0x3d ∷ 0x7f ∷ 0x9f ∷ 0x4d ∷ 0x51 ∷ 0x58 ∷ []
unfolding program
hello = refl

reads_ping : (read_message 100 104 (0x89 ∷ 0x00 ∷ [])).calls ≡ pinged ∷ send_pong ∷ []
unfolding program
reads_ping = refl

read_message-make_example :
    read_message 100 104 (make text (codes "Hello") true some_key ++ 7 ∷ [])
    ≡ dispatch (opcode_value text) (received (codes "Hello"), 7 ∷ [])
read_message-make_example =
    read_message-make 100 104 text (codes "Hello") true some_key (7 ∷ []) (omega arith)
      (omega arith) refl (omega arith) (omega arith)

read_message-Admitted_example :
    All (Admitted 100) (read_message 100 104 (0x81 ∷ 0x02 ∷ 104 ∷ 105 ∷ [])).calls
read_message-Admitted_example =
    read_message-Admitted 100 104 (0x81 ∷ 0x02 ∷ 104 ∷ 105 ∷ []) (omega arith)
