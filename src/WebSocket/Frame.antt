-- ===== src/WebSocket/Frame.antt =====
-- Opcodes, the frame layout and cwebsocket::Make.
use Prim.Native.Nat.{bit_xor}
use push1st.Prelude.{
  ℕ, ◌+◌, ◌*◌, ◌%◌, ◌^◌, Bool, true, false, not, ◌||◌, [], ◌∷◌, ◌++◌, Bytes, length, get_or, ltb,
  ◌==◌, if◌then◌else◌,
}
use push1st.WebSocket.Wire.{be_bytes}

-- opcode_t
pub data Opcode : Type 0 where
  more text binary close ping pong : Opcode

abbrev pub opcode_value : Opcode → ℕ
opcode_value more = 0x0
opcode_value text = 0x1
opcode_value binary = 0x2
opcode_value close = 0x8
opcode_value ping = 0x9
opcode_value pong = 0xa

-- close_t
pub data CloseCode : Type 0 where
  normal_closure going_away proto_error unsupported_data no_status_received : CloseCode
  abnormal_closure invalid_payload policy_violation message_to_big : CloseCode
  missing_extension internal_error service_restart try_again_later bad_gateway : CloseCode
  tls_handshake : CloseCode

abbrev pub close_value : CloseCode → ℕ
close_value normal_closure = 1000
close_value going_away = 1001
close_value proto_error = 1002
close_value unsupported_data = 1003
close_value no_status_received = 1005
close_value abnormal_closure = 1006
close_value invalid_payload = 1007
close_value policy_violation = 1008
close_value message_to_big = 1009
close_value missing_extension = 1010
close_value internal_error = 1011
close_value service_restart = 1012
close_value try_again_later = 1013
close_value bad_gateway = 1014
close_value tls_handshake = 1015

-- A bit field of one bit.
abbrev pub bit : Bool → ℕ
bit true = 1
bit false = 0

-- frame_t: the fields from the least significant bit on, fin and mask in the top bits. The
-- constructors of the frame types leave fin set and the reserved bits clear.
unfoldable pub frame_head : Opcode → ℕ → Bool → Bytes
frame_head op len masked = (opcode_value op % 16 + 128) ∷ (len % 128 + 128 * bit masked) ∷ []

-- small_frame_t and small_un_frame_t, up to the key
unfoldable pub small_head : Opcode → ℕ → Bool → Bytes
unfolding frame_head
small_head op len masked = frame_head op len masked

-- medium_frame_t and medium_un_frame_t
unfoldable pub medium_head : Opcode → ℕ → Bool → Bytes
unfolding frame_head
medium_head op len masked = frame_head op 126 masked ++ be_bytes 2 (len % 2 ^ 16)

-- large_frame_t and large_un_frame_t
unfoldable pub large_head : Opcode → ℕ → Bool → Bytes
unfolding frame_head
large_head op len masked = frame_head op 127 masked ++ be_bytes 8 (len % 2 ^ 64)

-- cwebsocket::Mask from the n-th byte on.
unfoldable pub mask_from : ℕ → Bytes → Bytes → Bytes
mask_from n key [] = []
mask_from n key (d ∷ ds) = bit_xor d (get_or key (n % 4) 0) ∷ mask_from (n + 1) key ds

unfoldable pub mask : Bytes → Bytes → Bytes
unfolding mask_from
mask ds key = mask_from 0 key ds

-- MakeUnFrame and MakeFrame; the four bytes that RandMask draws are an argument.
unfoldable pub make_un_frame : (Opcode → ℕ → Bool → Bytes) → Opcode → Bytes → Bytes
make_un_frame head op message = head op (length message) false ++ message

unfoldable pub make_frame : (Opcode → ℕ → Bool → Bytes) → Opcode → Bytes → Bytes → Bytes
make_frame head op message key = head op (length message) true ++ (key ++ mask message key)

-- cwebsocket::Make
unfoldable pub make : Opcode → Bytes → Bool → Bytes → Bytes
make op message masked key =
    if ltb (length message) 126
    then if not masked || (length message == 0)
      then make_un_frame small_head op message
      else make_frame small_head op message key
    else if ltb (length message) 65536
    then if not masked
      then make_un_frame medium_head op message
      else make_frame medium_head op message key
    else if not masked
    then make_un_frame large_head op message
    else make_frame large_head op message key
