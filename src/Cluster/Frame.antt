-- ===== src/Cluster/Frame.antt =====
-- The frames of namespace proto: three bytes of header and a payload.
use push1st.Prelude.{
  arith, ◌+◌, ◌*◌, ◌/◌, ◌%◌, ◌^◌, ◌==◌, ◌≡◌, ◌≢◌, ◌<◌, if◌then◌else◌, Option, Bytes, refl, [], ◌∷◌,
  none, some, ℕ, zero, suc, length, take, drop, take-length,
}

-- op_t
pub data Op : Type 0 where
  noop ping reg unreg join leave push : Op

unfoldable pub op_code : Op → ℕ
op_code noop = 0
op_code ping = 1
op_code reg = 2
op_code unreg = 3
op_code join = 4
op_code leave = 5
op_code push = 6

-- MaxFrameSize and sizeof(hdr_t)
abbrev pub max_frame_size : ℕ
max_frame_size = 65400

abbrev pub header_size : ℕ
header_size = 3

-- Pack: the low four bits of the first byte are the operation, then come fr = 0, sf = 1 and the two
-- bits lt = 1; the length is what is left of it in 16 bits, the low byte first.
unfoldable pub pack_op : Op → Bytes → Bytes
pack_op op packed =
    (op_code op + (2 ^ 5 + 2 ^ 6))
    ∷ (length packed % 2 ^ 16 % 2 ^ 8)
    ∷ (length packed % 2 ^ 16 / 2 ^ 8)
    ∷ packed

-- The fields of a header, read from the bytes of a frame; what is not there is read as 0.
unfoldable pub byte_at : ℕ → Bytes → ℕ
byte_at i [] = 0
byte_at zero (b ∷ bs) = b
byte_at (suc i) (b ∷ bs) = byte_at i bs

unfoldable pub frame_op : Bytes → ℕ
frame_op frame = byte_at 0 frame % 2 ^ 4

unfoldable pub frame_len : Bytes → ℕ
frame_len frame = byte_at 1 frame + byte_at 2 frame * 2 ^ 8

-- The payload as OnUdpData passes it on.
unfoldable pub frame_payload : Bytes → Bytes
frame_payload frame = take (frame_len frame) (drop header_size frame)

-- The switch of OnUdpData: the operations that have a handler.
unfoldable pub handled : ℕ → Option Op
handled code =
    if code == 6
    then some push
    else if code == 1
    then some ping
    else if code == 2
    then some reg
    else if code == 3
    then some unreg
    else if code == 4
    then some join
    else if code == 5
    then some leave
    else none

pub handled-op_code : (op : Op) → op ≢ noop → handled (op_code op) ≡ some op
unfolding handled op_code
handled-op_code noop h = absurd (h refl)
handled-op_code ping h = refl
handled-op_code reg h = refl
handled-op_code unreg h = refl
handled-op_code join h = refl
handled-op_code leave h = refl
handled-op_code push h = refl

op_code_bound : (op : Op) → op_code op < 7
unfolding op_code
op_code_bound noop = omega arith
op_code_bound ping = omega arith
op_code_bound reg = omega arith
op_code_bound unreg = omega arith
op_code_bound join = omega arith
op_code_bound leave = omega arith
op_code_bound push = omega arith

pub frame_op-pack_op : (op : Op) (packed : Bytes) → frame_op (pack_op op packed) ≡ op_code op
unfolding frame_op pack_op byte_at
frame_op-pack_op op packed = omega (arith, op_code_bound op)

pub frame_len-pack_op :
    (op : Op) (packed : Bytes) → frame_len (pack_op op packed) ≡ length packed % 2 ^ 16
unfolding frame_len pack_op byte_at
frame_len-pack_op op packed = omega arith

pub length-pack_op : (op : Op) (packed : Bytes) → length (pack_op op packed) ≡ 3 + length packed
unfolding pack_op
length-pack_op op packed = omega arith

pub frame_payload-pack_op :
    (op : Op) (packed : Bytes) → length packed < 2 ^ 16 → frame_payload (pack_op op packed) ≡ packed
unfolding frame_payload
frame_payload-pack_op op packed small =
    let len : frame_len (pack_op op packed) ≡ length packed =
      omega (arith, frame_len-pack_op op packed) in
    rw len (unfold pack_op in take-length packed)
