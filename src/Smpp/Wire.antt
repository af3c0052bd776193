-- ===== src/Smpp/Wire.antt =====
-- Whole messages: their length, what is read back from them, and where they end in a stream.
use mathlib.Core.List.{append_assoc}
use push1st.Prelude.{
  ltb, ◌≤◌, sym, ◌∙◌, ◌+◌, ap, Option, length-append, arith, split_at-append, drop-append,
  take-append, ◌≡◌, ◌++◌, ◌^◌, ◌<◌, Bytes, refl, [], ◌∷◌, some, false, ℕ, split_at, ◌>>=◌, length,
  take, drop,
}
use push1st.WebSocket.Wire.{be_bytes, be_value, length-be_bytes, be_value-be_bytes}
use push1st.Smpp.Pdu.{
  Command, pack_command, unpack_command, make_command, with_length, Body, pack_body, pack_message,
  Delivery, pack_sms, unpack_delivery, read_pdu, got,
}
use push1st.Smpp.Parameters.{
  IsCommand, unpack_command-pack_command, IsBody, unpack_body-pack_body,
  unpack_message-pack_message, drop_front, take_front,
}

length-pack_command : (c : Command) → length (pack_command c) ≡ 16
unfolding pack_command
length-pack_command c = omega (
  arith,
  length-append (be_bytes 4 c.len)
      (be_bytes 4 c.id ++ (be_bytes 4 c.status ++ be_bytes 4 c.sequence)),
  length-append (be_bytes 4 c.id) (be_bytes 4 c.status ++ be_bytes 4 c.sequence),
  length-append (be_bytes 4 c.status) (be_bytes 4 c.sequence),
  length-be_bytes 4 c.len,
  length-be_bytes 4 c.id,
  length-be_bytes 4 c.status,
  length-be_bytes 4 c.sequence,
)

-- The length is written over the first field of the command, and changes nothing else.
pub with_length-pack_command :
    (c : Command) (rest : Bytes)
    → with_length (pack_command c ++ rest)
      ≡ pack_command (record c { len = length (pack_command c ++ rest) }) ++ rest
unfolding with_length pack_command
with_length-pack_command c rest =
    simp append_assoc (rw (drop_front 4 (be_bytes 4 c.len) _ (length-be_bytes 4 c.len)) refl)

length-with_length :
    (c : Command) (rest : Bytes)
    → length (with_length (pack_command c ++ rest)) ≡ length (pack_command c ++ rest)
length-with_length c rest =
    let n = length (pack_command c ++ rest) in
    rw (with_length-pack_command c rest) (
      omega (
        arith,
        length-append (pack_command (record c { len = n })) rest,
        length-append (pack_command c) rest,
        length-pack_command (record c { len = n }),
        length-pack_command c,
      ))

-- A message is its command, with the length of the message, and what follows the command.
pub with_length_lem :
    (c : Command) (rest : Bytes)
    → let msg = with_length (pack_command c ++ rest) in
      (msg ≡ pack_command (record c { len = length msg }) ++ rest) × (length msg ≡ 16 + length rest)
with_length_lem c rest = (
  rw (length-with_length c rest) (with_length-pack_command c rest),
  length-with_length c rest
      ∙ omega (arith, length-append (pack_command c) rest, length-pack_command c),
)

pub unpack_delivery-pack :
    (b : Body) (m rest : Bytes)
    → IsBody b
    → length m < 256
    → unpack_delivery ((pack_body b ++ (0 ∷ pack_message m)) ++ rest)
      ≡ some (record { body = b; predefined = []; message = m }, rest)
unfolding unpack_delivery
unpack_delivery-pack b m rest hb hm =
    let empty_text : split_at 0 (0 ∷ (pack_message m ++ rest)) ≡ some ([], pack_message m ++ rest) =
      split_at-append 0 [] (pack_message m ++ rest) tt in
    rw
      (
        append_assoc (pack_body b) (0 ∷ pack_message m) rest,
        unpack_body-pack_body b _ hb,
        empty_text,
        unpack_message-pack_message m rest hm,
      )
      refl

-- The command that a message of this length goes out with.
abbrev pub command_of : ℕ → ℕ → ℕ → ℕ → Command
command_of len id status sequence = record {
  len = len;
  id = id;
  status = status;
  sequence = sequence;
}

pub pack_sms_lem :
    (id status sequence : ℕ) (b : Body) (m : Bytes)
    → let msg =
        pack_sms (make_command id status sequence) (record { body = b; msg_id = 0; message = m }) in
      msg
      ≡ pack_command (command_of (length msg) id status sequence)
        ++ (pack_body b ++ (0 ∷ pack_message m))
unfolding pack_sms make_command
pack_sms_lem id status sequence b m =
    (with_length_lem (make_command id status sequence) (pack_body b ++ (0 ∷ pack_message m))).0

-- The message of a reply, as a delivery: its command and its parameters.
abbrev pub receive : Bytes → Option (Command × Delivery × Bytes)
receive d = do
  (c, d₁) ← unpack_command d
  (delivery, d₂) ← unpack_delivery d₁
  some (c, delivery, d₂)

-- The parameters of a short message are read back from what Pack writes, with its length in the
-- command, provided that the texts hold no zero, that the message fits into 255 bytes and the
-- numbers of the command into 32 bits, and that the default message is number 0, which is an empty
-- text to the reader.
pub receive-pack_sms :
    (id status sequence : ℕ) (b : Body) (m rest : Bytes)
    → IsBody b
    → length m < 256
    → let msg =
        pack_sms (make_command id status sequence) (record { body = b; msg_id = 0; message = m }) in
      IsCommand (command_of (length msg) id status sequence)
      → receive (msg ++ rest)
        ≡ some (
          command_of (length msg) id status sequence,
          record { body = b; predefined = []; message = m },
          rest,
        )
receive-pack_sms id status sequence b m rest hb hm hc =
    let body = pack_body b ++ (0 ∷ pack_message m) in
    let msg =
      pack_sms (make_command id status sequence) (record { body = b; msg_id = 0; message = m }) in
    let whole = pack_sms_lem id status sequence b m in
    ap (λ d. receive (d ++ rest)) whole
    ∙ rw
        (
          append_assoc (pack_command (command_of (length msg) id status sequence)) body rest,
          unpack_command-pack_command (command_of (length msg) id status sequence) (body ++ rest)
              hc,
          unpack_delivery-pack b m rest hb hm,
        )
        refl

read_pdu-append :
    (msg rest : Bytes)
    → 16 ≤ length msg
    → be_value (take 4 (msg ++ rest)) ≡ length msg
    → read_pdu (msg ++ rest) ≡ got msg rest
unfolding read_pdu
read_pdu-append msg rest h e =
    let long : ltb (length (msg ++ rest)) 16 ≡ false = ground (arith, length-append msg rest) in
    let header : ltb (length msg) 16 ≡ false = ground arith in
    let whole : ltb (length (msg ++ rest)) (length msg) ≡ false =
      ground (arith, length-append msg rest) in
    rw (long, e, header, whole, take-append msg rest, drop-append msg rest) refl

be_value-with_length :
    (d rest : Bytes) → length d < 2 ^ 32 → be_value (take 4 (with_length d ++ rest)) ≡ length d
unfolding with_length
be_value-with_length d rest h =
    rw
      (
        append_assoc (be_bytes 4 (length d)) (drop 4 d) rest,
        take_front 4 (be_bytes 4 (length d)) _ (length-be_bytes 4 (length d)),
      )
      (be_value-be_bytes 4 (length d) h)

-- A reader that takes 16 bytes, and then as many as their length asks for, finds the end of each
-- message that is packed.
pub read_pdu-with_length :
    (c : Command) (params rest : Bytes)
    → let msg = with_length (pack_command c ++ params) in
      length msg < 2 ^ 32 → read_pdu (msg ++ rest) ≡ got msg rest
read_pdu-with_length c params rest h =
    let same = length-with_length c params in
    read_pdu-append (with_length (pack_command c ++ params)) rest
      (omega (arith, (with_length_lem c params).1))
      (be_value-with_length (pack_command c ++ params) rest (rw same at h) ∙ sym same)
