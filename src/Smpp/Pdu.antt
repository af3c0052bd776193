-- ===== src/Smpp/Pdu.antt =====
-- The messages of the protocol, namespace smpp of csmppservice.cpp: Pack and Unpack of each parameter
-- and message. An unpacking is `none` where the code reads past the end of the data.
use push1st.Prelude.{
  ltb, leb, if◌then◌else◌, ◌%◌, Option, ◌++◌, Bytes, [], ◌∷◌, none, some, ℕ, split_at, ◌>>=◌,
  length, take, drop,
}
use push1st.WebSocket.Wire.{be_bytes, be_value}

-- cpacker::Write of a text, and the reading of one by its `data()`.
unfoldable pub pack_text : Bytes → Bytes
pack_text s = s ++ 0 ∷ []

abbrev pub unpack_text : Bytes → Option (Bytes × Bytes)
unpack_text d = split_at 0 d

unfoldable pub unpack_byte : Bytes → Option (ℕ × Bytes)
unpack_byte [] = none
unpack_byte (b ∷ d) = some (b, d)

unfoldable pub unpack_word : Bytes → Option (ℕ × Bytes)
unpack_word d = if leb 4 (length d) then some (be_value (take 4 d), drop 4 d) else none

-- ccmd
pub record Command : Type 0 where
  pub len : ℕ
  pub id : ℕ
  pub status : ℕ
  pub sequence : ℕ

unfoldable pub pack_command : Command → Bytes
pack_command c =
    be_bytes 4 c.len ++ (be_bytes 4 c.id ++ (be_bytes 4 c.status ++ be_bytes 4 c.sequence))

unfoldable pub unpack_command : Bytes → Option (Command × Bytes)
unpack_command d = do
  (len, d₁) ← unpack_word d
  (id, d₂) ← unpack_word d₁
  (status, d₃) ← unpack_word d₂
  (sequence, d₄) ← unpack_word d₃
  some (record { len = len; id = id; status = status; sequence = sequence }, d₄)

-- The constructor's command, whose length is its own size, and the length that Pack writes over it.
unfoldable pub make_command : ℕ → ℕ → ℕ → Command
make_command id status sequence = record { len = 16; id = id; status = status; sequence = sequence }

unfoldable pub with_length : Bytes → Bytes
with_length msg = be_bytes 4 (length msg) ++ drop 4 msg

-- caddress
pub record Address : Type 0 where
  pub ton : ℕ
  pub npi : ℕ
  pub address : Bytes

unfoldable pub pack_address : Address → Bytes
pack_address a = a.ton ∷ a.npi ∷ pack_text a.address

unfoldable pub unpack_address : Bytes → Option (Address × Bytes)
unpack_address d = do
  (ton, d₁) ← unpack_byte d
  (npi, d₂) ← unpack_byte d₁
  (address, d₃) ← unpack_text d₂
  some (record { ton = ton; npi = npi; address = address }, d₃)

-- The parameters that csms and cdelivery have in common, in their order.
pub record Body : Type 0 where
  pub service : Bytes
  pub src : Address
  pub dst : Address
  pub esm : ℕ
  pub proto : ℕ
  pub priority : ℕ
  pub delivery_time : Bytes
  pub valid_period : Bytes
  pub registered_delivery : ℕ
  pub replace : ℕ
  pub encoding : ℕ

unfoldable pub pack_body : Body → Bytes
pack_body b =
    pack_text b.service
    ++ (pack_address b.src
        ++ (pack_address b.dst
            ++ (b.esm
                ∷ b.proto
                ∷ b.priority
                ∷ (pack_text b.delivery_time
                    ++ (pack_text b.valid_period
                        ++ (b.registered_delivery ∷ b.replace ∷ b.encoding ∷ []))))))

unfoldable pub unpack_body : Bytes → Option (Body × Bytes)
unpack_body d = do
  (service, d₁) ← unpack_text d
  (src, d₂) ← unpack_address d₁
  (dst, d₃) ← unpack_address d₂
  (esm, d₄) ← unpack_byte d₃
  (proto, d₅) ← unpack_byte d₄
  (priority, d₆) ← unpack_byte d₅
  (delivery_time, d₇) ← unpack_text d₆
  (valid_period, d₈) ← unpack_text d₇
  (registered_delivery, d₉) ← unpack_byte d₈
  (replace, e₁) ← unpack_byte d₉
  (encoding, e₂) ← unpack_byte e₁
  some (
    record {
      service = service;
      src = src;
      dst = dst;
      esm = esm;
      proto = proto;
      priority = priority;
      delivery_time = delivery_time;
      valid_period = valid_period;
      registered_delivery = registered_delivery;
      replace = replace;
      encoding = encoding;
    },
    e₂,
  )

-- cmessage: one byte of length, and the text.
unfoldable pub pack_message : Bytes → Bytes
pack_message m = (length m % 256) ∷ m

unfoldable pub unpack_message : Bytes → Option (Bytes × Bytes)
unpack_message d = do
  (n, d₁) ← unpack_byte d
  if leb n (length d₁) then some (take n d₁, drop n d₁) else none

-- csms, whose default message is a number, and cdelivery, which reads a text there.
pub record Sms : Type 0 where
  pub body : Body
  pub msg_id : ℕ
  pub message : Bytes

pub record Delivery : Type 0 where
  pub body : Body
  pub predefined : Bytes
  pub message : Bytes

unfoldable pub pack_sms : Command → Sms → Bytes
pack_sms c s =
    with_length (pack_command c ++ (pack_body s.body ++ (s.msg_id ∷ pack_message s.message)))

unfoldable pub unpack_delivery : Bytes → Option (Delivery × Bytes)
unpack_delivery d = do
  (body, d₁) ← unpack_body d
  (predefined, d₂) ← unpack_text d₁
  (message, d₃) ← unpack_message d₂
  some (record { body = body; predefined = predefined; message = message }, d₃)

-- cenquire and cdelivery_resp
unfoldable pub pack_enquire : ℕ → ℕ → ℕ → Bytes
pack_enquire sequence id status = with_length (pack_command (make_command id status sequence))

abbrev pub delivery_resp_id : ℕ
delivery_resp_id = 0x80000005

unfoldable pub pack_delivery_resp : ℕ → Bytes → ℕ → Bytes
pack_delivery_resp sequence msg status =
    with_length (pack_command (make_command delivery_resp_id status sequence) ++ pack_text msg)

-- cbind: login, password, system, version and an empty address.
unfoldable pub pack_bind : ℕ → Bytes → Bytes → Bytes
pack_bind sequence login password = with_length (
    pack_command (make_command 9 0 sequence)
    ++ (pack_text login
        ++ (pack_text password
            ++ (pack_text []
                ++ (0x34 ∷ pack_address (record { ton = 0; npi = 0; address = [] }))))))

-- The answer to a bind: the command and the name of the other side.
unfoldable pub unpack_bind_resp : Bytes → Option (Command × Bytes)
unpack_bind_resp d = do (c, d₁) ← unpack_command d; (alpha, d₂) ← unpack_text d₁; some (c, alpha)

-- What OnGwReply reads off the socket: the 16 bytes of a command, and then the bytes that its length
-- leaves. With a length below 16 the subtraction wraps around, and the read is of nearly 2 ^ 64 bytes.
pub data Reply : Type 0 where
  missing wraps : Reply
  got : Bytes → Bytes → Reply

unfoldable pub read_pdu : Bytes → Reply
read_pdu d =
    let n = be_value (take 4 d) in
    if ltb (length d) 16
    then missing
    else if ltb n 16
    then wraps
    else if ltb (length d) n
    then missing
    else got (take n d) (drop n d)
