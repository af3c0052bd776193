-- ===== src/Smpp/Parameters.antt =====
-- Each parameter that is packed is unpacked again, whatever follows it.
use mathlib.Core.List.{append_assoc}
use push1st.Prelude.{
  ◌%◌, length-append, arith, split_at-append, leb, drop-append, take-append, ◌≡◌, ◌++◌, Without,
  ◌^◌, ◌<◌, Bytes, refl, [], ◌∷◌, some, true, ℕ, split_at, length, take, drop,
}
use push1st.WebSocket.Wire.{be_bytes, length-be_bytes, be_value-be_bytes}
use push1st.Smpp.Pdu.{
  pack_text, unpack_byte, unpack_word, Command, pack_command, unpack_command, Address, pack_address,
  unpack_address, Body, pack_body, unpack_body, pack_message, unpack_message,
}

-- A text that stands in a message ends at its first zero.
abbrev pub IsText : Bytes → Type 0
IsText s = Without 0 s

pub unpack_text-pack_text :
    (s rest : Bytes) → IsText s → split_at 0 (pack_text s ++ rest) ≡ some (s, rest)
unfolding pack_text
unpack_text-pack_text s rest h = rw (append_assoc s (0 ∷ []) rest) (split_at-append 0 s rest h)

pub take_front : (n : ℕ) (xs ys : Bytes) → length xs ≡ n → take n (xs ++ ys) ≡ xs
take_front n xs ys e = rw (← e) (take-append xs ys)

pub drop_front : (n : ℕ) (xs ys : Bytes) → length xs ≡ n → drop n (xs ++ ys) ≡ ys
drop_front n xs ys e = rw (← e) (drop-append xs ys)

unpack_word-be_bytes :
    (n : ℕ) (rest : Bytes) → n < 2 ^ 32 → unpack_word (be_bytes 4 n ++ rest) ≡ some (n, rest)
unfolding unpack_word
unpack_word-be_bytes n rest h =
    let enough : leb 4 (length (be_bytes 4 n ++ rest)) ≡ true =
      ground (arith, length-append (be_bytes 4 n) rest, length-be_bytes 4 n) in
    rw
      (
        enough,
        unpack_word,
        take_front 4 (be_bytes 4 n) rest (length-be_bytes 4 n),
        drop_front 4 (be_bytes 4 n) rest (length-be_bytes 4 n),
        be_value-be_bytes 4 n h,
      )
      refl

-- The numbers of a command fit into 32 bits.
abbrev pub IsCommand : Command → Type 0
IsCommand c = (c.len < 2 ^ 32) × ((c.id < 2 ^ 32) × ((c.status < 2 ^ 32) × (c.sequence < 2 ^ 32)))

pub unpack_command-pack_command :
    (c : Command) (rest : Bytes)
    → IsCommand c
    → unpack_command (pack_command c ++ rest) ≡ some (c, rest)
unfolding unpack_command pack_command
unpack_command-pack_command c rest h = simp append_assoc (
    rw
      (
        unpack_word-be_bytes c.len _ h.0,
        unpack_word-be_bytes c.id _ h.1.0,
        unpack_word-be_bytes c.status _ h.1.1.0,
        unpack_word-be_bytes c.sequence _ h.1.1.1,
      )
      refl)

unpack_address-pack_address :
    (a : Address) (rest : Bytes)
    → IsText a.address
    → unpack_address (pack_address a ++ rest) ≡ some (a, rest)
unfolding unpack_address pack_address unpack_byte
unpack_address-pack_address a rest h = rw (unpack_text-pack_text a.address rest h) refl

abbrev pub IsBody : Body → Type 0
IsBody b =
    IsText b.service
    × (IsText b.src.address
        × (IsText b.dst.address × (IsText b.delivery_time × IsText b.valid_period)))

pub unpack_body-pack_body :
    (b : Body) (rest : Bytes) → IsBody b → unpack_body (pack_body b ++ rest) ≡ some (b, rest)
unfolding unpack_body pack_body unpack_byte
unpack_body-pack_body b rest h =
    let (service, (src, (dst, (delivery_time, valid_period)))) = h in
    simp append_assoc (
      rw
        (
          unpack_text-pack_text b.service _ service,
          unpack_address-pack_address b.src _ src,
          unpack_address-pack_address b.dst _ dst,
          unpack_text-pack_text b.delivery_time _ delivery_time,
          unpack_text-pack_text b.valid_period _ valid_period,
        )
        refl)

pub unpack_message-pack_message :
    (m rest : Bytes) → length m < 256 → unpack_message (pack_message m ++ rest) ≡ some (m, rest)
unfolding unpack_message pack_message unpack_byte
unpack_message-pack_message m rest h =
    let small : length m % 256 ≡ length m = omega arith in
    let enough : leb (length m) (length (m ++ rest)) ≡ true =
      ground (arith, length-append m rest) in
    rw (small, enough, take-append m rest, drop-append m rest) refl
