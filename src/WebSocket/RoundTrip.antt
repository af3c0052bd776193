-- ===== src/WebSocket/RoundTrip.antt =====
-- Reading a frame that was made.
use push1st.Prelude.{
  ℕ, zero, suc, ◌+◌, ◌*◌, ◌/◌, ◌%◌, ◌^◌, ◌<◌, ◌≡◌, refl, sym, ap, Bool, true, false, [], ◌∷◌, ◌++◌,
  some, arith, Bytes, IsByte, All, length, length-append, get_or, take-append, drop-append, ltb,
  leb, ◌==◌, if◌then◌else◌,
}
use mathlib.Core.List.{append-nil, append_assoc}
use push1st.WebSocket.Wire.{be_bytes, length-be_bytes, be_value-be_bytes, xor_twice}
use push1st.WebSocket.Frame.{
  Opcode, more, text, binary, close, ping, pong, opcode_value, bit, frame_head, small_head,
  medium_head, large_head, mask_from, mask, make_un_frame, make_frame, make,
}
use push1st.WebSocket.Conn.{
  received, Outcome, recv, read_length, read_key, unmask, read_body, dispatch, read_payload,
  read_message,
}

pub recv-append : (n : ℕ) (p q : Bytes) → length p ≡ n → recv n (p ++ q) ≡ some (p, q)
unfolding recv
recv-append n p q h =
    let fits : leb (length p) (length (p ++ q)) ≡ true = ground (arith, length-append p q) in
    rw (← h, fits, take-append p q, drop-append p q) refl

All-get_or : (key : Bytes) (i : ℕ) → All IsByte key → IsByte (get_or key i 0)
All-get_or [] i h = omega arith
All-get_or (k ∷ ks) zero h = h.0
All-get_or (k ∷ ks) (suc i) h = All-get_or ks i h.1

mask_from-mask_from :
    (n : ℕ) (key ds : Bytes)
    → All IsByte key
    → All IsByte ds
    → mask_from n key (mask_from n key ds) ≡ ds
unfolding mask_from
mask_from-mask_from n key [] hk hd = refl
mask_from-mask_from n key (d ∷ ds) hk hd =
    rw
      (
        xor_twice d (get_or key (n % 4) 0) hd.0 (All-get_or key (n % 4) hk),
        mask_from-mask_from (n + 1) key ds hk hd.1,
      )
      refl

-- Masking twice with one key gives the data back.
pub mask-mask : (ds key : Bytes) → All IsByte key → All IsByte ds → mask (mask ds key) key ≡ ds
unfolding mask
mask-mask ds key hk hd = mask_from-mask_from 0 key ds hk hd

length-mask_from : (n : ℕ) (key ds : Bytes) → length (mask_from n key ds) ≡ length ds
unfolding mask_from
length-mask_from n key [] = refl
length-mask_from n key (d ∷ ds) = ap suc (length-mask_from (n + 1) key ds)

pub length-mask : (ds key : Bytes) → length (mask ds key) ≡ length ds
unfolding mask
length-mask ds key = length-mask_from 0 key ds

-- The length field as a frame of `n` bytes has it, and what stands behind the header for it.
abbrev pub field : ℕ → ℕ
field n = if ltb n 126 then n else if ltb n 65536 then 126 else 127

abbrev pub extra : ℕ → Bytes
extra n = if ltb n 126 then [] else if ltb n 65536 then be_bytes 2 n else be_bytes 8 n

pub read_length_small : (n : ℕ) (input : Bytes) → n < 126 → read_length n input ≡ some (n, input)
unfolding read_length
read_length_small n input h = ground arith

read_length_medium :
    (n : ℕ) (input : Bytes) → n < 2 ^ 16 → read_length 126 (be_bytes 2 n ++ input) ≡ some (n, input)
unfolding read_length
read_length_medium n input h =
    rw (recv-append 2 (be_bytes 2 n) input (length-be_bytes 2 n), be_value-be_bytes 2 n h) refl

read_length_large :
    (n : ℕ) (input : Bytes) → n < 2 ^ 64 → read_length 127 (be_bytes 8 n ++ input) ≡ some (n, input)
unfolding read_length
read_length_large n input h =
    rw (recv-append 8 (be_bytes 8 n) input (length-be_bytes 8 n), be_value-be_bytes 8 n h) refl

-- A payload `p` that unmasks to the message.
read_body_lem :
    (max : ℕ) (masked : Bool) (key p msg rest : Bytes)
    → length msg < max
    → length p ≡ length msg
    → unmask masked key p ≡ msg
    → read_body max (length msg) masked key (p ++ rest) ≡ (received msg, rest)
unfolding read_body
read_body_lem max masked key [] [] rest fits l e = refl
read_body_lem max masked key (x ∷ p) [] rest fits l e = absurd (omega arith)
read_body_lem max masked key p (y ∷ msg) rest fits l e =
    ground (arith, recv-append (length (y ∷ msg)) p rest l, e)

-- The two bytes of frame_t.
pub opcode-first : (op : Opcode) → (opcode_value op % 16 + 128) % 16 ≡ opcode_value op
opcode-first more = refl
opcode-first text = refl
opcode-first binary = refl
opcode-first close = refl
opcode-first ping = refl
opcode-first pong = refl

pub length-second : (len : ℕ) (m : Bool) → len < 128 → (len % 128 + 128 * bit m) % 128 ≡ len
length-second len true h = omega arith
length-second len false h = omega arith

pub masked-second : (len : ℕ) (m : Bool) → ((len % 128 + 128 * bit m) / 128 == 1) ≡ m
masked-second len true = ground arith
masked-second len false = ground arith

-- The key field: present on a masked frame.
abbrev pub key_field : Bool → Bytes → Bytes
key_field true key = key
key_field false key = []

pub read_key_lem :
    (m : Bool) (key input : Bytes)
    → length key ≡ 4
    → read_key m (key_field m key ++ input) ≡ some (key_field m key, input)
unfolding read_key
read_key_lem true key input h = recv-append 4 key input h
read_key_lem false key input h = refl

-- A frame with the length field `len` and the extended length `ext`.
module _ (max : ℕ) (op : Opcode) (len : ℕ) (m : Bool) (ext key p msg rest : Bytes) (hl : len < 128)
    (fits : length msg < max) (hk : length key ≡ 4) (hp : length p ≡ length msg)
    (he : (input : Bytes) → read_length len (ext ++ input) ≡ some (length msg, input))
    (hu : unmask m (key_field m key) p ≡ msg) where
  read_payload_lem :
      read_payload max
        (opcode_value op % 16 + 128)
        (len % 128 + 128 * bit m)
        (ext ++ (key_field m key ++ (p ++ rest)))
      ≡ some (dispatch (opcode_value op) (received msg, rest))
  unfolding read_payload
  read_payload_lem = rw (length-second len m hl) (
      rw (masked-second len m) (
        rw (opcode-first op, he (key_field m key ++ (p ++ rest)))
          (rw (read_key_lem m key (p ++ rest) hk)
            (rw (read_body_lem max m (key_field m key) p msg rest fits hp hu) refl))))

  read_frame :
      (failure : ℕ)
      → read_message max failure (frame_head op len m ++ (ext ++ (key_field m key ++ (p ++ rest))))
        ≡ dispatch (opcode_value op) (received msg, rest)
  unfolding read_message frame_head
  read_frame failure = rw (read_payload_lem, read_message) refl

-- Frames of the three sizes, as they are made.
module _ (max failure : ℕ) (op : Opcode) (msg key rest : Bytes) (fits : length msg < max)
    (hk : length key ≡ 4) (bk : All IsByte key) (bm : All IsByte msg) where
  abbrev sent : Outcome
  sent = dispatch (opcode_value op) (received msg, rest)

  module _ (len : ℕ) (ext : Bytes) (head : Opcode → ℕ → Bool → Bytes) (hl : len < 128)
      (he : (input : Bytes) → read_length len (ext ++ input) ≡ some (length msg, input))
      (hh : (m : Bool) → head op (length msg) m ≡ frame_head op len m ++ ext) where
    read_message-make_un_frame : read_message max failure (make_un_frame head op msg ++ rest) ≡ sent
    unfolding make_un_frame
    read_message-make_un_frame =
        rw
          (
            hh false,
            append_assoc (frame_head op len false ++ ext) msg rest,
            append_assoc (frame_head op len false) ext (msg ++ rest),
          )
          (read_frame max op len false ext key msg msg rest hl fits hk refl he
            (unfold unmask in refl) failure)

    read_message-make_frame : read_message max failure (make_frame head op msg key ++ rest) ≡ sent
    unfolding make_frame
    read_message-make_frame =
        rw
          (
            hh true,
            append_assoc (frame_head op len true ++ ext) (key ++ mask msg key) rest,
            append_assoc (frame_head op len true) ext ((key ++ mask msg key) ++ rest),
            append_assoc key (mask msg key) rest,
          )
          (read_frame max op len true ext key (mask msg key) msg rest hl fits hk
            (length-mask msg key) he (unfold unmask in mask-mask msg key bk bm) failure)

small_head_lem : (op : Opcode) (n : ℕ) (m : Bool) → small_head op n m ≡ frame_head op n m ++ []
unfolding small_head
small_head_lem op n m = sym (append-nil (frame_head op n m))

medium_head_lem :
    (op : Opcode) (n : ℕ) (m : Bool)
    → n < 2 ^ 16
    → medium_head op n m ≡ frame_head op 126 m ++ be_bytes 2 n
unfolding medium_head
medium_head_lem op n m h = let e : n % 2 ^ 16 ≡ n = omega arith in rw e refl

large_head_lem :
    (op : Opcode) (n : ℕ) (m : Bool)
    → n < 2 ^ 64
    → large_head op n m ≡ frame_head op 127 m ++ be_bytes 8 n
unfolding large_head
large_head_lem op n m h = let e : n % 2 ^ 64 ≡ n = omega arith in rw e refl

-- A message within the limits, and its key.
module _ (max failure : ℕ) (op : Opcode) (msg : Bytes) (masked : Bool) (key rest : Bytes)
    (fits : length msg < max) (short : length msg < 2 ^ 64) (hk : length key ≡ 4)
    (bk : All IsByte key) (bm : All IsByte msg) where
  abbrev Reads : Bytes → Type 0
  Reads frame =
      read_message max failure (frame ++ rest) ≡ dispatch (opcode_value op) (received msg, rest)

  small_Reads :
      length msg < 126
      → Reads (make_un_frame small_head op msg) × Reads (make_frame small_head op msg key)
  small_Reads h = (
    read_message-make_un_frame max failure op msg key rest fits hk bk bm (length msg) [] small_head
        (omega arith) (λ input. read_length_small (length msg) input h)
        (small_head_lem op (length msg)),
    read_message-make_frame max failure op msg key rest fits hk bk bm (length msg) [] small_head
        (omega arith) (λ input. read_length_small (length msg) input h)
        (small_head_lem op (length msg)),
  )

  medium_Reads :
      length msg < 2 ^ 16
      → Reads (make_un_frame medium_head op msg) × Reads (make_frame medium_head op msg key)
  medium_Reads h = (
    read_message-make_un_frame max failure op msg key rest fits hk bk bm 126
        (be_bytes 2 (length msg)) medium_head (omega arith)
        (λ input. read_length_medium (length msg) input h)
        (λ m. medium_head_lem op (length msg) m h),
    read_message-make_frame max failure op msg key rest fits hk bk bm 126 (be_bytes 2 (length msg))
        medium_head (omega arith) (λ input. read_length_medium (length msg) input h)
        (λ m. medium_head_lem op (length msg) m h),
  )

  large_Reads : Reads (make_un_frame large_head op msg) × Reads (make_frame large_head op msg key)
  large_Reads = (
    read_message-make_un_frame max failure op msg key rest fits hk bk bm 127
        (be_bytes 8 (length msg)) large_head (omega arith)
        (λ input. read_length_large (length msg) input short)
        (λ m. large_head_lem op (length msg) m short),
    read_message-make_frame max failure op msg key rest fits hk bk bm 127 (be_bytes 8 (length msg))
        large_head (omega arith) (λ input. read_length_large (length msg) input short)
        (λ m. large_head_lem op (length msg) m short),
  )

  -- A frame that `make` builds for a message shorter than the reader's maximum, of any size and
  -- masked or not, is read as its opcode and this message, and nothing of what follows is consumed.
  pub read_message-make :
      read_message max failure (make op msg masked key ++ rest)
      ≡ dispatch (opcode_value op) (received msg, rest)
  unfolding make
  read_message-make = ground (arith, small_Reads, medium_Reads, large_Reads)
