-- ===== src/Cluster/Receive.antt =====
-- OnUdpData: one event of the socket, on the datagrams that the system has queued.
use push1st.Prelude.{
  ltb, ap, sym, arith, ◌∙◌, ◌+◌, ◌-◌, ◌^◌, ◌==◌, ◌≡◌, ◌≢◌, ◌<◌, ◌&&◌, ◌>>=◌, Bool-cases,
  if◌then◌else◌, Option, Bytes, List, refl, ◌∷◌, none, some, inl, inr, ℕ, suc, length, take,
  take-length, length-take,
}
use push1st.Inet.Socket.{Received, got, eagain, read_from_no_ssl}
use push1st.Inet.Stream.{read_loop_once}
use push1st.Cluster.Frame.{
  noop, pack_op, byte_at, handled-op_code, frame_op-pack_op, length-pack_op, frame_payload-pack_op,
  pack_op, noop, Op, handled, frame_op, frame_len, frame_payload, max_frame_size, header_size,
}

-- What OnUdpData does: its result, which is 0 or an errno, the handler that it calls with the
-- sender's address and the payload, and the system's state after it.
pub record Handled (K : Type 0) : Type 0 where
  pub code : ℕ
  pub call : Option (Op × ℕ × Bytes)
  pub system : K

unfoldable pub call_handler : {K : Type 0} → ℕ → Bytes → K → Handled K
call_handler from frame k = elim (handled (frame_op frame)) [
  | none ↦ record { code = eagain; call = none; system = k }
  | some op ↦ record { code = 0; call = some (op, from, frame_payload frame); system = k }
]

-- The second read, of the whole frame.
unfoldable pub receive_frame :
    {K : Type 0} → (K → ℕ → Received × (ℕ × K)) → ℕ → ℕ → ℕ → ℕ → K → Option (Handled K)
receive_frame receive errno f len from k =
    read_from_no_ssl receive errno f (header_size + len) from k >>= (λ t. some (
      if t.code == 0
      then call_handler t.system.0 t.moved t.system.1
      else record { code = eagain; call = none; system = t.system.1 }))

-- `peek` is recvfrom with MSG_PEEK and `receive` without. A frame that is too long gives the
-- result of the read, which is 0.
unfoldable pub on_udp_data :
    {K : Type 0}
    → (K → ℕ → Received × (ℕ × K))
    → (K → ℕ → Received × (ℕ × K))
    → ℕ
    → ℕ
    → ℕ
    → K
    → Option (Handled K)
on_udp_data peek receive errno f from k = read_from_no_ssl peek errno f header_size from k >>= (λ t.
    let (from', k') = t.system in
    if (t.code == 0) && (length t.moved == header_size)
    then if ltb (frame_len t.moved) (max_frame_size - header_size)
      then receive_frame receive errno f (frame_len t.moved) from' k'
      else some (record { code = t.code; call = none; system = k' })
    else some (record { code = t.code; call = none; system = k' }))

-- What the datagram socket is relied on for: a call with MSG_PEEK gives the first bytes of the first
-- datagram and leaves it queued, and a call without gives them and takes the datagram away. `queue`
-- is what is queued, with the senders' addresses.
pub record IsDatagrams {K : Type 0} (peek receive : K → ℕ → Received × (ℕ × K))
    (queue : K → List (ℕ × Bytes)) : Type 0 where
  pub peeks :
      (k : K) (n a : ℕ) (d : Bytes) (q : List (ℕ × Bytes))
      → queue k ≡ (a, d) ∷ q
      → 0 < length d
      → ((peek k n).0 ≡ got (take n d)) × ((peek k n).1.0 ≡ a) × (queue (peek k n).1.1 ≡ queue k)
  pub takes :
      (k : K) (n a : ℕ) (d : Bytes) (q : List (ℕ × Bytes))
      → queue k ≡ (a, d) ∷ q
      → 0 < length d
      → ((receive k n).0 ≡ got (take n d)) × ((receive k n).1.0 ≡ a) × (queue (receive k n).1.1 ≡ q)

module _ {K : Type 0} {peek receive : K → ℕ → Received × (ℕ × K)} {queue : K → List (ℕ × Bytes)}
    (law : IsDatagrams peek receive queue) (a errno f : ℕ) (q : List (ℕ × Bytes)) where
  receive_frame-pack_op :
      (from : ℕ) (k : K) (op : Op) (packed : Bytes)
      → op ≢ noop
      → queue k ≡ (a, pack_op op packed) ∷ q
      → length packed < 2 ^ 16
      → (h : Handled K) × (receive_frame receive errno (suc (suc f)) (length packed) from k
          ≡ some h)
        × (h.code ≡ 0)
        × (h.call ≡ some (op, a, packed))
        × (queue h.system ≡ q)
  unfolding receive_frame read_from_no_ssl call_handler
  receive_frame-pack_op from k op packed h e small =
      let frame = pack_op op packed in
      let size = length-pack_op op packed in
      let (gives, who, left) = law.takes k (3 + length packed) a frame q e (omega arith) in
      let all : take (3 + length packed) frame ≡ frame = rw (sym size) (take-length frame) in
      let once =
        read_loop_once (λ s m. receive s.1 m) errno f (3 + length packed) frame (from, k)
          (omega arith) (gives ∙ ap got all) size in
      let which = ap handled (frame_op-pack_op op packed) ∙ handled-op_code op h in
      (
        record {
          code = 0;
          call = some (op, (receive k (3 + length packed)).1.0, frame_payload frame);
          system = (receive k (3 + length packed)).1.1;
        },
        rw once (rw (which, call_handler) refl),
        refl,
        rw (who, frame_payload-pack_op op packed small) refl,
        left,
      )

  -- An event of the cluster's socket when its first datagram is the frame of a message of fewer
  -- than 2^16 bytes whose operation has a handler. If the message is shorter than 65397 bytes the
  -- result is 0, the operation's handler is called with the sender's address and exactly the
  -- message, and the datagram is taken from the queue. If it is longer the result is 0 as well, but
  -- nothing is called and the datagram stays where it is.
  pub on_udp_data-pack_op :
      (from : ℕ) (k : K) (op : Op) (packed : Bytes)
      → op ≢ noop
      → queue k ≡ (a, pack_op op packed) ∷ q
      → length packed < 2 ^ 16
      → (h : Handled K) × (on_udp_data peek receive errno (suc (suc f)) from k ≡ some h)
        × (h.code ≡ 0)
        × (h.call ≡ (if ltb (length packed) 65397 then some (op, a, packed) else none))
        × (queue h.system ≡ (if ltb (length packed) 65397 then q else queue k))
  unfolding on_udp_data read_from_no_ssl pack_op
  on_udp_data-pack_op from k op packed h e small =
      let frame = pack_op op packed in
      let size = length-pack_op op packed in
      let (gives, who, left) = law.peeks k 3 a frame q e (omega arith) in
      let short : length (take 3 frame) ≡ 3 = length-take 3 frame (omega arith) in
      let len : frame_len (take 3 frame) ≡ length packed =
        unfold frame_len byte_at in (omega arith) in
      let once =
        read_loop_once (λ s m. peek s.1 m) errno f 3 (take 3 frame) (from, k) (omega arith) gives
          short in
      elim (Bool-cases (ltb (length packed) 65397)) [
        | inl t ↦
            let (r, run, code, call, rest) =
              receive_frame-pack_op (peek k 3).1.0 (peek k 3).1.1 op packed h (left ∙ e) small in
            (r, rw once (rw len (rw t run)), code, rw t call, rw t rest)
        | inr n ↦ (
          record { code = 0; call = none; system = (peek k 3).1.1 },
          rw once (rw len (rw n refl)),
          refl,
          rw n refl,
          rw n left,
        )
      ]
