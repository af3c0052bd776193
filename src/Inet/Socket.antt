-- ===== src/Inet/Socket.antt =====
-- csocket: the loops that read and write through the operating system's calls. A call is a
-- parameter, a function of the system's state; the functions take fuel, and give 0 or the errno of
-- the result, with the bytes moved.
use push1st.Prelude.{
  ◌-◌, ◌==◌, ◌&&◌, ◌>>=◌, if◌then◌else◌, Option, Bytes, Bool, [], ◌∷◌, none, some, true, false, ℕ,
  zero, suc, ◌++◌, length, take, drop,
}

abbrev pub eagain : ℕ
eagain = 11

abbrev pub econnaborted : ℕ
econnaborted = 103

-- What recv gives: bytes, 0 at the end of the stream, or -1 with errno.
pub data Received : Type 0 where
  got : Bytes → Received
  ended : Received
  read_error : ℕ → Received

-- What send gives: the number of bytes taken, or -1 with errno.
pub data Sent : Type 0 where
  took : ℕ → Sent
  send_error : ℕ → Sent

-- The result of a read or write, the bytes that were moved, and the system's state after it.
pub record Transfer (K : Type 0) : Type 0 where
  pub code : ℕ
  pub moved : Bytes
  pub system : K

-- The result after an error, where DONTWAIT makes EAGAIN a success.
unfoldable pub error_code : Bool → ℕ → ℕ
error_code dontwait errno = if dontwait && (errno == eagain) then 0 else errno

module _ {K : Type 0} where
  abbrev pub moved_first : Bytes → Transfer K → Transfer K
  moved_first b t = record t { moved = b ++ t.moved }

  -- The loop of ReadNoSsl, where `done` says whether the last call gave bytes and errno is what was
  -- left there before.
  unfoldable pub read_loop :
      (K → ℕ → Received × K) → Bool → ℕ → ℕ → Bool → ℕ → K → Option (Transfer K)
  read_loop receive dontwait errno zero done n k = none
  read_loop receive dontwait errno (suc f) done zero k =
      some (record { code = if done then 0 else error_code dontwait errno; moved = []; system = k })
  read_loop receive dontwait errno (suc f) done (suc n) k =
      let (r, k') = receive k (suc n) in
      elim r [
        | got b ↦
            read_loop receive dontwait errno f true (suc n - length b) k'
            >>= (λ t. some (moved_first b t))
        | ended ↦ some (record { code = econnaborted; moved = []; system = k' })
        | read_error e ↦ some (record { code = error_code dontwait e; moved = []; system = k' })
      ]

  unfoldable pub read_no_ssl : (K → ℕ → Received × K) → Bool → ℕ → ℕ → ℕ → K → Option (Transfer K)
  read_no_ssl receive dontwait errno f n k = read_loop receive dontwait errno f false n k

  -- The loop of WriteNoSsl over what is left of the buffer.
  unfoldable pub write_loop :
      (K → Bytes → Sent × K) → Bool → ℕ → ℕ → Bool → Bytes → K → Option (Transfer K)
  write_loop transmit dontwait errno zero done b k = none
  write_loop transmit dontwait errno (suc f) done [] k =
      some (record { code = if done then 0 else error_code dontwait errno; moved = []; system = k })
  write_loop transmit dontwait errno (suc f) done (c ∷ b) k =
      let (r, k') = transmit k (c ∷ b) in
      elim r [
        | took m ↦ elim m [
          | zero ↦ some (record { code = error_code dontwait errno; moved = []; system = k' })
          | suc j ↦
              write_loop transmit dontwait errno f true (drop j b) k'
              >>= (λ t. some (moved_first (c ∷ take j b) t))
        ]
        | send_error e ↦ some (record { code = error_code dontwait e; moved = []; system = k' })
      ]

  unfoldable pub write_no_ssl :
      (K → Bytes → Sent × K) → Bool → ℕ → ℕ → Bytes → K → Option (Transfer K)
  write_no_ssl transmit dontwait errno f b k = write_loop transmit dontwait errno f false b k

  -- The loop of WriteToNoSsl, which tries again after EAGAIN.
  unfoldable pub write_to_loop :
      (K → Bytes → Sent × K) → ℕ → ℕ → Bool → Bytes → K → Option (Transfer K)
  write_to_loop transmit errno zero done b k = none
  write_to_loop transmit errno (suc f) done [] k =
      some (record { code = if done then 0 else errno; moved = []; system = k })
  write_to_loop transmit errno (suc f) done (c ∷ b) k =
      let (r, k') = transmit k (c ∷ b) in
      let again = write_to_loop transmit errno f false (c ∷ b) k' in
      elim r [
        | took m ↦ elim m [
          | zero ↦ some (record { code = errno; moved = []; system = k' })
          | suc j ↦
              write_to_loop transmit errno f true (drop j b) k'
              >>= (λ t. some (moved_first (c ∷ take j b) t))
        ]
        | send_error e ↦
            if e == eagain then again else some (record { code = e; moved = []; system = k' })
      ]

  unfoldable pub write_to_no_ssl : (K → Bytes → Sent × K) → ℕ → ℕ → Bytes → K → Option (Transfer K)
  write_to_no_ssl transmit errno f b k = write_to_loop transmit errno f false b k

-- ReadFromNoSsl, the loop of ReadNoSsl on recvfrom, whose calls also write the sender.
unfoldable pub read_from_no_ssl :
    {K A : Type 0} → (K → ℕ → Received × (A × K)) → ℕ → ℕ → ℕ → A → K → Option (Transfer (A × K))
read_from_no_ssl receive errno f n from k =
    read_loop (λ s m. receive s.1 m) false errno f false n (from, k)
