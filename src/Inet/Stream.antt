-- ===== src/Inet/Stream.antt =====
use mathlib.Core.List.{append_assoc, append-nil}
use push1st.Prelude.{
  ◌⊎◌, ap, sym, arith, ◌∙◌, ◌-◌, ◌==◌, ◌≡◌, ◌≤◌, ◌<◌, Bytes, refl, [], ◌∷◌, some, inl, inr, true,
  false, ℕ, zero, suc, ◌++◌, length, length-append, take, drop, take-drop, length-drop,
}
use push1st.Inet.Socket.{
  Transfer, Received, Sent, took, send_error, write_loop, write_no_ssl, got, ended, read_error,
  read_loop, read_no_ssl, error_code, moved_first, econnaborted,
}

-- What the reads rely on: a stream socket gives the pending bytes in order, at least one and no more
-- than it was asked for; at their end it says so, and errors leave them pending.
pub record IsStream {K : Type 0} (receive : K → ℕ → Received × K) (pending : K → Bytes)
    : Type 0 where
  pub gives :
      (k : K) (n : ℕ) (b : Bytes)
      → (receive k n).0 ≡ got b
      → (pending k ≡ b ++ pending (receive k n).1) × (0 < length b) × (length b ≤ n)
  pub finishes : (k : K) (n : ℕ) → (receive k n).0 ≡ ended → pending k ≡ pending (receive k n).1
  pub fails :
      (k : K) (n e : ℕ)
      → (receive k n).0 ≡ read_error e
      → (pending k ≡ pending (receive k n).1) × (0 < e)

-- The bytes moved are the first that were pending, no more than n, and the rest is still pending.
abbrev pub IsTaken : {K : Type 0} → (K → Bytes) → ℕ → K → Transfer K → Type 0
IsTaken pending n k t = (pending k ≡ t.moved ++ pending t.system) × (length t.moved ≤ n)

Received-cases :
    (r : Received) → ((b : Bytes) × (r ≡ got b)) ⊎ ((r ≡ ended) ⊎ ((e : ℕ) × (r ≡ read_error e)))
Received-cases (got b) = inl (b, refl)
Received-cases ended = inr (inl refl)
Received-cases (read_error e) = inr (inr (e, refl))

module _ {K : Type 0} {receive : K → ℕ → Received × K} {pending : K → Bytes}
    (law : IsStream receive pending) where
  loop_lem :
      (errno f n : ℕ) (k : K)
      → n < f
      → (t : Transfer K) × (read_loop receive false errno f true n k ≡ some t)
        × IsTaken pending n k t
        × ((t.code == 0) ≡ (length t.moved == n))
  unfolding read_loop error_code
  loop_lem errno zero n k l = absurd (omega arith)
  loop_lem errno (suc f) zero k l = (_, refl, (refl, omega arith), refl)
  loop_lem errno (suc f) (suc n) k l = elim (Received-cases (receive k (suc n)).0) [
    | inl (b, e) ↦
        let k' = (receive k (suc n)).1 in
        let (same, some_bytes, few) = law.gives k (suc n) b e in
        let (t, r, (taken, short), whole) = loop_lem errno f (suc n - length b) k' (omega arith) in
        (
          moved_first b t,
          rw (e, read_loop) (rw (r, read_loop) refl),
          (
            same ∙ ap (λ d. b ++ d) taken ∙ sym (append_assoc b t.moved (pending t.system)),
            omega (arith, length-append b t.moved),
          ),
          whole ∙ ground (arith, length-append b t.moved),
        )
    | inr (inl e) ↦ (
      record { code = econnaborted; moved = []; system = (receive k (suc n)).1 },
      rw (e, read_loop) refl,
      (law.finishes k (suc n) e, omega arith),
      ground arith,
    )
    | inr (inr (x, e)) ↦
        let (same, error) = law.fails k (suc n) x e in
        (
          record { code = x; moved = []; system = (receive k (suc n)).1 },
          rw (e, read_loop) refl,
          (same, omega arith),
          ground arith,
        )
  ]

  -- A read that waits for n bytes, n at least 1, returns with fuel beyond n whatever pieces the stream arrives in: the
  -- bytes that it gives are the first of those pending, no more than n, the others stay pending,
  -- and its result is 0 exactly if it has all the n bytes.
  pub read_no_ssl_lem :
      (errno f n : ℕ) (k : K)
      → 0 < n
      → n < f
      → (t : Transfer K) × (read_no_ssl receive false errno f n k ≡ some t)
        × IsTaken pending n k t
        × ((t.code == 0) ≡ (length t.moved == n))
  unfolding read_no_ssl read_loop
  read_no_ssl_lem errno zero n k l h = absurd (omega arith)
  read_no_ssl_lem errno (suc f) zero k l h = absurd (omega arith)
  read_no_ssl_lem errno (suc f) (suc n) k l h = loop_lem errno (suc f) (suc n) k h

-- What the writes rely on: send takes the first bytes of the buffer, at least one of them, or takes
-- none and gives an error. The bytes that the peer is to get are `sent`.
pub record IsSink {K : Type 0} (transmit : K → Bytes → Sent × K) (sent : K → Bytes) : Type 0 where
  pub accepts :
      (k : K) (b : Bytes) (n : ℕ)
      → (transmit k b).0 ≡ took n
      → (sent (transmit k b).1 ≡ sent k ++ take n b) × (0 < n) × (n ≤ length b)
  pub rejects :
      (k : K) (b : Bytes) (e : ℕ)
      → (transmit k b).0 ≡ send_error e
      → (sent (transmit k b).1 ≡ sent k) × (0 < e)

-- What a write did: the peer gets a first part of the buffer, which is all of it exactly if the
-- result is 0.
abbrev pub IsWritten : {K : Type 0} → (K → Bytes) → Bytes → K → Transfer K → Type 0
IsWritten sent b k t =
    (sent t.system ≡ sent k ++ t.moved)
    × ((rest : Bytes) × (b ≡ t.moved ++ rest) × ((t.code == 0) ≡ (length rest == 0)))

Sent-cases : (s : Sent) → ((n : ℕ) × (s ≡ took n)) ⊎ ((e : ℕ) × (s ≡ send_error e))
Sent-cases (took n) = inl (n, refl)
Sent-cases (send_error e) = inr (e, refl)

module _ {K : Type 0} {transmit : K → Bytes → Sent × K} {sent : K → Bytes}
    (law : IsSink transmit sent) where
  write_loop_lem :
      (errno f : ℕ) (b : Bytes) (k : K)
      → length b < f
      → (t : Transfer K) × (write_loop transmit false errno f true b k ≡ some t)
        × IsWritten sent b k t
  unfolding write_loop error_code
  write_loop_lem errno zero b k l = absurd (omega arith)
  write_loop_lem errno (suc f) [] k l = (_, refl, (sym (append-nil (sent k)), ([], refl, refl)))
  write_loop_lem errno (suc f) (c ∷ b) k l = elim (Sent-cases (transmit k (c ∷ b)).0) [
    | inl (zero, e) ↦ absurd (omega (arith, (law.accepts k (c ∷ b) 0 e).1))
    | inl (suc j, e) ↦
        let (same, one, few) = law.accepts k (c ∷ b) (suc j) e in
        let (t, r, (out, (rest, front, whole))) =
          write_loop_lem errno f (drop j b) (transmit k (c ∷ b)).1
            (omega (arith, length-drop j b)) in
        (
          moved_first (c ∷ take j b) t,
          rw (e, write_loop) (rw (r, write_loop) refl),
          (
            out ∙ ap (λ d. d ++ t.moved) same ∙ append_assoc (sent k) (c ∷ take j b) t.moved,
            (
              rest,
              ap (λ d. c ∷ d)
                  (sym (take-drop j b)
                    ∙ ap (λ d. take j b ++ d) front
                    ∙ sym (append_assoc (take j b) t.moved rest)),
              whole,
            ),
          ),
        )
    | inr (x, e) ↦
        let (same, error) = law.rejects k (c ∷ b) x e in
        (
          record { code = x; moved = []; system = (transmit k (c ∷ b)).1 },
          rw (e, write_loop) refl,
          (same ∙ sym (append-nil (sent k)), (c ∷ b, refl, ground arith)),
        )
  ]

  -- A write that waits, of one byte or more, through a socket that takes the first bytes of the buffer
  -- or fails with an error: it returns however much of them each call takes; the
  -- peer gets a first part of them, after all that it got before, and the result is 0 exactly if
  -- nothing is left of them.
  pub write_no_ssl_lem :
      (errno c : ℕ) (b : Bytes) (k : K)
      → (t : Transfer K) × (write_no_ssl transmit false errno (suc (length (c ∷ b))) (c ∷ b) k
          ≡ some t)
        × IsWritten sent (c ∷ b) k t
  unfolding write_no_ssl write_loop
  write_no_ssl_lem errno c b k = write_loop_lem errno (suc (length (c ∷ b))) (c ∷ b) k (omega arith)

-- A read of one call: it gives all the bytes that were asked for.
pub read_loop_once :
    {K : Type 0} (receive : K → ℕ → Received × K) (errno f n : ℕ) (b : Bytes) (k : K)
    → 0 < n
    → (receive k n).0 ≡ got b
    → length b ≡ n
    → read_loop receive false errno (suc (suc f)) false n k
      ≡ some (record { code = 0; moved = b; system = (receive k n).1 })
unfolding read_loop
read_loop_once receive errno f zero b k l e s = absurd (omega arith)
read_loop_once receive errno f (suc n) b k l e s =
    let over : suc n - length b ≡ 0 = omega arith in
    rw (e, read_loop) (rw (over, read_loop) (rw (append-nil b) refl))
