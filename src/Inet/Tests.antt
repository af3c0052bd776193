-- ===== src/Inet/Tests.antt =====
-- A stream that gives its bytes one at a time, and a peer that takes them one at a time.
use push1st.Prelude.{
  codes, ltb, if◌then◌else◌, arith, ◌==◌, ◌≡◌, ◌≤◌, ◌<◌, Bytes, Bool, refl, [], ◌∷◌, some, true,
  false, ℕ, zero, suc, ◌++◌, length, take,
}
use push1st.Inet.Socket.{
  Received, got, ended, read_error, Sent, took, send_error, Transfer, read_no_ssl, write_no_ssl,
  read_loop, write_loop, write_to_no_ssl, write_to_loop, eagain,
}
use push1st.Inet.Poll.{gc_times, ask_all, gc_times-ask_all}
use push1st.Inet.Stream.{IsStream, IsTaken, IsSink, read_no_ssl_lem}

abbrev give_one : Bytes → ℕ → Received × Bytes
give_one k zero = (read_error 4, k)
give_one [] (suc n) = (ended, [])
give_one (c ∷ k) (suc n) = (got (c ∷ []), k)

gives_one :
    (k : Bytes) (n : ℕ) (b : Bytes)
    → (give_one k n).0 ≡ got b
    → (k ≡ b ++ (give_one k n).1) × (0 < length b) × (length b ≤ n)
gives_one k zero b e = cc
gives_one [] (suc n) b e = cc
gives_one (c ∷ k) (suc n) b e =
    let one : b ≡ c ∷ [] = cc in (rw one refl, rw one (omega arith), rw one (omega arith))

finishes_one : (k : Bytes) (n : ℕ) → (give_one k n).0 ≡ ended → k ≡ (give_one k n).1
finishes_one k zero e = cc
finishes_one [] (suc n) e = refl
finishes_one (c ∷ k) (suc n) e = cc

fails_one :
    (k : Bytes) (n e : ℕ) → (give_one k n).0 ≡ read_error e → (k ≡ (give_one k n).1) × (0 < e)
fails_one k zero e h = (refl, ground arith)
fails_one [] (suc n) e h = cc
fails_one (c ∷ k) (suc n) e h = cc

give_one-IsStream : IsStream give_one (λ k. k)
give_one-IsStream = record { gives = gives_one; finishes = finishes_one; fails = fails_one }

-- Two bytes of three that are pending; then four, where the stream ends after three.
reads_two :
    read_no_ssl give_one false 0 3 2 (codes "abc")
    ≡ some (record { code = 0; moved = codes "ab"; system = codes "c" })
unfolding read_no_ssl read_loop
reads_two = refl

reads_to_end :
    read_no_ssl give_one true 0 5 4 (codes "abc")
    ≡ some (record { code = 103; moved = codes "abc"; system = [] })
unfolding read_no_ssl read_loop
reads_to_end = refl

read_no_ssl_lem_example :
    (t : Transfer Bytes) × (read_no_ssl give_one false 0 3 2 (codes "abc") ≡ some t)
    × IsTaken (λ k. k) 2 (codes "abc") t
    × ((t.code == 0) ≡ (length t.moved == 2))
read_no_ssl_lem_example =
    read_no_ssl_lem give_one-IsStream 0 3 2 (codes "abc") (omega arith) (omega arith)

abbrev take_one : Bytes → Bytes → Sent × Bytes
take_one k [] = (send_error 22, k)
take_one k (c ∷ b) = (took 1, k ++ c ∷ [])

accepts_one :
    (k b : Bytes) (n : ℕ)
    → (take_one k b).0 ≡ took n
    → ((take_one k b).1 ≡ k ++ take n b) × (0 < n) × (n ≤ length b)
accepts_one k [] n e = cc
accepts_one k (c ∷ b) n e = let one : n ≡ 1 = cc in (rw one refl, omega arith, omega arith)

rejects_one :
    (k b : Bytes) (e : ℕ) → (take_one k b).0 ≡ send_error e → ((take_one k b).1 ≡ k) × (0 < e)
rejects_one k [] e h = (refl, ground arith)
rejects_one k (c ∷ b) e h = cc

take_one-IsSink : IsSink take_one (λ k. k)
take_one-IsSink = record { accepts = accepts_one; rejects = rejects_one }

writes_all :
    write_no_ssl take_one false 0 3 (codes "bc") (codes "a")
    ≡ some (record { code = 0; moved = codes "bc"; system = codes "abc" })
unfolding write_no_ssl write_loop
writes_all = refl

-- A datagram socket that says EAGAIN once is asked again.
abbrev busy : ℕ → Bytes → Sent × ℕ
busy zero b = (send_error eagain, 1)
busy (suc n) b = (took (length b), suc n)

writes_again :
    write_to_no_ssl busy 0 3 (codes "ab") 0
    ≡ some (record { code = 0; moved = codes "ab"; system = 1 })
unfolding write_to_no_ssl write_to_loop
writes_again = refl

-- Objects that leave after they were asked twice.
abbrev twice : (ℕ → ℕ) → ℕ → Bool × (ℕ → ℕ)
twice asked h = (ltb (asked h) 1, λ i. if i == h then suc (asked i) else asked i)

gc_times-ask_all_example :
    (gc_times twice 3 (1 ∷ 2 ∷ 3 ∷ []) (λ h. if h == 2 then 1 else 0))
    ≡ ask_all twice (1 ∷ 2 ∷ 3 ∷ []) (λ h. if h == 2 then 1 else 0)
gc_times-ask_all_example = gc_times-ask_all twice (1 ∷ 2 ∷ 3 ∷ []) (λ h. if h == 2 then 1 else 0)

second_leaves : (ask_all twice (1 ∷ 2 ∷ 3 ∷ []) (λ h. if h == 2 then 1 else 0)).0 ≡ 1 ∷ 3 ∷ []
unfolding ask_all
second_leaves = refl
