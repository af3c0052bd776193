-- ===== src/Smpp/Chunks.antt =====
-- cmessage::Split: a text of more than 140 bytes goes out in parts of 132 bytes, each behind a header
-- that numbers it.
use push1st.Prelude.{
  take-drop, length-drop, ◌<◌, ◌/◌, leb, All, arith, ◌%◌, ◌≡◌, ◌+◌, ◌≤◌, if◌then◌else◌, Bytes, List,
  refl, [], ◌∷◌, false, ℕ, zero, suc, ◌++◌, take, drop, length,
}

-- cudh: its length, the tag, a fixed id, the number of parts and the number of this one.
unfoldable pub udh : ℕ → ℕ → Bytes
udh parts number = 5 ∷ 0 ∷ 3 ∷ 1 ∷ (parts % 256) ∷ (number % 256) ∷ []

-- The loop over the parts, on fuel that the length of the text always suffices.
unfoldable pub split_loop : ℕ → ℕ → ℕ → Bytes → List Bytes
split_loop zero nparts npart text = []
split_loop (suc f) nparts npart [] = []
split_loop (suc f) nparts npart (c ∷ cs) =
    (udh nparts npart ++ take 132 (c ∷ cs)) ∷ split_loop f nparts (suc npart) (drop 132 (c ∷ cs))

abbrev pub part_count : Bytes → ℕ
part_count msg = (length msg + 131) / 132

unfoldable pub split : Bytes → List Bytes
split msg =
    if leb (length msg) 140 then msg ∷ [] else split_loop (length msg) (part_count msg) 1 msg

-- What a receiver makes of the parts: the texts behind their headers, one after another.
abbrev pub joined_parts : List Bytes → Bytes
joined_parts [] = []
joined_parts (p ∷ ps) = drop 6 p ++ joined_parts ps

-- The parts carry the number of all of them, and count from k, in one byte each.
abbrev pub Numbered : ℕ → ℕ → List Bytes → Type 0
Numbered n k [] = Unit
Numbered n k (p ∷ ps) = (take 6 p ≡ udh n k) × Numbered n (suc k) ps

length-take_bound : (n : ℕ) (xs : Bytes) → length (take n xs) ≤ n
length-take_bound zero xs = omega arith
length-take_bound (suc n) [] = omega arith
length-take_bound (suc n) (x ∷ xs) = omega (arith, length-take_bound n xs)

part-header :
    (n k : ℕ) (t : Bytes) → (take 6 (udh n k ++ t) ≡ udh n k) × (drop 6 (udh n k ++ t) ≡ t)
unfolding udh
part-header n k t = (refl, refl)

part-short : (n k : ℕ) (text : Bytes) → length (udh n k ++ take 132 text) ≤ 138
unfolding udh
part-short n k text = omega (arith, length-take_bound 132 text)

-- What a list of parts has to be for a text.
abbrev pub IsSplit : ℕ → ℕ → Bytes → List Bytes → Type 0
IsSplit n k text parts =
    (joined_parts parts ≡ text)
    × (All (λ p. length p ≤ 138) parts × (Numbered n k parts × (length parts ≡ part_count text)))

split_loop_lem :
    (f n k : ℕ) (text : Bytes) → length text ≤ f → IsSplit n k text (split_loop f n k text)
unfolding split_loop
split_loop_lem zero n k [] h = (refl, (tt, (tt, omega arith)))
split_loop_lem zero n k (c ∷ cs) h = absurd (omega arith)
split_loop_lem (suc f) n k [] h = (refl, (tt, (tt, omega arith)))
split_loop_lem (suc f) n k (c ∷ cs) h =
    let less = length-drop 132 (c ∷ cs) in
    let (j, (s, (m, l))) = split_loop_lem f n (suc k) (drop 132 (c ∷ cs)) (omega (arith, less)) in
    let (header, text) = part-header n k (take 132 (c ∷ cs)) in
    (
      rw (text, j) (take-drop 132 (c ∷ cs)),
      ((part-short n k (c ∷ cs), s), ((header, m), omega (arith, l, less))),
    )

-- The parts of a text of more than 140 bytes join to the text, are no longer than 138 bytes, and are
-- numbered from 1 under their number, which is the length of the text over 132, rounded up.
pub split-IsSplit : (msg : Bytes) → 140 < length msg → IsSplit (part_count msg) 1 msg (split msg)
unfolding split
split-IsSplit msg h =
    let long : leb (length msg) 140 ≡ false = ground arith in
    rw (long, split) (split_loop_lem (length msg) (part_count msg) 1 msg (omega arith))
