-- ===== src/Credentials/Decimal.antt =====
-- std::to_string and std::stol, as far as tokens use them.
use push1st.Prelude.{
  ℕ, zero, suc, ◌+◌, ◌-◌, ◌*◌, ◌/◌, ◌%◌, ◌^◌, ◌<◌, ◌≡◌, refl, sym, ap, ◌∙◌, Bool, true, ◌&&◌, ◌||◌,
  [], ◌∷◌, ◌++◌, Option, none, some, arith, Bytes, ltb, leb, ◌==◌, if◌then◌else◌, ◌>>=◌, All,
  All-append, Bool-cases, inl, inr,
}

-- std::to_string, on fuel that n + 1 always suffices.
unfoldable pub decimal_fuel : ℕ → ℕ → Bytes
decimal_fuel zero n = []
decimal_fuel (suc f) n =
    let high = decimal_fuel f (n / 10) in
    if ltb n 10 then (b'0' + n) ∷ [] else high ++ (b'0' + n % 10) ∷ []

unfoldable pub decimal : ℕ → Bytes
decimal n = decimal_fuel (suc n) n

unfoldable pub is_digit : ℕ → Bool
is_digit c = leb b'0' c && leb c b'9'

-- The digits at the head of a text, added to those before it.
unfoldable pub read_digits : ℕ → Bytes → ℕ
read_digits acc [] = acc
read_digits acc (c ∷ cs) =
    let rest = read_digits (acc * 10 + (c - b'0')) cs in if is_digit c then rest else acc

-- The number that std::stol reads after its sign; it throws where no digit stands there and where
-- the number reaches the limit.
unfoldable pub stol_digits : ℕ → Bytes → Option ℕ
stol_digits limit [] = none
stol_digits limit (c ∷ cs) =
    if is_digit c
    then if ltb (read_digits 0 (c ∷ cs)) limit then some (read_digits 0 (c ∷ cs)) else none
    else none

pub data Long : Type 0 where
  positive : ℕ → Long
  negative : ℕ → Long

unfoldable pub is_space : ℕ → Bool
is_space c = (c == b' ') || (leb 9 c && leb c 13)

-- std::stol
unfoldable pub stol : Bytes → Option Long
stol [] = none
stol (c ∷ cs) =
    let rest = stol cs in
    if is_space c
    then rest
    else if c == b'-'
    then stol_digits (2 ^ 63 + 1) cs >>= (λ n. some (negative n))
    else if c == b'+'
    then stol_digits (2 ^ 63) cs >>= (λ n. some (positive n))
    else stol_digits (2 ^ 63) (c ∷ cs) >>= (λ n. some (positive n))

abbrev pub Digits : Bytes → Type 0
Digits s = All (λ c. is_digit c ≡ true) s

digit_lem : (n : ℕ) → n < 10 → is_digit (b'0' + n) ≡ true
unfolding is_digit
digit_lem n h = ground arith

decimal_fuel-Digits : (f n : ℕ) → Digits (decimal_fuel f n)
unfolding decimal_fuel
decimal_fuel-Digits zero n = tt
decimal_fuel-Digits (suc f) n = elim (Bool-cases (ltb n 10)) [
  | inl small ↦ rw small (digit_lem n (ground arith), tt)
  | inr big ↦ rw big (
      All-append (λ c. is_digit c ≡ true) (decimal_fuel f (n / 10)) ((b'0' + n % 10) ∷ [])
        (decimal_fuel-Digits f (n / 10)) (digit_lem (n % 10) (omega arith), tt))
]

read_digits-append :
    (acc : ℕ) (s : Bytes) (d : ℕ)
    → Digits s
    → d < 10
    → read_digits acc (s ++ (b'0' + d) ∷ []) ≡ read_digits acc s * 10 + d
unfolding read_digits
read_digits-append acc [] d h l = rw (digit_lem d l) (omega arith)
read_digits-append acc (c ∷ s) d h l = rw h.0 (read_digits-append (acc * 10 + (c - b'0')) s d h.1 l)

read_digits-decimal_fuel : (f n : ℕ) → n < f → read_digits 0 (decimal_fuel f n) ≡ n
unfolding decimal_fuel
read_digits-decimal_fuel zero n h = elim h [ ]
read_digits-decimal_fuel (suc f) n h = elim (Bool-cases (ltb n 10)) [
  | inl small ↦
      rw small (read_digits-append 0 [] n tt (ground arith) ∙ unfold read_digits in omega arith)
  | inr big ↦ rw big (
      read_digits-append 0 (decimal_fuel f (n / 10)) (n % 10) (decimal_fuel-Digits f (n / 10))
        (omega arith)
      ∙ omega (arith, read_digits-decimal_fuel f (n / 10) (ground arith)))
]

append_not_nil : (s : Bytes) (d : ℕ) → (c : ℕ) × (cs : Bytes) × (s ++ d ∷ [] ≡ c ∷ cs)
append_not_nil [] d = (d, [], refl)
append_not_nil (x ∷ s) d = (x, s ++ d ∷ [], refl)

decimal_fuel_cons : (f n : ℕ) → (c : ℕ) × (cs : Bytes) × (decimal_fuel (suc f) n ≡ c ∷ cs)
unfolding decimal_fuel
decimal_fuel_cons f n = elim (Bool-cases (ltb n 10)) [
  | inl small ↦ rw small (b'0' + n, [], refl)
  | inr big ↦ rw big (append_not_nil (decimal_fuel f (n / 10)) (b'0' + n % 10))
]

pub read_digits-decimal : (n : ℕ) → read_digits 0 (decimal n) ≡ n
unfolding decimal
read_digits-decimal n = read_digits-decimal_fuel (suc n) n (omega arith)

stol_lem :
    (c : ℕ) (cs : Bytes)
    → Digits (c ∷ cs)
    → read_digits 0 (c ∷ cs) < 2 ^ 63
    → stol (c ∷ cs) ≡ some (positive (read_digits 0 (c ∷ cs)))
unfolding stol stol_digits is_space is_digit
stol_lem c cs h l = ground arith

-- A number that is printed is read back.
pub stol-decimal : (n : ℕ) → n < 2 ^ 63 → stol (decimal n) ≡ some (positive n)
unfolding decimal
stol-decimal n h =
    let (c, cs, e) = decimal_fuel_cons n n in
    let v : read_digits 0 (decimal_fuel (suc n) n) ≡ n =
      read_digits-decimal_fuel (suc n) n (omega arith) in
    let ds : Digits (decimal_fuel (suc n) n) = decimal_fuel-Digits (suc n) n in
    ap stol e
    ∙ stol_lem c cs (rw e at ds) (omega (arith, ap (read_digits 0) e, v))
    ∙ ap (λ (k : ℕ). some (positive k)) (sym (ap (read_digits 0) e) ∙ v)

pub decimal-Digits : (n : ℕ) → Digits (decimal n)
unfolding decimal
decimal-Digits n = decimal_fuel-Digits (suc n) n
