-- ===== src/Credentials/Text.antt =====
-- Characters and numbers in tokens: Hex and Trim of ccredentials.cpp, and find_first_of
-- of the standard library.
use push1st.Prelude.{
  ℕ, ◌+◌, ◌-◌, ◌*◌, ◌%◌, ◌≡◌, refl, Bool, false, ◌&&◌, ◌||◌, [], ◌∷◌, Option, none, some, Bytes,
  codes, get_or, leb, ◌==◌, if◌then◌else◌, All,
}

-- The value of one hexadecimal digit, in lower case.
unfoldable pub nibble : ℕ → Option ℕ
nibble c =
    if leb b'0' c && leb c b'9'
    then some (c - b'0')
    else if leb b'a' c && leb c b'f'
    then some (c - b'a' + 10)
    else none

-- Hex of two characters: 0 where one of them is no digit.
unfoldable pub hex_pair : ℕ → ℕ → ℕ
hex_pair h l = elim (nibble h) [
  | none ↦ 0
  | some x ↦ elim (nibble l) [ none ↦ 0 | some y ↦ (x * 16 + y) % 256 ]
]

-- Hex of a number.
unfoldable pub hex_digit : ℕ → ℕ
hex_digit v = get_or (codes "0123456789abcdef") v 0

unfoldable pub is_blank : ℕ → Bool
is_blank c = (c == b' ') || (c == 9)

-- The first loop of Trim, and the second one, on the text read backwards.
unfoldable pub trim_front : Bytes → Bytes
trim_front [] = []
trim_front (c ∷ cs) = let rest = trim_front cs in if is_blank c then rest else c ∷ cs

unfoldable pub trim_back : Bytes → Bytes
trim_back [] = []
trim_back (c ∷ cs) = elim (trim_back cs) [
  | [] ↦ if is_blank c then [] else c ∷ []
  | d ∷ ds ↦ c ∷ d ∷ ds
]

unfoldable pub trim : Bytes → Bytes
trim s = trim_back (trim_front s)

abbrev pub NoBlank : Bytes → Type 0
NoBlank s = All (λ c. is_blank c ≡ false) s

trim_front_lem : (s : Bytes) → NoBlank s → trim_front s ≡ s
unfolding trim_front
trim_front_lem [] h = refl
trim_front_lem (c ∷ s) h = rw (h.0) refl

trim_back_lem : (s : Bytes) → NoBlank s → trim_back s ≡ s
unfolding trim_back
trim_back_lem [] h = refl
trim_back_lem (c ∷ []) h = rw (h.0) refl
trim_back_lem (c ∷ d ∷ s) h = rw (trim_back_lem (d ∷ s) h.1, trim_back) refl

-- Nothing is trimmed off a text with no blanks.
pub trim_lem : (s : Bytes) → NoBlank s → trim s ≡ s
unfolding trim
trim_lem s h = rw (trim_front_lem s h) (trim_back_lem s h)
