-- ===== src/Http/Scan.antt =====
-- The helpers of the parser: ParserNext, ParseNumber and SplitBy.
use push1st.Prelude.{
  ◌+◌, ◌*◌, ◌-◌, ◌%◌, ◌^◌, ◌==◌, ◌||◌, if◌then◌else◌, Option, Bytes, Bool, [], ◌∷◌, none, some,
  true, false, ℕ, ◌++◌,
}
use push1st.Credentials.Decimal.{is_space, is_digit}

unfoldable pub is_empty : Bytes → Bool
is_empty [] = true
is_empty (c ∷ cs) = false

unfoldable pub drop_spaces : Bytes → Bytes
drop_spaces [] = []
drop_spaces (c ∷ cs) = let rest = drop_spaces cs in if is_space c then rest else c ∷ cs

unfoldable pub spaces_of : Bytes → Bytes
spaces_of [] = []
spaces_of (c ∷ cs) = let rest = spaces_of cs in if is_space c then c ∷ rest else []

unfoldable pub trim_end : Bytes → Bytes
trim_end [] = []
trim_end (c ∷ cs) = elim (trim_end cs) [
  | [] ↦ if is_space c then [] else c ∷ []
  | d ∷ ds ↦ c ∷ d ∷ ds
]

-- The text before a symbol, and the text from it on, which is empty where there is none.
unfoldable pub until : ℕ → Bytes → Bytes × Bytes
until symbol [] = ([], [])
until symbol (c ∷ cs) =
    let rest = until symbol cs in if c == symbol then ([], c ∷ cs) else (c ∷ rest.0, rest.1)

-- What ParserNext returns, what it moves over and what it leaves.
pub record Next : Type 0 where
  pub token : Bytes
  pub passed : Bytes
  pub rest : Bytes

-- Around the token blanks are removed, and behind it as well, with the symbol if it is one.
unfoldable pub parser_next : ℕ → Bytes → Next
parser_next symbol d =
    let parts = until symbol d in
    record {
      token = trim_end (drop_spaces parts.0);
      passed = parts.0 ++ spaces_of parts.1;
      rest = drop_spaces parts.1;
    }

-- The loop over the digits of ParseNumber, in a size_t.
unfoldable pub parse_digits : ℕ → Bytes → ℕ
parse_digits acc [] = acc
parse_digits acc (c ∷ cs) =
    let rest = parse_digits ((acc * 10 + (c - b'0')) % 2 ^ 64) cs in
    if is_digit c then rest else acc

unfoldable pub parse_number : Bytes → ℕ
parse_number d = parse_digits 0 (drop_spaces d)

-- SplitBy with a text of two symbols: the text before the first of them, that symbol, and the text
-- behind it.
unfoldable pub split_by : ℕ → ℕ → Bytes → Option (Bytes × ℕ × Bytes)
split_by p q [] = none
split_by p q (c ∷ cs) = elim (c == p || c == q) [
  | true ↦ some ([], c, cs)
  | false ↦ elim (split_by p q cs) [
    | none ↦ none
    | some (part, symbol, rest) ↦ some (c ∷ part, symbol, rest)
  ]
]
