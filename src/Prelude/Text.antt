-- ===== src/Prelude/Text.antt =====
-- Texts of the program as lists of byte values.
use Prim.Native.Nat.{ℕ, ◌<◌}
use Prim.Native.Char.{code}
use Prim.Native.String.{String}
use mathlib.Core.Path.{◌≡◌, refl}
use mathlib.Core.Logic.{◌≢◌, ◌↔◌}
use mathlib.Core.Bool.{Bool, true, false, ◌&&◌}
use mathlib.Core.List.{List, [], ◌∷◌, ◌++◌}
use mathlib.Core.Option.{Option, none, some}
use native.Mathlib.Omega.{arith}
use push1st.Prelude.Tests.{◌==◌}
use push1st.Prelude.Lists.{All, length, drop}

abbrev pub Bytes : Type 0
Bytes = List ℕ

abbrev pub IsByte : ℕ → Type 0
IsByte x = x < 256

-- The bytes of an ASCII literal.
abbrev pub codes : String → Bytes
codes String.[] = []
codes (String.◌∷◌ c s) = code c ∷ codes s

unfoldable pub bytes_eq : Bytes → Bytes → Bool
bytes_eq [] [] = true
bytes_eq [] (y ∷ ys) = false
bytes_eq (x ∷ xs) [] = false
bytes_eq (x ∷ xs) (y ∷ ys) = (x == y) && bytes_eq xs ys

pub bytes_eq_iff : (xs ys : Bytes) → (bytes_eq xs ys ≡ true) ↔ (xs ≡ ys)
unfolding bytes_eq
bytes_eq_iff [] [] = ground arith
bytes_eq_iff [] (y ∷ ys) = ground arith
bytes_eq_iff (x ∷ xs) [] = ground arith
bytes_eq_iff (x ∷ xs) (y ∷ ys) = ground (arith, bytes_eq_iff xs ys)

pub bytes_eq_refl : (xs : Bytes) → bytes_eq xs xs ≡ true
bytes_eq_refl xs = (bytes_eq_iff xs xs).1 refl

-- `s.compare(0, p.length(), p) == 0`.
unfoldable pub starts_with : Bytes → Bytes → Bool
starts_with [] s = true
starts_with (c ∷ p) [] = false
starts_with (c ∷ p) (d ∷ s) = (c == d) && starts_with p s

pub starts_with-append : (p s : Bytes) → starts_with p (p ++ s) ≡ true
unfolding starts_with
starts_with-append [] s = refl
starts_with-append (c ∷ p) s = ground (arith, starts_with-append p s)

pub starts_with-rest : (p s : Bytes) → starts_with p s ≡ true → s ≡ p ++ drop (length p) s
unfolding starts_with
starts_with-rest [] s h = refl
starts_with-rest (c ∷ p) [] h = cc
starts_with-rest (c ∷ p) (d ∷ s) h = ground (arith, starts_with-rest p s)

-- The text before the first `sep`, and the text after it; `none` where there is no `sep`.
unfoldable pub split_at : ℕ → Bytes → Option (Bytes × Bytes)
split_at sep [] = none
split_at sep (c ∷ cs) = elim (c == sep) [
  | true ↦ some ([], cs)
  | false ↦ elim (split_at sep cs) [ none ↦ none | some (a, b) ↦ some (c ∷ a, b) ]
]

abbrev pub Without : ℕ → Bytes → Type 0
Without sep s = All (λ c. c ≢ sep) s

pub split_at-append :
    (sep : ℕ) (a b : Bytes) → Without sep a → split_at sep (a ++ sep ∷ b) ≡ some (a, b)
unfolding split_at
split_at-append sep [] b h = ground arith
split_at-append sep (c ∷ a) b h = ground (arith, split_at-append sep a b h.1)

pub split_at-Without : (sep : ℕ) (a : Bytes) → Without sep a → split_at sep a ≡ none
unfolding split_at
split_at-Without sep [] h = refl
split_at-Without sep (c ∷ a) h = ground (arith, split_at-Without sep a h.1)
