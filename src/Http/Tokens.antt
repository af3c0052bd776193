-- ===== src/Http/Tokens.antt =====
-- The tokens that ParserNext finds between blanks.
use mathlib.Core.List.{append-nil}
use push1st.Prelude.{
  Without, All, All-append, arith, ◌∙◌, ◌==◌, ◌≡◌, Bytes, refl, [], ◌∷◌, true, false, ℕ, ◌++◌,
}
use push1st.Credentials.Decimal.{is_space}
use push1st.Http.Scan.{drop_spaces, spaces_of, trim_end, until, parser_next}

-- A text that does not begin with a blank, and one that neither begins nor ends with one.
abbrev pub Starts : Bytes → Type 0
Starts [] = Unit
Starts (c ∷ cs) = is_space c ≡ false

abbrev pub IsToken : Bytes → Type 0
IsToken t = Starts t × (trim_end t ≡ t)

abbrev pub Blank : Bytes → Type 0
Blank s = All (λ c. is_space c ≡ true) s

pub drop_spaces-Starts : (p d : Bytes) → Blank p → Starts d → drop_spaces (p ++ d) ≡ d
unfolding drop_spaces
drop_spaces-Starts [] [] h s = refl
drop_spaces-Starts [] (c ∷ cs) h s = rw s refl
drop_spaces-Starts (c ∷ p) d h s = rw h.0 (drop_spaces-Starts p d h.1 s)

spaces_of-Starts : (p d : Bytes) → Blank p → Starts d → spaces_of (p ++ d) ≡ p
unfolding spaces_of
spaces_of-Starts [] [] h s = refl
spaces_of-Starts [] (c ∷ cs) h s = rw s refl
spaces_of-Starts (c ∷ p) d h s = rw (h.0, spaces_of-Starts p d h.1 s) refl

trim_end-Blank : (q : Bytes) → Blank q → trim_end q ≡ []
unfolding trim_end
trim_end-Blank [] h = refl
trim_end-Blank (c ∷ q) h = rw (trim_end-Blank q h.1, trim_end, h.0) refl

trim_end-append : (a q : Bytes) → Blank q → trim_end (a ++ q) ≡ trim_end a
unfolding trim_end
trim_end-append [] q h = trim_end-Blank q h
trim_end-append (c ∷ a) q h = rw (trim_end-append a q h, trim_end) refl

until-append :
    (symbol : ℕ) (a b : Bytes) → Without symbol a → until symbol (a ++ symbol ∷ b) ≡ (a, symbol ∷ b)
unfolding until
until-append symbol [] b h = ground arith
until-append symbol (c ∷ a) b h =
    let other : c == symbol ≡ false = ground (arith, h.0) in
    rw (other, until, until-append symbol a b h.1) refl

-- The text between blanks: of a token that is empty nothing is left.
trimmed :
    (p a q : Bytes) → Blank p → IsToken a → Blank q → trim_end (drop_spaces (p ++ (a ++ q))) ≡ a
unfolding trim_end
trimmed p [] q hp ha hq =
    let all : Blank (p ++ q) = All-append (λ c. is_space c ≡ true) p q hp hq in
    rw (← append-nil (p ++ q), drop_spaces-Starts (p ++ q) [] all tt) refl
trimmed p (c ∷ a) q hp ha hq =
    rw (drop_spaces-Starts p ((c ∷ a) ++ q) hp ha.0) (trim_end-append (c ∷ a) q hq ∙ ha.1)

-- A token up to a symbol, with blanks around it, and blanks before what is left.
pub next_token :
    (symbol : ℕ) (p a q w b x : Bytes)
    → w ++ b ≡ symbol ∷ x
    → Blank p
    → Blank q
    → Blank w
    → IsToken a
    → Starts b
    → Without symbol (p ++ (a ++ q))
    → parser_next symbol ((p ++ (a ++ q)) ++ (w ++ b))
      ≡ record { token = a; passed = (p ++ (a ++ q)) ++ w; rest = b }
unfolding parser_next
next_token symbol p a q w b x e hp hq hw ha hb h =
    let parts : until symbol ((p ++ (a ++ q)) ++ (w ++ b)) ≡ (p ++ (a ++ q), w ++ b) =
      rw e (until-append symbol (p ++ (a ++ q)) x h) in
    rw
      (
        parts,
        parser_next,
        trimmed p a q hp ha hq,
        spaces_of-Starts w b hw hb,
        drop_spaces-Starts w b hw hb,
      )
      refl
