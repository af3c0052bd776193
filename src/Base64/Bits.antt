-- ===== src/Base64/Bits.antt =====
-- The bit arithmetic of the codecs, as division and remainder, by tables over all byte values.
use Prim.Native.Nat.{bit_and, bit_or}
use push1st.Prelude.{
  ℕ, zero, suc, ◌+◌, ◌*◌, ◌/◌, ◌%◌, ◌<◌, ◌≡◌, refl, arith, Bool, true, ◌&&◌, ◌==◌, ==_iff, IsByte,
}

-- A table check: the test passes at every value under a limit.
unfoldable pub passes : (ℕ → Bool) → ℕ → Bool
passes test zero = true
passes test (suc limit) = passes test limit && test limit

pub passes_at :
    (test : ℕ → Bool) (limit value : ℕ)
    → value < limit
    → passes test limit ≡ true
    → test value ≡ true
unfolding passes
passes_at test (suc limit) value below all = ground (arith, passes_at test limit value)
passes_at test zero value below all = absurd (omega arith)

pub by_table : (n : ℕ) (f g : ℕ → ℕ) (x : ℕ) → passes (λ v. f v == g v) n ≡ true → x < n → f x ≡ g x
by_table n f g x h lt = (==_iff (f x) (g x)).0 (passes_at (λ v. f v == g v) n x lt h)

pub and_fc : (x : ℕ) → IsByte x → bit_and x 0xfc / 4 ≡ x / 4
unfolding passes
and_fc x h = by_table 256 (λ v. bit_and v 0xfc / 4) (λ v. v / 4) x refl h

pub and_03 : (x : ℕ) → IsByte x → bit_and x 0x03 ≡ x % 4
unfolding passes
and_03 x h = by_table 256 (λ v. bit_and v 0x03) (λ v. v % 4) x refl h

pub and_f0 : (x : ℕ) → IsByte x → bit_and x 0xf0 / 16 ≡ x / 16
unfolding passes
and_f0 x h = by_table 256 (λ v. bit_and v 0xf0 / 16) (λ v. v / 16) x refl h

pub and_0f : (x : ℕ) → IsByte x → bit_and x 0x0f ≡ x % 16
unfolding passes
and_0f x h = by_table 256 (λ v. bit_and v 0x0f) (λ v. v % 16) x refl h

pub and_c0 : (x : ℕ) → IsByte x → bit_and x 0xc0 / 64 ≡ x / 64
unfolding passes
and_c0 x h = by_table 256 (λ v. bit_and v 0xc0 / 64) (λ v. v / 64) x refl h

pub and_3f : (x : ℕ) → IsByte x → bit_and x 0x3f ≡ x % 64
unfolding passes
and_3f x h = by_table 256 (λ v. bit_and v 0x3f) (λ v. v % 64) x refl h

-- Two fields that do not overlap: the high one a multiple of the low one's range.
or_table : (n m k : ℕ) → ℕ → Bool
or_table n m k h = passes (λ l. bit_or (h * k) l == h * k + l) m

pub or_low2 : (h l : ℕ) → h < 64 → l < 4 → bit_or (h * 4) l ≡ h * 4 + l
unfolding or_table passes
or_low2 h l ph pl =
    by_table 4 (λ v. bit_or (h * 4) v) (λ v. h * 4 + v) l (passes_at (or_table 64 4 4) 64 h ph refl)
      pl

pub or_low4 : (h l : ℕ) → h < 64 → l < 16 → bit_or (h * 16) l ≡ h * 16 + l
unfolding or_table passes
or_low4 h l ph pl =
    by_table 16 (λ v. bit_or (h * 16) v) (λ v. h * 16 + v) l
      (passes_at (or_table 64 16 16) 64 h ph refl) pl

pub or_low6 : (h l : ℕ) → h < 4 → l < 64 → bit_or (h * 64) l ≡ h * 64 + l
unfolding or_table passes
or_low6 h l ph pl =
    by_table 64 (λ v. bit_or (h * 64) v) (λ v. h * 64 + v) l
      (passes_at (or_table 4 64 64) 4 h ph refl) pl

pub shifted_c0 : (x : ℕ) → x < 64 → bit_and (x * 64) 0xc0 ≡ (x % 4) * 64
unfolding passes
shifted_c0 x h = by_table 64 (λ v. bit_and (v * 64) 0xc0) (λ v. (v % 4) * 64) x refl h
