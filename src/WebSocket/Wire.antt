-- ===== src/WebSocket/Wire.antt =====
-- Network byte order, and exclusive or on bytes.
use Prim.Native.Nat.{bit_xor}
use push1st.Prelude.{
  ℕ, zero, suc, ◌+◌, ◌*◌, ◌/◌, ◌%◌, ◌^◌, ◌<◌, ◌≡◌, refl, ◌∙◌, Bool, [], ◌∷◌, ◌++◌, arith, Bytes,
  IsByte, length, length-append, ◌==◌, ==_iff,
}
use native.Mathlib.Nat.{pow-suc}
use push1st.Base64.Bits.{passes, passes_at}

-- htobe16 and htobe64: `k` bytes, the most significant first.
unfoldable pub be_bytes : ℕ → ℕ → Bytes
be_bytes zero n = []
be_bytes (suc k) n = be_bytes k (n / 256) ++ n % 256 ∷ []

-- be16toh and be64toh.
unfoldable pub be_value_from : ℕ → Bytes → ℕ
be_value_from acc [] = acc
be_value_from acc (b ∷ bs) = be_value_from (acc * 256 + b) bs

unfoldable pub be_value : Bytes → ℕ
unfolding be_value_from
be_value bs = be_value_from 0 bs

pub length-be_bytes : (k n : ℕ) → length (be_bytes k n) ≡ k
unfolding be_bytes
length-be_bytes zero n = refl
length-be_bytes (suc k) n =
    omega (arith, length-append (be_bytes k (n / 256)) (n % 256 ∷ []), length-be_bytes k (n / 256))

be_value_from-append :
    (acc : ℕ) (xs : Bytes) (b : ℕ)
    → be_value_from acc (xs ++ b ∷ []) ≡ be_value_from acc xs * 256 + b
unfolding be_value_from
be_value_from-append acc [] b = refl
be_value_from-append acc (x ∷ xs) b = be_value_from-append (acc * 256 + x) xs b

be_value_from-be_bytes : (k n : ℕ) → n < 256 ^ k → be_value_from 0 (be_bytes k n) ≡ n
unfolding be_bytes be_value_from
be_value_from-be_bytes zero n h = omega arith
be_value_from-be_bytes (suc k) n h =
    be_value_from-append 0 (be_bytes k (n / 256)) (n % 256)
    ∙ rw (be_value_from-be_bytes k (n / 256) (omega (arith, pow-suc 256 k))) (omega arith)

pub be_value-be_bytes : (k n : ℕ) → n < 256 ^ k → be_value (be_bytes k n) ≡ n
unfolding be_value
be_value-be_bytes = be_value_from-be_bytes

xor_table : ℕ → Bool
xor_table k = passes (λ x. bit_xor (bit_xor x k) k == x) 256

pub xor_twice : (x k : ℕ) → IsByte x → IsByte k → bit_xor (bit_xor x k) k ≡ x
unfolding xor_table passes
xor_twice x k hx hk =
    (==_iff (bit_xor (bit_xor x k) k) x).0
      (passes_at (λ v. bit_xor (bit_xor v k) k == v) 256 x hx (passes_at xor_table 256 k hk refl))
