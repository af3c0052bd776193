-- ===== src/Base64/Codec.antt =====
-- The encoding and decoding loops, over the tables of an alphabet.
use Prim.Native.Nat.{bit_and, bit_or}
use push1st.Prelude.{
  ℕ, zero, suc, ◌+◌, ◌*◌, ◌/◌, ◌%◌, [], ◌∷◌, ◌++◌, Option, none, some, Bytes, ◌==◌, if◌then◌else◌,
  length, get_or, ◌>>=◌,
}

pub record Alphabet : Type 0 where
  pub encode_table : Bytes
  pub decode_table : Bytes
  pub pad : ℕ

unfoldable pub symbol : Alphabet → ℕ → ℕ
symbol a v = get_or a.encode_table v 0

unfoldable pub value : Alphabet → ℕ → ℕ
value a c = get_or a.decode_table c 0

-- char_array_4, from the three bytes of char_array_3.
unfoldable pub sextet0 : ℕ → ℕ
sextet0 x = bit_and x 0xfc / 4

unfoldable pub sextet1 : ℕ → ℕ → ℕ
sextet1 x y = (bit_and x 0x03 * 16 + bit_and y 0xf0 / 16) % 256

unfoldable pub sextet2 : ℕ → ℕ → ℕ
sextet2 y z = (bit_and y 0x0f * 4 + bit_and z 0xc0 / 64) % 256

unfoldable pub sextet3 : ℕ → ℕ
sextet3 z = bit_and z 0x3f

-- The bytes of char_array_3 that are filled, `i` of them.
pub data Pending : Type 0 where
  empty : Pending
  one : ℕ → Pending
  two : ℕ → ℕ → Pending

-- What is pushed for three bytes.
unfoldable pub quad : Alphabet → ℕ → ℕ → ℕ → Bytes
quad a x y z =
    symbol a (sextet0 x)
    ∷ symbol a (sextet1 x y)
    ∷ symbol a (sextet2 y z)
    ∷ symbol a (sextet3 z)
    ∷ []

-- What is pushed after the loop: i + 1 symbols and the padding.
unfoldable pub flush : Alphabet → Pending → Bytes
flush a empty = []
flush a (one x) = symbol a (sextet0 x) ∷ symbol a (sextet1 x 0) ∷ a.pad ∷ a.pad ∷ []
flush a (two x y) =
    symbol a (sextet0 x) ∷ symbol a (sextet1 x y) ∷ symbol a (sextet2 y 0) ∷ a.pad ∷ []

unfoldable pub encode_loop : Alphabet → Pending → Bytes → Bytes
encode_loop a p [] = flush a p
encode_loop a empty (x ∷ xs) = encode_loop a (one x) xs
encode_loop a (one x) (y ∷ xs) = encode_loop a (two x y) xs
encode_loop a (two x y) (z ∷ xs) = quad a x y z ++ encode_loop a empty xs

unfoldable pub encode : Alphabet → Bytes → Bytes
unfolding encode_loop quad flush symbol sextet0 sextet1 sextet2 sextet3
encode a xs = encode_loop a empty xs

-- The three bytes of four table values.
unfoldable pub octet0 : ℕ → ℕ → ℕ
octet0 v w = bit_or (v * 4) (w / 16) % 256

unfoldable pub octet1 : ℕ → ℕ → ℕ
octet1 v w = bit_or (v * 16) (w / 4) % 256

unfoldable pub octet2 : ℕ → ℕ → ℕ
octet2 v w = bit_or (bit_and (v * 64) 0xc0) w % 256

-- The loop over the whole groups of four; the rest of the text is not read here.
unfoldable pub decode_quads : Alphabet → Bytes → Bytes
decode_quads a (c ∷ d ∷ e ∷ f ∷ rest) =
    octet0 (value a c) (value a d)
    ∷ octet1 (value a d) (value a e)
    ∷ octet2 (value a e) (value a f)
    ∷ decode_quads a rest
decode_quads a _ = []

-- `pop_back` of an empty vector or string is undefined behaviour, here `none`.
unfoldable pub pop_back : Bytes → Option Bytes
pop_back [] = none
pop_back (x ∷ []) = some []
pop_back (x ∷ y ∷ ys) = do rest ← pop_back (y ∷ ys); some (x ∷ rest)

-- `while (length-- && source[length] == pad) result.pop_back();`
unfoldable pub strip_pads : Alphabet → ℕ → Bytes → Bytes → Option Bytes
strip_pads a zero source result = some result
strip_pads a (suc n) source result =
    let rest = pop_back result >>= strip_pads a n source in
    if get_or source n 0 == a.pad then rest else some result

unfoldable pub decode : Alphabet → Bytes → Option Bytes
unfolding decode_quads octet0 octet1 octet2 value strip_pads pop_back
decode a source =
    if length source == 0
    then some []
    else strip_pads a (length source) source (decode_quads a source)
