-- ===== src/Smpp/Receipt.antt =====
-- cshortmsg::Unpack: the text of a delivery receipt, `key:value` pairs between blanks.
use mathlib.Core.Path.{fun_ext}
use push1st.Prelude.{
  ap, ◌≤◌, Option-cases, leb, ◌^◌, ltb, ◌<◌, arith, if◌then◌else◌, Option, List, ◌≡◌, Bytes, refl,
  [], ◌∷◌, none, some, inl, inr, ℕ, zero, suc, length, split_at, ◌>>=◌, codes, bytes_eq,
}
use push1st.Credentials.Decimal.{Long, positive, negative, stol}

-- std::stoi, which reads a long and throws where it does not fit into an int.
unfoldable pub int_of : Long → Option Long
int_of (positive n) = if ltb n (2 ^ 31) then some (positive n) else none
int_of (negative n) = if leb n (2 ^ 31) then some (negative n) else none

unfoldable pub stoi : Bytes → Option Long
stoi s = stol s >>= int_of

-- The integers are not set before a key sets them.
pub record ShortMsg : Type 0 where
  pub id : Bytes
  pub sub : Option Long
  pub dlvrd : Option Long
  pub submit_date : Bytes
  pub done_date : Bytes
  pub stat : Bytes
  pub err : Option Long
  pub text : Bytes

abbrev pub no_msg : ShortMsg
no_msg = record {
  id = [];
  sub = none;
  dlvrd = none;
  submit_date = [];
  done_date = [];
  stat = [];
  err = none;
  text = [];
}

pub data Key : Type 0 where
  id_key sub_key dlvrd_key submit_key done_key stat_key err_key text_key : Key

unfoldable pub key_name : Key → Bytes
key_name id_key = codes "id"
key_name sub_key = codes "sub"
key_name dlvrd_key = codes "dlvrd"
key_name submit_key = codes "submit date"
key_name done_key = codes "done date"
key_name stat_key = codes "stat"
key_name err_key = codes "err"
key_name text_key = codes "text"

abbrev pub keys : List Key
keys = id_key ∷ sub_key ∷ dlvrd_key ∷ submit_key ∷ done_key ∷ stat_key ∷ err_key ∷ text_key ∷ []

-- The chain of comparisons.
unfoldable pub key_in : List Key → Bytes → Option Key
key_in [] name = none
key_in (k ∷ ks) name = if bytes_eq (key_name k) name then some k else key_in ks name

-- The assignments; `none` is the exception of std::stoi.
unfoldable pub assign : Key → Bytes → ShortMsg → Option ShortMsg
assign id_key v m = some (record m { id = v })
assign sub_key v m = stoi v >>= (λ n. some (record m { sub = some n }))
assign dlvrd_key v m = stoi v >>= (λ n. some (record m { dlvrd = some n }))
assign submit_key v m = some (record m { submit_date = v })
assign done_key v m = some (record m { done_date = v })
assign stat_key v m = some (record m { stat = v })
assign err_key v m = stoi v >>= (λ n. some (record m { err = some n }))
assign text_key v m = some (record m { text = v })

-- The value ends at the first blank. Where there is none it is empty, and nothing is removed.
unfoldable pub value_of : Bytes → Bytes × Bytes
value_of d = elim (split_at b' ' d) [ none ↦ ([], d) | some (v, rest) ↦ (v, rest) ]

-- The loop, on fuel; `none` is an exception, also that of an unknown key.
unfoldable pub unpack_loop : ℕ → Bytes → ShortMsg → Option ShortMsg
unpack_loop zero d m = some m
unpack_loop (suc f) d m = elim (split_at b':' d) [
  | none ↦ some m
  | some (name, rest) ↦
      key_in keys name
      >>= (λ k. assign k (value_of rest).0 m >>= (λ m'. unpack_loop f (value_of rest).1 m'))
]

unfoldable pub unpack_short_msg : Bytes → Option ShortMsg
unpack_short_msg d = unpack_loop (suc (length d)) d no_msg

split_at-shorter : (sep : ℕ) (d a b : Bytes) → split_at sep d ≡ some (a, b) → length b < length d
unfolding split_at
split_at-shorter sep [] a b e = absurd (cc)
split_at-shorter sep (c ∷ d) a b e = elim (Option-cases (split_at sep d)) [
  | inl n ↦ ground (arith, n)
  | inr ((a', b'), f) ↦ ground (arith, f, split_at-shorter sep d a' b' f)
]

value_of_shorter : (d : Bytes) → length (value_of d).1 ≤ length d
unfolding value_of
value_of_shorter d = elim (Option-cases (split_at b' ' d)) [
  | inl n ↦ rw (n, value_of) (omega arith)
  | inr ((v, rest), f) ↦ rw (f, value_of) (omega (arith, split_at-shorter b' ' d v rest f))
]

-- The fuel always suffices: more of it changes nothing.
pub unpack_loop-fuel :
    (f g : ℕ) (d : Bytes) (m : ShortMsg)
    → length d < f
    → length d < g
    → unpack_loop f d m ≡ unpack_loop g d m
unfolding unpack_loop
unpack_loop-fuel zero g d m h i = absurd (omega arith)
unpack_loop-fuel (suc f) zero d m h i = absurd (omega arith)
unpack_loop-fuel (suc f) (suc g) d m h i = elim (Option-cases (split_at b':' d)) [
  | inl n ↦ rw (n, unpack_loop) refl
  | inr ((name, rest), s) ↦
      let less = split_at-shorter b':' d name rest s in
      let left = value_of_shorter rest in
      rw (s, unpack_loop)
        (ap
          (λ (next : ShortMsg → Option ShortMsg).
            key_in keys name >>= (λ k. assign k (value_of rest).0 m >>= next))
          (fun_ext (λ m'.
            unpack_loop-fuel f g (value_of rest).1 m' (omega (arith, less, left))
              (omega (arith, less, left)))))
]
