-- ===== src/Smpp/Fields.antt =====
-- Delivery receipts of any pairs, with the text of the message at their end.
use mathlib.Core.List.{append_assoc}
use mathlib.Core.Path.{fun_ext}
use push1st.Prelude.{
  ◌+◌, ◌∙◌, split_at-Without, All, ap, split_at-append, Option-cases, arith, Option, List, ◌≡◌,
  Without, Bytes, refl, [], ◌∷◌, none, some, inl, inr, ℕ, suc, ◌++◌, length, ◌>>=◌, codes, bytes_eq,
}
use push1st.Smpp.Receipt.{
  ShortMsg, no_msg, Key, id_key, sub_key, dlvrd_key, submit_key, done_key, stat_key, err_key,
  text_key, key_name, keys, key_in, assign, value_of, unpack_loop, unpack_short_msg,
  unpack_loop-fuel,
}

key_in-key_name : (k : Key) → key_in keys (key_name k) ≡ some k
unfolding key_in key_name bytes_eq
key_in-key_name id_key = refl
key_in-key_name sub_key = refl
key_in-key_name dlvrd_key = refl
key_in-key_name submit_key = refl
key_in-key_name done_key = refl
key_in-key_name stat_key = refl
key_in-key_name err_key = refl
key_in-key_name text_key = refl

key_name-Without : (k : Key) → Without b':' (key_name k)
unfolding key_name
key_name-Without id_key = ground arith
key_name-Without sub_key = ground arith
key_name-Without dlvrd_key = ground arith
key_name-Without submit_key = ground arith
key_name-Without done_key = ground arith
key_name-Without stat_key = ground arith
key_name-Without err_key = ground arith
key_name-Without text_key = ground arith

-- One pair, and a blank after it.
unfoldable pub pair : Key → Bytes → Bytes
pair k v = key_name k ++ b':' ∷ (v ++ b' ' ∷ [])

value_of-append : (v rest : Bytes) → Without b' ' v → value_of (v ++ b' ' ∷ rest) ≡ (v, rest)
unfolding value_of
value_of-append v rest h = rw (split_at-append b' ' v rest h, value_of) refl

unpack_loop-pair :
    (f : ℕ) (k : Key) (v rest : Bytes) (m : ShortMsg)
    → Without b' ' v
    → unpack_loop (suc f) (pair k v ++ rest) m ≡ (assign k v m >>= unpack_loop f rest)
unfolding unpack_loop pair
unpack_loop-pair f k v rest m h =
    rw
      (
        append_assoc (key_name k) (b':' ∷ (v ++ b' ' ∷ [])) rest,
        append_assoc v (b' ' ∷ []) rest,
        split_at-append b':' (key_name k) (v ++ b' ' ∷ rest) (key_name-Without k),
        unpack_loop,
        key_in-key_name k,
        value_of-append v rest h,
      )
      refl

-- Pairs one after another, and what they assign.
abbrev pub pairs : List (Key × Bytes) → Bytes
pairs [] = []
pairs ((k, v) ∷ fs) = pair k v ++ pairs fs

abbrev pub assign_all : List (Key × Bytes) → ShortMsg → Option ShortMsg
assign_all [] m = some m
assign_all ((k, v) ∷ fs) m = assign k v m >>= assign_all fs

unpack_loop-pairs :
    (fs : List (Key × Bytes)) (f : ℕ) (rest : Bytes) (m : ShortMsg)
    → All (λ p. Without b' ' p.1) fs
    → unpack_loop (length fs + f) (pairs fs ++ rest) m ≡ (assign_all fs m >>= unpack_loop f rest)
unpack_loop-pairs [] f rest m h = let e : 0 + f ≡ f = omega arith in rw e refl
unpack_loop-pairs ((k, v) ∷ fs) f rest m h =
    let e : suc (length fs) + f ≡ suc (length fs + f) = omega arith in
    rw
      (
        e,
        append_assoc (pair k v) (pairs fs) rest,
        unpack_loop-pair (length fs + f) k v (pairs fs ++ rest) m h.0,
      )
      (elim (Option-cases (assign k v m)) [
        | inl n ↦ rw n refl
        | inr (m', s) ↦ rw s (unpack_loop-pairs fs f rest m' h.1)
      ])

-- The text of the short message, which stands last.
abbrev pub with_text : Bytes → Bytes
with_text t = codes "text" ++ b':' ∷ t

unpack_loop-text :
    (f : ℕ) (t : Bytes) (m : ShortMsg)
    → unpack_loop (suc f) (with_text t) m
      ≡ unpack_loop f (value_of t).1 (record m { text = (value_of t).0 })
unfolding unpack_loop assign
unpack_loop-text f t m =
    let plain : Without b':' (codes "text") = unfold key_name in key_name-Without text_key in
    let known : key_in keys (codes "text") ≡ some text_key =
      unfold key_name in key_in-key_name text_key in
    rw (split_at-append b':' (codes "text") t plain, unpack_loop, known) refl

last_none : (f : ℕ) (d : Bytes) (m : ShortMsg) → Without b':' d → unpack_loop (suc f) d m ≡ some m
unfolding unpack_loop
last_none f d m w = rw (split_at-Without b':' d w, unpack_loop) refl

last_unknown :
    (f : ℕ) (name rest d : Bytes) (m : ShortMsg)
    → d ≡ name ++ b':' ∷ rest
    → Without b':' name
    → key_in keys name ≡ none
    → unpack_loop (suc f) d m ≡ none
unfolding unpack_loop
last_unknown f name rest d m e w u = rw (e, split_at-append b':' name rest w, unpack_loop, u) refl

abbrev nothing : ShortMsg → Option ShortMsg
nothing m = none

bind_none : (o : Option ShortMsg) → (o >>= nothing) ≡ none
bind_none none = refl
bind_none (some m) = refl

-- The pairs, the text, and what is left of it.
receipt_steps :
    (fs : List (Key × Bytes)) (t : Bytes)
    → All (λ p. Without b' ' p.1) fs
    → unpack_short_msg (pairs fs ++ with_text t) ≡ (
        assign_all fs no_msg >>= (λ m.
          unpack_loop
            (suc (length (pairs fs ++ with_text t)))
            (value_of t).1
            (record m { text = (value_of t).0 })))
unfolding unpack_short_msg
receipt_steps fs t h =
    let d = pairs fs ++ with_text t in
    unpack_loop-fuel (suc (length d)) (length fs + suc (suc (length d))) d no_msg (omega arith)
      (omega arith)
    ∙ unpack_loop-pairs fs (suc (suc (length d))) (with_text t) no_msg h
    ∙ ap (λ (next : ShortMsg → Option ShortMsg). assign_all fs no_msg >>= next)
        (fun_ext (λ m. unpack_loop-text (suc (length d)) t m))

-- A receipt of pairs that ends in the text of the message: the pairs assign their values, and of the
-- text its first word is kept, if no colon follows that word.
pub unpack_short_msg-pairs :
    (fs : List (Key × Bytes)) (t : Bytes)
    → All (λ p. Without b' ' p.1) fs
    → Without b':' (value_of t).1
    → unpack_short_msg (pairs fs ++ with_text t)
      ≡ (assign_all fs no_msg >>= (λ m. some (record m { text = (value_of t).0 })))
unpack_short_msg-pairs fs t h w =
    receipt_steps fs t h
    ∙ ap (λ (next : ShortMsg → Option ShortMsg). assign_all fs no_msg >>= next)
        (fun_ext (λ m. last_none _ (value_of t).1 (record m { text = (value_of t).0 }) w))

-- A receipt of pairs without blanks in their values that ends in the text of the message cannot be
-- read, whatever the pairs are: an exception is thrown where a colon stands in what follows the first
-- word of the text and what is before the colon is no key.
pub unpack_short_msg_throws :
    (fs : List (Key × Bytes)) (t name rest : Bytes)
    → All (λ p. Without b' ' p.1) fs
    → (value_of t).1 ≡ name ++ b':' ∷ rest
    → Without b':' name
    → key_in keys name ≡ none
    → unpack_short_msg (pairs fs ++ with_text t) ≡ none
unpack_short_msg_throws fs t name rest h e w u =
    receipt_steps fs t h
    ∙ ap (λ (next : ShortMsg → Option ShortMsg). assign_all fs no_msg >>= next)
        (fun_ext
          (λ m. last_unknown _ name rest (value_of t).1 (record m { text = (value_of t).0 }) e w u))
    ∙ bind_none (assign_all fs no_msg)
