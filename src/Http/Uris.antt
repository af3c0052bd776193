-- ===== src/Http/Uris.antt =====
-- A uri that is put together from components and parameters is split into them.
use mathlib.Core.List.{append_assoc, append-nil}
use mathlib.Core.List.Perm
use mathlib.Core.List.{Perm}
use mathlib.Core.Path.{subst}
use push1st.Prelude.{
  sym, split_at-append, split_at-Without, Without, All, All-append, ap, arith, ◌∙◌, ◌==◌, ◌≡◌, ◌≢◌,
  ◌≤◌, ◌<◌, ◌||◌, codes, bytes_eq, Bytes, List, refl, [], ◌∷◌, none, some, true, false, ℕ, zero,
  suc, ◌++◌, length, length-append,
}
use push1st.Http.Scan.{split_by}
use push1st.Http.Uri.{with_part, path_loop, argument, args_loop, split_uri}

-- A component of a path, and a parameter with its value.
abbrev pub IsPart : Bytes → Type 0
IsPart c = (c ≢ []) × (Without b'/' c × (Without b'?' c × Without b' ' c))

abbrev pub IsArgument : Bytes × Bytes → Type 0
IsArgument (k, v) = Without b'&' k × (Without b'=' k × Without b'&' v)

abbrev pub path_text : List Bytes → Bytes
path_text [] = []
path_text (c ∷ cs) = b'/' ∷ (c ++ path_text cs)

abbrev pub argument_text : Bytes × Bytes → Bytes
argument_text (k, v) = k ++ b'=' ∷ v

abbrev pub params_text : Bytes × Bytes → List (Bytes × Bytes) → Bytes
params_text p [] = argument_text p
params_text p (q ∷ qs) = argument_text p ++ b'&' ∷ params_text q qs

abbrev pub query_text : List (Bytes × Bytes) → Bytes
query_text [] = []
query_text (p ∷ ps) = b'?' ∷ params_text p ps

split_by-append :
    (p q s : ℕ) (a b : Bytes)
    → Without p a
    → Without q a
    → (s == p || s == q) ≡ true
    → split_by p q (a ++ s ∷ b) ≡ some (a, s, b)
unfolding split_by
split_by-append p q s [] b h i e = rw (e, split_by) refl
split_by-append p q s (c ∷ a) b h i e =
    let other : (c == p || c == q) ≡ false = ground (arith, h.0, i.0) in
    rw (other, split_by, split_by-append p q s a b h.1 i.1 e) refl

split_by-Without : (p q : ℕ) (a : Bytes) → Without p a → Without q a → split_by p q a ≡ none
unfolding split_by
split_by-Without p q [] h i = refl
split_by-Without p q (c ∷ a) h i =
    let other : (c == p || c == q) ≡ false = ground (arith, h.0, i.0) in
    rw (other, split_by, split_by-Without p q a h.1 i.1) refl

argument-argument_text : (p : Bytes × Bytes) → IsArgument p → argument (argument_text p) ≡ p
unfolding argument
argument-argument_text (k, v) h = rw (split_at-append b'=' k v h.1.0, argument) refl

argument_text-Without : (p : Bytes × Bytes) → IsArgument p → Without b'&' (argument_text p)
argument_text-Without (k, v) h = All-append (λ c. c ≢ b'&') k (b'=' ∷ v) h.0 (ground arith, h.1.1)

-- A round of the loop over a text that is not empty.
args_loop_last :
    (f : ℕ) (t : Bytes) → 0 < length t → Without b'&' t → args_loop (suc f) t ≡ argument t ∷ []
unfolding args_loop
args_loop_last f [] h w = absurd (omega arith)
args_loop_last f (c ∷ cs) h w = rw (split_at-Without b'&' (c ∷ cs) w, args_loop) refl

args_loop_next :
    (f : ℕ) (t rest : Bytes)
    → Without b'&' t
    → args_loop (suc f) (t ++ b'&' ∷ rest) ≡ argument t ∷ args_loop f rest
unfolding args_loop
args_loop_next f [] rest w = rw (split_at-append b'&' [] rest w, args_loop) refl
args_loop_next f (c ∷ cs) rest w = rw (split_at-append b'&' (c ∷ cs) rest w, args_loop) refl

length-argument_text : (p : Bytes × Bytes) → 0 < length (argument_text p)
length-argument_text (k, v) = omega (arith, length-append k (b'=' ∷ v))

args_loop-params_text :
    (f : ℕ) (p : Bytes × Bytes) (ps : List (Bytes × Bytes))
    → IsArgument p
    → All IsArgument ps
    → length (params_text p ps) ≤ f
    → args_loop f (params_text p ps) ≡ p ∷ ps
args_loop-params_text zero p [] h hs l = absurd (omega (arith, length-argument_text p))
args_loop-params_text zero p (q ∷ qs) h hs l =
    absurd (omega (arith, length-append (argument_text p) (b'&' ∷ params_text q qs)))
args_loop-params_text (suc f) p [] h hs l =
    args_loop_last f (argument_text p) (length-argument_text p) (argument_text-Without p h)
    ∙ ap (λ a. a ∷ []) (argument-argument_text p h)
args_loop-params_text (suc f) p (q ∷ qs) h hs l =
    args_loop_next f (argument_text p) (params_text q qs) (argument_text-Without p h)
    ∙ rw
        (
          argument-argument_text p h,
          args_loop-params_text f q qs hs.0 hs.1
              (omega (arith, length-append (argument_text p) (b'&' ∷ params_text q qs))),
        )
        refl

with_part-IsPart : (c : Bytes) (cs : List Bytes) → IsPart c → with_part c cs ≡ c ∷ cs
unfolding with_part
with_part-IsPart [] cs h = absurd (h.0 refl)
with_part-IsPart (x ∷ xs) cs h = refl

-- The rounds of the loop over a path.
path_loop_end : (f : ℕ) (c : Bytes) → IsPart c → path_loop (suc f) c ≡ (c ∷ [], [])
unfolding path_loop
path_loop_end f [] h = absurd (h.0 refl)
path_loop_end f (x ∷ xs) h = rw (split_by-Without b'/' b'?' (x ∷ xs) h.1.0 h.1.1.0, path_loop) refl

path_loop_query :
    (f : ℕ) (c ps : Bytes) → IsPart c → path_loop (suc f) (c ++ b'?' ∷ ps) ≡ (c ∷ [], ps)
unfolding path_loop
path_loop_query f [] ps h = absurd (h.0 refl)
path_loop_query f (x ∷ xs) ps h =
    rw
      (
        split_by-append b'/' b'?' b'?' (x ∷ xs) ps h.1.0 h.1.1.0 refl,
        path_loop,
        with_part-IsPart (x ∷ xs) [] h,
      )
      refl

path_loop_slash :
    (f : ℕ) (c u : Bytes)
    → Without b'/' c
    → Without b'?' c
    → path_loop (suc f) (c ++ b'/' ∷ u) ≡ (with_part c (path_loop f u).0, (path_loop f u).1)
unfolding path_loop
path_loop_slash f [] u h i = rw (split_by-append b'/' b'?' b'/' [] u h i refl, path_loop) refl
path_loop_slash f (x ∷ xs) u h i =
    rw (split_by-append b'/' b'?' b'/' (x ∷ xs) u h i refl, path_loop) refl

-- The list of parameters behind a path.
abbrev pub query_params : List (Bytes × Bytes) → Bytes
query_params [] = []
query_params (p ∷ ps) = params_text p ps

path_loop-path_text :
    (f : ℕ) (c : Bytes) (cs : List Bytes) (ps : List (Bytes × Bytes))
    → IsPart c
    → All IsPart cs
    → length (c ++ (path_text cs ++ query_text ps)) ≤ f
    → path_loop f (c ++ (path_text cs ++ query_text ps)) ≡ (c ∷ cs, query_params ps)
path_loop-path_text zero [] cs ps h hs l = absurd (h.0 refl)
path_loop-path_text zero (x ∷ xs) cs ps h hs l = absurd (omega arith)
path_loop-path_text (suc f) c [] [] h hs l = rw (append-nil c) (path_loop_end f c h)
path_loop-path_text (suc f) c [] (p ∷ ps) h hs l = path_loop_query f c (params_text p ps) h
path_loop-path_text (suc f) c (d ∷ ds) ps h hs l =
    let u = d ++ (path_text ds ++ query_text ps) in
    let same = append_assoc d (path_text ds) (query_text ps) in
    let shorter : length u ≤ f =
      omega (
        arith,
        l,
        ap length same,
        length-append c (b'/' ∷ ((d ++ path_text ds) ++ query_text ps)),
      ) in
    let next = path_loop-path_text f d ds ps hs.0 hs.1 shorter in
    rw (same, path_loop_slash f c u h.1.0 h.1.1.0, next) (rw (with_part-IsPart c (d ∷ ds) h) refl)

path_text-Without :
    (c : Bytes) (cs : List Bytes)
    → IsPart c
    → All IsPart cs
    → Without b'?' (path_text (c ∷ cs)) × Without b' ' (path_text (c ∷ cs))
path_text-Without c [] h hs = rw (append-nil c) ((ground arith, h.1.1.0), (ground arith, h.1.1.1))
path_text-Without c (d ∷ ds) h hs =
    let (q, b) = path_text-Without d ds hs.0 hs.1 in
    (
      (ground arith, All-append (λ x. x ≢ b'?') c (path_text (d ∷ ds)) h.1.1.0 q),
      (ground arith, All-append (λ x. x ≢ b' ') c (path_text (d ∷ ds)) h.1.1.1 b),
    )

uri_path_lem :
    (t : Bytes) (ps : List (Bytes × Bytes))
    → Without b'?' t
    → Without b' ' t
    → (elim (split_by b'?' b' ' (t ++ query_text ps)) [
      | none ↦ t ++ query_text ps
      | some (path, symbol, rest) ↦ path
    ])
      ≡ t
uri_path_lem t [] q b = rw (append-nil t, split_by-Without b'?' b' ' t q b) (append-nil t)
uri_path_lem t (p ∷ ps) q b = rw (split_by-append b'?' b' ' b'?' t (params_text p ps) q b refl) refl

args_lem :
    (ps : List (Bytes × Bytes))
    → All IsArgument ps
    → args_loop (length (query_params ps)) (query_params ps) ≡ ps
args_lem [] h = unfold args_loop in refl
args_lem (p ∷ ps) h = args_loop-params_text (length (params_text p ps)) p ps h.0 h.1 (omega arith)

-- The parts in the order in which they are read.
pub split_uri-path_text :
    (c : Bytes) (cs : List Bytes) (ps : List (Bytes × Bytes))
    → IsPart c
    → All IsPart cs
    → All IsArgument ps
    → split_uri (path_text (c ∷ cs) ++ query_text ps) ≡ record {
      uri_full = path_text (c ∷ cs) ++ query_text ps;
      uri_path = path_text (c ∷ cs);
      uri_path_list = codes "/" ∷ c ∷ cs;
      uri_args = ps;
    }
unfolding split_uri
split_uri-path_text c cs ps h hs ha =
    let (q, b) = path_text-Without c cs h hs in
    let u = path_text (c ∷ cs) ++ query_text ps in
    let t = c ++ (path_text cs ++ query_text ps) in
    let parts : path_loop (length u) u ≡ (c ∷ cs, query_params ps) =
      rw (append_assoc c (path_text cs) (query_text ps)) (
        unfold with_part in
        (rw (path_loop-path_text (length t) c cs ps h hs (omega arith)) at
          (path_loop_slash (length t) [] t tt tt))) in
    rw (parts, split_uri, uri_path_lem (path_text (c ∷ cs)) ps q b, args_lem ps ha)
      (unfold bytes_eq in refl)

-- A uri that is made of components and of parameters is split into them: its path is the text up to
-- the question mark, its list has the slash and then the components, and the multimap of its
-- parameters holds each of them as often as it is written, and nothing else. The components are not
-- empty and hold no slash, question mark or blank; the names of the parameters hold no ampersand and
-- no equals sign, and the values no ampersand.
pub split_uri-Perm :
    (c : Bytes) (cs : List Bytes) (ps : List (Bytes × Bytes))
    → IsPart c
    → All IsPart cs
    → All IsArgument ps
    → let u = split_uri (path_text (c ∷ cs) ++ query_text ps) in
      (u.uri_full ≡ path_text (c ∷ cs) ++ query_text ps)
      × (u.uri_path ≡ path_text (c ∷ cs))
      × (u.uri_path_list ≡ codes "/" ∷ c ∷ cs)
      × Perm u.uri_args ps
split_uri-Perm c cs ps h hs ha =
    let e = split_uri-path_text c cs ps h hs ha in
    (
      ap (λ u. u.uri_full) e,
      ap (λ u. u.uri_path) e,
      ap (λ u. u.uri_path_list) e,
      subst (λ u. Perm u.uri_args ps) (sym e) (Perm.refl ps),
    )
