-- ===== src/Router/Path.antt =====
-- key_t: the components of a route, and the comparison with those of a request.
use mathlib.Core.List.{append-nil}
use push1st.Prelude.{
  replicate, ◌↔◌, sym, ap, bytes_eq_refl, bytes_eq_iff, Bool-cases, arith, ◌||◌, ◌>>=◌, codes, ◌≢◌,
  ◌≤◌, bytes_eq, ◌++◌, ◌==◌, Bool, ◌≡◌, if◌then◌else◌, drop, length, List, Option, Bytes, refl, [],
  ◌∷◌, none, some, inl, inr, true, false, ℕ, zero, suc,
}

-- What Compare does: it reads past the end of the request, returns false, or returns true with the
-- arguments it collected.
pub data Outcome : Type 0 where
  undefined mismatch : Outcome
  matched : List Bytes → Outcome

-- The components of the request from an index on; `none` where the index is past the end.
unfoldable pub next : Option (List Bytes) → Option (List Bytes)
next none = none
next (some []) = none
next (some (x ∷ xs)) = some xs

-- `n < r.size() ? r[n] : std::string_view {}`
unfoldable pub component : Option (List Bytes) → Bytes
component none = []
component (some []) = []
component (some (x ∷ xs)) = x

unfoldable pub collect : Bytes → Outcome → Outcome
collect x undefined = undefined
collect x mismatch = mismatch
collect x (matched args) = matched (x ∷ args)

-- The loop of Compare over the components of the route.
unfoldable pub compare_loop : List Bytes → Option (List Bytes) → Outcome
compare_loop [] r = matched []
compare_loop (p ∷ ps) r =
    let rest = compare_loop ps (next r) in
    if bytes_eq p (codes "?")
    then collect (component r) rest
    else if bytes_eq p (codes "*")
    then elim r [ none ↦ undefined | some xs ↦ matched xs ]
    else elim r [
      | none ↦ undefined
      | some xs ↦ elim xs [ [] ↦ undefined | x ∷ _ ↦ if bytes_eq p x then rest else mismatch ]
    ]

-- Compare starts at index 1.
unfoldable pub compare_path : List Bytes → List Bytes → Outcome
compare_path path r = compare_loop (drop 1 path) (next (some r))

-- The loop of Explode, with the characters since the last slash.
unfoldable pub split_slash : Bytes → Bytes → List Bytes
split_slash acc [] = acc ∷ []
split_slash acc (c ∷ cs) =
    if c == b'/' then acc ∷ split_slash [] cs else split_slash (acc ++ c ∷ []) cs

unfoldable pub without_last_slash : Bytes → Bytes
without_last_slash [] = []
without_last_slash (c ∷ []) = if c == b'/' then [] else c ∷ []
without_last_slash (c ∷ d ∷ cs) = c ∷ without_last_slash (d ∷ cs)

-- Explode; `none` is `route.back()` of an empty text, which is undefined.
unfoldable pub explode : Bytes → Option (List Bytes)
explode [] = some []
explode (c ∷ []) = if c == b'/' then none else some ((c ∷ []) ∷ [])
explode (c ∷ d ∷ cs) =
    if c == b'/'
    then some (codes "/" ∷ split_slash [] (without_last_slash (d ∷ cs)))
    else some (split_slash [] (without_last_slash (c ∷ d ∷ cs)))

-- The components that a route stands for with its question marks replaced by arguments, one for
-- each, and its star by all that are left; `none` where their number is not the right one.
unfoldable pub fill : List Bytes → List Bytes → Option (List Bytes)
fill [] [] = some []
fill [] (a ∷ args) = none
fill (p ∷ ps) args =
    if bytes_eq p (codes "?")
    then elim args [ [] ↦ none | a ∷ rest ↦ fill ps rest >>= (λ q. some (a ∷ q)) ]
    else if bytes_eq p (codes "*")
    then some args
    else fill ps args >>= (λ q. some (p ∷ q))

unfoldable pub has_star : List Bytes → Bool
has_star [] = false
has_star (p ∷ ps) =
    if bytes_eq p (codes "?") then has_star ps else bytes_eq p (codes "*") || has_star ps

-- A request is read by a route with arguments if it is what the route stands for, followed by
-- further components unless the route has a star.
abbrev pub Reads : List Bytes → List Bytes → List Bytes → Type 0
Reads ps args r =
    (q : List Bytes) × (extra : List Bytes) × (fill ps args ≡ some q)
    × (r ≡ q ++ extra)
    × (has_star ps ≡ true → extra ≡ [])

compare_loop-fill :
    (ps args q extra : List Bytes)
    → fill ps args ≡ some q
    → (has_star ps ≡ true → extra ≡ [])
    → compare_loop ps (some (q ++ extra)) ≡ matched args
unfolding compare_loop fill has_star next component collect
compare_loop-fill [] [] q extra e s = refl
compare_loop-fill [] (a ∷ args) q extra e s = cc
compare_loop-fill (p ∷ ps) [] [] extra e s = ground (arith, bytes_eq_iff p (codes "?"))
compare_loop-fill (p ∷ ps) [] (x ∷ q) extra e s =
    ground (arith, bytes_eq_refl p, compare_loop-fill ps [] q extra)
compare_loop-fill (p ∷ ps) (a ∷ args) [] extra e s = ground arith
compare_loop-fill (p ∷ ps) (a ∷ args) (x ∷ q) extra e s = ground (
  arith,
  bytes_eq_refl p,
  append-nil q,
  compare_loop-fill ps args q extra,
  compare_loop-fill ps (a ∷ args) q extra,
)

collect-matched :
    (x : Bytes) (o : Outcome) (args : List Bytes)
    → collect x o ≡ matched args
    → (rest : List Bytes) × (o ≡ matched rest) × (args ≡ x ∷ rest)
unfolding collect
collect-matched x undefined args e = absurd (cc)
collect-matched x mismatch args e = absurd (cc)
collect-matched x (matched rest) args e = (rest, refl, cc)

compare_loop-Reads :
    (ps r args : List Bytes)
    → length ps ≤ length r
    → compare_loop ps (some r) ≡ matched args
    → Reads ps args r
unfolding compare_loop fill has_star next component collect
compare_loop-Reads [] r [] l e = ([], r, refl, refl, λ h. absurd (cc))
compare_loop-Reads [] r (a ∷ args) l e = absurd (cc)
compare_loop-Reads (p ∷ ps) [] args l e = absurd (ground arith)
compare_loop-Reads (p ∷ ps) (x ∷ r) args l e = elim (Bool-cases (bytes_eq p (codes "?"))) [
  | inl mark ↦
      let e' : collect x (compare_loop ps (some r)) ≡ matched args = ground (arith, e, mark) in
      let (rest, f, g) = collect-matched x (compare_loop ps (some r)) args e' in
      let (q, extra, h, k, m) = compare_loop-Reads ps r rest (omega arith) f in
      (x ∷ q, extra, ground (arith, g, h, mark), ap (◌∷◌ x) k, λ t. m (ground (arith, t, mark)))
  | inr plain ↦ elim (Bool-cases (bytes_eq p (codes "*"))) [
    | inl star ↦ (x ∷ r, [], ground arith, sym (append-nil (x ∷ r)), λ t. refl)
    | inr literal ↦
        let e' : (bytes_eq p x ≡ true) × (compare_loop ps (some r) ≡ matched args) = ground arith in
        let (q, extra, h, k, m) = compare_loop-Reads ps r args (omega arith) e'.1 in
        (
          p ∷ q,
          extra,
          ground (arith, h, plain, literal),
          ground (arith, bytes_eq_iff p x),
          λ t. m (ground arith),
        )
  ]
]

compare_loop-defined :
    (ps r : List Bytes) → length ps ≤ length r → compare_loop ps (some r) ≢ undefined
unfolding compare_loop next component collect
compare_loop-defined [] r l e = cc
compare_loop-defined (p ∷ ps) [] l e = ground arith
compare_loop-defined (p ∷ ps) (x ∷ r) l e = ground (arith, compare_loop-defined ps r)

-- A request with at least as many components as the route is compared without a read past its end,
-- and the route matches with arguments exactly if the request is the route with the arguments in
-- place of its question marks and its star, followed by anything at all where it has no star.
pub compare_loop_lem :
    (ps r args : List Bytes)
    → length ps ≤ length r
    → (compare_loop ps (some r) ≢ undefined)
      × ((compare_loop ps (some r) ≡ matched args) ↔ Reads ps args r)
compare_loop_lem ps r args l = (
  compare_loop-defined ps r l,
  (
    compare_loop-Reads ps r args l,
    λ (q, extra, h, k, m). rw k (compare_loop-fill ps args q extra h m),
  ),
)

module _ (p : Bytes) (ps : List Bytes) (plain : bytes_eq p (codes "?") ≡ false)
    (literal : bytes_eq p (codes "*") ≡ false) where
  past_end : (k : ℕ) → compare_loop (replicate k (codes "?") ++ p ∷ ps) none ≡ undefined
  unfolding compare_loop bytes_eq next collect
  past_end zero = rw (plain) (rw literal refl)
  past_end (suc k) = rw (past_end k) refl

  -- A request that ends before the first literal component of a route, with question marks only
  -- between, makes Compare read past its end.
  pub compare_loop_short :
      (k : ℕ) (r : List Bytes)
      → length r ≤ k
      → compare_loop (replicate k (codes "?") ++ p ∷ ps) (some r) ≡ undefined
  unfolding compare_loop bytes_eq next collect
  compare_loop_short zero [] l = rw (plain) (rw literal refl)
  compare_loop_short zero (x ∷ r) l = absurd (omega arith)
  compare_loop_short (suc k) [] l = rw (past_end k) refl
  compare_loop_short (suc k) (x ∷ r) l = rw (compare_loop_short k r (omega arith)) refl
