-- ===== src/Router/Table.antt =====
-- crouter: the routes, in the order in which they were added, and Call.
use push1st.Prelude.{
  arith, Option-cases, ◌≢◌, bytes_eq, ◌>>=◌, ◌++◌, ◌≡◌, Option, if◌then◌else◌, List, Bytes, refl,
  [], ◌∷◌, none, some, inl, inr, ℕ,
}
use push1st.Router.Path.{undefined, mismatch, matched, compare_path, explode}

-- The callback of a route is its number.
pub record Route : Type 0 where
  pub path : List Bytes
  pub callback : ℕ

-- The multimap, whose equal keys keep the order of their insertion.
abbrev pub Routes : Type 0
Routes = List (Bytes × Route)

-- `path.at(1)`
unfoldable pub second : List Bytes → Option Bytes
second [] = none
second (x ∷ []) = none
second (x ∷ y ∷ ys) = some y

-- Add; `none` where Explode is undefined or `path.at(1)` throws.
unfoldable pub add : Bytes → ℕ → Routes → Option Routes
add route callback t = do
  path ← explode route
  key ← second path
  some (t ++ (key, record { path = path; callback = callback }) ∷ [])

pub data Called : Type 0 where
  not_found crashed : Called
  called : ℕ → List Bytes → Called

-- The loop of Call over equal_range.
unfoldable pub call_loop : Bytes → List Bytes → Routes → Called
call_loop key path [] = not_found
call_loop key path ((k, route) ∷ t) =
    let rest = call_loop key path t in
    if bytes_eq k key
    then elim (compare_path route.path path) [
      | undefined ↦ crashed
      | mismatch ↦ rest
      | matched args ↦ called route.callback args
    ]
    else rest

-- Call, on the components of the request's path.
unfoldable pub call : List Bytes → Routes → Called
call [] t = not_found
call (first ∷ []) t = not_found
call (first ∷ key ∷ others) t = call_loop key (first ∷ key ∷ others) t

call_loop-append :
    (key : Bytes) (path : List Bytes) (t u : Routes)
    → ((call_loop key path t ≡ not_found) → call_loop key path (t ++ u) ≡ call_loop key path u)
      × ((call_loop key path t ≢ not_found) → call_loop key path (t ++ u) ≡ call_loop key path t)
unfolding call_loop
call_loop-append key path [] u = (λ e. refl, λ n. absurd (n refl))
call_loop-append key path ((k, route) ∷ t) u = ground (arith, call_loop-append key path t u)

call-append :
    (r : List Bytes) (t u : Routes)
    → ((call r t ≡ not_found) → call r (t ++ u) ≡ call r u)
      × ((call r t ≢ not_found) → call r (t ++ u) ≡ call r t)
unfolding call
call-append [] t u = (λ e. refl, λ n. refl)
call-append (first ∷ []) t u = (λ e. refl, λ n. refl)
call-append (first ∷ key ∷ others) t u = call_loop-append key (first ∷ key ∷ others) t u

add-append :
    (route : Bytes) (callback : ℕ) (t t' u : Routes)
    → add route callback [] ≡ some u
    → add route callback t ≡ some t'
    → t' ≡ t ++ u
unfolding add
add-append route callback t t' u e f = elim (Option-cases (explode route)) [
  | inl n ↦ ground arith
  | inr (path, g) ↦ elim (Option-cases (second path)) [
    | inl n ↦ ground arith
    | inr (key, h) ↦ ground arith
  ]
]

-- A route that is added is called for the requests that no route before it matches, the way it is
-- called alone, and changes nothing for the others.
pub call-add :
    (route : Bytes) (callback : ℕ) (t t' u : Routes)
    → add route callback [] ≡ some u
    → add route callback t ≡ some t'
    → (r : List Bytes)
    → ((call r t ≡ not_found) → call r t' ≡ call r u)
      × ((call r t ≢ not_found) → call r t' ≡ call r t)
call-add route callback t t' u e f r = rw (add-append route callback t t' u e f) (call-append r t u)
