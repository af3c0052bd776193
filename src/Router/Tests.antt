-- ===== src/Router/Tests.antt =====
-- Routes of the API server, and the theorems at concrete inputs.
use push1st.Prelude.{◌≡◌, bytes_eq, List, refl, [], ◌∷◌, some, ℕ, codes, Bytes}
use push1st.Router.Path.{
  compare_loop, compare_path, next, component, collect, undefined, explode, split_slash,
  without_last_slash,
}
use push1st.Router.Table.{Routes}

abbrev events : List Bytes
events = codes "/" ∷ codes "apps" ∷ codes "?" ∷ codes "events" ∷ codes "*" ∷ []

explodes : explode (codes "/apps/?/events/*/") ≡ some events
unfolding explode split_slash without_last_slash
explodes = refl

-- GET /apps
short : compare_path events (codes "/" ∷ codes "apps" ∷ []) ≡ undefined
unfolding compare_path compare_loop next component collect bytes_eq
short = refl

abbrev one_route : Bytes → ℕ → Bytes → Bytes → Routes
one_route key callback a b =
    (key, record { path = codes "/" ∷ a ∷ b ∷ []; callback = callback }) ∷ []
