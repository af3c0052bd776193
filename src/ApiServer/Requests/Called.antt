-- ===== src/ApiServer/Requests/Called.antt =====
-- Which handler a request's uri calls, with which arguments.
use mathlib.Core.Path.{subst}
use push1st.Prelude.{
  ap, arith, ◌∙◌, ◌≡◌, ◌≢◌, Bool-cases, codes, bytes_eq, bytes_eq_iff, bytes_eq_refl, Bytes, List,
  refl, [], ◌∷◌, some, inl, inr, true, false, ◌++◌, All, Without,
}
use push1st.Router.Path.{mismatch, matched, compare_loop, compare_path, next, component, collect}
use push1st.Router.Table.{Routes, Route, called, call, call_loop}
use push1st.Http.Uri.{split_uri}
use push1st.Http.Uris.{IsPart, IsArgument, path_text, query_text, split_uri-path_text}
use push1st.ApiServer.Requests.{api_table, smpp_table, api_routes, api_routes_lem}

bytes_eq_differ : (a b : Bytes) → a ≢ b → bytes_eq a b ≡ false
bytes_eq_differ a b h = elim (Bool-cases (bytes_eq a b)) [
  | inl t ↦ absurd (h ((bytes_eq_iff a b).0 t))
  | inr t ↦ t
]

-- A route that starts with a fixed component goes on behind it.
compare_path-named :
    (path p x : Bytes) (ps xs : List Bytes)
    → IsPart path
    → path ≢ codes "*"
    → compare_path (codes "/" ∷ path ∷ p ∷ ps) (codes "/" ∷ path ∷ x ∷ xs)
      ≡ compare_loop (p ∷ ps) (some (x ∷ xs))
unfolding compare_path compare_loop next
compare_path-named path p x ps xs h star =
    let own : bytes_eq path path ≡ true = bytes_eq_refl path in
    let literal : bytes_eq path (codes "?") ≡ false =
      bytes_eq_differ path (codes "?") (λ e. (subst (Without b'?') e h.1.1.0).0 refl) in
    let plain : bytes_eq path (codes "*") ≡ false = bytes_eq_differ path (codes "*") star in
    rw (literal, plain, own) refl

call_loop-matched :
    (k : Bytes) (r args : List Bytes) (route : Route) (t : Routes)
    → compare_path route.path r ≡ matched args
    → call_loop k r ((k, route) ∷ t) ≡ called route.callback args
unfolding call_loop
call_loop-matched k r args route t e = rw (bytes_eq_refl k) (rw e refl)

call_loop-mismatch :
    (k : Bytes) (r : List Bytes) (route : Route) (t : Routes)
    → compare_path route.path r ≡ mismatch
    → call_loop k r ((k, route) ∷ t) ≡ call_loop k r t
unfolding call_loop
call_loop-mismatch k r route t e = rw (bytes_eq_refl k) (rw e refl)

call_loop-differ :
    (k key : Bytes) (r : List Bytes) (route : Route) (t : Routes)
    → bytes_eq k key ≡ false
    → call_loop key r ((k, route) ∷ t) ≡ call_loop key r t
unfolding call_loop
call_loop-differ k key r route t e = rw e refl

-- The paths of the configuration, two different components that are not a star, the service for SMPP
-- enabled: with any application id that is a component, and any parameters behind the path, a uri
-- of events calls ApiOnEvents with the id, also where components follow, one of tokens calls
-- ApiOnToken with the id and the kind, one of channels calls ApiOnChannels with the id and the
-- name, which is empty where the uri has none, and one below the path of the service calls
-- ApiOnModuleSmpp with the components that follow, at least one.
pub call-api_routes :
    (path p id name : Bytes) (more : List Bytes) (ps : List (Bytes × Bytes))
    → IsPart path
    → path ≢ codes "*"
    → IsPart p
    → p ≢ codes "*"
    → path ≢ p
    → IsPart id
    → IsPart name
    → All IsPart more
    → All IsArgument ps
    → (routes : Routes) × (api_routes path true p ≡ some routes)
      × (call
            (split_uri
              (path_text (path ∷ id ∷ codes "events" ∷ more) ++ query_text ps)).uri_path_list
            routes
          ≡ called 0 (id ∷ more))
      × (call
            (split_uri
              (path_text (path ∷ id ∷ codes "token" ∷ name ∷ []) ++ query_text ps)).uri_path_list
            routes
          ≡ called 1 (id ∷ name ∷ []))
      × (call
            (split_uri
              (path_text (path ∷ id ∷ codes "channels" ∷ name ∷ []) ++ query_text ps)).uri_path_list
            routes
          ≡ called 2 (id ∷ name ∷ []))
      × (call
            (split_uri
              (path_text (path ∷ id ∷ codes "channels" ∷ []) ++ query_text ps)).uri_path_list
            routes
          ≡ called 2 (id ∷ [] ∷ []))
      × (call (split_uri (path_text (p ∷ name ∷ more) ++ query_text ps)).uri_path_list routes
          ≡ called 3 (name ∷ more))
unfolding call compare_loop next component collect bytes_eq
call-api_routes path p id name more ps hp star hq star' other hi hn hm ha =
    let named = λ (q x : Bytes) (qs xs : List Bytes). compare_path-named path q x qs xs hp star in
    let table = api_table path (smpp_table p) in
    let reads = λ (parts : List Bytes) (h : All IsPart parts).
      ap (λ u. call u.uri_path_list table) (split_uri-path_text path parts ps hp h ha) in
    let differ = bytes_eq_differ path p other in
    (
      table,
      (api_routes_lem path p hp hq).1,
      reads (id ∷ codes "events" ∷ more) (hi, (ground arith, hm))
          ∙ call_loop-matched path _ (id ∷ more) _ _ (named _ id _ _),
      reads (id ∷ codes "token" ∷ name ∷ []) (hi, (ground arith, (hn, tt)))
          ∙ call_loop-mismatch path _ _ _ (named _ id _ _)
          ∙ call_loop-matched path _ (id ∷ name ∷ []) _ _ (named _ id _ _),
      reads (id ∷ codes "channels" ∷ name ∷ []) (hi, (ground arith, (hn, tt)))
          ∙ call_loop-mismatch path _ _ _ (named _ id _ _)
          ∙ call_loop-mismatch path _ _ _ (named _ id _ _)
          ∙ call_loop-matched path _ (id ∷ name ∷ []) _ _ (named _ id _ _),
      reads (id ∷ codes "channels" ∷ []) (hi, (ground arith, tt))
          ∙ call_loop-mismatch path _ _ _ (named _ id _ _)
          ∙ call_loop-mismatch path _ _ _ (named _ id _ _)
          ∙ call_loop-matched path _ (id ∷ [] ∷ []) _ _ (named _ id _ _),
      ap (λ u. call u.uri_path_list table) (split_uri-path_text p (name ∷ more) ps hq (hn, hm) ha)
          ∙ call_loop-differ path p _ _ _ differ
          ∙ call_loop-differ path p _ _ _ differ
          ∙ call_loop-differ path p _ _ _ differ
          ∙ call_loop-matched p _ (name ∷ more) _ _ (compare_path-named p _ name _ _ hq star'),
    )
