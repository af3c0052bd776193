-- ===== src/Channel/Table.antt =====
-- The maps of the program, std::unordered_map from texts, as association lists in the order of
-- their iteration.
use push1st.Prelude.{
  keep, ◌≡◌, refl, Bool, true, List, [], ◌∷◌, Option, none, some, arith, Bytes, bytes_eq,
  bytes_eq_iff, if◌then◌else◌,
}

module _ {ℓ} {V : Type ℓ} where
  unfoldable pub find : Bytes → List (Bytes × V) → Option V
  find k [] = none
  find k ((j, v) ∷ t) = if bytes_eq j k then some v else find k t

  -- `emplace` leaves an entry that is there as it is.
  unfoldable pub emplace : Bytes → V → List (Bytes × V) → List (Bytes × V)
  emplace k v [] = (k, v) ∷ []
  emplace k v ((j, w) ∷ t) = if bytes_eq j k then (j, w) ∷ t else (j, w) ∷ emplace k v t

  unfoldable pub erase : Bytes → List (Bytes × V) → List (Bytes × V)
  erase k [] = []
  erase k ((j, w) ∷ t) = let rest = erase k t in if bytes_eq j k then rest else (j, w) ∷ rest

  pub find-emplace :
      (k j : Bytes) (v : V) (t : List (Bytes × V))
      → find j (emplace k v t)
        ≡ (if bytes_eq k j then elim (find k t) [ none ↦ some v | some w ↦ some w ] else find j t)
  unfolding find emplace
  find-emplace k j v [] = ground arith
  find-emplace k j v ((i, w) ∷ t) =
      ground (arith, bytes_eq_iff i k, bytes_eq_iff i j, bytes_eq_iff k j, find-emplace k j v t)

  pub find-erase :
      (k j : Bytes) (t : List (Bytes × V))
      → find j (erase k t) ≡ (if bytes_eq k j then none else find j t)
  unfolding find erase
  find-erase k j [] = ground arith
  find-erase k j ((i, w) ∷ t) =
      ground (arith, bytes_eq_iff i k, bytes_eq_iff i j, bytes_eq_iff k j, find-erase k j t)

  -- No key stands twice.
  abbrev pub HasDistinctKeys : List (Bytes × V) → Type ℓ
  HasDistinctKeys [] = Unit
  HasDistinctKeys ((k, v) ∷ t) = (find k t ≡ none) × HasDistinctKeys t

  pub emplace-HasDistinctKeys :
      (k : Bytes) (v : V) (t : List (Bytes × V))
      → HasDistinctKeys t
      → HasDistinctKeys (emplace k v t)
  unfolding emplace
  emplace-HasDistinctKeys k v [] h = unfold find in (refl, tt)
  emplace-HasDistinctKeys k v ((i, w) ∷ t) h = ground (
    arith,
    bytes_eq_iff i k,
    bytes_eq_iff k i,
    find-emplace k i v t,
    emplace-HasDistinctKeys k v t h.1,
  )

  pub erase-HasDistinctKeys :
      (k : Bytes) (t : List (Bytes × V)) → HasDistinctKeys t → HasDistinctKeys (erase k t)
  unfolding erase
  erase-HasDistinctKeys k [] h = tt
  erase-HasDistinctKeys k ((i, w) ∷ t) h =
      ground (arith, find-erase k i t, bytes_eq_iff k i, erase-HasDistinctKeys k t h.1)

  find-keep-none :
      (p : Bytes × V → Bool) (k : Bytes) (t : List (Bytes × V))
      → find k t ≡ none
      → find k (keep p t) ≡ none
  unfolding find keep
  find-keep-none p k [] h = refl
  find-keep-none p k ((j, v) ∷ t) h = ground (arith, find-keep-none p k t)

  pub keep-HasDistinctKeys :
      (p : Bytes × V → Bool) (t : List (Bytes × V)) → HasDistinctKeys t → HasDistinctKeys (keep p t)
  unfolding keep
  keep-HasDistinctKeys p [] h = tt
  keep-HasDistinctKeys p ((k, v) ∷ t) h =
      ground (arith, find-keep-none p k t, keep-HasDistinctKeys p t h.1)

  -- An entry that the test passes is found as before.
  pub find-keep-some :
      (p : Bytes × V → Bool) (k : Bytes) (v : V) (t : List (Bytes × V))
      → find k t ≡ some v
      → p (k, v) ≡ true
      → find k (keep p t) ≡ some v
  unfolding find keep
  find-keep-some p k v [] h e = h
  find-keep-some p k v ((j, w) ∷ t) h e = ground (arith, bytes_eq_iff j k, find-keep-some p k v t)

  -- With distinct keys, what is found after a filter was there before it.
  pub find-of-keep :
      (p : Bytes × V → Bool) (k : Bytes) (v : V) (t : List (Bytes × V))
      → HasDistinctKeys t
      → find k (keep p t) ≡ some v
      → find k t ≡ some v
  unfolding find keep
  find-of-keep p k v [] d h = h
  find-of-keep p k v ((j, w) ∷ t) d h =
      ground (arith, bytes_eq_iff j k, find-keep-none p k t, find-of-keep p k v t d.1)
