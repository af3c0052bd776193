-- ===== src/Http/Uri.antt =====
-- The part of ParseRequest that splits a uri.
use push1st.Prelude.{
  ◌==◌, codes, bytes_eq, if◌then◌else◌, Bytes, List, [], ◌∷◌, none, some, ℕ, zero, suc, length,
  take, split_at,
}
use push1st.Http.Scan.{split_by}

-- curi; uriArgs is an unordered multimap, so only which entries the list has, and how often, is the
-- program's, and not their order.
pub record Uri : Type 0 where
  pub uri_full : Bytes
  pub uri_path : Bytes
  pub uri_path_list : List Bytes
  pub uri_args : List (Bytes × Bytes)

-- A component of the path, where it is not empty.
unfoldable pub with_part : Bytes → List Bytes → List Bytes
with_part [] parts = parts
with_part (c ∷ cs) parts = (c ∷ cs) ∷ parts

-- The loop over the path, on fuel: its components and the list of parameters.
unfoldable pub path_loop : ℕ → Bytes → List Bytes × Bytes
path_loop zero u = ([], [])
path_loop (suc f) [] = ([], [])
path_loop (suc f) (c ∷ cs) = elim (split_by b'/' b'?' (c ∷ cs)) [
  | none ↦ ((c ∷ cs) ∷ [], [])
  | some (part, symbol, rest) ↦
      let next = path_loop f rest in
      if symbol == b'/' then (with_part part next.0, next.1) else (with_part part [], rest)
]

-- One parameter: its name, and its value, which is empty where there is none.
unfoldable pub argument : Bytes → Bytes × Bytes
argument p = elim (split_at b'=' p) [ none ↦ (p, []) | some (key, value) ↦ (key, value) ]

-- The loop over the parameters, on fuel.
unfoldable pub args_loop : ℕ → Bytes → List (Bytes × Bytes)
args_loop zero p = []
args_loop (suc f) [] = []
args_loop (suc f) (c ∷ cs) = elim (split_at b'&' (c ∷ cs)) [
  | none ↦ argument (c ∷ cs) ∷ []
  | some (param, rest) ↦ argument param ∷ args_loop f rest
]

-- The components of a path begin with its slash.
unfoldable pub split_uri : Bytes → Uri
split_uri u =
    let parts = path_loop (length u) u in
    record {
      uri_full = u;
      uri_path = elim (split_by b'?' b' ' u) [ none ↦ u | some (path, symbol, rest) ↦ path ];
      uri_path_list = if bytes_eq (take 1 u) (codes "/") then codes "/" ∷ parts.0 else parts.0;
      uri_args = args_loop (length parts.1) parts.1;
    }
