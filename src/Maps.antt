-- ===== src/Maps.antt =====
-- `std::map` of strings, as it is filled in src/client/completion_env.cpp, src/client/CfgClient.cpp and
-- src/compat/cstore-compat.cpp: the list of its pairs in the order of the keys.
use vyatta_cfg.Prelude.{
  ◌≡◌, refl, Bool, true, false, List, [], ◌∷◌, Option, none, some, Bytes, str_eq, str_eq_iff, ltb,
  ◌==◌, if◌then◌else◌, arith,
}

-- The order of `std::string`.
unfoldable pub before : Bytes → Bytes → Bool
before [] [] = false
before [] (d ∷ t) = true
before (c ∷ s) [] = false
before (c ∷ s) (d ∷ t) = let rest = before s t in if c == d then rest else ltb c d

-- An assignment in a `std::map`, as the list of its pairs in order.
unfoldable pub insert : Bytes → Bytes → List (Bytes × Bytes) → List (Bytes × Bytes)
insert k v [] = (k, v) ∷ []
insert k v ((j, w) ∷ m) =
    let rest = insert k v m in
    if str_eq j k then (k, v) ∷ m else if before k j then (k, v) ∷ (j, w) ∷ m else (j, w) ∷ rest

-- An entry of a map at its first `=`: the key and the value.
unfoldable pub split_entry : Bytes → Option (Bytes × Bytes)
split_entry [] = none
split_entry (c ∷ s) = elim (c == b'=') [
  | true ↦ some ([], s)
  | false ↦ elim (split_entry s) [ none ↦ none | some (k, v) ↦ some (c ∷ k, v) ]
]

-- The loop over the entries, onto the pairs that are there.
unfoldable pub entries_map : List Bytes → List (Bytes × Bytes) → List (Bytes × Bytes)
entries_map [] m = m
entries_map (e ∷ es) m = elim (split_entry e) [
  | none ↦ entries_map es m
  | some (k, v) ↦ entries_map es (insert k v m)
]

-- The value of a key.
unfoldable pub lookup : Bytes → List (Bytes × Bytes) → Option Bytes
lookup k [] = none
lookup k ((j, w) ∷ m) = let rest = lookup k m in if str_eq j k then some w else rest

pub lookup-insert :
    (k j v : Bytes) (m : List (Bytes × Bytes))
    → lookup j (insert k v m) ≡ (if str_eq k j then some v else lookup j m)
unfolding lookup insert
lookup-insert k j v [] = refl
lookup-insert k j v ((i, w) ∷ m) =
    ground (arith, str_eq_iff k j, str_eq_iff i k, str_eq_iff i j, lookup-insert k j v m)
