-- ===== src/Compat/Nodes.antt =====
-- The values, the children and the states of nodes in `Cstore` of src/compat/cstore-compat.cpp.
use vyatta_cfg.Client.Calls.{
  configd_node_get_comment, configd_node_get_status, configd_tree_get_internal, configd_tmpl_get,
}
use vyatta_cfg.Client.{Arg, Conn}
use vyatta_cfg.Compat.{
  Link, running, candidate, guarded, unguarded, on_path, str_vec_to_char, assert_session,
  node_get_db, node_get, db_of, cfg_path_get_type,
}
use vyatta_cfg.Cpath.{Uri}
use vyatta_cfg.Maps.{insert, entries_map}
use vyatta_cfg.Prelude.Integer.{ℤ, pos, negsuc}
use vyatta_cfg.Prelude.Outcome.{Outcome, value, undefined, ◌>>=◌}
use vyatta_cfg.Prelude.{
  ℕ, zero, suc, Bool, true, false, ◌||◌, List, [], ◌∷◌, ◌++◌, Option, none, some, Bytes, str,
  str_eq, ◌==◌, if◌then◌else◌,
}
use vyatta_cfg.Rpc.{Lib, Exchange, Error}

abbrev pub contains_text : Bytes → List Bytes → Bool
contains_text s [] = false
contains_text s (t ∷ ts) = str_eq t s || contains_text s ts

-- The loop of `cfgPathGetDeletedValues`.
unfoldable pub missing_in : List Bytes → List Bytes → List Bytes
missing_in svec [] = []
missing_in svec (a ∷ avec) =
    let rest = missing_in svec avec in if contains_text a svec then rest else a ∷ rest

-- `umap`: every name once, in order.
unfoldable pub all_names : List Bytes → List (Bytes × Bytes) → List (Bytes × Bytes)
all_names [] m = m
all_names (n ∷ ns) m = all_names ns (insert n [] m)

-- The state of a node below, for the answer of `configd_node_get_status`.
abbrev pub child_status : ℤ → Bytes
child_status (pos (suc zero)) = str "changed"
child_status (pos (suc (suc zero))) = str "added"
child_status (pos (suc (suc (suc zero)))) = str "deleted"
child_status (negsuc zero) = str "deleted"
child_status _ = str "static"

-- The result of `cfgPathStatus`; for another number it is left as it is.
abbrev pub status_name : Bytes → ℤ → Bytes
status_name old (pos zero) = str "static"
status_name old (pos (suc zero)) = str "changed"
status_name old (pos (suc (suc zero))) = str "added"
status_name old (pos (suc (suc (suc zero)))) = str "deleted"
status_name old _ = old

abbrev pub is_leaf_type : Bytes → Bool
is_leaf_type t = str_eq t (str "leaf") || str_eq t (str "multi")

abbrev pub is_leaf_found : Option Bytes → Bool
is_leaf_found none = false
is_leaf_found (some t) = is_leaf_type t

-- The first of the values, where the type, if there is one, is the one that is asked for.
abbrev pub typed : Bytes → Option Bytes → Bool
typed wanted none = true
typed wanted (some t) = str_eq t wanted

module _ (L : Lib) (json_pack : List Arg → Option (Lib.Json L))
    (ask : Bytes → Lib.Json L → ℕ → Exchange L) (elements : Lib.Vector L → List Bytes)
    (uri : Uri) where
  -- `cfgGetTree`, `none` for false.
  unfoldable pub cfg_get_tree : Link → List Bytes → Bool → Outcome (Option Bytes × Link)
  cfg_get_tree link path active_cfg = guarded L json_pack ask elements uri none link (λ conn. do
    c ← elim active_cfg [
      | true ↦ value conn
      | false ↦ assert_session L json_pack ask elements uri conn
    ]
    on_path L json_pack ask elements uri path (λ p.
        configd_tree_get_internal L json_pack ask c
          (pos (db_of L json_pack ask elements uri active_cfg false)) p none))

  abbrev get_type : Link → List Bytes → Outcome (Option Bytes × Link)
  get_type link path = cfg_path_get_type L json_pack ask elements uri link path []

  abbrev get_node : Link → List Bytes → Bool → Bool → Outcome (Option (List Bytes) × Link)
  get_node = node_get L json_pack ask elements uri

  abbrev or_none : Option (List Bytes) → List Bytes
  or_none none = []
  or_none (some ss) = ss

  -- The children, none of a leaf; what is added to the result.
  unfoldable pub child_nodes : Link → List Bytes → Bool → Bool → Outcome (List Bytes × Link)
  child_nodes link path active effective_cfg = do
    t ← get_type link path
    elim (is_leaf_found t.0) [
      | true ↦ value ([], t.1)
      | false ↦ do r ← get_node t.1 path active effective_cfg; value (or_none r.0, r.1)
    ]

  unfoldable pub cfg_path_get_child_nodes : Link → List Bytes → Bool → Outcome (List Bytes × Link)
  cfg_path_get_child_nodes link path active_cfg = child_nodes link path active_cfg false

  unfoldable pub cfg_path_get_effective_child_nodes :
      Link → List Bytes → Outcome (List Bytes × Link)
  cfg_path_get_effective_child_nodes link path = child_nodes link path false true

  -- The value of a leaf, `none` for false.
  unfoldable pub leaf_value : Link → List Bytes → Bool → Bool → Outcome (Option Bytes × Link)
  leaf_value link path active effective_cfg = do
    r ← get_node link path active effective_cfg
    elim (or_none r.0) [
      | [] ↦ value (none, r.1)
      | v ∷ vs ↦ do
        t ← get_type r.1 path
        value (if typed (str "leaf") t.0 then some v else none, t.1)
    ]

  unfoldable pub cfg_path_get_value : Link → List Bytes → Bool → Outcome (Option Bytes × Link)
  cfg_path_get_value link path active_cfg = leaf_value link path active_cfg false

  unfoldable pub cfg_path_get_effective_value : Link → List Bytes → Outcome (Option Bytes × Link)
  cfg_path_get_effective_value link path = leaf_value link path false true

  -- The values of a node of many, `none` for false.
  unfoldable pub multi_values :
      Link → List Bytes → Bool → Bool → Outcome (Option (List Bytes) × Link)
  multi_values link path active effective_cfg = do
    t ← get_type link path
    elim (typed (str "multi") t.0) [
      | false ↦ value (none, t.1)
      | true ↦ get_node t.1 path active effective_cfg
    ]

  unfoldable pub cfg_path_get_values :
      Link → List Bytes → Bool → Outcome (Option (List Bytes) × Link)
  cfg_path_get_values link path active_cfg = multi_values link path active_cfg false

  unfoldable pub cfg_path_get_effective_values :
      Link → List Bytes → Outcome (Option (List Bytes) × Link)
  cfg_path_get_effective_values link path = multi_values link path false true

  abbrev error_text : Error L → Option Bytes
  error_text none = none
  error_text (some e) = e.text

  abbrev fresh_error : Error L
  fresh_error =
      some (record { text = none; source = none; is_mgmt_error = false; mgmt_errs = none })

  -- `cfgPathGetComment`: false where there is a text of an error; a null pointer is read otherwise.
  unfoldable pub cfg_path_get_comment : Link → List Bytes → Bool → Outcome (Option Bytes × Link)
  cfg_path_get_comment link path active_cfg = do
    p ← str_vec_to_char uri path
    unguarded L json_pack ask elements uri link (λ conn. do
      c ← elim active_cfg [
        | true ↦ value conn
        | false ↦ assert_session L json_pack ask elements uri conn
      ]
      r ←
          configd_node_get_comment L json_pack ask c
            (pos (db_of L json_pack ask elements uri active_cfg false)) (some p) fresh_error
      elim (error_text r.1) [
        | some text ↦ value (none, r.2)
        | none ↦ elim r.0 [ none ↦ undefined | some s ↦ value (some s, r.2) ]
      ])

  -- `configd_node_get_status` on the candidate, in a session.
  unfoldable pub status_at : List Bytes → Conn → Outcome (ℤ × Conn)
  status_at path conn =
      on_path L json_pack ask elements uri path
        (λ p. configd_node_get_status L json_pack ask conn (pos candidate) p none)

  unfoldable pub node_is_status : Link → List Bytes → ℕ → Outcome (Bool × Link)
  node_is_status link path stat = guarded L json_pack ask elements uri false link (λ conn. do
    c ← assert_session L json_pack ask elements uri conn
    r ← status_at path c
    value (elim r.0 [ pos n ↦ n == stat | negsuc n ↦ false ], r.1))

  unfoldable pub node_is_changed : Link → List Bytes → Outcome (Bool × Link)
  node_is_changed link path = guarded L json_pack ask elements uri false link (λ conn. do
    c ← assert_session L json_pack ask elements uri conn
    r ← status_at path c
    value (elim r.0 [ pos n ↦ n == 2 || (n == 3 || n == 1) | negsuc n ↦ false ], r.1))

  unfoldable pub cfg_path_deleted : Link → List Bytes → Outcome (Bool × Link)
  cfg_path_deleted link path = node_is_status link path 3

  unfoldable pub cfg_path_added : Link → List Bytes → Outcome (Bool × Link)
  cfg_path_added link path = node_is_status link path 2

  unfoldable pub cfg_path_changed : Link → List Bytes → Outcome (Bool × Link)
  cfg_path_changed link path = node_is_changed link path

  -- `cfgPathStatus`: the result afterwards, where it returns true.
  unfoldable pub cfg_path_status : Link → List Bytes → Bytes → Outcome (Option Bytes × Link)
  cfg_path_status link path old = guarded L json_pack ask elements uri none link (λ conn. do
    c ← assert_session L json_pack ask elements uri conn
    r ← status_at path c
    value (some (status_name old r.0), r.1))

  -- The loop over the names, onto the pairs that are there.
  unfoldable pub statuses :
      List Bytes
      → List (Bytes × Bytes)
      → List (Bytes × Bytes)
      → Conn
      → Outcome (List (Bytes × Bytes) × Conn)
  statuses path [] result conn = value (result, conn)
  statuses path ((c, u) ∷ names) result conn = do
    r ← status_at (path ++ (c ∷ [])) conn
    statuses path names (insert c (child_status r.0) result) r.1

  unfoldable pub cfg_path_get_child_nodes_status :
      Link → List Bytes → List (Bytes × Bytes) → Outcome (List (Bytes × Bytes) × Link)
  cfg_path_get_child_nodes_status link path result = do
    a ← node_get_db L json_pack ask elements uri link running path
    w ← node_get_db L json_pack ask elements uri a.1 candidate path
    unguarded L json_pack ask elements uri w.1 (λ conn. do
      c ← assert_session L json_pack ask elements uri conn
      statuses path (all_names (or_none w.0) (all_names (or_none a.0) [])) result c)

  -- `cfgPathGetDeletedValues`, and `cfgPathGetDeletedChildNodes`, which calls it.
  unfoldable pub cfg_path_get_deleted_values : Link → List Bytes → Outcome (List Bytes × Link)
  cfg_path_get_deleted_values link path = do
    a ← node_get_db L json_pack ask elements uri link running path
    elim a.0 [
      | none ↦ value ([], a.1)
      | some avec ↦ do
        s ← node_get_db L json_pack ask elements uri a.1 candidate path
        elim s.0 [ none ↦ value ([], s.1) | some svec ↦ value (missing_in svec avec, s.1) ]
    ]

  unfoldable pub cfg_path_get_deleted_child_nodes : Link → List Bytes → Outcome (List Bytes × Link)
  cfg_path_get_deleted_child_nodes link path = cfg_path_get_deleted_values link path

  -- `getParsedTmpl`, on the pairs that are there; `none` for false.
  unfoldable pub get_parsed_tmpl :
      (Lib.Map L → List Bytes)
      → Link
      → List Bytes
      → List (Bytes × Bytes)
      → Outcome (Option (List (Bytes × Bytes)) × Link)
  get_parsed_tmpl entries link path tmap = guarded L json_pack ask elements uri none link (λ conn.
      do
        r ←
            on_path L json_pack ask elements uri path
              (λ p. configd_tmpl_get L json_pack ask conn p none)
        value (elim r.0 [ none ↦ none | some m ↦ some (entries_map (entries m) tmap) ], r.1))
