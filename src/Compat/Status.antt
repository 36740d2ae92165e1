-- ===== src/Compat/Status.antt =====
-- The states of the nodes below a node, and the values that are deleted.
use vyatta_cfg.Client.{Arg, Conn}
use vyatta_cfg.Compat.Nodes.{
  contains_text, missing_in, all_names, child_status, status_at, statuses,
  cfg_path_get_child_nodes_status, cfg_path_get_deleted_values,
}
use vyatta_cfg.Compat.{established, running, candidate, assert_session, node_get_at, node_get_db}
use vyatta_cfg.Cpath.{Uri}
use vyatta_cfg.Maps.{insert, lookup, lookup-insert}
use vyatta_cfg.Prelude.Integer.{ℤ}
use vyatta_cfg.Prelude.Outcome.{value}
use vyatta_cfg.Prelude.{
  ℕ, ◌≡◌, refl, sym, ap, ◌∙◌, Bool, true, false, not, ◌&&◌, ◌||◌, inl, inr, List, [], ◌∷◌, ◌++◌,
  Option, none, some, Bytes, str_eq, str_eq_iff, Bool-cases, if◌then◌else◌, arith,
}
use vyatta_cfg.Rpc.{Lib, Exchange}

contains_text-missing_in :
    (x : Bytes) (svec avec : List Bytes)
    → contains_text x (missing_in svec avec) ≡ (contains_text x avec && not (contains_text x svec))
unfolding missing_in
contains_text-missing_in x svec [] = refl
contains_text-missing_in x svec (a ∷ avec) =
    let rest = contains_text-missing_in x svec avec in
    elim (Bool-cases (str_eq a x)) [
      | inl same ↦
          let is_x : a ≡ x = (str_eq_iff a x).0 same in
          let found : contains_text a svec ≡ contains_text x svec =
            ap (λ u. contains_text u svec) is_x in
          ground (arith, found, same, rest)
      | inr other ↦ ground (arith, other, rest)
    ]

-- The keys of `umap`.
has_key : Bytes → List (Bytes × Bytes) → Bool
has_key k [] = false
has_key k ((j, w) ∷ m) = str_eq j k || has_key k m

has_key-insert :
    (k j v : Bytes) (m : List (Bytes × Bytes))
    → has_key j (insert k v m) ≡ (str_eq k j || has_key j m)
unfolding has_key insert
has_key-insert k j v [] = refl
has_key-insert k j v ((i, w) ∷ m) =
    ground (arith, str_eq_iff k j, str_eq_iff i k, str_eq_iff i j, has_key-insert k j v m)

has_key-all_names :
    (j : Bytes) (ns : List Bytes) (m : List (Bytes × Bytes))
    → has_key j (all_names ns m) ≡ (contains_text j ns || has_key j m)
unfolding all_names
has_key-all_names j [] m = refl
has_key-all_names j (n ∷ ns) m =
    ground (arith, has_key-all_names j ns (insert n [] m), has_key-insert n j [] m)

if_same : (b : Bool) (x : Option Bytes) → (if b then x else x) ≡ x
if_same true x = refl
if_same false x = refl

or-right : (a b : Bool) → b ≡ true → (a || b) ≡ true
or-right true b h = refl
or-right false b h = h

or_false : (b : Bool) → (b || false) ≡ b
or_false true = refl
or_false false = refl

module _ (L : Lib) (json_pack : List Arg → Option (Lib.Json L))
    (ask : Bytes → Lib.Json L → ℕ → Exchange L) (elements : Lib.Vector L → List Bytes) (uri : Uri)
    (path : List Bytes) (stat : Bytes → ℤ) (avec wvec : List Bytes)
    (answers : (n : Bytes)
      → (contains_text n wvec || contains_text n avec) ≡ true
      → (conn : Conn)
      → (conn' : Conn) × (status_at L json_pack ask elements uri (path ++ (n ∷ [])) conn
          ≡ value (stat n, conn'))) where
  -- The entry that the loop leaves for a name.
  abbrev entry : Bytes → Bool → List (Bytes × Bytes) → Option Bytes
  entry j listed result = if listed then some (child_status (stat j)) else lookup j result

  entry-insert :
      (c j : Bytes) (b : Bool) (result : List (Bytes × Bytes))
      → entry j b (insert c (child_status (stat c)) result) ≡ entry j (str_eq c j || b) result
  entry-insert c j b result = elim (Bool-cases (str_eq c j)) [
    | inl same ↦
        let is_j : c ≡ j = (str_eq_iff c j).0 same in
        let there : lookup j (insert c (child_status (stat c)) result)
            ≡ some (child_status (stat j)) =
          lookup-insert c j (child_status (stat c)) result
          ∙ rw same (ap (λ n. some (child_status (stat n))) is_j) in
        rw there (rw same (if_same b (some (child_status (stat j)))))
    | inr other ↦
        let there : lookup j (insert c (child_status (stat c)) result) ≡ lookup j result =
          lookup-insert c j (child_status (stat c)) result ∙ rw other refl in
        rw there (rw other refl)
  ]

  statuses-lookup :
      (names result : List (Bytes × Bytes)) (conn : Conn)
      → ((n : Bytes)
          → has_key n names ≡ true
          → (contains_text n wvec || contains_text n avec) ≡ true)
      → (m : List (Bytes × Bytes)) × (conn' : Conn) × (statuses L json_pack ask elements uri path
            names result conn
          ≡ value (m, conn'))
        × ((j : Bytes) → lookup j m ≡ entry j (has_key j names) result)
  unfolding statuses has_key
  statuses-lookup [] result conn listed = (result, conn, refl, λ j. refl)
  statuses-lookup ((c, u) ∷ names) result conn listed =
      let (conn', asked) =
        answers c (listed c (ap (λ b. b || has_key c names) ((str_eq_iff c c).1 refl))) conn in
      let others : (n : Bytes)
          → has_key n names ≡ true
          → (contains_text n wvec || contains_text n avec) ≡ true =
        λ n h. listed n (or-right (str_eq c n) (has_key n names) h) in
      let (m, last, ran, entries) =
        statuses-lookup names (insert c (child_status (stat c)) result) conn' others in
      (m, last, rw asked ran, λ j. entries j ∙ entry-insert c j (has_key j names) result)

  node_get_db-open :
      (db : ℕ) (conn conn' : Conn) (names : List Bytes)
      → node_get_at L json_pack ask elements uri db path conn ≡ value (some names, conn')
      → node_get_db L json_pack ask elements uri (established conn) db path
        ≡ value (some names, established conn')
  unfolding node_get_db
  node_get_db-open db conn conn' names got = rw got refl

  -- On an open connection, in a session, where both configurations know the node and every node below
  -- it has a state that does not change meanwhile: the result has for every node below it, in the running
  -- configuration or the candidate, its state, and else what it had before.
  pub cfg_path_get_child_nodes_status-lookup :
      (conn first second third : Conn) (result : List (Bytes × Bytes))
      → node_get_at L json_pack ask elements uri running path conn ≡ value (some avec, first)
      → node_get_at L json_pack ask elements uri candidate path first ≡ value (some wvec, second)
      → assert_session L json_pack ask elements uri second ≡ value third
      → (m : List (Bytes × Bytes)) × (last : Conn) × (cfg_path_get_child_nodes_status L json_pack
            ask elements uri
            (established conn)
            path
            result
          ≡ value (m, established last))
        × ((j : Bytes)
            → lookup j m ≡ (
                if contains_text j wvec || contains_text j avec
                then some (child_status (stat j))
                else lookup j result))
  unfolding cfg_path_get_child_nodes_status has_key
  cfg_path_get_child_nodes_status-lookup conn first second third result got_a got_w session =
      let names = all_names wvec (all_names avec []) in
      let keys : (j : Bytes) → has_key j names ≡ (contains_text j wvec || contains_text j avec) =
        λ j.
          has_key-all_names j wvec (all_names avec [])
          ∙ ap (λ b. contains_text j wvec || b)
              (has_key-all_names j avec [] ∙ or_false (contains_text j avec)) in
      let (m, last, ran, entries) = statuses-lookup names result third (λ n h. sym (keys n) ∙ h) in
      (
        m,
        last,
        rw (node_get_db-open running conn first avec got_a)
            (rw (node_get_db-open candidate first second wvec got_w) (rw session (rw ran refl))),
        λ j. entries j ∙ ap (λ b. entry j b result) (keys j),
      )

-- What is in the running configuration and not in the candidate; nothing for a node that the
-- candidate does not have.
abbrev pub is_deleted : Bytes → List Bytes → Option (List Bytes) → Bool
is_deleted x avec none = false
is_deleted x avec (some svec) = contains_text x avec && not (contains_text x svec)

module _ (L : Lib) (json_pack : List Arg → Option (Lib.Json L))
    (ask : Bytes → Lib.Json L → ℕ → Exchange L) (elements : Lib.Vector L → List Bytes) (uri : Uri)
    (path : List Bytes) where
  -- On an open connection where the running configuration knows the node: exactly the values that are in
  -- the running configuration and not in the candidate are given as deleted where the candidate
  -- knows the node, and none of them where it does not.
  pub cfg_path_get_deleted_values-contains :
      (conn first second : Conn) (avec : List Bytes) (svec : Option (List Bytes))
      → node_get_at L json_pack ask elements uri running path conn ≡ value (some avec, first)
      → node_get_at L json_pack ask elements uri candidate path first ≡ value (svec, second)
      → (deleted : List Bytes) × (cfg_path_get_deleted_values L json_pack ask elements uri
            (established conn)
            path
          ≡ value (deleted, established second))
        × ((x : Bytes) → contains_text x deleted ≡ is_deleted x avec svec)
  unfolding cfg_path_get_deleted_values node_get_db
  cfg_path_get_deleted_values-contains conn first second avec none got_a got_w =
      ([], rw got_a (rw got_w refl), λ x. refl)
  cfg_path_get_deleted_values-contains conn first second avec (some svec) got_a got_w =
      (missing_in svec avec, rw got_a (rw got_w refl), λ x. contains_text-missing_in x svec avec)
