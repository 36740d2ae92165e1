-- ===== src/Compat.antt =====
-- The class `Cstore` of src/compat/cstore-compat.cpp, for the bindings that go without the client library.
-- The elements of a vector and the entries of a map are parameters; requests can be packed. `exit_err`,
-- which ends the program or the Perl code that called it, is `exited`.
pub mod Nodes
pub mod Path
pub mod Status
use vyatta_cfg.Client.Calls.{
  configd_sess_exists, configd_sess_changed, configd_node_exists, configd_node_is_default,
  configd_node_get, configd_node_get_status, configd_node_get_type, configd_tmpl_get,
  configd_tmpl_get_children, configd_tmpl_validate_path,
}
use vyatta_cfg.Client.Commit.{configd_load}
use vyatta_cfg.Client.{Arg, Conn, Returned}
use vyatta_cfg.Cpath.{Uri, url_escape}
use vyatta_cfg.Prelude.Integer.{ℤ, pos, negsuc}
use vyatta_cfg.Prelude.Outcome.{Outcome, value, exited, undefined, ◌>>=◌}
use vyatta_cfg.Prelude.{
  ℕ, zero, suc, Bool, true, false, not, ◌&&◌, ◌||◌, List, [], ◌∷◌, ◌++◌, Option, none, some, Bytes,
  str, if◌then◌else◌,
}
use vyatta_cfg.Rpc.{Lib, Exchange, Error}

-- The static members: no connection, one that could not be opened, or one that is open.
pub data Link : Type 0 where
  null unopened : Link
  established : Conn → Link

-- `Db`
abbrev pub running : ℕ
running = 1

abbrev pub candidate : ℕ
candidate = 2

abbrev pub effective : ℕ
effective = 3

abbrev pub is_one : ℤ → Bool
is_one (pos (suc zero)) = true
is_one _ = false

abbrev pub is_positive : ℤ → Bool
is_positive (pos (suc n)) = true
is_positive _ = false

-- `connect`: whether `malloc` and the opening succeed, and the session of the environment.
unfoldable pub connect : Bool → Bool → Option Bytes → Link
connect false opens sid = null
connect true false sid = unopened
connect true true sid = established (record { session_id = sid; req_id = 0 })

-- The constructor: an established connection is kept.
unfoldable pub new_cstore : Bool → Bool → Option Bytes → Link → Link
new_cstore memory opens sid (established conn) = established conn
new_cstore memory opens sid _ = connect memory opens sid

unfoldable pub disconnect : Link → Link
disconnect (established conn) = null
disconnect link = link

module _ (uri : Uri) where
  -- The loop of `strVecToChar` from the path that is built so far on.
  unfoldable pub join_components : Bytes → List Bytes → Outcome Bytes
  join_components path [] = value path
  join_components path (c ∷ []) = do e ← url_escape uri c; value (path ++ e)
  join_components path (c ∷ d ∷ cs) = do
    e ← url_escape uri c
    join_components (path ++ (e ++ str "/")) (d ∷ cs)

  unfoldable pub str_vec_to_char : List Bytes → Outcome Bytes
  str_vec_to_char [] = value (str "/")
  str_vec_to_char (c ∷ []) = value c
  str_vec_to_char (c ∷ d ∷ cs) = join_components (str "/") (c ∷ d ∷ cs)

module _ (L : Lib) (json_pack : List Arg → Option (Lib.Json L))
    (ask : Bytes → Lib.Json L → ℕ → Exchange L) (elements : Lib.Vector L → List Bytes)
    (uri : Uri) where
  abbrev pub Call : Type 0 → Type 0
  Call A = Outcome (A × Conn)

  -- A remote call without an error of the caller.
  abbrev pub quietly : {A : Type 0} → Outcome (Returned L A) → Call A
  quietly o = do r ← o; value (r.0, r.2)

  -- Behind `conn_established`, with what is returned without it.
  abbrev pub guarded : {A : Type 0} → A → Link → (Conn → Call A) → Outcome (A × Link)
  guarded missing (established conn) f = do r ← f conn; value (r.0, established r.1)
  guarded missing link f = value (missing, link)

  -- Without the test: the connection is used whatever it is.
  abbrev pub unguarded : {A : Type 0} → Link → (Conn → Call A) → Outcome (A × Link)
  unguarded (established conn) f = do r ← f conn; value (r.0, established r.1)
  unguarded link f = undefined

  -- A call on the path of a vector of components.
  abbrev pub on_path : {A : Type 0} → List Bytes → (Option Bytes → Outcome (Returned L A)) → Call A
  on_path path f = do p ← str_vec_to_char uri path; quietly (f (some p))

  unfoldable pub assert_session : Conn → Outcome Conn
  assert_session conn = do
    r ← configd_sess_exists L json_pack ask conn none
    if is_one r.0 then value r.2 else exited

  -- `nodeGetDB` on an open connection: what is added to the result, `none` for false.
  unfoldable pub node_get_at : ℕ → List Bytes → Conn → Call (Option (List Bytes))
  node_get_at db path conn = do
    r ← on_path path (λ p. configd_node_get L json_pack ask conn (pos db) p none)
    value (elim r.0 [ none ↦ none | some v ↦ some (elements v) ], r.1)

  unfoldable pub node_get_db : Link → ℕ → List Bytes → Outcome (Option (List Bytes) × Link)
  node_get_db link db path = guarded none link (node_get_at db path)

  -- The session has to exist where the candidate is meant: `none` stands for no test.
  abbrev pub require_session : Link → Bool → Outcome Link
  require_session link false = value link
  require_session link true = do
    r ← unguarded link (λ conn. do c ← assert_session conn; value (true, c))
    value r.1

  abbrev pub db_of : Bool → Bool → ℕ
  db_of true effective_cfg = running
  db_of false true = effective
  db_of false false = candidate

  unfoldable pub node_get : Link → List Bytes → Bool → Bool → Outcome (Option (List Bytes) × Link)
  node_get link path active effective_cfg = do
    l ← require_session link (not active && not effective_cfg)
    node_get_db l (db_of active effective_cfg) path

  unfoldable pub node_exists_db : Link → ℕ → List Bytes → Outcome (Bool × Link)
  node_exists_db link db path = guarded false link (λ conn. do
    r ← on_path path (λ p. configd_node_exists L json_pack ask conn (pos db) p none)
    value (is_positive r.0, r.1))

  unfoldable pub node_exists : Link → List Bytes → Bool → Bool → Outcome (Bool × Link)
  node_exists link path active effective_cfg = do
    l ← require_session link (not active && not effective_cfg)
    node_exists_db l (db_of active effective_cfg) path

  unfoldable pub cfg_path_exists : Link → List Bytes → Bool → Outcome (Bool × Link)
  cfg_path_exists link path active_cfg = node_exists link path active_cfg false

  unfoldable pub cfg_path_effective : Link → List Bytes → Outcome (Bool × Link)
  cfg_path_effective link path = node_exists link path false true

  unfoldable pub cfg_path_default : Link → List Bytes → Bool → Outcome (Bool × Link)
  cfg_path_default link path active_cfg = guarded false link (λ conn. do
    c ← elim active_cfg [ true ↦ value conn | false ↦ assert_session conn ]
    r ←
        on_path path
          (λ p. configd_node_is_default L json_pack ask c (pos (db_of active_cfg false)) p none)
    value (is_positive r.0, r.1))

  -- The name of a type; for any other number the result is left as it is.
  abbrev pub type_name : Bytes → ℤ → Bytes
  type_name old (pos zero) = str "leaf"
  type_name old (pos (suc zero)) = str "multi"
  type_name old (pos (suc (suc zero))) = str "container"
  type_name old (pos (suc (suc (suc zero)))) = str "tag"
  type_name old _ = old

  -- `cfgPathGetType`: the result afterwards, where it returns true.
  unfoldable pub cfg_path_get_type : Link → List Bytes → Bytes → Outcome (Option Bytes × Link)
  cfg_path_get_type link path old = guarded none link (λ conn. do
    r ← on_path path (λ p. configd_node_get_type L json_pack ask conn p none)
    value (some (type_name old r.0), r.1))

  unfoldable pub session_changed : Link → Outcome (Bool × Link)
  session_changed link = unguarded link (λ conn. do
    c ← assert_session conn
    r ← quietly (configd_sess_changed L json_pack ask c none)
    value (is_positive r.0, r.1))

  unfoldable pub in_session : Link → Outcome (Bool × Link)
  in_session link = unguarded link (λ conn. do
    r ← quietly (configd_sess_exists L json_pack ask conn none)
    value (is_positive r.0, r.1))

  abbrev pub is_zero : ℤ → Bool
  is_zero (pos zero) = true
  is_zero _ = false

  unfoldable pub load_file : Link → Option Bytes → Outcome (Bool × Link)
  load_file link filename = unguarded link (λ conn. do
    c ← assert_session conn
    r ← quietly (configd_load L json_pack ask c filename none)
    value (not (is_zero r.0), r.1))

  unfoldable pub validate_tmpl_path : Link → List Bytes → Outcome (Bool × Link)
  validate_tmpl_path link path = guarded false link (λ conn. do
    r ← on_path path (λ p. configd_tmpl_validate_path L json_pack ask conn p none)
    value (is_positive r.0, r.1))

  -- A null vector is read by `vector_next`.
  unfoldable pub tmpl_get_child_nodes : Link → List Bytes → Outcome (List Bytes × Link)
  tmpl_get_child_nodes link path = guarded [] link (λ conn. do
    r ← on_path path (λ p. configd_tmpl_get_children L json_pack ask conn p none)
    elim r.0 [ none ↦ undefined | some v ↦ value (elements v, r.1) ])
