-- ===== src/CfgClient/Methods.antt =====
-- The methods of `CfgClient` of src/client/CfgClient.cpp, each on the object and its arguments.
use vyatta_cfg.CfgClient.{
  CfgClient, Method, returned, thrown, on_conn, then_as, callintapi, callstrapi, call_tested,
  callvecapi, callmapapi, mkpath, fresh_error, set_session_id, split_values, is_one, is_true,
}
use vyatta_cfg.Client.Calls.{
  configd_sess_exists, configd_sess_changed, configd_sess_saved, configd_sess_setup,
  configd_sess_setup_shared, configd_sess_teardown, configd_sess_mark_saved,
  configd_sess_mark_unsaved, configd_sess_lock, configd_sess_unlock, configd_sess_locked,
  configd_get_help, configd_get_features, configd_node_exists, configd_node_is_default,
  configd_node_get, configd_node_get_status, configd_node_get_type, configd_tmpl_get,
  configd_tmpl_get_children, configd_tmpl_get_allowed, configd_tmpl_validate_path,
  configd_tmpl_validate_values, configd_tree_get, configd_tree_get_xml, configd_tree_get_internal,
  configd_tree_get_encoding, configd_tree_get_full, configd_tree_get_full_xml,
  configd_tree_get_full_internal, configd_tree_get_full_encoding, configd_call_rpc,
  configd_call_rpc_xml,
}
use vyatta_cfg.Client.Commit.{
  configd_set, configd_delete, configd_validate_path, configd_commit, configd_discard,
  configd_validate, configd_validate_config, configd_save, configd_load, configd_merge,
  configd_edit_config_xml, configd_copy_config,
}
use vyatta_cfg.Client.{Arg, Conn, Returned}
use vyatta_cfg.Cpath.{Uri}
use vyatta_cfg.Prelude.Integer.{ℤ, pos}
use vyatta_cfg.Prelude.Outcome.{Outcome, value, ◌>>=◌}
use vyatta_cfg.Prelude.{ℕ, Bool, true, false, List, [], ◌∷◌, ◌++◌, Option, none, some, Bytes, str}
use vyatta_cfg.Rpc.{Lib, Exchange, Error}

module _ (L : Lib) (json_pack : List Arg → Option (Lib.Json L))
    (ask : Bytes → Lib.Json L → ℕ → Exchange L) (uri : Uri) (create_sep : ℕ → Bytes → List Bytes)
    (decimal : ℕ → Bytes) (entries : Lib.Map L → List Bytes)
    (elements : Lib.Vector L → List Bytes) where
  -- The overloads without a path.
  abbrev int_call : CfgClient → (Conn → Error L → Outcome (Returned L ℤ)) → Method ℤ
  int_call c api = on_conn c (callintapi L (api c.conn (fresh_error L)))

  abbrev str_call :
      CfgClient → (Conn → Error L → Outcome (Returned L (Option Bytes))) → Method Bytes
  str_call c api = on_conn c (callstrapi L (api c.conn (fresh_error L)))

  abbrev tested_call :
      CfgClient → (Conn → Error L → Outcome (Returned L (Option Bytes))) → Method Bytes
  tested_call c api = on_conn c (call_tested L (api c.conn (fresh_error L)))

  -- The overloads with a path.
  abbrev int_at :
      CfgClient → List Bytes → (Conn → Option Bytes → Error L → Outcome (Returned L ℤ)) → Method ℤ
  int_at c path api = mkpath uri path >>= λ p. int_call c (λ conn. api conn (some p))

  abbrev str_at :
      CfgClient
      → List Bytes
      → (Conn → Option Bytes → Error L → Outcome (Returned L (Option Bytes)))
      → Method Bytes
  str_at c path api = mkpath uri path >>= λ p. str_call c (λ conn. api conn (some p))

  abbrev vec_at :
      CfgClient
      → List Bytes
      → (Conn → Option Bytes → Error L → Outcome (Returned L (Option (Lib.Vector L))))
      → Method (List Bytes)
  vec_at c path api = mkpath uri path >>= λ p.
      on_conn c (callvecapi L elements (api c.conn (some p) (fresh_error L)))

  abbrev map_at :
      CfgClient
      → List Bytes
      → (Conn → Option Bytes → Error L → Outcome (Returned L (Option (Lib.Map L))))
      → Method (List (Bytes × Bytes))
  map_at c path api = mkpath uri path >>= λ p.
      on_conn c (callmapapi L entries (api c.conn (some p) (fresh_error L)))

  abbrev done : ℤ → Unit {0}
  done n = tt

  unfoldable pub session_exists : CfgClient → Method Bool
  session_exists c = then_as (int_call c (configd_sess_exists L json_pack ask)) is_one

  -- The session before is the one that the object remembers.
  unfoldable pub session_attach : CfgClient → Bytes → Method Unit
  session_attach c sessid =
      session_exists (record c { conn = set_session_id c.conn sessid }) >>= λ e.
      let back : CfgClient = record e.1 { conn = set_session_id e.1.conn e.1.sessionid } in
      elim e.0 [
        | thrown msg ↦ value (thrown msg, back)
        | returned found ↦ elim found [
          | true ↦ value (returned tt, record e.1 { sessionid = sessid })
          | false ↦ value (thrown (str "session " ++ (sessid ++ str " does not exist")), back)
        ]
      ]

  -- The course of `SessionSetup` and `SessionSetupShared`.
  abbrev set_up : (Conn → Error L → Outcome (Returned L ℤ)) → CfgClient → Bytes → Method Unit
  set_up api c [] = value (thrown (str "must specify a session identifier"), c)
  set_up api c (b ∷ sid) =
      int_call (record c { conn = set_session_id c.conn (b ∷ sid) }) api >>= λ e. elim e.0 [
        | thrown msg ↦ value (thrown msg, e.1)
        | returned n ↦ value (returned tt, record e.1 { sessionid = b ∷ sid })
      ]

  unfoldable pub session_setup : CfgClient → Bytes → Method Unit
  session_setup = set_up (configd_sess_setup L json_pack ask)

  unfoldable pub session_setup_shared : CfgClient → Bytes → Method Unit
  session_setup_shared = set_up (configd_sess_setup_shared L json_pack ask)

  unfoldable pub session_teardown : CfgClient → Method Unit
  session_teardown c = then_as (int_call c (configd_sess_teardown L json_pack ask)) done

  unfoldable pub session_changed : CfgClient → Method Bool
  session_changed c = then_as (int_call c (configd_sess_changed L json_pack ask)) is_one

  unfoldable pub session_saved : CfgClient → Method Bool
  session_saved c = then_as (int_call c (configd_sess_saved L json_pack ask)) is_one

  unfoldable pub session_mark_saved : CfgClient → Method Unit
  session_mark_saved c = then_as (int_call c (configd_sess_mark_saved L json_pack ask)) done

  unfoldable pub session_mark_unsaved : CfgClient → Method Unit
  session_mark_unsaved c = then_as (int_call c (configd_sess_mark_unsaved L json_pack ask)) done

  unfoldable pub session_locked : CfgClient → Method Bool
  session_locked c = then_as (int_call c (configd_sess_locked L json_pack ask)) is_true

  unfoldable pub session_lock : CfgClient → Method Unit
  session_lock c = then_as (int_call c (configd_sess_lock L json_pack ask)) done

  unfoldable pub session_unlock : CfgClient → Method Unit
  session_unlock c = then_as (int_call c (configd_sess_unlock L json_pack ask)) done

  unfoldable pub set : CfgClient → List Bytes → Method Bytes
  set c path = str_at c path (configd_set L json_pack ask)

  unfoldable pub delete : CfgClient → List Bytes → Method Bytes
  delete c path = str_at c path (configd_delete L json_pack ask)

  unfoldable pub validate_path : CfgClient → List Bytes → Method Bytes
  validate_path c path = str_at c path (configd_validate_path L json_pack ask)

  unfoldable pub commit : CfgClient → Bytes → Method Bytes
  commit c comment = str_call c (λ conn. configd_commit L json_pack ask conn (some comment))

  unfoldable pub discard : CfgClient → Method Bytes
  discard c = str_call c (configd_discard L json_pack ask)

  unfoldable pub validate : CfgClient → Method Bytes
  validate c = str_call c (configd_validate L json_pack ask)

  unfoldable pub validate_config : CfgClient → Bytes → Bytes → Method Bytes
  validate_config c encoding config =
      tested_call c
        (λ conn. configd_validate_config L json_pack ask conn (some encoding) (some config))

  unfoldable pub save : CfgClient → Method Bytes
  save c = tested_call c (λ conn. configd_save L json_pack ask create_sep decimal conn none)

  unfoldable pub load : CfgClient → Bytes → Method Bool
  load c file = then_as (int_call c (λ conn. configd_load L json_pack ask conn (some file))) is_one

  unfoldable pub merge : CfgClient → Bytes → Method Bool
  merge c file =
      then_as (int_call c (λ conn. configd_merge L json_pack ask conn (some file))) is_one

  unfoldable pub template_get : CfgClient → List Bytes → Method (List (Bytes × Bytes))
  template_get c path = map_at c path (configd_tmpl_get L json_pack ask)

  unfoldable pub template_get_children : CfgClient → List Bytes → Method (List Bytes)
  template_get_children c path = vec_at c path (configd_tmpl_get_children L json_pack ask)

  unfoldable pub template_get_allowed : CfgClient → List Bytes → Method (List Bytes)
  template_get_allowed c path = vec_at c path (configd_tmpl_get_allowed L json_pack ask)

  unfoldable pub template_validate_path : CfgClient → List Bytes → Method Bool
  template_validate_path c path =
      then_as (int_at c path (configd_tmpl_validate_path L json_pack ask)) is_true

  unfoldable pub template_validate_values : CfgClient → List Bytes → Method Bool
  template_validate_values c path =
      then_as (int_at c path (configd_tmpl_validate_values L json_pack ask)) is_true

  unfoldable pub get_features : CfgClient → Method (List (Bytes × List Bytes))
  get_features c =
      then_as
        (on_conn c
          (callmapapi L entries (configd_get_features L json_pack ask c.conn (fresh_error L))))
        split_values

  unfoldable pub get_help : CfgClient → List Bytes → Bool → Method (List (Bytes × Bytes))
  get_help c path from_schema =
      map_at c path (λ conn p err. configd_get_help L json_pack ask conn from_schema p err)

  unfoldable pub node_exists : CfgClient → ℕ → List Bytes → Method Bool
  node_exists c db path =
      then_as
        (int_at c path (λ conn p err. configd_node_exists L json_pack ask conn (pos db) p err))
        is_true

  unfoldable pub node_is_default : CfgClient → ℕ → List Bytes → Method Bool
  node_is_default c db path =
      then_as
        (int_at c path (λ conn p err. configd_node_is_default L json_pack ask conn (pos db) p err))
        is_true

  unfoldable pub node_get : CfgClient → ℕ → List Bytes → Method (List Bytes)
  node_get c db path =
      vec_at c path (λ conn p err. configd_node_get L json_pack ask conn (pos db) p err)

  unfoldable pub node_get_status : CfgClient → ℕ → List Bytes → Method ℤ
  node_get_status c db path =
      int_at c path (λ conn p err. configd_node_get_status L json_pack ask conn (pos db) p err)

  unfoldable pub node_get_type : CfgClient → List Bytes → Method ℤ
  node_get_type c path = int_at c path (configd_node_get_type L json_pack ask)

  unfoldable pub tree_get_encoding : CfgClient → ℕ → List Bytes → Bytes → Method Bytes
  tree_get_encoding c db path encoding =
      str_at c path (λ conn p err.
        configd_tree_get_encoding L json_pack ask conn (pos db) p (some encoding) err)

  unfoldable pub tree_get_full_encoding : CfgClient → ℕ → List Bytes → Bytes → Method Bytes
  tree_get_full_encoding c db path encoding = str_at c path (λ conn p err.
      configd_tree_get_full_encoding L json_pack ask conn (pos db) p (some encoding) err)

  unfoldable pub tree_get : CfgClient → ℕ → List Bytes → Method Bytes
  tree_get c db path =
      str_at c path (λ conn p err. configd_tree_get L json_pack ask conn (pos db) p err)

  unfoldable pub tree_get_xml : CfgClient → ℕ → List Bytes → Method Bytes
  tree_get_xml c db path =
      str_at c path (λ conn p err. configd_tree_get_xml L json_pack ask conn (pos db) p err)

  unfoldable pub tree_get_internal : CfgClient → ℕ → List Bytes → Method Bytes
  tree_get_internal c db path =
      str_at c path (λ conn p err. configd_tree_get_internal L json_pack ask conn (pos db) p err)

  unfoldable pub tree_get_full : CfgClient → ℕ → List Bytes → Method Bytes
  tree_get_full c db path =
      str_at c path (λ conn p err. configd_tree_get_full L json_pack ask conn (pos db) p err)

  unfoldable pub tree_get_full_xml : CfgClient → ℕ → List Bytes → Method Bytes
  tree_get_full_xml c db path =
      str_at c path (λ conn p err. configd_tree_get_full_xml L json_pack ask conn (pos db) p err)

  unfoldable pub tree_get_full_internal : CfgClient → ℕ → List Bytes → Method Bytes
  tree_get_full_internal c db path =
      str_at c path
        (λ conn p err. configd_tree_get_full_internal L json_pack ask conn (pos db) p err)

  unfoldable pub call_rpc : CfgClient → Bytes → Bytes → Bytes → Method Bytes
  call_rpc c ns name input =
      tested_call c
        (λ conn. configd_call_rpc L json_pack ask conn (some ns) (some name) (some input))

  unfoldable pub call_rpc_xml : CfgClient → Bytes → Bytes → Bytes → Method Bytes
  call_rpc_xml c ns name input =
      tested_call c
        (λ conn. configd_call_rpc_xml L json_pack ask conn (some ns) (some name) (some input))

  unfoldable pub edit_config_xml : CfgClient → Bytes → Bytes → Bytes → Bytes → Bytes → Method Bytes
  edit_config_xml c target default_operation test_option error_option config =
      tested_call c (λ conn.
        configd_edit_config_xml L json_pack ask conn (some target) (some default_operation)
          (some test_option) (some error_option) (some config))

  unfoldable pub copy_config :
      CfgClient → Bytes → Bytes → Bytes → Bytes → Bytes → Bytes → Method Bytes
  copy_config c source_datastore source_encoding source_config source_url target_datastore
        target_url =
      tested_call c (λ conn.
        configd_copy_config L json_pack ask conn (some source_datastore) (some source_encoding)
          (some source_config) (some source_url) (some target_datastore) (some target_url))
