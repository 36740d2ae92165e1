-- ===== src/Client/Calls.antt =====
-- The remote calls of src/client/session.c, node.c, template.c, callrpc.c, auth.c and file.c.
use vyatta_cfg.Client.{
  Arg, text, number, flag, options, Conn, Returned, call_int, call_inverted, call_str, call_vector,
  call_map,
}
use vyatta_cfg.Prelude.Integer.{ℤ, pos, to_int}
use vyatta_cfg.Prelude.Outcome.{Outcome}
use vyatta_cfg.Prelude.{ℕ, ◌/◌, ◌%◌, Bool, List, [], ◌∷◌, Option, none, some, Bytes, str, ◌==◌}
use vyatta_cfg.Rpc.{Lib, Exchange, Error}

module _ (L : Lib) (json_pack : List Arg → Option (Lib.Json L))
    (ask : Bytes → Lib.Json L → ℕ → Exchange L) where
  -- The calls whose only argument is the session, and that return what `get_int` returns.
  abbrev session_call : Bytes → Bytes → Conn → Error L → Outcome (Returned L ℤ)
  session_call source fn conn error =
      call_int L json_pack ask conn source fn (text conn.session_id ∷ []) error

  -- Those that return the negation of the answer.
  abbrev inverted_call : Bytes → Bytes → Conn → Error L → Outcome (Returned L ℤ)
  inverted_call source fn conn error =
      call_inverted L json_pack ask conn source fn (text conn.session_id ∷ []) error

  unfoldable pub configd_sess_exists : Conn → Error L → Outcome (Returned L ℤ)
  configd_sess_exists = session_call (str "configd_sess_exists") (str "SessionExists")

  unfoldable pub configd_sess_lock : Conn → Error L → Outcome (Returned L ℤ)
  configd_sess_lock = session_call (str "configd_sess_lock") (str "SessionLock")

  unfoldable pub configd_sess_unlock : Conn → Error L → Outcome (Returned L ℤ)
  configd_sess_unlock = session_call (str "configd_sess_unlock") (str "SessionUnlock")

  unfoldable pub configd_sess_locked : Conn → Error L → Outcome (Returned L ℤ)
  configd_sess_locked = session_call (str "configd_sess_locked") (str "SessionLocked")

  unfoldable pub configd_sess_changed : Conn → Error L → Outcome (Returned L ℤ)
  configd_sess_changed = session_call (str "configd_sess_changed") (str "SessionChanged")

  unfoldable pub configd_sess_saved : Conn → Error L → Outcome (Returned L ℤ)
  configd_sess_saved = session_call (str "configd_sess_saved") (str "SessionSaved")

  unfoldable pub configd_sess_setup : Conn → Error L → Outcome (Returned L ℤ)
  configd_sess_setup = inverted_call (str "_configd_sess_setup") (str "SessionSetup")

  unfoldable pub configd_sess_setup_shared : Conn → Error L → Outcome (Returned L ℤ)
  configd_sess_setup_shared = inverted_call (str "_configd_sess_setup") (str "SessionSetupShared")

  unfoldable pub configd_sess_teardown : Conn → Error L → Outcome (Returned L ℤ)
  configd_sess_teardown = inverted_call (str "configd_sess_teardown") (str "SessionTeardown")

  unfoldable pub configd_sess_mark_saved : Conn → Error L → Outcome (Returned L ℤ)
  configd_sess_mark_saved = inverted_call (str "configd_sess_mark_saved") (str "SessionMarkSaved")

  unfoldable pub configd_sess_mark_unsaved : Conn → Error L → Outcome (Returned L ℤ)
  configd_sess_mark_unsaved =
      inverted_call (str "configd_sess_mark_unsaved") (str "SessionMarkUnsaved")

  unfoldable pub configd_get_help :
      Conn → Bool → Option Bytes → Error L → Outcome (Returned L (Option (Lib.Map L)))
  configd_get_help conn from_schema cpath error =
      call_map L json_pack ask conn (str "configd_get_help") (str "GetHelp")
        (text conn.session_id ∷ flag from_schema ∷ text cpath ∷ []) error

  unfoldable pub configd_node_exists : Conn → ℤ → Option Bytes → Error L → Outcome (Returned L ℤ)
  configd_node_exists conn db cpath error =
      call_int L json_pack ask conn (str "configd_node_exists") (str "Exists")
        (number db ∷ text conn.session_id ∷ text cpath ∷ []) error

  unfoldable pub configd_node_is_default :
      Conn → ℤ → Option Bytes → Error L → Outcome (Returned L ℤ)
  configd_node_is_default conn db cpath error =
      call_int L json_pack ask conn (str "configd_node_is_default") (str "NodeIsDefault")
        (number db ∷ text conn.session_id ∷ text cpath ∷ []) error

  unfoldable pub configd_node_get :
      Conn → ℤ → Option Bytes → Error L → Outcome (Returned L (Option (Lib.Vector L)))
  configd_node_get conn db cpath error =
      call_vector L json_pack ask conn (str "configd_node_get") (str "Get")
        (number db ∷ text conn.session_id ∷ text cpath ∷ []) error

  unfoldable pub configd_node_get_status :
      Conn → ℤ → Option Bytes → Error L → Outcome (Returned L ℤ)
  configd_node_get_status conn db cpath error =
      call_int L json_pack ask conn (str "configd_node_get_status") (str "NodeGetStatus")
        (number db ∷ text conn.session_id ∷ text cpath ∷ []) error

  unfoldable pub configd_node_get_type : Conn → Option Bytes → Error L → Outcome (Returned L ℤ)
  configd_node_get_type conn cpath error =
      call_int L json_pack ask conn (str "configd_node_get_type") (str "NodeGetType")
        (text conn.session_id ∷ text cpath ∷ []) error

  unfoldable pub configd_node_get_comment :
      Conn → ℤ → Option Bytes → Error L → Outcome (Returned L (Option Bytes))
  configd_node_get_comment conn db cpath error =
      call_str L json_pack ask conn (str "configd_node_get_comment") (str "NodeGetComment")
        (number db ∷ text conn.session_id ∷ text cpath ∷ []) error

  -- The flags `CONFIGD_TREEGET_DEFAULTS`, 1, and `CONFIGD_TREEGET_SECRETS`, 2.
  abbrev has_bit : ℕ → ℕ → Bool
  has_bit bit flags = flags / bit % 2 == 1

  unfoldable pub configd_tree_get_fn_encoding :
      Conn
      → ℤ
      → Option Bytes
      → Option Bytes
      → Bytes
      → ℕ
      → Error L
      → Outcome (Returned L (Option Bytes))
  configd_tree_get_fn_encoding conn db path encoding get_fn flags error =
      call_str L json_pack ask conn (str "configd_tree_get_fn_encoding") get_fn
        (number db
          ∷ text conn.session_id
          ∷ text path
          ∷ text encoding
          ∷ options (has_bit 1 flags) (has_bit 2 flags)
          ∷ [])
        error

  unfoldable pub configd_tree_get_encoding_flags :
      Conn → ℤ → Option Bytes → Option Bytes → ℕ → Error L → Outcome (Returned L (Option Bytes))
  configd_tree_get_encoding_flags conn db path encoding flags error =
      configd_tree_get_fn_encoding conn db path encoding (str "TreeGet") (flags % 4) error

  unfoldable pub configd_tree_get_encoding :
      Conn → ℤ → Option Bytes → Option Bytes → Error L → Outcome (Returned L (Option Bytes))
  configd_tree_get_encoding conn db path encoding error =
      configd_tree_get_fn_encoding conn db path encoding (str "TreeGet") 3 error

  unfoldable pub configd_tree_get :
      Conn → ℤ → Option Bytes → Error L → Outcome (Returned L (Option Bytes))
  configd_tree_get conn db path error =
      configd_tree_get_encoding conn db path (some (str "json")) error

  unfoldable pub configd_tree_get_xml :
      Conn → ℤ → Option Bytes → Error L → Outcome (Returned L (Option Bytes))
  configd_tree_get_xml conn db path error =
      configd_tree_get_encoding conn db path (some (str "xml")) error

  unfoldable pub configd_tree_get_internal :
      Conn → ℤ → Option Bytes → Error L → Outcome (Returned L (Option Bytes))
  configd_tree_get_internal conn db path error =
      configd_tree_get_encoding conn db path (some (str "internal")) error

  unfoldable pub configd_tree_get_full_encoding_flags :
      Conn → ℤ → Option Bytes → Option Bytes → ℕ → Error L → Outcome (Returned L (Option Bytes))
  configd_tree_get_full_encoding_flags conn db path encoding flags error =
      configd_tree_get_fn_encoding conn db path encoding (str "TreeGetFull") (flags % 4) error

  unfoldable pub configd_tree_get_full_encoding :
      Conn → ℤ → Option Bytes → Option Bytes → Error L → Outcome (Returned L (Option Bytes))
  configd_tree_get_full_encoding conn db path encoding error =
      configd_tree_get_fn_encoding conn db path encoding (str "TreeGetFull") 3 error

  unfoldable pub configd_tree_get_full :
      Conn → ℤ → Option Bytes → Error L → Outcome (Returned L (Option Bytes))
  configd_tree_get_full conn db path error =
      configd_tree_get_full_encoding conn db path (some (str "json")) error

  unfoldable pub configd_tree_get_full_xml :
      Conn → ℤ → Option Bytes → Error L → Outcome (Returned L (Option Bytes))
  configd_tree_get_full_xml conn db path error =
      configd_tree_get_full_encoding conn db path (some (str "xml")) error

  unfoldable pub configd_tree_get_full_internal :
      Conn → ℤ → Option Bytes → Error L → Outcome (Returned L (Option Bytes))
  configd_tree_get_full_internal conn db path error =
      configd_tree_get_full_encoding conn db path (some (str "internal")) error

  unfoldable pub configd_schema_get :
      Conn → Option Bytes → Option Bytes → Error L → Outcome (Returned L (Option Bytes))
  configd_schema_get conn name fmt error =
      call_str L json_pack ask conn (str "configd_schema_get") (str "SchemaGet")
        (text name ∷ text fmt ∷ []) error

  unfoldable pub configd_get_schemas : Conn → Error L → Outcome (Returned L (Option Bytes))
  configd_get_schemas conn error =
      call_str L json_pack ask conn (str "configd_get_schemas") (str "GetSchemas") ([]) error

  unfoldable pub configd_get_features : Conn → Error L → Outcome (Returned L (Option (Lib.Map L)))
  configd_get_features conn error =
      call_map L json_pack ask conn (str "configd_get_features") (str "GetFeatures") ([]) error

  unfoldable pub configd_tmpl_get :
      Conn → Option Bytes → Error L → Outcome (Returned L (Option (Lib.Map L)))
  configd_tmpl_get conn cpath error =
      call_map L json_pack ask conn (str "configd_tmpl_get") (str "TmplGet") (text cpath ∷ []) error

  unfoldable pub configd_tmpl_get_children :
      Conn → Option Bytes → Error L → Outcome (Returned L (Option (Lib.Vector L)))
  configd_tmpl_get_children conn cpath error =
      call_vector L json_pack ask conn (str "configd_tmpl_get_children") (str "TmplGetChildren")
        (text cpath ∷ []) error

  -- The session, or `RUNNING`.
  unfoldable pub configd_tmpl_get_allowed :
      Conn → Option Bytes → Error L → Outcome (Returned L (Option (Lib.Vector L)))
  configd_tmpl_get_allowed conn cpath error =
      let sid : Bytes = elim conn.session_id [ none ↦ str "RUNNING" | some s ↦ s ] in
      call_vector L json_pack ask conn (str "configd_tmpl_get_allowed") (str "TmplGetAllowed")
        (text (some sid) ∷ text cpath ∷ []) error

  unfoldable pub configd_tmpl_validate_path : Conn → Option Bytes → Error L → Outcome (Returned L ℤ)
  configd_tmpl_validate_path conn cpath error =
      call_int L json_pack ask conn (str "configd_tmpl_validate_path") (str "TmplValidatePath")
        (text cpath ∷ []) error

  unfoldable pub configd_tmpl_validate_values :
      Conn → Option Bytes → Error L → Outcome (Returned L ℤ)
  configd_tmpl_validate_values conn cpath error =
      call_int L json_pack ask conn (str "configd_tmpl_validate_values") (str "TmplValidateValues")
        (text cpath ∷ []) error

  unfoldable pub call_rpc :
      Conn
      → Bytes
      → Option Bytes
      → Option Bytes
      → Option Bytes
      → Error L
      → Outcome (Returned L (Option Bytes))
  call_rpc conn encoding ns name input error =
      call_str L json_pack ask conn (str "call_rpc") (str "CallRpc")
        (text ns ∷ text name ∷ text input ∷ text (some encoding) ∷ []) error

  unfoldable pub configd_call_rpc :
      Conn
      → Option Bytes
      → Option Bytes
      → Option Bytes
      → Error L
      → Outcome (Returned L (Option Bytes))
  configd_call_rpc conn ns name input error = call_rpc conn (str "json") ns name input error

  unfoldable pub configd_call_rpc_xml :
      Conn
      → Option Bytes
      → Option Bytes
      → Option Bytes
      → Error L
      → Outcome (Returned L (Option Bytes))
  configd_call_rpc_xml conn ns name input error = call_rpc conn (str "xml") ns name input error

  unfoldable pub configd_auth_getperms : Conn → Error L → Outcome (Returned L (Option (Lib.Map L)))
  configd_auth_getperms conn error =
      call_map L json_pack ask conn (str "configd_auth_getperms") (str "AuthGetPerms") [] error

  -- The permission is an `unsigned int`, and packed as an `int`.
  unfoldable pub configd_auth_authorized :
      Conn → Option Bytes → ℕ → Error L → Outcome (Returned L ℤ)
  configd_auth_authorized conn cpath perm error =
      call_int L json_pack ask conn (str "configd_auth_authorized") (str "AuthAuthorize")
        (text cpath ∷ number (to_int (pos perm)) ∷ []) error

  unfoldable pub configd_file_read :
      Conn → Option Bytes → Error L → Outcome (Returned L (Option Bytes))
  configd_file_read conn filename error =
      call_str L json_pack ask conn (str "configd_file_read") (str "ReadConfigFile")
        (text filename ∷ []) error

  unfoldable pub configd_file_migrate :
      Conn → Option Bytes → Error L → Outcome (Returned L (Option Bytes))
  configd_file_migrate conn filename error =
      call_str L json_pack ask conn (str "configd_file_migrate") (str "MigrateConfigFile")
        (text filename ∷ []) error
