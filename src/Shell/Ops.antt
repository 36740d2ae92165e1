-- ===== src/Shell/Ops.antt =====
-- The operations of src/cli_shell_api.cpp, each on the connection and its arguments.
use vyatta_cfg.Client.Calls.{
  configd_sess_exists, configd_sess_changed, configd_sess_saved, configd_sess_setup,
  configd_sess_setup_shared, configd_sess_teardown, configd_sess_mark_saved,
  configd_sess_mark_unsaved, configd_node_exists, configd_node_get, configd_node_get_type,
  configd_tmpl_get, configd_tmpl_get_allowed, configd_tmpl_validate_path,
  configd_tmpl_validate_values, configd_tree_get, configd_file_migrate,
}
use vyatta_cfg.Client.Commit.{
  configd_show, configd_load, configd_load_report_warnings, configd_merge, configd_save,
}
use vyatta_cfg.Client.Edit.{spaced_words, configd_sess_get_env, configd_edit_get_env}
use vyatta_cfg.Client.{Arg, Conn, Returned}
use vyatta_cfg.Completion
use vyatta_cfg.Mgmt.{ConfigdError}
use vyatta_cfg.Prelude.Integer.{ℤ, pos, negsuc}
use vyatta_cfg.Prelude.Outcome.{Outcome, value, undefined, ◌>>=◌}
use vyatta_cfg.Prelude.{
  ℕ, zero, suc, ◌+◌, Bool, true, false, not, ◌&&◌, ◌||◌, List, [], ◌∷◌, ◌++◌, Option, none, some,
  Bytes, str, str_eq, ◌==◌, if◌then◌else◌,
}
use vyatta_cfg.Rpc.{Lib, Exchange, Error}
use vyatta_cfg.Shell.{Outside, Environment, Options, Ran}

abbrev pub returned : Bytes → Ran
returned s = record { out = s; err = []; success = true }

abbrev pub failed : Bytes → Bytes → Ran
failed out err = record { out = out; err = err; success = false }

-- An operation that only ends with a status.
abbrev pub status : Bool → Ran
status b = record { out = []; err = []; success = b }

abbrev pub is_int : ℕ → ℤ → Bool
is_int n (pos m) = m == n
is_int n (negsuc m) = false

abbrev pub not_failed : ℤ → Bool
not_failed (negsuc zero) = false
not_failed _ = true

-- An `int` as a condition.
abbrev pub truth : ℤ → Bool
truth (pos zero) = false
truth _ = true

-- The values as words in single quotes, with a space between each two.
unfoldable pub quoted_list : List Bytes → Bytes
quoted_list [] = []
quoted_list (s ∷ []) = str "'" ++ (s ++ str "'")
quoted_list (s ∷ t ∷ ss) = str "'" ++ (s ++ (str "' " ++ quoted_list (t ∷ ss)))

-- `EDIT_FMT`
unfoldable pub edit_text : Bytes → Bytes → Bytes → Bytes
edit_text level space words =
    str "export VYATTA_EDIT_LEVEL='"
    ++ (level ++ (str "'; export PS1='[edit" ++ (space ++ (words ++ str "]\\n\\u@\\h# ';"))))

abbrev flag_of : Bool → ℕ → ℕ
flag_of true n = n
flag_of false n = 0

unfoldable pub get_show_flags : Options → ℕ
get_show_flags o =
    flag_of o.show_defaults 1
    + (flag_of o.hide_secrets 2
        + (flag_of o.context_diff 4 + (flag_of o.commands 8 + flag_of o.ignore_edit 16)))

abbrev pub active_cfg : Bytes
active_cfg = str "@ACTIVE"

abbrev pub working_cfg : Bytes
working_cfg = str "@WORKING"

module _ (L : Lib) (json_pack : List Arg → Option (Lib.Json L))
    (ask : Bytes → Lib.Json L → ℕ → Exchange L) (O : Outside L) (env : Environment)
    (opts : Options) where
  abbrev blank_error : ConfigdError (Lib.Map L)
  blank_error = record { text = none; source = none; is_mgmt_error = false; mgmt_errs = none }

  abbrev error_text : Error L → Option Bytes
  error_text none = none
  error_text (some e) = e.text

  -- The text of an error on a line, where there is one.
  abbrev error_line : Error L → Bytes
  error_line e = elim (error_text e) [ none ↦ [] | some s ↦ s ++ str "\n" ]

  -- A call whose number decides the status.
  abbrev int_op : Outcome (Returned L ℤ) → (ℤ → Bool) → Outcome Ran
  int_op o good = do r ← o; value (status (good r.0))

  -- A call whose text is printed, with what is behind it.
  abbrev str_op : Outcome (Returned L (Option Bytes)) → Bytes → Outcome Ran
  str_op o tail = do r ← o; value (elim r.0 [ none ↦ status false | some s ↦ returned (s ++ tail) ])

  unfoldable pub get_session_env : Conn → Option Bytes → Outcome Ran
  get_session_env conn args =
      let named : Conn = elim args [
        | none ↦ conn
        | some sid ↦ record conn { session_id = some sid }
      ] in
      value (returned (configd_sess_get_env named))

  unfoldable pub get_edit_env : Conn → Bytes → Outcome Ran
  get_edit_env conn args = do
    r ← configd_edit_get_env L json_pack ask O.create_sep conn args (some blank_error)
    value (elim r.0 [
      | some s ↦ returned s
      | none ↦ failed [] (elim (error_text r.1) [ none ↦ str "(null)\n" | some s ↦ s ++ str "\n" ])
    ])

  abbrev edit_words : Bytes → Bytes
  edit_words parent = spaced_words (O.create_sep b'/' parent)

  -- What `getEditUpEnv` prints for a parent and its words.
  abbrev up_text : Bytes → Ran
  up_text parent = returned (elim (edit_words parent) [
    | [] ↦ edit_text parent [] []
    | c ∷ s ↦ edit_text parent (str " ") (c ∷ s)
  ])

  unfoldable pub get_edit_up_env : Conn → Outcome Ran
  get_edit_up_env conn = elim env.edit_level [
    | none ↦ value (status false)
    | some level ↦ elim (str_eq level (str "/")) [
      | true ↦ value (failed [] (str "Already at the top level\n"))
      | false ↦
          let parent = O.dirname level in
          configd_node_get_type L json_pack ask conn (some (edit_words parent)) none >>= λ r.
          value (if is_int 3 r.0 then up_text (O.dirname parent) else up_text parent)
    ]
  ]

  unfoldable pub get_edit_reset_env : Outcome Ran
  get_edit_reset_env = value (returned (edit_text (str "/") [] []))

  unfoldable pub edit_level_at_root : Outcome Ran
  edit_level_at_root =
      value (status (elim env.edit_level [ none ↦ false | some level ↦ str_eq level (str "/") ]))

  -- `configd_node_get_complete_env` of src/client/node.c, and what is printed of it.
  unfoldable pub get_completion_env : Conn → Option Bytes → Outcome Ran
  get_completion_env conn none = value (status false)
  get_completion_env conn (some args) = do
    r ←
        Completion.get_completion_env L json_pack ask O.uri O.create_sep O.entries O.elements conn
          args
    value (elim r.0 [ none ↦ status false | some s ↦ returned s ])

  -- The level is read from its second byte on.
  unfoldable pub get_edit_level_str : Outcome Ran
  get_edit_level_str = elim env.edit_level [
    | none ↦ value (status false)
    | some [] ↦ undefined
    | some (c ∷ s) ↦ value (returned (spaced_words (O.create_sep b'/' s)))
  ]

  unfoldable pub mark_session_unsaved : Conn → Outcome Ran
  mark_session_unsaved conn =
      int_op (configd_sess_mark_unsaved L json_pack ask conn none) (is_int 0)

  unfoldable pub unmark_session_unsaved : Conn → Outcome Ran
  unmark_session_unsaved conn =
      int_op (configd_sess_mark_saved L json_pack ask conn none) (is_int 0)

  unfoldable pub session_unsaved : Conn → Outcome Ran
  session_unsaved conn = int_op (configd_sess_saved L json_pack ask conn none) (is_int 0)

  unfoldable pub session_changed : Conn → Outcome Ran
  session_changed conn = int_op (configd_sess_changed L json_pack ask conn none) (is_int 1)

  unfoldable pub teardown_session : Conn → Outcome Ran
  teardown_session conn = int_op (configd_sess_teardown L json_pack ask conn none) not_failed

  unfoldable pub setup_session : Conn → Outcome Ran
  setup_session conn = int_op (configd_sess_setup L json_pack ask conn none) not_failed

  unfoldable pub setup_shared_session : Conn → Outcome Ran
  setup_shared_session conn =
      int_op (configd_sess_setup_shared L json_pack ask conn none) not_failed

  unfoldable pub in_session : Conn → Outcome Ran
  in_session conn = int_op (configd_sess_exists L json_pack ask conn none) (is_int 1)

  abbrev exists_in : ℕ → Conn → Option Bytes → Outcome Ran
  exists_in db conn args =
      int_op (configd_node_exists L json_pack ask conn (pos db) args none) (is_int 1)

  unfoldable pub exists : Conn → Option Bytes → Outcome Ran
  exists = exists_in 2

  unfoldable pub exists_active : Conn → Option Bytes → Outcome Ran
  exists_active = exists_in 1

  unfoldable pub exists_effective : Conn → Option Bytes → Outcome Ran
  exists_effective = exists_in 3

  abbrev type_is : ℕ → Conn → Option Bytes → Outcome Ran
  type_is t conn args = int_op (configd_node_get_type L json_pack ask conn args none) (is_int t)

  unfoldable pub is_multi : Conn → Option Bytes → Outcome Ran
  is_multi = type_is 1

  unfoldable pub is_tag : Conn → Option Bytes → Outcome Ran
  is_tag = type_is 3

  unfoldable pub is_leaf : Conn → Option Bytes → Outcome Ran
  is_leaf = type_is 0

  -- Is the entry of the template "1"?
  abbrev entry_is_one : Bytes → Conn → Option Bytes → Outcome Ran
  entry_is_one key conn args = do
    r ← configd_tmpl_get L json_pack ask conn args none
    value (
        status (elim r.0 [
          | none ↦ false
          | some m ↦ elim (Lib.map_get L m key) [ none ↦ false | some v ↦ str_eq v (str "1") ]
        ]))

  unfoldable pub is_value : Conn → Option Bytes → Outcome Ran
  is_value = entry_is_one (str "is_value")

  unfoldable pub is_secret : Conn → Option Bytes → Outcome Ran
  is_secret = entry_is_one (str "secret")

  unfoldable pub get_node_type : Conn → Option Bytes → Outcome Ran
  get_node_type conn args = do
    r ← configd_node_get_type L json_pack ask conn args none
    value (elim r.0 [
      | pos zero ↦ returned (str "leaf")
      | pos (suc zero) ↦ returned (str "multi")
      | pos (suc (suc zero)) ↦ returned (str "non-leaf")
      | pos (suc (suc (suc zero))) ↦ returned (str "tag")
      | _ ↦ status false
    ])

  -- `list_nodes`
  unfoldable pub list_nodes_of : ℕ → Conn → Option Bytes → Outcome Ran
  list_nodes_of db conn args = do
    r ← configd_node_get L json_pack ask conn (pos db) args none
    value (elim r.0 [ none ↦ status false | some v ↦ returned (quoted_list (O.elements v)) ])

  unfoldable pub return_value : Conn → Option Bytes → Outcome Ran
  return_value conn args = do
    r ← configd_node_get L json_pack ask conn (pos 2) args none
    value (elim r.0 [
      | none ↦ status false
      | some v ↦ elim (O.elements v) [ [] ↦ status false | s ∷ ss ↦ returned s ]
    ])

  unfoldable pub validate_tmpl_path : Conn → Option Bytes → Outcome Ran
  validate_tmpl_path conn args =
      int_op (configd_tmpl_validate_path L json_pack ask conn args none) (is_int 1)

  unfoldable pub validate_tmpl_val_path : Conn → Option Bytes → Outcome Ran
  validate_tmpl_val_path conn args =
      int_op (configd_tmpl_validate_values L json_pack ask conn args none) (is_int 1)

  unfoldable pub get_tmpl_allowed : Conn → Option Bytes → Outcome Ran
  get_tmpl_allowed conn args = do
    r ← configd_tmpl_get_allowed L json_pack ask conn args (some blank_error)
    value (elim r.0 [
      | none ↦ failed (error_line r.1) []
      | some v ↦ returned (quoted_list (O.elements v))
    ])

  -- The array has one pointer, and gets one for each argument and one at the end.
  unfoldable pub get_schema : Conn → Option Bytes → Outcome Ran
  get_schema conn none = undefined
  get_schema conn (some args) = elim (O.create_sep 32 args) [
    | [] ↦ value (status false)
    | a ∷ others ↦ undefined
  ]

  unfoldable pub show_cfg : Conn → Option Bytes → Outcome Ran
  show_cfg conn args = configd_sess_exists L json_pack ask conn none >>= λ e.
      let exists_now = truth e.0 in
      if not exists_now || opts.active_only
      then str_op
          (configd_show L json_pack ask e.2 (pos 1) args (some active_cfg) (some active_cfg)
            (get_show_flags opts) none)
          []
      else if exists_now && opts.working_only
      then str_op
          (configd_show L json_pack ask e.2 (pos 2) args (some working_cfg) (some working_cfg)
            (get_show_flags opts) none)
          []
      else str_op
          (configd_show L json_pack ask e.2 (pos 2) args (some active_cfg) (some working_cfg)
            (get_show_flags opts) none)
          []

  -- The two configurations of `showConfig`.
  abbrev shown : Bytes × Bytes
  shown =
      if opts.active_only
      then (active_cfg, active_cfg)
      else if opts.working_only
      then (working_cfg, working_cfg)
      else elim opts.cfg1 [
        | none ↦ (active_cfg, working_cfg)
        | some a ↦ elim opts.cfg2 [ none ↦ (active_cfg, working_cfg) | some b ↦ (a, b) ]
      ]

  unfoldable pub show_config : Conn → Option Bytes → Outcome Ran
  show_config conn args = do
    e ← configd_sess_exists L json_pack ask conn none
    str_op
        (configd_show L json_pack ask e.2 (pos (if truth e.0 then 2 else 1)) args (some shown.0)
          (some shown.1) (get_show_flags opts) none)
        []

  -- A file that is read: on any answer but 1 the text of the error is printed.
  abbrev file_op : Outcome (Returned L ℤ) → Bool → Outcome Ran
  file_op o report = do
    r ← o
    value (
        if is_int 1 r.0
        then returned (if report then error_line r.1 else [])
        else failed (error_line r.1) [])

  unfoldable pub load_file : Conn → Option Bytes → Outcome Ran
  load_file conn args = file_op (configd_load L json_pack ask conn args (some blank_error)) false

  unfoldable pub load_file_report_warnings : Conn → Option Bytes → Outcome Ran
  load_file_report_warnings conn args =
      file_op (configd_load_report_warnings L json_pack ask conn args (some blank_error)) true

  unfoldable pub merge_file : Conn → Option Bytes → Outcome Ran
  merge_file conn args = file_op (configd_merge L json_pack ask conn args (some blank_error)) false

  unfoldable pub save_config : Conn → Option Bytes → Outcome Ran
  save_config conn args = do
    r ← configd_save L json_pack ask O.create_sep O.decimal conn args (some blank_error)
    value (elim r.0 [ none ↦ failed (error_line r.1) [] | some s ↦ returned s ])

  abbrev tree_op : ℕ → Conn → Option Bytes → Outcome Ran
  tree_op db conn args =
      str_op (configd_tree_get L json_pack ask conn (pos db) args none) (str "\n")

  unfoldable pub get_tree : Conn → Option Bytes → Outcome Ran
  get_tree = tree_op 2

  unfoldable pub get_active_tree : Conn → Option Bytes → Outcome Ran
  get_active_tree = tree_op 1

  unfoldable pub migrate_file : Conn → Option Bytes → Outcome Ran
  migrate_file conn args = do
    r ← configd_file_migrate L json_pack ask conn args (some blank_error)
    value (elim r.0 [
      | none ↦ failed [] (elim (error_text r.1) [ none ↦ str "Migration failed\n" | some s ↦ s ])
      | some s ↦ returned s
    ])
