-- ===== src/Shell/Program.antt =====
-- `main` of src/cli_shell_api.cpp behind the options.
use vyatta_cfg.Client.Edit.{spaced_words}
use vyatta_cfg.Client.{Arg, Conn}
use vyatta_cfg.Prelude.Outcome.{Outcome, value, undefined}
use vyatta_cfg.Prelude.{
  ℕ, Bool, true, false, not, ◌&&◌, List, [], ◌∷◌, ◌++◌, Option, none, some, Bytes, str, str_eq, ltb,
  length, ◌==◌, if◌then◌else◌,
}
use vyatta_cfg.Rpc.{Lib, Exchange}
use vyatta_cfg.Shell.Ops
use vyatta_cfg.Shell.Ops.{status, failed, returned}
use vyatta_cfg.Shell.{Outside, Environment, Options, Ran, Op, OpRow, ops}

-- The search in the table.
unfoldable pub find_op : Bytes → List OpRow → Option OpRow
find_op oname [] = none
find_op oname (row ∷ rows) =
    let rest = find_op oname rows in if str_eq oname row.name then some row else rest

-- The message for a wrong number of arguments, where there is one.
unfoldable pub wrong_args : OpRow → ℕ → Option Bytes
wrong_args row nargs =
    let few : Option Bytes = elim row.min_args [
      | none ↦ none
      | some n ↦ if ltb nargs n then some row.min_error else none
    ] in
    elim row.exact_args [ none ↦ few | some n ↦ if nargs == n then few else some row.exact_error ]

-- The operations that get their arguments as they are, with spaces between.
unfoldable pub as_text : Op → Bool → Bool
as_text Op.save_config args_as_path = true
as_text Op.load_file args_as_path = true
as_text Op.load_file_report_warnings args_as_path = true
as_text Op.show_cfg args_as_path = not args_as_path
as_text Op.show_config args_as_path = true
as_text Op.get_schema args_as_path = true
as_text Op.migrate_file args_as_path = true
as_text _ args_as_path = false

-- `argz_stringify` on arguments: none of them is a null pointer.
abbrev pub text_of : List Bytes → Option Bytes
text_of [] = none
text_of (a ∷ args) = some (spaced_words (a ∷ args))

-- The edit level in front of the arguments, or behind the first of them; `none` for a read of a null
-- pointer. The level counts where its first element is not empty.
unfoldable pub with_level : Bool → List Bytes → List Bytes → Option (List Bytes)
with_level insert_edit [] args = some args
with_level insert_edit ([] ∷ level) args = some args
with_level false ((c ∷ e) ∷ level) args = some (((c ∷ e) ∷ level) ++ args)
with_level true ((c ∷ e) ∷ level) [] = none
with_level true ((c ∷ e) ∷ level) (a ∷ args) = some (a ∷ (((c ∷ e) ∷ level) ++ args))

module _ (L : Lib) (json_pack : List Arg → Option (Lib.Json L))
    (ask : Bytes → Lib.Json L → ℕ → Exchange L) (O : Outside L) (env : Environment)
    (opts : Options) where
  abbrev given : Option Bytes → (Bytes → Outcome Ran) → Outcome Ran
  given none f = undefined
  given (some s) f = f s

  -- `OP_func`
  unfoldable pub op_func : Op → Conn → Option Bytes → Outcome Ran
  op_func Op.get_session_env conn args = Ops.get_session_env L json_pack ask O env opts conn args
  op_func Op.get_edit_env conn args =
      given args (λ s. Ops.get_edit_env L json_pack ask O env opts conn s)
  op_func Op.get_edit_up_env conn args = Ops.get_edit_up_env L json_pack ask O env opts conn
  op_func Op.get_edit_reset_env conn args = Ops.get_edit_reset_env L json_pack ask O env opts
  op_func Op.edit_level_at_root conn args = Ops.edit_level_at_root L json_pack ask O env opts
  op_func Op.get_completion_env conn args =
      Ops.get_completion_env L json_pack ask O env opts conn args
  op_func Op.get_edit_level_str conn args = Ops.get_edit_level_str L json_pack ask O env opts
  op_func Op.mark_session_unsaved conn args =
      Ops.mark_session_unsaved L json_pack ask O env opts conn
  op_func Op.unmark_session_unsaved conn args =
      Ops.unmark_session_unsaved L json_pack ask O env opts conn
  op_func Op.session_unsaved conn args = Ops.session_unsaved L json_pack ask O env opts conn
  op_func Op.session_changed conn args = Ops.session_changed L json_pack ask O env opts conn
  op_func Op.teardown_session conn args = Ops.teardown_session L json_pack ask O env opts conn
  op_func Op.setup_session conn args = Ops.setup_session L json_pack ask O env opts conn
  op_func Op.setup_shared_session conn args =
      Ops.setup_shared_session L json_pack ask O env opts conn
  op_func Op.in_session conn args = Ops.in_session L json_pack ask O env opts conn
  op_func Op.exists conn args = Ops.exists L json_pack ask O env opts conn args
  op_func Op.exists_active conn args = Ops.exists_active L json_pack ask O env opts conn args
  op_func Op.exists_effective conn args = Ops.exists_effective L json_pack ask O env opts conn args
  op_func Op.is_multi conn args = Ops.is_multi L json_pack ask O env opts conn args
  op_func Op.is_tag conn args = Ops.is_tag L json_pack ask O env opts conn args
  op_func Op.is_leaf conn args = Ops.is_leaf L json_pack ask O env opts conn args
  op_func Op.is_value conn args = Ops.is_value L json_pack ask O env opts conn args
  op_func Op.is_secret conn args = Ops.is_secret L json_pack ask O env opts conn args
  op_func Op.get_node_type conn args = Ops.get_node_type L json_pack ask O env opts conn args
  op_func Op.get_schema conn args = Ops.get_schema L json_pack ask O env opts conn args
  op_func Op.return_value conn args = Ops.return_value L json_pack ask O env opts conn args
  op_func Op.list_nodes conn args = Ops.list_nodes_of L json_pack ask O env opts 2 conn args
  op_func Op.list_active_nodes conn args = Ops.list_nodes_of L json_pack ask O env opts 1 conn args
  op_func Op.list_effective_nodes conn args =
      Ops.list_nodes_of L json_pack ask O env opts 3 conn args
  op_func Op.return_active_value conn args =
      Ops.list_nodes_of L json_pack ask O env opts 1 conn args
  op_func Op.return_effective_value conn args =
      Ops.list_nodes_of L json_pack ask O env opts 3 conn args
  op_func Op.return_values conn args = Ops.list_nodes_of L json_pack ask O env opts 2 conn args
  op_func Op.return_active_values conn args =
      Ops.list_nodes_of L json_pack ask O env opts 1 conn args
  op_func Op.return_effective_values conn args =
      Ops.list_nodes_of L json_pack ask O env opts 3 conn args
  op_func Op.validate_tmpl_path conn args =
      Ops.validate_tmpl_path L json_pack ask O env opts conn args
  op_func Op.validate_tmpl_val_path conn args =
      Ops.validate_tmpl_val_path L json_pack ask O env opts conn args
  op_func Op.get_tmpl_allowed conn args = Ops.get_tmpl_allowed L json_pack ask O env opts conn args
  op_func Op.show_cfg conn args = Ops.show_cfg L json_pack ask O env opts conn args
  op_func Op.show_config conn args = Ops.show_config L json_pack ask O env opts conn args
  op_func Op.load_file conn args = Ops.load_file L json_pack ask O env opts conn args
  op_func Op.load_file_report_warnings conn args =
      Ops.load_file_report_warnings L json_pack ask O env opts conn args
  op_func Op.merge_file conn args = Ops.merge_file L json_pack ask O env opts conn args
  op_func Op.save_config conn args = Ops.save_config L json_pack ask O env opts conn args
  op_func Op.get_pre_commit_hook_dir conn args = value (returned (str "/etc/commit/pre-hooks.d"))
  op_func Op.get_post_commit_hook_dir conn args = value (returned (str "/etc/commit/post-hooks.d"))
  op_func Op.get_tree conn args = Ops.get_tree L json_pack ask O env opts conn args
  op_func Op.get_active_tree conn args = Ops.get_active_tree L json_pack ask O env opts conn args
  op_func Op.migrate_file conn args = Ops.migrate_file L json_pack ask O env opts conn args

  abbrev is_session_env : Op → Bool
  is_session_env Op.get_session_env = true
  is_session_env _ = false

  -- An operation with the edit level.
  unfoldable pub run_edited : OpRow → Conn → List Bytes → Outcome Ran
  run_edited row conn args =
      let level : List Bytes = elim env.edit_level [ none ↦ [] | some s ↦ O.create_sep b'/' s ] in
      elim (with_level row.insert_edit level args) [
        | none ↦ undefined
        | some all ↦
            op_func row.func conn
              (if is_session_env row.func then text_of all else O.args_to_path all)
      ]

  -- An operation behind the tests of its arguments; `opened` is the connection, `none` where it
  -- cannot be opened, with the message of the system.
  unfoldable pub run_op : Option Conn → Bytes → OpRow → List Bytes → Outcome Ran
  run_op opened error row args = elim (not row.use_conn && not row.use_edit) [
    | true ↦ op_func row.func (record { session_id = none; req_id = 0 }) none
    | false ↦ elim opened [
      | none ↦ value (failed [] (str "Unable to open connection: " ++ (error ++ str "\n")))
      | some fresh ↦
          let conn : Conn = elim env.config_sid [
            | none ↦ fresh
            | some sid ↦ record fresh { session_id = some sid }
          ] in
          if row.use_edit
          then run_edited row conn args
          else op_func row.func conn
              (if as_text row.func opts.args_as_path then text_of args else O.args_to_path args)
    ]
  ]

  -- `main`, from the arguments that are no options on.
  unfoldable pub run_main : Option Conn → Bytes → List Bytes → Outcome Ran
  run_main opened error [] = value (failed [] (str "Must specify operation\n"))
  run_main opened error (oname ∷ args) = elim (find_op oname ops) [
    | none ↦ value (failed [] (str "Invalid operation\n"))
    | some row ↦ elim (wrong_args row (length args)) [
      | some message ↦ value (failed [] (message ++ str "\n"))
      | none ↦ run_op opened error row args
    ]
  ]
