-- ===== src/Shell.antt =====
-- The program of src/cli_shell_api.cpp: what its operations print, and how the program ends.
-- Outside are argz, `dirname`, decimal numbers, the lists of the utility library, uriparser and the options that
-- `getopt_long` finds; memory is at hand. What is printed before a crash is not modelled.
pub mod Ops
pub mod Program
pub mod Listed
pub mod Edited
use vyatta_cfg.Client.{Conn}
use vyatta_cfg.Cpath.{Uri}
use vyatta_cfg.Prelude.{ℕ, Bool, true, false, List, [], ◌∷◌, ◌++◌, Option, none, some, Bytes, str}
use vyatta_cfg.Rpc.{Lib}

-- What the program uses from outside.
pub record Outside (L : Lib) : Type 0 where
  pub uri : Uri
  pub create_sep : ℕ → Bytes → List Bytes
  pub entries : Lib.Map L → List Bytes
  pub elements : Lib.Vector L → List Bytes
  pub decimal : ℕ → Bytes
  pub dirname : Bytes → Bytes
  pub args_to_path : List Bytes → Option Bytes

-- `VYATTA_EDIT_LEVEL` and `VYATTA_CONFIG_SID`
pub record Environment : Type 0 where
  pub edit_level : Option Bytes
  pub config_sid : Option Bytes

-- The options.
pub record Options : Type 0 where
  pub active_only : Bool
  pub show_defaults : Bool
  pub hide_secrets : Bool
  pub working_only : Bool
  pub context_diff : Bool
  pub commands : Bool
  pub ignore_edit : Bool
  pub args_as_path : Bool
  pub cfg1 : Option Bytes
  pub cfg2 : Option Bytes

-- How the program, or an operation, ends: what is on the standard output and on the error output,
-- and whether the status is `EXIT_SUCCESS`.
pub record Ran : Type 0 where
  pub out : Bytes
  pub err : Bytes
  pub success : Bool

-- The operations.
pub data Op : Type 0 where
  get_session_env get_edit_env get_edit_up_env get_edit_reset_env edit_level_at_root
        get_completion_env get_edit_level_str :
      Op
  mark_session_unsaved unmark_session_unsaved session_unsaved session_changed : Op
  teardown_session setup_session setup_shared_session in_session : Op
  exists exists_active exists_effective list_nodes list_active_nodes list_effective_nodes : Op
  is_multi is_tag is_leaf is_value is_secret get_node_type get_schema : Op
  return_value return_active_value return_effective_value return_values return_active_values
        return_effective_values :
      Op
  validate_tmpl_path validate_tmpl_val_path get_tmpl_allowed show_cfg show_config : Op
  load_file load_file_report_warnings merge_file save_config : Op
  get_pre_commit_hook_dir get_post_commit_hook_dir get_tree get_active_tree migrate_file : Op

-- A row of the table; `none` stands for -1.
pub record OpRow : Type 0 where
  pub name : Bytes
  pub exact_args : Option ℕ
  pub exact_error : Bytes
  pub min_args : Option ℕ
  pub min_error : Bytes
  pub use_edit : Bool
  pub insert_edit : Bool
  pub use_conn : Bool
  pub func : Op

abbrev no_arguments : Bytes → Bool → Bool → Bool → Op → OpRow
no_arguments name use_edit insert_edit use_conn func = record {
  name = name;
  exact_args = some 0;
  exact_error = str "No argument expected";
  min_args = none;
  min_error = [];
  use_edit = use_edit;
  insert_edit = insert_edit;
  use_conn = use_conn;
  func = func;
}

abbrev one_argument : Bytes → Bytes → Bool → Op → OpRow
one_argument name error use_edit func = record {
  name = name;
  exact_args = some 1;
  exact_error = error;
  min_args = none;
  min_error = [];
  use_edit = use_edit;
  insert_edit = false;
  use_conn = true;
  func = func;
}

abbrev some_arguments : Bytes → ℕ → Bytes → Bool → Bool → Op → OpRow
some_arguments name least error use_edit insert_edit func = record {
  name = name;
  exact_args = none;
  exact_error = [];
  min_args = some least;
  min_error = error;
  use_edit = use_edit;
  insert_edit = insert_edit;
  use_conn = true;
  func = func;
}

abbrev any_arguments : Bytes → Bool → Op → OpRow
any_arguments name use_edit func = record {
  name = name;
  exact_args = none;
  exact_error = [];
  min_args = none;
  min_error = [];
  use_edit = use_edit;
  insert_edit = false;
  use_conn = true;
  func = func;
}

abbrev on_path : Bytes → Bool → Op → OpRow
on_path name use_edit func =
    some_arguments name 1 (str "Must specify config path") use_edit false func

-- `ops`
unfoldable pub ops : List OpRow
ops =
    one_argument (str "getSessionEnv") (str "Must specify session ID") true get_session_env
    ∷ on_path (str "getEditEnv") true get_edit_env
    ∷ no_arguments (str "getEditUpEnv") true false true get_edit_up_env
    ∷ no_arguments (str "getEditResetEnv") true false false get_edit_reset_env
    ∷ no_arguments (str "editLevelAtRoot") true false false edit_level_at_root
    ∷ some_arguments (str "getCompletionEnv") 2
        (str "Must specify command and at least one component") true true get_completion_env
    ∷ no_arguments (str "getEditLevelStr") true true false get_edit_level_str
    ∷ no_arguments (str "markSessionUnsaved") false false true mark_session_unsaved
    ∷ no_arguments (str "unmarkSessionUnsaved") false false true unmark_session_unsaved
    ∷ no_arguments (str "sessionUnsaved") false false true session_unsaved
    ∷ no_arguments (str "sessionChanged") false false true session_changed
    ∷ no_arguments (str "teardownSession") false false true teardown_session
    ∷ no_arguments (str "setupSession") false false true setup_session
    ∷ no_arguments (str "setupSharedSession") false false true setup_shared_session
    ∷ no_arguments (str "inSession") false false true in_session
    ∷ on_path (str "exists") false exists
    ∷ on_path (str "existsActive") false exists_active
    ∷ on_path (str "existsEffective") false exists_effective
    ∷ any_arguments (str "listNodes") false list_nodes
    ∷ any_arguments (str "listActiveNodes") false list_active_nodes
    ∷ on_path (str "listEffectiveNodes") false list_effective_nodes
    ∷ on_path (str "isMulti") false is_multi
    ∷ on_path (str "isTag") false is_tag
    ∷ on_path (str "isLeaf") false is_leaf
    ∷ on_path (str "isValue") false is_value
    ∷ on_path (str "isSecret") false is_secret
    ∷ on_path (str "getNodeType") true get_node_type
    ∷ any_arguments (str "getSchema") false get_schema
    ∷ on_path (str "returnValue") false return_value
    ∷ on_path (str "returnActiveValue") false return_active_value
    ∷ on_path (str "returnEffectiveValue") false return_effective_value
    ∷ on_path (str "returnValues") false return_values
    ∷ on_path (str "returnActiveValues") false return_active_values
    ∷ on_path (str "returnEffectiveValues") false return_effective_values
    ∷ on_path (str "validateTmplPath") true validate_tmpl_path
    ∷ on_path (str "validateTmplValPath") false validate_tmpl_val_path
    ∷ on_path (str "getTmplAllowed") false get_tmpl_allowed
    ∷ any_arguments (str "showCfg") false show_cfg
    ∷ any_arguments (str "showConfig") false show_config
    ∷ one_argument (str "loadFile") (str "Must specify config file") false load_file
    ∷ one_argument (str "loadFileReportWarnings") (str "Must specify config file") false
        load_file_report_warnings
    ∷ one_argument (str "mergeFile") (str "Must specify config file") false merge_file
    ∷ any_arguments (str "saveConfig") false save_config
    ∷ no_arguments (str "getPreCommitHookDir") false false false get_pre_commit_hook_dir
    ∷ no_arguments (str "getPostCommitHookDir") false false false get_post_commit_hook_dir
    ∷ any_arguments (str "getTree") true get_tree
    ∷ any_arguments (str "getActiveTree") true get_active_tree
    ∷ some_arguments (str "migrateFile") 1 (str "Must specify filename") false false migrate_file
    ∷ []
