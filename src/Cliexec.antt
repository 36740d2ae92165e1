-- ===== src/Cliexec.antt =====
-- The program of src/cliexec/cliexec.cpp behind its options: it checks the actions of a template
-- script, or hands a command to the shell. Outside are the grammar (`parse_def`), the files, and the
-- start of the shell. What is written to the error output is not modelled.
pub mod Actions
use vyatta_cfg.Cpath.{Cpath, back, parse, to_string, to_path_string}
use vyatta_cfg.Ctemplate.{get}
use vyatta_cfg.Prelude.Outcome.{Outcome, value, undefined, ◌>>=◌}
use vyatta_cfg.Prelude.{
  ℕ, Bool, true, false, ◌&&◌, ◌||◌, List, [], ◌∷◌, ◌++◌, Option, none, some, Bytes, str, str_eq,
  leb, ◌+◌, if◌then◌else◌,
}
use vyatta_cfg.Syntax.Convert.{Def, Token}
use vyatta_cfg.Syntax.Execute.{execute_list}
use vyatta_cfg.Syntax.Nodes.{Node}
use vyatta_cfg.Syntax.{Context, World, contains, expand}
use vyatta_cfg.Varref.{Store}

-- `vtw_act_type`
pub data ActType : Type 0 where
  delete_act create_act activate_act update_act syntax_act commit_act : ActType
  begin_act end_act sub_act allowed_act top_act : ActType

-- The comparison of `strcasecmp`.
abbrev pub lower : ℕ → ℕ
lower c = if leb b'A' c && leb c b'Z' then c + 32 else c

abbrev pub lowered : Bytes → Bytes
lowered [] = []
lowered (c ∷ s) = lower c ∷ lowered s

abbrev pub same_word : Bytes → Bytes → Bool
same_word s t = str_eq (lowered s) (lowered t)

-- The action that `CONFIGD_EXT` names.
unfoldable pub get_action_type : Option Bytes → ActType
get_action_type none = top_act
get_action_type (some s) =
    if same_word s (str "allowed")
    then allowed_act
    else if same_word s (str "delete")
    then delete_act
    else if same_word s (str "create")
    then create_act
    else if same_word s (str "activate")
    then activate_act
    else if same_word s (str "update")
    then update_act
    else if same_word s (str "syntax")
    then syntax_act
    else if same_word s (str "commit")
    then commit_act
    else if same_word s (str "begin")
    then begin_act
    else if same_word s (str "end")
    then end_act
    else if same_word s (str "sub")
    then sub_act
    else top_act

abbrev pub is_begin_or_end : ActType → Bool
is_begin_or_end begin_act = true
is_begin_or_end end_act = true
is_begin_or_end _ = false

abbrev pub is_delete_act : ActType → Bool
is_delete_act delete_act = true
is_delete_act _ = false

-- The first argument is `COMMIT_ACTION`.
unfoldable pub is_delete : Option Bytes → ActType → Bool
is_delete none action = is_delete_act action
is_delete (some commit_action) action =
    str_eq commit_action (str "DELETE") && is_begin_or_end action || is_delete_act action

-- Whether a file begins with "#!"; `none` for one that cannot be read or is empty.
unfoldable pub has_she_bang : Option Bytes → Option Bool
has_she_bang none = none
has_she_bang (some []) = none
has_she_bang (some (c ∷ [])) = some false
has_she_bang (some (c ∷ d ∷ s)) = some (str_eq (c ∷ d ∷ []) (str "#!"))

pub data ScriptType : Type 0 where
  script_unknown script_other script_expr : ScriptType

unfoldable pub get_script_type : Bytes → Option Bytes → ScriptType
get_script_type progname content =
    if str_eq progname (str "cliexpr") then script_expr else elim (has_she_bang content) [
      | none ↦ script_unknown
      | some b ↦ if b then script_other else script_unknown
    ]

-- How the program ends: with a status, or as a shell with a command.
pub data Ending : Type 0 where
  exit_success exit_failure : Ending
  shell : Bytes → Ending

-- What `parse_def` gives.
pub record Parsed : Type 0 where
  pub actions : ActType → Node
  pub type_help : Option Bytes

abbrev pub status_of : Bool → Ending
status_of b = if b then exit_success else exit_failure

-- The context is that of a path and of a delete action or another one; `connected` is whether the
-- connection can be opened.
module _ (S : Store) (context : Bytes → Bool → Context) (lex : Bytes → List Token)
    (error_location connected no_shell : Bool) (action_env commit_action : Option Bytes) where
  abbrev action : ActType
  action = get_action_type action_env

  abbrev pub C : Bytes → Context
  C cpath = context cpath (is_delete commit_action action)

  unfoldable pub extract_at_string : Bytes → Outcome Bytes
  extract_at_string cpath = elim (back (parse S.uri cpath)) [ none ↦ undefined | some s ↦ value s ]

  -- The list of an action.
  abbrev run_actions : Bytes → Parsed → (Bytes → Option Bytes) → World → Outcome Ending
  run_actions cpath parsed m w = do
    let t = get m
    disp_path ← to_string S.uri (parse S.uri cpath)
    at_string ← extract_at_string cpath
    r ←
        execute_list (C cpath) lex error_location (parsed.actions action)
          (record { type = t.type; type2 = t.type2; type_help = parsed.type_help; multi = t.multi })
          none (record w { at_string = at_string })
    value (status_of r.0)

  abbrev is_top : ActType → Bool
  is_top top_act = true
  is_top _ = false

  unfoldable pub process_cli_script : Option Parsed → Bytes → World → Outcome Ending
  process_cli_script none cpath w = value exit_failure
  process_cli_script (some parsed) cpath w = elim connected [
    | false ↦ value exit_failure
    | true ↦ to_path_string S.uri (parse S.uri cpath) >>= λ path. elim (S.tmpl_get path) [
      | none ↦ value exit_failure
      | some m ↦ elim (is_top action) [
        | true ↦ value exit_failure
        | false ↦ run_actions cpath parsed m w
      ]
    ]
  ]

  abbrev command : Bytes → Bytes
  command estr = if no_shell then str "exec " ++ estr else estr

  unfoldable pub process_string : Bytes → Bytes → World → Outcome Ending
  process_string s cpath w =
      elim (contains (str "$VAR(") s && (if connected then false else true)) [
        | true ↦ value exit_failure
        | false ↦ extract_at_string cpath >>= λ at_string.
            expand (C cpath) (record w { at_string = at_string }) (some s) >>= λ r.
            value (if r.0 then shell (command r.1.exe_string) else exit_failure)
      ]

  -- `process_cmd`, and `process_sh_script` on the text of the script.
  unfoldable pub process_cmd : Bytes → Bytes → World → Outcome Ending
  process_cmd cmd cpath w = elim (is_top action) [
    | true ↦ value exit_failure
    | false ↦ process_string cmd cpath w
  ]

  -- `main`: the name of the program, the command of the options, the content of the script and what
  -- the grammar makes of it, where there is one, and `CONFIGD_PATH`.
  unfoldable pub run_main :
      Bytes → Bytes → Option (Option Bytes × Option Parsed) → Option Bytes → World → Outcome Ending
  run_main progname cmd file none w = value exit_failure
  run_main progname (c ∷ cmd) file (some cpath) w = process_cmd (c ∷ cmd) cpath w
  run_main progname [] none (some cpath) w = value exit_failure
  run_main progname [] (some (content, parsed)) (some cpath) w =
      elim (get_script_type progname content) [
        | script_unknown ↦ value exit_failure
        | script_expr ↦ process_cli_script parsed cpath w
        | script_other ↦ process_cmd (elim content [ none ↦ [] | some s ↦ s ]) cpath w
      ]
