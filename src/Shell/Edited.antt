-- ===== src/Shell/Edited.antt =====
-- The operations of src/cli_shell_api.cpp below an edit level.
use vyatta_cfg.Client.{Arg, Conn}
use vyatta_cfg.Prelude.Outcome.{undefined}
use vyatta_cfg.Prelude.{
  ℕ, ◌≡◌, refl, ◌∙◌, List, [], ◌∷◌, ◌++◌, Option, none, some, Bytes, str, str_eq, length, arith,
}
use vyatta_cfg.Rpc.{Lib, Exchange}
use vyatta_cfg.Shell.Ops
use vyatta_cfg.Shell.Program.{
  find_op, wrong_args, with_level, run_edited, run_op, run_main, op_func,
}
use vyatta_cfg.Shell.{Outside, Environment, Options, OpRow, ops}

module _ (L : Lib) (json_pack : List Arg → Option (Lib.Json L))
    (ask : Bytes → Lib.Json L → ℕ → Exchange L) (O : Outside L) (env : Environment)
    (opts : Options) where
  abbrev level_of : List Bytes
  level_of = elim env.edit_level [ none ↦ [] | some s ↦ O.create_sep b'/' s ]

  abbrev pub with_sid : Conn → Conn
  with_sid fresh = elim env.config_sid [
    | none ↦ fresh
    | some sid ↦ record fresh { session_id = some sid }
  ]

  run_main-found :
      (name : Bytes) (row : OpRow) (opened : Option Conn) (error : Bytes) (args : List Bytes)
      → find_op name ops ≡ some row
      → wrong_args row (length args) ≡ none
      → run_main L json_pack ask O env opts opened error (name ∷ args)
        ≡ run_op L json_pack ask O env opts opened error row args
  unfolding run_main
  run_main-found name row opened error args found fits = rw (run_main, found) (rw fits refl)

  -- `getCompletionEnv` in an edit level, with a connection: the program asks for the completion of the
  -- command followed by the level and the other arguments, as one path, in the session that the
  -- environment names.
  pub run_main-completion :
      (fresh : Conn) (error cmd b : Bytes) (args : List Bytes) (text : Bytes) (c : ℕ) (e : Bytes)
      (level : List Bytes)
      → env.edit_level ≡ some text
      → O.create_sep b'/' text ≡ (c ∷ e) ∷ level
      → run_main L json_pack ask O env opts
          (some fresh)
          error
          (str "getCompletionEnv" ∷ cmd ∷ b ∷ args)
        ≡ Ops.get_completion_env L json_pack ask O env opts
            (with_sid fresh)
            (O.args_to_path (cmd ∷ (((c ∷ e) ∷ level) ++ (b ∷ args))))
  unfolding find_op ops str_eq wrong_args run_op run_edited with_level op_func
  run_main-completion fresh error cmd b args text c e level at_level split =
      run_main-found (str "getCompletionEnv") _ (some fresh) error (cmd ∷ b ∷ args) refl
        (ground arith)
      ∙ rw at_level (rw (run_edited, split) refl)

  -- `getEditLevelStr` in an edit level, with a connection, ends in a read of a null pointer.
  pub run_main-level_str :
      (fresh : Conn) (error text : Bytes) (c : ℕ) (e : Bytes) (level : List Bytes)
      → env.edit_level ≡ some text
      → O.create_sep b'/' text ≡ (c ∷ e) ∷ level
      → run_main L json_pack ask O env opts (some fresh) error (str "getEditLevelStr" ∷ [])
        ≡ undefined
  unfolding find_op ops str_eq wrong_args run_op run_edited with_level op_func
  run_main-level_str fresh error text c e level at_level split =
      run_main-found (str "getEditLevelStr") _ (some fresh) error [] refl refl
      ∙ rw at_level (rw (run_edited, split) refl)
