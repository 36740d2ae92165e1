-- ===== src/Client/Edit.antt =====
-- The environments of src/client/session.c: `configd_sess_get_env` and `configd_edit_get_env`.
-- How `argz_create_sep` cuts a text into elements is a parameter.
use vyatta_cfg.Client.{Arg, Conn, Returned, init}
use vyatta_cfg.Client.Calls.{configd_tmpl_get, configd_node_exists}
use vyatta_cfg.Client.Commit.{configd_set}
use vyatta_cfg.Prelude.Integer.{pos}
use vyatta_cfg.Prelude.Outcome.{Outcome, value, ◌>>=◌}
use vyatta_cfg.Prelude.{
  ℕ, zero, suc, Bool, true, false, not, ◌&&◌, List, [], ◌∷◌, ◌++◌, Option, none, some, Bytes, str,
  str_eq, if◌then◌else◌,
}
use vyatta_cfg.Rpc.{Lib, Exchange, Error, error_setf}

-- `AUTO` of src/client/rpc.h
abbrev pub auto : ℕ
auto = 0

-- `argz_stringify` with a space.
unfoldable pub spaced_words : List Bytes → Bytes
spaced_words [] = []
spaced_words (e ∷ []) = e
spaced_words (e ∷ f ∷ es) = e ++ (b' ' ∷ spaced_words (f ∷ es))

abbrev is_one : Option Bytes → Bool
is_one none = false
is_one (some v) = str_eq v (str "1")

-- The library prints a null string as `(null)`.
unfoldable pub configd_sess_get_env : Conn → Bytes
configd_sess_get_env conn =
    let sid : Bytes = elim conn.session_id [ none ↦ str "(null)" | some s ↦ s ] in
    str "declare -x VYATTA_EDIT_LEVEL=/; umask 002; { declare -x -r VYATTA_CONFIG_SID="
    ++ (sid ++ str "; } >&/dev/null || true")

module _ (L : Lib) where
  unfoldable pub is_tag_value : Lib.Map L → Bool
  is_tag_value m = is_one (Lib.map_get L m (str "tag")) && is_one (Lib.map_get L m (str "is_value"))

  unfoldable pub is_typeless : Lib.Map L → Bool
  is_typeless m = elim (Lib.map_get L m (str "type")) [ none ↦ true | some t ↦ false ]

  abbrev edit_text : Bytes → List Bytes → Bytes
  edit_text cpath words =
      str "export VYATTA_EDIT_LEVEL='"
      ++ (cpath ++ (str "'; export PS1='[edit " ++ (spaced_words words ++ str "]\\n\\u@\\h# ';")))

  module _ (json_pack : List Arg → Option (Lib.Json L)) (ask : Bytes → Lib.Json L → ℕ → Exchange L)
      (create_sep : ℕ → Bytes → List Bytes) where
    unfoldable pub configd_edit_get_env :
        Conn → Bytes → Error L → Outcome (Returned L (Option Bytes))
    configd_edit_get_env conn cpath error = do
      found ← configd_tmpl_get L json_pack ask conn (some cpath) error
      elim found.0 [
        | none ↦ value (none, found.1, found.2)
        | some def ↦
            let fresh : Error L = init L (str "configd_edit_get_env") found.1 in
            if not (is_tag_value def) && not (is_typeless def)
            then value (
              none,
              error_setf L fresh
                  (str "The \"edit\" command cannot be issued at the specified level\n"),
              found.2,
            )
            else do
              present ← configd_node_exists L json_pack ask found.2 (pos auto) (some cpath) fresh
              elim present.0 [
                | pos (suc zero) ↦
                    value (some (edit_text cpath (create_sep b'/' cpath)), present.1, present.2)
                | _ ↦ do
                  done ← configd_set L json_pack ask present.2 (some cpath) present.1
                  elim done.0 [
                    | none ↦ value (none, done.1, done.2)
                    | some r ↦
                        value (some (edit_text cpath (create_sep b'/' cpath)), done.1, done.2)
                  ]
              ]
      ]
