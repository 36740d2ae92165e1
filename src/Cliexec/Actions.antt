-- ===== src/Cliexec/Actions.antt =====
-- The names of the actions in src/cliexec/cliexec.cpp.
use vyatta_cfg.Cliexec.{
  ActType, delete_act, create_act, activate_act, update_act, syntax_act, commit_act, begin_act,
  end_act, sub_act, allowed_act, top_act, lowered, get_action_type,
}
use vyatta_cfg.Prelude.{◌≡◌, refl, Bytes, some, str, str_eq}

-- The name of an action; the last one has none.
abbrev pub name_of : ActType → Bytes
name_of delete_act = str "delete"
name_of create_act = str "create"
name_of activate_act = str "activate"
name_of update_act = str "update"
name_of syntax_act = str "syntax"
name_of commit_act = str "commit"
name_of begin_act = str "begin"
name_of end_act = str "end"
name_of sub_act = str "sub"
name_of allowed_act = str "allowed"
name_of top_act = str "-"

-- The name of an action, in letters of any case, stands for the action.
get_action_type-name :
    (a : ActType) (s : Bytes) → lowered s ≡ name_of a → get_action_type (some s) ≡ a
unfolding get_action_type str_eq
get_action_type-name delete_act s h = rw h refl
get_action_type-name create_act s h = rw h refl
get_action_type-name activate_act s h = rw h refl
get_action_type-name update_act s h = rw h refl
get_action_type-name syntax_act s h = rw h refl
get_action_type-name commit_act s h = rw h refl
get_action_type-name begin_act s h = rw h refl
get_action_type-name end_act s h = rw h refl
get_action_type-name sub_act s h = rw h refl
get_action_type-name allowed_act s h = rw h refl
get_action_type-name top_act s h = rw h refl
