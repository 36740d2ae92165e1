-- ===== src/Tests/Expressions.antt =====
-- The theorems on template expressions at concrete values.
use vyatta_cfg.Compare.Decimal.{Numeral}
use vyatta_cfg.Compare.{strcmp, eq_cond, gt_cond, satisfies}
use vyatta_cfg.Expand.Refused.{expand_string-refused}
use vyatta_cfg.Expand.Total.{Ended, expand_string-Ended}
use vyatta_cfg.Expand.{Env, Buffer, failed, expand_string}
use vyatta_cfg.Prelude.Outcome.{value, undefined}
use vyatta_cfg.Prelude.{◌≡◌, refl, Bool, true, false, List, [], ◌∷◌, none, some, Bytes, str, arith}
use vyatta_cfg.Syntax.Convert.Values.{char2val-values, char2val-any_type}
use vyatta_cfg.Syntax.Convert.{Def, Token, val, eol, is_refused, char2val}
use vyatta_cfg.Syntax.Count.{check_comp-count}
use vyatta_cfg.Syntax.Effects.{Extends, Ensures, world_of, check_syn-Extends}
use vyatta_cfg.Syntax.Execute.{execute_list, one_text, execute_list-meaning}
use vyatta_cfg.Syntax.Expr.{constant, variable, self, Expr, compare, both, no_more, tree}
use vyatta_cfg.Syntax.Nodes.{var_op, val_op, exec_op, Node, null, node, blank}
use vyatta_cfg.Syntax.Words.{text_ref, eval_va-words}
use vyatta_cfg.Syntax.{
  Context, World, strtok, eval_va, check_comp, check_syn, is_self_path, words_in,
}
use vyatta_cfg.Value.Append.{IsList}
use vyatta_cfg.Value.{
  Value, text_type, int_type, error_type, ipv4_type, contents, str2val, zeroed, before_newline,
  line_count, open_ended, count_newlines,
}

-- The text of every variable is "eth0", and it is one of several values where the flag is set.
abbrev context : Bytes → Bool → Context
context s multi = record {
  memory = λ n. true;
  handle = true;
  in_commit = false;
  out_stream = true;
  get_var_ref = λ log path. text_ref s multi;
  system = λ log command. true;
  popen = λ log command. none;
  regcomp = λ pattern. none;
}

abbrev start : Bytes → World
start s = record {
  at_string = s;
  validate_value = record zeroed { val_type = text_type; val = some s };
  in_validate = false;
  len = 0;
  alloc = 0;
  exe_string = [];
  log = [];
}

abbrev eth0 : Bytes
eth0 = str "eth0"

-- `$VAR(@) == $VAR(../name/@) && ! "lo" == "eth0"`
abbrev condition : Expr
condition =
    both (compare eq_cond self (variable (str "../name/@")))
      (no_more (compare eq_cond (constant (str "lo")) (constant eth0)))

abbrev text_def : Def
text_def = record { type = text_type; type2 = error_type; type_help = none; multi = false }

execute_list-meaning_example :
    execute_list (context eth0 false) (λ s. []) false (tree condition) text_def none (start eth0)
    ≡ value
        (true, record (start eth0) { validate_value = record (one_text eth0) { free_me = false } })
unfolding words_in is_self_path before_newline line_count open_ended count_newlines satisfies strcmp
execute_list-meaning_example =
    execute_list-meaning (context eth0 false) (λ path. eth0) (λ s. []) false condition text_def none
      (start eth0) refl (λ log path. refl) refl refl ((tt, (refl, refl, refl)), (tt, tt))

abbrev name_node : Node
name_node = node var_op (record blank { string = some (str "$VAR(../name/@)") }) null null

eval_va-words_example :
    (v : Value) × (eval_va (context (str "a b") true) name_node (start eth0)
      ≡ value (true, some v, start eth0))
    × (contents v ≡ strtok (str "a b"))
    × IsList v (strtok (str "a b"))
unfolding words_in is_self_path
eval_va-words_example =
    eval_va-words (context (str "a b") true) (start eth0)
      (record blank { string = some (str "$VAR(../name/@)") }) null null (str "../name/@")
      (str "a b") (str "a") (str "b" ∷ []) true refl refl refl refl refl refl

abbrev zero_numeral : Numeral
zero_numeral = record { first = 0; others = [] }

abbrev zero_node : Node
zero_node =
    node val_op (record blank { val = record (str2val (str "0")) { val_type = int_type } }) null
      null

-- "a" is one value, and there are not more than 0.
check_comp-count_example :
    check_comp (context (str "a") true) (some gt_cond) name_node zero_node (start eth0)
    ≡ value (false, start eth0)
unfolding words_in is_self_path satisfies str2val
check_comp-count_example =
    check_comp-count (context (str "a") true) (start eth0) gt_cond
      (record blank { string = some (str "$VAR(../name/@)") })
      (record blank { val = record (str2val (str "0")) { val_type = int_type } }) null null null
      null (str "../name/@") (str "a") (str "a") [] zero_numeral refl refl refl refl refl refl refl
      refl refl refl (record { digits = (omega arith, tt); fits = omega arith })

abbrev exec_node : Node
exec_node =
    node exec_op blank (node val_op (record blank { string = some (str "true") }) null null) null

check_syn-Extends_example :
    Ensures Extends world_of
      (start eth0)
      (check_syn (context eth0 false) none true exec_node (start eth0))
check_syn-Extends_example = check_syn-Extends (context eth0 false) none true exec_node (start eth0)

abbrev number_def : Def
number_def = record { type = int_type; type2 = error_type; type_help = none; multi = true }

abbrev number_of : Bytes → Value
number_of s = record zeroed { val_type = int_type; free_me = true; val = some s }

abbrev number_tokens : Bytes → List Token
number_tokens s = val (number_of (str "1")) ∷ eol ∷ val (number_of (str "2")) ∷ []

char2val-values_example :
    (f : Value) × (char2val (context eth0 false) number_def number_tokens (str "1\n2") (start eth0)
      ≡ value (true, f, start eth0))
    × (contents f ≡ str "1" ∷ str "2" ∷ [])
    × IsList f (str "1" ∷ str "2" ∷ [])
unfolding is_refused
char2val-values_example =
    char2val-values (context eth0 false) number_def number_tokens (number_of (str "1"))
      (number_of (str "2") ∷ []) (str "1\n2") (start eth0) refl refl refl refl
      (
        record { own = refl; no_cnt = refl; held = refl },
        refl,
        (record { own = refl; no_cnt = refl; held = refl }, refl, tt),
      )

abbrev address : Value
address = record (number_of (str "10.0.0.1")) { val_type = ipv4_type }

-- An address for a number.
char2val-any_type_example :
    char2val (context eth0 false) number_def (λ s. val address ∷ []) (str "10.0.0.1") (start eth0)
    ≡ value (true, address, start eth0)
char2val-any_type_example =
    char2val-any_type (context eth0 false) number_def (λ s. val address ∷ []) address
      (str "10.0.0.1") (start eth0) refl refl refl refl

abbrev apart : Context
apart = record (context eth0 false) { handle = false; memory = λ n. false }

expand_string-Ended_example :
    Ended
      (record { memory = λ n. false; at_string = []; var_ref = λ path. none })
      (expand_string
        (record { memory = λ n. false; at_string = []; var_ref = λ path. none })
        3
        3
        (str "a$VAR(b"))
expand_string-Ended_example =
    expand_string-Ended (record { memory = λ n. false; at_string = []; var_ref = λ path. none }) 3
      b'a' (str "$VAR(b")

abbrev no_room : Env
no_room = record { memory = λ n. false; at_string = []; var_ref = λ path. none }

expand_string-refused_example :
    (b : Buffer) × (expand_string no_room 2 2 (str "abc") ≡ value (failed b))
    × (expand_string no_room b.len b.alloc (str "abc") ≡ undefined)
expand_string-refused_example =
    expand_string-refused no_room no_room 2 b'a' (str "bc") refl (omega arith) refl
