-- ===== src/Syntax/Execute.antt =====
-- `execute_list` of src/cliexec/cli_new.c: the value is converted, and the list of an action checked.
use vyatta_cfg.Prelude.Outcome.{Outcome, value, ◌>>=◌}
use vyatta_cfg.Prelude.{◌≡◌, refl, Bool, true, false, List, Option, some, Bytes}
use vyatta_cfg.Syntax.Convert.{Def, Token, char2val}
use vyatta_cfg.Syntax.Expr.{Expr, tree, meaning, IsExpr, HasText, check_syn-meaning}
use vyatta_cfg.Syntax.Nodes.{Node}
use vyatta_cfg.Syntax.Words.{text_ref}
use vyatta_cfg.Syntax.{Event, Context, World, check_syn}
use vyatta_cfg.Value.{Value, text_type, text_value, line_count, before_newline, char2val_text, ok}

-- The flag is whether `VYATTA_OUTPUT_ERROR_LOCATION` is set. What the list leaves of the value is
-- freed; the flag `in_exec`, which nothing reads, is not modelled.
unfoldable pub execute_list :
    Context
    → (Bytes → List Token)
    → Bool
    → Node
    → Def
    → Option Bytes
    → World
    → Outcome (Bool × World)
execute_list C lex error_location cur def prepend_msg w = do
  v ← char2val C def lex w.at_string w
  elim v.0 [
    | false ↦ value (false, record v.2 { validate_value = v.1 })
    | true ↦ do
      r ← check_syn C prepend_msg error_location cur (record v.2 { validate_value = v.1 })
      value (r.0, record r.1 { validate_value = record r.1.validate_value { free_me = false } })
  ]

-- The value of a text of one line.
abbrev pub one_text : Bytes → Value
one_text s = record text_value { val = some (before_newline s) }

char2val_text-one : (s : Bytes) → line_count s ≡ 1 → char2val_text true s ≡ ok (one_text s)
unfolding char2val_text
char2val_text-one s one = rw one refl

char2val-one :
    (C : Context) (def : Def) (lex : Bytes → List Token) (s : Bytes) (w : World)
    → def.type ≡ text_type
    → line_count s ≡ 1
    → char2val C def lex s w ≡ value (true, one_text s, w)
unfolding char2val
char2val-one C def lex s w is_text one = rw is_text (rw (char2val_text-one s one) refl)

-- The condition of a template of type text, made of comparisons of texts under `&&`, `||` and `!`
-- with variables that hold one word each: on a value of one line `execute_list` gives what the
-- condition means for that line, and changes nothing but the value that is validated.
pub execute_list-meaning :
    (C : Context) (store : Bytes → Bytes) (lex : Bytes → List Token) (error_location : Bool)
    (e : Expr) (def : Def) (msg : Option Bytes) (w : World)
    → C.handle ≡ true
    → ((log : List Event) (path : Bytes) → C.get_var_ref log path ≡ text_ref (store path) false)
    → def.type ≡ text_type
    → line_count w.at_string ≡ 1
    → IsExpr store e
    → execute_list C lex error_location (tree e) def msg w
      ≡ value (
        meaning store (before_newline w.at_string) e,
        record w { validate_value = record (one_text w.at_string) { free_me = false } },
      )
unfolding execute_list
execute_list-meaning C store lex error_location e def msg w connected holds is_text one h =
    let made = char2val-one C def lex w.at_string w is_text one in
    let held : HasText (one_text w.at_string) (before_newline w.at_string) = record {
      is_text = refl;
      no_multi = refl;
      no_cnt = refl;
      held = refl;
    } in
    let checked =
      check_syn-meaning C store (before_newline w.at_string) connected holds e msg error_location
        (record w { validate_value = one_text w.at_string }) h held in
    rw made (rw checked refl)
