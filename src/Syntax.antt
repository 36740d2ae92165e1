-- ===== src/Syntax.antt =====
-- The syntax trees of templates, and how they are evaluated: `eval_va`, `check_comp`,
-- `check_syn_func` and `execute_list` of src/cliexec/cli_new.c on the nodes of src/cli_cstore.h.
-- `C` is what happens outside: the store, the processes, the regular expressions. It may answer by
-- the log of what was done before. Memory for strings and arrays of values is at hand.
pub mod Nodes
pub mod Expr
pub mod Lists
pub mod Words
pub mod Effects
pub mod Count
pub mod Convert
pub mod Execute
use vyatta_cfg.Compare.{
  Cond, unset_cond, eq_cond, ne_cond, lt_cond, le_cond, gt_cond, ge_cond, in_cond, operands,
  same_type, val_cmp,
}
use vyatta_cfg.Expand.{
  Buffer, Expanded, done, failed, marker, before_paren, after_paren, expand_string,
}
use vyatta_cfg.Expand
use vyatta_cfg.Prelude.Outcome.{Outcome, value, exited, undefined, ◌>>=◌}
use vyatta_cfg.Prelude.{
  ℕ, zero, suc, Bool, true, false, not, ◌&&◌, ◌||◌, List, [], ◌∷◌, ◌++◌, Option, none, some, Bytes,
  str, starts_with, ◌==◌, if◌then◌else◌, drop,
}
use vyatta_cfg.Syntax.Nodes.{
  Oper, list_op, help_op, exec_op, pattern_op, or_op, and_op, not_op, cond_op, val_op, var_op,
  b_quote_op, assign_op, Info, Node, null, node,
}
use vyatta_cfg.Value.{Value, ValType, text_type, Result, ok, fault, str2val, add_val, zeroed}

-- The results of `cstore_get_var_ref`: its return value, and what it stores.
pub record VarRef : Type 0 where
  pub found : Bool
  pub type : ValType
  pub val : Option Bytes
  pub ismulti : Bool

-- What is done outside: a command run by `system_out`, one run by `popen`, a variable set, and a text
-- printed for the user.
pub data Event : Type 0 where
  ran quoted : Bytes → Event
  assigned : Bytes → Bytes → Event
  printed : Bytes → Event

-- The environment. `system` is true where `system_out` returns 0, `popen` gives what the command
-- prints up to a zero, and `regcomp` a matcher; each may fail. `handle` is whether `var_ref_handle` is set.
pub record Context : Type 0 where
  pub memory : ℕ → Bool
  pub handle : Bool
  pub in_commit : Bool
  pub out_stream : Bool
  pub get_var_ref : List Event → Bytes → VarRef
  pub system : List Event → Bytes → Bool
  pub popen : List Event → Bytes → Option Bytes
  pub regcomp : Bytes → Option (Bytes → Bool)

-- The globals, and the log. `exe_string` is read only after an expansion that succeeded.
pub record World : Type 0 where
  pub at_string : Bytes
  pub validate_value : Value
  pub in_validate : Bool
  pub len : ℕ
  pub alloc : ℕ
  pub exe_string : Bytes
  pub log : List Event

abbrev pub logged : World → Event → World
logged w ev = record w { log = w.log ++ (ev ∷ []) }

-- The index of `cond1` and `cond2`.
abbrev pub cond_of : ℕ → Option Cond
cond_of n =
    if n == 0
    then some unset_cond
    else if n == 1
    then some eq_cond
    else if n == 2
    then some ne_cond
    else if n == 3
    then some lt_cond
    else if n == 4
    then some le_cond
    else if n == 5
    then some gt_cond
    else if n == 6
    then some ge_cond
    else if n == 7
    then some in_cond
    else none

-- `strtok` with a space: the words, without empty ones. The first argument is the word so far.
abbrev pub close_word : Bytes → List Bytes → List Bytes
close_word [] ws = ws
close_word (c ∷ s) ws = (c ∷ s) ∷ ws

unfoldable pub words_in : Bytes → Bytes → List Bytes
words_in word [] = close_word word []
words_in word (c ∷ s) =
    let closed = close_word word (words_in [] s) in
    let more = words_in (word ++ (c ∷ [])) s in if c == 32 then closed else more

abbrev pub strtok : Bytes → List Bytes
strtok s = words_in [] s

-- The loop over the words behind the first one.
unfoldable pub add_words : ValType → Value → List Bytes → Outcome Value
add_words t res [] = value res
add_words t res (w ∷ ws) = elim (add_val true true res (record (str2val w) { val_type = t })) [
  | ok (res', vs) ↦ add_words t res' ws
  | Result.failed ↦ undefined
  | fault ↦ undefined
]

-- What `eval_va` makes of the results of `cstore_get_var_ref`: true for the status 0.
unfoldable pub var_value : VarRef → Outcome (Bool × Value)
var_value r =
    if not r.found
    then (if r.ismulti
        then value (
          true,
          record zeroed { ismulti = true; val_type = text_type; free_me = true; val = some [] },
        )
        else value (false, zeroed))
    else elim r.val [
      | none ↦ value (true, zeroed)
      | some s ↦
          let res : Value = record zeroed {
            ismulti = r.ismulti;
            val_type = r.type;
            free_me = true;
          } in
          if same_type r.type text_type
          then elim (strtok s) [
            | [] ↦ value (true, record res { val = some s })
            | w ∷ ws ↦ do
              res' ← add_words r.type (record res { val = some w }) ws
              value (true, res')
          ]
          else value (true, record res { val = some s })
    ]

-- `pathp[0] == '@' && pathp[1] != '@'`
unfoldable pub is_self_path : Bytes → Bool
is_self_path [] = false
is_self_path (c ∷ []) = c == b'@'
is_self_path (c ∷ d ∷ s) = c == b'@' && not (d == b'@')

-- `strstr(s, p) != NULL`
unfoldable pub contains : Bytes → Bytes → Bool
contains p [] = starts_with p []
contains p (c ∷ s) = starts_with p (c ∷ s) || contains p s

abbrev pub errloc : Bytes
errloc = str "_errloc_:"

-- What `HELP_OP` prints of the expanded text.
unfoldable pub help_text : Option Bytes → Bool → Bytes → Bytes
help_text prepend_msg format text =
    if contains (str "_errloc_:[") text
    then (if format then text ++ str "\n\n" else drop 9 text ++ str "\n\n")
    else elim prepend_msg [
      | none ↦ text ++ str "\n"
      | some msg ↦
          let tail = str "[" ++ (msg ++ (str "]\n" ++ (text ++ str "\n\n"))) in
          if format then errloc ++ tail else tail
    ]

abbrev pub is_null : Node → Bool
is_null null = true
is_null (node o i l r) = false

module _ (C : Context) where
  abbrev pub value_of : VarRef → Option Bytes
  value_of r = elim r.found [ true ↦ r.val | false ↦ none ]

  abbrev pub refs : World → Expand.Env
  refs w = record {
    memory = C.memory;
    at_string = w.at_string;
    var_ref = λ path. elim C.handle [ true ↦ value_of (C.get_var_ref w.log path) | false ↦ none ];
  }

  -- `expand_string`: true for `VTWERR_OK`.
  unfoldable pub expand : World → Option Bytes → Outcome (Bool × World)
  expand w none = undefined
  expand w (some s) = elim (expand_string (refs w) w.len w.alloc s) [
    | value (done b) ↦ value (true, record w { len = b.len; alloc = b.alloc; exe_string = b.out })
    | value (failed b) ↦ value (false, record w { len = b.len; alloc = b.alloc })
    | exited ↦ exited
    | undefined ↦ undefined
  ]

  -- `VAR_OP`, on the string of the node.
  unfoldable pub eval_var : World → Bytes → Outcome (Bool × Value)
  eval_var w s =
      if not (starts_with marker s)
      then undefined
      else (let path = drop 5 s in
          if is_self_path path
          then value (true, record w.validate_value { free_me = false })
          else elim (after_paren path) [
            | none ↦ value (false, zeroed)
            | some rest ↦ elim C.handle [
              | true ↦ var_value (C.get_var_ref w.log (before_paren path))
              | false ↦ value (true, zeroed)
            ]
          ])

  -- `eval_va`: true for the status 0; the value is `none` where `res` is left as it was. A command
  -- that cannot be expanded gives 0 as well.
  unfoldable pub eval_va : Node → World → Outcome (Bool × Option Value × World)
  eval_va null w = undefined
  eval_va (node var_op i l r) w = elim i.string [
    | none ↦ undefined
    | some s ↦ do e ← eval_var w s; value (e.0, some e.1, w)
  ]
  eval_va (node val_op i l r) w = value (true, some (record i.val { free_me = false }), w)
  eval_va (node b_quote_op i l r) w = do
    e ← expand w i.string
    elim e.0 [
      | false ↦ value (true, none, e.1)
      | true ↦
          let w' = logged e.1 (quoted e.1.exe_string) in
          elim (C.popen e.1.log e.1.exe_string) [
            | none ↦ value (false, none, w')
            | some text ↦ value (
              true,
              some (record zeroed { val_type = text_type; free_me = true; val = some text }),
              w',
            )
          ]
    ]
  eval_va (node _ i l r) w = value (true, none, w)

  abbrev pub or_zeroed : Option Value → Value
  or_zeroed none = zeroed
  or_zeroed (some v) = v

  unfoldable pub check_comp : Option Cond → Node → Node → World → Outcome (Bool × World)
  check_comp cond l r w = do
    left ← eval_va l w
    elim left.0 [
      | false ↦ value (false, left.2)
      | true ↦ do
        right ← eval_va r left.2
        elim right.0 [
          | false ↦ value (false, right.2)
          | true ↦
              let lv = or_zeroed left.1 in
              let rv = or_zeroed right.1 in
              if not (same_type lv.val_type rv.val_type) && not lv.ismulti
              then value (false, right.2)
              else elim cond [
                | none ↦ undefined
                | some c ↦ do b ← val_cmp lv rv c; value (b, right.2)
              ]
        ]
    ]

  -- `system_out`, true for 0
  unfoldable pub system_out : World → Bool × World
  system_out w = (C.system w.log w.exe_string, logged w (ran w.exe_string))

  -- `EXEC_OP` for one string.
  unfoldable pub run_command : Option Bytes → World → Outcome (Bool × World)
  run_command command w = do
    e ← expand w command
    elim e.0 [ false ↦ value (false, e.1) | true ↦ value (system_out e.1) ]

  -- The loop of `EXEC_OP` over the values that are validated; a null string leaves the at string to
  -- the buffer behind it, which is empty.
  unfoldable pub run_commands : Option Bytes → List (Option Bytes) → World → Outcome (Bool × World)
  run_commands command [] w = value (true, w)
  run_commands command (v ∷ vs) w = do
    e ← run_command command (record w { at_string = elim v [ none ↦ [] | some s ↦ s ] })
    elim e.0 [ false ↦ value (false, e.1) | true ↦ run_commands command vs e.1 ]

  -- `ASSIGN_OP` behind the evaluation: the variable up to a `)`, set where the value is no null pointer.
  unfoldable pub assign : Option Bytes → Value → World → Outcome (Bool × World)
  assign none right w = undefined
  assign (some s) right w =
      if not (starts_with marker s) then value (false, w) else elim right.val [
        | none ↦ value (true, w)
        | some v ↦ value (
          true,
          elim C.handle [ true ↦ logged w (assigned (before_paren (drop 5 s)) v) | false ↦ w ],
        )
      ]

  -- The loop of `PATTERN_OP`; a null string is read by `regexec`.
  unfoldable pub match_all : (Bytes → Bool) → List (Option Bytes) → Outcome Bool
  match_all matches [] = value true
  match_all matches (none ∷ vs) = undefined
  match_all matches (some s ∷ vs) = elim (matches s) [
    | true ↦ match_all matches vs
    | false ↦ value false
  ]

  -- `PATTERN_OP` behind the evaluation: a status sends the local to `free_val`, and without one the
  -- pattern is compiled, with `bye` where it cannot be, before the local is read. The local has no
  -- value before `eval_va` sets it.
  unfoldable pub match_pattern : Option Bytes → Bool → Option Value → Outcome Bool
  match_pattern pattern_string false none = undefined
  match_pattern pattern_string false (some v) = value false
  match_pattern none true left = undefined
  match_pattern (some p) true left = elim (C.regcomp p) [
    | none ↦ exited
    | some matches ↦ elim left [ none ↦ undefined | some v ↦ match_all matches (operands v) ]
  ]

  -- The text of `HELP_OP` is printed where it can be expanded.
  unfoldable pub print_help : Option Bytes → Bool → Option Bytes → World → Outcome World
  print_help prepend_msg format help w = do
    e ← expand w help
    value (
        if e.0 && C.out_stream
        then logged e.1 (printed (help_text prepend_msg format e.1.exe_string))
        else e.1)

  abbrev pub string_of : Node → Option Bytes
  string_of null = none
  string_of (node o i l r) = i.string

  -- An element of a list is checked unless it is for the commit alone, outside of it.
  abbrev pub listed : Bool → Outcome (Bool × World) → World → Outcome (Bool × World)
  listed true checked w = checked
  listed false checked w = value (true, w)

  unfoldable pub check_syn : Option Bytes → Bool → Node → World → Outcome (Bool × World)
  check_syn msg format null w = undefined
  check_syn msg format (node list_op i l r) w = do
    first ← listed (C.in_commit || (i.aux == 0)) (check_syn msg format l w) w
    elim (not first.0 || is_null r) [ true ↦ value first | false ↦ check_syn msg format r first.1 ]
  check_syn msg format (node help_op i l r) w = do
    first ← check_syn msg format l w
    elim first.0 [
      | true ↦ value first
      | false ↦ do w' ← print_help msg format (string_of r) first.1; value (false, w')
    ]
  check_syn msg format (node assign_op i l r) w = do
    right ← eval_va r w
    elim (not right.0 || not ((or_zeroed right.1).cnt == 0)) [
      | true ↦ value (false, right.2)
      | false ↦ assign (string_of l) (or_zeroed right.1) right.2
    ]
  check_syn msg format (node exec_op i l r) w = elim w.in_validate [
    | true ↦ do
      e ← run_commands (string_of l) (operands w.validate_value) w
      value (e.0, record e.1 { at_string = w.at_string })
    | false ↦ run_command (string_of l) w
  ]
  check_syn msg format (node pattern_op i l r) w = do
    left ← eval_va l w
    b ← match_pattern (string_of r) left.0 left.1
    value (b, left.2)
  check_syn msg format (node or_op i l r) w = do
    first ← check_syn msg format l w
    elim first.0 [ true ↦ value first | false ↦ check_syn msg format r first.1 ]
  check_syn msg format (node and_op i l r) w = do
    first ← check_syn msg format l w
    elim first.0 [ true ↦ check_syn msg format r first.1 | false ↦ value first ]
  check_syn msg format (node not_op i l r) w = do
    first ← check_syn msg format l w
    value (not first.0, first.1)
  check_syn msg format (node cond_op i l r) w = check_comp (cond_of i.aux) l r w
  check_syn msg format (node _ i l r) w = exited
