-- ===== src/Syntax/Convert.antt =====
-- `char2val` of src/cliexec/cli_new.c: a text becomes a value of the type that a template asks for.
-- The lexer is generated: its tokens for a text, after the last of which it gives 0, are a parameter.
-- What `printf` writes to the standard output is not modelled.
pub mod Values
use vyatta_cfg.Prelude.Outcome.{Outcome, value, exited, undefined, ◌>>=◌}
use vyatta_cfg.Prelude.{
  ℕ, ◌+◌, ◌<◌, ◌≡◌, refl, sym, ap, ◌∙◌, Bool, true, false, not, ◌&&◌, ◌||◌, List, [], ◌∷◌, ◌++◌,
  Option, none, some, Bytes, str, leb, length, if◌then◌else◌,
}
use vyatta_cfg.Compare.{same_type}
use vyatta_cfg.Syntax.{Context, World, expand, logged, printed}
use vyatta_cfg.Value.{
  Value, ValType, error_type, int_type, ipv4_type, ipv4net_type, ipv6_type, ipv6net_type,
  macaddr_type, domain_type, text_type, bool_type, priority_type, Result, ok, failed, fault,
  add_val, char2val_text, zeroed,
}

-- What of `vtw_def` is read.
pub record Def : Type 0 where
  pub type : ValType
  pub type2 : ValType
  pub type_help : Option Bytes
  pub multi : Bool

-- `VALUE` with what `get_cli_value_ptr` holds, `EOL`, and any other token.
pub data Token : Type 0 where
  val : Value → Token
  eol other : Token

unfoldable pub type_to_name : ValType → Bytes
type_to_name int_type = str "u32"
type_to_name ipv4_type = str "ipv4"
type_to_name ipv4net_type = str "ipv4net"
type_to_name ipv6_type = str "ipv6"
type_to_name ipv6net_type = str "ipv6net"
type_to_name macaddr_type = str "macaddr"
type_to_name domain_type = str "domain"
type_to_name text_type = str "txt"
type_to_name bool_type = str "bool"
type_to_name _ = str "unknown"

abbrev pub has_type : ValType → ValType → Bool
has_type t u = same_type t u

-- `type_buf`
unfoldable pub type_names : Def → Bytes
type_names def =
    if not (has_type def.type2 error_type)
    then type_to_name def.type ++ (str " or " ++ type_to_name def.type2)
    else type_to_name def.type

-- How the conversion ends: with 0 and the value, or with -1 and the message.
pub data Converted : Type 0 where
  converted : Value → Converted
  rejected : Bytes → Converted

-- `sprintf` into the 2048 bytes of the caller's buffer.
abbrev pub in_buffer : Bytes → Outcome Bytes
in_buffer s = if leb (length s + 1) 2048 then value s else undefined

-- A type that the definition does not allow.
unfoldable pub is_refused : Def → ValType → Bool
is_refused def t =
    not (same_type def.type t)
    && (not (same_type def.type2 error_type) && not (same_type def.type2 t))

module _ (C : Context) (def : Def) where
  -- The message for a value of the wrong type: the help text of the type, on the value as the at
  -- string, or a text about it. What a failed expansion leaves in `exe_string` is not defined here.
  unfoldable pub type_message : Bytes → World → Outcome (Bytes × World)
  type_message text w = elim def.type_help [
    | none ↦ do
      m ← in_buffer (
          str "\""
          ++ (text ++ (str "\" is not a valid value of type \"" ++ (type_names def ++ str "\"\n"))))
      value (m, w)
    | some help ↦ do
      e ← expand C (record w { at_string = text }) (some help)
      elim e.0 [
        | false ↦ undefined
        | true ↦ do m ← in_buffer (e.1.exe_string ++ str "\n"); value (m, e.1)
      ]
  ]

  -- A value of a type that is refused: in the first round that ends with -1, later with 0.
  unfoldable pub refuse : Bytes → Option Value → World → Outcome (Converted × World)
  refuse text valp w = do
    m ← type_message text w
    value (elim valp [ none ↦ rejected m.0 | some first ↦ converted first ], m.1)

  -- The value after one more: the first is taken, others are added where the definition allows them.
  unfoldable pub extended : Option Value → Value → Outcome Value
  extended none v = value v
  extended (some first) v = elim def.multi [
    | true ↦ elim (add_val true true first v) [
      | ok (f, s) ↦ value f
      | failed ↦ undefined
      | fault ↦ undefined
    ]
    | false ↦ value first
  ]

  abbrev pub not_value : Bytes → World → Outcome (Converted × World)
  not_value text w = do m ← type_message text w; value (rejected m.0, m.1)

  -- The loop. `valp` is `none` in the first round; the lexer is at the tokens.
  unfoldable pub convert_loop :
      Bytes → Option Value → List Token → World → Outcome (Converted × World)
  convert_loop text none [] w = not_value text w
  convert_loop text (some v) [] w = value (converted v, w)
  convert_loop text valp (eol ∷ ts) w = not_value text w
  convert_loop text valp (other ∷ ts) w = not_value text w
  convert_loop text valp (val v ∷ []) w = elim (is_refused def v.val_type) [
    | true ↦ refuse text valp w
    | false ↦ do next ← extended valp v; value (converted next, w)
  ]
  convert_loop text valp (val v ∷ eol ∷ ts) w = elim (is_refused def v.val_type) [
    | true ↦ refuse text valp w
    | false ↦ do next ← extended valp v; convert_loop text (some next) ts w
  ]
  convert_loop text valp (val v ∷ t ∷ ts) w = elim (is_refused def v.val_type) [
    | true ↦ refuse text valp w
    | false ↦ do
      next ← extended valp v
      m ← in_buffer (str "\"" ++ (text ++ str "\" is not a valid value\n"))
      value (rejected m, w)
  ]

  -- `char2val`: true for 0, and the value that is stored; what a conversion that fails has stored is
  -- not told apart from nothing. The message of a conversion that fails is printed for the user.
  unfoldable pub char2val : (Bytes → List Token) → Bytes → World → Outcome (Bool × Value × World)
  char2val lex text w =
      if not (same_type def.type text_type) && not (same_type def.type error_type)
      then (do
        r ← convert_loop text none (lex text) w
        value (elim r.0 [
          | converted v ↦ (true, v, r.1)
          | rejected m ↦ (false, zeroed, if C.out_stream then logged r.1 (printed m) else r.1)
        ]))
      else elim (char2val_text true text) [
        | ok v ↦ value (true, v, w)
        | failed ↦ value (false, zeroed, w)
        | fault ↦ undefined
      ]
