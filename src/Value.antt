-- ===== src/Value.antt =====
-- The values of command expressions, `valstruct` of src/cli_cstore.h, and the functions of
-- src/cliexec/cli_new.c that build them: `str2val`, `add_val` and `char2val_text`.
-- An array is the list of its allocated cells, `none` in a cell that was not written. The results
-- of `realloc` and `malloc` are Boolean arguments, true where they give memory.
pub mod Append
pub mod Lines
use vyatta_cfg.Prelude.{
  ℕ, zero, suc, ◌+◌, ◌-◌, ◌*◌, ◌/◌, ◌%◌, Bool, true, false, not, ◌&&◌, List, [], ◌∷◌, ◌++◌, Option,
  none, some, Bytes, ◌==◌, if◌then◌else◌, length, realloc, store, replicate,
}

-- `vtw_type_e`
pub data ValType : Type 0 where
  error_type int_type ipv4_type ipv4net_type ipv6_type ipv6net_type macaddr_type : ValType
  domain_type text_type bool_type priority_type : ValType

-- `valstruct`. A null `val` is `none`, a null array has no cells.
pub record Value : Type 0 where
  pub val_type : ValType
  pub ismulti : Bool
  pub val : Option Bytes
  pub cnt : ℕ
  pub vals : List (Option Bytes)
  pub val_types : List (Option ValType)
  pub free_me : Bool

-- How a call ends: with a result, with the code -1, or in an assertion or a write out of bounds.
pub data Result {ℓ} (A : Type ℓ) : Type ℓ where
  ok : A → Result A
  failed : Result A
  fault : Result A

-- `MULTI_ALLOC`
abbrev pub multi_alloc : ℕ
multi_alloc = 5

-- `memset(&v, 0, sizeof(v))`: type 0 is `ERROR_TYPE`.
abbrev pub zeroed : Value
zeroed = record {
  val_type = error_type;
  ismulti = false;
  val = none;
  cnt = 0;
  vals = [];
  val_types = [];
  free_me = false;
}

unfoldable pub str2val : Bytes → Value
str2val cp = record zeroed { val_type = text_type; val = some cp; free_me = true }

-- The last lines of `add_val`: the string of `second` goes to cell `cnt`.
unfoldable pub put_val : Value → Value → Result (Value × Value)
put_val first second = elim second.val [
  | none ↦ fault
  | some s ↦ elim (store first.vals first.cnt s) [
    | none ↦ fault
    | some vals ↦ elim (store first.val_types first.cnt second.val_type) [
      | none ↦ fault
      | some types ↦ ok (
        record first { vals = vals; val_types = types; cnt = first.cnt + 1 },
        record second { free_me = false },
      )
    ]
  ]
]

-- "single value - convert"
unfoldable pub convert : Value → Result Value
convert first = elim first.val [
  | none ↦ fault
  | some s ↦ elim (store first.vals 0 s) [
    | none ↦ fault
    | some vals ↦ elim (store first.val_types 0 first.val_type) [
      | none ↦ fault
      | some types ↦ ok (record first { vals = vals; val_types = types; cnt = 1; val = none })
    ]
  ]
]

-- Both arrays with five more cells than are in use.
abbrev pub grown : Value → Value
grown first = record first {
  vals = realloc (first.cnt + multi_alloc) first.vals;
  val_types = realloc (first.cnt + multi_alloc) first.val_types;
}

-- `add_val(first, second)`: both values afterwards. The flags are the results of the reallocations
-- of `vals` and of `val_types`; where one gives no memory, the function returns early.
unfoldable pub add_val : Bool → Bool → Value → Value → Result (Value × Value)
add_val vals_ok types_ok first second =
    if not (first.free_me && second.free_me)
    then fault
    else if not (second.cnt == 0)
    then fault
    else if first.cnt % multi_alloc == 0
    then (if not vals_ok
        then ok (first, second)
        else if not types_ok
        then ok (record first { vals = realloc (first.cnt + multi_alloc) first.vals }, second)
        else if first.cnt == 0
        then elim (convert (grown first)) [
          | ok f ↦ put_val f second
          | failed ↦ failed
          | fault ↦ fault
        ]
        else put_val (grown first) second)
    else put_val first second

-- The number of `\n` in a string.
unfoldable pub count_newlines : Bytes → ℕ
count_newlines [] = 0
count_newlines (c ∷ s) = (if c == b'\n' then 1 else 0) + count_newlines s

-- `cp != value && cp[-1] != '\n'` at the end of the string
unfoldable pub open_ended : Bytes → Bool
open_ended [] = false
open_ended (c ∷ []) = not (c == b'\n')
open_ended (c ∷ d ∷ s) = open_ended (d ∷ s)

unfoldable pub line_count : Bytes → ℕ
line_count value =
    let closed = count_newlines value in
    let lines = if open_ended value then closed + 1 else closed in if lines == 0 then 1 else lines

-- What stands before the first `\n`, and what stands behind it: the two uses of `strchr`.
unfoldable pub before_newline : Bytes → Bytes
before_newline [] = []
before_newline (c ∷ s) = if c == b'\n' then [] else c ∷ before_newline s

unfoldable pub after_newline : Bytes → Option Bytes
after_newline [] = none
after_newline (c ∷ s) = if c == b'\n' then some s else after_newline s

-- The loop over `cnt < linecnt`; the first argument is the rounds that are left. Behind the last
-- newline the loop asserts that no round is left.
unfoldable pub fill_lines : ℕ → ℕ → Bytes → List (Option Bytes) → Result (List (Option Bytes))
fill_lines zero cnt cp vals = ok vals
fill_lines (suc rounds) cnt cp vals = elim (store vals cnt (before_newline cp)) [
  | none ↦ fault
  | some vals' ↦ elim (after_newline cp) [
    | some rest ↦ fill_lines rounds (cnt + 1) rest vals'
    | none ↦ if rounds == 0 then ok vals' else fault
  ]
]

abbrev pub text_value : Value
text_value = record zeroed { val_type = text_type; free_me = true }

-- `char2val_text`; the flag is false where one of the two arrays gets no memory.
unfoldable pub char2val_text : Bool → Bytes → Result Value
char2val_text mem value =
    let linecnt = line_count value in
    let cells = (linecnt + multi_alloc - 1) / multi_alloc * multi_alloc in
    if linecnt == 1
    then ok (record text_value { val = some (before_newline value) })
    else if not mem
    then failed
    else elim (fill_lines linecnt 0 value (replicate cells none)) [
      | ok vals ↦ ok (record text_value {
        cnt = linecnt;
        vals = vals;
        val_types = replicate cells (some error_type);
      })
      | failed ↦ failed
      | fault ↦ fault
    ]

-- The strings that a value stands for: its one string, or the first `cnt` cells.
abbrev pub filled : ℕ → List (Option Bytes) → List Bytes
filled zero cells = []
filled (suc n) [] = []
filled (suc n) (none ∷ cells) = filled n cells
filled (suc n) (some s ∷ cells) = s ∷ filled n cells

unfoldable pub contents : Value → List Bytes
contents v = elim v.cnt [
  | zero ↦ elim v.val [ none ↦ [] | some s ↦ s ∷ [] ]
  | suc n ↦ filled (suc n) v.vals
]
