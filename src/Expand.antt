-- ===== src/Expand.antt =====
-- `expand_string` of src/cliexec/cli_new.c: the references `$VAR(...)` of a string are replaced in
-- the buffer `exe_string`, which grows by `EXE_STRING_DELTA`.
pub mod Room
pub mod Pieces
pub mod Total
pub mod Refused
use vyatta_cfg.Prelude.Outcome.{Outcome, value, exited, undefined, ◌>>=◌}
use vyatta_cfg.Prelude.{
  ℕ, zero, suc, ◌+◌, ◌-◌, Bool, true, false, not, ◌&&◌, List, [], ◌∷◌, ◌++◌, Option, none, some,
  Bytes, str, ltb, leb, ◌==◌, if◌then◌else◌, length, drop, starts_with,
}

-- The globals `exe_string_len` and `exe_string`, with the bytes that are allocated for it, and the
-- local `left` and what stands in front of `resp`.
pub record Buffer : Type 0 where
  pub len : ℕ
  pub alloc : ℕ
  pub left : ℕ
  pub out : Bytes

-- What the function calls: the result of `realloc` to a size, `get_at_string`, and the string that
-- `cstore_get_var_ref` gives for a path, `none` where it gives none or `var_ref_handle` is not set.
pub record Env : Type 0 where
  pub memory : ℕ → Bool
  pub at_string : Bytes
  pub var_ref : Bytes → Option Bytes

-- `EXE_STRING_DELTA`
abbrev pub delta : ℕ
delta = 512

-- How a pass ends: at the rest of the string, or with the result -1.
pub data Step : Type 0 where
  next : Bytes → Buffer → Step
  error : Buffer → Step

-- The result of the function: `VTWERR_OK` or -1.
pub data Expanded : Type 0 where
  done : Buffer → Expanded
  failed : Buffer → Expanded

-- What `realloc` gives: the larger buffer, or none, and then the old one with the length raised.
pub data Grown : Type 0 where
  enlarged : Buffer → Grown
  no_memory : Buffer → Grown

-- The two places that enlarge the buffer; `exe_string_len` is set before memory is asked for, and
-- stays as it is set.
unfoldable pub grow : Env → Buffer → Grown
grow e b =
    if e.memory (b.len + delta)
    then enlarged (record b { len = b.len + delta; alloc = b.len + delta; left = b.left + delta })
    else no_memory (record b { len = b.len + delta })

-- Bytes to `resp`, and as many of them as `nulls` behind, which must lie in the buffer.
unfoldable pub write : Bytes → ℕ → Buffer → Outcome Buffer
write s nulls b =
    if leb (length b.out + length s + nulls) b.alloc
    then value (record b { out = b.out ++ s; left = b.left - length s })
    else undefined

-- `while (len + 1 > left)`; the first argument bounds the rounds.
unfoldable pub grow_for : ℕ → Env → ℕ → Buffer → Grown
grow_for zero e len b = enlarged b
grow_for (suc rounds) e len b = elim (ltb b.left (len + 1)) [
  | true ↦ elim (grow e b) [ no_memory b' ↦ no_memory b' | enlarged b' ↦ grow_for rounds e len b' ]
  | false ↦ enlarged b
]

-- What stands in front of the first `)`, and behind it.
unfoldable pub before_paren : Bytes → Bytes
before_paren [] = []
before_paren (c ∷ s) = if c == b')' then [] else c ∷ before_paren s

unfoldable pub after_paren : Bytes → Option Bytes
after_paren [] = none
after_paren (c ∷ s) = if c == b')' then some s else after_paren s

abbrev pub marker : Bytes
marker = str "$VAR("

-- Is there a reference: `$VAR(` and at least two more bytes.
unfoldable pub is_reference : Bytes → Bool
is_reference scanp = not (ltb (length scanp) 7) && starts_with marker scanp

unfoldable pub is_self : Bytes → Bool
is_self path = starts_with (str "@)") path

-- The value of a reference goes to the buffer, with its terminating zero.
unfoldable pub put_value : Env → Bytes → Bytes → Buffer → Outcome Step
put_value e cp rest b = elim (grow_for (length cp + 1) e (length cp) b) [
  | no_memory b' ↦ value (error b')
  | enlarged b' ↦ do b'' ← write cp 1 b'; value (next rest b'')
]

-- The branch for a reference, from behind the marker.
unfoldable pub put_reference : Env → Bytes → Buffer → Outcome Step
put_reference e path b =
    if is_self path then put_value e e.at_string (drop 2 path) b else elim (after_paren path) [
      | none ↦ value (error b)
      | some rest ↦ elim (before_paren path) [
        | [] ↦ exited
        | c ∷ name ↦ elim (e.var_ref (c ∷ name)) [
          | none ↦ put_value e [] rest b
          | some cp ↦ put_value e cp rest b
        ]
      ]
    ]

-- A pass at the bytes `c ∷ s`, with room for one byte and the end.
unfoldable pub pass_in : Env → ℕ → Bytes → Buffer → Outcome Step
pass_in e c s b =
    if is_reference (c ∷ s)
    then put_reference e (drop 4 s) b
    else (do b' ← write (c ∷ []) 0 b; value (next s b'))

-- The body of the `do` loop.
unfoldable pub pass : Env → ℕ → Bytes → Buffer → Outcome Step
pass e c s b =
    if leb b.left 1
    then elim (grow e b) [ no_memory b' ↦ value (error b') | enlarged b' ↦ pass_in e c s b' ]
    else pass_in e c s b

-- The loop, on fuel; the end of the string is tested behind the body.
unfoldable pub expand_loop : ℕ → Env → ℕ → Bytes → Buffer → Outcome Expanded
expand_loop zero e c s b = undefined
expand_loop (suc fuel) e c s b = elim (pass e c s b) [
  | value (next (d ∷ r) b') ↦ expand_loop fuel e d r b'
  | value (next [] b') ↦ do b'' ← write [] 1 b'; value (done b'')
  | value (error b') ↦ value (failed b')
  | exited ↦ exited
  | undefined ↦ undefined
]

-- `expand_string`, from the length and the allocation that earlier calls left. The body runs before
-- the end of the string is tested, so an empty string is read behind its end.
unfoldable pub expand_string : Env → ℕ → ℕ → Bytes → Outcome Expanded
expand_string e len alloc [] = undefined
expand_string e len alloc (c ∷ s) =
    expand_loop (length (c ∷ s)) e c s (record { len = len; alloc = alloc; left = len; out = [] })
