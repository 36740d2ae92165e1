-- ===== src/Mgmt.antt =====
-- Management errors and the error that a client gets: src/client/error.c.
-- `M` is the type `struct map` of the utility library, and `map_get` its look-up. Memory is at hand.
pub mod Format
use vyatta_cfg.Prelude.Outcome.{Outcome, value, exited, undefined, ◌>>=◌}
use vyatta_cfg.Prelude.{
  ℕ, zero, suc, ◌+◌, ◌-◌, ◌*◌, Bool, true, false, not, ◌&&◌, List, [], ◌∷◌, ◌++◌, Option, none,
  some, Bytes, str, leb, ◌==◌, if◌then◌else◌, length, take,
}

-- `struct configd_mgmt_error`; a null pointer is `none`.
pub record MgmtError (M : Type 0) : Type 0 where
  pub tag : Option Bytes
  pub type : Option Bytes
  pub severity : Option Bytes
  pub app_tag : Option Bytes
  pub path : Option Bytes
  pub message : Option Bytes
  pub info : Option M

-- `struct configd_error`; `mgmt_errs` is `none` while `me_list` is null.
pub record ConfigdError (M : Type 0) : Type 0 where
  pub text : Option Bytes
  pub source : Option Bytes
  pub is_mgmt_error : Bool
  pub mgmt_errs : Option (List (Option (MgmtError M)))

-- `set_value`: the field afterwards.
unfoldable pub set_value : Option Bytes → Option Bytes → Option Bytes
set_value none field = field
set_value (some v) field = some v

-- A text with a default for null: `p ? p : d`.
abbrev pub or_else : Option Bytes → Bytes → Bytes
or_else none d = d
or_else (some s) d = s

-- `snprintf(buf, len, ...)` with a text: at most `len - 1` of its bytes.
abbrev pub snprintf : ℕ → Bytes → Bytes
snprintf len s = take (len - 1) s

-- The loop that puts spaces for slashes, and ends the string at a slash that stands last.
unfoldable pub spaced : Bytes → Bytes
spaced [] = []
spaced (c ∷ []) = if c == b'/' then [] else c ∷ []
spaced (c ∷ d ∷ s) = (if c == b'/' then 32 else c) ∷ spaced (d ∷ s)

-- `(path[0] != '/' ? path : &path[1])`
unfoldable pub drop_slash : Bytes → Bytes
drop_slash [] = []
drop_slash (c ∷ s) = if c == b'/' then s else c ∷ s

-- `[%s]\n\n%s\n\n[[%s]] failed.\n` filled in
abbrev pub error_block : Bytes → Bytes → Bytes
error_block path message =
    str "["
    ++ (path ++ (str "]\n\n" ++ (message ++ (str "\n\n[[" ++ (path ++ str "]] failed.\n")))))

-- `strncat` into a buffer of `bytes` cells, which takes the text and its end or is overrun.
abbrev pub cat : ℕ → Bytes → Bytes → Outcome Bytes
cat bytes text s = if leb (length text + length s + 1) bytes then value (text ++ s) else undefined

module _ {M : Type 0} where
  -- `calloc`: all fields null.
  abbrev pub blank_error : MgmtError M
  blank_error = record {
    tag = none;
    type = none;
    severity = none;
    app_tag = none;
    path = none;
    message = none;
    info = none;
  }

  -- `configd_mgmt_error_set_from_maps` on a map of fields, with the optional map for `info`.
  unfoldable pub configd_mgmt_error_set_from_maps :
      (M → Bytes → Option Bytes) → MgmtError M → M → Option M → MgmtError M
  configd_mgmt_error_set_from_maps map_get me fields info = record me {
    tag = set_value (map_get fields (str "error-tag")) me.tag;
    type = set_value (map_get fields (str "error-type")) me.type;
    severity = set_value (map_get fields (str "error-severity")) me.severity;
    app_tag = set_value (map_get fields (str "error-app-tag")) me.app_tag;
    path = set_value (map_get fields (str "error-path")) me.path;
    message = set_value (map_get fields (str "error-message")) me.message;
    info = elim info [ none ↦ me.info | some i ↦ some i ];
  }

  unfoldable pub configd_mgmt_error_path_space_separated : MgmtError M → Option Bytes
  configd_mgmt_error_path_space_separated me = elim me.path [
    | none ↦ none
    | some [] ↦ none
    | some (c ∷ s) ↦ some (spaced (drop_slash (c ∷ s)))
  ]

  -- `configd_mgmt_error_format_for_commit_or_val`; the length that is allocated cuts the text off.
  unfoldable pub format_mgmt_error : MgmtError M → Bytes
  format_mgmt_error me =
      let path = configd_mgmt_error_path_space_separated me in
      let len =
        length (str "[%s]\n\n%s\n\n[[%s]] failed.\n")
        + length (or_else me.message [])
        + 2 * length (or_else path [])
        + 1 in
      snprintf len (error_block (or_else path []) (or_else me.message []))

  unfoldable pub error_init : Bytes → ConfigdError M
  error_init source = record {
    text = none;
    source = some source;
    is_mgmt_error = false;
    mgmt_errs = none;
  }

  -- The loop over the list: each error goes in front of what there is. For a null entry `strlen`
  -- reads a null pointer.
  unfoldable pub prepend_errors : List (Option (MgmtError M)) → Bytes → Outcome Bytes
  prepend_errors [] output = value output
  prepend_errors (none ∷ mes) output = undefined
  prepend_errors (some me ∷ mes) output =
      let err = format_mgmt_error me in
      prepend_errors mes (snprintf (length output + length err + 1) (err ++ output))

  -- `configd_error_format_for_commit_or_val`: the error afterwards.
  unfoldable pub format_for_commit_or_val : Option Bytes → ConfigdError M → Outcome (ConfigdError M)
  format_for_commit_or_val operation ce =
      if not ce.is_mgmt_error then value ce else elim ce.mgmt_errs [
        | none ↦ value ce
        | some mes ↦ do
          output ←
              prepend_errors mes
                (str "\n" ++ (or_else operation (str "Operation") ++ str " failed!\n"))
          value (record ce { text = some output })
      ]

  -- The bytes that `merge_messages` asks for, the end not counted.
  unfoldable pub message_bytes : List (Option (MgmtError M)) → Outcome ℕ
  message_bytes [] = value 0
  message_bytes (none ∷ mes) = undefined
  message_bytes (some me ∷ mes) = elim me.message [
    | none ↦ undefined
    | some m ↦ do n ← message_bytes mes; value (length m + 1 + n)
  ]

  unfoldable pub cat_messages : ℕ → List (Option (MgmtError M)) → Bytes → Outcome Bytes
  cat_messages bytes [] text = value text
  cat_messages bytes (none ∷ mes) text = undefined
  cat_messages bytes (some me ∷ mes) text = elim me.message [
    | none ↦ undefined
    | some m ↦ do
      t ← cat bytes text (take bytes m)
      t' ← cat bytes t (take bytes (str "\n"))
      cat_messages bytes mes t'
  ]

  unfoldable pub merge_messages : List (Option (MgmtError M)) → Outcome Bytes
  merge_messages mes = do n ← message_bytes mes; cat_messages (n + 1) mes []

  -- The text for a list of errors, given the text that was there.
  unfoldable pub list_text : List (Option (MgmtError M)) → Option Bytes → Outcome (Option Bytes)
  list_text [] text = value (some (str "Unspecified error occurred (no data)\n"))
  list_text (none ∷ []) text = value (some (str "Unspecified error (no content)\n"))
  list_text (some me ∷ []) text = value (set_value me.message text)
  list_text (me ∷ me' ∷ mes) text = do m ← merge_messages (me ∷ me' ∷ mes); value (some m)

  -- `error_set_from_mgmt_error_list`: the error afterwards; it owns the list.
  unfoldable pub error_set_from_mgmt_error_list :
      ConfigdError M → List (Option (MgmtError M)) → Outcome (ConfigdError M)
  error_set_from_mgmt_error_list ce mes = do
    text ← list_text mes ce.text
    value (record ce { text = text; is_mgmt_error = true; mgmt_errs = some mes })

  unfoldable pub configd_error_free : ConfigdError M → ConfigdError M
  configd_error_free ce = record ce { text = none; source = none; mgmt_errs = none }
