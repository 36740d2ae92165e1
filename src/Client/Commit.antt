-- ===== src/Client/Commit.antt =====
-- The remote calls of src/client/transaction.c. How `argz_create_sep` cuts a text into elements is
-- the parameter `create_sep`, and the text of a length in decimal is `decimal`.
use vyatta_cfg.Client.{
  Arg, text, number, flag, Conn, Returned, init, call_int, call_done, call_str, call_formatted,
}
use vyatta_cfg.Client.Paths.{make_paths}
use vyatta_cfg.Prelude.Integer.{ℤ}
use vyatta_cfg.Prelude.Outcome.{Outcome, value}
use vyatta_cfg.Prelude.{
  ℕ, zero, suc, ◌+◌, ◌/◌, ◌%◌, Bool, true, false, List, [], ◌∷◌, ◌++◌, Option, none, some, Bytes,
  str, ◌==◌, length,
}
use vyatta_cfg.Rpc.{Lib, Exchange, Error, error_setf}

abbrev pub session_or_empty : Conn → Bytes
session_or_empty conn = elim conn.session_id [ none ↦ [] | some s ↦ s ]

-- `SHOWF_DEFAULTS`, 1, and `SHOWF_HIDE_SECRETS`, 2.
abbrev pub has_flag : ℕ → ℕ → Bool
has_flag bit flags = flags / bit % 2 == 1

-- The bytes that the elements take, each with its end.
abbrev pub argz_size : List Bytes → ℕ
argz_size [] = 0
argz_size (e ∷ es) = length e + 1 + argz_size es

module _ (L : Lib) (json_pack : List Arg → Option (Lib.Json L))
    (ask : Bytes → Lib.Json L → ℕ → Exchange L) where
  unfoldable pub configd_show :
      Conn
      → ℤ
      → Option Bytes
      → Option Bytes
      → Option Bytes
      → ℕ
      → Error L
      → Outcome (Returned L (Option Bytes))
  configd_show conn db cpath (some cfg1) (some cfg2) flags error =
      let fn : Bytes = elim (has_flag 1 flags) [ true ↦ str "ShowDefaults" | false ↦ str "Show" ] in
      let path : Bytes = elim cpath [ none ↦ [] | some p ↦ p ] in
      call_str L json_pack ask conn (str "configd_show") fn
        (number db
          ∷ text (some (session_or_empty conn))
          ∷ text (some path)
          ∷ flag (has_flag 2 flags)
          ∷ [])
        error
  configd_show conn db cpath _ _ flags error = value (none, error, conn)

  unfoldable pub configd_set : Conn → Option Bytes → Error L → Outcome (Returned L (Option Bytes))
  configd_set conn cpath error =
      call_str L json_pack ask conn (str "configd_set") (str "Set")
        (text conn.session_id ∷ text cpath ∷ []) error

  unfoldable pub configd_validate_path :
      Conn → Option Bytes → Error L → Outcome (Returned L (Option Bytes))
  configd_validate_path conn cpath error =
      call_str L json_pack ask conn (str "configd_validate_path") (str "ValidatePath")
        (text conn.session_id ∷ text cpath ∷ []) error

  unfoldable pub configd_delete :
      Conn → Option Bytes → Error L → Outcome (Returned L (Option Bytes))
  configd_delete conn cpath error =
      call_done L json_pack ask conn (str "configd_delete") (str "Delete")
        (text conn.session_id ∷ text cpath ∷ []) error

  unfoldable pub configd_comment :
      Conn → Option Bytes → Error L → Outcome (Returned L (Option Bytes))
  configd_comment conn cpath error =
      call_done L json_pack ask conn (str "configd_comment") (str "Comment")
        (text conn.session_id ∷ text cpath ∷ []) error

  unfoldable pub configd_commit :
      Conn → Option Bytes → Error L → Outcome (Returned L (Option Bytes))
  configd_commit conn comment error =
      call_formatted L json_pack ask (str "Commit") conn (str "configd_commit") (str "Commit")
        (text conn.session_id ∷ text comment ∷ flag false ∷ []) error

  unfoldable pub configd_confirmed_commit :
      Conn
      → Option Bytes
      → Bool
      → Option Bytes
      → Option Bytes
      → Option Bytes
      → Error L
      → Outcome (Returned L (Option Bytes))
  configd_confirmed_commit conn comment confirmed timeout persist persistid error =
      call_formatted L json_pack ask (str "ConfirmedCommit") conn (str "configd_confirmed_commit")
        (str "ConfirmedCommit")
        (text conn.session_id
          ∷ text comment
          ∷ flag confirmed
          ∷ text timeout
          ∷ text persist
          ∷ text persistid
          ∷ flag false
          ∷ [])
        error

  unfoldable pub configd_cancel_commit :
      Conn → Option Bytes → Option Bytes → Error L → Outcome (Returned L (Option Bytes))
  configd_cancel_commit conn comment persistid error =
      call_str L json_pack ask conn (str "configd_cancel_commit") (str "CancelCommit")
        (text conn.session_id ∷ text comment ∷ text persistid ∷ flag false ∷ flag false ∷ []) error

  unfoldable pub configd_discard : Conn → Error L → Outcome (Returned L (Option Bytes))
  configd_discard conn error =
      call_done L json_pack ask conn (str "configd_discard") (str "Discard")
        (text conn.session_id ∷ []) error

  abbrev pub configd_load_internal : Conn → Option Bytes → Error L → Bytes → Outcome (Returned L ℤ)
  configd_load_internal conn file error fn =
      call_int L json_pack ask conn (str "configd_load_internal") fn
        (text conn.session_id ∷ text file ∷ []) error

  unfoldable pub configd_load : Conn → Option Bytes → Error L → Outcome (Returned L ℤ)
  configd_load conn file error = configd_load_internal conn file error (str "Load")

  unfoldable pub configd_load_report_warnings :
      Conn → Option Bytes → Error L → Outcome (Returned L ℤ)
  configd_load_report_warnings conn file error =
      configd_load_internal conn file error (str "LoadReportWarnings")

  unfoldable pub configd_merge : Conn → Option Bytes → Error L → Outcome (Returned L ℤ)
  configd_merge conn file error = configd_load_internal conn file error (str "MergeReportWarnings")

  unfoldable pub configd_validate : Conn → Error L → Outcome (Returned L (Option Bytes))
  configd_validate conn error =
      call_formatted L json_pack ask (str "Validate") conn (str "configd_validate") (str "Validate")
        (text conn.session_id ∷ []) error

  unfoldable pub configd_validate_config :
      Conn → Option Bytes → Option Bytes → Error L → Outcome (Returned L (Option Bytes))
  configd_validate_config conn encoding config error =
      call_formatted L json_pack ask (str "Validate") conn (str "configd_validate_config")
        (str "ValidateConfig") (text conn.session_id ∷ text encoding ∷ text config ∷ []) error

  unfoldable pub configd_edit_config_xml :
      Conn
      → Option Bytes
      → Option Bytes
      → Option Bytes
      → Option Bytes
      → Option Bytes
      → Error L
      → Outcome (Returned L (Option Bytes))
  configd_edit_config_xml conn config_target default_operation test_option error_option config
        error =
      call_str L json_pack ask conn (str "configd_edit_config_xml") (str "EditConfigXML")
        (text conn.session_id
          ∷ text config_target
          ∷ text default_operation
          ∷ text test_option
          ∷ text error_option
          ∷ text config
          ∷ [])
        error

  unfoldable pub configd_copy_config :
      Conn
      → Option Bytes
      → Option Bytes
      → Option Bytes
      → Option Bytes
      → Option Bytes
      → Option Bytes
      → Error L
      → Outcome (Returned L (Option Bytes))
  configd_copy_config conn source_datastore source_encoding source_config source_url
        target_datastore target_url error =
      call_str L json_pack ask conn (str "configd_copy_config") (str "CopyConfig")
        (text conn.session_id
          ∷ text source_datastore
          ∷ text source_encoding
          ∷ text source_config
          ∷ text source_url
          ∷ text target_datastore
          ∷ text target_url
          ∷ [])
        error

  module _ (create_sep : ℕ → Bytes → List Bytes) (decimal : ℕ → Bytes) where
    -- The course of `configd_rename` and `configd_copy`.
    abbrev pub move : Bytes → Bytes → Conn → Bytes → Error L → Outcome (Returned L (Option Bytes))
    move source fn conn cpath error = elim (make_paths create_sep cpath) [
      | none ↦ value (none, error, conn)
      | some (from, to) ↦
          call_str L json_pack ask conn source fn
            (text conn.session_id ∷ text (some from) ∷ text (some to) ∷ []) error
    ]

    unfoldable pub configd_rename : Conn → Bytes → Error L → Outcome (Returned L (Option Bytes))
    configd_rename = move (str "configd_rename") (str "Rename")

    unfoldable pub configd_copy : Conn → Bytes → Error L → Outcome (Returned L (Option Bytes))
    configd_copy = move (str "configd_copy") (str "Copy")

    abbrev save : Conn → Error L → Outcome (Returned L (Option Bytes))
    save conn error =
        call_done L json_pack ask conn (str "configd_save") (str "Save")
          (text (some (str "/config/config.boot")) ∷ []) error

    -- The number in the message is the size of the vector, not its count.
    unfoldable pub configd_save :
        Conn → Option Bytes → Error L → Outcome (Returned L (Option Bytes))
    configd_save conn none error = save conn error
    configd_save conn (some args) error = elim (argz_size (create_sep b' ' args)) [
      | zero ↦ save conn error
      | suc n ↦ value (
        none,
        error_setf L (init L (str "configd_save") error)
            (str "Expected no arguments got " ++ decimal (suc n)),
        conn,
      )
    ]
