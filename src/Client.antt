-- ===== src/Client.antt =====
-- The remote calls of the client library: what src/client/session.c, transaction.c, node.c,
-- template.c, callrpc.c, auth.c and file.c share, and their common course. The socket is the
-- parameter `ask`: what happens there when a method is asked for, with its arguments and its id.
pub mod Paths
pub mod Calls
pub mod Commit
pub mod Edit
pub mod Failed
pub mod Answered
use vyatta_cfg.Mgmt.{error_init, format_for_commit_or_val}
use vyatta_cfg.Prelude.Integer.{ℤ, pos, negsuc}
use vyatta_cfg.Prelude.Outcome.{Outcome, value, exited, undefined, ◌>>=◌}
use vyatta_cfg.Prelude.{
  ℕ, zero, suc, Bool, true, false, List, [], ◌∷◌, Option, none, some, Bytes, str,
}
use vyatta_cfg.Rpc.{Lib, Exchange, Error, get_int, get_str, get_vector, get_map}

-- What `json_pack` gets for `s`, `i` and `b`, and for the object of two flags `{sbsb}`.
pub data Arg : Type 0 where
  text : Option Bytes → Arg
  number : ℤ → Arg
  flag : Bool → Arg
  options : Bool → Bool → Arg

-- `struct configd_conn`, as far as the calls read or change it.
pub record Conn : Type 0 where
  pub session_id : Option Bytes
  pub req_id : ℕ

-- What a call returns, with the error and the connection afterwards.
abbrev pub Returned : Lib → Type 0 → Type 0
Returned L A = A × Error L × Conn

-- `error_init` on an error that may be null.
unfoldable pub init : (L : Lib) → Bytes → Error L → Error L
init L source none = none
init L source (some ce) = some (error_init source)

-- -1 stands for an answer that is no number.
abbrev pub int_or_failed : Option ℤ → ℤ
int_or_failed none = negsuc 0
int_or_failed (some n) = n

-- `result != -1 ? !result : -1`
abbrev pub inverted : Option ℤ → ℤ
inverted none = negsuc 0
inverted (some (pos zero)) = pos 1
inverted (some (pos (suc n))) = pos 0
inverted (some (negsuc zero)) = negsuc 0
inverted (some (negsuc (suc n))) = pos 0

-- `(result == 1) ? strdup("") : NULL`
abbrev pub empty_if_one : Option ℤ → Option Bytes
empty_if_one (some (pos (suc zero))) = some []
empty_if_one _ = none

-- A null pointer is `none`, be it for a failure or in the answer.
abbrev pub pointer {ℓ} : {A : Type ℓ} → Option (Option A) → Option A
pointer none = none
pointer (some p) = p

module _ (L : Lib) (json_pack : List Arg → Option (Lib.Json L))
    (ask : Bytes → Lib.Json L → ℕ → Exchange L) where
  -- The common course of a call, with what it returns when the arguments cannot be packed, the
  -- function that sends and receives, and what it makes of the answer.
  unfoldable pub call :
      {A B : Type 0}
      → (ℕ → Exchange L → Error L → Outcome (Option A × Error L × ℕ))
      → B
      → (Option A → B)
      → Conn
      → Bytes
      → Bytes
      → List Arg
      → Error L
      → Outcome (Returned L B)
  call get failed made conn source fn args error = elim (json_pack args) [
    | none ↦ value (failed, error, conn)
    | some packed ↦ do
      answer ← get conn.req_id (ask fn packed conn.req_id) (init L source error)
      value (made answer.0, answer.1, record conn { req_id = answer.2 })
  ]

  unfoldable pub call_int : Conn → Bytes → Bytes → List Arg → Error L → Outcome (Returned L ℤ)
  call_int = call (get_int L) (negsuc 0) int_or_failed

  unfoldable pub call_inverted : Conn → Bytes → Bytes → List Arg → Error L → Outcome (Returned L ℤ)
  call_inverted = call (get_int L) (negsuc 0) inverted

  unfoldable pub call_done :
      Conn → Bytes → Bytes → List Arg → Error L → Outcome (Returned L (Option Bytes))
  call_done = call (get_int L) none empty_if_one

  unfoldable pub call_str :
      Conn → Bytes → Bytes → List Arg → Error L → Outcome (Returned L (Option Bytes))
  call_str = call (get_str L) none pointer

  unfoldable pub call_vector :
      Conn → Bytes → Bytes → List Arg → Error L → Outcome (Returned L (Option (Lib.Vector L)))
  call_vector = call (get_vector L) none pointer

  unfoldable pub call_map :
      Conn → Bytes → Bytes → List Arg → Error L → Outcome (Returned L (Option (Lib.Map L)))
  call_map = call (get_map L) none pointer

  -- `call_str`, and `configd_error_format_for_commit_or_val` if the request was packed.
  unfoldable pub call_formatted :
      Bytes → Conn → Bytes → Bytes → List Arg → Error L → Outcome (Returned L (Option Bytes))
  call_formatted operation conn source fn args error = elim (json_pack args) [
    | none ↦ value (none, error, conn)
    | some packed ↦ do
      answer ← call_str conn source fn args error
      elim answer.1 [
        | none ↦ value answer
        | some ce ↦ do
          ce' ← format_for_commit_or_val (some operation) ce
          value (answer.0, some ce', answer.2)
      ]
  ]
