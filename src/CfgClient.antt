-- ===== src/CfgClient.antt =====
-- The class `CfgClient` of src/client/CfgClient.cpp: what its methods share, and the texts they cut.
-- The elements of a vector and the entries of a map are parameters. A `std::string` of a null
-- pointer is `undefined`.
pub mod Methods
pub mod Sessions
pub mod Texts
use vyatta_cfg.Client.{Arg, Conn, Returned}
use vyatta_cfg.Cpath.{Uri, url_escape}
use vyatta_cfg.Maps.{entries_map}
use vyatta_cfg.Prelude.Integer.{ℤ, pos, negsuc}
use vyatta_cfg.Prelude.Outcome.{Outcome, value, undefined, ◌>>=◌}
use vyatta_cfg.Prelude.{
  ℕ, zero, suc, Bool, true, false, List, [], ◌∷◌, ◌++◌, Option, none, some, Bytes, str, ◌==◌,
  if◌then◌else◌,
}
use vyatta_cfg.Rpc.{Lib, Exchange, Error}

-- How a method ends: it returns, or throws an exception with a text.
pub data Thrown (A : Type 0) : Type 0 where
  returned : A → Thrown A
  thrown : Bytes → Thrown A

-- `_conn` and `_sessionid`
pub record CfgClient : Type 0 where
  pub conn : Conn
  pub sessionid : Bytes

-- The constructor: whether the connection opens, and the session of the environment.
unfoldable pub new_cfg_client : Bool → Option Bytes → Thrown CfgClient
new_cfg_client false sid = thrown (str "failed to connect to configd")
new_cfg_client true none =
    returned (record { conn = record { session_id = none; req_id = 0 }; sessionid = [] })
new_cfg_client true (some sid) =
    returned (record { conn = record { session_id = some sid; req_id = 0 }; sessionid = sid })

-- `configd_set_session_id`
abbrev pub set_session_id : Conn → Bytes → Conn
set_session_id conn sid = record conn { session_id = some sid }

-- A byte in front of the first of the pieces.
abbrev pub with_byte : ℕ → List Bytes → List Bytes
with_byte c [] = (c ∷ []) ∷ []
with_byte c (w ∷ ws) = (c ∷ w) ∷ ws

-- The pieces between the delimiters.
unfoldable pub pieces : ℕ → Bytes → List Bytes
pieces delim [] = [] ∷ []
pieces delim (c ∷ s) =
    let rest = pieces delim s in if c == delim then [] ∷ rest else with_byte c rest

abbrev pub has_byte : ℕ → Bytes → Bool
has_byte delim [] = false
has_byte delim (c ∷ s) = let rest = has_byte delim s in if c == delim then true else rest

-- `split`
unfoldable pub split : Bytes → ℕ → List Bytes
split [] delim = []
split (c ∷ s) delim = if has_byte delim (c ∷ s) then pieces delim (c ∷ s) else (c ∷ s) ∷ []

-- `string2vec`: the lines of a stream with spaces for the ends of lines.
unfoldable pub string2vec : Bytes → List Bytes
string2vec [] = []
string2vec (c ∷ s) = let rest = string2vec s in if c == 32 then [] ∷ rest else with_byte c rest

-- The values of a map cut at the commas.
unfoldable pub split_values : List (Bytes × Bytes) → List (Bytes × List Bytes)
split_values [] = []
split_values ((k, v) ∷ m) = (k, split v b',') ∷ split_values m

module _ (uri : Uri) where
  -- The loop of `mkpath` from the path that is built so far on; the flag says that a slash goes first.
  unfoldable pub add_components : Bool → Bytes → List Bytes → Outcome Bytes
  add_components later path [] = value path
  add_components later path (c ∷ cs) = do
    e ← url_escape uri c
    add_components true (if later then path ++ (str "/" ++ e) else path ++ e) cs

  unfoldable pub mkpath : List Bytes → Outcome Bytes
  mkpath cfgpath = add_components false (str "/") cfgpath

module _ (L : Lib) where
  abbrev pub fresh_error : Error L
  fresh_error =
      some (record { text = none; source = none; is_mgmt_error = false; mgmt_errs = none })

  abbrev pub error_text : Error L → Option Bytes
  error_text none = none
  error_text (some e) = e.text

  -- An exception with the text of the error.
  abbrev pub throw_error : {B : Type 0} → Error L → Conn → Outcome (Thrown B × Conn)
  throw_error err conn = elim (error_text err) [
    | none ↦ undefined
    | some msg ↦ value (thrown msg, conn)
  ]

  -- An exception with the text of the error, or an empty one.
  abbrev pub throw_any : {B : Type 0} → Error L → Conn → Outcome (Thrown B × Conn)
  throw_any err conn = value (thrown (elim (error_text err) [ none ↦ [] | some msg ↦ msg ]), conn)

  -- -1 is a failure.
  unfoldable pub callintapi : Outcome (Returned L ℤ) → Outcome (Thrown ℤ × Conn)
  callintapi o =
      o >>= λ r. elim r.0 [ negsuc zero ↦ throw_error r.1 r.2 | n ↦ value (returned n, r.2) ]

  -- A null pointer is a failure.
  unfoldable pub callstrapi : Outcome (Returned L (Option Bytes)) → Outcome (Thrown Bytes × Conn)
  callstrapi o =
      o >>= λ r. elim r.0 [ none ↦ throw_error r.1 r.2 | some s ↦ value (returned s, r.2) ]

  -- The same, written out in methods that test the text of the error.
  unfoldable pub call_tested : Outcome (Returned L (Option Bytes)) → Outcome (Thrown Bytes × Conn)
  call_tested o =
      o >>= λ r. elim r.0 [ none ↦ throw_any r.1 r.2 | some s ↦ value (returned s, r.2) ]

  unfoldable pub callvecapi :
      (Lib.Vector L → List Bytes)
      → Outcome (Returned L (Option (Lib.Vector L)))
      → Outcome (Thrown (List Bytes) × Conn)
  callvecapi elements o = o >>= λ r. elim r.0 [
    | none ↦ throw_error r.1 r.2
    | some v ↦ value (returned (elements v), r.2)
  ]

  unfoldable pub callmapapi :
      (Lib.Map L → List Bytes)
      → Outcome (Returned L (Option (Lib.Map L)))
      → Outcome (Thrown (List (Bytes × Bytes)) × Conn)
  callmapapi entries o = o >>= λ r. elim r.0 [
    | none ↦ throw_error r.1 r.2
    | some m ↦ value (returned (entries_map (entries m) []), r.2)
  ]

abbrev pub Method : Type 0 → Type 0
Method A = Outcome (Thrown A × CfgClient)

-- A call on the connection of the object.
abbrev pub on_conn : {A : Type 0} → CfgClient → Outcome (Thrown A × Conn) → Method A
on_conn c o = o >>= λ r. value (r.0, record c { conn = r.1 })

-- What is returned, through a function.
abbrev pub as_result : {A B : Type 0} → (A → B) → Thrown A → Thrown B
as_result f (returned a) = returned (f a)
as_result f (thrown msg) = thrown msg

abbrev pub then_as : {A B : Type 0} → Method A → (A → B) → Method B
then_as o f = o >>= λ r. value (as_result f r.0, r.1)

abbrev pub is_one : ℤ → Bool
is_one (pos (suc zero)) = true
is_one _ = false

-- An `int` as a `bool`.
abbrev pub is_true : ℤ → Bool
is_true (pos zero) = false
is_true _ = true
