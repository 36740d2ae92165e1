-- ===== src/Rpc.antt =====
-- Requests to configd and the responses: src/client/connect.c.
-- The JSON library, the maps and the vectors of the utility library are the parameter `Lib`. The
-- memory that argz, `calloc` and `strdup` ask for is at hand; what is freed is not modelled.
pub mod Receive
use vyatta_cfg.Mgmt.{
  MgmtError, ConfigdError, blank_error, configd_mgmt_error_set_from_maps,
  error_set_from_mgmt_error_list,
}
use vyatta_cfg.Prelude.Integer.{ℤ, pos, negsuc, to_unsigned, to_int}
use vyatta_cfg.Prelude.Outcome.{Outcome, value, exited, undefined, ◌>>=◌}
use vyatta_cfg.Prelude.{
  ℕ, zero, suc, ◌+◌, ◌%◌, ◌^◌, Bool, true, false, not, ◌&&◌, List, [], ◌∷◌, ◌++◌, Option, none,
  some, Bytes, str, str_eq, ◌==◌, if◌then◌else◌,
}

-- `json_typeof`
pub data Kind : Type 0 where
  object array string integer real true_kind false_kind null : Kind

-- What the client uses of jansson and of the utility library.
pub record Lib : Type 1 where
  pub Json : Type 0
  pub Map : Type 0
  pub Vector : Type 0
  pub kind : Json → Kind
  pub string_value : Json → Option Bytes
  pub integer_value : Json → ℤ
  pub elements : Json → List Json
  pub members : Json → List (Bytes × Json)
  pub object_get : Json → Bytes → Option Json
  pub map_new : List (Bytes × Bytes) → Option Map
  pub map_get : Map → Bytes → Option Bytes
  pub vector_new : List Bytes → Option Vector

-- The types that a response gets.
pub data RespType : Type 0 where
  init_resp string_resp int_resp status_resp vector_resp map_resp error_resp mgmterror_resp :
      RespType

-- The union `result`.
pub data Payload (M V : Type 0) : Type 0 where
  zeroed : Payload M V
  int_val : ℤ → Payload M V
  str_val : Option Bytes → Payload M V
  vector_val : Option V → Payload M V
  map_val : Option M → Payload M V
  errors_val : List (Option (MgmtError M)) → Payload M V

-- `struct response`; `none` is a field that was never set.
pub record Response (M V : Type 0) : Type 0 where
  pub type : Option RespType
  pub result : Payload M V
  pub id : Option ℕ

-- `envz_add`: an entry of the same name is removed, and the new one stands last.
unfoldable pub envz_remove : Bytes → List (Bytes × Bytes) → List (Bytes × Bytes)
envz_remove k [] = []
envz_remove k ((j, v) ∷ m) =
    let rest = envz_remove k m in if str_eq j k then rest else (j, v) ∷ rest

unfoldable pub envz_add : Bytes → Bytes → List (Bytes × Bytes) → List (Bytes × Bytes)
envz_add k v m = envz_remove k m ++ ((k, v) ∷ [])

abbrev pub is_kind : Kind → Kind → Bool
is_kind object object = true
is_kind array array = true
is_kind string string = true
is_kind integer integer = true
is_kind real real = true
is_kind true_kind true_kind = true
is_kind false_kind false_kind = true
is_kind null null = true
is_kind _ _ = false

module _ (L : Lib) where
  open L use {
    Json, Map, Vector, kind, string_value, integer_value, elements, members, object_get, map_new,
    map_get, vector_new,
  }

  abbrev pub Resp : Type 0
  Resp = Response Map Vector

  -- The loops over an array and over the members of an object that gather strings.
  unfoldable pub strings_of : List Json → Option (List Bytes)
  strings_of [] = some []
  strings_of (j ∷ js) = elim (string_value j) [
    | none ↦ none
    | some s ↦ elim (strings_of js) [ none ↦ none | some ss ↦ some (s ∷ ss) ]
  ]

  unfoldable pub jarray_to_vector : Json → Option Vector
  jarray_to_vector jobj = elim (strings_of (elements jobj)) [
    | none ↦ none
    | some ss ↦ vector_new ss
  ]

  -- The flag is `only_allow_strings`.
  unfoldable pub add_members :
      Bool → List (Bytes × Json) → List (Bytes × Bytes) → Option (List (Bytes × Bytes))
  add_members strict [] envz = some envz
  add_members strict ((key, jval) ∷ ms) envz = elim (string_value jval) [
    | none ↦ elim strict [ true ↦ none | false ↦ add_members strict ms envz ]
    | some v ↦ add_members strict ms (envz_add key v envz)
  ]

  unfoldable pub jobj_to_map : Json → Bool → Option Map
  jobj_to_map jobj strict = elim (add_members strict (members jobj) []) [
    | none ↦ none
    | some envz ↦ map_new envz
  ]

  unfoldable pub add_arrays : List Json → List (Bytes × Bytes) → Option (List (Bytes × Bytes))
  add_arrays [] envz = some envz
  add_arrays (jmap ∷ js) envz = elim (add_members true (members jmap) envz) [
    | none ↦ none
    | some envz' ↦ add_arrays js envz'
  ]

  unfoldable pub jarray_to_map : Json → Option Map
  jarray_to_map jobj = elim (add_arrays (elements jobj) []) [
    | none ↦ none
    | some envz ↦ map_new envz
  ]

  -- `jobj_is_null`: no value, or the value null.
  unfoldable pub jobj_is_null : Option Json → Bool
  jobj_is_null none = true
  jobj_is_null (some j) = is_kind (kind j) null

  -- `json_object_get(jobj, key)`, unless it is null.
  unfoldable pub non_null_entry : Json → Bytes → Option Json
  non_null_entry jobj key = if jobj_is_null (object_get jobj key) then none else object_get jobj key

  -- `extract_mgmt_error_info_as_map`: `none` is the result -1.
  unfoldable pub extract_mgmt_error_info_as_map : Json → Option (Option Map)
  extract_mgmt_error_info_as_map jobj = elim (non_null_entry jobj (str "error-info")) [
    | none ↦ some none
    | some jinfo ↦ elim (jarray_to_map jinfo) [ none ↦ none | some m ↦ some (some m) ]
  ]

  -- One pass of `process_errlist_array`.
  unfoldable pub process_error : Json → Option (MgmtError Map)
  process_error jmap =
      if not (is_kind (kind jmap) object) then none else elim (jobj_to_map jmap false) [
        | none ↦ none
        | some fields ↦ elim (extract_mgmt_error_info_as_map jmap) [
          | none ↦ none
          | some info ↦ some (configd_mgmt_error_set_from_maps map_get blank_error fields info)
        ]
      ]

  -- `process_errlist_array`: `none` is the result -1, with the list emptied.
  unfoldable pub process_errlist_array : List Json → Option (List (Option (MgmtError Map)))
  process_errlist_array [] = some []
  process_errlist_array (j ∷ js) = elim (process_error j) [
    | none ↦ none
    | some me ↦ elim (process_errlist_array js) [ none ↦ none | some mes ↦ some (some me ∷ mes) ]
  ]

  -- `extract_mgmt_error_list`: true for 0, and the response afterwards.
  unfoldable pub extract_mgmt_error_list : Json → Resp → Bool × Resp
  extract_mgmt_error_list jobj resp =
      let typed : Resp = record resp { type = some mgmterror_resp } in
      if not (is_kind (kind jobj) object)
      then (false, typed)
      else elim (object_get jobj (str "error-list")) [
        | none ↦ (false, typed)
        | some jarray ↦
            if not (is_kind (kind jarray) array) then (false, typed) else elim (elements jarray) [
              | [] ↦ (false, typed)
              | j ∷ js ↦ elim (process_errlist_array (j ∷ js)) [
                | none ↦ (false, record typed { result = errors_val [] })
                | some mes ↦ (true, record typed { result = errors_val mes })
              ]
            ]
      ]

  abbrev pub is_set {ℓ} : {A : Type ℓ} → Option A → Bool
  is_set none = false
  is_set (some a) = true

  -- `extract_result`; a real number, or null, sets nothing and is no failure.
  unfoldable pub extract_result : Json → Resp → Bool × Resp
  extract_result jresult resp = elim (kind jresult) [
    | true_kind ↦ (true, record resp { type = some int_resp; result = int_val (pos 1) })
    | false_kind ↦ (true, record resp { type = some int_resp; result = int_val (pos 0) })
    | integer ↦ (
      true,
      record resp { type = some int_resp; result = int_val (to_int (integer_value jresult)) },
    )
    | string ↦
        (true, record resp { type = some string_resp; result = str_val (string_value jresult) })
    | array ↦
        let v = jarray_to_vector jresult in
        (is_set v, record resp { type = some vector_resp; result = vector_val v })
    | object ↦
        let m = jobj_to_map jresult true in
        (is_set m, record resp { type = some map_resp; result = map_val m })
    | real ↦ (true, resp)
    | null ↦ (true, resp)
  ]

  -- The end of `recv_response`: the id of the response. The flag is what `ret` was before.
  unfoldable pub check_id : Bool → ℕ → Json → Resp → Bool × Resp
  check_id ret req_id jresp resp = elim (object_get jresp (str "id")) [
    | none ↦ (ret, resp)
    | some jid ↦
        if not (is_kind (kind jid) integer)
        then (ret, resp)
        else (let id = to_unsigned (integer_value jid) in
            (req_id == id, record resp { id = some id }))
  ]

  -- `recv_response` behind the reading, on what `json_loadf` gave, if it gave anything.
  unfoldable pub recv_response : ℕ → Option Json → Resp → Bool × Resp
  recv_response req_id none resp = (false, record resp { result = zeroed })
  recv_response req_id (some jresp) resp₀ =
      let resp : Resp = record resp₀ { result = zeroed } in
      if is_kind (kind jresp) null
      then (false, resp)
      else elim (non_null_entry jresp (str "result")) [
        | some jresult ↦
            let (ok, r) = extract_result jresult resp in
            if ok then check_id true req_id jresp r else (false, r)
        | none ↦ elim (non_null_entry jresp (str "error")) [
          | some jobj ↦
              let typed : Resp = record resp { type = some error_resp } in
              if not (is_kind (kind jobj) string)
              then (false, typed)
              else check_id false req_id jresp
                  (record typed { result = str_val (string_value jobj) })
          | none ↦ elim (non_null_entry jresp (str "mgmterrorlist")) [
            | some jobj ↦
                let (ok, r) = extract_mgmt_error_list jobj resp in
                if ok then check_id true req_id jresp r else (false, r)
            | none ↦ check_id false req_id jresp resp
          ]
        ]
      ]

  -- The state of a connection that a request changes or reads.
  abbrev pub Error : Type 0
  Error = Option (ConfigdError Map)

  -- What happens on the socket: whether the request could be packed and written, and what the first
  -- text that `json_loadf` can read before the end of the stream holds.
  pub record Exchange : Type 0 where
    pub sent : Bool
    pub reply : Option Json

  -- `error_setf` on an error that may be null.
  unfoldable pub error_setf : Error → Bytes → Error
  error_setf none text = none
  error_setf (some ce) text = some (record ce { text = some text })

  abbrev pub blank_response : Resp
  blank_response = record { type = none; result = zeroed; id = none }

  -- `error_set_from_mgmt_error_list` on an error that may be null.
  unfoldable pub set_mgmt_errors : Error → List (Option (MgmtError Map)) → Outcome Error
  set_mgmt_errors none mes = value none
  set_mgmt_errors (some ce) mes = do ce' ← error_set_from_mgmt_error_list ce mes; value (some ce')

  -- `"%s\n"` with the string of an error response; the library prints a null string as `(null)`.
  abbrev pub error_line : Payload Map Vector → Bytes
  error_line (str_val (some s)) = s ++ str "\n"
  error_line _ = str "(null)\n"

  abbrev pub errors_in : Payload Map Vector → List (Option (MgmtError Map))
  errors_in (errors_val mes) = mes
  errors_in _ = []

  -- What the four functions `get_int`, `get_str`, `get_vector` and `get_map` do with a response
  -- that is not of their type; a type that was never set is read.
  unfoldable pub refuse_response : Error → Resp → Outcome Error
  refuse_response error resp = elim resp.type [
    | none ↦ undefined
    | some error_resp ↦ value (error_setf error (error_line resp.result))
    | some mgmterror_resp ↦ set_mgmt_errors error (errors_in resp.result)
    | some _ ↦ value error
  ]

  -- Their common course, with the case for the type that they return: the value, `none` for -1 or
  -- a null pointer, the error and the connection's `req_id` afterwards.
  unfoldable pub get_response :
      {A : Type 0} → (Resp → Option A) → ℕ → Exchange → Error → Outcome (Option A × Error × ℕ)
  get_response select req_id x error =
      let req_id' = (req_id + 1) % 2 ^ 32 in
      if not x.sent
      then value (none, error_setf error (str "Error sending request"), req_id')
      else (let (ok, resp) = recv_response req_id' x.reply blank_response in
          if not ok
          then value (none, error_setf error (str "Error receiving response"), req_id')
          else elim (select resp) [
            | some a ↦ value (some a, error, req_id')
            | none ↦ do error' ← refuse_response error resp; value (none, error', req_id')
          ])

  abbrev pub select_int : Resp → Option ℤ
  select_int r = elim r.type [
    | some int_resp ↦ elim r.result [ int_val n ↦ some n | _ ↦ none ]
    | _ ↦ none
  ]

  abbrev pub select_str : Resp → Option (Option Bytes)
  select_str r = elim r.type [
    | some string_resp ↦ elim r.result [ str_val s ↦ some s | _ ↦ none ]
    | _ ↦ none
  ]

  abbrev pub select_vector : Resp → Option (Option Vector)
  select_vector r = elim r.type [
    | some vector_resp ↦ elim r.result [ vector_val v ↦ some v | _ ↦ none ]
    | _ ↦ none
  ]

  abbrev pub select_map : Resp → Option (Option Map)
  select_map r = elim r.type [
    | some map_resp ↦ elim r.result [ map_val m ↦ some m | _ ↦ none ]
    | _ ↦ none
  ]

  unfoldable pub get_int : ℕ → Exchange → Error → Outcome (Option ℤ × Error × ℕ)
  get_int = get_response select_int

  unfoldable pub get_str : ℕ → Exchange → Error → Outcome (Option (Option Bytes) × Error × ℕ)
  get_str = get_response select_str

  unfoldable pub get_vector : ℕ → Exchange → Error → Outcome (Option (Option Vector) × Error × ℕ)
  get_vector = get_response select_vector

  unfoldable pub get_map : ℕ → Exchange → Error → Outcome (Option (Option Map) × Error × ℕ)
  get_map = get_response select_map
