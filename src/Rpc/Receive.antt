-- ===== src/Rpc/Receive.antt =====
-- What the client makes of a response: `recv_response` and the functions on it of
-- src/client/connect.c.
use vyatta_cfg.Mgmt.{MgmtError}
use vyatta_cfg.Prelude.Integer.{to_unsigned}
use vyatta_cfg.Prelude.Outcome.{value}
use vyatta_cfg.Prelude.{
  ℕ, ◌+◌, ◌%◌, ◌^◌, ◌≡◌, ◌⊎◌, inl, inr, refl, ap, ◌≢◌, Bool, true, false, List, [], ◌∷◌, ◌++◌, map,
  Option, none, some, Bytes, str, ==_iff, arith, Option-cases,
}
use vyatta_cfg.Rpc.{
  object, integer, real, null, Lib, error_resp, mgmterror_resp, zeroed, str_val, is_kind,
  jobj_is_null, non_null_entry, process_error, process_errlist_array, extract_mgmt_error_list,
  extract_result, check_id, recv_response, Exchange, Error, Resp, get_response, blank_response,
}

module _ (L : Lib) where
  open L use {Json, Map, Vector, kind, string_value, integer_value, elements, members, object_get}

  check_id-matching :
      (ret : Bool) (n : ℕ) (j jid : Json) (r : Resp L)
      → object_get j (str "id") ≡ some jid
      → kind jid ≡ integer
      → (check_id L ret n j r).0 ≡ true
      → n ≡ to_unsigned (integer_value jid)
  unfolding check_id
  check_id-matching ret n j jid r found int ok =
      ground (arith, ==_iff n (to_unsigned (integer_value jid)))

  -- A response that carries an integer `id` is accepted only if that, as an `unsigned int`, is the
  -- connection's `req_id`, whatever else it holds.
  pub recv_response-matching :
      (n : ℕ) (j jid : Json) (r : Resp L)
      → object_get j (str "id") ≡ some jid
      → kind jid ≡ integer
      → (recv_response L n (some j) r).0 ≡ true
      → n ≡ to_unsigned (integer_value jid)
  unfolding recv_response
  recv_response-matching n j jid r found int ok = grind (arith, check_id-matching)

  -- A response whose `result` is read is accepted when its `id` is missing or is no integer, whatever
  -- the connection's `req_id` is, and its own id stays unset.
  pub recv_response-unchecked :
      (n : ℕ) (j jresult : Json)
      → kind j ≡ object
      → non_null_entry L j (str "result") ≡ some jresult
      → (extract_result L jresult (blank_response L)).0 ≡ true
      → ((jid : Json) → object_get j (str "id") ≡ some jid → is_kind (kind jid) integer ≡ false)
      → recv_response L n (some j) (blank_response L)
        ≡ (true, (extract_result L jresult (blank_response L)).1)
  unfolding recv_response check_id
  recv_response-unchecked n j jresult obj result ok no_id =
      elim (Option-cases (object_get j (str "id"))) [
        | inl missing ↦ ground arith
        | inr (jid, there) ↦ ground (arith, no_id jid there)
      ]

  check_id-type :
      (ret : Bool) (n : ℕ) (j : Json) (r : Resp L) → (check_id L ret n j r).1.type ≡ r.type
  unfolding check_id
  check_id-type ret n j r = ground arith

  extract_mgmt_error_list-type :
      (j : Json) (r : Resp L) → (extract_mgmt_error_list L j r).1.type ≡ some mgmterror_resp
  unfolding extract_mgmt_error_list
  extract_mgmt_error_list-type j r = ground arith

  extract_result-untyped :
      (j : Json) (r : Resp L)
      → (extract_result L j r).1.type ≡ none
      → (kind j ≡ real) ⊎ (kind j ≡ null)
  unfolding extract_result
  extract_result-untyped j r untyped = ground arith

  non_null_entry-kind : (j e : Json) (key : Bytes) → non_null_entry L j key ≡ some e → kind e ≢ null
  unfolding non_null_entry jobj_is_null
  non_null_entry-kind j e key found = grind arith

  -- A response that is accepted but of no type has a real number as its `result`, or none of
  -- `result`, `error` and `mgmterrorlist`.
  pub recv_response-untyped :
      (n : ℕ) (j : Json)
      → (recv_response L n (some j) (blank_response L)).0 ≡ true
      → (recv_response L n (some j) (blank_response L)).1.type ≡ none
      → ((jresult : Json) × (non_null_entry L j (str "result") ≡ some jresult)
          × (kind jresult ≡ real))
        ⊎ ((non_null_entry L j (str "result") ≡ none)
            × (non_null_entry L j (str "error") ≡ none)
            × (non_null_entry L j (str "mgmterrorlist") ≡ none))
  unfolding recv_response
  recv_response-untyped n j ok untyped =
      let empty : Resp L = record (blank_response L) { result = zeroed } in
      elim (Option-cases (non_null_entry L j (str "result"))) [
        | inr (jresult, found) ↦
            let r = (extract_result L jresult empty).1 in
            inl (
              jresult,
              found,
              ground (
                arith,
                check_id-type true n j r,
                extract_result-untyped jresult empty,
                non_null_entry-kind j jresult (str "result") found,
              ),
            )
        | inl no_result ↦ elim (Option-cases (non_null_entry L j (str "error"))) [
          | inr (jerror, found) ↦
              let named : Resp L = record empty {
                type = some error_resp;
                result = str_val (string_value jerror);
              } in
              absurd (ground (arith, check_id-type false n j named))
          | inl no_error ↦ elim (Option-cases (non_null_entry L j (str "mgmterrorlist"))) [
            | inr (jlist, found) ↦
                let r = (extract_mgmt_error_list L jlist empty).1 in
                absurd (
                  ground
                    (arith, check_id-type true n j r, extract_mgmt_error_list-type jlist empty))
            | inl no_list ↦ inr (no_result, no_error, no_list)
          ]
        ]
      ]

  -- Every call of `get_int`, `get_str`, `get_vector` or `get_map` that returns raises `req_id` by one,
  -- as an `unsigned int`, and leaves the error alone when it returns a value.
  pub get_response-req_id :
      {A : Type 0} (select : Resp L → Option A) (n n' : ℕ) (x : Exchange L) (error error' : Error L)
      (a : Option A)
      → get_response L select n x error ≡ value (a, error', n')
      → (n' ≡ (n + 1) % 2 ^ 32) × (a ≢ none → error' ≡ error)
  unfolding get_response
  get_response-req_id select n n' x error error' a e = ground arith

  -- Management errors, each read from one entry of the list.
  abbrev pub AreRead : List Json → List (MgmtError Map) → Type 0
  AreRead [] [] = Unit
  AreRead (j ∷ js) (me ∷ mes) = (process_error L j ≡ some me) × AreRead js mes
  AreRead _ _ = ⊥

  -- The array of errors is read as a whole or not at all: what it gives has an error for each entry,
  -- in their order, and it gives nothing exactly when some entry cannot be read.
  process_errlist_array-whole :
      (js : List Json)
      → ((mes : List (MgmtError Map)) × (process_errlist_array L js ≡ some (map some mes))
          × AreRead js mes)
        ⊎ ((before after : List Json) × (j : Json) × (process_errlist_array L js ≡ none)
            × (js ≡ before ++ (j ∷ after))
            × (process_error L j ≡ none))
  unfolding process_errlist_array
  process_errlist_array-whole [] = inl ([], refl, tt)
  process_errlist_array-whole (j ∷ js) = elim (Option-cases (process_error L j)) [
    | inl unread ↦ inr ([], js, j, ground arith, refl, unread)
    | inr (me, read) ↦ elim (process_errlist_array-whole js) [
      | inl (mes, whole, are_read) ↦ inl (me ∷ mes, ground arith, (read, are_read))
      | inr (before, after, bad, nothing, parts, unread) ↦
          inr (j ∷ before, after, bad, ground arith, ap (◌∷◌ j) parts, unread)
    ]
  ]
