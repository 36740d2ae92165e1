-- ===== src/Client/Failed.antt =====
-- What the caller of a commit or a validation finds in the error when configd answers with
-- management errors.
use vyatta_cfg.Client.{Arg, text, flag, Conn, init, call, call_str, call_formatted}
use vyatta_cfg.Client.Commit.{configd_commit}
use vyatta_cfg.Mgmt.{
  MgmtError, ConfigdError, set_value, list_text, error_init, error_set_from_mgmt_error_list,
}
use vyatta_cfg.Mgmt.Format.{
  blocks, message_lines, HaveMessages, errors, error_set_from_mgmt_error_list-lines,
  format_for_commit_or_val-blocks,
}
use vyatta_cfg.Prelude.Integer.{to_unsigned}
use vyatta_cfg.Prelude.Outcome.{value}
use vyatta_cfg.Prelude.{
  ℕ, ◌+◌, ◌%◌, ◌^◌, ◌≡◌, refl, ap, ◌∙◌, true, false, List, [], ◌∷◌, ◌++◌, map, Option, none, some,
  Bytes, str, ==_iff, arith,
}
use vyatta_cfg.Rpc.{
  Lib, object, array, integer, mgmterror_resp, errors_val, Exchange, Error, Resp, non_null_entry,
  process_errlist_array, extract_mgmt_error_list, check_id, recv_response, blank_response,
  set_mgmt_errors, refuse_response, get_response, get_str,
}

module _ (L : Lib) where
  open L use {Json, Map, Vector, kind, integer_value, elements, object_get}

  -- A response with the id `n` whose list of management errors is read as `mes`.
  pub record ListsErrors (j : Json) (n : ℕ) (mes : List (Option (MgmtError Map))) : Type 0 where
    pub is_object : kind j ≡ object
    pub no_result : non_null_entry L j (str "result") ≡ none
    pub no_error : non_null_entry L j (str "error") ≡ none
    pub list : Json
    pub has_list : non_null_entry L j (str "mgmterrorlist") ≡ some list
    pub list_object : kind list ≡ object
    pub entries : Json
    pub has_entries : object_get list (str "error-list") ≡ some entries
    pub entries_array : kind entries ≡ array
    pub first : Json
    pub others : List Json
    pub elements_entries : elements entries ≡ first ∷ others
    pub are_read : process_errlist_array L (first ∷ others) ≡ some mes
    pub jid : Json
    pub has_jid : object_get j (str "id") ≡ some jid
    pub jid_integer : kind jid ≡ integer
    pub same_id : to_unsigned (integer_value jid) ≡ n

  abbrev pub errors_response : ℕ → List (Option (MgmtError Map)) → Resp L
  errors_response n mes = record {
    type = some mgmterror_resp;
    result = errors_val mes;
    id = some n;
  }

  extract_mgmt_error_list-read :
      (j : Json) (n : ℕ) (mes : List (Option (MgmtError Map))) (h : ListsErrors j n mes)
      (r : Resp L)
      → extract_mgmt_error_list L h.list r
        ≡ (true, record r { type = some mgmterror_resp; result = errors_val mes })
  unfolding extract_mgmt_error_list
  extract_mgmt_error_list-read j n mes h r =
      rw (h.list_object, h.has_entries)
        (rw (h.entries_array, h.elements_entries) (rw h.are_read refl))

  check_id-same :
      (j : Json) (n : ℕ) (mes : List (Option (MgmtError Map))) (h : ListsErrors j n mes)
      (r : Resp L)
      → check_id L true n j r ≡ (true, record r { id = some n })
  unfolding check_id
  check_id-same j n mes h r =
      rw (check_id, h.has_jid, h.jid_integer) (rw h.same_id (ground (arith, ==_iff n n)))

  recv_response-errors :
      (j : Json) (n : ℕ) (mes : List (Option (MgmtError Map)))
      → ListsErrors j n mes
      → recv_response L n (some j) (blank_response L) ≡ (true, errors_response n mes)
  unfolding recv_response
  recv_response-errors j n mes h =
      rw (h.is_object, h.no_result, h.no_error, h.has_list)
        (rw (extract_mgmt_error_list-read j n mes h _) (check_id-same j n mes h _))

  error_set_from_mgmt_error_list-text :
      (ce : ConfigdError Map) (e : MgmtError Map × Bytes) (es : List (MgmtError Map × Bytes))
      → HaveMessages (e ∷ es)
      → (t : Option Bytes) × (error_set_from_mgmt_error_list ce (errors (e ∷ es))
          ≡ value
              (record ce { text = t; is_mgmt_error = true; mgmt_errs = some (errors (e ∷ es)) }))
  unfolding error_set_from_mgmt_error_list list_text
  error_set_from_mgmt_error_list-text ce e [] h = (set_value e.0.message ce.text, refl)
  error_set_from_mgmt_error_list-text ce e (e' ∷ es) h =
      (some (message_lines (e ∷ e' ∷ es)), error_set_from_mgmt_error_list-lines ce e e' es h)

  errors-map : (es : List (MgmtError Map × Bytes)) → errors es ≡ map some (map (λ e. e.0) es)
  errors-map [] = refl
  errors-map (e ∷ es) = ap (◌∷◌ (some e.0)) (errors-map es)

  get_str-errors :
      (id : ℕ) (x : Exchange L) (ce : ConfigdError Map) (j : Json) (e : MgmtError Map × Bytes)
      (es : List (MgmtError Map × Bytes))
      → x.sent ≡ true
      → x.reply ≡ some j
      → ListsErrors j ((id + 1) % 2 ^ 32) (errors (e ∷ es))
      → HaveMessages (e ∷ es)
      → (t : Option Bytes) × (get_str L id x (some ce)
          ≡ value (
            none,
            some (record ce { text = t; is_mgmt_error = true; mgmt_errs = some (errors (e ∷ es)) }),
            (id + 1) % 2 ^ 32,
          ))
  unfolding get_str get_response refuse_response set_mgmt_errors
  get_str-errors id x ce j e es sent reply lists messages =
      let (t, set) = error_set_from_mgmt_error_list-text ce e es messages in
      let n = (id + 1) % 2 ^ 32 in
      let received : recv_response L n x.reply (blank_response L)
          ≡ (true, errors_response n (errors (e ∷ es))) =
        ap (λ reply'. recv_response L n reply' (blank_response L)) reply
        ∙ recv_response-errors j n (errors (e ∷ es)) lists in
      let left : Error L =
        some (record ce { text = t; is_mgmt_error = true; mgmt_errs = some (errors (e ∷ es)) }) in
      let refused : refuse_response L (some ce) (recv_response L n x.reply (blank_response L)).1
          ≡ value left =
        ap (λ r. refuse_response L (some ce) r.1) received
        ∙ rw (refuse_response, set_mgmt_errors, set) refl in
      (t, rw (get_str, sent) (rw received (rw refused refl)))

  -- The error that `source` and the operation leave.
  abbrev pub failed_error : Bytes → Bytes → List (MgmtError Map × Bytes) → ConfigdError Map
  failed_error source operation es = record {
    text = some (blocks (map (λ e. e.0) es) (str "\n" ++ (operation ++ str " failed!\n")));
    source = some source;
    is_mgmt_error = true;
    mgmt_errs = some (errors es);
  }

  module _ (json_pack : List Arg → Option Json) (ask : Bytes → Json → ℕ → Exchange L) where
    call_formatted-failed :
        (operation source fn : Bytes) (args : List Arg) (conn : Conn) (ce : ConfigdError Map)
        (packed j : Json) (e : MgmtError Map × Bytes) (es : List (MgmtError Map × Bytes))
        → json_pack args ≡ some packed
        → (ask fn packed conn.req_id).sent ≡ true
        → (ask fn packed conn.req_id).reply ≡ some j
        → ListsErrors j ((conn.req_id + 1) % 2 ^ 32) (errors (e ∷ es))
        → HaveMessages (e ∷ es)
        → call_formatted L json_pack ask operation conn source fn args (some ce)
          ≡ value (
            none,
            some (failed_error source operation (e ∷ es)),
            record conn { req_id = (conn.req_id + 1) % 2 ^ 32 },
          )
    unfolding call_formatted call_str call init error_init
    call_formatted-failed operation source fn args conn ce packed j e es packs sent reply lists
          messages =
        let n = (conn.req_id + 1) % 2 ^ 32 in
        let (t, got) =
          get_str-errors conn.req_id (ask fn packed conn.req_id) (error_init source) j e es sent
            reply lists messages in
        let shown =
          format_for_commit_or_val-blocks (some operation)
            (record (error_init source) {
              text = t;
              is_mgmt_error = true;
              mgmt_errs = some (errors (e ∷ es));
            })
            (map (λ e'. e'.0) (e ∷ es)) refl (ap some (errors-map (e ∷ es))) in
        let called : call_str L json_pack ask conn source fn args (some ce)
            ≡ value (
              none,
              some (record (error_init source) {
                text = t;
                is_mgmt_error = true;
                mgmt_errs = some (errors (e ∷ es));
              }),
              record conn { req_id = n },
            ) =
          rw (call_str, call, packs) (rw got refl) in
        rw (call_formatted, packs) (rw called (rw shown refl))

    -- A commit that configd answers with management errors, read by the client and each with a
    -- message: `configd_commit` returns a null pointer, the connection's `req_id` is raised by one, and
    -- the caller's error has as its text the block of every error, the last one first, before the
    -- line `Commit failed!`, and carries the list.
    pub configd_commit-failed :
        (conn : Conn) (comment : Option Bytes) (ce : ConfigdError Map) (packed j : Json)
        (e : MgmtError Map × Bytes) (es : List (MgmtError Map × Bytes))
        → json_pack (text conn.session_id ∷ text comment ∷ flag false ∷ []) ≡ some packed
        → (ask (str "Commit") packed conn.req_id).sent ≡ true
        → (ask (str "Commit") packed conn.req_id).reply ≡ some j
        → ListsErrors j ((conn.req_id + 1) % 2 ^ 32) (errors (e ∷ es))
        → HaveMessages (e ∷ es)
        → configd_commit L json_pack ask conn comment (some ce)
          ≡ value (
            none,
            some (failed_error (str "configd_commit") (str "Commit") (e ∷ es)),
            record conn { req_id = (conn.req_id + 1) % 2 ^ 32 },
          )
    unfolding configd_commit
    configd_commit-failed conn comment ce packed j e es =
        call_formatted-failed (str "Commit") (str "configd_commit") (str "Commit")
          (text conn.session_id ∷ text comment ∷ flag false ∷ []) conn ce packed j e es
