-- ===== src/Client/Answered.antt =====
-- What a remote call gives for the answers of configd, and which calls make no request.
use vyatta_cfg.Client.Calls.{configd_tmpl_get}
use vyatta_cfg.Client.Commit.{move, configd_rename}
use vyatta_cfg.Client.Edit.{is_tag_value, is_typeless, configd_edit_get_env}
use vyatta_cfg.Client.Paths.{stringify, make_paths-three}
use vyatta_cfg.Client.{Arg, text, Conn, init, call, call_int, call_str}
use vyatta_cfg.Prelude.Integer.{ℤ, to_unsigned, to_int}
use vyatta_cfg.Prelude.Outcome.{value}
use vyatta_cfg.Prelude.{
  ℕ, ◌+◌, ◌%◌, ◌^◌, ◌<◌, ◌≡◌, refl, ap, ◌∙◌, Bool, true, false, List, [], ◌∷◌, ◌++◌, Option, none,
  some, Bytes, str, ==_iff, arith, length,
}
use vyatta_cfg.Rpc.{
  Lib, object, string, integer, int_resp, int_val, error_resp, str_val, Exchange, Error, Resp,
  error_setf, non_null_entry, extract_result, check_id, recv_response, blank_response,
  refuse_response, get_response, get_int, get_str,
}

module _ (L : Lib) where
  open L use {Json, kind, string_value, integer_value, object_get}

  -- A response that carries the id `n`.
  pub record HasId (j : Json) (n : ℕ) : Type 0 where
    pub is_object : kind j ≡ object
    pub jid : Json
    pub has_jid : object_get j (str "id") ≡ some jid
    pub jid_integer : kind jid ≡ integer
    pub same_id : to_unsigned (integer_value jid) ≡ n

  check_id-HasId :
      (ret : Bool) (j : Json) (n : ℕ) (h : HasId j n) (r : Resp L)
      → check_id L ret n j r ≡ (true, record r { id = some n })
  unfolding check_id
  check_id-HasId ret j n h r =
      rw (check_id, h.has_jid, h.jid_integer) (rw h.same_id (ground (arith, ==_iff n n)))

  abbrev number_response : ℕ → ℤ → Resp L
  number_response n z = record { type = some int_resp; result = int_val z; id = some n }

  abbrev error_response : ℕ → Bytes → Resp L
  error_response n s = record { type = some error_resp; result = str_val (some s); id = some n }

  extract_result-integer :
      (j : Json) (r : Resp L)
      → kind j ≡ integer
      → extract_result L j r
        ≡ (true, record r { type = some int_resp; result = int_val (to_int (integer_value j)) })
  unfolding extract_result
  extract_result-integer j r int = rw (extract_result, int) refl

  recv_response-number :
      (j jresult : Json) (n : ℕ)
      → HasId j n
      → non_null_entry L j (str "result") ≡ some jresult
      → kind jresult ≡ integer
      → recv_response L n (some j) (blank_response L)
        ≡ (true, number_response n (to_int (integer_value jresult)))
  unfolding recv_response
  recv_response-number j jresult n h result int =
      rw (h.is_object, result)
        (rw (extract_result-integer jresult _ int) (check_id-HasId true j n h _))

  recv_response-error :
      (j jerror : Json) (n : ℕ) (s : Bytes)
      → HasId j n
      → non_null_entry L j (str "result") ≡ none
      → non_null_entry L j (str "error") ≡ some jerror
      → kind jerror ≡ string
      → string_value jerror ≡ some s
      → recv_response L n (some j) (blank_response L) ≡ (true, error_response n s)
  unfolding recv_response
  recv_response-error j jerror n s h no_result found is_string holds =
      rw (h.is_object, no_result, found) (rw (is_string, holds) (check_id-HasId false j n h _))

  module _ (json_pack : List Arg → Option Json) (ask : Bytes → Json → ℕ → Exchange L) where
    -- A remote call for a number whose request is sent and answered, under its own id, with an integer
    -- result: it returns that as an `int`, raises `req_id` by one, and the caller's error is a new one.
    call_int-number :
        (conn : Conn) (source fn : Bytes) (args : List Arg) (error : Error L)
        (packed j jresult : Json)
        → json_pack args ≡ some packed
        → (ask fn packed conn.req_id).sent ≡ true
        → (ask fn packed conn.req_id).reply ≡ some j
        → HasId j ((conn.req_id + 1) % 2 ^ 32)
        → non_null_entry L j (str "result") ≡ some jresult
        → kind jresult ≡ integer
        → call_int L json_pack ask conn source fn args error
          ≡ value (
            to_int (integer_value jresult),
            init L source error,
            record conn { req_id = (conn.req_id + 1) % 2 ^ 32 },
          )
    unfolding call_int call get_int get_response
    call_int-number conn source fn args error packed j jresult packs sent reply h result int =
        let n = (conn.req_id + 1) % 2 ^ 32 in
        let x = ask fn packed conn.req_id in
        let received : recv_response L n x.reply (blank_response L)
            ≡ (true, number_response n (to_int (integer_value jresult))) =
          ap (λ reply'. recv_response L n reply' (blank_response L)) reply
          ∙ recv_response-number j jresult n h result int in
        let got : get_int L conn.req_id x (init L source error)
            ≡ value (some (to_int (integer_value jresult)), init L source error, n) =
          rw (get_int, sent) (rw received (rw received refl)) in
        rw (call_int, call, packs) (rw got refl)

    -- A remote call for a text whose request is sent and answered, under its own id, with an error text
    -- and no result: it returns a null pointer, raises `req_id` by one, and the caller's error is a new
    -- one with that text and a newline.
    call_str-error :
        (conn : Conn) (source fn : Bytes) (args : List Arg) (error : Error L)
        (packed j jerror : Json) (s : Bytes)
        → json_pack args ≡ some packed
        → (ask fn packed conn.req_id).sent ≡ true
        → (ask fn packed conn.req_id).reply ≡ some j
        → HasId j ((conn.req_id + 1) % 2 ^ 32)
        → non_null_entry L j (str "result") ≡ none
        → non_null_entry L j (str "error") ≡ some jerror
        → kind jerror ≡ string
        → string_value jerror ≡ some s
        → call_str L json_pack ask conn source fn args error
          ≡ value (
            none,
            error_setf L (init L source error) (s ++ str "\n"),
            record conn { req_id = (conn.req_id + 1) % 2 ^ 32 },
          )
    unfolding call_str call get_str get_response refuse_response
    call_str-error conn source fn args error packed j jerror s packs sent reply h no_result found
          is_string holds =
        let n = (conn.req_id + 1) % 2 ^ 32 in
        let x = ask fn packed conn.req_id in
        let received : recv_response L n x.reply (blank_response L) ≡ (true, error_response n s) =
          ap (λ reply'. recv_response L n reply' (blank_response L)) reply
          ∙ recv_response-error j jerror n s h no_result found is_string holds in
        let left = error_setf L (init L source error) (s ++ str "\n") in
        let refused : refuse_response L (init L source error)
              (recv_response L n x.reply (blank_response L)).1
            ≡ value left =
          ap (λ r. refuse_response L (init L source error) r.1) received ∙ refl in
        let got : get_str L conn.req_id x (init L source error) ≡ value (none, left, n) =
          rw (get_str, sent) (rw received (rw refused refl)) in
        rw (call_str, call, packs) (rw got refl)

    -- `configd_rename` of a path whose last three elements are the old name, a word and the new name asks
    -- for the method `Rename` on the session with the path of the old name and that of the new one; for a
    -- path of less than three elements it returns a null pointer, makes no request, and leaves the error
    -- and the connection as they are.
    pub configd_rename-paths :
        (create_sep : ℕ → Bytes → List Bytes) (decimal : ℕ → Bytes) (conn : Conn) (error : Error L)
        (path : Bytes) (es : List Bytes) (old qualifier new : Bytes)
        → length es < 2 ^ 64
        → create_sep b'/' path ≡ es ++ (old ∷ qualifier ∷ new ∷ [])
        → (configd_rename L json_pack ask create_sep decimal conn path error
            ≡ call_str L json_pack ask conn
                (str "configd_rename")
                (str "Rename")
                (text conn.session_id
                  ∷ text (some (stringify ([] ∷ es ++ (old ∷ []))))
                  ∷ text (some (stringify ([] ∷ es ++ (new ∷ []))))
                  ∷ [])
                error)
          × ((short : Bytes)
              → length (create_sep b'/' short) < 3
              → configd_rename L json_pack ask create_sep decimal conn short error
                ≡ value (none, error, conn))
    unfolding configd_rename
    configd_rename-paths create_sep decimal conn error path es old qualifier new few found =
        let paths = make_paths-three create_sep path es old qualifier new few found in
        (
          rw (configd_rename, move, paths.0) refl,
          λ short less. rw (configd_rename, move, paths.1 short less) refl,
        )

    -- Where the template of a path is neither that of a tag's value nor without a type,
    -- `configd_edit_get_env` returns a null pointer after the one request for the template, with a new
    -- error that says why.
    configd_edit_get_env-refused :
        (create_sep : ℕ → Bytes → List Bytes) (conn conn' : Conn) (cpath : Bytes)
        (error error' : Error L) (def : Lib.Map L)
        → configd_tmpl_get L json_pack ask conn (some cpath) error ≡ value (some def, error', conn')
        → is_tag_value L def ≡ false
        → is_typeless L def ≡ false
        → configd_edit_get_env L json_pack ask create_sep conn cpath error
          ≡ value (
            none,
            error_setf L
                (init L (str "configd_edit_get_env") error')
                (str "The \"edit\" command cannot be issued at the specified level\n"),
            conn',
          )
    unfolding configd_edit_get_env
    configd_edit_get_env-refused create_sep conn conn' cpath error error' def got no_tag typed =
        rw (configd_edit_get_env, got) (rw (no_tag, typed) refl)
