-- ===== src/Mgmt/Format.antt =====
-- The texts that are made of management errors.
use vyatta_cfg.Mgmt.{
  MgmtError, ConfigdError, or_else, snprintf, configd_mgmt_error_path_space_separated, error_block,
  format_mgmt_error, prepend_errors, format_for_commit_or_val, message_bytes, cat, cat_messages,
  merge_messages, list_text, error_set_from_mgmt_error_list,
}
use vyatta_cfg.Prelude.Outcome.{value}
use vyatta_cfg.Prelude.{
  ℕ, zero, suc, ◌+◌, ◌*◌, ◌<◌, ◌≤◌, ◌≡◌, refl, sym, ap, ◌∙◌, true, List, [], ◌∷◌, ◌++◌, map, Option,
  some, Bytes, str, length, take, arith, append_assoc, append-nil, length-append,
}

take_all : (n : ℕ) (s : Bytes) → length s ≤ n → take n s ≡ s
take_all zero [] h = refl
take_all zero (c ∷ s) h = absurd (omega arith)
take_all (suc n) [] h = refl
take_all (suc n) (c ∷ s) h = ap (◌∷◌ c) (take_all n s (omega arith))

length-error_block :
    (path message : Bytes)
    → length (error_block path message) ≡ 19 + length message + 2 * length path
length-error_block path message =
    let last = str "]] failed.\n" in
    let tail = message ++ (str "\n\n[[" ++ (path ++ last)) in
    omega (
      arith,
      length-append path (str "]\n\n" ++ tail),
      length-append message (str "\n\n[[" ++ (path ++ last)),
      length-append path last,
    )

cat_fits :
    (bytes : ℕ) (text s : Bytes)
    → length text + length s < bytes
    → cat bytes text s ≡ value (text ++ s)
cat_fits bytes text s h = ground arith

module _ {M : Type 0} where
  -- The path with spaces, or nothing.
  abbrev pub shown_path : MgmtError M → Bytes
  shown_path me = or_else (configd_mgmt_error_path_space_separated me) []

  -- No text is cut off.
  format_mgmt_error-block :
      (me : MgmtError M)
      → format_mgmt_error me ≡ error_block (shown_path me) (or_else me.message [])
  unfolding format_mgmt_error
  format_mgmt_error-block me =
      take_all _ _ (omega (arith, length-error_block (shown_path me) (or_else me.message [])))

  -- The blocks of the errors, the last one first.
  abbrev pub blocks : List (MgmtError M) → Bytes → Bytes
  blocks [] end = end
  blocks (me ∷ mes) end = blocks mes (error_block (shown_path me) (or_else me.message []) ++ end)

  prepend_errors-blocks :
      (mes : List (MgmtError M)) (output : Bytes)
      → prepend_errors (map some mes) output ≡ value (blocks mes output)
  unfolding prepend_errors
  prepend_errors-blocks [] output = refl
  prepend_errors-blocks (me ∷ mes) output =
      let block = error_block (shown_path me) (or_else me.message []) in
      let whole : snprintf (length output + length (format_mgmt_error me) + 1)
            (format_mgmt_error me ++ output)
          ≡ format_mgmt_error me ++ output =
        take_all _ _ (omega (arith, length-append (format_mgmt_error me) output)) in
      ap (prepend_errors (map some mes))
        (whole ∙ ap (λ t. t ++ output) (format_mgmt_error-block me))
      ∙ prepend_errors-blocks mes (block ++ output)

  -- For an error that carries a list of management errors, none of them null,
  -- `configd_error_format_for_commit_or_val` sets the text to the block of each error, the last
  -- one first, followed by the line that the operation failed. No text is cut off, and the rest of
  -- the error stays.
  pub format_for_commit_or_val-blocks :
      (operation : Option Bytes) (ce : ConfigdError M) (mes : List (MgmtError M))
      → ce.is_mgmt_error ≡ true
      → ce.mgmt_errs ≡ some (map some mes)
      → format_for_commit_or_val operation ce
        ≡ value (record ce {
          text =
              some (
                blocks mes (str "\n" ++ (or_else operation (str "Operation") ++ str " failed!\n")));
        })
  unfolding format_for_commit_or_val
  format_for_commit_or_val-blocks operation ce mes h l = ground (
    arith,
    prepend_errors-blocks mes
        (str "\n" ++ (or_else operation (str "Operation") ++ str " failed!\n")),
  )

  -- The messages, a line for each.
  abbrev pub message_lines : List (MgmtError M × Bytes) → Bytes
  message_lines [] = []
  message_lines ((me, m) ∷ mes) = m ++ (b'\n' ∷ message_lines mes)

  -- Errors with the messages that they have.
  abbrev pub HaveMessages : List (MgmtError M × Bytes) → Type 0
  HaveMessages [] = Unit
  HaveMessages ((me, m) ∷ mes) = (me.message ≡ some m) × HaveMessages mes

  abbrev pub errors : List (MgmtError M × Bytes) → List (Option (MgmtError M))
  errors [] = []
  errors ((me, m) ∷ mes) = some me ∷ errors mes

  message_bytes-lines :
      (mes : List (MgmtError M × Bytes))
      → HaveMessages mes
      → message_bytes (errors mes) ≡ value (length (message_lines mes))
  unfolding message_bytes
  message_bytes-lines [] h = refl
  message_bytes-lines ((me, m) ∷ mes) h =
      rw (h.0, message_bytes)
        (rw (message_bytes-lines mes h.1)
          (ap value (omega (arith, length-append m (b'\n' ∷ message_lines mes)))))

  cat_messages-lines :
      (bytes : ℕ) (mes : List (MgmtError M × Bytes)) (text : Bytes)
      → HaveMessages mes
      → length text + length (message_lines mes) < bytes
      → cat_messages bytes (errors mes) text ≡ value (text ++ message_lines mes)
  unfolding cat_messages
  cat_messages-lines bytes [] text h le = ap value (sym (append-nil text))
  cat_messages-lines bytes ((me, m) ∷ mes) text h le =
      let len = length-append m (b'\n' ∷ message_lines mes) in
      let all : take bytes m ≡ m = take_all bytes m (omega arith) in
      let all' : take bytes (str "\n") ≡ b'\n' ∷ [] = take_all bytes (str "\n") (omega arith) in
      let room = cat_fits bytes text m (omega arith) in
      let room' = cat_fits bytes (text ++ m) (b'\n' ∷ []) (omega (arith, length-append text m)) in
      let ih =
        cat_messages-lines bytes mes ((text ++ m) ++ (b'\n' ∷ [])) h.1
          (omega (arith, length-append text m, length-append (text ++ m) (b'\n' ∷ []))) in
      rw (h.0, cat_messages)
        (rw (all, room)
          (rw (all', room')
            (ih
              ∙ ap value (
                  append_assoc (text ++ m) (b'\n' ∷ []) (message_lines mes)
                  ∙ append_assoc text m (b'\n' ∷ message_lines mes)))))

  -- A list of at least two errors that all have a message: `error_set_from_mgmt_error_list` takes the
  -- list, and the text is every message in order, each with a newline behind it. The buffer that
  -- `merge_messages` asks for is never overrun.
  pub error_set_from_mgmt_error_list-lines :
      (ce : ConfigdError M) (e e' : MgmtError M × Bytes) (mes : List (MgmtError M × Bytes))
      → HaveMessages (e ∷ e' ∷ mes)
      → error_set_from_mgmt_error_list ce (errors (e ∷ e' ∷ mes))
        ≡ value (record ce {
          text = some (message_lines (e ∷ e' ∷ mes));
          is_mgmt_error = true;
          mgmt_errs = some (errors (e ∷ e' ∷ mes));
        })
  unfolding error_set_from_mgmt_error_list list_text merge_messages
  error_set_from_mgmt_error_list-lines ce e e' mes h =
      let counted = message_bytes-lines (e ∷ e' ∷ mes) h in
      let n = length (message_lines (e ∷ e' ∷ mes)) in
      let filled = cat_messages-lines (n + 1) (e ∷ e' ∷ mes) [] h (omega arith) in
      rw counted (rw filled refl)
