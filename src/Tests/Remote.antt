-- ===== src/Tests/Remote.antt =====
-- The theorems on responses, management errors and remote calls at concrete values, with a small
-- library of JSON values.
use vyatta_cfg.Client.Answered.{configd_rename-paths}
use vyatta_cfg.Client.Commit.{configd_commit, configd_rename}
use vyatta_cfg.Client.Failed.{ListsErrors, failed_error, configd_commit-failed}
use vyatta_cfg.Client.Paths.{stringify}
use vyatta_cfg.Client.{Arg, text, Conn, call_str}
use vyatta_cfg.Mgmt.Format.{
  blocks, message_lines, errors, format_for_commit_or_val-blocks,
  error_set_from_mgmt_error_list-lines,
}
use vyatta_cfg.Mgmt.{
  MgmtError, ConfigdError, blank_error, error_init, format_for_commit_or_val,
  error_set_from_mgmt_error_list, configd_mgmt_error_set_from_maps, set_value,
}
use vyatta_cfg.Prelude.Integer.{pos, to_unsigned, to_int}
use vyatta_cfg.Prelude.Outcome.{value}
use vyatta_cfg.Prelude.{
  ℕ, ◌+◌, ◌%◌, ◌^◌, ◌<◌, ◌≡◌, ◌≢◌, ◌⊎◌, refl, true, false, List, [], ◌∷◌, ◌++◌, Option, none, some,
  Bytes, str, str_eq, length, arith,
}
use vyatta_cfg.Rpc.Receive.{
  recv_response-matching, recv_response-unchecked, recv_response-untyped, get_response-req_id,
}
use vyatta_cfg.Rpc.{
  Kind, object, array, string, integer, real, Lib, Exchange, jobj_is_null, non_null_entry, envz_add,
  envz_remove, add_members, jobj_to_map, extract_mgmt_error_info_as_map, process_error,
  process_errlist_array, extract_mgmt_error_list, extract_result, check_id, recv_response,
  blank_response, select_int, get_response,
}

-- A response with errors, one with a number and no id, one with a real number, and their parts.
data Sample : Type 0 where
  refusal errors_object errors_array first_entry second_entry one path message : Sample
  stray number : Sample
  fraction_answer fraction : Sample
  answer refused template_answer template : Sample

abbrev sample_kind : Sample → Kind
sample_kind errors_array = array
sample_kind one = integer
sample_kind number = integer
sample_kind path = string
sample_kind message = string
sample_kind fraction = real
sample_kind _ = object

abbrev sample_members : Sample → List (Bytes × Sample)
sample_members refusal = (str "id", one) ∷ (str "mgmterrorlist", errors_object) ∷ []
sample_members errors_object = (str "error-list", errors_array) ∷ []
sample_members first_entry = (str "error-path", path) ∷ (str "error-message", message) ∷ []
sample_members second_entry = (str "error-message", message) ∷ []
sample_members stray = (str "result", number) ∷ []
sample_members fraction_answer = (str "id", one) ∷ (str "result", fraction) ∷ []
sample_members answer = (str "id", one) ∷ (str "result", number) ∷ []
sample_members refused = (str "id", one) ∷ (str "error", message) ∷ []
sample_members template_answer = (str "id", one) ∷ (str "result", template) ∷ []
sample_members template = (str "type", message) ∷ []
sample_members _ = []

abbrev look {ℓ} : {A : Type ℓ} → Bytes → List (Bytes × A) → Option A
look key [] = none
look key ((k, a) ∷ rest) = elim (str_eq key k) [ true ↦ some a | false ↦ look key rest ]

abbrev sample_text : Sample → Option Bytes
sample_text path = some (str "/a/b")
sample_text message = some (str "bad")
sample_text _ = none

abbrev sample_elements : Sample → List Sample
sample_elements errors_array = first_entry ∷ second_entry ∷ []
sample_elements _ = []

abbrev samples : Lib
samples = record {
  Json = Sample;
  Map = List (Bytes × Bytes);
  Vector = List Bytes;
  kind = sample_kind;
  string_value = sample_text;
  integer_value = λ j. pos 1;
  elements = sample_elements;
  members = sample_members;
  object_get = λ j key. look key (sample_members j);
  map_new = some;
  map_get = λ m key. look key m;
  vector_new = some;
}

abbrev Error : Type 0
Error = MgmtError (List (Bytes × Bytes))

abbrev first_error : Error
first_error = record blank_error { path = some (str "/a/b"); message = some (str "bad") }

abbrev second_error : Error
second_error = record blank_error { message = some (str "bad") }

-- Responses

recv_response-matching_example : 1 ≡ to_unsigned (pos 1)
unfolding recv_response extract_mgmt_error_list check_id non_null_entry jobj_is_null
    process_errlist_array process_error jobj_to_map add_members envz_add envz_remove
    extract_mgmt_error_info_as_map str_eq configd_mgmt_error_set_from_maps set_value to_unsigned
recv_response-matching_example =
    recv_response-matching samples 1 refusal one (blank_response samples) refl refl refl

recv_response-unchecked_example :
    recv_response samples 7 (some stray) (blank_response samples)
    ≡ (true, (extract_result samples number (blank_response samples)).1)
unfolding non_null_entry jobj_is_null str_eq extract_result
recv_response-unchecked_example =
    recv_response-unchecked samples 7 stray number refl refl refl (λ jid there. ground arith)

recv_response-untyped_example :
    ((j : Sample) × (non_null_entry samples fraction_answer (str "result") ≡ some j)
      × (sample_kind j ≡ real))
    ⊎ ((non_null_entry samples fraction_answer (str "result") ≡ none)
        × (non_null_entry samples fraction_answer (str "error") ≡ none)
        × (non_null_entry samples fraction_answer (str "mgmterrorlist") ≡ none))
unfolding recv_response non_null_entry jobj_is_null str_eq extract_result check_id to_unsigned
recv_response-untyped_example = recv_response-untyped samples 1 fraction_answer refl refl

get_response-req_id_example :
    (1 ≡ (0 + 1) % 2 ^ 32)
    × (some (pos 1) ≢ none → ◌≡◌ {A = Option (ConfigdError (List (Bytes × Bytes)))} none none)
unfolding get_response recv_response non_null_entry jobj_is_null str_eq extract_result check_id
    to_unsigned to_int
get_response-req_id_example =
    get_response-req_id samples (select_int samples) 0 1
      (record { sent = true; reply = some stray }) none none (some (pos 1)) refl

-- Management errors

abbrev two_errors : List (Error × Bytes)
two_errors = (first_error, str "bad") ∷ (second_error, str "bad") ∷ []

abbrev carried : ConfigdError (List (Bytes × Bytes))
carried = record {
  text = none;
  source = none;
  is_mgmt_error = true;
  mgmt_errs = some (errors two_errors);
}

format_for_commit_or_val-blocks_example :
    format_for_commit_or_val (some (str "Commit")) carried
    ≡ value (record carried {
      text = some (
          blocks
            (first_error ∷ second_error ∷ [])
            (str "\n" ++ (str "Commit" ++ str " failed!\n")));
    })
format_for_commit_or_val-blocks_example =
    format_for_commit_or_val-blocks (some (str "Commit")) carried (first_error ∷ second_error ∷ [])
      refl refl

error_set_from_mgmt_error_list-lines_example :
    error_set_from_mgmt_error_list carried (errors two_errors)
    ≡ value (record carried { text = some (message_lines two_errors) })
error_set_from_mgmt_error_list-lines_example =
    error_set_from_mgmt_error_list-lines carried (first_error, str "bad") (second_error, str "bad")
      [] (refl, (refl, tt))

-- Remote calls

abbrev four_elements : ℕ → Bytes → List Bytes
four_elements c s = elim s [ [] ↦ [] | _ ∷ _ ↦ str "a" ∷ str "old" ∷ str "to" ∷ str "new" ∷ [] ]

abbrev conn : Conn
conn = record { session_id = some (str "5"); req_id = 0 }

lists_errors : ListsErrors samples refusal 1 (errors two_errors)
unfolding non_null_entry jobj_is_null process_errlist_array process_error jobj_to_map add_members
    envz_add envz_remove extract_mgmt_error_info_as_map str_eq configd_mgmt_error_set_from_maps
    set_value to_unsigned
lists_errors = record {
  is_object = refl;
  no_result = refl;
  no_error = refl;
  list = errors_object;
  has_list = refl;
  list_object = refl;
  entries = errors_array;
  has_entries = refl;
  entries_array = refl;
  first = first_entry;
  others = second_entry ∷ [];
  elements_entries = refl;
  are_read = refl;
  jid = one;
  has_jid = refl;
  jid_integer = refl;
  same_id = refl;
}

abbrev pack_sample : List Arg → Option Sample
pack_sample args = some errors_array

abbrev always_refused : Bytes → Sample → ℕ → Exchange samples
always_refused fn args id = record { sent = true; reply = some refusal }

configd_commit-failed_example :
    configd_commit samples pack_sample always_refused conn none (some (error_init (str "main")))
    ≡ value (
      none,
      some (failed_error samples (str "configd_commit") (str "Commit") two_errors),
      record conn { req_id = 1 },
    )
configd_commit-failed_example =
    configd_commit-failed samples pack_sample always_refused conn none (error_init (str "main"))
      errors_array refusal (first_error, str "bad") ((second_error, str "bad") ∷ []) refl refl refl
      lists_errors (refl, (refl, tt))

abbrev always : Sample → Bytes → Sample → ℕ → Exchange samples
always j fn args id = record { sent = true; reply = some j }

configd_rename-paths_example :
    (configd_rename samples pack_sample
        (always refused)
        four_elements
        (λ n. [])
        conn
        (str "/a/old/to/new")
        none
      ≡ call_str samples pack_sample
          (always refused)
          conn
          (str "configd_rename")
          (str "Rename")
          (text (some (str "5"))
            ∷ text (some (stringify ([] ∷ (str "a" ∷ []) ++ (str "old" ∷ []))))
            ∷ text (some (stringify ([] ∷ (str "a" ∷ []) ++ (str "new" ∷ []))))
            ∷ [])
          none)
    × ((short : Bytes)
        → length (four_elements b'/' short) < 3
        → configd_rename samples pack_sample
            (always refused)
            four_elements
            (λ n. [])
            conn
            short
            none
          ≡ value (none, none, conn))
configd_rename-paths_example =
    configd_rename-paths samples pack_sample (always refused) four_elements (λ n. []) conn none
      (str "/a/old/to/new") (str "a" ∷ []) (str "old") (str "to") (str "new") (omega arith) refl
