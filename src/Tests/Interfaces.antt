-- ===== src/Tests/Interfaces.antt =====
-- The theorems on completion, on the compatibility store and on the shell API at concrete values.
use vyatta_cfg.CfgClient.Methods.{session_attach, session_setup}
use vyatta_cfg.CfgClient.Sessions.{Attached, Named, session_attach-Attached, session_setup-Named}
use vyatta_cfg.CfgClient.Texts.{joined, none_has, split-joined}
use vyatta_cfg.CfgClient.{CfgClient, Thrown, split, fresh_error}
use vyatta_cfg.Client.Calls.{
  configd_node_get, configd_node_get_status, configd_sess_exists, configd_sess_setup,
}
use vyatta_cfg.Client.{Arg, number, Conn, call, call_int, call_inverted, call_vector, init}
use vyatta_cfg.Compat.Nodes.{
  contains_text, child_status, status_at, cfg_path_get_child_nodes_status,
  cfg_path_get_deleted_values,
}
use vyatta_cfg.Compat.Path.{str_vec_to_char-to_path_string}
use vyatta_cfg.Compat.Status.{
  is_deleted, cfg_path_get_child_nodes_status-lookup, cfg_path_get_deleted_values-contains,
}
use vyatta_cfg.Compat.{established, assert_session, node_get_at, str_vec_to_char, join_components}
use vyatta_cfg.Completion.Quoting.{outside, shell_words, quoted_items-words}
use vyatta_cfg.Completion.{shell_escape_squotes, quoted_items, help_items, stripped}
use vyatta_cfg.Cpath.{Uri, to_path_string, url_escape}
use vyatta_cfg.Maps.{lookup}
use vyatta_cfg.Prelude.Integer.{pos, to_int, to_unsigned}
use vyatta_cfg.Prelude.Outcome.{value, undefined}
use vyatta_cfg.Prelude.{
  ℕ, ◌+◌, ◌%◌, ◌^◌, zero, suc, ◌≡◌, refl, true, false, ◌||◌, List, [], ◌∷◌, ◌++◌, map, Option, none,
  some, Bytes, str, str_eq, arith, if◌then◌else◌,
}
use vyatta_cfg.Rpc.{
  Lib, Exchange, Kind, object, array, string, integer, non_null_entry, jobj_is_null,
  jarray_to_vector, extract_result, check_id, recv_response, get_response, get_vector, get_int,
  strings_of,
}
use vyatta_cfg.Shell.Edited.{with_sid, run_main-completion, run_main-level_str}
use vyatta_cfg.Shell.Listed.{list_nodes_of-words}
use vyatta_cfg.Shell.Ops.{returned, list_nodes_of}
use vyatta_cfg.Shell.Program.{run_main}
use vyatta_cfg.Shell.{Outside, Environment, Options}

abbrev two_items : List Bytes
two_items = str " it's" ∷ str "a b" ∷ []

quoted_items-words_example :
    (shell_words outside none (quoted_items (map shell_escape_squotes two_items)) ≡ some two_items)
    × (shell_words outside none (quoted_items (help_items two_items))
        ≡ some (map stripped two_items))
quoted_items-words_example = quoted_items-words two_items

abbrev plain_uri : Uri
plain_uri = record { escape = λ s. s; unescape = λ s. s }

str_vec_to_char-to_path_string_example :
    (str_vec_to_char plain_uri (str "a" ∷ str "b" ∷ [])
      ≡ to_path_string plain_uri (str "a" ∷ str "b" ∷ []))
    × (str_vec_to_char plain_uri (str "a" ∷ []) ≡ value (str "a"))
str_vec_to_char-to_path_string_example =
    str_vec_to_char-to_path_string plain_uri (str "a") (str "b") []

-- A library of JSON values, and a server: a request is kept with its arguments, and answered by a
-- vector or a number.
data Json : Type 0 where
  request : List Arg → Json
  words : List Bytes → Json
  word : Bytes → Json
  count : ℕ → Json
  answer : Json → Json

abbrev json_kind : Json → Kind
json_kind (request args) = array
json_kind (words ss) = array
json_kind (word s) = string
json_kind (count n) = integer
json_kind (answer j) = object

abbrev json_lib : Lib
json_lib = record {
  Json = Json;
  Map = List (Bytes × Bytes);
  Vector = List Bytes;
  kind = json_kind;
  string_value = λ j. elim j [ word s ↦ some s | _ ↦ none ];
  integer_value = λ j. elim j [ count n ↦ pos n | _ ↦ pos 0 ];
  elements = λ j. elim j [ words ss ↦ map word ss | _ ↦ [] ];
  members = λ j. [];
  object_get =
      λ j key. elim j [ answer r ↦ if str_eq key (str "result") then some r else none | _ ↦ none ];
  map_new = some;
  map_get = λ m key. none;
  vector_new = some;
}

abbrev pack : List Arg → Option Json
pack args = some (request args)

-- Below the node are "old" and "kept" in the running configuration, "kept" and "new" in the candidate.
abbrev nodes_of : Json → List Bytes
nodes_of (request (number (pos (suc zero)) ∷ args)) = str "old" ∷ str "kept" ∷ []
nodes_of _ = str "kept" ∷ str "new" ∷ []

abbrev reply : Bytes → Json → Json
reply fn args = if str_eq fn (str "Get") then words (nodes_of args) else count 1

abbrev server : Bytes → Json → ℕ → Exchange json_lib
server fn args id = record { sent = true; reply = some (answer (reply fn args)) }

abbrev conn : Conn
conn = record { session_id = some (str "5"); req_id = 0 }

abbrev conn_at : ℕ → Conn
conn_at n = record { session_id = some (str "5"); req_id = n }

abbrev node : List Bytes
node = str "a" ∷ str "b" ∷ []

abbrev olds : List Bytes
olds = str "old" ∷ str "kept" ∷ []

abbrev news : List Bytes
news = str "kept" ∷ str "new" ∷ []

url_escape-plain : (c : ℕ) (s : Bytes) → url_escape plain_uri (c ∷ s) ≡ value (c ∷ s)
unfolding url_escape
url_escape-plain c s = ground arith

status_one :
    (b : ℕ) (s : Bytes) (c : Conn)
    → status_at json_lib pack server (λ v. v) plain_uri (node ++ ((b ∷ s) ∷ [])) c
      ≡ value (pos 1, record c { req_id = (c.req_id + 1) % 2 ^ 32 })
unfolding status_at configd_node_get_status call_int call get_int get_response recv_response
    non_null_entry jobj_is_null str_eq extract_result check_id init to_int to_unsigned url_escape
    str_vec_to_char join_components
status_one b s c = rw (status_at, str_vec_to_char, join_components, url_escape-plain b s) refl

status_known :
    (n : Bytes)
    → (contains_text n news || contains_text n olds) ≡ true
    → (c : Conn)
    → (c' : Conn) × (status_at json_lib pack server (λ v. v) plain_uri (node ++ (n ∷ [])) c
        ≡ value (pos 1, c'))
unfolding str_eq
status_known [] h c = ground (arith, h)
status_known (b ∷ s) h c = (record c { req_id = (c.req_id + 1) % 2 ^ 32 }, status_one b s c)

cfg_path_get_child_nodes_status-lookup_example :
    (m : List (Bytes × Bytes)) × (last : Conn) × (cfg_path_get_child_nodes_status json_lib pack
        server
        (λ v. v)
        plain_uri
        (established conn)
        node
        []
      ≡ value (m, established last))
    × ((j : Bytes)
        → lookup j m ≡ (
            if contains_text j (str "kept" ∷ str "new" ∷ [])
              || contains_text j (str "old" ∷ str "kept" ∷ [])
            then some (child_status (pos 1))
            else lookup j []))
unfolding node_get_at assert_session configd_sess_exists call_int get_int to_int to_unsigned
    str_vec_to_char join_components url_escape configd_node_get call_vector call get_vector
    get_response recv_response non_null_entry jobj_is_null str_eq extract_result jarray_to_vector
    strings_of check_id init
cfg_path_get_child_nodes_status-lookup_example =
    cfg_path_get_child_nodes_status-lookup json_lib pack server (λ v. v) plain_uri node (λ n. pos 1)
      olds news status_known conn (conn_at 1) (conn_at 2) (conn_at 3) [] refl refl refl

cfg_path_get_deleted_values-contains_example :
    (deleted : List Bytes) × (cfg_path_get_deleted_values json_lib pack server
        (λ v. v)
        plain_uri
        (established conn)
        node
      ≡ value (deleted, established (conn_at 2)))
    × ((x : Bytes)
        → contains_text x deleted
          ≡ is_deleted x (str "old" ∷ str "kept" ∷ []) (some (str "kept" ∷ str "new" ∷ [])))
unfolding node_get_at str_vec_to_char join_components url_escape configd_node_get call_vector call
    get_vector get_response recv_response non_null_entry jobj_is_null str_eq extract_result
    jarray_to_vector strings_of check_id init
cfg_path_get_deleted_values-contains_example =
    cfg_path_get_deleted_values-contains json_lib pack server (λ v. v) plain_uri node conn
      (conn_at 1) (conn_at 2) (str "old" ∷ str "kept" ∷ []) (some (str "kept" ∷ str "new" ∷ []))
      refl refl

-- The shell API

abbrev outside_world : Outside json_lib
outside_world = record {
  uri = plain_uri;
  create_sep = λ c s. str "a" ∷ str "b" ∷ [];
  entries = λ m. [];
  elements = λ v. v;
  decimal = λ n. [];
  dirname = λ s. s;
  args_to_path = λ args. elim args [ [] ↦ none | s ∷ ss ↦ some s ];
}

abbrev in_level : Environment
in_level = record { edit_level = some (str "a/b"); config_sid = some (str "5") }

abbrev no_options : Options
no_options = record {
  active_only = false;
  show_defaults = false;
  hide_secrets = false;
  working_only = false;
  context_diff = false;
  commands = false;
  ignore_edit = false;
  args_as_path = false;
  cfg1 = none;
  cfg2 = none;
}

list_nodes_of-words_example :
    (text : Bytes) × (list_nodes_of json_lib pack server outside_world in_level no_options 1 conn
        (some (str "/a/b"))
      ≡ value (returned text))
    × (shell_words outside none text ≡ some (str "old" ∷ str "kept" ∷ []))
unfolding configd_node_get call_vector call get_vector get_response recv_response non_null_entry
    jobj_is_null str_eq extract_result jarray_to_vector strings_of check_id init
list_nodes_of-words_example =
    list_nodes_of-words json_lib pack server outside_world in_level no_options 1 conn (conn_at 1)
      (some (str "/a/b")) (str "old" ∷ str "kept" ∷ []) refl (refl, (refl, tt))

run_main-completion_example :
    run_main json_lib pack server outside_world in_level no_options
      (some conn)
      []
      (str "getCompletionEnv" ∷ str "show" ∷ [] ∷ [])
    ≡ vyatta_cfg.Shell.Ops.get_completion_env json_lib pack server outside_world in_level no_options
        (with_sid json_lib pack server outside_world in_level no_options conn)
        (some (str "show"))
run_main-completion_example =
    run_main-completion json_lib pack server outside_world in_level no_options conn [] (str "show")
      [] [] (str "a/b") b'a' [] (str "b" ∷ []) refl refl

run_main-level_str_example :
    run_main json_lib pack server outside_world in_level no_options
      (some conn)
      []
      (str "getEditLevelStr" ∷ [])
    ≡ undefined
run_main-level_str_example =
    run_main-level_str json_lib pack server outside_world in_level no_options conn [] (str "a/b")
      b'a' [] (str "b" ∷ []) refl refl

-- The client class

split-joined_example :
    (joined b',' (split (str "a,,b") b',') ≡ str "a,,b")
    × (none_has b',' (split (str "a,,b") b',') ≡ true)
split-joined_example = split-joined (str "a,,b") b','

abbrev client : CfgClient
client = record { conn = record { session_id = none; req_id = 0 }; sessionid = [] }

abbrev seven : Conn
seven = record { session_id = some (str "7"); req_id = 1 }

session_attach-Attached_example :
    (t : Thrown (Unit {0})) × (c : CfgClient) × (session_attach json_lib pack server plain_uri
        (λ c s. [])
        (λ n. [])
        (λ m. [])
        (λ v. v)
        client
        (str "7")
      ≡ value (t, c))
    × Attached json_lib pack server plain_uri
        (λ c s. [])
        (λ n. [])
        (λ m. [])
        (λ v. v)
        []
        (str "7")
        t
        c
unfolding configd_sess_exists call_int call get_int get_response recv_response non_null_entry
    jobj_is_null str_eq extract_result check_id init to_int to_unsigned
session_attach-Attached_example =
    session_attach-Attached json_lib pack server plain_uri (λ c s. []) (λ n. []) (λ m. []) (λ v. v)
      client (str "7") (pos 1) (init json_lib (str "configd_sess_exists") (fresh_error json_lib))
      seven refl tt

session_setup-Named_example :
    (t : Thrown (Unit {0})) × (c : CfgClient) × (session_setup json_lib pack server plain_uri
        (λ c s. [])
        (λ n. [])
        (λ m. [])
        (λ v. v)
        client
        (str "7")
      ≡ value (t, c))
    × Named json_lib pack server plain_uri (λ c s. []) (λ n. []) (λ m. []) (λ v. v) [] (str "7") t c
unfolding configd_sess_setup call_inverted call get_int get_response recv_response non_null_entry
    jobj_is_null str_eq extract_result check_id init to_int to_unsigned
session_setup-Named_example =
    session_setup-Named json_lib pack server plain_uri (λ c s. []) (λ n. []) (λ m. []) (λ v. v)
      client b'7' [] (pos 0) (init json_lib (str "_configd_sess_setup") (fresh_error json_lib))
      seven refl tt
