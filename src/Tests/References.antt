-- ===== src/Tests/References.antt =====
-- The theorems on paths and references at concrete values. The components need no escaping.
use vyatta_cfg.Cpath.Parse.{AllEscaped, parse-to_path_string}
use vyatta_cfg.Cpath.{Uri, Cpath, parse, push, url_escape, escaped, to_path_string}
use vyatta_cfg.Ctemplate.{get, map_type, find_type, type_map, spaced}
use vyatta_cfg.Prelude.Outcome.{value, undefined}
use vyatta_cfg.Prelude.{
  ◌≡◌, refl, true, false, List, [], ◌∷◌, ◌++◌, Option, none, some, Bytes, str, str_eq, arith,
  if◌then◌else◌,
}
use vyatta_cfg.Value.{error_type, text_type}
use vyatta_cfg.Varref.Handle.{ref_parts, components, get_value, cstore_get_var_ref}
use vyatta_cfg.Varref.Found.{cstore_get_var_ref-leaf}
use vyatta_cfg.Varref.Total.{Gives, Any, process_ref-Gives}
use vyatta_cfg.Varref.Walk.{process_ref-leaf, process_ref-typeless, get_value-unset}
use vyatta_cfg.Varref.{Store, Added, comp_of, template_at, get_values, names_at, process_ref}

abbrev plain_uri : Uri
plain_uri = record { escape = λ s. s; unescape = λ s. s }

abbrev interfaces : Cpath
interfaces = str "interfaces" ∷ str "loopback" ∷ []

parse-to_path_string_example :
    (s : Bytes) × (to_path_string plain_uri interfaces ≡ value s) × (parse plain_uri s ≡ interfaces)
parse-to_path_string_example =
    parse-to_path_string plain_uri (str "interfaces") (str "loopback" ∷ []) (
      record {
        first = b'i';
        others = str "nterfaces";
        shape = refl;
        plain = refl;
        fits = omega arith;
        undone = refl;
      },
      (
        record {
          first = b'l';
          others = str "oopback";
          shape = refl;
          plain = refl;
          fits = omega arith;
          undone = refl;
        },
        tt,
      ),
    )

abbrev leaf_map : Bytes → Option Bytes
leaf_map key = if str_eq key (str "type") then some (str "txt") else none

-- Every node is a leaf of type text, with these values.
abbrev leaves : List Bytes → Store
leaves values = record {
  uri = plain_uri;
  tmpl_get = λ path. some leaf_map;
  node_get = λ path. values;
  node_exists = λ path. false;
}

-- No node has a type.
abbrev typeless : Store
typeless = record {
  uri = plain_uri;
  tmpl_get = λ path. some (λ key. none);
  node_get = λ path. str "eth0" ∷ str "eth1" ∷ [];
  node_exists = λ path. true;
}

process_ref-leaf_example :
    (process_ref
        (leaves (str "lo" ∷ []))
        interfaces
        []
        (str "name" ∷ str "@" ∷ [])
        interfaces
        error_type
      ≡ value ((interfaces ++ (str "name" ∷ str "lo" ∷ []), text_type) ∷ [], false))
    × (get_value
          (leaves (str "lo" ∷ []))
          ((interfaces ++ (str "name" ∷ str "lo" ∷ []), text_type) ∷ [])
          false
        ≡ value (some (str "lo", text_type)))
unfolding comp_of str_eq template_at to_path_string escaped url_escape push get map_type find_type
    type_map get_values spaced
process_ref-leaf_example =
    process_ref-leaf (leaves (str "lo" ∷ [])) interfaces [] (str "name") [] interfaces error_type
      (get leaf_map) (str "lo") (refl, (some (get leaf_map), refl, refl), tt) refl
      (record { no_value = refl; no_multi = refl; no_tag = refl; typed = refl }) refl refl

process_ref-typeless_example :
    process_ref typeless [] [] (str "@@" ∷ []) interfaces error_type
    ≡ value (
      (interfaces ++ (str "eth0" ∷ []), error_type)
          ∷ (interfaces ++ (str "eth1" ∷ []), error_type)
          ∷ (interfaces ++ (str "eth0 eth1" ∷ []), error_type)
          ∷ [],
      true,
    )
unfolding template_at names_at to_path_string escaped url_escape push get map_type spaced
process_ref-typeless_example =
    process_ref-typeless typeless [] interfaces [] (str "eth0") (str "eth1" ∷ []) error_type
      (get (λ key. none)) refl refl refl refl refl refl

get_value-unset_example :
    (process_ref (leaves []) [] [] (str "@" ∷ []) interfaces error_type
      ≡ value ((interfaces ++ ([] ∷ []), error_type) ∷ [], false))
    × (get_value (leaves []) ((interfaces ++ ([] ∷ []), error_type) ∷ []) false ≡ undefined)
unfolding str_eq template_at to_path_string escaped url_escape push get map_type find_type type_map
    get_values
get_value-unset_example =
    get_value-unset (leaves []) [] interfaces [] error_type (get leaf_map) false refl
      (record { no_value = refl; no_multi = refl; no_tag = refl; typed = refl }) refl refl

process_ref-Gives_example : Gives {A = Added} Any (
    process_ref typeless interfaces
      (str "lo")
      (str ".." ∷ str "@@" ∷ str "@" ∷ [])
      interfaces
      error_type)
process_ref-Gives_example =
    process_ref-Gives typeless (λ path. (omega arith, (omega arith, tt))) interfaces (str "lo")
      (omega arith, (omega arith, tt)) (omega arith) (str ".." ∷ str "@@" ∷ str "@" ∷ []) interfaces
      error_type (omega arith, (omega arith, (omega arith, tt))) (omega arith, (omega arith, tt))

abbrev value_map : Bytes → Option Bytes
value_map key = if str_eq key (str "is_value") then some (str "1") else none

-- The value "lo" below the node, where every other node is a leaf.
abbrev below_node : Store
below_node = record {
  uri = plain_uri;
  tmpl_get =
      λ path. some (if str_eq path (str "/interfaces/loopback/lo") then value_map else leaf_map);
  node_get = λ path. str "up" ∷ [];
  node_exists = λ path. true;
}

interfaces-AllEscaped : AllEscaped plain_uri interfaces
interfaces-AllEscaped = (
  record {
    first = b'i';
    others = str "nterfaces";
    shape = refl;
    plain = refl;
    fits = omega arith;
    undone = refl;
  },
  (
    record {
      first = b'l';
      others = str "oopback";
      shape = refl;
      plain = refl;
      fits = omega arith;
      undone = refl;
    },
    tt,
  ),
)

lo-AllEscaped : AllEscaped plain_uri (str "interfaces" ∷ str "loopback" ∷ str "lo" ∷ [])
lo-AllEscaped = (
  interfaces-AllEscaped.0,
  (
    interfaces-AllEscaped.1.0,
    (
      record {
        first = b'l';
        others = str "o";
        shape = refl;
        plain = refl;
        fits = omega arith;
        undone = refl;
      },
      tt,
    ),
  ),
)

cstore_get_var_ref-leaf_example :
    cstore_get_var_ref below_node [] (str "/interfaces/loopback/lo") (str "state/@")
    ≡ value (
      record { found = true; type = text_type; val = some (str "up"); ismulti = false },
      str "/interfaces/loopback/lo",
    )
unfolding ref_parts components comp_of str_eq template_at to_path_string escaped url_escape push get
    map_type find_type type_map get_values spaced
cstore_get_var_ref-leaf_example =
    cstore_get_var_ref-leaf below_node (str "interfaces") (str "lo") [] (str "state/@")
      (str "state") (str "up") (str "loopback" ∷ []) [] value_map (get leaf_map)
      interfaces-AllEscaped lo-AllEscaped (omega arith) (omega arith) refl refl refl
      (refl, (some (get leaf_map), refl, refl), tt) refl
      (record { no_value = refl; no_multi = refl; no_tag = refl; typed = refl }) refl refl
