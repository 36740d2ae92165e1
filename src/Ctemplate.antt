-- ===== src/Ctemplate.antt =====
-- The class `Ctemplate` of src/client/ctemplate.cpp and ctemplate.hpp: a template as configd tells it.
use vyatta_cfg.Compare.{same_type}
use vyatta_cfg.Prelude.{
  Bool, false, not, ◌&&◌, List, [], ◌∷◌, ◌++◌, Option, none, some, Bytes, str, str_eq,
  if◌then◌else◌,
}
use vyatta_cfg.Value.{
  ValType, error_type, int_type, ipv4_type, ipv4net_type, ipv6_type, ipv6net_type, macaddr_type,
  domain_type, text_type, bool_type, priority_type,
}

-- The fields. `def` is the map of the template by its keys, `allowed` what is kept of the allowed
-- values, `none` until it is asked for. The flags that nothing reads are left out.
pub record Ctemplate : Type 0 where
  pub def : Bytes → Option Bytes
  pub type : ValType
  pub type2 : ValType
  pub allowed : Option Bytes
  pub value : Bool
  pub multi : Bool
  pub tag : Bool

-- `type_map`
unfoldable pub type_map : ValType → Bytes
type_map error_type = str "error"
type_map int_type = str "u32"
type_map ipv4_type = str "ipv4"
type_map ipv4net_type = str "ipv4net"
type_map ipv6_type = str "ipv6"
type_map ipv6net_type = str "ipv6net"
type_map macaddr_type = str "macaddr"
type_map domain_type = str "domain"
type_map text_type = str "txt"
type_map bool_type = str "bool"
type_map priority_type = str "priority"

-- The types from `INT_TYPE` up to the null pointer at the end of the table.
abbrev pub mapped_types : List ValType
mapped_types =
    int_type ∷ ipv4_type ∷ ipv4net_type ∷ ipv6_type ∷ ipv6net_type ∷ macaddr_type ∷ domain_type
    ∷ text_type ∷ bool_type ∷ priority_type ∷ []

unfoldable pub find_type : Bytes → List ValType → ValType
find_type name [] = error_type
find_type name (t ∷ ts) = if str_eq name (type_map t) then t else find_type name ts

unfoldable pub map_type : Option Bytes → ValType
map_type none = error_type
map_type (some name) = find_type name mapped_types

abbrev pub is_one : Option Bytes → Bool
is_one none = false
is_one (some s) = str_eq s (str "1")

-- The constructor and `get`, on the map that `configd_tmpl_get` gives.
unfoldable pub get : (Bytes → Option Bytes) → Ctemplate
get def = record {
  def = def;
  type = map_type (def (str "type"));
  type2 = map_type (def (str "type2"));
  allowed = none;
  value = is_one (def (str "is_value"));
  multi = is_one (def (str "multi"));
  tag = is_one (def (str "tag"));
}

abbrev pub is_typeless : Ctemplate → Bool
is_typeless t = same_type t.type error_type

abbrev pub is_tag_node : Ctemplate → Bool
is_tag_node t = t.tag && not t.value

abbrev pub is_tag_value : Ctemplate → Bool
is_tag_value t = t.tag && t.value

abbrev pub is_leaf_value : Ctemplate → Bool
is_leaf_value t = not t.tag && t.value

abbrev pub is_single_leaf_node : Ctemplate → Bool
is_single_leaf_node t = not t.value && (not t.multi && (not t.tag && not (is_typeless t)))

abbrev pub is_multi_leaf_node : Ctemplate → Bool
is_multi_leaf_node t = not t.value && t.multi

unfoldable pub get_type_name : Bool → Ctemplate → Bytes
get_type_name first t = if first then type_map t.type else type_map t.type2

-- The strings of a vector with a space between each two.
unfoldable pub spaced : List Bytes → Bytes
spaced [] = []
spaced (s ∷ []) = s
spaced (s ∷ t ∷ ss) = s ++ (32 ∷ spaced (t ∷ ss))

-- `getAllowed`, on what `configd_tmpl_get_allowed` gives: the text, and the template afterwards.
unfoldable pub get_allowed : Option (List Bytes) → Ctemplate → Bytes × Ctemplate
get_allowed answer t = elim t.allowed [
  | some s ↦ (s, t)
  | none ↦ elim answer [
    | none ↦ ([], t)
    | some v ↦ (spaced v, record t { allowed = some (spaced v) })
  ]
]

unfoldable pub get_comp_help : Ctemplate → Option Bytes
get_comp_help t = t.def (str "comp_help")

unfoldable pub get_node_help : Ctemplate → Option Bytes
get_node_help t = t.def (str "help")
