-- ===== src/Varref.antt =====
-- The class `VarRef` of src/cliexec/cstore-varref.cpp: a reference as the paths that it stands for.
-- `S` is what configd answers while a reference is resolved, from the running configuration or the candidate.
pub mod Handle
pub mod Walk
pub mod Total
pub mod Found
use vyatta_cfg.Compare.{same_type}
use vyatta_cfg.Cpath.{Uri, Cpath, parse, push, pop, back, nth, to_path_string, tokens}
use vyatta_cfg.Ctemplate.{
  Ctemplate, get, spaced, is_typeless, is_tag_node, is_tag_value, is_single_leaf_node,
  is_multi_leaf_node,
}
use vyatta_cfg.Prelude.Outcome.{Outcome, value, undefined, ◌>>=◌}
use vyatta_cfg.Prelude.{
  ℕ, zero, suc, Bool, true, false, not, ◌&&◌, ◌||◌, List, [], ◌∷◌, ◌++◌, Option, none, some, Bytes,
  str, str_eq, ltb, length, ◌==◌, if◌then◌else◌,
}
use vyatta_cfg.Value.{ValType, error_type, text_type}

-- The answers to `configd_tmpl_get`, `configd_node_get` and `configd_node_exists` for a path. A null
-- vector is one without strings, for `vector_count` as well.
pub record Store : Type 0 where
  pub uri : Uri
  pub tmpl_get : Bytes → Option (Bytes → Option Bytes)
  pub node_get : Bytes → List Bytes
  pub node_exists : Bytes → Bool

-- A path with its type; with `ERROR_TYPE` it is one that has to exist, with another its last
-- component is a value.
abbrev pub Entry : Type 0
Entry = Cpath × ValType

-- What is added to `_paths`, and whether `*ismulti` is set.
abbrev pub Added : Type 0
Added = List Entry × Bool

abbrev pub nothing : Outcome Added
nothing = value ([], false)

abbrev pub both : Outcome Added → Outcome Added → Outcome Added
both o p = do a ← o; b ← p; value (a.0 ++ b.0, a.1 || b.1)

abbrev pub path_eq : Cpath → Cpath → Bool
path_eq [] [] = true
path_eq (c ∷ p) (d ∷ q) = str_eq c d && path_eq p q
path_eq _ _ = false

-- The components that the first argument gives to a reference, for every string of a vector.
unfoldable pub for_each : (Bytes → Outcome Added) → List Bytes → Outcome Added
for_each f [] = nothing
for_each f (s ∷ ss) = both (f s) (for_each f ss)

-- The kinds of components: `@`, `.`, `..`, `@@`, and plain text.
pub data Comp : Type 0 where
  at dot dot_dot at_at plain : Comp

unfoldable pub comp_of : Bytes → Comp
comp_of s =
    if str_eq s (str "@")
    then at
    else if str_eq s (str ".")
    then dot
    else if str_eq s (str "..")
    then dot_dot
    else if str_eq s (str "@@")
    then at_at
    else plain

module _ (S : Store) where
  -- `Ctemplate` on a path, and its `get`.
  unfoldable pub template_at : Cpath → Outcome (Option Ctemplate)
  template_at p = do
    path ← to_path_string S.uri p
    value (elim (S.tmpl_get path) [ none ↦ none | some def ↦ some (get def) ])

  -- `get_values`: `none` for the result 0.
  unfoldable pub get_values : Cpath → Outcome (Option Bytes)
  get_values p = do
    path ← to_path_string S.uri p
    value (elim (S.node_get path) [ [] ↦ none | v ∷ vs ↦ some (spaced (v ∷ vs)) ])

  unfoldable pub names_at : Cpath → Outcome (List Bytes)
  names_at p = do path ← to_path_string S.uri p; value (S.node_get path)

  -- The block at the end of `process_ref`, for `handle_leaf`.
  unfoldable pub handle_leaf : Ctemplate → Cpath → Outcome Added
  handle_leaf def p = do
    v ← get_values p
    value (elim def.multi [
      | true ↦ elim v [ none ↦ ([], true) | some s ↦ ((push s p, text_type) ∷ [], true) ]
      | false ↦ elim v [
        | none ↦ ((push [] p, error_type) ∷ [], false)
        | some s ↦ ((push s p, def.type) ∷ [], false)
      ]
    ])

  -- The path for `..`: one component up, and one more from the value of a tag. `none` for an invalid one.
  unfoldable pub parent : Cpath → Outcome (Option Cpath)
  parent p = do
    up ← pop p
    elim up [
      | [] ↦ value (some [])
      | c ∷ rest ↦ do
        t ← template_at (c ∷ rest)
        elim t [
          | none ↦ value none
          | some def ↦ elim (is_tag_value def) [
            | true ↦ do q ← pop (c ∷ rest); value (some q)
            | false ↦ value (some (c ∷ rest))
          ]
        ]
    ]

  -- The path under which a text stands: at a tag node the value of the tag comes first.
  unfoldable pub above_text : Cpath → Bytes → Cpath → Option Ctemplate → Outcome (Option Cpath)
  above_text orig at_string p none = value (some p)
  above_text orig at_string p (some def) = elim (is_tag_node def) [
    | false ↦ value (some p)
    | true ↦
        if ltb (length orig) (length p)
        then value none
        else if length p == length orig
        then value (some (push at_string p))
        else (do c ← nth orig (length p); value (some (push c p)))
  ]

  -- `process_ref`, on `_orig_path_comps` and `_at_string`: what is added to `_paths`.
  unfoldable pub process_ref : Cpath → Bytes → List Bytes → Cpath → ValType → Outcome Added
  process_ref orig at_string [] cur t = value ((cur, t) ∷ [], false)
  process_ref orig at_string (comp ∷ rest) cur t =
      let go : Cpath → ValType → Outcome Added = process_ref orig at_string rest in
      template_at cur >>= λ got. elim (comp_of comp) [
        | dot ↦ go cur error_type
        | plain ↦ above_text orig at_string cur got >>= λ above. elim above [
          | none ↦ nothing
          | some p ↦ go (push comp p) error_type
        ]
        | dot_dot ↦ elim got [
          | none ↦ nothing
          | some def ↦ elim cur [
            | [] ↦ nothing
            | c ∷ p ↦ parent (c ∷ p) >>= λ up. elim up [ none ↦ nothing | some q ↦ go q error_type ]
          ]
        ]
        | at ↦ elim got [
          | none ↦ nothing
          | some def ↦
              if is_typeless def
              then go cur error_type
              else if path_eq cur orig
              then go (push at_string cur) def.type
              else if not (is_single_leaf_node def) && not (is_multi_leaf_node def)
              then (if ltb (length cur) (length orig)
                  then nth orig (length cur) >>= (λ c. go (push c cur) def.type)
                  else nothing)
              else handle_leaf def cur
        ]
        | at_at ↦ elim got [
          | none ↦ nothing
          | some def ↦
              let each : List Bytes → Outcome Added =
                λ names. for_each (λ s. go (push s cur) def.type) names in
              let behind : Outcome Added =
                if def.value
                then nothing
                else if def.tag
                then names_at cur >>= (λ names. both (value ([], true)) (each names))
                else handle_leaf def cur in
              if is_typeless def
              then names_at cur >>= (λ names. elim names [
                | [] ↦ value ([], true)
                | s ∷ ss ↦ both (value ([], true)) (both (each (s ∷ ss)) behind)
              ])
              else behind
        ]
      ]
