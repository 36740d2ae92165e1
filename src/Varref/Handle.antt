-- ===== src/Varref/Handle.antt =====
-- The values and the target of a reference: `VarRef`'s constructor, `getValue` and `getSetPath` of
-- src/cliexec/cstore-varref.cpp, and the functions of src/cliexec/cstore-c.cpp that use them.
use vyatta_cfg.Compare.{same_type}
use vyatta_cfg.Cpath.{Cpath, parse, push, pop, back, to_path_string}
use vyatta_cfg.Ctemplate.{get, spaced}
use vyatta_cfg.Prelude.Outcome.{Outcome, value, ◌>>=◌}
use vyatta_cfg.Prelude.{
  Bool, true, false, not, ◌&&◌, ◌||◌, List, [], ◌∷◌, ◌++◌, Option, none, some, Bytes, str_eq, take,
  ltb, length, ◌==◌, if◌then◌else◌,
}
use vyatta_cfg.Syntax.{VarRef}
use vyatta_cfg.Value.{ValType, error_type, text_type}
use vyatta_cfg.Varref.{Store, Entry, Added, process_ref}

-- The components between the slashes; an empty one at the end is left out.
unfoldable pub components : Bytes → Bytes → List Bytes
components [] [] = []
components (c ∷ word) [] = (c ∷ word) ∷ []
components word (c ∷ s) =
    let closed = components [] s in
    let more = components (word ++ (c ∷ [])) s in if c == b'/' then word ∷ closed else more

-- Is the reference absolute, and its components behind the first slash.
unfoldable pub ref_parts : Bytes → Bool × List Bytes
ref_parts [] = (false, [])
ref_parts (c ∷ s) = if c == b'/' then (true, components [] s) else (false, components [] (c ∷ s))

abbrev pub is_in : Bytes → List Bytes → Bool
is_in s [] = false
is_in s (t ∷ ts) = str_eq s t || is_in s ts

-- The state of the loop of `getValue`.
pub record Values : Type 0 where
  pub result : List Bytes
  pub added : List Bytes
  pub def_type : ValType

abbrev pub no_values : Values
no_values = record { result = []; added = []; def_type = error_type }

module _ (S : Store) where
  -- The constructor, with `get_cfg_path` and `get_at_string`; the paths and whether `*ismulti` is set.
  unfoldable pub new_ref : Bytes → Bytes → Bytes → Outcome Added
  new_ref cfg_path at_string ref_str =
      let parts = ref_parts ref_str in
      let orig : Cpath = if parts.0 then [] else parse S.uri cfg_path in
      process_ref S orig at_string parts.1 orig error_type

  -- A pass of the loop of `getValue`.
  unfoldable pub add_entry : Bool → Entry → Values → Outcome Values
  add_entry multi (path, t) v = elim (back path) [
    | none ↦ value v
    | some last ↦
        let kept = record v {
          def_type = if same_type t error_type then v.def_type else t;
          added = last ∷ v.added;
          result = v.result ++ (last ∷ []);
        } in
        elim (not multi && is_in last v.added) [
          | true ↦ value v
          | false ↦ elim (same_type t error_type) [
            | false ↦ value kept
            | true ↦ do
              text ← to_path_string S.uri path
              value (
                  if S.node_exists text
                  then kept
                  else record v { added = [] ∷ v.added; result = v.result ++ ([] ∷ []) })
          ]
        ]
  ]

  unfoldable pub add_entries : Bool → List Entry → Values → Outcome Values
  add_entries multi [] v = value v
  add_entries multi (e ∷ es) v = do v' ← add_entry multi e v; add_entries multi es v'

  -- `getValue`: the value and its type, `none` for false.
  unfoldable pub get_value : List Entry → Bool → Outcome (Option (Bytes × ValType))
  get_value paths multi = do
    v ← add_entries multi paths no_values
    value (elim v.result [
      | [] ↦ none
      | r ∷ rs ↦ some (
        spaced (r ∷ rs),
        if ltb 1 (length (r ∷ rs)) || same_type v.def_type error_type
            then text_type
            else v.def_type,
      )
    ])

  -- `getSetPath`, `none` for false.
  unfoldable pub get_set_path : List Entry → Outcome (Option Cpath)
  get_set_path [] = value none
  get_set_path ((path, t) ∷ []) = do p ← pop path; value (some p)
  get_set_path (e ∷ f ∷ es) = value none

  -- `set_cfg_path`: what fits into the buffer.
  unfoldable pub set_cfg_path : Bytes → Bytes
  set_cfg_path s = take 4095 s

  abbrev pub missing : Bool → VarRef
  missing multi = record { found = false; type = error_type; val = none; ismulti = multi }

  -- `cstore_get_var_ref` with a handle and `*ismulti` 0: the results, and the path of the
  -- configuration afterwards. The template is asked for at that path as it is.
  unfoldable pub cstore_get_var_ref : Bytes → Bytes → Bytes → Outcome (VarRef × Bytes)
  cstore_get_var_ref at_string cfg_path ref_str = elim (S.tmpl_get cfg_path) [
    | none ↦ value (missing false, cfg_path)
    | some def ↦
        let orig = parse S.uri cfg_path in
        (if (get def).value then pop orig else value orig) >>= λ path.
        to_path_string S.uri path >>= λ text.
        new_ref (set_cfg_path text) at_string ref_str >>= λ paths.
        get_value paths.0 paths.1 >>= λ found. to_path_string S.uri orig >>= λ restored.
        value (elim found [
          | none ↦ (missing paths.1, set_cfg_path restored)
          | some r ↦ (
            record { found = true; type = r.1; val = some r.0; ismulti = paths.1 },
            set_cfg_path restored,
          )
        ])
  ]

  -- `cstore_set_var_ref` with a handle, for the candidate: whether it succeeds, the path that is asked
  -- to be set, and the path of the configuration afterwards. `is_leaf` is the answer of
  -- `configd_node_get_type`, `set` whether `configd_set` succeeds. What is printed is not modelled.
  unfoldable pub cstore_set_var_ref :
      (Bytes → Bool)
      → (Bytes → Bool)
      → Bytes
      → Bytes
      → Bytes
      → Bytes
      → Outcome (Bool × Option Bytes × Bytes)
  cstore_set_var_ref is_leaf set at_string cfg_path ref_str val =
      let orig = parse S.uri cfg_path in
      pop orig >>= λ path. to_path_string S.uri path >>= λ text.
      new_ref (set_cfg_path text) at_string ref_str >>= λ paths. get_set_path paths.0 >>= λ target.
      to_path_string S.uri orig >>= λ restored. elim target [
        | none ↦ value (false, none, set_cfg_path restored)
        | some p ↦ to_path_string S.uri p >>= λ node. elim (is_leaf node) [
          | false ↦ value (false, none, set_cfg_path restored)
          | true ↦ to_path_string S.uri (push val p) >>= λ asked.
              value (set asked, some asked, set_cfg_path restored)
        ]
      ]
