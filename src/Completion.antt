-- ===== src/Completion.antt =====
-- `getCompletionEnv` of src/client/completion_env.cpp: the environment for the completion of a command.
-- How argz cuts a text, the entries of a map, and the elements of a vector are parameters.
pub mod Quoting
use vyatta_cfg.Client.Calls.{
  configd_get_help, configd_node_exists, configd_tmpl_get, configd_tmpl_get_allowed,
}
use vyatta_cfg.Client.{Arg, Conn}
use vyatta_cfg.Cpath.{Uri, Cpath, push, to_path_string}
use vyatta_cfg.Ctemplate.{Ctemplate, get, get_allowed, get_comp_help, is_typeless, is_leaf_value}
use vyatta_cfg.Maps.{entries_map}
use vyatta_cfg.Prelude.Integer.{ℤ, pos, negsuc}
use vyatta_cfg.Prelude.Outcome.{Outcome, value, undefined, ◌>>=◌}
use vyatta_cfg.Prelude.{
  ℕ, zero, suc, Bool, true, false, not, ◌&&◌, ◌||◌, List, [], ◌∷◌, ◌++◌, map, Option, none, some,
  Bytes, str, str_eq, starts_with, ltb, leb, ◌==◌, if◌then◌else◌,
}
use vyatta_cfg.Rpc.{Lib, Exchange, Error}

-- `shell_escape_squotes`
unfoldable pub shell_escape_squotes : Bytes → Bytes
shell_escape_squotes [] = []
shell_escape_squotes (c ∷ s) =
    let rest = shell_escape_squotes s in if c == b'\'' then str "'\\''" ++ rest else c ∷ rest

-- `isspace`
abbrev pub is_space : ℕ → Bool
is_space c = c == 32 || (leb 9 c && leb c 13)

-- The two loops that take spaces away, in front and at the end.
unfoldable pub strip_front : Bytes → Bytes
strip_front [] = []
strip_front (c ∷ s) = let rest = strip_front s in if is_space c then rest else c ∷ s

unfoldable pub strip_back : Bytes → Bytes
strip_back [] = []
strip_back (c ∷ s) = elim (strip_back s) [
  | [] ↦ if is_space c then [] else c ∷ []
  | d ∷ r ↦ c ∷ d ∷ r
]

unfoldable pub stripped : Bytes → Bytes
stripped s = strip_back (strip_front s)

-- The pairs whose key begins with the last component.
unfoldable pub begin_with : Bytes → List (Bytes × Bytes) → List (Bytes × Bytes)
begin_with s [] = []
begin_with s ((k, v) ∷ m) =
    let rest = begin_with s m in if starts_with s k then (k, v) ∷ rest else rest

abbrev pub keys : List (Bytes × Bytes) → List Bytes
keys m = map (λ e. e.0) m

abbrev pub values_of : List (Bytes × Bytes) → List Bytes
values_of m = map (λ e. e.1) m

-- The elements of an array for the shell.
unfoldable pub quoted_items : List Bytes → Bytes
quoted_items [] = []
quoted_items (s ∷ ss) = str "'" ++ (s ++ (str "' " ++ quoted_items ss))

-- What is told to the shell.
pub record Completion : Type 0 where
  pub comp_vals : List Bytes
  pub comp_string : Bytes
  pub last_comp_val : Bool
  pub comp_help : Bytes
  pub help_pairs : List (Bytes × Bytes)

abbrev pub help_items : List Bytes → List Bytes
help_items ss = map (λ s. stripped (shell_escape_squotes s)) ss

unfoldable pub env_text : Completion → Bytes
env_text c =
    str "_cli_shell_api_comp_values=("
    ++ (quoted_items (map shell_escape_squotes c.comp_vals)
        ++ (c.comp_string
            ++ (str "); _cli_shell_api_last_comp_val="
                ++ ((if c.last_comp_val then str "true; " else str "false; ")
                    ++ (str "_cli_shell_api_comp_help='"
                        ++ (c.comp_help
                            ++ (str "'; _cli_shell_api_hitems=("
                                ++ (quoted_items (help_items (keys c.help_pairs))
                                    ++ (str "); _cli_shell_api_hstrs=("
                                        ++ (quoted_items (help_items (values_of c.help_pairs))
                                            ++ str "); "))))))))))

abbrev pub is_exists_only : Bytes → Bool
is_exists_only cmd =
    str_eq cmd (str "delete")
    || (str_eq cmd (str "show")
        || (str_eq cmd (str "comment")
            || (str_eq cmd (str "activate") || str_eq cmd (str "deactivate"))))

-- The components behind the command but the last one, and the last one.
unfoldable pub split_last : List Bytes → Option (List Bytes × Bytes)
split_last [] = none
split_last (c ∷ []) = some ([], c)
split_last (c ∷ d ∷ cs) = elim (split_last (d ∷ cs)) [
  | none ↦ none
  | some (front, last) ↦ some (c ∷ front, last)
]

-- What the template says of the path so far: at the root nothing is asked, and there is none.
pub record Place : Type 0 where
  pub def : Option Ctemplate
  pub typeless : Bool
  pub leaf_value : Bool
  pub value : Bool

-- The completions below a node without a type or at a value: the children that fit.
unfoldable pub complete_children : Bytes → List (Bytes × Bytes) → Option Completion
complete_children last cmap = elim (begin_with last cmap) [
  | [] ↦ none
  | (k, v) ∷ m ↦ some (record {
    comp_vals = keys ((k, v) ∷ m);
    comp_string = [];
    last_comp_val = false;
    comp_help = [];
    help_pairs = (k, v) ∷ m;
  })
]

-- The completions for a value, with the text of the allowed ones.
unfoldable pub complete_value : Ctemplate → Bytes → List (Bytes × Bytes) → Completion
complete_value def allowed cmap = record {
  comp_vals = keys cmap;
  comp_string = allowed;
  last_comp_val = true;
  comp_help = elim (get_comp_help def) [ none ↦ [] | some s ↦ shell_escape_squotes s ];
  help_pairs = cmap;
}

module _ (L : Lib) (json_pack : List Arg → Option (Lib.Json L))
    (ask : Bytes → Lib.Json L → ℕ → Exchange L) (uri : Uri) (create_sep : ℕ → Bytes → List Bytes)
    (entries : Lib.Map L → List Bytes) (elements : Lib.Vector L → List Bytes) where
  abbrev at_root : Place
  at_root = record { def = none; typeless = true; leaf_value = false; value = false }

  abbrev place_of : Ctemplate → Place
  place_of def = record {
    def = some def;
    typeless = is_typeless def;
    leaf_value = is_leaf_value def;
    value = def.value;
  }

  -- The template of the path, `none` for a path that is not valid for the command.
  unfoldable pub place_at : Conn → Bool → Cpath → Bytes → Outcome (Option Place × Conn)
  place_at conn exists_only [] path = value (some at_root, conn)
  place_at conn exists_only (c ∷ p) path = do
    t ← configd_tmpl_get L json_pack ask conn (some path) none
    elim t.0 [
      | none ↦ value (none, t.2)
      | some m ↦
          let def = get (Lib.map_get L m) in
          elim exists_only [
            | false ↦ value (some (place_of def), t.2)
            | true ↦ do
              n ← configd_node_exists L json_pack ask t.2 (pos 2) (some path) none
              value (elim n.0 [ pos (suc zero) ↦ some (place_of def) | _ ↦ none ], n.2)
          ]
    ]

  -- One call of `getAllowed`.
  unfoldable pub allowed_once : Conn → Ctemplate → Bytes → Outcome (Bytes × Ctemplate × Conn)
  allowed_once conn def path = elim def.allowed [
    | some s ↦ value (s, def, conn)
    | none ↦ do
      v ← configd_tmpl_get_allowed L json_pack ask conn (some path) none
      let t = get_allowed (elim v.0 [ none ↦ none | some vec ↦ some (elements vec) ]) def
      value (t.0, t.1, v.2)
  ]

  -- `getAllowed` is called for the test, and again for its text; for a command on what exists, never.
  unfoldable pub allowed_at : Conn → Bool → Ctemplate → Bytes → Outcome (Bytes × Conn)
  allowed_at conn true def path = value ([], conn)
  allowed_at conn false def path = do
    first ← allowed_once conn def path
    second ← allowed_once first.2 first.1 path
    value (second.0, second.2)

  -- From the template on.
  unfoldable pub complete_at :
      Conn → Bool → Place → Bytes → Bytes → Outcome (Option Completion × Conn)
  complete_at conn exists_only place path last = do
    h ← configd_get_help L json_pack ask conn (not exists_only) (some path) none
    elim h.0 [
      | none ↦ value (none, h.2)
      | some m ↦
          let cmap = entries_map (entries m) [] in
          if place.typeless || place.value
          then value (complete_children last cmap, h.2)
          else elim place.def [
            | none ↦ undefined
            | some def ↦ do
              a ← allowed_at h.2 exists_only def path
              value (some (complete_value def a.0 cmap), a.1)
          ]
    ]

  -- `getCompletionEnv`, `none` for a null pointer. A path of the command alone has no last component.
  unfoldable pub get_completion_env : Conn → Bytes → Outcome (Option Bytes × Conn)
  get_completion_env conn text = elim (create_sep b'/' text) [
    | [] ↦ value (none, conn)
    | cmd ∷ comps ↦ elim (split_last comps) [
      | none ↦ undefined
      | some (front, last) ↦
          let pcomps : Cpath = map uri.unescape front in
          to_path_string uri pcomps >>= λ path.
          place_at conn (is_exists_only cmd) pcomps path >>= λ place. elim place.0 [
            | none ↦ value (none, place.1)
            | some pl ↦ elim pl.leaf_value [
              | true ↦ value (none, place.1)
              | false ↦ complete_at place.1 (is_exists_only cmd) pl path last >>= λ c.
                  value (elim c.0 [ none ↦ none | some made ↦ some (env_text made) ], c.1)
            ]
          ]
    ]
  ]
