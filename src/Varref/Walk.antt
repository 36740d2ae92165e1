-- ===== src/Varref/Walk.antt =====
-- The paths and values of single references.
use vyatta_cfg.Compare.{same_type}
use vyatta_cfg.Cpath.{Cpath, push, back, url_escape, escaped, to_path_string}
use vyatta_cfg.Ctemplate.{Ctemplate, spaced, is_tag_node, is_single_leaf_node}
use vyatta_cfg.Prelude.Outcome.{Outcome, value, undefined, ◌>>=◌}
use vyatta_cfg.Prelude.{
  ◌+◌, ◌*◌, ◌≡◌, ◌⊎◌, inl, inr, refl, ap, ◌∙◌, Bool, true, false, not, ◌&&◌, List, [], ◌∷◌, ◌++◌,
  map, Option, none, some, Bytes, str, str_eq, arith, Bool-cases, leb, length,
}
use vyatta_cfg.Value.{ValType, error_type}
use vyatta_cfg.Varref.Handle.{no_values, add_entry, add_entries, get_value}
use vyatta_cfg.Varref.{
  Store, Added, plain, at, at_at, comp_of, path_eq, for_each, template_at, get_values, names_at,
  handle_leaf, above_text, process_ref,
}

abbrev pub below_tag : Option Ctemplate → Bool
below_tag none = false
below_tag (some def) = is_tag_node def

abbrev pub walked : Cpath → List Bytes → Cpath
walked p [] = p
walked p (t ∷ ts) = walked (push t p) ts

back-push : (p : Cpath) (s : Bytes) → back (push s p) ≡ some s
unfolding back push
back-push [] s = refl
back-push (c ∷ []) s = refl
back-push (c ∷ d ∷ p) s = back-push (d ∷ p) s

comp_of_at : comp_of (str "@") ≡ at
unfolding comp_of str_eq
comp_of_at = refl

comp_of_at_at : comp_of (str "@@") ≡ at_at
unfolding comp_of str_eq
comp_of_at_at = refl

-- A call that does not end in `exit`, before one that has no meaning.
bound :
    {A B : Type 0} (o : Outcome A) (f : A → Outcome B)
    → (o ≡ undefined) ⊎ ((a : A) × (o ≡ value a))
    → ((a : A) → f a ≡ undefined)
    → (o >>= f) ≡ undefined
bound o f (inl u) h = rw u refl
bound o f (inr (a, v)) h = rw v (h a)

module _ (S : Store) where
  url_escape-value :
      (c : Bytes)
      → (url_escape S.uri c ≡ undefined) ⊎ ((s : Bytes) × (url_escape S.uri c ≡ value s))
  unfolding url_escape
  url_escape-value c = elim (Bool-cases (leb (length (S.uri.escape c) + 1) (length c * 6))) [
    | inl fits ↦ inr (S.uri.escape c, rw (url_escape, fits) refl)
    | inr short ↦ inl (rw (url_escape, short) refl)
  ]

  -- Plain text down from a path, where no node on the way is that of a tag.
  abbrev pub Walks : Cpath → List Bytes → Type 0
  Walks p [] = Unit
  Walks p (t ∷ ts) =
      (comp_of t ≡ plain)
      × ((got : Option Ctemplate) × (template_at S p ≡ value got) × (below_tag got ≡ false))
      × Walks (push t p) ts

  above_text-plain :
      (orig : Cpath) (at_string : Bytes) (p : Cpath) (got : Option Ctemplate)
      → below_tag got ≡ false
      → above_text S orig at_string p got ≡ value (some p)
  unfolding above_text
  above_text-plain orig at_string p none h = refl
  above_text-plain orig at_string p (some def) h = rw (above_text, h) refl

  process_ref-text :
      (orig : Cpath) (at_string c : Bytes) (cs rest : List Bytes) (p : Cpath) (t : ValType)
      → Walks p (c ∷ cs)
      → process_ref S orig at_string ((c ∷ cs) ++ rest) p t
        ≡ process_ref S orig at_string rest (walked p (c ∷ cs)) error_type
  unfolding process_ref
  process_ref-text orig at_string c [] rest p t h =
      let (got, made, plain_node) = h.1 in
      rw made (rw h.0 (rw (above_text-plain orig at_string p got plain_node) refl))
  process_ref-text orig at_string c (d ∷ cs) rest p t h =
      let (got, made, plain_node) = h.1 in
      let more = process_ref-text orig at_string d cs rest (push c p) error_type h.2 in
      rw made (rw h.0 (rw (above_text-plain orig at_string p got plain_node) more))

  -- The template of a leaf with a single value.
  pub record IsLeaf (def : Ctemplate) : Type 0 where
    pub no_value : def.value ≡ false
    pub no_multi : def.multi ≡ false
    pub no_tag : def.tag ≡ false
    pub typed : same_type def.type error_type ≡ false

  IsLeaf-single : (def : Ctemplate) → IsLeaf def → is_single_leaf_node def ≡ true
  IsLeaf-single def l = ground (arith, l.no_value, l.no_multi, l.no_tag, l.typed)

  process_ref-at :
      (orig : Cpath) (at_string : Bytes) (p : Cpath) (t : ValType) (def : Ctemplate)
      → template_at S p ≡ value (some def)
      → IsLeaf def
      → path_eq p orig ≡ false
      → process_ref S orig at_string (str "@" ∷ []) p t ≡ handle_leaf S def p
  unfolding process_ref
  process_ref-at orig at_string p t def made l apart =
      let single = IsLeaf-single def l in
      let kind : comp_of (str "@") ≡ at = comp_of_at in
      rw made (rw kind (rw (single, l.typed, apart) refl))

  handle_leaf-value :
      (def : Ctemplate) (p : Cpath) (v : Bytes)
      → def.multi ≡ false
      → get_values S p ≡ value (some v)
      → handle_leaf S def p ≡ value ((push v p, def.type) ∷ [], false)
  unfolding handle_leaf
  handle_leaf-value def p v no_multi has = rw has (rw (handle_leaf, no_multi) refl)

  get_value-single :
      (p : Cpath) (v : Bytes) (t : ValType)
      → same_type t error_type ≡ false
      → get_value S ((push v p, t) ∷ []) false ≡ value (some (v, t))
  unfolding get_value add_entries add_entry spaced
  get_value-single p v t typed =
      let kept : add_entry S false (push v p, t) no_values
          ≡ value (record { result = v ∷ []; added = v ∷ []; def_type = t }) =
        rw (add_entry, back-push p v) (rw typed (rw typed refl)) in
      rw (get_value, kept) (rw typed refl)

  -- A reference that goes down by plain names, none of them below the node of a tag, to a leaf with a
  -- single type and value other than the node itself, and ends with `@`: it stands for one path, whose
  -- last component is the value in the configuration, and `getValue` gives this value with its type.
  pub process_ref-leaf :
      (orig : Cpath) (at_string c : Bytes) (cs : List Bytes) (p : Cpath) (t : ValType)
      (def : Ctemplate) (v : Bytes)
      → Walks p (c ∷ cs)
      → template_at S (walked p (c ∷ cs)) ≡ value (some def)
      → IsLeaf def
      → path_eq (walked p (c ∷ cs)) orig ≡ false
      → get_values S (walked p (c ∷ cs)) ≡ value (some v)
      → (process_ref S orig at_string ((c ∷ cs) ++ (str "@" ∷ [])) p t
          ≡ value ((push v (walked p (c ∷ cs)), def.type) ∷ [], false))
        × (get_value S ((push v (walked p (c ∷ cs)), def.type) ∷ []) false
            ≡ value (some (v, def.type)))
  process_ref-leaf orig at_string c cs p t def v walks made l apart has = (
    process_ref-text orig at_string c cs (str "@" ∷ []) p t walks
        ∙ process_ref-at orig at_string (walked p (c ∷ cs)) error_type def made l apart
        ∙ handle_leaf-value def (walked p (c ∷ cs)) v l.no_multi has,
    get_value-single (walked p (c ∷ cs)) v def.type l.typed,
  )

  for_each-ends :
      (p : Cpath) (t : ValType) (names : List Bytes) (f : Bytes → Outcome Added)
      → ((s : Bytes) → f s ≡ value ((push s p, t) ∷ [], false))
      → for_each f names ≡ value (map (λ s. (push s p, t)) names, false)
  unfolding for_each
  for_each-ends p t [] f h = refl
  for_each-ends p t (s ∷ ss) f h = rw (for_each, h s) (rw (for_each-ends p t ss f h) refl)

  get_values-names :
      (p : Cpath) (n : Bytes) (ns : List Bytes)
      → names_at S p ≡ value (n ∷ ns)
      → get_values S p ≡ value (some (spaced (n ∷ ns)))
  unfolding names_at get_values
  get_values-names p n ns h =
      of_path (to_path_string S.uri p) ∙ ap (λ o. o >>= λ vs. value (joined vs)) h
    where
      joined : List Bytes → Option Bytes
      joined vs = elim vs [ [] ↦ none | v ∷ more ↦ some (spaced (v ∷ more)) ]

      of_path :
          (o : Outcome Bytes)
          → (o >>= λ path.
              value (elim (S.node_get path) [ [] ↦ none | v ∷ vs ↦ some (spaced (v ∷ vs)) ]))
            ≡ ((o >>= λ path. value (S.node_get path)) >>= λ vs. value (joined vs))
      of_path (value path) = refl
      of_path Outcome.exited = refl
      of_path undefined = refl

  -- `@@` at a node without a type, which is no value, no tag and holds a single value: besides
  -- the path of each node below it, the reference stands for one more, whose last component is the
  -- names of all of them with spaces between, and which has to exist.
  pub process_ref-typeless :
      (orig p : Cpath) (at_string n : Bytes) (ns : List Bytes) (t : ValType) (def : Ctemplate)
      → template_at S p ≡ value (some def)
      → def.type ≡ error_type
      → def.value ≡ false
      → def.tag ≡ false
      → def.multi ≡ false
      → names_at S p ≡ value (n ∷ ns)
      → process_ref S orig at_string (str "@@" ∷ []) p t
        ≡ value (
          map (λ s. (push s p, error_type)) (n ∷ ns)
              ++ ((push (spaced (n ∷ ns)) p, error_type) ∷ []),
          true,
        )
  unfolding process_ref
  process_ref-typeless orig p at_string n ns t def made no_type no_value no_tag no_multi names =
      let typeless : same_type def.type error_type ≡ true =
        ap (λ u. same_type u error_type) no_type in
      let each =
        for_each-ends p def.type (n ∷ ns) (λ s. value ((push s p, def.type) ∷ [], false))
          (λ s. refl) in
      let behind =
        handle_leaf-value def p (spaced (n ∷ ns)) no_multi (get_values-names p n ns names) in
      rw made (
        rw comp_of_at_at (
          rw (typeless, names)
            (rw each (
              rw behind (
                rw (no_value, no_tag)
                  (ap
                    (λ u. value (
                      map (λ s. (push s p, u)) (n ∷ ns) ++ ((push (spaced (n ∷ ns)) p, u) ∷ []),
                      true,
                    ))
                    no_type))))))

  no_room : url_escape S.uri [] ≡ undefined
  unfolding url_escape
  no_room =
      let short : leb (length (S.uri.escape []) + 1) 0 ≡ false = ground arith in
      rw (url_escape, short) refl

  escaped-empty : (sep : Bytes) (p : Cpath) → escaped S.uri sep (push [] p) ≡ undefined
  unfolding escaped url_escape push
  escaped-empty sep [] = no_room
  escaped-empty sep (c ∷ []) =
      bound (url_escape S.uri c)
        (λ first. url_escape S.uri [] >>= λ rest. value (first ++ (sep ++ rest)))
        (url_escape-value c) (λ a. rw no_room refl)
  escaped-empty sep (c ∷ d ∷ p) =
      bound (url_escape S.uri c)
        (λ first. escaped S.uri sep (push [] (d ∷ p)) >>= λ rest. value (first ++ (sep ++ rest)))
        (url_escape-value c) (λ a. rw (escaped-empty sep (d ∷ p)) refl)

  not_added : (multi : Bool) → (not multi && false) ≡ false
  not_added true = refl
  not_added false = refl

  get_value-empty :
      (p : Cpath) (multi : Bool) → get_value S ((push [] p, error_type) ∷ []) multi ≡ undefined
  unfolding get_value add_entries add_entry to_path_string
  get_value-empty p multi =
      let unwritten : add_entry S multi (push [] p, error_type) no_values ≡ undefined =
        rw (add_entry, back-push p [])
          (rw (not_added multi) (rw (escaped-empty (b'/' ∷ []) p) refl)) in
      rw (get_value, unwritten) refl

  -- A leaf with a single value that has none in the configuration: the reference stands for one path
  -- that ends in an empty component and has to exist, and `getValue` escapes this component into a
  -- buffer of no bytes, behind which the terminating zero is written.
  pub get_value-unset :
      (orig p : Cpath) (at_string : Bytes) (t : ValType) (def : Ctemplate) (multi : Bool)
      → template_at S p ≡ value (some def)
      → IsLeaf def
      → path_eq p orig ≡ false
      → get_values S p ≡ value none
      → (process_ref S orig at_string (str "@" ∷ []) p t
          ≡ value ((push [] p, error_type) ∷ [], false))
        × (get_value S ((push [] p, error_type) ∷ []) multi ≡ undefined)
  unfolding handle_leaf
  get_value-unset orig p at_string t def multi made l apart has = (
    process_ref-at orig at_string p t def made l apart ∙ rw has (rw (handle_leaf, l.no_multi) refl),
    get_value-empty p multi,
  )
