-- ===== src/Varref/Total.antt =====
-- `process_ref` on components that uriparser can write: it returns.
pub mod Outcomes
pub use vyatta_cfg.Varref.Total.Outcomes.{Gives, Any}
use vyatta_cfg.Varref.Total.Outcomes.{
  gives, Fits, AllFit, Gives-bind, Gives-if, push-AllFit, pop-AllFit, nth-Fits, url_escape-Gives,
  escaped-Gives, to_path_string-Gives, both-Gives,
}
use vyatta_cfg.Cpath.{Uri, Cpath, push, pop, nth, url_escape, escaped, to_path_string}
use vyatta_cfg.Ctemplate.{
  Ctemplate, is_typeless, is_tag_node, is_tag_value, is_single_leaf_node, is_multi_leaf_node,
}
use vyatta_cfg.Prelude.Outcome.{Outcome, value, ◌>>=◌}
use vyatta_cfg.Prelude.{
  ℕ, zero, suc, ◌+◌, ◌*◌, ◌<◌, ◌≤◌, ◌≡◌, inl, inr, Bool, true, false, not, ◌&&◌, List, [], ◌∷◌,
  ◌++◌, Option, none, some, Bytes, arith, Bool-cases, leb, ltb, ◌==◌, length, if◌then◌else◌,
}
use vyatta_cfg.Value.{ValType, error_type}
use vyatta_cfg.Varref.{
  Store, Added, both, nothing, Comp, plain, at, dot, dot_dot, at_at, comp_of, path_eq, for_each,
  template_at, get_values, names_at, handle_leaf, parent, above_text, process_ref,
}

module _ (S : Store) (names_fit : (path : Bytes) → AllFit S.uri (S.node_get path)) where
  for_each-Gives :
      (f : Bytes → Outcome Added) (ss : List Bytes)
      → ((s : Bytes) → Fits S.uri s → Gives Any (f s))
      → AllFit S.uri ss
      → Gives Any (for_each f ss)
  unfolding for_each
  for_each-Gives f [] h k = gives tt
  for_each-Gives f (s ∷ ss) h k =
      both-Gives (f s) (for_each f ss) (h s k.0) (for_each-Gives f ss h k.1)

  template_at-Gives : (p : Cpath) → AllFit S.uri p → Gives Any (template_at S p)
  unfolding template_at
  template_at-Gives p h =
      Gives-bind Any Any (to_path_string S.uri p) _ (to_path_string-Gives S.uri p h)
        λ path k. gives tt

  names_at-AllFit : (p : Cpath) → AllFit S.uri p → Gives (AllFit S.uri) (names_at S p)
  unfolding names_at
  names_at-AllFit p h =
      Gives-bind Any (AllFit S.uri) (to_path_string S.uri p) _ (to_path_string-Gives S.uri p h)
        λ path k. gives (names_fit path)

  handle_leaf-Gives :
      (def : Ctemplate) (p : Cpath) → AllFit S.uri p → Gives Any (handle_leaf S def p)
  unfolding handle_leaf get_values
  handle_leaf-Gives def p h =
      Gives-bind Any Any (get_values S p) _
        (Gives-bind Any Any (to_path_string S.uri p) _ (to_path_string-Gives S.uri p h)
          λ path k. gives tt)
        λ v k. gives tt

  -- A path, where there is one, whose components fit.
  abbrev MaybeFit : Option Cpath → Type 0
  MaybeFit none = Unit
  MaybeFit (some p) = AllFit S.uri p

  parent-MaybeFit :
      (c : Bytes) (p : Cpath) → AllFit S.uri (c ∷ p) → Gives MaybeFit (parent S (c ∷ p))
  unfolding parent
  parent-MaybeFit c p h =
      Gives-bind (AllFit S.uri) MaybeFit (pop (c ∷ p)) _ (pop-AllFit S.uri c p h) on_up
    where
      on_tag :
          (b : Bool) (d : Bytes) (q : Cpath)
          → AllFit S.uri (d ∷ q)
          → Gives MaybeFit (elim b [
            | true ↦ pop (d ∷ q) >>= (λ r. value (some r))
            | false ↦ value (some (d ∷ q))
          ])
      on_tag true d q k =
          Gives-bind (AllFit S.uri) MaybeFit (pop (d ∷ q)) _ (pop-AllFit S.uri d q k) λ r l. gives l
      on_tag false d q k = gives k

      on_template :
          (got : Option Ctemplate) (d : Bytes) (q : Cpath)
          → AllFit S.uri (d ∷ q)
          → Gives MaybeFit (elim got [
            | none ↦ value none
            | some def ↦ elim (is_tag_value def) [
              | true ↦ pop (d ∷ q) >>= (λ r. value (some r))
              | false ↦ value (some (d ∷ q))
            ]
          ])
      on_template none d q k = gives tt
      on_template (some def) d q k = on_tag (is_tag_value def) d q k

      on_up :
          (up : Cpath)
          → AllFit S.uri up
          → Gives MaybeFit (elim up [
            | [] ↦ value (some [])
            | d ∷ q ↦ template_at S (d ∷ q) >>= λ got. elim got [
              | none ↦ value none
              | some def ↦ elim (is_tag_value def) [
                | true ↦ pop (d ∷ q) >>= (λ r. value (some r))
                | false ↦ value (some (d ∷ q))
              ]
            ]
          ])
      on_up [] k = gives tt
      on_up (d ∷ q) k =
          Gives-bind Any MaybeFit (template_at S (d ∷ q)) _ (template_at-Gives (d ∷ q) k)
            λ got l. on_template got d q k

  module _ (orig : Cpath) (at_string : Bytes) (orig_fits : AllFit S.uri orig)
      (at_fits : Fits S.uri at_string) where
    above_text-MaybeFit :
        (p : Cpath) (got : Option Ctemplate)
        → AllFit S.uri p
        → Gives MaybeFit (above_text S orig at_string p got)
    unfolding above_text
    above_text-MaybeFit p none h = gives h
    above_text-MaybeFit p (some def) h = elim (Bool-cases (is_tag_node def)) [
      | inr other ↦ rw (above_text, other) (gives h)
      | inl tag ↦ elim (Bool-cases (ltb (length orig) (length p))) [
        | inl deeper ↦ rw (above_text, tag, deeper) (gives tt)
        | inr no_deeper ↦ elim (Bool-cases (length p == length orig)) [
          | inl same ↦
              rw (above_text, tag, no_deeper, same)
                (gives (push-AllFit S.uri at_string p at_fits h))
          | inr shorter ↦
              rw (above_text, tag, no_deeper, shorter)
                (Gives-bind (Fits S.uri) MaybeFit (nth orig (length p)) _
                  (nth-Fits S.uri orig (length p) orig_fits (ground arith))
                  λ c k. gives (push-AllFit S.uri c p k h))
        ]
      ]
    ]

    -- What follows the template, for the rest of the reference.
    Goes : (Cpath → ValType → Outcome Added) → Type 0
    Goes go = (p : Cpath) (t : ValType) → AllFit S.uri p → Gives Any (go p t)

    at-Gives :
        (go : Cpath → ValType → Outcome Added) (p : Cpath) (def : Ctemplate)
        → Goes go
        → AllFit S.uri p
        → Gives Any (
            if is_typeless def
            then go p error_type
            else if path_eq p orig
            then go (push at_string p) def.type
            else if not (is_single_leaf_node def) && not (is_multi_leaf_node def)
            then (if ltb (length p) (length orig)
                then nth orig (length p) >>= (λ c. go (push c p) def.type)
                else nothing)
            else handle_leaf S def p)
    unfolding Goes
    at-Gives go p def goes h = Gives-if Any (is_typeless def) _ _ (goes p error_type h) (
        Gives-if Any (path_eq p orig) _ _
          (goes (push at_string p) def.type (push-AllFit S.uri at_string p at_fits h))
          (Gives-if Any (not (is_single_leaf_node def) && not (is_multi_leaf_node def)) _ _ upper
            (handle_leaf-Gives def p h)))
      where
        upper : Gives Any (
            if ltb (length p) (length orig)
            then nth orig (length p) >>= (λ c. go (push c p) def.type)
            else nothing)
        upper = elim (Bool-cases (ltb (length p) (length orig))) [
          | inl within ↦ rw within (
              Gives-bind (Fits S.uri) Any (nth orig (length p)) _
                (nth-Fits S.uri orig (length p) orig_fits (ground arith))
                λ c k. goes (push c p) def.type (push-AllFit S.uri c p k h))
          | inr beyond ↦ rw beyond (gives tt)
        ]

    each-Gives :
        (go : Cpath → ValType → Outcome Added) (p : Cpath) (t : ValType) (names : List Bytes)
        → Goes go
        → AllFit S.uri p
        → AllFit S.uri names
        → Gives Any (both (value ([], true)) (for_each (λ s. go (push s p) t) names))
    unfolding Goes
    each-Gives go p t names goes h k =
        both-Gives (value ([], true)) (for_each (λ s. go (push s p) t) names) (gives tt) (
          for_each-Gives (λ s. go (push s p) t) names
            (λ s f. goes (push s p) t (push-AllFit S.uri s p f h)) k)

    -- What `@@` does at a node with a type.
    abbrev behind : (Cpath → ValType → Outcome Added) → Cpath → Ctemplate → Outcome Added
    behind go p def =
        if def.value
        then nothing
        else if def.tag
        then names_at S p
          >>= (λ names. both (value ([], true)) (for_each (λ s. go (push s p) def.type) names))
        else handle_leaf S def p

    behind-Gives :
        (go : Cpath → ValType → Outcome Added) (p : Cpath) (def : Ctemplate)
        → Goes go
        → AllFit S.uri p
        → Gives Any (behind go p def)
    behind-Gives go p def goes h = Gives-if Any def.value _ _ (gives tt) (
        Gives-if Any def.tag _ _
          (Gives-bind (AllFit S.uri) Any (names_at S p) _ (names_at-AllFit p h)
            λ names k. each-Gives go p def.type names goes h k)
          (handle_leaf-Gives def p h))

    at_at-Gives :
        (go : Cpath → ValType → Outcome Added) (p : Cpath) (def : Ctemplate)
        → Goes go
        → AllFit S.uri p
        → Gives Any (
            if is_typeless def
            then names_at S p >>= (λ names. elim names [
              | [] ↦ value ([], true)
              | s ∷ ss ↦
                  both
                    (value ([], true))
                    (both (for_each (λ s. go (push s p) def.type) (s ∷ ss)) (behind go p def))
            ])
            else behind go p def)
    unfolding Goes
    at_at-Gives go p def goes h =
        Gives-if Any (is_typeless def) _ _
          (Gives-bind (AllFit S.uri) Any (names_at S p) _ (names_at-AllFit p h) children)
          (behind-Gives go p def goes h)
      where
        children :
            (names : List Bytes)
            → AllFit S.uri names
            → Gives {A = Added} Any (elim names as (λ k. Outcome Added) [
              | [] ↦ value ([], true)
              | s ∷ ss ↦
                  both
                    (value ([], true))
                    (both (for_each (λ s. go (push s p) def.type) (s ∷ ss)) (behind go p def))
            ])
        children [] k = gives tt
        children (s ∷ ss) k =
            both-Gives (value ([], true))
              (both (for_each (λ s. go (push s p) def.type) (s ∷ ss)) (behind go p def)) (gives tt)
              (both-Gives (for_each (λ s. go (push s p) def.type) (s ∷ ss)) (behind go p def)
                (for_each-Gives (λ s. go (push s p) def.type) (s ∷ ss)
                  (λ s f. goes (push s p) def.type (push-AllFit S.uri s p f h)) k)
                (behind-Gives go p def goes h))

    gone-Gives :
        (go : Cpath → ValType → Outcome Added) (up : Option Cpath)
        → Goes go
        → MaybeFit up
        → Gives Any (elim up [ none ↦ nothing | some q ↦ go q error_type ])
    unfolding Goes
    gone-Gives go none goes h = gives tt
    gone-Gives go (some q) goes h = goes q error_type h

    dot_dot-Gives :
        (go : Cpath → ValType → Outcome Added) (p : Cpath)
        → Goes go
        → AllFit S.uri p
        → Gives Any (elim p [
          | [] ↦ nothing
          | c ∷ q ↦ parent S (c ∷ q) >>= λ up. elim up [ none ↦ nothing | some r ↦ go r error_type ]
        ])
    dot_dot-Gives go [] goes h = gives tt
    dot_dot-Gives go (c ∷ q) goes h =
        Gives-bind MaybeFit Any (parent S (c ∷ q)) _ (parent-MaybeFit c q h)
          λ up k. gone-Gives go up goes k

    text-Gives :
        (go : Cpath → ValType → Outcome Added) (comp : Bytes) (above : Option Cpath)
        → Goes go
        → Fits S.uri comp
        → MaybeFit above
        → Gives Any (elim above [ none ↦ nothing | some p ↦ go (push comp p) error_type ])
    unfolding Goes
    text-Gives go comp none goes f h = gives tt
    text-Gives go comp (some p) goes f h =
        goes (push comp p) error_type (push-AllFit S.uri comp p f h)

    component-Gives :
        (go : Cpath → ValType → Outcome Added) (comp : Bytes) (p : Cpath) (got : Option Ctemplate)
        (kind : Comp)
        → Goes go
        → Fits S.uri comp
        → AllFit S.uri p
        → Gives Any (elim kind [
          | dot ↦ go p error_type
          | plain ↦ above_text S orig at_string p got >>= λ above. elim above [
            | none ↦ nothing
            | some q ↦ go (push comp q) error_type
          ]
          | dot_dot ↦ elim got [
            | none ↦ nothing
            | some def ↦ elim p [
              | [] ↦ nothing
              | c ∷ q ↦
                  parent S (c ∷ q) >>= λ up. elim up [ none ↦ nothing | some r ↦ go r error_type ]
            ]
          ]
          | at ↦ elim got [
            | none ↦ nothing
            | some def ↦
                if is_typeless def
                then go p error_type
                else if path_eq p orig
                then go (push at_string p) def.type
                else if not (is_single_leaf_node def) && not (is_multi_leaf_node def)
                then (if ltb (length p) (length orig)
                    then nth orig (length p) >>= (λ c. go (push c p) def.type)
                    else nothing)
                else handle_leaf S def p
          ]
          | at_at ↦ elim got [
            | none ↦ nothing
            | some def ↦
                if is_typeless def
                then names_at S p >>= (λ names. elim names [
                  | [] ↦ value ([], true)
                  | s ∷ ss ↦
                      both
                        (value ([], true))
                        (both (for_each (λ s. go (push s p) def.type) (s ∷ ss)) (behind go p def))
                ])
                else behind go p def
          ]
        ])
    unfolding Goes
    component-Gives go comp p got dot goes f h = goes p error_type h
    component-Gives go comp p got plain goes f h =
        Gives-bind MaybeFit Any (above_text S orig at_string p got) _ (above_text-MaybeFit p got h)
          λ above k. text-Gives go comp above goes f k
    component-Gives go comp p none dot_dot goes f h = gives tt
    component-Gives go comp p (some def) dot_dot goes f h = dot_dot-Gives go p goes h
    component-Gives go comp p none at goes f h = gives tt
    component-Gives go comp p (some def) at goes f h = at-Gives go p def goes h
    component-Gives go comp p none at_at goes f h = gives tt
    component-Gives go comp p (some def) at_at goes f h = at_at-Gives go p def goes h

    -- Where the text of every component of the reference, of the paths, of the at string and of the
    -- names that configd gives fits with its zero into six bytes for each byte of it, every
    -- reference is resolved: `process_ref` returns, no path is read outside of its components and no
    -- component is taken from the root.
    pub process_ref-Gives :
        (ref : List Bytes) (p : Cpath) (t : ValType)
        → AllFit S.uri ref
        → AllFit S.uri p
        → Gives Any (process_ref S orig at_string ref p t)
    unfolding process_ref Goes
    process_ref-Gives [] p t f h = gives tt
    process_ref-Gives (comp ∷ rest) p t f h =
        Gives-bind Any Any (template_at S p) _ (template_at-Gives p h) λ got k.
          component-Gives (process_ref S orig at_string rest) comp p got (comp_of comp)
            (λ q u l. process_ref-Gives rest q u f.1 l) f.0 h
