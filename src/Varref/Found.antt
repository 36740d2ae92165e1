-- ===== src/Varref/Found.antt =====
-- `cstore_get_var_ref` on a reference to a leaf.
use vyatta_cfg.Cpath.Parse.{AllEscaped, path_text, to_path_string-text, parse-text}
use vyatta_cfg.Cpath.{Uri, Cpath, parse, push, pop, to_path_string}
use vyatta_cfg.Ctemplate.{Ctemplate, get}
use vyatta_cfg.Prelude.Outcome.{value, ◌>>=◌}
use vyatta_cfg.Prelude.{
  ℕ, zero, suc, ◌≤◌, ◌≡◌, refl, ap, ◌∙◌, true, false, List, [], ◌∷◌, ◌++◌, Option, some, Bytes, str,
  arith, length, take,
}
use vyatta_cfg.Value.{error_type}
use vyatta_cfg.Varref.Handle.{ref_parts, new_ref, set_cfg_path, cstore_get_var_ref}
use vyatta_cfg.Varref.Walk.{Walks, walked, IsLeaf, process_ref-leaf}
use vyatta_cfg.Varref.{Store, template_at, get_values, path_eq, process_ref}

take_all : (n : ℕ) (s : Bytes) → length s ≤ n → take n s ≡ s
take_all zero [] h = refl
take_all zero (c ∷ s) h = absurd (omega arith)
take_all (suc n) [] h = refl
take_all (suc n) (c ∷ s) h = ap (◌∷◌ c) (take_all n s (omega arith))

set_cfg_path-short : (S : Store) (s : Bytes) → length s ≤ 4095 → set_cfg_path S s ≡ s
unfolding set_cfg_path
set_cfg_path-short S s h = take_all 4095 s h

pop-push : (p : Cpath) (x : Bytes) → pop (push x p) ≡ value p
unfolding pop push
pop-push [] x = refl
pop-push (c ∷ []) x = refl
pop-push (c ∷ d ∷ p) x = ap (λ o. o >>= λ rest. value (c ∷ rest)) (pop-push (d ∷ p) x)

parse-push :
    (uri : Uri) (a x : Bytes) (p : Cpath)
    → AllEscaped uri (push x (a ∷ p))
    → parse uri (path_text uri (push x (a ∷ p))) ≡ push x (a ∷ p)
unfolding push
parse-push uri a x p h = parse-text uri a (p ++ (x ∷ [])) h

module _ (S : Store) where
  new_ref-relative :
      (cfg_path at_string ref : Bytes) (orig cs : List Bytes)
      → ref_parts ref ≡ (false, cs)
      → parse S.uri cfg_path ≡ orig
      → new_ref S cfg_path at_string ref ≡ process_ref S orig at_string cs orig error_type
  unfolding new_ref
  new_ref-relative cfg_path at_string ref orig cs parts read = rw (new_ref, parts) (rw read refl)

  -- While the path of the configuration is that of a value below a node: a relative reference from this
  -- node down by plain names, none of them below the node of a tag, to a leaf with a single type and
  -- value, is found with the value and the type, and the path of the configuration is what it was.
  -- The two paths fit into its buffer, and uriparser writes and reads their components.
  pub cstore_get_var_ref-leaf :
      (a x at_string ref c v : Bytes) (p : Cpath) (cs : List Bytes) (map : Bytes → Option Bytes)
      (def : Ctemplate)
      → AllEscaped S.uri (a ∷ p)
      → AllEscaped S.uri (push x (a ∷ p))
      → length (path_text S.uri (a ∷ p)) ≤ 4095
      → length (path_text S.uri (push x (a ∷ p))) ≤ 4095
      → S.tmpl_get (path_text S.uri (push x (a ∷ p))) ≡ some map
      → (get map).value ≡ true
      → ref_parts ref ≡ (false, (c ∷ cs) ++ (str "@" ∷ []))
      → Walks S (a ∷ p) (c ∷ cs)
      → template_at S (walked (a ∷ p) (c ∷ cs)) ≡ value (some def)
      → IsLeaf S def
      → path_eq (walked (a ∷ p) (c ∷ cs)) (a ∷ p) ≡ false
      → get_values S (walked (a ∷ p) (c ∷ cs)) ≡ value (some v)
      → cstore_get_var_ref S at_string (path_text S.uri (push x (a ∷ p))) ref
        ≡ value (
          record { found = true; type = def.type; val = some v; ismulti = false },
          path_text S.uri (push x (a ∷ p)),
        )
  unfolding cstore_get_var_ref
  cstore_get_var_ref-leaf a x at_string ref c v p cs map def here below fits fits' made is_value
        parts walks leaf_made leaf apart has =
      let (went, got) =
        process_ref-leaf S (a ∷ p) at_string c cs (a ∷ p) error_type def v walks leaf_made leaf
          apart has in
      let read : parse S.uri (path_text S.uri (push x (a ∷ p))) ≡ push x (a ∷ p) =
        parse-push S.uri a x p below in
      let written : to_path_string S.uri (a ∷ p) ≡ value (path_text S.uri (a ∷ p)) =
        to_path_string-text S.uri (a ∷ p) here in
      let set : set_cfg_path S (path_text S.uri (a ∷ p)) ≡ path_text S.uri (a ∷ p) =
        set_cfg_path-short S _ fits in
      let again : parse S.uri (path_text S.uri (a ∷ p)) ≡ a ∷ p = parse-text S.uri a p here in
      let restored : to_path_string S.uri (push x (a ∷ p))
          ≡ value (path_text S.uri (push x (a ∷ p))) =
        to_path_string-text S.uri (push x (a ∷ p)) below in
      let reset : set_cfg_path S (path_text S.uri (push x (a ∷ p)))
          ≡ path_text S.uri (push x (a ∷ p)) =
        set_cfg_path-short S _ fits' in
      let resolved : new_ref S (path_text S.uri (a ∷ p)) at_string ref
          ≡ value ((push v (walked (a ∷ p) (c ∷ cs)), def.type) ∷ [], false) =
        new_ref-relative (path_text S.uri (a ∷ p)) at_string ref (a ∷ p)
          ((c ∷ cs) ++ (str "@" ∷ [])) parts again
        ∙ went in
      rw (cstore_get_var_ref, made)
        (rw (is_value, read)
          (rw (pop-push (a ∷ p) x)
            (rw written (rw set (rw resolved (rw got (rw restored (rw reset refl))))))))
