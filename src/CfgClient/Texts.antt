-- ===== src/CfgClient/Texts.antt =====
-- The paths that `mkpath` makes, and the texts that `split` and `string2vec` cut, of src/client/CfgClient.cpp.
use vyatta_cfg.CfgClient.{mkpath, add_components, split, pieces, with_byte, has_byte}
use vyatta_cfg.Compat.Path.{carried, bind_assoc}
use vyatta_cfg.Cpath.{Uri, url_escape, escaped, to_path_string}
use vyatta_cfg.Prelude.Outcome.{value, ◌>>=◌}
use vyatta_cfg.Prelude.{
  ℕ, ◌≡◌, refl, sym, ap, ◌∙◌, Bool, true, false, inl, inr, List, [], ◌∷◌, ◌++◌, append_assoc, Bytes,
  str, ◌==◌, Bool-cases, arith, if◌then◌else◌,
}

-- The pieces with the delimiter between each two.
abbrev pub joined : ℕ → List Bytes → Bytes
joined delim [] = []
joined delim (w ∷ []) = w
joined delim (w ∷ v ∷ ws) = w ++ (delim ∷ joined delim (v ∷ ws))

-- No piece has the delimiter in it.
abbrev pub none_has : ℕ → List Bytes → Bool
none_has delim [] = true
none_has delim (w ∷ ws) = if has_byte delim w then false else none_has delim ws

joined-byte : (delim c : ℕ) (ws : List Bytes) → joined delim (with_byte c ws) ≡ c ∷ joined delim ws
joined-byte delim c [] = refl
joined-byte delim c (w ∷ []) = refl
joined-byte delim c (w ∷ v ∷ ws) = refl

none_has-byte :
    (delim c : ℕ) (ws : List Bytes)
    → c == delim ≡ false
    → none_has delim (with_byte c ws) ≡ none_has delim ws
none_has-byte delim c [] other = rw other refl
none_has-byte delim c (w ∷ ws) other = rw other refl

pieces-end :
    (delim c : ℕ) (s : Bytes) → c == delim ≡ true → pieces delim (c ∷ s) ≡ [] ∷ pieces delim s
unfolding pieces
pieces-end delim c s same = rw (pieces, same) refl

pieces-on :
    (delim c : ℕ) (s : Bytes)
    → c == delim ≡ false
    → pieces delim (c ∷ s) ≡ with_byte c (pieces delim s)
unfolding pieces
pieces-on delim c s other = rw (pieces, other) refl

with_byte-first :
    (c : ℕ) (ws : List Bytes) → (v : Bytes) × (vs : List Bytes) × (with_byte c ws ≡ v ∷ vs)
with_byte-first c [] = (_, _, refl)
with_byte-first c (w ∷ ws) = (_, _, refl)

pieces-first : (delim : ℕ) (s : Bytes) → (w : Bytes) × (ws : List Bytes) × (pieces delim s ≡ w ∷ ws)
unfolding pieces
pieces-first delim [] = ([], [], refl)
pieces-first delim (c ∷ s) = elim (Bool-cases (c == delim)) [
  | inl same ↦ ([], pieces delim s, pieces-end delim c s same)
  | inr other ↦
      let (v, vs, eq) = with_byte-first c (pieces delim s) in
      (v, vs, pieces-on delim c s other ∙ eq)
]

joined-next :
    (delim : ℕ) (ws : List Bytes)
    → (w : Bytes) × (vs : List Bytes) × (ws ≡ w ∷ vs)
    → joined delim ([] ∷ ws) ≡ delim ∷ joined delim ws
joined-next delim [] (w, vs, eq) = ground (arith, eq)
joined-next delim (w ∷ ws) some_first = refl

pieces-joined : (delim : ℕ) (s : Bytes) → joined delim (pieces delim s) ≡ s
unfolding pieces
pieces-joined delim [] = refl
pieces-joined delim (c ∷ s) = elim (Bool-cases (c == delim)) [
  | inl same ↦
      let is_delim : delim ≡ c = ground (arith, same) in
      ap (joined delim) (pieces-end delim c s same)
      ∙ joined-next delim (pieces delim s) (pieces-first delim s)
      ∙ ap (◌∷◌ delim) (pieces-joined delim s)
      ∙ ap (λ b. b ∷ s) is_delim
  | inr other ↦
      ap (joined delim) (pieces-on delim c s other)
      ∙ joined-byte delim c (pieces delim s)
      ∙ ap (◌∷◌ c) (pieces-joined delim s)
]

pieces-none_has : (delim : ℕ) (s : Bytes) → none_has delim (pieces delim s) ≡ true
unfolding pieces
pieces-none_has delim [] = refl
pieces-none_has delim (c ∷ s) = elim (Bool-cases (c == delim)) [
  | inl same ↦ ap (none_has delim) (pieces-end delim c s same) ∙ pieces-none_has delim s
  | inr other ↦
      ap (none_has delim) (pieces-on delim c s other)
      ∙ none_has-byte delim c (pieces delim s) other
      ∙ pieces-none_has delim s
]

split-has :
    (delim c : ℕ) (s : Bytes)
    → has_byte delim (c ∷ s) ≡ true
    → split (c ∷ s) delim ≡ pieces delim (c ∷ s)
unfolding split
split-has delim c s h = rw (split, h) refl

split-whole :
    (delim c : ℕ) (s : Bytes) → has_byte delim (c ∷ s) ≡ false → split (c ∷ s) delim ≡ (c ∷ s) ∷ []
unfolding split
split-whole delim c s h = rw (split, h) refl

-- The pieces that `split` makes of any text, joined by the delimiter, are the text, and no piece
-- has the delimiter in it.
pub split-joined :
    (s : Bytes) (delim : ℕ)
    → (joined delim (split s delim) ≡ s) × (none_has delim (split s delim) ≡ true)
unfolding split
split-joined [] delim = (refl, refl)
split-joined (c ∷ s) delim = elim (Bool-cases (has_byte delim (c ∷ s))) [
  | inl found ↦
      let cut = split-has delim c s found in
      (
        ap (joined delim) cut ∙ pieces-joined delim (c ∷ s),
        ap (none_has delim) cut ∙ pieces-none_has delim (c ∷ s),
      )
  | inr missing ↦
      let whole = split-whole delim c s missing in
      (
        ap (joined delim) whole,
        ap (none_has delim) whole ∙ ap (λ b. if b then false else true) missing,
      )
]

later-components :
    (uri : Uri) (c : Bytes) (cs : List Bytes) (path : Bytes)
    → add_components uri true path (c ∷ cs)
      ≡ (escaped uri (str "/") (c ∷ cs) >>= λ s. value (path ++ (str "/" ++ s)))
unfolding add_components escaped
later-components uri c [] path = refl
later-components uri c (d ∷ cs) path =
    carried (url_escape uri c) (λ e. add_components uri true (path ++ (str "/" ++ e)) (d ∷ cs))
      (λ e. (escaped uri (str "/") (d ∷ cs) >>= λ rest. value (e ++ (str "/" ++ rest))) >>= λ s.
        value (path ++ (str "/" ++ s)))
      (λ e.
        later-components uri d cs (path ++ (str "/" ++ e))
        ∙ carried (escaped uri (str "/") (d ∷ cs))
            (λ s. value ((path ++ (str "/" ++ e)) ++ (str "/" ++ s)))
            (λ rest. value (path ++ (str "/" ++ (e ++ (str "/" ++ rest)))))
            (λ rest. ap value (append_assoc path (str "/" ++ e) (str "/" ++ rest)))
        ∙ sym (
            bind_assoc (escaped uri (str "/") (d ∷ cs)) (λ rest. value (e ++ (str "/" ++ rest)))
              (λ s. value (path ++ (str "/" ++ s)))))
    ∙ sym (
        bind_assoc (url_escape uri c)
          (λ e. escaped uri (str "/") (d ∷ cs) >>= λ rest. value (e ++ (str "/" ++ rest)))
          (λ s. value (path ++ (str "/" ++ s))))

-- `mkpath` gives on every vector of components the path that `Cpath::to_path_string` gives, also
-- where a component does not fit into its buffer.
mkpath-to_path_string :
    (uri : Uri) (cfgpath : List Bytes) → mkpath uri cfgpath ≡ to_path_string uri cfgpath
unfolding mkpath add_components to_path_string escaped
mkpath-to_path_string uri [] = refl
mkpath-to_path_string uri (c ∷ []) = refl
mkpath-to_path_string uri (c ∷ d ∷ cs) =
    carried (url_escape uri c) (λ e. add_components uri true (str "/" ++ e) (d ∷ cs))
      (λ e. (escaped uri (str "/") (d ∷ cs) >>= λ rest. value (e ++ (str "/" ++ rest))) >>= λ s.
        value (str "/" ++ s))
      (λ e.
        later-components uri d cs (str "/" ++ e)
        ∙ sym (
            bind_assoc (escaped uri (str "/") (d ∷ cs)) (λ rest. value (e ++ (str "/" ++ rest)))
              (λ s. value (str "/" ++ s))))
    ∙ sym (
        bind_assoc (url_escape uri c)
          (λ e. escaped uri (str "/") (d ∷ cs) >>= λ rest. value (e ++ (str "/" ++ rest)))
          (λ s. value (str "/" ++ s)))
