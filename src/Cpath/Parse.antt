-- ===== src/Cpath/Parse.antt =====
-- Paths that are written and read again.
use vyatta_cfg.Cpath.{
  Uri, Cpath, is_blank, find_first, tokens, unescaped, parse, url_escape, escaped, to_path_string,
}
use vyatta_cfg.Prelude.Outcome.{value}
use vyatta_cfg.Prelude.{
  ℕ, ◌+◌, ◌*◌, ◌≤◌, ◌≡◌, refl, ap, Bool, true, false, not, ◌&&◌, [], ◌∷◌, ◌++◌, some, Bytes, length,
  arith, leb,
}

-- No byte of a text is a slash, a space or a tabulator.
abbrev pub no_blank : Bytes → Bool
no_blank [] = true
no_blank (c ∷ s) = not (is_blank c) && no_blank s

-- What uriparser does to a component: the escaped text has no blank and no slash, is not empty,
-- fits with its zero into six bytes for each byte, and unescaped it is the component again.
pub record IsEscaped (uri : Uri) (comp : Bytes) : Type 0 where
  pub first : ℕ
  pub others : Bytes
  pub shape : uri.escape comp ≡ first ∷ others
  pub plain : no_blank (first ∷ others) ≡ true
  pub fits : length others + 2 ≤ length comp * 6
  pub undone : uri.unescape (first ∷ others) ≡ comp

abbrev pub AllEscaped : Uri → Cpath → Type 0
AllEscaped uri [] = Unit
AllEscaped uri (c ∷ p) = IsEscaped uri c × AllEscaped uri p

tokens-plain : (s : Bytes) → no_blank s ≡ true → tokens s ≡ s ∷ []
unfolding tokens
tokens-plain [] h = refl
tokens-plain (c ∷ s) h = ground (arith, tokens-plain s)

tokens-slash : (s rest : Bytes) → no_blank s ≡ true → tokens (s ++ (b'/' ∷ rest)) ≡ s ∷ tokens rest
unfolding tokens
tokens-slash [] rest h = refl
tokens-slash (c ∷ s) rest h = ground (arith, tokens-slash s rest)

find_first-plain : (c : ℕ) (s : Bytes) → is_blank c ≡ false → find_first (c ∷ s) ≡ some (c ∷ s)
unfolding find_first
find_first-plain c s h = rw h refl

module _ (uri : Uri) where
  -- The text of a path without its first slash.
  abbrev pub slashed : Cpath → Bytes
  slashed [] = []
  slashed (c ∷ []) = uri.escape c
  slashed (c ∷ d ∷ p) = uri.escape c ++ (b'/' ∷ slashed (d ∷ p))

  pub url_escape-fits : (c : Bytes) → IsEscaped uri c → url_escape uri c ≡ value (uri.escape c)
  unfolding url_escape
  url_escape-fits c h =
      let short : leb (length (uri.escape c) + 1) (length c * 6) ≡ true =
        rw h.shape (ground (arith, h.fits)) in
      rw (url_escape, short) refl

  pub escaped-slashed :
      (p : Cpath) → AllEscaped uri p → escaped uri (b'/' ∷ []) p ≡ value (slashed p)
  unfolding escaped
  escaped-slashed [] h = refl
  escaped-slashed (c ∷ []) h = url_escape-fits c h.0
  escaped-slashed (c ∷ d ∷ p) h =
      rw (escaped, url_escape-fits c h.0) (rw (escaped-slashed (d ∷ p) h.1) refl)

  tokens-slashed :
      (c : Bytes) (p : Cpath)
      → AllEscaped uri (c ∷ p)
      → unescaped uri (tokens (slashed (c ∷ p))) ≡ c ∷ p
  unfolding unescaped
  tokens-slashed c [] h =
      let one : tokens (uri.escape c) ≡ uri.escape c ∷ [] =
        rw h.0.shape (tokens-plain (h.0.first ∷ h.0.others) h.0.plain) in
      let back : uri.unescape (uri.escape c) ≡ c = rw h.0.shape h.0.undone in rw one (rw back refl)
  tokens-slashed c (d ∷ p) h =
      let rest = tokens-slashed d p h.1 in
      let one : tokens (uri.escape c ++ (b'/' ∷ slashed (d ∷ p)))
          ≡ uri.escape c ∷ tokens (slashed (d ∷ p)) =
        rw h.0.shape (tokens-slash (h.0.first ∷ h.0.others) (slashed (d ∷ p)) h.0.plain) in
      let back : uri.unescape (uri.escape c) ≡ c = rw h.0.shape h.0.undone in
      rw one (rw back (ap (◌∷◌ c) rest))

  slashed_begins :
      (c : Bytes) (p : Cpath)
      → AllEscaped uri (c ∷ p)
      → (b : ℕ) × (s : Bytes) × (slashed (c ∷ p) ≡ b ∷ s) × (is_blank b ≡ false)
  slashed_begins c [] h = (h.0.first, h.0.others, h.0.shape, ground (arith, h.0.plain))
  slashed_begins c (d ∷ p) h = (
    h.0.first,
    h.0.others ++ (b'/' ∷ slashed (d ∷ p)),
    ap (λ s. s ++ (b'/' ∷ slashed (d ∷ p))) h.0.shape,
    ground (arith, h.0.plain),
  )

  -- The text of a path.
  abbrev pub path_text : Cpath → Bytes
  path_text p = b'/' ∷ slashed p

  pub to_path_string-text :
      (p : Cpath) → AllEscaped uri p → to_path_string uri p ≡ value (path_text p)
  unfolding to_path_string
  to_path_string-text p h = rw (escaped-slashed p h) refl

  pub parse-text :
      (c : Bytes) (p : Cpath) → AllEscaped uri (c ∷ p) → parse uri (path_text (c ∷ p)) ≡ c ∷ p
  unfolding parse find_first
  parse-text c p h =
      let (b, t, shape, begins) = slashed_begins c p h in
      let found : find_first (slashed (c ∷ p)) ≡ some (slashed (c ∷ p)) =
        rw shape (find_first-plain b t begins) in
      rw (parse, found) (tokens-slashed c p h)

  -- A path of at least one component, each escaped within the bytes that are asked for to a text
  -- without blanks and slashes from which uriparser gets it back: `to_path_string` writes it
  -- without leaving its buffers, and the text read again is the path.
  pub parse-to_path_string :
      (c : Bytes) (p : Cpath)
      → AllEscaped uri (c ∷ p)
      → (s : Bytes) × (to_path_string uri (c ∷ p) ≡ value s) × (parse uri s ≡ c ∷ p)
  parse-to_path_string c p h = (path_text (c ∷ p), to_path_string-text (c ∷ p) h, parse-text c p h)
