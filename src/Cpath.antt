-- ===== src/Cpath.antt =====
-- The class `Cpath` of src/client/cpath.hpp: a path as the list of its components. The escaping of
-- components is done by uriparser, a parameter.
pub mod Parse
use vyatta_cfg.Prelude.Outcome.{Outcome, value, undefined, ◌>>=◌}
use vyatta_cfg.Prelude.{
  ℕ, zero, suc, ◌+◌, ◌*◌, Bool, true, false, ◌||◌, List, [], ◌∷◌, ◌++◌, Option, none, some, Bytes,
  leb, length, ◌==◌, if◌then◌else◌,
}

-- What `uriEscapeA` writes, and what `uriUnescapeInPlaceA` leaves.
pub record Uri : Type 0 where
  pub escape : Bytes → Bytes
  pub unescape : Bytes → Bytes

abbrev pub Cpath : Type 0
Cpath = List Bytes

-- `URI_MULT`
abbrev pub uri_mult : ℕ
uri_mult = 6

abbrev pub is_blank : ℕ → Bool
is_blank c = c == 32 || (c == 9 || c == b'/')

-- `find_first_not_of(" \t/")`: the string from there on, where there is such a byte.
unfoldable pub find_first : Bytes → Option Bytes
find_first [] = none
find_first (c ∷ s) = if is_blank c then find_first s else some (c ∷ s)

-- What stands between the slashes: the first part, and those behind it.
abbrev pub to_first : ℕ → List Bytes → List Bytes
to_first c [] = (c ∷ []) ∷ []
to_first c (t ∷ ts) = (c ∷ t) ∷ ts

unfoldable pub tokens : Bytes → List Bytes
tokens [] = [] ∷ []
tokens (c ∷ s) = let rest = tokens s in if c == b'/' then [] ∷ rest else to_first c rest

unfoldable pub push : Bytes → Cpath → Cpath
push comp p = p ++ (comp ∷ [])

-- `pop`, of a path that is not the root.
unfoldable pub pop : Cpath → Outcome Cpath
pop [] = undefined
pop (c ∷ []) = value []
pop (c ∷ d ∷ p) = do rest ← pop (d ∷ p); value (c ∷ rest)

-- `back`, `none` for a null pointer.
unfoldable pub back : Cpath → Option Bytes
back [] = none
back (c ∷ []) = some c
back (c ∷ d ∷ p) = back (d ∷ p)

-- `operator[]`
unfoldable pub nth : Cpath → ℕ → Outcome Bytes
nth [] n = undefined
nth (c ∷ p) zero = value c
nth (c ∷ p) (suc n) = nth p n

module _ (uri : Uri) where
  -- `url_unescape` on every token
  unfoldable pub unescaped : List Bytes → Cpath
  unescaped [] = []
  unescaped (t ∷ ts) = uri.unescape t ∷ unescaped ts

  -- `Cpath(const std::string &)`. A string of nothing but blanks and slashes is taken as it is.
  unfoldable pub parse : Bytes → Cpath
  parse comps = elim (find_first comps) [
    | none ↦ unescaped (tokens comps)
    | some s ↦ unescaped (tokens s)
  ]

  -- `url_escape`: the text and its terminating zero go to `strlen(s) * URI_MULT` bytes.
  unfoldable pub url_escape : Bytes → Outcome Bytes
  url_escape s =
      if leb (length (uri.escape s) + 1) (length s * uri_mult)
      then value (uri.escape s)
      else undefined

  -- The loop of the two functions below, with the separator.
  unfoldable pub escaped : Bytes → Cpath → Outcome Bytes
  escaped separator [] = value []
  escaped separator (c ∷ []) = url_escape c
  escaped separator (c ∷ d ∷ p) = do
    first ← url_escape c
    rest ← escaped separator (d ∷ p)
    value (first ++ (separator ++ rest))

  unfoldable pub to_string : Cpath → Outcome Bytes
  to_string p = escaped (32 ∷ []) p

  unfoldable pub to_path_string : Cpath → Outcome Bytes
  to_path_string p = do s ← escaped (b'/' ∷ []) p; value (b'/' ∷ s)
