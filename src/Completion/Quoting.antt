-- ===== src/Completion/Quoting.antt =====
-- What a shell reads in the arrays of the environment.
use vyatta_cfg.Completion.{
  shell_escape_squotes, quoted_items, is_space, strip_front, strip_back, stripped, help_items,
}
use vyatta_cfg.Prelude.{
  ℕ, ◌≡◌, refl, sym, ap, ◌∙◌, subst, true, false, List, [], ◌∷◌, ◌++◌, append_assoc, append-nil,
  map, Option, none, some, Bytes, str, ◌==◌, arith, Bool-cases, inl, inr, if◌then◌else◌,
}

-- A shell reads words outside of quotes, between single quotes, or behind a backslash. The reader
-- knows nothing but these and the space.
pub data Mode : Type 0 where
  outside quoted escaped : Mode

abbrev pub so_far : Option Bytes → Bytes
so_far none = []
so_far (some w) = w

abbrev pub closed : Option Bytes → List Bytes → List Bytes
closed none ws = ws
closed (some w) ws = w ∷ ws

abbrev pub prepended : Option Bytes → Option (List Bytes) → Option (List Bytes)
prepended w none = none
prepended w (some ws) = some (closed w ws)

-- The words of a text from a mode on, with the word so far.
unfoldable pub shell_words : Mode → Option Bytes → Bytes → Option (List Bytes)
shell_words outside w [] = some (closed w [])
shell_words quoted w [] = none
shell_words escaped w [] = none
shell_words quoted w (c ∷ s) =
    let out = shell_words outside (some (so_far w)) s in
    let on = shell_words quoted (some (so_far w ++ (c ∷ []))) s in if c == b'\'' then out else on
shell_words escaped w (c ∷ s) = shell_words outside (some (so_far w ++ (c ∷ []))) s
shell_words outside w (c ∷ s) =
    let next = prepended w (shell_words outside none s) in
    let quote = shell_words quoted (some (so_far w)) s in
    let back = shell_words escaped w s in
    if c == 32 then next else if c == b'\'' then quote else if c == b'\\' then back else none

pub quoted-byte :
    (c : ℕ) (w s : Bytes)
    → c == b'\'' ≡ false
    → shell_words quoted (some w) (c ∷ s) ≡ shell_words quoted (some (w ++ (c ∷ []))) s
unfolding shell_words
quoted-byte c w s other = rw (shell_words, other) refl

escaped_quote :
    (w s : Bytes)
    → shell_words quoted (some w) (str "'\\''" ++ s)
      ≡ shell_words quoted (some (w ++ (b'\'' ∷ []))) s
unfolding shell_words
escaped_quote w s = refl

escape-quote :
    (t : Bytes) → shell_escape_squotes (b'\'' ∷ t) ≡ str "'\\''" ++ shell_escape_squotes t
unfolding shell_escape_squotes
escape-quote t = refl

escape-other :
    (c : ℕ) (t : Bytes)
    → c == b'\'' ≡ false
    → shell_escape_squotes (c ∷ t) ≡ c ∷ shell_escape_squotes t
unfolding shell_escape_squotes
escape-other c t other = rw (shell_escape_squotes, other) refl

-- A text with its quotes escaped, inside quotes.
read-escaped :
    (t w s : Bytes)
    → shell_words quoted (some w) (shell_escape_squotes t ++ (b'\'' ∷ s))
      ≡ shell_words outside (some (w ++ t)) s
unfolding shell_words shell_escape_squotes
read-escaped [] w s = rw append-nil refl
read-escaped (c ∷ t) w s = elim (Bool-cases (c == b'\'')) [
  | inl quote ↦
      let same : c ≡ b'\'' = ground (arith, quote) in
      let rest = read-escaped t (w ++ (b'\'' ∷ [])) s in
      rw same (
        ap (λ u. shell_words quoted (some w) (u ++ (b'\'' ∷ s))) (escape-quote t)
        ∙ escaped_quote w (shell_escape_squotes t ++ (b'\'' ∷ s))
        ∙ rest
        ∙ ap (λ u. shell_words outside (some u) s) (append_assoc w (b'\'' ∷ []) t))
  | inr other ↦
      let rest = read-escaped t (w ++ (c ∷ [])) s in
      ap (λ u. shell_words quoted (some w) (u ++ (b'\'' ∷ s))) (escape-other c t other)
      ∙ quoted-byte c w (shell_escape_squotes t ++ (b'\'' ∷ s)) other
      ∙ rest
      ∙ ap (λ u. shell_words outside (some u) s) (append_assoc w (c ∷ []) t)
]

item_words :
    (t s : Bytes)
    → shell_words outside none (str "'" ++ (shell_escape_squotes t ++ (str "' " ++ s)))
      ≡ prepended (some t) (shell_words outside none s)
unfolding shell_words
item_words t s = read-escaped t [] (32 ∷ s)

items_words :
    (ss : List Bytes)
    → shell_words outside none (quoted_items (map shell_escape_squotes ss)) ≡ some ss
unfolding quoted_items shell_words
items_words [] = refl
items_words (t ∷ ss) =
    item_words t (quoted_items (map shell_escape_squotes ss))
    ∙ ap (prepended (some t)) (items_words ss)

strip_front-space : (c : ℕ) (s : Bytes) → is_space c ≡ true → strip_front (c ∷ s) ≡ strip_front s
unfolding strip_front
strip_front-space c s h = rw (strip_front, h) refl

strip_front-other : (c : ℕ) (s : Bytes) → is_space c ≡ false → strip_front (c ∷ s) ≡ c ∷ s
unfolding strip_front
strip_front-other c s h = rw (strip_front, h) refl

front-visible :
    (c : ℕ) (s : Bytes)
    → is_space c ≡ false
    → strip_front (shell_escape_squotes (c ∷ s)) ≡ shell_escape_squotes (c ∷ s)
front-visible c s h = elim (Bool-cases (c == b'\'')) [
  | inl quote ↦
      let same : c ≡ b'\'' = ground (arith, quote) in
      rw same (
        ap strip_front (escape-quote s)
        ∙ strip_front-other b'\'' (str "\\''" ++ shell_escape_squotes s) refl
        ∙ sym (escape-quote s))
  | inr other ↦
      ap strip_front (escape-other c s other)
      ∙ strip_front-other c (shell_escape_squotes s) h
      ∙ sym (escape-other c s other)
]

strip_front-escape :
    (s : Bytes) → strip_front (shell_escape_squotes s) ≡ shell_escape_squotes (strip_front s)
unfolding strip_front shell_escape_squotes
strip_front-escape [] = refl
strip_front-escape (c ∷ s) = elim (Bool-cases (is_space c)) [
  | inl space ↦
      let other : c == b'\'' ≡ false = ground (arith, space) in
      ap strip_front (escape-other c s other)
      ∙ strip_front-space c (shell_escape_squotes s) space
      ∙ strip_front-escape s
      ∙ ap shell_escape_squotes (sym (strip_front-space c s space))
  | inr visible ↦
      front-visible c s visible ∙ ap shell_escape_squotes (sym (strip_front-other c s visible))
]

strip_back-other : (c : ℕ) (s : Bytes) → is_space c ≡ false → strip_back (c ∷ s) ≡ c ∷ strip_back s
unfolding strip_back
strip_back-other c s h = by_rest (strip_back s)
  where
    by_rest :
        (r : Bytes)
        → (elim r [ [] ↦ if is_space c then [] else c ∷ [] | d ∷ q ↦ c ∷ d ∷ q ]) ≡ c ∷ r
    by_rest [] = rw h refl
    by_rest (d ∷ q) = refl

-- A space in front of a text stays unless nothing is left of the text.
back_space : (c : ℕ) (r : Bytes) → Bytes
back_space c [] = []
back_space c (d ∷ q) = c ∷ d ∷ q

strip_back-space :
    (c : ℕ) (s : Bytes) → is_space c ≡ true → strip_back (c ∷ s) ≡ back_space c (strip_back s)
unfolding strip_back back_space
strip_back-space c s h = by_rest (strip_back s)
  where
    by_rest :
        (r : Bytes)
        → (elim r [ [] ↦ if is_space c then [] else c ∷ [] | d ∷ q ↦ c ∷ d ∷ q ]) ≡ back_space c r
    by_rest [] = rw h refl
    by_rest (d ∷ q) = refl

back_space-escape :
    (c : ℕ) (r : Bytes)
    → c == b'\'' ≡ false
    → back_space c (shell_escape_squotes r) ≡ shell_escape_squotes (back_space c r)
unfolding back_space shell_escape_squotes
back_space-escape c [] h = refl
back_space-escape c (d ∷ q) h = elim (Bool-cases (d == b'\'')) [
  | inl quote ↦
      let same : d ≡ b'\'' = ground (arith, quote) in
      rw same (
        ap (back_space c) (escape-quote q)
        ∙ ap (◌∷◌ c) (sym (escape-quote q))
        ∙ sym (escape-other c (b'\'' ∷ q) h))
  | inr other ↦
      ap (back_space c) (escape-other d q other)
      ∙ ap (◌∷◌ c) (sym (escape-other d q other))
      ∙ sym (escape-other c (d ∷ q) h)
]

strip_back_empty : strip_back (shell_escape_squotes []) ≡ shell_escape_squotes (strip_back [])
unfolding strip_back shell_escape_squotes
strip_back_empty = refl

strip_back-escape :
    (s : Bytes) → strip_back (shell_escape_squotes s) ≡ shell_escape_squotes (strip_back s)
strip_back-escape [] = strip_back_empty
strip_back-escape (c ∷ s) = elim (Bool-cases (c == b'\'')) [
  | inl quote ↦
      let same : c ≡ b'\'' = ground (arith, quote) in
      let e = shell_escape_squotes s in
      subst
        (λ d. strip_back (shell_escape_squotes (d ∷ s)) ≡ shell_escape_squotes (strip_back (d ∷ s)))
        (sym same)
        (ap strip_back (escape-quote s)
          ∙ strip_back-other b'\'' (str "\\''" ++ e) refl
          ∙ ap (◌∷◌ b'\'') (strip_back-other b'\\' (str "''" ++ e) refl)
          ∙ ap (λ u. b'\'' ∷ b'\\' ∷ u) (strip_back-other b'\'' (b'\'' ∷ e) refl)
          ∙ ap (λ u. b'\'' ∷ b'\\' ∷ b'\'' ∷ u) (strip_back-other b'\'' e refl)
          ∙ ap (λ u. str "'\\''" ++ u) (strip_back-escape s)
          ∙ sym (escape-quote (strip_back s))
          ∙ ap shell_escape_squotes (sym (strip_back-other b'\'' s refl)))
  | inr other ↦ elim (Bool-cases (is_space c)) [
    | inl space ↦
        ap strip_back (escape-other c s other)
        ∙ strip_back-space c (shell_escape_squotes s) space
        ∙ ap (back_space c) (strip_back-escape s)
        ∙ back_space-escape c (strip_back s) other
        ∙ ap shell_escape_squotes (sym (strip_back-space c s space))
    | inr visible ↦
        ap strip_back (escape-other c s other)
        ∙ strip_back-other c (shell_escape_squotes s) visible
        ∙ ap (◌∷◌ c) (strip_back-escape s)
        ∙ sym (escape-other c (strip_back s) other)
        ∙ ap shell_escape_squotes (sym (strip_back-other c s visible))
  ]
]

help_items-stripped : (ss : List Bytes) → help_items ss ≡ map shell_escape_squotes (map stripped ss)
unfolding stripped
help_items-stripped [] = refl
help_items-stripped (s ∷ ss) =
    ap (λ u. u ∷ help_items ss)
      (ap strip_back (strip_front-escape s) ∙ strip_back-escape (strip_front s))
    ∙ ap (◌∷◌ (shell_escape_squotes (strip_back (strip_front s)))) (help_items-stripped ss)

-- A shell that reads the array that the environment has for any list of completions gets these
-- completions, each as one word and byte for byte, whatever quotes, spaces and other bytes are in
-- them; and from the array for any list of help items it gets each without the spaces around it.
pub quoted_items-words :
    (ss : List Bytes)
    → (shell_words outside none (quoted_items (map shell_escape_squotes ss)) ≡ some ss)
      × (shell_words outside none (quoted_items (help_items ss)) ≡ some (map stripped ss))
quoted_items-words ss = (
  items_words ss,
  ap (λ u. shell_words outside none (quoted_items u)) (help_items-stripped ss)
      ∙ items_words (map stripped ss),
)
