-- ===== src/Syntax/Convert/Values.antt =====
-- `char2val` on texts whose tokens are values with line ends between them.
use vyatta_cfg.Compare.{same_type}
use vyatta_cfg.Prelude.Outcome.{value}
use vyatta_cfg.Prelude.{
  ◌≡◌, refl, subst, Bool, true, false, not, ◌&&◌, List, [], ◌∷◌, ◌++◌, append_assoc, map, none,
  some, Bytes,
}
use vyatta_cfg.Syntax.Convert.{
  Def, Token, val, eol, converted, is_refused, extended, convert_loop, char2val,
}
use vyatta_cfg.Syntax.{Context, World}
use vyatta_cfg.Value.Append.{IsSingle, IsList, single, add_val-IsList, contents-IsList}
use vyatta_cfg.Value.{Value, ValType, error_type, text_type, contents}

-- The text of a value that is one string.
abbrev pub text_in : Value → Bytes
text_in v = elim v.val [ none ↦ [] | some s ↦ s ]

-- The tokens of a value and of those that follow it.
abbrev pub following : List Value → List Token
following [] = []
following (v ∷ vs) = eol ∷ val v ∷ following vs

-- Values of one string each, of types that are not refused.
abbrev pub AllRead : Def → List Value → Type 0
AllRead def [] = Unit
AllRead def (v ∷ vs) = IsSingle v (text_in v) × (is_refused def v.val_type ≡ false) × AllRead def vs

module _ (C : Context) (def : Def) (many : def.multi ≡ true) where
  extended-IsList :
      (first v : Value) {ss : List Bytes}
      → IsList first ss
      → IsSingle v (text_in v)
      → (f : Value) × (extended C def (some first) v ≡ value f) × IsList f (ss ++ (text_in v ∷ []))
  unfolding extended
  extended-IsList first v l g =
      let (f, added, l') = add_val-IsList first v l g in
      (f, rw (extended, many) (rw added refl), l')

  convert_loop-more :
      (vs : List Value) (v first : Value) (text : Bytes) (w : World) {ss : List Bytes}
      → IsList first ss
      → AllRead def (v ∷ vs)
      → (f : Value) × (convert_loop C def text (some first) (val v ∷ following vs) w
          ≡ value (converted f, w))
        × IsList f (ss ++ map text_in (v ∷ vs))
  unfolding convert_loop
  convert_loop-more [] v first text w l h =
      let (f, more, l') = extended-IsList first v l h.0 in
      (f, rw (convert_loop, h.1) (rw more refl), l')
  convert_loop-more (u ∷ vs) v first text w {ss} l h =
      let (f, more, l') = extended-IsList first v l h.0 in
      let (g, rest, l'') = convert_loop-more vs u f text w l' h.2 in
      (
        g,
        rw (convert_loop, h.1) (rw more rest),
        subst (IsList g) (append_assoc ss (text_in v ∷ []) (map text_in (u ∷ vs))) l'',
      )

  convert_loop-values :
      (v : Value) (vs : List Value) (text : Bytes) (w : World)
      → AllRead def (v ∷ vs)
      → (f : Value) × (convert_loop C def text none (val v ∷ following vs) w
          ≡ value (converted f, w))
        × IsList f (map text_in (v ∷ vs))
  unfolding convert_loop extended
  convert_loop-values v [] text w h = (v, rw (convert_loop, h.1) refl, single h.0)
  convert_loop-values v (u ∷ vs) text w h =
      let (f, rest, l) = convert_loop-more vs u v text w (single h.0) h.2 in
      (f, rw (convert_loop, h.1) rest, l)

-- Where a definition of a type other than text allows many values, and the lexer reads a text as
-- values of one string each, of types that are not refused, with a line end between them: `char2val`
-- succeeds without a message, and the value stands for the strings in their order, each as it was read.
pub char2val-values :
    (C : Context) (def : Def) (lex : Bytes → List Token) (v : Value) (vs : List Value)
    (text : Bytes) (w : World)
    → def.multi ≡ true
    → same_type def.type text_type ≡ false
    → same_type def.type error_type ≡ false
    → lex text ≡ val v ∷ following vs
    → AllRead def (v ∷ vs)
    → (f : Value) × (char2val C def lex text w ≡ value (true, f, w))
      × (contents f ≡ map text_in (v ∷ vs))
      × IsList f (map text_in (v ∷ vs))
unfolding char2val
char2val-values C def lex v vs text w many no_text typed tokens h =
    let (f, done, l) = convert_loop-values C def many v vs text w h in
    (f, rw (no_text, typed, tokens) (rw done refl), contents-IsList l, l)

not_and : (b : Bool) → (b && false) ≡ false
not_and true = refl
not_and false = refl

is_refused-single : (def : Def) (t : ValType) → def.type2 ≡ error_type → is_refused def t ≡ false
unfolding is_refused
is_refused-single def t only = rw (is_refused, only) (not_and (not (same_type def.type t)))

-- Where a definition has a single type, other than text, `char2val` accepts a value of any type: a
-- text that the lexer reads as one value is converted to it, whatever its type is.
pub char2val-any_type :
    (C : Context) (def : Def) (lex : Bytes → List Token) (v : Value) (text : Bytes) (w : World)
    → same_type def.type text_type ≡ false
    → same_type def.type error_type ≡ false
    → def.type2 ≡ error_type
    → lex text ≡ val v ∷ []
    → char2val C def lex text w ≡ value (true, v, w)
unfolding char2val convert_loop extended is_refused
char2val-any_type C def lex v text w no_text typed only tokens =
    rw (no_text, typed, tokens) (rw (convert_loop, is_refused-single def v.val_type only) refl)
