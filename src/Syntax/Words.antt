-- ===== src/Syntax/Words.antt =====
-- `eval_va` on a variable: its value is split into words, and the words make the value.
use vyatta_cfg.Expand.Pieces.{no_paren, before_paren_lem, after_paren_lem}
use vyatta_cfg.Expand.{marker}
use vyatta_cfg.Prelude.Outcome.{value, ◌>>=◌}
use vyatta_cfg.Prelude.{
  ℕ, ◌<◌, ◌≡◌, refl, sym, ap, ◌∙◌, subst, Bool, true, false, not, ◌&&◌, inl, inr, List, [], ◌∷◌,
  ◌++◌, append_assoc, append-nil, some, Bytes, starts_with, arith, length, ◌==◌, Bool-cases,
}
use vyatta_cfg.Syntax.Nodes.{var_op, Info, Node, node}
use vyatta_cfg.Syntax.{
  VarRef, Context, World, close_word, words_in, strtok, is_self_path, var_value, add_words,
  eval_var, eval_va,
}
use vyatta_cfg.Value.Append.{IsSingle, IsList, single, add_val-IsList, contents-IsList}
use vyatta_cfg.Value.{Value, ValType, text_type, str2val, zeroed, contents}

starts_marker : (s : Bytes) → starts_with marker (marker ++ s) ≡ true
unfolding starts_with
starts_marker s = refl

-- A reference `$VAR(path)` that is not to the value itself is looked up.
pub eval_var-path :
    (C : Context) (w : World) (path : Bytes)
    → C.handle ≡ true
    → no_paren path ≡ true
    → is_self_path (path ++ (b')' ∷ [])) ≡ false
    → eval_var C w (marker ++ (path ++ (b')' ∷ []))) ≡ var_value (C.get_var_ref w.log path)
unfolding eval_var
eval_var-path C w path connected plain other =
    let front = before_paren_lem path [] plain in
    let behind = after_paren_lem path [] plain in
    rw (eval_var, starts_marker (path ++ (b')' ∷ [])), other, behind, connected) (rw front refl)

add_words-IsList :
    (t : ValType) (ws : List Bytes) (res : Value) {ss : List Bytes}
    → IsList res ss
    → (v : Value) × (add_words t res ws ≡ value v) × IsList v (ss ++ ws)
unfolding add_words str2val
add_words-IsList t [] res {ss} l = (res, refl, subst (IsList res) (sym (append-nil ss)) l)
add_words-IsList t (w ∷ ws) res {ss} l =
    let second : Value = record (str2val w) { val_type = t } in
    let is_single : IsSingle second w = record { own = refl; no_cnt = refl; held = refl } in
    let (f, added, l') = add_val-IsList res second l is_single in
    let (v, rest, l'') = add_words-IsList t ws f l' in
    (v, rw (add_words, added) rest, subst (IsList v) (append_assoc ss (w ∷ []) ws) l'')

abbrev pub text_ref : Bytes → Bool → VarRef
text_ref s multi = record { found = true; type = text_type; val = some s; ismulti = multi }

abbrev pub first_word : Bytes → Bool → Value
first_word w multi = record zeroed {
  ismulti = multi;
  val_type = text_type;
  free_me = true;
  val = some w;
}

pub var_value-split :
    (s w : Bytes) (ws : List Bytes) (multi : Bool)
    → strtok s ≡ w ∷ ws
    → var_value (text_ref s multi)
      ≡ (do v ← add_words text_type (first_word w multi) ws; value (true, v))
unfolding var_value
var_value-split s w ws multi split = rw (var_value, split) refl

pub var_value-words :
    (s w : Bytes) (ws : List Bytes) (multi : Bool)
    → strtok s ≡ w ∷ ws
    → (v : Value) × (add_words text_type (first_word w multi) ws ≡ value v)
      × (var_value (text_ref s multi) ≡ value (true, v))
      × IsList v (w ∷ ws)
var_value-words s w ws multi split =
    let is_single : IsSingle (first_word w multi) w = record {
      own = refl;
      no_cnt = refl;
      held = refl;
    } in
    let (v, added, l) = add_words-IsList text_type ws (first_word w multi) (single is_single) in
    (v, added, var_value-split s w ws multi split ∙ rw added refl, l)

-- A variable whose text has words, looked up with the store at hand: `eval_va` gives the status 0 and a
-- value that stands for these words in order, to which `add_val` may add more, and changes nothing
-- else. No write leaves the arrays of the value.
pub eval_va-words :
    (C : Context) (w : World) (i : Info) (l r : Node) (path s word : Bytes) (words : List Bytes)
    (multi : Bool)
    → C.handle ≡ true
    → i.string ≡ some (marker ++ (path ++ (b')' ∷ [])))
    → no_paren path ≡ true
    → is_self_path (path ++ (b')' ∷ [])) ≡ false
    → C.get_var_ref w.log path ≡ text_ref s multi
    → strtok s ≡ word ∷ words
    → (v : Value) × (eval_va C (node var_op i l r) w ≡ value (true, some v, w))
      × (contents v ≡ strtok s)
      × IsList v (strtok s)
unfolding eval_va
eval_va-words C w i l r path s word words multi connected named plain other found split =
    let (v, added, made, is_list) = var_value-words s word words multi split in
    let looked = eval_var-path C w path connected plain other ∙ ap var_value found ∙ made in
    (
      v,
      rw (eval_va, named) (rw looked refl),
      contents-IsList is_list ∙ sym split,
      subst (IsList v) (sym split) is_list,
    )

-- Words: no byte of them is a space, and none is empty.
abbrev pub no_space : Bytes → Bool
no_space [] = true
no_space (c ∷ s) = not (c == 32) && no_space s

abbrev pub AreWords : List Bytes → Type 0
AreWords [] = Unit
AreWords (w ∷ ws) = (0 < length w) × (no_space w ≡ true) × AreWords ws

-- Words with a space between each two.
abbrev pub join_words : List Bytes → Bytes
join_words [] = []
join_words (w ∷ []) = w
join_words (w ∷ v ∷ ws) = w ++ (32 ∷ join_words (v ∷ ws))

no_space-append : (s t : Bytes) → no_space s ≡ true → no_space t ≡ true → no_space (s ++ t) ≡ true
no_space-append [] t h k = k
no_space-append (c ∷ s) t h k = ground (arith, no_space-append s t)

close_word-AreWords :
    (word : Bytes) (ws : List Bytes)
    → no_space word ≡ true
    → AreWords ws
    → AreWords (close_word word ws)
close_word-AreWords [] ws h k = k
close_word-AreWords (c ∷ s) ws h k = (omega arith, h, k)

words_in-AreWords : (word s : Bytes) → no_space word ≡ true → AreWords (words_in word s)
unfolding words_in
words_in-AreWords word [] h = close_word-AreWords word [] h tt
words_in-AreWords word (c ∷ s) h = elim (Bool-cases (c == 32)) [
  | inl space ↦ rw space (close_word-AreWords word (words_in [] s) h (words_in-AreWords [] s refl))
  | inr other ↦
      rw other
        (words_in-AreWords (word ++ (c ∷ [])) s (no_space-append word (c ∷ []) h (ground arith)))
]

words_in_other :
    (word : Bytes) (c : ℕ) (s : Bytes)
    → c == 32 ≡ false
    → words_in word (c ∷ s) ≡ words_in (word ++ (c ∷ [])) s
unfolding words_in
words_in_other word c s other = rw other refl

words_in-word :
    (word w rest : Bytes)
    → no_space w ≡ true
    → words_in word (w ++ rest) ≡ words_in (word ++ w) rest
words_in-word word [] rest h = rw append-nil refl
words_in-word word (c ∷ w) rest h =
    let here : c == 32 ≡ false = ground arith in
    let others : no_space w ≡ true = ground arith in
    words_in_other word c (w ++ rest) here
    ∙ words_in-word (word ++ (c ∷ [])) w rest others
    ∙ ap (λ u. words_in u rest) (append_assoc word (c ∷ []) w)

close_word_pos : (w : Bytes) (ws : List Bytes) → 0 < length w → close_word w ws ≡ w ∷ ws
close_word_pos [] ws h = absurd (omega arith)
close_word_pos (c ∷ w) ws h = refl

strtok-join : (ws : List Bytes) → AreWords ws → strtok (join_words ws) ≡ ws
unfolding words_in
strtok-join [] h = refl
strtok-join (w ∷ []) h =
    ap (words_in []) (sym (append-nil w)) ∙ words_in-word [] w [] h.1 ∙ close_word_pos w [] h.0
strtok-join (w ∷ v ∷ ws) h =
    words_in-word [] w (32 ∷ join_words (v ∷ ws)) h.1
    ∙ close_word_pos w (words_in [] (join_words (v ∷ ws))) h.0
    ∙ ap (◌∷◌ w) (strtok-join (v ∷ ws) h.2)

-- The splitting of a text gives words, none of them empty or with a space, and words that are joined
-- with one space between each two are given back by it.
strtok-join_words :
    (s : Bytes) (ws : List Bytes)
    → AreWords ws
    → AreWords (strtok s) × (strtok (join_words ws) ≡ ws)
strtok-join_words s ws h = (words_in-AreWords [] s refl, strtok-join ws h)
