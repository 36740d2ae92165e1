-- ===== src/Syntax/Count.antt =====
-- The comparison of the number of a variable's words with a number.
use vyatta_cfg.Compare.Decimal.{Numeral, IsUnsigned, number, text, sscanf-number}
use vyatta_cfg.Compare.{
  Cond, same, stop, is_in, satisfies, sign_of, same_type, operands, is_count_test, count_test,
  right_loop, left_loop, val_cmp,
}
use vyatta_cfg.Expand.Pieces.{no_paren}
use vyatta_cfg.Expand.{marker}
use vyatta_cfg.Prelude.Outcome.{value, undefined}
use vyatta_cfg.Prelude.{
  ℕ, zero, suc, ◌≡◌, refl, sym, ap, ◌∙◌, true, false, not, ◌&&◌, List, [], ◌∷◌, ◌++◌, Option, none,
  some, Bytes, arith, length, take, replicate,
}
use vyatta_cfg.Syntax.Nodes.{var_op, val_op, Info, Node, node}
use vyatta_cfg.Syntax.Words.{text_ref, first_word, var_value-words, eval_var-path}
use vyatta_cfg.Syntax.{
  Context, World, strtok, is_self_path, var_value, add_words, eval_var, eval_va, check_comp,
}
use vyatta_cfg.Value.Append.{IsList, multi}
use vyatta_cfg.Value.{
  Value, ValType, int_type, text_type, Result, ok, failed, fault, grown, str2val, put_val, convert,
  add_val,
}

put_val-kind :
    (first second f s : Value)
    → put_val first second ≡ ok (f, s)
    → (f.ismulti ≡ first.ismulti) × (f.val_type ≡ first.val_type)
unfolding put_val
put_val-kind first second f s e = ground arith

convert-kind :
    (first f : Value)
    → convert first ≡ ok f
    → (f.ismulti ≡ first.ismulti) × (f.val_type ≡ first.val_type)
unfolding convert
convert-kind first f e = ground arith

converted-kind :
    (r : Result Value) (first second f s : Value)
    → ((g : Value) → r ≡ ok g → (g.ismulti ≡ first.ismulti) × (g.val_type ≡ first.val_type))
    → (elim r [ ok g ↦ put_val g second | failed ↦ failed | fault ↦ fault ]) ≡ ok (f, s)
    → (f.ismulti ≡ first.ismulti) × (f.val_type ≡ first.val_type)
converted-kind (ok g) first second f s h e = ground (arith, h g refl, put_val-kind g second f s e)
converted-kind failed first second f s h e = cc
converted-kind fault first second f s h e = cc

add_val-kind :
    (first second f s : Value)
    → add_val true true first second ≡ ok (f, s)
    → (f.ismulti ≡ first.ismulti) × (f.val_type ≡ first.val_type)
unfolding add_val
add_val-kind first second f s e = ground (
  arith,
  put_val-kind first second f s,
  put_val-kind (grown first) second f s,
  converted-kind (convert (grown first)) first second f s
      (λ (g : Value) (h : convert (grown first) ≡ ok g). convert-kind (grown first) g h),
)

added-kind :
    (t : ValType) (ws : List Bytes) (r : Result (Value × Value)) (res v : Value)
    → ((f s : Value) → r ≡ ok (f, s) → (f.ismulti ≡ res.ismulti) × (f.val_type ≡ res.val_type))
    → ((f : Value)
        → add_words t f ws ≡ value v
        → (v.ismulti ≡ f.ismulti) × (v.val_type ≡ f.val_type))
    → (elim r [ ok (f, s) ↦ add_words t f ws | failed ↦ undefined | fault ↦ undefined ]) ≡ value v
    → (v.ismulti ≡ res.ismulti) × (v.val_type ≡ res.val_type)
added-kind t ws (ok (f, s)) res v h ih e = ground (arith, h f s refl, ih f e)
added-kind t ws failed res v h ih e = cc
added-kind t ws fault res v h ih e = cc

add_words-kind :
    (t : ValType) (ws : List Bytes) (res v : Value)
    → add_words t res ws ≡ value v
    → (v.ismulti ≡ res.ismulti) × (v.val_type ≡ res.val_type)
unfolding add_words
add_words-kind t [] res v e = ground arith
add_words-kind t (w ∷ ws) res v e =
    added-kind t ws (add_val true true res (record (str2val w) { val_type = t })) res v
      (add_val-kind res (record (str2val w) { val_type = t })) (λ f h. add_words-kind t ws f v h) e

-- The count that `val_cmp` sees: a single word makes no array.
abbrev pub seen_count : List Bytes → ℕ
seen_count (w ∷ []) = 0
seen_count ws = length ws

counted :
    (w : Bytes) (ws : List Bytes) (v : Value)
    → add_words text_type (first_word w true) ws ≡ value v
    → IsList v (w ∷ ws)
    → v.cnt ≡ seen_count (w ∷ ws)
unfolding add_words
counted w [] v e l = ground arith
counted w (u ∷ ws) v e l = IsList-cnt v w u ws l
  where
    IsList-cnt :
        (v : Value) (w u : Bytes) (ws : List Bytes)
        → IsList v (w ∷ u ∷ ws)
        → v.cnt ≡ length (w ∷ u ∷ ws)
    IsList-cnt v w u ws (multi m h) = m.counted

operands-cons :
    (v : Value) → (x : Option Bytes) × (xs : List (Option Bytes)) × (operands v ≡ x ∷ xs)
unfolding operands
operands-cons v = cells v.cnt v.val v.vals
  where
    cells :
        (n : ℕ) (o : Option Bytes) (vals : List (Option Bytes))
        → (x : Option Bytes) × (xs : List (Option Bytes)) × ((elim n [
          | zero ↦ o ∷ []
          | suc k ↦ take (suc k) (vals ++ replicate (suc k) none)
        ])
            ≡ x ∷ xs)
    cells zero o vals = (o, [], refl)
    cells (suc k) o [] = (none, take k (replicate k none), refl)
    cells (suc k) o (c ∷ vals) = (c, take k (vals ++ replicate (suc k) none), refl)

-- The special case of `val_cmp`, on a number in decimal below 2 ^ 32.
val_cmp-count :
    (left right : Value) (cond : Cond) (m : Numeral)
    → left.ismulti ≡ true
    → is_in cond ≡ false
    → right.cnt ≡ 0
    → right.val_type ≡ int_type
    → right.val ≡ some (text m)
    → IsUnsigned m
    → val_cmp left right cond ≡ value (satisfies cond (sign_of left.cnt (number m)))
unfolding val_cmp left_loop right_loop operands is_count_test count_test
val_cmp-count left right cond m multi_left plain n t h u =
    let (x, xs, lefts) = operands-cons left in
    let rights : operands right ≡ some (text m) ∷ [] = rw (operands, n) (rw h refl) in
    let test : is_count_test left right cond ≡ true = ground (arith, multi_left, plain, n, t) in
    let counted_right : count_test left cond (text m)
        ≡ value (satisfies cond (sign_of left.cnt (number m))) =
      rw (count_test, sscanf-number m u) refl in
    let inner : right_loop left right cond x (some (text m) ∷ []) 0 false same
        ≡ value (stop (satisfies cond (sign_of left.cnt (number m)))) =
      rw (right_loop, test) (rw counted_right refl) in
    rw (val_cmp, lefts) (rw (left_loop, rights) (rw inner refl))

-- A variable of several values compared with a decimal number below 2 ^ 32, under a condition other
-- than `IN_COND`: `check_comp` compares the number of the words that its text has, but takes 0 for
-- this number where there is only one word.
pub check_comp-count :
    (C : Context) (w : World) (cond : Cond) (i j : Info) (l r l' r' : Node) (path s word : Bytes)
    (words : List Bytes) (m : Numeral)
    → C.handle ≡ true
    → i.string ≡ some (marker ++ (path ++ (b')' ∷ [])))
    → no_paren path ≡ true
    → is_self_path (path ++ (b')' ∷ [])) ≡ false
    → C.get_var_ref w.log path ≡ text_ref s true
    → strtok s ≡ word ∷ words
    → is_in cond ≡ false
    → j.val.cnt ≡ 0
    → j.val.val_type ≡ int_type
    → j.val.val ≡ some (text m)
    → IsUnsigned m
    → check_comp C (some cond) (node var_op i l r) (node val_op j l' r') w
      ≡ value (satisfies cond (sign_of (seen_count (strtok s)) (number m)), w)
unfolding check_comp eval_va
check_comp-count C w cond i j l r l' r' path s word words m connected named plain other found split
      no_in n t h u =
    let (v, added, made, is_list) = var_value-words s word words true split in
    let kind = add_words-kind text_type words (first_word word true) v added in
    let looked : eval_var C w (marker ++ (path ++ (b')' ∷ []))) ≡ value (true, v) =
      eval_var-path C w path connected plain other ∙ ap var_value found ∙ made in
    let left : eval_va C (node var_op i l r) w ≡ value (true, some v, w) =
      rw (eval_va, named) (rw looked refl) in
    let lengths : v.cnt ≡ seen_count (strtok s) =
      counted word words v added is_list ∙ ap seen_count (sym split) in
    let compared = val_cmp-count v (record j.val { free_me = false }) cond m kind.0 no_in n t h u in
    let go_on : not (same_type v.val_type j.val.val_type) && not v.ismulti ≡ false =
      ground (arith, kind.0) in
    rw (check_comp, left) (rw go_on (rw compared (rw lengths refl)))
