-- ===== src/Syntax/Expr.antt =====
-- The meaning of conditions: comparisons of texts under `&&`, `||` and `!`.
use vyatta_cfg.Compare.Decimal.{val_cmp_single}
use vyatta_cfg.Compare.{
  Cond, unset_cond, eq_cond, ne_cond, lt_cond, le_cond, gt_cond, ge_cond, in_cond, satisfies,
  strcmp, is_count_test, same_type, compare_as,
}
use vyatta_cfg.Expand.Pieces.{no_paren}
use vyatta_cfg.Expand.{marker}
use vyatta_cfg.Prelude.Outcome.{value}
use vyatta_cfg.Prelude.{
  ℕ, ◌≡◌, refl, ap, ◌∙◌, Bool, true, false, not, ◌&&◌, ◌||◌, List, [], ◌∷◌, ◌++◌, Option, some,
  Bytes, str, starts_with, Bool-cases, inl, inr,
}
use vyatta_cfg.Syntax.Nodes.{
  or_op, and_op, not_op, cond_op, val_op, Node, null, node, blank, make_node, make_str_node0,
  make_var_node,
}
use vyatta_cfg.Syntax.{
  Event, Context, World, cond_of, strtok, is_self_path, var_value, add_words, eval_var, eval_va,
  check_comp, check_syn,
}
use vyatta_cfg.Syntax.Words.{text_ref, first_word, var_value-split, eval_var-path}
use vyatta_cfg.Value.{Value, text_type, str2val}

-- A constant text, the variable of a path, or `$VAR(@)`.
pub data Operand : Type 0 where
  constant : Bytes → Operand
  variable : Bytes → Operand
  self : Operand

pub data Expr : Type 0 where
  compare : Cond → Operand → Operand → Expr
  both either : Expr → Expr → Expr
  no_more : Expr → Expr

abbrev pub cond_number : Cond → ℕ
cond_number unset_cond = 0
cond_number eq_cond = 1
cond_number ne_cond = 2
cond_number lt_cond = 3
cond_number le_cond = 4
cond_number gt_cond = 5
cond_number ge_cond = 6
cond_number in_cond = 7

-- The nodes that the grammar makes.
abbrev pub operand_node : Operand → Node
operand_node (constant s) =
    node val_op (record blank { val = record (str2val s) { free_me = true } }) null null
operand_node (variable path) = make_var_node (marker ++ (path ++ (b')' ∷ [])))
operand_node self = make_var_node (str "$VAR(@)")

abbrev pub tree : Expr → Node
tree (compare c a b) =
    node cond_op (record blank { aux = cond_number c }) (operand_node a) (operand_node b)
tree (both e f) = make_node and_op (tree e) (tree f)
tree (either e f) = make_node or_op (tree e) (tree f)
tree (no_more e) = make_node not_op (tree e) null

abbrev pub operand_text : (Bytes → Bytes) → Bytes → Operand → Bytes
operand_text store at (constant s) = s
operand_text store at (variable path) = store path
operand_text store at self = at

-- The value of a condition, given the texts of the variables and the one that is validated.
abbrev pub meaning : (Bytes → Bytes) → Bytes → Expr → Bool
meaning store at (compare c a b) =
    satisfies c (strcmp (operand_text store at a) (operand_text store at b))
meaning store at (both e f) = meaning store at e && meaning store at f
meaning store at (either e f) = meaning store at e || meaning store at f
meaning store at (no_more e) = not (meaning store at e)

-- The path of a variable has no `)`, does not begin with `@` alone, and its text is a single word.
abbrev pub IsOperand : (Bytes → Bytes) → Operand → Type 0
IsOperand store (constant s) = Unit
IsOperand store self = Unit
IsOperand store (variable path) =
    (no_paren path ≡ true)
    × (is_self_path (path ++ (b')' ∷ [])) ≡ false)
    × (strtok (store path) ≡ store path ∷ [])

-- The value that is validated is one text.
pub record HasText (v : Value) (at : Bytes) : Type 0 where
  pub is_text : v.val_type ≡ text_type
  pub no_multi : v.ismulti ≡ false
  pub no_cnt : v.cnt ≡ 0
  pub held : v.val ≡ some at

abbrev pub IsExpr : (Bytes → Bytes) → Expr → Type 0
IsExpr store (compare c a b) = IsOperand store a × IsOperand store b
IsExpr store (both e f) = IsExpr store e × IsExpr store f
IsExpr store (either e f) = IsExpr store e × IsExpr store f
IsExpr store (no_more e) = IsExpr store e

cond_of-number : (c : Cond) → cond_of (cond_number c) ≡ some c
cond_of-number unset_cond = refl
cond_of-number eq_cond = refl
cond_of-number ne_cond = refl
cond_of-number lt_cond = refl
cond_of-number le_cond = refl
cond_of-number gt_cond = refl
cond_of-number ge_cond = refl
cond_of-number in_cond = refl

is_count_test-single : (x y : Value) (c : Cond) → x.ismulti ≡ false → is_count_test x y c ≡ false
unfolding is_count_test
is_count_test-single x y c m = rw m refl

module _ (C : Context) (store : Bytes → Bytes) (at : Bytes) (connected : C.handle ≡ true)
    (holds : (log : List Event) (path : Bytes)
      → C.get_var_ref log path ≡ text_ref (store path) false) where
  -- The value of an operand is one text.
  eval_va-operand :
      (a : Operand) (w : World)
      → IsOperand store a
      → HasText w.validate_value at
      → (v : Value) × (eval_va C (operand_node a) w ≡ value (true, some v, w))
        × (v.val_type ≡ text_type)
        × (v.ismulti ≡ false)
        × (v.cnt ≡ 0)
        × (v.val ≡ some (operand_text store at a))
  unfolding starts_with is_self_path eval_va str2val make_var_node make_str_node0 eval_var var_value
      add_words
  eval_va-operand (constant s) w h g = (_, refl, refl, refl, refl, refl)
  eval_va-operand self w h g =
      (record w.validate_value { free_me = false }, refl, g.is_text, g.no_multi, g.no_cnt, g.held)
  eval_va-operand (variable path) w h g =
      let made : var_value (text_ref (store path) false)
          ≡ value (true, first_word (store path) false) =
        var_value-split (store path) (store path) [] false h.2 in
      let looked : eval_var C w (marker ++ (path ++ (b')' ∷ [])))
          ≡ value (true, first_word (store path) false) =
        eval_var-path C w path connected h.0 h.1 ∙ ap var_value (holds w.log path) ∙ made in
      (first_word (store path) false, rw looked refl, refl, refl, refl, refl)

  check_comp-texts :
      (c : Cond) (a b : Operand) (w : World)
      → IsOperand store a
      → IsOperand store b
      → HasText w.validate_value at
      → check_comp C (some c) (operand_node a) (operand_node b) w
        ≡ value (satisfies c (strcmp (operand_text store at a) (operand_text store at b)), w)
  unfolding check_comp compare_as
  check_comp-texts c a b w ha hb g =
      let (x, left, tx, mx, nx, hx) = eval_va-operand a w ha g in
      let (y, right, ty, my, ny, hy) = eval_va-operand b w hb g in
      let plain : is_count_test x y c ≡ false = is_count_test-single x y c mx in
      let compared =
        val_cmp_single x y c (operand_text store at a) (operand_text store at b)
          (strcmp (operand_text store at a) (operand_text store at b)) nx ny hx hy plain
          (rw tx refl) in
      let agree : same_type x.val_type y.val_type ≡ true = rw (tx, ty) refl in
      rw (check_comp, left) (rw right (rw agree (rw compared refl)))

  -- A condition made of comparisons of texts under `&&`, `||` and `!`, whose variables hold one word
  -- each, while the value that is validated is one text: `check_syn` gives its value, and changes nothing.
  pub check_syn-meaning :
      (e : Expr) (msg : Option Bytes) (format : Bool) (w : World)
      → IsExpr store e
      → HasText w.validate_value at
      → check_syn C msg format (tree e) w ≡ value (meaning store at e, w)
  unfolding check_syn make_node
  check_syn-meaning (compare c a b) msg format w h g =
      rw (cond_of-number c) (check_comp-texts c a b w h.0 h.1 g)
  check_syn-meaning (both e f) msg format w h g = elim (Bool-cases (meaning store at e)) [
    | inl yes_e ↦
        rw (check_syn-meaning e msg format w h.0 g)
          (rw yes_e (check_syn-meaning f msg format w h.1 g))
    | inr no_e ↦ rw (check_syn-meaning e msg format w h.0 g) (rw no_e refl)
  ]
  check_syn-meaning (either e f) msg format w h g = elim (Bool-cases (meaning store at e)) [
    | inl yes_e ↦ rw (check_syn-meaning e msg format w h.0 g) (rw yes_e refl)
    | inr no_e ↦
        rw (check_syn-meaning e msg format w h.0 g)
          (rw no_e (check_syn-meaning f msg format w h.1 g))
  ]
  check_syn-meaning (no_more e) msg format w h g = rw (check_syn-meaning e msg format w h g) refl
