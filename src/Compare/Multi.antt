-- ===== src/Compare/Multi.antt =====
-- The loops of `val_cmp` over values with several strings.
use vyatta_cfg.Compare.{
  Cond, in_cond, Sign, same, go, stop, is_in, satisfies, strcmp, compare_as, operands, own_type,
  differs, is_count_test, compare_pass, right_loop, left_loop, val_cmp,
}
use vyatta_cfg.Prelude.Outcome.{value}
use vyatta_cfg.Prelude.{
  ℕ, ◌+◌, ◌≡◌, refl, sym, ap, ◌∙◌, inl, inr, Bool, true, false, not, ◌&&◌, ◌||◌, List, [], ◌∷◌, map,
  Option, some, Bytes, if◌then◌else◌, Bool-cases, arith, str_eq, fun_ext,
}
use vyatta_cfg.Value.{Value, text_type}

module _ {ℓ} {A : Type ℓ} where
  abbrev pub all : (A → Bool) → List A → Bool
  all p [] = true
  all p (x ∷ xs) = p x && all p xs

  abbrev pub any : (A → Bool) → List A → Bool
  any p [] = false
  any p (x ∷ xs) = p x || any p xs

  abbrev pub last_of : A → List A → A
  last_of x [] = x
  last_of x (y ∷ ys) = last_of y ys

-- Two values whose strings are all compared, by a function of the two strings alone.
module _ (left right : Value) (cond : Cond) (cmp : Bytes → Bytes → Sign)
    (pure : (i : ℕ) (l r : Bytes) (res : Sign)
      → compare_as left.val_type (own_type right i) l r res ≡ value (cmp l r))
    (agree : (i : ℕ) → differs left.val_type (own_type right i) ≡ false)
    (plain : is_count_test left right cond ≡ false) where
  abbrev holds : Bytes → Bytes → Bool
  holds l r = satisfies cond (cmp l r)

  module _ (l r : Bytes) (rs : List (Option Bytes)) (rcur : ℕ) (ret : Bool) (res : Sign) where
    step_stop :
        holds l r ≡ false
        → is_in cond ≡ false
        → right_loop left right cond (some l) (some r ∷ rs) rcur ret res ≡ value (stop false)
    unfolding right_loop compare_pass
    step_stop e o = ground (arith, pure rcur l r res, agree rcur, plain)

    step_break :
        holds l r ≡ true
        → is_in cond ≡ true
        → right_loop left right cond (some l) (some r ∷ rs) rcur ret res ≡ value (go true (cmp l r))
    unfolding right_loop compare_pass
    step_break e o = ground (arith, pure rcur l r res, agree rcur, plain)

    step_next :
        holds l r ≡ not (is_in cond)
        → right_loop left right cond (some l) (some r ∷ rs) rcur ret res
          ≡ right_loop left right cond (some l) rs (rcur + 1) (not (is_in cond)) (cmp l r)
    unfolding right_loop compare_pass
    step_next e = ground (arith, pure rcur l r res, agree rcur, plain)

  right_loop_nil :
      (lval : Option Bytes) (rcur : ℕ) (ret : Bool) (res : Sign)
      → right_loop left right cond lval [] rcur ret res ≡ value (go ret res)
  unfolding right_loop
  right_loop_nil lval rcur ret res = refl

  right_loop-all :
      (l r : Bytes) (rs : List Bytes) (rcur : ℕ) (ret : Bool) (res : Sign)
      → is_in cond ≡ false
      → (s : Sign) × (right_loop left right cond (some l) (map some (r ∷ rs)) rcur ret res
          ≡ value (if all (holds l) (r ∷ rs) then go true s else stop false))
  right_loop-all l r [] rcur ret res o = elim (Bool-cases (holds l r)) [
    | inl e ↦ (
      cmp l r,
      ground
          (arith, step_next l r [] rcur ret res, right_loop_nil (some l) (rcur + 1) true (cmp l r)),
    )
    | inr e ↦ (cmp l r, ground (arith, step_stop l r [] rcur ret res e o))
  ]
  right_loop-all l r (r' ∷ rs) rcur ret res o =
      let (s, ih) = right_loop-all l r' rs (rcur + 1) true (cmp l r) o in
      elim (Bool-cases (holds l r)) [
        | inl e ↦ (s, step_next l r (map some (r' ∷ rs)) rcur ret res (rw o e) ∙ rw (o, e) ih)
        | inr e ↦ (s, rw e (step_stop l r (map some (r' ∷ rs)) rcur ret res e o))
      ]

  right_loop-any :
      (l r : Bytes) (rs : List Bytes) (rcur : ℕ) (ret : Bool) (res : Sign)
      → is_in cond ≡ true
      → (s : Sign) × (right_loop left right cond (some l) (map some (r ∷ rs)) rcur ret res
          ≡ value (go (any (holds l) (r ∷ rs)) s))
  right_loop-any l r [] rcur ret res o = elim (Bool-cases (holds l r)) [
    | inl e ↦ (cmp l r, rw e (step_break l r [] rcur ret res e o))
    | inr e ↦ (
      cmp l r,
      ground (
        arith,
        step_next l r [] rcur ret res,
        right_loop_nil (some l) (rcur + 1) false (cmp l r),
      ),
    )
  ]
  right_loop-any l r (r' ∷ rs) rcur ret res o =
      let (s, ih) = right_loop-any l r' rs (rcur + 1) false (cmp l r) o in
      elim (Bool-cases (holds l r)) [
        | inl e ↦ (cmp l r, rw e (step_break l r (map some (r' ∷ rs)) rcur ret res e o))
        | inr e ↦ (s, step_next l r (map some (r' ∷ rs)) rcur ret res (rw o e) ∙ rw (o, e) ih)
      ]

  module _ (r : Bytes) (rs : List Bytes) (rights : operands right ≡ map some (r ∷ rs)) where
    module _ (l : Bytes) (ls : List (Option Bytes)) (ret : Bool) (res : Sign) where
      left_step_go :
          {b : Bool} {s : Sign}
          → right_loop left right cond (some l) (map some (r ∷ rs)) 0 ret res ≡ value (go b s)
          → left_loop left right cond (some l ∷ ls) ret res ≡ left_loop left right cond ls b s
      unfolding left_loop
      left_step_go e = rw (rights, e, left_loop)

      left_step_stop :
          {b : Bool}
          → right_loop left right cond (some l) (map some (r ∷ rs)) 0 ret res ≡ value (stop b)
          → left_loop left right cond (some l ∷ ls) ret res ≡ value b
      unfolding left_loop
      left_step_stop e = rw (rights, e, left_loop)

    left_loop_nil : (ret : Bool) (res : Sign) → left_loop left right cond [] ret res ≡ value ret
    unfolding left_loop
    left_loop_nil ret res = refl

    left_loop-all :
        (l : Bytes) (ls : List Bytes) (ret : Bool) (res : Sign)
        → is_in cond ≡ false
        → left_loop left right cond (map some (l ∷ ls)) ret res
          ≡ value (all (λ x. all (holds x) (r ∷ rs)) (l ∷ ls))
    left_loop-all l [] ret res o =
        let (s, pass) = right_loop-all l r rs 0 ret res o in
        elim (Bool-cases (all (holds l) (r ∷ rs))) [
          | inl e ↦ left_step_go l [] ret res (rw e at pass) ∙ left_loop_nil true s ∙ rw e
          | inr e ↦ left_step_stop l [] ret res (rw e at pass) ∙ rw e
        ]
    left_loop-all l (l' ∷ ls) ret res o =
        let (s, pass) = right_loop-all l r rs 0 ret res o in
        elim (Bool-cases (all (holds l) (r ∷ rs))) [
          | inl e ↦
              left_step_go l (map some (l' ∷ ls)) ret res (rw e at pass)
              ∙ left_loop-all l' ls true s o
              ∙ ap (λ b. value (b && all (λ x. all (holds x) (r ∷ rs)) (l' ∷ ls))) (sym e)
          | inr e ↦
              left_step_stop l (map some (l' ∷ ls)) ret res (rw e at pass)
              ∙ ap (λ b. value (b && all (λ x. all (holds x) (r ∷ rs)) (l' ∷ ls))) (sym e)
        ]

    left_loop-last :
        (l : Bytes) (ls : List Bytes) (ret : Bool) (res : Sign)
        → is_in cond ≡ true
        → left_loop left right cond (map some (l ∷ ls)) ret res
          ≡ value (any (holds (last_of l ls)) (r ∷ rs))
    left_loop-last l [] ret res o =
        let (s, pass) = right_loop-any l r rs 0 ret res o in
        left_step_go l [] ret res pass ∙ left_loop_nil _ s
    left_loop-last l (l' ∷ ls) ret res o =
        let (s, pass) = right_loop-any l r rs 0 ret res o in
        left_step_go l (map some (l' ∷ ls)) ret res pass ∙ left_loop-last l' ls _ s o

compare_as_text :
    (left right : Value)
    → left.val_type ≡ text_type
    → (i : ℕ) (l r : Bytes) (res : Sign)
    → compare_as left.val_type (own_type right i) l r res ≡ value (strcmp l r)
unfolding compare_as
compare_as_text left right t i l r res = rw (t, compare_as)

in_str_eq : (x y : Bytes) → satisfies in_cond (strcmp x y) ≡ str_eq x y
unfolding satisfies strcmp str_eq
in_str_eq [] [] = refl
in_str_eq [] (d ∷ t) = refl
in_str_eq (c ∷ s) [] = refl
in_str_eq (c ∷ s) (d ∷ t) = ground (arith, in_str_eq s t)

is_count_test_in : (left right : Value) → is_count_test left right in_cond ≡ false
unfolding is_count_test
is_count_test_in left right = ground arith

-- A text value with the strings `ls`, compared with a value with the strings `rs` none of which has
-- a type other than text, where the number of strings is not what is asked for. Under every
-- condition but `IN_COND`, `val_cmp` is true exactly when all pairs satisfy it by `strcmp`.
pub val_cmp-text_all :
    (left right : Value) (cond : Cond) (l r : Bytes) (ls rs : List Bytes)
    → left.val_type ≡ text_type
    → operands left ≡ map some (l ∷ ls)
    → operands right ≡ map some (r ∷ rs)
    → ((i : ℕ) → differs text_type (own_type right i) ≡ false)
    → is_count_test left right cond ≡ false
    → is_in cond ≡ false
    → val_cmp left right cond
      ≡ value (all (λ x. all (λ y. satisfies cond (strcmp x y)) (r ∷ rs)) (l ∷ ls))
unfolding val_cmp
val_cmp-text_all left right cond l r ls rs t lefts rights agree plain o = rw lefts (
    left_loop-all left right cond strcmp (compare_as_text left right t) (rw (sym t) at agree) plain
      r rs rights l ls false same o)

-- The same under `IN_COND`: `val_cmp` says whether the last string of the left value is among the
-- strings of the right one, whatever the strings before it are.
pub val_cmp-text_in :
    (left right : Value) (l r : Bytes) (ls rs : List Bytes)
    → left.val_type ≡ text_type
    → operands left ≡ map some (l ∷ ls)
    → operands right ≡ map some (r ∷ rs)
    → ((i : ℕ) → differs text_type (own_type right i) ≡ false)
    → val_cmp left right in_cond ≡ value (any (str_eq (last_of l ls)) (r ∷ rs))
unfolding val_cmp
val_cmp-text_in left right l r ls rs t lefts rights agree =
    rw lefts (
      left_loop-last left right in_cond strcmp (compare_as_text left right t) (rw (sym t) at agree)
        (is_count_test_in left right) r rs rights l ls false same refl)
    ∙ ap (λ p. value (any p (r ∷ rs))) (fun_ext (in_str_eq (last_of l ls)))
