-- ===== src/Syntax/Effects.antt =====
-- What the evaluation of a tree leaves alone, and what it does to the log.
pub mod Order
pub use vyatta_cfg.Syntax.Effects.Order.{Extends, Ensures, world_of}
use vyatta_cfg.Syntax.Effects.Order.{
  Extends-same, Extends-trans, Extends-logged, Grows, Extends-Grows, Grows-trans, Ensures-map,
  Ensures-bind, then_Extends, on_test, on_if, if_Extends, on_value, Extends-buffer,
}
use vyatta_cfg.Compare.{Cond, operands, same_type, val_cmp}
use vyatta_cfg.Expand.{Expanded, done, failed, marker, before_paren, expand_string}
use vyatta_cfg.Prelude.Outcome.{Outcome, value, exited, undefined, ◌>>=◌}
use vyatta_cfg.Prelude.{
  ℕ, ◌≡◌, refl, sym, ap, ◌∙◌, Bool, true, false, not, ◌||◌, ◌&&◌, List, [], ◌∷◌, ◌++◌, append-nil,
  append_assoc, Option, none, some, Bytes, ◌==◌, drop, starts_with, if◌then◌else◌,
}
use vyatta_cfg.Syntax.Nodes.{
  list_op, help_op, exec_op, pattern_op, or_op, and_op, not_op, cond_op, val_op, var_op, b_quote_op,
  assign_op, Node, null, node,
}
use vyatta_cfg.Syntax.{
  Event, quoted, printed, assigned, help_text, Context, World, logged, refs, expand, eval_var,
  eval_va, check_comp, system_out, run_command, run_commands, assign, match_pattern, print_help,
  is_null, listed, check_syn, string_of, or_zeroed, cond_of,
}
use vyatta_cfg.Value.{Value, text_type, zeroed}

module _ (C : Context) where
  expand-Extends : (w : World) (s : Option Bytes) → Ensures Extends world_of w (expand C w s)
  unfolding expand
  expand-Extends w none = tt
  expand-Extends w (some s) = by_result (expand_string (refs C w) w.len w.alloc s)
    where
      by_result :
          (o : Outcome Expanded)
          → Ensures Extends world_of w (elim o [
            | value (done b) ↦
                value (true, record w { len = b.len; alloc = b.alloc; exe_string = b.out })
            | value (failed b) ↦ value (false, record w { len = b.len; alloc = b.alloc })
            | exited ↦ exited
            | undefined ↦ undefined
          ])
      by_result (value (done b)) = Extends-buffer w b.len b.alloc b.out
      by_result (value (failed b)) = Extends-buffer w b.len b.alloc w.exe_string
      by_result exited = tt
      by_result undefined = tt

  run_command-Extends :
      (s : Option Bytes) (w : World) → Ensures Extends world_of w (run_command C s w)
  unfolding run_command system_out
  run_command-Extends s w =
      then_Extends world_of world_of w (expand C w s) _ (expand-Extends w s) λ e. after e.0 e.1
    where
      after :
          (b : Bool) (v : World)
          → Ensures Extends world_of v
              (elim b [ false ↦ value (false, v) | true ↦ value (system_out C v) ])
      after false v = Extends-same v
      after true v = Extends-logged v _

  run_commands-Grows :
      (s : Option Bytes) (vs : List (Option Bytes)) (w : World)
      → Ensures Grows world_of w (run_commands C s vs w)
  unfolding run_commands
  run_commands-Grows s [] w = Extends-Grows (Extends-same w)
  run_commands-Grows s (v ∷ vs) w =
      let w' : World = record w { at_string = elim v [ none ↦ [] | some t ↦ t ] } in
      Ensures-bind Grows Grows world_of world_of w (run_command C s w') _
        (λ u u' h k. Grows-trans h k)
        (Ensures-map Extends Grows world_of (run_command C s w') (λ u h. Grows_from h)
          (run_command-Extends s w'))
        (λ e. after e.0 e.1 (λ u. run_commands-Grows s vs u))
    where
      Grows_from : {at : Bytes} {u : World} → Extends (record w { at_string = at }) u → Grows w u
      Grows_from h = record {
        more = h.more;
        log = h.log;
        validate_value = h.validate_value;
        in_validate = h.in_validate;
      }

      after :
          (b : Bool) (u : World)
          → ((u' : World) → Ensures Grows world_of u' (run_commands C s vs u'))
          → Ensures Grows world_of u
              (elim b [ false ↦ value (false, u) | true ↦ run_commands C s vs u ])
      after false u ih = Extends-Grows (Extends-same u)
      after true u ih = ih u

  eval_va-Extends : (n : Node) (w : World) → Ensures Extends (λ e. e.2) w (eval_va C n w)
  unfolding eval_va
  eval_va-Extends null w = tt
  eval_va-Extends (node var_op i l r) w = named i.string
    where
      kept :
          (o : Outcome (Bool × Value))
          → Ensures Extends
              (λ (e : Bool × Option Value × World). e.2)
              w
              (o >>= λ e. value (e.0, some e.1, w))
      kept (value e) = Extends-same w
      kept exited = tt
      kept undefined = tt

      named :
          (o : Option Bytes)
          → Ensures Extends
              (λ (e : Bool × Option Value × World). e.2)
              w
              (elim o [
                | none ↦ undefined
                | some s ↦ eval_var C w s >>= λ e. value (e.0, some e.1, w)
              ])
      named none = tt
      named (some s) = kept (eval_var C w s)
  eval_va-Extends (node val_op i l r) w = Extends-same w
  eval_va-Extends (node b_quote_op i l r) w =
      then_Extends world_of (λ e. e.2) w (expand C w i.string) _ (expand-Extends w i.string)
        λ e. after e.0 e.1
    where
      printed_text :
          (u : World) (exe : Bytes) (o : Option Bytes)
          → Ensures Extends
              (λ (e : Bool × Option Value × World). e.2)
              u
              (elim o [
                | none ↦ value (false, none, logged u (quoted exe))
                | some text ↦ value (
                  true,
                  some (record zeroed { val_type = text_type; free_me = true; val = some text }),
                  logged u (quoted exe),
                )
              ])
      printed_text u exe none = Extends-logged u (quoted exe)
      printed_text u exe (some text) = Extends-logged u (quoted exe)

      after :
          (b : Bool) (u : World)
          → Ensures Extends
              (λ (e : Bool × Option Value × World). e.2)
              u
              (elim b [
                | false ↦ value (true, none, u)
                | true ↦ elim (C.popen u.log u.exe_string) [
                  | none ↦ value (false, none, logged u (quoted u.exe_string))
                  | some text ↦ value (
                    true,
                    some (record zeroed { val_type = text_type; free_me = true; val = some text }),
                    logged u (quoted u.exe_string),
                  )
                ]
              ])
      after false u = Extends-same u
      after true u = printed_text u u.exe_string (C.popen u.log u.exe_string)
  eval_va-Extends (node list_op i l r) w = Extends-same w
  eval_va-Extends (node help_op i l r) w = Extends-same w
  eval_va-Extends (node exec_op i l r) w = Extends-same w
  eval_va-Extends (node pattern_op i l r) w = Extends-same w
  eval_va-Extends (node or_op i l r) w = Extends-same w
  eval_va-Extends (node and_op i l r) w = Extends-same w
  eval_va-Extends (node not_op i l r) w = Extends-same w
  eval_va-Extends (node cond_op i l r) w = Extends-same w
  eval_va-Extends (node assign_op i l r) w = Extends-same w

  check_comp-Extends :
      (c : Option Cond) (l r : Node) (w : World) → Ensures Extends world_of w (check_comp C c l r w)
  unfolding check_comp
  check_comp-Extends c l r w =
      then_Extends (λ e. e.2) world_of w (eval_va C l w) _ (eval_va-Extends l w)
        λ left.
          on_test world_of left.2 left.0 _ _
            (then_Extends (λ e. e.2) world_of left.2 (eval_va C r left.2) _
              (eval_va-Extends r left.2)
              λ right.
                on_test world_of right.2 right.0 _ _ (compared left.1 right) (Extends-same right.2))
            (Extends-same left.2)
    where
      in_case : Option Value → Bool × Option Value × World → Option Cond → Outcome (Bool × World)
      in_case left right o = elim o [
        | none ↦ undefined
        | some c' ↦ (do b ← val_cmp (or_zeroed C left) (or_zeroed C right.1) c'; value (b, right.2))
      ]

      compared :
          (left : Option Value) (right : Bool × Option Value × World)
          → Ensures Extends world_of right.2 (
              let lv = or_zeroed C left in
              let rv = or_zeroed C right.1 in
              if not (same_type lv.val_type rv.val_type) && not lv.ismulti
              then value (false, right.2)
              else elim c [
                | none ↦ undefined
                | some c' ↦ (do b ← val_cmp lv rv c'; value (b, right.2))
              ])
      compared left right =
          on_if world_of right.2
            (not (same_type (or_zeroed C left).val_type (or_zeroed C right.1).val_type)
              && not (or_zeroed C left).ismulti)
            (value (false, right.2)) (in_case left right c) (Extends-same right.2) (by_cond c)
        where
          by_cond :
              (c : Option Cond)
              → Ensures Extends world_of right.2 (elim c [
                | none ↦ undefined
                | some c' ↦ (do
                  b ← val_cmp (or_zeroed C left) (or_zeroed C right.1) c'
                  value (b, right.2))
              ])
          by_cond none = tt
          by_cond (some c') = on_value right.2 (val_cmp (or_zeroed C left) (or_zeroed C right.1) c')

  assign-Extends :
      (s : Option Bytes) (v : Value) (w : World) → Ensures Extends world_of w (assign C s v w)
  unfolding assign
  assign-Extends none v w = tt
  assign-Extends (some s) v w =
      on_if world_of w (not (starts_with marker s)) _ _ (Extends-same w) (by_val v.val)
    where
      handled :
          (b : Bool) (t : Bytes)
          → Extends w
              (elim b [ true ↦ logged w (assigned (before_paren (drop 5 s)) t) | false ↦ w ])
      handled true t = Extends-logged w (assigned (before_paren (drop 5 s)) t)
      handled false t = Extends-same w

      by_val :
          (o : Option Bytes)
          → Ensures Extends world_of w (elim o [
            | none ↦ value (true, w)
            | some t ↦ value (
              true,
              elim C.handle [ true ↦ logged w (assigned (before_paren (drop 5 s)) t) | false ↦ w ],
            )
          ])
      by_val none = Extends-same w
      by_val (some t) = handled C.handle t

  print_help-Extends :
      (msg : Option Bytes) (format : Bool) (help : Option Bytes) (w : World)
      → Ensures Extends (λ u. u) w (print_help C msg format help w)
  unfolding print_help
  print_help-Extends msg format help w =
      then_Extends world_of (λ u. u) w (expand C w help) _ (expand-Extends w help)
        λ e.
          if_Extends e.1 (e.0 && C.out_stream) _
            (Extends-logged e.1 (printed (help_text msg format e.1.exe_string)))

  -- Whatever tree is checked, and whatever happens outside: where `check_syn` returns, the at string and
  -- the value that is validated are what they were, and the commands, assignments and messages of
  -- before are still in the log, with those of the tree behind them.
  pub check_syn-Extends :
      (msg : Option Bytes) (format : Bool) (n : Node) (w : World)
      → Ensures Extends world_of w (check_syn C msg format n w)
  unfolding check_syn
  check_syn-Extends msg format null w = tt
  check_syn-Extends msg format (node list_op i l r) w =
      then_Extends world_of world_of w _ _
        (elem (C.in_commit || (i.aux == 0)) (check_syn C msg format l w)
          (check_syn-Extends msg format l w))
        λ first.
          on_test world_of first.1 (not first.0 || is_null r) _ _ (Extends-same first.1)
            (check_syn-Extends msg format r first.1)
    where
      elem :
          (b : Bool) (o : Outcome (Bool × World))
          → Ensures Extends world_of w o
          → Ensures Extends world_of w (listed C b o w)
      elem true o h = h
      elem false o h = Extends-same w
  check_syn-Extends msg format (node help_op i l r) w =
      then_Extends world_of world_of w (check_syn C msg format l w) _
        (check_syn-Extends msg format l w)
        λ first. on_test world_of first.1 first.0 _ _ (Extends-same first.1) (
          then_Extends (λ u. u) world_of first.1 (print_help C msg format (string_of C r) first.1) _
            (print_help-Extends msg format (string_of C r) first.1) λ u. Extends-same u)
  check_syn-Extends msg format (node assign_op i l r) w =
      then_Extends (λ e. e.2) world_of w (eval_va C r w) _ (eval_va-Extends r w)
        λ right.
          on_test world_of right.2 (not right.0 || not ((or_zeroed C right.1).cnt == 0)) _ _
            (Extends-same right.2) (assign-Extends (string_of C l) (or_zeroed C right.1) right.2)
  check_syn-Extends msg format (node exec_op i l r) w =
      on_test world_of w w.in_validate _ _
        (restored (run_commands C (string_of C l) (operands w.validate_value) w)
          (run_commands-Grows (string_of C l) (operands w.validate_value) w))
        (run_command-Extends (string_of C l) w)
    where
      restored :
          (o : Outcome (Bool × World))
          → Ensures Grows world_of w o
          → Ensures Extends world_of w
              (o >>= λ e. value (e.0, record e.1 { at_string = w.at_string }))
      restored (value e) h = record {
        more = h.more;
        log = h.log;
        at_string = refl;
        validate_value = h.validate_value;
        in_validate = h.in_validate;
      }
      restored exited h = tt
      restored undefined h = tt
  check_syn-Extends msg format (node pattern_op i l r) w =
      then_Extends (λ e. e.2) world_of w (eval_va C l w) _ (eval_va-Extends l w)
        λ left. on_value left.2 (match_pattern C (string_of C r) left.0 left.1)
  check_syn-Extends msg format (node or_op i l r) w =
      then_Extends world_of world_of w (check_syn C msg format l w) _
        (check_syn-Extends msg format l w)
        λ first.
          on_test world_of first.1 first.0 _ _ (Extends-same first.1)
            (check_syn-Extends msg format r first.1)
  check_syn-Extends msg format (node and_op i l r) w =
      then_Extends world_of world_of w (check_syn C msg format l w) _
        (check_syn-Extends msg format l w)
        λ first.
          on_test world_of first.1 first.0 _ _ (check_syn-Extends msg format r first.1)
            (Extends-same first.1)
  check_syn-Extends msg format (node not_op i l r) w =
      then_Extends world_of world_of w (check_syn C msg format l w) _
        (check_syn-Extends msg format l w) λ first. Extends-same first.1
  check_syn-Extends msg format (node cond_op i l r) w = check_comp-Extends (cond_of i.aux) l r w
  check_syn-Extends msg format (node val_op i l r) w = tt
  check_syn-Extends msg format (node var_op i l r) w = tt
  check_syn-Extends msg format (node b_quote_op i l r) w = tt
