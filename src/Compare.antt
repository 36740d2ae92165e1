-- ===== src/Compare.antt =====
-- Comparison of values: `val_cmp` of src/cliexec/cli_new.c, with its tables `cond1`, `cond2`,
-- `cond_formats` and `cond_format_lens`.
pub mod Ipv6
pub mod Scanf
pub mod Multi
pub mod Decimal
pub mod Ipv4
use vyatta_cfg.Compare.Ipv6.{scan_ipv6}
use vyatta_cfg.Compare.Scanf.{Directive, unsigned, hex, lit, sscanf}
use vyatta_cfg.Prelude.Outcome.{Outcome, value, exited, undefined, ◌>>=◌}
use vyatta_cfg.Prelude.{
  ℕ, zero, suc, ◌+◌, Bool, true, false, not, ◌&&◌, ◌||◌, List, [], ◌∷◌, ◌++◌, Option, none, some,
  Bytes, ltb, ◌==◌, if◌then◌else◌, length, take, replicate, get_elem?,
}
use vyatta_cfg.Value.{
  Value, ValType, error_type, int_type, ipv4_type, ipv4net_type, ipv6_type, ipv6net_type,
  macaddr_type, domain_type, text_type, bool_type, priority_type,
}

-- `vtw_cond_e`, and the number 0, which none of its constants has.
pub data Cond : Type 0 where
  unset_cond eq_cond ne_cond lt_cond le_cond gt_cond ge_cond in_cond : Cond

-- The results -1, 0 and 1 of a comparison.
pub data Sign : Type 0 where
  less same greater : Sign

-- `none` stands for the 5 in the tables, which no comparison gives.
abbrev pub cond1 : Cond → Option Sign
cond1 unset_cond = none
cond1 eq_cond = some same
cond1 ne_cond = some less
cond1 lt_cond = some less
cond1 le_cond = some same
cond1 gt_cond = some greater
cond1 ge_cond = some same
cond1 in_cond = some same

abbrev pub cond2 : Cond → Option Sign
cond2 unset_cond = none
cond2 eq_cond = some same
cond2 ne_cond = some greater
cond2 lt_cond = some less
cond2 le_cond = some less
cond2 gt_cond = some greater
cond2 ge_cond = some greater
cond2 in_cond = some same

abbrev pub is_sign : Sign → Option Sign → Bool
is_sign less (some less) = true
is_sign same (some same) = true
is_sign greater (some greater) = true
is_sign _ _ = false

abbrev pub is_in : Cond → Bool
is_in in_cond = true
is_in _ = false

-- `(res == cond1[cond]) || (res == cond2[cond])`
unfoldable pub satisfies : Cond → Sign → Bool
satisfies cond res = is_sign res (cond1 cond) || is_sign res (cond2 cond)

abbrev pub sign_of : ℕ → ℕ → Sign
sign_of a b = if ltb a b then less else if ltb b a then greater else same

-- The sign of `strcmp`.
unfoldable pub strcmp : Bytes → Bytes → Sign
strcmp [] [] = same
strcmp [] (d ∷ t) = less
strcmp (c ∷ s) [] = greater
strcmp (c ∷ s) (d ∷ t) =
    let rest = strcmp s t in if ltb c d then less else if ltb d c then greater else rest

-- `cond_formats`; the entries for IPv6 are not used.
abbrev pub cond_format : ValType → List Directive
cond_format int_type = unsigned ∷ []
cond_format ipv4_type =
    unsigned ∷ lit b'.' ∷ unsigned ∷ lit b'.' ∷ unsigned ∷ lit b'.' ∷ unsigned ∷ []
cond_format ipv4net_type =
    unsigned
    ∷ lit b'.'
    ∷ unsigned
    ∷ lit b'.'
    ∷ unsigned
    ∷ lit b'.'
    ∷ unsigned
    ∷ lit b'/'
    ∷ unsigned
    ∷ []
cond_format macaddr_type =
    hex ∷ lit b':' ∷ hex ∷ lit b':' ∷ hex ∷ lit b':' ∷ hex ∷ lit b':' ∷ hex ∷ lit b':' ∷ hex ∷ []
cond_format _ = []

-- `cond_format_lens`, and the numbers set in the switch for IPv6
abbrev pub parts_num : ValType → ℕ
parts_num int_type = 1
parts_num ipv4_type = 4
parts_num ipv4net_type = 5
parts_num ipv6_type = 8
parts_num ipv6net_type = 9
parts_num macaddr_type = 6
parts_num _ = 0

-- The loop over `step`. With no step left the result of the last step, or `res` as it was, stays.
unfoldable pub cmp_parts : ℕ → List ℕ → List ℕ → Sign → Sign
cmp_parts zero ls rs res = res
cmp_parts (suc n) (l ∷ ls) (r ∷ rs) res =
    let rest = cmp_parts n ls rs same in if ltb r l then greater else if ltb l r then less else rest
cmp_parts (suc n) _ _ res = res

-- The results of `sscanf` on both sides: `none` where no number was read.
abbrev pub cmp_scanned : ℕ → Option (List ℕ) → Option (List ℕ) → Sign → Sign
cmp_scanned n none none res = res
cmp_scanned n (some ls) none res = greater
cmp_scanned n none (some rs) res = less
cmp_scanned n (some ls) (some rs) res = cmp_parts n ls rs res

-- The nine cells of `left_parts` and `right_parts`, zeroed, after the numbers that were read.
abbrev pub cells9 : Option (List ℕ) → Option (List ℕ)
cells9 none = none
cells9 (some ns) = some (take 9 (ns ++ replicate 9 0))

abbrev pub cmp_ipv6 : ℕ → Option (List ℕ) → Option (List ℕ) → Sign → Outcome Sign
cmp_ipv6 n (some ls) (some rs) res = value (cmp_parts n ls rs res)
cmp_ipv6 n _ _ res = undefined

-- The switch over the type of the left value. The last type is that of the right string where it
-- has one of its own, and `res` is what the pass before left.
unfoldable pub compare_as : ValType → Option ValType → Bytes → Bytes → Sign → Outcome Sign
compare_as ipv6_type rtype l r res = cmp_ipv6 8 (scan_ipv6 l) (scan_ipv6 r) res
compare_as ipv6net_type rtype l r res = cmp_ipv6 9 (scan_ipv6 l) (scan_ipv6 r) res
compare_as text_type rtype l r res = value (strcmp l r)
compare_as bool_type rtype l r res = value (strcmp l r)
compare_as error_type rtype l r res = exited
compare_as domain_type rtype l r res = exited
compare_as priority_type rtype l r res = exited
compare_as t rtype l r res =
    let rformat : List Directive = elim rtype [ none ↦ cond_format t | some u ↦ cond_format u ] in
    value (
      cmp_scanned (parts_num t) (cells9 (sscanf (cond_format t) l)) (cells9 (sscanf rformat r)) res)

-- The strings that a loop over a value visits; `none` is a null pointer or a cell not written.
unfoldable pub operands : Value → List (Option Bytes)
operands v = elim v.cnt [
  | zero ↦ v.val ∷ []
  | suc n ↦ take (suc n) (v.vals ++ replicate (suc n) none)
]

-- The type of string `rcur` of the right value, if it has one of its own that is not `ERROR_TYPE`.
unfoldable pub own_type : Value → ℕ → Option ValType
own_type right rcur = if right.cnt == 0 then none else elim (get_elem? right.val_types rcur) [
  | none ↦ none
  | some none ↦ none
  | some (some error_type) ↦ none
  | some (some t) ↦ some t
]

abbrev pub same_type : ValType → ValType → Bool
same_type error_type error_type = true
same_type int_type int_type = true
same_type ipv4_type ipv4_type = true
same_type ipv4net_type ipv4net_type = true
same_type ipv6_type ipv6_type = true
same_type ipv6net_type ipv6net_type = true
same_type macaddr_type macaddr_type = true
same_type domain_type domain_type = true
same_type text_type text_type = true
same_type bool_type bool_type = true
same_type priority_type priority_type = true
same_type _ _ = false

-- "Compare a multi val array against an int"
unfoldable pub is_count_test : Value → Value → Cond → Bool
is_count_test left right cond =
    left.ismulti && not (is_in cond) && right.cnt == 0 && same_type right.val_type int_type

unfoldable pub count_test : Value → Cond → Bytes → Outcome Bool
count_test left cond rval = elim (sscanf (unsigned ∷ []) rval) [
  | some (n ∷ _) ↦ value (satisfies cond (sign_of left.cnt n))
  | some [] ↦ undefined
  | none ↦ undefined
]

-- What the loops carry from pass to pass: `ret` and `res`; `stop` is a `return` inside them.
pub data Pass : Type 0 where
  go : Bool → Sign → Pass
  stop : Bool → Pass

-- One pass of the inner loop behind the special case, on two strings. In `go true` for `IN_COND`
-- the loop breaks off.
unfoldable pub compare_pass :
    ValType → Cond → Option ValType → Bytes → Bytes → Bool → Sign → Outcome Pass
compare_pass t cond rtype l r ret res = do
  res' ← compare_as t rtype l r res
  let ret' = satisfies cond res'
  value (if not ret' && not (is_in cond) then stop ret' else go ret' res')

abbrev pub differs : ValType → Option ValType → Bool
differs t none = false
differs t (some u) = not (same_type t u)

-- The loop over `rcur`, on the strings of the right value from `rcur` on.
unfoldable pub right_loop :
    Value → Value → Cond → Option Bytes → List (Option Bytes) → ℕ → Bool → Sign → Outcome Pass
right_loop left right cond lval [] rcur ret res = value (go ret res)
right_loop left right cond lval (none ∷ rs) rcur ret res = undefined
right_loop left right cond lval (some r ∷ rs) rcur ret res = elim (is_count_test left right cond) [
  | true ↦ do b ← count_test left cond r; value (stop b)
  | false ↦ elim (differs left.val_type (own_type right rcur)) [
    | true ↦ right_loop left right cond lval rs (rcur + 1) ret res
    | false ↦ elim lval [
      | none ↦ undefined
      | some l ↦ elim (compare_pass left.val_type cond (own_type right rcur) l r ret res) [
        | value (stop b) ↦ value (stop b)
        | value (go b s) ↦ elim (b && is_in cond) [
          | true ↦ value (go b s)
          | false ↦ right_loop left right cond lval rs (rcur + 1) b s
        ]
        | exited ↦ exited
        | undefined ↦ undefined
      ]
    ]
  ]
]

-- The loop over `lcur`.
unfoldable pub left_loop : Value → Value → Cond → List (Option Bytes) → Bool → Sign → Outcome Bool
left_loop left right cond [] ret res = value ret
left_loop left right cond (lval ∷ ls) ret res =
    elim (right_loop left right cond lval (operands right) 0 ret res) [
      | value (stop b) ↦ value b
      | value (go b s) ↦ left_loop left right cond ls b s
      | exited ↦ exited
      | undefined ↦ undefined
    ]

unfoldable pub val_cmp : Value → Value → Cond → Outcome Bool
val_cmp left right cond = left_loop left right cond (operands left) false same
