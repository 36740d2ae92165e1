-- ===== src/Syntax/Lists.antt =====
-- Lists of nodes: what `append` builds, and how `check_syn` goes through it.
use vyatta_cfg.Prelude.Outcome.{Outcome, value, exited, undefined, ◌>>=◌}
use vyatta_cfg.Prelude.{
  ℕ, ◌≡◌, refl, sym, ap, ◌∙◌, Bool, true, false, not, ◌||◌, List, [], ◌∷◌, ◌++◌, append-nil,
  append_assoc, Option, Bytes, ◌==◌,
}
use vyatta_cfg.Syntax.Nodes.{list_op, Node, null, node, blank, append}
use vyatta_cfg.Syntax.{Context, World, is_null, listed, check_syn}

-- The list that the grammar makes of elements with their marks, by one `append` for each.
abbrev pub appended : Node → List (ℕ × Node) → Node
appended l [] = l
appended l ((aux, n) ∷ es) = appended (append l n aux) es

-- The chain from the head to the tail.
abbrev chain : List (ℕ × Node) → Node
chain [] = null
chain ((aux, n) ∷ es) = node list_op (record blank { aux = aux }) n (chain es)

append-chain :
    (es : List (ℕ × Node)) (n : Node) (aux : ℕ)
    → append (chain es) n aux ≡ chain (es ++ ((aux, n) ∷ []))
unfolding append
append-chain [] n aux = refl
append-chain ((a, m) ∷ es) n aux =
    ap (node list_op (record blank { aux = a }) m) (append-chain es n aux)

appended-chain : (es fs : List (ℕ × Node)) → appended (chain es) fs ≡ chain (es ++ fs)
appended-chain es [] = ap chain (sym (append-nil es))
appended-chain es ((aux, n) ∷ fs) =
    ap (λ l. appended l fs) (append-chain es n aux)
    ∙ appended-chain (es ++ ((aux, n) ∷ [])) fs
    ∙ ap chain (append_assoc es ((aux, n) ∷ []) fs)

module _ (C : Context) (msg : Option Bytes) (format : Bool) where
  -- The elements in order, as long as they hold. An element with a mark counts in a commit only.
  abbrev pub check_all : List (ℕ × Node) → World → Outcome (Bool × World)
  check_all [] w = value (true, w)
  check_all ((aux, n) ∷ es) w = elim (C.in_commit || (aux == 0)) [
    | true ↦ do
      e ← check_syn C msg format n w
      elim e.0 [ true ↦ check_all es e.1 | false ↦ value (false, e.1) ]
    | false ↦ check_all es w
  ]

  -- What follows the check of an element, in the code and in `check_all`.
  abbrev code_rest : List (ℕ × Node) → Outcome (Bool × World) → Outcome (Bool × World)
  code_rest es o = o >>= λ first. elim (not first.0 || is_null (chain es)) [
    | true ↦ value first
    | false ↦ check_syn C msg format (chain es) first.1
  ]

  abbrev rest_of : List (ℕ × Node) → Outcome (Bool × World) → Outcome (Bool × World)
  rest_of es o = o >>= λ e. elim e.0 [ true ↦ check_all es e.1 | false ↦ value (false, e.1) ]

  -- The code stops where no element is left; `check_all` goes on with the empty list.
  abbrev Follows : List (ℕ × Node) → Type 0
  Follows [] = Unit
  Follows (e ∷ es) = (w : World) → check_syn C msg format (chain (e ∷ es)) w ≡ check_all (e ∷ es) w

  same_rest :
      (es : List (ℕ × Node)) (o : Outcome (Bool × World))
      → Follows es
      → code_rest es o ≡ rest_of es o
  same_rest es exited f = refl
  same_rest es undefined f = refl
  same_rest es (value (false, w)) f = refl
  same_rest [] (value (true, w)) f = refl
  same_rest (e ∷ es) (value (true, w)) f = f w

  listed_rest :
      (test : Bool) (es : List (ℕ × Node)) (checked : Outcome (Bool × World)) (w : World)
      → Follows es
      → code_rest es (listed C test checked w)
        ≡ elim test [ true ↦ rest_of es checked | false ↦ check_all es w ]
  listed_rest true es checked w f = same_rest es checked f
  listed_rest false es checked w f = same_rest es (value (true, w)) f

  check_syn-list :
      (aux : ℕ) (n : Node) (es : List (ℕ × Node)) (w : World)
      → check_syn C msg format (chain ((aux, n) ∷ es)) w
        ≡ code_rest es (listed C (C.in_commit || (aux == 0)) (check_syn C msg format n w) w)
  unfolding check_syn
  check_syn-list aux n es w = refl

  chain-Follows : (es : List (ℕ × Node)) → Follows es
  chain-Follows [] = tt
  chain-Follows ((aux, n) ∷ es) = λ w.
      check_syn-list aux n es w
      ∙ listed_rest (C.in_commit || (aux == 0)) es (check_syn C msg format n w) w (chain-Follows es)

  -- On a list that was made by `append`, element by element, `check_syn` checks the elements in the
  -- order in which they were appended, up to the first that fails, and passes those over that are for
  -- the commit alone unless it is in one.
  check_syn-appended :
      (es : List (ℕ × Node)) (aux : ℕ) (n : Node) (w : World)
      → check_syn C msg format (appended null ((aux, n) ∷ es)) w ≡ check_all ((aux, n) ∷ es) w
  check_syn-appended es aux n w =
      ap (λ l. check_syn C msg format l w) (appended-chain [] ((aux, n) ∷ es))
      ∙ chain-Follows ((aux, n) ∷ es) w
