-- ===== src/Syntax/Nodes.antt =====
-- The nodes of a syntax tree and their lists: `vtw_node` and `vtw_list` of src/cli_cstore.h, and the
-- functions of src/cliexec/cli_new.c that make them. Memory for a node is at hand; the free list is
-- not modelled.
use vyatta_cfg.Prelude.{ℕ, true, false, Option, none, some, Bytes}
use vyatta_cfg.Value.{Value, ValType, error_type, text_type, zeroed, Result, ok, fault}

-- `vtw_oper_e`
pub data Oper : Type 0 where
  list_op help_op exec_op pattern_op or_op and_op : Oper
  not_op cond_op val_op var_op b_quote_op assign_op : Oper

-- The fields of a node besides the operation and the two nodes below.
pub record Info : Type 0 where
  pub string : Option Bytes
  pub aux : ℕ
  pub type : ValType
  pub val : Value

-- `vtw_node *`
pub data Node : Type 0 where
  null : Node
  node : Oper → Info → Node → Node → Node

abbrev pub blank : Info
blank = record { string = none; aux = 0; type = error_type; val = zeroed }

unfoldable pub make_node : Oper → Node → Node → Node
make_node oper left right = node oper blank left right

unfoldable pub make_str_node0 : Bytes → Oper → Node
make_str_node0 s op = node op (record blank { string = some s; type = text_type }) null null

unfoldable pub make_str_node : Bytes → Node
make_str_node s = make_str_node0 s val_op

unfoldable pub make_var_node : Bytes → Node
make_var_node s = make_str_node0 s var_op

-- The node, and the value, which no longer owns its strings.
unfoldable pub make_val_node : Value → Result (Node × Value)
make_val_node val = elim val.free_me [
  | true ↦ ok (node val_op (record blank { val = val }) null null, record val { free_me = false })
  | false ↦ fault
]

-- `append`, on the head of the list: the tail is its last node, at whose right the new one goes.
unfoldable pub append : Node → Node → ℕ → Node
append null n aux = node list_op (record blank { aux = aux }) n null
append (node o i l r) n aux = node o i l (append r n aux)
