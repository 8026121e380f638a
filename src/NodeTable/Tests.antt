-- ===== src/NodeTable/Tests.antt =====
-- Runs of the node table, and the theorems at concrete tables.
use agnostic_lora_net.Prelude.{ℕ, ◌∷◌, replicate}
use agnostic_lora_net.NodeId.{NodeId}
use agnostic_lora_net.NodeTable.{NodeTable, NodeRef, init, intern}
use agnostic_lora_net.NodeTable.Pick.{IsValid}
use agnostic_lora_net.NodeTable.Intern.{init-IsValid, intern-IsValid}

abbrev node : ℕ → NodeId
node n = n ∷ replicate 15 0

one : NodeTable
one = (intern init (node 1) 10).0

first : NodeRef
first = (intern init (node 1) 10).1

one-IsValid : IsValid one
unfolding one
one-IsValid = intern-IsValid init (node 1) 10 init-IsValid

intern-IsValid_example : IsValid (intern one (node 2) 20).0
intern-IsValid_example = intern-IsValid one (node 2) 20 one-IsValid
