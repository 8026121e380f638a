-- ===== src/Neighbors/Tests.antt =====
-- Runs of the neighbour table, and the theorems at concrete tables.
use agnostic_lora_net.Prelude.{
  ℕ, ◌≡◌, refl, true, ◌∷◌, some, replicate, get_or, get_elem?, any, find, find_slot, bytes_eq,
}
use agnostic_lora_net.NodeId.{NodeId}
use agnostic_lora_net.Float.Fixed.{Fixed, pos, fixed}
use agnostic_lora_net.Neighbors.{
  Neighbor, NeighborTable, init, no_neighbor, heard, alloc_alias, alloc_loop, neighbor_by_link,
  set_their_alias,
}
use agnostic_lora_net.Neighbors.Valid.{IsValid, set_their_alias-IsValid, neighbor_by_link_lem}
use agnostic_lora_net.Neighbors.Heard.{init-IsValid, heard-IsValid}

abbrev node : ℕ → NodeId
node n = n ∷ replicate 15 0

start : NeighborTable Fixed
start = record init { alias_base = 7 }

start-IsValid : IsValid start
unfolding start
start-IsValid = init-IsValid 7

-- Node 2 was heard, and calls this node by alias 9.
one : NeighborTable Fixed
one = set_their_alias (heard start (node 2) (pos 900_000) 10).0 (node 2) 9

one-IsValid : IsValid one
unfolding one
one-IsValid =
    set_their_alias-IsValid _ (node 2) 9
      (heard-IsValid start (node 2) (pos 900_000) 10 start-IsValid)

alias_of_two : alloc_alias one.slots 7 ≡ 9
unfolding one start alloc_alias alloc_loop heard set_their_alias find_slot find bytes_eq any
alias_of_two = refl

heard-IsValid_example : IsValid (heard one (node 3) (pos 100_000) 20).0
heard-IsValid_example = heard-IsValid one (node 3) (pos 100_000) 20 one-IsValid

two : Neighbor Fixed
two = get_or one.slots 0 no_neighbor

two-IsUsed : (get_elem? one.slots 0 ≡ some two) × (two.used ≡ true)
unfolding two one start heard set_their_alias find_slot bytes_eq
two-IsUsed = (refl, refl)

neighbor_by_link_lem_example : neighbor_by_link one two.my_alias two.their_alias ≡ two.id
neighbor_by_link_lem_example = neighbor_by_link_lem one 0 two one-IsValid two-IsUsed.0 two-IsUsed.1
