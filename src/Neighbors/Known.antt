-- ===== src/Neighbors/Known.antt =====
-- What the table says of a neighbour that it has.
use agnostic_lora_net.Prelude.{
  ℕ, ◌≡◌, sym, ◌∙◌, true, false, some, ◌==◌, find_unique, false_of, get_elem?, arith,
}
use agnostic_lora_net.NodeId.{NodeId}
use agnostic_lora_net.Neighbors.{
  Neighbor, NeighborTable, is_of, lookup, my_alias_for, their_alias_for, neighbor_by_link,
}
use agnostic_lora_net.Neighbors.Valid.{IsValid, is_of→, →is_of, neighbor_by_link_lem}

-- The entry of a neighbour in a valid table.
pub record Knows {F : Type 0} (t : NeighborTable F) (id : NodeId) : Type 0 where
  pub valid : IsValid t
  pub place : ℕ
  pub entry : Neighbor F
  pub there : get_elem? t.slots place ≡ some entry
  pub used : entry.used ≡ true
  pub named : entry.id ≡ id

module _ {F : Type 0} (t : NeighborTable F) (id : NodeId) (k : Knows t id) where
  lookup-Knows : lookup t id ≡ some k.entry
  unfolding lookup
  lookup-Knows =
      find_unique (is_of id) t.slots k.place k.there (→is_of id k.entry k.used k.named) (λ j b gb d.
        false_of (is_of id b) (λ h.
          let (ub, ib) = is_of→ id b h in
          (k.valid.unique k.place j k.entry b k.there gb d k.used ub).0 (k.named ∙ sym ib)))

  pub my_alias_for-Knows : my_alias_for t id ≡ k.entry.my_alias
  unfolding my_alias_for
  my_alias_for-Knows = rw (lookup-Knows, my_alias_for)

  pub their_alias_for-Knows : their_alias_for t id ≡ k.entry.their_alias
  unfolding their_alias_for
  their_alias_for-Knows = rw (lookup-Knows, their_alias_for)

  -- The aliases of the link name the neighbour, and its own are between 1 and 254.
  pub neighbor_by_link-Knows : neighbor_by_link t k.entry.my_alias k.entry.their_alias ≡ id
  neighbor_by_link-Knows = neighbor_by_link_lem t k.place k.entry k.valid k.there k.used ∙ k.named

  pub alias_set : (k.entry.my_alias == 0) ≡ false
  alias_set = let (low, high) = k.valid.ranged k.place k.entry k.there k.used in ground arith

  pub alias_directed : (k.entry.my_alias == 0xff) ≡ false
  alias_directed = let (low, high) = k.valid.ranged k.place k.entry k.there k.used in ground arith
