-- ===== src/Neighbors.antt =====
-- lib/mesh/neighbor_table.h and neighbor_table.cpp: the neighbours, their link qualities in each
-- direction, and the one-byte aliases of their links.
pub mod Alias
pub mod Valid
pub mod Known
pub mod Heard
mod Tests
use agnostic_lora_net.Prelude.{
  ℕ, zero, suc, ◌+◌, ◌%◌, bit_and, Bool, true, false, not, ◌&&◌, List, Option, none, some, map,
  take, ltb, ◌==◌, if◌then◌else◌, replicate, find, find_slot, any, count, modify, bytes_eq, sub32,
  [], ◌∷◌,
}
use agnostic_lora_net.NodeId.{NodeId, zero_id, nid_fold}
use agnostic_lora_net.Float.{Float}
use agnostic_lora_net.Metric.{ewma_quality, q_min}

abbrev pub max_neighbors : ℕ
max_neighbors = 32

abbrev pub alias_none : ℕ
alias_none = 0

pub record Neighbor (F : Type 0) : Type 0 where
  pub id : NodeId
  pub q_rx : F
  pub q_tx : F
  pub my_alias : ℕ
  pub their_alias : ℕ
  pub last_heard_ms : ℕ
  pub caps : ℕ
  pub used : Bool

pub record NeighborTable (F : Type 0) : Type 0 where
  pub slots : List (Neighbor F)
  pub alias_base : ℕ

-- The `k`-th alias that `alloc_alias` tries.
abbrev pub candidate : ℕ → ℕ → ℕ
candidate base k = (1 + (base + k) % 254) % 256

module _ {F : Type 0} where
  -- `slots_[i].used && slots_[i].id == id`
  abbrev pub is_of : NodeId → Neighbor F → Bool
  is_of id n = n.used && bytes_eq n.id id

  pub lookup : NeighborTable F → NodeId → Option (Neighbor F)
  lookup t id = find (is_of id) t.slots

  -- A write through the pointer that `find` returns.
  abbrev pub write : NeighborTable F → ℕ → Neighbor F → NeighborTable F
  write t i n = record t { slots = modify t.slots i (λ _. n) }

  unfoldable pub set_alias_seed : NeighborTable F → NodeId → NeighborTable F
  set_alias_seed t my_id = record t { alias_base = nid_fold my_id % 254 }

  abbrev pub has_alias : ℕ → Neighbor F → Bool
  has_alias a n = n.used && (n.my_alias == a)

  -- Its loop, with `n` rounds left.
  pub alloc_loop : List (Neighbor F) → ℕ → ℕ → ℕ → ℕ
  alloc_loop slots base zero k = alias_none
  alloc_loop slots base (suc n) k =
      let later = alloc_loop slots base n (k + 1) in
      if any (has_alias (candidate base k)) slots then later else candidate base k

  pub alloc_alias : List (Neighbor F) → ℕ → ℕ
  alloc_alias slots base = alloc_loop slots base 254 0

  abbrev pub on_link : ℕ → ℕ → Neighbor F → Bool
  on_link next_hop prev_hop n = n.used && ((n.my_alias == next_hop) && (n.their_alias == prev_hop))

  pub neighbor_by_link : NeighborTable F → ℕ → ℕ → NodeId
  neighbor_by_link t next_hop prev_hop =
      if next_hop == alias_none
      then zero_id
      else elim (find (on_link next_hop prev_hop) t.slots) [ none ↦ zero_id | some n ↦ n.id ]

  pub neighbor_by_my_alias : NeighborTable F → ℕ → NodeId
  neighbor_by_my_alias t a =
      if a == alias_none
      then zero_id
      else elim (find (has_alias a) t.slots) [ none ↦ zero_id | some n ↦ n.id ]

  pub is_my_alias : NeighborTable F → ℕ → Bool
  is_my_alias t a = if a == alias_none then false else any (has_alias a) t.slots

  -- `if (n) n->field = ...;` on the neighbour that `find` returns.
  abbrev pub update : NeighborTable F → NodeId → (Neighbor F → Neighbor F) → NeighborTable F
  update t id f = elim (find_slot (is_of id) t.slots) [ none ↦ t | some (i, n) ↦ write t i (f n) ]

  pub set_their_alias : NeighborTable F → NodeId → ℕ → NeighborTable F
  set_their_alias t id alias = update t id (λ n. record n { their_alias = alias })

  pub set_caps : NeighborTable F → NodeId → ℕ → NeighborTable F
  set_caps t id caps = update t id (λ n. record n { caps = caps })

  pub supports : NeighborTable F → NodeId → ℕ → Bool
  supports t id cap = elim (lookup t id) [ none ↦ false | some n ↦ not (bit_and n.caps cap == 0) ]

  pub their_alias_for : NeighborTable F → NodeId → ℕ
  their_alias_for t id = elim (lookup t id) [ none ↦ alias_none | some n ↦ n.their_alias ]

  pub my_alias_for : NeighborTable F → NodeId → ℕ
  my_alias_for t id = elim (lookup t id) [ none ↦ alias_none | some n ↦ n.my_alias ]

  abbrev pub is_dead : ℕ → ℕ → Neighbor F → Bool
  is_dead now_ms timeout_ms n = n.used && ltb timeout_ms (sub32 now_ms n.last_heard_ms)

  -- The ids of the slots that `prune` clears, in the order of the loop.
  pub dead_ids : ℕ → ℕ → List (Neighbor F) → List NodeId
  dead_ids now_ms timeout_ms [] = []
  dead_ids now_ms timeout_ms (n ∷ ns) =
      if is_dead now_ms timeout_ms n
      then n.id ∷ dead_ids now_ms timeout_ms ns
      else dead_ids now_ms timeout_ms ns

  abbrev pub forget : ℕ → ℕ → Neighbor F → Neighbor F
  forget now_ms timeout_ms n = if is_dead now_ms timeout_ms n then record n { used = false } else n

  -- The new table, what is written to `removed`, and the number returned.
  pub prune : NeighborTable F → ℕ → ℕ → ℕ → NeighborTable F × List NodeId × ℕ
  prune t now_ms timeout_ms cap = (
    record t { slots = map (forget now_ms timeout_ms) t.slots },
    take cap (dead_ids now_ms timeout_ms t.slots),
    count (is_dead now_ms timeout_ms) t.slots,
  )

  pub size : NeighborTable F → ℕ
  size t = count (λ n. n.used) t.slots

module _ {F : Type 0} ⦃fl : Float F⦄ where
  open fl use {sub, div, neg, lt, dec}

  abbrev pub unknown : F
  unknown = neg (dec 1 0)

  abbrev pub no_neighbor : Neighbor F
  no_neighbor = record {
    id = zero_id;
    q_rx = unknown;
    q_tx = unknown;
    my_alias = alias_none;
    their_alias = alias_none;
    last_heard_ms = 0;
    caps = 0;
    used = false;
  }

  abbrev pub init : NeighborTable F
  init = record { slots = replicate max_neighbors no_neighbor; alias_base = 0 }

  pub asymmetric : Neighbor F → Bool
  asymmetric n =
      let d = sub n.q_rx n.q_tx in
      if lt n.q_rx (dec 0 0)
      then false
      else if lt n.q_tx (dec 0 0)
      then false
      else lt (dec 35 2) (if lt d (dec 0 0) then neg d else d)

  abbrev pub sampled : F → ℕ → Neighbor F → Neighbor F
  sampled q now_ms n = record n { q_rx = ewma_quality n.q_rx q (dec 3 1); last_heard_ms = now_ms }

  -- A slot that `heard` takes for a new neighbour, up to the choice of its alias. It is marked used,
  -- with the alias of its last occupant, while `alloc_alias` runs.
  abbrev pub taken_for : NodeId → Neighbor F → Neighbor F
  taken_for id n = record n {
    used = true;
    id = id;
    q_rx = unknown;
    q_tx = unknown;
    their_alias = alias_none;
  }

  abbrev pub enter : NeighborTable F → ℕ → NodeId → Neighbor F → Neighbor F
  enter t i id n = record (taken_for id n) {
    my_alias = alloc_alias (write t i (taken_for id n)).slots t.alias_base;
  }

  -- `heard`, with the null pointer as `false`.
  pub heard : NeighborTable F → NodeId → F → ℕ → NeighborTable F × Bool
  heard t id q now_ms = elim (find_slot (is_of id) t.slots) [
    | some (i, n) ↦ (write t i (sampled q now_ms n), true)
    | none ↦ elim (find_slot (λ n. not n.used) t.slots) [
      | none ↦ (t, false)
      | some (i, n) ↦ (write t i (sampled q now_ms (enter t i id n)), true)
    ]
  ]

  pub set_tx_report : NeighborTable F → NodeId → F → NeighborTable F
  set_tx_report t id q = update t id (λ n. record n { q_tx = ewma_quality n.q_tx q (dec 3 1) })

  pub tx_cost : NeighborTable F → NodeId → F
  tx_cost t id =
      let q : F = elim (lookup t id) [
        | none ↦ q_min
        | some n ↦ if lt (dec 0 0) n.q_tx then n.q_tx else q_min
      ] in
      div (dec 1 0) (if lt q q_min then q_min else q)
