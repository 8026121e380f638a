-- ===== src/NodeTable.antt =====
-- lib/mesh/node_table.h and node_table.cpp: node ids interned as references with generations.
pub mod Pick
pub mod Intern
pub mod Refs
mod Tests
use agnostic_lora_net.Prelude.{
  ℕ, ◌+◌, ◌%◌, Bool, true, false, not, ◌&&◌, List, [], ◌∷◌, Option, none, some, ◌==◌, leb,
  if◌then◌else◌, replicate, find_index, modify, get_or, get_elem?, bytes_eq, before32,
}
use agnostic_lora_net.NodeId.{NodeId, zero_id}

abbrev pub node_table_cap : ℕ
node_table_cap = 64

pub record NodeRef : Type 0 where
  pub idx : ℕ
  pub gen : ℕ

abbrev pub node_ref_none : NodeRef
node_ref_none = record { idx = 0xff; gen = 0 }

-- `used`, `verified` and `pinned` are the three bits of `flags`.
pub record Slot : Type 0 where
  pub id : NodeId
  pub last_ms : ℕ
  pub used : Bool
  pub verified : Bool
  pub pinned : Bool
  pub gen : ℕ
  pub pub_key : List ℕ

pub record NodeTable : Type 0 where
  pub slots : List Slot
  pub last_evicted : Bool

abbrev pub blank : Slot
blank = record {
  id = zero_id;
  last_ms = 0;
  used = false;
  verified = false;
  pinned = false;
  gen = 0;
  pub_key = replicate 32 0;
}

abbrev pub init : NodeTable
init = record { slots = replicate node_table_cap blank; last_evicted = false }

abbrev pub is_of : NodeId → Slot → Bool
is_of id s = s.used && bytes_eq s.id id

-- The victim so far with its time, once slot `i` was looked at.
abbrev pub older : ℕ → Slot → Option (ℕ × ℕ) → Option (ℕ × ℕ)
older i s victim = if s.pinned then victim else elim victim [
  | none ↦ some (i, s.last_ms)
  | some (j, ms) ↦ if before32 s.last_ms ms then some (i, s.last_ms) else some (j, ms)
]

-- The second loop of `free_or_evict`, from slot `i` on.
unfoldable pub oldest : ℕ → Option (ℕ × ℕ) → List Slot → Option (ℕ × ℕ)
oldest i victim [] = victim
oldest i victim (s ∷ ss) = oldest (i + 1) (older i s victim) ss

abbrev pub evicted : Slot → Slot
evicted s = record s { gen = (s.gen + 1) % 256; used = false; verified = false; pinned = false }

-- `free_or_evict`; `none` is -1.
unfoldable pub free_or_evict : NodeTable → NodeTable × Option ℕ
free_or_evict t = elim (find_index (λ s. not s.used) t.slots) [
  | some i ↦ (t, some i)
  | none ↦ elim (oldest 0 none t.slots) [
    | none ↦ (t, none)
    | some (i, _) ↦ (record t { slots = modify t.slots i evicted; last_evicted = true }, some i)
  ]
]

abbrev pub occupied : NodeId → Slot → Slot
occupied id s = record s { id = id; used = true; verified = false; pinned = false }

-- The end of `intern`: the time of slot `i` is noted and the reference made.
abbrev pub refer : NodeTable → ℕ → ℕ → NodeTable × NodeRef
refer t i now_ms = (
  record t { slots = modify t.slots i (λ s. record s { last_ms = now_ms }) },
  record { idx = i % 256; gen = (get_or t.slots i blank).gen },
)

pub intern : NodeTable → NodeId → ℕ → NodeTable × NodeRef
intern t id now_ms =
    let t' = record t { last_evicted = false } in
    elim (find_index (is_of id) t.slots) [
      | some i ↦ refer t' i now_ms
      | none ↦ elim (free_or_evict t').1 [
        | none ↦ ((free_or_evict t').0, node_ref_none)
        | some i ↦
            let t'' = (free_or_evict t').0 in
            refer (record t'' { slots = modify t''.slots i (occupied id) }) i now_ms
      ]
    ]

-- The slot of a reference, if the reference is in range and of the slot's generation.
pub live : NodeTable → NodeRef → Option Slot
live t r = if leb node_table_cap r.idx then none else elim (get_elem? t.slots r.idx) [
  | none ↦ none
  | some s ↦ if s.used && (s.gen == r.gen) then some s else none
]

-- `resolve`; `none` is `false`.
pub resolve : NodeTable → NodeRef → Option NodeId
resolve t r = elim (live t r) [ none ↦ none | some s ↦ some s.id ]

pub verified : NodeTable → NodeRef → Bool
verified t r = elim (live t r) [ none ↦ false | some s ↦ s.verified ]

pub mark_verified : NodeTable → NodeRef → List ℕ → NodeTable
mark_verified t r key = elim (live t r) [
  | none ↦ t
  | some s ↦ record t {
    slots = modify t.slots r.idx (λ s. record s { verified = true; pub_key = key });
  }
]

pub pin : NodeTable → NodeRef → Bool → NodeTable
pin t r on = elim (live t r) [
  | none ↦ t
  | some s ↦ record t { slots = modify t.slots r.idx (λ s. record s { pinned = on }) }
]

-- `for_each_verified`: the calls of its function, in order.
pub verified_slots : List Slot → List (NodeId × List ℕ)
verified_slots [] = []
verified_slots (s ∷ ss) =
    let rest = verified_slots ss in if s.used && s.verified then (s.id, s.pub_key) ∷ rest else rest
