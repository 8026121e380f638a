-- ===== src/Routes.antt =====
-- lib/mesh/routing_table.h and routing_table.cpp: distance-vector routes in a fixed array of slots.
pub mod Valid
pub mod Offers
pub mod Drops
pub mod Own
mod Tests
use agnostic_lora_net.Prelude.{
  ℕ, ◌+◌, ◌≡◌, Bool, true, false, not, ◌&&◌, ◌||◌, List, Option, none, some, map, ltb,
  if◌then◌else◌, replicate, find, find_slot, modify, count, bytes_eq, sub32,
}
use agnostic_lora_net.NodeId.{NodeId, zero_id}
use agnostic_lora_net.Float.{Float}

abbrev pub max_routes : ℕ
max_routes = 64

abbrev pub max_hops : ℕ
max_hops = 16

pub record Route (F : Type 0) : Type 0 where
  pub dst : NodeId
  pub next_hop : NodeId
  pub cost : F
  pub hops : ℕ
  pub updated_ms : ℕ
  pub used : Bool

-- `self` is `self_`.
pub record RoutingTable (F : Type 0) : Type 0 where
  pub self : NodeId
  pub slots : List (Route F)

module _ {F : Type 0} where
  -- `slots_[i].used && slots_[i].dst == dst`
  abbrev pub holds : NodeId → Route F → Bool
  holds dst r = r.used && bytes_eq r.dst dst

  abbrev pub is_free : Route F → Bool
  is_free r = not r.used

  unfoldable pub lookup : RoutingTable F → NodeId → Option (Route F)
  lookup t dst = find (holds dst) t.slots

  -- `next_hop`: the zero id where there is no route.
  unfoldable pub next_hop : RoutingTable F → NodeId → NodeId
  next_hop t dst = elim (lookup t dst) [ none ↦ zero_id | some r ↦ r.next_hop ]

  -- `if (test) slots_[i].used = false;`
  abbrev pub drop_if : (Route F → Bool) → Route F → Route F
  drop_if test r = if test r then record r { used = false } else r

  -- The pointer of `find_mut`: the index of the slot, and the slot.
  abbrev pub find_mut : RoutingTable F → NodeId → Option (ℕ × Route F)
  find_mut t dst = find_slot (holds dst) t.slots

  -- A write through such a pointer.
  abbrev pub write : RoutingTable F → ℕ → Route F → RoutingTable F
  write t i r = record t { slots = modify t.slots i (λ _. r) }

  abbrev pub is_stale : RoutingTable F → ℕ → ℕ → Route F → Bool
  is_stale t now_ms timeout_ms r =
      r.used && (not (bytes_eq r.dst t.self) && ltb timeout_ms (sub32 now_ms r.updated_ms))

  pub prune : RoutingTable F → ℕ → ℕ → RoutingTable F
  prune t now_ms timeout_ms = record t {
    slots = map (drop_if (is_stale t now_ms timeout_ms)) t.slots;
  }

  abbrev pub goes_via : RoutingTable F → NodeId → Route F → Bool
  goes_via t via r = r.used && (not (bytes_eq r.dst t.self) && bytes_eq r.next_hop via)

  pub drop_via : RoutingTable F → NodeId → RoutingTable F
  drop_via t via = record t { slots = map (drop_if (goes_via t via)) t.slots }

  pub size : RoutingTable F → ℕ
  size t = count (λ r. r.used) t.slots

module _ {F : Type 0} ⦃fl : Float F⦄ where
  open fl use {sub, lt, le, dec}

  abbrev pub cost_inf : F
  cost_inf = dec 1000000 0

  -- `Route{}`
  abbrev pub no_route : Route F
  no_route = record {
    dst = zero_id;
    next_hop = zero_id;
    cost = cost_inf;
    hops = 0;
    updated_ms = 0;
    used = false;
  }

  abbrev pub init : RoutingTable F
  init = record { self = zero_id; slots = replicate max_routes no_route }

  -- `alloc`: a free slot, cleared, marked and given its destination; `none` is a full table.
  abbrev pub alloc : RoutingTable F → NodeId → Option (ℕ × Route F)
  alloc t dst = elim (find_slot is_free t.slots) [
    | none ↦ none
    | some (i, _) ↦ some (i, record no_route { used = true; dst = dst })
  ]

  abbrev pub pinned : NodeId → ℕ → Route F → Route F
  pinned me now_ms r = record r {
    dst = me;
    next_hop = me;
    cost = dec 0 0;
    hops = 0;
    updated_ms = now_ms;
  }

  pub set_self : RoutingTable F → NodeId → ℕ → RoutingTable F
  set_self t me now_ms =
      let t' = record t { self = me } in
      elim (find_mut t me) [
        | some (i, r) ↦ write t' i (pinned me now_ms r)
        | none ↦ elim (alloc t me) [ none ↦ t' | some (i, r) ↦ write t' i (pinned me now_ms r) ]
      ]

  abbrev pub offered : NodeId → F → ℕ → ℕ → Route F → Route F
  offered via cost hops now_ms r = record r {
    next_hop = via;
    cost = cost;
    hops = hops;
    updated_ms = now_ms;
  }

  -- The part of `offer` that takes an advertisement within the ceilings.
  pub relax : RoutingTable F → NodeId → NodeId → F → ℕ → ℕ → RoutingTable F × Bool
  relax t dst via cost hops now_ms = elim (find_mut t dst) [
    | none ↦ elim (alloc t dst) [
      | none ↦ (t, false)
      | some (i, r) ↦ (write t i (offered via cost hops now_ms r), true)
    ]
    | some (i, r) ↦
        if bytes_eq r.next_hop via
        then (write t i (record r { cost = cost; hops = hops; updated_ms = now_ms }), true)
        else if lt cost (sub r.cost (dec 1 4))
        then (write t i (offered via cost hops now_ms r), true)
        else (t, false)
  ]

  -- The part that takes an unreachable one: a withdrawal if it comes from the hop in use.
  pub withdraw : RoutingTable F → NodeId → NodeId → RoutingTable F × Bool
  withdraw t dst via = elim (find_mut t dst) [
    | none ↦ (t, false)
    | some (i, r) ↦
        if bytes_eq r.next_hop via
        then (write t i (record r { used = false }), true)
        else (t, false)
  ]

  -- Beyond the ceiling on hops or on cost.
  abbrev pub unreachable : F → ℕ → Bool
  unreachable cost hops = ltb max_hops hops || le cost_inf cost

  pub offer : RoutingTable F → NodeId → NodeId → F → ℕ → ℕ → RoutingTable F × Bool
  offer t dst via cost hops now_ms =
      if bytes_eq dst t.self
      then (t, false)
      else if unreachable cost hops
      then withdraw t dst via
      else relax t dst via cost hops now_ms
