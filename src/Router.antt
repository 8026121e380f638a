-- ===== src/Router.antt =====
-- lib/mesh/router.h and router.cpp: the routing brain, driven by the beacons of the neighbours.
pub mod Hops
pub mod Blocking
pub mod History
mod Tests
use agnostic_lora_net.Prelude.{
  ℕ, suc, ◌+◌, ◌-◌, ◌%◌, Bool, true, false, not, ◌||◌, List, [], ◌∷◌, ◌++◌, Option, none, some, map,
  ltb, leb, ◌==◌, if◌then◌else◌, length, take, set, get_or, find, find_index, any, bytes_eq,
  replicate,
}
use mathlib.Core.List.{foldl}
use agnostic_lora_net.NodeId.{NodeId, zero_id, is_zero}
use agnostic_lora_net.Float.{Float}
use agnostic_lora_net.Neighbors
use agnostic_lora_net.Neighbors.{Neighbor, NeighborTable}
use agnostic_lora_net.Routes
use agnostic_lora_net.Routes.{Route, RoutingTable}

abbrev pub max_blocked : ℕ
max_blocked = 8

abbrev pub node_caps : ℕ
node_caps = 0

pub record Report (F : Type 0) : Type 0 where
  pub id : NodeId
  pub q : F
  pub alias : ℕ

pub record RouteAdv (F : Type 0) : Type 0 where
  pub dst : NodeId
  pub next_hop : NodeId
  pub cost : F
  pub hops : ℕ

-- The arrays of an announce with their counts, as lists.
pub record Announce (F : Type 0) : Type 0 where
  pub origin : NodeId
  pub reports : List (Report F)
  pub routes : List (RouteAdv F)
  pub caps : ℕ
  pub has_caps : Bool

-- `blocked` is the first `n_blocked_` entries of the array.
pub record Router (F : Type 0) : Type 0 where
  pub my_id : NodeId
  pub neighbors : NeighborTable F
  pub routes : RoutingTable F
  pub blocked : List NodeId

module _ {F : Type 0} where
  pub next_hop : Router F → NodeId → NodeId
  next_hop r dst = Routes.next_hop r.routes dst

  pub is_blocked : Router F → NodeId → Bool
  is_blocked r id = any (λ b. bytes_eq b id) r.blocked

  pub block : Router F → NodeId → Router F × Bool
  block r id =
      if is_zero id || bytes_eq id r.my_id
      then (r, false)
      else if is_blocked r id
      then (r, true)
      else if leb max_blocked (length r.blocked)
      then (r, false)
      else (record r { blocked = r.blocked ++ id ∷ []; routes = Routes.drop_via r.routes id }, true)

  -- The last entry takes the place of the one that goes.
  pub unblock : Router F → NodeId → Router F
  unblock r id = elim (find_index (λ b. bytes_eq b id) r.blocked) [
    | none ↦ r
    | some i ↦
        let last = length r.blocked - 1 in
        record r { blocked = take last (set r.blocked i (get_or r.blocked last zero_id)) }
  ]

module _ {F : Type 0} ⦃fl : Float F⦄ where
  open fl use {add, lt, dec}

  pub make : NodeId → Router F
  make my_id = record {
    my_id = my_id;
    neighbors = Neighbors.set_alias_seed Neighbors.init my_id;
    routes = Routes.set_self Routes.init my_id 0;
    blocked = [];
  }

  -- What a beacon says of the link: how well `from` hears this node, and its alias for it.
  pub learn_link : NodeId → NodeId → F → Announce F → ℕ → NeighborTable F → NeighborTable F
  learn_link my_id from q a now_ms t =
      let t' = Neighbors.set_caps (Neighbors.heard t from q now_ms).0 from a.caps in
      elim (find (λ p. bytes_eq p.id my_id) a.reports) [
        | none ↦ t'
        | some p ↦ Neighbors.set_their_alias (Neighbors.set_tx_report t' from p.q) from p.alias
      ]

  -- One advertised route, reached through `from` at `link_cost`.
  pub relax_adv : NodeId → NodeId → F → ℕ → RoutingTable F → RouteAdv F → RoutingTable F
  relax_adv my_id from link_cost now_ms t adv =
      if bytes_eq adv.dst my_id
      then t
      else if bytes_eq adv.next_hop my_id
      then t
      else (Routes.offer t adv.dst from (add link_cost adv.cost) ((adv.hops + 1) % 256) now_ms).0

  pub on_beacon : Router F → NodeId → F → Announce F → ℕ → Router F
  on_beacon r from q a now_ms =
      if bytes_eq from r.my_id
      then r
      else if is_blocked r from
      then r
      else let neighbors = learn_link r.my_id from q a now_ms r.neighbors in
        let link_cost = Neighbors.tx_cost neighbors from in
        record r {
          neighbors = neighbors;
          routes =
              foldl (relax_adv r.my_id from link_cost now_ms)
                (Routes.set_self r.routes r.my_id now_ms) a.routes;
        }

  -- The reports and routes of an announce. A report wants a quality that was measured.
  pub reports_of : List (Neighbor F) → List (Report F)
  reports_of [] = []
  reports_of (n ∷ ns) =
      let rest = reports_of ns in
      if not n.used || lt n.q_rx (dec 0 0)
      then rest
      else record { id = n.id; q = n.q_rx; alias = n.my_alias } ∷ rest

  pub routes_of : List (Route F) → List (RouteAdv F)
  routes_of [] = []
  routes_of (r ∷ rs) =
      let rest = routes_of rs in
      if not r.used
      then rest
      else record { dst = r.dst; next_hop = r.next_hop; cost = r.cost; hops = r.hops } ∷ rest

  -- `has_caps` of `out` is left as it was.
  pub build_announce : Router F → Announce F → Announce F
  build_announce r out = record out {
    origin = r.my_id;
    reports = reports_of r.neighbors.slots;
    routes = routes_of r.routes.slots;
    caps = node_caps;
  }

  pub tick : Router F → ℕ → ℕ → ℕ → Router F
  tick r now_ms neighbor_timeout_ms route_timeout_ms =
      let (neighbors, removed, n) =
        Neighbors.prune r.neighbors now_ms neighbor_timeout_ms Neighbors.max_neighbors in
      record r {
        neighbors = neighbors;
        routes =
            Routes.prune (foldl Routes.drop_via r.routes (take n removed)) now_ms route_timeout_ms;
      }
