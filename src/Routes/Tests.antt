-- ===== src/Routes/Tests.antt =====
-- Runs of the routing table, and the theorems at concrete tables.
use agnostic_lora_net.Prelude.{ℕ, ◌≡◌, refl, ◌∷◌, replicate, bytes_eq, find, find_slot}
use agnostic_lora_net.NodeId.{NodeId}
use agnostic_lora_net.Float.Fixed.{Fixed, pos, fixed}
use agnostic_lora_net.Routes.{
  RoutingTable, init, set_self, offer, relax, drop_via, lookup, next_hop,
}
use agnostic_lora_net.Routes.Offers.{Meets, after_offer, offer-Meets}
use agnostic_lora_net.Routes.Drops.{left, lookup-drop_via}
use agnostic_lora_net.Routes.Own.{HasOwn, set_self-init, offer-HasOwn}

abbrev node : ℕ → NodeId
node n = n ∷ replicate 15 0

mine : RoutingTable Fixed
mine = set_self init (node 1) 0

mine-HasOwn : HasOwn (node 1) mine
unfolding mine
mine-HasOwn = set_self-init (node 1) 0

-- A route to node 3 by node 2.
two_hops : RoutingTable Fixed
two_hops = (offer mine (node 3) (node 2) (pos 2_000_000) 2 10).0

two_hops-HasOwn : HasOwn (node 1) two_hops
unfolding two_hops
two_hops-HasOwn = offer-HasOwn (node 1) mine mine-HasOwn (node 3) (node 2) (pos 2_000_000) 2 10

next_hop-runs : next_hop two_hops (node 3) ≡ node 2
unfolding two_hops mine next_hop lookup offer relax set_self find find_slot bytes_eq
next_hop-runs = refl

offer-Meets_example :
    Meets mine (node 3) (after_offer mine (node 3) (node 2) (pos 2_000_000) 2 10) two_hops
unfolding two_hops
offer-Meets_example = offer-Meets mine (node 3) mine-HasOwn.valid (node 2) (pos 2_000_000) 2 10

lookup-drop_via_example :
    lookup (drop_via two_hops (node 2)) (node 3)
    ≡ left (λ r. bytes_eq r.next_hop (node 2)) (lookup two_hops (node 3))
unfolding two_hops mine offer relax set_self find find_slot bytes_eq lookup
lookup-drop_via_example = lookup-drop_via two_hops two_hops-HasOwn.valid (node 2) (node 3)
