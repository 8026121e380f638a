-- ===== src/Router/Tests.antt =====
-- Runs of the router, and the theorems at concrete histories.
use agnostic_lora_net.Prelude.{ℕ, ◌≡◌, ◌≢◌, true, false, [], ◌∷◌, replicate, arith}
use agnostic_lora_net.NodeId.{NodeId}
use agnostic_lora_net.Float.Fixed.{Fixed, pos, fixed}
use agnostic_lora_net.Router.{Router, Announce, make, is_blocked, on_beacon, next_hop}
use agnostic_lora_net.Router.Blocking.{IsSound}
use agnostic_lora_net.Router.History.{
  beacon, Reaches, here, then_, Reaches-IsSound, next_hop-is_blocked,
}

abbrev node : ℕ → NodeId
node n = n ∷ replicate 15 0

-- Node 2 hears node 1 at half quality, and has a route to node 3.
abbrev from_two : Announce Fixed
from_two = record {
  origin = node 2;
  reports = record { id = node 1; q = pos 500_000; alias = 9 } ∷ [];
  routes = record { dst = node 3; next_hop = node 3; cost = pos 1_000_000; hops = 1 } ∷ [];
  caps = 0;
  has_caps = true;
}

start : Router Fixed
start = make (node 1)

heard_two : Router Fixed
heard_two = on_beacon start (node 2) (pos 900_000) from_two 10

heard_two-Reaches : Reaches (make (node 1)) heard_two
unfolding heard_two start
heard_two-Reaches = then_ here (beacon (node 2) (pos 900_000) from_two 10)

three_far : node 3 ≢ node 1
three_far e = ground arith

Reaches-IsSound_example : IsSound heard_two
Reaches-IsSound_example = Reaches-IsSound (node 1) heard_two-Reaches

next_hop-is_blocked_example : is_blocked heard_two (next_hop heard_two (node 3)) ≡ false
next_hop-is_blocked_example = next_hop-is_blocked (node 1) heard_two-Reaches (node 3) three_far
