-- ===== src/Forwarder/Tests.antt =====
-- Runs of the forwarder, and the theorems at concrete packets.
use agnostic_lora_net.Prelude.{
  ℕ, ◌≡◌, ◌≢◌, refl, true, false, [], ◌∷◌, replicate, any, bytes_eq, arith,
}
use agnostic_lora_net.NodeId.{NodeId}
use agnostic_lora_net.Float.Fixed.{Fixed, pos, fixed}
use agnostic_lora_net.Router.{Announce, Router, make, on_beacon, is_blocked, block}
use agnostic_lora_net.Router.History.{Reaches, here, then_, shut, beacon}
use agnostic_lora_net.Forwarder.{
  PacketRef, deliver, drop_dup, no_hop, init, decide, decide_new, seen_or_insert,
}
use agnostic_lora_net.Forwarder.Seen.{init-IsValid}
use agnostic_lora_net.Forwarder.Decide.{
  Accounts, was_seen, decide_all, decide-Accounts, decide_again, decide-is_blocked,
}

abbrev node : ℕ → NodeId
node n = n ∷ replicate 15 0

abbrev to_me : PacketRef
to_me = record { src = node 2; dst = node 1; pkt_id = 77; ttl = 5 }

-- The same packet, by a longer way.
abbrev late : PacketRef
late = record { src = node 2; dst = node 1; pkt_id = 77; ttl = 3 }

abbrev other : PacketRef
other = record { src = node 3; dst = node 1; pkt_id = 78; ttl = 4 }

router : Router Fixed
router = make (node 1)

delivered : (decide router (init (node 1)) to_me).1 ≡ no_hop deliver
unfolding decide decide_new seen_or_insert any bytes_eq
delivered = refl

node_ne : node 2 ≢ node 1
node_ne e = ground arith

decide-Accounts_example :
    Accounts router (init (node 1)) to_me (decide router (init (node 1)) to_me).1
decide-Accounts_example = decide-Accounts router (init (node 1)) to_me

to_me-is_new : was_seen (init (node 1)) to_me ≡ false
unfolding any
to_me-is_new = refl

decide_again_example :
    decide router (decide_all (decide router (init (node 1)) to_me).0 ((router, other) ∷ [])) late
    ≡ (decide_all (decide router (init (node 1)) to_me).0 ((router, other) ∷ []), no_hop drop_dup)
decide_again_example =
    decide_again router (init (node 1)) to_me ((router, other) ∷ []) router late
      (init-IsValid (node 1)) node_ne to_me-is_new (omega arith) refl refl

-- Node 2 hears node 1, and has a route to node 3; then node 4 is blocked.
abbrev from_two : Announce Fixed
from_two = record {
  origin = node 2;
  reports = record { id = node 1; q = pos 500_000; alias = 9 } ∷ [];
  routes = record { dst = node 3; next_hop = node 3; cost = pos 1_000_000; hops = 1 } ∷ [];
  caps = 0;
  has_caps = true;
}

abbrev relay : Router Fixed
relay = (block (on_beacon (make (node 1)) (node 2) (pos 900_000) from_two 10) (node 4)).0

relay-Reaches : Reaches (make (node 1)) relay
relay-Reaches = then_ (then_ here (beacon (node 2) (pos 900_000) from_two 10)) (shut (node 4))

abbrev passing : PacketRef
passing = record { src = node 5; dst = node 3; pkt_id = 1; ttl = 4 }

decide-is_blocked_example :
    is_blocked relay (decide relay (init (node 1)) passing).1.next_hop ≡ false
decide-is_blocked_example =
    decide-is_blocked (node 1) relay (init (node 1)) passing relay-Reaches refl
