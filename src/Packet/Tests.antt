-- ===== src/Packet/Tests.antt =====
-- The theorems on frames that are sent on, at a frame of two bytes.
use agnostic_lora_net.Prelude.{
  ℕ, zero, suc, ◌≤◌, ◌≡◌, refl, sym, ◌∙◌, true, false, List, [], ◌∷◌, some, none, replicate, length,
  bytes_eq, Every, Every-cons, Every-replicate, Apart, arith,
}
use mathlib.Core.Bool.{false≢true}
use agnostic_lora_net.NodeId.{NodeId, broadcast}
use agnostic_lora_net.Float.Fixed.{Fixed, pos, fixed}
use agnostic_lora_net.Neighbors.{
  Neighbor, NeighborTable, no_neighbor, my_alias_for, their_alias_for,
}
use agnostic_lora_net.Neighbors.Valid.{Distinct}
use agnostic_lora_net.Neighbors.Known.{Knows, their_alias_for-Knows}
use agnostic_lora_net.Routes
use agnostic_lora_net.Router.{Router}
use agnostic_lora_net.LinkArq
use agnostic_lora_net.LinkArq.{Pending, no_pending, on_ack}
use agnostic_lora_net.LinkArq.Tracked.{HasRoom}
use agnostic_lora_net.TxQueue
use agnostic_lora_net.TxQueue.{push}
use agnostic_lora_net.Packet.{LinkHeader, NetHeader, reflood, get_link}
use agnostic_lora_net.Packet.Reflood.{frame, reflood_lem}
use agnostic_lora_net.Packet.Flood.{no_floods, flood_seen, flood_mark}
use agnostic_lora_net.Packet.Flood.Kept.{marks, no_floods-IsValid, flood_seen-flood_mark}
use agnostic_lora_net.Packet.Unicast.{Link, forward_frame, on_link, ack_frame}
use agnostic_lora_net.Packet.Unicast.Hops.{Relays, relayed, forward_frame-Relays}
use agnostic_lora_net.Packet.Unicast.Acks.{Linked, on_link-ack_frame}

abbrev some_link : LinkHeader
some_link = record { prev_hop = 5; next_hop = 7; link_seq = 9; flags = 1 }

abbrev some_net : NetHeader
some_net = record {
  ver_type = 0x24;
  flags = 0;
  ttl = 16;
  dst = broadcast;
  src = replicate 16 3;
  pkt_id = 600;
}

reflood_lem_example :
    reflood (frame some_link some_net (1 ∷ 2 ∷ [])) 15
    ≡ some (
        frame
          (record some_link { prev_hop = 0; next_hop = 0xff; flags = 0 })
          (record some_net { ttl = 15 })
          (1 ∷ 2 ∷ []))
reflood_lem_example =
    reflood_lem some_link some_net (1 ∷ 2 ∷ []) 15
      (record { dst = refl; src = refl; pkt_id = omega arith }) (omega arith)

abbrev others : List (NodeId × ℕ)
others = (replicate 16 8, 1) ∷ (replicate 16 8, 2) ∷ []

flood_seen-flood_mark_example :
    flood_seen (marks (flood_mark no_floods (replicate 16 3) 600) others) (replicate 16 3) 600
    ≡ true
flood_seen-flood_mark_example =
    flood_seen-flood_mark no_floods (replicate 16 3) 600 others no_floods-IsValid (omega arith)

abbrev idle : Link
idle = record { arq = LinkArq.init; txq = TxQueue.init }

-- Of the nodes 3 and 4, each has the other; 3 calls the link 12, and 4 calls it 11.
abbrev neighbor : ℕ → ℕ → ℕ → Neighbor Fixed
neighbor id mine theirs = record {
  id = replicate 16 id;
  q_rx = pos 500_000;
  q_tx = pos 500_000;
  my_alias = mine;
  their_alias = theirs;
  last_heard_ms = 0;
  caps = 0;
  used = true;
}

abbrev nobody : Neighbor Fixed
nobody = no_neighbor

abbrev table : Neighbor Fixed → NeighborTable Fixed
table n = record { slots = n ∷ replicate 31 nobody; alias_base = 7 }

abbrev router : ℕ → Neighbor Fixed → Router Fixed
router id n = record {
  my_id = replicate 16 id;
  neighbors = table n;
  routes = Routes.init;
  blocked = [];
}

rest_unused : Every (λ (n : Neighbor Fixed). n.used ≡ false) (replicate 31 nobody)
rest_unused = Every-replicate (λ (n : Neighbor Fixed). n.used ≡ false) 31 nobody refl

knows :
    (n : Neighbor Fixed)
    → n.used ≡ true
    → (1 ≤ n.my_alias) × (n.my_alias ≤ 254)
    → Knows (table n) n.id
knows n used ranged = record {
  valid = record {
    whole = refl;
    unique = λ i j a b ga gb d. apart i j a b ga gb d;
    ranged =
        Every-cons (λ (m : Neighbor Fixed). m.used ≡ true → (1 ≤ m.my_alias) × (m.my_alias ≤ 254)) n
          (replicate 31 nobody) (λ u. ranged)
          (λ j b g u. absurd (false≢true (sym (rest_unused j b g) ∙ u)));
  };
  place = 0;
  entry = n;
  there = refl;
  used = used;
  named = refl;
}
  where
    apart : Apart Distinct (table n).slots
    apart zero zero a b ga gb d = absurd (d refl)
    apart zero (suc j) a b ga gb d = λ u u'. absurd (false≢true (sym (rest_unused j b gb) ∙ u'))
    apart (suc i) j a b ga gb d = λ u. absurd (false≢true (sym (rest_unused i a ga) ∙ u))

abbrev three : Router Fixed
three = router 3 (neighbor 4 12 11)

abbrev four : Router Fixed
four = router 4 (neighbor 3 11 12)

linked : Linked three four
unfolding bytes_eq knows
linked = record {
  to = knows (neighbor 4 12 11) refl (omega arith, omega arith);
  back = knows (neighbor 3 11 12) refl (omega arith, omega arith);
  told = refl;
  heard = refl;
  named = (refl, refl);
}

four_called : their_alias_for three.neighbors (replicate 16 4) ≡ 11
unfolding linked knows
four_called = their_alias_for-Knows three.neighbors (replicate 16 4) linked.to

idle-HasRoom : HasRoom LinkArq.init
idle-HasRoom = record {
  whole = Every-replicate (λ (p : Pending). length p.frame ≡ 255) 4 no_pending refl;
  place = 0;
  slot = no_pending;
  there = refl;
  free = refl;
}

forward_frame-Relays_example :
    Relays idle
      (forward_frame idle three (frame some_link some_net (1 ∷ 2 ∷ [])) (replicate 16 4) 15 1000)
      (replicate 16 4)
      (relayed idle three some_net (1 ∷ 2 ∷ []) (replicate 16 4) 15)
      1000
forward_frame-Relays_example =
    forward_frame-Relays idle three some_link some_net (1 ∷ 2 ∷ []) (replicate 16 4) 15 1000
      (record { dst = refl; src = refl; pkt_id = omega arith }) (omega arith)
      (λ e. let c = four_called in absurd (omega (arith, e, c)))
      (λ e. let c = four_called in absurd (omega (arith, e, c)))
      (record { whole = refl; head = omega arith; count = omega arith; tail = refl }) (omega arith)
      idle-HasRoom

on_link-ack_frame_example :
    let sent : LinkHeader = record {
      prev_hop = my_alias_for three.neighbors four.my_id;
      next_hop = their_alias_for three.neighbors four.my_id;
      link_seq = 9;
      flags = 1;
    } in
    let answer = ack_frame four three.my_id 9 in
    (on_link idle four (get_link (frame sent some_net (1 ∷ 2 ∷ [])))
      ≡ (record idle { txq = (push TxQueue.init answer).0 }, some three.my_id))
    × (on_link idle three (get_link answer)
        ≡ (record idle { arq = (on_ack LinkArq.init 9).0 }, none))
on_link-ack_frame_example = on_link-ack_frame three four idle idle 9 some_net (1 ∷ 2 ∷ []) linked
