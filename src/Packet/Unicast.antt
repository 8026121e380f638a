-- ===== src/Packet/Unicast.antt =====
-- src/main.cpp: frames that are sent to one neighbour, with an acknowledgement asked for.
pub mod Hops
pub mod Acks
use agnostic_lora_net.Prelude.{
  ℕ, zero, suc, ◌+◌, ◌*◌, ◌%◌, ◌/◌, Bool, true, false, List, [], ◌∷◌, ◌++◌, Option, none, some, ltb,
  ◌==◌, if◌then◌else◌, length, get_or, write_at, bit_or, bit_and, not, ◌&&◌,
}
use agnostic_lora_net.NodeId.{NodeId, zero_id, is_zero}
use agnostic_lora_net.Neighbors.{my_alias_for, their_alias_for, neighbor_by_link}
use agnostic_lora_net.Router.{Router}
use agnostic_lora_net.LinkArq.{LinkArq, arq_timeout_ms, arq_max_retries, next_seq, track, on_ack}
use agnostic_lora_net.TxQueue.{TxQueue, max_payload, push}
use agnostic_lora_net.Packet.{
  LinkHeader, NetHeader, link_addr_none, link_addr_broadcast, proto_version, link_bytes, put_link,
  get_link, put_net, get_net,
}

abbrev pub link_flag_ack_req : ℕ
link_flag_ack_req = 1

abbrev pub link_flag_is_ack : ℕ
link_flag_is_ack = 2

abbrev pub pkt_ack : ℕ
pkt_ack = 2

-- The two objects of the firmware that a frame is handed to.
pub record Link : Type 0 where
  pub arq : LinkArq
  pub txq : TxQueue

-- `tx_unicast`. Nothing looks at what `txq_push` and `track` return.
unfoldable pub tx_unicast : Link → List ℕ → NodeId → ℕ → Link
tx_unicast s frame next_hop now_ms =
    let link = get_link frame in
    if link.next_hop == link_addr_broadcast
    then record s { txq = (push s.txq frame).0 }
    else let (arq, seq) = next_seq s.arq in
      let frame' =
        write_at frame 0 (
          put_link (record link { link_seq = seq; flags = bit_or link.flags link_flag_ack_req })) in
      record {
        arq =
            (track arq seq next_hop frame' (length frame') now_ms arq_timeout_ms arq_max_retries).0;
        txq = (push s.txq frame').0;
      }

-- The alias of a hop, or that of every neighbour while none is known.
abbrev pub addressed : ℕ → ℕ
addressed na = if na == link_addr_none then link_addr_broadcast else na

-- `net_ver_type`
abbrev pub net_ver_type : ℕ → ℕ
net_ver_type t = bit_or (proto_version * 16 % 256) (bit_and t 0x0f)

-- The functions that ask the router, which is there from the end of the setup on, and has the node's id.
module _ {F : Type 0} where
  unfoldable pub forward_frame : Link → Router F → List ℕ → NodeId → ℕ → ℕ → Link
  forward_frame s r buf next out_ttl now_ms =
      if ltb (1 + max_payload) (length buf)
      then s
      else let link = get_link buf in
        let frame = write_at buf 0 (
          put_link (record link {
            prev_hop = my_alias_for r.neighbors next;
            next_hop = addressed (their_alias_for r.neighbors next);
            flags = 0;
          })) in
        let net = get_net frame in
        tx_unicast s (write_at frame link_bytes (put_net (record net { ttl = out_ttl }))) next
          now_ms

  -- The frame of `send_ack`.
  abbrev pub ack_frame : Router F → NodeId → ℕ → List ℕ
  ack_frame r to seq =
      put_link (record {
        prev_hop = my_alias_for r.neighbors to;
        next_hop = addressed (their_alias_for r.neighbors to);
        link_seq = seq;
        flags = link_flag_is_ack;
      })
      ++ put_net (record {
        ver_type = net_ver_type pkt_ack;
        flags = 0;
        ttl = 1;
        dst = to;
        src = r.my_id;
        pkt_id = seq;
      })

  unfoldable pub send_ack : Link → Router F → NodeId → ℕ → Link
  send_ack s r to seq = record s { txq = (push s.txq (ack_frame r to seq)).0 }

  -- What the receiver of a frame does after the beacons and before it looks at the kind of packet: the
  -- link filter and the acknowledgements. `none` is `return`; `some` has `link_from`.
  unfoldable pub on_link : Link → Router F → LinkHeader → Link × Option NodeId
  on_link s r lh =
      let directed = not (lh.next_hop == link_addr_broadcast) in
      let link_from =
        if directed then neighbor_by_link r.neighbors lh.next_hop lh.prev_hop else zero_id in
      if directed && is_zero link_from
      then (s, none)
      else if not (bit_and lh.flags link_flag_is_ack == 0)
      then (record s { arq = (on_ack s.arq lh.link_seq).0 }, none)
      else if not (bit_and lh.flags link_flag_ack_req == 0) && not (is_zero link_from)
      then (send_ack s r link_from lh.link_seq, some link_from)
      else (s, some link_from)
