-- ===== src/Packet.antt =====
-- include/packet.h: the headers of a frame; and the copies of a flooded frame that src/main.cpp sends on.
pub mod Reflood
pub mod Flood
pub mod Unicast
mod Tests
use agnostic_lora_net.Prelude.{
  ℕ, suc, zero, ◌+◌, ◌*◌, ◌%◌, ◌/◌, Bool, true, false, List, [], ◌∷◌, ◌++◌, Option, none, some, ltb,
  if◌then◌else◌, length, get_or, put_u16, get_u16, write_at,
}
use agnostic_lora_net.NodeId.{NodeId, nid_read}
use agnostic_lora_net.TxQueue.{max_payload}

abbrev pub link_addr_none : ℕ
link_addr_none = 0x00

abbrev pub link_addr_broadcast : ℕ
link_addr_broadcast = 0xff

abbrev pub proto_version : ℕ
proto_version = 2

pub record LinkHeader : Type 0 where
  pub prev_hop : ℕ
  pub next_hop : ℕ
  pub link_seq : ℕ
  pub flags : ℕ

pub record NetHeader : Type 0 where
  pub ver_type : ℕ
  pub flags : ℕ
  pub ttl : ℕ
  pub dst : NodeId
  pub src : NodeId
  pub pkt_id : ℕ

abbrev pub link_bytes : ℕ
link_bytes = 4

-- `memcpy(frame, &link, sizeof(link))` and back: the packed fields, in order.
abbrev pub put_link : LinkHeader → List ℕ
put_link l = l.prev_hop ∷ l.next_hop ∷ l.link_seq ∷ l.flags ∷ []

abbrev pub get_link : List ℕ → LinkHeader
get_link frame = record {
  prev_hop = get_or frame 0 0;
  next_hop = get_or frame 1 0;
  link_seq = get_or frame 2 0;
  flags = get_or frame 3 0;
}

-- `memcpy(frame + sizeof(link), &net, sizeof(net))` and back.
abbrev pub put_net : NetHeader → List ℕ
put_net n = n.ver_type ∷ n.flags ∷ n.ttl ∷ (n.dst ++ (n.src ++ put_u16 n.pkt_id))

abbrev pub get_net : List ℕ → NetHeader
get_net frame = record {
  ver_type = get_or frame 4 0;
  flags = get_or frame 5 0;
  ttl = get_or frame 6 0;
  dst = nid_read frame 7;
  src = nid_read frame 23;
  pkt_id = get_u16 frame 39;
}

-- `loc_reflood`, with the frame that it pushes. What stands past the `len` bytes of the array is
-- never sent.
unfoldable pub reflood : List ℕ → ℕ → Option (List ℕ)
reflood buf out_ttl =
    if ltb (1 + max_payload) (length buf)
    then none
    else let link = get_link buf in
      let frame = write_at buf 0 (
        put_link
          (record link { prev_hop = link_addr_none; next_hop = link_addr_broadcast; flags = 0 })) in
      let net = get_net frame in
      some (write_at frame link_bytes (put_net (record net { ttl = out_ttl })))
