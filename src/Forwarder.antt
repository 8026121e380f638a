-- ===== src/Forwarder.antt =====
-- lib/mesh/forwarder.h and forwarder.cpp: deliver, forward or drop a packet that arrived.
pub mod Seen
pub mod Decide
mod Tests
use agnostic_lora_net.Prelude.{
  ℕ, ◌+◌, ◌-◌, ◌%◌, Bool, true, false, ◌&&◌, ◌||◌, List, ◌==◌, leb, if◌then◌else◌, replicate, any,
  modify, bytes_eq,
}
use agnostic_lora_net.NodeId.{NodeId, zero_id, broadcast, is_zero}
use agnostic_lora_net.Float.{Float}
use agnostic_lora_net.Router
use agnostic_lora_net.Router.{Router}

abbrev pub seen_cache_size : ℕ
seen_cache_size = 64

pub record PacketRef : Type 0 where
  pub src : NodeId
  pub dst : NodeId
  pub pkt_id : ℕ
  pub ttl : ℕ

pub data Action : Type 0 where
  deliver : Action
  forward : Action
  drop_own : Action
  drop_dup : Action
  drop_ttl : Action
  drop_no_route : Action

pub record Decision : Type 0 where
  pub action : Action
  pub next_hop : NodeId
  pub out_ttl : ℕ

pub record SeenEntry : Type 0 where
  pub src : NodeId
  pub pkt_id : ℕ
  pub used : Bool

-- Without the reference `router_`, which `decide` is given.
pub record Forwarder : Type 0 where
  pub me : NodeId
  pub seen : List SeenEntry
  pub seen_head : ℕ

abbrev pub init : NodeId → Forwarder
init me = record {
  me = me;
  seen = replicate seen_cache_size (record { src = zero_id; pkt_id = 0; used = false });
  seen_head = 0;
}

abbrev pub is_entry : NodeId → ℕ → SeenEntry → Bool
is_entry src pkt_id e = e.used && (bytes_eq e.src src && (e.pkt_id == pkt_id))

abbrev pub entry : NodeId → ℕ → SeenEntry
entry src pkt_id = record { src = src; pkt_id = pkt_id; used = true }

unfoldable pub seen_or_insert : Forwarder → NodeId → ℕ → Forwarder × Bool
seen_or_insert f src pkt_id = if any (is_entry src pkt_id) f.seen then (f, true) else (
  record f {
    seen = modify f.seen f.seen_head (λ _. entry src pkt_id);
    seen_head = (f.seen_head + 1) % seen_cache_size;
  },
  false,
)

pub mark_seen : Forwarder → NodeId → ℕ → Forwarder
mark_seen f src pkt_id = (seen_or_insert f src pkt_id).0

-- A decision that names no next hop.
abbrev pub no_hop : Action → Decision
no_hop a = record { action = a; next_hop = zero_id; out_ttl = 0 }

-- `decide` for a packet that was not seen before.
unfoldable pub decide_new : {F : Type 0} → Router F → NodeId → PacketRef → Decision
decide_new r me p =
    if bytes_eq p.dst me || bytes_eq p.dst broadcast
    then no_hop deliver
    else if leb p.ttl 1
    then no_hop drop_ttl
    else let nh = Router.next_hop r p.dst in
      if is_zero nh
      then no_hop drop_no_route
      else record { action = forward; next_hop = nh; out_ttl = p.ttl - 1 }

pub decide : {F : Type 0} → Router F → Forwarder → PacketRef → Forwarder × Decision
decide r f p =
    if bytes_eq p.src f.me
    then (f, no_hop drop_own)
    else if (seen_or_insert f p.src p.pkt_id).1
    then ((seen_or_insert f p.src p.pkt_id).0, no_hop drop_dup)
    else ((seen_or_insert f p.src p.pkt_id).0, decide_new r f.me p)
