-- ===== src/LinkArq.antt =====
-- lib/mesh/link_arq.h and link_arq.cpp: acknowledgement and retry of the frames to a next hop.
pub mod Account
pub mod Retries
pub mod Tracked
mod Tests
use agnostic_lora_net.Prelude.{
  ℕ, suc, ◌+◌, ◌-◌, ◌%◌, Bool, true, false, not, ◌&&◌, List, [], ◌∷◌, ◌==◌, ltb, if◌then◌else◌,
  Option, none, some, replicate, take, find_slot, modify, count, add32, before32, write_at,
}
use agnostic_lora_net.NodeId.{NodeId, zero_id}

abbrev pub arq_max_pending : ℕ
arq_max_pending = 4

abbrev pub arq_max_retries : ℕ
arq_max_retries = 5

abbrev pub arq_timeout_ms : ℕ
arq_timeout_ms = 5000

abbrev pub arq_frame_max : ℕ
arq_frame_max = 255

pub record Pending : Type 0 where
  pub used : Bool
  pub seq : ℕ
  pub next_hop : NodeId
  pub retries_left : ℕ
  pub next_tx_ms : ℕ
  pub timeout_ms : ℕ
  pub len : ℕ
  pub frame : List ℕ

pub record LinkArq : Type 0 where
  pub slots : List Pending
  pub seq_ctr : ℕ
  pub acked : ℕ
  pub dropped : ℕ

abbrev pub no_pending : Pending
no_pending = record {
  used = false;
  seq = 0;
  next_hop = zero_id;
  retries_left = 0;
  next_tx_ms = 0;
  timeout_ms = 0;
  len = 0;
  frame = replicate arq_frame_max 0;
}

abbrev pub init : LinkArq
init = record { slots = replicate arq_max_pending no_pending; seq_ctr = 0; acked = 0; dropped = 0 }

-- `seq_ctr_++`
abbrev bumped : ℕ → ℕ
bumped c = (c + 1) % 256

-- The loop ends after its second round at the latest, since 0 is bumped to 1.
pub next_seq : LinkArq → LinkArq × ℕ
next_seq t =
    let c = bumped t.seq_ctr in
    let c' = if c == 0 then bumped c else c in (record t { seq_ctr = c' }, c')

-- The frame that a slot is filled with.
abbrev pub filled : ℕ → NodeId → List ℕ → ℕ → ℕ → ℕ → ℕ → Pending → Pending
filled link_seq next_hop frame len now_ms timeout_ms max_retries p = record {
  used = true;
  seq = link_seq;
  next_hop = next_hop;
  retries_left = max_retries;
  next_tx_ms = add32 now_ms timeout_ms;
  timeout_ms = timeout_ms;
  len = len;
  frame = write_at p.frame 0 (take len frame);
}

pub track : LinkArq → ℕ → NodeId → List ℕ → ℕ → ℕ → ℕ → ℕ → LinkArq × Bool
track t link_seq next_hop frame len now_ms timeout_ms max_retries =
    if ltb arq_frame_max len then (t, false) else elim (find_slot (λ p. not p.used) t.slots) [
      | none ↦ (t, false)
      | some (i, p) ↦ (
        record t {
          slots =
              modify t.slots i (filled link_seq next_hop frame len now_ms timeout_ms max_retries);
        },
        true,
      )
    ]

abbrev pub awaits : ℕ → Pending → Bool
awaits link_seq p = p.used && (p.seq == link_seq)

pub on_ack : LinkArq → ℕ → LinkArq × Bool
on_ack t link_seq = elim (find_slot (awaits link_seq) t.slots) [
  | none ↦ (t, false)
  | some (i, p) ↦ (
    record t { slots = modify t.slots i (λ p. record p { used = false }); acked = add32 t.acked 1 },
    true,
  )
]

-- A frame that the callback was called with, and its length.
pub record Sent : Type 0 where
  pub frame : List ℕ
  pub len : ℕ

-- What one pass over the slots leaves, sends and gives up.
pub record Pass : Type 0 where
  pub slots : List Pending
  pub sent : List Sent
  pub dropped : ℕ

abbrev pub is_due : ℕ → Pending → Bool
is_due now_ms p = p.used && not (before32 now_ms p.next_tx_ms)

unfoldable pub tick_slots : ℕ → List Pending → Pass
tick_slots now_ms [] = record { slots = []; sent = []; dropped = 0 }
tick_slots now_ms (p ∷ ps) =
    let rest = tick_slots now_ms ps in
    if is_due now_ms p
    then if p.retries_left == 0
      then record {
        slots = record p { used = false } ∷ rest.slots;
        sent = rest.sent;
        dropped = rest.dropped + 1;
      }
      else record {
        slots =
            record p { retries_left = p.retries_left - 1; next_tx_ms = add32 now_ms p.timeout_ms }
            ∷ rest.slots;
        sent = record { frame = p.frame; len = p.len } ∷ rest.sent;
        dropped = rest.dropped;
      }
    else record { slots = p ∷ rest.slots; sent = rest.sent; dropped = rest.dropped }

-- `tick`, with the calls of `fn` and the number that it returns. There are four slots, so that the
-- 8-bit number cannot wrap.
pub tick : LinkArq → ℕ → LinkArq × List Sent × ℕ
tick t now_ms =
    let pass = tick_slots now_ms t.slots in
    (
      record t { slots = pass.slots; dropped = add32 t.dropped pass.dropped },
      pass.sent,
      pass.dropped,
    )

pub pending_count : LinkArq → ℕ
pending_count t = count (λ p. p.used) t.slots
