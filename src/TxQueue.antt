-- ===== src/TxQueue.antt =====
-- src/main.cpp: the queue of frames that wait for the radio.
pub mod Fifo
mod Tests
use agnostic_lora_net.Prelude.{
  ℕ, suc, zero, ◌+◌, ◌-◌, ◌%◌, Bool, true, false, ◌||◌, List, [], ◌∷◌, Option, none, some, ltb, leb,
  ◌==◌, if◌then◌else◌, length, get_or, set, replicate,
}

abbrev pub max_payload : ℕ
max_payload = 255

abbrev pub txq_depth : ℕ
txq_depth = 6

-- A `TxItem` is the first `len` bytes of its frame.
pub record TxQueue : Type 0 where
  pub items : List (List ℕ)
  pub head : ℕ
  pub tail : ℕ
  pub count : ℕ

abbrev pub init : TxQueue
init = record { items = replicate txq_depth []; head = 0; tail = 0; count = 0 }

unfoldable pub push : TxQueue → List ℕ → TxQueue × Bool
push q frame =
    if leb txq_depth q.count || ltb (1 + max_payload) (length frame) then (q, false) else (
      record q {
        items = set q.items q.tail frame;
        tail = (q.tail + 1) % txq_depth;
        count = q.count + 1;
      },
      true,
    )

-- `txq_pump`, with the frame that the radio took. `busy` is what `radio.busy()` says and `sends`
-- what `radio.send` makes of a frame.
unfoldable pub pump : TxQueue → Bool → (List ℕ → Bool) → TxQueue × Option (List ℕ)
pump q busy sends =
    let frame = get_or q.items q.head [] in
    if (q.count == 0) || busy
    then (q, none)
    else if sends frame
    then (record q { head = (q.head + 1) % txq_depth; count = q.count - 1 }, some frame)
    else (q, none)
