-- ===== src/LinkArq/Tests.antt =====
-- Runs of the link ARQ, and the theorems at a concrete run.
use agnostic_lora_net.Prelude.{◌+◌, ◌≤◌, ◌≡◌, refl, List, [], ◌∷◌, replicate, find_slot}
use agnostic_lora_net.LinkArq.{on_ack, tick, tick_slots, track, next_seq}
use agnostic_lora_net.LinkArq.Account.{
  Call, numbers, tracks, acks, ticks, call, calls, opened, Balances, calls-Balances,
}
use agnostic_lora_net.LinkArq.Retries.{budget, calls_bounded}

-- Two frames of two retries each: one is acknowledged at once, the other after one retry.
abbrev exchange : List Call
exchange =
    numbers
    ∷ tracks 1 (replicate 16 2) (7 ∷ 8 ∷ []) 2 0 5_000 2
    ∷ tracks 2 (replicate 16 3) (9 ∷ []) 1 0 9_000 2
    ∷ acks 1
    ∷ ticks 9_000
    ∷ acks 2
    ∷ []

exchange-runs : ((calls opened exchange).arq.acked ≡ 2) × ((calls opened exchange).resent ≡ 1)
unfolding calls call next_seq track on_ack tick tick_slots find_slot
exchange-runs = (refl, refl)

calls-Balances_example : Balances (calls opened exchange)
calls-Balances_example = calls-Balances exchange

calls_bounded_example :
    (calls opened exchange).resent + budget (calls opened exchange).arq.slots
    ≤ (calls opened exchange).granted
calls_bounded_example = calls_bounded exchange
