-- ===== src/TxQueue/Tests.antt =====
-- The theorem on the queue, at a run that pushes, is refused, and sends.
use agnostic_lora_net.Prelude.{◌≡◌, refl, true, false, List, [], ◌∷◌}
use agnostic_lora_net.TxQueue.{push, pump}
use agnostic_lora_net.TxQueue.Fifo.{
  Call, pushes, pumps, call, calls, started, Refines, calls-Refines,
}

abbrev some_calls : List Call
some_calls =
    pushes (1 ∷ 2 ∷ [])
    ∷ pushes (3 ∷ [])
    ∷ pumps true (λ f. true)
    ∷ pumps false (λ f. false)
    ∷ pumps false (λ f. true)
    ∷ []

calls-Refines_example : Refines (calls started some_calls)
calls-Refines_example = calls-Refines some_calls

sends_first : (calls started some_calls).sent ≡ (1 ∷ 2 ∷ []) ∷ []
unfolding calls call push pump
sends_first = refl
