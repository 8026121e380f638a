-- ===== src/NodeId/Tests.antt =====
-- Runs of the texts of ids, and the theorems at concrete ids.
use agnostic_lora_net.Prelude.{◌≡◌, refl, [], ◌∷◌, ◌++◌, arith, replicate}
use agnostic_lora_net.NodeId.{NodeId, hex, hexval, from_hex, from_hex_loop}
use agnostic_lora_net.NodeId.Hex.{from_hex-hex}

-- The id 2A00…0B.
abbrev some_id : NodeId
some_id = 0x2a ∷ (replicate 14 0 ++ 0x0b ∷ [])

from_hex-runs : from_hex (0x32 ∷ 0x61 ∷ 0x5a ∷ 0x31 ∷ []) ≡ (0x2a ∷ replicate 15 0, 1)
unfolding from_hex from_hex_loop hexval
from_hex-runs = refl

from_hex-hex_example : from_hex (hex some_id ++ 0x20 ∷ []) ≡ (some_id, 16)
from_hex-hex_example = from_hex-hex some_id (0x20 ∷ []) refl (omega arith)
