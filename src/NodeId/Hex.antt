-- ===== src/NodeId/Hex.antt =====
-- The hexadecimal text of an id is read back as the id.
use agnostic_lora_net.Prelude.{
  ℕ, zero, suc, ◌/◌, ◌%◌, ◌<◌, ◌≡◌, refl, subst, Bool, true, false, ◌&&◌, List, [], ◌∷◌, ◌++◌, some,
  none, arith, ◌==◌, length, AllBytes, Option, ℕ_discrete, &&_true,
}
use agnostic_lora_net.NodeId.{NodeId, IsNodeId, hex, hex_digit, hexval, from_hex, from_hex_loop}

reads_as : Option ℕ → ℕ → Bool
reads_as none v = false
reads_as (some w) v = w == v

-- The first `k` digits are read back as what they stand for; over all sixteen, by evaluation.
first_digits : ℕ → Bool
first_digits zero = true
first_digits (suc k) = first_digits k && reads_as (hexval (hex_digit k)) k

first_digits-reads_as :
    (k v : ℕ) → v < k → first_digits k ≡ true → reads_as (hexval (hex_digit v)) v ≡ true
unfolding first_digits
first_digits-reads_as zero v below h = elim below [ ]
first_digits-reads_as (suc k) v below h = elim (ℕ_discrete v k) [
  | yes same ↦ rw same (&&_true {a = first_digits k} h).1
  | no other ↦
      first_digits-reads_as k v (omega (arith, other, below)) (&&_true {a = first_digits k} h).0
]

sixteen : first_digits 16 ≡ true
unfolding first_digits reads_as hexval hex_digit
sixteen = refl

hexval-hex_digit : (v : ℕ) → v < 16 → hexval (hex_digit v) ≡ some v
hexval-hex_digit v h = go (hexval (hex_digit v)) (first_digits-reads_as 16 v h sixteen)
  where
    go : (o : Option ℕ) → reads_as o v ≡ true → o ≡ some v
    go none e = absurd (unfold reads_as in ground arith)
    go (some w) e = unfold reads_as in ground arith

from_hex_loop-hex :
    (id : NodeId) (rest : List ℕ)
    → AllBytes id
    → from_hex_loop (length id) (hex id ++ rest) ≡ (id, length id)
unfolding from_hex_loop hex
from_hex_loop-hex [] rest h = refl
from_hex_loop-hex (b ∷ bs) rest h =
    rw
      (
        hexval-hex_digit (b / 16) (omega (arith, h.0)),
        hexval-hex_digit (b % 16) (omega arith),
        from_hex_loop,
        from_hex_loop-hex bs rest h.1,
      )
      (ground arith)

-- Whatever follows the 32 digits that `nid_hex` writes for an id of sixteen bytes, `nid_from_hex` reads all sixteen
-- bytes of that id back, and says so.
pub from_hex-hex :
    (id : NodeId) (rest : List ℕ) → IsNodeId id → AllBytes id → from_hex (hex id ++ rest) ≡ (id, 16)
unfolding from_hex
from_hex-hex id rest n h =
    subst (λ k. from_hex_loop k (hex id ++ rest) ≡ (id, k)) n (from_hex_loop-hex id rest h)
