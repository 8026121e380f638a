-- ===== src/Control/Acks.antt =====
-- Acknowledgements are read back as they were built.
use agnostic_lora_net.Prelude.{
  ℕ, ◌%◌, ◌^◌, ◌<◌, ◌≤◌, ◌≡◌, ◌⊎◌, refl, inl, inr, true, false, bit_and, bit_or, List, ◌∷◌, ◌++◌,
  some, ltb, leb, ◌==◌, length, length-append, put_u32, Bool-cases, arith,
}
use agnostic_lora_net.NodeId.{NodeId, IsNodeId}
use agnostic_lora_net.Control.{ctrl_ver, ctrl_ack_bytes, known_cmd, is_ack, build_ack, parse_ack}
use agnostic_lora_net.Prelude.{take-part, get_or-part, quad_lem}

-- The high bit that marks an acknowledgement comes off again.
marked :
    (cmd : ℕ)
    → known_cmd cmd ≡ true
    → (bit_and (bit_or cmd 0x80 % 256) 0x7f ≡ cmd)
      × ((bit_and (bit_or cmd 0x80 % 256) 0x80 == 0) ≡ false)
marked cmd h =
    let six : (cmd ≡ 1) ⊎ ((cmd ≡ 2) ⊎ ((cmd ≡ 3) ⊎ ((cmd ≡ 4) ⊎ ((cmd ≡ 5) ⊎ (cmd ≡ 6))))) =
      ground arith in
    elim six [
      | inl e ↦ rw e (refl, refl)
      | inr (inl e) ↦ rw e (refl, refl)
      | inr (inr (inl e)) ↦ rw e (refl, refl)
      | inr (inr (inr (inl e))) ↦ rw e (refl, refl)
      | inr (inr (inr (inr (inl e)))) ↦ rw e (refl, refl)
      | inr (inr (inr (inr (inr e)))) ↦ rw e (refl, refl)
    ]

-- The acknowledgement of a known command, by a node of sixteen bytes and with a counter of 32 bits,
-- is told from a command by its high bit, and all its fields are read back.
pub parse_ack-build_ack :
    (cmd applied provisional counter room : ℕ) (origin : NodeId) {p : List ℕ}
    → known_cmd cmd ≡ true
    → IsNodeId origin
    → counter < 2 ^ 32
    → build_ack cmd origin applied provisional counter room ≡ some p
    → parse_ack p
      ≡ some (record {
        cmd = cmd;
        origin = origin;
        applied = applied;
        provisional = provisional;
        counter = counter;
      })
unfolding build_ack parse_ack is_ack
parse_ack-build_ack cmd applied provisional counter room origin {p} known ho hc e =
    elim (Bool-cases (ltb room ctrl_ack_bytes)) [
      | inl small ↦ absurd (ground arith)
      | inr fits ↦
          let rest = applied ∷ provisional ∷ put_u32 counter in
          let m = bit_or cmd 0x80 % 256 in
          let msg = ctrl_ver ∷ m ∷ (origin ++ rest) in
          let s : msg ≡ p = ground arith in
          let long : leb ctrl_ack_bytes (length msg) ≡ true =
            let n = length-append origin rest in
            let le : 24 ≤ length msg = omega (arith, n, ho) in ground arith in
          let (low, high) = marked cmd known in
          let at = get_or-part 16 origin rest ho in
          rw (
            ← s,
            long,
            high,
            low,
            at 0,
            at 1,
            at 2,
            at 3,
            at 4,
            at 5,
            take-part 16 origin rest ho,
            quad_lem counter hc,
          )
    ]
