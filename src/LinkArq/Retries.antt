-- ===== src/LinkArq/Retries.antt =====
-- A frame is sent again at most as often as it was given retries.
use agnostic_lora_net.Prelude.{
  ℕ, zero, suc, ◌+◌, ◌≤◌, ◌≡◌, refl, inl, inr, false, not, List, [], ◌∷◌, some, ◌==◌, ltb,
  if◌then◌else◌, length, get_elem?, modify, find_slot_cases, Bool-cases, arith, &&_true, ==_iff,
}
use agnostic_lora_net.NodeId.{NodeId}
use agnostic_lora_net.LinkArq.{
  LinkArq, Pending, arq_frame_max, track, filled, on_ack, awaits, is_due, tick_slots, tick,
  next_seq,
}
use agnostic_lora_net.LinkArq.Account.{
  Call, numbers, tracks, acks, ticks, Ledger, call, calls, opened,
}

abbrev retries : Pending → ℕ
retries p = if p.used then p.retries_left else 0

-- The retries that the pending frames have left.
unfoldable pub budget : List Pending → ℕ
budget [] = 0
budget (p ∷ ps) = retries p + budget ps

budget-modify :
    (ps : List Pending) (i : ℕ) (f : Pending → Pending) {p : Pending}
    → get_elem? ps i ≡ some p
    → budget (modify ps i f) + retries p ≡ budget ps + retries (f p)
unfolding budget
budget-modify [] i f g = absurd (ground arith)
budget-modify (q ∷ ps) zero f {p} g = let s : q ≡ p = ground arith in rw s (omega arith)
budget-modify (q ∷ ps) (suc i) f {p} g =
    let rest = budget-modify ps i f {p = p} g in omega (arith, rest)

track-budget :
    (t : LinkArq) (link_seq : ℕ) (next_hop : NodeId) (frame : List ℕ)
    (len now_ms timeout_ms max_retries : ℕ)
    → let (t', taken) = track t link_seq next_hop frame len now_ms timeout_ms max_retries in
      budget t'.slots ≡ budget t.slots + (if taken then max_retries else 0)
unfolding track
track-budget t link_seq next_hop frame len now_ms timeout_ms max_retries =
    elim (Bool-cases (ltb arq_frame_max len)) [
      | inl big ↦ rw big (omega arith)
      | inr fits ↦ elim (find_slot_cases (λ p. not p.used) t.slots) [
        | inl (e, _, _) ↦ rw (fits, e, track) (omega arith)
        | inr (i, p, e, _, g, free) ↦
            let unused : p.used ≡ false = ground arith in
            let m =
              budget-modify t.slots i
                (filled link_seq next_hop frame len now_ms timeout_ms max_retries) g in
            rw (fits, e, track) (omega (arith, rw unused at m))
      ]
    ]

budget-on_ack : (t : LinkArq) (link_seq : ℕ) → budget (on_ack t link_seq).0.slots ≤ budget t.slots
unfolding on_ack
budget-on_ack t link_seq = elim (find_slot_cases (awaits link_seq) t.slots) [
  | inl (e, _, _) ↦ rw (e, on_ack) (omega arith)
  | inr (i, p, e, _, g, h) ↦
      let m = budget-modify t.slots i (λ p. record p { used = false }) g in
      rw (e, on_ack) (omega (arith, m))
]

tick_slots-budget :
    (now_ms : ℕ) (ps : List Pending)
    → let pass = tick_slots now_ms ps in budget pass.slots + length pass.sent ≡ budget ps
unfolding tick_slots budget
tick_slots-budget now_ms [] = refl
tick_slots-budget now_ms (p ∷ ps) =
    let rest = tick_slots-budget now_ms ps in
    elim (Bool-cases (is_due now_ms p)) [
      | inl due ↦
          let used = (&&_true {a = p.used} due).0 in
          elim (Bool-cases (p.retries_left == 0)) [
            | inl out ↦
                let spent = (==_iff _ _).0 out in rw (due, out, used) (omega (arith, rest, spent))
            | inr left ↦
                let more : 1 ≤ p.retries_left = ground arith in
                rw (due, left, used) (omega (arith, rest, more))
          ]
      | inr wait ↦ rw wait (omega (arith, rest))
    ]

call-budget :
    (l : Ledger) (c : Call)
    → l.resent + budget l.arq.slots ≤ l.granted
    → (call l c).resent + budget (call l c).arq.slots ≤ (call l c).granted
unfolding call next_seq tick
call-budget l numbers b = b
call-budget l (tracks link_seq next_hop frame len now_ms timeout_ms max_retries) b =
    let m = track-budget l.arq link_seq next_hop frame len now_ms timeout_ms max_retries in
    omega (arith, b, m)
call-budget l (acks link_seq) b = omega (arith, b, budget-on_ack l.arq link_seq)
call-budget l (ticks now_ms) b = omega (arith, b, tick_slots-budget now_ms l.arq.slots)

-- After any calls of a new engine, the retransmissions so far and the retries that pending frames
-- have left are together at most the retries that the tracked frames were given.
pub calls_bounded :
    (cs : List Call)
    → (calls opened cs).resent + budget (calls opened cs).arq.slots ≤ (calls opened cs).granted
unfolding calls budget
calls_bounded cs = from cs opened (omega arith)
  where
    from :
        (cs : List Call) (l : Ledger)
        → l.resent + budget l.arq.slots ≤ l.granted
        → (calls l cs).resent + budget (calls l cs).arq.slots ≤ (calls l cs).granted
    from [] l b = b
    from (c ∷ cs) l b = from cs (call l c) (call-budget l c b)
