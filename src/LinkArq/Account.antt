-- ===== src/LinkArq/Account.antt =====
-- Every frame that is tracked is pending, acknowledged or given up.
use agnostic_lora_net.Prelude.{
  ℕ, ◌+◌, ◌%◌, ◌≡◌, refl, inl, inr, not, List, [], ◌∷◌, ◌==◌, ltb, if◌then◌else◌, length, count,
  find_slot_cases, count-modify_on, count-modify_off, Bool-cases, arith, &&_true, add32, ◌^◌,
}
use agnostic_lora_net.NodeId.{NodeId}
use agnostic_lora_net.LinkArq.{
  LinkArq, Pending, init, arq_frame_max, next_seq, track, on_ack, awaits, is_due, tick_slots, tick,
  pending_count,
}

pub data Call : Type 0 where
  numbers : Call
  tracks :
      (link_seq : ℕ) (next_hop : NodeId) (frame : List ℕ) (len now_ms timeout_ms max_retries : ℕ)
      → Call
  acks : (link_seq : ℕ) → Call
  ticks : (now_ms : ℕ) → Call

-- The engine, with what its calls have done: the frames it took on, the retries those were given,
-- and the retransmissions.
pub record Ledger : Type 0 where
  pub arq : LinkArq
  pub tracked : ℕ
  pub granted : ℕ
  pub resent : ℕ

unfoldable pub call : Ledger → Call → Ledger
call l numbers = record l { arq = (next_seq l.arq).0 }
call l (tracks link_seq next_hop frame len now_ms timeout_ms max_retries) =
    let (arq, taken) = track l.arq link_seq next_hop frame len now_ms timeout_ms max_retries in
    record l {
      arq = arq;
      tracked = l.tracked + (if taken then 1 else 0);
      granted = l.granted + (if taken then max_retries else 0);
    }
call l (acks link_seq) = record l { arq = (on_ack l.arq link_seq).0 }
call l (ticks now_ms) =
    let (arq, sent, _) = tick l.arq now_ms in
    record l { arq = arq; resent = l.resent + length sent }

unfoldable pub calls : Ledger → List Call → Ledger
calls l [] = l
calls l (c ∷ cs) = calls (call l c) cs

abbrev pub opened : Ledger
opened = record { arq = init; tracked = 0; granted = 0; resent = 0 }

-- The counters of the engine wrap, and so does the sum that they are compared to.
abbrev pub Balances : Ledger → Type 0
Balances l = (pending_count l.arq + l.arq.acked + l.arq.dropped) % 2 ^ 32 ≡ l.tracked % 2 ^ 32

track_count :
    (t : LinkArq) (link_seq : ℕ) (next_hop : NodeId) (frame : List ℕ)
    (len now_ms timeout_ms max_retries : ℕ)
    → let (t', taken) = track t link_seq next_hop frame len now_ms timeout_ms max_retries in
      (pending_count t' ≡ pending_count t + (if taken then 1 else 0))
      × (t'.acked ≡ t.acked)
      × (t'.dropped ≡ t.dropped)
unfolding track pending_count
track_count t link_seq next_hop frame len now_ms timeout_ms max_retries =
    elim (Bool-cases (ltb arq_frame_max len)) [
      | inl big ↦ rw big (omega arith, refl, refl)
      | inr fits ↦ elim (find_slot_cases (λ p. not p.used) t.slots) [
        | inl (e, _, _) ↦ rw (fits, e, track) (omega arith, refl, refl)
        | inr (i, p, e, _, g, free) ↦
            rw (fits, e, track)
              (count-modify_on (λ p. p.used) t.slots i _ g (ground arith) refl, refl, refl)
      ]
    ]

on_ack_count :
    (t : LinkArq) (link_seq : ℕ)
    → let (t', matched) = on_ack t link_seq in
      (pending_count t' + (if matched then 1 else 0) ≡ pending_count t)
      × (t'.acked ≡ (if matched then add32 t.acked 1 else t.acked))
      × (t'.dropped ≡ t.dropped)
unfolding on_ack pending_count
on_ack_count t link_seq = elim (find_slot_cases (awaits link_seq) t.slots) [
  | inl (e, _, _) ↦ rw (e, on_ack) (omega arith, refl, refl)
  | inr (i, p, e, _, g, h) ↦
      rw (e, on_ack)
        (count-modify_off (λ p. p.used) t.slots i _ g (&&_true {a = p.used} h).0 refl, refl, refl)
]

tick_slots_count :
    (now_ms : ℕ) (ps : List Pending)
    → let pass = tick_slots now_ms ps in
      count (λ p. p.used) pass.slots + pass.dropped ≡ count (λ p. p.used) ps
unfolding tick_slots count
tick_slots_count now_ms [] = refl
tick_slots_count now_ms (p ∷ ps) =
    let rest = tick_slots_count now_ms ps in
    elim (Bool-cases (is_due now_ms p)) [
      | inl due ↦
          let used = (&&_true {a = p.used} due).0 in
          elim (Bool-cases (p.retries_left == 0)) [
            | inl out ↦ rw (due, out, used) (omega (arith, rest))
            | inr left ↦ rw (due, left, used) (omega (arith, rest))
          ]
      | inr wait ↦ rw wait (elim (Bool-cases p.used) [
        | inl used ↦ rw used (omega (arith, rest))
        | inr free ↦ rw free rest
      ])
    ]

call-Balances : (l : Ledger) (c : Call) → Balances l → Balances (call l c)
unfolding call next_seq pending_count tick
call-Balances l numbers b = b
call-Balances l (tracks link_seq next_hop frame len now_ms timeout_ms max_retries) b =
    let (p, a, d) = track_count l.arq link_seq next_hop frame len now_ms timeout_ms max_retries in
    rw (p, a, d) (omega (arith, b))
call-Balances l (acks link_seq) b =
    let (p, a, d) = on_ack_count l.arq link_seq in
    elim (Bool-cases (on_ack l.arq link_seq).1) [
      | inl m ↦ omega (arith, b, rw m at p, rw m at a, d)
      | inr m ↦ omega (arith, b, rw m at p, rw m at a, d)
    ]
call-Balances l (ticks now_ms) b =
    let kept = tick_slots_count now_ms l.arq.slots in omega (arith, kept, b)

-- After any calls of a new engine, the frames that were tracked are as many as those pending, those
-- acknowledged and those given up, as its 32-bit counters count them.
pub calls-Balances : (cs : List Call) → Balances (calls opened cs)
unfolding calls pending_count count
calls-Balances cs = from cs opened refl
  where
    from : (cs : List Call) (l : Ledger) → Balances l → Balances (calls l cs)
    from [] l b = b
    from (c ∷ cs) l b = from cs (call l c) (call-Balances l c b)
