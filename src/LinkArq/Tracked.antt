-- ===== src/LinkArq/Tracked.antt =====
-- A frame that is tracked, in the slot that it takes.
use agnostic_lora_net.Prelude.{
  ℕ, ◌≤◌, ◌≡◌, refl, sym, ◌∙◌, inl, inr, true, false, not, List, [], ◌∷◌, some, length, take,
  get_elem?, get_elem?-modify_self, find_slot_cases, write_at, le→ltb_false, take_all, add32, Every,
  ap, arith,
}
use mathlib.Core.Bool.{false≢true}
use agnostic_lora_net.NodeId.{NodeId}
use agnostic_lora_net.LinkArq.{LinkArq, Pending, arq_frame_max, next_seq, track}

pub next_seq_slots : (t : LinkArq) → (next_seq t).0.slots ≡ t.slots
unfolding next_seq
next_seq_slots t = refl

take-write_at :
    (buf xs : List ℕ) → length xs ≤ length buf → take (length xs) (write_at buf 0 xs) ≡ xs
unfolding write_at
take-write_at buf [] h = refl
take-write_at [] (x ∷ xs) h = absurd (omega (arith, h))
take-write_at (b ∷ bs) (x ∷ xs) h = ap (λ z. x ∷ z) (take-write_at bs xs (omega (arith, h)))

-- The engine holds a frame, of these bytes, for a next hop under a number, to be sent again at a time.
pub record Holds (t : LinkArq) (link_seq : ℕ) (next_hop : NodeId) (frame : List ℕ)
    (next_tx_ms retries : ℕ) : Type 0 where
  pub place : ℕ
  pub slot : Pending
  pub there : get_elem? t.slots place ≡ some slot
  pub used : slot.used ≡ true
  pub seq : slot.seq ≡ link_seq
  pub hop : slot.next_hop ≡ next_hop
  pub bytes : take slot.len slot.frame ≡ frame
  pub due : slot.next_tx_ms ≡ next_tx_ms
  pub left : slot.retries_left ≡ retries

-- The engine has a free slot, and its slots have their whole buffers.
pub record HasRoom (t : LinkArq) : Type 0 where
  pub whole : Every (λ (p : Pending). length p.frame ≡ arq_frame_max) t.slots
  pub place : ℕ
  pub slot : Pending
  pub there : get_elem? t.slots place ≡ some slot
  pub free : slot.used ≡ false

-- A frame of at most 255 bytes that an engine with room is told to track is held by it.
pub track-Holds :
    (t : LinkArq) (link_seq : ℕ) (next_hop : NodeId) (frame : List ℕ)
    (now_ms timeout_ms max_retries : ℕ)
    → HasRoom t
    → length frame ≤ arq_frame_max
    → Holds
        (track t link_seq next_hop frame (length frame) now_ms timeout_ms max_retries).0
        link_seq
        next_hop
        frame
        (add32 now_ms timeout_ms)
        max_retries
unfolding track
track-Holds t link_seq next_hop frame now_ms timeout_ms max_retries room short =
    let fits = le→ltb_false arq_frame_max (length frame) short in
    elim (find_slot_cases (λ (p : Pending). not p.used) t.slots) [
      | inl (_, _, absent) ↦
          let taken = absent room.place room.slot room.there in
          absurd (false≢true (sym taken ∙ ap not room.free))
      | inr (i, p, at, _, g, _) ↦
          let w = room.whole i p g in
          rw (fits, at, track)
            (record {
              place = i;
              slot = _;
              there = get_elem?-modify_self t.slots i _ g;
              used = refl;
              seq = refl;
              hop = refl;
              bytes =
                  ap (λ z. take (length frame) (write_at p.frame 0 z))
                    (take_all (length frame) frame (omega arith))
                  ∙ take-write_at p.frame frame (omega (arith, w, short));
              due = refl;
              left = refl;
            })
    ]
