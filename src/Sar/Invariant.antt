-- ===== src/Sar/Invariant.antt =====
-- The reassembler stays well formed whatever the radio hands it.
use agnostic_lora_net.Prelude.{
  ℕ, ◌+◌, ◌-◌, ◌%◌, ◌^◌, ◌≤◌, ◌<◌, ◌≡◌, ◌⊎◌, refl, inl, inr, true, false, List, arith, length, ltb,
  ◌==◌, Bool-cases, drop, min, length-set, length-write_at, not, ◌||◌,
}
use agnostic_lora_net.Sar.{
  Reassembler, Header, header, init, store, join, restart, add, is_consistent, is_fragment,
  complete, missing, frag_count, max_frags, max_file, offset, hdr_bytes,
}
use agnostic_lora_net.Sar.Bitmap.{
  bit, ones, ones-le, ones_full, ones-replicate, ones-set_new, ones-set_old, All,
  length-missing_loop, All-missing_loop, unset-ones, ones_zero,
}

-- The fields of the transfer in flight agree, and the count of fragments is that of the bitmap.
pub record IsSound (r : Reassembler) : Type 0 where
  pub few : r.frags ≤ max_frags
  pub small : r.total_len ≤ max_file
  pub counted : r.got_count ≡ ones r.frags r.got
  pub sized : r.frags ≡ frag_count r.total_len

pub record IsWellFormed (r : Reassembler) : Type 0 where
  pub bits : length r.got ≡ max_frags
  pub bytes : length r.buf ≡ max_file
  pub sound : (r.active ≡ false) ⊎ IsSound r

-- What the checks of `add` ensure of a header and its chunk.
pub record Accepted (h : Header) (chunk : List ℕ) : Type 0 where
  pub in_range : h.idx < h.count
  pub few : h.count ≤ max_frags
  pub small : h.tlen ≤ max_file
  pub sized : h.count ≡ frag_count h.tlen

pub is_consistent-Accepted :
    (h : Header) (chunk : List ℕ) → is_consistent h chunk ≡ true → Accepted h chunk
unfolding is_consistent
is_consistent-Accepted h chunk e = ground arith

got-mod : (r : Reassembler) → IsSound r → (r.got_count + 1) % 2 ^ 16 ≡ r.got_count + 1
got-mod r s = omega (arith, ones-le r.frags r.got)

store-IsWellFormed :
    (r : Reassembler) (h : Header) (chunk : List ℕ)
    → IsWellFormed r
    → IsSound r
    → h.idx < r.frags
    → IsWellFormed (store r h chunk).0
unfolding store
store-IsWellFormed r h chunk w s lt = elim (Bool-cases (ltb max_file (offset h + length chunk))) [
  | inl big ↦ rw big w
  | inr fits ↦ elim (Bool-cases (bit r.got h.idx)) [
    | inl old ↦
        rw (fits, old)
          (record {
            bits = omega (arith, length-set r.got h.idx true, w.bits);
            bytes = omega (arith, length-write_at r.buf (offset h) chunk, w.bytes);
            sound = inr (record {
              few = s.few;
              small = s.small;
              counted = omega (arith, s.counted, ones-set_old r.frags r.got h.idx old);
              sized = s.sized;
            });
          })
    | inr new ↦
        rw (fits, new)
          (record {
            bits = omega (arith, length-set r.got h.idx true, w.bits);
            bytes = omega (arith, length-write_at r.buf (offset h) chunk, w.bytes);
            sound = inr (record {
              few = s.few;
              small = s.small;
              counted = omega (
                arith,
                s.counted,
                got-mod r s,
                w.bits,
                s.few,
                ones-set_new r.frags r.got h.idx lt (omega (arith, w.bits, s.few)) new,
              );
              sized = s.sized;
            });
          })
  ]
]

pub restart-IsSound :
    (r : Reassembler) (h : Header) (chunk : List ℕ) → Accepted h chunk → IsSound (restart r h)
restart-IsSound r h chunk a = record {
  few = a.few;
  small = a.small;
  counted = omega (arith, ones-replicate h.count max_frags);
  sized = a.sized;
}

restart-IsWellFormed :
    (r : Reassembler) (h : Header) (chunk : List ℕ)
    → IsWellFormed r
    → Accepted h chunk
    → IsWellFormed (restart r h)
restart-IsWellFormed r h chunk w a = record {
  bits = refl;
  bytes = w.bytes;
  sound = inr (restart-IsSound r h chunk a);
}

join-IsWellFormed :
    (r : Reassembler) (h : Header) (chunk : List ℕ)
    → IsWellFormed r
    → Accepted h chunk
    → IsWellFormed (join r h chunk).0
unfolding join
join-IsWellFormed r h chunk w a = elim (Bool-cases (not r.active || not (h.xfer == r.xfer_id))) [
  | inl new ↦ rw new (
      store-IsWellFormed (restart r h) h chunk (restart-IsWellFormed r h chunk w a)
        (restart-IsSound r h chunk a) a.in_range)
  | inr old ↦
      elim (Bool-cases (
        not (h.count == r.frags) || (not (h.tlen == r.total_len) || not (h.tcrc == r.total_crc)))) [
          | inl differs ↦ rw (old, differs) w
          | inr same ↦ rw (old, same) (go w.sound (ground arith))
        ]
]
  where
    go :
        (r.active ≡ false) ⊎ IsSound r
        → (r.active ≡ true) × (h.count ≡ r.frags)
        → IsWellFormed (store r h chunk).0
    go (inl off) (on, e) = absurd (ground arith)
    go (inr s) (on, e) = store-IsWellFormed r h chunk w s (omega (arith, a.in_range))

pub init-IsWellFormed : IsWellFormed init
init-IsWellFormed = record { bits = refl; bytes = refl; sound = inl refl }

-- No payload, well formed or forged, takes a reassembler out of its invariant once it holds: the arrays keep
-- their sizes, and while a transfer is active the count of fragments is the number of bits set.
pub add-IsWellFormed : (r : Reassembler) (p : List ℕ) → IsWellFormed r → IsWellFormed (add r p).0
unfolding add
add-IsWellFormed r p w = elim (Bool-cases (is_fragment p)) [
  | inr f ↦ rw f w
  | inl t ↦ elim (Bool-cases (is_consistent (header p) (drop hdr_bytes p))) [
    | inr f ↦ rw (t, f) w
    | inl c ↦
        rw (t, c)
          (join-IsWellFormed r (header p) (drop hdr_bytes p) w
            (is_consistent-Accepted (header p) (drop hdr_bytes p) c))
  ]
]

-- A well-formed reassembler that reports completion has every fragment of its transfer.
pub complete-bit :
    (r : Reassembler) (i : ℕ)
    → IsWellFormed r
    → complete r ≡ true
    → i < r.frags
    → bit r.got i ≡ true
unfolding complete
complete-bit r i w c lt = go w.sound (ground arith)
  where
    go :
        (r.active ≡ false) ⊎ IsSound r
        → (r.active ≡ true) × (r.got_count ≡ r.frags)
        → bit r.got i ≡ true
    go (inl off) (on, e) = absurd (ground arith)
    go (inr s) (on, e) = ones_full r.frags r.got i (omega (arith, s.counted)) lt

-- While a well-formed reassembler receives a transfer, the list of missing fragments holds only
-- indices of the transfer that are not in, and as many of them as there are, up to the room given.
pub missing_lem :
    (r : Reassembler) (room : ℕ)
    → IsWellFormed r
    → r.active ≡ true
    → All (λ j. (bit r.got j ≡ false) × (j < r.frags)) (missing r room)
      × (length (missing r room) ≡ min room (r.frags - r.got_count))
unfolding missing
missing_lem r room w on = go w.sound
  where
    go :
        (r.active ≡ false) ⊎ IsSound r
        → All (λ j. (bit r.got j ≡ false) × (j < r.frags)) (missing r room)
          × (length (missing r room) ≡ min room (r.frags - r.got_count))
    go (inl off) = absurd (ground arith)
    go (inr s) = rw on (
      All-missing_loop r.got r.frags 0 r.frags room (omega arith),
      omega (
        arith,
        length-missing_loop r.got r.frags 0 room,
        unset-ones r.got r.frags 0 r.frags (omega arith),
        s.counted,
        ones_zero r.got,
      ),
    )
