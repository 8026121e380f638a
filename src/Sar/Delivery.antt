-- ===== src/Sar/Delivery.antt =====
-- Delivery of a blob: its fragments, in any order and with repeats, are put together again.
use agnostic_lora_net.Prelude.{
  ℕ, ◌+◌, ◌-◌, ◌*◌, ◌/◌, ◌^◌, ◌≤◌, ◌<◌, ◌≡◌, ◌≢◌, sym, ap, ◌∙◌, inl, inr, true, false, List, arith,
  length, get_or, set, drop, ltb, Bool-cases, length-set, length-write_at, write_at, ℕ_discrete,
  dec_lt, get_or-set_ne, get_or-write_at_in, get_or-write_at_before, get_or-write_at_after,
  le→ltb_false, get_or-take, get_or-drop,
}
use agnostic_lora_net.Sar.{
  Reassembler, Header, store, frag_count, max_frags, max_file, chunk_bytes, crc32,
}
use agnostic_lora_net.Sar.Bitmap.{bit, ones, ones-le, ones-set_new, ones-set_old}
use agnostic_lora_net.Sar.Fragment.{chunk_of, header_of, length-chunk_of}

pub crc32-lt : (bytes : List ℕ) → crc32 bytes < 2 ^ 32
unfolding crc32
crc32-lt bytes = omega arith

module _ (blob : List ℕ) (xfer : ℕ) where
  -- The reassembler is taking in this blob, and the bytes of every fragment that it has are those
  -- of the blob.
  pub record Assembles (r : Reassembler) : Type 0 where
    pub on : r.active ≡ true
    pub this : r.xfer_id ≡ xfer
    pub frags_eq : r.frags ≡ frag_count (length blob)
    pub len_eq : r.total_len ≡ length blob
    pub crc_eq : r.total_crc ≡ crc32 blob
    pub bits : length r.got ≡ max_frags
    pub bytes : length r.buf ≡ max_file
    pub counted : r.got_count ≡ ones r.frags r.got
    pub held :
        (k : ℕ)
        → k < length blob
        → bit r.got (k / chunk_bytes) ≡ true
        → get_or r.buf k 0 ≡ get_or blob k 0

  abbrev pub head_of : ℕ → Header
  head_of = header_of blob xfer (crc32 blob)

  module _ (small : length blob ≤ max_file) (idx : ℕ) (lt : idx < frag_count (length blob)) where
    write-held :
        (buf : List ℕ) (k : ℕ)
        → length buf ≡ max_file
        → k < length blob
        → k / chunk_bytes ≡ idx
        → get_or (write_at buf (idx * chunk_bytes) (chunk_of blob idx)) k 0 ≡ get_or blob k 0
    write-held buf k w h e =
        let n = length-chunk_of blob idx in
        get_or-write_at_in 0 buf (idx * chunk_bytes) (chunk_of blob idx) k (omega arith)
          (omega (arith, n)) (omega arith)
        ∙ get_or-take 0 chunk_bytes (drop (idx * chunk_bytes) blob) (k - idx * chunk_bytes)
            (omega arith)
        ∙ get_or-drop 0 (idx * chunk_bytes) blob (k - idx * chunk_bytes)
        ∙ ap (λ i. get_or blob i 0) {x = idx * chunk_bytes + (k - idx * chunk_bytes)} (omega arith)

    write-kept :
        (buf : List ℕ) (k : ℕ)
        → k / chunk_bytes ≢ idx
        → get_or (write_at buf (idx * chunk_bytes) (chunk_of blob idx)) k 0 ≡ get_or buf k 0
    write-kept buf k d = elim (dec_lt k (idx * chunk_bytes)) [
      | yes p ↦ get_or-write_at_before 0 buf (idx * chunk_bytes) (chunk_of blob idx) k p
      | no p ↦
          let n = length-chunk_of blob idx in
          get_or-write_at_after 0 buf (idx * chunk_bytes) (chunk_of blob idx) k (omega (arith, n))
    ]

    held-store :
        (r : Reassembler)
        → Assembles r
        → (k : ℕ) → k < length blob
        → bit (set r.got idx true) (k / chunk_bytes) ≡ true
        → get_or (write_at r.buf (idx * chunk_bytes) (chunk_of blob idx)) k 0 ≡ get_or blob k 0
    held-store r a k h t = elim (ℕ_discrete (k / chunk_bytes) idx) [
      | yes e ↦ write-held r.buf k a.bytes h e
      | no d ↦
          write-kept r.buf k d
          ∙ a.held k h
              (sym (get_or-set_ne false r.got idx (k / chunk_bytes) true (λ e. d (sym e))) ∙ t)
    ]

    fits : ltb max_file (idx * chunk_bytes + length (chunk_of blob idx)) ≡ false
    fits = le→ltb_false _ _ (omega (arith, length-chunk_of blob idx))

    pub got-store :
        (r : Reassembler) → (store r (head_of idx) (chunk_of blob idx)).0.got ≡ set r.got idx true
    unfolding store
    got-store r = rw fits

    pub store-Assembles :
        (r : Reassembler) → Assembles r → Assembles (store r (head_of idx) (chunk_of blob idx)).0
    unfolding store
    store-Assembles r a = elim (Bool-cases (bit r.got idx)) [
      | inl old ↦
          rw (fits, old)
            (record {
              on = a.on;
              this = a.this;
              frags_eq = a.frags_eq;
              len_eq = a.len_eq;
              crc_eq = a.crc_eq;
              bits = omega (arith, length-set r.got idx true, a.bits);
              bytes =
                  omega
                    (arith, length-write_at r.buf (idx * chunk_bytes) (chunk_of blob idx), a.bytes);
              counted = omega (arith, a.counted, ones-set_old r.frags r.got idx old);
              held = held-store r a;
            })
      | inr new ↦
          rw (fits, new)
            (record {
              on = a.on;
              this = a.this;
              frags_eq = a.frags_eq;
              len_eq = a.len_eq;
              crc_eq = a.crc_eq;
              bits = omega (arith, length-set r.got idx true, a.bits);
              bytes =
                  omega
                    (arith, length-write_at r.buf (idx * chunk_bytes) (chunk_of blob idx), a.bytes);
              counted = omega (
                arith,
                a.counted,
                a.frags_eq,
                a.bits,
                ones-le r.frags r.got,
                ones-set_new r.frags r.got idx (omega (arith, a.frags_eq)) (omega (arith, a.bits))
                    new,
              );
              held = held-store r a;
            })
    ]
