-- ===== src/Sar/Reassembly.antt =====
-- The whole transfer: every fragment of a blob, in any order and with repeats.
use agnostic_lora_net.Prelude.{
  ℕ, ◌/◌, ◌^◌, ◌≤◌, ◌<◌, ◌≡◌, refl, sym, ap, ◌∙◌, Bool, true, false, ◌&&◌, List, [], ◌∷◌, ◌++◌,
  some, arith, length, set, replicate, take, length-replicate, ◌==◌, if◌then◌else◌, ℕ_discrete,
  take_ext, ==_refl, get_or-set_self, get_or-set_ne,
}
use agnostic_lora_net.Sar.{
  Reassembler, header, store, join, restart, add, add_all, complete, verify, frag_count, max_frags,
  max_file, chunk_bytes, build_fragment, put_header, crc32,
}
use agnostic_lora_net.Sar.Bitmap.{bit, ones_full, ones_all, ones-replicate, bit-replicate}
use mathlib.Core.Bool.{false≢true}
use agnostic_lora_net.Sar.Fragment.{
  chunk_of, header_of, build_fragment-eq, is_fragment_built, header_built, is_consistent_built,
}
use agnostic_lora_net.Sar.Delivery.{Assembles, head_of, got-store, store-Assembles, crc32-lt}

-- The payloads `ps` are fragments `is` of the blob, each built by the sender with enough room.
pub data Fragments (blob : List ℕ) (xfer : ℕ) : List ℕ → List (List ℕ) → Type 0 where
  done : Fragments blob xfer [] []
  next :
      {is : List ℕ} {ps : List (List ℕ)} (idx room : ℕ) (p : List ℕ)
      → build_fragment blob xfer (crc32 blob) idx room ≡ some p
      → Fragments blob xfer is ps
      → Fragments blob xfer (idx ∷ is) (p ∷ ps)

abbrev pub listed : ℕ → List ℕ → Bool
listed i [] = false
listed i (j ∷ js) = if j == i then true else listed i js

-- A reassembler that does not hold a transfer of this id.
abbrev pub IsIdle : ℕ → Reassembler → Type 0
IsIdle xfer r = (r.active && (xfer == r.xfer_id)) ≡ false

module _ (blob : List ℕ) (xfer : ℕ) (small : length blob ≤ max_file) (id : xfer < 2 ^ 16) where
  add-built :
      (r : Reassembler) (idx room : ℕ) {p : List ℕ}
      → build_fragment blob xfer (crc32 blob) idx room ≡ some p
      → (idx < frag_count (length blob))
        × (add r p ≡ join r (head_of blob xfer idx) (chunk_of blob idx))
  add-built r idx room {p} e =
      let (lt, s) = build_fragment-eq blob xfer (crc32 blob) idx room small e in
      let h = header_of blob xfer (crc32 blob) idx in
      let c = chunk_of blob idx in
      let head : header (put_header h ++ c) ≡ h =
        header_built h c id (omega arith) (omega arith) (omega arith) (crc32-lt blob) in
      (
        lt,
        rw s (
            unfold add in
            rw (
              is_fragment_built h c,
              head,
              is_consistent_built blob xfer (crc32 blob) idx small lt,
            )),
      )

  join-on :
      (r : Reassembler) (idx : ℕ)
      → Assembles blob xfer r
      → join r (head_of blob xfer idx) (chunk_of blob idx)
        ≡ store r (head_of blob xfer idx) (chunk_of blob idx)
  unfolding join
  join-on r idx a = ground arith

  -- A fragment of the transfer in flight sets its bit and keeps the rest.
  add-on :
      (r : Reassembler) (idx room : ℕ) {p : List ℕ}
      → build_fragment blob xfer (crc32 blob) idx room ≡ some p
      → Assembles blob xfer r
      → Assembles blob xfer (add r p).0 × ((add r p).0.got ≡ set r.got idx true)
  add-on r idx room e a =
      let (lt, s) = add-built r idx room e in
      rw (s, join-on r idx a)
        (store-Assembles blob xfer small idx lt r a, got-store blob xfer small idx lt r)

  join-idle :
      (r : Reassembler) (idx : ℕ)
      → IsIdle xfer r
      → join r (head_of blob xfer idx) (chunk_of blob idx)
        ≡ store (restart r (head_of blob xfer idx)) (head_of blob xfer idx) (chunk_of blob idx)
  unfolding join
  join-idle r idx i = ground arith

  restart-Assembles :
      (r : Reassembler) (idx : ℕ)
      → length r.buf ≡ max_file
      → Assembles blob xfer (restart r (head_of blob xfer idx))
  restart-Assembles r idx w = record {
    on = refl;
    this = refl;
    frags_eq = refl;
    len_eq = refl;
    crc_eq = refl;
    bits = refl;
    bytes = w;
    counted = omega (arith, ones-replicate (frag_count (length blob)) max_frags);
    held = λ k lt t. absurd (false≢true (sym (bit-replicate max_frags (k / chunk_bytes)) ∙ t));
  }

  -- The first fragment of a new transfer clears the bitmap and sets its bit.
  add-idle :
      (r : Reassembler) (idx room : ℕ) {p : List ℕ}
      → build_fragment blob xfer (crc32 blob) idx room ≡ some p
      → length r.buf ≡ max_file
      → IsIdle xfer r
      → Assembles blob xfer (add r p).0
        × ((add r p).0.got ≡ set (replicate max_frags false) idx true)
  add-idle r idx room e w i =
      let (lt, s) = add-built r idx room e in
      let r' = restart r (head_of blob xfer idx) in
      rw (s, join-idle r idx i)
        (
          store-Assembles blob xfer small idx lt r' (restart-Assembles r idx w),
          got-store blob xfer small idx lt r',
        )

  -- The bits after a run of fragments are those set before and those of the fragments.
  bits_all :
      (r : Reassembler) {is : List ℕ} {ps : List (List ℕ)}
      → Fragments blob xfer is ps
      → Assembles blob xfer r
      → Assembles blob xfer (add_all r ps)
        × ((i : ℕ)
            → i < max_frags
            → bit (add_all r ps).got i ≡ (if bit r.got i then true else listed i is))
  unfolding add_all
  bits_all r done a = (a, λ i lt. ground arith)
  bits_all r (next {is = is} {ps = ps} idx room p e fs) a =
      let (a', g) = add-on r idx room e a in
      let (a'', f) = bits_all (add r p).0 fs a' in
      (
        a'',
        λ i lt.
            f i lt ∙ ap (λ b. if b then true else listed i is) (ap (λ g. bit g i) g) ∙ merge i lt,
      )
    where
      merge :
          (i : ℕ)
          → i < max_frags
          → (if bit (set r.got idx true) i then true else listed i is)
            ≡ (if bit r.got i then true else listed i (idx ∷ is))
      merge i lt = elim (ℕ_discrete idx i) [
        | yes s ↦
            let h : bit (set r.got i true) i ≡ true =
              get_or-set_self false r.got i true (omega (arith, a.bits)) in
            rw (s, h, ==_refl i) (ground arith)
        | no d ↦ rw (get_or-set_ne false r.got idx i true d) (ground arith)
      ]

  -- A complete transfer holds the blob.
  complete-whole :
      (r : Reassembler)
      → Assembles blob xfer r
      → complete r ≡ true
      → (verify r ≡ true) × (take (length blob) r.buf ≡ blob)
  complete-whole r a c = (passes, same)
    where
      full : (i : ℕ) → i < frag_count (length blob) → bit r.got i ≡ true
      full i lt =
          ones_full r.frags r.got i (unfold complete in ground (arith, a.counted))
            (omega (arith, a.frags_eq))

      same : take (length blob) r.buf ≡ blob
      same =
          take_ext 0 (length blob) r.buf blob (omega (arith, a.bytes)) refl
            (λ k lt. a.held k lt (full (k / chunk_bytes) (omega arith)))

      passes : verify r ≡ true
      passes = unfold verify in rw (c, a.len_eq, same, a.crc_eq) (==_refl (crc32 blob))

  after_first :
      (r : Reassembler) {idx : ℕ} {is : List ℕ} {p : List ℕ} {ps : List (List ℕ)}
      → length r.buf ≡ max_file
      → IsIdle xfer r
      → Fragments blob xfer (idx ∷ is) (p ∷ ps)
      → Assembles blob xfer (add_all r (p ∷ ps))
        × ((i : ℕ) → i < max_frags → bit (add_all r (p ∷ ps)).got i ≡ listed i (idx ∷ is))
  unfolding add_all
  after_first r w idle (next {is = is} {ps = ps} idx room p e fs) =
      let (a, g) = add-idle r idx room e w idle in
      let (a', f) = bits_all (add r p).0 fs a in
      (
        a',
        λ i lt.
            f i lt ∙ ap (λ b. if b then true else listed i is) (ap (λ g. bit g i) g) ∙ merge i lt,
      )
    where
      merge :
          (i : ℕ)
          → i < max_frags
          → (if bit (set (replicate max_frags false) idx true) i then true else listed i is)
            ≡ listed i (idx ∷ is)
      merge i lt = elim (ℕ_discrete idx i) [
        | yes s ↦
            let h : bit (set (replicate max_frags false) i true) i ≡ true =
              get_or-set_self false (replicate max_frags false) i true
                (omega (arith, length-replicate max_frags false)) in
            rw (s, h, ==_refl i)
        | no d ↦
            rw
              (
                get_or-set_ne false (replicate max_frags false) idx i true d,
                bit-replicate max_frags i,
              )
              (ground arith)
      ]

  -- However the fragments of a blob of 1 to 8192 bytes arrive, in any order and any of them more
  -- than once: once each has arrived at a reassembler that has its whole buffer and was not receiving
  -- a transfer of that id, it reports a verified transfer and its buffer begins with the blob.
  pub add_all-verify :
      (r : Reassembler) {is : List ℕ} {ps : List (List ℕ)}
      → length r.buf ≡ max_file
      → IsIdle xfer r
      → Fragments blob xfer is ps
      → 0 < length blob
      → ((i : ℕ) → i < frag_count (length blob) → listed i is ≡ true)
      → (verify (add_all r ps) ≡ true) × (take (length blob) (add_all r ps).buf ≡ blob)
  add_all-verify r w idle done pos all = absurd (false≢true (all 0 (omega arith)))
  add_all-verify r w idle (next {is = is} {ps = ps} idx room p e fs) pos all =
      let (a, f) = after_first r w idle (next idx room p e fs) in
      let few : frag_count (length blob) ≤ max_frags = omega arith in
      let full =
        ones_all (frag_count (length blob)) (add_all r (p ∷ ps)).got
          (λ i lt. f i (omega arith) ∙ all i lt) in
      complete-whole (add_all r (p ∷ ps)) a
        (unfold complete in ground (arith, a.on, a.counted, a.frags_eq, full))

  -- When only fragments of one transfer have arrived, in any order, at a reassembler that has its
  -- whole buffer and was not receiving it, the transfer is reported complete only if every one of
  -- its fragments is among them.
  pub add_all-complete :
      (r : Reassembler) (i : ℕ) {idx : ℕ} {is : List ℕ} {p : List ℕ} {ps : List (List ℕ)}
      → length r.buf ≡ max_file
      → IsIdle xfer r
      → Fragments blob xfer (idx ∷ is) (p ∷ ps)
      → complete (add_all r (p ∷ ps)) ≡ true
      → i < frag_count (length blob)
      → listed i (idx ∷ is) ≡ true
  add_all-complete r i {p = p} {ps = ps} w idle fs c lt =
      let (a, f) = after_first r w idle fs in
      sym (f i (omega arith))
      ∙ ones_full (add_all r (p ∷ ps)).frags (add_all r (p ∷ ps)).got i
          (unfold complete in ground (arith, a.counted)) (omega (arith, a.frags_eq))
