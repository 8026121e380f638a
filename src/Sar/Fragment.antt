-- ===== src/Sar/Fragment.antt =====
-- What a fragment that `sar_build_fragment` wrote says, read back by the receiver.
use agnostic_lora_net.Prelude.{
  min, take_all, ltb→lt, ℕ, ◌+◌, ◌-◌, ◌*◌, ◌/◌, ◌%◌, ◌^◌, ◌≤◌, ◌<◌, ◌≡◌, refl, Bool, true, false,
  List, ◌++◌, none, some, arith, ltb, leb, length, take, drop, inl, inr, Bool-cases, if◌then◌else◌,
  bytes_eq, sub32, length-take, length-drop,
}
use agnostic_lora_net.Sar.{
  Header, header, put_header, build_fragment, is_fragment, frag_count, chunk_bytes, max_file,
  hdr_bytes, is_consistent,
}

-- The chunk of a blob that fragment `idx` carries.
abbrev pub chunk_of : List ℕ → ℕ → List ℕ
chunk_of blob idx = take chunk_bytes (drop (idx * chunk_bytes) blob)

-- The header of fragment `idx`.
abbrev pub header_of : List ℕ → ℕ → ℕ → ℕ → Header
header_of blob xfer crc idx = record {
  xfer = xfer;
  idx = idx;
  count = frag_count (length blob);
  tlen = length blob;
  tcrc = crc;
}

pub length-chunk_of :
    (blob : List ℕ) (idx : ℕ)
    → length (chunk_of blob idx) ≡ min chunk_bytes (length blob - idx * chunk_bytes)
length-chunk_of blob idx =
    rw (
      length-take chunk_bytes (drop (idx * chunk_bytes) blob),
      length-drop (idx * chunk_bytes) blob,
    )

-- The chunk is cut where the blob ends.
take_cut :
    (blob : List ℕ) (off : ℕ)
    → take
        (if ltb (length blob - off) chunk_bytes then length blob - off else chunk_bytes)
        (drop off blob)
      ≡ take chunk_bytes (drop off blob)
take_cut blob off = elim (Bool-cases (ltb (length blob - off) chunk_bytes)) [
  | inr f ↦ rw f
  | inl t ↦
      let n = length-drop off blob in
      rw (
        t,
        take_all (length blob - off) (drop off blob) (omega arith),
        take_all chunk_bytes (drop off blob) (omega (arith, ltb→lt _ _ t)),
      )
]

pub frag_count_small : (len : ℕ) → len ≤ max_file → frag_count len ≡ (len + 159) / 160
frag_count_small len h = omega arith

some_of_if {ℓ} : {A : Type ℓ} (b : Bool) {x y : A} → (if b then none else some x) ≡ some y → y ≡ x
some_of_if true h = absurd (ground arith)
some_of_if false h = ground arith

-- A built fragment is its header and its chunk.
pub build_fragment-eq :
    (blob : List ℕ) (xfer crc idx room : ℕ) {p : List ℕ}
    → length blob ≤ max_file
    → build_fragment blob xfer crc idx room ≡ some p
    → (idx < frag_count (length blob))
      × (p ≡ put_header (header_of blob xfer crc idx) ++ chunk_of blob idx)
build_fragment-eq blob xfer crc idx room {p} small e =
    elim (Bool-cases (leb (frag_count len) idx)) [
      | inl t ↦ absurd (unfold build_fragment in ground arith)
      | inr f ↦ (in_range f, whole f)
    ]
  where
    len : ℕ
    len = length blob

    in_range : leb (frag_count len) idx ≡ false → idx < frag_count len
    in_range f = ground arith

    below : leb (frag_count len) idx ≡ false → idx * chunk_bytes < len
    below f = omega (arith, in_range f)

    whole :
        leb (frag_count len) idx ≡ false
        → p ≡ put_header (header_of blob xfer crc idx) ++ chunk_of blob idx
    whole f =
        let off_eq : idx * chunk_bytes % 2 ^ 32 ≡ idx * chunk_bytes = omega (arith, below f) in
        let sub_eq : sub32 len (idx * chunk_bytes) ≡ len - idx * chunk_bytes =
          omega (arith, below f) in
        let chunk : ℕ =
          if ltb (len - idx * chunk_bytes) chunk_bytes
          then len - idx * chunk_bytes
          else chunk_bytes in
        let e' : (if ltb room (hdr_bytes + chunk)
              then none
              else some (put_header (header_of blob xfer crc idx) ++ chunk_of blob idx))
            ≡ some p =
          unfold build_fragment in rw (f, off_eq, sub_eq, take_cut blob (idx * chunk_bytes)) at e in
        some_of_if (ltb room (hdr_bytes + chunk)) e'

module _ (h : Header) (chunk : List ℕ) where
  pub is_fragment_built : is_fragment (put_header h ++ chunk) ≡ true
  unfolding is_fragment bytes_eq
  is_fragment_built = ground arith

  pub header_built :
      h.xfer < 2 ^ 16
      → h.idx < 2 ^ 16
      → h.count < 2 ^ 16
      → h.tlen < 2 ^ 32
      → h.tcrc < 2 ^ 32
      → header (put_header h ++ chunk) ≡ h
  header_built a b c d e = ground arith

  pub chunk_built : drop hdr_bytes (put_header h ++ chunk) ≡ chunk
  chunk_built = refl

-- The receiver finds the header of a fragment of a blob consistent with its chunk.
pub is_consistent_built :
    (blob : List ℕ) (xfer crc idx : ℕ)
    → length blob ≤ max_file
    → idx < frag_count (length blob)
    → is_consistent (header_of blob xfer crc idx) (chunk_of blob idx) ≡ true
unfolding is_consistent
is_consistent_built blob xfer crc idx small lt = rw (length-chunk_of blob idx) (ground arith)
