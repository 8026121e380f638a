-- ===== src/Sar.antt =====
-- lib/mesh/sar.h and sar.cpp: segmentation of a blob into fragments, and their reassembly.
pub mod Bitmap
pub mod Fragment
pub mod Invariant
pub mod Delivery
pub mod Reassembly
pub mod Messages
mod Tests
use agnostic_lora_net.Prelude.{
  ℕ, zero, suc, ◌+◌, ◌-◌, ◌*◌, ◌/◌, ◌%◌, ◌^◌, bit_and, bit_xor, Bool, true, false, not, ◌&&◌, ◌||◌,
  List, [], ◌∷◌, ◌++◌, Option, none, some, ltb, leb, ◌==◌, if◌then◌else◌, length, take, drop,
  get_or, set, replicate, bytes_eq, write_at, put_u16, put_u32, get_u16, get_u32, sub32,
}

abbrev pub hdr_bytes : ℕ
hdr_bytes = 18

abbrev pub chunk_bytes : ℕ
chunk_bytes = 160

abbrev pub max_file : ℕ
max_file = 8192

abbrev pub max_frags : ℕ
max_frags = 53

-- `SAR1`
abbrev pub magic : List ℕ
magic = 0x53 ∷ 0x41 ∷ 0x52 ∷ 0x31 ∷ []

-- One round of the bit loop: `-(int32_t)(crc & 1)` is all ones or 0.
crc_round : ℕ → ℕ
crc_round crc = bit_xor (crc / 2) (bit_and 0xedb88320 ((2 ^ 32 - bit_and crc 1) % 2 ^ 32))

crc_rounds : ℕ → ℕ → ℕ
crc_rounds zero crc = crc
crc_rounds (suc k) crc = crc_rounds k (crc_round crc)

crc_bytes : ℕ → List ℕ → ℕ
crc_bytes crc [] = crc
crc_bytes crc (b ∷ bs) = crc_bytes (crc_rounds 8 (bit_xor crc b)) bs

-- `~crc` is the exclusive or with all ones.
pub crc32 : List ℕ → ℕ
unfolding crc_bytes crc_rounds crc_round
crc32 bytes = bit_xor 0xffff_ffff (crc_bytes 0xffff_ffff bytes) % 2 ^ 32

-- The fragments of a blob of `len` bytes, in `uint32_t` and then cut to `uint16_t`.
abbrev pub frag_count : ℕ → ℕ
frag_count len = (len + (chunk_bytes - 1)) % 2 ^ 32 / chunk_bytes % 2 ^ 16

-- The header of a fragment.
pub record Header : Type 0 where
  pub xfer : ℕ
  pub idx : ℕ
  pub count : ℕ
  pub tlen : ℕ
  pub tcrc : ℕ

abbrev pub put_header : Header → List ℕ
put_header h =
    magic
    ++ (put_u16 h.xfer
        ++ (put_u16 h.idx ++ (put_u16 h.count ++ (put_u32 h.tlen ++ put_u32 h.tcrc))))

-- `sar_build_fragment`, with `len` the length of the blob; `none` is `return 0`.
pub build_fragment : List ℕ → ℕ → ℕ → ℕ → ℕ → Option (List ℕ)
build_fragment blob xfer_id crc idx out_cap =
    let len = length blob in
    let count = frag_count len in
    let off = idx * chunk_bytes % 2 ^ 32 in
    let chunk = if ltb (sub32 len off) chunk_bytes then sub32 len off else chunk_bytes in
    let head : Header = record {
      xfer = xfer_id;
      idx = idx;
      count = count;
      tlen = len;
      tcrc = crc;
    } in
    if leb count idx
    then none
    else if ltb out_cap (hdr_bytes + chunk)
    then none
    else some (put_header head ++ take chunk (drop off blob))

pub is_fragment : List ℕ → Bool
is_fragment payload = leb hdr_bytes (length payload) && bytes_eq (take 4 payload) magic

pub record Reassembler : Type 0 where
  pub active : Bool
  pub xfer_id : ℕ
  pub frags : ℕ
  pub total_len : ℕ
  pub total_crc : ℕ
  pub got_count : ℕ
  pub got : List Bool
  pub buf : List ℕ

abbrev pub init : Reassembler
init = record {
  active = false;
  xfer_id = 0;
  frags = 0;
  total_len = 0;
  total_crc = 0;
  got_count = 0;
  got = replicate max_frags false;
  buf = replicate max_file 0;
}

abbrev pub header : List ℕ → Header
header p = record {
  xfer = get_u16 p 4;
  idx = get_u16 p 6;
  count = get_u16 p 8;
  tlen = get_u32 p 10;
  tcrc = get_u32 p 14;
}

abbrev pub offset : Header → ℕ
offset h = h.idx * chunk_bytes

-- The size that the header implies for the chunk.
abbrev pub expect : Header → ℕ
expect h = if h.idx == h.count - 1 then sub32 h.tlen (offset h) % 2 ^ 16 else chunk_bytes

-- The last part of `add`: the copy into the buffer and the mark in the bitmap.
pub store : Reassembler → Header → List ℕ → Reassembler × Bool
store r h chunk =
    let marked = if get_or r.got h.idx false then r.got_count else (r.got_count + 1) % 2 ^ 16 in
    if ltb max_file (offset h + length chunk) then (r, false) else (
      record r {
        buf = write_at r.buf (offset h) chunk;
        got = set r.got h.idx true;
        got_count = marked;
      },
      true,
    )

-- A new transfer: the bitmap is cleared, the buffer is left as it is.
abbrev pub restart : Reassembler → Header → Reassembler
restart r h = record r {
  active = true;
  xfer_id = h.xfer;
  frags = h.count;
  total_len = h.tlen;
  total_crc = h.tcrc;
  got_count = 0;
  got = replicate max_frags false;
}

-- The part of `add` that takes an accepted header to the transfer that it belongs to.
pub join : Reassembler → Header → List ℕ → Reassembler × Bool
join r h chunk =
    if not r.active || not (h.xfer == r.xfer_id)
    then store (restart r h) h chunk
    else if not (h.count == r.frags) || (not (h.tlen == r.total_len) || not (h.tcrc == r.total_crc))
    then (r, false)
    else store r h chunk

-- The checks of `add` on the header alone, in the order of its early returns.
pub is_consistent : Header → List ℕ → Bool
is_consistent h chunk =
    if (h.count == 0) || (ltb max_frags h.count || (ltb max_file h.tlen || leb h.count h.idx))
    then false
    else if not (h.count == frag_count h.tlen)
    then false
    else length chunk % 2 ^ 16 == expect h

pub add : Reassembler → List ℕ → Reassembler × Bool
add r p =
    if not (is_fragment p)
    then (r, false)
    else if is_consistent (header p) (drop hdr_bytes p)
    then join r (header p) (drop hdr_bytes p)
    else (r, false)

-- `missing`: from index `i` on, with `k` indices left and room for `room` more.
pub missing_loop : List Bool → ℕ → ℕ → ℕ → List ℕ
missing_loop got zero i room = []
missing_loop got (suc k) i room =
    let skip = missing_loop got k (i + 1) room in
    let keep = i ∷ missing_loop got k (i + 1) (room - 1) in
    if room == 0 then [] else if get_or got i false then skip else keep

pub missing : Reassembler → ℕ → List ℕ
missing r room = if r.active then missing_loop r.got r.frags 0 room else []

pub complete : Reassembler → Bool
complete r = r.active && (r.got_count == r.frags)

pub verify : Reassembler → Bool
verify r = complete r && (crc32 (take r.total_len r.buf) == r.total_crc)

pub reset : Reassembler → Reassembler
reset r = record r { active = false; got_count = 0 }

-- The receiver's loop over the payloads that arrive.
pub add_all : Reassembler → List (List ℕ) → Reassembler
add_all r [] = r
add_all r (p ∷ ps) = add_all (add r p).0 ps
