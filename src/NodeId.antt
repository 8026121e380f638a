-- ===== src/NodeId.antt =====
-- lib/mesh/mesh_types.h: the 16-byte node id, its tests and its texts, and the link alias.
pub mod Hex
mod Tests
use agnostic_lora_net.Prelude.{
  ℕ, zero, suc, ◌+◌, ◌-◌, ◌*◌, ◌/◌, ◌%◌, ◌^◌, bit_xor, Bool, true, false, ◌&&◌, List, [], ◌∷◌, ◌++◌,
  Option, none, some, ◌≡◌, leb, if◌then◌else◌, get_or, replicate, bytes_eq, take, drop, length,
}

-- The 16 bytes `b`; `operator==` is a `memcmp` of them.
abbrev pub NodeId : Type 0
NodeId = List ℕ

abbrev pub IsNodeId : NodeId → Type 0
IsNodeId id = length id ≡ 16

abbrev pub zero_id : NodeId
zero_id = replicate 16 0

abbrev pub broadcast : NodeId
broadcast = replicate 16 0xff

abbrev pub is_zero : NodeId → Bool
is_zero id = bytes_eq id zero_id

-- `nid_read(p + i)`
abbrev pub nid_read : List ℕ → ℕ → NodeId
nid_read p i = take 16 (drop i p)

unfoldable pub hex_digit : ℕ → ℕ
hex_digit v =
    get_or
      (0x30 ∷ 0x31 ∷ 0x32 ∷ 0x33 ∷ 0x34 ∷ 0x35 ∷ 0x36 ∷ 0x37 ∷ 0x38 ∷ 0x39 ∷ 0x41 ∷ 0x42 ∷ 0x43
        ∷ 0x44 ∷ 0x45 ∷ 0x46 ∷ [])
      v 0

-- `nid_hex`, without the final NUL.
unfoldable pub hex : NodeId → List ℕ
hex [] = []
hex (b ∷ bs) = hex_digit (b / 16) ∷ hex_digit (b % 16) ∷ hex bs

-- `nid_hexval`; `none` is -1.
unfoldable pub hexval : ℕ → Option ℕ
hexval c =
    if leb b'0' c && leb c b'9'
    then some (c - b'0')
    else if leb b'a' c && leb c b'f'
    then some (c - b'a' + 10)
    else if leb b'A' c && leb c b'F'
    then some (c - b'A' + 10)
    else none

-- The loop of `nid_from_hex`, with `k` bytes of the id left to fill: the bytes of `out` from here
-- on, and how many of them were read. The text ends where its list does: the NUL is no digit.
unfoldable pub from_hex_loop : ℕ → List ℕ → NodeId × ℕ
from_hex_loop zero s = ([], 0)
from_hex_loop (suc k) [] = (replicate (suc k) 0, 0)
from_hex_loop (suc k) (c ∷ []) = (replicate (suc k) 0, 0)
from_hex_loop (suc k) (c ∷ d ∷ s) = elim (hexval c) [
  | none ↦ (replicate (suc k) 0, 0)
  | some hi ↦ elim (hexval d) [
    | none ↦ (replicate (suc k) 0, 0)
    | some lo ↦ let (rest, n) = from_hex_loop k s in ((hi * 16 + lo) % 256 ∷ rest, n + 1)
  ]
]

unfoldable pub from_hex : List ℕ → NodeId × ℕ
from_hex s = from_hex_loop 16 s

-- `nid_fold`: FNV-1a, in `uint32_t`.
unfoldable pub fold_from : ℕ → List ℕ → ℕ
fold_from h [] = h
fold_from h (b ∷ bs) = fold_from (bit_xor h b * 16777619 % 2 ^ 32) bs

unfoldable pub nid_fold : NodeId → ℕ
nid_fold id = fold_from 2166136261 id
