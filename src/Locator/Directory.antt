-- ===== src/Locator/Directory.antt =====
-- lib/mesh/locator_dir.h and locator_dir.cpp: the cache of bindings, LocatorDir.
mod Tests
pub mod Alloc
pub mod Valid
pub mod Stored
use agnostic_lora_net.Prelude.{
  ℕ, ◌+◌, ◌*◌, ◌/◌, ◌%◌, ◌^◌, ◌-◌, Bool, true, false, not, ◌&&◌, ◌||◌, List, [], ◌∷◌, Option, none,
  some, ltb, leb, ◌==◌, if◌then◌else◌, replicate, find_slot, find_index, modify, count, bytes_eq,
  add32, sub32, before32,
}
use agnostic_lora_net.NodeId.{NodeId, zero_id}
use agnostic_lora_net.Locator.{bad_id}

abbrev pub loc_dir_cap : ℕ
loc_dir_cap = 32

-- `(int16_t)(a - b) > 0`
abbrev pub loc_seq_newer : ℕ → ℕ → Bool
loc_seq_newer a b = let d = (a + 65536 - b) % 65536 in ltb 0 d && ltb d 0x8000

pub record Binding : Type 0 where
  pub loc : NodeId
  pub epoch : ℕ
  pub seq : ℕ
  pub ttl_s : ℕ

-- `id` is the first `id_len` bytes of the array.
pub record Entry : Type 0 where
  pub id : List ℕ
  pub used : Bool
  pub loc : NodeId
  pub epoch : ℕ
  pub seq : ℕ
  pub expiry_ms : ℕ
  pub touched : ℕ

pub record LocatorDir : Type 0 where
  pub entries : List Entry
  pub clock : ℕ

abbrev pub no_entry : Entry
no_entry = record {
  id = [];
  used = false;
  loc = zero_id;
  epoch = 0;
  seq = 0;
  expiry_ms = 0;
  touched = 0;
}

abbrev pub init : LocatorDir
init = record { entries = replicate loc_dir_cap no_entry; clock = 0 }

abbrev pub expired : ℕ → Entry → Bool
expired now_ms e = not (before32 now_ms e.expiry_ms)

abbrev pub is_of : List ℕ → Entry → Bool
is_of id e = e.used && bytes_eq e.id id

-- The least recently used entry so far, with its stamp, once entry `i` was looked at.
abbrev pub older : ℕ → Entry → Option (ℕ × ℕ) → Option (ℕ × ℕ)
older i e none = some (i, e.touched)
older i e (some (j, stamp)) = if ltb e.touched stamp then some (i, e.touched) else some (j, stamp)

-- The loop of `alloc_slot` from entry `i` on, and what it returns after it: a free entry, or the
-- last expired one, or the least recently used. `none` is -1, which an empty array would give.
unfoldable pub alloc_loop : ℕ → ℕ → Option ℕ → Option (ℕ × ℕ) → List Entry → Option ℕ
alloc_loop now_ms i dead lru [] = elim dead [
  | some j ↦ some j
  | none ↦ elim lru [ none ↦ none | some (j, _) ↦ some j ]
]
alloc_loop now_ms i dead lru (e ∷ es) =
    let rest =
      alloc_loop now_ms (i + 1) (if expired now_ms e then some i else dead) (older i e lru) es in
    if not e.used then some i else rest

abbrev pub alloc_slot : ℕ → List Entry → Option ℕ
alloc_slot now_ms es = alloc_loop now_ms 0 none none es

-- The test of `upsert` on a binding that is cached.
abbrev pub accepts : Entry → ℕ → ℕ → ℕ → Bool
accepts e epoch seq now_ms =
    expired now_ms e || ((epoch == e.epoch && loc_seq_newer seq e.seq) || not (epoch == e.epoch))

abbrev pub expiry : ℕ → ℕ → ℕ
expiry now_ms ttl_s = add32 now_ms (ttl_s * 1000 % 2 ^ 32)

-- What `upsert` writes to the entry that it takes; a cached one has this id already.
abbrev pub bound : List ℕ → NodeId → ℕ → ℕ → ℕ → ℕ → ℕ → Entry → Entry
bound id loc epoch seq ttl_s now_ms stamp e = record {
  id = id;
  used = true;
  loc = loc;
  epoch = epoch;
  seq = seq;
  expiry_ms = expiry now_ms ttl_s;
  touched = stamp;
}

abbrev pub renewed : NodeId → ℕ → ℕ → ℕ → ℕ → ℕ → Entry → Entry
renewed loc epoch seq ttl_s now_ms stamp e = record e {
  loc = loc;
  epoch = epoch;
  seq = seq;
  expiry_ms = expiry now_ms ttl_s;
  touched = stamp;
}

unfoldable pub upsert : LocatorDir → List ℕ → NodeId → ℕ → ℕ → ℕ → ℕ → LocatorDir × Bool
upsert d id loc epoch seq ttl_s now_ms =
    let stamp = add32 d.clock 1 in
    if bad_id id then (d, false) else elim (find_slot (is_of id) d.entries) [
      | some (i, e) ↦
          if accepts e epoch seq now_ms
          then (
            record d {
              entries = modify d.entries i (renewed loc epoch seq ttl_s now_ms stamp);
              clock = stamp;
            },
            true,
          )
          else (d, false)
      | none ↦ elim (alloc_slot now_ms d.entries) [
        | none ↦ (d, false)
        | some i ↦ (
          record d {
            entries = modify d.entries i (bound id loc epoch seq ttl_s now_ms stamp);
            clock = stamp;
          },
          true,
        )
      ]
    ]

abbrev pub dropped : Entry → Entry
dropped e = record e { used = false }

abbrev pub touch : ℕ → Entry → Entry
touch stamp e = record e { touched = stamp }

-- `lookup`, with the locator that is written where it returns `true`.
unfoldable pub lookup : LocatorDir → List ℕ → ℕ → LocatorDir × Option NodeId
lookup d id now_ms = elim (find_slot (is_of id) d.entries) [
  | none ↦ (d, none)
  | some (i, e) ↦
      if expired now_ms e then (record d { entries = modify d.entries i dropped }, none) else (
        record d {
          entries = modify d.entries i (touch (add32 d.clock 1));
          clock = add32 d.clock 1;
        },
        some e.loc,
      )
]

-- The seconds that a binding has left, at least one and in 16 bits.
abbrev pub seconds_left : ℕ → ℕ
seconds_left rem_ms =
    let s = rem_ms / 1000 in if s == 0 then 1 else if ltb 0xffff s then 0xffff else s

-- `lookup_full`: `rem_ms <= 0` is the sign bit of the difference, or none of its bits.
unfoldable pub lookup_full : LocatorDir → List ℕ → ℕ → LocatorDir × Option Binding
lookup_full d id now_ms = elim (find_slot (is_of id) d.entries) [
  | none ↦ (d, none)
  | some (i, e) ↦
      let rem_ms = sub32 e.expiry_ms now_ms in
      if (rem_ms == 0) || leb (2 ^ 31) rem_ms
      then (record d { entries = modify d.entries i dropped }, none)
      else (
        record d {
          entries = modify d.entries i (touch (add32 d.clock 1));
          clock = add32 d.clock 1;
        },
        some (record { loc = e.loc; epoch = e.epoch; seq = e.seq; ttl_s = seconds_left rem_ms }),
      )
]

unfoldable pub remove : LocatorDir → List ℕ → LocatorDir × Bool
remove d id = elim (find_index (is_of id) d.entries) [
  | none ↦ (d, false)
  | some i ↦ (record d { entries = modify d.entries i dropped }, true)
]

pub size : LocatorDir → ℕ → ℕ
size d now_ms = count (λ e. e.used && not (expired now_ms e)) d.entries

pub record View : Type 0 where
  pub id : List ℕ
  pub loc : NodeId
  pub ttl_s : ℕ

-- The loop of `snapshot`, with room for `room` more.
unfoldable pub snapshot_loop : ℕ → ℕ → List Entry → List View
snapshot_loop now_ms room [] = []
snapshot_loop now_ms room (e ∷ es) =
    let rem_ms = sub32 e.expiry_ms now_ms in
    let skip = snapshot_loop now_ms room es in
    let ttl_s = if (rem_ms == 0) || leb (2 ^ 31) rem_ms then 0 else (rem_ms / 1000) % 2 ^ 16 in
    let keep =
      record { id = e.id; loc = e.loc; ttl_s = ttl_s } ∷ snapshot_loop now_ms (room - 1) es in
    if room == 0 then [] else if not e.used || expired now_ms e then skip else keep

pub snapshot : LocatorDir → ℕ → ℕ → List View
snapshot d now_ms room = snapshot_loop now_ms room d.entries
