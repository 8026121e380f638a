-- ===== src/Locator/Resolver.antt =====
-- lib/mesh/locator_dir.h and locator_dir.cpp: the resolutions in flight, LocatorResolver.
mod Tests
pub mod Pending
use agnostic_lora_net.Prelude.{
  ℕ, suc, ◌+◌, ◌%◌, ◌^◌, Bool, true, false, not, ◌&&◌, List, [], ◌∷◌, Option, none, some, ◌==◌,
  if◌then◌else◌, replicate, find_slot, find_index, any, modify, map, count, bytes_eq, add32,
  before32,
}
use agnostic_lora_net.Locator.{bad_id}

abbrev pub loc_max_pending : ℕ
loc_max_pending = 8

-- `id` is the first `id_len` bytes of the array.
pub record P : Type 0 where
  pub used : Bool
  pub id : List ℕ
  pub qid : ℕ
  pub deadline_ms : ℕ

pub record LocatorResolver : Type 0 where
  pub slots : List P
  pub next_qid : ℕ

abbrev pub no_p : P
no_p = record { used = false; id = []; qid = 0; deadline_ms = 0 }

abbrev pub init : LocatorResolver
init = record { slots = replicate loc_max_pending no_p; next_qid = 1 }

-- `(int32_t)(now_ms - deadline_ms) < 0`
abbrev pub in_time : ℕ → P → Bool
in_time now_ms p = before32 now_ms p.deadline_ms

abbrev pub awaits : List ℕ → ℕ → P → Bool
awaits id now_ms p = p.used && (in_time now_ms p && bytes_eq p.id id)

-- The second loop of `begin`, from slot `i` on, with the slot found so far; `none` is -1.
unfoldable pub slot_loop : ℕ → ℕ → Option ℕ → List P → Option ℕ
slot_loop now_ms i slot [] = slot
slot_loop now_ms i slot (p ∷ ps) =
    let rest = slot_loop now_ms (i + 1) (if in_time now_ms p then slot else some i) ps in
    if not p.used then some i else rest

abbrev pub begun : List ℕ → ℕ → ℕ → P → P
begun id qid deadline_ms p = record { used = true; id = id; qid = qid; deadline_ms = deadline_ms }

abbrev pub next : ℕ → ℕ
next qid = let q = (qid + 1) % 2 ^ 16 in if q == 0 then 1 else q

unfoldable pub begin : LocatorResolver → List ℕ → ℕ → ℕ → LocatorResolver × ℕ
begin r id now_ms timeout_ms =
    if bad_id id then (r, 0) else elim (find_slot (awaits id now_ms) r.slots) [
      | some (_, p) ↦ (r, p.qid)
      | none ↦ elim (slot_loop now_ms 0 none r.slots) [
        | none ↦ (r, 0)
        | some i ↦ (
          record {
            slots = modify r.slots i (begun id r.next_qid (add32 now_ms timeout_ms));
            next_qid = next r.next_qid;
          },
          r.next_qid,
        )
      ]
    ]

abbrev pub cleared : P → P
cleared p = record p { used = false }

unfoldable pub on_reply : LocatorResolver → ℕ → LocatorResolver × Bool
on_reply r qid = elim (find_index (λ p. p.used && (p.qid == qid)) r.slots) [
  | none ↦ (r, false)
  | some i ↦ (record r { slots = modify r.slots i cleared }, true)
]

pub pending : LocatorResolver → List ℕ → ℕ → Bool
pending r id now_ms = any (awaits id now_ms) r.slots

abbrev pub is_late : ℕ → P → Bool
is_late now_ms p = p.used && not (in_time now_ms p)

-- The slots after `tick`, and how many of them it cleared.
unfoldable pub tick_slots : ℕ → List P → List P × ℕ
tick_slots now_ms [] = ([], 0)
tick_slots now_ms (p ∷ ps) =
    let (rest, n) = tick_slots now_ms ps in
    if is_late now_ms p then (cleared p ∷ rest, suc n) else (p ∷ rest, n)

pub tick : LocatorResolver → ℕ → LocatorResolver × ℕ
tick r now_ms = let (slots, n) = tick_slots now_ms r.slots in (record r { slots = slots }, n)
