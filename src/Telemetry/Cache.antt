-- ===== src/Telemetry/Cache.antt =====
-- lib/mesh/telemetry.h and telemetry.cpp: the last battery report of each node, TelemCache.
use agnostic_lora_net.Prelude.{
  ℕ, ◌+◌, ◌-◌, ◌<◌, ◌≡◌, ◌≢◌, ◌⊎◌, refl, sym, ◌∙◌, inl, inr, Bool, true, false, not, ◌&&◌, List, [],
  ◌∷◌, none, some, if◌then◌else◌, ◌==◌, length, get_elem?, get_elem?_total, length-modify,
  replicate, find, find_index, find_index-some, find_index-none, find_absent, modify, count, min,
  bytes_eq, sub32, before32, Bool-cases, Option-cases, arith, Every, OwnKeys, Lacks, has_key→key,
  modify-OwnKeys, find-modify_own, find-modify_others,
}
use agnostic_lora_net.NodeId.{NodeId, zero_id}
use agnostic_lora_net.Telemetry.{telem_cache_cap}

pub record Entry : Type 0 where
  pub origin : NodeId
  pub mv : ℕ
  pub pct_plus1 : ℕ
  pub ms : ℕ
  pub used : Bool

abbrev pub no_entry : Entry
no_entry = record { origin = zero_id; mv = 0; pct_plus1 = 0; ms = 0; used = false }

-- A `TelemCache` is its array of entries.
abbrev pub init : List Entry
init = replicate telem_cache_cap no_entry

abbrev pub is_of : NodeId → Entry → Bool
is_of origin e = e.used && bytes_eq e.origin origin

-- The loop for the stalest entry, from entry `i` on, with the entry so far and its time.
unfoldable pub stalest_loop : ℕ → ℕ → ℕ → List Entry → ℕ
stalest_loop i slot ms [] = slot
stalest_loop i slot ms (e ∷ es) =
    if before32 e.ms ms then stalest_loop (i + 1) i e.ms es else stalest_loop (i + 1) slot ms es

unfoldable pub stalest : List Entry → ℕ
stalest [] = 0
stalest (e ∷ es) = stalest_loop 0 0 e.ms (e ∷ es)

-- The slot that `upsert` takes.
unfoldable pub slot_of : List Entry → NodeId → ℕ
slot_of es origin = elim (find_index (is_of origin) es) [
  | some i ↦ i
  | none ↦ elim (find_index (λ e. not e.used) es) [ some i ↦ i | none ↦ stalest es ]
]

abbrev pub reported : NodeId → ℕ → ℕ → ℕ → Entry → Entry
reported origin mv pct_plus1 now_ms e = record {
  origin = origin;
  mv = mv;
  pct_plus1 = pct_plus1;
  ms = now_ms;
  used = true;
}

pub upsert : List Entry → NodeId → ℕ → ℕ → ℕ → List Entry
upsert es origin mv pct_plus1 now_ms =
    modify es (slot_of es origin) (reported origin mv pct_plus1 now_ms)

pub record View : Type 0 where
  pub origin : NodeId
  pub mv : ℕ
  pub pct_plus1 : ℕ
  pub age_ms : ℕ

-- `snapshot`, with room for `room` more.
unfoldable pub snapshot : ℕ → ℕ → List Entry → List View
snapshot now_ms room [] = []
snapshot now_ms room (e ∷ es) =
    let skip = snapshot now_ms room es in
    let keep =
      record { origin = e.origin; mv = e.mv; pct_plus1 = e.pct_plus1; age_ms = sub32 now_ms e.ms }
      ∷ snapshot now_ms (room - 1) es in
    if not e.used then skip else if room == 0 then skip else keep

abbrev is_used : Entry → Bool
is_used e = e.used

abbrev origin_of : Entry → List ℕ
origin_of e = e.origin

-- The cache has its sixteen entries, and those in use are of different nodes.
pub record IsValid (es : List Entry) : Type 0 where
  pub whole : length es ≡ telem_cache_cap
  pub unique : OwnKeys (λ (e : Entry). e.used) (λ (e : Entry). e.origin) es

stalest_loop_lt :
    (i slot ms : ℕ) (es : List Entry)
    → slot < i + length es
    → stalest_loop i slot ms es < i + length es
unfolding stalest_loop
stalest_loop_lt i slot ms [] h = h
stalest_loop_lt i slot ms (e ∷ es) h = elim (Bool-cases (before32 e.ms ms)) [
  | inl b ↦ rw b (let r = stalest_loop_lt (i + 1) i e.ms es (omega arith) in omega (arith, r))
  | inr b ↦ rw b (let r = stalest_loop_lt (i + 1) slot ms es (omega (arith, h)) in omega (arith, r))
]

stalest_lt : (es : List Entry) → length es ≡ telem_cache_cap → stalest es < length es
unfolding stalest
stalest_lt [] h = absurd (omega (arith, h))
stalest_lt (e ∷ es) h =
    let lt = stalest_loop_lt 0 0 e.ms (e ∷ es) (omega arith) in omega (arith, lt)

-- The slot that is taken: the node's own, or a free one, or, when all are taken, another node's.
slot_of_cases :
    (es : List Entry) (origin : NodeId)
    → IsValid es
    → (old : Entry) × (get_elem? es (slot_of es origin) ≡ some old)
      × ((is_of origin old ≡ true)
          ⊎ (Lacks is_used origin_of origin es
              × ((old.used ≡ false) ⊎ Every (λ (e : Entry). e.used ≡ true) es)))
unfolding slot_of
slot_of_cases es origin v = elim (Option-cases (find_index (is_of origin) es)) [
  | inr (i, e) ↦
      let (a, g, h) = find_index-some (is_of origin) es i e in rw (e, slot_of) (a, g, inl h)
  | inl e ↦
      let absent = λ (j : ℕ) (b : Entry) (g : get_elem? es j ≡ some b).
        find_index-none (is_of origin) es j e g in
      elim (Option-cases (find_index (λ e. not e.used) es)) [
        | inr (i, e') ↦
            let (a, g, h) = find_index-some (λ e. not e.used) es i e' in
            rw (e, slot_of, e') (a, g, inr (absent, inl (ground arith)))
        | inl e' ↦
            let (a, g) = get_elem?_total es (stalest es) (stalest_lt es v.whole) in
            rw (e, slot_of, e')
              (
                a,
                g,
                inr (
                  absent,
                  inr (λ j b gb.
                      let n = find_index-none (λ e. not e.used) es j e' gb in ground arith),
                ),
              )
      ]
]

-- What a report makes of the cache.
pub record Keeps (es es' : List Entry) (origin : NodeId) (mv pct_plus1 now_ms : ℕ) : Type 0 where
  pub valid : IsValid es'
  pub finds :
      find (is_of origin) es'
      ≡ some (record { origin = origin; mv = mv; pct_plus1 = pct_plus1; ms = now_ms; used = true })
  pub old : Entry
  pub there : get_elem? es (slot_of es origin) ≡ some old
  -- One node at most loses its report: that of the entry that is given up.
  pub others :
      (other : NodeId)
      → other ≢ origin
      → (find (is_of other) es' ≡ find (is_of other) es)
        ⊎ ((find (is_of other) es' ≡ none)
            × (old.origin ≡ other)
            × (find (is_of origin) es ≡ none)
            × Every (λ (e : Entry). e.used ≡ true) es)

-- A report to a valid cache leaves it valid and is what the cache has of that node; the report of
-- every other node stays, but for at most one, that of the entry that is given up when the node was
-- unknown and all entries were taken.
pub upsert-Keeps :
    (es : List Entry) (origin : NodeId) (mv pct_plus1 now_ms : ℕ)
    → IsValid es
    → Keeps es (upsert es origin mv pct_plus1 now_ms) origin mv pct_plus1 now_ms
unfolding upsert
upsert-Keeps es origin mv pct_plus1 now_ms v =
    let (old, there, why) = slot_of_cases es origin v in
    let i = slot_of es origin in
    let f = reported origin mv pct_plus1 now_ms in
    let was : (is_of origin old ≡ true) ⊎ Lacks is_used origin_of origin es = elim why [
      | inl h ↦ inl h
      | inr (absent, _) ↦ inr absent
    ] in
    record {
      valid = record {
        whole = length-modify es i f ∙ v.whole;
        unique = modify-OwnKeys is_used origin_of es i f origin v.unique there was (λ u. refl);
      };
      finds = find-modify_own is_used origin_of es i f origin v.unique there was refl refl;
      old = old;
      there = there;
      others = λ other ne.
          elim (find-modify_others is_used origin_of es i f origin v.unique there was other ne
            refl) [
              | inl same ↦ inl same
              | inr (gone, t) ↦
                  let (uo, io) = has_key→key is_used origin_of other old t in
                  elim why [
                    | inl h ↦ absurd (ne (sym io ∙ (has_key→key is_used origin_of origin old h).1))
                    | inr (absent, inr all) ↦
                        inr (gone, io, find_absent (is_of origin) es absent, all)
                    | inr (absent, inl free) ↦ absurd (ground arith)
                  ]
            ];
    }

-- `snapshot` shows as many of the reports as there are and as there is room for.
pub length-snapshot :
    (es : List Entry) (now_ms room : ℕ)
    → length (snapshot now_ms room es) ≡ min room (count (λ (e : Entry). e.used) es)
unfolding snapshot count
length-snapshot [] now_ms room = omega arith
length-snapshot (e ∷ es) now_ms room =
    let skip = length-snapshot es now_ms room in
    let keep = length-snapshot es now_ms (room - 1) in
    elim (Bool-cases e.used) [
      | inr f ↦ rw f skip
      | inl t ↦ elim (Bool-cases (room == 0)) [
        | inl z ↦ let r : room ≡ 0 = ground arith in rw (t, z) (omega (arith, skip, r))
        | inr z ↦
            let r : room ≢ 0 = λ w. absurd (ground arith) in rw (t, z) (omega (arith, keep, r))
      ]
    ]
