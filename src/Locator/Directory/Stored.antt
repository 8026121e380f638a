-- ===== src/Locator/Directory/Stored.antt =====
-- What a directory finds after a binding was offered to it.
use agnostic_lora_net.Prelude.{
  ℕ, ◌-◌, ◌*◌, ◌^◌, ◌<◌, ◌≤◌, ◌≡◌, ◌≢◌, ◌⊎◌, sym, ap, ◌∙◌, inl, inr, true, false, ◌||◌, leb, ◌==◌,
  List, Option, none, some, get_elem?, find, find-OwnKeys, find-modify_own, find-modify_others,
  has_key→key, find_absent, find_slot_cases, get_elem?_unique, arith, Every, add32, sub32,
}
use mathlib.Core.Bool.{false≢true}
use agnostic_lora_net.NodeId.{NodeId}
use agnostic_lora_net.Locator.Directory.{
  Entry, LocatorDir, is_of, accepts, expiry, bound, seconds_left, upsert, lookup_full,
}
use agnostic_lora_net.Locator.Directory.Alloc.{Victim}
use agnostic_lora_net.Locator.Directory.Valid.{
  IsValid, Absent, Stores, Refuses, is_used, id_of, upsert_cases,
}

-- The entry of an id.
abbrev pub cached : LocatorDir → List ℕ → Option Entry
cached d id = find (is_of id) d.entries

-- An id keeps its entry; or it was that of the entry `old`, all entries being in use and `id` unknown.
abbrev pub OtherKept : LocatorDir → LocatorDir → List ℕ → ℕ → ℕ → Entry → List ℕ → Type 0
OtherKept d d' id now_ms place old id' =
    (cached d' id' ≡ cached d id')
    ⊎ ((cached d' id' ≡ none)
        × (old.id ≡ id')
        × (cached d id ≡ none)
        × Every (λ (e : Entry). e.used ≡ true) d.entries
        × Victim now_ms d.entries place)

-- What `upsert` makes of a directory.
pub record Meets (d d' : LocatorDir) (id : List ℕ) (loc : NodeId) (epoch seq ttl_s now_ms : ℕ)
    : Type 0 where
  pub entry : Entry
  pub finds : cached d' id ≡ some entry
  pub holds : entry ≡ bound id loc epoch seq ttl_s now_ms (add32 d.clock 1) entry
  -- It was unknown, or it supersedes the binding that was cached.
  pub supersedes :
      (cached d id ≡ none)
      ⊎ ((e : Entry) × (cached d id ≡ some e) × (accepts e epoch seq now_ms ≡ true))
  pub place : ℕ
  pub old : Entry
  pub there : get_elem? d.entries place ≡ some old
  -- Another id keeps its entry, unless it was that of the one entry that is given up, which is an
  -- expired one, or one with the lowest stamp if all are in time.
  pub others : (id' : List ℕ) → id' ≢ id → OtherKept d d' id now_ms place old id'

module _ (d d' : LocatorDir) (id : List ℕ) (loc : NodeId) (epoch seq ttl_s now_ms : ℕ)
    (v : IsValid d) (s : Stores d d' id loc epoch seq ttl_s now_ms) where
  was_its : (is_of id s.old ≡ true) ⊎ Absent id d.entries
  was_its = elim s.was [ inl (h, _) ↦ inl h | inr (absent, _) ↦ inr absent ]

  Stores-finds : cached d' id ≡ some (s.new s.old)
  Stores-finds = rw s.made (
      find-modify_own is_used id_of d.entries s.place s.new id v.unique s.there was_its
        (ap (λ (z : Entry). z.used) s.holds) (ap (λ (z : Entry). z.id) s.holds))

  -- The entry that is taken was the id's own, or was free, or is evicted.
  Stores-others : (id' : List ℕ) → id' ≢ id → OtherKept d d' id now_ms s.place s.old id'
  Stores-others id' ne =
      elim (find-modify_others is_used id_of d.entries s.place s.new id v.unique s.there was_its id'
        ne (ap (λ (z : Entry). z.id) s.holds)) [
          | inl same ↦ inl (rw s.made same)
          | inr (gone, t) ↦
              let (uo, io) = has_key→key is_used id_of id' s.old t in
              elim s.was [
                | inl (h, _) ↦ absurd (ne (sym io ∙ (has_key→key is_used id_of id s.old h).1))
                | inr (absent, victim) ↦ inr (
                  rw s.made gone,
                  io,
                  find_absent (is_of id) d.entries absent,
                  taken uo victim,
                  victim,
                )
              ]
        ]
    where
      taken :
          s.old.used ≡ true
          → Victim now_ms d.entries s.place
          → Every (λ (e : Entry). e.used ≡ true) d.entries
      taken u victim = elim victim.why [
        | inr (us, _) ↦ us
        | inl f ↦
            let same = get_elem?_unique victim.there s.there in
            absurd (false≢true (sym f ∙ (ap (λ (z : Entry). z.used) same ∙ u)))
      ]

  Stores-supersedes :
      (cached d id ≡ none)
      ⊎ ((e : Entry) × (cached d id ≡ some e) × (accepts e epoch seq now_ms ≡ true))
  Stores-supersedes = elim s.was [
    | inr (absent, _) ↦ inl (find_absent (is_of id) d.entries absent)
    | inl (h, a) ↦
        inr (s.old, find-OwnKeys is_used id_of d.entries s.place id v.unique s.there h, a)
  ]

-- On a valid directory, `upsert` either refuses and changes nothing, the id being empty or too long
-- or a binding being cached that the offered one does not supersede; or it returns true, and then
-- the id is bound as offered, it was unknown or the offered binding supersedes the cached one, and
-- every other id keeps its entry, but for at most one: if the id was unknown and all entries were
-- in use, that of an expired entry, or, if none has expired, of one whose
-- stamp of use is the lowest.
pub upsert-Meets :
    (d : LocatorDir) (id : List ℕ) (loc : NodeId) (epoch seq ttl_s now_ms : ℕ)
    → IsValid d
    → ((upsert d id loc epoch seq ttl_s now_ms ≡ (d, false)) × Refuses d id epoch seq now_ms)
      ⊎ (((upsert d id loc epoch seq ttl_s now_ms).1 ≡ true)
          × Meets d (upsert d id loc epoch seq ttl_s now_ms).0 id loc epoch seq ttl_s now_ms)
upsert-Meets d id loc epoch seq ttl_s now_ms v =
    elim (upsert_cases d id loc epoch seq ttl_s now_ms v) [
      | inl r ↦ inl r
      | inr (ok, fine, s) ↦
          let d' = (upsert d id loc epoch seq ttl_s now_ms).0 in
          inr (
            ok,
            record {
              entry = s.new s.old;
              finds = Stores-finds d d' id loc epoch seq ttl_s now_ms v s;
              holds = s.holds;
              place = s.place;
              old = s.old;
              there = s.there;
              supersedes = Stores-supersedes d d' id loc epoch seq ttl_s now_ms v s;
              others = Stores-others d d' id loc epoch seq ttl_s now_ms v s;
            },
          )
    ]

lookup_full_finds :
    (d : LocatorDir) (id : List ℕ) (now_ms : ℕ) (e : Entry)
    → cached d id ≡ some e
    → ((sub32 e.expiry_ms now_ms == 0) || leb (2 ^ 31) (sub32 e.expiry_ms now_ms)) ≡ false
    → (lookup_full d id now_ms).1
      ≡ some (record {
        loc = e.loc;
        epoch = e.epoch;
        seq = e.seq;
        ttl_s = seconds_left (sub32 e.expiry_ms now_ms);
      })
unfolding lookup_full
lookup_full_finds d id now_ms e c x = elim (find_slot_cases (is_of id) d.entries) [
  | inl (_, n, _) ↦ absurd (ground arith)
  | inr (i, a, at, at', _, _) ↦ let same : a ≡ e = ground arith in rw (at, lookup_full, same, x)
]

-- A binding that was stored is found with its locator, epoch and sequence number, `later_ms` after
-- it was stored, as long as its time to live has not passed; its lifetime is then what is left of
-- it in whole seconds, and at least one. The clock may wrap in between.
pub lookup_full-upsert :
    (d : LocatorDir) (id : List ℕ) (loc : NodeId) (epoch seq ttl_s now_ms later_ms : ℕ)
    → IsValid d
    → (upsert d id loc epoch seq ttl_s now_ms).1 ≡ true
    → ttl_s < 2 ^ 16
    → later_ms < ttl_s * 1000
    → (lookup_full (upsert d id loc epoch seq ttl_s now_ms).0 id (add32 now_ms later_ms)).1
      ≡ some (record {
        loc = loc;
        epoch = epoch;
        seq = seq;
        ttl_s = seconds_left (ttl_s * 1000 - later_ms);
      })
lookup_full-upsert d id loc epoch seq ttl_s now_ms later_ms v ok ht hl =
    elim (upsert-Meets d id loc epoch seq ttl_s now_ms v) [
      | inl (e, _) ↦ absurd (false≢true (sym (ap (λ z. z.1) e) ∙ ok))
      | inr (_, m) ↦
          let d' = (upsert d id loc epoch seq ttl_s now_ms).0 in
          let b = bound id loc epoch seq ttl_s now_ms (add32 d.clock 1) m.entry in
          let t = ttl_s * 1000 - later_ms in
          let left : sub32 (expiry now_ms ttl_s) (add32 now_ms later_ms) ≡ t =
            omega (arith, ht, hl) in
          let live : ((t == 0) || leb (2 ^ 31) t) ≡ false =
            let big : 1 ≤ t = omega (arith, hl) in
            let small : t < 2 ^ 31 = omega (arith, ht) in ground arith in
          rw left at (
            lookup_full_finds d' id (add32 now_ms later_ms) b (m.finds ∙ ap some m.holds)
              (rw left live))
    ]
