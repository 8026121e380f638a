-- ===== src/Locator/Directory/Valid.antt =====
-- The ids of a directory stay distinct.
use agnostic_lora_net.Prelude.{
  ℕ, ◌≡◌, ◌≢◌, ◌⊎◌, refl, sym, ap, ◌∙◌, subst, inl, inr, Bool, true, false, ◌||◌, leb, ◌==◌, ◌^◌,
  List, [], ◌∷◌, some, length, get_elem?, modify, find, OwnKeys, Lacks, has_key→key, modify-OwnKeys,
  find_slot_cases, find_index, find_index-some, length-modify, Apart, Bool-cases, Option-cases,
  Every-replicate, replicate, add32, sub32,
}
use mathlib.Core.Bool.{false≢true}
use agnostic_lora_net.NodeId.{NodeId}
use agnostic_lora_net.Locator.{bad_id}
use agnostic_lora_net.Locator.Directory.{
  Entry, LocatorDir, init, loc_dir_cap, no_entry, is_of, expired, accepts, bound, renewed, dropped,
  touch, upsert, lookup, lookup_full, remove,
}
use agnostic_lora_net.Locator.Directory.Alloc.{Victim, alloc_slot-Victim}

abbrev pub is_used : Entry → Bool
is_used e = e.used

abbrev pub id_of : Entry → List ℕ
id_of e = e.id

pub record IsValid (d : LocatorDir) : Type 0 where
  pub whole : length d.entries ≡ loc_dir_cap
  pub unique : Apart (λ (a b : Entry). a.used ≡ true → b.used ≡ true → a.id ≢ b.id) d.entries

abbrev pub Absent : List ℕ → List Entry → Type 0
Absent id es = Lacks is_used id_of id es

-- What a directory has become: the entries that it had, or one of them rewritten.
pub record Writes (d d' : LocatorDir) (id : List ℕ) : Type 0 where
  pub place : ℕ
  pub old : Entry
  pub new : Entry → Entry
  pub there : get_elem? d.entries place ≡ some old
  pub made : d'.entries ≡ modify d.entries place new
  pub named : (new old).used ≡ true → (new old).id ≡ id
  pub was : (is_of id old ≡ true) ⊎ Absent id d.entries

Writes-IsValid : (d d' : LocatorDir) (id : List ℕ) → IsValid d → Writes d d' id → IsValid d'
Writes-IsValid d d' id v w = record {
  whole = ap length w.made ∙ (length-modify d.entries w.place w.new ∙ v.whole);
  unique =
      subst (OwnKeys is_used id_of) (sym w.made)
        (modify-OwnKeys is_used id_of d.entries w.place w.new id v.unique w.there w.was w.named);
}

same-IsValid : (d d' : LocatorDir) → IsValid d → d'.entries ≡ d.entries → IsValid d'
same-IsValid d d' v e = record {
  whole = ap length e ∙ v.whole;
  unique = subst (OwnKeys is_used id_of) (sym e) v.unique;
}

-- What `upsert` does: the entry it takes, and what it writes there.
pub record Stores (d d' : LocatorDir) (id : List ℕ) (loc : NodeId) (epoch seq ttl_s now_ms : ℕ)
    : Type 0 where
  pub place : ℕ
  pub old : Entry
  pub new : Entry → Entry
  pub there : get_elem? d.entries place ≡ some old
  pub made : d'.entries ≡ modify d.entries place new
  pub holds : new old ≡ bound id loc epoch seq ttl_s now_ms (add32 d.clock 1) old
  pub was :
      ((is_of id old ≡ true) × (accepts old epoch seq now_ms ≡ true))
      ⊎ (Absent id d.entries × Victim now_ms d.entries place)

-- Why `upsert` may refuse.
abbrev pub Refuses : LocatorDir → List ℕ → ℕ → ℕ → ℕ → Type 0
Refuses d id epoch seq now_ms =
    (bad_id id ≡ true)
    ⊎ ((e : Entry) × (find (is_of id) d.entries ≡ some e) × (accepts e epoch seq now_ms ≡ false))

renewed-bound :
    (id : List ℕ) (loc : NodeId) (epoch seq ttl_s now_ms stamp : ℕ) (e : Entry)
    → e.used ≡ true
    → e.id ≡ id
    → renewed loc epoch seq ttl_s now_ms stamp e ≡ bound id loc epoch seq ttl_s now_ms stamp e
renewed-bound id loc epoch seq ttl_s now_ms stamp e u s = rw (u, s) refl

pub upsert_cases :
    (d : LocatorDir) (id : List ℕ) (loc : NodeId) (epoch seq ttl_s now_ms : ℕ)
    → IsValid d
    → ((upsert d id loc epoch seq ttl_s now_ms ≡ (d, false)) × Refuses d id epoch seq now_ms)
      ⊎ (((upsert d id loc epoch seq ttl_s now_ms).1 ≡ true)
          × (bad_id id ≡ false)
          × Stores d (upsert d id loc epoch seq ttl_s now_ms).0 id loc epoch seq ttl_s now_ms)
unfolding upsert
upsert_cases d id loc epoch seq ttl_s now_ms v = elim (Bool-cases (bad_id id)) [
  | inl bad ↦ inl (rw (bad, upsert), inl bad)
  | inr fine ↦ elim (find_slot_cases (is_of id) d.entries) [
    | inr (i, e, at, at', g, h) ↦ elim (Bool-cases (accepts e epoch seq now_ms)) [
      | inr stale ↦ inl (rw (fine, at, upsert, stale), inr (e, at', stale))
      | inl newer ↦
          let (u, s) = has_key→key is_used id_of id e h in
          inr (
            rw (fine, at, upsert, newer),
            fine,
            record {
              place = i;
              old = e;
              new = renewed loc epoch seq ttl_s now_ms (add32 d.clock 1);
              there = g;
              made = rw (fine, at, upsert, newer);
              holds = renewed-bound id loc epoch seq ttl_s now_ms (add32 d.clock 1) e u s;
              was = inl (h, newer);
            },
          )
    ]
    | inl (at, _, absent) ↦
        let (i, s, victim) = alloc_slot-Victim now_ms d.entries v.whole in
        inr (
          rw (fine, at, upsert, s),
          fine,
          record {
            place = i;
            old = victim.entry;
            new = bound id loc epoch seq ttl_s now_ms (add32 d.clock 1);
            there = victim.there;
            made = rw (fine, at, upsert, s);
            holds = refl;
            was = inr (absent, victim);
          },
        )
  ]
]

pub upsert-IsValid :
    (d : LocatorDir) (id : List ℕ) (loc : NodeId) (epoch seq ttl_s now_ms : ℕ)
    → IsValid d
    → IsValid (upsert d id loc epoch seq ttl_s now_ms).0
upsert-IsValid d id loc epoch seq ttl_s now_ms v =
    elim (upsert_cases d id loc epoch seq ttl_s now_ms v) [
      | inl (e, _) ↦ same-IsValid d _ v (ap (λ z. z.0.entries) e)
      | inr (_, _, s) ↦ Writes-IsValid d _ id v (record {
        place = s.place;
        old = s.old;
        new = s.new;
        there = s.there;
        made = s.made;
        named = λ u. ap (λ (z : Entry). z.id) s.holds;
        was = elim s.was [ inl (h, _) ↦ inl h | inr (absent, _) ↦ inr absent ];
      })
    ]

-- A directory after the entry of an id, if it has one, was dropped or touched.
record Reads (d d' : LocatorDir) (id : List ℕ) : Type 0 where
  place : ℕ
  old : Entry
  new : Entry → Entry
  there : get_elem? d.entries place ≡ some old
  is_old : is_of id old ≡ true
  made : d'.entries ≡ modify d.entries place new
  same : (new old).id ≡ old.id

Reads-IsValid :
    (d d' : LocatorDir) (id : List ℕ)
    → IsValid d
    → (d'.entries ≡ d.entries) ⊎ Reads d d' id
    → IsValid d'
Reads-IsValid d d' id v (inl e) = same-IsValid d d' v e
Reads-IsValid d d' id v (inr r) = Writes-IsValid d d' id v (record {
  place = r.place;
  old = r.old;
  new = r.new;
  there = r.there;
  made = r.made;
  named = λ u. r.same ∙ (has_key→key is_used id_of id r.old r.is_old).1;
  was = inl r.is_old;
})

lookup-IsValid :
    (d : LocatorDir) (id : List ℕ) (now_ms : ℕ) → IsValid d → IsValid (lookup d id now_ms).0
unfolding lookup
lookup-IsValid d id now_ms v = Reads-IsValid d _ id v (elim (find_slot_cases (is_of id) d.entries) [
  | inl (at, _, _) ↦ inl (rw (at, lookup))
  | inr (i, e, at, _, g, h) ↦ elim (Bool-cases (expired now_ms e)) [
    | inl x ↦ inr (record {
      place = i;
      old = e;
      new = dropped;
      there = g;
      is_old = h;
      made = rw (at, lookup, x);
      same = refl;
    })
    | inr x ↦ inr (record {
      place = i;
      old = e;
      new = touch (add32 d.clock 1);
      there = g;
      is_old = h;
      made = rw (at, lookup, x);
      same = refl;
    })
  ]
])

lookup_full-IsValid :
    (d : LocatorDir) (id : List ℕ) (now_ms : ℕ) → IsValid d → IsValid (lookup_full d id now_ms).0
unfolding lookup_full
lookup_full-IsValid d id now_ms v =
    Reads-IsValid d _ id v (elim (find_slot_cases (is_of id) d.entries) [
      | inl (at, _, _) ↦ inl (rw (at, lookup_full))
      | inr (i, e, at, _, g, h) ↦
          let rem_ms = sub32 e.expiry_ms now_ms in
          elim (Bool-cases ((rem_ms == 0) || leb (2 ^ 31) rem_ms)) [
            | inl x ↦ inr (record {
              place = i;
              old = e;
              new = dropped;
              there = g;
              is_old = h;
              made = rw (at, lookup_full, x);
              same = refl;
            })
            | inr x ↦ inr (record {
              place = i;
              old = e;
              new = touch (add32 d.clock 1);
              there = g;
              is_old = h;
              made = rw (at, lookup_full, x);
              same = refl;
            })
          ]
    ])

remove-IsValid : (d : LocatorDir) (id : List ℕ) → IsValid d → IsValid (remove d id).0
unfolding remove
remove-IsValid d id v =
    Reads-IsValid d _ id v (elim (Option-cases (find_index (is_of id) d.entries)) [
      | inl at ↦ inl (rw (at, remove))
      | inr (i, at) ↦
          let (e, g, h) = find_index-some (is_of id) d.entries i at in
          inr (record {
            place = i;
            old = e;
            new = dropped;
            there = g;
            is_old = h;
            made = rw (at, remove);
            same = refl;
          })
    ])

pub data Call : Type 0 where
  upserts : (id : List ℕ) (loc : NodeId) (epoch seq ttl_s now_ms : ℕ) → Call
  looks_up : (id : List ℕ) (now_ms : ℕ) → Call
  looks_up_full : (id : List ℕ) (now_ms : ℕ) → Call
  removes : (id : List ℕ) → Call

unfoldable pub call : LocatorDir → Call → LocatorDir
call d (upserts id loc epoch seq ttl_s now_ms) = (upsert d id loc epoch seq ttl_s now_ms).0
call d (looks_up id now_ms) = (lookup d id now_ms).0
call d (looks_up_full id now_ms) = (lookup_full d id now_ms).0
call d (removes id) = (remove d id).0

unfoldable pub calls : LocatorDir → List Call → LocatorDir
calls d [] = d
calls d (c ∷ cs) = calls (call d c) cs

pub init-IsValid : IsValid init
init-IsValid = record {
  whole = refl;
  unique = λ i j a b ga gb d u. absurd (false≢true (sym (unused i a ga) ∙ u));
}
  where
    unused :
        (i : ℕ) (a : Entry) → get_elem? (replicate loc_dir_cap no_entry) i ≡ some a → a.used ≡ false
    unused i a g = Every-replicate (λ (e : Entry). e.used ≡ false) loc_dir_cap no_entry refl i a g

call-IsValid : (d : LocatorDir) (c : Call) → IsValid d → IsValid (call d c)
unfolding call
call-IsValid d (upserts id loc epoch seq ttl_s now_ms) v =
    upsert-IsValid d id loc epoch seq ttl_s now_ms v
call-IsValid d (looks_up id now_ms) v = lookup-IsValid d id now_ms v
call-IsValid d (looks_up_full id now_ms) v = lookup_full-IsValid d id now_ms v
call-IsValid d (removes id) v = remove-IsValid d id v

calls-IsValid_from : (d : LocatorDir) (cs : List Call) → IsValid d → IsValid (calls d cs)
unfolding calls
calls-IsValid_from d [] v = v
calls-IsValid_from d (c ∷ cs) v = calls-IsValid_from (call d c) cs (call-IsValid d c v)

-- However a directory was used since it was made, it has its 32 entries, and no two entries in use
-- hold one id.
pub calls-IsValid : (cs : List Call) → IsValid (calls init cs)
calls-IsValid cs = calls-IsValid_from init cs init-IsValid
