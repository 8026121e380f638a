-- ===== src/Locator/Resolver/Pending.antt =====
-- Resolutions that are begun are pending, are found by their reply, and are not begun twice.
use agnostic_lora_net.Prelude.{
  ℕ, suc, ◌+◌, ◌-◌, ◌%◌, ◌^◌, ◌≤◌, ◌<◌, ◌≡◌, ◌≢◌, ◌⊎◌, refl, sym, ap, ◌∙◌, inl, inr, Bool, true,
  false, ◌&&◌, List, [], ◌∷◌, Option, none, some, ◌==◌, ==_refl, get_elem?, modify, find_slot,
  find_slot_cases, find_index_total, get_elem?-modify_self, modify_cases, any, count, Every,
  Every-cons, Every-modify, bytes_eq_refl, Bool-cases, arith, &&_true, add32, before32, any-false,
  Apart, Apart-modify, find_index-some, ==_iff, ℕ_discrete,
}
use mathlib.Core.Bool.{false≢true}
use agnostic_lora_net.Locator.{bad_id}
use agnostic_lora_net.Locator.Resolver.{
  P, LocatorResolver, in_time, awaits, slot_loop, begun, next, begin, on_reply, pending, is_late,
  cleared, tick_slots, tick,
}

-- Query ids are 16 bits, and 0 is reserved.
abbrev pub IsQid : ℕ → Type 0
IsQid q = (1 ≤ q) × (q < 2 ^ 16)

pub record IsValid (r : LocatorResolver) : Type 0 where
  pub next : IsQid r.next_qid
  pub named : Every (λ (p : P). p.used ≡ true → (1 ≤ p.qid) × (p.qid < 2 ^ 16)) r.slots
  -- No two resolutions have one query id.
  pub unique : Apart (λ (a b : P). a.used ≡ true → b.used ≡ true → a.qid ≢ b.qid) r.slots

-- The resolution of `id` that waits in slot `place` under the query id `q`; a reply to `q` ends it, and
-- nothing else.
pub record Waits (r : LocatorResolver) (id : List ℕ) (now_ms q : ℕ) : Type 0 where
  pub place : ℕ
  pub slot : P
  pub there : get_elem? r.slots place ≡ some slot
  pub waiting : awaits id now_ms slot ≡ true
  pub named : slot.qid ≡ q
  pub is_pending : pending r id now_ms ≡ true
  pub ends : on_reply r q ≡ (record r { slots = modify r.slots place cleared }, true)

-- No slot is left: each is in use, and in time.
abbrev pub IsFull : ℕ → LocatorResolver → Type 0
IsFull now_ms r = Every (λ (p : P). (p.used ≡ true) × (in_time now_ms p ≡ true)) r.slots

slot_loop_lem :
    (now_ms i : ℕ) (slot : Option ℕ) (ps : List P)
    → ((k : ℕ) × (slot_loop now_ms i slot ps ≡ some k)
        × ((slot ≡ some k)
            ⊎ ((m : ℕ) × (p : P) × (k ≡ i + m)
                × (get_elem? ps m ≡ some p)
                × ((p.used ≡ false) ⊎ (in_time now_ms p ≡ false)))))
      ⊎ ((slot_loop now_ms i slot ps ≡ none)
          × (slot ≡ none)
          × Every (λ (p : P). (p.used ≡ true) × (in_time now_ms p ≡ true)) ps)
unfolding slot_loop
slot_loop_lem now_ms i none [] = inr (refl, refl, λ j p g. absurd (ground arith))
slot_loop_lem now_ms i (some k) [] = inl (k, refl, inl refl)
slot_loop_lem now_ms i slot (p ∷ ps) = elim (Bool-cases p.used) [
  | inr f ↦ inl (i, rw f, inr (0, p, ground arith, refl, inl f))
  | inl t ↦ elim (Bool-cases (in_time now_ms p)) [
    | inl x ↦ elim (slot_loop_lem now_ms (i + 1) slot ps) [
      | inl (k, e, inl s) ↦ inl (k, rw (t, x) e, inl s)
      | inl (k, e, inr (m, q, at, g, w)) ↦
          inl (k, rw (t, x) e, inr (suc m, q, omega (arith, at), g, w))
      | inr (e, s, all) ↦ inr (
        rw (t, x) e,
        s,
        Every-cons (λ (p : P). (p.used ≡ true) × (in_time now_ms p ≡ true)) p ps (t, x) all,
      )
    ]
    | inr x ↦ elim (slot_loop_lem now_ms (i + 1) (some i) ps) [
      | inl (k, e, inl s) ↦ inl (k, rw (t, x) e, inr (0, p, ground arith, refl, inr x))
      | inl (k, e, inr (m, q, at, g, w)) ↦
          inl (k, rw (t, x) e, inr (suc m, q, omega (arith, at), g, w))
      | inr (e, s, all) ↦ absurd (ground arith)
    ]
  ]
]

any-true :
    (f : P → Bool) (ps : List P) (i : ℕ) {p : P}
    → get_elem? ps i ≡ some p
    → f p ≡ true
    → any f ps ≡ true
any-true f ps i g t = elim (Bool-cases (any f ps)) [
  | inl h ↦ h
  | inr h ↦ absurd (false≢true (sym (any-false f ps i h g) ∙ t))
]

-- A slot that is begun waits, for a timeout of 1 to 65535 ms.
awaits-begun :
    (id : List ℕ) (qid now_ms timeout_ms : ℕ) (p : P)
    → 1 ≤ timeout_ms
    → timeout_ms < 2 ^ 16
    → awaits id now_ms (begun id qid (add32 now_ms timeout_ms) p) ≡ true
awaits-begun id qid now_ms timeout_ms p lo hi =
    let x : before32 now_ms (add32 now_ms timeout_ms) ≡ true =
      let far : 2 ^ 31 ≤ (now_ms + 2 ^ 32 - (now_ms + timeout_ms) % 2 ^ 32) % 2 ^ 32 =
        omega (arith, lo, hi) in
      ground arith in
    rw x (bytes_eq_refl id)

Waits-slot :
    (r : LocatorResolver) (id : List ℕ) (now_ms i : ℕ) (p : P)
    → Apart (λ (a b : P). a.used ≡ true → b.used ≡ true → a.qid ≢ b.qid) r.slots
    → get_elem? r.slots i ≡ some p
    → awaits id now_ms p ≡ true
    → Waits r id now_ms p.qid
unfolding on_reply pending
Waits-slot r id now_ms i p v g h =
    let u : p.used ≡ true = (&&_true {a = p.used} h).0 in
    let t : (p.used && (p.qid == p.qid)) ≡ true = rw u (==_refl p.qid) in
    let (j, e) = find_index_total (λ q. q.used && (q.qid == p.qid)) r.slots i g t in
    let (b, gb, tb) = find_index-some (λ q. q.used && (q.qid == p.qid)) r.slots j e in
    let ub : b.used ≡ true = (&&_true {a = b.used} tb).0 in
    let sb : b.qid ≡ p.qid = (==_iff b.qid p.qid).0 ((&&_true {a = b.used} tb).1) in
    let same : j ≡ i = elim (ℕ_discrete j i) [
      | yes s ↦ s
      | no differ ↦ absurd (v j i b p gb g differ ub u sb)
    ] in
    record {
      place = i;
      slot = p;
      there = g;
      waiting = h;
      named = refl;
      is_pending = any-true (awaits id now_ms) r.slots i g h;
      ends = rw (e, on_reply, same) refl;
    }

begin_waiting :
    (r : LocatorResolver) (id : List ℕ) (now_ms timeout_ms i : ℕ) (p : P)
    → bad_id id ≡ false
    → find_slot (awaits id now_ms) r.slots ≡ some (i, p)
    → begin r id now_ms timeout_ms ≡ (r, p.qid)
unfolding begin
begin_waiting r id now_ms timeout_ms i p fine at = rw (fine, at, begin)

module _ (r : LocatorResolver) (id : List ℕ) (now_ms timeout_ms : ℕ) where
  -- What `begin` does, by its branches.
  begin_cases :
      ((begin r id now_ms timeout_ms ≡ (r, 0)) × ((bad_id id ≡ true) ⊎ IsFull now_ms r))
      ⊎ (((i : ℕ) × (p : P) × (begin r id now_ms timeout_ms ≡ (r, p.qid))
            × (find_slot (awaits id now_ms) r.slots ≡ some (i, p))
            × (bad_id id ≡ false)
            × (get_elem? r.slots i ≡ some p)
            × (awaits id now_ms p ≡ true))
          ⊎ ((i : ℕ) × (p : P) × (begin r id now_ms timeout_ms ≡ (
            record {
              slots = modify r.slots i (begun id r.next_qid (add32 now_ms timeout_ms));
              next_qid = next r.next_qid;
            },
            r.next_qid,
          ))
              × (bad_id id ≡ false)
              × (get_elem? r.slots i ≡ some p)
              × ((j : ℕ) (b : P) → get_elem? r.slots j ≡ some b → awaits id now_ms b ≡ false)))
  unfolding begin
  begin_cases = elim (Bool-cases (bad_id id)) [
    | inl bad ↦ inl (rw (bad, begin), inl bad)
    | inr fine ↦ elim (find_slot_cases (awaits id now_ms) r.slots) [
      | inr (i, p, at, _, g, h) ↦ inr (inl (i, p, rw (fine, at, begin), at, fine, g, h))
      | inl (at, _, absent) ↦ elim (slot_loop_lem now_ms 0 none r.slots) [
        | inr (e, _, all) ↦ inl (rw (fine, at, begin, e), inr all)
        | inl (k, e, inl s) ↦ absurd (ground arith)
        | inl (k, e, inr (m, p, same, g, _)) ↦
            let s : m ≡ k = omega (arith, same) in
            inr (inr (k, p, rw (fine, at, begin, e), fine, rw s at g, absent))
      ]
    ]
  ]

  -- On a resolver whose query ids are in range and all different, and whose next one is not in use,
  -- `begin` returns 0 and changes nothing, the id being empty or too long, or all slots being in use
  -- and in time; or it returns a query id in range, under which a resolution of just this id waits,
  -- and a reply to it ends that resolution and no other. The query ids stay in range and different. A
  -- timeout is 1 to 65535 ms.
  pub begin-Begins :
      IsValid r
      → Every (λ (p : P). p.used ≡ true → p.qid ≢ r.next_qid) r.slots
      → 1 ≤ timeout_ms
      → timeout_ms < 2 ^ 16
      → let (r', q) = begin r id now_ms timeout_ms in
        IsValid r'
        × (((q ≡ 0) × (r' ≡ r) × ((bad_id id ≡ true) ⊎ IsFull now_ms r))
            ⊎ (IsQid q × Waits r' id now_ms q))
  begin-Begins v fresh lo hi = elim begin_cases [
    | inl (e, why) ↦ rw e (v, inl (refl, refl, why))
    | inr (inl (i, p, e, _, _, g, h)) ↦
        rw e (
          v,
          inr (v.named i p g (&&_true {a = p.used} h).0, Waits-slot r id now_ms i p v.unique g h),
        )
    | inr (inr (i, p, e, _, g, _)) ↦
        let new = begun id r.next_qid (add32 now_ms timeout_ms) in
        let r' : LocatorResolver = record {
          slots = modify r.slots i new;
          next_qid = next r.next_qid;
        } in
        let g' = get_elem?-modify_self r.slots i new g in
        let h' = awaits-begun id r.next_qid now_ms timeout_ms p lo hi in
        let valid : IsValid r' = record {
          next = next_valid;
          named =
              Every-modify (λ (p : P). p.used ≡ true → (1 ≤ p.qid) × (p.qid < 2 ^ 16)) r.slots i new
                v.named (λ a ga k u. v.next);
          unique =
              Apart-modify (λ (a b : P). a.used ≡ true → b.used ≡ true → a.qid ≢ b.qid) r.slots i
                new v.unique
                (λ j a b ga gb d. (λ u u' s. fresh j b gb u' (sym s), λ u' u s. fresh j b gb u' s));
        } in
        rw e (valid, inr (v.next, Waits-slot r' id now_ms i (new p) valid.unique g' h'))
  ]
    where
      next_valid : IsQid (next r.next_qid)
      next_valid = elim (Bool-cases ((r.next_qid + 1) % 2 ^ 16 == 0)) [
        | inl z ↦ rw z (omega arith, omega arith)
        | inr z ↦
            let q = r.next_qid in
            let ne : (q + 1) % 2 ^ 16 ≢ 0 = λ w. absurd (ground arith) in
            rw z (omega (arith, ne), omega arith)
      ]

  -- A resolution that is asked for again at that time is not begun again: `begin` returns the same
  -- query id and changes nothing, whatever the second timeout is.
  pub begin_again :
      (timeout_ms' : ℕ)
      → 1 ≤ timeout_ms
      → timeout_ms < 2 ^ 16
      → (begin r id now_ms timeout_ms).1 ≢ 0
      → begin (begin r id now_ms timeout_ms).0 id now_ms timeout_ms' ≡ begin r id now_ms timeout_ms
  begin_again timeout_ms' lo hi ne = elim begin_cases [
    | inl (e, _) ↦ absurd (ne (ap (λ z. z.1) e))
    | inr (inl (i, p, e, at, fine, _, _)) ↦ rw e (begin_waiting r id now_ms timeout_ms' i p fine at)
    | inr (inr (i, p, e, fine, g, absent)) ↦
        let new = begun id r.next_qid (add32 now_ms timeout_ms) in
        let r' : LocatorResolver = record {
          slots = modify r.slots i new;
          next_qid = next r.next_qid;
        } in
        let g' = get_elem?-modify_self r.slots i new g in
        let h' = awaits-begun id r.next_qid now_ms timeout_ms p lo hi in
        rw e (elim (find_slot_cases (awaits id now_ms) r'.slots) [
          | inl (_, _, none_waits) ↦ absurd (false≢true (sym (none_waits i (new p) g') ∙ h'))
          | inr (j, b, at, _, gb, hb) ↦ elim (modify_cases r.slots i j new gb) [
            | inl (a, _, _, same) ↦
                begin_waiting r' id now_ms timeout_ms' j b fine at
                ∙ ap (λ z. (r', z)) (ap (λ (z : P). z.qid) same)
            | inr (_, gb') ↦ absurd (false≢true (sym (absent j b gb') ∙ hb))
          ]
        ])
  ]

tick_slots_lem :
    (now_ms : ℕ) (ps : List P)
    → let (ps', n) = tick_slots now_ms ps in
      (count (λ (p : P). p.used) ps' + n ≡ count (λ (p : P). p.used) ps)
      × ((id : List ℕ) → any (awaits id now_ms) ps' ≡ any (awaits id now_ms) ps)
      × Every (λ (p : P). is_late now_ms p ≡ false) ps'
unfolding tick_slots count any
tick_slots_lem now_ms [] = (refl, λ id. refl, λ i p g. absurd (ground arith))
tick_slots_lem now_ms (p ∷ ps) =
    let (n, same, all) = tick_slots_lem now_ms ps in
    elim (Bool-cases (is_late now_ms p)) [
      | inl late ↦
          let (u, x) = &&_true {a = p.used} late in
          let y : in_time now_ms p ≡ false = ground arith in
          rw late (
            rw u (omega (arith, n)),
            λ id. rw (u, y) (same id),
            Every-cons (λ (p : P). is_late now_ms p ≡ false) (cleared p) _ refl all,
          )
      | inr wait ↦ rw wait (
        elim (Bool-cases p.used) [ inl u ↦ rw u (omega (arith, n)) | inr u ↦ rw u n ],
        λ id. rw (same id),
        Every-cons (λ (p : P). is_late now_ms p ≡ false) p _ wait all,
      )
    ]

-- At each time, `tick` clears just the resolutions that are late: those it counts were in use and
-- the others still are, each id is pending as it was, and no resolution that is left is late.
pub tick_lem :
    (r : LocatorResolver) (now_ms : ℕ)
    → let (r', n) = tick r now_ms in
      (count (λ (p : P). p.used) r'.slots + n ≡ count (λ (p : P). p.used) r.slots)
      × ((id : List ℕ) → pending r' id now_ms ≡ pending r id now_ms)
      × Every (λ (p : P). is_late now_ms p ≡ false) r'.slots
unfolding tick pending
tick_lem r now_ms = tick_slots_lem now_ms r.slots
