-- ===== src/NodeTable/Pick.antt =====
-- The slot that interning an id picks, and what it does to it.
use agnostic_lora_net.Prelude.{
  ℕ, zero, suc, ◌+◌, ◌%◌, ◌<◌, ◌≡◌, ◌≢◌, ◌⊎◌, refl, ap, ◌∙◌, inl, inr, Bool, true, false, not, List,
  [], ◌∷◌, Option, none, some, length, get_elem?, get_or, find_index, find_index-some,
  find_index-none, modify, get_elem?-modify_self, bytes_eq→eq, Bool-cases, Option-cases, arith,
  &&_true, before32, Apart, Every,
}
use agnostic_lora_net.NodeId.{NodeId}
use agnostic_lora_net.NodeTable.{
  NodeTable, Slot, node_table_cap, node_ref_none, blank, is_of, older, oldest, evicted, occupied,
  free_or_evict, intern,
}

-- Slots in use hold different ids, and generations are bytes.
pub record IsValid (t : NodeTable) : Type 0 where
  pub whole : length t.slots ≡ node_table_cap
  pub unique : Apart (λ (a b : Slot). a.used ≡ true → b.used ≡ true → a.id ≢ b.id) t.slots
  pub small : Every (λ (s : Slot). s.gen < 256) t.slots

modify-modify :
    (xs : List Slot) (i : ℕ) (f g : Slot → Slot)
    → modify (modify xs i f) i g ≡ modify xs i (λ s. g (f s))
modify-modify [] i f g = refl
modify-modify (x ∷ xs) zero f g = refl
modify-modify (x ∷ xs) (suc i) f g = ap (λ z. x ∷ z) (modify-modify xs i f g)

get_or-modify :
    (xs : List Slot) (i : ℕ) (f : Slot → Slot) {a : Slot}
    → get_elem? xs i ≡ some a
    → get_or (modify xs i f) i blank ≡ f a
get_or-modify [] i f e = absurd (ground arith)
get_or-modify (x ∷ xs) zero f e = ground arith
get_or-modify (x ∷ xs) (suc i) f e = get_or-modify xs i f e

get_or-get_elem? :
    (xs : List Slot) (i : ℕ) {a : Slot} → get_elem? xs i ≡ some a → get_or xs i blank ≡ a
get_or-get_elem? [] i e = absurd (ground arith)
get_or-get_elem? (x ∷ xs) zero e = ground arith
get_or-get_elem? (x ∷ xs) (suc i) e = get_or-get_elem? xs i e

-- A victim is an unpinned slot.
oldest_unpinned :
    (ss : List Slot) (i : ℕ) (victim : Option (ℕ × ℕ)) (j ms : ℕ)
    → oldest i victim ss ≡ some (j, ms)
    → (victim ≡ some (j, ms))
      ⊎ ((k : ℕ) × (a : Slot) × (j ≡ i + k) × (get_elem? ss k ≡ some a) × (a.pinned ≡ false))
unfolding oldest
oldest_unpinned [] i victim j ms e = inl e
oldest_unpinned (s ∷ ss) i victim j ms e =
    elim (oldest_unpinned ss (i + 1) (older i s victim) j ms e) [
      | inr (k, a, at, g, p) ↦ inr (suc k, a, omega (arith, at), g, p)
      | inl h ↦ elim (Bool-cases s.pinned) [ inl t ↦ inl (rw t at h) | inr f ↦ now f victim h ]
    ]
  where
    now :
        s.pinned ≡ false
        → (v : Option (ℕ × ℕ)) → older i s v ≡ some (j, ms)
        → (v ≡ some (j, ms))
          ⊎ ((k : ℕ) × (a : Slot) × (j ≡ i + k)
              × (get_elem? (s ∷ ss) k ≡ some a)
              × (a.pinned ≡ false))
    now f none h = inr (0, s, ground arith, refl, f)
    now f (some (l, m)) h = elim (Bool-cases (before32 s.last_ms m)) [
      | inl b ↦ inr (0, s, ground arith, refl, f)
      | inr b ↦ inl (rw (f, b) at h)
    ]

-- What `intern` does to the slot that it picks.
pub record Picks (t : NodeTable) (id : NodeId) (now_ms : ℕ) : Type 0 where
  pub place : ℕ
  pub old : Slot
  pub new : Slot → Slot
  pub there : get_elem? t.slots place ≡ some old
  pub slots : (intern t id now_ms).0.slots ≡ modify t.slots place new
  pub ref : (intern t id now_ms).1 ≡ record { idx = place % 256; gen = (new old).gen }
  pub used : (new old).used ≡ true
  pub named : (new old).id ≡ id
  pub was :
      ((old.used ≡ true) × (old.id ≡ id) × ((new old).gen ≡ old.gen))
      ⊎ (((j : ℕ) (b : Slot) → get_elem? t.slots j ≡ some b → is_of id b ≡ false)
          × (((old.used ≡ false) × ((new old).gen ≡ old.gen))
              ⊎ ((old.pinned ≡ false) × ((new old).gen ≡ (old.gen + 1) % 256))))

abbrev is_free : Slot → Bool
is_free s = not s.used

module _ (t : NodeTable) where
  free_free : (i : ℕ) → find_index is_free t.slots ≡ some i → free_or_evict t ≡ (t, some i)
  unfolding free_or_evict
  free_free i e = rw (e, free_or_evict)

  free_full :
      find_index is_free t.slots ≡ none → oldest 0 none t.slots ≡ none → free_or_evict t ≡ (t, none)
  unfolding free_or_evict
  free_full e e' = rw (e, free_or_evict, e')

  free_evict :
      (i ms : ℕ)
      → find_index is_free t.slots ≡ none
      → oldest 0 none t.slots ≡ some (i, ms)
      → free_or_evict t
        ≡ (record t { slots = modify t.slots i evicted; last_evicted = true }, some i)
  unfolding free_or_evict
  free_evict i ms e e' = rw (e, free_or_evict, e')

-- It picks one, or every slot is taken and nothing changes in the slots.
pub intern_cases :
    (t : NodeTable) (id : NodeId) (now_ms : ℕ)
    → Picks t id now_ms
      ⊎ (((intern t id now_ms).0.slots ≡ t.slots) × ((intern t id now_ms).1 ≡ node_ref_none))
unfolding intern
intern_cases t id now_ms =
    let t' = record t { last_evicted = false } in
    elim (Option-cases (find_index (is_of id) t.slots)) [
      | inr (i, e) ↦
          let (a, g, h) = find_index-some (is_of id) t.slots i e in
          inl (record {
            place = i;
            old = a;
            new = λ s. record s { last_ms = now_ms };
            there = g;
            slots = rw (e, intern);
            ref = rw (e, intern, get_or-get_elem? t.slots i g);
            used = (&&_true {a = a.used} h).0;
            named = bytes_eq→eq a.id id (&&_true {a = a.used} h).1;
            was =
                inl (
                  (&&_true {a = a.used} h).0,
                  bytes_eq→eq a.id id (&&_true {a = a.used} h).1,
                  refl,
                );
          })
      | inl e ↦
          let absent = λ (j : ℕ) (b : Slot) (g : get_elem? t.slots j ≡ some b).
            find_index-none (is_of id) t.slots j e g in
          elim (Option-cases (find_index (λ s. not s.used) t.slots)) [
            | inr (i, e') ↦
                let (a, g, h) = find_index-some (λ s. not s.used) t.slots i e' in
                inl (record {
                  place = i;
                  old = a;
                  new = λ s. record (occupied id s) { last_ms = now_ms };
                  there = g;
                  slots =
                      rw (e, intern, free_free t' i e', free_free t' i e')
                        (modify-modify t.slots i _ _);
                  ref = rw (
                    e,
                    intern,
                    free_free t' i e',
                    free_free t' i e',
                    get_or-modify t.slots i (occupied id) g,
                  );
                  used = refl;
                  named = refl;
                  was = inr (absent, inl (ground arith, refl));
                })
            | inl e' ↦ elim (Option-cases (oldest 0 none t.slots)) [
              | inl e'' ↦ inr (
                rw (e, intern, free_full t' e' e'', free_full t' e' e''),
                rw (e, intern, free_full t' e' e''),
              )
              | inr ((i, ms), e'') ↦ elim (oldest_unpinned t.slots 0 none i ms e'') [
                | inl bad ↦ absurd (ground arith)
                | inr (k, a, s, g, p) ↦
                    let same : i ≡ k = omega (arith, s) in
                    let g' : get_elem? t.slots i ≡ some a = rw same g in
                    inl (record {
                      place = i;
                      old = a;
                      new = λ s. record (occupied id (evicted s)) { last_ms = now_ms };
                      there = g';
                      slots =
                          rw (e, intern, free_evict t' i ms e' e'', free_evict t' i ms e' e'')
                            (modify-modify (modify t.slots i evicted) i _ _
                              ∙ modify-modify t.slots i _ _);
                      ref = rw (
                        e,
                        intern,
                        free_evict t' i ms e' e'',
                        free_evict t' i ms e' e'',
                        get_or-modify (modify t.slots i evicted) i (occupied id)
                            (get_elem?-modify_self t.slots i evicted g'),
                      );
                      used = refl;
                      named = refl;
                      was = inr (absent, inr (p, refl));
                    })
              ]
            ]
          ]
    ]
