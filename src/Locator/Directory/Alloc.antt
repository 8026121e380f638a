-- ===== src/Locator/Directory/Alloc.antt =====
-- The entry that a new binding takes in a directory: a free one before an expired one, and an
-- expired one before the one that was not used for the longest time.
use agnostic_lora_net.Prelude.{
  ℕ, suc, ◌+◌, ◌≤◌, ◌≡◌, ◌⊎◌, refl, inl, inr, true, false, List, [], ◌∷◌, Option, none, some, ltb,
  length, get_elem?, Bool-cases, arith, Every, Every-cons,
}
use agnostic_lora_net.Locator.Directory.{Entry, expired, older, alloc_loop, alloc_slot, loc_dir_cap}

abbrev IsUsed : Entry → Type 0
IsUsed e = e.used ≡ true

abbrev IsLive : ℕ → Entry → Type 0
IsLive now_ms e = expired now_ms e ≡ false

-- Why entry `i` is given to a new binding.
pub record Victim (now_ms : ℕ) (es : List Entry) (i : ℕ) : Type 0 where
  pub entry : Entry
  pub there : get_elem? es i ≡ some entry
  pub why :
      (entry.used ≡ false)
      ⊎ (Every (λ (e : Entry). e.used ≡ true) es
          × ((expired now_ms entry ≡ true)
              ⊎ (Every (λ (e : Entry). expired now_ms e ≡ false) es
                  × Every (λ (e : Entry). entry.touched ≤ e.touched) es)))

-- The least recently used entry after all of `es`.
unfoldable least : ℕ → Option (ℕ × ℕ) → List Entry → Option (ℕ × ℕ)
least i lru [] = lru
least i lru (e ∷ es) = least (i + 1) (older i e lru) es

least_lem :
    (i : ℕ) (lru : Option (ℕ × ℕ)) (es : List Entry) (k s : ℕ)
    → least i lru es ≡ some (k, s)
    → ((lru ≡ some (k, s))
        ⊎ ((m : ℕ) × (a : Entry) × (k ≡ i + m) × (get_elem? es m ≡ some a) × (s ≡ a.touched)))
      × Every (λ (e : Entry). s ≤ e.touched) es
      × ((j s' : ℕ) → lru ≡ some (j, s') → s ≤ s')
unfolding least
least_lem i lru [] k s h = (
  inl h,
  λ m a g. absurd (ground arith),
  λ j s' g. let same : s ≡ s' = ground arith in omega (arith, same),
)
least_lem i none (e ∷ es) k s h =
    let (from, low, before) = least_lem (i + 1) (some (i, e.touched)) es k s h in
    let le = before i e.touched refl in
    (
      elim from [
        | inl same ↦ inr (0, e, ground arith, refl, ground arith)
        | inr (m, a, at, g, t) ↦ inr (suc m, a, omega (arith, at), g, t)
      ],
      Every-cons (λ e. s ≤ e.touched) e es le low,
      λ j s' g. absurd (ground arith),
    )
least_lem i (some (j, stamp)) (e ∷ es) k s h = elim (Bool-cases (ltb e.touched stamp)) [
  | inl b ↦
      let (from, low, before) = least_lem (i + 1) (some (i, e.touched)) es k s (rw b at h) in
      let le = before i e.touched refl in
      (
        elim from [
          | inl same ↦ inr (0, e, ground arith, refl, ground arith)
          | inr (m, a, at, g, t) ↦ inr (suc m, a, omega (arith, at), g, t)
        ],
        Every-cons (λ e. s ≤ e.touched) e es le low,
        λ j' s' g. let same : stamp ≡ s' = ground arith in ground arith,
      )
  | inr b ↦
      let (from, low, before) = least_lem (i + 1) (some (j, stamp)) es k s (rw b at h) in
      let le = before j stamp refl in
      (
        elim from [
          | inl same ↦ inl same
          | inr (m, a, at, g, t) ↦ inr (suc m, a, omega (arith, at), g, t)
        ],
        Every-cons (λ e. s ≤ e.touched) e es (ground arith) low,
        λ j' s' g. let same : stamp ≡ s' = ground arith in omega (arith, le, same),
      )
]

data Found (now_ms i : ℕ) (dead : Option ℕ) (lru : Option (ℕ × ℕ)) (es : List Entry) (k : ℕ)
    : Type 0 where
  free :
      (m : ℕ) (a : Entry)
      → k ≡ i + m
      → get_elem? es m ≡ some a
      → a.used ≡ false
      → Found now_ms i dead lru es k
  stale :
      (m : ℕ) (a : Entry)
      → k ≡ i + m
      → get_elem? es m ≡ some a
      → Every IsUsed es
      → expired now_ms a ≡ true
      → Found now_ms i dead lru es k
  stale_before : Every IsUsed es → dead ≡ some k → Found now_ms i dead lru es k
  aged :
      (s : ℕ)
      → Every IsUsed es
      → dead ≡ none
      → Every (IsLive now_ms) es
      → least i lru es ≡ some (k, s)
      → Found now_ms i dead lru es k

alloc_loop-Found :
    (now_ms i : ℕ) (dead : Option ℕ) (lru : Option (ℕ × ℕ)) (es : List Entry) (k : ℕ)
    → alloc_loop now_ms i dead lru es ≡ some k
    → Found now_ms i dead lru es k
unfolding alloc_loop least
alloc_loop-Found now_ms i (some j) lru [] k h = stale_before (λ m a g. absurd (ground arith)) h
alloc_loop-Found now_ms i none none [] k h = absurd (ground arith)
alloc_loop-Found now_ms i none (some (j, s)) [] k h =
    aged s (λ m a g. absurd (ground arith)) refl (λ m a g. absurd (ground arith)) (ground arith)
alloc_loop-Found now_ms i dead lru (e ∷ es) k h = elim (Bool-cases e.used) [
  | inr f ↦ free 0 e (ground arith) refl f
  | inl t ↦ elim (Bool-cases (expired now_ms e)) [
    | inl x ↦
        old t x (alloc_loop-Found now_ms (i + 1) (some i) (older i e lru) es k (rw (t, x) at h))
    | inr x ↦ young t x (alloc_loop-Found now_ms (i + 1) dead (older i e lru) es k (rw (t, x) at h))
  ]
]
  where
    old :
        e.used ≡ true
        → expired now_ms e ≡ true
        → Found now_ms (i + 1) (some i) (older i e lru) es k
        → Found now_ms i dead lru (e ∷ es) k
    old t x (free m a at g u) = free (suc m) a (omega (arith, at)) g u
    old t x (stale m a at g us b) =
        stale (suc m) a (omega (arith, at)) g (Every-cons IsUsed e es t us) b
    old t x (stale_before us s) = stale 0 e (ground arith) refl (Every-cons IsUsed e es t us) x
    old t x (aged s us n ls l) = absurd (ground arith)

    young :
        e.used ≡ true
        → expired now_ms e ≡ false
        → Found now_ms (i + 1) dead (older i e lru) es k
        → Found now_ms i dead lru (e ∷ es) k
    young t x (free m a at g u) = free (suc m) a (omega (arith, at)) g u
    young t x (stale m a at g us b) =
        stale (suc m) a (omega (arith, at)) g (Every-cons IsUsed e es t us) b
    young t x (stale_before us s) = stale_before (Every-cons IsUsed e es t us) s
    young t x (aged s us n ls l) =
        aged s (Every-cons IsUsed e es t us) n (Every-cons (IsLive now_ms) e es x ls) l

alloc_loop_total :
    (now_ms i : ℕ) (dead : Option ℕ) (l : ℕ × ℕ) (es : List Entry)
    → (k : ℕ) × (alloc_loop now_ms i dead (some l) es ≡ some k)
unfolding alloc_loop
alloc_loop_total now_ms i (some j) l [] = (j, refl)
alloc_loop_total now_ms i none l [] = (l.0, refl)
alloc_loop_total now_ms i dead l (e ∷ es) = elim (Bool-cases e.used) [
  | inr f ↦ (i, rw f)
  | inl t ↦ elim (Bool-cases (ltb e.touched l.1)) [
    | inl b ↦ rw (t, b) (alloc_loop_total now_ms (i + 1) _ _ es)
    | inr b ↦ rw (t, b) (alloc_loop_total now_ms (i + 1) _ _ es)
  ]
]

Found-Victim :
    (now_ms : ℕ) (es : List Entry) (k : ℕ) → Found now_ms 0 none none es k → Victim now_ms es k
Found-Victim now_ms es k (free m a at g u) =
    let s : k ≡ m = omega (arith, at) in record { entry = a; there = rw s g; why = inl u }
Found-Victim now_ms es k (stale m a at g us x) =
    let s : k ≡ m = omega (arith, at) in record { entry = a; there = rw s g; why = inr (us, inl x) }
Found-Victim now_ms es k (stale_before us s) = absurd (ground arith)
Found-Victim now_ms es k (aged s us n ls l) = elim (least_lem 0 none es k s l).0 [
  | inl e ↦ absurd (ground arith)
  | inr (m, a, at, g, t) ↦
      let same : k ≡ m = omega (arith, at) in
      let low = (least_lem 0 none es k s l).1 in
      record {
        entry = a;
        there = rw same g;
        why = inr (us, inr (ls, λ j b g'. let le = low j b g' in omega (arith, le, t)));
      }
]

-- A directory of 32 entries always has one for a new binding: one that is free, or, when all are
-- taken, one that has expired, or, when all are live, one that no other was used before.
pub alloc_slot-Victim :
    (now_ms : ℕ) (es : List Entry)
    → length es ≡ loc_dir_cap
    → (i : ℕ) × (alloc_slot now_ms es ≡ some i) × Victim now_ms es i
unfolding alloc_loop
alloc_slot-Victim now_ms [] h = absurd (omega (arith, h))
alloc_slot-Victim now_ms (e ∷ es) h =
    let (k, s) = found in
    (k, s, Found-Victim now_ms (e ∷ es) k (alloc_loop-Found now_ms 0 none none (e ∷ es) k s))
  where
    found : (k : ℕ) × (alloc_slot now_ms (e ∷ es) ≡ some k)
    found = elim (Bool-cases e.used) [
      | inr f ↦ (0, rw f)
      | inl t ↦ rw t (alloc_loop_total now_ms 1 _ (0, e.touched) es)
    ]
