-- ===== src/Prelude/Slots.antt =====
-- Fixed arrays of slots, as the tables of the mesh keep them: the search for the first slot that
-- passes a test, writes to one slot, and relations that hold between any two slots.
use Prim.Native.Nat.{ℕ, zero, suc, ◌+◌, ◌≤◌, ◌<◌}
use mathlib.Core.Path.{◌≡◌, refl, sym, ap, subst, ◌∙◌}
use mathlib.Core.Logic.{◌≢◌, ◌⊎◌, inl, inr}
use mathlib.Core.Bool.{Bool, true, false, false≢true}
use mathlib.Core.List.{List, [], ◌∷◌, ◌++◌, map}
use mathlib.Core.Option
use mathlib.Core.Option.{Option, none, some}
use native.Mathlib.Omega.{arith}
use native.Mathlib.Decide.{ℕ_discrete}
use agnostic_lora_net.Prelude.Tests.{if◌then◌else◌, Bool-cases, Option-cases}
use agnostic_lora_net.Prelude.Lists.{length, get_elem?, get_or, set, take, replicate}

module _ {ℓ} {A : Type ℓ} where
  -- `for (i = 0; i < N; i++) if (test(slots[i])) return i;`, `none` for the `-1` or the null pointer.
  unfoldable pub find_index : (A → Bool) → List A → Option ℕ
  find_index p [] = none
  find_index p (x ∷ xs) = if p x then some 0 else Option.map suc (find_index p xs)

  -- The same search, returning the slot.
  unfoldable pub find : (A → Bool) → List A → Option A
  find p [] = none
  find p (x ∷ xs) = if p x then some x else find p xs

  unfoldable pub any : (A → Bool) → List A → Bool
  any p [] = false
  any p (x ∷ xs) = if p x then true else any p xs

  -- The same search again, for a pointer that is both read and written: the place and the slot.
  unfoldable pub find_slot : (A → Bool) → List A → Option (ℕ × A)
  find_slot p [] = none
  find_slot p (x ∷ xs) =
      if p x then some (0, x) else Option.map (λ s. (suc s.0, s.1)) (find_slot p xs)

  -- `for (...) if (test(slots[i])) c++;`
  unfoldable pub count : (A → Bool) → List A → ℕ
  count p [] = 0
  count p (x ∷ xs) = if p x then suc (count p xs) else count p xs

  -- Writes through the pointer to slot `i`.
  abbrev pub modify : List A → ℕ → (A → A) → List A
  modify [] i f = []
  modify (x ∷ xs) zero f = f x ∷ xs
  modify (x ∷ xs) (suc i) f = x ∷ modify xs i f

  pub find_index-some :
      (p : A → Bool) (xs : List A) (i : ℕ)
      → find_index p xs ≡ some i
      → (a : A) × (get_elem? xs i ≡ some a) × (p a ≡ true)
  unfolding find_index
  find_index-some p [] i e = absurd (ground arith)
  find_index-some p (x ∷ xs) zero e = elim (Bool-cases (p x)) [
    | inl t ↦ (x, refl, t)
    | inr f ↦ absurd (ground arith)
  ]
  find_index-some p (x ∷ xs) (suc i) e = elim (Bool-cases (p x)) [
    | inl t ↦ absurd (ground arith)
    | inr f ↦ find_index-some p xs i (ground arith)
  ]

  pub find_index-none :
      (p : A → Bool) (xs : List A) (i : ℕ) {a : A}
      → find_index p xs ≡ none
      → get_elem? xs i ≡ some a
      → p a ≡ false
  unfolding find_index
  find_index-none p [] i e g = absurd (ground arith)
  find_index-none p (x ∷ xs) zero e g = ground arith
  find_index-none p (x ∷ xs) (suc i) e g = find_index-none p xs i (ground arith) g

  pub find_index_total :
      (p : A → Bool) (xs : List A) (i : ℕ) {a : A}
      → get_elem? xs i ≡ some a
      → p a ≡ true
      → (j : ℕ) × (find_index p xs ≡ some j)
  find_index_total p xs i g t = elim (Option-cases (find_index p xs)) [
    | inl e ↦ absurd (ground (arith, find_index-none p xs i e g))
    | inr s ↦ s
  ]

  pub get_elem?-modify_self :
      (xs : List A) (i : ℕ) (f : A → A) {a : A}
      → get_elem? xs i ≡ some a
      → get_elem? (modify xs i f) i ≡ some (f a)
  get_elem?-modify_self [] i f e = absurd (ground arith)
  get_elem?-modify_self (x ∷ xs) zero f e = ground arith
  get_elem?-modify_self (x ∷ xs) (suc i) f e = get_elem?-modify_self xs i f e

  pub get_elem?-modify_ne :
      (xs : List A) (i j : ℕ) (f : A → A) → i ≢ j → get_elem? (modify xs i f) j ≡ get_elem? xs j
  get_elem?-modify_ne [] i j f h = refl
  get_elem?-modify_ne (x ∷ xs) zero zero f h = absurd (h refl)
  get_elem?-modify_ne (x ∷ xs) zero (suc j) f h = refl
  get_elem?-modify_ne (x ∷ xs) (suc i) zero f h = refl
  get_elem?-modify_ne (x ∷ xs) (suc i) (suc j) f h =
      get_elem?-modify_ne xs i j f (λ e. h (ap suc e))

  pub length-modify : (xs : List A) (i : ℕ) (f : A → A) → length (modify xs i f) ≡ length xs
  length-modify [] i f = refl
  length-modify (x ∷ xs) zero f = refl
  length-modify (x ∷ xs) (suc i) f = ap suc (length-modify xs i f)

  -- What stands in slot `j` after a write to slot `i`.
  pub modify_cases :
      (xs : List A) (i j : ℕ) (f : A → A) {b : A}
      → get_elem? (modify xs i f) j ≡ some b
      → ((a : A) × (i ≡ j) × (get_elem? xs i ≡ some a) × (b ≡ f a))
        ⊎ ((i ≢ j) × (get_elem? xs j ≡ some b))
  modify_cases [] i j f e = absurd (ground arith)
  modify_cases (x ∷ xs) zero zero f e = inl (x, refl, refl, ground arith)
  modify_cases (x ∷ xs) zero (suc j) f e = inr (omega arith, e)
  modify_cases (x ∷ xs) (suc i) zero f e = inr (omega arith, e)
  modify_cases (x ∷ xs) (suc i) (suc j) f e = elim (modify_cases xs i j f e) [
    | inl (a, s, g, h) ↦ inl (a, ap suc s, g, h)
    | inr (d, g) ↦ inr (omega arith, g)
  ]

  -- A relation holds between any two slots at different places.
  abbrev pub Apart {κ} : (A → A → Type κ) → List A → Type (ℓ ⊔ κ)
  Apart R xs =
      (i j : ℕ) (a b : A) → get_elem? xs i ≡ some a → get_elem? xs j ≡ some b → i ≢ j → R a b

  pub any-false :
      (p : A → Bool) (xs : List A) (j : ℕ) {b : A}
      → any p xs ≡ false
      → get_elem? xs j ≡ some b
      → p b ≡ false
  unfolding any
  any-false p [] j e g = absurd (ground arith)
  any-false p (x ∷ xs) zero e g = ground arith
  any-false p (x ∷ xs) (suc j) e g = any-false p xs j (ground arith) g

  pub any-append :
      (p : A → Bool) (xs ys : List A) → any p (xs ++ ys) ≡ (if any p xs then true else any p ys)
  unfolding any
  any-append p [] ys = refl
  any-append p (x ∷ xs) ys = ground (arith, any-append p xs ys)

  pub any-take : (p : A → Bool) (n : ℕ) (xs : List A) → any p xs ≡ false → any p (take n xs) ≡ false
  unfolding any
  any-take p zero xs h = refl
  any-take p (suc n) [] h = refl
  any-take p (suc n) (x ∷ xs) h = ground (arith, any-take p n xs)

  pub any-set :
      (p : A → Bool) (xs : List A) (i : ℕ) (v : A)
      → any p xs ≡ false
      → p v ≡ false
      → any p (set xs i v) ≡ false
  unfolding any
  any-set p [] i v h k = refl
  any-set p (x ∷ xs) zero v h k = ground arith
  any-set p (x ∷ xs) (suc i) v h k = ground (arith, any-set p xs i v)

  pub any-get_or :
      (p : A → Bool) (xs : List A) (k : ℕ) (d : A)
      → any p xs ≡ false
      → k < length xs
      → p (get_or xs k d) ≡ false
  unfolding any
  any-get_or p [] k d h lt = elim lt [ ]
  any-get_or p (x ∷ xs) zero d h lt = ground arith
  any-get_or p (x ∷ xs) (suc k) d h lt = any-get_or p xs k d (ground arith) (omega arith)

  -- Every slot satisfies a predicate.
  abbrev pub Every {κ} : (A → Type κ) → List A → Type (ℓ ⊔ κ)
  Every P xs = (i : ℕ) (a : A) → get_elem? xs i ≡ some a → P a

module _ {ℓ} {A : Type ℓ} where
  pub get_elem?_unique : {o : Option A} {a b : A} → o ≡ some a → o ≡ some b → a ≡ b
  get_elem?_unique h k = cc

  pub Every-cons {κ} : (P : A → Type κ) (x : A) (xs : List A) → P x → Every P xs → Every P (x ∷ xs)
  Every-cons P x xs h k zero a g = let s : x ≡ a = ground arith in subst P s h
  Every-cons P x xs h k (suc i) a g = k i a g

  pub Every-modify {κ} :
      (P : A → Type κ) (xs : List A) (i : ℕ) (f : A → A)
      → Every P xs
      → ((a : A) → get_elem? xs i ≡ some a → P a → P (f a))
      → Every P (modify xs i f)
  Every-modify P xs i f h k j b e = elim (modify_cases xs i j f e) [
    | inl (a, s, g, r) ↦ subst P (sym r) (k a g (h i a g))
    | inr (d, g) ↦ h j b g
  ]

  pub Apart-modify {κ} :
      (R : A → A → Type κ) (xs : List A) (i : ℕ) (f : A → A)
      → Apart R xs
      → ((j : ℕ) (a b : A)
          → get_elem? xs i ≡ some a
          → get_elem? xs j ≡ some b
          → i ≢ j
          → R (f a) b × R b (f a))
      → Apart R (modify xs i f)
  Apart-modify R xs i f h k m n a b ea eb d =
      split (modify_cases xs i m f ea) (modify_cases xs i n f eb)
    where
      split :
          ((c : A) × (i ≡ m) × (get_elem? xs i ≡ some c) × (a ≡ f c))
            ⊎ ((i ≢ m) × (get_elem? xs m ≡ some a))
          → ((c : A) × (i ≡ n) × (get_elem? xs i ≡ some c) × (b ≡ f c))
            ⊎ ((i ≢ n) × (get_elem? xs n ≡ some b))
          → R a b
      split (inl (c, s, g, r)) (inl (c', s', g', r')) = absurd (d (sym s ∙ s'))
      split (inl (c, s, g, r)) (inr (d', g')) = subst (λ z. R z b) (sym r) (k n c b g g' d').0
      split (inr (d', g')) (inl (c, s, g, r)) = subst (λ z. R a z) (sym r) (k m c a g g' d').1
      split (inr (d', g)) (inr (d'', g')) = h m n a b g g' d

  pub get_elem?-map {κ} :
      {B : Type κ} (f : A → B) (xs : List A) (i : ℕ) {b : B}
      → get_elem? (map f xs) i ≡ some b
      → (a : A) × (get_elem? xs i ≡ some a) × (b ≡ f a)
  get_elem?-map f [] i e = absurd (ground arith)
  get_elem?-map f (x ∷ xs) zero e = (x, refl, ground arith)
  get_elem?-map f (x ∷ xs) (suc i) e = get_elem?-map f xs i e

  pub get_elem?-map' :
      (f : A → A) (xs : List A) (i : ℕ) {a : A}
      → get_elem? xs i ≡ some a
      → get_elem? (map f xs) i ≡ some (f a)
  get_elem?-map' f [] i e = absurd (ground arith)
  get_elem?-map' f (x ∷ xs) zero e = ground arith
  get_elem?-map' f (x ∷ xs) (suc i) e = get_elem?-map' f xs i e

  pub Every-map {κ} :
      (P : A → Type κ) (xs : List A) (f : A → A)
      → Every P xs
      → ((a : A) → P a → P (f a))
      → Every P (map f xs)
  Every-map P xs f h k j b e =
      let (a, g, r) = get_elem?-map f xs j e in subst P (sym r) (k a (h j a g))

  pub Apart-map {κ} :
      (R : A → A → Type κ) (xs : List A) (f : A → A)
      → Apart R xs
      → ((a b : A) → R a b → R (f a) (f b))
      → Apart R (map f xs)
  Apart-map R xs f h k i j a b ea eb d =
      let (a', ga, ra) = get_elem?-map f xs i ea in
      let (b', gb, rb) = get_elem?-map f xs j eb in
      subst (λ z. R z b) (sym ra) (subst (λ z. R (f a') z) (sym rb) (k a' b' (h i j a' b' ga gb d)))

  pub Every-replicate {κ} : (P : A → Type κ) (n : ℕ) (v : A) → P v → Every P (replicate n v)
  Every-replicate P zero v h i a e = absurd (ground arith)
  Every-replicate P (suc n) v h zero a e = let s : v ≡ a = ground arith in subst P s h
  Every-replicate P (suc n) v h (suc i) a e = Every-replicate P n v h i a e

  -- If only one slot passes the test, the search finds it.
  pub find_index_unique :
      (p : A → Bool) (xs : List A) (i : ℕ) {a : A}
      → get_elem? xs i ≡ some a
      → p a ≡ true
      → ((j : ℕ) (b : A) → get_elem? xs j ≡ some b → i ≢ j → p b ≡ false)
      → find_index p xs ≡ some i
  find_index_unique p xs i g t h = go (find_index_total p xs i g t)
    where
      go : (j : ℕ) × (find_index p xs ≡ some j) → find_index p xs ≡ some i
      go (j, e) = elim (ℕ_discrete i j) [
        | yes s ↦ rw s e
        | no d ↦
            let (b, gb, tb) = find_index-some p xs j e in
            absurd (false≢true (sym (h j b gb d) ∙ tb))
      ]

  -- If none passes, it finds none.
  pub find_index_absent :
      (p : A → Bool) (xs : List A)
      → ((j : ℕ) (b : A) → get_elem? xs j ≡ some b → p b ≡ false)
      → find_index p xs ≡ none
  find_index_absent p xs h = go (Option-cases (find_index p xs))
    where
      go :
          (find_index p xs ≡ none) ⊎ ((j : ℕ) × (find_index p xs ≡ some j)) → find_index p xs ≡ none
      go (inl e) = e
      go (inr (j, e)) =
          let (b, gb, tb) = find_index-some p xs j e in absurd (false≢true (sym (h j b gb) ∙ tb))

  -- The slot that `find` returns is the one at the place that `find_index` returns.
  pub find-find_index :
      (p : A → Bool) (xs : List A)
      → ((find p xs ≡ none) × (find_index p xs ≡ none))
        ⊎ ((i : ℕ) × (a : A) × (find p xs ≡ some a)
            × (find_index p xs ≡ some i)
            × (get_elem? xs i ≡ some a)
            × (p a ≡ true))
  unfolding find find_index
  find-find_index p [] = inl (refl, refl)
  find-find_index p (x ∷ xs) = elim (Bool-cases (p x)) [
    | inl t ↦ inr (0, x, rw t, rw t, refl, t)
    | inr f ↦ elim (find-find_index p xs) [
      | inl (e, e') ↦ inl (rw f e, rw (f, e'))
      | inr (i, a, e, e', g, t) ↦ inr (suc i, a, rw f e, rw (f, e'), g, t)
    ]
  ]

  -- Turning one passing slot off takes one from the count, turning one on adds one.
  pub count-modify_off :
      (p : A → Bool) (xs : List A) (i : ℕ) (f : A → A) {a : A}
      → get_elem? xs i ≡ some a
      → p a ≡ true
      → p (f a) ≡ false
      → count p (modify xs i f) + 1 ≡ count p xs
  unfolding count
  count-modify_off p [] i f e t u = absurd (ground arith)
  count-modify_off p (x ∷ xs) zero f e t u = ground arith
  count-modify_off p (x ∷ xs) (suc i) f e t u = ground (arith, count-modify_off p xs i f e t u)

  pub count-modify_on :
      (p : A → Bool) (xs : List A) (i : ℕ) (f : A → A) {a : A}
      → get_elem? xs i ≡ some a
      → p a ≡ false
      → p (f a) ≡ true
      → count p (modify xs i f) ≡ count p xs + 1
  unfolding count
  count-modify_on p [] i f e t u = absurd (ground arith)
  count-modify_on p (x ∷ xs) zero f e t u = ground arith
  count-modify_on p (x ∷ xs) (suc i) f e t u = ground (arith, count-modify_on p xs i f e t u)

  pub count-le-length : (p : A → Bool) (xs : List A) → count p xs ≤ length xs
  unfolding count
  count-le-length p [] = omega arith
  count-le-length p (x ∷ xs) = ground (arith, count-le-length p xs)
