-- ===== src/Neighbors/Alias.antt =====
-- The alias that a new neighbour is given: free, and never one of the reserved values.
use agnostic_lora_net.Prelude.{
  ℕ, zero, suc, ◌+◌, ◌≤◌, ◌<◌, ◌≡◌, ◌⊎◌, refl, inl, inr, Bool, true, false, List, [], ◌∷◌,
  if◌then◌else◌, length, any, Bool-cases, arith, add-one,
}
use agnostic_lora_net.Neighbors.{Neighbor, candidate, has_alias, alloc_loop, alloc_alias}

module _ {F : Type 0} (base : ℕ) where
  taken : List (Neighbor F) → ℕ → Bool
  taken slots k = any (has_alias (candidate base k)) slots

  -- How many of the first `n` candidates are in use.
  in_use : ℕ → List (Neighbor F) → ℕ
  in_use zero slots = 0
  in_use (suc n) slots = in_use n slots + (if taken slots n then 1 else 0)

  -- How many of them one slot has.
  matches : ℕ → Neighbor F → ℕ
  matches zero s = 0
  matches (suc n) s = matches n s + (if has_alias (candidate base n) s then 1 else 0)

  matches-none :
      (n m : ℕ) (s : Neighbor F)
      → n ≤ m
      → m < 254
      → has_alias (candidate base m) s ≡ true
      → matches n s ≡ 0
  unfolding matches
  matches-none zero m s h lt t = refl
  matches-none (suc n) m s h lt t = ground (arith, matches-none n m s (omega arith) lt t)

  matches-le : (n : ℕ) (s : Neighbor F) → n ≤ 254 → matches n s ≤ 1
  unfolding matches
  matches-le zero s h = omega arith
  matches-le (suc n) s h = elim (Bool-cases (has_alias (candidate base n) s)) [
    | inl t ↦ rw t (omega (arith, matches-none n n s (omega arith) (omega arith) t))
    | inr f ↦ rw f (omega (arith, matches-le n s (omega arith)))
  ]

  in_use-cons :
      (n : ℕ) (s : Neighbor F) (slots : List (Neighbor F))
      → in_use n (s ∷ slots) ≤ matches n s + in_use n slots
  unfolding in_use matches taken any
  in_use-cons zero s slots = omega arith
  in_use-cons (suc n) s slots = ground (arith, in_use-cons n s slots)

in_use-nil : (F : Type 0) (base n : ℕ) → in_use {F = F} base n [] ≡ 0
unfolding in_use taken any
in_use-nil F base zero = refl
in_use-nil F base (suc n) = omega (arith, in_use-nil F base n)

module _ {F : Type 0} (base : ℕ) where
  in_use-le : (n : ℕ) (slots : List (Neighbor F)) → n ≤ 254 → in_use base n slots ≤ length slots
  in_use-le n [] h = omega (arith, in_use-nil F base n)
  in_use-le n (s ∷ slots) h =
      omega (arith, in_use-cons base n s slots, matches-le base n s h, in_use-le n slots h)

  in_use_step :
      (k : ℕ) (slots : List (Neighbor F))
      → taken base slots k ≡ true
      → in_use base (k + 1) slots ≡ in_use base k slots + 1
  unfolding in_use
  in_use_step k slots t = rw (add-one, in_use, t)

  -- The loop returns a free candidate, unless every one that it tries is in use.
  alloc_loop_cases :
      (slots : List (Neighbor F)) (n k : ℕ)
      → ((j : ℕ) × (j < k + n)
          × (alloc_loop slots base n k ≡ candidate base j)
          × (taken base slots j ≡ false))
        ⊎ (in_use base (k + n) slots ≡ in_use base k slots + n)
  unfolding alloc_loop taken
  alloc_loop_cases slots zero k = let e : k + 0 ≡ k = omega arith in inr (rw e (omega arith))
  alloc_loop_cases slots (suc n) k = elim (Bool-cases (taken base slots k)) [
    | inr f ↦ inl (k, omega arith, rw f, f)
    | inl t ↦ elim (alloc_loop_cases slots n (k + 1)) [
      | inl (j, lt, e, f) ↦ inl (j, omega arith, rw (t, e), f)
      | inr e ↦
          let a : k + suc n ≡ k + 1 + n = omega arith in
          inr (rw a (omega (arith, e, in_use_step k slots t)))
    ]
  ]

  -- With fewer than 254 slots, whatever aliases they hold, the alias that `alloc_alias` returns is
  -- neither reserved nor in use.
  pub alloc_alias_fresh :
      (slots : List (Neighbor F))
      → length slots < 254
      → (1 ≤ alloc_alias slots base)
        × (alloc_alias slots base ≤ 254)
        × (any (has_alias (alloc_alias slots base)) slots ≡ false)
  unfolding alloc_alias
  alloc_alias_fresh slots few = elim (alloc_loop_cases slots 254 0) [
    | inl (j, lt, e, f) ↦ rw e (omega arith, omega arith, unfold taken in f)
    | inr full ↦ absurd (omega (arith, full, in_use-le 254 slots (omega arith)))
  ]
