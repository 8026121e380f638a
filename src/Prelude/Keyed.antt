-- ===== src/Prelude/Keyed.antt =====
-- Searches in a table of slots in which at most one slot answers, after a write.
use Prim.Native.Nat.{ℕ, zero, suc}
use mathlib.Core.Path.{◌≡◌, refl, sym, ap, ◌∙◌}
use mathlib.Core.Logic.{◌≢◌, ◌⊎◌, inl, inr}
use mathlib.Core.Bool.{Bool, true, false, false≢true}
use mathlib.Core.List.{List, [], ◌∷◌, map}
use mathlib.Core.Option.{none, some}
use native.Mathlib.Omega.{arith}
use native.Mathlib.Decide.{ℕ_discrete}
use agnostic_lora_net.Prelude.Tests.{if◌then◌else◌, Bool-cases}
use agnostic_lora_net.Prelude.Lists.{get_elem?}
use agnostic_lora_net.Prelude.Slots.{
  find, find_slot, find_index, modify, Apart, find-find_index, find_index-none, find_index_unique,
  modify_cases, get_elem?-modify_self, get_elem?-map, get_elem?-map', get_elem?_unique,
}

pub false_of : (b : Bool) → (b ≡ true → ⊥) → b ≡ false
false_of true h = absurd (h refl)
false_of false h = refl

module _ {ℓ} {A : Type ℓ} (p : A → Bool) where
  -- What a search returns: nothing, and no slot answers; or the place of a slot that does.
  pub find_slot_cases :
      (xs : List A)
      → ((find_slot p xs ≡ none)
          × (find p xs ≡ none)
          × ((j : ℕ) (b : A) → get_elem? xs j ≡ some b → p b ≡ false))
        ⊎ ((i : ℕ) × (a : A) × (find_slot p xs ≡ some (i, a))
            × (find p xs ≡ some a)
            × (get_elem? xs i ≡ some a)
            × (p a ≡ true))
  unfolding find find_slot
  find_slot_cases [] = inl (refl, refl, λ j b g. absurd (ground arith))
  find_slot_cases (x ∷ xs) = elim (Bool-cases (p x)) [
    | inl t ↦ inr (0, x, rw t, rw t, refl, t)
    | inr f ↦ elim (find_slot_cases xs) [
      | inl (e, e', h) ↦ inl (rw (f, e), rw f e', later f h)
      | inr (i, a, e, e', g, t) ↦ inr (suc i, a, rw (f, e), rw f e', g, t)
    ]
  ]
    where
      later :
          p x ≡ false
          → ((j : ℕ) (b : A) → get_elem? xs j ≡ some b → p b ≡ false)
          → (j : ℕ) (b : A) → get_elem? (x ∷ xs) j ≡ some b
          → p b ≡ false
      later f h zero b g = ground arith
      later f h (suc j) b g = h j b g

  pub find_absent :
      (xs : List A) → ((j : ℕ) (b : A) → get_elem? xs j ≡ some b → p b ≡ false) → find p xs ≡ none
  find_absent xs h = elim (find-find_index p xs) [
    | inl (e, _) ↦ e
    | inr (i, a, e, e', g, t) ↦ absurd (false≢true (sym (h i a g) ∙ t))
  ]

  pub find_unique :
      (xs : List A) (i : ℕ) {a : A}
      → get_elem? xs i ≡ some a
      → p a ≡ true
      → ((j : ℕ) (b : A) → get_elem? xs j ≡ some b → i ≢ j → p b ≡ false)
      → find p xs ≡ some a
  find_unique xs i {a} g t h = go (find-find_index p xs) (find_index_unique p xs i g t h)
    where
      go :
          ((find p xs ≡ none) × (find_index p xs ≡ none))
            ⊎ ((k : ℕ) × (b : A) × (find p xs ≡ some b)
                × (find_index p xs ≡ some k)
                × (get_elem? xs k ≡ some b)
                × (p b ≡ true))
          → find_index p xs ≡ some i
          → find p xs ≡ some a
      go (inl (e, e')) u = absurd (ground arith)
      go (inr (k, b, e, e', g', t')) u =
          let s : k ≡ i = ground arith in e ∙ sym g' ∙ ap (get_elem? xs) s ∙ g

  -- Writing a slot that does not answer, so that it still does not, changes no answer.
  pub find-modify_other :
      (xs : List A) (i : ℕ) (f : A → A) {a : A}
      → get_elem? xs i ≡ some a
      → p a ≡ false
      → p (f a) ≡ false
      → find p (modify xs i f) ≡ find p xs
  unfolding find
  find-modify_other [] i f g u v = refl
  find-modify_other (x ∷ xs) zero f g u v = ground arith
  find-modify_other (x ∷ xs) (suc i) f g u v = ground (arith, find-modify_other xs i f g u v)

  -- Writing the one slot that is to answer.
  pub find-modify_hit :
      (xs : List A) (i : ℕ) (f : A → A) {a : A}
      → get_elem? xs i ≡ some a
      → p (f a) ≡ true
      → ((j : ℕ) (b : A) → get_elem? xs j ≡ some b → i ≢ j → p b ≡ false)
      → find p (modify xs i f) ≡ some (f a)
  find-modify_hit xs i f g t h =
      find_unique (modify xs i f) i (get_elem?-modify_self xs i f g) t λ j b e d.
        elim (modify_cases xs i j f e) [
          | inl (_, s, _, _) ↦ absurd (d s)
          | inr (_, g') ↦ h j b g' d
        ]

  -- Writing the one slot that answered, so that it does not any more.
  pub find-modify_off :
      (xs : List A) (i : ℕ) (f : A → A) {a : A}
      → get_elem? xs i ≡ some a
      → p (f a) ≡ false
      → ((j : ℕ) (b : A) → get_elem? xs j ≡ some b → i ≢ j → p b ≡ false)
      → find p (modify xs i f) ≡ none
  find-modify_off xs i f {a} g t h = find_absent (modify xs i f) λ j b e.
      elim (modify_cases xs i j f e) [
        | inl (c, s, g', r) ↦ r' (get_elem?_unique g' g) r
        | inr (d, g') ↦ h j b g' d
      ]
    where
      r' : {b c : A} → c ≡ a → b ≡ f c → p b ≡ false
      r' s r = ap p (r ∙ ap f s) ∙ t

  -- A write to every slot, which makes no slot answer that did not.
  pub find-map :
      (xs : List A) (f : A → A)
      → Apart (λ a b. p a ≡ true → p b ≡ true → ⊥) xs
      → ((a : A) → p (f a) ≡ true → p a ≡ true)
      → find p (map f xs)
        ≡ elim (find p xs) [ none ↦ none | some a ↦ if p (f a) then some (f a) else none ]
  find-map xs f u k = elim (find-find_index p xs) [
    | inl (e, e') ↦ rw e (
        find_absent (map f xs) λ j b g.
          let (a, g', r) = get_elem?-map f xs j g in
          false_of (p b) (λ t.
            absurd (false≢true (sym (find_index-none p xs j e' g') ∙ k a (ap p (sym r) ∙ t)))))
    | inr (i, a, e, e', g, t) ↦ rw e (elim (Bool-cases (p (f a))) [
      | inl on ↦ rw on (
          find_unique (map f xs) i (get_elem?-map' f xs i g) on λ j b g' d.
            let (c, g'', r) = get_elem?-map f xs j g' in
            false_of (p b) (λ t'. u i j a c g g'' d t (k c (ap p (sym r) ∙ t'))))
      | inr no' ↦ rw no' (
          find_absent (map f xs) λ j b g'.
            let (c, g'', r) = get_elem?-map f xs j g' in
            elim (ℕ_discrete i j) [
              | yes s ↦ ap p (r ∙ ap f (get_elem?_unique g'' (ap (get_elem? xs) (sym s) ∙ g))) ∙ no'
              | no d ↦ false_of (p b) (λ t'. u i j a c g g'' d t (k c (ap p (sym r) ∙ t')))
            ])
    ])
  ]
