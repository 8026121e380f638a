-- ===== src/Prelude/Owned.antt =====
-- Tables of slots, each in use or not, in which the slots in use hold different byte strings as
-- keys: the slot that a key has after a write.
use Prim.Native.Nat.{ℕ}
use mathlib.Core.Path.{◌≡◌, sym, ap, ◌∙◌}
use mathlib.Core.Logic.{◌≢◌, ◌⊎◌, inl, inr}
use mathlib.Core.Bool.{Bool, true, false, ◌&&◌, false≢true}
use mathlib.Core.List.{List}
use mathlib.Core.Option.{none, some}
use agnostic_lora_net.Prelude.Tests.{Bool-cases, &&_true}
use agnostic_lora_net.Prelude.Lists.{get_elem?}
use agnostic_lora_net.Prelude.Memory.{bytes_eq, bytes_eq→eq, bytes_eq_refl}
use agnostic_lora_net.Prelude.Slots.{
  find, modify, modify_cases, get_elem?-modify_self, get_elem?_unique, Apart, Apart-modify,
}
use agnostic_lora_net.Prelude.Keyed.{false_of, find_unique, find_absent, find-modify_other}

module _ {ℓ} {A : Type ℓ} (used : A → Bool) (key : A → List ℕ) where
  abbrev pub has_key : List ℕ → A → Bool
  has_key k a = used a && bytes_eq (key a) k

  abbrev pub OwnKeys : List A → Type ℓ
  OwnKeys xs = Apart (λ (a b : A). used a ≡ true → used b ≡ true → key a ≢ key b) xs

  abbrev pub Lacks : List ℕ → List A → Type ℓ
  Lacks k xs = (j : ℕ) (b : A) → get_elem? xs j ≡ some b → (used b && bytes_eq (key b) k) ≡ false

  pub has_key→key : (k : List ℕ) (a : A) → has_key k a ≡ true → (used a ≡ true) × (key a ≡ k)
  has_key→key k a h = ((&&_true {a = used a} h).0, bytes_eq→eq (key a) k (&&_true {a = used a} h).1)

  pub has_key-true : (k : List ℕ) (a : A) → used a ≡ true → key a ≡ k → has_key k a ≡ true
  has_key-true k a u s = rw (u, s) (bytes_eq_refl k)

  -- A key is found at the one place that has it.
  pub find-OwnKeys :
      (xs : List A) (i : ℕ) (k : List ℕ) {a : A}
      → OwnKeys xs
      → get_elem? xs i ≡ some a
      → has_key k a ≡ true
      → find (has_key k) xs ≡ some a
  find-OwnKeys xs i k {a} v g h = find_unique (has_key k) xs i g h (λ j b gb ne.
      false_of (has_key k b) (λ t.
        let (uo, io) = has_key→key k a h in
        let (ub, ib) = has_key→key k b t in v i j a b g gb ne uo ub (io ∙ sym ib)))

  module _ (xs : List A) (i : ℕ) (f : A → A) (k : List ℕ) {old : A} (v : OwnKeys xs)
      (there : get_elem? xs i ≡ some old) (was : (has_key k old ≡ true) ⊎ Lacks k xs) where
    -- What a write puts at a place is a key that no other place holds.
    pub modify-OwnKeys : (used (f old) ≡ true → key (f old) ≡ k) → OwnKeys (modify xs i f)
    modify-OwnKeys named =
        Apart-modify (λ (a b : A). used a ≡ true → used b ≡ true → key a ≢ key b) xs i f v
          (λ j a b ga gb d.
            let same : old ≡ a = get_elem?_unique there ga in
            let clash : used (f old) ≡ true → used b ≡ true → key (f old) ≡ key b → ⊥ = λ u u' e.
              elim was [
                | inl h ↦
                    let (uo, io) = has_key→key k old h in
                    v i j old b there gb d uo u' (io ∙ (sym (named u) ∙ e))
                | inr absent ↦
                    false≢true (sym (absent j b gb) ∙ has_key-true k b u' (sym e ∙ named u))
              ] in
            (
              λ u u' e. clash (ap (λ z. used (f z)) same ∙ u) u' (ap (λ z. key (f z)) same ∙ e),
              λ u' u e. clash (ap (λ z. used (f z)) same ∙ u) u' (ap (λ z. key (f z)) same ∙ sym e),
            ))

    -- That key is then found with what was written,
    pub find-modify_own :
        used (f old) ≡ true → key (f old) ≡ k → find (has_key k) (modify xs i f) ≡ some (f old)
    find-modify_own u s =
        find-OwnKeys (modify xs i f) i k (modify-OwnKeys (λ _. s))
          (get_elem?-modify_self xs i f there) (has_key-true k (f old) u s)

    -- and another key as before, unless it was that of the place.
    pub find-modify_others :
        (k' : List ℕ)
        → k' ≢ k
        → key (f old) ≡ k
        → (find (has_key k') (modify xs i f) ≡ find (has_key k') xs)
          ⊎ ((find (has_key k') (modify xs i f) ≡ none) × (has_key k' old ≡ true))
    find-modify_others k' ne s =
        let off : has_key k' (f old) ≡ false =
          false_of (has_key k' (f old)) (λ t. ne (sym (has_key→key k' (f old) t).1 ∙ s)) in
        elim (Bool-cases (has_key k' old)) [
          | inr no' ↦ inl (find-modify_other (has_key k') xs i f there no' off)
          | inl t ↦ inr (
            find_absent (has_key k') (modify xs i f) (λ j b g. elim (modify_cases xs i j f g) [
              | inl (a, _, ga, e) ↦ rw (e, get_elem?_unique ga there) off
              | inr (differ, g') ↦ false_of (has_key k' b) (λ h.
                  let (uo, io) = has_key→key k' old t in
                  let (ub, ib) = has_key→key k' b h in
                  v i j old b there g' differ uo ub (io ∙ sym ib))
            ]),
            t,
          )
        ]
