-- ===== src/NodeTable/Intern.antt =====
-- Interning an id keeps the table valid.
use agnostic_lora_net.Prelude.{
  ℕ, ◌<◌, ◌≡◌, ◌≢◌, refl, sym, ap, ◌∙◌, subst, inl, inr, true, false, some, length, get_elem?,
  length-modify, bytes_eq_refl, arith, Apart, Every, Apart-modify, Every-modify, Every-replicate,
  replicate, get_elem?_unique,
}
use mathlib.Core.Bool.{false≢true}
use agnostic_lora_net.NodeId.{NodeId}
use agnostic_lora_net.NodeTable.{NodeTable, Slot, node_table_cap, blank, intern, init}
use agnostic_lora_net.NodeTable.Pick.{IsValid, Picks, intern_cases}

-- Two slots in use hold different ids.
abbrev Differ : Slot → Slot → Type 0
Differ a b = a.used ≡ true → b.used ≡ true → a.id ≢ b.id

abbrev HasByte : Slot → Type 0
HasByte s = s.gen < 256

Picks-Differ :
    (t : NodeTable) (id : NodeId) (now_ms : ℕ)
    → IsValid t
    → (p : Picks t id now_ms) (j : ℕ) (b : Slot) → get_elem? t.slots j ≡ some b
    → p.place ≢ j
    → b.used ≡ true
    → id ≢ b.id
Picks-Differ t id now_ms v p j b gb d u e = elim p.was [
  | inl (used, named, _) ↦ v.unique p.place j p.old b p.there gb d used u (named ∙ e)
  | inr (absent, _) ↦ false≢true (sym (absent j b gb) ∙ rw (u, ← e) (bytes_eq_refl id))
]

Picks-HasByte :
    (t : NodeTable) (id : NodeId) (now_ms : ℕ)
    → IsValid t
    → (p : Picks t id now_ms) → HasByte (p.new p.old)
Picks-HasByte t id now_ms v p =
    let small = v.small p.place p.old p.there in
    elim p.was [
      | inl (_, _, same) ↦ omega (arith, small, same)
      | inr (_, inl (_, same)) ↦ omega (arith, small, same)
      | inr (_, inr (_, next)) ↦ omega (arith, next)
    ]

intern-IsValid_at :
    (t : NodeTable) (id : NodeId) (now_ms : ℕ)
    → IsValid t
    → Picks t id now_ms
    → IsValid (intern t id now_ms).0
intern-IsValid_at t id now_ms v p = record {
  whole = ap length p.slots ∙ (length-modify t.slots p.place p.new ∙ v.whole);
  unique = subst (Apart Differ) (sym p.slots) (
      Apart-modify Differ t.slots p.place p.new v.unique (λ j a b ga gb d.
        let same : p.old ≡ a = get_elem?_unique p.there ga in
        let apart = Picks-Differ t id now_ms v p j b gb d in
        (
          λ _ bu e. apart bu (sym p.named ∙ (ap (λ z. (p.new z).id) same ∙ e)),
          λ bu _ e. apart bu (sym (e ∙ (ap (λ z. (p.new z).id) (sym same) ∙ p.named))),
        )));
  small = subst (Every HasByte) (sym p.slots) (
      Every-modify HasByte t.slots p.place p.new v.small (λ a ga h.
        subst (λ z. HasByte (p.new z)) (get_elem?_unique p.there ga)
          (Picks-HasByte t id now_ms v p)));
}

-- Interning an id, known or new, keeps a valid table valid: slots in use hold different ids.
pub intern-IsValid :
    (t : NodeTable) (id : NodeId) (now_ms : ℕ) → IsValid t → IsValid (intern t id now_ms).0
intern-IsValid t id now_ms v = elim (intern_cases t id now_ms) [
  | inl p ↦ intern-IsValid_at t id now_ms v p
  | inr (e, _) ↦ record {
    whole = ap length e ∙ v.whole;
    unique = subst (Apart Differ) (sym e) v.unique;
    small = subst (Every HasByte) (sym e) v.small;
  }
]

pub init-IsValid : IsValid init
init-IsValid = record {
  whole = refl;
  unique = λ i j a b ga gb d u. absurd (false≢true (sym (unused i a ga) ∙ u));
  small = Every-replicate HasByte node_table_cap blank (omega arith);
}
  where
    unused :
        (i : ℕ) (a : Slot) → get_elem? (replicate node_table_cap blank) i ≡ some a → a.used ≡ false
    unused i a g = Every-replicate (λ (s : Slot). s.used ≡ false) node_table_cap blank refl i a g
