-- ===== src/Neighbors/Heard.antt =====
-- Hearing a neighbour: the table stays valid, and a new neighbour is given a free alias.
use agnostic_lora_net.Prelude.{
  ℕ, ◌≤◌, ◌≡◌, ◌⊎◌, refl, sym, ◌∙◌, inl, inr, true, false, not, List, none, some, any, any-false,
  get_elem?, find_slot_cases, find-modify_hit, find-find_index, length-modify, get_elem?-modify_ne,
  false_of, Bool-cases, arith, &&_true, ◌==◌, ==_iff, ==_refl, Every-replicate, replicate,
}
use mathlib.Core.Bool.{false≢true}
use agnostic_lora_net.NodeId.{NodeId, zero_id}
use agnostic_lora_net.Float.{Float}
use agnostic_lora_net.Neighbors.{
  Neighbor, NeighborTable, max_neighbors, is_of, lookup, write, has_alias, alloc_alias, alias_none,
  on_link, neighbor_by_link, no_neighbor, init, sampled, taken_for, enter, heard, set_tx_report,
}
use agnostic_lora_net.Neighbors.Alias.{alloc_alias_fresh}
use agnostic_lora_net.Neighbors.Valid.{
  IsValid, is_of→, →is_of, write-IsValid, rewrite-IsValid, update-IsValid,
}

module _ {F : Type 0} ⦃fl : Float F⦄ where
  open fl use {dec}

  pub set_tx_report-IsValid :
      (t : NeighborTable F) (id : NodeId) (q : F) → IsValid t → IsValid (set_tx_report t id q)
  unfolding set_tx_report
  set_tx_report-IsValid t id q v = update-IsValid t id _ v (λ n. (refl, refl, refl))

  module _ (t : NeighborTable F) (id : NodeId) (i : ℕ) (n : Neighbor F) (v : IsValid t)
      (g : get_elem? t.slots i ≡ some n)
      (absent : (j : ℕ) (b : Neighbor F) → get_elem? t.slots j ≡ some b → is_of id b ≡ false) where
    marked : List (Neighbor F)
    marked = (write t i (taken_for id n)).slots

    fresh :
        (1 ≤ alloc_alias marked t.alias_base)
        × (alloc_alias marked t.alias_base ≤ 254)
        × (any (has_alias (alloc_alias marked t.alias_base)) marked ≡ false)
    unfolding marked
    fresh =
        alloc_alias_fresh t.alias_base (write t i (taken_for id n)).slots
          (omega (arith, length-modify t.slots i (λ _. taken_for id n), v.whole))

    enter-IsValid : (q : F) (now_ms : ℕ) → IsValid (write t i (sampled q now_ms (enter t i id n)))
    unfolding marked
    enter-IsValid q now_ms =
        write-IsValid t i (sampled q now_ms (enter t i id n)) v (λ _. (fresh.0, fresh.1))
          (λ j b gb d u bu. (
            (λ e. false≢true (sym (absent j b gb) ∙ →is_of id b bu (sym e))),
            (λ e. false≢true (
                sym (
                  any-false
                    (has_alias (alloc_alias (write t i (taken_for id n)).slots t.alias_base))
                    (write t i (taken_for id n)).slots j fresh.2
                    (get_elem?-modify_ne t.slots i j (λ _. taken_for id n) d ∙ gb))
                ∙ rw (bu, ← e) (==_refl _))),
          ))

  -- Hearing a frame, from a neighbour that is known or new, keeps the ids and aliases of a
  -- valid table distinct and the aliases between 1 and 254.
  pub heard-IsValid :
      (t : NeighborTable F) (id : NodeId) (q : F) (now_ms : ℕ)
      → IsValid t
      → IsValid (heard t id q now_ms).0
  unfolding heard
  heard-IsValid t id q now_ms v = elim (find_slot_cases (is_of id) t.slots) [
    | inr (i, n, e, _, g, h) ↦
        rw (e, heard) (rewrite-IsValid t i n (sampled q now_ms n) v g (refl, refl, refl))
    | inl (e, _, absent) ↦ elim (find_slot_cases (λ n. not n.used) t.slots) [
      | inl (e', _, _) ↦ rw (e, heard, e') v
      | inr (i, n, e', _, g, _) ↦ rw (e, heard, e') (enter-IsValid t id i n v g absent q now_ms)
    ]
  ]

  -- What a frame from `id` does to its entry: a known neighbour keeps its id, its aliases and what
  -- it reported, and its quality is averaged in; a new one is entered, or nothing changes.
  abbrev pub Samples : NeighborTable F → NodeId → F → ℕ → Type 0
  Samples t id q now_ms =
      ((n : Neighbor F) × (lookup t id ≡ some n)
        × (lookup (heard t id q now_ms).0 id ≡ some (sampled q now_ms n)))
      ⊎ ((lookup t id ≡ none)
          × (((n : Neighbor F) × (lookup (heard t id q now_ms).0 id ≡ some n)
                × (n.last_heard_ms ≡ now_ms)
                × (n.their_alias ≡ alias_none))
              ⊎ ((heard t id q now_ms ≡ (t, false))
                  × ((i : ℕ) (a : Neighbor F) → get_elem? t.slots i ≡ some a → a.used ≡ true))))

  -- In a valid table, a frame from a known neighbour averages its quality in, notes the time, and
  -- keeps the rest of its entry; one from an unknown neighbour enters it, with no alias that it
  -- reported, or changes nothing, where every slot is in use.
  pub lookup-heard :
      (t : NeighborTable F) (id : NodeId) (q : F) (now_ms : ℕ) → IsValid t → Samples t id q now_ms
  unfolding heard lookup
  lookup-heard t id q now_ms v = elim (find_slot_cases (is_of id) t.slots) [
    | inr (i, n, e, l, g, h) ↦
        let (u, s) = is_of→ id n h in
        inl (
          n,
          l,
          rw (e, heard)
              (find-modify_hit (is_of id) t.slots i (λ _. sampled q now_ms n) g (→is_of id n u s)
                (λ j b gb d. false_of _ (λ hb.
                  let (bu, bs) = is_of→ id b hb in (v.unique i j n b g gb d u bu).0 (s ∙ sym bs)))),
        )
    | inl (e, l, absent) ↦ inr (
      l,
      elim (find_slot_cases (λ n. not n.used) t.slots) [
        | inl (e', _, full) ↦ inr (rw (e, heard, e'), λ k b gb. ground (arith, full k b gb))
        | inr (i, n, e', _, g, _) ↦ inl (
          sampled q now_ms (enter t i id n),
          rw (e, heard, e')
              (find-modify_hit (is_of id) t.slots i (λ _. sampled q now_ms (enter t i id n)) g
                (→is_of id (sampled q now_ms (enter t i id n)) refl refl)
                (λ j b gb d. absent j b gb)),
          refl,
          refl,
        )
      ],
    )
  ]

  pub init-IsValid : (base : ℕ) → IsValid {F = F} (record init { alias_base = base })
  init-IsValid base = record {
    whole = refl;
    unique = λ i j a b ga gb d u. absurd (false≢true (sym (unused i a ga) ∙ u));
    ranged = λ i a g u. absurd (false≢true (sym (unused i a g) ∙ u));
  }
    where
      unused :
          (i : ℕ) (a : Neighbor F)
          → get_elem? (replicate max_neighbors no_neighbor) i ≡ some a
          → a.used ≡ false
      unused i a g =
          Every-replicate (λ (n : Neighbor F). n.used ≡ false) max_neighbors no_neighbor refl i a g

-- What `neighbor_by_link` names, if anything, is a neighbour with just these two aliases.
pub neighbor_by_link_sound :
    {F : Type 0} (t : NeighborTable F) (next_hop prev_hop : ℕ)
    → (neighbor_by_link t next_hop prev_hop ≡ zero_id)
      ⊎ ((i : ℕ) × (n : Neighbor F) × (get_elem? t.slots i ≡ some n)
          × (n.used ≡ true)
          × (n.my_alias ≡ next_hop)
          × (n.their_alias ≡ prev_hop)
          × (neighbor_by_link t next_hop prev_hop ≡ n.id))
unfolding neighbor_by_link
neighbor_by_link_sound t next_hop prev_hop = elim (Bool-cases (next_hop == alias_none)) [
  | inl z ↦ inl (rw z)
  | inr nz ↦ elim (find-find_index (on_link next_hop prev_hop) t.slots) [
    | inl (e, _) ↦ inl (rw (nz, e))
    | inr (i, n, e, _, g, h) ↦
        let (u, rest) = &&_true {a = n.used} h in
        let (a, b) = &&_true {a = n.my_alias == next_hop} rest in
        inr (i, n, g, u, (==_iff _ _).0 a, (==_iff _ _).0 b, rw (nz, e))
  ]
]
