-- ===== src/Neighbors/Valid.antt =====
-- The invariant of the neighbour table, and what a link names.
use agnostic_lora_net.Prelude.{
  ℕ, ◌≤◌, ◌≡◌, ◌≢◌, refl, sym, ◌∙◌, inl, inr, true, false, some, bytes_eq→eq, bytes_eq_refl, length,
  get_elem?, Apart, Every, Every-modify, Apart-modify, Every-map, Apart-map, length-modify,
  length-map, find_slot_cases, find_unique, false_of, Bool-cases, arith, &&_true, ◌==◌, ==_iff,
}
use mathlib.Core.Bool.{false≢true}
use agnostic_lora_net.NodeId.{NodeId}
use agnostic_lora_net.Neighbors.{
  Neighbor, NeighborTable, max_neighbors, alias_none, is_of, write, update, on_link,
  neighbor_by_link, set_their_alias, set_caps, prune, forget, is_dead,
}

module _ {F : Type 0} where
  -- Two neighbours have different ids and different aliases.
  abbrev pub Distinct : Neighbor F → Neighbor F → Type 0
  Distinct a b = a.used ≡ true → b.used ≡ true → (a.id ≢ b.id) × (a.my_alias ≢ b.my_alias)

  pub record IsValid (t : NeighborTable F) : Type 0 where
    pub whole : length t.slots ≡ max_neighbors
    pub unique : Apart Distinct t.slots
    pub ranged : Every (λ n. n.used ≡ true → (1 ≤ n.my_alias) × (n.my_alias ≤ 254)) t.slots

  pub is_of→ : (id : NodeId) (n : Neighbor F) → is_of id n ≡ true → (n.used ≡ true) × (n.id ≡ id)
  is_of→ id n h = let (u, e) = &&_true {a = n.used} h in (u, bytes_eq→eq n.id id e)

  pub →is_of : (id : NodeId) (n : Neighbor F) → n.used ≡ true → n.id ≡ id → is_of id n ≡ true
  →is_of id n u e = rw (u, e) (bytes_eq_refl id)

  pub write-IsValid :
      (t : NeighborTable F) (i : ℕ) (n : Neighbor F)
      → IsValid t
      → (n.used ≡ true → (1 ≤ n.my_alias) × (n.my_alias ≤ 254))
      → ((j : ℕ) (b : Neighbor F) → get_elem? t.slots j ≡ some b → i ≢ j → Distinct n b)
      → IsValid (write t i n)
  write-IsValid t i n v r k = record {
    whole = omega (arith, length-modify t.slots i (λ _. n), v.whole);
    unique =
        Apart-modify Distinct t.slots i (λ _. n) v.unique
          (λ j a b ga gb d.
            (k j b gb d, λ u u'. let (x, y) = k j b gb d u' u in (λ e. x (sym e), λ e. y (sym e))));
    ranged =
        Every-modify (λ n. n.used ≡ true → (1 ≤ n.my_alias) × (n.my_alias ≤ 254)) t.slots i (λ _. n)
          v.ranged (λ a g h. r);
  }

  -- A change of a neighbour that keeps its id and its alias.
  abbrev pub SameLink : Neighbor F → Neighbor F → Type 0
  SameLink a b = (b.used ≡ a.used) × (b.id ≡ a.id) × (b.my_alias ≡ a.my_alias)

  pub rewrite-IsValid :
      (t : NeighborTable F) (i : ℕ) (a n : Neighbor F)
      → IsValid t
      → get_elem? t.slots i ≡ some a
      → SameLink a n
      → IsValid (write t i n)
  rewrite-IsValid t i a n v g (u, e, m) =
      write-IsValid t i n v (λ nu. rw m (v.ranged i a g (sym u ∙ nu)))
        (λ j b gb d nu bu. rw (e, m) (v.unique i j a b g gb d (sym u ∙ nu) bu))

  pub update-IsValid :
      (t : NeighborTable F) (id : NodeId) (f : Neighbor F → Neighbor F)
      → IsValid t
      → ((n : Neighbor F) → SameLink n (f n))
      → IsValid (update t id f)
  update-IsValid t id f v k = elim (find_slot_cases (is_of id) t.slots) [
    | inl (e, _, _) ↦ rw (e, update) v
    | inr (i, a, e, _, g, h) ↦ rw (e, update) (rewrite-IsValid t i a (f a) v g (k a))
  ]

  pub set_their_alias-IsValid :
      (t : NeighborTable F) (id : NodeId) (a : ℕ) → IsValid t → IsValid (set_their_alias t id a)
  unfolding set_their_alias
  set_their_alias-IsValid t id a v = update-IsValid t id _ v (λ n. (refl, refl, refl))

  pub set_caps-IsValid :
      (t : NeighborTable F) (id : NodeId) (caps : ℕ) → IsValid t → IsValid (set_caps t id caps)
  unfolding set_caps
  set_caps-IsValid t id caps v = update-IsValid t id _ v (λ n. (refl, refl, refl))

  -- Dropping the neighbours that were not heard for too long keeps a valid table valid: the ids and
  -- the aliases of those that stay are distinct and the aliases between 1 and 254.
  pub prune-IsValid :
      (t : NeighborTable F) (now_ms timeout_ms cap : ℕ)
      → IsValid t
      → IsValid (prune t now_ms timeout_ms cap).0
  unfolding prune
  prune-IsValid t now_ms timeout_ms cap v = record {
    whole = omega (arith, length-map (forget now_ms timeout_ms) t.slots, v.whole);
    unique = Apart-map Distinct t.slots (forget now_ms timeout_ms) v.unique (λ a b h.
        elim (Bool-cases (is_dead now_ms timeout_ms a)) [
          | inl ta ↦ rw ta (λ u. absurd (false≢true u))
          | inr fa ↦ elim (Bool-cases (is_dead now_ms timeout_ms b)) [
            | inl tb ↦ rw (fa, tb) (λ u u'. absurd (false≢true u'))
            | inr fb ↦ rw (fa, fb) h
          ]
        ]);
    ranged =
        Every-map (λ n. n.used ≡ true → (1 ≤ n.my_alias) × (n.my_alias ≤ 254)) t.slots
          (forget now_ms timeout_ms) v.ranged
          (λ a h. elim (Bool-cases (is_dead now_ms timeout_ms a)) [
            | inl ta ↦ rw ta (λ u. absurd (false≢true u))
            | inr fa ↦ rw fa h
          ]);
  }

  -- In a valid table, a directed frame that carries the two aliases of a neighbour's link is given to that neighbour
  -- and to no other.
  pub neighbor_by_link_lem :
      (t : NeighborTable F) (i : ℕ) (n : Neighbor F)
      → IsValid t
      → get_elem? t.slots i ≡ some n
      → n.used ≡ true
      → neighbor_by_link t n.my_alias n.their_alias ≡ n.id
  unfolding neighbor_by_link
  neighbor_by_link_lem t i n v g u =
      let e = find_unique (on_link n.my_alias n.their_alias) t.slots i g (ground arith) (λ j b gb d.
        false_of _ (λ h.
          let (bu, rest) = &&_true {a = b.used} h in
          let (same, _) = &&_true {a = b.my_alias == n.my_alias} rest in
          (v.unique i j n b g gb d u bu).1 (sym ((==_iff _ _).0 same)))) in
      let (low, high) = v.ranged i n g u in
      let f : (n.my_alias == alias_none) ≡ false = ground arith in rw (f, e)
