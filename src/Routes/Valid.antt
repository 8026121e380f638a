-- ===== src/Routes/Valid.antt =====
-- The invariant of the routing table, and that every operation keeps it.
use agnostic_lora_net.Prelude.{
  ℕ, ◌≤◌, ◌≡◌, ◌≢◌, ◌⊎◌, sym, ◌∙◌, inl, inr, Bool, true, false, some, map, bytes_eq→eq,
  bytes_eq_refl, length, get_elem?, Apart, Every, Every-modify, Apart-modify, Every-map, Apart-map,
  length-modify, length-map, Bool-cases, arith, &&_true,
}
use mathlib.Core.Bool.{false≢true}
use agnostic_lora_net.NodeId.{NodeId}
use agnostic_lora_net.Float.{Float}
use agnostic_lora_net.Routes.{
  Route, RoutingTable, max_routes, max_hops, holds, write, drop_if, prune, drop_via, is_stale,
  goes_via, cost_inf,
}

module _ {F : Type 0} ⦃fl : Float F⦄ where
  open fl use {le, dec}

  -- A route in use: the pinned route to the node itself, or one within the ceilings.
  abbrev pub Sane : NodeId → Route F → Type 0
  Sane self r =
      ((r.dst ≡ self) × (r.next_hop ≡ self) × (r.hops ≡ 0) × (r.cost ≡ dec 0 0))
      ⊎ ((r.dst ≢ self) × (r.hops ≤ max_hops) × (le cost_inf r.cost ≡ false))

  abbrev pub Distinct : Route F → Route F → Type 0
  Distinct a b = a.used ≡ true → b.used ≡ true → a.dst ≢ b.dst

  pub record IsValid (t : RoutingTable F) : Type 0 where
    pub whole : length t.slots ≡ max_routes
    pub unique : Apart Distinct t.slots
    pub sane : Every (λ r. r.used ≡ true → Sane t.self r) t.slots

  pub holds→ : (dst : NodeId) (r : Route F) → holds dst r ≡ true → (r.used ≡ true) × (r.dst ≡ dst)
  holds→ dst r h = let (u, e) = &&_true {a = r.used} h in (u, bytes_eq→eq r.dst dst e)

  pub →holds : (dst : NodeId) (r : Route F) → r.used ≡ true → r.dst ≡ dst → holds dst r ≡ true
  →holds dst r u e = rw (u, e) (bytes_eq_refl dst)

  -- A write of a sane route whose destination no other slot has.
  pub write-IsValid :
      (t : RoutingTable F) (i : ℕ) (r : Route F)
      → IsValid t
      → (r.used ≡ true → Sane t.self r)
      → ((j : ℕ) (b : Route F)
          → get_elem? t.slots j ≡ some b
          → i ≢ j
          → r.used ≡ true
          → b.used ≡ true
          → r.dst ≢ b.dst)
      → IsValid (write t i r)
  write-IsValid t i r v s k = record {
    whole = omega (arith, length-modify t.slots i (λ _. r), v.whole);
    unique =
        Apart-modify Distinct t.slots i (λ _. r) v.unique
          (λ j a b ga gb d. (k j b gb d, λ u u' e. k j b gb d u' u (sym e)));
    sane = Every-modify (λ r. r.used ≡ true → Sane t.self r) t.slots i (λ _. r) v.sane (λ a g h. s);
  }

  -- The slot that holds a destination is the only one that does.
  pub holds_unique :
      (t : RoutingTable F) (dst : NodeId) (i : ℕ) (r : Route F)
      → IsValid t
      → get_elem? t.slots i ≡ some r
      → holds dst r ≡ true
      → (j : ℕ) (b : Route F) → get_elem? t.slots j ≡ some b
      → i ≢ j
      → b.used ≡ true
      → dst ≢ b.dst
  holds_unique t dst i r v g h j b g' d u e =
      let (ru, re) = holds→ dst r h in v.unique i j r b g g' d ru u (re ∙ e)

  -- Nor does any slot hold a destination that was not found.
  pub not-holds : (dst : NodeId) (b : Route F) → holds dst b ≡ false → b.used ≡ true → dst ≢ b.dst
  not-holds dst b f u e = absurd (false≢true (sym f ∙ →holds dst b u (sym e)))

  drop_if-IsValid :
      (t : RoutingTable F) (test : Route F → Bool)
      → IsValid t
      → IsValid (record t { slots = map (drop_if test) t.slots })
  drop_if-IsValid t test v = record {
    whole = omega (arith, length-map (drop_if test) t.slots, v.whole);
    unique = Apart-map Distinct t.slots (drop_if test) v.unique (λ a b h.
        elim (Bool-cases (test a)) [
          | inl ta ↦ rw ta (λ u. absurd (false≢true u))
          | inr fa ↦ elim (Bool-cases (test b)) [
            | inl tb ↦ rw (fa, tb) (λ u u'. absurd (false≢true u'))
            | inr fb ↦ rw (fa, fb) h
          ]
        ]);
    sane =
        Every-map (λ r. r.used ≡ true → Sane t.self r) t.slots (drop_if test) v.sane
          (λ a h. elim (Bool-cases (test a)) [
            | inl ta ↦ rw ta (λ u. absurd (false≢true u))
            | inr fa ↦ rw fa h
          ]);
  }

  pub prune-IsValid :
      (t : RoutingTable F) (now_ms timeout_ms : ℕ) → IsValid t → IsValid (prune t now_ms timeout_ms)
  unfolding prune
  prune-IsValid t now_ms timeout_ms v = drop_if-IsValid t (is_stale t now_ms timeout_ms) v

  pub drop_via-IsValid : (t : RoutingTable F) (via : NodeId) → IsValid t → IsValid (drop_via t via)
  unfolding drop_via
  drop_via-IsValid t via v = drop_if-IsValid t (goes_via t via) v
