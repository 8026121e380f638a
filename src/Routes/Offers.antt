-- ===== src/Routes/Offers.antt =====
-- What an offer does to the routes: the table is a map from destinations to routes, changed at the
-- offered destination alone.
use agnostic_lora_net.Prelude.{
  ℕ, ◌≤◌, ◌≡◌, ◌≢◌, ◌⊎◌, refl, sym, ap, ◌∙◌, subst, inl, inr, Bool, true, false, Option, none, some,
  if◌then◌else◌, find, bytes_eq, bytes_eq_refl, get_elem?, find_slot_cases, Bool-cases, arith,
  find-modify_hit, find-modify_other, find-modify_off, false_of,
}
use mathlib.Core.Bool.{false≢true}
use agnostic_lora_net.NodeId.{NodeId}
use agnostic_lora_net.Float.{Float}
use agnostic_lora_net.Routes.{
  Route, RoutingTable, max_hops, holds, is_free, lookup, write, relax, withdraw, unreachable, offer,
  cost_inf,
}
use agnostic_lora_net.Routes.Valid.{
  IsValid, Sane, write-IsValid, holds_unique, not-holds, holds→, →holds,
}

module _ {F : Type 0} ⦃fl : Float F⦄ where
  open fl use {sub, lt, le, dec}

  abbrev pub has_room : RoutingTable F → Bool
  has_room t = elim (find is_free t.slots) [ none ↦ false | some _ ↦ true ]

  abbrev pub route_of : NodeId → NodeId → F → ℕ → ℕ → Route F
  route_of dst via cost hops now_ms = record {
    dst = dst;
    next_hop = via;
    cost = cost;
    hops = hops;
    updated_ms = now_ms;
    used = true;
  }

  -- The routing rule: what an offer within the ceilings makes of the route that was there.
  abbrev pub relaxed : Bool → Option (Route F) → NodeId → NodeId → F → ℕ → ℕ → Option (Route F)
  relaxed room old dst via cost hops now_ms = elim old [
    | none ↦ if room then some (route_of dst via cost hops now_ms) else none
    | some r ↦
        if bytes_eq r.next_hop via
        then some (record r { cost = cost; hops = hops; updated_ms = now_ms })
        else if lt cost (sub r.cost (dec 1 4))
        then some (record r { next_hop = via; cost = cost; hops = hops; updated_ms = now_ms })
        else some r
  ]

  -- And an offer beyond them.
  abbrev pub withdrawn : Option (Route F) → NodeId → Option (Route F)
  withdrawn old via = elim old [
    | none ↦ none
    | some r ↦ if bytes_eq r.next_hop via then none else some r
  ]

  -- What an offer is to make of the route to its destination.
  abbrev pub after_offer : RoutingTable F → NodeId → NodeId → F → ℕ → ℕ → Option (Route F)
  after_offer t dst via cost hops now_ms =
      if bytes_eq dst t.self
      then lookup t dst
      else if unreachable cost hops
      then withdrawn (lookup t dst) via
      else relaxed (has_room t) (lookup t dst) dst via cost hops now_ms

  module _ (t : RoutingTable F) (v : IsValid t) where
    holds-off : (d dst : NodeId) (r : Route F) → d ≢ dst → r.dst ≡ dst → holds d r ≡ false
    holds-off d dst r ne e = false_of (holds d r) (λ h. ne (sym (holds→ d r h).1 ∙ e))

    -- A write of a route for `dst`, to the slot that has it or to a free one.
    lookup-write :
        (i : ℕ) (old r : Route F)
        → get_elem? t.slots i ≡ some old
        → r.used ≡ true
        → ((j : ℕ) (b : Route F)
            → get_elem? t.slots j ≡ some b
            → i ≢ j
            → b.used ≡ true
            → r.dst ≢ b.dst)
        → lookup (write t i r) r.dst ≡ some r
    unfolding lookup
    lookup-write i old r g u k =
        find-modify_hit (holds r.dst) t.slots i (λ _. r) g (→holds r.dst r u refl)
          (λ j b gb d.
            false_of (holds r.dst b)
              (λ h. let (bu, be) = holds→ r.dst b h in k j b gb d bu (sym be)))

    lookup-write_other :
        (d : NodeId) (i : ℕ) (old r : Route F)
        → get_elem? t.slots i ≡ some old
        → holds d old ≡ false
        → holds d r ≡ false
        → lookup (write t i r) d ≡ lookup t d
    unfolding lookup
    lookup-write_other d i old r g u k = find-modify_other (holds d) t.slots i (λ _. r) g u k

    lookup-write_off :
        (dst : NodeId) (i : ℕ) (old r : Route F)
        → get_elem? t.slots i ≡ some old
        → holds dst old ≡ true
        → r.used ≡ false
        → lookup (write t i r) dst ≡ none
    unfolding lookup
    lookup-write_off dst i old r g h u =
        find-modify_off (holds dst) t.slots i (λ _. r) g (ground arith)
          (λ j b gb d. false_of (holds dst b) (λ hb.
            let (bu, be) = holds→ dst b hb in holds_unique t dst i old v g h j b gb d bu (sym be)))

  -- `t'` is valid, has `new` for `dst`, and has for every other destination what `t` has.
  pub record Meets (t : RoutingTable F) (dst : NodeId) (new : Option (Route F))
      (t' : RoutingTable F) : Type 0 where
    pub valid : IsValid t'
    pub own : t'.self ≡ t.self
    pub here : lookup t' dst ≡ new
    pub others : (d : NodeId) → d ≢ dst → lookup t' d ≡ lookup t d

  module _ (t : RoutingTable F) (dst : NodeId) (v : IsValid t) where
    pub keep-Meets : (new : Option (Route F)) → lookup t dst ≡ new → Meets t dst new t
    keep-Meets new e = record { valid = v; own = refl; here = e; others = λ d ne. refl }

    -- The slot has the destination, or it is free and none has.
    abbrev pub Fits : Route F → Type 0
    Fits old =
        (holds dst old ≡ true)
        ⊎ ((old.used ≡ false)
            × ((j : ℕ) (b : Route F) → get_elem? t.slots j ≡ some b → holds dst b ≡ false))

    apart :
        (i : ℕ) (old : Route F)
        → get_elem? t.slots i ≡ some old
        → Fits old
        → (j : ℕ) (b : Route F) → get_elem? t.slots j ≡ some b
        → i ≢ j
        → b.used ≡ true
        → dst ≢ b.dst
    apart i old g (inl h) j b gb d bu = holds_unique t dst i old v g h j b gb d bu
    apart i old g (inr (u, h)) j b gb d bu = not-holds dst b (h j b gb) bu

    other-off : (old : Route F) → Fits old → (d : NodeId) → d ≢ dst → holds d old ≡ false
    other-off old (inl h) d ne = holds-off t v d dst old ne (holds→ dst old h).1
    other-off old (inr (u, h)) d ne = ground arith

    pub write-Meets :
        (i : ℕ) (old r : Route F)
        → get_elem? t.slots i ≡ some old
        → Fits old
        → r.dst ≡ dst
        → r.used ≡ true
        → Sane t.self r
        → Meets t dst (some r) (write t i r)
    write-Meets i old r g f e u s =
        let far =
          λ (j : ℕ) (b : Route F) (gb : get_elem? t.slots j ≡ some b) (d : i ≢ j)
              (bu : b.used ≡ true).
            subst (λ z. z ≢ b.dst) (sym e) (apart i old g f j b gb d bu) in
        record {
          valid = write-IsValid t i r v (λ _. s) (λ j b gb d _ bu. far j b gb d bu);
          own = refl;
          here = subst (λ z. lookup (write t i r) z ≡ some r) e (lookup-write t v i old r g u far);
          others = λ d ne.
              lookup-write_other t v d i old r g (other-off old f d ne)
                (holds-off t v d dst r ne e);
        }

    off-Meets :
        (i : ℕ) (old r : Route F)
        → get_elem? t.slots i ≡ some old
        → holds dst old ≡ true
        → r.used ≡ false
        → Meets t dst none (write t i r)
    off-Meets i old r g h u = record {
      valid =
          write-IsValid t i r v (λ u'. absurd (false≢true (sym u ∙ u')))
            (λ j b gb d u'. absurd (false≢true (sym u ∙ u')));
      own = refl;
      here = lookup-write_off t v dst i old r g h u;
      others =
          λ d ne. lookup-write_other t v d i old r g (other-off old (inl h) d ne) (ground arith);
    }

    module _ (via : NodeId) (cost : F) (hops now_ms : ℕ) where
      relax-Meets :
          (dst ≢ t.self)
          → hops ≤ max_hops
          → le cost_inf cost ≡ false
          → Meets t dst
              (relaxed (has_room t) (lookup t dst) dst via cost hops now_ms)
              (relax t dst via cost hops now_ms).0
      unfolding relax lookup
      relax-Meets ne few cheap = elim (find_slot_cases (holds dst) t.slots) [
        | inl (e, l, h) ↦ elim (find_slot_cases is_free t.slots) [
          | inl (e', l', _) ↦ rw (e, relax, e', l, l', has_room) (keep-Meets none l)
          | inr (i, a, e', l', g, free) ↦
              rw (e, relax, e', l, l', has_room)
                (write-Meets i a (route_of dst via cost hops now_ms) g (inr (ground arith, h)) refl
                  refl (inr (ne, few, cheap)))
        ]
        | inr (i, r, e, l, g, h) ↦
            let (ru, re) = holds→ dst r h in
            let sane : (n : NodeId)
                → Sane t.self
                    (record r { next_hop = n; cost = cost; hops = hops; updated_ms = now_ms }) =
              λ n. inr (λ s. ne (sym re ∙ s), few, cheap) in
            elim (Bool-cases (bytes_eq r.next_hop via)) [
              | inl same ↦
                  rw (e, relax, l, same) (write-Meets i r _ g (inl h) re ru (sane r.next_hop))
              | inr differs ↦ elim (Bool-cases (lt cost (sub r.cost (dec 1 4)))) [
                | inl better ↦
                    rw (e, relax, l, differs, better) (write-Meets i r _ g (inl h) re ru (sane via))
                | inr worse ↦ rw (e, relax, l, differs, worse) (keep-Meets (some r) l)
              ]
            ]
      ]

    withdraw-Meets :
        (via : NodeId) → Meets t dst (withdrawn (lookup t dst) via) (withdraw t dst via).0
    unfolding withdraw lookup
    withdraw-Meets via = elim (find_slot_cases (holds dst) t.slots) [
      | inl (e, l, h) ↦ rw (e, withdraw, l) (keep-Meets none l)
      | inr (i, r, e, l, g, h) ↦ elim (Bool-cases (bytes_eq r.next_hop via)) [
        | inl same ↦ rw (e, withdraw, l, same) (off-Meets i r _ g h refl)
        | inr differs ↦ rw (e, withdraw, l, differs) (keep-Meets (some r) l)
      ]
    ]

    -- An offer to a valid table follows the routing rule: the node's own route is never touched; an
    -- advertisement beyond the ceilings withdraws the route if it comes from the hop in use; any
    -- other is taken if there is no route and a slot is free, if it comes from the hop in use, or if
    -- it is cheaper by more than 1e-4. No route to another destination changes, and the table stays
    -- valid.
    pub offer-Meets :
        (via : NodeId) (cost : F) (hops now_ms : ℕ)
        → Meets t dst (after_offer t dst via cost hops now_ms) (offer t dst via cost hops now_ms).0
    unfolding offer
    offer-Meets via cost hops now_ms = elim (Bool-cases (bytes_eq dst t.self)) [
      | inl own ↦ rw own (keep-Meets (lookup t dst) refl)
      | inr far ↦ elim (Bool-cases (unreachable cost hops)) [
        | inl lost ↦ rw (far, lost) (withdraw-Meets via)
        | inr near ↦
            rw (far, near)
              (relax-Meets via cost hops now_ms
                (λ e.
                  absurd (false≢true (sym far ∙ (ap (bytes_eq dst) (sym e) ∙ bytes_eq_refl dst))))
                (ground arith) (ground arith))
      ]
    ]
