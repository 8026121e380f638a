-- ===== src/Router/Hops.antt =====
-- Where the next hop of a route can come from, operation by operation.
use agnostic_lora_net.Prelude.{
  ℕ, ◌≡◌, ◌≢◌, ◌⊎◌, refl, sym, ap, ◌∙◌, subst, inl, inr, Bool, true, false, not, ◌&&◌, Option, none,
  some, bytes_eq, bytes_eq→eq, bytes_eq_refl, Bool-cases, arith,
}
use mathlib.Core.Bool.{false≢true}
use agnostic_lora_net.NodeId.{NodeId}
use agnostic_lora_net.Float.{Float}
use agnostic_lora_net.Routes.{Route, RoutingTable, lookup, offer, prune, drop_via, unreachable}
use agnostic_lora_net.Routes.Valid.{IsValid}
use agnostic_lora_net.Routes.Offers.{relaxed, withdrawn, after_offer, offer-Meets, has_room}
use agnostic_lora_net.Routes.Drops.{left, lookup-drop_via, lookup-prune}

module _ {F : Type 0} ⦃fl : Float F⦄ where
  open fl use {sub, lt, dec}

  -- A route that is `via`'s, or has the next hop that the old one had.
  abbrev pub FromOrOld : NodeId → Option (Route F) → Route F → Type 0
  FromOrOld via old x =
      (x.next_hop ≡ via) ⊎ ((r : Route F) × (old ≡ some r) × (x.next_hop ≡ r.next_hop))

  relaxed-hop :
      (room : Bool) (old : Option (Route F)) (dst via : NodeId) (cost : F) (hops now_ms : ℕ)
      (x : Route F)
      → relaxed room old dst via cost hops now_ms ≡ some x
      → FromOrOld via old x
  relaxed-hop true none dst via cost hops now_ms x e = inl (ground arith)
  relaxed-hop false none dst via cost hops now_ms x e = absurd (ground arith)
  relaxed-hop room (some r) dst via cost hops now_ms x e =
      elim (Bool-cases (bytes_eq r.next_hop via)) [
        | inl t ↦ inr (r, refl, ground arith)
        | inr f ↦ elim (Bool-cases (lt cost (sub r.cost (dec 1 4)))) [
          | inl t ↦ inl (ground arith)
          | inr f' ↦ inr (r, refl, ground arith)
        ]
      ]

  withdrawn-hop :
      (old : Option (Route F)) (via : NodeId) (x : Route F)
      → withdrawn old via ≡ some x
      → FromOrOld via old x
  withdrawn-hop none via x e = absurd (ground arith)
  withdrawn-hop (some r) via x e = inr (r, refl, ground arith)

  left-hop :
      (test : Route F → Bool) (old : Option (Route F)) (x : Route F)
      → left test old ≡ some x
      → (old ≡ some x) × (test x ≡ false)
  left-hop test none x e = absurd (ground arith)
  left-hop test (some r) x e = elim (Bool-cases (test r)) [
    | inl t ↦ absurd (ground arith)
    | inr f ↦ let s : r ≡ x = ground arith in (ap some s, rw (← s) f)
  ]

  module _ (t : RoutingTable F) (v : IsValid t) where
    -- After an offer from `via`, a route goes through `via`, or where it went before.
    pub offer-hop :
        (dst via : NodeId) (cost : F) (hops now_ms : ℕ) (d : NodeId) (x : Route F)
        → lookup (offer t dst via cost hops now_ms).0 d ≡ some x
        → FromOrOld via (lookup t d) x
    offer-hop dst via cost hops now_ms d x e = elim (Bool-cases (bytes_eq d dst)) [
      | inr f ↦
          let m = offer-Meets t dst v via cost hops now_ms in
          let far : d ≢ dst =
            λ s. false≢true (sym f ∙ (ap (bytes_eq d) (sym s) ∙ bytes_eq_refl d)) in
          inr (x, sym (m.others d far) ∙ e, refl)
      | inl s ↦
          let m = offer-Meets t dst v via cost hops now_ms in
          let same = bytes_eq→eq d dst s in
          subst (λ z. FromOrOld via (lookup t z) x) (sym same)
            (at_dst
              (sym m.here ∙ (ap (lookup (offer t dst via cost hops now_ms).0) (sym same) ∙ e)))
    ]
      where
        at_dst : after_offer t dst via cost hops now_ms ≡ some x → FromOrOld via (lookup t dst) x
        at_dst h = elim (Bool-cases (bytes_eq dst t.self)) [
          | inl own ↦ inr (x, rw own at h, refl)
          | inr other ↦ elim (Bool-cases (unreachable cost hops)) [
            | inl lost ↦ withdrawn-hop (lookup t dst) via x (rw (other, lost) at h)
            | inr near ↦
                relaxed-hop (has_room t) (lookup t dst) dst via cost hops now_ms x
                  (rw (other, near) at h)
          ]
        ]

    -- After a neighbour is given up no route but the own one goes through it; the others stay.
    pub drop_via-hop :
        (via d : NodeId) (x : Route F)
        → lookup (drop_via t via) d ≡ some x
        → (lookup t d ≡ some x) × ((d ≢ t.self) → x.next_hop ≢ via)
    drop_via-hop via d x e =
        let (l, f) = left-hop _ (lookup t d) x (sym (lookup-drop_via t v via d) ∙ e) in
        (l, λ far s. false≢true (sym f ∙ both far s))
      where
        both :
            (d ≢ t.self)
            → x.next_hop ≡ via
            → (not (bytes_eq d t.self) && bytes_eq x.next_hop via) ≡ true
        both far s = elim (Bool-cases (bytes_eq d t.self)) [
          | inl same ↦ absurd (far (bytes_eq→eq d t.self same))
          | inr f ↦ rw (f, s) (bytes_eq_refl via)
        ]

    pub prune-hop :
        (now_ms timeout_ms : ℕ) (d : NodeId) (x : Route F)
        → lookup (prune t now_ms timeout_ms) d ≡ some x
        → lookup t d ≡ some x
    prune-hop now_ms timeout_ms d x e =
        (left-hop _ (lookup t d) x (sym (lookup-prune t v now_ms timeout_ms d) ∙ e)).0
