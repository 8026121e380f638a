-- ===== src/Routes/Own.antt =====
-- The node's own route: pinned when the table is made, and kept by every operation.
use agnostic_lora_net.Prelude.{
  ℕ, ◌≡◌, ◌⊎◌, refl, sym, ap, ◌∙◌, subst, inl, inr, Bool, true, false, not, ◌&&◌, none, some,
  if◌then◌else◌, find, bytes_eq, bytes_eq→eq, bytes_eq_refl, replicate, find_slot_cases, Bool-cases,
  Option-cases, arith, Every-replicate, Every,
}
use mathlib.Core.Bool.{false≢true}
use agnostic_lora_net.NodeId.{NodeId}
use agnostic_lora_net.Float.{Float}
use agnostic_lora_net.Routes.{
  Route, RoutingTable, max_routes, holds, is_free, lookup, no_route, pinned, set_self, offer, prune,
  drop_via, init,
}
use agnostic_lora_net.Routes.Valid.{IsValid, drop_via-IsValid, prune-IsValid, Sane, holds→}
use agnostic_lora_net.Routes.Offers.{Meets, keep-Meets, write-Meets, offer-Meets, has_room}
use agnostic_lora_net.Routes.Drops.{left, lookup-drop_via, lookup-prune}

module _ {F : Type 0} ⦃fl : Float F⦄ where
  open fl use {dec}

  -- The pinned route of `set_self`, where there is a slot for it.
  abbrev pub own_route : NodeId → ℕ → Route F
  own_route me now_ms = pinned me now_ms (record no_route { used = true })

  -- A table of this node that holds its own route.
  pub record HasOwn (me : NodeId) (t : RoutingTable F) : Type 0 where
    pub valid : IsValid t
    pub own : t.self ≡ me
    pub there : (r : Route F) × (lookup t me ≡ some r)

  abbrev named : RoutingTable F → NodeId → RoutingTable F
  named t me = record t { self = me }

  own-Sane : (me : NodeId) (now_ms : ℕ) (r : Route F) → Sane me (pinned me now_ms r)
  own-Sane me now_ms r = inl (refl, refl, refl, refl)

  -- `set_self` writes the route of the node to itself and no other, where it stands already or a
  -- slot is free.
  pub set_self-Meets :
      (t : RoutingTable F) (me : NodeId) (now_ms : ℕ)
      → IsValid (named t me)
      → Meets
          (named t me)
          me
          (elim (lookup t me) [
            | none ↦ if has_room t then some (own_route me now_ms) else none
            | some r ↦ some (pinned me now_ms r)
          ])
          (set_self t me now_ms)
  unfolding set_self lookup
  set_self-Meets t me now_ms v = elim (find_slot_cases (holds me) t.slots) [
    | inr (i, r, e, l, g, h) ↦
        rw (e, set_self, l)
          (write-Meets (named t me) me v i r (pinned me now_ms r) g (inl h) refl (holds→ me r h).0
            (own-Sane me now_ms r))
    | inl (e, l, h) ↦ elim (find_slot_cases is_free t.slots) [
      | inl (e', l', _) ↦
          rw (e, set_self, e', l, l', has_room) (keep-Meets (named t me) me v none l)
      | inr (i, a, e', l', g, free) ↦
          rw (e, set_self, e', l, l', has_room)
            (write-Meets (named t me) me v i a (own_route me now_ms) g (inr (ground arith, h)) refl
              refl (own-Sane me now_ms (record no_route { used = true })))
    ]
  ]

  init-IsValid : (me : NodeId) → IsValid (named init me)
  init-IsValid me = record {
    whole = refl;
    unique = λ i j a b ga gb d u. absurd (false≢true (sym (unused i a ga) ∙ u));
    sane = λ i a g u. absurd (false≢true (sym (unused i a g) ∙ u));
  }
    where
      unused : Every (λ (r : Route F). r.used ≡ false) (replicate max_routes no_route)
      unused = Every-replicate (λ (r : Route F). r.used ≡ false) max_routes no_route refl

  set_self-HasOwn :
      (t : RoutingTable F) (me : NodeId) (now_ms : ℕ)
      → IsValid (named t me)
      → (has_room t ≡ true) ⊎ ((r : Route F) × (lookup t me ≡ some r))
      → HasOwn me (set_self t me now_ms)
  set_self-HasOwn t me now_ms v c =
      let m = set_self-Meets t me now_ms v in
      record { valid = m.valid; own = m.own; there = there c m.here }
    where
      there :
          (has_room t ≡ true) ⊎ ((r : Route F) × (lookup t me ≡ some r))
          → lookup (set_self t me now_ms) me ≡ elim (lookup t me) [
            | none ↦ if has_room t then some (own_route me now_ms) else none
            | some r ↦ some (pinned me now_ms r)
          ]
          → (r : Route F) × (lookup (set_self t me now_ms) me ≡ some r)
      there (inr (r, e)) h = (pinned me now_ms r, rw e at h)
      there (inl room) h = elim (Option-cases (lookup t me)) [
        | inl e ↦ (own_route me now_ms, rw (e, room) at h)
        | inr (r, e) ↦ (pinned me now_ms r, rw e at h)
      ]

  -- The table of a node that has just been made is valid and holds its own route.
  pub set_self-init : (me : NodeId) (now_ms : ℕ) → HasOwn me (set_self init me now_ms)
  set_self-init me now_ms =
      let room : has_room {F = F} init ≡ true = unfold find in refl in
      set_self-HasOwn init me now_ms (init-IsValid me) (inl room)

  -- Every operation keeps a valid table valid, and the own route in it.
  module _ (me : NodeId) (t : RoutingTable F) (h : HasOwn me t) where
    pub set_self-HasOwn' : (now_ms : ℕ) → HasOwn me (set_self t me now_ms)
    set_self-HasOwn' now_ms =
        set_self-HasOwn t me now_ms (subst (λ z. IsValid (named t z)) h.own h.valid) (inr h.there)

    own_kept :
        (t' : RoutingTable F)
        → IsValid t'
        → t'.self ≡ t.self
        → lookup t' me ≡ lookup t me
        → HasOwn me t'
    own_kept t' v s e = record { valid = v; own = s ∙ h.own; there = (h.there.0, e ∙ h.there.1) }

    -- An offer, for whatever destination, keeps the table valid and the own route in it.
    pub offer-HasOwn :
        (dst via : NodeId) (cost : F) (hops now_ms : ℕ)
        → HasOwn me (offer t dst via cost hops now_ms).0
    offer-HasOwn dst via cost hops now_ms =
        let m = offer-Meets t dst h.valid via cost hops now_ms in
        own_kept (offer t dst via cost hops now_ms).0 m.valid m.own
          (elim (Bool-cases (bytes_eq dst t.self)) [
            | inl same ↦
                let s : dst ≡ me = bytes_eq→eq dst t.self same ∙ h.own in
                subst (λ z. lookup (offer t dst via cost hops now_ms).0 z ≡ lookup t z) s
                  (m.here ∙ rw same)
            | inr differs ↦ m.others me (λ e.
                absurd
                  (false≢true (sym differs ∙ (ap (bytes_eq dst) (h.own ∙ e) ∙ bytes_eq_refl dst))))
          ])

    own_left :
        (test : Route F → Bool)
        → left (λ r. not (bytes_eq me t.self) && test r) (lookup t me) ≡ lookup t me
    own_left test =
        let e : bytes_eq me t.self ≡ true = rw h.own (bytes_eq_refl me) in rw (e, h.there.1)

    pub drop_via-HasOwn : (via : NodeId) → HasOwn me (drop_via t via)
    drop_via-HasOwn via =
        own_kept (drop_via t via) (drop_via-IsValid t via h.valid) (unfold drop_via in refl)
          (lookup-drop_via t h.valid via me ∙ own_left (λ r. bytes_eq r.next_hop via))

    pub prune-HasOwn : (now_ms timeout_ms : ℕ) → HasOwn me (prune t now_ms timeout_ms)
    prune-HasOwn now_ms timeout_ms =
        own_kept (prune t now_ms timeout_ms) (prune-IsValid t now_ms timeout_ms h.valid)
          (unfold prune in refl) (lookup-prune t h.valid now_ms timeout_ms me ∙ own_left _)
