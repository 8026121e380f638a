-- ===== src/Routes/Drops.antt =====
-- Which routes go when a neighbour dies and when time passes.
use agnostic_lora_net.Prelude.{
  ℕ, ◌≡◌, sym, ◌∙◌, inl, inr, Bool, true, not, ◌&&◌, Option, none, some, map, ltb, if◌then◌else◌,
  find-map, bytes_eq, sub32, Apart, Bool-cases, Option-cases, arith, find-find_index,
}
use mathlib.Core.Bool.{false≢true}
use agnostic_lora_net.NodeId.{NodeId}
use agnostic_lora_net.Float.{Float}
use agnostic_lora_net.Routes.{
  Route, RoutingTable, holds, lookup, drop_if, prune, drop_via, is_stale, goes_via,
}
use agnostic_lora_net.Routes.Valid.{IsValid, holds→}

-- The route that is left of `old` where the routes that pass the test go.
abbrev pub left : {F : Type 0} → (Route F → Bool) → Option (Route F) → Option (Route F)
left test old = elim old [ none ↦ none | some r ↦ if test r then none else some r ]

module _ {F : Type 0} ⦃fl : Float F⦄ (t : RoutingTable F) (v : IsValid t) where
  one_holds : (d : NodeId) → Apart (λ a b. holds d a ≡ true → holds d b ≡ true → ⊥) t.slots
  one_holds d i j a b ga gb ne ha hb =
      let (ua, ea) = holds→ d a ha in
      let (ub, eb) = holds→ d b hb in v.unique i j a b ga gb ne ua ub (ea ∙ sym eb)

  drop_if_keeps :
      (test : Route F → Bool) (d : NodeId) (a : Route F)
      → holds d (drop_if test a) ≡ true
      → holds d a ≡ true
  drop_if_keeps test d a h = elim (Bool-cases (test a)) [
    | inl t' ↦ absurd (false≢true (rw t' at h))
    | inr f ↦ rw f at h
  ]

  lookup-drop_if :
      (test : Route F → Bool) (d : NodeId)
      → lookup (record t { slots = map (drop_if test) t.slots }) d ≡ left test (lookup t d)
  unfolding lookup
  lookup-drop_if test d = elim (find-find_index (holds d) t.slots) [
    | inl (e, _) ↦
        find-map (holds d) t.slots (drop_if test) (one_holds d) (drop_if_keeps test d) ∙ rw e
    | inr (i, a, e, _, g, h) ↦
        find-map (holds d) t.slots (drop_if test) (one_holds d) (drop_if_keeps test d)
        ∙ elim (Bool-cases (test a)) [ inl on ↦ rw (e, on) | inr off ↦ rw (e, off, h) ]
  ]

  found : (d : NodeId) (r : Route F) → lookup t d ≡ some r → (r.used ≡ true) × (r.dst ≡ d)
  unfolding lookup
  found d r l = elim (find-find_index (holds d) t.slots) [
    | inl (e, _) ↦ absurd (ground arith)
    | inr (i, a, e, _, g, h) ↦ let s : a ≡ r = ground arith in holds→ d r (rw (← s) h)
  ]

  left_ext :
      (d : NodeId) (test test' : Route F → Bool)
      → ((r : Route F) → (r.used ≡ true) × (r.dst ≡ d) → test r ≡ test' r)
      → left test (lookup t d) ≡ left test' (lookup t d)
  left_ext d test test' h = elim (Option-cases (lookup t d)) [
    | inl e ↦ rw e
    | inr (r, e) ↦ rw (e, h r (found d r e))
  ]

  -- In a valid table, when a neighbour is given up, exactly the routes that go through it are gone, but for the node's
  -- own route.
  pub lookup-drop_via :
      (via d : NodeId)
      → lookup (drop_via t via) d
        ≡ left (λ r. not (bytes_eq d t.self) && bytes_eq r.next_hop via) (lookup t d)
  unfolding drop_via
  lookup-drop_via via d =
      lookup-drop_if (goes_via t via) d ∙ left_ext d (goes_via t via) _ (λ r h. rw (h.0, h.1))

  -- In a valid table, ageing drops exactly the routes that were last refreshed more than `timeout_ms` ago, but for the
  -- node's own route.
  pub lookup-prune :
      (now_ms timeout_ms : ℕ) (d : NodeId)
      → lookup (prune t now_ms timeout_ms) d
        ≡ left
            (λ r. not (bytes_eq d t.self) && ltb timeout_ms (sub32 now_ms r.updated_ms))
            (lookup t d)
  unfolding prune
  lookup-prune now_ms timeout_ms d =
      lookup-drop_if (is_stale t now_ms timeout_ms) d
      ∙ left_ext d (is_stale t now_ms timeout_ms) _ (λ r h. rw (h.0, h.1))
