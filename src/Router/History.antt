-- ===== src/Router/History.antt =====
-- What holds of a router after any history of calls.
use agnostic_lora_net.Prelude.{
  ℕ, ◌≡◌, ◌≢◌, refl, ◌∙◌, inl, inr, false, Option-cases, bytes_eq, find_index, arith,
}
use agnostic_lora_net.NodeId.{NodeId}
use agnostic_lora_net.Float.{Float}
use agnostic_lora_net.Routes
use agnostic_lora_net.Routes.{Route}
use agnostic_lora_net.Router.{
  Router, Announce, make, is_blocked, block, unblock, on_beacon, tick, next_hop,
}
use agnostic_lora_net.Router.Blocking.{
  IsSound, make-IsSound, on_beacon-IsSound, tick-IsSound, block-IsSound, unblock-IsSound,
}

module _ {F : Type 0} ⦃fl : Float F⦄ where
  -- One call that changes the router, and the router after it.
  pub data Step (r : Router F) : Router F → Type 0 where
    beacon :
        (from : NodeId) (q : F) (a : Announce F) (now_ms : ℕ) → Step r (on_beacon r from q a now_ms)
    aged :
        (now_ms neighbor_timeout_ms route_timeout_ms : ℕ)
        → Step r (tick r now_ms neighbor_timeout_ms route_timeout_ms)
    shut : (id : NodeId) → Step r (block r id).0
    opened : (id : NodeId) → Step r (unblock r id)

  -- The routers that a history of calls leads to.
  pub data Reaches (r : Router F) : Router F → Type 0 where
    here : Reaches r r
    then_ : {s t : Router F} → Reaches r s → Step s t → Reaches r t

  step-IsSound : {r s : Router F} → Step r s → IsSound r → IsSound s
  step-IsSound {r} (beacon from q a now_ms) h = on_beacon-IsSound r from q a now_ms h
  step-IsSound {r} (aged now_ms nt rt) h = tick-IsSound r now_ms nt rt h
  step-IsSound {r} (shut id) h = block-IsSound r id h
  step-IsSound {r} (opened id) h = unblock-IsSound r id h

  -- Whatever history of beacons, ticks, blocks and unblocks a new router has gone through, both
  -- tables of it are valid, its own route is there, and the block list has at most eight ids, none
  -- of them its own or zero.
  pub Reaches-IsSound : (me : NodeId) {r : Router F} → Reaches (make me) r → IsSound r
  Reaches-IsSound me here = make-IsSound me
  Reaches-IsSound me (then_ rs s) = step-IsSound s (Reaches-IsSound me rs)

  step-my_id : {r s : Router F} → Step r s → s.my_id ≡ r.my_id
  unfolding on_beacon tick block unblock
  step-my_id {r} (beacon from q a now_ms) = ground arith
  step-my_id {r} (aged now_ms nt rt) = refl
  step-my_id {r} (shut id) = ground arith
  step-my_id {r} (opened id) = elim (Option-cases (find_index (λ b. bytes_eq b id) r.blocked)) [
    | inl e ↦ rw (e, unblock)
    | inr (i, e) ↦ rw (e, unblock)
  ]

  pub Reaches-my_id : (me : NodeId) {r : Router F} → Reaches (make me) r → r.my_id ≡ me
  unfolding make
  Reaches-my_id me here = refl
  Reaches-my_id me (then_ rs s) = step-my_id s ∙ Reaches-my_id me rs

  -- The next hop that a router gives for another node is never a blocked one, whatever history of
  -- beacons, ticks, blocks and unblocks a new router has gone through.
  pub next_hop-is_blocked :
      (me : NodeId) {r : Router F}
      → Reaches (make me) r
      → (d : NodeId) → d ≢ me
      → is_blocked r (next_hop r d) ≡ false
  unfolding next_hop Routes.next_hop is_blocked
  next_hop-is_blocked me {r} rs d far = elim (Option-cases (Routes.lookup r.routes d)) [
    | inl e ↦ rw (e, Routes.next_hop) (Reaches-IsSound me rs).no_zero
    | inr (x, e) ↦
        rw (e, Routes.next_hop)
          ((Reaches-IsSound me rs).routes.avoids d x (λ h. far (h ∙ Reaches-my_id me rs)) e)
  ]
