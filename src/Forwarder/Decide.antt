-- ===== src/Forwarder/Decide.antt =====
-- What each decision on a packet means, and that no packet is handled twice.
use agnostic_lora_net.Prelude.{
  ℕ, zero, suc, ◌+◌, ◌≤◌, ◌≡◌, ◌≢◌, ◌⊎◌, refl, sym, ap, ◌∙◌, subst, inl, inr, Bool, true, false,
  List, [], ◌∷◌, leb, length, any, bytes_eq, bytes_eq→eq, bytes_eq_refl, Bool-cases, arith,
}
use mathlib.Core.Bool.{false≢true}
use agnostic_lora_net.NodeId.{NodeId, broadcast, zero_id, is_zero}
use agnostic_lora_net.Float.{Float}
use agnostic_lora_net.Router
use agnostic_lora_net.Router.{Router, make, is_blocked}
use agnostic_lora_net.Router.History.{Reaches, next_hop-is_blocked, Reaches-IsSound}
use agnostic_lora_net.Forwarder.{
  Forwarder, PacketRef, Decision, deliver, forward, drop_own, drop_dup, drop_ttl, drop_no_route,
  no_hop, is_entry, seen_or_insert, decide, decide_new,
}
use agnostic_lora_net.Forwarder.Seen.{
  IsValid, Keeps, Keeps-known, seen_or_insert-IsValid, seen_or_insert-Keeps,
  seen_or_insert-Keeps-suc,
}

abbrev pub was_seen : Forwarder → PacketRef → Bool
was_seen f p = any (is_entry p.src p.pkt_id) f.seen

eq→bytes_ne : {a b : NodeId} → bytes_eq a b ≡ false → a ≢ b
eq→bytes_ne {a} f e = false≢true (sym f ∙ (ap (bytes_eq a) (sym e) ∙ bytes_eq_refl a))

-- The packet is new and another node's.
abbrev pub IsNew : Forwarder → PacketRef → Type 0
IsNew f p = (p.src ≢ f.me) × (was_seen f p ≡ false)

-- It is for another node.
abbrev pub IsTransit : Forwarder → PacketRef → Type 0
IsTransit f p = (p.dst ≢ f.me) × (p.dst ≢ broadcast)

module _ {F : Type 0} where
  -- What a decision on a packet says of it.
  abbrev pub Accounts : Router F → Forwarder → PacketRef → Decision → Type 0
  Accounts r f p d = elim d.action [
    | drop_own ↦ p.src ≡ f.me
    | drop_dup ↦ (p.src ≢ f.me) × (was_seen f p ≡ true)
    | deliver ↦ IsNew f p × ((p.dst ≡ f.me) ⊎ (p.dst ≡ broadcast))
    | drop_ttl ↦ IsNew f p × IsTransit f p × (p.ttl ≤ 1)
    | drop_no_route ↦ IsNew f p × IsTransit f p × (2 ≤ p.ttl) × (Router.next_hop r p.dst ≡ zero_id)
    | forward ↦
        IsNew f p
        × IsTransit f p
        × (2 ≤ p.ttl)
        × (d.next_hop ≡ Router.next_hop r p.dst)
        × (d.next_hop ≢ zero_id)
        × (d.out_ttl + 1 ≡ p.ttl)
  ]

  decide_new-Accounts :
      (r : Router F) (f : Forwarder) (p : PacketRef)
      → IsNew f p
      → Accounts r f p (decide_new r f.me p)
  unfolding decide_new
  decide_new-Accounts r f p new = elim (Bool-cases (bytes_eq p.dst f.me)) [
    | inl mine ↦ rw mine (new, inl (bytes_eq→eq p.dst f.me mine))
    | inr far ↦ elim (Bool-cases (bytes_eq p.dst broadcast)) [
      | inl all ↦ rw (far, all) (new, inr (bytes_eq→eq p.dst broadcast all))
      | inr one ↦
          let transit : IsTransit f p = (eq→bytes_ne far, eq→bytes_ne one) in
          elim (Bool-cases (leb p.ttl 1)) [
            | inl low ↦ rw (far, one, low) (new, transit, ground arith)
            | inr high ↦
                let enough : 2 ≤ p.ttl = ground arith in
                elim (Bool-cases (is_zero (Router.next_hop r p.dst))) [
                  | inl lost ↦
                      rw (far, one, high, lost)
                        (new, transit, enough, bytes_eq→eq (Router.next_hop r p.dst) zero_id lost)
                  | inr there ↦
                      rw (far, one, high, there)
                        (new, transit, enough, refl, eq→bytes_ne there, omega (arith, enough))
                ]
          ]
    ]
  ]

  -- Whatever the router, the cache and the packet, the decision is the right one: a packet of the
  -- node's own and one seen before are dropped, a new one for the node or for all is delivered, and
  -- another is forwarded to the router's next hop, which is not the zero id, with one less to live,
  -- unless it has at most one to live or there is no route.
  pub decide-Accounts :
      (r : Router F) (f : Forwarder) (p : PacketRef) → Accounts r f p (decide r f p).1
  unfolding decide seen_or_insert
  decide-Accounts r f p = elim (Bool-cases (bytes_eq p.src f.me)) [
    | inl own ↦ rw own (bytes_eq→eq p.src f.me own)
    | inr far ↦ elim (Bool-cases (was_seen f p)) [
      | inl known ↦ rw (far, known) (eq→bytes_ne far, known)
      | inr new ↦ rw (far, new) (decide_new-Accounts r f p (eq→bytes_ne far, new))
    ]
  ]

  -- The decisions on a sequence of packets, each with the router as it then is.
  pub decide_all : Forwarder → List (Router F × PacketRef) → Forwarder
  decide_all f [] = f
  decide_all f ((r, p) ∷ ps) = decide_all (decide r f p).0 ps

  decide_cases :
      (r : Router F) (f : Forwarder) (p : PacketRef)
      → ((decide r f p).0 ≡ f) ⊎ ((decide r f p).0 ≡ (seen_or_insert f p.src p.pkt_id).0)
  unfolding decide
  decide_cases r f p = elim (Bool-cases (bytes_eq p.src f.me)) [
    | inl own ↦ inl (rw own)
    | inr far ↦ elim (Bool-cases (seen_or_insert f p.src p.pkt_id).1) [
      | inl known ↦ inr (rw (far, known))
      | inr new ↦ inr (rw (far, new))
    ]
  ]

  pub decide-IsValid :
      (r : Router F) (f : Forwarder) (p : PacketRef) → IsValid f → IsValid (decide r f p).0
  decide-IsValid r f p v = elim (decide_cases r f p) [
    | inl e ↦ subst IsValid (sym e) v
    | inr e ↦ subst IsValid (sym e) (seen_or_insert-IsValid f p.src p.pkt_id v)
  ]

  decide-me : (r : Router F) (f : Forwarder) (p : PacketRef) → (decide r f p).0.me ≡ f.me
  unfolding decide seen_or_insert
  decide-me r f p = ground arith

  decide_all-me : (ps : List (Router F × PacketRef)) (f : Forwarder) → (decide_all f ps).me ≡ f.me
  unfolding decide_all
  decide_all-me [] f = refl
  decide_all-me ((r, p) ∷ ps) f = decide_all-me ps (decide r f p).0 ∙ decide-me r f p

  decide_all-known :
      (ps : List (Router F × PacketRef)) (f : Forwarder) (q : PacketRef) (n : ℕ)
      → IsValid f
      → Keeps f q.src q.pkt_id n
      → length ps ≤ n
      → was_seen (decide_all f ps) q ≡ true
  unfolding decide_all
  decide_all-known [] f q n v k le = Keeps-known f q.src q.pkt_id n k
  decide_all-known ((r, p) ∷ ps) f q zero v k le = absurd (omega (arith, le))
  decide_all-known ((r, p) ∷ ps) f q (suc n) v k le =
      decide_all-known ps (decide r f p).0 q n (decide-IsValid r f p v) kept (omega (arith, le))
    where
      weaker : Keeps f q.src q.pkt_id n
      weaker = record {
        place = k.place;
        age = k.age;
        there = k.there;
        left = k.left;
        few = k.few;
        long = let long = k.long in omega (arith, long);
      }

      kept : Keeps (decide r f p).0 q.src q.pkt_id n
      kept = elim (decide_cases r f p) [
        | inl e ↦ subst (λ z. Keeps z q.src q.pkt_id n) (sym e) weaker
        | inr e ↦
            subst (λ z. Keeps z q.src q.pkt_id n) (sym e)
              (seen_or_insert-Keeps-suc f q.src q.pkt_id n p.src p.pkt_id v k)
      ]

  -- With a valid cache, a packet that was new, and of another node, is dropped as a duplicate when it comes again, with
  -- any destination and any time to live, if at most 63 packets came in between, whatever they were
  -- and however the routes changed.
  pub decide_again :
      (r : Router F) (f : Forwarder) (p : PacketRef) (ps : List (Router F × PacketRef))
      (r' : Router F) (q : PacketRef)
      → IsValid f
      → p.src ≢ f.me
      → was_seen f p ≡ false
      → length ps ≤ 63
      → q.src ≡ p.src
      → q.pkt_id ≡ p.pkt_id
      → decide r' (decide_all (decide r f p).0 ps) q
        ≡ (decide_all (decide r f p).0 ps, no_hop drop_dup)
  unfolding decide seen_or_insert
  decide_again r f p ps r' q v far new few es ei =
      drop (decide_all (decide r f p).0 ps)
        (λ h. far (sym es ∙ (h ∙ (decide_all-me ps (decide r f p).0 ∙ decide-me r f p))))
        (decide_all-known ps (decide r f p).0 q 63 (decide-IsValid r f p v) kept few)
    where
      inserted : (decide r f p).0 ≡ (seen_or_insert f p.src p.pkt_id).0
      inserted = elim (Bool-cases (bytes_eq p.src f.me)) [
        | inl own ↦ absurd (far (bytes_eq→eq p.src f.me own))
        | inr other ↦ elim (Bool-cases (was_seen f p)) [
          | inl known ↦ rw (other, known)
          | inr fresh ↦ rw (other, fresh)
        ]
      ]

      kept : Keeps (decide r f p).0 q.src q.pkt_id 63
      kept = rw (inserted, es, ei) (seen_or_insert-Keeps f p.src p.pkt_id v (rw new))

      drop :
          (g : Forwarder)
          → q.src ≢ g.me
          → was_seen g q ≡ true
          → decide r' g q ≡ (g, no_hop drop_dup)
      drop g other known = elim (Bool-cases (bytes_eq q.src g.me)) [
        | inl own ↦ absurd (other (bytes_eq→eq q.src g.me own))
        | inr o ↦ rw (o, known)
      ]

  -- A node that relays by its own router, whatever history of beacons, ticks, blocks and unblocks
  -- that router has gone through, never names a blocked neighbour as the next hop.
  pub decide-is_blocked :
      ⦃fl : Float F⦄ (me : NodeId) (r : Router F) (f : Forwarder) (p : PacketRef)
      → Reaches (make me) r
      → f.me ≡ me
      → is_blocked r (decide r f p).1.next_hop ≡ false
  unfolding decide decide_new
  decide-is_blocked me r f p rs same =
      let none_ = (Reaches-IsSound me rs).no_zero in
      elim (Bool-cases (bytes_eq p.dst f.me)) [
        | inl mine ↦ ground (arith, none_)
        | inr far ↦
            let hop = next_hop-is_blocked me rs p.dst (λ h. eq→bytes_ne far (h ∙ sym same)) in
            ground (arith, none_, hop)
      ]
