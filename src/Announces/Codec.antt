-- ===== src/Announces/Codec.antt =====
-- An announce is read back as it was sent, but for the steps of its qualities and costs.
use agnostic_lora_net.Prelude.{
  ℕ, ◌+◌, ◌*◌, ◌^◌, ◌≤◌, ◌<◌, ◌≡◌, refl, ap, ◌∙◌, inl, inr, false, List, [], ◌∷◌, ◌++◌,
  append_assoc, map, ltb, if◌then◌else◌, length, length-append, put_u16, take-part, drop-part,
  get_or-part, pair_lem, Bool-cases, arith,
}
use agnostic_lora_net.NodeId.{IsNodeId, zero_id}
use agnostic_lora_net.Float.{Float}
use agnostic_lora_net.Router.{Report, RouteAdv, Announce}
use agnostic_lora_net.Announces.{
  announce_report_bytes, announce_route_bytes, header_len, fitting, q_to_byte, byte_to_q,
  cost_to_u16, u16_to_cost, put_reports, put_routes, get_reports, get_routes,
}

pub length-fitting {ℓ} :
    {A : Type ℓ} (size off room : ℕ) (xs : List A) → length (fitting size off room xs) ≤ length xs
unfolding fitting
length-fitting size off room [] = omega arith
length-fitting size off room (x ∷ xs) = elim (Bool-cases (ltb room (off + size))) [
  | inl full ↦ rw full (omega arith)
  | inr fits ↦ rw fits (let r = length-fitting size (off + size) room xs in omega (arith, r))
]

-- Of each entry of a list, a property.
abbrev pub All {ℓ} : {A : Type ℓ} → (A → Type 0) → List A → Type 0
All P [] = Unit {0}
All P (x ∷ xs) = P x × All P xs

pub All-fitting {ℓ} :
    {A : Type ℓ} (P : A → Type 0) (size off room : ℕ) (xs : List A)
    → All P xs
    → All P (fitting size off room xs)
unfolding fitting
All-fitting P size off room [] h = tt
All-fitting P size off room (x ∷ xs) h = elim (Bool-cases (ltb room (off + size))) [
  | inl full ↦ rw full tt
  | inr fits ↦ rw fits (h.0, All-fitting P size (off + size) room xs h.1)
]

-- The literal 65535 bounds what a float below it is cut to.
pub record IsSaturating {F : Type 0} (fl : Float F) : Type 0 where
  pub trunc_max : (a : F) → fl.lt (fl.dec 65535 0) a ≡ false → fl.trunc a ≤ 65535
  pub lt_irrefl : (a : F) → fl.lt a a ≡ false

module _ {F : Type 0} (fl : Float F) where
  abbrev pub IsReport : Report F → Type 0
  IsReport r = IsNodeId r.id

  abbrev pub IsRouteAdv : RouteAdv F → Type 0
  IsRouteAdv r = IsNodeId r.dst × IsNodeId r.next_hop

  -- An entry as it arrives.
  abbrev pub stepped_report : Report F → Report F
  stepped_report r = record r { q = byte_to_q fl (q_to_byte fl r.q) }

  abbrev pub stepped_route : RouteAdv F → RouteAdv F
  stepped_route r = record r { cost = u16_to_cost fl (cost_to_u16 fl r.cost) }

  -- The entries that are sent, and the announce as it arrives: its origin stands in the header.
  abbrev pub sent_reports : Announce F → ℕ → List (Report F)
  sent_reports a room = fitting announce_report_bytes (header_len a.has_caps) room a.reports

  abbrev pub sent_routes : Announce F → ℕ → List (RouteAdv F)
  sent_routes a room =
      fitting announce_route_bytes
        (header_len a.has_caps + length (sent_reports a room) * announce_report_bytes) room a.routes

  abbrev pub sent : Announce F → ℕ → Announce F
  sent a room = record {
    origin = zero_id;
    reports = map stepped_report (sent_reports a room);
    routes = map stepped_route (sent_routes a room);
    caps = if a.has_caps then a.caps else 0;
    has_caps = a.has_caps;
  }

  pub length-put_reports :
      (rs : List (Report F)) → All IsReport rs → length (put_reports fl rs) ≡ length rs * 18
  unfolding put_reports
  length-put_reports [] h = refl
  length-put_reports (r ∷ rs) h =
      let n = length-append r.id (q_to_byte fl r.q ∷ r.alias ∷ put_reports fl rs) in
      let m = length-put_reports rs h.1 in let i = h.0 in omega (arith, n, m, i)

  pub get_reports-put_reports :
      (rs : List (Report F)) (rest : List ℕ)
      → All IsReport rs
      → get_reports fl (length rs) (put_reports fl rs ++ rest) ≡ map stepped_report rs
  unfolding put_reports get_reports
  get_reports-put_reports [] rest h = refl
  get_reports-put_reports (r ∷ rs) rest h =
      let body = q_to_byte fl r.q ∷ r.alias ∷ put_reports fl rs in
      let after = body ++ rest in
      let at = get_or-part 16 r.id after h.0 in
      rw (
        append_assoc r.id body rest,
        take-part 16 r.id after h.0,
        at 0,
        at 1,
        drop-part 16 r.id after h.0 2,
        get_reports-put_reports rs rest h.1,
      )

  pub length-put_routes :
      (rs : List (RouteAdv F)) → All IsRouteAdv rs → length (put_routes fl rs) ≡ length rs * 35
  unfolding put_routes
  length-put_routes [] h = refl
  length-put_routes (r ∷ rs) h =
      let tail = put_u16 (cost_to_u16 fl r.cost) ++ (r.hops ∷ put_routes fl rs) in
      let n = length-append r.dst (r.next_hop ++ tail) in
      let n' = length-append r.next_hop tail in
      let m = length-put_routes rs h.1 in
      let i = h.0.0 in let j = h.0.1 in omega (arith, n, n', m, i, j)

  module _ (sat : IsSaturating fl) where
    cost_to_u16_bound : (cost : F) → cost_to_u16 fl cost < 2 ^ 16
    cost_to_u16_bound cost =
        let cost' = if fl.lt cost (fl.dec 0 0) then fl.dec 0 0 else cost in
        let v = fl.add (fl.mul cost' (fl.dec 16 0)) (fl.dec 5 1) in
        elim (Bool-cases (fl.lt (fl.dec 65535 0) v)) [
          | inl over ↦
              let le = sat.trunc_max (fl.dec 65535 0) (sat.lt_irrefl (fl.dec 65535 0)) in
              rw (cost_to_u16, over) (omega (arith, le))
          | inr under ↦
              let le = sat.trunc_max v under in rw (cost_to_u16, under) (omega (arith, le))
        ]

    pub get_routes-put_routes :
        (rs : List (RouteAdv F)) (rest : List ℕ)
        → All IsRouteAdv rs
        → get_routes fl (length rs) (put_routes fl rs ++ rest) ≡ map stepped_route rs
    unfolding put_routes get_routes
    get_routes-put_routes [] rest h = refl
    get_routes-put_routes (r ∷ rs) rest h =
        let tail = put_u16 (cost_to_u16 fl r.cost) ++ (r.hops ∷ put_routes fl rs) in
        let after = tail ++ rest in
        let body : (r.dst ++ (r.next_hop ++ tail)) ++ rest ≡ r.dst ++ (r.next_hop ++ after) =
          append_assoc r.dst (r.next_hop ++ tail) rest
          ∙ ap (λ z. r.dst ++ z) (append_assoc r.next_hop tail rest) in
        let at = get_or-part 16 r.dst (r.next_hop ++ after) h.0.0 in
        let at' = get_or-part 16 r.next_hop after h.0.1 in
        rw (
          body,
          take-part 16 r.dst (r.next_hop ++ after) h.0.0,
          drop-part 16 r.dst (r.next_hop ++ after) h.0.0 0,
          take-part 16 r.next_hop after h.0.1,
          at 16,
          at 17,
          at 18,
          at' 0,
          at' 1,
          at' 2,
          pair_lem (cost_to_u16 fl r.cost) (cost_to_u16_bound r.cost),
          drop-part 16 r.dst (r.next_hop ++ after) h.0.0 19,
          drop-part 16 r.next_hop after h.0.1 3,
          get_routes-put_routes rs rest h.1,
        )
