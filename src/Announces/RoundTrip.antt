-- ===== src/Announces/RoundTrip.antt =====
-- An announce that is sent is read back, whatever stands behind it.
use agnostic_lora_net.Prelude.{
  ℕ, ◌+◌, ◌*◌, ◌%◌, ◌^◌, ◌≤◌, ◌<◌, ◌≡◌, refl, ap, ◌∙◌, inl, inr, Bool, true, false, List, [], ◌∷◌,
  ◌++◌, append_assoc, some, map, ltb, leb, if◌then◌else◌, length, length-append, length-map, drop,
  put_u16, get_u16, drop-part, drop-part_all, pair_lem, le→ltb_false, le→leb, Bool-cases, arith,
}
use agnostic_lora_net.NodeId.{zero_id}
use agnostic_lora_net.Float.{Float}
use agnostic_lora_net.Neighbors.{max_neighbors}
use agnostic_lora_net.Routes.{max_routes}
use agnostic_lora_net.Router.{Report, RouteAdv, Announce}
use agnostic_lora_net.Announces.{
  announce_report_bytes, announce_route_bytes, announce_hdr_bytes, announce_has_caps, header_len,
  put_reports, put_routes, serialize, deserialize, body_len,
}
use agnostic_lora_net.Announces.Codec.{
  All, All-fitting, length-fitting, IsSaturating, IsReport, IsRouteAdv, stepped_report,
  stepped_route, sent_reports, sent_routes, sent, length-put_reports, get_reports-put_reports,
  length-put_routes, get_routes-put_routes,
}

module _ {F : Type 0} (fl : Float F) (sat : IsSaturating fl) where
  -- What is read from a header and the entries behind it.
  deserialize_parts :
      (x : ℕ) (caps : List ℕ) (has_caps : Bool) (rs : List (Report F)) (ts : List (RouteAdv F))
      (rest : List ℕ)
      → leb announce_has_caps x ≡ has_caps
      → x % announce_has_caps ≡ length rs
      → 2 + length caps ≡ header_len has_caps
      → All (IsReport fl) rs
      → All (IsRouteAdv fl) ts
      → length rs ≤ max_neighbors
      → length ts ≤ max_routes
      → let buf = x ∷ length ts ∷ (caps ++ (put_reports fl rs ++ (put_routes fl ts ++ rest))) in
        deserialize fl buf
        ≡ some (record {
          origin = zero_id;
          reports = map (stepped_report fl) rs;
          routes = map (stepped_route fl) ts;
          caps = if has_caps then get_u16 buf 2 else 0;
          has_caps = has_caps;
        })
  unfolding deserialize
  deserialize_parts x caps has_caps rs ts rest hx hn hc hr ht lr lt =
      let n = length rs in
      let m = length ts in
      let tail = put_routes fl ts ++ rest in
      let head = x ∷ m ∷ caps in
      let buf = x ∷ m ∷ (caps ++ (put_reports fl rs ++ tail)) in
      let hdr = header_len has_caps in
      let reports_at : drop hdr buf ≡ put_reports fl rs ++ tail =
        drop-part_all hdr head (put_reports fl rs ++ tail) (rw (← hc) (omega arith)) in
      let routes_at : drop (hdr + n * announce_report_bytes) buf ≡ tail =
        drop-part hdr head (put_reports fl rs ++ tail) (rw (← hc) (omega arith)) (n * 18)
        ∙ drop-part_all (n * 18) (put_reports fl rs) tail (length-put_reports fl rs hr) in
      let a = length-append caps (put_reports fl rs ++ tail) in
      let b = length-append (put_reports fl rs) tail in
      let c = length-append (put_routes fl ts) rest in
      let d = length-put_reports fl rs hr in
      let e = length-put_routes fl ts ht in
      rw (
        hx,
        hn,
        le→ltb_false (length buf) announce_hdr_bytes (omega arith),
        le→ltb_false max_neighbors n lr,
        le→ltb_false max_routes m lt,
        le→ltb_false (length buf) (hdr + n * announce_report_bytes + m * announce_route_bytes)
            (omega (arith, a, b, c, d, e, hc)),
        reports_at,
        routes_at,
        get_reports-put_reports fl rs tail hr,
        get_routes-put_routes fl sat ts rest ht,
      )

  -- The bytes of the entries, with the capabilities or without.
  abbrev wire : Bool → ℕ → List (Report F) → List (RouteAdv F) → List ℕ
  wire has_caps caps rs ts =
      (length rs + (if has_caps then announce_has_caps else 0))
      ∷ length ts
      ∷ ((if has_caps then put_u16 caps else []) ++ (put_reports fl rs ++ put_routes fl ts))

  abbrev arrived : Bool → ℕ → List (Report F) → List (RouteAdv F) → Announce F
  arrived has_caps caps rs ts = record {
    origin = zero_id;
    reports = map (stepped_report fl) rs;
    routes = map (stepped_route fl) ts;
    caps = if has_caps then caps else 0;
    has_caps = has_caps;
  }

  deserialize-wire :
      (has_caps : Bool) (caps : ℕ) (rs : List (Report F)) (ts : List (RouteAdv F)) (rest : List ℕ)
      → All (IsReport fl) rs
      → All (IsRouteAdv fl) ts
      → length rs ≤ max_neighbors
      → length ts ≤ max_routes
      → caps < 2 ^ 16
      → deserialize fl (wire has_caps caps rs ts ++ rest) ≡ some (arrived has_caps caps rs ts)
  deserialize-wire true caps rs ts rest hr ht lr lt hc =
      let n = length rs in
      let flag : leb announce_has_caps (n + 128) ≡ true =
        le→leb announce_has_caps (n + 128) (omega arith) in
      let all : (put_reports fl rs ++ put_routes fl ts) ++ rest
          ≡ put_reports fl rs ++ (put_routes fl ts ++ rest) =
        append_assoc (put_reports fl rs) (put_routes fl ts) rest in
      rw all (
        deserialize_parts (n + 128) (put_u16 caps) true rs ts rest flag (omega (arith, lr)) refl hr
          ht lr lt
        ∙ ap (λ z. some (record (arrived true caps rs ts) { caps = z })) (pair_lem caps hc))
  deserialize-wire false caps rs ts rest hr ht lr lt hc =
      let n = length rs in
      let flag : leb announce_has_caps (n + 0) ≡ false =
        let lo : n < 128 = omega (arith, lr) in ground arith in
      let all : (put_reports fl rs ++ put_routes fl ts) ++ rest
          ≡ put_reports fl rs ++ (put_routes fl ts ++ rest) =
        append_assoc (put_reports fl rs) (put_routes fl ts) rest in
      rw all
        (deserialize_parts (n + 0) [] false rs ts rest flag (omega (arith, lr)) refl hr ht lr lt)

  length-wire :
      (has_caps : Bool) (caps : ℕ) (rs : List (Report F)) (ts : List (RouteAdv F))
      → All (IsReport fl) rs
      → All (IsRouteAdv fl) ts
      → body_len (arrived has_caps caps rs ts) ≡ length (wire has_caps caps rs ts)
  unfolding body_len
  length-wire has_caps caps rs ts hr ht =
      let r = length-put_reports fl rs hr in
      let t = length-put_routes fl ts ht in
      let both = length-append (put_reports fl rs) (put_routes fl ts) in
      let mr = length-map (stepped_report fl) rs in
      let mt = length-map (stepped_route fl) ts in
      elim has_caps as (λ k. body_len (arrived k caps rs ts) ≡ length (wire k caps rs ts)) [
        | true ↦ omega (arith, r, t, both, mr, mt)
        | false ↦ omega (arith, r, t, both, mr, mt)
      ]

  -- An announce whose ids have sixteen bytes, whose capabilities have 16 bits and whose entries fit
  -- the tables is read back from the bytes that were written, whatever follows them: the reports
  -- and routes that had room, in order, each quality and cost as its step, with the capabilities.
  -- The length of its body is then the number of the bytes that were written, so that the tail of
  -- the signature is found behind them. The bound of the costs holds of the float arithmetic.
  pub deserialize-serialize :
      (a : Announce F) (room : ℕ) (rest : List ℕ) {p : List ℕ}
      → All (IsReport fl) a.reports
      → All (IsRouteAdv fl) a.routes
      → length a.reports ≤ max_neighbors
      → length a.routes ≤ max_routes
      → a.caps < 2 ^ 16
      → serialize fl a room ≡ some p
      → (deserialize fl (p ++ rest) ≡ some (sent fl a room))
        × (body_len (sent fl a room) ≡ length p)
  unfolding serialize body_len
  deserialize-serialize a room rest {p} hr ht lr lt hc e =
      let rs = sent_reports fl a room in
      let ts = sent_routes fl a room in
      let hdr = header_len a.has_caps in
      let off = hdr + length rs * announce_report_bytes in
      let hr' = All-fitting (IsReport fl) announce_report_bytes hdr room a.reports hr in
      let ht' = All-fitting (IsRouteAdv fl) announce_route_bytes off room a.routes ht in
      let lr' = length-fitting announce_report_bytes hdr room a.reports in
      let lt' = length-fitting announce_route_bytes off room a.routes in
      elim (Bool-cases (ltb room hdr)) [
        | inl small ↦ absurd (ground arith)
        | inr fits ↦
            let s : some (wire a.has_caps a.caps rs ts) ≡ some p = rw fits at e in
            let s' : wire a.has_caps a.caps rs ts ≡ p = ground arith in
            rw (← s') (
              deserialize-wire a.has_caps a.caps rs ts rest hr' ht' (omega (arith, lr, lr'))
                  (omega (arith, lt, lt')) hc,
              length-wire a.has_caps a.caps rs ts hr' ht',
            )
      ]
