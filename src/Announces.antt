-- ===== src/Announces.antt =====
-- lib/mesh/announce_codec.h and announce_codec.cpp: announces on the wire, and their signatures.
mod Tests
pub mod Codec
pub mod RoundTrip
pub mod Signed
use agnostic_lora_net.Prelude.{
  ℕ, suc, zero, ◌+◌, ◌*◌, ◌%◌, Bool, true, false, ◌||◌, List, [], ◌∷◌, ◌++◌, Option, none, some,
  ltb, leb, if◌then◌else◌, length, get_or, take, drop, put_u16, get_u16,
}
use agnostic_lora_net.Crypto.{Ed25519}
use agnostic_lora_net.NodeId.{NodeId, zero_id, nid_read}
use agnostic_lora_net.Float.{Float}
use agnostic_lora_net.Neighbors.{max_neighbors}
use agnostic_lora_net.Routes.{max_routes}
use agnostic_lora_net.Router.{Report, RouteAdv, Announce}

abbrev pub announce_report_bytes : ℕ
announce_report_bytes = 18

abbrev pub announce_route_bytes : ℕ
announce_route_bytes = 35

abbrev pub announce_hdr_bytes : ℕ
announce_hdr_bytes = 2

abbrev pub announce_caps_bytes : ℕ
announce_caps_bytes = 2

abbrev pub announce_has_caps : ℕ
announce_has_caps = 0x80

abbrev pub announce_sig_tail : ℕ
announce_sig_tail = 32 + 64

-- "AGN-ANN-1"
abbrev pub ann_domain : List ℕ
ann_domain = 65 ∷ 71 ∷ 78 ∷ 45 ∷ 65 ∷ 78 ∷ 78 ∷ 45 ∷ 49 ∷ []

abbrev pub ann_view_body_max : ℕ
ann_view_body_max = 256

abbrev pub ann_view : List ℕ → List ℕ → List ℕ
ann_view pubkey body = ann_domain ++ (pubkey ++ body)

abbrev pub header_len : Bool → ℕ
header_len has_caps = announce_hdr_bytes + (if has_caps then announce_caps_bytes else 0)

-- The entries that a loop of `announce_serialize` writes, of `size` bytes each, from offset `off`
-- on: it stops at the first that does not fit.
unfoldable pub fitting {ℓ} : {A : Type ℓ} → ℕ → ℕ → ℕ → List A → List A
fitting size off room [] = []
fitting size off room (x ∷ xs) =
    let rest = fitting size (off + size) room xs in if ltb room (off + size) then [] else x ∷ rest

module _ {F : Type 0} (fl : Float F) where
  abbrev pub q_to_byte : F → ℕ
  q_to_byte q =
      let q' = if fl.lt q (fl.dec 0 0) then fl.dec 0 0 else q in
      let q'' = if fl.lt (fl.dec 1 0) q' then fl.dec 1 0 else q' in
      fl.trunc (fl.add (fl.mul q'' (fl.dec 255 0)) (fl.dec 5 1))

  abbrev pub byte_to_q : ℕ → F
  byte_to_q b = fl.div (fl.of_nat b) (fl.dec 255 0)

  abbrev pub cost_to_u16 : F → ℕ
  cost_to_u16 cost =
      let cost' = if fl.lt cost (fl.dec 0 0) then fl.dec 0 0 else cost in
      let v = fl.add (fl.mul cost' (fl.dec 16 0)) (fl.dec 5 1) in
      fl.trunc (if fl.lt (fl.dec 65535 0) v then fl.dec 65535 0 else v)

  abbrev pub u16_to_cost : ℕ → F
  u16_to_cost v = fl.div (fl.of_nat v) (fl.dec 16 0)

  unfoldable pub put_reports : List (Report F) → List ℕ
  put_reports [] = []
  put_reports (r ∷ rs) = r.id ++ (q_to_byte r.q ∷ r.alias ∷ put_reports rs)

  unfoldable pub put_routes : List (RouteAdv F) → List ℕ
  put_routes [] = []
  put_routes (r ∷ rs) =
      r.dst ++ (r.next_hop ++ (put_u16 (cost_to_u16 r.cost) ++ (r.hops ∷ put_routes rs)))

  -- The bytes written; `none` is `return 0`. Of a count below 128 and the flag, `|` is the sum.
  unfoldable pub serialize : Announce F → ℕ → Option (List ℕ)
  serialize a room =
      let hdr = header_len a.has_caps in
      let reports = fitting announce_report_bytes hdr room a.reports in
      let off = hdr + length reports * announce_report_bytes in
      let routes = fitting announce_route_bytes off room a.routes in
      if ltb room hdr
      then none
      else some (
          (length reports + (if a.has_caps then announce_has_caps else 0))
          ∷ length routes
          ∷ ((if a.has_caps then put_u16 a.caps else [])
              ++ (put_reports reports ++ put_routes routes)))

  unfoldable pub get_reports : ℕ → List ℕ → List (Report F)
  get_reports zero p = []
  get_reports (suc n) p =
      record { id = nid_read p 0; q = byte_to_q (get_or p 16 0); alias = get_or p 17 0 }
      ∷ get_reports n (drop 18 p)

  unfoldable pub get_routes : ℕ → List ℕ → List (RouteAdv F)
  get_routes zero p = []
  get_routes (suc n) p =
      record {
        dst = nid_read p 0;
        next_hop = nid_read p 16;
        cost = u16_to_cost (get_u16 p 32);
        hops = get_or p 34 0;
      }
      ∷ get_routes n (drop 35 p)

  -- `none` is `false`. The flag of a byte is set if it is 128 at least, and the other bits are its
  -- remainder.
  unfoldable pub deserialize : List ℕ → Option (Announce F)
  deserialize buf =
      let has_caps = leb announce_has_caps (get_or buf 0 0) in
      let n_reports = get_or buf 0 0 % announce_has_caps in
      let n_routes = get_or buf 1 0 in
      let hdr = header_len has_caps in
      let routes_at = hdr + n_reports * announce_report_bytes in
      if ltb (length buf) announce_hdr_bytes
      then none
      else if ltb max_neighbors n_reports || ltb max_routes n_routes
      then none
      else if ltb (length buf) (routes_at + n_routes * announce_route_bytes)
      then none
      else some (record {
        origin = zero_id;
        reports = get_reports n_reports (drop hdr buf);
        routes = get_routes n_routes (drop routes_at buf);
        caps = if has_caps then get_u16 buf 2 else 0;
        has_caps = has_caps;
      })

pub body_len : {F : Type 0} → Announce F → ℕ
body_len a =
    header_len a.has_caps
    + length a.reports * announce_report_bytes
    + length a.routes * announce_route_bytes

module _ (c : Ed25519) where
  -- The tail that is written; `none` where nothing is.
  unfoldable pub sign : List ℕ → List ℕ → List ℕ → Option (List ℕ)
  sign body pubkey seckey =
      if ltb ann_view_body_max (length body)
      then none
      else some (pubkey ++ c.sign seckey (ann_view pubkey body))

  -- `announce_verify`, with the key that is written where it returns `true`.
  unfoldable pub verify : List ℕ → List ℕ → Option (List ℕ)
  verify body tail =
      let pubkey = take 32 tail in
      if ltb ann_view_body_max (length body)
      then none
      else if c.check (take 64 (drop 32 tail)) pubkey (ann_view pubkey body)
      then some pubkey
      else none
