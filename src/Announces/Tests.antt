-- ===== src/Announces/Tests.antt =====
-- The theorems on announces, at a concrete one with one report and one route.
use agnostic_lora_net.Prelude.{
  ℕ, ◌+◌, ◌≤◌, ◌≡◌, refl, true, false, List, [], ◌∷◌, ◌++◌, some, replicate, length, bytes_eq,
  bytes_eq→eq, inl, arith, ltb_false→le,
}
use agnostic_lora_net.Crypto.{Ed25519}
use agnostic_lora_net.Float.Fixed.{Fixed, pos, negsuc, fixed}
use agnostic_lora_net.Router.{Announce}
use agnostic_lora_net.Announces.{
  fitting, put_reports, put_routes, serialize, deserialize, body_len, ann_view, verify,
}
use agnostic_lora_net.Announces.Codec.{IsSaturating, sent}
use agnostic_lora_net.Announces.RoundTrip.{deserialize-serialize}
use agnostic_lora_net.Announces.Signed.{verify_authentic}

fixed-IsSaturating : IsSaturating fixed
fixed-IsSaturating = record { trunc_max = small; lt_irrefl = λ a. ground arith }
  where
    small : (a : Fixed) → fixed.lt (fixed.dec 65535 0) a ≡ false → fixed.trunc a ≤ 65535
    small (pos n) h = let le = ltb_false→le (65_535_000_000 + 0) (n + 0) h in omega (arith, le)
    small (negsuc n) h = omega arith

abbrev some_announce : Announce Fixed
some_announce = record {
  origin = replicate 16 2;
  reports = record { id = replicate 16 1; q = pos 500_000; alias = 9 } ∷ [];
  routes =
      record { dst = replicate 16 3; next_hop = replicate 16 4; cost = pos 1_000_000; hops = 1 }
      ∷ [];
  caps = 5;
  has_caps = true;
}

abbrev wire : List ℕ
wire =
    129
    ∷ 1
    ∷ 5
    ∷ 0
    ∷ (replicate 16 1 ++ (128 ∷ 9 ∷ (replicate 16 3 ++ (replicate 16 4 ++ (16 ∷ 0 ∷ 1 ∷ [])))))

serializes : serialize fixed some_announce 200 ≡ some wire
unfolding serialize fitting put_reports put_routes
serializes = refl

deserialize-serialize_example :
    (deserialize fixed (wire ++ (7 ∷ [])) ≡ some (sent fixed some_announce 200))
    × (body_len (sent fixed some_announce 200) ≡ length wire)
deserialize-serialize_example =
    deserialize-serialize fixed fixed-IsSaturating some_announce 200 (7 ∷ []) (refl, tt)
      ((refl, refl), tt) (omega arith) (omega arith) (omega arith) serializes

abbrev key : List ℕ
key = replicate 32 6

abbrev tail : List ℕ
tail = key ++ replicate 64 0

-- A check that accepts under every key the one announce that was signed.
abbrev signed_once : Ed25519
signed_once = record {
  sign = λ k m. replicate 64 0;
  check = λ sig k m. bytes_eq m (ann_view key wire);
}

verifies : verify signed_once wire tail ≡ some key
unfolding verify bytes_eq
verifies = refl

verify_authentic_example : (key ≡ key) × (wire ≡ wire)
verify_authentic_example =
    verify_authentic signed_once (λ m. m ≡ ann_view key wire) (λ k b. (k ≡ key) × (b ≡ wire)) key
      wire tail (λ sig m h. bytes_eq→eq m (ann_view key wire) h)
      (λ m h. inl (key, wire, refl, h, (refl, refl))) (omega arith) verifies
