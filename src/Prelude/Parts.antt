-- ===== src/Prelude/Parts.antt =====
-- Fields that stand behind a part of a known length, and words that are read back.
use Prim.Native.Nat.{ℕ, ◌+◌, ◌*◌, ◌/◌, ◌%◌, ◌^◌, ◌<◌}
use mathlib.Core.Path.{◌≡◌, subst}
use mathlib.Core.List.{List, ◌++◌}
use native.Mathlib.Omega.{arith}
use agnostic_lora_net.Prelude.Lists.{
  length, get_or, take, drop, take-append, drop-append, drop-append_past,
}
use agnostic_lora_net.Prelude.Memory.{get_or-append}

module _ (n : ℕ) (part rest : List ℕ) (h : length part ≡ n) where
  pub take-part : take n (part ++ rest) ≡ part
  take-part = subst (λ z. take z (part ++ rest) ≡ part) h (take-append part rest)

  pub drop-part_all : drop n (part ++ rest) ≡ rest
  drop-part_all = subst (λ z. drop z (part ++ rest) ≡ rest) h (drop-append part rest)

  pub drop-part : (k : ℕ) → drop (n + k) (part ++ rest) ≡ drop k rest
  drop-part k =
      subst (λ z. drop (z + k) (part ++ rest) ≡ drop k rest) h (drop-append_past part rest k)

  pub get_or-part : (k : ℕ) → get_or (part ++ rest) (n + k) 0 ≡ get_or rest k 0
  get_or-part k =
      subst (λ z. get_or (part ++ rest) (z + k) 0 ≡ get_or rest k 0) h (get_or-append 0 part rest k)

-- The two bytes of a 16-bit number, and the four of a 32-bit one.
pub pair_lem : (v : ℕ) → v < 2 ^ 16 → v % 256 + 256 * (v / 256 % 256) ≡ v
pair_lem v h = omega (arith, h)

pub quad_lem :
    (v : ℕ)
    → v < 2 ^ 32
    → v % 256 + 256 * (v / 256 % 256) + 65536 * (v / 65536 % 256) + 16777216 * (v / 16777216 % 256)
      ≡ v
quad_lem v h = omega (arith, h)
