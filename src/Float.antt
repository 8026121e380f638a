-- ===== src/Float.antt =====
-- The float arithmetic of the target, which the routing core only uses: its operations, its
-- comparisons, and the constants that the source writes as literals.
pub mod Fixed
use agnostic_lora_net.Prelude.{ℕ, Bool, true, false, ◌≡◌}

pub record Float (F : Type 0) : Type 0 where
  pub add : F → F → F
  pub sub : F → F → F
  pub mul : F → F → F
  pub div : F → F → F
  pub neg : F → F
  pub lt : F → F → Bool
  pub le : F → F → Bool
  -- `dec m k` is the literal m / 10 ^ k.
  pub dec : ℕ → ℕ → F
  -- `(float)n` of an unsigned integer, and the integer part of a float that is not negative.
  pub of_nat : ℕ → F
  pub trunc : F → ℕ
