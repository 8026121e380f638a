-- ===== src/Float/Fixed.antt =====
-- A concrete arithmetic in which the theorems that take a `Float` are run: signed fixed-point numbers
-- in millionths.
use agnostic_lora_net.Prelude.{
  ℕ, suc, ◌+◌, ◌-◌, ◌*◌, ◌/◌, ◌^◌, Bool, not, ltb, leb, if◌then◌else◌, ◌==◌,
}
use agnostic_lora_net.Float.{Float}

-- `neg n` is -(n + 1) millionths.
pub data Fixed : Type 0 where
  pos : ℕ → Fixed
  negsuc : ℕ → Fixed

abbrev pos_part : Fixed → ℕ
pos_part (pos n) = n
pos_part (negsuc n) = 0

abbrev neg_part : Fixed → ℕ
neg_part (pos n) = 0
neg_part (negsuc n) = suc n

abbrev diff : ℕ → ℕ → Fixed
diff a b = if leb b a then pos (a - b) else negsuc (b - a - 1)

abbrev scaled : (ℕ → ℕ → ℕ) → Fixed → Fixed → Fixed
scaled f a b =
    diff (f (pos_part a) (pos_part b) + f (neg_part a) (neg_part b))
      (f (pos_part a) (neg_part b) + f (neg_part a) (pos_part b))

-- Division of magnitudes, 0 by 0.
abbrev quotient : ℕ → ℕ → ℕ
quotient a b = if b == 0 then 0 else a * 1_000_000 / b

abbrev below : Fixed → Fixed → Bool
below a b = ltb (pos_part a + neg_part b) (pos_part b + neg_part a)

instance abbrev pub fixed : Float Fixed
fixed = record {
  add = λ a b. diff (pos_part a + pos_part b) (neg_part a + neg_part b);
  sub = λ a b. diff (pos_part a + neg_part b) (neg_part a + pos_part b);
  mul = scaled (λ a b. a * b / 1_000_000);
  div = scaled quotient;
  neg = λ a. diff (neg_part a) (pos_part a);
  lt = below;
  le = λ a b. not (below b a);
  dec = λ m k. pos (m * 1_000_000 / 10 ^ k);
  of_nat = λ n. pos (n * 1_000_000);
  trunc = λ a. pos_part a / 1_000_000;
}
