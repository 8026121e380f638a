-- ===== src/Sar/Bitmap.antt =====
-- The bitmap of received fragments: how many of the first `n` bits are set.
use agnostic_lora_net.Prelude.{
  min, add-one, ℕ, zero, suc, ◌+◌, ◌-◌, ◌≤◌, ◌<◌, ◌≡◌, refl, Bool, true, false, List, [], ◌∷◌,
  arith, length, get_or, set, replicate, if◌then◌else◌, inl, inr, Bool-cases, get_or-set_self,
  get_or-set_ne, ℕ_discrete,
}
use agnostic_lora_net.Sar.{missing_loop}

abbrev pub bit : List Bool → ℕ → Bool
bit got i = get_or got i false

unfoldable pub ones : ℕ → List Bool → ℕ
ones zero got = 0
ones (suc n) got = ones n got + (if bit got n then 1 else 0)

pub ones-le : (n : ℕ) (got : List Bool) → ones n got ≤ n
unfolding ones
ones-le zero got = omega arith
ones-le (suc n) got = ground (arith, ones-le n got)

-- If as many bits are set as there are, all are.
pub ones_full : (n : ℕ) (got : List Bool) (i : ℕ) → ones n got ≡ n → i < n → bit got i ≡ true
unfolding ones
ones_full zero got i e h = elim h [ ]
ones_full (suc n) got i e h = elim (Bool-cases (bit got n)) [
  | inl t ↦ elim (ℕ_discrete i n) [
    | yes s ↦ rw s t
    | no d ↦ ones_full n got i (ground arith) (omega arith)
  ]
  | inr f ↦ absurd (ground (arith, ones-le n got))
]

pub ones_all : (n : ℕ) (got : List Bool) → ((i : ℕ) → i < n → bit got i ≡ true) → ones n got ≡ n
unfolding ones
ones_all zero got h = refl
ones_all (suc n) got h =
    rw (h n (omega arith)) (omega (arith, ones_all n got (λ i lt. h i (omega arith))))

pub bit-replicate : (m i : ℕ) → bit (replicate m false) i ≡ false
bit-replicate zero i = refl
bit-replicate (suc m) zero = refl
bit-replicate (suc m) (suc i) = bit-replicate m i

pub ones-replicate : (n m : ℕ) → ones n (replicate m false) ≡ 0
unfolding ones
ones-replicate zero m = refl
ones-replicate (suc n) m = ground (arith, ones-replicate n m, bit-replicate m n)

ones-set_above : (n : ℕ) (got : List Bool) (i : ℕ) → n ≤ i → ones n (set got i true) ≡ ones n got
unfolding ones
ones-set_above zero got i h = refl
ones-set_above (suc n) got i h =
    rw (ones-set_above n got i (omega arith), get_or-set_ne false got i n true (omega arith))

-- Setting a bit that was clear adds one.
pub ones-set_new :
    (n : ℕ) (got : List Bool) (i : ℕ)
    → i < n
    → i < length got
    → bit got i ≡ false
    → ones n (set got i true) ≡ ones n got + 1
unfolding ones
ones-set_new zero got i h l f = elim h [ ]
ones-set_new (suc n) got i h l f = elim (ℕ_discrete i n) [
  | yes s ↦
      let e : bit (set got n true) n ≡ true = get_or-set_self false got n true (rw (← s) l) in
      let f' : bit got n ≡ false = rw (← s) f in
      rw (s, e, f') (omega (arith, ones-set_above n got n (omega arith)))
  | no d ↦
      rw (get_or-set_ne false got i n true d)
        (omega (arith, ones-set_new n got i (omega arith) l f))
]

set-bit : (g : List Bool) (k : ℕ) → bit g k ≡ true → bit (set g k true) k ≡ true
set-bit [] k t = t
set-bit (x ∷ g) zero t = refl
set-bit (x ∷ g) (suc k) t = set-bit g k t

-- Setting a bit again changes nothing.
pub ones-set_old :
    (n : ℕ) (got : List Bool) (i : ℕ) → bit got i ≡ true → ones n (set got i true) ≡ ones n got
unfolding ones
ones-set_old zero got i t = refl
ones-set_old (suc n) got i t = elim (ℕ_discrete i n) [
  | yes s ↦
      let t' : bit got n ≡ true = rw (← s) t in rw (ones-set_old n got i t, s, t', set-bit got n t')
  | no d ↦ rw (ones-set_old n got i t, get_or-set_ne false got i n true d)
]

abbrev pub All {ℓ κ} : {A : Type ℓ} → (A → Type κ) → List A → Type κ
All P [] = Unit
All P (x ∷ xs) = P x × All P xs

ones_step : (got : List Bool) (i : ℕ) → ones (i + 1) got ≡ ones i got + (if bit got i then 1 else 0)
unfolding ones
ones_step got i = rw add-one

-- The clear bits among `k` from index `i` on.
pub unset : List Bool → ℕ → ℕ → ℕ
unset got zero i = 0
unset got (suc k) i = (if bit got i then 0 else 1) + unset got k (i + 1)

pub unset-ones :
    (got : List Bool) (k i n : ℕ) → i + k ≡ n → unset got k i + ones n got ≡ ones i got + k
unfolding unset
unset-ones got zero i n e = let e' : i ≡ n = omega arith in rw e' (omega arith)
unset-ones got (suc k) i n e =
    ground (arith, unset-ones got k (i + 1) n (omega arith), ones_step got i)

pub length-missing_loop :
    (got : List Bool) (k i room : ℕ) → length (missing_loop got k i room) ≡ min room (unset got k i)
unfolding missing_loop unset
length-missing_loop got zero i room = omega arith
length-missing_loop got (suc k) i room =
    ground
      (arith, length-missing_loop got k (i + 1) room, length-missing_loop got k (i + 1) (room - 1))

pub All-missing_loop :
    (got : List Bool) (k i n room : ℕ)
    → i + k ≡ n
    → All (λ j. (bit got j ≡ false) × (j < n)) (missing_loop got k i room)
unfolding missing_loop
All-missing_loop got zero i n room e = tt
All-missing_loop got (suc k) i n room e = ground (
  arith,
  All-missing_loop got k (i + 1) n room (omega arith),
  All-missing_loop got k (i + 1) n (room - 1) (omega arith),
)

pub ones_zero : (got : List Bool) → ones 0 got ≡ 0
unfolding ones
ones_zero got = refl
