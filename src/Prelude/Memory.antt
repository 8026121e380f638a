-- ===== src/Prelude/Memory.antt =====
-- `memcmp` and `memcpy` on arrays of bytes.
use Prim.Native.Nat.{ℕ, zero, suc, ◌+◌, ◌-◌, ◌≤◌, ◌<◌}
use mathlib.Core.Path.{◌≡◌, refl, sym, ap, ap₂, ◌∙◌}
use mathlib.Core.Logic.{◌↔◌, ◌≢◌}
use mathlib.Core.Bool.{Bool, true, false, ◌&&◌}
use mathlib.Core.List.{List, [], ◌∷◌, ◌++◌}
use native.Mathlib.Omega.{arith}
use agnostic_lora_net.Prelude.Tests.{◌==◌}
use agnostic_lora_net.Prelude.Lists.{length, get_or, set, take, drop}

-- `memcmp(a, b, n) == 0`, of two strings of one length.
unfoldable pub bytes_eq : List ℕ → List ℕ → Bool
bytes_eq [] [] = true
bytes_eq [] (b ∷ bs) = false
bytes_eq (a ∷ as') [] = false
bytes_eq (a ∷ as') (b ∷ bs) = (a == b) && bytes_eq as' bs

pub bytes_eq→eq : (as' bs : List ℕ) → bytes_eq as' bs ≡ true → as' ≡ bs
unfolding bytes_eq
bytes_eq→eq [] [] h = refl
bytes_eq→eq [] (b ∷ bs) h = absurd (ground arith)
bytes_eq→eq (a ∷ as') [] h = absurd (ground arith)
bytes_eq→eq (a ∷ as') (b ∷ bs) h = ground (arith, bytes_eq→eq as' bs)

pub bytes_eq_refl : (bs : List ℕ) → bytes_eq bs bs ≡ true
unfolding bytes_eq
bytes_eq_refl [] = refl
bytes_eq_refl (b ∷ bs) = ground (arith, bytes_eq_refl bs)

pub bytes_eq_iff : (as' bs : List ℕ) → (bytes_eq as' bs ≡ true) ↔ (as' ≡ bs)
bytes_eq_iff as' bs = (bytes_eq→eq as' bs, λ e. ap (bytes_eq as') (sym e) ∙ bytes_eq_refl as')

-- `memcpy(buf + off, data, len)`. What would go past the end is not written.
unfoldable pub write_at {ℓ} : {A : Type ℓ} → List A → ℕ → List A → List A
write_at [] off xs = []
write_at (b ∷ bs) zero [] = b ∷ bs
write_at (b ∷ bs) zero (x ∷ xs) = x ∷ write_at bs zero xs
write_at (b ∷ bs) (suc off) xs = b ∷ write_at bs off xs

pub length-write_at {ℓ} :
    {A : Type ℓ} (buf : List A) (off : ℕ) (xs : List A) → length (write_at buf off xs) ≡ length buf
unfolding write_at
length-write_at [] off xs = refl
length-write_at (b ∷ bs) zero [] = refl
length-write_at (b ∷ bs) zero (x ∷ xs) = ap suc (length-write_at bs zero xs)
length-write_at (b ∷ bs) (suc off) xs = ap suc (length-write_at bs off xs)

module _ {ℓ} {A : Type ℓ} (d : A) where
  -- A byte inside the range that was written.
  pub get_or-write_at_in :
      (buf : List A) (off : ℕ) (xs : List A) (k : ℕ)
      → off ≤ k
      → k < off + length xs
      → k < length buf
      → get_or (write_at buf off xs) k d ≡ get_or xs (k - off) d
  unfolding write_at
  get_or-write_at_in [] off xs k h lt in' = elim in' [ ]
  get_or-write_at_in (b ∷ bs) zero [] k h lt in' = absurd (omega arith)
  get_or-write_at_in (b ∷ bs) zero (x ∷ xs) zero h lt in' = refl
  get_or-write_at_in (b ∷ bs) zero (x ∷ xs) (suc k) h lt in' =
      let e : suc k - 0 ≡ suc (k - 0) = omega arith in
      rw e (get_or-write_at_in bs zero xs k (omega arith) (omega arith) (omega arith))
  get_or-write_at_in (b ∷ bs) (suc off) xs zero h lt in' = absurd (omega arith)
  get_or-write_at_in (b ∷ bs) (suc off) xs (suc k) h lt in' =
      get_or-write_at_in bs off xs k (omega arith) (omega arith) (omega arith)
      ∙ ap (λ i. get_or xs i d) (omega arith)

  pub get_or-write_at_before :
      (buf : List A) (off : ℕ) (xs : List A) (k : ℕ)
      → k < off
      → get_or (write_at buf off xs) k d ≡ get_or buf k d
  unfolding write_at
  get_or-write_at_before [] off xs k h = refl
  get_or-write_at_before (b ∷ bs) zero xs k h = elim h [ ]
  get_or-write_at_before (b ∷ bs) (suc off) xs zero h = refl
  get_or-write_at_before (b ∷ bs) (suc off) xs (suc k) h =
      get_or-write_at_before bs off xs k (omega arith)

  pub get_or-write_at_after :
      (buf : List A) (off : ℕ) (xs : List A) (k : ℕ)
      → off + length xs ≤ k
      → get_or (write_at buf off xs) k d ≡ get_or buf k d
  unfolding write_at
  get_or-write_at_after [] off xs k h = refl
  get_or-write_at_after (b ∷ bs) zero [] k h = refl
  get_or-write_at_after (b ∷ bs) zero (x ∷ xs) zero h = absurd (omega arith)
  get_or-write_at_after (b ∷ bs) zero (x ∷ xs) (suc k) h =
      get_or-write_at_after bs zero xs k (omega arith)
  get_or-write_at_after (b ∷ bs) (suc off) xs zero h = absurd (omega arith)
  get_or-write_at_after (b ∷ bs) (suc off) xs (suc k) h =
      get_or-write_at_after bs off xs k (omega arith)

  pub get_or-take : (n : ℕ) (xs : List A) (k : ℕ) → k < n → get_or (take n xs) k d ≡ get_or xs k d
  get_or-take zero xs k h = elim h [ ]
  get_or-take (suc n) [] k h = refl
  get_or-take (suc n) (x ∷ xs) zero h = refl
  get_or-take (suc n) (x ∷ xs) (suc k) h = get_or-take n xs k (omega arith)

  pub get_or-drop : (n : ℕ) (xs : List A) (k : ℕ) → get_or (drop n xs) k d ≡ get_or xs (n + k) d
  get_or-drop zero xs k = let e : 0 + k ≡ k = omega arith in rw e
  get_or-drop (suc n) [] k = refl
  get_or-drop (suc n) (x ∷ xs) k =
      let e : suc n + k ≡ suc (n + k) = omega arith in rw e (get_or-drop n xs k)

  -- Two arrays that agree below `n` have one prefix.
  pub take_ext :
      (n : ℕ) (xs ys : List A)
      → n ≤ length xs
      → length ys ≡ n
      → ((k : ℕ) → k < n → get_or xs k d ≡ get_or ys k d)
      → take n xs ≡ ys
  take_ext zero xs [] h e f = refl
  take_ext zero xs (y ∷ ys) h e f = absurd (omega arith)
  take_ext (suc n) [] ys h e f = elim h [ ]
  take_ext (suc n) (x ∷ xs) [] h e f = absurd (omega arith)
  take_ext (suc n) (x ∷ xs) (y ∷ ys) h e f =
      ap₂ ◌∷◌ (f 0 (omega arith))
        (take_ext n xs ys (omega arith) (omega arith) (λ k lt. f (suc k) (omega arith)))

  pub get_or-set_self : (xs : List A) (i : ℕ) (v : A) → i < length xs → get_or (set xs i v) i d ≡ v
  get_or-set_self [] i v h = elim h [ ]
  get_or-set_self (x ∷ xs) zero v h = refl
  get_or-set_self (x ∷ xs) (suc i) v h = get_or-set_self xs i v (omega arith)

  pub get_or-set_ne :
      (xs : List A) (i j : ℕ) (v : A) → i ≢ j → get_or (set xs i v) j d ≡ get_or xs j d
  get_or-set_ne [] i j v h = refl
  get_or-set_ne (x ∷ xs) zero zero v h = absurd (h refl)
  get_or-set_ne (x ∷ xs) zero (suc j) v h = refl
  get_or-set_ne (x ∷ xs) (suc i) zero v h = refl
  get_or-set_ne (x ∷ xs) (suc i) (suc j) v h = get_or-set_ne xs i j v (λ e. h (ap suc e))

  pub get_or-append : (xs ys : List A) (k : ℕ) → get_or (xs ++ ys) (length xs + k) d ≡ get_or ys k d
  get_or-append [] ys k = let e : 0 + k ≡ k = omega arith in rw e
  get_or-append (x ∷ xs) ys k =
      let e : suc (length xs) + k ≡ suc (length xs + k) = omega arith in
      rw e (get_or-append xs ys k)
