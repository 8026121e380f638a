-- ===== src/Prelude/Words.antt =====
-- Fixed-width unsigned words as native numbers, and little-endian byte strings.
use Prim.Native.Nat.{ℕ, ◌+◌, ◌-◌, ◌*◌, ◌/◌, ◌%◌, ◌^◌, ◌<◌}
use mathlib.Core.Bool.{Bool}
use mathlib.Core.List.{List, [], ◌∷◌, ◌++◌}
use agnostic_lora_net.Prelude.Tests.{leb}
use agnostic_lora_net.Prelude.Lists.{get_or}

-- `uint32_t` sums and differences wrap.
abbrev pub add32 : ℕ → ℕ → ℕ
add32 a b = (a + b) % 2 ^ 32

abbrev pub sub32 : ℕ → ℕ → ℕ
sub32 a b = (a + 2 ^ 32 - b) % 2 ^ 32

-- `(int32_t)(a - b) < 0`: the sign bit of the wrapped difference.
abbrev pub before32 : ℕ → ℕ → Bool
before32 a b = leb (2 ^ 31) (sub32 a b)

abbrev pub IsByte : ℕ → Type 0
IsByte b = b < 256

abbrev pub AllBytes : List ℕ → Type 0
AllBytes [] = Unit {0}
AllBytes (b ∷ bs) = IsByte b × AllBytes bs

-- `put_u16` and `put_u32`: the bytes written, low byte first.
abbrev pub put_u16 : ℕ → List ℕ
put_u16 v = (v % 256) ∷ (v / 256 % 256) ∷ []

abbrev pub put_u32 : ℕ → List ℕ
put_u32 v = (v % 256) ∷ (v / 256 % 256) ∷ (v / 65536 % 256) ∷ (v / 16777216 % 256) ∷ []

-- `get_u16(p + i)` and `get_u32(p + i)`. On bytes the source's `|` of shifted bytes is their sum.
abbrev pub get_u16 : List ℕ → ℕ → ℕ
get_u16 p i = get_or p i 0 + 256 * get_or p (i + 1) 0

abbrev pub get_u32 : List ℕ → ℕ → ℕ
get_u32 p i =
    get_or p i 0
    + 256 * get_or p (i + 1) 0
    + 65536 * get_or p (i + 2) 0
    + 16777216 * get_or p (i + 3) 0

pub AllBytes-append : (xs ys : List ℕ) → AllBytes xs → AllBytes ys → AllBytes (xs ++ ys)
AllBytes-append [] ys h k = k
AllBytes-append (x ∷ xs) ys h k = (h.0, AllBytes-append xs ys h.1 k)
