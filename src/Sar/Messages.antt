-- ===== src/Sar/Messages.antt =====
-- The NACK and DONE messages of sar.cpp.
use agnostic_lora_net.Prelude.{
  ℕ, zero, suc, ◌+◌, ◌-◌, ◌*◌, ◌/◌, ◌^◌, ◌≤◌, ◌<◌, ◌≡◌, refl, ap, ap₂, ◌∙◌, Bool, true, false, not,
  ◌&&◌, List, [], ◌∷◌, ◌++◌, append_assoc, Option, none, some, arith, ltb, leb, if◌then◌else◌,
  length, take, bytes_eq, put_u16, subst, take_all, ltb_false→le, le→ltb_false, get_u16,
  get_or-append, length-append, length-take, Bool-cases, inl, inr,
}

abbrev pub nack_hdr : ℕ
nack_hdr = 8

abbrev pub done_bytes : ℕ
done_bytes = 6

-- `SARN` and `SARD`
abbrev nack_magic : List ℕ
nack_magic = 0x53 ∷ 0x41 ∷ 0x52 ∷ 0x4e ∷ []

abbrev done_magic : List ℕ
done_magic = 0x53 ∷ 0x41 ∷ 0x52 ∷ 0x44 ∷ []

pub is_nack : List ℕ → Bool
is_nack p = leb nack_hdr (length p) && bytes_eq (take 4 p) nack_magic

abbrev pub put_words : List ℕ → List ℕ
put_words [] = []
put_words (w ∷ ws) = put_u16 w ++ put_words ws

-- `none` is `return 0`; otherwise the bytes written.
unfoldable pub build_nack : ℕ → List ℕ → ℕ → Option (List ℕ)
build_nack xfer missing out_cap =
    let fit = (out_cap - nack_hdr) / 2 in
    let n = if ltb fit (length missing) then fit else length missing in
    if ltb out_cap nack_hdr
    then none
    else some (nack_magic ++ (put_u16 xfer ++ (put_u16 n ++ put_words (take n missing))))

get_words : List ℕ → ℕ → ℕ → List ℕ
get_words p zero off = []
get_words p (suc k) off = get_u16 p off ∷ get_words p k (off + 2)

-- What goes through `xfer_id` (nothing where the payload is no NACK) and the indices written.
pub parse_nack : List ℕ → ℕ → Option ℕ × List ℕ
unfolding get_words
parse_nack p room =
    let n = get_u16 p 6 in
    let held = if ltb (length p) (nack_hdr + n * 2) then (length p - nack_hdr) / 2 else n in
    let k = if ltb room held then room else held in
    if not (is_nack p) then (none, []) else (some (get_u16 p 4), get_words p k nack_hdr)

pub is_done : List ℕ → Bool
is_done p = leb done_bytes (length p) && bytes_eq (take 4 p) done_magic

unfoldable pub build_done : ℕ → ℕ → Option (List ℕ)
build_done xfer out_cap = if ltb out_cap done_bytes then none else some (done_magic ++ put_u16 xfer)

pub parse_done : List ℕ → ℕ
unfolding is_done
parse_done p = if not (is_done p) then 0xffff else get_u16 p 4

abbrev pub AllWords : List ℕ → Type 0
AllWords [] = Unit {0}
AllWords (w ∷ ws) = (w < 2 ^ 16) × AllWords ws

get_u16-append :
    (xs ys : List ℕ) (v off : ℕ)
    → off ≡ length xs
    → v < 2 ^ 16
    → get_u16 (xs ++ (put_u16 v ++ ys)) off ≡ v
get_u16-append xs ys v off e h =
    let a = get_or-append 0 xs (put_u16 v ++ ys) 0 in
    let b = get_or-append 0 xs (put_u16 v ++ ys) 1 in
    let s : off ≡ length xs + 0 = omega arith in
    let t : off + 1 ≡ length xs + 1 = omega arith in rw (t, b) (rw (s, a) (omega arith))

get_words-put :
    (xs ws : List ℕ) (k off : ℕ)
    → off ≡ length xs
    → k ≤ length ws
    → AllWords ws
    → get_words (xs ++ put_words ws) k off ≡ take k ws
unfolding get_words
get_words-put xs ws zero off e h w = refl
get_words-put xs [] (suc k) off e h w = elim h [ ]
get_words-put xs (v ∷ ws) (suc k) off e h w =
    ap₂ ◌∷◌ (get_u16-append xs (put_words ws) v off e w.0) (
      subst (λ l. get_words l k (off + 2) ≡ take k ws) (append_assoc xs (put_u16 v) (put_words ws))
        (get_words-put (xs ++ put_u16 v) ws k (off + 2)
          (omega (arith, length-append xs (put_u16 v))) (omega arith) w.1))

take_min : (n : ℕ) (xs : List ℕ) → take (if ltb n (length xs) then n else length xs) xs ≡ take n xs
take_min n xs = elim (Bool-cases (ltb n (length xs))) [
  | inl t ↦ rw t
  | inr f ↦ rw (f, take_all (length xs) xs (omega arith), take_all n xs (ltb_false→le _ _ f))
]

AllWords-take : (n : ℕ) (ws : List ℕ) → AllWords ws → AllWords (take n ws)
AllWords-take zero ws h = tt
AllWords-take (suc n) [] h = tt
AllWords-take (suc n) (w ∷ ws) h = (h.0, AllWords-take n ws h.1)

length-put_words : (ws : List ℕ) → length (put_words ws) ≡ 2 * length ws
length-put_words [] = omega arith
length-put_words (w ∷ ws) = omega (arith, length-put_words ws)

-- A NACK of a given list, read back with some room.
parse_put :
    (xfer room : ℕ) (ws : List ℕ)
    → xfer < 2 ^ 16
    → length ws < 2 ^ 16
    → AllWords ws
    → parse_nack (nack_magic ++ (put_u16 xfer ++ (put_u16 (length ws) ++ put_words ws))) room
      ≡ (some xfer, take room ws)
parse_put xfer room ws hx hl hw = unfold parse_nack in rw (is, n, x, whole, words, take_min room ws)
  where
    hdr : List ℕ
    hdr = nack_magic ++ (put_u16 xfer ++ put_u16 (length ws))

    p : List ℕ
    p = hdr ++ put_words ws

    is : is_nack p ≡ true
    is = unfold is_nack bytes_eq in ground arith

    n : get_u16 p 6 ≡ length ws
    n = omega arith

    x : get_u16 p 4 ≡ xfer
    x = omega arith

    whole : ltb (length p) (nack_hdr + length ws * 2) ≡ false
    whole = le→ltb_false _ _ (omega (arith, length-put_words ws))

    k : ℕ
    k = if ltb room (length ws) then room else length ws

    words : get_words p k nack_hdr ≡ take k ws
    words = get_words-put hdr ws k nack_hdr (omega arith) (ground arith) hw

-- Where the transfer, the indices and the capacity fit 16 bits and a NACK is built, its receiver reads the transfer and the missing indices that were asked for, as many of
-- them as the sender's buffer held and the receiver has room for.
pub parse_nack-build_nack :
    (xfer room out_cap : ℕ) (missing : List ℕ) {p : List ℕ}
    → xfer < 2 ^ 16
    → out_cap < 2 ^ 16
    → AllWords missing
    → build_nack xfer missing out_cap ≡ some p
    → parse_nack p room ≡ (some xfer, take room (take ((out_cap - nack_hdr) / 2) missing))
parse_nack-build_nack xfer room out_cap missing {p} hx hc hw e = rw s (
    subst
      (λ m.
        parse_nack (nack_magic ++ (put_u16 xfer ++ (put_u16 m ++ put_words ws))) room
        ≡ (some xfer, take room (take fit missing)))
      held
      (parse_put xfer room ws hx (omega (arith, held, n_le)) (AllWords-take n missing hw)
        ∙ ap (λ l. (some xfer, take room l)) (take_min fit missing)))
  where
    fit : ℕ
    fit = (out_cap - nack_hdr) / 2

    n : ℕ
    n = if ltb fit (length missing) then fit else length missing

    ws : List ℕ
    ws = take n missing

    n_le : n ≤ fit
    n_le = ground arith

    held : length ws ≡ n
    held = ground (arith, length-take n missing)

    s : p ≡ nack_magic ++ (put_u16 xfer ++ (put_u16 n ++ put_words ws))
    s = unfold build_nack in ground arith

-- A DONE that is built for a 16-bit transfer id is read back as that id.
pub parse_done-build_done :
    (xfer out_cap : ℕ) {p : List ℕ}
    → xfer < 2 ^ 16
    → build_done xfer out_cap ≡ some p
    → parse_done p ≡ xfer
unfolding parse_done build_done bytes_eq
parse_done-build_done xfer out_cap hx e = ground arith
