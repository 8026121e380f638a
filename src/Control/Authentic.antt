-- ===== src/Control/Authentic.antt =====
-- A command is accepted only if its bytes were signed and it is newer than the last one.
use agnostic_lora_net.Prelude.{
  ℕ, suc, zero, ◌+◌, ◌-◌, ◌≤◌, ◌<◌, ◌≡◌, ◌⊎◌, ◌≢◌, refl, sym, ap, ◌∙◌, inl, inr, true, false, not,
  ◌||◌, List, [], ◌∷◌, ltb, leb, ◌==◌, if◌then◌else◌, length, get_or, get_or-take, take, drop,
  get_u32, Bool-cases, leb_false→lt, le→leb, arith,
}
use agnostic_lora_net.Crypto.{Ed25519}
use agnostic_lora_net.Control.{
  CtrlVerdict, CtrlMsg, ctrl_ver, ctrl_msg_bytes, ctrl_retune, is_blocking, unsigned_len, known_cmd,
  signed_view, filled, verify,
}

take-drop-take :
    (n k m : ℕ) (xs : List ℕ) → k + n ≤ m → take n (drop k (take m xs)) ≡ take n (drop k xs)
take-drop-take zero k m xs h = refl
take-drop-take (suc n) zero zero xs h = absurd (omega arith)
take-drop-take (suc n) zero (suc m) [] h = refl
take-drop-take (suc n) zero (suc m) (x ∷ xs) h =
    ap (λ z. x ∷ z) (take-drop-take n zero m xs (omega arith))
take-drop-take (suc n) (suc k) zero xs h = absurd (omega arith)
take-drop-take (suc n) (suc k) (suc m) [] h = refl
take-drop-take (suc n) (suc k) (suc m) (x ∷ xs) h = take-drop-take (suc n) k m xs (omega arith)

unsigned_len_cases :
    (cmd : ℕ)
    → ((is_blocking cmd ≡ true) × (unsigned_len cmd ≡ 39))
      ⊎ (((is_blocking cmd ≡ false) × ((cmd == ctrl_retune) ≡ true) × (unsigned_len cmd ≡ 35))
          ⊎ ((is_blocking cmd ≡ false) × ((cmd == ctrl_retune) ≡ false) × (unsigned_len cmd ≡ 23)))
unsigned_len_cases cmd = elim (Bool-cases (is_blocking cmd)) [
  | inl b ↦ inl (b, rw b)
  | inr b ↦ elim (Bool-cases (cmd == ctrl_retune)) [
    | inl r ↦ inr (inl (b, r, rw (b, r)))
    | inr r ↦ inr (inr (b, r, rw (b, r)))
  ]
]

get_u32-take : (m k : ℕ) (xs : List ℕ) → k + 4 ≤ m → get_u32 (take m xs) k ≡ get_u32 xs k
get_u32-take m k xs h = rw (
  get_or-take 0 m xs k (omega (arith, h)),
  get_or-take 0 m xs (k + 1) (omega (arith, h)),
  get_or-take 0 m xs (k + 2) (omega (arith, h)),
  get_or-take 0 m xs (k + 3) (omega (arith, h)),
)

-- Everything that is read from a message is read from its signed bytes.
filled-signed :
    (c : Ed25519) (msg : List ℕ) (counter : ℕ) (out : CtrlMsg)
    → let ulen = unsigned_len (get_or msg 1 0) in
      filled c msg counter out ≡ filled c (take ulen msg) counter out
filled-signed c msg counter out =
    let cmd = get_or msg 1 0 in
    elim (unsigned_len_cases cmd) [
      | inl (b, e) ↦
          let r : (cmd == ctrl_retune) ≡ false = ground arith in
          rw (
            e,
            get_or-take 0 39 msg 1 (omega arith),
            r,
            b,
            take-drop-take 16 2 39 msg (omega arith),
            get_or-take 0 39 msg 18 (omega arith),
            take-drop-take 16 19 39 msg (omega arith),
          )
      | inr (inl (b, r, e)) ↦ rw (
        e,
        get_or-take 0 35 msg 1 (omega arith),
        r,
        take-drop-take 16 2 35 msg (omega arith),
        take-drop-take 13 18 35 msg (omega arith),
      )
      | inr (inr (b, r, e)) ↦ rw (
        e,
        get_or-take 0 23 msg 1 (omega arith),
        r,
        b,
        take-drop-take 16 2 23 msg (omega arith),
        get_or-take 0 23 msg 18 (omega arith),
      )
    ]

-- What an accepted message is.
pub record IsAuthentic (c : Ed25519) (msg pubkey : List ℕ) (min_counter : ℕ) (out out' : CtrlMsg)
    : Type 0 where
  pub ulen : ℕ
  pub known : known_cmd (get_or msg 1 0) ≡ true
  pub is_ulen : ulen ≡ unsigned_len (get_or msg 1 0)
  pub checked : c.check (take 64 (drop ulen msg)) pubkey (signed_view msg ulen) ≡ true
  pub fields : out' ≡ filled c (take ulen msg) (get_u32 (take ulen msg) (ulen - 4)) out
  pub fresh : min_counter < out'.counter

filled-counter :
    (c : Ed25519) (msg : List ℕ) (counter : ℕ) (out : CtrlMsg)
    → (filled c msg counter out).counter ≡ counter
filled-counter c msg counter out = elim (Bool-cases (get_or msg 1 0 == ctrl_retune)) [
  | inl r ↦ rw r
  | inr r ↦ rw r
]

unsigned_len_low : (cmd : ℕ) → 23 ≤ unsigned_len cmd
unsigned_len_low cmd = elim (unsigned_len_cases cmd) [
  | inl (_, e) ↦ omega (arith, e)
  | inr (inl (_, _, e)) ↦ omega (arith, e)
  | inr (inr (_, _, e)) ↦ omega (arith, e)
]

-- The tests that stand before that of the counter do not depend on the floor.
verify_cases :
    (c : Ed25519) (msg pubkey : List ℕ)
    → let ulen = unsigned_len (get_or msg 1 0) in
      ((v : CtrlVerdict) × ((floor : ℕ) (out : CtrlMsg) → verify c msg pubkey floor out ≡ (v, out))
        × (v ≢ CtrlVerdict.ok))
      ⊎ ((known_cmd (get_or msg 1 0) ≡ true)
          × (c.check (take 64 (drop ulen msg)) pubkey (signed_view msg ulen) ≡ true)
          × ((floor : ℕ) (out : CtrlMsg)
              → let counter = get_u32 msg (ulen - 4) in
                verify c msg pubkey floor out ≡ (
                  if leb counter floor
                  then (CtrlVerdict.replay, out)
                  else (CtrlVerdict.ok, filled c msg counter out))))
unfolding verify
verify_cases c msg pubkey =
    let cmd = get_or msg 1 0 in
    let ulen = unsigned_len cmd in
    elim (Bool-cases (ltb (length msg) ctrl_msg_bytes || not (get_or msg 0 0 == ctrl_ver))) [
      | inl t ↦ inl (CtrlVerdict.malformed, λ floor out. rw t, λ e. absurd (ground arith))
      | inr f ↦ elim (Bool-cases (known_cmd cmd)) [
        | inr k ↦ inl (CtrlVerdict.malformed, λ floor out. rw (f, k), λ e. absurd (ground arith))
        | inl k ↦ elim (Bool-cases (ltb (length msg) (ulen + 64))) [
          | inl t ↦
              inl (CtrlVerdict.malformed, λ floor out. rw (f, k, t), λ e. absurd (ground arith))
          | inr w ↦
              elim (Bool-cases (c.check (take 64 (drop ulen msg)) pubkey (signed_view msg ulen))) [
                | inr bad ↦ inl (
                  CtrlVerdict.bad_sig,
                  λ floor out. rw (f, k, w, bad),
                  λ e. absurd (ground arith),
                )
                | inl good ↦ inr (k, good, λ floor out. rw (f, k, w, good))
              ]
        ]
      ]
    ]

module _ (c : Ed25519) (msg pubkey : List ℕ) (min_counter : ℕ) (out : CtrlMsg) where
  -- What is written to `out` and the counter, where a message is accepted.
  accepted :
      (out' : CtrlMsg)
      → verify c msg pubkey min_counter out ≡ (CtrlVerdict.ok, out')
      → let ulen = unsigned_len (get_or msg 1 0) in
        let counter = get_u32 msg (ulen - 4) in
        (known_cmd (get_or msg 1 0) ≡ true)
        × (c.check (take 64 (drop ulen msg)) pubkey (signed_view msg ulen) ≡ true)
        × (out' ≡ filled c msg counter out)
        × (out'.counter ≡ counter)
        × (min_counter < counter)
  accepted out' e = elim (verify_cases c msg pubkey) [
    | inl (v, same, bad) ↦ absurd (bad (ap (λ z. z.0) (sym (same min_counter out) ∙ e)))
    | inr (k, good, same) ↦
        let counter = get_u32 msg (unsigned_len (get_or msg 1 0) - 4) in
        elim (Bool-cases (leb counter min_counter)) [
          | inl old ↦
              absurd (replay≢ok (ap (λ z. z.0) (sym (rw old at (same min_counter out)) ∙ e)))
          | inr new ↦
              let is_out : filled c msg counter out ≡ out' =
                ap (λ z. z.1) (sym (rw new at (same min_counter out)) ∙ e) in
              (
                k,
                good,
                sym is_out,
                ap (λ (z : CtrlMsg). z.counter) (sym is_out) ∙ filled-counter c msg counter out,
                leb_false→lt counter min_counter new,
              )
        ]
  ]
    where
      replay≢ok : CtrlVerdict.replay ≢ CtrlVerdict.ok
      replay≢ok h = absurd (ground arith)

  -- Whatever key and floor a node has, what it accepts is a known command whose signature checks
  -- over the domain tag and the unsigned part, each field that it hands on is read from that signed
  -- part, and the counter is above the floor.
  pub verify-IsAuthentic :
      (out' : CtrlMsg)
      → verify c msg pubkey min_counter out ≡ (CtrlVerdict.ok, out')
      → IsAuthentic c msg pubkey min_counter out out'
  verify-IsAuthentic out' e =
      let cmd = get_or msg 1 0 in
      let ulen = unsigned_len cmd in
      let counter = get_u32 msg (ulen - 4) in
      let (k, good, is_out, n, lt) = accepted out' e in
      let same : get_u32 (take ulen msg) (ulen - 4) ≡ counter =
        let lo = unsigned_len_low cmd in get_u32-take ulen (ulen - 4) msg (omega (arith, lo)) in
      record {
        ulen = ulen;
        known = k;
        is_ulen = refl;
        checked = good;
        fields =
            is_out
            ∙ (filled-signed c msg counter out
                ∙ ap (λ z. filled c (take ulen msg) z out) (sym same));
        fresh = omega (arith, n, lt);
      }

  -- A message that was accepted is a replay to every node whose floor has reached its counter.
  pub verify_again :
      (out' out'' : CtrlMsg) (floor : ℕ)
      → verify c msg pubkey min_counter out ≡ (CtrlVerdict.ok, out')
      → out'.counter ≤ floor
      → verify c msg pubkey floor out'' ≡ (CtrlVerdict.replay, out'')
  verify_again out' out'' floor e h = elim (verify_cases c msg pubkey) [
    | inl (v, same, bad) ↦ absurd (bad (ap (λ z. z.0) (sym (same min_counter out) ∙ e)))
    | inr (k, good, same) ↦
        let counter = get_u32 msg (unsigned_len (get_or msg 1 0) - 4) in
        let (_, _, _, n, _) = accepted out' e in
        let old : leb counter floor ≡ true = le→leb counter floor (omega (arith, n, h)) in
        rw old at (same floor out'')
  ]
