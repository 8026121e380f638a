-- ===== src/Kiss/Capacity.antt =====
-- How much room `kiss_encode` takes and when it refuses.
use agnostic_lora_net.Prelude.{
  ℕ, ◌+◌, ◌*◌, ◌≤◌, ◌<◌, ◌≡◌, refl, List, [], ◌∷◌, ◌++◌, some, inl, inr, arith, length, ltb, ◌==◌,
  Bool-cases, map-eq-some, if◌then◌else◌, le→ltb_false,
}
use agnostic_lora_net.Kiss.{encode, encode_loop, fend, fesc, tfend, tfesc}

-- The form that a byte takes between two delimiters.
abbrev pub stuffed : ℕ → List ℕ
stuffed b = if b == fend then fesc ∷ tfend ∷ [] else if b == fesc then fesc ∷ tfesc ∷ [] else b ∷ []

pub encode_loop-some :
    (room n b : ℕ) (bs out : List ℕ)
    → encode_loop room n (b ∷ bs) ≡ some out
    → (rest : List ℕ) × (encode_loop room (n + length (stuffed b)) bs ≡ some rest)
      × (out ≡ stuffed b ++ rest)
      × (n + length (stuffed b) < room)
unfolding encode_loop
encode_loop-some room n b bs out e = elim (Bool-cases (b == fend)) [
  | inl p ↦
      let (rest, q, s) =
        map-eq-some (λ out. fesc ∷ tfend ∷ out) (encode_loop room (n + 2) bs) {b = out}
          (ground arith) in
      (rest, rw p q, rw p s, ground arith)
  | inr p ↦ elim (Bool-cases (b == fesc)) [
    | inl p' ↦
        let (rest, q, s) =
          map-eq-some (λ out. fesc ∷ tfesc ∷ out) (encode_loop room (n + 2) bs) {b = out}
            (ground arith) in
        (rest, rw (p, p') q, rw (p, p') s, ground arith)
    | inr p' ↦
        let (rest, q, s) =
          map-eq-some (λ out. b ∷ out) (encode_loop room (n + 1) bs) {b = out} (ground arith) in
        (rest, rw (p, p') q, rw (p, p') s, ground arith)
  ]
]

encode_loop-le :
    (room n : ℕ) (bs out : List ℕ)
    → n < room
    → encode_loop room n bs ≡ some out
    → n + length out ≤ room
encode_loop-le room n [] out h e = unfold encode_loop in ground arith
encode_loop-le room n (b ∷ bs) out h e =
    let (rest, q, s, lt) = encode_loop-some room n b bs out e in
    ground (arith, encode_loop-le room (n + length (stuffed b)) bs rest)

-- What `encode` writes is never longer than the capacity that it was given.
pub length-encode-le :
    (cmd : ℕ) (payload : List ℕ) (room : ℕ) {out : List ℕ}
    → encode cmd payload room ≡ some out
    → length out ≤ room
unfolding encode
length-encode-le cmd payload room {out} e = elim (Bool-cases (ltb room 4)) [
  | inl small ↦ absurd (ground arith)
  | inr big ↦
      let (rest, q, s) =
        map-eq-some (λ out. fend ∷ out) (encode_loop room 1 (cmd ∷ payload)) {b = out}
          (rw big at e) in
      ground (arith, encode_loop-le room 1 (cmd ∷ payload) rest)
]

encode_loop_total :
    (room n : ℕ) (bs : List ℕ)
    → n + 2 * length bs < room
    → (out : List ℕ) × (encode_loop room n bs ≡ some out)
unfolding encode_loop
encode_loop_total room n [] h = (_, refl)
encode_loop_total room n (b ∷ bs) h =
    let (one, e₁) = encode_loop_total room (n + 1) bs (omega arith) in
    let (two, e₂) = encode_loop_total room (n + 2) bs (omega arith) in
    elim (Bool-cases (b == fend)) [
      | inl p ↦ (fesc ∷ tfend ∷ two, rw (p, le→ltb_false room (n + 3) (omega arith), e₂))
      | inr p ↦ elim (Bool-cases (b == fesc)) [
        | inl p' ↦ (fesc ∷ tfesc ∷ two, rw (p, p', le→ltb_false room (n + 3) (omega arith), e₂))
        | inr p' ↦ (b ∷ one, rw (p, p', le→ltb_false room (n + 2) (omega arith), e₁))
      ]
    ]

-- A buffer of two bytes for each byte of the frame and two for the delimiters is always enough.
pub encode_total :
    (cmd : ℕ) (payload : List ℕ) (room : ℕ)
    → 2 * length payload + 4 ≤ room
    → (out : List ℕ) × (encode cmd payload room ≡ some out)
unfolding encode
encode_total cmd payload room h =
    let (out, e) = encode_loop_total room 1 (cmd ∷ payload) (omega arith) in
    (fend ∷ out, rw (le→ltb_false room 4 (omega arith), e))
