-- ===== src/Announces/Signed.antt =====
-- The signature of an announce: what it verifies against, and whose it is.
use agnostic_lora_net.Prelude.{
  ℕ, ◌≤◌, ◌≡◌, sym, inl, inr, true, List, ◌++◌, some, ltb, length, take, drop, take-part, drop-part,
  take_all, ap, ◌∙◌, ◌⊎◌, get_or, length-take, drop-part_all, Bool-cases, ltb_false→le, arith,
}
use agnostic_lora_net.Crypto.{Ed25519, IsKeyPair}
use agnostic_lora_net.Control.{signed_view}
use agnostic_lora_net.Announces.{ann_view, ann_view_body_max, sign, verify}

module _ (c : Ed25519) where
  -- Under keys that belong together, the tail that is made for a body verifies for that body, and
  -- gives the public key of 32 bytes.
  pub verify-sign :
      (seckey pubkey body : List ℕ) {tail : List ℕ}
      → IsKeyPair c seckey pubkey
      → length pubkey ≡ 32
      → sign c body pubkey seckey ≡ some tail
      → verify c body tail ≡ some pubkey
  unfolding sign verify
  verify-sign seckey pubkey body {tail} pair h e =
      elim (Bool-cases (ltb ann_view_body_max (length body))) [
        | inl long ↦ absurd (ground arith)
        | inr fits ↦
            let sig = c.sign seckey (ann_view pubkey body) in
            let s : pubkey ++ sig ≡ tail = ground arith in
            let n = pair.whole (ann_view pubkey body) in
            rw (
              fits,
              ← s,
              take-part 32 pubkey sig h,
              drop-part 32 pubkey sig h 0,
              take_all 64 sig (omega (arith, n)),
              pair.checks (ann_view pubkey body),
            )
      ]

  -- A tail that is accepted carries the key that is given out, and its signature checks under that
  -- key over the domain tag, the key and the body, which has at most 256 bytes.
  pub verify-some :
      (body tail : List ℕ) {pubkey : List ℕ}
      → verify c body tail ≡ some pubkey
      → (pubkey ≡ take 32 tail)
        × (length body ≤ ann_view_body_max)
        × (c.check (take 64 (drop 32 tail)) pubkey (ann_view pubkey body) ≡ true)
  unfolding verify
  verify-some body tail {pubkey} e = elim (Bool-cases (ltb ann_view_body_max (length body))) [
    | inl long ↦ absurd (ground arith)
    | inr fits ↦
        elim (Bool-cases
          (c.check (take 64 (drop 32 tail)) (take 32 tail) (ann_view (take 32 tail) body))) [
            | inr bad ↦ absurd (ground arith)
            | inl good ↦
                let s : take 32 tail ≡ pubkey = ground arith in
                (sym s, ltb_false→le ann_view_body_max (length body) fits, rw s at good)
          ]
  ]

  -- No one but the holder of a key has an announce accepted under it. Let the signature check accept
  -- under `pubkey` only what its holder signed, and let the holder have signed nothing but announces,
  -- each of a body and with a key of 32 bytes in it, and control messages. Then a body that is accepted
  -- with a tail of 32 bytes or more, and the key that is given out for it, are such an announce of the
  -- holder: neither a signed command nor an announce with another key or body can be passed off as it.
  pub verify_authentic :
      (Signed : List ℕ → Type 0) (Announced : List ℕ → List ℕ → Type 0) (pubkey body tail : List ℕ)
      → ((sig message : List ℕ) → c.check sig pubkey message ≡ true → Signed message)
      → ((message : List ℕ)
          → Signed message
          → ((key : List ℕ) × (body' : List ℕ) × (length key ≡ 32)
              × (message ≡ ann_view key body')
              × Announced key body')
            ⊎ ((part : List ℕ) × (ulen : ℕ) × (message ≡ signed_view part ulen)))
      → 32 ≤ length tail
      → verify c body tail ≡ some pubkey
      → Announced pubkey body
  verify_authentic Signed Announced pubkey body tail unforged signs whole e =
      let (given, _, good) = verify-some body tail e in
      let n : length pubkey ≡ 32 =
        let m = length-take 32 tail in ap length given ∙ omega (arith, m, whole) in
      elim (signs (ann_view pubkey body)
        (unforged (take 64 (drop 32 tail)) (ann_view pubkey body) good)) [
          | inr (part, ulen, same) ↦
              let fifth : 65 ≡ 67 = ap (λ z. get_or z 4 0) same in absurd (omega (arith, fifth))
          | inl (key, body', n', same, announced) ↦
              let rest : pubkey ++ body ≡ key ++ body' = ap (drop 9) same in
              let k : key ≡ pubkey =
                sym (take-part 32 key body' n')
                ∙ (ap (take 32) (sym rest) ∙ take-part 32 pubkey body n) in
              let b : body' ≡ body =
                sym (drop-part_all 32 key body' n')
                ∙ (ap (drop 32) (sym rest) ∙ drop-part_all 32 pubkey body n) in
              rw (k, b) at announced
        ]
