-- ===== src/Firmware/Expiry.antt =====
-- Blocks expire: what `ctrl_blk_set` notes, and what `ctrl_blk_sweep` does when the time has come.
use agnostic_lora_net.Prelude.{
  ℕ, suc, zero, ◌+◌, ◌-◌, ◌*◌, ◌%◌, ◌^◌, ◌≤◌, ◌<◌, ◌≡◌, ◌⊎◌, refl, sym, ◌∙◌, subst, inl, inr, true,
  false, not, ◌&&◌, List, [], ◌∷◌, some, ◌==◌, leb, if◌then◌else◌, get_elem?, get_elem?-modify_self,
  find_index, find_index-some, bytes_eq, bytes_eq→eq, add32, Bool-cases, Option-cases, arith,
  &&_true, Every, Every-cons, ==_iff, bytes_eq_refl, find_index-none,
}
use mathlib.Core.Bool.{false≢true}
use agnostic_lora_net.NodeId.{NodeId}
use agnostic_lora_net.Router
use agnostic_lora_net.Router.{Router}
use agnostic_lora_net.Firmware.{BlockTtl, no_block, is_free, is_due, blk_set, blk_sweep}

-- Room for a victim: an entry of its own, or a free one.
abbrev pub HasRoom : List BlockTtl → NodeId → Type 0
HasRoom bs victim =
    (i : ℕ) × (b : BlockTtl) × (get_elem? bs i ≡ some b)
    × ((is_free b ≡ true) ⊎ (b.victim ≡ victim))

abbrev expiry : ℕ → ℕ → ℕ
expiry ttl_min now_ms =
    let exp = add32 now_ms (ttl_min * 60000 % 2 ^ 32) in if exp == 0 then 1 else exp

-- An entry is due once its time to live has passed, and one millisecond more, since the time 0
-- stands for a free entry.
due_after :
    (victim : NodeId) (ttl_min now_ms late_ms : ℕ)
    → ttl_min ≤ 120
    → 1 ≤ late_ms
    → late_ms < 2 ^ 31
    → is_due
        (add32 now_ms (ttl_min * 60000 + late_ms))
        (record { victim = victim; expiry_ms = expiry ttl_min now_ms })
      ≡ true
due_after victim ttl_min now_ms late_ms h lo hi =
    let exp = add32 now_ms (ttl_min * 60000 % 2 ^ 32) in
    let later = add32 now_ms (ttl_min * 60000 + late_ms) in
    elim (Bool-cases (exp == 0)) [
      | inl z ↦
          let at : exp ≡ 0 = (==_iff exp 0).0 z in
          let small : (later + 2 ^ 32 - 1) % 2 ^ 32 < 2 ^ 31 = omega (arith, at, lo, hi, h) in
          let past : leb (2 ^ 31) ((later + 2 ^ 32 - 1) % 2 ^ 32) ≡ false = ground arith in
          rw (z, past)
      | inr z ↦
          let small : (later + 2 ^ 32 - exp) % 2 ^ 32 < 2 ^ 31 = omega (arith, lo, hi, h) in
          let past : leb (2 ^ 31) ((later + 2 ^ 32 - exp) % 2 ^ 32) ≡ false = ground arith in
          rw (z, z, past)
    ]

-- A block of at most 120 minutes that has room is noted, and its entry is due once the time to live
-- and a millisecond have passed, for the next 2^31 ms. The clock may wrap in between.
pub blk_set-is_due :
    (bs : List BlockTtl) (victim : NodeId) (ttl_min now_ms late_ms : ℕ)
    → HasRoom bs victim
    → ttl_min ≤ 120
    → 1 ≤ late_ms
    → late_ms < 2 ^ 31
    → (i : ℕ) × (b : BlockTtl) × (get_elem? (blk_set bs victim ttl_min now_ms) i ≡ some b)
      × (b.victim ≡ victim)
      × (is_due (add32 now_ms (ttl_min * 60000 + late_ms)) b ≡ true)
unfolding blk_set
blk_set-is_due bs victim ttl_min now_ms late_ms room h lo hi =
    let exp = expiry ttl_min now_ms in
    let new : BlockTtl = record { victim = victim; expiry_ms = exp } in
    let due = due_after victim ttl_min now_ms late_ms h lo hi in
    elim (Option-cases (find_index (λ b. not (is_free b) && bytes_eq b.victim victim) bs)) [
      | inr (i, e) ↦
          let (b, g, t) =
            find_index-some (λ b. not (is_free b) && bytes_eq b.victim victim) bs i e in
          let is_his : b.victim ≡ victim =
            bytes_eq→eq b.victim victim (&&_true {a = not (is_free b)} t).1 in
          (
            i,
            record b { expiry_ms = exp },
            rw (e, blk_set) (get_elem?-modify_self bs i (λ b. record b { expiry_ms = exp }) g),
            is_his,
            subst
                (λ z.
                  is_due (add32 now_ms (ttl_min * 60000 + late_ms))
                    (record { victim = z; expiry_ms = exp })
                  ≡ true)
                (sym is_his) due,
          )
      | inl e ↦ elim (Option-cases (find_index is_free bs)) [
        | inr (i, e') ↦
            let (b, g, t) = find_index-some is_free bs i e' in
            (i, new, rw (e, blk_set, e') (get_elem?-modify_self bs i (λ b. new) g), refl, due)
        | inl e' ↦
            let (j, b, g, why) = room in
            let taken = find_index-none is_free bs j e' g in
            let off = find_index-none (λ b. not (is_free b) && bytes_eq b.victim victim) bs j e g in
            elim why [
              | inl f ↦ absurd (false≢true (sym taken ∙ f))
              | inr s ↦
                  let on : (not (is_free b) && bytes_eq b.victim victim) ≡ true =
                    rw (taken, s) (bytes_eq_refl victim) in
                  absurd (false≢true (sym off ∙ on))
            ]
      ]
    ]

-- After a sweep no entry is due, whichever router it works on: the blocks whose time has come are
-- gone, and what is still in time stays in its place.
pub blk_sweep_lem :
    {F : Type 0} (r : Router F) (now_ms : ℕ) (bs : List BlockTtl)
    → let bs' = (blk_sweep r now_ms bs).1 in
      Every (λ (b : BlockTtl). is_due now_ms b ≡ false) bs'
      × ((i : ℕ) (b : BlockTtl)
          → get_elem? bs i ≡ some b
          → is_due now_ms b ≡ false
          → get_elem? bs' i ≡ some b)
unfolding blk_sweep
blk_sweep_lem r now_ms [] = (λ i b g. absurd (ground arith), λ i b g. absurd (ground arith))
blk_sweep_lem r now_ms (b ∷ bs) = elim (Bool-cases (is_due now_ms b)) [
  | inl t ↦
      let (all, stay) = blk_sweep_lem (Router.unblock r b.victim) now_ms bs in
      rw t
        (Every-cons (λ (b : BlockTtl). is_due now_ms b ≡ false) no_block _ refl all, due _ stay t)
  | inr f ↦
      let (all, stay) = blk_sweep_lem r now_ms bs in
      rw f (Every-cons (λ (b : BlockTtl). is_due now_ms b ≡ false) b _ f all, wait _ stay)
]
  where
    due :
        (bs' : List BlockTtl)
        → ((i : ℕ) (a : BlockTtl)
            → get_elem? bs i ≡ some a
            → is_due now_ms a ≡ false
            → get_elem? bs' i ≡ some a)
        → is_due now_ms b ≡ true
        → (i : ℕ) (a : BlockTtl) → get_elem? (b ∷ bs) i ≡ some a
        → is_due now_ms a ≡ false
        → get_elem? (no_block ∷ bs') i ≡ some a
    due bs' stay t zero a g f =
        let s : b ≡ a = ground arith in
        absurd (false≢true (sym f ∙ subst (λ z. is_due now_ms z ≡ true) s t))
    due bs' stay t (suc i) a g f = stay i a g f

    wait :
        (bs' : List BlockTtl)
        → ((i : ℕ) (a : BlockTtl)
            → get_elem? bs i ≡ some a
            → is_due now_ms a ≡ false
            → get_elem? bs' i ≡ some a)
        → (i : ℕ) (a : BlockTtl) → get_elem? (b ∷ bs) i ≡ some a
        → is_due now_ms a ≡ false
        → get_elem? (b ∷ bs') i ≡ some a
    wait bs' stay zero a g f = g
    wait bs' stay (suc i) a g f = stay i a g f
