-- ===== src/Control/Commands.antt =====
-- Commands are accepted as they were signed, and only if they were signed and are new.
use agnostic_lora_net.Prelude.{
  ℕ, ◌+◌, ◌-◌, ◌^◌, ◌≤◌, ◌<◌, ◌≡◌, refl, ap, ◌∙◌, subst, inl, inr, true, false, not, ◌&&◌, ◌||◌,
  List, ◌∷◌, ◌++◌, append_assoc, some, Option, ltb, leb, ◌==◌, length, length-append, get_or, take,
  drop, take-append, drop-append, take_all, put_u32, get_u32, Bool-cases, arith, le→ltb_false,
}
use agnostic_lora_net.NodeId.{NodeId, IsNodeId, zero_id, is_zero}
use agnostic_lora_net.Crypto.{Ed25519, IsKeyPair}
use agnostic_lora_net.Control.{
  CtrlVerdict, CtrlMsg, domain, ctrl_ver, ctrl_msg_bytes, ctrl_blk_bytes, ctrl_rtn_bytes,
  ctrl_power, ctrl_confirm, ctrl_block, ctrl_unblock, ctrl_ble, ctrl_retune, ctrl_retune_cfg,
  is_blocking, unsigned_len, known_cmd, signed_view, build, build_block, build_retune, filled,
  verify,
}
use agnostic_lora_net.Prelude.{take-part, drop-part, get_or-part, quad_lem}

module _ (c : Ed25519) (seckey pubkey : List ℕ) (pair : IsKeyPair c seckey pubkey) where
  -- A message that was signed as a whole, and whose counter is above the floor, is accepted.
  verify-signed :
      (u : List ℕ) (ulen min_counter counter : ℕ) (out : CtrlMsg)
      → length u ≡ ulen
      → 23 ≤ ulen
      → let msg = u ++ c.sign seckey (signed_view u ulen) in
        get_or msg 0 0 ≡ ctrl_ver
        → unsigned_len (get_or msg 1 0) ≡ ulen
        → known_cmd (get_or msg 1 0) ≡ true
        → get_u32 msg (ulen - 4) ≡ counter
        → min_counter < counter
        → verify c msg pubkey min_counter out ≡ (CtrlVerdict.ok, filled c msg counter out)
  unfolding verify
  verify-signed u ulen min_counter counter out hu lo hv hl hk hc new =
      let sig = c.sign seckey (signed_view u ulen) in
      let msg = u ++ sig in
      let ns : length sig ≡ 64 = pair.whole (signed_view u ulen) in
      let n : length msg ≡ ulen + 64 = let n' = length-append u sig in omega (arith, n', hu, ns) in
      let tu : take ulen msg ≡ u = subst (λ z. take z msg ≡ u) hu (take-append u sig) in
      let tu' : take ulen u ≡ u = take_all ulen u (omega (arith, hu)) in
      let ds : take 64 (drop ulen msg) ≡ sig =
        subst (λ z. take 64 (drop z msg) ≡ sig) hu
          (ap (take 64) (drop-append u sig) ∙ take_all 64 sig (omega (arith, ns))) in
      let good : c.check (take 64 (drop ulen msg)) pubkey (signed_view msg ulen) ≡ true =
        rw (ds, tu)
          (subst (λ z. c.check sig pubkey (domain ++ z) ≡ true) tu'
            (pair.checks (signed_view u ulen))) in
      let long : ltb (length msg) ctrl_msg_bytes ≡ false =
        le→ltb_false (length msg) ctrl_msg_bytes (omega (arith, n, lo)) in
      let whole : ltb (length msg) (ulen + 64) ≡ false =
        le→ltb_false (length msg) (ulen + 64) (omega (arith, n)) in
      let fresh : leb counter min_counter ≡ false = ground arith in
      rw (hl, hc, long, hv, hk, whole, good, fresh)

-- What the controller may ask for: a setting with its argument, a block of a victim with its time
-- to live, or a retune.
pub data Command : Type 0 where
  sets : (cmd arg : ℕ) → Command
  blocks : (cmd : ℕ) (victim : NodeId) (ttl_min : ℕ) → Command
  retunes : (cfg : List ℕ) → Command

unfoldable pub IsCommand : Command → Type 0
IsCommand (sets cmd arg) = Unit {0}
IsCommand (blocks cmd victim ttl_min) = IsNodeId victim
IsCommand (retunes cfg) = length cfg ≡ ctrl_retune_cfg

-- The three builders, by command.
unfoldable pub issue : Ed25519 → Command → NodeId → ℕ → List ℕ → ℕ → Option (List ℕ)
issue c (sets cmd arg) target counter seckey room = build c cmd target arg counter seckey room
issue c (blocks cmd victim ttl_min) target counter seckey room =
    build_block c cmd target victim ttl_min counter seckey room
issue c (retunes cfg) target counter seckey room = build_retune c target cfg counter seckey room

-- The fields that a receiver is to find, over what was in its `out`.
unfoldable pub meant : Command → NodeId → ℕ → CtrlMsg → CtrlMsg
meant (sets cmd arg) target counter out = record out {
  cmd = cmd;
  target = target;
  counter = counter;
  arg = arg;
  aux = zero_id;
}
meant (blocks cmd victim ttl_min) target counter out = record out {
  cmd = cmd;
  target = target;
  counter = counter;
  arg = ttl_min;
  aux = victim;
}
meant (retunes cfg) target counter out = record out {
  cmd = ctrl_retune;
  target = target;
  counter = counter;
  cfg = cfg;
}

module _ (c : Ed25519) (seckey pubkey : List ℕ) (pair : IsKeyPair c seckey pubkey) where
  verify-build :
      (cmd arg counter room min_counter : ℕ) (target : NodeId) (out : CtrlMsg) {p : List ℕ}
      → IsNodeId target
      → counter < 2 ^ 32
      → min_counter < counter
      → build c cmd target arg counter seckey room ≡ some p
      → verify c p pubkey min_counter out
        ≡ (CtrlVerdict.ok, meant (sets cmd arg) target counter out)
  unfolding build meant
  verify-build cmd arg counter room min_counter target out {p} ht hc new e =
      elim (Bool-cases (ltb room ctrl_msg_bytes || is_zero target)) [
        | inl bad ↦ absurd (ground arith)
        | inr fits ↦
            elim (Bool-cases
              (not (cmd == ctrl_power) && (not (cmd == ctrl_confirm) && not (cmd == ctrl_ble)))) [
                | inl other ↦ absurd (ground arith)
                | inr mine ↦
                    let u = ctrl_ver ∷ cmd ∷ (target ++ (arg ∷ put_u32 counter)) in
                    let sig = c.sign seckey (signed_view u 23) in
                    let s : u ++ sig ≡ p = ground arith in
                    let hu : length u ≡ 23 =
                      let n = length-append target (arg ∷ put_u32 counter) in
                      omega (arith, n, ht) in
                    let known : known_cmd cmd ≡ true = ground arith in
                    let plain : is_blocking cmd ≡ false = ground arith in
                    let tune : (cmd == ctrl_retune) ≡ false = ground arith in
                    let rest = arg ∷ (put_u32 counter ++ sig) in
                    let split : (target ++ (arg ∷ put_u32 counter)) ++ sig ≡ target ++ rest =
                      append_assoc target (arg ∷ put_u32 counter) sig in
                    let at = get_or-part 16 target rest ht in
                    let counts : get_u32 (u ++ sig) 19 ≡ counter =
                      rw (split, at 1, at 2, at 3, at 4) (quad_lem counter hc) in
                    let fills : filled c (u ++ sig) counter out
                        ≡ meant (sets cmd arg) target counter out =
                      rw (tune, plain, split, at 0, take-part 16 target rest ht) in
                    rw (← s) (
                      verify-signed c seckey pubkey pair u 23 min_counter counter out hu
                        (omega arith) refl (rw (plain, tune)) known counts new
                      ∙ ap (λ z. (CtrlVerdict.ok, z)) fills)
              ]
      ]

  verify-build_block :
      (cmd ttl_min counter room min_counter : ℕ) (target victim : NodeId) (out : CtrlMsg)
      {p : List ℕ}
      → IsNodeId target
      → IsNodeId victim
      → counter < 2 ^ 32
      → min_counter < counter
      → build_block c cmd target victim ttl_min counter seckey room ≡ some p
      → verify c p pubkey min_counter out
        ≡ (CtrlVerdict.ok, meant (blocks cmd victim ttl_min) target counter out)
  unfolding build_block meant
  verify-build_block cmd ttl_min counter room min_counter target victim out {p} ht hv hc new e =
      elim (Bool-cases (ltb room ctrl_blk_bytes || (is_zero target || is_zero victim))) [
        | inl bad ↦ absurd (ground arith)
        | inr fits ↦ elim (Bool-cases (not (cmd == ctrl_block) && not (cmd == ctrl_unblock))) [
          | inl other ↦ absurd (ground arith)
          | inr mine ↦
              let tail = ttl_min ∷ (victim ++ put_u32 counter) in
              let u = ctrl_ver ∷ cmd ∷ (target ++ tail) in
              let sig = c.sign seckey (signed_view u 39) in
              let s : u ++ sig ≡ p = ground arith in
              let hu : length u ≡ 39 =
                let n = length-append target tail in
                let m = length-append victim (put_u32 counter) in omega (arith, n, m, ht, hv) in
              let known : known_cmd cmd ≡ true = ground arith in
              let blocking : is_blocking cmd ≡ true = ground arith in
              let tune : (cmd == ctrl_retune) ≡ false = ground arith in
              let after = put_u32 counter ++ sig in
              let rest = ttl_min ∷ (victim ++ after) in
              let split : (target ++ tail) ++ sig ≡ target ++ rest =
                append_assoc target tail sig
                ∙ ap (λ z. target ++ (ttl_min ∷ z)) (append_assoc victim (put_u32 counter) sig) in
              let at = get_or-part 16 target rest ht in
              let av = get_or-part 16 victim after hv in
              let counts : get_u32 (u ++ sig) 35 ≡ counter =
                rw (split, at 17, at 18, at 19, at 20, av 0, av 1, av 2, av 3)
                  (quad_lem counter hc) in
              let fills : filled c (u ++ sig) counter out
                  ≡ meant (blocks cmd victim ttl_min) target counter out =
                rw (
                  tune,
                  blocking,
                  split,
                  at 0,
                  take-part 16 target rest ht,
                  drop-part 16 target rest ht 1,
                  take-part 16 victim after hv,
                ) in
              rw (← s) (
                verify-signed c seckey pubkey pair u 39 min_counter counter out hu (omega arith)
                  refl (rw blocking) known counts new
                ∙ ap (λ z. (CtrlVerdict.ok, z)) fills)
        ]
      ]

  verify-build_retune :
      (counter room min_counter : ℕ) (target : NodeId) (cfg : List ℕ) (out : CtrlMsg) {p : List ℕ}
      → IsNodeId target
      → length cfg ≡ ctrl_retune_cfg
      → counter < 2 ^ 32
      → min_counter < counter
      → build_retune c target cfg counter seckey room ≡ some p
      → verify c p pubkey min_counter out ≡ (CtrlVerdict.ok, meant (retunes cfg) target counter out)
  unfolding build_retune meant
  verify-build_retune counter room min_counter target cfg out {p} ht hg hc new e =
      elim (Bool-cases (ltb room ctrl_rtn_bytes || is_zero target)) [
        | inl bad ↦ absurd (ground arith)
        | inr fits ↦
            let tail = cfg ++ put_u32 counter in
            let u = ctrl_ver ∷ ctrl_retune ∷ (target ++ tail) in
            let sig = c.sign seckey (signed_view u 35) in
            let s : u ++ sig ≡ p = ground arith in
            let hu : length u ≡ 35 =
              let n = length-append target tail in
              let m = length-append cfg (put_u32 counter) in omega (arith, n, m, ht, hg) in
            let after = put_u32 counter ++ sig in
            let rest = cfg ++ after in
            let split : (target ++ tail) ++ sig ≡ target ++ rest =
              append_assoc target tail sig
              ∙ ap (λ z. target ++ z) (append_assoc cfg (put_u32 counter) sig) in
            let at = get_or-part 16 target rest ht in
            let ag = get_or-part 13 cfg after hg in
            let counts : get_u32 (u ++ sig) 31 ≡ counter =
              rw (split, at 13, at 14, at 15, at 16, ag 0, ag 1, ag 2, ag 3)
                (quad_lem counter hc) in
            let fills : filled c (u ++ sig) counter out ≡ meant (retunes cfg) target counter out =
              rw (
                split,
                take-part 16 target rest ht,
                drop-part 16 target rest ht 0,
                take-part 13 cfg after hg,
              ) in
            rw (← s) (
              verify-signed c seckey pubkey pair u 35 min_counter counter out hu (omega arith) refl
                refl refl counts new
              ∙ ap (λ z. (CtrlVerdict.ok, z)) fills)
      ]

  -- Under a pair of keys that belong together, a command that is issued is accepted by every node
  -- whose floor is below its counter, and the node finds in it the target, the counter and the
  -- arguments that it was issued with. Target and victim have sixteen bytes, the counter 32 bits
  -- and a configuration thirteen bytes.
  pub verify-issue :
      (command : Command) (target : NodeId) (counter room min_counter : ℕ) (out : CtrlMsg)
      {p : List ℕ}
      → IsCommand command
      → IsNodeId target
      → counter < 2 ^ 32
      → min_counter < counter
      → issue c command target counter seckey room ≡ some p
      → verify c p pubkey min_counter out ≡ (CtrlVerdict.ok, meant command target counter out)
  unfolding issue IsCommand
  verify-issue (sets cmd arg) target counter room min_counter out h ht hc new e =
      verify-build cmd arg counter room min_counter target out ht hc new e
  verify-issue (blocks cmd victim ttl_min) target counter room min_counter out h ht hc new e =
      verify-build_block cmd ttl_min counter room min_counter target victim out ht h hc new e
  verify-issue (retunes cfg) target counter room min_counter out h ht hc new e =
      verify-build_retune counter room min_counter target cfg out ht h hc new e
