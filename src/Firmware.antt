-- ===== src/Firmware.antt =====
-- src/main.cpp: what a node does with signed commands, and the rails that undo them.
pub mod Floor
pub mod Once
pub mod Expiry
pub mod Rails
mod Tests
use agnostic_lora_net.Prelude.{
  ℕ, suc, ◌+◌, ◌*◌, ◌%◌, ◌^◌, Bool, true, false, not, ◌&&◌, ◌||◌, List, [], ◌∷◌, ◌++◌, Option, none,
  some, map, ltb, leb, ◌==◌, if◌then◌else◌, length, get_or, get_u16, get_u32, take, drop, set,
  replicate, find_index, any, modify, bytes_eq, add32, before32,
}
use agnostic_lora_net.NodeId.{NodeId, zero_id, is_zero}
use agnostic_lora_net.Crypto.{Ed25519}
use agnostic_lora_net.Router
use agnostic_lora_net.Router.{Router, max_blocked}
use agnostic_lora_net.Control.{
  CtrlVerdict, CtrlMsg, no_msg, ctrl_power, ctrl_confirm, ctrl_block, ctrl_unblock, ctrl_ble,
  ctrl_retune, ctrl_msg_bytes, ctrl_ack_bytes, verify, build_ack,
}

-- A power is the byte of an `int8_t`; `a < b` of two of them.
abbrev pub int8_lt : ℕ → ℕ → Bool
int8_lt a b = ltb ((a + 128) % 256) ((b + 128) % 256)

pub record RadioCfg : Type 0 where
  pub freq_hz : ℕ
  pub bw_hz : ℕ
  pub sf : ℕ
  pub cr : ℕ
  pub power_dbm : ℕ
  pub sync : ℕ
  pub preamble : ℕ

abbrev pub lora_max_tx_power_dbm : ℕ
lora_max_tx_power_dbm = 22

abbrev pub phy_tx_power_dbm : ℕ
phy_tx_power_dbm = 22

abbrev pub ctrl_revert_window_ms : ℕ
ctrl_revert_window_ms = 60000

abbrev pub ctrl_heartbeat_ms : ℕ
ctrl_heartbeat_ms = 6 * 3600 * 1000

abbrev pub ctrl_block_ttl_default_min : ℕ
ctrl_block_ttl_default_min = 30

abbrev pub ctrl_block_ttl_max_min : ℕ
ctrl_block_ttl_max_min = 120

pub record BlockTtl : Type 0 where
  pub victim : NodeId
  pub expiry_ms : ℕ

abbrev pub no_block : BlockTtl
no_block = record { victim = zero_id; expiry_ms = 0 }

abbrev pub is_free : BlockTtl → Bool
is_free b = b.expiry_ms == 0

-- `ctrl_blk_set`: the entry of the victim, else the first free one, else none.
unfoldable pub blk_set : List BlockTtl → NodeId → ℕ → ℕ → List BlockTtl
blk_set bs victim ttl_min now_ms =
    let exp = add32 now_ms (ttl_min * 60000 % 2 ^ 32) in
    let exp' = if exp == 0 then 1 else exp in
    elim (find_index (λ b. not (is_free b) && bytes_eq b.victim victim) bs) [
      | some i ↦ modify bs i (λ b. record b { expiry_ms = exp' })
      | none ↦ elim (find_index is_free bs) [
        | some i ↦ modify bs i (λ b. record { victim = victim; expiry_ms = exp' })
        | none ↦ bs
      ]
    ]

pub blk_clear : List BlockTtl → NodeId → List BlockTtl
blk_clear bs victim = map (λ b. if bytes_eq b.victim victim then no_block else b) bs

abbrev pub is_due : ℕ → BlockTtl → Bool
is_due now_ms b = not (is_free b) && not (before32 now_ms b.expiry_ms)

-- `ctrl_blk_sweep`, with the router that it unblocks the victims of.
unfoldable pub blk_sweep : {F : Type 0} → Router F → ℕ → List BlockTtl → Router F × List BlockTtl
blk_sweep r now_ms [] = (r, [])
blk_sweep r now_ms (b ∷ bs) =
    let due = blk_sweep (Router.unblock r b.victim) now_ms bs in
    let wait = blk_sweep r now_ms bs in
    if is_due now_ms b then (due.0, no_block ∷ due.1) else (wait.0, b ∷ wait.1)

-- The state of the control plane, with the router and the configuration of the radio.
pub record Node (F : Type 0) : Type 0 where
  pub my_id : NodeId
  pub have_key : Bool
  pub pubkey : List ℕ
  pub counter : ℕ
  pub revert_dbm : ℕ
  pub pending_dbm : ℕ
  pub revert_ms : ℕ
  pub power_managed : Bool
  pub contact_ms : ℕ
  pub blk : List BlockTtl
  pub router : Router F
  pub radio : RadioCfg
  pub rf_work : RadioCfg

-- What a handler does outside of that state, in order.
pub data Effect : Type 0 where
  saves_ctrl : (counter : ℕ) → Effect
  saves_rf : (cfg : RadioCfg) → Effect
  advertises : (on : Bool) → Effect
  unicasts : (to : NodeId) (bytes : List ℕ) → Effect
  reboots : (at_ms : ℕ) → Effect

abbrev pub wanted : CtrlMsg → ℕ
wanted m = if int8_lt lora_max_tx_power_dbm m.arg then lora_max_tx_power_dbm else m.arg

abbrev pub block_ttl : CtrlMsg → ℕ
block_ttl m =
    let ttl = if int8_lt 0 m.arg then m.arg else ctrl_block_ttl_default_min in
    if ltb ctrl_block_ttl_max_min ttl then ctrl_block_ttl_max_min else ttl

abbrev pub retuned : RadioCfg → List ℕ → RadioCfg
retuned c p = record c {
  freq_hz = get_u32 p 0;
  bw_hz = get_u32 p 4;
  sf = get_or p 8 0;
  cr = get_or p 9 0;
  sync = get_or p 10 0;
  preamble = get_u16 p 11;
}

abbrev pub is_sane : RadioCfg → Bool
is_sane c =
    leb 5 c.sf
    && (leb c.sf 12 && (leb 5 c.cr && (leb c.cr 8 && (not (c.freq_hz == 0) && not (c.bw_hz == 0)))))

-- The power that the radio boots with: that of the saved configuration, if there is one.
abbrev pub default_power : Option RadioCfg → ℕ
default_power (some c) = c.power_dbm
default_power none = phy_tx_power_dbm

-- What the radio makes of a configuration is told by `accepts`, which stands for the calls of the
-- radio library in `apply_config`; `ble` is whether the board has it.
module _ {F : Type 0} (accepts : RadioCfg → Bool) (ble : Bool) where
  unfoldable pub apply_power : Node F → ℕ → Bool → Node F × List Effect
  apply_power n dbm persist =
      let c = record n.radio { power_dbm = dbm } in
      if accepts c
      then (record n { radio = c; rf_work = c }, if persist then saves_rf c ∷ [] else [])
      else (n, [])

  abbrev pub ack : Node F → CtrlMsg → NodeId → ℕ → ℕ → List Effect
  ack n m reply_to applied prov =
      if bytes_eq reply_to n.my_id
      then []
      else elim (build_ack m.cmd n.my_id applied prov m.counter ctrl_ack_bytes) [
        | none ↦ []
        | some a ↦ unicasts reply_to a ∷ []
      ]

  unfoldable pub on_power : Node F → CtrlMsg → NodeId → ℕ → Node F × List Effect
  on_power n m reply_to now_ms =
      let cur = n.radio.power_dbm in
      let want = wanted m in
      let n' = record n {
        revert_dbm = cur;
        pending_dbm = want;
        revert_ms = add32 now_ms ctrl_revert_window_ms;
      } in
      let lower = (apply_power n' want false).0 in
      let raise = (apply_power n want false).0 in
      if int8_lt want cur
      then (record lower { power_managed = true }, ack n m reply_to want 1)
      else (record raise { revert_ms = 0; power_managed = true }, ack n m reply_to want 0)

  unfoldable pub on_confirm : Node F → CtrlMsg → NodeId → Node F × List Effect
  on_confirm n m reply_to =
      if not (n.revert_ms == 0) && (m.arg == n.pending_dbm)
      then (
        (apply_power (record n { revert_ms = 0 }) n.pending_dbm false).0,
        ack n m reply_to n.pending_dbm 0,
      )
      else (n, [])

  unfoldable pub on_block : Node F → CtrlMsg → NodeId → ℕ → Node F × List Effect
  on_block n m reply_to now_ms =
      let (r, ok) = Router.block n.router m.aux in
      if is_zero m.aux || bytes_eq m.aux n.my_id
      then (n, [])
      else if ok
      then (
        record n { router = r; blk = blk_set n.blk m.aux (block_ttl m) now_ms },
        ack n m reply_to 1 1,
      )
      else (record n { router = r }, ack n m reply_to 0 1)

  unfoldable pub on_unblock : Node F → CtrlMsg → NodeId → Node F × List Effect
  on_unblock n m reply_to = if is_zero m.aux then (n, []) else (
    record n { router = Router.unblock n.router m.aux; blk = blk_clear n.blk m.aux },
    ack n m reply_to 0 0,
  )

  unfoldable pub on_ble : Node F → CtrlMsg → NodeId → ℕ → Node F × List Effect
  on_ble n m reply_to now_ms =
      let on = not (m.arg == 0) in
      if ble
      then (
        n,
        advertises on ∷ reboots (add32 now_ms 3000) ∷ ack n m reply_to (if on then 1 else 0) 0,
      )
      else (n, [])

  unfoldable pub on_retune : Node F → CtrlMsg → NodeId → ℕ → Node F × List Effect
  on_retune n m reply_to now_ms =
      let c = retuned n.radio m.cfg in
      let rescue = if ble then advertises true ∷ [] else [] in
      if not (is_sane c) then (n, ack n m reply_to 0 0) else (
        n,
        saves_rf c ∷ (rescue ++ (ack n m reply_to 1 0 ++ (reboots (add32 now_ms 3000) ∷ []))),
      )

  unfoldable pub apply_verified : Node F → CtrlMsg → NodeId → ℕ → Node F × List Effect
  apply_verified n m reply_to now_ms =
      let n' = record n { counter = m.counter; contact_ms = now_ms } in
      let (n'', es) =
        if m.cmd == ctrl_power
        then on_power n' m reply_to now_ms
        else if m.cmd == ctrl_confirm
        then on_confirm n' m reply_to
        else if m.cmd == ctrl_block
        then on_block n' m reply_to now_ms
        else if m.cmd == ctrl_unblock
        then on_unblock n' m reply_to
        else if m.cmd == ctrl_ble
        then on_ble n' m reply_to now_ms
        else if m.cmd == ctrl_retune
        then on_retune n' m reply_to now_ms
        else (n', []) in
      (n'', saves_ctrl m.counter ∷ es)

  -- The command in a flood that is new to the node: only its target checks the signature.
  unfoldable pub on_command : Ed25519 → Node F → List ℕ → NodeId → ℕ → Node F × List Effect
  on_command c n pay src now_ms =
      let (v, m) = verify c pay n.pubkey n.counter no_msg in
      if leb ctrl_msg_bytes (length pay) && (n.have_key && bytes_eq (take 16 (drop 2 pay)) n.my_id)
      then elim v [
        | CtrlVerdict.ok ↦ apply_verified n m src now_ms
        | CtrlVerdict.malformed ↦ (n, [])
        | CtrlVerdict.bad_sig ↦ (n, [])
        | CtrlVerdict.replay ↦ (n, [])
      ]
      else (n, [])

  -- The dead-man rail of the loop.
  unfoldable pub dead_man : Node F → ℕ → Node F
  dead_man n now_ms =
      if not (n.revert_ms == 0) && not (before32 now_ms n.revert_ms)
      then (apply_power (record n { revert_ms = 0 }) n.revert_dbm false).0
      else n

  -- `ctrl_heartbeat_sweep`, with what `rf_read` finds.
  unfoldable pub heartbeat : Node F → Option RadioCfg → ℕ → Node F
  heartbeat n saved now_ms =
      let def = default_power saved in
      let n' = if n.radio.power_dbm == def then n else (apply_power n def false).0 in
      if not n.power_managed || before32 now_ms (add32 n.contact_ms ctrl_heartbeat_ms)
      then n
      else record n' { power_managed = false }

  unfoldable pub sweep : Node F → ℕ → Node F
  sweep n now_ms =
      let (r, bs) = blk_sweep n.router now_ms n.blk in record n { router = r; blk = bs }

  -- The rails of one round of the loop, in its order, with what `rf_read` finds.
  unfoldable pub rails : Node F → Option RadioCfg → ℕ → Node F
  rails n saved now_ms = heartbeat (sweep (dead_man n now_ms) now_ms) saved now_ms
