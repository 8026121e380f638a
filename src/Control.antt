-- ===== src/Control.antt =====
-- lib/mesh/control.h and control.cpp: signed commands, and their acknowledgements.
mod Tests
pub mod Commands
pub mod Authentic
pub mod Acks
use agnostic_lora_net.Prelude.{
  ℕ, ◌+◌, ◌-◌, ◌%◌, ◌^◌, ◌≡◌, bit_and, bit_or, Bool, true, false, not, ◌&&◌, ◌||◌, List, [], ◌∷◌,
  ◌++◌, Option, none, some, ltb, leb, ◌==◌, if◌then◌else◌, length, get_or, take, drop, replicate,
  put_u32, get_u32,
}
use agnostic_lora_net.Crypto.{Ed25519}
use agnostic_lora_net.NodeId.{NodeId, zero_id, is_zero, nid_read}

abbrev pub ctrl_power : ℕ
ctrl_power = 1

abbrev pub ctrl_confirm : ℕ
ctrl_confirm = 2

abbrev pub ctrl_block : ℕ
ctrl_block = 3

abbrev pub ctrl_unblock : ℕ
ctrl_unblock = 4

abbrev pub ctrl_ble : ℕ
ctrl_ble = 5

abbrev pub ctrl_retune : ℕ
ctrl_retune = 6

pub data CtrlVerdict : Type 0 where
  ok : CtrlVerdict
  malformed : CtrlVerdict
  bad_sig : CtrlVerdict
  replay : CtrlVerdict

abbrev pub ctrl_ver : ℕ
ctrl_ver = 2

abbrev pub ctrl_msg_bytes : ℕ
ctrl_msg_bytes = 23 + 64

abbrev pub ctrl_blk_bytes : ℕ
ctrl_blk_bytes = 39 + 64

abbrev pub ctrl_retune_cfg : ℕ
ctrl_retune_cfg = 13

abbrev pub ctrl_rtn_bytes : ℕ
ctrl_rtn_bytes = 22 + ctrl_retune_cfg + 64

abbrev pub ctrl_ack_bytes : ℕ
ctrl_ack_bytes = 24

-- An `int8_t` is the byte that it is cast to.
pub record CtrlMsg : Type 0 where
  pub cmd : ℕ
  pub target : NodeId
  pub arg : ℕ
  pub aux : NodeId
  pub counter : ℕ
  pub cfg : List ℕ

abbrev pub no_msg : CtrlMsg
no_msg = record {
  cmd = 0;
  target = zero_id;
  arg = 0;
  aux = zero_id;
  counter = 0;
  cfg = replicate ctrl_retune_cfg 0;
}

pub record CtrlAck : Type 0 where
  pub cmd : ℕ
  pub origin : NodeId
  pub applied : ℕ
  pub provisional : ℕ
  pub counter : ℕ

-- "AGN-CTRL-1"
abbrev pub domain : List ℕ
domain = 65 ∷ 71 ∷ 78 ∷ 45 ∷ 67 ∷ 84 ∷ 82 ∷ 76 ∷ 45 ∷ 49 ∷ []

abbrev pub is_blocking : ℕ → Bool
is_blocking cmd = (cmd == ctrl_block) || (cmd == ctrl_unblock)

abbrev pub unsigned_len : ℕ → ℕ
unsigned_len cmd =
    if is_blocking cmd then 39 else if cmd == ctrl_retune then 22 + ctrl_retune_cfg else 23

abbrev pub known_cmd : ℕ → Bool
known_cmd cmd =
    (cmd == ctrl_power)
    || ((cmd == ctrl_confirm)
        || ((cmd == ctrl_block)
            || ((cmd == ctrl_unblock) || ((cmd == ctrl_ble) || (cmd == ctrl_retune)))))

abbrev pub signed_view : List ℕ → ℕ → List ℕ
signed_view unsigned_part ulen = domain ++ take ulen unsigned_part

module _ (c : Ed25519) where
  -- The bytes written; `none` is `return 0`.
  unfoldable pub build : ℕ → NodeId → ℕ → ℕ → List ℕ → ℕ → Option (List ℕ)
  build cmd target arg counter seckey room =
      let out = ctrl_ver ∷ cmd ∷ (target ++ (arg ∷ put_u32 counter)) in
      if ltb room ctrl_msg_bytes || is_zero target
      then none
      else if not (cmd == ctrl_power) && (not (cmd == ctrl_confirm) && not (cmd == ctrl_ble))
      then none
      else some (out ++ c.sign seckey (signed_view out 23))

  unfoldable pub build_block : ℕ → NodeId → NodeId → ℕ → ℕ → List ℕ → ℕ → Option (List ℕ)
  build_block cmd target victim ttl_min counter seckey room =
      let out = ctrl_ver ∷ cmd ∷ (target ++ (ttl_min ∷ (victim ++ put_u32 counter))) in
      if ltb room ctrl_blk_bytes || (is_zero target || is_zero victim)
      then none
      else if not (cmd == ctrl_block) && not (cmd == ctrl_unblock)
      then none
      else some (out ++ c.sign seckey (signed_view out 39))

  unfoldable pub build_retune : NodeId → List ℕ → ℕ → List ℕ → ℕ → Option (List ℕ)
  build_retune target cfg counter seckey room =
      let out = ctrl_ver ∷ ctrl_retune ∷ (target ++ (cfg ++ put_u32 counter)) in
      if ltb room ctrl_rtn_bytes || is_zero target
      then none
      else some (out ++ c.sign seckey (signed_view out (18 + ctrl_retune_cfg + 4)))

  -- What `ctrl_verify` writes to `out`.
  abbrev pub filled : List ℕ → ℕ → CtrlMsg → CtrlMsg
  filled msg counter out =
      let cmd = get_or msg 1 0 in
      if cmd == ctrl_retune
      then record out {
        cmd = cmd;
        target = nid_read msg 2;
        counter = counter;
        cfg = take ctrl_retune_cfg (drop 18 msg);
      }
      else record out {
        cmd = cmd;
        target = nid_read msg 2;
        counter = counter;
        arg = get_or msg 18 0;
        aux = if is_blocking cmd then nid_read msg 19 else zero_id;
      }

  -- `ctrl_verify`, with `out` before and after it.
  unfoldable pub verify : List ℕ → List ℕ → ℕ → CtrlMsg → CtrlVerdict × CtrlMsg
  verify msg pubkey min_counter out =
      let cmd = get_or msg 1 0 in
      let ulen = unsigned_len cmd in
      let counter = get_u32 msg (ulen - 4) in
      if ltb (length msg) ctrl_msg_bytes || not (get_or msg 0 0 == ctrl_ver)
      then (CtrlVerdict.malformed, out)
      else if not (known_cmd cmd)
      then (CtrlVerdict.malformed, out)
      else if ltb (length msg) (ulen + 64)
      then (CtrlVerdict.malformed, out)
      else if not (c.check (take 64 (drop ulen msg)) pubkey (signed_view msg ulen))
      then (CtrlVerdict.bad_sig, out)
      else if leb counter min_counter
      then (CtrlVerdict.replay, out)
      else (CtrlVerdict.ok, filled msg counter out)

pub is_ack : List ℕ → Bool
is_ack msg =
    leb ctrl_ack_bytes (length msg)
    && ((get_or msg 0 0 == ctrl_ver) && not (bit_and (get_or msg 1 0) 0x80 == 0))

unfoldable pub build_ack : ℕ → NodeId → ℕ → ℕ → ℕ → ℕ → Option (List ℕ)
build_ack cmd origin applied provisional counter room =
    if ltb room ctrl_ack_bytes
    then none
    else some
        (ctrl_ver ∷ (bit_or cmd 0x80 % 256) ∷ (origin ++ (applied ∷ provisional ∷ put_u32 counter)))

unfoldable pub parse_ack : List ℕ → Option CtrlAck
parse_ack msg =
    if not (is_ack msg)
    then none
    else some (record {
      cmd = bit_and (get_or msg 1 0) 0x7f;
      origin = nid_read msg 2;
      applied = get_or msg 18 0;
      provisional = get_or msg 19 0;
      counter = get_u32 msg 20;
    })
