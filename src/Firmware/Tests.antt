-- ===== src/Firmware/Tests.antt =====
-- The theorems on signed commands, at a node that hears one.
use agnostic_lora_net.Prelude.{
  ℕ, ◌+◌, ◌*◌, ◌≡◌, refl, true, false, Bool, List, [], ◌∷◌, ◌++◌, replicate, take, bytes_eq, add32,
  get_elem?, Option, none, some, arith, inl,
}
use agnostic_lora_net.NodeId.{NodeId}
use agnostic_lora_net.Crypto.{Ed25519}
use agnostic_lora_net.Float.Fixed.{Fixed, fixed}
use agnostic_lora_net.Router.{make}
use agnostic_lora_net.Control.{CtrlVerdict, CtrlMsg, no_msg, verify, domain}
use agnostic_lora_net.Firmware.{
  BlockTtl, no_block, is_due, blk_set, RadioCfg, Node, apply_verified, on_command, dead_man,
  ctrl_revert_window_ms,
}
use agnostic_lora_net.Firmware.Once.{waits_for_confirm, handled, on_command_once}
use agnostic_lora_net.Firmware.Rails.{rounds, dead_man-on_power}
use agnostic_lora_net.Firmware.Expiry.{blk_set-is_due}

abbrev me : NodeId
me = replicate 16 7

abbrev key : List ℕ
key = 9 ∷ 8 ∷ []

-- A signature that repeats the key and the message, filled up with zeros.
abbrev stamping : Ed25519
stamping = record {
  sign = λ key m. take 64 (key ++ (m ++ replicate 64 0));
  check = λ sig key m. bytes_eq sig (take 64 (key ++ (m ++ replicate 64 0)));
}

abbrev loud : RadioCfg
loud = record {
  freq_hz = 904_375_000;
  bw_hz = 250_000;
  sf = 9;
  cr = 5;
  power_dbm = 22;
  sync = 18;
  preamble = 8;
}

abbrev node : Node Fixed
node = record {
  my_id = me;
  have_key = true;
  pubkey = key;
  counter = 4;
  revert_dbm = 0;
  pending_dbm = 0;
  revert_ms = 0;
  power_managed = false;
  contact_ms = 0;
  blk = replicate 8 no_block;
  router = make me;
  radio = loud;
  rf_work = loud;
}

-- POWER, 14 dBm, counter 5.
abbrev command : List ℕ
command = 2 ∷ 1 ∷ (me ++ (14 ∷ 5 ∷ 0 ∷ 0 ∷ 0 ∷ []))

abbrev message : List ℕ
message = command ++ take 64 (key ++ ((domain ++ command) ++ replicate 64 0))

abbrev lower : CtrlMsg
lower = record no_msg { cmd = 1; target = me; arg = 14; counter = 5 }

abbrev any_config : RadioCfg → Bool
any_config cfg = true

accepts_it : verify stamping message key 4 no_msg ≡ (CtrlVerdict.ok, lower)
unfolding verify bytes_eq
accepts_it = refl

for_it : bytes_eq me me ≡ true
unfolding bytes_eq
for_it = refl

on_command_once_example :
    let n' =
      handled any_config true stamping
        (on_command any_config true stamping node message me 1000).0
        (waits_for_confirm 61_000 ∷ []) in
    on_command any_config true stamping n' message (replicate 16 3) 90_000 ≡ (n', [])
on_command_once_example =
    on_command_once any_config true stamping node message me 1000 lower for_it accepts_it
      (waits_for_confirm 61_000 ∷ []) (replicate 16 3) 90_000

-- The loop runs one second and fifty seconds after the command.
abbrev some_rounds : List (ℕ × Option RadioCfg)
some_rounds = (1000, none) ∷ (50_000, some loud) ∷ []

dead_man-on_power_example :
    let waited =
      rounds any_config true
        (apply_verified any_config true node lower me 1000).0
        1000
        some_rounds in
    let later = dead_man any_config true waited (add32 1000 (ctrl_revert_window_ms + 5)) in
    (waited.radio ≡ record loud { power_dbm = 14 }) × (later.radio ≡ loud) × (later.revert_ms ≡ 0)
dead_man-on_power_example =
    dead_man-on_power any_config true node lower me 1000 5 some_rounds refl refl refl refl
      (λ e. absurd (ground arith)) (omega arith, omega arith) (omega arith)

blk_set-is_due_example :
    (i : ℕ) × (b : BlockTtl) × (get_elem?
        (blk_set (replicate 8 no_block) (replicate 16 3) 30 1000)
        i
      ≡ some b)
    × (b.victim ≡ replicate 16 3)
    × (is_due (add32 1000 (30 * 60000 + 1)) b ≡ true)
blk_set-is_due_example =
    blk_set-is_due (replicate 8 no_block) (replicate 16 3) 30 1000 1 (0, no_block, refl, inl refl)
      (omega arith) (omega arith) (omega arith)
