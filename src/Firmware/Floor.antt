-- ===== src/Firmware/Floor.antt =====
-- What the handlers leave as it is: the replay floor and the keys of a node.
use agnostic_lora_net.Prelude.{
  ℕ, ◌≤◌, ◌≡◌, refl, ◌∙◌, inl, inr, Bool, false, not, ◌&&◌, ◌||◌, Option, ◌==◌, bytes_eq, add32,
  before32, Bool-cases, arith,
}
use agnostic_lora_net.NodeId.{NodeId, is_zero}
use agnostic_lora_net.Router
use agnostic_lora_net.Control.{
  CtrlMsg, ctrl_power, ctrl_confirm, ctrl_block, ctrl_unblock, ctrl_ble, ctrl_retune,
}
use agnostic_lora_net.Firmware.{
  RadioCfg, Node, int8_lt, wanted, retuned, is_sane, default_power, ctrl_heartbeat_ms,
  ctrl_revert_window_ms, apply_power, on_power, on_confirm, on_block, on_unblock, on_ble, on_retune,
  apply_verified, dead_man, heartbeat, sweep,
}

module _ {F : Type 0} where
  -- Who may command a node, and from which counter on.
  pub record Keeps (n n' : Node F) : Type 0 where
    pub counter : n'.counter ≡ n.counter
    pub pubkey : n'.pubkey ≡ n.pubkey
    pub my_id : n'.my_id ≡ n.my_id
    pub have_key : n'.have_key ≡ n.have_key

  pub kept : (n : Node F) → Keeps n n
  kept n = record { counter = refl; pubkey = refl; my_id = refl; have_key = refl }

  pub record Rises (n n' : Node F) : Type 0 where
    pub counter : n.counter ≤ n'.counter
    pub pubkey : n'.pubkey ≡ n.pubkey
    pub my_id : n'.my_id ≡ n.my_id
    pub have_key : n'.have_key ≡ n.have_key

  pub Keeps-Rises : (n n' : Node F) → Keeps n n' → Rises n n'
  Keeps-Rises n n' k = record {
    counter = let e = k.counter in omega (arith, e);
    pubkey = k.pubkey;
    my_id = k.my_id;
    have_key = k.have_key;
  }

  pub Rises-trans : (a b c : Node F) → Rises a b → Rises b c → Rises a c
  Rises-trans a b c r s = record {
    counter = let x = r.counter in let y = s.counter in omega (arith, x, y);
    pubkey = s.pubkey ∙ r.pubkey;
    my_id = s.my_id ∙ r.my_id;
    have_key = s.have_key ∙ r.have_key;
  }

module _ {F : Type 0} (accepts : RadioCfg → Bool) (ble : Bool) where
  apply_power-Keeps :
      (n : Node F) (dbm : ℕ) (persist : Bool) → Keeps n (apply_power accepts ble n dbm persist).0
  unfolding apply_power
  apply_power-Keeps n dbm persist =
      elim (Bool-cases (accepts (record n.radio { power_dbm = dbm }))) [
        | inl t ↦
            rw (t, apply_power)
              (record { counter = refl; pubkey = refl; my_id = refl; have_key = refl })
        | inr f ↦ rw (f, apply_power) (kept n)
      ]

  on_power-Keeps :
      (n : Node F) (m : CtrlMsg) (reply_to : NodeId) (now_ms : ℕ)
      → Keeps n (on_power accepts ble n m reply_to now_ms).0
  unfolding on_power
  on_power-Keeps n m reply_to now_ms =
      let want = wanted m in
      let armed = record n {
        revert_dbm = n.radio.power_dbm;
        pending_dbm = want;
        revert_ms = add32 now_ms ctrl_revert_window_ms;
      } in
      let k = apply_power-Keeps armed want false in
      let l = apply_power-Keeps n want false in
      elim (Bool-cases (int8_lt want n.radio.power_dbm)) [
        | inl t ↦ rw t (record {
          counter = k.counter;
          pubkey = k.pubkey;
          my_id = k.my_id;
          have_key = k.have_key;
        })
        | inr f ↦ rw f (record {
          counter = l.counter;
          pubkey = l.pubkey;
          my_id = l.my_id;
          have_key = l.have_key;
        })
      ]

  on_confirm-Keeps :
      (n : Node F) (m : CtrlMsg) (reply_to : NodeId)
      → Keeps n (on_confirm accepts ble n m reply_to).0
  unfolding on_confirm
  on_confirm-Keeps n m reply_to =
      elim (Bool-cases (not (n.revert_ms == 0) && (m.arg == n.pending_dbm))) [
        | inl t ↦
            let k = apply_power-Keeps (record n { revert_ms = 0 }) n.pending_dbm false in
            rw t (record {
              counter = k.counter;
              pubkey = k.pubkey;
              my_id = k.my_id;
              have_key = k.have_key;
            })
        | inr f ↦ rw f (kept n)
      ]

  on_block-Keeps :
      (n : Node F) (m : CtrlMsg) (reply_to : NodeId) (now_ms : ℕ)
      → Keeps n (on_block accepts ble n m reply_to now_ms).0
  unfolding on_block
  on_block-Keeps n m reply_to now_ms = elim (Bool-cases (is_zero m.aux || bytes_eq m.aux n.my_id)) [
    | inl t ↦ rw t (kept n)
    | inr f ↦ elim (Bool-cases (Router.block n.router m.aux).1) [
      | inl ok ↦
          rw (f, ok) (record { counter = refl; pubkey = refl; my_id = refl; have_key = refl })
      | inr bad ↦
          rw (f, bad) (record { counter = refl; pubkey = refl; my_id = refl; have_key = refl })
    ]
  ]

  on_unblock-Keeps :
      (n : Node F) (m : CtrlMsg) (reply_to : NodeId)
      → Keeps n (on_unblock accepts ble n m reply_to).0
  unfolding on_unblock
  on_unblock-Keeps n m reply_to = elim (Bool-cases (is_zero m.aux)) [
    | inl t ↦ rw t (kept n)
    | inr f ↦ rw f (record { counter = refl; pubkey = refl; my_id = refl; have_key = refl })
  ]

  on_ble-Keeps :
      (n : Node F) (m : CtrlMsg) (reply_to : NodeId) (now_ms : ℕ)
      → Keeps n (on_ble accepts ble n m reply_to now_ms).0
  unfolding on_ble
  on_ble-Keeps n m reply_to now_ms = elim (Bool-cases ble) [
    | inl t ↦ rw t (kept n)
    | inr f ↦ rw f (kept n)
  ]

  on_retune-Keeps :
      (n : Node F) (m : CtrlMsg) (reply_to : NodeId) (now_ms : ℕ)
      → Keeps n (on_retune accepts ble n m reply_to now_ms).0
  unfolding on_retune
  on_retune-Keeps n m reply_to now_ms = elim (Bool-cases (is_sane (retuned n.radio m.cfg))) [
    | inl t ↦ rw t (kept n)
    | inr f ↦ rw f (kept n)
  ]

  -- Whatever the command is, the floor becomes its counter, and the keys stay.
  pub apply_verified-Keeps :
      (n : Node F) (m : CtrlMsg) (reply_to : NodeId) (now_ms : ℕ)
      → Keeps
          (record n { counter = m.counter; contact_ms = now_ms })
          (apply_verified accepts ble n m reply_to now_ms).0
  unfolding apply_verified
  apply_verified-Keeps n m reply_to now_ms =
      let n' = record n { counter = m.counter; contact_ms = now_ms } in
      elim (Bool-cases (m.cmd == ctrl_power)) [
        | inl t ↦ rw t (on_power-Keeps n' m reply_to now_ms)
        | inr f1 ↦ elim (Bool-cases (m.cmd == ctrl_confirm)) [
          | inl t ↦ rw (f1, t) (on_confirm-Keeps n' m reply_to)
          | inr f2 ↦ elim (Bool-cases (m.cmd == ctrl_block)) [
            | inl t ↦ rw (f1, f2, t) (on_block-Keeps n' m reply_to now_ms)
            | inr f3 ↦ elim (Bool-cases (m.cmd == ctrl_unblock)) [
              | inl t ↦ rw (f1, f2, f3, t) (on_unblock-Keeps n' m reply_to)
              | inr f4 ↦ elim (Bool-cases (m.cmd == ctrl_ble)) [
                | inl t ↦ rw (f1, f2, f3, f4, t) (on_ble-Keeps n' m reply_to now_ms)
                | inr f5 ↦ elim (Bool-cases (m.cmd == ctrl_retune)) [
                  | inl t ↦ rw (f1, f2, f3, f4, f5, t) (on_retune-Keeps n' m reply_to now_ms)
                  | inr f6 ↦ rw (f1, f2, f3, f4, f5, f6) (kept n')
                ]
              ]
            ]
          ]
        ]
      ]

  pub dead_man-Keeps : (n : Node F) (now_ms : ℕ) → Keeps n (dead_man accepts ble n now_ms)
  unfolding dead_man
  dead_man-Keeps n now_ms =
      let k = apply_power-Keeps (record n { revert_ms = 0 }) n.revert_dbm false in
      elim (Bool-cases (not (n.revert_ms == 0) && not (before32 now_ms n.revert_ms))) [
        | inl t ↦ rw t (record {
          counter = k.counter;
          pubkey = k.pubkey;
          my_id = k.my_id;
          have_key = k.have_key;
        })
        | inr f ↦ rw f (kept n)
      ]

  pub heartbeat-Keeps :
      (n : Node F) (saved : Option RadioCfg) (now_ms : ℕ)
      → Keeps n (heartbeat accepts ble n saved now_ms)
  unfolding heartbeat
  heartbeat-Keeps n saved now_ms =
      let k = apply_power-Keeps n (default_power saved) false in
      elim (Bool-cases
        (not n.power_managed || before32 now_ms (add32 n.contact_ms ctrl_heartbeat_ms))) [
          | inl t ↦ rw t (kept n)
          | inr f ↦ elim (Bool-cases (n.radio.power_dbm == default_power saved)) [
            | inl same ↦
                rw (f, same)
                  (record { counter = refl; pubkey = refl; my_id = refl; have_key = refl })
            | inr differ ↦
                rw (f, differ)
                  (record {
                    counter = k.counter;
                    pubkey = k.pubkey;
                    my_id = k.my_id;
                    have_key = k.have_key;
                  })
          ]
        ]

  pub sweep-Keeps : (n : Node F) (now_ms : ℕ) → Keeps n (sweep accepts ble n now_ms)
  unfolding sweep
  sweep-Keeps n now_ms = record { counter = refl; pubkey = refl; my_id = refl; have_key = refl }
