-- ===== src/Firmware/Rails.antt =====
-- The dead-man of a lowered power, with the rails of the loop that run while it waits.
use agnostic_lora_net.Prelude.{
  ℕ, ◌+◌, ◌-◌, ◌%◌, ◌^◌, ◌<◌, ◌≡◌, ◌≢◌, refl, ◌≤◌, sym, ◌∙◌, inl, inr, Bool, true, false, not, ◌&&◌,
  List, [], ◌∷◌, Option, ◌==◌, Bool-cases, add32, before32, arith,
}
use agnostic_lora_net.NodeId.{NodeId}
use agnostic_lora_net.Control.{CtrlMsg, ctrl_power}
use agnostic_lora_net.Firmware.{
  RadioCfg, Node, int8_lt, wanted, ctrl_revert_window_ms, ctrl_heartbeat_ms, apply_power, on_power,
  apply_verified, dead_man, sweep, heartbeat, rails,
}

-- Rounds of the loop that lie within the window.
abbrev pub InWindow : List (ℕ × Option RadioCfg) → Type 0
InWindow [] = Unit {0}
InWindow (e ∷ es) = (e.0 < ctrl_revert_window_ms) × InWindow es

module _ {F : Type 0} (accepts : RadioCfg → Bool) (ble : Bool) where
  apply_power_accepted :
      (n : Node F) (dbm : ℕ) (persist : Bool)
      → accepts (record n.radio { power_dbm = dbm }) ≡ true
      → (apply_power accepts ble n dbm persist).0 ≡ record n {
        radio = record n.radio { power_dbm = dbm };
        rf_work = record n.radio { power_dbm = dbm };
      }
  unfolding apply_power
  apply_power_accepted n dbm persist a = rw (a, apply_power)

  -- What the node is left with by a command that lowers its power.
  abbrev lowered_to : Node F → CtrlMsg → ℕ → Node F
  lowered_to n m now_ms = record n {
    counter = m.counter;
    contact_ms = now_ms;
    revert_dbm = n.radio.power_dbm;
    pending_dbm = wanted m;
    revert_ms = add32 now_ms ctrl_revert_window_ms;
    power_managed = true;
    radio = record n.radio { power_dbm = wanted m };
    rf_work = record n.radio { power_dbm = wanted m };
  }

  apply_verified_lowers :
      (n : Node F) (m : CtrlMsg) (reply_to : NodeId) (now_ms : ℕ)
      → m.cmd ≡ ctrl_power
      → int8_lt (wanted m) n.radio.power_dbm ≡ true
      → accepts (record n.radio { power_dbm = wanted m }) ≡ true
      → (apply_verified accepts ble n m reply_to now_ms).0 ≡ lowered_to n m now_ms
  unfolding apply_verified on_power
  apply_verified_lowers n m reply_to now_ms is_power lt ok =
      let n' = record n {
        counter = m.counter;
        contact_ms = now_ms;
        revert_dbm = n.radio.power_dbm;
        pending_dbm = wanted m;
        revert_ms = add32 now_ms ctrl_revert_window_ms;
      } in
      rw (is_power, lt, apply_power_accepted n' (wanted m) false ok)

  dead_man_fires :
      (n : Node F) (now_ms : ℕ)
      → n.revert_ms ≢ 0
      → before32 now_ms n.revert_ms ≡ false
      → accepts (record n.radio { power_dbm = n.revert_dbm }) ≡ true
      → ((dead_man accepts ble n now_ms).radio ≡ record n.radio { power_dbm = n.revert_dbm })
        × ((dead_man accepts ble n now_ms).revert_ms ≡ 0)
  unfolding dead_man
  dead_man_fires n now_ms ne late ok =
      let armed : (n.revert_ms == 0) ≡ false = ground arith in
      rw (armed, late, apply_power_accepted (record n { revert_ms = 0 }) n.revert_dbm false ok)
        (refl, refl)

  -- What the rails go by is as the command at `now_ms` left it.
  record Armed (n n' : Node F) (now_ms : ℕ) : Type 0 where
    revert_ms : n'.revert_ms ≡ add32 now_ms ctrl_revert_window_ms
    revert_dbm : n'.revert_dbm ≡ n.revert_dbm
    contact_ms : n'.contact_ms ≡ now_ms
    radio : n'.radio ≡ n.radio

  rails-Armed :
      (n n' : Node F) (now_ms delay_ms : ℕ) (saved : Option RadioCfg)
      → delay_ms < ctrl_revert_window_ms
      → Armed n n' now_ms
      → Armed n (rails accepts ble n' saved (add32 now_ms delay_ms)) now_ms
  unfolding rails dead_man sweep heartbeat
  rails-Armed n n' now_ms delay_ms saved short a =
      let t = add32 now_ms delay_ms in
      let early : before32 t (add32 now_ms ctrl_revert_window_ms) ≡ true =
        let far : 2 ^ 31 ≤ (t + 2 ^ 32 - add32 now_ms ctrl_revert_window_ms) % 2 ^ 32 =
          omega (arith, short) in
        ground arith in
      let in_contact : before32 t (add32 now_ms ctrl_heartbeat_ms) ≡ true =
        let far : 2 ^ 31 ≤ (t + 2 ^ 32 - add32 now_ms ctrl_heartbeat_ms) % 2 ^ 32 =
          omega (arith, short) in
        ground arith in
      let off : (not (n'.revert_ms == 0) && not (before32 t n'.revert_ms)) ≡ false =
        rw (a.revert_ms, early) (ground arith) in
      let on : before32 t (add32 n'.contact_ms ctrl_heartbeat_ms) ≡ true =
        rw a.contact_ms in_contact in
      elim (Bool-cases n'.power_managed) [
        | inl managed ↦
            rw (off, on, managed)
              (record {
                revert_ms = a.revert_ms;
                revert_dbm = a.revert_dbm;
                contact_ms = a.contact_ms;
                radio = a.radio;
              })
        | inr unmanaged ↦
            rw (off, unmanaged)
              (record {
                revert_ms = a.revert_ms;
                revert_dbm = a.revert_dbm;
                contact_ms = a.contact_ms;
                radio = a.radio;
              })
      ]

  -- The rounds of the loop, each at its delay after `now_ms` and with what `rf_read` finds.
  unfoldable pub rounds : Node F → ℕ → List (ℕ × Option RadioCfg) → Node F
  rounds n now_ms [] = n
  rounds n now_ms (e ∷ es) = rounds (rails accepts ble n e.1 (add32 now_ms e.0)) now_ms es

  rounds-Armed :
      (n n' : Node F) (now_ms : ℕ) (es : List (ℕ × Option RadioCfg))
      → InWindow es
      → Armed n n' now_ms
      → Armed n (rounds n' now_ms es) now_ms
  unfolding rounds
  rounds-Armed n n' now_ms [] h a = a
  rounds-Armed n n' now_ms (e ∷ es) h a =
      rounds-Armed n (rails accepts ble n' e.1 (add32 now_ms e.0)) now_ms es h.1
        (rails-Armed n n' now_ms e.0 e.1 h.0 a)

  -- A signed POWER command that lowers the power is undone. Let the radio take both powers, and the
  -- end of the window not be at the time 0, which stands for no dead-man. However often the loop runs
  -- the rails within the window, the power stays lowered; and when it runs the dead-man at the end of
  -- the window or up to 2^31 ms later, no command having been carried out in between, the radio is as
  -- it was before the command, and the dead-man is disarmed.
  pub dead_man-on_power :
      (n : Node F) (m : CtrlMsg) (reply_to : NodeId) (now_ms late_ms : ℕ)
      (es : List (ℕ × Option RadioCfg))
      → m.cmd ≡ ctrl_power
      → int8_lt (wanted m) n.radio.power_dbm ≡ true
      → accepts (record n.radio { power_dbm = wanted m }) ≡ true
      → accepts n.radio ≡ true
      → add32 now_ms ctrl_revert_window_ms ≢ 0
      → InWindow es
      → late_ms < 2 ^ 31
      → let waited = rounds (apply_verified accepts ble n m reply_to now_ms).0 now_ms es in
        let later = dead_man accepts ble waited (add32 now_ms (ctrl_revert_window_ms + late_ms)) in
        (waited.radio ≡ record n.radio { power_dbm = wanted m })
        × (later.radio ≡ n.radio)
        × (later.revert_ms ≡ 0)
  dead_man-on_power n m reply_to now_ms late_ms es is_power lt ok back ne inside late =
      let lowered = lowered_to n m now_ms in
      let waited = rounds lowered now_ms es in
      let a =
        rounds-Armed lowered lowered now_ms es inside
          (record { revert_ms = refl; revert_dbm = refl; contact_ms = refl; radio = refl }) in
      let later = add32 now_ms (ctrl_revert_window_ms + late_ms) in
      let passed : before32 later (add32 now_ms ctrl_revert_window_ms) ≡ false =
        let small : (later + 2 ^ 32 - add32 now_ms ctrl_revert_window_ms) % 2 ^ 32 < 2 ^ 31 =
          omega (arith, late) in
        ground arith in
      let armed : waited.revert_ms ≢ 0 = λ z. ne (sym a.revert_ms ∙ z) in
      let due : before32 later waited.revert_ms ≡ false = rw a.revert_ms passed in
      let restored : record waited.radio { power_dbm = waited.revert_dbm } ≡ n.radio =
        rw (a.radio, a.revert_dbm) refl in
      let (radio, disarmed) = dead_man_fires waited later armed due (rw restored back) in
      rw (apply_verified_lowers n m reply_to now_ms is_power lt ok)
        (a.radio, radio ∙ restored, disarmed)
