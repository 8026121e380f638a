-- ===== src/Firmware/Once.antt =====
-- Runs of commands and rails of src/main.cpp, and how often they carry a command out.
use agnostic_lora_net.Prelude.{
  ℕ, ◌≤◌, ◌≡◌, ◌⊎◌, refl, subst, sym, ap, ◌∙◌, inl, inr, Bool, true, ◌&&◌, List, [], ◌∷◌, Option,
  leb, length, take, drop, bytes_eq, Bool-cases, arith,
}
use agnostic_lora_net.NodeId.{NodeId}
use agnostic_lora_net.Crypto.{Ed25519}
use agnostic_lora_net.Control.{CtrlVerdict, CtrlMsg, no_msg, ctrl_msg_bytes, verify}
use agnostic_lora_net.Control.Authentic.{verify-IsAuthentic, verify_again}
use agnostic_lora_net.Firmware.Floor.{
  Rises, kept, Keeps-Rises, Rises-trans, apply_verified-Keeps, dead_man-Keeps, heartbeat-Keeps,
  sweep-Keeps,
}
use agnostic_lora_net.Firmware.{
  RadioCfg, Node, apply_verified, on_command, dead_man, heartbeat, sweep,
}

-- What may happen to a node.
pub data Event : Type 0 where
  hears : (pay : List ℕ) (src : NodeId) (now_ms : ℕ) → Event
  waits_for_confirm : (now_ms : ℕ) → Event
  waits_for_controller : (saved : Option RadioCfg) (now_ms : ℕ) → Event
  waits_for_blocks : (now_ms : ℕ) → Event

verdict_cases :
    (v : CtrlVerdict)
    → (v ≡ CtrlVerdict.ok)
      ⊎ ((v ≡ CtrlVerdict.malformed) ⊎ ((v ≡ CtrlVerdict.bad_sig) ⊎ (v ≡ CtrlVerdict.replay)))
verdict_cases CtrlVerdict.ok = inl refl
verdict_cases CtrlVerdict.malformed = inr (inl refl)
verdict_cases CtrlVerdict.bad_sig = inr (inr (inl refl))
verdict_cases CtrlVerdict.replay = inr (inr (inr refl))

module _ {F : Type 0} (accepts : RadioCfg → Bool) (ble : Bool) where
  module _ (c : Ed25519) where
    abbrev pub is_for : Node F → List ℕ → Bool
    is_for n pay =
        leb ctrl_msg_bytes (length pay) && (n.have_key && bytes_eq (take 16 (drop 2 pay)) n.my_id)

    -- The counter of a node never falls, and a command is carried out only from above it.
    on_command-Rises :
        (n : Node F) (pay : List ℕ) (src : NodeId) (now_ms : ℕ)
        → Rises n (on_command accepts ble c n pay src now_ms).0
    unfolding on_command
    on_command-Rises n pay src now_ms =
        let (v, m) = verify c pay n.pubkey n.counter no_msg in
        elim (Bool-cases (is_for n pay)) [
          | inr f ↦ rw f (Keeps-Rises n n (kept n))
          | inl t ↦ elim (verdict_cases v) [
            | inr (inl e) ↦ rw (t, e) (Keeps-Rises n n (kept n))
            | inr (inr (inl e)) ↦ rw (t, e) (Keeps-Rises n n (kept n))
            | inr (inr (inr e)) ↦ rw (t, e) (Keeps-Rises n n (kept n))
            | inl e ↦
                let k = apply_verified-Keeps accepts ble n m src now_ms in
                let ok : verify c pay n.pubkey n.counter no_msg ≡ (CtrlVerdict.ok, m) =
                  ap (λ z. (z, m)) e in
                let a = verify-IsAuthentic c pay n.pubkey n.counter no_msg m ok in
                rw (t, e)
                  (record {
                    counter = let x = a.fresh in let y = k.counter in omega (arith, x, y);
                    pubkey = k.pubkey;
                    my_id = k.my_id;
                    have_key = k.have_key;
                  })
          ]
        ]

    unfoldable pub handle : Node F → Event → Node F
    handle n (hears pay src now_ms) = (on_command accepts ble c n pay src now_ms).0
    handle n (waits_for_confirm now_ms) = dead_man accepts ble n now_ms
    handle n (waits_for_controller saved now_ms) = heartbeat accepts ble n saved now_ms
    handle n (waits_for_blocks now_ms) = sweep accepts ble n now_ms

    unfoldable pub handled : Node F → List Event → Node F
    handled n [] = n
    handled n (e ∷ es) = handled (handle n e) es

    handle-Rises : (n : Node F) (e : Event) → Rises n (handle n e)
    unfolding handle
    handle-Rises n (hears pay src now_ms) = on_command-Rises n pay src now_ms
    handle-Rises n (waits_for_confirm now_ms) =
        Keeps-Rises n _ (dead_man-Keeps accepts ble n now_ms)
    handle-Rises n (waits_for_controller saved now_ms) =
        Keeps-Rises n _ (heartbeat-Keeps accepts ble n saved now_ms)
    handle-Rises n (waits_for_blocks now_ms) = Keeps-Rises n _ (sweep-Keeps accepts ble n now_ms)

    handled-Rises : (n : Node F) (es : List Event) → Rises n (handled n es)
    unfolding handled
    handled-Rises n [] = Keeps-Rises n n (kept n)
    handled-Rises n (e ∷ es) =
        Rises-trans n (handle n e) (handled (handle n e) es) (handle-Rises n e)
          (handled-Rises (handle n e) es)

    on_command_replayed :
        (n : Node F) (pay : List ℕ) (src : NodeId) (now_ms : ℕ)
        → verify c pay n.pubkey n.counter no_msg ≡ (CtrlVerdict.replay, no_msg)
        → on_command accepts ble c n pay src now_ms ≡ (n, [])
    unfolding on_command
    on_command_replayed n pay src now_ms e = elim (Bool-cases (is_for n pay)) [
      | inr f ↦ rw f
      | inl t ↦ rw (t, e)
    ]

    -- A command that a node carried out has no effect on it ever again: whatever signed commands it
    -- hears and whatever rails fire in between, and whoever sends the bytes again, the node stays as
    -- it is and does nothing.
    pub on_command_once :
        (n : Node F) (pay : List ℕ) (src : NodeId) (now_ms : ℕ) (m : CtrlMsg)
        → is_for n pay ≡ true
        → verify c pay n.pubkey n.counter no_msg ≡ (CtrlVerdict.ok, m)
        → (es : List Event) (src' : NodeId) (later_ms : ℕ)
        → let n' = handled (on_command accepts ble c n pay src now_ms).0 es in
          on_command accepts ble c n' pay src' later_ms ≡ (n', [])
    unfolding on_command
    on_command_once n pay src now_ms m t ok es src' later_ms =
        let done = (apply_verified accepts ble n m src now_ms).0 in
        let carried : (on_command accepts ble c n pay src now_ms).0 ≡ done = rw (t, ok, ok) in
        let n' = handled (on_command accepts ble c n pay src now_ms).0 es in
        let k = apply_verified-Keeps accepts ble n m src now_ms in
        let r : Rises done n' =
          subst (λ z. Rises z n') carried
            (handled-Rises (on_command accepts ble c n pay src now_ms).0 es) in
        let above : m.counter ≤ n'.counter =
          let x = r.counter in let y = k.counter in omega (arith, x, y) in
        on_command_replayed n' pay src' later_ms (
          subst (λ z. verify c pay z n'.counter no_msg ≡ (CtrlVerdict.replay, no_msg))
            (sym (r.pubkey ∙ k.pubkey))
            (verify_again c pay n.pubkey n.counter no_msg m no_msg n'.counter ok above))
