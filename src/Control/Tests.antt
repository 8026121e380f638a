-- ===== src/Control/Tests.antt =====
-- The theorems on commands, with a signature that repeats the end of its message.
use agnostic_lora_net.Prelude.{
  ℕ, ◌≡◌, refl, List, [], ◌∷◌, ◌++◌, some, replicate, take, length-take, length-append, bytes_eq,
  bytes_eq_refl, arith,
}
use agnostic_lora_net.NodeId.{NodeId}
use agnostic_lora_net.Crypto.{Ed25519, IsKeyPair}
use agnostic_lora_net.Control.{CtrlVerdict, no_msg, build, verify, domain, ctrl_power}
use agnostic_lora_net.Control.Commands.{sets, issue, IsCommand, meant, verify-issue}
use agnostic_lora_net.Control.Authentic.{IsAuthentic, verify-IsAuthentic, verify_again}

-- The first 64 bytes of the key and the message, filled up with zeros.
abbrev stamp : List ℕ → List ℕ → List ℕ
stamp key m = take 64 (key ++ (m ++ replicate 64 0))

abbrev stamping : Ed25519
stamping = record { sign = stamp; check = λ sig key m. bytes_eq sig (stamp key m) }

abbrev key : List ℕ
key = 9 ∷ 8 ∷ []

stamping-IsKeyPair : IsKeyPair stamping key key
stamping-IsKeyPair = record {
  whole = λ m.
      let a = length-take 64 (key ++ (m ++ replicate 64 0)) in
      let b = length-append m (replicate 64 0) in omega (arith, a, b);
  checks = λ m. bytes_eq_refl (stamp key m);
}

abbrev target : NodeId
target = replicate 16 7

abbrev message : List ℕ
message =
    2 ∷ 1 ∷ (target ++ (14 ∷ 5 ∷ 0 ∷ 0 ∷ 0 ∷ []))
    ++ stamp key (domain ++ (2 ∷ 1 ∷ (target ++ (14 ∷ 5 ∷ 0 ∷ 0 ∷ 0 ∷ []))))

issued : issue stamping (sets ctrl_power 14) target 5 key 200 ≡ some message
unfolding issue build bytes_eq
issued = refl

verify-issue_example :
    verify stamping message key 4 no_msg
    ≡ (CtrlVerdict.ok, meant (sets ctrl_power 14) target 5 no_msg)
unfolding IsCommand
verify-issue_example =
    verify-issue stamping key key stamping-IsKeyPair (sets ctrl_power 14) target 5 200 4 no_msg tt
      refl (omega arith) (omega arith) issued

accepts_it :
    verify stamping message key 4 no_msg
    ≡ (CtrlVerdict.ok, meant (sets ctrl_power 14) target 5 no_msg)
unfolding verify meant bytes_eq
accepts_it = refl

verify-IsAuthentic_example :
    IsAuthentic stamping message key 4 no_msg (meant (sets ctrl_power 14) target 5 no_msg)
verify-IsAuthentic_example =
    verify-IsAuthentic stamping message key 4 no_msg (meant (sets ctrl_power 14) target 5 no_msg)
      accepts_it

verify_again_example : verify stamping message key 5 no_msg ≡ (CtrlVerdict.replay, no_msg)
unfolding meant
verify_again_example =
    verify_again stamping message key 4 no_msg (meant (sets ctrl_power 14) target 5 no_msg) no_msg 5
      accepts_it (omega arith)
