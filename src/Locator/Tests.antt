-- ===== src/Locator/Tests.antt =====
-- The theorem on the messages of the locator directory, at a concrete message.
use agnostic_lora_net.Prelude.{ℕ, ◌≡◌, refl, List, [], ◌∷◌, ◌++◌, some, replicate, arith}
use agnostic_lora_net.Locator.{loc_reply, build_reply, parse}
use agnostic_lora_net.Locator.Messages.{parse-build_reply}

abbrev some_id : List ℕ
some_id = 0xab ∷ 0xcd ∷ []

parse-build_reply_example :
    parse (3 ∷ 9 ∷ 0 ∷ 7 ∷ 0 ∷ 44 ∷ 1 ∷ 60 ∷ 0 ∷ (replicate 16 5 ++ (2 ∷ some_id)))
    ≡ some (record {
      kind = loc_reply;
      qid = 9;
      epoch = 7;
      seq = 300;
      ttl_s = 60;
      loc = replicate 16 5;
      id = some_id;
    })
unfolding build_reply
parse-build_reply_example =
    parse-build_reply 9 7 300 60 (replicate 16 5) some_id 64 (omega arith) (omega arith)
      (omega arith) (omega arith) refl refl
