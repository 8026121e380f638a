-- ===== src/Kiss/Tests.antt =====
-- Runs of the framing, and the theorems at concrete frames.
use agnostic_lora_net.Prelude.{ℕ, ◌≡◌, refl, List, [], ◌∷◌, ◌++◌, some, none, arith}
use agnostic_lora_net.Kiss.{Decoder, init, encode, encode_loop, feed, feed_all, frame}
use agnostic_lora_net.Kiss.Capacity.{encode_total}
use agnostic_lora_net.Kiss.RoundTrip.{IsReady, idle, send, feed_all-encode, feed_all-recovers}

-- A command 0 with the payload 0xc0 0x41 0xdb.
abbrev stuffed_frame : List ℕ
stuffed_frame = 0xc0 ∷ 0x00 ∷ 0xdb ∷ 0xdc ∷ 0x41 ∷ 0xdb ∷ 0xdd ∷ 0xc0 ∷ []

encode-runs : encode 0 (0xc0 ∷ 0x41 ∷ 0xdb ∷ []) 64 ≡ some stuffed_frame
unfolding encode encode_loop
encode-runs = refl

encode_full : encode 0 (0xc0 ∷ 0x41 ∷ 0xdb ∷ []) 7 ≡ none
unfolding encode encode_loop
encode_full = refl

small : Decoder
small = record init { buf = 0 ∷ 0 ∷ 0 ∷ 0 ∷ 0 ∷ 0 ∷ 0 ∷ 0 ∷ [] }

feed_all-runs : (feed_all small (0x0d ∷ stuffed_frame)).1 ≡ (0x00 ∷ 0xc0 ∷ 0x41 ∷ 0xdb ∷ []) ∷ []
unfolding small feed_all feed frame
feed_all-runs = refl

init-IsReady : IsReady init
init-IsReady = record { clear = refl; whole = refl }

feed_all-encode_example : (feed_all init stuffed_frame).1 ≡ (0 ∷ 0xc0 ∷ 0x41 ∷ 0xdb ∷ []) ∷ []
feed_all-encode_example =
    feed_all-encode 64 init init-IsReady
      (send 0 (0xc0 ∷ 0x41 ∷ 0xdb ∷ []) stuffed_frame encode-runs idle)

encode_total_example : (out : List ℕ) × (encode 5 (0xdb ∷ []) 6 ≡ some out)
encode_total_example = encode_total 5 (0xdb ∷ []) 6 (omega arith)

-- The bytes before end in the middle of an escape.
feed_all-recovers_example :
    (feed_all init (((0xc0 ∷ 0x41 ∷ 0xdb ∷ []) ++ (0xc0 ∷ [])) ++ stuffed_frame)).1
    ≡ (feed_all init ((0xc0 ∷ 0x41 ∷ 0xdb ∷ []) ++ (0xc0 ∷ []))).1
      ++ ((0 ∷ 0xc0 ∷ 0x41 ∷ 0xdb ∷ []) ∷ [])
feed_all-recovers_example =
    feed_all-recovers 64 init (0xc0 ∷ 0x41 ∷ 0xdb ∷ []) refl
      (send 0 (0xc0 ∷ 0x41 ∷ 0xdb ∷ []) stuffed_frame encode-runs idle)
