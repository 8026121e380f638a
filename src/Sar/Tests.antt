-- ===== src/Sar/Tests.antt =====
-- Runs of the transfer, and the theorems at concrete blobs.
use agnostic_lora_net.Prelude.{
  ℕ, ◌<◌, ◌≡◌, refl, true, false, List, [], ◌∷◌, ◌++◌, some, arith, length, take, replicate, inr,
}
use agnostic_lora_net.Sar.{
  Reassembler, init, add, add_all, build_fragment, complete, verify, crc32, frag_count, put_header,
}
use agnostic_lora_net.Sar.Bitmap.{bit, ones}
use agnostic_lora_net.Sar.Invariant.{
  IsWellFormed, init-IsWellFormed, add-IsWellFormed, complete-bit,
}
use agnostic_lora_net.Sar.Fragment.{header_of}
use agnostic_lora_net.Sar.Reassembly.{
  Fragments, done, next, IsIdle, listed, add_all-verify, add_all-complete,
}

-- The check value of CRC-32: "123456789".
crc32-check : crc32 (0x31 ∷ 0x32 ∷ 0x33 ∷ 0x34 ∷ 0x35 ∷ 0x36 ∷ 0x37 ∷ 0x38 ∷ 0x39 ∷ []) ≡ 0xcbf43926
unfolding crc32
crc32-check = refl

abbrev blob : List ℕ
blob = 7 ∷ 8 ∷ 9 ∷ []

abbrev payload : List ℕ
payload = put_header (header_of blob 5 (crc32 blob) 0) ++ blob

build_fragment-runs : build_fragment blob 5 (crc32 blob) 0 200 ≡ some payload
unfolding build_fragment
build_fragment-runs = refl

one_fragment : Fragments blob 5 (0 ∷ []) (payload ∷ [])
one_fragment = next 0 200 payload build_fragment-runs done

init-IsIdle : IsIdle 5 init
init-IsIdle = refl

covers : (i : ℕ) → i < frag_count (length blob) → listed i (0 ∷ []) ≡ true
covers i lt = ground arith

add_all-verify_example :
    (verify (add_all init (payload ∷ [])) ≡ true)
    × (take 3 (add_all init (payload ∷ [])).buf ≡ blob)
add_all-verify_example =
    add_all-verify blob 5 (omega arith) (omega arith) init refl init-IsIdle one_fragment
      (omega arith) covers

verify-complete : (r : Reassembler) → verify r ≡ true → complete r ≡ true
unfolding verify
verify-complete r h = ground arith

add_all-complete_example : listed 0 (0 ∷ []) ≡ true
add_all-complete_example =
    add_all-complete blob 5 (omega arith) (omega arith) init 0 refl init-IsIdle one_fragment
      (verify-complete _ add_all-verify_example.0) (omega arith)

add-IsWellFormed_example : IsWellFormed (add init payload).0
add-IsWellFormed_example = add-IsWellFormed init payload init-IsWellFormed

-- Two fragments announced, none in.
abbrev announced : Reassembler
announced = record init { active = true; xfer_id = 5; frags = 2; total_len = 200 }

announced-IsWellFormed : IsWellFormed announced
announced-IsWellFormed = record {
  bits = refl;
  bytes = refl;
  sound = inr (record {
    few = omega arith;
    small = omega arith;
    counted = unfold ones in refl;
    sized = refl;
  });
}

-- One fragment, and it is in.
abbrev finished : Reassembler
finished = record init {
  active = true;
  xfer_id = 5;
  frags = 1;
  total_len = 3;
  got_count = 1;
  got = true ∷ replicate 52 false;
}

complete-bit_example : bit finished.got 0 ≡ true
unfolding complete ones
complete-bit_example =
    complete-bit finished 0
      (record {
        bits = refl;
        bytes = refl;
        sound =
            inr (record { few = omega arith; small = omega arith; counted = refl; sized = refl });
      })
      refl (omega arith)
