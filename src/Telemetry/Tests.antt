-- ===== src/Telemetry/Tests.antt =====
-- The theorems on telemetry, at a concrete reply and a concrete cache.
use agnostic_lora_net.Prelude.{
  ℕ, ◌≡◌, refl, false, List, [], ◌∷◌, ◌++◌, some, replicate, arith, sym, ◌∙◌, get_elem?,
  Every-replicate,
}
use mathlib.Core.Bool.{false≢true}
use agnostic_lora_net.Telemetry.{
  TelemNbr, no_msg, telem_reply, build_reply, parse, clip, put_nbrs, telem_cache_cap,
}
use agnostic_lora_net.Telemetry.Codec.{build_reply_lem}
use agnostic_lora_net.Telemetry.Cache.{Entry, init, no_entry, upsert, IsValid, Keeps, upsert-Keeps}

abbrev nbr : TelemNbr
nbr = record { id = replicate 16 3; q_rx = 90; q_tx = 80; snr = 7; rssi = 65_440 }

abbrev message : List ℕ
message =
    3
    ∷ 116
    ∷ 14
    ∷ 81
    ∷ 44
    ∷ 1
    ∷ 14
    ∷ 9
    ∷ 1
    ∷ 2
    ∷ 49
    ∷ 50
    ∷ 1
    ∷ 65
    ∷ 1
    ∷ (replicate 16 3 ++ (90 ∷ 80 ∷ 7 ∷ 160 ∷ 255 ∷ []))

builds_it : build_reply 3700 81 300 14 9 1 (49 ∷ 50 ∷ []) (65 ∷ []) (nbr ∷ []) 200 ≡ some message
unfolding build_reply clip put_nbrs
builds_it = refl

build_reply_lem_example :
    parse message
    ≡ some (record no_msg {
      kind = telem_reply;
      mv = 3700;
      pct_plus1 = 81;
      uptime_min = 300;
      power_dbm = 14;
      sf = 9;
      flags = 1;
      fw = 49 ∷ 50 ∷ [];
      name = 65 ∷ [];
      nbrs = nbr ∷ [];
    })
unfolding clip
build_reply_lem_example =
    build_reply_lem 3700 81 300 14 9 1 (49 ∷ 50 ∷ []) (65 ∷ []) (nbr ∷ []) 200 (omega arith)
      (omega arith) ((refl, omega arith), tt) builds_it

init-IsValid : IsValid init
init-IsValid = record {
  whole = refl;
  unique = λ i j a b ga gb d u. absurd (false≢true (sym (unused i a ga) ∙ u));
}
  where
    unused :
        (i : ℕ) (a : Entry)
        → get_elem? (replicate telem_cache_cap no_entry) i ≡ some a
        → a.used ≡ false
    unused i a g =
        Every-replicate (λ (e : Entry). e.used ≡ false) telem_cache_cap no_entry refl i a g

upsert-Keeps_example :
    Keeps init (upsert init (replicate 16 3) 3700 81 1000) (replicate 16 3) 3700 81 1000
upsert-Keeps_example = upsert-Keeps init (replicate 16 3) 3700 81 1000 init-IsValid
