-- ===== src/Telemetry.antt =====
-- lib/mesh/telemetry.h and telemetry.cpp: battery reports, status queries and replies.
mod Tests
pub mod Codec
pub mod Cache
use agnostic_lora_net.Prelude.{
  ℕ, suc, zero, ◌+◌, ◌*◌, ◌%◌, ◌/◌, ◌^◌, Bool, true, false, not, ◌&&◌, ◌||◌, List, [], ◌∷◌, ◌++◌,
  Option, none, some, ltb, leb, ◌==◌, if◌then◌else◌, length, get_or, take, drop, put_u16, get_u16,
  find_index, find_slot, modify, bytes_eq, replicate, sub32, before32,
}
use agnostic_lora_net.NodeId.{NodeId, zero_id, is_zero, nid_read}

abbrev pub telem_batt : ℕ
telem_batt = 1

abbrev pub telem_query : ℕ
telem_query = 2

abbrev pub telem_reply : ℕ
telem_reply = 3

abbrev pub telem_fw_max : ℕ
telem_fw_max = 12

abbrev pub telem_name_max : ℕ
telem_name_max = 20

abbrev pub telem_nbr_max : ℕ
telem_nbr_max = 16

abbrev pub telem_cache_cap : ℕ
telem_cache_cap = 16

-- A signed field is the unsigned number that it is cast to.
pub record TelemNbr : Type 0 where
  pub id : NodeId
  pub q_rx : ℕ
  pub q_tx : ℕ
  pub snr : ℕ
  pub rssi : ℕ

-- `fw` and `name` are the characters before the terminating zero, `nbrs` the first `n_nbrs`.
pub record TelemMsg : Type 0 where
  pub kind : ℕ
  pub mv : ℕ
  pub pct_plus1 : ℕ
  pub target : NodeId
  pub uptime_min : ℕ
  pub power_dbm : ℕ
  pub sf : ℕ
  pub flags : ℕ
  pub fw : List ℕ
  pub name : List ℕ
  pub nbrs : List TelemNbr

abbrev pub no_msg : TelemMsg
no_msg = record {
  kind = 0;
  mv = 0;
  pct_plus1 = 0;
  target = zero_id;
  uptime_min = 0;
  power_dbm = 0;
  sf = 0;
  flags = 0;
  fw = [];
  name = [];
  nbrs = [];
}

-- The bytes written; `none` is `return 0`.
unfoldable pub build_batt : ℕ → ℕ → ℕ → Option (List ℕ)
build_batt mv pct_plus1 room =
    if ltb room 4 then none else some (telem_batt ∷ (put_u16 mv ++ (pct_plus1 ∷ [])))

unfoldable pub build_query : NodeId → ℕ → Option (List ℕ)
build_query target room =
    if ltb room 17 || is_zero target then none else some (telem_query ∷ target)

-- The characters of a string up to its end, and at most `n`; a null pointer is an empty string.
unfoldable pub clip : ℕ → List ℕ → List ℕ
clip zero s = []
clip (suc n) [] = []
clip (suc n) (b ∷ s) = let rest = clip n s in if b == 0 then [] else b ∷ rest

unfoldable pub put_nbrs : List TelemNbr → List ℕ
put_nbrs [] = []
put_nbrs (n ∷ ns) = n.id ++ (n.q_rx ∷ n.q_tx ∷ n.snr ∷ (put_u16 n.rssi ++ put_nbrs ns))

unfoldable pub build_reply :
    ℕ → ℕ → ℕ → ℕ → ℕ → ℕ → List ℕ → List ℕ → List TelemNbr → ℕ → Option (List ℕ)
build_reply mv pct_plus1 uptime_min power_dbm sf flags fw name nbrs room =
    let fw' = clip telem_fw_max fw in
    let name' = clip telem_name_max name in
    let nbrs' = take telem_nbr_max nbrs in
    if ltb room (10 + length fw' + 1 + length name' + 1 + length nbrs' * 21)
    then none
    else some (
        telem_reply
        ∷ (put_u16 mv
            ++ (pct_plus1
                ∷ (put_u16 uptime_min
                    ++ (power_dbm
                        ∷ sf
                        ∷ flags
                        ∷ length fw'
                        ∷ (fw' ++ (length name' ∷ (name' ++ (length nbrs' ∷ put_nbrs nbrs')))))))))

-- A string at `p`, of at most `most` characters, which one byte more follows: the string, and
-- where `p` is after it.
unfoldable pub get_string : ℕ → List ℕ → Option (List ℕ × List ℕ)
get_string most [] = none
get_string most (n ∷ p) =
    if ltb most n || ltb (length p) (n + 1) then none else some (take n p, drop n p)

unfoldable pub get_nbrs : ℕ → List ℕ → List TelemNbr
get_nbrs zero p = []
get_nbrs (suc n) p =
    record {
      id = nid_read p 0;
      q_rx = get_or p 16 0;
      q_tx = get_or p 17 0;
      snr = get_or p 18 0;
      rssi = get_u16 p 19;
    }
    ∷ get_nbrs n (drop 21 p)

-- The neighbours at `p`, and the message that they complete.
unfoldable pub get_reply : TelemMsg → List ℕ → Option TelemMsg
get_reply m [] = none
get_reply m (n ∷ p) =
    if ltb telem_nbr_max n || ltb (length p) (n * 21)
    then none
    else some (record m { nbrs = get_nbrs n p })

-- `none` is `false`, whatever was written to `out` by then.
unfoldable pub parse : List ℕ → Option TelemMsg
parse [] = none
parse (kind ∷ rest) =
    let msg = kind ∷ rest in
    if kind == telem_batt
    then if ltb (length msg) 4
      then none
      else some (record no_msg { kind = kind; mv = get_u16 msg 1; pct_plus1 = get_or msg 3 0 })
    else if kind == telem_query
    then if ltb (length msg) 17
      then none
      else if is_zero (nid_read msg 1)
      then none
      else some (record no_msg { kind = kind; target = nid_read msg 1 })
    else if kind == telem_reply
    then if ltb (length msg) 11 then none else elim (get_string telem_fw_max (drop 9 msg)) [
      | none ↦ none
      | some (fw, p) ↦ elim (get_string telem_name_max p) [
        | none ↦ none
        | some (name, p') ↦
            get_reply
              (record no_msg {
                kind = kind;
                mv = get_u16 msg 1;
                pct_plus1 = get_or msg 3 0;
                uptime_min = get_u16 msg 4;
                power_dbm = get_or msg 6 0;
                sf = get_or msg 7 0;
                flags = get_or msg 8 0;
                fw = fw;
                name = name;
              })
              p'
      ]
    ]
    else none
