-- ===== src/Locator.antt =====
-- lib/mesh/locator_dir.h and locator_dir.cpp: the messages of the locator directory.
pub mod Messages
pub mod Directory
pub mod Resolver
mod Tests
use agnostic_lora_net.Prelude.{
  ℕ, ◌+◌, ◌%◌, Bool, true, false, ◌||◌, List, [], ◌∷◌, ◌++◌, Option, none, some, ltb, ◌==◌,
  if◌then◌else◌, length, drop, put_u16, get_u16,
}
use agnostic_lora_net.NodeId.{NodeId, zero_id, nid_read}

abbrev pub loc_id_max : ℕ
loc_id_max = 16

abbrev pub loc_register : ℕ
loc_register = 1

abbrev pub loc_query : ℕ
loc_query = 2

abbrev pub loc_reply : ℕ
loc_reply = 3

-- `id` is the first `id_len` bytes of the array.
pub record LocMsg : Type 0 where
  pub kind : ℕ
  pub qid : ℕ
  pub epoch : ℕ
  pub seq : ℕ
  pub ttl_s : ℕ
  pub loc : NodeId
  pub id : List ℕ

abbrev pub no_msg : LocMsg
no_msg = record { kind = 0; qid = 0; epoch = 0; seq = 0; ttl_s = 0; loc = zero_id; id = [] }

abbrev pub bad_id : List ℕ → Bool
bad_id id = (length id == 0) || ltb loc_id_max (length id)

-- The bytes written; `none` is `return 0`.
unfoldable pub build_register : ℕ → ℕ → ℕ → List ℕ → ℕ → Option (List ℕ)
build_register epoch seq ttl_s id cap =
    if bad_id id
    then none
    else if ltb cap (8 + length id)
    then none
    else some
        (loc_register ∷ (put_u16 epoch ++ (put_u16 seq ++ (put_u16 ttl_s ++ (length id ∷ id)))))

unfoldable pub build_query : ℕ → List ℕ → ℕ → Option (List ℕ)
build_query qid id cap =
    if bad_id id
    then none
    else if ltb cap (4 + length id)
    then none
    else some (loc_query ∷ (put_u16 qid ++ (length id ∷ id)))

unfoldable pub build_reply : ℕ → ℕ → ℕ → ℕ → NodeId → List ℕ → ℕ → Option (List ℕ)
build_reply qid epoch seq ttl_s loc id cap =
    if bad_id id
    then none
    else if ltb cap (26 + length id)
    then none
    else some (
        loc_reply
        ∷ (put_u16 qid
            ++ (put_u16 epoch ++ (put_u16 seq ++ (put_u16 ttl_s ++ (loc ++ (length id ∷ id)))))))

-- `read_id`, on the bytes from `p` on.
unfoldable pub read_id : LocMsg → List ℕ → Option LocMsg
read_id m [] = none
read_id m (il ∷ rest) =
    if (il == 0) || ltb loc_id_max il
    then none
    else if il == length rest
    then some (record m { id = rest })
    else none

-- `none` is `false`, whatever was written to `out` by then.
unfoldable pub parse : List ℕ → Option LocMsg
parse [] = none
parse (kind ∷ rest) =
    let msg = kind ∷ rest in
    if ltb (length msg) 2
    then none
    else if kind == loc_register
    then if ltb (length msg) 9
      then none
      else read_id
          (record no_msg {
            kind = kind;
            epoch = get_u16 msg 1;
            seq = get_u16 msg 3;
            ttl_s = get_u16 msg 5;
          })
          (drop 7 msg)
    else if kind == loc_query
    then if ltb (length msg) 5
      then none
      else read_id (record no_msg { kind = kind; qid = get_u16 msg 1 }) (drop 3 msg)
    else if kind == loc_reply
    then if ltb (length msg) 27
      then none
      else read_id
          (record no_msg {
            kind = kind;
            qid = get_u16 msg 1;
            epoch = get_u16 msg 3;
            seq = get_u16 msg 5;
            ttl_s = get_u16 msg 7;
            loc = nid_read msg 9;
          })
          (drop 25 msg)
    else none
