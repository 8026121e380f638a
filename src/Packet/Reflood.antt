-- ===== src/Packet/Reflood.antt =====
-- loc_reflood of src/main.cpp: the headers of a flooded frame, before and after it is sent on.
use agnostic_lora_net.Prelude.{
  ℕ, ◌+◌, ◌^◌, ◌≤◌, ◌<◌, ◌≡◌, refl, sym, ap, ◌∙◌, false, List, [], ◌∷◌, ◌++◌, append_assoc, some,
  ltb, length, put_u16, write_at, le→ltb_false, take-part, drop-part_all, get_or-part, pair_lem,
  arith, length-append,
}
use agnostic_lora_net.NodeId.{IsNodeId}
use agnostic_lora_net.TxQueue.{max_payload}
use agnostic_lora_net.Packet.{
  LinkHeader, NetHeader, link_addr_none, link_addr_broadcast, put_link, put_net, get_net,
  link_bytes, reflood,
}

-- A header whose ids have their sixteen bytes, and whose packet id has sixteen bits.
pub record IsNet (n : NetHeader) : Type 0 where
  pub dst : IsNodeId n.dst
  pub src : IsNodeId n.src
  pub pkt_id : n.pkt_id < 2 ^ 16

-- The bytes of a frame.
abbrev pub frame : LinkHeader → NetHeader → List ℕ → List ℕ
frame l n payload = put_link l ++ (put_net n ++ payload)

write_at_over :
    (xs ys rest : List ℕ) → length xs ≡ length ys → write_at (xs ++ rest) 0 ys ≡ ys ++ rest
unfolding write_at
write_at_over [] [] [] h = refl
write_at_over [] [] (r ∷ rest) h = refl
write_at_over [] (y ∷ ys) rest h = absurd (omega (arith, h))
write_at_over (x ∷ xs) [] rest h = absurd (omega (arith, h))
write_at_over (x ∷ xs) (y ∷ ys) rest h =
    ap (λ z. y ∷ z) (write_at_over xs ys rest (omega (arith, h)))

fields :
    (n : NetHeader) (payload : List ℕ)
    → put_net n ++ payload
      ≡ n.ver_type ∷ n.flags ∷ n.ttl ∷ (n.dst ++ (n.src ++ (put_u16 n.pkt_id ++ payload)))
fields n payload =
    ap (λ z. n.ver_type ∷ n.flags ∷ n.ttl ∷ z)
      (append_assoc n.dst (n.src ++ put_u16 n.pkt_id) payload
        ∙ ap (λ z. n.dst ++ z) (append_assoc n.src (put_u16 n.pkt_id) payload))

pub length-put_net : (n : NetHeader) → IsNet n → length (put_net n) ≡ 37
length-put_net n v =
    let d = v.dst in
    let s = v.src in
    rw
      (
        length-append n.dst (n.src ++ put_u16 n.pkt_id),
        length-append n.src (put_u16 n.pkt_id),
        d,
        s,
      )
      refl

-- The header that was put into a frame is read from it.
pub get_net-put_net :
    (l : LinkHeader) (n : NetHeader) (payload : List ℕ) → IsNet n → get_net (frame l n payload) ≡ n
get_net-put_net l n payload v =
    let tail = n.src ++ (put_u16 n.pkt_id ++ payload) in
    let d : IsNodeId n.dst = v.dst in
    let s : IsNodeId n.src = v.src in
    rw
      (
        fields n payload,
        take-part 16 n.dst tail d,
        drop-part_all 16 n.dst tail d,
        take-part 16 n.src (put_u16 n.pkt_id ++ payload) s,
        get_or-part 16 n.dst tail d 16,
        get_or-part 16 n.dst tail d 17,
        get_or-part 16 n.src (put_u16 n.pkt_id ++ payload) s 0,
        get_or-part 16 n.src (put_u16 n.pkt_id ++ payload) s 1,
        pair_lem n.pkt_id v.pkt_id,
      )
      refl

-- A frame whose link header and time to live are written anew keeps the rest.
pub restamped :
    (l l' : LinkHeader) (n : NetHeader) (payload : List ℕ) (out_ttl : ℕ)
    → IsNet n
    → write_at (write_at (frame l n payload) 0 (put_link l')) link_bytes (
        put_net (record (get_net (write_at (frame l n payload) 0 (put_link l'))) { ttl = out_ttl }))
      ≡ frame l' (record n { ttl = out_ttl }) payload
unfolding write_at
restamped l l' n payload out_ttl v =
    let aged : NetHeader = record n { ttl = out_ttl } in
    let aged_IsNet : IsNet aged = record { dst = v.dst; src = v.src; pkt_id = v.pkt_id } in
    let same_size = length-put_net n v ∙ sym (length-put_net aged aged_IsNet) in
    ap
      (λ (z : NetHeader).
        write_at (frame l' n payload) link_bytes (put_net (record z { ttl = out_ttl })))
      (get_net-put_net l' n payload v)
    ∙ ap (λ z. put_link l' ++ z) (write_at_over (put_net n) (put_net aged) payload same_size)

-- A frame of at most 215 bytes of payload fits the buffer.
pub frame_fits :
    (l : LinkHeader) (n : NetHeader) (payload : List ℕ)
    → IsNet n
    → length payload ≤ 215
    → ltb (1 + max_payload) (length (frame l n payload)) ≡ false
frame_fits l n payload v short =
    let size : length (put_net n ++ payload) ≡ 37 + length payload =
      length-append (put_net n) payload ∙ ap (λ z. z + length payload) (length-put_net n v) in
    le→ltb_false (1 + max_payload) (length (frame l n payload)) (omega (arith, size, short))

-- A frame of 41 bytes of header and at most 215 of payload that is sent on has the same payload and
-- the same headers, but that it comes from no alias, goes to every neighbour, has no link flags and
-- has the time to live that is asked for.
pub reflood_lem :
    (l : LinkHeader) (n : NetHeader) (payload : List ℕ) (out_ttl : ℕ)
    → IsNet n
    → length payload ≤ 215
    → reflood (frame l n payload) out_ttl
      ≡ some (
          frame
            (record l { prev_hop = link_addr_none; next_hop = link_addr_broadcast; flags = 0 })
            (record n { ttl = out_ttl })
            payload)
unfolding reflood
reflood_lem l n payload out_ttl v short =
    rw (frame_fits l n payload v short) (ap some (restamped l _ n payload out_ttl v))
