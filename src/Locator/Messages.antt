-- ===== src/Locator/Messages.antt =====
-- The messages of the locator directory are read back as they were built.
use agnostic_lora_net.Prelude.{
  ℕ, ◌+◌, ◌%◌, ◌/◌, ◌*◌, ◌^◌, ◌≤◌, ◌<◌, ◌≡◌, subst, inl, inr, false, ◌||◌, List, [], ◌∷◌, ◌++◌,
  some, ltb, ◌==◌, ==_refl, ==_iff, length, length-append, take, drop, take-append, drop-append,
  put_u16, Bool-cases, arith, le→ltb_false,
}
use agnostic_lora_net.NodeId.{NodeId, IsNodeId}
use agnostic_lora_net.Locator.{
  LocMsg, no_msg, bad_id, loc_register, loc_query, loc_reply, loc_id_max, build_register,
  build_query, build_reply, read_id, parse,
}

read_id_built :
    (m : LocMsg) (id : List ℕ)
    → bad_id id ≡ false
    → read_id m (length id ∷ id) ≡ some (record m { id = id })
unfolding read_id
read_id_built m id ok = rw (ok, ==_refl (length id))

abbrev word_at : ℕ → ℕ
word_at v = v % 256 + 256 * (v / 256 % 256)

word_at_lem : (v : ℕ) → v < 2 ^ 16 → word_at v ≡ v
word_at_lem v h = omega (arith, h)

-- A REGISTER that is built of 16-bit fields is parsed as just these fields and that id.
pub parse-build_register :
    (epoch seq ttl_s : ℕ) (id : List ℕ) (room : ℕ) {p : List ℕ}
    → epoch < 2 ^ 16
    → seq < 2 ^ 16
    → ttl_s < 2 ^ 16
    → build_register epoch seq ttl_s id room ≡ some p
    → parse p
      ≡ some
          (record no_msg { kind = loc_register; epoch = epoch; seq = seq; ttl_s = ttl_s; id = id })
unfolding build_register parse
parse-build_register epoch seq ttl_s [] room he hs ht e = absurd (ground arith)
parse-build_register epoch seq ttl_s (b ∷ bs) room {p} he hs ht e =
    elim (Bool-cases (bad_id (b ∷ bs))) [
      | inl bad ↦ absurd (ground arith)
      | inr ok ↦ elim (Bool-cases (ltb room (8 + length (b ∷ bs)))) [
        | inl small ↦ absurd (ground arith)
        | inr fits ↦
            let s : loc_register
                  ∷ (put_u16 epoch
                      ++ (put_u16 seq ++ (put_u16 ttl_s ++ (length (b ∷ bs) ∷ b ∷ bs))))
                ≡ p =
              ground arith in
            let msg =
              loc_register
              ∷ (put_u16 epoch ++ (put_u16 seq ++ (put_u16 ttl_s ++ (length (b ∷ bs) ∷ b ∷ bs)))) in
            rw
              (
                ← s,
                le→ltb_false (length msg) 2 (omega arith),
                le→ltb_false (length msg) 9 (omega arith),
                word_at_lem epoch he,
                word_at_lem seq hs,
                word_at_lem ttl_s ht,
              )
              (read_id_built _ (b ∷ bs) ok)
      ]
    ]

-- A QUERY that is built for a 16-bit number is parsed as that number and that id.
pub parse-build_query :
    (qid : ℕ) (id : List ℕ) (room : ℕ) {p : List ℕ}
    → qid < 2 ^ 16
    → build_query qid id room ≡ some p
    → parse p ≡ some (record no_msg { kind = loc_query; qid = qid; id = id })
unfolding build_query parse
parse-build_query qid [] room hq e = absurd (ground arith)
parse-build_query qid (b ∷ bs) room {p} hq e = elim (Bool-cases (bad_id (b ∷ bs))) [
  | inl bad ↦ absurd (ground arith)
  | inr ok ↦ elim (Bool-cases (ltb room (4 + length (b ∷ bs)))) [
    | inl small ↦ absurd (ground arith)
    | inr fits ↦
        let s : loc_query ∷ (put_u16 qid ++ (length (b ∷ bs) ∷ b ∷ bs)) ≡ p = ground arith in
        let msg = loc_query ∷ (put_u16 qid ++ (length (b ∷ bs) ∷ b ∷ bs)) in
        rw
          (
            ← s,
            le→ltb_false (length msg) 2 (omega arith),
            le→ltb_false (length msg) 5 (omega arith),
            word_at_lem qid hq,
          )
          (read_id_built _ (b ∷ bs) ok)
  ]
]

-- A REPLY that is built of 16-bit fields and a locator of sixteen bytes is parsed as just these
-- fields, that locator and that id.
pub parse-build_reply :
    (qid epoch seq ttl_s : ℕ) (loc : NodeId) (id : List ℕ) (room : ℕ) {p : List ℕ}
    → qid < 2 ^ 16
    → epoch < 2 ^ 16
    → seq < 2 ^ 16
    → ttl_s < 2 ^ 16
    → IsNodeId loc
    → build_reply qid epoch seq ttl_s loc id room ≡ some p
    → parse p
      ≡ some (record {
        kind = loc_reply;
        qid = qid;
        epoch = epoch;
        seq = seq;
        ttl_s = ttl_s;
        loc = loc;
        id = id;
      })
unfolding build_reply parse
parse-build_reply qid epoch seq ttl_s loc [] room hq he hs ht hl e = absurd (ground arith)
parse-build_reply qid epoch seq ttl_s loc (b ∷ bs) room {p} hq he hs ht hl e =
    elim (Bool-cases (bad_id (b ∷ bs))) [
      | inl bad ↦ absurd (ground arith)
      | inr ok ↦ elim (Bool-cases (ltb room (26 + length (b ∷ bs)))) [
        | inl small ↦ absurd (ground arith)
        | inr fits ↦
            let s : loc_reply
                  ∷ (put_u16 qid
                      ++ (put_u16 epoch
                          ++ (put_u16 seq
                              ++ (put_u16 ttl_s ++ (loc ++ (length (b ∷ bs) ∷ b ∷ bs))))))
                ≡ p =
              ground arith in
            let msg =
              loc_reply
              ∷ (put_u16 qid
                  ++ (put_u16 epoch
                      ++ (put_u16 seq
                          ++ (put_u16 ttl_s ++ (loc ++ (length (b ∷ bs) ∷ b ∷ bs)))))) in
            let long = length-append loc (length (b ∷ bs) ∷ b ∷ bs) in
            let tl : take 16 (loc ++ (length (b ∷ bs) ∷ b ∷ bs)) ≡ loc =
              subst (λ z. take z (loc ++ (length (b ∷ bs) ∷ b ∷ bs)) ≡ loc) hl
                (take-append loc _) in
            let dl : drop 16 (loc ++ (length (b ∷ bs) ∷ b ∷ bs)) ≡ length (b ∷ bs) ∷ b ∷ bs =
              subst (λ z. drop z (loc ++ (length (b ∷ bs) ∷ b ∷ bs)) ≡ length (b ∷ bs) ∷ b ∷ bs) hl
                (drop-append loc _) in
            rw
              (
                ← s,
                le→ltb_false (length msg) 2 (omega arith),
                le→ltb_false (length msg) 27 (omega (arith, long, hl)),
                word_at_lem qid hq,
                word_at_lem epoch he,
                word_at_lem seq hs,
                word_at_lem ttl_s ht,
                tl,
                dl,
              )
              (read_id_built _ (b ∷ bs) ok)
      ]
    ]

-- The id of a message is never empty, and fits its array.
abbrev pub HasRoomForId : LocMsg → Type 0
HasRoomForId m = (1 ≤ length m.id) × (length m.id ≤ loc_id_max)

read_id-HasRoomForId :
    (m : LocMsg) (bs : List ℕ) {m' : LocMsg} → read_id m bs ≡ some m' → HasRoomForId m'
unfolding read_id
read_id-HasRoomForId m [] e = absurd (ground arith)
read_id-HasRoomForId m (il ∷ rest) {m'} e = elim (Bool-cases ((il == 0) || ltb loc_id_max il)) [
  | inl bad ↦ absurd (ground arith)
  | inr ok ↦ elim (Bool-cases (il == length rest)) [
    | inr differ ↦ absurd (ground arith)
    | inl same ↦
        let s : rest ≡ m'.id = ground arith in
        let n : il ≡ length rest = (==_iff _ _).0 same in
        let low : 1 ≤ il = ground arith in
        let high : il ≤ loc_id_max = ground arith in
        rw (← s) (omega (arith, n, low), omega (arith, n, high))
  ]
]

-- Whatever bytes arrive, a message that is accepted has an id of 1 to 16 bytes.
pub parse-HasRoomForId : (bs : List ℕ) {m : LocMsg} → parse bs ≡ some m → HasRoomForId m
unfolding parse
parse-HasRoomForId [] e = absurd (ground arith)
parse-HasRoomForId (kind ∷ rest) e = elim (Bool-cases (ltb (length (kind ∷ rest)) 2)) [
  | inl short ↦ absurd (ground arith)
  | inr two ↦ elim (Bool-cases (kind == loc_register)) [
    | inl r ↦ elim (Bool-cases (ltb (length (kind ∷ rest)) 9)) [
      | inl short ↦ absurd (ground arith)
      | inr long ↦ read_id-HasRoomForId _ _ (rw (two, r, long) at e)
    ]
    | inr nr ↦ elim (Bool-cases (kind == loc_query)) [
      | inl q ↦ elim (Bool-cases (ltb (length (kind ∷ rest)) 5)) [
        | inl short ↦ absurd (ground arith)
        | inr long ↦ read_id-HasRoomForId _ _ (rw (two, nr, q, long) at e)
      ]
      | inr nq ↦ elim (Bool-cases (kind == loc_reply)) [
        | inr np ↦ absurd (ground arith)
        | inl p ↦ elim (Bool-cases (ltb (length (kind ∷ rest)) 27)) [
          | inl short ↦ absurd (ground arith)
          | inr long ↦ read_id-HasRoomForId _ _ (rw (two, nr, nq, p, long) at e)
        ]
      ]
    ]
  ]
]
