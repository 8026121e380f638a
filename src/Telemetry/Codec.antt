-- ===== src/Telemetry/Codec.antt =====
-- The messages of the telemetry are read back as they were built.
use agnostic_lora_net.Prelude.{
  ℕ, suc, zero, ◌+◌, ◌*◌, ◌^◌, ◌≤◌, ◌<◌, ◌≡◌, refl, ap, inl, inr, false, ◌||◌, List, [], ◌∷◌, ◌++◌,
  some, ltb, ◌==◌, length, length-append, length-take, Option-cases, take, drop, take-append,
  drop-append, put_u16, Bool-cases, arith, le→ltb_false,
}
use agnostic_lora_net.NodeId.{NodeId, IsNodeId, is_zero, nid_read}
use agnostic_lora_net.Prelude.{pair_lem, take_all, take-part, drop-part, get_or-part}
use agnostic_lora_net.Telemetry.{
  TelemNbr, TelemMsg, no_msg, telem_batt, telem_query, telem_reply, telem_fw_max, telem_name_max,
  telem_nbr_max, build_batt, build_query, build_reply, clip, put_nbrs, get_string, get_nbrs,
  get_reply, parse,
}

length-clip : (n : ℕ) (s : List ℕ) → length (clip n s) ≤ n
unfolding clip
length-clip zero s = omega arith
length-clip (suc n) [] = omega arith
length-clip (suc n) (b ∷ s) = elim (Bool-cases (b == 0)) [
  | inl z ↦ rw z (omega arith)
  | inr z ↦ rw z (omega (arith, length-clip n s))
]

-- A neighbour has an id of sixteen bytes, and a 16-bit signal strength.
abbrev pub IsNbr : TelemNbr → Type 0
IsNbr n = IsNodeId n.id × (n.rssi < 2 ^ 16)

abbrev pub AllNbrs : List TelemNbr → Type 0
AllNbrs [] = Unit {0}
AllNbrs (n ∷ ns) = IsNbr n × AllNbrs ns

AllNbrs-take : (k : ℕ) (ns : List TelemNbr) → AllNbrs ns → AllNbrs (take k ns)
AllNbrs-take zero ns h = tt
AllNbrs-take (suc k) [] h = tt
AllNbrs-take (suc k) (n ∷ ns) h = (h.0, AllNbrs-take k ns h.1)

length-put_nbrs : (ns : List TelemNbr) → AllNbrs ns → length (put_nbrs ns) ≡ length ns * 21
unfolding put_nbrs
length-put_nbrs [] h = refl
length-put_nbrs (n ∷ ns) h =
    let a = length-append n.id (n.q_rx ∷ n.q_tx ∷ n.snr ∷ (put_u16 n.rssi ++ put_nbrs ns)) in
    let r = length-put_nbrs ns h.1 in let i = h.0.0 in omega (arith, a, r, i)

get_nbrs-put_nbrs : (ns : List TelemNbr) → AllNbrs ns → get_nbrs (length ns) (put_nbrs ns) ≡ ns
unfolding put_nbrs get_nbrs
get_nbrs-put_nbrs [] h = refl
get_nbrs-put_nbrs (n ∷ ns) h =
    let rest = n.q_rx ∷ n.q_tx ∷ n.snr ∷ (put_u16 n.rssi ++ put_nbrs ns) in
    let at = get_or-part 16 n.id rest h.0.0 in
    rw (
      take-part 16 n.id rest h.0.0,
      at 0,
      at 1,
      at 2,
      at 3,
      at 4,
      pair_lem n.rssi h.0.1,
      drop-part 16 n.id rest h.0.0 5,
      get_nbrs-put_nbrs ns h.1,
    )

get_string-part :
    (most : ℕ) (s : List ℕ) (b : ℕ) (rest : List ℕ)
    → length s ≤ most
    → get_string most (length s ∷ (s ++ (b ∷ rest))) ≡ some (s, b ∷ rest)
unfolding get_string
get_string-part most s b rest h =
    let n = length-append s (b ∷ rest) in
    rw (
      le→ltb_false most (length s) h,
      le→ltb_false (length (s ++ (b ∷ rest))) (length s + 1) (omega (arith, n)),
      take-append s (b ∷ rest),
      drop-append s (b ∷ rest),
    )

get_reply-part :
    (m : TelemMsg) (ns : List TelemNbr)
    → AllNbrs ns
    → length ns ≤ telem_nbr_max
    → get_reply m (length ns ∷ put_nbrs ns) ≡ some (record m { nbrs = ns })
unfolding get_reply
get_reply-part m ns h le =
    let n = length-put_nbrs ns h in
    rw (
      le→ltb_false telem_nbr_max (length ns) le,
      le→ltb_false (length (put_nbrs ns)) (length ns * 21) (omega (arith, n)),
      get_nbrs-put_nbrs ns h,
    )

-- A battery report of 16 bits is read back.
pub parse-build_batt :
    (mv pct_plus1 room : ℕ) {p : List ℕ}
    → mv < 2 ^ 16
    → build_batt mv pct_plus1 room ≡ some p
    → parse p ≡ some (record no_msg { kind = telem_batt; mv = mv; pct_plus1 = pct_plus1 })
unfolding build_batt parse
parse-build_batt mv pct_plus1 room {p} h e = elim (Bool-cases (ltb room 4)) [
  | inl small ↦ absurd (ground arith)
  | inr fits ↦
      let s : telem_batt ∷ (put_u16 mv ++ (pct_plus1 ∷ [])) ≡ p = ground arith in
      rw (← s, pair_lem mv h)
]

-- A query is read back with its target.
pub parse-build_query :
    (target : NodeId) (room : ℕ) {p : List ℕ}
    → IsNodeId target
    → build_query target room ≡ some p
    → parse p ≡ some (record no_msg { kind = telem_query; target = target })
unfolding build_query parse
parse-build_query target room {p} h e = elim (Bool-cases (ltb room 17 || is_zero target)) [
  | inl bad ↦ absurd (ground arith)
  | inr fits ↦
      let s : telem_query ∷ target ≡ p = ground arith in
      let named : is_zero target ≡ false = ground arith in
      let whole : take 16 target ≡ target = take_all 16 target (omega (arith, h)) in
      rw (← s, le→ltb_false (suc (length target)) 17 (omega (arith, h)), whole, named)
]

-- A reply of 16-bit voltage and uptime, to neighbours with ids of sixteen bytes and 16-bit signal
-- strengths, is read back, with its version cut to twelve characters, its name to twenty, and the
-- first sixteen neighbours.
pub build_reply_lem :
    (mv pct_plus1 uptime_min power_dbm sf flags : ℕ) (fw name : List ℕ) (nbrs : List TelemNbr)
    (room : ℕ) {p : List ℕ}
    → mv < 2 ^ 16
    → uptime_min < 2 ^ 16
    → AllNbrs nbrs
    → build_reply mv pct_plus1 uptime_min power_dbm sf flags fw name nbrs room ≡ some p
    → parse p
      ≡ some (record no_msg {
        kind = telem_reply;
        mv = mv;
        pct_plus1 = pct_plus1;
        uptime_min = uptime_min;
        power_dbm = power_dbm;
        sf = sf;
        flags = flags;
        fw = clip telem_fw_max fw;
        name = clip telem_name_max name;
        nbrs = take telem_nbr_max nbrs;
      })
unfolding build_reply parse
build_reply_lem mv pct_plus1 uptime_min power_dbm sf flags fw name nbrs room {p} hm hu hn e =
    let f = clip telem_fw_max fw in
    let g = clip telem_name_max name in
    let ns = take telem_nbr_max nbrs in
    let last = length ns ∷ put_nbrs ns in
    let tail = length f ∷ (f ++ (length g ∷ (g ++ last))) in
    let msg =
      telem_reply
      ∷ (put_u16 mv ++ (pct_plus1 ∷ (put_u16 uptime_min ++ (power_dbm ∷ sf ∷ flags ∷ tail)))) in
    elim (Bool-cases (ltb room (10 + length f + 1 + length g + 1 + length ns * 21))) [
      | inl small ↦ absurd (ground arith)
      | inr fits ↦
          let s : msg ≡ p = ground arith in
          let n = length-append f (length g ∷ (g ++ last)) in
          let few : length ns ≤ telem_nbr_max =
            let l = length-take telem_nbr_max nbrs in omega (arith, l) in
          rw
            (
              ← s,
              le→ltb_false (length msg) 11 (omega (arith, n)),
              get_string-part telem_fw_max f (length g) (g ++ last) (length-clip telem_fw_max fw),
              get_string-part telem_name_max g (length ns) (put_nbrs ns)
                  (length-clip telem_name_max name),
              pair_lem mv hm,
              pair_lem uptime_min hu,
            )
            (get_reply-part _ ns (AllNbrs-take telem_nbr_max nbrs hn) few)
    ]

-- What a message that is accepted holds at most.
abbrev pub Fits : TelemMsg → Type 0
Fits m =
    (length m.fw ≤ telem_fw_max)
    × (length m.name ≤ telem_name_max)
    × (length m.nbrs ≤ telem_nbr_max)

get_string-some :
    (most : ℕ) (p : List ℕ) (s p' : List ℕ) → get_string most p ≡ some (s, p') → length s ≤ most
unfolding get_string
get_string-some most [] s p' e = absurd (ground arith)
get_string-some most (n ∷ p) s p' e = elim (Bool-cases (ltb most n || ltb (length p) (n + 1))) [
  | inl bad ↦ absurd (ground arith)
  | inr fits ↦
      let same : take n p ≡ s = ground arith in
      let low : n ≤ most = ground arith in
      let l = length-take n p in rw (← same) (omega (arith, l, low))
]

length-get_nbrs : (n : ℕ) (p : List ℕ) → length (get_nbrs n p) ≡ n
unfolding get_nbrs
length-get_nbrs zero p = refl
length-get_nbrs (suc n) p = ap suc (length-get_nbrs n (drop 21 p))

get_reply-Fits :
    (m : TelemMsg) (p : List ℕ) {m' : TelemMsg}
    → length m.fw ≤ telem_fw_max
    → length m.name ≤ telem_name_max
    → get_reply m p ≡ some m'
    → Fits m'
unfolding get_reply
get_reply-Fits m [] hf hn e = absurd (ground arith)
get_reply-Fits m (n ∷ p) {m'} hf hn e =
    elim (Bool-cases (ltb telem_nbr_max n || ltb (length p) (n * 21))) [
      | inl bad ↦ absurd (ground arith)
      | inr fits ↦
          let same : record m { nbrs = get_nbrs n p } ≡ m' = ground arith in
          let low : n ≤ telem_nbr_max = ground arith in
          let l = length-get_nbrs n p in rw (← same) (hf, hn, omega (arith, l, low))
    ]

-- Whatever bytes arrive, the version, the name and the neighbours of an accepted message fit their
-- arrays.
pub parse-Fits : (bs : List ℕ) {m : TelemMsg} → parse bs ≡ some m → Fits m
unfolding parse
parse-Fits [] e = absurd (ground arith)
parse-Fits (kind ∷ rest) {m} e =
    let msg = kind ∷ rest in
    elim (Bool-cases (kind == telem_batt)) [
      | inl b ↦ elim (Bool-cases (ltb (length msg) 4)) [
        | inl short ↦ absurd (ground arith)
        | inr long ↦ fits_bare refl refl refl (rw (b, long) at e)
      ]
      | inr nb ↦ elim (Bool-cases (kind == telem_query)) [
        | inl q ↦ elim (Bool-cases (ltb (length msg) 17)) [
          | inl short ↦ absurd (ground arith)
          | inr long ↦ elim (Bool-cases (is_zero (nid_read msg 1))) [
            | inl z ↦ absurd (ground arith)
            | inr z ↦ fits_bare refl refl refl (rw (nb, q, long, z) at e)
          ]
        ]
        | inr nq ↦ elim (Bool-cases (kind == telem_reply)) [
          | inr nr ↦ absurd (ground arith)
          | inl r ↦ elim (Bool-cases (ltb (length msg) 11)) [
            | inl short ↦ absurd (ground arith)
            | inr long ↦ elim (Option-cases (get_string telem_fw_max (drop 9 msg))) [
              | inl n ↦ absurd (ground arith)
              | inr ((f, p), sf) ↦ elim (Option-cases (get_string telem_name_max p)) [
                | inl n ↦ absurd (ground arith)
                | inr ((g, p'), sg) ↦
                    get_reply-Fits _ p' (get_string-some telem_fw_max (drop 9 msg) f p sf)
                      (get_string-some telem_name_max p g p' sg) (rw (nb, nq, r, long, sf, sg) at e)
              ]
            ]
          ]
        ]
      ]
    ]
  where
    fits_bare :
        {m' : TelemMsg} → m'.fw ≡ [] → m'.name ≡ [] → m'.nbrs ≡ [] → some m' ≡ some m → Fits m
    fits_bare {m'} a b c s =
        let same : m' ≡ m = ground arith in
        rw (← same, a, b, c) (omega arith, omega arith, omega arith)
