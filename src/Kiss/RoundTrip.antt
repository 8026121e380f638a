-- ===== src/Kiss/RoundTrip.antt =====
-- The decoder after the encoder, from the start of a frame and from anywhere.
use agnostic_lora_net.Prelude.{
  ℕ, suc, ◌+◌, ◌≤◌, ◌<◌, ◌≡◌, refl, ap, ◌∙◌, true, false, ◌&&◌, List, [], ◌∷◌, ◌++◌, append_assoc,
  append-nil, some, arith, ltb, if◌then◌else◌, leb, Bool-cases, length, take, take-set, length-set,
  ◌==◌, lt→ltb, inl, inr, ltb→lt, ltb_false→le, leb→le, map-eq-some, ap₂,
}
use native.Mathlib.Numerals.{add-one}
use agnostic_lora_net.Kiss.Capacity.{stuffed, encode_loop-some}
use agnostic_lora_net.Kiss.{
  Decoder, encode, encode_loop, feed, feed_all, frame, store, unescape, fend, fesc, tfend, tfesc,
  max_frame,
}

-- A decoder inside a frame, between two bytes.
record IsOpen (d : Decoder) : Type 0 where
  opened : d.in_frame ≡ true
  plain : d.esc ≡ false
  whole : length d.buf ≡ max_frame

-- A decoder that a delimiter brings to the start of a frame: it holds no part of one.
pub record IsReady (d : Decoder) : Type 0 where
  pub clear : (d.in_frame && ltb 0 d.n) ≡ false
  pub whole : length d.buf ≡ max_frame

feed_all-cons :
    (d : Decoder) (b : ℕ) (bs : List ℕ) {d' : Decoder}
    → feed d b ≡ (d', false)
    → feed_all d (b ∷ bs) ≡ feed_all d' bs
unfolding feed_all
feed_all-cons d b bs e = rw e

-- One byte of a frame, in the form that the encoder gave it.
feed-plain :
    (d : Decoder) (b : ℕ) (bs : List ℕ)
    → IsOpen d
    → (b == fend) ≡ false
    → (b == fesc) ≡ false
    → feed_all d (b ∷ bs) ≡ feed_all (store d b) bs
feed-plain d b bs o p q = feed_all-cons d b bs step
  where
    step : feed d b ≡ (store d b, false)
    step = unfold feed in ground arith

feed-escaped :
    (d : Decoder) (b : ℕ) (bs : List ℕ)
    → IsOpen d
    → (b == fend) ≡ false
    → feed_all d (fesc ∷ b ∷ bs) ≡ feed_all (store d (unescape b)) bs
feed-escaped d b bs o p = feed_all-cons d fesc (b ∷ bs) first ∙ feed_all-cons _ b bs second
  where
    first : feed d fesc ≡ (record d { esc = true }, false)
    first = unfold feed in ground arith

    second : feed (record d { esc = true }) b ≡ (store d (unescape b), false)
    second = unfold feed in ground arith

store-IsOpen : (d : Decoder) (v : ℕ) → IsOpen d → d.n < max_frame → IsOpen (store d v)
unfolding store
store-IsOpen d v o h = ground (arith, length-set d.buf d.n v)

-- The bytes of the frame so far.
abbrev held : Decoder → List ℕ
held d = take d.n d.buf

held-store :
    (d : Decoder) (v : ℕ) → IsOpen d → d.n < max_frame → held (store d v) ≡ held d ++ v ∷ []
unfolding store
held-store d v o h = rw (lt→ltb d.n max_frame h, add-one) (take-set d.buf d.n v (rw (o.whole) h))

n-store : (d : Decoder) (v : ℕ) → d.n < max_frame → (store d v).n ≡ d.n + 1
unfolding store
n-store d v h = ground arith

-- What a run of the decoder has given, and that a delimiter starts the next frame.
record Gives (frames : List (List ℕ)) (r : Decoder × List (List ℕ)) : Type 0 where
  given : r.1 ≡ frames
  after : IsReady r.0

close : (d : Decoder) → IsOpen d → 0 < d.n → Gives (held d ∷ []) (feed_all d (fend ∷ []))
unfolding feed_all feed frame
close d o h = ground arith

-- One byte of the frame in the form that the encoder gives it is stored as it was.
feed-stuffed :
    (d : Decoder) (b : ℕ) (bs : List ℕ)
    → IsOpen d
    → feed_all d (stuffed b ++ bs) ≡ feed_all (store d b) bs
feed-stuffed d b bs o = elim (Bool-cases (b == fend)) [
  | inl p ↦ rw p (
      feed-escaped d tfend bs o refl
      ∙ ap (λ v. feed_all (store d v) bs) (unfold unescape in ground arith))
  | inr p ↦ elim (Bool-cases (b == fesc)) [
    | inl p' ↦
        rw (p, p')
          (feed-escaped d tfesc bs o refl
            ∙ ap (λ v. feed_all (store d v) bs) (unfold unescape in ground arith))
    | inr p' ↦ rw (p, p') (feed-plain d b bs o p p')
  ]
]

-- The bytes of a frame that fits, fed to an open decoder, complete it.
feed_frame :
    (room n : ℕ) (bs : List ℕ) (out : List ℕ) (d : Decoder)
    → IsOpen d
    → encode_loop room n bs ≡ some out
    → 0 < d.n + length bs
    → d.n + length bs ≤ max_frame
    → Gives ((held d ++ bs) ∷ []) (feed_all d out)
feed_frame room n [] out d o e pos fits =
    let s : out ≡ fend ∷ [] = unfold encode_loop in ground arith in
    rw (s, append-nil (held d)) (close d o (omega arith))
feed_frame room n (b ∷ bs) out d o e pos fits =
    let (rest, q, s, lt) = encode_loop-some room n b bs out e in
    let small : d.n < max_frame = omega arith in
    let ih =
      feed_frame room (n + length (stuffed b)) bs rest (store d b) (store-IsOpen d b o small) q
        (omega (arith, n-store d b small)) (omega (arith, n-store d b small)) in
    rw (s, feed-stuffed d b rest o)
      (rw (held-store d b o small, append_assoc (held d) (b ∷ []) bs) at ih)

-- Outside a frame every byte of a stuffed frame is passed over.
feed-closed :
    (d : Decoder) (b : ℕ) (bs : List ℕ)
    → d.in_frame ≡ false
    → (b == fend) ≡ false
    → feed_all d (b ∷ bs) ≡ feed_all d bs
feed-closed d b bs o p = feed_all-cons d b bs (unfold feed in ground arith)

feed-closed_stuffed :
    (d : Decoder) (b : ℕ) (bs : List ℕ)
    → d.in_frame ≡ false
    → feed_all d (stuffed b ++ bs) ≡ feed_all d bs
feed-closed_stuffed d b bs o = elim (Bool-cases (b == fend)) [
  | inl p ↦ rw p (feed-closed d fesc (tfend ∷ bs) o refl ∙ feed-closed d tfend bs o refl)
  | inr p ↦ elim (Bool-cases (b == fesc)) [
    | inl p' ↦ rw (p, p') (feed-closed d fesc (tfesc ∷ bs) o refl ∙ feed-closed d tfesc bs o refl)
    | inr p' ↦ rw (p, p') (feed-closed d b bs o p)
  ]
]

feed_dropped :
    (room n : ℕ) (bs : List ℕ) (out : List ℕ) (d : Decoder)
    → d.in_frame ≡ false
    → length d.buf ≡ max_frame
    → encode_loop room n bs ≡ some out
    → Gives [] (feed_all d out)
feed_dropped room n [] out d o w e =
    let s : out ≡ fend ∷ [] = unfold encode_loop in ground arith in
    rw s (unfold feed_all feed in ground arith)
feed_dropped room n (b ∷ bs) out d o w e =
    let (rest, q, s, lt) = encode_loop-some room n b bs out e in
    rw (s, feed-closed_stuffed d b rest o)
      (feed_dropped room (n + length (stuffed b)) bs rest d o w q)

store-full :
    (d : Decoder) (v : ℕ)
    → IsOpen d
    → max_frame ≤ d.n
    → ((store d v).in_frame ≡ false) × (length (store d v).buf ≡ max_frame)
unfolding store
store-full d v o h = ground arith

-- A frame that is too long is dropped whole.
feed_oversize :
    (room n : ℕ) (bs : List ℕ) (out : List ℕ) (d : Decoder)
    → IsOpen d
    → encode_loop room n bs ≡ some out
    → d.n ≤ max_frame
    → max_frame < d.n + length bs
    → Gives [] (feed_all d out)
feed_oversize room n [] out d o e low over = absurd (omega arith)
feed_oversize room n (b ∷ bs) out d o e low over =
    let (rest, q, s, lt) = encode_loop-some room n b bs out e in
    rw (s, feed-stuffed d b rest o)
      (elim (Bool-cases (ltb d.n max_frame)) [
        | inl small ↦
            feed_oversize room (n + length (stuffed b)) bs rest (store d b)
              (store-IsOpen d b o (ltb→lt _ _ small)) q
              (omega (arith, ltb→lt _ _ small, n-store d b (ltb→lt _ _ small)))
              (omega (arith, n-store d b (ltb→lt _ _ small)))
        | inr full ↦
            let (closed, whole) = store-full d b o (ltb_false→le _ _ full) in
            feed_dropped room (n + length (stuffed b)) bs rest (store d b) closed whole q
      ])

-- The decoder after the delimiter that opens a frame.
abbrev opened : Decoder → Decoder
opened d = record d { in_frame = true; n = 0; esc = false }

feed_all-opens :
    (d : Decoder) (bs : List ℕ) → IsReady d → feed_all d (fend ∷ bs) ≡ feed_all (opened d) bs
feed_all-opens d bs r = feed_all-cons d fend bs (unfold feed in ground arith)

-- The frames that a decoder keeps: those of at most `max_frame` bytes.
abbrev pub kept : ℕ → List ℕ → List (List ℕ)
kept cmd payload = if leb (suc (length payload)) max_frame then (cmd ∷ payload) ∷ [] else []

encode-frame :
    (cmd : ℕ) (payload : List ℕ) (room : ℕ) (out : List ℕ)
    → encode cmd payload room ≡ some out
    → (rest : List ℕ) × (encode_loop room 1 (cmd ∷ payload) ≡ some rest) × (out ≡ fend ∷ rest)
encode-frame cmd payload room out e = elim (Bool-cases (ltb room 4)) [
  | inl small ↦ absurd (unfold encode in ground arith)
  | inr big ↦
      map-eq-some (λ out. fend ∷ out) (encode_loop room 1 (cmd ∷ payload)) {b = out}
        (unfold encode in rw big at e)
]

feed_encoded :
    (d : Decoder) (cmd : ℕ) (payload : List ℕ) (room : ℕ) (out : List ℕ)
    → IsReady d
    → encode cmd payload room ≡ some out
    → Gives (kept cmd payload) (feed_all d out)
feed_encoded d cmd payload room out r e =
    let (rest, q, s) = encode-frame cmd payload room out e in
    let o : IsOpen (opened d) = record { opened = refl; plain = refl; whole = r.whole } in
    rw (s, feed_all-opens d rest r)
      (elim (Bool-cases (leb (suc (length payload)) max_frame)) [
        | inl fits ↦ rw fits (
            feed_frame room 1 (cmd ∷ payload) rest (opened d) o q (omega arith)
              (omega (arith, leb→le _ _ fits)))
        | inr over ↦
            rw over (
              feed_oversize room 1 (cmd ∷ payload) rest (opened d) o q (omega arith) (ground arith))
      ])

feed_all-append :
    (d : Decoder) (xs ys : List ℕ)
    → feed_all d (xs ++ ys)
      ≡ ((feed_all (feed_all d xs).0 ys).0, (feed_all d xs).1 ++ (feed_all (feed_all d xs).0 ys).1)
unfolding feed_all
feed_all-append d [] ys = refl
feed_all-append d (x ∷ xs) ys = elim (Bool-cases (feed d x).1) [
  | inl t ↦ rw (feed_all-append (feed d x).0 xs ys, t)
  | inr f ↦ rw (feed_all-append (feed d x).0 xs ys, f)
]

-- A stream of frames back to back, each by a call of `encode` that did not refuse.
pub data Stream (room : ℕ) : List (ℕ × List ℕ) → List ℕ → Type 0 where
  idle : Stream room [] []
  send :
      {ms : List (ℕ × List ℕ)} {s : List ℕ} (cmd : ℕ) (payload out : List ℕ)
      → encode cmd payload room ≡ some out
      → Stream room ms s
      → Stream room ((cmd, payload) ∷ ms) (out ++ s)

abbrev pub all_kept : List (ℕ × List ℕ) → List (List ℕ)
all_kept [] = []
all_kept ((cmd, payload) ∷ ms) = kept cmd payload ++ all_kept ms

-- A decoder that is not in the middle of a frame, fed frames back to back that `encode` wrote,
-- hands out exactly their commands and payloads, in order, without those of more than `max_frame`
-- bytes.
pub feed_all-encode :
    (room : ℕ) {ms : List (ℕ × List ℕ)} {s : List ℕ} (d : Decoder)
    → IsReady d
    → Stream room ms s
    → (feed_all d s).1 ≡ all_kept ms
feed_all-encode room d r idle = unfold feed_all in refl
feed_all-encode room d r (send {ms = ms} {s = s} cmd payload out e st) =
    let g = feed_encoded d cmd payload room out r e in
    rw (feed_all-append d out s) (ap₂ ◌++◌ g.given (feed_all-encode room _ g.after st))

length-feed_buf : (d : Decoder) (b : ℕ) → length (feed d b).0.buf ≡ length d.buf
unfolding feed store unescape
length-feed_buf d b = ground (arith, length-set d.buf d.n (unescape b), length-set d.buf d.n b)

length-feed_all_buf : (d : Decoder) (bs : List ℕ) → length (feed_all d bs).0.buf ≡ length d.buf
unfolding feed_all
length-feed_all_buf d [] = refl
length-feed_all_buf d (b ∷ bs) = length-feed_all_buf (feed d b).0 bs ∙ length-feed_buf d b

delimiter-IsReady : (d : Decoder) → length d.buf ≡ max_frame → IsReady (feed_all d (fend ∷ [])).0
unfolding feed_all feed
delimiter-IsReady d w = elim (Bool-cases (d.in_frame && ltb 0 d.n)) [
  | inl t ↦ rw t (record { clear = refl; whole = w })
  | inr f ↦ rw f (record { clear = refl; whole = w })
]

-- A decoder with its whole buffer recovers: whatever state it is in and whatever bytes it is fed, in the middle of a frame
-- or of an escape, a delimiter after them brings it back, and the frames back to back that `encode`
-- wrote after it are all handed out, but those of more than `max_frame` bytes, after what came of the
-- bytes before.
pub feed_all-recovers :
    (room : ℕ) {ms : List (ℕ × List ℕ)} {s : List ℕ} (d : Decoder) (junk : List ℕ)
    → length d.buf ≡ max_frame
    → Stream room ms s
    → (feed_all d ((junk ++ (fend ∷ [])) ++ s)).1
      ≡ (feed_all d (junk ++ (fend ∷ []))).1 ++ all_kept ms
feed_all-recovers room {ms} {s} d junk w st =
    let d' = (feed_all d junk).0 in
    let ready : IsReady (feed_all d (junk ++ (fend ∷ []))).0 =
      rw (feed_all-append d junk (fend ∷ []))
        (delimiter-IsReady d' (length-feed_all_buf d junk ∙ w)) in
    rw (feed_all-append d (junk ++ (fend ∷ [])) s) (
      ap (λ z. (feed_all d (junk ++ (fend ∷ []))).1 ++ z)
        (feed_all-encode room (feed_all d (junk ++ (fend ∷ []))).0 ready st))
