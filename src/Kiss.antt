-- ===== src/Kiss.antt =====
-- lib/mesh/kiss.h: KISS framing of the console, the encoder and the streaming decoder.
pub mod Capacity
pub mod RoundTrip
mod Tests
use agnostic_lora_net.Prelude.{
  ℕ, ◌+◌, Bool, true, false, not, ◌&&◌, List, [], ◌∷◌, Option, none, some, ltb, ◌==◌, if◌then◌else◌,
  set, take, replicate,
}
use mathlib.Core.Option

abbrev pub fend : ℕ
fend = 0xc0

abbrev pub fesc : ℕ
fesc = 0xdb

abbrev pub tfend : ℕ
tfend = 0xdc

abbrev pub tfesc : ℕ
tfesc = 0xdd

abbrev pub max_frame : ℕ
max_frame = 801

-- The loop of `kiss_encode` over the command and the payload, with `n` bytes written; the result
-- is what it writes from there on, and `none` is `return 0`.
pub encode_loop : ℕ → ℕ → List ℕ → Option (List ℕ)
encode_loop cap n [] = some (fend ∷ [])
encode_loop cap n (b ∷ bs) =
    let after_one = encode_loop cap (n + 1) bs in
    let after_two = encode_loop cap (n + 2) bs in
    if b == fend
    then if ltb cap (n + 3) then none else Option.map (λ out. fesc ∷ tfend ∷ out) after_two
    else if b == fesc
    then if ltb cap (n + 3) then none else Option.map (λ out. fesc ∷ tfesc ∷ out) after_two
    else if ltb cap (n + 2)
    then none
    else Option.map (λ out. b ∷ out) after_one

pub encode : ℕ → List ℕ → ℕ → Option (List ℕ)
encode cmd payload cap =
    if ltb cap 4 then none else Option.map (λ out. fend ∷ out) (encode_loop cap 1 (cmd ∷ payload))

-- `buf` is the array `buf_`, `n` the bytes of the frame so far, `ready` the length that `len()`
-- returns.
pub record Decoder : Type 0 where
  pub buf : List ℕ
  pub n : ℕ
  pub ready : ℕ
  pub in_frame : Bool
  pub esc : Bool

abbrev pub init : Decoder
init = record { buf = replicate max_frame 0; n = 0; ready = 0; in_frame = false; esc = false }

-- What an escaped byte stands for; any other byte is kept as it is.
unescape : ℕ → ℕ
unescape b = if b == tfend then fend else if b == tfesc then fesc else b

-- `if (n_ < KISS_MAX_FRAME) buf_[n_++] = v; else { in_ = false; n_ = 0; }`
store : Decoder → ℕ → Decoder
store d v =
    if ltb d.n max_frame
    then record d { buf = set d.buf d.n v; n = d.n + 1 }
    else record d { in_frame = false; n = 0 }

-- `feed`: the new state, and whether a whole frame is ready. `n` stays at most `max_frame`, so
-- `n_++` does not wrap.
pub feed : Decoder → ℕ → Decoder × Bool
unfolding store unescape
feed d b =
    if b == fend
    then if d.in_frame && ltb 0 d.n
      then (record d { ready = d.n; in_frame = false; n = 0; esc = false }, true)
      else (record d { in_frame = true; n = 0; esc = false }, false)
    else if not d.in_frame
    then (d, false)
    else if d.esc
    then (store (record d { esc = false }) (unescape b), false)
    else if b == fesc
    then (record d { esc = true }, false)
    else (store d b, false)

-- `frame()` and `len()`: the bytes that a caller reads once `feed` returned true.
pub frame : Decoder → List ℕ
frame d = take d.ready d.buf

-- The caller's loop: every byte is fed, and each frame is read when it is ready.
pub feed_all : Decoder → List ℕ → Decoder × List (List ℕ)
feed_all d [] = (d, [])
feed_all d (b ∷ bs) =
    let (d', done) = feed d b in
    let (d'', frames) = feed_all d' bs in (d'', if done then frame d' ∷ frames else frames)
