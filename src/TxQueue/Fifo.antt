-- ===== src/TxQueue/Fifo.antt =====
-- The ring of frames of src/main.cpp, compared with the list of the frames that wait.
use agnostic_lora_net.Prelude.{
  ℕ, suc, zero, ◌+◌, ◌-◌, ◌%◌, ◌≤◌, ◌<◌, ◌≡◌, ◌≢◌, refl, sym, ap, ◌∙◌, inl, inr, Bool, ◌||◌, List,
  [], ◌∷◌, ◌++◌, append_assoc, append-nil, Option, none, some, ltb, leb, ◌==◌, if◌then◌else◌,
  length, get_or, get_or-set_self, get_or-set_ne, set, length-set, Bool-cases, false, arith,
}
use agnostic_lora_net.TxQueue.{TxQueue, txq_depth, max_payload, init, push, pump}

-- The frames that wait, from the head on.
unfoldable pub waiting : List (List ℕ) → ℕ → ℕ → List (List ℕ)
waiting items head zero = []
waiting items head (suc n) = get_or items head [] ∷ waiting items ((head + 1) % txq_depth) n

pub record IsValid (q : TxQueue) : Type 0 where
  pub whole : length q.items ≡ txq_depth
  pub head : q.head < txq_depth
  pub count : q.count ≤ txq_depth
  pub tail : q.tail ≡ (q.head + q.count) % txq_depth

waiting-set :
    (items : List (List ℕ)) (frame : List ℕ) (n head tail : ℕ)
    → length items ≡ txq_depth
    → head < txq_depth
    → n < txq_depth
    → tail ≡ (head + n) % txq_depth
    → waiting (set items tail frame) head (suc n) ≡ waiting items head n ++ (frame ∷ [])
unfolding waiting
waiting-set items frame zero head tail w h c t =
    let same : tail ≡ head = omega (arith, h, t) in
    rw (same, get_or-set_self [] items head frame (omega (arith, w, h)))
waiting-set items frame (suc n) head tail w h c t =
    let apart : tail ≢ head = λ e. absurd (omega (arith, h, c, t, e)) in
    rw (get_or-set_ne [] items tail head frame apart) (
      ap (λ z. get_or items head [] ∷ z)
        (waiting-set items frame n ((head + 1) % txq_depth) tail w (omega arith) (omega (arith, c))
          (omega (arith, h, c, t))))

-- A frame that fits, pushed to a queue that is not full, waits behind the others.
pub push_waiting :
    (q : TxQueue) (frame : List ℕ)
    → IsValid q
    → q.count < txq_depth
    → length frame ≤ 1 + max_payload
    → let q' = (push q frame).0 in
      waiting q'.items q'.head q'.count ≡ waiting q.items q.head q.count ++ (frame ∷ [])
unfolding push
push_waiting q frame v room short =
    let open' : (leb txq_depth q.count || ltb (1 + max_payload) (length frame)) ≡ false =
      ground (arith, room, short) in
    let next : q.count + 1 ≡ suc q.count = omega arith in
    rw open' (rw next (waiting-set q.items frame q.count q.head q.tail v.whole v.head room v.tail))

-- What is done to the queue: a frame is pushed, or the radio is offered one.
pub data Call : Type 0 where
  pushes : (frame : List ℕ) → Call
  pumps : (busy : Bool) (sends : List ℕ → Bool) → Call

-- The queue, with the frames that it took and those that the radio took.
pub record Run : Type 0 where
  pub queue : TxQueue
  pub taken : List (List ℕ)
  pub sent : List (List ℕ)

abbrev pub optional : Option (List ℕ) → List (List ℕ)
optional none = []
optional (some f) = f ∷ []

unfoldable pub call : Run → Call → Run
call r (pushes frame) =
    let (q, ok) = push r.queue frame in
    record r { queue = q; taken = r.taken ++ (if ok then frame ∷ [] else []) }
call r (pumps busy sends) =
    let (q, out) = pump r.queue busy sends in record r { queue = q; sent = r.sent ++ optional out }

unfoldable pub calls : Run → List Call → Run
calls r [] = r
calls r (c ∷ cs) = calls (call r c) cs

abbrev pub started : Run
started = record { queue = init; taken = []; sent = [] }

-- The queue stands for the list of the frames that wait.
pub record Refines (r : Run) : Type 0 where
  pub valid : IsValid r.queue
  pub fifo : r.taken ≡ r.sent ++ waiting r.queue.items r.queue.head r.queue.count

call-pushes : (r : Run) (frame : List ℕ) → Refines r → Refines (call r (pushes frame))
unfolding call push
call-pushes r frame v =
    let q = r.queue in
    elim (Bool-cases (leb txq_depth q.count || ltb (1 + max_payload) (length frame))) [
      | inl full ↦ rw full (record { valid = v.valid; fifo = append-nil r.taken ∙ v.fifo })
      | inr room ↦
          let c : q.count < txq_depth = ground arith in
          let w = v.valid.whole in
          let h = v.valid.head in
          let t = v.valid.tail in
          let next : q.count + 1 ≡ suc q.count = omega arith in
          rw room (record {
            valid = record {
              whole = length-set q.items q.tail frame ∙ w;
              head = h;
              count = omega (arith, c);
              tail = omega (arith, h, c, t);
            };
            fifo =
                ap (λ z. z ++ (frame ∷ [])) v.fifo
                ∙ (append_assoc r.sent (waiting q.items q.head q.count) (frame ∷ [])
                    ∙ ap (λ z. r.sent ++ z)
                        (sym (rw next (waiting-set q.items frame q.count q.head q.tail w h c t))));
          })
    ]

call-pumps :
    (r : Run) (busy : Bool) (sends : List ℕ → Bool)
    → Refines r
    → Refines (call r (pumps busy sends))
unfolding call pump waiting
call-pumps r busy sends v =
    let q = r.queue in
    let same : r.taken ≡ (r.sent ++ []) ++ waiting q.items q.head q.count =
      v.fifo ∙ ap (λ z. z ++ waiting q.items q.head q.count) (sym (append-nil r.sent)) in
    elim (Bool-cases ((q.count == 0) || busy)) [
      | inl idle ↦ rw idle (record { valid = v.valid; fifo = same })
      | inr go ↦ elim (Bool-cases (sends (get_or q.items q.head []))) [
        | inr refused ↦ rw (go, refused) (record { valid = v.valid; fifo = same })
        | inl ok ↦
            let some_wait : q.count ≢ 0 = λ e. absurd (ground arith) in
            let n = q.count - 1 in
            let count_is : q.count ≡ suc n = omega (arith, some_wait) in
            let h = v.valid.head in
            let c = v.valid.count in
            let t = v.valid.tail in
            let split : waiting q.items q.head q.count
                ≡ get_or q.items q.head [] ∷ waiting q.items ((q.head + 1) % txq_depth) n =
              ap (waiting q.items q.head) count_is in
            rw (go, ok)
              (record {
                valid = record {
                  whole = v.valid.whole;
                  head = omega arith;
                  count = omega (arith, c);
                  tail = omega (arith, h, c, t, some_wait);
                };
                fifo =
                    v.fifo
                    ∙ (ap (λ z. r.sent ++ z) split
                        ∙ sym (append_assoc r.sent (get_or q.items q.head [] ∷ []) _));
              })
      ]
    ]

call-Refines : (r : Run) (c : Call) → Refines r → Refines (call r c)
call-Refines r (pushes frame) v = call-pushes r frame v
call-Refines r (pumps busy sends) v = call-pumps r busy sends v

calls-Refines_from : (r : Run) (cs : List Call) → Refines r → Refines (calls r cs)
unfolding calls
calls-Refines_from r [] v = v
calls-Refines_from r (c ∷ cs) v = calls-Refines_from (call r c) cs (call-Refines r c v)

-- Whatever is pushed and pumped, and whatever the radio refuses, the ring stands for a list: the
-- frames that were taken on are those that were sent, in order, and then those that wait. No frame is
-- lost, sent twice or overtaken, and the indices stay in range.
pub calls-Refines : (cs : List Call) → Refines (calls started cs)
unfolding waiting
calls-Refines cs = calls-Refines_from started cs (record {
  valid = record { whole = refl; head = omega arith; count = omega arith; tail = refl };
  fifo = refl;
})
