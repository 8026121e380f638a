-- ===== src/Packet/Unicast/Hops.antt =====
-- What a relay makes of a frame that it sends to the next hop.
use agnostic_lora_net.Prelude.{
  ℕ, ◌+◌, ◌≤◌, ◌<◌, ◌≡◌, ◌≢◌, refl, ap, ◌∙◌, false, List, [], ◌∷◌, ◌++◌, ◌==◌, length,
  length-append, write_at, add32, arith,
}
use agnostic_lora_net.NodeId.{NodeId}
use agnostic_lora_net.Neighbors.{my_alias_for, their_alias_for}
use agnostic_lora_net.Router.{Router}
use agnostic_lora_net.LinkArq.{arq_timeout_ms, arq_max_retries, next_seq, track}
use agnostic_lora_net.LinkArq.Tracked.{Holds, HasRoom, next_seq_slots, track-Holds}
use agnostic_lora_net.TxQueue.{txq_depth, push}
use agnostic_lora_net.TxQueue.Fifo.{IsValid, waiting, push_waiting}
use agnostic_lora_net.Packet.{LinkHeader, NetHeader, link_addr_none, link_addr_broadcast, put_net}
use agnostic_lora_net.Packet.Reflood.{IsNet, frame, frame_fits, length-put_net, restamped}
use agnostic_lora_net.Packet.Unicast.{Link, tx_unicast, forward_frame}

-- A frame that is addressed to one alias is numbered, asks for an acknowledgement, and is queued and
-- tracked as the same bytes.
tx_unicast_directed :
    (s : Link) (l : LinkHeader) (n : NetHeader) (payload : List ℕ) (next : NodeId) (now_ms : ℕ)
    → l.next_hop ≢ link_addr_broadcast
    → l.flags ≡ 0
    → let (arq, seq) = next_seq s.arq in
      let sent = frame (record l { link_seq = seq; flags = 1 }) n payload in
      tx_unicast s (frame l n payload) next now_ms ≡ record {
        arq = (track arq seq next sent (length sent) now_ms arq_timeout_ms arq_max_retries).0;
        txq = (push s.txq sent).0;
      }
unfolding tx_unicast write_at
tx_unicast_directed s l n payload next now_ms directed plain =
    let d : (l.next_hop == link_addr_broadcast) ≡ false = ground (arith, directed) in
    rw (d, plain) refl

-- The frame that `next` is sent: from this node's alias to that of the hop, with the next number.
abbrev pub relayed : {F : Type 0} → Link → Router F → NetHeader → List ℕ → NodeId → ℕ → List ℕ
relayed s r n payload next out_ttl =
    frame
      (record {
        prev_hop = my_alias_for r.neighbors next;
        next_hop = their_alias_for r.neighbors next;
        link_seq = (next_seq s.arq).1;
        flags = 1;
      })
      (record n { ttl = out_ttl }) payload

-- One frame more waits for the radio, behind the others, and the ARQ holds the same bytes.
pub record Relays (s s' : Link) (next : NodeId) (sent : List ℕ) (now_ms : ℕ) : Type 0 where
  pub queued :
      waiting s'.txq.items s'.txq.head s'.txq.count
      ≡ waiting s.txq.items s.txq.head s.txq.count ++ (sent ∷ [])
  pub held : Holds s'.arq (next_seq s.arq).1 next sent (add32 now_ms arq_timeout_ms) arq_max_retries

module _ {F : Type 0} (s : Link) (r : Router F) (l : LinkHeader) (n : NetHeader) (payload : List ℕ)
    (next : NodeId) (out_ttl now_ms : ℕ) where
  forward_frame_made :
      IsNet n
      → length payload ≤ 214
      → their_alias_for r.neighbors next ≢ link_addr_none
      → their_alias_for r.neighbors next ≢ link_addr_broadcast
      → let sent = relayed s r n payload next out_ttl in
        forward_frame s r (frame l n payload) next out_ttl now_ms ≡ record {
          arq =
              (track
                (next_seq s.arq).0
                (next_seq s.arq).1
                next
                sent
                (length sent)
                now_ms
                arq_timeout_ms
                arq_max_retries).0;
          txq = (push s.txq sent).0;
        }
  unfolding forward_frame
  forward_frame_made v short known directed =
      let na = their_alias_for r.neighbors next in
      let k : (na == link_addr_none) ≡ false = ground (arith, known) in
      let l' : LinkHeader = record {
        prev_hop = my_alias_for r.neighbors next;
        next_hop = na;
        link_seq = l.link_seq;
        flags = 0;
      } in
      rw (frame_fits l n payload v (omega (arith, short)), k)
        (ap (λ z. tx_unicast s z next now_ms) (restamped l l' n payload out_ttl v)
          ∙ tx_unicast_directed s l' (record n { ttl = out_ttl }) payload next now_ms directed refl)

  -- Let a frame with at most 214 bytes of payload be relayed to a hop whose alias is known, the
  -- queue being valid and not full, and the ARQ having a free slot and all buffers of 255 bytes.
  -- Then it waits as one frame behind the others, and the ARQ holds the same bytes for that hop,
  -- under the next number, with all retries left and due after the timeout. The bytes are the
  -- frame's own, but that the link header has this node's alias, that of the hop, that number and
  -- the request of an acknowledgement, and the time to live is the one asked for.
  pub forward_frame-Relays :
      IsNet n
      → length payload ≤ 214
      → their_alias_for r.neighbors next ≢ link_addr_none
      → their_alias_for r.neighbors next ≢ link_addr_broadcast
      → IsValid s.txq
      → s.txq.count < txq_depth
      → HasRoom s.arq
      → Relays s
          (forward_frame s r (frame l n payload) next out_ttl now_ms)
          next
          (relayed s r n payload next out_ttl)
          now_ms
  forward_frame-Relays v short known directed q room slot =
      let sent = relayed s r n payload next out_ttl in
      let aged : NetHeader = record n { ttl = out_ttl } in
      let size : length sent ≡ 41 + length payload =
        let m = length-put_net aged (record { dst = v.dst; src = v.src; pkt_id = v.pkt_id }) in
        let e = length-append (put_net aged) payload in omega (arith, m, e) in
      let same = next_seq_slots s.arq in
      let room' : HasRoom (next_seq s.arq).0 = record {
        whole = rw same slot.whole;
        place = slot.place;
        slot = slot.slot;
        there = rw same slot.there;
        free = slot.free;
      } in
      rw (forward_frame_made v short known directed) (record {
        queued = push_waiting s.txq sent q room (omega (arith, size, short));
        held =
            track-Holds (next_seq s.arq).0 (next_seq s.arq).1 next sent now_ms arq_timeout_ms
              arq_max_retries room' (omega (arith, size, short));
      })

  -- A relayed frame whose next hop has no alias yet goes to every neighbour, and nothing waits for an
  -- acknowledgement of it.
  pub forward_frame_unaddressed :
      IsNet n
      → length payload ≤ 215
      → their_alias_for r.neighbors next ≡ link_addr_none
      → let sent =
          frame
            (record l {
              prev_hop = my_alias_for r.neighbors next;
              next_hop = link_addr_broadcast;
              flags = 0;
            })
            (record n { ttl = out_ttl })
            payload in
        forward_frame s r (frame l n payload) next out_ttl now_ms
        ≡ record s { txq = (push s.txq sent).0 }
  unfolding forward_frame tx_unicast
  forward_frame_unaddressed v short unknown =
      rw (frame_fits l n payload v short, unknown)
        (ap (λ z. tx_unicast s z next now_ms) (restamped l _ n payload out_ttl v))
