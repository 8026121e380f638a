-- ===== src/Packet/Unicast/Acks.antt =====
-- The acknowledgement of a hop: what the next hop answers, and what the answer does at the sender.
use agnostic_lora_net.Prelude.{ℕ, ◌≡◌, refl, sym, ap, ◌∙◌, false, List, none, some}
use agnostic_lora_net.NodeId.{is_zero}
use agnostic_lora_net.Neighbors.{my_alias_for, their_alias_for, neighbor_by_link}
use agnostic_lora_net.Neighbors.Known.{
  Knows, my_alias_for-Knows, their_alias_for-Knows, neighbor_by_link-Knows, alias_set,
  alias_directed,
}
use agnostic_lora_net.Router.{Router}
use agnostic_lora_net.LinkArq.{on_ack}
use agnostic_lora_net.TxQueue.{push}
use agnostic_lora_net.Packet.{LinkHeader, NetHeader, get_link}
use agnostic_lora_net.Packet.Reflood.{frame}
use agnostic_lora_net.Packet.Unicast.{Link, ack_frame, send_ack, on_link}

-- Two nodes that know each other, and each the alias that the other gave to the link.
pub record Linked {F : Type 0} (a b : Router F) : Type 0 where
  pub to : Knows a.neighbors b.my_id
  pub back : Knows b.neighbors a.my_id
  pub told : to.entry.their_alias ≡ back.entry.my_alias
  pub heard : back.entry.their_alias ≡ to.entry.my_alias
  pub named : (is_zero a.my_id ≡ false) × (is_zero b.my_id ≡ false)

-- Between two nodes, of ids other than zero, of which each has the other, and the alias that it gave to the link, in a valid
-- table: a directed frame of the sender that asks for an acknowledgement passes the link filter of the
-- hop as one of the sender, and the hop hands its queue one answer. That answer passes the sender's
-- link filter, and the sender takes the number of its frame as acknowledged and does nothing else.
pub on_link-ack_frame :
    {F : Type 0} (a b : Router F) (sender hop : Link) (seq : ℕ) (n : NetHeader) (payload : List ℕ)
    → Linked a b
    → let sent : LinkHeader = record {
      prev_hop = my_alias_for a.neighbors b.my_id;
      next_hop = their_alias_for a.neighbors b.my_id;
      link_seq = seq;
      flags = 1;
    } in
      let answer = ack_frame b a.my_id seq in
      (on_link hop b (get_link (frame sent n payload))
        ≡ (record hop { txq = (push hop.txq answer).0 }, some a.my_id))
      × (on_link sender a (get_link answer)
          ≡ (record sender { arq = (on_ack sender.arq seq).0 }, none))
unfolding on_link send_ack
on_link-ack_frame a b sender hop seq n payload k =
    let at_b = k.back in
    let at_a = k.to in
    let my_a = my_alias_for-Knows a.neighbors b.my_id at_a in
    let their_a = their_alias_for-Knows a.neighbors b.my_id at_a ∙ k.told in
    let my_b = my_alias_for-Knows b.neighbors a.my_id at_b in
    let their_b = their_alias_for-Knows b.neighbors a.my_id at_b ∙ k.heard in
    let from_a : neighbor_by_link b.neighbors at_b.entry.my_alias at_a.entry.my_alias ≡ a.my_id =
      ap (neighbor_by_link b.neighbors at_b.entry.my_alias) (sym k.heard)
      ∙ neighbor_by_link-Knows b.neighbors a.my_id at_b in
    let from_b : neighbor_by_link a.neighbors at_a.entry.my_alias at_b.entry.my_alias ≡ b.my_id =
      ap (neighbor_by_link a.neighbors at_a.entry.my_alias) (sym k.told)
      ∙ neighbor_by_link-Knows a.neighbors b.my_id at_a in
    (
      rw (my_a, their_a, alias_directed b.neighbors a.my_id at_b, from_a, k.named.0) refl,
      rw
          (
            my_b,
            their_b,
            alias_set a.neighbors b.my_id at_a,
            alias_directed a.neighbors b.my_id at_a,
            from_b,
            k.named.1,
          )
          refl,
    )
