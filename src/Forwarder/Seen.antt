-- ===== src/Forwarder/Seen.antt =====
-- The cache of packets seen: a packet is remembered until 64 others have come in.
use agnostic_lora_net.Prelude.{
  ℕ, suc, ◌+◌, ◌-◌, ◌%◌, ◌≤◌, ◌<◌, ◌≡◌, refl, sym, ◌∙◌, inl, inr, true, false, some, length,
  get_elem?, get_elem?_total, any, any-false, bytes_eq_refl, ==_refl, get_elem?-modify_self,
  get_elem?-modify_ne, length-modify, Bool-cases, arith,
}
use mathlib.Core.Bool.{false≢true}
use agnostic_lora_net.NodeId.{NodeId}
use agnostic_lora_net.Forwarder.{Forwarder, seen_cache_size, init, is_entry, entry, seen_or_insert}

pub record IsValid (f : Forwarder) : Type 0 where
  pub whole : length f.seen ≡ seen_cache_size
  pub inside : f.seen_head < seen_cache_size

pub init-IsValid : (me : NodeId) → IsValid (init me)
init-IsValid me = record { whole = refl; inside = omega arith }

pub seen_or_insert-IsValid :
    (f : Forwarder) (src : NodeId) (pkt_id : ℕ)
    → IsValid f
    → IsValid (seen_or_insert f src pkt_id).0
unfolding seen_or_insert
seen_or_insert-IsValid f src pkt_id v = elim (Bool-cases (any (is_entry src pkt_id) f.seen)) [
  | inl t ↦ rw t v
  | inr n ↦ rw n (record {
    whole = length-modify f.seen f.seen_head (λ _. entry src pkt_id) ∙ v.whole;
    inside = omega arith;
  })
]

-- The packet stands in the cache, and its place is written over after `n` insertions at the soonest.
pub record Keeps (f : Forwarder) (src : NodeId) (pkt_id n : ℕ) : Type 0 where
  pub place : ℕ
  pub age : ℕ
  pub there : get_elem? f.seen place ≡ some (entry src pkt_id)
  pub left : (f.seen_head + age) % seen_cache_size ≡ place
  pub few : age < seen_cache_size
  pub long : n ≤ age

entry-is_entry : (src : NodeId) (pkt_id : ℕ) → is_entry src pkt_id (entry src pkt_id) ≡ true
entry-is_entry src pkt_id = rw (bytes_eq_refl src) (==_refl pkt_id)

pub Keeps-known :
    (f : Forwarder) (src : NodeId) (pkt_id n : ℕ)
    → Keeps f src pkt_id n
    → any (is_entry src pkt_id) f.seen ≡ true
Keeps-known f src pkt_id n k = elim (Bool-cases (any (is_entry src pkt_id) f.seen)) [
  | inl t ↦ t
  | inr off ↦ absurd (
      false≢true (
        sym (any-false (is_entry src pkt_id) f.seen k.place off k.there)
        ∙ entry-is_entry src pkt_id))
]

-- A packet that was not known is kept through 63 insertions.
pub seen_or_insert-Keeps :
    (f : Forwarder) (src : NodeId) (pkt_id : ℕ)
    → IsValid f
    → (seen_or_insert f src pkt_id).1 ≡ false
    → Keeps (seen_or_insert f src pkt_id).0 src pkt_id 63
unfolding seen_or_insert
seen_or_insert-Keeps f src pkt_id v new = elim (Bool-cases (any (is_entry src pkt_id) f.seen)) [
  | inl t ↦ absurd (false≢true (sym new ∙ rw t))
  | inr off ↦ rw off (
      let w = v.whole in
      let i = v.inside in
      let (x, g) = get_elem?_total f.seen f.seen_head (omega (arith, w, i)) in
      record {
        place = f.seen_head;
        age = 63;
        there = get_elem?-modify_self f.seen f.seen_head (λ _. entry src pkt_id) g;
        left = omega (arith, i);
        few = omega arith;
        long = omega arith;
      })
]

-- Another packet takes at most one from what is left.
pub seen_or_insert-Keeps-suc :
    (f : Forwarder) (src : NodeId) (pkt_id n : ℕ) (src' : NodeId) (pkt_id' : ℕ)
    → IsValid f
    → Keeps f src pkt_id (suc n)
    → Keeps (seen_or_insert f src' pkt_id').0 src pkt_id n
unfolding seen_or_insert
seen_or_insert-Keeps-suc f src pkt_id n src' pkt_id' v k =
    let left = k.left in
    let few = k.few in
    let long = k.long in
    let inside = v.inside in
    elim (Bool-cases (any (is_entry src' pkt_id') f.seen)) [
      | inl t ↦ rw t (record {
        place = k.place;
        age = k.age;
        there = k.there;
        left = k.left;
        few = k.few;
        long = omega (arith, long);
      })
      | inr off ↦ rw off (record {
        place = k.place;
        age = k.age - 1;
        there =
            get_elem?-modify_ne f.seen f.seen_head k.place (λ _. entry src' pkt_id')
              (omega (arith, left, few, long, inside))
            ∙ k.there;
        left = omega (arith, left, few, long, inside);
        few = omega (arith, few);
        long = omega (arith, long);
      })
    ]
