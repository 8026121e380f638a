-- ===== src/Packet/Flood/Kept.antt =====
-- The ring of floods that were handled, after a flood is marked and others follow it.
use agnostic_lora_net.Prelude.{
  ℕ, suc, zero, ◌+◌, ◌-◌, ◌%◌, ◌≤◌, ◌<◌, ◌≡◌, refl, sym, ◌∙◌, inl, inr, true, List, [], ◌∷◌, some,
  length, length-set, get_elem?, get_elem?-set_self, get_elem?-set_ne, any, any-false,
  bytes_eq_refl, ==_refl, Bool-cases, arith,
}
use mathlib.Core.Bool.{false≢true}
use agnostic_lora_net.NodeId.{NodeId}
use agnostic_lora_net.Packet.Flood.{
  LocSeen, Floods, loc_seen_size, no_floods, is_flood, flood_seen, flood_mark,
}

pub record IsValid (f : Floods) : Type 0 where
  pub whole : length f.loc_seen ≡ loc_seen_size
  pub inside : f.loc_seen_i < loc_seen_size

pub no_floods-IsValid : IsValid no_floods
no_floods-IsValid = record { whole = refl; inside = omega arith }

pub flood_mark-IsValid :
    (f : Floods) (src : NodeId) (pid : ℕ) → IsValid f → IsValid (flood_mark f src pid)
unfolding flood_mark
flood_mark-IsValid f src pid v = record {
  whole = length-set f.loc_seen f.loc_seen_i _ ∙ v.whole;
  inside = omega arith;
}

abbrev marked : NodeId → ℕ → LocSeen
marked src pid = record { src = src; pid = pid; used = true }

-- The flood stands in the ring, where it is written over after `n` others at the soonest.
record Keeps (f : Floods) (src : NodeId) (pid n : ℕ) : Type 0 where
  place : ℕ
  age : ℕ
  there : get_elem? f.loc_seen place ≡ some (marked src pid)
  left : (f.loc_seen_i + age) % loc_seen_size ≡ place
  few : age < loc_seen_size
  long : n ≤ age

Keeps-flood_seen :
    (f : Floods) (src : NodeId) (pid n : ℕ) → Keeps f src pid n → flood_seen f src pid ≡ true
unfolding flood_seen
Keeps-flood_seen f src pid n k = elim (Bool-cases (any (is_flood src pid) f.loc_seen)) [
  | inl t ↦ t
  | inr off ↦
      let same : is_flood src pid (marked src pid) ≡ true = rw (bytes_eq_refl src) (==_refl pid) in
      absurd (false≢true (sym (any-false (is_flood src pid) f.loc_seen k.place off k.there) ∙ same))
]

flood_mark-Keeps :
    (f : Floods) (src : NodeId) (pid : ℕ) → IsValid f → Keeps (flood_mark f src pid) src pid 15
unfolding flood_mark
flood_mark-Keeps f src pid v =
    let w = v.whole in
    let i = v.inside in
    record {
      place = f.loc_seen_i;
      age = 15;
      there = get_elem?-set_self f.loc_seen f.loc_seen_i (marked src pid) (omega (arith, w, i));
      left = omega (arith, i);
      few = omega arith;
      long = omega arith;
    }

flood_mark-Keeps-suc :
    (f : Floods) (src : NodeId) (pid n : ℕ) (src' : NodeId) (pid' : ℕ)
    → IsValid f
    → Keeps f src pid (suc n)
    → Keeps (flood_mark f src' pid') src pid n
unfolding flood_mark
flood_mark-Keeps-suc f src pid n src' pid' v k =
    let left = k.left in
    let few = k.few in
    let long = k.long in
    let inside = v.inside in
    record {
      place = k.place;
      age = k.age - 1;
      there =
          get_elem?-set_ne f.loc_seen f.loc_seen_i k.place (marked src' pid')
            (λ e. absurd (omega (arith, left, few, long, inside, e)))
          ∙ k.there;
      left = omega (arith, left, few, long, inside);
      few = omega (arith, few);
      long = omega (arith, long);
    }

-- The ring after floods with these sources and packet ids were marked, in order.
unfoldable pub marks : Floods → List (NodeId × ℕ) → Floods
marks f [] = f
marks f (e ∷ es) = marks (flood_mark f e.0 e.1) es

marks-Keeps :
    (f : Floods) (src : NodeId) (pid n : ℕ) (es : List (NodeId × ℕ))
    → IsValid f
    → Keeps f src pid n
    → length es ≤ n
    → flood_seen (marks f es) src pid ≡ true
unfolding marks
marks-Keeps f src pid n [] v k h = Keeps-flood_seen f src pid n k
marks-Keeps f src pid zero (e ∷ es) v k h = absurd (omega (arith, h))
marks-Keeps f src pid (suc n) (e ∷ es) v k h =
    marks-Keeps (flood_mark f e.0 e.1) src pid n es (flood_mark-IsValid f e.0 e.1 v)
      (flood_mark-Keeps-suc f src pid n e.0 e.1 v k) (omega (arith, h))

-- In a ring of sixteen whose next place is inside it, a flood that was marked is known as long as at
-- most fifteen others have been marked after it.
pub flood_seen-flood_mark :
    (f : Floods) (src : NodeId) (pid : ℕ) (es : List (NodeId × ℕ))
    → IsValid f
    → length es ≤ 15
    → flood_seen (marks (flood_mark f src pid) es) src pid ≡ true
flood_seen-flood_mark f src pid es v h =
    marks-Keeps (flood_mark f src pid) src pid 15 es (flood_mark-IsValid f src pid v)
      (flood_mark-Keeps f src pid v) h
