-- ===== src/NodeTable/Refs.antt =====
-- What references resolve to, and that one is never read as another node.
use agnostic_lora_net.Prelude.{
  ℕ, ◌%◌, ◌<◌, ◌≡◌, ◌⊎◌, refl, ap, ◌∙◌, inl, inr, true, false, some, ◌==◌, leb, get_elem?,
  get_elem?-lt, get_elem?-modify_self, arith, ==_iff,
}
use agnostic_lora_net.NodeId.{NodeId}
use agnostic_lora_net.NodeTable.{
  NodeTable, NodeRef, Slot, node_table_cap, node_ref_none, intern, live, resolve,
}
use agnostic_lora_net.NodeTable.Pick.{IsValid, intern_cases}

resolve_at :
    (t : NodeTable) (r : NodeRef) (s : Slot)
    → get_elem? t.slots r.idx ≡ some s
    → r.idx < node_table_cap
    → s.used ≡ true
    → s.gen ≡ r.gen
    → resolve t r ≡ some s.id
unfolding resolve live
resolve_at t r s g lt u e =
    let inside : leb node_table_cap r.idx ≡ false = ground arith in
    let same : (s.gen == r.gen) ≡ true = (==_iff _ _).1 e in ground arith

-- The reference that a valid table gives for an id resolves to that id, unless it is the reserved
-- one, which is given only if it leaves the slots as they were.
pub resolve-intern :
    (t : NodeTable) (id : NodeId) (now_ms : ℕ)
    → IsValid t
    → (resolve (intern t id now_ms).0 (intern t id now_ms).1 ≡ some id)
      ⊎ (((intern t id now_ms).1 ≡ node_ref_none) × ((intern t id now_ms).0.slots ≡ t.slots))
resolve-intern t id now_ms v = elim (intern_cases t id now_ms) [
  | inr (s, e) ↦ inr (e, s)
  | inl p ↦
      let lt = get_elem?-lt t.slots p.place p.there in
      let w = v.whole in
      let inside : p.place < node_table_cap = omega (arith, lt, w) in
      let same : p.place % 256 ≡ p.place = omega (arith, inside) in
      let at : get_elem? (intern t id now_ms).0.slots (p.place % 256) ≡ some (p.new p.old) =
        rw (same, p.slots) (get_elem?-modify_self t.slots p.place p.new p.there) in
      inl (
        rw p.ref (
          resolve_at (intern t id now_ms).0
            (record { idx = p.place % 256; gen = (p.new p.old).gen }) (p.new p.old) at
            (omega (arith, inside)) p.used refl
          ∙ ap some p.named))
]
