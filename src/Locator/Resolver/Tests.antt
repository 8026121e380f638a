-- ===== src/Locator/Resolver/Tests.antt =====
-- The theorems on resolutions, at concrete ones.
use agnostic_lora_net.Prelude.{
  ℕ, ◌≡◌, ◌⊎◌, refl, true, List, [], ◌∷◌, arith, find_slot, Every-replicate, Every, ◌≢◌, sym, ◌∙◌,
  false,
}
use mathlib.Core.Bool.{false≢true}
use agnostic_lora_net.Locator.{bad_id}
use agnostic_lora_net.Locator.Resolver.{P, init, no_p, slot_loop, begin, loc_max_pending}
use agnostic_lora_net.Locator.Resolver.Pending.{IsValid, IsQid, IsFull, Waits, begin-Begins}

abbrev some_id : List ℕ
some_id = 0xab ∷ 0xcd ∷ []

init-IsValid : IsValid init
init-IsValid = record {
  next = (omega arith, omega arith);
  named =
      Every-replicate (λ (p : P). p.used ≡ true → IsQid p.qid) loc_max_pending no_p
        (λ u. absurd (ground arith));
  unique = λ i j a b ga gb d u. absurd (false≢true (sym (none_used i a ga) ∙ u));
}
  where
    none_used : Every (λ (p : P). p.used ≡ false) init.slots
    none_used = Every-replicate (λ (p : P). p.used ≡ false) loc_max_pending no_p refl

first_fresh : Every (λ (p : P). p.used ≡ true → p.qid ≢ 1) init.slots
first_fresh =
    Every-replicate (λ (p : P). p.used ≡ true → p.qid ≢ 1) loc_max_pending no_p
      (λ u. absurd (false≢true u))

begin-Begins_example :
    let (r', q) = begin init some_id 1000 500 in
    IsValid r'
    × (((q ≡ 0) × (r' ≡ init) × ((bad_id some_id ≡ true) ⊎ IsFull 1000 init))
        ⊎ (IsQid q × Waits r' some_id 1000 q))
begin-Begins_example =
    begin-Begins init some_id 1000 500 init-IsValid first_fresh (omega arith) (omega arith)

begun_first : (begin init some_id 1000 500).1 ≡ 1
unfolding begin find_slot slot_loop
begun_first = refl
