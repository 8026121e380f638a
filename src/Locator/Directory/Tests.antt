-- ===== src/Locator/Directory/Tests.antt =====
-- The theorems on the directory, at concrete bindings.
use agnostic_lora_net.Prelude.{
  ℕ, ◌≡◌, ◌⊎◌, refl, true, false, List, [], ◌∷◌, some, replicate, add32, arith, find_slot, bytes_eq,
}
use agnostic_lora_net.NodeId.{NodeId}
use agnostic_lora_net.Locator.Directory.{init, alloc_loop, upsert, lookup_full}
use agnostic_lora_net.Locator.Directory.Valid.{
  IsValid, Refuses, upserts, looks_up, removes, calls, calls-IsValid, init-IsValid,
}
use agnostic_lora_net.Locator.Directory.Stored.{Meets, upsert-Meets, lookup_full-upsert}

abbrev some_id : List ℕ
some_id = 0xab ∷ 0xcd ∷ []

abbrev some_loc : NodeId
some_loc = replicate 16 5

upsert-Meets_example :
    ((upsert init some_id some_loc 7 1 60 1000 ≡ (init, false)) × Refuses init some_id 7 1 1000)
    ⊎ (((upsert init some_id some_loc 7 1 60 1000).1 ≡ true)
        × Meets init (upsert init some_id some_loc 7 1 60 1000).0 some_id some_loc 7 1 60 1000)
upsert-Meets_example = upsert-Meets init some_id some_loc 7 1 60 1000 init-IsValid

takes_it : (upsert init some_id some_loc 7 1 60 1000).1 ≡ true
unfolding upsert find_slot alloc_loop
takes_it = refl

lookup_full-upsert_example :
    (lookup_full (upsert init some_id some_loc 7 1 60 1000).0 some_id (add32 1000 1500)).1
    ≡ some (record { loc = some_loc; epoch = 7; seq = 1; ttl_s = 58 })
lookup_full-upsert_example =
    lookup_full-upsert init some_id some_loc 7 1 60 1000 1500 init-IsValid takes_it (omega arith)
      (omega arith)

calls-IsValid_example : IsValid (
    calls init
      (upserts some_id some_loc 7 1 60 1000 ∷ looks_up some_id 2000 ∷ removes some_id ∷ []))
calls-IsValid_example =
    calls-IsValid
      (upserts some_id some_loc 7 1 60 1000 ∷ looks_up some_id 2000 ∷ removes some_id ∷ [])

-- The same sequence number again is refused, a later one is not.
refuses_old :
    (upsert (upsert init some_id some_loc 7 1 60 1000).0 some_id some_loc 7 1 60 1001).1 ≡ false
unfolding upsert find_slot alloc_loop bytes_eq
refuses_old = refl

takes_newer :
    (upsert (upsert init some_id some_loc 7 1 60 1000).0 some_id some_loc 7 2 60 1001).1 ≡ true
unfolding upsert find_slot alloc_loop bytes_eq
takes_newer = refl
