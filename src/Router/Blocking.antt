-- ===== src/Router/Blocking.antt =====
-- An administratively blocked neighbour is never used.
use agnostic_lora_net.Prelude.{
  ℕ, ◌-◌, ◌≤◌, ◌≡◌, ◌≢◌, refl, sym, ◌∙◌, subst, inl, inr, Bool, false, ◌||◌, List, [], ◌∷◌, ◌++◌,
  some, length, length-append, length-set, length-take, bytes_eq, bytes_eq→eq, Bool-cases,
  Option-cases, arith, leb, any, any-append, any-take, any-set, any-get_or, find_index,
  find_index-some, get_elem?-lt, get_or, take, set, false_of, find,
}
use mathlib.Core.List.{foldl}
use agnostic_lora_net.NodeId.{NodeId, zero_id, is_zero}
use agnostic_lora_net.Float.{Float}
use agnostic_lora_net.Neighbors
use agnostic_lora_net.Neighbors.{NeighborTable}
use agnostic_lora_net.Neighbors.Valid
use agnostic_lora_net.Neighbors.Heard
use agnostic_lora_net.Routes
use agnostic_lora_net.Routes.{Route, RoutingTable, lookup}
use agnostic_lora_net.Routes.Valid.{IsValid}
use agnostic_lora_net.Routes.Own.{
  HasOwn, set_self-Meets, set_self-init, set_self-HasOwn', offer-HasOwn, drop_via-HasOwn,
  prune-HasOwn,
}
use agnostic_lora_net.Router.Hops.{offer-hop, drop_via-hop, prune-hop}
use agnostic_lora_net.Router.{
  Router, Announce, RouteAdv, max_blocked, make, is_blocked, block, unblock, learn_link, relax_adv,
  on_beacon, tick,
}

abbrev pub listed : List NodeId → NodeId → Bool
listed ids id = any (λ b. bytes_eq b id) ids

module _ {F : Type 0} ⦃fl : Float F⦄ where
  -- No route of `me` but its own goes through a listed id.
  abbrev pub Avoids : NodeId → List NodeId → RoutingTable F → Type 0
  Avoids me ids t =
      (d : NodeId) (x : Route F) → d ≢ me → lookup t d ≡ some x → listed ids x.next_hop ≡ false

  pub record Good (me : NodeId) (ids : List NodeId) (t : RoutingTable F) : Type 0 where
    pub table : HasOwn me t
    pub avoids : Avoids me ids t

  set_self-Good :
      (me : NodeId) (ids : List NodeId) (t : RoutingTable F) (now_ms : ℕ)
      → Good me ids t
      → Good me ids (Routes.set_self t me now_ms)
  set_self-Good me ids t now_ms g = record {
    table = set_self-HasOwn' me t g.table now_ms;
    avoids = λ d x far e.
        let v = subst (λ z. IsValid (record t { self = z })) g.table.own g.table.valid in
        let m = set_self-Meets t me now_ms v in
        g.avoids d x far (same d ∙ (sym (m.others d far) ∙ e));
  }
    where
      same : (d : NodeId) → lookup t d ≡ lookup (record t { self = me }) d
      same d = unfold lookup in refl

  relax_adv-Good :
      (me from : NodeId) (ids : List NodeId) (c : F) (now_ms : ℕ) (t : RoutingTable F)
      (adv : RouteAdv F)
      → listed ids from ≡ false
      → Good me ids t
      → Good me ids (relax_adv me from c now_ms t adv)
  unfolding relax_adv
  relax_adv-Good me from ids c now_ms t adv free g = elim (Bool-cases (bytes_eq adv.dst me)) [
    | inl a ↦ rw a g
    | inr a ↦ elim (Bool-cases (bytes_eq adv.next_hop me)) [
      | inl b ↦ rw (a, b) g
      | inr b ↦
          rw (a, b)
            (record {
              table = offer-HasOwn me t g.table adv.dst from _ _ now_ms;
              avoids = λ d x far e. elim (offer-hop t g.table.valid adv.dst from _ _ now_ms d x e) [
                | inl s ↦ rw s free
                | inr (r, l, s) ↦ rw s (g.avoids d r far l)
              ];
            })
    ]
  ]

  relax_all-Good :
      (me from : NodeId) (ids : List NodeId) (c : F) (now_ms : ℕ) (advs : List (RouteAdv F))
      (t : RoutingTable F)
      → listed ids from ≡ false
      → Good me ids t
      → Good me ids (foldl (relax_adv me from c now_ms) t advs)
  relax_all-Good me from ids c now_ms [] t free g = g
  relax_all-Good me from ids c now_ms (adv ∷ advs) t free g =
      relax_all-Good me from ids c now_ms advs (relax_adv me from c now_ms t adv) free
        (relax_adv-Good me from ids c now_ms t adv free g)

  drop_via-Good :
      (me via : NodeId) (ids : List NodeId) (t : RoutingTable F)
      → Good me ids t
      → Good me ids (Routes.drop_via t via)
  drop_via-Good me via ids t g = record {
    table = drop_via-HasOwn me t g.table via;
    avoids = λ d x far e. g.avoids d x far (drop_via-hop t g.table.valid via d x e).0;
  }

  drop_all-Good :
      (me : NodeId) (ids vias : List NodeId) (t : RoutingTable F)
      → Good me ids t
      → Good me ids (foldl Routes.drop_via t vias)
  drop_all-Good me ids [] t g = g
  drop_all-Good me ids (via ∷ vias) t g =
      drop_all-Good me ids vias (Routes.drop_via t via) (drop_via-Good me via ids t g)

  prune-Good :
      (me : NodeId) (ids : List NodeId) (t : RoutingTable F) (now_ms timeout_ms : ℕ)
      → Good me ids t
      → Good me ids (Routes.prune t now_ms timeout_ms)
  prune-Good me ids t now_ms timeout_ms g = record {
    table = prune-HasOwn me t g.table now_ms timeout_ms;
    avoids = λ d x far e. g.avoids d x far (prune-hop t g.table.valid now_ms timeout_ms d x e);
  }

  -- What holds of a router at all times.
  pub record IsSound (r : Router F) : Type 0 where
    pub nbrs : Neighbors.Valid.IsValid r.neighbors
    pub routes : Good r.my_id r.blocked r.routes
    pub few : length r.blocked ≤ max_blocked
    pub no_zero : is_blocked r zero_id ≡ false
    pub other : is_blocked r r.my_id ≡ false

  pub make-IsSound : (me : NodeId) → IsSound (make {F = F} me)
  unfolding make is_blocked any Neighbors.set_alias_seed
  make-IsSound me = record {
    nbrs = Neighbors.Heard.init-IsValid _;
    routes = record { table = set_self-init me 0; avoids = λ d x far e. refl };
    few = omega arith;
    no_zero = refl;
    other = refl;
  }

  learn_link-IsValid :
      (me from : NodeId) (q : F) (a : Announce F) (now_ms : ℕ) (t : NeighborTable F)
      → Neighbors.Valid.IsValid t
      → Neighbors.Valid.IsValid (learn_link me from q a now_ms t)
  unfolding learn_link
  learn_link-IsValid me from q a now_ms t v =
      elim (Option-cases (find (λ p. bytes_eq p.id me) a.reports)) [
        | inl e ↦ rw (e, learn_link) known
        | inr (p, e) ↦
            rw (e, learn_link)
              (Neighbors.Valid.set_their_alias-IsValid _ from p.alias
                (Neighbors.Heard.set_tx_report-IsValid _ from p.q known))
      ]
    where
      known :
          Neighbors.Valid.IsValid
            (Neighbors.set_caps (Neighbors.heard t from q now_ms).0 from a.caps)
      known =
          Neighbors.Valid.set_caps-IsValid _ from a.caps
            (Neighbors.Heard.heard-IsValid t from q now_ms v)

  pub on_beacon-IsSound :
      (r : Router F) (from : NodeId) (q : F) (a : Announce F) (now_ms : ℕ)
      → IsSound r
      → IsSound (on_beacon r from q a now_ms)
  unfolding on_beacon is_blocked
  on_beacon-IsSound r from q a now_ms s = elim (Bool-cases (bytes_eq from r.my_id)) [
    | inl own ↦ rw own s
    | inr far ↦ elim (Bool-cases (listed r.blocked from)) [
      | inl shut ↦ rw (far, shut) s
      | inr free ↦
          rw (far, free)
            (record {
              nbrs = learn_link-IsValid r.my_id from q a now_ms r.neighbors s.nbrs;
              routes =
                  relax_all-Good r.my_id from r.blocked _ now_ms a.routes _ free
                    (set_self-Good r.my_id r.blocked r.routes now_ms s.routes);
              few = s.few;
              no_zero = s.no_zero;
              other = s.other;
            })
    ]
  ]

  pub tick-IsSound :
      (r : Router F) (now_ms neighbor_timeout_ms route_timeout_ms : ℕ)
      → IsSound r
      → IsSound (tick r now_ms neighbor_timeout_ms route_timeout_ms)
  unfolding tick is_blocked
  tick-IsSound r now_ms neighbor_timeout_ms route_timeout_ms s = record {
    nbrs =
        Neighbors.Valid.prune-IsValid r.neighbors now_ms neighbor_timeout_ms Neighbors.max_neighbors
          s.nbrs;
    routes =
        let (_, removed, n) =
          Neighbors.prune r.neighbors now_ms neighbor_timeout_ms Neighbors.max_neighbors in
        prune-Good r.my_id r.blocked _ now_ms route_timeout_ms
          (drop_all-Good r.my_id r.blocked (take n removed) r.routes s.routes);
    few = s.few;
    no_zero = s.no_zero;
    other = s.other;
  }

  pub block-IsSound : (r : Router F) (id : NodeId) → IsSound r → IsSound (block r id).0
  unfolding block is_blocked any
  block-IsSound r id s = elim (Bool-cases (is_zero id || bytes_eq id r.my_id)) [
    | inl bad ↦ rw bad s
    | inr ok ↦ elim (Bool-cases (listed r.blocked id)) [
      | inl known ↦ rw (ok, known) s
      | inr new ↦ elim (Bool-cases (leb max_blocked (length r.blocked))) [
        | inl full ↦ rw (ok, new, full) s
        | inr room ↦
            rw (ok, new, room)
              (record {
                nbrs = s.nbrs;
                routes = record {
                  table = drop_via-HasOwn r.my_id r.routes s.routes.table id;
                  avoids = λ d x far e.
                      let (l, off) = drop_via-hop r.routes s.routes.table.valid id d x e in
                      more x.next_hop (s.routes.avoids d x far l) (
                        false_of _ (λ h.
                          off (λ z. far (z ∙ s.routes.table.own))
                            (sym (bytes_eq→eq id x.next_hop h))));
                };
                few = ground (arith, length-append r.blocked (id ∷ []));
                no_zero = more zero_id s.no_zero (ground arith);
                other = more r.my_id s.other (ground arith);
              })
      ]
    ]
  ]
    where
      more :
          (z : NodeId)
          → listed r.blocked z ≡ false
          → bytes_eq id z ≡ false
          → listed (r.blocked ++ id ∷ []) z ≡ false
      more z h k = ground (arith, any-append (λ b. bytes_eq b z) r.blocked (id ∷ []))

  pub unblock-IsSound : (r : Router F) (id : NodeId) → IsSound r → IsSound (unblock r id)
  unfolding unblock is_blocked
  unblock-IsSound r id s = elim (Option-cases (find_index (λ b. bytes_eq b id) r.blocked)) [
    | inl e ↦ rw (e, unblock) s
    | inr (i, e) ↦
        rw (e, unblock)
          (record {
            nbrs = s.nbrs;
            routes = record {
              table = s.routes.table;
              avoids = λ d x far l. fewer i e x.next_hop (s.routes.avoids d x far l);
            };
            few = fewer_few i;
            no_zero = fewer i e zero_id s.no_zero;
            other = fewer i e r.my_id s.other;
          })
  ]
    where
      rest : ℕ → List NodeId
      rest i =
          take (length r.blocked - 1)
            (set r.blocked i (get_or r.blocked (length r.blocked - 1) zero_id))

      fewer :
          (i : ℕ)
          → find_index (λ b. bytes_eq b id) r.blocked ≡ some i
          → (z : NodeId) → listed r.blocked z ≡ false
          → listed (rest i) z ≡ false
      fewer i e z h =
          let (b, g, _) = find_index-some (λ b. bytes_eq b id) r.blocked i e in
          let here = get_elem?-lt r.blocked i g in
          any-take (λ b. bytes_eq b z) (length r.blocked - 1) _
            (any-set (λ b. bytes_eq b z) r.blocked i _ h
              (any-get_or (λ b. bytes_eq b z) r.blocked (length r.blocked - 1) zero_id h
                (omega (arith, here))))

      fewer_few : (i : ℕ) → length (rest i) ≤ max_blocked
      fewer_few i = omega (
        arith,
        s.few,
        length-set r.blocked i (get_or r.blocked (length r.blocked - 1) zero_id),
        length-take (length r.blocked - 1)
            (set r.blocked i (get_or r.blocked (length r.blocked - 1) zero_id)),
      )
