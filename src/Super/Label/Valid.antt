-- ===== src/Super/Label/Valid.antt =====
-- engine/main.c: what a finite label promises. Each waypoint names a primitive that fits its
-- state and the instructions, and after which the next labels go on.
use gforth.Prelude.{
  ℕ, zero, suc, ◌+◌, ◌-◌, ◌≤◌, ◌<◌, ◌≡◌, ◌≢◌, ◌⊎◌, refl, arith, Bool, true, false, not, ◌&&◌,
  Bool-cases, Option-cases, inl, inr, ◌==◌, List, [], ◌∷◌, Option, none, some, get_or, length, take,
  min, ℕ_discrete, replicate, ◌∙◌, ap,
}
use gforth.Super.{Config, cost_of, inf_cost, start_of, lookup_super, is_relocatable}
use gforth.Super.Label.{
  Waypoint, TpaState, Tables, unset, no_state, offer_transition, offer_transitions, accept, found,
  offer_rule, offer_rules, offer_lengths, rule_offer, without_transition, transitions,
  empty_waypoints, label_round,
}
use gforth.Super.Label.Offers.{at, AllAt, offer-AllAt, without_transition-at}

abbrev pub Finite : Waypoint → Type 0
Finite w = w.cost ≢ inf_cost

-- The waypoint in front of a transition either repeats that of the instruction or names a
-- transition to a state from which the instruction can go on.
abbrev pub TransFits : Config → List Waypoint → ℕ → Waypoint → Type 0
TransFits g inst k w =
    (w.cost ≡ inf_cost)
    ⊎ ((w.no_transition ≡ true) × Finite (at inst k))
    ⊎ ((w.no_transition ≡ false)
        × ((cost_of g w.inst).state_in ≡ k)
        × Finite (at inst (cost_of g w.inst).state_out))

-- One can go on from the state `k`, with or without a transition.
abbrev pub GoesOn : Config → TpaState → ℕ → Bool → Type 0
GoesOn g t k true = Finite (at t.inst k)
GoesOn g t k false =
    Finite (at t.trans k)
    × ((cost_of g (at t.trans k).inst).state_in ≡ k)
    × Finite (at t.inst (cost_of g (at t.trans k).inst).state_out)

-- The primitive `s` stands for the first of the instructions.
pub record IsRule (g : Config) (origs : List ℕ) (s : ℕ) : Type 0 where
  pub some_prims : 0 < (cost_of g s).length
  pub fits : (cost_of g s).length ≤ length origs
  pub parts : take (cost_of g s).length (start_of g s) ≡ take (cost_of g s).length origs

abbrev pub InstFits : Config → List ℕ → List TpaState → ℕ → Waypoint → Type 0
InstFits g origs later k w =
    (w.cost ≡ inf_cost)
    ⊎ (((cost_of g w.inst).state_in ≡ k)
        × IsRule g origs w.inst
        × GoesOn g (get_or later ((cost_of g w.inst).length - 1) no_state)
            (cost_of g w.inst).state_out w.no_transition)

offer_transition-TransFits :
    (g : Config) (inst trans : List Waypoint) (s : ℕ)
    → AllAt (TransFits g inst) trans
    → AllAt (TransFits g inst) (offer_transition g inst trans s)
unfolding offer_transition
offer_transition-TransFits g inst trans s all =
    let c = cost_of g s in
    let wo = at inst c.state_out in
    elim (Bool-cases (wo.cost == inf_cost)) [
      | inl e ↦ rw e all
      | inr e ↦ rw e (
          offer-AllAt (TransFits g inst) trans c.state_in _ all
            (inr (inr (refl, refl, λ q. ground arith))))
    ]

offer_transitions-TransFits :
    (g : Config) (inst trans : List Waypoint) (ss : List ℕ)
    → AllAt (TransFits g inst) trans
    → AllAt (TransFits g inst) (offer_transitions g inst trans ss)
unfolding offer_transitions
offer_transitions-TransFits g inst trans [] all = all
offer_transitions-TransFits g inst trans (s ∷ ss) all =
    offer_transitions-TransFits g inst (offer_transition g inst trans s) ss
      (offer_transition-TransFits g inst trans s all)

Finite-or : (w : Waypoint) → (w.cost ≡ inf_cost) ⊎ Finite w
Finite-or w = elim (ℕ_discrete w.cost inf_cost) [ yes e ↦ inl e | no ne ↦ inr ne ]

pub transitions-TransFits :
    (g : Config) (t : Tables) (inst : List Waypoint)
    → AllAt (TransFits g inst) (transitions g t inst).trans
unfolding transitions
transitions-TransFits g t inst =
    offer_transitions-TransFits g inst (without_transition inst) t.state_transitions (
      without_transition-at (TransFits g inst) inst
        (λ k. elim (Finite-or (at inst k)) [ inl e ↦ inl e | inr f ↦ inr (inl (refl, f)) ])
        (λ k. inl refl))

-- A label of one state lets the walk go on as its own mark says.
pub goes_on :
    (g : Config) (t : TpaState) (k : ℕ)
    → AllAt (TransFits g t.inst) t.trans
    → Finite (at t.trans k)
    → GoesOn g t k (at t.trans k).no_transition
goes_on g t k all f = elim (all k) [
  | inl e ↦ absurd (f e)
  | inr (inl (e, h)) ↦ rw e h
  | inr (inr (e, h, h')) ↦ rw e (f, h, h')
]

-- What the table holds for a key stands for the key.
abbrev pub KeyHolds : Config → List ℕ → ℕ → ℕ → Type 0
KeyHolds g origs j s = ((cost_of g s).length ≡ j) × (take j (start_of g s) ≡ take j origs)

abbrev pub All : (ℕ → Type 0) → List ℕ → Type 0
All P [] = Unit
All P (x ∷ xs) = P x × All P xs

pub record IsSound (g : Config) (t : Tables) : Type 0 where
  pub holds :
      (origs : List ℕ) (j : ℕ) (ss : List ℕ)
      → lookup_super t.table origs j ≡ some ss
      → All (KeyHolds g origs j) ss

-- The states behind an instruction are labelled with transitions that fit.
abbrev pub AllTrans : Config → List TpaState → Type 0
AllTrans g later =
    (i : ℕ) → AllAt (TransFits g (get_or later i no_state).inst) (get_or later i no_state).trans

pub replicate_cost : (n k : ℕ) → (at (replicate n unset) k).cost ≡ inf_cost
replicate_cost zero k = refl
replicate_cost (suc n) zero = refl
replicate_cost (suc n) (suc k) = replicate_cost n k

module _ (g : Config) (origs : List ℕ) (later : List TpaState) where
  abbrev OfferFits : ℕ → Option Waypoint → Type 0
  OfferFits k none = Unit
  OfferFits k (some w) = InstFits g origs later k w

  -- The offer of a rule of length `suc j`, which goes on at the state that many later.
  rule_offer-OfferFits :
      (j s : ℕ)
      → AllTrans g later
      → suc j ≤ length origs
      → KeyHolds g origs (suc j) s
      → OfferFits (cost_of g s).state_in (rule_offer g (get_or later j no_state) s)
  unfolding rule_offer
  rule_offer-OfferFits j s ok fits (len, parts) =
      let behind = get_or later j no_state in
      let k = (cost_of g s).state_out in
      let back : (cost_of g s).length - 1 ≡ j = omega arith in
      let rule : IsRule g origs s = record {
        some_prims = omega arith;
        fits = omega arith;
        parts = rw len parts;
      } in
      elim (Bool-cases (not (is_relocatable g s) && not (at behind.trans k).relocatable)) [
        | inl direct ↦ elim (Bool-cases ((at behind.inst k).cost == inf_cost)) [
          | inl e ↦ rw (direct, e) tt
          | inr e ↦ rw (direct, e) (inr (refl, rule, rw back (λ q. ground arith)))
        ]
        | inr other ↦ elim (Bool-cases ((at behind.trans k).cost == inf_cost)) [
          | inl e ↦ rw (other, e) tt
          | inr e ↦
              let next = goes_on g behind k (ok j) (λ q. ground arith) in
              rw (other, e) (inr (refl, rule, rw back next))
        ]
      ]

  accept-InstFits :
      (ws : List Waypoint) (k : ℕ) (o : Option Waypoint)
      → AllAt (InstFits g origs later) ws
      → OfferFits k o
      → AllAt (InstFits g origs later) (accept ws k o)
  unfolding accept
  accept-InstFits ws k none all fits = all
  accept-InstFits ws k (some w) all fits = offer-AllAt (InstFits g origs later) ws k w all fits

  offer_rule-InstFits :
      (j s : ℕ) (ws : List Waypoint)
      → AllTrans g later
      → suc j ≤ length origs
      → KeyHolds g origs (suc j) s
      → AllAt (InstFits g origs later) ws
      → AllAt (InstFits g origs later) (offer_rule g (get_or later j no_state) ws s)
  unfolding offer_rule
  offer_rule-InstFits j s ws ok fits key all =
      accept-InstFits ws (cost_of g s).state_in (rule_offer g (get_or later j no_state) s) all
        (rule_offer-OfferFits j s ok fits key)

  offer_rules-InstFits :
      (j : ℕ) (ss : List ℕ) (ws : List Waypoint)
      → AllTrans g later
      → suc j ≤ length origs
      → All (KeyHolds g origs (suc j)) ss
      → AllAt (InstFits g origs later) ws
      → AllAt (InstFits g origs later) (offer_rules g (get_or later j no_state) ws ss)
  unfolding offer_rules
  offer_rules-InstFits j [] ws ok fits keys all = all
  offer_rules-InstFits j (s ∷ ss) ws ok fits keys all =
      offer_rules-InstFits j ss (offer_rule g (get_or later j no_state) ws s) ok fits keys.1
        (offer_rule-InstFits j s ws ok fits keys.0 all)

  found-KeyHolds :
      (t : Tables) (j : ℕ)
      → IsSound g t
      → All (KeyHolds g origs j) (found (lookup_super t.table origs j))
  unfolding found
  found-KeyHolds t j sound = elim (Option-cases (lookup_super t.table origs j)) [
    | inl e ↦ rw e tt
    | inr (ss, e) ↦ rw e (sound.holds origs j ss e)
  ]

  offer_lengths-InstFits :
      (t : Tables) (left j : ℕ) (rest : List TpaState) (ws : List Waypoint)
      → IsSound g t
      → AllTrans g later
      → ((i : ℕ) → get_or rest i no_state ≡ get_or later (j + i) no_state)
      → left + j ≤ length origs
      → AllAt (InstFits g origs later) ws
      → AllAt (InstFits g origs later) (offer_lengths g t origs left (suc j) rest ws)
  unfolding offer_lengths
  offer_lengths-InstFits t zero j rest ws sound ok same fits all = all
  offer_lengths-InstFits t (suc left) j [] ws sound ok same fits all = all
  offer_lengths-InstFits t (suc left) j (behind ∷ rest) ws sound ok same fits all =
      let here : behind ≡ get_or later j no_state =
        same 0 ∙ ap (λ n. get_or later n no_state) (omega arith) in
      offer_lengths-InstFits t left (suc j) rest
        (offer_rules g behind ws (found (lookup_super t.table origs (suc j)))) sound ok
        (λ i. same (suc i) ∙ ap (λ n. get_or later n no_state) (omega arith)) (omega arith)
        (rw here (
          offer_rules-InstFits j (found (lookup_super t.table origs (suc j))) ws ok (omega arith)
            (found-KeyHolds t (suc j) sound) all))

  empty_waypoints-InstFits : AllAt (InstFits g origs later) (empty_waypoints g)
  unfolding empty_waypoints
  empty_waypoints-InstFits k = inl (replicate_cost g.maxstates k)

-- The label in front of the first instruction, before the labels of the rest.
pub record LabelFits (g : Config) (origs : List ℕ) (s : TpaState) (later : List TpaState)
    : Type 0 where
  pub inst : AllAt (InstFits g origs later) s.inst
  pub trans : AllAt (TransFits g s.inst) s.trans

pub label_round-LabelFits :
    (g : Config) (t : Tables) (origs : List ℕ) (later : List TpaState)
    → IsSound g t
    → AllTrans g later
    → LabelFits g origs (label_round g t origs later) later
unfolding label_round transitions
label_round-LabelFits g t origs later sound ok = record {
  inst =
      offer_lengths-InstFits g origs later t (min t.max_super (length origs)) 0 later
        (empty_waypoints g) sound ok (λ i. ap (λ n. get_or later n no_state) (omega arith))
        (omega arith) (empty_waypoints-InstFits g origs later);
  trans = transitions-TransFits g t _;
}
