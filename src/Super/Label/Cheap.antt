-- ===== src/Super/Label/Cheap.antt =====
-- engine/main.c: a bound on the cost of the labels. It shows that the canonical state of a basic
-- block has a finite label.
use gforth.Prelude.{
  ℕ, zero, suc, ◌+◌, ◌*◌, ◌≤◌, ◌<◌, ◌≡◌, ◌⊎◌, refl, arith, Bool-cases, false, not, ◌&&◌, inl, inr,
  ◌==◌, min, List, [], ◌∷◌, Option, none, some, get_or, replicate, length, length-replicate,
  get_or-set_self, subst,
}
use native.Mathlib.Nat.{le_refl, le_trans}
use gforth.Super.{
  Config, cost_of, call_cost, inf_cost, canonical_state, lookup_super, is_relocatable,
}
use gforth.Super.Label.{
  Waypoint, TpaState, Tables, unset, no_state, accept, found, offer_rule, offer_rules,
  offer_lengths, rule_offer, without_transition, transitions, empty_waypoints, make_termstate,
  label_round, label,
}
use gforth.Super.Label.Offers.{
  at, Below, offer-Below, offer_cost, length-offer, without_transition-Below,
  offer_transitions-Below,
}

abbrev pub Any : (ℕ → Type 0) → List ℕ → Type 0
Any P [] = ⊥
Any P (x ∷ xs) = P x ⊎ Any P xs

-- A variant from the canonical state to itself, which costs no more than `b`.
abbrev pub CheapRule : Config → ℕ → ℕ → Type 0
CheapRule g b s =
    ((cost_of g s).state_in ≡ canonical_state)
    × ((cost_of g s).state_out ≡ canonical_state)
    × (call_cost g.ss_cost g s ≤ b)

-- The table has such a variant for each of the instructions.
abbrev pub AllCheap : Config → Tables → ℕ → List ℕ → Type 0
AllCheap g t b [] = Unit
AllCheap g t b (p ∷ origs) =
    Any (CheapRule g b) (found (lookup_super t.table (p ∷ origs) 1)) × AllCheap g t b origs

pub transitions_cost :
    (g : Config) (t : Tables) (inst : List Waypoint) (k : ℕ)
    → (at (transitions g t inst).trans k).cost ≤ (at inst k).cost
unfolding transitions
transitions_cost g t inst k =
    le_trans (offer_transitions-Below g inst (without_transition inst) t.state_transitions k)
      (without_transition-Below inst k)

accept-Below : (ws : List Waypoint) (k : ℕ) (o : Option Waypoint) → Below (accept ws k o) ws
unfolding accept
accept-Below ws k none i = le_refl _
accept-Below ws k (some w) i = offer-Below ws k w i

length-accept :
    (ws : List Waypoint) (k : ℕ) (o : Option Waypoint) → length (accept ws k o) ≡ length ws
unfolding accept
length-accept ws k none = refl
length-accept ws k (some w) = length-offer ws k w

module _ (g : Config) (behind : TpaState) where
  offer_rules-Below : (ws : List Waypoint) (ss : List ℕ) → Below (offer_rules g behind ws ss) ws
  unfolding offer_rules offer_rule
  offer_rules-Below ws [] k = le_refl _
  offer_rules-Below ws (s ∷ ss) k =
      le_trans (offer_rules-Below (offer_rule g behind ws s) ss k)
        (accept-Below ws (cost_of g s).state_in (rule_offer g behind s) k)

  length-offer_rule : (ws : List Waypoint) (s : ℕ) → length (offer_rule g behind ws s) ≡ length ws
  unfolding offer_rule
  length-offer_rule ws s = length-accept ws (cost_of g s).state_in (rule_offer g behind s)

  -- The canonical variant `s` is offered at the cost behind it and its own.
  offer_rule_cost :
      (ws : List Waypoint) (s c : ℕ)
      → (cost_of g s).state_in ≡ canonical_state
      → (cost_of g s).state_out ≡ canonical_state
      → (at behind.inst canonical_state).cost ≤ c
      → (at behind.trans canonical_state).cost ≤ c
      → c < inf_cost
      → 0 < length ws
      → (at (offer_rule g behind ws s) canonical_state).cost ≤ c + call_cost g.ss_cost g s
  unfolding offer_rule rule_offer accept
  offer_rule_cost ws s c into out inst trans cheap room =
      elim (Bool-cases
        (not (is_relocatable g s) && not (at behind.trans canonical_state).relocatable)) [
          | inl direct ↦
              let finite : (at behind.inst canonical_state).cost == inf_cost ≡ false =
                ground arith in
              rw (into, out, direct, finite)
                (le_trans (offer_cost ws canonical_state _ room) (omega (arith, inst)))
          | inr other ↦
              let finite : (at behind.trans canonical_state).cost == inf_cost ≡ false =
                ground arith in
              rw (into, out, other, finite)
                (le_trans (offer_cost ws canonical_state _ room) (omega (arith, trans)))
        ]

  offer_rules_cost :
      (ws : List Waypoint) (ss : List ℕ) (b c : ℕ)
      → Any (CheapRule g b) ss
      → (at behind.inst canonical_state).cost ≤ c
      → (at behind.trans canonical_state).cost ≤ c
      → c < inf_cost
      → 0 < length ws
      → (at (offer_rules g behind ws ss) canonical_state).cost ≤ c + b
  unfolding offer_rules
  offer_rules_cost ws [] b c any inst trans cheap room = elim any [ ]
  offer_rules_cost ws (s ∷ ss) b c (inl (into, out, low)) inst trans cheap room =
      le_trans (offer_rules-Below (offer_rule g behind ws s) ss canonical_state)
        (le_trans (offer_rule_cost ws s c into out inst trans cheap room) (omega (arith, low)))
  offer_rules_cost ws (s ∷ ss) b c (inr any) inst trans cheap room =
      offer_rules_cost (offer_rule g behind ws s) ss b c any inst trans cheap
        (omega (arith, length-offer_rule ws s, room))

offer_lengths-Below :
    (g : Config) (t : Tables) (origs : List ℕ) (left j : ℕ) (later : List TpaState)
    (ws : List Waypoint)
    → Below (offer_lengths g t origs left j later ws) ws
unfolding offer_lengths
offer_lengths-Below g t origs zero j later ws k = le_refl _
offer_lengths-Below g t origs (suc left) j [] ws k = le_refl _
offer_lengths-Below g t origs (suc left) j (behind ∷ later) ws k =
    let ss = found (lookup_super t.table origs j) in
    le_trans (offer_lengths-Below g t origs left (suc j) later (offer_rules g behind ws ss) k)
      (offer_rules-Below g behind ws ss k)

offer_lengths_cost :
    (g : Config) (t : Tables) (origs : List ℕ) (left : ℕ) (behind : TpaState)
    (later : List TpaState) (ws : List Waypoint) (b c : ℕ)
    → 0 < left
    → Any (CheapRule g b) (found (lookup_super t.table origs 1))
    → (at behind.inst canonical_state).cost ≤ c
    → (at behind.trans canonical_state).cost ≤ c
    → c < inf_cost
    → 0 < length ws
    → (at (offer_lengths g t origs left 1 (behind ∷ later) ws) canonical_state).cost ≤ c + b
unfolding offer_lengths
offer_lengths_cost g t origs zero behind later ws b c some_left any inst trans cheap room =
    absurd (omega arith)
offer_lengths_cost g t origs (suc left) behind later ws b c some_left any inst trans cheap room =
    let ss = found (lookup_super t.table origs 1) in
    le_trans
      (offer_lengths-Below g t origs left 2 later (offer_rules g behind ws ss) canonical_state)
      (offer_rules_cost g behind ws ss b c any inst trans cheap room)

-- What the canonical waypoints of a state cost at most.
pub record CostsAtMost (c : ℕ) (s : TpaState) : Type 0 where
  pub inst : (at s.inst canonical_state).cost ≤ c
  pub trans : (at s.trans canonical_state).cost ≤ c

transitions-CostsAtMost :
    (g : Config) (t : Tables) (inst : List Waypoint) (c : ℕ)
    → (at inst canonical_state).cost ≤ c
    → CostsAtMost c (transitions g t inst)
unfolding transitions
transitions-CostsAtMost g t inst c h = record {
  inst = h;
  trans = le_trans (transitions_cost g t inst canonical_state) h;
}

make_termstate-CostsAtMost :
    (g : Config) (t : Tables) → 0 < g.maxstates → CostsAtMost 0 (make_termstate g t)
unfolding make_termstate empty_waypoints
make_termstate-CostsAtMost g t some_states = transitions-CostsAtMost g t _ 0 (
    rw
      (get_or-set_self (replicate g.maxstates unset) 0 _ unset
        (omega (arith, length-replicate g.maxstates unset, some_states)))
      (le_refl 0))

label_round-CostsAtMost :
    (g : Config) (t : Tables) (p : ℕ) (origs : List ℕ) (later : List TpaState) (b c : ℕ)
    → 0 < g.maxstates
    → 0 < t.max_super
    → Any (CheapRule g b) (found (lookup_super t.table (p ∷ origs) 1))
    → CostsAtMost c (get_or later 0 no_state)
    → c < inf_cost
    → CostsAtMost (c + b) (label_round g t (p ∷ origs) later)
unfolding label_round empty_waypoints
label_round-CostsAtMost g t p origs [] b c some_states supers any low cheap =
    absurd (omega (arith, low.inst))
label_round-CostsAtMost g t p origs (behind ∷ later) b c some_states supers any low cheap =
    transitions-CostsAtMost g t _ (c + b) (
      offer_lengths_cost g t (p ∷ origs) (min t.max_super (length (p ∷ origs))) behind later
        (replicate g.maxstates unset) b c (omega (arith, supers)) any low.inst low.trans cheap
        (omega (arith, length-replicate g.maxstates unset, some_states)))

-- With a variant of cost `b` at most for each instruction, the labels of the canonical state
-- cost `b` for each instruction at most.
pub label-CostsAtMost :
    (g : Config) (t : Tables) (b : ℕ) (origs : List ℕ)
    → 0 < g.maxstates
    → 0 < t.max_super
    → AllCheap g t b origs
    → length origs * b < inf_cost
    → CostsAtMost (length origs * b) (get_or (label g t origs) 0 no_state)
unfolding label
label-CostsAtMost g t b [] some_states supers all cheap =
    subst (λ c. CostsAtMost c (make_termstate g t)) (omega arith)
      (make_termstate-CostsAtMost g t some_states)
label-CostsAtMost g t b (p ∷ origs) some_states supers (any, all) cheap =
    let below : length origs * b < inf_cost = omega (arith, cheap) in
    subst (λ c. CostsAtMost c (label_round g t (p ∷ origs) (label g t origs))) (omega arith)
      (label_round-CostsAtMost g t p origs (label g t origs) b (length origs * b) some_states supers
        any (label-CostsAtMost g t b origs some_states supers all below) below)
