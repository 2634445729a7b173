-- ===== src/Super/Label/Offers.antt =====
-- engine/main.c: what a sequence of offers leaves in the waypoints of a state.
use gforth.Prelude.{
  ℕ, zero, suc, ◌+◌, ◌≤◌, ◌<◌, ◌≡◌, refl, arith, true, false, Bool-cases, inl, inr, leb, ◌==◌, List,
  [], ◌∷◌, get_or, set, get_or-set_self, get_or-set_ne, length, length-set, dec_lt, ℕ_discrete,
}
use native.Mathlib.Nat.{le_refl, le_trans}
use gforth.Super.{Config, cost_of, call_cost, inf_cost}
use gforth.Super.Label.{
  Waypoint, unset, offer, offer_transition, offer_transitions, without_transition,
}

abbrev pub at : List Waypoint → ℕ → Waypoint
at ws k = get_or ws k unset

-- `P` holds of the waypoint of each state.
abbrev pub AllAt : (ℕ → Waypoint → Type 0) → List Waypoint → Type 0
AllAt P ws = (k : ℕ) → P k (at ws k)

set_out_of_range : {A : Type 0} (ws : List A) (k : ℕ) (w : A) → length ws ≤ k → set ws k w ≡ ws
set_out_of_range [] k w h = refl
set_out_of_range (x ∷ ws) zero w h = absurd (omega arith)
set_out_of_range (x ∷ ws) (suc k) w h = rw (set_out_of_range ws k w (omega arith))

pub set-AllAt :
    (P : ℕ → Waypoint → Type 0) (ws : List Waypoint) (k : ℕ) (w : Waypoint)
    → AllAt P ws
    → P k w
    → AllAt P (set ws k w)
set-AllAt P ws k w all h i = elim (ℕ_discrete k i) [
  | yes e ↦ elim (dec_lt k (length ws)) [
    | yes inside ↦ rw (← e, get_or-set_self ws k w unset inside) h
    | no outside ↦ rw (set_out_of_range ws k w (omega arith)) (all i)
  ]
  | no ne ↦ rw (get_or-set_ne ws k i w unset ne) (all i)
]

pub offer-AllAt :
    (P : ℕ → Waypoint → Type 0) (ws : List Waypoint) (k : ℕ) (w : Waypoint)
    → AllAt P ws
    → P k w
    → AllAt P (offer ws k w)
unfolding offer
offer-AllAt P ws k w all h = elim (Bool-cases (leb w.cost (at ws k).cost)) [
  | inl better ↦ rw better (set-AllAt P ws k w all h)
  | inr worse ↦ rw worse all
]

-- Offers never raise a cost.
abbrev pub Below : List Waypoint → List Waypoint → Type 0
Below new old = (k : ℕ) → (at new k).cost ≤ (at old k).cost

pub offer-Below : (ws : List Waypoint) (k : ℕ) (w : Waypoint) → Below (offer ws k w) ws
unfolding offer
offer-Below ws k w i = elim (Bool-cases (leb w.cost (at ws k).cost)) [
  | inl better ↦
      rw better
        (set-AllAt (λ j x. x.cost ≤ (at ws j).cost) ws k w (λ j. le_refl _) (ground arith) i)
  | inr worse ↦ rw worse (le_refl _)
]

pub offer_cost :
    (ws : List Waypoint) (k : ℕ) (w : Waypoint)
    → k < length ws
    → (at (offer ws k w) k).cost ≤ w.cost
unfolding offer
offer_cost ws k w h = elim (Bool-cases (leb w.cost (at ws k).cost)) [
  | inl better ↦ rw (better, get_or-set_self ws k w unset h) (le_refl _)
  | inr worse ↦ rw worse (ground arith)
]

pub length-offer : (ws : List Waypoint) (k : ℕ) (w : Waypoint) → length (offer ws k w) ≡ length ws
unfolding offer
length-offer ws k w = elim (Bool-cases (leb w.cost (at ws k).cost)) [
  | inl better ↦ rw (better, length-set ws k w)
  | inr worse ↦ rw worse
]

-- The copy in front of a transition.
pub without_transition-at :
    (P : ℕ → Waypoint → Type 0) (ws : List Waypoint)
    → ((k : ℕ) → P k (record (at ws k) { no_transition = true }))
    → ((k : ℕ) → P k unset)
    → AllAt P (without_transition ws)
unfolding without_transition
without_transition-at P [] all none_set k = none_set k
without_transition-at P (w ∷ ws) all none_set zero = all 0
without_transition-at P (w ∷ ws) all none_set (suc k) =
    without_transition-at (λ j. P (suc j)) ws (λ j. all (suc j)) (λ j. none_set (suc j)) k

pub without_transition-Below : (ws : List Waypoint) → Below (without_transition ws) ws
unfolding without_transition
without_transition-Below [] k = le_refl _
without_transition-Below (w ∷ ws) zero = le_refl _
without_transition-Below (w ∷ ws) (suc k) = without_transition-Below ws k

pub offer_transition-Below :
    (g : Config) (inst trans : List Waypoint) (s : ℕ)
    → Below (offer_transition g inst trans s) trans
unfolding offer_transition
offer_transition-Below g inst trans s k =
    let c = cost_of g s in
    let wo = at inst c.state_out in
    elim (Bool-cases (wo.cost == inf_cost)) [
      | inl e ↦ rw e (le_refl _)
      | inr e ↦ rw e (
          offer-Below trans c.state_in
            (record {
              cost = wo.cost + call_cost g.ss_cost g s;
              inst = s;
              relocatable = wo.relocatable;
              no_transition = false;
            })
            k)
    ]

pub offer_transitions-Below :
    (g : Config) (inst trans : List Waypoint) (ss : List ℕ)
    → Below (offer_transitions g inst trans ss) trans
unfolding offer_transitions
offer_transitions-Below g inst trans [] k = le_refl _
offer_transitions-Below g inst trans (s ∷ ss) k =
    le_trans (offer_transitions-Below g inst (offer_transition g inst trans s) ss k)
      (offer_transition-Below g inst trans s k)
