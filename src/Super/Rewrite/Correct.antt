-- ===== src/Super/Rewrite/Correct.antt =====
-- engine/main.c: what `optimize_rewrite` compiles stands for the instructions that it was given,
-- and its stack-caching states fit.
use gforth.Prelude.{
  ℕ, zero, suc, ◌-◌, ◌≤◌, ◌≡◌, refl, ◌∙◌, sym, ap, inl, inr, arith, Bool, true, false, not, ◌||◌,
  ◌==◌, Bool-cases, if◌then◌else◌, List, [], ◌∷◌, ◌++◌, Option, none, some, get_or, take, drop,
  length, take-drop, ◌<◌, ◌*◌, append-nil,
}
use gforth.Super.{Config, cost_of, start_of, inf_cost, canonical_state}
use gforth.Super.Label.{TpaState, Tables, no_state, label}
use gforth.Super.Label.Offers.{at, AllAt}
use gforth.Super.Label.Valid.{Finite, goes_on, TransFits, GoesOn, IsSound}
use gforth.Super.Label.Cheap.{AllCheap, label-CostsAtMost}
use gforth.Super.Table.{Prepared, prepare_super_table}
use gforth.Super.Table.Sound.{prepare_super_table-IsSound, prepare_super_table-max_super}
use gforth.Super.Label.Chain.{AllFit, AllFit-AllTrans, label-AllFit}
use gforth.Super.Rewrite.{
  Event, transition, instruction, inside, take_transition, walk, optimize_rewrite,
}
use native.Mathlib.Numerals.{unary_clauses}

-- The instructions that the compiled primitives stand for.
unfoldable pub expand : Config → List Event → List ℕ
expand g [] = []
expand g (transition s ∷ es) = expand g es
expand g (instruction s ∷ es) = take (cost_of g s).length (start_of g s) ++ expand g es
expand g (inside ∷ es) = expand g es

-- The stack-caching state after the compiled primitives, if each finds the state that it expects.
unfoldable pub caching : Config → ℕ → List Event → Option ℕ
caching g k [] = some k
caching g k (transition s ∷ es) =
    let next = caching g (cost_of g s).state_out es in
    if (cost_of g s).state_in == k then next else none
caching g k (instruction s ∷ es) =
    let next = caching g (cost_of g s).state_out es in
    if (cost_of g s).state_in == k then next else none
caching g k (inside ∷ es) = caching g k es

record Moved (g : Config) (t : TpaState) (k : ℕ) (r : Option (ℕ × List Event)) : Type 0 where
  state : ℕ
  events : List Event
  result : r ≡ some (state, events)
  finite : Finite (at t.inst state)
  covers : (rest : List Event) → expand g (events ++ rest) ≡ expand g rest
  cached : (rest : List Event) → caching g k (events ++ rest) ≡ caching g state rest

take_transition-Moved :
    (g : Config) (t : TpaState) (k : ℕ) (b : Bool)
    → GoesOn g t k b
    → Moved g t k (take_transition g t k b)
unfolding take_transition expand caching
take_transition-Moved g t k true f = record {
  state = k;
  events = [];
  result = refl;
  finite = f;
  covers = λ rest. refl;
  cached = λ rest. refl;
}
take_transition-Moved g t k false (f, into, next) =
    let w = at t.trans k in
    let c = cost_of g w.inst in
    let cheap : w.cost == inf_cost ≡ false = ground arith in
    let enters : c.state_in == k ≡ true = ground arith in
    record {
      state = c.state_out;
      events = transition w.inst ∷ [];
      result = rw (cheap, enters) refl;
      finite = next;
      covers = λ rest. refl;
      cached = λ rest. rw enters refl;
    }

pub record Walked (g : Config) (origs : List ℕ) (k : ℕ) (r : Option (List Event)) : Type 0 where
  pub events : List Event
  pub result : r ≡ some events
  pub covers : expand g events ≡ origs
  pub cached : caching g k events ≡ some canonical_state

covers_rule :
    (n p : ℕ) (origs : List ℕ) → 0 < n → take n (p ∷ origs) ++ drop (n - 1) origs ≡ p ∷ origs
covers_rule zero p origs h = absurd (omega arith)
covers_rule (suc n) p origs h = simp unary_clauses (ap (◌∷◌ p) (take-drop n origs))

walk-Walked :
    (g : Config) (origs : List ℕ) (ts : List TpaState) (skip k : ℕ) (b : Bool)
    → AllFit g origs ts
    → skip ≤ length origs
    → GoesOn g (get_or ts skip no_state) k b
    → Walked g (drop skip origs) k (walk g origs ts skip k b)
unfolding walk expand caching
walk-Walked g [] [] skip k b fit in_range on = elim fit [ ]
walk-Walked g [] (s ∷ (_ ∷ _)) skip k b fit in_range on = elim fit [ ]
walk-Walked g [] (s ∷ []) (suc skip) k b fit in_range on = absurd (omega arith)
walk-Walked g [] (s ∷ []) zero k b fit in_range on =
    let m = take_transition-Moved g s k b on in
    let last = fit.canonical m.state m.finite in
    let ended : m.state == canonical_state ≡ true = ground arith in
    let none_left : b || true ≡ true = ground arith in
    record {
      events = m.events;
      result = rw (none_left, m.result, ended) refl;
      covers = ap (expand g) (sym (append-nil m.events)) ∙ m.covers [];
      cached = ap (caching g k) (sym (append-nil m.events)) ∙ m.cached [] ∙ ap some last;
    }
walk-Walked g (p ∷ origs) [] skip k b fit in_range on = elim fit [ ]
walk-Walked g (p ∷ origs) (s ∷ ts) (suc skip) k b fit in_range on =
    let rest = walk-Walked g origs ts skip k b fit.1 (omega arith) on in
    record {
      events = inside ∷ rest.events;
      result = rw rest.result refl;
      covers = rest.covers;
      cached = rest.cached;
    }
walk-Walked g (p ∷ origs) (s ∷ ts) zero k b fit in_range on =
    let m = take_transition-Moved g s k b on in
    elim (fit.0.inst m.state) [
      | inl e ↦ absurd (m.finite e)
      | inr (enters, rule, next) ↦
          let w = at s.inst m.state in
          let c = cost_of g w.inst in
          let below : c.length - 1 ≤ length origs = omega (arith, rule.fits) in
          let here : c.state_in == m.state ≡ true = ground (arith, enters) in
          let cheap : w.cost == inf_cost ≡ false = ground (arith, m.finite) in
          let rest =
            walk-Walked g origs ts (c.length - 1) c.state_out w.no_transition fit.1 below next in
          record {
            events = m.events ++ (instruction w.inst ∷ rest.events);
            result = rw (m.result, here, cheap, rest.result) refl;
            covers =
                m.covers (instruction w.inst ∷ rest.events)
                ∙ rw (rest.covers, rule.parts) (covers_rule c.length p origs rule.some_prims);
            cached = m.cached (instruction w.inst ∷ rest.events) ∙ rw here rest.cached;
          }
    ]

start_GoesOn :
    (g : Config) (s : TpaState)
    → AllAt (TransFits g s.inst) s.trans
    → Finite (at s.trans canonical_state)
    → Finite (at s.inst canonical_state)
    → let w = at s.trans canonical_state in
      GoesOn g s canonical_state (not w.relocatable || w.no_transition)
start_GoesOn g s fits trans inst = elim (Bool-cases (at s.trans canonical_state).relocatable) [
  | inl e ↦ rw e (goes_on g s canonical_state fits trans)
  | inr e ↦ rw e inst
]

optimize_rewrite-Walked :
    (g : Config) (t : Tables) (p : ℕ) (origs : List ℕ)
    → IsSound g t
    → Finite (at (get_or (label g t (p ∷ origs)) 0 no_state).inst canonical_state)
    → Finite (at (get_or (label g t (p ∷ origs)) 0 no_state).trans canonical_state)
    → Walked g (p ∷ origs) canonical_state (optimize_rewrite g t (p ∷ origs))
unfolding optimize_rewrite
optimize_rewrite-Walked g t p origs sound inst trans =
    let fit = label-AllFit g t (p ∷ origs) sound in
    let ts = label g t (p ∷ origs) in
    walk-Walked g (p ∷ origs) ts 0 canonical_state _ fit (omega arith)
      (start_GoesOn g (get_or ts 0 no_state) (AllFit-AllTrans g (p ∷ origs) ts fit 0) trans inst)

rewrites_any :
    (g : Config) (t : Tables) (b : ℕ) (origs : List ℕ)
    → IsSound g t
    → 0 < g.maxstates
    → 0 < t.max_super
    → AllCheap g t b origs
    → length origs * b < inf_cost
    → Walked g origs canonical_state (optimize_rewrite g t origs)
unfolding optimize_rewrite expand caching
rewrites_any g t b [] sound some_states supers all cheap = record {
  events = [];
  result = refl;
  covers = refl;
  cached = refl;
}
rewrites_any g t b (p ∷ origs) sound some_states supers all cheap =
    let low = label-CostsAtMost g t b (p ∷ origs) some_states supers all cheap in
    optimize_rewrite-Walked g t p origs sound (λ e. omega (arith, e, low.inst, cheap))
      (λ e. omega (arith, e, low.trans, cheap))

-- `optimize_rewrite` on any basic block, with the tables of `prepare_super_table`: when they have,
-- for each instruction, a canonical variant of cost at most `b`, and `b` times the length of the
-- block is below `INF_COST`, its assertions on the labels' costs (`!= INF_COST`), on the stack-caching
-- states and on `i==nextdyn` hold; the compiled primitives stand for exactly the instructions of the
-- block in their order; each primitive finds the stack-caching state that it expects, from the
-- canonical state at the start of the block to the canonical state at its end. Nothing is stated of
-- the assertions on `inst_index` and on the code area, nor of those in `compile_prim_dyn`.
pub optimize_rewrite_lem :
    (g : Config) (st : Prepared) (b : ℕ) (origs : List ℕ)
    → prepare_super_table g ≡ some st
    → 0 < g.maxstates
    → AllCheap g st.tables b origs
    → length origs * b < inf_cost
    → Walked g origs canonical_state (optimize_rewrite g st.tables origs)
optimize_rewrite_lem g st b origs prepared some_states all cheap =
    rewrites_any g st.tables b origs (prepare_super_table-IsSound g st prepared) some_states
      (omega (arith, prepare_super_table-max_super g st prepared)) all cheap
