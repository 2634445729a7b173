-- ===== src/Super/Label/Chain.antt =====
-- engine/main.c: the labels of a whole basic block.
use gforth.Prelude.{
  ℕ, zero, suc, ◌≡◌, refl, inl, arith, List, [], ◌∷◌, replicate, ℕ_discrete, get_or-set_ne, ◌∙◌, ap,
}
use gforth.Super.{Config, canonical_state}
use gforth.Super.Label.{
  TpaState, Tables, unset, transitions, empty_waypoints, make_termstate, label,
}
use gforth.Super.Label.Offers.{at, AllAt}
use gforth.Super.Label.Valid.{
  Finite, TransFits, AllTrans, LabelFits, IsSound, transitions-TransFits, label_round-LabelFits,
  replicate_cost,
}

-- Behind the last instruction only the canonical state goes on.
pub record TermFits (g : Config) (s : TpaState) : Type 0 where
  pub canonical : (k : ℕ) → Finite (at s.inst k) → k ≡ canonical_state
  pub trans : AllAt (TransFits g s.inst) s.trans

abbrev pub AllFit : Config → List ℕ → List TpaState → Type 0
AllFit g origs [] = ⊥
AllFit g [] (s ∷ []) = TermFits g s
AllFit g [] (s ∷ x ∷ later) = ⊥
AllFit g (p ∷ origs) (s ∷ later) = LabelFits g (p ∷ origs) s later × AllFit g origs later

make_termstate-TermFits : (g : Config) (t : Tables) → TermFits g (make_termstate g t)
unfolding make_termstate transitions empty_waypoints
make_termstate-TermFits g t = record {
  canonical = λ k f. elim (ℕ_discrete 0 k) [
    | yes e ↦ omega (arith, e)
    | no ne ↦ absurd (
        f (
          ap (λ w. w.cost) (get_or-set_ne (replicate g.maxstates unset) 0 k _ unset ne)
          ∙ replicate_cost g.maxstates k))
  ];
  trans = transitions-TransFits g t _;
}

pub AllFit-AllTrans :
    (g : Config) (origs : List ℕ) (ts : List TpaState) → AllFit g origs ts → AllTrans g ts
AllFit-AllTrans g [] [] fit i = elim fit [ ]
AllFit-AllTrans g [] (s ∷ (_ ∷ _)) fit i = elim fit [ ]
AllFit-AllTrans g (p ∷ origs) [] fit i = elim fit [ ]
AllFit-AllTrans g [] (s ∷ []) fit zero = fit.trans
AllFit-AllTrans g [] (s ∷ []) fit (suc i) = λ k. inl refl
AllFit-AllTrans g (p ∷ origs) (s ∷ later) fit zero = fit.0.trans
AllFit-AllTrans g (p ∷ origs) (s ∷ later) fit (suc i) = AllFit-AllTrans g origs later fit.1 i

pub label-AllFit :
    (g : Config) (t : Tables) (origs : List ℕ) → IsSound g t → AllFit g origs (label g t origs)
unfolding label
label-AllFit g t [] sound = make_termstate-TermFits g t
label-AllFit g t (p ∷ origs) sound =
    let rest = label-AllFit g t origs sound in
    (
      label_round-LabelFits g t (p ∷ origs) (label g t origs) sound
          (AllFit-AllTrans g origs (label g t origs) rest),
      rest,
    )
