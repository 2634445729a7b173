-- ===== src/Compile/Rewrites.antt =====
-- engine/main.c: `compile_prim1` together with `optimize_rewrite`: every basic block is rewritten.
use gforth.Prelude.{
  ℕ, ◌*◌, ◌≤◌, ◌<◌, ◌≡◌, arith, List, [], ◌∷◌, ◌++◌, ◌⊎◌, inl, inr, refl, sym, subst, map, length,
  length-map, some,
}
use gforth.Super.{
  Config, inf_cost, canonical_state, lookup_super, lookup_chain, same_prims, hash_super,
  hash_rounds, Entry, SuperTable,
}
use gforth.Super.Label.{Tables, found}
use gforth.Super.Label.Cheap.{Any, CheapRule, AllCheap}
use gforth.Super.Table.{Prepared, prepare_super_table}
use gforth.Super.Rewrite.{optimize_rewrite}
use gforth.Super.Rewrite.Correct.{Walked, optimize_rewrite_lem}
use gforth.Compile.{
  max_bb, Engine, Inst, Output, rewrite, align, jump, code_word, Start, compile_all,
}
use gforth.Compile.Blocks.{AllBlocks, rewritten, prims_of, compile_all-Collected}

abbrev pub origs_of : List Inst → List ℕ
origs_of insts = map (λ (x : Inst). x.orig) insts

-- Each call of `optimize_rewrite` compiles exactly its block.
abbrev pub AllWalked : Config → Tables → List Output → Type 0
AllWalked g t [] = Unit
AllWalked g t (rewrite insts ∷ outputs) =
    Walked g (origs_of insts) canonical_state (optimize_rewrite g t (origs_of insts))
    × AllWalked g t outputs
AllWalked g t (align ∷ outputs) = AllWalked g t outputs
AllWalked g t (jump ∷ outputs) = AllWalked g t outputs
AllWalked g t (code_word i x ∷ outputs) = AllWalked g t outputs

-- Each instruction has a canonical variant that costs no more than `b`.
abbrev pub EachCheap : Config → Tables → ℕ → List Inst → Type 0
EachCheap g t b [] = Unit
EachCheap g t b (x ∷ insts) =
    Any (CheapRule g b) (found (lookup_super t.table (x.orig ∷ []) 1)) × EachCheap g t b insts

EachCheap-append :
    (g : Config) (t : Tables) (b : ℕ) (xs ys : List Inst)
    → EachCheap g t b (xs ++ ys)
    → EachCheap g t b xs × EachCheap g t b ys
EachCheap-append g t b [] ys each = (tt, each)
EachCheap-append g t b (x ∷ xs) ys (h, each) =
    let (hx, hy) = EachCheap-append g t b xs ys each in ((h, hx), hy)

start_cases : (start : List ℕ) → (start ≡ []) ⊎ ((x : ℕ) × (xs : List ℕ) × (start ≡ x ∷ xs))
start_cases [] = inl refl
start_cases (x ∷ xs) = inr (x, xs, refl)

-- A lookup of one primitive does not read what is behind it.
lookup_chain_one :
    (es : List Entry) (p : ℕ) (rest : List ℕ)
    → lookup_chain es (p ∷ []) 1 ≡ lookup_chain es (p ∷ rest) 1
unfolding lookup_chain same_prims
lookup_chain_one [] p rest = refl
lookup_chain_one (e ∷ es) p rest =
    let later = lookup_chain_one es p rest in
    elim (start_cases e.start) [
      | inl none_left ↦ rw (none_left, later) refl
      | inr (x, xs, start) ↦ rw (start, later) refl
    ]

lookup_super_one :
    (t : SuperTable) (p : ℕ) (rest : List ℕ)
    → lookup_super t (p ∷ []) 1 ≡ lookup_super t (p ∷ rest) 1
unfolding lookup_super hash_super hash_rounds
lookup_super_one t p rest = lookup_chain_one _ p rest

EachCheap-AllCheap :
    (g : Config) (t : Tables) (b : ℕ) (insts : List Inst)
    → EachCheap g t b insts
    → AllCheap g t b (origs_of insts)
EachCheap-AllCheap g t b [] each = tt
EachCheap-AllCheap g t b (x ∷ insts) (h, each) = (
  subst (λ o. Any (CheapRule g b) (found o)) (lookup_super_one t.table x.orig (origs_of insts)) h,
  EachCheap-AllCheap g t b insts each,
)

module _ (g : Config) (st : Prepared) (b : ℕ) (prepared : prepare_super_table g ≡ some st)
    (some_states : 0 < g.maxstates) (bounded : max_bb * b < inf_cost) (e : Engine) where
  block_bound : (n : ℕ) → n ≤ max_bb → n * b < inf_cost
  block_bound n h = grind arith

  AllBlocks-AllWalked :
      (outputs : List Output)
      → AllBlocks e outputs
      → EachCheap g st.tables b (rewritten outputs)
      → AllWalked g st.tables outputs
  unfolding rewritten
  AllBlocks-AllWalked [] blocks each = tt
  AllBlocks-AllWalked (rewrite insts ∷ outputs) (block, blocks) each =
      let (here, later) = EachCheap-append g st.tables b insts (rewritten outputs) each in
      (
        optimize_rewrite_lem g st b (origs_of insts) prepared some_states
            (EachCheap-AllCheap g st.tables b insts here)
            (block_bound (length (origs_of insts))
              (omega (arith, block.short, length-map insts (λ (x : Inst). x.orig)))),
        AllBlocks-AllWalked outputs blocks later,
      )
  AllBlocks-AllWalked (align ∷ outputs) blocks each = AllBlocks-AllWalked outputs blocks each
  AllBlocks-AllWalked (jump ∷ outputs) blocks each = AllBlocks-AllWalked outputs blocks each
  AllBlocks-AllWalked (code_word i x ∷ outputs) blocks each =
      AllBlocks-AllWalked outputs blocks each

  -- `compile_prim1` and `optimize_rewrite` together, in any sequence of calls of `compile_prim1` from
  -- an empty block on, where each primitive among the cells has a canonical variant of cost `b` at most
  -- and MAX_BB times `b` is below INF_COST: in every call of `optimize_rewrite` the assertions on the
  -- labels' costs, on the stack-caching states and on `i==nextdyn` hold, and what it compiles stands
  -- for exactly its block and goes from the canonical state to the canonical state. Nothing is stated
  -- of the assertions on `inst_index` and on the code area, nor of those in `compile_prim_dyn`.
  pub compile_all-AllWalked :
      (starts : List Start)
      → EachCheap g st.tables b (prims_of e starts)
      → AllWalked g st.tables (compile_all e [] starts).outputs
  compile_all-AllWalked starts each =
      let c = compile_all-Collected e [] starts (record { short = omega arith; ends = tt }) in
      let done = compile_all e [] starts in
      let all = subst (EachCheap g st.tables b) (sym c.kept) each in
      AllBlocks-AllWalked done.outputs c.blocks
        (EachCheap-append g st.tables b (rewritten done.outputs) done.insts all).0
