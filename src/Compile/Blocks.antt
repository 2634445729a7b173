-- ===== src/Compile/Blocks.antt =====
-- engine/main.c: the basic blocks that `compile_prim1` makes.
use gforth.Prelude.{
  ℕ, ◌≤◌, ◌<◌, ◌≡◌, refl, ◌∙◌, sym, ap, arith, true, false, ◌||◌, Bool-cases, inl, inr, ltb, leb,
  if◌then◌else◌, List, [], ◌∷◌, ◌++◌, append_assoc, append-nil, length, length-append,
}
use gforth.Compile.{
  max_bb, Engine, find_prim, Inst, Output, rewrite, align, jump, code_word, Start, null, cell,
  Compiled, ends_block, close_block, compile_prim1, compile_all,
}

-- No instruction but the last ends a superinstruction.
abbrev pub EndsLast : Engine → List Inst → Type 0
EndsLast e [] = Unit
EndsLast e (x ∷ []) = Unit
EndsLast e (x ∷ y ∷ insts) = (e.superend x.orig ≡ false) × EndsLast e (y ∷ insts)

pub record IsBlock (e : Engine) (insts : List Inst) : Type 0 where
  pub short : length insts ≤ max_bb
  pub ends : EndsLast e insts

-- Each call of `optimize_rewrite` gets a basic block.
abbrev pub AllBlocks : Engine → List Output → Type 0
AllBlocks e [] = Unit
AllBlocks e (rewrite insts ∷ outputs) = IsBlock e insts × AllBlocks e outputs
AllBlocks e (align ∷ outputs) = AllBlocks e outputs
AllBlocks e (jump ∷ outputs) = AllBlocks e outputs
AllBlocks e (code_word i x ∷ outputs) = AllBlocks e outputs

-- The instructions of all blocks, in order.
unfoldable pub rewritten : List Output → List Inst
rewritten [] = []
rewritten (rewrite insts ∷ outputs) = insts ++ rewritten outputs
rewritten (align ∷ outputs) = rewritten outputs
rewritten (jump ∷ outputs) = rewritten outputs
rewritten (code_word i x ∷ outputs) = rewritten outputs

-- The primitives among the cells, in order.
unfoldable pub prims_of : Engine → List Start → List Inst
prims_of e [] = []
prims_of e (null ∷ starts) = prims_of e starts
prims_of e (cell i x ∷ starts) =
    let rest = prims_of e starts in
    if ltb (find_prim e x) e.npriminfos
    then record { inst = i; orig = find_prim e x } ∷ rest
    else rest

module _ (e : Engine) where
  EndsLast-append :
      (insts : List Inst) (x : Inst)
      → EndsLast e insts
      → ends_block e insts ≡ false
      → EndsLast e (insts ++ (x ∷ []))
  unfolding ends_block
  EndsLast-append [] x ends open_end = tt
  EndsLast-append (y ∷ []) x ends open_end = (open_end, tt)
  EndsLast-append (y ∷ z ∷ insts) x (inner, ends) open_end =
      (inner, EndsLast-append (z ∷ insts) x ends open_end)

  AllBlocks-append : (a b : List Output) → AllBlocks e a → AllBlocks e b → AllBlocks e (a ++ b)
  AllBlocks-append [] b ha hb = hb
  AllBlocks-append (rewrite insts ∷ a) b (h, ha) hb = (h, AllBlocks-append a b ha hb)
  AllBlocks-append (align ∷ a) b ha hb = AllBlocks-append a b ha hb
  AllBlocks-append (jump ∷ a) b ha hb = AllBlocks-append a b ha hb
  AllBlocks-append (code_word i x ∷ a) b ha hb = AllBlocks-append a b ha hb

  rewritten-append : (a b : List Output) → rewritten (a ++ b) ≡ rewritten a ++ rewritten b
  unfolding rewritten
  rewritten-append [] b = refl
  rewritten-append (rewrite insts ∷ a) b =
      ap (◌++◌ insts) (rewritten-append a b) ∙ sym (append_assoc insts (rewritten a) (rewritten b))
  rewritten-append (align ∷ a) b = rewritten-append a b
  rewritten-append (jump ∷ a) b = rewritten-append a b
  rewritten-append (code_word i x ∷ a) b = rewritten-append a b

  -- The invariant: the pending instructions are a basic block too.
  record Closed (insts : List Inst) (c : Compiled) : Type 0 where
    pending : IsBlock e c.insts
    room : length c.insts < max_bb
    open_end : ends_block e c.insts ≡ false
    blocks : AllBlocks e c.outputs
    kept : rewritten c.outputs ++ c.insts ≡ insts

  close_block-Closed : (insts : List Inst) → IsBlock e insts → Closed insts (close_block e insts)
  unfolding close_block rewritten ends_block
  close_block-Closed insts block =
      elim (Bool-cases (leb max_bb (length insts) || ends_block e insts)) [
        | inl full ↦ rw full (record {
          pending = record { short = omega arith; ends = tt };
          room = omega arith;
          open_end = refl;
          blocks = (block, tt);
          kept = append-nil (insts ++ []) ∙ append-nil insts;
        })
        | inr more ↦ rw more (record {
          pending = block;
          room = ground arith;
          open_end = ground arith;
          blocks = tt;
          kept = refl;
        })
      ]

  pub record Collected (insts : List Inst) (starts : List Start) (c : Compiled) : Type 0 where
    pub pending : IsBlock e c.insts
    pub blocks : AllBlocks e c.outputs
    pub kept : rewritten c.outputs ++ c.insts ≡ insts ++ prims_of e starts

  prims_of-cons :
      (s : Start) (starts : List Start)
      → prims_of e (s ∷ starts) ≡ prims_of e (s ∷ []) ++ prims_of e starts
  unfolding prims_of
  prims_of-cons null starts = refl
  prims_of-cons (cell i x) starts = elim (Bool-cases (ltb (find_prim e x) e.npriminfos)) [
    | inl prim ↦ rw prim refl
    | inr word ↦ rw word refl
  ]

  prims_of_word :
      (i x : ℕ) → ltb (find_prim e x) e.npriminfos ≡ false → prims_of e (cell i x ∷ []) ≡ []
  unfolding prims_of
  prims_of_word i x word = rw word refl

  prims_of_prim :
      (i x : ℕ)
      → ltb (find_prim e x) e.npriminfos ≡ true
      → prims_of e (cell i x ∷ []) ≡ record { inst = i; orig = find_prim e x } ∷ []
  unfolding prims_of
  prims_of_prim i x prim = rw prim refl

  compile_prim1-Collected :
      (insts : List Inst) (s : Start)
      → IsBlock e insts
      → Collected insts (s ∷ []) (compile_prim1 e insts s)
  unfolding compile_prim1 prims_of rewritten
  compile_prim1-Collected insts null block = record {
    pending = record { short = omega arith; ends = tt };
    blocks = (block, tt);
    kept = append-nil (insts ++ []);
  }
  compile_prim1-Collected insts (cell i x) block =
      let c = close_block-Closed insts block in
      let p = find_prim e x in
      let now = close_block e insts in
      elim (Bool-cases (ltb p e.npriminfos)) [
        | inl prim ↦ rw prim (record {
          pending = record {
            short =
                omega (arith, c.room, length-append now.insts (record { inst = i; orig = p } ∷ []));
            ends = EndsLast-append now.insts _ c.pending.ends c.open_end;
          };
          blocks = c.blocks;
          kept =
              sym (
                append_assoc (rewritten now.outputs) now.insts (record { inst = i; orig = p } ∷ []))
              ∙ ap (λ l. l ++ (record { inst = i; orig = p } ∷ [])) c.kept
              ∙ ap (◌++◌ insts) (sym (prims_of_prim i x prim));
        })
        | inr word ↦ rw word (record {
          pending = record { short = omega arith; ends = tt };
          blocks = AllBlocks-append now.outputs _ c.blocks (c.pending, tt);
          kept =
              append-nil _
              ∙ rewritten-append now.outputs _
              ∙ ap (◌++◌ (rewritten now.outputs)) (append-nil now.insts)
              ∙ c.kept
              ∙ sym (append-nil insts)
              ∙ ap (◌++◌ insts) (sym (prims_of_word i x word));
        })
      ]

  -- `compile_prim1` in any sequence of calls, from a pending basic block on: each call of
  -- `optimize_rewrite` gets at most MAX_BB instructions, of which none but the last ends a
  -- superinstruction; the pending instructions are such a block again; and the blocks with the pending
  -- instructions behind them are exactly the instructions before and the primitives of the calls, none
  -- lost and none out of order.
  pub compile_all-Collected :
      (insts : List Inst) (starts : List Start)
      → IsBlock e insts
      → Collected insts starts (compile_all e insts starts)
  unfolding compile_all rewritten prims_of
  compile_all-Collected insts [] block = record {
    pending = block;
    blocks = tt;
    kept = sym (append-nil insts);
  }
  compile_all-Collected insts (s ∷ starts) block =
      let one = compile_prim1-Collected insts s block in
      let now = compile_prim1 e insts s in
      let rest = compile_all-Collected now.insts starts one.pending in
      let later = compile_all e now.insts starts in
      record {
        pending = rest.pending;
        blocks = AllBlocks-append now.outputs later.outputs one.blocks rest.blocks;
        kept =
            ap (λ l. l ++ later.insts) (rewritten-append now.outputs later.outputs)
            ∙ append_assoc (rewritten now.outputs) (rewritten later.outputs) later.insts
            ∙ ap (◌++◌ (rewritten now.outputs)) rest.kept
            ∙ sym (append_assoc (rewritten now.outputs) now.insts (prims_of e starts))
            ∙ ap (λ l. l ++ prims_of e starts) one.kept
            ∙ append_assoc insts (prims_of e (s ∷ [])) (prims_of e starts)
            ∙ ap (◌++◌ insts) (sym (prims_of-cons s starts));
      }
