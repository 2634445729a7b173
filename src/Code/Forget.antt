-- ===== src/Code/Forget.antt =====
-- engine/main.c: `forget_dyncode3`, which takes the code area back to an earlier place, and
-- `dyncodesize`.
use gforth.Prelude.{
  take, ◌||◌, ℕ, ◌+◌, ◌-◌, ◌≤◌, ◌<◌, ◌≡◌, refl, ◌∙◌, ap, arith, Bool, true, false, ◌&&◌, ltb, leb,
  if◌then◌else◌, List, [], ◌∷◌, ◌++◌, Option, none, some, length,
}
use gforth.Code.{Machine, Block, Area}
use gforth.Code.Space.{block_at}
use gforth.Code.Infos.{DynamicInfo, dynamic_info3}
use gforth.Code.Prims.Fits.{Fits}

-- `code >= p->block && code < p->block+p->size`
unfoldable pub holds : ℕ → Block → Bool
holds code p = leb p.block code && ltb code (p.block + p.size)

-- The first block that holds the code, and its number.
pub record Found : Type 0 where
  pub number : ℕ
  pub block : ℕ

unfoldable pub find_block : ℕ → List Block → ℕ → Option Found
find_block code [] i = none
find_block code (p ∷ blocks) i =
    if holds code p
    then some (record { number = i; block = p.block })
    else find_block code blocks (i + 1)

-- `-1` is true; the other result is `-no_dynamic`.
pub record Forgotten : Type 0 where
  pub result : Bool
  pub area : Area
  pub dynamicinfos : List DynamicInfo

unfoldable pub reset_to : ℕ → Option Found → Area → Area
reset_to code none a = a
reset_to code (some p) a = record a {
  next_block = p.number + 1;
  code_here = code;
  start_flush = code;
  code_area = p.block;
  last_jump = 0;
}

unfoldable pub first_infos : Option ℕ → List DynamicInfo → List DynamicInfo
first_infos none infos = infos
first_infos (some i) infos = take i infos

unfoldable pub is_found : Option Found → Bool
is_found none = false
is_found (some p) = true

-- `forget_dyncode3` of a cell that holds `code`.
unfoldable pub forget_dyncode3 : Machine → ℕ → ℕ → List DynamicInfo → Area → Forgotten
forget_dyncode3 m tc code infos a =
    let p = find_block code a.code_block_list 0 in
    record {
      result = is_found p || m.no_dynamic;
      area = reset_to code p a;
      dynamicinfos = first_infos (dynamic_info3 tc infos) infos;
    }

unfoldable pub code_size : ℕ → List Block → ℕ → ℕ
code_size code_here [] size = 0
code_size code_here (p ∷ blocks) size =
    if holds code_here p
    then size + (code_here - p.block)
    else code_size code_here blocks (size + p.size)

unfoldable pub dyncodesize : Area → ℕ
dyncodesize a = code_size a.code_here a.code_block_list 0

-- The memory of some blocks.
unfoldable pub total : List Block → ℕ
total [] = 0
total (p ∷ blocks) = p.size + total blocks

abbrev pub AllMiss : ℕ → List Block → Type 0
AllMiss code [] = Unit
AllMiss code (p ∷ blocks) = (holds code p ≡ false) × AllMiss code blocks

find_block-first :
    (code : ℕ) (before : List Block) (p : Block) (after : List Block) (i : ℕ)
    → AllMiss code before
    → holds code p ≡ true
    → find_block code (before ++ (p ∷ after)) i
      ≡ some (record { number = i + length before; block = p.block })
unfolding find_block
find_block-first code [] p after i miss here =
    rw here (ap (λ n. some (record { number = n; block = p.block })) (omega arith))
find_block-first code (q ∷ before) p after i (other, miss) here = rw other (
    find_block-first code before p after (i + 1) miss here
    ∙ ap (λ n. some (record { number = n; block = p.block })) (omega arith))

code_size-first :
    (code : ℕ) (before : List Block) (p : Block) (after : List Block) (size : ℕ)
    → AllMiss code before
    → holds code p ≡ true
    → code_size code (before ++ (p ∷ after)) size ≡ size + total before + (code - p.block)
unfolding code_size total
code_size-first code [] p after size miss here = rw here (omega arith)
code_size-first code (q ∷ before) p after size (other, miss) here =
    rw other (code_size-first code before p after (size + q.size) miss here ∙ omega arith)

block_at-middle :
    (before : List Block) (p : Block) (after : List Block)
    → block_at (before ++ (p ∷ after)) (length before) ≡ some p
unfolding block_at
block_at-middle [] p after = refl
block_at-middle (q ∷ before) p after = block_at-middle before p after

holds_bounds :
    (code : ℕ) (p : Block) → holds code p ≡ true → (p.block ≤ code) × (code < p.block + p.size)
unfolding holds
holds_bounds code p h = ground arith

-- `forget_dyncode3` with code that lies in a block, and in none before it: it returns true; the code
-- area goes on at that code, in that block, and fits as `compile_prim_dyn` needs it, with everything that
-- was copied still inside the blocks; no jump is due; the next block is the one behind, so that the
-- blocks behind are used again before a new one is allocated; and `dyncodesize` is the memory of the
-- blocks before and the part of the block in front of the code.
pub forget_dyncode3_lem :
    (m : Machine) (tc code : ℕ) (infos : List DynamicInfo) (a : Area) (before : List Block)
    (p : Block) (after : List Block)
    → a.code_block_list ≡ before ++ (p ∷ after)
    → AllMiss code before
    → holds code p ≡ true
    → Fits m a
    → let r = forget_dyncode3 m tc code infos a in
      (r.result ≡ true)
      × (r.area.code_here ≡ code)
      × (r.area.code_area ≡ p.block)
      × (r.area.last_jump ≡ 0)
      × (r.area.next_block ≡ length before + 1)
      × Fits m r.area
      × (dyncodesize r.area ≡ total before + (code - p.block))
unfolding forget_dyncode3 reset_to is_found dyncodesize
forget_dyncode3_lem m tc code infos a before p after blocks miss here fits =
    let n = length before in
    let found : find_block code a.code_block_list 0
        ≡ some (record { number = n; block = p.block }) =
      ap (λ l. find_block code l 0) blocks
      ∙ find_block-first code before p after 0 miss here
      ∙ ap (λ i. some (record { number = i; block = p.block })) (omega arith) in
    let known : block_at a.code_block_list n ≡ some p =
      ap (λ l. block_at l n) blocks ∙ block_at-middle before p after in
    let room = fits.room in
    let size = room.sized p (n, known) in
    let inside = holds_bounds code p here in
    let fit : Fits m (reset_to code (some (record { number = n; block = p.block })) a) = record {
      room = record {
        begun = inside.0;
        fits = omega (arith, inside.1, size);
        owned = λ free. (n, known ∙ ap (λ s. some (record { block = p.block; size = s })) size);
        sized = room.sized;
        inside = room.inside;
      };
      open_end = λ some_left. absurd (some_left refl);
    } in
    let counted : code_size code a.code_block_list 0 ≡ total before + (code - p.block) =
      ap (λ l. code_size code l 0) blocks
      ∙ code_size-first code before p after 0 miss here
      ∙ omega arith in
    rw found (refl, refl, refl, refl, refl, fit, counted)
