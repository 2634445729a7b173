-- ===== src/Code/Prims/Room.antt =====
-- engine/main.c: without updates of the instruction pointer, the code of the primitives stays inside the
-- blocks of the code area.
use gforth.Prelude.{
  ℕ, zero, suc, ◌+◌, ◌-◌, ◌%◌, ◌≤◌, ◌<◌, ◌≡◌, refl, ◌∙◌, sym, ap, arith, Bool-cases, inl, inr, leb,
  List, [], ◌∷◌, ◌++◌, Option, none, some, length,
}
use native.Mathlib.Nat.{mod-lt}
use gforth.Code.{Machine, Chunk, Block, Area, append_code, align_code}
use gforth.Code.Space.{block_at}

-- The block is one of the code area.
abbrev pub IsBlockOf : List Block → Block → Type 0
IsBlockOf blocks b = (i : ℕ) × (block_at blocks i ≡ some b)

-- What is copied lies in a block.
pub record IsInside (blocks : List Block) (ch : Chunk) : Type 0 where
  pub within : Block
  pub known : IsBlockOf blocks within
  pub begins : within.block ≤ ch.at
  pub ends : ch.at + ch.length ≤ within.block + within.size

abbrev pub AllInside : List Block → List Chunk → Type 0
AllInside blocks [] = Unit
AllInside blocks (ch ∷ chunks) = IsInside blocks ch × AllInside blocks chunks

-- There is room for `n` bytes in the current block, the blocks have the size of a code area, and all
-- that was copied lies in one of them.
pub record Room (m : Machine) (n area here : ℕ) (blocks : List Block) (chunks : List Chunk)
    : Type 0 where
  pub begun : area ≤ here
  pub fits : here + n ≤ area + m.code_area_size
  pub owned :
      here < area + m.code_area_size
      → IsBlockOf blocks (record { block = area; size = m.code_area_size })
  pub sized : (b : Block) → IsBlockOf blocks b → b.size ≡ m.code_area_size
  pub inside : AllInside blocks chunks

abbrev pub HasRoom : Machine → ℕ → Area → Type 0
HasRoom m n a = Room m n a.code_area a.code_here a.code_block_list a.chunks

AllInside-append :
    (blocks : List Block) (xs : List Chunk) (ch : Chunk)
    → AllInside blocks xs
    → IsInside blocks ch
    → AllInside blocks (xs ++ (ch ∷ []))
AllInside-append blocks [] ch all one = (one, tt)
AllInside-append blocks (x ∷ xs) ch (h, all) one = (h, AllInside-append blocks xs ch all one)

pub block_at-append :
    (blocks more : List Block) (i : ℕ) (b : Block)
    → block_at blocks i ≡ some b
    → block_at (blocks ++ more) i ≡ some b
unfolding block_at
block_at-append [] more i b h = absurd (ground arith)
block_at-append (x ∷ blocks) more zero b h = h
block_at-append (x ∷ blocks) more (suc i) b h = block_at-append blocks more i b h

pub block_at-last :
    (blocks : List Block) (b : Block) → block_at (blocks ++ (b ∷ [])) (length blocks) ≡ some b
unfolding block_at
block_at-last [] b = refl
block_at-last (x ∷ blocks) b = block_at-last blocks b

IsInside-more :
    (blocks more : List Block) (ch : Chunk) → IsInside blocks ch → IsInside (blocks ++ more) ch
IsInside-more blocks more ch h = record {
  within = h.within;
  known = (h.known.0, block_at-append blocks more h.known.0 h.within h.known.1);
  begins = h.begins;
  ends = h.ends;
}

pub AllInside-more :
    (blocks more : List Block) (chunks : List Chunk)
    → AllInside blocks chunks
    → AllInside (blocks ++ more) chunks
AllInside-more blocks more [] all = tt
AllInside-more blocks more (ch ∷ chunks) (h, all) =
    (IsInside-more blocks more ch h, AllInside-more blocks more chunks all)

size_of : Option Block → ℕ
size_of none = 0
size_of (some b) = b.size

pub sized_last :
    (size : ℕ) (blocks : List Block) (new : Block)
    → new.size ≡ size
    → ((b : Block) → IsBlockOf blocks b → b.size ≡ size)
    → (b : Block) → IsBlockOf (blocks ++ (new ∷ [])) b
    → b.size ≡ size
unfolding block_at size_of
sized_last size [] new same all b (zero, h) = sym (ap size_of h) ∙ same
sized_last size [] new same all b (suc i, h) = absurd (ground arith)
sized_last size (x ∷ blocks) new same all b (zero, h) = all b (0, h)
sized_last size (x ∷ blocks) new same all b (suc i, h) =
    sized_last size blocks new same (λ c k. all c (suc k.0, k.1)) b (i, h)

module _ (m : Machine) where
  pub append_code-HasRoom :
      (n code size : ℕ) (a : Area)
      → 0 < size + n
      → HasRoom m (size + n) a
      → HasRoom m n (append_code code size a)
  unfolding append_code
  append_code-HasRoom n code size a some_size room = record {
    begun = omega (arith, room.begun);
    fits = omega (arith, room.fits);
    owned = λ free. room.owned (omega (arith, free));
    sized = room.sized;
    inside = AllInside-append a.code_block_list a.chunks _ room.inside (record {
      within = record { block = a.code_area; size = m.code_area_size };
      known = room.owned (omega (arith, room.fits));
      begins = room.begun;
      ends = omega (arith, room.fits);
    });
  }

  Room-less :
      (n k area here : ℕ) (blocks : List Block) (chunks : List Chunk)
      → k ≤ n
      → Room m n area here blocks chunks
      → Room m k area here blocks chunks
  Room-less n k area here blocks chunks less room = record {
    begun = room.begun;
    fits = omega (arith, room.fits, less);
    owned = room.owned;
    sized = room.sized;
    inside = room.inside;
  }

  pub HasRoom-less : (n k : ℕ) (a : Area) → k ≤ n → HasRoom m n a → HasRoom m k a
  HasRoom-less n k a less room =
      Room-less n k a.code_area a.code_here a.code_block_list a.chunks less room

  pub align_code-HasRoom :
      (a : Area)
      → 0 < m.alignment
      → HasRoom m (m.alignment - 1) a
      → m.maxpadding < m.alignment
      → HasRoom m 0 (align_code m a)
  unfolding align_code
  align_code-HasRoom a aligned room small =
      let offset = a.code_here % m.alignment in
      let size = m.alignment - offset in
      elim (Bool-cases (leb size m.maxpadding)) [
        | inl padded ↦ rw padded (
            append_code-HasRoom 0 (m.nops + offset) size a
              (omega (arith, mod-lt a.code_here aligned))
              (HasRoom-less (m.alignment - 1) (size + 0) a (ground arith) room))
        | inr full ↦ rw full (HasRoom-less (m.alignment - 1) 0 a (omega arith) room)
      ]

  pub inst_index-align_code : (a : Area) → (align_code m a).inst_index ≡ a.inst_index
  unfolding align_code append_code
  inst_index-align_code a =
      elim (Bool-cases (leb (m.alignment - a.code_here % m.alignment) m.maxpadding)) [
        | inl padded ↦ rw padded refl
        | inr full ↦ rw full refl
      ]
