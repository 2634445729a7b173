-- ===== src/Code/Prims/Fits.antt =====
-- engine/main.c: without updates of the instruction pointer, the code of every primitive finds room in
-- the blocks of the code area.
use gforth.Prelude.{
  ℕ, ◌+◌, ◌-◌, ◌^◌, ◌≤◌, ◌<◌, ◌≡◌, ◌≢◌, false, ◌==◌, if◌then◌else◌, List, Option, some, length,
}
use gforth.Code.{Machine, Block, Area}
use gforth.Code.Space.{Context, instp, Reserved}
use gforth.Code.Prims.{prim_size, Appended}
use gforth.Code.Prims.Room.{HasRoom}

module _ (m : Machine) where
  -- What a jump behind the last primitive takes, with the padding behind it.
  abbrev pub pending : ℕ → ℕ
  pending p = if p == 0 then 0 else (m.priminfos p).restlength + m.goto_len + (m.alignment - 1)

  -- What the theorem relies on of the machine.
  pub record IsPlain : Type 0 where
    pub updates : m.opt_ip_updates ≡ 0
    pub aligned : 1 < m.alignment
    pub padding : m.maxpadding < m.alignment
    pub area : m.code_area_size < 2 ^ 63
    pub prims : (p : ℕ) → prim_size m p ≤ m.code_area_size

  -- A state of the code area between two primitives.
  pub record Fits (a : Area) : Type 0 where
    pub room : HasRoom m (pending a.last_jump) a
    pub open_end : a.last_jump ≢ 0 → (m.priminfos a.last_jump).superend ≡ false

  record Jumped (a : Area) (result : Option Area) : Type 0 where
    area : Area
    ends : result ≡ some area
    room : HasRoom m 0 area
    last : area.last_jump ≡ 0
    index : area.inst_index ≡ a.inst_index

  module _ (c : Context) (plain : IsPlain) where
    -- The allocator has a block whenever it is asked.
    module _ (alloc : (blocks : List Block) → (b : ℕ) × (c.gforth_alloc blocks ≡ some b)) where
      record Entered (n : ℕ) (a : Area) (r : Reserved) : Type 0 where
        works : r.failed ≡ false
        room : HasRoom m n r.area
        index : r.area.inst_index ≡ a.inst_index

      record Had (size : ℕ) (a : Area) (result : Option Reserved) : Type 0 where
        reserved : Reserved
        ends : result ≡ some reserved
        works : reserved.failed ≡ false
        room : HasRoom m size reserved.area
        index : reserved.area.inst_index ≡ a.inst_index

      -- The code of a primitive with the room behind it.
      record Copied (p : ℕ) (a : Area) (result : Option Appended) : Type 0 where
        appended : Appended
        ends : result ≡ some appended
        room : HasRoom m ((m.priminfos p).restlength + m.goto_len + (m.alignment - 1)) appended.area
        index : appended.area.inst_index ≡ a.inst_index
        ip : appended.area.ip_at ≡ instp c (a.inst_index + (m.super_costs p).length)

      FitsAfter : Option Appended → Type 0
      FitsAfter result = (r : Appended) × (result ≡ some r) × Fits r.area
