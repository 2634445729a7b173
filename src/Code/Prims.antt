-- ===== src/Code/Prims.antt =====
-- engine/main.c: the code of a primitive in the dynamic code area, `append_prim` and
-- `compile_prim_dyn`.
pub mod Room
pub mod Fits
use gforth.Prelude.{
  ◌>>=◌, ℕ, zero, suc, ◌+◌, ◌-◌, ◌*◌, ◌/◌, Bool, true, false, not, ◌&&◌, ◌||◌, ltb, leb, ◌==◌,
  if◌then◌else◌, List, [], ◌∷◌, ◌++◌, Option, none, some, get_or, length, is_negative,
}
use gforth.Prelude.Int.{ℤ, pos, negsuc, pos_part, neg_part, ◌+ℤ◌, ◌*ℤ◌}
use gforth.Super.{Cost}
use gforth.Code.{
  PrimCode, Machine, Block, Area, append_code, align_code, flush_to_here, address_of, ltz, Updated,
  append_ip_update1,
}
use mathlib.Core.Option as Option
use gforth.Code.Space.{
  Context, instp, append_ip_update, is_behind, append_jump, append_jump_previous, reserved_size,
  Reserved, enter_new_block, block_at, enter_block, reserve_code_space, is_copied, can_copy,
}

-- `ip_at+low*min_ip_update <= target && target <= ip_at+high*max_ip_update`
unfoldable pub is_near : Machine → ℕ → ℕ → ℤ → Area → Bool
is_near m low high target a =
    not (ltz target (a.ip_at +ℤ pos low *ℤ m.min_ip_update))
    && not (ltz (a.ip_at +ℤ pos high *ℤ m.max_ip_update) target)

-- The primitive that is compiled, and `has_imm` and `dead`.
pub record Chosen : Type 0 where
  pub area : Area
  pub prim : ℕ
  pub has_imm : Bool
  pub dead : Bool

abbrev pub has_immediates : Machine → ℕ → Bool
has_immediates m p = let ci = m.super_costs p in ltb ci.length (ci.imm_ops + 1)

-- A conditional branch whose target is near becomes a branch to the instruction pointer.
unfoldable pub choose_branch : Machine → Context → ℕ → Area → Option Chosen
choose_branch m c p a =
    let ci = m.super_costs p in
    let target = c.operand (instp c (a.inst_index + ci.length - 1)) in
    let b = m.opt_ip_updates_branch in
    let to_ip = m.branches_to_ip p in
    let superend = (m.priminfos p).superend in
    if ltb 0 b && not (to_ip == 0) && is_near m b (b / 2) target a
    then (do
      r ← append_ip_update1 m target (pos 0) (pos 0) a
      if (superend && (m.priminfos to_ip).superend)
            || not (superend || (m.priminfos to_ip).superend)
          then some (record { area = r.area; prim = to_ip; has_imm = false; dead = false })
          else none)
    else some (record { area = a; prim = p; has_imm = has_immediates m p; dead = false })

unfoldable pub is_member : ℕ → List ℕ → Bool
is_member p [] = false
is_member p (q ∷ prims) = p == q || is_member p prims

-- Whether the instruction pointer is dead at the start of the primitive.
unfoldable pub find_dead : Machine → Bool → Chosen → Chosen
find_dead m superend ch =
    if ltb 1 m.opt_ip_updates && superend && not ch.has_imm
    then record ch { dead = is_member ch.prim m.ip_dead }
    else ch

-- The update in front of a primitive that uses the instruction pointer; the primitive is the variant
-- for what is left.
unfoldable pub update_before : Machine → Context → Bool → Chosen → Option Chosen
update_before m c superend ch =
    let there = record ch.area {
      inst_index = ch.area.inst_index + (m.super_costs ch.prim).length - 1;
    } in
    if ch.has_imm || (superend && not ch.dead)
    then (do
      r ← append_ip_update m c (there.inst_index + 1) (m.priminfos ch.prim).max_ip_offset there
      some (record {
        area = r.area;
        prim = ch.prim + pos_part r.left;
        has_imm = ch.has_imm;
        dead = superend;
      }))
    else some ch

unfoldable pub z_equal : ℤ → ℤ → Bool
z_equal a b = not (ltz a b || ltz b a)

-- The code of the primitive behind its own update.
unfoldable pub place_prim : Machine → Context → Bool → Chosen → Option Chosen
place_prim m c superend ch =
    let pi = m.priminfos ch.prim in
    let after = instp c (ch.area.inst_index + 1) in
    let kept = if ch.dead then record ch.area { ip_at = after } else ch.area in
    let code = append_code (address_of pi.start + pi.len1) (pi.length - pi.len1) kept in
    let counted = record code { uses = ch.prim ∷ code.uses } in
    if not superend || z_equal counted.ip_at after
    then some (record ch { area = counted })
    else none

unfoldable pub is_near_branch : Machine → Context → ℕ → Area → Bool
is_near_branch m c p a =
    let ci = m.super_costs p in
    let b = m.opt_ip_updates_branch in
    ltb 0 b
    && ci.length == 1
    && get_or m.super2 ci.offset 0 == m.n_branch
    && is_near m b b (c.operand (instp c a.inst_index)) a

-- `append_prim` with updates of the instruction pointer, behind the reservation.
unfoldable pub append_prim_updates : Machine → Context → ℕ → Area → Option Chosen
append_prim_updates m c p a =
    let superend = (m.priminfos p).superend in
    if is_near_branch m c p a
    then (do
      r ← append_ip_update1 m (c.operand (instp c a.inst_index)) (pos 0) (pos 0) a
      some (record {
        area = record r.area { ip_at = instp c (r.area.inst_index + 1) };
        prim = p;
        has_imm = false;
        dead = false;
      }))
    else (do
      branch ← choose_branch m c p a
      updated ← update_before m c superend (find_dead m superend branch)
      place_prim m c superend updated)

-- `append_prim` without them.
unfoldable pub append_prim_plain : Machine → Context → ℕ → Area → Chosen
append_prim_plain m c p a =
    let pi = m.priminfos p in
    let code = append_code (address_of pi.start) pi.length a in
    record {
      area = record code { ip_at = instp c (a.inst_index + (m.super_costs p).length) };
      prim = p;
      has_imm = false;
      dead = false;
    }

-- The area with the start of the code, which is NULL when there is no room.
pub record Appended : Type 0 where
  pub area : Area
  pub code : Option ℕ

abbrev pub prim_size : Machine → ℕ → ℕ
prim_size m p = let pi = m.priminfos p in pi.length + pi.restlength + m.goto_len + m.alignment - 1

unfoldable pub append_prim_done : Machine → ℕ → Chosen → Appended
append_prim_done m start ch =
    let pi = m.priminfos ch.prim in
    record {
      area = record ch.area { last_jump = if pi.restlength == 0 then 0 else ch.prim };
      code = some start;
    }

unfoldable pub append_prim : Machine → Context → ℕ → Area → Option Appended
append_prim m c p a = do
  r ← reserve_code_space m c (prim_size m p) a
  if r.failed
      then some (record { area = r.area; code = none })
      else if ltb 0 m.opt_ip_updates
      then Option.map (append_prim_done m r.area.code_here) (append_prim_updates m c p r.area)
      else some (append_prim_done m r.area.code_here (append_prim_plain m c p r.area))

-- A primitive that is not copied: a jump to it, behind which the instruction pointer is right.
unfoldable pub compile_static : Machine → Context → ℕ → Area → Option Appended
compile_static m c p a = do
  jumped ← append_jump_previous m c a
  let uses = if can_copy m p then jumped.uses else p ∷ jumped.uses
  some (record {
    area = record jumped { ip_at = instp c (a.inst_index + 1); uses = uses };
    code = some (get_or m.labels p 0);
  })

-- The jump behind a primitive that ends a superinstruction.
unfoldable pub end_prim : Machine → Context → ℕ → Area → Option Area
end_prim m c p a =
    let after = record a { last_jump = p } in
    if (m.priminfos p).superend then append_jump m c (a.inst_index + 1) after else some after

unfoldable pub compile_copy : Machine → Context → ℕ → Area → Option Appended
compile_copy m c p a = do
  r ← append_prim m c p a
  jumped ← end_prim m c p r.area
  some (record { area = jumped; code = r.code })

-- `compile_prim_dyn`: the code address for the threaded code, NULL when there is no room.
unfoldable pub compile_prim_dyn : Machine → Context → ℕ → Area → Option Appended
compile_prim_dyn m c p a =
    if m.no_dynamic
    then some (record { area = a; code = some (get_or m.labels p 0) })
    else if leb m.npriminfos p || not (can_copy m p)
    then compile_static m c p a
    else compile_copy m c p a
