-- ===== src/Check.antt =====
-- engine/main.c: `check_prims`, which finds out which primitives can be copied, by comparing the code of
-- two copies of the engine. Addresses are numbers, the array of J labels is sorted, and a pointer into
-- it is an index. The messages and the counts of primitives are left out.
pub mod Search
pub mod Copies
pub mod Variants
pub mod Loop
use gforth.Prelude.{
  ℕ, zero, suc, ◌+◌, ◌-◌, ◌/◌, Bool, true, false, not, ◌&&◌, ◌||◌, ltb, leb, ◌==◌, if◌then◌else◌,
  List, [], ◌∷◌, ◌++◌, Option, none, some, get_or, set, length,
}
use gforth.Prelude.Int.{ℤ, pos, negsuc, pos_part, neg_part, ◌+ℤ◌, ◌-ℤ◌}
use gforth.Code.{ltz}

-- `bsearch_next(key, a+lo, n)`, in at most `fuel` calls.
unfoldable pub bsearch_next : ℕ → ℕ → List ℕ → ℕ → ℕ → Option ℕ
bsearch_next zero key a lo n = none
bsearch_next (suc fuel) key a lo n =
    let mid = (n - 1) / 2 in
    let up = bsearch_next fuel key a (lo + mid + 1) (n - mid - 1) in
    let down = bsearch_next fuel key a lo (mid + 1) in
    let first = get_or a lo 0 in
    if ltb n 1
    then none
    else if n == 1
    then (if ltb first key then none else some first)
    else if ltb (get_or a (lo + mid) 0) key
    then up
    else down

-- The labels of a primitive in both engines, and what the generated tables say of it.
pub record Source : Type 0 where
  pub symbol1 : ℕ
  pub symbol2 : ℕ
  pub startb : ℕ
  pub end1 : ℕ
  pub superend : Bool
  pub ip_offset : ℤ

-- `PrimInfo`, as far as `check_prims` sets it.
pub record Checked : Type 0 where
  pub start : Option ℕ
  pub len1 : ℤ
  pub length : ℤ
  pub restlength : ℤ
  pub superend : Bool
  pub max_ip_offset : ℕ
  pub min_ip_offset : ℕ

-- The memory, the sorted J labels, the options, and the check that the machine adds (CHECK_PRIM).
pub record Engines : Type 0 where
  pub memory : ℕ → ℕ
  pub labels : List ℕ
  pub no_super : Bool
  pub opt_ip_updates : ℕ
  pub check_prim : ℕ → ℤ → Bool

unfoldable pub difference : ℕ → ℕ → ℤ
difference a b = pos a -ℤ pos b

-- Not relocatable.
abbrev pub without_start : Checked → Checked
without_start pi = record pi { start = none }

-- The comparison of the code, from `j` bytes on.
unfoldable pub same_code : (ℕ → ℕ) → ℕ → ℕ → ℕ → Bool
same_code memory s1 s2 zero = true
same_code memory s1 s2 (suc n) =
    let rest = same_code memory (s1 + 1) (s2 + 1) n in
    if memory s1 == memory s2 then rest else false

-- A primitive with a J label behind its start; and whether the rest of the loop is left out for it.
pub record Verdict : Type 0 where
  pub info : Checked
  pub continues : Bool

-- `length<0 || restlength<0`
unfoldable pub adjust : ℤ → Checked → Checked
adjust whole pi =
    if ltz pi.length (pos 0) || ltz pi.restlength (pos 0)
    then record pi { length = whole; restlength = pos 0 }
    else pi

unfoldable pub compare_code : Engines → Source → Checked → Checked
compare_code e s pi =
    let n = pos_part (pi.length +ℤ pi.restlength) in
    if same_code e.memory s.symbol1 s.symbol2 n then pi else without_start pi

unfoldable pub check_ended : Engines → Source → ℕ → Checked → Verdict
check_ended e s endlabel pi =
    let whole = difference endlabel s.symbol1 in
    if ltb endlabel s.end1 && not pi.superend || ltb s.end1 s.symbol1 && not pi.superend
    then record { info = record pi { start = none; length = whole }; continues = true }
    else if e.check_prim s.symbol1 (difference s.end1 s.symbol1)
    then record { info = without_start pi; continues = true }
    else record { info = compare_code e s (adjust whole pi); continues = false }

-- What the loop sets before any check.
unfoldable pub initial_info : Engines → Source → ℕ → Checked
initial_info e s endlabel =
    let prim_len = difference s.end1 s.symbol1 in
    record {
      start = some s.symbol1;
      len1 = difference s.startb s.symbol1;
      length = prim_len;
      restlength = difference endlabel s.symbol1 -ℤ prim_len;
      superend = s.superend || e.no_super;
      max_ip_offset = 0;
      min_ip_offset = 0;
    }

unfoldable pub check_label : Engines → Source → Option ℕ → Verdict
check_label e s none =
    let pi = initial_info e s 0 in
    let size = if ltz pi.length (pos 0) then pos 100 else pi.length in
    record { info = record pi { start = none; length = size }; continues = true }
check_label e s (some endlabel) = check_ended e s endlabel (initial_info e s endlabel)

-- One round of the loop of `check_prims`, up to the updates of the instruction pointer.
unfoldable pub check_one : Engines → Source → Verdict
check_one e s =
    check_label e s (bsearch_next (length e.labels) (s.symbol1 + 1) e.labels 0 (length e.labels))

-- An entry of `priminfos` with what the tables say of the primitive.
pub record Entry : Type 0 where
  pub source : Source
  pub info : Checked

unfoldable pub has_start : Option ℕ → Bool
has_start none = false
has_start (some start) = true

unfoldable pub is_offset : ℤ → ℤ → Bool
is_offset a b = not (ltz a b || ltz b a)

unfoldable pub entry_at : List Entry → ℕ → Option Entry
entry_at [] i = none
entry_at (q ∷ done) zero = some q
entry_at (q ∷ done) (suc i) = entry_at done i

-- `priminfos[i-o].max_ip_offset = o`, for an `o` above 0: the entries before are in reverse order, so
-- that this one is at `o-1`; there is one, since the variants of a primitive follow it.
unfoldable pub note_max : ℕ → Checked → List Entry → List Entry
note_max o pi done = elim (entry_at done (o - 1)) [
  | none ↦ done
  | some q ↦
      if has_start pi.start && q.info.max_ip_offset == o - 1
      then set done (o - 1) (record q { info = record q.info { max_ip_offset = o } })
      else done
]

-- The loop over `k`, with `k` variants found so far: the last one whose predecessors are all copied.
unfoldable pub count_back : ℕ → List Entry → ℕ
count_back k [] = k
count_back k (q ∷ before) =
    let rest = count_back (k + 1) before in
    if not (has_start q.info.start) || not (is_offset q.source.ip_offset (negsuc k))
    then k
    else rest

-- The rest of a round: the offsets of the updates of the instruction pointer.
unfoldable pub note_offsets : Engines → Source → Checked → List Entry → List Entry
note_offsets e s pi done =
    let o = s.ip_offset in
    let noted =
      if ltb 2 e.opt_ip_updates && ltz (pos 0) o then note_max (pos_part o) pi done else done in
    let least = if is_offset o (pos 0) then count_back 0 noted else 0 in
    record { source = s; info = record pi { min_ip_offset = least } } ∷ noted

unfoldable pub check_step : Engines → Source → List Entry → List Entry
check_step e s done =
    let v = check_one e s in
    if v.continues
    then record { source = s; info = v.info } ∷ done
    else note_offsets e s v.info done

-- The loop of `check_prims`; the entries are in reverse order.
unfoldable pub check_prims : Engines → List Source → List Entry → List Entry
check_prims e [] done = done
check_prims e (s ∷ sources) done = check_prims e sources (check_step e s done)
