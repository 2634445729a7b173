-- ===== src/Code/Updates.antt =====
-- engine/main.c: the updates of the instruction pointer reach their target.
use gforth.Prelude.{
  ℕ, zero, suc, ◌+◌, ◌≤◌, ◌<◌, ◌≡◌, refl, ◌∙◌, sym, ap, subst, arith, true, false, Bool-cases, inl,
  inr, ◌==◌, List, [], ◌∷◌, ◌++◌, append_assoc, append-nil, ap₂, length, Option, some,
}
use gforth.Prelude.Int.{ℤ, pos, negsuc, pos_part, neg_part, ◌+ℤ◌, ◌-ℤ◌, ◌≤ℤ◌, eq_of_parts}
use gforth.Code.{
  Machine, Chunk, Area, append_code, ltz, outside, clamp, append_update, Updated, update_loop,
  append_ip_update1,
}

-- The updates of the instruction pointer one behind the other.
unfoldable pub append_updates : Machine → List ℤ → Area → Area
append_updates m [] a = a
append_updates m (step ∷ steps) a = append_updates m steps (append_update m step a)

-- Each step is that of a primitive that is there.
abbrev pub AllSteps : Machine → List ℤ → Type 0
AllSteps m [] = Unit
AllSteps m (step ∷ steps) =
    ((m.min_ip_update ≤ℤ step) × (step ≤ℤ m.max_ip_update)) × AllSteps m steps

abbrev distance : ℤ → ℕ
distance x = pos_part x + neg_part x

-- The primitive for each step that is allowed has its code at `source step`, of `size step` bytes.
abbrev pub HasUpdates : Machine → (ℤ → ℕ) → (ℤ → ℕ) → Type 0
HasUpdates m source size =
    (step : ℤ)
    → m.min_ip_update ≤ℤ step
    → step ≤ℤ m.max_ip_update
    → let pi = m.priminfos (pos_part (pos m.ip_update0 +ℤ step)) in
      (pi.start ≡ some (source step)) × (pi.len1 ≡ size step)

-- The code of the steps from the address `here` on, one piece behind the other.
unfoldable pub code_of_steps : (ℤ → ℕ) → (ℤ → ℕ) → ℕ → List ℤ → List Chunk
code_of_steps source size here [] = []
code_of_steps source size here (step ∷ steps) =
    record { source = source step; at = here; length = size step }
    ∷ code_of_steps source size (here + size step) steps

unfoldable pub size_of_steps : (ℤ → ℕ) → List ℤ → ℕ
size_of_steps size [] = 0
size_of_steps size (step ∷ steps) = size step + size_of_steps size steps

-- What an update to a target does.
pub record Reaches (m : Machine) (source size : ℤ → ℕ) (target l u : ℤ) (a : Area) (r : Updated)
    : Type 0 where
  pub steps : List ℤ
  pub code : r.area.chunks ≡ a.chunks ++ code_of_steps source size a.code_here steps
  pub here : r.area.code_here ≡ a.code_here + size_of_steps size steps
  pub compiled : r.area ≡ append_updates m steps a
  pub allowed : AllSteps m steps
  pub few : length steps ≤ pos_part (target -ℤ a.ip_at) + neg_part (target -ℤ a.ip_at)
  pub arrived : r.area.ip_at +ℤ r.left ≡ target
  pub low : l ≤ℤ r.left
  pub high : r.left ≤ℤ u

-- One step of the loop: towards 0, and not past it.
record Towards (m : Machine) (x step : ℤ) : Type 0 where
  low : m.min_ip_update ≤ℤ step
  high : step ≤ℤ m.max_ip_update
  nearer : distance (x -ℤ step) < distance x

module _ (m : Machine) (down : m.min_ip_update ≤ℤ negsuc 0) (up : pos 1 ≤ℤ m.max_ip_update)
    (source size : ℤ → ℕ) (prims : HasUpdates m source size) where
  clamp-Towards : (x : ℤ) → 0 < distance x → Towards m x (clamp m x)
  unfolding clamp ltz ◌-ℤ◌
  clamp-Towards (pos n) some_x = record {
    low = ground arith;
    high = ground arith;
    nearer = ground arith;
  }
  clamp-Towards (negsuc n) some_x = record {
    low = ground arith;
    high = ground arith;
    nearer = ground arith;
  }

  outside_within : (l u x : ℤ) → outside l u x ≡ false → (l ≤ℤ x) × (x ≤ℤ u)
  unfolding ltz
  outside_within l u x h = ground arith

  outside-distance : (l u x : ℤ) → l ≤ℤ pos 0 → pos 0 ≤ℤ u → outside l u x ≡ true → 0 < distance x
  unfolding ltz
  outside-distance l u x low high h = ground arith

  ip_step : (ip step target : ℤ) → target -ℤ (ip +ℤ step) ≡ (target -ℤ ip) -ℤ step
  unfolding ◌-ℤ◌ ◌+ℤ◌
  ip_step ip step target = eq_of_parts _ _ (ground arith)

  ip_arrived : (ip target : ℤ) → ip +ℤ (target -ℤ ip) ≡ target
  unfolding ◌-ℤ◌ ◌+ℤ◌
  ip_arrived ip target = eq_of_parts _ _ (ground arith)

  module _ (target l u : ℤ) (low : l ≤ℤ pos 0) (high : pos 0 ≤ℤ u) where
    Ends : Area → Option Updated → Type 0
    Ends a result = (r : Updated) × (result ≡ some r) × Reaches m source size target l u a r

    ip_at-append_update : (step : ℤ) (a : Area) → (append_update m step a).ip_at ≡ a.ip_at +ℤ step
    unfolding append_update
    ip_at-append_update step a = refl

    chunk_of : ℤ → Area → Chunk
    chunk_of step a = record { source = source step; at = a.code_here; length = size step }

    append_update-chunk_of :
        (step : ℤ) (a : Area)
        → m.min_ip_update ≤ℤ step
        → step ≤ℤ m.max_ip_update
        → ((append_update m step a).chunks ≡ a.chunks ++ (chunk_of step a ∷ []))
          × ((append_update m step a).code_here ≡ a.code_here + size step)
    unfolding append_update append_code chunk_of
    append_update-chunk_of step a low high =
        let (start, length) = prims step low high in rw (start, length) (refl, refl)

    code_of_steps-cons :
        (step : ℤ) (steps : List ℤ) (a next : Area) (chunks : List Chunk) (here : ℕ)
        → (next.chunks ≡ a.chunks ++ (chunk_of step a ∷ []))
          × (next.code_here ≡ a.code_here + size step)
        → chunks ≡ next.chunks ++ code_of_steps source size next.code_here steps
        → here ≡ next.code_here + size_of_steps size steps
        → (chunks ≡ a.chunks ++ code_of_steps source size a.code_here (step ∷ steps))
          × (here ≡ a.code_here + size_of_steps size (step ∷ steps))
    unfolding code_of_steps size_of_steps chunk_of
    code_of_steps-cons step steps a next chunks here (one, behind) code end = (
      code
          ∙ ap₂ (λ c h. c ++ code_of_steps source size h steps) one behind
          ∙ append_assoc a.chunks (chunk_of step a ∷ []) _,
      omega (arith, end, behind),
    )

    update_loop-Ends :
        (fuel : ℕ) (a : Area)
        → distance (target -ℤ a.ip_at) ≤ fuel
        → 0 < distance (target -ℤ a.ip_at)
        → Ends a (update_loop m fuel l u (target -ℤ a.ip_at) a)
    unfolding update_loop append_updates Ends code_of_steps size_of_steps
    update_loop-Ends zero a enough some_way = absurd (omega arith)
    update_loop-Ends (suc fuel) a enough some_way =
        let x = target -ℤ a.ip_at in
        let step = clamp m x in
        let next = append_update m step a in
        let toward = clamp-Towards x some_way in
        let one = append_update-chunk_of step a toward.low toward.high in
        let left : target -ℤ next.ip_at ≡ x -ℤ step =
          ap (λ ip. target -ℤ ip) (ip_at-append_update step a) ∙ ip_step a.ip_at step target in
        let nearer : distance (target -ℤ next.ip_at) < distance x =
          subst (λ d. distance d < distance x) (sym left) toward.nearer in
        elim (Bool-cases (outside l u (x -ℤ step))) [
          | inl beyond ↦
              let far : outside l u (target -ℤ next.ip_at) ≡ true =
                ap (outside l u) left ∙ beyond in
              let (r, ends, reaches) =
                update_loop-Ends fuel next (omega arith) (outside-distance l u _ low high far) in
              let (code, here) =
                code_of_steps-cons step reaches.steps a next _ _ one reaches.code reaches.here in
              (
                r,
                rw beyond (ap (λ d. update_loop m fuel l u d next) (sym left) ∙ ends),
                record {
                  steps = step ∷ reaches.steps;
                  code = code;
                  here = here;
                  compiled = reaches.compiled;
                  allowed = ((toward.low, toward.high), reaches.allowed);
                  few = omega (arith, reaches.few, nearer);
                  arrived = reaches.arrived;
                  low = reaches.low;
                  high = reaches.high;
                },
              )
          | inr done ↦
              let within = outside_within l u (x -ℤ step) done in
              let (code, here) =
                code_of_steps-cons step [] a next next.chunks next.code_here one
                  (sym (append-nil next.chunks)) (omega arith) in
              (
                record { area = next; left = x -ℤ step },
                rw done refl,
                record {
                  steps = step ∷ [];
                  code = code;
                  here = here;
                  compiled = refl;
                  allowed = ((toward.low, toward.high), tt);
                  few = omega (arith, some_way);
                  arrived = ap (λ d. next.ip_at +ℤ d) (sym left) ∙ ip_arrived next.ip_at target;
                  low = within.0;
                  high = within.1;
                },
              )
        ]

    -- `append_ip_update1` with updates of the instruction pointer in use, where there is a primitive
    -- for a step of one cell in each direction, each step up to the bounds has a primitive with code, and
    -- the range [l,u] contains 0: the loop ends, after no more rounds than there are cells to the
    -- target; what it appends is the code of a sequence of such steps, each piece copied from the
    -- start of the primitive for its step, with its length up to the jump, right behind the piece in
    -- front of it; and the instruction pointer arrives at a place from which the target is the
    -- returned difference away, a difference in [l,u].
    pub append_ip_update1_lem :
        (a : Area)
        → 0 < m.opt_ip_updates
        → (r : Updated) × (append_ip_update1 m target l u a ≡ some r)
          × Reaches m source size target l u a r
    unfolding append_ip_update1 append_updates Ends code_of_steps size_of_steps
    append_ip_update1_lem a in_use =
        let x = target -ℤ a.ip_at in
        let used : (m.opt_ip_updates == 0) ≡ false = ground arith in
        elim (Bool-cases (outside l u x)) [
          | inl beyond ↦
              let some_way = outside-distance l u x low high beyond in
              let (r, ends, reaches) = update_loop-Ends (distance x) a (omega arith) some_way in
              (r, rw (used, beyond) ends, reaches)
          | inr done ↦
              let within = outside_within l u x done in
              (
                record { area = a; left = x },
                rw (used, done) refl,
                record {
                  steps = [];
                  code = sym (append-nil a.chunks);
                  here = omega arith;
                  compiled = refl;
                  allowed = tt;
                  few = omega arith;
                  arrived = ip_arrived a.ip_at target;
                  low = within.0;
                  high = within.1;
                },
              )
        ]
