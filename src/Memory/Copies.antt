-- ===== src/Memory/Copies.antt =====
-- engine/support.c, engine/memmove.c: what the copying loops leave in the memory.
use gforth.Prelude.{
  ℕ, zero, suc, ◌+◌, ◌≤◌, ◌<◌, ◌≡◌, ◌⊎◌, inl, inr, refl, ◌∙◌, sym, ap, subst, arith, Bool-cases,
  List, length, length-set, set, get_or-set_self, get_or-set_ne, ltb, ℕ_discrete,
}
use gforth.Memory.{byte, cmove, cmove_up, memmove}

-- The memory `new` is `mem` with the `u` bytes at `c_to` taken from `c_from`.
pub record IsCopied (mem : List ℕ) (c_from c_to u : ℕ) (new : List ℕ) : Type 0 where
  pub copied : (i : ℕ) → i < u → byte new (c_to + i) ≡ byte mem (c_from + i)
  pub kept : (a : ℕ) → (a < c_to) ⊎ (c_to + u ≤ a) → byte new a ≡ byte mem a
  pub size : length new ≡ length mem

-- Outside the target nothing changes, however the two overlap.
cmove-kept :
    (mem : List ℕ) (c_from c_to u a : ℕ)
    → (a < c_to) ⊎ (c_to + u ≤ a)
    → byte (cmove mem c_from c_to u) a ≡ byte mem a
unfolding cmove
cmove-kept mem c_from c_to zero a h = refl
cmove-kept mem c_from c_to (suc u) a h =
    let v = byte mem c_from in
    cmove-kept (set mem c_to v) (c_from + 1) (c_to + 1) u a (ground (arith, h))
    ∙ get_or-set_ne mem c_to a v 0 (λ e. ground (arith, h, e))

length-cmove : (mem : List ℕ) (c_from c_to u : ℕ) → length (cmove mem c_from c_to u) ≡ length mem
unfolding cmove
length-cmove mem c_from c_to zero = refl
length-cmove mem c_from c_to (suc u) =
    let v = byte mem c_from in
    length-cmove (set mem c_to v) (c_from + 1) (c_to + 1) u ∙ length-set mem c_to v

-- The lowest byte of the target.
cmove_first :
    (mem : List ℕ) (c_from c_to u : ℕ)
    → c_to < length mem
    → byte (cmove mem c_from c_to (suc u)) c_to ≡ byte mem c_from
unfolding cmove
cmove_first mem c_from c_to u room =
    let v = byte mem c_from in
    cmove-kept (set mem c_to v) (c_from + 1) (c_to + 1) u c_to (inl (omega arith))
    ∙ get_or-set_self mem c_to v 0 room

cmove_copied :
    (mem : List ℕ) (c_from c_to u i : ℕ)
    → c_to + u ≤ length mem
    → (c_to ≤ c_from) ⊎ (c_from + u ≤ c_to)
    → i < u
    → byte (cmove mem c_from c_to u) (c_to + i) ≡ byte mem (c_from + i)
unfolding cmove
cmove_copied mem c_from c_to zero i room apart h = absurd (omega arith)
cmove_copied mem c_from c_to (suc u) zero room apart h =
    ap (byte (cmove mem c_from c_to (suc u))) (omega arith)
    ∙ cmove_first mem c_from c_to u (omega arith)
    ∙ ap (byte mem) (omega arith)
cmove_copied mem c_from c_to (suc u) (suc i) room apart h =
    let v = byte mem c_from in
    let mem1 = set mem c_to v in
    let room1 : c_to + 1 + u ≤ length mem1 = omega (arith, room, length-set mem c_to v) in
    ap (byte (cmove mem1 (c_from + 1) (c_to + 1) u)) (omega arith)
    ∙ cmove_copied mem1 (c_from + 1) (c_to + 1) u i room1 (ground (arith, apart)) (omega arith)
    ∙ get_or-set_ne mem c_to (c_from + 1 + i) v 0 (λ e. ground (arith, apart, e))
    ∙ ap (byte mem) (omega arith)

cmove-IsCopied :
    (mem : List ℕ) (c_from c_to u : ℕ)
    → c_to + u ≤ length mem
    → (c_to ≤ c_from) ⊎ (c_from + u ≤ c_to)
    → IsCopied mem c_from c_to u (cmove mem c_from c_to u)
cmove-IsCopied mem c_from c_to u room apart = record {
  copied = λ i h. cmove_copied mem c_from c_to u i room apart h;
  kept = λ a h. cmove-kept mem c_from c_to u a h;
  size = length-cmove mem c_from c_to u;
}

-- `cmove` to a target above the source: in the memory that it leaves, each byte of the target is
-- the byte as far below it as the source begins below the target, so that an overlap repeats the
-- first bytes of the source.
pub cmove_repeats :
    (mem : List ℕ) (c_from c_to u i : ℕ)
    → c_to + u ≤ length mem
    → c_from < c_to
    → i < u
    → byte (cmove mem c_from c_to u) (c_to + i) ≡ byte (cmove mem c_from c_to u) (c_from + i)
unfolding cmove
cmove_repeats mem c_from c_to zero i room below h = absurd (omega arith)
cmove_repeats mem c_from c_to (suc u) zero room below h =
    let new = cmove mem c_from c_to (suc u) in
    ap (byte new) (omega arith)
    ∙ cmove_first mem c_from c_to u (omega arith)
    ∙ sym (cmove-kept mem c_from c_to (suc u) c_from (inl below))
    ∙ ap (byte new) (omega arith)
cmove_repeats mem c_from c_to (suc u) (suc i) room below h =
    let v = byte mem c_from in
    let mem1 = set mem c_to v in
    let new = cmove mem1 (c_from + 1) (c_to + 1) u in
    ap (byte new) (omega arith)
    ∙ cmove_repeats mem1 (c_from + 1) (c_to + 1) u i (omega (arith, room, length-set mem c_to v))
        (omega arith) (omega arith)
    ∙ ap (byte new) (omega arith)

cmove_up-IsCopied :
    (mem : List ℕ) (c_from c_to u : ℕ)
    → c_to + u ≤ length mem
    → (c_from ≤ c_to) ⊎ (c_to + u ≤ c_from)
    → IsCopied mem c_from c_to u (cmove_up mem c_from c_to u)
unfolding cmove_up
cmove_up-IsCopied mem c_from c_to zero room apart = record {
  copied = λ i h. absurd (omega (arith, h));
  kept = λ a h. refl;
  size = refl;
}
cmove_up-IsCopied mem c_from c_to (suc u) room apart =
    let v = byte mem (c_from + u) in
    let rest =
      cmove_up-IsCopied (set mem (c_to + u) v) c_from c_to u
        (omega (arith, room, length-set mem (c_to + u) v)) (ground (arith, apart)) in
    record {
      copied = λ i h. elim (ℕ_discrete u i) [
        | yes e ↦
            subst (λ j. byte (cmove_up mem c_from c_to (suc u)) (c_to + j) ≡ byte mem (c_from + j))
              e
              (rest.kept (c_to + u) (inr (omega arith))
                ∙ get_or-set_self mem (c_to + u) v 0 (omega (arith, room)))
        | no ne ↦
            rest.copied i (ground (arith, h, ne))
            ∙ get_or-set_ne mem (c_to + u) (c_from + i) v 0 (λ e. ground (arith, apart, h, ne, e))
      ];
      kept = λ a h.
          rest.kept a (ground (arith, h))
          ∙ get_or-set_ne mem (c_to + u) a v 0 (λ e. ground (arith, h, e));
      size = rest.size ∙ length-set mem (c_to + u) v;
    }

-- `memmove` into memory with room for it copies the `n` bytes as they were, however source and target overlap, and changes
-- nothing else.
pub memmove-IsCopied :
    (mem : List ℕ) (dest src n : ℕ)
    → dest + n ≤ length mem
    → IsCopied mem src dest n (memmove mem dest src n)
unfolding memmove
memmove-IsCopied mem dest src n room = elim (Bool-cases (ltb dest src)) [
  | inl below ↦ rw below (cmove-IsCopied mem src dest n room (inl (ground (arith, below))))
  | inr above ↦ rw above (cmove_up-IsCopied mem src dest n room (inl (ground (arith, above))))
]
