-- ===== src/Check/Copies.antt =====
-- engine/main.c: a primitive that `check_prims` lets copy has the same code in both engines.
use gforth.Prelude.{
  ℕ, zero, suc, ◌+◌, ◌-◌, ◌<◌, ◌≡◌, refl, ◌∙◌, sym, ap, arith, Bool, true, false, not, ◌&&◌, ◌||◌,
  Bool-cases, inl, inr, ltb, ◌==◌, if◌then◌else◌, Option, none, some, length,
}
use native.Mathlib.Numerals.{unary_clauses}
use gforth.Prelude.Int.{eq_of_parts, ℤ, pos, pos_part, ◌+ℤ◌, ◌-ℤ◌, ◌≤ℤ◌}
use gforth.Code.{ltz, address_of}
use gforth.Check.{
  bsearch_next, Source, Checked, Engines, difference, without_start, same_code, adjust,
  compare_code, check_ended, initial_info, check_label, check_one,
}
use gforth.Check.Search.{IsSorted, IsNext, bsearch_next-IsNext}

-- What a primitive that can be copied is: its code goes up to the J label `endlabel`, the first behind its
-- start, and is the same in the second engine.
pub record IsCopyable (e : Engines) (s : Source) (pi : Checked) : Type 0 where
  pub endlabel : ℕ
  pub nearest : IsNext (s.symbol1 + 1) e.labels 0 (length e.labels) (some endlabel)
  pub size : pi.length +ℤ pi.restlength ≡ pos (endlabel - s.symbol1)
  pub body : pos 0 ≤ℤ pi.length
  pub jump : pos 0 ≤ℤ pi.restlength
  pub same :
      (j : ℕ) → j < endlabel - s.symbol1 → e.memory (s.symbol1 + j) ≡ e.memory (s.symbol2 + j)
  pub allowed : e.check_prim s.symbol1 (difference s.end1 s.symbol1) ≡ false

both_true : (a b : Bool) → (if a then b else false) ≡ true → (a ≡ true) × (b ≡ true)
both_true true b h = (refl, h)
both_true false b h = absurd (ground (arith, h))

same_code_at :
    (memory : ℕ → ℕ) (s1 s2 n j : ℕ)
    → same_code memory s1 s2 n ≡ true
    → j < n
    → memory (s1 + j) ≡ memory (s2 + j)
unfolding same_code
same_code_at memory s1 s2 zero j same inside = absurd (omega arith)
same_code_at memory s1 s2 (suc n) zero same inside =
    let (one, rest) =
      both_true (memory s1 == memory s2) (same_code memory (s1 + 1) (s2 + 1) n) same in
    simp unary_clauses (ground (arith, one))
same_code_at memory s1 s2 (suc n) (suc j) same inside =
    let (one, rest) =
      both_true (memory s1 == memory s2) (same_code memory (s1 + 1) (s2 + 1) n) same in
    ap memory (omega arith)
    ∙ same_code_at memory (s1 + 1) (s2 + 1) n j rest (omega arith)
    ∙ ap memory (omega arith)

-- The lengths after the adjustment.
record IsMeasured (whole : ℤ) (pi : Checked) : Type 0 where
  all : pi.length +ℤ pi.restlength ≡ whole
  body : pos 0 ≤ℤ pi.length
  jump : pos 0 ≤ℤ pi.restlength

adjust-IsMeasured :
    (whole : ℤ) (pi : Checked)
    → pos 0 ≤ℤ whole
    → pi.restlength ≡ whole -ℤ pi.length
    → IsMeasured whole (adjust whole pi)
unfolding adjust ltz ◌+ℤ◌ ◌-ℤ◌
adjust-IsMeasured whole pi up rest =
    elim (Bool-cases (ltz pi.length (pos 0) || ltz pi.restlength (pos 0))) [
      | inl bad ↦
          rw bad (record { all = eq_of_parts _ _ (ground arith); body = up; jump = omega arith })
      | inr good ↦ rw good (record {
        all = ap (λ r. pi.length +ℤ r) rest ∙ eq_of_parts _ _ (ground arith);
        body = ground (arith, good);
        jump = ground (arith, good);
      })
    ]

whole_size : (label start : ℕ) → start < label → difference label start ≡ pos (label - start)
unfolding difference ◌-ℤ◌
whole_size label start above = ground arith

module _ (e : Engines) (s : Source) where
  Copies : Checked → Type 0
  Copies pi = (start : ℕ) → pi.start ≡ some start → (start ≡ s.symbol1) × IsCopyable e s pi

  no_start : (pi : Checked) → Copies (without_start pi)
  unfolding Copies
  no_start pi start h = absurd (ground (arith, h))

  compare_code-Copies :
      (endlabel : ℕ) (pi : Checked)
      → IsNext (s.symbol1 + 1) e.labels 0 (length e.labels) (some endlabel)
      → e.check_prim s.symbol1 (difference s.end1 s.symbol1) ≡ false
      → pi.start ≡ some s.symbol1
      → IsMeasured (difference endlabel s.symbol1) pi
      → Copies (compare_code e s pi)
  unfolding compare_code Copies
  compare_code-Copies endlabel pi next allowed begins measured =
      let (i, above, inside, here, high, earlier) = next in
      let n = pos_part (pi.length +ℤ pi.restlength) in
      let size = measured.all ∙ whole_size endlabel s.symbol1 (omega (arith, high)) in
      let count : n ≡ endlabel - s.symbol1 = ap pos_part size in
      elim (Bool-cases (same_code e.memory s.symbol1 s.symbol2 n)) [
        | inl same ↦ rw same (λ start h. (
          ap address_of (sym h ∙ begins),
          record {
            endlabel = endlabel;
            nearest = next;
            size = size;
            body = measured.body;
            jump = measured.jump;
            same = λ j less.
                same_code_at e.memory s.symbol1 s.symbol2 n j same (omega (arith, less, count));
            allowed = allowed;
          },
        ))
        | inr differ ↦ rw differ (no_start pi)
      ]

  adjust-start : (whole : ℤ) (pi : Checked) → (adjust whole pi).start ≡ pi.start
  unfolding adjust
  adjust-start whole pi = elim (Bool-cases (ltz pi.length (pos 0) || ltz pi.restlength (pos 0))) [
    | inl bad ↦ rw bad refl
    | inr good ↦ rw good refl
  ]

  check_label-Copies :
      (label : Option ℕ)
      → IsNext (s.symbol1 + 1) e.labels 0 (length e.labels) label
      → Copies (check_label e s label).info
  unfolding check_label check_ended initial_info Copies
  check_label-Copies none next = λ start h. absurd (ground (arith, h))
  check_label-Copies (some endlabel) next =
      let pi = initial_info e s endlabel in
      let whole = difference endlabel s.symbol1 in
      let early =
        ltb endlabel s.end1 && not pi.superend || ltb s.end1 s.symbol1 && not pi.superend in
      let (i, above, inside, here, high, earlier) = next in
      let up : pos 0 ≤ℤ whole =
        rw (whole_size endlabel s.symbol1 (omega (arith, high))) (omega arith) in
      elim (Bool-cases early) [
        | inl bad ↦ rw bad (λ start h. absurd (ground (arith, h)))
        | inr good ↦ elim (Bool-cases (e.check_prim s.symbol1 (difference s.end1 s.symbol1))) [
          | inl refused ↦ rw (good, refused) (λ start h. absurd (ground (arith, h)))
          | inr allowed ↦
              rw (good, allowed)
                (compare_code-Copies endlabel (adjust whole pi) next allowed
                  (adjust-start whole pi ∙ refl) (adjust-IsMeasured whole pi up refl))
        ]
      ]

  -- A round of `check_prims` on sorted J labels: a primitive that is left relocatable starts at its own
  -- label; its code and its jump have lengths that are not negative, and end together at the first J
  -- label behind its start; the second engine has the same bytes there; and the machine's own check
  -- allows it.
  pub check_one-IsCopyable :
      (start : ℕ)
      → IsSorted e.labels 0 (length e.labels)
      → (check_one e s).info.start ≡ some start
      → (start ≡ s.symbol1) × IsCopyable e s (check_one e s).info
  unfolding check_one Copies
  check_one-IsCopyable start sorted h =
      let n = length e.labels in
      check_label-Copies (bsearch_next n (s.symbol1 + 1) e.labels 0 n)
        (bsearch_next-IsNext n (s.symbol1 + 1) e.labels 0 n (omega arith) sorted) start h
