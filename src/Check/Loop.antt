-- ===== src/Check/Loop.antt =====
-- engine/main.c: the loop of `check_prims`.
use gforth.Prelude.{
  ℕ, suc, ◌+◌, ◌-◌, ◌≤◌, ◌<◌, ◌≡◌, refl, ◌∙◌, ap, subst, arith, Bool, true, false, not, ◌&&◌, ◌||◌,
  Bool-cases, inl, inr, ltb, if◌then◌else◌, List, [], ◌∷◌, Option, none, some, length,
}
use gforth.Prelude.Int.{ℤ, pos, negsuc, pos_part, eq_of_parts}
use gforth.Code.{ltz}
use gforth.Check.{
  Source, Checked, Engines, Entry, entry_at, has_start, is_offset, note_max, count_back,
  note_offsets, check_one, check_label, check_ended, initial_info, compare_code, adjust, check_step,
  check_prims,
}
use gforth.Check.Search.{IsSorted}
use gforth.Check.Copies.{IsCopyable, check_one-IsCopyable}
use gforth.Check.Variants.{
  IsVariant, Good, unchanged-Noted, note_max-Noted, and_true, IsCopyable-min, cons-Good,
}

neither : (a b : Bool) → not a || not b ≡ false → (a ≡ true) × (b ≡ true)
neither true true h = (refl, refl)
neither true false h = absurd (ground (arith, h))
neither false b h = absurd (ground (arith, h))

offset_equal : (a b : ℤ) → is_offset a b ≡ true → a ≡ b
unfolding is_offset ltz
offset_equal a b h = eq_of_parts a b (ground (arith, h))

-- Every predecessor that the loop over `k` counts is a variant.
count_back-IsVariant :
    (k n : ℕ) (done : List Entry)
    → k ≤ n
    → n < count_back k done
    → IsVariant done (n - k) (negsuc n)
unfolding count_back entry_at
count_back-IsVariant k n [] low counted = absurd (omega (arith, low, counted))
count_back-IsVariant k n (q ∷ done) low counted =
    let begins = has_start q.info.start in
    let right = is_offset q.source.ip_offset (negsuc k) in
    let rest = count_back (k + 1) done in
    elim (Bool-cases (not begins || not right)) [
      | inl stop ↦
          let here : (if not begins || not right then k else rest) ≡ k =
            ap (λ b. if b then k else rest) stop in
          absurd (omega (arith, low, counted, here))
      | inr found ↦
          let further : (if not begins || not right then k else rest) ≡ rest =
            ap (λ b. if b then k else rest) found in
          let (copied, same) = neither begins right found in
          elim (Bool-cases (ltb k n)) [
            | inl more ↦
                let less : k + 1 ≤ n = ground (arith, more) in
                let place : suc (n - (k + 1)) ≡ n - k = omega (arith, less) in
                subst (λ i. IsVariant (q ∷ done) i (negsuc n)) place
                  (count_back-IsVariant (k + 1) n done less (omega (arith, counted, further)))
            | inr last ↦
                let here : k ≡ n = ground (arith, last, low) in
                let place : 0 ≡ n - k = omega (arith, here) in
                subst (λ i. IsVariant (q ∷ done) i (negsuc n)) place
                  (
                    q,
                    refl,
                    copied,
                    offset_equal q.source.ip_offset (negsuc k) same ∙ ap negsuc here,
                  )
          ]
    ]

check_label-offsets :
    (e : Engines) (s : Source) (label : Option ℕ)
    → let pi = (check_label e s label).info in (pi.max_ip_offset ≡ 0) × (pi.min_ip_offset ≡ 0)
unfolding check_label check_ended initial_info compare_code adjust
check_label-offsets e s none = (refl, refl)
check_label-offsets e s (some l) = ground arith

check_one-offsets :
    (e : Engines) (s : Source)
    → let pi = (check_one e s).info in (pi.max_ip_offset ≡ 0) × (pi.min_ip_offset ≡ 0)
unfolding check_one
check_one-offsets e s = check_label-offsets e s _

least_IsVariant :
    (o : ℤ) (noted : List Entry) (k : ℕ)
    → k < (if is_offset o (pos 0) then count_back 0 noted else 0)
    → IsVariant noted k (negsuc k)
least_IsVariant o noted k small = elim (Bool-cases (is_offset o (pos 0))) [
  | inl base ↦
      let counted : k < count_back 0 noted =
        subst (λ b. k < (if b then count_back 0 noted else 0)) base small in
      let place : k - 0 ≡ k = omega arith in
      subst (λ i. IsVariant noted i (negsuc k)) place
        (count_back-IsVariant 0 k noted (omega arith) counted)
  | inr variant ↦
      absurd (omega (arith, subst (λ b. k < (if b then count_back 0 noted else 0)) variant small))
]

positive_offset : (o : ℤ) → ltz (pos 0) o ≡ true → (0 < pos_part o) × (o ≡ pos (pos_part o))
unfolding ltz
positive_offset o h = (ground (arith, h), eq_of_parts o (pos (pos_part o)) (ground (arith, h)))

module _ (e : Engines) (sorted : IsSorted e.labels 0 (length e.labels)) where
  note_offsets-Good :
      (s : Source) (pi : Checked) (done : List Entry)
      → ((start : ℕ) → pi.start ≡ some start → (start ≡ s.symbol1) × IsCopyable e s pi)
      → pi.max_ip_offset ≡ 0
      → Good e done
      → Good e (note_offsets e s pi done)
  unfolding note_offsets
  note_offsets-Good s pi done copies most good =
      let o = s.ip_offset in
      elim (Bool-cases (ltb 2 e.opt_ip_updates && ltz (pos 0) o)) [
        | inl up ↦
            let (some_offset, same) = positive_offset o (and_true _ (ltz (pos 0) o) up).1 in
            let noted = note_max (pos_part o) pi done in
            rw up (
              cons-Good e done noted (pos_part o) (has_start pi.start) good
                (note_max-Noted done (pos_part o) pi some_offset) _
                (λ start h.
                  ((copies start h).0, IsCopyable-min e s pi _ pi.max_ip_offset (copies start h).1))
                most (λ some_o copied. (copied, same)) (least_IsVariant o noted))
        | inr none_up ↦ rw none_up (
            cons-Good e done done 0 (has_start pi.start) good
              (unchanged-Noted done 0 (has_start pi.start)) _
              (λ start h.
                ((copies start h).0, IsCopyable-min e s pi _ pi.max_ip_offset (copies start h).1))
              most (λ some_o copied. absurd (omega (arith, some_o))) (least_IsVariant o done))
      ]

  check_step-Good : (s : Source) (done : List Entry) → Good e done → Good e (check_step e s done)
  unfolding check_step
  check_step-Good s done good =
      let pi = (check_one e s).info in
      let offsets = check_one-offsets e s in
      elim (Bool-cases (check_one e s).continues) [
        | inl left ↦ rw left (
            cons-Good e done done 0 false good (unchanged-Noted done 0 false)
              (record { source = s; info = pi })
              (λ start h. check_one-IsCopyable e s start sorted h) offsets.0
              (λ some_o copied. absurd (omega (arith, some_o)))
              (λ k small. absurd (omega (arith, small, offsets.1))))
        | inr whole ↦ rw whole (
            note_offsets-Good s pi done (λ start h. check_one-IsCopyable e s start sorted h)
              offsets.0 good)
      ]

  -- `check_prims` on sorted J labels: every primitive that it leaves relocatable has its code, up to the
  -- first J label behind its start, in both engines alike; and every offset that it notes for the updates
  -- of the instruction pointer, up to `max_ip_offset` and down to `min_ip_offset`, is that of a variant
  -- in the right place behind or before the primitive, and that variant is relocatable.
  pub check_prims-Good :
      (sources : List Source) (done : List Entry)
      → Good e done
      → Good e (check_prims e sources done)
  unfolding check_prims
  check_prims-Good [] done good = good
  check_prims-Good (s ∷ sources) done good =
      check_prims-Good sources (check_step e s done) (check_step-Good s done good)
