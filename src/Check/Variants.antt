-- ===== src/Check/Variants.antt =====
-- engine/main.c: the offsets of the updates of the instruction pointer that `check_prims` notes.
use gforth.Prelude.{
  ℕ, zero, suc, ◌+◌, ◌-◌, ◌≤◌, ◌<◌, ◌≡◌, ◌≢◌, ◌⊎◌, refl, ◌∙◌, sym, ap, subst, arith, Bool, true,
  false, ◌&&◌, Bool-cases, inl, inr, ltb, ◌==◌, if◌then◌else◌, List, [], ◌∷◌, Option, none, some,
  set, ℕ_discrete,
}
use gforth.Prelude.Int.{ℤ, pos, negsuc}
use gforth.Check.{Source, Checked, Engines, Entry, entry_at, has_start, note_max}
use gforth.Check.Copies.{IsCopyable}

-- The entry at a place is that of a variant that is copied.
abbrev pub IsVariant : List Entry → ℕ → ℤ → Type 0
IsVariant done i o =
    (q : Entry) × (entry_at done i ≡ some q)
    × (has_start q.info.start ≡ true)
    × (q.source.ip_offset ≡ o)

-- The entries, in reverse order: what can be copied is the same in both engines, and the offsets that
-- are noted are those of variants that can be copied, one behind the other.
pub record Good (e : Engines) (done : List Entry) : Type 0 where
  pub copies :
      (i start : ℕ) (q : Entry)
      → entry_at done i ≡ some q
      → q.info.start ≡ some start
      → (start ≡ q.source.symbol1) × IsCopyable e q.source q.info
  pub later :
      (i k : ℕ) (q : Entry)
      → entry_at done i ≡ some q
      → 0 < k
      → k ≤ q.info.max_ip_offset
      → (k ≤ i) × IsVariant done (i - k) (pos k)
  pub earlier :
      (i k : ℕ) (q : Entry)
      → entry_at done i ≡ some q
      → k < q.info.min_ip_offset
      → IsVariant done (i + suc k) (negsuc k)

-- The entry but for its `max_ip_offset`.
abbrev plain : Entry → Entry
plain q = record q { info = record q.info { max_ip_offset = 0 } }

entry_at-set_ne :
    (done : List Entry) (i j : ℕ) (x : Entry) → i ≢ j → entry_at (set done i x) j ≡ entry_at done j
unfolding entry_at
entry_at-set_ne [] i j x ne = refl
entry_at-set_ne (q ∷ done) zero zero x ne = absurd (ne refl)
entry_at-set_ne (q ∷ done) zero (suc j) x ne = refl
entry_at-set_ne (q ∷ done) (suc i) zero x ne = refl
entry_at-set_ne (q ∷ done) (suc i) (suc j) x ne = entry_at-set_ne done i j x (λ s. ne (ap suc s))

entry_at-set :
    (done : List Entry) (i : ℕ) (q x : Entry)
    → entry_at done i ≡ some q
    → entry_at (set done i x) i ≡ some x
unfolding entry_at
entry_at-set [] i q x h = absurd (ground (arith, h))
entry_at-set (p ∷ done) zero q x h = refl
entry_at-set (p ∷ done) (suc i) q x h = entry_at-set done i q x h

-- What an entry was before: the same up to its `max_ip_offset`, which may have grown to `o` at `o-1`.
record Before (done : List Entry) (o : ℕ) (copied : Bool) (i : ℕ) (q : Entry) : Type 0 where
  old : Entry
  there : entry_at done i ≡ some old
  like : plain q ≡ plain old
  offset :
      (q.info.max_ip_offset ≡ old.info.max_ip_offset)
      ⊎ ((o ≡ suc i) × (q.info.max_ip_offset ≡ o) × (old.info.max_ip_offset ≡ i) × (copied ≡ true))

-- Every entry is an old one, and every old one is still there.
pub record Noted (done : List Entry) (o : ℕ) (copied : Bool) (noted : List Entry) : Type 0 where
  back : (i : ℕ) (q : Entry) → entry_at noted i ≡ some q → Before done o copied i q
  forth :
      (i : ℕ) (old : Entry)
      → entry_at done i ≡ some old
      → (q : Entry) × (entry_at noted i ≡ some q) × (plain q ≡ plain old)

pub unchanged-Noted : (done : List Entry) (o : ℕ) (copied : Bool) → Noted done o copied done
unchanged-Noted done o copied = record {
  back = λ i q h. record { old = q; there = h; like = refl; offset = inl refl };
  forth = λ i old h. (old, h, refl);
}

value_of : Entry → Option Entry → Entry
value_of d none = d
value_of d (some q) = q

set-Noted :
    (done : List Entry) (i : ℕ) (q : Entry) (copied : Bool)
    → entry_at done i ≡ some q
    → copied ≡ true
    → q.info.max_ip_offset ≡ i
    → Noted done
        (suc i)
        copied
        (set done i (record q { info = record q.info { max_ip_offset = suc i } }))
unfolding value_of
set-Noted done i q copied h is_copied full =
    let x = record q { info = record q.info { max_ip_offset = suc i } } in
    let at_i = entry_at-set done i q x h in
    record {
      back = λ j p there. elim (ℕ_discrete i j) [
        | yes same ↦
            let now : some x ≡ some p = sym at_i ∙ ap (entry_at (set done i x)) same ∙ there in
            let px : x ≡ p = ap (value_of q) now in
            record {
              old = q;
              there = ap (entry_at done) (sym same) ∙ h;
              like = sym (ap plain px);
              offset = inr (
                ap suc same,
                sym (ap (λ (p : Entry). p.info.max_ip_offset) px),
                full ∙ same,
                is_copied,
              );
            }
        | no ne ↦ record {
          old = p;
          there = sym (entry_at-set_ne done i j x ne) ∙ there;
          like = refl;
          offset = inl refl;
        }
      ];
      forth = λ j old there. elim (ℕ_discrete i j) [
        | yes same ↦
            let qo : q ≡ old = ap (value_of q) (sym h ∙ ap (entry_at done) same ∙ there) in
            (x, ap (entry_at (set done i x)) (sym same) ∙ at_i, ap plain qo)
        | no ne ↦ (old, entry_at-set_ne done i j x ne ∙ there, refl)
      ];
    }

pub and_true : (a b : Bool) → a && b ≡ true → (a ≡ true) × (b ≡ true)
and_true true b h = (refl, h)
and_true false b h = absurd (ground (arith, h))

pub note_max-Noted :
    (done : List Entry) (o : ℕ) (pi : Checked)
    → 0 < o
    → Noted done o (has_start pi.start) (note_max o pi done)
unfolding note_max
note_max-Noted done o pi some_offset = go (entry_at done (o - 1)) refl
  where
    go :
        (r : Option Entry)
        → entry_at done (o - 1) ≡ r
        → Noted done o (has_start pi.start) (elim r [
          | none ↦ done
          | some q ↦
              if has_start pi.start && q.info.max_ip_offset == o - 1
              then set done (o - 1) (record q { info = record q.info { max_ip_offset = o } })
              else done
        ])
    go none h = unchanged-Noted done o (has_start pi.start)
    go (some q) h = elim (Bool-cases (has_start pi.start && q.info.max_ip_offset == o - 1)) [
      | inr no_test ↦ rw no_test (unchanged-Noted done o (has_start pi.start))
      | inl test ↦
          rw test
            let copied : has_start pi.start ≡ true = (and_true (has_start pi.start) _ test).0 in
              let full : q.info.max_ip_offset ≡ o - 1 =
                ground
                  (arith, (and_true (has_start pi.start) (q.info.max_ip_offset == o - 1) test).1) in
              subst
                (λ n.
                  Noted done n (has_start pi.start)
                    (set done (o - 1) (record q { info = record q.info { max_ip_offset = n } })))
                (omega (arith, some_offset))
                (set-Noted done (o - 1) q (has_start pi.start) h copied full)
    ]

pub IsCopyable-min :
    (e : Engines) (s : Source) (pi : Checked) (least most : ℕ)
    → IsCopyable e s pi
    → IsCopyable e s (record pi { min_ip_offset = least; max_ip_offset = most })
IsCopyable-min e s pi least most c = record {
  endlabel = c.endlabel;
  nearest = c.nearest;
  size = c.size;
  body = c.body;
  jump = c.jump;
  same = c.same;
  allowed = c.allowed;
}

IsCopyable-plain :
    (e : Engines) (q old : Entry)
    → plain q ≡ plain old
    → IsCopyable e old.source old.info
    → IsCopyable e q.source q.info
IsCopyable-plain e q old like c =
    IsCopyable-min e q.source (plain q).info q.info.min_ip_offset q.info.max_ip_offset (
      subst (λ (r : Entry). IsCopyable e r.source r.info) (sym like)
        (IsCopyable-min e old.source old.info old.info.min_ip_offset 0 c))

module _ (e : Engines) (done noted : List Entry) (o : ℕ) (copied : Bool) (good : Good e done)
    (note : Noted done o copied noted) where
  IsVariant-noted : (i : ℕ) (n : ℤ) → IsVariant done i n → IsVariant noted i n
  IsVariant-noted i n (old, there, begins, offset) =
      let (q, now, like) = note.forth i old there in
      (
        q,
        now,
        ap (λ (r : Entry). has_start r.info.start) like ∙ begins,
        ap (λ (r : Entry). r.source.ip_offset) like ∙ offset,
      )

  -- A new entry in front of the noted ones.
  module _ (x : Entry)
      (new : (start : ℕ)
        → x.info.start ≡ some start
        → (start ≡ x.source.symbol1) × IsCopyable e x.source x.info)
      (none_yet : x.info.max_ip_offset ≡ 0)
      (variant : 0 < o
        → copied ≡ true
        → (has_start x.info.start ≡ true) × (x.source.ip_offset ≡ pos o))
      (before : (k : ℕ) → k < x.info.min_ip_offset → IsVariant noted k (negsuc k)) where
    cons_copies :
        (i start : ℕ) (q : Entry)
        → entry_at (x ∷ noted) i ≡ some q
        → q.info.start ≡ some start
        → (start ≡ q.source.symbol1) × IsCopyable e q.source q.info
    unfolding entry_at value_of
    cons_copies zero start q there begins =
        let same : x ≡ q = ap (value_of x) there in
        subst (λ (r : Entry). (start ≡ r.source.symbol1) × IsCopyable e r.source r.info) same
          (new start (ap (λ (r : Entry). r.info.start) same ∙ begins))
    cons_copies (suc j) start q there begins =
        let b = note.back j q there in
        let (label, copyable) =
          good.copies j start b.old b.there
            (ap (λ (r : Entry). r.info.start) (sym b.like) ∙ begins) in
        (
          label ∙ ap (λ (r : Entry). r.source.symbol1) (sym b.like),
          IsCopyable-plain e q b.old b.like copyable,
        )

    shifted :
        (j k : ℕ) (n : ℤ) → k ≤ j → IsVariant done (j - k) n → IsVariant (x ∷ noted) (suc j - k) n
    unfolding entry_at
    shifted j k n small found =
        let next : suc (j - k) ≡ suc j - k = omega (arith, small) in
        subst (λ i. IsVariant (x ∷ noted) i n) next (IsVariant-noted (j - k) n found)

    cons_later :
        (i k : ℕ) (q : Entry)
        → entry_at (x ∷ noted) i ≡ some q
        → 0 < k
        → k ≤ q.info.max_ip_offset
        → (k ≤ i) × IsVariant (x ∷ noted) (i - k) (pos k)
    unfolding entry_at value_of
    cons_later zero k q there some_k small =
        let same : x ≡ q = ap (value_of x) there in
        let most : q.info.max_ip_offset ≡ 0 =
          sym (ap (λ (r : Entry). r.info.max_ip_offset) same) ∙ none_yet in
        absurd (omega (arith, some_k, small, most))
    cons_later (suc j) k q there some_k small =
        let b = note.back j q there in
        elim b.offset [
          | inl same ↦
              let (less, found) =
                good.later j k b.old b.there some_k (omega (arith, small, same)) in
              (omega (arith, less), shifted j k (pos k) less found)
          | inr (next, most, old_most, is_copied) ↦ elim (Bool-cases (ltb j k)) [
            | inr within ↦
                let (less, found) =
                  good.later j k b.old b.there some_k (ground (arith, within, old_most)) in
                (omega (arith, less), shifted j k (pos k) less found)
            | inl last ↦
                let same : k ≡ suc j = ground (arith, last, small, most, next) in
                let first : 0 ≡ suc j - k = omega (arith, same) in
                let (begins, offset) = variant (omega (arith, next)) is_copied in
                (
                  omega (arith, same),
                  subst (λ i. IsVariant (x ∷ noted) i (pos k)) first
                      (x, refl, begins, offset ∙ ap pos (next ∙ sym same)),
                )
          ]
        ]

    cons_earlier :
        (i k : ℕ) (q : Entry)
        → entry_at (x ∷ noted) i ≡ some q
        → k < q.info.min_ip_offset
        → IsVariant (x ∷ noted) (i + suc k) (negsuc k)
    unfolding entry_at value_of
    cons_earlier zero k q there small =
        let same : x ≡ q = ap (value_of x) there in
        let least : x.info.min_ip_offset ≡ q.info.min_ip_offset =
          ap (λ (r : Entry). r.info.min_ip_offset) same in
        let place : suc k ≡ 0 + suc k = omega arith in
        subst (λ i. IsVariant (x ∷ noted) i (negsuc k)) place
          (before k (omega (arith, small, least)))
    cons_earlier (suc j) k q there small =
        let b = note.back j q there in
        let least : q.info.min_ip_offset ≡ b.old.info.min_ip_offset =
          ap (λ (r : Entry). r.info.min_ip_offset) b.like in
        let place : suc (j + suc k) ≡ suc j + suc k = omega arith in
        subst (λ i. IsVariant (x ∷ noted) i (negsuc k)) place
          (IsVariant-noted (j + suc k) (negsuc k)
            (good.earlier j k b.old b.there (omega (arith, small, least))))

    pub cons-Good : Good e (x ∷ noted)
    cons-Good = record { copies = cons_copies; later = cons_later; earlier = cons_earlier }
