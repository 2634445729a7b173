-- ===== src/Strings/Names.antt =====
-- engine/support.c: what `listlfind` and `tablelfind` find.
use gforth.Prelude.{
  ℕ, ◌≡◌, ◌≢◌, refl, ◌∙◌, sym, ap, ap₂, inl, inr, arith, true, false, Bool-cases, ltb, ◌==◌, List,
  [], ◌∷◌, Option, none, some, length, map, length-map, get_or, drop,
}
use gforth.Prelude.Int.{sub_ℕ}
use gforth.Strings.{memcmp, ascii_toupper, memcasecmp, is_zero, Longname, listlfind, tablelfind}

-- The first word with `P`.
pub data Finds (P : Longname → Type 0) : List Longname → Option Longname → Type 0 where
  nothing : Finds P [] none
  here : {w : Longname} {ws : List Longname} → P w → Finds P (w ∷ ws) (some w)
  there :
      {w : Longname} {ws : List Longname} {o : Option Longname}
      → ¬ P w
      → Finds P ws o
      → Finds P (w ∷ ws) o

different : (c d : ℕ) → c ≢ d → is_zero (sub_ℕ c d) ≢ true
unfolding is_zero
different c d ne z = ground (arith, ne, z)

true-ne-false : true ≢ false
true-ne-false e = ground (arith, e)

memcasecmp_same :
    (s x : List ℕ)
    → length x ≡ length s
    → is_zero (memcasecmp s x (length s)) ≡ true
    → map ascii_toupper x ≡ map ascii_toupper s
unfolding memcasecmp is_zero
memcasecmp_same [] [] e z = refl
memcasecmp_same [] (d ∷ x) e z = absurd (omega arith)
memcasecmp_same (c ∷ s) [] e z = absurd (omega arith)
memcasecmp_same (c ∷ s) (d ∷ x) e z = elim (Bool-cases (ascii_toupper c == ascii_toupper d)) [
  | inl h ↦ ap₂ (◌∷◌) (ground (arith, h)) (memcasecmp_same s x (omega arith) (rw h at z))
  | inr ne ↦ elim (Bool-cases (ltb (ascii_toupper c) (ascii_toupper d))) [
    | inl l ↦ absurd (ground (arith, rw (ne, l) at z))
    | inr g ↦ absurd (ground (arith, rw (ne, g) at z))
  ]
]

same_memcasecmp :
    (s x : List ℕ)
    → map ascii_toupper x ≡ map ascii_toupper s
    → is_zero (memcasecmp s x (length s)) ≡ true
unfolding memcasecmp is_zero
same_memcasecmp [] x e = refl
same_memcasecmp (c ∷ s) [] e = absurd (omega (arith, ap length e))
same_memcasecmp (c ∷ s) (d ∷ x) e =
    let first : ascii_toupper d ≡ ascii_toupper c = ap (λ l. get_or l 0 0) e in
    let same : ascii_toupper c == ascii_toupper d ≡ true = ground (arith, first) in
    rw same (same_memcasecmp s x (ap (drop 1) e))

memcmp_same : (s x : List ℕ) → length x ≡ length s → is_zero (memcmp s x (length s)) ≡ true → x ≡ s
unfolding memcmp is_zero
memcmp_same [] [] e z = refl
memcmp_same [] (d ∷ x) e z = absurd (omega arith)
memcmp_same (c ∷ s) [] e z = absurd (omega arith)
memcmp_same (c ∷ s) (d ∷ x) e z = elim (Bool-cases (c == d)) [
  | inl h ↦ ap₂ (◌∷◌) (ground (arith, h)) (memcmp_same s x (omega arith) (rw h at z))
  | inr ne ↦ absurd (different c d (ground (arith, ne)) (rw ne at z))
]

same_memcmp : (s x : List ℕ) → x ≡ s → is_zero (memcmp s x (length s)) ≡ true
unfolding memcmp is_zero
same_memcmp [] x e = refl
same_memcmp (c ∷ s) [] e = absurd (omega (arith, ap length e))
same_memcmp (c ∷ s) (d ∷ x) e =
    let first : d ≡ c = ap (λ l. get_or l 0 0) e in
    let same : c == d ≡ true = ground (arith, first) in rw same (same_memcmp s x (ap (drop 1) e))

-- `listlfind` finds the first word whose name is the string up to the case of ASCII letters, and
-- nothing exactly when there is none.
pub listlfind-Finds :
    (s : List ℕ) (ws : List Longname)
    → Finds (λ w. map ascii_toupper w.name ≡ map ascii_toupper s) ws (listlfind s ws)
unfolding listlfind
listlfind-Finds s [] = nothing
listlfind-Finds s (w ∷ ws) =
    let rest = listlfind-Finds s ws in
    elim (Bool-cases (length w.name == length s)) [
      | inl e ↦ elim (Bool-cases (is_zero (memcasecmp s w.name (length s)))) [
        | inl z ↦ rw (e, z) (here (memcasecmp_same s w.name (ground (arith, e)) z))
        | inr nz ↦
            rw (e, nz) (there (λ h. true-ne-false (sym (same_memcasecmp s w.name h) ∙ nz)) rest)
      ]
      | inr ne ↦ rw ne (
          there
            (λ h. ground (
              arith,
              ne,
              sym (length-map w.name ascii_toupper) ∙ ap length h ∙ length-map s ascii_toupper,
            ))
            rest)
    ]

-- `tablelfind` finds the first word whose name is the string, and nothing exactly when there is
-- none.
pub tablelfind-Finds :
    (s : List ℕ) (ws : List Longname) → Finds (λ w. w.name ≡ s) ws (tablelfind s ws)
unfolding tablelfind
tablelfind-Finds s [] = nothing
tablelfind-Finds s (w ∷ ws) =
    let rest = tablelfind-Finds s ws in
    elim (Bool-cases (length w.name == length s)) [
      | inl e ↦ elim (Bool-cases (is_zero (memcmp s w.name (length s)))) [
        | inl z ↦ rw (e, z) (here (memcmp_same s w.name (ground (arith, e)) z))
        | inr nz ↦ rw (e, nz) (there (λ h. true-ne-false (sym (same_memcmp s w.name h) ∙ nz)) rest)
      ]
      | inr ne ↦ rw ne (there (λ h. ground (arith, ne, ap length h)) rest)
    ]
