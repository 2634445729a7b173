-- ===== src/Check/Search.antt =====
-- engine/main.c: `bsearch_next` finds the closest label.
use gforth.Prelude.{
  ℕ, zero, suc, ◌+◌, ◌-◌, ◌/◌, ◌≤◌, ◌<◌, ◌≡◌, refl, ap, arith, Bool-cases, inl, inr, ltb, ◌==◌,
  List, Option, none, some, get_or,
}
use gforth.Check.{bsearch_next}

-- The labels from `lo` on, `n` of them, are sorted.
abbrev pub IsSorted : List ℕ → ℕ → ℕ → Type 0
IsSorted a lo n = (i j : ℕ) → lo ≤ i → i ≤ j → j < lo + n → get_or a i 0 ≤ get_or a j 0

-- The label is the first one that is not below the key, and without one all are below.
abbrev pub IsNext : ℕ → List ℕ → ℕ → ℕ → Option ℕ → Type 0
IsNext key a lo n none = (j : ℕ) → lo ≤ j → j < lo + n → get_or a j 0 < key
IsNext key a lo n (some x) =
    (i : ℕ) × (lo ≤ i)
    × (i < lo + n)
    × (get_or a i 0 ≡ x)
    × (key ≤ x)
    × ((j : ℕ) → lo ≤ j → j < i → get_or a j 0 < key)

IsNext-up :
    (key : ℕ) (a : List ℕ) (lo n k lo' n' : ℕ) (r : Option ℕ)
    → lo' ≡ lo + k
    → n' + k ≡ n
    → ((j : ℕ) → lo ≤ j → j < lo + k → get_or a j 0 < key)
    → IsNext key a lo' n' r
    → IsNext key a lo n r
IsNext-up key a lo n k lo' n' none first size below next = λ j above inside.
    elim (Bool-cases (ltb j (lo + k))) [
      | inl early ↦ below j above (ground (arith, early))
      | inr late ↦ next j (ground (arith, late, first)) (omega (arith, inside, first, size))
    ]
IsNext-up key a lo n k lo' n' (some x) first size below (i, above, inside, here, high, earlier) = (
  i,
  omega (arith, above, first),
  omega (arith, inside, first, size),
  here,
  high,
  λ j from before. elim (Bool-cases (ltb j (lo + k))) [
    | inl early ↦ below j from (ground (arith, early))
    | inr late ↦ earlier j (ground (arith, late, first)) before
  ],
)

IsNext-down :
    (key : ℕ) (a : List ℕ) (lo n k : ℕ) (r : Option ℕ)
    → k < n
    → key ≤ get_or a (lo + k) 0
    → IsNext key a lo (k + 1) r
    → IsNext key a lo n r
IsNext-down key a lo n k none small high next =
    let low = next (lo + k) (omega arith) (omega arith) in absurd (omega (arith, low, high))
IsNext-down key a lo n k (some x) small high (i, above, inside, here, big, earlier) =
    (i, above, omega (arith, inside, small), here, big, earlier)

same_index : (lo n j : ℕ) → n ≡ 1 → lo ≤ j → j < lo + n → j ≡ lo
same_index lo n j size from to = omega arith

-- `bsearch_next` on sorted labels, with as many calls as labels: the first label that is not below the
-- key, which is the closest, and NULL exactly when all are below.
pub bsearch_next-IsNext :
    (fuel key : ℕ) (a : List ℕ) (lo n : ℕ)
    → n ≤ fuel
    → IsSorted a lo n
    → IsNext key a lo n (bsearch_next fuel key a lo n)
unfolding bsearch_next
bsearch_next-IsNext zero key a lo n enough sorted =
    λ j above inside. absurd (omega (arith, above, inside, enough))
bsearch_next-IsNext (suc fuel) key a lo n enough sorted =
    let mid = (n - 1) / 2 in
    let up = bsearch_next fuel key a (lo + mid + 1) (n - mid - 1) in
    let down = bsearch_next fuel key a lo (mid + 1) in
    elim (Bool-cases (ltb n 1)) [
      | inl empty ↦
          let size : n < 1 = ground (arith, empty) in
          rw empty (λ j above inside. absurd (omega (arith, above, inside, size)))
      | inr some_labels ↦ elim (Bool-cases (n == 1)) [
        | inl one ↦
            let size : n ≡ 1 = ground (arith, one) in
            elim (Bool-cases (ltb (get_or a lo 0) key)) [
              | inl low ↦
                  rw (some_labels, one, low)
                    (λ j from to.
                      ground (arith, low, ap (λ i. get_or a i 0) (same_index lo n j size from to)))
              | inr high ↦
                  rw (some_labels, one, high)
                    (
                      lo,
                      omega arith,
                      omega (arith, size),
                      refl,
                      ground (arith, high),
                      λ j from before. absurd (omega (arith, from, before)),
                    )
            ]
        | inr more ↦
            let size : 2 ≤ n = ground (arith, some_labels, more) in
            elim (Bool-cases (ltb (get_or a (lo + mid) 0) key)) [
              | inl low ↦
                  let rest =
                    bsearch_next-IsNext fuel key a (lo + mid + 1) (n - mid - 1)
                      (omega (arith, enough, size))
                      (λ i j from between to.
                        sorted i j (omega (arith, from)) between (omega (arith, to, size))) in
                  rw (some_labels, more, low)
                    (IsNext-up key a lo n (mid + 1) (lo + mid + 1) (n - mid - 1) up (omega arith)
                      (omega (arith, size))
                      (λ j from to. ground (
                        arith,
                        low,
                        sorted j (lo + mid) from (omega (arith, to)) (omega (arith, size)),
                      ))
                      rest)
              | inr high ↦
                  let rest =
                    bsearch_next-IsNext fuel key a lo (mid + 1) (omega (arith, enough, size))
                      (λ i j from between to. sorted i j from between (omega (arith, to, size))) in
                  rw (some_labels, more, high)
                    (IsNext-down key a lo n mid down (omega (arith, size)) (ground (arith, high))
                      rest)
            ]
      ]
    ]
