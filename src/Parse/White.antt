-- ===== src/Parse/White.antt =====
-- engine/support.c: `parse_white` finds the first word between white space.
use gforth.Prelude.{
  ℕ, ◌+◌, ◌≤◌, ◌<◌, ◌≡◌, inl, inr, arith, Bool, true, false, not, Bool-cases, ltb, List, [], ◌∷◌,
  length, length-drop, drop, take,
}
use gforth.Parse.{leading, Word, parse_white}

abbrev pub All : (ℕ → Type 0) → List ℕ → Type 0
All P [] = Unit
All P (c ∷ s) = P c × All P s

-- `P` holds of the first Char, if there is one.
abbrev pub Starts : (ℕ → Type 0) → List ℕ → Type 0
Starts P [] = Unit
Starts P (c ∷ s) = P c

-- The word is the Chars from `n1` on, `n2` of them.
pub record IsWord (isspace : ℕ → Bool) (s : List ℕ) (w : Word) : Type 0 where
  pub inside : w.n1 + w.n2 ≤ length s
  pub white : All (λ c. isspace c ≡ true) (take w.n1 s)
  pub chars : All (λ c. isspace c ≡ false) (take w.n2 (drop w.n1 s))
  pub ends : Starts (λ c. isspace c ≡ true) (drop w.n2 (drop w.n1 s))
  pub found : (w.n2 ≡ 0) → w.n1 ≡ length s

leading_bound : (test : ℕ → Bool) (s : List ℕ) → leading test s ≤ length s
unfolding leading
leading_bound test [] = omega arith
leading_bound test (c ∷ s) = let rest = leading_bound test s in ground (arith, rest)

leading-All : (test : ℕ → Bool) (s : List ℕ) → All (λ c. test c ≡ true) (take (leading test s) s)
unfolding leading
leading-All test [] = tt
leading-All test (c ∷ s) = elim (Bool-cases (test c)) [
  | inl e ↦ rw e (e, leading-All test s)
  | inr e ↦ rw e tt
]

leading-Starts :
    (test : ℕ → Bool) (s : List ℕ) → Starts (λ c. test c ≡ false) (drop (leading test s) s)
unfolding leading
leading-Starts test [] = tt
leading-Starts test (c ∷ s) = elim (Bool-cases (test c)) [
  | inl e ↦ rw e (leading-Starts test s)
  | inr e ↦ rw e e
]

-- A Char that is no space begins a word.
leading_some :
    (test : ℕ → Bool) (s : List ℕ)
    → 0 < length s
    → Starts (λ c. test c ≡ true) s
    → 0 < leading test s
unfolding leading
leading_some test [] h e = absurd (omega arith)
leading_some test (c ∷ s) h e = rw e (omega arith)

All-weaken : {P Q : ℕ → Type 0} (s : List ℕ) → ((c : ℕ) → P c → Q c) → All P s → All Q s
All-weaken [] f all = tt
All-weaken (c ∷ s) f (p, all) = (f c p, All-weaken s f all)

Starts-weaken : {P Q : ℕ → Type 0} (s : List ℕ) → ((c : ℕ) → P c → Q c) → Starts P s → Starts Q s
Starts-weaken [] f h = tt
Starts-weaken (c ∷ s) f h = f c h

no_Starts : (P : ℕ → Type 0) (s : List ℕ) → length s ≡ 0 → Starts P s
no_Starts P [] e = tt
no_Starts P (c ∷ s) e = absurd (omega (arith, e))

-- `parse_white`, whatever characters are white space: the word is inside the string, with white
-- space only in front of it and none in it, it ends at white space or at the end of the string, and
-- it is empty only when nothing but white space is left.
pub parse_white-IsWord :
    (isspace : ℕ → Bool) (s : List ℕ) → IsWord isspace s (parse_white isspace s)
unfolding parse_white
parse_white-IsWord isspace s =
    let white = leading isspace s in
    let s2 = drop white s in
    let test : ℕ → Bool = λ c. not (isspace c) in
    elim (Bool-cases (ltb white (length s))) [
      | inl more ↦ rw more (record {
        inside = omega (arith, leading_bound test s2, leading_bound isspace s, length-drop white s);
        white = leading-All isspace s;
        chars =
            All-weaken (take (leading test s2) s2) (λ c h. ground (arith, h)) (leading-All test s2);
        ends =
            Starts-weaken (drop (leading test s2) s2) (λ c h. ground (arith, h))
              (leading-Starts test s2);
        found = λ e. absurd (
            omega (
              arith,
              e,
              leading_some test s2 (ground (arith, more, length-drop white s))
                  (Starts-weaken s2 (λ c h. ground (arith, h)) (leading-Starts isspace s)),
            ));
      })
      | inr none_left ↦ rw none_left (record {
        inside = omega (arith, leading_bound isspace s);
        white = leading-All isspace s;
        chars = tt;
        ends =
            no_Starts (λ c. isspace c ≡ true) s2 (ground (arith, length-drop white s, none_left));
        found = λ e. ground (arith, none_left, leading_bound isspace s);
      })
    ]
