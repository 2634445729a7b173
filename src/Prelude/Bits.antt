-- ===== src/Prelude/Bits.antt =====
-- `&`, `|` and `^` as recursions on binary digits, and their laws for masks and disjoint fields.
use Prim.Native.Nat.{ℕ, zero, suc, ◌+◌, ◌*◌, ◌-◌, ◌/◌, ◌%◌, ◌^◌, ◌≤◌, ◌<◌, min, max}
use Prim.Native.Nat.{bit_and, bit_or, bit_xor, differ, digits, bitwise}
use Prim.Native.Nat.{bit_and-bitwise, bit_or-bitwise, bit_xor-bitwise}
use mathlib.Core.Path.{◌≡◌, refl, ap, ap₂, ◌∙◌}
use native.Mathlib.Nat.{pow-suc, one-le-pow}
use native.Mathlib.Omega.{arith}

-- The native operations stand for a recursion with a count of digits. The count may be any number
-- that is not below the first operand.
module _ (tail : ℕ → ℕ) (digit : ℕ → ℕ → ℕ) where
  enough : (a b n m : ℕ) → a ≤ n → a ≤ m → digits tail digit n a b ≡ digits tail digit m a b
  enough zero b zero zero p q = refl
  enough zero b zero (suc m) p q = refl
  enough zero b (suc n) zero p q = refl
  enough zero b (suc n) (suc m) p q = refl
  enough (suc a) b zero m p q = absurd (omega arith)
  enough (suc a) b (suc n) zero p q = absurd (omega arith)
  enough (suc a) b (suc n) (suc m) p q =
      let rest = enough (suc a / 2) (b / 2) n m (omega arith) (omega arith) in
      ap (λ (t : ℕ). t * 2 + digit (suc a % 2) (b % 2)) rest

  -- The lowest digit first, then twice what the other digits give.
  lowest_digit :
      (a b : ℕ)
      → bitwise tail digit (suc a) b
        ≡ digit (suc a % 2) (b % 2) + 2 * bitwise tail digit (suc a / 2) (b / 2)
  lowest_digit a b =
      omega (arith, enough (suc a / 2) (b / 2) a (suc a / 2) (omega arith) (omega arith))

pub and_halves : (a b : ℕ) → bit_and a b ≡ min (a % 2) (b % 2) + 2 * bit_and (a / 2) (b / 2)
and_halves zero b = omega (arith, bit_and-bitwise 0 b, bit_and-bitwise 0 (b / 2))
and_halves (suc a) b = simp bit_and-bitwise (lowest_digit (λ _. 0) min a b)

pub or_halves : (a b : ℕ) → bit_or a b ≡ max (a % 2) (b % 2) + 2 * bit_or (a / 2) (b / 2)
or_halves zero b = omega (arith, bit_or-bitwise 0 b, bit_or-bitwise 0 (b / 2))
or_halves (suc a) b = simp bit_or-bitwise (lowest_digit (λ y. y) max a b)

pub xor_halves : (a b : ℕ) → bit_xor a b ≡ differ (a % 2) (b % 2) + 2 * bit_xor (a / 2) (b / 2)
xor_halves zero b = omega (arith, bit_xor-bitwise 0 b, bit_xor-bitwise 0 (b / 2))
xor_halves (suc a) b = simp bit_xor-bitwise (lowest_digit (λ y. y) differ a b)

pub or-zero : (n a : ℕ) → a ≤ n → bit_or a 0 ≡ a
or-zero n zero h = refl
or-zero zero (suc a) h = absurd (omega arith)
or-zero (suc n) (suc a) h = omega (arith, or_halves (suc a) 0, or-zero n (suc a / 2) (omega arith))

pub and-zero : (n a : ℕ) → a ≤ n → bit_and a 0 ≡ 0
and-zero n zero h = refl
and-zero zero (suc a) h = absurd (omega arith)
and-zero (suc n) (suc a) h =
    omega (arith, and_halves (suc a) 0, and-zero n (suc a / 2) (omega arith))

double_pow : (q k : ℕ) → q * 2 ^ suc k ≡ 2 * (q * 2 ^ k)
double_pow q k = omega (arith, ap (λ (t : ℕ). q * t) (pow-suc 2 k))

-- A high field or-ed with a low one that fits below it is their sum.
pub bit_or_join : (k q r : ℕ) → r < 2 ^ k → bit_or (q * 2 ^ k) r ≡ q * 2 ^ k + r
bit_or_join zero q r h = ground (arith, or-zero q q)
bit_or_join (suc k) q r h = ground (
  arith,
  or_halves (q * 2 ^ suc k) r,
  double_pow q k,
  pow-suc 2 k,
  bit_or_join k q (r / 2) (omega (arith, pow-suc 2 k)),
)

bit_and_join : (k q r : ℕ) → r < 2 ^ k → bit_and (q * 2 ^ k + r) (2 ^ k - 1) ≡ r
bit_and_join zero q r h = ground (arith, and-zero (q + r) (q + r))
bit_and_join (suc k) q r h = ground (
  arith,
  and_halves (q * 2 ^ suc k + r) (2 ^ suc k - 1),
  double_pow q k,
  pow-suc 2 k,
  one-le-pow k 2,
  bit_and_join k q (r / 2) (omega (arith, pow-suc 2 k)),
)

-- A mask of the `k` lowest bits is the remainder by `2 ^ k`.
pub bit_and_mask : (k a : ℕ) → bit_and a (2 ^ k - 1) ≡ a % 2 ^ k
bit_and_mask k a = ground (arith, one-le-pow k 2, bit_and_join k (a / 2 ^ k) (a % 2 ^ k))

-- A mask with zeros in the `k` lowest bits.
pub bit_and_high :
    (k q r m : ℕ) → r < 2 ^ k → bit_and (q * 2 ^ k + r) (m * 2 ^ k) ≡ bit_and q m * 2 ^ k
bit_and_high zero q r m h =
    let same : q * 1 + r ≡ q = omega (arith, h) in
    let mask : m * 1 ≡ m = omega arith in ap₂ bit_and same mask ∙ omega arith
bit_and_high (suc k) q r m h = ground (
  arith,
  and_halves (q * 2 ^ suc k + r) (m * 2 ^ suc k),
  double_pow q k,
  double_pow m k,
  double_pow (bit_and q m) k,
  pow-suc 2 k,
  bit_and_high k q (r / 2) m (omega (arith, pow-suc 2 k)),
)

-- An exclusive or acts on the high and on the low digits.
pub bit_xor_split :
    (k qa ra qb rb : ℕ)
    → ra < 2 ^ k
    → rb < 2 ^ k
    → bit_xor (qa * 2 ^ k + ra) (qb * 2 ^ k + rb) ≡ bit_xor qa qb * 2 ^ k + bit_xor ra rb
bit_xor_split zero qa ra qb rb p q =
    let a_none : ra ≡ 0 = omega (arith, p) in
    let b_none : rb ≡ 0 = omega (arith, q) in
    let low : bit_xor ra rb ≡ 0 = ap₂ bit_xor a_none b_none in
    let a_eq : qa * 1 + ra ≡ qa = omega (arith, p) in
    let b_eq : qb * 1 + rb ≡ qb = omega (arith, q) in omega (arith, low, ap₂ bit_xor a_eq b_eq)
bit_xor_split (suc k) qa ra qb rb p q = ground (
  arith,
  xor_halves (qa * 2 ^ suc k + ra) (qb * 2 ^ suc k + rb),
  xor_halves ra rb,
  double_pow qa k,
  double_pow qb k,
  double_pow (bit_xor qa qb) k,
  bit_xor_split k qa (ra / 2) qb (rb / 2) (omega (arith, p, pow-suc 2 k))
      (omega (arith, q, pow-suc 2 k)),
)

differ-lt : (x y : ℕ) → x < 2 → y < 2 → differ x y < 2
differ-lt zero zero p q = omega arith
differ-lt zero (suc y) p q = omega arith
differ-lt (suc x) zero p q = omega arith
differ-lt (suc x) (suc y) p q = differ-lt x y (omega arith) (omega arith)

-- The places from `k` on of an exclusive or.
pub bit_xor_high :
    (k qa ra qb rb : ℕ)
    → ra < 2 ^ k
    → rb < 2 ^ k
    → (r : ℕ) × (r < 2 ^ k)
      × (bit_xor (qa * 2 ^ k + ra) (qb * 2 ^ k + rb) ≡ bit_xor qa qb * 2 ^ k + r)
bit_xor_high zero qa ra qb rb p q = (0, omega arith, ground (arith, ap₂ bit_xor a_eq b_eq))
  where
    a_eq : qa * 1 + ra ≡ qa
    a_eq = omega arith

    b_eq : qb * 1 + rb ≡ qb
    b_eq = omega arith
bit_xor_high (suc k) qa ra qb rb p q =
    let (r, bound, eq) =
      bit_xor_high k qa (ra / 2) qb (rb / 2) (omega (arith, pow-suc 2 k))
        (omega (arith, pow-suc 2 k)) in
    let low = differ-lt (ra % 2) (rb % 2) (omega arith) (omega arith) in
    (
      r * 2 + differ (ra % 2) (rb % 2),
      omega (arith, pow-suc 2 k),
      ground (
        arith,
        xor_halves (qa * 2 ^ suc k + ra) (qb * 2 ^ suc k + rb),
        double_pow qa k,
        double_pow qb k,
        double_pow (bit_xor qa qb) k,
        eq,
      ),
    )
