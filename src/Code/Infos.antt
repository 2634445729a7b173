-- ===== src/Code/Infos.antt =====
-- engine/main.c: the growing array of records on generated code (DynamicInfo), and decompilation with
-- it. A pointer to a threaded-code cell is its address, a pointer into the array an index.
use gforth.Prelude.{
  ℕ, zero, suc, ◌+◌, ◌-◌, ◌*◌, ◌/◌, ◌^◌, ◌≤◌, ◌<◌, ◌≡◌, refl, ◌∙◌, sym, ap, ap₂, arith, bit_and,
  Bool-cases, inl, inr, ltb, ◌==◌, if◌then◌else◌, List, [], ◌∷◌, ◌++◌, Option, none, some, get_or,
  length, length-append, take, drop,
}
use mathlib.Core.Option as Option
use native.Mathlib.Nat.{one-le-pow, pow-suc}
use gforth.Prelude.Bits.{and_halves}
use native.Mathlib.Numerals.{unary_clauses}
use gforth.Prelude.Int.{ℤ, pos, negsuc}
use gforth.Super.{canonical_state}
use gforth.Code.{Machine}

pub record DynamicInfo : Type 0 where
  pub tcp : ℕ
  pub length : ℤ
  pub prim : ℕ
  pub seqlen : ℕ
  pub start_state : ℕ
  pub end_state : ℕ

-- The entries in use, and how many there is memory for.
pub record Infos : Type 0 where
  pub dynamicinfos : List DynamicInfo
  pub capacity : ℕ

-- `dynamic_info3`
unfoldable pub dynamic_info3 : ℕ → List DynamicInfo → Option ℕ
dynamic_info3 tcp [] = none
dynamic_info3 tcp (di ∷ infos) =
    if di.tcp == tcp then some 0 else Option.map (λ i. i + 1) (dynamic_info3 tcp infos)

-- `add_dynamic_info`, with what its caller stores in the new entry.
unfoldable pub add_dynamic_info : DynamicInfo → Infos → Infos
add_dynamic_info di s =
    let old = length s.dynamicinfos in
    let new = old + 1 in
    record {
      dynamicinfos = s.dynamicinfos ++ (di ∷ []);
      capacity = if bit_and old new == 0 then 2 * new else s.capacity;
    }

-- `prim_index`, on the labels in front of the NULL.
unfoldable pub prim_index : List ℕ → ℕ → Option ℕ
prim_index [] code = none
prim_index (label ∷ labels) code =
    if label == code then some 0 else Option.map (λ i. i + 1) (prim_index labels code)

-- The static record that `decompile_prim3` fills where nothing is known of the cell. The initializer
-- has five values, so that they go to the fields in front of `end_state`.
unfoldable pub static_info : Machine → ℕ → Option ℕ → Option DynamicInfo
static_info m tcp none =
    some (record {
      tcp = tcp;
      length = negsuc 0;
      prim = 0;
      seqlen = 0;
      start_state = 0;
      end_state = 0;
    })
static_info m tcp (some p) =
    let c = m.super_costs p in
    if c.state_in == canonical_state
    then (if c.state_out == canonical_state
        then some (record {
          tcp = tcp;
          length = pos 0;
          prim = p;
          seqlen = c.state_in;
          start_state = c.state_out;
          end_state = 0;
        })
        else none)
    else none

unfoldable pub info_at : List DynamicInfo → ℕ → Option DynamicInfo
info_at [] i = none
info_at (di ∷ infos) zero = some di
info_at (di ∷ infos) (suc i) = info_at infos i

-- `decompile_prim3` of a cell that holds `code`.
unfoldable pub decompile_prim3 : Machine → List DynamicInfo → ℕ → ℕ → Option DynamicInfo
decompile_prim3 m infos tcp code = elim (dynamic_info3 tcp infos) [
  | none ↦ static_info m tcp (prim_index m.labels code)
  | some i ↦ info_at infos i
]

-- The label of the first simple primitive that `p` stands for.
unfoldable pub first_label : Machine → ℕ → ℕ
first_label m p =
    let c = m.super_costs p in
    let first = if ltb 1 c.length then get_or m.super2 c.offset 0 else c.offset in
    get_or m.labels first 0

unfoldable pub fetch_static : Machine → ℕ → Option ℕ → ℕ
fetch_static m x none = x
fetch_static m x (some p) = first_label m p

unfoldable pub info_prim : Option DynamicInfo → ℕ
info_prim none = 0
info_prim (some di) = di.prim

-- `fetch_decompile_prim` of a cell that holds `x`.
unfoldable pub fetch_decompile_prim : Machine → List DynamicInfo → ℕ → ℕ → ℕ
fetch_decompile_prim m infos tcp x = elim (dynamic_info3 tcp infos) [
  | none ↦ fetch_static m x (prim_index m.labels x)
  | some i ↦ first_label m (info_prim (info_at infos i))
]

-- The array has memory for a power of two that is above the number of entries.
pub record Grown (s : Infos) : Type 0 where
  pub k : ℕ
  pub above : length s.dynamicinfos < 2 ^ k
  pub below : 2 ^ k ≤ 2 * length s.dynamicinfos + 1
  pub memory : 0 < length s.dynamicinfos → 2 ^ k ≤ s.capacity

power_before : (k : ℕ) → bit_and (2 ^ k - 1) (2 ^ k) ≡ 0
power_before zero = refl
power_before (suc k) =
    let low : (2 ^ suc k - 1) / 2 ≡ 2 ^ k - 1 = omega (arith, pow-suc 2 k, one-le-pow k 2) in
    let high : 2 ^ suc k / 2 ≡ 2 ^ k = omega (arith, pow-suc 2 k) in
    and_halves (2 ^ suc k - 1) (2 ^ suc k)
    ∙ omega (arith, pow-suc 2 k, ap₂ bit_and low high, power_before k)

-- `add_dynamic_info` on an array that has grown so, as the empty one has: it has grown so again, and
-- the entry that is returned lies in the memory of the array, although the array only grows when no bit
-- is set in both the old number of entries and the new one.
pub add_dynamic_info-Grown :
    (di : DynamicInfo) (s : Infos)
    → Grown s
    → Grown (add_dynamic_info di s) × (length s.dynamicinfos < (add_dynamic_info di s).capacity)
unfolding add_dynamic_info
add_dynamic_info-Grown di s grown =
    let n = length s.dynamicinfos in
    let k = grown.k in
    let more : length (s.dynamicinfos ++ (di ∷ [])) ≡ n + 1 =
      length-append s.dynamicinfos (di ∷ []) in
    elim (Bool-cases (bit_and n (n + 1) == 0)) [
      | inl grows ↦ elim (Bool-cases (ltb (n + 1) (2 ^ k))) [
        | inl same ↦ (
          record {
            k = k;
            above = ground (arith, more);
            below = omega (arith, more, grown.below);
            memory = λ some_entry. rw grows (omega (arith, grown.below));
          },
          rw grows (omega arith),
        )
        | inr next ↦ (
          record {
            k = suc k;
            above = ground (arith, more, pow-suc 2 k, grown.above);
            below = ground (arith, more, pow-suc 2 k, grown.above);
            memory = λ some_entry. rw grows (ground (arith, pow-suc 2 k, grown.above));
          },
          rw grows (omega arith),
        )
      ]
      | inr keeps ↦
          let same : n + 1 < 2 ^ k = elim (Bool-cases (ltb (n + 1) (2 ^ k))) [
            | inl same ↦ ground (arith, same)
            | inr next ↦
                let low : n ≡ 2 ^ k - 1 = ground (arith, grown.above) in
                let high : n + 1 ≡ 2 ^ k = ground (arith, grown.above) in
                absurd (ground (arith, keeps, ap₂ bit_and low high, power_before k))
          ] in
          let some_entry : 0 < n = omega (arith, grown.below) in
          let memory = grown.memory some_entry in
          (
            record {
              k = k;
              above = omega (arith, more);
              below = omega (arith, more, grown.below);
              memory = λ some_more. rw keeps memory;
            },
            rw keeps (omega (arith, memory)),
          )
    ]

-- The primitive of the first entry for a cell.
prim_for : ℕ → List DynamicInfo → Option ℕ
prim_for tcp infos = Option.map (λ i. info_prim (info_at infos i)) (dynamic_info3 tcp infos)

fetch_with : Machine → ℕ → Option ℕ → ℕ
fetch_with m x none = fetch_static m x (prim_index m.labels x)
fetch_with m x (some p) = first_label m p

first_of : Option ℕ → Option ℕ → Option ℕ
first_of none b = b
first_of (some p) b = some p

fetch-prim_for :
    (m : Machine) (infos : List DynamicInfo) (tcp x : ℕ)
    → fetch_decompile_prim m infos tcp x ≡ fetch_with m x (prim_for tcp infos)
unfolding fetch_decompile_prim fetch_with prim_for
fetch-prim_for m infos tcp x = go (dynamic_info3 tcp infos)
  where
    go :
        (o : Option ℕ)
        → (elim o [
          | none ↦ fetch_static m x (prim_index m.labels x)
          | some i ↦ first_label m (info_prim (info_at infos i))
        ])
          ≡ fetch_with m x (Option.map (λ i. info_prim (info_at infos i)) o)
    go none = refl
    go (some i) = refl

prim_for-cons :
    (tcp : ℕ) (di : DynamicInfo) (infos : List DynamicInfo)
    → prim_for tcp (di ∷ infos) ≡ (if di.tcp == tcp then some di.prim else prim_for tcp infos)
unfolding prim_for dynamic_info3 info_at info_prim
prim_for-cons tcp di infos = elim (Bool-cases (di.tcp == tcp)) [
  | inl here ↦ rw here refl
  | inr later ↦ rw later (go (dynamic_info3 tcp infos))
]
  where
    go :
        (o : Option ℕ)
        → Option.map (λ i. info_prim (info_at (di ∷ infos) i)) (Option.map (λ i. i + 1) o)
          ≡ Option.map (λ i. info_prim (info_at infos i)) o
    go none = refl
    go (some i) = simp unary_clauses refl

prim_for-nil : (tcp : ℕ) → prim_for tcp [] ≡ none
unfolding prim_for dynamic_info3
prim_for-nil tcp = refl

prim_for-none :
    (tcp : ℕ) (infos : List DynamicInfo)
    → dynamic_info3 tcp infos ≡ none
    → prim_for tcp infos ≡ none
unfolding prim_for
prim_for-none tcp infos h = ap (Option.map (λ i. info_prim (info_at infos i))) h

first_of-none : (o : Option ℕ) → first_of o none ≡ o
unfolding first_of
first_of-none none = refl
first_of-none (some p) = refl

prim_for-append :
    (tcp : ℕ) (infos : List DynamicInfo) (di : DynamicInfo)
    → prim_for tcp (infos ++ (di ∷ []))
      ≡ first_of (prim_for tcp infos) (if di.tcp == tcp then some di.prim else none)
unfolding dynamic_info3 first_of
prim_for-append tcp [] di =
    prim_for-cons tcp di []
    ∙ ap (λ o. if di.tcp == tcp then some di.prim else o) (prim_for-nil tcp)
    ∙ sym (ap (λ o. first_of o (if di.tcp == tcp then some di.prim else none)) (prim_for-nil tcp))
prim_for-append tcp (e ∷ infos) di =
    prim_for-cons tcp e (infos ++ (di ∷ [])) ∙ elim (Bool-cases (e.tcp == tcp)) [
      | inl here ↦ rw (prim_for-cons tcp e infos, here) refl
      | inr later ↦ rw (prim_for-cons tcp e infos, later) (prim_for-append tcp infos di)
    ]

-- The simple primitives of the superinstruction `p`.
unfoldable pub parts : Machine → ℕ → List ℕ
parts m p = take (m.super_costs p).length (drop (m.super_costs p).offset m.super2)

-- A primitive stands for itself where it is simple, as the table of the superinstructions says too.
abbrev pub IsListed : Machine → ℕ → Type 0
IsListed m p =
    let c = m.super_costs p in
    (0 < c.length) × (c.length ≤ 1 → get_or m.super2 c.offset 0 ≡ c.offset)

first_part :
    (n k : ℕ) (table : List ℕ) → 0 < n → get_or (take n (drop k table)) 0 0 ≡ get_or table k 0
first_part zero k table some_part = absurd (omega (arith, some_part))
first_part (suc n) zero [] some_part = refl
first_part (suc n) zero (p ∷ table) some_part = refl
first_part (suc n) (suc k) [] some_part = refl
first_part (suc n) (suc k) (p ∷ table) some_part = first_part (suc n) k table some_part

first_label-parts :
    (m : Machine) (p : ℕ)
    → IsListed m p
    → first_label m p ≡ get_or m.labels (get_or (parts m p) 0 0) 0
unfolding first_label parts
first_label-parts m p (some_part, simple) =
    let c = m.super_costs p in
    let first = first_part c.length c.offset m.super2 some_part in
    elim (Bool-cases (ltb 1 c.length)) [
      | inl many ↦ rw many (ap (λ q. get_or m.labels q 0) (sym first))
      | inr one ↦
          rw one (ap (λ q. get_or m.labels q 0) (sym (first ∙ simple (ground (arith, one)))))
    ]

-- A cell for which `add_dynamic_info` made the first entry, with a primitive that stands for one simple
-- primitive or more in the table of the superinstructions, decompiles to the label of the first of
-- these, whatever the cell holds, and the other cells decompile as before.
pub fetch_decompile_prim-add :
    (m : Machine) (di : DynamicInfo) (s : Infos) (tcp x : ℕ)
    → IsListed m di.prim
    → dynamic_info3 di.tcp s.dynamicinfos ≡ none
    → fetch_decompile_prim m (add_dynamic_info di s).dynamicinfos tcp x ≡ (
        if di.tcp == tcp
        then get_or m.labels (get_or (parts m di.prim) 0 0) 0
        else fetch_decompile_prim m s.dynamicinfos tcp x)
unfolding add_dynamic_info fetch_with first_of
fetch_decompile_prim-add m di s tcp x listed fresh =
    fetch-prim_for m (s.dynamicinfos ++ (di ∷ [])) tcp x
    ∙ ap (fetch_with m x) (prim_for-append tcp s.dynamicinfos di)
    ∙ elim (Bool-cases (di.tcp == tcp)) [
      | inl here ↦
          let same : di.tcp ≡ tcp = ground (arith, here) in
          let new : prim_for tcp s.dynamicinfos ≡ none =
            prim_for-none tcp s.dynamicinfos
              (ap (λ t. dynamic_info3 t s.dynamicinfos) (sym same) ∙ fresh) in
          rw (here, new) (first_label-parts m di.prim listed)
      | inr other ↦
          rw (other, first_of-none (prim_for tcp s.dynamicinfos))
            (sym (fetch-prim_for m s.dynamicinfos tcp x))
    ]
