-- ===== src/Profile/Counts.antt =====
-- engine/profile.c: the table counts the runs of every block.
use gforth.Prelude.{
  ℕ, zero, suc, ◌+◌, ◌≡◌, ◌≢◌, refl, ◌∙◌, sym, ap, subst, arith, true, false, Bool-cases, inl, inr,
  ◌==◌, if◌then◌else◌, List, [], ◌∷◌, Option, none, some,
}
use gforth.Profile.{
  BlockCount, Blocks, bucket, find_ip, block_lookup, with_chain, new_block, insert_absent,
  block_insert, change_block, count_run, vm_count_block, count_all,
}

-- How often an address is in a list.
unfoldable pub occurrences : ℕ → List ℕ → ℕ
occurrences ip [] = 0
occurrences ip (jp ∷ ips) = (if jp == ip then 1 else 0) + occurrences ip ips

-- What the profile says of a block: that it never ran, or its count.
unfoldable pub runs : Option BlockCount → Option ℕ
runs none = none
runs (some b) = some b.count

-- `n` more runs; a block that never ran and does not run now has no entry.
unfoldable pub more_runs : ℕ → Option ℕ → Option ℕ
more_runs zero o = o
more_runs (suc n) none = some (suc n)
more_runs (suc n) (some m) = some (m + suc n)

get_with_chain :
    (h : ℕ) (chain : List BlockCount) (blocks : Blocks) → with_chain h chain blocks h ≡ chain
unfolding with_chain
get_with_chain h chain blocks = let same : (h == h) ≡ true = ground arith in rw same refl

-- The chain of an address in a table with another chain.
lookup_with_chain :
    (ip jp : ℕ) (chain : List BlockCount) (blocks : Blocks)
    → runs (find_ip ip chain) ≡ runs (find_ip ip (blocks (bucket jp)))
    → runs (block_lookup ip (with_chain (bucket jp) chain blocks)) ≡ runs (block_lookup ip blocks)
unfolding block_lookup with_chain
lookup_with_chain ip jp chain blocks same = elim (Bool-cases (bucket ip == bucket jp)) [
  | inl here ↦
      let place : bucket ip ≡ bucket jp = ground (arith, here) in
      rw here (same ∙ ap (λ h. runs (find_ip ip (blocks h))) (sym place))
  | inr other ↦ rw other refl
]

-- The change of another block.
change_other :
    (ip jp : ℕ) (chain : List BlockCount)
    → jp ≢ ip
    → runs (find_ip ip (change_block count_run jp chain)) ≡ runs (find_ip ip chain)
unfolding change_block find_ip count_run
change_other ip jp [] differ = refl
change_other ip jp (b ∷ chain) differ = elim (Bool-cases (b.ip == jp)) [
  | inl here ↦
      let other : (b.ip == ip) ≡ false = ground (arith, here, differ) in rw (here, other) refl
  | inr there ↦ elim (Bool-cases (b.ip == ip)) [
    | inl found ↦ rw (there, found) refl
    | inr later ↦ rw (there, later) (change_other ip jp chain differ)
  ]
]

count_of : Option BlockCount → ℕ
count_of none = 0
count_of (some b) = b.count

change_same :
    (ip : ℕ) (chain : List BlockCount) (b : BlockCount)
    → find_ip ip chain ≡ some b
    → runs (find_ip ip (change_block count_run ip chain)) ≡ some (b.count + 1)
unfolding change_block find_ip count_run runs count_of
change_same ip [] b found = absurd (ground (arith, found))
change_same ip (c ∷ chain) b found = elim (Bool-cases (c.ip == ip)) [
  | inl here ↦
      let first : (if c.ip == ip then some c else find_ip ip chain) ≡ some c = rw here refl in
      rw (here, here) (ap (λ o. some (count_of o + 1)) (sym first ∙ found))
  | inr there ↦
      let later : (if c.ip == ip then some c else find_ip ip chain) ≡ find_ip ip chain =
        rw there refl in
      rw (there, there) (change_same ip chain b (sym later ∙ found))
]

find_new :
    (ip : ℕ) (chain : List BlockCount) → find_ip ip (new_block ip ∷ chain) ≡ some (new_block ip)
unfolding find_ip
find_new ip chain = let same : (ip == ip) ≡ true = ground arith in rw same refl

more_runs_zero : (o : Option ℕ) → o ≡ more_runs 0 o
unfolding more_runs
more_runs_zero o = refl

insert_other :
    (ip jp : ℕ) (blocks : Blocks)
    → jp ≢ ip
    → runs (block_lookup ip (block_insert jp blocks)) ≡ runs (block_lookup ip blocks)
unfolding block_insert insert_absent find_ip
insert_other ip jp blocks differ = go (block_lookup jp blocks)
  where
    go :
        (o : Option BlockCount)
        → runs (block_lookup ip (insert_absent jp o blocks)) ≡ runs (block_lookup ip blocks)
    go (some b) = refl
    go none =
        let other : (jp == ip) ≡ false = ground (arith, differ) in
        lookup_with_chain ip jp (new_block jp ∷ blocks (bucket jp)) blocks (rw other refl)

-- After `block_insert` the chain has the block, with the count that it had.
insert_same :
    (ip : ℕ) (blocks : Blocks)
    → (b : BlockCount) × (find_ip ip (block_insert ip blocks (bucket ip)) ≡ some b)
      × (some (b.count + 1) ≡ more_runs 1 (runs (block_lookup ip blocks)))
unfolding block_insert insert_absent block_lookup runs more_runs
insert_same ip blocks = go (block_lookup ip blocks) refl
  where
    go :
        (o : Option BlockCount)
        → block_lookup ip blocks ≡ o
        → (b : BlockCount) × (find_ip ip (insert_absent ip o blocks (bucket ip)) ≡ some b)
          × (some (b.count + 1) ≡ more_runs 1 (runs o))
    go (some b) found = (b, found, refl)
    go none absent =
        let chain = new_block ip ∷ blocks (bucket ip) in
        (
          new_block ip,
          ap (find_ip ip) (get_with_chain (bucket ip) chain blocks)
              ∙ find_new ip (blocks (bucket ip)),
          ap some (omega arith),
        )

vm_count_block-same :
    (ip : ℕ) (blocks : Blocks)
    → let inserted = block_insert ip blocks in
      runs (
        block_lookup ip
          (with_chain (bucket ip) (change_block count_run ip (inserted (bucket ip))) inserted))
      ≡ more_runs 1 (runs (block_lookup ip blocks))
unfolding block_lookup
vm_count_block-same ip blocks =
    let inserted = block_insert ip blocks in
    let chain = change_block count_run ip (inserted (bucket ip)) in
    let (b, found, counted) = insert_same ip blocks in
    ap (λ c. runs (find_ip ip c)) (get_with_chain (bucket ip) chain inserted)
    ∙ change_same ip (inserted (bucket ip)) b found
    ∙ counted

vm_count_block-runs :
    (ip jp : ℕ) (blocks : Blocks)
    → runs (block_lookup ip (vm_count_block jp blocks))
      ≡ more_runs (if jp == ip then 1 else 0) (runs (block_lookup ip blocks))
unfolding vm_count_block more_runs
vm_count_block-runs ip jp blocks =
    let inserted = block_insert jp blocks in
    let chain = change_block count_run jp (inserted (bucket jp)) in
    elim (Bool-cases (jp == ip)) [
      | inr other ↦
          let differ : jp ≢ ip = λ same. ground (arith, other, same) in
          rw other (
            lookup_with_chain ip jp chain inserted
              (change_other ip jp (inserted (bucket jp)) differ)
            ∙ insert_other ip jp blocks differ)
      | inl same ↦
          let one : jp ≡ ip = ground (arith, same) in
          rw same (
            subst
              (λ i.
                runs (block_lookup i (with_chain (bucket jp) chain inserted))
                ≡ more_runs 1 (runs (block_lookup i blocks)))
              one (vm_count_block-same jp blocks))
    ]

left_zero : (b : ℕ) → b ≡ 0 + b
left_zero b = omega arith

right_zero : (a : ℕ) → a ≡ a + 0
right_zero a = omega arith

suc_left : (a b : ℕ) → suc a + b ≡ suc (a + b)
suc_left a b = omega arith

sum_left : (m a b : ℕ) → m + suc a + suc b ≡ m + suc (a + suc b)
sum_left m a b = omega arith

more_runs_add : (a b : ℕ) (o : Option ℕ) → more_runs b (more_runs a o) ≡ more_runs (a + b) o
unfolding more_runs
more_runs_add zero b o = ap (λ n. more_runs n o) (left_zero b)
more_runs_add (suc a) zero o = ap (λ n. more_runs n o) (right_zero (suc a))
more_runs_add (suc a) (suc b) none =
    ap some (suc_left a (suc b)) ∙ ap (λ n. more_runs n none) (sym (suc_left a (suc b)))
more_runs_add (suc a) (suc b) (some m) =
    ap some (sum_left m a b) ∙ ap (λ n. more_runs n (some m)) (sym (suc_left a (suc b)))

-- `vm_count_block` for any sequence of blocks: in the table that it leaves, `block_lookup` finds exactly
-- the blocks that it found before and those of the sequence, each with its count before and as many more
-- as it is in the sequence.
pub count_all-runs :
    (ip : ℕ) (ips : List ℕ) (blocks : Blocks)
    → runs (block_lookup ip (count_all ips blocks))
      ≡ more_runs (occurrences ip ips) (runs (block_lookup ip blocks))
unfolding count_all occurrences
count_all-runs ip [] blocks = more_runs_zero (runs (block_lookup ip blocks))
count_all-runs ip (jp ∷ ips) blocks =
    count_all-runs ip ips (vm_count_block jp blocks)
    ∙ ap (more_runs (occurrences ip ips)) (vm_count_block-runs ip jp blocks)
    ∙ more_runs_add (if jp == ip then 1 else 0) (occurrences ip ips) (runs (block_lookup ip blocks))
