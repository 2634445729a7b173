-- ===== src/Super/Table/Sound.antt =====
-- engine/main.c: every list that `prepare_super_table` enters stands for its key.
use gforth.Prelude.{
  ℕ, zero, suc, ◌≡◌, ◌≤◌, Bool, if◌then◌else◌, refl, sym, ◌∙◌, subst, ap, ap₂, arith, true, false,
  not, ◌&&◌, Bool-cases, Option-cases, inl, inr, ◌==◌, List, [], ◌∷◌, Option, none, some, take,
  get_or, set, replicate, length,
}
use mathlib.Core.Option as Option
use gforth.Super.{
  Config, Entry, SuperTable, cost_of, start_of, hash_super, same_prims, lookup_chain, lookup_super,
  canonical_state, is_relocatable, lookup_ss,
}
use gforth.Super.Label.Valid.{All, KeyHolds, IsSound}
use gforth.Super.Table.{
  Prepared, change_chain, change_super, new_entry, replace, enter_known, enter, with_table,
  enter_transition, count_super, note_branch, is_entered, prepare_prim, prepare_prims,
  nothing_prepared, prepare_super_table,
}

same_prims-take : (n : ℕ) (xs ys : List ℕ) → same_prims n xs ys ≡ true → take n xs ≡ take n ys
unfolding same_prims
same_prims-take zero xs ys h = refl
same_prims-take (suc n) [] ys h = absurd (ground (arith, h))
same_prims-take (suc n) (x ∷ xs) [] h = absurd (ground (arith, h))
same_prims-take (suc n) (x ∷ xs) (y ∷ ys) h =
    let same : same_prims n xs ys ≡ true = ground (arith, h) in
    let first : x ≡ y = ground (arith, h) in ap₂ (◌∷◌) first (same_prims-take n xs ys same)

-- `P` holds of the value, if there is one.
data OptionHolds {A : Type 0} (P : A → Type 0) : Option A → Type 0 where
  at_none : OptionHolds P none
  at_some : {a : A} → P a → OptionHolds P (some a)

from_some : {A : Type 0} {P : A → Type 0} {a : A} → OptionHolds P (some a) → P a
from_some (at_some h) = h

OptionHolds-map :
    {A B : Type 0} (P : A → Type 0) (Q : B → Type 0) (f : A → B) (o : Option A)
    → ((a : A) → P a → Q (f a))
    → OptionHolds P o
    → OptionHolds Q (Option.map f o)
OptionHolds-map P Q f none keeps h = at_none
OptionHolds-map P Q f (some a) keeps (at_some h) = at_some (keeps a h)

OptionHolds-bind :
    {A B : Type 0} (P : A → Type 0) (Q : B → Type 0) (f : A → Option B) (o : Option A)
    → ((a : A) → P a → OptionHolds Q (f a))
    → OptionHolds P o
    → OptionHolds Q (Option.bind o f)
unfolding Option.bind
OptionHolds-bind P Q f none keeps h = at_none
OptionHolds-bind P Q f (some a) keeps (at_some h) = keeps a h

either_branch :
    {A : Type 0} {P : A → Type 0} {x y : Option A} (b : Bool)
    → OptionHolds P x
    → OptionHolds P y
    → OptionHolds P (if b then x else y)
either_branch true h h' = h
either_branch false h h' = h'

module _ (g : Config) where
  abbrev EntryHolds : Entry → Type 0
  EntryHolds e = All (KeyHolds g e.start e.length) e.ss_list

  abbrev ChainHolds : List Entry → Type 0
  ChainHolds [] = Unit
  ChainHolds (e ∷ es) = EntryHolds e × ChainHolds es

  -- Keys of the same primitives hold together.
  All-KeyHolds :
      (xs ys : List ℕ) (m n : ℕ) (ss : List ℕ)
      → m ≡ n
      → take n xs ≡ take n ys
      → All (KeyHolds g xs m) ss
      → All (KeyHolds g ys n) ss
  All-KeyHolds xs ys m n [] e same all = tt
  All-KeyHolds xs ys m n (s ∷ ss) e same ((len, parts), all) = (
    (len ∙ e, ap (λ j. take j (start_of g s)) (sym e) ∙ parts ∙ ap (λ j. take j xs) e ∙ same),
    All-KeyHolds xs ys m n ss e same all,
  )

  lookup_chain-KeyHolds :
      (es : List Entry) (start : List ℕ) (n : ℕ) (ss : List ℕ)
      → ChainHolds es
      → lookup_chain es start n ≡ some ss
      → All (KeyHolds g start n) ss
  unfolding lookup_chain
  lookup_chain-KeyHolds [] start n ss all h = absurd (Option.none-ne-some ss h)
  lookup_chain-KeyHolds (e ∷ es) start n ss (first, all) h =
      elim (Bool-cases (n == e.length && same_prims n e.start start)) [
        | inl hit ↦
            let found : e.ss_list ≡ ss = Option.some-injective e.ss_list ss (rw hit at h) in
            subst (All (KeyHolds g start n)) found (
              All-KeyHolds e.start start e.length n e.ss_list (ground (arith, hit))
                (same_prims-take n e.start start (ground (arith, hit))) first)
        | inr miss ↦ lookup_chain-KeyHolds es start n ss all (rw miss at h)
      ]

  change_chain-ChainHolds :
      (f : List ℕ → List ℕ) (es : List Entry) (start : List ℕ) (n : ℕ)
      → ((ss : List ℕ) → All (KeyHolds g start n) ss → All (KeyHolds g start n) (f ss))
      → ChainHolds es
      → ChainHolds (change_chain f es start n)
  unfolding change_chain
  change_chain-ChainHolds f [] start n keeps all = tt
  change_chain-ChainHolds f (e ∷ es) start n keeps (first, all) =
      elim (Bool-cases (n == e.length && same_prims n e.start start)) [
        | inl hit ↦
            let len : n ≡ e.length = ground (arith, hit) in
            let same = same_prims-take n e.start start (ground (arith, hit)) in
            let back : All (KeyHolds g e.start e.length) (f e.ss_list) =
              All-KeyHolds start e.start n e.length (f e.ss_list) len
                (ap (λ j. take j start) (sym len) ∙ sym same ∙ ap (λ j. take j e.start) len)
                (keeps e.ss_list
                  (All-KeyHolds e.start start e.length n e.ss_list (sym len) same first)) in
            rw hit (back, all)
        | inr miss ↦ rw miss (first, change_chain-ChainHolds f es start n keeps all)
      ]

  abbrev TableHolds : SuperTable → Type 0
  TableHolds t = (h : ℕ) → ChainHolds (get_or t h [])

  set-TableHolds :
      (t : SuperTable) (h : ℕ) (es : List Entry)
      → TableHolds t
      → ChainHolds es
      → TableHolds (set t h es)
  set-TableHolds [] h es all holds i = tt
  set-TableHolds (x ∷ t) zero es all holds zero = holds
  set-TableHolds (x ∷ t) zero es all holds (suc i) = all (suc i)
  set-TableHolds (x ∷ t) (suc h) es all holds zero = all 0
  set-TableHolds (x ∷ t) (suc h) es all holds (suc i) =
      set-TableHolds t h es (λ j. all (suc j)) holds i

  change_super-TableHolds :
      (f : List ℕ → List ℕ) (t : SuperTable) (start : List ℕ) (n : ℕ)
      → ((ss : List ℕ) → All (KeyHolds g start n) ss → All (KeyHolds g start n) (f ss))
      → TableHolds t
      → TableHolds (change_super f t start n)
  unfolding change_super
  change_super-TableHolds f t start n keeps all =
      let h = hash_super start n in
      set-TableHolds t h (change_chain f (get_or t h []) start n) all
        (change_chain-ChainHolds f (get_or t h []) start n keeps (all h))

  new_entry-TableHolds :
      (t : SuperTable) (start : List ℕ) (n s : ℕ)
      → KeyHolds g start n s
      → TableHolds t
      → TableHolds (new_entry t start n s)
  unfolding new_entry
  new_entry-TableHolds t start n s key all =
      set-TableHolds t (hash_super start n) _ all ((key, tt), all (hash_super start n))

  replace-All :
      (P : ℕ → Type 0) (old s : ℕ) (ss : List ℕ)
      → P s
      → All P ss
      → OptionHolds (All P) (replace old s ss)
  unfolding replace
  replace-All P old s [] h all = at_none
  replace-All P old s (x ∷ ss) h (first, all) = either_branch _ (at_some (h, all)) (
      OptionHolds-map (All P) (All P) (◌∷◌ x) (replace old s ss) (λ new rest. (first, rest))
        (replace-All P old s ss h all))

  own_key : (i : ℕ) → KeyHolds g (start_of g i) (cost_of g i).length i
  own_key i = (refl, refl)

  enter_known-TableHolds :
      (t : SuperTable) (i : ℕ) (ss : List ℕ)
      → TableHolds t
      → All (KeyHolds g (start_of g i) (cost_of g i).length) ss
      → OptionHolds TableHolds (enter_known g t i ss)
  unfolding enter_known
  enter_known-TableHolds t i ss all keys =
      let c = cost_of g i in
      let start = start_of g i in
      let Keys : List ℕ → Type 0 = All (KeyHolds g start c.length) in
      either_branch _
        (either_branch _
          (OptionHolds-map Keys TableHolds (λ new. change_super (λ old. new) t start c.length)
            (replace c.offset i ss)
            (λ new holds.
              change_super-TableHolds (λ old. new) t start c.length (λ old h. holds) all)
            (replace-All (KeyHolds g start c.length) c.offset i ss (own_key i) keys))
          at_none)
        (at_some
          (change_super-TableHolds (λ old. i ∷ old) t start c.length (λ old h. (own_key i, h)) all))

  lookup_super-KeyHolds :
      (t : SuperTable) (start : List ℕ) (n : ℕ)
      → TableHolds t
      → OptionHolds (All (KeyHolds g start n)) (lookup_super t start n)
  unfolding lookup_super
  lookup_super-KeyHolds t start n all =
      let es = get_or t (hash_super start n) [] in
      elim (Option-cases (lookup_chain es start n)) [
        | inl e ↦ rw e at_none
        | inr (ss, e) ↦
            rw e (at_some (lookup_chain-KeyHolds es start n ss (all (hash_super start n)) e))
      ]

  enter-TableHolds :
      (t : SuperTable) (i : ℕ) (o : Option (List ℕ))
      → TableHolds t
      → OptionHolds (All (KeyHolds g (start_of g i) (cost_of g i).length)) o
      → OptionHolds TableHolds (enter g t i o)
  unfolding enter
  enter-TableHolds t i none all keys =
      at_some (new_entry-TableHolds t (start_of g i) (cost_of g i).length i (own_key i) all)
  enter-TableHolds t i (some ss) all keys = enter_known-TableHolds t i ss all (from_some keys)

  -- The invariant of the loop.
  abbrev PreparedHolds : Prepared → Type 0
  PreparedHolds st = TableHolds st.tables.table × (2 ≤ st.tables.max_super)

  enter_transition-PreparedHolds :
      (st : Prepared) (i : ℕ)
      → PreparedHolds st
      → OptionHolds PreparedHolds (enter_transition g st i)
  unfolding enter_transition
  enter_transition-PreparedHolds st i holds =
      let c = cost_of g i in
      either_branch (not (is_relocatable g i)) (at_some holds) (
        either_branch (c.state_in == canonical_state && c.state_out == canonical_state)
          (either_branch (st.ip_update0 == 0) (at_some holds) at_none) (at_some holds))

  note_branch-PreparedHolds :
      (st : Prepared) (i : ℕ) (o : Option ℕ) → PreparedHolds st → PreparedHolds (note_branch st i o)
  unfolding note_branch
  note_branch-PreparedHolds st i none holds = holds
  note_branch-PreparedHolds st i (some ss) holds = holds

  prepare_prim-PreparedHolds :
      (st : Prepared) (i : ℕ) → PreparedHolds st → OptionHolds PreparedHolds (prepare_prim g st i)
  unfolding prepare_prim count_super with_table
  prepare_prim-PreparedHolds st i (all, supers) =
      let c = cost_of g i in
      let t = st.tables.table in
      either_branch c.branch_to_ip
        (at_some (
          note_branch-PreparedHolds st i
            (lookup_ss g t (start_of g i) c.length c.state_in c.state_out) (all, supers)))
        (either_branch (is_entered g st c)
          (OptionHolds-map PreparedHolds PreparedHolds (count_super c) _
            (λ st' h. (h.0, omega (arith, h.1)))
            (either_branch (c.offset == g.noop && not (i == g.noop))
              (enter_transition-PreparedHolds st i (all, supers))
              (OptionHolds-map TableHolds PreparedHolds (with_table st)
                (enter g t i (lookup_super t (start_of g i) c.length)) (λ t' h. (h, supers))
                (enter-TableHolds t i _ all
                  (lookup_super-KeyHolds t (start_of g i) c.length all)))))
          (at_some (all, supers)))

  prepare_prims-PreparedHolds :
      (i left : ℕ) (st : Prepared)
      → PreparedHolds st
      → OptionHolds PreparedHolds (prepare_prims g i left st)
  unfolding prepare_prims
  prepare_prims-PreparedHolds i zero st holds = at_some holds
  prepare_prims-PreparedHolds i (suc left) st holds =
      OptionHolds-bind PreparedHolds PreparedHolds (prepare_prims g (suc i) left)
        (prepare_prim g st i) (λ st' h. prepare_prims-PreparedHolds (suc i) left st' h)
        (prepare_prim-PreparedHolds st i holds)

  nothing-TableHolds : (n : ℕ) → TableHolds (replicate n [])
  nothing-TableHolds zero h = tt
  nothing-TableHolds (suc n) zero = tt
  nothing-TableHolds (suc n) (suc h) = nothing-TableHolds n h

  prepare_super_table-PreparedHolds :
      (st : Prepared) → prepare_super_table g ≡ some st → PreparedHolds st
  unfolding prepare_super_table
  prepare_super_table-PreparedHolds st e = from_some (
      subst (OptionHolds PreparedHolds) e (
        prepare_prims-PreparedHolds 0 (length g.super_costs) (nothing_prepared g)
          (nothing-TableHolds 256, omega arith)))

  -- Whatever a lookup finds in the tables of `prepare_super_table` stands for its key.
  pub prepare_super_table-IsSound :
      (st : Prepared) → prepare_super_table g ≡ some st → IsSound g st.tables
  prepare_super_table-IsSound st e = record {
    holds = λ origs j ss found. from_some (
        subst (OptionHolds (All (KeyHolds g origs j))) found (
          lookup_super-KeyHolds st.tables.table origs j
            (prepare_super_table-PreparedHolds st e).0));
  }

  pub prepare_super_table-max_super :
      (st : Prepared) → prepare_super_table g ≡ some st → 2 ≤ st.tables.max_super
  prepare_super_table-max_super st e = (prepare_super_table-PreparedHolds st e).1
