-- ===== src/ReadLine/Lines.antt =====
-- engine/support.c: the line that `read_line` reads.
use gforth.Prelude.{
  ℕ, zero, suc, ◌+◌, ◌≤◌, ◌≡◌, ◌⊎◌, refl, ◌∙◌, sym, ap, subst, arith, Bool, true, false, not,
  Bool-cases, inl, inr, ltb, ◌&&◌, ◌==◌, List, [], ◌∷◌, ◌++◌, length,
}
use gforth.ReadLine.{Stream, Line, end_of_file, end_of_line, after_return, read_chars, read_line}

-- The end of a line: none, a line feed, a carriage return, or both.
pub data Ending : Type 0 where
  nothing line_feed carriage_return both : Ending

unfoldable pub ending : Ending → List ℕ
ending nothing = []
ending line_feed = 10 ∷ []
ending carriage_return = 13 ∷ []
ending both = 13 ∷ 10 ∷ []

unfoldable pub is_nothing : Ending → Bool
is_nothing nothing = true
is_nothing line_feed = false
is_nothing carriage_return = false
is_nothing both = false

-- A carriage return without a line feed.
unfoldable pub is_return : Ending → Bool
is_return nothing = false
is_return line_feed = false
is_return carriage_return = true
is_return both = false

unfoldable pub begins_with_feed : List ℕ → Bool
begins_with_feed [] = false
begins_with_feed (c ∷ bytes) = c == 10

unfoldable pub is_empty : List ℕ → Bool
is_empty [] = true
is_empty (c ∷ bytes) = false

-- No character of the line ends a line.
abbrev pub AllInLine : List ℕ → Type 0
AllInLine [] = Unit
AllInLine (c ∷ chars) = ((c == 10) ≡ false) × ((c == 13) ≡ false) × AllInLine chars

-- What is read of the bytes, with room for so many characters behind `u2` characters.
pub record IsLine (room u2 : ℕ) (bytes : List ℕ) (r : Line) : Type 0 where
  pub how : Ending
  pub split : bytes ≡ (r.chars ++ ending how) ++ r.left.bytes
  pub alone : (is_return how && begins_with_feed r.left.bytes) ≡ false
  pub counted : r.consumed ≡ length r.chars + length (ending how)
  pub fits : length r.chars ≤ room
  pub plain : AllInLine r.chars
  pub stops : is_nothing how ≡ true → (length r.chars ≡ room) ⊎ (r.left.bytes ≡ [])
  pub flagged : r.flag ≡ not (ltb 0 room && (is_empty bytes && u2 == 0))

next_stop :
    (n room : ℕ) (left : List ℕ) → (n ≡ room) ⊎ (left ≡ []) → (suc n ≡ suc room) ⊎ (left ≡ [])
next_stop n room left (inl full) = inl (ap suc full)
next_stop n room left (inr at_end) = inr at_end

module _ (error : ℕ) where
  after_return-IsLine :
      (room u2 : ℕ) (bytes : List ℕ) → IsLine (suc room) u2 (13 ∷ bytes) (after_return error bytes)
  unfolding after_return end_of_file end_of_line ending is_nothing is_return begins_with_feed
      is_empty
  after_return-IsLine room u2 [] = record {
    how = carriage_return;
    split = refl;
    alone = refl;
    counted = refl;
    fits = omega arith;
    plain = tt;
    stops = λ none. absurd (ground (arith, none));
    flagged = ground arith;
  }
  after_return-IsLine room u2 (c ∷ bytes) = elim (Bool-cases (c == 10)) [
    | inl feed ↦
        let same : c ≡ 10 = ground (arith, feed) in
        rw feed (record {
          how = both;
          split = ap (λ x. 13 ∷ (x ∷ bytes)) same;
          alone = refl;
          counted = refl;
          fits = omega arith;
          plain = tt;
          stops = λ none. absurd (ground (arith, none));
          flagged = ground arith;
        })
    | inr other ↦ rw other (record {
      how = carriage_return;
      split = refl;
      alone = other;
      counted = refl;
      fits = omega arith;
      plain = tt;
      stops = λ none. absurd (ground (arith, none));
      flagged = ground arith;
    })
  ]

  read_chars-IsLine :
      (room u2 : ℕ) (bytes : List ℕ) → IsLine room u2 bytes (read_chars room u2 error bytes)
  unfolding read_chars end_of_file end_of_line ending is_nothing is_return begins_with_feed is_empty
  read_chars-IsLine zero u2 bytes = record {
    how = nothing;
    split = refl;
    alone = refl;
    counted = refl;
    fits = omega arith;
    plain = tt;
    stops = λ none. inl refl;
    flagged = refl;
  }
  read_chars-IsLine (suc room) u2 [] = record {
    how = nothing;
    split = refl;
    alone = refl;
    counted = refl;
    fits = omega arith;
    plain = tt;
    stops = λ none. inr refl;
    flagged = ground arith;
  }
  read_chars-IsLine (suc room) u2 (c ∷ bytes) = elim (Bool-cases (c == 10)) [
    | inl feed ↦
        let same : c ≡ 10 = ground (arith, feed) in
        rw feed (record {
          how = line_feed;
          split = ap (λ x. x ∷ bytes) same;
          alone = refl;
          counted = refl;
          fits = omega arith;
          plain = tt;
          stops = λ none. absurd (ground (arith, none));
          flagged = ground arith;
        })
    | inr no_feed ↦ elim (Bool-cases (c == 13)) [
      | inl return ↦
          let same : c ≡ 13 = ground (arith, return) in
          rw (no_feed, return)
            (subst (λ x. IsLine (suc room) u2 (x ∷ bytes) (after_return error bytes)) (sym same)
              (after_return-IsLine room u2 bytes))
      | inr no_return ↦
          let rest = read_chars-IsLine room (u2 + 1) bytes in
          let r = read_chars room (u2 + 1) error bytes in
          rw (no_feed, no_return)
            (record {
              how = rest.how;
              split = ap (◌∷◌ c) rest.split;
              alone = rest.alone;
              counted = omega (arith, rest.counted);
              fits = omega (arith, rest.fits);
              plain = (no_feed, no_return, rest.plain);
              stops = λ none. next_stop (length r.chars) room r.left.bytes (rest.stops none);
              flagged = rest.flagged ∙ ground arith;
            })
    ]
  ]

-- `read_line` on any stream, on every branch: the bytes are the characters in the buffer, then nothing, a
-- line feed, a carriage return or both, and then the stream that is left, which does not begin with a
-- line feed behind a carriage return without one; the number of characters
-- consumed counts the characters and the end of the line; there are at most `u1` characters, and none
-- of them ends a line; without an end of the line the buffer is full or the stream is at its end; and
-- the flag is false exactly when there is room for a character and the stream has none.
pub read_line-IsLine : (u1 : ℕ) (s : Stream) → IsLine u1 0 s.bytes (read_line u1 s)
unfolding read_line
read_line-IsLine u1 s = read_chars-IsLine s.error u1 0 s.bytes
