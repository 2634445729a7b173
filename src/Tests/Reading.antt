-- ===== src/Tests/Reading.antt =====
-- engine/support.c: `read_line` on a short stream.
use gforth.Prelude.{◌≡◌, refl, true, [], ◌∷◌}
use gforth.ReadLine.{Stream, end_of_line, after_return, read_chars, read_line}
use gforth.ReadLine.Lines.{IsLine, read_line-IsLine}

abbrev stream : Stream
stream = record { bytes = 97 ∷ 98 ∷ 13 ∷ 10 ∷ 99 ∷ []; error = 0 }

read_first : read_line 80 stream ≡ record {
  chars = 97 ∷ 98 ∷ [];
  flag = true;
  consumed = 4;
  error = 0;
  left = record { bytes = 99 ∷ []; error = 0 };
}
unfolding read_line read_chars after_return end_of_line
read_first = refl

read_line-IsLine_example : IsLine 80 0 (97 ∷ 98 ∷ 13 ∷ 10 ∷ 99 ∷ []) (read_line 80 stream)
read_line-IsLine_example = read_line-IsLine 80 stream
