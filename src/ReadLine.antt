-- ===== src/ReadLine.antt =====
-- engine/support.c: `read_line`. A stream is the bytes that are still to come, with the error flag that
-- `ferror` returns at their end; it is not EINTR, so that no call of `getc` is repeated.
pub mod Lines
use gforth.Prelude.{ℕ, zero, suc, ◌+◌, Bool, true, false, not, ◌==◌, if◌then◌else◌, List, [], ◌∷◌}

pub record Stream : Type 0 where
  pub bytes : List ℕ
  pub error : ℕ

-- The result: the characters in the buffer, the flag, the number of characters that were consumed, the
-- error flag that becomes `wior`, and the stream behind the line.
pub record Line : Type 0 where
  pub chars : List ℕ
  pub flag : Bool
  pub consumed : ℕ
  pub error : ℕ
  pub left : Stream

-- `c==EOF`, with `clearerr`.
unfoldable pub end_of_file : Bool → ℕ → ℕ → Line
end_of_file flag consumed error = record {
  chars = [];
  flag = flag;
  consumed = consumed;
  error = error;
  left = record { bytes = []; error = 0 };
}

unfoldable pub end_of_line : ℕ → ℕ → List ℕ → Line
end_of_line consumed error bytes = record {
  chars = [];
  flag = true;
  consumed = consumed;
  error = 0;
  left = record { bytes = bytes; error = error };
}

-- Behind a carriage return.
unfoldable pub after_return : ℕ → List ℕ → Line
after_return error [] = end_of_file true 1 error
after_return error (c ∷ bytes) =
    if c == 10 then end_of_line 2 error bytes else end_of_line 1 error (c ∷ bytes)

-- The loop with room for so many characters, behind `u2` characters.
unfoldable pub read_chars : ℕ → ℕ → ℕ → List ℕ → Line
read_chars zero u2 error bytes = end_of_line 0 error bytes
read_chars (suc room) u2 error [] = end_of_file (not (u2 == 0)) 0 error
read_chars (suc room) u2 error (c ∷ bytes) =
    let rest = read_chars room (u2 + 1) error bytes in
    if c == 10
    then end_of_line 1 error bytes
    else if c == 13
    then after_return error bytes
    else record rest { chars = c ∷ rest.chars; consumed = rest.consumed + 1 }

unfoldable pub read_line : ℕ → Stream → Line
read_line u1 wfileid = read_chars u1 0 wfileid.error wfileid.bytes
