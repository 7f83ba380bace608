-- ===== src/Search/BufferExamples.antt =====
-- Runs of search/linebuffer.go on a small stream, and one use of each theorem.
use gripgrep.Base.{
  ℕ, zero, suc, ◌<◌, ◌≡◌, refl, sym, inl, some, [], ◌∷◌, arith, Bytes, length, take, drop,
  take-append-drop,
}
use gripgrep.Search.Buffer.{
  binary_convert, LineBuffer, new_line_buffer, reset, ReadError, no_error, eof, Reader, Fill,
  replace_nul_in_place, fill,
}
use gripgrep.Search.Buffer.Nul.{replace_nul_in_place-map}
use gripgrep.Search.Buffer.Stream.{Stream, Streamed}
use gripgrep.Search.Buffer.Fill.{fill-Streamed}

abbrev error_of : Bytes → ReadError
error_of [] = eof
error_of (x ∷ b) = no_error

-- A reader of the bytes that are its state.
abbrev bytes_reader : Reader Bytes
bytes_reader = record { read = λ s n. (take n s, error_of (drop n s), drop n s) }

error_of-ends : (b : Bytes) → error_of b ≡ eof → b ≡ []
error_of-ends [] h = refl
error_of-ends (x ∷ b) h = cc h

error_of-gives :
    (n : ℕ) (s : Bytes) → 0 < n → error_of (drop n s) ≡ no_error → 0 < length (take n s)
error_of-gives zero s h e = absurd (omega arith)
error_of-gives (suc n) [] h e = cc e
error_of-gives (suc n) (x ∷ s) h e = omega arith

abbrev bytes_stream : Stream bytes_reader
bytes_stream = record {
  content = λ s. s;
  splits = λ s n. sym (take-append-drop n s);
  ends = λ s n h. error_of-ends (drop n s) h;
  gives = λ s n h e. error_of-gives n s h e;
}

-- A line, a NUL, and the start of a line.
abbrev nul_text : Bytes
nul_text = b'a' ∷ 10 ∷ 0 ∷ b'b' ∷ []

abbrev fresh : LineBuffer
fresh = reset (new_line_buffer 3) binary_convert 10

fill-Streamed_example :
    (x : Fill Bytes) × (fill 5 bytes_reader nul_text fresh ≡ some x)
    × Streamed bytes_reader bytes_stream fresh nul_text x
fill-Streamed_example =
    fill-Streamed bytes_reader bytes_stream 5 fresh nul_text
      record { front = omega arith; middle = omega arith; back = omega arith } refl (inl refl)
      (omega arith)

replace_nul_in_place-map_example : replace_nul_in_place nul_text ≡ b'a' ∷ 10 ∷ 10 ∷ b'b' ∷ []
replace_nul_in_place-map_example = replace_nul_in_place-map nul_text
