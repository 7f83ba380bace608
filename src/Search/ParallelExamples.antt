-- ===== src/Search/ParallelExamples.antt =====
-- Runs of search/parallel.go on small texts, and one use of each theorem.
use gripgrep.Base.{ℕ, ◌≤◌, ◌≡◌, refl, Option, some, List, [], ◌∷◌, arith, Bytes, length}
use gripgrep.Base.Find.{index_byte}
use gripgrep.Search.Lines.Region.{lines}
use gripgrep.Search.Core.{Sink, more, enough}
use gripgrep.Search.Parallel.{
  passes, bounds_from, split_chunks, at_least_one, RecordedEvent, recorded_match, replay_each,
  replay_parts,
}
use gripgrep.Search.Parallel.Chunks.{Tiles, split_chunks-Tiles, lines_in, split_chunks-lines}
use gripgrep.Search.Parallel.Replay.{replay_parts-in_file, replay_parts-WithinLimit}

-- The lines `ab`, `c` and `d`.
abbrev short_lines : Bytes
short_lines = b'a' ∷ b'b' ∷ 10 ∷ b'c' ∷ 10 ∷ b'd' ∷ 10 ∷ []

short_lines-split_chunks : split_chunks short_lines 3 ≡ (0, 3) ∷ (3, 5) ∷ (5, 7) ∷ []
unfolding split_chunks bounds_from passes index_byte
short_lines-split_chunks = refl

split_chunks-Tiles_example :
    Tiles short_lines 0 (split_chunks short_lines 3)
    × (length (split_chunks short_lines 3) ≤ at_least_one 3)
split_chunks-Tiles_example = split_chunks-Tiles short_lines 3

split_chunks-lines_example :
    lines_in short_lines (split_chunks short_lines 3) ≡ lines 10 short_lines 0 7
split_chunks-lines_example = split_chunks-lines short_lines 3

-- It keeps the line numbers, the last first.
abbrev numbers : Sink (List (Option ℕ))
numbers = record { matched = λ m t. (m.line_number ∷ t, more); context = λ x t. (t, more) }

abbrev at_line : ℕ → RecordedEvent
at_line n = recorded_match record { line = []; line_number = some n; offset = 0 }

-- Two parts, of three lines and of one.
abbrev two_parts : List (List RecordedEvent × ℕ)
two_parts = ((at_line 2 ∷ []), 3) ∷ ((at_line 1 ∷ at_line 2 ∷ []), 2) ∷ []

two_parts-replay_parts :
    replay_parts numbers (some 2) 0 two_parts ([], 0) ≡ ((some 4 ∷ some 2 ∷ [], 2), enough)
unfolding replay_parts
two_parts-replay_parts = refl

replay_parts-in_file_example :
    replay_parts numbers (some 2) 0 two_parts ([], 0)
    ≡ replay_each numbers (some 2) 0 (at_line 2 ∷ at_line 4 ∷ at_line 5 ∷ []) ([], 0)
replay_parts-in_file_example = replay_parts-in_file numbers (some 2) 0 two_parts ([], 0)

replay_parts-WithinLimit_example : (replay_parts numbers (some 2) 0 two_parts ([], 0)).0.1 ≤ 2
replay_parts-WithinLimit_example =
    replay_parts-WithinLimit numbers (some 2) two_parts ([], 0) (omega arith)
