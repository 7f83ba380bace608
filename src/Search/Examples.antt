-- ===== src/Search/Examples.antt =====
-- Runs of search/ on a small buffer, and one use of each theorem.
use gripgrep.Base.{◌⊎◌, ◌≡◌, refl, [], ◌∷◌, arith, Bytes}
use gripgrep.Base.Find.{last_index_byte, index_byte}
use gripgrep.Search.Lines.Locate.{StartsLine, EndsLine, Ended, line_locate-Bounds}
use gripgrep.Search.Lines.{line_locate, LineStep, new_line_step, next, all_lines}
use gripgrep.Search.Lines.Split.{Split, all_lines-Split}

-- Two lines, of which the second has no terminator.
abbrev two_lines : Bytes
two_lines = b'a' ∷ b'b' ∷ 10 ∷ b'c' ∷ []

abbrev start : LineStep
start = new_line_step 10 0 4

two_lines-all_lines : all_lines 5 start two_lines ≡ (0, 3) ∷ (3, 4) ∷ []
unfolding all_lines next index_byte
two_lines-all_lines = refl

all_lines-Split_example : Split 10 0 two_lines (all_lines 5 start two_lines)
all_lines-Split_example = all_lines-Split 5 start two_lines (omega arith)

line_locate_second : line_locate two_lines 10 3 4 ≡ (3, 4)
unfolding line_locate index_byte last_index_byte
line_locate_second = refl

line_locate-Bounds_example :
    StartsLine two_lines 10 0 (line_locate two_lines 10 0 3).0
    × ((Ended two_lines 10 (line_locate two_lines 10 0 3).0 3
          × ((line_locate two_lines 10 0 3).1 ≡ 3))
        ⊎ ((Ended two_lines 10 (line_locate two_lines 10 0 3).0 3 → ⊥)
            × EndsLine two_lines 10 3 (line_locate two_lines 10 0 3).1))
line_locate-Bounds_example = line_locate-Bounds two_lines 10 0 3
