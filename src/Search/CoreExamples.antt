-- ===== src/Search/CoreExamples.antt =====
-- Runs of search/core.go on a small buffer, and one use of each theorem.
use gripgrep.Base.{
  ℕ, zero, suc, ◌+◌, ◌≤◌, ◌≡◌, ◌++◌, refl, sym, subst, inl, Bool, true, false, ◌||◌, Option, none,
  some, List, [], ◌∷◌, arith, ◌==◌, Bytes, drop, of_some,
}
use gripgrep.Base.Find.{index_byte, last_index_byte}
use gripgrep.Search.Lines.{line_locate, next, all_lines, without_terminator, line_preceding}
use gripgrep.Search.Lines.Region.{lines, lines-nil}
use gripgrep.Search.Core.{
  Kind, candidate, confirmed, Matcher, Config, more, Sink, State, reset_run, count_lines,
}
use gripgrep.Search.Core.Slow.{match_by_line_slow}
use gripgrep.Search.Core.Fast.{match_by_line_fast}
use gripgrep.Search.Core.Drain.{TakesContext}
use gripgrep.Search.Core.Find.{Finds, NoneVerify, start_of}
use gripgrep.Search.Run.{run_chunk, run_chunk-slow, run_chunk-WithinLimit}
use gripgrep.Search.Core.Limit.{Counted, match_by_line_slow-WithinLimit}
use gripgrep.Search.Buffer.{binary_quit}
use gripgrep.Search.Whole.{FileSink, search_bytes, search_bytes-quit}
use gripgrep.Search.Core.Equal.{match_by_line_fast-slow}

-- The lines `a`, `x` and `b`.
abbrev three_lines : Bytes
three_lines = b'a' ∷ 10 ∷ b'x' ∷ 10 ∷ b'b' ∷ 10 ∷ []

has : ℕ → Bytes → Bool
has x [] = false
has x (y ∷ ys) = x == y || has x ys

abbrev from : ℕ → Option ℕ → Option (ℕ × Kind)
from pos none = none
from pos (some i) = some (pos + i, candidate)

-- The matcher of the literal `x`.
abbrev literal : Matcher
literal = record {
  verify = has b'x';
  find_candidate = λ buf pos. from pos (index_byte (drop pos buf) b'x');
  non_matching_line_term = true;
}

abbrev around : Config
around = record {
  matcher = literal;
  invert = false;
  line_numbers = true;
  crlf = false;
  null_data = false;
  before_context = 1;
  after_context = 1;
  pass_thru = false;
  max_count = some 1;
}

-- It keeps the lines, the last first.
abbrev keeps : Sink (List Bytes)
keeps = record { matched = λ m t. (m.line ∷ t, more); context = λ x t. (x.line ∷ t, more) }

keeps-TakesContext : TakesContext keeps
keeps-TakesContext x t = refl

abbrev at_start : State (List Bytes)
at_start = reset_run around 0 1 []

skips_at :
    (pos i off : ℕ) (kind : Kind)
    → NoneVerify around three_lines
        (lines 10 three_lines pos (start_of around three_lines (pos + i)))
    → from pos (some i) ≡ some (off, kind)
    → NoneVerify around three_lines (lines 10 three_lines pos (start_of around three_lines off))
skips_at pos i off kind u e =
    subst
      (λ (p : ℕ × Kind).
        NoneVerify around three_lines (lines 10 three_lines pos (start_of around three_lines p.0)))
      (of_some e) u

apart : {A : Type 0} {m : Option A} {a : A} → m ≡ none → m ≡ some a → ⊥
apart e h = cc (e, h)

beyond :
    (pos : ℕ) → literal.find_candidate three_lines (suc (suc (suc (suc (suc (suc pos)))))) ≡ none
unfolding index_byte
beyond zero = refl
beyond (suc pos) = refl

literal-in_range :
    (pos off : ℕ) (kind : Kind)
    → literal.find_candidate three_lines pos ≡ some (off, kind)
    → (pos ≤ off) × (off ≤ 6)
unfolding index_byte
literal-in_range zero off kind e = let q : 2 ≡ off = cc e in (omega arith, omega arith)
literal-in_range (suc zero) off kind e = let q : 2 ≡ off = cc e in (omega arith, omega arith)
literal-in_range (suc (suc zero)) off kind e = let q : 2 ≡ off = cc e in (omega arith, omega arith)
literal-in_range (suc (suc (suc zero))) off kind e = cc e
literal-in_range (suc (suc (suc (suc zero)))) off kind e = cc e
literal-in_range (suc (suc (suc (suc (suc zero))))) off kind e = cc e
literal-in_range (suc (suc (suc (suc (suc (suc pos)))))) off kind e = absurd (apart (beyond pos) e)

literal-skips :
    (pos off : ℕ) (kind : Kind)
    → literal.find_candidate three_lines pos ≡ some (off, kind)
    → NoneVerify around three_lines (lines 10 three_lines pos (start_of around three_lines off))
unfolding has index_byte last_index_byte line_locate all_lines next without_terminator
literal-skips zero off kind e = skips_at 0 2 off kind (refl, tt) e
literal-skips (suc zero) off kind e = skips_at 1 1 off kind (refl, tt) e
literal-skips (suc (suc zero)) off kind e = skips_at 2 0 off kind tt e
literal-skips (suc (suc (suc zero))) off kind e = cc e
literal-skips (suc (suc (suc (suc zero)))) off kind e = cc e
literal-skips (suc (suc (suc (suc (suc zero))))) off kind e = cc e
literal-skips (suc (suc (suc (suc (suc (suc pos)))))) off kind e = absurd (apart (beyond pos) e)

literal-none_left :
    (pos : ℕ)
    → literal.find_candidate three_lines pos ≡ none
    → NoneVerify around three_lines (lines 10 three_lines pos 6)
unfolding has index_byte all_lines next without_terminator
literal-none_left zero e = cc e
literal-none_left (suc zero) e = cc e
literal-none_left (suc (suc zero)) e = cc e
literal-none_left (suc (suc (suc zero))) e = (refl, (refl, tt))
literal-none_left (suc (suc (suc (suc zero)))) e = (refl, tt)
literal-none_left (suc (suc (suc (suc (suc zero))))) e = (refl, tt)
literal-none_left (suc (suc (suc (suc (suc (suc pos)))))) e =
    subst (NoneVerify around three_lines)
      (sym (lines-nil 10 three_lines (suc (suc (suc (suc (suc (suc pos)))))) 6 (omega arith))) tt

literal-confirms :
    (pos off : ℕ) → literal.find_candidate three_lines pos ≡ some (off, confirmed) → ⊥
unfolding index_byte
literal-confirms zero off e = cc e
literal-confirms (suc zero) off e = cc e
literal-confirms (suc (suc zero)) off e = cc e
literal-confirms (suc (suc (suc zero))) off e = cc e
literal-confirms (suc (suc (suc (suc zero)))) off e = cc e
literal-confirms (suc (suc (suc (suc (suc zero))))) off e = cc e
literal-confirms (suc (suc (suc (suc (suc (suc pos)))))) off e = absurd (apart (beyond pos) e)

literal-Finds : Finds around three_lines
literal-Finds = record {
  in_range = literal-in_range;
  skips = λ pos off kind d e. literal-skips pos off kind e;
  none_left = λ pos d e. literal-none_left pos e;
  confirms = λ pos off e h. absurd (literal-confirms pos off e);
}

match_by_line_fast-slow_example :
    match_by_line_fast keeps around three_lines 0 at_start
    ≡ match_by_line_slow keeps around three_lines 0 at_start
match_by_line_fast-slow_example =
    match_by_line_fast-slow keeps around three_lines keeps-TakesContext refl literal-Finds 0
      at_start (omega arith) (inl (inl refl)) (omega arith) (omega arith) (inl refl)

-- The limit of one match still leaves the line of context after it.
around-kept :
    (match_by_line_fast keeps around three_lines 0 at_start).0.out.sink
    ≡ (b'b' ∷ 10 ∷ []) ∷ (b'x' ∷ 10 ∷ []) ∷ (b'a' ∷ 10 ∷ []) ∷ []
unfolding match_by_line_fast index_byte last_index_byte has without_terminator all_lines next
    line_preceding count_lines
around-kept = refl

run_chunk-slow_example :
    run_chunk keeps around three_lines 7 4 []
    ≡ match_by_line_slow keeps around three_lines 0 (reset_run around 7 4 [])
run_chunk-slow_example =
    run_chunk-slow keeps around three_lines 7 4 [] keeps-TakesContext literal-Finds

run_chunk-WithinLimit_example : (run_chunk keeps around three_lines 0 1 []).0.match_count ≤ 1
run_chunk-WithinLimit_example =
    run_chunk-WithinLimit keeps around three_lines 0 1 [] keeps-TakesContext literal-Finds refl

match_by_line_slow-WithinLimit_example :
    Counted around (match_by_line_slow keeps around three_lines 2 at_start)
match_by_line_slow-WithinLimit_example =
    match_by_line_slow-WithinLimit keeps around three_lines refl 2 at_start
      record { count = omega arith; flag = refl }

-- A sink that keeps in the end only whether a NUL was seen.
abbrev seen_at : Option ℕ → List Bytes
seen_at none = []
seen_at (some i) = (b'N' ∷ []) ∷ []

abbrev file_sink : FileSink (List Bytes)
file_sink = record {
  begin = λ t. (t, more);
  sink = keeps;
  finish = λ stats t. (seen_at stats.binary_offset ++ t, true);
}

abbrev binary_text : Bytes
binary_text = b'x' ∷ 10 ∷ 0 ∷ 10 ∷ []

search_bytes-quit_example :
    search_bytes file_sink around binary_quit 1 0 binary_text [] ≡ ((b'N' ∷ []) ∷ [], true)
unfolding index_byte
search_bytes-quit_example = search_bytes-quit file_sink around 1 0 binary_text 2 [] refl refl
