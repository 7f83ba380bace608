-- ===== src/Search/Core/Fast.antt =====
-- search/core.go: `matchByLineFast`, and what it calls.
use gripgrep.Base.{
  ℕ, zero, suc, ◌+◌, true, not, ◌&&◌, ◌||◌, Option, none, some, List, [], ◌∷◌, ltb, ◌==◌,
  if◌then◌else◌, Bytes, length,
}
use gripgrep.Search.Lines.{Range, line_locate}
use gripgrep.Search.Core.{
  within, at_limit, Kind, candidate, confirmed, Config, more, enough, Sink, State, line_term,
  max_context, Step, and_then, sink_matched, lines_of, before_context_by_line,
  after_context_by_line, counted, limited, verifies,
}

-- The line of a candidate is the answer if it is confirmed or verified; past the buffer there is none.
abbrev pub found_at : Config → Bytes → Range → Kind → Option Range → Option Range
found_at c buf r confirmed onward = if r.0 == length buf then none else some r
found_at c buf r candidate onward =
    if r.0 == length buf then none else if verifies c buf r then some r else onward

-- The loop of `findByLineFast`. Each turn goes past a line, so that `fuel` turns are enough for as
-- many bytes.
unfoldable pub find_by_line_fast : ℕ → Config → Bytes → ℕ → Option Range
unfolding line_locate
find_by_line_fast zero c buf pos = none
find_by_line_fast (suc fuel) c buf pos =
    if ltb pos (length buf)
    then (elim (c.matcher.find_candidate buf pos) [
      | none ↦ none
      | some (off, kind) ↦
          let r = line_locate buf (line_term c) off off in
          found_at c buf r kind (find_by_line_fast fuel c buf r.1)
    ])
    else none

-- The loop of `matchByLineFastInvert` over the lines of a gap; it breaks at the limit.
unfoldable pub gap_each :
    {σ : Type 0} → Sink σ → Config → Bytes → State σ → List Range → Step (State σ)
unfolding sink_matched
gap_each k c buf s [] = (s, more)
gap_each k c buf s ((start, end) ∷ lines) =
    and_then
      (within (record s { match_count = s.match_count + 1 }) (sink_matched k c buf s.out start end))
      (λ s1.
        let onward = gap_each k c buf s1 lines in
        if at_limit c.max_count s1.match_count then (limited c s1, more) else onward)

-- What `matchByLineFastInvert` does with a gap between matches.
unfoldable pub gap : {σ : Type 0} → Sink σ → Config → Bytes → State σ → ℕ → ℕ → Step (State σ)
unfolding after_context_by_line before_context_by_line gap_each
gap k c buf s start end =
    if start == end
    then (s, more)
    else and_then
        (within (record s { has_matched = true })
          (and_then (after_context_by_line k c buf s.out start)
            (λ o. before_context_by_line k c buf o start)))
        (λ s1. gap_each k c buf s1 (lines_of c buf start end))

-- The context on both sides, the match and the test of the limit.
unfoldable pub fast_match :
    {σ : Type 0} → Sink σ → Config → Bytes → State σ → Range → Step (State σ)
unfolding after_context_by_line before_context_by_line sink_matched
fast_match k c buf s (start, end) =
    and_then
      (within (counted s) (
        if ltb 0 (max_context c)
        then and_then (after_context_by_line k c buf s.out start)
            (λ o. before_context_by_line k c buf o start)
        else (s.out, more)))
      (λ s1.
        and_then (within s1 (sink_matched k c buf s1.out start end)) (λ s2. (limited c s2, more)))

-- What follows the loop.
unfoldable pub fast_rest : {σ : Type 0} → Sink σ → Config → Bytes → State σ → Step (State σ)
unfolding after_context_by_line
fast_rest k c buf s = and_then (within s (after_context_by_line k c buf s.out (length buf))) (λ s1.
    if s1.match_limit_reached && s1.out.after_context_left == 0 then (s1, enough) else (s1, more))

-- The end of the gap that starts at `pos`, and where the scan goes on after it.
abbrev pub gap_bounds : Bytes → Option Range → ℕ × ℕ
gap_bounds buf none = (length buf, length buf)
gap_bounds buf (some (start, end)) = (start, end)

-- One turn of the loop, with where it goes on; `none` leaves the loop.
unfoldable pub fast_turn :
    {σ : Type 0}
    → Sink σ
    → Config
    → Bytes
    → State σ
    → ℕ
    → Option Range
    → Option (Step (State σ) × ℕ)
unfolding gap fast_match
fast_turn k c buf s pos found =
    let (gap_end, after_gap) = gap_bounds buf found in
    if c.invert
    then some (gap k c buf s pos gap_end, after_gap)
    else (elim found [ none ↦ none | some r ↦ some (fast_match k c buf s r, r.1) ])

-- The loop. Each turn goes past a line, so that `fuel` turns are enough for as many bytes.
unfoldable pub fast_from : {σ : Type 0} → Sink σ → Config → Bytes → ℕ → ℕ → State σ → Step (State σ)
unfolding find_by_line_fast fast_turn fast_rest
fast_from k c buf zero pos s = fast_rest k c buf s
fast_from k c buf (suc fuel) pos s =
    if not (ltb pos (length buf)) || s.match_limit_reached
    then fast_rest k c buf s
    else (elim (fast_turn k c buf s pos (find_by_line_fast (length buf + 1) c buf pos)) [
      | none ↦ fast_rest k c buf s
      | some (step, onward) ↦ and_then step (λ s'. fast_from k c buf fuel onward s')
    ])

unfoldable pub match_by_line_fast :
    {σ : Type 0} → Sink σ → Config → Bytes → ℕ → State σ → Step (State σ)
unfolding fast_from
match_by_line_fast k c buf pos s = fast_from k c buf (length buf + 1) pos s
