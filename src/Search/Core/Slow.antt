-- ===== src/Search/Core/Slow.antt =====
-- search/core.go: `matchByLineSlow`.
use gripgrep.Base.{
  ℕ, Bool, true, false, not, ◌&&◌, ◌||◌, List, [], ◌∷◌, leb, ◌==◌, if◌then◌else◌, Bytes, length,
}
use gripgrep.Search.Lines.{Range}
use gripgrep.Search.Core.{
  within, Config, more, enough, Sink, State, Step, and_then, sink_matched, sink_context, lines_of,
  before_context_by_line, one_less, counted, limited, verifies,
}

abbrev pub differ : Bool → Bool → Bool
differ true b = not b
differ false b = b

-- Whether a line is a success, by the three cases of `--passthru` and the limit.
unfoldable pub is_success : {σ : Type 0} → Config → Bytes → State σ → Range → Bool
is_success c buf s r =
    if c.pass_thru && s.match_limit_reached && not s.match_limit_reached_at_start
    then c.invert
    else if c.pass_thru && s.match_limit_reached_at_start
    then false
    else differ (verifies c buf r) c.invert && not s.match_limit_reached

-- What a success does: the context before it, and the match.
unfoldable pub slow_match :
    {σ : Type 0} → Sink σ → Config → Bytes → State σ → Range → Step (State σ)
unfolding before_context_by_line sink_matched
slow_match k c buf s (start, end) =
    and_then (within (counted s) (before_context_by_line k c buf s.out start)) (λ s1.
      and_then (within s1 (sink_matched k c buf s1.out start end)) (λ s2. (limited c s2, more)))

-- What any other line does: it is context owed to a match, context of `--passthru`, or nothing.
unfoldable pub slow_other :
    {σ : Type 0} → Sink σ → Config → Bytes → State σ → Range → Step (State σ)
unfolding sink_context
slow_other k c buf s (start, end) =
    if leb 1 s.out.after_context_left
    then within s (and_then (sink_context k c buf s.out start end true) (λ o. (one_less o, more)))
    else if c.pass_thru && not s.match_limit_reached_at_start
    then within s (sink_context k c buf s.out start end false)
    else (s, more)

-- The scan ends where the limit is reached and no context is owed.
abbrev pub is_over : {σ : Type 0} → Config → State σ → Bool
is_over c s =
    s.match_limit_reached
    && s.out.after_context_left == 0
    && (not c.pass_thru || s.match_limit_reached_at_start)

unfoldable pub slow_line : {σ : Type 0} → Sink σ → Config → Bytes → State σ → Range → Step (State σ)
unfolding is_success slow_match slow_other
slow_line k c buf s r =
    and_then (if is_success c buf s r then slow_match k c buf s r else slow_other k c buf s r)
      (λ s1. if is_over c s1 then (s1, enough) else (s1, more))

unfoldable pub slow_each :
    {σ : Type 0} → Sink σ → Config → Bytes → State σ → List Range → Step (State σ)
unfolding slow_line
slow_each k c buf s [] = (s, more)
slow_each k c buf s (r ∷ lines) =
    and_then (slow_line k c buf s r) (λ s'. slow_each k c buf s' lines)

-- The scan of `buf[pos:]`. `scanContinue` is `more`, and `scanStop` is `enough`.
unfoldable pub match_by_line_slow :
    {σ : Type 0} → Sink σ → Config → Bytes → ℕ → State σ → Step (State σ)
unfolding slow_each
match_by_line_slow k c buf pos s = slow_each k c buf s (lines_of c buf pos (length buf))
