-- ===== src/Search/Core.antt =====
-- search/core.go and search/search.go: the state of a search, and its calls of the sink.
pub mod Slow
pub mod Fast
pub mod Find
pub mod Drain
pub mod Owed
pub mod Gap
pub mod Agree
pub mod Matched
pub mod Inverted
pub mod Equal
pub mod Limit
use gripgrep.Base.{
  ℕ, zero, suc, ◌+◌, ◌-◌, ◌*◌, ◌/◌, ◌%◌, ◌≤◌, ◌<◌, ◌≡◌, refl, sym, ap, ◌∙◌, subst, ◌≢◌, ◌↔◌, ◌⊎◌,
  inl, inr, Bool, true, false, not, ◌&&◌, ◌||◌, Option, none, some, List, [], ◌∷◌, ◌++◌, map,
  reverse, append-nil, append_assoc, arith, ltb, leb, ◌==◌, if◌then◌else◌, ltb→lt, lt→ltb, leb→le,
  ==_iff, tests, Bool-cases, Option-cases, ◌>>=◌, >>=-eq-some, Bytes, codes, String, length,
  get_elem?, get_or, set, take, drop, length-append, take-append-drop, length-take, length-drop,
  take-le-length, length-set, get_or-set, get_or-append_one, get_or-beyond, get_elem?-append,
  get_elem?-append_self, bytes_equal, bytes_equal_iff, of_some, bytes_equal_refl,
}
use gripgrep.Search.Lines.{
  Range, new_line_step, all_lines, slice, line_count, without_terminator, line_preceding,
  line_locate,
}

-- `match.Kind`
pub data Kind : Type 0 where
  candidate confirmed : Kind

-- The methods of `match.Matcher` that the scan calls.
pub record Matcher : Type 0 where
  pub verify : Bytes → Bool
  pub find_candidate : Bytes → ℕ → Option (ℕ × Kind)
  pub non_matching_line_term : Bool

-- The exported fields of `Searcher` that the scan reads. A `MaxCount` of nil is `none`; a negative
-- one acts as 0 does.
pub record Config : Type 0 where
  pub matcher : Matcher
  pub invert : Bool
  pub line_numbers : Bool
  pub crlf : Bool
  pub null_data : Bool
  pub before_context : ℕ
  pub after_context : ℕ
  pub pass_thru : Bool
  pub max_count : Option ℕ

-- `Match`, and `Ctx`, which says on which side it stands. A line number is `none` without `-n`.
pub record Match : Type 0 where
  pub line : Bytes
  pub line_number : Option ℕ
  pub offset : ℕ

pub record Ctx : Type 0 where
  pub line : Bytes
  pub line_number : Option ℕ
  pub offset : ℕ
  pub after : Bool

-- What a sink answers: go on, `more=false`, or an error.
pub data Reply : Type 0 where
  more enough failed : Reply

-- The sink that the caller gives, with its state.
pub record Sink (σ : Type 0) : Type 0 where
  pub matched : Match → σ → σ × Reply
  pub context : Ctx → σ → σ × Reply

-- The part of the scan state of `Searcher` that the calls of the sink read and change, with the
-- state of the sink.
pub record Output (σ : Type 0) : Type 0 where
  pub sink : σ
  pub abs_offset_base : ℕ
  pub line_number : ℕ
  pub last_line_counted : ℕ
  pub last_line_visited : ℕ
  pub after_context_left : ℕ

-- The scan state, but for `pos`, which the loops pass along.
pub record State (σ : Type 0) : Type 0 where
  pub out : Output σ
  pub has_matched : Bool
  pub match_count : ℕ
  pub match_limit_reached : Bool
  pub match_limit_reached_at_start : Bool

-- `resolveLineTerm`
abbrev pub line_term : Config → ℕ
line_term c = if c.null_data then 0 else 10

abbrev pub max_context : Config → ℕ
max_context c = if ltb c.after_context c.before_context then c.before_context else c.after_context

abbrev pub limit_at_start : Option ℕ → Bool
limit_at_start none = false
limit_at_start (some n) = n == 0

-- `s.MaxCount != nil && s.matchCount >= int64(*s.MaxCount)`
abbrev pub at_limit : Option ℕ → ℕ → Bool
at_limit none count = false
at_limit (some n) count = leb n count

-- `resetRun` and the start of `runChunk`
abbrev pub reset_run : {σ : Type 0} → Config → ℕ → ℕ → σ → State σ
reset_run c base line_base sink = record {
  out = record {
    sink = sink;
    abs_offset_base = base;
    line_number = if c.line_numbers then line_base else 0;
    last_line_counted = 0;
    last_line_visited = 0;
    after_context_left = 0;
  };
  has_matched = false;
  match_count = 0;
  match_limit_reached = limit_at_start c.max_count;
  match_limit_reached_at_start = limit_at_start c.max_count;
}

unfoldable pub is_fast_path : Config → Bool
is_fast_path c = c.matcher.non_matching_line_term && not c.pass_thru

unfoldable pub count_lines : {σ : Type 0} → Config → Bytes → Output σ → ℕ → Output σ
count_lines c buf s upto =
    if not c.line_numbers then s else if leb upto s.last_line_counted then s else record s {
      line_number = s.line_number + line_count (slice s.last_line_counted upto buf) (line_term c);
      last_line_counted = upto;
    }

abbrev pub number_of : {σ : Type 0} → Config → Output σ → Option ℕ
number_of c s = if c.line_numbers then some s.line_number else none

-- A step gives the state after it, and whether to go on.
abbrev pub Step : Type 0 → Type 0
Step S = S × Reply

-- `scanStop` and errors end what follows.
abbrev pub and_then : {S : Type 0} → Step S → (S → Step S) → Step S
and_then (s, more) f = f s
and_then (s, enough) f = (s, enough)
and_then (s, failed) f = (s, failed)

abbrev pub visited : {σ : Type 0} → Output σ → ℕ → Output σ
visited s end = record s { last_line_visited = end }

-- The answer of the sink, with its state put back.
abbrev pub sent : {σ : Type 0} → Output σ → σ × Reply → Step (Output σ)
sent s (t, reply) = (record s { sink = t }, reply)

abbrev pub match_at : {σ : Type 0} → Config → Bytes → Output σ → ℕ → ℕ → Match
match_at c buf s start end = record {
  line = slice start end buf;
  line_number = number_of c s;
  offset = s.abs_offset_base + start;
}

abbrev pub ctx_at : {σ : Type 0} → Config → Bytes → Output σ → ℕ → ℕ → Bool → Ctx
ctx_at c buf s start end after = record {
  line = slice start end buf;
  line_number = number_of c s;
  offset = s.abs_offset_base + start;
  after = after;
}

unfoldable pub sink_matched :
    {σ : Type 0} → Sink σ → Config → Bytes → Output σ → ℕ → ℕ → Step (Output σ)
sink_matched k c buf s start end =
    let s1 = count_lines c buf s start in
    and_then (sent s1 (k.matched (match_at c buf s1 start end) s1.sink))
      (λ s2. (record s2 { last_line_visited = end; after_context_left = c.after_context }, more))

unfoldable pub sink_context :
    {σ : Type 0} → Sink σ → Config → Bytes → Output σ → ℕ → ℕ → Bool → Step (Output σ)
sink_context k c buf s start end after =
    let s1 = count_lines c buf s start in
    and_then (sent s1 (k.context (ctx_at c buf s1 start end after) s1.sink))
      (λ s2. (visited s2 end, more))

-- The lines that `newLineStep(s.lineTerm, start, end)` gives.
abbrev pub lines_of : Config → Bytes → ℕ → ℕ → List Range
lines_of c buf start end = all_lines (length buf + 1) (new_line_step (line_term c) start end) buf

-- The loop of `beforeContextByLine`.
unfoldable pub before_each :
    {σ : Type 0} → Sink σ → Config → Bytes → Output σ → List Range → Step (Output σ)
unfolding sink_context
before_each k c buf s [] = (s, more)
before_each k c buf s ((start, end) ∷ lines) =
    and_then (sink_context k c buf s start end false) (λ s'. before_each k c buf s' lines)

unfoldable pub before_context_by_line :
    {σ : Type 0} → Sink σ → Config → Bytes → Output σ → ℕ → Step (Output σ)
unfolding before_each
before_context_by_line k c buf s upto =
    if c.before_context == 0
    then (s, more)
    else if leb upto s.last_line_visited
    then (s, more)
    else before_each k c buf s (
        lines_of c buf
          (s.last_line_visited
            + line_preceding (slice s.last_line_visited upto buf) (line_term c)
                (c.before_context - 1))
          upto)

abbrev pub one_less : {σ : Type 0} → Output σ → Output σ
one_less s = record s { after_context_left = s.after_context_left - 1 }

-- The loop of `afterContextByLine`.
unfoldable pub after_each :
    {σ : Type 0} → Sink σ → Config → Bytes → Output σ → List Range → Step (Output σ)
unfolding sink_context
after_each k c buf s [] = (s, more)
after_each k c buf s ((start, end) ∷ lines) =
    and_then (sink_context k c buf s start end true) (λ s'.
      if (one_less s').after_context_left == 0
      then (one_less s', more)
      else after_each k c buf (one_less s') lines)

unfoldable pub after_context_by_line :
    {σ : Type 0} → Sink σ → Config → Bytes → Output σ → ℕ → Step (Output σ)
unfolding after_each
after_context_by_line k c buf s upto =
    if s.after_context_left == 0
    then (s, more)
    else after_each k c buf s (lines_of c buf s.last_line_visited upto)

-- A step of the output, as a step of the whole state.
abbrev pub within : {σ : Type 0} → State σ → Step (Output σ) → Step (State σ)
within s (o, reply) = (record s { out = o }, reply)

-- `s.hasMatched = true; s.matchCount++`
abbrev pub counted : {σ : Type 0} → State σ → State σ
counted s = record s { has_matched = true; match_count = s.match_count + 1 }

-- The test of the limit that follows a match.
abbrev pub limited : {σ : Type 0} → Config → State σ → State σ
limited c s =
    if at_limit c.max_count s.match_count then record s { match_limit_reached = true } else s

-- Whether the line `buf[start:end]` matches.
abbrev pub verifies : Config → Bytes → Range → Bool
verifies c buf (start, end) =
    c.matcher.verify (without_terminator (slice start end buf) (line_term c) c.crlf)
