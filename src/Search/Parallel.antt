-- ===== src/Search/Parallel.antt =====
-- search/parallel.go: the parts of a text that are searched on their own.
pub mod Chunks
pub mod Replay
use gripgrep.Base.{
  ℕ, zero, suc, ◌+◌, ◌-◌, ◌*◌, ◌/◌, ◌%◌, ◌≤◌, ◌<◌, ◌≡◌, refl, sym, ap, ◌∙◌, subst, ◌≢◌, ◌↔◌, ◌⊎◌,
  inl, inr, Bool, true, false, not, ◌&&◌, ◌||◌, Option, none, some, List, [], ◌∷◌, ◌++◌, map,
  reverse, append-nil, append_assoc, arith, ltb, leb, ◌==◌, if◌then◌else◌, ltb→lt, lt→ltb, leb→le,
  ==_iff, tests, Bool-cases, Option-cases, ◌>>=◌, >>=-eq-some, Bytes, codes, String, length,
  get_elem?, get_or, set, take, drop, length-append, take-append-drop, length-take, length-drop,
  take-le-length, length-set, get_or-set, get_or-append_one, get_or-beyond, get_elem?-append,
  get_elem?-append_self, bytes_equal, bytes_equal_iff, of_some, bytes_equal_refl,
}
use gripgrep.Base.Find.{index_byte}
use gripgrep.Search.Lines.{Range, slice}
use gripgrep.Search.Core.{
  Config, Sink, Match, Ctx, Reply, more, enough, failed, State, Step, and_then, at_limit,
  count_lines,
}
use gripgrep.Search.Run.{run_chunk}

-- `parallelEligible`, where `workers` and `min_bytes` are `ParallelWorkers` and `ParallelMinBytes`.
unfoldable pub parallel_eligible : Config → ℕ → ℕ → ℕ → Bool
parallel_eligible c workers min_bytes n =
    if leb workers 1
    then false
    else if c.invert || ltb 0 c.before_context || ltb 0 c.after_context || c.pass_thru
    then false
    else if c.crlf || c.null_data
    then false
    else leb (if min_bytes == 0 then 67108864 else min_bytes) n

-- A place that is no cut between the last one and the end.
unfoldable pub passes : ℕ → ℕ → ℕ → Bool
passes at pos stop = leb at pos || leb stop at

-- The loop over `i` in `splitChunks`, for so many more turns: the places where a part ends.
unfoldable pub bounds_from : ℕ → ℕ → ℕ → Bytes → ℕ → List ℕ
unfolding index_byte passes
bounds_from zero i target text pos = []
bounds_from (suc turns) i target text pos = elim (passes (i * target) pos (length text)) [
  | true ↦ bounds_from turns (i + 1) target text pos
  | false ↦ elim (index_byte (drop (i * target) text) 10) [
    | none ↦ []
    | some idx ↦
        let at = i * target + idx + 1 in
        elim (passes at pos (length text)) [
          | true ↦ bounds_from turns (i + 1) target text pos
          | false ↦ at ∷ bounds_from turns (i + 1) target text at
        ]
  ]
]

abbrev pub ranges_of : ℕ → List ℕ → ℕ → List Range
ranges_of prev [] stop = (prev, stop) ∷ []
ranges_of prev (b ∷ bounds) stop = (prev, b) ∷ ranges_of b bounds stop

abbrev pub at_least_one : ℕ → ℕ
at_least_one n = if n == 0 then 1 else n

unfoldable pub split_chunks : Bytes → ℕ → List Range
unfolding bounds_from
split_chunks text n =
    let n1 = at_least_one n in
    if length text == 0 || n1 == 1
    then (0, length text) ∷ []
    else ranges_of 0 (bounds_from (n1 - 1) 1 (at_least_one (length text / n1)) text 0) (length text)

-- `recordedEvent`, by its kind
pub data RecordedEvent : Type 0 where
  recorded_match : Match → RecordedEvent
  recorded_context : Ctx → RecordedEvent

-- `chunkRecorder`, and the sink that it is.
pub record Recorded : Type 0 where
  pub events : List RecordedEvent
  pub has_matched : Bool
  pub match_count : ℕ

abbrev pub nothing_recorded : Recorded
nothing_recorded = record { events = []; has_matched = false; match_count = 0 }

abbrev pub chunk_recorder : Sink Recorded
chunk_recorder = record {
  matched = λ m r. (
    record {
      events = r.events ++ recorded_match m ∷ [];
      has_matched = true;
      match_count = r.match_count + 1;
    },
    more,
  );
  context = λ x r. (record r { events = r.events ++ recorded_context x ∷ [] }, more);
}

-- The searcher of one part: all that it does not take over from `c` is as a new searcher has it.
abbrev pub child_config : Config → Config
child_config c = record {
  matcher = c.matcher;
  invert = false;
  line_numbers = c.line_numbers;
  crlf = false;
  null_data = false;
  before_context = 0;
  after_context = 0;
  pass_thru = false;
  max_count = none;
}

-- What the goroutine of one part leaves: the events, and how many lines there are.
unfoldable pub search_part : Config → Bytes → Range → List RecordedEvent × ℕ
unfolding run_chunk count_lines
search_part c text (start, end) =
    let part = slice start end text in
    let child = (run_chunk chunk_recorder (child_config c) part start 1 nothing_recorded).0 in
    (
      child.out.sink.events,
      (count_lines (child_config c) part child.out (length part)).line_number - 1,
    )

-- A recorded event with its line number moved from its part to the file.
abbrev pub moved : ℕ → Option ℕ → Option ℕ
moved offset none = none
moved offset (some n) = some (n + offset)

abbrev pub event_moved : ℕ → RecordedEvent → RecordedEvent
event_moved offset (recorded_match m) =
    recorded_match (record m { line_number = moved offset m.line_number })
event_moved offset (recorded_context x) =
    recorded_context (record x { line_number = moved offset x.line_number })

abbrev pub replay : {σ : Type 0} → Sink σ → RecordedEvent → σ → σ × Reply
replay k (recorded_match m) t = k.matched m t
replay k (recorded_context x) t = k.context x t

abbrev pub is_match : RecordedEvent → Bool
is_match (recorded_match m) = true
is_match (recorded_context x) = false

-- The state of the caller's sink, with how many matches it was given.
abbrev pub Replayed : Type 0 → Type 0
Replayed σ = σ × ℕ

abbrev pub replayed : {σ : Type 0} → ℕ → RecordedEvent → σ × Reply → Step (Replayed σ)
replayed n ev (t, failed) = ((t, n), failed)
replayed n ev (t, enough) = ((t, if is_match ev then n + 1 else n), enough)
replayed n ev (t, more) = ((t, if is_match ev then n + 1 else n), more)

-- The inner loop of the replay.
unfoldable pub replay_each :
    {σ : Type 0} → Sink σ → Option ℕ → ℕ → List RecordedEvent → Replayed σ → Step (Replayed σ)
replay_each k limit offset [] s = (s, more)
replay_each k limit offset (ev ∷ events) s =
    if is_match ev && at_limit limit s.1
    then (s, enough)
    else and_then (replayed s.1 ev (replay k (event_moved offset ev) s.0))
        (λ s'. replay_each k limit offset events s')

-- The outer loop, which is given the lines before the part.
unfoldable pub replay_parts :
    {σ : Type 0}
    → Sink σ
    → Option ℕ
    → ℕ
    → List (List RecordedEvent × ℕ)
    → Replayed σ
    → Step (Replayed σ)
unfolding replay_each
replay_parts k limit before [] s = (s, more)
replay_parts k limit before ((events, n) ∷ parts) s =
    and_then (replay_each k limit before events s)
      (λ s'. replay_parts k limit (before + n) parts s')

-- `searchBytesParallel`. The parts do not depend on each other, so that the order in which the
-- goroutines run makes no difference.
unfoldable pub search_bytes_parallel :
    {σ : Type 0} → Sink σ → Config → ℕ → Bytes → σ → Step (Replayed σ)
unfolding split_chunks search_part replay_parts run_chunk
search_bytes_parallel k c workers text t =
    if leb (length (split_chunks text workers)) 1
    then (let m = run_chunk k c text 0 1 t in ((m.0.out.sink, m.0.match_count), m.1))
    else replay_parts k c.max_count 0 (map (search_part c text) (split_chunks text workers)) (t, 0)
