-- ===== src/Search/Lines.antt =====
-- search/lines.go: the iterator over the lines of a buffer.
pub mod Split
pub mod Locate
pub mod Join
pub mod Region
pub mod Located
use gripgrep.Base.{
  ℕ, zero, suc, ◌+◌, ◌-◌, ◌*◌, ◌/◌, ◌%◌, ◌≤◌, ◌<◌, ◌≡◌, refl, sym, ap, ◌∙◌, subst, ◌≢◌, ◌↔◌, ◌⊎◌,
  inl, inr, Bool, true, false, not, ◌&&◌, ◌||◌, Option, none, some, List, [], ◌∷◌, ◌++◌, map,
  reverse, append-nil, append_assoc, arith, ltb, leb, ◌==◌, if◌then◌else◌, ltb→lt, lt→ltb, leb→le,
  ==_iff, tests, Bool-cases, Option-cases, ◌>>=◌, >>=-eq-some, Bytes, codes, String, length,
  get_elem?, get_or, set, take, drop, length-append, take-append-drop, length-take, length-drop,
  take-le-length, length-set, get_or-set, get_or-append_one, get_or-beyond, get_elem?-append,
  get_elem?-append_self, bytes_equal, bytes_equal_iff, of_some, bytes_equal_refl,
}
use gripgrep.Base.Find.{index_byte, last_index_byte}

-- `lineStep`: the iterator stops at `limit`, Go's `end`.
pub record LineStep : Type 0 where
  pub pos : ℕ
  pub limit : ℕ
  pub term : ℕ

abbrev pub new_line_step : ℕ → ℕ → ℕ → LineStep
new_line_step term start limit = record { pos = start; limit = limit; term = term }

-- `buf[:ls.end]`, which is in range in every call
abbrev pub region : LineStep → Bytes → Bytes
region ls buf = take ls.limit buf

abbrev pub Range : Type 0
Range = ℕ × ℕ

-- The range of the next line, with the iterator after it.
abbrev pub stepped : LineStep → ℕ → Option (Range × LineStep)
stepped ls e = some ((ls.pos, e), record ls { pos = e })

unfoldable pub next : LineStep → Bytes → Option (Range × LineStep)
next ls buf =
    if ltb (length (region ls buf)) ls.pos
    then none
    else (elim (index_byte (drop ls.pos (region ls buf)) ls.term) [
      | some i ↦ stepped ls (ls.pos + i + 1)
      | none ↦
          if ltb ls.pos (length (region ls buf)) then stepped ls (length (region ls buf)) else none
    ])

-- The loops over `next`, for at most so many lines.
unfoldable pub all_lines : ℕ → LineStep → Bytes → List Range
all_lines zero ls buf = []
all_lines (suc fuel) ls buf = elim (next ls buf) [
  | none ↦ []
  | some (r, ls') ↦ r ∷ all_lines fuel ls' buf
]

-- `bytes.LastIndexByte(buf[:start], term)` and the byte after it
unfoldable pub line_start : Bytes → ℕ → ℕ → ℕ
line_start buf term start = elim (last_index_byte (take start buf) term) [
  | some i ↦ i + 1
  | none ↦ 0
]

-- The first terminator from `stop` on, with it, or the end of the buffer.
unfoldable pub line_end : Bytes → ℕ → ℕ → ℕ
line_end buf term stop = elim (index_byte (drop stop buf) term) [
  | some i ↦ stop + i + 1
  | none ↦ length buf
]

-- The range is within the buffer, as it is in every call, so that no byte is read out of range.
unfoldable pub line_locate : Bytes → ℕ → ℕ → ℕ → Range
unfolding line_start line_end
line_locate buf term start stop = (
  line_start buf term start,
  if ltb (line_start buf term start) stop && get_or buf (stop - 1) 0 == term
      then stop
      else line_end buf term stop,
)

-- `buf[from:to]`
abbrev pub slice : ℕ → ℕ → Bytes → Bytes
slice from to buf = drop from (take to buf)

unfoldable pub line_count : Bytes → ℕ → ℕ
line_count [] term = 0
line_count (b ∷ buf) term = (if b == term then 1 else 0) + line_count buf term

-- The line cut to `n` bytes without the carriage return that `--crlf` takes for a part of the
-- terminator.
abbrev pub without_return : Bytes → ℕ → Bool → Bytes
without_return line n crlf =
    if crlf && ltb 0 n && get_or line (n - 1) 0 == 13 then take (n - 1) line else take n line

unfoldable pub without_terminator : Bytes → ℕ → Bool → Bytes
without_terminator line term crlf =
    if length line == 0
    then line
    else if get_or line (length line - 1) 0 == term
    then without_return line (length line - 1) crlf
    else line

-- The loop of `precedingByPos`. Each turn ends before the last one, so that `fuel` turns are enough
-- for a text of fewer bytes.
unfoldable pub preceding_from : ℕ → Bytes → ℕ → ℕ → ℕ → ℕ
preceding_from zero buf term pos count = 0
preceding_from (suc fuel) buf term pos count = elim (last_index_byte (take pos buf) term) [
  | none ↦ 0
  | some i ↦
      let before = preceding_from fuel buf term i (count - 1) in
      if count == 0 then i + 1 else if i == 0 then 0 else before
]

unfoldable pub preceding_by_pos : Bytes → ℕ → ℕ → ℕ → ℕ
unfolding preceding_from
preceding_by_pos buf term pos count =
    if pos == 0
    then 0
    else preceding_from (pos + 1) buf term (if get_or buf (pos - 1) 0 == term then pos - 1 else pos)
        count

unfoldable pub line_preceding : Bytes → ℕ → ℕ → ℕ
unfolding preceding_by_pos
line_preceding buf term count = preceding_by_pos buf term (length buf) count
