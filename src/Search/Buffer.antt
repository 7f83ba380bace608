-- ===== src/Search/Buffer.antt =====
-- search/linebuffer.go: the rolling read buffer.
pub mod Nul
pub mod Stream
pub mod Kept
pub mod Turn
pub mod Fill
use gripgrep.Base.{
  ℕ, zero, suc, ◌+◌, ◌-◌, ◌*◌, ◌/◌, ◌%◌, ◌≤◌, ◌<◌, ◌≡◌, refl, sym, ap, ◌∙◌, subst, ◌≢◌, ◌↔◌, ◌⊎◌,
  inl, inr, Bool, true, false, not, ◌&&◌, ◌||◌, Option, none, some, List, [], ◌∷◌, ◌++◌, map,
  reverse, append-nil, append_assoc, arith, ltb, leb, ◌==◌, if◌then◌else◌, ltb→lt, lt→ltb, leb→le,
  ==_iff, tests, Bool-cases, Option-cases, ◌>>=◌, >>=-eq-some, Bytes, codes, String, length,
  get_elem?, get_or, set, take, drop, length-append, take-append-drop, length-take, length-drop,
  take-le-length, length-set, get_or-set, get_or-append_one, get_or-beyond, get_elem?-append,
  get_elem?-append_self, bytes_equal, bytes_equal_iff, of_some, bytes_equal_refl,
}
use gripgrep.Base.Find.{index_byte, last_index_byte}
use gripgrep.Search.Lines.{slice}

-- `BinaryMode`
pub data BinaryMode : Type 0 where
  binary_quit binary_convert binary_none : BinaryMode

-- `lineBuffer`; `last` is `lastLineTerm`.
pub record LineBuffer : Type 0 where
  pub buf : Bytes
  pub pos : ℕ
  pub last : ℕ
  pub end : ℕ
  pub absolute_offset : ℕ
  pub binary_mode : BinaryMode
  pub binary_offset : Option ℕ
  pub term : ℕ

abbrev pub zeros : ℕ → Bytes
zeros zero = []
zeros (suc n) = 0 ∷ zeros n

abbrev pub new_line_buffer : ℕ → LineBuffer
new_line_buffer capacity = record {
  buf = zeros capacity;
  pos = 0;
  last = 0;
  end = 0;
  absolute_offset = 0;
  binary_mode = binary_quit;
  binary_offset = none;
  term = 0;
}

abbrev pub reset : LineBuffer → BinaryMode → ℕ → LineBuffer
reset lb mode term = record {
  buf = lb.buf;
  pos = 0;
  last = 0;
  end = 0;
  absolute_offset = 0;
  binary_mode = mode;
  binary_offset = none;
  term = term;
}

-- `buffer`
abbrev pub readable : LineBuffer → Bytes
readable lb = slice lb.pos lb.last lb.buf

-- `freeBuffer`, which only its length matters of
abbrev pub free_room : LineBuffer → ℕ
free_room lb = length lb.buf - lb.end

unfoldable pub consume : LineBuffer → ℕ → LineBuffer
consume lb amt = record lb { pos = lb.pos + amt; absolute_offset = lb.absolute_offset + amt }

unfoldable pub roll : LineBuffer → LineBuffer
roll lb = if lb.pos == lb.end then record lb { pos = 0; last = 0; end = 0 } else record lb {
  buf = slice lb.pos lb.end lb.buf ++ drop (lb.end - lb.pos) lb.buf;
  pos = 0;
  last = lb.end - lb.pos;
  end = lb.end - lb.pos;
}

unfoldable pub ensure_capacity : LineBuffer → LineBuffer
ensure_capacity lb =
    if ltb 0 (free_room lb)
    then lb
    else record lb { buf = lb.buf ++ zeros (if length lb.buf == 0 then 1 else length lb.buf) }

-- The NULs at the start.
unfoldable pub nul_run : Bytes → ℕ
nul_run [] = 0
nul_run (x ∷ b) = if x == 0 then nul_run b + 1 else 0

abbrev pub new_lines : ℕ → Bytes
new_lines zero = []
new_lines (suc n) = 10 ∷ new_lines n

-- The loop of `replaceNULInPlace` on `b[j:]`. Each turn goes past a byte, so that `fuel` turns are
-- enough for fewer bytes.
unfoldable pub replace_rest : ℕ → Bytes → Bytes
unfolding nul_run
replace_rest zero b = b
replace_rest (suc fuel) b = elim (index_byte b 0) [
  | none ↦ b
  | some k ↦
      let after = drop (k + 1) b in
      take k b ++ 10 ∷ (new_lines (nul_run after) ++ replace_rest fuel (drop (nul_run after) after))
]

unfoldable pub replace_nul_in_place : Bytes → Bytes
unfolding replace_rest
replace_nul_in_place b = elim (index_byte b 0) [
  | none ↦ b
  | some i ↦ take i b ++ 10 ∷ replace_rest (length b + 1) (drop (i + 1) b)
]

-- The error that a read gives, and a reader with its state: a read is given the room that there is.
pub data ReadError : Type 0 where
  no_error eof broken : ReadError

pub record Reader (ρ : Type 0) : Type 0 where
  pub read : ρ → ℕ → Bytes × ReadError × ρ

-- `buf[oldEnd:]` after a read
abbrev pub received : LineBuffer → Bytes → LineBuffer
received lb chunk = record lb {
  buf = take lb.end lb.buf ++ chunk ++ drop (lb.end + length chunk) lb.buf;
  end = lb.end + length chunk;
}

-- Where the first NUL of a chunk that comes to stand at `end` is in the file.
unfoldable pub nul_offset : LineBuffer → Bytes → Option ℕ
unfolding index_byte
nul_offset lb chunk = index_byte chunk 0 >>= λ i. some (lb.absolute_offset + (lb.end + i))

-- What `fill` answers: whether there is something to search, or the error.
pub data Filled : Type 0 where
  filled : Bool → Filled
  read_failed : Filled

abbrev pub Fill : Type 0 → Type 0
Fill ρ = LineBuffer × ρ × Filled

-- The ends of the loop: the whole of the buffer is readable.
unfoldable pub all_readable : {ρ : Type 0} → LineBuffer → ρ → Fill ρ
all_readable lb s =
    let lb1 = record lb { last = lb.end } in (lb1, s, filled (ltb 0 (length (readable lb1))))

unfoldable pub at_end : {ρ : Type 0} → ReadError → LineBuffer → ρ → Fill ρ
unfolding all_readable
at_end broken lb s = (lb, s, read_failed)
at_end eof lb s = all_readable lb s
at_end no_error lb s = all_readable lb s

-- The chunk as it is kept, with the place of the first NUL.
unfoldable pub converted : BinaryMode → Bytes → Bytes
unfolding replace_nul_in_place
converted binary_convert chunk = replace_nul_in_place chunk
converted binary_quit chunk = chunk
converted binary_none chunk = chunk

abbrev pub first_some : Option ℕ → Option ℕ → Option ℕ
first_some (some n) m = some n
first_some none m = m

unfoldable pub noted : BinaryMode → LineBuffer → Bytes → Option ℕ
unfolding nul_offset
noted binary_convert lb chunk = first_some lb.binary_offset (nul_offset lb chunk)
noted binary_quit lb chunk = lb.binary_offset
noted binary_none lb chunk = lb.binary_offset

abbrev pub quits : BinaryMode → Bool
quits binary_quit = true
quits binary_convert = false
quits binary_none = false

abbrev pub has_some : Option ℕ → Bool
has_some none = false
has_some (some n) = true

-- The buffer that quits at a chunk with a NUL: the chunk is dropped whole.
abbrev pub quit_at : {ρ : Type 0} → LineBuffer → Bytes → ρ → Fill ρ
quit_at lb chunk s = (
  record (received lb chunk) { end = lb.end; last = lb.end; binary_offset = nul_offset lb chunk },
  s,
  filled (ltb lb.pos lb.end),
)

-- The buffer with a chunk that is kept.
unfoldable pub kept : LineBuffer → Bytes → LineBuffer
unfolding converted noted
kept lb chunk = record (received lb (converted lb.binary_mode chunk)) {
  binary_offset = noted lb.binary_mode lb chunk;
}

-- The loop of `fill`; `none` where the fuel runs out.
unfoldable pub fill_from : {ρ : Type 0} → ℕ → Reader ρ → ρ → LineBuffer → Option (Fill ρ)
unfolding ensure_capacity kept at_end nul_offset last_index_byte
fill_from zero r s lb = none
fill_from (suc fuel) r s lb =
    let lb1 = ensure_capacity lb in
    let (chunk, err, s') = r.read s (free_room lb1) in
    if length chunk == 0
    then some (at_end err lb1 s')
    else if quits lb1.binary_mode && has_some (nul_offset lb1 chunk)
    then some (quit_at lb1 chunk s')
    else (elim (last_index_byte (converted lb1.binary_mode chunk) lb1.term) [
      | some i ↦ some (record (kept lb1 chunk) { last = lb1.end + i + 1 }, s', filled true)
      | none ↦ elim err [
        | no_error ↦ fill_from fuel r s' (kept lb1 chunk)
        | eof ↦ some (at_end eof (kept lb1 chunk) s')
        | broken ↦ some (at_end broken (kept lb1 chunk) s')
      ]
    ])

unfoldable pub fill : {ρ : Type 0} → ℕ → Reader ρ → ρ → LineBuffer → Option (Fill ρ)
unfolding roll fill_from
fill fuel r s lb =
    if quits lb.binary_mode && has_some lb.binary_offset
    then some (lb, s, filled (ltb 0 (length (readable lb))))
    else fill_from fuel r s (roll lb)
