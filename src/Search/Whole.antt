-- ===== src/Search/Whole.antt =====
-- search/search.go: `SearchBytes`.
use gripgrep.Base.{
  ℕ, ◌≡◌, refl, ap, ◌∙◌, inl, inr, Bool, true, false, ◌&&◌, ◌||◌, Option, none, some, [], arith,
  ltb, leb, ◌==◌, if◌then◌else◌, Bool-cases, Bytes, length, take,
}
use gripgrep.Base.Find.{index_byte}
use gripgrep.Search.Buffer.{BinaryMode, binary_quit, binary_convert, binary_none, quits, has_some}
use gripgrep.Search.Core.{Config, Sink, Reply, more, enough, failed, State, Step}
use gripgrep.Search.Run.{run_chunk}
use gripgrep.Search.Parallel.{Replayed, parallel_eligible, search_bytes_parallel}

pub record Stats : Type 0 where
  pub matched : Bool
  pub match_count : ℕ
  pub bytes_searched : ℕ
  pub binary_offset : Option ℕ

-- The sink with its calls before and after the search of a file; `begin` answers `enough` where the
-- file is to be passed over, and `finish` answers whether there was no error.
pub record FileSink (σ : Type 0) : Type 0 where
  pub begin : σ → σ × Reply
  pub sink : Sink σ
  pub finish : Stats → σ → σ × Bool

abbrev pub no_stats : Stats
no_stats = record { matched = false; match_count = 0; bytes_searched = 0; binary_offset = none }

-- The NUL that is looked for in the first `DefaultBufferSize` bytes.
unfoldable pub nul_in_prefix : BinaryMode → Bytes → Option ℕ
unfolding index_byte
nul_in_prefix binary_none text = none
nul_in_prefix binary_quit text = index_byte (take 65536 text) 0
nul_in_prefix binary_convert text = index_byte (take 65536 text) 0

abbrev pub searched : BinaryMode → Option ℕ → Bytes → Bytes
searched mode nul text = if quits mode && has_some nul then [] else text

-- `hasMatched` is set with the first match that is counted.
abbrev pub finished : {σ : Type 0} → FileSink σ → ℕ → Option ℕ → Step (σ × Bool × ℕ) → σ × Bool
finished f n nul ((t, matched, count), failed) = (t, false)
finished f n nul ((t, matched, count), more) =
    f.finish
      record { matched = matched; match_count = count; bytes_searched = n; binary_offset = nul } t
finished f n nul ((t, matched, count), enough) =
    f.finish
      record { matched = matched; match_count = count; bytes_searched = n; binary_offset = nul } t

abbrev pub of_run : {σ : Type 0} → Step (State σ) → Step (σ × Bool × ℕ)
of_run (s, reply) = ((s.out.sink, s.has_matched, s.match_count), reply)

abbrev pub of_replay : {σ : Type 0} → Step (Replayed σ) → Step (σ × Bool × ℕ)
of_replay ((t, n), reply) = ((t, ltb 0 n, n), reply)

-- The search after `begin`, which answered to go on. With `ParallelWorkers` and `ParallelMinBytes`.
unfoldable pub search_text :
    {σ : Type 0} → FileSink σ → Config → ℕ → ℕ → Option ℕ → Bytes → σ → σ × Bool
unfolding run_chunk search_bytes_parallel parallel_eligible
search_text f c workers min_bytes nul text t =
    if parallel_eligible c workers min_bytes (length text)
    then finished f (length text) nul (of_replay (search_bytes_parallel f.sink c workers text t))
    else finished f (length text) nul (of_run (run_chunk f.sink c text 0 1 t))

unfoldable pub search_bytes :
    {σ : Type 0} → FileSink σ → Config → BinaryMode → ℕ → ℕ → Bytes → σ → σ × Bool
unfolding search_text nul_in_prefix
search_bytes f c mode workers min_bytes text t = elim (f.begin t).1 [
  | failed ↦ ((f.begin t).0, false)
  | enough ↦ f.finish no_stats (f.begin t).0
  | more ↦
      let nul = nul_in_prefix mode text in
      search_text f c workers min_bytes nul (searched mode nul text) (f.begin t).0
]

module _ {σ : Type 0} (f : FileSink σ) (c : Config) (workers min_bytes : ℕ) where
  begin-more :
      (mode : BinaryMode) (text : Bytes) (t : σ)
      → (f.begin t).1 ≡ more
      → search_bytes f c mode workers min_bytes text t
        ≡ search_text f c workers min_bytes
            (nul_in_prefix mode text)
            (searched mode (nul_in_prefix mode text) text)
            (f.begin t).0
  unfolding search_bytes
  begin-more mode text t h =
      ap
        (λ (r : Reply). elim r as (λ _. σ × Bool) [
          | failed ↦ ((f.begin t).0, false)
          | enough ↦ f.finish no_stats (f.begin t).0
          | more ↦
              search_text f c workers min_bytes (nul_in_prefix mode text)
                (searched mode (nul_in_prefix mode text) text) (f.begin t).0
        ])
        h

  none_eligible : parallel_eligible c workers min_bytes 0 ≡ false
  unfolding parallel_eligible
  none_eligible =
      no_bytes (leb workers 1)
        (c.invert || ltb 0 c.before_context || ltb 0 c.after_context || c.pass_thru)
        (c.crlf || c.null_data)
        (elim (Bool-cases (min_bytes == 0)) [ inl e ↦ rw e refl | inr e ↦ rw e (ground arith) ])
    where
      no_bytes :
          (a b d : Bool) {e : Bool}
          → e ≡ false
          → (if a then false else if b then false else if d then false else e) ≡ false
      no_bytes true b d h = refl
      no_bytes false true d h = refl
      no_bytes false false true h = refl
      no_bytes false false false h = h

  search_text-nil :
      (nul : Option ℕ) (t : σ)
      → search_text f c workers min_bytes nul [] t
        ≡ f.finish (record no_stats { binary_offset = nul }) t
  unfolding search_text
  search_text-nil nul t = rw none_eligible refl

  -- Under `BinaryQuit`, where the sink wants the file searched and a NUL stands in the first 64
  -- KiB, `SearchBytes` searches nothing, on either path and for any number of workers: it goes from
  -- `Begin` straight to `Finish`, which is told that nothing matched, that no byte was searched,
  -- and where the first NUL is.
  pub search_bytes-quit :
      (text : Bytes) (i : ℕ) (t : σ)
      → (f.begin t).1 ≡ more
      → index_byte (take 65536 text) 0 ≡ some i
      → search_bytes f c binary_quit workers min_bytes text t
        ≡ f.finish (record no_stats { binary_offset = some i }) (f.begin t).0
  unfolding nul_in_prefix
  search_bytes-quit text i t h e =
      begin-more binary_quit text t h
      ∙ (ap
            (λ nul.
              search_text f c workers min_bytes nul (searched binary_quit nul text) (f.begin t).0)
            (quit_prefix text ∙ e)
          ∙ search_text-nil (some i) (f.begin t).0)
    where
      quit_prefix : (text : Bytes) → nul_in_prefix binary_quit text ≡ index_byte (take 65536 text) 0
      quit_prefix text = refl
