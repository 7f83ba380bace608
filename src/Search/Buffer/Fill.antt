-- ===== src/Search/Buffer/Fill.antt =====
-- search/linebuffer.go: `fill` ends, and answers with lines that are whole.
use gripgrep.Base.{
  ℕ, zero, suc, ◌-◌, ◌≤◌, ◌<◌, ◌≡◌, refl, sym, ap, ◌∙◌, inl, inr, false, ◌&&◌, some, ◌++◌, arith,
  ◌==◌, Bool-cases, Bytes, length, take, drop, length-append,
}
use gripgrep.Search.Lines.Region.{slice-nil, length-slice}
use gripgrep.Search.Buffer.{
  LineBuffer, free_room, roll, Reader, Fill, quits, has_some, fill_from, fill,
}
use gripgrep.Search.Buffer.Stream.{
  shown, pending, Ordered, Stream, take-front, take-exact, ensure_capacity-zeros, Streamed,
}
use gripgrep.Search.Buffer.Kept.{NoQuit}
use gripgrep.Search.Buffer.Turn.{GoesOn, handled, fill_from-handled, handled-Streamed}

module _ {ρ : Type 0} (r : Reader ρ) (stream : Stream r) where
  fill_from-Streamed : (fuel : ℕ) (lb : LineBuffer) (s : ρ) → GoesOn r stream fuel lb s
  fill_from-Streamed zero lb s o p n l = absurd (omega arith)
  fill_from-Streamed (suc fuel) lb s o p n l =
      let (extra, e, room) = ensure_capacity-zeros lb o.back in
      let lb1 = record lb { buf = lb.buf ++ extra } in
      let more_room = length-append lb.buf extra in
      let got = r.read s (free_room lb1) in
      let (x, q, h) =
        handled-Streamed r stream fuel lb1 got.0 got.1 s got.2
          record { front = o.front; middle = o.middle; back = (let b = o.back in omega arith) } p n
          (stream.splits s (free_room lb1)) (stream.ends s (free_room lb1))
          (stream.gives s (free_room lb1) room) l
          (λ lb' o' p' n' l'. fill_from-Streamed fuel lb' got.2 o' p' n' l') in
      (
        x,
        fill_from-handled r stream fuel s lb
            ∙ (ap
                  (λ z.
                    handled r stream fuel z (r.read s (free_room z)).0 (r.read s (free_room z)).1
                      (r.read s (free_room z)).2)
                  e
                ∙ q),
        record {
          ordered = h.ordered;
          same =
              h.same
              ∙ ap (λ z. drop lb.pos z ++ shown lb.binary_mode (stream.content s))
                  (take-front lb.end lb.buf extra o.back);
          offset = h.offset;
          same_term = h.same_term;
          same_mode = h.same_mode;
          answer = h.answer;
        },
      )

  -- What is pending stands at the start after `roll`.
  roll-pending :
      (lb : LineBuffer)
      → Ordered lb
      → (b : Bytes) × (n : ℕ) × (roll lb ≡ record lb { buf = b; pos = 0; last = n; end = n })
        × (n ≤ length b)
        × (take n b ≡ pending lb)
  unfolding roll
  roll-pending lb o = elim (Bool-cases (lb.pos == lb.end)) [
    | inl e ↦
        (lb.buf, 0, simp e refl, omega arith, sym (slice-nil lb.pos lb.end lb.buf (ground arith)))
    | inr e ↦
        let f = o.front in
        let m = o.middle in
        let l = length-slice lb.pos lb.end lb.buf (omega arith) o.back in
        let d = length-append (pending lb) (drop (lb.end - lb.pos) lb.buf) in
        (
          pending lb ++ drop (lb.end - lb.pos) lb.buf,
          lb.end - lb.pos,
          simp e refl,
          omega arith,
          take-exact (lb.end - lb.pos) (pending lb) (drop (lb.end - lb.pos) lb.buf) (omega arith),
        )
  ]

  fill-fill_from :
      (fuel : ℕ) (lb : LineBuffer) (s : ρ)
      → (quits lb.binary_mode && has_some lb.binary_offset) ≡ false
      → fill fuel r s lb ≡ fill_from fuel r s (roll lb)
  unfolding fill
  fill-fill_from fuel lb s h = rw h refl

  -- From a buffer whose places are in order and that has not quit, with more turns than the stream
  -- has bytes left, `fill` returns, for a reader that gives the bytes of a stream that ends, and
  -- that never gives an empty read without an error where there is room; the places are in order
  -- again; the bytes that are pending in the buffer and those still to come, with NULs turned to
  -- line feeds under `BinaryConvert`, stay the same, as does the absolute offset; without an error
  -- it says whether there is something to search, and that is lines with their terminators, or all
  -- that is pending where the stream has ended; this is under `BinaryQuit` for a stream without a
  -- NUL.
  pub fill-Streamed :
      (fuel : ℕ) (lb : LineBuffer) (s : ρ)
      → Ordered lb
      → (quits lb.binary_mode && has_some lb.binary_offset) ≡ false
      → NoQuit lb.binary_mode (stream.content s)
      → length (stream.content s) < fuel
      → (x : Fill ρ) × (fill fuel r s lb ≡ some x) × Streamed r stream lb s x
  fill-Streamed fuel lb s o c n l =
      let (b, m, e, k, t) = roll-pending lb o in
      let rolled = record lb { buf = b; pos = 0; last = m; end = m } in
      let (x, q, h) =
        fill_from-Streamed fuel rolled s
          record { front = omega arith; middle = omega arith; back = k } refl n l in
      (
        x,
        fill-fill_from fuel lb s c ∙ (ap (fill_from fuel r s) e ∙ q),
        record {
          ordered = h.ordered;
          same = h.same ∙ ap (λ z. z ++ shown lb.binary_mode (stream.content s)) t;
          offset = h.offset;
          same_term = h.same_term;
          same_mode = h.same_mode;
          answer = h.answer;
        },
      )
