-- ===== src/Search/Buffer/Turn.antt =====
-- search/linebuffer.go: one turn of the loop of `fill`.
use gripgrep.Base.{
  ℕ, suc, ◌+◌, ◌<◌, ◌≡◌, refl, sym, ap, ◌∙◌, subst, ◌⊎◌, inl, inr, true, false, ◌&&◌, Option, none,
  some, [], ◌∷◌, ◌++◌, arith, ◌==◌, if◌then◌else◌, ==_iff, Bool-cases, Option-cases, Bytes, length,
  length-append,
}
use gripgrep.Base.Find.{last_index_byte}
use gripgrep.Search.Buffer.{
  LineBuffer, free_room, ensure_capacity, ReadError, no_error, eof, broken, Reader, nul_offset,
  filled, Fill, at_end, converted, quits, has_some, quit_at, kept, fill_from,
}
use gripgrep.Search.Buffer.Stream.{shown, pending, Ordered, Stream, Streamed}
use gripgrep.Search.Buffer.Kept.{
  NoQuit, NoQuit-rest, no_nul, kept-Ordered, kept-Streamed, at_end-Streamed, line-Streamed,
}

nil-of : (b : Bytes) → (length b == 0) ≡ true → b ≡ []
nil-of [] h = refl
nil-of (x ∷ b) h = absurd (ground arith)

end_of :
    {C : Type 0} (err : ReadError) (n : ℕ)
    → (err ≡ eof → C)
    → (err ≡ no_error → 0 < n)
    → n ≡ 0
    → (err ≡ broken) ⊎ C
end_of broken n d g h = inl refl
end_of eof n d g h = inr (d refl)
end_of no_error n d g h = absurd (let p = g refl in omega arith)

module _ {ρ : Type 0} (r : Reader ρ) (stream : Stream r) where
  -- A result of the loop that is right.
  abbrev pub EndsWell : LineBuffer → ρ → Option (Fill ρ) → Type 0
  EndsWell lb s m = (x : Fill ρ) × (m ≡ some x) × Streamed r stream lb s x

  abbrev pub GoesOn : ℕ → LineBuffer → ρ → Type 0
  GoesOn fuel lb s =
      Ordered lb
      → lb.pos ≡ 0
      → NoQuit lb.binary_mode (stream.content s)
      → length (stream.content s) < fuel
      → EndsWell lb s (fill_from fuel r s lb)

  -- What the loop does with a chunk that has no terminator, by the error that came with it.
  abbrev onward : ℕ → LineBuffer → Bytes → ρ → ReadError → Option (Fill ρ)
  onward fuel lb chunk s no_error = fill_from fuel r s (kept lb chunk)
  onward fuel lb chunk s eof = some (at_end eof (kept lb chunk) s)
  onward fuel lb chunk s broken = some (at_end broken (kept lb chunk) s)

  -- One turn of the loop, after the read.
  abbrev pub handled : ℕ → LineBuffer → Bytes → ReadError → ρ → Option (Fill ρ)
  handled fuel lb chunk err s =
      if length chunk == 0
      then some (at_end err lb s)
      else if quits lb.binary_mode && has_some (nul_offset lb chunk)
      then some (quit_at lb chunk s)
      else (elim (last_index_byte (converted lb.binary_mode chunk) lb.term) [
        | some i ↦ some (record (kept lb chunk) { last = lb.end + i + 1 }, s, filled true)
        | none ↦ onward fuel lb chunk s err
      ])

  pub fill_from-handled :
      (fuel : ℕ) (s : ρ) (lb : LineBuffer)
      → fill_from (suc fuel) r s lb
        ≡ handled fuel
            (ensure_capacity lb)
            (r.read s (free_room (ensure_capacity lb))).0
            (r.read s (free_room (ensure_capacity lb))).1
            (r.read s (free_room (ensure_capacity lb))).2
  unfolding fill_from
  fill_from-handled fuel s lb = refl

  onward-Streamed :
      (fuel : ℕ) (lb : LineBuffer) (chunk : Bytes) (err : ReadError) (s s' : ρ)
      → Ordered lb
      → lb.pos ≡ 0
      → NoQuit lb.binary_mode (stream.content s)
      → stream.content s ≡ chunk ++ stream.content s'
      → (err ≡ eof → stream.content s' ≡ [])
      → length (stream.content s') < fuel
      → ((lb' : LineBuffer) → GoesOn fuel lb' s')
      → EndsWell lb s (onward fuel lb chunk s' err)
  unfolding kept
  onward-Streamed fuel lb chunk no_error s s' o p n e d l later =
      let (x, q, h) =
        later (kept lb chunk) (kept-Ordered lb chunk o) p
          (NoQuit-rest lb.binary_mode chunk (stream.content s') (subst (NoQuit lb.binary_mode) e n))
          l in
      (x, q, kept-Streamed r stream lb chunk s s' x o p e h)
  onward-Streamed fuel lb chunk eof s s' o p n e d l later = (
    at_end eof (kept lb chunk) s',
    refl,
    kept-Streamed r stream lb chunk s s' _ o p e
        (at_end-Streamed r stream eof (kept lb chunk) s' (kept-Ordered lb chunk o) (inr (d refl))),
  )
  onward-Streamed fuel lb chunk broken s s' o p n e d l later = (
    at_end broken (kept lb chunk) s',
    refl,
    kept-Streamed r stream lb chunk s s' _ o p e
        (at_end-Streamed r stream broken (kept lb chunk) s' (kept-Ordered lb chunk o) (inl refl)),
  )

  handled-empty :
      (fuel : ℕ) (lb : LineBuffer) (chunk : Bytes) (err : ReadError) (s : ρ)
      → (length chunk == 0) ≡ true
      → handled fuel lb chunk err s ≡ some (at_end err lb s)
  handled-empty fuel lb chunk err s h = rw h refl

  handled-kept :
      (fuel : ℕ) (lb : LineBuffer) (chunk : Bytes) (err : ReadError) (s : ρ) (m : Option ℕ)
      → (length chunk == 0) ≡ false
      → (quits lb.binary_mode && has_some (nul_offset lb chunk)) ≡ false
      → last_index_byte (converted lb.binary_mode chunk) lb.term ≡ m
      → handled fuel lb chunk err s ≡ (elim m [
        | some i ↦ some (record (kept lb chunk) { last = lb.end + i + 1 }, s, filled true)
        | none ↦ onward fuel lb chunk s err
      ])
  handled-kept fuel lb chunk err s m h q e =
      ap
        (λ b.
          if b
          then some (at_end err lb s)
          else if quits lb.binary_mode && has_some (nul_offset lb chunk)
          then some (quit_at lb chunk s)
          else (elim (last_index_byte (converted lb.binary_mode chunk) lb.term) [
            | some i ↦ some (record (kept lb chunk) { last = lb.end + i + 1 }, s, filled true)
            | none ↦ onward fuel lb chunk s err
          ]))
        h
      ∙ (ap
            (λ b.
              if b
              then some (quit_at lb chunk s)
              else (elim (last_index_byte (converted lb.binary_mode chunk) lb.term) [
                | some i ↦ some (record (kept lb chunk) { last = lb.end + i + 1 }, s, filled true)
                | none ↦ onward fuel lb chunk s err
              ]))
            q
          ∙ ap
              (λ (z : Option ℕ). elim z as (λ _. Option (Fill ρ)) [
                | some i ↦ some (record (kept lb chunk) { last = lb.end + i + 1 }, s, filled true)
                | none ↦ onward fuel lb chunk s err
              ])
              e)

  Streamed-same :
      (lb : LineBuffer) (s s' : ρ) (x : Fill ρ)
      → stream.content s ≡ stream.content s'
      → Streamed r stream lb s' x
      → Streamed r stream lb s x
  Streamed-same lb s s' x e h = record {
    ordered = h.ordered;
    same = h.same ∙ ap (λ z. pending lb ++ shown lb.binary_mode z) (sym e);
    offset = h.offset;
    same_term = h.same_term;
    same_mode = h.same_mode;
    answer = h.answer;
  }

  pub handled-Streamed :
      (fuel : ℕ) (lb : LineBuffer) (chunk : Bytes) (err : ReadError) (s s' : ρ)
      → Ordered lb
      → lb.pos ≡ 0
      → NoQuit lb.binary_mode (stream.content s)
      → stream.content s ≡ chunk ++ stream.content s'
      → (err ≡ eof → stream.content s' ≡ [])
      → (err ≡ no_error → 0 < length chunk)
      → length (stream.content s) < suc fuel
      → ((lb' : LineBuffer) → GoesOn fuel lb' s')
      → EndsWell lb s (handled fuel lb chunk err s')
  handled-Streamed fuel lb chunk err s s' o p n e d g l later =
      let m = ap length e ∙ length-append chunk (stream.content s') in
      elim (Bool-cases (length chunk == 0)) [
        | inl z ↦ (
          at_end err lb s',
          handled-empty fuel lb chunk err s' z,
          Streamed-same lb s s' _ (e ∙ ap (λ u. u ++ stream.content s') (nil-of chunk z)) (
              at_end-Streamed r stream err lb s' o
                (end_of err (length chunk) d g ((==_iff _ _).0 z))),
        )
        | inr z ↦ elim (Option-cases (last_index_byte (converted lb.binary_mode chunk) lb.term)) [
          | inr (i, q) ↦ (
            (record (kept lb chunk) { last = lb.end + i + 1 }, s', filled true),
            handled-kept fuel lb chunk err s' (some i) z
                (no_nul lb chunk (stream.content s') (subst (NoQuit lb.binary_mode) e n)) q,
            kept-Streamed r stream lb chunk s s' _ o p e
                (line-Streamed r stream lb chunk s' i o p q),
          )
          | inl q ↦
              let (x, w, h) =
                onward-Streamed fuel lb chunk err s s' o p n e d (ground arith) later in
              (
                x,
                handled-kept fuel lb chunk err s' none z
                      (no_nul lb chunk (stream.content s') (subst (NoQuit lb.binary_mode) e n)) q
                    ∙ w,
                h,
              )
        ]
      ]
