-- ===== src/Search/Buffer/Kept.antt =====
-- search/linebuffer.go: what a chunk that is kept, or the end of the stream, makes of the buffer.
use gripgrep.Base.{
  ℕ, ◌+◌, ◌≤◌, ◌≡◌, refl, sym, ap, ◌∙◌, ◌⊎◌, inl, inr, Bool, true, false, ◌&&◌, none, some, [], ◌∷◌,
  ◌++◌, append_assoc, arith, ltb, Bytes, length, take, drop, length-append, length-take, of_some,
}
use gripgrep.Base.Find.{
  index_byte, last_index_byte, Free, Free-append_left, Free-append_right, index_byte-none_iff,
  last_index_byte-append, last_index_byte-none, last_cases,
}
use gripgrep.Search.Buffer.{
  BinaryMode, LineBuffer, readable, ReadError, no_error, eof, broken, Reader, nul_offset, filled,
  Fill, all_readable, at_end, converted, quits, has_some, kept,
}
use gripgrep.Search.Buffer.Stream.{
  shown, pending, Ordered, Stream, converted-shown, shown-join, take-exact, received-front,
  received-back, Streamed,
}

-- There is no NUL to quit at.
abbrev pub NoQuit : BinaryMode → Bytes → Type 0
NoQuit mode b = (quits mode ≡ false) ⊎ Free 0 b

pub NoQuit-rest : (mode : BinaryMode) (u v : Bytes) → NoQuit mode (u ++ v) → NoQuit mode v
NoQuit-rest mode u v (inl h) = inl h
NoQuit-rest mode u v (inr h) = inr (Free-append_right 0 u v h)

pub no_nul :
    (lb : LineBuffer) (u v : Bytes)
    → NoQuit lb.binary_mode (u ++ v)
    → (quits lb.binary_mode && has_some (nul_offset lb u)) ≡ false
unfolding nul_offset
no_nul lb u v (inl h) = rw h refl
no_nul lb u v (inr h) =
    let e : index_byte u 0 ≡ none = (index_byte-none_iff u 0).1 (Free-append_left 0 u v h) in
    let q : has_some (nul_offset lb u) ≡ false = rw (e, nul_offset) refl in
    right_false (quits lb.binary_mode) _ q
  where
    right_false : (a b : Bool) → b ≡ false → (a && b) ≡ false
    right_false true b e = e
    right_false false b e = refl

pending-start : (lb : LineBuffer) → lb.pos ≡ 0 → pending lb ≡ take lb.end lb.buf
pending-start lb h = ap (λ p. drop p (take lb.end lb.buf)) h

readable-start : (lb : LineBuffer) → lb.pos ≡ 0 → readable lb ≡ take lb.last lb.buf
readable-start lb h = ap (λ p. drop p (take lb.last lb.buf)) h

kept-front :
    (lb : LineBuffer) (chunk : Bytes)
    → lb.end ≤ length lb.buf
    → take (kept lb chunk).end (kept lb chunk).buf
      ≡ take lb.end lb.buf ++ shown lb.binary_mode chunk
unfolding kept
kept-front lb chunk h =
    received-front lb (converted lb.binary_mode chunk) h
    ∙ ap (λ z. take lb.end lb.buf ++ z) (converted-shown lb.binary_mode chunk)

pub kept-Ordered : (lb : LineBuffer) (chunk : Bytes) → Ordered lb → Ordered (kept lb chunk)
unfolding kept
kept-Ordered lb chunk o = record {
  front = o.front;
  middle = (let h = o.middle in omega arith);
  back = received-back lb (converted lb.binary_mode chunk) o.back;
}

-- A chunk that ends a line, with what follows the line.
last-terminator :
    (b : Bytes) (c i : ℕ)
    → last_index_byte b c ≡ some i
    → (u : Bytes) × (v : Bytes) × (b ≡ u ++ c ∷ v) × (length u ≡ i)
last-terminator b c i h = elim (last_cases b c) [
  | inl f ↦ cc (last_index_byte-none b c f, h)
  | inr (u, v, e, f) ↦ (
    u,
    v,
    e,
    of_some (sym (last_index_byte-append u v c f) ∙ (ap (λ z. last_index_byte z c) (sym e) ∙ h)),
  )
]

-- A line in a longer text, up to its terminator.
around_term : (a u v b : Bytes) (t : ℕ) → a ++ (u ++ t ∷ v) ++ b ≡ ((a ++ u) ++ t ∷ []) ++ (v ++ b)
around_term a u v b t =
    append_assoc a (u ++ t ∷ v) b
    ∙ (ap (λ z. a ++ z) (append_assoc u (t ∷ v) b)
        ∙ (sym (append_assoc a u (t ∷ (v ++ b))) ∙ sym (append_assoc (a ++ u) (t ∷ []) (v ++ b))))

ended-readable : (b w : Bytes) (t : ℕ) → b ≡ w ++ t ∷ [] → ltb 0 (length b) ≡ true
ended-readable b w t e = let m = ap length e ∙ length-append w (t ∷ []) in ground arith

module _ {ρ : Type 0} (r : Reader ρ) (stream : Stream r) where
  pub kept-Streamed :
      (lb : LineBuffer) (chunk : Bytes) (s s' : ρ) (x : Fill ρ)
      → Ordered lb
      → lb.pos ≡ 0
      → stream.content s ≡ chunk ++ stream.content s'
      → Streamed r stream (kept lb chunk) s' x
      → Streamed r stream lb s x
  unfolding kept
  kept-Streamed lb chunk s s' x o p e h = record {
    ordered = h.ordered;
    same =
        h.same
        ∙ (ap (λ z. z ++ shown lb.binary_mode (stream.content s'))
              (pending-start (kept lb chunk) p ∙ kept-front lb chunk o.back)
            ∙ (append_assoc (take lb.end lb.buf) (shown lb.binary_mode chunk)
                  (shown lb.binary_mode (stream.content s'))
                ∙ (ap (λ z. take lb.end lb.buf ++ z)
                      (sym (shown-join lb.binary_mode chunk (stream.content s'))
                        ∙ ap (shown lb.binary_mode) (sym e))
                    ∙ ap (λ z. z ++ shown lb.binary_mode (stream.content s))
                        (sym (pending-start lb p)))));
    offset = h.offset;
    same_term = h.same_term;
    same_mode = h.same_mode;
    answer = h.answer;
  }

  all_readable-Streamed :
      (lb : LineBuffer) (s : ρ)
      → Ordered lb
      → stream.content s ≡ []
      → Streamed r stream lb s (all_readable lb s)
  unfolding all_readable
  all_readable-Streamed lb s o e = record {
    ordered = record {
      front = (let a = o.front in let b = o.middle in omega arith);
      middle = omega arith;
      back = o.back;
    };
    same = refl;
    offset = refl;
    same_term = refl;
    same_mode = refl;
    answer = (refl, inr (e, refl));
  }

  pub at_end-Streamed :
      (err : ReadError) (lb : LineBuffer) (s : ρ)
      → Ordered lb
      → (err ≡ broken) ⊎ (stream.content s ≡ [])
      → Streamed r stream lb s (at_end err lb s)
  unfolding at_end
  at_end-Streamed broken lb s o h = record {
    ordered = o;
    same = refl;
    offset = refl;
    same_term = refl;
    same_mode = refl;
    answer = tt;
  }
  at_end-Streamed eof lb s o (inl h) = cc h
  at_end-Streamed eof lb s o (inr h) = all_readable-Streamed lb s o h
  at_end-Streamed no_error lb s o (inl h) = cc h
  at_end-Streamed no_error lb s o (inr h) = all_readable-Streamed lb s o h

  -- A chunk that has a terminator.
  pub line-Streamed :
      (lb : LineBuffer) (chunk : Bytes) (s : ρ) (i : ℕ)
      → Ordered lb
      → lb.pos ≡ 0
      → last_index_byte (converted lb.binary_mode chunk) lb.term ≡ some i
      → Streamed r stream
          (kept lb chunk)
          s
          (record (kept lb chunk) { last = lb.end + i + 1 }, s, filled true)
  unfolding kept
  line-Streamed lb chunk s i o p h =
      let (u, v, e, l) = last-terminator (converted lb.binary_mode chunk) lb.term i h in
      let m = ap length e ∙ length-append u (lb.term ∷ v) in
      let n = length-take lb.end lb.buf in
      let q = length-append (take lb.end lb.buf) u in
      let q2 = length-append (take lb.end lb.buf ++ u) (lb.term ∷ []) in
      let back = o.back in
      let rest = drop (lb.end + length (converted lb.binary_mode chunk)) lb.buf in
      let w : take (lb.end + i + 1) (kept lb chunk).buf
          ≡ (take lb.end lb.buf ++ u) ++ lb.term ∷ [] =
        ap (λ z. take (lb.end + i + 1) (take lb.end lb.buf ++ z ++ rest)) e
        ∙ (ap (take (lb.end + i + 1)) (around_term (take lb.end lb.buf) u v rest lb.term)
            ∙ take-exact (lb.end + i + 1) ((take lb.end lb.buf ++ u) ++ lb.term ∷ []) (v ++ rest)
                (omega arith)) in
      let line = readable-start (record (kept lb chunk) { last = lb.end + i + 1 }) p ∙ w in
      record {
        ordered = record {
          front = (let f = o.front in omega arith);
          middle = (let f = o.middle in omega arith);
          back = received-back lb (converted lb.binary_mode chunk) o.back;
        };
        same = refl;
        offset = refl;
        same_term = refl;
        same_mode = refl;
        answer = (
          sym (ended-readable _ (take lb.end lb.buf ++ u) lb.term line),
          inl (take lb.end lb.buf ++ u, line),
        );
      }
