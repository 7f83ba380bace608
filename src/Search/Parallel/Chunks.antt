-- ===== src/Search/Parallel/Chunks.antt =====
-- search/parallel.go: `splitChunks` cuts a text between lines.
use gripgrep.Base.{
  ℕ, zero, suc, ◌+◌, ◌-◌, ◌*◌, ◌/◌, ◌≤◌, ◌<◌, ◌≡◌, refl, sym, ap, ◌∙◌, ◌⊎◌, inl, inr, false, ◌||◌,
  some, List, [], ◌∷◌, ◌++◌, append_assoc, arith, ◌==◌, Bool-cases, Option-cases, Bytes, length,
  take, drop, length-append,
}
use gripgrep.Base.Find.{index_byte, index_byte-some, take-append}
use gripgrep.Search.Lines.{Range, slice}
use gripgrep.Search.Lines.Join.{Ends}
use gripgrep.Search.Lines.Region.{lines, Boundary, lines-join, lines-nil, slice-drop, take-join}
use gripgrep.Search.Parallel.{passes, bounds_from, ranges_of, at_least_one, split_chunks}

-- Places after line feeds, each after the one before it and before the end.
abbrev Rising : Bytes → ℕ → List ℕ → Type 0
Rising text pos [] = Unit
Rising text pos (b ∷ bs) = (pos < b) × (b < length text) × Ends 10 (take b text) × Rising text b bs

after_line_feed :
    (text : Bytes) (from idx : ℕ)
    → index_byte (drop from text) 10 ≡ some idx
    → Ends 10 (take (from + idx + 1) text)
after_line_feed text from idx h =
    let (u, v, e, l, f) = index_byte-some (drop from text) 10 idx h in
    let stop = from + idx + 1 in
    let w : stop - from ≡ length (u ++ 10 ∷ []) =
      (let m = length-append u (10 ∷ []) in omega arith) in
    let last : slice from stop text ≡ u ++ 10 ∷ [] =
      slice-drop from stop text
      ∙ (ap (take (stop - from)) (e ∙ sym (append_assoc u (10 ∷ []) v))
          ∙ (ap (λ k. take k ((u ++ 10 ∷ []) ++ v)) w ∙ take-append (u ++ 10 ∷ []) v)) in
    inr (
      take from text ++ u,
      take-join from stop text (omega arith)
          ∙ (ap (λ z. take from text ++ z) last ∙ sym (append_assoc (take from text) u (10 ∷ []))),
    )

passes-between : (at pos stop : ℕ) → passes at pos stop ≡ false → (pos < at) × (at < stop)
unfolding passes
passes-between at pos stop h = (ground arith, ground arith)

bounds_from-Rising :
    (turns i target : ℕ) (text : Bytes) (pos : ℕ)
    → Rising text pos (bounds_from turns i target text pos)
unfolding bounds_from
bounds_from-Rising zero i target text pos = tt
bounds_from-Rising (suc turns) i target text pos =
    elim (Bool-cases (passes (i * target) pos (length text))) [
      | inl e ↦ rw (e, bounds_from) (bounds_from-Rising turns (i + 1) target text pos)
      | inr e ↦ elim (Option-cases (index_byte (drop (i * target) text) 10)) [
        | inl q ↦ rw (e, q, bounds_from) tt
        | inr (idx, q) ↦
            let at = i * target + idx + 1 in
            elim (Bool-cases (passes at pos (length text))) [
              | inl d ↦ rw (e, q, d, bounds_from) (bounds_from-Rising turns (i + 1) target text pos)
              | inr d ↦
                  rw (e, q, d, bounds_from)
                    (
                      (passes-between at pos (length text) d).0,
                      (passes-between at pos (length text) d).1,
                      after_line_feed text (i * target) idx q,
                      bounds_from-Rising turns (i + 1) target text at,
                    )
            ]
      ]
    ]

-- Ranges that make up the text from a place on, each with a byte unless the text is empty, and each
-- ended by a line feed or by the end of the text.
abbrev pub Tiles : Bytes → ℕ → List Range → Type 0
Tiles text a [] = a ≡ length text
Tiles text a ((start, end) ∷ rs) =
    (start ≡ a)
    × ((length text ≡ 0) ⊎ (a < end))
    × (a ≤ end)
    × (end ≤ length text)
    × Boundary 10 text end
    × Tiles text end rs

ranges_of-Tiles :
    (text : Bytes) (prev : ℕ) (bs : List ℕ)
    → (length text ≡ 0) ⊎ (prev < length text)
    → prev ≤ length text
    → Rising text prev bs
    → Tiles text prev (ranges_of prev bs (length text))
ranges_of-Tiles text prev [] h k c = (refl, h, k, omega arith, inr (omega arith), refl)
ranges_of-Tiles text prev (b ∷ bs) h k (l, m, d, c) = (
  refl,
  inr l,
  omega arith,
  omega arith,
  inl d,
  ranges_of-Tiles text b bs (inr m) (omega arith) c,
)

length-bounds_from :
    (turns i target : ℕ) (text : Bytes) (pos : ℕ)
    → length (bounds_from turns i target text pos) ≤ turns
unfolding bounds_from
length-bounds_from zero i target text pos = omega arith
length-bounds_from (suc turns) i target text pos =
    let skip = length-bounds_from turns (i + 1) target text pos in
    elim (Bool-cases (passes (i * target) pos (length text))) [
      | inl e ↦ rw (e, bounds_from) (omega arith)
      | inr e ↦ elim (Option-cases (index_byte (drop (i * target) text) 10)) [
        | inl q ↦ rw (e, q, bounds_from) (omega arith)
        | inr (idx, q) ↦
            let at = i * target + idx + 1 in
            let cut = length-bounds_from turns (i + 1) target text at in
            elim (Bool-cases (passes at pos (length text))) [
              | inl d ↦ rw (e, q, d, bounds_from) (omega arith)
              | inr d ↦ rw (e, q, d, bounds_from) (omega arith)
            ]
      ]
    ]

length-ranges_of :
    (prev : ℕ) (bs : List ℕ) (stop : ℕ) → length (ranges_of prev bs stop) ≡ length bs + 1
length-ranges_of prev [] stop = refl
length-ranges_of prev (b ∷ bs) stop = let h = length-ranges_of b bs stop in omega arith

one_at_least : (n : ℕ) → 1 ≤ at_least_one n
one_at_least n = ground arith

zero-or_more : (n : ℕ) → (n ≡ 0) ⊎ (0 < n)
zero-or_more zero = inl refl
zero-or_more (suc n) = inr (omega arith)

-- `splitChunks` gives ranges that follow one another and make up the text, none of them empty
-- unless the text is, each ended by a line feed or by the end of the text, and at most as many as
-- it is asked for, where none counts as one.
pub split_chunks-Tiles :
    (text : Bytes) (n : ℕ)
    → Tiles text 0 (split_chunks text n) × (length (split_chunks text n) ≤ at_least_one n)
unfolding split_chunks
split_chunks-Tiles text n =
    let p = one_at_least n in
    let nonempty = zero-or_more (length text) in
    let bounds =
      bounds_from (at_least_one n - 1) 1 (at_least_one (length text / at_least_one n)) text 0 in
    elim (Bool-cases (length text == 0 || at_least_one n == 1)) [
      | inl e ↦ rw e (ranges_of-Tiles text 0 [] nonempty (omega arith) tt, p)
      | inr e ↦ rw e (
        ranges_of-Tiles text 0 bounds nonempty (omega arith) (
            bounds_from-Rising (at_least_one n - 1) 1 (at_least_one (length text / at_least_one n))
              text 0),
        (let h = length-ranges_of 0 bounds (length text) in
            let k =
              length-bounds_from (at_least_one n - 1) 1
                (at_least_one (length text / at_least_one n)) text 0 in
            omega arith),
      )
    ]

-- The lines of some ranges, one range after the other.
abbrev pub lines_in : Bytes → List Range → List Range
lines_in text [] = []
lines_in text ((start, end) ∷ rs) = lines 10 text start end ++ lines_in text rs

lines_in-Tiles :
    (text : Bytes) (a : ℕ) (rs : List Range)
    → Tiles text a rs
    → lines_in text rs ≡ lines 10 text a (length text)
lines_in-Tiles text a [] e = sym (lines-nil 10 text a (length text) (omega arith))
lines_in-Tiles text a ((start, end) ∷ rs) (s, n, k, l, d, c) =
    ap (λ z. lines 10 text z end ++ lines_in text rs) s
    ∙ (ap (λ z. lines 10 text a end ++ z) (lines_in-Tiles text end rs c)
        ∙ sym (lines-join 10 text a end (length text) k l (omega arith) d))

-- The lines of the ranges that `splitChunks` gives, one range after the other, are the lines of the
-- text.
pub split_chunks-lines :
    (text : Bytes) (n : ℕ) → lines_in text (split_chunks text n) ≡ lines 10 text 0 (length text)
split_chunks-lines text n =
    lines_in-Tiles text 0 (split_chunks text n) (split_chunks-Tiles text n).0
