-- ===== src/Search/Lines/Locate.antt =====
-- search/lines.go: the bounds that `lineLocate` gives.
use gripgrep.Base.{
  and-left, and-right, ℕ, ◌+◌, ◌-◌, ◌<◌, ◌≡◌, refl, sym, ap, ◌∙◌, ◌⊎◌, inl, inr, ◌&&◌, some, [],
  ◌∷◌, ◌++◌, append_assoc, ltb, ◌==◌, ltb→lt, lt→ltb, Bool, true, false, ==_iff, Bool-cases,
  Option-cases, Bytes, length, get_or, take, drop, length-append,
}
use gripgrep.Base.Find.{
  Free, index_byte, last_index_byte, index_byte-some, index_byte-none_iff, last_cases,
  last_index_byte-none, last_index_byte-append,
}
use gripgrep.Search.Lines.{line_start, line_end, line_locate}

-- Before the line there is nothing, or a terminator; from there to `start` there is none.
abbrev pub StartsLine : Bytes → ℕ → ℕ → ℕ → Type 0
StartsLine buf term start first =
    (before : Bytes) × (line : Bytes) × (take start buf ≡ before ++ line)
    × (length before ≡ first)
    × Free term line
    × ((before ≡ []) ⊎ ((b : Bytes) × (before ≡ b ++ term ∷ [])))

-- From `stop` on, the line has its first terminator, or runs to the end of the buffer with none.
abbrev pub EndsLine : Bytes → ℕ → ℕ → ℕ → Type 0
EndsLine buf term stop last =
    ((body : Bytes) × (after : Bytes) × (drop stop buf ≡ body ++ term ∷ after)
      × Free term body
      × (last ≡ stop + length body + 1))
    ⊎ (Free term (drop stop buf) × (last ≡ length buf))

line_start-StartsLine :
    (buf : Bytes) (term start : ℕ) → StartsLine buf term start (line_start buf term start)
unfolding line_start
line_start-StartsLine buf term start = elim (last_cases (take start buf) term) [
  | inl f ↦
      rw (last_index_byte-none (take start buf) term f, line_start)
        ([], take start buf, refl, refl, f, inl refl)
  | inr (u, v, e, f) ↦
      let q : last_index_byte (take start buf) term ≡ some (length u) =
        ap (λ z. last_index_byte z term) e ∙ last_index_byte-append u v term f in
      rw (q, line_start)
        (
          u ++ term ∷ [],
          v,
          e ∙ sym (append_assoc u (term ∷ []) v),
          length-append u (term ∷ []),
          f,
          inr (u, refl),
        )
]

line_end-EndsLine : (buf : Bytes) (term stop : ℕ) → EndsLine buf term stop (line_end buf term stop)
unfolding line_end
line_end-EndsLine buf term stop = elim (Option-cases (index_byte (drop stop buf) term)) [
  | inl e ↦ rw (e, line_end) (inr ((index_byte-none_iff _ term).0 e, refl))
  | inr (i, e) ↦
      let (u, v, s, l, f) = index_byte-some _ term i e in
      rw (e, line_end) (inl (u, v, s, f, ap (λ k. stop + k + 1) (sym l)))
]

-- The range is not empty past where its line starts, and its last byte is a terminator.
abbrev pub Ended : Bytes → ℕ → ℕ → ℕ → Type 0
Ended buf term first stop = (first < stop) × (get_or buf (stop - 1) 0 ≡ term)

both_false : (a b : Bool) → a ≡ true → b ≡ true → (a && b) ≡ false → ⊥
both_false a b h k e = cc (h, k, e)

-- `lineLocate` starts the line at the beginning of the buffer or right after a terminator, with no
-- terminator from there up to `start`; it ends the line at `end` where `end` is past the start of
-- the line and the byte before it is a terminator, and only otherwise after the first terminator
-- from `end` on, or at the end of the buffer where there is none.
pub line_locate-Bounds :
    (buf : Bytes) (term start stop : ℕ)
    → StartsLine buf term start (line_locate buf term start stop).0
      × ((Ended buf term (line_locate buf term start stop).0 stop
            × ((line_locate buf term start stop).1 ≡ stop))
          ⊎ ((Ended buf term (line_locate buf term start stop).0 stop → ⊥)
              × EndsLine buf term stop (line_locate buf term start stop).1))
unfolding line_locate
line_locate-Bounds buf term start stop = (
  line_start-StartsLine buf term start,
  elim (Bool-cases (ltb (line_start buf term start) stop && get_or buf (stop - 1) 0 == term)) [
    | inl e ↦ inl ((ltb→lt _ _ (and-left _ _ e), (==_iff _ term).0 (and-right _ _ e)), rw e refl)
    | inr e ↦ inr (
      (λ (l, t). absurd (both_false _ _ (lt→ltb _ _ l) ((==_iff _ term).1 t) e)),
      rw e (line_end-EndsLine buf term stop),
    )
  ],
)
