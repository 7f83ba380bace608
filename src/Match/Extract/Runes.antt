-- ===== src/Match/Extract/Runes.antt =====
-- Literals and classes: the runes that the code encodes are all those that the pattern can match.
use gripgrep.Base.{
  ℕ, zero, suc, ◌+◌, ◌-◌, ◌≤◌, ◌<◌, ◌≡◌, refl, sym, ap, ◌∙◌, subst, ◌⊎◌, inl, inr, Bool, true,
  false, Option, some, List, [], ◌∷◌, ◌++◌, append-nil, append_assoc, arith, leb, ◌==◌,
  if◌then◌else◌, ==_iff, Bool-cases, >>=-eq-some, Bytes, of_some,
}
use gripgrep.Base.Any.{Any, Any-append_left, Any-append_right}
use gripgrep.Match.Seq.{exact_lit, Seq, empty_seq, push, keep_first_bytes}
use gripgrep.Match.Seq.Cover.{Hit, Covers, push-Covers, keep_first_bytes-Covers}
use gripgrep.Match.TSeq.{TSeq}
use gripgrep.Match.TSeq.Choose.{TCovers}
use gripgrep.Match.Regexp.{
  Folding, orbit_fuel, iterate, encode_rune, SameRune, LiteralWord, InRanges,
}
use gripgrep.Match.Extract.{
  cross, orbit_from, insert_rune, sort_runes, fold_orbit, push_runes, rune_seq, extract_literal,
  runes_from, class_runes, class_over_limit_from, extract_class, limit_literal_len,
}
use gripgrep.Match.Extract.Steps.{Hit-exact_lit, cross-TCovers}

-- `x` is one of the runes.
abbrev pub Among : ℕ → List ℕ → Type 0
Among x xs = Any (λ y. y ≡ x) xs

insert_rune-Among : (x r : ℕ) (xs : List ℕ) → (r ≡ x) ⊎ Among x xs → Among x (insert_rune r xs)
unfolding insert_rune
insert_rune-Among x r [] c = c
insert_rune-Among x r (y ∷ ys) c = elim (Bool-cases (leb r y)) [
  | inl e ↦ rw e c
  | inr e ↦ rw e (elim c [
    | inl a ↦ inr (insert_rune-Among x r ys (inl a))
    | inr (inl a) ↦ inl a
    | inr (inr a) ↦ inr (insert_rune-Among x r ys (inr a))
  ])
]

sort_runes-Among : (x : ℕ) (xs : List ℕ) → Among x xs → Among x (sort_runes xs)
unfolding sort_runes
sort_runes-Among x [] c = c
sort_runes-Among x (y ∷ ys) (inl e) = insert_rune-Among x y (sort_runes ys) (inl e)
sort_runes-Among x (y ∷ ys) (inr c) =
    insert_rune-Among x y (sort_runes ys) (inr (sort_runes-Among x ys c))

module _ (fold : ℕ → ℕ) (r : ℕ) where
  -- The loop starts with `f`, unless it has come back to `r`.
  orbit_from-first :
      (fuel f m : ℕ) → iterate fold m f ≡ r → m < fuel → Among f (r ∷ orbit_from fold fuel r f)
  unfolding orbit_from
  orbit_from-first zero f m e h = absurd (omega arith)
  orbit_from-first (suc fuel) f m e h = elim (Bool-cases (f == r)) [
    | inl same ↦ inl (sym ((==_iff f r).0 same))
    | inr new ↦ rw new (inr (inl refl))
  ]

  -- What the loop lists is closed under folding.
  orbit_from-closed :
      (fuel f m x : ℕ)
      → iterate fold m f ≡ r
      → m < fuel
      → Among x (orbit_from fold fuel r f)
      → Among (fold x) (r ∷ orbit_from fold fuel r f)
  unfolding orbit_from iterate
  orbit_from-closed zero f m x e h c = elim c [ ]
  orbit_from-closed (suc fuel) f zero x e h c = absurd (not_there c)
    where
      not_there :
          Among x (let rest = orbit_from fold fuel r (fold f) in if f == r then [] else f ∷ rest)
          → ⊥
      not_there = let same : (f == r) ≡ true = (==_iff f r).1 e in rw same (λ c. c)
  orbit_from-closed (suc fuel) f (suc m) x e h c = elim (Bool-cases (f == r)) [
    | inl same ↦ absurd (rw same at c)
    | inr new ↦ rw new (elim (rw new at c) [
      | inl a ↦
          subst (λ z. Among (fold z) (r ∷ f ∷ orbit_from fold fuel r (fold f))) a
            (skip (orbit_from-first fuel (fold f) m e (omega arith)))
      | inr d ↦ skip (orbit_from-closed fuel (fold f) m x e (omega arith) d)
    ])
  ]
    where
      skip :
          {y : ℕ}
          → Among y (r ∷ orbit_from fold fuel r (fold f))
          → Among y (r ∷ f ∷ orbit_from fold fuel r (fold f))
      skip (inl a) = inl a
      skip (inr a) = inr (inr a)

  iterate-Among :
      (xs : List ℕ) (k x : ℕ)
      → ((y : ℕ) → Among y xs → Among (fold y) xs)
      → Among x xs
      → Among (iterate fold k x) xs
  unfolding iterate
  iterate-Among xs zero x step c = c
  iterate-Among xs (suc k) x step c = iterate-Among xs k (fold x) step (step x c)

-- `foldOrbit` lists every rune that any number of steps of `unicode.SimpleFold` lead to, so that
-- its fuel is enough.
pub fold_orbit_complete :
    (φ : Folding) (r k : ℕ) → Among (iterate φ.simple_fold k r) (fold_orbit φ r)
unfolding fold_orbit
fold_orbit_complete φ r k =
    sort_runes-Among _ (r ∷ listed) (iterate-Among φ.simple_fold r (r ∷ listed) k r step (inl refl))
  where
    listed : List ℕ
    listed = orbit_from φ.simple_fold orbit_fuel r (φ.simple_fold r)

    step : (y : ℕ) → Among y (r ∷ listed) → Among (φ.simple_fold y) (r ∷ listed)
    step y (inl e) =
        subst (λ z. Among (φ.simple_fold z) (r ∷ listed)) e
          (orbit_from-first φ.simple_fold r orbit_fuel (φ.simple_fold r) (φ.steps r)
            (φ.comes_back r) (φ.steps-lt r))
    step y (inr c) =
        orbit_from-closed φ.simple_fold r orbit_fuel (φ.simple_fold r) (φ.steps r) y
          (φ.comes_back r) (φ.steps-lt r) c

-- If no encoding panicked, the pushed sequence covers the encoding of each of the runes.
push_runes-Covers :
    (s t : Seq) (rs : List ℕ) (w : Bytes)
    → push_runes s rs ≡ some t
    → Covers true s w ⊎ ((x : ℕ) × Among x rs × (encode_rune x ≡ some w))
    → Covers true t w
unfolding push_runes
push_runes-Covers s t [] w h (inl c) = subst (λ z. Covers true z w) (cc) c
push_runes-Covers s t [] w h (inr (x, c, e)) = elim c [ ]
push_runes-Covers s t (r ∷ rs) w h c =
    let (buf, eb, h') = >>=-eq-some (encode_rune r) _ h in
    push_runes-Covers (push s (exact_lit buf)) t rs w h' (elim c [
      | inl d ↦ inl (push-Covers true s (exact_lit buf) w refl (inl d))
      | inr (x, inl e, ew) ↦
          let same : buf ≡ w = cc (eb, ap encode_rune e, ew) in
          inl (
            push-Covers true s (exact_lit buf) w refl
              (inr (subst (λ z. Hit true (exact_lit buf) z) same (Hit-exact_lit true buf))))
      | inr (x, inr d, ew) ↦ inr (x, d, ew)
    ])

limited-TCovers :
    (s : Seq) (t : TSeq) (w : Bytes)
    → ◌≡◌ {A = Option TSeq}
        (some (record { s = keep_first_bytes limit_literal_len s; prefix = true }))
        (some t)
    → Covers true s w
    → TCovers t w
limited-TCovers s t w e c =
    subst (λ z. TCovers z w) (of_some e) (keep_first_bytes-Covers limit_literal_len true s w c)

-- The sequence of a rune covers the encoding of each rune that the literal takes for it.
rune_seq-TCovers :
    (φ : Folding) (fold : Bool) (r r' : ℕ) (b : Bytes) (t : TSeq)
    → rune_seq φ fold r ≡ some t
    → SameRune φ fold r r'
    → encode_rune r' ≡ some b
    → TCovers t b
unfolding rune_seq
rune_seq-TCovers φ false r r' b t h e eb =
    let (buf, ebuf, h') = >>=-eq-some (encode_rune r) _ h in
    let same : buf ≡ b = cc (ebuf, ap encode_rune e, eb) in
    subst (λ z. TCovers z b) (of_some h')
      (inl (subst (λ z. Hit true (exact_lit buf) z) same (Hit-exact_lit true buf)))
rune_seq-TCovers φ true r r' b t h (k, e) eb =
    let (s, es, h') = >>=-eq-some (push_runes empty_seq (fold_orbit φ r)) _ h in
    limited-TCovers s t b h' (
      push_runes-Covers empty_seq s (fold_orbit φ r) b es
        (inr (r', subst (λ z. Among z (fold_orbit φ r)) e (fold_orbit_complete φ r k), eb)))

-- A literal's sequence covers each word that the literal matches, behind what was there before.
pub extract_literal-TCovers :
    (φ : Folding) (fold : Bool) (rs : List ℕ) (s t : TSeq) (u w : Bytes)
    → extract_literal φ fold s rs ≡ some t
    → TCovers s u
    → LiteralWord φ false fold rs w
    → TCovers t (u ++ w)
unfolding extract_literal
extract_literal-TCovers φ fold [] s t u w h c e =
    subst (λ z. TCovers z (u ++ w)) (of_some h)
      (subst (λ z. TCovers s z) (sym (ap (λ z. u ++ z) e ∙ append-nil u)) c)
extract_literal-TCovers φ fold (r ∷ rs) s t u w h c (r', b, v, same, eb, e, rest) =
    let (q, eq, h') = >>=-eq-some (rune_seq φ fold r) _ h in
    subst (λ z. TCovers t z) (append_assoc u b v ∙ ap (λ z. u ++ z) (sym e))
      (extract_literal-TCovers φ fold rs (cross s q) t (u ++ b) v h'
        (cross-TCovers s q u b c (rune_seq-TCovers φ fold r r' b q eq same eb)) rest)

runes_from-Among : (lo n x : ℕ) → lo ≤ x → x < lo + n → Among x (runes_from lo n)
unfolding runes_from
runes_from-Among lo zero x h k = absurd (omega arith)
runes_from-Among lo (suc n) x h k = elim (Bool-cases (lo == x)) [
  | inl e ↦ inl ((==_iff lo x).0 e)
  | inr e ↦ inr (runes_from-Among (lo + 1) n x (ground arith) (omega arith))
]

class_runes-Among :
    (ranges : List (ℕ × ℕ)) (x : ℕ) → InRanges x ranges → Among x (class_runes ranges)
unfolding class_runes
class_runes-Among [] x c = c
class_runes-Among ((lo, hi) ∷ ranges) x (inl (h, k)) =
    Any-append_left (λ y. y ≡ x) _ (class_runes ranges)
      (runes_from-Among lo (hi + 1 - lo) x h (omega arith))
class_runes-Among ((lo, hi) ∷ ranges) x (inr c) =
    Any-append_right (λ y. y ≡ x) (runes_from lo (hi + 1 - lo)) (class_runes ranges)
      (class_runes-Among ranges x c)

-- A class's sequence covers the encoding of each rune in its ranges.
pub extract_class-TCovers :
    (ranges : List (ℕ × ℕ)) (t : TSeq) (r : ℕ) (w : Bytes)
    → extract_class ranges ≡ some t
    → InRanges r ranges
    → encode_rune r ≡ some w
    → TCovers t w
unfolding extract_class
extract_class-TCovers ranges t r w h c e = elim (Bool-cases (class_over_limit_from 0 ranges)) [
  | inl large ↦ subst (λ z. TCovers z w) (of_some (rw large at h)) tt
  | inr small ↦
      let (s, es, h') = >>=-eq-some (push_runes empty_seq (class_runes ranges)) _ (rw small at h) in
      limited-TCovers s t w h' (
        push_runes-Covers empty_seq s (class_runes ranges) w es
          (inr (r, class_runes-Among ranges r c, e)))
]

-- A class over the limit gives an infinite sequence.
pub large_class-TCovers :
    (ranges : List (ℕ × ℕ)) (t : TSeq) (w : Bytes)
    → class_over_limit_from 0 ranges ≡ true
    → extract_class ranges ≡ some t
    → TCovers t w
unfolding extract_class
large_class-TCovers ranges t w large h = subst (λ z. TCovers z w) (of_some (rw large at h)) tt
