-- ===== src/Match/Extract/Repeat.antt =====
-- Repetitions: what `extractRepetition` returns covers each word that the repetition can match.
use gripgrep.Base.{
  ℕ, zero, suc, ◌≤◌, ◌≡◌, refl, sym, ap, ◌∙◌, subst, ◌⊎◌, inl, inr, Bool, true, false, Option, none,
  some, [], ◌++◌, append-nil, append_assoc, arith, ltb, leb, ◌==◌, if◌then◌else◌, Bool-cases, Bytes,
}
use gripgrep.Match.Seq.{is_inexact, make_inexact}
use gripgrep.Match.TSeq.{TSeq}
use gripgrep.Match.TSeq.Choose.{TCovers}
use gripgrep.Match.Regexp.{Pow, AtMost}
use gripgrep.Match.Extract.{
  t_seq_nothing, cross, t_union, repeat_cross, extract_repeat_range, repetition, limit_repeat,
}
use gripgrep.Match.Extract.Steps.{
  t_seq_nothing-TCovers, cross-TCovers, t_union-TCovers, is_inexact-TCovers_append,
  make_inexact-TCovers_append,
}

-- `n` copies cover every word of `n` words.
repeat_cross-TCovers :
    (n : ℕ) (L : Bytes → Type 0) (t s : TSeq) (u w : Bytes)
    → ((x : Bytes) → L x → TCovers t x)
    → TCovers s u
    → Pow L n w
    → TCovers (repeat_cross n t s) (u ++ w)
unfolding repeat_cross
repeat_cross-TCovers zero L t s u w f c e = simp (e, append-nil) c
repeat_cross-TCovers (suc n) L t s u w f c (a, b, e, x, xs) = elim (Bool-cases (is_inexact s.s)) [
  | inl stop ↦ simp stop (is_inexact-TCovers_append s u w stop c)
  | inr go ↦ simp go (
      subst (λ z. TCovers (repeat_cross n t (cross s t)) z)
        (append_assoc u a b ∙ ap (λ z. u ++ z) (sym e))
        (repeat_cross-TCovers n L t (cross s t) (u ++ a) b f (cross-TCovers s t u a c (f a x)) xs))
]

-- The first `n` of at least `n` words.
Pow-split :
    (n m : ℕ) (L : Bytes → Type 0) (w : Bytes)
    → n ≤ m
    → Pow L m w
    → (a : Bytes) × (b : Bytes) × (w ≡ a ++ b) × Pow L n a
Pow-split zero m L w h p = ([], w, refl, refl)
Pow-split (suc n) zero L w h p = absurd (omega arith)
Pow-split (suc n) (suc m) L w h (u, v, e, x, xs) =
    let (a, b, e', ys) = Pow-split n m L v (omega arith) xs in
    (u ++ a, b, e ∙ ap (λ z. u ++ z) e' ∙ sym (append_assoc u a b), (u, a, refl, x, ys))

abbrev reps : ℕ → ℕ
reps min = if ltb limit_repeat min then limit_repeat else min

inexact_repeat-TCovers :
    (min m : ℕ) (L : Bytes → Type 0) (t : TSeq) (w : Bytes)
    → ((x : Bytes) → L x → TCovers t x)
    → min ≤ m
    → Pow L m w
    → let s = repeat_cross (reps min) t t_seq_nothing in
      TCovers (record s { s = make_inexact s.s }) w
inexact_repeat-TCovers min m L t w f h p =
    let (a, b, e, q) = Pow-split (reps min) m L w (ground arith) p in
    let s = repeat_cross (reps min) t t_seq_nothing in
    subst (λ z. TCovers (record s { s = make_inexact s.s }) z) (sym e)
      (make_inexact-TCovers_append (repeat_cross (reps min) t t_seq_nothing) a b
        (repeat_cross-TCovers (reps min) L t t_seq_nothing [] a f t_seq_nothing-TCovers q))

extract_repeat_range-TCovers :
    (min m : ℕ) (exact_count : Bool) (L : Bytes → Type 0) (t : TSeq) (w : Bytes)
    → ((x : Bytes) → L x → TCovers t x)
    → min ≤ m
    → (exact_count ≡ true → m ≡ min)
    → Pow L m w
    → TCovers (extract_repeat_range t min exact_count) w
unfolding extract_repeat_range
extract_repeat_range-TCovers min m false L t w f h g p = inexact_repeat-TCovers min m L t w f h p
extract_repeat_range-TCovers min m true L t w f h g p = elim (Bool-cases (leb min limit_repeat)) [
  | inl few ↦
      let e : reps min ≡ min = ground arith in
      simp (few, e)
        (repeat_cross-TCovers min L t t_seq_nothing [] w f t_seq_nothing-TCovers
          (subst (λ k. Pow L k w) (g refl) p))
  | inr many ↦ simp many (inexact_repeat-TCovers min m L t w f h p)
]

-- The union with the empty literal, in either order.
with_nothing-TCovers :
    (ng : Bool) (s : TSeq) (w : Bytes)
    → (w ≡ []) ⊎ TCovers s w
    → TCovers (if ng then t_union t_seq_nothing s else t_union s t_seq_nothing) w
with_nothing-TCovers true s w (inl e) =
    t_union-TCovers t_seq_nothing s w
      (inl (subst (λ z. TCovers t_seq_nothing z) (sym e) t_seq_nothing-TCovers))
with_nothing-TCovers true s w (inr c) = t_union-TCovers t_seq_nothing s w (inr c)
with_nothing-TCovers false s w (inl e) =
    t_union-TCovers s t_seq_nothing w
      (inr (subst (λ z. TCovers t_seq_nothing z) (sym e) t_seq_nothing-TCovers))
with_nothing-TCovers false s w (inr c) = t_union-TCovers s t_seq_nothing w (inl c)

abbrev optional : Option ℕ → TSeq → TSeq
optional max subseq = elim max [
  | none ↦ record subseq { s = make_inexact subseq.s }
  | some m ↦ if m == 1 then subseq else record subseq { s = make_inexact subseq.s }
]

-- The sub-pattern's sequence, exact only for `?`, covers a word that repeats it at least once.
optional-TCovers :
    (max : Option ℕ) (n : ℕ) (L : Bytes → Type 0) (t : TSeq) (w : Bytes)
    → ((x : Bytes) → L x → TCovers t x)
    → AtMost (suc n) max
    → Pow L (suc n) w
    → TCovers (optional max t) w
optional-TCovers none n L t w f h (a, b, e, x, xs) =
    subst (λ z. TCovers (optional none t) z) (sym e) (make_inexact-TCovers_append t a b (f a x))
optional-TCovers (some m) n L t w f h (a, b, e, x, xs) = elim (Bool-cases (m == 1)) [
  | inl one ↦
      let n0 : n ≡ 0 = ground arith in
      let b0 : b ≡ [] = subst (λ k. Pow L k b) n0 xs in
      simp one (subst (λ z. TCovers t z) (sym (e ∙ ap (λ z. a ++ z) b0 ∙ append-nil a)) (f a x))
  | inr more ↦ simp more (
      subst (λ z. TCovers (record t { s = make_inexact t.s }) z) (sym e)
        (make_inexact-TCovers_append t a b (f a x)))
]

-- If a sequence covers each word of a language, `extractRepetition` makes of it one that covers `n`
-- words of the language one after the other, for every `n` from `min` on and up to `max` where
-- there is one.
pub repetition-TCovers :
    (ng : Bool) (min : ℕ) (max : Option ℕ) (n : ℕ) (L : Bytes → Type 0) (t : TSeq) (w : Bytes)
    → ((x : Bytes) → L x → TCovers t x)
    → min ≤ n
    → AtMost n max
    → Pow L n w
    → TCovers (repetition ng min max t) w
unfolding repetition
repetition-TCovers ng zero max zero L t w f h k p =
    with_nothing-TCovers ng (optional max t) w (inl p)
repetition-TCovers ng zero max (suc n) L t w f h k p =
    with_nothing-TCovers ng (optional max t) w (inr (optional-TCovers max n L t w f k p))
repetition-TCovers ng (suc min) none zero L t w f h k p = absurd (omega arith)
repetition-TCovers ng (suc min) none (suc n) L t w f h k p = optional-TCovers none n L t w f tt p
repetition-TCovers ng (suc min) (some max) n L t w f h k p =
    extract_repeat_range-TCovers (suc min) n (suc min == max) L t w f h (λ e. ground arith) p
