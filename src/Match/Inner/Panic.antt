-- ===== src/Match/Inner/Panic.antt =====
-- When the extractor returns, and a class of patterns on which it panics.
use gripgrep.Base.{
  ℕ, zero, suc, ◌+◌, ◌-◌, ◌≤◌, ◌<◌, ◌≡◌, refl, ◌⊎◌, inl, inr, Bool, true, false, not, Option, none,
  some, List, [], ◌∷◌, ◌++◌, arith, leb, ◌==◌, if◌then◌else◌, Bool-cases, Option-cases, ◌>>=◌,
}
use gripgrep.Base.Any.{All}
use gripgrep.Match.Seq.{exact_lit, Seq, empty_seq, is_inexact, is_empty, is_finite, push}
use gripgrep.Match.TSeq.{TSeq, is_really_good}
use gripgrep.Match.Regexp.{Folding, orbit_fuel, encode_rune, InRanges, Regexp, Subs, nil, cons}
use gripgrep.Match.Regexp.{
  literal, char_class, capture, star, plus, quest, repeat, concat, alternate,
}
use gripgrep.Match.Extract.{
  t_seq_nothing, cross, t_union, never_repeats, orbit_from, insert_rune, sort_runes, fold_orbit,
  push_runes, rune_seq, extract_literal, runes_from, class_runes, class_over_limit_from,
  extract_class, choose_prev, restarted, extract, extract_concat, extract_alternation,
}
use gripgrep.Match.Inner.{untagged, extract_inner_literals}

-- A rune that UTF-8 encodes: not a surrogate, and at most U+10FFFF.
abbrev pub IsRune : ℕ → Type 0
IsRune r = (r ≤ 0xD7FF) ⊎ (0xE000 ≤ r) × (r ≤ 0x10FFFF)

-- Every rune of the pattern's literals and classes is one that UTF-8 encodes.
unfoldable mutual
  pub IsEncodable : Regexp → Type 0
  IsEncodable (literal fold rs) = All IsRune rs
  IsEncodable (char_class ranges) = (r : ℕ) → InRanges r ranges → IsRune r
  IsEncodable (capture r) = IsEncodable r
  IsEncodable (star _ r) = IsEncodable r
  IsEncodable (plus _ r) = IsEncodable r
  IsEncodable (quest _ r) = IsEncodable r
  IsEncodable (repeat _ _ _ r) = IsEncodable r
  IsEncodable (concat subs) = AreEncodable subs
  IsEncodable (alternate subs) = AreEncodable subs
  IsEncodable _ = Unit

  pub AreEncodable : Subs → Type 0
  AreEncodable nil = Unit
  AreEncodable (cons r subs) = IsEncodable r × AreEncodable subs

abbrev Returns {ℓ} : {A : Type ℓ} → Option A → Type ℓ
Returns {A} m = (a : A) × (m ≡ some a)

Returns-bind {ℓ κ} :
    {A : Type ℓ} {B : Type κ} (m : Option A) (f : A → Option B)
    → Returns m
    → ((a : A) → Returns (f a))
    → Returns (m >>= f)
Returns-bind m f (a, e) g = let (b, h) = g a in (b, rw e h)

Returns-if {ℓ} :
    {A : Type ℓ} (b : Bool) (m n : Option A) → Returns m → Returns n → Returns (if b then m else n)
Returns-if true m n h k = h
Returns-if false m n h k = k

encode_rune-Returns : (r : ℕ) → IsRune r → Returns (encode_rune r)
encode_rune-Returns r h = elim (Option-cases (encode_rune r)) [
  | inl e ↦ absurd (impossible h e)
  | inr c ↦ c
]
  where
    impossible : IsRune r → encode_rune r ≡ none → ⊥
    impossible h e = unfold encode_rune in ground arith

push_runes-Returns : (s : Seq) (rs : List ℕ) → All IsRune rs → Returns (push_runes s rs)
unfolding push_runes
push_runes-Returns s [] h = (s, refl)
push_runes-Returns s (r ∷ rs) (h, hs) =
    Returns-bind (encode_rune r) _ (encode_rune-Returns r h)
      λ buf. push_runes-Returns (push s (exact_lit buf)) rs hs

insert_rune-All : (P : ℕ → Type 0) (r : ℕ) (xs : List ℕ) → P r → All P xs → All P (insert_rune r xs)
unfolding insert_rune
insert_rune-All P r [] h k = (h, tt)
insert_rune-All P r (x ∷ xs) h (k, ks) = elim (Bool-cases (leb r x)) [
  | inl e ↦ rw e (h, (k, ks))
  | inr e ↦ rw e (k, insert_rune-All P r xs h ks)
]

sort_runes-All : (P : ℕ → Type 0) (xs : List ℕ) → All P xs → All P (sort_runes xs)
unfolding sort_runes
sort_runes-All P [] h = tt
sort_runes-All P (x ∷ xs) (h, hs) = insert_rune-All P x (sort_runes xs) h (sort_runes-All P xs hs)

orbit_from-All :
    (fold : ℕ → ℕ) (P : ℕ → Type 0) (fuel r f : ℕ)
    → ((x : ℕ) → P x → P (fold x))
    → P f
    → All P (orbit_from fold fuel r f)
unfolding orbit_from
orbit_from-All fold P zero r f step h = tt
orbit_from-All fold P (suc fuel) r f step h = elim (Bool-cases (f == r)) [
  | inl e ↦ rw e tt
  | inr e ↦ rw e (h, orbit_from-All fold P fuel r (fold f) step (step f h))
]

-- Folding leads from encodable runes to encodable runes.
abbrev pub KeepsRunes : Folding → Type 0
KeepsRunes φ = (r : ℕ) → IsRune r → IsRune (φ.simple_fold r)

rune_seq-Returns :
    (φ : Folding) (fold : Bool) (r : ℕ) → KeepsRunes φ → IsRune r → Returns (rune_seq φ fold r)
unfolding rune_seq fold_orbit
rune_seq-Returns φ false r step h =
    Returns-bind (encode_rune r) _ (encode_rune-Returns r h) (λ buf. (_, refl))
rune_seq-Returns φ true r step h =
    Returns-bind (push_runes empty_seq (fold_orbit φ r)) _
      (push_runes-Returns empty_seq (fold_orbit φ r) (
        sort_runes-All IsRune (r ∷ orbit_from φ.simple_fold orbit_fuel r (φ.simple_fold r))
          (h, orbit_from-All φ.simple_fold IsRune orbit_fuel r (φ.simple_fold r) step (step r h))))
      (λ s. (_, refl))

extract_literal-Returns :
    (φ : Folding) (fold : Bool) (t : TSeq) (rs : List ℕ)
    → KeepsRunes φ
    → All IsRune rs
    → Returns (extract_literal φ fold t rs)
unfolding extract_literal
extract_literal-Returns φ fold t [] step h = (t, refl)
extract_literal-Returns φ fold t (r ∷ rs) step (h, hs) =
    Returns-bind (rune_seq φ fold r) _ (rune_seq-Returns φ fold r step h)
      λ u. extract_literal-Returns φ fold (cross t u) rs step hs

runes_from-All :
    (P : ℕ → Type 0) (lo n : ℕ) → ((x : ℕ) → lo ≤ x → x < lo + n → P x) → All P (runes_from lo n)
unfolding runes_from
runes_from-All P lo zero h = tt
runes_from-All P lo (suc n) h = (
  h lo (omega arith) (omega arith),
  runes_from-All P (lo + 1) n (λ x a b. h x (omega arith) (omega arith)),
)

All-append : (P : ℕ → Type 0) (xs ys : List ℕ) → All P xs → All P ys → All P (xs ++ ys)
All-append P [] ys h k = k
All-append P (x ∷ xs) ys (h, hs) k = (h, All-append P xs ys hs k)

class_runes-All :
    (P : ℕ → Type 0) (ranges : List (ℕ × ℕ))
    → ((r : ℕ) → InRanges r ranges → P r)
    → All P (class_runes ranges)
unfolding class_runes
class_runes-All P [] h = tt
class_runes-All P ((lo, hi) ∷ ranges) h =
    All-append P (runes_from lo (hi + 1 - lo)) (class_runes ranges)
      (runes_from-All P lo (hi + 1 - lo) (λ x a b. h x (inl (a, omega arith))))
      (class_runes-All P ranges (λ r c. h r (inr c)))

extract_class-Returns :
    (ranges : List (ℕ × ℕ))
    → ((r : ℕ) → InRanges r ranges → IsRune r)
    → Returns (extract_class ranges)
unfolding extract_class
extract_class-Returns ranges h =
    Returns-if (class_over_limit_from 0 ranges) _ _ (_, refl)
      (Returns-bind (push_runes empty_seq (class_runes ranges)) _
        (push_runes-Returns empty_seq (class_runes ranges) (class_runes-All IsRune ranges h))
        (λ s. (_, refl)))

mutual
  unfolding extract IsEncodable

  extract-Returns :
      (φ : Folding) (r : Regexp) → KeepsRunes φ → IsEncodable r → Returns (extract φ r)
  extract-Returns φ (literal fold rs) step h =
      extract_literal-Returns φ fold t_seq_nothing rs step h
  extract-Returns φ (char_class ranges) step h = extract_class-Returns ranges h
  extract-Returns φ (capture r) step h = extract-Returns φ r step h
  extract-Returns φ (star ng r) step h =
      Returns-bind (extract φ r) _ (extract-Returns φ r step h) (λ t. (_, refl))
  extract-Returns φ (plus ng r) step h =
      Returns-bind (extract φ r) _ (extract-Returns φ r step h) (λ t. (_, refl))
  extract-Returns φ (quest ng r) step h =
      Returns-bind (extract φ r) _ (extract-Returns φ r step h) (λ t. (_, refl))
  extract-Returns φ (repeat ng min max r) step h =
      Returns-if (never_repeats min max) _ _ (_, refl)
        (Returns-bind (extract φ r) _ (extract-Returns φ r step h) (λ t. (_, refl)))
  extract-Returns φ (concat subs) step h = concat-Returns φ subs none t_seq_nothing step h
  extract-Returns φ (alternate subs) step h = alternation-Returns φ subs _ step h
  extract-Returns φ _ step h = (_, refl)

  concat-Returns :
      (φ : Folding) (subs : Subs) (prev : Option TSeq) (s : TSeq)
      → KeepsRunes φ
      → AreEncodable subs
      → Returns (extract_concat φ prev s subs)
  concat-Returns φ nil prev s step h = (_, refl)
  concat-Returns φ (cons r subs) prev s step (h, hs) =
      Returns-if (not (is_inexact s.s)) _ _
        (Returns-bind (extract φ r) _ (extract-Returns φ r step h)
          (λ t. concat-Returns φ subs prev (cross s t) step hs))
        (Returns-if (is_empty s.s) _ _ (_, refl)
          (Returns-if (is_really_good s) _ _ (_, refl)
            (Returns-bind (extract φ r) _ (extract-Returns φ r step h) (λ t.
              concat-Returns φ subs (some (choose_prev prev s)) (cross restarted t) step hs))))

  alternation-Returns :
      (φ : Folding) (subs : Subs) (s : TSeq)
      → KeepsRunes φ
      → AreEncodable subs
      → Returns (extract_alternation φ s subs)
  alternation-Returns φ nil s step h = (_, refl)
  alternation-Returns φ (cons r subs) s step (h, hs) =
      Returns-if (not (is_finite s.s)) _ _ (_, refl)
        (Returns-bind (extract φ r) _ (extract-Returns φ r step h)
          (λ t. alternation-Returns φ subs (t_union s t) step hs))

-- If folding takes runes that UTF-8 encodes to such runes, and every rune of the literals and
-- classes of the pattern is one, `extractInnerLiterals` returns a sequence.
pub extract_inner_literals-returns :
    (φ : Folding) (re : Regexp)
    → KeepsRunes φ
    → IsEncodable re
    → (s : Seq) × (extract_inner_literals φ re ≡ some s)
unfolding extract_inner_literals
extract_inner_literals-returns φ re step h =
    Returns-bind (extract φ re) _ (extract-Returns φ re step h) (λ t. (untagged t, refl))

-- `extractInnerLiterals` panics on a concatenation that starts with a case-sensitive literal whose
-- first rune is a surrogate, whatever follows in the literal and in the concatenation.
pub surrogate_panics :
    (φ : Folding) (r : ℕ) (rs : List ℕ) (subs : Subs)
    → 0xD800 ≤ r
    → r ≤ 0xDFFF
    → extract_inner_literals φ (concat (cons (literal false (r ∷ rs)) subs)) ≡ none
unfolding extract_inner_literals extract extract_literal rune_seq is_inexact
surrogate_panics φ r rs subs h k =
    let e : encode_rune r ≡ none = unfold encode_rune in ground arith in rw e refl
