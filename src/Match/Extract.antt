-- ===== src/Match/Extract.antt =====
-- match/seq.go: the extractor, which reads a pattern's tree for literals that its matches contain.
-- `none` is a panic of the Go code.
pub mod Steps
pub mod Repeat
pub mod Runes
pub mod Replacement
pub mod Sound
use gripgrep.Base.{
  ℕ, zero, suc, ◌+◌, ◌-◌, ◌*◌, ◌/◌, ◌%◌, ◌≤◌, ◌<◌, ◌≡◌, refl, sym, ap, ◌∙◌, subst, ◌≢◌, ◌↔◌, ◌⊎◌,
  inl, inr, Bool, true, false, not, ◌&&◌, ◌||◌, Option, none, some, List, [], ◌∷◌, ◌++◌, map,
  reverse, append-nil, append_assoc, arith, ltb, leb, ◌==◌, if◌then◌else◌, ltb→lt, lt→ltb, leb→le,
  ==_iff, tests, Bool-cases, Option-cases, ◌>>=◌, >>=-eq-some, Bytes, codes, String, length,
  get_elem?, get_or, set, take, drop, length-append, take-append-drop, length-take, length-drop,
  take-le-length, bytes_equal, bytes_equal_iff, bytes_equal_refl,
}
use gripgrep.Match.Seq.{
  exact_lit, Seq, finite, infinite, empty_seq, is_finite, is_empty, is_inexact, make_inexact, push,
  max_cross_len, max_union_len, dedup, cross_forward, union, keep_first_bytes,
}
use gripgrep.Match.TSeq.{TSeq, t_seq_singleton, t_seq_infinite, is_really_good, choose}
use gripgrep.Match.Regexp.{Folding, orbit_fuel, encode_rune, Regexp, Subs, nil, cons}
use gripgrep.Match.Regexp.{
  no_match, empty_match, any_char_not_nl, any_char, begin_line, end_line, begin_text, end_text,
  word_boundary, no_word_boundary, literal, char_class, capture, star, plus, quest, repeat, concat,
  alternate,
}

abbrev pub limit_class : ℕ
limit_class = 10

abbrev pub limit_repeat : ℕ
limit_repeat = 10

abbrev pub limit_literal_len : ℕ
limit_literal_len = 100

abbrev pub limit_total : ℕ
limit_total = 64

-- `tSeqSingleton(exactLit(nil))`
abbrev pub t_seq_nothing : TSeq
t_seq_nothing = t_seq_singleton (exact_lit [])

abbrev pub enforce_literal_len : Seq → Seq
enforce_literal_len s = keep_first_bytes limit_literal_len s

abbrev pub over_limit : Option ℕ → Bool
over_limit none = false
over_limit (some n) = ltb limit_total n

unfoldable pub cross : TSeq → TSeq → TSeq
cross s1 s2 = if not s2.prefix then choose s1 s2 else record s1 {
  s =
      enforce_literal_len
        (cross_forward s1.s (if over_limit (max_cross_len s1.s s2.s) then infinite else s2.s));
}

-- `union` on sequences cut to four bytes, and the second test
unfoldable pub union_cut : Seq → Seq → Seq
union_cut a b = union a (if over_limit (max_union_len a b) then infinite else b)

unfoldable pub t_union : TSeq → TSeq → TSeq
unfolding union_cut
t_union s1 s2 = record {
  s =
      if over_limit (max_union_len s1.s s2.s)
      then union_cut (dedup (keep_first_bytes 4 s1.s)) (dedup (keep_first_bytes 4 s2.s))
      else union s1.s s2.s;
  prefix = s1.prefix && s2.prefix;
}

-- The loop of `foldOrbit`, from its first test of `f`.
unfoldable pub orbit_from : (ℕ → ℕ) → ℕ → ℕ → ℕ → List ℕ
orbit_from fold zero r f = []
orbit_from fold (suc fuel) r f =
    let rest = orbit_from fold fuel r (fold f) in if f == r then [] else f ∷ rest

-- `sort.Slice` by `<`
unfoldable pub insert_rune : ℕ → List ℕ → List ℕ
insert_rune r [] = r ∷ []
insert_rune r (x ∷ xs) = if leb r x then r ∷ x ∷ xs else x ∷ insert_rune r xs

unfoldable pub sort_runes : List ℕ → List ℕ
unfolding insert_rune
sort_runes [] = []
sort_runes (x ∷ xs) = insert_rune x (sort_runes xs)

unfoldable pub fold_orbit : Folding → ℕ → List ℕ
unfolding orbit_from sort_runes
fold_orbit φ r = sort_runes (r ∷ orbit_from φ.simple_fold orbit_fuel r (φ.simple_fold r))

-- The loops that push the encoding of each rune.
unfoldable pub push_runes : Seq → List ℕ → Option Seq
push_runes s [] = some s
push_runes s (r ∷ rs) = encode_rune r >>= λ buf. push_runes (push s (exact_lit buf)) rs

-- The sequence of one rune of a literal.
unfoldable pub rune_seq : Folding → Bool → ℕ → Option TSeq
unfolding fold_orbit push_runes
rune_seq φ false r = encode_rune r >>= λ buf. some (t_seq_singleton (exact_lit buf))
rune_seq φ true r = push_runes empty_seq (fold_orbit φ r) >>= λ s.
    some (record { s = enforce_literal_len s; prefix = true })

unfoldable pub extract_literal : Folding → Bool → TSeq → List ℕ → Option TSeq
unfolding rune_seq
extract_literal φ fold t [] = some t
extract_literal φ fold t (r ∷ rs) = rune_seq φ fold r >>= λ u. extract_literal φ fold (cross t u) rs

-- `for r := lo; r <= hi; r++`, by the count of runes left
unfoldable pub runes_from : ℕ → ℕ → List ℕ
runes_from lo zero = []
runes_from lo (suc n) = lo ∷ runes_from (lo + 1) n

unfoldable pub class_runes : List (ℕ × ℕ) → List ℕ
unfolding runes_from
class_runes [] = []
class_runes ((lo, hi) ∷ ranges) = runes_from lo (hi + 1 - lo) ++ class_runes ranges

-- A parsed class has `lo ≤ hi` in every range, so that the difference is Go's.
unfoldable pub class_over_limit_from : ℕ → List (ℕ × ℕ) → Bool
class_over_limit_from count [] = ltb limit_class count
class_over_limit_from count ((lo, hi) ∷ ranges) =
    if ltb limit_class count then true else class_over_limit_from (count + (hi - lo) + 1) ranges

unfoldable pub extract_class : List (ℕ × ℕ) → Option TSeq
unfolding class_over_limit_from class_runes push_runes
extract_class ranges =
    if class_over_limit_from 0 ranges
    then some t_seq_infinite
    else push_runes empty_seq (class_runes ranges) >>= λ s.
        some (record { s = enforce_literal_len s; prefix = true })

-- the loop of `extractRepeatRange`
unfoldable pub repeat_cross : ℕ → TSeq → TSeq → TSeq
repeat_cross zero subseq s = s
repeat_cross (suc reps) subseq s =
    let next = repeat_cross reps subseq (cross s subseq) in if is_inexact s.s then s else next

unfoldable pub extract_repeat_range : TSeq → ℕ → Bool → TSeq
unfolding repeat_cross
extract_repeat_range subseq min exact_count =
    let s =
      repeat_cross (if ltb limit_repeat min then limit_repeat else min) subseq t_seq_nothing in
    if exact_count && leb min limit_repeat then s else record s { s = make_inexact s.s }

-- `extractRepetition` after the sub-pattern was extracted; `max` is `none` where Go has -1.
unfoldable pub repetition : Bool → ℕ → Option ℕ → TSeq → TSeq
unfolding extract_repeat_range
repetition non_greedy zero max subseq =
    let sub' : TSeq = elim max [
      | none ↦ record subseq { s = make_inexact subseq.s }
      | some m ↦ if m == 1 then subseq else record subseq { s = make_inexact subseq.s }
    ] in
    if non_greedy then t_union t_seq_nothing sub' else t_union sub' t_seq_nothing
repetition non_greedy (suc min) none subseq = record subseq { s = make_inexact subseq.s }
repetition non_greedy (suc min) (some max) subseq =
    extract_repeat_range subseq (suc min) (suc min == max)

-- `min == 0 && max == 0`
abbrev pub never_repeats : ℕ → Option ℕ → Bool
never_repeats min none = false
never_repeats min (some max) = min == 0 && max == 0

-- `prev` with `s` taken in
abbrev pub choose_prev : Option TSeq → TSeq → TSeq
choose_prev none s = s
choose_prev (some prev) s = choose prev s

abbrev pub restarted : TSeq
restarted = record { s = finite (exact_lit [] ∷ []); prefix = false }

unfoldable mutual
  pub extract : Folding → Regexp → Option TSeq
  extract φ no_match = some (record { s = empty_seq; prefix = true })
  extract φ empty_match = some t_seq_nothing
  extract φ any_char_not_nl = some t_seq_infinite
  extract φ any_char = some t_seq_infinite
  extract φ begin_line = some t_seq_nothing
  extract φ end_line = some t_seq_nothing
  extract φ begin_text = some t_seq_nothing
  extract φ end_text = some t_seq_nothing
  extract φ word_boundary = some t_seq_nothing
  extract φ no_word_boundary = some t_seq_nothing
  extract φ (literal fold rs) = extract_literal φ fold t_seq_nothing rs
  extract φ (char_class ranges) = extract_class ranges
  extract φ (capture r) = extract φ r
  extract φ (star ng r) = extract φ r >>= λ t. some (repetition ng 0 none t)
  extract φ (plus ng r) = extract φ r >>= λ t. some (repetition ng 1 none t)
  extract φ (quest ng r) = extract φ r >>= λ t. some (repetition ng 0 (some 1) t)
  extract φ (repeat ng min max r) =
      let sub = extract φ r in
      if never_repeats min max
      then some t_seq_nothing
      else sub >>= λ t. some (repetition ng min max t)
  extract φ (concat subs) = extract_concat φ none t_seq_nothing subs
  extract φ (alternate subs) = extract_alternation φ (record { s = empty_seq; prefix = true }) subs

  -- The loop of `extractConcat`, with its early returns.
  pub extract_concat : Folding → Option TSeq → TSeq → Subs → Option TSeq
  extract_concat φ prev s nil = some (choose_prev prev s)
  extract_concat φ prev s (cons r subs) =
      let onward = extract φ r >>= λ t. extract_concat φ prev (cross s t) subs in
      let restart = extract φ r >>= λ t.
      extract_concat φ (some (choose_prev prev s)) (cross restarted t) subs in
      if not (is_inexact s.s)
      then onward
      else if is_empty s.s
      then some s
      else if is_really_good s
      then some s
      else restart

  pub extract_alternation : Folding → TSeq → Subs → Option TSeq
  extract_alternation φ s nil = some s
  extract_alternation φ s (cons r subs) =
      let rest = extract φ r >>= λ t. extract_alternation φ (t_union s t) subs in
      if not (is_finite s.s) then some s else rest
