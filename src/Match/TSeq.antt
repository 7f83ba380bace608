-- ===== src/Match/TSeq.antt =====
-- match/seq.go: `tSeq`, a sequence with the tag that says whether its literals start the match.
pub mod Choose
use gripgrep.Base.{
  ℕ, zero, suc, ◌+◌, ◌-◌, ◌*◌, ◌/◌, ◌%◌, ◌≤◌, ◌<◌, ◌≡◌, refl, sym, ap, ◌∙◌, subst, ◌≢◌, ◌↔◌, ◌⊎◌,
  inl, inr, Bool, true, false, not, ◌&&◌, ◌||◌, Option, none, some, List, [], ◌∷◌, ◌++◌, map,
  reverse, append-nil, append_assoc, arith, ltb, leb, ◌==◌, if◌then◌else◌, ltb→lt, lt→ltb, leb→le,
  ==_iff, tests, Bool-cases, Option-cases, ◌>>=◌, >>=-eq-some, Bytes, codes, String, length,
  get_elem?, get_or, set, take, drop, length-append, take-append-drop, length-take, length-drop,
  take-le-length, bytes_equal, bytes_equal_iff, bytes_equal_refl,
}
use gripgrep.Match.Seq.{
  LiteralItem, is_poisonous, Seq, finite, infinite, is_finite, seq_length, make_inexact,
  singleton_seq, min_literal_len,
}

pub record TSeq : Type 0 where
  pub s : Seq
  pub prefix : Bool

abbrev pub t_seq_singleton : LiteralItem → TSeq
t_seq_singleton l = record { s = singleton_seq l; prefix = true }

abbrev pub t_seq_infinite : TSeq
t_seq_infinite = record { s = infinite; prefix = true }

unfoldable pub any_poisonous : List LiteralItem → Bool
any_poisonous [] = false
any_poisonous (l ∷ lits) = if is_poisonous l then true else any_poisonous lits

unfoldable pub seq_has_poisonous : Seq → Bool
unfolding any_poisonous
seq_has_poisonous infinite = false
seq_has_poisonous (finite lits) = any_poisonous lits

unfoldable pub has_poisonous_literal : TSeq → Bool
unfolding seq_has_poisonous
has_poisonous_literal t = seq_has_poisonous t.s

-- the tests of `isGood` and `isReallyGood` on the shortest length and the count
unfoldable pub good_size : Option ℕ → Option ℕ → Bool
good_size (some min) (some n) = if leb min 1 then leb n 3 else leb 2 min && leb n 64
good_size _ _ = false

unfoldable pub is_good : TSeq → Bool
unfolding good_size
is_good t =
    if has_poisonous_literal t then false else good_size (min_literal_len t.s) (seq_length t.s)

unfoldable pub really_good_size : Option ℕ → Option ℕ → Bool
really_good_size (some min) (some n) = leb 3 min && leb n 8
really_good_size _ _ = false

unfoldable pub is_really_good : TSeq → Bool
unfolding really_good_size
is_really_good t =
    if has_poisonous_literal t
    then false
    else really_good_size (min_literal_len t.s) (seq_length t.s)

-- `n, _ := s.length()`
abbrev pub length_or_zero : Seq → ℕ
length_or_zero infinite = 0
length_or_zero (finite lits) = length lits

-- the end of `choose`, by the shortest lengths and the counts
unfoldable pub choose_by_len : TSeq → TSeq → Option ℕ → Option ℕ → TSeq
choose_by_len t o none _ = o
choose_by_len t o (some min1) none = t
choose_by_len t o (some min1) (some min2) =
    if ltb min1 min2
    then o
    else if ltb min2 min1
    then t
    else if ltb (length_or_zero t.s) (length_or_zero o.s)
    then o
    else t

-- `choose` after both sequences were made inexact
unfoldable pub choose_inexact : TSeq → TSeq → TSeq
unfolding choose_by_len
choose_inexact t o =
    if not (is_finite t.s)
    then o
    else if not (is_finite o.s)
    then t
    else if has_poisonous_literal t
    then o
    else if has_poisonous_literal o
    then t
    else choose_by_len t o (min_literal_len t.s) (min_literal_len o.s)

unfoldable pub choose : TSeq → TSeq → TSeq
unfolding choose_inexact
choose t o = choose_inexact (record t { s = make_inexact t.s }) (record o { s = make_inexact o.s })
