-- ===== src/Match/Optimize.antt =====
-- match/seq.go: `optimizeForPrefixByPreference`, which trims a sequence for a prefilter.
pub mod Sound
use gripgrep.Base.{
  ℕ, zero, suc, ◌+◌, ◌-◌, ◌*◌, ◌/◌, ◌%◌, ◌≤◌, ◌<◌, ◌≡◌, refl, sym, ap, ◌∙◌, subst, ◌≢◌, ◌↔◌, ◌⊎◌,
  inl, inr, Bool, true, false, not, ◌&&◌, ◌||◌, Option, none, some, List, [], ◌∷◌, ◌++◌, map,
  reverse, append-nil, append_assoc, arith, ltb, leb, ◌==◌, if◌then◌else◌, ltb→lt, lt→ltb, leb→le,
  ==_iff, tests, Bool-cases, Option-cases, ◌>>=◌, >>=-eq-some, Bytes, codes, String, length,
  get_elem?, get_or, set, take, drop, length-append, take-append-drop, length-take, length-drop,
  take-le-length, bytes_equal, bytes_equal_iff, of_some, bytes_equal_refl,
}
use gripgrep.Match.Rank.{rank}
use gripgrep.Match.Seq.{
  LiteralItem, is_poisonous, Seq, finite, infinite, is_exact, seq_length, is_finite, make_infinite,
  min_literal_len, dedup, keep_first_bytes, longest_common_prefix,
}
use gripgrep.Match.TSeq.{any_poisonous}
use gripgrep.Match.Trie.{minimize_by_preference}

abbrev pub at_most : ℕ → Option ℕ → Bool
at_most limit none = false
at_most limit (some n) = leb n limit

-- `len(fix) >= 1 && len(fix) <= 3 && rank(fix[0]) < 200`
unfoldable pub short_rare : Bytes → Bool
short_rare [] = false
short_rare (b ∷ bs) = leb (length (b ∷ bs)) 3 && ltb (rank b) 200

-- After the common prefix `fix`: cut to it, if that is worth while.
unfoldable pub cut_to_prefix : Bytes → Seq → Seq
cut_to_prefix fix s =
    let is_fast = is_exact s && at_most 16 (seq_length s) in
    if ltb 4 (length fix) || ltb 1 (length fix) && not is_fast
    then dedup (keep_first_bytes (length fix) s)
    else s

abbrev pub attempts : List (ℕ × ℕ)
attempts = (5, 10) ∷ (4, 10) ∷ (3, 64) ∷ (2, 64) ∷ (1, 10) ∷ []

-- The loop over the attempts, with its two breaks.
unfoldable pub try_attempts : List (ℕ × ℕ) → Seq → Seq
try_attempts [] s = s
try_attempts ((keep, limit) ∷ rest) s =
    let next = try_attempts rest (minimize_by_preference true (keep_first_bytes keep s)) in
    elim (seq_length s) [ none ↦ s | some n ↦ if leb n limit then s else next ]

unfoldable pub drop_poisonous : Seq → Seq
drop_poisonous infinite = infinite
drop_poisonous (finite lits) = if any_poisonous lits then infinite else finite lits

abbrev pub above : ℕ → Option ℕ → Bool
above m none = false
above m (some n) = ltb m n

-- The end: go back to the exact sequence, if the trimmed one is no better.
unfoldable pub restore_exact : Bool → Seq → Seq → Seq
restore_exact was_exact exact s =
    if not was_exact
    then s
    else if not (is_finite s)
    then exact
    else if not (above 2 (min_literal_len s))
    then exact
    else if not (at_most 64 (seq_length s))
    then exact
    else s

unfoldable pub optimize_tail : Seq → Seq
unfolding try_attempts drop_poisonous restore_exact
optimize_tail s = restore_exact (is_exact s) s (drop_poisonous (try_attempts attempts s))

-- What follows the minimization, by the common prefix.
unfoldable pub optimize_by_fix : ℕ → Option Bytes → Seq → Seq
unfolding short_rare cut_to_prefix optimize_tail
optimize_by_fix orig_len none s = optimize_tail s
optimize_by_fix orig_len (some fix) s =
    if ltb 1 orig_len && short_rare fix
    then dedup (keep_first_bytes 1 s)
    else optimize_tail (cut_to_prefix fix s)

abbrev pub is_zero : Option ℕ → Bool
is_zero none = false
is_zero (some n) = n == 0

unfoldable pub optimize_for_prefix_by_preference : Seq → Seq
unfolding optimize_by_fix
optimize_for_prefix_by_preference infinite = infinite
optimize_for_prefix_by_preference (finite lits) =
    if is_zero (min_literal_len (finite lits))
    then make_infinite (finite lits)
    else let s = minimize_by_preference true (finite lits) in
      optimize_by_fix (length lits) (longest_common_prefix s) s
