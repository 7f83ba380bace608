-- ===== src/Match/Examples.antt =====
-- Runs of match/seq.go on small patterns, and one use of each theorem.
use gripgrep.Base.{
  ℕ, zero, suc, ◌<◌, ◌++◌, ◌+◌, ◌-◌, ◌≡◌, refl, sym, subst, inl, inr, Bool, true, false, ◌&&◌, none,
  some, List, [], ◌∷◌, arith, leb, if◌then◌else◌, Bytes, codes, bytes_equal,
}
use gripgrep.Match.Seq.{
  LiteralItem, exact_lit, inexact_lit, Seq, finite, dedup, cross_forward, max_cross_len,
}
use gripgrep.Match.Seq.Cover.{Hit, Covers, dedup-Covers, cross_forward-Covers}
use gripgrep.Match.Regexp.{Folding, iterate, Regexp, nil, cons, Lang, encode_rune, SameRune}
use gripgrep.Match.Regexp.{literal, any_char_not_nl, star, concat}
use gripgrep.Match.TSeq.{TSeq, choose}
use gripgrep.Match.TSeq.Choose.{TCovers, choose-TCovers}
use gripgrep.Match.Extract.{extract, repetition, fold_orbit, t_union}
use gripgrep.Match.Extract.Steps.{Hit-exact_lit, t_union-TCovers}
use gripgrep.Match.Extract.Repeat.{repetition-TCovers}
use gripgrep.Match.Extract.Runes.{Among, fold_orbit_complete}
use gripgrep.Match.Extract.Replacement.{NoReplacement}
use gripgrep.Match.Extract.Sound.{extract-TCovers}
use gripgrep.Match.Trie.{preference_trie_minimize}
use gripgrep.Match.Trie.Sound.{Contains, ContainsLit, preference_trie_minimize-Contains}
use gripgrep.Match.Optimize.{optimize_for_prefix_by_preference}
use gripgrep.Match.Optimize.Sound.{optimize-Contains}
use gripgrep.Match.Inner.{extract_inner_literals, extract_inner_literals-Contains}
use gripgrep.Match.Inner.Panic.{
  IsEncodable, KeepsRunes, extract_inner_literals-returns, surrogate_panics,
}
use gripgrep.Match.Seq.{
  extend, lit_keep_first_bytes, is_poisonous_bytes, is_poisonous, all_exact, is_exact, all_inexact,
  is_inexact, make_inexact, push_lits, push, min_len, max_len, min_literal_len, max_literal_len,
  max_union_len, dedup_from, dedup_lits, cross_one, cross_lits, cross_infinite, union,
  keep_first_bytes, agree, common_len, longest_common_prefix,
}
use gripgrep.Match.TSeq.{
  any_poisonous, seq_has_poisonous, has_poisonous_literal, good_size, is_good, really_good_size,
  is_really_good, choose_by_len, choose_inexact,
}
use gripgrep.Match.Extract.{
  cross, union_cut, orbit_from, insert_rune, sort_runes, push_runes, rune_seq, extract_literal,
  runes_from, class_runes, class_over_limit_from, extract_class, repeat_cross, extract_repeat_range,
  extract_concat, extract_alternation,
}
use gripgrep.Match.Trie.{
  create_state, with_root, find_trans, add_trans, insert_from, insert, minimize_from,
  make_inexact_at, make_all_inexact, minimize_by_preference,
}
use gripgrep.Match.Optimize.{
  short_rare, cut_to_prefix, try_attempts, drop_poisonous, restore_exact, optimize_tail,
  optimize_by_fix,
}
use gripgrep.Match.Rank.{rank, is_poisonous_byte, rarest_from, rarest_byte}
use gripgrep.Match.Inner.{untagged, extract_untagged}

-- Simple case folding of ASCII letters.
unfoldable is_upper : ℕ → Bool
is_upper r = leb b'A' r && leb r b'Z'

unfoldable is_lower : ℕ → Bool
is_lower r = leb b'a' r && leb r b'z'

unfoldable swap_case : ℕ → ℕ
unfolding is_upper is_lower
swap_case r = if is_upper r then r + 32 else if is_lower r then r - 32 else r

swap_case-twice : (r : ℕ) → swap_case (swap_case r) ≡ r
unfolding swap_case
swap_case-twice r = ground arith

unfoldable ascii : Folding
ascii = record {
  simple_fold = swap_case;
  steps = λ r. 1;
  steps-lt = λ r. omega arith;
  comes_back = λ r. unfold iterate in swap_case-twice r;
}

ascii-KeepsRunes : KeepsRunes ascii
unfolding ascii swap_case
ascii-KeepsRunes r h = ground arith

-- `fn.*bar`, its first literal without case
abbrev fn_bar : Regexp
fn_bar = concat (
    cons (literal true (b'f' ∷ b'n' ∷ []))
      (cons (star false any_char_not_nl) (cons (literal false (b'b' ∷ b'a' ∷ b'r' ∷ [])) nil)))

abbrev bar : Seq
bar = finite (inexact_lit (codes "bar") ∷ [])

fn_bar_literals : extract_inner_literals ascii fn_bar ≡ some bar
unfolding ascii swap_case is_upper is_lower bytes_equal extend lit_keep_first_bytes
    is_poisonous_bytes is_poisonous all_exact is_exact all_inexact is_inexact make_inexact push_lits
    push min_len max_len min_literal_len max_literal_len max_union_len max_cross_len dedup_from
    dedup_lits dedup cross_one cross_lits cross_infinite cross_forward union keep_first_bytes agree
    common_len longest_common_prefix any_poisonous seq_has_poisonous has_poisonous_literal good_size
    is_good really_good_size is_really_good choose_by_len choose_inexact choose cross union_cut
    t_union orbit_from insert_rune sort_runes fold_orbit push_runes rune_seq extract_literal
    runes_from class_runes class_over_limit_from extract_class repeat_cross extract_repeat_range
    repetition extract extract_concat extract_alternation create_state with_root find_trans
    add_trans insert_from insert minimize_from make_inexact_at make_all_inexact
    preference_trie_minimize minimize_by_preference short_rare cut_to_prefix try_attempts
    drop_poisonous restore_exact optimize_tail optimize_by_fix optimize_for_prefix_by_preference
    encode_rune iterate rank is_poisonous_byte rarest_from rarest_byte untagged extract_untagged
    extract_inner_literals
fn_bar_literals = refl

-- A byte that is not UTF-8 stands between the literals.
abbrev stray_match : Bytes
stray_match = b'F' ∷ b'n' ∷ 0xFF ∷ codes "bar"

fn_bar-Lang : Lang ascii true fn_bar stray_match
unfolding Lang ascii iterate swap_case is_upper is_lower encode_rune
fn_bar-Lang = (
  codes "Fn",
  0xFF ∷ codes "bar",
  refl,
  (
    b'F',
    codes "F",
    codes "n",
    (1, refl),
    inl refl,
    refl,
    (b'n', codes "n", [], (0, refl), inl refl, refl, refl),
  ),
  (
    0xFF ∷ [],
    codes "bar",
    refl,
    (1, (0xFF ∷ [], [], refl, tt, refl)),
    (
      codes "bar",
      [],
      refl,
      (
        b'b',
        codes "b",
        codes "ar",
        refl,
        inl refl,
        refl,
        (
          b'a',
          codes "a",
          codes "r",
          refl,
          inl refl,
          refl,
          (b'r', codes "r", [], refl, inl refl, refl, refl),
        ),
      ),
      refl,
    ),
  ),
)

swap_case-below : (k r : ℕ) → r < 0x80 → iterate swap_case k r < 0x80
unfolding iterate swap_case is_upper is_lower
swap_case-below zero r h = h
swap_case-below (suc k) r h = swap_case-below k (swap_case r) (ground arith)

ascii-apart : (r : ℕ) → r < 0x80 → SameRune ascii true r 0xFFFD → ⊥
unfolding ascii
ascii-apart r h (k, e) = let b = swap_case-below k r h in omega arith

fn_bar-NoReplacement : NoReplacement ascii fn_bar
unfolding NoReplacement
fn_bar-NoReplacement = (
  (ascii-apart b'f' (omega arith), (ascii-apart b'n' (omega arith), tt)),
  (tt, (((λ e. omega arith), ((λ e. omega arith), ((λ e. omega arith), tt))), tt)),
)

extract_inner_literals-Contains_example : Contains bar (codes "x " ++ (stray_match ++ codes ")"))
extract_inner_literals-Contains_example =
    extract_inner_literals-Contains ascii true fn_bar bar (codes "x ") stray_match (codes ")")
      (inr fn_bar-NoReplacement) fn_bar_literals fn_bar-Lang

fn_bar_extracted : extract ascii fn_bar ≡ some (record { s = bar; prefix = false })
unfolding ascii swap_case is_upper is_lower bytes_equal extend lit_keep_first_bytes
    is_poisonous_bytes is_poisonous all_exact is_exact all_inexact is_inexact make_inexact push_lits
    push min_len max_len min_literal_len max_literal_len max_union_len max_cross_len dedup_from
    dedup_lits dedup cross_one cross_lits cross_infinite cross_forward union keep_first_bytes agree
    common_len longest_common_prefix any_poisonous seq_has_poisonous has_poisonous_literal good_size
    is_good really_good_size is_really_good choose_by_len choose_inexact choose cross union_cut
    t_union orbit_from insert_rune sort_runes fold_orbit push_runes rune_seq extract_literal
    runes_from class_runes class_over_limit_from extract_class repeat_cross extract_repeat_range
    repetition extract extract_concat extract_alternation create_state with_root find_trans
    add_trans insert_from insert minimize_from make_inexact_at make_all_inexact
    preference_trie_minimize minimize_by_preference short_rare cut_to_prefix try_attempts
    drop_poisonous restore_exact optimize_tail optimize_by_fix optimize_for_prefix_by_preference
    encode_rune iterate rank is_poisonous_byte rarest_from rarest_byte untagged extract_untagged
    extract_inner_literals
fn_bar_extracted = refl

extract-TCovers_example : TCovers (record { s = bar; prefix = false }) stray_match
extract-TCovers_example =
    extract-TCovers ascii true fn_bar (record { s = bar; prefix = false }) stray_match
      (inr fn_bar-NoReplacement) fn_bar_extracted fn_bar-Lang

fn_bar-IsEncodable : IsEncodable fn_bar
unfolding IsEncodable
fn_bar-IsEncodable = (
  (inl (omega arith), (inl (omega arith), tt)),
  (tt, ((inl (omega arith), (inl (omega arith), (inl (omega arith), tt))), tt)),
)

extract_inner_literals-returns_example : (s : Seq) × (extract_inner_literals ascii fn_bar ≡ some s)
extract_inner_literals-returns_example =
    extract_inner_literals-returns ascii fn_bar ascii-KeepsRunes fn_bar-IsEncodable

surrogate_panics_example :
    extract_inner_literals ascii
      (concat (cons (literal false (0xD800 ∷ [])) (cons (star false any_char_not_nl) nil)))
    ≡ none
surrogate_panics_example =
    surrogate_panics ascii 0xD800 [] (cons (star false any_char_not_nl) nil) (omega arith)
      (omega arith)

-- `abc` comes after `ab`, which is preferred.
abbrev nested : List LiteralItem
nested = exact_lit (codes "ab") ∷ exact_lit (codes "abc") ∷ exact_lit (codes "b") ∷ []

nested-ContainsLit : ContainsLit (codes "xabc") nested
nested-ContainsLit = inr (inl (codes "x", [], refl))

preference_trie_minimize-Contains_example :
    ContainsLit (codes "xabc") (preference_trie_minimize true nested)
preference_trie_minimize-Contains_example =
    preference_trie_minimize-Contains (codes "xabc") true nested nested-ContainsLit

optimize-Contains_example :
    Contains (optimize_for_prefix_by_preference (finite nested)) (codes "xabc")
optimize-Contains_example = optimize-Contains (codes "xabc") (finite nested) nested-ContainsLit

whole-Hit : (b : Bytes) → Hit true (exact_lit b) b
whole-Hit b = Hit-exact_lit true b

abbrev of_bytes : Bytes → TSeq
of_bytes b = record { s = finite (exact_lit b ∷ []); prefix = true }

choose-TCovers_example : TCovers (choose (of_bytes []) (of_bytes (codes "ab"))) (codes "ab")
choose-TCovers_example =
    choose-TCovers (of_bytes []) (of_bytes (codes "ab")) [] (codes "ab") (λ _. refl)
      (inl (whole-Hit [])) (inl (whole-Hit (codes "ab")))

cross_forward-Covers_example :
    Covers true
      (cross_forward (finite (exact_lit (codes "ab") ∷ [])) (finite (exact_lit (codes "c") ∷ [])))
      (codes "abc")
cross_forward-Covers_example =
    cross_forward-Covers true (finite (exact_lit (codes "ab") ∷ []))
      (finite (exact_lit (codes "c") ∷ [])) (codes "ab") (codes "c") (inl (whole-Hit (codes "ab")))
      (inl (whole-Hit (codes "c")))

dedup-Covers_example : Covers true (dedup (finite (inexact_lit [] ∷ exact_lit [] ∷ []))) []
dedup-Covers_example =
    dedup-Covers true (finite (inexact_lit [] ∷ exact_lit [] ∷ [])) [] (inr (inl (whole-Hit [])))

t_union-TCovers_example :
    TCovers (t_union (of_bytes (codes "a")) (of_bytes (codes "b"))) (codes "b")
t_union-TCovers_example =
    t_union-TCovers (of_bytes (codes "a")) (of_bytes (codes "b")) (codes "b")
      (inr (inl (whole-Hit (codes "b"))))

repetition-TCovers_example :
    TCovers (repetition false 2 (some 3) (of_bytes (codes "a"))) (codes "aaa")
repetition-TCovers_example =
    repetition-TCovers false 2 (some 3) 3 (λ x. x ≡ codes "a") (of_bytes (codes "a")) (codes "aaa")
      (λ x e. inl (subst (λ z. Hit true (exact_lit (codes "a")) z) (sym e) (whole-Hit (codes "a"))))
      (omega arith) (omega arith)
      (
        codes "a",
        codes "aa",
        refl,
        refl,
        (codes "a", codes "a", refl, refl, (codes "a", [], refl, refl, refl)),
      )

fold_orbit_complete_example : Among (iterate ascii.simple_fold 3 b'k') (fold_orbit ascii b'k')
fold_orbit_complete_example = fold_orbit_complete ascii b'k' 3
