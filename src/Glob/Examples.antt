-- ===== src/Glob/Examples.antt =====
-- Runs of the glob package on small patterns, and one use of each theorem.
use gripgrep.Base.{
  ◌↔◌, some, ◌≡◌, ◌≢◌, ◌++◌, refl, inr, true, false, List, [], ◌∷◌, arith, Bytes, codes,
  bytes_equal,
}
use gripgrep.Glob.Path.{basename, Splits, basename_lem}
use gripgrep.Match.Regexp.{encode_rune}
use gripgrep.Glob.Token.{Token, literal, zero_or_more, recursive_prefix, write_rune}
use gripgrep.Glob.Token.Text.{OtherRune, Matches, NoStrays}
use gripgrep.Glob.Token.Utf8.{Encoded, Encoded-NoStrays}
use gripgrep.Base.Any.{All}
use gripgrep.Glob.Class.{class_matches}
use gripgrep.Glob.Classify.Sound.{classify_fast-Matches}
use gripgrep.Glob.Classify.{
  FastClass, classify_fast, kind_chain, literal_run, literal_of, ext_of_tokens, no_slash_run,
  suffix_of_tokens, within_basename, basename_tokens, basename_literal_of, run_then_star,
  prefix_of_tokens, contains_of_tokens, split_star, between_of_tokens, path_between_of_tokens,
  chain_run, ends_fixed, chain_of_tokens, kind_ext,
}
use gripgrep.Glob.Set.{Compiled, fast, regex, build, set_match}
use gripgrep.Glob.Set.Last.{Decided, set_match-Decided}

-- `*.go` and then `!main.go`, the second as an expression
abbrev rules : List (Compiled Bytes)
rules =
    record {
      ref = record { index = 0; is_whitelist = false; is_only_dir = false };
      kind = fast (kind_ext (codes ".go"));
    }
    ∷ record {
      ref = record { index = 1; is_whitelist = true; is_only_dir = false };
      kind = regex (codes "main.go");
    }
    ∷ []

set_match-Decided_example :
    Decided bytes_equal rules
      (codes "main.go")
      false
      (set_match bytes_equal (build rules) (codes "main.go") false)
set_match-Decided_example = set_match-Decided bytes_equal rules (codes "main.go") false

main_split : Splits (codes "cmd/main.go") (codes "cmd/") (codes "main.go")
main_split = record { whole = refl; no_slash = ground arith; dir_ends = inr (codes "cmd", refl) }

basename_lem_example : basename (codes "cmd/main.go") ≡ codes "main.go"
basename_lem_example =
    basename_lem (codes "cmd/main.go") (codes "cmd/") (codes "main.go") main_split
      (λ e. ground arith)

-- `**/a*b*c`
abbrev a_b_c : List Token
a_b_c =
    recursive_prefix ∷ literal b'a' ∷ zero_or_more ∷ literal b'b' ∷ zero_or_more ∷ literal b'c' ∷ []

abbrev a_b_c_chain : FastClass
a_b_c_chain = kind_chain (codes "a" ∷ codes "b" ∷ codes "c" ∷ []) true true

a_b_c-classify_fast : classify_fast a_b_c ≡ some a_b_c_chain
unfolding classify_fast basename_tokens within_basename literal_run literal_of ext_of_tokens
    suffix_of_tokens no_slash_run basename_literal_of prefix_of_tokens run_then_star
    contains_of_tokens between_of_tokens split_star path_between_of_tokens chain_of_tokens chain_run
    ends_fixed write_rune encode_rune
a_b_c-classify_fast = refl

-- `aabb`, a byte that is not UTF-8, and `c`
abbrev latin : Bytes
latin = codes "aabb" ++ 0xFF ∷ codes "c"

latin_split : Splits (codes "x/" ++ latin) (codes "x/") latin
latin_split = record { whole = refl; no_slash = ground arith; dir_ends = inr (codes "x", refl) }

a_OtherRune : write_rune b'a' ≢ write_rune 0xFFFD
unfolding write_rune encode_rune
a_OtherRune = ground arith

b_OtherRune : write_rune b'b' ≢ write_rune 0xFFFD
unfolding write_rune encode_rune
b_OtherRune = ground arith

c_OtherRune : write_rune b'c' ≢ write_rune 0xFFFD
unfolding write_rune encode_rune
c_OtherRune = ground arith

a_b_c-OtherRune : All OtherRune a_b_c
a_b_c-OtherRune = (tt, (a_OtherRune, (tt, (b_OtherRune, (tt, (c_OtherRune, tt))))))

classify_fast-Matches_example :
    (class_matches a_b_c_chain (codes "x/" ++ latin) ≡ true) ↔ Matches a_b_c (codes "x/" ++ latin)
classify_fast-Matches_example =
    classify_fast-Matches a_b_c a_b_c_chain (codes "x/" ++ latin) (codes "x/") latin
      a_b_c-classify_fast (inr a_b_c-OtherRune) latin_split (ground arith) (λ e. ground arith)

-- `é/a`
abbrev accented : Bytes
accented = 0xC3 ∷ 0xA9 ∷ codes "/a"

accented-Encoded : Encoded (0xE9 ∷ b'/' ∷ b'a' ∷ []) accented
unfolding Encoded encode_rune
accented-Encoded = (
  0xC3 ∷ 0xA9 ∷ [],
  codes "/a",
  refl,
  refl,
  (codes "/", codes "a", refl, refl, (codes "a", [], refl, refl, refl)),
)

accented-NoStrays : NoStrays accented
accented-NoStrays = Encoded-NoStrays (0xE9 ∷ b'/' ∷ b'a' ∷ []) accented accented-Encoded
