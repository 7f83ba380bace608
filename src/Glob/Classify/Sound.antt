-- ===== src/Glob/Classify/Sound.antt =====
-- glob/classify.go: every fast class agrees with the expression that it stands for.
use gripgrep.Base.{
  ◌≡◌, refl, subst, ◌≢◌, ◌↔◌, ◌⊎◌, true, Option, none, some, List, [], ◌∷◌, Bytes, of_some,
}
use gripgrep.Base.Find.{Free}
use gripgrep.Glob.Token.{Token, newline, EncodedMatches}
use gripgrep.Glob.Token.Text.{Matches, NoStrays, OtherRune, Matches-EncodedMatches}
use gripgrep.Base.Any.{All}
use gripgrep.Glob.Path.{Splits}
use gripgrep.Glob.Classify.{
  FastClass, kind_literal, kind_basename, kind_ext, kind_suffix, kind_prefix, kind_contains,
  kind_between, kind_path_between, kind_chain, kind_suffix_path, ◌orelse◌, classed, classify_fast,
}
use gripgrep.Glob.Classify.Fast.{
  AreFast, basename_literal_of-AreFast, literal_of-AreFast, ext_of_tokens-AreFast,
  suffix_of_tokens-AreFast, prefix_of_tokens-AreFast, contains_of_tokens-AreFast,
  between_of_tokens-AreFast, path_between_of_tokens-AreFast, chain_of_tokens-AreFast,
  suffix_path_of_tokens-AreFast,
}
use gripgrep.Glob.Classify.Within.{
  basename_literal_of-EncodedMatches, ext_of_tokens-EncodedMatches, suffix_of_tokens-EncodedMatches,
  prefix_of_tokens-EncodedMatches, contains_of_tokens-EncodedMatches,
  between_of_tokens-EncodedMatches,
}
use gripgrep.Glob.Classify.Whole.{
  literal_of-EncodedMatches, path_between_of_tokens-EncodedMatches,
  suffix_path_of_tokens-EncodedMatches,
}
use gripgrep.Glob.Classify.Chain.{chain_of_tokens-EncodedMatches}
use gripgrep.Glob.Class.{class_matches}

-- What holds of each attempt's answer holds of the answer of the attempts in order.
orelse-some :
    {A : Type 0} (P : FastClass → Type 0) (f : A → FastClass) (m : Option A) (n : Option FastClass)
    (k : FastClass)
    → ((a : A) → m ≡ some a → P (f a))
    → (n ≡ some k → P k)
    → (classed f m orelse n) ≡ some k
    → P k
orelse-some P f none n k g h e = h e
orelse-some P f (some a) n k g h e = subst P (of_some e) (g a refl)

last-some :
    {A : Type 0} (P : FastClass → Type 0) (f : A → FastClass) (m : Option A) (k : FastClass)
    → ((a : A) → m ≡ some a → P (f a))
    → classed f m ≡ some k
    → P k
last-some P f none k g e = cc
last-some P f (some a) k g e = subst P (of_some e) (g a refl)

classify_fast-EncodedMatches :
    (ts : List Token) (k : FastClass) (path dir base : Bytes)
    → classify_fast ts ≡ some k
    → Splits path dir base
    → Free newline dir
    → base ≢ b'.' ∷ b'.' ∷ []
    → (class_matches k path ≡ true) ↔ EncodedMatches ts path
unfolding classify_fast
classify_fast-EncodedMatches ts k path dir base h s f n =
    orelse-some P kind_basename _ _ k
      (λ a e. basename_literal_of-EncodedMatches path dir base s f n ts a e)
      (orelse-some P kind_literal _ _ k (λ a e. literal_of-EncodedMatches ts a path e)
        (orelse-some P kind_ext _ _ k
          (λ a e. ext_of_tokens-EncodedMatches path dir base s f n ts a e)
          (orelse-some P kind_suffix _ _ k
            (λ a e. suffix_of_tokens-EncodedMatches path dir base s f n ts a e)
            (orelse-some P kind_prefix _ _ k
              (λ a e. prefix_of_tokens-EncodedMatches path dir base s f n ts a e)
              (orelse-some P kind_contains _ _ k
                (λ a e. contains_of_tokens-EncodedMatches path dir base s f n ts a e)
                (orelse-some P (λ (pre, suf). kind_between pre suf) _ _ k
                  (λ (a, b) e. between_of_tokens-EncodedMatches path dir base s f n ts a b e)
                  (orelse-some P (λ (pre, suf). kind_path_between pre suf) _ _ k
                    (λ (a, b) e. path_between_of_tokens-EncodedMatches ts a b path e)
                    (orelse-some P (λ (cs, as_, ae). kind_chain cs as_ ae) _ _ k
                      (λ (cs, as_, ae) e.
                        chain_of_tokens-EncodedMatches ts cs as_ ae path dir base s f n e)
                      (last-some P kind_suffix_path _ k
                        (λ a e. suffix_path_of_tokens-EncodedMatches ts a path e))))))))))
      h
  where
    P : FastClass → Type 0
    P c = (class_matches c path ≡ true) ↔ EncodedMatches ts path

classify_fast-AreFast : (ts : List Token) (k : FastClass) → classify_fast ts ≡ some k → AreFast ts
unfolding classify_fast
classify_fast-AreFast ts k h =
    orelse-some P kind_basename _ _ k (basename_literal_of-AreFast ts)
      (orelse-some P kind_literal _ _ k (literal_of-AreFast ts) (
        orelse-some P kind_ext _ _ k (ext_of_tokens-AreFast ts) (
          orelse-some P kind_suffix _ _ k (suffix_of_tokens-AreFast ts) (
            orelse-some P kind_prefix _ _ k (prefix_of_tokens-AreFast ts) (
              orelse-some P kind_contains _ _ k (contains_of_tokens-AreFast ts) (
                orelse-some P (λ (pre, suf). kind_between pre suf) _ _ k
                  (between_of_tokens-AreFast ts)
                  (orelse-some P (λ (pre, suf). kind_path_between pre suf) _ _ k
                    (path_between_of_tokens-AreFast ts)
                    (orelse-some P (λ (cs, as_, ae). kind_chain cs as_ ae) _ _ k
                      (chain_of_tokens-AreFast ts)
                      (last-some P kind_suffix_path _ k (suffix_path_of_tokens-AreFast ts))))))))))
      h
  where
    P : FastClass → Type 0
    P c = AreFast ts

-- If `classifyFast` puts the tokens of a pattern into a fast class, then on every path whose last
-- component is not `..` and has no newline before it, if the path is in UTF-8 or no literal of the
-- tokens is written as U+FFFD, which Go reads a byte that is not UTF-8 as, the test that `Match`
-- makes for the class answers yes just where the regular expression of the tokens matches the path.
pub classify_fast-Matches :
    (ts : List Token) (k : FastClass) (path dir base : Bytes)
    → classify_fast ts ≡ some k
    → NoStrays path ⊎ All OtherRune ts
    → Splits path dir base
    → Free newline dir
    → base ≢ b'.' ∷ b'.' ∷ []
    → (class_matches k path ≡ true) ↔ Matches ts path
classify_fast-Matches ts k path dir base h r s f n =
    let (onto, back) = classify_fast-EncodedMatches ts k path dir base h s f n in
    let (up, down) = Matches-EncodedMatches ts path r (classify_fast-AreFast ts k h) in
    ((λ c. up (onto c)), (λ c. back (down c)))
