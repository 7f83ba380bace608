-- ===== src/Glob/Classify/Fast.antt =====
-- glob/classify.go: the tokens of a pattern in a fast class are literals, stars and `**`.
use gripgrep.Base.{
  ◌≡◌, sym, subst, inl, inr, Bool, true, false, ◌||◌, Option, none, some, List, [], ◌∷◌, ◌++◌, ◌==◌,
  if◌then◌else◌, Bool-cases, >>=-eq-some, Bytes, of_some,
}
use gripgrep.Base.Any.{All}
use gripgrep.Glob.Token.{
  Token, literal, any, zero_or_more, recursive_prefix, recursive_suffix, recursive_zero_or_more,
  class, alternates, write_rune, slash,
}
use gripgrep.Glob.Token.Text.{IsFast}
use gripgrep.Glob.Classify.Shapes.{after_star-some, suffix_of_tokens-some, ext_of_tokens-some}
use gripgrep.Glob.Classify.{
  literal_run, literal_of, ext_run, ext_of_tokens, no_slash_run, suffix_of_tokens, basename_tokens,
  basename_literal_of, run_then_star, prefix_of_tokens, after_star, contains_of_tokens, split_star,
  between_of_tokens, path_between_of_tokens, chain_run, chain_of_tokens, suffix_path_of_tokens,
  within_basename,
}

abbrev pub AreFast : List Token → Type 0
AreFast ts = All IsFast ts

literal_run-AreFast : (ts : List Token) (b : Bytes) → literal_run ts ≡ some b → AreFast ts
unfolding literal_run
literal_run-AreFast [] b h = tt
literal_run-AreFast (literal r ∷ ts) b h =
    let (b', e, _) = >>=-eq-some (literal_run ts) _ h in (tt, literal_run-AreFast ts b' e)
literal_run-AreFast (any ∷ ts) b h = cc h
literal_run-AreFast (zero_or_more ∷ ts) b h = cc h
literal_run-AreFast (recursive_prefix ∷ ts) b h = cc h
literal_run-AreFast (recursive_suffix ∷ ts) b h = cc h
literal_run-AreFast (recursive_zero_or_more ∷ ts) b h = cc h
literal_run-AreFast (class n rs ∷ ts) b h = cc h
literal_run-AreFast (alternates bs ∷ ts) b h = cc h

-- What is answered under a test that refuses.
unless-some :
    {A : Type 0} (b : Bool) (m : Option A) (a : A) → (if b then none else m) ≡ some a → m ≡ some a
unless-some true m a h = cc h
unless-some false m a h = h

ext_run-AreFast : (ts : List Token) (b : Bytes) → ext_run ts ≡ some b → AreFast ts
unfolding ext_run
ext_run-AreFast [] b h = tt
ext_run-AreFast (literal r ∷ ts) b h =
    let (b', e, _) =
      >>=-eq-some (ext_run ts) (λ b. some (write_rune r ++ b))
        (unless-some (r == b'.' || r == slash) _ b h) in
    (tt, ext_run-AreFast ts b' e)
ext_run-AreFast (any ∷ ts) b h = cc h
ext_run-AreFast (zero_or_more ∷ ts) b h = cc h
ext_run-AreFast (recursive_prefix ∷ ts) b h = cc h
ext_run-AreFast (recursive_suffix ∷ ts) b h = cc h
ext_run-AreFast (recursive_zero_or_more ∷ ts) b h = cc h
ext_run-AreFast (class n rs ∷ ts) b h = cc h
ext_run-AreFast (alternates bs ∷ ts) b h = cc h

no_slash_run-AreFast : (ts : List Token) (b : Bytes) → no_slash_run ts ≡ some b → AreFast ts
unfolding no_slash_run
no_slash_run-AreFast [] b h = tt
no_slash_run-AreFast (literal r ∷ ts) b h =
    let (b', e, _) =
      >>=-eq-some (no_slash_run ts) (λ b. some (write_rune r ++ b))
        (unless-some (r == slash) _ b h) in
    (tt, no_slash_run-AreFast ts b' e)
no_slash_run-AreFast (any ∷ ts) b h = cc h
no_slash_run-AreFast (zero_or_more ∷ ts) b h = cc h
no_slash_run-AreFast (recursive_prefix ∷ ts) b h = cc h
no_slash_run-AreFast (recursive_suffix ∷ ts) b h = cc h
no_slash_run-AreFast (recursive_zero_or_more ∷ ts) b h = cc h
no_slash_run-AreFast (class n rs ∷ ts) b h = cc h
no_slash_run-AreFast (alternates bs ∷ ts) b h = cc h

run_then_star-AreFast : (ts : List Token) (b : Bytes) → run_then_star ts ≡ some b → AreFast ts
unfolding run_then_star
run_then_star-AreFast [] b h = cc
run_then_star-AreFast (zero_or_more ∷ []) b h = (tt, tt)
run_then_star-AreFast (zero_or_more ∷ t ∷ ts) b h = cc h
run_then_star-AreFast (literal r ∷ ts) b h =
    let (b', e, _) = >>=-eq-some (run_then_star ts) _ h in (tt, run_then_star-AreFast ts b' e)
run_then_star-AreFast (any ∷ ts) b h = cc h
run_then_star-AreFast (recursive_prefix ∷ ts) b h = cc h
run_then_star-AreFast (recursive_suffix ∷ ts) b h = cc h
run_then_star-AreFast (recursive_zero_or_more ∷ ts) b h = cc h
run_then_star-AreFast (class n rs ∷ ts) b h = cc h
run_then_star-AreFast (alternates bs ∷ ts) b h = cc h

split_star-AreFast : (ts : List Token) (p : Bytes × Bytes) → split_star ts ≡ some p → AreFast ts
unfolding split_star
split_star-AreFast [] p h = cc
split_star-AreFast (zero_or_more ∷ ts) p h =
    let (b, e, _) = >>=-eq-some (literal_run ts) _ h in (tt, literal_run-AreFast ts b e)
split_star-AreFast (literal r ∷ ts) p h =
    let (q, e, _) = >>=-eq-some (split_star ts) _ h in (tt, split_star-AreFast ts q e)
split_star-AreFast (any ∷ ts) p h = cc h
split_star-AreFast (recursive_prefix ∷ ts) p h = cc h
split_star-AreFast (recursive_suffix ∷ ts) p h = cc h
split_star-AreFast (recursive_zero_or_more ∷ ts) p h = cc h
split_star-AreFast (class n rs ∷ ts) p h = cc h
split_star-AreFast (alternates bs ∷ ts) p h = cc h

chain_run-AreFast :
    (sb : Bytes) (opened : Bool) (ts : List Token) (cs : List Bytes)
    → chain_run sb opened ts ≡ some cs
    → AreFast ts
unfolding chain_run
chain_run-AreFast sb opened [] cs h = tt
chain_run-AreFast sb opened (literal r ∷ ts) cs h =
    (tt, chain_run-AreFast (sb ++ write_rune r) true ts cs h)
chain_run-AreFast sb opened (zero_or_more ∷ ts) cs h =
    let (ds, e, _) = >>=-eq-some (chain_run [] false ts) _ h in
    (tt, chain_run-AreFast [] false ts ds e)
chain_run-AreFast sb opened (any ∷ ts) cs h = cc h
chain_run-AreFast sb opened (recursive_prefix ∷ ts) cs h = cc h
chain_run-AreFast sb opened (recursive_suffix ∷ ts) cs h = cc h
chain_run-AreFast sb opened (recursive_zero_or_more ∷ ts) cs h = cc h
chain_run-AreFast sb opened (class n rs ∷ ts) cs h = cc h
chain_run-AreFast sb opened (alternates bs ∷ ts) cs h = cc h

-- A `**/` before fast tokens.
basename_tokens-AreFast :
    (ts rest : List Token) → basename_tokens ts ≡ some rest → AreFast rest → AreFast ts
unfolding basename_tokens
basename_tokens-AreFast (recursive_prefix ∷ t ∷ ts) rest h f =
    elim (Bool-cases (within_basename (t ∷ ts))) [
      | inl e ↦ (tt, subst AreFast (sym (of_some (rw e at h))) f)
      | inr e ↦ absurd (let k : none ≡ some rest = (rw e at h) in cc k)
    ]
basename_tokens-AreFast [] rest h f = cc
basename_tokens-AreFast (recursive_prefix ∷ []) rest h f = cc h
basename_tokens-AreFast (literal r ∷ ts) rest h f = cc h
basename_tokens-AreFast (any ∷ ts) rest h f = cc h
basename_tokens-AreFast (zero_or_more ∷ ts) rest h f = cc h
basename_tokens-AreFast (recursive_suffix ∷ ts) rest h f = cc h
basename_tokens-AreFast (recursive_zero_or_more ∷ ts) rest h f = cc h
basename_tokens-AreFast (class n rs ∷ ts) rest h f = cc h
basename_tokens-AreFast (alternates bs ∷ ts) rest h f = cc h

module _ (ts : List Token) where
  pub basename_literal_of-AreFast : (b : Bytes) → basename_literal_of ts ≡ some b → AreFast ts
  unfolding basename_literal_of
  basename_literal_of-AreFast b h =
      let (rest, e, h') = >>=-eq-some (basename_tokens ts) _ h in
      basename_tokens-AreFast ts rest e (literal_run-AreFast rest b h')

  pub literal_of-AreFast : (b : Bytes) → literal_of ts ≡ some b → AreFast ts
  unfolding literal_of
  literal_of-AreFast b h =
      let (b', e, _) = >>=-eq-some (literal_run ts) _ h in literal_run-AreFast ts b' e

  pub ext_of_tokens-AreFast : (b : Bytes) → ext_of_tokens ts ≡ some b → AreFast ts
  ext_of_tokens-AreFast b h =
      let (tail, b', e, r, _) = ext_of_tokens-some ts b h in
      subst AreFast (sym e) (tt, (tt, (tt, ext_run-AreFast tail b' r)))

  pub suffix_of_tokens-AreFast : (b : Bytes) → suffix_of_tokens ts ≡ some b → AreFast ts
  suffix_of_tokens-AreFast b h =
      let (tail, e, r) = suffix_of_tokens-some ts b h in
      subst AreFast (sym e) (tt, (tt, no_slash_run-AreFast tail b r))

  pub prefix_of_tokens-AreFast : (b : Bytes) → prefix_of_tokens ts ≡ some b → AreFast ts
  unfolding prefix_of_tokens
  prefix_of_tokens-AreFast b h =
      let (rest, e, h') = >>=-eq-some (basename_tokens ts) _ h in
      let (b', e', _) = >>=-eq-some (run_then_star rest) _ h' in
      basename_tokens-AreFast ts rest e (run_then_star-AreFast rest b' e')

  pub contains_of_tokens-AreFast : (b : Bytes) → contains_of_tokens ts ≡ some b → AreFast ts
  unfolding contains_of_tokens
  contains_of_tokens-AreFast b h =
      let (rest, e, h') = >>=-eq-some (basename_tokens ts) _ h in
      let (tail, e', h'') = >>=-eq-some (after_star rest) _ h' in
      let (b', e'', _) = >>=-eq-some (run_then_star tail) _ h'' in
      basename_tokens-AreFast ts rest e
        (subst AreFast (sym (after_star-some rest tail e')) (tt, run_then_star-AreFast tail b' e''))

  pub between_of_tokens-AreFast : (p : Bytes × Bytes) → between_of_tokens ts ≡ some p → AreFast ts
  unfolding between_of_tokens
  between_of_tokens-AreFast p h =
      let (rest, e, h') = >>=-eq-some (basename_tokens ts) _ h in
      let (q, e', _) = >>=-eq-some (split_star rest) _ h' in
      basename_tokens-AreFast ts rest e (split_star-AreFast rest q e')

  pub path_between_of_tokens-AreFast :
      (p : Bytes × Bytes) → path_between_of_tokens ts ≡ some p → AreFast ts
  unfolding path_between_of_tokens
  path_between_of_tokens-AreFast p h = split_star-AreFast ts p h

  pub chain_of_tokens-AreFast :
      (x : List Bytes × Bool × Bool) → chain_of_tokens ts ≡ some x → AreFast ts
  unfolding chain_of_tokens
  chain_of_tokens-AreFast x h =
      let (rest, e, h') = >>=-eq-some (basename_tokens ts) _ h in
      let (cs, e', _) = >>=-eq-some (chain_run [] false rest) _ h' in
      basename_tokens-AreFast ts rest e (chain_run-AreFast [] false rest cs e')

pub suffix_path_of_tokens-AreFast :
    (ts : List Token) (b : Bytes) → suffix_path_of_tokens ts ≡ some b → AreFast ts
unfolding suffix_path_of_tokens
suffix_path_of_tokens-AreFast (recursive_prefix ∷ t ∷ ts) b h =
    let (b', e, _) = >>=-eq-some (literal_run (t ∷ ts)) _ h in
    (tt, literal_run-AreFast (t ∷ ts) b' e)
suffix_path_of_tokens-AreFast [] b h = cc
suffix_path_of_tokens-AreFast (recursive_prefix ∷ []) b h = cc h
suffix_path_of_tokens-AreFast (literal r ∷ ts) b h = cc h
suffix_path_of_tokens-AreFast (any ∷ ts) b h = cc h
suffix_path_of_tokens-AreFast (zero_or_more ∷ ts) b h = cc h
suffix_path_of_tokens-AreFast (recursive_suffix ∷ ts) b h = cc h
suffix_path_of_tokens-AreFast (recursive_zero_or_more ∷ ts) b h = cc h
suffix_path_of_tokens-AreFast (class n rs ∷ ts) b h = cc h
suffix_path_of_tokens-AreFast (alternates bs ∷ ts) b h = cc h
