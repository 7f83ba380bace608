-- ===== src/Glob/Classify/Shapes.antt =====
-- glob/classify.go: the shapes of tokens that the classes with an extension or a suffix ask for.
use gripgrep.Base.{
  ◌≡◌, refl, ap, ◌∙◌, inl, inr, none, some, List, [], ◌∷◌, arith, ◌==◌, ==_iff, Bool-cases,
  >>=-eq-some, Bytes, of_some,
}
use gripgrep.Glob.Token.{
  Token, literal, any, zero_or_more, recursive_prefix, recursive_suffix, recursive_zero_or_more,
  class, alternates,
}
use gripgrep.Glob.Classify.{ext_run, ext_of_tokens, no_slash_run, suffix_of_tokens, after_star}
use gripgrep.Glob.Classify.Runs.{non_empty-some}

-- The shapes that the classes ask for.
pub after_star-some : (ts tail : List Token) → after_star ts ≡ some tail → ts ≡ zero_or_more ∷ tail
after_star-some [] tail h = cc
after_star-some (literal r ∷ ts) tail h = cc
after_star-some (any ∷ ts) tail h = cc
after_star-some (zero_or_more ∷ ts) tail h = ap (λ z. zero_or_more ∷ z) (of_some h)
after_star-some (recursive_prefix ∷ ts) tail h = cc
after_star-some (recursive_suffix ∷ ts) tail h = cc
after_star-some (recursive_zero_or_more ∷ ts) tail h = cc
after_star-some (class n rs ∷ ts) tail h = cc
after_star-some (alternates bs ∷ ts) tail h = cc

-- `**/` and `*` before literals
abbrev StarThen : (List Token → Type 0) → List Token → Type 0
StarThen P ts = (tail : List Token) × (ts ≡ recursive_prefix ∷ zero_or_more ∷ tail) × P tail

pub suffix_of_tokens-some :
    (ts : List Token) (suf : Bytes)
    → suffix_of_tokens ts ≡ some suf
    → StarThen (λ tail. no_slash_run tail ≡ some suf) ts
unfolding suffix_of_tokens
suffix_of_tokens-some [] suf h = cc
suffix_of_tokens-some (literal r ∷ ts) suf h = cc
suffix_of_tokens-some (any ∷ ts) suf h = cc
suffix_of_tokens-some (zero_or_more ∷ ts) suf h = cc
suffix_of_tokens-some (recursive_suffix ∷ ts) suf h = cc
suffix_of_tokens-some (recursive_zero_or_more ∷ ts) suf h = cc
suffix_of_tokens-some (class n rs ∷ ts) suf h = cc
suffix_of_tokens-some (alternates bs ∷ ts) suf h = cc
suffix_of_tokens-some (recursive_prefix ∷ []) suf h = cc
suffix_of_tokens-some (recursive_prefix ∷ literal r ∷ ts) suf h = cc
suffix_of_tokens-some (recursive_prefix ∷ any ∷ ts) suf h = cc
suffix_of_tokens-some (recursive_prefix ∷ recursive_prefix ∷ ts) suf h = cc
suffix_of_tokens-some (recursive_prefix ∷ recursive_suffix ∷ ts) suf h = cc
suffix_of_tokens-some (recursive_prefix ∷ recursive_zero_or_more ∷ ts) suf h = cc
suffix_of_tokens-some (recursive_prefix ∷ class n rs ∷ ts) suf h = cc
suffix_of_tokens-some (recursive_prefix ∷ alternates bs ∷ ts) suf h = cc
suffix_of_tokens-some (recursive_prefix ∷ zero_or_more ∷ []) suf h = cc
suffix_of_tokens-some (recursive_prefix ∷ zero_or_more ∷ t ∷ ts) suf h =
    let (b, e, h') = >>=-eq-some (no_slash_run (t ∷ ts)) _ h in
    (t ∷ ts, refl, e ∙ ap (λ (z : Bytes). some z) (non_empty-some b suf h'))

pub ext_of_tokens-some :
    (ts : List Token) (ext : Bytes)
    → ext_of_tokens ts ≡ some ext
    → (tail : List Token) × (b : Bytes) × (ts
        ≡ recursive_prefix ∷ zero_or_more ∷ literal b'.' ∷ tail)
      × (ext_run tail ≡ some b)
      × (b'.' ∷ b ≡ ext)
unfolding ext_of_tokens
ext_of_tokens-some [] ext h = cc
ext_of_tokens-some (literal r ∷ ts) ext h = cc
ext_of_tokens-some (any ∷ ts) ext h = cc
ext_of_tokens-some (zero_or_more ∷ ts) ext h = cc
ext_of_tokens-some (recursive_suffix ∷ ts) ext h = cc
ext_of_tokens-some (recursive_zero_or_more ∷ ts) ext h = cc
ext_of_tokens-some (class n rs ∷ ts) ext h = cc
ext_of_tokens-some (alternates bs ∷ ts) ext h = cc
ext_of_tokens-some (recursive_prefix ∷ []) ext h = cc
ext_of_tokens-some (recursive_prefix ∷ literal r ∷ ts) ext h = cc
ext_of_tokens-some (recursive_prefix ∷ any ∷ ts) ext h = cc
ext_of_tokens-some (recursive_prefix ∷ recursive_prefix ∷ ts) ext h = cc
ext_of_tokens-some (recursive_prefix ∷ recursive_suffix ∷ ts) ext h = cc
ext_of_tokens-some (recursive_prefix ∷ recursive_zero_or_more ∷ ts) ext h = cc
ext_of_tokens-some (recursive_prefix ∷ class n rs ∷ ts) ext h = cc
ext_of_tokens-some (recursive_prefix ∷ alternates bs ∷ ts) ext h = cc
ext_of_tokens-some (recursive_prefix ∷ zero_or_more ∷ []) ext h = cc
ext_of_tokens-some (recursive_prefix ∷ zero_or_more ∷ any ∷ ts) ext h = cc
ext_of_tokens-some (recursive_prefix ∷ zero_or_more ∷ zero_or_more ∷ ts) ext h = cc
ext_of_tokens-some (recursive_prefix ∷ zero_or_more ∷ recursive_prefix ∷ ts) ext h = cc
ext_of_tokens-some (recursive_prefix ∷ zero_or_more ∷ recursive_suffix ∷ ts) ext h = cc
ext_of_tokens-some (recursive_prefix ∷ zero_or_more ∷ recursive_zero_or_more ∷ ts) ext h = cc
ext_of_tokens-some (recursive_prefix ∷ zero_or_more ∷ class n rs ∷ ts) ext h = cc
ext_of_tokens-some (recursive_prefix ∷ zero_or_more ∷ alternates bs ∷ ts) ext h = cc
ext_of_tokens-some (recursive_prefix ∷ zero_or_more ∷ literal r ∷ ts) ext h =
    elim (Bool-cases (r == b'.')) [
      | inl e ↦
          let (b, e', h') = >>=-eq-some (ext_run ts) _ (rw e at h) in
          (
            ts,
            b,
            ap (λ z. recursive_prefix ∷ zero_or_more ∷ literal z ∷ ts) ((==_iff r b'.').0 e),
            e',
            of_some h',
          )
      | inr e ↦ let q : none ≡ some ext = (rw e at h) in ground arith
    ]
