-- ===== src/Glob/Token/Words.antt =====
-- glob/token.go: words of tokens that stay within a path component, and of `**/` before them.
use gripgrep.Base.{
  ℕ, ◌<◌, ◌≡◌, refl, sym, ap, ◌∙◌, subst, ◌≢◌, ◌↔◌, inl, inr, true, ◌&&◌, Option, none, some, List,
  [], ◌∷◌, ◌++◌, arith, leb, ◌==◌, Bool-cases, Option-cases, >>=-eq-some, Bytes, of_some,
}
use gripgrep.Base.Find.{Free, Free-append, Free-append_left}
use gripgrep.Match.Regexp.{encode_rune}
use gripgrep.Glob.Token.{
  Token, literal, any, zero_or_more, recursive_prefix, recursive_suffix, recursive_zero_or_more,
  class, alternates, slash, newline, write_rune, TokenWord, Words, EncodedMatches,
}
use gripgrep.Glob.Path.{Splits, Splits-unique}
use gripgrep.Glob.Classify.{literal_run, within_basename}

abbrev SomeFree : ℕ → Option Bytes → Type 0
SomeFree c none = Unit
SomeFree c (some b) = Free c b

-- A byte below 0x80 stands in the encoding of its own rune only.
encode_rune-SomeFree : (c r : ℕ) → c < 0x80 → r ≢ c → SomeFree c (encode_rune r)
unfolding encode_rune
encode_rune-SomeFree c r k n = elim (Bool-cases (leb r 0x7F)) [
  | inl e ↦ rw e (n, tt)
  | inr e1 ↦ elim (Bool-cases (leb r 0x7FF)) [
    | inl e ↦ simp (e1, e) ((λ q. omega arith), ((λ q. omega arith), tt))
    | inr e2 ↦ elim (Bool-cases (leb 0xD800 r && leb r 0xDFFF)) [
      | inl e ↦ simp (e1, e2, e) tt
      | inr e3 ↦ elim (Bool-cases (leb r 0xFFFF)) [
        | inl e ↦
            simp (e1, e2, e3, e)
              ((λ q. omega arith), ((λ q. omega arith), ((λ q. omega arith), tt)))
        | inr e4 ↦ elim (Bool-cases (leb r 0x10FFFF)) [
          | inl e ↦
              simp (e1, e2, e3, e4, e)
                (
                  (λ q. omega arith),
                  ((λ q. omega arith), ((λ q. omega arith), ((λ q. omega arith), tt))),
                )
          | inr e ↦ simp (e1, e2, e3, e4, e) tt
        ]
      ]
    ]
  ]
]

encode_rune-Free : (c r : ℕ) (w : Bytes) → c < 0x80 → r ≢ c → encode_rune r ≡ some w → Free c w
encode_rune-Free c r w k n h = subst (SomeFree c) h (encode_rune-SomeFree c r k n)

pub write_rune-Free : (c r : ℕ) → c < 0x80 → r ≢ c → Free c (write_rune r)
unfolding write_rune
write_rune-Free c r k n = elim (Option-cases (encode_rune r)) [
  | inl e ↦
      let q : write_rune r ≡ 0xEF ∷ 0xBF ∷ 0xBD ∷ [] = rw (e, write_rune) refl in
      subst (λ z. Free c z) (sym q)
        ((λ q. omega arith), ((λ q. omega arith), ((λ q. omega arith), tt)))
  | inr (b, e) ↦
      let q : write_rune r ≡ b = rw (e, write_rune) refl in
      subst (λ z. Free c z) (sym q) (encode_rune-Free c r b k n e)
]

-- A run of literals matches what it writes.
pub literal_run-Words :
    (ts : List Token) (b w : Bytes) → literal_run ts ≡ some b → Words ts w ↔ (w ≡ b)
unfolding literal_run TokenWord
literal_run-Words [] b w h = ((λ e. e ∙ of_some h), (λ e. e ∙ sym (of_some h)))
literal_run-Words (literal r ∷ ts) b w h =
    let (b', e, h') = >>=-eq-some (literal_run ts) _ h in
    let q : write_rune r ++ b' ≡ b = of_some h' in
    (
      (λ (u, v, d, p, c).
          d
          ∙ (ap (λ z. z ++ v) p
              ∙ (ap (λ z. write_rune r ++ z) ((literal_run-Words ts b' v e).0 c) ∙ q))),
      (λ d. (write_rune r, b', d ∙ sym q, refl, (literal_run-Words ts b' b' e).1 refl)),
    )
literal_run-Words (any ∷ ts) b w h = cc
literal_run-Words (zero_or_more ∷ ts) b w h = cc
literal_run-Words (recursive_prefix ∷ ts) b w h = cc
literal_run-Words (recursive_suffix ∷ ts) b w h = cc
literal_run-Words (recursive_zero_or_more ∷ ts) b w h = cc
literal_run-Words (class n rs ∷ ts) b w h = cc
literal_run-Words (alternates bs ∷ ts) b w h = cc

within_basename-Free :
    (ts : List Token) (w : Bytes) → within_basename ts ≡ true → Words ts w → Free slash w
unfolding within_basename TokenWord
within_basename-Free [] w h c = subst (λ z. Free slash z) (sym c) tt
within_basename-Free (literal r ∷ ts) w h (u, v, e, p, q) = elim (Bool-cases (r == slash)) [
  | inl s ↦ absurd (ground arith)
  | inr s ↦
      subst (λ z. Free slash z) (sym e)
        (Free-append slash u v
          (subst (λ z. Free slash z) (sym p)
            (write_rune-Free slash r (omega arith) (λ k. ground arith)))
          (within_basename-Free ts v (ground arith) q))
]
within_basename-Free (any ∷ ts) w h (u, v, e, (r, p, n), q) =
    subst (λ z. Free slash z) (sym e)
      (Free-append slash u v (encode_rune-Free slash r u (omega arith) n p)
        (within_basename-Free ts v h q))
within_basename-Free (zero_or_more ∷ ts) w h (u, v, e, p, q) =
    subst (λ z. Free slash z) (sym e) (Free-append slash u v p (within_basename-Free ts v h q))
within_basename-Free (recursive_prefix ∷ ts) w h c = ground arith
within_basename-Free (recursive_suffix ∷ ts) w h c = ground arith
within_basename-Free (recursive_zero_or_more ∷ ts) w h c = ground arith
within_basename-Free (class n rs ∷ ts) w h c = ground arith
within_basename-Free (alternates bs ∷ ts) w h c = ground arith

-- `**/` before tokens that stay within a component: they match the last component of the path, where
-- no newline stands before it.
pub within_basename-Words :
    (t : Token) (ts : List Token) (path dir base : Bytes)
    → within_basename (t ∷ ts) ≡ true
    → Splits path dir base
    → Free newline dir
    → EncodedMatches (recursive_prefix ∷ t ∷ ts) path ↔ Words (t ∷ ts) base
unfolding TokenWord
within_basename-Words t ts path dir base h s f = (onto, back)
  where
    onto : EncodedMatches (recursive_prefix ∷ t ∷ ts) path → Words (t ∷ ts) base
    onto (u, v, e, p, q) =
        subst (λ z. Words (t ∷ ts) z)
          (Splits-unique path u v dir base
            (record {
              whole = e;
              no_slash = within_basename-Free (t ∷ ts) v h q;
              dir_ends = elim p [ inl z ↦ inl z | inr (x, z, _) ↦ inr (x, z) ];
            })
            s)
          q

    back : Words (t ∷ ts) base → EncodedMatches (recursive_prefix ∷ t ∷ ts) path
    back q = (
      dir,
      base,
      s.whole,
      elim s.dir_ends [
        | inl z ↦ inl z
        | inr (d, z) ↦
            inr (d, z, Free-append_left newline d (slash ∷ []) (subst (λ y. Free newline y) z f))
      ],
      q,
    )
