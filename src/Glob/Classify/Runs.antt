-- ===== src/Glob/Classify/Runs.antt =====
-- glob/classify.go: what the runs of tokens that the classes look for match.
use gripgrep.Base.{
  ◌≡◌, refl, sym, ap, ◌∙◌, subst, ◌↔◌, inl, inr, true, none, some, List, [], ◌∷◌, ◌++◌, append-nil,
  append_assoc, arith, ◌==◌, Bool-cases, >>=-eq-some, Bytes, length, of_some,
}
use gripgrep.Base.Find.{Free-append, Free, Free-append_left, has_suffix, has_suffix_iff}
use gripgrep.Glob.Token.{
  Token, literal, any, zero_or_more, recursive_prefix, recursive_suffix, recursive_zero_or_more,
  class, alternates, slash, newline, write_rune, TokenWord, Words, EncodedMatches,
}
use gripgrep.Glob.Token.Words.{write_rune-Free, literal_run-Words, within_basename-Words}
use gripgrep.Glob.Path.{Splits}
use gripgrep.Glob.Classify.{
  ext_run, literal_run, non_empty, no_slash_run, within_basename, basename_tokens, run_then_star,
  split_star,
}

pub non_empty-some : (b c : Bytes) → non_empty b ≡ some c → b ≡ c
non_empty-some b c h = elim (Bool-cases (length b == 0)) [
  | inl e ↦ absurd (ground arith)
  | inr e ↦ of_some (rw e at h)
]

-- Two paths to `true` and to a word's shape.
pub iff_trans : {P Q R : Type 0} → P ↔ Q → Q ↔ R → P ↔ R
iff_trans (f, g) (f', g') = ((λ p. f' (f p)), (λ r. g (g' r)))

pub iff_sym : {P Q : Type 0} → P ↔ Q → Q ↔ P
iff_sym (f, g) = (g, f)

-- The tokens after `**/`, and what they match.
pub basename_tokens-Words :
    (ts rest : List Token) (path dir base : Bytes)
    → basename_tokens ts ≡ some rest
    → Splits path dir base
    → Free newline dir
    → EncodedMatches ts path ↔ Words rest base
unfolding basename_tokens
basename_tokens-Words (recursive_prefix ∷ t ∷ ts) rest path dir base h s f =
    elim (Bool-cases (within_basename (t ∷ ts))) [
      | inl e ↦
          subst (λ z. EncodedMatches (recursive_prefix ∷ t ∷ ts) path ↔ Words z base)
            (of_some (rw e at h)) (within_basename-Words t ts path dir base e s f)
      | inr e ↦ let q : none ≡ some rest = (rw e at h) in ground arith
    ]
basename_tokens-Words [] rest path dir base h s f = ground arith
basename_tokens-Words (literal r ∷ ts) rest path dir base h s f = ground arith
basename_tokens-Words (any ∷ ts) rest path dir base h s f = ground arith
basename_tokens-Words (zero_or_more ∷ ts) rest path dir base h s f = ground arith
basename_tokens-Words (recursive_prefix ∷ []) rest path dir base h s f = ground arith
basename_tokens-Words (recursive_suffix ∷ ts) rest path dir base h s f = ground arith
basename_tokens-Words (recursive_zero_or_more ∷ ts) rest path dir base h s f = ground arith
basename_tokens-Words (class n rs ∷ ts) rest path dir base h s f = ground arith
basename_tokens-Words (alternates bs ∷ ts) rest path dir base h s f = ground arith

pub no_slash_run-literal_run :
    (ts : List Token) (b : Bytes)
    → no_slash_run ts ≡ some b
    → (literal_run ts ≡ some b) × (within_basename ts ≡ true)
unfolding no_slash_run literal_run within_basename
no_slash_run-literal_run [] b h = (h, refl)
no_slash_run-literal_run (literal r ∷ ts) b h = elim (Bool-cases (r == slash)) [
  | inl e ↦ let q : none ≡ some b = (rw e at h) in ground arith
  | inr e ↦
      let (b', e', h') = >>=-eq-some (no_slash_run ts) _ (rw e at h) in
      let (l, w) = no_slash_run-literal_run ts b' e' in (rw l h', rw e w)
]
no_slash_run-literal_run (any ∷ ts) b h = cc
no_slash_run-literal_run (zero_or_more ∷ ts) b h = cc
no_slash_run-literal_run (recursive_prefix ∷ ts) b h = cc
no_slash_run-literal_run (recursive_suffix ∷ ts) b h = cc
no_slash_run-literal_run (recursive_zero_or_more ∷ ts) b h = cc
no_slash_run-literal_run (class n rs ∷ ts) b h = cc
no_slash_run-literal_run (alternates bs ∷ ts) b h = cc

pub ext_run-no_slash_run :
    (ts : List Token) (b : Bytes) → ext_run ts ≡ some b → (no_slash_run ts ≡ some b) × Free b'.' b
unfolding ext_run no_slash_run
ext_run-no_slash_run [] b h = (h, subst (λ z. Free b'.' z) (of_some h) tt)
ext_run-no_slash_run (literal r ∷ ts) b h = elim (Bool-cases (r == b'.')) [
  | inl e ↦ let q : none ≡ some b = (rw e at h) in ground arith
  | inr e ↦ elim (Bool-cases (r == slash)) [
    | inl d ↦ let q : none ≡ some b = (simp (e, d) at h) in ground arith
    | inr d ↦
        let (b', e', h') = >>=-eq-some (ext_run ts) _ (simp (e, d) at h) in
        let (l, k) = ext_run-no_slash_run ts b' e' in
        (
          simp (d, l, h'),
          subst (λ z. Free b'.' z) (of_some h')
              (Free-append b'.' (write_rune r) b'
                (write_rune-Free b'.' r (omega arith) (λ q. ground arith)) k),
        )
  ]
]
ext_run-no_slash_run (any ∷ ts) b h = cc
ext_run-no_slash_run (zero_or_more ∷ ts) b h = cc
ext_run-no_slash_run (recursive_prefix ∷ ts) b h = cc
ext_run-no_slash_run (recursive_suffix ∷ ts) b h = cc
ext_run-no_slash_run (recursive_zero_or_more ∷ ts) b h = cc
ext_run-no_slash_run (class n rs ∷ ts) b h = cc
ext_run-no_slash_run (alternates bs ∷ ts) b h = cc

-- `*` and literals match a component that ends in them.
pub star_run-Words :
    (ts : List Token) (b base : Bytes)
    → literal_run ts ≡ some b
    → Free slash base
    → Words (zero_or_more ∷ ts) base ↔ (has_suffix base b ≡ true)
unfolding TokenWord
star_run-Words ts b base h f = (
  (λ (u, v, e, p, c).
      (has_suffix_iff base b).1 (u, e ∙ ap (λ z. u ++ z) ((literal_run-Words ts b v h).0 c))),
  (λ k.
      let (u, e) = (has_suffix_iff base b).0 k in
      (
        u,
        b,
        e,
        Free-append_left slash u b (subst (λ z. Free slash z) e f),
        (literal_run-Words ts b b h).1 refl,
      )),
)

-- Literals and `*` match a component that starts with them.
pub run_then_star-Words :
    (ts : List Token) (b w : Bytes)
    → run_then_star ts ≡ some b
    → Words ts w ↔ ((v : Bytes) × (w ≡ b ++ v) × Free slash v)
unfolding run_then_star TokenWord
run_then_star-Words [] b w h = cc
run_then_star-Words (zero_or_more ∷ []) b w h =
    let q : [] ≡ b = of_some h in
    (
      (λ (u, v, e, p, c). (u, e ∙ (ap (λ z. u ++ z) c ∙ (append-nil u ∙ ap (λ z. z ++ u) q)), p)),
      (λ (v, e, p). (v, [], e ∙ (ap (λ z. z ++ v) (sym q) ∙ sym (append-nil v)), p, refl)),
    )
run_then_star-Words (zero_or_more ∷ t ∷ ts) b w h = ground arith
run_then_star-Words (literal r ∷ ts) b w h =
    let (b', e, h') = >>=-eq-some (run_then_star ts) _ h in
    let q : write_rune r ++ b' ≡ b = of_some h' in
    (
      (λ (u, v, d, p, c).
          let (x, dx, fx) = (run_then_star-Words ts b' v e).0 c in
          (
            x,
            d
                ∙ (ap (λ z. z ++ v) p
                    ∙ (ap (λ z. write_rune r ++ z) dx
                        ∙ (sym (append_assoc (write_rune r) b' x) ∙ ap (λ z. z ++ x) q))),
            fx,
          )),
      (λ (x, d, fx). (
        write_rune r,
        b' ++ x,
        d ∙ (ap (λ z. z ++ x) (sym q) ∙ append_assoc (write_rune r) b' x),
        refl,
        (run_then_star-Words ts b' (b' ++ x) e).1 (x, refl, fx),
      )),
    )
run_then_star-Words (any ∷ ts) b w h = cc
run_then_star-Words (recursive_prefix ∷ ts) b w h = cc
run_then_star-Words (recursive_suffix ∷ ts) b w h = cc
run_then_star-Words (recursive_zero_or_more ∷ ts) b w h = cc
run_then_star-Words (class n rs ∷ ts) b w h = cc
run_then_star-Words (alternates bs ∷ ts) b w h = cc

-- The shape of a component between two literals.
abbrev pub Around : Bytes → Bytes → Bytes → Type 0
Around pre suf w = (m : Bytes) × (w ≡ pre ++ (m ++ suf)) × Free slash m

pub split_star-Words :
    (ts : List Token) (pre suf w : Bytes)
    → split_star ts ≡ some (pre, suf)
    → Words ts w ↔ Around pre suf w
unfolding split_star TokenWord
split_star-Words [] pre suf w h = cc
split_star-Words (zero_or_more ∷ ts) pre suf w h =
    let (s, e, h') = >>=-eq-some (literal_run ts) _ h in
    let q : ([], s) ≡ (pre, suf) = of_some h' in
    let p0 : [] ≡ pre = ap (λ z. z.0) q in
    let p1 : s ≡ suf = ap (λ z. z.1) q in
    (
      (λ (u, v, d, p, c). (
        u,
        d
            ∙ (ap (λ z. u ++ z) ((literal_run-Words ts s v e).0 c ∙ p1)
                ∙ ap (λ z. z ++ (u ++ suf)) p0),
        p,
      )),
      (λ (m, d, p). (
        m,
        suf,
        d ∙ ap (λ z. z ++ (m ++ suf)) (sym p0),
        p,
        (literal_run-Words ts s suf e).1 (sym p1),
      )),
    )
split_star-Words (literal r ∷ ts) pre suf w h =
    let (ps, e, h') = >>=-eq-some (split_star ts) _ h in
    let q : (write_rune r ++ ps.0, ps.1) ≡ (pre, suf) = of_some h' in
    let p0 : write_rune r ++ ps.0 ≡ pre = ap (λ z. z.0) q in
    let p1 : ps.1 ≡ suf = ap (λ z. z.1) q in
    (
      (λ (u, v, d, p, c).
          let (m, dm, fm) = (split_star-Words ts ps.0 ps.1 v e).0 c in
          (
            m,
            d
                ∙ (ap (λ z. z ++ v) p
                    ∙ (ap (λ z. write_rune r ++ z) (dm ∙ ap (λ z. ps.0 ++ (m ++ z)) p1)
                        ∙ (sym (append_assoc (write_rune r) ps.0 (m ++ suf))
                            ∙ ap (λ z. z ++ (m ++ suf)) p0))),
            fm,
          )),
      (λ (m, d, fm). (
        write_rune r,
        ps.0 ++ (m ++ suf),
        d ∙ (ap (λ z. z ++ (m ++ suf)) (sym p0) ∙ append_assoc (write_rune r) ps.0 (m ++ suf)),
        refl,
        (split_star-Words ts ps.0 ps.1 (ps.0 ++ (m ++ suf)) e).1
            (m, ap (λ z. ps.0 ++ (m ++ z)) (sym p1), fm),
      )),
    )
split_star-Words (any ∷ ts) pre suf w h = cc
split_star-Words (recursive_prefix ∷ ts) pre suf w h = cc
split_star-Words (recursive_suffix ∷ ts) pre suf w h = cc
split_star-Words (recursive_zero_or_more ∷ ts) pre suf w h = cc
split_star-Words (class n rs ∷ ts) pre suf w h = cc
split_star-Words (alternates bs ∷ ts) pre suf w h = cc
