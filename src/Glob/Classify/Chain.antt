-- ===== src/Glob/Classify/Chain.antt =====
-- glob/classify.go: chains of literals with `*` between them.
use gripgrep.Base.{
  ℕ, ◌≡◌, refl, sym, ap, ◌∙◌, subst, ◌≢◌, ◌↔◌, Bool, true, false, some, List, [], ◌∷◌, ◌++◌,
  append-nil, append_assoc, arith, >>=-eq-some, Bytes, of_some,
}
use gripgrep.Base.Find.{Free, Free-append, Free-append_left, Free-append_right}
use gripgrep.Glob.Token.{
  Token, literal, any, zero_or_more, recursive_prefix, recursive_suffix, recursive_zero_or_more,
  class, alternates, slash, newline, write_rune, TokenWord, Words, EncodedMatches,
}
use gripgrep.Glob.Path.{Splits, basename_lem}
use gripgrep.Glob.Classify.{
  kind_chain, basename_tokens, chain_run, starts_fixed, ends_fixed, some_chunks, chain_of_tokens,
}
use gripgrep.Glob.Classify.Runs.{basename_tokens-Words, iff_trans, iff_sym}
use gripgrep.Glob.Class.{chain_matches, class_matches}
use gripgrep.Glob.Classify.Greedy.{Spread, Fixed, chain_matches-Spread, chain_matches-Fixed}

ends_fixed-literal : (r : ℕ) (ts : List Token) → ends_fixed (literal r ∷ ts) ≡ ends_fixed ts
unfolding ends_fixed
ends_fixed-literal r [] = refl
ends_fixed-literal r (t ∷ ts) = refl

-- The chunks of tokens after an open run: the run goes on by `more`.
abbrev Open : Bytes → List Token → List Bytes → Type 0
Open sb ts chunks =
    (more : Bytes) × (cs : List Bytes) × (chunks ≡ (sb ++ more) ∷ cs)
    × ((w : Bytes)
        → Free slash w
        → Words ts w ↔ ((v : Bytes) × (w ≡ more ++ v) × Spread (ends_fixed ts) cs v))

abbrev Gap : List Token → List Bytes → Type 0
Gap ts chunks =
    (w : Bytes)
    → Free slash w
    → Words (zero_or_more ∷ ts) w ↔ Spread (ends_fixed (zero_or_more ∷ ts)) chunks w

literal-Open :
    (sb : Bytes) (r : ℕ) (ts : List Token) (chunks : List Bytes)
    → Open (sb ++ write_rune r) ts chunks
    → Open sb (literal r ∷ ts) chunks
unfolding TokenWord
literal-Open sb r ts chunks (more, cs, e, f) = (
  write_rune r ++ more,
  cs,
  e ∙ ap (λ z. z ∷ cs) (append_assoc sb (write_rune r) more),
  (λ w fw. (
    (λ (u, v, d, p, c).
        let d' : w ≡ write_rune r ++ v = d ∙ ap (λ z. z ++ v) p in
        let fv = Free-append_right slash (write_rune r) v (subst (λ z. Free slash z) d' fw) in
        let (x, dx, s) = (f v fv).0 c in
        (
          x,
          d' ∙ (ap (λ z. write_rune r ++ z) dx ∙ sym (append_assoc (write_rune r) more x)),
          subst (λ z. Spread z cs x) (sym (ends_fixed-literal r ts)) s,
        )),
    (λ (x, d, s).
        let d' : w ≡ write_rune r ++ (more ++ x) = d ∙ append_assoc (write_rune r) more x in
        let fv =
          Free-append_right slash (write_rune r) (more ++ x) (subst (λ z. Free slash z) d' fw) in
        (
          write_rune r,
          more ++ x,
          d',
          refl,
          (f (more ++ x) fv).1 (x, refl, subst (λ z. Spread z cs x) (ends_fixed-literal r ts) s),
        )),
  )),
)

literal-Gap :
    (r : ℕ) (ts : List Token) (chunks : List Bytes)
    → Open (write_rune r) ts chunks
    → Gap (literal r ∷ ts) chunks
unfolding TokenWord ends_fixed
literal-Gap r ts chunks (more, cs, e, f) w fw = (
  (λ (g, y, d, p, (u, v, d', q, c)).
      let dy : y ≡ write_rune r ++ v = d' ∙ ap (λ z. z ++ v) q in
      let dw : w ≡ g ++ (write_rune r ++ v) = d ∙ ap (λ z. g ++ z) dy in
      let (x, dx, s) = (f v (after g v dw)).0 c in
      subst (λ z. Spread (ends_fixed ts) z w) (sym e)
        (
          g,
          x,
          dw
              ∙ ap (λ z. g ++ z)
                  (ap (λ z. write_rune r ++ z) dx ∙ sym (append_assoc (write_rune r) more x)),
          s,
        )),
  (λ k.
      let (g, x, d, s) = subst (λ z. Spread (ends_fixed ts) z w) e k in
      let dw : w ≡ g ++ (write_rune r ++ (more ++ x)) =
        d ∙ ap (λ z. g ++ z) (append_assoc (write_rune r) more x) in
      (
        g,
        write_rune r ++ (more ++ x),
        dw,
        Free-append_left slash g (write_rune r ++ (more ++ x)) (subst (λ z. Free slash z) dw fw),
        (
          write_rune r,
          more ++ x,
          refl,
          refl,
          (f (more ++ x) (after g (more ++ x) dw)).1 (x, refl, s),
        ),
      )),
)
  where
    after : (g v : Bytes) → w ≡ g ++ (write_rune r ++ v) → Free slash v
    after g v d =
        Free-append_right slash (write_rune r) v
          (Free-append_right slash g (write_rune r ++ v) (subst (λ z. Free slash z) d fw))

nothing-Gap : Gap [] []
unfolding TokenWord ends_fixed
nothing-Gap w fw = ((λ c q. absurd (ground arith)), (λ c. (w, [], sym (append-nil w), fw, refl)))

star-Gap : (ts : List Token) (chunks : List Bytes) → Gap ts chunks → Gap (zero_or_more ∷ ts) chunks
unfolding TokenWord ends_fixed
star-Gap ts chunks f w fw = (
  (λ (u, v, d, p, (u', v', d', p', c)). (f w fw).0 (
    u ++ u',
    v',
    d ∙ (ap (λ z. u ++ z) d' ∙ sym (append_assoc u u' v')),
    Free-append slash u u' p p',
    c,
  )),
  (λ s. ([], w, refl, tt, (f w fw).1 s)),
)

nothing-Open : (sb : Bytes) (chunks : List Bytes) → some (sb ∷ []) ≡ some chunks → Open sb [] chunks
unfolding ends_fixed
nothing-Open sb chunks h = (
  [],
  [],
  sym (of_some h) ∙ ap (λ z. z ∷ []) (sym (append-nil sb)),
  (λ w fw. ((λ c. (w, refl, (λ _. c))), (λ (v, e, s). e ∙ s refl))),
)

star-Open :
    (sb : Bytes) (ts : List Token) (chunks chunks' : List Bytes)
    → Gap ts chunks'
    → sb ∷ chunks' ≡ chunks
    → Open sb (zero_or_more ∷ ts) chunks
star-Open sb ts chunks chunks' f h = (
  [],
  chunks',
  sym h ∙ ap (λ z. z ∷ chunks') (sym (append-nil sb)),
  (λ w fw. (
    (λ c. (w, refl, (f w fw).0 c)),
    (λ (v, e, s).
        (f w fw).1 (subst (λ z. Spread (ends_fixed (zero_or_more ∷ ts)) chunks' z) (sym e) s)),
  )),
)

mutual
  unfolding chain_run

  chain_run-Open :
      (ts : List Token) (sb : Bytes) (chunks : List Bytes)
      → chain_run sb true ts ≡ some chunks
      → Open sb ts chunks
  chain_run-Open [] sb chunks h = nothing-Open sb chunks h
  chain_run-Open (literal r ∷ ts) sb chunks h =
      literal-Open sb r ts chunks (chain_run-Open ts (sb ++ write_rune r) chunks h)
  chain_run-Open (zero_or_more ∷ ts) sb chunks h =
      let (chunks', e, h') = >>=-eq-some (chain_run [] false ts) _ h in
      star-Open sb ts chunks chunks' (chain_run-Gap ts chunks' e) (of_some h')
  chain_run-Open (any ∷ ts) sb chunks h = cc
  chain_run-Open (recursive_prefix ∷ ts) sb chunks h = cc
  chain_run-Open (recursive_suffix ∷ ts) sb chunks h = cc
  chain_run-Open (recursive_zero_or_more ∷ ts) sb chunks h = cc
  chain_run-Open (class n rs ∷ ts) sb chunks h = cc
  chain_run-Open (alternates bs ∷ ts) sb chunks h = cc

  chain_run-Gap :
      (ts : List Token) (chunks : List Bytes) → chain_run [] false ts ≡ some chunks → Gap ts chunks
  chain_run-Gap [] chunks h = subst (λ z. Gap [] z) (of_some h) nothing-Gap
  chain_run-Gap (literal r ∷ ts) chunks h =
      literal-Gap r ts chunks (chain_run-Open ts (write_rune r) chunks h)
  chain_run-Gap (zero_or_more ∷ ts) chunks h =
      let (chunks', e, h') = >>=-eq-some (chain_run [] false ts) _ h in
      star-Gap ts chunks (subst (λ z. Gap ts z) (of_some h') (chain_run-Gap ts chunks' e))
  chain_run-Gap (any ∷ ts) chunks h = cc
  chain_run-Gap (recursive_prefix ∷ ts) chunks h = cc
  chain_run-Gap (recursive_suffix ∷ ts) chunks h = cc
  chain_run-Gap (recursive_zero_or_more ∷ ts) chunks h = cc
  chain_run-Gap (class n rs ∷ ts) chunks h = cc
  chain_run-Gap (alternates bs ∷ ts) chunks h = cc

Open-Fixed :
    (ts : List Token) (c : Bytes) (cs : List Bytes) (w : Bytes)
    → Open [] ts (c ∷ cs)
    → Free slash w
    → Words ts w ↔ Fixed (ends_fixed ts) (c ∷ cs) w
Open-Fixed ts c cs w (more, ds, e, f) fw =
    subst (λ z. Words ts w ↔ Fixed (ends_fixed ts) z w) (sym e) (f w fw)

-- A chain within a component, by its first token.
chain_run-Words :
    (ts : List Token) (c : Bytes) (cs : List Bytes) (w : Bytes)
    → chain_run [] false ts ≡ some (c ∷ cs)
    → Free slash w
    → (chain_matches w (c ∷ cs) (starts_fixed ts) (ends_fixed ts) ≡ true) ↔ Words ts w
unfolding chain_run
chain_run-Words [] c cs w h fw = ground arith
chain_run-Words (literal r ∷ ts) c cs w h fw =
    let o = literal-Open [] r ts (c ∷ cs) (chain_run-Open ts (write_rune r) (c ∷ cs) h) in
    iff_trans (chain_matches-Fixed c cs (ends_fixed (literal r ∷ ts)) w)
      (iff_sym (Open-Fixed (literal r ∷ ts) c cs w o fw))
chain_run-Words (zero_or_more ∷ ts) c cs w h fw =
    let (chunks', e, h') = >>=-eq-some (chain_run [] false ts) _ h in
    let g : Gap ts (c ∷ cs) = subst (λ z. Gap ts z) (of_some h') (chain_run-Gap ts chunks' e) in
    iff_trans (chain_matches-Spread c cs (ends_fixed (zero_or_more ∷ ts)) w) (iff_sym (g w fw))
chain_run-Words (any ∷ ts) c cs w h fw = ground arith
chain_run-Words (recursive_prefix ∷ ts) c cs w h fw = ground arith
chain_run-Words (recursive_suffix ∷ ts) c cs w h fw = ground arith
chain_run-Words (recursive_zero_or_more ∷ ts) c cs w h fw = ground arith
chain_run-Words (class n rs ∷ ts) c cs w h fw = ground arith
chain_run-Words (alternates bs ∷ ts) c cs w h fw = ground arith

some_chunks-some :
    (chunks out : List Bytes)
    → some_chunks chunks ≡ some out
    → (c : Bytes) × (cs : List Bytes) × (chunks ≡ c ∷ cs) × (out ≡ c ∷ cs)
some_chunks-some [] out h = cc
some_chunks-some (c ∷ cs) out h = (c, cs, refl, sym (of_some h))

pub chain_of_tokens-EncodedMatches :
    (ts : List Token) (chunks : List Bytes) (as_ ae : Bool) (path dir base : Bytes)
    → Splits path dir base
    → Free newline dir
    → base ≢ b'.' ∷ b'.' ∷ []
    → chain_of_tokens ts ≡ some (chunks, as_, ae)
    → (class_matches (kind_chain chunks as_ ae) path ≡ true) ↔ EncodedMatches ts path
unfolding chain_of_tokens class_matches
chain_of_tokens-EncodedMatches ts chunks as_ ae path dir base s f n h =
    let (rest, e, h1) = >>=-eq-some (basename_tokens ts) _ h in
    let (ran, e1, h2) = >>=-eq-some (chain_run [] false rest) _ h1 in
    let (out, e2, h3) = >>=-eq-some (some_chunks ran) _ h2 in
    let (c, cs, p, q) = some_chunks-some ran out e2 in
    let r : (out, starts_fixed rest, ends_fixed rest) ≡ (chunks, as_, ae) = of_some h3 in
    rw (basename_lem path dir base s n) (
      iff_trans
        (subst (λ z. (chain_matches base z.0 z.1 z.2 ≡ true) ↔ Words rest base)
          (ap (λ z. (z, starts_fixed rest, ends_fixed rest)) (sym q) ∙ r)
          (chain_run-Words rest c cs base (e1 ∙ ap (λ (z : List Bytes). some z) p) s.no_slash))
        (iff_sym (basename_tokens-Words ts rest path dir base e s f)))
