-- ===== src/Glob/Classify/Within.antt =====
-- glob/classify.go: the classes that look at the last component of a path.
use gripgrep.Base.{
  ◌+◌, ◌≤◌, ◌≡◌, refl, sym, ap, ◌∙◌, subst, ◌≢◌, ◌↔◌, inl, inr, true, false, ◌||◌, none, some, List,
  [], ◌∷◌, ◌++◌, append_assoc, arith, leb, ◌==◌, Bool-cases, >>=-eq-some, Bytes, length,
  length-append, bytes_equal, bytes_equal_iff, of_some, bytes_equal_refl,
}
use gripgrep.Base.Find.{
  Free, Free-append_left, Free-append_right, has_suffix, has_prefix_iff, has_suffix_iff,
  contains_bytes_iff, last_index_byte-append, last_index_byte-none, last_cases, drop-append,
}
use gripgrep.Match.Regexp.{encode_rune}
use gripgrep.Glob.Token.{
  Token, literal, zero_or_more, recursive_prefix, slash, newline, write_rune, TokenWord,
  EncodedMatches,
}
use gripgrep.Glob.Token.Words.{literal_run-Words, within_basename-Words}
use gripgrep.Glob.Path.{ext_of, Splits, basename_lem}
use gripgrep.Glob.Classify.{
  kind_basename, kind_ext, kind_suffix, kind_prefix, kind_contains, kind_between, ext_of_tokens,
  no_slash_run, suffix_of_tokens, within_basename, basename_tokens, basename_literal_of,
  run_then_star, prefix_of_tokens, after_star, contains_of_tokens, split_star, both_sides,
  between_of_tokens,
}
use gripgrep.Glob.Classify.Runs.{
  basename_tokens-Words, no_slash_run-literal_run, star_run-Words, run_then_star-Words, Around,
  ext_run-no_slash_run, split_star-Words, non_empty-some, iff_trans, iff_sym,
}
use gripgrep.Glob.Classify.Shapes.{after_star-some, suffix_of_tokens-some, ext_of_tokens-some}
use gripgrep.Glob.Class.{ext_matches, between_matches, class_matches}

-- Two ways to cut a text: the shorter front is a front of the longer one.
pub front_of_front :
    (p r q t : Bytes) → p ++ r ≡ q ++ t → length p ≤ length q → (m : Bytes) × (q ≡ p ++ m)
front_of_front [] r q t e h = (q, refl)
front_of_front (x ∷ p) r [] t e h = absurd (omega arith)
front_of_front (x ∷ p) r (y ∷ q) t e h =
    let xy : x ≡ y = cc e in
    let e' : p ++ r ≡ q ++ t = cc e in
    let (m, d) = front_of_front p r q t e' (omega arith) in
    (m, ap (λ k. k ∷ q) (sym xy) ∙ ap (λ z. x ∷ z) d)

pub between_matches-Around :
    (pre suf w : Bytes)
    → (between_matches pre suf w ≡ true) ↔ ((m : Bytes) × (w ≡ pre ++ (m ++ suf)))
unfolding between_matches
between_matches-Around pre suf w = (onto, back)
  where
    onto : between_matches pre suf w ≡ true → (m : Bytes) × (w ≡ pre ++ (m ++ suf))
    onto h =
        let fits : length pre + length suf ≤ length w = ground arith in
        let (r, er) = (has_prefix_iff w pre).0 (ground arith) in
        let (q, eq) = (has_suffix_iff w suf).0 (ground arith) in
        let l : length w ≡ length q + length suf = ap length eq ∙ length-append q suf in
        let (m, em) = front_of_front pre r q suf (sym er ∙ eq) (omega arith) in
        (m, eq ∙ (ap (λ z. z ++ suf) em ∙ append_assoc pre m suf))

    back : (m : Bytes) × (w ≡ pre ++ (m ++ suf)) → between_matches pre suf w ≡ true
    back (m, e) =
        let a = (has_prefix_iff w pre).1 (m ++ suf, e) in
        let b = (has_suffix_iff w suf).1 (pre ++ m, e ∙ sym (append_assoc pre m suf)) in
        let l : length w ≡ length pre + (length m + length suf) =
          ap length e
          ∙ (length-append pre (m ++ suf) ∙ ap (λ k. length pre + k) (length-append m suf)) in
        let le : leb (length pre + length suf) (length w) ≡ true = ground arith in simp (le, a, b)

-- A text that is cut around a part with no slash is one that the test finds, if it has none itself.
Around-Free :
    (pre suf w : Bytes) → Free slash w → Around pre suf w ↔ ((m : Bytes) × (w ≡ pre ++ (m ++ suf)))
Around-Free pre suf w f = (
  (λ (m, e, _). (m, e)),
  (λ (m, e). (
    m,
    e,
    Free-append_left slash m suf
        (Free-append_right slash pre (m ++ suf) (subst (λ z. Free slash z) e f)),
  )),
)

both_sides-some : (ps qs : Bytes × Bytes) → both_sides ps ≡ some qs → ps ≡ qs
both_sides-some (pre, suf) qs h = elim (Bool-cases (length pre == 0 || length suf == 0)) [
  | inl e ↦ let q : none ≡ some qs = (rw e at h) in ground arith
  | inr e ↦ of_some (rw e at h)
]

ext_of-append :
    (u v base : Bytes) → base ≡ u ++ b'.' ∷ v → Free b'.' v → ext_of base ≡ some (b'.' ∷ v)
unfolding ext_of
ext_of-append u v base e f =
    ap ext_of e
    ∙ (let q = last_index_byte-append u v b'.' f in
        rw (q, ext_of) (ap (λ (z : Bytes). some z) (drop-append u (b'.' ∷ v))))

-- A part that runs to the end of the component is what the last dot starts.
ext_matches-Around :
    (b base : Bytes)
    → Free b'.' b
    → (ext_matches (b'.' ∷ b) (ext_of base) ≡ true) ↔ ((u : Bytes) × (base ≡ u ++ b'.' ∷ b))
unfolding ext_matches ext_of
ext_matches-Around b base f = elim (last_cases base b'.') [
  | inl g ↦ (
    (λ h.
        let q : ext_of base ≡ none = rw (last_index_byte-none base b'.' g, ext_of) refl in
        let k : false ≡ true = subst (λ z. ext_matches (b'.' ∷ b) z ≡ true) q h in
        absurd (ground arith)),
    (λ (u, e).
        let (k, _) = Free-append_right b'.' u (b'.' ∷ b) (subst (λ z. Free b'.' z) e g) in
        absurd (k refl)),
  )
  | inr (u, v, e, g) ↦
      let q : ext_of base ≡ some (b'.' ∷ v) = ext_of-append u v base e g in
      (
        (λ h.
            let k : bytes_equal (b'.' ∷ v) (b'.' ∷ b) ≡ true =
              subst (λ z. ext_matches (b'.' ∷ b) z ≡ true) q h in
            (u, e ∙ ap (λ z. u ++ z) ((bytes_equal_iff (b'.' ∷ v) (b'.' ∷ b)).0 k))),
        (λ (x, d).
            let q' : ext_of base ≡ some (b'.' ∷ b) = ext_of-append x b base d f in
            subst (λ z. ext_matches (b'.' ∷ b) z ≡ true) (sym q') (bytes_equal_refl (b'.' ∷ b))),
      )
]

module _ (path dir base : Bytes) (s : Splits path dir base) (f : Free newline dir)
    (n : base ≢ b'.' ∷ b'.' ∷ []) where
  pub basename_literal_of-EncodedMatches :
      (ts : List Token) (lit : Bytes)
      → basename_literal_of ts ≡ some lit
      → (class_matches (kind_basename lit) path ≡ true) ↔ EncodedMatches ts path
  unfolding basename_literal_of class_matches
  basename_literal_of-EncodedMatches ts lit h =
      let (rest, e, h') = >>=-eq-some (basename_tokens ts) _ h in
      rw (basename_lem path dir base s n) (
        iff_trans (bytes_equal_iff base lit) (
          iff_sym (
            iff_trans (basename_tokens-Words ts rest path dir base e s f)
              (literal_run-Words rest lit base h'))))

  pub prefix_of_tokens-EncodedMatches :
      (ts : List Token) (pre : Bytes)
      → prefix_of_tokens ts ≡ some pre
      → (class_matches (kind_prefix pre) path ≡ true) ↔ EncodedMatches ts path
  unfolding prefix_of_tokens class_matches
  prefix_of_tokens-EncodedMatches ts pre h =
      let (rest, e, h') = >>=-eq-some (basename_tokens ts) _ h in
      let (b, e', h'') = >>=-eq-some (run_then_star rest) _ h' in
      let q : b ≡ pre = non_empty-some b pre h'' in
      rw (basename_lem path dir base s n) (
        iff_trans (has_prefix_iff base pre) (
          iff_sym (
            iff_trans (basename_tokens-Words ts rest path dir base e s f) (
              iff_trans (run_then_star-Words rest pre base (e' ∙ ap (λ (z : Bytes). some z) q)) (
                (λ (v, d, _). (v, d)),
                (λ (v, d).
                    (v, d, Free-append_right slash pre v (subst (λ z. Free slash z) d s.no_slash))),
              )))))

  pub between_of_tokens-EncodedMatches :
      (ts : List Token) (pre suf : Bytes)
      → between_of_tokens ts ≡ some (pre, suf)
      → (class_matches (kind_between pre suf) path ≡ true) ↔ EncodedMatches ts path
  unfolding between_of_tokens class_matches
  between_of_tokens-EncodedMatches ts pre suf h =
      let (rest, e, h') = >>=-eq-some (basename_tokens ts) _ h in
      let (ps, e', h'') = >>=-eq-some (split_star rest) _ h' in
      let q : ps ≡ (pre, suf) = both_sides-some ps (pre, suf) h'' in
      rw (basename_lem path dir base s n) (
        iff_trans (between_matches-Around pre suf base) (
          iff_sym (
            iff_trans (basename_tokens-Words ts rest path dir base e s f) (
              iff_trans
                (split_star-Words rest pre suf base (e' ∙ ap (λ (z : Bytes × Bytes). some z) q))
                (Around-Free pre suf base s.no_slash)))))

  -- `**/` and `*` before literals with no slash
  star_tail-EncodedMatches :
      (tail : List Token) (b : Bytes)
      → no_slash_run tail ≡ some b
      → EncodedMatches (recursive_prefix ∷ zero_or_more ∷ tail) path ↔ (has_suffix base b ≡ true)
  unfolding within_basename
  star_tail-EncodedMatches tail b h =
      let (l, w) = no_slash_run-literal_run tail b h in
      iff_trans (within_basename-Words zero_or_more tail path dir base w s f)
        (star_run-Words tail b base l s.no_slash)

  pub suffix_of_tokens-EncodedMatches :
      (ts : List Token) (suf : Bytes)
      → suffix_of_tokens ts ≡ some suf
      → (class_matches (kind_suffix suf) path ≡ true) ↔ EncodedMatches ts path
  unfolding class_matches
  suffix_of_tokens-EncodedMatches ts suf h =
      let (tail, e, r) = suffix_of_tokens-some ts suf h in
      rw (basename_lem path dir base s n) (
        subst (λ z. (has_suffix base suf ≡ true) ↔ EncodedMatches z path) (sym e)
          (iff_sym (star_tail-EncodedMatches tail suf r)))

  dotted :
      (tail : List Token) (b : Bytes)
      → no_slash_run tail ≡ some b
      → no_slash_run (literal b'.' ∷ tail) ≡ some (b'.' ∷ b)
  unfolding no_slash_run write_rune encode_rune
  dotted tail b l = rw l refl

  pub ext_of_tokens-EncodedMatches :
      (ts : List Token) (ext : Bytes)
      → ext_of_tokens ts ≡ some ext
      → (class_matches (kind_ext ext) path ≡ true) ↔ EncodedMatches ts path
  unfolding class_matches
  ext_of_tokens-EncodedMatches ts ext h =
      let (tail, b, e, r, q) = ext_of_tokens-some ts ext h in
      let (l, g) = ext_run-no_slash_run tail b r in
      subst (λ z. (class_matches (kind_ext z) path ≡ true) ↔ EncodedMatches ts path) q
        (subst (λ z. (class_matches (kind_ext (b'.' ∷ b)) path ≡ true) ↔ EncodedMatches z path)
          (sym e)
          (rw (basename_lem path dir base s n) (
            iff_trans (ext_matches-Around b base g) (
              iff_sym (
                iff_trans
                  (star_tail-EncodedMatches (literal b'.' ∷ tail) (b'.' ∷ b) (dotted tail b l))
                  (has_suffix_iff base (b'.' ∷ b)))))))

  pub contains_of_tokens-EncodedMatches :
      (ts : List Token) (sub : Bytes)
      → contains_of_tokens ts ≡ some sub
      → (class_matches (kind_contains sub) path ≡ true) ↔ EncodedMatches ts path
  unfolding contains_of_tokens class_matches TokenWord
  contains_of_tokens-EncodedMatches ts sub h =
      let (rest, e, h1) = >>=-eq-some (basename_tokens ts) _ h in
      let (tail, e1, h2) = >>=-eq-some (after_star rest) _ h1 in
      let (b, e2, h3) = >>=-eq-some (run_then_star tail) _ h2 in
      let e3 : run_then_star tail ≡ some sub =
        e2 ∙ ap (λ (z : Bytes). some z) (non_empty-some b sub h3) in
      let sh : rest ≡ zero_or_more ∷ tail = after_star-some rest tail e1 in
      rw (basename_lem path dir base s n) (
        iff_trans (contains_bytes_iff base sub) (
          iff_sym (
            iff_trans
              (basename_tokens-Words ts (zero_or_more ∷ tail) path dir base
                (e ∙ ap (λ (z : List Token). some z) sh) s f)
              (
                (λ (u, v, d, p, c).
                    let (x, dx, _) = (run_then_star-Words tail sub v e3).0 c in
                    (u, x, d ∙ ap (λ z. u ++ z) dx)),
                (λ (u, x, d).
                    let fr = subst (λ z. Free slash z) d s.no_slash in
                    (
                      u,
                      sub ++ x,
                      d,
                      Free-append_left slash u (sub ++ x) fr,
                      (run_then_star-Words tail sub (sub ++ x) e3).1 (
                        x,
                        refl,
                        Free-append_right slash sub x (Free-append_right slash u (sub ++ x) fr),
                      ),
                    )),
              ))))
