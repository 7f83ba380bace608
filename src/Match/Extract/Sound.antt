-- ===== src/Match/Extract/Sound.antt =====
-- The extractor is sound: every word that a pattern can match is covered by what it returns.
use gripgrep.Base.{
  ℕ, zero, suc, ◌≤◌, ◌≡◌, refl, sym, ap, ◌∙◌, subst, ◌⊎◌, inl, inr, Bool, true, false, Option, none,
  some, List, [], ◌++◌, append-nil, append_assoc, arith, Bool-cases, ◌>>=◌, >>=-eq-some, Bytes,
  of_some,
}
use gripgrep.Match.Seq.{Seq, finite, infinite, is_empty, is_finite, is_inexact}
use gripgrep.Match.Seq.Cover.{Covers, is_inexact-grow}
use gripgrep.Match.TSeq.{TSeq, t_seq_infinite, is_really_good, choose}
use gripgrep.Match.TSeq.Choose.{TCovers, choose-TCovers}
use gripgrep.Match.Regexp.{
  Folding, Regexp, Subs, nil, cons, Pow, AtMost, Lang, LangAll, LangSome, InRanges, RuneWord,
}
use gripgrep.Match.Regexp.{
  no_match, empty_match, any_char_not_nl, any_char, begin_line, end_line, begin_text, end_text,
  word_boundary, no_word_boundary, literal, char_class, capture, star, plus, quest, repeat, concat,
  alternate,
}
use gripgrep.Match.Extract.{
  t_seq_nothing, t_union, cross, repetition, never_repeats, choose_prev, restarted, extract,
  extract_concat, extract_alternation, extract_class, class_over_limit_from,
}
use gripgrep.Match.Extract.Steps.{
  Hit-exact_lit, t_seq_nothing-TCovers, cross-TCovers, prefix-cross, t_union-TCovers,
}
use gripgrep.Match.Extract.Repeat.{repetition-TCovers}
use gripgrep.Match.Extract.Runes.{
  extract_literal-TCovers, extract_class-TCovers, large_class-TCovers,
}
use gripgrep.Match.Extract.Replacement.{
  NoReplacement, NoneReplacement, Readable, readable_first, readable_rest, RuneWord-encoded,
  LiteralWord-encoded,
}

-- Where the loop over a concatenation stands: `prev` covers the word before `u`, and `s` covers `v`.
record Inv (prev : Option TSeq) (s : TSeq) (w : Bytes) : Type 0 where
  u : Bytes
  v : Bytes
  split : w ≡ u ++ v
  here : TCovers s v
  untagged : s.prefix ≡ true → u ≡ []
  start : prev ≡ none → u ≡ []
  behind : (q : TSeq) → prev ≡ some q → TCovers q u × (s.prefix ≡ false)

Inv-choose_prev :
    (prev : Option TSeq) (s : TSeq) (w : Bytes) → Inv prev s w → TCovers (choose_prev prev s) w
Inv-choose_prev none s w i =
    subst (λ z. TCovers s z) (sym (i.split ∙ ap (λ z. z ++ i.v) (i.start refl))) i.here
Inv-choose_prev (some q) s w i =
    subst (λ z. TCovers (choose q s) z) (sym i.split)
      (choose-TCovers q s i.u i.v i.untagged (i.behind q refl).0 i.here)

-- One more sub-pattern is crossed in.
Inv-cross :
    (prev : Option TSeq) (s t : TSeq) (w x : Bytes)
    → Inv prev s w
    → TCovers t x
    → Inv prev (cross s t) (w ++ x)
Inv-cross prev s t w x i c = record {
  u = i.u;
  v = i.v ++ x;
  split = ap (λ z. z ++ x) i.split ∙ append_assoc i.u i.v x;
  here = cross-TCovers s t i.v x i.here c;
  untagged = λ h. i.untagged (prefix-cross s t h);
  start = i.start;
  behind = λ q e. ((i.behind q e).0, stays (i.behind q e).1);
}
  where
    stays : s.prefix ≡ false → (cross s t).prefix ≡ false
    stays e = elim (Bool-cases (cross s t).prefix) [
      | inl h ↦ absurd (elim (Bool-cases s.prefix) [ inl a ↦ cc | inr a ↦ cc (prefix-cross s t h) ])
      | inr h ↦ h
    ]

-- The code keeps what it has as `prev`, and starts again from nothing.
Inv-restarted :
    (prev : Option TSeq) (s : TSeq) (w : Bytes)
    → Inv prev s w
    → Inv (some (choose_prev prev s)) restarted w
Inv-restarted prev s w i = record {
  u = w;
  v = [];
  split = sym (append-nil w);
  here = inl (Hit-exact_lit false []);
  untagged = λ h. cc;
  start = λ h. cc;
  behind = λ q e. (subst (λ z. TCovers z w) (of_some e) (Inv-choose_prev prev s w i), refl);
}

-- An early return: what stands covers the whole word.
Inv-stop :
    (prev : Option TSeq) (s : TSeq) (w rest : Bytes)
    → Inv prev s w
    → is_inexact s.s ≡ true
    → TCovers s (w ++ rest)
Inv-stop prev s w rest i e =
    subst (λ z. TCovers s z) (sym (append_assoc i.u i.v rest) ∙ ap (λ z. z ++ rest) (sym i.split))
      (is_inexact-grow s.prefix s.s i.u i.v rest i.untagged e i.here)

Inv-start : Inv none t_seq_nothing []
Inv-start = record {
  u = [];
  v = [];
  split = refl;
  here = t_seq_nothing-TCovers;
  untagged = λ h. refl;
  start = λ h. refl;
  behind = λ q e. cc;
}

nothing-TCovers : (t : TSeq) (w : Bytes) → some t_seq_nothing ≡ some t → w ≡ [] → TCovers t w
nothing-TCovers t w h e =
    subst (λ z. TCovers z w) (of_some h)
      (subst (λ z. TCovers t_seq_nothing z) (sym e) t_seq_nothing-TCovers)

infinite-TCovers : (t : TSeq) (w : Bytes) → some t_seq_infinite ≡ some t → TCovers t w
infinite-TCovers t w h = subst (λ z. TCovers z w) (of_some h) tt

-- A repetition of no copies.
never_repeats-word :
    (min : ℕ) (max : Option ℕ) (n : ℕ) (L : Bytes → Type 0) (w : Bytes)
    → never_repeats min max ≡ true
    → AtMost n max
    → Pow L n w
    → w ≡ []
never_repeats-word min none n L w h k p = cc
never_repeats-word min (some max) zero L w h k p = p
never_repeats-word min (some max) (suc n) L w h k p = absurd (ground arith)

abbrev Sound : Folding → Bool → Regexp → Type 0
Sound φ strays r = (t : TSeq) (w : Bytes) → extract φ r ≡ some t → Lang φ strays r w → TCovers t w

repeated-TCovers :
    (φ : Folding) (strays : Bool) (r : Regexp) (ng : Bool) (min : ℕ) (max : Option ℕ) (n : ℕ)
    (t : TSeq) (w : Bytes)
    → Sound φ strays r
    → (extract φ r >>= λ q. some (repetition ng min max q)) ≡ some t
    → min ≤ n
    → AtMost n max
    → Pow (λ u. Lang φ strays r u) n w
    → TCovers t w
repeated-TCovers φ strays r ng min max n t w sound h lo hi p =
    let (q, eq, h') = >>=-eq-some (extract φ r) _ h in
    subst (λ z. TCovers z w) (of_some h')
      (repetition-TCovers ng min max n (λ u. Lang φ strays r u) q w (λ x c. sound q x eq c) lo hi p)

-- One round of the loop over a concatenation, on each of its four ways.
concat_round :
    (φ : Folding) (strays : Bool) (r : Regexp) (subs : Subs) (prev : Option TSeq) (s t : TSeq)
    (w a b : Bytes)
    → extract_concat φ prev s (cons r subs) ≡ some t
    → Inv prev s w
    → Sound φ strays r
    → Lang φ strays r a
    → ((prev' : Option TSeq) (s' : TSeq) (w' : Bytes)
        → extract_concat φ prev' s' subs ≡ some t
        → Inv prev' s' w'
        → TCovers t (w' ++ b))
    → TCovers t (w ++ (a ++ b))
unfolding extract
concat_round φ strays r subs prev s t w a b h i sound c later = elim (Bool-cases (is_inexact s.s)) [
  | inl e ↦ elim (Bool-cases (is_empty s.s)) [
    | inl e2 ↦ stop e (simp (e, e2) at h)
    | inr e2 ↦ elim (Bool-cases (is_really_good s)) [
      | inl e3 ↦ stop e (simp (e, e2, e3) at h)
      | inr e3 ↦
          go (some (choose_prev prev s)) restarted (Inv-restarted prev s w i)
            (simp (e, e2, e3) at h)
    ]
  ]
  | inr e ↦ go prev s i (simp e at h)
]
  where
    stop : is_inexact s.s ≡ true → some s ≡ some t → TCovers t (w ++ (a ++ b))
    stop e h = subst (λ z. TCovers z (w ++ (a ++ b))) (of_some h) (Inv-stop prev s w (a ++ b) i e)

    go :
        (prev' : Option TSeq) (s' : TSeq)
        → Inv prev' s' w
        → (extract φ r >>= λ q. extract_concat φ prev' (cross s' q) subs) ≡ some t
        → TCovers t (w ++ (a ++ b))
    go prev' s' i' h' =
        let (q, eq, h'') = >>=-eq-some (extract φ r) _ h' in
        subst (λ z. TCovers t z) (append_assoc w a b)
          (later prev' (cross s' q) (w ++ a) h'' (Inv-cross prev' s' q w a i' (sound q a eq c)))

-- One round of the loop over the alternatives.
alternation_round :
    (φ : Folding) (strays : Bool) (r : Regexp) (subs : Subs) (s t : TSeq) (w : Bytes)
    → extract_alternation φ s (cons r subs) ≡ some t
    → Sound φ strays r
    → TCovers s w ⊎ LangSome φ strays (cons r subs) w
    → ((s' : TSeq)
        → extract_alternation φ s' subs ≡ some t
        → TCovers s' w ⊎ LangSome φ strays subs w
        → TCovers t w)
    → TCovers t w
unfolding extract Lang
alternation_round φ strays r subs s t w h sound c later = elim (Bool-cases (is_finite s.s)) [
  | inl e ↦ go (simp e at h)
  | inr e ↦ subst (λ z. TCovers z w) (of_some (simp e at h)) (covers_all s.s e)
]
  where
    covers_all : (a : Seq) → is_finite a ≡ false → Covers s.prefix a w
    covers_all infinite e = tt
    covers_all (finite lits) e = cc

    go : (extract φ r >>= λ q. extract_alternation φ (t_union s q) subs) ≡ some t → TCovers t w
    go h' =
        let (q, eq, h'') = >>=-eq-some (extract φ r) _ h' in
        later (t_union s q) h'' (elim c [
          | inl d ↦ inl (t_union-TCovers s q w (inl d))
          | inr (inl d) ↦ inl (t_union-TCovers s q w (inr (sound q w eq d)))
          | inr (inr d) ↦ inr d
        ])

class-Sound :
    (strays : Bool) (ranges : List (ℕ × ℕ)) (t : TSeq) (r : ℕ) (w : Bytes)
    → Readable strays ((class_over_limit_from 0 ranges ≡ true) ⊎ (InRanges 0xFFFD ranges → ⊥))
    → extract_class ranges ≡ some t
    → InRanges r ranges
    → RuneWord strays r w
    → TCovers t w
class-Sound strays ranges t r w (inl q) h c read =
    extract_class-TCovers ranges t r w h c (RuneWord-encoded strays r w (inl q) read)
class-Sound strays ranges t r w (inr (inr n)) h c read =
    extract_class-TCovers ranges t r w h c
      (RuneWord-encoded strays r w (inr (λ e. n (subst (λ z. InRanges z ranges) e c))) read)
class-Sound strays ranges t r w (inr (inl large)) h c read = large_class-TCovers ranges t w large h

mutual
  unfolding extract Lang NoReplacement

  extract-Sound :
      (φ : Folding) (strays : Bool) (r : Regexp)
      → Readable strays (NoReplacement φ r)
      → Sound φ strays r
  extract-Sound φ strays no_match k t w h c = elim c [ ]
  extract-Sound φ strays empty_match k t w h c = nothing-TCovers t w h c
  extract-Sound φ strays any_char_not_nl k t w h c = infinite-TCovers t w h
  extract-Sound φ strays any_char k t w h c = infinite-TCovers t w h
  extract-Sound φ strays begin_line k t w h c = nothing-TCovers t w h c
  extract-Sound φ strays end_line k t w h c = nothing-TCovers t w h c
  extract-Sound φ strays begin_text k t w h c = nothing-TCovers t w h c
  extract-Sound φ strays end_text k t w h c = nothing-TCovers t w h c
  extract-Sound φ strays word_boundary k t w h c = nothing-TCovers t w h c
  extract-Sound φ strays no_word_boundary k t w h c = nothing-TCovers t w h c
  extract-Sound φ strays (literal fold rs) k t w h c =
      extract_literal-TCovers φ fold rs t_seq_nothing t [] w h t_seq_nothing-TCovers
        (LiteralWord-encoded φ strays fold rs w k c)
  extract-Sound φ strays (char_class ranges) k t w h (r, c, e) =
      class-Sound strays ranges t r w k h c e
  extract-Sound φ strays (capture r) k t w h c = extract-Sound φ strays r k t w h c
  extract-Sound φ strays (star ng r) k t w h (n, p) =
      repeated-TCovers φ strays r ng 0 none n t w (extract-Sound φ strays r k) h (omega arith) tt p
  extract-Sound φ strays (plus ng r) k t w h (n, lo, p) =
      repeated-TCovers φ strays r ng 1 none n t w (extract-Sound φ strays r k) h lo tt p
  extract-Sound φ strays (quest ng r) k t w h (n, hi, p) =
      repeated-TCovers φ strays r ng 0 (some 1) n t w (extract-Sound φ strays r k) h (omega arith)
        hi p
  extract-Sound φ strays (repeat ng min max r) k t w h (n, lo, hi, p) =
      let sound = extract-Sound φ strays r k in
      elim (Bool-cases (never_repeats min max)) [
        | inl e ↦ nothing-TCovers t w (simp e at h) (never_repeats-word min max n _ w e hi p)
        | inr e ↦ repeated-TCovers φ strays r ng min max n t w sound (simp e at h) lo hi p
      ]
  extract-Sound φ strays (concat subs) k t w h c =
      sound_concat φ strays subs none t_seq_nothing t [] w k h Inv-start c
  extract-Sound φ strays (alternate subs) k t w h c =
      sound_alternation φ strays subs _ t w k h (inr c)

  sound_concat :
      (φ : Folding) (strays : Bool) (subs : Subs) (prev : Option TSeq) (s t : TSeq) (w rest : Bytes)
      → Readable strays (NoneReplacement φ subs)
      → extract_concat φ prev s subs ≡ some t
      → Inv prev s w
      → LangAll φ strays subs rest
      → TCovers t (w ++ rest)
  sound_concat φ strays nil prev s t w rest k h i c =
      subst (λ z. TCovers z (w ++ rest)) (of_some h)
        (subst (λ z. TCovers (choose_prev prev s) z) (sym (ap (λ z. w ++ z) c ∙ append-nil w))
          (Inv-choose_prev prev s w i))
  sound_concat φ strays (cons r subs) prev s t w rest k h i (a, b, e, ca, cb) =
      let later =
        λ (prev' : Option TSeq) (s' : TSeq) (w' : Bytes)
            (h' : extract_concat φ prev' s' subs ≡ some t) (i' : Inv prev' s' w').
          sound_concat φ strays subs prev' s' t w' b (readable_rest strays k) h' i' cb in
      subst (λ z. TCovers t (w ++ z)) (sym e)
        (concat_round φ strays r subs prev s t w a b h i
          (extract-Sound φ strays r (readable_first strays k)) ca later)

  sound_alternation :
      (φ : Folding) (strays : Bool) (subs : Subs) (s t : TSeq) (w : Bytes)
      → Readable strays (NoneReplacement φ subs)
      → extract_alternation φ s subs ≡ some t
      → TCovers s w ⊎ LangSome φ strays subs w
      → TCovers t w
  sound_alternation φ strays nil s t w k h (inl c) = subst (λ z. TCovers z w) (of_some h) c
  sound_alternation φ strays nil s t w k h (inr c) = elim c [ ]
  sound_alternation φ strays (cons r subs) s t w k h c =
      alternation_round φ strays r subs s t w h (extract-Sound φ strays r (readable_first strays k))
        c (λ s' h' c'. sound_alternation φ strays subs s' t w (readable_rest strays k) h' c')

-- If `extract` returns a sequence for a pattern, then in a text in UTF-8, and in any text where no
-- literal of the pattern, and no class of it that is small enough for `extractClass`, matches
-- U+FFFD, which Go reads a byte that is not UTF-8 as, each word that the pattern can match has a
-- literal of the sequence in it: the whole word if the literal is exact, and at the start of the
-- word if the sequence is a prefix sequence; an infinite sequence says nothing.
pub extract-TCovers :
    (φ : Folding) (strays : Bool) (r : Regexp) (t : TSeq) (w : Bytes)
    → (strays ≡ false) ⊎ NoReplacement φ r
    → extract φ r ≡ some t
    → Lang φ strays r w
    → TCovers t w
extract-TCovers φ strays r t w k h c = extract-Sound φ strays r k t w h c
