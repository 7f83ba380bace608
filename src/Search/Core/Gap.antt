-- ===== src/Search/Core/Gap.antt =====
-- search/core.go: a gap of lines that match under `-v`, against the same lines one by one.
use gripgrep.Base.{
  ℕ, ◌≤◌, ◌<◌, ◌≡◌, refl, sym, ap, ◌∙◌, subst, inl, inr, true, false, List, [], ◌∷◌, ◌++◌, arith,
  leb, ◌==◌, if◌then◌else◌, Bool-cases, Bytes, length,
}
use gripgrep.Base.Any.{All}
use gripgrep.Search.Lines.{Range}
use gripgrep.Search.Lines.Region.{lines-tail, lines-nonempty}
use gripgrep.Search.Core.{
  Config, more, Sink, Output, State, Step, and_then, within, line_term, lines_of, at_limit, counted,
  limited, verifies, sink_matched, before_context_by_line,
}
use gripgrep.Search.Core.Slow.{differ, is_success, slow_match, slow_each}
use gripgrep.Search.Core.Drain.{
  TakesContext, and_then_assoc, and_then-same, step-more, sink_matched-more, drain,
  after_context_by_line-drain, before_context_by_line-more,
}
use gripgrep.Search.Core.Owed.{
  slow_after, slow_each-cons, drained, slow_after-going, is_success-plain, slow_after-limit,
}
use gripgrep.Search.Core.Fast.{gap_each, gap}

module _ {σ : Type 0} (k : Sink σ) (c : Config) (buf : Bytes) (quiet : TakesContext k)
    (plain : c.pass_thru ≡ false) where
  -- Lines that match the way that is asked for.
  abbrev pub Wanted : List Range → Type 0
  Wanted rs = All (λ r. differ (verifies c buf r) c.invert ≡ true) rs

  pub wanted-is_success :
      (s : State σ) (r : Range)
      → s.match_limit_reached ≡ false
      → differ (verifies c buf r) c.invert ≡ true
      → is_success c buf s r ≡ true
  wanted-is_success s r h e = is_success-plain k c buf quiet plain s r ∙ simp (h, e)

  -- There is no context before a line that follows the last one visited.
  before-visited :
      (o : Output σ) (upto : ℕ)
      → o.last_line_visited ≡ upto
      → before_context_by_line k c buf o upto ≡ (o, more)
  unfolding before_context_by_line
  before-visited o upto h = elim (Bool-cases (c.before_context == 0)) [
    | inl e ↦ rw e refl
    | inr e ↦ let d : leb upto o.last_line_visited ≡ true = ground arith in simp (e, d) refl
  ]

  pub limited-below : (s : State σ) → at_limit c.max_count s.match_count ≡ false → limited c s ≡ s
  limited-below s h = rw h refl

  -- The state at a match, after its context.
  abbrev matching : State σ → Output σ → State σ
  matching s o = counted (record s { out = o })

  abbrev in_gap : State σ → Output σ → State σ
  in_gap s o = record s { out = o; has_matched = true }

  -- What follows a gap: the same as the scan line by line, after what is owed in the gap.
  abbrev pub Follows : ℕ → List Range → (State σ → Step (State σ)) → Type 0
  Follows end rest f =
      (s : State σ)
      → s.out.last_line_visited ≤ end
      → s.out.after_context_left ≤ c.after_context
      → f s
        ≡ slow_after k c buf
            (drained k c buf quiet plain s (lines_of c buf s.out.last_line_visited end)) rest

  -- A success, with the context before it known.
  success-each :
      (s : State σ) (a b : ℕ) (o : Output σ) (rest : List Range)
      → s.match_limit_reached ≡ false
      → differ (verifies c buf (a, b)) c.invert ≡ true
      → before_context_by_line k c buf s.out a ≡ (o, more)
      → slow_each k c buf s ((a, b) ∷ rest)
        ≡ and_then
            (within (matching s o) (sink_matched k c buf o a b))
            (λ s2. slow_after k c buf (limited c s2) rest)
  unfolding slow_match
  success-each s a b o rest h e q =
      slow_each-cons k c buf s (a, b) rest
      ∙ (rw (wanted-is_success s (a, b) h e, q)
          (and_then_assoc (within (matching s o) (sink_matched k c buf o a b))
            (λ s2. (limited c s2, more)) (λ s1. slow_after k c buf s1 rest)))

  -- What follows a line that the sink took, in a gap and line by line.
  abbrev Agrees : ℕ → List Range → List Range → (State σ → Step (State σ)) → State σ → Type 0
  Agrees b rs rest f u =
      slow_after k c buf (limited c u) (rs ++ rest)
      ≡ and_then
          (if at_limit c.max_count u.match_count
            then (limited c u, more)
            else gap_each k c buf u rs)
          f

  abbrev AfterLine : ℕ → State σ → Type 0
  AfterLine b u =
      (u.match_limit_reached ≡ false)
      × (u.has_matched ≡ true)
      × (u.out.last_line_visited ≡ b)
      × (u.out.after_context_left ≡ c.after_context)

  gap-step :
      (s : State σ) (o : Output σ) (a b : ℕ) (rs rest : List Range) (f : State σ → Step (State σ))
      → s.match_limit_reached ≡ false
      → ((u : State σ) → AfterLine b u → Agrees b rs rest f u)
      → and_then
          (within (matching s o) (sink_matched k c buf o a b))
          (λ s2. slow_after k c buf (limited c s2) (rs ++ rest))
        ≡ and_then (gap_each k c buf (in_gap s o) ((a, b) ∷ rs)) f
  unfolding gap_each
  gap-step s o a b rs rest f h later =
      let m = within (matching s o) (sink_matched k c buf o a b) in
      and_then-same m _ _
        (λ taken. let (v, l) = sink_matched-more k c buf o a b taken in later m.0 (h, refl, v, l))
      ∙ sym (
          and_then_assoc m
            (λ s1.
              if at_limit c.max_count s1.match_count
              then (limited c s1, more)
              else gap_each k c buf s1 rs)
            f)

  -- At the limit the gap ends, and its other lines are only context.
  gap-limit :
      (u : State σ) (b end : ℕ) (rs rest : List Range) (f : State σ → Step (State σ))
      → AfterLine b u
      → b ≤ end
      → rs ≡ lines_of c buf b end
      → Follows end rest f
      → at_limit c.max_count u.match_count ≡ true
      → slow_after k c buf (limited c u) (rs ++ rest) ≡ f (limited c u)
  gap-limit u b end rs rest f (h, _, v, l) le q g top =
      let x : State σ = record u { match_limit_reached = true } in
      let e : limited c u ≡ x = rw top refl in
      let same : lines_of c buf x.out.last_line_visited end ≡ rs =
        ap (λ z. lines_of c buf z end) v ∙ sym q in
      ap (λ z. slow_after k c buf z (rs ++ rest)) e
      ∙ (slow_after-limit k c buf quiet plain x rs rest refl
          ∙ (ap (λ z. slow_after k c buf (drained k c buf quiet plain x z) rest) (sym same)
              ∙ (sym (
                    g x (subst (λ z. z ≤ end) (sym v) le)
                      (subst (λ z. z ≤ c.after_context) (sym l) (omega arith)))
                  ∙ ap f (sym e))))

  Agrees-top :
      (b : ℕ) (rs rest : List Range) (f : State σ → Step (State σ)) (u : State σ)
      → at_limit c.max_count u.match_count ≡ true
      → slow_after k c buf (limited c u) (rs ++ rest) ≡ f (limited c u)
      → Agrees b rs rest f u
  Agrees-top b rs rest f u top p =
      p ∙ sym (ap (λ x. and_then (if x then (limited c u, more) else gap_each k c buf u rs) f) top)

  Agrees-below :
      (b : ℕ) (rs rest : List Range) (f : State σ → Step (State σ)) (u : State σ)
      → at_limit c.max_count u.match_count ≡ false
      → slow_after k c buf u (rs ++ rest) ≡ and_then (gap_each k c buf u rs) f
      → Agrees b rs rest f u
  Agrees-below b rs rest f u below p =
      ap (λ z. slow_after k c buf z (rs ++ rest)) (limited-below u below)
      ∙ (p
          ∙ sym (
              ap (λ x. and_then (if x then (limited c u, more) else gap_each k c buf u rs) f)
                below))

  gap-after :
      (rs : List Range) (b end : ℕ) (rest : List Range) (f : State σ → Step (State σ))
      → b ≤ end
      → end ≤ length buf
      → rs ≡ lines_of c buf b end
      → Wanted rs
      → Follows end rest f
      → (u : State σ) → AfterLine b u
      → Agrees b rs rest f u
  unfolding gap_each
  gap-after [] b end rest f le inside q w g u (h, hm, v, l) =
      elim (Bool-cases (at_limit c.max_count u.match_count)) [
        | inl top ↦
            Agrees-top b [] rest f u top (gap-limit u b end [] rest f (h, hm, v, l) le q g top)
        | inr below ↦ Agrees-below b [] rest f u below (
            let same : lines_of c buf u.out.last_line_visited end ≡ [] =
              ap (λ z. lines_of c buf z end) v ∙ sym q in
            ap (λ z. slow_after k c buf (drained k c buf quiet plain u z) rest) (sym same)
            ∙ sym (
                g u (subst (λ z. z ≤ end) (sym v) le)
                  (subst (λ z. z ≤ c.after_context) (sym l) (omega arith))))
      ]
  gap-after ((a', b') ∷ rs) b end rest f le inside q (w, ws) g u (h, hm, v, l) =
      elim (Bool-cases (at_limit c.max_count u.match_count)) [
        | inl top ↦
            Agrees-top b ((a', b') ∷ rs) rest f u top
              (gap-limit u b end ((a', b') ∷ rs) rest f (h, hm, v, l) le q g top)
        | inr below ↦ Agrees-below b ((a', b') ∷ rs) rest f u below (
            let (start, later, before, tail) =
              lines-tail (line_term c) buf b end (a', b') rs le inside (sym q) in
            let same : in_gap u u.out ≡ u = ap (λ z. record u { has_matched = z }) (sym hm) in
            slow_after-going k c buf quiet plain u ((a', b') ∷ (rs ++ rest)) h
            ∙ (success-each u a' b' u.out (rs ++ rest) h w (before-visited u.out a' (v ∙ sym start))
                ∙ (gap-step u u.out a' b' rs rest f h
                      (λ x y. gap-after rs b' end rest f before inside tail ws g x y)
                    ∙ ap (λ z. and_then (gap_each k c buf z ((a', b') ∷ rs)) f) same)))
      ]

  abbrev before_gap : State σ → ℕ → Output σ
  before_gap s pos =
      (before_context_by_line k c buf
        (drain k c buf quiet s.out (lines_of c buf s.out.last_line_visited pos)) pos).0

  gap-open :
      (s : State σ) (pos end : ℕ)
      → pos < end
      → gap k c buf s pos end
        ≡ gap_each k c buf (in_gap s (before_gap s pos)) (lines_of c buf pos end)
  unfolding gap
  gap-open s pos end lt =
      let ne : (pos == end) ≡ false = ground arith in
      let o = drain k c buf quiet s.out (lines_of c buf s.out.last_line_visited pos) in
      rw
        (
          ne,
          after_context_by_line-drain k c buf quiet s.out pos,
          step-more (before_context_by_line k c buf o pos)
              (before_context_by_line-more k c buf quiet o pos),
        )
        refl

  gap-lines :
      (s : State σ) (pos end : ℕ) (rs rest : List Range) (f : State σ → Step (State σ))
      → s.match_limit_reached ≡ false
      → pos < end
      → end ≤ length buf
      → lines_of c buf pos end ≡ rs
      → Wanted rs
      → Follows end rest f
      → slow_each k c buf
          (drained k c buf quiet plain s (lines_of c buf s.out.last_line_visited pos))
          (rs ++ rest)
        ≡ and_then (gap_each k c buf (in_gap s (before_gap s pos)) rs) f
  gap-lines s pos end [] rest f h lt inside q w g =
      absurd (lines-nonempty (line_term c) buf pos end lt inside q)
  gap-lines s pos end ((a, b) ∷ rs) rest f h lt inside q (w, ws) g =
      let (start, later, before, tail) =
        lines-tail (line_term c) buf pos end (a, b) rs (omega arith) inside q in
      let d = drained k c buf quiet plain s (lines_of c buf s.out.last_line_visited pos) in
      success-each d a b (before_gap s pos) (rs ++ rest) h w (
        subst (λ z. before_context_by_line k c buf d.out z ≡ (before_gap s pos, more)) (sym start)
          (step-more _ (before_context_by_line-more k c buf quiet d.out pos)))
      ∙ gap-step s (before_gap s pos) a b rs rest f h
          (λ x y. gap-after rs b end rest f before inside tail ws g x y)

  -- The lines of a gap, after what is owed before them, are what `matchByLineFastInvert` makes of
  -- the gap.
  pub gap-slow_each :
      (s : State σ) (pos end : ℕ) (rest : List Range) (f : State σ → Step (State σ))
      → s.match_limit_reached ≡ false
      → pos < end
      → end ≤ length buf
      → Wanted (lines_of c buf pos end)
      → Follows end rest f
      → slow_each k c buf
          (drained k c buf quiet plain s (lines_of c buf s.out.last_line_visited pos))
          (lines_of c buf pos end ++ rest)
        ≡ and_then (gap k c buf s pos end) f
  unfolding gap
  gap-slow_each s pos end rest f h lt inside w g =
      gap-lines s pos end (lines_of c buf pos end) rest f h lt inside refl w g
      ∙ ap (λ z. and_then z f) (sym (gap-open s pos end lt))
