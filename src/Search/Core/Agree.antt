-- ===== src/Search/Core/Agree.antt =====
-- search/core.go: `matchByLineFast` against `matchByLineSlow`.
use gripgrep.Base.{
  ℕ, ◌+◌, ◌≤◌, ◌<◌, ◌≡◌, refl, sym, ap, ◌∙◌, ◌⊎◌, inl, inr, Bool, true, false, List, [], ◌∷◌, ◌++◌,
  append-nil, arith, ltb, if◌then◌else◌, ==_iff, Bool-cases, Bytes, length,
}
use gripgrep.Search.Lines.{Range}
use gripgrep.Search.Lines.Region.{Boundary, lines-join, lines-nil}
use gripgrep.Search.Core.{
  Config, more, enough, failed, Sink, Output, State, Step, and_then, within, line_term, lines_of,
  at_limit, counted, limited, verifies, max_context, sink_matched, after_context_by_line,
  before_context_by_line,
}
use gripgrep.Search.Core.Slow.{differ, slow_match, slow_each}
use gripgrep.Search.Core.Drain.{
  TakesContext, and_then-more, sink_matched-more, drain-over, after_context_by_line-drain,
  before_context_by_line-more,
}
use gripgrep.Search.Core.Owed.{
  slow_after, drained, drained-append, is_over-plain, slow_after-going, Unwanted,
  slow_each-Unwanted, slow_after-limit,
}
use gripgrep.Search.Core.Fast.{fast_match, fast_rest, fast_from}
use gripgrep.Search.Core.Find.{Finds, NoneVerify, Next}
use gripgrep.Search.Core.Gap.{Wanted}

differ-same : (v i : Bool) → v ≡ false → i ≡ false → differ v i ≡ false
differ-same v i h k = simp (h, k) refl

differ-inverted : (v i : Bool) → v ≡ false → i ≡ true → differ v i ≡ true
differ-inverted v i h k = simp (h, k) refl

went_on :
    {S : Type 0} (m : Step S) (g : S → S) → (and_then m (λ s. (g s, more))).1 ≡ more → m.1 ≡ more
went_on (s, more) g h = refl
went_on (s, enough) g h = h
went_on (s, failed) g h = h

module _ {σ : Type 0} (k : Sink σ) (c : Config) (buf : Bytes) (quiet : TakesContext k)
    (plain : c.pass_thru ≡ false) (laws : Finds c buf) where
  abbrev pub after_lines : State σ → ℕ → State σ
  after_lines s pos = drained k c buf quiet plain s (lines_of c buf s.out.last_line_visited pos)

  -- Where the loop of the fast scan may stand.
  pub record Ready (fuel pos : ℕ) (s : State σ) : Type 0 where
    pub behind : s.out.last_line_visited ≤ pos
    pub owed : s.out.after_context_left ≤ c.after_context
    pub enough_fuel : length buf < fuel + pos
    pub in_buffer : pos ≤ length buf
    pub boundary : Boundary (line_term c) buf pos

  abbrev pub Agrees : ℕ → ℕ → State σ → Type 0
  Agrees fuel pos s =
      fast_from k c buf fuel pos s
      ≡ slow_after k c buf (after_lines s pos) (lines_of c buf pos (length buf))

  pub after_lines-join :
      (s : State σ) (a b : ℕ)
      → s.out.last_line_visited ≤ a
      → a ≤ b
      → b ≤ length buf
      → Boundary (line_term c) buf a
      → after_lines s b ≡ drained k c buf quiet plain (after_lines s a) (lines_of c buf a b)
  after_lines-join s a b h l m d =
      ap (drained k c buf quiet plain s)
        (lines-join (line_term c) buf s.out.last_line_visited a b h l m d)
      ∙ drained-append k c buf quiet plain s (lines_of c buf s.out.last_line_visited a)
          (lines_of c buf a b)

  fast_rest-slow :
      (s : State σ) → fast_rest k c buf s ≡ slow_after k c buf (after_lines s (length buf)) []
  unfolding fast_rest slow_each
  fast_rest-slow s = rw (after_context_by_line-drain k c buf quiet s.out (length buf)) (
      ap
        (λ b.
          if b then (after_lines s (length buf), enough) else (after_lines s (length buf), more))
        (sym (is_over-plain k c buf quiet plain (after_lines s (length buf)))))

  -- At the end of the buffer, or at the limit.
  pub done :
      (fuel pos : ℕ) (s : State σ)
      → Ready fuel pos s
      → (pos ≡ length buf) ⊎ (s.match_limit_reached ≡ true)
      → fast_rest k c buf s
        ≡ slow_after k c buf (after_lines s pos) (lines_of c buf pos (length buf))
  done fuel pos s r (inl e) =
      fast_rest-slow s
      ∙ (ap (λ z. slow_after k c buf (after_lines s z) []) (sym e)
          ∙ ap (slow_after k c buf (after_lines s pos))
              (sym (lines-nil (line_term c) buf pos (length buf) (omega arith))))
  done fuel pos s r (inr h) =
      fast_rest-slow s
      ∙ (ap (λ z. slow_after k c buf z [])
            (after_lines-join s pos (length buf) r.behind r.in_buffer (omega arith) r.boundary)
          ∙ (sym (
                slow_after-limit k c buf quiet plain (after_lines s pos)
                  (lines_of c buf pos (length buf)) [] h)
              ∙ ap (slow_after k c buf (after_lines s pos))
                  (append-nil (lines_of c buf pos (length buf)))))

  pub Unwanted-of :
      (rs : List Range) → c.invert ≡ false → NoneVerify c buf rs → Unwanted k c buf quiet plain rs
  Unwanted-of [] h u = tt
  Unwanted-of (r ∷ rs) h (v, u) = (differ-same (verifies c buf r) c.invert v h, Unwanted-of rs h u)

  pub Wanted-of :
      (rs : List Range) → c.invert ≡ true → NoneVerify c buf rs → Wanted k c buf quiet plain rs
  Wanted-of [] h u = tt
  Wanted-of (r ∷ rs) h (v, u) = (differ-inverted (verifies c buf r) c.invert v h, Wanted-of rs h u)

  -- No further match: the rest of the lines is only context.
  pub none-slow :
      (fuel pos : ℕ) (s : State σ)
      → Ready fuel pos s
      → s.match_limit_reached ≡ false
      → c.invert ≡ false
      → NoneVerify c buf (lines_of c buf pos (length buf))
      → fast_rest k c buf s
        ≡ slow_after k c buf (after_lines s pos) (lines_of c buf pos (length buf))
  none-slow fuel pos s r h i u =
      fast_rest-slow s
      ∙ (ap (λ z. slow_after k c buf z [])
            (after_lines-join s pos (length buf) r.behind r.in_buffer (omega arith) r.boundary)
          ∙ (slow_after-going k c buf quiet plain
                (drained k c buf quiet plain (after_lines s pos) (lines_of c buf pos (length buf)))
                [] h
              ∙ (sym (
                    slow_each-Unwanted k c buf quiet plain (after_lines s pos)
                      (lines_of c buf pos (length buf)) [] h (Unwanted-of _ i u))
                  ∙ (ap (slow_each k c buf (after_lines s pos))
                        (append-nil (lines_of c buf pos (length buf)))
                      ∙ sym (slow_after-going k c buf quiet plain (after_lines s pos) _ h)))))

  pub lines_from-Next :
      (pos start end : ℕ)
      → Next c buf pos start end
      → lines_of c buf start (length buf) ≡ (start, end) ∷ lines_of c buf end (length buf)
  lines_from-Next pos start end n =
      lines-join (line_term c) buf start end (length buf) (let x = n.nonempty in omega arith)
        n.in_buffer (omega arith) n.end_at
      ∙ ap (λ z. z ++ lines_of c buf end (length buf)) n.one_line

  no-context : (ltb 0 (max_context c)) ≡ false → (c.after_context ≡ 0) × (c.before_context ≡ 0)
  no-context e = elim (Bool-cases (ltb c.after_context c.before_context)) [
    | inl d ↦
        let h : (if true then c.before_context else c.after_context) ≡ 0 = (rw d at (not_lt _ e)) in
        absurd (ground arith)
    | inr d ↦ let h : c.after_context ≡ 0 = (rw d at (not_lt _ e)) in (h, ground arith)
  ]
    where
      not_lt : (n : ℕ) → ltb 0 n ≡ false → n ≡ 0
      not_lt n h = ground arith

  before-zero :
      (o : Output σ) (upto : ℕ)
      → c.before_context ≡ 0
      → before_context_by_line k c buf o upto ≡ (o, more)
  unfolding before_context_by_line
  before-zero o upto h = rw ((==_iff c.before_context 0).1 h) refl

  context_of :
      (s : State σ) (start : ℕ)
      → s.out.after_context_left ≤ c.after_context
      → (if ltb 0 (max_context c)
          then and_then
              (after_context_by_line k c buf s.out start)
              (λ o. before_context_by_line k c buf o start)
          else (s.out, more))
        ≡ before_context_by_line k c buf (after_lines s start).out start
  context_of s start h = elim (Bool-cases (ltb 0 (max_context c))) [
    | inl e ↦ rw (e, after_context_by_line-drain k c buf quiet s.out start) refl
    | inr e ↦
        let (a, b) = no-context e in
        let same : (after_lines s start).out ≡ s.out =
          drain-over k c buf quiet s.out (lines_of c buf s.out.last_line_visited start)
            (omega arith) in
        rw e (sym (before-zero (after_lines s start).out start b ∙ ap (λ o. (o, more)) same))
  ]

  -- What `matchByLineFast` emits before a match is what the scan line by line does.
  pub fast_match-slow :
      (s : State σ) (start end : ℕ)
      → s.out.after_context_left ≤ c.after_context
      → fast_match k c buf s (start, end) ≡ slow_match k c buf (after_lines s start) (start, end)
  unfolding fast_match slow_match
  fast_match-slow s start end h =
      ap
        (λ z. and_then (within (counted s) z) (λ s1.
          and_then (within s1 (sink_matched k c buf s1.out start end))
            (λ s2. (limited c s2, more))))
        (context_of s start h)

  limited-out : (s : State σ) → (limited c s).out ≡ s.out
  limited-out s = elim (Bool-cases (at_limit c.max_count s.match_count)) [
    | inl e ↦ rw e refl
    | inr e ↦ rw e refl
  ]

  sink-visited :
      (s : State σ) (start end : ℕ)
      → (and_then (within s (sink_matched k c buf s.out start end)) (λ s2. (limited c s2, more))).1
        ≡ more
      → ((and_then
            (within s (sink_matched k c buf s.out start end))
            (λ s2. (limited c s2, more))).0.out.last_line_visited
          ≡ end)
        × ((and_then
              (within s (sink_matched k c buf s.out start end))
              (λ s2. (limited c s2, more))).0.out.after_context_left
            ≡ c.after_context)
  sink-visited s start end taken =
      let m = within s (sink_matched k c buf s.out start end) in
      let went : m.1 ≡ more = went_on m (λ s2. limited c s2) taken in
      let first = and_then-more m (λ s2. (limited c s2, more)) went in
      let (v, l) = sink_matched-more k c buf s.out start end went in
      (
        ap (λ (z : Step (State σ)). z.0.out.last_line_visited) first
            ∙ (ap (λ (z : Output σ). z.last_line_visited) (limited-out m.0) ∙ v),
        ap (λ (z : Step (State σ)). z.0.out.after_context_left) first
            ∙ (ap (λ (z : Output σ). z.after_context_left) (limited-out m.0) ∙ l),
      )

  -- After a match that the sink takes, its line was visited.
  pub slow_match-visited :
      (s : State σ) (start end : ℕ)
      → (slow_match k c buf s (start, end)).1 ≡ more
      → ((slow_match k c buf s (start, end)).0.out.last_line_visited ≡ end)
        × ((slow_match k c buf s (start, end)).0.out.after_context_left ≡ c.after_context)
  unfolding slow_match
  slow_match-visited s start end taken =
      let m = within (counted s) (before_context_by_line k c buf s.out start) in
      let first =
        and_then-more m
          (λ s1.
            and_then (within s1 (sink_matched k c buf s1.out start end))
              (λ s2. (limited c s2, more)))
          (before_context_by_line-more k c buf quiet s.out start) in
      let (v, l) =
        sink-visited m.0 start end (sym (ap (λ (z : Step (State σ)). z.1) first) ∙ taken) in
      (
        ap (λ (z : Step (State σ)). z.0.out.last_line_visited) first ∙ v,
        ap (λ (z : Step (State σ)). z.0.out.after_context_left) first ∙ l,
      )
