-- ===== src/Search/Run.antt =====
-- search/core.go and search/search.go: `matchByLine`, `runChunk` and `rollConsume`.
use gripgrep.Base.{
  ℕ, ◌+◌, ◌-◌, ◌≤◌, ◌<◌, ◌≡◌, refl, sym, ap, ◌∙◌, subst, inl, inr, Bool, true, false, not, ◌&&◌,
  Option, none, some, arith, ltb, leb, ◌==◌, if◌then◌else◌, ==_iff, Bool-cases, Bytes, length,
}
use gripgrep.Search.Lines.{line_preceding}
use gripgrep.Search.Lines.Region.{lines-nil}
use gripgrep.Search.Core.{
  Config, more, Sink, Output, State, Step, line_term, max_context, reset_run, is_fast_path,
  count_lines, at_limit, limit_at_start,
}
use gripgrep.Search.Core.Slow.{slow_each, match_by_line_slow}
use gripgrep.Search.Core.Fast.{match_by_line_fast}
use gripgrep.Search.Core.Drain.{TakesContext}
use gripgrep.Search.Core.Find.{Finds}
use gripgrep.Search.Core.Limit.{WithinLimit, Counting, match_by_line_slow-WithinLimit}
use gripgrep.Search.Core.Equal.{match_by_line_fast-slow}

unfoldable pub match_by_line : {σ : Type 0} → Sink σ → Config → Bytes → ℕ → State σ → Step (State σ)
unfolding is_fast_path match_by_line_fast match_by_line_slow
match_by_line k c buf pos s =
    if is_fast_path c then match_by_line_fast k c buf pos s else match_by_line_slow k c buf pos s

-- The answer is `failed` where the code returns an error.
unfoldable pub run_chunk : {σ : Type 0} → Sink σ → Config → Bytes → ℕ → ℕ → σ → Step (State σ)
unfolding match_by_line
run_chunk k c text base line_base t =
    if length text == 0
    then (reset_run c base line_base t, more)
    else match_by_line k c text 0 (reset_run c base line_base t)

-- How many bytes may go.
abbrev pub consumed : {σ : Type 0} → Config → Bytes → Output σ → ℕ
consumed c buf o =
    if max_context c == 0
    then length buf
    else let start = line_preceding buf (line_term c) c.before_context in
      if ltb start o.last_line_visited then o.last_line_visited else start

-- `rollConsume`, which also gives the place where the scan goes on.
unfoldable pub roll_consume : {σ : Type 0} → Config → Bytes → Output σ → Output σ × ℕ × ℕ
unfolding count_lines
roll_consume c buf o =
    let n = consumed c buf o in
    let o1 = count_lines c buf o n in
    (
      record o1 {
        abs_offset_base = o1.abs_offset_base + n;
        last_line_counted = 0;
        last_line_visited = 0;
      },
      length buf - n,
      n,
    )

and-left_false : (a b : Bool) → a ≡ false → (a && b) ≡ false
and-left_false a b e = rw e refl

and-not-true : (a b : Bool) → b ≡ true → (a && not b) ≡ false
and-not-true true b e = rw e refl
and-not-true false b e = refl

module _ {σ : Type 0} (k : Sink σ) (c : Config) (text : Bytes) where
  match_by_line-choice :
      (s : State σ) (b : Bool)
      → is_fast_path c ≡ b
      → match_by_line k c text 0 s
        ≡ (if b then match_by_line_fast k c text 0 s else match_by_line_slow k c text 0 s)
  unfolding match_by_line
  match_by_line-choice s b e =
      ap (λ z. if z then match_by_line_fast k c text 0 s else match_by_line_slow k c text 0 s) e

  is_fast_path-and : is_fast_path c ≡ (c.matcher.non_matching_line_term && not c.pass_thru)
  unfolding is_fast_path
  is_fast_path-and = refl

  match_by_line-slow :
      (s : State σ)
      → TakesContext k
      → Finds c text
      → 0 < length text
      → s.out.last_line_visited ≤ 0
      → s.out.after_context_left ≡ 0
      → match_by_line k c text 0 s ≡ match_by_line_slow k c text 0 s
  match_by_line-slow s quiet laws h v l = elim (Bool-cases c.matcher.non_matching_line_term) [
    | inr e ↦ match_by_line-choice s false (is_fast_path-and ∙ and-left_false _ _ e)
    | inl e ↦ elim (Bool-cases c.pass_thru) [
      | inl p ↦ match_by_line-choice s false (is_fast_path-and ∙ and-not-true _ _ p)
      | inr p ↦
          match_by_line-choice s true (is_fast_path-and ∙ simp (e, p) refl)
          ∙ match_by_line_fast-slow k c text quiet p laws 0 s h (inl (inl refl)) v (omega arith)
              (inl l)
    ]
  ]

  no_lines : (s : State σ) → length text ≡ 0 → match_by_line_slow k c text 0 s ≡ (s, more)
  unfolding match_by_line_slow slow_each
  no_lines s e =
      ap (slow_each k c text s) (lines-nil (line_term c) text 0 (length text) (omega arith))

  run_chunk-choice :
      (base line_base : ℕ) (t : σ) (b : Bool)
      → (length text == 0) ≡ b
      → run_chunk k c text base line_base t ≡ (
          if b
          then (reset_run c base line_base t, more)
          else match_by_line k c text 0 (reset_run c base line_base t))
  unfolding run_chunk
  run_chunk-choice base line_base t b e =
      ap
        (λ z.
          if z
          then (reset_run c base line_base t, more)
          else match_by_line k c text 0 (reset_run c base line_base t))
        e

  -- If on the text the matcher finds candidates only in range, passes over no line that matches and
  -- confirms only lines that match, and if the sink takes all context, `runChunk` answers as a scan
  -- line by line from the state that it sets, and leaves the same state of the search and of the
  -- sink, whichever path it takes, and on an empty text too.
  pub run_chunk-slow :
      (base line_base : ℕ) (t : σ)
      → TakesContext k
      → Finds c text
      → run_chunk k c text base line_base t
        ≡ match_by_line_slow k c text 0 (reset_run c base line_base t)
  run_chunk-slow base line_base t quiet laws = elim (Bool-cases (length text == 0)) [
    | inl e ↦
        run_chunk-choice base line_base t true e
        ∙ sym (no_lines (reset_run c base line_base t) ((==_iff (length text) 0).0 e))
    | inr e ↦
        run_chunk-choice base line_base t false e
        ∙ match_by_line-slow (reset_run c base line_base t) quiet laws (ground arith) (omega arith)
            refl
  ]

  reset_run-Counting : (base line_base : ℕ) (t : σ) → Counting c (reset_run c base line_base t)
  reset_run-Counting base line_base t = record {
    count = none_yet c.max_count;
    flag = at_zero c.max_count;
  }
    where
      none_yet : (m : Option ℕ) → WithinLimit m 0
      none_yet none = tt
      none_yet (some n) = omega arith

      at_zero : (m : Option ℕ) → limit_at_start m ≡ at_limit m 0
      at_zero none = refl
      at_zero (some n) = elim (Bool-cases (leb n 0)) [
        | inl e ↦ let q : (n == 0) ≡ true = ground arith in q ∙ sym e
        | inr e ↦ let q : (n == 0) ≡ false = ground arith in q ∙ sym e
      ]

  -- Without `--passthru`, if on the text the matcher finds candidates only in range, passes over no
  -- line that matches and confirms only lines that match, and if the sink takes all context,
  -- `runChunk` counts no more matches than the limit of `-m`, on either path.
  pub run_chunk-WithinLimit :
      (base line_base : ℕ) (t : σ)
      → TakesContext k
      → Finds c text
      → c.pass_thru ≡ false
      → WithinLimit c.max_count (run_chunk k c text base line_base t).0.match_count
  run_chunk-WithinLimit base line_base t quiet laws plain =
      let h =
        match_by_line_slow-WithinLimit k c text plain 0 (reset_run c base line_base t)
          (reset_run-Counting base line_base t) in
      subst (λ (m : Step (State σ)). WithinLimit c.max_count m.0.match_count)
        (sym (run_chunk-slow base line_base t quiet laws)) h.count
