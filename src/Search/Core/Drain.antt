-- ===== src/Search/Core/Drain.antt =====
-- search/core.go: the lines of context after a match, under a sink that takes all context.
use gripgrep.Base.{
  ℕ, ◌≤◌, ◌≡◌, refl, sym, ap, ◌∙◌, inl, inr, Bool, true, false, List, [], ◌∷◌, ◌++◌, arith, leb,
  ◌==◌, if◌then◌else◌, ==_iff, Bool-cases, Bytes,
}
use gripgrep.Search.Lines.{Range}
use gripgrep.Search.Core.{
  sent, match_at, ctx_at, Config, Ctx, Reply, more, enough, failed, Sink, Output, Step, and_then,
  visited, count_lines, sink_matched, sink_context, lines_of, before_each, before_context_by_line,
  after_each, after_context_by_line, one_less,
}

-- A sink that never stops the search, and does not fail, at a line of context.
abbrev pub TakesContext : {σ : Type 0} → Sink σ → Type 0
TakesContext {σ} k = (x : Ctx) (t : σ) → (k.context x t).1 ≡ more

-- Steps in a row.
module _ {S : Type 0} where
  pub and_then_assoc :
      (m : Step S) (f g : S → Step S)
      → and_then (and_then m f) g ≡ and_then m (λ s. and_then (f s) g)
  and_then_assoc (s, more) f g = refl
  and_then_assoc (s, enough) f g = refl
  and_then_assoc (s, failed) f g = refl

  -- What follows a step matters only where the step goes on.
  pub and_then-same :
      (m : Step S) (f g : S → Step S) → (m.1 ≡ more → f m.0 ≡ g m.0) → and_then m f ≡ and_then m g
  and_then-same (s, more) f g h = h refl
  and_then-same (s, enough) f g h = refl
  and_then-same (s, failed) f g h = refl

  pub and_then-more : (m : Step S) (f : S → Step S) → m.1 ≡ more → and_then m f ≡ f m.0
  and_then-more (s, more) f h = refl
  and_then-more (s, enough) f h = cc h
  and_then-more (s, failed) f h = cc h

  pub step-more : (m : Step S) → m.1 ≡ more → m ≡ (m.0, more)
  step-more (s, r) h = ap (λ z. (s, z)) h

module _ {σ : Type 0} (k : Sink σ) (c : Config) (buf : Bytes) where
  count_lines-rest :
      (o : Output σ) (upto : ℕ)
      → ((count_lines c buf o upto).after_context_left ≡ o.after_context_left)
        × ((count_lines c buf o upto).last_line_visited ≡ o.last_line_visited)
  unfolding count_lines
  count_lines-rest o upto = elim (Bool-cases c.line_numbers) [
    | inr e ↦ simp e (refl, refl)
    | inl e ↦ elim (Bool-cases (leb upto o.last_line_counted)) [
      | inl d ↦ simp (e, d) (refl, refl)
      | inr d ↦ simp (e, d) (refl, refl)
    ]
  ]

  sent-more :
      (o : Output σ) (p : σ × Reply) (g : Output σ → Output σ)
      → (and_then (sent o p) (λ s. (g s, more))).1 ≡ more
      → (p.1 ≡ more)
        × (and_then (sent o p) (λ s. (g s, more)) ≡ (g (record o { sink = p.0 }), more))
  sent-more o (t, more) g h = (refl, refl)
  sent-more o (t, enough) g h = cc h
  sent-more o (t, failed) g h = cc h

  sent-taken :
      (o : Output σ) (p : σ × Reply) (g : Output σ → Output σ)
      → p.1 ≡ more
      → and_then (sent o p) (λ s. (g s, more)) ≡ (g (record o { sink = p.0 }), more)
  sent-taken o (t, more) g h = refl
  sent-taken o (t, enough) g h = cc h
  sent-taken o (t, failed) g h = cc h

  -- After a match that the sink takes, its line was visited, and context is owed.
  pub sink_matched-more :
      (o : Output σ) (a b : ℕ)
      → (sink_matched k c buf o a b).1 ≡ more
      → ((sink_matched k c buf o a b).0.last_line_visited ≡ b)
        × ((sink_matched k c buf o a b).0.after_context_left ≡ c.after_context)
  unfolding sink_matched
  sink_matched-more o a b h =
      let q =
        (sent-more (count_lines c buf o a)
          (k.matched (match_at c buf (count_lines c buf o a) a b) (count_lines c buf o a).sink)
          (λ s. record s { last_line_visited = b; after_context_left = c.after_context }) h).1 in
      (
        ap (λ (z : Step (Output σ)). z.0.last_line_visited) q,
        ap (λ (z : Step (Output σ)). z.0.after_context_left) q,
      )

  module _ (quiet : TakesContext k) where
    abbrev pub ctx : Output σ → Range → Bool → Output σ
    ctx o (a, b) after = (sink_context k c buf o a b after).0

    sink_context-eq :
        (o : Output σ) (a b : ℕ) (after : Bool)
        → sink_context k c buf o a b after ≡ (
          visited
              (record (count_lines c buf o a) {
                sink =
                    (k.context
                      (ctx_at c buf (count_lines c buf o a) a b after)
                      (count_lines c buf o a).sink).0;
              })
              b,
          more,
        )
    unfolding sink_context
    sink_context-eq o a b after =
        sent-taken (count_lines c buf o a) _ (λ s. visited s b) (quiet _ _)

    sink_context-more :
        (o : Output σ) (a b : ℕ) (after : Bool) → (sink_context k c buf o a b after).1 ≡ more
    sink_context-more o a b after = ap (λ (z : Step (Output σ)). z.1) (sink_context-eq o a b after)

    ctx-left :
        (o : Output σ) (r : Range) (after : Bool)
        → (ctx o r after).after_context_left ≡ o.after_context_left
    ctx-left o (a, b) after =
        ap (λ (z : Step (Output σ)). z.0.after_context_left) (sink_context-eq o a b after)
        ∙ (count_lines-rest o a).0

    -- The context owed, taken from a list of lines.
    abbrev pub drain : Output σ → List Range → Output σ
    drain o [] = o
    drain o (r ∷ rs) =
        let rest = drain (one_less (ctx o r true)) rs in
        if o.after_context_left == 0 then o else rest

    pub drain-over : (o : Output σ) (rs : List Range) → o.after_context_left ≡ 0 → drain o rs ≡ o
    drain-over o [] h = refl
    drain-over o (r ∷ rs) h = rw ((==_iff o.after_context_left 0).1 h) refl

    pub drain-append :
        (o : Output σ) (rs qs : List Range) → drain o (rs ++ qs) ≡ drain (drain o rs) qs
    drain-append o [] qs = refl
    drain-append o (r ∷ rs) qs = elim (Bool-cases (o.after_context_left == 0)) [
      | inl e ↦ rw e (sym (drain-over o qs ((==_iff o.after_context_left 0).0 e)))
      | inr e ↦ rw e (drain-append (one_less (ctx o r true)) rs qs)
    ]

    pub drain-left :
        (o : Output σ) (rs : List Range) → (drain o rs).after_context_left ≤ o.after_context_left
    drain-left o [] = omega arith
    drain-left o (r ∷ rs) = elim (Bool-cases (o.after_context_left == 0)) [
      | inl e ↦ rw e (omega arith)
      | inr e ↦
          let h = drain-left (one_less (ctx o r true)) rs in
          let l = ctx-left o r true in rw e (omega arith)
    ]

    -- A line of context that is owed.
    pub owed-drain :
        (o : Output σ) (a b : ℕ)
        → (o.after_context_left == 0) ≡ false
        → and_then (sink_context k c buf o a b true) (λ o'. (one_less o', more))
          ≡ (drain o ((a, b) ∷ []), more)
    owed-drain o a b h =
        and_then-more (sink_context k c buf o a b true) (λ o'. (one_less o', more))
          (sink_context-more o a b true)
        ∙ rw h refl

    after_each-drain :
        (o : Output σ) (rs : List Range)
        → (o.after_context_left == 0) ≡ false
        → after_each k c buf o rs ≡ (drain o rs, more)
    unfolding after_each
    after_each-drain o [] h = refl
    after_each-drain o ((a, b) ∷ rs) h =
        and_then-more (sink_context k c buf o a b true) _ (sink_context-more o a b true)
        ∙ elim (Bool-cases ((one_less (ctx o (a, b) true)).after_context_left == 0)) [
          | inl e ↦
              simp (h, e)
                (ap (λ z. (z, more))
                  (sym (drain-over (one_less (ctx o (a, b) true)) rs ((==_iff _ 0).0 e))))
          | inr e ↦ simp (h, e) (after_each-drain (one_less (ctx o (a, b) true)) rs e)
        ]

    pub after_context_by_line-drain :
        (o : Output σ) (upto : ℕ)
        → after_context_by_line k c buf o upto
          ≡ (drain o (lines_of c buf o.last_line_visited upto), more)
    unfolding after_context_by_line
    after_context_by_line-drain o upto = elim (Bool-cases (o.after_context_left == 0)) [
      | inl e ↦
          rw e (ap (λ z. (z, more)) (sym (drain-over o _ ((==_iff o.after_context_left 0).0 e))))
      | inr e ↦ rw e (after_each-drain o _ e)
    ]

    before_each-more : (o : Output σ) (rs : List Range) → (before_each k c buf o rs).1 ≡ more
    unfolding before_each
    before_each-more o [] = refl
    before_each-more o ((a, b) ∷ rs) =
        ap (λ (z : Step (Output σ)). z.1)
          (and_then-more (sink_context k c buf o a b false) (λ o'. before_each k c buf o' rs)
            (sink_context-more o a b false))
        ∙ before_each-more (ctx o (a, b) false) rs

    pub before_context_by_line-more :
        (o : Output σ) (upto : ℕ) → (before_context_by_line k c buf o upto).1 ≡ more
    unfolding before_context_by_line
    before_context_by_line-more o upto = elim (Bool-cases (c.before_context == 0)) [
      | inl e ↦ rw e refl
      | inr e ↦ elim (Bool-cases (leb upto o.last_line_visited)) [
        | inl d ↦ simp (e, d) refl
        | inr d ↦ simp (e, d) (before_each-more o _)
      ]
    ]
