-- ===== src/Search/Core/Limit.antt =====
-- search/core.go: `-m`, the limit on the matches of a file, in `matchByLineSlow`.
use gripgrep.Base.{
  ℕ, ◌+◌, ◌≤◌, ◌≡◌, refl, sym, ◌∙◌, subst, inl, inr, Bool, true, false, not, ◌&&◌, Option, none,
  some, List, [], ◌∷◌, arith, leb, if◌then◌else◌, Bool-cases, Bytes, length,
}
use gripgrep.Search.Lines.{Range}
use gripgrep.Search.Core.{
  Config, more, enough, failed, Sink, Output, State, Step, and_then, within, lines_of, at_limit,
  counted, limited, verifies, sink_matched, before_context_by_line,
}
use gripgrep.Search.Core.Slow.{
  differ, is_success, slow_match, slow_other, is_over, slow_line, slow_each, match_by_line_slow,
}

-- The count is within the limit.
abbrev pub WithinLimit : Option ℕ → ℕ → Type 0
WithinLimit none count = Unit
WithinLimit (some n) count = count ≤ n

-- What holds between two lines: the flag of the limit is what the count says.
pub record Counting {σ : Type 0} (c : Config) (s : State σ) : Type 0 where
  pub count : WithinLimit c.max_count s.match_count
  pub flag : s.match_limit_reached ≡ at_limit c.max_count s.match_count

-- What holds of a step: the count is within the limit, and the flag is right where the scan goes on.
pub record Counted {σ : Type 0} (c : Config) (m : Step (State σ)) : Type 0 where
  pub count : WithinLimit c.max_count m.0.match_count
  pub flag : m.1 ≡ more → m.0.match_limit_reached ≡ at_limit c.max_count m.0.match_count

module _ {σ : Type 0} (k : Sink σ) (c : Config) (buf : Bytes) (plain : c.pass_thru ≡ false) where
  one_more : (m : Option ℕ) (n : ℕ) → at_limit m n ≡ false → WithinLimit m (n + 1)
  one_more none n h = tt
  one_more (some l) n h = ground arith

  -- Steps of the output leave the count and the flag.
  Counted-then :
      (s : State σ) (x : Step (Output σ)) (f : State σ → Step (State σ))
      → WithinLimit c.max_count s.match_count
      → ((o : Output σ) → Counted c (f (record s { out = o })))
      → Counted c (and_then (within s x) f)
  Counted-then s (o, more) f h later = later o
  Counted-then s (o, enough) f h later = record { count = h; flag = λ e. cc e }
  Counted-then s (o, failed) f h later = record { count = h; flag = λ e. cc e }

  limited-flag :
      (s : State σ)
      → s.match_limit_reached ≡ false
      → ((limited c s).match_limit_reached ≡ at_limit c.max_count (limited c s).match_count)
        × ((limited c s).match_count ≡ s.match_count)
  limited-flag s h = elim (Bool-cases (at_limit c.max_count s.match_count)) [
    | inl e ↦ rw e (sym e, refl)
    | inr e ↦ rw e (h ∙ sym e, refl)
  ]

  slow_match-Counted :
      (s : State σ) (r : Range)
      → Counting c s
      → s.match_limit_reached ≡ false
      → Counted c (slow_match k c buf s r)
  unfolding slow_match
  slow_match-Counted s (a, b) i h =
      let next = one_more c.max_count s.match_count (sym i.flag ∙ h) in
      Counted-then (counted s) (before_context_by_line k c buf s.out a) _ next (λ o.
        Counted-then (record (counted s) { out = o }) (sink_matched k c buf o a b) _ next
          (λ o2.
            let (f, q) = limited-flag (record (counted s) { out = o2 }) h in
            record { count = subst (WithinLimit c.max_count) (sym q) next; flag = λ _. f }))

  stays : (s : State σ) (x : Step (Output σ)) → Counting c s → Counted c (within s x)
  stays s (o, r) i = record { count = i.count; flag = λ _. i.flag }

  slow_other-Counted : (s : State σ) (r : Range) → Counting c s → Counted c (slow_other k c buf s r)
  unfolding slow_other
  slow_other-Counted s (a, b) i = elim (Bool-cases (leb 1 s.out.after_context_left)) [
    | inl e ↦ rw e (stays s _ i)
    | inr e ↦ simp (e, plain) (record { count = i.count; flag = λ _. i.flag })
  ]

  success-limit :
      (s : State σ) (r : Range) → is_success c buf s r ≡ true → s.match_limit_reached ≡ false
  unfolding is_success
  success-limit s r e = elim (Bool-cases s.match_limit_reached) [
    | inr h ↦ h
    | inl h ↦ absurd (
        no (differ (verifies c buf r) c.invert) s.match_limit_reached h (
          sym (
            straight s.match_limit_reached s.match_limit_reached_at_start c.invert
              (differ (verifies c buf r) c.invert && not s.match_limit_reached))
          ∙ e))
  ]
    where
      straight :
          (l m v x : Bool)
          → (if c.pass_thru && l && not m then v else if c.pass_thru && m then false else x) ≡ x
      straight l m v x = rw plain refl

      no : (a l : Bool) → l ≡ true → (a && not l) ≡ true → ⊥
      no true true h e = cc e
      no false true h e = cc e
      no a false h e = cc h

  line-Counted :
      (s : State σ) (r : Range)
      → Counting c s
      → Counted c (if is_success c buf s r then slow_match k c buf s r else slow_other k c buf s r)
  line-Counted s r i = elim (Bool-cases (is_success c buf s r)) [
    | inl e ↦
        subst (λ b. Counted c (if b then slow_match k c buf s r else slow_other k c buf s r))
          (sym e) (slow_match-Counted s r i (success-limit s r e))
    | inr e ↦
        subst (λ b. Counted c (if b then slow_match k c buf s r else slow_other k c buf s r))
          (sym e) (slow_other-Counted s r i)
  ]

  Counted-after :
      (m : Step (State σ)) (f : State σ → Step (State σ))
      → Counted c m
      → ((s : State σ) → Counting c s → Counted c (f s))
      → Counted c (and_then m f)
  Counted-after (s, more) f h later = later s record { count = h.count; flag = h.flag refl }
  Counted-after (s, enough) f h later = record { count = h.count; flag = λ e. cc e }
  Counted-after (s, failed) f h later = record { count = h.count; flag = λ e. cc e }

  ended : (s : State σ) (b : Bool) → Counting c s → Counted c (if b then (s, enough) else (s, more))
  ended s true i = record { count = i.count; flag = λ e. i.flag }
  ended s false i = record { count = i.count; flag = λ e. i.flag }

  slow_each-Counted :
      (s : State σ) (rs : List Range) → Counting c s → Counted c (slow_each k c buf s rs)
  unfolding slow_each slow_line
  slow_each-Counted s [] i = record { count = i.count; flag = λ e. i.flag }
  slow_each-Counted s (r ∷ rs) i =
      Counted-after (slow_line k c buf s r) (λ s'. slow_each k c buf s' rs)
        (Counted-after
          (if is_success c buf s r then slow_match k c buf s r else slow_other k c buf s r)
          (λ s1. if is_over c s1 then (s1, enough) else (s1, more)) (line-Counted s r i)
          (λ s1 j. ended s1 (is_over c s1) j))
        (λ s1 j. slow_each-Counted s1 rs j)

  -- Without `--passthru`, from a state whose count of matches is within the limit of `-m` and whose
  -- flag of the limit says whether the count has reached it, `matchByLineSlow` keeps the count
  -- within the limit, however the scan ends, and where the scan does not stop the flag still says
  -- so.
  pub match_by_line_slow-WithinLimit :
      (pos : ℕ) (s : State σ) → Counting c s → Counted c (match_by_line_slow k c buf pos s)
  unfolding match_by_line_slow
  match_by_line_slow-WithinLimit pos s i = slow_each-Counted s (lines_of c buf pos (length buf)) i
