-- ===== src/Search/Core/Equal.antt =====
-- search/core.go: `matchByLineFast` answers as `matchByLineSlow` does.
use gripgrep.Base.{
  ℕ, zero, suc, ◌+◌, ◌≤◌, ◌<◌, ◌≡◌, refl, sym, ap, ◌∙◌, ◌⊎◌, inl, inr, true, false, not, ◌||◌,
  Option, none, some, List, [], ◌∷◌, arith, ltb, if◌then◌else◌, Bool-cases, Bytes, length,
}
use gripgrep.Search.Lines.{Range}
use gripgrep.Search.Lines.Region.{Boundary, lines-nil, lines-nonempty}
use gripgrep.Search.Core.{Config, Sink, State, Step, and_then, line_term, lines_of}
use gripgrep.Search.Core.Slow.{slow_each, match_by_line_slow}
use gripgrep.Search.Core.Drain.{TakesContext, drain-over}
use gripgrep.Search.Core.Owed.{
  slow_after, drained, slow_after-going, slow_after-limit, slow_each-other, limited-is_success,
}
use gripgrep.Search.Core.Fast.{
  gap_bounds, find_by_line_fast, gap, fast_match, fast_rest, fast_turn, fast_from,
  match_by_line_fast,
}
use gripgrep.Search.Core.Find.{Finds, Found, find_by_line_fast-Found}
use gripgrep.Search.Core.Agree.{after_lines, Ready, Agrees, done, none-slow}
use gripgrep.Search.Core.Matched.{match-slow}
use gripgrep.Search.Core.Inverted.{last_gap-slow, gap-slow}

nil-or-cons {ℓ} :
    {A : Type ℓ} → (xs : List A) → (xs ≡ []) ⊎ ((x : A) × (ys : List A) × (xs ≡ x ∷ ys))
nil-or-cons [] = inl refl
nil-or-cons (x ∷ xs) = inr (x, xs, refl)

module _ {σ : Type 0} (k : Sink σ) (c : Config) (buf : Bytes) (quiet : TakesContext k)
    (plain : c.pass_thru ≡ false) (laws : Finds c buf) where
  fast_turn-inverted :
      (s : State σ) (pos : ℕ) (found : Option Range)
      → c.invert ≡ true
      → fast_turn k c buf s pos found
        ≡ some (gap k c buf s pos (gap_bounds buf found).0, (gap_bounds buf found).1)
  unfolding fast_turn
  fast_turn-inverted s pos found h =
      ap
        (λ b.
          if b
          then some (gap k c buf s pos (gap_bounds buf found).0, (gap_bounds buf found).1)
          else (elim found [ none ↦ none | some r ↦ some (fast_match k c buf s r, r.1) ]))
        h

  fast_turn-straight :
      (s : State σ) (pos : ℕ) (found : Option Range)
      → c.invert ≡ false
      → fast_turn k c buf s pos found
        ≡ (elim found [ none ↦ none | some r ↦ some (fast_match k c buf s r, r.1) ])
  unfolding fast_turn
  fast_turn-straight s pos found h =
      ap
        (λ b.
          if b
          then some (gap k c buf s pos (gap_bounds buf found).0, (gap_bounds buf found).1)
          else (elim found [ none ↦ none | some r ↦ some (fast_match k c buf s r, r.1) ]))
        h

  -- How the loop goes on from a turn.
  abbrev turned : ℕ → State σ → Option (Step (State σ) × ℕ) → Step (State σ)
  turned fuel s none = fast_rest k c buf s
  turned fuel s (some (step, onward)) = and_then step (λ s'. fast_from k c buf fuel onward s')

  turn-slow :
      (fuel pos : ℕ) (s : State σ) (found : Option Range)
      → Ready k c buf quiet plain laws (suc fuel) pos s
      → pos < length buf
      → s.match_limit_reached ≡ false
      → Found c buf pos found
      → ((onward : ℕ) (s' : State σ)
          → Ready k c buf quiet plain laws fuel onward s'
          → Agrees k c buf quiet plain laws fuel onward s')
      → turned fuel s (fast_turn k c buf s pos found)
        ≡ slow_after k c buf
            (after_lines k c buf quiet plain laws s pos)
            (lines_of c buf pos (length buf))
  turn-slow fuel pos s none r lt h u later = elim (Bool-cases c.invert) [
    | inl i ↦
        ap (turned fuel s) (fast_turn-inverted s pos none i)
        ∙ last_gap-slow k c buf quiet plain laws fuel pos s r lt h i u (later (length buf))
    | inr i ↦
        ap (turned fuel s) (fast_turn-straight s pos none i)
        ∙ none-slow k c buf quiet plain laws (suc fuel) pos s r h i u
  ]
  turn-slow fuel pos s (some (start, end)) r lt h n later = elim (Bool-cases c.invert) [
    | inl i ↦
        ap (turned fuel s) (fast_turn-inverted s pos (some (start, end)) i)
        ∙ gap-slow k c buf quiet plain laws fuel pos s start end r h i n (later end)
    | inr i ↦
        ap (turned fuel s) (fast_turn-straight s pos (some (start, end)) i)
        ∙ match-slow k c buf quiet plain laws fuel pos s start end r h i n (later end)
  ]

  fast_from-out :
      (fuel pos : ℕ) (s : State σ)
      → (not (ltb pos (length buf)) || s.match_limit_reached) ≡ true
      → fast_from k c buf (suc fuel) pos s ≡ fast_rest k c buf s
  unfolding fast_from
  fast_from-out fuel pos s h = rw h refl

  fast_from-turn :
      (fuel pos : ℕ) (s : State σ)
      → (not (ltb pos (length buf)) || s.match_limit_reached) ≡ false
      → fast_from k c buf (suc fuel) pos s
        ≡ turned fuel s (fast_turn k c buf s pos (find_by_line_fast (length buf + 1) c buf pos))
  unfolding fast_from
  fast_from-turn fuel pos s h = rw h refl

  -- The loop, from wherever it may stand.
  fast_from-slow :
      (fuel pos : ℕ) (s : State σ)
      → Ready k c buf quiet plain laws fuel pos s
      → Agrees k c buf quiet plain laws fuel pos s
  fast_from-slow zero pos s r = absurd (let a = r.enough_fuel in let b = r.in_buffer in omega arith)
  fast_from-slow (suc fuel) pos s r = elim (Bool-cases (ltb pos (length buf))) [
    | inr e ↦
        let b = r.in_buffer in
        fast_from-out fuel pos s (simp e refl)
        ∙ done k c buf quiet plain laws (suc fuel) pos s r (inl (ground arith))
    | inl e ↦ elim (Bool-cases s.match_limit_reached) [
      | inl h ↦
          fast_from-out fuel pos s (simp (e, h) refl)
          ∙ done k c buf quiet plain laws (suc fuel) pos s r (inr h)
      | inr h ↦
          fast_from-turn fuel pos s (simp (e, h) refl)
          ∙ turn-slow fuel pos s (find_by_line_fast (length buf + 1) c buf pos) r (ground arith) h
              (find_by_line_fast-Found c buf laws (length buf + 1) pos (omega arith) r.in_buffer
                r.boundary)
              (λ onward s' r'. fast_from-slow fuel onward s' r')
    ]
  ]

  -- Before the first of some lines, the scan does not yet ask whether it is over.
  slow_after-cons :
      (s : State σ) (r : Range) (rs : List Range)
      → slow_after k c buf s (r ∷ rs) ≡ slow_each k c buf s (r ∷ rs)
  slow_after-cons s r rs = elim (Bool-cases s.match_limit_reached) [
    | inr h ↦ slow_after-going k c buf quiet plain s (r ∷ rs) h
    | inl h ↦
        slow_after-limit k c buf quiet plain s (r ∷ []) rs h
        ∙ sym (
            slow_each-other k c buf quiet plain s r rs
              (limited-is_success k c buf quiet plain s r h))
  ]

  slow_after-lines :
      (s : State σ) (pos : ℕ)
      → pos < length buf
      → slow_after k c buf s (lines_of c buf pos (length buf))
        ≡ slow_each k c buf s (lines_of c buf pos (length buf))
  slow_after-lines s pos h = elim (nil-or-cons (lines_of c buf pos (length buf))) [
    | inl e ↦ absurd (lines-nonempty (line_term c) buf pos (length buf) h (omega arith) e)
    | inr (r, rs, e) ↦
        ap (slow_after k c buf s) e ∙ (slow_after-cons s r rs ∙ ap (slow_each k c buf s) (sym e))
  ]

  nothing-owed :
      (s : State σ) (pos : ℕ)
      → (s.out.after_context_left ≡ 0) ⊎ (s.out.last_line_visited ≡ pos)
      → after_lines k c buf quiet plain laws s pos ≡ s
  nothing-owed s pos (inl e) =
      ap (λ o. record s { out = o })
        (drain-over k c buf quiet s.out (lines_of c buf s.out.last_line_visited pos) e)
  nothing-owed s pos (inr e) =
      ap (drained k c buf quiet plain s)
        (lines-nil (line_term c) buf s.out.last_line_visited pos (omega arith))

  -- If on the buffer the matcher finds candidates only in range, passes over no line that matches
  -- and confirms only lines that match, if the sink takes all context, without `--passthru`, and
  -- from a position where a line can start, with no more context owed than `AfterContext` and none
  -- owed for a line before the position: `matchByLineFast` answers as `matchByLineSlow` does and
  -- leaves the same state of the search and of the sink, the position aside; with or without
  -- inversion, context, line numbers and a limit.
  pub match_by_line_fast-slow :
      (pos : ℕ) (s : State σ)
      → pos < length buf
      → Boundary (line_term c) buf pos
      → s.out.last_line_visited ≤ pos
      → s.out.after_context_left ≤ c.after_context
      → (s.out.after_context_left ≡ 0) ⊎ (s.out.last_line_visited ≡ pos)
      → match_by_line_fast k c buf pos s ≡ match_by_line_slow k c buf pos s
  unfolding match_by_line_fast match_by_line_slow
  match_by_line_fast-slow pos s h d v l w =
      fast_from-slow (length buf + 1) pos s record {
        behind = v;
        owed = l;
        enough_fuel = omega arith;
        in_buffer = omega arith;
        boundary = d;
      }
      ∙ (ap (λ z. slow_after k c buf z (lines_of c buf pos (length buf))) (nothing-owed s pos w)
          ∙ slow_after-lines s pos h)
