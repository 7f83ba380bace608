-- ===== src/Search/Core/Matched.antt =====
-- search/core.go: a match of `matchByLineFast` against the scan line by line.
use gripgrep.Base.{
  ℕ, suc, ◌≤◌, ◌≡◌, refl, sym, ap, ◌∙◌, Bool, true, false, ◌∷◌, ◌++◌, arith, if◌then◌else◌, Bytes,
  length,
}
use gripgrep.Search.Lines.Region.{lines-join, lines-nil}
use gripgrep.Search.Core.{Config, Sink, State, and_then, line_term, lines_of, verifies}
use gripgrep.Search.Core.Slow.{differ, slow_match, slow_other, slow_each}
use gripgrep.Search.Core.Drain.{TakesContext, and_then-same}
use gripgrep.Search.Core.Owed.{
  slow_after, slow_each-cons, drained, slow_after-going, slow_each-Unwanted,
}
use gripgrep.Search.Core.Fast.{fast_match, fast_from}
use gripgrep.Search.Core.Find.{Finds, Next}
use gripgrep.Search.Core.Gap.{wanted-is_success}
use gripgrep.Search.Core.Agree.{
  after_lines, Ready, Agrees, after_lines-join, Unwanted-of, lines_from-Next, fast_match-slow,
  slow_match-visited,
}

differ-found : (v i : Bool) → v ≡ true → i ≡ false → differ v i ≡ true
differ-found v i h k = simp (h, k) refl

module _ {σ : Type 0} (k : Sink σ) (c : Config) (buf : Bytes) (quiet : TakesContext k)
    (plain : c.pass_thru ≡ false) (laws : Finds c buf) where
  -- The scan line by line, up to a match and over it.
  slow-at_match :
      (fuel pos : ℕ) (s : State σ) (start end : ℕ)
      → Ready k c buf quiet plain laws fuel pos s
      → s.match_limit_reached ≡ false
      → c.invert ≡ false
      → Next c buf pos start end
      → slow_after k c buf
          (after_lines k c buf quiet plain laws s pos)
          (lines_of c buf pos (length buf))
        ≡ and_then
            (slow_match k c buf (after_lines k c buf quiet plain laws s start) (start, end))
            (λ s1. slow_after k c buf s1 (lines_of c buf end (length buf)))
  slow-at_match fuel pos s start end r h i n =
      let later = (start, end) ∷ lines_of c buf end (length buf) in
      let below : start ≤ length buf = (let x = n.nonempty in let y = n.in_buffer in omega arith) in
      let first : differ (verifies c buf (start, end)) c.invert ≡ true =
        differ-found (verifies c buf (start, end)) c.invert n.matches i in
      slow_after-going k c buf quiet plain (after_lines k c buf quiet plain laws s pos) _ h
      ∙ (ap (slow_each k c buf (after_lines k c buf quiet plain laws s pos)) (
            lines-join (line_term c) buf pos start (length buf) n.ahead below (omega arith)
              n.start_at
            ∙ ap (λ z. lines_of c buf pos start ++ z)
                (lines_from-Next k c buf quiet plain laws pos start end n))
          ∙ (slow_each-Unwanted k c buf quiet plain (after_lines k c buf quiet plain laws s pos)
                (lines_of c buf pos start) later h
                (Unwanted-of k c buf quiet plain laws _ i n.skipped)
              ∙ (ap (λ z. slow_each k c buf z later)
                    (sym (
                      after_lines-join k c buf quiet plain laws s pos start r.behind n.ahead below
                        r.boundary))
                  ∙ (slow_each-cons k c buf (after_lines k c buf quiet plain laws s start)
                        (start, end) _
                      ∙ ap
                          (λ b.
                            and_then
                              (if b
                                then slow_match k c buf
                                    (after_lines k c buf quiet plain laws s start) (start, end)
                                else slow_other k c buf
                                    (after_lines k c buf quiet plain laws s start) (start, end))
                              (λ s1. slow_after k c buf s1 (lines_of c buf end (length buf))))
                          (wanted-is_success k c buf quiet plain
                            (after_lines k c buf quiet plain laws s start) (start, end) h first)))))

  -- Where the loop stands after a line that was visited.
  pub Ready-visited :
      (fuel pos : ℕ) (s s' : State σ) (start end : ℕ)
      → Ready k c buf quiet plain laws (suc fuel) pos s
      → Next c buf pos start end
      → s'.out.last_line_visited ≤ end
      → s'.out.after_context_left ≤ c.after_context
      → Ready k c buf quiet plain laws fuel end s'
  Ready-visited fuel pos s s' start end r n v l = record {
    behind = v;
    owed = l;
    enough_fuel = (let a = r.enough_fuel in let b = n.ahead in let d = n.nonempty in omega arith);
    in_buffer = n.in_buffer;
    boundary = n.end_at;
  }

  after_lines-visited :
      (s : State σ) (end : ℕ)
      → s.out.last_line_visited ≡ end
      → after_lines k c buf quiet plain laws s end ≡ s
  after_lines-visited s end v =
      ap (drained k c buf quiet plain s)
        (lines-nil (line_term c) buf s.out.last_line_visited end (omega arith))

  -- The loop goes on from a match.
  pub match-slow :
      (fuel pos : ℕ) (s : State σ) (start end : ℕ)
      → Ready k c buf quiet plain laws (suc fuel) pos s
      → s.match_limit_reached ≡ false
      → c.invert ≡ false
      → Next c buf pos start end
      → ((s' : State σ)
          → Ready k c buf quiet plain laws fuel end s'
          → Agrees k c buf quiet plain laws fuel end s')
      → and_then (fast_match k c buf s (start, end)) (λ s'. fast_from k c buf fuel end s')
        ≡ slow_after k c buf
            (after_lines k c buf quiet plain laws s pos)
            (lines_of c buf pos (length buf))
  match-slow fuel pos s start end r h i n later =
      let m = slow_match k c buf (after_lines k c buf quiet plain laws s start) (start, end) in
      ap (λ z. and_then z (λ s'. fast_from k c buf fuel end s'))
        (fast_match-slow k c buf quiet plain laws s start end r.owed)
      ∙ (and_then-same m _ _ (λ taken.
            let (v, l) =
              slow_match-visited k c buf quiet plain laws
                (after_lines k c buf quiet plain laws s start) start end taken in
            later m.0 (Ready-visited fuel pos s m.0 start end r n (omega arith) (omega arith))
            ∙ ap (λ z. slow_after k c buf z (lines_of c buf end (length buf)))
                (after_lines-visited m.0 end v))
          ∙ sym (slow-at_match (suc fuel) pos s start end r h i n))
