-- ===== src/Search/Core/Inverted.antt =====
-- search/core.go: `matchByLineFastInvert` against the scan line by line.
use gripgrep.Base.{
  ℕ, suc, ◌≤◌, ◌<◌, ◌≡◌, refl, sym, ap, ◌∙◌, inl, inr, Bool, true, false, [], ◌∷◌, ◌++◌, append-nil,
  arith, ◌==◌, ==_iff, Bool-cases, Bytes, length,
}
use gripgrep.Search.Lines.Region.{lines-join, lines-nil}
use gripgrep.Search.Core.{Config, more, Sink, State, and_then, line_term, lines_of, verifies}
use gripgrep.Search.Core.Slow.{differ, slow_each}
use gripgrep.Search.Core.Drain.{TakesContext}
use gripgrep.Search.Core.Owed.{slow_after, drained, slow_after-going, slow_after-Unwanted}
use gripgrep.Search.Core.Fast.{gap, fast_from}
use gripgrep.Search.Core.Find.{Finds, NoneVerify, Next}
use gripgrep.Search.Core.Gap.{gap-slow_each}
use gripgrep.Search.Core.Agree.{
  after_lines, Ready, Agrees, after_lines-join, Wanted-of, lines_from-Next,
}
use gripgrep.Search.Core.Matched.{Ready-visited}

differ-both : (v i : Bool) → v ≡ true → i ≡ true → differ v i ≡ false
differ-both v i h k = simp (h, k) refl

module _ {σ : Type 0} (k : Sink σ) (c : Config) (buf : Bytes) (quiet : TakesContext k)
    (plain : c.pass_thru ≡ false) (laws : Finds c buf) where
  -- Over a line that matches, which is not asked for.
  over-match :
      (s : State σ) (pos start end : ℕ)
      → c.invert ≡ true
      → Next c buf pos start end
      → s.out.last_line_visited ≤ start
      → slow_after k c buf
          (after_lines k c buf quiet plain laws s start)
          ((start, end) ∷ lines_of c buf end (length buf))
        ≡ slow_after k c buf
            (after_lines k c buf quiet plain laws s end)
            (lines_of c buf end (length buf))
  over-match s pos start end i n v =
      let rest = lines_of c buf end (length buf) in
      let s1 = after_lines k c buf quiet plain laws s start in
      let forward : start ≤ end = (let x = n.nonempty in omega arith) in
      slow_after-Unwanted k c buf quiet plain s1 (start, end) rest
        (differ-both (verifies c buf (start, end)) c.invert n.matches i)
      ∙ ap (λ z. slow_after k c buf z rest)
          (ap (drained k c buf quiet plain s1) (sym n.one_line)
            ∙ sym (
                after_lines-join k c buf quiet plain laws s start end v forward n.in_buffer
                  n.start_at))

  -- The gap that ends with the buffer.
  pub last_gap-slow :
      (fuel pos : ℕ) (s : State σ)
      → Ready k c buf quiet plain laws (suc fuel) pos s
      → pos < length buf
      → s.match_limit_reached ≡ false
      → c.invert ≡ true
      → NoneVerify c buf (lines_of c buf pos (length buf))
      → ((s' : State σ)
          → Ready k c buf quiet plain laws fuel (length buf) s'
          → Agrees k c buf quiet plain laws fuel (length buf) s')
      → and_then (gap k c buf s pos (length buf)) (λ s'. fast_from k c buf fuel (length buf) s')
        ≡ slow_after k c buf
            (after_lines k c buf quiet plain laws s pos)
            (lines_of c buf pos (length buf))
  last_gap-slow fuel pos s r lt h i u later =
      sym (
        gap-slow_each k c buf quiet plain s pos (length buf) []
          (λ s'. fast_from k c buf fuel (length buf) s') h lt (omega arith)
          (Wanted-of k c buf quiet plain laws _ i u)
          (λ s' v l.
            later s' record {
              behind = v;
              owed = l;
              enough_fuel = (let a = r.enough_fuel in omega arith);
              in_buffer = omega arith;
              boundary = inr (omega arith);
            }
            ∙ ap (slow_after k c buf (after_lines k c buf quiet plain laws s' (length buf)))
                (lines-nil (line_term c) buf (length buf) (length buf) (omega arith))))
      ∙ (ap (slow_each k c buf (after_lines k c buf quiet plain laws s pos))
            (append-nil (lines_of c buf pos (length buf)))
          ∙ sym (
              slow_after-going k c buf quiet plain (after_lines k c buf quiet plain laws s pos) _
                h))

  no-gap : (s : State σ) (pos start : ℕ) → pos ≡ start → gap k c buf s pos start ≡ (s, more)
  unfolding gap
  no-gap s pos start e = rw ((==_iff pos start).1 e) refl

  -- A match that starts where the gap would.
  touching-slow :
      (fuel pos : ℕ) (s : State σ) (start end : ℕ)
      → Ready k c buf quiet plain laws (suc fuel) pos s
      → c.invert ≡ true
      → Next c buf pos start end
      → pos ≡ start
      → ((s' : State σ)
          → Ready k c buf quiet plain laws fuel end s'
          → Agrees k c buf quiet plain laws fuel end s')
      → and_then (gap k c buf s pos start) (λ s'. fast_from k c buf fuel end s')
        ≡ slow_after k c buf
            (after_lines k c buf quiet plain laws s pos)
            (lines_of c buf pos (length buf))
  touching-slow fuel pos s start end r i n e later =
      let b = r.behind in
      let o = r.owed in
      let w = n.nonempty in
      ap (λ z. and_then z (λ s'. fast_from k c buf fuel end s')) (no-gap s pos start e)
      ∙ (later s (Ready-visited k c buf quiet plain laws fuel pos s s start end r n (omega arith) o)
          ∙ (sym (over-match s pos start end i n (omega arith))
              ∙ (ap (slow_after k c buf (after_lines k c buf quiet plain laws s start))
                    (sym (lines_from-Next k c buf quiet plain laws pos start end n))
                  ∙ ap
                      (λ z.
                        slow_after k c buf (after_lines k c buf quiet plain laws s z)
                          (lines_of c buf z (length buf)))
                      (sym e))))

  -- A gap before a match.
  pub gap-slow :
      (fuel pos : ℕ) (s : State σ) (start end : ℕ)
      → Ready k c buf quiet plain laws (suc fuel) pos s
      → s.match_limit_reached ≡ false
      → c.invert ≡ true
      → Next c buf pos start end
      → ((s' : State σ)
          → Ready k c buf quiet plain laws fuel end s'
          → Agrees k c buf quiet plain laws fuel end s')
      → and_then (gap k c buf s pos start) (λ s'. fast_from k c buf fuel end s')
        ≡ slow_after k c buf
            (after_lines k c buf quiet plain laws s pos)
            (lines_of c buf pos (length buf))
  gap-slow fuel pos s start end r h i n later = elim (Bool-cases (pos == start)) [
    | inl e ↦ touching-slow fuel pos s start end r i n ((==_iff pos start).0 e) later
    | inr e ↦
        let a = n.ahead in
        let w = n.nonempty in
        let x = n.in_buffer in
        let s1 = after_lines k c buf quiet plain laws s pos in
        sym (
          gap-slow_each k c buf quiet plain s pos start
            ((start, end) ∷ lines_of c buf end (length buf)) (λ s'. fast_from k c buf fuel end s') h
            (ground arith) (omega arith) (Wanted-of k c buf quiet plain laws _ i n.skipped)
            (λ s' v l.
              later s'
                (Ready-visited k c buf quiet plain laws fuel pos s s' start end r n (omega arith) l)
              ∙ sym (over-match s' pos start end i n v)))
        ∙ (ap (slow_each k c buf s1) (
              sym (
                lines-join (line_term c) buf pos start (length buf) a (omega arith) (omega arith)
                  n.start_at
                ∙ ap (λ z. lines_of c buf pos start ++ z)
                    (lines_from-Next k c buf quiet plain laws pos start end n)))
            ∙ sym (slow_after-going k c buf quiet plain s1 _ h))
  ]
