-- ===== src/Search/Core/Find.antt =====
-- search/core.go: what `findByLineFast` finds, by what the matcher promises.
use gripgrep.Base.{
  ℕ, zero, suc, ◌+◌, ◌≤◌, ◌<◌, ◌≡◌, refl, sym, ap, ◌∙◌, subst, inl, inr, true, false, Option, none,
  some, List, [], ◌∷◌, ◌++◌, arith, ltb, ◌==◌, ==_iff, Bool-cases, Option-cases, Bytes, length,
  length-append, length-take,
}
use gripgrep.Base.Any.{All}
use gripgrep.Search.Lines.{Range, line_locate}
use gripgrep.Search.Lines.Locate.{line_locate-Bounds}
use gripgrep.Search.Lines.Region.{lines, Boundary, lines-join, lines-nil}
use gripgrep.Search.Lines.Located.{Located, line_locate-Located, start-after}
use gripgrep.Search.Core.{Kind, candidate, confirmed, Config, line_term, verifies}
use gripgrep.Search.Core.Fast.{found_at, find_by_line_fast}

-- No line of the list matches.
abbrev pub NoneVerify : Config → Bytes → List Range → Type 0
NoneVerify c buf rs = All (λ r. verifies c buf r ≡ false) rs

abbrev pub start_of : Config → Bytes → ℕ → ℕ
start_of c buf off = (line_locate buf (line_term c) off off).0

-- The contract of `FindCandidate` with `Verify` and `Confirmed`, on one buffer, from a place where a
-- line starts: no line that starts before the candidate's is a match.
pub record Finds (c : Config) (buf : Bytes) : Type 0 where
  pub in_range :
      (pos off : ℕ) (kind : Kind)
      → c.matcher.find_candidate buf pos ≡ some (off, kind)
      → (pos ≤ off) × (off ≤ length buf)
  pub skips :
      (pos off : ℕ) (kind : Kind)
      → Boundary (line_term c) buf pos
      → c.matcher.find_candidate buf pos ≡ some (off, kind)
      → NoneVerify c buf (lines (line_term c) buf pos (start_of c buf off))
  pub none_left :
      (pos : ℕ)
      → Boundary (line_term c) buf pos
      → c.matcher.find_candidate buf pos ≡ none
      → NoneVerify c buf (lines (line_term c) buf pos (length buf))
  pub confirms :
      (pos off : ℕ)
      → c.matcher.find_candidate buf pos ≡ some (off, confirmed)
      → start_of c buf off < length buf
      → verifies c buf (line_locate buf (line_term c) off off) ≡ true

module _ (c : Config) (buf : Bytes) where
  abbrev t : ℕ
  t = line_term c

  -- The next line that matches, with what is known of the lines before it.
  pub record Next (pos start end : ℕ) : Type 0 where
    pub ahead : pos ≤ start
    pub nonempty : start < end
    pub in_buffer : end ≤ length buf
    pub start_at : Boundary t buf start
    pub end_at : Boundary t buf end
    pub one_line : lines t buf start end ≡ (start, end) ∷ []
    pub skipped : NoneVerify c buf (lines t buf pos start)
    pub matches : verifies c buf (start, end) ≡ true

  abbrev pub Found : ℕ → Option Range → Type 0
  Found pos none = NoneVerify c buf (lines t buf pos (length buf))
  Found pos (some (start, end)) = Next pos start end

  All-append : (P : Range → Type 0) (xs ys : List Range) → All P xs → All P ys → All P (xs ++ ys)
  All-append P [] ys h k = k
  All-append P (x ∷ xs) ys (p, h) k = (p, All-append P xs ys h k)

  NoneVerify-join :
      (a b e : ℕ)
      → a ≤ b
      → b ≤ e
      → e ≤ length buf
      → Boundary t buf b
      → NoneVerify c buf (lines t buf a b)
      → NoneVerify c buf (lines t buf b e)
      → NoneVerify c buf (lines t buf a e)
  NoneVerify-join a b e h k l d x y =
      subst (NoneVerify c buf) (sym (lines-join t buf a b e h k l d)) (All-append _ _ _ x y)

  Found-later :
      (a b : ℕ) (r : Option Range)
      → a ≤ b
      → b ≤ length buf
      → Boundary t buf b
      → NoneVerify c buf (lines t buf a b)
      → Found b r
      → Found a r
  Found-later a b none h k d x y = NoneVerify-join a b (length buf) h k (omega arith) d x y
  Found-later a b (some (s, e)) h k d x y = record {
    ahead = let z = y.ahead in omega arith;
    nonempty = y.nonempty;
    in_buffer = y.in_buffer;
    start_at = y.start_at;
    end_at = y.end_at;
    one_line = y.one_line;
    skipped =
        NoneVerify-join a b s h y.ahead (let z = y.nonempty in let w = y.in_buffer in omega arith) d
          x y.skipped;
    matches = y.matches;
  }

  module _ (laws : Finds c buf) where
    start_le :
        (pos off : ℕ) (kind : Kind)
        → pos < length buf
        → Boundary t buf pos
        → c.matcher.find_candidate buf pos ≡ some (off, kind)
        → pos ≤ start_of c buf off
    start_le pos off kind h (inl d) e =
        let (from, inside) = laws.in_range pos off kind e in
        start-after t buf pos off _ (line_locate-Bounds buf t off off).0 inside from d
    start_le pos off kind h (inr d) e = absurd (omega arith)

    located_inside :
        (off : ℕ)
        → off ≤ length buf
        → (start_of c buf off == length buf) ≡ false
        → start_of c buf off < length buf
    located_inside off h e =
        let (before, line, q, l, _, _) = (line_locate-Bounds buf t off off).0 in
        let m = ap length q ∙ length-append before line in
        let n = length-take off buf in
        let le : start_of c buf off ≤ length buf = omega arith in ground arith

    Next-of :
        (pos off : ℕ) (kind : Kind)
        → pos < length buf
        → Boundary t buf pos
        → c.matcher.find_candidate buf pos ≡ some (off, kind)
        → (start_of c buf off < length buf)
        → verifies c buf (line_locate buf t off off) ≡ true
        → Next pos (start_of c buf off) (line_locate buf t off off).1
    Next-of pos off kind h d e k v =
        let (from, inside) = laws.in_range pos off kind e in
        let l = line_locate-Located t buf off inside k in
        record {
          ahead = start_le pos off kind h d e;
          nonempty = l.nonempty;
          in_buffer = l.in_buffer;
          start_at = l.start_at;
          end_at = l.end_at;
          one_line = l.one_line;
          skipped = laws.skips pos off kind d e;
          matches = v;
        }

    -- A candidate whose line does not match is passed over.
    NoneVerify-line :
        (pos off : ℕ) (kind : Kind)
        → pos < length buf
        → Boundary t buf pos
        → c.matcher.find_candidate buf pos ≡ some (off, kind)
        → Located t buf off (start_of c buf off) (line_locate buf t off off).1
        → verifies c buf (line_locate buf t off off) ≡ false
        → NoneVerify c buf (lines t buf pos (line_locate buf t off off).1)
    NoneVerify-line pos off kind h d e l v =
        NoneVerify-join pos (start_of c buf off) (line_locate buf t off off).1
          (start_le pos off kind h d e) (let z = l.nonempty in omega arith) l.in_buffer l.start_at
          (laws.skips pos off kind d e) (subst (NoneVerify c buf) (sym l.one_line) (v, tt))

    found_at-past :
        (off : ℕ) (kind : Kind) (onward : Option Range)
        → (start_of c buf off == length buf) ≡ true
        → found_at c buf (line_locate buf t off off) kind onward ≡ none
    found_at-past off candidate onward e = rw e refl
    found_at-past off confirmed onward e = rw e refl

    found_at-inside :
        (fuel pos off : ℕ) (kind : Kind)
        → pos < length buf
        → Boundary t buf pos
        → c.matcher.find_candidate buf pos ≡ some (off, kind)
        → start_of c buf off < length buf
        → (start_of c buf off == length buf) ≡ false
        → (Located t buf off (start_of c buf off) (line_locate buf t off off).1
            → verifies c buf (line_locate buf t off off) ≡ false
            → Found pos (find_by_line_fast fuel c buf (line_locate buf t off off).1))
        → Found pos (
            found_at c buf
              (line_locate buf t off off)
              kind
              (find_by_line_fast fuel c buf (line_locate buf t off off).1))
    found_at-inside fuel pos off confirmed h d e k i later =
        rw i (Next-of pos off confirmed h d e k (laws.confirms pos off e k))
    found_at-inside fuel pos off candidate h d e k i later =
        elim (Bool-cases (verifies c buf (line_locate buf t off off))) [
          | inl v ↦ simp (i, v) (Next-of pos off candidate h d e k v)
          | inr v ↦
              simp (i, v)
                (later (line_locate-Located t buf off (laws.in_range pos off candidate e).1 k) v)
        ]

    -- What the answer for one candidate is, by what it is where the search goes on.
    found_at-Found :
        (fuel pos off : ℕ) (kind : Kind)
        → pos < length buf
        → Boundary t buf pos
        → c.matcher.find_candidate buf pos ≡ some (off, kind)
        → (Located t buf off (start_of c buf off) (line_locate buf t off off).1
            → verifies c buf (line_locate buf t off off) ≡ false
            → Found pos (find_by_line_fast fuel c buf (line_locate buf t off off).1))
        → Found pos (
            found_at c buf
              (line_locate buf t off off)
              kind
              (find_by_line_fast fuel c buf (line_locate buf t off off).1))
    found_at-Found fuel pos off kind h d e later =
        elim (Bool-cases (start_of c buf off == length buf)) [
          | inl past ↦
              let q : start_of c buf off ≡ length buf = (==_iff _ _).0 past in
              subst (Found pos) (sym (found_at-past off kind _ past))
                (subst (λ z. NoneVerify c buf (lines t buf pos z)) q (laws.skips pos off kind d e))
          | inr inside ↦
              let k : start_of c buf off < length buf =
                located_inside off (laws.in_range pos off kind e).1 inside in
              found_at-inside fuel pos off kind h d e k inside later
        ]

    pub find_by_line_fast-Found :
        (fuel pos : ℕ)
        → length buf < fuel + pos
        → pos ≤ length buf
        → Boundary t buf pos
        → Found pos (find_by_line_fast fuel c buf pos)
    unfolding find_by_line_fast
    find_by_line_fast-Found zero pos h k d = absurd (omega arith)
    find_by_line_fast-Found (suc fuel) pos h k d = elim (Bool-cases (ltb pos (length buf))) [
      | inr out ↦
          simp out
            (subst (NoneVerify c buf) (sym (lines-nil t buf pos (length buf) (ground arith))) tt)
      | inl in_buf ↦ elim (Option-cases (c.matcher.find_candidate buf pos)) [
        | inl e ↦ simp (in_buf, e) (laws.none_left pos d e)
        | inr ((off, kind), e) ↦
            simp (in_buf, e)
              (found_at-Found fuel pos off kind (ground arith) d e (λ l v.
                Found-later pos (line_locate buf t off off).1 _
                  (let a = (laws.in_range pos off kind e).0 in
                    let b = l.from in
                    let z = l.nonempty in
                    let w = start_le pos off kind (ground arith) d e in omega arith)
                  l.in_buffer l.end_at (NoneVerify-line pos off kind (ground arith) d e l v)
                  (find_by_line_fast-Found fuel (line_locate buf t off off).1
                    (let z = l.nonempty in
                      let w = start_le pos off kind (ground arith) d e in omega arith)
                    l.in_buffer l.end_at)))
      ]
    ]
